-- ===== src/Mibench/Adpcm/Laws.antt =====
-- The decoder of adpcm.c on what the coder puts out: codes, bytes and the two loops.
use Prim.Native.Nat.{bit_and, bit_or}
use riscv_sbt.Prelude.{
  ℕ, suc, ◌+◌, ◌-◌, ◌*◌, ◌/◌, ◌^◌, ◌<◌, ◌≡◌, refl, sym, ap, ◌∙◌, arith, Bool, not, List, [], ◌∷◌,
  none, some, leb, ◌==◌, if◌then◌else◌, length,
}
use riscv_sbt.Prelude.Bits.{bit_and_mask, bit_and_high, bit_or_add}
use riscv_sbt.Prelude.Int.{ℤ, pos, ◌-ℤ◌, ltb_ℤ}
use riscv_sbt.Mibench.Adpcm.{
  State, Loop, quantize, magnitude, dequantize, code, encode, decode, encode_all, decode_all, begin,
  finish, put, adpcm_coder, adpcm_decoder,
}

-- The code of three magnitude bits and a sign.
code_of : Bool → Bool → Bool → Bool → ℕ
code_of b4 b2 b1 n =
    let d4 = if b4 then 4 else 0 in
    let d2 = if b2 then bit_or d4 2 else d4 in
    bit_or (if b1 then bit_or d2 1 else d2) (if n then 8 else 0)

-- The decoder reads the sign and the change of the value off the code.
code_of-lt : (b4 b2 b1 n : Bool) → code_of b4 b2 b1 n < 16
unfolding code_of
code_of-lt b4 b2 b1 n = ground arith

code_of-sign : (b4 b2 b1 n : Bool) → not (bit_and (code_of b4 b2 b1 n) 8 == 0) ≡ n
unfolding code_of
code_of-sign b4 b2 b1 n = ground arith

code_of-change :
    (b4 b2 b1 n : Bool) (step : ℕ)
    → dequantize (bit_and (code_of b4 b2 b1 n) 7) step
      ≡ step / 8
        + (if b4 then step else 0)
        + (if b2 then step / 2 else 0)
        + (if b1 then step / 2 / 2 else 0)
unfolding code_of dequantize
code_of-change b4 b2 b1 n step = ground arith

-- The bits that the coder tests.
bit_4 : ℕ → ℕ → Bool
bit_4 diff step = leb step diff

bit_2 : ℕ → ℕ → Bool
bit_2 diff step = leb (step / 2) (if leb step diff then diff - step else diff)

bit_1 : ℕ → ℕ → Bool
bit_1 diff step =
    let diff' = if leb step diff then diff - step else diff in
    leb (step / 2 / 2) (if leb (step / 2) diff' then diff' - step / 2 else diff')

code-code_of :
    (val : ℤ) (s : Loop)
    → let diff = magnitude (val -ℤ s.valpred) in
      code val s
      ≡ code_of
          (bit_4 diff s.step)
          (bit_2 diff s.step)
          (bit_1 diff s.step)
          (ltb_ℤ (val -ℤ s.valpred) (pos 0))
unfolding code code_of bit_4 bit_2 bit_1
code-code_of val s = refl

quantize-change :
    (diff step : ℕ)
    → (quantize diff step).1
      ≡ step / 8
        + (if bit_4 diff step then step else 0)
        + (if bit_2 diff step then step / 2 else 0)
        + (if bit_1 diff step then step / 2 / 2 else 0)
unfolding quantize bit_4 bit_2 bit_1
quantize-change diff step = refl

code-lt : (val : ℤ) (s : Loop) → code val s < 16
code-lt val s = rw code-code_of (code_of-lt _ _ _ _)

code-sign :
    (val : ℤ) (s : Loop) → not (bit_and (code val s) 8 == 0) ≡ ltb_ℤ (val -ℤ s.valpred) (pos 0)
code-sign val s = rw code-code_of (code_of-sign _ _ _ _)

code-change :
    (val : ℤ) (s : Loop)
    → dequantize (bit_and (code val s) 7) s.step
      ≡ (quantize (magnitude (val -ℤ s.valpred)) s.step).1
code-change val s = rw code-code_of (code_of-change _ _ _ _ s.step ∙ sym (quantize-change _ s.step))

decode-code : (val : ℤ) (s : Loop) → decode (code val s) s ≡ encode val s
unfolding decode encode
decode-code val s = rw (code-sign, code-change) refl

-- Two codes make a byte, the first one in the high digits.
abbrev high : ℕ → ℕ
high d = bit_and (d * 2 ^ 4) 0xf0

high-value : (d : ℕ) → d < 16 → high d ≡ d * 2 ^ 4
high-value d h =
    omega (
      arith,
      bit_and_high 4 15 (d * 16),
      bit_and_mask 4 d,
      ap (λ (t : ℕ). bit_and t 15) (times_16 d),
    )
  where
    times_16 : (d : ℕ) → d * 16 / 16 ≡ d
    times_16 d = omega arith

byte-value : (d e : ℕ) → d < 16 → e < 16 → bit_or (bit_and e 0x0f) (high d) ≡ e + d * 2 ^ 4
byte-value d e h g =
    rw (high-value d h, bit_and_mask 4 e)
      (ap (λ (t : ℕ). bit_or t (d * 2 ^ 4)) (omega arith) ∙ bit_or_add 4 e d g)

high_code : (d e : ℕ) → d < 16 → e < 16 → bit_and ((e + d * 2 ^ 4) / 2 ^ 4) 0xf ≡ d
high_code d e h g = omega (arith, bit_and_mask 4 ((e + d * 16) / 16))

low_code : (d e : ℕ) → d < 16 → e < 16 → bit_and (e + d * 2 ^ 4) 0xf ≡ e
low_code d e h g = omega (arith, bit_and_mask 4 (e + d * 16))

alone_code : (d : ℕ) → d < 16 → bit_and (high d / 2 ^ 4) 0xf ≡ d
alone_code d h = rw high-value (omega (arith, bit_and_mask 4 (d * 16 / 16)))

-- The values that the coder predicts, one for each sample.
unfoldable pub predictions : List ℤ → Loop → List ℤ
predictions [] s = []
predictions (val ∷ vals) s = (encode val s).valpred ∷ predictions vals (encode val s)

decode-first :
    (v : ℤ) (s : Loop) (byte : ℕ)
    → bit_and (byte / 2 ^ 4) 0xf ≡ code v s
    → decode (bit_and (byte / 2 ^ 4) 0xf) s ≡ encode v s
decode-first v s byte e = ap (λ (c : ℕ). decode c s) e ∙ decode-code v s

decode_all-encode_all :
    (vals : List ℤ) (s : Loop)
    → decode_all (length vals) none (encode_all none vals s).0 s
      ≡ some (predictions vals s, (encode_all none vals s).1)
unfolding predictions encode_all decode_all
decode_all-encode_all [] s = refl
decode_all-encode_all (v ∷ []) s =
    ap (λ (s' : Loop). put s'.valpred (some ([], finish s')))
      (decode-first v s (high (code v s)) (alone_code (code v s) (code-lt v s)))
decode_all-encode_all (v ∷ w ∷ vals) s =
    let s' = encode v s in
    let s'' = encode w s' in
    let byte = bit_or (bit_and (code w s') 0x0f) (high (code v s)) in
    let rest = (encode_all none vals s'').0 in
    ap (λ (t : Loop). put t.valpred (decode_all (suc (length vals)) (some byte) rest t))
      (decode-first v s byte (
        ap (λ (b : ℕ). bit_and (b / 2 ^ 4) 0xf)
          (byte-value (code v s) (code w s') (code-lt v s) (code-lt w s'))
        ∙ high_code (code v s) (code w s') (code-lt v s) (code-lt w s')))
    ∙ ap (λ (t : Loop). put s'.valpred (put t.valpred (decode_all (length vals) none rest t)))
        (ap (λ (c : ℕ). decode c s')
            (ap (λ (b : ℕ). bit_and b 0xf)
                (byte-value (code v s) (code w s') (code-lt v s) (code-lt w s'))
              ∙ low_code (code v s) (code w s') (code-lt v s) (code-lt w s'))
          ∙ decode-code w s')
    ∙ ap (λ o. put s'.valpred (put s''.valpred o)) (decode_all-encode_all vals s'')

-- From the coder's initial state and with its output, the decoder gives the values that the coder
-- predicted, one for each sample, and reaches the coder's final state.
pub adpcm_decoder-adpcm_coder :
    (vals : List ℤ) (st : State)
    → adpcm_decoder (length vals) (adpcm_coder vals st).0 st
      ≡ some (predictions vals (begin st), (adpcm_coder vals st).1)
unfolding adpcm_coder adpcm_decoder
adpcm_decoder-adpcm_coder vals st = decode_all-encode_all vals (begin st)
