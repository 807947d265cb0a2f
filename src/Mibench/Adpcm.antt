-- ===== src/Mibench/Adpcm.antt =====
-- `adpcm_coder` and `adpcm_decoder` of mibench/telecomm/adpcm/src/adpcm.c. An `int` is an integer,
-- or a natural number where it is never negative; none of them leaves 32 bits on 16-bit samples. A
-- code byte is its pattern: `(inputbuffer >> 4) & 0xf` does not see the sign that a `char` extends.
-- The tables are read at a 4-bit code and at a clamped index.
pub mod Laws
pub mod Bounds
use Prim.Native.Nat.{bit_and, bit_or}
use riscv_sbt.Prelude.{
  ℕ, zero, suc, ◌+◌, ◌-◌, ◌*◌, ◌/◌, ◌^◌, Bool, true, false, not, List, [], ◌∷◌, Option, none, some,
  leb, ltb, ◌==◌, if◌then◌else◌, get_or,
}
use riscv_sbt.Prelude.Int.{ℤ, pos, negsuc, ◌+ℤ◌, ◌-ℤ◌, ltb_ℤ}

-- `struct adpcm_state`
pub record State : Type 0 where
  pub valprev : ℤ
  pub index : ℕ

unfoldable pub index_table : List ℤ
index_table =
    negsuc 0
    ∷ negsuc 0
    ∷ negsuc 0
    ∷ negsuc 0
    ∷ pos 2
    ∷ pos 4
    ∷ pos 6
    ∷ pos 8
    ∷ negsuc 0
    ∷ negsuc 0
    ∷ negsuc 0
    ∷ negsuc 0
    ∷ pos 2
    ∷ pos 4
    ∷ pos 6
    ∷ pos 8
    ∷ []

unfoldable pub stepsize_table : List ℕ
stepsize_table =
    7 ∷ 8 ∷ 9 ∷ 10 ∷ 11 ∷ 12 ∷ 13 ∷ 14 ∷ 16 ∷ 17 ∷ 19 ∷ 21 ∷ 23 ∷ 25 ∷ 28 ∷ 31 ∷ 34 ∷ 37 ∷ 41 ∷ 45
    ∷ 50 ∷ 55 ∷ 60 ∷ 66 ∷ 73 ∷ 80 ∷ 88 ∷ 97 ∷ 107 ∷ 118 ∷ 130 ∷ 143 ∷ 157 ∷ 173 ∷ 190 ∷ 209 ∷ 230
    ∷ 253 ∷ 279 ∷ 307 ∷ 337 ∷ 371 ∷ 408 ∷ 449 ∷ 494 ∷ 544 ∷ 598 ∷ 658 ∷ 724 ∷ 796 ∷ 876 ∷ 963 ∷ 1060
    ∷ 1166 ∷ 1282 ∷ 1411 ∷ 1552 ∷ 1707 ∷ 1878 ∷ 2066 ∷ 2272 ∷ 2499 ∷ 2749 ∷ 3024 ∷ 3327 ∷ 3660
    ∷ 4026 ∷ 4428 ∷ 4871 ∷ 5358 ∷ 5894 ∷ 6484 ∷ 7132 ∷ 7845 ∷ 8630 ∷ 9493 ∷ 10442 ∷ 11487 ∷ 12635
    ∷ 13899 ∷ 15289 ∷ 16818 ∷ 18500 ∷ 20350 ∷ 22385 ∷ 24623 ∷ 27086 ∷ 29794 ∷ 32767 ∷ []

unfoldable pub step_size : ℕ → ℕ
step_size index = get_or stepsize_table index 0

clamp_index : ℤ → ℕ
clamp_index (pos n) = if ltb 88 n then 88 else n
clamp_index (negsuc n) = 0

unfoldable pub next_index : ℕ → ℕ → ℕ
unfolding clamp_index
next_index index delta = clamp_index (pos index +ℤ get_or index_table delta (pos 0))

-- The value moved by a difference and clamped to 16 bits.
unfoldable pub clamp_value : ℤ → ℤ
clamp_value v =
    if ltb_ℤ (pos 32767) v then pos 32767 else if ltb_ℤ v (negsuc 32767) then negsuc 32767 else v

unfoldable pub move_value : Bool → ℤ → ℕ → ℤ
unfolding clamp_value
move_value is_negative valpred vpdiff =
    clamp_value (if is_negative then valpred -ℤ pos vpdiff else valpred +ℤ pos vpdiff)

-- The code of a difference, without its sign, and the change of the value: step 2 of the coder.
unfoldable pub quantize : ℕ → ℕ → ℕ × ℕ
quantize diff step =
    let b4 = leb step diff in
    let diff' = if b4 then diff - step else diff in
    let step' = step / 2 in
    let b2 = leb step' diff' in
    let diff'' = if b2 then diff' - step' else diff' in
    let step'' = step' / 2 in
    let b1 = leb step'' diff'' in
    let d4 = if b4 then 4 else 0 in
    let d2 = if b2 then bit_or d4 2 else d4 in
    (
      (if b1 then bit_or d2 1 else d2),
      step / 8 + (if b4 then step else 0) + (if b2 then step' else 0) + (if b1 then step'' else 0),
    )

unfoldable pub magnitude : ℤ → ℕ
magnitude (pos n) = n
magnitude (negsuc n) = suc n

unfoldable pub sign_of : ℤ → ℕ
sign_of diff = if ltb_ℤ diff (pos 0) then 8 else 0

-- The variables that the loops carry.
pub record Loop : Type 0 where
  pub valpred : ℤ
  pub index : ℕ
  pub step : ℕ

unfoldable pub begin : State → Loop
unfolding step_size
begin st = record { valpred = st.valprev; index = st.index; step = step_size st.index }

unfoldable pub finish : Loop → State
finish s = record { valprev = s.valpred; index = s.index }

-- The 4-bit code of a sample: `delta` with its sign.
unfoldable pub code : ℤ → Loop → ℕ
unfolding quantize magnitude sign_of
code val s =
    let diff = val -ℤ s.valpred in bit_or (quantize (magnitude diff) s.step).0 (sign_of diff)

-- Steps 1 to 5 of the coder.
unfoldable pub encode : ℤ → Loop → Loop
unfolding quantize magnitude sign_of move_value next_index step_size code
encode val s =
    let diff = val -ℤ s.valpred in
    let index = next_index s.index (code val s) in
    record {
      valpred = move_value (ltb_ℤ diff (pos 0)) s.valpred (quantize (magnitude diff) s.step).1;
      index = index;
      step = step_size index;
    }

-- The change of the value that a magnitude stands for: step 4 of the decoder.
unfoldable pub dequantize : ℕ → ℕ → ℕ
dequantize d step =
    step / 8
    + (if bit_and d 4 == 0 then 0 else step)
    + (if bit_and d 2 == 0 then 0 else step / 2)
    + (if bit_and d 1 == 0 then 0 else step / 4)

-- Steps 2 to 6 of the decoder.
unfoldable pub decode : ℕ → Loop → Loop
unfolding move_value next_index step_size dequantize
decode delta s =
    let index = next_index s.index delta in
    record {
      valpred =
          move_value (not (bit_and delta 8 == 0)) s.valpred (dequantize (bit_and delta 7) s.step);
      index = index;
      step = step_size index;
    }

-- The loop of the coder; a code waits in the buffer where there is one.
unfoldable pub encode_all : Option ℕ → List ℤ → Loop → List ℕ × State
unfolding finish code encode
encode_all none [] s = ([], finish s)
encode_all (some buffer) [] s = (buffer ∷ [], finish s)
encode_all none (val ∷ vals) s =
    encode_all (some (bit_and (code val s * 2 ^ 4) 0xf0)) vals (encode val s)
encode_all (some buffer) (val ∷ vals) s =
    let rest = encode_all none vals (encode val s) in
    (bit_or (bit_and (code val s) 0x0f) buffer ∷ rest.0, rest.1)

unfoldable pub adpcm_coder : List ℤ → State → List ℕ × State
unfolding encode_all begin
adpcm_coder vals st = encode_all none vals (begin st)

-- The value that the decoder puts out, in front of the rest.
abbrev pub put : ℤ → Option (List ℤ × State) → Option (List ℤ × State)
put v none = none
put v (some (vs, st)) = some (v ∷ vs, st)

-- The loop of the decoder, for `len` samples; `none` is a read past the end.
unfoldable pub decode_all : ℕ → Option ℕ → List ℕ → Loop → Option (List ℤ × State)
unfolding finish decode
decode_all zero buffer inp s = some ([], finish s)
decode_all (suc len) (some buffer) inp s =
    let s' = decode (bit_and buffer 0xf) s in put s'.valpred (decode_all len none inp s')
decode_all (suc len) none [] s = none
decode_all (suc len) none (byte ∷ inp) s =
    let s' = decode (bit_and (byte / 2 ^ 4) 0xf) s in
    put s'.valpred (decode_all len (some byte) inp s')

unfoldable pub adpcm_decoder : ℕ → List ℕ → State → Option (List ℤ × State)
unfolding decode_all begin
adpcm_decoder len inp st = decode_all len none inp (begin st)
