-- ===== src/Sbt/Relocation/Laws.antt =====
-- The high and low parts that `handleRelocation` of sbt/Relocation.cpp makes of a symbol, against its
-- address.
use Prim.Native.Nat.{bit_and}
use riscv_sbt.Prelude.{
  ℕ, ◌+◌, ◌-◌, ◌*◌, ◌/◌, ◌%◌, ◌^◌, ◌<◌, ◌≡◌, ◌⊎◌, inl, inr, refl, ap, List, [], ◌∷◌, Option, none,
  some, arith,
}
use riscv_sbt.Prelude.Bits.{bit_and_mask, bit_and_high}
use riscv_sbt.Sbt.Ir.{Llvm, symbol}
use riscv_sbt.Sbt.Ir.LangRef.{LangRef}
use riscv_sbt.Sbt.Relocation.{
  hi20, lo12_i, lo12_s, call, pcrel_lo12_i, pcrel_lo12_s, branch, jal, proxy_call_hi, proxy_call_lo,
  rel_fn,
}
use riscv_sbt.Sbt.Relocation.Cursor.{
  Reloc, Cursor, skip_relax, is_relax, is_call, constant, undefined, apply_rel_fn,
  handle_relocation,
}
use riscv_sbt.Sbt.Relocation.Cursor.Laws.{After, lo_of_call, resolve-call, resolve-other}

high_bits : (x : ℕ) → x < 2 ^ 32 → bit_and x 0xfffff000 ≡ x / 4096 * 4096
high_bits x h = omega (arith, bit_and_high 12 (2 ^ 20 - 1) x, bit_and_mask 20 (x / 4096))

-- The parts as numbers: the high part rounds to the nearest multiple of 4096.
abbrev pub hi_of : ℕ → ℕ
hi_of s = (s + 2048) % 2 ^ 32 / 4096

abbrev pub lo_of : ℕ → ℕ
lo_of s = (s + (2 ^ 32 - hi_of s * 4096)) % 2 ^ 32

-- The low part is a signed 12-bit immediate, the high part one of 20 bits, and they add up to `s`.
abbrev pub Splits : ℕ → ℕ → ℕ → Type 0
Splits s hi lo = (hi < 2 ^ 20) × ((lo + 2048) % 2 ^ 32 < 4096) × ((hi * 4096 + lo) % 2 ^ 32 ≡ s)

parts-Splits : (s : ℕ) → s < 2 ^ 32 → Splits s (hi_of s) (lo_of s)
parts-Splits s h = omega arith

module _ {L : Llvm} (lang : LangRef L) where
  rel_fn-hi20 :
      (pc : ℕ) (hp : Option ℕ) (s : ℕ)
      → s < 2 ^ 32
      → rel_fn L hi20 pc hp (symbol 32 s) ≡ some (symbol 32 (hi_of s))
  unfolding rel_fn
  rel_fn-hi20 pc hp s h =
      ground (arith, lang.add 32 s 2048, lang.lshr 32 ((s + 2048) % 2 ^ 32) 12 (omega arith))

  rel_fn-lo12 :
      (pc : ℕ) (hp : Option ℕ) (s : ℕ)
      → s < 2 ^ 32
      → rel_fn L lo12_i pc hp (symbol 32 s) ≡ some (symbol 32 (lo_of s))
  unfolding rel_fn
  rel_fn-lo12 pc hp s h = ground (
    arith,
    lang.add 32 s 2048,
    lang.and 32 ((s + 2048) % 2 ^ 32) 0xfffff000,
    high_bits ((s + 2048) % 2 ^ 32) (omega arith),
    lang.sub 32 s (hi_of s * 4096),
  )

  -- The two parts of a 32-bit absolute address are immediates of the widths that `lui` and the second
  -- instruction have, and give the address back: `hi * 4096 + lo` is the symbol's address.
  pub absolute_parts :
      (pc pc' : ℕ) (hp hp' : Option ℕ) (s : ℕ)
      → s < 2 ^ 32
      → (hi : ℕ) × (lo : ℕ) × (rel_fn L hi20 pc hp (symbol 32 s) ≡ some (symbol 32 hi))
        × (rel_fn L lo12_i pc' hp' (symbol 32 s) ≡ some (symbol 32 lo))
        × (rel_fn L lo12_s pc' hp' (symbol 32 s) ≡ some (symbol 32 lo))
        × Splits s hi lo
  unfolding rel_fn
  absolute_parts pc pc' hp hp' s h = (
    hi_of s,
    lo_of s,
    rel_fn-hi20 pc hp s h,
    rel_fn-lo12 pc' hp' s h,
    rel_fn-lo12 pc' hp' s h,
    parts-Splits s h,
  )

  -- How far the symbol is from the program counter.
  abbrev distance : ℕ → ℕ → ℕ
  distance pc s = (s + (2 ^ 32 - pc)) % 2 ^ 32

  rel_fn-pcrel_hi :
      (pc : ℕ) (hp : Option ℕ) (s : ℕ)
      → pc < 2 ^ 32
      → rel_fn L proxy_call_hi pc hp (symbol 32 s) ≡ some (symbol 32 (hi_of (distance pc s)))
  unfolding rel_fn
  rel_fn-pcrel_hi pc hp s h =
      let d = distance pc s in
      ground (
        arith,
        lang.sub 32 s (pc % 2 ^ 32),
        lang.add 32 d 2048,
        lang.lshr 32 ((d + 2048) % 2 ^ 32) 12 (omega arith),
      )

  rel_fn-pcrel_lo :
      (pc hp s : ℕ)
      → hp < 2 ^ 32
      → rel_fn L proxy_call_lo pc (some hp) (symbol 32 s) ≡ some (symbol 32 (lo_of (distance hp s)))
  unfolding rel_fn
  rel_fn-pcrel_lo pc hp s h =
      let d = distance hp s in
      ground (
        arith,
        lang.sub 32 s (hp % 2 ^ 32),
        lang.add 32 d 2048,
        lang.and 32 ((d + 2048) % 2 ^ 32) 0xfffff000,
        high_bits ((d + 2048) % 2 ^ 32) (omega arith),
        lang.sub 32 d (hi_of d * 4096),
      )

  -- With no relocation but those to relax between a call's two instructions, at a 32-bit address: the
  -- relocation of the call is handled at both. The constants are immediates of 20 and 12 bits, and
  -- added to the call's address they give the symbol's.
  pub pcrel_parts :
      (r : Reloc) (rs : List Reloc) (s : ℕ)
      → r.kind ≡ call
      → After (r.offset + 4) rs
      → r.offset < 2 ^ 32
      → s < 2 ^ 32
      → let next : Cursor = record { relocs = skip_relax rs; proxies = lo_of_call r ∷ [] } in
        (hi : ℕ) × (lo : ℕ) × (handle_relocation L r.offset s
            (record { relocs = r ∷ rs; proxies = [] })
          ≡ constant (symbol 32 hi) next)
        × (handle_relocation L (r.offset + 4) s next
            ≡ constant (symbol 32 lo) (record { relocs = skip_relax rs; proxies = [] }))
        × (hi < 2 ^ 20)
        × ((lo + 2048) % 2 ^ 32 < 4096)
        × ((hi * 4096 + r.offset + lo) % 2 ^ 32 ≡ s)
  unfolding rel_fn handle_relocation apply_rel_fn
  pcrel_parts r rs s e after hpc hs =
      let pc = r.offset in
      let d = distance pc s in
      let parts = parts-Splits d (omega arith) in
      let (first, second) = resolve-call r rs e after in
      (
        hi_of d,
        lo_of d,
        rw (first, rel_fn-pcrel_hi pc (some 0) s hpc) refl,
        rw (second, rel_fn-pcrel_lo (pc + 4) pc s hpc) refl,
        parts.0,
        parts.1,
        omega (arith, parts.2),
      )

  -- The relocation that an ELF file has for the low part behind an `auipc` is no proxy: the code
  -- reads the address of the high part from it all the same, and nothing defined comes of it.
  pub pcrel_lo-undefined :
      (r : Reloc) (rs : List Reloc) (s : ℕ)
      → (r.kind ≡ pcrel_lo12_i) ⊎ (r.kind ≡ pcrel_lo12_s)
      → r.hi_pc ≡ none
      → After r.offset rs
      → handle_relocation L r.offset s (record { relocs = r ∷ rs; proxies = [] }) ≡ undefined
  unfolding rel_fn handle_relocation apply_rel_fn
  pcrel_lo-undefined r rs s (inl k) h after =
      rw (resolve-other r rs (ap is_relax k) (ap is_call k) after) (rw (k, h) refl)
  pcrel_lo-undefined r rs s (inr k) h after =
      rw (resolve-other r rs (ap is_relax k) (ap is_call k) after) (rw (k, h) refl)

  -- A branch or jump at a 32-bit address gets the offset that leads from it to the symbol.
  pub pc_offset-target :
      (pc : ℕ) (hp : Option ℕ) (s : ℕ)
      → pc < 2 ^ 32
      → s < 2 ^ 32
      → (off : ℕ) × (rel_fn L branch pc hp (symbol 32 s) ≡ some (symbol 32 off))
        × (rel_fn L jal pc hp (symbol 32 s) ≡ some (symbol 32 off))
        × ((pc + off) % 2 ^ 32 ≡ s)
  unfolding rel_fn
  pc_offset-target pc hp s hpc hs = (
    distance pc s,
    ground (arith, lang.sub 32 s (pc % 2 ^ 32)),
    ground (arith, lang.sub 32 s (pc % 2 ^ 32)),
    omega arith,
  )
