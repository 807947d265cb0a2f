-- ===== src/Sbt/Float/Moves.antt =====
-- The code that `translateFPLoad`, `translateFPStore` and `translateFMV` emit, against the manual.
use riscv_sbt.Prelude.{ℕ, ◌+◌, ◌*◌, ◌/◌, ◌%◌, ◌^◌, ◌<◌, ◌≡◌, some, arith, ap, ◌∙◌}
use riscv_sbt.Sbt.Ir.{Llvm, Machine, update, set_low}
use riscv_sbt.Sbt.Ir.LangRef.{LangRef, stored32, word_at, stored64}
use riscv_sbt.Sbt.Rv32.{read, write}
use riscv_sbt.Sbt.Operand.{no_reloc}
use riscv_sbt.Sbt.Instruction.Alu.Laws.{r_type, i_type}
use riscv_sbt.Sbt.Float.{FType, f_single, f_double, width}
use riscv_sbt.Sbt.Float.Translate.{
  translate_fp_load, translate_fp_store, translate_fmv_word, translate_fmv_float,
}
use riscv_sbt.Sbt.Hart.{hart, step, machine_of, step_again}
use riscv_sbt.Sbt.Float.Ieee.{Ieee, FloatRef}
use riscv_sbt.Sbt.Float.Laws.{put_float, put_int}

-- The bytes at an address, and those written there.
abbrev pub loaded_float : FType → (ℕ → ℕ) → ℕ → ℕ
loaded_float f_single mem p = word_at mem p
loaded_float f_double mem p = word_at mem p + 4294967296 * word_at mem (p + 4)

abbrev pub stored_float : FType → (ℕ → ℕ) → ℕ → ℕ → ℕ → ℕ
stored_float f_single = stored32
stored_float f_double = stored64

abbrev pub address : Machine → ℕ → ℕ → ℕ
address m rs1 v = (read m.regs rs1 + v) % 2 ^ 32

-- What is stored is loaded again.
word_at-stored : (mem : ℕ → ℕ) (p v : ℕ) → word_at (stored32 mem p v) p ≡ v % 4294967296
word_at-stored mem p v = ground arith

word_at-stored_past :
    (mem : ℕ → ℕ) (p v : ℕ) → word_at (stored32 mem p v) (p + 4) ≡ word_at mem (p + 4)
word_at-stored_past mem p v = ground arith

pub loaded_float-stored_float :
    (ft : FType) (mem : ℕ → ℕ) (p v : ℕ)
    → loaded_float ft (stored_float ft mem p v) p ≡ v % 2 ^ width ft
loaded_float-stored_float f_single mem p v = word_at-stored mem p v
loaded_float-stored_float f_double mem p v = omega (
  arith,
  word_at-stored (stored32 mem (p + 4) (v / 4294967296)) p v,
  word_at-stored_past (stored32 mem (p + 4) (v / 4294967296)) p v,
  word_at-stored mem (p + 4) (v / 4294967296),
)

module _ {L : Llvm} {F : Ieee} (lang : LangRef L) (ref : FloatRef L F) where
  load-loaded : (ft : FType) (mem : ℕ → ℕ) (p : ℕ) → L.load (width ft) mem p ≡ loaded_float ft mem p
  load-loaded f_single mem p = lang.load32 mem p
  load-loaded f_double mem p = ref.load64 mem p

  store-stored :
      (ft : FType) (mem : ℕ → ℕ) (p x : ℕ) → L.store (width ft) mem p x ≡ stored_float ft mem p x
  store-stored f_single mem p x = lang.store32 mem p x
  store-stored f_double mem p x = ref.store64 mem p x

  pub execute-fp_load :
      (ft : FType) (rd rs1 v : ℕ) (m : Machine)
      → step L (translate_fp_load ft no_reloc (i_type rd rs1 v)) m
        ≡ some (put_float m rd (width ft) (loaded_float ft m.mem (address m rs1 v)))
  unfolding translate_fp_load
  execute-fp_load ft rd rs1 v m =
      let a = read m.regs rs1 in
      let p = (a + v % 2 ^ 32) % 2 ^ 32 in
      ground (arith, lang.add 32 a (v % 2 ^ 32), lang.pointer_cast p)
      ∙ ap (λ x. some (put_float m rd (width ft) x)) (load-loaded ft m.mem (address m rs1 v))

  pub execute-fp_store :
      (ft : FType) (rs2 rs1 v : ℕ) (m : Machine)
      → step L (translate_fp_store ft no_reloc (i_type rs2 rs1 v)) m
        ≡ some (record (hart m) {
          mem = stored_float ft m.mem (address m rs1 v) (m.fregs rs2 % 2 ^ width ft);
        })
  unfolding translate_fp_store
  execute-fp_store ft rs2 rs1 v m =
      let a = read m.regs rs1 in
      let p = (a + v % 2 ^ 32) % 2 ^ 32 in
      ground (arith, lang.add 32 a (v % 2 ^ 32), lang.pointer_cast p)
      ∙ ap (λ x. some (record (hart m) { mem = x }))
          (store-stored ft m.mem (address m rs1 v) (m.fregs rs2 % 2 ^ width ft))

set_low-low : (old v : ℕ) → v < 2 ^ 32 → set_low 32 old v % 2 ^ 32 ≡ v
set_low-low old v h = omega arith

-- The moves of patterns need no law of the arithmetic.
module _ (L : Llvm) where
  execute-fmv_float :
      (rd rs1 rs2 : ℕ) (m : Machine)
      → step L (translate_fmv_float (r_type rd rs1 rs2)) m
        ≡ some (put_float m rd 32 (read m.regs rs1))
  unfolding translate_fmv_float
  execute-fmv_float rd rs1 rs2 m = ground arith

  execute-fmv_word :
      (rd rs1 rs2 : ℕ) (m : Machine)
      → step L (translate_fmv_word (r_type rd rs1 rs2)) m
        ≡ some (put_int m rd (m.fregs rs1 % 2 ^ 32))
  unfolding translate_fmv_word
  execute-fmv_word rd rs1 rs2 m = ground arith

  -- `fmv.w.x` and then `fmv.x.w` through the same floating point register copy a 32-bit word from
  -- one integer register to another: the pattern passes unchanged, and but for the low half of the
  -- floating point register nothing else changes.
  pub fmv_word-fmv_float :
      (rd f rs1 rs2 : ℕ) (m : Machine)
      → read m.regs rs1 < 2 ^ 32
      → step_again L
          (translate_fmv_word (r_type rd f rs2))
          (step L (translate_fmv_float (r_type f rs1 rs2)) m)
        ≡ some
            (record (put_float m f 32 (read m.regs rs1)) { x = write m.regs rd (read m.regs rs1) })
  fmv_word-fmv_float rd f rs1 rs2 m h =
      let x = read m.regs rs1 in
      let between = put_float m f 32 x in
      ap (step_again L (translate_fmv_word (r_type rd f rs2))) (execute-fmv_float f rs1 rs2 m)
      ∙ execute-fmv_word rd f rs2 (machine_of between)
      ∙ ap (λ y. some (record between { x = write m.regs rd y })) (back x h)
    where
      back : (v : ℕ) → v < 2 ^ 32 → update m.fregs f (set_low 32 (m.fregs f) v) f % 2 ^ 32 ≡ v
      back v h = ground (arith, set_low-low (m.fregs f) v h)
