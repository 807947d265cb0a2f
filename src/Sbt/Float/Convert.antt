-- ===== src/Sbt/Float/Convert.antt =====
-- The code that the three `translateCVT` emit, against the manual.
use riscv_sbt.Prelude.{ℕ, ◌%◌, ◌^◌, ◌≡◌, ◌||◌, Option, none, some, arith, ◌==◌, if◌then◌else◌}
use riscv_sbt.Prelude.Int.{ℤ, pos}
use riscv_sbt.Prelude.Word.{signed}
use riscv_sbt.Sbt.Ir.{Llvm, Machine}
use riscv_sbt.Sbt.Rv32.{read}
use riscv_sbt.Sbt.Instruction.Alu.Laws.{r_type}
use riscv_sbt.Sbt.Float.{FType, f_single, f_double, IType, f_w, f_wu, width}
use riscv_sbt.Sbt.Float.Translate.{translate_cvt_word, translate_cvt_float, translate_cvt}
use riscv_sbt.Sbt.Hart.{Hart, step}
use riscv_sbt.Sbt.Float.Ieee.{Ieee, FloatRef, SameNumber, as_signed, as_unsigned, converted}
use riscv_sbt.Sbt.Float.Laws.{rm_field, to_nearest, rounding_mode-field, put_float, put_int}

-- The integer that a word is, and the word that an integer fits.
abbrev pub int_of : IType → ℕ → ℤ
int_of f_w a = signed 32 a
int_of f_wu a = pos a

abbrev pub fitting : IType → ℤ → Option ℕ
fitting f_w = as_signed
fitting f_wu = as_unsigned

abbrev put_word : Machine → ℕ → Option ℕ → Option Hart
put_word m rd none = none
put_word m rd (some v) = some (put_int m rd v)

module _ {L : Llvm} {F : Ieee} (ref : FloatRef L F) where
  -- The code of `fcvt.w` and `fcvt.wu` writes to `rd` the number, cut off to an integer, where that
  -- fits the word; where it does not, and for a NaN or an infinity, it is undefined. The translation
  -- fails unless the mode of the instruction is to round to zero or the one that the control
  -- register holds; in both the number is cut off.
  pub execute-cvt_word :
      (it : IType) (ft : FType) (rd rs1 rs2 raw : ℕ) (m : Machine)
      → step L (translate_cvt_word it ft raw (r_type rd rs1 rs2)) m ≡ (
          if rm_field raw == 1 || rm_field raw == 7
          then put_word m rd
              (converted (fitting it) (F.truncated (width ft) (m.fregs rs1 % 2 ^ width ft)))
          else none)
  unfolding translate_cvt_word
  execute-cvt_word f_w ft rd rs1 rs2 raw m =
      let w = width ft in
      ground (arith, rounding_mode-field raw, ref.fptosi w (m.fregs rs1 % 2 ^ w))
  execute-cvt_word f_wu ft rd rs1 rs2 raw m =
      let w = width ft in
      ground (arith, rounding_mode-field raw, ref.fptoui w (m.fregs rs1 % 2 ^ w))

  -- The code of a conversion from an integer writes to the low bits of `rd` the number nearest to
  -- the integer that the word is, in whatever mode of the manual the instruction names; the
  -- translation of a mode that the manual reserves fails.
  pub execute-cvt_float :
      (ft : FType) (it : IType) (rd rs1 rs2 raw : ℕ) (m : Machine)
      → step L (translate_cvt_float ft it raw (r_type rd rs1 rs2)) m ≡ (
          if rm_field raw == 5 || rm_field raw == 6
          then none
          else some
              (put_float m rd (width ft) (F.from_int (width ft) (int_of it (read m.regs rs1)))))
  unfolding translate_cvt_float
  execute-cvt_float ft f_w rd rs1 rs2 raw m =
      ground (arith, rounding_mode-field raw, ref.sitofp (width ft) (read m.regs rs1))
  execute-cvt_float ft f_wu rd rs1 rs2 raw m =
      ground (arith, rounding_mode-field raw, ref.uitofp (width ft) (read m.regs rs1))

  -- The code of a conversion between the formats writes to the low bits of `rd` the number in the
  -- other format, or some NaN for a NaN, of the instructions whose field names the mode that rounds
  -- to nearest or the one of `fcsr`.
  pub execute-cvt :
      (rd rs1 rs2 raw : ℕ) (m : Machine)
      → (v : ℕ) × (u : ℕ) × SameNumber 32 v (F.narrowed (m.fregs rs1 % 2 ^ 64))
        × SameNumber 64 u (F.widened (m.fregs rs1 % 2 ^ 32))
        × (step L (translate_cvt f_single f_double raw (r_type rd rs1 rs2)) m
            ≡ (if to_nearest raw then some (put_float m rd 32 v) else none))
        × (step L (translate_cvt f_double f_single raw (r_type rd rs1 rs2)) m
            ≡ (if to_nearest raw then some (put_float m rd 64 u) else none))
  unfolding translate_cvt
  execute-cvt rd rs1 rs2 raw m =
      let (v, ev, sv) = ref.fptrunc (m.fregs rs1 % 2 ^ 64) in
      let (u, eu, su) = ref.fpext (m.fregs rs1 % 2 ^ 32) in
      (
        v,
        u,
        sv,
        su,
        ground (arith, rounding_mode-field raw, ev),
        ground (arith, rounding_mode-field raw, eu),
      )
