-- ===== src/Tests/FloatTests.antt =====
-- The floating point and the CSR instructions, and the types of the emitted code, on small inputs.
use riscv_sbt.Prelude.{
  ℕ, ◌%◌, ◌≡◌, ◌⊎◌, inl, inr, refl, arith, true, false, none, some, ◌==◌, if◌then◌else◌,
}
use riscv_sbt.Sbt.Ir.{Machine, symbol}
use riscv_sbt.Sbt.Ir.LangRef.{model, model-LangRef}
use riscv_sbt.Sbt.Operand.{no_reloc, relocated}
use riscv_sbt.Sbt.Rv32.{write}
use riscv_sbt.Sbt.Hart.{hart, step}
use riscv_sbt.Sbt.Instruction.Alu.Laws.{r_type, i_type}
use riscv_sbt.Sbt.Instruction.Csr.{CsrOp, translate_csr}
use riscv_sbt.Sbt.Instruction.Csr.Laws.{Register, csr_type, execute-csr}
use riscv_sbt.Sbt.Instruction.Translate.{Opcode, translate}
use riscv_sbt.Sbt.Float.{FType, IType, FpuOp, FusedOp, translate_fpu_op}
use riscv_sbt.Sbt.Float.Translate.{translate_ffpu_op, translate_cvt_word, FOpcode, translate_f}
use riscv_sbt.Sbt.Float.Ieee.{arith_model, model-FloatRef}
use riscv_sbt.Sbt.Float.Laws.{put_float, put_int, fails, Agrees, execute-fpu}
use riscv_sbt.Sbt.Float.Fused.{r4_type, IsFused, execute-IsFused}
use riscv_sbt.Sbt.Float.Convert.{execute-cvt_word}
use riscv_sbt.Sbt.Typing.{IsTyped}
use riscv_sbt.Sbt.Typing.Laws.{translate-IsTyped}
use riscv_sbt.Sbt.Typing.Float.{f_operands, translate_f-IsTyped}

-- f1 holds 5 in its low word, f2 holds 9 and a sign bit of a double, x1 is 7, and a flag is set.
abbrev float_registers : ℕ → ℕ
float_registers f = if f == 1 then 0xffffffff00000005 else if f == 2 then 0x8000000000000009 else 0

abbrev int_registers : ℕ → ℕ
int_registers r = if r == 1 then 7 else 0

abbrev float_machine : Machine
float_machine = record {
  regs = int_registers;
  fregs = float_registers;
  fcsr = 0x11;
  started = false;
  mem = λ p. p % 256;
  temps = λ i. 0;
}

-- An addition of the doubles, whose mode is the one of the control register.
execute-fpu_example :
    let stepped =
      step model
        (translate_fpu_op FpuOp.f_add FType.f_double 0x7000 (r_type 3 1 2))
        float_machine in
    ((fails FpuOp.f_add 0x7000 ≡ true) × (stepped ≡ none))
    ⊎ ((v : ℕ) × (fails FpuOp.f_add 0x7000 ≡ false)
        × (stepped ≡ some (put_float float_machine 3 64 v))
        × Agrees FpuOp.f_add 64 0xffffffff00000005 0x8000000000000009 v 0x7fffffff0000000e)
execute-fpu_example =
    execute-fpu (λ r. arith_model) model-LangRef model-FloatRef FpuOp.f_add FType.f_double 3 1 2
      0x7000 float_machine (inr refl) tt

execute-IsFused_example :
    (v : ℕ) × (step model
        (translate_ffpu_op FusedOp.f_msub FType.f_single 0 (r4_type 3 1 2 1))
        float_machine
      ≡ some (put_float float_machine 3 32 v))
    × IsFused arith_model FusedOp.f_msub 32 5 9 5 v
execute-IsFused_example =
    execute-IsFused model-FloatRef FusedOp.f_msub FType.f_single 3 1 2 1 0 float_machine tt

-- The instruction's word holds the mode that rounds to zero.
execute-cvt_word_example :
    step model (translate_cvt_word IType.f_w FType.f_single 0x1000 (r_type 3 1 0)) float_machine
    ≡ some (put_int float_machine 3 5)
execute-cvt_word_example =
    execute-cvt_word model-FloatRef IType.f_w FType.f_single 3 1 0 0x1000 float_machine

execute-csr_example :
    step model
      (translate_csr CsrOp.rs true true true no_reloc (csr_type true 4 Register.fflags 6))
      float_machine
    ≡ some (record (hart float_machine) { x = write int_registers 4 0x11; fcsr = 0x17 })
execute-csr_example =
    execute-csr model-LangRef true CsrOp.rs Register.fflags true true 4 6 float_machine
      (omega arith) (inl refl)

translate-IsTyped_example :
    IsTyped (translate model Opcode.sh 0x1000 (relocated (symbol 32 64)) (i_type 3 1 2))
translate-IsTyped_example =
    translate-IsTyped model Opcode.sh 0x1000 (relocated (symbol 32 64)) 3 1 2 refl

translate_f-IsTyped_example :
    IsTyped (translate_f FOpcode.fsd 0 no_reloc (f_operands FOpcode.fsd 3 1 2 0))
translate_f-IsTyped_example = translate_f-IsTyped FOpcode.fsd 0 no_reloc 3 1 2 0 refl
