-- ===== src/Sbt/Instruction/MulDiv.antt =====
-- `Instruction::translateM` of sbt/Instruction.cpp: the M extension.
pub mod Arith
pub mod Laws
use riscv_sbt.Prelude.{Bool}
use riscv_sbt.Sbt.Ir.{Value}
use riscv_sbt.Sbt.Rv32.{MulOp, mul, mulh, mulhsu, mulhu, div, divu, rem, remu}
use riscv_sbt.Sbt.Builder
use riscv_sbt.Sbt.Builder.{Build, ◌>>=◌, ◌>>◌, store_reg}
use riscv_sbt.Sbt.Operand.{McInst, get_reg_num, get_reg}

unfoldable pub emit_m : MulOp → Value → Value → Build Value
unfolding Builder.mul Builder.mulh Builder.mulhsu Builder.mulhu Builder.div Builder.divu Builder.rem
    Builder.remu
emit_m mul o1 o2 = Builder.mul o1 o2
emit_m mulh o1 o2 = Builder.mulh o1 o2
emit_m mulhsu o1 o2 = Builder.mulhsu o1 o2
emit_m mulhu o1 o2 = Builder.mulhu o1 o2
emit_m div o1 o2 = Builder.div o1 o2
emit_m divu o1 o2 = Builder.divu o1 o2
emit_m rem o1 o2 = Builder.rem o1 o2
emit_m remu o1 o2 = Builder.remu o1 o2

unfoldable pub translate_m : MulOp → McInst → Build (Unit {0})
unfolding get_reg_num get_reg store_reg emit_m
translate_m op inst = do
  o ← get_reg_num inst.op0
  o1 ← get_reg inst.op1
  o2 ← get_reg inst.op2
  v ← emit_m op o1 o2
  store_reg v o
