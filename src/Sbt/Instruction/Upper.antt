-- ===== src/Sbt/Instruction/Upper.antt =====
-- `Instruction::translateUI` of sbt/Instruction.cpp: `lui` and `auipc`.
pub mod Laws
use riscv_sbt.Prelude.{ℕ, Option, none, some}
use riscv_sbt.Sbt.Ir.{Llvm, Value, BinOp, const_expr}
use riscv_sbt.Sbt.Builder.{Build, return, aborted, ◌>>=◌, ◌>>◌, i32, store_reg}
use riscv_sbt.Sbt.Operand.{McInst, Relocated, get_reg_num, get_imm}

pub data UpperOp : Type 0 where
  auipc lui : UpperOp

-- A constant expression that is poison is no constant.
abbrev pub known : Option Value → Build Value
known none = λ b. aborted
known (some c) = return c

add_pc : Llvm → UpperOp → ℕ → Value → Build Value
add_pc L auipc addr c = known (const_expr L BinOp.add c (i32 addr))
add_pc L lui addr c = return c

unfoldable pub translate_ui : Llvm → UpperOp → ℕ → Relocated → McInst → Build (Unit {0})
unfolding get_reg_num get_imm store_reg add_pc
translate_ui L op addr reloc inst = do
  o ← get_reg_num inst.op0
  imm ← get_imm reloc inst.op1
  c ← known (const_expr L BinOp.shl imm (i32 12))
  c' ← add_pc L op addr c
  store_reg c' o
