-- ===== src/Sbt/Instruction/Alu.antt =====
-- `Instruction::translateALUOp` of sbt/Instruction.cpp.
pub mod Laws
use riscv_sbt.Prelude.{ℕ, ◌-◌, ◌^◌, Bool, true, false, ◌==◌, ◌&&◌, if◌then◌else◌, List, ◌≡◌}
use riscv_sbt.Sbt.Ir.{Value, const, symbol, tmp, float_tmp, pointer_tmp}
use riscv_sbt.Sbt.Rv32.{AluOp, add, and, or, sll, slt, sra, srl, sub, xor}
use riscv_sbt.Sbt.Builder
use riscv_sbt.Sbt.Builder.{Build, return, ◌>>=◌, ◌>>◌, i32, store_reg}
use riscv_sbt.Sbt.Operand.{McInst, Relocated, get_reg_num, get_reg, get_imm}

-- `ALUOpAlias`
pub data Alias : Type 0 where
  no_alias move negate invert : Alias

-- A `ConstantInt` with a value, as `dyn_cast` and the comparison of the value find it.
abbrev is_const_int : Value → ℕ → Bool
is_const_int (const w v) n = v == n
is_const_int (symbol w v) n = false
is_const_int (tmp w i) n = false
is_const_int (float_tmp w i) n = false
is_const_int (pointer_tmp p i) n = false

-- The alias that the operation, the number of the first register and the second operand make.
unfoldable pub alias : AluOp → Bool → ℕ → Value → Alias
alias add has_imm o1n o2 = if has_imm && is_const_int o2 0 then move else no_alias
alias sub has_imm o1n o2 = if o1n == 0 then negate else no_alias
alias xor has_imm o1n o2 = if has_imm && is_const_int o2 (2 ^ 32 - 1) then invert else no_alias
alias and has_imm o1n o2 = no_alias
alias or has_imm o1n o2 = no_alias
alias sll has_imm o1n o2 = no_alias
alias slt has_imm o1n o2 = no_alias
alias sra has_imm o1n o2 = no_alias
alias srl has_imm o1n o2 = no_alias

-- Only the five low bits of a shift's second operand are used.
unfoldable pub emit_op : AluOp → Bool → Value → Value → Build Value
unfolding Builder.add Builder.and Builder.or Builder.sll Builder.ult Builder.slt Builder.zext
    Builder.sra Builder.srl Builder.sub Builder.xor
emit_op add is_unsigned o1 o2 = Builder.add o1 o2
emit_op and is_unsigned o1 o2 = Builder.and o1 o2
emit_op or is_unsigned o1 o2 = Builder.or o1 o2
emit_op sll is_unsigned o1 o2 = do v ← Builder.and o2 (i32 0x1f); Builder.sll o1 v
emit_op slt is_unsigned o1 o2 = do
  v ← if is_unsigned then Builder.ult o1 o2 else Builder.slt o1 o2
  Builder.zext v
emit_op sra is_unsigned o1 o2 = do v ← Builder.and o2 (i32 0x1f); Builder.sra o1 v
emit_op srl is_unsigned o1 o2 = do v ← Builder.and o2 (i32 0x1f); Builder.srl o1 v
emit_op sub is_unsigned o1 o2 = Builder.sub o1 o2
emit_op xor is_unsigned o1 o2 = Builder.xor o1 o2

unfoldable pub emit_alias : Alias → AluOp → Bool → Value → Value → Build Value
unfolding emit_op Builder.neg Builder.complement
emit_alias no_alias op is_unsigned o1 o2 = emit_op op is_unsigned o1 o2
emit_alias move op is_unsigned o1 o2 = return o1
emit_alias negate op is_unsigned o1 o2 = Builder.neg o2
emit_alias invert op is_unsigned o1 o2 = Builder.complement o1

unfoldable pub translate_alu_op : AluOp → Bool → Bool → Relocated → McInst → Build (Unit {0})
unfolding get_reg_num get_reg get_imm store_reg emit_alias alias
translate_alu_op op has_imm is_unsigned reloc inst = do
  o ← get_reg_num inst.op0
  o1n ← get_reg_num inst.op1
  o1 ← get_reg inst.op1
  o2 ← if has_imm then get_imm reloc inst.op2 else get_reg inst.op2
  v ← emit_alias (alias op has_imm o1n o2) op is_unsigned o1 o2
  store_reg v o
