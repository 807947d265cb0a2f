-- ===== src/Sbt/Instruction/Translate.antt =====
-- `Instruction::translate` of sbt/Instruction.cpp: the dispatch on the opcode, for the
-- instructions that the code after them follows in order. The branches, `ecall`, the CSR
-- and the floating point instructions are outside this table.
pub mod Laws
pub mod Bounds
pub mod Block
use riscv_sbt.Prelude.{ℕ, Bool, true, false}
use riscv_sbt.Sbt.Ir.{Llvm}
use riscv_sbt.Sbt.Rv32.{AluOp, MulOp}
use riscv_sbt.Sbt.Builder
use riscv_sbt.Sbt.Builder.{Build}
use riscv_sbt.Sbt.Operand.{McInst, Relocated}
use riscv_sbt.Sbt.Instruction.Alu.{translate_alu_op}
use riscv_sbt.Sbt.Instruction.MulDiv.{translate_m}
use riscv_sbt.Sbt.Instruction.Upper.{UpperOp, translate_ui}
use riscv_sbt.Sbt.Instruction.Memory.{IntType, translate_load, translate_store}

-- The opcodes, as `RISCV::` names them.
pub data Opcode : Type 0 where
  add addi and andi or ori sll slli slt sltu slti sltiu sra srai srl srli sub xor xori : Opcode
  mul mulh mulhsu mulhu div divu rem remu : Opcode
  auipc lui ebreak fence fence_i : Opcode
  lb lbu lh lhu lw sb sh sw : Opcode

unfoldable pub translate_fence : Bool → Build (Unit {0})
unfolding Builder.nop Builder.fence
translate_fence true = Builder.nop
translate_fence false = Builder.fence

unfoldable pub translate : Llvm → Opcode → ℕ → Relocated → McInst → Build (Unit {0})
unfolding translate_fence
translate L add addr reloc inst = translate_alu_op AluOp.add false false reloc inst
translate L addi addr reloc inst = translate_alu_op AluOp.add true false reloc inst
translate L and addr reloc inst = translate_alu_op AluOp.and false false reloc inst
translate L andi addr reloc inst = translate_alu_op AluOp.and true false reloc inst
translate L or addr reloc inst = translate_alu_op AluOp.or false false reloc inst
translate L ori addr reloc inst = translate_alu_op AluOp.or true false reloc inst
translate L sll addr reloc inst = translate_alu_op AluOp.sll false false reloc inst
translate L slli addr reloc inst = translate_alu_op AluOp.sll true false reloc inst
translate L slt addr reloc inst = translate_alu_op AluOp.slt false false reloc inst
translate L sltu addr reloc inst = translate_alu_op AluOp.slt false true reloc inst
translate L slti addr reloc inst = translate_alu_op AluOp.slt true false reloc inst
translate L sltiu addr reloc inst = translate_alu_op AluOp.slt true true reloc inst
translate L sra addr reloc inst = translate_alu_op AluOp.sra false false reloc inst
translate L srai addr reloc inst = translate_alu_op AluOp.sra true false reloc inst
translate L srl addr reloc inst = translate_alu_op AluOp.srl false false reloc inst
translate L srli addr reloc inst = translate_alu_op AluOp.srl true false reloc inst
translate L sub addr reloc inst = translate_alu_op AluOp.sub false false reloc inst
translate L xor addr reloc inst = translate_alu_op AluOp.xor false false reloc inst
translate L xori addr reloc inst = translate_alu_op AluOp.xor true false reloc inst
translate L mul addr reloc inst = translate_m MulOp.mul inst
translate L mulh addr reloc inst = translate_m MulOp.mulh inst
translate L mulhsu addr reloc inst = translate_m MulOp.mulhsu inst
translate L mulhu addr reloc inst = translate_m MulOp.mulhu inst
translate L div addr reloc inst = translate_m MulOp.div inst
translate L divu addr reloc inst = translate_m MulOp.divu inst
translate L rem addr reloc inst = translate_m MulOp.rem inst
translate L remu addr reloc inst = translate_m MulOp.remu inst
translate L auipc addr reloc inst = translate_ui L UpperOp.auipc addr reloc inst
translate L lui addr reloc inst = translate_ui L UpperOp.lui addr reloc inst
translate L ebreak addr reloc inst = Builder.nop
translate L fence addr reloc inst = translate_fence false
translate L fence_i addr reloc inst = translate_fence true
translate L lb addr reloc inst = translate_load IntType.s8 reloc inst
translate L lbu addr reloc inst = translate_load IntType.u8 reloc inst
translate L lh addr reloc inst = translate_load IntType.s16 reloc inst
translate L lhu addr reloc inst = translate_load IntType.u16 reloc inst
translate L lw addr reloc inst = translate_load IntType.u32 reloc inst
translate L sb addr reloc inst = translate_store IntType.u8 reloc inst
translate L sh addr reloc inst = translate_store IntType.u16 reloc inst
translate L sw addr reloc inst = translate_store IntType.u32 reloc inst
