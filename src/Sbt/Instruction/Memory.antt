-- ===== src/Sbt/Instruction/Memory.antt =====
-- `Instruction::translateLoad` and `translateStore` of sbt/Instruction.cpp.
pub mod Laws
use riscv_sbt.Prelude.{ℕ}
use riscv_sbt.Sbt.Ir.{Value, int_of}
use riscv_sbt.Sbt.Builder
use riscv_sbt.Sbt.Builder.{
  Build, return, aborted, ◌>>=◌, ◌>>◌, store_reg, load, store, bit_or_pointer_cast, gep, sext, zext,
  trunc_or_bit_cast,
}
use riscv_sbt.Sbt.Operand.{McInst, Relocated, get_reg_num, get_reg, get_imm}

-- `IntType`
pub data IntType : Type 0 where
  s8 u8 s16 u16 u32 : IntType

-- `getLLVMTy`, by the width of the type
abbrev pub llvm_ty : IntType → ℕ
llvm_ty s8 = 8
llvm_ty u8 = 8
llvm_ty s16 = 16
llvm_ty u16 = 16
llvm_ty u32 = 32

to_int32 : IntType → Value → Build Value
unfolding sext zext
to_int32 s8 v = sext v
to_int32 s16 v = sext v
to_int32 u8 v = zext v
to_int32 u16 v = zext v
to_int32 u32 v = return v

unfoldable pub translate_load : IntType → Relocated → McInst → Build (Unit {0})
unfolding get_reg_num get_reg get_imm store_reg load bit_or_pointer_cast gep to_int32
translate_load it reloc inst = do
  o ← get_reg_num inst.op0
  rs1 ← get_reg inst.op1
  imm ← get_imm reloc inst.op2
  ptr ← bit_or_pointer_cast rs1 (int_of 8)
  ptr' ← gep ptr imm
  ptr'' ← bit_or_pointer_cast ptr' (int_of (llvm_ty it))
  v ← load ptr'' (llvm_ty it)
  v' ← to_int32 it v
  store_reg v' o

store_ty : IntType → Build ℕ
store_ty u8 = return 8
store_ty u16 = return 16
store_ty u32 = return 32
store_ty _ = λ b. aborted

unfoldable pub translate_store : IntType → Relocated → McInst → Build (Unit {0})
unfolding get_reg get_imm store bit_or_pointer_cast gep trunc_or_bit_cast store_ty
translate_store it reloc inst = do
  ty ← store_ty it
  rs2 ← get_reg inst.op0
  rs1 ← get_reg inst.op1
  imm ← get_imm reloc inst.op2
  ptr ← bit_or_pointer_cast rs1 (int_of 8)
  ptr' ← gep ptr imm
  ptr'' ← bit_or_pointer_cast ptr' (int_of ty)
  v ← trunc_or_bit_cast rs2 ty
  store v ptr''
