-- ===== src/Sbt/Instruction/Branch.antt =====
-- `Instruction::translateBranch` of sbt/Instruction.cpp: what a jump or branch is taken for, and the
-- code for its condition or its address. The handlers that it calls, with their arguments, are the
-- result; `handleJump` is modelled with the functions.
pub mod Laws
use riscv_sbt.Prelude.{ℕ, Bool, true, false, ◌&&◌, ◌==◌, if◌then◌else◌, Option, none, some}
use riscv_sbt.Sbt.Ir.{Llvm, Value, const, symbol, tmp, float_tmp, pointer_tmp, BinOp, const_expr}
use riscv_sbt.Sbt.Builder
use riscv_sbt.Sbt.Builder.{Build, return, aborted, ◌>>=◌, ◌>>◌, i32}
use riscv_sbt.Sbt.Operand.{McInst, Relocated, get_reg_num, get_reg, get_imm}
use riscv_sbt.Sbt.Instruction.Upper.{known}

-- The conditional ones of `BranchType`; the other two are below.
pub data BranchType : Type 0 where
  beq bne bge bgeu blt bltu : BranchType

-- `func->freturn()`, `handleCall`, `handleJump`, `handleICall` and `handleIJump`.
pub data Handler : Type 0 where
  freturn : Handler
  call : ℕ → ℕ → Handler
  jump : ℕ → Option Value → ℕ → Handler
  icall : Value → ℕ → Handler
  ijump : Value → Handler

unfoldable pub is_zero : Value → Bool
is_zero (const w v) = v == 0
is_zero (symbol w v) = false
is_zero (tmp w i) = false
is_zero (float_tmp w i) = false
is_zero (pointer_tmp p i) = false

-- `targetInt`, which asserts that the target is an integer.
unfoldable pub target_int : Value → Build ℕ
target_int (const w v) = return v
target_int (symbol w v) = λ b. aborted
target_int (tmp w i) = λ b. aborted
target_int (float_tmp w i) = λ b. aborted
target_int (pointer_tmp p i) = λ b. aborted

unfoldable pub add_address : Llvm → Value → ℕ → Build Value
add_address L imm addr = known (const_expr L BinOp.add imm (i32 addr))

unfoldable pub condition : BranchType → Value → Value → Build Value
unfolding Builder.eq Builder.ne Builder.sge Builder.uge Builder.slt Builder.ult
condition beq o0 o1 = Builder.eq o0 o1
condition bne o0 o1 = Builder.ne o0 o1
condition bge o0 o1 = Builder.sge o0 o1
condition bgeu o0 o1 = Builder.uge o0 o1
condition blt o0 o1 = Builder.slt o0 o1
condition bltu o0 o1 = Builder.ult o0 o1

unfoldable pub translate_branch : Llvm → BranchType → ℕ → Relocated → McInst → Build Handler
unfolding get_reg get_imm add_address target_int condition
translate_branch L bt addr reloc inst = do
  o0 ← get_reg inst.op0
  o1 ← get_reg inst.op1
  jimm ← get_imm reloc inst.op2
  target ← add_address L jimm addr
  cond ← condition bt o0 o1
  t ← target_int target
  return (jump t (some cond) 0)

unfoldable pub translate_jal : Llvm → ℕ → Relocated → McInst → Build Handler
unfolding get_reg_num get_imm add_address target_int
translate_jal L addr reloc inst = do
  link_reg ← get_reg_num inst.op0
  jimm ← get_imm reloc inst.op1
  target ← add_address L jimm addr
  t ← target_int target
  return (if link_reg == 0 then jump t none link_reg else call t link_reg)

unfoldable pub indirect : ℕ → Value → Handler
indirect link_reg v = if link_reg == 0 then ijump v else icall v link_reg

-- `called` is the function that the relocator knows as the target of a call.
unfoldable pub jalr_target : ℕ → Value → Value → Option ℕ → Build Handler
unfolding is_zero indirect Builder.add
jalr_target link_reg jreg jimm (some f) = return (call f link_reg)
jalr_target link_reg jreg jimm none =
    if is_zero jimm
    then return (indirect link_reg jreg)
    else do v ← Builder.add jreg jimm; return (indirect link_reg v)

-- A return is told by the convention on `ra`; a base register zero is not expected.
unfoldable pub jalr_act : ℕ → ℕ → Value → Value → Option ℕ → Build Handler
unfolding is_zero jalr_target
jalr_act link_reg jregn jreg jimm called =
    if link_reg == 0 && jregn == 1 && is_zero jimm
    then return freturn
    else if jregn == 0
    then (λ b. aborted)
    else jalr_target link_reg jreg jimm called

unfoldable pub translate_jalr : Relocated → Option ℕ → McInst → Build Handler
unfolding get_reg_num get_reg get_imm jalr_act
translate_jalr reloc called inst = do
  link_reg ← get_reg_num inst.op0
  jregn ← get_reg_num inst.op1
  jreg ← get_reg inst.op1
  jimm ← get_imm reloc inst.op2
  jalr_act link_reg jregn jreg jimm called
