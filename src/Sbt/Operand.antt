-- ===== src/Sbt/Operand.antt =====
-- The operands of a guest instruction, sbt/Instruction.cpp: `getRegNum`, `getReg`, `getImm`. The
-- decoded instruction is LLVM's `MCInst`; a register operand is the number that `XRegister::num`
-- gives for it, and an immediate is the pattern of its `int64_t`.
use riscv_sbt.Prelude.{ℕ, ◌==◌, if◌then◌else◌, Option, none, some}
use riscv_sbt.Sbt.Ir.{Value, Machine, Llvm, run}
use riscv_sbt.Sbt.Builder.{Build, done, failed, aborted, return, ◌>>=◌, i32, load_reg, empty}

pub data Operand : Type 0 where
  reg : ℕ → Operand
  imm : ℕ → Operand

pub record McInst : Type 0 where
  pub op0 : Operand
  pub op1 : Operand
  pub op2 : Operand

-- What `SBTRelocation::handleRelocation` answers for the instruction's address.
pub data Relocated : Type 0 where
  reloc_error : ℕ → Relocated
  no_reloc : Relocated
  relocated : Value → Relocated

-- `XRegister::num(operand.getReg())`, which asserts that the operand is a register
unfoldable pub get_reg_num : Operand → Build ℕ
get_reg_num (reg nr) = return nr
get_reg_num (imm v) = λ b. aborted

read_reg : ℕ → Build Value
read_reg nr = if nr == 0 then return (i32 0) else load_reg nr

-- `getReg`: register 0 is the constant zero.
unfoldable pub get_reg : Operand → Build Value
unfolding get_reg_num read_reg load_reg
get_reg o = do nr ← get_reg_num o; read_reg nr

absolute : Operand → Build Value
absolute (imm v) = return (i32 v)
absolute (reg nr) = λ b. aborted

-- `getImm`: the value of a relocation, or the operand.
unfoldable pub get_imm : Relocated → Operand → Build Value
unfolding absolute
get_imm (reloc_error e) o = λ b. failed e
get_imm no_reloc o = absolute o
get_imm (relocated c) o = return c

-- `getRegOrImm`
unfoldable pub get_reg_or_imm : Relocated → Operand → Build Value
unfolding get_reg get_imm
get_reg_or_imm r (reg nr) = get_reg (reg nr)
get_reg_or_imm r (imm v) = get_imm r (imm v)

abbrev effect : Option Machine → Option ((ℕ → ℕ) × (ℕ → ℕ))
effect none = none
effect (some m) = some (m.regs, m.mem)

-- Translate an instruction and run the code: the registers and the memory behind it, if the
-- translation succeeds and nothing undefined is met.
abbrev pub execute : Llvm → Build (Unit {0}) → Machine → Option ((ℕ → ℕ) × (ℕ → ℕ))
execute L act m = elim (act empty) [
  | done u b ↦ effect (run L b.code m)
  | failed e ↦ none
  | aborted ↦ none
]
