-- ===== src/Sbt/Instruction/Branch/Laws.antt =====
-- What `translateBranch` decides, and the code that it emits, against the manual.
use riscv_sbt.Prelude.{
  ℕ, ◌+◌, ◌%◌, ◌^◌, ◌≡◌, ◌≢◌, Bool, not, ◌&&◌, ◌==◌, ltb, if◌then◌else◌, arith, Option, none, some,
}
use riscv_sbt.Prelude.Word
use riscv_sbt.Sbt.Ir.{Llvm, Machine, eval, run, bit_of}
use riscv_sbt.Sbt.Ir.LangRef.{LangRef}
use riscv_sbt.Sbt.Builder.{Build, done, failed, aborted, empty}
use riscv_sbt.Sbt.Rv32.{read}
use riscv_sbt.Sbt.Operand.{McInst, reg, imm, no_reloc}
use riscv_sbt.Sbt.Instruction.Alu.Laws.{IsWords}
use riscv_sbt.Sbt.Instruction.Branch.{
  BranchType, beq, bne, bge, bgeu, blt, bltu, Handler, freturn, call, jump, icall, ijump,
  translate_branch, translate_jal, translate_jalr,
}

-- Where the control goes when the code runs.
pub data Decision : Type 0 where
  returns : Decision
  calls : ℕ → ℕ → Decision
  jumps : ℕ → Decision
  branches : ℕ → ℕ → Decision
  calls_at : ℕ → ℕ → Decision
  jumps_at : ℕ → Decision

abbrev decision : Handler → (ℕ → ℕ) → Decision
decision freturn t = returns
decision (call f link) t = calls f link
decision (jump a none link) t = jumps a
decision (jump a (some c) link) t = branches a (eval c t)
decision (icall v link) t = calls_at (eval v t) link
decision (ijump v) t = jumps_at (eval v t)

abbrev decided : Handler → Option Machine → Option (Decision × (ℕ → ℕ) × (ℕ → ℕ))
decided h none = none
decided h (some m) = some (decision h m.temps, m.regs, m.mem)

-- Translate a branch and run the code: the decision, the registers and the memory.
abbrev pub decide : Llvm → Build Handler → Machine → Option (Decision × (ℕ → ℕ) × (ℕ → ℕ))
decide L act m = elim (act empty) [
  | done h b ↦ decided h (run L b.code m)
  | failed e ↦ none
  | aborted ↦ none
]

-- The condition of the manual.
abbrev pub taken : BranchType → ℕ → ℕ → Bool
taken beq a b = a == b
taken bne a b = not (a == b)
taken bge a b = not (Word.slt 32 a b)
taken bgeu a b = not (ltb a b)
taken blt a b = Word.slt 32 a b
taken bltu a b = ltb a b

abbrev pub b_type : ℕ → ℕ → ℕ → McInst
b_type rs1 rs2 v = record { op0 = reg rs1; op1 = reg rs2; op2 = imm v }

abbrev pub j_type : ℕ → ℕ → McInst
j_type rd v = record { op0 = reg rd; op1 = imm v; op2 = imm 0 }

abbrev pub jalr_type : ℕ → ℕ → ℕ → McInst
jalr_type rd rs1 v = record { op0 = reg rd; op1 = reg rs1; op2 = imm v }

-- The control that the manual gives `jalr`, where a jump to `ra` with no link is a return; the lowest
-- bit of the sum is kept here.
abbrev pub jalr_decision : ℕ → ℕ → ℕ → ℕ → Decision
jalr_decision rd rs1 a v =
    if rd == 0 && rs1 == 1 && v == 0
    then returns
    else if rd == 0
    then jumps_at ((a + v) % 2 ^ 32)
    else calls_at ((a + v) % 2 ^ 32) rd

module _ {L : Llvm} (lang : LangRef L) where
  -- A conditional branch is handed to `handleJump` with the target that the manual gives, the
  -- immediate added to the address modulo 2^32, and with a condition whose code, when it runs, is 1
  -- just where the manual takes the branch; registers and memory stay as they are.
  pub decide-branch :
      (bt : BranchType) (pc rs1 rs2 v : ℕ) (m : Machine)
      → decide L (translate_branch L bt pc no_reloc (b_type rs1 rs2 v)) m
        ≡ some (
          branches ((v + pc) % 2 ^ 32) (bit_of (taken bt (read m.regs rs1) (read m.regs rs2))),
          m.regs,
          m.mem,
        )
  unfolding translate_branch
  decide-branch beq pc rs1 rs2 v m = ground (
    arith,
    lang.add 32 (v % 2 ^ 32) (pc % 2 ^ 32),
    lang.eq 32 (read m.regs rs1) (read m.regs rs2),
  )
  decide-branch bne pc rs1 rs2 v m = ground (
    arith,
    lang.add 32 (v % 2 ^ 32) (pc % 2 ^ 32),
    lang.ne 32 (read m.regs rs1) (read m.regs rs2),
  )
  decide-branch bge pc rs1 rs2 v m = ground (
    arith,
    lang.add 32 (v % 2 ^ 32) (pc % 2 ^ 32),
    lang.sge 32 (read m.regs rs1) (read m.regs rs2),
  )
  decide-branch bgeu pc rs1 rs2 v m = ground (
    arith,
    lang.add 32 (v % 2 ^ 32) (pc % 2 ^ 32),
    lang.uge 32 (read m.regs rs1) (read m.regs rs2),
  )
  decide-branch blt pc rs1 rs2 v m = ground (
    arith,
    lang.add 32 (v % 2 ^ 32) (pc % 2 ^ 32),
    lang.slt 32 (read m.regs rs1) (read m.regs rs2),
  )
  decide-branch bltu pc rs1 rs2 v m = ground (
    arith,
    lang.add 32 (v % 2 ^ 32) (pc % 2 ^ 32),
    lang.ult 32 (read m.regs rs1) (read m.regs rs2),
  )

  jal-decision :
      (pc rd v : ℕ) (m : Machine)
      → decide L (translate_jal L pc no_reloc (j_type rd v)) m
        ≡ some (
          (if rd == 0 then jumps ((v + pc) % 2 ^ 32) else calls ((v + pc) % 2 ^ 32) rd),
          m.regs,
          m.mem,
        )
  unfolding translate_jal
  jal-decision pc rd v m = ground (arith, lang.add 32 (v % 2 ^ 32) (pc % 2 ^ 32))

  jalr-decision :
      (rd rs1 v : ℕ) (m : Machine)
      → IsWords m.regs
      → rs1 ≢ 0
      → decide L (translate_jalr no_reloc none (jalr_type rd rs1 v)) m
        ≡ some (jalr_decision rd rs1 (m.regs rs1) (v % 2 ^ 32), m.regs, m.mem)
  unfolding translate_jalr
  jalr-decision rd rs1 v m words ne =
      ground (arith, ne, words rs1, lang.add 32 (m.regs rs1) (v % 2 ^ 32))

  -- `jal` is a jump, or a call if it links, to the immediate added to the address. `jalr` with no
  -- relocation, where the registers hold 32-bit words and the base is not register 0, is a return if
  -- it goes to `ra` itself and does not link, and else a jump or a call to the sum of base and
  -- immediate, whose lowest bit is kept. Registers and memory stay as they are.
  pub decide-jump :
      (pc rd rs1 v : ℕ) (m : Machine)
      → IsWords m.regs
      → rs1 ≢ 0
      → (decide L (translate_jal L pc no_reloc (j_type rd v)) m
          ≡ some (
            (if rd == 0 then jumps ((v + pc) % 2 ^ 32) else calls ((v + pc) % 2 ^ 32) rd),
            m.regs,
            m.mem,
          ))
        × (decide L (translate_jalr no_reloc none (jalr_type rd rs1 v)) m
            ≡ some (jalr_decision rd rs1 (m.regs rs1) (v % 2 ^ 32), m.regs, m.mem))
  decide-jump pc rd rs1 v m words ne = (jal-decision pc rd v m, jalr-decision rd rs1 v m words ne)
