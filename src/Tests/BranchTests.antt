-- ===== src/Tests/BranchTests.antt =====
-- Branches, jumps and control and status registers, on small inputs.
use riscv_sbt.Prelude.{ℕ, ◌+◌, ◌%◌, ◌^◌, ◌≡◌, arith, none, some, ◌==◌, if◌then◌else◌}
use riscv_sbt.Sbt.Ir.{Machine, machine_with, bit_of}
use riscv_sbt.Sbt.Ir.LangRef.{model, model-LangRef}
use riscv_sbt.Sbt.Operand.{no_reloc}
use riscv_sbt.Sbt.Instruction.Alu.Laws.{IsWords}
use riscv_sbt.Sbt.Instruction.Branch.{blt, translate_branch, translate_jal, translate_jalr}
use riscv_sbt.Sbt.Instruction.Branch.Laws.{
  decide, taken, b_type, j_type, jalr_type, jalr_decision, branches, jumps, calls, decide-branch,
  decide-jump,
}

-- x1 = 7 and x2 = 2 ^ 32 - 3, which is -3.
abbrev operands : ℕ → ℕ
operands r = if r == 1 then 7 else if r == 2 then 0xfffffffd else 0

operands-IsWords : IsWords operands
operands-IsWords r = ground arith

abbrev start_machine : Machine
start_machine = machine_with operands (λ p. p % 256)

-- A branch back by 8, which is taken, and jumps.
decide-branch_example :
    decide model (translate_branch model blt 100 no_reloc (b_type 2 1 0xfffffff8)) start_machine
    ≡ some (
      branches ((0xfffffff8 + 100) % 2 ^ 32) (bit_of (taken blt 0xfffffffd 7)),
      operands,
      start_machine.mem,
    )
decide-branch_example = decide-branch model-LangRef blt 100 2 1 0xfffffff8 start_machine

decide-jump_example :
    (decide model (translate_jal model 100 no_reloc (j_type 1 20)) start_machine
      ≡ some (
        (if 1 == 0 then jumps (120 % 2 ^ 32) else calls (120 % 2 ^ 32) 1),
        operands,
        start_machine.mem,
      ))
    × (decide model (translate_jalr no_reloc none (jalr_type 1 2 20)) start_machine
        ≡ some (jalr_decision 1 2 0xfffffffd (20 % 2 ^ 32), operands, start_machine.mem))
decide-jump_example =
    decide-jump model-LangRef 100 1 2 20 start_machine operands-IsWords (omega arith)
