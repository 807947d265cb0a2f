-- ===== src/Sbt/Relocation/Pairs.antt =====
-- Two instructions with the two parts of a symbol, translated and run one after the other.
use riscv_sbt.Prelude.{ℕ, ◌+◌, ◌^◌, ◌<◌, ◌≡◌, ◌≢◌, Option, none, some, true, false, arith, ◌∙◌}
use riscv_sbt.Sbt.Ir.{Llvm, Machine, machine_with, Value, symbol}
use riscv_sbt.Sbt.Ir.LangRef.{LangRef}
use riscv_sbt.Sbt.Builder.{Build}
use riscv_sbt.Sbt.Rv32.{AluOp, alu, write}
use riscv_sbt.Sbt.Operand.{Relocated, reloc_error, relocated, execute}
use riscv_sbt.Sbt.Instruction.Alu.{translate_alu_op}
use riscv_sbt.Sbt.Instruction.Alu.Laws.{i_type, execute-symbol}
use riscv_sbt.Sbt.Instruction.Upper.{lui, translate_ui}
use riscv_sbt.Sbt.Instruction.Upper.Laws.{u_type, execute-upper_symbol}
use riscv_sbt.Sbt.Relocation.{hi20, lo12_i, rel_fn}
use riscv_sbt.Sbt.Relocation.Laws.{absolute_parts}

-- What `getImm` receives: the constant, or the failure where `relfn` has none.
abbrev pub answer : Option Value → Relocated
answer none = reloc_error 0
answer (some c) = relocated c

abbrev pub State : Type 0
State = (ℕ → ℕ) × (ℕ → ℕ)

abbrev resume : Llvm → Build (Unit {0}) → Option State → Option State
resume L act none = none
resume L act (some (r, m)) = execute L act (machine_with r m)

-- Two instructions in a row.
abbrev pub execute_two : Llvm → Build (Unit {0}) → Build (Unit {0}) → Machine → Option State
execute_two L first second m = resume L second (execute L first m)

module _ {L : Llvm} (lang : LangRef L) where
  -- For a 32-bit address `s` and `rd` not `zero`, the code of `lui rd, %hi(s)` and then of
  -- `addi rd, rd, %lo(s)`, both with their relocations, writes `s` to `rd` and changes nothing else.
  pub load_address :
      (rd pc s v w : ℕ) (m : Machine)
      → rd ≢ 0
      → s < 2 ^ 32
      → execute_two L
          (translate_ui L lui pc (answer (rel_fn L hi20 pc none (symbol 32 s))) (u_type rd v))
          (translate_alu_op AluOp.add true false
            (answer (rel_fn L lo12_i (pc + 4) none (symbol 32 s)))
            (i_type rd rd w))
          m
        ≡ some (write m.regs rd s, m.mem)
  unfolding alu
  load_address rd pc s v w m h hs =
      let (hi, lo, eh, el, el', split) = absolute_parts lang pc (pc + 4) none none s hs in
      rw (eh, el, execute-upper_symbol lang lui pc rd v hi m)
        (execute-symbol lang AluOp.add false rd rd w lo _ ∙ ground arith)
