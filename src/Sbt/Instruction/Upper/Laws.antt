-- ===== src/Sbt/Instruction/Upper/Laws.antt =====
-- The code that `translateUI` emits, against the manual.
use riscv_sbt.Prelude.{ℕ, ◌+◌, ◌*◌, ◌%◌, ◌^◌, ◌≡◌, arith, some}
use riscv_sbt.Sbt.Ir.{Llvm, Machine, symbol}
use riscv_sbt.Sbt.Ir.LangRef.{LangRef}
use riscv_sbt.Sbt.Rv32.{write}
use riscv_sbt.Sbt.Operand.{McInst, reg, imm, no_reloc, relocated, execute}
use riscv_sbt.Sbt.Instruction.Upper.{UpperOp, auipc, lui, translate_ui}

abbrev pub u_type : ℕ → ℕ → McInst
u_type rd v = record { op0 = reg rd; op1 = imm v; op2 = imm 0 }

-- The value that the manual gives for an upper immediate `v` at the address `pc`.
abbrev pub upper : UpperOp → ℕ → ℕ → ℕ
upper lui pc v = v * 2 ^ 12 % 2 ^ 32
upper auipc pc v = (v * 2 ^ 12 + pc) % 2 ^ 32

module _ {L : Llvm} (lang : LangRef L) where
  -- `lui` and `auipc` with an absolute immediate write to `rd` the constant that the manual says.
  pub execute-upper :
      (op : UpperOp) (pc rd v : ℕ) (m : Machine)
      → execute L (translate_ui L op pc no_reloc (u_type rd v)) m
        ≡ some (write m.regs rd (upper op pc v), m.mem)
  unfolding translate_ui
  execute-upper lui pc rd v m = ground (arith, lang.shl 32 (v % 2 ^ 32) 12 (omega arith))
  execute-upper auipc pc rd v m = ground (
    arith,
    lang.shl 32 (v % 2 ^ 32) 12 (omega arith),
    lang.add 32 (v % 2 ^ 32 * 2 ^ 12 % 2 ^ 32) (pc % 2 ^ 32),
  )

  -- With a relocation, `lui` and `auipc` write the constant of the symbol's part in its place.
  pub execute-upper_symbol :
      (op : UpperOp) (pc rd v s : ℕ) (m : Machine)
      → execute L (translate_ui L op pc (relocated (symbol 32 s)) (u_type rd v)) m
        ≡ some (write m.regs rd (upper op pc s), m.mem)
  unfolding translate_ui
  execute-upper_symbol lui pc rd v s m = ground (arith, lang.shl 32 s 12 (omega arith))
  execute-upper_symbol auipc pc rd v s m =
      ground
        (arith, lang.shl 32 s 12 (omega arith), lang.add 32 (s * 2 ^ 12 % 2 ^ 32) (pc % 2 ^ 32))
