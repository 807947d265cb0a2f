-- ===== src/Sbt/Instruction/Alu/Laws.antt =====
-- The code that `translateALUOp` emits, against the manual.
use Prim.Native.Nat.{bit_and}
use riscv_sbt.Prelude.{ℕ, ◌%◌, ◌^◌, ◌<◌, ◌≡◌, Bool, true, false, arith, some}
use riscv_sbt.Prelude.Bits.{bit_and_mask}
use riscv_sbt.Sbt.Ir.{Llvm, Machine, symbol}
use riscv_sbt.Sbt.Ir.LangRef.{LangRef}
use riscv_sbt.Sbt.Rv32.{AluOp, add, and, or, sll, slt, sra, srl, sub, xor, alu, read, write}
use riscv_sbt.Sbt.Operand.{McInst, reg, imm, no_reloc, relocated, execute}
use riscv_sbt.Sbt.Instruction.Alu.{translate_alu_op}

abbrev pub r_type : ℕ → ℕ → ℕ → McInst
r_type rd rs1 rs2 = record { op0 = reg rd; op1 = reg rs1; op2 = reg rs2 }

abbrev pub i_type : ℕ → ℕ → ℕ → McInst
i_type rd rs1 v = record { op0 = reg rd; op1 = reg rs1; op2 = imm v }

abbrev pub IsWords : (ℕ → ℕ) → Type 0
IsWords regs = (r : ℕ) → regs r < 2 ^ 32

shift_amount : (b : ℕ) → bit_and b 31 ≡ b % 32
shift_amount b = bit_and_mask 5 b

shift_amount-lt : (b : ℕ) → bit_and b 31 < 32
shift_amount-lt b = omega (arith, shift_amount b)

module _ {L : Llvm} (lang : LangRef L) where
  -- The register forms: the code of `op rd, rs1, rs2` writes to `rd` what the manual says, leaves
  -- the other registers and the memory alone, and meets nothing undefined.
  pub execute-register :
      (op : AluOp) (u : Bool) (rd rs1 rs2 : ℕ) (m : Machine)
      → execute L (translate_alu_op op false u no_reloc (r_type rd rs1 rs2)) m
        ≡ some (write m.regs rd (alu op u (read m.regs rs1) (read m.regs rs2)), m.mem)
  unfolding translate_alu_op alu
  execute-register add u rd rs1 rs2 m =
      ground (arith, lang.add 32 (read m.regs rs1) (read m.regs rs2))
  execute-register and u rd rs1 rs2 m =
      ground (arith, lang.and 32 (read m.regs rs1) (read m.regs rs2))
  execute-register or u rd rs1 rs2 m =
      ground (arith, lang.or 32 (read m.regs rs1) (read m.regs rs2))
  execute-register sub u rd rs1 rs2 m =
      ground (arith, lang.sub 32 (read m.regs rs1) (read m.regs rs2), lang.neg 32 (read m.regs rs2))
  execute-register xor u rd rs1 rs2 m =
      ground (arith, lang.xor 32 (read m.regs rs1) (read m.regs rs2))
  execute-register sll u rd rs1 rs2 m =
      let b = read m.regs rs2 in
      let amount = bit_and b 31 in
      ground (
        arith,
        lang.and 32 b 31,
        lang.shl 32 (read m.regs rs1) amount (shift_amount-lt b),
        shift_amount b,
      )
  execute-register srl u rd rs1 rs2 m =
      let b = read m.regs rs2 in
      let amount = bit_and b 31 in
      ground (
        arith,
        lang.and 32 b 31,
        lang.lshr 32 (read m.regs rs1) amount (shift_amount-lt b),
        shift_amount b,
      )
  execute-register sra u rd rs1 rs2 m =
      let b = read m.regs rs2 in
      let amount = bit_and b 31 in
      ground (
        arith,
        lang.and 32 b 31,
        lang.ashr 32 (read m.regs rs1) amount (shift_amount-lt b),
        shift_amount b,
      )
  execute-register slt true rd rs1 rs2 m =
      ground
        (arith, lang.ult 32 (read m.regs rs1) (read m.regs rs2), lang.zext 1 32 0, lang.zext 1 32 1)
  execute-register slt false rd rs1 rs2 m =
      ground
        (arith, lang.slt 32 (read m.regs rs1) (read m.regs rs2), lang.zext 1 32 0, lang.zext 1 32 1)

  -- The immediate forms, where the registers hold 32-bit words: the code of `op rd, rs1, v` writes
  -- to `rd` what the manual says of the immediate's low 32 bits, through the aliases `mv`, `neg` and
  -- `not` too, and leaves the other registers and the memory alone.
  pub execute-immediate :
      (op : AluOp) (u : Bool) (rd rs1 v : ℕ) (m : Machine)
      → IsWords m.regs
      → execute L (translate_alu_op op true u no_reloc (i_type rd rs1 v)) m
        ≡ some (write m.regs rd (alu op u (read m.regs rs1) (v % 2 ^ 32)), m.mem)
  unfolding translate_alu_op alu
  execute-immediate add u rd rs1 v m words =
      ground (arith, lang.add 32 (read m.regs rs1) (v % 2 ^ 32), words rs1)
  execute-immediate and u rd rs1 v m words =
      ground (arith, lang.and 32 (read m.regs rs1) (v % 2 ^ 32))
  execute-immediate or u rd rs1 v m words =
      ground (arith, lang.or 32 (read m.regs rs1) (v % 2 ^ 32))
  execute-immediate sub u rd rs1 v m words =
      ground (arith, lang.sub 32 (read m.regs rs1) (v % 2 ^ 32), lang.neg 32 (v % 2 ^ 32))
  execute-immediate xor u rd rs1 v m words =
      ground
        (arith, lang.xor 32 (read m.regs rs1) (v % 2 ^ 32), lang.complement 32 (read m.regs rs1))
  execute-immediate sll u rd rs1 v m words =
      let b = v % 2 ^ 32 in
      let amount = bit_and b 31 in
      ground (
        arith,
        lang.and 32 b 31,
        lang.shl 32 (read m.regs rs1) amount (shift_amount-lt b),
        shift_amount b,
      )
  execute-immediate srl u rd rs1 v m words =
      let b = v % 2 ^ 32 in
      let amount = bit_and b 31 in
      ground (
        arith,
        lang.and 32 b 31,
        lang.lshr 32 (read m.regs rs1) amount (shift_amount-lt b),
        shift_amount b,
      )
  execute-immediate sra u rd rs1 v m words =
      let b = v % 2 ^ 32 in
      let amount = bit_and b 31 in
      ground (
        arith,
        lang.and 32 b 31,
        lang.ashr 32 (read m.regs rs1) amount (shift_amount-lt b),
        shift_amount b,
      )
  execute-immediate slt true rd rs1 v m words =
      ground (arith, lang.ult 32 (read m.regs rs1) (v % 2 ^ 32), lang.zext 1 32 0, lang.zext 1 32 1)
  execute-immediate slt false rd rs1 v m words =
      ground (arith, lang.slt 32 (read m.regs rs1) (v % 2 ^ 32), lang.zext 1 32 0, lang.zext 1 32 1)

  -- The immediate forms with a relocation: the part of the symbol is the second operand, whatever
  -- immediate the instruction holds.
  pub execute-symbol :
      (op : AluOp) (u : Bool) (rd rs1 v s : ℕ) (m : Machine)
      → execute L (translate_alu_op op true u (relocated (symbol 32 s)) (i_type rd rs1 v)) m
        ≡ some (write m.regs rd (alu op u (read m.regs rs1) s), m.mem)
  unfolding translate_alu_op alu
  execute-symbol add u rd rs1 v s m = ground (arith, lang.add 32 (read m.regs rs1) s)
  execute-symbol and u rd rs1 v s m = ground (arith, lang.and 32 (read m.regs rs1) s)
  execute-symbol or u rd rs1 v s m = ground (arith, lang.or 32 (read m.regs rs1) s)
  execute-symbol sub u rd rs1 v s m = ground (arith, lang.sub 32 (read m.regs rs1) s, lang.neg 32 s)
  execute-symbol xor u rd rs1 v s m = ground (arith, lang.xor 32 (read m.regs rs1) s)
  execute-symbol sll u rd rs1 v s m =
      let amount = bit_and s 31 in
      ground (
        arith,
        lang.and 32 s 31,
        lang.shl 32 (read m.regs rs1) amount (shift_amount-lt s),
        shift_amount s,
      )
  execute-symbol srl u rd rs1 v s m =
      let amount = bit_and s 31 in
      ground (
        arith,
        lang.and 32 s 31,
        lang.lshr 32 (read m.regs rs1) amount (shift_amount-lt s),
        shift_amount s,
      )
  execute-symbol sra u rd rs1 v s m =
      let amount = bit_and s 31 in
      ground (
        arith,
        lang.and 32 s 31,
        lang.ashr 32 (read m.regs rs1) amount (shift_amount-lt s),
        shift_amount s,
      )
  execute-symbol slt true rd rs1 v s m =
      ground (arith, lang.ult 32 (read m.regs rs1) s, lang.zext 1 32 0, lang.zext 1 32 1)
  execute-symbol slt false rd rs1 v s m =
      ground (arith, lang.slt 32 (read m.regs rs1) s, lang.zext 1 32 0, lang.zext 1 32 1)
