-- ===== src/Sbt/Instruction/MulDiv/Laws.antt =====
-- The code that `translateM` emits, against the manual.
use riscv_sbt.Prelude.{
  ℕ, ◌*◌, ◌/◌, ◌%◌, ◌^◌, ◌<◌, ◌≡◌, Bool, false, arith, none, some, ◌==◌, ◌||◌, if◌then◌else◌,
}
use riscv_sbt.Prelude.Word.{sext, sar}
use riscv_sbt.Sbt.Ir.{Llvm, Machine}
use riscv_sbt.Sbt.Ir.LangRef.{LangRef}
use riscv_sbt.Sbt.Rv32.{
  MulOp, mul, mulh, mulhsu, mulhu, div, divu, rem, remu, muldiv, overflows, read, write,
}
use riscv_sbt.Sbt.Operand.{execute}
use riscv_sbt.Sbt.Instruction.MulDiv.{translate_m}
use riscv_sbt.Sbt.Instruction.MulDiv.Arith.{high_of_shift, signed_product, mixed_product}
use riscv_sbt.Sbt.Instruction.Alu.Laws.{r_type, IsWords}

-- The operands at which LLVM's division is undefined behaviour.
abbrev pub traps : MulOp → ℕ → ℕ → Bool
traps div a b = b == 0 || overflows a b
traps rem a b = b == 0 || overflows a b
traps divu a b = b == 0
traps remu a b = b == 0
traps _ a b = false

pub read-lt : (regs : ℕ → ℕ) (r : ℕ) → IsWords regs → read regs r < 2 ^ 32
read-lt regs r h = ground (arith, h r)

pub product-lt : (a b : ℕ) → a < 2 ^ 32 → b < 2 ^ 32 → a * b < 2 ^ 64
product-lt a b ha hb = grind arith

module _ {L : Llvm} (lang : LangRef L) where
  -- Where the registers hold 32-bit words, the code of each instruction of the M extension writes to
  -- `rd` what the manual says, except that it is undefined behaviour for a division or remainder by
  -- zero and for the overflow of a signed one.
  pub execute-m :
      (op : MulOp) (rd rs1 rs2 : ℕ) (m : Machine)
      → IsWords m.regs
      → let a = read m.regs rs1 in
        let b = read m.regs rs2 in
        execute L (translate_m op (r_type rd rs1 rs2)) m
        ≡ (if traps op a b then none else some (write m.regs rd (muldiv op a b), m.mem))
  unfolding translate_m muldiv
  execute-m mul rd rs1 rs2 m words = ground (arith, lang.mul 32 (read m.regs rs1) (read m.regs rs2))
  execute-m divu rd rs1 rs2 m words =
      ground (arith, lang.udiv 32 (read m.regs rs1) (read m.regs rs2))
  execute-m remu rd rs1 rs2 m words =
      ground (arith, lang.urem 32 (read m.regs rs1) (read m.regs rs2))
  execute-m div rd rs1 rs2 m words =
      ground (arith, lang.sdiv 32 (read m.regs rs1) (read m.regs rs2))
  execute-m rem rd rs1 rs2 m words =
      ground (arith, lang.srem 32 (read m.regs rs1) (read m.regs rs2))
  execute-m mulhu rd rs1 rs2 m words =
      let a = read m.regs rs1 in
      let b = read m.regs rs2 in
      let x = a in
      let y = b in
      let p = x * y % 2 ^ 64 in
      ground (
        arith,
        lang.zext 32 64 a,
        lang.zext 32 64 b,
        lang.mul 64 x y,
        lang.lshr 64 p 32 (omega arith),
        lang.trunc 64 32 (p / 2 ^ 32),
        product-lt a b (read-lt m.regs rs1 words) (read-lt m.regs rs2 words),
      )
  execute-m mulhsu rd rs1 rs2 m words =
      let a = read m.regs rs1 in
      let b = read m.regs rs2 in
      let x = sext 32 64 a in
      let y = b in
      let p = x * y % 2 ^ 64 in
      ground (
        arith,
        lang.sext 32 64 a,
        lang.zext 32 64 b,
        lang.mul 64 x y,
        lang.ashr 64 p 32 (omega arith),
        lang.trunc 64 32 (sar 64 p 32),
        high_of_shift p (omega arith),
        mixed_product a b (read-lt m.regs rs1 words) (read-lt m.regs rs2 words),
      )
  execute-m mulh rd rs1 rs2 m words =
      let a = read m.regs rs1 in
      let b = read m.regs rs2 in
      let x = sext 32 64 a in
      let y = sext 32 64 b in
      let p = x * y % 2 ^ 64 in
      ground (
        arith,
        lang.sext 32 64 a,
        lang.sext 32 64 b,
        lang.mul 64 x y,
        lang.ashr 64 p 32 (omega arith),
        lang.trunc 64 32 (sar 64 p 32),
        high_of_shift p (omega arith),
        signed_product a b (read-lt m.regs rs1 words) (read-lt m.regs rs2 words),
      )
