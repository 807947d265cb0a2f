-- ===== src/Sbt/Rv32.antt =====
-- The integer instructions of RV32IM as the RISC-V manual defines them, on register files of
-- 32-bit patterns: the specification of sbt/Instruction.cpp, independent of how it translates.
use Prim.Native.Nat.{bit_and, bit_or, bit_xor}
use riscv_sbt.Prelude.{
  ℕ, ◌+◌, ◌-◌, ◌*◌, ◌/◌, ◌%◌, ◌^◌, Bool, true, false, ltb, ◌==◌, if◌then◌else◌, ◌&&◌,
}
use riscv_sbt.Prelude.Word
use riscv_sbt.Prelude.Word.{signed, unsigned, sar, quot}
use riscv_sbt.Prelude.Int.{◌*ℤ◌, pos}

-- Register 0 reads as zero, and a write to it is dropped.
abbrev pub read : (ℕ → ℕ) → ℕ → ℕ
read regs r = if r == 0 then 0 else regs r

abbrev pub write : (ℕ → ℕ) → ℕ → ℕ → ℕ → ℕ
write regs r v = if r == 0 then regs else λ j. if j == r then v else regs j

pub data AluOp : Type 0 where
  add and or sll slt sra srl sub xor : AluOp

-- The second operand of a shift counts by its five low bits.
unfoldable pub alu : AluOp → Bool → ℕ → ℕ → ℕ
alu add u a b = (a + b) % 2 ^ 32
alu sub u a b = (a + (2 ^ 32 - b)) % 2 ^ 32
alu and u a b = bit_and a b
alu or u a b = bit_or a b
alu xor u a b = bit_xor a b
alu sll u a b = a * 2 ^ (b % 32) % 2 ^ 32
alu srl u a b = a / 2 ^ (b % 32)
alu sra u a b = sar 32 a (b % 32)
alu slt true a b = if ltb a b then 1 else 0
alu slt false a b = if Word.slt 32 a b then 1 else 0

pub data MulOp : Type 0 where
  mul mulh mulhsu mulhu div divu rem remu : MulOp

-- The high word of a product of integers.
abbrev pub high_word : ℕ → ℕ
high_word p = p / 2 ^ 32

abbrev pub overflows : ℕ → ℕ → Bool
overflows a b = a == 2 ^ 31 && b == 2 ^ 32 - 1

unfoldable pub muldiv : MulOp → ℕ → ℕ → ℕ
unfolding ◌*ℤ◌
muldiv mul a b = a * b % 2 ^ 32
muldiv mulh a b = high_word (unsigned 64 (signed 32 a *ℤ signed 32 b))
muldiv mulhsu a b = high_word (unsigned 64 (signed 32 a *ℤ pos b))
muldiv mulhu a b = high_word (a * b)
muldiv div a b =
    if b == 0
    then 2 ^ 32 - 1
    else if overflows a b
    then 2 ^ 31
    else unsigned 32 (quot (signed 32 a) (signed 32 b))
muldiv divu a b = if b == 0 then 2 ^ 32 - 1 else a / b
muldiv rem a b =
    if b == 0
    then a
    else if overflows a b
    then 0
    else unsigned 32 (Word.rem (signed 32 a) (signed 32 b))
muldiv remu a b = if b == 0 then a else a % b
