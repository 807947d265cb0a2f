-- ===== src/Sbt/Instruction/Translate/Bounds.antt =====
-- The widths of registers and memory after the manual's step of an instruction.
use riscv_sbt.Prelude.{ℕ, ◌+◌, ◌/◌, ◌%◌, ◌^◌, ◌<◌, Bool, true, false, arith}
use native.Mathlib.Nat.{one-le-pow}
use riscv_sbt.Prelude.BitBounds.{bit_and-lt, bit_or-lt, bit_xor-lt}
use riscv_sbt.Prelude.Word.{unsigned, quot, rem, signed}
use riscv_sbt.Prelude.Int.{ℤ, pos, negsuc, ◌*ℤ◌}
use riscv_sbt.Sbt.Ir.LangRef.{stored8, stored16}
use riscv_sbt.Sbt.Rv32.{AluOp, MulOp, alu, muldiv, write}
use riscv_sbt.Sbt.Instruction.MulDiv.Laws.{product-lt}
use riscv_sbt.Sbt.Instruction.Alu.Laws.{IsWords}
use riscv_sbt.Sbt.Instruction.Memory.{IntType}
use riscv_sbt.Sbt.Instruction.Memory.Laws.{StoreType, loaded, stored}
use riscv_sbt.Sbt.Instruction.Upper.{UpperOp}
use riscv_sbt.Sbt.Instruction.Upper.Laws.{upper}

abbrev pub IsBytes : (ℕ → ℕ) → Type 0
IsBytes mem = (p : ℕ) → mem p < 256

div-lt : (a b : ℕ) → a < 2 ^ 32 → a / b < 2 ^ 32
div-lt a b h = omega arith

pub alu-lt : (op : AluOp) (u : Bool) (a b : ℕ) → a < 2 ^ 32 → b < 2 ^ 32 → alu op u a b < 2 ^ 32
unfolding alu
alu-lt AluOp.add u a b ha hb = omega arith
alu-lt AluOp.sub u a b ha hb = omega arith
alu-lt AluOp.and u a b ha hb = bit_and-lt 32 a b ha hb
alu-lt AluOp.or u a b ha hb = bit_or-lt 32 a b ha hb
alu-lt AluOp.xor u a b ha hb = bit_xor-lt 32 a b ha hb
alu-lt AluOp.sll u a b ha hb = omega arith
alu-lt AluOp.srl u a b ha hb = div-lt a (2 ^ (b % 32)) ha
alu-lt AluOp.sra u a b ha hb = ground (arith, div-lt a (2 ^ (b % 32)) ha)
alu-lt AluOp.slt true a b ha hb = ground arith
alu-lt AluOp.slt false a b ha hb = ground arith

unsigned-lt : (w : ℕ) (n : ℤ) → unsigned w n < 2 ^ w
unsigned-lt w (pos n) = omega (arith, one-le-pow w 2 (omega arith))
unsigned-lt w (negsuc n) = omega (arith, one-le-pow w 2 (omega arith))

pub muldiv-lt : (op : MulOp) (a b : ℕ) → a < 2 ^ 32 → b < 2 ^ 32 → muldiv op a b < 2 ^ 32
unfolding muldiv
muldiv-lt MulOp.mul a b ha hb = omega arith
muldiv-lt MulOp.mulh a b ha hb = omega (arith, unsigned-lt 64 (signed 32 a *ℤ signed 32 b))
muldiv-lt MulOp.mulhsu a b ha hb = omega (arith, unsigned-lt 64 (signed 32 a *ℤ pos b))
muldiv-lt MulOp.mulhu a b ha hb = omega (arith, product-lt a b ha hb)
muldiv-lt MulOp.div a b ha hb = ground (arith, unsigned-lt 32 (quot (signed 32 a) (signed 32 b)))
muldiv-lt MulOp.divu a b ha hb = ground (arith, div-lt a b ha)
muldiv-lt MulOp.rem a b ha hb = ground (arith, unsigned-lt 32 (rem (signed 32 a) (signed 32 b)))
muldiv-lt MulOp.remu a b ha hb = ground arith

pub write-IsWords : (r : ℕ → ℕ) (x v : ℕ) → IsWords r → v < 2 ^ 32 → IsWords (write r x v)
write-IsWords r x v words h j = ground (arith, words j)

pub loaded-lt : (it : IntType) (mem : ℕ → ℕ) (p : ℕ) → IsBytes mem → loaded it mem p < 2 ^ 32
loaded-lt IntType.s8 mem p h = ground (arith, h p)
loaded-lt IntType.u8 mem p h = omega (arith, h p)
loaded-lt IntType.s16 mem p h = ground (arith, h p, h (p + 1))
loaded-lt IntType.u16 mem p h = omega (arith, h p, h (p + 1))
loaded-lt IntType.u32 mem p h = omega (arith, h p, h (p + 1), h (p + 2), h (p + 3))

stored8-IsBytes : (mem : ℕ → ℕ) (p v : ℕ) → IsBytes mem → IsBytes (stored8 mem p v)
stored8-IsBytes mem p v h j = ground (arith, h j)

stored16-IsBytes : (mem : ℕ → ℕ) (p v : ℕ) → IsBytes mem → IsBytes (stored16 mem p v)
stored16-IsBytes mem p v h = stored8-IsBytes _ p v (stored8-IsBytes mem (p + 1) (v / 256) h)

pub stored-IsBytes :
    (it : StoreType) (mem : ℕ → ℕ) (p v : ℕ) → IsBytes mem → IsBytes (stored it mem p v)
stored-IsBytes StoreType.byte mem p v h = stored8-IsBytes mem p _ h
stored-IsBytes StoreType.half mem p v h = stored16-IsBytes mem p _ h
stored-IsBytes StoreType.word mem p v h =
    stored16-IsBytes _ p v (stored16-IsBytes mem (p + 2) (v / 65536) h)

pub upper-lt : (op : UpperOp) (pc v : ℕ) → upper op pc v < 2 ^ 32
upper-lt UpperOp.lui pc v = omega arith
upper-lt UpperOp.auipc pc v = omega arith
