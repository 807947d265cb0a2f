-- ===== src/Prelude/Word.antt =====
-- Machine words as bit patterns: a word of width `w` is a number below `2 ^ w`.
use Prim.Native.Nat.{ℕ, zero, suc, ◌+◌, ◌-◌, ◌/◌, ◌%◌, ◌^◌}
use riscv_sbt.Prelude.{Bool, ltb, if◌then◌else◌}
use riscv_sbt.Prelude.Int.{ℤ, pos, negsuc, ltb_ℤ}

-- Cut a number off to a width.
abbrev pub word : ℕ → ℕ → ℕ
word w n = n % 2 ^ w

-- The integer that a pattern stands for in two's complement.
abbrev pub signed : ℕ → ℕ → ℤ
signed w a = if ltb a (2 ^ (w - 1)) then pos a else negsuc (2 ^ w - a - 1)

-- The pattern of an integer.
abbrev pub unsigned : ℕ → ℤ → ℕ
unsigned w (pos n) = n % 2 ^ w
unsigned w (negsuc n) = 2 ^ w - 1 - n % 2 ^ w

-- A signed comparison of patterns.
abbrev pub slt : ℕ → ℕ → ℕ → Bool
slt w a b = ltb_ℤ (signed w a) (signed w b)

-- An arithmetic shift right: the quotient rounded down, so that the sign fills the high bits.
abbrev pub sar : ℕ → ℕ → ℕ → ℕ
sar w a k = if ltb a (2 ^ (w - 1)) then a / 2 ^ k else 2 ^ w - 1 - (2 ^ w - 1 - a) / 2 ^ k

-- Sign extension of a pattern of width `v` to a width `w`.
abbrev pub sext : ℕ → ℕ → ℕ → ℕ
sext v w a = if ltb a (2 ^ (v - 1)) then a else a + (2 ^ w - 2 ^ v)

-- Division of integers, rounded towards zero, and its remainder, which has the dividend's sign.
abbrev pub neg_ℕ : ℕ → ℤ
neg_ℕ zero = pos 0
neg_ℕ (suc n) = negsuc n

abbrev pub quot : ℤ → ℤ → ℤ
quot (pos a) (pos b) = pos (a / b)
quot (pos a) (negsuc b) = neg_ℕ (a / suc b)
quot (negsuc a) (pos b) = neg_ℕ (suc a / b)
quot (negsuc a) (negsuc b) = pos (suc a / suc b)

abbrev pub rem : ℤ → ℤ → ℤ
rem (pos a) (pos b) = pos (a % b)
rem (pos a) (negsuc b) = pos (a % suc b)
rem (negsuc a) (pos b) = neg_ℕ (suc a % b)
rem (negsuc a) (negsuc b) = neg_ℕ (suc a % suc b)
