-- ===== src/Prelude/BitBounds.antt =====
-- The bit operations stay within the width of their operands.
use Prim.Native.Nat.{
  ℕ, zero, suc, ◌/◌, ◌%◌, ◌^◌, ◌≤◌, ◌<◌, bit_and, bit_or, bit_xor, digits, bit_and-bitwise,
  bit_or-bitwise, bit_xor-bitwise, min, max, differ,
}
use native.Mathlib.Nat.{pow-suc}
use riscv_sbt.Prelude.{arith}

-- Each digit of a result is below 2, and the digits past the end of `a` are those of `z b`.
digits-lt :
    (z : ℕ → ℕ) (f : ℕ → ℕ → ℕ)
    → ((b : ℕ) → z b ≤ b)
    → ((x y : ℕ) → x < 2 → y < 2 → f x y < 2)
    → (n k a b : ℕ) → a < 2 ^ k
    → b < 2 ^ k
    → digits z f n a b < 2 ^ k
digits-lt z f hz hf zero k a b ha hb = omega (arith, hz b)
digits-lt z f hz hf (suc n) k zero b ha hb = omega (arith, hz b)
digits-lt z f hz hf (suc n) zero (suc a) b ha hb = absurd (omega arith)
digits-lt z f hz hf (suc n) (suc k) (suc a) b ha hb = omega (
  arith,
  pow-suc 2 k,
  hf (suc a % 2) (b % 2) (omega arith) (omega arith),
  digits-lt z f hz hf n k (suc a / 2) (b / 2) (omega (arith, pow-suc 2 k))
      (omega (arith, pow-suc 2 k)),
)

-- Digits are zero or one, so there are four cases.
pub differ-lt : (x y : ℕ) → x < 2 → y < 2 → differ x y < 2
differ-lt zero zero hx hy = omega arith
differ-lt zero (suc zero) hx hy = omega arith
differ-lt (suc zero) zero hx hy = omega arith
differ-lt (suc zero) (suc zero) hx hy = omega arith
differ-lt (suc (suc x)) y hx hy = absurd (omega arith)
differ-lt zero (suc (suc y)) hx hy = absurd (omega arith)
differ-lt (suc zero) (suc (suc y)) hx hy = absurd (omega arith)

pub bit_and-lt : (k a b : ℕ) → a < 2 ^ k → b < 2 ^ k → bit_and a b < 2 ^ k
bit_and-lt k a b ha hb =
    rw bit_and-bitwise
      (digits-lt (λ b. zero) min (λ b. omega arith) (λ x y h g. omega arith) a k a b ha hb)

pub bit_or-lt : (k a b : ℕ) → a < 2 ^ k → b < 2 ^ k → bit_or a b < 2 ^ k
bit_or-lt k a b ha hb =
    rw bit_or-bitwise
      (digits-lt (λ b. b) max (λ b. omega arith) (λ x y h g. omega arith) a k a b ha hb)

pub bit_xor-lt : (k a b : ℕ) → a < 2 ^ k → b < 2 ^ k → bit_xor a b < 2 ^ k
bit_xor-lt k a b ha hb =
    rw bit_xor-bitwise (digits-lt (λ b. b) differ (λ b. omega arith) differ-lt a k a b ha hb)
