-- ===== src/Prelude/Bits.antt =====
-- The bit operations one binary digit at a time, and `&` with masks of ones.
use Prim.Native.Nat.{
  ℕ, zero, suc, ◌+◌, ◌-◌, ◌*◌, ◌/◌, ◌%◌, ◌^◌, ◌≤◌, ◌<◌, min, max, differ, bit_and, bit_or, bit_xor,
  digits, bit_and-bitwise, bit_or-bitwise, bit_xor-bitwise,
}
use native.Mathlib.Nat.{pow-suc, one-le-pow, div-div-eq-div-mul, mul_comm}
use riscv_sbt.Prelude.{◌≡◌, refl, sym, ◌∙◌, ap, arith}

-- All three are `digits z f`: `f` joins two digits, and `z` is left where the first word ends.
module _ (z : ℕ → ℕ) (f : ℕ → ℕ → ℕ) where
  digits-more : (m n a b : ℕ) → a ≤ n → n ≤ m → digits z f m a b ≡ digits z f n a b
  digits-more zero zero a b h g = refl
  digits-more zero (suc n) a b h g = absurd (omega arith)
  digits-more (suc m) zero zero b h g = refl
  digits-more (suc m) zero (suc a) b h g = absurd (omega arith)
  digits-more (suc m) (suc n) zero b h g = refl
  digits-more (suc m) (suc n) (suc a) b h g =
      ap (λ (t : ℕ). t * 2 + f (suc a % 2) (b % 2))
        (digits-more m n (suc a / 2) (b / 2) (omega arith) (omega arith))

  -- One equation for the lowest digit.
  digits_step :
      ((b : ℕ) → z b ≡ z (b / 2) * 2 + f 0 (b % 2))
      → (a b : ℕ) → digits z f a a b ≡ digits z f (a / 2) (a / 2) (b / 2) * 2 + f (a % 2) (b % 2)
  digits_step hz zero b = hz b
  digits_step hz (suc a) b =
      ap (λ (t : ℕ). t * 2 + f (suc a % 2) (b % 2))
        (digits-more a (suc a / 2) (suc a / 2) (b / 2) (omega arith) (omega arith))

pub bit_and_step : (a b : ℕ) → bit_and a b ≡ bit_and (a / 2) (b / 2) * 2 + min (a % 2) (b % 2)
bit_and_step a b =
    bit_and-bitwise a b
    ∙ digits_step (λ t. 0) min (λ t. omega arith) a b
    ∙ ap (λ (t : ℕ). t * 2 + min (a % 2) (b % 2)) (sym (bit_and-bitwise (a / 2) (b / 2)))

pub bit_or_step : (a b : ℕ) → bit_or a b ≡ bit_or (a / 2) (b / 2) * 2 + max (a % 2) (b % 2)
bit_or_step a b =
    bit_or-bitwise a b
    ∙ digits_step (λ t. t) max (λ t. omega arith) a b
    ∙ ap (λ (t : ℕ). t * 2 + max (a % 2) (b % 2)) (sym (bit_or-bitwise (a / 2) (b / 2)))

pub bit_xor_step : (a b : ℕ) → bit_xor a b ≡ bit_xor (a / 2) (b / 2) * 2 + differ (a % 2) (b % 2)
bit_xor_step a b =
    bit_xor-bitwise a b
    ∙ digits_step (λ t. t) differ (λ t. omega arith) a b
    ∙ ap (λ (t : ℕ). t * 2 + differ (a % 2) (b % 2)) (sym (bit_xor-bitwise (a / 2) (b / 2)))

-- A mask of zeros leaves nothing, and a mask of `k` ones what stands in the `k` low digits.
pub zero-mask : (n a : ℕ) → a ≤ n → bit_and a 0 ≡ 0
zero-mask zero a h = ground (arith, bit_and-bitwise 0 0)
zero-mask (suc n) a h = omega (arith, bit_and_step a 0, zero-mask n (a / 2) (omega arith))

pub pow-two : (k : ℕ) → 2 ^ suc k ≡ 2 * 2 ^ k
pow-two k = omega (arith, pow-suc 2 k)

pub half_div : (k a : ℕ) → a / 2 ^ suc k ≡ a / 2 / 2 ^ k
half_div k a = rw (div-div-eq-div-mul, pow-suc) (rw (mul_comm 2 (2 ^ k)))

twice : (q k : ℕ) → q * 2 ^ suc k ≡ 2 * (q * 2 ^ k)
twice q k = omega (arith, ap (λ (t : ℕ). q * t) (pow-two k))

pub half_mod : (k a : ℕ) → a % 2 ^ suc k ≡ a / 2 % 2 ^ k * 2 + a % 2
half_mod k a = ground (arith, half_div k a, twice (a / 2 / 2 ^ k) k)

pub bit_and_mask : (k a : ℕ) → bit_and a (2 ^ k - 1) ≡ a % 2 ^ k
bit_and_mask zero a = omega (arith, zero-mask a a (omega arith))
bit_and_mask (suc k) a = ground (
  arith,
  half_mod k a,
  pow-two k,
  one-le-pow k 2,
  bit_and_step a (2 ^ suc k - 1),
  bit_and_mask k (a / 2),
)

-- A mask with `k` low zeros keeps what stands above them.
pub bit_and_high : (k m a : ℕ) → bit_and a (m * 2 ^ k) ≡ bit_and (a / 2 ^ k) m * 2 ^ k
bit_and_high zero m a = ground arith
bit_and_high (suc k) m a = ground (
  arith,
  bit_and_step a (m * 2 ^ suc k),
  twice m k,
  twice (bit_and (a / 2 / 2 ^ k) m) k,
  bit_and_high k m (a / 2),
  half_div k a,
)

-- `|` of digits that do not overlap is a sum.
pub bit_or_add : (k a b : ℕ) → a < 2 ^ k → bit_or a (b * 2 ^ k) ≡ a + b * 2 ^ k
bit_or_add zero zero b h = bit_or-bitwise 0 (b * 2 ^ 0) ∙ omega arith
bit_or_add zero (suc a) b h = absurd (omega arith)
bit_or_add (suc k) a b h = ground (
  arith,
  bit_or_step a (b * 2 ^ suc k),
  twice b k,
  pow-two k,
  ap (bit_or (a / 2)) (double_half (b * 2 ^ k)),
  bit_or_add k (a / 2) b,
)
  where
    double_half : (n : ℕ) → 2 * n / 2 ≡ n
    double_half n = omega arith
