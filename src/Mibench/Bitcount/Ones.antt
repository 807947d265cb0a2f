-- ===== src/Mibench/Bitcount/Ones.antt =====
-- The number of ones among the low digits of a word: the specification of the bit counters.
use Prim.Native.Nat.{bit_and}
use riscv_sbt.Prelude.{
  ℕ, zero, suc, ◌+◌, ◌-◌, ◌*◌, ◌/◌, ◌%◌, ◌^◌, ◌≤◌, ◌<◌, ◌≡◌, refl, ap, ◌∙◌, arith, ◌==◌,
  if◌then◌else◌,
}
use riscv_sbt.Prelude.Bits.{bit_and_step, zero-mask, pow-two, half_div, half_mod}

unfoldable pub ones : ℕ → ℕ → ℕ
ones zero x = 0
ones (suc k) x = x % 2 + ones k (x / 2)

pub ones-zero : (k : ℕ) → ones k 0 ≡ 0
unfolding ones
ones-zero zero = refl
ones-zero (suc k) = omega (arith, ones-zero k)

pub ones-le : (k x : ℕ) → ones k x ≤ k
unfolding ones
ones-le zero x = omega arith
ones-le (suc k) x = omega (arith, ones-le k (x / 2))

-- A word with no ones is zero.
pub ones-positive : (k x : ℕ) → x < 2 ^ k → 0 < x → 0 < ones k x
unfolding ones
ones-positive zero x h g = absurd (omega arith)
ones-positive (suc k) x h g = ground (arith, pow-two k, ones-positive k (x / 2))

below_one : (x : ℕ) → x < 1 → x ≡ 0
below_one x h = omega arith

bit_and_self : (k x : ℕ) → x < 2 ^ k → bit_and x x ≡ x
bit_and_self zero x h =
    omega (arith, zero-mask 0 0 (omega arith), ap (λ (t : ℕ). bit_and t t) (below_one x h))
bit_and_self (suc k) x h =
    omega (arith, bit_and_step x x, pow-two k, bit_and_self k (x / 2) (omega (arith, pow-two k)))

-- `x & (x - 1)` is `x` without its lowest one.
odd_half : (x : ℕ) → x % 2 ≡ 1 → bit_and (x / 2) ((x - 1) / 2) ≡ bit_and (x / 2) (x / 2)
odd_half x h = ap (bit_and (x / 2)) (omega arith)

even_half : (x : ℕ) → x % 2 ≡ 0 → bit_and (x / 2) ((x - 1) / 2) ≡ bit_and (x / 2) (x / 2 - 1)
even_half x h = ap (bit_and (x / 2)) (omega arith)

-- What is left above its lowest digit.
drop_digit :
    (k x : ℕ)
    → x < 2 ^ suc k
    → 0 < x
    → bit_and x (x - 1) / 2 ≡ (if x % 2 == 1 then x / 2 else bit_and (x / 2) (x / 2 - 1))
drop_digit k x h g =
    ground
      (arith, bit_and_step x (x - 1), pow-two k, bit_and_self k (x / 2), odd_half x, even_half x)

pub ones-drop : (k x : ℕ) → x < 2 ^ k → 0 < x → ones k (bit_and x (x - 1)) + 1 ≡ ones k x
unfolding ones
ones-drop zero x h g = absurd (omega arith)
ones-drop (suc k) x h g =
    ground (arith, drop_digit k x h g, bit_and_step x (x - 1), pow-two k, ones-drop k (x / 2))

zero_add : (k : ℕ) → 0 + k ≡ k
zero_add k = omega arith

pub div_one : (x : ℕ) → x / 1 ≡ x
div_one x = omega arith

suc_add : (j k : ℕ) → suc j + k ≡ suc (j + k)
suc_add j k = omega arith

pub ones-split : (j k x : ℕ) → ones (j + k) x ≡ ones j x + ones k (x / 2 ^ j)
unfolding ones
ones-split zero k x = omega (arith, ap (λ (t : ℕ). ones t x) (zero_add k), ap (ones k) (div_one x))
ones-split (suc j) k x = omega (
  arith,
  ap (λ (t : ℕ). ones t x) (suc_add j k),
  ones-split j k (x / 2),
  ap (ones k) (half_div j x),
)

half_add : (x p : ℕ) → (x + 2 * p) / 2 ≡ x / 2 + p
half_add x p = omega arith

power_of : (k j : ℕ) → 2 ^ (suc k + j) ≡ 2 * 2 ^ (k + j)
power_of k j = ap (λ (t : ℕ). 2 ^ t) (suc_add k j) ∙ pow-two (k + j)

-- A digit above the first `k` is not counted.
pub ones-high : (k j x : ℕ) → ones k (x + 2 ^ (k + j)) ≡ ones k x
unfolding ones
ones-high zero j x = refl
ones-high (suc k) j x = omega (
  arith,
  power_of k j,
  ap (λ (t : ℕ). ones k ((x + t) / 2)) (power_of k j),
  ap (λ (t : ℕ). ones k t) (half_add x (2 ^ (k + j))),
  ones-high k j (x / 2),
)

-- The digits above the first `k` are not counted.
pub ones-mod : (k x : ℕ) → ones k (x % 2 ^ k) ≡ ones k x
unfolding ones
ones-mod zero x = refl
ones-mod (suc k) x = omega (arith, half_mod k x, ap (ones k) (half_of_mod k x), ones-mod k (x / 2))
  where
    half_of_mod : (k x : ℕ) → x % 2 ^ suc k / 2 ≡ x / 2 % 2 ^ k
    half_of_mod k x = omega (arith, half_mod k x)
