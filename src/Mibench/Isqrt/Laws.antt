-- ===== src/Mibench/Isqrt/Laws.antt =====
-- The invariant of the loop of `usqrt`: root, remainder and the digits still to come.
use native.Mathlib.Nat.{pow-suc, one-le-pow}
use riscv_sbt.Prelude.{
  ℕ, zero, suc, ◌+◌, ◌*◌, ◌/◌, ◌%◌, ◌^◌, ◌≤◌, ◌<◌, ◌≡◌, refl, sym, ap, subst, arith,
}
use riscv_sbt.Prelude.Bits.{bit_and_mask, bit_and_high}
use riscv_sbt.Mibench.Isqrt.{Root, top_2_bits, iterate, iterations, usqrt}

top_2_bits-div : (x : ℕ) → x < 2 ^ 32 → top_2_bits x ≡ x / 2 ^ 30
unfolding top_2_bits
top_2_bits-div x h = omega (arith, bit_and_high 30 3 x, bit_and_mask 2 (x / 2 ^ 30))

-- `a` is the root of the digits `n` taken so far, and `r` the remainder.
abbrev IsRoot : ℕ → ℕ → ℕ → Type 0
IsRoot n a r = (a * a + r ≡ n) × (r ≤ 2 * a)

-- The digits of `x` are split between `n` and `x`, with `k` pairs to come.
abbrev IsSplit : ℕ → ℕ → ℕ → ℕ → Type 0
IsSplit input k n x = (n * 4 ^ k * 2 ^ 32 + x * 4 ^ k ≡ input * 4 ^ 32) × (x < 2 ^ 32)

square-even : (a : ℕ) → a * 2 * (a * 2) ≡ 4 * (a * a)
square-even a = omega arith

square-odd : (a : ℕ) → (a * 2 + 1) * (a * 2 + 1) ≡ 4 * (a * a) + 4 * a + 1
square-odd a = omega arith

iterate-IsRoot :
    (n : ℕ) (s : Root)
    → IsRoot n s.a s.r
    → s.a < 2 ^ 29
    → s.x < 2 ^ 32
    → IsRoot (n * 4 + s.x / 2 ^ 30) (iterate s).a (iterate s).r × ((iterate s).x ≡ s.x * 4 % 2 ^ 32)
unfolding iterate
iterate-IsRoot n s (e, le) ha hx =
    (ground (arith, top_2_bits-div s.x hx, square-even s.a, square-odd s.a), ground arith)

pow_four : (k : ℕ) → 4 ^ suc k ≡ 4 * 4 ^ k
pow_four k = omega (arith, pow-suc 4 k)

-- Two digits go from `x`, which is `t * 2 ^ 30 + y`, to `n`.
digits-moved :
    (n t y p i : ℕ)
    → n * (4 * p) * 2 ^ 32 + (t * 2 ^ 30 + y) * (4 * p) ≡ i
    → (n * 4 + t) * p * 2 ^ 32 + y * 4 * p ≡ i
digits-moved n t y p i h = omega arith

IsSplit-next :
    (i k n x : ℕ) → IsSplit i (suc k) n x → IsSplit i k (n * 4 + x / 2 ^ 30) (x * 4 % 2 ^ 32)
IsSplit-next i k n x (e, h) = (
  subst (λ (y : ℕ). (n * 4 + x / 2 ^ 30) * 4 ^ k * 2 ^ 32 + y * 4 ^ k ≡ i * 4 ^ 32) (omega arith)
      (digits-moved n (x / 2 ^ 30) (x % 2 ^ 30) (4 ^ k) (i * 4 ^ 32) (
        subst (λ (y : ℕ). n * (4 * 4 ^ k) * 2 ^ 32 + y * (4 * 4 ^ k) ≡ i * 4 ^ 32) (omega arith)
          (subst (λ (q : ℕ). n * q * 2 ^ 32 + x * q ≡ i * 4 ^ 32) (pow_four k) e))),
  omega arith,
)

root-lt : (a : ℕ) → a * a < 2 ^ 58 → a < 2 ^ 29
root-lt a h = grind arith

times-one : (n p : ℕ) → 1 ≤ p → n ≤ n * p
times-one n zero h = absurd (omega arith)
times-one n (suc p) h = omega arith

taken-lt : (i k n x : ℕ) → i < 2 ^ 28 → IsSplit i (suc k) n x → n < 2 ^ 58
taken-lt i k n x h (e, _) = omega (
  arith,
  times-one n (4 ^ k) (one-le-pow k 4 (omega arith)),
  pow_four k,
  ap (λ (q : ℕ). n * q) (pow_four k),
)

iterations-IsRoot :
    (i : ℕ)
    → i < 2 ^ 28
    → (k n : ℕ) (s : Root) → IsRoot n s.a s.r
    → IsSplit i k n s.x
    → IsRoot (i * 2 ^ 32) (iterations k s).a (iterations k s).r
unfolding iterations
iterations-IsRoot i h zero n s (e, le) (f, lt) = (omega arith, le)
iterations-IsRoot i h (suc k) n s root split =
    let next =
      iterate-IsRoot n s root (root-lt s.a (omega (arith, root.0, taken-lt i k n s.x h split)))
        split.1 in
    iterations-IsRoot i h k (n * 4 + s.x / 2 ^ 30) (iterate s) next.0 (
      subst (λ (y : ℕ). IsSplit i k (n * 4 + s.x / 2 ^ 30) y) (sym next.1)
        (IsSplit-next i k n s.x split))

-- For an argument below 2 ^ 28, `usqrt` is the greatest number whose square is at most
-- `x * 2 ^ 32`: the square root of `x`, rounded down to 16 binary places, with no overflow.
pub usqrt-root :
    (x : ℕ)
    → x < 2 ^ 28
    → (usqrt x * usqrt x ≤ x * 2 ^ 32) × (x * 2 ^ 32 < (usqrt x + 1) * (usqrt x + 1))
unfolding usqrt
usqrt-root x h =
    let root =
      iterations-IsRoot x h 32 0 (record { x = x; a = 0; r = 0 }) (refl, omega arith)
        (omega arith, omega arith) in
    (omega (arith, root.0), omega (arith, root.0, root.1))
