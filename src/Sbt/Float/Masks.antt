-- ===== src/Sbt/Float/Masks.antt =====
-- The masks of the sign injections of sbt/Builder.h: the sign bit of a pattern, and the rest.
use Prim.Native.Nat.{bit_and, bit_or, bit_xor, differ}
use riscv_sbt.Prelude.{ℕ, zero, suc, ◌+◌, ◌-◌, ◌*◌, ◌/◌, ◌%◌, ◌^◌, ◌<◌, ◌≡◌, refl, ap, ◌∙◌, arith}
use riscv_sbt.Prelude.Bits.{bit_and_mask, bit_and_high, bit_or_add, bit_xor_step, half_div}
use riscv_sbt.Prelude.BitBounds.{differ-lt}
use native.Mathlib.Nat.{one-le-pow}

-- A shift of `^` is the `^` of the shifts.
bit_xor_half : (a b : ℕ) → bit_xor a b / 2 ≡ bit_xor (a / 2) (b / 2)
bit_xor_half a b =
    omega (arith, bit_xor_step a b, differ-lt (a % 2) (b % 2) (omega arith) (omega arith))

bit_xor-div : (k a b : ℕ) → bit_xor a b / 2 ^ k ≡ bit_xor (a / 2 ^ k) (b / 2 ^ k)
bit_xor-div zero a b = ground arith
bit_xor-div (suc k) a b = ground (
  arith,
  half_div k (bit_xor a b),
  half_div k a,
  half_div k b,
  bit_xor_half a b,
  bit_xor-div k (a / 2) (b / 2),
)

-- Of two digits `^` is their difference.
bit_xor-digits : (a b : ℕ) → a < 2 → b < 2 → bit_xor a b ≡ differ a b
bit_xor-digits zero zero p q = refl
bit_xor-digits zero (suc zero) p q = refl
bit_xor-digits (suc zero) zero p q = refl
bit_xor-digits (suc zero) (suc zero) p q = refl
bit_xor-digits (suc (suc a)) b p q = absurd (omega arith)
bit_xor-digits zero (suc (suc b)) p q = absurd (omega arith)
bit_xor-digits (suc zero) (suc (suc b)) p q = absurd (omega arith)

digit-mask : (n : ℕ) → n < 2 → bit_and n 1 ≡ n
digit-mask n h = ground (arith, bit_and_mask 1 n)

-- The highest digit alone
high-mask : (k a : ℕ) → a / 2 ^ k < 2 → bit_and a (2 ^ k) ≡ a / 2 ^ k * 2 ^ k
high-mask k a h = ground (arith, bit_and_high k 1 a, digit-mask (a / 2 ^ k) h)

xor-sign :
    (k a b : ℕ)
    → a / 2 ^ k < 2
    → b / 2 ^ k < 2
    → bit_xor a b / 2 ^ k ≡ differ (a / 2 ^ k) (b / 2 ^ k)
xor-sign k a b p q = bit_xor-div k a b ∙ bit_xor-digits (a / 2 ^ k) (b / 2 ^ k) p q

pub rest-lt : (k a : ℕ) → a % 2 ^ k < 2 ^ k
rest-lt k a = omega (arith, one-le-pow k 2)

-- `(a & rest) | ((a ^ b) & sign)`
pub sign-xor :
    (k a b : ℕ)
    → a / 2 ^ k < 2
    → b / 2 ^ k < 2
    → bit_or (bit_and a (2 ^ k - 1)) (bit_and (bit_xor a b) (2 ^ k))
      ≡ differ (a / 2 ^ k) (b / 2 ^ k) * 2 ^ k + a % 2 ^ k
sign-xor k a b p q =
    let d = differ (a / 2 ^ k) (b / 2 ^ k) in
    let s = xor-sign k a b p q in
    let small = differ-lt (a / 2 ^ k) (b / 2 ^ k) p q in
    ap (bit_or (bit_and a (2 ^ k - 1)))
      (high-mask k (bit_xor a b) (omega (arith, s, small)) ∙ ap (λ (t : ℕ). t * 2 ^ k) s)
    ∙ ap (λ (t : ℕ). bit_or t (d * 2 ^ k)) (bit_and_mask k a)
    ∙ bit_or_add k (a % 2 ^ k) d (rest-lt k a)
    ∙ omega arith
