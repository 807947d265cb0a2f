-- ===== src/Mibench/Crc32/Shift.antt =====
-- The shift register of the CRC, one digit at a time, and the laws of `^` that it needs.
use Prim.Native.Nat.{bit_xor, differ}
use riscv_sbt.Prelude.{
  ℕ, zero, suc, ◌+◌, ◌*◌, ◌/◌, ◌%◌, ◌^◌, ◌≤◌, ◌<◌, ◌≡◌, refl, ap, sym, ◌∙◌, arith, ◌==◌,
  if◌then◌else◌, Bool-cases, inl, inr,
}
use riscv_sbt.Prelude.Bits.{bit_xor_step, half_div, half_mod, pow-two}

-- The polynomial, with the highest term in the lowest digit.
abbrev polynomial : ℕ
polynomial = 0xedb88320

unfoldable pub shift : ℕ → ℕ
shift c = bit_xor (c / 2) (if c % 2 == 1 then polynomial else 0)

unfoldable pub shifts : ℕ → ℕ → ℕ
shifts zero c = c
shifts (suc n) c = shifts n (shift c)

differ_digits : (a b : ℕ) → a < 2 → b < 2 → differ a b ≡ (a + b) % 2
differ_digits zero zero h g = refl
differ_digits zero (suc zero) h g = refl
differ_digits (suc zero) zero h g = refl
differ_digits (suc zero) (suc zero) h g = refl
differ_digits a (suc (suc b)) h g = absurd (omega arith)
differ_digits (suc (suc a)) b h g = absurd (omega arith)

parity : (a b : ℕ) → differ (a % 2) (b % 2) ≡ (a + b) % 2
parity a b = differ_digits (a % 2) (b % 2) (omega arith) (omega arith) ∙ omega arith

xor_half : (a b : ℕ) → bit_xor a b / 2 ≡ bit_xor (a / 2) (b / 2)
xor_half a b = omega (arith, bit_xor_step a b, parity a b)

xor_parity : (a b : ℕ) → bit_xor a b % 2 ≡ (a + b) % 2
xor_parity a b = omega (arith, bit_xor_step a b, parity a b)

digits_eq : (a b : ℕ) → a / 2 ≡ b / 2 → a % 2 ≡ b % 2 → a ≡ b
digits_eq a b h g = omega arith

half_interchange :
    (a b c d : ℕ)
    → bit_xor (bit_xor a b) (bit_xor c d) / 2
      ≡ bit_xor (bit_xor (a / 2) (b / 2)) (bit_xor (c / 2) (d / 2))
half_interchange a b c d =
    xor_half (bit_xor a b) (bit_xor c d)
    ∙ (ap (λ (t : ℕ). bit_xor t (bit_xor c d / 2)) (xor_half a b)
        ∙ ap (bit_xor (bit_xor (a / 2) (b / 2))) (xor_half c d))

xor_interchange_to :
    (n a b c d : ℕ)
    → a + b + (c + d) ≤ n
    → bit_xor (bit_xor a b) (bit_xor c d) ≡ bit_xor (bit_xor a c) (bit_xor b d)
xor_interchange_to zero a b c d h =
    let eb : b ≡ 0 = omega arith in let ec : c ≡ 0 = omega arith in cc (eb, ec)
xor_interchange_to (suc n) a b c d h =
    digits_eq _ _
      (half_interchange a b c d
        ∙ (xor_interchange_to n (a / 2) (b / 2) (c / 2) (d / 2) (omega arith)
            ∙ sym (half_interchange a c b d)))
      (omega (
        arith,
        xor_parity (bit_xor a b) (bit_xor c d),
        xor_parity a b,
        xor_parity c d,
        xor_parity (bit_xor a c) (bit_xor b d),
        xor_parity a c,
        xor_parity b d,
      ))

xor_interchange :
    (a b c d : ℕ) → bit_xor (bit_xor a b) (bit_xor c d) ≡ bit_xor (bit_xor a c) (bit_xor b d)
xor_interchange a b c d = xor_interchange_to (a + b + (c + d)) a b c d (omega arith)

xor_zero_to : (n a : ℕ) → a ≤ n → bit_xor a 0 ≡ a
xor_zero_to zero a h = ap (λ (t : ℕ). bit_xor t 0) {x = a} {y = 0} (omega arith) ∙ omega arith
xor_zero_to (suc n) a h =
    omega (arith, bit_xor_step a 0, parity a 0, xor_zero_to n (a / 2) (omega arith))

pub xor_zero : (a : ℕ) → bit_xor a 0 ≡ a
xor_zero a = xor_zero_to a a (omega arith)

-- The register is linear.
shift-xor : (a b : ℕ) → shift (bit_xor a b) ≡ bit_xor (shift a) (shift b)
unfolding shift
shift-xor a b =
    ap (λ (t : ℕ). bit_xor t (if bit_xor a b % 2 == 1 then polynomial else 0)) (xor_half a b)
    ∙ (ap (bit_xor (bit_xor (a / 2) (b / 2))) (feedback a b)
        ∙ xor_interchange (a / 2) (b / 2) (if a % 2 == 1 then polynomial else 0)
            (if b % 2 == 1 then polynomial else 0))
  where
    feedback :
        (a b : ℕ)
        → (if bit_xor a b % 2 == 1 then polynomial else 0)
          ≡ bit_xor (if a % 2 == 1 then polynomial else 0) (if b % 2 == 1 then polynomial else 0)
    feedback a b = elim (Bool-cases (a % 2 == 1)) [
      | inl e ↦ elim (Bool-cases (b % 2 == 1)) [
        | inl e' ↦ ground (arith, e, e', xor_parity a b)
        | inr e' ↦ ground (arith, e, e', xor_parity a b)
      ]
      | inr e ↦ elim (Bool-cases (b % 2 == 1)) [
        | inl e' ↦ ground (arith, e, e', xor_parity a b)
        | inr e' ↦ ground (arith, e, e', xor_parity a b)
      ]
    ]

pub shifts-xor : (n a b : ℕ) → shifts n (bit_xor a b) ≡ bit_xor (shifts n a) (shifts n b)
unfolding shifts
shifts-xor zero a b = refl
shifts-xor (suc n) a b = ap (shifts n) (shift-xor a b) ∙ shifts-xor n (shift a) (shift b)

-- Digits that no feedback reaches are moved down.
pub shifts-high : (n h : ℕ) → shifts n (h * 2 ^ n) ≡ h
unfolding shifts shift
shifts-high zero h = omega arith
shifts-high (suc n) h =
    ap (shifts n) (even (h * 2 ^ suc n) (h * 2 ^ n) (twice h n)) ∙ shifts-high n h
  where
    even : (x y : ℕ) → x ≡ 2 * y → shift x ≡ y
    even x y e = ground (arith, e, xor_zero (x / 2))

    twice : (h n : ℕ) → h * 2 ^ suc n ≡ 2 * (h * 2 ^ n)
    twice h n = omega (arith, ap (λ (t : ℕ). h * t) (pow-two n))

zero_xor_to : (n a : ℕ) → a ≤ n → bit_xor 0 a ≡ a
zero_xor_to zero a h = ap (bit_xor 0) {x = a} {y = 0} (omega arith) ∙ omega arith
zero_xor_to (suc n) a h =
    omega (arith, bit_xor_step 0 a, parity 0 a, zero_xor_to n (a / 2) (omega arith))

-- A word is the `^` of its low digits and the others.
pub xor_parts : (k a : ℕ) → bit_xor (a % 2 ^ k) (a / 2 ^ k * 2 ^ k) ≡ a
xor_parts zero a =
    ap (λ (t : ℕ). bit_xor t (a / 2 ^ 0 * 2 ^ 0)) {x = a % 2 ^ 0} {y = 0} (omega arith)
    ∙ (ap (bit_xor 0) {x = a / 2 ^ 0 * 2 ^ 0} {y = a} (omega arith) ∙ zero_xor_to a a (omega arith))
xor_parts (suc k) a =
    let low = half_mod k a in
    let high = high_part k a in
    digits_eq _ _
      (xor_half (a % 2 ^ suc k) (a / 2 ^ suc k * 2 ^ suc k)
        ∙ (ap (λ (t : ℕ). bit_xor t (a / 2 ^ suc k * 2 ^ suc k / 2)) {x = a % 2 ^ suc k / 2}
              {y = a / 2 % 2 ^ k} (omega (arith, low))
            ∙ (ap (bit_xor (a / 2 % 2 ^ k)) {x = a / 2 ^ suc k * 2 ^ suc k / 2}
                  {y = a / 2 / 2 ^ k * 2 ^ k} (omega (arith, high))
                ∙ xor_parts k (a / 2))))
      (omega (arith, low, high, xor_parity (a % 2 ^ suc k) (a / 2 ^ suc k * 2 ^ suc k)))
  where
    high_part : (k a : ℕ) → a / 2 ^ suc k * 2 ^ suc k ≡ 2 * (a / 2 / 2 ^ k * 2 ^ k)
    high_part k a =
        ap (λ (t : ℕ). t * 2 ^ suc k) (half_div k a)
        ∙ omega (arith, ap (λ (t : ℕ). a / 2 / 2 ^ k * t) (pow-two k))

pub xor-div : (k a b : ℕ) → bit_xor a b / 2 ^ k ≡ bit_xor (a / 2 ^ k) (b / 2 ^ k)
xor-div zero a b =
    one (bit_xor a b)
    ∙ (ap (λ (t : ℕ). bit_xor t b) (sym (one a)) ∙ ap (bit_xor (a / 2 ^ 0)) (sym (one b)))
  where
    one : (t : ℕ) → t / 2 ^ 0 ≡ t
    one t = omega arith
xor-div (suc k) a b =
    half_div k (bit_xor a b)
    ∙ (ap (λ (t : ℕ). t / 2 ^ k) (xor_half a b)
        ∙ (xor-div k (a / 2) (b / 2)
            ∙ (ap (λ (t : ℕ). bit_xor t (b / 2 / 2 ^ k)) (sym (half_div k a))
                ∙ ap (bit_xor (a / 2 ^ suc k)) (sym (half_div k b)))))
