-- ===== src/Sbt/Instruction/MulDiv/Arith.antt =====
-- The high word of a 64-bit product of extended words, in integers.
use riscv_sbt.Prelude.{
  ℕ, suc, ◌⊎◌, ◌+◌, ◌-◌, ◌*◌, ◌/◌, ◌%◌, ◌^◌, ◌<◌, ◌≡◌, arith, ltb, ap, ◌∙◌, Bool-cases, inl, inr,
  ◌≤◌,
}
use riscv_sbt.Prelude.Word.{signed, unsigned, sar, sext}
use riscv_sbt.Prelude.Int.{pos, negsuc, sub_ℕ, ◌*ℤ◌}
use native.Mathlib.Nat.{mul_comm}

-- Below the cut, an arithmetic shift by 32 gives the high word, whatever the sign.
pub high_of_shift : (p : ℕ) → p < 2 ^ 64 → sar 64 p 32 % 2 ^ 32 ≡ p / 2 ^ 32
high_of_shift p h = ground arith

unsigned-sub_ℕ : (p n : ℕ) → n < 2 ^ 64 → unsigned 64 (sub_ℕ p n) ≡ (p + (2 ^ 64 - n)) % 2 ^ 64
unsigned-sub_ℕ p n h = ground arith

-- `2 ^ 64 - c` stands for `- c`.
times_negative :
    (x b c : ℕ) → x + c ≡ 2 ^ 64 → c * b < 2 ^ 64 → x * b % 2 ^ 64 ≡ (2 ^ 64 - c * b) % 2 ^ 64
times_negative x b c e h = omega (arith, ap (λ (t : ℕ). t * b) e)

product-lt : (c b : ℕ) → c ≤ 2 ^ 31 → b < 2 ^ 32 → c * b < 2 ^ 64
product-lt c b hc hb = grind arith

negative_negative :
    (x y c d : ℕ) → x + c ≡ 2 ^ 64 → y + d ≡ 2 ^ 64 → c * d < 2 ^ 64 → x * y % 2 ^ 64 ≡ c * d
negative_negative x y c d e f h = omega (arith, ap (λ (t : ℕ). t * y) e, ap (λ (t : ℕ). c * t) f)

pos-pos : (a b : ℕ) → unsigned 64 (pos a *ℤ pos b) ≡ a * b % 2 ^ 64
unfolding ◌*ℤ◌
pos-pos a b = omega (arith, unsigned-sub_ℕ (a * b + 0 * 0) (a * 0 + 0 * b))

negsuc-pos :
    (c b : ℕ) → suc c * b < 2 ^ 64 → unsigned 64 (negsuc c *ℤ pos b) ≡ (2 ^ 64 - suc c * b) % 2 ^ 64
unfolding ◌*ℤ◌
negsuc-pos c b h = omega (arith, unsigned-sub_ℕ (0 * b + suc c * 0) (0 * 0 + suc c * b))

pos-negsuc :
    (b c : ℕ) → suc c * b < 2 ^ 64 → unsigned 64 (pos b *ℤ negsuc c) ≡ (2 ^ 64 - suc c * b) % 2 ^ 64
unfolding ◌*ℤ◌
pos-negsuc b c h = omega (arith, unsigned-sub_ℕ (b * 0 + 0 * suc c) (b * suc c + 0 * 0))

negsuc-negsuc : (c d : ℕ) → unsigned 64 (negsuc c *ℤ negsuc d) ≡ suc c * suc d % 2 ^ 64
unfolding ◌*ℤ◌
negsuc-negsuc c d = omega (arith, unsigned-sub_ℕ (0 * 0 + suc c * suc d) (0 * suc d + suc c * 0))

-- The two readings of a 32-bit pattern.
abbrev Reading : ℕ → Type 0
Reading a =
    ((signed 32 a ≡ pos a) × (sext 32 64 a ≡ a) × (a < 2 ^ 31))
    ⊎ ((c : ℕ) × (signed 32 a ≡ negsuc c) × (sext 32 64 a + suc c ≡ 2 ^ 64) × (c < 2 ^ 31))

reading : (a : ℕ) → a < 2 ^ 32 → Reading a
reading a h = elim (Bool-cases (ltb a (2 ^ 31))) [
  | inl low ↦ inl (ground arith, ground arith, ground arith)
  | inr high ↦ inr (2 ^ 32 - a - 1, ground arith, ground arith, ground arith)
]

-- The pattern of a product of integers is the product of their sign extensions.
pub mixed_product :
    (a b : ℕ)
    → a < 2 ^ 32
    → b < 2 ^ 32
    → sext 32 64 a * b % 2 ^ 64 ≡ unsigned 64 (signed 32 a *ℤ pos b)
mixed_product a b ha hb = elim (reading a ha) [
  | inl (e, f, h) ↦ rw (e, f, pos-pos)
  | inr (c, e, f, h) ↦
      let small : suc c * b < 2 ^ 64 = product-lt (suc c) b h hb in
      rw (e, negsuc-pos c b small) (times_negative _ b (suc c) f small)
]

pub signed_product :
    (a b : ℕ)
    → a < 2 ^ 32
    → b < 2 ^ 32
    → sext 32 64 a * sext 32 64 b % 2 ^ 64 ≡ unsigned 64 (signed 32 a *ℤ signed 32 b)
signed_product a b ha hb = elim (reading b hb) [
  | inl (e, f, h) ↦ rw (e, f) (mixed_product a b ha hb)
  | inr (d, e, f, h) ↦ elim (reading a ha) [
    | inl (e', f', h') ↦
        let small : suc d * a < 2 ^ 64 = product-lt (suc d) a h ha in
        rw (e, e', f', pos-negsuc a d small, mul_comm a) (times_negative _ a (suc d) f small)
    | inr (c, e', f', h') ↦
        let small : suc c * suc d < 2 ^ 64 = product-lt (suc c) (suc d) h' (omega arith) in
        rw (e, e', negsuc-negsuc) (negative_negative _ _ (suc c) (suc d) f' f small ∙ omega arith)
  ]
]
