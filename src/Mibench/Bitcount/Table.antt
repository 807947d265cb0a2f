-- ===== src/Mibench/Bitcount/Table.antt =====
-- The counters that look bytes or nybbles up in the table.
use Prim.Native.Nat.{bit_and}
use native.Mathlib.Nat.{one-le-pow, mul-div_left}
use riscv_sbt.Prelude.{
  ℕ, zero, suc, ◌+◌, ◌*◌, ◌/◌, ◌%◌, ◌^◌, ◌<◌, ◌≡◌, refl, ap, ◌∙◌, arith, Bool, true, List, [], ◌∷◌,
  Option, some, ◌==◌, ◌&&◌, and-true, get_elem?, length, ==_iff,
}
use riscv_sbt.Prelude.Bits.{bit_and_mask, bit_and_high}
use riscv_sbt.Mibench.Bitcount.{◌+?◌, bits, ntbl_bitcount, bw_btbl_bitcount, ar_btbl_bitcount}
use riscv_sbt.Mibench.Bitcount.Ones.{ones, ones-split, ones-mod, ones-zero, div_one}

-- A list that holds the values of a function from `i` on.
unfoldable pub holds : (ℕ → ℕ) → ℕ → List ℕ → Bool
holds f i [] = true
holds f i (c ∷ cs) = (c == f i) && holds f (suc i) cs

pub entry-holds :
    (f : ℕ → ℕ) (cs : List ℕ) (i j : ℕ)
    → holds f i cs ≡ true
    → j < length cs
    → get_elem? cs j ≡ some (f (i + j))
unfolding holds
entry-holds f [] i j h lt = absurd (omega arith)
entry-holds f (c ∷ cs) i zero h lt =
    ap some ((==_iff c (f i)).0 (and-true (c == f i) (holds f (suc i) cs) h).0 ∙ ap f (omega arith))
entry-holds f (c ∷ cs) i (suc j) h lt =
    entry-holds f cs (suc i) j (and-true (c == f i) (holds f (suc i) cs) h).1 (omega arith)
    ∙ ap (λ (t : ℕ). some (f t)) (omega arith)

-- The table holds the count of each of its indices, by evaluation.
table_counts : holds (ones 8) 0 bits ≡ true
unfolding holds bits ones
table_counts = refl

pub bits-ones : (j : ℕ) → j < 256 → get_elem? bits j ≡ some (ones 8 j)
bits-ones j h =
    entry-holds (ones 8) bits 0 j table_counts (unfold bits in h)
    ∙ ap (λ (t : ℕ). some (ones 8 t)) (omega arith)

nybble-ones : (j : ℕ) → j < 16 → get_elem? bits j ≡ some (ones 4 j)
nybble-ones j h =
    bits-ones j (omega arith)
    ∙ ap some (omega (arith, ones-split 4 4 j, ones-zero 4, ap (ones 4) (high j h)))
  where
    high : (j : ℕ) → j < 16 → j / 2 ^ 4 ≡ 0
    high j h = omega arith

-- The nybble at a multiple of four digits, as masked and shifted.
nybble : (k x : ℕ) → bit_and x (15 * 2 ^ k) / 2 ^ k ≡ x / 2 ^ k % 16
nybble k x =
    ap (λ (t : ℕ). t / 2 ^ k) (bit_and_high k 15 x)
    ∙ mul-div_left (bit_and (x / 2 ^ k) 15) (one-le-pow k 2 (omega arith))
    ∙ bit_and_mask 4 (x / 2 ^ k)

ones-nybble :
    (k x : ℕ) → get_elem? bits (bit_and x (15 * 2 ^ k) / 2 ^ k) ≡ some (ones 4 (x / 2 ^ k))
ones-nybble k x =
    ap (get_elem? bits) (nybble k x)
    ∙ nybble-ones (x / 2 ^ k % 16) (omega arith)
    ∙ ap some (ones-mod 4 (x / 2 ^ k))

pub lowest-nybble : (x : ℕ) → get_elem? bits (bit_and x 15) ≡ some (ones 4 x)
lowest-nybble x =
    ap (get_elem? bits) (bit_and_mask 4 x)
    ∙ nybble-ones (x % 16) (omega arith)
    ∙ ap some (ones-mod 4 x)

ones-byte : (i x : ℕ) → get_elem? bits (x / 256 ^ i % 256) ≡ some (ones 8 (x / 256 ^ i))
ones-byte i x = bits-ones (x / 256 ^ i % 256) (omega arith) ∙ ap some (ones-mod 8 (x / 256 ^ i))

pub sum : {m n : Option ℕ} (a b : ℕ) → m ≡ some a → n ≡ some b → (m +? n) ≡ some (a + b)
sum a b e f = rw (e, f)

nybbles-ones :
    (x : ℕ)
    → ones 4 x
        + ones 4 (x / 2 ^ 4)
        + ones 4 (x / 2 ^ 8)
        + ones 4 (x / 2 ^ 12)
        + ones 4 (x / 2 ^ 16)
        + ones 4 (x / 2 ^ 20)
        + ones 4 (x / 2 ^ 24)
        + ones 4 (x / 2 ^ 28)
      ≡ ones 32 x
nybbles-ones x = omega (
  arith,
  ones-split 4 4 x,
  ones-split 8 4 x,
  ones-split 12 4 x,
  ones-split 16 4 x,
  ones-split 20 4 x,
  ones-split 24 4 x,
  ones-split 28 4 x,
)

bytes-ones :
    (x : ℕ)
    → ones 8 (x / 256 ^ 0) + ones 8 (x / 256 ^ 1) + ones 8 (x / 256 ^ 2) + ones 8 (x / 256 ^ 3)
      ≡ ones 32 x
bytes-ones x =
    omega (arith, ap (ones 8) (div_one x), ones-split 8 8 x, ones-split 16 8 x, ones-split 24 8 x)

-- The eight nybbles of a word, looked up in the table, have all its ones; no index is out of range.
pub ntbl_bitcount-ones : (x : ℕ) → ntbl_bitcount x ≡ some (ones 32 x)
unfolding ntbl_bitcount
ntbl_bitcount-ones x =
    rw
      (
        lowest-nybble,
        ones-nybble 4 x,
        ones-nybble 8 x,
        ones-nybble 12 x,
        ones-nybble 16 x,
        ones-nybble 20 x,
        ones-nybble 24 x,
        ones-nybble 28 x,
      )
      (ap some (nybbles-ones x))

-- Both counters by bytes find all the ones of a word, whatever the order in which they add.
pub btbl_bitcount-ones :
    (x : ℕ) → (bw_btbl_bitcount x ≡ some (ones 32 x)) × (ar_btbl_bitcount x ≡ some (ones 32 x))
unfolding bw_btbl_bitcount ar_btbl_bitcount
btbl_bitcount-ones x = (
  rw (ones-byte 0 x, ones-byte 1 x, ones-byte 3 x, ones-byte 2 x)
      (ap some (omega (arith, bytes-ones x))),
  rw (ones-byte 0 x, ones-byte 1 x, ones-byte 2 x, ones-byte 3 x)
      (ap some (omega (arith, bytes-ones x))),
)
