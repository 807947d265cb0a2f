-- ===== src/Mibench/Bitcount/Recursive.antt =====
-- The recursive counters of bitcnt_4.c, for nonnegative and for negative words.
use Prim.Native.Nat.{bit_and}
use native.Mathlib.Nat.{pow-suc}
use riscv_sbt.Prelude.{
  ℕ, zero, suc, ◌+◌, ◌*◌, ◌/◌, ◌%◌, ◌^◌, ◌≤◌, ◌<◌, ◌≡◌, refl, ap, ◌∙◌, arith, Option, none, some,
  get_elem?,
}
use riscv_sbt.Prelude.Word.{sar}
use riscv_sbt.Prelude.Bits.{bit_and_mask}
use riscv_sbt.Mibench.Bitcount.{◌+?◌, bits, ntbl_bitcnt, btbl_bitcnt}
use riscv_sbt.Mibench.Bitcount.Ones.{ones, ones-split, ones-zero, ones-mod}
use riscv_sbt.Mibench.Bitcount.Table.{bits-ones, lowest-nybble}

add-none : (m : Option ℕ) → (m +? none) ≡ none
add-none none = refl
add-none (some m) = refl

lowest-byte : (x : ℕ) → get_elem? bits (bit_and (x / 256 ^ 0 % 256) 0xff) ≡ some (ones 8 x)
lowest-byte x =
    ap (get_elem? bits) (bit_and_mask 8 (x / 256 ^ 0 % 256) ∙ omega arith)
    ∙ bits-ones (x % 256) (omega arith)
    ∙ ap some (ones-mod 8 x)

ones-nybbles : (k x : ℕ) → ones (4 * suc k) x ≡ ones 4 x + ones (4 * k) (x / 2 ^ 4)
ones-nybbles k x = ap (λ (t : ℕ). ones t x) (omega arith) ∙ ones-split 4 (4 * k) x

ntbl_bitcnt-from :
    (k x : ℕ) → x < 2 ^ 31 → x < 16 ^ suc k → ntbl_bitcnt (suc k) x ≡ some (ones (4 * suc k) x)
unfolding ntbl_bitcnt
ntbl_bitcnt-from zero x h g = ground (arith, lowest-nybble x)
ntbl_bitcnt-from (suc k) x h g = ground (
  arith,
  ones-nybbles (suc k) x,
  lowest-nybble x,
  ones-zero (4 * suc k),
  pow-suc 16 (suc k),
  ntbl_bitcnt-from k (x / 16),
)

-- For a nonnegative `long` eight levels of recursion count all the ones.
pub ntbl_bitcnt-ones : (x : ℕ) → x < 2 ^ 31 → ntbl_bitcnt 8 x ≡ some (ones 32 x)
ntbl_bitcnt-ones x h = ntbl_bitcnt-from 7 x h (omega arith)

-- For a negative `long` no depth of recursion is enough.
pub ntbl_bitcnt-diverges : (k x : ℕ) → 2 ^ 31 ≤ x → x < 2 ^ 32 → ntbl_bitcnt k x ≡ none
unfolding ntbl_bitcnt
ntbl_bitcnt-diverges zero x h g = refl
ntbl_bitcnt-diverges (suc k) x h g =
    ground (arith, ntbl_bitcnt-diverges k (sar 32 x 4), add-none (get_elem? bits (bit_and x 15)))

ones-bytes : (k x : ℕ) → ones (8 * suc k) x ≡ ones 8 x + ones (8 * k) (x / 2 ^ 8)
ones-bytes k x = ap (λ (t : ℕ). ones t x) (omega arith) ∙ ones-split 8 (8 * k) x

btbl_bitcnt-from :
    (k x : ℕ) → x < 2 ^ 31 → x < 256 ^ suc k → btbl_bitcnt (suc k) x ≡ some (ones (8 * suc k) x)
unfolding btbl_bitcnt
btbl_bitcnt-from zero x h g = ground (arith, lowest-byte x)
btbl_bitcnt-from (suc k) x h g = ground (
  arith,
  ones-bytes (suc k) x,
  lowest-byte x,
  ones-zero (8 * suc k),
  pow-suc 256 (suc k),
  btbl_bitcnt-from k (x / 256),
)

-- For a nonnegative `long` four levels of recursion count all the ones.
pub btbl_bitcnt-ones : (x : ℕ) → x < 2 ^ 31 → btbl_bitcnt 4 x ≡ some (ones 32 x)
btbl_bitcnt-ones x h = btbl_bitcnt-from 3 x h (omega arith)
