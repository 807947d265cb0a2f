-- ===== src/Mibench/Bitcount/Loops.antt =====
-- The counters with a loop: one iteration for each one, or for each digit.
use Prim.Native.Nat.{bit_and}
use riscv_sbt.Prelude.{
  ℕ, zero, suc, ◌+◌, ◌-◌, ◌/◌, ◌%◌, ◌^◌, ◌≤◌, ◌<◌, ◌≡◌, sym, ap, ◌∙◌, arith, false, some, ◌==◌,
  if◌then◌else◌, ltb,
}
use riscv_sbt.Prelude.Word.{sar}
use riscv_sbt.Prelude.Bits.{bit_and_mask}
use riscv_sbt.Prelude.BitBounds.{bit_and-lt}
use riscv_sbt.Mibench.Bitcount.{drop_ones, bit_count, shift_bits, bit_shifter}
use riscv_sbt.Mibench.Bitcount.Ones.{ones, ones-drop, ones-zero, ones-le, ones-positive, ones-high}

less_one :
    (x : ℕ) → 0 < x → x < 2 ^ 32 → bit_and x ((x + (2 ^ 32 - 1)) % 2 ^ 32) ≡ bit_and x (x - 1)
less_one x g h = ap (bit_and x) (omega arith)

-- Fuel for each of the ones is enough.
drop_ones-ones :
    (k n x : ℕ) → 0 < x → x < 2 ^ 32 → ones 32 x ≤ k → drop_ones k n x ≡ some (n + ones 32 x)
unfolding drop_ones
drop_ones-ones zero n x g h le = absurd (omega (arith, ones-positive 32 x h g))
drop_ones-ones (suc k) n x g h le =
    let x' = bit_and x (x - 1) in
    ground (
      arith,
      less_one x g h,
      ones-drop 32 x h g,
      ones-zero 32,
      drop_ones-ones k (n + 1) x',
      bit_and-lt 32 x (x - 1) h (omega arith),
    )

nonzero : (x : ℕ) → (suc x == 0) ≡ false
nonzero x = ground arith

-- For a 32-bit word `bit_count` ends, and gives the number of its ones.
pub bit_count-ones : (x : ℕ) → x < 2 ^ 32 → bit_count x ≡ some (ones 32 x)
unfolding bit_count
bit_count-ones zero h = ap some (sym (ones-zero 32))
bit_count-ones (suc x) h =
    rw (nonzero x)
      (drop_ones-ones 32 0 (suc x) (omega arith) h (ones-le 32 (suc x)) ∙ ap some (omega arith))

sar-lt : (x : ℕ) → x < 2 ^ 32 → sar 32 x 1 < 2 ^ 32
sar-lt x h = ground arith

upto : (k : ℕ) → k ≤ 31 → k + (31 - k) ≡ 31
upto k h = omega arith

filled : (x : ℕ) → x < 2 ^ 32 → sar 32 x 1 ≡ (if ltb x (2 ^ 31) then x / 2 else x / 2 + 2 ^ 31)
filled x h = ground arith

-- The sign that the shift brings in stands above the digits that are still to count.
ones-sar : (k x : ℕ) → k ≤ 31 → x < 2 ^ 32 → ones k (sar 32 x 1) ≡ ones k (x / 2)
ones-sar k x le h = ground (
  arith,
  ap (λ (t : ℕ). ones k (x / 2 + 2 ^ t)) (upto k le),
  ones-high k (31 - k) (x / 2),
  ap (ones k) (filled x h),
)

shift_bits-ones : (k n x : ℕ) → k ≤ 32 → x < 2 ^ 32 → shift_bits k n x ≡ n + ones k x
unfolding shift_bits ones
shift_bits-ones zero n x le h = omega arith
shift_bits-ones (suc k) n x le h = ground (
  arith,
  bit_and_mask 1 x,
  ones-zero k,
  ones-sar k x (omega arith) h,
  shift_bits-ones k (n + bit_and x 1) (sar 32 x 1) (omega arith) (sar-lt x h),
)

-- `bit_shifter` gives the number of ones of a 32-bit word.
pub bit_shifter-ones : (x : ℕ) → x < 2 ^ 32 → bit_shifter x ≡ ones 32 x
unfolding bit_shifter
bit_shifter-ones x h = shift_bits-ones 32 0 x (omega arith) h ∙ omega arith
