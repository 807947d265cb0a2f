-- ===== src/Mibench/Isqrt.antt =====
-- `usqrt` of mibench/automotive/basicmath/isqrt.c, with an `unsigned long` of 32 bits: the square
-- root of a number, two of its bits at a time.
pub mod Laws
use Prim.Native.Nat.{bit_and}
use riscv_sbt.Prelude.{ℕ, zero, suc, ◌+◌, ◌-◌, ◌*◌, ◌/◌, ◌%◌, ◌^◌, leb, if◌then◌else◌}

-- `TOP2BITS`
unfoldable pub top_2_bits : ℕ → ℕ
top_2_bits x = bit_and x (3 * 2 ^ 30) / 2 ^ 30

-- The variables of the loop.
pub record Root : Type 0 where
  pub x : ℕ
  pub a : ℕ
  pub r : ℕ

-- The test of a trial product `e`, with `a` and `r` shifted for this iteration.
abbrev try_product : ℕ → ℕ → ℕ → ℕ → Root
try_product x a r e =
    if leb e r
    then record { x = x; a = (a + 1) % 2 ^ 32; r = r - e }
    else record { x = x; a = a; r = r }

-- One iteration.
unfoldable pub iterate : Root → Root
unfolding top_2_bits
iterate s =
    let r = (s.r * 4 % 2 ^ 32 + top_2_bits s.x) % 2 ^ 32 in
    let a = s.a * 2 % 2 ^ 32 in try_product (s.x * 4 % 2 ^ 32) a r ((a * 2 % 2 ^ 32 + 1) % 2 ^ 32)

unfoldable pub iterations : ℕ → Root → Root
iterations zero s = s
iterations (suc k) s = iterations k (iterate s)

-- The word that is copied to the result.
unfoldable pub usqrt : ℕ → ℕ
unfolding iterations iterate
usqrt x = (iterations 32 (record { x = x; a = 0; r = 0 })).a
