-- ===== src/Mibench/Bitcount.antt =====
-- The bit counters of mibench/automotive/bitcount: bitcnt_1.c to bitcnt_4.c and `bit_shifter` of
-- bitcnts.c. A `long` has 32 bits and is kept as its pattern; `>>` on it is arithmetic, and on the
-- masked words, which are unsigned, logical. `none` is an index out of range or fuel that ran out.
pub mod Ones
pub mod Table
pub mod Loops
pub mod Recursive
use Prim.Native.Nat.{bit_and}
use riscv_sbt.Prelude.{
  ℕ, zero, suc, ◌+◌, ◌-◌, ◌*◌, ◌/◌, ◌%◌, ◌^◌, List, [], ◌∷◌, Option, none, some, ◌==◌,
  if◌then◌else◌, get_elem?,
}
use riscv_sbt.Prelude.Word.{sar}

infixl 65 ◌+?◌
abbrev pub ◌+?◌ : Option ℕ → Option ℕ → Option ℕ
none +? n = none
some m +? none = none
some m +? some n = some (m + n)

-- bitcnt_1.c: the loop drops the lowest one of `x` until none is left.
unfoldable pub drop_ones : ℕ → ℕ → ℕ → Option ℕ
drop_ones zero n x = none
drop_ones (suc k) n x =
    let x' = bit_and x ((x + (2 ^ 32 - 1)) % 2 ^ 32) in
    let again = drop_ones k (n + 1) x' in if x' == 0 then some (n + 1) else again

unfoldable pub bit_count : ℕ → Option ℕ
unfolding drop_ones
bit_count x = if x == 0 then some 0 else drop_ones 32 0 x

-- The table of bitcnt_3.c and bitcnt_4.c.
unfoldable pub bits : List ℕ
bits =
    0 ∷ 1 ∷ 1 ∷ 2 ∷ 1 ∷ 2 ∷ 2 ∷ 3 ∷ 1 ∷ 2 ∷ 2 ∷ 3 ∷ 2 ∷ 3 ∷ 3 ∷ 4 ∷ 1 ∷ 2 ∷ 2 ∷ 3 ∷ 2 ∷ 3 ∷ 3 ∷ 4
    ∷ 2 ∷ 3 ∷ 3 ∷ 4 ∷ 3 ∷ 4 ∷ 4 ∷ 5 ∷ 1 ∷ 2 ∷ 2 ∷ 3 ∷ 2 ∷ 3 ∷ 3 ∷ 4 ∷ 2 ∷ 3 ∷ 3 ∷ 4 ∷ 3 ∷ 4 ∷ 4 ∷ 5
    ∷ 2 ∷ 3 ∷ 3 ∷ 4 ∷ 3 ∷ 4 ∷ 4 ∷ 5 ∷ 3 ∷ 4 ∷ 4 ∷ 5 ∷ 4 ∷ 5 ∷ 5 ∷ 6 ∷ 1 ∷ 2 ∷ 2 ∷ 3 ∷ 2 ∷ 3 ∷ 3 ∷ 4
    ∷ 2 ∷ 3 ∷ 3 ∷ 4 ∷ 3 ∷ 4 ∷ 4 ∷ 5 ∷ 2 ∷ 3 ∷ 3 ∷ 4 ∷ 3 ∷ 4 ∷ 4 ∷ 5 ∷ 3 ∷ 4 ∷ 4 ∷ 5 ∷ 4 ∷ 5 ∷ 5 ∷ 6
    ∷ 2 ∷ 3 ∷ 3 ∷ 4 ∷ 3 ∷ 4 ∷ 4 ∷ 5 ∷ 3 ∷ 4 ∷ 4 ∷ 5 ∷ 4 ∷ 5 ∷ 5 ∷ 6 ∷ 3 ∷ 4 ∷ 4 ∷ 5 ∷ 4 ∷ 5 ∷ 5 ∷ 6
    ∷ 4 ∷ 5 ∷ 5 ∷ 6 ∷ 5 ∷ 6 ∷ 6 ∷ 7 ∷ 1 ∷ 2 ∷ 2 ∷ 3 ∷ 2 ∷ 3 ∷ 3 ∷ 4 ∷ 2 ∷ 3 ∷ 3 ∷ 4 ∷ 3 ∷ 4 ∷ 4 ∷ 5
    ∷ 2 ∷ 3 ∷ 3 ∷ 4 ∷ 3 ∷ 4 ∷ 4 ∷ 5 ∷ 3 ∷ 4 ∷ 4 ∷ 5 ∷ 4 ∷ 5 ∷ 5 ∷ 6 ∷ 2 ∷ 3 ∷ 3 ∷ 4 ∷ 3 ∷ 4 ∷ 4 ∷ 5
    ∷ 3 ∷ 4 ∷ 4 ∷ 5 ∷ 4 ∷ 5 ∷ 5 ∷ 6 ∷ 3 ∷ 4 ∷ 4 ∷ 5 ∷ 4 ∷ 5 ∷ 5 ∷ 6 ∷ 4 ∷ 5 ∷ 5 ∷ 6 ∷ 5 ∷ 6 ∷ 6 ∷ 7
    ∷ 2 ∷ 3 ∷ 3 ∷ 4 ∷ 3 ∷ 4 ∷ 4 ∷ 5 ∷ 3 ∷ 4 ∷ 4 ∷ 5 ∷ 4 ∷ 5 ∷ 5 ∷ 6 ∷ 3 ∷ 4 ∷ 4 ∷ 5 ∷ 4 ∷ 5 ∷ 5 ∷ 6
    ∷ 4 ∷ 5 ∷ 5 ∷ 6 ∷ 5 ∷ 6 ∷ 6 ∷ 7 ∷ 3 ∷ 4 ∷ 4 ∷ 5 ∷ 4 ∷ 5 ∷ 5 ∷ 6 ∷ 4 ∷ 5 ∷ 5 ∷ 6 ∷ 5 ∷ 6 ∷ 6 ∷ 7
    ∷ 4 ∷ 5 ∷ 5 ∷ 6 ∷ 5 ∷ 6 ∷ 6 ∷ 7 ∷ 5 ∷ 6 ∷ 6 ∷ 7 ∷ 6 ∷ 7 ∷ 7 ∷ 8 ∷ []

-- bitcnt_3.c
unfoldable pub ntbl_bitcount : ℕ → Option ℕ
ntbl_bitcount x =
    get_elem? bits (bit_and x 0x0000000f)
    +? get_elem? bits (bit_and x 0x000000f0 / 2 ^ 4)
    +? get_elem? bits (bit_and x 0x00000f00 / 2 ^ 8)
    +? get_elem? bits (bit_and x 0x0000f000 / 2 ^ 12)
    +? get_elem? bits (bit_and x 0x000f0000 / 2 ^ 16)
    +? get_elem? bits (bit_and x 0x00f00000 / 2 ^ 20)
    +? get_elem? bits (bit_and x 0x0f000000 / 2 ^ 24)
    +? get_elem? bits (bit_and x 0xf0000000 / 2 ^ 28)

-- The byte at an address of a `long`, the lowest first.
abbrev byte : ℕ → ℕ → ℕ
byte x i = x / 256 ^ i % 256

unfoldable pub bw_btbl_bitcount : ℕ → Option ℕ
bw_btbl_bitcount x =
    get_elem? bits (byte x 0)
    +? get_elem? bits (byte x 1)
    +? get_elem? bits (byte x 3)
    +? get_elem? bits (byte x 2)

unfoldable pub ar_btbl_bitcount : ℕ → Option ℕ
ar_btbl_bitcount x =
    get_elem? bits (byte x 0)
    +? get_elem? bits (byte x 1)
    +? get_elem? bits (byte x 2)
    +? get_elem? bits (byte x 3)

-- bitcnt_4.c: the recursion, on fuel.
unfoldable pub ntbl_bitcnt : ℕ → ℕ → Option ℕ
ntbl_bitcnt zero x = none
ntbl_bitcnt (suc k) x =
    let cnt = get_elem? bits (bit_and x 0x0000000f) in
    let x' = sar 32 x 4 in let rest = ntbl_bitcnt k x' in if x' == 0 then cnt else cnt +? rest

unfoldable pub btbl_bitcnt : ℕ → ℕ → Option ℕ
btbl_bitcnt zero x = none
btbl_bitcnt (suc k) x =
    let cnt = get_elem? bits (bit_and (byte x 0) 0xff) in
    let x' = sar 32 x 8 in let rest = btbl_bitcnt k x' in if x' == 0 then cnt else cnt +? rest

-- bitcnts.c: `k` is `sizeof(long) * CHAR_BIT - i`.
unfoldable pub shift_bits : ℕ → ℕ → ℕ → ℕ
shift_bits zero n x = n
shift_bits (suc k) n x =
    let rest = shift_bits k (n + bit_and x 1) (sar 32 x 1) in if x == 0 then n else rest

unfoldable pub bit_shifter : ℕ → ℕ
unfolding shift_bits
bit_shifter x = shift_bits 32 0 x
