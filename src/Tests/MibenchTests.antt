-- ===== src/Tests/MibenchTests.antt =====
-- The benchmark programs on small inputs.
use Prim.Native.Nat.{ℕ, bit_xor}
use riscv_sbt.Prelude.{◌+◌, ◌*◌, ◌^◌, ◌≤◌, ◌<◌, ◌≡◌, refl, arith, List, [], ◌∷◌, none, some, length}
use riscv_sbt.Prelude.Int.{ℤ, pos, negsuc}
use riscv_sbt.Mibench.Crc32.{crc32buf, crc_32_tab}
use riscv_sbt.Mibench.Crc32.Laws.{register, IsBytes, crc32buf-register}
use riscv_sbt.Mibench.Isqrt.{usqrt}
use riscv_sbt.Mibench.Isqrt.Laws.{usqrt-root}
use riscv_sbt.Mibench.Bitcount.{bit_count, bw_btbl_bitcount, ar_btbl_bitcount, ntbl_bitcnt}
use riscv_sbt.Mibench.Bitcount.Ones.{ones}
use riscv_sbt.Mibench.Bitcount.Table.{btbl_bitcount-ones}
use riscv_sbt.Mibench.Bitcount.Loops.{bit_count-ones}
use riscv_sbt.Mibench.Bitcount.Recursive.{ntbl_bitcnt-diverges}
use riscv_sbt.Mibench.Adpcm.{State, stepsize_table, adpcm_coder, adpcm_decoder, begin}
use riscv_sbt.Mibench.Adpcm.Laws.{predictions, adpcm_decoder-adpcm_coder}
use riscv_sbt.Mibench.Adpcm.Bounds.{IsState, adpcm_coder-IsState, length-adpcm_coder}

-- usqrt(32) = 370727 = 5.66 * 65536
usqrt-root_example :
    (usqrt 32 * usqrt 32 ≤ 32 * 2 ^ 32) × (32 * 2 ^ 32 < (usqrt 32 + 1) * (usqrt 32 + 1))
usqrt-root_example = usqrt-root 32 (omega arith)

documented_root : usqrt 32 ≡ 370727
unfolding usqrt
documented_root = refl

-- 1073741825 is the root of 0x10000001 * 2 ^ 32: the remainder wraps around in the last step.
wrapped_root : usqrt 0x10000001 ≡ 1073741824
unfolding usqrt
wrapped_root = refl

bit_count-ones_example : bit_count 0x80000101 ≡ some (ones 32 0x80000101)
bit_count-ones_example = bit_count-ones 0x80000101 (omega arith)

btbl_bitcount-ones_example :
    (bw_btbl_bitcount 0x80000101 ≡ some (ones 32 0x80000101))
    × (ar_btbl_bitcount 0x80000101 ≡ some (ones 32 0x80000101))
btbl_bitcount-ones_example = btbl_bitcount-ones 0x80000101

ntbl_bitcnt-diverges_example : ntbl_bitcnt 100 0xffffffff ≡ none
ntbl_bitcnt-diverges_example = ntbl_bitcnt-diverges 100 0xffffffff (omega arith) (omega arith)

abbrev samples : List ℤ
samples = pos 100 ∷ pos 300 ∷ negsuc 99 ∷ pos 32767 ∷ negsuc 32767 ∷ []

abbrev initial : State
initial = record { valprev = pos 0; index = 0 }

adpcm_decoder-adpcm_coder_example :
    adpcm_decoder (length samples) (adpcm_coder samples initial).0 initial
    ≡ some (predictions samples (begin initial), (adpcm_coder samples initial).1)
adpcm_decoder-adpcm_coder_example = adpcm_decoder-adpcm_coder samples initial

adpcm_coder-IsState_example : IsState (adpcm_coder samples initial).1
unfolding stepsize_table
adpcm_coder-IsState_example = adpcm_coder-IsState samples initial (omega arith, omega arith)

length-adpcm_coder_example :
    (length samples ≤ 2 * length (adpcm_coder samples initial).0)
    × (2 * length (adpcm_coder samples initial).0 ≤ length samples + 1)
length-adpcm_coder_example = length-adpcm_coder samples initial

-- The check value of the CRC: the digits from 1 to 9.
abbrev digits : List ℕ
digits = 0x31 ∷ 0x32 ∷ 0x33 ∷ 0x34 ∷ 0x35 ∷ 0x36 ∷ 0x37 ∷ 0x38 ∷ 0x39 ∷ []

check_value : crc32buf digits ≡ some 0xcbf43926
unfolding crc32buf crc_32_tab
check_value = refl

crc32buf-register_example : crc32buf digits ≡ some (bit_xor (register digits 0xffffffff) 0xffffffff)
crc32buf-register_example = crc32buf-register digits digits-IsBytes
  where
    digits-IsBytes : IsBytes digits
    digits-IsBytes = (
      omega arith,
      (
        omega arith,
        (
          omega arith,
          (
            omega arith,
            (omega arith, (omega arith, (omega arith, (omega arith, (omega arith, tt))))),
          ),
        ),
      ),
    )
