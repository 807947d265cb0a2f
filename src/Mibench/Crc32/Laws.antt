-- ===== src/Mibench/Crc32/Laws.antt =====
-- The CRC by the table against the shift register.
use Prim.Native.Nat.{bit_and, bit_xor}
use riscv_sbt.Prelude.{
  ℕ, ◌*◌, ◌/◌, ◌%◌, ◌^◌, ◌<◌, ◌≡◌, refl, ap, sym, ◌∙◌, arith, true, List, [], ◌∷◌, some, get_elem?,
}
use riscv_sbt.Prelude.Bits.{bit_and_mask}
use riscv_sbt.Mibench.Bitcount.Table.{holds, entry-holds}
use riscv_sbt.Mibench.Crc32.{crc_32_tab, combine, update_crc32, crc32_loop, crc32buf}
use riscv_sbt.Mibench.Crc32.Shift.{
  shift, shifts, shifts-xor, shifts-high, xor_parts, xor-div, xor_zero,
}

-- The eight steps of the shift register for a byte, and the run over a buffer.
abbrev feed : ℕ → ℕ → ℕ
feed octet crc = shifts 8 (bit_xor crc octet)

pub register : List ℕ → ℕ → ℕ
register [] crc = crc
register (octet ∷ buf) crc = register buf (feed octet crc)

abbrev pub IsBytes : List ℕ → Type 0
IsBytes [] = Unit
IsBytes (octet ∷ buf) = (octet < 2 ^ 8) × IsBytes buf

-- The table holds what the register makes of each byte, by evaluation.
table_shifts : holds (shifts 8) 0 crc_32_tab ≡ true
unfolding holds shifts shift crc_32_tab
table_shifts = refl

pub entry : (j : ℕ) → j < 256 → get_elem? crc_32_tab j ≡ some (shifts 8 j)
entry j h =
    entry-holds (shifts 8) crc_32_tab 0 j table_shifts (unfold crc_32_tab in h)
    ∙ ap (λ (t : ℕ). some (shifts 8 t)) (omega arith)

parts : (x : ℕ) → shifts 8 x ≡ bit_xor (shifts 8 (x % 2 ^ 8)) (x / 2 ^ 8)
parts x =
    ap (shifts 8) (sym (xor_parts 8 x))
    ∙ (shifts-xor 8 (x % 2 ^ 8) (x / 2 ^ 8 * 2 ^ 8)
        ∙ ap (bit_xor (shifts 8 (x % 2 ^ 8))) (shifts-high 8 (x / 2 ^ 8)))

update_crc32-feed : (octet crc : ℕ) → octet < 2 ^ 8 → update_crc32 octet crc ≡ some (feed octet crc)
unfolding update_crc32
update_crc32-feed octet crc h =
    let x = bit_xor crc octet in
    let byte : octet % 2 ^ 8 ≡ octet = omega arith in
    let index = ap (λ (t : ℕ). bit_and (bit_xor crc t) 0xff) byte ∙ bit_and_mask 8 x in
    let found = ap (get_elem? crc_32_tab) index ∙ entry (x % 2 ^ 8) (omega arith) in
    let high =
      xor-div 8 crc octet
      ∙ (ap (bit_xor (crc / 2 ^ 8)) {x = octet / 2 ^ 8} {y = 0} (omega arith)
          ∙ xor_zero (crc / 2 ^ 8)) in
    ap (combine crc) found
    ∙ (ap (λ (t : ℕ). some (bit_xor (shifts 8 (x % 2 ^ 8)) t)) (sym high)
        ∙ ap (λ (t : ℕ). some t) (sym (parts x)))

loop-register :
    (buf : List ℕ) (crc : ℕ) → IsBytes buf → crc32_loop buf crc ≡ some (register buf crc)
unfolding crc32_loop register
loop-register [] crc h = refl
loop-register (octet ∷ buf) crc (h, hs) =
    ground (arith, update_crc32-feed octet crc h, loop-register buf (feed octet crc) hs)

-- The CRC of a buffer of bytes, by the table, is the complement of what a shift register holds that
-- starts with all ones and is fed the buffer's bits, lowest digit first; no read is outside the table.
pub crc32buf-register :
    (buf : List ℕ)
    → IsBytes buf
    → crc32buf buf ≡ some (bit_xor (register buf 0xFFFFFFFF) 0xFFFFFFFF)
unfolding crc32buf
crc32buf-register buf h = ground (arith, loop-register buf 0xFFFFFFFF h)
