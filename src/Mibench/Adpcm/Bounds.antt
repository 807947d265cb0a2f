-- ===== src/Mibench/Adpcm/Bounds.antt =====
-- The ranges of the predicted value and of the index in adpcm.c, and the size of the output.
use Prim.Native.Nat.{bit_and, ◌^◌}
use riscv_sbt.Prelude.{
  ℕ, ◌+◌, ◌*◌, ◌≤◌, ◌<◌, arith, Bool, true, false, List, [], ◌∷◌, Option, none, some, length,
}
use riscv_sbt.Prelude.Int.{ℤ, pos, negsuc, ltb_ℤ, ◌+ℤ◌, ◌-ℤ◌}
use riscv_sbt.Mibench.Adpcm.{
  State, Loop, next_index, quantize, magnitude, clamp_value, move_value, encode, encode_all, begin,
  adpcm_coder, code, stepsize_table,
}

-- A value of a `short`.
abbrev pub IsShort : ℤ → Type 0
IsShort (pos n) = n ≤ 32767
IsShort (negsuc n) = n ≤ 32767

clamp_value-IsShort : (v : ℤ) → IsShort (clamp_value v)
unfolding clamp_value
clamp_value-IsShort (pos n) = ground arith
clamp_value-IsShort (negsuc n) = ground arith

-- A state that the tables can be read at.
abbrev pub IsState : State → Type 0
IsState st = IsShort st.valprev × (st.index < length stepsize_table)

next_index-lt : (index delta : ℕ) → next_index index delta < length stepsize_table
unfolding next_index stepsize_table
next_index-lt index delta = ground arith

abbrev IsLoop : Loop → Type 0
IsLoop s = IsShort s.valpred × (s.index < length stepsize_table)

move_value-IsShort : (b : Bool) (v : ℤ) (n : ℕ) → IsShort (move_value b v n)
unfolding move_value
move_value-IsShort true v n = clamp_value-IsShort (v -ℤ pos n)
move_value-IsShort false v n = clamp_value-IsShort (v +ℤ pos n)

encode-IsLoop : (val : ℤ) (s : Loop) → IsLoop (encode val s)
unfolding encode
encode-IsLoop val s =
    let diff = val -ℤ s.valpred in
    (
      move_value-IsShort (ltb_ℤ diff (pos 0)) s.valpred (quantize (magnitude diff) s.step).1,
      next_index-lt s.index (code val s),
    )

encode_all-IsState :
    (buffer : Option ℕ) (vals : List ℤ) (s : Loop) → IsLoop s → IsState (encode_all buffer vals s).1
unfolding encode_all
encode_all-IsState none [] s h = h
encode_all-IsState (some b) [] s h = h
encode_all-IsState none (v ∷ vals) s h =
    encode_all-IsState (some (bit_and (code v s * 2 ^ 4) 0xf0)) vals (encode v s)
      (encode-IsLoop v s)
encode_all-IsState (some b) (v ∷ vals) s h =
    encode_all-IsState none vals (encode v s) (encode-IsLoop v s)

-- From a state with a 16-bit value and an index of the table, the coder ends in such a state,
-- whatever the samples.
pub adpcm_coder-IsState :
    (vals : List ℤ) (st : State) → IsState st → IsState (adpcm_coder vals st).1
unfolding adpcm_coder
adpcm_coder-IsState vals st h = encode_all-IsState none vals (begin st) h

-- The coder writes one byte for two samples, and one more for the last of an odd number.
pub length-adpcm_coder :
    (vals : List ℤ) (st : State)
    → (length vals ≤ 2 * length (adpcm_coder vals st).0)
      × (2 * length (adpcm_coder vals st).0 ≤ length vals + 1)
unfolding adpcm_coder
length-adpcm_coder vals st = bytes vals (begin st)
  where
    bytes :
        (vals : List ℤ) (s : Loop)
        → (length vals ≤ 2 * length (encode_all none vals s).0)
          × (2 * length (encode_all none vals s).0 ≤ length vals + 1)
    bytes [] s = (omega arith, omega arith)
    bytes (v ∷ []) s = (omega arith, omega arith)
    bytes (v ∷ w ∷ vals) s =
        let r = bytes vals (encode w (encode v s)) in (omega (arith, r.0), omega (arith, r.1))
