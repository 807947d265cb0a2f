-- ===== src/Sbt/Function/Jump/Image.antt =====
-- What the map of blocks of sbt/Function.h holds during the translation, as a function of where the
-- blocks start, of where the translation stands, and of the guest code.
use riscv_sbt.Prelude.{
  ℕ, zero, suc, ◌-◌, ◌*◌, ◌<◌, ◌≤◌, ◌≡◌, ◌≢◌, refl, ap, ◌∙◌, Bool, true, false, ◌&&◌, ◌||◌, ltb,
  ◌==◌, if◌then◌else◌, arith, List, [], ◌∷◌, Option, none, some, Bool-cases, inl, inr,
}
use riscv_sbt.Sbt.Map.{Item, lookup, upsert}
use riscv_sbt.Sbt.Map.Laws.{IsSorted, upsert-IsSorted, lookup-upsert}
use riscv_sbt.Sbt.Function.Blocks.{Terminator, unfinished, ret, br, cond_br, Block, Blocks, new_bb}
use riscv_sbt.Sbt.Function.Jump.{Guest, straight, returning, jump, branch}
use riscv_sbt.Sbt.Function.Jump.Scan.{stop, ins, stop-le, stop-free, stop-ins, stop-skip}

-- The LLVM instructions besides the terminator.
abbrev pub emitted : Guest → ℕ
emitted (straight n) = if n == 0 then 1 else n
emitted (returning n) = n
emitted (jump t) = 0
emitted (branch n t) = n

abbrev pub is_straight : Guest → Bool
is_straight (straight n) = true
is_straight (returning n) = false
is_straight (jump t) = false
is_straight (branch n t) = false

-- How a block ends that `next` follows, where `closed` tells whether that is a block already.
abbrev pub ending : Guest → ℕ → Bool → Terminator
ending (straight n) next closed = if closed then br next else unfinished
ending (returning n) next closed = ret
ending (jump t) next closed = br t
ending (branch n t) next closed = cond_br t next

-- The instructions from `i` on, `n` of them.
unfoldable pub run : (ℕ → Guest) → ℕ → ℕ → List (Item ℕ)
run decode i zero = []
run decode i (suc n) = record { key = 4 * i; val = emitted (decode (4 * i)) } ∷ run decode (suc i) n

-- The block from `i` to `e` of a translation up to `a`; `entered` if a block at `a` has been entered.
unfoldable pub block_to : (ℕ → Guest) → ℕ → Bool → ℕ → ℕ → Block
block_to decode a entered i e =
    if ltb i a
    then record {
      instrs = run decode i (e - i);
      term = ending (decode (4 * (e - 1))) (4 * e) (ltb e a || entered);
    }
    else record { instrs = []; term = unfinished }

abbrev pub block : (ℕ → Guest) → (ℕ → Bool) → ℕ → Bool → ℕ → Block
block decode S a entered i = block_to decode a entered i (stop S i a)

-- The map `m` holds `f i` for the address of the instruction `i`, and nothing besides.
abbrev pub Holds : Blocks → (ℕ → Option Block) → Type 0
Holds m f =
    IsSorted m
    × ((i : ℕ) → lookup m (4 * i) ≡ f i)
    × ((x : ℕ) (v : Block) → lookup m x ≡ some v → (i : ℕ) × (x ≡ 4 * i))

pub Holds-ext :
    (m : Blocks) (f g : ℕ → Option Block) → ((i : ℕ) → f i ≡ g i) → Holds m f → Holds m g
Holds-ext m f g h (s, at, al) = (s, (λ i. at i ∙ h i), al)

pub upsert-Holds :
    (m : Blocks) (f : ℕ → Option Block) (t : ℕ) (b : Block)
    → Holds m f
    → Holds (upsert m (4 * t) b) (λ i. if i == t then some b else f i)
upsert-Holds m f t b (s, at, al) = (
  upsert-IsSorted m (4 * t) b s,
  (λ i. ground (arith, at i, lookup-upsert m (4 * t) (4 * i) b s)),
  (λ x v h. elim (Bool-cases (4 * t == x)) [
    | inl e ↦ (t, ground (arith, e))
    | inr e ↦ al x v (ground (arith, e, h, lookup-upsert m (4 * t) x b s))
  ]),
)

module _ (decode : ℕ → Guest) where
  -- What the map of blocks holds where the blocks start at `S`.
  abbrev pub image : (ℕ → Bool) → ℕ → Bool → ℕ → Option Block
  image S a entered i = if S i then some (block decode S a entered i) else none

  abbrev pub IsImage : (ℕ → Bool) → ℕ → Bool → Blocks → Type 0
  IsImage S a entered m = Holds m (image S a entered)

  pub block-ins :
      (S : ℕ → Bool) (a : ℕ) (o : Bool) (t i : ℕ)
      → (ltb i t && ltb t (stop S i a)) ≡ false
      → block decode (ins t S) a o i ≡ block decode S a o i
  block-ins S a o t i h = ap (block_to decode a o i) (ground (arith, stop-ins S t i a, h))

  fresh-block :
      (S : ℕ → Bool) (a : ℕ) (o : Bool) (i : ℕ)
      → a ≤ i
      → block decode S a o i ≡ record { instrs = []; term = unfinished }
  unfolding block_to
  fresh-block S a o i h = ground arith

  -- A new block ahead of the translation.
  pub new_bb-IsImage :
      (S : ℕ → Bool) (a : ℕ) (o : Bool) (m : Blocks) (t : ℕ)
      → IsImage S a o m
      → a ≤ t
      → IsImage (ins t S) a o (new_bb m (4 * t))
  unfolding new_bb
  new_bb-IsImage S a o m t h le =
      Holds-ext _ _ _
        (λ i. ground (
          arith,
          fresh-block (ins t S) a o i,
          fresh-block S a o i,
          block-ins S a o t i,
          stop-le S i a,
        ))
        (upsert-Holds m (image S a o) t (record { instrs = []; term = unfinished }) h)

  ending-br :
      (g : Guest) (next : ℕ) (o : Bool) → is_straight g ≡ true → ending g next (true || o) ≡ br next
  ending-br (straight n) next o h = refl
  ending-br (returning n) next o h = cc h
  ending-br (jump t) next o h = cc h
  ending-br (branch n t) next o h = cc h

  upper_part :
      (S : ℕ → Bool) (a : ℕ) (o : Bool) (t k : ℕ)
      → k < t
      → t < stop S k a
      → t < a
      → is_straight (decode (4 * (t - 1))) ≡ true
      → block decode (ins t S) a o k ≡ record { instrs = run decode k (t - k); term = br (4 * t) }
  unfolding block_to
  upper_part S a o t k kt te ta str =
      ap (block_to decode a o k) {y = t} (ground (arith, stop-ins S t k a))
      ∙ ground (arith, ending-br (decode (4 * (t - 1))) (4 * t) o str)

  lower_part :
      (S : ℕ → Bool) (a : ℕ) (o : Bool) (t k : ℕ)
      → k < t
      → t < stop S k a
      → t < a
      → k < a
      → block decode (ins t S) a o t
        ≡ record { instrs = run decode t (stop S k a - t); term = (block decode S a o k).term }
  unfolding block_to
  lower_part S a o t k kt te ta ka =
      ap (block_to decode a o t) {y = stop S k a}
        (ground (arith, stop-ins S t t a, stop-skip S t k a ka kt te))
      ∙ ground arith

  other_block :
      (S : ℕ → Bool) (a : ℕ) (o : Bool) (t k i : ℕ)
      → S k ≡ true
      → k < t
      → t < stop S k a
      → i ≢ k
      → S i ≡ true
      → (ltb i t && ltb t (stop S i a)) ≡ false
  other_block S a o t k i start kt te ne at = elim (Bool-cases (ltb i k)) [
    | inl e ↦ ground (arith, e, start, stop-free S i a k)
    | inr e ↦ ground (arith, e, at, stop-free S k a i)
  ]

  -- The block at `k` is cut at `t`.
  pub split-IsImage :
      (S : ℕ → Bool) (a : ℕ) (o : Bool) (m : Blocks) (t k : ℕ)
      → IsImage S a o m
      → S k ≡ true
      → k < a
      → k < t
      → t < stop S k a
      → S t ≡ false
      → is_straight (decode (4 * (t - 1))) ≡ true
      → IsImage (ins t S) a o (
          upsert
            (upsert m (4 * k) (record { instrs = run decode k (t - k); term = br (4 * t) }))
            (4 * t)
            (record { instrs = run decode t (stop S k a - t); term = (block decode S a o k).term }))
  split-IsImage S a o m t k h start lt kt te fresh str =
      let ta : t < a = ground (arith, stop-le S k a lt) in
      Holds-ext _ _ _
        (λ i. elim (Bool-cases (i == t)) [
          | inl e ↦ ground (arith, e, lower_part S a o t k kt te ta lt)
          | inr e ↦ elim (Bool-cases (i == k)) [
            | inl e' ↦ ground (arith, e, e', start, upper_part S a o t k kt te ta str)
            | inr e' ↦ elim (Bool-cases (S i)) [
              | inl at ↦ ground (
                arith,
                e,
                e',
                at,
                block-ins S a o t i (other_block S a o t k i start kt te (ground (arith, e')) at),
              )
              | inr at ↦ ground (arith, e, e', at)
            ]
          ]
        ])
        (upsert-Holds _ _ t _ (
          upsert-Holds m (image S a o) k
            (record { instrs = run decode k (t - k); term = br (4 * t) }) h))
