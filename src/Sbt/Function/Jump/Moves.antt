-- ===== src/Sbt/Function/Jump/Moves.antt =====
-- The map of blocks of sbt/Function.h when the translation moves on: an instruction more in the
-- current block, and the entry into the next block.
use riscv_sbt.Prelude.{
  ℕ, suc, ◌-◌, ◌*◌, ◌<◌, ◌≤◌, ◌≡◌, ◌≢◌, refl, sym, ap, ◌∙◌, Bool, true, false, ◌||◌, ltb, ◌==◌,
  arith, Option, Bool-cases, inl, inr,
}
use riscv_sbt.Sbt.Map.{upsert}
use riscv_sbt.Sbt.Function.Blocks.{Block, Blocks}
use riscv_sbt.Sbt.Function.Jump.{Guest, straight, returning, jump, branch}
use riscv_sbt.Sbt.Function.Jump.Scan.{stop, stop-le, stop-free, stop-suc}
use riscv_sbt.Sbt.Function.Jump.Image.{
  ending, is_straight, block_to, block, image, IsImage, Holds, Holds-ext, upsert-Holds,
}

-- The block in translation: the one that starts at `a`, once it is entered, or else the last one before.
abbrev pub IsCurrent : (ℕ → Bool) → ℕ → Bool → ℕ → Type 0
IsCurrent S a true c = (c ≡ a) × (S a ≡ true)
IsCurrent S a false c = (c < a) × (S c ≡ true) × (stop S c a ≡ a)

pub current-start :
    (S : ℕ → Bool) (a : ℕ) (o : Bool) (c : ℕ) → IsCurrent S a o c → (S c ≡ true) × (c ≤ a)
current-start S a true c (e, at) = (ap S e ∙ at, ground (arith, e))
current-start S a false c (lt, at, e) = (at, omega arith)

-- A block that is not the last ends below `a`.
closed_before :
    (S : ℕ → Bool) (a c i : ℕ)
    → c < a
    → S c ≡ true
    → stop S c a ≡ a
    → i ≢ c
    → i < a
    → S i ≡ true
    → stop S i a < a
closed_before S a c i ca start e ne lt at = elim (Bool-cases (ltb i c)) [
  | inl h ↦ elim (Bool-cases (ltb (stop S i a) a)) [
    | inl h' ↦ ground (arith, h')
    | inr h' ↦
        absurd
          (cc (start, stop-free S i a c (ground (arith, h)) (ground (arith, h', stop-le S i a lt))))
  ]
  | inr h ↦ absurd (cc (at, stop-free S c a i (ground (arith, h)) (ground (arith, e))))
]

module _ (decode : ℕ → Guest) where
  -- The other blocks stay as they are when the current one takes the instruction at `a`.
  moved_block :
      (S : ℕ → Bool) (a : ℕ) (o : Bool) (c i : ℕ)
      → IsCurrent S a o c
      → (o ≡ false → S a ≡ false)
      → i ≢ c
      → S i ≡ true
      → block decode S (suc a) false i ≡ block decode S a o i
  unfolding block_to
  moved_block S a true c i (e, sa) new ne at = elim (Bool-cases (ltb i a)) [
    | inl h ↦
        ap (block_to decode (suc a) false i) {y = stop S i a}
          (ground (arith, h, sa, stop-suc S i a (ground (arith, h))))
        ∙ ground (arith, h, stop-le S i a)
    | inr h ↦ ground (arith, h, e, ne)
  ]
  moved_block S a false c i (lt, start, e) new ne at = elim (Bool-cases (ltb i a)) [
    | inl h ↦
        let ca = closed_before S a c i lt start e ne (ground (arith, h)) at in
        ap (block_to decode (suc a) false i) {y = stop S i a}
          (ground (arith, h, ca, stop-suc S i a (ground (arith, h))))
        ∙ ground (arith, h, ca)
    | inr h ↦ let far : i ≢ a = λ ia. absurd (cc (new refl, at, ap S ia)) in ground (arith, h, far)
  ]

  pub work-IsImage :
      (S : ℕ → Bool) (a : ℕ) (o : Bool) (c : ℕ) (m : Blocks) (f : ℕ → Option Block)
      → Holds m f
      → ((i : ℕ) → i ≢ c → f i ≡ image decode S a o i)
      → IsCurrent S a o c
      → (o ≡ false → S a ≡ false)
      → IsImage decode S (suc a) false (upsert m (4 * c) (block decode S (suc a) false c))
  work-IsImage S a o c m f h same cur new =
      let (start, le) = current-start S a o c cur in
      Holds-ext _ _ _
        (λ i. elim (Bool-cases (i == c)) [
          | inl e ↦ ground (arith, e, start)
          | inr e ↦ elim (Bool-cases (S i)) [
            | inl at ↦
                ground (arith, e, at, same i, moved_block S a o c i cur new (ground (arith, e)) at)
            | inr at ↦ ground (arith, e, at, same i)
          ]
        ])
        (upsert-Holds m f c (block decode S (suc a) false c) h)

  entered_block :
      (S : ℕ → Bool) (a c i : ℕ)
      → IsCurrent S a false c
      → i ≢ c
      → S i ≡ true
      → block decode S a true i ≡ block decode S a false i
  unfolding block_to
  entered_block S a c i (lt, start, e) ne at = elim (Bool-cases (ltb i a)) [
    | inl h ↦ ground (arith, h, closed_before S a c i lt start e ne (ground (arith, h)) at)
    | inr h ↦ ground (arith, h)
  ]

  pub enter-IsImage :
      (S : ℕ → Bool) (a c : ℕ) (m : Blocks)
      → IsImage decode S a false m
      → IsCurrent S a false c
      → IsImage decode S a true (upsert m (4 * c) (block decode S a true c))
  enter-IsImage S a c m h (lt, start, e) =
      Holds-ext _ _ _
        (λ i. elim (Bool-cases (i == c)) [
          | inl h ↦ ground (arith, h, start)
          | inr h ↦ elim (Bool-cases (S i)) [
            | inl at ↦
                ground (arith, h, at, entered_block S a c i (lt, start, e) (ground (arith, h)) at)
            | inr at ↦ ground (arith, h, at)
          ]
        ])
        (upsert-Holds m _ c (block decode S a true c) h)

  ending_any :
      (g : Guest) (next : ℕ) (p q : Bool)
      → is_straight g ≡ false
      → ending g next p ≡ ending g next q
  ending_any (straight n) next p q h = cc h
  ending_any (returning n) next p q h = refl
  ending_any (jump t) next p q h = refl
  ending_any (branch n t) next p q h = refl

  last_block :
      (S : ℕ → Bool) (a i : ℕ)
      → stop S i a ≡ a
      → is_straight (decode (4 * (a - 1))) ≡ false
      → block decode S a false i ≡ block decode S a true i
  unfolding block_to
  last_block S a i e str =
      ap (block_to decode a false i) e
      ∙ (ground (
        arith,
        ending_any (decode (4 * (a - 1))) (4 * a) (ltb a a || false) (ltb a a || true) str,
      )
          ∙ ap (block_to decode a true i) (sym e))

  pub entered-IsImage :
      (S : ℕ → Bool) (a c : ℕ) (m : Blocks)
      → IsImage decode S a false m
      → IsCurrent S a false c
      → is_straight (decode (4 * (a - 1))) ≡ false
      → IsImage decode S a true m
  entered-IsImage S a c m h (lt, start, e) str =
      Holds-ext _ _ _
        (λ i. elim (Bool-cases (S i)) [
          | inl at ↦ elim (Bool-cases (i == c)) [
            | inl h' ↦ ground (
              arith,
              at,
              last_block S a i (ap (λ (j : ℕ). stop S j a) (ground (arith, h')) ∙ e) str,
            )
            | inr h' ↦
                ground (arith, at, entered_block S a c i (lt, start, e) (ground (arith, h')) at)
          ]
          | inr at ↦ ground (arith, at)
        ])
        h
