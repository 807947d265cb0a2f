-- ===== src/Sbt/Map/Neighbours.antt =====
-- The items beside an address in the sorted vector of sbt/Map.h.
use riscv_sbt.Prelude.{
  ℕ, suc, ◌<◌, ◌≤◌, ◌≡◌, sym, subst, ◌∙◌, Bool, inl, inr, Bool-cases, refl, List, [], ◌∷◌, Option,
  none, some, arith, ltb, if◌then◌else◌, get_elem?,
}
use riscv_sbt.Sbt.Map.{Item, lower_bound, lookup}
use riscv_sbt.Sbt.Map.Laws.{IsSorted, IsBelow, lookup-cons, lookup-IsBelow}

module _ {V : Type 0} where
  -- No key from `k` on and below `e`.
  abbrev pub IsFree : List (Item V) → ℕ → ℕ → Type 0
  IsFree m k e = (j : ℕ) → k ≤ j → j < e → lookup m j ≡ none

  -- What stands at the lower bound of `k`: the item of the least key from `k` on, if there is one.
  abbrev pub IsNext : List (Item V) → ℕ → Option (Item V) → Type 0
  IsNext m k none = (j : ℕ) → k ≤ j → lookup m j ≡ none
  IsNext m k (some x) = (k ≤ x.key) × (lookup m x.key ≡ some x.val) × IsFree m k x.key

  pub lookup-empty : (j : ℕ) → lookup {V = V} [] j ≡ none
  unfolding lookup
  lookup-empty j = refl

  lookup-IsBelow_cons :
      (x : Item V) (xs : List (Item V)) (j : ℕ) → x.key < j → lookup (x ∷ xs) j ≡ lookup xs j
  lookup-IsBelow_cons x xs j h = rw lookup-cons (ground arith)

  pub lookup-head : (x : Item V) (xs : List (Item V)) → lookup (x ∷ xs) x.key ≡ some x.val
  lookup-head x xs = rw lookup-cons (ground arith)

  pub lookup-before :
      (x : Item V) (xs : List (Item V)) (j : ℕ) → j < x.key → lookup (x ∷ xs) j ≡ none
  lookup-before x xs j h = rw lookup-cons (ground arith)

  lookup-below_key :
      (x : Item V) (xs : List (Item V)) (j : ℕ) (v : V)
      → IsBelow x.key xs
      → IsSorted xs
      → lookup xs j ≡ some v
      → x.key < j
  lookup-below_key x xs j v below s at = elim (Bool-cases (ltb x.key j)) [
    | inl e ↦ ground (arith, e)
    | inr e ↦ absurd (cc (at, lookup-IsBelow xs x.key j below s (ground (arith, e))))
  ]

  IsNext-cons :
      (x : Item V) (xs : List (Item V)) (k : ℕ) (o : Option (Item V))
      → IsBelow x.key xs
      → IsSorted xs
      → x.key < k
      → IsNext xs k o
      → IsNext (x ∷ xs) k o
  IsNext-cons x xs k none below s lt h = λ j le. lookup-IsBelow_cons x xs j (omega arith) ∙ h j le
  IsNext-cons x xs k (some y) below s lt (le, at, free) = (
    le,
    lookup-IsBelow_cons x xs y.key (omega arith) ∙ at,
    λ j a b. lookup-IsBelow_cons x xs j (omega arith) ∙ free j a b,
  )

  pub lower_bound-IsNext :
      (m : List (Item V)) (k : ℕ) → IsSorted m → IsNext m k (get_elem? m (lower_bound m k))
  unfolding lower_bound
  lower_bound-IsNext [] k s = λ j le. unfold lookup in refl
  lower_bound-IsNext (x ∷ xs) k (below, s) = elim (Bool-cases (ltb x.key k)) [
    | inl e ↦
        subst
          (λ (b : Bool).
            IsNext (x ∷ xs) k (get_elem? (x ∷ xs) (if b then suc (lower_bound xs k) else 0)))
          (sym e)
          (IsNext-cons x xs k (get_elem? xs (lower_bound xs k)) below s (ground (arith, e))
            (lower_bound-IsNext xs k s))
    | inr e ↦
        subst
          (λ (b : Bool).
            IsNext (x ∷ xs) k (get_elem? (x ∷ xs) (if b then suc (lower_bound xs k) else 0)))
          (sym e) (ground (arith, e), lookup-head x xs, λ j a b. lookup-before x xs j b)
  ]

  -- The item of the greatest key below `k`, `k'` for a bound that is met.
  abbrev pub IsPrev : List (Item V) → ℕ → Option (Item V) → Type 0
  IsPrev m k none = ⊥
  IsPrev m k (some y) = (y.key < k) × (lookup m y.key ≡ some y.val) × IsFree m (suc y.key) k

  IsPrev-cons :
      (x : Item V) (xs : List (Item V)) (k : ℕ) (o : Option (Item V))
      → IsBelow x.key xs
      → IsSorted xs
      → IsPrev xs k o
      → IsPrev (x ∷ xs) k o
  IsPrev-cons x xs k none below s h = elim h [ ]
  IsPrev-cons x xs k (some y) below s (le, at, free) =
      let h = lookup-below_key x xs y.key y.val below s at in
      (
        le,
        lookup-IsBelow_cons x xs y.key h ∙ at,
        λ j a b. lookup-IsBelow_cons x xs j (omega arith) ∙ free j a b,
      )

  -- What stands before the lower bound of `k`.
  pub before-IsPrev :
      (x : Item V) (xs : List (Item V)) (k : ℕ)
      → IsSorted (x ∷ xs)
      → x.key < k
      → IsPrev (x ∷ xs) k (get_elem? (x ∷ xs) (lower_bound xs k))
  unfolding lower_bound
  before-IsPrev x [] k s h =
      (h, lookup-head x [], λ j a b. lookup-IsBelow_cons x [] j a ∙ unfold lookup in refl)
  before-IsPrev x (z ∷ zs) k (below, s) h = elim (Bool-cases (ltb z.key k)) [
    | inl e ↦
        subst
          (λ (b : Bool).
            IsPrev (x ∷ z ∷ zs) k
              (get_elem? (x ∷ z ∷ zs) (if b then suc (lower_bound zs k) else 0)))
          (sym e)
          (IsPrev-cons x (z ∷ zs) k (get_elem? (z ∷ zs) (lower_bound zs k)) below s
            (before-IsPrev z zs k s (ground (arith, e))))
    | inr e ↦
        subst
          (λ (b : Bool).
            IsPrev (x ∷ z ∷ zs) k
              (get_elem? (x ∷ z ∷ zs) (if b then suc (lower_bound zs k) else 0)))
          (sym e)
          (
            h,
            lookup-head x (z ∷ zs),
            λ j a b. lookup-IsBelow_cons x (z ∷ zs) j a ∙ lookup-before z zs j (ground (arith, e)),
          )
  ]
