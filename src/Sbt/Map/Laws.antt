-- ===== src/Sbt/Map/Laws.antt =====
-- The laws of the sorted vector of sbt/Map.h as a finite map.
use riscv_sbt.Prelude.{
  ℕ, suc, ◌<◌, ◌≡◌, refl, List, [], ◌∷◌, none, some, arith, ltb, ◌==◌, if◌then◌else◌, take,
}
use riscv_sbt.Sbt.Map.{Item, lower_bound, lookup, upsert, erase}

module _ {V : Type 0} where
  abbrev pub IsBelow : ℕ → List (Item V) → Type 0
  IsBelow k [] = Unit
  IsBelow k (x ∷ xs) = k < x.key

  -- The keys rise strictly.
  abbrev pub IsSorted : List (Item V) → Type 0
  IsSorted [] = Unit
  IsSorted (x ∷ xs) = IsBelow x.key xs × IsSorted xs

  -- One step of a search from the front.
  pub lookup-cons :
      (x : Item V) (xs : List (Item V)) (k : ℕ)
      → lookup (x ∷ xs) k
        ≡ (if ltb x.key k then lookup xs k else if x.key == k then some x.val else none)
  unfolding lookup
  lookup-cons x [] k = ground arith
  lookup-cons x (y ∷ ys) k = ground arith

  upsert-cons :
      (x : Item V) (xs : List (Item V)) (k : ℕ) (v : V)
      → upsert (x ∷ xs) k v ≡ (
          if ltb x.key k
          then x ∷ upsert xs k v
          else if x.key == k
          then record { key = k; val = v } ∷ xs
          else record { key = k; val = v } ∷ x ∷ xs)
  unfolding upsert
  upsert-cons x [] k v = ground arith
  upsert-cons x (y ∷ ys) k v = ground arith

  upsert-IsBelow :
      (b : ℕ) (xs : List (Item V)) (k : ℕ) (v : V)
      → b < k
      → IsBelow b xs
      → IsBelow b (upsert xs k v)
  upsert-IsBelow b [] k v h s = unfold upsert in h
  upsert-IsBelow b (x ∷ xs) k v h s = rw upsert-cons (ground arith)

  -- `upsert` keeps the keys of a sorted map strictly sorted, hence no key is held twice.
  pub upsert-IsSorted :
      (xs : List (Item V)) (k : ℕ) (v : V) → IsSorted xs → IsSorted (upsert xs k v)
  upsert-IsSorted [] k v s = unfold upsert in (tt, tt)
  upsert-IsSorted (x ∷ xs) k v (below, s) =
      rw upsert-cons (ground (arith, upsert-IsBelow x.key xs k v, upsert-IsSorted xs k v s))

  pub lookup-IsBelow :
      (xs : List (Item V)) (b k : ℕ) → IsBelow b xs → IsSorted xs → k < suc b → lookup xs k ≡ none
  lookup-IsBelow [] b k h s lt = unfold lookup in refl
  lookup-IsBelow (x ∷ xs) b k h s lt = rw lookup-cons (ground arith)

  -- In a sorted map, after `upsert k v` a key `j` finds `v` if it is `k`, and what it found before if it is not.
  pub lookup-upsert :
      (xs : List (Item V)) (k j : ℕ) (v : V)
      → IsSorted xs
      → lookup (upsert xs k v) j ≡ (if k == j then some v else lookup xs j)
  lookup-upsert [] k j v s = unfold lookup upsert in ground arith
  lookup-upsert (x ∷ xs) k j v (below, s) = rw upsert-cons (
      ground (
        arith,
        lookup-cons x (upsert xs k v) j,
        lookup-cons (record { key = k; val = v }) xs j,
        lookup-cons (record { key = k; val = v }) (x ∷ xs) j,
        lookup-cons x xs j,
        lookup-upsert xs k j v s,
        lookup-IsBelow xs x.key j below s,
      ))

  -- In a sorted map `erase(lower_bound(k))` drops the keys from `k` on and keeps those before it.
  pub lookup-erase :
      (xs : List (Item V)) (k j : ℕ)
      → IsSorted xs
      → lookup (erase xs (lower_bound xs k)) j ≡ (if ltb j k then lookup xs j else none)
  unfolding lower_bound erase
  lookup-erase [] k j s = unfold lookup in ground arith
  lookup-erase (x ∷ xs) k j (below, s) = ground (
    arith,
    lookup-cons x xs j,
    lookup-cons x (take (lower_bound xs k) xs) j,
    lookup-erase xs k j s,
    lookup-IsBelow xs x.key j below s,
  )
