-- ===== src/Sbt/Map.antt =====
-- `sbt::Map` of sbt/Map.h: a map kept as a vector of items sorted by key. The keys are the
-- `uint64_t` addresses of the maps of basic blocks and functions. An iterator is an index, and
-- `length data` is `end()`. `std::lower_bound` and `std::inplace_merge` are the C++ library's.
pub mod Laws
pub mod Neighbours
use riscv_sbt.Prelude.{
  ℕ, zero, suc, ◌+◌, Bool, true, false, List, [], ◌∷◌, Option, none, some, ltb, ◌==◌, if◌then◌else◌,
  get_elem?, set, take,
}
use mathlib.Core.Option

-- `Map::Item`
pub record Item {ℓ} (V : Type ℓ) : Type ℓ where
  pub key : ℕ
  pub val : V

module _ {ℓ} {V : Type ℓ} where
  -- `std::lower_bound`: the index of the first item whose key is not less than `k`.
  unfoldable pub lower_bound : List (Item V) → ℕ → ℕ
  lower_bound [] k = 0
  lower_bound (x ∷ xs) k = if ltb x.key k then suc (lower_bound xs k) else 0

  at_key : ℕ → ℕ → Option (Item V) → Option ℕ
  at_key k it none = none
  at_key k it (some x) = if x.key == k then some it else none

  -- `lookup`: the place of the item with key `k`, null where there is none.
  pub lookup_item : List (Item V) → ℕ → Option ℕ
  unfolding lower_bound at_key
  lookup_item [] k = none
  lookup_item (x ∷ xs) k = let it = lower_bound (x ∷ xs) k in at_key k it (get_elem? (x ∷ xs) it)

  val_at : List (Item V) → Option ℕ → Option V
  val_at xs none = none
  val_at xs (some it) = Option.map (λ (x : Item V). x.val) (get_elem? xs it)

  -- `operator[]`, by `lookupVal`
  unfoldable pub lookup : List (Item V) → ℕ → Option V
  unfolding lookup_item val_at
  lookup xs k = val_at xs (lookup_item xs k)

  -- `std::inplace_merge` of the sorted items with the one item behind them; it is stable.
  pub merge_last : List (Item V) → Item V → List (Item V)
  merge_last [] i = i ∷ []
  merge_last (x ∷ xs) i = if ltb i.key x.key then i ∷ x ∷ xs else x ∷ merge_last xs i

  upsert_at : List (Item V) → ℕ → V → Option ℕ → List (Item V)
  unfolding merge_last
  upsert_at xs k v none = merge_last xs (record { key = k; val = v })
  upsert_at xs k v (some it) = set xs it (record { key = k; val = v })

  -- `upsert`: overwrite the value of a key that is there, insert an item for one that is not.
  unfoldable pub upsert : List (Item V) → ℕ → V → List (Item V)
  unfolding lookup_item upsert_at
  upsert xs k v = upsert_at xs k v (lookup_item xs k)

  -- `erase(it)`: it erases from `it` to `end()`.
  pub erase : List (Item V) → ℕ → List (Item V)
  erase xs it = take it xs
