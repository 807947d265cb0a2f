-- ===== src/Sbt/Function/Blocks/Laws.antt =====
-- The laws of the basic blocks in translation.
use riscv_sbt.Prelude.{
  ℕ, suc, ◌≤◌, ◌≡◌, sym, subst, ap, ◌∙◌, Bool, inl, inr, Bool-cases, List, [], ◌∷◌, Option, none,
  some, arith, ltb, ◌==◌, if◌then◌else◌, get_elem?,
}
use riscv_sbt.Sbt.Map.{Item, lower_bound, lookup}
use riscv_sbt.Sbt.Map.Laws.{IsSorted}
use riscv_sbt.Sbt.Map.Neighbours.{
  IsNext, IsPrev, IsFree, lower_bound-IsNext, before-IsPrev, lookup-before, lookup-empty,
  lookup-head,
}
use riscv_sbt.Sbt.Function.Blocks.{Block, Blocks, back_bb, get_back_bb}

-- The block of the greatest address up to `k`.
abbrev pub IsBack : Blocks → ℕ → Option (Item Block) → Type 0
IsBack m k none = ⊥
IsBack m k (some x) = (x.key ≤ k) × (lookup m x.key ≡ some x.val) × IsFree m (suc x.key) (suc k)

lookup-head_bound :
    (x : Item Block) (xs : List (Item Block)) (b k : ℕ) (v : Block)
    → k ≤ x.key
    → b ≤ k
    → lookup (x ∷ xs) b ≡ some v
    → x.key ≡ k
lookup-head_bound x xs b k v le le' at = elim (Bool-cases (ltb b x.key)) [
  | inl e ↦ absurd (cc (at, lookup-before x xs b (ground (arith, e))))
  | inr e ↦ ground (arith, e)
]

prev-IsBack :
    (m : Blocks) (k : ℕ) (prev : Option (Item Block))
    → lookup m k ≡ none
    → IsPrev m k prev
    → IsBack m k prev
prev-IsBack m k none e h = elim h [ ]
prev-IsBack m k (some y) e (le, at, free) = (
  omega arith,
  at,
  λ j a b. elim (Bool-cases (j == k)) [
    | inl h ↦ ap (lookup m) (ground (arith, h)) ∙ e
    | inr h ↦ free j a (ground (arith, h))
  ],
)

-- A block at `k`, or the one before it.
choose-IsBack :
    (m : Blocks) (k i : ℕ) (next : Option (Item Block))
    → IsNext m k next
    → IsPrev m k (get_elem? m i)
    → IsBack m k (back_bb m k (suc i) next)
unfolding back_bb
choose-IsBack m k i none after h = prev-IsBack m k (get_elem? m i) (after k (omega arith)) h
choose-IsBack m k i (some x) (le, at, free) h = elim (Bool-cases (x.key == k)) [
  | inl e ↦
      subst (λ (b : Bool). IsBack m k (if b then some x else get_elem? m i)) (sym e)
        (ground (arith, e), at, λ j a b. absurd (ground (arith, e)))
  | inr e ↦
      subst (λ (b : Bool). IsBack m k (if b then some x else get_elem? m i)) (sym e)
        (prev-IsBack m k (get_elem? m i) (free k (omega arith) (ground (arith, e))) h)
]

head-IsBack :
    (x : Item Block) (xs : List (Item Block)) (k : ℕ) → x.key ≡ k → IsBack (x ∷ xs) k (some x)
head-IsBack x xs k e = (omega arith, lookup-head x xs, λ j a b. absurd (ground arith))

-- `getBackBB` finds the block of the greatest address up to `k`, if there is one at all.
pub get_back_bb-IsBack :
    (m : Blocks) (k b : ℕ) (v : Block)
    → IsSorted m
    → lookup m b ≡ some v
    → b ≤ k
    → IsBack m k (get_back_bb m k)
unfolding get_back_bb back_bb lower_bound
get_back_bb-IsBack [] k b v s at h = absurd (cc (at, lookup-empty b))
get_back_bb-IsBack (x ∷ xs) k b v s at h = elim (Bool-cases (ltb x.key k)) [
  | inl e ↦
      subst
        (λ (c : Bool). IsBack (x ∷ xs) k (
          back_bb (x ∷ xs) k (if c then suc (lower_bound xs k) else 0)
            (get_elem? (x ∷ xs) (if c then suc (lower_bound xs k) else 0))))
        (sym e)
        (choose-IsBack (x ∷ xs) k (lower_bound xs k) (get_elem? xs (lower_bound xs k))
          (subst
            (λ (c : Bool).
              IsNext (x ∷ xs) k (get_elem? (x ∷ xs) (if c then suc (lower_bound xs k) else 0)))
            e (lower_bound-IsNext (x ∷ xs) k s))
          (before-IsPrev x xs k s (ground (arith, e))))
  | inr e ↦
      subst
        (λ (c : Bool). IsBack (x ∷ xs) k (
          back_bb (x ∷ xs) k (if c then suc (lower_bound xs k) else 0)
            (get_elem? (x ∷ xs) (if c then suc (lower_bound xs k) else 0))))
        (sym e) (head-IsBack x xs k (lookup-head_bound x xs b k v (ground (arith, e)) h at))
]
