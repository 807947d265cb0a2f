-- ===== src/Sbt/Function/Blocks/Transfer.antt =====
-- The transfer of the blocks behind an address to another function.
use riscv_sbt.Prelude.{
  ℕ, zero, suc, ◌≡◌, ◌∙◌, [], ◌∷◌, Option, none, some, arith, ltb, leb, if◌then◌else◌,
}
use riscv_sbt.Sbt.Map.{lower_bound, lookup, upsert}
use riscv_sbt.Sbt.Map.Laws.{
  IsSorted, lookup-cons, lookup-IsBelow, lookup-upsert, upsert-IsSorted, lookup-erase,
}
use riscv_sbt.Sbt.Map.Neighbours.{lookup-empty}
use riscv_sbt.Sbt.Function.Blocks.{Block, Blocks, upsert_all, items_from, transfer_bbs}

either : Option Block → Option Block → Option Block
either none b = b
either (some a) b = some a

lookup-upsert_all :
    (m xs : Blocks) (k : ℕ)
    → IsSorted m
    → IsSorted xs
    → lookup (upsert_all m xs) k ≡ either (lookup xs k) (lookup m k)
unfolding upsert_all either
lookup-upsert_all m [] k sm s = ground (arith, lookup-empty {V = Block} k)
lookup-upsert_all m (x ∷ xs) k sm (below, s) =
    lookup-upsert_all (upsert m x.key x.val) xs k (upsert-IsSorted m x.key x.val sm) s
    ∙ ground (
      arith,
      lookup-upsert m x.key k x.val sm,
      lookup-cons x xs k,
      lookup-IsBelow xs x.key k below s,
    )

lookup-items_from :
    (m : Blocks) (start k : ℕ)
    → IsSorted m
    → lookup (items_from m (lower_bound m start)) k ≡ (if leb start k then lookup m k else none)
unfolding items_from lower_bound
lookup-items_from [] start k s = ground (arith, lookup-empty {V = Block} k)
lookup-items_from (x ∷ xs) start k (below, s) =
    ground
      (arith, lookup-items_from xs start k s, lookup-cons x xs k, lookup-IsBelow xs x.key k below s)

items_from-IsSorted : (m : Blocks) (it : ℕ) → IsSorted m → IsSorted (items_from m it)
unfolding items_from
items_from-IsSorted m zero s = s
items_from-IsSorted [] (suc it) s = s
items_from-IsSorted (x ∷ xs) (suc it) (below, s) = items_from-IsSorted xs it s

-- `transferBBs` leaves the blocks before the address with the function, each as it was, and hands
-- all the others on to the new function, none lost and none in both.
pub transfer_bbs-splits :
    (m : Blocks) (start k : ℕ)
    → IsSorted m
    → (lookup (transfer_bbs m start).0 k ≡ (if ltb k start then lookup m k else none))
      × (lookup (transfer_bbs m start).1 k ≡ (if ltb k start then none else lookup m k))
unfolding transfer_bbs either
transfer_bbs-splits m start k s = (
  lookup-erase m start k s,
  lookup-upsert_all [] (items_from m (lower_bound m start)) k tt
        (items_from-IsSorted m (lower_bound m start) s)
      ∙ ground (arith, lookup-items_from m start k s, lookup-empty {V = Block} k),
)
