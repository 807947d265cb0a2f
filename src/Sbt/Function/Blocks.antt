-- ===== src/Sbt/Function/Blocks.antt =====
-- The basic blocks of a function in translation: sbt/BasicBlock.cpp, sbt/BasicBlock.h, and their
-- maps in sbt/Function.h. A block is known by its address, its key in `_bbMap`; the blocks of
-- auxiliary code (`_ubbMap`), which only indirect calls make, are left out. `none` is a failed
-- assertion or a null pointer that is read.
pub mod Laws
pub mod Transfer
use riscv_sbt.Prelude.{
  ℕ, zero, suc, ◌+◌, Bool, true, false, ◌&&◌, ◌||◌, not, List, [], ◌∷◌, Option, none, some, ltb,
  leb, ◌==◌, if◌then◌else◌, get_elem?,
}
use riscv_sbt.Sbt.Map.{Item, lower_bound, lookup, upsert, erase}

-- The instruction that ends a block; `unfinished` of a block that has none as yet.
pub data Terminator : Type 0 where
  unfinished ret : Terminator
  br : ℕ → Terminator
  cond_br : ℕ → ℕ → Terminator

-- `_instrMap`, with the number of LLVM instructions of each guest instruction, less a terminator.
pub record Block : Type 0 where
  pub instrs : List (Item ℕ)
  pub term : Terminator

unfoldable pub is_terminated : Terminator → Bool
is_terminated unfinished = false
is_terminated ret = true
is_terminated (br t) = true
is_terminated (cond_br t f) = true

unfoldable pub total : List (Item ℕ) → ℕ
total [] = 0
total (x ∷ xs) = x.val + total xs

-- `bb()->size()`: how many LLVM instructions a block holds.
unfoldable pub size : Block → ℕ
unfolding total is_terminated
size b = total b.instrs + (if is_terminated b.term then 1 else 0)

abbrev pub Blocks : Type 0
Blocks = List (Item Block)

-- `newBB`
unfoldable pub new_bb : Blocks → ℕ → Blocks
new_bb m addr = upsert m addr (record { instrs = []; term = unfinished })

-- `lowerBoundBB`
unfoldable pub lower_bound_bb : Blocks → ℕ → Option (Item Block)
lower_bound_bb m addr = get_elem? m (lower_bound m addr)

-- `getBackBB`, by the iterator and what stands there.
unfoldable pub back_bb : Blocks → ℕ → ℕ → Option (Item Block) → Option (Item Block)
back_bb m addr zero none = none
back_bb m addr (suc it) none = get_elem? m it
back_bb m addr zero (some b) = some b
back_bb m addr (suc it) (some b) = if b.key == addr then some b else get_elem? m it

unfoldable pub get_back_bb : Blocks → ℕ → Option (Item Block)
unfolding back_bb
get_back_bb m addr = let it = lower_bound m addr in back_bb m addr it (get_elem? m it)

-- `nextBBAddr`; `none` is `INVALID_ADDR`.
unfoldable pub next_bb_addr : Blocks → ℕ → Option ℕ
unfolding lower_bound_bb
next_bb_addr m cur_addr = elim (lower_bound_bb m (cur_addr + 4)) [
  | none ↦ none
  | some b ↦ some b.key
]

unfoldable pub update_next_bb : ℕ → ℕ → ℕ
update_next_bb next_bb addr = if leb next_bb addr || ltb addr next_bb then addr else next_bb

-- `splitMap`: what stays, and what is taken out from `key` on.
unfoldable pub split_map : List (Item ℕ) → ℕ → List (Item ℕ) × List (Item ℕ)
split_map [] key = ([], [])
split_map (x ∷ xs) key =
    let (stay, out) = split_map xs key in if ltb x.key key then (x ∷ stay, out) else ([], x ∷ xs)

-- `BasicBlock::split`, with the branch and the move of the terminator that LLVM's
-- `splitBasicBlock` does: the upper and the lower part.
unfoldable pub split : Block → ℕ → Option (Block × Block)
unfolding split_map
split b addr = elim (lookup b.instrs addr) [
  | none ↦ none
  | some n ↦
      let (stay, out) = split_map b.instrs addr in
      some (record { instrs = stay; term = br addr }, record { instrs = out; term = b.term })
]

-- `transferBBs`: the blocks that stay, those that go to the new function, and its `_nextBB`.
first_not : ℕ → Blocks → ℕ
first_not start [] = 0
first_not start (x ∷ xs) = if x.key == start then first_not start xs else x.key

unfoldable pub upsert_all : Blocks → Blocks → Blocks
upsert_all m [] = m
upsert_all m (x ∷ xs) = upsert_all (upsert m x.key x.val) xs

-- The items from an iterator on.
unfoldable pub items_from : Blocks → ℕ → Blocks
items_from m zero = m
items_from [] (suc it) = []
items_from (x ∷ xs) (suc it) = items_from xs it

unfoldable pub transfer_bbs : Blocks → ℕ → Blocks × Blocks × ℕ
unfolding first_not upsert_all items_from
transfer_bbs m start =
    let st = lower_bound m start in
    (erase m st, upsert_all [] (items_from m st), first_not start (items_from m st))
