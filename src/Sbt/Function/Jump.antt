-- ===== src/Sbt/Function/Jump.antt =====
-- The discovery of basic blocks by `handleJump` of sbt/Instruction.cpp. Of a guest instruction only
-- its kind counts, and how many LLVM instructions it emits besides the terminator. `none` is a
-- failed assertion, a null pointer that is read, or an instruction behind the terminator of a
-- block. Indirect jumps are left out.
pub mod Scan
pub mod Image
pub mod Moves
pub mod Run
pub mod Ready
pub mod Back
pub mod Target
use riscv_sbt.Prelude.{
  ℕ, zero, suc, ◌+◌, ◌*◌, Bool, true, false, ◌&&◌, not, List, [], ◌∷◌, Option, none, some, ltb, leb,
  ◌==◌, if◌then◌else◌,
}
use riscv_sbt.Sbt.Map.{Item, lookup, upsert}
use riscv_sbt.Sbt.Function.Blocks.{
  Terminator, unfinished, ret, br, cond_br, Block, Blocks, is_terminated, size, new_bb,
  lower_bound_bb, get_back_bb, next_bb_addr, update_next_bb, split,
}

pub data Guest : Type 0 where
  straight returning : ℕ → Guest
  jump : ℕ → Guest
  branch : ℕ → ℕ → Guest

-- `_bbMap`, the block of the builder's insertion point and `_nextBB`.
pub record State : Type 0 where
  pub bb_map : Blocks
  pub current : ℕ
  pub next_bb : ℕ

unfoldable pub in_bounds : ℕ → ℕ → ℕ → Bool
in_bounds val start stop = leb start val && ltb val stop

-- Emit the terminator of the current block.
unfoldable pub set_term : Terminator → State → Option State
unfolding is_terminated
set_term t s = elim (lookup s.bb_map s.current) [
  | none ↦ none
  | some b ↦
      if is_terminated b.term
      then none
      else some (record s { bb_map = upsert s.bb_map s.current (record b { term = t }) })
]

unfoldable pub create : ℕ → State → State
unfolding new_bb update_next_bb
create target s = record s {
  bb_map = new_bb s.bb_map target;
  next_bb = update_next_bb s.next_bb target;
}

-- The block of a jump forward, by the first block from the target on.
unfoldable pub forward_to : ℕ → State → Option (Item Block) → State
unfolding create
forward_to target s none = create target s
forward_to target s (some b) = if target == b.key then s else create target s

unfoldable pub forward : ℕ → State → State
unfolding forward_to lower_bound_bb
forward target s = forward_to target s (lower_bound_bb s.bb_map target)

-- Split the block at `start`, and follow the insertion point into the lower part.
unfoldable pub split_parts : ℕ → ℕ → State → Option (Block × Block) → Option State
split_parts start target s none = none
split_parts start target s (some parts) = some (record {
  bb_map = upsert (upsert s.bb_map start parts.0) target parts.1;
  current = if s.current == start then target else s.current;
  next_bb = s.next_bb;
})

unfoldable pub split_at : ℕ → Block → ℕ → State → Option State
unfolding split split_parts
split_at start b target s = split_parts start target s (split b target)

-- The block of a jump backward; `pending` LLVM instructions are emitted for the jump already.
unfoldable pub backward_to : ℕ → ℕ → State → Option (Item Block) → Option State
unfolding in_bounds split_at size
backward_to pending target s none = none
backward_to pending target s (some b) =
    let n = size b.val + (if b.key == s.current then pending else 0) in
    if in_bounds target b.key (b.key + n * 4)
    then if b.key == target then some s else split_at b.key b.val target s
    else none

unfoldable pub backward : ℕ → ℕ → State → Option State
unfolding backward_to get_back_bb
backward pending target s = backward_to pending target s (get_back_bb s.bb_map target)

unfoldable pub target_bb : ℕ → ℕ → ℕ → State → Option State
unfolding forward backward
target_bb pending addr target s =
    if target == addr
    then none
    else if ltb addr target
    then some (forward target s)
    else backward pending target s

-- The block behind the jump.
unfoldable pub need_next_to : ℕ → State → Option Block → State
unfolding create
need_next_to next s none = create next s
need_next_to next s (some b) = record s { next_bb = update_next_bb s.next_bb next }

unfoldable pub need_next_bb : ℕ → State → State
unfolding need_next_to
need_next_bb next s = need_next_to next s (lookup s.bb_map next)

unfoldable pub end_jump : ℕ → ℕ → Bool → Option State → Option State
unfolding need_next_bb set_term
end_jump addr target cond none = none
end_jump addr target cond (some s) =
    set_term (if cond then cond_br target (addr + 4) else br target) (need_next_bb (addr + 4) s)

-- `handleJump` of a jump that does not link, as every jump that it is called for; a jump that
-- links is a call.
unfoldable pub handle_jump : ℕ → ℕ → ℕ → Bool → State → Option State
unfolding target_bb end_jump
handle_jump pending addr target cond s = end_jump addr target cond (target_bb pending addr target s)
