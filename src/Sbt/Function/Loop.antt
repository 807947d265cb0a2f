-- ===== src/Sbt/Function/Loop.antt =====
-- The loop over the instructions of a function, `translateInstrs` of sbt/Function.cpp. `decode` gives
-- the guest instructions, and `is_switch` tells at which addresses another function starts, by the
-- section's `getNextFuncAddr()`; the loop leaves the rest to that function.
pub mod Enter
pub mod Work
pub mod Turn
pub mod Stops
pub mod Flow
pub mod Laws
use riscv_sbt.Prelude.{
  ℕ, zero, suc, ◌+◌, ◌*◌, Bool, true, false, ◌&&◌, not, List, [], ◌∷◌, Option, none, some, ltb, leb,
  ◌==◌, if◌then◌else◌,
}
use riscv_sbt.Sbt.Map.{Item, lookup, upsert}
use riscv_sbt.Sbt.Function.Blocks.{
  Terminator, unfinished, ret, br, cond_br, Block, Blocks, is_terminated, size, new_bb,
  lower_bound_bb, get_back_bb, next_bb_addr, update_next_bb, split,
}
use riscv_sbt.Sbt.Function.Jump.{
  Guest, straight, returning, jump, branch, State, set_term, handle_jump,
}

-- `addInstr`, into a `std::map`.
unfoldable pub put_instr : List (Item ℕ) → ℕ → ℕ → List (Item ℕ)
put_instr [] addr n = record { key = addr; val = n } ∷ []
put_instr (x ∷ xs) addr n =
    let rest = put_instr xs addr n in
    if ltb x.key addr
    then x ∷ rest
    else if x.key == addr
    then record { key = addr; val = n } ∷ xs
    else record { key = addr; val = n } ∷ x ∷ xs

unfoldable pub add_instr_to : ℕ → ℕ → State → Option Block → Option State
unfolding put_instr
add_instr_to addr n s none = none
add_instr_to addr n s (some b) = some (record s {
  bb_map = upsert s.bb_map s.current (record b { instrs = put_instr b.instrs addr n });
})

unfoldable pub add_instr : ℕ → ℕ → State → Option State
unfolding add_instr_to
add_instr addr n s = add_instr_to addr n s (lookup s.bb_map s.current)

-- Whether the insertion block has its terminator.
unfoldable pub at_end : State → Bool
unfolding is_terminated
at_end s = elim (lookup s.bb_map s.current) [ none ↦ true | some b ↦ is_terminated b.term ]

unfoldable pub with_count : ℕ → Option State → Option (State × ℕ)
with_count n none = none
with_count n (some s) = some (s, n)

-- `inst.translate()`, with the number of LLVM instructions; for an instruction that emits none,
-- `bld->first()` makes a nop.
unfoldable pub translate_inst : Guest → ℕ → State → Option (State × ℕ)
unfolding handle_jump at_end set_term with_count
translate_inst (straight n) addr s = if at_end s then none else some (s, (if n == 0 then 1 else n))
translate_inst (returning n) addr s = with_count n (set_term ret s)
translate_inst (jump t) addr s = with_count 0 (handle_jump 0 addr t false s)
translate_inst (branch n t) addr s = with_count n (handle_jump n addr t true s)

-- Enter the block at `addr`, behind the block before.
unfoldable pub branch_to : ℕ → State → Option State
unfolding set_term at_end
branch_to addr s = if at_end s then some s else set_term (br addr) s

unfoldable pub after_enter : ℕ → State → State
unfolding next_bb_addr update_next_bb
after_enter addr s = elim (next_bb_addr s.bb_map addr) [
  | none ↦ record s { current = addr }
  | some n ↦ record s { current = addr; next_bb = update_next_bb s.next_bb n }
]

unfoldable pub with_bb : ℕ → State → State
unfolding new_bb
with_bb addr s = elim (lookup s.bb_map addr) [
  | none ↦ record s { bb_map = new_bb s.bb_map addr }
  | some b ↦ s
]

unfoldable pub enter_after : ℕ → Option State → Option State
unfolding after_enter
enter_after addr none = none
enter_after addr (some s) = some (after_enter addr s)

unfoldable pub enter_bb : ℕ → State → Option State
unfolding with_bb branch_to enter_after
enter_bb addr s =
    if not (s.next_bb == 0) && addr == s.next_bb
    then enter_after addr (branch_to addr (with_bb addr s))
    else some s

-- What follows in the turn of the loop for the instruction at `addr`: it is added to its block, and
-- a block that is ended is left.
unfoldable pub end_turn : ℕ → Option State → Option State
unfolding at_end update_next_bb
end_turn addr none = none
end_turn addr (some s) =
    some (if at_end s then record s { next_bb = update_next_bb s.next_bb (addr + 4) } else s)

unfoldable pub add_turn : ℕ → Option (State × ℕ) → Option State
unfolding add_instr end_turn
add_turn addr none = none
add_turn addr (some (s, n)) = end_turn addr (add_instr addr n s)

unfoldable pub translate_turn : (ℕ → Guest) → ℕ → Option State → Option State
unfolding translate_inst add_turn
translate_turn decode addr none = none
translate_turn decode addr (some s) = add_turn addr (translate_inst (decode addr) addr s)

unfoldable pub turn : (ℕ → Guest) → ℕ → State → Option State
unfolding enter_bb translate_turn
turn decode addr s = translate_turn decode addr (enter_bb addr s)

-- `translateInstrs`, of `n` instructions from `addr` on; `is_switch` tells at which of them
-- the loop turns to another function. The state, and the address where it stopped.
unfoldable pub loop : (ℕ → Guest) → (ℕ → Bool) → ℕ → ℕ → State → Option (State × ℕ)
unfolding turn
loop decode is_switch zero addr s = some (s, addr)
loop decode is_switch (suc n) addr s = elim (turn decode addr s) [
  | none ↦ none
  | some s' ↦
      if is_switch (addr + 4) then some (s', addr + 4) else loop decode is_switch n (addr + 4) s'
]

-- A function whose blocks are yet to be found: `start` makes the first.
unfoldable pub start : ℕ → State
unfolding new_bb
start addr = record { bb_map = new_bb [] addr; current = addr; next_bb = 0 }

unfoldable pub translate_instrs : (ℕ → Guest) → (ℕ → Bool) → ℕ → ℕ → Option (State × ℕ)
unfolding loop start
translate_instrs decode is_switch n addr = loop decode is_switch n addr (start addr)
