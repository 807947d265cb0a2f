-- ===== src/Sbt/Section/Switch.antt =====
-- The switch from one function to the next: `SBTSection::translate(Function*)` of sbt/Section.cpp,
-- `Function::translate`, `getByAddr` and the test at the head of `translateInstrs` of
-- sbt/Function.cpp. `calls` gives the target of the call that stands at an address; what else an
-- instruction emits does not matter here. A function is known by its address in `funcs`, the map
-- `_funcByAddr`.
pub mod Near
pub mod Laws
use riscv_sbt.Prelude.{
  ℕ, zero, suc, ◌+◌, ◌&&◌, not, List, [], ◌∷◌, Option, none, some, ◌==◌, if◌then◌else◌,
}
use riscv_sbt.Sbt.Map.{Item, lookup, upsert}
use riscv_sbt.Sbt.Section.{update_next_func_addr}

-- `_ctx->_funcByAddr`, `_nextFuncAddr` and `_ctx->addr`
pub record State : Type 0 where
  pub funcs : List (Item (Unit {0}))
  pub next_func : ℕ
  pub addr : ℕ

unfoldable pub update_next : ℕ → State → State
unfolding update_next_func_addr
update_next next s = record s { next_func = update_next_func_addr s.funcs s.addr s.next_func next }

-- `addFunc`
unfoldable pub add_func : ℕ → State → State
add_func start s = record s { funcs = upsert s.funcs start tt }

-- `Function::getByAddr`: a function that is not known is created.
unfoldable pub get_by_addr : ℕ → State → State
unfolding update_next add_func
get_by_addr target s = elim (lookup s.funcs target) [
  | none ↦ update_next target (add_func target s)
  | some u ↦ s
]

unfoldable pub translate_inst : Option ℕ → State → State
unfolding get_by_addr
translate_inst none s = s
translate_inst (some target) s = get_by_addr target s

-- Where `translateInstrs` stops: at the end, or at another function, with the number of
-- instructions that are left.
pub data Stop : Type 0 where
  finished : ℕ → State → Stop
  switched : ℕ → ℕ → State → Stop

unfoldable pub translate_instrs : (ℕ → Option ℕ) → ℕ → ℕ → ℕ → State → Stop
unfolding translate_inst
translate_instrs calls st zero addr s = finished addr s
translate_instrs calls st (suc n) addr s =
    let s' = record s { addr = addr } in
    let rest = translate_instrs calls st n (addr + 4) (translate_inst (calls addr) s') in
    if not (addr == st) && addr == s.next_func then switched addr (suc n) s' else rest

-- A function as it was translated: `_addr` and `_end`.
pub record Piece : Type 0 where
  pub start : ℕ
  pub end : ℕ

abbrev pub with_piece : Piece → Option (List Piece) → Option (List Piece)
with_piece p none = none
with_piece p (some ps) = some (p ∷ ps)

-- `SBTSection::translate(Function*)` and `Function::translate`, which calls it for the next
-- function; the recursion takes fuel.
unfoldable pub translate_from : (ℕ → Option ℕ) → ℕ → ℕ → ℕ → State → Option (List Piece)
unfolding translate_instrs update_next
translate_from calls zero n st s = none
translate_from calls (suc fuel) n st s =
    elim (translate_instrs calls st n st (update_next (st + 4) s)) [
      | finished e s' ↦ some (record { start = st; end = e } ∷ [])
      | switched a n' s' ↦
          with_piece (record { start = st; end = a }) (translate_from calls fuel n' a s')
    ]

-- `SBTSection::translate(const Func&)`, of a function with `n` instructions.
unfoldable pub translate_func : (ℕ → Option ℕ) → ℕ → ℕ → ℕ → State → Option (List Piece)
unfolding translate_from add_func
translate_func calls fuel n start s = translate_from calls fuel n start (add_func start s)
