-- ===== src/Sbt/Section.antt =====
-- `SBTSection::translate` of sbt/Section.cpp: the symbols of a text section delimit its functions.
-- The symbols come in the order of the section; `translate(func)` of one function is a parameter,
-- of which only the failure matters here.
pub mod Laws
pub mod Switch
use riscv_sbt.Prelude.{
  ℕ, ◌+◌, Bool, true, false, ◌&&◌, ◌||◌, List, [], ◌∷◌, Option, none, some, ltb, leb, ◌==◌,
  if◌then◌else◌,
}
use riscv_sbt.Sbt.Map.{Item, lower_bound}
use riscv_sbt.Prelude.{get_elem?}

pub record Symbol : Type 0 where
  pub name : ℕ
  pub address : ℕ
  pub is_function : Bool
  pub is_global : Bool

-- `SBTSection::Func`
pub record Func : Type 0 where
  pub name : ℕ
  pub start : ℕ
  pub end : ℕ

-- A function delimiter: a global or a function symbol.
unfoldable pub is_valid : Symbol → Bool
is_valid sym = sym.is_function || sym.is_global

-- The functions translated, in order, and whether the last of them succeeded.
pub record Outcome : Type 0 where
  pub funcs : List Func
  pub ok : Bool

-- Translate a function, and go on unless it fails.
unfoldable pub after : (Func → Bool) → Func → Outcome → Outcome
after translate f rest =
    if translate f
    then record rest { funcs = f ∷ rest.funcs }
    else record { funcs = f ∷ []; ok = false }

-- The loop over the symbols; `inside` is the function that is open, with no end yet.
unfoldable pub scan_symbols : (Func → Bool) → ℕ → Option Symbol → List Symbol → Outcome
unfolding is_valid after
scan_symbols translate size none [] = record { funcs = []; ok = true }
scan_symbols translate size (some f) [] =
    after translate (record { name = f.name; start = f.address; end = size })
      (record { funcs = []; ok = true })
scan_symbols translate size inside (sym ∷ symbols) =
    let skipped = scan_symbols translate size inside symbols in
    let opened = scan_symbols translate size (some sym) symbols in
    let closed : Outcome = elim inside [
      | none ↦ opened
      | some f ↦
          after translate (record { name = f.name; start = f.address; end = sym.address }) opened
    ] in
    if is_valid sym then closed else skipped

unfoldable pub translate_section : (Func → Bool) → Bool → ℕ → List Symbol → Outcome
unfolding scan_symbols
translate_section translate is_text size symbols =
    if is_text then scan_symbols translate size none symbols else record { funcs = []; ok = true }

-- `updateNextFuncAddr`: `funcs` is the map of the functions by their addresses, `addr` the address
-- in translation and `next_func` the field `_nextFuncAddr`.
unfoldable pub update_next_func_addr : {V : Type 0} → List (Item V) → ℕ → ℕ → ℕ → ℕ
unfolding lower_bound
update_next_func_addr funcs addr next_func next = elim (get_elem? funcs (lower_bound funcs next)) [
  | none ↦ next_func
  | some nf ↦
      if ltb nf.key addr
      then next_func
      else if ltb addr next_func && ltb next_func nf.key
      then next_func
      else nf.key
]
