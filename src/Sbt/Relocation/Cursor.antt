-- ===== src/Sbt/Relocation/Cursor.antt =====
-- The cursor of `SBTRelocation`, sbt/Relocation.cpp: the relocations of a section in order, and the
-- queue of proxies that a call adds. The head of a list is `_cur` or `_curP`; an empty list is null.
pub mod Laws
use riscv_sbt.Prelude.{
  ℕ, zero, suc, ◌+◌, Bool, true, false, not, ◌||◌, List, [], ◌∷◌, ◌++◌, Option, none, some, ltb,
  ◌==◌, if◌then◌else◌,
}
use riscv_sbt.Sbt.Ir.{Llvm, Value, symbol}
use riscv_sbt.Sbt.Relocation.{RelocType, call, relax, proxy_call_hi, proxy_call_lo, rel_fn}

-- `hi_pc` is the member of a `ProxyRelocation`, zero where `setHiPC` was not called; a relocation of
-- the ELF file, an `LLVMRelocation`, has none.
pub record Reloc : Type 0 where
  pub kind : RelocType
  pub offset : ℕ
  pub hi_pc : Option ℕ

pub record Cursor : Type 0 where
  pub relocs : List Reloc
  pub proxies : List Reloc

abbrev pub is_relax : RelocType → Bool
is_relax relax = true
is_relax _ = false

abbrev pub is_call : RelocType → Bool
is_call call = true
is_call _ = false

-- The end of `nextReloc`
unfoldable pub skip_relax : List Reloc → List Reloc
skip_relax [] = []
skip_relax (r ∷ rs) = let rest = skip_relax rs in if is_relax r.kind then rest else r ∷ rs

-- `while (_cur && addr > _cur->offset()) nextReloc();`
unfoldable pub advance : ℕ → List Reloc → List Reloc
advance addr [] = []
advance addr (r ∷ rs) =
    let rest = advance addr rs in if is_relax r.kind || ltb r.offset addr then rest else r ∷ rs

-- The same for the proxies, none of which is to relax.
unfoldable pub advance_proxies : ℕ → List Reloc → List Reloc
advance_proxies addr [] = []
advance_proxies addr (r ∷ rs) =
    let rest = advance_proxies addr rs in if ltb r.offset addr then rest else r ∷ rs

-- `!next || next->offset() != addr`
is_past : ℕ → List Reloc → Bool
is_past addr [] = true
is_past addr (r ∷ rs) = not (r.offset == addr)

-- What was found at the address, and the cursor behind it; `none` is a failed assertion.
abbrev Found : Type 0
Found = Option (Option Reloc × Cursor)

from_proxies : ℕ → List Reloc → List Reloc → Found
unfolding is_past
from_proxies addr rs [] = some (none, record { relocs = rs; proxies = [] })
from_proxies addr rs (p ∷ ps) =
    if p.offset == addr
    then if is_past addr ps then some (some p, record { relocs = rs; proxies = ps }) else none
    else some (none, record { relocs = rs; proxies = p ∷ ps })

from_relocs : ℕ → List Reloc → List Reloc → Found
unfolding is_past from_proxies skip_relax
from_relocs addr [] ps = from_proxies addr [] ps
from_relocs addr (r ∷ rs) ps =
    if r.offset == addr
    then if is_past addr (skip_relax rs)
      then some (some r, record { relocs = skip_relax rs; proxies = ps })
      else none
    else from_proxies addr (r ∷ rs) ps

-- `getReloc`
unfoldable pub get_reloc : ℕ → Cursor → Found
unfolding advance advance_proxies from_relocs
get_reloc addr c = from_relocs addr (advance addr c.relocs) (advance_proxies addr c.proxies)

-- `addProxyReloc` for a call: the two parts, at its address and at the instruction behind it.
unfoldable pub add_proxy_call : Reloc → Cursor → Cursor
add_proxy_call r c = record {
  relocs = c.relocs;
  proxies =
      c.proxies
      ++ record { kind = proxy_call_hi; offset = r.offset; hi_pc = some 0 }
        ∷ record { kind = proxy_call_lo; offset = r.offset + 4; hi_pc = some r.offset }
        ∷ [];
}

-- What `handleRelocation` does with the relocation found: that of a call is replaced by its proxies,
-- and the lookup, `again`, starts anew.
next_step : (Cursor → Found) → Option Reloc × Cursor → Found
unfolding add_proxy_call
next_step again (none, c) = some (none, c)
next_step again (some r, c) =
    let found = again (add_proxy_call r c) in if is_call r.kind then found else some (some r, c)

abbrev after_found : (Cursor → Found) → Found → Found
unfolding next_step
after_found again none = none
after_found again (some f) = next_step again f

-- The relocation that `handleRelocation` resolves at an address, the recursion on fuel.
unfoldable pub resolve : ℕ → ℕ → Cursor → Found
unfolding get_reloc next_step
resolve zero addr c = none
resolve (suc k) addr c = after_found (resolve k addr) (get_reloc addr c)

-- What `handleRelocation` answers at an address: null, the constant, or nothing defined. The symbol's
-- address is an argument.
pub data Handled : Type 0 where
  no_relocation : Cursor → Handled
  constant : Value → Cursor → Handled
  undefined : Handled

abbrev pub answered : Cursor → Option Value → Handled
answered c none = undefined
answered c (some v) = constant v c

unfoldable pub apply_rel_fn : Llvm → ℕ → ℕ → Found → Handled
unfolding rel_fn
apply_rel_fn L addr s none = undefined
apply_rel_fn L addr s (some (none, c)) = no_relocation c
apply_rel_fn L addr s (some (some r, c)) = answered c (rel_fn L r.kind addr r.hi_pc (symbol 32 s))

unfoldable pub handle_relocation : Llvm → ℕ → ℕ → Cursor → Handled
unfolding resolve apply_rel_fn
handle_relocation L addr s c = apply_rel_fn L addr s (resolve 2 addr c)
