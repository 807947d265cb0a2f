-- ===== src/Sbt/Relocation/Cursor/Laws.antt =====
-- The lookup of relocations, and a call's relocation at the call's two instructions.
use riscv_sbt.Prelude.{
  ℕ, ◌+◌, ◌≤◌, ◌<◌, ◌≡◌, refl, ap, ◌∙◌, arith, true, false, List, [], ◌∷◌, some,
}
use riscv_sbt.Sbt.Relocation.{call, proxy_call_hi, proxy_call_lo}
use riscv_sbt.Sbt.Relocation.Cursor.{
  Reloc, Cursor, is_relax, is_call, is_past, from_relocs, from_proxies, skip_relax, advance,
  advance_proxies, get_reloc, resolve, after_found, next_step, Found, add_proxy_call,
}

-- Every relocation lies behind an address, but for those to relax, whose place does not matter.
abbrev pub After : ℕ → List Reloc → Type 0
After b [] = Unit
After b (r ∷ rs) = (is_relax r.kind ≡ false → b < r.offset) × After b rs

skip_relax-past :
    (addr b : ℕ) (rs : List Reloc) → addr ≤ b → After b rs → is_past addr (skip_relax rs) ≡ true
unfolding skip_relax is_past
skip_relax-past addr b [] le h = refl
skip_relax-past addr b (r ∷ rs) le (h, hs) = ground (arith, h, skip_relax-past addr b rs le hs)

advance-skip_relax :
    (addr b : ℕ) (rs : List Reloc)
    → addr ≤ b
    → After b rs
    → advance addr (skip_relax rs) ≡ skip_relax rs
unfolding skip_relax advance
advance-skip_relax addr b [] le h = refl
advance-skip_relax addr b (r ∷ rs) le (h, hs) =
    ground (arith, h, advance-skip_relax addr b rs le hs)

-- The first relocation at the address that is asked for.
get_reloc-here :
    (r : Reloc) (rs ps : List Reloc)
    → is_relax r.kind ≡ false
    → After r.offset rs
    → advance_proxies r.offset ps ≡ ps
    → get_reloc r.offset (record { relocs = r ∷ rs; proxies = ps })
      ≡ some (some r, record { relocs = skip_relax rs; proxies = ps })
unfolding get_reloc
get_reloc-here r rs ps e h g =
    ground (arith, e, g, skip_relax-past r.offset r.offset rs (omega arith) h)

from_relocs-past :
    (addr : ℕ) (rs ps : List Reloc)
    → is_past addr rs ≡ true
    → from_relocs addr rs ps ≡ from_proxies addr rs ps
unfolding from_relocs is_past
from_relocs-past addr [] ps h = refl
from_relocs-past addr (r ∷ rs) ps h = ground (arith, h)

from_proxies-here :
    (p : Reloc) (rs ps : List Reloc)
    → is_past p.offset ps ≡ true
    → from_proxies p.offset rs (p ∷ ps) ≡ some (some p, record { relocs = rs; proxies = ps })
unfolding from_proxies
from_proxies-here p rs ps h = ground (arith, h)

advance_proxies-here : (p : Reloc) (ps : List Reloc) → advance_proxies p.offset (p ∷ ps) ≡ p ∷ ps
unfolding advance_proxies
advance_proxies-here p ps = ground arith

-- The first proxy at an address, with every relocation behind it.
get_reloc-proxy :
    (p : Reloc) (rs ps : List Reloc) (b : ℕ)
    → p.offset ≤ b
    → After b rs
    → is_past p.offset ps ≡ true
    → get_reloc p.offset (record { relocs = skip_relax rs; proxies = p ∷ ps })
      ≡ some (some p, record { relocs = skip_relax rs; proxies = ps })
unfolding get_reloc
get_reloc-proxy p rs ps b le h g =
    ap (λ (xs : List Reloc). from_relocs p.offset xs (advance_proxies p.offset (p ∷ ps)))
      (advance-skip_relax p.offset b rs le h)
    ∙ ap (from_relocs p.offset (skip_relax rs)) (advance_proxies-here p ps)
    ∙ from_relocs-past p.offset (skip_relax rs) (p ∷ ps) (skip_relax-past p.offset b rs le h)
    ∙ from_proxies-here p (skip_relax rs) ps g

-- The two parts of a call.
abbrev pub hi_of_call : Reloc → Reloc
hi_of_call r = record { kind = proxy_call_hi; offset = r.offset; hi_pc = some 0 }

abbrev pub lo_of_call : Reloc → Reloc
lo_of_call r = record { kind = proxy_call_lo; offset = r.offset + 4; hi_pc = some r.offset }

After-weaken : (a b : ℕ) (rs : List Reloc) → a ≤ b → After b rs → After a rs
After-weaken a b [] le h = tt
After-weaken a b (r ∷ rs) le (h, hs) = ((λ e. omega (arith, h e)), After-weaken a b rs le hs)

next_step-call :
    (again : Cursor → Found) (r : Reloc) (c : Cursor)
    → r.kind ≡ call
    → next_step again (some r, c) ≡ again (add_proxy_call r c)
unfolding next_step
next_step-call again r c e = rw e refl

-- With no relocation but those to relax between a call's two instructions, the call's relocation is
-- resolved at its address as the high part and at the next instruction as the low part that names
-- that address, and then the cursor stands at the next relocation, with no proxy left.
pub resolve-call :
    (r : Reloc) (rs : List Reloc)
    → r.kind ≡ call
    → After (r.offset + 4) rs
    → let c : Cursor = record { relocs = skip_relax rs; proxies = lo_of_call r ∷ [] } in
      (resolve 2 r.offset (record { relocs = r ∷ rs; proxies = [] })
        ≡ some (some (hi_of_call r), c))
      × (resolve 2 (r.offset + 4) c
          ≡ some (some (lo_of_call r), record { relocs = skip_relax rs; proxies = [] }))
unfolding resolve
resolve-call r rs e h = (
  ap (after_found (resolve 1 r.offset)) (
        get_reloc-here r rs [] (ap is_relax e)
          (After-weaken r.offset (r.offset + 4) rs (omega arith) h) refl)
      ∙ next_step-call (resolve 1 r.offset) r (record { relocs = skip_relax rs; proxies = [] }) e
      ∙ ap (after_found (resolve 0 r.offset)) (
          get_reloc-proxy (hi_of_call r) rs (lo_of_call r ∷ []) (r.offset + 4) (omega arith) h
            (ground arith)),
  ap (after_found (resolve 1 (r.offset + 4)))
      (get_reloc-proxy (lo_of_call r) rs [] (r.offset + 4) (omega arith) h refl),
)

-- Any other relocation is resolved as it is.
pub resolve-other :
    (r : Reloc) (rs : List Reloc)
    → is_relax r.kind ≡ false
    → is_call r.kind ≡ false
    → After r.offset rs
    → resolve 2 r.offset (record { relocs = r ∷ rs; proxies = [] })
      ≡ some (some r, record { relocs = skip_relax rs; proxies = [] })
unfolding resolve next_step
resolve-other r rs e k h =
    ap (after_found (resolve 1 r.offset)) (get_reloc-here r rs [] e h refl) ∙ rw k refl
