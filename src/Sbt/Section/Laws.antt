-- ===== src/Sbt/Section/Laws.antt =====
-- The functions of a section against its symbols.
use riscv_sbt.Prelude.{
  ℕ, ◌+◌, ◌≤◌, ◌≡◌, refl, arith, Bool, true, ◌&&◌, List, [], ◌∷◌, Option, none, some, ltb, leb,
  if◌then◌else◌,
}
use riscv_sbt.Sbt.Section.{Symbol, Func, is_valid, scan_symbols, translate_section, after}

-- Symbols in the order of their addresses, from `b` on and up to the size of the section.
abbrev pub AreOrdered : ℕ → ℕ → List Symbol → Type 0
AreOrdered b size [] = b ≤ size
AreOrdered b size (sym ∷ symbols) = (b ≤ sym.address) × AreOrdered sym.address size symbols

-- How many functions an address lies in.
pub holders : ℕ → List Func → ℕ
holders a [] = 0
holders a (f ∷ fs) = (if leb f.start a && ltb a f.end then 1 else 0) + holders a fs

-- The address of the first delimiter, or else the size.
pub first_start : ℕ → List Symbol → ℕ
unfolding is_valid
first_start size [] = size
first_start size (sym ∷ symbols) = if is_valid sym then sym.address else first_start size symbols

first_start-le :
    (b size : ℕ) (symbols : List Symbol)
    → AreOrdered b size symbols
    → (b ≤ first_start size symbols) × (first_start size symbols ≤ size)
unfolding first_start
first_start-le b size [] h = (h, ground arith)
first_start-le b size (sym ∷ symbols) (h, hs) =
    let (l, u) = first_start-le sym.address size symbols hs in (ground arith, ground arith)

address-le : (b size : ℕ) (symbols : List Symbol) → AreOrdered b size symbols → b ≤ size
address-le b size symbols h = let (l, u) = first_start-le b size symbols h in omega arith

AreOrdered-down :
    (b c size : ℕ) (symbols : List Symbol)
    → b ≤ c
    → AreOrdered c size symbols
    → AreOrdered b size symbols
AreOrdered-down b c size [] h hs = ground arith
AreOrdered-down b c size (sym ∷ symbols) h (hs, ht) = (omega arith, ht)

module _ (translate : Func → Bool) (all_ok : (f : Func) → translate f ≡ true) where
  inside_holders :
      (size a : ℕ) (f : Symbol) (symbols : List Symbol)
      → AreOrdered f.address size symbols
      → holders a (scan_symbols translate size (some f) symbols).funcs
        ≡ (if leb f.address a && ltb a size then 1 else 0)
  unfolding scan_symbols holders after
  inside_holders size a f [] h =
      ground (arith, all_ok (record { name = f.name; start = f.address; end = size }))
  inside_holders size a f (sym ∷ symbols) (h, hs) =
      let le = address-le sym.address size symbols hs in
      let ih1 = inside_holders size a sym symbols hs in
      let ih2 = inside_holders size a f symbols (AreOrdered-down _ _ size symbols h hs) in
      ground (arith, all_ok (record { name = f.name; start = f.address; end = sym.address }))

  outside_holders :
      (b size a : ℕ) (symbols : List Symbol)
      → AreOrdered b size symbols
      → holders a (scan_symbols translate size none symbols).funcs
        ≡ (if leb (first_start size symbols) a && ltb a size then 1 else 0)
  unfolding scan_symbols holders first_start
  outside_holders b size a [] h = ground arith
  outside_holders b size a (sym ∷ symbols) (h, hs) =
      let ih1 = inside_holders size a sym symbols hs in
      let ih2 = outside_holders sym.address size a symbols hs in ground arith

  scan_symbols-ok :
      (size : ℕ) (inside : Option Symbol) (symbols : List Symbol)
      → (scan_symbols translate size inside symbols).ok ≡ true
  unfolding scan_symbols after
  scan_symbols-ok size none [] = refl
  scan_symbols-ok size (some f) [] =
      ground (arith, all_ok (record { name = f.name; start = f.address; end = size }))
  scan_symbols-ok size none (sym ∷ symbols) =
      let ih1 = scan_symbols-ok size (some sym) symbols in
      let ih2 = scan_symbols-ok size none symbols in ground arith
  scan_symbols-ok size (some f) (sym ∷ symbols) =
      let ih1 = scan_symbols-ok size (some sym) symbols in
      let ih2 = scan_symbols-ok size (some f) symbols in
      ground (arith, all_ok (record { name = f.name; start = f.address; end = sym.address }))

-- Of a text section whose symbols come in the order of their addresses, none beyond its size, and
-- where no function fails to translate, the translation succeeds and every address from the first
-- delimiter up to the size lies in exactly one of the functions, every other in none.
pub translate_section-tiles :
    (translate : Func → Bool)
    → ((f : Func) → translate f ≡ true)
    → (size : ℕ) (symbols : List Symbol) → AreOrdered 0 size symbols
    → ((translate_section translate true size symbols).ok ≡ true)
      × ((a : ℕ)
          → holders a (translate_section translate true size symbols).funcs
            ≡ (if leb (first_start size symbols) a && ltb a size then 1 else 0))
unfolding translate_section
translate_section-tiles translate all_ok size symbols h = (
  scan_symbols-ok translate all_ok size none symbols,
  λ a. outside_holders translate all_ok 0 size a symbols h,
)
