-- ===== src/Sbt/Function/Loop/Flow.antt =====
-- The control flow of basic blocks and of guest code.
use riscv_sbt.Prelude.{
  ℕ, zero, suc, ◌+◌, ◌*◌, ◌<◌, ◌≤◌, ◌≡◌, refl, ap, Bool, true, false, ◌&&◌, ◌||◌, not, ltb, leb,
  ◌==◌, if◌then◌else◌, arith, List, [], ◌∷◌, Option, none, some, Bool-cases, inl, inr, ◌⊎◌,
}
use riscv_sbt.Sbt.Map.{Item}
use riscv_sbt.Sbt.Function.Blocks.{Block, Terminator, unfinished, ret, br, cond_br}
use riscv_sbt.Sbt.Function.Jump.{Guest, straight, returning, jump, branch}
use riscv_sbt.Sbt.Function.Jump.Image.{ending, is_straight, run}
use riscv_sbt.Sbt.Function.Jump.Ready.{target_of}

unfoldable pub contains : List (Item ℕ) → ℕ → Bool
contains [] x = false
contains (y ∷ ys) x = y.key == x || contains ys x

-- What follows an instruction in its block: the next one, or the terminator.
unfoldable pub next_in : List (Item ℕ) → ℕ → Option ℕ → Option ℕ
next_in [] x last = none
next_in (y ∷ []) x last = if y.key == x then last else none
next_in (y ∷ z ∷ zs) x last = if y.key == x then some z.key else next_in (z ∷ zs) x last

unfoldable pub goes_to : Terminator → Bool → Option ℕ
goes_to unfinished taken = none
goes_to ret taken = none
goes_to (br t) taken = some t
goes_to (cond_br t f) taken = some (if taken then t else f)

-- The guest instruction behind the one at `x` in the control flow of the blocks, where `taken`
-- tells whether a branch is taken; none behind a return.
unfoldable pub leads_to : Block → ℕ → Bool → Option ℕ
unfolding next_in goes_to
leads_to b x taken = next_in b.instrs x (goes_to b.term taken)

-- The same for the guest code.
abbrev pub follows : Guest → ℕ → Bool → Option ℕ
follows (straight n) x taken = some (x + 4)
follows (returning n) x taken = none
follows (jump t) x taken = some t
follows (branch n t) x taken = some (if taken then t else x + 4)

pub contains-run :
    (decode : ℕ → Guest) (i n j : ℕ)
    → contains (run decode i n) (4 * j) ≡ (leb i j && ltb j (i + n))
unfolding contains run
contains-run decode i zero j = ground arith
contains-run decode i (suc n) j = ground (arith, contains-run decode (suc i) n j)

pub run-contains :
    (decode : ℕ → Guest) (i n x : ℕ)
    → contains (run decode i n) x ≡ true
    → (j : ℕ) × (x ≡ 4 * j) × (i ≤ j) × (j < i + n)
unfolding contains run
run-contains decode i zero x h = cc h
run-contains decode i (suc n) x h = elim (Bool-cases (4 * i == x)) [
  | inl e ↦ (i, ground (arith, e), omega arith, omega arith)
  | inr e ↦
      let (j, a, b, c) = run-contains decode (suc i) n x (ground (arith, e, h)) in
      (j, a, omega arith, omega arith)
]

pub next_in-run :
    (decode : ℕ → Guest) (i n j : ℕ) (last : Option ℕ)
    → i ≤ j
    → j < i + n
    → next_in (run decode i n) (4 * j) last ≡ (if suc j == i + n then last else some (4 * suc j))
unfolding next_in run
next_in-run decode i zero j last le lt = absurd (omega (arith, le, lt))
next_in-run decode i (suc zero) j last le lt = ground (arith, le, lt)
next_in-run decode i (suc (suc n)) j last le lt =
    ground (arith, le, lt, next_in-run decode (suc i) (suc n) j last)

pub no_instr : (x : ℕ) → contains [] x ≡ true → ⊥
unfolding contains
no_instr x h = cc h

pub goes_to-ending :
    (g : Guest) (next : ℕ) (closed taken : Bool) (x : ℕ)
    → next ≡ x + 4
    → goes_to (ending g next closed) taken
      ≡ (if is_straight g && not closed then none else follows g x taken)
unfolding goes_to
goes_to-ending (straight n) next true taken x e = ap (λ (t : ℕ). some t) e
goes_to-ending (straight n) next false taken x e = refl
goes_to-ending (returning n) next closed taken x e = refl
goes_to-ending (jump t) next closed taken x e = refl
goes_to-ending (branch n t) next closed taken x e = ap (λ (f : ℕ). some (if taken then t else f)) e

pub follows-straight :
    (g : Guest) (x : ℕ) (taken : Bool) → is_straight g ≡ true → follows g x taken ≡ some (x + 4)
follows-straight (straight n) x taken h = refl
follows-straight (returning n) x taken h = cc h
follows-straight (jump t) x taken h = cc h
follows-straight (branch n t) x taken h = cc h

-- Where the end of a block goes to: the target, or what follows.
pub goes_to-cases :
    (g : Guest) (next : ℕ) (closed taken : Bool) (y : ℕ)
    → goes_to (ending g next closed) taken ≡ some y
    → (target_of g ≡ some y) ⊎ ((y ≡ next) × ((closed ≡ true) ⊎ ((t : ℕ) × (target_of g ≡ some t))))
unfolding goes_to
goes_to-cases (straight n) next true taken y h = inr (ground (arith, h), inl refl)
goes_to-cases (straight n) next false taken y h = cc h
goes_to-cases (returning n) next closed taken y h = cc h
goes_to-cases (jump t) next closed taken y h = inl h
goes_to-cases (branch n t) next closed true y h = inl h
goes_to-cases (branch n t) next closed false y h = inr (ground (arith, h), inr (t, refl))
