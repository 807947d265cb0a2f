-- ===== src/Sbt/Section/Switch/Laws.antt =====
-- The translation of a function through all its switches.
use riscv_sbt.Prelude.{
  ℕ, zero, suc, ◌+◌, ◌*◌, ◌%◌, ◌<◌, ◌≤◌, ◌≡◌, ◌≢◌, ◌⊎◌, inl, inr, ◌&&◌, not, List, [], ◌∷◌, Option,
  none, some, ◌==◌, if◌then◌else◌, arith, sym, subst, Bool, true, false, Bool-cases, refl, ltb, ap,
  ◌∙◌,
}
use riscv_sbt.Sbt.Map.Laws.{IsSorted, lookup-upsert, upsert-IsSorted}
use riscv_sbt.Sbt.Section.Switch.{
  State, update_next, add_func, translate_inst, Stop, finished, switched, translate_instrs, Piece,
  with_piece, translate_from, translate_func,
}
use riscv_sbt.Sbt.Section.Switch.Near.{
  Known, Near, update_next-Near, update_next_kept, Called, translate_inst-Called,
}

-- The state when the translation turns to a function at `a`.
record IsAt (a : ℕ) (s : State) : Type 0 where
  sorted : IsSorted s.funcs
  aligned : (k : ℕ) → Known s.funcs k → k % 4 ≡ 0
  here : s.addr ≡ a
  next_here : s.next_func ≡ a

-- Near advances over an instruction at which no function starts.
advance : (c : ℕ) (s : State) → c % 4 ≡ 0 → Near c s → s.next_func ≢ c + 4 → Near (c + 4) s
advance c s al near ne = record {
  sorted = near.sorted;
  aligned = near.aligned;
  ahead = λ k known lt. let (a, b) = near.ahead k known (omega arith) in (past a, b);
  real = λ lt. near.real (omega arith);
}
  where
    past : c < s.next_func → c + 4 < s.next_func
    past a = ground (arith, near.aligned s.next_func (near.real a))

module _ (calls : ℕ → Option ℕ)
    (are_targets : (a t : ℕ) → calls a ≡ some t → (t % 4 ≡ 0) × (t ≢ a)) where
  -- The instructions from `addr` up to `e` hide no function: those known before, from `from` on, and
  -- those that they call ahead lie from `e` on, and stay known.
  record Passed (from addr e : ℕ) (s s' : State) : Type 0 where
    kept : (k : ℕ) → Known s.funcs k → Known s'.funcs k
    ahead : (k : ℕ) → Known s.funcs k → from ≤ k → e ≤ k
    called :
        (a t : ℕ)
        → addr ≤ a
        → a % 4 ≡ 0
        → a < e
        → calls a ≡ some t
        → a < t
        → (e ≤ t) × Known s'.funcs t

  nothing-Passed : (addr : ℕ) (s s' : State) → s.funcs ≡ s'.funcs → Passed addr addr addr s s'
  nothing-Passed addr s s' e = record {
    kept = λ k known. ground arith;
    ahead = λ k known le. le;
    called = λ a t le al lt f h. absurd (omega arith);
  }

  abbrev Good : ℕ → ℕ → ℕ → ℕ → State → Stop → Type 0
  Good from lo n addr s (finished e s') = (e ≡ addr + 4 * n) × Passed from addr e s s'
  Good from lo n addr s (switched a n' s') =
      (lo ≤ a) × (addr ≤ a) × (a + 4 * n' ≡ addr + 4 * n) × IsAt a s' × Passed from addr a s s'

  -- One instruction more in front.
  module _ (from addr : ℕ) (s s1 : State) (al : addr % 4 ≡ 0) (near : Near addr s)
      (clear : (k : ℕ) → Known s.funcs k → from ≤ k → addr < k)
      (step : Called addr (calls addr) s s1) where
    more-Passed :
        (e : ℕ) (s' : State)
        → addr + 4 ≤ e
        → Passed (addr + 4) (addr + 4) e s1 s'
        → Passed from addr e s s'
    more-Passed e s' le p = record {
      kept = λ k known. p.kept k (step.kept k known);
      ahead = λ k known h.
          p.ahead k (step.kept k known) (ground (arith, near.aligned k known, clear k known h));
      called = λ a t h al' lt f ht. elim (Bool-cases (a == addr)) [
        | inl same ↦ first a t (ground (arith, same)) f ht
        | inr other ↦ p.called a t (ground (arith, other)) al' lt f ht
      ];
    }
      where
        first : (a t : ℕ) → a ≡ addr → calls a ≡ some t → a < t → (e ≤ t) × Known s'.funcs t
        first a t same f ht =
            let known = step.named t (subst (λ (x : ℕ). calls x ≡ some t) same f) in
            (p.ahead t known (ground (arith, (are_targets a t f).0)), p.kept t known)

    more-Good :
        (lo n : ℕ) (stop : Stop)
        → Good (addr + 4) lo n (addr + 4) s1 stop
        → Good from lo (suc n) addr s stop
    more-Good lo n (finished e s') (len, p) = (omega arith, more-Passed e s' (omega arith) p)
    more-Good lo n (switched a n' s') (low, le, len, at, p) =
        (low, omega arith, omega arith, at, more-Passed a s' le p)

  turn-Called :
      (addr : ℕ) (s : State)
      → Near addr s
      → Called addr (calls addr) s (translate_inst (calls addr) (record s { addr = addr }))
  turn-Called addr s near =
      let step =
        translate_inst-Called (calls addr) (record s { addr = addr }) near (are_targets addr) in
      record { near = step.near; kept = step.kept; named = step.named }

  Good-if :
      (from lo n addr : ℕ) (s : State) (b : Bool) (x y : Stop)
      → (b ≡ true → Good from lo n addr s x)
      → (b ≡ false → Good from lo n addr s y)
      → Good from lo n addr s (if b then x else y)
  Good-if from lo n addr s true x y f g = f refl
  Good-if from lo n addr s false x y f g = g refl

  -- The loop behind the first instruction.
  loop-Good :
      (lo st n c : ℕ) (s : State)
      → st ≤ c
      → c % 4 ≡ 0
      → lo ≤ c + 4
      → Near c s
      → Good (c + 4) lo n (c + 4) s (translate_instrs calls st n (c + 4) s)
  unfolding translate_instrs
  loop-Good lo st zero c s h al le near = (omega arith, nothing-Passed (c + 4) s s refl)
  loop-Good lo st (suc n) c s h al le near =
      let addr = c + 4 in
      let s' = record s { addr = addr } in
      let s1 = translate_inst (calls addr) s' in
      Good-if addr lo (suc n) addr s (not (addr == st) && addr == s.next_func)
        (switched addr (suc n) s') (translate_instrs calls st n (addr + 4) s1)
        (λ e. (
          le,
          omega arith,
          refl,
          record {
            sorted = near.sorted;
            aligned = near.aligned;
            here = refl;
            next_here = ground (arith, e);
          },
          nothing-Passed addr s s' refl,
        ))
        (λ e.
          let near' = advance c s al near (not_next e) in
          let step = turn-Called addr s near' in
          more-Good addr addr s s1 (omega arith) near' (clear (not_next e)) step lo n
            (translate_instrs calls st n (addr + 4) s1)
            (loop-Good lo st n addr s1 (omega arith) (omega arith) (omega arith) step.near))
    where
      not_next : (not (c + 4 == st) && c + 4 == s.next_func) ≡ false → s.next_func ≢ c + 4
      not_next e same = ground (arith, e)

      clear : s.next_func ≢ c + 4 → (k : ℕ) → Known s.funcs k → c + 4 ≤ k → c + 4 < k
      clear ne k known le =
          let (a, b) = near.ahead k known (omega arith) in
          ground (arith, near.aligned s.next_func (near.real a))

  -- The whole loop: a function's own start is no place to switch.
  first-Good :
      (st n : ℕ) (s : State)
      → st % 4 ≡ 0
      → Near st s
      → Good (st + 4) (st + 4) n st s (translate_instrs calls st n st s)
  unfolding translate_instrs
  first-Good st zero s al near = (
    omega arith,
    record {
      kept = λ k known. known;
      ahead = λ k known le. omega arith;
      called = λ a t le al lt f h. absurd (omega arith);
    },
  )
  first-Good st (suc n) s al near =
      let s' = record s { addr = st } in
      let s1 = translate_inst (calls st) s' in
      Good-if (st + 4) (st + 4) (suc n) st s (not (st == st) && st == s.next_func)
        (switched st (suc n) s') (translate_instrs calls st n (st + 4) s1)
        (λ e. absurd (ground (arith, e)))
        (λ e.
          let step = turn-Called st s near in
          more-Good (st + 4) st s s1 al near (λ k known le. omega arith) step (st + 4) n
            (translate_instrs calls st n (st + 4) s1)
            (loop-Good (st + 4) st n st s1 (omega arith) al (omega arith) step.near))

-- The pieces follow one another from `b` to `e`.
abbrev pub Tiles : ℕ → ℕ → List Piece → Type 0
Tiles b e [] = b ≡ e
Tiles b e (p ∷ ps) = (p.start ≡ b) × Tiles p.end e ps

abbrev pub has_start : ℕ → List Piece → Bool
has_start k [] = false
has_start k (p ∷ ps) = if p.start == k then true else has_start k ps

has_start-cons :
    (p : Piece) (k : ℕ) (ps : List Piece) → has_start k ps ≡ true → has_start k (p ∷ ps) ≡ true
has_start-cons p k ps h = ground arith

-- The state from which a function at `st` may be translated.
pub record Entry (st : ℕ) (s : State) : Type 0 where
  pub sorted : IsSorted s.funcs
  pub aligned : (k : ℕ) → Known s.funcs k → k % 4 ≡ 0
  pub st_aligned : st % 4 ≡ 0
  pub not_past : s.addr ≤ st
  pub fresh : (s.next_func ≤ s.addr) ⊎ (st < s.next_func)
  pub real : s.addr < s.next_func → Known s.funcs s.next_func

IsAt-Entry : (a : ℕ) (s : State) → a % 4 ≡ 0 → IsAt a s → Entry a s
IsAt-Entry a s al at = record {
  sorted = at.sorted;
  aligned = at.aligned;
  st_aligned = al;
  not_past = omega (arith, at.here);
  fresh = inl (omega (arith, at.here, at.next_here));
  real = λ lt. absurd (omega (arith, at.here, at.next_here));
}

module _ (calls : ℕ → Option ℕ)
    (are_targets : (a t : ℕ) → calls a ≡ some t → (t % 4 ≡ 0) × (t ≢ a)) where
  -- The pieces tile the function, and each function within it that was known, or that a call before
  -- it names, is one of them.
  pub record IsComplete (st e : ℕ) (s : State) (ps : List Piece) : Type 0 where
    pub tiles : Tiles st e ps
    pub head : has_start st ps ≡ true
    pub known : (k : ℕ) → Known s.funcs k → st < k → k < e → has_start k ps ≡ true
    pub called :
        (a t : ℕ) → st ≤ a → a % 4 ≡ 0 → a < t → t < e → calls a ≡ some t → has_start t ps ≡ true

  abbrev Completes : ℕ → ℕ → State → Option (List Piece) → Type 0
  Completes st e s o = (ps : List Piece) × (o ≡ some ps) × IsComplete st e s ps

  abbrev after_stop : (ℕ → ℕ → State → Option (List Piece)) → ℕ → Stop → Option (List Piece)
  after_stop rest st stop = elim stop [
    | finished e s' ↦ some (record { start = st; end = e } ∷ [])
    | switched a n' s' ↦ with_piece (record { start = st; end = a }) (rest n' a s')
  ]

  -- A piece in front of the pieces of the next function.
  next-Completes :
      (st a e : ℕ) (s s' : State) (o : Option (List Piece))
      → st % 4 ≡ 0
      → ((k : ℕ) → Known s.funcs k → k % 4 ≡ 0)
      → Passed calls are_targets (st + 4) st a s s'
      → Completes a e s' o
      → Completes st e s (with_piece (record { start = st; end = a }) o)
  next-Completes st a e s s' none al als p (ps, eq, c) = absurd (cc eq)
  next-Completes st a e s s' (some qs) al als p (ps, eq, c) =
      let piece : Piece = record { start = st; end = a } in
      let more = λ (k : ℕ) (h : has_start k ps ≡ true). has_start-cons piece k ps h in
      let from_next : (k : ℕ) → a ≤ k → Known s'.funcs k → k < e → has_start k (piece ∷ ps) ≡ true =
        λ k le known lt. elim (Bool-cases (a == k)) [
          | inl same ↦
              more k (subst (λ (x : ℕ). has_start x ps ≡ true) (ground (arith, same)) c.head)
          | inr other ↦ more k (c.known k known (ground (arith, other)) lt)
        ] in
      (
        piece ∷ ps,
        ap (with_piece piece) eq,
        record {
          tiles = (refl, c.tiles);
          head = ground arith;
          known = λ k known lt lt'.
              from_next k (p.ahead k known (ground (arith, als k known))) (p.kept k known) lt';
          called = λ b t le al' lt lt' f. elim (Bool-cases (ltb b a)) [
            | inl here ↦
                let (h, known) = p.called b t le al' (ground (arith, here)) f lt in
                from_next t h known lt'
            | inr later ↦ more t (c.called b t (ground (arith, later)) al' lt lt' f)
          ];
        },
      )

  stop-Completes :
      (rest : ℕ → ℕ → State → Option (List Piece)) (n st : ℕ) (s : State) (stop : Stop)
      → st % 4 ≡ 0
      → ((k : ℕ) → Known s.funcs k → k % 4 ≡ 0)
      → Good calls are_targets (st + 4) (st + 4) n st s stop
      → ((n' a : ℕ) (s' : State) → n' < n → Entry a s' → Completes a (a + 4 * n') s' (rest n' a s'))
      → Completes st (st + 4 * n) s (after_stop rest st stop)
  stop-Completes rest n st s (finished e s') al als (len, p) ih = (
    record { start = st; end = e } ∷ [],
    refl,
    record {
      tiles = (refl, len);
      head = ground arith;
      known =
          λ k known lt lt'. absurd (omega (arith, p.ahead k known (ground (arith, als k known))));
      called =
          λ a t le al' lt lt' f. absurd (omega (arith, (p.called a t le al' (omega arith) f lt).0));
    },
  )
  stop-Completes rest n st s (switched a n' s') al als (low, le, len, at, p) ih =
      next-Completes st a (st + 4 * n) s s' (rest n' a s') al als p (
        subst (λ (x : ℕ). Completes a x s' (rest n' a s')) len
          (ih n' a s' (omega arith) (IsAt-Entry a s' (omega arith) at)))

  translate_from-Completes :
      (fuel n st : ℕ) (s : State)
      → n < fuel
      → Entry st s
      → Completes st (st + 4 * n) s (translate_from calls fuel n st s)
  unfolding translate_from update_next
  translate_from-Completes zero n st s lt entry = absurd (omega arith)
  translate_from-Completes (suc fuel) n st s lt entry =
      let s0 = update_next (st + 4) s in
      let near =
        update_next-Near st s entry.sorted entry.aligned entry.st_aligned entry.not_past entry.fresh
          entry.real in
      let (ps, eq, c) =
        stop-Completes (translate_from calls fuel) n st s0 (translate_instrs calls st n st s0)
          entry.st_aligned near.aligned (first-Good calls are_targets st n s0 entry.st_aligned near)
          (λ n' a s' less at. translate_from-Completes fuel n' a s' (omega arith) at) in
      (ps, eq, record { tiles = c.tiles; head = c.head; known = c.known; called = c.called })

  Entry-add_func : (st : ℕ) (s : State) → Entry st s → Entry st (add_func st s)
  unfolding add_func
  Entry-add_func st s entry =
      let at = λ (k : ℕ). lookup-upsert s.funcs st k tt entry.sorted in
      record {
        sorted = upsert-IsSorted s.funcs st tt entry.sorted;
        aligned = λ k known. elim (Bool-cases (st == k)) [
          | inl same ↦ ground (arith, same, entry.st_aligned)
          | inr other ↦ entry.aligned k (sym (rw other at (at k)) ∙ known)
        ];
        st_aligned = entry.st_aligned;
        not_past = entry.not_past;
        fresh = entry.fresh;
        real = λ lt. ground (arith, at s.next_func, entry.real lt);
      }

  -- Of a function with `n` instructions, in code whose calls go to other instructions: with fuel for
  -- one function more than there are instructions, the translation comes to the end of it through
  -- all the functions that it meets. These follow one another without a gap up to the end, and each
  -- function inside that was known at the start, or that a call before it names, becomes one of
  -- them. This holds if the address of the next function that the section holds is behind the last
  -- instruction translated, or ahead of the start and that of a known function.
  pub translate_func-IsComplete :
      (fuel n st : ℕ) (s : State)
      → n < fuel
      → Entry st s
      → (ps : List Piece) × (translate_func calls fuel n st s ≡ some ps)
        × IsComplete st (st + 4 * n) s ps
  unfolding translate_func add_func
  translate_func-IsComplete fuel n st s lt entry =
      let (ps, eq, c) =
        translate_from-Completes fuel n st (add_func st s) lt (Entry-add_func st s entry) in
      let at = λ (k : ℕ). lookup-upsert s.funcs st k tt entry.sorted in
      (
        ps,
        eq,
        record {
          tiles = c.tiles;
          head = c.head;
          known = λ k known lt lt'. c.known k (ground (arith, at k)) lt lt';
          called = c.called;
        },
      )

next_kept :
    (st : ℕ) (s : State)
    → IsSorted s.funcs
    → s.addr < st
    → s.next_func ≡ st
    → (update_next (st + 4) (add_func st s)).next_func ≡ st
unfolding add_func
next_kept st s is_sorted before here =
    update_next_kept (st + 4) (add_func st s) (upsert-IsSorted s.funcs st tt is_sorted)
      (omega (arith, here)) (omega (arith, here))
    ∙ here

module _ (calls : ℕ → Option ℕ) (no_calls : (a : ℕ) → calls a ≡ none) where
  one_piece :
      (st n c : ℕ) (s : State)
      → st ≤ c
      → s.next_func ≡ st
      → (s' : State) × (translate_instrs calls st n (c + 4) s ≡ finished (c + 4 + 4 * n) s')
  unfolding translate_instrs translate_inst
  one_piece st zero c s h e = (s, ap (λ x. finished x s) (omega arith))
  one_piece st (suc n) c s h e =
      let (s', p) = one_piece st n (c + 4) (record s { addr = c + 4 }) (omega arith) e in
      (s', ground (arith, no_calls (c + 4), p))

  first_piece :
      (st n : ℕ) (s : State)
      → s.next_func ≡ st
      → (s' : State) × (translate_instrs calls st (suc n) st s ≡ finished (st + 4 * suc n) s')
  unfolding translate_instrs translate_inst
  first_piece st n s e =
      let (s', p) = one_piece st n st (record s { addr = st }) (omega arith) e in
      (s', ground (arith, no_calls st, p))

  -- A function that a call made known before its turn, so that the section still holds its own
  -- address as that of the next function, while the translation stands before it: without calls
  -- inside, it is translated as one piece up to its end, and a function that is known within it
  -- becomes none.
  pub translate_func_misses :
      (fuel n st k : ℕ) (s : State)
      → IsSorted s.funcs
      → s.addr < st
      → s.next_func ≡ st
      → Known s.funcs k
      → st < k
      → k < st + 4 * suc n
      → (ps : List Piece) × (translate_func calls (suc fuel) (suc n) st s ≡ some ps)
        × Tiles st (st + 4 * suc n) ps
        × (has_start k ps ≡ false)
  unfolding translate_func translate_from
  translate_func_misses fuel n st k s is_sorted before here known lt lt' =
      let s0 = add_func st s in
      let kept = next_kept st s is_sorted before here in
      let (s', p) = first_piece st n (update_next (st + 4) s0) kept in
      (
        record { start = st; end = st + 4 * suc n } ∷ [],
        ground (arith, p),
        (refl, refl),
        ground arith,
      )
