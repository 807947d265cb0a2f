-- ===== src/Sbt/Function/Loop/Stops.antt =====
-- The loop of `translateInstrs` as a run of turns, from the first block of a function on.
use riscv_sbt.Prelude.{
  ℕ, zero, suc, ◌+◌, ◌*◌, ◌<◌, ◌≤◌, ◌≡◌, refl, ap, ◌∙◌, Bool, true, false, arith, [], Option, some,
  Bool-cases, ◌==◌, inl, inr, ◌⊎◌,
}
use riscv_sbt.Sbt.Map.Neighbours.{lookup-empty}
use riscv_sbt.Sbt.Function.Blocks.{Block}
use riscv_sbt.Sbt.Function.Jump.{Guest, State}
use riscv_sbt.Sbt.Function.Loop.{
  add_turn, translate_turn, enter_bb, turn, loop, start, translate_instrs,
}
use riscv_sbt.Sbt.Function.Jump.Scan.{ins}
use riscv_sbt.Sbt.Function.Jump.Image.{new_bb-IsImage}
use riscv_sbt.Sbt.Function.Jump.Ready.{IsReady, IsBetween}
use riscv_sbt.Sbt.Function.Loop.Enter.{enter_bb-IsReady}
use riscv_sbt.Sbt.Function.Loop.Work.{IsCode, translate_inst-Outcome}
use riscv_sbt.Sbt.Function.Loop.Turn.{worked-IsBetween}

module _ (decode : ℕ → Guest) where
  module _ (s : ℕ) where
    -- The turn, from where the block of `a` is entered.
    ready_turn :
        (S : ℕ → Bool) (a : ℕ) (o : Bool) (c : ℕ) (st st' : State)
        → enter_bb (4 * a) st ≡ some st'
        → IsReady decode s S a o c st'
        → ((j : ℕ) → s ≤ j → j < suc a → IsCode decode s j)
        → (S' : ℕ → Bool) × (c' : ℕ) × (st'' : State) × (turn decode (4 * a) st ≡ some st'')
          × IsBetween decode s S' (suc a) c' st''
    unfolding turn translate_turn add_turn
    ready_turn S a o c st st' e ready code =
        let (S', c', st1, e1, starts, worked, first) =
          translate_inst-Outcome decode s S a o c st' ready code (decode (4 * a)) refl in
        let (st2, e2, between) =
          worked-IsBetween decode s S' a o c' st1 ready.reached starts worked first in
        (
          S',
          c',
          st2,
          ap (translate_turn decode (4 * a)) e ∙ (ap (add_turn (4 * a)) e1 ∙ e2),
          between,
        )

    -- A run of the loop that stops in good order.
    abbrev pub Stops : (ℕ → Bool) → ℕ → ℕ → Option (State × ℕ) → Type 0
    Stops is_switch a n r =
        (b : ℕ) × (S : ℕ → Bool) × (c : ℕ) × (st : State) × (r ≡ some (st, 4 * b))
        × (a < b)
        × (b ≤ a + n)
        × ((b ≡ a + n) ⊎ (is_switch (4 * b) ≡ true))
        × ((j : ℕ) → a < j → j < b → is_switch (4 * j) ≡ false)
        × IsBetween decode s S b c st

    further :
        (is_switch : ℕ → Bool) (a b n : ℕ)
        → (b ≡ suc a + n) ⊎ (is_switch (4 * b) ≡ true)
        → (b ≡ a + suc n) ⊎ (is_switch (4 * b) ≡ true)
    further is_switch a b n (inl e) = inl (omega (arith, e))
    further is_switch a b n (inr e) = inr e

    passed :
        (is_switch : ℕ → Bool) (a b : ℕ)
        → is_switch (4 * a + 4) ≡ false
        → ((j : ℕ) → suc a < j → j < b → is_switch (4 * j) ≡ false)
        → (j : ℕ) → a < j
        → j < b
        → is_switch (4 * j) ≡ false
    passed is_switch a b h rest j x y = elim (Bool-cases (j == suc a)) [
      | inl e ↦ ap is_switch {x = 4 * j} {y = 4 * a + 4} (ground (arith, e)) ∙ h
      | inr e ↦ rest j (ground (arith, e, x)) y
    ]

    -- The loop goes on behind a turn, or has come to its end.
    loop_after :
        (is_switch : ℕ → Bool) (n a : ℕ) (S : ℕ → Bool) (c : ℕ) (st st' : State)
        → turn decode (4 * a) st ≡ some st'
        → IsBetween decode s S (suc a) c st'
        → (n ≡ 0) ⊎ Stops is_switch (suc a) n (loop decode is_switch n (4 * suc a) st')
        → Stops is_switch a (suc n) (loop decode is_switch (suc n) (4 * a) st)
    unfolding loop
    loop_after is_switch n a S c st st' e between rest =
        let next =
          ap (λ (j : ℕ). loop decode is_switch n j st') {x = 4 * a + 4} {y = 4 * suc a}
            (omega arith) in
        elim (Bool-cases (is_switch (4 * a + 4))) [
          | inl h ↦ (
            suc a,
            S,
            c,
            st',
            ground (arith, e, h),
            omega arith,
            omega arith,
            inr (ap is_switch {x = 4 * suc a} {y = 4 * a + 4} (omega arith) ∙ h),
            λ j x y. absurd (omega (arith, x, y)),
            between,
          )
          | inr h ↦ elim rest [
            | inl z ↦ (
              suc a,
              S,
              c,
              st',
              ground (arith, e, h, next, ap (λ (m : ℕ). loop decode is_switch m (4 * suc a) st') z),
              omega arith,
              omega arith,
              inl (omega (arith, z)),
              λ j x y. absurd (omega (arith, x, y)),
              between,
            )
            | inr (b, S', c', st'', e', le, ge, why, no_switch, between') ↦ (
              b,
              S',
              c',
              st'',
              ground (arith, e, h, next ∙ e'),
              omega arith,
              omega arith,
              further is_switch a b n why,
              passed is_switch a b h no_switch,
              between',
            )
          ]
        ]

    loop-Stops :
        (is_switch : ℕ → Bool) (n a : ℕ) (S : ℕ → Bool) (c : ℕ) (st : State)
        → IsBetween decode s S a c st
        → ((j : ℕ) → s ≤ j → j < a + n → IsCode decode s j)
        → (n ≡ 0) ⊎ Stops is_switch a n (loop decode is_switch n (4 * a) st)
    loop-Stops is_switch zero a S c st between code = inl refl
    loop-Stops is_switch (suc n) a S c st between code =
        let (S1, o1, c1, st1, e1, ready) = enter_bb-IsReady decode s S a c st between in
        let (S2, c2, st2, e2, between2) =
          ready_turn S1 a o1 c1 st st1 e1 ready (λ j x y. code j x (omega arith)) in
        inr (
          loop_after is_switch n a S2 c2 st st2 e2 between2
            (loop-Stops is_switch n (suc a) S2 c2 st2 between2 (λ j x y. code j x (omega arith))))

    start-IsReady : IsReady decode s (ins s (λ j. false)) s true s (start (4 * s))
    unfolding start
    start-IsReady = record {
      starts = record {
        entry = ground arith;
        low = λ j e. ground (arith, e);
        goals = λ j t x y e. absurd (omega (arith, x, y));
        ends = λ j x y e. absurd (omega (arith, x, y));
      };
      img =
          new_bb-IsImage decode (λ j. false) s true [] s
            (
              tt,
              (λ i. lookup-empty (4 * i)),
              (λ x v e. absurd (cc (e, lookup-empty {V = Block} x))),
            )
            (omega arith);
      at = refl;
      cur = (refl, ground arith);
      reached = omega arith;
      within = λ e. absurd (cc e);
      first = λ j le e free. absurd (ground (arith, le, e));
    }

    enter_bb-start : enter_bb (4 * s) (start (4 * s)) ≡ some (start (4 * s))
    unfolding enter_bb start
    enter_bb-start = refl

    pub translate_instrs-Stops :
        (is_switch : ℕ → Bool) (n : ℕ)
        → 0 < n
        → ((j : ℕ) → s ≤ j → j < s + n → IsCode decode s j)
        → Stops is_switch s n (translate_instrs decode is_switch n (4 * s))
    unfolding translate_instrs
    translate_instrs-Stops is_switch zero h code = absurd (omega (arith, h))
    translate_instrs-Stops is_switch (suc n) h code =
        let (S2, c2, st2, e2, between2) =
          ready_turn (ins s (λ j. false)) s true s (start (4 * s)) (start (4 * s)) enter_bb-start
            start-IsReady (λ j x y. code j x (omega arith)) in
        loop_after is_switch n s S2 c2 (start (4 * s)) st2 e2 between2
          (loop-Stops is_switch n (suc s) S2 c2 st2 between2 (λ j x y. code j x (omega arith)))
