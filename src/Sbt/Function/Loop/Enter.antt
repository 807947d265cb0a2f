-- ===== src/Sbt/Function/Loop/Enter.antt =====
-- The part of a turn of `translateInstrs` that enters the next block.
use riscv_sbt.Prelude.{
  ℕ, ◌-◌, ◌*◌, ◌≤◌, ◌≡◌, ◌≢◌, refl, ap, ◌∙◌, Bool, true, false, ◌==◌, arith, some, Bool-cases, inl,
  inr,
}
use riscv_sbt.Sbt.Function.Jump.{Guest, State}
use riscv_sbt.Sbt.Function.Loop.{with_bb, branch_to, enter_after, enter_bb}
use riscv_sbt.Sbt.Function.Jump.Scan.{ins, stop-ins}
use riscv_sbt.Sbt.Function.Jump.Image.{is_straight}
use riscv_sbt.Sbt.Function.Jump.Moves.{IsCurrent}
use riscv_sbt.Sbt.Function.Jump.Ready.{
  IsStarts, IsReady, IsBetween, with_bb-IsImage, branch_to-IsImage, after_enter-IsFirst,
}

module _ (decode : ℕ → Guest) (s : ℕ) where
  pub ins-IsStarts :
      (S : ℕ → Bool) (a t : ℕ) → s ≤ t → IsStarts decode s S a → IsStarts decode s (ins t S) a
  ins-IsStarts S a t le h = record {
    entry = ground (arith, h.entry);
    low = λ j at. ground (arith, at, h.low j);
    goals = λ j u a b g.
        let (q, e, x, y) = h.goals j u a b g in (q, e, ground (arith, x), ground (arith, y));
    ends = λ j a b g. ground (arith, h.ends j a b g);
  }

  enter_yes :
      (st : State) (a : ℕ)
      → 1 ≤ a
      → st.next_bb ≡ 4 * a
      → enter_bb (4 * a) st ≡ enter_after (4 * a) (branch_to (4 * a) (with_bb (4 * a) st))
  unfolding enter_bb
  enter_yes st a h e = ground (arith, e)

  enter_no : (st : State) (a : ℕ) → st.next_bb ≢ 4 * a → enter_bb (4 * a) st ≡ some st
  unfolding enter_bb
  enter_no st a h = ground (arith, h)

  -- The block of `a` is entered.
  enter_new :
      (S : ℕ → Bool) (a c : ℕ) (st : State)
      → IsBetween decode s S a c st
      → st.next_bb ≡ 4 * a
      → (st' : State) × (enter_bb (4 * a) st ≡ some st') × IsReady decode s (ins a S) a true a st'
  unfolding enter_after
  enter_new S a c st h next =
      let (m, e, img) = with_bb-IsImage decode S a st h.img in
      let cur : IsCurrent (ins a S) a false c =
        (h.cur.0, ground (arith, h.cur), ground (arith, stop-ins S a c a, h.cur)) in
      let (m', e', img') =
        branch_to-IsImage decode (ins a S) a c (record st { bb_map = m }) img cur h.at in
      let (n, e'', first) =
        after_enter-IsFirst decode (ins a S) a true (record st { bb_map = m' }) img' in
      (
        record st { bb_map = m'; current = 4 * a; next_bb = n },
        enter_yes st a (omega (arith, h.reached)) next
            ∙ (ap (λ (x : State). enter_after (4 * a) (branch_to (4 * a) x)) e
                ∙ (ap (enter_after (4 * a)) e' ∙ ap (λ (x : State). some x) e'')),
        record {
          starts = ins-IsStarts S a a (omega (arith, h.reached)) h.starts;
          img = img';
          at = refl;
          cur = (refl, ground arith);
          reached = omega (arith, h.reached);
          within = λ f. absurd (cc f);
          first = first;
        },
      )

  -- There is no block to enter.
  enter_none :
      (S : ℕ → Bool) (a c : ℕ) (st : State)
      → IsBetween decode s S a c st
      → st.next_bb ≢ 4 * a
      → (enter_bb (4 * a) st ≡ some st) × IsReady decode s S a false c st
  enter_none S a c st h next =
      let str : is_straight (decode (4 * (a - 1))) ≡ true =
        elim (Bool-cases (is_straight (decode (4 * (a - 1))))) [
          | inl e ↦ e
          | inr e ↦ absurd (next (h.ended e))
        ] in
      let fresh : S a ≡ false = elim (Bool-cases (S a)) [
        | inl e ↦
            absurd (next (h.first str a (omega arith) e (λ i x y. absurd (omega (arith, x, y)))))
        | inr e ↦ e
      ] in
      (
        enter_no st a next,
        record {
          starts = h.starts;
          img = h.img;
          at = h.at;
          cur = h.cur;
          reached = omega (arith, h.reached);
          within = λ f. (fresh, str);
          first = λ j le at free. h.first str j (omega arith) at (λ i x y.
              elim (Bool-cases (i == a)) [
                | inl e ↦ ap S (ground (arith, e)) ∙ fresh
                | inr e ↦ free i (ground (arith, e)) y
              ]);
        },
      )

  pub enter_bb-IsReady :
      (S : ℕ → Bool) (a c : ℕ) (st : State)
      → IsBetween decode s S a c st
      → (S' : ℕ → Bool) × (o : Bool) × (c' : ℕ) × (st' : State) × (enter_bb (4 * a) st ≡ some st')
        × IsReady decode s S' a o c' st'
  enter_bb-IsReady S a c st h = elim (Bool-cases (st.next_bb == 4 * a)) [
    | inl e ↦
        let (st', eq, r) = enter_new S a c st h (ground (arith, e)) in
        (ins a S, true, a, st', eq, r)
    | inr e ↦ let (eq, r) = enter_none S a c st h (ground (arith, e)) in (S, false, c, st, eq, r)
  ]
