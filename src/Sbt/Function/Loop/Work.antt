-- ===== src/Sbt/Function/Loop/Work.antt =====
-- The part of a turn of `translateInstrs` that translates the instruction.
use riscv_sbt.Prelude.{
  ℕ, suc, ◌+◌, ◌-◌, ◌*◌, ◌<◌, ◌≤◌, ◌≡◌, ◌≢◌, sym, ap, ◌∙◌, Bool, true, false, ◌==◌, if◌then◌else◌,
  arith, Option, none, some, Bool-cases, inl, inr,
}
use riscv_sbt.Sbt.Function.Blocks.{br, ret, cond_br}
use riscv_sbt.Sbt.Function.Jump.{
  Guest, straight, returning, jump, branch, State, target_bb, need_next_bb, end_jump, handle_jump,
  set_term,
}
use riscv_sbt.Sbt.Function.Loop.{at_end, translate_inst, with_count}
use riscv_sbt.Sbt.Function.Jump.Scan.{ins}
use riscv_sbt.Sbt.Function.Jump.Image.{emitted, ending, is_straight}
use riscv_sbt.Sbt.Function.Jump.Moves.{IsCurrent}
use riscv_sbt.Sbt.Function.Jump.Ready.{IsStarts, IsReady, IsFirst, target_of}
use riscv_sbt.Sbt.Function.Loop.Enter.{ins-IsStarts}
use riscv_sbt.Sbt.Function.Jump.Back.{IsPlaced}
use riscv_sbt.Sbt.Function.Jump.Target.{
  IsWorked, target_bb-IsPlaced, need_next_bb-IsPlaced, set_term-IsWorked, straight-IsWorked,
  open_at_end,
}

-- Code that the translation takes: a jump goes to an instruction from `s` on, other than itself.
pub record IsCode (decode : ℕ → Guest) (s j : ℕ) : Type 0 where
  pub goal :
      (t : ℕ) → target_of (decode (4 * j)) ≡ some t → (q : ℕ) × (t ≡ 4 * q) × (s ≤ q) × (q ≢ j)

option-eq : (q t u : ℕ) → some t ≡ some u → t ≡ 4 * q → u ≡ 4 * q
option-eq q t u e h = ground (arith, e, h)

entered-start :
    (S : ℕ → Bool) (a : ℕ) (o : Bool) (c : ℕ) → o ≡ true → IsCurrent S a o c → S a ≡ true
entered-start S a true c x cur = cur.1
entered-start S a false c x cur = cc x

module _ (decode : ℕ → Guest) (s : ℕ) where
  step-IsStarts :
      (S : ℕ → Bool) (a : ℕ)
      → IsStarts decode s S a
      → ((t : ℕ)
          → target_of (decode (4 * a)) ≡ some t
          → (q : ℕ) × (t ≡ 4 * q) × (S q ≡ true) × (S (suc a) ≡ true))
      → (is_straight (decode (4 * (a - 1))) ≡ false → S a ≡ true)
      → IsStarts decode s S (suc a)
  step-IsStarts S a h goal end = record {
    entry = h.entry;
    low = h.low;
    goals = λ j t le lt e. elim (Bool-cases (j == a)) [
      | inl x ↦
          let ja : j ≡ a = ground (arith, x) in
          let (q, te, sq, sa) = goal t (ap (λ (i : ℕ). target_of (decode (4 * i))) (sym ja) ∙ e) in
          (q, te, sq, ap (λ (i : ℕ). S (suc i)) ja ∙ sa)
      | inr x ↦ h.goals j t le (ground (arith, x)) e
    ];
    ends = λ j le lt e. elim (Bool-cases (suc j == a)) [
      | inl x ↦
          ap S {x = suc j} {y = a} (ground (arith, x))
          ∙ end (
              ap (λ (i : ℕ). is_straight (decode (4 * i))) {x = a - 1} {y = j} (ground (arith, x))
              ∙ e)
      | inr x ↦ h.ends j le (ground (arith, x)) e
    ];
  }

  module _ (S : ℕ → Bool) (a : ℕ) (o : Bool) (c : ℕ) (st : State)
      (ready : IsReady decode s S a o c st)
      (code : (j : ℕ) → s ≤ j → j < suc a → IsCode decode s j) where
    ended_before : is_straight (decode (4 * (a - 1))) ≡ false → S a ≡ true
    ended_before e = elim (Bool-cases o) [
      | inl x ↦ entered-start S a o c x ready.cur
      | inr x ↦ absurd (cc (e, (ready.within x).1))
    ]

    -- What the translation of the instruction leaves.
    abbrev pub Outcome : Option (State × ℕ) → Type 0
    Outcome r =
        (S' : ℕ → Bool) × (c' : ℕ) × (st' : State) × (r ≡ some (st', emitted (decode (4 * a))))
        × IsStarts decode s S' (suc a)
        × IsWorked decode S' a o c' st'
        × (is_straight (decode (4 * a)) ≡ true → IsFirst S' (suc a) st'.next_bb)

    jump-Outcome :
        (pending t : ℕ) (cond : Bool)
        → target_of (decode (4 * a)) ≡ some t
        → pending ≡ emitted (decode (4 * a))
        → is_straight (decode (4 * a)) ≡ false
        → (if cond then cond_br t (4 * a + 4) else br t) ≡ ending (decode (4 * a)) (4 * suc a) false
        → Outcome (with_count pending (handle_jump pending (4 * a) t cond st))
    unfolding handle_jump end_jump with_count
    jump-Outcome pending t cond e p str end =
        let (q, tq, le, ne) = (code a ready.reached (omega arith)).goal t e in
        let (st1, c1, e1, placed1) =
          target_bb-IsPlaced decode S a o c st
            (ready.img, ready.at, ready.cur, λ f. (ready.within f).0) s pending q ready.starts le
            ne in
        let placed2 =
          need_next_bb-IsPlaced decode (ins q S) a o c1 st1 placed1 (4 * a + 4) (omega arith) in
        let (st3, e3, worked) =
          set_term-IsWorked decode (ins (suc a) (ins q S)) a o c1 (need_next_bb (4 * a + 4) st1)
            placed2 (λ f. (ready.within f).1) _ end in
        let starts =
          ins-IsStarts decode s (ins q S) a (suc a) (omega (arith, ready.reached))
            (ins-IsStarts decode s S a q le ready.starts) in
        (
          ins (suc a) (ins q S),
          c1,
          st3,
          ap
                (λ (u : ℕ).
                  with_count pending (end_jump (4 * a) t cond (target_bb pending (4 * a) u st)))
                tq
              ∙ (ap (λ (r : Option State). with_count pending (end_jump (4 * a) t cond r)) e1
                  ∙ (ap (with_count pending) e3 ∙ ap (λ (n : ℕ). some (st3, n)) p)),
          step-IsStarts (ins (suc a) (ins q S)) a starts
              (λ u eu. (q, option-eq q t u (sym e ∙ eu) tq, ground arith, ground arith))
              (λ f. ground (arith, ended_before f)),
          worked,
          λ f. absurd (cc (f, str)),
        )

    returning-Outcome :
        (n : ℕ) → decode (4 * a) ≡ returning n → Outcome (with_count n (set_term ret st))
    unfolding with_count
    returning-Outcome n e =
        let (st', e', worked) =
          set_term-IsWorked decode S a o c st
            (ready.img, ready.at, ready.cur, λ f. (ready.within f).0) (λ f. (ready.within f).1) ret
            (sym (ap (λ (g : Guest). ending g (4 * suc a) false) e)) in
        (
          S,
          c,
          st',
          ap (with_count n) e' ∙ ap (λ (g : Guest). some (st', emitted g)) (sym e),
          step-IsStarts S a ready.starts (λ u eu. absurd (cc (eu, ap target_of e))) ended_before,
          worked,
          λ f. absurd (cc (f, ap is_straight e)),
        )

    straight-Outcome :
        (n : ℕ)
        → decode (4 * a) ≡ straight n
        → Outcome (if at_end st then none else some (st, (if n == 0 then 1 else n)))
    straight-Outcome n e =
        let placed : IsPlaced decode S a o c st =
          (ready.img, ready.at, ready.cur, λ f. (ready.within f).0) in
        (
          S,
          c,
          st,
          ground (arith, open_at_end decode S a o c st placed (λ f. (ready.within f).1), e),
          step-IsStarts S a ready.starts (λ u eu. absurd (cc (eu, ap target_of e))) ended_before,
          straight-IsWorked decode S a o c st placed (λ f. (ready.within f).1) (ap is_straight e),
          λ f. ready.first,
        )

    pub translate_inst-Outcome :
        (g : Guest) → decode (4 * a) ≡ g → Outcome (translate_inst g (4 * a) st)
    unfolding translate_inst
    translate_inst-Outcome (straight n) e = straight-Outcome n e
    translate_inst-Outcome (returning n) e = returning-Outcome n e
    translate_inst-Outcome (jump t) e =
        jump-Outcome 0 t false (ap target_of e) (sym (ap emitted e)) (ap is_straight e)
          (sym (ap (λ (g : Guest). ending g (4 * suc a) false) e))
    translate_inst-Outcome (branch n t) e =
        jump-Outcome n t true (ap target_of e) (sym (ap emitted e)) (ap is_straight e) (
          ap (cond_br t) {x = 4 * a + 4} {y = 4 * suc a} (omega arith)
          ∙ sym (ap (λ (g : Guest). ending g (4 * suc a) false) e))
