-- ===== src/Sbt/PrintfBreak/Laws.antt =====
-- The pass over all the arguments of a call of `printf`: the formats and arguments of the new
-- calls.
use native.Mathlib.Decide.{dec_lt}
use mathlib.Core.List.{append_assoc, append-nil}
use riscv_sbt.Prelude.{
  ℕ, suc, ◌+◌, ◌<◌, ◌≡◌, refl, arith, Bool, true, false, List, [], ◌∷◌, ◌++◌, Option, none, some,
  ◌==◌, ap, ◌∙◌, sym, subst, ◌⊎◌, inl, inr, Bool-cases, or-false, and-true, not-true, ltb, not,
  ◌&&◌, length, leb, length-append,
}
use riscv_sbt.Sbt.PrintfBreak.{
  ArgType, integer, double, float, pointer, PCall, Pass, Call, split, process, issue, break_printf,
  any_wide, ◌>>=◌,
}
use riscv_sbt.Sbt.PrintfBreak.Directives.{directives}
use riscv_sbt.Sbt.PrintfBreak.Split.{Ready}
use riscv_sbt.Sbt.PrintfBreak.Calls.{
  IsNarrow, IsPassable, All, Carries, IsGood, formats, arguments, Breaks, bind-some, Breaks-end,
  Breaks-step,
}

-- A `split` and then the rest of the arguments, none of them pending.
abbrev Processes : List ArgType → Type 0
Processes tys =
    (st : Pass)
    → Ready (length tys) st
    → 0 < length tys
    → Breaks st st.back.fmt tys (process 0 tys st)

Breaks-then :
    (is_double : Bool) (xs tys : List ArgType) (st : Pass)
    → Ready (length xs + length tys) st
    → Carries is_double xs
    → Processes tys
    → Breaks st st.back.fmt (xs ++ tys) (split (length xs) is_double st >>= process 0 tys)
unfolding process
Breaks-then is_double xs [] st r c ih =
    subst (λ l. Breaks st st.back.fmt l (split (length xs) is_double st >>= process 0 []))
      (sym (append-nil xs))
      (subst (λ o. Breaks st st.back.fmt xs o) (sym (bind-some (split (length xs) is_double st)))
        (Breaks-end is_double xs st (subst (λ n. Ready n st) (omega arith) r) c))
Breaks-then is_double xs (ty ∷ tys) st r c ih =
    Breaks-step is_double xs (ty ∷ tys) st (process 0 (ty ∷ tys)) r c (omega arith)
      (λ st' r'. ih st' r' (omega arith))

append-All :
    (us : List ArgType) (ty : ArgType)
    → All IsNarrow us
    → IsNarrow ty
    → All IsNarrow (us ++ ty ∷ [])
append-All [] ty h n = (n, tt)
append-All (u ∷ us) ty (hu, h) n = (hu, append-All us ty h n)

-- One round of the loops, in each of its branches.
module _ (t : ℕ) (tys : List ArgType) (st : Pass) where
  process-end : 0 < t → process t [] st ≡ split t false st
  unfolding process
  process-end h = let e : (t == 0) ≡ false = ground arith in rw e

  process-double :
      0 < t
      → process t (double ∷ tys) st
        ≡ (split t false st >>= λ st₁. split 1 true st₁ >>= process 0 tys)
  unfolding process
  process-double h = let e : (t == 0) ≡ false = ground arith in rw e

  process-wait :
      (ty : ArgType) → IsNarrow ty → t + 1 < 4 → process t (ty ∷ tys) st ≡ process (t + 1) tys st
  unfolding process
  process-wait (integer bits) h lt =
      let e : (t + 1 == 4) ≡ false = ground arith in
      let f : leb bits 32 ≡ true = ground arith in rw (f, e)
  process-wait pointer h lt = let e : (t + 1 == 4) ≡ false = ground arith in rw e
  process-wait double h lt = absurd h
  process-wait float h lt = absurd h

  process-four :
      (ty : ArgType)
      → IsNarrow ty
      → t + 1 ≡ 4
      → process t (ty ∷ tys) st ≡ (split 4 false st >>= process 0 tys)
  unfolding process
  process-four (integer bits) h e =
      let f : leb bits 32 ≡ true = ground arith in
      let g : (t + 1 == 4) ≡ true = ground arith in rw (f, g)
  process-four pointer h e = let g : (t + 1 == 4) ≡ true = ground arith in rw g
  process-four double h e = absurd h
  process-four float h e = absurd h

-- What `process` does with `us` pending.
abbrev Pending : List ArgType → List ArgType → Type 0
Pending us tys =
    (st : Pass)
    → All IsNarrow us
    → length us < 4
    → 0 < length us + length tys
    → Ready (length us + length tys) st
    → Breaks st st.back.fmt (us ++ tys) (process (length us) tys st)

same_result :
    {st : Pass} {fmt : List ℕ} {tys : List ArgType} {a b : Option Pass}
    → a ≡ b
    → Breaks st fmt tys b
    → Breaks st fmt tys a
same_result {st} {fmt} {tys} e h = subst (λ o. Breaks st fmt tys o) (sym e) h

breaks_last : (us : List ArgType) → Pending us []
breaks_last us st h lt pos r =
    subst (λ l. Breaks st st.back.fmt l (process (length us) [] st)) (sym (append-nil us))
      (same_result (process-end (length us) [] st (omega arith))
        (Breaks-end false us st (subst (λ n. Ready n st) (omega arith) r) (h, omega arith)))

alone :
    (tys : List ArgType)
    → Processes tys
    → (st : Pass) → Ready (suc (length tys)) st
    → Breaks st st.back.fmt (double ∷ tys) (split 1 true st >>= process 0 tys)
alone tys ih st r =
    Breaks-then true (double ∷ []) tys st (subst (λ n. Ready n st) (omega arith) r) refl ih

breaks_double : (us tys : List ArgType) → Processes tys → Pending us (double ∷ tys)
breaks_double [] tys ih st h lt pos r =
    unfold process in alone tys ih st (subst (λ n. Ready n st) (omega arith) r)
breaks_double (u ∷ us) tys ih st h lt pos r =
    same_result (process-double (length (u ∷ us)) tys st (omega arith)) (
      Breaks-step false (u ∷ us) (double ∷ tys) st _ r (h, omega arith) (omega arith)
        (λ st' r'. alone tys ih st' r'))

-- A narrow argument waits, or makes the fourth of a call.
breaks_narrow :
    (us tys : List ArgType) (ty : ArgType)
    → IsNarrow ty
    → Processes tys
    → Pending (us ++ ty ∷ []) tys
    → Pending us (ty ∷ tys)
breaks_narrow us tys ty n ih wait st h lt pos r =
    let len : length (us ++ ty ∷ []) ≡ length us + 1 = omega (arith, length-append us (ty ∷ [])) in
    let narrow = append-All us ty h n in
    let r' : Ready (length (us ++ ty ∷ []) + length tys) st =
      subst (λ k. Ready k st) (omega arith) r in
    subst (λ l. Breaks st st.back.fmt l (process (length us) (ty ∷ tys) st))
      (append_assoc us (ty ∷ []) tys)
      (elim (dec_lt (length us + 1) 4) [
        | yes fewer ↦
            same_result
              (process-wait (length us) tys st ty n fewer ∙ ap (λ k. process k tys st) (sym len))
              (wait st narrow (omega arith) (omega arith) r')
        | no four ↦
            same_result
              (process-four (length us) tys st ty n (omega arith)
                ∙ ap (λ k. split k false st >>= process 0 tys) (omega arith))
              (Breaks-then false (us ++ ty ∷ []) tys st r' (narrow, omega arith) ih)
      ])

pending : (tys us : List ArgType) → All IsPassable tys → Pending us tys
pending [] us h = breaks_last us
pending (double ∷ tys) us (_, h) = breaks_double us tys (λ st r pos.
    pending tys [] h st tt (omega arith) (omega arith) (subst (λ n. Ready n st) (omega arith) r))
pending (float ∷ tys) us (no_float, h) = absurd no_float
pending (integer bits ∷ tys) us (n, h) =
    breaks_narrow us tys (integer bits) n
      (λ st r pos.
        pending tys [] h st tt (omega arith) (omega arith)
          (subst (λ n. Ready n st) (omega arith) r))
      (pending tys (us ++ integer bits ∷ []) h)
pending (pointer ∷ tys) us (n, h) =
    breaks_narrow us tys pointer n
      (λ st r pos.
        pending tys [] h st tt (omega arith) (omega arith)
          (subst (λ n. Ready n st) (omega arith) r))
      (pending tys (us ++ pointer ∷ []) h)

narrow_of : (tys : List ArgType) → All IsPassable tys → any_wide tys ≡ false → All IsNarrow tys
unfolding any_wide
narrow_of [] h e = tt
narrow_of (double ∷ tys) h e = absurd (ground arith)
narrow_of (float ∷ tys) (no_float, h) e = absurd no_float
narrow_of (integer bits ∷ tys) (n, h) e = (n, narrow_of tys h (or-false _ _ e).1)
narrow_of (pointer ∷ tys) (n, h) e = (tt, narrow_of tys h e)

-- Where no argument is a `float` or an integer of more than 32 bits, and the format has one
-- directive for each argument: either the call needs no break (it has fewer than five arguments,
-- none wide), or the pass breaks it with no failed assertion, and the new calls are well formed,
-- print the format in pieces and take the same arguments in the same order.
pub break_printf-calls :
    (fmt : List ℕ) (tys : List ArgType)
    → All IsPassable tys
    → directives fmt ≡ some (length tys)
    → ((break_printf fmt tys ≡ some none) × (All IsNarrow tys × (length tys < 5)))
      ⊎ ((ps : List PCall) × (cs : List Call) × (break_printf fmt tys ≡ some (some ps))
          × (issue ps tys ≡ some cs)
          × (formats cs ≡ fmt)
          × (arguments cs ≡ tys)
          × All IsGood cs)
unfolding break_printf
break_printf-calls fmt [] h d = inl (unfold any_wide in refl, (tt, omega arith))
break_printf-calls fmt (ty ∷ r) h d =
    elim (Bool-cases (ltb (length (ty ∷ r)) 5 && not (any_wide (ty ∷ r)))) [
      | inl e ↦
          let (few, no_wide) = and-true (ltb (length (ty ∷ r)) 5) (not (any_wide (ty ∷ r))) e in
          inl (rw e, (narrow_of (ty ∷ r) h (not-true _ no_wide), ground (arith, few)))
      | inr e ↦
          let n = length (ty ∷ r) in
          let start : Pass = record {
            front = [];
            back = record { fmt = fmt; args = n; is_double = false };
            i = 1;
            n = n;
          } in
          let ready : Ready (0 + n) start = record {
            plain = refl;
            args = omega arith;
            fits = d ∙ ap some (omega arith);
            index = omega arith;
            started = omega arith;
          } in
          let b = pending (ty ∷ r) [] h start tt (omega arith) (omega arith) ready in
          inr (
            b.made,
            b.calls,
            rw e (
                ap (λ o. o >>= λ st. some (some (st.front ++ st.back ∷ []))) b.returns
                ∙ ap (λ l. some (some l)) b.adds),
            b.issued,
            b.prints,
            b.deals,
            b.good,
          )
    ]
