-- ===== src/Sbt/Function/Loop/Turn.antt =====
-- The end of a turn of `translateInstrs`: the instruction is added, and an ended block is left.
use riscv_sbt.Prelude.{
  ℕ, suc, ◌+◌, ◌-◌, ◌*◌, ◌≤◌, ◌≡◌, refl, sym, ap, ◌∙◌, Bool, true, false, not, arith, List, Option,
  some, Bool-cases, inl, inr,
}
use riscv_sbt.Sbt.Map.{Item, lookup, upsert}
use riscv_sbt.Sbt.Function.Blocks.{Block, is_terminated}
use riscv_sbt.Sbt.Function.Jump.{Guest, State}
use riscv_sbt.Sbt.Function.Loop.{add_instr, add_instr_to, end_turn, at_end, start, put_instr}
use riscv_sbt.Sbt.Function.Jump.Scan.{stop, stop_self, stop-suc}
use riscv_sbt.Sbt.Function.Jump.Image.{emitted, ending, is_straight, run, block_to, block, IsImage}
use riscv_sbt.Sbt.Function.Jump.Moves.{IsCurrent, current-start, work-IsImage}
use riscv_sbt.Sbt.Function.Jump.Run.{put_instr-run}
use riscv_sbt.Sbt.Function.Jump.Ready.{
  IsStarts, IsBetween, IsFirst, ended-terminated, update-next_bb, lookup-IsImage, current_term,
}
use riscv_sbt.Sbt.Function.Jump.Target.{IsWorked}

grown-stop :
    (S : ℕ → Bool) (a : ℕ) (o : Bool) (c : ℕ)
    → IsCurrent S a o c
    → (o ≡ false → S a ≡ false)
    → stop S c (suc a) ≡ suc a
grown-stop S a true c (e, at) new = ap (λ (j : ℕ). stop S j (suc a)) e ∙ stop_self S a
grown-stop S a false c (lt, at, e) new = ground (arith, e, new refl, stop-suc S c a lt)

grown-IsCurrent :
    (S : ℕ → Bool) (a : ℕ) (o : Bool) (c : ℕ)
    → IsCurrent S a o c
    → (o ≡ false → S a ≡ false)
    → IsCurrent S (suc a) false c
grown-IsCurrent S a o c cur new =
    let (start, le) = current-start S a o c cur in (omega arith, start, grown-stop S a o c cur new)

module _ (decode : ℕ → Guest) where
  instrs-current :
      (S : ℕ → Bool) (a : ℕ) (o : Bool) (c : ℕ)
      → IsCurrent S a o c
      → (block decode S a o c).instrs ≡ run decode c (a - c)
  unfolding block_to run
  instrs-current S a true c (e, at) =
      ground (arith, e) ∙ sym (ap (run decode c) {x = a - c} {y = 0} (omega (arith, e)))
  instrs-current S a false c (lt, at, e) =
      ap (λ (n : ℕ). (block_to decode a false c n).instrs) e ∙ ground arith

  grown-image :
      (S : ℕ → Bool) (a : ℕ) (o : Bool) (c : ℕ)
      → IsCurrent S a o c
      → (o ≡ false → S a ≡ false)
      → block decode S (suc a) false c ≡ record {
        instrs = run decode c (suc (a - c));
        term = ending (decode (4 * a)) (4 * suc a) false;
      }
  unfolding block_to
  grown-image S a o c cur new =
      let (at, le) = current-start S a o c cur in
      let len = ap (run decode c) {x = suc a - c} {y = suc (a - c)} (omega arith) in
      let last = ap (λ (j : ℕ). decode (4 * j)) {x = suc a - 1} {y = a} (omega arith) in
      ap (block_to decode (suc a) false c) (grown-stop S a o c cur new) ∙ ground (arith, len, last)

  -- The current block with the instruction at `a`.
  grown-block :
      (S : ℕ → Bool) (a : ℕ) (o : Bool) (c : ℕ)
      → IsCurrent S a o c
      → (o ≡ false → S a ≡ false)
      → record {
        instrs = put_instr (block decode S a o c).instrs (4 * a) (emitted (decode (4 * a)));
        term = ending (decode (4 * a)) (4 * suc a) false;
      }
        ≡ block decode S (suc a) false c
  grown-block S a o c cur new =
      let (at, le) = current-start S a o c cur in
      ap
        (λ (l : List (Item ℕ)). record {
          instrs = l;
          term = ending (decode (4 * a)) (4 * suc a) false;
        })
        (ap (λ (l : List (Item ℕ)). put_instr l (4 * a) (emitted (decode (4 * a))))
            (instrs-current S a o c cur)
          ∙ put_instr-run decode c (a - c) a (omega arith))
      ∙ sym (grown-image S a o c cur new)

  current_end :
      (S : ℕ → Bool) (a c : ℕ)
      → IsCurrent S (suc a) false c
      → is_terminated (block decode S (suc a) false c).term ≡ not (is_straight (decode (4 * a)))
  current_end S a c cur =
      ap is_terminated (current_term decode S (suc a) c false cur)
      ∙ (ended-terminated (decode (4 * (suc a - 1))) (4 * suc a) false
          ∙ ap (λ (j : ℕ). not (is_straight (decode (4 * j)))) {x = suc a - 1} {y = a}
              (omega arith))

  -- A block that is ended is left for the one behind.
  left-IsBetween :
      (s : ℕ) (S : ℕ → Bool) (a c : ℕ) (st : State)
      → s ≤ a
      → IsStarts decode s S (suc a)
      → IsImage decode S (suc a) false st.bb_map
      → st.current ≡ 4 * c
      → IsCurrent S (suc a) false c
      → (is_straight (decode (4 * a)) ≡ true → IsFirst S (suc a) st.next_bb)
      → (st' : State) × (end_turn (4 * a) (some st) ≡ some st') × IsBetween decode s S (suc a) c st'
  unfolding end_turn at_end
  left-IsBetween s S a c st le starts img at cur first =
      let last =
        ap (λ (j : ℕ). is_straight (decode (4 * j))) {x = suc a - 1} {y = a} (omega arith) in
      let found = lookup-IsImage decode S (suc a) false st.bb_map c st.current img at in
      let ends = current_end S a c cur in
      elim (Bool-cases (is_straight (decode (4 * a)))) [
        | inl e ↦ (
          st,
          ground (arith, found, cur, ends, e),
          record {
            starts = starts;
            img = img;
            at = at;
            cur = cur;
            reached = omega arith;
            ended = λ f. absurd (cc (f, last, e));
            first = λ f. first e;
          },
        )
        | inr e ↦ (
          record st { next_bb = 4 * suc a },
          ground (arith, found, cur, ends, e, update-next_bb st.next_bb (4 * a + 4)),
          record {
            starts = starts;
            img = img;
            at = at;
            cur = cur;
            reached = omega arith;
            ended = λ f. refl;
            first = λ f. absurd (cc (f, last, e));
          },
        )
      ]

  pub worked-IsBetween :
      (s : ℕ) (S : ℕ → Bool) (a : ℕ) (o : Bool) (c : ℕ) (st : State)
      → s ≤ a
      → IsStarts decode s S (suc a)
      → IsWorked decode S a o c st
      → (is_straight (decode (4 * a)) ≡ true → IsFirst S (suc a) st.next_bb)
      → (st' : State) × (end_turn (4 * a) (add_instr (4 * a) (emitted (decode (4 * a))) st)
          ≡ some st')
        × IsBetween decode s S (suc a) c st'
  unfolding add_instr add_instr_to
  worked-IsBetween s S a o c st le starts (f, holds, same, at, cur, new, here) first =
      let st1 : State = record st {
        bb_map = upsert st.bb_map (4 * c) (block decode S (suc a) false c);
      } in
      let (st', e, between) =
        left-IsBetween s S a c st1 le starts
          (work-IsImage decode S a o c st.bb_map f holds same cur new) at
          (grown-IsCurrent S a o c cur new) first in
      let found : lookup st.bb_map st.current
          ≡ some (record {
            instrs = (block decode S a o c).instrs;
            term = ending (decode (4 * a)) (4 * suc a) false;
          }) =
        ap (lookup st.bb_map) at ∙ (holds.1 c ∙ here) in
      (
        st',
        ap
              (λ (r : Option Block).
                end_turn (4 * a) (add_instr_to (4 * a) (emitted (decode (4 * a))) st r))
              found
            ∙ (ap
                  (λ (k : ℕ). end_turn (4 * a) (
                    some (record st {
                      bb_map = upsert st.bb_map k (record {
                        instrs =
                            put_instr (block decode S a o c).instrs (4 * a)
                              (emitted (decode (4 * a)));
                        term = ending (decode (4 * a)) (4 * suc a) false;
                      });
                    })))
                  at
                ∙ (ap
                      (λ (b : Block).
                        end_turn (4 * a) (some (record st { bb_map = upsert st.bb_map (4 * c) b })))
                      (grown-block S a o c cur new)
                    ∙ e)),
        between,
      )
