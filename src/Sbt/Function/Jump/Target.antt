-- ===== src/Sbt/Function/Jump/Target.antt =====
-- `handleJump`: the block of the target, the block behind, and the branch.
use riscv_sbt.Prelude.{
  ℕ, suc, ◌-◌, ◌*◌, ◌<◌, ◌≤◌, ◌≡◌, ◌≢◌, refl, sym, ◌∙◌, Bool, true, false, ltb, ◌==◌, if◌then◌else◌,
  arith, Option, none, some, subst, Bool-cases, inl, inr,
}
use riscv_sbt.Sbt.Map.{Item, lookup, upsert}
use riscv_sbt.Sbt.Map.Neighbours.{IsNext, lower_bound-IsNext}
use riscv_sbt.Sbt.Function.Blocks.{
  Block, Terminator, unfinished, update_next_bb, lower_bound_bb, is_terminated,
}
use riscv_sbt.Sbt.Function.Jump.{
  Guest, State, create, forward, forward_to, need_next_bb, need_next_to, target_bb, set_term,
}
use riscv_sbt.Sbt.Function.Loop.{at_end}
use riscv_sbt.Sbt.Function.Jump.Scan.{ins, stop-ins}
use riscv_sbt.Sbt.Function.Jump.Image.{
  ending, is_straight, block, image, Holds, upsert-Holds, new_bb-IsImage,
}
use riscv_sbt.Sbt.Function.Jump.Moves.{IsCurrent, current-start}
use riscv_sbt.Sbt.Function.Jump.Ready.{
  IsStarts, image-start, lookup-IsImage, open_block, straight-ending,
}
use riscv_sbt.Sbt.Function.Jump.Back.{IsPlaced, here-IsPlaced, backward-IsPlaced}

ahead-IsCurrent :
    (S : ℕ → Bool) (a : ℕ) (o : Bool) (t c : ℕ)
    → a ≤ t
    → IsCurrent S a o c
    → IsCurrent (ins t S) a o c
ahead-IsCurrent S a true t c h (e, at) = (e, ground (arith, at))
ahead-IsCurrent S a false t c h (ca, at, e) =
    (ca, ground (arith, at), ground (arith, e, h, stop-ins S t c a))

module _ (decode : ℕ → Guest) (S : ℕ → Bool) (a : ℕ) (o : Bool) (c : ℕ) (st : State)
    (placed : IsPlaced decode S a o c st) where
  create-IsPlaced : (t : ℕ) → a < t → IsPlaced decode (ins t S) a o c (create (4 * t) st)
  unfolding create
  create-IsPlaced t lt =
      let (img, at, cur, new) = placed in
      (
        new_bb-IsImage decode S a o st.bb_map t img (omega arith),
        at,
        ahead-IsCurrent S a o t c (omega arith) cur,
        λ e. ground (arith, new e),
      )

  forward_to-IsPlaced :
      (t : ℕ) (found : Option (Item Block))
      → a < t
      → IsNext st.bb_map (4 * t) found
      → IsPlaced decode (ins t S) a o c (forward_to (4 * t) st found)
  unfolding forward_to
  forward_to-IsPlaced t none lt next = create-IsPlaced t lt
  forward_to-IsPlaced t (some x) lt (le, at, free) = elim (Bool-cases (4 * t == x.key)) [
    | inl h ↦
        subst (λ (b : Bool). IsPlaced decode (ins t S) a o c (if b then st else create (4 * t) st))
          (sym h)
          (here-IsPlaced decode S a o t c st
            (image-start decode S a o t x.val (
              sym (lookup-IsImage decode S a o st.bb_map t x.key placed.0 (ground (arith, h)))
              ∙ at))
            placed)
    | inr h ↦
        subst (λ (b : Bool). IsPlaced decode (ins t S) a o c (if b then st else create (4 * t) st))
          (sym h) (create-IsPlaced t lt)
  ]

  forward-IsPlaced : (t : ℕ) → a < t → IsPlaced decode (ins t S) a o c (forward (4 * t) st)
  unfolding forward lower_bound_bb
  forward-IsPlaced t lt =
      forward_to-IsPlaced t _ lt (lower_bound-IsNext st.bb_map (4 * t) placed.0.0)

  need_next_to-IsPlaced :
      (t : ℕ) (found : Option Block)
      → a < t
      → lookup st.bb_map (4 * t) ≡ found
      → IsPlaced decode (ins t S) a o c (need_next_to (4 * t) st found)
  unfolding need_next_to
  need_next_to-IsPlaced t none lt e = create-IsPlaced t lt
  need_next_to-IsPlaced t (some b) lt e =
      here-IsPlaced decode S a o t c (record st { next_bb = update_next_bb st.next_bb (4 * t) })
        (image-start decode S a o t b
          (sym (lookup-IsImage decode S a o st.bb_map t (4 * t) placed.0 refl) ∙ e))
        placed

  pub need_next_bb-IsPlaced :
      (next : ℕ) → next ≡ 4 * suc a → IsPlaced decode (ins (suc a) S) a o c (need_next_bb next st)
  unfolding need_next_bb
  need_next_bb-IsPlaced next e =
      subst (λ (n : ℕ). IsPlaced decode (ins (suc a) S) a o c (need_next_bb n st)) (sym e)
        (need_next_to-IsPlaced (suc a) _ (omega arith) refl)

  pub target_bb-IsPlaced :
      (s pending t : ℕ)
      → IsStarts decode s S a
      → s ≤ t
      → t ≢ a
      → (st' : State) × (c' : ℕ) × (target_bb pending (4 * a) (4 * t) st ≡ some st')
        × IsPlaced decode (ins t S) a o c' st'
  unfolding target_bb
  target_bb-IsPlaced s pending t starts le ne = elim (Bool-cases (ltb a t)) [
    | inl h ↦ (forward (4 * t) st, c, ground (arith, h), forward-IsPlaced t (ground (arith, h)))
    | inr h ↦
        let (st', c', e, placed') =
          backward-IsPlaced decode s S a o starts pending t c st placed le
            (ground (arith, h, ne)) in
        (st', c', ground (arith, h, ne, e), placed')
  ]

-- The block in translation has its terminator, where the instruction at `a` ends it, and waits for
-- the instruction itself.
abbrev pub IsWorked : (ℕ → Guest) → (ℕ → Bool) → ℕ → Bool → ℕ → State → Type 0
IsWorked decode S a o c st =
    (f : ℕ → Option Block) × Holds st.bb_map f
    × ((i : ℕ) → i ≢ c → f i ≡ image decode S a o i)
    × (st.current ≡ 4 * c)
    × IsCurrent S a o c
    × (o ≡ false → S a ≡ false)
    × (f c
        ≡ some (record {
          instrs = (block decode S a o c).instrs;
          term = ending (decode (4 * a)) (4 * suc a) false;
        }))

module _ (decode : ℕ → Guest) (S : ℕ → Bool) (a : ℕ) (o : Bool) (c : ℕ) (st : State)
    (placed : IsPlaced decode S a o c st)
    (unended : o ≡ false → is_straight (decode (4 * (a - 1))) ≡ true) where
  found_current :
      lookup st.bb_map st.current
      ≡ some (record { instrs = (block decode S a o c).instrs; term = unfinished })
  found_current =
      let (img, at, cur, new) = placed in
      lookup-IsImage decode S a o st.bb_map c st.current img at
      ∙ ground (arith, current-start S a o c cur, open_block decode S a o c cur unended)

  pub set_term-IsWorked :
      (t : Terminator)
      → t ≡ ending (decode (4 * a)) (4 * suc a) false
      → (st' : State) × (set_term t st ≡ some st') × IsWorked decode S a o c st'
  unfolding set_term is_terminated
  set_term-IsWorked t e =
      let (img, at, cur, new) = placed in
      let b : Block = record { instrs = (block decode S a o c).instrs; term = t } in
      (
        record st { bb_map = upsert st.bb_map (4 * c) b },
        ground (arith, found_current, at),
        (
          (λ i. if i == c then some b else image decode S a o i),
          upsert-Holds st.bb_map (image decode S a o) c b img,
          (λ i ne. ground (arith, ne)),
          at,
          cur,
          new,
          ground (arith, e),
        ),
      )

  pub straight-IsWorked : is_straight (decode (4 * a)) ≡ true → IsWorked decode S a o c st
  straight-IsWorked str =
      let (img, at, cur, new) = placed in
      (
        image decode S a o,
        img,
        (λ i ne. refl),
        at,
        cur,
        new,
        ground (
          arith,
          current-start S a o c cur,
          open_block decode S a o c cur unended,
          straight-ending (decode (4 * a)) (4 * suc a) str,
        ),
      )

  pub open_at_end : at_end st ≡ false
  unfolding at_end is_terminated
  open_at_end = ground (arith, found_current)
