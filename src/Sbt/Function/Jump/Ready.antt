-- ===== src/Sbt/Function/Jump/Ready.antt =====
-- The invariants of the loop of sbt/Function.cpp `translateInstrs`, between its turns and within.
use riscv_sbt.Prelude.{
  ℕ, suc, ◌+◌, ◌-◌, ◌*◌, ◌<◌, ◌≤◌, ◌≡◌, refl, sym, ap, ◌∙◌, Bool, true, false, ◌&&◌, ◌||◌, not, ltb,
  ◌==◌, arith, Option, none, some, Option-cases, subst, Bool-cases, inl, inr, get_elem?,
}
use riscv_sbt.Sbt.Map.{lookup, upsert, lower_bound}
use riscv_sbt.Sbt.Map.Neighbours.{IsNext, lower_bound-IsNext}
use riscv_sbt.Sbt.Function.Blocks.{
  unfinished, br, Block, Blocks, new_bb, is_terminated, next_bb_addr, update_next_bb,
  lower_bound_bb,
}
use riscv_sbt.Sbt.Function.Jump.{Guest, straight, returning, jump, branch, State, set_term}
use riscv_sbt.Sbt.Function.Loop.{with_bb, branch_to, after_enter, at_end}
use riscv_sbt.Sbt.Function.Jump.Scan.{stop, ins, stop-free}
use riscv_sbt.Sbt.Function.Jump.Image.{
  ending, is_straight, block_to, block, image, IsImage, Holds-ext, new_bb-IsImage, block-ins,
}
use riscv_sbt.Sbt.Function.Jump.Moves.{IsCurrent, enter-IsImage, entered-IsImage}

abbrev pub target_of : Guest → Option ℕ
target_of (straight n) = none
target_of (returning n) = none
target_of (jump t) = some t
target_of (branch n t) = some t

-- The starts of the blocks of a translation from `s` on and up to `a`.
pub record IsStarts (decode : ℕ → Guest) (s : ℕ) (S : ℕ → Bool) (a : ℕ) : Type 0 where
  pub entry : S s ≡ true
  pub low : (j : ℕ) → S j ≡ true → s ≤ j
  pub goals :
      (j t : ℕ)
      → s ≤ j
      → j < a
      → target_of (decode (4 * j)) ≡ some t
      → (q : ℕ) × (t ≡ 4 * q) × (S q ≡ true) × (S (suc j) ≡ true)
  pub ends : (j : ℕ) → s ≤ j → suc j < a → is_straight (decode (4 * j)) ≡ false → S (suc j) ≡ true

-- `next` is where the first block from `b` on starts, if there is one.
abbrev pub IsFirst : (ℕ → Bool) → ℕ → ℕ → Type 0
IsFirst S b next =
    (j : ℕ) → b ≤ j → S j ≡ true → ((i : ℕ) → b ≤ i → i < j → S i ≡ false) → next ≡ 4 * j

-- Before the instruction at `a`, the block of `a` being entered if there is one.
pub record IsReady (decode : ℕ → Guest) (s : ℕ) (S : ℕ → Bool) (a : ℕ) (o : Bool) (c : ℕ)
    (st : State) : Type 0 where
  pub starts : IsStarts decode s S a
  pub img : IsImage decode S a o st.bb_map
  pub at : st.current ≡ 4 * c
  pub cur : IsCurrent S a o c
  pub reached : s ≤ a
  pub within : o ≡ false → (S a ≡ false) × (is_straight (decode (4 * (a - 1))) ≡ true)
  pub first : IsFirst S (suc a) st.next_bb

-- Between two turns of the loop.
pub record IsBetween (decode : ℕ → Guest) (s : ℕ) (S : ℕ → Bool) (a c : ℕ) (st : State)
    : Type 0 where
  pub starts : IsStarts decode s S a
  pub img : IsImage decode S a false st.bb_map
  pub at : st.current ≡ 4 * c
  pub cur : IsCurrent S a false c
  pub reached : s < a
  pub ended : is_straight (decode (4 * (a - 1))) ≡ false → st.next_bb ≡ 4 * a
  pub first : is_straight (decode (4 * (a - 1))) ≡ true → IsFirst S a st.next_bb

==→≡ : (i t : ℕ) → (i == t) ≡ true → i ≡ t
==→≡ i t h = ground (arith, h)

pub straight-ending :
    (g : Guest) (next : ℕ) → is_straight g ≡ true → ending g next false ≡ unfinished
straight-ending (straight n) next h = refl
straight-ending (returning n) next h = cc h
straight-ending (jump t) next h = cc h
straight-ending (branch n t) next h = cc h

straight-closed : (g : Guest) (next : ℕ) → is_straight g ≡ true → ending g next true ≡ br next
straight-closed (straight n) next h = refl
straight-closed (returning n) next h = cc h
straight-closed (jump t) next h = cc h
straight-closed (branch n t) next h = cc h

pub ended-terminated :
    (g : Guest) (next : ℕ) (p : Bool) → is_terminated (ending g next p) ≡ (p || not (is_straight g))
unfolding is_terminated
ended-terminated (straight n) next true = refl
ended-terminated (straight n) next false = refl
ended-terminated (returning n) next p = ground arith
ended-terminated (jump t) next p = ground arith
ended-terminated (branch n t) next p = ground arith

pub update-next_bb : (x y : ℕ) → update_next_bb x y ≡ y
unfolding update_next_bb
update-next_bb x y = ground arith

module _ (decode : ℕ → Guest) where
  pub lookup-IsImage :
      (S : ℕ → Bool) (a : ℕ) (o : Bool) (m : Blocks) (i x : ℕ)
      → IsImage decode S a o m
      → x ≡ 4 * i
      → lookup m x ≡ image decode S a o i
  lookup-IsImage S a o m i x (sorted, at, al) e = ap (lookup m) e ∙ at i

  -- A block that starts where one does already.
  pub same-IsImage :
      (S : ℕ → Bool) (a : ℕ) (o : Bool) (m : Blocks) (t : ℕ)
      → IsImage decode S a o m
      → S t ≡ true
      → IsImage decode (ins t S) a o m
  same-IsImage S a o m t h e =
      Holds-ext _ _ _
        (λ i. elim (Bool-cases (S i)) [
          | inl at ↦ ground (arith, at, block-ins decode S a o t i (split_here S a t i e))
          | inr at ↦ elim (Bool-cases (i == t)) [
            | inl it ↦ absurd (cc (e, at, ap S (==→≡ i t it)))
            | inr it ↦ ground (arith, at, it)
          ]
        ])
        h
    where
      split_here : (S : ℕ → Bool) (a t i : ℕ) → S t ≡ true → (ltb i t && ltb t (stop S i a)) ≡ false
      split_here S a t i e = ground (arith, e, stop-free S i a t)

  pub with_bb-IsImage :
      (S : ℕ → Bool) (a : ℕ) (st : State)
      → IsImage decode S a false st.bb_map
      → (m : Blocks) × (with_bb (4 * a) st ≡ record st { bb_map = m })
        × IsImage decode (ins a S) a false m
  unfolding with_bb
  with_bb-IsImage S a st h = elim (Bool-cases (S a)) [
    | inl e ↦ (
      st.bb_map,
      ground (arith, e, lookup-IsImage S a false st.bb_map a (4 * a) h refl),
      same-IsImage S a false st.bb_map a h e,
    )
    | inr e ↦ (
      new_bb st.bb_map (4 * a),
      ground (arith, e, lookup-IsImage S a false st.bb_map a (4 * a) h refl),
      new_bb-IsImage decode S a false st.bb_map a h (omega arith),
    )
  ]

  pub open_block :
      (S : ℕ → Bool) (a : ℕ) (o : Bool) (c : ℕ)
      → IsCurrent S a o c
      → (o ≡ false → is_straight (decode (4 * (a - 1))) ≡ true)
      → (block decode S a o c).term ≡ unfinished
  unfolding block_to
  open_block S a true c (e, at) h = ground (arith, e)
  open_block S a false c (lt, at, e) h =
      ap (λ (n : ℕ). (block_to decode a false c n).term) e
      ∙ ground (arith, h refl, straight-ending (decode (4 * (a - 1))) (4 * a))

  pub current_term :
      (S : ℕ → Bool) (a c : ℕ) (o : Bool)
      → IsCurrent S a false c
      → (block decode S a o c).term ≡ ending (decode (4 * (a - 1))) (4 * a) o
  unfolding block_to
  current_term S a c o (lt, at, e) = ap (λ (n : ℕ). (block_to decode a o c n).term) e ∙ ground arith

  closed_block :
      (S : ℕ → Bool) (a c : ℕ)
      → IsCurrent S a false c
      → is_straight (decode (4 * (a - 1))) ≡ true
      → record (block decode S a false c) { term = br (4 * a) } ≡ block decode S a true c
  unfolding block_to
  closed_block S a c cur h =
      ground
        (arith, cur, current_term S a c true cur, straight-closed (decode (4 * (a - 1))) (4 * a) h)

  -- The block before is closed by a branch, if it is not ended already.
  pub branch_to-IsImage :
      (S : ℕ → Bool) (a c : ℕ) (st : State)
      → IsImage decode S a false st.bb_map
      → IsCurrent S a false c
      → st.current ≡ 4 * c
      → (m : Blocks) × (branch_to (4 * a) st ≡ some (record st { bb_map = m }))
        × IsImage decode S a true m
  unfolding branch_to at_end set_term
  branch_to-IsImage S a c st h cur at =
      let found : lookup st.bb_map st.current ≡ some (block decode S a false c) =
        lookup-IsImage S a false st.bb_map c st.current h at ∙ ground (arith, cur) in
      let term = current_term S a c false cur in
      let done = ended-terminated (decode (4 * (a - 1))) (4 * a) false in
      elim (Bool-cases (is_straight (decode (4 * (a - 1))))) [
        | inl e ↦ (
          upsert st.bb_map (4 * c) (block decode S a true c),
          ground (arith, found, term, done, e, at, closed_block S a c cur e),
          enter-IsImage decode S a c st.bb_map h cur,
        )
        | inr e ↦ (
          st.bb_map,
          ground (arith, found, term, done, e),
          entered-IsImage decode S a c st.bb_map h cur e,
        )
      ]

  pub image-start :
      (S : ℕ → Bool) (a : ℕ) (o : Bool) (i : ℕ) (v : Block)
      → image decode S a o i ≡ some v
      → S i ≡ true
  image-start S a o i v h = ground (arith, h)

  pub after_enter-IsFirst :
      (S : ℕ → Bool) (a : ℕ) (o : Bool) (st : State)
      → IsImage decode S a o st.bb_map
      → (next : ℕ) × (after_enter (4 * a) st ≡ record st { current = 4 * a; next_bb = next })
        × IsFirst S (suc a) next
  unfolding after_enter next_bb_addr lower_bound_bb
  after_enter-IsFirst S a o st (sorted, at, al) =
      let is_next = lower_bound-IsNext st.bb_map (4 * a + 4) sorted in
      elim (Option-cases (get_elem? st.bb_map (lower_bound st.bb_map (4 * a + 4)))) [
        | inl e ↦ (
          st.next_bb,
          ground (arith, e),
          λ j le h free. absurd (
              cc (at j, h, (subst (IsNext st.bb_map (4 * a + 4)) e is_next) (4 * j) (omega arith))),
        )
        | inr (x, e) ↦
            let (le, found, free) = subst (IsNext st.bb_map (4 * a + 4)) e is_next in
            let (q, eq) = al x.key x.val found in
            (
              x.key,
              ground (arith, e, update-next_bb st.next_bb x.key),
              λ j lej h freej.
                  let start : S q ≡ true =
                    image-start S a o q x.val
                      (sym (at q) ∙ (ap (lookup st.bb_map) (sym eq) ∙ found)) in
                  elim (Bool-cases (ltb q j)) [
                    | inl qj ↦
                        absurd (cc (start, freej q (omega (arith, eq, le)) (ground (arith, qj))))
                    | inr qj ↦ elim (Bool-cases (ltb j q)) [
                      | inl jq ↦
                          absurd (cc (at j, h, free (4 * j) (omega arith) (ground (arith, jq, eq))))
                      | inr jq ↦ ground (arith, qj, jq, eq)
                    ]
                  ],
            )
      ]
