-- ===== src/Sbt/Function/Jump/Back.antt =====
-- The block of a jump backward: `getBackBB`, and the split.
use riscv_sbt.Prelude.{
  ℕ, suc, ◌+◌, ◌-◌, ◌*◌, ◌<◌, ◌≤◌, ◌≡◌, refl, sym, ap, ◌∙◌, Bool, true, false, ltb, leb, ◌==◌,
  if◌then◌else◌, arith, some, Option-cases, subst, Bool-cases, inl, inr,
}
use riscv_sbt.Sbt.Map.{lookup, upsert}
use riscv_sbt.Sbt.Function.Blocks.{Blocks, br, get_back_bb, size}
use riscv_sbt.Sbt.Function.Blocks.Laws.{IsBack, get_back_bb-IsBack}
use riscv_sbt.Sbt.Function.Jump.{
  Guest, State, backward, backward_to, split_parts, split_at, in_bounds,
}
use riscv_sbt.Sbt.Function.Jump.Scan.{
  stop, ins, stop-le, stop-found, stop-free, stop-ins, stop-skip,
}
use riscv_sbt.Sbt.Function.Jump.Image.{is_straight, run, block, IsImage, split-IsImage}
use riscv_sbt.Sbt.Function.Jump.Moves.{IsCurrent}
use riscv_sbt.Sbt.Function.Jump.Run.{size-block, split-block}
use riscv_sbt.Sbt.Function.Jump.Ready.{IsStarts, image-start, same-IsImage}

-- `c` is the block in translation, and `a` is in no other.
abbrev pub IsPlaced : (ℕ → Guest) → (ℕ → Bool) → ℕ → Bool → ℕ → State → Type 0
IsPlaced decode S a o c st =
    IsImage decode S a o st.bb_map
    × (st.current ≡ 4 * c)
    × IsCurrent S a o c
    × (o ≡ false → S a ≡ false)

-- `q` is the last start up to `t`.
abbrev IsLast : (ℕ → Bool) → ℕ → ℕ → Type 0
IsLast S t q = (S q ≡ true) × (q ≤ t) × ((j : ℕ) → q < j → j ≤ t → S j ≡ false)

-- The split follows the block in translation.
split-IsCurrent :
    (S : ℕ → Bool) (a : ℕ) (o : Bool) (t q c : ℕ)
    → IsLast S t q
    → q < t
    → t < a
    → IsCurrent S a o c
    → IsCurrent (ins t S) a o (if c == q then t else c)
split-IsCurrent S a true t q c last qt lt (e, at) = (ground (arith, e), ground (arith, at))
split-IsCurrent S a false t q c (start, le, free) qt lt (ca, at, e) = elim (Bool-cases (c == q)) [
  | inl h ↦
      subst (λ (b : Bool). IsCurrent (ins t S) a false (if b then t else c)) (sym h)
        (
          lt,
          ground arith,
          ground (
            arith,
            h,
            e,
            ap (λ (j : ℕ). stop S j a) {x = c} {y = q} (ground (arith, h)),
            stop-ins S t t a,
            stop-skip S t q a,
          ),
        )
  | inr h ↦
      subst (λ (b : Bool). IsCurrent (ins t S) a false (if b then t else c)) (sym h)
        (ca, ground (arith, at), ground (arith, e, stop-ins S t c a, last_le c h at e))
]
  where
    last_le : (c : ℕ) → (c == q) ≡ false → S c ≡ true → stop S c a ≡ a → t ≤ c
    last_le c h at e = elim (Bool-cases (ltb c q)) [
      | inl x ↦ absurd (cc (start, stop-free S c a q (ground (arith, x)) (omega arith)))
      | inr x ↦ elim (Bool-cases (leb c t)) [
        | inl y ↦ absurd (cc (at, free c (ground (arith, x, h)) (ground (arith, y))))
        | inr y ↦ ground (arith, y)
      ]
    ]

-- A start that is there already.
here-IsCurrent :
    (S : ℕ → Bool) (a : ℕ) (o : Bool) (t c : ℕ)
    → S t ≡ true
    → IsCurrent S a o c
    → IsCurrent (ins t S) a o c
here-IsCurrent S a true t c h (e, at) = (e, ground (arith, at))
here-IsCurrent S a false t c h (ca, at, e) =
    (ca, ground (arith, at), ground (arith, e, h, stop-ins S t c a, stop-free S c a t))

pub here-IsPlaced :
    (decode : ℕ → Guest) (S : ℕ → Bool) (a : ℕ) (o : Bool) (t c : ℕ) (st : State)
    → S t ≡ true
    → IsPlaced decode S a o c st
    → IsPlaced decode (ins t S) a o c st
here-IsPlaced decode S a o t c st h (img, at, cur, new) = (
  same-IsImage decode S a o st.bb_map t img h,
  at,
  here-IsCurrent S a o t c h cur,
  λ e. elim (Bool-cases (a == t)) [
    | inl x ↦ absurd (cc (h, new e, ap S {x = a} {y = t} (ground (arith, x))))
    | inr x ↦ ground (arith, new e, x)
  ],
)

module _ (decode : ℕ → Guest) (s : ℕ) (S : ℕ → Bool) (a : ℕ) (o : Bool)
    (starts : IsStarts decode s S a) where
  back_block :
      (m : Blocks) (t : ℕ)
      → IsImage decode S a o m
      → s ≤ t
      → (q : ℕ) × (get_back_bb m (4 * t)
          ≡ some (record { key = 4 * q; val = block decode S a o q }))
        × IsLast S t q
  back_block m t (sorted, at, al) le =
      let found =
        get_back_bb-IsBack m (4 * t) (4 * s) (block decode S a o s) sorted
          (at s ∙ ground (arith, starts.entry)) (omega arith) in
      elim (Option-cases (get_back_bb m (4 * t))) [
        | inl e ↦ absurd (subst (IsBack m (4 * t)) e found)
        | inr (x, e) ↦
            let (below, here, free) = subst (IsBack m (4 * t)) e found in
            let (q, eq) = al x.key x.val here in
            let val = sym (at q) ∙ (ap (lookup m) (sym eq) ∙ here) in
            let start = image-start decode S a o q x.val val in
            (
              q,
              ground (arith, e, eq, val, start),
              (
                start,
                omega (arith, eq, below),
                λ j lt lj. elim (Bool-cases (S j)) [
                  | inl sj ↦ absurd (cc (at j, sj, free (4 * j) (omega (arith, eq)) (omega arith)))
                  | inr sj ↦ sj
                ],
              ),
            )
      ]

  last_stop : (t q : ℕ) → IsLast S t q → t < a → t < stop S q a
  last_stop t q (start, le, free) lt = elim (Bool-cases (ltb t (stop S q a))) [
    | inl e ↦ ground (arith, e)
    | inr e ↦
        let (l, u) = stop-le S q a (omega arith) in
        absurd (
          cc (
            stop-found S q a (ground (arith, e)) (omega arith),
            free (stop S q a) l (ground (arith, e)),
          ))
  ]

  inner_straight :
      (j : ℕ) → s ≤ j → suc j < a → S (suc j) ≡ false → is_straight (decode (4 * j)) ≡ true
  inner_straight j le lt fresh = elim (Bool-cases (is_straight (decode (4 * j)))) [
    | inl e ↦ e
    | inr e ↦ absurd (cc (fresh, starts.ends j le lt e))
  ]

  in_bounds-block : (t q : ℕ) → IsLast S t q → t < a → t < q + size (block decode S a o q)
  in_bounds-block t q (start, le, free) lt =
      let te = last_stop t q (start, le, free) lt in
      let (l, u) = stop-le S q a (omega arith) in
      let low = starts.low q start in
      size-block decode S a o q t (omega arith) le te (λ j x y.
        inner_straight j (omega arith) (omega arith)
          (stop-free S q a (suc j) (omega arith) (omega arith)))

  -- The block is cut, if it does not start there.
  cut :
      (t q c : ℕ) (st : State)
      → IsLast S t q
      → q < t
      → t < a
      → IsPlaced decode S a o c st
      → (st' : State) × (split_at (4 * q) (block decode S a o q) (4 * t) st ≡ some st')
        × IsPlaced decode (ins t S) a o (if c == q then t else c) st'
  unfolding split_at split_parts
  cut t q c st last qt lt (img, at, cur, new) =
      let te = last_stop t q last lt in
      let qa : q < a = omega arith in
      let fresh = last.2 t qt (omega arith) in
      let low = starts.low q last.0 in
      let str =
        inner_straight (t - 1) (omega (arith, low, qt)) (omega (arith, lt, qt))
          (ap S {x = suc (t - 1)} {y = t} (omega (arith, qt)) ∙ fresh) in
      (
        record {
          bb_map =
              upsert
                (upsert st.bb_map (4 * q)
                  (record { instrs = run decode q (t - q); term = br (4 * t) }))
                (4 * t)
                (record {
                  instrs = run decode t (stop S q a - t);
                  term = (block decode S a o q).term;
                });
          current = 4 * (if c == q then t else c);
          next_bb = st.next_bb;
        },
        ground (arith, at, split-block decode S a o q t qa (omega arith) te),
        (
          split-IsImage decode S a o st.bb_map t q img last.0 qa qt te fresh str,
          refl,
          split-IsCurrent S a o t q c last qt lt cur,
          λ e. ground (arith, new e),
        ),
      )

  pub backward-IsPlaced :
      (pending t c : ℕ) (st : State)
      → IsPlaced decode S a o c st
      → s ≤ t
      → t < a
      → (st' : State) × (c' : ℕ) × (backward pending (4 * t) st ≡ some st')
        × IsPlaced decode (ins t S) a o c' st'
  unfolding backward backward_to in_bounds
  backward-IsPlaced pending t c st placed le lt =
      let (q, e, last) = back_block st.bb_map t placed.0 le in
      let long = in_bounds-block t q last lt in
      let chosen = ap (backward_to pending (4 * t) st) e in
      elim (Bool-cases (q == t)) [
        | inl h ↦ (
          st,
          c,
          chosen ∙ ground (arith, long, h, last.1),
          here-IsPlaced decode S a o t c st (ap S (ground (arith, h)) ∙ last.0) placed,
        )
        | inr h ↦
            let (st', eq, placed') = cut t q c st last (ground (arith, h, last.1)) lt placed in
            (
              st',
              (if c == q then t else c),
              chosen ∙ (ground (arith, long, h, last.1) ∙ eq),
              placed',
            )
      ]
