-- ===== src/Sbt/Function/Loop/Laws.antt =====
-- The basic blocks that the translation finds, against the guest code.
use riscv_sbt.Prelude.{
  ℕ, zero, suc, ◌+◌, ◌-◌, ◌*◌, ◌<◌, ◌≤◌, ◌≡◌, sym, ap, ◌∙◌, Bool, true, false, ◌&&◌, ◌||◌, ltb,
  ◌==◌, if◌then◌else◌, arith, List, [], none, some, subst, Bool-cases, inl, inr, ◌⊎◌,
}
use riscv_sbt.Sbt.Map.{Item, lookup}
use riscv_sbt.Sbt.Function.Blocks.{Block, Blocks, Terminator}
use riscv_sbt.Sbt.Function.Jump.{Guest, State}
use riscv_sbt.Sbt.Function.Loop.{translate_instrs}
use riscv_sbt.Sbt.Function.Jump.Scan.{stop, stop-le, stop-found, stop-free}
use riscv_sbt.Sbt.Function.Jump.Image.{ending, is_straight, run, block_to, block}
use riscv_sbt.Sbt.Function.Jump.Ready.{IsBetween, image-start}
use riscv_sbt.Sbt.Function.Loop.Work.{IsCode}
use riscv_sbt.Sbt.Function.Loop.Flow.{
  contains, leads_to, follows, goes_to, contains-run, run-contains, next_in-run, next_in, no_instr,
  goes_to-ending, follows-straight, goes_to-cases,
}
use riscv_sbt.Sbt.Function.Loop.Stops.{translate_instrs-Stops}

-- The last start up to `j`.
last_start :
    (S : ℕ → Bool) (s j : ℕ)
    → S s ≡ true
    → s ≤ j
    → (i : ℕ) × (S i ≡ true) × (i ≤ j) × ((k : ℕ) → i < k → k ≤ j → S k ≡ false)
last_start S s zero h le = (s, h, le, λ k x y. absurd (omega (arith, le, x, y)))
last_start S s (suc j) h le = elim (Bool-cases (S (suc j))) [
  | inl e ↦ (suc j, e, omega arith, λ k x y. absurd (omega (arith, x, y)))
  | inr e ↦ elim (Bool-cases (s == suc j)) [
    | inl e' ↦ absurd (cc (e, h, ap S {x = s} {y = suc j} (ground (arith, e'))))
    | inr e' ↦
        let (i, at, below, free) = last_start S s j h (ground (arith, e', le)) in
        (
          i,
          at,
          omega arith,
          λ k x y. elim (Bool-cases (k == suc j)) [
            | inl z ↦ ap S {x = k} {y = suc j} (ground (arith, z)) ∙ e
            | inr z ↦ free k x (ground (arith, z, y))
          ],
        )
  ]
]

-- One block holds the instruction at `x`, and no other does.
abbrev pub IsCovered : Blocks → ℕ → Type 0
IsCovered m x =
    (k : ℕ) × (v : Block) × (lookup m k ≡ some v)
    × (contains v.instrs x ≡ true)
    × ((k' : ℕ) (v' : Block) → lookup m k' ≡ some v' → contains v'.instrs x ≡ true → k' ≡ k)

module _ (decode : ℕ → Guest) (s : ℕ) (S : ℕ → Bool) (b c : ℕ) (st : State)
    (between : IsBetween decode s S b c st) where
  block_of :
      (k : ℕ) (v : Block)
      → lookup st.bb_map k ≡ some v
      → (i : ℕ) × (k ≡ 4 * i) × (S i ≡ true) × (v ≡ block decode S b false i)
  block_of k v h =
      let (i, e) = between.img.2 k v h in
      let at = sym (between.img.1 i) ∙ (ap (lookup st.bb_map) (sym e) ∙ h) in
      let start = image-start decode S b false i v at in (i, e, start, ground (arith, at, start))

  instrs_before :
      (i : ℕ) → i < b → (block decode S b false i).instrs ≡ run decode i (stop S i b - i)
  unfolding block_to
  instrs_before i lt = ground (arith, lt)

  instrs_after : (i : ℕ) → b ≤ i → (block decode S b false i).instrs ≡ []
  unfolding block_to
  instrs_after i le = ground (arith, le)

  term_before :
      (i : ℕ)
      → i < b
      → (block decode S b false i).term
        ≡ ending (decode (4 * (stop S i b - 1))) (4 * stop S i b) (ltb (stop S i b) b || false)
  unfolding block_to
  term_before i lt = ground (arith, lt)

  instr_of :
      (i x : ℕ)
      → contains (block decode S b false i).instrs x ≡ true
      → (i < b) × ((j : ℕ) × (x ≡ 4 * j) × (i ≤ j) × (j < stop S i b))
  instr_of i x h = elim (Bool-cases (ltb i b)) [
    | inl e ↦
        let (l, u) = stop-le S i b (ground (arith, e)) in
        let (j, a, y, z) = run-contains decode i (stop S i b - i) x (
          ap (λ (is : List (Item ℕ)). contains is x) (sym (instrs_before i (ground (arith, e))))
          ∙ h) in
        (ground (arith, e), (j, a, y, omega (arith, z, l)))
    | inr e ↦ absurd (
        no_instr x (
          ap (λ (is : List (Item ℕ)). contains is x) (sym (instrs_after i (ground (arith, e))))
          ∙ h))
  ]

  end_of : (i j : ℕ) → j < b → i ≤ j → ((k : ℕ) → i < k → k ≤ j → S k ≡ false) → j < stop S i b
  end_of i j lt le free = elim (Bool-cases (ltb j (stop S i b))) [
    | inl e ↦ ground (arith, e)
    | inr e ↦
        let (l, u) = stop-le S i b (omega arith) in
        absurd (
          cc (
            stop-found S i b (ground (arith, e)) (omega arith),
            free (stop S i b) l (ground (arith, e)),
          ))
  ]

  same_block :
      (i k j : ℕ)
      → S i ≡ true
      → S k ≡ true
      → i ≤ j
      → j < stop S i b
      → k ≤ j
      → j < stop S k b
      → k ≡ i
  same_block i k j si sk a b' c' d = elim (Bool-cases (ltb i k)) [
    | inl e ↦ absurd (cc (sk, stop-free S i b k (ground (arith, e)) (omega arith)))
    | inr e ↦ elim (Bool-cases (ltb k i)) [
      | inl e' ↦ absurd (cc (si, stop-free S k b i (ground (arith, e')) (omega arith)))
      | inr e' ↦ ground (arith, e, e')
    ]
  ]

  covered : (j : ℕ) → s ≤ j → j < b → IsCovered st.bb_map (4 * j)
  covered j le lt =
      let (i, at, below, free) = last_start S s j between.starts.entry le in
      let end = end_of i j lt below free in
      (
        4 * i,
        block decode S b false i,
        between.img.1 i ∙ ground (arith, at),
        ap (λ (is : List (Item ℕ)). contains is (4 * j)) (instrs_before i (omega arith))
            ∙ ground (arith, contains-run decode i (stop S i b - i) j),
        λ k' v' h' in'.
            let (i', e', at', val') = block_of k' v' h' in
            let (lt', (j', x, y, z)) =
              instr_of i' (4 * j)
                (ap (λ (v : Block). contains v.instrs (4 * j)) (sym val') ∙ in') in
            let same =
              same_block i i' j at at' below end (omega (arith, x, y)) (omega (arith, x, z)) in
            e' ∙ ap (λ (n : ℕ). 4 * n) same,
      )

  inner : (j : ℕ) → s ≤ j → suc j < b → S (suc j) ≡ false → is_straight (decode (4 * j)) ≡ true
  inner j le lt fresh = elim (Bool-cases (is_straight (decode (4 * j)))) [
    | inl e ↦ e
    | inr e ↦ absurd (cc (fresh, between.starts.ends j le lt e))
  ]

  at_low : (i j : ℕ) → S i ≡ true → i ≤ j → s ≤ j
  at_low i j at le = let low = between.starts.low i at in omega arith

  led :
      (i j : ℕ) (taken : Bool)
      → S i ≡ true
      → i < b
      → i ≤ j
      → j < stop S i b
      → leads_to (block decode S b false i) (4 * j) taken ≡ (
          if is_straight (decode (4 * j)) && 4 * j + 4 == 4 * b
          then none
          else follows (decode (4 * j)) (4 * j) taken)
  unfolding leads_to
  led i j taken at lt le end =
      let (l, u) = stop-le S i b lt in
      let e = stop S i b in
      let term = term_before i lt in
      let run_of =
        ap
          (λ (is : List (Item ℕ)).
            next_in is (4 * j) (goes_to (block decode S b false i).term taken))
          (instrs_before i lt) in
      let next =
        next_in-run decode i (e - i) j (goes_to (block decode S b false i).term taken) le
          (omega arith) in
      elim (Bool-cases (suc j == e)) [
        | inl h ↦
            let last = ap (λ (n : ℕ). decode (4 * n)) {x = e - 1} {y = j} (ground (arith, h)) in
            run_of
            ∙ (next
                ∙ ground (
                  arith,
                  h,
                  term,
                  last,
                  goes_to-ending (decode (4 * j)) (4 * e) (ltb e b || false) taken (4 * j),
                ))
        | inr h ↦
            let str =
              inner j (at_low i j at le) (ground (arith, u, end, h))
                (stop-free S i b (suc j) (omega arith) (ground (arith, h, end))) in
            run_of
            ∙ (next
                ∙ ground
                    (arith, h, str, u, end, follows-straight (decode (4 * j)) (4 * j) taken str))
      ]

  start_at : (q y : ℕ) → S q ≡ true → y ≡ 4 * q → (v : Block) × (lookup st.bb_map y ≡ some v)
  start_at q y at e =
      (block decode S b false q, ap (lookup st.bb_map) e ∙ (between.img.1 q ∙ ground (arith, at)))

  arrives :
      (i y : ℕ) (taken : Bool)
      → S i ≡ true
      → i < b
      → goes_to (block decode S b false i).term taken ≡ some y
      → (v : Block) × (lookup st.bb_map y ≡ some v)
  arrives i y taken at lt h =
      let (l, u) = stop-le S i b lt in
      let e = stop S i b in
      let low = between.starts.low i at in
      let behind = ap S {x = suc (e - 1)} {y = e} (omega (arith, l)) in
      elim (goes_to-cases (decode (4 * (e - 1))) (4 * e) (ltb e b || false) taken y
        (ap (λ (t : Terminator). goes_to t taken) (sym (term_before i lt)) ∙ h)) [
          | inl t ↦
              let (q, tq, sq, sn) =
                between.starts.goals (e - 1) y (omega (arith, low, l)) (omega (arith, l, u)) t in
              start_at q y sq tq
          | inr (ye, inl closed) ↦ start_at e y (stop-found S i b (ground (arith, closed)) lt) ye
          | inr (ye, inr (t, g)) ↦
              let (q, tq, sq, sn) =
                between.starts.goals (e - 1) t (omega (arith, low, l)) (omega (arith, l, u)) g in
              start_at e y (sym behind ∙ sn) ye
        ]

-- Of guest code that is not empty and in which each jump goes to another instruction, from the
-- function's start on, no assertion of the translation fails. It stops at the end, or at an address
-- where the function changes; the function changes at no address between the start and there, and
-- each instruction up to there is in exactly one block.
pub translate_instrs-IsCovered :
    (decode : ℕ → Guest) (is_switch : ℕ → Bool) (n s : ℕ)
    → 0 < n
    → ((j : ℕ) → s ≤ j → j < s + n → IsCode decode s j)
    → (st : State) × (b : ℕ) × (translate_instrs decode is_switch n (4 * s) ≡ some (st, 4 * b))
      × (s < b)
      × (b ≤ s + n)
      × ((b ≡ s + n) ⊎ (is_switch (4 * b) ≡ true))
      × ((j : ℕ) → s < j → j < b → is_switch (4 * j) ≡ false)
      × ((j : ℕ) → s ≤ j → j < b → IsCovered st.bb_map (4 * j))
translate_instrs-IsCovered decode is_switch n s h code =
    let (b, S, c, st, e, lt, le, why, no_switch, between) =
      translate_instrs-Stops decode s is_switch n h code in
    (st, b, e, lt, le, why, no_switch, covered decode s S b c st between)

-- Of guest code that is not empty and in which each jump goes to another instruction, from the
-- function's start on, the control flow of the blocks is that of the guest code: behind each
-- instruction of a block comes, in the block or by its terminator, the instruction that follows in
-- the guest program, nothing being known behind the last one that is translated; and a terminator
-- goes to the start of a block.
pub translate_instrs-follows :
    (decode : ℕ → Guest) (is_switch : ℕ → Bool) (n s : ℕ)
    → 0 < n
    → ((j : ℕ) → s ≤ j → j < s + n → IsCode decode s j)
    → (st : State) × (end : ℕ) × (translate_instrs decode is_switch n (4 * s) ≡ some (st, end))
      × ((k x : ℕ) (v : Block) (taken : Bool)
          → lookup st.bb_map k ≡ some v
          → contains v.instrs x ≡ true
          → (leads_to v x taken ≡ (
              if is_straight (decode x) && x + 4 == end then none else follows (decode x) x taken))
            × ((y : ℕ)
                → goes_to v.term taken ≡ some y
                → (v' : Block) × (lookup st.bb_map y ≡ some v')))
translate_instrs-follows decode is_switch n s h code =
    let (b, S, c, st, e, lt, le, why, no_switch, between) =
      translate_instrs-Stops decode s is_switch n h code in
    (
      st,
      4 * b,
      e,
      λ k x v taken at inside.
          let (i, ki, si, ev) = block_of decode s S b c st between k v at in
          let (ib, (j, xj, ij, js)) =
            instr_of decode s S b c st between i x
              (ap (λ (v : Block). contains v.instrs x) (sym ev) ∙ inside) in
          (
            ap (λ (v : Block). leads_to v x taken) ev
                ∙ subst
                    (λ (x : ℕ). leads_to (block decode S b false i) x taken ≡ (
                      if is_straight (decode x) && x + 4 == 4 * b
                      then none
                      else follows (decode x) x taken))
                    (sym xj) (led decode s S b c st between i j taken si ib ij js),
            λ y g.
                arrives decode s S b c st between i y taken si ib
                  (ap (λ (v : Block). goes_to v.term taken) (sym ev) ∙ g),
          ),
    )
