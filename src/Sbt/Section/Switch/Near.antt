-- ===== src/Sbt/Section/Switch/Near.antt =====
-- `_nextFuncAddr` is the nearest function ahead.
use riscv_sbt.Prelude.{
  ℕ, ◌+◌, ◌%◌, ◌<◌, ◌≤◌, ◌≡◌, ◌≢◌, ◌⊎◌, inl, inr, ◌&&◌, List, Option, none, some, ltb, ◌==◌,
  if◌then◌else◌, arith, get_elem?, sym, subst, Option-cases, ◌∙◌, Bool-cases, refl,
}
use riscv_sbt.Sbt.Map.{Item, lookup, upsert, lower_bound}
use riscv_sbt.Sbt.Map.Laws.{IsSorted, lookup-upsert, upsert-IsSorted}
use riscv_sbt.Sbt.Map.Neighbours.{IsNext, lower_bound-IsNext}
use riscv_sbt.Sbt.Section.Switch.{State, update_next, add_func, get_by_addr, translate_inst}

abbrev pub Funcs : Type 0
Funcs = List (Item (Unit {0}))

-- A function at this address is known.
abbrev pub Known : Funcs → ℕ → Type 0
Known funcs k = lookup funcs k ≡ some tt

-- Functions stand at the addresses of instructions, and behind `c` the nearest is `_nextFuncAddr`.
pub record IsNear (c : ℕ) (funcs : Funcs) (next_func : ℕ) : Type 0 where
  pub sorted : IsSorted funcs
  pub aligned : (k : ℕ) → Known funcs k → k % 4 ≡ 0
  pub ahead : (k : ℕ) → Known funcs k → c < k → (c < next_func) × (next_func ≤ k)
  pub real : c < next_func → Known funcs next_func

-- The choice that `updateNextFuncAddr` makes.
abbrev chosen : ℕ → ℕ → Option (Item (Unit {0})) → ℕ
chosen addr next_func o = elim o [
  | none ↦ next_func
  | some nf ↦
      if ltb nf.key addr
      then next_func
      else if ltb addr next_func && ltb next_func nf.key
      then next_func
      else nf.key
]

-- A call of a new function, behind or ahead.
module _ (c t next_func : ℕ) (funcs added : Funcs) (near : IsNear c funcs next_func)
    (sorted_added : IsSorted added)
    (at : (k : ℕ) → lookup added k ≡ (if t == k then some tt else lookup funcs k))
    (target_aligned : t % 4 ≡ 0) where
  Known-added : (k : ℕ) → Known added k → (t ≡ k) ⊎ Known funcs k
  Known-added k h = elim (Bool-cases (t == k)) [
    | inl e ↦ inl (ground (arith, e))
    | inr e ↦ inr (sym (rw e at (at k)) ∙ h)
  ]

  added-Known : (k : ℕ) → Known funcs k → Known added k
  added-Known k h = ground (arith, at k)

  added_self : Known added t
  added_self = ground (arith, at t)

  aligned-added : (k : ℕ) → Known added k → k % 4 ≡ 0
  aligned-added k h = elim (Known-added k h) [ inl e ↦ ground arith | inr e ↦ near.aligned k e ]

  keep : (t < c) ⊎ ((c < next_func) × (next_func ≤ t)) → IsNear c added next_func
  keep h = record {
    sorted = sorted_added;
    aligned = aligned-added;
    ahead = λ k known lt. elim (Known-added k known) [
      | inl e ↦ elim h [ inl b ↦ absurd (omega arith) | inr b ↦ (omega arith, omega arith) ]
      | inr e ↦ near.ahead k e lt
    ];
    real = λ lt. added-Known next_func (near.real lt);
  }

  move : c < t → (c < next_func → t ≤ next_func) → IsNear c added t
  move h le = record {
    sorted = sorted_added;
    aligned = aligned-added;
    ahead = λ k known lt. (
      h,
      elim (Known-added k known) [
        | inl e ↦ omega arith
        | inr e ↦ let (a, b) = near.ahead k e lt in omega (arith, le a)
      ],
    );
    real = λ lt. added_self;
  }

  chosen-call :
      (o : Option (Item (Unit {0})))
      → t ≢ c
      → IsNext added t o
      → IsNear c added (chosen c next_func o)
  chosen-call none ne next = absurd (cc (added_self, next t (omega arith)))
  chosen-call (some x) ne (le, found, free) =
      let same : x.key ≡ t = elim (Bool-cases (ltb t x.key)) [
        | inl e ↦ absurd (cc (added_self, free t (omega arith) (ground (arith, e))))
        | inr e ↦ ground (arith, e)
      ] in
      elim (Bool-cases (ltb x.key c)) [
        | inl e ↦ rw e (keep (inl (ground (arith, e))))
        | inr e ↦ elim (Bool-cases (ltb c next_func && ltb next_func x.key)) [
          | inl f ↦ rw (e, f) (keep (inr (ground (arith, f), ground (arith, f))))
          | inr f ↦ rw (e, f, same) (move (ground (arith, e)) (λ lt. ground (arith, f)))
        ]
      ]

-- The start of a function: the nearest function behind its first instruction is looked up. `before`
-- is the address at which the translation stands by then.
module _ (before st next_func : ℕ) (funcs : Funcs) (is_sorted : IsSorted funcs)
    (are_aligned : (k : ℕ) → Known funcs k → k % 4 ≡ 0) (st_aligned : st % 4 ≡ 0)
    (not_past : before ≤ st) (fresh : (next_func ≤ before) ⊎ (st < next_func))
    (is_real : before < next_func → Known funcs next_func) where
  past_start : (k : ℕ) → Known funcs k → st < k → st + 4 ≤ k
  past_start k h lt = ground (arith, are_aligned k h)

  chosen-start :
      (o : Option (Item (Unit {0})))
      → IsNext funcs (st + 4) o
      → IsNear st funcs (chosen before next_func o)
  chosen-start none next = record {
    sorted = is_sorted;
    aligned = are_aligned;
    ahead = λ k known lt. absurd (cc (known, next k (past_start k known lt)));
    real = λ lt. is_real (omega arith);
  }
  chosen-start (some x) (le, found, free) =
      let moved : IsNear st funcs x.key = record {
        sorted = is_sorted;
        aligned = are_aligned;
        ahead = λ k known lt. (
          omega arith,
          elim (Bool-cases (ltb k x.key)) [
            | inl e ↦ absurd (cc (known, free k (past_start k known lt) (ground (arith, e))))
            | inr e ↦ ground (arith, e)
          ],
        );
        real = λ lt. found;
      } in
      elim (Bool-cases (ltb x.key before)) [
        | inl e ↦ absurd (ground (arith, e))
        | inr e ↦ elim (Bool-cases (ltb before next_func && ltb next_func x.key)) [
          | inl f ↦ absurd (not_kept (ground (arith, f)) (ground (arith, f)))
          | inr f ↦ rw (e, f) moved
        ]
      ]
    where
      not_kept : before < next_func → next_func < x.key → ⊥
      not_kept a b = elim fresh [
        | inl h ↦ omega arith
        | inr h ↦
            let known = is_real a in cc (known, free next_func (past_start next_func known h) b)
      ]

-- What stands ahead is kept, if it is nearer than any function from `next` on.
chosen_kept :
    (before next_func next : ℕ) (funcs : Funcs) (o : Option (Item (Unit {0})))
    → before < next_func
    → next_func < next
    → IsNext funcs next o
    → chosen before next_func o ≡ next_func
chosen_kept before next_func next funcs none a b h = refl
chosen_kept before next_func next funcs (some x) a b h = ground (arith, h.0)

pub update_next_kept :
    (next : ℕ) (s : State)
    → IsSorted s.funcs
    → s.addr < s.next_func
    → s.next_func < next
    → (update_next next s).next_func ≡ s.next_func
unfolding update_next
update_next_kept next s is_sorted a b =
    chosen_kept s.addr s.next_func next s.funcs (get_elem? s.funcs (lower_bound s.funcs next)) a b
      (lower_bound-IsNext s.funcs next is_sorted)

-- The state's invariant, and the steps of the translation.
abbrev pub Near : ℕ → State → Type 0
Near c s = IsNear c s.funcs s.next_func

pub update_next-Near :
    (st : ℕ) (s : State)
    → IsSorted s.funcs
    → ((k : ℕ) → Known s.funcs k → k % 4 ≡ 0)
    → st % 4 ≡ 0
    → s.addr ≤ st
    → (s.next_func ≤ s.addr) ⊎ (st < s.next_func)
    → (s.addr < s.next_func → Known s.funcs s.next_func)
    → Near st (update_next (st + 4) s)
unfolding update_next
update_next-Near st s is_sorted are_aligned st_aligned not_past fresh is_real =
    chosen-start s.addr st s.next_func s.funcs is_sorted are_aligned st_aligned not_past fresh
      is_real (get_elem? s.funcs (lower_bound s.funcs (st + 4)))
      (lower_bound-IsNext s.funcs (st + 4) is_sorted)

get_by_addr-Known : (t : ℕ) (s : State) → Known s.funcs t → get_by_addr t s ≡ s
unfolding get_by_addr
get_by_addr-Known t s e = rw (e, get_by_addr)

get_by_addr_new :
    (t : ℕ) (s : State) → lookup s.funcs t ≡ none → get_by_addr t s ≡ update_next t (add_func t s)
unfolding get_by_addr
get_by_addr_new t s e = rw (e, get_by_addr)

-- What the translation of an instruction does: the functions that were known stay so, that which it
-- calls is known, and the nearest one ahead is found.
pub record Called (c : ℕ) (o : Option ℕ) (s s' : State) : Type 0 where
  pub near : Near c s'
  pub kept : (k : ℕ) → Known s.funcs k → Known s'.funcs k
  pub named : (t : ℕ) → o ≡ some t → Known s'.funcs t

new-Called :
    (t : ℕ) (s : State)
    → Near s.addr s
    → t % 4 ≡ 0
    → t ≢ s.addr
    → Called s.addr (some t) s (update_next t (add_func t s))
unfolding update_next add_func
new-Called t s near al ne =
    let added = upsert s.funcs t tt in
    let at = λ (k : ℕ). lookup-upsert s.funcs t k tt near.sorted in
    let is_sorted = upsert-IsSorted s.funcs t tt near.sorted in
    record {
      near =
          chosen-call s.addr t s.next_func s.funcs added near is_sorted at al
            (get_elem? added (lower_bound added t)) ne (lower_bound-IsNext added t is_sorted);
      kept = λ k known. added-Known s.addr t s.next_func s.funcs added near is_sorted at al k known;
      named = λ t' e.
          ground (arith, at t', added_self s.addr t s.next_func s.funcs added near is_sorted at al);
    }

pub translate_inst-Called :
    (o : Option ℕ) (s : State)
    → Near s.addr s
    → ((t : ℕ) → o ≡ some t → (t % 4 ≡ 0) × (t ≢ s.addr))
    → Called s.addr o s (translate_inst o s)
unfolding translate_inst
translate_inst-Called none s near ok = record {
  near = near;
  kept = λ k known. known;
  named = λ t e. cc;
}
translate_inst-Called (some t) s near ok = elim (Option-cases (lookup s.funcs t)) [
  | inl e ↦
      subst (Called s.addr (some t) s) (sym (get_by_addr_new t s e))
        (new-Called t s near (ok t refl).0 (ok t refl).1)
  | inr (u, e) ↦
      subst (Called s.addr (some t) s) (sym (get_by_addr-Known t s e))
        (record { near = near; kept = λ k known. known; named = λ t' f. ground arith })
]
