-- ===== src/Sbt/PrintfBreak/Directives.antt =====
-- The scan of a format string, against its count of directives.
use native.Mathlib.Decide.{dec_lt}
use riscv_sbt.Prelude.{
  ℕ, ◌+◌, ◌-◌, ◌≤◌, ◌<◌, ◌≡◌, refl, arith, true, false, List, [], ◌∷◌, ◌++◌, Option, none, some,
  ◌==◌, if◌then◌else◌, ap, Bool-cases, inl, inr, ◌∙◌, sym,
}
use riscv_sbt.Sbt.PrintfBreak.{scan, passed}

abbrev plus_one : Option ℕ → Option ℕ
plus_one none = none
plus_one (some k) = some (k + 1)

-- The number of directives of a format string: its `%` that are not escaped. None if it ends in a
-- single `%`.
unfoldable pub directives : List ℕ → Option ℕ
directives [] = some 0
directives (c ∷ []) = if c == b'%' then none else some 0
directives (c ∷ d ∷ r) =
    let one = directives (d ∷ r) in
    let two = directives r in if c == b'%' then if d == b'%' then two else plus_one two else one

plus_one-inv : (o : Option ℕ) (d : ℕ) → plus_one o ≡ some d → (k : ℕ) × (o ≡ some k) × (d ≡ k + 1)
plus_one-inv none d h = absurd (cc)
plus_one-inv (some k) d h = (k, refl, ground arith)

directives-plain : (c : ℕ) (p : List ℕ) → (c == b'%') ≡ false → directives (c ∷ p) ≡ directives p
unfolding directives
directives-plain c [] h = rw h
directives-plain c (d ∷ r) h = rw h

-- One step of the scan in each of its branches.
module _ (n count c d : ℕ) (r : List ℕ) where
  scan-plain :
      (c == b'%') ≡ false → scan n count (c ∷ d ∷ r) ≡ passed (c ∷ []) (scan n count (d ∷ r))
  unfolding scan
  scan-plain h = rw h

  scan-escaped :
      (c == b'%') ≡ true
      → (d == b'%') ≡ true
      → count ≤ n
      → scan n count (c ∷ d ∷ r) ≡ passed (c ∷ d ∷ []) (scan n count r)
  unfolding scan
  scan-escaped h g le = let e : (count == n + 1) ≡ false = ground arith in rw (h, g, e)

  scan-here :
      (c == b'%') ≡ true
      → (d == b'%') ≡ false
      → count ≡ n
      → scan n count (c ∷ d ∷ r) ≡ some (record { before = []; after = c ∷ d ∷ r; count = n + 1 })
  unfolding scan
  scan-here h g e = let t : (n + 1 == n + 1) ≡ true = ground arith in rw (e, h, g, t)

  scan-next :
      (c == b'%') ≡ true
      → (d == b'%') ≡ false
      → count < n
      → scan n count (c ∷ d ∷ r) ≡ passed (c ∷ d ∷ []) (scan n (count + 1) r)
  unfolding scan
  scan-next h g lt = let e : (count + 1 == n + 1) ≡ false = ground arith in rw (h, g, e)

  directives-escaped :
      (c == b'%') ≡ true → (d == b'%') ≡ true → directives (c ∷ d ∷ r) ≡ directives r
  unfolding directives
  directives-escaped h g = rw (h, g)

  directives-directive :
      (c == b'%') ≡ true → (d == b'%') ≡ false → directives (c ∷ d ∷ r) ≡ plus_one (directives r)
  unfolding directives
  directives-directive h g = rw (h, g)

-- The scan found the directive after the `n`-th: the string is cut in front of it.
abbrev pub Stops : ℕ → ℕ → ℕ → List ℕ → Type 0
Stops n count d s =
    (p : List ℕ) × (q : List ℕ) × (scan n count s
      ≡ some (record { before = p; after = q; count = n + 1 }))
    × (p ++ q ≡ s)
    × (directives p ≡ some (n - count))
    × (directives q ≡ some (count + d - n))

pub scan-count :
    (n count d : ℕ) (s : List ℕ)
    → directives s ≡ some d
    → count ≤ n
    → n < count + d
    → Stops n count d s
scan-count n count k [] h le lt = absurd (unfold directives in ground arith)
scan-count n count k (c ∷ []) h le lt = absurd (unfold directives in ground arith)
scan-count n count k (c ∷ d ∷ r) h le lt = elim (Bool-cases (c == b'%')) [
  | inr plain ↦
      let (p, q, e, eq, dp, dq) =
        scan-count n count k (d ∷ r) (sym (directives-plain c (d ∷ r) plain) ∙ h) le lt in
      (
        c ∷ p,
        q,
        scan-plain n count c d r plain ∙ ap (passed (c ∷ [])) e,
        ap (λ l. c ∷ l) eq,
        directives-plain c p plain ∙ dp,
        dq,
      )
  | inl percent ↦ elim (Bool-cases (d == b'%')) [
    | inl escaped ↦
        let (p, q, e, eq, dp, dq) =
          scan-count n count k r (sym (directives-escaped n count c d r percent escaped) ∙ h) le
            lt in
        (
          c ∷ d ∷ p,
          q,
          scan-escaped n count c d r percent escaped le ∙ ap (passed (c ∷ d ∷ [])) e,
          ap (λ l. c ∷ d ∷ l) eq,
          directives-escaped n count c d p percent escaped ∙ dp,
          dq,
        )
    | inr directive ↦
        let (j, e, f) =
          plus_one-inv (directives r) k
            (sym (directives-directive n count c d r percent directive) ∙ h) in
        elim (dec_lt count n) [
          | no at_n ↦ (
            [],
            c ∷ d ∷ r,
            scan-here n count c d r percent directive (omega arith),
            refl,
            unfold directives in ap some (omega arith),
            h ∙ ap some (omega arith),
          )
          | yes before_n ↦
              let (p, q, e', eq, dp, dq) =
                scan-count n (count + 1) j r e (omega arith) (omega arith) in
              (
                c ∷ d ∷ p,
                q,
                scan-next n count c d r percent directive before_n ∙ ap (passed (c ∷ d ∷ [])) e',
                ap (λ l. c ∷ d ∷ l) eq,
                directives-directive n count c d p percent directive
                    ∙ ap plus_one dp
                    ∙ ap some (omega arith),
                dq ∙ ap some (omega arith),
              )
        ]
  ]
]

-- The scan ran to the end.
pub scan_ends :
    (n count d : ℕ) (s : List ℕ)
    → directives s ≡ some d
    → count + d ≤ n
    → scan n count s ≡ some (record { before = s; after = []; count = count + d })
scan_ends n count d [] h le = unfold directives scan in ground arith
scan_ends n count d (c ∷ []) h le = unfold directives scan in ground arith
scan_ends n count k (c ∷ d ∷ r) h le = elim (Bool-cases (c == b'%')) [
  | inr plain ↦
      scan-plain n count c d r plain
      ∙ ap (passed (c ∷ []))
          (scan_ends n count k (d ∷ r) (sym (directives-plain c (d ∷ r) plain) ∙ h) le)
  | inl percent ↦ elim (Bool-cases (d == b'%')) [
    | inl escaped ↦
        scan-escaped n count c d r percent escaped (omega arith)
        ∙ ap (passed (c ∷ d ∷ []))
            (scan_ends n count k r (sym (directives-escaped n count c d r percent escaped) ∙ h) le)
    | inr directive ↦
        let (j, e, f) =
          plus_one-inv (directives r) k
            (sym (directives-directive n count c d r percent directive) ∙ h) in
        scan-next n count c d r percent directive (omega arith)
        ∙ ap (passed (c ∷ d ∷ [])) (scan_ends n (count + 1) j r e (omega arith))
        ∙ ap (λ t. some (record { before = c ∷ d ∷ r; after = []; count = t })) (omega arith)
  ]
]
