-- ===== src/Sbt/PrintfBreak/Split.antt =====
-- One call of `split`: the next call's part of the format, and the part that is left.
use riscv_sbt.Prelude.{
  ℕ, ◌+◌, ◌-◌, ◌≤◌, ◌<◌, ◌≡◌, arith, Bool, true, false, List, [], ◌∷◌, ◌++◌, Option, some, ◌==◌, ap,
  ◌∙◌,
}
use riscv_sbt.Sbt.PrintfBreak.{Pass, Scan, scan, cut, split}
use riscv_sbt.Sbt.PrintfBreak.Directives.{directives, scan-count, scan_ends}

-- `back` is the plain call of what is left, and its format has a directive for each argument left.
pub record Ready (left : ℕ) (st : Pass) : Type 0 where
  pub plain : st.back.is_double ≡ false
  pub args : st.back.args ≡ left
  pub fits : directives st.back.fmt ≡ some left
  pub index : st.i + left ≡ st.n + 1
  pub started : 1 ≤ st.i

-- A double is split off alone.
abbrev pub AloneIf : Bool → ℕ → Type 0
AloneIf true n = n ≡ 1
AloneIf false n = Unit

split-scan :
    (n : ℕ) (is_double : Bool) (st : Pass) {r : Scan}
    → AloneIf is_double n
    → scan n 0 st.back.fmt ≡ some r
    → split n is_double st ≡ cut n is_double st r
unfolding split
split-scan n true st alone e = rw e (ground arith)
split-scan n false st alone e = rw e

cut_stopped :
    (n left : ℕ) (is_double : Bool) (st : Pass) (p q : List ℕ)
    → Ready left st
    → n < left
    → cut n is_double st (record { before = p; after = q; count = n + 1 })
      ≡ some (record {
        front = st.front ++ record { fmt = p; args = n; is_double = is_double } ∷ [];
        back = record { fmt = q; args = left - n; is_double = false };
        i = st.i + n;
        n = st.n;
      })
unfolding cut
cut_stopped n left is_double st p q r lt =
    let no_end : (n + 1 == n) ≡ false = ground arith in
    let stop : (n + 1 == n + 1) ≡ true = ground arith in
    let args : st.n - (st.i - 1) - n ≡ left - n = omega (arith, r.index) in rw (no_end, stop, args)

cut_ended :
    (n : ℕ) (is_double : Bool) (st : Pass)
    → Ready n st
    → cut n is_double st (record { before = st.back.fmt; after = []; count = n })
      ≡ some (record {
        front = st.front;
        back = record { fmt = st.back.fmt; args = n; is_double = is_double };
        i = st.i + n;
        n = st.n;
      })
unfolding cut
cut_ended n true st r = ground arith
cut_ended n false st r = ground (arith, r.plain, r.args)

pub split_stops :
    (n left : ℕ) (is_double : Bool) (st : Pass)
    → Ready left st
    → AloneIf is_double n
    → n < left
    → (p : List ℕ) × (q : List ℕ) × (split n is_double st
        ≡ some (record {
          front = st.front ++ record { fmt = p; args = n; is_double = is_double } ∷ [];
          back = record { fmt = q; args = left - n; is_double = false };
          i = st.i + n;
          n = st.n;
        }))
      × (p ++ q ≡ st.back.fmt)
      × (directives p ≡ some n)
      × (directives q ≡ some (left - n))
split_stops n left is_double st r alone lt =
    let (p, q, e, eq, dp, dq) =
      scan-count n 0 left st.back.fmt r.fits (omega arith) (omega arith) in
    (
      p,
      q,
      split-scan n is_double st alone e ∙ cut_stopped n left is_double st p q r lt,
      eq,
      dp ∙ ap some (omega arith),
      dq ∙ ap some (omega arith),
    )

pub split_ends :
    (n : ℕ) (is_double : Bool) (st : Pass)
    → Ready n st
    → AloneIf is_double n
    → split n is_double st
      ≡ some (record {
        front = st.front;
        back = record { fmt = st.back.fmt; args = n; is_double = is_double };
        i = st.i + n;
        n = st.n;
      })
split_ends n is_double st r alone =
    split-scan n is_double st alone (scan_ends n 0 n st.back.fmt r.fits (omega arith) ∙ ended)
    ∙ cut_ended n is_double st r
  where
    ended :
        ◌≡◌ {A = Option Scan}
          (some (record { before = st.back.fmt; after = []; count = 0 + n }))
          (some (record { before = st.back.fmt; after = []; count = n }))
    ended = ground arith
