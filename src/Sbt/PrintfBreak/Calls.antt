-- ===== src/Sbt/PrintfBreak/Calls.antt =====
-- The calls that one `split` of the `printf` pass makes, and what they print and take.

use mathlib.Core.List.{append_assoc, append-nil}
use riscv_sbt.Prelude.{
  ℕ, ◌+◌, ◌-◌, ◌≤◌, ◌<◌, ◌≡◌, refl, arith, Bool, true, false, List, [], ◌∷◌, ◌++◌, Option, none,
  some, if◌then◌else◌, ap, ◌∙◌, sym, subst, length, take, drop, leb, length-append,
}
use riscv_sbt.Sbt.PrintfBreak.{
  ArgType, integer, double, float, pointer, PCall, Pass, Call, split, issue, ◌>>=◌,
}
use riscv_sbt.Sbt.PrintfBreak.Directives.{directives}
use riscv_sbt.Sbt.PrintfBreak.Split.{Ready, AloneIf, split_stops, split_ends}

-- An argument of one word.
abbrev pub IsNarrow : ArgType → Type 0
IsNarrow (integer bits) = bits ≤ 32
IsNarrow pointer = Unit
IsNarrow double = ⊥
IsNarrow float = ⊥

-- An argument that the pass can handle.
abbrev pub IsPassable : ArgType → Type 0
IsPassable double = Unit
IsPassable ty = IsNarrow ty

abbrev pub All : {A : Type 0} → (A → Type 0) → List A → Type 0
All P [] = Unit
All P (x ∷ xs) = P x × All P xs

-- A call of `sbt_printf_d` has one double, and a call of `printf` at most four arguments, all narrow.
abbrev pub Carries : Bool → List ArgType → Type 0
Carries true tys = tys ≡ double ∷ []
Carries false tys = All IsNarrow tys × (length tys ≤ 4)

-- ... and each call's format has a directive for each of its arguments.
abbrev pub IsGood : Call → Type 0
IsGood c = Carries c.to_double c.args × (directives c.fmt ≡ some (length c.args))

abbrev pub formats : List Call → List ℕ
formats [] = []
formats (c ∷ cs) = c.fmt ++ formats cs

abbrev pub arguments : List Call → List ArgType
arguments [] = []
arguments (c ∷ cs) = c.args ++ arguments cs

-- `result` adds calls that deal out `tys` and print `fmt`.
pub record Breaks (st : Pass) (fmt : List ℕ) (tys : List ArgType) (result : Option Pass)
    : Type 0 where
  pub last : Pass
  pub made : List PCall
  pub calls : List Call
  pub returns : result ≡ some last
  pub adds : last.front ++ last.back ∷ [] ≡ st.front ++ made
  pub issued : issue made tys ≡ some calls
  pub prints : formats calls ≡ fmt
  pub deals : arguments calls ≡ tys
  pub good : All IsGood calls

module _ {A : Type 0} where
  take-length : (xs ys : List A) → take (length xs) (xs ++ ys) ≡ xs
  take-length [] ys = refl
  take-length (x ∷ xs) ys = ap (λ l. x ∷ l) (take-length xs ys)

  drop-length : (xs ys : List A) → drop (length xs) (xs ++ ys) ≡ ys
  drop-length [] ys = refl
  drop-length (x ∷ xs) ys = drop-length xs ys

-- The number that `issue` takes for a call.
Carries-length :
    (is_double : Bool) (n : ℕ) (xs : List ArgType)
    → Carries is_double xs
    → length xs ≡ n
    → (if is_double then 1 else n) ≡ length xs
Carries-length true n xs c e = rw c
Carries-length false n xs c e = sym e

Carries-alone :
    (is_double : Bool) (xs : List ArgType) → Carries is_double xs → AloneIf is_double (length xs)
Carries-alone true xs c = rw c
Carries-alone false xs c = tt

issue-cons :
    (p : PCall) (ps : List PCall) (xs ys : List ArgType) (cs : List Call)
    → Carries p.is_double xs
    → length xs ≡ p.args
    → issue ps ys ≡ some cs
    → issue (p ∷ ps) (xs ++ ys)
      ≡ some (record { to_double = p.is_double; fmt = p.fmt; args = xs } ∷ cs)
unfolding issue
issue-cons p ps xs ys cs c e rest =
    let fits : leb (length xs) (length (xs ++ ys)) ≡ true = ground (arith, length-append xs ys) in
    rw (Carries-length p.is_double p.args xs c e, fits, take-length xs ys, drop-length xs ys, rest)

pub bind-some : {A : Type 0} (o : Option A) → (o >>= some) ≡ o
bind-some none = refl
bind-some (some a) = refl

-- The last `split`: all that is left goes to one call.
pub Breaks-end :
    (is_double : Bool) (xs : List ArgType) (st : Pass)
    → Ready (length xs) st
    → Carries is_double xs
    → Breaks st st.back.fmt xs (split (length xs) is_double st)
Breaks-end is_double xs st r c =
    let p : PCall = record { fmt = st.back.fmt; args = length xs; is_double = is_double } in
    record {
      last = record { front = st.front; back = p; i = st.i + length xs; n = st.n };
      made = p ∷ [];
      calls = record { to_double = is_double; fmt = st.back.fmt; args = xs } ∷ [];
      returns = split_ends (length xs) is_double st r (Carries-alone is_double xs c);
      adds = refl;
      issued =
          subst
            (λ l.
              issue (p ∷ []) l
              ≡ some (record { to_double = is_double; fmt = st.back.fmt; args = xs } ∷ []))
            (append-nil xs) (issue-cons p [] xs [] [] c refl (unfold issue in refl));
      prints = append-nil st.back.fmt;
      deals = append-nil xs;
      good = ((c, r.fits), tt);
    }

-- A `split` with more to come, and what `k` does with the rest.
pub Breaks-step :
    (is_double : Bool) (xs ys : List ArgType) (st : Pass) (k : Pass → Option Pass)
    → Ready (length xs + length ys) st
    → Carries is_double xs
    → 0 < length ys
    → ((st' : Pass) → Ready (length ys) st' → Breaks st' st'.back.fmt ys (k st'))
    → Breaks st st.back.fmt (xs ++ ys) (split (length xs) is_double st >>= k)
Breaks-step is_double xs ys st k r c more rest =
    let n = length xs in
    let (p, q, e, eq, dp, dq) =
      split_stops n (n + length ys) is_double st r (Carries-alone is_double xs c) (omega arith) in
    let pc : PCall = record { fmt = p; args = n; is_double = is_double } in
    let st' : Pass = record {
      front = st.front ++ pc ∷ [];
      back = record { fmt = q; args = n + length ys - n; is_double = false };
      i = st.i + n;
      n = st.n;
    } in
    let ready : Ready (length ys) st' = record {
      plain = refl;
      args = omega arith;
      fits = dq ∙ ap some (omega arith);
      index = omega (arith, r.index);
      started = omega (arith, r.started);
    } in
    let b = rest st' ready in
    record {
      last = b.last;
      made = pc ∷ b.made;
      calls = record { to_double = is_double; fmt = p; args = xs } ∷ b.calls;
      returns = ap (λ o. o >>= k) e ∙ b.returns;
      adds = b.adds ∙ append_assoc st.front (pc ∷ []) b.made;
      issued = issue-cons pc b.made xs ys b.calls c refl b.issued;
      prints = ap (λ l. p ++ l) b.prints ∙ eq;
      deals = ap (λ l. xs ++ l) b.deals;
      good = ((c, dp), b.good);
    }
