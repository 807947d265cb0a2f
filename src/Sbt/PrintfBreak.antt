-- ===== src/Sbt/PrintfBreak.antt =====
-- The LLVM pass of sbt/PrintfBreak.cpp, which breaks a call of `printf` into calls with at most
-- four arguments, or one double. A format string is a list of character codes, and a call is the
-- list of the types of its variadic arguments. `none` is a failed assertion.
pub mod Directives
pub mod Split
pub mod Calls
pub mod Laws
use riscv_sbt.Prelude.{
  ℕ, zero, suc, ◌+◌, ◌-◌, ◌≤◌, Bool, true, false, not, ◌&&◌, ◌||◌, List, [], ◌∷◌, ◌++◌, Option,
  none, some, ltb, leb, ◌==◌, if◌then◌else◌, length, take, drop,
}

pub data ArgType : Type 0 where
  integer : ℕ → ArgType
  double float pointer : ArgType

-- `PCall`
pub record PCall : Type 0 where
  pub fmt : List ℕ
  pub args : ℕ
  pub is_double : Bool

-- `_pcalls` is `front` with `back` behind it; `i` and `n` are `_i` and `_n`.
pub record Pass : Type 0 where
  pub front : List PCall
  pub back : PCall
  pub i : ℕ
  pub n : ℕ

infixl 5 ◌>>=◌ ◌>>◌
abbrev pub ◌>>=◌ : {A B : Type 0} → Option A → (A → Option B) → Option B
none >>= k = none
some a >>= k = k a

abbrev pub ◌>>◌ : {B : Type 0} → Option (Unit {0}) → Option B → Option B
m >> k = m >>= λ _. k

abbrev pub check : Bool → Option (Unit {0})
check true = some tt
check false = none

-- Where the scan of a format string stopped: what it passed, what is left, and the count.
pub record Scan : Type 0 where
  pub before : List ℕ
  pub after : List ℕ
  pub count : ℕ

abbrev pub passed : List ℕ → Option Scan → Option Scan
passed p none = none
passed p (some r) = some (record r { before = p ++ r.before })

-- The loop of `split`: advance to the `n + 1`-th `%` that is not escaped, or to the end.
unfoldable pub scan : ℕ → ℕ → List ℕ → Option Scan
scan n count [] = some (record { before = []; after = []; count = count })
scan n count (c ∷ []) =
    if c == b'%' then none else some (record { before = c ∷ []; after = []; count = count })
scan n count (c ∷ d ∷ r) =
    let one = passed (c ∷ []) (scan n count (d ∷ r)) in
    let count' = if d == b'%' then count else count + 1 in
    let two = passed (c ∷ d ∷ []) (scan n count' r) in
    if c == b'%'
    then if count' == n + 1
      then some (record { before = []; after = c ∷ d ∷ r; count = count' })
      else two
    else one

-- The end of `split`, once the scan has stopped.
unfoldable pub cut : ℕ → Bool → Pass → Scan → Option Pass
cut n is_double st r = do
  check (r.count == n + 1 || (r.count == n && length r.after == 0))
  some (
      if r.count == n
      then if is_double
        then record st { back = record st.back { is_double = true; args = n }; i = st.i + n }
        else record st { i = st.i + n }
      else record st {
        front = st.front ++ record { fmt = r.before; args = n; is_double = is_double } ∷ [];
        back = record { fmt = r.after; args = st.n - (st.i - 1) - n; is_double = false };
        i = st.i + n;
      })

unfoldable pub split : ℕ → Bool → Pass → Option Pass
unfolding scan cut
split n is_double st = do
  check (not is_double || n == 1)
  r ← scan n 0 st.back.fmt
  cut n is_double st r

-- `if (args) split(args, false)`
flush : ℕ → Pass → Option Pass
unfolding split
flush t st = if t == 0 then some st else split t false st

-- The loops over the arguments, `t` arguments past the last break; four make one.
unfoldable pub process : ℕ → List ArgType → Pass → Option Pass
unfolding split flush
process t [] st = flush t st
process t (float ∷ tys) st = none
process t (double ∷ tys) st = do st₁ ← flush t st; st₂ ← split 1 true st₁; process 0 tys st₂
process t (integer bits ∷ tys) st =
    let go_on = process (t + 1) tys st in
    let breaks = split 4 false st >>= process 0 tys in
    if leb bits 32 then if t + 1 == 4 then breaks else go_on else none
process t (pointer ∷ tys) st =
    let go_on = process (t + 1) tys st in
    let breaks = split 4 false st >>= process 0 tys in if t + 1 == 4 then breaks else go_on

pub is_wide : ArgType → Bool
is_wide double = true
is_wide (integer bits) = ltb 32 bits
is_wide float = false
is_wide pointer = false

unfoldable pub any_wide : List ArgType → Bool
unfolding is_wide
any_wide [] = false
any_wide (ty ∷ tys) = is_wide ty || any_wide tys

-- `breakPrintfCall` up to the new calls: nothing where the call needs no break.
unfoldable pub break_printf : List ℕ → List ArgType → Option (Option (List PCall))
unfolding process any_wide
break_printf fmt tys =
    let n = length tys in
    let start : Pass = record {
      front = [];
      back = record { fmt = fmt; args = n; is_double = false };
      i = 1;
      n = n;
    } in
    if ltb n 5 && not (any_wide tys)
    then some none
    else process 0 tys start >>= λ st. some (some (st.front ++ st.back ∷ []))

-- One call that `issueNewCalls` makes: `sbt_printf_d` or `printf`, the format and the arguments.
pub record Call : Type 0 where
  pub to_double : Bool
  pub fmt : List ℕ
  pub args : List ArgType

-- The arguments are dealt out in order, and none may be left.
pub issue : List PCall → List ArgType → Option (List Call)
issue [] [] = some []
issue [] (ty ∷ tys) = none
issue (p ∷ ps) tys =
    let k = if p.is_double then 1 else p.args in
    let rest = issue ps (drop k tys) in
    do
      check (leb k (length tys))
      cs ← rest
      some (record { to_double = p.is_double; fmt = p.fmt; args = take k tys } ∷ cs)
