-- ===== src/Sbt/Function/Jump/Scan.antt =====
-- Where a block ends: at the next start of a block, or where the translation stands. The
-- instructions are counted from address 0, and `S` tells at which of them a block starts.
use riscv_sbt.Prelude.{
  ℕ, zero, suc, ◌+◌, ◌-◌, ◌<◌, ◌≤◌, ◌≡◌, Bool, true, false, ◌&&◌, ◌||◌, ltb, leb, ◌==◌,
  if◌then◌else◌, arith, ap, ◌∙◌, Bool-cases, inl, inr,
}

pub scan : (ℕ → Bool) → ℕ → ℕ → ℕ
scan S j zero = j
scan S j (suc n) = if S j then j else scan S (suc j) n

-- The end of the block of `i`, in a translation up to `a`.
unfoldable pub stop : (ℕ → Bool) → ℕ → ℕ → ℕ
unfolding scan
stop S i a = scan S (suc i) (a - suc i)

abbrev pub ins : ℕ → (ℕ → Bool) → ℕ → Bool
ins t S j = j == t || S j

scan-le : (S : ℕ → Bool) (j n : ℕ) → (j ≤ scan S j n) × (scan S j n ≤ j + n)
unfolding scan
scan-le S j zero = ground arith
scan-le S j (suc n) = let (l, u) = scan-le S (suc j) n in ground arith

scan-found : (S : ℕ → Bool) (j n : ℕ) → scan S j n < j + n → S (scan S j n) ≡ true
unfolding scan
scan-found S j zero h = ground arith
scan-found S j (suc n) h = ground (arith, scan-found S (suc j) n)

scan-free : (S : ℕ → Bool) (j n i : ℕ) → j ≤ i → i < scan S j n → S i ≡ false
unfolding scan
scan-free S j zero i le lt = ground arith
scan-free S j (suc n) i le lt = ground (arith, scan-free S (suc j) n i)

scan-ins :
    (S : ℕ → Bool) (t j n : ℕ)
    → scan (ins t S) j n ≡ (if leb j t && ltb t (scan S j n) then t else scan S j n)
unfolding scan
scan-ins S t j zero = ground arith
scan-ins S t j (suc n) = ground (arith, scan-ins S t (suc j) n, scan-le S (suc j) n)

scan-skip :
    (S : ℕ → Bool) (t j n : ℕ)
    → j ≤ t
    → t < scan S j n
    → scan S (suc t) ((j + n) - suc t) ≡ scan S j n
unfolding scan
scan-skip S t j zero le lt = ground arith
scan-skip S t j (suc n) le lt = ground (arith, scan-skip S t (suc j) n)

scan-suc :
    (S : ℕ → Bool) (j n : ℕ)
    → scan S j (suc n)
      ≡ (if scan S j n == (j + n) then if S (j + n) then j + n else suc (j + n) else scan S j n)
unfolding scan
scan-suc S j zero = ground arith
scan-suc S j (suc n) = ground (arith, scan-suc S (suc j) n)

pub stop-le : (S : ℕ → Bool) (i a : ℕ) → i < a → (i < stop S i a) × (stop S i a ≤ a)
unfolding stop
stop-le S i a h = let (l, u) = scan-le S (suc i) (a - suc i) in (omega arith, omega arith)

pub stop-found : (S : ℕ → Bool) (i a : ℕ) → stop S i a < a → i < a → S (stop S i a) ≡ true
unfolding stop
stop-found S i a h lt = scan-found S (suc i) (a - suc i) (omega arith)

pub stop-free : (S : ℕ → Bool) (i a j : ℕ) → i < j → j < stop S i a → S j ≡ false
unfolding stop
stop-free S i a j lt h = scan-free S (suc i) (a - suc i) j (omega arith) h

pub stop-ins :
    (S : ℕ → Bool) (t i a : ℕ)
    → stop (ins t S) i a ≡ (if ltb i t && ltb t (stop S i a) then t else stop S i a)
unfolding stop
stop-ins S t i a = ground (arith, scan-ins S t (suc i) (a - suc i))

-- A block that is cut ends where the whole one did.
pub stop-skip :
    (S : ℕ → Bool) (t i a : ℕ) → i < a → i < t → t < stop S i a → stop S t a ≡ stop S i a
unfolding stop
stop-skip S t i a lt h ht =
    ap (λ (n : ℕ). scan S (suc t) (n - suc t)) (omega arith)
    ∙ scan-skip S t (suc i) (a - suc i) (omega arith) ht

pub stop-suc :
    (S : ℕ → Bool) (i a : ℕ)
    → i < a
    → stop S i (suc a) ≡ (if stop S i a == a then if S a then a else suc a else stop S i a)
unfolding stop
stop-suc S i a lt =
    ap (scan S (suc i)) {y = suc (a - suc i)} (omega arith)
    ∙ (scan-suc S (suc i) (a - suc i)
        ∙ ap
            (λ (n : ℕ).
              if scan S (suc i) (a - suc i) == n
              then if S n then n else suc n
              else scan S (suc i) (a - suc i))
            (omega arith))

pub stop_self : (S : ℕ → Bool) (a : ℕ) → stop S a (suc a) ≡ suc a
unfolding stop scan
stop_self S a = ap (scan S (suc a)) {y = 0} (omega arith)

-- No start between: the block of `i` is open to the end.
pub stop-last :
    (S : ℕ → Bool) (i a : ℕ) → i < a → ((j : ℕ) → i < j → j < a → S j ≡ false) → stop S i a ≡ a
stop-last S i a lt free = elim (Bool-cases (ltb (stop S i a) a)) [
  | inl e ↦ absurd (
      cc (
        stop-found S i a (ground (arith, e)) lt,
        free (stop S i a) (stop-le S i a lt).0 (ground (arith, e)),
      ))
  | inr e ↦ ground (arith, e, stop-le S i a lt)
]
