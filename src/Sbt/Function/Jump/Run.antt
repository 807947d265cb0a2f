-- ===== src/Sbt/Function/Jump/Run.antt =====
-- The instructions of a block: a run of addresses that follow one another.
use riscv_sbt.Prelude.{
  ℕ, zero, suc, ◌+◌, ◌-◌, ◌*◌, ◌<◌, ◌≤◌, ◌≡◌, refl, sym, ap, ◌∙◌, Bool, true, false, ◌||◌, ltb,
  if◌then◌else◌, arith, [], ◌∷◌, some, Bool-cases, inl, inr,
}
use riscv_sbt.Sbt.Map.{lookup}
use riscv_sbt.Sbt.Map.Laws.{lookup-cons}
use riscv_sbt.Sbt.Function.Blocks.{br, split, split_map, total, size, is_terminated}
use riscv_sbt.Sbt.Function.Jump.{Guest, straight, returning, jump, branch}
use riscv_sbt.Sbt.Function.Loop.{put_instr}
use riscv_sbt.Sbt.Function.Jump.Scan.{stop, stop-le}
use riscv_sbt.Sbt.Function.Jump.Image.{ending, emitted, is_straight, run, block_to, block}

straight-emitted : (g : Guest) → is_straight g ≡ true → 1 ≤ emitted g
straight-emitted (straight n) h = ground arith
straight-emitted (returning n) h = cc h
straight-emitted (jump t) h = cc h
straight-emitted (branch n t) h = cc h

ending-terminated :
    (g : Guest) (next : ℕ) (p : Bool)
    → is_straight g ≡ false
    → is_terminated (ending g next p) ≡ true
unfolding is_terminated
ending-terminated (straight n) next p h = cc h
ending-terminated (returning n) next p h = refl
ending-terminated (jump t) next p h = refl
ending-terminated (branch n t) next p h = refl

module _ (decode : ℕ → Guest) where
  pub put_instr-run :
      (k n t : ℕ)
      → t ≡ k + n
      → put_instr (run decode k n) (4 * t) (emitted (decode (4 * t))) ≡ run decode k (suc n)
  unfolding put_instr run
  put_instr-run k zero t e =
      ap (λ (j : ℕ). record { key = 4 * j; val = emitted (decode (4 * j)) } ∷ []) {y = k}
        (omega (arith, e))
  put_instr-run k (suc n) t e =
      let ih = put_instr-run (suc k) n t (omega (arith, e)) in ground (arith, ih, e)

  split_map-here : (k q : ℕ) → split_map (run decode k q) (4 * k) ≡ ([], run decode k q)
  unfolding split_map run
  split_map-here k zero = refl
  split_map-here k (suc q) = ground arith

  split_map-run :
      (k p q t : ℕ)
      → t ≡ k + p
      → split_map (run decode k (p + q)) (4 * t) ≡ (run decode k p, run decode t q)
  unfolding split_map run
  split_map-run k zero q t e =
      let tk : t ≡ k = omega (arith, e) in
      ap (λ (n : ℕ). split_map (run decode k n) (4 * t)) {y = q} (omega arith)
      ∙ (ap (λ (j : ℕ). split_map (run decode k q) (4 * j)) tk
          ∙ (split_map-here k q ∙ ap (λ (j : ℕ). ([], run decode j q)) (sym tk)))
  split_map-run k (suc p) q t e =
      let ih = split_map-run (suc k) p q t (omega (arith, e)) in
      ap (λ (n : ℕ). split_map (run decode k n) (4 * t)) {x = suc p + q} {y = suc (p + q)}
        (omega arith)
      ∙ ground (arith, ih, e)

  lookup-run :
      (k n t : ℕ)
      → k ≤ t
      → t < k + n
      → lookup (run decode k n) (4 * t) ≡ some (emitted (decode (4 * t)))
  unfolding run
  lookup-run k zero t le lt = ground arith
  lookup-run k (suc n) t le lt = rw lookup-cons (ground (arith, lookup-run (suc k) n t))

  total-run :
      (k n : ℕ)
      → ((j : ℕ) → k ≤ j → j < k + n → is_straight (decode (4 * j)) ≡ true)
      → n ≤ total (run decode k n)
  unfolding run total
  total-run k zero s = ground arith
  total-run k (suc n) s =
      let one = straight-emitted (decode (4 * k)) (s k (omega arith) (omega arith)) in
      let rest = total-run (suc k) n (λ j a b. s j (omega arith) (omega arith)) in omega arith

  total-snoc :
      (k n t : ℕ)
      → t ≡ k + n
      → total (run decode k (suc n)) ≡ total (run decode k n) + emitted (decode (4 * t))
  unfolding run total
  total-snoc k zero t e =
      ap (λ (j : ℕ). emitted (decode (4 * j)) + 0) {x = k} {y = t} (omega (arith, e)) ∙ omega arith
  total-snoc k (suc n) t e = let ih = total-snoc (suc k) n t (omega (arith, e)) in omega (arith, ih)

  last-size :
      (g : Guest) (next : ℕ) (p : Bool)
      → 1 ≤ emitted g + (if is_terminated (ending g next p) then 1 else 0)
  last-size g next p = elim (Bool-cases (is_straight g)) [
    | inl h ↦ let l = straight-emitted g h in omega arith
    | inr h ↦ ground (arith, ending-terminated g next p h)
  ]

  -- The block at `i` up to `e` is long enough for each of its instructions to be in its bounds.
  pub size-block :
      (S : ℕ → Bool) (a : ℕ) (o : Bool) (i t : ℕ)
      → i < a
      → i ≤ t
      → t < stop S i a
      → ((j : ℕ) → i ≤ j → j < stop S i a - 1 → is_straight (decode (4 * j)) ≡ true)
      → t < i + size (block decode S a o i)
  unfolding size block_to
  size-block S a o i t lt le te str =
      let (l, u) = stop-le S i a lt in
      let e = stop S i a in
      let inner = total-run i (e - 1 - i) (λ j x y. str j x (omega arith)) in
      let snoc = total-snoc i (e - 1 - i) (e - 1) (omega arith) in
      let len =
        ap (λ (n : ℕ). total (run decode i n)) {x = e - i} {y = suc (e - 1 - i)} (omega arith) in
      let one = last-size (decode (4 * (e - 1))) (4 * e) (ltb e a || o) in ground (arith, len)

  pub split-block :
      (S : ℕ → Bool) (a : ℕ) (o : Bool) (i t : ℕ)
      → i < a
      → i ≤ t
      → t < stop S i a
      → split (block decode S a o i) (4 * t)
        ≡ some (
          record { instrs = run decode i (t - i); term = br (4 * t) },
          record { instrs = run decode t (stop S i a - t); term = (block decode S a o i).term },
        )
  unfolding split block_to
  split-block S a o i t lt le te =
      let found = lookup-run i (stop S i a - i) t le (omega arith) in
      let parts = split_map-run i (t - i) (stop S i a - t) t (omega arith) in
      let len =
        ap (λ (n : ℕ). split_map (run decode i n) (4 * t)) {x = stop S i a - i}
          {y = (t - i) + (stop S i a - t)} (omega arith) in
      ground (arith, found, parts, len)
