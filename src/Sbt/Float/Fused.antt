-- ===== src/Sbt/Float/Fused.antt =====
-- The code that `translateFFPUOp` emits, against the manual.
use riscv_sbt.Prelude.{
  ℕ, ◌-◌, ◌%◌, ◌^◌, ◌≡◌, ◌⊎◌, inl, inr, false, none, some, arith, if◌then◌else◌, ap, ◌∙◌, subst,
}
use riscv_sbt.Sbt.Ir.{Llvm, Machine, FUnary, FBinary}
use riscv_sbt.Sbt.Ir.LangRef.{is_nan}
use riscv_sbt.Sbt.Operand.{reg}
use riscv_sbt.Sbt.Instruction.Alu.Laws.{r_type}
use riscv_sbt.Sbt.Float.{FType, width, FusedOp, f_madd, f_msub, f_nmadd, f_nmsub}
use riscv_sbt.Sbt.Float.Translate.{FusedInst, translate_ffpu_op}
use riscv_sbt.Sbt.Hart.{step}
use riscv_sbt.Sbt.Float.Ieee.{Ieee, FloatRef, SameNumber, sign, with_sign}
use riscv_sbt.Sbt.Float.Laws.{to_nearest, rounding_mode-field, put_float}

abbrev pub r4_type : ℕ → ℕ → ℕ → ℕ → FusedInst
r4_type rd rs1 rs2 rs3 = record { first = r_type rd rs1 rs2; op3 = reg rs3 }

abbrev pub negated : ℕ → ℕ → ℕ
negated w a = with_sign w (1 - sign w a) a

-- The product and the sum, each rounded
abbrev pub sum_of_product : Ieee → ℕ → ℕ → ℕ → ℕ → ℕ
sum_of_product F w a b c = F.add w (F.mul w a b) c

abbrev pub difference : Ieee → ℕ → ℕ → ℕ → ℕ → ℕ
difference F w a b c = F.sub w (F.mul w a b) c

-- What the translated operation gives: the sums may be rounded once or twice, the differences are
-- rounded twice.
abbrev pub IsFused : Ieee → FusedOp → ℕ → ℕ → ℕ → ℕ → ℕ → Type 0
IsFused F f_madd w a b c v =
    SameNumber w v (F.fused w a b c) ⊎ SameNumber w v (sum_of_product F w a b c)
IsFused F f_msub w a b c v = SameNumber w v (difference F w a b c)
IsFused F f_nmadd w a b c v =
    (v ≡ negated w (F.fused w a b c)) ⊎ (v ≡ negated w (sum_of_product F w a b c))
IsFused F f_nmsub w a b c v = v ≡ negated w (difference F w a b c)

-- The number that is negated is no NaN.
abbrev pub HasNumber : Ieee → FusedOp → ℕ → ℕ → ℕ → ℕ → Type 0
HasNumber F f_madd w a b c = Unit
HasNumber F f_msub w a b c = Unit
HasNumber F f_nmadd w a b c =
    (is_nan w (F.fused w a b c) ≡ false) × (is_nan w (sum_of_product F w a b c) ≡ false)
HasNumber F f_nmsub w a b c = is_nan w (difference F w a b c) ≡ false

-- The value that the emitted code computes
abbrev subtracted : Llvm → ℕ → ℕ → ℕ → ℕ → ℕ
subtracted L w a b c = L.fbinary FBinary.fsub w (L.fbinary FBinary.fmul w a b) c

abbrev emitted : Llvm → FusedOp → ℕ → ℕ → ℕ → ℕ → ℕ
emitted L f_madd w a b c = L.fmuladd w a b c
emitted L f_msub w a b c = subtracted L w a b c
emitted L f_nmadd w a b c = L.funary FUnary.fneg w (L.fmuladd w a b c)
emitted L f_nmsub w a b c = L.funary FUnary.fneg w (subtracted L w a b c)

same-eq : (w v u : ℕ) → SameNumber w v u → is_nan w u ≡ false → v ≡ u
same-eq w v u (inl e) h = e
same-eq w v u (inr (p, q)) h = cc

module _ {L : Llvm} {F : Ieee} (ref : FloatRef L F) where
  subtracted-difference : (w a b c : ℕ) → SameNumber w (subtracted L w a b c) (difference F w a b c)
  subtracted-difference w a b c =
      let p = L.fbinary FBinary.fmul w a b in
      elim (ref.fmul w a b) [
        | inl e ↦
            subst (λ (q : ℕ). SameNumber w (subtracted L w a b c) (F.sub w q c)) e (ref.fsub w p c)
        | inr (n, n') ↦ elim (ref.fsub w p c) [
          | inl e ↦ inr (ap (is_nan w) e ∙ ref.sub_nan w p c n, ref.sub_nan w (F.mul w a b) c n')
          | inr (k, k') ↦ inr (k, ref.sub_nan w (F.mul w a b) c n')
        ]
      ]

  negated-eq :
      (w v u : ℕ) → SameNumber w v u → is_nan w u ≡ false → L.funary FUnary.fneg w v ≡ negated w u
  negated-eq w v u e h = ap (L.funary FUnary.fneg w) (same-eq w v u e h) ∙ ref.fneg w u h

  emitted-IsFused :
      (op : FusedOp) (w a b c : ℕ)
      → HasNumber F op w a b c
      → IsFused F op w a b c (emitted L op w a b c)
  emitted-IsFused f_madd w a b c h = ref.fmuladd w a b c
  emitted-IsFused f_msub w a b c h = subtracted-difference w a b c
  emitted-IsFused f_nmadd w a b c h = elim (ref.fmuladd w a b c) [
    | inl e ↦ inl (negated-eq w (L.fmuladd w a b c) (F.fused w a b c) e h.0)
    | inr e ↦ inr (negated-eq w (L.fmuladd w a b c) (sum_of_product F w a b c) e h.1)
  ]
  emitted-IsFused f_nmsub w a b c h =
      negated-eq w (subtracted L w a b c) (difference F w a b c) (subtracted-difference w a b c) h

  execute-emitted :
      (op : FusedOp) (ft : FType) (rd rs1 rs2 rs3 raw : ℕ) (m : Machine)
      → let w = width ft in
        let v = emitted L op w (m.fregs rs1 % 2 ^ w) (m.fregs rs2 % 2 ^ w) (m.fregs rs3 % 2 ^ w) in
        step L (translate_ffpu_op op ft raw (r4_type rd rs1 rs2 rs3)) m
        ≡ (if to_nearest raw then some (put_float m rd w v) else none)
  unfolding translate_ffpu_op
  execute-emitted f_madd ft rd rs1 rs2 rs3 raw m = ground (arith, rounding_mode-field raw)
  execute-emitted f_msub ft rd rs1 rs2 rs3 raw m = ground (arith, rounding_mode-field raw)
  execute-emitted f_nmadd ft rd rs1 rs2 rs3 raw m = ground (arith, rounding_mode-field raw)
  execute-emitted f_nmsub ft rd rs1 rs2 rs3 raw m = ground (arith, rounding_mode-field raw)

  -- The code of a fused operation writes to the low bits of `rd`: for `fmadd` the product and the
  -- sum, rounded once or twice as LLVM chooses; for `fmsub` the product, rounded, and then the
  -- difference, where a NaN may be any NaN; for `fnmadd` and `fnmsub` the same with the sign of the
  -- result inverted, where that is no NaN. All are rounded to nearest. It changes nothing else, and
  -- the translation fails unless the instruction's field names that mode or the one of `fcsr`.
  pub execute-IsFused :
      (op : FusedOp) (ft : FType) (rd rs1 rs2 rs3 raw : ℕ) (m : Machine)
      → HasNumber F op
          (width ft)
          (m.fregs rs1 % 2 ^ width ft)
          (m.fregs rs2 % 2 ^ width ft)
          (m.fregs rs3 % 2 ^ width ft)
      → (v : ℕ) × (step L (translate_ffpu_op op ft raw (r4_type rd rs1 rs2 rs3)) m
          ≡ (if to_nearest raw then some (put_float m rd (width ft) v) else none))
        × IsFused F op
            (width ft)
            (m.fregs rs1 % 2 ^ width ft)
            (m.fregs rs2 % 2 ^ width ft)
            (m.fregs rs3 % 2 ^ width ft)
            v
  execute-IsFused op ft rd rs1 rs2 rs3 raw m h =
      let w = width ft in
      let a = m.fregs rs1 % 2 ^ w in
      let b = m.fregs rs2 % 2 ^ w in
      let c = m.fregs rs3 % 2 ^ w in
      (
        emitted L op w a b c,
        execute-emitted op ft rd rs1 rs2 rs3 raw m,
        emitted-IsFused op w a b c h,
      )
