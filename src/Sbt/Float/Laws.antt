-- ===== src/Sbt/Float/Laws.antt =====
-- The code that `translateFPUOp` and `translateFFPUOp` emit, against the manual.
use Prim.Native.Nat.{differ, bit_and, bit_xor}
use riscv_sbt.Prelude.{
  ℕ, zero, suc, ◌+◌, ◌-◌, ◌*◌, ◌/◌, ◌%◌, ◌^◌, ◌<◌, ◌≡◌, refl, Bool, true, false, ◌||◌, ◌&&◌, not,
  none, some, arith, ◌==◌, if◌then◌else◌, ◌∙◌, sym, subst, ◌⊎◌, inl, inr, Bool-cases,
}
use riscv_sbt.Prelude.Bits.{bit_and_mask}
use native.Mathlib.Nat.{one-le-pow, mul-add-div_right, div-eq_of_lt}
use riscv_sbt.Sbt.Ir.{Llvm, Machine, FUnary, FBinary, update, set_low, bit_of}
use riscv_sbt.Sbt.Ir.LangRef.{LangRef, magnitude, is_nan}
use riscv_sbt.Sbt.Rv32.{write}
use riscv_sbt.Sbt.Instruction.Alu.Laws.{r_type}
use riscv_sbt.Sbt.Float.{
  FType, f_single, f_double, width, FpuOp, f_add, f_sub, f_mul, f_div, f_min, f_max, f_sqrt, f_sgnj,
  f_sgnjn, f_sgnjx, f_eq, f_le, f_lt, translate_fpu_op, rounding_mode,
}
use riscv_sbt.Sbt.Hart.{Hart, hart, step}
use riscv_sbt.Sbt.Float.Ieee.{Ieee, FloatRef, SameNumber, is_signaling, are_zeros, sign, with_sign}
use riscv_sbt.Sbt.Float.Masks.{sign-xor, rest-lt}

-- The field of the instruction's word that holds the rounding mode, and the two that the translation
-- takes for rounding to nearest: the fixed one, and the one that the control register holds.
abbrev pub rm_field : ℕ → ℕ
rm_field raw = raw / 2 ^ 12 % 8

abbrev pub to_nearest : ℕ → Bool
to_nearest raw = rm_field raw == 0 || rm_field raw == 7

-- The mode in which the manual rounds, by the instruction's field and the control register.
abbrev pub frm : ℕ → ℕ
frm fcsr = fcsr / 2 ^ 5 % 8

abbrev pub mode : ℕ → ℕ → ℕ
mode raw fcsr = if rm_field raw == 7 then frm fcsr else rm_field raw

-- The operations of the manual on patterns.
abbrev pub fpu : Ieee → FpuOp → ℕ → ℕ → ℕ → ℕ
fpu F f_add w a b = F.add w a b
fpu F f_sub w a b = F.sub w a b
fpu F f_mul w a b = F.mul w a b
fpu F f_div w a b = F.div w a b
fpu F f_min w a b = F.min_num w a b
fpu F f_max w a b = F.max_num w a b
fpu F f_sqrt w a b = F.sqrt w a
fpu F f_sgnj w a b = with_sign w (sign w b) a
fpu F f_sgnjn w a b = with_sign w (1 - sign w b) a
fpu F f_sgnjx w a b = with_sign w (differ (sign w a) (sign w b)) a
fpu F f_eq w a b = bit_of (F.equal w a b)
fpu F f_le w a b = bit_of (F.less_equal w a b)
fpu F f_lt w a b = bit_of (F.less w a b)

-- The manual rounds these operations, and only these.
abbrev pub rounds : FpuOp → Bool
rounds f_add = true
rounds f_sub = true
rounds f_mul = true
rounds f_div = true
rounds f_sqrt = true
rounds _ = false

-- An operation that does not round does not depend on the mode.
abbrev pub mode_of : FpuOp → ℕ → ℕ → ℕ
mode_of op raw fcsr = if rounds op then mode raw fcsr else 0

-- The translation fails.
abbrev pub fails : FpuOp → ℕ → Bool
fails op raw = rounds op && not (to_nearest raw)

-- The operands of which LLVM says what becomes: the manual negates the sign of a NaN too, and takes
-- the least and the greatest of a signaling NaN.
abbrev pub HasDefinedResult : FpuOp → ℕ → ℕ → ℕ → Type 0
HasDefinedResult f_sgnjn w a b = is_nan w b ≡ false
HasDefinedResult f_min w a b = (is_signaling w a ≡ false) × (is_signaling w b ≡ false)
HasDefinedResult f_max w a b = (is_signaling w a ≡ false) × (is_signaling w b ≡ false)
HasDefinedResult _ w a b = Unit

-- What the code may give for the manual's result `u`: that, or another NaN for a NaN; of two zeros
-- the least and the greatest may be either.
abbrev pub Agrees : FpuOp → ℕ → ℕ → ℕ → ℕ → ℕ → Type 0
Agrees f_add w a b v u = SameNumber w v u
Agrees f_sub w a b v u = SameNumber w v u
Agrees f_mul w a b v u = SameNumber w v u
Agrees f_div w a b v u = SameNumber w v u
Agrees f_sqrt w a b v u = SameNumber w v u
Agrees f_min w a b v u = ((are_zeros w a b ≡ true) × (magnitude w v ≡ 0)) ⊎ SameNumber w v u
Agrees f_max w a b v u = ((are_zeros w a b ≡ true) × (magnitude w v ≡ 0)) ⊎ SameNumber w v u
Agrees _ w a b v u = v ≡ u

-- The result of the emitted code: LLVM's, and the manual's where they cannot differ.
abbrev emitted : Llvm → Ieee → FpuOp → ℕ → ℕ → ℕ → ℕ
emitted L F f_add w a b = L.fbinary FBinary.fadd w a b
emitted L F f_sub w a b = L.fbinary FBinary.fsub w a b
emitted L F f_mul w a b = L.fbinary FBinary.fmul w a b
emitted L F f_div w a b = L.fbinary FBinary.fdiv w a b
emitted L F f_min w a b = L.fbinary FBinary.minnum w a b
emitted L F f_max w a b = L.fbinary FBinary.maxnum w a b
emitted L F f_sqrt w a b = L.funary FUnary.sqrt w a
emitted L F op w a b = fpu F op w a b

-- A comparison writes an integer register, any other operation the low bits of a floating point
-- register.
abbrev pub put_float : Machine → ℕ → ℕ → ℕ → Hart
put_float m rd w v = record (hart m) { f = update m.fregs rd (set_low w (m.fregs rd) v) }

abbrev pub put_int : Machine → ℕ → ℕ → Hart
put_int m rd v = record (hart m) { x = write m.regs rd v }

abbrev pub put_fpu : FpuOp → Machine → ℕ → ℕ → ℕ → Hart
put_fpu f_eq m rd w v = put_int m rd v
put_fpu f_le m rd w v = put_int m rd v
put_fpu f_lt m rd w v = put_int m rd v
put_fpu _ m rd w v = put_float m rd w v

pub rounding_mode-field : (raw : ℕ) → rounding_mode raw ≡ rm_field raw
unfolding rounding_mode
rounding_mode-field raw = bit_and_mask 3 (raw / 2 ^ 12)

same_sign : (k a : ℕ) → a / 2 ^ k * 2 ^ k + a % 2 ^ k ≡ a
same_sign k a = ground arith

sign_of : (k s a : ℕ) → (s * 2 ^ k + a % 2 ^ k) / 2 ^ k ≡ s
sign_of k s a =
    let pos = one-le-pow k 2 (omega arith) in
    mul-add-div_right pos s (a % 2 ^ k) ∙ ground (arith, div-eq_of_lt (rest-lt k a))

differ_self : (s : ℕ) → s < 2 → differ s s ≡ 0
differ_self zero h = refl
differ_self (suc zero) h = refl
differ_self (suc (suc s)) h = absurd (omega arith)

single-sign : (n : ℕ) → n % 2 ^ 32 / 2 ^ 31 < 2
single-sign n = omega arith

double-sign : (n : ℕ) → n % 2 ^ 64 / 2 ^ 63 < 2
double-sign n = omega arith

module _ {L : Llvm} {F : Ieee} (lang : LangRef L) (ref : FloatRef L F) where
  -- The translation fails, or its code writes the result of LLVM.
  execute-emitted :
      (op : FpuOp) (ft : FType) (rd rs1 rs2 raw : ℕ) (m : Machine)
      → HasDefinedResult op (width ft) (m.fregs rs1 % 2 ^ width ft) (m.fregs rs2 % 2 ^ width ft)
      → step L (translate_fpu_op op ft raw (r_type rd rs1 rs2)) m ≡ (
          if fails op raw
          then none
          else some (
              put_fpu op m rd (width ft) (
                emitted L F op
                  (width ft)
                  (m.fregs rs1 % 2 ^ width ft)
                  (m.fregs rs2 % 2 ^ width ft))))
  unfolding translate_fpu_op
  execute-emitted f_add ft rd rs1 rs2 raw m h = ground (arith, rounding_mode-field raw)
  execute-emitted f_sub ft rd rs1 rs2 raw m h = ground (arith, rounding_mode-field raw)
  execute-emitted f_mul ft rd rs1 rs2 raw m h = ground (arith, rounding_mode-field raw)
  execute-emitted f_div ft rd rs1 rs2 raw m h = ground (arith, rounding_mode-field raw)
  execute-emitted f_sqrt ft rd rs1 rs2 raw m h = ground (arith, rounding_mode-field raw)
  execute-emitted f_min ft rd rs1 rs2 raw m h = ground arith
  execute-emitted f_max ft rd rs1 rs2 raw m h = ground arith
  execute-emitted f_eq ft rd rs1 rs2 raw m h =
      let w = width ft in
      ground (
        arith,
        ref.oeq w (m.fregs rs1 % 2 ^ w) (m.fregs rs2 % 2 ^ w),
        lang.zext 1 32 0,
        lang.zext 1 32 1,
      )
  execute-emitted f_le ft rd rs1 rs2 raw m h =
      let w = width ft in
      ground (
        arith,
        ref.ole w (m.fregs rs1 % 2 ^ w) (m.fregs rs2 % 2 ^ w),
        lang.zext 1 32 0,
        lang.zext 1 32 1,
      )
  execute-emitted f_lt ft rd rs1 rs2 raw m h =
      let w = width ft in
      ground (
        arith,
        ref.olt w (m.fregs rs1 % 2 ^ w) (m.fregs rs2 % 2 ^ w),
        lang.zext 1 32 0,
        lang.zext 1 32 1,
      )
  execute-emitted f_sgnj ft rd rs1 rs2 raw m h =
      let w = width ft in
      let a = m.fregs rs1 % 2 ^ w in
      ground (arith, ref.copysign w a (m.fregs rs2 % 2 ^ w), same_sign (w - 1) a)
  execute-emitted f_sgnjn ft rd rs1 rs2 raw m h =
      let w = width ft in
      let a = m.fregs rs1 % 2 ^ w in
      let b = m.fregs rs2 % 2 ^ w in
      ground (
        arith,
        ref.fneg w b h,
        ref.copysign w a (with_sign w (1 - sign w b) b),
        sign_of (w - 1) (1 - sign w b) b,
      )
  execute-emitted f_sgnjx f_single rd rs1 rs2 raw m h =
      let a = m.fregs rs1 % 2 ^ 32 in
      let b = m.fregs rs2 % 2 ^ 32 in
      let p = single-sign (m.fregs rs1) in
      let q = single-sign (m.fregs rs2) in
      ground (
        arith,
        ref.fabs 32 a,
        differ_self (sign 32 a) p,
        sign-xor 31 a b p q,
        lang.xor 32 a b,
        lang.and 32 (bit_xor a b) (2 ^ 31),
        lang.and 32 a 0x7fffffff,
        lang.or 32 (bit_and a 0x7fffffff) (bit_and (bit_xor a b) (2 ^ 31)),
      )
  execute-emitted f_sgnjx f_double rd rs1 rs2 raw m h =
      let a = m.fregs rs1 % 2 ^ 64 in
      let b = m.fregs rs2 % 2 ^ 64 in
      let p = double-sign (m.fregs rs1) in
      let q = double-sign (m.fregs rs2) in
      ground (
        arith,
        ref.fabs 64 a,
        differ_self (sign 64 a) p,
        sign-xor 63 a b p q,
        lang.xor 64 a b,
        lang.and 64 (bit_xor a b) (2 ^ 63),
        lang.and 64 a 0x7fffffffffffffff,
        lang.or 64 (bit_and a 0x7fffffffffffffff) (bit_and (bit_xor a b) (2 ^ 63)),
      )

  emitted-Agrees :
      (op : FpuOp) (w a b : ℕ)
      → HasDefinedResult op w a b
      → Agrees op w a b (emitted L F op w a b) (fpu F op w a b)
  emitted-Agrees f_add w a b h = ref.fadd w a b
  emitted-Agrees f_sub w a b h = ref.fsub w a b
  emitted-Agrees f_mul w a b h = ref.fmul w a b
  emitted-Agrees f_div w a b h = ref.fdiv w a b
  emitted-Agrees f_min w a b h = ref.minnum w a b h.0 h.1
  emitted-Agrees f_max w a b h = ref.maxnum w a b h.0 h.1
  emitted-Agrees f_sqrt w a b h = ref.sqrt w a
  emitted-Agrees f_sgnj w a b h = refl
  emitted-Agrees f_sgnjn w a b h = refl
  emitted-Agrees f_sgnjx w a b h = refl
  emitted-Agrees f_eq w a b h = refl
  emitted-Agrees f_le w a b h = refl
  emitted-Agrees f_lt w a b h = refl

mode_of-nearest :
    (op : FpuOp) (raw fcsr : ℕ)
    → fails op raw ≡ false
    → ((rm_field raw == 7) ≡ false) ⊎ (frm fcsr ≡ 0)
    → mode_of op raw fcsr ≡ 0
mode_of-nearest op raw fcsr h (inl k) = ground arith
mode_of-nearest op raw fcsr h (inr k) = ground arith

-- `R` is the arithmetic of the manual, by rounding mode.
module _ {L : Llvm} (R : ℕ → Ieee) (lang : LangRef L) (ref : FloatRef L (R 0)) where
  -- Where the instruction's field does not name the mode of `fcsr`, or that rounds to nearest: the
  -- translation of a floating point operation fails just where the operation rounds and the field
  -- names neither the mode of `fcsr` nor to round to nearest. Else the code writes what the manual
  -- says, a comparison to the integer register `rd`, any other to the low bits of the floating
  -- point register `rd`, and changes nothing else, but that a NaN may be another NaN than the
  -- manual's, and the least or the greatest of two zeros either zero. An operand is read from the
  -- low bits of its register. The sign that `fsgnjn` injects is not that of a NaN, and no operand
  -- of `fmin` or `fmax` is a signaling NaN.
  pub execute-fpu :
      (op : FpuOp) (ft : FType) (rd rs1 rs2 raw : ℕ) (m : Machine)
      → let w = width ft in
        let a = m.fregs rs1 % 2 ^ w in
        let b = m.fregs rs2 % 2 ^ w in
        let stepped = step L (translate_fpu_op op ft raw (r_type rd rs1 rs2)) m in
        ((rm_field raw == 7) ≡ false) ⊎ (frm m.fcsr ≡ 0)
        → HasDefinedResult op w a b
        → ((fails op raw ≡ true) × (stepped ≡ none))
          ⊎ ((v : ℕ) × (fails op raw ≡ false)
              × (stepped ≡ some (put_fpu op m rd w v))
              × Agrees op w a b v (fpu (R (mode_of op raw m.fcsr)) op w a b))
  execute-fpu op ft rd rs1 rs2 raw m near h =
      let w = width ft in
      let a = m.fregs rs1 % 2 ^ w in
      let b = m.fregs rs2 % 2 ^ w in
      let e = execute-emitted lang ref op ft rd rs1 rs2 raw m h in
      elim (Bool-cases (fails op raw)) [
        | inl f ↦ inl (f, e ∙ rw f refl)
        | inr f ↦ inr (
          emitted L (R 0) op w a b,
          f,
          e ∙ rw f refl,
          subst (λ (n : ℕ). Agrees op w a b (emitted L (R 0) op w a b) (fpu (R n) op w a b))
              (sym (mode_of-nearest op raw m.fcsr f near)) (emitted-Agrees lang ref op w a b h),
        )
      ]
