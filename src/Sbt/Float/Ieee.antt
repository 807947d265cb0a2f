-- ===== src/Sbt/Float/Ieee.antt =====
-- The floating point arithmetic of the manual, a parameter, and what LLVM's instructions promise of
-- it.
use riscv_sbt.Prelude.{
  ℕ, ◌+◌, ◌-◌, ◌*◌, ◌/◌, ◌%◌, ◌^◌, ◌≡◌, refl, ◌⊎◌, inl, inr, Bool, true, false, ◌&&◌, not, ltb,
  ◌==◌, if◌then◌else◌, Option, none, some,
}
use riscv_sbt.Prelude.Int.{ℤ, pos, negsuc}
use riscv_sbt.Prelude.Word.{signed, unsigned}
use riscv_sbt.Sbt.Ir.{Llvm, FUnary, FBinary, FPred, FCast}
use riscv_sbt.Sbt.Ir.LangRef.{model, model_sub, magnitude, is_nan, word_at, stored64}

-- IEEE 754 on bit patterns of a width, with one rounding mode. Which NaN a result is, the manual says.
pub record Ieee : Type 0 where
  pub add : ℕ → ℕ → ℕ → ℕ
  pub sub : ℕ → ℕ → ℕ → ℕ
  pub mul : ℕ → ℕ → ℕ → ℕ
  pub div : ℕ → ℕ → ℕ → ℕ
  pub min_num : ℕ → ℕ → ℕ → ℕ
  pub max_num : ℕ → ℕ → ℕ → ℕ
  pub sqrt : ℕ → ℕ → ℕ
  pub fused : ℕ → ℕ → ℕ → ℕ → ℕ
  pub equal : ℕ → ℕ → ℕ → Bool
  pub less : ℕ → ℕ → ℕ → Bool
  pub less_equal : ℕ → ℕ → ℕ → Bool
  -- The integer that a number is cut off to; a NaN or an infinity has none.
  pub truncated : ℕ → ℕ → Option ℤ
  pub from_int : ℕ → ℤ → ℕ
  pub widened : ℕ → ℕ
  pub narrowed : ℕ → ℕ

-- The sign bit and the rest of a pattern.
abbrev pub sign : ℕ → ℕ → ℕ
sign w a = a / 2 ^ (w - 1)

abbrev pub with_sign : ℕ → ℕ → ℕ → ℕ
with_sign w s a = s * 2 ^ (w - 1) + magnitude w a

-- A NaN whose fraction lacks its first digit
abbrev quiet : ℕ → ℕ
quiet w = if w == 32 then 0x7fc00000 else 0x7ff8000000000000

abbrev pub is_signaling : ℕ → ℕ → Bool
is_signaling w a = is_nan w a && ltb (magnitude w a) (quiet w)

abbrev pub are_zeros : ℕ → ℕ → ℕ → Bool
are_zeros w a b = magnitude w a == 0 && magnitude w b == 0

-- The same pattern, or two NaNs: which one an operation gives is left open.
abbrev pub SameNumber : ℕ → ℕ → ℕ → Type 0
SameNumber w v u = (v ≡ u) ⊎ ((is_nan w v ≡ true) × (is_nan w u ≡ true))

-- An integer that a word holds, with a sign or without one
abbrev pub as_signed : ℤ → Option ℕ
as_signed (pos n) = if ltb n (2 ^ 31) then some n else none
as_signed (negsuc n) = if ltb n (2 ^ 31) then some (2 ^ 32 - 1 - n) else none

abbrev pub as_unsigned : ℤ → Option ℕ
as_unsigned (pos n) = if ltb n (2 ^ 32) then some n else none
as_unsigned (negsuc n) = none

abbrev pub converted : (ℤ → Option ℕ) → Option ℤ → Option ℕ
converted f none = none
converted f (some z) = f z

-- What the LLVM language reference says of the floating point instructions. It leaves open which NaN
-- is the result of an operation, the sign of a negated NaN, which zero is the least or the greatest
-- of two, what `minnum` and `maxnum` make of a signaling NaN, and whether `fmuladd` rounds the
-- product; a conversion to an integer that does not fit is poison. In IEEE 754 a difference from a
-- NaN is a NaN.
pub record FloatRef (L : Llvm) (F : Ieee) : Type 0 where
  pub fadd : (w a b : ℕ) → SameNumber w (L.fbinary FBinary.fadd w a b) (F.add w a b)
  pub fsub : (w a b : ℕ) → SameNumber w (L.fbinary FBinary.fsub w a b) (F.sub w a b)
  pub fmul : (w a b : ℕ) → SameNumber w (L.fbinary FBinary.fmul w a b) (F.mul w a b)
  pub fdiv : (w a b : ℕ) → SameNumber w (L.fbinary FBinary.fdiv w a b) (F.div w a b)
  pub minnum :
      (w a b : ℕ)
      → is_signaling w a ≡ false
      → is_signaling w b ≡ false
      → ((are_zeros w a b ≡ true) × (magnitude w (L.fbinary FBinary.minnum w a b) ≡ 0))
        ⊎ SameNumber w (L.fbinary FBinary.minnum w a b) (F.min_num w a b)
  pub maxnum :
      (w a b : ℕ)
      → is_signaling w a ≡ false
      → is_signaling w b ≡ false
      → ((are_zeros w a b ≡ true) × (magnitude w (L.fbinary FBinary.maxnum w a b) ≡ 0))
        ⊎ SameNumber w (L.fbinary FBinary.maxnum w a b) (F.max_num w a b)
  pub sub_nan : (w a b : ℕ) → is_nan w a ≡ true → is_nan w (F.sub w a b) ≡ true
  pub copysign : (w a b : ℕ) → L.fbinary FBinary.copysign w a b ≡ with_sign w (sign w b) a
  pub sqrt : (w a : ℕ) → SameNumber w (L.funary FUnary.sqrt w a) (F.sqrt w a)
  pub fabs : (w a : ℕ) → L.funary FUnary.fabs w a ≡ magnitude w a
  pub fneg :
      (w a : ℕ) → is_nan w a ≡ false → L.funary FUnary.fneg w a ≡ with_sign w (1 - sign w a) a
  pub fmuladd :
      (w a b c : ℕ)
      → SameNumber w (L.fmuladd w a b c) (F.fused w a b c)
        ⊎ SameNumber w (L.fmuladd w a b c) (F.add w (F.mul w a b) c)
  pub oeq : (w a b : ℕ) → L.fcmp FPred.oeq w a b ≡ F.equal w a b
  pub ole : (w a b : ℕ) → L.fcmp FPred.ole w a b ≡ F.less_equal w a b
  pub olt : (w a b : ℕ) → L.fcmp FPred.olt w a b ≡ F.less w a b
  pub fptosi : (w a : ℕ) → L.fcast FCast.fptosi w 32 a ≡ converted as_signed (F.truncated w a)
  pub fptoui : (w a : ℕ) → L.fcast FCast.fptoui w 32 a ≡ converted as_unsigned (F.truncated w a)
  pub sitofp : (w a : ℕ) → L.fcast FCast.sitofp 32 w a ≡ some (F.from_int w (signed 32 a))
  pub uitofp : (w a : ℕ) → L.fcast FCast.uitofp 32 w a ≡ some (F.from_int w (pos a))
  pub fpext :
      (a : ℕ) → (v : ℕ) × (L.fcast FCast.fpext 32 64 a ≡ some v) × SameNumber 64 v (F.widened a)
  pub load64 : (m : ℕ → ℕ) (p : ℕ) → L.load 64 m p ≡ word_at m p + 4294967296 * word_at m (p + 4)
  pub store64 : (m : ℕ → ℕ) (p v : ℕ) → L.store 64 m p v ≡ stored64 m p v
  pub fptrunc :
      (a : ℕ) → (v : ℕ) × (L.fcast FCast.fptrunc 64 32 a ≡ some v) × SameNumber 32 v (F.narrowed a)

-- The arithmetic on integers of the `model`.
abbrev pub arith_model : Ieee
arith_model = record {
  add = λ w a b. (a + b) % 2 ^ w;
  sub = model_sub;
  mul = λ w a b. a * b % 2 ^ w;
  div = λ w a b. a / b;
  min_num = λ w a b. if ltb a b then a else b;
  max_num = λ w a b. if ltb a b then b else a;
  sqrt = λ w a. a;
  fused = λ w a b c. (a * b + c) % 2 ^ w;
  equal = λ w a b. a == b;
  less = λ w a b. ltb a b;
  less_equal = λ w a b. not (ltb b a);
  truncated = λ w a. some (pos a);
  from_int = λ w z. unsigned w z;
  widened = λ a. a;
  narrowed = λ a. a % 2 ^ 32;
}

model_sub-nan : (w a b : ℕ) → is_nan w a ≡ true → is_nan w (model_sub w a b) ≡ true
model_sub-nan w a b h = rw h h

pub model-FloatRef : FloatRef model arith_model
model-FloatRef = record {
  fadd = λ w a b. inl refl;
  fsub = λ w a b. inl refl;
  fmul = λ w a b. inl refl;
  fdiv = λ w a b. inl refl;
  minnum = λ w a b p q. inr (inl refl);
  maxnum = λ w a b p q. inr (inl refl);
  sub_nan = model_sub-nan;
  copysign = λ w a b. refl;
  sqrt = λ w a. inl refl;
  fabs = λ w a. refl;
  fneg = λ w a h. refl;
  fmuladd = λ w a b c. inl (inl refl);
  oeq = λ w a b. refl;
  ole = λ w a b. refl;
  olt = λ w a b. refl;
  fptosi = λ w a. refl;
  fptoui = λ w a. refl;
  sitofp = λ w a. refl;
  uitofp = λ w a. refl;
  fpext = λ a. (a, refl, inl refl);
  fptrunc = λ a. (a % 2 ^ 32, refl, inl refl);
  load64 = λ m p. refl;
  store64 = λ m p v. refl;
}
