-- ===== src/Sbt/Ir/LangRef.antt =====
-- What the translator relies on of LLVM's integer instructions, as the LLVM language reference
-- states it, and the instance that shows that it can be met.
use Prim.Native.Nat.{bit_and, bit_or, bit_xor}
use riscv_sbt.Prelude.{
  ℕ, ◌+◌, ◌-◌, ◌*◌, ◌/◌, ◌%◌, ◌^◌, ◌<◌, ◌≡◌, refl, Bool, not, ◌&&◌, Option, none, some, arith, ltb,
  ◌==◌, if◌then◌else◌,
}
use riscv_sbt.Prelude.Word.{signed, unsigned, sar, quot, rem}
use riscv_sbt.Prelude.Word
use riscv_sbt.Sbt.Ir.{
  Llvm, BinOp, add, sub, mul, sdiv, udiv, srem, urem, shl, lshr, ashr, and, or, xor, Pred, eq, ne,
  ult, slt, sge, uge, FUnary, fneg, fabs, sqrt, FBinary, fadd, fsub, fmul, fdiv, minnum, maxnum,
  copysign, FPred, oeq, ole, olt, FCast, fpext, fptrunc, sitofp, uitofp, fptosi, fptoui, CastOp,
  sext, zext, trunc,
}

-- The one signed quotient that does not fit the width.
abbrev pub overflows : ℕ → ℕ → ℕ → Bool
overflows w a b = a == 2 ^ (w - 1) && b == 2 ^ w - 1

-- Little-endian bytes written to an address.
abbrev pub stored8 : (ℕ → ℕ) → ℕ → ℕ → ℕ → ℕ
stored8 m p v j = if j == p then v % 256 else m j

abbrev pub stored16 : (ℕ → ℕ) → ℕ → ℕ → ℕ → ℕ
stored16 m p v = stored8 (stored8 m (p + 1) (v / 256)) p v

abbrev pub stored32 : (ℕ → ℕ) → ℕ → ℕ → ℕ → ℕ
stored32 m p v = stored16 (stored16 m (p + 2) (v / 65536)) p v

-- The eight bytes of a double, lowest first
abbrev pub word_at : (ℕ → ℕ) → ℕ → ℕ
word_at m p = m p + 256 * m (p + 1) + 65536 * m (p + 2) + 16777216 * m (p + 3)

abbrev pub stored64 : (ℕ → ℕ) → ℕ → ℕ → ℕ → ℕ
stored64 m p v = stored32 (stored32 m (p + 4) (v / 4294967296)) p v

pub record LangRef (L : Llvm) : Type 0 where
  pub add : (w a b : ℕ) → L.binary BinOp.add w a b ≡ some ((a + b) % 2 ^ w)
  pub sub : (w a b : ℕ) → L.binary BinOp.sub w a b ≡ some ((a + (2 ^ w - b)) % 2 ^ w)
  pub mul : (w a b : ℕ) → L.binary BinOp.mul w a b ≡ some (a * b % 2 ^ w)
  pub and : (w a b : ℕ) → L.binary BinOp.and w a b ≡ some (bit_and a b)
  pub or : (w a b : ℕ) → L.binary BinOp.or w a b ≡ some (bit_or a b)
  pub xor : (w a b : ℕ) → L.binary BinOp.xor w a b ≡ some (bit_xor a b)
  pub shl : (w a k : ℕ) → k < w → L.binary BinOp.shl w a k ≡ some (a * 2 ^ k % 2 ^ w)
  pub lshr : (w a k : ℕ) → k < w → L.binary BinOp.lshr w a k ≡ some (a / 2 ^ k)
  pub ashr : (w a k : ℕ) → k < w → L.binary BinOp.ashr w a k ≡ some (sar w a k)
  -- Division by zero and the overflow of a signed division are undefined behaviour.
  pub udiv : (w a b : ℕ) → L.binary BinOp.udiv w a b ≡ (if b == 0 then none else some (a / b))
  pub urem : (w a b : ℕ) → L.binary BinOp.urem w a b ≡ (if b == 0 then none else some (a % b))
  pub sdiv :
      (w a b : ℕ)
      → L.binary BinOp.sdiv w a b ≡ (
          if b == 0
          then none
          else if overflows w a b
          then none
          else some (unsigned w (quot (signed w a) (signed w b))))
  pub srem :
      (w a b : ℕ)
      → L.binary BinOp.srem w a b ≡ (
          if b == 0
          then none
          else if overflows w a b
          then none
          else some (unsigned w (rem (signed w a) (signed w b))))
  pub neg : (w a : ℕ) → L.neg w a ≡ (2 ^ w - a) % 2 ^ w
  pub complement : (w a : ℕ) → L.complement w a ≡ bit_xor a (2 ^ w - 1)
  pub eq : (w a b : ℕ) → L.icmp Pred.eq w a b ≡ (a == b)
  pub ne : (w a b : ℕ) → L.icmp Pred.ne w a b ≡ not (a == b)
  pub ult : (w a b : ℕ) → L.icmp Pred.ult w a b ≡ ltb a b
  pub uge : (w a b : ℕ) → L.icmp Pred.uge w a b ≡ not (ltb a b)
  pub slt : (w a b : ℕ) → L.icmp Pred.slt w a b ≡ Word.slt w a b
  pub sge : (w a b : ℕ) → L.icmp Pred.sge w a b ≡ not (Word.slt w a b)
  pub sext : (v w a : ℕ) → L.cast CastOp.sext v w a ≡ Word.sext v w a
  pub zext : (v w a : ℕ) → L.cast CastOp.zext v w a ≡ a
  pub trunc : (v w a : ℕ) → L.cast CastOp.trunc v w a ≡ a % 2 ^ w
  -- Memory is little endian, and a `getelementptr` on an `i8*` adds within 32 bits.
  pub load8 : (m : ℕ → ℕ) (p : ℕ) → L.load 8 m p ≡ m p
  pub load16 : (m : ℕ → ℕ) (p : ℕ) → L.load 16 m p ≡ m p + 256 * m (p + 1)
  pub load32 :
      (m : ℕ → ℕ) (p : ℕ)
      → L.load 32 m p ≡ m p + 256 * m (p + 1) + 65536 * m (p + 2) + 16777216 * m (p + 3)
  pub gep : (p i : ℕ) → L.gep p i ≡ (p + i) % 2 ^ 32
  pub pointer_cast : (p : ℕ) → L.pointer_cast p ≡ p
  pub store8 : (m : ℕ → ℕ) (p v : ℕ) → L.store 8 m p v ≡ stored8 m p v
  pub store16 : (m : ℕ → ℕ) (p v : ℕ) → L.store 16 m p v ≡ stored16 m p v
  pub store32 : (m : ℕ → ℕ) (p v : ℕ) → L.store 32 m p v ≡ stored32 m p v

-- An implementation that meets it.
abbrev shifted : ℕ → ℕ → ℕ → Option ℕ
shifted w k x = if ltb k w then some x else none

abbrev divided : ℕ → ℕ → Option ℕ
divided b x = if b == 0 then none else some x

abbrev divided_signed : ℕ → ℕ → ℕ → ℕ → Option ℕ
divided_signed w a b x = if b == 0 then none else if overflows w a b then none else some x

abbrev model_binary : BinOp → ℕ → ℕ → ℕ → Option ℕ
model_binary add w a b = some ((a + b) % 2 ^ w)
model_binary sub w a b = some ((a + (2 ^ w - b)) % 2 ^ w)
model_binary mul w a b = some (a * b % 2 ^ w)
model_binary sdiv w a b = divided_signed w a b (unsigned w (quot (signed w a) (signed w b)))
model_binary udiv w a b = divided b (a / b)
model_binary srem w a b = divided_signed w a b (unsigned w (rem (signed w a) (signed w b)))
model_binary urem w a b = divided b (a % b)
model_binary shl w a k = shifted w k (a * 2 ^ k % 2 ^ w)
model_binary lshr w a k = shifted w k (a / 2 ^ k)
model_binary ashr w a k = shifted w k (sar w a k)
model_binary and w a b = some (bit_and a b)
model_binary or w a b = some (bit_or a b)
model_binary xor w a b = some (bit_xor a b)

abbrev model_icmp : Pred → ℕ → ℕ → ℕ → Bool
model_icmp eq w a b = a == b
model_icmp ne w a b = not (a == b)
model_icmp ult w a b = ltb a b
model_icmp slt w a b = Word.slt w a b
model_icmp sge w a b = not (Word.slt w a b)
model_icmp uge w a b = not (ltb a b)

abbrev model_cast : CastOp → ℕ → ℕ → ℕ → ℕ
model_cast sext v w a = Word.sext v w a
model_cast zext v w a = a
model_cast trunc v w a = a % 2 ^ w

abbrev model_load : ℕ → (ℕ → ℕ) → ℕ → ℕ
model_load w m p =
    if w == 8
    then m p
    else if w == 16
    then m p + 256 * m (p + 1)
    else if w == 64
    then word_at m p + 4294967296 * word_at m (p + 4)
    else m p + 256 * m (p + 1) + 65536 * m (p + 2) + 16777216 * m (p + 3)

abbrev model_store : ℕ → (ℕ → ℕ) → ℕ → ℕ → ℕ → ℕ
model_store w m p v =
    if w == 8
    then stored8 m p v
    else if w == 16
    then stored16 m p v
    else if w == 64
    then stored64 m p v
    else stored32 m p v

-- A pattern of a floating point number without its sign bit
abbrev pub magnitude : ℕ → ℕ → ℕ
magnitude w a = a % 2 ^ (w - 1)

-- All ones in the exponent and a fraction that is not zero
abbrev pub infinity : ℕ → ℕ
infinity w = if w == 32 then 0x7f800000 else 0x7ff0000000000000

abbrev pub is_nan : ℕ → ℕ → Bool
is_nan w a = ltb (infinity w) (magnitude w a)

-- The numbers of its floating point arithmetic are integers; the sign bit stands apart.
abbrev pub model_sub : ℕ → ℕ → ℕ → ℕ
model_sub w a b = if is_nan w a then a else (a + (2 ^ w - b)) % 2 ^ w

abbrev model_funary : FUnary → ℕ → ℕ → ℕ
model_funary fneg w a = (1 - a / 2 ^ (w - 1)) * 2 ^ (w - 1) + a % 2 ^ (w - 1)
model_funary fabs w a = a % 2 ^ (w - 1)
model_funary sqrt w a = a

abbrev model_fbinary : FBinary → ℕ → ℕ → ℕ → ℕ
model_fbinary fadd w a b = (a + b) % 2 ^ w
model_fbinary fsub w a b = model_sub w a b
model_fbinary fmul w a b = a * b % 2 ^ w
model_fbinary fdiv w a b = a / b
model_fbinary minnum w a b = if ltb a b then a else b
model_fbinary maxnum w a b = if ltb a b then b else a
model_fbinary copysign w a b = b / 2 ^ (w - 1) * 2 ^ (w - 1) + a % 2 ^ (w - 1)

abbrev model_fcmp : FPred → ℕ → ℕ → ℕ → Bool
model_fcmp oeq w a b = a == b
model_fcmp ole w a b = not (ltb b a)
model_fcmp olt w a b = ltb a b

abbrev model_fcast : FCast → ℕ → ℕ → ℕ → Option ℕ
model_fcast fpext v w a = some a
model_fcast fptrunc v w a = some (a % 2 ^ w)
model_fcast sitofp v w a = some (unsigned w (signed v a))
model_fcast uitofp v w a = some (a % 2 ^ w)
model_fcast fptosi v w a = if ltb a (2 ^ 31) then some a else none
model_fcast fptoui v w a = if ltb a (2 ^ 32) then some a else none

abbrev pub model : Llvm
model = record {
  binary = model_binary;
  neg = λ w a. (2 ^ w - a) % 2 ^ w;
  complement = λ w a. bit_xor a (2 ^ w - 1);
  icmp = model_icmp;
  cast = model_cast;
  load = model_load;
  store = model_store;
  gep = λ p i. (p + i) % 2 ^ 32;
  pointer_cast = λ p. p;
  funary = model_funary;
  fbinary = model_fbinary;
  fmuladd = λ w a b c. (a * b + c) % 2 ^ w;
  fcmp = model_fcmp;
  fcast = model_fcast;
  counter = λ c. 7;
}

shifted-lt : (w k x : ℕ) → k < w → shifted w k x ≡ some x
shifted-lt w k x h = ground arith

pub model-LangRef : LangRef model
model-LangRef = record {
  add = λ w a b. refl;
  sub = λ w a b. refl;
  mul = λ w a b. refl;
  and = λ w a b. refl;
  or = λ w a b. refl;
  xor = λ w a b. refl;
  shl = λ w a k h. shifted-lt w k _ h;
  lshr = λ w a k h. shifted-lt w k _ h;
  ashr = λ w a k h. shifted-lt w k _ h;
  udiv = λ w a b. refl;
  urem = λ w a b. refl;
  sdiv = λ w a b. refl;
  srem = λ w a b. refl;
  neg = λ w a. refl;
  complement = λ w a. refl;
  eq = λ w a b. refl;
  ne = λ w a b. refl;
  ult = λ w a b. refl;
  uge = λ w a b. refl;
  slt = λ w a b. refl;
  sge = λ w a b. refl;
  sext = λ v w a. refl;
  zext = λ v w a. refl;
  trunc = λ v w a. refl;
  load8 = λ m p. refl;
  load16 = λ m p. refl;
  load32 = λ m p. refl;
  gep = λ p i. refl;
  pointer_cast = λ p. refl;
  store8 = λ m p v. refl;
  store16 = λ m p v. refl;
  store32 = λ m p v. refl;
}
