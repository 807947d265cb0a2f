-- ===== src/Sbt/Builder.antt =====
-- `sbt::Builder` of sbt/Builder.h: a thin layer over `llvm::IRBuilder`. Each method is a call that
-- emits an instruction and gives its value. `first`, debug output, the note of the stack pointer
-- that `setCFAOffs` keeps, and the methods for calls and branches are not modelled.
pub mod Float
use riscv_sbt.Prelude.{
  ℕ, suc, List, [], ◌∷◌, ◌++◌, ◌==◌, ◌%◌, ◌^◌, Bool, true, false, if◌then◌else◌,
}
use riscv_sbt.Sbt.Ir.{
  Pointee, int_of, float_of, Value, const, symbol, tmp, float_tmp, pointer_tmp, bits, BinOp, Pred,
  CastOp, Inst,
}

-- The code emitted for one guest instruction, and the number of the next temporary.
pub record Builder : Type 0 where
  pub code : List Inst
  pub next : ℕ

-- `reset`
abbrev pub empty : Builder
empty = record { code = []; next = 0 }

-- An `llvm::Error`, or a failed assertion.
pub data Outcome (A : Type 0) : Type 0 where
  done : A → Builder → Outcome A
  failed : ℕ → Outcome A
  aborted : Outcome A

abbrev pub Build : Type 0 → Type 0
Build A = Builder → Outcome A

abbrev pub return : {A : Type 0} → A → Build A
return a b = done a b

infixl 5 ◌>>=◌ ◌>>◌
abbrev pub ◌>>=◌ : {A B : Type 0} → Build A → (A → Build B) → Build B
◌>>=◌ m f b = elim (m b) [ done a b' ↦ f a b' | failed e ↦ failed e | aborted ↦ aborted ]

abbrev pub ◌>>◌ : {B : Type 0} → Build (Unit {0}) → Build B → Build B
m >> k = m >>= λ _. k

-- Emit an instruction that has no result, or one of a width.
abbrev pub emit : Inst → Build (Unit {0})
emit i b = done tt (record b { code = b.code ++ i ∷ [] })

abbrev pub emit_value : ℕ → (ℕ → Inst) → Build Value
emit_value w i b =
    done (tmp w b.next) (record { code = b.code ++ i b.next ∷ []; next = suc b.next })

abbrev pub emit_pointer : Pointee → (ℕ → Inst) → Build Value
emit_pointer p i b =
    done (pointer_tmp p b.next) (record { code = b.code ++ i b.next ∷ []; next = suc b.next })

abbrev pub same_pointee : Pointee → Pointee → Bool
same_pointee (int_of v) (int_of w) = v == w
same_pointee (int_of v) (float_of w) = false
same_pointee (float_of v) (int_of w) = false
same_pointee (float_of v) (float_of w) = v == w

abbrev pub is_pointer_to : Value → Pointee → Bool
is_pointer_to (const w v) p = false
is_pointer_to (symbol w v) p = false
is_pointer_to (tmp w i) p = false
is_pointer_to (float_tmp w i) p = false
is_pointer_to (pointer_tmp q i) p = same_pointee q p

-- `Constants::i32`, `u32` and `i64`
abbrev pub i32 : ℕ → Value
i32 n = const 32 (n % 2 ^ 32)

abbrev pub i64 : ℕ → Value
i64 n = const 64 (n % 2 ^ 64)

-- Reading and writing a guest register; a write to `zero` is dropped.
unfoldable pub load_reg : ℕ → Build Value
load_reg reg = emit_value 32 (λ d. Inst.load_reg d reg)

unfoldable pub store_reg : Value → ℕ → Build (Unit {0})
store_reg v reg = if reg == 0 then return tt else emit (Inst.store_reg v reg)

unfoldable pub load : Value → ℕ → Build Value
load ptr w = emit_value w (λ d. Inst.load d ptr w)

unfoldable pub store : Value → Value → Build (Unit {0})
store v ptr = emit (Inst.store v ptr)

unfoldable pub nop : Build (Unit {0})
nop = emit Inst.donothing

unfoldable pub fence : Build (Unit {0})
fence = emit Inst.fence

-- casts
abbrev cast_to : CastOp → ℕ → Value → Build Value
cast_to c w v = emit_value w (λ d. Inst.cast d c v w)

unfoldable pub sext : Value → Build Value
sext = cast_to CastOp.sext 32

unfoldable pub sext64 : Value → Build Value
sext64 = cast_to CastOp.sext 64

unfoldable pub zext : Value → Build Value
zext = cast_to CastOp.zext 32

unfoldable pub zext64 : Value → Build Value
zext64 = cast_to CastOp.zext 64

-- A cast to a value's own width is no instruction.
unfoldable pub trunc_or_bit_cast : Value → ℕ → Build Value
trunc_or_bit_cast v w = if bits v == w then return v else cast_to CastOp.trunc w v

-- A cast to a pointer type; a pointer of that type is cast by no instruction.
unfoldable pub bit_or_pointer_cast : Value → Pointee → Build Value
bit_or_pointer_cast v p =
    if is_pointer_to v p then return v else emit_pointer p (λ d. Inst.pointer_cast d p v)

-- On an `i8*`
unfoldable pub gep : Value → Value → Build Value
gep ptr idx = emit_pointer (int_of 8) (λ d. Inst.gep d ptr idx)

-- ALU ops
abbrev binary : BinOp → Value → Value → Build Value
binary op a b = emit_value (bits a) (λ d. Inst.binary d op a b)

unfoldable pub add : Value → Value → Build Value
add = binary BinOp.add

unfoldable pub and : Value → Value → Build Value
and = binary BinOp.and

unfoldable pub mul : Value → Value → Build Value
mul = binary BinOp.mul

unfoldable pub div : Value → Value → Build Value
div = binary BinOp.sdiv

unfoldable pub divu : Value → Value → Build Value
divu = binary BinOp.udiv

unfoldable pub rem : Value → Value → Build Value
rem = binary BinOp.srem

unfoldable pub remu : Value → Value → Build Value
remu = binary BinOp.urem

unfoldable pub or : Value → Value → Build Value
or = binary BinOp.or

unfoldable pub sll : Value → Value → Build Value
sll = binary BinOp.shl

unfoldable pub sra : Value → Value → Build Value
sra = binary BinOp.ashr

unfoldable pub srl : Value → Value → Build Value
srl = binary BinOp.lshr

unfoldable pub sub : Value → Value → Build Value
sub = binary BinOp.sub

unfoldable pub xor : Value → Value → Build Value
xor = binary BinOp.xor

unfoldable pub complement : Value → Build Value
complement a = emit_value (bits a) (λ d. Inst.complement d a)

unfoldable pub neg : Value → Build Value
neg a = emit_value (bits a) (λ d. Inst.neg d a)

-- The high words of the products, by 64-bit multiplication.
unfoldable pub mulh : Value → Value → Build Value
unfolding sext64 mul sra trunc_or_bit_cast
mulh a b = do
  a64 ← sext64 a
  b64 ← sext64 b
  v ← mul a64 b64
  v' ← sra v (i64 32)
  trunc_or_bit_cast v' 32

unfoldable pub mulhu : Value → Value → Build Value
unfolding zext64 mul srl trunc_or_bit_cast
mulhu a b = do
  a64 ← zext64 a
  b64 ← zext64 b
  v ← mul a64 b64
  v' ← srl v (i64 32)
  trunc_or_bit_cast v' 32

unfoldable pub mulhsu : Value → Value → Build Value
unfolding sext64 zext64 mul sra trunc_or_bit_cast
mulhsu a b = do
  a64 ← sext64 a
  b64 ← zext64 b
  v ← mul a64 b64
  v' ← sra v (i64 32)
  trunc_or_bit_cast v' 32

-- comparisons
abbrev compare : Pred → Value → Value → Build Value
compare p a b = emit_value 1 (λ d. Inst.icmp d p a b)

unfoldable pub eq : Value → Value → Build Value
eq = compare Pred.eq

unfoldable pub ne : Value → Value → Build Value
ne = compare Pred.ne

unfoldable pub ult : Value → Value → Build Value
ult = compare Pred.ult

unfoldable pub slt : Value → Value → Build Value
slt = compare Pred.slt

unfoldable pub sge : Value → Value → Build Value
sge = compare Pred.sge

unfoldable pub uge : Value → Value → Build Value
uge = compare Pred.uge
