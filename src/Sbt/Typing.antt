-- ===== src/Sbt/Typing.antt =====
-- The types that LLVM asks of the emitted instructions: a temporary is defined once, in order, and
-- before it is used, each operand has the type that the instruction takes, and a load or a store goes
-- through a pointer to its own type.
pub mod Laws
pub mod Float
use riscv_sbt.Prelude.{
  ℕ, ◌≡◌, Bool, true, false, ◌&&◌, ◌||◌, List, [], ◌∷◌, ◌++◌, Option, none, some, ltb, ◌==◌,
  if◌then◌else◌, length, get_elem?,
}
use riscv_sbt.Sbt.Ir.{
  Pointee, int_of, float_of, Value, const, symbol, tmp, float_tmp, pointer_tmp, bits, CastOp, sext,
  zext, trunc, FCast, fpext, fptrunc, sitofp, uitofp, fptosi, fptoui, Inst, load_reg, store_reg,
  binary, neg, complement, icmp, cast, load, store, gep, pointer_cast, donothing, fence, fload_reg,
  fstore_reg, fload, funary, fbinary, fmuladd, fcmp, fcast, bit_cast, load_csr, store_csr,
  counters_init, call_counter,
}
use riscv_sbt.Sbt.Builder.{Build, Outcome, done, failed, aborted, empty, same_pointee}

-- An integer or a floating point type of a width, or a pointer to a value of such a type
pub data Ty : Type 0 where
  int_ty : ℕ → Ty
  float_ty : ℕ → Ty
  pointer_ty : Pointee → Ty

-- The type of what a pointer points to
abbrev pointed : Pointee → Ty
pointed (int_of w) = int_ty w
pointed (float_of w) = float_ty w

abbrev pub type_of : Value → Ty
type_of (const w v) = int_ty w
type_of (symbol w v) = int_ty w
type_of (tmp w i) = int_ty w
type_of (float_tmp w i) = float_ty w
type_of (pointer_tmp p i) = pointer_ty p

abbrev same_type : Ty → Ty → Bool
same_type (int_ty v) (int_ty w) = v == w
same_type (int_ty v) (float_ty w) = false
same_type (int_ty v) (pointer_ty q) = false
same_type (float_ty v) (int_ty w) = false
same_type (float_ty v) (float_ty w) = v == w
same_type (float_ty v) (pointer_ty q) = false
same_type (pointer_ty p) (int_ty w) = false
same_type (pointer_ty p) (float_ty w) = false
same_type (pointer_ty p) (pointer_ty q) = same_pointee p q

-- The types of the temporaries so far, in the order of their numbers.
abbrev pub Context : Type 0
Context = List Ty

abbrev is_entry : Option Ty → Ty → Bool
is_entry none t = false
is_entry (some s) t = same_type s t

abbrev is_defined : Context → Value → Bool
is_defined c (const w v) = true
is_defined c (symbol w v) = true
is_defined c (tmp w i) = is_entry (get_elem? c i) (int_ty w)
is_defined c (float_tmp w i) = is_entry (get_elem? c i) (float_ty w)
is_defined c (pointer_tmp p i) = is_entry (get_elem? c i) (pointer_ty p)

abbrev has_type : Context → Value → Ty → Bool
has_type c v t = is_defined c v && same_type (type_of v) t

abbrev is_int : Context → Value → Bool
is_int c v = has_type c v (int_ty (bits v))

abbrev is_float : Context → Value → Bool
is_float c v = has_type c v (float_ty (bits v))

-- Floating point formats have 32 or 64 bits.
abbrev is_format : ℕ → Bool
is_format w = w == 32 || w == 64

-- A pointer to a value of the type.
abbrev points_to : Context → Value → Ty → Bool
points_to c (pointer_tmp p i) t = is_defined c (pointer_tmp p i) && same_type (pointed p) t
points_to c v t = false

-- A cast to a pointer is from a word, or from a pointer of another type.
abbrev is_castable : Context → Value → Bool
is_castable c (pointer_tmp p i) = is_defined c (pointer_tmp p i)
is_castable c v = has_type c v (int_ty 32)

abbrev define : Context → ℕ → Ty → Bool → Option Context
define c d t ok = if ok && d == length c then some (c ++ t ∷ []) else none

abbrev effect_only : Context → Bool → Option Context
effect_only c ok = if ok then some c else none

-- The widths that a cast goes between
abbrev cast_fits : CastOp → ℕ → ℕ → Bool
cast_fits sext v w = ltb v w
cast_fits zext v w = ltb v w
cast_fits trunc v w = ltb w v

abbrev check_fcast : Context → ℕ → FCast → Value → ℕ → Option Context
check_fcast c d fpext a w = define c d (float_ty w) (has_type c a (float_ty 32) && w == 64)
check_fcast c d fptrunc a w = define c d (float_ty w) (has_type c a (float_ty 64) && w == 32)
check_fcast c d sitofp a w = define c d (float_ty w) (is_int c a && is_format w)
check_fcast c d uitofp a w = define c d (float_ty w) (is_int c a && is_format w)
check_fcast c d fptosi a w = define c d (int_ty w) (is_float c a)
check_fcast c d fptoui a w = define c d (int_ty w) (is_float c a)

-- A bit cast gives the other kind.
abbrev other_kind : Value → Ty
other_kind (float_tmp w i) = int_ty w
other_kind v = float_ty (bits v)

abbrev pub check_inst : Context → Inst → Option Context
check_inst c (load_reg d r) = define c d (int_ty 32) true
check_inst c (store_reg v r) = effect_only c (has_type c v (int_ty 32))
check_inst c (binary d op a b) =
    define c d (int_ty (bits a)) (is_int c a && has_type c b (int_ty (bits a)))
check_inst c (neg d a) = define c d (int_ty (bits a)) (is_int c a)
check_inst c (complement d a) = define c d (int_ty (bits a)) (is_int c a)
check_inst c (icmp d p a b) = define c d (int_ty 1) (is_int c a && has_type c b (int_ty (bits a)))
check_inst c (cast d op a w) = define c d (int_ty w) (is_int c a && cast_fits op (bits a) w)
check_inst c (load d p w) = define c d (int_ty w) (points_to c p (int_ty w))
check_inst c (store v p) = effect_only c (is_defined c v && points_to c p (type_of v))
-- A byte's address moves by bytes.
check_inst c (gep d p i) =
    define c d (pointer_ty (int_of 8)) (points_to c p (int_ty 8) && has_type c i (int_ty 32))
check_inst c (pointer_cast d q p) = define c d (pointer_ty q) (is_castable c p)
check_inst c donothing = some c
check_inst c fence = some c
check_inst c (fload_reg d r w) = define c d (float_ty w) (is_format w)
check_inst c (fstore_reg v r) = effect_only c (is_float c v && is_format (bits v))
check_inst c (fload d p w) = define c d (float_ty w) (points_to c p (float_ty w) && is_format w)
check_inst c (funary d op a) = define c d (float_ty (bits a)) (is_float c a)
check_inst c (fbinary d op a b) =
    define c d (float_ty (bits a)) (is_float c a && has_type c b (float_ty (bits a)))
check_inst c (fmuladd d a b e) =
    define c d (float_ty (bits a))
      (is_float c a && has_type c b (float_ty (bits a)) && has_type c e (float_ty (bits a)))
check_inst c (fcmp d p a b) =
    define c d (int_ty 1) (is_float c a && has_type c b (float_ty (bits a)))
check_inst c (fcast d op a w) = check_fcast c d op a w
check_inst c (bit_cast d a) = define c d (other_kind a) (is_defined c a && is_format (bits a))
check_inst c (load_csr d) = define c d (int_ty 32) true
check_inst c (store_csr v) = effect_only c (has_type c v (int_ty 32))
check_inst c counters_init = some c
check_inst c (call_counter d n) = define c d (int_ty 32) true

abbrev pub is_typed : Context → List Inst → Bool
is_typed c [] = true
is_typed c (i ∷ code) = elim (check_inst c i) [ none ↦ false | some c' ↦ is_typed c' code ]

-- Whatever code a translation emits is well typed.
abbrev emits_typed : {A : Type 0} → Outcome A → Bool
emits_typed (done a b) = is_typed [] b.code
emits_typed (failed e) = true
emits_typed aborted = true

abbrev pub IsTyped : {A : Type 0} → Build A → Type 0
IsTyped act = emits_typed (act empty) ≡ true
