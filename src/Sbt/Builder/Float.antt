-- ===== src/Sbt/Builder/Float.antt =====
-- The floating point methods of `sbt::Builder`, sbt/Builder.h, and those for the CSR and the
-- counters. The cast of the register's pointer that `fload32` and `fstore32` emit is part of the
-- access.
use riscv_sbt.Prelude.{ℕ, suc, ◌^◌, Bool, ◌||◌, [], ◌∷◌, ◌++◌, ◌==◌, if◌then◌else◌}
use riscv_sbt.Sbt.Ir.{
  Value, float_of, float_tmp, bits, FUnary, FBinary, FPred, FCast, Inst, Counter,
}
use riscv_sbt.Sbt.Builder.{
  Build, done, aborted, ◌>>=◌, ◌>>◌, emit, emit_value, emit_pointer, i32, i64, and, or, xor,
}

-- Emit an instruction whose result is a floating point number.
abbrev emit_float : ℕ → (ℕ → Inst) → Build Value
emit_float w i b =
    done (float_tmp w b.next) (record b { code = b.code ++ i b.next ∷ []; next = suc b.next })

-- `xassert`
abbrev pub assert : Bool → Build (Unit {0})
assert c b = if c then done tt b else aborted

abbrev cast : FCast → Value → ℕ → Build Value
cast c v w = emit_float w (λ d. Inst.fcast d c v w)

-- `i32ToFP32Ptr` and `i32ToFP64Ptr`, by the width
unfoldable pub i32_to_fp_ptr : ℕ → Value → Build Value
i32_to_fp_ptr w v = emit_pointer (float_of w) (λ d. Inst.pointer_cast d (float_of w) v)

unfoldable pub fp_load : Value → ℕ → Build Value
fp_load ptr w = emit_float w (λ d. Inst.fload d ptr w)

unfoldable pub fp32_to_fp64 : Value → Build Value
fp32_to_fp64 v = cast FCast.fpext v 64

unfoldable pub fp64_to_fp32 : Value → Build Value
fp64_to_fp32 v = cast FCast.fptrunc v 32

unfoldable pub si_to_fp : Value → ℕ → Build Value
si_to_fp v w = cast FCast.sitofp v w

unfoldable pub ui_to_fp : Value → ℕ → Build Value
ui_to_fp v w = cast FCast.uitofp v w

unfoldable pub fp_to_si : Value → ℕ → Build Value
fp_to_si v w = emit_value w (λ d. Inst.fcast d FCast.fptosi v w)

unfoldable pub fp_to_ui : Value → ℕ → Build Value
fp_to_ui v w = emit_value w (λ d. Inst.fcast d FCast.fptoui v w)

-- `bitOrPointerCast` between the two kinds of a width
unfoldable pub to_int : Value → Build Value
to_int v = emit_value (bits v) (λ d. Inst.bit_cast d v)

unfoldable pub to_float : Value → Build Value
to_float v = emit_float (bits v) (λ d. Inst.bit_cast d v)

-- `fload32` and `fload64`, `fstore32` and `fstore64`
unfoldable pub fload_reg : ℕ → ℕ → Build Value
fload_reg reg w = emit_float w (λ d. Inst.fload_reg d reg w)

unfoldable pub fstore_reg : Value → ℕ → Build (Unit {0})
fstore_reg v reg = emit (Inst.fstore_reg v reg)

-- FPU ops
abbrev binary : FBinary → Value → Value → Build Value
binary op a b = emit_float (bits a) (λ d. Inst.fbinary d op a b)

abbrev unary : FUnary → Value → Build Value
unary op a = emit_float (bits a) (λ d. Inst.funary d op a)

unfoldable pub fadd : Value → Value → Build Value
fadd = binary FBinary.fadd

unfoldable pub fsub : Value → Value → Build Value
fsub = binary FBinary.fsub

unfoldable pub fmul : Value → Value → Build Value
fmul = binary FBinary.fmul

unfoldable pub fdiv : Value → Value → Build Value
fdiv = binary FBinary.fdiv

unfoldable pub fmin : Value → Value → Build Value
fmin = binary FBinary.minnum

unfoldable pub fmax : Value → Value → Build Value
fmax = binary FBinary.maxnum

unfoldable pub fsqrt : Value → Build Value
fsqrt = unary FUnary.sqrt

unfoldable pub fneg : Value → Build Value
fneg = unary FUnary.fneg

unfoldable pub fabs : Value → Build Value
fabs = unary FUnary.fabs

unfoldable pub fmadd : Value → Value → Value → Build Value
fmadd a b c = emit_float (bits a) (λ d. Inst.fmuladd d a b c)

unfoldable pub fmsub : Value → Value → Value → Build Value
unfolding fmul fsub
fmsub a b c = do p ← fmul a b; fsub p c

unfoldable pub fnmadd : Value → Value → Value → Build Value
unfolding fmadd fneg
fnmadd a b c = do s ← fmadd a b c; fneg s

unfoldable pub fnmsub : Value → Value → Value → Build Value
unfolding fmsub fneg
fnmsub a b c = do s ← fmsub a b c; fneg s

abbrev compare : FPred → Value → Value → Build Value
compare p a b = emit_value 1 (λ d. Inst.fcmp d p a b)

unfoldable pub feq : Value → Value → Build Value
feq = compare FPred.oeq

unfoldable pub fle : Value → Value → Build Value
fle = compare FPred.ole

unfoldable pub flt : Value → Value → Build Value
flt = compare FPred.olt

-- `fsgnj_init`: the masks of the sign bit and of all the others, by the type of the operand.
unfoldable pub sign_mask : ℕ → Value
sign_mask w = if w == 32 then i32 (2 ^ 31) else i64 (2 ^ 63)

unfoldable pub rest_mask : ℕ → Value
rest_mask w = if w == 32 then i32 0x7fffffff else i64 0x7fffffffffffffff

unfoldable pub fsgnj : Value → Value → Build Value
fsgnj = binary FBinary.copysign

unfoldable pub fsgnjn : Value → Value → Build Value
unfolding fneg
fsgnjn a b = do n ← fneg b; binary FBinary.copysign a n

unfoldable pub fsgnjx : Value → Value → Build Value
unfolding to_int to_float sign_mask rest_mask and or xor
fsgnjx a b = do
  assert (bits a == 32 || bits a == 64)
  a1 ← to_int a
  b1 ← to_int b
  b2 ← xor a1 b1
  b3 ← and b2 (sign_mask (bits a))
  a2 ← and a1 (rest_mask (bits a))
  v ← or a2 b3
  to_float v

-- The load and the store of `_ctx->fcsr`, and the call of a function of the counters.
unfoldable pub load_fcsr : Build Value
load_fcsr = emit_value 32 Inst.load_csr

unfoldable pub store_fcsr : Value → Build (Unit {0})
store_fcsr v = emit (Inst.store_csr v)

unfoldable pub call_counter : Counter → Build Value
call_counter c = emit_value 32 (λ d. Inst.call_counter d c)

unfoldable pub call_init : Build (Unit {0})
call_init = emit Inst.counters_init
