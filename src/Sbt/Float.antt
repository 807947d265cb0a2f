-- ===== src/Sbt/Float.antt =====
-- The floating point instructions of sbt/Instruction.cpp: `translateF` and what it calls. A floating
-- point operand is LLVM's register, by the number that `FRegister::num` gives for it. The option
-- that checks the range of a conversion (`enableFCVTValidation`) and the one that optimises the
-- stack are off.
pub mod Ieee
pub mod Translate
pub mod Masks
pub mod Laws
pub mod Fused
pub mod Moves
pub mod Convert
use riscv_sbt.Prelude.{
  ℕ, ◌/◌, ◌^◌, Bool, true, false, ◌||◌, not, Option, none, some, ◌==◌, if◌then◌else◌,
}
use Prim.Native.Nat.{bit_and}
use riscv_sbt.Sbt.Ir.{Value}
use riscv_sbt.Sbt.Builder
use riscv_sbt.Sbt.Builder.{Build, return, aborted, ◌>>=◌, ◌>>◌, store_reg, zext, add}
use riscv_sbt.Sbt.Builder.Float
use riscv_sbt.Sbt.Builder.Float.{assert, fload_reg, fstore_reg}
use riscv_sbt.Sbt.Operand.{Operand, McInst, Relocated, get_reg_num, get_reg, get_imm}

-- `FType` and `IType`
pub data FType : Type 0 where
  f_single f_double : FType

pub data IType : Type 0 where
  f_w f_wu : IType

-- The LLVM type, by its width
abbrev pub width : FType → ℕ
width f_single = 32
width f_double = 64

-- `FPUOp` and `FFPUOp`
pub data FpuOp : Type 0 where
  f_add f_sub f_mul f_div f_min f_max f_sqrt f_sgnj f_sgnjn f_sgnjx f_eq f_le f_lt : FpuOp

pub data FusedOp : Type 0 where
  f_madd f_msub f_nmadd f_nmsub : FusedOp

-- `getFReg`, by `fload`
unfoldable pub get_freg : Operand → FType → Build Value
unfolding get_reg_num fload_reg
get_freg o ft = do nr ← get_reg_num o; fload_reg nr (width ft)

-- `FRM`: the rounding mode of the instruction's word, and the checks of it
unfoldable pub rounding_mode : ℕ → ℕ
rounding_mode raw = bit_and (raw / 2 ^ 12) 7

unfoldable pub check_rm : ℕ → Build (Unit {0})
unfolding rounding_mode
check_rm raw = assert (rounding_mode raw == 0 || rounding_mode raw == 7)

unfoldable pub is_valid_rm : ℕ → Bool
is_valid_rm rm = not (rm == 5 || rm == 6)

unfoldable pub has_rm : FpuOp → Bool
has_rm f_add = true
has_rm f_sub = true
has_rm f_mul = true
has_rm f_div = true
has_rm f_sqrt = true
has_rm f_min = false
has_rm f_max = false
has_rm f_sgnj = false
has_rm f_sgnjn = false
has_rm f_sgnjx = false
has_rm f_eq = false
has_rm f_le = false
has_rm f_lt = false

-- The second operand. The square root has none, and the sign injections do not load the register
-- that the first operand has.
load_second : Bool → Operand → FType → Build (Option Value)
unfolding get_freg
load_second true o ft = return none
load_second false o ft = do v ← get_freg o ft; return (some v)

unfoldable pub second : FpuOp → FType → ℕ → Operand → Build (Option Value)
unfolding get_reg_num load_second
second f_sqrt ft o1n o = return none
second f_sgnj ft o1n o = do o2n ← get_reg_num o; load_second (o1n == o2n) o ft
second f_sgnjn ft o1n o = do o2n ← get_reg_num o; load_second (o1n == o2n) o ft
second f_sgnjx ft o1n o = do o2n ← get_reg_num o; load_second (o1n == o2n) o ft
second _ ft o1n o = do o2n ← get_reg_num o; load_second false o ft

-- A test gives a bit, which is extended to a word.
test : (Value → Value → Build Value) → Value → Value → Build Value
unfolding zext
test f o1 o2 = do v ← f o1 o2; zext v

-- The operation. With one register for both operands, the sign injections are a move, a negation
-- and an absolute value.
unfoldable pub emit_fpu : FpuOp → Value → Option Value → Build Value
unfolding test Float.fadd Float.fsub Float.fmul Float.fdiv Float.fmin Float.fmax Float.fsqrt
    Float.fsgnj Float.fsgnjn Float.fsgnjx Float.fneg Float.fabs Float.feq Float.fle Float.flt
emit_fpu f_sgnj o1 none = return o1
emit_fpu f_sgnjn o1 none = Float.fneg o1
emit_fpu f_sgnjx o1 none = Float.fabs o1
emit_fpu f_sqrt o1 _ = Float.fsqrt o1
emit_fpu f_add o1 (some o2) = Float.fadd o1 o2
emit_fpu f_sub o1 (some o2) = Float.fsub o1 o2
emit_fpu f_mul o1 (some o2) = Float.fmul o1 o2
emit_fpu f_div o1 (some o2) = Float.fdiv o1 o2
emit_fpu f_min o1 (some o2) = Float.fmin o1 o2
emit_fpu f_max o1 (some o2) = Float.fmax o1 o2
emit_fpu f_sgnj o1 (some o2) = Float.fsgnj o1 o2
emit_fpu f_sgnjn o1 (some o2) = Float.fsgnjn o1 o2
emit_fpu f_sgnjx o1 (some o2) = Float.fsgnjx o1 o2
emit_fpu f_eq o1 (some o2) = test Float.feq o1 o2
emit_fpu f_le o1 (some o2) = test Float.fle o1 o2
emit_fpu f_lt o1 (some o2) = test Float.flt o1 o2
-- No other operation is without its second operand.
emit_fpu _ o1 none = λ b. aborted

-- The comparisons write to an integer register.
unfoldable pub is_int : FpuOp → Bool
is_int f_eq = true
is_int f_le = true
is_int f_lt = true
is_int _ = false

unfoldable pub translate_fpu_op : FpuOp → FType → ℕ → McInst → Build (Unit {0})
unfolding get_reg_num get_freg second check_rm has_rm emit_fpu is_int store_reg fstore_reg
translate_fpu_op op ft raw inst = do
  o ← get_reg_num inst.op0
  o1n ← get_reg_num inst.op1
  o1 ← get_freg inst.op1 ft
  o2 ← second op ft o1n inst.op2
  (if has_rm op then check_rm raw else return tt)
  v ← emit_fpu op o1 o2
  if is_int op then store_reg v o else fstore_reg v o
