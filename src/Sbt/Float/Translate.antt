-- ===== src/Sbt/Float/Translate.antt =====
-- The fused operations, loads and stores, conversions and moves of sbt/Instruction.cpp, and the
-- dispatch of `translateF` on the opcode.
use riscv_sbt.Prelude.{ℕ, not, ◌||◌, ◌==◌}
use riscv_sbt.Sbt.Builder.{Build, ◌>>=◌, ◌>>◌, store_reg, add, store}
use riscv_sbt.Sbt.Builder.Float
use riscv_sbt.Sbt.Builder.Float.{
  assert, fstore_reg, fp_load, i32_to_fp_ptr, to_int, to_float, si_to_fp, ui_to_fp, fp_to_si,
  fp_to_ui, fp32_to_fp64, fp64_to_fp32,
}
use riscv_sbt.Sbt.Ir.{Value}
use riscv_sbt.Sbt.Operand.{Operand, McInst, Relocated, get_reg_num, get_reg, get_imm}
use riscv_sbt.Sbt.Float.{
  FType, f_single, f_double, IType, f_w, f_wu, FpuOp, FusedOp, f_madd, f_msub, f_nmadd, f_nmsub,
  width, get_freg, rounding_mode, check_rm, is_valid_rm, translate_fpu_op,
}

-- The fused operations have a fourth operand.
pub record FusedInst : Type 0 where
  pub first : McInst
  pub op3 : Operand

unfoldable pub emit_fused : FusedOp → Value → Value → Value → Build Value
unfolding Float.fmadd Float.fmsub Float.fnmadd Float.fnmsub
emit_fused f_madd a b c = Float.fmadd a b c
emit_fused f_msub a b c = Float.fmsub a b c
emit_fused f_nmadd a b c = Float.fnmadd a b c
emit_fused f_nmsub a b c = Float.fnmsub a b c

unfoldable pub translate_ffpu_op : FusedOp → FType → ℕ → FusedInst → Build (Unit {0})
unfolding get_reg_num get_freg check_rm emit_fused fstore_reg
translate_ffpu_op op ft raw inst = do
  o ← get_reg_num inst.first.op0
  o1 ← get_freg inst.first.op1 ft
  o2 ← get_freg inst.first.op2 ft
  o3 ← get_freg inst.op3 ft
  check_rm raw
  v ← emit_fused op o1 o2 o3
  fstore_reg v o

unfoldable pub translate_fp_load : FType → Relocated → McInst → Build (Unit {0})
unfolding get_reg_num get_reg get_imm add i32_to_fp_ptr fp_load fstore_reg
translate_fp_load ft reloc inst = do
  fr ← get_reg_num inst.op0
  rs1n ← get_reg_num inst.op1
  rs1 ← get_reg inst.op1
  imm ← get_imm reloc inst.op2
  addr ← add rs1 imm
  ptr ← i32_to_fp_ptr (width ft) addr
  v ← fp_load ptr (width ft)
  fstore_reg v fr

unfoldable pub translate_fp_store : FType → Relocated → McInst → Build (Unit {0})
unfolding get_reg_num get_freg get_reg get_imm add i32_to_fp_ptr store
translate_fp_store ft reloc inst = do
  fr ← get_freg inst.op0 ft
  rs1n ← get_reg_num inst.op1
  rs1 ← get_reg inst.op1
  imm ← get_imm reloc inst.op2
  addr ← add rs1 imm
  ptr ← i32_to_fp_ptr (width ft) addr
  store fr ptr

-- `translateCVT` to an integer, without the validation of the range
fp_to_word : IType → Value → Build Value
unfolding fp_to_si fp_to_ui
fp_to_word f_w v = fp_to_si v 32
fp_to_word f_wu v = fp_to_ui v 32

unfoldable pub translate_cvt_word : IType → FType → ℕ → McInst → Build (Unit {0})
unfolding get_reg_num get_freg rounding_mode fp_to_word store_reg
translate_cvt_word it ft raw inst = do
  rd ← get_reg_num inst.op0
  fr ← get_freg inst.op1 ft
  let rm = rounding_mode raw
  assert (rm == 1 || rm == 7)
  v ← fp_to_word it fr
  store_reg v rd

-- `translateCVT` from an integer
word_to_fp : IType → Value → ℕ → Build Value
unfolding si_to_fp ui_to_fp
word_to_fp f_w v w = si_to_fp v w
word_to_fp f_wu v w = ui_to_fp v w

unfoldable pub translate_cvt_float : FType → IType → ℕ → McInst → Build (Unit {0})
unfolding get_reg_num get_reg rounding_mode is_valid_rm word_to_fp fstore_reg
translate_cvt_float ft it raw inst = do
  rd ← get_reg_num inst.op0
  ir ← get_reg inst.op1
  assert (is_valid_rm (rounding_mode raw))
  v ← word_to_fp it ir (width ft)
  fstore_reg v rd

-- `translateCVT` between the formats
change_format : FType → Value → Build Value
unfolding fp32_to_fp64 fp64_to_fp32
change_format f_single v = fp32_to_fp64 v
change_format f_double v = fp64_to_fp32 v

unfoldable pub translate_cvt : FType → FType → ℕ → McInst → Build (Unit {0})
unfolding get_reg_num get_freg check_rm change_format fstore_reg
translate_cvt ft1 ft2 raw inst = do
  assert (not (width ft1 == width ft2))
  rd ← get_reg_num inst.op0
  v ← get_freg inst.op1 ft2
  check_rm raw
  v' ← change_format ft2 v
  fstore_reg v' rd

-- The two `translateFMV`: the only formats that they take are `F_W` and `F_SINGLE`.
unfoldable pub translate_fmv_word : McInst → Build (Unit {0})
unfolding get_reg_num get_freg to_int store_reg
translate_fmv_word inst = do
  rd ← get_reg_num inst.op0
  v ← get_freg inst.op1 f_single
  v' ← to_int v
  store_reg v' rd

unfoldable pub translate_fmv_float : McInst → Build (Unit {0})
unfolding get_reg_num get_reg to_float fstore_reg
translate_fmv_float inst = do
  rd ← get_reg_num inst.op0
  v ← get_reg inst.op1
  v' ← to_float v
  fstore_reg v' rd

-- The opcodes of `translateF`, as `RISCV::` names them.
pub data FOpcode : Type 0 where
  flw fld fsw fsd : FOpcode
  fadd_s fadd_d fsub_s fsub_d fmul_s fmul_d fdiv_s fdiv_d fsqrt_s fsqrt_d : FOpcode
  fmin_s fmin_d fmax_s fmax_d : FOpcode
  fmadd_s fmadd_d fmsub_s fmsub_d fnmadd_s fnmadd_d fnmsub_s fnmsub_d : FOpcode
  fsgnj_s fsgnj_d fsgnjn_s fsgnjn_d fsgnjx_s fsgnjx_d : FOpcode
  feq_s feq_d fle_s fle_d flt_s flt_d : FOpcode
  fcvt_w_s fcvt_w_d fcvt_wu_s fcvt_wu_d : FOpcode
  fcvt_s_w fcvt_d_w fcvt_s_wu fcvt_d_wu fcvt_s_d fcvt_d_s : FOpcode
  fmv_w_x fmv_x_w : FOpcode

unfoldable pub translate_f : FOpcode → ℕ → Relocated → FusedInst → Build (Unit {0})
translate_f flw raw reloc inst = translate_fp_load f_single reloc inst.first
translate_f fld raw reloc inst = translate_fp_load f_double reloc inst.first
translate_f fsw raw reloc inst = translate_fp_store f_single reloc inst.first
translate_f fsd raw reloc inst = translate_fp_store f_double reloc inst.first
translate_f fadd_s raw reloc inst = translate_fpu_op FpuOp.f_add f_single raw inst.first
translate_f fadd_d raw reloc inst = translate_fpu_op FpuOp.f_add f_double raw inst.first
translate_f fsub_s raw reloc inst = translate_fpu_op FpuOp.f_sub f_single raw inst.first
translate_f fsub_d raw reloc inst = translate_fpu_op FpuOp.f_sub f_double raw inst.first
translate_f fmul_s raw reloc inst = translate_fpu_op FpuOp.f_mul f_single raw inst.first
translate_f fmul_d raw reloc inst = translate_fpu_op FpuOp.f_mul f_double raw inst.first
translate_f fdiv_s raw reloc inst = translate_fpu_op FpuOp.f_div f_single raw inst.first
translate_f fdiv_d raw reloc inst = translate_fpu_op FpuOp.f_div f_double raw inst.first
translate_f fsqrt_s raw reloc inst = translate_fpu_op FpuOp.f_sqrt f_single raw inst.first
translate_f fsqrt_d raw reloc inst = translate_fpu_op FpuOp.f_sqrt f_double raw inst.first
translate_f fmin_s raw reloc inst = translate_fpu_op FpuOp.f_min f_single raw inst.first
translate_f fmin_d raw reloc inst = translate_fpu_op FpuOp.f_min f_double raw inst.first
translate_f fmax_s raw reloc inst = translate_fpu_op FpuOp.f_max f_single raw inst.first
translate_f fmax_d raw reloc inst = translate_fpu_op FpuOp.f_max f_double raw inst.first
translate_f fmadd_s raw reloc inst = translate_ffpu_op f_madd f_single raw inst
translate_f fmadd_d raw reloc inst = translate_ffpu_op f_madd f_double raw inst
translate_f fmsub_s raw reloc inst = translate_ffpu_op f_msub f_single raw inst
translate_f fmsub_d raw reloc inst = translate_ffpu_op f_msub f_double raw inst
translate_f fnmadd_s raw reloc inst = translate_ffpu_op f_nmadd f_single raw inst
translate_f fnmadd_d raw reloc inst = translate_ffpu_op f_nmadd f_double raw inst
translate_f fnmsub_s raw reloc inst = translate_ffpu_op f_nmsub f_single raw inst
translate_f fnmsub_d raw reloc inst = translate_ffpu_op f_nmsub f_double raw inst
translate_f fsgnj_s raw reloc inst = translate_fpu_op FpuOp.f_sgnj f_single raw inst.first
translate_f fsgnj_d raw reloc inst = translate_fpu_op FpuOp.f_sgnj f_double raw inst.first
translate_f fsgnjn_s raw reloc inst = translate_fpu_op FpuOp.f_sgnjn f_single raw inst.first
translate_f fsgnjn_d raw reloc inst = translate_fpu_op FpuOp.f_sgnjn f_double raw inst.first
translate_f fsgnjx_s raw reloc inst = translate_fpu_op FpuOp.f_sgnjx f_single raw inst.first
translate_f fsgnjx_d raw reloc inst = translate_fpu_op FpuOp.f_sgnjx f_double raw inst.first
translate_f feq_s raw reloc inst = translate_fpu_op FpuOp.f_eq f_single raw inst.first
translate_f feq_d raw reloc inst = translate_fpu_op FpuOp.f_eq f_double raw inst.first
translate_f fle_s raw reloc inst = translate_fpu_op FpuOp.f_le f_single raw inst.first
translate_f fle_d raw reloc inst = translate_fpu_op FpuOp.f_le f_double raw inst.first
translate_f flt_s raw reloc inst = translate_fpu_op FpuOp.f_lt f_single raw inst.first
translate_f flt_d raw reloc inst = translate_fpu_op FpuOp.f_lt f_double raw inst.first
translate_f fcvt_w_s raw reloc inst = translate_cvt_word f_w f_single raw inst.first
translate_f fcvt_w_d raw reloc inst = translate_cvt_word f_w f_double raw inst.first
translate_f fcvt_wu_s raw reloc inst = translate_cvt_word f_wu f_single raw inst.first
translate_f fcvt_wu_d raw reloc inst = translate_cvt_word f_wu f_double raw inst.first
translate_f fcvt_s_w raw reloc inst = translate_cvt_float f_single f_w raw inst.first
translate_f fcvt_d_w raw reloc inst = translate_cvt_float f_double f_w raw inst.first
translate_f fcvt_s_wu raw reloc inst = translate_cvt_float f_single f_wu raw inst.first
translate_f fcvt_d_wu raw reloc inst = translate_cvt_float f_double f_wu raw inst.first
translate_f fcvt_s_d raw reloc inst = translate_cvt f_single f_double raw inst.first
translate_f fcvt_d_s raw reloc inst = translate_cvt f_double f_single raw inst.first
translate_f fmv_w_x raw reloc inst = translate_fmv_float inst.first
translate_f fmv_x_w raw reloc inst = translate_fmv_word inst.first
