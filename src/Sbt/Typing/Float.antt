-- ===== src/Sbt/Typing/Float.antt =====
-- The types of the code that the floating point instructions emit.
use riscv_sbt.Prelude.{ℕ, ◌≡◌, true, arith}
use riscv_sbt.Sbt.Ir.{const}
use riscv_sbt.Sbt.Operand.{Relocated, no_reloc, relocated, reg}
use riscv_sbt.Sbt.Instruction.Alu.Laws.{r_type, i_type}
use riscv_sbt.Sbt.Float.{
  FType, f_single, f_double, IType, f_w, f_wu, FpuOp, FusedOp, f_madd, f_msub, f_nmadd, f_nmsub,
  translate_fpu_op,
}
use riscv_sbt.Sbt.Float.Translate.{
  FusedInst, translate_ffpu_op, translate_fp_load, translate_fp_store, translate_cvt_word,
  translate_cvt_float, translate_cvt, translate_fmv_float, translate_fmv_word, FOpcode, translate_f,
  flw, fld, fsw, fsd, fadd_s, fadd_d, fsub_s, fsub_d, fmul_s, fmul_d, fdiv_s, fdiv_d, fsqrt_s,
  fsqrt_d, fmin_s, fmin_d, fmax_s, fmax_d, fmadd_s, fmadd_d, fmsub_s, fmsub_d, fnmadd_s, fnmadd_d,
  fnmsub_s, fnmsub_d, fsgnj_s, fsgnj_d, fsgnjn_s, fsgnjn_d, fsgnjx_s, fsgnjx_d, feq_s, feq_d, fle_s,
  fle_d, flt_s, flt_d, fcvt_w_s, fcvt_w_d, fcvt_wu_s, fcvt_wu_d, fcvt_s_w, fcvt_d_w, fcvt_s_wu,
  fcvt_d_wu, fcvt_s_d, fcvt_d_s, fmv_w_x, fmv_x_w,
}
use riscv_sbt.Sbt.Float.Fused.{r4_type}
use riscv_sbt.Sbt.Typing.{IsTyped}
use riscv_sbt.Sbt.Typing.Laws.{gives_word}

fpu-IsTyped :
    (op : FpuOp) (ft : FType) (raw x y z : ℕ) → IsTyped (translate_fpu_op op ft raw (r_type x y z))
unfolding translate_fpu_op
fpu-IsTyped FpuOp.f_add f_single raw x y z = ground arith
fpu-IsTyped op ft raw x y z = ground arith

fused-IsTyped :
    (op : FusedOp) (ft : FType) (raw x y z t : ℕ)
    → IsTyped (translate_ffpu_op op ft raw (r4_type x y z t))
unfolding translate_ffpu_op
fused-IsTyped f_madd f_single raw x y z t = ground arith
fused-IsTyped op ft raw x y z t = ground arith

fp_load-IsTyped :
    (ft : FType) (reloc : Relocated) (x y z : ℕ)
    → gives_word reloc ≡ true
    → IsTyped (translate_fp_load ft reloc (i_type x y z))
unfolding translate_fp_load
fp_load-IsTyped f_single no_reloc x y z h = ground arith
fp_load-IsTyped f_single (relocated (const w v)) x y z h = ground arith
fp_load-IsTyped ft reloc x y z h = ground arith

fp_store-IsTyped :
    (ft : FType) (reloc : Relocated) (x y z : ℕ)
    → gives_word reloc ≡ true
    → IsTyped (translate_fp_store ft reloc (i_type x y z))
unfolding translate_fp_store
fp_store-IsTyped f_single no_reloc x y z h = ground arith
fp_store-IsTyped f_single (relocated (const w v)) x y z h = ground arith
fp_store-IsTyped ft reloc x y z h = ground arith

cvt_word-IsTyped :
    (it : IType) (ft : FType) (raw x y z : ℕ)
    → IsTyped (translate_cvt_word it ft raw (r_type x y z))
unfolding translate_cvt_word
cvt_word-IsTyped f_w f_single raw x y z = ground arith
cvt_word-IsTyped it ft raw x y z = ground arith

cvt_float-IsTyped :
    (ft : FType) (it : IType) (raw x y z : ℕ)
    → IsTyped (translate_cvt_float ft it raw (r_type x y z))
unfolding translate_cvt_float
cvt_float-IsTyped f_single f_w raw x y z = ground arith
cvt_float-IsTyped f_single f_wu raw x y z = ground arith
cvt_float-IsTyped f_double f_w raw x y z = ground arith
cvt_float-IsTyped f_double f_wu raw x y z = ground arith

cvt-IsTyped : (ft1 ft2 : FType) (raw x y z : ℕ) → IsTyped (translate_cvt ft1 ft2 raw (r_type x y z))
unfolding translate_cvt
cvt-IsTyped f_single f_double raw x y z = ground arith
cvt-IsTyped ft1 ft2 raw x y z = ground arith

fmv_float-IsTyped : (x y z : ℕ) → IsTyped (translate_fmv_float (r_type x y z))
unfolding translate_fmv_float
fmv_float-IsTyped x y z = ground arith

fmv_word-IsTyped : (x y z : ℕ) → IsTyped (translate_fmv_word (r_type x y z))
unfolding translate_fmv_word
fmv_word-IsTyped x y z = ground arith

-- The operands of the loads and the stores are two registers and an immediate, those of the others
-- registers.
abbrev pub f_operands : FOpcode → ℕ → ℕ → ℕ → ℕ → FusedInst
f_operands flw x y z t = record { first = i_type x y z; op3 = reg t }
f_operands fld x y z t = record { first = i_type x y z; op3 = reg t }
f_operands fsw x y z t = record { first = i_type x y z; op3 = reg t }
f_operands fsd x y z t = record { first = i_type x y z; op3 = reg t }
f_operands _ x y z t = r4_type x y z t

-- Of the floating point instructions, whatever the registers, the immediate and the rounding mode
-- are, and whatever word a relocation gives: the code that the translator emits, if it emits any,
-- is well typed.
pub translate_f-IsTyped :
    (op : FOpcode) (raw : ℕ) (reloc : Relocated) (x y z t : ℕ)
    → gives_word reloc ≡ true
    → IsTyped (translate_f op raw reloc (f_operands op x y z t))
unfolding translate_f
translate_f-IsTyped flw raw reloc x y z t h = fp_load-IsTyped f_single reloc x y z h
translate_f-IsTyped fld raw reloc x y z t h = fp_load-IsTyped f_double reloc x y z h
translate_f-IsTyped fsw raw reloc x y z t h = fp_store-IsTyped f_single reloc x y z h
translate_f-IsTyped fsd raw reloc x y z t h = fp_store-IsTyped f_double reloc x y z h
translate_f-IsTyped fadd_s raw reloc x y z t h = fpu-IsTyped FpuOp.f_add f_single raw x y z
translate_f-IsTyped fadd_d raw reloc x y z t h = fpu-IsTyped FpuOp.f_add f_double raw x y z
translate_f-IsTyped fsub_s raw reloc x y z t h = fpu-IsTyped FpuOp.f_sub f_single raw x y z
translate_f-IsTyped fsub_d raw reloc x y z t h = fpu-IsTyped FpuOp.f_sub f_double raw x y z
translate_f-IsTyped fmul_s raw reloc x y z t h = fpu-IsTyped FpuOp.f_mul f_single raw x y z
translate_f-IsTyped fmul_d raw reloc x y z t h = fpu-IsTyped FpuOp.f_mul f_double raw x y z
translate_f-IsTyped fdiv_s raw reloc x y z t h = fpu-IsTyped FpuOp.f_div f_single raw x y z
translate_f-IsTyped fdiv_d raw reloc x y z t h = fpu-IsTyped FpuOp.f_div f_double raw x y z
translate_f-IsTyped fsqrt_s raw reloc x y z t h = fpu-IsTyped FpuOp.f_sqrt f_single raw x y z
translate_f-IsTyped fsqrt_d raw reloc x y z t h = fpu-IsTyped FpuOp.f_sqrt f_double raw x y z
translate_f-IsTyped fmin_s raw reloc x y z t h = fpu-IsTyped FpuOp.f_min f_single raw x y z
translate_f-IsTyped fmin_d raw reloc x y z t h = fpu-IsTyped FpuOp.f_min f_double raw x y z
translate_f-IsTyped fmax_s raw reloc x y z t h = fpu-IsTyped FpuOp.f_max f_single raw x y z
translate_f-IsTyped fmax_d raw reloc x y z t h = fpu-IsTyped FpuOp.f_max f_double raw x y z
translate_f-IsTyped fmadd_s raw reloc x y z t h = fused-IsTyped f_madd f_single raw x y z t
translate_f-IsTyped fmadd_d raw reloc x y z t h = fused-IsTyped f_madd f_double raw x y z t
translate_f-IsTyped fmsub_s raw reloc x y z t h = fused-IsTyped f_msub f_single raw x y z t
translate_f-IsTyped fmsub_d raw reloc x y z t h = fused-IsTyped f_msub f_double raw x y z t
translate_f-IsTyped fnmadd_s raw reloc x y z t h = fused-IsTyped f_nmadd f_single raw x y z t
translate_f-IsTyped fnmadd_d raw reloc x y z t h = fused-IsTyped f_nmadd f_double raw x y z t
translate_f-IsTyped fnmsub_s raw reloc x y z t h = fused-IsTyped f_nmsub f_single raw x y z t
translate_f-IsTyped fnmsub_d raw reloc x y z t h = fused-IsTyped f_nmsub f_double raw x y z t
translate_f-IsTyped fsgnj_s raw reloc x y z t h = fpu-IsTyped FpuOp.f_sgnj f_single raw x y z
translate_f-IsTyped fsgnj_d raw reloc x y z t h = fpu-IsTyped FpuOp.f_sgnj f_double raw x y z
translate_f-IsTyped fsgnjn_s raw reloc x y z t h = fpu-IsTyped FpuOp.f_sgnjn f_single raw x y z
translate_f-IsTyped fsgnjn_d raw reloc x y z t h = fpu-IsTyped FpuOp.f_sgnjn f_double raw x y z
translate_f-IsTyped fsgnjx_s raw reloc x y z t h = fpu-IsTyped FpuOp.f_sgnjx f_single raw x y z
translate_f-IsTyped fsgnjx_d raw reloc x y z t h = fpu-IsTyped FpuOp.f_sgnjx f_double raw x y z
translate_f-IsTyped feq_s raw reloc x y z t h = fpu-IsTyped FpuOp.f_eq f_single raw x y z
translate_f-IsTyped feq_d raw reloc x y z t h = fpu-IsTyped FpuOp.f_eq f_double raw x y z
translate_f-IsTyped fle_s raw reloc x y z t h = fpu-IsTyped FpuOp.f_le f_single raw x y z
translate_f-IsTyped fle_d raw reloc x y z t h = fpu-IsTyped FpuOp.f_le f_double raw x y z
translate_f-IsTyped flt_s raw reloc x y z t h = fpu-IsTyped FpuOp.f_lt f_single raw x y z
translate_f-IsTyped flt_d raw reloc x y z t h = fpu-IsTyped FpuOp.f_lt f_double raw x y z
translate_f-IsTyped fcvt_w_s raw reloc x y z t h = cvt_word-IsTyped f_w f_single raw x y z
translate_f-IsTyped fcvt_w_d raw reloc x y z t h = cvt_word-IsTyped f_w f_double raw x y z
translate_f-IsTyped fcvt_wu_s raw reloc x y z t h = cvt_word-IsTyped f_wu f_single raw x y z
translate_f-IsTyped fcvt_wu_d raw reloc x y z t h = cvt_word-IsTyped f_wu f_double raw x y z
translate_f-IsTyped fcvt_s_w raw reloc x y z t h = cvt_float-IsTyped f_single f_w raw x y z
translate_f-IsTyped fcvt_d_w raw reloc x y z t h = cvt_float-IsTyped f_double f_w raw x y z
translate_f-IsTyped fcvt_s_wu raw reloc x y z t h = cvt_float-IsTyped f_single f_wu raw x y z
translate_f-IsTyped fcvt_d_wu raw reloc x y z t h = cvt_float-IsTyped f_double f_wu raw x y z
translate_f-IsTyped fcvt_s_d raw reloc x y z t h = cvt-IsTyped f_single f_double raw x y z
translate_f-IsTyped fcvt_d_s raw reloc x y z t h = cvt-IsTyped f_double f_single raw x y z
translate_f-IsTyped fmv_w_x raw reloc x y z t h = fmv_float-IsTyped x y z
translate_f-IsTyped fmv_x_w raw reloc x y z t h = fmv_word-IsTyped x y z
