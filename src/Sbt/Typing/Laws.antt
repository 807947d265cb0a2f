-- ===== src/Sbt/Typing/Laws.antt =====
-- The types of the code that the integer and the floating point instructions emit.
use riscv_sbt.Prelude.{ℕ, ◌≡◌, refl, Bool, true, false, ◌==◌, arith}
use riscv_sbt.Sbt.Ir.{Llvm, Value, const, symbol, tmp, float_tmp, pointer_tmp}
use riscv_sbt.Sbt.Rv32.{AluOp, MulOp}
use riscv_sbt.Sbt.Operand.{Relocated, reloc_error, no_reloc, relocated}
use riscv_sbt.Sbt.Instruction.Alu.{translate_alu_op}
use riscv_sbt.Sbt.Instruction.Alu.Laws.{r_type, i_type}
use riscv_sbt.Sbt.Instruction.MulDiv.{translate_m}
use riscv_sbt.Sbt.Instruction.Upper.{UpperOp, translate_ui}
use riscv_sbt.Sbt.Instruction.Upper.Laws.{u_type}
use riscv_sbt.Sbt.Instruction.Memory.{IntType, translate_load, translate_store}
use riscv_sbt.Sbt.Instruction.Translate.{
  Opcode, translate, add, addi, and, andi, or, ori, sll, slli, slt, sltu, slti, sltiu, sra, srai,
  srl, srli, sub, xor, xori, mul, mulh, mulhsu, mulhu, div, divu, rem, remu, auipc, lui, ebreak,
  fence, fence_i, lb, lbu, lh, lhu, lw, sb, sh, sw,
}
use riscv_sbt.Sbt.Instruction.Translate.Laws.{operands}
use riscv_sbt.Sbt.Typing.{IsTyped}

-- A relocation gives a word, an integer or a part of a symbol's address.
abbrev pub is_word : Value → Bool
is_word (const w v) = w == 32
is_word (symbol w v) = w == 32
is_word (tmp w i) = false
is_word (float_tmp w i) = false
is_word (pointer_tmp p i) = false

abbrev pub gives_word : Relocated → Bool
gives_word (reloc_error e) = true
gives_word no_reloc = true
gives_word (relocated v) = is_word v

register-IsTyped :
    (op : AluOp) (u : Bool) (reloc : Relocated) (x y z : ℕ)
    → IsTyped (translate_alu_op op false u reloc (r_type x y z))
unfolding translate_alu_op
register-IsTyped AluOp.add true no_reloc x y z = ground arith
register-IsTyped op u reloc x y z = ground arith

immediate-IsTyped :
    (op : AluOp) (u : Bool) (reloc : Relocated) (x y z : ℕ)
    → gives_word reloc ≡ true
    → IsTyped (translate_alu_op op true u reloc (i_type x y z))
unfolding translate_alu_op
immediate-IsTyped AluOp.add true no_reloc x y z h = ground arith
immediate-IsTyped AluOp.add true (relocated (const w v)) x y z h = ground arith
immediate-IsTyped op u reloc x y z h = ground arith

m-IsTyped : (op : MulOp) (x y z : ℕ) → IsTyped (translate_m op (r_type x y z))
unfolding translate_m
m-IsTyped MulOp.mul x y z = ground arith
m-IsTyped op x y z = ground arith

load-IsTyped :
    (it : IntType) (reloc : Relocated) (x y z : ℕ)
    → gives_word reloc ≡ true
    → IsTyped (translate_load it reloc (i_type x y z))
unfolding translate_load
load-IsTyped IntType.s8 no_reloc x y z h = ground arith
load-IsTyped IntType.s8 (relocated (const w v)) x y z h = ground arith
load-IsTyped op reloc x y z h = ground arith

store-IsTyped :
    (it : IntType) (reloc : Relocated) (x y z : ℕ)
    → gives_word reloc ≡ true
    → IsTyped (translate_store it reloc (i_type x y z))
unfolding translate_store
store-IsTyped IntType.s8 no_reloc x y z h = ground arith
store-IsTyped IntType.s8 (relocated (const w v)) x y z h = ground arith
store-IsTyped op reloc x y z h = ground arith

ui-IsTyped :
    (L : Llvm) (op : UpperOp) (addr : ℕ) (reloc : Relocated) (x y : ℕ)
    → gives_word reloc ≡ true
    → IsTyped (translate_ui L op addr reloc (u_type x y))
unfolding translate_ui
ui-IsTyped L UpperOp.lui addr no_reloc x y h = ground arith
ui-IsTyped L UpperOp.lui addr (relocated (const w v)) x y h = ground arith
ui-IsTyped L op addr reloc x y h = ground arith

-- Of the integer instructions, whatever the registers and the immediate are, and whatever word a
-- relocation gives: the code that the translator emits, if it emits any, is well typed.
pub translate-IsTyped :
    (L : Llvm) (op : Opcode) (addr : ℕ) (reloc : Relocated) (x y z : ℕ)
    → gives_word reloc ≡ true
    → IsTyped (translate L op addr reloc (operands op x y z))
unfolding translate
translate-IsTyped L add addr reloc x y z h = register-IsTyped AluOp.add false reloc x y z
translate-IsTyped L addi addr reloc x y z h = immediate-IsTyped AluOp.add false reloc x y z h
translate-IsTyped L and addr reloc x y z h = register-IsTyped AluOp.and false reloc x y z
translate-IsTyped L andi addr reloc x y z h = immediate-IsTyped AluOp.and false reloc x y z h
translate-IsTyped L or addr reloc x y z h = register-IsTyped AluOp.or false reloc x y z
translate-IsTyped L ori addr reloc x y z h = immediate-IsTyped AluOp.or false reloc x y z h
translate-IsTyped L sll addr reloc x y z h = register-IsTyped AluOp.sll false reloc x y z
translate-IsTyped L slli addr reloc x y z h = immediate-IsTyped AluOp.sll false reloc x y z h
translate-IsTyped L slt addr reloc x y z h = register-IsTyped AluOp.slt false reloc x y z
translate-IsTyped L sltu addr reloc x y z h = register-IsTyped AluOp.slt true reloc x y z
translate-IsTyped L slti addr reloc x y z h = immediate-IsTyped AluOp.slt false reloc x y z h
translate-IsTyped L sltiu addr reloc x y z h = immediate-IsTyped AluOp.slt true reloc x y z h
translate-IsTyped L sra addr reloc x y z h = register-IsTyped AluOp.sra false reloc x y z
translate-IsTyped L srai addr reloc x y z h = immediate-IsTyped AluOp.sra false reloc x y z h
translate-IsTyped L srl addr reloc x y z h = register-IsTyped AluOp.srl false reloc x y z
translate-IsTyped L srli addr reloc x y z h = immediate-IsTyped AluOp.srl false reloc x y z h
translate-IsTyped L sub addr reloc x y z h = register-IsTyped AluOp.sub false reloc x y z
translate-IsTyped L xor addr reloc x y z h = register-IsTyped AluOp.xor false reloc x y z
translate-IsTyped L xori addr reloc x y z h = immediate-IsTyped AluOp.xor false reloc x y z h
translate-IsTyped L mul addr reloc x y z h = m-IsTyped MulOp.mul x y z
translate-IsTyped L mulh addr reloc x y z h = m-IsTyped MulOp.mulh x y z
translate-IsTyped L mulhsu addr reloc x y z h = m-IsTyped MulOp.mulhsu x y z
translate-IsTyped L mulhu addr reloc x y z h = m-IsTyped MulOp.mulhu x y z
translate-IsTyped L div addr reloc x y z h = m-IsTyped MulOp.div x y z
translate-IsTyped L divu addr reloc x y z h = m-IsTyped MulOp.divu x y z
translate-IsTyped L rem addr reloc x y z h = m-IsTyped MulOp.rem x y z
translate-IsTyped L remu addr reloc x y z h = m-IsTyped MulOp.remu x y z
translate-IsTyped L auipc addr reloc x y z h = ui-IsTyped L UpperOp.auipc addr reloc x y h
translate-IsTyped L lui addr reloc x y z h = ui-IsTyped L UpperOp.lui addr reloc x y h
translate-IsTyped L ebreak addr reloc x y z h = refl
translate-IsTyped L fence addr reloc x y z h = refl
translate-IsTyped L fence_i addr reloc x y z h = refl
translate-IsTyped L lb addr reloc x y z h = load-IsTyped IntType.s8 reloc x y z h
translate-IsTyped L lbu addr reloc x y z h = load-IsTyped IntType.u8 reloc x y z h
translate-IsTyped L lh addr reloc x y z h = load-IsTyped IntType.s16 reloc x y z h
translate-IsTyped L lhu addr reloc x y z h = load-IsTyped IntType.u16 reloc x y z h
translate-IsTyped L lw addr reloc x y z h = load-IsTyped IntType.u32 reloc x y z h
translate-IsTyped L sb addr reloc x y z h = store-IsTyped IntType.u8 reloc x y z h
translate-IsTyped L sh addr reloc x y z h = store-IsTyped IntType.u16 reloc x y z h
translate-IsTyped L sw addr reloc x y z h = store-IsTyped IntType.u32 reloc x y z h
