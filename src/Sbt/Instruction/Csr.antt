-- ===== src/Sbt/Instruction/Csr.antt =====
-- `Instruction::translateCSR`, `getCSRValue` and `setCSRValue` of sbt/Instruction.cpp, and
-- `Translator::initCounters` of sbt/Translator.cpp.
pub mod Laws
use riscv_sbt.Prelude.{ℕ, Bool, true, false, ◌||◌, ◌==◌, if◌then◌else◌}
use riscv_sbt.Sbt.Ir.{
  Value, const, symbol, tmp, float_tmp, pointer_tmp, get_cycles, get_time, get_instret,
}
use riscv_sbt.Sbt.Builder
use riscv_sbt.Sbt.Builder.{Build, aborted, return, ◌>>=◌, ◌>>◌, i32, store_reg}
use riscv_sbt.Sbt.Builder.Float.{assert, load_fcsr, store_fcsr, call_counter, call_init}
use riscv_sbt.Sbt.Operand.{Operand, reg, imm, McInst, Relocated, get_reg_num, get_reg, get_imm}

-- `CSROp`
pub data CsrOp : Type 0 where
  rw rs rc : CsrOp

-- `CSR::Num`
abbrev pub fflags : ℕ
fflags = 0x001

abbrev pub frm : ℕ
frm = 0x002

abbrev pub fcsr : ℕ
fcsr = 0x003

abbrev pub rdcycle : ℕ
rdcycle = 0xc00

abbrev pub rdtime : ℕ
rdtime = 0xc01

abbrev pub rdinstret : ℕ
rdinstret = 0xc02

abbrev pub rdcycleh : ℕ
rdcycleh = 0xc80

abbrev pub rdtimeh : ℕ
rdtimeh = 0xc81

abbrev pub rdinstreth : ℕ
rdinstreth = 0xc82

abbrev is_high : ℕ → Bool
is_high csr = csr == rdcycleh || csr == rdtimeh || csr == rdinstreth

abbrev is_low : ℕ → Bool
is_low csr = csr == rdcycle || csr == rdtime || csr == rdinstret

-- `CSR::name`, which knows no other number
unfoldable pub name : ℕ → Build (Unit {0})
name csr = assert (csr == fflags || csr == frm || csr == fcsr || is_low csr || is_high csr)

-- `getCSRValue`; the option is `enableFCSR`. `FRM` and `FCSR` are marked as unreachable.
flags : Bool → Build Value
unfolding load_fcsr Builder.and
flags true = do v ← load_fcsr; Builder.and v (i32 0x1f)
flags false = return (i32 0)

unfoldable pub get_csr_value : Bool → ℕ → Build Value
unfolding flags call_counter
get_csr_value enabled csr =
    if csr == rdcycle
    then call_counter get_cycles
    else if csr == rdtime
    then call_counter get_time
    else if csr == rdinstret
    then call_counter get_instret
    else if is_high csr
    then return (i32 0)
    else if csr == fflags
    then flags enabled
    else λ b. aborted

-- `setCSRValue`
set_flags : Bool → Value → Build (Unit {0})
unfolding store_fcsr Builder.and
set_flags true v = do v' ← Builder.and v (i32 0x1f); store_fcsr v'
set_flags false v = return tt

unfoldable pub set_csr_value : Bool → ℕ → Value → Build (Unit {0})
unfolding set_flags
set_csr_value enabled csr v = if csr == fflags then set_flags enabled v else λ b. aborted

-- `initCounters`: the call is emitted where the first counter is translated. The flag is that of
-- the translator, and is handed on to the next instruction.
unfoldable pub init_counters : Bool → Build Bool
unfolding call_init
init_counters true = do call_init; return false
init_counters false = return false

-- `llvm::cast<ConstantInt>`
const_int : Value → Build ℕ
const_int (const w v) = return v
const_int (symbol w v) = λ b. aborted
const_int (tmp w i) = λ b. aborted
const_int (float_tmp w i) = λ b. aborted
const_int (pointer_tmp p i) = λ b. aborted

-- The source, an immediate or a register: its number and its value.
unfoldable pub source : Bool → Relocated → Operand → Build (ℕ × Value)
unfolding get_imm const_int get_reg_num get_reg
source true reloc o = do v ← get_imm reloc o; n ← const_int v; return (n, v)
source false reloc o = do n ← get_reg_num o; v ← get_reg o; return (n, v)

csr_number : Operand → Build ℕ
csr_number (imm v) = return v
csr_number (reg nr) = λ b. aborted

-- What is written, and when: a set or a clear with no source writes nothing.
unfoldable pub write_csr : CsrOp → Bool → Bool → ℕ → Value → Value → Build (Unit {0})
unfolding set_csr_value Builder.or Builder.and Builder.complement
write_csr rw no_src enabled csr old v = set_csr_value enabled csr v
write_csr rs true enabled csr old v = return tt
write_csr rs false enabled csr old v = do u ← Builder.or old v; set_csr_value enabled csr u
write_csr rc true enabled csr old v = return tt
write_csr rc false enabled csr old v = do
  n ← Builder.complement v
  u ← Builder.and old n
  set_csr_value enabled csr u

unfoldable pub translate_csr : CsrOp → Bool → Bool → Bool → Relocated → McInst → Build Bool
unfolding get_reg_num csr_number name source init_counters get_csr_value write_csr store_reg
translate_csr op has_imm enabled pending reloc inst = do
  rd ← get_reg_num inst.op0
  csr ← csr_number inst.op1
  name csr
  (src, srcval) ← source has_imm reloc inst.op2
  pending' ← if is_low csr || is_high csr then init_counters pending else return pending
  csrval ← get_csr_value enabled csr
  write_csr op (src == 0) enabled csr csrval srcval
  store_reg csrval rd
  return pending'
