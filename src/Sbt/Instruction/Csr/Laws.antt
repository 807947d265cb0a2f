-- ===== src/Sbt/Instruction/Csr/Laws.antt =====
-- The code that `translateCSR` emits, against the manual.
use Prim.Native.Nat.{bit_and, bit_or, bit_xor}
use riscv_sbt.Prelude.{
  ℕ, ◌+◌, ◌-◌, ◌*◌, ◌/◌, ◌%◌, ◌^◌, ◌<◌, ◌≡◌, ◌⊎◌, Bool, true, false, Option, none, some, arith,
  ◌==◌, if◌then◌else◌,
}
use riscv_sbt.Prelude.Bits.{bit_and_mask}
use riscv_sbt.Sbt.Ir.{Llvm, Machine, get_cycles, get_time, get_instret}
use riscv_sbt.Sbt.Ir.LangRef.{LangRef}
use riscv_sbt.Sbt.Rv32.{read, write}
use riscv_sbt.Sbt.Operand.{reg, imm, McInst, no_reloc}
use riscv_sbt.Sbt.Hart.{Hart, hart, step}
use riscv_sbt.Sbt.Instruction.Csr.{CsrOp, rw, rs, rc, translate_csr}

-- The CSRs of the manual that user code may read.
pub data Register : Type 0 where
  fflags frm fcsr cycle time instret cycleh timeh instreth : Register

abbrev pub number : Register → ℕ
number fflags = 0x001
number frm = 0x002
number fcsr = 0x003
number cycle = 0xc00
number time = 0xc01
number instret = 0xc02
number cycleh = 0xc80
number timeh = 0xc81
number instreth = 0xc82

abbrev pub csr_type : Bool → ℕ → Register → ℕ → McInst
csr_type has_imm rd r v = record {
  op0 = reg rd;
  op1 = imm (number r);
  op2 = if has_imm then imm v else reg v;
}

-- The source of an instruction, and whether it names none: the immediate or the register 0.
abbrev pub source_value : Bool → (ℕ → ℕ) → ℕ → ℕ
source_value true regs v = v % 2 ^ 32
source_value false regs v = read regs v

abbrev pub no_source : Bool → ℕ → Bool
no_source true v = v % 2 ^ 32 == 0
no_source false v = v == 0

-- The new value of a CSR
abbrev pub combined : CsrOp → ℕ → ℕ → ℕ
combined rw old x = x
combined rs old x = bit_or old x
combined rc old x = bit_and old (bit_xor x (2 ^ 32 - 1))

-- The instructions that read and do not write
abbrev pub only_reads : CsrOp → Bool → Bool
only_reads rw no_src = false
only_reads rs no_src = no_src
only_reads rc no_src = no_src

-- The flags are the five low bits of `fcsr`, and a write of them leaves its others.
abbrev pub with_flags : ℕ → ℕ → ℕ
with_flags csr x = csr / 2 ^ 5 * 2 ^ 5 + x % 2 ^ 5

abbrev put : Machine → ℕ → ℕ → Hart
put m rd v = record (hart m) { x = write m.regs rd v }

-- The manual's step where the translator has one, with the option for the CSR; without it the flags
-- are zero and a write of them is dropped. The counters' high words are zero, no counter is written,
-- and `frm` and `fcsr` are not supported.
abbrev pub csr_step : Llvm → Bool → Register → CsrOp → Bool → ℕ → ℕ → Machine → Option Hart
csr_step L false fflags op no_src x rd m = some (put m rd 0)
csr_step L true fflags op no_src x rd m =
    let old = m.fcsr % 2 ^ 5 in
    some (record (put m rd old) {
      fcsr = if only_reads op no_src then m.fcsr else with_flags m.fcsr (combined op old x);
    })
csr_step L enabled frm op no_src x rd m = none
csr_step L enabled fcsr op no_src x rd m = none
csr_step L enabled cycle op no_src x rd m =
    if only_reads op no_src then some (put m rd (L.counter get_cycles)) else none
csr_step L enabled time op no_src x rd m =
    if only_reads op no_src then some (put m rd (L.counter get_time)) else none
csr_step L enabled instret op no_src x rd m =
    if only_reads op no_src then some (put m rd (L.counter get_instret)) else none
csr_step L enabled cycleh op no_src x rd m =
    if only_reads op no_src then some (put m rd 0) else none
csr_step L enabled timeh op no_src x rd m = if only_reads op no_src then some (put m rd 0) else none
csr_step L enabled instreth op no_src x rd m =
    if only_reads op no_src then some (put m rd 0) else none

flags_mask : (n : ℕ) → bit_and n 31 ≡ n % 2 ^ 5
flags_mask n = bit_and_mask 5 n

module _ {L : Llvm} (lang : LangRef L) where
  execute-flags :
      (enabled : Bool) (op : CsrOp) (has_imm pending : Bool) (rd v : ℕ) (m : Machine)
      → m.fcsr < 2 ^ 5
      → step L (translate_csr op has_imm enabled pending no_reloc (csr_type has_imm rd fflags v)) m
        ≡ csr_step L enabled fflags op (no_source has_imm v) (source_value has_imm m.regs v) rd m
  unfolding translate_csr
  execute-flags true rw true pending rd v m h =
      let x = v % 2 ^ 32 in
      ground (arith, lang.and 32 m.fcsr 31, flags_mask m.fcsr, lang.and 32 x 31, flags_mask x)
  execute-flags true rw false pending rd v m h =
      let x = read m.regs v in
      ground (arith, lang.and 32 m.fcsr 31, flags_mask m.fcsr, lang.and 32 x 31, flags_mask x)
  execute-flags true rs true pending rd v m h =
      let x = v % 2 ^ 32 in
      let old = bit_and m.fcsr 31 in
      ground (
        arith,
        lang.and 32 m.fcsr 31,
        flags_mask m.fcsr,
        lang.or 32 old x,
        lang.and 32 (bit_or old x) 31,
        flags_mask (bit_or old x),
      )
  execute-flags true rs false pending rd v m h =
      let x = read m.regs v in
      let old = bit_and m.fcsr 31 in
      ground (
        arith,
        lang.and 32 m.fcsr 31,
        flags_mask m.fcsr,
        lang.or 32 old x,
        lang.and 32 (bit_or old x) 31,
        flags_mask (bit_or old x),
      )
  execute-flags true rc true pending rd v m h =
      let x = v % 2 ^ 32 in
      let old = bit_and m.fcsr 31 in
      ground (
        arith,
        lang.and 32 m.fcsr 31,
        flags_mask m.fcsr,
        lang.complement 32 x,
        lang.and 32 old (bit_xor x 0xffffffff),
        lang.and 32 (bit_and old (bit_xor x 0xffffffff)) 31,
        flags_mask (bit_and old (bit_xor x 0xffffffff)),
      )
  execute-flags true rc false pending rd v m h =
      let x = read m.regs v in
      let old = bit_and m.fcsr 31 in
      ground (
        arith,
        lang.and 32 m.fcsr 31,
        flags_mask m.fcsr,
        lang.complement 32 x,
        lang.and 32 old (bit_xor x 0xffffffff),
        lang.and 32 (bit_and old (bit_xor x 0xffffffff)) 31,
        flags_mask (bit_and old (bit_xor x 0xffffffff)),
      )
  execute-flags false rw true pending rd v m h = ground arith
  execute-flags false rw false pending rd v m h = ground arith
  execute-flags false rs true pending rd v m h = ground (arith, lang.or 32 0 (v % 2 ^ 32))
  execute-flags false rs false pending rd v m h = ground (arith, lang.or 32 0 (read m.regs v))
  execute-flags false rc true pending rd v m h =
      let x = v % 2 ^ 32 in
      ground (arith, lang.complement 32 x, lang.and 32 0 (bit_xor x 0xffffffff))
  execute-flags false rc false pending rd v m h =
      let x = read m.regs v in
      ground (arith, lang.complement 32 x, lang.and 32 0 (bit_xor x 0xffffffff))

  -- While the rounding mode that `fcsr` holds is the default: the code of a CSR instruction reads and
  -- writes `fflags` as the manual says, with the option for the CSR, and without it takes it as zero
  -- and drops the write; it reads the counters, whose high words it takes as zero, and changes
  -- nothing else; no code is emitted for `frm`, `fcsr` and a write of a counter. The counters are
  -- running already, or are started by this code.
  pub execute-csr :
      (enabled : Bool) (op : CsrOp) (r : Register) (has_imm pending : Bool) (rd v : ℕ) (m : Machine)
      → m.fcsr < 2 ^ 5
      → (pending ≡ true) ⊎ (m.started ≡ true)
      → step L (translate_csr op has_imm enabled pending no_reloc (csr_type has_imm rd r v)) m
        ≡ csr_step L enabled r op (no_source has_imm v) (source_value has_imm m.regs v) rd m
  unfolding translate_csr
  execute-csr enabled op fflags has_imm pending rd v m h s =
      execute-flags enabled op has_imm pending rd v m h
  execute-csr true rw frm true true rd v m h s = ground arith
  execute-csr enabled op r has_imm pending rd v m h s = ground arith
