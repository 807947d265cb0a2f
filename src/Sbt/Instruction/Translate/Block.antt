-- ===== src/Sbt/Instruction/Translate/Block.antt =====
-- Straight-line guest code: the emitted code of a sequence of instructions, run in order.
use riscv_sbt.Prelude.{ℕ, ◌%◌, ◌^◌, true, false, arith, List, [], ◌∷◌, Option, none, some}
use riscv_sbt.Sbt.Ir.{Llvm, Machine, machine_with}
use riscv_sbt.Sbt.Ir.LangRef.{LangRef}
use riscv_sbt.Sbt.Rv32.{AluOp, MulOp, read}
use riscv_sbt.Sbt.Instruction.Alu.Laws.{IsWords}
use riscv_sbt.Sbt.Instruction.MulDiv.Laws.{read-lt}
use riscv_sbt.Sbt.Instruction.Memory.{IntType}
use riscv_sbt.Sbt.Instruction.Memory.Laws.{StoreType}
use riscv_sbt.Sbt.Instruction.Upper.{UpperOp}
use riscv_sbt.Sbt.Instruction.Translate.{
  Opcode, add, addi, and, andi, or, ori, sll, slli, slt, sltu, slti, sltiu, sra, srai, srl, srli,
  sub, xor, xori, mul, mulh, mulhsu, mulhu, div, divu, rem, remu, auipc, lui, ebreak, fence,
  fence_i, lb, lbu, lh, lhu, lw, sb, sh, sw,
}
use riscv_sbt.Sbt.Instruction.Translate.Laws.{
  State, Guest, meaning, meaning_of, translate_of, IsDefined,
}
use riscv_sbt.Sbt.Instruction.Translate.Bounds.{
  IsBytes, alu-lt, muldiv-lt, write-IsWords, loaded-lt, stored-IsBytes, upper-lt,
}

-- Registers are 32-bit patterns and memory holds bytes.
abbrev pub IsState : State → Type 0
IsState (r, m) = IsWords r × IsBytes m

pub meaning-IsState :
    (op : Opcode) (pc x y z : ℕ) (s : State) → IsState s → IsState (meaning op pc x y z s)
meaning-IsState add pc x y z (r, m) (w, b) = (
  write-IsWords r x _ w
      (alu-lt AluOp.add false (read r y) (read r z) (read-lt r y w) (read-lt r z w)),
  b,
)
meaning-IsState addi pc x y z (r, m) (w, b) = (
  write-IsWords r x _ w
      (alu-lt AluOp.add false (read r y) (z % 2 ^ 32) (read-lt r y w) (omega arith)),
  b,
)
meaning-IsState and pc x y z (r, m) (w, b) = (
  write-IsWords r x _ w
      (alu-lt AluOp.and false (read r y) (read r z) (read-lt r y w) (read-lt r z w)),
  b,
)
meaning-IsState andi pc x y z (r, m) (w, b) = (
  write-IsWords r x _ w
      (alu-lt AluOp.and false (read r y) (z % 2 ^ 32) (read-lt r y w) (omega arith)),
  b,
)
meaning-IsState or pc x y z (r, m) (w, b) = (
  write-IsWords r x _ w
      (alu-lt AluOp.or false (read r y) (read r z) (read-lt r y w) (read-lt r z w)),
  b,
)
meaning-IsState ori pc x y z (r, m) (w, b) = (
  write-IsWords r x _ w
      (alu-lt AluOp.or false (read r y) (z % 2 ^ 32) (read-lt r y w) (omega arith)),
  b,
)
meaning-IsState sll pc x y z (r, m) (w, b) = (
  write-IsWords r x _ w
      (alu-lt AluOp.sll false (read r y) (read r z) (read-lt r y w) (read-lt r z w)),
  b,
)
meaning-IsState slli pc x y z (r, m) (w, b) = (
  write-IsWords r x _ w
      (alu-lt AluOp.sll false (read r y) (z % 2 ^ 32) (read-lt r y w) (omega arith)),
  b,
)
meaning-IsState slt pc x y z (r, m) (w, b) = (
  write-IsWords r x _ w
      (alu-lt AluOp.slt false (read r y) (read r z) (read-lt r y w) (read-lt r z w)),
  b,
)
meaning-IsState sltu pc x y z (r, m) (w, b) = (
  write-IsWords r x _ w
      (alu-lt AluOp.slt true (read r y) (read r z) (read-lt r y w) (read-lt r z w)),
  b,
)
meaning-IsState slti pc x y z (r, m) (w, b) = (
  write-IsWords r x _ w
      (alu-lt AluOp.slt false (read r y) (z % 2 ^ 32) (read-lt r y w) (omega arith)),
  b,
)
meaning-IsState sltiu pc x y z (r, m) (w, b) = (
  write-IsWords r x _ w
      (alu-lt AluOp.slt true (read r y) (z % 2 ^ 32) (read-lt r y w) (omega arith)),
  b,
)
meaning-IsState sra pc x y z (r, m) (w, b) = (
  write-IsWords r x _ w
      (alu-lt AluOp.sra false (read r y) (read r z) (read-lt r y w) (read-lt r z w)),
  b,
)
meaning-IsState srai pc x y z (r, m) (w, b) = (
  write-IsWords r x _ w
      (alu-lt AluOp.sra false (read r y) (z % 2 ^ 32) (read-lt r y w) (omega arith)),
  b,
)
meaning-IsState srl pc x y z (r, m) (w, b) = (
  write-IsWords r x _ w
      (alu-lt AluOp.srl false (read r y) (read r z) (read-lt r y w) (read-lt r z w)),
  b,
)
meaning-IsState srli pc x y z (r, m) (w, b) = (
  write-IsWords r x _ w
      (alu-lt AluOp.srl false (read r y) (z % 2 ^ 32) (read-lt r y w) (omega arith)),
  b,
)
meaning-IsState sub pc x y z (r, m) (w, b) = (
  write-IsWords r x _ w
      (alu-lt AluOp.sub false (read r y) (read r z) (read-lt r y w) (read-lt r z w)),
  b,
)
meaning-IsState xor pc x y z (r, m) (w, b) = (
  write-IsWords r x _ w
      (alu-lt AluOp.xor false (read r y) (read r z) (read-lt r y w) (read-lt r z w)),
  b,
)
meaning-IsState xori pc x y z (r, m) (w, b) = (
  write-IsWords r x _ w
      (alu-lt AluOp.xor false (read r y) (z % 2 ^ 32) (read-lt r y w) (omega arith)),
  b,
)
meaning-IsState mul pc x y z (r, m) (w, b) = (
  write-IsWords r x _ w (muldiv-lt MulOp.mul (read r y) (read r z) (read-lt r y w) (read-lt r z w)),
  b,
)
meaning-IsState mulh pc x y z (r, m) (w, b) = (
  write-IsWords r x _ w
      (muldiv-lt MulOp.mulh (read r y) (read r z) (read-lt r y w) (read-lt r z w)),
  b,
)
meaning-IsState mulhsu pc x y z (r, m) (w, b) = (
  write-IsWords r x _ w
      (muldiv-lt MulOp.mulhsu (read r y) (read r z) (read-lt r y w) (read-lt r z w)),
  b,
)
meaning-IsState mulhu pc x y z (r, m) (w, b) = (
  write-IsWords r x _ w
      (muldiv-lt MulOp.mulhu (read r y) (read r z) (read-lt r y w) (read-lt r z w)),
  b,
)
meaning-IsState div pc x y z (r, m) (w, b) = (
  write-IsWords r x _ w (muldiv-lt MulOp.div (read r y) (read r z) (read-lt r y w) (read-lt r z w)),
  b,
)
meaning-IsState divu pc x y z (r, m) (w, b) = (
  write-IsWords r x _ w
      (muldiv-lt MulOp.divu (read r y) (read r z) (read-lt r y w) (read-lt r z w)),
  b,
)
meaning-IsState rem pc x y z (r, m) (w, b) = (
  write-IsWords r x _ w (muldiv-lt MulOp.rem (read r y) (read r z) (read-lt r y w) (read-lt r z w)),
  b,
)
meaning-IsState remu pc x y z (r, m) (w, b) = (
  write-IsWords r x _ w
      (muldiv-lt MulOp.remu (read r y) (read r z) (read-lt r y w) (read-lt r z w)),
  b,
)
meaning-IsState auipc pc x y z (r, m) (w, b) =
    (write-IsWords r x _ w (upper-lt UpperOp.auipc pc y), b)
meaning-IsState lui pc x y z (r, m) (w, b) = (write-IsWords r x _ w (upper-lt UpperOp.lui pc y), b)
meaning-IsState ebreak pc x y z s h = h
meaning-IsState fence pc x y z s h = h
meaning-IsState fence_i pc x y z s h = h
meaning-IsState lb pc x y z (r, m) (w, b) = (write-IsWords r x _ w (loaded-lt IntType.s8 m _ b), b)
meaning-IsState lbu pc x y z (r, m) (w, b) = (write-IsWords r x _ w (loaded-lt IntType.u8 m _ b), b)
meaning-IsState lh pc x y z (r, m) (w, b) = (write-IsWords r x _ w (loaded-lt IntType.s16 m _ b), b)
meaning-IsState lhu pc x y z (r, m) (w, b) =
    (write-IsWords r x _ w (loaded-lt IntType.u16 m _ b), b)
meaning-IsState lw pc x y z (r, m) (w, b) = (write-IsWords r x _ w (loaded-lt IntType.u32 m _ b), b)
meaning-IsState sb pc x y z (r, m) (w, b) = (w, stored-IsBytes StoreType.byte m _ _ b)
meaning-IsState sh pc x y z (r, m) (w, b) = (w, stored-IsBytes StoreType.half m _ _ b)
meaning-IsState sw pc x y z (r, m) (w, b) = (w, stored-IsBytes StoreType.word m _ _ b)

-- The manual's machine over a sequence.
abbrev pub run_guest : List Guest → State → State
run_guest [] s = s
run_guest (g ∷ gs) s = run_guest gs (meaning_of g s)

-- No division of the sequence is by zero or overflows.
abbrev pub AreDefined : List Guest → State → Type 0
AreDefined [] s = Unit
AreDefined (g ∷ gs) s = IsDefined g s × AreDefined gs (meaning_of g s)

abbrev after : Option State → (State → Option State) → Option State
after none k = none
after (some s) k = k s

abbrev pub machine_of : State → Machine
machine_of (r, m) = machine_with r m

-- The emitted code of each instruction in turn. Temporaries are numbered for each instruction, and
-- none is used by a later one.
abbrev pub run_emitted : Llvm → List Guest → State → Option State
run_emitted L [] s = some s
run_emitted L (g ∷ gs) (r, m) = after (translate_of L g (machine_of (r, m))) (run_emitted L gs)
