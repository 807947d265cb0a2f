-- ===== src/Sbt/Instruction/Translate/Laws.antt =====
-- The code of one instruction of `translate`'s table, against the manual.
use riscv_sbt.Prelude.{ℕ, ◌+◌, ◌%◌, ◌^◌, ◌≡◌, refl, Bool, true, false, Option, some}
use riscv_sbt.Sbt.Ir.{Llvm, Machine}
use riscv_sbt.Sbt.Ir.LangRef.{LangRef}
use riscv_sbt.Sbt.Rv32.{AluOp, MulOp, alu, muldiv, read, write}
use riscv_sbt.Sbt.Operand.{McInst, no_reloc, execute}
use riscv_sbt.Sbt.Instruction.Alu.Laws.{
  r_type, i_type, IsWords, execute-register, execute-immediate,
}
use riscv_sbt.Sbt.Instruction.MulDiv.Laws.{traps, execute-m}
use riscv_sbt.Sbt.Instruction.Upper.{UpperOp}
use riscv_sbt.Sbt.Instruction.Upper.Laws.{u_type, upper, execute-upper}
use riscv_sbt.Sbt.Instruction.Memory.{IntType}
use riscv_sbt.Sbt.Instruction.Memory.Laws.{StoreType, loaded, stored, execute-load, execute-store}
use riscv_sbt.Sbt.Instruction.Translate.{
  Opcode, translate, add, addi, and, andi, or, ori, sll, slli, slt, sltu, slti, sltiu, sra, srai,
  srl, srli, sub, xor, xori, mul, mulh, mulhsu, mulhu, div, divu, rem, remu, auipc, lui, ebreak,
  fence, fence_i, lb, lbu, lh, lhu, lw, sb, sh, sw,
}

-- The registers and the memory of the guest.
abbrev pub State : Type 0
State = (ℕ → ℕ) × (ℕ → ℕ)

-- A guest instruction: its opcode, its address and three numbers, the registers and the immediate
-- in the order of the operands.
pub record Guest : Type 0 where
  pub opcode : Opcode
  pub addr : ℕ
  pub x : ℕ
  pub y : ℕ
  pub z : ℕ

abbrev pub operands : Opcode → ℕ → ℕ → ℕ → McInst
operands add = r_type
operands addi = i_type
operands and = r_type
operands andi = i_type
operands or = r_type
operands ori = i_type
operands sll = r_type
operands slli = i_type
operands slt = r_type
operands sltu = r_type
operands slti = i_type
operands sltiu = i_type
operands sra = r_type
operands srai = i_type
operands srl = r_type
operands srli = i_type
operands sub = r_type
operands xor = r_type
operands xori = i_type
operands mul = r_type
operands mulh = r_type
operands mulhsu = r_type
operands mulhu = r_type
operands div = r_type
operands divu = r_type
operands rem = r_type
operands remu = r_type
operands auipc = λ x y z. u_type x y
operands lui = λ x y z. u_type x y
operands ebreak = λ x y z. u_type x y
operands fence = λ x y z. u_type x y
operands fence_i = λ x y z. u_type x y
operands lb = i_type
operands lbu = i_type
operands lh = i_type
operands lhu = i_type
operands lw = i_type
operands sb = i_type
operands sh = i_type
operands sw = i_type

-- What the manual says of each instruction.
abbrev pub meaning : Opcode → ℕ → ℕ → ℕ → ℕ → State → State
meaning add pc x y z (r, m) = (write r x (alu AluOp.add false (read r y) (read r z)), m)
meaning addi pc x y z (r, m) = (write r x (alu AluOp.add false (read r y) (z % 2 ^ 32)), m)
meaning and pc x y z (r, m) = (write r x (alu AluOp.and false (read r y) (read r z)), m)
meaning andi pc x y z (r, m) = (write r x (alu AluOp.and false (read r y) (z % 2 ^ 32)), m)
meaning or pc x y z (r, m) = (write r x (alu AluOp.or false (read r y) (read r z)), m)
meaning ori pc x y z (r, m) = (write r x (alu AluOp.or false (read r y) (z % 2 ^ 32)), m)
meaning sll pc x y z (r, m) = (write r x (alu AluOp.sll false (read r y) (read r z)), m)
meaning slli pc x y z (r, m) = (write r x (alu AluOp.sll false (read r y) (z % 2 ^ 32)), m)
meaning slt pc x y z (r, m) = (write r x (alu AluOp.slt false (read r y) (read r z)), m)
meaning sltu pc x y z (r, m) = (write r x (alu AluOp.slt true (read r y) (read r z)), m)
meaning slti pc x y z (r, m) = (write r x (alu AluOp.slt false (read r y) (z % 2 ^ 32)), m)
meaning sltiu pc x y z (r, m) = (write r x (alu AluOp.slt true (read r y) (z % 2 ^ 32)), m)
meaning sra pc x y z (r, m) = (write r x (alu AluOp.sra false (read r y) (read r z)), m)
meaning srai pc x y z (r, m) = (write r x (alu AluOp.sra false (read r y) (z % 2 ^ 32)), m)
meaning srl pc x y z (r, m) = (write r x (alu AluOp.srl false (read r y) (read r z)), m)
meaning srli pc x y z (r, m) = (write r x (alu AluOp.srl false (read r y) (z % 2 ^ 32)), m)
meaning sub pc x y z (r, m) = (write r x (alu AluOp.sub false (read r y) (read r z)), m)
meaning xor pc x y z (r, m) = (write r x (alu AluOp.xor false (read r y) (read r z)), m)
meaning xori pc x y z (r, m) = (write r x (alu AluOp.xor false (read r y) (z % 2 ^ 32)), m)
meaning mul pc x y z (r, m) = (write r x (muldiv MulOp.mul (read r y) (read r z)), m)
meaning mulh pc x y z (r, m) = (write r x (muldiv MulOp.mulh (read r y) (read r z)), m)
meaning mulhsu pc x y z (r, m) = (write r x (muldiv MulOp.mulhsu (read r y) (read r z)), m)
meaning mulhu pc x y z (r, m) = (write r x (muldiv MulOp.mulhu (read r y) (read r z)), m)
meaning div pc x y z (r, m) = (write r x (muldiv MulOp.div (read r y) (read r z)), m)
meaning divu pc x y z (r, m) = (write r x (muldiv MulOp.divu (read r y) (read r z)), m)
meaning rem pc x y z (r, m) = (write r x (muldiv MulOp.rem (read r y) (read r z)), m)
meaning remu pc x y z (r, m) = (write r x (muldiv MulOp.remu (read r y) (read r z)), m)
meaning auipc pc x y z (r, m) = (write r x (upper UpperOp.auipc pc y), m)
meaning lui pc x y z (r, m) = (write r x (upper UpperOp.lui pc y), m)
meaning ebreak pc x y z s = s
meaning fence pc x y z s = s
meaning fence_i pc x y z s = s
meaning lb pc x y z (r, m) = (write r x (loaded IntType.s8 m ((read r y + z) % 2 ^ 32)), m)
meaning lbu pc x y z (r, m) = (write r x (loaded IntType.u8 m ((read r y + z) % 2 ^ 32)), m)
meaning lh pc x y z (r, m) = (write r x (loaded IntType.s16 m ((read r y + z) % 2 ^ 32)), m)
meaning lhu pc x y z (r, m) = (write r x (loaded IntType.u16 m ((read r y + z) % 2 ^ 32)), m)
meaning lw pc x y z (r, m) = (write r x (loaded IntType.u32 m ((read r y + z) % 2 ^ 32)), m)
meaning sb pc x y z (r, m) = (r, stored StoreType.byte m ((read r y + z) % 2 ^ 32) (read r x))
meaning sh pc x y z (r, m) = (r, stored StoreType.half m ((read r y + z) % 2 ^ 32) (read r x))
meaning sw pc x y z (r, m) = (r, stored StoreType.word m ((read r y + z) % 2 ^ 32) (read r x))

-- A division whose operands make LLVM's division undefined.
abbrev pub divides_badly : Opcode → ℕ → ℕ → Bool
divides_badly div a b = traps MulOp.div a b
divides_badly divu a b = traps MulOp.divu a b
divides_badly rem a b = traps MulOp.rem a b
divides_badly remu a b = traps MulOp.remu a b
divides_badly _ a b = false

abbrev pub meaning_of : Guest → State → State
meaning_of g = meaning g.opcode g.addr g.x g.y g.z

abbrev pub translate_of : Llvm → Guest → Machine → Option State
translate_of L g = execute L (translate L g.opcode g.addr no_reloc (operands g.opcode g.x g.y g.z))

abbrev pub IsDefined : Guest → State → Type 0
IsDefined g (r, m) = divides_badly g.opcode (read r g.y) (read r g.z) ≡ false

module _ {L : Llvm} (lang : LangRef L) where
  -- Running the code of one instruction does what the manual says, unless it divides by zero or
  -- overflows a division.
  pub translate-meaning :
      (op : Opcode) (pc x y z : ℕ) (m : Machine)
      → IsWords m.regs
      → divides_badly op (read m.regs y) (read m.regs z) ≡ false
      → execute L (translate L op pc no_reloc (operands op x y z)) m
        ≡ some (meaning op pc x y z (m.regs, m.mem))
  unfolding translate
  translate-meaning add pc x y z m words ok = execute-register lang AluOp.add false x y z m
  translate-meaning addi pc x y z m words ok = execute-immediate lang AluOp.add false x y z m words
  translate-meaning and pc x y z m words ok = execute-register lang AluOp.and false x y z m
  translate-meaning andi pc x y z m words ok = execute-immediate lang AluOp.and false x y z m words
  translate-meaning or pc x y z m words ok = execute-register lang AluOp.or false x y z m
  translate-meaning ori pc x y z m words ok = execute-immediate lang AluOp.or false x y z m words
  translate-meaning sll pc x y z m words ok = execute-register lang AluOp.sll false x y z m
  translate-meaning slli pc x y z m words ok = execute-immediate lang AluOp.sll false x y z m words
  translate-meaning slt pc x y z m words ok = execute-register lang AluOp.slt false x y z m
  translate-meaning sltu pc x y z m words ok = execute-register lang AluOp.slt true x y z m
  translate-meaning slti pc x y z m words ok = execute-immediate lang AluOp.slt false x y z m words
  translate-meaning sltiu pc x y z m words ok = execute-immediate lang AluOp.slt true x y z m words
  translate-meaning sra pc x y z m words ok = execute-register lang AluOp.sra false x y z m
  translate-meaning srai pc x y z m words ok = execute-immediate lang AluOp.sra false x y z m words
  translate-meaning srl pc x y z m words ok = execute-register lang AluOp.srl false x y z m
  translate-meaning srli pc x y z m words ok = execute-immediate lang AluOp.srl false x y z m words
  translate-meaning sub pc x y z m words ok = execute-register lang AluOp.sub false x y z m
  translate-meaning xor pc x y z m words ok = execute-register lang AluOp.xor false x y z m
  translate-meaning xori pc x y z m words ok = execute-immediate lang AluOp.xor false x y z m words
  translate-meaning mul pc x y z m words ok = execute-m lang MulOp.mul x y z m words
  translate-meaning mulh pc x y z m words ok = execute-m lang MulOp.mulh x y z m words
  translate-meaning mulhsu pc x y z m words ok = execute-m lang MulOp.mulhsu x y z m words
  translate-meaning mulhu pc x y z m words ok = execute-m lang MulOp.mulhu x y z m words
  translate-meaning div pc x y z m words ok = rw ok at (execute-m lang MulOp.div x y z m words)
  translate-meaning divu pc x y z m words ok = rw ok at (execute-m lang MulOp.divu x y z m words)
  translate-meaning rem pc x y z m words ok = rw ok at (execute-m lang MulOp.rem x y z m words)
  translate-meaning remu pc x y z m words ok = rw ok at (execute-m lang MulOp.remu x y z m words)
  translate-meaning auipc pc x y z m words ok = execute-upper lang UpperOp.auipc pc x y m
  translate-meaning lui pc x y z m words ok = execute-upper lang UpperOp.lui pc x y m
  translate-meaning ebreak pc x y z m words ok = refl
  translate-meaning fence pc x y z m words ok = refl
  translate-meaning fence_i pc x y z m words ok = refl
  translate-meaning lb pc x y z m words ok = execute-load lang IntType.s8 x y z m
  translate-meaning lbu pc x y z m words ok = execute-load lang IntType.u8 x y z m
  translate-meaning lh pc x y z m words ok = execute-load lang IntType.s16 x y z m
  translate-meaning lhu pc x y z m words ok = execute-load lang IntType.u16 x y z m
  translate-meaning lw pc x y z m words ok = execute-load lang IntType.u32 x y z m
  translate-meaning sb pc x y z m words ok = execute-store lang StoreType.byte x y z m
  translate-meaning sh pc x y z m words ok = execute-store lang StoreType.half x y z m
  translate-meaning sw pc x y z m words ok = execute-store lang StoreType.word x y z m
