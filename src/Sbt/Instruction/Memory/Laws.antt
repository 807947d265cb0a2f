-- ===== src/Sbt/Instruction/Memory/Laws.antt =====
-- The code that `translateLoad` and `translateStore` emit, against the manual.
use riscv_sbt.Prelude.{ℕ, ◌+◌, ◌*◌, ◌%◌, ◌^◌, ◌≡◌, arith, some}
use riscv_sbt.Prelude.Word.{sext}
use riscv_sbt.Sbt.Ir.{Llvm, Machine}
use riscv_sbt.Sbt.Ir.LangRef.{LangRef, stored8, stored16, stored32}
use riscv_sbt.Sbt.Rv32.{read, write}
use riscv_sbt.Sbt.Operand.{no_reloc, execute}
use riscv_sbt.Sbt.Instruction.Memory.{
  IntType, s8, u8, s16, u16, u32, translate_load, translate_store,
}
use riscv_sbt.Sbt.Instruction.Alu.Laws.{i_type}

-- The little-endian value of the bytes at an address, extended to 32 bits.
abbrev pub loaded : IntType → (ℕ → ℕ) → ℕ → ℕ
loaded s8 mem p = sext 8 32 (mem p)
loaded u8 mem p = mem p
loaded s16 mem p = sext 16 32 (mem p + 256 * mem (p + 1))
loaded u16 mem p = mem p + 256 * mem (p + 1)
loaded u32 mem p = mem p + 256 * mem (p + 1) + 65536 * mem (p + 2) + 16777216 * mem (p + 3)

-- The widths that a store has.
pub data StoreType : Type 0 where
  byte half word : StoreType

abbrev pub int_type : StoreType → IntType
int_type byte = u8
int_type half = u16
int_type word = u32

-- The bytes of the value, lowest first.
abbrev pub stored : StoreType → (ℕ → ℕ) → ℕ → ℕ → ℕ → ℕ
stored byte mem p x = stored8 mem p (x % 2 ^ 8)
stored half mem p x = stored16 mem p (x % 2 ^ 16)
stored word mem p x = stored32 mem p x

module _ {L : Llvm} (lang : LangRef L) where
  pub execute-load :
      (it : IntType) (rd rs1 v : ℕ) (m : Machine)
      → execute L (translate_load it no_reloc (i_type rd rs1 v)) m
        ≡ some (write m.regs rd (loaded it m.mem ((read m.regs rs1 + v) % 2 ^ 32)), m.mem)
  unfolding translate_load
  execute-load s8 rd rs1 v m =
      let a = read m.regs rs1 in
      let p = (a + v % 2 ^ 32) % 2 ^ 32 in
      ground (
        arith,
        lang.pointer_cast a,
        lang.gep a (v % 2 ^ 32),
        lang.pointer_cast p,
        lang.load8 m.mem p,
        lang.sext 8 32 (m.mem p),
      )
  execute-load u8 rd rs1 v m =
      let a = read m.regs rs1 in
      let p = (a + v % 2 ^ 32) % 2 ^ 32 in
      ground (
        arith,
        lang.pointer_cast a,
        lang.gep a (v % 2 ^ 32),
        lang.pointer_cast p,
        lang.load8 m.mem p,
        lang.zext 8 32 (m.mem p),
      )
  execute-load s16 rd rs1 v m =
      let a = read m.regs rs1 in
      let p = (a + v % 2 ^ 32) % 2 ^ 32 in
      ground (
        arith,
        lang.pointer_cast a,
        lang.gep a (v % 2 ^ 32),
        lang.pointer_cast p,
        lang.load16 m.mem p,
        lang.sext 16 32 (m.mem p + 256 * m.mem (p + 1)),
      )
  execute-load u16 rd rs1 v m =
      let a = read m.regs rs1 in
      let p = (a + v % 2 ^ 32) % 2 ^ 32 in
      ground (
        arith,
        lang.pointer_cast a,
        lang.gep a (v % 2 ^ 32),
        lang.pointer_cast p,
        lang.load16 m.mem p,
        lang.zext 16 32 (m.mem p + 256 * m.mem (p + 1)),
      )
  execute-load u32 rd rs1 v m =
      let a = read m.regs rs1 in
      let p = (a + v % 2 ^ 32) % 2 ^ 32 in
      ground (
        arith,
        lang.pointer_cast a,
        lang.gep a (v % 2 ^ 32),
        lang.pointer_cast p,
        lang.load32 m.mem p,
      )

  pub execute-store :
      (it : StoreType) (rs2 rs1 v : ℕ) (m : Machine)
      → execute L (translate_store (int_type it) no_reloc (i_type rs2 rs1 v)) m
        ≡ some (m.regs, stored it m.mem ((read m.regs rs1 + v) % 2 ^ 32) (read m.regs rs2))
  unfolding translate_store
  execute-store byte rs2 rs1 v m =
      let a = read m.regs rs1 in
      let x = read m.regs rs2 in
      let p = (a + v % 2 ^ 32) % 2 ^ 32 in
      ground (
        arith,
        lang.pointer_cast a,
        lang.gep a (v % 2 ^ 32),
        lang.pointer_cast p,
        lang.trunc 32 8 x,
        lang.store8 m.mem p (x % 2 ^ 8),
      )
  execute-store half rs2 rs1 v m =
      let a = read m.regs rs1 in
      let x = read m.regs rs2 in
      let p = (a + v % 2 ^ 32) % 2 ^ 32 in
      ground (
        arith,
        lang.pointer_cast a,
        lang.gep a (v % 2 ^ 32),
        lang.pointer_cast p,
        lang.trunc 32 16 x,
        lang.store16 m.mem p (x % 2 ^ 16),
      )
  execute-store word rs2 rs1 v m =
      let a = read m.regs rs1 in
      let x = read m.regs rs2 in
      let p = (a + v % 2 ^ 32) % 2 ^ 32 in
      ground (
        arith,
        lang.pointer_cast a,
        lang.gep a (v % 2 ^ 32),
        lang.pointer_cast p,
        lang.store32 m.mem p x,
      )
