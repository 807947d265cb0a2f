-- ===== src/Sbt/Relocation.antt =====
-- The constants of `SBTRelocation::handleRelocation`, sbt/Relocation.cpp: for each type of
-- relocation the function `relfn` of the symbol's value.
pub mod Laws
pub mod Pairs
pub mod Cursor
use riscv_sbt.Prelude.{ℕ, Option, none, some}
use riscv_sbt.Sbt.Ir.{Llvm, Value, BinOp, const_expr}
use riscv_sbt.Sbt.Builder.{i32}

-- The ELF types that the code names, and `Relocation`'s own proxies.
pub data RelocType : Type 0 where
  hi20 lo12_i lo12_s pcrel_hi20 pcrel_lo12_i pcrel_lo12_s call branch jal relax : RelocType
  proxy_hi proxy_lo proxy_pcrel_hi proxy_pcrel_lo proxy_call_hi proxy_call_lo : RelocType
  unknown : ℕ → RelocType

infixl 5 ◌>>=◌
abbrev pub ◌>>=◌ : Option Value → (Value → Option Value) → Option Value
none >>= k = none
some c >>= k = k c

module _ (L : Llvm) where
  unfoldable pub hi_part : Value → Option Value
  hi_part addr = do c ← const_expr L BinOp.add addr (i32 0x800); const_expr L BinOp.lshr c (i32 12)

  unfoldable pub lo_part : Value → Option Value
  lo_part addr = do
    c ← const_expr L BinOp.add addr (i32 0x800)
    hi ← const_expr L BinOp.and c (i32 0xfffff000)
    const_expr L BinOp.sub addr hi

  unfoldable pub pcrel_hi_part : ℕ → Value → Option Value
  pcrel_hi_part pc symaddr = do
    c ← const_expr L BinOp.sub symaddr (i32 pc)
    c' ← const_expr L BinOp.add c (i32 0x800)
    const_expr L BinOp.lshr c' (i32 12)

  unfoldable pub pcrel_lo_part : ℕ → Value → Option Value
  pcrel_lo_part hi_pc symaddr = do
    c ← const_expr L BinOp.sub symaddr (i32 hi_pc)
    c' ← const_expr L BinOp.add c (i32 0x800)
    hi ← const_expr L BinOp.and c' (i32 0xfffff000)
    c'' ← const_expr L BinOp.sub symaddr (i32 hi_pc)
    const_expr L BinOp.sub c'' hi

  unfoldable pub pc_offset : ℕ → Value → Option Value
  pc_offset pc symaddr = const_expr L BinOp.sub symaddr (i32 pc)

  -- The low part that names the address of its high part. The code takes any relocation that asks
  -- for it as a `ProxyRelocation`; a relocation of the ELF file is none and has no such member, so
  -- that the read is undefined: `none`.
  unfoldable pub named_lo_part : Option ℕ → Value → Option Value
  unfolding pcrel_lo_part
  named_lo_part none s = none
  named_lo_part (some hi_pc) s = pcrel_lo_part hi_pc s

  -- `relfn`, for a relocation at `addr`; `hi_pc` is the member of a `ProxyRelocation`, and `none`
  -- for a relocation of the ELF file. The result is `none` where the behaviour is undefined and for a
  -- type that the code does not reach it with.
  unfoldable pub rel_fn : RelocType → ℕ → Option ℕ → Value → Option Value
  unfolding hi_part lo_part pcrel_hi_part named_lo_part pc_offset
  rel_fn proxy_hi addr hi_pc s = hi_part s
  rel_fn hi20 addr hi_pc s = hi_part s
  rel_fn proxy_lo addr hi_pc s = lo_part s
  rel_fn lo12_i addr hi_pc s = lo_part s
  rel_fn lo12_s addr hi_pc s = lo_part s
  rel_fn proxy_call_hi addr hi_pc s = pcrel_hi_part addr s
  rel_fn proxy_pcrel_hi addr hi_pc s = pcrel_hi_part addr s
  rel_fn pcrel_hi20 addr hi_pc s = pcrel_hi_part addr s
  rel_fn proxy_call_lo addr hi_pc s = named_lo_part hi_pc s
  rel_fn proxy_pcrel_lo addr hi_pc s = named_lo_part hi_pc s
  rel_fn pcrel_lo12_i addr hi_pc s = named_lo_part hi_pc s
  rel_fn pcrel_lo12_s addr hi_pc s = named_lo_part hi_pc s
  rel_fn branch addr hi_pc s = pc_offset addr s
  rel_fn jal addr hi_pc s = pc_offset addr s
  rel_fn call addr hi_pc s = none
  rel_fn relax addr hi_pc s = none
  rel_fn (unknown t) addr hi_pc s = none
