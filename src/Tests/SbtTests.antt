-- ===== src/Tests/SbtTests.antt =====
-- The translator and the `printf` pass, on small inputs.
use riscv_sbt.Prelude.{
  ℕ, ◌+◌, ◌*◌, ◌%◌, ◌^◌, ◌<◌, ◌≡◌, ◌⊎◌, inl, refl, arith, true, false, List, [], ◌∷◌, none, some,
  ◌==◌, if◌then◌else◌, length,
}
use riscv_sbt.Sbt.Map.{Item, lookup, upsert, erase, lower_bound}
use riscv_sbt.Sbt.Map.Laws.{IsSorted, upsert-IsSorted, lookup-upsert, lookup-erase}
use riscv_sbt.Sbt.Ir.{Machine, machine_with, symbol}
use riscv_sbt.Sbt.Ir.LangRef.{model, model-LangRef}
use riscv_sbt.Sbt.Rv32.{AluOp, MulOp, alu, muldiv, write}
use riscv_sbt.Sbt.Operand.{execute, no_reloc}
use riscv_sbt.Sbt.Instruction.Alu.{translate_alu_op}
use riscv_sbt.Sbt.Instruction.Alu.Laws.{
  r_type, i_type, IsWords, execute-register, execute-immediate,
}
use riscv_sbt.Sbt.Instruction.MulDiv.{translate_m}
use riscv_sbt.Sbt.Instruction.MulDiv.Laws.{execute-m}
use riscv_sbt.Sbt.Instruction.Upper.{lui, auipc, translate_ui}
use riscv_sbt.Sbt.Instruction.Upper.Laws.{u_type, upper, execute-upper}
use riscv_sbt.Sbt.Instruction.Translate.{Opcode}
use riscv_sbt.Sbt.Instruction.Translate.Laws.{Guest, State}
use riscv_sbt.Sbt.Relocation.{hi20, lo12_i, lo12_s, pcrel_lo12_i, rel_fn}
use riscv_sbt.Sbt.Relocation.Laws.{Splits, absolute_parts, pcrel_parts, pcrel_lo-undefined}
use riscv_sbt.Sbt.Relocation.Pairs.{answer, execute_two, load_address}
use riscv_sbt.Sbt.Relocation.{call, relax}
use riscv_sbt.Sbt.Relocation.Cursor.{
  Reloc, Cursor, skip_relax, resolve, constant, undefined, handle_relocation,
}
use riscv_sbt.Sbt.Relocation.Cursor.Laws.{hi_of_call, lo_of_call, resolve-call}
use riscv_sbt.Sbt.PrintfBreak.{ArgType, PCall, Call, break_printf, issue}
use riscv_sbt.Sbt.PrintfBreak.Directives.{directives}
use riscv_sbt.Sbt.PrintfBreak.Calls.{All, IsNarrow, IsGood, formats, arguments}
use riscv_sbt.Sbt.PrintfBreak.Laws.{break_printf-calls}

abbrev blocks : List (Item ℕ)
blocks = record { key = 4; val = 40 } ∷ record { key = 16; val = 160 } ∷ []

upsert-IsSorted_example : IsSorted (upsert blocks 8 80)
upsert-IsSorted_example = upsert-IsSorted blocks 8 80 (omega arith)

lookup-upsert_example : lookup (upsert blocks 8 80) 8 ≡ some 80
lookup-upsert_example = lookup-upsert blocks 8 8 80 (omega arith)

lookup-erase_example : lookup (erase blocks (lower_bound blocks 8)) 16 ≡ none
lookup-erase_example = lookup-erase blocks 8 16 (omega arith)

-- x1 = 7 and x2 = 2 ^ 32 - 3, which is -3.
abbrev registers : ℕ → ℕ
registers r = if r == 1 then 7 else if r == 2 then 0xfffffffd else 0

registers-IsWords : IsWords registers
registers-IsWords r = ground arith

abbrev machine : Machine
machine = machine_with registers (λ p. p % 256)

execute-register_example :
    execute model (translate_alu_op AluOp.sra false false no_reloc (r_type 3 2 1)) machine
    ≡ some (write registers 3 (alu AluOp.sra false 0xfffffffd 7), machine.mem)
execute-register_example = execute-register model-LangRef AluOp.sra false 3 2 1 machine

execute-immediate_example :
    execute model
      (translate_alu_op AluOp.xor true false no_reloc (i_type 3 1 0xffffffffffffffff))
      machine
    ≡ some (write registers 3 (alu AluOp.xor false 7 0xffffffff), machine.mem)
execute-immediate_example =
    execute-immediate model-LangRef AluOp.xor false 3 1 0xffffffffffffffff machine registers-IsWords

execute-m_example :
    execute model (translate_m MulOp.mulh (r_type 3 1 2)) machine
    ≡ some (write registers 3 (muldiv MulOp.mulh 7 0xfffffffd), machine.mem)
execute-m_example = execute-m model-LangRef MulOp.mulh 3 1 2 machine registers-IsWords

execute-upper_example :
    execute model (translate_ui model auipc 0x100 no_reloc (u_type 3 0xfffff)) machine
    ≡ some (write registers 3 (upper auipc 0x100 0xfffff), machine.mem)
execute-upper_example = execute-upper model-LangRef auipc 0x100 3 0xfffff machine

-- addi x3, x1, 5; mul x4, x3, x2; sw x4, 8(x1)
abbrev program : List Guest
program =
    record { opcode = Opcode.addi; addr = 0; x = 3; y = 1; z = 5 }
    ∷ record { opcode = Opcode.mul; addr = 4; x = 4; y = 3; z = 2 }
    ∷ record { opcode = Opcode.sw; addr = 8; x = 4; y = 1; z = 8 }
    ∷ []

abbrev start : State
start = (registers, λ p. 0)

absolute_parts_example :
    (hi : ℕ) × (lo : ℕ) × (rel_fn model hi20 0 none (symbol 32 0x12fff) ≡ some (symbol 32 hi))
    × (rel_fn model lo12_i 4 none (symbol 32 0x12fff) ≡ some (symbol 32 lo))
    × (rel_fn model lo12_s 4 none (symbol 32 0x12fff) ≡ some (symbol 32 lo))
    × Splits 0x12fff hi lo
absolute_parts_example = absolute_parts model-LangRef 0 4 none none 0x12fff (omega arith)

load_address_example :
    execute_two model
      (translate_ui model lui 0x40
        (answer (rel_fn model hi20 0x40 none (symbol 32 0x12fff)))
        (u_type 3 0))
      (translate_alu_op AluOp.add true false
        (answer (rel_fn model lo12_i 0x44 none (symbol 32 0x12fff)))
        (i_type 3 3 0))
      machine
    ≡ some (write registers 3 0x12fff, machine.mem)
load_address_example =
    load_address model-LangRef 3 0x40 0x12fff 0 0 machine (λ e. omega arith) (omega arith)

-- "%d %f"
abbrev format : List ℕ
format = b'%' ∷ b'd' ∷ b' ' ∷ b'%' ∷ b'f' ∷ []

abbrev types : List ArgType
types = ArgType.integer 32 ∷ ArgType.double ∷ []

break_printf-calls_example :
    ((break_printf format types ≡ some none) × (All IsNarrow types × (length types < 5)))
    ⊎ ((ps : List PCall) × (cs : List Call) × (break_printf format types ≡ some (some ps))
        × (issue ps types ≡ some cs)
        × (formats cs ≡ format)
        × (arguments cs ≡ types)
        × All IsGood cs)
unfolding directives
break_printf-calls_example = break_printf-calls format types (omega arith) refl

broken :
    break_printf format types
    ≡ some (
        some (
          record { fmt = b'%' ∷ b'd' ∷ b' ' ∷ []; args = 1; is_double = false }
          ∷ record { fmt = b'%' ∷ b'f' ∷ []; args = 1; is_double = true }
          ∷ []))
unfolding break_printf
broken = refl

-- A call at 0x100, with the relaxation that goes with it, and a later relocation.
abbrev call_reloc : Reloc
call_reloc = record { kind = call; offset = 0x100; hi_pc = none }

abbrev later_relocs : List Reloc
later_relocs =
    record { kind = relax; offset = 0x100; hi_pc = none }
    ∷ record { kind = hi20; offset = 0x200; hi_pc = none }
    ∷ []

not_relax : true ≡ false → ⊥
not_relax e = cc

resolve-call_example :
    let c : Cursor = record {
      relocs = skip_relax later_relocs;
      proxies = lo_of_call call_reloc ∷ [];
    } in
    (resolve 2 0x100 (record { relocs = call_reloc ∷ later_relocs; proxies = [] })
      ≡ some (some (hi_of_call call_reloc), c))
    × (resolve 2 0x104 c
        ≡ some (
          some (lo_of_call call_reloc),
          record { relocs = skip_relax later_relocs; proxies = [] },
        ))
resolve-call_example =
    resolve-call call_reloc later_relocs refl
      ((λ e. absurd (not_relax e)), ((λ e. omega arith), tt))

pcrel_parts_example :
    let next : Cursor = record {
      relocs = skip_relax later_relocs;
      proxies = lo_of_call call_reloc ∷ [];
    } in
    (hi : ℕ) × (lo : ℕ) × (handle_relocation model 0x100 0x10
        (record { relocs = call_reloc ∷ later_relocs; proxies = [] })
      ≡ constant (symbol 32 hi) next)
    × (handle_relocation model 0x104 0x10 next
        ≡ constant (symbol 32 lo) (record { relocs = skip_relax later_relocs; proxies = [] }))
    × (hi < 2 ^ 20)
    × ((lo + 2048) % 2 ^ 32 < 4096)
    × ((hi * 4096 + 0x100 + lo) % 2 ^ 32 ≡ 0x10)
pcrel_parts_example =
    pcrel_parts model-LangRef call_reloc later_relocs 0x10 refl
      ((λ e. absurd (not_relax e)), ((λ e. omega arith), tt)) (omega arith) (omega arith)

-- A low part that the ELF file relocates by itself.
low_part_undefined :
    handle_relocation model 0x104 0x10 (record {
      relocs = record { kind = pcrel_lo12_i; offset = 0x104; hi_pc = none } ∷ [];
      proxies = [];
    })
    ≡ undefined
low_part_undefined = pcrel_lo-undefined model-LangRef _ [] 0x10 (inl refl) refl tt
