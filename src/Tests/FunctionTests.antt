-- ===== src/Tests/FunctionTests.antt =====
-- Functions, their basic blocks and sections, on small inputs.
use riscv_sbt.Prelude.{
  ℕ, zero, suc, ◌+◌, ◌*◌, ◌<◌, ◌≤◌, ◌≡◌, ◌⊎◌, refl, arith, Bool, true, false, ◌&&◌, List, [], ◌∷◌,
  none, some, Option, map, ltb, leb, ◌==◌, if◌then◌else◌,
}
use riscv_sbt.Sbt.Map.{Item, lookup, upsert}
use riscv_sbt.Sbt.Function.Sync.{locals, abi, File, enter_callee, leave_callee}
use riscv_sbt.Sbt.Function.Sync.Laws.{
  passes_x, passes_f, returns_x, returns_f, enter_callee-passes, leave_callee-returns,
}
use riscv_sbt.Sbt.Section.{Symbol, translate_section}
use riscv_sbt.Sbt.Section.Laws.{holders, first_start, translate_section-tiles}
use riscv_sbt.Sbt.Function.Blocks.{Block, Blocks, unfinished, ret, transfer_bbs}
use riscv_sbt.Sbt.Function.Blocks.Transfer.{transfer_bbs-splits}
use riscv_sbt.Sbt.Function.Jump.{Guest, straight, returning, jump, branch, State}
use riscv_sbt.Sbt.Function.Loop.{translate_instrs}
use riscv_sbt.Sbt.Function.Jump.Image.{is_straight}
use riscv_sbt.Sbt.Function.Loop.Work.{IsCode}
use riscv_sbt.Sbt.Function.Loop.Flow.{contains, leads_to, follows, goes_to}
use riscv_sbt.Sbt.Function.Loop.Laws.{
  IsCovered, translate_instrs-IsCovered, translate_instrs-follows,
}

-- A loop of four instructions, left by a branch forward to a return.
abbrev program : ℕ → Guest
program a =
    if a == 4
    then branch 2 16
    else if a == 12
    then jump 0
    else if a == 16
    then returning 3
    else straight 2

program-IsCode : (j : ℕ) → 0 ≤ j → j < 5 → IsCode program 0 j
program-IsCode zero le lt = record { goal = λ t e. absurd (cc e) }
program-IsCode (suc zero) le lt = record {
  goal = λ t e. (4, ground (arith, e), omega arith, omega arith);
}
program-IsCode (suc (suc zero)) le lt = record { goal = λ t e. absurd (cc e) }
program-IsCode (suc (suc (suc zero))) le lt = record {
  goal = λ t e. (0, ground (arith, e), omega arith, omega arith);
}
program-IsCode (suc (suc (suc (suc zero)))) le lt = record { goal = λ t e. absurd (cc e) }
program-IsCode (suc (suc (suc (suc (suc j))))) le lt = absurd (omega arith)

-- Another function starts at the fourth instruction.
abbrev switch_at_12 : ℕ → Bool
switch_at_12 a = a == 12

translate_instrs-IsCovered_example :
    (st : State) × (b : ℕ) × (translate_instrs program switch_at_12 5 0 ≡ some (st, 4 * b))
    × (0 < b)
    × (b ≤ 5)
    × ((b ≡ 5) ⊎ (switch_at_12 (4 * b) ≡ true))
    × ((j : ℕ) → 0 < j → j < b → switch_at_12 (4 * j) ≡ false)
    × ((j : ℕ) → 0 ≤ j → j < b → IsCovered st.bb_map (4 * j))
translate_instrs-IsCovered_example =
    translate_instrs-IsCovered program switch_at_12 5 0 (omega arith) program-IsCode

translate_instrs-follows_example :
    (st : State) × (end : ℕ) × (translate_instrs program (λ a. false) 5 0 ≡ some (st, end))
    × ((k x : ℕ) (v : Block) (taken : Bool)
        → lookup st.bb_map k ≡ some v
        → contains v.instrs x ≡ true
        → (leads_to v x taken ≡ (
            if is_straight (program x) && x + 4 == end then none else follows (program x) x taken))
          × ((y : ℕ)
              → goes_to v.term taken ≡ some y
              → (v' : Block) × (lookup st.bb_map y ≡ some v')))
translate_instrs-follows_example =
    translate_instrs-follows program (λ a. false) 5 0 (omega arith) program-IsCode

-- The register files of caller and callee.
abbrev file : ℕ → File
file n = record { x = λ i. n + i; f = λ i. n * i }

enter_callee-passes_example :
    (callee : File) × (global' : File) × (enter_callee
        (record { regs = abi; sync_fregs = true })
        (file 100)
        (file 200)
        (file 300)
      ≡ some (callee, global'))
    × ((j : ℕ) → callee.x j ≡ (if passes_x abi j then 100 + j else 300 + j))
    × ((j : ℕ) → callee.f j ≡ (if true && passes_f abi j then 100 * j else 300 * j))
enter_callee-passes_example =
    enter_callee-passes (record { regs = abi; sync_fregs = true }) (file 100) (file 200) (file 300)

leave_callee-returns_example :
    (caller' : File) × (global' : File) × (leave_callee
        (record { regs = locals; sync_fregs = false })
        (file 100)
        (file 200)
        (file 300)
      ≡ some (caller', global'))
    × ((j : ℕ) → caller'.x j ≡ (if returns_x locals j then 100 + j else 300 + j))
    × ((j : ℕ) → caller'.f j ≡ (if false && returns_f locals j then 100 * j else 300 * j))
leave_callee-returns_example =
    leave_callee-returns (record { regs = locals; sync_fregs = false }) (file 100) (file 200)
      (file 300)

abbrev symbols : List Symbol
symbols =
    record { name = 1; address = 0; is_function = false; is_global = false }
    ∷ record { name = 2; address = 4; is_function = true; is_global = true }
    ∷ record { name = 3; address = 8; is_function = false; is_global = false }
    ∷ record { name = 4; address = 24; is_function = false; is_global = true }
    ∷ []

translate_section-tiles_example :
    ((translate_section (λ f. true) true 40 symbols).ok ≡ true)
    × ((a : ℕ)
        → holders a (translate_section (λ f. true) true 40 symbols).funcs
          ≡ (if leb (first_start 40 symbols) a && ltb a 40 then 1 else 0))
translate_section-tiles_example =
    translate_section-tiles (λ f. true) (λ f. refl) 40 symbols
      (omega arith, (omega arith, (omega arith, (omega arith, omega arith))))

abbrev two_blocks : Blocks
two_blocks =
    record { key = 4; val = record { instrs = record { key = 4; val = 1 } ∷ []; term = ret } }
    ∷ record { key = 16; val = record { instrs = []; term = unfinished } }
    ∷ []

transfer_bbs-splits_example :
    (lookup (transfer_bbs two_blocks 8).0 16 ≡ none)
    × (lookup (transfer_bbs two_blocks 8).1 16 ≡ lookup two_blocks 16)
transfer_bbs-splits_example = transfer_bbs-splits two_blocks 8 16 (omega arith, (tt, tt))

keys_of : Option (State × ℕ) → List ℕ
keys_of none = []
keys_of (some (st, b)) = map (λ (x : Item Block). x.key) st.bb_map

-- The blocks of the program start at 0, behind the branch and at its target.
program_starts : keys_of (translate_instrs program (λ a. false) 5 0) ≡ 0 ∷ 8 ∷ 16 ∷ []
unfolding keys_of translate_instrs upsert lookup
program_starts = refl
