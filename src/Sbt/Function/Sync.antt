-- ===== src/Sbt/Function/Sync.antt =====
-- The synchronisation of register files in sbt/Function.cpp. A translated function keeps the guest's
-- registers in local variables, and copies them from and to the global ones where it starts, calls
-- and returns. The emitted code is given by the registers that it copies, in order.
pub mod Laws
use Prim.Native.Nat.{bit_and, bit_or}
use riscv_sbt.Prelude.{
  ℕ, zero, suc, ◌+◌, Bool, true, false, not, ◌&&◌, ◌||◌, List, [], ◌∷◌, Option, none, some, ◌==◌,
  if◌then◌else◌,
}
use riscv_sbt.Sbt.Ir.{update}

-- `Options::Regs`
pub data Regs : Type 0 where
  globals locals abi : Regs

-- `SyncFlags`
abbrev pub s_call : ℕ
s_call = 0x01

abbrev pub s_call_returned : ℕ
s_call_returned = 0x02

abbrev pub s_func_start : ℕ
s_func_start = 0x04

abbrev pub s_func_return : ℕ
s_func_return = 0x08

abbrev s_load : ℕ
s_load = 0x10

abbrev s_abi : ℕ
s_abi = 0x20

abbrev pub s_ret_regs_only : ℕ
s_ret_regs_only = 0x40

abbrev s_xreg : ℕ
s_xreg = 0x80

abbrev has : ℕ → ℕ → Bool
has flags f = not (bit_and flags f == 0)

abbrev pub one_of : ℕ → List ℕ → Bool
one_of i [] = false
one_of i (x ∷ xs) = i == x || one_of i xs

unfoldable pub sync_xreg_call : ℕ → Bool
sync_xreg_call i = one_of i (1 ∷ 2 ∷ 10 ∷ 11 ∷ 12 ∷ 13 ∷ 14 ∷ 15 ∷ 16 ∷ 17 ∷ [])

unfoldable pub sync_freg_call : ℕ → Bool
sync_freg_call i = one_of i (10 ∷ 11 ∷ 12 ∷ 13 ∷ 14 ∷ 15 ∷ 16 ∷ 17 ∷ [])

unfoldable pub sync_xreg_ret : ℕ → Bool
sync_xreg_ret i = one_of i (10 ∷ 11 ∷ [])

unfoldable pub sync_freg_ret : ℕ → Bool
sync_freg_ret i = one_of i (10 ∷ 11 ∷ [])

-- `none` is the failed assertion that the point is a call or a return, and not both.
unfoldable pub sync_reg : ℕ → ℕ → Option Bool
sync_reg i flags =
    let at_call = if has flags s_xreg then sync_xreg_call i else sync_freg_call i in
    let at_ret = if has flags s_xreg then sync_xreg_ret i else sync_freg_ret i in
    let is_call = has flags s_call || has flags s_func_start in
    let is_ret = has flags s_call_returned || has flags s_func_return in
    if has flags s_abi
    then if is_call
      then if is_ret then none else some at_call
      else if is_ret
      then some at_ret
      else none
    else if has flags s_ret_regs_only
    then some at_ret
    else some true

-- One of the loops over the registers: those that `test` tells to copy, `n` from `i` on.
unfoldable pub regs_from : (ℕ → Option Bool) → ℕ → ℕ → Option (List ℕ)
regs_from test zero i = some []
regs_from test (suc n) i = elim (test i) [
  | none ↦ none
  | some b ↦ elim (regs_from test n (suc i)) [
    | none ↦ none
    | some is ↦ some (if b then i ∷ is else is)
  ]
]

pub record Copies : Type 0 where
  pub x_regs : List ℕ
  pub f_regs : List ℕ

-- The options in use: `regs` and `syncFRegs`.
pub record Options : Type 0 where
  pub regs : Regs
  pub sync_fregs : Bool

both : Option (List ℕ) → Option (List ℕ) → Option Copies
both none fs = none
both (some xs) none = none
both (some xs) (some fs) = some (record { x_regs = xs; f_regs = fs })

sync_registers : Bool → ℕ → Option Copies
unfolding sync_reg regs_from both
sync_registers fregs flags =
    both (regs_from (λ i. sync_reg i (bit_or flags s_xreg)) 31 1)
      (if fregs then regs_from (λ i. sync_reg i flags) 32 0 else some [])

load_registers_of : Regs → Bool → ℕ → Option Copies
unfolding sync_registers
load_registers_of globals fregs flags = some (record { x_regs = []; f_regs = [] })
load_registers_of locals fregs flags = sync_registers fregs (bit_or flags s_load)
load_registers_of abi fregs flags = sync_registers fregs (bit_or (bit_or flags s_load) s_abi)

unfoldable pub load_registers : Options → ℕ → Option Copies
unfolding load_registers_of
load_registers o flags = load_registers_of o.regs o.sync_fregs flags

store_registers_of : Regs → Bool → ℕ → Option Copies
unfolding sync_registers
store_registers_of globals fregs flags = some (record { x_regs = []; f_regs = [] })
store_registers_of locals fregs flags = sync_registers fregs flags
store_registers_of abi fregs flags = sync_registers fregs (bit_or flags s_abi)

unfoldable pub store_registers : Options → ℕ → Option Copies
unfolding store_registers_of
store_registers o flags = store_registers_of o.regs o.sync_fregs flags

-- A register file, local or global, and the run of the copies from one to another.
pub record File : Type 0 where
  pub x : ℕ → ℕ
  pub f : ℕ → ℕ

unfoldable pub copy_all : List ℕ → (ℕ → ℕ) → (ℕ → ℕ) → ℕ → ℕ
copy_all [] src dst = dst
copy_all (i ∷ is) src dst = copy_all is src (update dst i (src i))

unfoldable pub copy_file : Copies → File → File → File
unfolding copy_all
copy_file c src dst = record {
  x = copy_all c.x_regs src.x dst.x;
  f = copy_all c.f_regs src.f dst.f;
}

-- A call, from the caller's registers: `handleCall` stores them, and `start` of the callee, whose
-- variables hold `fresh`, loads its own. The callee's registers, and the globals.
unfoldable pub enter_callee : Options → File → File → File → Option (File × File)
unfolding copy_file
enter_callee o caller global fresh = elim (store_registers o s_call) [
  | none ↦ none
  | some out ↦ elim (load_registers o s_func_start) [
    | none ↦ none
    | some inn ↦
        let global' = copy_file out caller global in some (copy_file inn global' fresh, global')
  ]
]

-- The return: `freturn` of the callee stores its registers, and `handleCall` loads the caller's.
unfoldable pub leave_callee : Options → File → File → File → Option (File × File)
unfolding copy_file
leave_callee o callee global caller = elim (store_registers o s_func_return) [
  | none ↦ none
  | some out ↦ elim (load_registers o s_call_returned) [
    | none ↦ none
    | some inn ↦
        let global' = copy_file out callee global in some (copy_file inn global' caller, global')
  ]
]
