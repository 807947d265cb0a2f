-- ===== src/Sbt/Hart.antt =====
-- What the guest sees of the state, and the run of one translated instruction after another.
use riscv_sbt.Prelude.{ℕ, false, Option, none, some}
use riscv_sbt.Sbt.Ir.{Llvm, Machine, run}
use riscv_sbt.Sbt.Builder.{Build, done, failed, aborted, empty}

-- What an instruction leaves for the guest: the registers, the control register, and memory.
pub record Hart : Type 0 where
  pub x : ℕ → ℕ
  pub f : ℕ → ℕ
  pub fcsr : ℕ
  pub mem : ℕ → ℕ

abbrev pub hart : Machine → Hart
hart m = record { x = m.regs; f = m.fregs; fcsr = m.fcsr; mem = m.mem }

abbrev of_machine : Option Machine → Option Hart
of_machine none = none
of_machine (some m) = some (hart m)

-- Translate an instruction and run the code, if the translation succeeds and nothing undefined is
-- met.
abbrev pub step : {A : Type 0} → Llvm → Build A → Machine → Option Hart
step L act m = elim (act empty) [
  | done u b ↦ of_machine (run L b.code m)
  | failed e ↦ none
  | aborted ↦ none
]

-- A second instruction runs where the first one left off.
abbrev pub machine_of : Hart → Machine
machine_of h = record {
  regs = h.x;
  fregs = h.f;
  fcsr = h.fcsr;
  started = false;
  mem = h.mem;
  temps = λ i. 0;
}

abbrev pub step_again : {A : Type 0} → Llvm → Build A → Option Hart → Option Hart
step_again L act none = none
step_again L act (some h) = step L act (machine_of h)
