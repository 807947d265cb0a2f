-- ===== src/Tests/SectionTests.antt =====
-- The switch between the functions of a section, on small inputs.
use riscv_sbt.Prelude.{
  ℕ, ◌%◌, ◌≡◌, ◌≢◌, refl, inl, List, [], ◌∷◌, Option, none, some, arith, false, ◌==◌, if◌then◌else◌,
}
use riscv_sbt.Sbt.Map.{lookup, upsert}
use riscv_sbt.Sbt.Section.Switch.{State, Piece, translate_func}
use riscv_sbt.Sbt.Section.Switch.Laws.{
  Entry, IsComplete, Tiles, has_start, translate_func-IsComplete, translate_func_misses,
}

-- The instruction at 0 calls the function at 16, that at 4 the function at 8.
abbrev calls : ℕ → Option ℕ
calls a = if a == 0 then some 16 else if a == 4 then some 8 else none

calls-targets : (a t : ℕ) → calls a ≡ some t → (t % 4 ≡ 0) × (t ≢ a)
calls-targets a t h = (ground arith, λ e. ground arith)

abbrev fresh_state : State
fresh_state = record { funcs = []; next_func = 0; addr = 0 }

fresh_state-Entry : Entry 0 fresh_state
unfolding lookup
fresh_state-Entry = record {
  sorted = tt;
  aligned = λ k known. cc;
  st_aligned = refl;
  not_past = omega arith;
  fresh = inl (omega arith);
  real = λ lt. absurd (omega arith);
}

three_pieces :
    translate_func calls 9 8 0 fresh_state
    ≡ some (
        record { start = 0; end = 8 }
        ∷ record { start = 8; end = 16 }
        ∷ record { start = 16; end = 32 }
        ∷ [])
unfolding translate_func lookup upsert
three_pieces = refl

translate_func-IsComplete_example :
    (ps : List Piece) × (translate_func calls 9 8 0 fresh_state ≡ some ps)
    × IsComplete calls calls-targets 0 32 fresh_state ps
translate_func-IsComplete_example =
    translate_func-IsComplete calls calls-targets 9 8 0 fresh_state (omega arith) fresh_state-Entry

-- Functions at 16 and 24 are known when the translation, at 12, comes to that at 16.
abbrev called_state : State
called_state = record {
  funcs = record { key = 16; val = tt } ∷ record { key = 24; val = tt } ∷ [];
  next_func = 16;
  addr = 12;
}

called_state_knows : lookup called_state.funcs 24 ≡ some tt
unfolding lookup
called_state_knows = refl

translate_func_misses_example :
    (ps : List Piece) × (translate_func (λ a. none) 6 5 16 called_state ≡ some ps)
    × Tiles 16 36 ps
    × (has_start 24 ps ≡ false)
translate_func_misses_example =
    translate_func_misses (λ a. none) (λ a. refl) 5 4 16 24 called_state (omega arith) (omega arith)
      refl called_state_knows (omega arith) (omega arith)
