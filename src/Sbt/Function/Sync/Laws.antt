-- ===== src/Sbt/Function/Sync/Laws.antt =====
-- Calls and returns as transfers between the register files of caller and callee.
use Prim.Native.Nat.{bit_or}
use riscv_sbt.Prelude.{
  ℕ, zero, suc, ◌+◌, ◌≡◌, refl, ap, ◌∙◌, arith, Bool, true, false, ◌&&◌, ◌||◌, List, [], ◌∷◌,
  Option, some, ltb, leb, ◌==◌, if◌then◌else◌,
}
use riscv_sbt.Sbt.Ir.{update}
use riscv_sbt.Sbt.Function.Sync.{
  Regs, globals, locals, abi, Options, Copies, File, one_of, sync_reg, sync_registers, regs_from,
  load_registers, store_registers, store_registers_of, load_registers_of, copy_all, copy_file,
  enter_callee, leave_callee, s_call, s_func_start, s_func_return, s_call_returned, sync_xreg_call,
  sync_freg_call, sync_xreg_ret, sync_freg_ret, both,
}

-- The loop over `n` registers from `i` on finds those of them that pass the test.
Finds : Option (List ℕ) → (ℕ → Bool) → Type 0
Finds o t = (is : List ℕ) × (o ≡ some is) × ((j : ℕ) → one_of j is ≡ t j)

regs_from-Finds :
    (test : ℕ → Option Bool) (t : ℕ → Bool)
    → ((i : ℕ) → test i ≡ some (t i))
    → (n i : ℕ) → Finds (regs_from test n i) (λ j. leb i j && (ltb j (i + n) && t j))
unfolding regs_from Finds
regs_from-Finds test t h zero i = ([], refl, λ j. ground arith)
regs_from-Finds test t h (suc n) i =
    let (is, e, f) = regs_from-Finds test t h n (suc i) in
    ((if t i then i ∷ is else is), ground (arith, h i, e), λ j. ground (arith, f j))

copy_all-one_of :
    (is : List ℕ) (src dst : ℕ → ℕ) (j : ℕ)
    → copy_all is src dst j ≡ (if one_of j is then src j else dst j)
unfolding copy_all
copy_all-one_of [] src dst j = refl
copy_all-one_of (i ∷ is) src dst j = ground (arith, copy_all-one_of is src (update dst i (src i)) j)

-- The registers that a synchronisation copies.
Syncs : Option Copies → (ℕ → Bool) → (ℕ → Bool) → Type 0
Syncs o tx tf =
    (c : Copies) × (o ≡ some c)
    × ((j : ℕ) → one_of j c.x_regs ≡ tx j)
    × ((j : ℕ) → one_of j c.f_regs ≡ tf j)

sync_registers-Syncs :
    (fregs : Bool) (flags : ℕ) (tx tf : ℕ → Bool)
    → ((i : ℕ) → sync_reg i (bit_or flags 0x80) ≡ some (tx i))
    → ((i : ℕ) → sync_reg i flags ≡ some (tf i))
    → Syncs
        (sync_registers fregs flags)
        (λ j. leb 1 j && (ltb j 32 && tx j))
        (λ j. fregs && (ltb j 32 && tf j))
unfolding sync_registers Syncs Finds
sync_registers-Syncs true flags tx tf hx hf =
    let (xs, ex, fx) = regs_from-Finds (λ i. sync_reg i (bit_or flags 0x80)) tx hx 31 1 in
    let (fs, ef, ff) = regs_from-Finds (λ i. sync_reg i flags) tf hf 32 0 in
    (
      record { x_regs = xs; f_regs = fs },
      (ap (λ (a : Option (List ℕ)). both a (regs_from (λ i. sync_reg i flags) 32 0)) ex
          ∙ ap (both (some xs)) ef),
      (λ j. fx j),
      (λ j. ground (arith, ff j)),
    )
sync_registers-Syncs false flags tx tf hx hf =
    let (xs, ex, fx) = regs_from-Finds (λ i. sync_reg i (bit_or flags 0x80)) tx hx 31 1 in
    (
      record { x_regs = xs; f_regs = [] },
      ap (λ (a : Option (List ℕ)). both a (some [])) ex,
      (λ j. fx j),
      (λ j. refl),
    )

-- What one file passes to another through the globals.
transfer :
    (a b : Copies) (tx tf : ℕ → Bool) (src mid dst : File)
    → ((j : ℕ) → one_of j a.x_regs ≡ tx j)
    → ((j : ℕ) → one_of j a.f_regs ≡ tf j)
    → ((j : ℕ) → one_of j b.x_regs ≡ tx j)
    → ((j : ℕ) → one_of j b.f_regs ≡ tf j)
    → (j : ℕ)
    → ((copy_file b (copy_file a src mid) dst).x j ≡ (if tx j then src.x j else dst.x j))
      × ((copy_file b (copy_file a src mid) dst).f j ≡ (if tf j then src.f j else dst.f j))
unfolding copy_file
transfer a b tx tf src mid dst ax af bx bf j = (
  ground (
    arith,
    ax j,
    bx j,
    copy_all-one_of b.x_regs (copy_all a.x_regs src.x mid.x) dst.x j,
    copy_all-one_of a.x_regs src.x mid.x j,
  ),
  ground (
    arith,
    af j,
    bf j,
    copy_all-one_of b.f_regs (copy_all a.f_regs src.f mid.f) dst.f j,
    copy_all-one_of a.f_regs src.f mid.f j,
  ),
)

-- The registers that the calling convention passes to a callee, by how registers are kept: all,
-- or `ra`, `sp` and the arguments; and those it passes back.
abbrev pub passes_x : Regs → ℕ → Bool
passes_x globals j = false
passes_x locals j = leb 1 j && ltb j 32
passes_x abi j = j == 1 || (j == 2 || (leb 10 j && leb j 17))

abbrev pub passes_f : Regs → ℕ → Bool
passes_f globals j = false
passes_f locals j = ltb j 32
passes_f abi j = leb 10 j && leb j 17

abbrev pub returns_x : Regs → ℕ → Bool
returns_x globals j = false
returns_x locals j = leb 1 j && ltb j 32
returns_x abi j = leb 10 j && leb j 11

abbrev pub returns_f : Regs → ℕ → Bool
returns_f globals j = false
returns_f locals j = ltb j 32
returns_f abi j = leb 10 j && leb j 11

call_x : (j : ℕ) → (leb 1 j && (ltb j 32 && sync_xreg_call j)) ≡ passes_x abi j
unfolding sync_xreg_call
call_x j = ground arith

call_f : (j : ℕ) → (ltb j 32 && sync_freg_call j) ≡ passes_f abi j
unfolding sync_freg_call
call_f j = ground arith

ret_x : (j : ℕ) → (leb 1 j && (ltb j 32 && sync_xreg_ret j)) ≡ returns_x abi j
unfolding sync_xreg_ret
ret_x j = ground arith

ret_f : (j : ℕ) → (ltb j 32 && sync_freg_ret j) ≡ returns_f abi j
unfolding sync_freg_ret
ret_f j = ground arith

Syncs-map :
    (o : Option Copies) (tx tf ux uf : ℕ → Bool)
    → ((j : ℕ) → tx j ≡ ux j)
    → ((j : ℕ) → tf j ≡ uf j)
    → Syncs o tx tf
    → Syncs o ux uf
unfolding Syncs
Syncs-map o tx tf ux uf hx hf (c, e, fx, ff) = (c, e, (λ j. fx j ∙ hx j), (λ j. ff j ∙ hf j))

none_synced :
    (b : Bool) → Syncs (some (record { x_regs = []; f_regs = [] })) (λ j. false) (λ j. b && false)
unfolding Syncs
none_synced b = (record { x_regs = []; f_regs = [] }, refl, (λ j. refl), (λ j. ground arith))

locals_synced :
    (b : Bool) (flags : ℕ)
    → ((i : ℕ) → sync_reg i (bit_or flags 0x80) ≡ some true)
    → ((i : ℕ) → sync_reg i flags ≡ some true)
    → Syncs (sync_registers b flags) (λ j. leb 1 j && ltb j 32) (λ j. b && ltb j 32)
locals_synced b flags hx hf =
    Syncs-map _ _ _ _ _ (λ j. ground arith) (λ j. ground arith)
      (sync_registers-Syncs b flags (λ i. true) (λ i. true) hx hf)

abi_called :
    (b : Bool) (flags : ℕ)
    → ((i : ℕ) → sync_reg i (bit_or flags 0x80) ≡ some (sync_xreg_call i))
    → ((i : ℕ) → sync_reg i flags ≡ some (sync_freg_call i))
    → Syncs (sync_registers b flags) (passes_x abi) (λ j. b && passes_f abi j)
abi_called b flags hx hf =
    Syncs-map _ _ _ _ _ call_x (λ j. ap (λ (t : Bool). b && t) (call_f j))
      (sync_registers-Syncs b flags sync_xreg_call sync_freg_call hx hf)

abi_returned :
    (b : Bool) (flags : ℕ)
    → ((i : ℕ) → sync_reg i (bit_or flags 0x80) ≡ some (sync_xreg_ret i))
    → ((i : ℕ) → sync_reg i flags ≡ some (sync_freg_ret i))
    → Syncs (sync_registers b flags) (returns_x abi) (λ j. b && returns_f abi j)
abi_returned b flags hx hf =
    Syncs-map _ _ _ _ _ ret_x (λ j. ap (λ (t : Bool). b && t) (ret_f j))
      (sync_registers-Syncs b flags sync_xreg_ret sync_freg_ret hx hf)

-- The four points of synchronisation.
store_call :
    (r : Regs) (b : Bool)
    → Syncs (store_registers_of r b s_call) (passes_x r) (λ j. b && passes_f r j)
unfolding store_registers_of
store_call globals b = none_synced b
store_call locals b = locals_synced b s_call (λ i. refl) (λ i. refl)
store_call abi b = abi_called b (bit_or s_call 0x20) (λ i. refl) (λ i. refl)

load_start :
    (r : Regs) (b : Bool)
    → Syncs (load_registers_of r b s_func_start) (passes_x r) (λ j. b && passes_f r j)
unfolding load_registers_of
load_start globals b = none_synced b
load_start locals b = locals_synced b (bit_or s_func_start 0x10) (λ i. refl) (λ i. refl)
load_start abi b = abi_called b (bit_or (bit_or s_func_start 0x10) 0x20) (λ i. refl) (λ i. refl)

store_return :
    (r : Regs) (b : Bool)
    → Syncs (store_registers_of r b s_func_return) (returns_x r) (λ j. b && returns_f r j)
unfolding store_registers_of
store_return globals b = none_synced b
store_return locals b = locals_synced b s_func_return (λ i. refl) (λ i. refl)
store_return abi b = abi_returned b (bit_or s_func_return 0x20) (λ i. refl) (λ i. refl)

load_returned :
    (r : Regs) (b : Bool)
    → Syncs (load_registers_of r b s_call_returned) (returns_x r) (λ j. b && returns_f r j)
unfolding load_registers_of
load_returned globals b = none_synced b
load_returned locals b = locals_synced b (bit_or s_call_returned 0x10) (λ i. refl) (λ i. refl)
load_returned abi b =
    abi_returned b (bit_or (bit_or s_call_returned 0x10) 0x20) (λ i. refl) (λ i. refl)

-- A call passes to the callee, through the global registers, what the calling convention says: all
-- registers where the locals are kept in step, `ra`, `sp` and the arguments with the ABI option,
-- and nothing where there are no locals. The other variables of the callee hold what they held, the
-- float registers are left out if they are not synchronised, and no assertion fails.
pub enter_callee-passes :
    (o : Options) (caller global fresh : File)
    → (callee : File) × (global' : File) × (enter_callee o caller global fresh
        ≡ some (callee, global'))
      × ((j : ℕ) → callee.x j ≡ (if passes_x o.regs j then caller.x j else fresh.x j))
      × ((j : ℕ)
          → callee.f j ≡ (if o.sync_fregs && passes_f o.regs j then caller.f j else fresh.f j))
unfolding enter_callee Syncs store_registers load_registers
enter_callee-passes o caller global fresh =
    let (a, ea, ax, af) = store_call o.regs o.sync_fregs in
    let (b, eb, bx, bf) = load_start o.regs o.sync_fregs in
    let moved =
      transfer a b (passes_x o.regs) (λ j. o.sync_fregs && passes_f o.regs j) caller global fresh ax
        af bx bf in
    (
      copy_file b (copy_file a caller global) fresh,
      copy_file a caller global,
      ground (arith, ea, eb),
      (λ j. (moved j).0),
      (λ j. (moved j).1),
    )

-- A return passes back to the caller all registers, the two that hold results with the ABI option,
-- or nothing, by the same ways; the caller's other registers are as they were before the call.
pub leave_callee-returns :
    (o : Options) (callee global caller : File)
    → (caller' : File) × (global' : File) × (leave_callee o callee global caller
        ≡ some (caller', global'))
      × ((j : ℕ) → caller'.x j ≡ (if returns_x o.regs j then callee.x j else caller.x j))
      × ((j : ℕ)
          → caller'.f j ≡ (if o.sync_fregs && returns_f o.regs j then callee.f j else caller.f j))
unfolding leave_callee Syncs store_registers load_registers
leave_callee-returns o callee global caller =
    let (a, ea, ax, af) = store_return o.regs o.sync_fregs in
    let (b, eb, bx, bf) = load_returned o.regs o.sync_fregs in
    let moved =
      transfer a b (returns_x o.regs) (λ j. o.sync_fregs && returns_f o.regs j) callee global caller
        ax af bx bf in
    (
      copy_file b (copy_file a callee global) caller,
      copy_file a callee global,
      ground (arith, ea, eb),
      (λ j. (moved j).0),
      (λ j. (moved j).1),
    )
