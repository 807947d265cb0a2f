-- ===== src/Sbt/Ir.antt =====
-- The calls of `llvm::IRBuilder` that sbt/Builder.h makes, as data: the IR that the translator
-- emits. LLVM itself is not part of the repository: what an emitted call does when the code runs
-- is the parameter `Llvm`, and `LangRef` names what the translator relies on.
pub mod LangRef
use Prim.Native.Nat.{bit_and, bit_or, bit_xor}
use riscv_sbt.Prelude.{
  ℕ, suc, ◌+◌, ◌-◌, ◌*◌, ◌/◌, ◌%◌, ◌^◌, ◌<◌, ◌≡◌, ◌≢◌, Bool, true, false, not, List, [], ◌∷◌, ◌++◌,
  Option, none, some, ltb, ◌==◌, if◌then◌else◌,
}

-- What a pointer points to: an integer or a floating point number, of a width.
pub data Pointee : Type 0 where
  int_of : ℕ → Pointee
  float_of : ℕ → Pointee

-- An `llvm::Value`: a `ConstantInt`, a constant expression over the address of a symbol, or the
-- result of an earlier instruction, an integer or a floating point number by its pattern, or a
-- pointer of 32 bits. All carry their type.
pub data Value : Type 0 where
  const : ℕ → ℕ → Value
  symbol : ℕ → ℕ → Value
  tmp : ℕ → ℕ → Value
  float_tmp : ℕ → ℕ → Value
  pointer_tmp : Pointee → ℕ → Value

abbrev pub bits : Value → ℕ
bits (const w v) = w
bits (symbol w v) = w
bits (tmp w i) = w
bits (float_tmp w i) = w
bits (pointer_tmp p i) = 32

pub data BinOp : Type 0 where
  add sub mul sdiv udiv srem urem shl lshr ashr and or xor : BinOp

pub data Pred : Type 0 where
  eq ne ult slt sge uge : Pred

pub data CastOp : Type 0 where
  sext zext trunc : CastOp

-- The floating point instructions and intrinsics, and the conversions.
pub data FUnary : Type 0 where
  fneg fabs sqrt : FUnary

pub data FBinary : Type 0 where
  fadd fsub fmul fdiv minnum maxnum copysign : FBinary

pub data FPred : Type 0 where
  oeq ole olt : FPred

pub data FCast : Type 0 where
  fpext fptrunc sitofp uitofp fptosi fptoui : FCast

-- The functions of the runtime that read the counters.
pub data Counter : Type 0 where
  get_cycles get_time get_instret : Counter

-- One emitted instruction; a result is written to the temporary named first.
pub data Inst : Type 0 where
  load_reg : ℕ → ℕ → Inst
  store_reg : Value → ℕ → Inst
  binary : ℕ → BinOp → Value → Value → Inst
  neg complement : ℕ → Value → Inst
  icmp : ℕ → Pred → Value → Value → Inst
  cast : ℕ → CastOp → Value → ℕ → Inst
  load : ℕ → Value → ℕ → Inst
  store : Value → Value → Inst
  gep : ℕ → Value → Value → Inst
  pointer_cast : ℕ → Pointee → Value → Inst
  donothing fence : Inst
  -- A floating point register is an alloca of 64 bits; a narrow access goes to its low bits, through
  -- a cast of the pointer.
  fload_reg : ℕ → ℕ → ℕ → Inst
  fstore_reg : Value → ℕ → Inst
  fload : ℕ → Value → ℕ → Inst
  funary : ℕ → FUnary → Value → Inst
  fbinary : ℕ → FBinary → Value → Value → Inst
  fmuladd : ℕ → Value → Value → Value → Inst
  fcmp : ℕ → FPred → Value → Value → Inst
  fcast : ℕ → FCast → Value → ℕ → Inst
  bit_cast : ℕ → Value → Inst
  -- The CSR, the start of the counters, and a call of one.
  load_csr : ℕ → Inst
  store_csr : Value → Inst
  counters_init : Inst
  call_counter : ℕ → Counter → Inst

-- What LLVM's instructions do. `none` is undefined behaviour or poison.
pub record Llvm : Type 0 where
  pub binary : BinOp → ℕ → ℕ → ℕ → Option ℕ
  pub neg : ℕ → ℕ → ℕ
  pub complement : ℕ → ℕ → ℕ
  pub icmp : Pred → ℕ → ℕ → ℕ → Bool
  pub cast : CastOp → ℕ → ℕ → ℕ → ℕ
  pub load : ℕ → (ℕ → ℕ) → ℕ → ℕ
  pub store : ℕ → (ℕ → ℕ) → ℕ → ℕ → ℕ → ℕ
  pub gep : ℕ → ℕ → ℕ
  pub pointer_cast : ℕ → ℕ
  pub funary : FUnary → ℕ → ℕ → ℕ
  pub fbinary : FBinary → ℕ → ℕ → ℕ → ℕ
  pub fmuladd : ℕ → ℕ → ℕ → ℕ → ℕ
  pub fcmp : FPred → ℕ → ℕ → ℕ → Bool
  pub fcast : FCast → ℕ → ℕ → ℕ → Option ℕ
  pub counter : Counter → ℕ

-- The state of the code that runs: the allocas of the guest registers, integer and floating point,
-- the global `rv_fcsr`, the host's memory by bytes, whether the counters were started, and the
-- temporaries.
pub record Machine : Type 0 where
  pub regs : ℕ → ℕ
  pub fregs : ℕ → ℕ
  pub fcsr : ℕ
  pub started : Bool
  pub mem : ℕ → ℕ
  pub temps : ℕ → ℕ

-- A state with some integer registers and memory; the code that reads neither does not see the rest.
abbrev pub machine_with : (ℕ → ℕ) → (ℕ → ℕ) → Machine
machine_with r m = record {
  regs = r;
  fregs = λ i. 0;
  fcsr = 0;
  started = false;
  mem = m;
  temps = λ i. 0;
}

abbrev pub update : (ℕ → ℕ) → ℕ → ℕ → ℕ → ℕ
update f k v j = if j == k then v else f j

abbrev pub eval : Value → (ℕ → ℕ) → ℕ
eval (const w v) t = v
eval (symbol w v) t = v
eval (tmp w i) t = t i
eval (float_tmp w i) t = t i
eval (pointer_tmp p i) t = t i

abbrev pub set_temp : Machine → ℕ → ℕ → Machine
set_temp m d x = record m { temps = update m.temps d x }

abbrev pub set_result : Machine → ℕ → Option ℕ → Option Machine
set_result m d none = none
set_result m d (some x) = some (set_temp m d x)

-- A write of the low bits of a register.
abbrev pub set_low : ℕ → ℕ → ℕ → ℕ
set_low w old v = old / 2 ^ w * 2 ^ w + v

abbrev pub bit_of : Bool → ℕ
bit_of b = if b then 1 else 0

abbrev is_ready : Counter → Bool → Bool
is_ready get_cycles started = true
is_ready get_time started = started
is_ready get_instret started = true

module _ (L : Llvm) where
  abbrev pub exec : Inst → Machine → Option Machine
  exec (load_reg d r) m = some (set_temp m d (m.regs r))
  exec (store_reg v r) m = some (record m { regs = update m.regs r (eval v m.temps) })
  exec (binary d op a b) m = set_result m d (L.binary op (bits a) (eval a m.temps) (eval b m.temps))
  exec (neg d a) m = some (set_temp m d (L.neg (bits a) (eval a m.temps)))
  exec (complement d a) m = some (set_temp m d (L.complement (bits a) (eval a m.temps)))
  exec (icmp d p a b) m =
      some (set_temp m d (bit_of (L.icmp p (bits a) (eval a m.temps) (eval b m.temps))))
  exec (cast d c a w) m = some (set_temp m d (L.cast c (bits a) w (eval a m.temps)))
  exec (load d p w) m = some (set_temp m d (L.load w m.mem (eval p m.temps)))
  exec (store v p) m =
      some (record m { mem = L.store (bits v) m.mem (eval p m.temps) (eval v m.temps) })
  exec (gep d p i) m = some (set_temp m d (L.gep (eval p m.temps) (eval i m.temps)))
  exec (pointer_cast d q p) m = some (set_temp m d (L.pointer_cast (eval p m.temps)))
  exec donothing m = some m
  exec fence m = some m
  exec (fload_reg d r w) m = some (set_temp m d (m.fregs r % 2 ^ w))
  exec (fstore_reg v r) m =
      some (record m { fregs = update m.fregs r (set_low (bits v) (m.fregs r) (eval v m.temps)) })
  exec (fload d p w) m = some (set_temp m d (L.load w m.mem (eval p m.temps)))
  exec (funary d op a) m = some (set_temp m d (L.funary op (bits a) (eval a m.temps)))
  exec (fbinary d op a b) m =
      some (set_temp m d (L.fbinary op (bits a) (eval a m.temps) (eval b m.temps)))
  exec (fmuladd d a b c) m =
      some (set_temp m d (L.fmuladd (bits a) (eval a m.temps) (eval b m.temps) (eval c m.temps)))
  exec (fcmp d p a b) m =
      some (set_temp m d (bit_of (L.fcmp p (bits a) (eval a m.temps) (eval b m.temps))))
  exec (fcast d c a w) m = set_result m d (L.fcast c (bits a) w (eval a m.temps))
  exec (bit_cast d a) m = some (set_temp m d (eval a m.temps))
  exec (load_csr d) m = some (set_temp m d m.fcsr)
  exec (store_csr v) m = some (record m { fcsr = eval v m.temps })
  exec counters_init m = some (record m { started = true })
  -- The time is the number of cycles by a frequency, which is zero before the counters are started.
  exec (call_counter d c) m =
      set_result m d (if is_ready c m.started then some (L.counter c) else none)

  -- Straight-line code runs in order.
  abbrev pub run : List Inst → Machine → Option Machine
  run [] m = some m
  run (i ∷ code) m = elim (exec i m) [ none ↦ none | some m' ↦ run code m' ]

-- `llvm::ConstantExpr`: an operation on constants is carried out when the code is built or linked.
-- It is a `ConstantInt` where no symbol takes part, and no constant where it is poison.
abbrev pub constant : Value → Value → ℕ → Value
constant (const w a) (const v b) x = const w x
constant a b x = symbol (bits a) x

abbrev no_temps : ℕ → ℕ
no_temps i = 0

abbrev pub const_expr : Llvm → BinOp → Value → Value → Option Value
const_expr L op a b = elim (L.binary op (bits a) (eval a no_temps) (eval b no_temps)) [
  | none ↦ none
  | some x ↦ some (constant a b x)
]
