-- ===== src/Cek/Machine.antt =====
-- internal/cek/{machine,frame,meter,outcome,wake,native}.go: the registers of the machine, its frames,
-- its meters and the ways in which a run stops.
use regel.Base.{
  ℕ, zero, suc, ◌%◌, Bool, Option, none, some, List, [], ◌∷◌, ◌++◌, get_elem?, Str, ◌>>=◌,
}
use regel.Base.Int.{ℤ, pos, negsuc}
use regel.Rast.{Kind, Node, node, nil, kids}
use regel.Cek.Value.{Value, Path16, Heap}
use regel.Cek.Coerce.{Floats}

pub data Mode : Type 0 where
  eval apply unwind : Mode

pub data SigKind : Type 0 where
  throw break continue return : SigKind

pub record Signal : Type 0 where
  pub kind : SigKind
  pub val : Value

pub data ParkKind : Type 0 where
  fuel governor signal wake fresh : ParkKind

pub data FrameKind : Type 0 where
  ret block var_decl expr_stmt branch bin logic unary update cond call member index array :
      FrameKind
  object return throw catch finally for_loop for_of while_loop do_while switch assign : FrameKind
  await template typeof member_assign finally_run : FrameKind

-- `type Frame struct`
pub record Frame : Type 0 where
  pub kind : FrameKind
  pub node : Node
  pub path : Path16
  pub idx : ℤ
  pub vals : List Value
  pub env : Option ℕ
  pub outer_env : Option ℕ
  pub ret_def : Str
  pub ret_path : Path16
  pub ret_env : Option ℕ
  pub aux : ℤ
  pub obj : Value
  pub key : Str
  pub idx_val : Value
  pub pend : Option Signal

pub data Tier : Type 0 where
  sandbox trusted : Tier

-- The two instances of the Meter interface: remaining steps and bytes; or a count and its ceiling.
pub data Meter : Type 0 where
  fuel_meter : ℤ → ℤ → Meter
  governor_meter : ℕ → ℕ → Meter

-- A Go `any`, in a payload or in a restart's arguments.
pub data Any : Type 0 where
  nil_any other : Any
  bool_any : Bool → Any
  float_any : ℕ → Any
  int_any : ℤ → Any
  text_any : Str → Any
  big_any : ℤ → Any

pub record Restart : Type 0 where
  pub name : Str
  pub label : Str
  pub capability_required : Str

pub record Condition : Type 0 where
  pub class : Str
  pub payload : List (Str × Any)
  pub restarts : List Restart

pub data WakeKind : Type 0 where
  timer message join event : WakeKind

pub record WakeMatch : Type 0 where
  pub path : Str
  pub equals : Value
  pub has : Bool

pub record Wake : Type 0 where
  pub kind : WakeKind
  pub delay_ms : ℤ
  pub channel : Str
  pub match : Option WakeMatch
  pub thunks : List Value
  pub quorum : ℤ
  pub race : Bool
  pub stream : Str
  pub on : List Str

-- What a native returns to park a call: a durable condition or a wake.
pub data NativePark : Type 0 where
  on_condition : Condition → NativePark
  on_wake : Wake → NativePark

pub record Effect : Type 0 where
  pub class : Str
  pub payload : List (Str × Any)
  pub val : Value

pub record Principal : Type 0 where
  pub subject : Str
  pub grants : List Str
  pub is_operator : Bool

-- A native reads the host, and may write the heap and record effects.
pub record NativeResult : Type 0 where
  pub val : Value
  pub park : Option NativePark
  pub heap : Heap
  pub effects : List Effect

abbrev pub NativeFn : Type 0
NativeFn = Principal → List Effect → Heap → List Value → NativeResult

-- `type Interp struct` with its registry, the clock that the governor reads (is the deadline past at
-- this count?), and the mutant that the conformance gate asks for.
pub record Interp : Type 0 where
  pub load : Str → Option Node
  pub native : Str → Option NativeFn
  pub effect_class : Str → Str
  pub skip_conformance : Bool
  pub late : ℕ → Bool
  pub floats : Floats

-- `type State struct`. The Go pointers lead into memory, which is the heap here.
-- Go's Kont is innermost last; `kont` has the innermost first, like the machine's.
pub record State : Type 0 where
  pub def_hash : Str
  pub path : Path16
  pub mode : Mode
  pub val : Value
  pub sig : Signal
  pub env : Option ℕ
  pub kont : List Frame
  pub heap : Heap
  pub tier : Tier
  pub fuel_steps : ℤ
  pub fuel_alloc : ℤ
  pub park_kind : ParkKind

-- `type machine struct`, with the meter of the loop and the heap. The top frame comes first.
pub record Machine : Type 0 where
  pub def_hash : Str
  pub root : Node
  pub node : Node
  pub path : Path16
  pub env : Option ℕ
  pub kont : List Frame
  pub mode : Mode
  pub val : Value
  pub sig : Signal
  pub heap : Heap
  pub principal : Principal
  pub effects : List Effect
  pub tier : Tier
  pub transitions : ℕ
  pub fuel_steps : ℤ
  pub fuel_alloc : ℤ
  pub meter : Meter

-- The errors of `fault`.
pub data Fault : Type 0 where
  unbound_local : ℕ → Fault
  free_name : Str → Fault
  bad_pattern bad_operator bad_phase bad_target not_callable bad_arguments : Fault
  no_definition no_callee no_native : Str → Fault
  effect_class_violation : Str → Str → Fault
  stray_break cannot_rebind bad_kind : Fault

pub data Outcome : Type 0 where
  done : Value → Outcome
  parked : State → Option Condition → Option Wake → Outcome
  faulted : Value → Outcome
  error : Fault → Outcome

-- One transition: the machine goes on, the run stops, or Go panics (or a call does not return).
pub data Step : Type 0 where
  next : Machine → Step
  stop : Outcome → Machine → Step
  crash : Step

abbrev pub fault : Fault → Machine → Step
fault x m = stop (error x) m

-- Go's index and type assertion: without the value, the process panics.
abbrev pub need {ℓ} : {A : Type ℓ} → Option A → (A → Step) → Step
need none k = crash
need (some a) k = k a

abbrev pub undef : Value
undef = Value.undefined

abbrev pub no_signal : Signal
no_signal = record { kind = SigKind.throw; val = undef }

abbrev pub absent_node : Node
absent_node = node Kind.absent [] 0 [] nil

-- `&Frame{Kind: kind}`
abbrev pub zero_frame : FrameKind → Frame
zero_frame k = record {
  kind = k;
  node = absent_node;
  path = [];
  idx = pos 0;
  vals = [];
  env = none;
  outer_env = none;
  ret_def = [];
  ret_path = [];
  ret_env = none;
  aux = pos 0;
  obj = undef;
  key = [];
  idx_val = undef;
  pend = none;
}

-- `func (m *machine) newFrame`
abbrev pub new_frame : FrameKind → Machine → Frame
new_frame k m = record (zero_frame k) { node = m.node; path = m.path; env = m.env }

-- `func (p Path) child`: the index is cut to 16 bits.
unfoldable pub child : Path16 → ℕ → Path16
child p i = p ++ ((i % 65536) ∷ [])

-- `func navigate`
unfoldable pub navigate : Node → Path16 → Option Node
navigate n [] = some n
navigate n (i ∷ p) = do c ← get_elem? (kids n) i; navigate c p

-- Set C to a node and its path, in Eval mode.
abbrev pub goto : Machine → Node → Path16 → Machine
goto m n p = record m { node = n; path = p; mode = Mode.eval }

-- `func (m *machine) apply`
abbrev pub apply_val : Machine → Value → Machine
apply_val m v = record m { mode = Mode.apply; val = v }

-- `func (m *machine) raise`
abbrev pub raise : Machine → SigKind → Value → Machine
raise m k v = record m { sig = record { kind = k; val = v }; mode = Mode.unwind }

abbrev pub push : Machine → Frame → Machine
push m f = record m { kont = f ∷ m.kont }

-- `func (m *machine) snapshot`
abbrev pub snapshot : Machine → ParkKind → State
snapshot m pk = record {
  def_hash = m.def_hash;
  path = m.path;
  mode = m.mode;
  val = m.val;
  sig = m.sig;
  env = m.env;
  kont = m.kont;
  heap = m.heap;
  tier = m.tier;
  fuel_steps = m.fuel_steps;
  fuel_alloc = m.fuel_alloc;
  park_kind = pk;
}

-- A cursor of type int into a slice.
abbrev pub incr : ℤ → ℤ
incr (pos n) = pos (suc n)
incr (negsuc zero) = pos 0
incr (negsuc (suc n)) = negsuc n

abbrev pub tail_from {ℓ} : {A : Type ℓ} → ℤ → List A → Option (List A)
tail_from (negsuc n) xs = none
tail_from (pos zero) xs = some xs
tail_from (pos (suc n)) [] = some []
tail_from (pos (suc n)) (x ∷ xs) = tail_from (pos n) xs
