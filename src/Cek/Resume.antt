-- ===== src/Cek/Resume.antt =====
-- Starting and resuming a run: newMachine and Run of internal/cek/machine.go, and resume.go.
use regel.Base.{
  ℕ, ◌*◌, Bool, true, false, not, Option, none, some, List, [], ◌∷◌, length, get_elem?, Str, codes,
  str_eq, if◌then◌else◌,
}
use regel.Base.Int.{ℤ, pos, negsuc, is_zero}
use regel.Rast.{Kind, Node, kids, kind}
use regel.Cek.Value.{
  Value, Heap, RecordObj, empty_record, record_set, record_obj, alloc, Path16, bool_val,
}
use regel.Cek.Coerce.{Floats}
use regel.Cek.Bind.{activation, bad_parameters, activation_crash, bind_params}
use regel.Cek.Machine.{
  Any, nil_any, other, bool_any, float_any, int_any, text_any, big_any, Machine, Frame, FrameKind,
  Outcome, faulted, error, undef, no_signal, navigate, zero_frame, Interp, Mode, ParkKind, Meter,
  fuel_meter, governor_meter, State, Tier, Principal, no_definition, bad_arguments, cannot_rebind,
  absent_node,
}
use regel.Cek.Run.{rebind}

-- `type RestartChoice struct`; the arguments stand in the order in which Go walks the map.
pub record RestartChoice : Type 0 where
  pub name : Str
  pub args : List (Str × Any)

pub record Delivery : Type 0 where
  pub restart : Option RestartChoice
  pub value : Option Value

-- `func anyToValue`
unfoldable pub any_to_value : Floats → Any → Value
any_to_value F nil_any = Value.null
any_to_value F (bool_any b) = bool_val b
any_to_value F (float_any w) = Value.f64 w
any_to_value F (int_any i) = Value.f64 (F.of_int i)
any_to_value F (text_any s) = Value.str s
any_to_value F (big_any z) = Value.bigint z
any_to_value F other = undef

unfoldable pub set_args : Floats → RecordObj → List (Str × Any) → RecordObj
unfolding any_to_value record_set
set_args F r [] = r
set_args F r ((k, v) ∷ args) = set_args F (record_set r k (any_to_value F v)) args

-- `func restartValue`: the record behind the value.
unfoldable pub restart_record : Floats → RestartChoice → RecordObj
unfolding set_args
restart_record F c =
    set_args F (record_set empty_record (codes "restart") (Value.str c.name)) c.args

-- `func toInt64`
unfoldable pub to_int64 : Floats → Any → Option ℤ
to_int64 F (int_any i) = some i
to_int64 F (float_any w) = some (F.trunc w)
to_int64 F v = none

unfoldable pub find_arg : Str → List (Str × Any) → Option Any
find_arg k [] = none
find_arg k ((j, v) ∷ args) = if str_eq j k then some v else find_arg k args

abbrev pub default_fuel_steps : ℤ
default_fuel_steps = pos 100_000

abbrev pub default_fuel_alloc : ℤ
default_fuel_alloc = pos (10 * 1024 * 1024)

abbrev pub default_governor_ceiling : ℕ
default_governor_ceiling = 50_000_000

unfoldable pub is_positive : ℤ → Bool
is_positive (negsuc n) = false
is_positive (pos n) = not (is_zero (pos n))

unfoldable pub granted : Floats → Option RestartChoice → Option ℤ
unfolding find_arg to_int64
granted F none = none
granted F (some c) =
    if str_eq c.name (codes "grant-fuel")
    then (elim (find_arg (codes "fuel") c.args) [ none ↦ none | some v ↦ to_int64 F v ])
    else none

-- `func grantedFuel`
unfoldable pub granted_fuel : Floats → Option RestartChoice → ℤ → ℤ
unfolding granted is_positive
granted_fuel F choice fallback = elim (granted F choice) [
  | some n ↦ n
  | none ↦ if is_positive fallback then fallback else default_fuel_steps
]

-- A machine that is ready to run, an outcome before the first transition, or a nil node in Eval
-- mode, which the first transition reads.
pub data Resumed : Type 0 where
  live : Machine → Resumed
  halted : Outcome → Resumed
  dead : Resumed

unfoldable pub or_absent : Option Node → Node
or_absent none = absent_node
or_absent (some n) = n

-- The machine that `Resume` builds from the state, before a delivery.
unfoldable pub rebuilt : State → Node → Node → List Frame → Principal → Machine
rebuilt st root n kont p = record {
  def_hash = st.def_hash;
  root = root;
  node = n;
  path = st.path;
  env = st.env;
  kont = kont;
  mode = st.mode;
  val = st.val;
  sig = st.sig;
  heap = st.heap;
  principal = p;
  effects = [];
  tier = st.tier;
  transitions = 0;
  fuel_steps = st.fuel_steps;
  fuel_alloc = st.fuel_alloc;
  meter = fuel_meter st.fuel_steps st.fuel_alloc;
}

-- The switch on the park kind: a restart value or a wake value is delivered at the call point.
unfoldable pub deliver_restart : Floats → Option RestartChoice → Machine → Machine
deliver_restart F none m = record m { val = undef; mode = Mode.apply }
deliver_restart F (some c) m = record m {
  val = Value.rec (length m.heap);
  heap = alloc m.heap (record_obj (restart_record F c));
  mode = Mode.apply;
}

unfoldable pub deliver_value : Option Value → Machine → Machine
deliver_value none m = record m { val = undef; mode = Mode.apply }
deliver_value (some v) m = record m { val = v; mode = Mode.apply }

unfoldable pub deliver : Floats → ParkKind → Delivery → Machine → Machine
unfolding deliver_restart deliver_value
deliver F ParkKind.signal d m = deliver_restart F d.restart m
deliver F ParkKind.wake d m = deliver_value d.value m
deliver F pk d m = m

-- The fresh meter of the tier.
unfoldable pub fuelled : Floats → Option RestartChoice → Tier → Machine → Machine
fuelled F choice Tier.trusted m = record m { meter = governor_meter 0 default_governor_ceiling }
fuelled F choice Tier.sandbox m =
    let steps = granted_fuel F choice m.fuel_steps in
    let bytes = if is_zero m.fuel_alloc then default_fuel_alloc else m.fuel_alloc in
    record m { fuel_steps = steps; fuel_alloc = bytes; meter = fuel_meter steps bytes }

unfoldable pub is_abort : Option RestartChoice → Bool
is_abort none = false
is_abort (some c) = str_eq c.name (codes "abort")

unfoldable pub is_eval : Mode → Bool
is_eval Mode.eval = true
is_eval _ = false

unfoldable pub ready :
    Interp → State → Delivery → Principal → Node → List Frame → Option Node → Resumed
unfolding or_absent rebuilt deliver fuelled is_eval
ready I st d p root kont n =
    let m =
      fuelled I.floats d.restart st.tier
        (deliver I.floats st.park_kind d (rebuilt st root (or_absent n) kont p)) in
    elim n [ some c ↦ live m | none ↦ if is_eval m.mode then dead else live m ]

-- `func (in *Interp) Resume`, up to the loop.
unfoldable pub resume : Interp → State → Delivery → Principal → Resumed
unfolding ready is_abort
resume I st d p =
    if is_abort d.restart
    then halted (faulted (Value.str (codes "aborted")))
    else elim (I.load st.def_hash) [
      | none ↦ halted (error (no_definition st.def_hash))
      | some root ↦ elim (rebind I root st.kont) [
        | none ↦ halted (error cannot_rebind)
        | some kont ↦ ready I st d p root kont (navigate root st.path)
      ]
    ]

-- `type RunReq struct`; the wall deadline is the interpreter's clock.
pub record RunReq : Type 0 where
  pub def_hash : Str
  pub args : List Value
  pub tier : Tier
  pub fuel : ℤ
  pub alloc : ℤ
  pub gov_ceiling : ℤ
  pub principal : Principal
  pub root_env : Option ℕ
  pub heap : Heap

unfoldable pub or_default : ℤ → ℤ → ℤ
or_default n d = if is_zero n then d else n

unfoldable pub as_count : ℤ → ℕ
as_count (pos n) = n
as_count (negsuc n) = 0

unfoldable pub start_meter : RunReq → Meter
unfolding or_default as_count
start_meter r = elim r.tier [
  | Tier.trusted ↦
      governor_meter 0 (as_count (or_default r.gov_ceiling (pos default_governor_ceiling)))
  | Tier.sandbox ↦
      fuel_meter (or_default r.fuel default_fuel_steps) (or_default r.alloc default_fuel_alloc)
]

-- The trusted tier has no budget to keep.
unfoldable pub kept_budget : Tier → ℤ → ℤ → ℤ
unfolding or_default
kept_budget Tier.trusted n d = pos 0
kept_budget Tier.sandbox n d = or_default n d

abbrev pub bottom_frame : Frame
bottom_frame = zero_frame FrameKind.ret

unfoldable pub seed : RunReq → Node → Node → Path16 → Option ℕ → Heap → Machine
unfolding start_meter kept_budget
seed r root n p env h = record {
  def_hash = r.def_hash;
  root = root;
  node = n;
  path = p;
  env = env;
  kont = bottom_frame ∷ [];
  mode = Mode.eval;
  val = undef;
  sig = no_signal;
  heap = h;
  principal = r.principal;
  effects = [];
  tier = r.tier;
  transitions = 0;
  fuel_steps = kept_budget r.tier r.fuel default_fuel_steps;
  fuel_alloc = kept_budget r.tier r.alloc default_fuel_alloc;
  meter = start_meter r;
}

unfoldable pub enter_function : Interp → RunReq → Node → Resumed
unfolding seed
enter_function I r root = elim (bind_params I.floats root r.args r.root_env r.heap) [
  | activation_crash ↦ dead
  | bad_parameters ↦ halted (error bad_arguments)
  | activation h a ↦ elim (get_elem? (kids root) 3) [
    | none ↦ dead
    | some body ↦ live (seed r root body (3 ∷ []) (some a) h)
  ]
]

-- `func (in *Interp) newMachine`, with the meter that `Run` builds.
unfoldable pub new_machine : Interp → RunReq → Resumed
unfolding enter_function seed
new_machine I r = elim (I.load r.def_hash) [
  | none ↦ halted (error (no_definition r.def_hash))
  | some root ↦ elim (kind root) [
    | Kind.func ↦ enter_function I r root
    | _ ↦ live (seed r root root [] r.root_env r.heap)
  ]
]
