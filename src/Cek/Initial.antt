-- ===== src/Cek/Initial.antt =====
-- `InitialState` of internal/cek/resume.go: the state of a workflow that has not made a step.
use regel.Base.{ℕ, Option, none, some, List, [], ◌∷◌, Str}
use regel.Base.Int.{ℤ}
use regel.Rast.{Kind, Node, kind}
use regel.Cek.Value.{Value, Path16, Heap, ClosureObj}
use regel.Cek.Coerce.{Floats}
use regel.Cek.Bind.{Activation, activation, bad_parameters, activation_crash, bind_params}
use regel.Cek.Machine.{
  State, Interp, Mode, ParkKind, Tier, Fault, no_definition, no_callee, not_callable, bad_arguments,
  undef, no_signal, child, navigate,
}
use regel.Cek.Resume.{bottom_frame}

-- A state, an error, or a Go panic in binding the parameters.
pub data Initial : Type 0 where
  fresh : State → Initial
  refused : Fault → Initial
  broken : Initial

-- `type seed`: the budget and the tier that the state carries.
pub record Budget : Type 0 where
  pub tier : Tier
  pub steps : ℤ
  pub bytes : ℤ

unfoldable pub fresh_state : Budget → Str → Path16 → Option ℕ → Heap → State
fresh_state b d p e h = record {
  def_hash = d;
  path = p;
  mode = Mode.eval;
  val = undef;
  sig = no_signal;
  env = e;
  kont = bottom_frame ∷ [];
  heap = h;
  tier = b.tier;
  fuel_steps = b.steps;
  fuel_alloc = b.bytes;
  park_kind = ParkKind.fresh;
}

-- The body of a function, with its parameters bound.
unfoldable pub fresh_call : Budget → Str → Path16 → Activation → Initial
unfolding fresh_state
fresh_call b d p activation_crash = broken
fresh_call b d p bad_parameters = refused bad_arguments
fresh_call b d p (activation h a) = fresh (fresh_state b d p (some a) h)

unfoldable pub fresh_closure : Floats → Budget → ClosureObj → List Value → Heap → Node → Initial
unfolding fresh_call
fresh_closure F b c args h fn = elim (kind fn) [
  | Kind.func ↦ fresh_call b c.def_hash (child c.path 3) (bind_params F fn args c.env h)
  | _ ↦ refused not_callable
]

unfoldable pub fresh_definition : Floats → Budget → Str → List Value → Heap → Node → Initial
unfolding fresh_call fresh_state
fresh_definition F b d args h root = elim (kind root) [
  | Kind.func ↦ fresh_call b d (3 ∷ []) (bind_params F root args none h)
  | _ ↦ fresh (fresh_state b d [] none h)
]

-- `func (in *Interp) InitialState`
unfoldable pub initial_state :
    Interp → Budget → Str → Option ClosureObj → List Value → Heap → Initial
unfolding fresh_closure fresh_definition
initial_state I b d none args h = elim (I.load d) [
  | none ↦ refused (no_definition d)
  | some root ↦ fresh_definition I.floats b d args h root
]
initial_state I b d (some c) args h = elim (I.load c.def_hash) [
  | none ↦ refused (no_definition c.def_hash)
  | some root ↦ elim (navigate root c.path) [
    | none ↦ refused (no_callee c.def_hash)
    | some fn ↦ fresh_closure I.floats b c args h fn
  ]
]
