-- ===== src/Cek/Call.antt =====
-- The calls of internal/cek/apply.go: collecting the callee and the arguments, entering a function,
-- running a native, and returning to the caller.
use regel.Base.{
  zero, ◌%◌, Bool, true, false, not, ◌&&◌, Option, none, some, List, [], ◌∷◌, ◌++◌, length,
  get_elem?, drop, Str, codes, is_empty, str_eq, ltb, ◌==◌, if◌then◌else◌,
}
use regel.Base.Int.{pos}
use regel.Rast.{Kind, Node, kids, kind, word}
use regel.Cek.Value.{Value, Heap, array_at, closure_at, ClosureObj, is_nullish}
use regel.Cek.Bind.{activation, bad_parameters, activation_crash, bind_params}
use regel.Cek.Machine.{
  Machine, Frame, FrameKind, Step, next, stop, crash, fault, parked, need, undef, child, navigate,
  goto, apply_val, snapshot, zero_frame, incr, Interp, Mode, ParkKind, NativePark, on_condition,
  on_wake, NativeResult, Effect, not_callable, bad_arguments, no_definition, no_callee, no_native,
  effect_class_violation,
}
use regel.Cek.Control.{ended, item, outside, cursor, index_of, is_spread}

unfoldable pub reload : Node → Option Node → Node
reload old none = old
reload old (some r) = r

-- `func (m *machine) restoreCaller`; a definition that no longer loads leaves the root as it is.
unfoldable pub restore_caller : Interp → Frame → Machine → Machine
unfolding reload
restore_caller I f m = record m {
  def_hash = f.ret_def;
  root = if is_empty f.ret_def then m.root else reload m.root (I.load f.ret_def);
  env = f.ret_env;
  path = f.ret_path;
}

unfoldable pub class_of : Option Effect → Str
class_of none = []
class_of (some e) = e.class

-- ADR-10 §6: a native declared `read` has recorded no effect, unless the mutant is armed.
unfoldable pub conforms : Interp → Str → Machine → NativeResult → Bool
conforms I hash m r = not (
    str_eq (I.effect_class hash) (codes "read")
    && ltb (length m.effects) (length r.effects)
    && not I.skip_conformance)

-- Both kinds of park re-enter at the call point, in Apply mode, with the call frame popped.
unfoldable pub park_at : Frame → List Frame → Machine → NativePark → Step
park_at f rest m park =
    let m' = record m { kont = rest; path = f.path; mode = Mode.apply; val = undef } in
    elim park [
      | on_wake w ↦ stop (parked (snapshot m' ParkKind.wake) none (some w)) m'
      | on_condition c ↦ stop (parked (snapshot m' ParkKind.signal) (some c) none) m'
    ]

unfoldable pub finish_native : Frame → List Frame → Machine → NativeResult → Step
unfolding park_at
finish_native f rest m r = elim r.park [
  | some park ↦ park_at f rest m park
  | none ↦ next (apply_val (record m { kont = rest }) r.val)
]

-- `func (m *machine) performNative`
unfoldable pub perform_native : Interp → Frame → List Frame → Machine → Str → List Value → Step
unfolding finish_native conforms class_of
perform_native I f rest m hash args = elim (I.native hash) [
  | none ↦ fault (no_native hash) m
  | some fn ↦
      let r = fn m.principal m.effects m.heap args in
      let m' = record m { heap = r.heap; effects = r.effects } in
      if conforms I hash m r
      then finish_native f rest m' r
      else fault (effect_class_violation hash (class_of (get_elem? r.effects (length m.effects))))
          m'
]

-- The activation boundary: a FrRet frame with the caller's context in place of the call frame.
unfoldable pub ret_frame : Frame → Machine → Frame
ret_frame f m = record (zero_frame FrameKind.ret) {
  ret_def = m.def_hash;
  ret_path = f.path;
  ret_env = m.env;
}

unfoldable pub enter :
    Interp → Frame → List Frame → Machine → ClosureObj → Node → Node → List Value → Step
unfolding ret_frame
enter I f rest m clo root fn args = elim (bind_params I.floats fn args clo.env m.heap) [
  | activation_crash ↦ crash
  | bad_parameters ↦ fault bad_arguments m
  | activation h a ↦ need (get_elem? (kids fn) 3) (λ body. next (
      goto
        (record m {
          def_hash = clo.def_hash;
          root = root;
          env = some a;
          heap = h;
          kont = ret_frame f m ∷ rest;
        })
        body (child clo.path 3)))
]

-- The callee's node: a native body or a function.
unfoldable pub invoke :
    Interp → Frame → List Frame → Machine → ClosureObj → Node → Node → List Value → Step
unfolding perform_native enter
invoke I f rest m clo root fn args = elim (kind fn) [
  | Kind.native_body ↦ perform_native I f rest m clo.def_hash args
  | Kind.func ↦ enter I f rest m clo root fn args
  | _ ↦ fault not_callable m
]

unfoldable pub call_closure : Interp → Frame → List Frame → Machine → ClosureObj → List Value → Step
unfolding invoke
call_closure I f rest m clo args = elim (I.load clo.def_hash) [
  | none ↦ fault (no_definition clo.def_hash) m
  | some root ↦ elim (navigate root clo.path) [
    | none ↦ fault (no_callee clo.def_hash) m
    | some fn ↦ invoke I f rest m clo root fn args
  ]
]

-- `func (m *machine) performCall`
unfoldable pub perform_call : Interp → Frame → List Frame → Machine → Step
unfolding call_closure closure_at
perform_call I f rest m = need (get_elem? f.vals 0) λ callee. elim callee [
  | Value.closure a ↦
      need (closure_at m.heap a) (λ clo. call_closure I f rest m clo (drop 1 f.vals))
  | _ ↦ fault not_callable m
]

-- `func (m *machine) argAdvance`
unfoldable pub arg_advance : Interp → Frame → List Frame → Machine → Step
unfolding perform_call
arg_advance I f rest m = need (get_elem? (kids f.node) 1) λ args. elim (cursor f.aux (kids args)) [
  | outside ↦ crash
  | ended ↦ perform_call I f rest m
  | item arg ↦
      if is_spread (kind arg)
      then need (get_elem? (kids arg) 0) (λ inner. next (
          goto (record m { kont = f ∷ rest }) inner
            (child (child (child f.path 1) (index_of f.aux)) 0)))
      else next (goto (record m { kont = f ∷ rest }) arg (child (child f.path 1) (index_of f.aux)))
]

-- An element, or the elements of an array after `...`; any other value spreads to nothing.
unfoldable pub collect : Bool → Heap → Value → List Value → Option (List Value)
collect false h v vals = some (vals ++ (v ∷ []))
collect true h (Value.array a) vals = elim (array_at h a) [
  | none ↦ none
  | some xs ↦ some (vals ++ xs)
]
collect true h v vals = some vals

-- `func (m *machine) callResume`
unfoldable pub call_resume : Interp → Frame → List Frame → Machine → Step
unfolding arg_advance collect
call_resume I f rest m = elim f.idx [
  | pos zero ↦
      if (word f.node % 2 == 1) && is_nullish m.val
      then next (apply_val (record m { kont = rest }) undef)
      else arg_advance I (record f { vals = m.val ∷ []; idx = pos 1; aux = pos 0 }) rest m
  | _ ↦ need (get_elem? (kids f.node) 1) (λ args. elim (cursor f.aux (kids args)) [
    | outside ↦ crash
    | ended ↦ crash
    | item arg ↦
        need (collect (is_spread (kind arg)) m.heap m.val f.vals)
          (λ vals. arg_advance I (record f { vals = vals; aux = incr f.aux }) rest m)
  ])
]
