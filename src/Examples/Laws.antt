-- ===== src/Examples/Laws.antt =====
-- Inputs for the theorems on signals, calls, environments, records and equality.
use mathlib.Core.List.{reverse}
use regel.Base.{
  get_elem?, ◌++◌, ◌≡◌, ◌≢◌, refl, sym, ap, ◌∙◌, arith, is_empty, false, none, some, List, [], ◌∷◌,
  codes, str_eq, if◌then◌else◌,
}
use regel.Rast.{Kind, Node, node, nil, cons, kind}
use regel.Cek.Value.{
  Value, Heap, ClosureObj, env_obj, RecordObj, empty_record, record_get, record_set,
}
use regel.Cek.Machine.{
  Machine, Frame, FrameKind, Step, next, Mode, SigKind, Signal, zero_frame, navigate,
}
use regel.Cek.Env.{lookup, assign, find_slot, env_at, as_env, chain_fuel, push_env}
use regel.Cek.Control.{trigger_finally}
use regel.Cek.Call.{enter}
use regel.Cek.Run.{dispatch}
use regel.Cek.Resume.{seed}
use regel.Cek.Unwind.{is_return}
use regel.Cek.Bind.{bind_params, bind_param_list, close_over}
use regel.Cek.Eval.{eval_do_while}
use regel.Cek.Records.{RecordOk, record_get-record_set, record_set-RecordOk}
use regel.Cek.Signals.{Steps, Unwound, throw_reaches, finally_resumes}
use regel.Cek.Slots.{lookup-assign}
use regel.Cek.Aliasing.{lookup-assign_other}
use regel.Cek.Chains.{Chain, link, along, lookup-along}
use regel.Cek.Calls.{Returned, call_returns, eval_do_while-path}
use regel.Examples.{load_demo, demo, five, one, typeof_frame}

-- A throw over two frames that do not handle it, with a catch below.
abbrev catch_below : List Frame
catch_below = zero_frame FrameKind.catch ∷ zero_frame FrameKind.ret ∷ []

abbrev thrown : Machine
thrown = record five {
  mode = Mode.unwind;
  sig = record { kind = SigKind.throw; val = Value.str (codes "boom") };
  kont = typeof_frame ∷ zero_frame FrameKind.while_loop ∷ catch_below;
}

throw_reaches_example : (m' : Machine) × Steps demo thrown m' × Unwound thrown catch_below m'
throw_reaches_example =
    throw_reaches demo (typeof_frame ∷ zero_frame FrameKind.while_loop ∷ []) catch_below thrown refl
      refl refl refl

-- `try { } finally 1`, entered by a throw.
abbrev try_node : Node
try_node = node Kind.try_stmt [] 0 [] (cons one (cons one (cons one nil)))

abbrev finally_frame : Frame
finally_frame = record (zero_frame FrameKind.finally) { node = try_node }

abbrev pending : Signal
pending = record { kind = SigKind.throw; val = Value.null }

machine_of : Step → Machine
machine_of (next m) = m
machine_of s = five

abbrev triggered : Machine
triggered = machine_of (trigger_finally finally_frame [] (some pending) five)

finally_resumes_example :
    dispatch demo Mode.apply (record triggered { mode = Mode.apply })
    ≡ next (record triggered { kont = []; sig = pending; mode = Mode.unwind })
finally_resumes_example =
    finally_resumes demo finally_frame [] pending five triggered
      (record triggered { mode = Mode.apply }) (unfold trigger_finally machine_of in refl) refl refl

-- A function without parameters, called from the demo.
abbrev function : Node
function =
    node Kind.func [] 0 [] (cons (node Kind.list [] 0 [] nil) (cons one (cons one (cons one nil))))

abbrev closure : ClosureObj
closure = record { def_hash = codes "f"; path = []; env = none }

abbrev entered : Machine
entered =
    machine_of
      (enter demo typeof_frame (zero_frame FrameKind.ret ∷ []) five closure function function [])

five-loads : (load_demo five.def_hash ≡ some five.root) × (is_empty five.def_hash ≡ false)
unfolding seed str_eq is_empty
five-loads = (refl, refl)

enters :
    enter demo typeof_frame (zero_frame FrameKind.ret ∷ []) five closure function function []
    ≡ next entered
unfolding enter bind_params bind_param_list close_over machine_of
enters = refl

abbrev returning : Machine
returning = record entered { sig = record { kind = SigKind.return; val = Value.null } }

call_returns_example :
    (m3 : Machine) × (dispatch demo Mode.apply returning
      ≡ next (record m3 { mode = Mode.apply; val = returning.val }))
    × (dispatch demo Mode.unwind returning ≡ (
        if is_return returning.sig.kind
        then next (record m3 { mode = Mode.apply; val = returning.sig.val })
        else next (record m3 { mode = Mode.unwind })))
    × (m3.sig ≡ returning.sig)
    × Returned five (zero_frame FrameKind.ret ∷ []) returning.heap m3
call_returns_example =
    call_returns demo typeof_frame (zero_frame FrameKind.ret) [] five entered returning closure
      function function [] five-loads.0 five-loads.1 enters refl

abbrev record_a : RecordObj
record_a = record_set empty_record (codes "a") Value.null

record_get-record_set_example :
    record_get (record_set empty_record (codes "a") Value.null) (codes "b") ≡ (
      if str_eq (codes "a") (codes "b")
      then some Value.null
      else record_get empty_record (codes "b"))
record_get-record_set_example =
    record_get-record_set empty_record (codes "b") (codes "a") Value.null

empty-RecordOk : RecordOk empty_record
unfolding record_get
empty-RecordOk = (λ k. refl, refl)

record_set-RecordOk_example : RecordOk record_a
record_set-RecordOk_example = record_set-RecordOk empty_record (codes "a") Value.null empty-RecordOk

-- One environment with two slots.
abbrev two_slots : Heap
two_slots = env_obj none (Value.null ∷ Value.bool 1 ∷ []) ∷ []

two_slots-value : lookup two_slots (some 0) 1 ≡ some Value.null
unfolding lookup find_slot env_at as_env
two_slots-value = refl

lookup-assign_example :
    lookup (assign two_slots (some 0) 1 (Value.bool 0)) (some 0) 1 ≡ some (Value.bool 0)
lookup-assign_example = lookup-assign two_slots (some 0) 1 (Value.bool 0) Value.null two_slots-value

two_slots-apart :
    find_slot (chain_fuel two_slots 0) two_slots (some 0) 0
    ≢ find_slot (chain_fuel two_slots 1) two_slots (some 0) 1
unfolding find_slot env_at as_env
two_slots-apart r = absurd (ground arith)

lookup-assign_other_example :
    lookup (assign two_slots (some 0) 0 Value.null) (some 0) 1 ≡ lookup two_slots (some 0) 1
lookup-assign_other_example =
    lookup-assign_other two_slots (some 0) (some 0) 0 1 Value.null two_slots-apart

two_slots-Chain : Chain two_slots (some 0)
unfolding env_at as_env
two_slots-Chain = link 0 _ refl refl Chain.root

lookup-along_example :
    (lookup two_slots (some 0) 1 ≡ get_elem? (along two_slots-Chain) 1)
    × (lookup (push_env two_slots (some 0) (Value.null ∷ [])) (some 1) 1
        ≡ get_elem? (reverse (Value.null ∷ []) ++ along two_slots-Chain) 1)
lookup-along_example = lookup-along two_slots (some 0) (Value.null ∷ []) 1 two_slots-Chain

-- `do 1 while (1)` as a whole definition.
abbrev do_while : Node
do_while = node Kind.do_while [] 0 [] (cons one (cons one nil))

abbrev at_loop : Machine
at_loop = record five { root = do_while; node = do_while; path = [] }

abbrev in_body : Machine
in_body = machine_of (eval_do_while at_loop)

moved : one ≢ do_while
moved e = ground (arith, ap kind e)

enters_body : eval_do_while at_loop ≡ next in_body
unfolding eval_do_while machine_of
enters_body = refl

body_node : in_body.node ≡ one
unfolding eval_do_while machine_of
body_node = refl

at_root : navigate do_while [] ≡ some do_while
unfolding navigate
at_root = refl

eval_do_while-path_example : navigate in_body.root in_body.path ≢ some in_body.node
eval_do_while-path_example =
    eval_do_while-path at_loop in_body at_root enters_body (λ e. moved (sym body_node ∙ e))
