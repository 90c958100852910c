-- ===== src/Examples.antt =====
-- A small program and its runs: the inputs at which the theorems about internal/cek are used.
pub mod Laws
pub mod Parts
pub mod Trees
pub mod Golden
pub mod Messages
pub mod Addresses
pub mod Door
pub mod Frames
pub mod Parked
use regel.Base.{
  ℕ, zero, suc, ◌≡◌, ◌≢◌, refl, ap, ◌+◌, Bool, true, false, Option, none, some, List, [], ◌∷◌, ◌++◌,
  Str, codes, str_eq, str_eq→eq, is_empty, Bool-cases, inl, inr, arith, if◌then◌else◌, map, length,
  get_elem?, ltb, ◌==◌, ◌<◌, ◌^◌, not, ◌%◌,
}
use regel.Base.Int.{ℤ, pos, negsuc, ◌-ℤ◌, ◌+ℤ◌, neg}
use regel.Rast.{Kind, Node, Nodes, node, nil, cons, kids}
use regel.Rast.Fits.{fits}
use regel.Cek.Value.{
  Value, Heap, record_obj, empty_record, record_get, record_set, is_nan, ClosureObj, env_obj,
}
use regel.Cek.Coerce.{Floats, nan, to_uint32}
use regel.Cek.Machine.{
  Machine, Frame, FrameKind, Interp, Mode, Meter, fuel_meter, governor_meter, Tier, Principal,
  zero_frame, SigKind, Signal, navigate, State, ParkKind, snapshot, Condition, parked, absent_node,
  child,
}
use regel.Cek.Eval.{eval_step, eval_node}
use regel.Cek.Run.{
  Run, run, turn, tick, rebind, ended, unfinished, crashed, dispatch, park_meter, park_kind_of,
  breach_class, restarts,
}
use regel.Cek.Resume.{
  RunReq, Delivery, live, new_machine, resume, is_abort, seed, start_meter, or_default, kept_budget,
}
use regel.Cek.Coherence.{LoadsFit, Coherent, FramesOk, none_left, plain, caller, bottom, Keeps}
use regel.Cek.Coherence.Turn.{turn-Keeps, run-RunOk, RunOk}
use regel.Cek.Coherence.Rebind.{rebind-strip, strip, strip_state, Live}
use regel.Cek.Coherence.Start.{new_machine-Coherent, Stored, first, Stored-resumes}
use regel.Cek.Coherence.Meters.{
  ShowsFuel, ShowsCount, is_unfinished, run-fuel, run-fuel_bound, run-governor_bound,
}

abbrev pub floats : Floats
floats = record {
  add = λ a b. a;
  sub = λ a b. a;
  mul = λ a b. a;
  div = λ a b. a;
  mod_f64 = λ a b. a;
  pow = λ a b. a;
  lt = λ a b. false;
  of_int = λ z. 0;
  trunc = λ w. pos w;
  parse = λ s. none;
  format = λ w. [];
  runes = λ s. [];
}

-- `typeof 1`, and a loop without end.
abbrev pub one : Node
one = node Kind.num [] 0x3ff0_0000_0000_0000 [] nil

abbrev pub typeof_one : Node
typeof_one = node Kind.typeof [] 0 [] (cons one nil)

abbrev pub load_demo : Str → Option Node
load_demo d = if str_eq d (codes "demo") then some typeof_one else none

abbrev pub demo : Interp
demo = record {
  load = load_demo;
  native = λ h. none;
  effect_class = λ h. [];
  skip_conformance = false;
  late = λ n. false;
  floats = floats;
}

at_demo :
    (root : Node) (d : Str)
    → str_eq d (codes "demo") ≡ true
    → some typeof_one ≡ some root
    → (fits root ≡ true) × (is_empty d ≡ false)
unfolding fits is_empty
at_demo root d t e = (rw⁻¹ (some_inj e) refl, rw (str_eq→eq d (codes "demo") t) refl)
  where
    some_inj : some typeof_one ≡ some root → typeof_one ≡ root
    some_inj q = ap (λ o. elim o [ none ↦ root | some x ↦ x ]) q

pub demo-LoadsFit : LoadsFit demo
demo-LoadsFit d root e = elim (Bool-cases (str_eq d (codes "demo"))) [
  | inl t ↦ at_demo root d t (rw t at e)
  | inr t ↦ absurd (ground (arith, rw t at e))
]

abbrev pub nobody : Principal
nobody = record { subject = []; grants = []; is_operator = false }

abbrev request : ℤ → Tier → RunReq
request fuel t = record {
  def_hash = codes "demo";
  args = [];
  tier = t;
  fuel = fuel;
  alloc = pos 1000;
  gov_ceiling = pos 1;
  principal = nobody;
  root_env = none;
  heap = [];
}

abbrev start : ℤ → Tier → Machine
start fuel t = seed (request fuel t) typeof_one typeof_one [] none []

starts : (fuel : ℤ) (t : Tier) → new_machine demo (request fuel t) ≡ live (start fuel t)
unfolding new_machine str_eq
starts fuel t = refl

new_machine-Coherent_example : Coherent demo (start (pos 5) Tier.sandbox)
new_machine-Coherent_example =
    new_machine-Coherent demo (request (pos 5) Tier.sandbox) (start (pos 5) Tier.sandbox)
      demo-LoadsFit (starts (pos 5) Tier.sandbox)

pub start-Coherent : (fuel : ℤ) (t : Tier) → Coherent demo (start fuel t)
start-Coherent fuel t =
    new_machine-Coherent demo (request fuel t) (start fuel t) demo-LoadsFit (starts fuel t)

abbrev pub five : Machine
five = start (pos 5) Tier.sandbox

turn-Keeps_example : Keeps demo (tick demo five.meter).meter (turn demo five)
turn-Keeps_example = turn-Keeps demo five demo-LoadsFit (start-Coherent (pos 5) Tier.sandbox)

run-RunOk_example : RunOk demo (run demo 3 five)
run-RunOk_example = run-RunOk demo 3 five demo-LoadsFit (start-Coherent (pos 5) Tier.sandbox)

shows_five : ShowsFuel five.meter 5
unfolding seed start_meter or_default
shows_five = refl

run-fuel_bound_example : is_unfinished (run demo 6 five) ≡ false
run-fuel_bound_example =
    run-fuel_bound demo demo-LoadsFit 5 five (start-Coherent (pos 5) Tier.sandbox) shows_five

machine_of : Run → Machine
machine_of (ended o m) = m
machine_of (unfinished m) = m
machine_of crashed = five

state_of : Run → State
state_of (ended (parked st c w) m) = st
state_of r = snapshot five ParkKind.fresh

condition_of : Run → Option Condition
condition_of (ended (parked st c w) m) = c
condition_of r = none

ran_one : run demo 1 five ≡ unfinished (machine_of (run demo 1 five))
unfolding run turn tick dispatch eval_step eval_node seed start_meter or_default machine_of ◌-ℤ◌
    ◌+ℤ◌ neg
ran_one = refl

run-fuel_example : ShowsFuel (machine_of (run demo 1 five)).meter 4
run-fuel_example =
    run-fuel demo demo-LoadsFit 1 4 five (machine_of (run demo 1 five))
      (start-Coherent (pos 5) Tier.sandbox) shows_five ran_one

-- With one step of fuel, the second turn parks.
abbrev short : Machine
short = start (pos 1) Tier.sandbox

stored : Stored demo (state_of (run demo 2 short))
unfolding state_of condition_of machine_of run turn tick dispatch eval_step eval_node seed
    start_meter or_default kept_budget park_meter park_kind_of breach_class restarts ◌-ℤ◌ ◌+ℤ◌ neg
stored =
    first (request (pos 1) Tier.sandbox) 2 short (machine_of (run demo 2 short))
      (state_of (run demo 2 short)) (condition_of (run demo 2 short)) none
      (starts (pos 1) Tier.sandbox) refl

abbrev no_delivery : Delivery
no_delivery = record { restart = none; value = none }

Stored-resumes_example :
    Live demo (resume demo (strip_state (state_of (run demo 2 short))) no_delivery nobody)
Stored-resumes_example =
    Stored-resumes demo (state_of (run demo 2 short)) no_delivery nobody demo-LoadsFit stored
      (unfold is_abort in refl)

abbrev spent : Machine
spent = record five { meter = fuel_meter (pos 0) (pos 1000) }

abbrev governed : Machine
governed = record five { meter = governor_meter 0 1 }

governed-Coherent : Coherent demo governed
governed-Coherent =
    let c = start-Coherent (pos 5) Tier.sandbox in
    record {
      loaded = c.loaded;
      named = c.named;
      metered = refl;
      at_node = c.at_node;
      frames = c.frames;
    }

run-governor_bound_example : is_unfinished (run demo 4096 governed) ≡ false
run-governor_bound_example = run-governor_bound demo demo-LoadsFit 1 governed governed-Coherent refl

-- The frame of `typeof` above the bottom of the run.
abbrev pub typeof_frame : Frame
typeof_frame = record (zero_frame FrameKind.typeof) { node = typeof_one }

abbrev two_frames : List Frame
two_frames = typeof_frame ∷ zero_frame FrameKind.ret ∷ []

two_frames-FramesOk : FramesOk demo typeof_one two_frames
unfolding is_empty navigate
two_frames-FramesOk = plain typeof_one typeof_frame _ refl refl (bottom typeof_one _ refl refl)

rebind-strip_example : rebind demo typeof_one (map strip two_frames) ≡ some two_frames
rebind-strip_example = rebind-strip demo typeof_one two_frames two_frames-FramesOk
