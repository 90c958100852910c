-- ===== src/Cek/Run.antt =====
-- The loop of internal/cek/machine.go, the meters of meter.go, and the resumption of resume.go.
use regel.Base.{
  ℕ, zero, suc, ◌+◌, ◌%◌, Bool, true, false, not, ◌&&◌, ◌||◌, Option, none, some, List, [], ◌∷◌,
  Str, codes, is_empty, ltb, ◌==◌, if◌then◌else◌, ◌>>=◌,
}
use regel.Base.Int.{pos, ◌-ℤ◌, is_neg}
use regel.Rast.{Node}
use regel.Cek.Machine.{
  text_any, int_any, Machine, Frame, FrameKind, Step, next, stop, crash, Outcome, parked, navigate,
  snapshot, Interp, Mode, ParkKind, Meter, fuel_meter, governor_meter, Restart,
}
use regel.Cek.Eval.{eval_step}
use regel.Cek.Apply.{apply_step}
use regel.Cek.Unwind.{unwind_step}

-- What is left of a meter after `tick`, and its answer.
pub record Ticked : Type 0 where
  pub meter : Meter
  pub go_on : Bool

-- `tick` of fuelMeter and of governorMeter, which looks at every 4096th transition.
unfoldable pub tick : Interp → Meter → Ticked
tick I (fuel_meter steps bytes) =
    let left = steps -ℤ pos 1 in record { meter = fuel_meter left bytes; go_on = not (is_neg left) }
tick I (governor_meter count ceiling) = record {
  meter = governor_meter (count + 1) ceiling;
  go_on = not ((count + 1) % 4096 == 0 && (ltb ceiling (count + 1) || I.late (count + 1)));
}

unfoldable pub restart : Str → Str → Str → Restart
restart n l c = record { name = n; label = l; capability_required = c }

-- `breachClass` and `restarts` of the two meters.
unfoldable pub breach_class : Meter → Str
breach_class (fuel_meter s b) = codes "fuel.exhausted"
breach_class (governor_meter c l) = codes "runaway"

unfoldable pub restarts : Meter → List Restart
unfolding restart
restarts (fuel_meter s b) =
    restart (codes "grant-fuel") (codes "Grant more fuel") (codes "operator")
    ∷ restart (codes "abort") (codes "Abort") []
    ∷ []
restarts (governor_meter c l) =
    restart (codes "abort") (codes "Abort") []
    ∷ restart (codes "grant-time") (codes "Grant more time") (codes "operator")
    ∷ []

unfoldable pub park_kind_of : Meter → ParkKind
park_kind_of (fuel_meter s b) = ParkKind.fuel
park_kind_of (governor_meter c l) = ParkKind.governor

-- `func (m *machine) parkMeter`
unfoldable pub park_meter : Machine → Outcome
unfolding breach_class restarts park_kind_of
park_meter m =
    parked (snapshot m (park_kind_of m.meter))
      (some (record {
        class = breach_class m.meter;
        payload =
            (codes "def", text_any m.def_hash)
            ∷ (codes "transitions", int_any (pos m.transitions))
            ∷ [];
        restarts = restarts m.meter;
      }))
      none

-- The dispatch on the mode.
unfoldable pub dispatch : Interp → Mode → Machine → Step
unfolding eval_step apply_step unwind_step
dispatch I Mode.eval m = eval_step I m
dispatch I Mode.apply m = apply_step I m.kont m
dispatch I Mode.unwind m = unwind_step I m.kont m

-- One turn of the loop: tick, or park; count; dispatch.
unfoldable pub turn : Interp → Machine → Step
unfolding tick dispatch park_meter
turn I m =
    let t = tick I m.meter in
    let m' = record m { meter = t.meter } in
    if t.go_on
    then dispatch I m.mode (record m' { transitions = m.transitions + 1 })
    else stop (park_meter m') m'

-- How a run ends. `unfinished` is the model's own: the turns that were granted are used up.
pub data Run : Type 0 where
  ended : Outcome → Machine → Run
  crashed : Run
  unfinished : Machine → Run

-- `func run`, for a number of turns.
unfoldable pub run : Interp → ℕ → Machine → Run
run I zero m = unfinished m
run I (suc n) m = elim (turn I m) [
  | next m' ↦ run I n m'
  | stop o m' ↦ ended o m'
  | crash ↦ crashed
]

-- `func (in *Interp) rebindNodes`: the frames from the top down, with the root that each runs in.
unfoldable pub rebind : Interp → Node → List Frame → Option (List Frame)
unfolding navigate
rebind I root [] = some []
rebind I root (f ∷ fs) = elim f.kind [
  | FrameKind.ret ↦ (elim (is_empty f.ret_def) [
    | true ↦ (do fs' ← rebind I root fs; some (f ∷ fs'))
    | false ↦ (do root' ← I.load f.ret_def; fs' ← rebind I root' fs; some (f ∷ fs'))
  ])
  | _ ↦ (do n ← navigate root f.path; fs' ← rebind I root fs; some (record f { node = n } ∷ fs'))
]
