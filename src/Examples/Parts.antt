-- ===== src/Examples/Parts.antt =====
-- Inputs for the theorems on fresh states, wire bytes, the breaker and name paths.
use regel.Base.{◌≡◌, refl, true, none, some, List, [], ◌∷◌, codes, str_eq}
use regel.Base.Int.{pos}
use regel.Cek.Machine.{Machine, Principal, Tier, ParkKind, snapshot, float_any}
use regel.Cek.Resume.{RestartChoice, resume, live, seed}
use regel.Cek.Coherence.Rebind.{strip_state}
use regel.Cek.Coherence.Pause.{Renewal, more_fuel, Continued, resume-Continued}
use regel.Cek.Initial.{Budget, initial_state}
use regel.Cek.Coherence.Initial.{Fresh, initial_state-Fresh}
use regel.Kernel.Breaker.{
  Breaker, BreakerState, Config, Call, allow, pass, after, new_reaper_breaker,
}
use regel.Kernel.Breaker.Safety.{
  BreakerOk, made, called, Reached-Ok, open_paused, all_zero, answers, at_end,
}
use regel.Catalog.NamePath.{
  name_path, name_from_path, trim_slash, before_suffix, name_from_path-name_path,
}
use regel.Examples.{floats, demo, demo-LoadsFit, five, start-Coherent}

abbrev budget : Budget
budget = record { tier = Tier.sandbox; steps = pos 9; bytes = pos 100 }

initial_state-Fresh_example : Fresh demo (initial_state demo budget (codes "demo") none [] [])
initial_state-Fresh_example =
    initial_state-Fresh demo demo-LoadsFit budget (codes "demo") none [] []

-- The operator grants fuel by a number of the request.
abbrev grant : RestartChoice
grant = record { name = codes "grant-fuel"; args = (codes "fuel", float_any 7) ∷ [] }

abbrev operator : Principal
operator = record five.principal { subject = codes "operator" }

seven_granted : Renewal floats five.tier five.fuel_steps grant (floats.trunc 7)
unfolding seed
seven_granted = more_fuel five.fuel_steps 7

resume-Continued_example :
    (m' : Machine) × (resume demo
        (strip_state (snapshot five ParkKind.fuel))
        (record { restart = some grant; value = none })
        operator
      ≡ live m')
    × Continued operator (floats.trunc 7) five m'
resume-Continued_example =
    resume-Continued demo ParkKind.fuel five grant (floats.trunc 7) operator refl
      (start-Coherent (pos 5) Tier.sandbox) seven_granted

abbrev config : Config
config = record {
  breaker_window = pos 60;
  breaker_cooldown = pos 30;
  reap_rate_max = pos 2;
  probe_batch = pos 0;
  reap_batch = 50;
}

-- A pass over five rows trips it.
abbrev tripped : Breaker
tripped = after (pass 100 5 0 7) (new_reaper_breaker config)

Reached-Ok_example : BreakerOk tripped
Reached-Ok_example =
    Reached-Ok config tripped (called (pass 100 5 0 7) (new_reaper_breaker config) made)

abbrev cooling_down : Breaker
cooling_down = record (new_reaper_breaker config) {
  state = BreakerState.opened;
  opened_at = 100;
  cooldown = 30;
}

abbrev questions : List Call
questions = allow 101 ∷ pass 110 4 4 9 ∷ allow 129 ∷ []

open_paused_example :
    (all_zero (answers questions cooling_down) ≡ true)
    × ((at_end questions cooling_down).state ≡ BreakerState.opened)
    × ((at_end questions cooling_down).opened_at ≡ cooling_down.opened_at)
open_paused_example = open_paused questions cooling_down refl refl

name_from_path-name_path_example :
    (name_from_path (name_path (codes "std/mail/send")) ≡ some (codes "std/mail/send"))
    × (name_from_path (b'/' ∷ name_path (codes "std/mail/send")) ≡ some (codes "std/mail/send"))
name_from_path-name_path_example = name_from_path-name_path (codes "std/mail/send") refl

demo_path : name_from_path (codes "a.ts") ≡ some (codes "a")
unfolding name_from_path trim_slash before_suffix str_eq
demo_path = refl
