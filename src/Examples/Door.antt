-- ===== src/Examples/Door.antt =====
-- Inputs for the theorems on the admission door.
use regel.Base.{ltb, if◌then◌else◌, ℕ, zero, suc, ◌≡◌, refl, true, some, [], ◌∷◌, codes}
use regel.Base.Int.{pos}
use regel.Admission.Door.{
  Fuel, Entry, Door, Attempt, Result, new_door, try_acquire, enter_door, leave_door, release,
  charge_for_verdict, stage_cost, admit_with_retries,
}
use regel.Admission.Door.Bound.{Reached, Bounded, Reached-Bounded, enter_room}

abbrev one_in : Door
one_in = (enter_door Fuel.enough true (new_door (pos 2))).0

abbrev two_in : Door
two_in = (enter_door Fuel.enough true one_in).0

two_in-Reached : Reached (pos 2) two_in
two_in-Reached =
    Reached.entering one_in Fuel.enough true
      (Reached.entering (new_door (pos 2)) Fuel.enough true Reached.start)

Reached-Bounded_example : Bounded (pos 2) two_in
Reached-Bounded_example = Reached-Bounded (pos 2) two_in two_in-Reached

two_in-full : two_in.inside ≡ 2
unfolding new_door enter_door try_acquire
two_in-full = refl

enter_room_example :
    (enter_door Fuel.enough true two_in).1
    ≡ (if ltb two_in.inside 2 then Entry.entered else Entry.busy 25)
enter_room_example = enter_room (pos 2) two_in two_in-Reached

third_busy : (enter_door Fuel.enough true two_in).1 ≡ Entry.busy 25
unfolding new_door enter_door try_acquire
third_busy = refl

-- A submission that was inside leaves, and the next is let in.
let_in :
    (enter_door Fuel.enough true (leave_door (Result.decided (codes "tsgo" ∷ [])) two_in).0).1
    ≡ Entry.entered
unfolding new_door enter_door try_acquire leave_door release
let_in = refl

charged : (leave_door (Result.decided (codes "lower" ∷ codes "tsgo" ∷ [])) two_in).1 ≡ some 3
unfolding leave_door charge_for_verdict stage_cost
charged = refl

abbrev one_conflict : ℕ → Attempt
one_conflict zero = Attempt.again
one_conflict (suc n) = Attempt.verdict (codes "cas" ∷ [])

second_try : admit_with_retries one_conflict true ≡ (Result.decided (codes "cas" ∷ []), 1)
unfolding admit_with_retries
second_try = refl
