-- ===== src/Admission/Door.antt =====
-- internal/admission/backpressure.go and admitWithRetries of pipeline.go: the semaphore, the order of the
-- refusals, the retries and the charge. What the database answers is an argument: the state of the
-- bucket, whether the refusal was stored, and what each attempt gave.
pub mod Bound
use regel.Base.{
  ℕ, zero, suc, ◌-◌, Bool, true, false, ◌||◌, Option, none, some, List, [], ◌∷◌, ltb, ◌==◌,
  if◌then◌else◌, Str, codes, str_eq,
}
use regel.Base.Int.{ℤ, pos, negsuc}

-- `type semaphore struct`: the channel's capacity and the tokens in it.
pub record Semaphore : Type 0 where
  pub capacity : ℕ
  pub held : ℕ

abbrev pub at_least_one : ℤ → ℕ
at_least_one (negsuc n) = 1
at_least_one (pos n) = if ltb n 1 then 1 else n

-- `func newSemaphore`
unfoldable pub new_semaphore : ℤ → Semaphore
new_semaphore n = record { capacity = at_least_one n; held = 0 }

-- `func (s *semaphore) tryAcquire`
unfoldable pub try_acquire : Semaphore → Semaphore × Bool
try_acquire s = if ltb s.held s.capacity then (record s { held = suc s.held }, true) else (s, false)

-- `func (s *semaphore) release`
unfoldable pub release : Semaphore → Semaphore
release s = record s { held = s.held - 1 }

-- The answer of fuelCheck: an error, enough, or the time until there is.
pub data Fuel : Type 0 where
  unread : Fuel
  enough : Fuel
  short : ℕ → Fuel

-- How admitCore begins: an error, a stored refusal with its time, or in the pipeline.
pub data Entry : Type 0 where
  failed entered : Entry
  budget busy : ℕ → Entry

-- The semaphore and the calls of admitCore that are between tryAcquire and the deferred release.
pub record Door : Type 0 where
  pub sem : Semaphore
  pub inside : ℕ

unfoldable pub new_door : ℤ → Door
unfolding new_semaphore
new_door n = record { sem = new_semaphore n; inside = 0 }

-- `func preRefuse`: the refusal counts only if it is stored.
abbrev pub pre_refuse : Bool → Entry → Entry
pre_refuse stored e = if stored then e else Entry.failed

abbrev pub admit_or_shed : Bool → Door → Semaphore × Bool → Door × Entry
admit_or_shed stored d (s, true) = (record { sem = s; inside = suc d.inside }, Entry.entered)
admit_or_shed stored d (s, false) = (record d { sem = s }, pre_refuse stored (Entry.busy 25))

-- `func admitCore` up to the pipeline.
unfoldable pub enter_door : Fuel → Bool → Door → Door × Entry
unfolding try_acquire
enter_door Fuel.unread stored d = (d, Entry.failed)
enter_door (Fuel.short ms) stored d = (d, pre_refuse stored (Entry.budget ms))
enter_door Fuel.enough stored d = admit_or_shed stored d (try_acquire d.sem)

-- What admitOnce gives: an error, a serialization failure, or a verdict, here its stages.
pub data Attempt : Type 0 where
  fault again : Attempt
  verdict : List Str → Attempt

-- What admitWithRetries gives.
pub data Result : Type 0 where
  broken gave_up : Result
  decided : List Str → Result

-- One turn of the loop of admitWithRetries, before the later ones: a serialization failure is counted.
abbrev pub after_attempt : Attempt → Result × ℕ → Result × ℕ
after_attempt Attempt.fault later = (Result.broken, 0)
after_attempt Attempt.again later = (later.0, suc later.1)
after_attempt (Attempt.verdict stages) later = (Result.decided stages, 0)

-- The loop, with what is left of maxRetries, and the increase of admitRetries.
unfoldable pub attempts : ℕ → (ℕ → Attempt) → Result × ℕ
attempts zero f = (Result.gave_up, 0)
attempts (suc n) f = after_attempt (f 0) (attempts n (λ i. f (suc i)))

-- `func admitWithRetries`; giving up is a verdict with the one stage `serialize`, if it is stored.
abbrev pub conclude : Bool → Result → Result
conclude stored Result.gave_up =
    if stored then Result.decided (codes "serialize" ∷ []) else Result.broken
conclude stored r = r

unfoldable pub admit_with_retries : (ℕ → Attempt) → Bool → Result × ℕ
unfolding attempts
admit_with_retries f stored = (conclude stored (attempts 3 f).0, (attempts 3 f).1)

abbrev pub last_stage : List Str → Str
last_stage [] = []
last_stage (s ∷ []) = s
last_stage (s ∷ t ∷ rest) = last_stage (t ∷ rest)

-- `func stageCost`
unfoldable pub stage_cost : Str → ℕ
unfolding str_eq
stage_cost s =
    if str_eq s []
      || str_eq s (codes "typecheck-budget")
      || str_eq s (codes "lower")
      || str_eq s (codes "seeders")
    then 1
    else if str_eq s (codes "insert")
    then 2
    else if str_eq s (codes "tsgo")
    then 3
    else 5

-- `func chargeForVerdict`
unfoldable pub charge_for_verdict : List Str → ℕ
unfolding stage_cost
charge_for_verdict stages = stage_cost (last_stage stages)

-- `func admitCore` after the pipeline: the deferred release, and the charge if there was no error.
unfoldable pub leave_door : Result → Door → Door × Option ℕ
unfolding release charge_for_verdict
leave_door (Result.decided stages) d =
    (record { sem = release d.sem; inside = d.inside - 1 }, some (charge_for_verdict stages))
leave_door _ d = (record { sem = release d.sem; inside = d.inside - 1 }, none)
