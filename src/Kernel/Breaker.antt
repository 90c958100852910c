-- ===== src/Kernel/Breaker.antt =====
-- internal/kernel/breaker.go: the breaker that paces the reaper. Times are nanoseconds on one clock, and
-- a duration is a count of them. The event lines on standard output are left out.
pub mod Safety
use regel.Base.{
  ℕ, zero, suc, ◌+◌, ◌*◌, Bool, true, false, not, ◌&&◌, ◌||◌, List, [], ◌∷◌, ◌++◌, length,
  replicate, ltb, leb, ◌==◌, if◌then◌else◌,
}
use regel.Base.Int.{ℤ, pos, negsuc}

pub data BreakerState : Type 0 where
  closed opened half_open : BreakerState

-- `type reaperBreaker struct`; the threshold of the ratio is the constant 1/2.
pub record Breaker : Type 0 where
  pub window : ℕ
  pub cooldown : ℕ
  pub rate_max : ℕ
  pub probe_batch : ℕ
  pub full_batch : ℕ
  pub state : BreakerState
  pub reoffers : List ℕ
  pub opened_at : ℕ
  pub state_gauge : ℕ
  pub trips : ℕ
  pub lag_ms : ℕ

-- The fields of ReactorConfig that the breaker reads.
pub record Config : Type 0 where
  pub breaker_window : ℤ
  pub breaker_cooldown : ℤ
  pub reap_rate_max : ℤ
  pub probe_batch : ℤ
  pub reap_batch : ℕ

-- A setting that is not positive takes the default.
unfoldable pub positive_or : ℤ → ℕ → ℕ
positive_or (negsuc n) d = d
positive_or (pos n) d = if n == 0 then d else n

-- `func newReaperBreaker`
unfoldable pub new_reaper_breaker : Config → Breaker
unfolding positive_or
new_reaper_breaker c = record {
  window = positive_or c.breaker_window 60_000_000_000;
  cooldown = positive_or c.breaker_cooldown 30_000_000_000;
  rate_max = positive_or c.reap_rate_max 1000;
  probe_batch = positive_or c.probe_batch 10;
  full_batch = c.reap_batch;
  state = BreakerState.closed;
  reoffers = [];
  opened_at = 0;
  state_gauge = 0;
  trips = 0;
  lag_ms = 0;
}

-- `func (b *reaperBreaker) allowedBatch`, at a time: the breaker after it, and the rows it allows.
unfoldable pub allowed_batch : ℕ → Breaker → Breaker × ℕ
allowed_batch t b = elim b.state [
  | BreakerState.opened ↦
      if leb (b.opened_at + b.cooldown) t
      then (record b { state = BreakerState.half_open }, b.probe_batch)
      else (b, 0)
  | BreakerState.half_open ↦ (b, b.probe_batch)
  | BreakerState.closed ↦ (b, b.full_batch)
]

-- The times that are still in the window.
unfoldable pub prune : ℕ → ℕ → List ℕ → List ℕ
prune t window [] = []
prune t window (ts ∷ l) =
    let later = prune t window l in if ltb t (ts + window) then ts ∷ later else later

-- `func (b *reaperBreaker) trip`
unfoldable pub trip : ℕ → Breaker → Breaker
trip t b = record b {
  state = BreakerState.opened;
  opened_at = t;
  state_gauge = 1;
  trips = b.trips + 1;
}

-- The window after a pass.
unfoldable pub slide : ℕ → ℕ → ℕ → Breaker → Breaker
unfolding prune
slide t reoffered lag b = record b {
  lag_ms = lag;
  reoffers = prune t b.window b.reoffers ++ replicate reoffered t;
}

-- More than half of the rows had been leased before. The Go code divides in float64, which is exact
-- enough for counts below 2 ^ 53; without rows the ratio is 0.
unfoldable pub over_ratio : ℕ → ℕ → Bool
over_ratio reoffered reexpired = ltb 0 reoffered && ltb reoffered (2 * reexpired)

-- The probe drained: nothing was re-offered, or few rows and few of them again.
unfoldable pub drained : ℕ → ℕ → Breaker → Bool
unfolding over_ratio
drained reoffered reexpired b =
    (reoffered == 0) || (not (over_ratio reoffered reexpired) && ltb reoffered b.probe_batch)

unfoldable pub close : Breaker → Breaker
close b = record b { state = BreakerState.closed; state_gauge = 0; reoffers = [] }

-- The transitions on the window that was just slid.
unfoldable pub settle : ℕ → ℕ → ℕ → Breaker → Breaker
unfolding trip over_ratio drained close
settle t reoffered reexpired b = elim b.state [
  | BreakerState.closed ↦
      if ltb b.rate_max (length b.reoffers) || over_ratio reoffered reexpired then trip t b else b
  | BreakerState.half_open ↦ if drained reoffered reexpired b then close b else trip t b
  | BreakerState.opened ↦ b
]

-- `func (b *reaperBreaker) observe`, at a time.
unfoldable pub observe : ℕ → ℕ → ℕ → ℕ → Breaker → Breaker
unfolding slide settle
observe t reoffered reexpired lag b = settle t reoffered reexpired (slide t reoffered lag b)

-- The calls that the reactor makes, each under the lock: one after the other, in any order.
pub data Call : Type 0 where
  allow : ℕ → Call
  pass : ℕ → ℕ → ℕ → ℕ → Call

unfoldable pub after : Call → Breaker → Breaker
unfolding allowed_batch observe
after (allow t) b = (allowed_batch t b).0
after (pass t reoffered reexpired lag) b = observe t reoffered reexpired lag b
