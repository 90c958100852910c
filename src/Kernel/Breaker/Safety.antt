-- ===== src/Kernel/Breaker/Safety.antt =====
-- What holds of the breaker of internal/kernel/breaker.go after any calls.
use regel.Base.{
  ℕ, ◌+◌, ◌≤◌, ◌≡◌, refl, ap, ◌∙◌, Bool, true, false, ◌&&◌, ◌||◌, List, [], ◌∷◌, length, ltb, leb,
  ◌==◌, if◌then◌else◌, Bool-cases, inl, inr, arith,
}
use regel.Kernel.Breaker.{
  Breaker, BreakerState, Config, new_reaper_breaker, allowed_batch, trip, slide, settle, observe,
  close, over_ratio, drained, Call, allow, pass, after,
}

-- The gauge shows 0 just when the breaker is closed, and then the window is within the rate.
abbrev pub StateFits : BreakerState → ℕ → ℕ → ℕ → Type 0
StateFits BreakerState.closed gauge size rate_max = (gauge ≡ 0) × (size ≤ rate_max)
StateFits _ gauge size rate_max = gauge ≡ 1

abbrev pub BreakerOk : Breaker → Type 0
BreakerOk b = StateFits b.state b.state_gauge (length b.reoffers) b.rate_max

-- Breakers that a new one becomes by calls.
pub data Reached (c : Config) : Breaker → Type 0 where
  made : Reached c (new_reaper_breaker c)
  called : (k : Call) (b : Breaker) → Reached c b → Reached c (after k b)

if-Ok :
    (c : Bool) (a b : Breaker)
    → (c ≡ true → BreakerOk a)
    → (c ≡ false → BreakerOk b)
    → BreakerOk (if c then a else b)
if-Ok true a b h g = h refl
if-Ok false a b h g = g refl

allowed-Ok :
    (t : ℕ) (b : Breaker) (s : BreakerState)
    → b.state ≡ s
    → BreakerOk b
    → BreakerOk (allowed_batch t b).0
unfolding allowed_batch
allowed-Ok t b BreakerState.closed e ok = rw e (rw e at ok)
allowed-Ok t b BreakerState.half_open e ok = rw e (rw e at ok)
allowed-Ok t b BreakerState.opened e ok = elim (Bool-cases (leb (b.opened_at + b.cooldown) t)) [
  | inl c ↦ rw (e, c) (rw e at ok)
  | inr c ↦ rw (e, c) (rw e at ok)
]

within : (size rate_max : ℕ) (c : Bool) → (ltb rate_max size || c) ≡ false → size ≤ rate_max
within size rate_max c h = ground (arith, h)

abbrev GaugeFits : BreakerState → ℕ → Type 0
GaugeFits BreakerState.closed gauge = gauge ≡ 0
GaugeFits _ gauge = gauge ≡ 1

gauge_fits :
    (s : BreakerState) (gauge size rate_max : ℕ)
    → StateFits s gauge size rate_max
    → GaugeFits s gauge
gauge_fits BreakerState.closed gauge size rate_max h = h.0
gauge_fits BreakerState.opened gauge size rate_max h = h
gauge_fits BreakerState.half_open gauge size rate_max h = h

closed_fits :
    (s : BreakerState) (gauge size rate_max : ℕ)
    → s ≡ BreakerState.closed
    → GaugeFits s gauge
    → size ≤ rate_max
    → StateFits s gauge size rate_max
closed_fits BreakerState.closed gauge size rate_max e g h = (g, h)
closed_fits BreakerState.opened gauge size rate_max e g h = absurd (ground arith)
closed_fits BreakerState.half_open gauge size rate_max e g h = absurd (ground arith)

opened_fits :
    (s : BreakerState) (gauge size rate_max : ℕ)
    → s ≡ BreakerState.opened
    → GaugeFits s gauge
    → StateFits s gauge size rate_max
opened_fits BreakerState.closed gauge size rate_max e g = absurd (ground arith)
opened_fits BreakerState.opened gauge size rate_max e g = g
opened_fits BreakerState.half_open gauge size rate_max e g = g

-- What settling does, by the state.
module _ (t n k : ℕ) (w : Breaker) where
  settle_closed :
      w.state ≡ BreakerState.closed
      → settle t n k w
        ≡ (if ltb w.rate_max (length w.reoffers) || over_ratio n k then trip t w else w)
  unfolding settle
  settle_closed e = rw e refl

  settle_half_open :
      w.state ≡ BreakerState.half_open
      → settle t n k w ≡ (if drained n k w then close w else trip t w)
  unfolding settle
  settle_half_open e = rw e refl

  settle_opened : w.state ≡ BreakerState.opened → settle t n k w ≡ w
  unfolding settle
  settle_opened e = rw e refl

  settle-Ok :
      (s : BreakerState)
      → w.state ≡ s
      → GaugeFits w.state w.state_gauge
      → BreakerOk (settle t n k w)
  unfolding trip close
  settle-Ok BreakerState.closed e g = rw (settle_closed e) (
      if-Ok (ltb w.rate_max (length w.reoffers) || over_ratio n k) (trip t w) w (λ c. refl)
        (λ c.
          closed_fits w.state w.state_gauge (length w.reoffers) w.rate_max e g
            (within (length w.reoffers) w.rate_max (over_ratio n k) c)))
  settle-Ok BreakerState.half_open e g =
      rw (settle_half_open e)
        (if-Ok (drained n k w) (close w) (trip t w) (λ c. (refl, omega arith)) (λ c. refl))
  settle-Ok BreakerState.opened e g =
      rw (settle_opened e) (opened_fits w.state w.state_gauge (length w.reoffers) w.rate_max e g)

slide_state : (t n lag : ℕ) (b : Breaker) → (slide t n lag b).state ≡ b.state
unfolding slide
slide_state t n lag b = refl

slide_opened : (t n lag : ℕ) (b : Breaker) → (slide t n lag b).opened_at ≡ b.opened_at
unfolding slide
slide_opened t n lag b = refl

slide_deadline :
    (t n lag : ℕ) (b : Breaker)
    → (slide t n lag b).opened_at + (slide t n lag b).cooldown ≡ b.opened_at + b.cooldown
unfolding slide
slide_deadline t n lag b = refl

slid :
    (t n lag : ℕ) (b : Breaker)
    → GaugeFits b.state b.state_gauge
    → GaugeFits (slide t n lag b).state (slide t n lag b).state_gauge
unfolding slide
slid t n lag b g = g

-- Whatever calls the reactor makes, at whatever times: the gauge of a breaker that was made by
-- newReaperBreaker shows 0 just when it is closed, and a closed breaker has no more re-offers in its
-- window than the rate allows.
pub Reached-Ok : (c : Config) (b : Breaker) → Reached c b → BreakerOk b
unfolding after observe new_reaper_breaker
Reached-Ok c _ made = (refl, omega arith)
Reached-Ok c _ (called (allow t) b r) = allowed-Ok t b b.state refl (Reached-Ok c b r)
Reached-Ok c _ (called (pass t n k lag) b r) =
    settle-Ok t n k (slide t n lag b) b.state (slide_state t n lag b) (
      slid t n lag b
        (gauge_fits b.state b.state_gauge (length b.reoffers) b.rate_max (Reached-Ok c b r)))

-- The rows that each question allows, and the breaker at the end.
abbrev pub answers : List Call → Breaker → List ℕ
answers [] b = []
answers (allow t ∷ ks) b = (allowed_batch t b).1 ∷ answers ks (after (allow t) b)
answers (pass t n k lag ∷ ks) b = answers ks (after (pass t n k lag) b)

abbrev pub at_end : List Call → Breaker → Breaker
at_end [] b = b
at_end (k ∷ ks) b = at_end ks (after k b)

-- Every question is asked before a deadline.
abbrev pub before : ℕ → List Call → Bool
before d [] = true
before d (allow t ∷ ks) = ltb t d && before d ks
before d (pass t n k lag ∷ ks) = before d ks

abbrev pub all_zero : List ℕ → Bool
all_zero [] = true
all_zero (n ∷ ns) = (n == 0) && all_zero ns

cooling :
    (t : ℕ) (b : Breaker)
    → b.state ≡ BreakerState.opened
    → ltb t (b.opened_at + b.cooldown) ≡ true
    → allowed_batch t b ≡ (b, 0)
unfolding allowed_batch
cooling t b e h = rw (e, late t (b.opened_at + b.cooldown) h) refl
  where
    late : (n d : ℕ) → ltb n d ≡ true → leb d n ≡ false
    late n d q = ground (arith, q)

asked :
    (t : ℕ) (b : Breaker)
    → b.state ≡ BreakerState.opened
    → ltb t (b.opened_at + b.cooldown) ≡ true
    → after (allow t) b ≡ b
unfolding after
asked t b e h = ap (λ x. x.0) (cooling t b e h)

passed :
    (t n k lag : ℕ) (b : Breaker)
    → b.state ≡ BreakerState.opened
    → after (pass t n k lag) b ≡ slide t n lag b
unfolding after observe settle slide
passed t n k lag b e = rw e refl

-- An open breaker is paused until its cooldown is over: whatever passes are observed meanwhile, every
-- question that is asked before then allows no row, and the breaker stays open since the same time.
pub open_paused :
    (ks : List Call) (b : Breaker)
    → b.state ≡ BreakerState.opened
    → before (b.opened_at + b.cooldown) ks ≡ true
    → (all_zero (answers ks b) ≡ true)
      × ((at_end ks b).state ≡ BreakerState.opened)
      × ((at_end ks b).opened_at ≡ b.opened_at)
open_paused [] b e h = (refl, e, refl)
open_paused (allow t ∷ ks) b e h =
    let q = asked t b e (ground (arith, h)) in
    let r = open_paused ks b e (ground (arith, h)) in
    (
      rw (ap (λ x. x.1) (cooling t b e (ground (arith, h))), q) r.0,
      ap (λ x. (at_end ks x).state) q ∙ r.1,
      ap (λ x. (at_end ks x).opened_at) q ∙ r.2,
    )
open_paused (pass t n k lag ∷ ks) b e h =
    let q = passed t n k lag b e in
    let r =
      open_paused ks (slide t n lag b) (slide_state t n lag b ∙ e)
        (rw (slide_deadline t n lag b) h) in
    (
      rw q r.0,
      ap (λ x. (at_end ks x).state) q ∙ r.1,
      ap (λ x. (at_end ks x).opened_at) q ∙ r.2 ∙ slide_opened t n lag b,
    )
