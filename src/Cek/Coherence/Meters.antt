-- ===== src/Cek/Coherence/Meters.antt =====
-- internal/cek/meter.go: the meters bound a run.
use regel.Base.{
  ℕ, zero, suc, ◌+◌, ◌*◌, ◌/◌, ◌%◌, ◌≤◌, ◌<◌, ◌≡◌, refl, sym, ◌∙◌, ap, Bool, true, false, arith,
  ltb, Bool-cases, inl, inr, ◌⊎◌,
}
use regel.Base.Int.{ℤ, pos, negsuc, ◌-ℤ◌, ◌+ℤ◌, neg}
use regel.Cek.Machine.{Machine, Step, next, stop, crash, Interp, Meter, fuel_meter, governor_meter}
use regel.Cek.Run.{tick, turn, Run, ended, crashed, unfinished, run}
use regel.Cek.Coherence.{Coherent, CoherentFor, Keeps, LoadsFit, clock}
use regel.Cek.Coherence.Turn.{turn-Keeps, run-suc, continue_run, Coherent-now}

abbrev pub is_unfinished : Run → Bool
is_unfinished (unfinished m) = true
is_unfinished _ = false

abbrev stops : Step → Bool
stops (next m) = false
stops _ = true

-- The meter shows so many steps, or such a count, whatever its byte budget is.
abbrev pub ShowsFuel : Meter → ℕ → Type 0
ShowsFuel mt k = clock mt ≡ fuel_meter (pos k) (pos 0)

abbrev pub ShowsCount : Meter → ℕ → ℕ → Type 0
ShowsCount mt n l = clock mt ≡ governor_meter n l

steps_of : Meter → ℤ
steps_of (fuel_meter s b) = s
steps_of (governor_meter n l) = negsuc 0

steps_shown : (mt : Meter) (k : ℕ) → ShowsFuel mt k → (b : ℤ) × (mt ≡ fuel_meter (pos k) b)
unfolding steps_of
steps_shown (fuel_meter s b) k e = (b, ap (λ x. fuel_meter x b) (ap steps_of e))
steps_shown (governor_meter n l) k e = absurd (ground arith)

count_shown : (mt : Meter) (n l : ℕ) → ShowsCount mt n l → mt ≡ governor_meter n l
count_shown (governor_meter n' l') n l e = e
count_shown (fuel_meter s b) n l e = absurd (ground arith)

tick-fuel_spent : (I : Interp) (mt : Meter) → ShowsFuel mt 0 → (tick I mt).go_on ≡ false
unfolding tick ◌-ℤ◌
tick-fuel_spent I mt e = rw (steps_shown mt 0 e).1 refl

one_less : (k : ℕ) → (pos (suc k) -ℤ pos 1) ≡ pos k
unfolding ◌-ℤ◌ ◌+ℤ◌ neg
one_less k = ground arith

tick-fuel : (I : Interp) (mt : Meter) (k : ℕ) → ShowsFuel mt (suc k) → ShowsFuel (tick I mt).meter k
unfolding tick
tick-fuel I mt k e = rw ((steps_shown mt (suc k) e).1, one_less k) refl

tick-count :
    (I : Interp) (mt : Meter) (n l : ℕ) → ShowsCount mt n l → ShowsCount (tick I mt).meter (n + 1) l
unfolding tick
tick-count I mt n l e = rw (count_shown mt n l e) refl

tick-ceiling :
    (I : Interp) (mt : Meter) (n l : ℕ)
    → ShowsCount mt n l
    → (tick I mt).go_on ≡ true
    → (n + 1) % 4096 ≡ 0
    → n + 1 ≤ l
unfolding tick
tick-ceiling I mt n l e g z = ground (arith, rw (count_shown mt n l e) at g)

zero_add : (k : ℕ) → 0 + k ≡ k
zero_add k = omega arith

suc_add : (n k : ℕ) → suc n + k ≡ suc (n + k)
suc_add n k = omega arith

next_or_later : (i j : ℕ) → j < i → (i ≡ j + 1) ⊎ (j + 1 < i)
next_or_later i j h = elim (Bool-cases (ltb (j + 1) i)) [
  | inl t ↦ inr (ground (arith, t))
  | inr t ↦ inl (ground (arith, t))
]

-- The first of a number of turns that do not end the run.
first_turn :
    (I : Interp) (n : ℕ) (m m' : Machine)
    → run I (suc n) m ≡ unfinished m'
    → (m1 : Machine) × (turn I m ≡ next m1) × (run I n m1 ≡ unfinished m')
first_turn I n m m' h = by_step (turn I m) refl (sym (run-suc I n m) ∙ h)
  where
    by_step :
        (s : Step)
        → turn I m ≡ s
        → continue_run I n s ≡ unfinished m'
        → (m1 : Machine) × (turn I m ≡ next m1) × (run I n m1 ≡ unfinished m')
    by_step (next m1) e z = (m1, e, z)
    by_step (stop o m1) e z = absurd (ground arith)
    by_step crash e z = absurd (ground arith)

unfinished_inj : (I : Interp) (m m' : Machine) → run I 0 m ≡ unfinished m' → m ≡ m'
unfolding run
unfinished_inj I m m' e = ap machine_of e
  where
    machine_of : Run → Machine
    machine_of (unfinished x) = x
    machine_of _ = m

module _ (I : Interp) (ok : LoadsFit I) where
  -- After a turn that goes on: the invariant, and the clock that the tick left.
  after_turn :
      (m m1 : Machine) → Coherent I m → turn I m ≡ next m1 → CoherentFor I (tick I m.meter).meter m1
  after_turn m m1 c e = rw e at (turn-Keeps I m ok c)

  ticked_turn : (m m1 : Machine) → turn I m ≡ next m1 → (tick I m.meter).go_on ≡ true
  unfolding turn
  ticked_turn m m1 e = elim (Bool-cases (tick I m.meter).go_on) [
    | inl t ↦ t
    | inr t ↦ absurd (ground (arith, rw t at e))
  ]

  -- Where no definition that loads has a do-while, from a coherent machine: a turn costs one step of
  -- fuel, and nothing else changes the fuel: after `n` turns that do not end the run, `n` steps are gone.
  pub run-fuel :
      (n k : ℕ) (m m' : Machine)
      → Coherent I m
      → ShowsFuel m.meter (n + k)
      → run I n m ≡ unfinished m'
      → ShowsFuel m'.meter k
  run-fuel zero k m m' c f h = rw (zero_add k, unfinished_inj I m m' h) at f
  run-fuel (suc n) k m m' c f h =
      let (m1, e, z) = first_turn I n m m' h in
      let c1 = after_turn m m1 c e in
      run-fuel n k m1 m' (Coherent-now I _ m1 c1)
        (c1.metered ∙ tick-fuel I m.meter (n + k) (rw (suc_add n k) at f)) z

  -- A turn whose tick says no stops the run.
  turn-stops : (m : Machine) → (tick I m.meter).go_on ≡ false → stops (turn I m) ≡ true
  unfolding turn
  turn-stops m e = rw e refl

  stopped_turn : (s : Step) → stops s ≡ true → is_unfinished (continue_run I 0 s) ≡ false
  stopped_turn (next m1) e = absurd (ground arith)
  stopped_turn (stop o m1) e = refl
  stopped_turn crash e = refl

  bounded_step :
      (mt : Meter) (n : ℕ) (s : Step)
      → Keeps I mt s
      → ((m1 : Machine) → CoherentFor I mt m1 → is_unfinished (run I n m1) ≡ false)
      → is_unfinished (continue_run I n s) ≡ false
  bounded_step mt n (next m1) c h = h m1 c
  bounded_step mt n (stop o m1) c h = refl
  bounded_step mt n crash c h = refl

  -- Where no definition that loads has a do-while, a run of a coherent machine with `k` steps of fuel is
  -- over before turn `k + 1` ends: it is done, faulted, parked, or has met an error of the machine or a
  -- panic.
  pub run-fuel_bound :
      (k : ℕ) (m : Machine)
      → Coherent I m
      → ShowsFuel m.meter k
      → is_unfinished (run I (suc k) m) ≡ false
  run-fuel_bound zero m c f =
      rw (run-suc I 0 m) (stopped_turn (turn I m) (turn-stops m (tick-fuel_spent I m.meter f)))
  run-fuel_bound (suc k) m c f = rw (run-suc I (suc k) m) (
      bounded_step (tick I m.meter).meter (suc k) (turn I m) (turn-Keeps I m ok c) (λ m1 c1.
        run-fuel_bound k m1 (Coherent-now I (tick I m.meter).meter m1 c1)
          (c1.metered ∙ tick-fuel I m.meter k f)))

  run-count :
      (n j l : ℕ) (m m' : Machine)
      → Coherent I m
      → ShowsCount m.meter j l
      → run I n m ≡ unfinished m'
      → (i : ℕ) → j < i
      → i ≤ j + n
      → i % 4096 ≡ 0
      → i ≤ l
  run-count zero j l m m' c f h i a b z = absurd (omega arith)
  run-count (suc n) j l m m' c f h i a b z =
      let (m1, e, r) = first_turn I n m m' h in
      let c1 = after_turn m m1 c e in
      elim (next_or_later i j a) [
        | inl q ↦ rw q (tick-ceiling I m.meter j l f (ticked_turn m m1 e) (rw q at z))
        | inr q ↦
            run-count n (j + 1) l m1 m' (Coherent-now I (tick I m.meter).meter m1 c1)
              (c1.metered ∙ tick-count I m.meter j l f) r i q (omega arith) z
      ]

  -- A governed run of a coherent machine whose count starts at 0 is over by the first multiple of 4096
  -- above its ceiling, where no definition that loads has a do-while.
  pub run-governor_bound :
      (l : ℕ) (m : Machine)
      → Coherent I m
      → ShowsCount m.meter 0 l
      → is_unfinished (run I ((l / 4096 + 1) * 4096) m) ≡ false
  run-governor_bound l m c f = over (run I ((l / 4096 + 1) * 4096) m) refl
    where
      over : (r : Run) → run I ((l / 4096 + 1) * 4096) m ≡ r → is_unfinished r ≡ false
      over (ended o m') e = refl
      over crashed e = refl
      over (unfinished m') e =
          let i = (l / 4096 + 1) * 4096 in
          absurd
            (omega (arith, run-count i 0 l m m' c f e i (omega arith) (omega arith) (omega arith)))
