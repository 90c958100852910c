-- ===== src/Admission/Door/Bound.antt =====
-- internal/admission/backpressure.go and pipeline.go: the bound on the admissions in flight, and the
-- retries.
use regel.Base.{
  ℕ, zero, suc, ◌-◌, ◌<◌, ◌≤◌, ◌≡◌, refl, Bool, true, List, ltb, if◌then◌else◌, Bool-cases, inl,
  inr, arith,
}
use regel.Base.Int.{ℤ, pos, negsuc}
use regel.Admission.Door.{
  Fuel, Entry, Door, Attempt, Result, at_least_one, new_door, try_acquire, release, admit_or_shed,
  enter_door, leave_door, attempts, admit_with_retries,
}

-- The doors that calls of admitCore reach, in any order: each begins, and one that is inside may end.
pub data Reached (n : ℤ) : Door → Type 0 where
  start : Reached n (new_door n)
  entering :
      (d : Door) (f : Fuel) (stored : Bool) → Reached n d → Reached n (enter_door f stored d).0
  leaving : (d : Door) (r : Result) → 0 < d.inside → Reached n d → Reached n (leave_door r d).0

-- Each admission inside holds one token, and there are no more than the capacity.
pub record Bounded (n : ℤ) (d : Door) : Type 0 where
  pub capacity_kept : d.sem.capacity ≡ at_least_one n
  pub one_each : d.sem.held ≡ d.inside
  pub within : d.inside ≤ at_least_one n

least : (n : ℤ) → 0 < at_least_one n
least (negsuc n) = omega arith
least (pos n) = ground arith

admit_or_shed-Bounded :
    (n : ℤ) (d : Door) (stored : Bool)
    → Bounded n d
    → Bounded n (admit_or_shed stored d (try_acquire d.sem)).0
unfolding try_acquire
admit_or_shed-Bounded n d stored b = elim (Bool-cases (ltb d.sem.held d.sem.capacity)) [
  | inl t ↦ rw t (record {
    capacity_kept = b.capacity_kept;
    one_each = omega (arith, b.one_each);
    within = ground (arith, t, b.one_each, b.capacity_kept);
  })
  | inr t ↦ rw t b
]

enter_door-Bounded :
    (n : ℤ) (d : Door) (f : Fuel) (stored : Bool)
    → Bounded n d
    → Bounded n (enter_door f stored d).0
unfolding enter_door
enter_door-Bounded n d Fuel.unread stored b = b
enter_door-Bounded n d (Fuel.short ms) stored b = b
enter_door-Bounded n d Fuel.enough stored b = admit_or_shed-Bounded n d stored b

release-Bounded :
    (n : ℤ) (d : Door)
    → Bounded n d
    → Bounded n (record { sem = release d.sem; inside = d.inside - 1 })
unfolding release
release-Bounded n d b = record {
  capacity_kept = b.capacity_kept;
  one_each = omega (arith, b.one_each);
  within = omega (arith, b.within);
}

leave_door-Bounded : (n : ℤ) (d : Door) (r : Result) → Bounded n d → Bounded n (leave_door r d).0
unfolding leave_door
leave_door-Bounded n d (Result.decided s) b = release-Bounded n d b
leave_door-Bounded n d Result.broken b = release-Bounded n d b
leave_door-Bounded n d Result.gave_up b = release-Bounded n d b

-- However the calls of admitCore interleave, those in the pipeline hold one token each, and there are
-- never more of them than the semaphore's size, which is at least one.
pub Reached-Bounded : (n : ℤ) (d : Door) → Reached n d → Bounded n d
unfolding new_door
Reached-Bounded n _ start = record { capacity_kept = refl; one_each = refl; within = omega arith }
Reached-Bounded n _ (entering d f stored r) =
    enter_door-Bounded n d f stored (Reached-Bounded n d r)
Reached-Bounded n _ (leaving d r k q) = leave_door-Bounded n d r (Reached-Bounded n d q)

by_room :
    (n : ℤ) (d : Door)
    → Bounded n d
    → (enter_door Fuel.enough true d).1
      ≡ (if ltb d.inside (at_least_one n) then Entry.entered else Entry.busy 25)
unfolding enter_door try_acquire
by_room n d b =
    rw (b.one_each, b.capacity_kept)
      (elim (Bool-cases (ltb d.inside (at_least_one n))) [ inl t ↦ rw t refl | inr t ↦ rw t refl ])

-- At a door that was reached, a submission with enough fuel is let in when fewer are in the pipeline
-- than the semaphore's size, and is refused as busy otherwise, its refusal being stored.
pub enter_room :
    (n : ℤ) (d : Door)
    → Reached n d
    → (enter_door Fuel.enough true d).1
      ≡ (if ltb d.inside (at_least_one n) then Entry.entered else Entry.busy 25)
enter_room n d r = by_room n d (Reached-Bounded n d r)

-- The first attempt that is not a serialization failure decides, and each one before it is counted.
attempts_first :
    (n i : ℕ) (f : ℕ → Attempt)
    → i < n
    → ((j : ℕ) → j < i → f j ≡ Attempt.again)
    → (stages : List (List ℕ)) → f i ≡ Attempt.verdict stages
    → attempts n f ≡ (Result.decided stages, i)
unfolding attempts
attempts_first zero i f k before s q = absurd (omega (arith, k))
attempts_first (suc n) zero f k before s q = rw q refl
attempts_first (suc n) (suc i) f k before s q =
    rw
      (
        before 0 (omega arith),
        attempts_first n i (λ j. f (suc j)) (omega (arith, k))
            (λ j l. before (suc j) (omega (arith, l))) s q,
      )
      refl

-- Of at most three attempts the first that does not fail to serialize gives the verdict, and those
-- before it are counted as retries.
pub admit_with_retries_first :
    (f : ℕ → Attempt) (stored : Bool) (i : ℕ)
    → i < 3
    → ((j : ℕ) → j < i → f j ≡ Attempt.again)
    → (stages : List (List ℕ)) → f i ≡ Attempt.verdict stages
    → admit_with_retries f stored ≡ (Result.decided stages, i)
unfolding admit_with_retries
admit_with_retries_first f stored i k before s q = rw (attempts_first 3 i f k before s q) refl
