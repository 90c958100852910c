-- ===== src/Cek/Coherence/Start.antt =====
-- newMachine of internal/cek/machine.go starts in a coherent state; so whatever a run parks, Resume
-- takes up again.
use regel.Base.{
  Str, List, ℕ, ◌≡◌, refl, ap, sym, ◌∙◌, true, false, Option, none, some, [], ◌∷◌, get_elem?, arith,
  is_empty, Bool-cases, inl, inr,
}
use regel.Rast.{Node, Kind, kind, kids}
use regel.Cek.Value.{Value, ClosureObj, Path16, Heap}
use regel.Cek.Bind.{Activation, activation, bad_parameters, activation_crash, bind_params}
use regel.Cek.Machine.{
  Machine, Interp, State, navigate, Principal, error, parked, Condition, Wake, Fault,
}
use regel.Cek.Initial.{fresh, Budget, initial_state}
use regel.Cek.Coherence.Initial.{initial_state-Fresh}
use regel.Cek.Run.{ended, run}
use regel.Cek.Resume.{
  Delivery, Resumed, live, halted, dead, resume, new_machine, RunReq, is_abort, enter_function,
  seed,
}
use regel.Cek.Coherence.{Coherent, bottom, StateOk, LoadsFit}
use regel.Cek.Coherence.Turn.{run-RunOk}
use regel.Cek.Coherence.Rebind.{Live, strip_state, resume-Live}

abbrev Starts : Interp → Resumed → Type 0
Starts I (live m) = Coherent I m
Starts I _ = Unit {0}

module _ (I : Interp) where
  option-Starts {ℓ} :
      {A : Type ℓ} (o : Option A) (a : Resumed) (k : A → Resumed)
      → Starts I a
      → ((v : A) → o ≡ some v → Starts I (k v))
      → Starts I (elim o [ none ↦ a | some v ↦ k v ])
  option-Starts none a k h g = h
  option-Starts (some v) a k h g = g v refl

  kind-Starts :
      (k : Kind) (a b : Resumed)
      → Starts I a
      → Starts I b
      → Starts I (elim k [ Kind.func ↦ a | _ ↦ b ])
  kind-Starts Kind.func a b h g = h
  kind-Starts _ a b h g = g

  activation-Starts :
      (r : Activation) (x : Fault) (k : Heap → ℕ → Resumed)
      → ((h : Heap) (a : ℕ) → Starts I (k h a))
      → Starts I (elim r [
        | activation_crash ↦ dead
        | bad_parameters ↦ halted (error x)
        | activation h a ↦ k h a
      ])
  activation-Starts activation_crash x k h = tt
  activation-Starts bad_parameters x k h = tt
  activation-Starts (activation g a) x k h = h g a

  seed-Coherent :
      (r : RunReq) (root n : Node) (p : Path16) (e : Option ℕ) (h : Heap)
      → LoadsFit I
      → I.load r.def_hash ≡ some root
      → navigate root p ≡ some n
      → Coherent I (seed r root n p e h)
  unfolding seed is_empty
  seed-Coherent r root n p e h ok l at = record {
    loaded = l;
    named = (ok r.def_hash root l).1;
    metered = refl;
    at_node = at;
    frames = bottom root _ refl refl;
  }

  enter_function-Starts :
      (r : RunReq) (root : Node)
      → LoadsFit I
      → I.load r.def_hash ≡ some root
      → Starts I (enter_function I r root)
  unfolding enter_function
  enter_function-Starts r root ok l =
      activation-Starts (bind_params I.floats root r.args r.root_env r.heap) _ _ λ h a.
        option-Starts (get_elem? (kids root) 3) dead _ tt λ body z.
          seed-Coherent r root body (3 ∷ []) (some a) h ok l (unfold navigate in rw z refl)

  new_machine-Starts : (r : RunReq) → LoadsFit I → Starts I (new_machine I r)
  unfolding new_machine
  new_machine-Starts r ok = option-Starts (I.load r.def_hash) _ _ tt λ root l.
      kind-Starts (kind root) _ _ (enter_function-Starts r root ok l)
        (seed-Coherent r root root [] r.root_env r.heap ok l (unfold navigate in refl))

-- Where every definition that loads has a name, paths of 16-bit indices, functions with a body and no
-- do-while, the machine that a request starts is coherent.
pub new_machine-Coherent :
    (I : Interp) (r : RunReq) (m : Machine) → LoadsFit I → new_machine I r ≡ live m → Coherent I m
new_machine-Coherent I r m ok e = rw e at (new_machine-Starts I r ok)

-- The states that a computation parks in: a request is run until it parks, or a fresh state is made, the state is read back and
-- resumed, run until it parks again, and so on.
pub data Stored (I : Interp) : State → Type 0 where
  first :
      (r : RunReq) (n : ℕ) (m m' : Machine) (st : State) (c : Option Condition) (w : Option Wake)
      → new_machine I r ≡ live m
      → run I n m ≡ ended (parked st c w) m'
      → Stored I st
  seeded :
      (b : Budget) (d : Str) (c : Option ClosureObj) (args : List Value) (h : Heap) (st : State)
      → initial_state I b d c args h ≡ fresh st
      → Stored I st
  again :
      (old : State) (d : Delivery) (p : Principal) (n : ℕ) (m m' : Machine) (st : State)
      (c : Option Condition) (w : Option Wake)
      → Stored I old
      → resume I (strip_state old) d p ≡ live m
      → run I n m ≡ ended (parked st c w) m'
      → Stored I st

live_inj : (a b : Machine) → live a ≡ live b → a ≡ b
live_inj a b e = ap machine_of e
  where
    machine_of : Resumed → Machine
    machine_of (live m) = m
    machine_of _ = a

aborted_dead :
    (I : Interp) (st : State) (d : Delivery) (p : Principal) (m : Machine)
    → is_abort d.restart ≡ true
    → resume I st d p ≡ live m
    → ⊥
unfolding resume
aborted_dead I st d p m a e = absurd (ground arith)

resumed-Coherent :
    (I : Interp) (st : State) (d : Delivery) (p : Principal) (m : Machine)
    → StateOk I st
    → resume I (strip_state st) d p ≡ live m
    → Coherent I m
resumed-Coherent I st d p m ok e = elim (Bool-cases (is_abort d.restart)) [
  | inl a ↦ absurd (aborted_dead I (strip_state st) d p m a e)
  | inr a ↦ let l = resume-Live I st d p ok a in rw (live_inj l.0 m (sym l.1 ∙ e)) at l.2
]

pub Stored-StateOk : (I : Interp) → LoadsFit I → (st : State) → Stored I st → StateOk I st
Stored-StateOk I ok _ (first r n m m' st c w e h) =
    rw h at (run-RunOk I n m ok (new_machine-Coherent I r m ok e))
Stored-StateOk I ok _ (seeded b d c args h st e) = rw e at (initial_state-Fresh I ok b d c args h)
Stored-StateOk I ok _ (again old d p n m m' st c w s e h) =
    rw h at (run-RunOk I n m ok (resumed-Coherent I old d p m (Stored-StateOk I ok old s) e))

-- Where every definition that loads has a name, paths of 16-bit indices, functions with a body and no
-- do-while: whatever state a computation parks in, however often it was parked and resumed before, Resume
-- takes it up again, unless the choice is to abort. Its frames are read back without their nodes, each
-- path still leads to its node, and the machine is coherent and ready to run.
pub Stored-resumes :
    (I : Interp) (st : State) (d : Delivery) (p : Principal)
    → LoadsFit I
    → Stored I st
    → is_abort d.restart ≡ false
    → Live I (resume I (strip_state st) d p)
Stored-resumes I st d p ok s a = resume-Live I st d p (Stored-StateOk I ok st s) a
