-- ===== src/Cek/Coherence/Turn.antt =====
-- The loop of internal/cek/machine.go keeps the invariant, turn by turn.
use regel.Base.{ℕ, zero, suc, ◌+◌, ◌≡◌, refl}
use regel.Cek.Machine.{Machine, Step, next, stop, crash, Interp, Mode, Meter}
use regel.Cek.Run.{tick, dispatch, turn, park_meter, Run, ended, crashed, unfinished, run}
use regel.Cek.Coherence.{CoherentFor, Coherent, Keeps, LoadsFit, OutcomeOk}
use regel.Cek.Coherence.Basic.{if-Keeps}
use regel.Cek.Coherence.Eval.{eval_step-Keeps}
use regel.Cek.Coherence.Apply.{apply_step-Keeps}
use regel.Cek.Coherence.Unwind.{unwind_step-Keeps}

dispatch-Keeps :
    (I : Interp) (mt : Meter)
    → LoadsFit I
    → (k : Mode) (m : Machine) → m.mode ≡ k
    → CoherentFor I mt m
    → Keeps I mt (dispatch I k m)
unfolding dispatch
dispatch-Keeps I mt ok Mode.eval m e c =
    eval_step-Keeps I mt m (ok m.def_hash m.root c.loaded).0
      (record { loaded = c.loaded; named = c.named; metered = c.metered; frames = c.frames })
      (rw e at c.at_node)
dispatch-Keeps I mt ok Mode.apply m e c = apply_step-Keeps I mt ok m.kont m (rw e at c)
dispatch-Keeps I mt ok Mode.unwind m e c = unwind_step-Keeps I mt ok m.kont m e (rw e at c)

-- A meter parks in the state of the machine, in whatever mode it is.
park_meter-OutcomeOk :
    (I : Interp) (mt : Meter) (m : Machine) → CoherentFor I mt m → OutcomeOk I (park_meter m)
unfolding park_meter
park_meter-OutcomeOk I mt m c = record {
  root = m.root;
  node = m.node;
  loaded = c.loaded;
  named = c.named;
  at_node = c.at_node;
  frames = c.frames;
}

-- The machine with its meter ticked.
ticked-Coherent :
    (I : Interp) (m : Machine) (n : ℕ)
    → Coherent I m
    → Coherent I (record m { meter = (tick I m.meter).meter; transitions = n })
ticked-Coherent I m n c = record {
  loaded = c.loaded;
  named = c.named;
  metered = refl;
  at_node = c.at_node;
  frames = c.frames;
}

-- Where every definition that loads has a name, paths of 16-bit indices, functions with a body and no
-- do-while: one turn of the loop from a coherent machine reaches a coherent machine whose meter shows
-- what the tick left, or parks in a state that can be rebound, or ends the run.
pub turn-Keeps :
    (I : Interp) (m : Machine)
    → LoadsFit I
    → Coherent I m
    → Keeps I (tick I m.meter).meter (turn I m)
unfolding turn
turn-Keeps I m ok c =
    if-Keeps I (tick I m.meter).meter (tick I m.meter).go_on _ _
      (λ _.
        dispatch-Keeps I (tick I m.meter).meter ok m.mode _ refl
          (ticked-Coherent I m (m.transitions + 1) c))
      (λ _.
        park_meter-OutcomeOk I (tick I m.meter).meter (record m { meter = (tick I m.meter).meter })
          (ticked-Coherent I m m.transitions c))

-- Forget what the meter showed.
pub Coherent-now : (I : Interp) (mt : Meter) (m : Machine) → CoherentFor I mt m → Coherent I m
Coherent-now I mt m c = record {
  loaded = c.loaded;
  named = c.named;
  metered = refl;
  at_node = c.at_node;
  frames = c.frames;
}

abbrev pub RunOk : Interp → Run → Type 0
RunOk I (ended o m) = OutcomeOk I o
RunOk I (unfinished m) = Coherent I m
RunOk I crashed = Unit {0}

abbrev pub continue_run : Interp → ℕ → Step → Run
continue_run I n (next m) = run I n m
continue_run I n (stop o m) = ended o m
continue_run I n crash = crashed

continue_run-RunOk :
    (I : Interp) (mt : Meter) (n : ℕ) (s : Step)
    → ((m : Machine) → Coherent I m → RunOk I (run I n m))
    → Keeps I mt s
    → RunOk I (continue_run I n s)
continue_run-RunOk I mt n (next m) h c = h m (Coherent-now I mt m c)
continue_run-RunOk I mt n (stop o m) h c = c
continue_run-RunOk I mt n crash h c = tt

pub run-suc : (I : Interp) (n : ℕ) (m : Machine) → run I (suc n) m ≡ continue_run I n (turn I m)
unfolding run
run-suc I n m = by_step (turn I m)
  where
    by_step :
        (s : Step)
        → elim s [ next m' ↦ run I n m' | stop o m' ↦ ended o m' | crash ↦ crashed ]
          ≡ continue_run I n s
    by_step (next m') = refl
    by_step (stop o m') = refl
    by_step crash = refl

-- Where every definition that loads has a name, paths of 16-bit indices, functions with a body and no
-- do-while: a run of any number of turns from a coherent machine stays coherent; if it parks, the state
-- that it captures can be rebound.
pub run-RunOk : (I : Interp) (n : ℕ) (m : Machine) → LoadsFit I → Coherent I m → RunOk I (run I n m)
run-RunOk I zero m ok c = unfold run in c
run-RunOk I (suc n) m ok c = rw (run-suc I n m) (
    continue_run-RunOk I (tick I m.meter).meter n (turn I m) (λ m' c'. run-RunOk I n m' ok c')
      (turn-Keeps I m ok c))
