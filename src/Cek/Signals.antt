-- ===== src/Cek/Signals.antt =====
-- Signals of internal/cek/unwind.go across several transitions: a throw finds the nearest handler, and
-- a finally block runs before the signal goes on.
use regel.Base.{
  ◌≡◌, refl, ap, ◌∙◌, Bool, true, false, not, ◌&&◌, Option, none, some, List, [], ◌∷◌, ◌++◌, arith,
  get_elem?,
}
use regel.Rast.{kids}
use regel.Cek.Machine.{
  Machine, Frame, FrameKind, Step, next, Interp, Mode, SigKind, Signal, need, zero_frame,
}
use regel.Cek.Control.{trigger_finally}
use regel.Cek.Apply.{apply_step, apply_frame, apply_finally_run}
use regel.Cek.Unwind.{unwind_step, unwind_frame, unwind_loop, unwind_switch}
use regel.Cek.Run.{dispatch}

-- Some transitions of the machine, in its own modes, meters aside.
pub data Steps (I : Interp) : Machine → Machine → Type 0 where
  here : (m : Machine) → Steps I m m
  step : (m m1 m2 : Machine) → dispatch I m.mode m ≡ next m1 → Steps I m1 m2 → Steps I m m2

-- The frames that neither end an activation nor handle an exception.
abbrev pub handles : FrameKind → Bool
handles FrameKind.ret = true
handles FrameKind.catch = true
handles FrameKind.finally = true
handles _ = false

abbrev pub none_handles : List Frame → Bool
none_handles [] = true
none_handles (f ∷ fs) = not (handles f.kind) && none_handles fs

-- What unwinding leaves alone.
pub record Unwound (m : Machine) (rest : List Frame) (m' : Machine) : Type 0 where
  pub kont : m'.kont ≡ rest
  pub mode : m'.mode ≡ Mode.unwind
  pub sig : m'.sig ≡ m.sig
  pub heap : m'.heap ≡ m.heap
  pub def_hash : m'.def_hash ≡ m.def_hash
  pub root : m'.root ≡ m.root

abbrev Drops : List Frame → Machine → Step → Type 0
Drops rest m s = (m' : Machine) × (s ≡ next m') × Unwound m rest m'

thrown_loop :
    (k : SigKind) (again : Step) (f : Frame) (rest : List Frame) (m : Machine)
    → m.mode ≡ Mode.unwind
    → k ≡ SigKind.throw
    → Drops rest m (unwind_loop k again f rest m)
unfolding unwind_loop
thrown_loop SigKind.throw again f rest m e h = (
  _,
  refl,
  record { kont = refl; mode = e; sig = refl; heap = refl; def_hash = refl; root = refl },
)
thrown_loop SigKind.return again f rest m e h = (
  _,
  refl,
  record { kont = refl; mode = e; sig = refl; heap = refl; def_hash = refl; root = refl },
)
thrown_loop SigKind.break again f rest m e h = absurd (ground arith)
thrown_loop SigKind.continue again f rest m e h = absurd (ground arith)

thrown_switch :
    (k : SigKind) (f : Frame) (rest : List Frame) (m : Machine)
    → m.mode ≡ Mode.unwind
    → k ≡ SigKind.throw
    → Drops rest m (unwind_switch k f rest m)
unfolding unwind_switch
thrown_switch SigKind.throw f rest m e h = (
  _,
  refl,
  record { kont = refl; mode = e; sig = refl; heap = refl; def_hash = refl; root = refl },
)
thrown_switch SigKind.return f rest m e h = (
  _,
  refl,
  record { kont = refl; mode = e; sig = refl; heap = refl; def_hash = refl; root = refl },
)
thrown_switch SigKind.continue f rest m e h = (
  _,
  refl,
  record { kont = refl; mode = e; sig = refl; heap = refl; def_hash = refl; root = refl },
)
thrown_switch SigKind.break f rest m e h = absurd (ground arith)

-- One frame that does not handle it is dropped.
thrown_frame :
    (I : Interp) (k : FrameKind) (f : Frame) (rest : List Frame) (m : Machine)
    → handles k ≡ false
    → m.mode ≡ Mode.unwind
    → m.sig.kind ≡ SigKind.throw
    → Drops rest m (unwind_frame I k f rest m)
unfolding unwind_frame
thrown_frame I FrameKind.ret f rest m h e t = absurd (ground arith)
thrown_frame I FrameKind.catch f rest m h e t = absurd (ground arith)
thrown_frame I FrameKind.finally f rest m h e t = absurd (ground arith)
thrown_frame I FrameKind.for_loop f rest m h e t = thrown_loop m.sig.kind _ f rest m e t
thrown_frame I FrameKind.while_loop f rest m h e t = thrown_loop m.sig.kind _ f rest m e t
thrown_frame I FrameKind.do_while f rest m h e t = thrown_loop m.sig.kind _ f rest m e t
thrown_frame I FrameKind.for_of f rest m h e t = thrown_loop m.sig.kind _ f rest m e t
thrown_frame I FrameKind.switch f rest m h e t = thrown_switch m.sig.kind f rest m e t
thrown_frame I _ f rest m h e t = (
  _,
  refl,
  record { kont = refl; mode = e; sig = refl; heap = refl; def_hash = refl; root = refl },
)

Unwound-trans :
    (m m1 m2 : Machine) (fs gs : List Frame) → Unwound m fs m1 → Unwound m1 gs m2 → Unwound m gs m2
Unwound-trans m m1 m2 fs gs a b = record {
  kont = b.kont;
  mode = b.mode;
  sig = b.sig ∙ a.sig;
  heap = b.heap ∙ a.heap;
  def_hash = b.def_hash ∙ a.def_hash;
  root = b.root ∙ a.root;
}

-- One transition in Unwind mode, over the top frame.
unwind_top :
    (I : Interp) (m : Machine) (f : Frame) (fs : List Frame)
    → m.mode ≡ Mode.unwind
    → m.kont ≡ f ∷ fs
    → dispatch I m.mode m ≡ unwind_frame I f.kind f fs m
unfolding dispatch unwind_step
unwind_top I m f fs e k = rw (e, k) refl

-- A throw drops the frames above the nearest handler, one in each transition, and leaves the heap, the
-- signal and the definition as they are: the handler is reached with exactly the frames below it.
pub throw_reaches :
    (I : Interp) (fs rest : List Frame) (m : Machine)
    → none_handles fs ≡ true
    → m.mode ≡ Mode.unwind
    → m.sig.kind ≡ SigKind.throw
    → m.kont ≡ fs ++ rest
    → (m' : Machine) × Steps I m m' × Unwound m rest m'
throw_reaches I [] rest m h e t k = (
  m,
  here m,
  record { kont = k; mode = e; sig = refl; heap = refl; def_hash = refl; root = refl },
)
throw_reaches I (f ∷ fs) rest m h e t k =
    let (m1, q, u) = thrown_frame I f.kind f (fs ++ rest) m (ground (arith, h)) e t in
    let (m2, s, w) =
      throw_reaches I fs rest m1 (ground (arith, h)) u.mode (ap (λ x. x.kind) u.sig ∙ t) u.kont in
    (
      m2,
      step m m1 m2 (unwind_top I m f (fs ++ rest) e k ∙ q) s,
      Unwound-trans m m1 m2 (fs ++ rest) rest u w,
    )

pub next_inj : (m m' : Machine) → next m ≡ next m' → m ≡ m'
next_inj m m' e = ap machine_of e
  where
    machine_of : Step → Machine
    machine_of (next x) = x
    machine_of _ = m

-- What holds of every continuation of a step, holds of where the step leads.
pub need_next {ℓ} :
    {A : Type ℓ} (P : Machine → Type 0) (o : Option A) (g : A → Machine) (m1 : Machine)
    → ((a : A) → P (g a))
    → need o (λ a. next (g a)) ≡ next m1
    → P m1
need_next P none g m1 h e = absurd (ground arith)
need_next P (some a) g m1 h e = rw (next_inj (g a) m1 e) at (h a)

-- The frame that a finally block runs on.
finally_run_frame : Frame → Signal → Frame
finally_run_frame f s = record (zero_frame FrameKind.finally_run) {
  node = f.node;
  path = f.path;
  outer_env = f.outer_env;
  pend = some s;
}

triggered-kont :
    (f : Frame) (rest : List Frame) (s : Signal) (m m1 : Machine)
    → trigger_finally f rest (some s) m ≡ next m1
    → m1.kont ≡ finally_run_frame f s ∷ rest
unfolding trigger_finally finally_run_frame
triggered-kont f rest s m m1 h =
    need_next (λ x. x.kont ≡ finally_run_frame f s ∷ rest) (get_elem? (kids f.node) 2) _ m1
      (λ a. refl) h

-- A finally block that a signal set off: when the block ends with a value, whatever the machine did in
-- it, the signal goes on from the frames below, with the value dropped.
pub finally_resumes :
    (I : Interp) (f : Frame) (rest : List Frame) (s : Signal) (m m1 m2 : Machine)
    → trigger_finally f rest (some s) m ≡ next m1
    → m2.kont ≡ m1.kont
    → m2.mode ≡ Mode.apply
    → dispatch I m2.mode m2 ≡ next (record m2 { kont = rest; sig = s; mode = Mode.unwind })
unfolding dispatch apply_step apply_frame apply_finally_run finally_run_frame
finally_resumes I f rest s m m1 m2 h k e = rw (e, k, triggered-kont f rest s m m1 h) refl
