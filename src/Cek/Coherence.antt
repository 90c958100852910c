-- ===== src/Cek/Coherence.antt =====
-- The invariant behind pausing (internal/cek/machine.go, resume.go): a path is enough to find the node
-- again. In Eval mode the path leads to the current node, and every frame's path leads to its node, in
-- the definition that the frame runs in.
pub mod Basic
pub mod Cases
pub mod Control
pub mod Loops
pub mod Assign
pub mod Call
pub mod Eval
pub mod Apply
pub mod Unwind
pub mod Turn
pub mod Rebind
pub mod Meters
pub mod Initial
pub mod Start
pub mod Pause
use regel.Base.{◌≡◌, Bool, true, false, List, [], ◌∷◌, some, Str, is_empty}
use regel.Base.Int.{pos}
use regel.Rast.{Node}
use regel.Rast.Fits.{fits}
use regel.Cek.Value.{Path16}
use regel.Cek.Machine.{
  Machine, Frame, FrameKind, Step, next, stop, crash, Outcome, done, parked, faulted, error, State,
  Interp, Mode, navigate, Meter, fuel_meter, governor_meter,
}

abbrev pub is_ret : FrameKind → Bool
is_ret FrameKind.ret = true
is_ret _ = false

-- The frames from the top down, below a root.
pub data FramesOk (I : Interp) : Node → List Frame → Type 0 where
  none_left : (root : Node) → FramesOk I root []
  plain :
      (root : Node) (f : Frame) (fs : List Frame)
      → is_ret f.kind ≡ false
      → navigate root f.path ≡ some f.node
      → FramesOk I root fs
      → FramesOk I root (f ∷ fs)
  caller :
      (root root' : Node) (f : Frame) (fs : List Frame)
      → f.kind ≡ FrameKind.ret
      → is_empty f.ret_def ≡ false
      → I.load f.ret_def ≡ some root'
      → FramesOk I root' fs
      → FramesOk I root (f ∷ fs)
  bottom :
      (root : Node) (f : Frame)
      → f.kind ≡ FrameKind.ret
      → is_empty f.ret_def ≡ true
      → FramesOk I root (f ∷ [])

-- The definitions that are loaded can be addressed and hold no do-while, and have a name.
abbrev pub LoadsFit : Interp → Type 0
LoadsFit I =
    (d : Str) (root : Node) → I.load d ≡ some root → (fits root ≡ true) × (is_empty d ≡ false)

abbrev pub AtNode : Mode → Node → Path16 → Node → Type 0
AtNode Mode.eval root p n = navigate root p ≡ some n
AtNode _ root p n = Unit {0}

-- A meter but for its byte budget: what a transition leaves alone.
abbrev pub clock : Meter → Meter
clock (fuel_meter steps bytes) = fuel_meter steps (pos 0)
clock (governor_meter count ceiling) = governor_meter count ceiling

-- Over the registers: the meter, then definition, root, mode, node, path, frames. `mt` is the meter
-- when the transition began.
pub record CoherentAt (I : Interp) (mt : Meter) (meter : Meter) (d : Str) (root : Node)
    (mode : Mode) (n : Node) (p : Path16) (kont : List Frame) : Type 0 where
  pub loaded : I.load d ≡ some root
  pub named : is_empty d ≡ false
  pub metered : clock meter ≡ clock mt
  pub at_node : AtNode mode root p n
  pub frames : FramesOk I root kont

-- The invariant of a machine whose meter shows what `mt` does.
abbrev pub CoherentFor : Interp → Meter → Machine → Type 0
CoherentFor I mt m = CoherentAt I mt m.meter m.def_hash m.root m.mode m.node m.path m.kont

abbrev pub Coherent : Interp → Machine → Type 0
Coherent I m = CoherentFor I m.meter m

-- What a transition knows of the frames below the top one, and of the top one.
pub record Below (I : Interp) (mt : Meter) (meter : Meter) (d : Str) (root : Node)
    (rest : List Frame) : Type 0 where
  pub loaded : I.load d ≡ some root
  pub named : is_empty d ≡ false
  pub metered : clock meter ≡ clock mt
  pub frames : FramesOk I root rest

abbrev pub FrameAt : Node → Frame → Type 0
FrameAt root f = (is_ret f.kind ≡ false) × (navigate root f.path ≡ some f.node)

-- The same for the state that a park captures: it can be rebound.
pub record StateOk (I : Interp) (st : State) : Type 0 where
  pub root : Node
  pub node : Node
  pub loaded : I.load st.def_hash ≡ some root
  pub named : is_empty st.def_hash ≡ false
  pub at_node : AtNode st.mode root st.path node
  pub frames : FramesOk I root st.kont

abbrev pub OutcomeOk : Interp → Outcome → Type 0
OutcomeOk I (parked st c w) = StateOk I st
OutcomeOk I _ = Unit {0}

-- A transition keeps the invariant and the clock, or parks in a state that has the invariant.
abbrev pub Keeps : Interp → Meter → Step → Type 0
Keeps I mt (next m) = CoherentFor I mt m
Keeps I mt (stop o m) = OutcomeOk I o
Keeps I mt crash = Unit {0}
