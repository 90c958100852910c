-- ===== src/Cek/Coherence/Rebind.antt =====
-- internal/cek/resume.go: what was parked can be resumed.
use regel.Base.{
  ◌≡◌, refl, false, Option, none, some, List, [], ◌∷◌, map, ◌∙◌, arith, if◌then◌else◌, is_empty,
}
use regel.Rast.{Node}
use regel.Cek.Machine.{
  Machine, Frame, FrameKind, Interp, Mode, State, absent_node, navigate, Principal, ParkKind, Tier,
}
use regel.Cek.Coerce.{Floats}
use regel.Cek.Value.{Value, Path16}
use regel.Cek.Run.{rebind}
use regel.Cek.Resume.{
  Delivery, RestartChoice, Resumed, live, resume, deliver, deliver_restart, deliver_value, fuelled,
  is_eval, is_abort, rebuilt, ready, or_absent,
}
use regel.Cek.Coherence.{Coherent, FramesOk, AtNode, plain, caller, bottom, StateOk, is_ret}

-- What is written of a frame: everything but the node it stands at.
abbrev pub strip : Frame → Frame
strip f = if is_ret f.kind then f else record f { node = absent_node }

pub plain_case {ℓ} :
    {A : Type ℓ} (k : FrameKind) (a b : A)
    → is_ret k ≡ false
    → (elim k [ FrameKind.ret ↦ a | _ ↦ b ]) ≡ b
plain_case FrameKind.ret a b e = absurd (ground arith)
plain_case _ a b e = refl

-- Rebinding frames from which the nodes were dropped gives back exactly the frames, if they are
-- coherent.
pub rebind-strip :
    (I : Interp) (root : Node) (fs : List Frame)
    → FramesOk I root fs
    → rebind I root (map strip fs) ≡ some fs
unfolding rebind is_empty
rebind-strip I root [] ok = refl
rebind-strip I root (f ∷ fs) (plain _ _ _ r e ok) =
    rw r (plain_case f.kind _ _ r ∙ rw (e, rebind-strip I root fs ok) refl)
rebind-strip I root (f ∷ fs) (caller _ root' _ _ e n l ok) =
    rw (e, n, l, rebind-strip I root' fs ok) refl
rebind-strip I root (f ∷ []) (bottom _ _ e n) = rw (e, n) refl

-- A state as it is read back: the frames without their nodes.
abbrev pub strip_state : State → State
strip_state st = record st { kont = map strip st.kont }

-- A resumption that yields a coherent machine, ready for its first turn.
abbrev pub Live : Interp → Resumed → Type 0
Live I r = (m : Machine) × (r ≡ live m) × Coherent I m

deliver-Coherent :
    (I : Interp) (pk : ParkKind) (d : Delivery) (m : Machine)
    → Coherent I m
    → Coherent I (deliver I.floats pk d m)
unfolding deliver
deliver-Coherent I ParkKind.signal d m c = at_call d.restart
  where
    at_call : (r : Option RestartChoice) → Coherent I (deliver_restart I.floats r m)
    at_call none = record {
      loaded = c.loaded;
      named = c.named;
      metered = refl;
      at_node = tt;
      frames = c.frames;
    }
    at_call (some r) = record {
      loaded = c.loaded;
      named = c.named;
      metered = refl;
      at_node = tt;
      frames = c.frames;
    }
deliver-Coherent I ParkKind.wake d m c = at_wake d.value
  where
    at_wake : (v : Option Value) → Coherent I (deliver_value v m)
    at_wake none = record {
      loaded = c.loaded;
      named = c.named;
      metered = refl;
      at_node = tt;
      frames = c.frames;
    }
    at_wake (some v) = record {
      loaded = c.loaded;
      named = c.named;
      metered = refl;
      at_node = tt;
      frames = c.frames;
    }
deliver-Coherent I ParkKind.fuel d m c = c
deliver-Coherent I ParkKind.governor d m c = c
deliver-Coherent I ParkKind.fresh d m c = c

fuelled-Coherent :
    (I : Interp) (r : Option RestartChoice) (t : Tier) (m : Machine)
    → Coherent I m
    → Coherent I (fuelled I.floats r t m)
unfolding fuelled
fuelled-Coherent I r Tier.trusted m c = record {
  loaded = c.loaded;
  named = c.named;
  metered = refl;
  at_node = c.at_node;
  frames = c.frames;
}
fuelled-Coherent I r Tier.sandbox m c = record {
  loaded = c.loaded;
  named = c.named;
  metered = refl;
  at_node = c.at_node;
  frames = c.frames;
}

-- Where the path leads nowhere, the mode is not Eval, before and after the delivery.
pub fuelled-mode :
    (F : Floats) (r : Option RestartChoice) (t : Tier) (m : Machine)
    → (fuelled F r t m).mode ≡ m.mode
unfolding fuelled
fuelled-mode F r Tier.trusted m = refl
fuelled-mode F r Tier.sandbox m = refl

deliver-mode :
    (F : Floats) (pk : ParkKind) (d : Delivery) (m : Machine)
    → is_eval m.mode ≡ false
    → is_eval (deliver F pk d m).mode ≡ false
unfolding deliver is_eval
deliver-mode F ParkKind.signal d m e = at_call d.restart
  where
    at_call : (r : Option RestartChoice) → is_eval (deliver_restart F r m).mode ≡ false
    at_call none = refl
    at_call (some r) = refl
deliver-mode F ParkKind.wake d m e = at_wake d.value
  where
    at_wake : (v : Option Value) → is_eval (deliver_value v m).mode ≡ false
    at_wake none = refl
    at_wake (some v) = refl
deliver-mode F ParkKind.fuel d m e = e
deliver-mode F ParkKind.governor d m e = e
deliver-mode F ParkKind.fresh d m e = e

-- The node that the path leads to stands at the path; and a path that leads nowhere will do outside
-- Eval mode.
found_at : (k : Mode) (root c : Node) (p : Path16) → navigate root p ≡ some c → AtNode k root p c
found_at Mode.eval root c p e = e
found_at Mode.apply root c p e = tt
found_at Mode.unwind root c p e = tt

pub lost_mode :
    (k : Mode) (root n : Node) (p : Path16)
    → navigate root p ≡ none
    → AtNode k root p n
    → is_eval k ≡ false
unfolding is_eval
lost_mode Mode.eval root n p e h = absurd (ground arith)
lost_mode Mode.apply root n p e h = refl
lost_mode Mode.unwind root n p e h = refl

lost_at : (k : Mode) (root n : Node) (p : Path16) → is_eval k ≡ false → AtNode k root p n
unfolding is_eval
lost_at Mode.eval root n p e = absurd (ground arith)
lost_at Mode.apply root n p e = tt
lost_at Mode.unwind root n p e = tt

module _ (I : Interp) (st : State) (d : Delivery) (p : Principal) (ok : StateOk I st) where
  rebuilt-Coherent :
      (n : Node) → AtNode st.mode ok.root st.path n → Coherent I (rebuilt st ok.root n st.kont p)
  unfolding rebuilt
  rebuilt-Coherent n at = record {
    loaded = ok.loaded;
    named = ok.named;
    metered = refl;
    at_node = at;
    frames = ok.frames;
  }

  pub ready-Live :
      (o : Option Node) → navigate ok.root st.path ≡ o → Live I (ready I st d p ok.root st.kont o)
  unfolding ready or_absent
  ready-Live (some c) e = (
    _,
    refl,
    fuelled-Coherent I d.restart st.tier _ (
        deliver-Coherent I st.park_kind d _
          (rebuilt-Coherent c (found_at st.mode ok.root c st.path e))),
  )
  ready-Live none e = (
    fuelled I.floats d.restart st.tier (deliver I.floats st.park_kind d lost),
    rw (fuelled-mode I.floats d.restart st.tier (deliver I.floats st.park_kind d lost), not_eval)
        refl,
    fuelled-Coherent I d.restart st.tier _ (
        deliver-Coherent I st.park_kind d lost
          (rebuilt-Coherent absent_node (lost_at st.mode ok.root absent_node st.path no_node))),
  )
    where
      lost : Machine
      lost = rebuilt st ok.root absent_node st.kont p

      no_node : is_eval st.mode ≡ false
      no_node = lost_mode st.mode ok.root ok.node st.path e ok.at_node

      not_eval : is_eval (deliver I.floats st.park_kind d lost).mode ≡ false
      not_eval = deliver-mode I.floats st.park_kind d lost no_node

-- Resuming a state that can be rebound, read back without the nodes of its frames, yields a coherent
-- machine, whatever is delivered, unless the choice is to abort.
pub resume-Live :
    (I : Interp) (st : State) (d : Delivery) (p : Principal)
    → StateOk I st
    → is_abort d.restart ≡ false
    → Live I (resume I (strip_state st) d p)
unfolding resume
resume-Live I st d p ok e =
    rw (e, ok.loaded, rebind-strip I ok.root st.kont ok.frames)
      (ready-Live I st d p ok (navigate ok.root st.path) refl)
