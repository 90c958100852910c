-- ===== src/Cek/Coherence/Unwind.antt =====
-- The transitions of Cek/Unwind.antt keep the invariant.
use regel.Base.{
  ◌%◌, ◌==◌, ◌≡◌, true, false, some, List, [], ◌∷◌, get_elem?, arith, Bool-cases, inl, inr,
}
use regel.Rast.{Node, kids, word}
use regel.Rast.Fits.{fits}
use regel.Cek.Bind.{bind_pattern}
use regel.Cek.Machine.{
  Meter, Machine, Frame, FrameKind, Step, Interp, Mode, SigKind, incr, bad_pattern, navigate, child,
}
use regel.Cek.Call.{restore_caller}
use regel.Cek.Unwind.{
  uncaught, is_return, unwind_ret, enter_catch, handle, unwind_catch, unwind_loop, unwind_switch,
  unwind_frame, unwind_step,
}
use regel.Cek.Coherence.{CoherentAt, Keeps, Below, FrameAt, FramesOk, LoadsFit, is_ret, clock}
use regel.Cek.Coherence.Basic.{navigate-child, enter_below, unwind_below, need-Keeps, if-Keeps}
use regel.Cek.Coherence.Cases.{bound-Keeps}
use regel.Cek.Coherence.Control.{trigger_finally-Keeps}
use regel.Cek.Coherence.Loops.{
  leave-Keeps, for_eval_incr-Keeps, while_eval_cond-Keeps, do_while_eval_cond-Keeps,
  for_of_step-Keeps,
}
use regel.Cek.Coherence.Call.{frame_top, Caller-top, restored_apply, restored_unwind}

uncaught-Keeps : (I : Interp) (mt : Meter) (k : SigKind) (m : Machine) → Keeps I mt (uncaught k m)
unfolding uncaught
uncaught-Keeps I mt SigKind.throw m = tt
uncaught-Keeps I mt SigKind.return m = tt
uncaught-Keeps I mt SigKind.break m = tt
uncaught-Keeps I mt SigKind.continue m = tt

unwind_ret-Keeps :
    (I : Interp) (mt : Meter) (f : Frame) (rest : List Frame) (m : Machine)
    → is_ret f.kind ≡ true
    → FramesOk I m.root (f ∷ rest)
    → clock m.meter ≡ clock mt
    → Keeps I mt (unwind_ret I f rest m)
unfolding unwind_ret restore_caller
unwind_ret-Keeps I mt f [] m k ok same = uncaught-Keeps I mt m.sig.kind (record m { kont = [] })
unwind_ret-Keeps I mt f (g ∷ rest) m k ok same =
    let c = Caller-top I mt m.root f g rest k ok in
    if-Keeps I mt (is_return m.sig.kind) _ _ (λ _. restored_apply I mt f (g ∷ rest) m c same)
      (λ _. restored_unwind I mt f (g ∷ rest) m c same)

module _ (I : Interp) (mt : Meter) (f : Frame) (rest : List Frame) (m : Machine)
    (fit : fits m.root ≡ true) (b : Below I mt m.meter m.def_hash m.root rest)
    (at : FrameAt m.root f) (mode : m.mode ≡ Mode.unwind) where
  -- The frame is dropped, and the signal goes on.
  drop_frame : CoherentAt I mt m.meter m.def_hash m.root m.mode m.node m.path rest
  drop_frame = rw mode (unwind_below b)

  handle-Keeps : Keeps I mt (handle I f rest m)
  unfolding handle enter_catch
  handle-Keeps = need-Keeps I mt (get_elem? (kids f.node) 1) _ λ cl z.
      if-Keeps I mt (word cl % 2 == 1) _ _
        (λ _. need-Keeps I mt (get_elem? (kids cl) 0) _ λ pat y.
          bound-Keeps I mt (bind_pattern I.floats pat m.sig.val m.heap []) bad_pattern m _ λ h vs.
            need-Keeps I mt (get_elem? (kids cl) 1) _
              λ body x. enter_below b (in_catch cl body z x))
        (λ _.
          need-Keeps I mt (get_elem? (kids cl) 1) _ λ body x. enter_below b (in_catch cl body z x))
    where
      in_catch :
          (cl body : Node)
          → get_elem? (kids f.node) 1 ≡ some cl
          → get_elem? (kids cl) 1 ≡ some body
          → navigate m.root (child (child f.path 1) 1) ≡ some body
      in_catch cl body z x =
          navigate-child m.root cl body _ 1 fit
            (navigate-child m.root f.node cl f.path 1 fit at.1 z) x

  unwind_catch-Keeps : (k : SigKind) → Keeps I mt (unwind_catch I k f rest m)
  unfolding unwind_catch
  unwind_catch-Keeps SigKind.throw = handle-Keeps
  unwind_catch-Keeps SigKind.return = drop_frame
  unwind_catch-Keeps SigKind.break = drop_frame
  unwind_catch-Keeps SigKind.continue = drop_frame

  unwind_loop-Keeps :
      (k : SigKind) (s : Step) → Keeps I mt s → Keeps I mt (unwind_loop k s f rest m)
  unfolding unwind_loop
  unwind_loop-Keeps SigKind.throw s h = drop_frame
  unwind_loop-Keeps SigKind.return s h = drop_frame
  unwind_loop-Keeps SigKind.break s h = leave-Keeps I mt rest m fit b f
  unwind_loop-Keeps SigKind.continue s h = h

  unwind_switch-Keeps : (k : SigKind) → Keeps I mt (unwind_switch k f rest m)
  unfolding unwind_switch
  unwind_switch-Keeps SigKind.throw = drop_frame
  unwind_switch-Keeps SigKind.return = drop_frame
  unwind_switch-Keeps SigKind.break = leave-Keeps I mt rest m fit b f
  unwind_switch-Keeps SigKind.continue = drop_frame

  -- Any frame but a boundary.
  plain_frame-Keeps : (k : FrameKind) → is_ret k ≡ false → Keeps I mt (unwind_frame I k f rest m)
  unfolding unwind_frame
  plain_frame-Keeps FrameKind.ret r = absurd (ground arith)
  plain_frame-Keeps FrameKind.catch r = unwind_catch-Keeps m.sig.kind
  plain_frame-Keeps FrameKind.finally r = trigger_finally-Keeps I mt f rest m fit b at (some m.sig)
  plain_frame-Keeps FrameKind.for_loop r =
      unwind_loop-Keeps m.sig.kind _ (for_eval_incr-Keeps I mt rest m fit b f at)
  plain_frame-Keeps FrameKind.while_loop r =
      unwind_loop-Keeps m.sig.kind _ (while_eval_cond-Keeps I mt rest m fit b f at)
  plain_frame-Keeps FrameKind.do_while r =
      unwind_loop-Keeps m.sig.kind _ (do_while_eval_cond-Keeps I mt rest m fit b f at)
  plain_frame-Keeps FrameKind.for_of r =
      unwind_loop-Keeps m.sig.kind _
        (for_of_step-Keeps I mt rest m fit b (record f { idx = incr f.idx }) at)
  plain_frame-Keeps FrameKind.switch r = unwind_switch-Keeps m.sig.kind
  plain_frame-Keeps _ r = drop_frame

ret_case :
    (I : Interp) (mt : Meter) (k : FrameKind) (f : Frame) (rest : List Frame) (m : Machine)
    → is_ret k ≡ true
    → Keeps I mt (unwind_ret I f rest m)
    → Keeps I mt (unwind_frame I k f rest m)
unfolding unwind_frame
ret_case I mt FrameKind.ret f rest m t h = h
ret_case I mt _ f rest m t h = absurd (ground arith)

unwind_frame-Keeps :
    (I : Interp) (mt : Meter)
    → LoadsFit I
    → (f : Frame) (rest : List Frame) (m : Machine) → m.mode ≡ Mode.unwind
    → CoherentAt I mt m.meter m.def_hash m.root Mode.unwind m.node m.path (f ∷ rest)
    → Keeps I mt (unwind_frame I f.kind f rest m)
unwind_frame-Keeps I mt ok f rest m e c = elim (Bool-cases (is_ret f.kind)) [
  | inl t ↦ ret_case I mt f.kind f rest m t (unwind_ret-Keeps I mt f rest m t c.frames c.metered)
  | inr t ↦
      let top = frame_top I mt m.root f rest t c.frames in
      plain_frame-Keeps I mt f rest m (ok m.def_hash m.root c.loaded).0
        (record { loaded = c.loaded; named = c.named; metered = c.metered; frames = top.1 }) top.0 e
        f.kind t
]

pub unwind_step-Keeps :
    (I : Interp) (mt : Meter)
    → LoadsFit I
    → (kont : List Frame) (m : Machine) → m.mode ≡ Mode.unwind
    → CoherentAt I mt m.meter m.def_hash m.root Mode.unwind m.node m.path kont
    → Keeps I mt (unwind_step I kont m)
unfolding unwind_step
unwind_step-Keeps I mt ok [] m e c = uncaught-Keeps I mt m.sig.kind m
unwind_step-Keeps I mt ok (f ∷ rest) m e c = unwind_frame-Keeps I mt ok f rest m e c
