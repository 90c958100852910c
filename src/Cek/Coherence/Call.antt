-- ===== src/Cek/Coherence/Call.antt =====
-- The transitions of Cek/Call.antt keep the invariant; a parked call leaves a state that can be rebound.
use regel.Base.{
  ◌%◌, ◌≡◌, refl, true, false, ◌&&◌, some, List, [], ◌∷◌, get_elem?, drop, arith, Str, is_empty,
  ◌==◌,
}
use regel.Base.Int.{pos}
use regel.Rast.{Node, kids, kind, word}
use regel.Rast.Fits.{fits}
use regel.Cek.Value.{Value, Path16, closure_at, ClosureObj, is_nullish}
use regel.Cek.Bind.{bind_params}
use regel.Cek.Machine.{
  Meter, Machine, Frame, crash, fault, Interp, Mode, navigate, incr, NativeResult, NativePark,
  on_condition, on_wake, bad_arguments, not_callable, no_definition, no_callee, no_native,
}
use regel.Cek.Control.{is_spread}
use regel.Cek.Call.{
  park_at, finish_native, perform_native, enter, invoke, call_closure, perform_call, arg_advance,
  collect, call_resume, restore_caller, conforms,
}
use regel.Cek.Coherence.{
  CoherentAt, Keeps, Below, FrameAt, FramesOk, plain, caller, bottom, LoadsFit, is_ret, clock,
}
use regel.Cek.Coherence.Basic.{
  navigate-child, enter_node, deliver_below, need-Keeps, if-Keeps, cursor-Keeps,
}
use regel.Cek.Coherence.Cases.{
  first-Keeps, option-Keeps, activation-Keeps, callee-Keeps, closure_value-Keeps,
}

module _ (I : Interp) (mt : Meter) (ok : LoadsFit I) (rest : List Frame) (m : Machine)
    (b : Below I mt m.meter m.def_hash m.root rest) where
  park_at-Keeps : (f : Frame) (p : NativePark) → Keeps I mt (park_at f rest m p)
  unfolding park_at
  park_at-Keeps f (on_condition c) = record {
    root = m.root;
    node = m.node;
    loaded = b.loaded;
    named = b.named;
    at_node = tt;
    frames = b.frames;
  }
  park_at-Keeps f (on_wake w) = record {
    root = m.root;
    node = m.node;
    loaded = b.loaded;
    named = b.named;
    at_node = tt;
    frames = b.frames;
  }

  finish_native-Keeps : (f : Frame) (r : NativeResult) → Keeps I mt (finish_native f rest m r)
  unfolding finish_native
  finish_native-Keeps f r =
      option-Keeps I mt r.park _ _ (deliver_below b) (λ p z. park_at-Keeps f p)

  enter-Keeps :
      (f : Frame) (clo : ClosureObj) (root fn : Node) (args : List Value)
      → I.load clo.def_hash ≡ some root
      → navigate root clo.path ≡ some fn
      → Keeps I mt (enter I f rest m clo root fn args)
  unfolding enter
  enter-Keeps f clo root fn args l e =
      activation-Keeps I mt (bind_params I.floats fn args clo.env m.heap) bad_arguments m _ λ h a.
        need-Keeps I mt (get_elem? (kids fn) 3) _ λ c z. record {
          loaded = l;
          named = (ok clo.def_hash root l).1;
          metered = b.metered;
          at_node = navigate-child root fn c clo.path 3 (ok clo.def_hash root l).0 e z;
          frames = caller root m.root _ rest refl b.named b.loaded b.frames;
        }

-- A native may change the heap and the effects, and none of the registers.
module _ (I : Interp) (mt : Meter) (ok : LoadsFit I) (rest : List Frame) (m : Machine)
    (fit : fits m.root ≡ true) (b : Below I mt m.meter m.def_hash m.root rest) where
  perform_native-Keeps :
      (f : Frame) (hash : Str) (args : List Value)
      → Keeps I mt (perform_native I f rest m hash args)
  unfolding perform_native
  perform_native-Keeps f hash args =
      option-Keeps I mt (I.native hash) (fault (no_native hash) m) _ tt λ fn z.
        let r = fn m.principal m.effects m.heap args in
        if-Keeps I mt (conforms I hash m r) _ _
          (λ _.
            finish_native-Keeps I mt ok rest (record m { heap = r.heap; effects = r.effects }) b f
              r)
          (λ _. tt)

  call_closure-Keeps :
      (f : Frame) (clo : ClosureObj) (args : List Value)
      → Keeps I mt (call_closure I f rest m clo args)
  unfolding call_closure invoke
  call_closure-Keeps f clo args =
      option-Keeps I mt (I.load clo.def_hash) (fault (no_definition clo.def_hash) m) _ tt λ root l.
        option-Keeps I mt (navigate root clo.path) (fault (no_callee clo.def_hash) m) _ tt λ fn e.
          callee-Keeps I mt (kind fn) _ _ (fault not_callable m)
            (perform_native-Keeps f clo.def_hash args)
            (enter-Keeps I mt ok rest m b f clo root fn args l e) tt

  perform_call-Keeps : (f : Frame) → Keeps I mt (perform_call I f rest m)
  unfolding perform_call
  perform_call-Keeps f = need-Keeps I mt (get_elem? f.vals 0) _ λ v z.
      closure_value-Keeps I mt v _ (fault not_callable m)
        (λ a.
          need-Keeps I mt (closure_at m.heap a) _ λ clo y. call_closure-Keeps f clo (drop 1 f.vals))
        tt

  arg_advance-Keeps : (f : Frame) → FrameAt m.root f → Keeps I mt (arg_advance I f rest m)
  unfolding arg_advance
  arg_advance-Keeps f at = need-Keeps I mt (get_elem? (kids f.node) 1) _ λ l z.
      cursor-Keeps I mt f.aux (kids l) crash _ _ tt (perform_call-Keeps f) λ a y.
        let here =
          navigate-child m.root l a _ _ fit (navigate-child m.root f.node l f.path 1 fit at.1 z)
            y in
        if-Keeps I mt (is_spread (kind a)) _ _
          (λ _.
            need-Keeps I mt (get_elem? (kids a) 0) _
              λ c x. enter_node b at (navigate-child m.root a c _ 0 fit here x))
          (λ _. enter_node b at here)

  pub call_resume-Keeps : (f : Frame) → FrameAt m.root f → Keeps I mt (call_resume I f rest m)
  unfolding call_resume
  call_resume-Keeps f at =
      first-Keeps I mt f.idx _ _
        (if-Keeps I mt ((word f.node % 2 == 1) && is_nullish m.val) _ _ (λ _. deliver_below b)
          λ _. arg_advance-Keeps (record f { vals = m.val ∷ []; idx = pos 1; aux = pos 0 }) at)
        (need-Keeps I mt (get_elem? (kids f.node) 1) _ λ l z.
          cursor-Keeps I mt f.aux (kids l) crash crash _ tt tt λ a y.
            need-Keeps I mt (collect (is_spread (kind a)) m.heap m.val f.vals) _
              λ vals x. arg_advance-Keeps (record f { vals = vals; aux = incr f.aux }) at)

-- A frame that is no activation boundary, taken from the top.
pub frame_top :
    (I : Interp) (mt : Meter) (root : Node) (f : Frame) (fs : List Frame)
    → is_ret f.kind ≡ false
    → FramesOk I root (f ∷ fs)
    → FrameAt root f × FramesOk I root fs
frame_top I mt root f fs k (plain _ _ _ r e ok) = ((r, e), ok)
frame_top I mt root f fs k (caller _ r' _ _ e n l ok) = absurd (ground arith)
frame_top I mt root f fs k (bottom _ _ e n) = absurd (ground arith)

-- A boundary with frames below it: they are coherent in the caller's definition.
pub record Caller (I : Interp) (f : Frame) (fs : List Frame) : Type 0 where
  pub root : Node
  pub named : is_empty f.ret_def ≡ false
  pub loaded : I.load f.ret_def ≡ some root
  pub frames : FramesOk I root fs

pub Caller-top :
    (I : Interp) (mt : Meter) (root : Node) (f g : Frame) (fs : List Frame)
    → is_ret f.kind ≡ true
    → FramesOk I root (f ∷ g ∷ fs)
    → Caller I f (g ∷ fs)
Caller-top I mt root f g fs k (plain _ _ _ r e ok) = absurd (ground arith)
Caller-top I mt root f g fs k (caller _ r' _ _ e n l ok) = record {
  root = r';
  named = n;
  loaded = l;
  frames = ok;
}

-- Returning, or unwinding, to the caller.
module _ (I : Interp) (mt : Meter) (f : Frame) (fs : List Frame) (m : Machine) (c : Caller I f fs)
    (same : clock m.meter ≡ clock mt) where
  restored_root : (restore_caller I f m).root ≡ c.root
  unfolding restore_caller
  restored_root = rw (c.named, c.loaded)

  pub restored_apply :
      {n : Node} {p : Path16}
      → CoherentAt I mt m.meter f.ret_def (restore_caller I f m).root Mode.apply n p fs
  restored_apply = rw restored_root (record {
    loaded = c.loaded;
    named = c.named;
    metered = same;
    at_node = tt;
    frames = c.frames;
  })

  pub restored_unwind :
      {n : Node} {p : Path16}
      → CoherentAt I mt m.meter f.ret_def (restore_caller I f m).root Mode.unwind n p fs
  restored_unwind = rw restored_root (record {
    loaded = c.loaded;
    named = c.named;
    metered = same;
    at_node = tt;
    frames = c.frames;
  })
