-- ===== src/Cek/Coherence/Apply.antt =====
-- The transitions of Cek/Apply.antt keep the invariant.
use regel.Base.{
  ℕ, zero, suc, ◌≡◌, true, false, none, List, [], ◌∷◌, ◌++◌, get_elem?, arith, Bool-cases, inl, inr,
}
use regel.Base.Int.{ℤ, pos, negsuc}
use regel.Rast.{is_none, kids, kind, text, word, op_of_word}
use regel.Rast.Fits.{fits}
use regel.Cek.Value.{Value, record_at, truthy}
use regel.Cek.Coerce.{prop_key_string}
use regel.Cek.Ops.{OpResult}
use regel.Cek.Props.{get_member, get_index, has_own}
use regel.Cek.Bind.{bind_pattern}
use regel.Cek.Machine.{Meter, Machine, Frame, FrameKind, crash, Interp, Mode, incr, bad_pattern}
use regel.Cek.Control.{is_spread}
use regel.Cek.Call.{restore_caller, collect}
use regel.Cek.Loops.{switch_match, switch_run}
use regel.Cek.Apply.{
  branch_to, on_result, apply_in, is_in, apply_bin, short_circuits, apply_logic, apply_branch,
  skips, apply_member, apply_index, current, apply_array, extend, apply_object, apply_var_decl,
  apply_switch, apply_ret, apply_finally_run, apply_frame, apply_step,
}
use regel.Cek.Coherence.{CoherentAt, Keeps, Below, FrameAt, FramesOk, LoadsFit, is_ret, clock}
use regel.Cek.Coherence.Basic.{
  navigate-child, enter_below, deliver_below, unwind_below, need-Keeps, if-Keeps,
}
use regel.Cek.Coherence.Cases.{first-Keeps, option-Keeps, bound-Keeps, record_value-Keeps}
use regel.Cek.Coherence.Control.{
  block_advance-Keeps, object_advance-Keeps, var_decl_advance-Keeps, template_advance-Keeps,
  array_advance-Keeps, trigger_finally-Keeps,
}
use regel.Cek.Coherence.Loops.{
  for_resume-Keeps, while_resume-Keeps, do_while_resume-Keeps, for_of_resume-Keeps,
  switch_match-Keeps, switch_run-Keeps,
}
use regel.Cek.Coherence.Assign.{resume_child-Keeps, assign_resume-Keeps, update_resume-Keeps}
use regel.Cek.Coherence.Call.{call_resume-Keeps, frame_top, Caller-top, restored_apply}

module _ (I : Interp) (mt : Meter) (f : Frame) (rest : List Frame) (m : Machine)
    (fit : fits m.root ≡ true) (b : Below I mt m.meter m.def_hash m.root rest)
    (at : FrameAt m.root f) where
  branch_to-Keeps : (i : ℕ) → Keeps I mt (branch_to i f rest m)
  unfolding branch_to
  branch_to-Keeps i =
      need-Keeps I mt (get_elem? (kids f.node) i) _
        λ c z. enter_below b (navigate-child m.root f.node c f.path i fit at.1 z)

  on_result-Keeps : (r : OpResult) → Keeps I mt (on_result r rest m)
  unfolding on_result
  on_result-Keeps (OpResult.value v) = deliver_below b
  on_result-Keeps OpResult.refused = tt
  on_result-Keeps OpResult.hang = tt

  apply_in-Keeps : (v : Value) → Keeps I mt (apply_in I v rest m)
  unfolding apply_in
  apply_in-Keeps v =
      need-Keeps I mt (prop_key_string I.floats m.heap v) _
        λ key z. need-Keeps I mt (has_own m.heap key m.val) _ λ t y. deliver_below b

  apply_bin-Keeps : Keeps I mt (apply_bin I f rest m)
  unfolding apply_bin
  apply_bin-Keeps =
      first-Keeps I mt f.idx _ _
        (resume_child-Keeps I mt rest m fit b 1 (record f { vals = m.val ∷ []; idx = pos 1 }) at)
        (need-Keeps I mt (get_elem? f.vals 0) _ λ left z.
          if-Keeps I mt (is_in (op_of_word (word f.node))) _ _ (λ _. apply_in-Keeps left)
            (λ _. on_result-Keeps _))

  apply_logic-Keeps : Keeps I mt (apply_logic f rest m)
  unfolding apply_logic
  apply_logic-Keeps =
      first-Keeps I mt f.idx _ _
        (if-Keeps I mt (short_circuits (op_of_word (word f.node)) m.val) _ _ (λ _. deliver_below b)
          (λ _. resume_child-Keeps I mt rest m fit b 1 (record f { idx = pos 1 }) at))
        (deliver_below b)

  apply_branch-Keeps : Keeps I mt (apply_branch f rest m)
  unfolding apply_branch
  apply_branch-Keeps =
      if-Keeps I mt (truthy m.val) _ _ (λ _. branch_to-Keeps 1)
        λ _. need-Keeps I mt (get_elem? (kids f.node) 2) _ λ c z.
          if-Keeps I mt (is_none c) _ (branch_to 2 f rest m) (λ _. deliver_below b)
            (λ _. branch_to-Keeps 2)

  apply_member-Keeps : Keeps I mt (apply_member I f rest m)
  unfolding apply_member
  apply_member-Keeps =
      if-Keeps I mt (skips f m.val) _ _ (λ _. deliver_below b)
        λ _.
          need-Keeps I mt (get_member I.floats m.heap m.val (text f.node)) _ λ v z. deliver_below b

  apply_index-Keeps : Keeps I mt (apply_index I f rest m)
  unfolding apply_index
  apply_index-Keeps =
      first-Keeps I mt f.idx _ _
        (if-Keeps I mt (skips f m.val) _ _ (λ _. deliver_below b)
          (λ _. resume_child-Keeps I mt rest m fit b 1 (record f { obj = m.val; idx = pos 1 }) at))
        (need-Keeps I mt (get_index I.floats m.heap f.obj m.val) _ λ v z. deliver_below b)

  apply_array-Keeps : Keeps I mt (apply_array f rest m)
  unfolding apply_array
  apply_array-Keeps = need-Keeps I mt (current f) _ λ e z.
      need-Keeps I mt (collect (is_spread (kind e)) m.heap m.val f.vals) _ λ vals y.
        array_advance-Keeps I mt (record f { vals = vals; idx = incr f.idx }) rest m fit b at

  apply_object-Keeps : Keeps I mt (apply_object I f rest m)
  unfolding apply_object
  apply_object-Keeps = need-Keeps I mt (current f) _ λ mem z.
      record_value-Keeps I mt f.obj _ crash
        (λ a. need-Keeps I mt (record_at m.heap a) _ λ r y.
          need-Keeps I mt (extend I mem m.heap r m.val) _
            λ r' x. object_advance-Keeps I mt (record f { idx = incr f.idx }) rest _ fit b at)
        tt

  apply_var_decl-Keeps : Keeps I mt (apply_var_decl I f rest m)
  unfolding apply_var_decl
  apply_var_decl-Keeps = need-Keeps I mt (current f) _ λ d z.
      need-Keeps I mt (get_elem? (kids d) 0) _ λ pat y.
        bound-Keeps I mt (bind_pattern I.floats pat m.val m.heap f.vals) bad_pattern m _ λ h vs.
          var_decl_advance-Keeps I mt (record f { vals = vs; idx = incr f.idx }) rest
            (record m { heap = h }) fit b at

  apply_switch-Keeps : Keeps I mt (apply_switch I f rest m)
  unfolding apply_switch
  apply_switch-Keeps = by_cursor f.idx
    where
      by_cursor :
          (i : ℤ)
          → Keeps I mt (elim i [
            | negsuc zero ↦ switch_match I (record f { obj = m.val }) rest m
            | i ↦ switch_run (record f { idx = incr i }) rest m
          ])
      by_cursor (negsuc zero) = switch_match-Keeps I mt rest m fit b (record f { obj = m.val }) at
      by_cursor (negsuc (suc n)) =
          switch_run-Keeps I mt rest m fit b (record f { idx = incr (negsuc (suc n)) }) at
      by_cursor (pos n) = switch_run-Keeps I mt rest m fit b (record f { idx = incr (pos n) }) at

  apply_finally_run-Keeps : Keeps I mt (apply_finally_run f rest m)
  unfolding apply_finally_run
  apply_finally_run-Keeps = option-Keeps I mt f.pend _ _ (deliver_below b) (λ s z. unwind_below b)

-- The boundary: the run ends, or the caller goes on.
apply_ret-Keeps :
    (I : Interp) (mt : Meter) (f : Frame) (rest : List Frame) (m : Machine)
    → is_ret f.kind ≡ true
    → FramesOk I m.root (f ∷ rest)
    → clock m.meter ≡ clock mt
    → Keeps I mt (apply_ret I f rest m)
unfolding apply_ret restore_caller
apply_ret-Keeps I mt f [] m k ok same = tt
apply_ret-Keeps I mt f (g ∷ rest) m k ok same =
    restored_apply I mt f (g ∷ rest) m (Caller-top I mt m.root f g rest k ok) same

-- Any other frame: it stands at its node.
plain_frame-Keeps :
    (I : Interp) (mt : Meter)
    → LoadsFit I
    → (k : FrameKind) (f : Frame) (rest : List Frame) (m : Machine) → is_ret k ≡ false
    → fits m.root ≡ true
    → Below I mt m.meter m.def_hash m.root rest
    → FrameAt m.root f
    → Keeps I mt (apply_frame I k f rest m)
unfolding apply_frame
plain_frame-Keeps I mt ok FrameKind.ret f rest m r fit b at = absurd (ground arith)
plain_frame-Keeps I mt ok FrameKind.block f rest m r fit b at =
    block_advance-Keeps I mt (record f { idx = incr f.idx }) rest m fit b at
plain_frame-Keeps I mt ok FrameKind.var_decl f rest m r fit b at =
    apply_var_decl-Keeps I mt f rest m fit b at
plain_frame-Keeps I mt ok FrameKind.expr_stmt f rest m r fit b at = deliver_below b
plain_frame-Keeps I mt ok FrameKind.branch f rest m r fit b at =
    apply_branch-Keeps I mt f rest m fit b at
plain_frame-Keeps I mt ok FrameKind.bin f rest m r fit b at = apply_bin-Keeps I mt f rest m fit b at
plain_frame-Keeps I mt ok FrameKind.logic f rest m r fit b at =
    apply_logic-Keeps I mt f rest m fit b at
plain_frame-Keeps I mt ok FrameKind.unary f rest m r fit b at =
    on_result-Keeps I mt f rest m fit b at _
plain_frame-Keeps I mt ok FrameKind.update f rest m r fit b at =
    update_resume-Keeps I mt rest m fit b f at
plain_frame-Keeps I mt ok FrameKind.cond f rest m r fit b at =
    branch_to-Keeps I mt f rest m fit b at _
plain_frame-Keeps I mt ok FrameKind.call f rest m r fit b at =
    call_resume-Keeps I mt ok rest m fit b f at
plain_frame-Keeps I mt ok FrameKind.member f rest m r fit b at =
    apply_member-Keeps I mt f rest m fit b at
plain_frame-Keeps I mt ok FrameKind.index f rest m r fit b at =
    apply_index-Keeps I mt f rest m fit b at
plain_frame-Keeps I mt ok FrameKind.array f rest m r fit b at =
    apply_array-Keeps I mt f rest m fit b at
plain_frame-Keeps I mt ok FrameKind.object f rest m r fit b at =
    apply_object-Keeps I mt f rest m fit b at
plain_frame-Keeps I mt ok FrameKind.return f rest m r fit b at = unwind_below b
plain_frame-Keeps I mt ok FrameKind.throw f rest m r fit b at = unwind_below b
plain_frame-Keeps I mt ok FrameKind.catch f rest m r fit b at = deliver_below b
plain_frame-Keeps I mt ok FrameKind.finally f rest m r fit b at =
    trigger_finally-Keeps I mt f rest m fit b at none
plain_frame-Keeps I mt ok FrameKind.for_loop f rest m r fit b at =
    for_resume-Keeps I mt rest m fit b f at
plain_frame-Keeps I mt ok FrameKind.for_of f rest m r fit b at =
    for_of_resume-Keeps I mt rest m fit b f at
plain_frame-Keeps I mt ok FrameKind.while_loop f rest m r fit b at =
    while_resume-Keeps I mt rest m fit b f at
plain_frame-Keeps I mt ok FrameKind.do_while f rest m r fit b at =
    do_while_resume-Keeps I mt rest m fit b f at
plain_frame-Keeps I mt ok FrameKind.switch f rest m r fit b at =
    apply_switch-Keeps I mt f rest m fit b at
plain_frame-Keeps I mt ok FrameKind.assign f rest m r fit b at =
    assign_resume-Keeps I mt rest m fit b f at
plain_frame-Keeps I mt ok FrameKind.await f rest m r fit b at = deliver_below b
plain_frame-Keeps I mt ok FrameKind.template f rest m r fit b at =
    template_advance-Keeps I mt (record f { vals = f.vals ++ (m.val ∷ []); idx = incr f.idx }) rest
      m fit b at
plain_frame-Keeps I mt ok FrameKind.typeof f rest m r fit b at = deliver_below b
plain_frame-Keeps I mt ok FrameKind.member_assign f rest m r fit b at = tt
plain_frame-Keeps I mt ok FrameKind.finally_run f rest m r fit b at =
    apply_finally_run-Keeps I mt f rest m fit b at

ret_case :
    (I : Interp) (mt : Meter) (k : FrameKind) (f : Frame) (rest : List Frame) (m : Machine)
    → is_ret k ≡ true
    → Keeps I mt (apply_ret I f rest m)
    → Keeps I mt (apply_frame I k f rest m)
unfolding apply_frame
ret_case I mt FrameKind.ret f rest m t h = h
ret_case I mt _ f rest m t h = absurd (ground arith)

apply_frame-Keeps :
    (I : Interp) (mt : Meter)
    → LoadsFit I
    → (f : Frame) (rest : List Frame) (m : Machine)
    → CoherentAt I mt m.meter m.def_hash m.root Mode.apply m.node m.path (f ∷ rest)
    → Keeps I mt (apply_frame I f.kind f rest m)
apply_frame-Keeps I mt ok f rest m c = elim (Bool-cases (is_ret f.kind)) [
  | inl t ↦ ret_case I mt f.kind f rest m t (apply_ret-Keeps I mt f rest m t c.frames c.metered)
  | inr t ↦
      let top = frame_top I mt m.root f rest t c.frames in
      plain_frame-Keeps I mt ok f.kind f rest m t (ok m.def_hash m.root c.loaded).0
        (record { loaded = c.loaded; named = c.named; metered = c.metered; frames = top.1 }) top.0
]

pub apply_step-Keeps :
    (I : Interp) (mt : Meter)
    → LoadsFit I
    → (kont : List Frame) (m : Machine)
    → CoherentAt I mt m.meter m.def_hash m.root Mode.apply m.node m.path kont
    → Keeps I mt (apply_step I kont m)
unfolding apply_step
apply_step-Keeps I mt ok [] m c = tt
apply_step-Keeps I mt ok (f ∷ rest) m c = apply_frame-Keeps I mt ok f rest m c
