-- ===== src/Cek/Coherence/Eval.antt =====
-- The transitions of Cek/Eval.antt keep the invariant.
use regel.Base.{ℕ, ◌≡◌, refl, Bool, true, false, some, get_elem?, length, arith, if◌then◌else◌}
use regel.Base.Int.{negsuc}
use regel.Rast.{Kind, Node, OpKind, is_none, kids, kind, word, op_of_word}
use regel.Rast.Fits.{fits, fits-do_while}
use regel.Cek.Value.{Value, Path16, alloc, record_obj, empty_record}
use regel.Cek.Env.{lookup}
use regel.Cek.Machine.{
  Meter, Machine, FrameKind, next, fault, Interp, SigKind, navigate, goto, new_frame, undef, raise,
  unbound_local,
}
use regel.Cek.Control.{eval_try, push_if}
use regel.Cek.Assign.{descend, is_assign_op}
use regel.Cek.Eval.{
  eval_binary, eval_object, eval_local, eval_return, eval_node, eval_step, is_short_op, scope_frame,
  same_node,
}
use regel.Cek.Coherence.{CoherentFor, Keeps, Below, plain, is_ret}
use regel.Cek.Coherence.Basic.{
  navigate-child, navigate-fits, enter_node, enter_below, deliver_below, unwind_below, need-Keeps,
  if-Keeps,
}
use regel.Cek.Coherence.Cases.{option-Keeps}
use regel.Cek.Coherence.Control.{
  block_advance-Keeps, object_advance-Keeps, var_decl_advance-Keeps, template_advance-Keeps,
  array_advance-Keeps,
}
use regel.Cek.Coherence.Loops.{eval_for-Keeps}
use regel.Cek.Coherence.Assign.{descend-Keeps, eval_assign-Keeps, eval_update-Keeps}

module _ (I : Interp) (mt : Meter) (m : Machine) (fit : fits m.root ≡ true)
    (b : Below I mt m.meter m.def_hash m.root m.kont)
    (at : navigate m.root m.path ≡ some m.node) where
  -- A new frame of a kind other than the boundary, and the first child.
  eval_binary-Keeps : (op : OpKind) → Keeps I mt (eval_binary op m)
  unfolding eval_binary
  eval_binary-Keeps op =
      if-Keeps I mt (is_assign_op op) _ _ (λ _. eval_assign-Keeps I mt m fit b at op)
        (λ _. logic_or_bin (is_short_op op))
    where
      logic_or_bin :
          (t : Bool)
          → Keeps I mt (descend (new_frame (if t then FrameKind.logic else FrameKind.bin) m) 0 m)
      logic_or_bin true = descend-Keeps I mt m fit b at (new_frame FrameKind.logic m) 0 (refl, at)
      logic_or_bin false = descend-Keeps I mt m fit b at (new_frame FrameKind.bin m) 0 (refl, at)

  eval_local-Keeps : Keeps I mt (eval_local m)
  unfolding eval_local
  eval_local-Keeps =
      option-Keeps I mt (lookup m.heap m.env (word m.node)) (fault (unbound_local (word m.node)) m)
        _ tt (λ v z. deliver_below b)

  eval_return-Keeps : Keeps I mt (eval_return m)
  unfolding eval_return
  eval_return-Keeps = need-Keeps I mt (get_elem? (kids m.node) 0) _ λ c z.
      if-Keeps I mt (is_none c) (next (raise m SigKind.return undef)) _ (λ _. unwind_below b)
        (λ _. descend-Keeps I mt m fit b at (new_frame FrameKind.return m) 0 (refl, at))

  same_node-Keeps : Keeps I mt (same_node m)
  same_node-Keeps =
      need-Keeps I mt (get_elem? (kids m.node) 0) _
        λ c z. enter_below b (navigate-child m.root m.node c m.path 0 fit at z)

  eval_object-Keeps : Keeps I mt (eval_object m)
  unfolding eval_object
  eval_object-Keeps =
      object_advance-Keeps I mt
        (record (new_frame FrameKind.object m) { obj = Value.rec (length m.heap) }) m.kont
        (record m { heap = alloc m.heap (record_obj empty_record) }) fit b (refl, at)

  -- The frames of try: the finally frame below the catch frame, each only where it has a clause.
  try_frames :
      (no_catch no_finally : Bool) {c : Node} {p : Path16}
      → navigate m.root p ≡ some c
      → CoherentFor I mt
          (goto (push_if no_catch FrameKind.catch (push_if no_finally FrameKind.finally m)) c p)
  unfolding push_if
  try_frames true true e = enter_below b e
  try_frames true false e = enter_node b (refl, at) e
  try_frames false true e = enter_node b (refl, at) e
  try_frames false false e = record {
    loaded = b.loaded;
    named = b.named;
    metered = b.metered;
    at_node = e;
    frames = plain m.root _ _ refl at (plain m.root _ _ refl at b.frames);
  }

  eval_try-Keeps : Keeps I mt (eval_try m)
  unfolding eval_try
  eval_try-Keeps = need-Keeps I mt (get_elem? (kids m.node) 1) _ λ catch_node y.
      need-Keeps I mt (get_elem? (kids m.node) 2) _ λ finally_node x.
        need-Keeps I mt (get_elem? (kids m.node) 0) _ λ body z.
          try_frames (is_none catch_node) (is_none finally_node)
            (navigate-child m.root m.node body m.path 0 fit at z)

  -- A new frame of a kind other than the boundary, and child `i`.
  down : (k : FrameKind) (i : ℕ) → is_ret k ≡ false → Keeps I mt (descend (new_frame k m) i m)
  down k i e = descend-Keeps I mt m fit b at (new_frame k m) i (e, at)

  -- A do-while is not in the definitions that fit.
  pub eval_node-Keeps : (k : Kind) → kind m.node ≡ k → Keeps I mt (eval_node I k m)
  unfolding eval_node
  eval_node-Keeps Kind.num e = deliver_below b
  eval_node-Keeps Kind.bigint e = deliver_below b
  eval_node-Keeps Kind.str e = deliver_below b
  eval_node-Keeps Kind.bool e = deliver_below b
  eval_node-Keeps Kind.null e = deliver_below b
  eval_node-Keeps Kind.undefined e = deliver_below b
  eval_node-Keeps Kind.regex e = deliver_below b
  eval_node-Keeps Kind.ref e = deliver_below b
  eval_node-Keeps Kind.self_ref e = deliver_below b
  eval_node-Keeps Kind.func e = deliver_below b
  eval_node-Keeps Kind.break e = unwind_below b
  eval_node-Keeps Kind.continue e = unwind_below b
  eval_node-Keeps Kind.call e = down FrameKind.call 0 refl
  eval_node-Keeps Kind.member e = down FrameKind.member 0 refl
  eval_node-Keeps Kind.index e = down FrameKind.index 0 refl
  eval_node-Keeps Kind.unary e = down FrameKind.unary 0 refl
  eval_node-Keeps Kind.cond e = down FrameKind.cond 0 refl
  eval_node-Keeps Kind.typeof e = down FrameKind.typeof 0 refl
  eval_node-Keeps Kind.await e = down FrameKind.await 0 refl
  eval_node-Keeps Kind.expr_stmt e = down FrameKind.expr_stmt 0 refl
  eval_node-Keeps Kind.branch e = down FrameKind.branch 0 refl
  eval_node-Keeps Kind.throw e = down FrameKind.throw 0 refl
  eval_node-Keeps Kind.spread e = same_node-Keeps
  eval_node-Keeps Kind.as_const e = same_node-Keeps
  eval_node-Keeps Kind.satisfy e = same_node-Keeps
  eval_node-Keeps Kind.template e =
      template_advance-Keeps I mt (new_frame FrameKind.template m) m.kont m fit b (refl, at)
  eval_node-Keeps Kind.local e = eval_local-Keeps
  eval_node-Keeps Kind.array e =
      array_advance-Keeps I mt (new_frame FrameKind.array m) m.kont m fit b (refl, at)
  eval_node-Keeps Kind.object e = eval_object-Keeps
  eval_node-Keeps Kind.binary e = eval_binary-Keeps (op_of_word (word m.node))
  eval_node-Keeps Kind.update e = eval_update-Keeps I mt m fit b at
  eval_node-Keeps Kind.block e =
      block_advance-Keeps I mt (scope_frame FrameKind.block m) m.kont m fit b (refl, at)
  eval_node-Keeps Kind.var_decl e =
      var_decl_advance-Keeps I mt (new_frame FrameKind.var_decl m) m.kont m fit b (refl, at)
  eval_node-Keeps Kind.for_loop e = eval_for-Keeps I mt m fit b at
  eval_node-Keeps Kind.for_of e =
      descend-Keeps I mt m fit b at (record (scope_frame FrameKind.for_of m) { idx = negsuc 0 }) 1
        (refl, at)
  eval_node-Keeps Kind.while_loop e =
      descend-Keeps I mt m fit b at (scope_frame FrameKind.while_loop m) 0 (refl, at)
  eval_node-Keeps Kind.do_while e = absurd (no_do_while e)
    where
      no_do_while : kind m.node ≡ Kind.do_while → ⊥
      no_do_while h = absurd (
          ground
            (arith, rw h at (fits-do_while m.node (navigate-fits m.root m.node m.path fit at))))
  eval_node-Keeps Kind.switch e =
      descend-Keeps I mt m fit b at (record (scope_frame FrameKind.switch m) { idx = negsuc 0 }) 0
        (refl, at)
  eval_node-Keeps Kind.return e = eval_return-Keeps
  eval_node-Keeps Kind.try_stmt e = eval_try-Keeps
  eval_node-Keeps _ e = tt

  pub eval_step-Keeps : Keeps I mt (eval_step I m)
  unfolding eval_step
  eval_step-Keeps = eval_node-Keeps (kind m.node) refl
