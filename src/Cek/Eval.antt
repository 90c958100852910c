-- ===== src/Cek/Eval.antt =====
-- `evalStep` of internal/cek/eval.go: reduce the current node.
use regel.Base.{
  ℕ, Bool, true, false, Option, none, some, [], length, get_elem?, Str, codes, ◌==◌, if◌then◌else◌,
}
use regel.Base.Int.{negsuc}
use regel.Rast.{Kind, OpKind, is_none, kids, kind, text, word, mag, op_of_word}
use regel.Cek.Value.{
  Value, empty_record, closure_obj, opaque_obj, record_obj, alloc, Path16, bool_val,
}
use regel.Cek.Env.{lookup}
use regel.Cek.Bind.{big_of}
use regel.Cek.Machine.{
  Machine, Frame, FrameKind, Step, next, fault, need, undef, child, goto, apply_val, raise,
  new_frame, push, Interp, SigKind, unbound_local, free_name, bad_kind,
}
use regel.Cek.Control.{
  array_advance, block_advance, object_advance, template_advance, var_decl_advance, eval_try,
}
use regel.Cek.Loops.{eval_for}
use regel.Cek.Assign.{descend, eval_assign, eval_update, is_assign_op}

-- A fresh closure object, which the value points to.
abbrev pub closure_val : Str → Path16 → Option ℕ → Machine → Step
closure_val d p e m = next (
    apply_val (record m { heap = alloc m.heap (closure_obj d p e) })
      (Value.closure (length m.heap)))

abbrev pub is_short_op : OpKind → Bool
is_short_op OpKind.and = true
is_short_op OpKind.or = true
is_short_op OpKind.nullish = true
is_short_op _ = false

unfoldable pub eval_binary : OpKind → Machine → Step
unfolding is_assign_op eval_assign
eval_binary op m =
    if is_assign_op op
    then eval_assign op m
    else descend (new_frame (if is_short_op op then FrameKind.logic else FrameKind.bin) m) 0 m

unfoldable pub eval_object : Machine → Step
unfolding object_advance
eval_object m =
    object_advance (record (new_frame FrameKind.object m) { obj = Value.rec (length m.heap) })
      m.kont (record m { heap = alloc m.heap (record_obj empty_record) })

unfoldable pub eval_local : Machine → Step
unfolding lookup
eval_local m = elim (lookup m.heap m.env (word m.node)) [
  | none ↦ fault (unbound_local (word m.node)) m
  | some v ↦ next (apply_val m v)
]

-- A frame that remembers the environment to restore, and a child to evaluate.
abbrev pub scope_frame : FrameKind → Machine → Frame
scope_frame k m = record (new_frame k m) { outer_env = m.env }

-- `setChildControl` moves the node and not the path.
unfoldable pub eval_do_while : Machine → Step
eval_do_while m =
    need (get_elem? (kids m.node) 0)
      λ c. next (goto (push m (scope_frame FrameKind.do_while m)) c m.path)

unfoldable pub eval_return : Machine → Step
eval_return m = need (get_elem? (kids m.node) 0) λ c.
    if is_none c
    then next (raise m SigKind.return undef)
    else descend (new_frame FrameKind.return m) 0 m

abbrev pub same_node : Machine → Step
same_node m = need (get_elem? (kids m.node) 0) λ c. next (goto m c (child m.path 0))

-- The switch on the kind of the node.
unfoldable pub eval_node : Interp → Kind → Machine → Step
unfolding eval_binary eval_object eval_local eval_do_while eval_return
eval_node I Kind.num m = next (apply_val m (Value.f64 (word m.node)))
eval_node I Kind.bigint m = next (apply_val m (Value.bigint (big_of (word m.node) (mag m.node))))
eval_node I Kind.str m = next (apply_val m (Value.str (text m.node)))
eval_node I Kind.bool m = next (apply_val m (bool_val (if word m.node == 0 then false else true)))
eval_node I Kind.null m = next (apply_val m Value.null)
eval_node I Kind.undefined m = next (apply_val m undef)
eval_node I Kind.regex m = next (
    apply_val (record m { heap = alloc m.heap (opaque_obj (codes "regex") (text m.node)) })
      (Value.opaque (length m.heap)))
eval_node I Kind.template m = template_advance I (new_frame FrameKind.template m) m.kont m
eval_node I Kind.local m = eval_local m
eval_node I Kind.ref m = closure_val (text m.node) [] none m
eval_node I Kind.self_ref m = closure_val m.def_hash [] none m
eval_node I Kind.name m = fault (free_name (text m.node)) m
eval_node I Kind.array m = array_advance (new_frame FrameKind.array m) m.kont m
eval_node I Kind.object m = eval_object m
eval_node I Kind.spread m = same_node m
eval_node I Kind.call m = descend (new_frame FrameKind.call m) 0 m
eval_node I Kind.member m = descend (new_frame FrameKind.member m) 0 m
eval_node I Kind.index m = descend (new_frame FrameKind.index m) 0 m
eval_node I Kind.binary m = eval_binary (op_of_word (word m.node)) m
eval_node I Kind.unary m = descend (new_frame FrameKind.unary m) 0 m
eval_node I Kind.update m = eval_update I m
eval_node I Kind.cond m = descend (new_frame FrameKind.cond m) 0 m
eval_node I Kind.typeof m = descend (new_frame FrameKind.typeof m) 0 m
eval_node I Kind.await m = descend (new_frame FrameKind.await m) 0 m
eval_node I Kind.as_const m = same_node m
eval_node I Kind.satisfy m = same_node m
eval_node I Kind.func m = closure_val m.def_hash m.path m.env m
eval_node I Kind.block m = block_advance (scope_frame FrameKind.block m) m.kont m
eval_node I Kind.var_decl m = var_decl_advance I (new_frame FrameKind.var_decl m) m.kont m
eval_node I Kind.expr_stmt m = descend (new_frame FrameKind.expr_stmt m) 0 m
eval_node I Kind.branch m = descend (new_frame FrameKind.branch m) 0 m
eval_node I Kind.for_loop m = eval_for m
eval_node I Kind.for_of m = descend (record (scope_frame FrameKind.for_of m) { idx = negsuc 0 }) 1 m
eval_node I Kind.while_loop m = descend (scope_frame FrameKind.while_loop m) 0 m
eval_node I Kind.do_while m = eval_do_while m
eval_node I Kind.switch m = descend (record (scope_frame FrameKind.switch m) { idx = negsuc 0 }) 0 m
eval_node I Kind.break m = next (raise m SigKind.break undef)
eval_node I Kind.continue m = next (raise m SigKind.continue undef)
eval_node I Kind.return m = eval_return m
eval_node I Kind.throw m = descend (new_frame FrameKind.throw m) 0 m
eval_node I Kind.try_stmt m = eval_try m
eval_node I k m = fault bad_kind m

-- `func (m *machine) evalStep`
unfoldable pub eval_step : Interp → Machine → Step
unfolding eval_node
eval_step I m = eval_node I (kind m.node) m
