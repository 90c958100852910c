-- ===== src/Cek/Apply.antt =====
-- `applyStep` of internal/cek/apply.go: deliver the value to the top frame.
use regel.Base.{
  ℕ, zero, suc, ◌%◌, Bool, true, false, not, ◌&&◌, Option, none, some, List, [], ◌∷◌, ◌++◌,
  get_elem?, set, Str, itoa, ◌==◌, if◌then◌else◌,
}
use regel.Base.Int.{pos, negsuc}
use regel.Rast.{Node, OpKind, is_none, kids, kind, text, word, op_of_word}
use regel.Cek.Value.{
  Value, Heap, RecordObj, record_obj, array_at, record_at, record_get, record_set, truthy,
  typeof_str, bool_val, is_nullish,
}
use regel.Cek.Ops.{OpResult, bin_op, unary_op}
use regel.Cek.Coerce.{prop_key_string}
use regel.Cek.Props.{get_member, get_index, has_own}
use regel.Cek.Bind.{bound, unsupported, bind_crash, bind_pattern}
use regel.Cek.Machine.{
  Machine, Frame, FrameKind, Step, next, stop, crash, fault, done, need, undef, child, goto,
  apply_val, raise, incr, Interp, Mode, SigKind, bad_operator, bad_pattern, bad_kind,
}
use regel.Cek.Control.{
  ended, item, outside, cursor, is_spread, block_advance, var_decl_advance, template_advance,
  array_advance, object_advance, obj_prop_key, trigger_finally,
}
use regel.Cek.Loops.{
  for_resume, while_resume, do_while_resume, for_of_resume, switch_match, switch_run,
}
use regel.Cek.Assign.{assign_resume, update_resume, resume_child}
use regel.Cek.Call.{restore_caller, call_resume, collect}

-- Pop the frame and evaluate child `i` of its node.
unfoldable pub branch_to : ℕ → Frame → List Frame → Machine → Step
branch_to i f rest m =
    need (get_elem? (kids f.node) i) λ c. next (goto (record m { kont = rest }) c (child f.path i))

-- The result of an operator, with the frame popped.
unfoldable pub on_result : OpResult → List Frame → Machine → Step
on_result (OpResult.value v) rest m = next (apply_val (record m { kont = rest }) v)
on_result OpResult.refused rest m = fault bad_operator m
on_result OpResult.hang rest m = crash

unfoldable pub apply_in : Interp → Value → List Frame → Machine → Step
apply_in I left rest m = need (prop_key_string I.floats m.heap left) λ key.
    need (has_own m.heap key m.val) λ b. next (apply_val (record m { kont = rest }) (bool_val b))

unfoldable pub is_in : OpKind → Bool
is_in OpKind.in_op = true
is_in _ = false

unfoldable pub apply_bin : Interp → Frame → List Frame → Machine → Step
unfolding on_result apply_in is_in
apply_bin I f rest m = elim f.idx [
  | pos zero ↦ resume_child 1 (record f { vals = m.val ∷ []; idx = pos 1 }) rest m
  | _ ↦
      let op = op_of_word (word f.node) in
      need (get_elem? f.vals 0) (λ left.
        if is_in op
        then apply_in I left rest m
        else on_result (bin_op I.floats m.heap op left m.val) rest m)
]

-- Does the left operand decide? Only `&&`, `||` and `??` reach this frame.
unfoldable pub short_circuits : OpKind → Value → Bool
short_circuits OpKind.and v = not (truthy v)
short_circuits OpKind.or v = truthy v
short_circuits OpKind.nullish v = not (is_nullish v)
short_circuits _ v = false

unfoldable pub apply_logic : Frame → List Frame → Machine → Step
unfolding short_circuits
apply_logic f rest m = elim f.idx [
  | pos zero ↦
      if short_circuits (op_of_word (word f.node)) m.val
      then next (apply_val (record m { kont = rest }) m.val)
      else resume_child 1 (record f { idx = pos 1 }) rest m
  | _ ↦ next (apply_val (record m { kont = rest }) m.val)
]

unfoldable pub apply_branch : Frame → List Frame → Machine → Step
unfolding branch_to
apply_branch f rest m =
    if truthy m.val
    then branch_to 1 f rest m
    else need (get_elem? (kids f.node) 2) (λ c.
      if is_none c then next (apply_val (record m { kont = rest }) undef) else branch_to 2 f rest m)

-- `?.` (bit 0 of the word) on `null` or `undefined`.
abbrev pub skips : Frame → Value → Bool
skips f v = (word f.node % 2 == 1) && is_nullish v

unfoldable pub apply_member : Interp → Frame → List Frame → Machine → Step
apply_member I f rest m =
    if skips f m.val
    then next (apply_val (record m { kont = rest }) undef)
    else need (get_member I.floats m.heap m.val (text f.node))
        (λ v. next (apply_val (record m { kont = rest }) v))

unfoldable pub apply_index : Interp → Frame → List Frame → Machine → Step
apply_index I f rest m = elim f.idx [
  | pos zero ↦
      if skips f m.val
      then next (apply_val (record m { kont = rest }) undef)
      else resume_child 1 (record f { obj = m.val; idx = pos 1 }) rest m
  | _ ↦
      need (get_index I.floats m.heap f.obj m.val)
        (λ v. next (apply_val (record m { kont = rest }) v))
]

-- The node at the cursor in the list that is the frame's first child.
unfoldable pub current : Frame → Option Node
current f = elim (get_elem? (kids f.node) 0) [
  | none ↦ none
  | some l ↦ elim (cursor f.idx (kids l)) [ outside ↦ none | ended ↦ none | item c ↦ some c ]
]

unfoldable pub apply_array : Frame → List Frame → Machine → Step
unfolding current
apply_array f rest m = need (current f) λ e.
    need (collect (is_spread (kind e)) m.heap m.val f.vals)
      λ vals. array_advance (record f { vals = vals; idx = incr f.idx }) rest m

unfoldable pub merge_elems : RecordObj → ℕ → List Value → RecordObj
merge_elems r i [] = r
merge_elems r i (v ∷ vs) = merge_elems (record_set r (itoa i) v) (suc i) vs

-- A key that the map lacks gives Go's zero value, which is `undefined`.
unfoldable pub merge_keys : RecordObj → List Str → RecordObj → RecordObj
merge_keys r [] s = r
merge_keys r (k ∷ ks) s =
    merge_keys (record_set r k (elim (record_get s k) [ none ↦ undef | some v ↦ v ])) ks s

-- `func mergeInto`
unfoldable pub merge_into : Heap → RecordObj → Value → Option RecordObj
unfolding merge_elems merge_keys
merge_into h r (Value.rec a) = elim (record_at h a) [
  | none ↦ none
  | some s ↦ some (merge_keys r s.keys s)
]
merge_into h r (Value.array a) = elim (array_at h a) [
  | none ↦ none
  | some xs ↦ some (merge_elems r 0 xs)
]
merge_into h r v = some r

-- The record that an object literal builds, with the member that was just evaluated.
unfoldable pub extend : Interp → Node → Heap → RecordObj → Value → Option RecordObj
unfolding merge_into
extend I mem h r v =
    if is_spread (kind mem)
    then merge_into h r v
    else elim (obj_prop_key I.floats mem) [ none ↦ none | some key ↦ some (record_set r key v) ]

unfoldable pub apply_object : Interp → Frame → List Frame → Machine → Step
unfolding current extend
apply_object I f rest m = need (current f) λ mem. elim f.obj [
  | Value.rec a ↦ need (record_at m.heap a) (λ r. need (extend I mem m.heap r m.val) (λ r'.
      object_advance (record f { idx = incr f.idx }) rest
        (record m { heap = set m.heap a (record_obj r') })))
  | _ ↦ crash
]

unfoldable pub apply_var_decl : Interp → Frame → List Frame → Machine → Step
unfolding current
apply_var_decl I f rest m = need (current f) λ d. need (get_elem? (kids d) 0) λ pat.
    elim (bind_pattern I.floats pat m.val m.heap f.vals) [
      | unsupported ↦ fault bad_pattern m
      | bind_crash ↦ crash
      | bound h slots ↦
          var_decl_advance I (record f { vals = slots; idx = incr f.idx }) rest
            (record m { heap = h })
    ]

unfoldable pub apply_switch : Interp → Frame → List Frame → Machine → Step
apply_switch I f rest m = elim f.idx [
  | negsuc zero ↦ switch_match I (record f { obj = m.val }) rest m
  | i ↦ switch_run (record f { idx = incr i }) rest m
]

-- The bottom boundary ends the run; any other returns to the caller.
unfoldable pub apply_ret : Interp → Frame → List Frame → Machine → Step
apply_ret I f [] m = stop (done m.val) (record m { kont = [] })
apply_ret I f (g ∷ rest) m =
    next (record (restore_caller I f m) { kont = g ∷ rest; mode = Mode.apply })

unfoldable pub apply_finally_run : Frame → List Frame → Machine → Step
apply_finally_run f rest m = elim f.pend [
  | none ↦ next (apply_val (record m { kont = rest }) undef)
  | some s ↦ next (record m { kont = rest; sig = s; mode = Mode.unwind })
]

-- The switch on the kind of the top frame.
unfoldable pub apply_frame : Interp → FrameKind → Frame → List Frame → Machine → Step
unfolding apply_ret apply_var_decl apply_branch apply_bin apply_logic apply_member apply_index
    apply_array apply_object apply_switch apply_finally_run branch_to on_result
apply_frame I FrameKind.ret f rest m = apply_ret I f rest m
apply_frame I FrameKind.block f rest m = block_advance (record f { idx = incr f.idx }) rest m
apply_frame I FrameKind.var_decl f rest m = apply_var_decl I f rest m
apply_frame I FrameKind.expr_stmt f rest m = next (apply_val (record m { kont = rest }) undef)
apply_frame I FrameKind.branch f rest m = apply_branch f rest m
apply_frame I FrameKind.bin f rest m = apply_bin I f rest m
apply_frame I FrameKind.logic f rest m = apply_logic f rest m
apply_frame I FrameKind.unary f rest m =
    on_result (unary_op I.floats (op_of_word (word f.node)) m.val) rest m
apply_frame I FrameKind.typeof f rest m =
    next (apply_val (record m { kont = rest }) (Value.str (typeof_str m.val)))
apply_frame I FrameKind.await f rest m = next (apply_val (record m { kont = rest }) m.val)
apply_frame I FrameKind.cond f rest m = branch_to (if truthy m.val then 1 else 2) f rest m
apply_frame I FrameKind.member f rest m = apply_member I f rest m
apply_frame I FrameKind.index f rest m = apply_index I f rest m
apply_frame I FrameKind.array f rest m = apply_array f rest m
apply_frame I FrameKind.object f rest m = apply_object I f rest m
apply_frame I FrameKind.call f rest m = call_resume I f rest m
apply_frame I FrameKind.return f rest m =
    next (raise (record m { kont = rest }) SigKind.return m.val)
apply_frame I FrameKind.throw f rest m = next (raise (record m { kont = rest }) SigKind.throw m.val)
apply_frame I FrameKind.assign f rest m = assign_resume I f rest m
apply_frame I FrameKind.update f rest m = update_resume I f rest m
apply_frame I FrameKind.template f rest m =
    template_advance I (record f { vals = f.vals ++ (m.val ∷ []); idx = incr f.idx }) rest m
apply_frame I FrameKind.for_loop f rest m = for_resume f rest m
apply_frame I FrameKind.while_loop f rest m = while_resume f rest m
apply_frame I FrameKind.do_while f rest m = do_while_resume f rest m
apply_frame I FrameKind.for_of f rest m = for_of_resume I f rest m
apply_frame I FrameKind.switch f rest m = apply_switch I f rest m
apply_frame I FrameKind.catch f rest m = next (apply_val (record m { kont = rest }) m.val)
apply_frame I FrameKind.finally f rest m = trigger_finally f rest none m
apply_frame I FrameKind.finally_run f rest m = apply_finally_run f rest m
apply_frame I FrameKind.member_assign f rest m = fault bad_kind m

-- `func (m *machine) applyStep`
unfoldable pub apply_step : Interp → List Frame → Machine → Step
unfolding apply_frame
apply_step I [] m = stop (done m.val) m
apply_step I (f ∷ rest) m = apply_frame I f.kind f rest m
