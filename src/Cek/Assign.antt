-- ===== src/Cek/Assign.antt =====
-- internal/cek/assign.go, with evalAssign and evalUpdate of control.go: assignments and updates of
-- locals, members and indices.
use regel.Base.{
  ℕ, zero, suc, ◌/◌, ◌%◌, Bool, true, false, not, Option, none, some, List, [], ◌∷◌, get_elem?,
  ◌==◌, if◌then◌else◌,
}
use regel.Base.Int.{pos}
use regel.Rast.{Kind, Node, OpKind, kids, kind, text, word, op_of_word}
use regel.Cek.Value.{Value, Heap, truthy, is_nullish}
use regel.Cek.Env.{lookup, assign}
use regel.Cek.Ops.{OpResult, bin_op, update_value, Updated}
use regel.Cek.Props.{get_member, get_index, set_member, set_index}
use regel.Cek.Machine.{
  Machine, Frame, FrameKind, Step, next, crash, fault, bad_operator, bad_target, need, undef, child,
  goto, apply_val, new_frame, push, Interp,
}

-- `func isAssignOp`
unfoldable pub is_assign_op : OpKind → Bool
is_assign_op OpKind.assign = true
is_assign_op OpKind.add_assign = true
is_assign_op OpKind.sub_assign = true
is_assign_op OpKind.mul_assign = true
is_assign_op OpKind.div_assign = true
is_assign_op OpKind.mod_assign = true
is_assign_op OpKind.exp_assign = true
is_assign_op OpKind.shl_assign = true
is_assign_op OpKind.shr_assign = true
is_assign_op OpKind.ushr_assign = true
is_assign_op OpKind.bit_and_assign = true
is_assign_op OpKind.bit_or_assign = true
is_assign_op OpKind.bit_xor_assign = true
is_assign_op OpKind.and_assign = true
is_assign_op OpKind.or_assign = true
is_assign_op OpKind.null_assign = true
is_assign_op _ = false

-- `func baseOfAssign`; `none` is OpNone.
unfoldable pub base_of_assign : OpKind → Option OpKind
base_of_assign OpKind.add_assign = some OpKind.add
base_of_assign OpKind.sub_assign = some OpKind.sub
base_of_assign OpKind.mul_assign = some OpKind.mul
base_of_assign OpKind.div_assign = some OpKind.div
base_of_assign OpKind.mod_assign = some OpKind.mod_op
base_of_assign OpKind.exp_assign = some OpKind.exp
base_of_assign OpKind.shl_assign = some OpKind.shl
base_of_assign OpKind.shr_assign = some OpKind.shr
base_of_assign OpKind.ushr_assign = some OpKind.ushr
base_of_assign OpKind.bit_and_assign = some OpKind.bit_and
base_of_assign OpKind.bit_or_assign = some OpKind.bit_or
base_of_assign OpKind.bit_xor_assign = some OpKind.bit_xor
base_of_assign _ = none

abbrev pub or_undef : Option Value → Value
or_undef none = undef
or_undef (some v) = v

-- `&&=`, `||=` and `??=`: is the right side evaluated?
abbrev pub assigns_now : OpKind → Value → Bool
assigns_now OpKind.and_assign v = truthy v
assigns_now OpKind.or_assign v = not (truthy v)
assigns_now _ v = is_nullish v

abbrev pub is_logical_assign : OpKind → Bool
is_logical_assign OpKind.and_assign = true
is_logical_assign OpKind.or_assign = true
is_logical_assign OpKind.null_assign = true
is_logical_assign _ = false

-- Push a frame and evaluate child `i` of the current node.
abbrev pub descend : Frame → ℕ → Machine → Step
descend f i m = need (get_elem? (kids m.node) i) λ c. next (goto (push m f) c (child m.path i))

-- Push a frame and evaluate the object of a member or of an index: the first child of the first.
unfoldable pub descend_object : Frame → Node → Machine → Step
descend_object f target m =
    need (get_elem? (kids target) 0) λ c. next (goto (push m f) c (child (child m.path 0) 0))

unfoldable pub logical_assign : OpKind → Node → Machine → Step
logical_assign op target m = elim (kind target) [
  | Kind.local ↦
      let cur = or_undef (lookup m.heap m.env (word target)) in
      if assigns_now op cur
      then descend (new_frame FrameKind.assign m) 1 m
      else next (apply_val m cur)
  | _ ↦ fault bad_target m
]

unfoldable pub local_vals : Option OpKind → Value → List Value
local_vals none v = []
local_vals (some op) v = v ∷ []

unfoldable pub plain_assign : OpKind → Node → Machine → Step
unfolding local_vals descend_object
plain_assign op target m = elim (kind target) [
  | Kind.local ↦
      descend
        (record (new_frame FrameKind.assign m) {
          vals = local_vals (base_of_assign op) (or_undef (lookup m.heap m.env (word target)));
        })
        1 m
  | Kind.member ↦ descend_object (record (new_frame FrameKind.assign m) { aux = pos 1 }) target m
  | Kind.index ↦ descend_object (record (new_frame FrameKind.assign m) { aux = pos 2 }) target m
  | _ ↦ fault bad_target m
]

-- `func (m *machine) evalAssign`
unfoldable pub eval_assign : OpKind → Machine → Step
unfolding logical_assign plain_assign base_of_assign
eval_assign op m =
    need (get_elem? (kids m.node) 0) λ target.
      if is_logical_assign op then logical_assign op target m else plain_assign op target m

-- The value of the expression: the new one in prefix form (bit 0), else the old one.
abbrev pub update_result : ℕ → Updated → Value
update_result u r = if u % 2 == 1 then r.next_value else r.old_value

unfoldable pub updated_of : Interp → Node → Value → Updated
updated_of I n v = update_value I.floats v (op_of_word (word n / 2))

-- `func (m *machine) evalUpdate`
unfoldable pub eval_update : Interp → Machine → Step
unfolding updated_of descend_object assign
eval_update I m = need (get_elem? (kids m.node) 0) λ operand. elim (kind operand) [
  | Kind.local ↦
      let r = updated_of I m.node (or_undef (lookup m.heap m.env (word operand))) in
      next (
        apply_val (record m { heap = assign m.heap m.env (word operand) r.next_value })
          (update_result (word m.node) r))
  | Kind.member ↦ descend_object (record (new_frame FrameKind.update m) { aux = pos 1 }) operand m
  | Kind.index ↦ descend_object (record (new_frame FrameKind.update m) { aux = pos 2 }) operand m
  | _ ↦ fault bad_target m
]

-- The value to write: the right side, or the operator on the old value (`f.Vals[0]`) and it.
unfoldable pub combine : Interp → Option OpKind → Frame → Machine → (Value → Step) → Step
combine I none f m k = k m.val
combine I (some op) f m k = need (get_elem? f.vals 0) λ old.
    elim (bin_op I.floats m.heap op old m.val) [
      | OpResult.value v ↦ k v
      | OpResult.refused ↦ fault bad_operator m
      | OpResult.hang ↦ crash
    ]

-- Write back and deliver: pop the frame.
unfoldable pub store_in : List Frame → Machine → Value → Option Heap → Step
store_in rest m v h = need h λ h'. next (apply_val (record m { heap = h'; kont = rest }) v)

-- Evaluate child `i` of the frame's node, at the frame's own path, with the frame replaced.
abbrev pub resume_child : ℕ → Frame → List Frame → Machine → Step
resume_child i f rest m =
    need (get_elem? (kids f.node) i)
      λ c. next (goto (record m { kont = f ∷ rest }) c (child f.path i))

-- Evaluate the index expression: the second child of the first child.
unfoldable pub resume_index : Frame → Node → List Frame → Machine → Step
resume_index f target rest m =
    need (get_elem? (kids target) 1)
      λ c. next (goto (record m { kont = f ∷ rest }) c (child (child f.path 0) 1))

-- The old value of a compound target, read only if there is an operator.
unfoldable pub read_old : Option OpKind → Option Value → (List Value → Step) → List Value → Step
read_old none got k vals = k vals
read_old (some op) got k vals = need got λ v. k (v ∷ [])

unfoldable pub member_assign : Interp → Option OpKind → Node → Frame → List Frame → Machine → Step
unfolding combine store_in read_old set_member
member_assign I base target f rest m = elim f.idx [
  | pos zero ↦
      read_old base (get_member I.floats m.heap m.val (text target))
        (λ vals.
          resume_child 1 (record f { obj = m.val; key = text target; vals = vals; idx = pos 1 })
            rest m)
        f.vals
  | _ ↦ combine I base f m (λ v. store_in rest m v (set_member m.heap f.obj f.key v))
]

unfoldable pub index_assign : Interp → Option OpKind → Node → Frame → List Frame → Machine → Step
unfolding combine store_in read_old resume_index set_index
index_assign I base target f rest m = elim f.idx [
  | pos zero ↦ resume_index (record f { obj = m.val; idx = pos 1 }) target rest m
  | pos (suc zero) ↦
      read_old base (get_index I.floats m.heap f.obj m.val)
        (λ vals. resume_child 1 (record f { idx_val = m.val; vals = vals; idx = pos 2 }) rest m)
        f.vals
  | _ ↦ combine I base f m (λ v. store_in rest m v (set_index I.floats m.heap f.obj f.idx_val v))
]

unfoldable pub local_assign : Interp → Option OpKind → Node → Frame → List Frame → Machine → Step
unfolding combine assign
local_assign I base target f rest m =
    combine I base f m (λ v.
      next (apply_val (record m { heap = assign m.heap m.env (word target) v; kont = rest }) v))

-- `func (m *machine) assignResume`
unfoldable pub assign_resume : Interp → Frame → List Frame → Machine → Step
unfolding local_assign member_assign index_assign base_of_assign
assign_resume I f rest m = need (get_elem? (kids f.node) 0) λ target.
    let base = base_of_assign (op_of_word (word f.node)) in
    elim f.aux [
      | pos zero ↦ local_assign I base target f rest m
      | pos (suc zero) ↦ member_assign I base target f rest m
      | pos (suc (suc zero)) ↦ index_assign I base target f rest m
      | _ ↦ fault bad_target m
    ]

unfoldable pub update_at :
    Interp → Frame → List Frame → Machine → Option Value → (Value → Option Heap) → Step
unfolding updated_of store_in
update_at I f rest m got write = need got λ old.
    let r = updated_of I f.node old in
    store_in rest m (update_result (word f.node) r) (write r.next_value)

-- `func (m *machine) updateResume`
unfoldable pub update_resume : Interp → Frame → List Frame → Machine → Step
unfolding update_at resume_index set_member set_index
update_resume I f rest m = need (get_elem? (kids f.node) 0) λ operand. elim f.aux [
  | pos (suc zero) ↦
      update_at I f rest m (get_member I.floats m.heap m.val (text operand))
        (λ v. set_member m.heap m.val (text operand) v)
  | pos (suc (suc zero)) ↦ elim f.idx [
    | pos zero ↦ resume_index (record f { obj = m.val; idx = pos 1 }) operand rest m
    | _ ↦
        update_at I f rest m (get_index I.floats m.heap f.obj m.val)
          (λ v. set_index I.floats m.heap f.obj m.val v)
  ]
  | _ ↦ fault bad_target m
]
