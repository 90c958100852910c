-- ===== src/Cek/Coherence/Assign.antt =====
-- The transitions of Cek/Assign.antt keep the invariant.
use regel.Base.{ℕ, ◌≡◌, refl, true, Option, none, some, List, [], ◌∷◌, get_elem?}
use regel.Base.Int.{pos}
use regel.Rast.{Node, OpKind, kids, kind, text, word, op_of_word}
use regel.Rast.Fits.{fits}
use regel.Cek.Value.{Value, Heap}
use regel.Cek.Env.{lookup}
use regel.Cek.Ops.{bin_op}
use regel.Cek.Props.{get_member, get_index, set_member, set_index}
use regel.Cek.Machine.{
  Meter, Machine, Frame, FrameKind, Step, next, fault, bad_operator, bad_target, Interp, navigate,
  new_frame, apply_val,
}
use regel.Cek.Assign.{
  descend, descend_object, logical_assign, plain_assign, eval_assign, eval_update, combine,
  store_in, resume_child, resume_index, read_old, member_assign, index_assign, local_assign,
  assign_resume, update_at, update_resume, base_of_assign, is_logical_assign, assigns_now, or_undef,
}
use regel.Cek.Coherence.{Keeps, Below, FrameAt}
use regel.Cek.Coherence.Basic.{navigate-child, enter_node, deliver_below, need-Keeps, if-Keeps}
use regel.Cek.Coherence.Cases.{
  first-Keeps, second-Keeps, third-Keeps, class-Keeps, op-Keeps, target-Keeps, local-Keeps,
}

module _ (I : Interp) (mt : Meter) (m : Machine) (fit : fits m.root ≡ true)
    (b : Below I mt m.meter m.def_hash m.root m.kont)
    (at : navigate m.root m.path ≡ some m.node) where
  -- A frame for the current node goes on top, and a child is evaluated.
  pub descend-Keeps : (f : Frame) (i : ℕ) → FrameAt m.root f → Keeps I mt (descend f i m)
  descend-Keeps f i fa =
      need-Keeps I mt (get_elem? (kids m.node) i) _
        λ c z. enter_node b fa (navigate-child m.root m.node c m.path i fit at z)

  descend_object-Keeps :
      (f : Frame) (t : Node)
      → FrameAt m.root f
      → get_elem? (kids m.node) 0 ≡ some t
      → Keeps I mt (descend_object f t m)
  unfolding descend_object
  descend_object-Keeps f t fa e = need-Keeps I mt (get_elem? (kids t) 0) _ λ c z.
      enter_node b fa
        (navigate-child m.root t c _ 0 fit (navigate-child m.root m.node t m.path 0 fit at e) z)

  logical_assign-Keeps : (op : OpKind) (t : Node) → Keeps I mt (logical_assign op t m)
  unfolding logical_assign
  logical_assign-Keeps op t =
      local-Keeps I mt (kind t) _ (fault bad_target m)
        (if-Keeps I mt (assigns_now op (or_undef (lookup m.heap m.env (word t))))
          (descend (new_frame FrameKind.assign m) 1 m)
          (next (apply_val m (or_undef (lookup m.heap m.env (word t)))))
          (λ _. descend-Keeps (new_frame FrameKind.assign m) 1 (refl, at)) (λ _. deliver_below b))
        tt

  plain_assign-Keeps :
      (op : OpKind) (t : Node)
      → get_elem? (kids m.node) 0 ≡ some t
      → Keeps I mt (plain_assign op t m)
  unfolding plain_assign
  plain_assign-Keeps op t e =
      target-Keeps I mt (kind t) _ _ _ (fault bad_target m) (descend-Keeps _ 1 (refl, at))
        (descend_object-Keeps _ t (refl, at) e) (descend_object-Keeps _ t (refl, at) e) tt

  pub eval_assign-Keeps : (op : OpKind) → Keeps I mt (eval_assign op m)
  unfolding eval_assign
  eval_assign-Keeps op = need-Keeps I mt (get_elem? (kids m.node) 0) _ λ t z.
      if-Keeps I mt (is_logical_assign op) _ _ (λ _. logical_assign-Keeps op t)
        (λ _. plain_assign-Keeps op t z)

  pub eval_update-Keeps : Keeps I mt (eval_update I m)
  unfolding eval_update
  eval_update-Keeps = need-Keeps I mt (get_elem? (kids m.node) 0) _ λ t z.
      target-Keeps I mt (kind t) _ _ _ (fault bad_target m) (deliver_below b)
        (descend_object-Keeps _ t (refl, at) z) (descend_object-Keeps _ t (refl, at) z) tt

module _ (I : Interp) (mt : Meter) (rest : List Frame) (m : Machine) (fit : fits m.root ≡ true)
    (b : Below I mt m.meter m.def_hash m.root rest) where
  pub resume_child-Keeps :
      (i : ℕ) (f : Frame) → FrameAt m.root f → Keeps I mt (resume_child i f rest m)
  resume_child-Keeps i f at =
      need-Keeps I mt (get_elem? (kids f.node) i) _
        λ c z. enter_node b at (navigate-child m.root f.node c f.path i fit at.1 z)

  resume_index-Keeps :
      (f : Frame) (t : Node)
      → FrameAt m.root f
      → get_elem? (kids f.node) 0 ≡ some t
      → Keeps I mt (resume_index f t rest m)
  unfolding resume_index
  resume_index-Keeps f t at e = need-Keeps I mt (get_elem? (kids t) 1) _ λ c z.
      enter_node b at
        (navigate-child m.root t c _ 1 fit (navigate-child m.root f.node t f.path 0 fit at.1 e) z)

  combine-Keeps :
      (op : Option OpKind) (f : Frame) (k : Value → Step)
      → ((v : Value) → Keeps I mt (k v))
      → Keeps I mt (combine I op f m k)
  unfolding combine
  combine-Keeps none f k h = h m.val
  combine-Keeps (some op) f k h =
      need-Keeps I mt (get_elem? f.vals 0) _
        λ old z. op-Keeps I mt (bin_op I.floats m.heap op old m.val) k bad_operator m h

  store_in-Keeps : (v : Value) (h : Option Heap) → Keeps I mt (store_in rest m v h)
  unfolding store_in
  store_in-Keeps v h = need-Keeps I mt h _ λ g z. deliver_below b

  read_old-Keeps :
      (op : Option OpKind) (got : Option Value) (k : List Value → Step) (vals : List Value)
      → ((vs : List Value) → Keeps I mt (k vs))
      → Keeps I mt (read_old op got k vals)
  unfolding read_old
  read_old-Keeps none got k vals h = h vals
  read_old-Keeps (some op) got k vals h = need-Keeps I mt got _ λ v z. h (v ∷ [])

  member_assign-Keeps :
      (op : Option OpKind) (t : Node) (f : Frame)
      → FrameAt m.root f
      → Keeps I mt (member_assign I op t f rest m)
  unfolding member_assign
  member_assign-Keeps op t f at =
      first-Keeps I mt f.idx _ _
        (read_old-Keeps op (get_member I.floats m.heap m.val (text t)) _ f.vals λ vs.
          resume_child-Keeps 1 (record f { obj = m.val; key = text t; vals = vs; idx = pos 1 }) at)
        (combine-Keeps op f _ λ v. store_in-Keeps v (set_member m.heap f.obj f.key v))

  index_assign-Keeps :
      (op : Option OpKind) (t : Node) (f : Frame)
      → FrameAt m.root f
      → get_elem? (kids f.node) 0 ≡ some t
      → Keeps I mt (index_assign I op t f rest m)
  unfolding index_assign
  index_assign-Keeps op t f at e =
      second-Keeps I mt f.idx _ _ _
        (resume_index-Keeps (record f { obj = m.val; idx = pos 1 }) t at e)
        (read_old-Keeps op (get_index I.floats m.heap f.obj m.val) _ f.vals
          λ vs. resume_child-Keeps 1 (record f { idx_val = m.val; vals = vs; idx = pos 2 }) at)
        (combine-Keeps op f _ λ v. store_in-Keeps v (set_index I.floats m.heap f.obj f.idx_val v))

  local_assign-Keeps :
      (op : Option OpKind) (t : Node) (f : Frame) → Keeps I mt (local_assign I op t f rest m)
  unfolding local_assign
  local_assign-Keeps op t f = combine-Keeps op f _ λ v. deliver_below b

  pub assign_resume-Keeps : (f : Frame) → FrameAt m.root f → Keeps I mt (assign_resume I f rest m)
  unfolding assign_resume
  assign_resume-Keeps f at =
      let op = base_of_assign (op_of_word (word f.node)) in
      need-Keeps I mt (get_elem? (kids f.node) 0) _ λ t z.
        third-Keeps I mt f.aux _ _ _ (fault bad_target m) (local_assign-Keeps op t f)
          (member_assign-Keeps op t f at) (index_assign-Keeps op t f at z) tt

  update_at-Keeps :
      (f : Frame) (got : Option Value) (w : Value → Option Heap)
      → Keeps I mt (update_at I f rest m got w)
  unfolding update_at
  update_at-Keeps f got w = need-Keeps I mt got _ λ old z. store_in-Keeps _ _

  pub update_resume-Keeps : (f : Frame) → FrameAt m.root f → Keeps I mt (update_resume I f rest m)
  unfolding update_resume
  update_resume-Keeps f at = need-Keeps I mt (get_elem? (kids f.node) 0) _ λ t z.
      class-Keeps I mt f.aux _ _ (fault bad_target m)
        (update_at-Keeps f (get_member I.floats m.heap m.val (text t))
          (set_member m.heap m.val (text t)))
        (first-Keeps I mt f.idx _ _
          (resume_index-Keeps (record f { obj = m.val; idx = pos 1 }) t at z)
          (update_at-Keeps f (get_index I.floats m.heap f.obj m.val)
            (set_index I.floats m.heap f.obj m.val)))
        tt
