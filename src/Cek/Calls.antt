-- ===== src/Cek/Calls.antt =====
-- A call and its return (performCall, restoreCaller and FrRet of internal/cek/apply.go and unwind.go),
-- and the do-while of eval.go.
use regel.Base.{
  ℕ, ◌≡◌, ◌≢◌, refl, sym, ap, ◌∙◌, false, none, some, List, ◌∷◌, arith, get_elem?, if◌then◌else◌,
  is_empty,
}
use regel.Rast.{Node, kids}
use regel.Cek.Value.{Value, Heap, ClosureObj}
use regel.Cek.Bind.{Activation, activation, bad_parameters, activation_crash, bind_params}
use regel.Cek.Machine.{
  Machine, Frame, Step, next, crash, fault, Fault, bad_arguments, Interp, Mode, navigate,
}
use regel.Cek.Call.{enter, ret_frame, restore_caller}
use regel.Cek.Apply.{apply_step, apply_frame, apply_ret}
use regel.Cek.Unwind.{unwind_step, unwind_frame, unwind_ret, is_return}
use regel.Cek.Eval.{eval_do_while}
use regel.Cek.Run.{dispatch}
use regel.Cek.Signals.{need_next}

activation-kont :
    (r : Activation) (x : Fault) (m m1 : Machine) (k : Heap → ℕ → Step) (fs : List Frame)
    → ((h : Heap) (a : ℕ) → k h a ≡ next m1 → m1.kont ≡ fs)
    → (elim r [ activation_crash ↦ crash | bad_parameters ↦ fault x m | activation h a ↦ k h a ])
      ≡ next m1
    → m1.kont ≡ fs
activation-kont activation_crash x m m1 k fs h e = absurd (ground arith)
activation-kont bad_parameters x m m1 k fs h e = absurd (ground arith)
activation-kont (activation g a) x m m1 k fs h e = h g a e

entered-kont :
    (I : Interp) (f : Frame) (rest : List Frame) (m m1 : Machine) (clo : ClosureObj)
    (root fn : Node) (args : List Value)
    → enter I f rest m clo root fn args ≡ next m1
    → m1.kont ≡ ret_frame f m ∷ rest
unfolding enter
entered-kont I f rest m m1 clo root fn args e =
    activation-kont (bind_params I.floats fn args clo.env m.heap) bad_arguments m m1 _ _
      (λ h a q.
        need_next (λ x. x.kont ≡ ret_frame f m ∷ rest) (get_elem? (kids fn) 3) _ m1 (λ c. refl) q)
      e

-- The caller's registers, the frames below the call, and a heap.
pub record Returned (m : Machine) (rest : List Frame) (h : Heap) (m' : Machine) : Type 0 where
  pub def_hash : m'.def_hash ≡ m.def_hash
  pub root : m'.root ≡ m.root
  pub env : m'.env ≡ m.env
  pub kont : m'.kont ≡ rest
  pub heap : m'.heap ≡ h

-- The boundary on top of the frames.
module _ (I : Interp) (f g : Frame) (rest : List Frame) (m m2 : Machine)
    (top : m2.kont ≡ ret_frame f m ∷ g ∷ rest) where
  boundary_apply :
      dispatch I Mode.apply m2
      ≡ next (record (restore_caller I (ret_frame f m) m2) { kont = g ∷ rest; mode = Mode.apply })
  unfolding dispatch apply_step apply_frame apply_ret ret_frame
  boundary_apply = rw top refl

  boundary_unwind : dispatch I Mode.unwind m2 ≡ (
      if is_return m2.sig.kind
      then next (record (restore_caller I (ret_frame f m) m2) {
        kont = g ∷ rest;
        mode = Mode.apply;
        val = m2.sig.val;
      })
      else next
          (record (restore_caller I (ret_frame f m) m2) { kont = g ∷ rest; mode = Mode.unwind }))
  unfolding dispatch unwind_step unwind_frame unwind_ret ret_frame
  boundary_unwind = rw top refl

-- A call that was entered, and the boundary reached again, in whatever state the callee left the
-- machine: a value that is delivered, and the value of a return, go to the caller, and any other signal
-- crosses the boundary; each time the caller's definition, root, environment and frames are back, and
-- the callee's heap stays. The caller's definition must still load, and not be the bottom of the run.
pub call_returns :
    (I : Interp) (f g : Frame) (rest : List Frame) (m m1 m2 : Machine) (clo : ClosureObj)
    (root fn : Node) (args : List Value)
    → I.load m.def_hash ≡ some m.root
    → is_empty m.def_hash ≡ false
    → enter I f (g ∷ rest) m clo root fn args ≡ next m1
    → m2.kont ≡ m1.kont
    → (m3 : Machine) × (dispatch I Mode.apply m2
        ≡ next (record m3 { mode = Mode.apply; val = m2.val }))
      × (dispatch I Mode.unwind m2 ≡ (
          if is_return m2.sig.kind
          then next (record m3 { mode = Mode.apply; val = m2.sig.val })
          else next (record m3 { mode = Mode.unwind })))
      × (m3.sig ≡ m2.sig)
      × Returned m (g ∷ rest) m2.heap m3
unfolding restore_caller ret_frame
call_returns I f g rest m m1 m2 clo root fn args l n e k = (
  record (restore_caller I (ret_frame f m) m2) { kont = g ∷ rest },
  boundary_apply I f g rest m m2 top,
  boundary_unwind I f g rest m m2 top,
  refl,
  record { def_hash = refl; root = rw (n, l) refl; env = refl; kont = refl; heap = refl },
)
  where
    top : m2.kont ≡ ret_frame f m ∷ g ∷ rest
    top = k ∙ entered-kont I f (g ∷ rest) m m1 clo root fn args e

-- The first evaluation of a do-while moves to the body and keeps the path of the loop: the path does
-- not lead to the current node.
pub eval_do_while-path :
    (m m1 : Machine)
    → navigate m.root m.path ≡ some m.node
    → eval_do_while m ≡ next m1
    → m1.node ≢ m.node
    → navigate m1.root m1.path ≢ some m1.node
unfolding eval_do_while
eval_do_while-path m m1 at e ne h = ne (
    some_inj m1.node m.node
      (sym h ∙ ap (λ r. navigate r m1.path) stays.0 ∙ ap (navigate m.root) stays.1 ∙ at))
  where
    some_inj : (a b : Node) → some a ≡ some b → a ≡ b
    some_inj a b q = ap (λ o. elim o [ none ↦ a | some x ↦ x ]) q

    stays : (m1.root ≡ m.root) × (m1.path ≡ m.path)
    stays =
        need_next (λ x. (x.root ≡ m.root) × (x.path ≡ m.path)) (get_elem? (kids m.node) 0) _ m1
          (λ c. (refl, refl)) e
