-- ===== src/Cfr/Restore/Closures.antt =====
-- internal/cfr/codec.go and decode.go on closures, which have no place in the table: strictEq of
-- internal/cek/ops.go compares their pointers.
use mathlib.Core.Path.{subst}
use mathlib.Core.List.{reverse}
use regel.Base.{
  ℕ, ◌≡◌, refl, ap, ap₂, sym, ◌∙◌, true, false, some, List, [], ◌∷◌, arith, length-append,
}
use regel.Cek.Value.{Value, Heap, closure_at, closure_obj}
use regel.Cek.Machine.{State}
use regel.Cek.Ops.{strict_eq}
use regel.Cfr.Form.{Cell, SignalForm, StateForm}
use regel.Cfr.Image.{all_of, cell_of, signal_of, table_of, frame_of, form_of}
use regel.Cfr.Load.{pointer, load_table, load_cell, load_signal, load_state}
use regel.Cfr.Image.Fits.{Held}
use regel.Cfr.Restore.{restored}
use regel.Cfr.Restore.Resume.{bind_some, some_value}

abbrev IsClosure : Cell → Type 0
IsClosure (Cell.closure d p r) = Unit
IsClosure _ = true ≡ false

closure_cell :
    (h : Heap) (t : List ℕ) (a : ℕ) (c : Cell)
    → cell_of h t (Value.closure a) ≡ some c
    → IsClosure c
unfolding cell_of
closure_cell h t a c q =
    let (o, _, e) = bind_some (closure_at h a) _ c q in subst IsClosure (some_value _ c e) tt

-- Each time that a closure is read it is new.
new_each_time :
    (h : Heap) (b c : Cell)
    → IsClosure b
    → IsClosure c
    → strict_eq (load_cell h b).1 (load_cell (load_cell h b).0 c).1 ≡ false
unfolding strict_eq load_cell
new_each_time h (Cell.closure d p r) (Cell.closure d' p' r') k l =
    ground (arith, length-append h (closure_obj d p (pointer r) ∷ []))
new_each_time h (Cell.closure d p r) _ k l = refl
new_each_time h _ c k l = absurd (ground (arith, k))

form_of-cells :
    (s : State) (t : List ℕ) (f : StateForm)
    → form_of s t ≡ some f
    → (cell_of s.heap t s.val ≡ some f.val) × (cell_of s.heap t s.sig.val ≡ some f.sig.val)
unfolding form_of signal_of
form_of-cells s t f q =
    let (table, _, q1) = bind_some (table_of s.heap t) _ f q in
    let (v, e1, q2) = bind_some (cell_of s.heap t s.val) _ f q1 in
    let (sig, e2, q3) = bind_some (signal_of s.heap t s.sig) _ f q2 in
    let (fs, _, q4) = bind_some (all_of (frame_of s.heap t) (reverse s.kont)) _ f q3 in
    let (c, e3, q5) = bind_some (cell_of s.heap t s.sig.val) _ sig e2 in
    let r = some_value _ f q4 in
    (
      e1 ∙ ap (λ x. some (StateForm.val x)) r,
      e3
          ∙ ap (λ x. some (SignalForm.val x)) (some_value _ sig q5)
          ∙ ap (λ x. some (SignalForm.val (StateForm.sig x))) r,
    )

self_eq : (a : ℕ) → strict_eq (Value.closure a) (Value.closure a) ≡ true
unfolding strict_eq
self_eq a = ground arith

-- Where the value register and the signal register of a state hold the same closure, they are strictly
-- equal; after the state is encoded and decoded they are not.
pub restored-strict_eq :
    (s : State) (a : ℕ) (k : Held s)
    → s.val ≡ Value.closure a
    → s.sig.val ≡ Value.closure a
    → (strict_eq s.val s.sig.val ≡ true)
      × (let s' = load_state (restored s k).form in strict_eq s'.val s'.sig.val ≡ false)
unfolding load_state load_signal
restored-strict_eq s a k p q =
    let r = restored s k in
    let (e1, e2) = form_of-cells s r.table r.form r.before in
    (
      ap₂ strict_eq p q ∙ self_eq a,
      new_each_time (load_table r.form.table) r.form.val r.form.sig.val
          (closure_cell s.heap r.table a r.form.val (ap (cell_of s.heap r.table) (sym p) ∙ e1))
          (closure_cell s.heap r.table a r.form.sig.val (ap (cell_of s.heap r.table) (sym q) ∙ e2)),
    )
