-- ===== src/Cfr/Restore.antt =====
-- internal/cfr/codec.go and decode.go together: what comes back is the state that was parked.
pub mod Resume
pub mod Values
pub mod Closures
use mathlib.Core.List.{reverse}
use regel.Base.{
  ℕ, ◌≡◌, refl, ap, ◌∙◌, Option, none, some, List, [], ◌∷◌, length, map, arith, lt_of_get_elem?,
  Option-cases, inl, inr, get_elem?, ◌++◌, ◌<◌, ◌>>=◌, Str, zero, suc,
}
use regel.Cek.Value.{
  Value, Object, env_obj, array_obj, record_obj, closure_obj, opaque_obj, Heap, closure_at,
  ClosureObj, RecordObj, record_get,
}
use regel.Cek.Machine.{Signal, Frame, State}
use regel.Cfr.Wire.{Bytes}
use regel.Cfr.Form.{StateForm}
use regel.Cfr.Encode.{write_state}
use regel.Cfr.Decode.{decode, all_read}
use regel.Cfr.Intern.{
  kind_at, object_kind, closure_env, target, field_value, field_values, children_of, children,
  pend_values, frame_roots, kont_roots, roots, intern_state,
}
use regel.Cfr.Intern.Reach.{Shared, Sound, Complete, intern_state-Complete}
use regel.Cfr.Image.{form_of, encode}
use regel.Cfr.Codec.Fits.{All, Short, StateFits}
use regel.Cfr.Codec.Lists.{All-reverse}
use regel.Cfr.Codec.States.{decode_alone}
use regel.Cfr.Image.Fits.{
  EnvPointer, ClosureFits, ValueFits, FieldFits, ObjectFits, PendingFits, HeldFrame, Held,
}
use regel.Cfr.Image.Fits.States.{form_of-Fits}
use regel.Cfr.Load.{load_state, decode_state}
use regel.Cfr.Load.Cells.{ids}
use regel.Cfr.Load.States.{form_of-load_state}

module _ (h : Heap) where
  pointer-Shared : (e : Option ℕ) → EnvPointer h e → Shared h e
  pointer-Shared none k = tt
  pointer-Shared (some a) k = omega (arith, k)

  closure-Shared : (o : Option ClosureObj) → ClosureFits h o → Shared h (closure_env o)
  closure-Shared none k = absurd (ground (arith, k))
  closure-Shared (some c) k = pointer-Shared c.env k.2

  pub value-Shared : (v : Value) → ValueFits h v → Shared h (target h v)
  unfolding target
  value-Shared (Value.array a) k = omega (arith, k)
  value-Shared (Value.rec a) k = omega (arith, k)
  value-Shared (Value.closure a) k = closure-Shared (closure_at h a) k
  value-Shared _ k = tt

  values-Shared : (vs : List Value) → All (ValueFits h) vs → All (Shared h) (map (target h) vs)
  values-Shared [] k = tt
  values-Shared (v ∷ vs) k = (value-Shared v k.0, values-Shared vs k.1)

  fields-Shared :
      (r : RecordObj) (ks : List Str)
      → All (FieldFits h r) ks
      → All (Shared h) (map (target h) (field_values r ks))
  unfolding field_values
  fields-Shared r [] k = tt
  fields-Shared r (x ∷ ks) k =
      (value-Shared (field_value (record_get r x)) k.0.1, fields-Shared r ks k.1)

  object-Shared : (o : Object) → ObjectFits h o → All (Shared h) (children_of h (some o))
  unfolding children_of
  object-Shared (env_obj p vs) k = (pointer-Shared p k.0, values-Shared vs k.2)
  object-Shared (array_obj vs) k = values-Shared vs k.1
  object-Shared (record_obj r) k = fields-Shared r r.keys k.1
  object-Shared (closure_obj d p e) k = tt
  object-Shared (opaque_obj c d) k = tt

  pend-Shared :
      (o : Option Signal) → PendingFits h o → All (Shared h) (map (target h) (pend_values o))
  pend-Shared none k = tt
  pend-Shared (some s) k = (value-Shared s.val k, tt)

  All-map_append :
      (xs ys : List Value)
      → All (Shared h) (map (target h) xs)
      → All (Shared h) (map (target h) ys)
      → All (Shared h) (map (target h) (xs ++ ys))
  All-map_append [] ys p q = q
  All-map_append (x ∷ xs) ys p q = (p.0, All-map_append xs ys p.1 q)

  frame-Shared : (f : Frame) → HeldFrame h f → All (Shared h) (frame_roots h f)
  unfolding frame_roots
  frame-Shared f k = (
    pointer-Shared f.env k.env,
    (
      pointer-Shared f.outer_env k.outer_env,
      (
        pointer-Shared f.ret_env k.ret_env,
        All-map_append f.vals (f.obj ∷ f.idx_val ∷ pend_values f.pend) (values-Shared f.vals k.vals)
            (
              value-Shared f.obj k.obj,
              (value-Shared f.idx_val k.idx_val, pend-Shared f.pend k.pend),
            ),
      ),
    ),
  )

  All-append :
      (xs ys : List (Option ℕ)) → All (Shared h) xs → All (Shared h) ys → All (Shared h) (xs ++ ys)
  All-append [] ys p q = q
  All-append (x ∷ xs) ys p q = (p.0, All-append xs ys p.1 q)

  kont-Shared : (fs : List Frame) → All (HeldFrame h) fs → All (Shared h) (kont_roots h fs)
  unfolding kont_roots
  kont-Shared [] k = tt
  kont-Shared (f ∷ fs) k =
      All-append (frame_roots h f) (kont_roots h fs) (frame-Shared f k.0) (kont-Shared fs k.1)

pub objects-Shared :
    (h g : Heap) → All (ObjectFits h) g → (a : ℕ) → All (Shared h) (children_of h (get_elem? g a))
unfolding children_of
objects-Shared h [] k a = tt
objects-Shared h (o ∷ g) k zero = unfold children_of in object-Shared h o k.0
objects-Shared h (o ∷ g) k (suc a) = objects-Shared h g k.1 a

pub held-Sound : (s : State) → Held s → Sound s.heap
unfolding children
held-Sound s k = record { inside = objects-Shared s.heap s.heap k.heap }

pub held_roots : (s : State) → Held s → All (Shared s.heap) (roots s)
unfolding roots
held_roots s k = (
  value-Shared s.heap s.val k.val,
  (
    value-Shared s.heap s.sig.val k.sig,
    (
      pointer-Shared s.heap s.env k.env,
      kont-Shared s.heap (reverse s.kont) (All-reverse (HeldFrame s.heap) s.kont k.kont),
    ),
  ),
)

-- The content of a state: what it looks like through a table of addresses.
pub record Restored (s : State) : Type 0 where
  pub bytes : Bytes
  pub table : List ℕ
  pub form : StateForm
  pub encoded : encode s ≡ some bytes
  pub complete : Complete s table
  pub before : form_of s table ≡ some form
  pub decoded : decode_state bytes ≡ some (load_state form)
  pub after : form_of (load_state form) (ids (length form.table)) ≡ some form

-- A state that the machine can hold is encoded, the bytes are decoded, and the two states are the same
-- but for addresses: through the table of all that the one reaches, and through that of the other, they
-- have one form.
pub restored : (s : State) → Held s → Restored s
unfolding encode decode_state
restored s k =
    let (t, q, c) = intern_state-Complete s (held-Sound s k) (held_roots s k) in
    let (f, e, fits) = form_of-Fits s t k c in
    record {
      bytes = write_state f;
      table = t;
      form = f;
      encoded = rw (q, e) refl;
      complete = c;
      before = e;
      decoded = rw (decode_alone f fits) refl;
      after = form_of-load_state f fits;
    }
