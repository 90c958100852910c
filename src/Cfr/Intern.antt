-- ===== src/Cfr/Intern.antt =====
-- The first pass of `func Encode` of internal/cfr/codec.go: every object that is reachable gets a place in
-- the table, in the order in which it is met. And what `objIdx` makes of a pointer afterwards.
pub mod Reach
use mathlib.Core.List.{reverse}
use regel.Base.{
  ℕ, zero, suc, Bool, true, false, ◌||◌, if◌then◌else◌, Option, none, some, List, [], ◌∷◌, ◌++◌,
  length, get_elem?, map, ◌==◌, ◌>>=◌, Str,
}
use regel.Cek.Value.{
  Value, Object, env_obj, array_obj, record_obj, closure_obj, opaque_obj, Heap, ClosureObj,
  closure_at, RecordObj, record_get,
}
use regel.Cek.Machine.{Signal, Frame, State}

abbrev pub mem : ℕ → List ℕ → Bool
mem a [] = false
mem a (b ∷ bs) = a == b || mem a bs

-- objEnv, objArray and objRecord: the kinds of the objects that have places.
abbrev pub object_kind : Option Object → ℕ
object_kind (some (env_obj p vs)) = 1
object_kind (some (array_obj vs)) = 2
object_kind (some (record_obj r)) = 3
object_kind _ = 0

unfoldable pub kind_at : Heap → ℕ → ℕ
kind_at h a = object_kind (get_elem? h a)

abbrev pub closure_env : Option ClosureObj → Option ℕ
closure_env none = none
closure_env (some c) = c.env

-- The object that `internValue` goes to: the array, the record, or the environment of the closure.
unfoldable pub target : Heap → Value → Option ℕ
unfolding closure_at
target h (Value.array a) = some a
target h (Value.rec a) = some a
target h (Value.closure a) = closure_env (closure_at h a)
target h _ = none

-- `r.M[k]`: the zero value of Go, undefined, where the key is missing.
abbrev pub field_value : Option Value → Value
field_value none = Value.undefined
field_value (some v) = v

unfoldable pub field_values : RecordObj → List Str → List Value
unfolding record_get
field_values r [] = []
field_values r (k ∷ ks) = field_value (record_get r k) ∷ field_values r ks

-- What is met next, from an object that is new.
unfoldable pub children_of : Heap → Option Object → List (Option ℕ)
unfolding target field_values
children_of h none = []
children_of h (some (env_obj p vs)) = p ∷ map (target h) vs
children_of h (some (array_obj vs)) = map (target h) vs
children_of h (some (record_obj r)) = map (target h) (field_values r r.keys)
children_of h (some (closure_obj d p e)) = []
children_of h (some (opaque_obj c d)) = []

unfoldable pub children : Heap → ℕ → List (Option ℕ)
unfolding children_of
children h a = children_of h (get_elem? h a)

abbrev pub Visit : Type 0
Visit = List ℕ → Option ℕ → Option (List ℕ)

unfoldable pub visit_all : Visit → List ℕ → List (Option ℕ) → Option (List ℕ)
visit_all step seen [] = some seen
visit_all step seen (t ∷ ts) = do seen' ← step seen t; visit_all step seen' ts

-- `internValue` and `internEnv`, with `intern`: a pointer that has a place is not gone into again. The
-- depth of the recursion is bounded; `none` means that the bound was too low.
unfoldable pub visit : ℕ → Heap → Visit
unfolding visit_all children
visit fuel h seen none = some seen
visit zero h seen (some a) = if mem a seen then some seen else none
visit (suc fuel) h seen (some a) = elim (mem a seen) [
  | true ↦ some seen
  | false ↦ visit_all (visit fuel h) (seen ++ a ∷ []) (children h a)
]

abbrev pub pend_values : Option Signal → List Value
pend_values none = []
pend_values (some s) = s.val ∷ []

unfoldable pub frame_roots : Heap → Frame → List (Option ℕ)
unfolding target
frame_roots h f =
    f.env
    ∷ f.outer_env
    ∷ f.ret_env
    ∷ map (target h) (f.vals ++ (f.obj ∷ f.idx_val ∷ pend_values f.pend))

unfoldable pub kont_roots : Heap → List Frame → List (Option ℕ)
unfolding frame_roots
kont_roots h [] = []
kont_roots h (f ∷ fs) = frame_roots h f ++ kont_roots h fs

-- What `func Encode` goes to, the frames from the bottom (`for _, f := range st.Kont`).
unfoldable pub roots : State → List (Option ℕ)
unfolding target kont_roots
roots s = target s.heap s.val ∷ target s.heap s.sig.val ∷ s.env ∷ kont_roots s.heap (reverse s.kont)

-- The calls of internValue and internEnv in `func Encode`; no path visits more objects than there are.
unfoldable pub intern_state : State → Option (List ℕ)
unfolding visit_all visit roots
intern_state s = visit_all (visit (length s.heap) s.heap) [] (roots s)
