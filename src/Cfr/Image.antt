-- ===== src/Cfr/Image.antt =====
-- internal/cfr/codec.go: `func Encode` whole. What the second pass writes of a pointer is its place in the
-- table, so the state is first written down with places for pointers, and `none` is Go's panic at a type
-- assertion.
pub mod Fits
use mathlib.Core.List.{reverse}
use regel.Base.{
  ℕ, zero, suc, Option, none, some, List, [], ◌∷◌, get_elem?, length, ◌==◌, if◌then◌else◌, ◌>>=◌,
  Str,
}
use regel.Cek.Value.{
  Value, Object, env_obj, array_obj, record_obj, closure_obj, opaque_obj, Heap, ClosureObj,
  closure_at, RecordObj, record_get,
}
use regel.Cek.Machine.{Signal, Frame, State}
use regel.Cfr.Wire.{Bytes}
use regel.Cfr.Form.{
  Cell, Shell, env_shell, array_shell, record_shell, SignalForm, FrameForm, StateForm,
}
use regel.Cfr.Intern.{field_value, intern_state, visit_all, visit, target}
use regel.Cfr.Encode.{write_state, write_value}

-- `objIdx`
unfoldable pub place : List ℕ → ℕ → Option ℕ
place [] a = none
place (b ∷ bs) a = let later = place bs a in if b == a then some 0 else (do i ← later; some (suc i))

abbrev pub ref_or_nil : Option ℕ → ℕ
ref_or_nil none = 0
ref_or_nil (some i) = suc i

-- `objRef` and `envRef`
unfoldable pub ref_of : List ℕ → Option ℕ → ℕ
unfolding place
ref_of t none = 0
ref_of t (some a) = ref_or_nil (place t a)

abbrev pub opaque_parts : Option Object → Option (Str × List ℕ)
opaque_parts (some (opaque_obj c d)) = some (c, d)
opaque_parts _ = none

-- `func (e *encoder) value`, up to the bytes.
unfoldable pub cell_of : Heap → List ℕ → Value → Option Cell
unfolding ref_of closure_at
cell_of h t Value.undefined = some Cell.undefined
cell_of h t Value.null = some Cell.null
cell_of h t (Value.bool n) = some (Cell.bool n)
cell_of h t (Value.f64 w) = some (Cell.f64 w)
cell_of h t (Value.bigint z) = some (Cell.bigint z)
cell_of h t (Value.str s) = some (Cell.str s)
cell_of h t (Value.array a) = some (Cell.array (ref_of t (some a)))
cell_of h t (Value.rec a) = some (Cell.rec (ref_of t (some a)))
cell_of h t (Value.closure a) = do
  c ← closure_at h a
  some (Cell.closure c.def_hash c.path (ref_of t c.env))
cell_of h t (Value.cap_token s) = some (Cell.cap_token s)
cell_of h t (Value.opaque a) = do (c, d) ← opaque_parts (get_elem? h a); some (Cell.opaque c d)

module _ {A B : Type 0} (f : A → Option B) where
  abbrev pub all_of : List A → Option (List B)
  all_of [] = some []
  all_of (x ∷ xs) = do y ← f x; ys ← all_of xs; some (y ∷ ys)

unfoldable pub entry_of : Heap → List ℕ → RecordObj → Str → Option (Str × Cell)
unfolding cell_of record_get
entry_of h t r k = do c ← cell_of h t (field_value (record_get r k)); some (k, c)

-- The bodies of `emitHeap`. Only environments, arrays and records have places.
unfoldable pub shell_of_object : Heap → List ℕ → Object → Option Shell
unfolding cell_of entry_of ref_of
shell_of_object h t (env_obj p vs) = do
  cs ← all_of (cell_of h t) vs
  some (env_shell (ref_of t p) cs)
shell_of_object h t (array_obj vs) = do cs ← all_of (cell_of h t) vs; some (array_shell cs)
shell_of_object h t (record_obj r) = do es ← all_of (entry_of h t r) r.keys; some (record_shell es)
shell_of_object h t _ = none

unfoldable pub shell_of : Heap → List ℕ → ℕ → Option Shell
unfolding shell_of_object
shell_of h t a = do o ← get_elem? h a; shell_of_object h t o

unfoldable pub table_of : Heap → List ℕ → Option (List Shell)
unfolding shell_of
table_of h t = all_of (shell_of h t) t

unfoldable pub signal_of : Heap → List ℕ → Signal → Option SignalForm
unfolding cell_of
signal_of h t s = do c ← cell_of h t s.val; some (record { kind = s.kind; val = c })

unfoldable pub pend_of : Heap → List ℕ → Option Signal → Option (Option SignalForm)
unfolding signal_of
pend_of h t none = some none
pend_of h t (some s) = do p ← signal_of h t s; some (some p)

-- The fields that `func (e *encoder) frame` writes; the node is not one of them.
unfoldable pub frame_of : Heap → List ℕ → Frame → Option FrameForm
unfolding cell_of ref_of pend_of
frame_of h t f = do
  vs ← all_of (cell_of h t) f.vals
  o ← cell_of h t f.obj
  iv ← cell_of h t f.idx_val
  p ← pend_of h t f.pend
  some (record {
    kind = f.kind;
    path = f.path;
    idx = f.idx;
    aux = f.aux;
    vals = vs;
    env = ref_of t f.env;
    outer_env = ref_of t f.outer_env;
    ret_def = f.ret_def;
    ret_path = f.ret_path;
    ret_env = ref_of t f.ret_env;
    obj = o;
    key = f.key;
    idx_val = iv;
    pend = p;
  })

-- Go's st.Kont is innermost last, so the frames are written from the bottom: the reverse of `s.kont`, which
-- has the top first.
unfoldable pub form_of : State → List ℕ → Option StateForm
unfolding table_of cell_of signal_of frame_of ref_of
form_of s t = do
  table ← table_of s.heap t
  v ← cell_of s.heap t s.val
  sig ← signal_of s.heap t s.sig
  fs ← all_of (frame_of s.heap t) (reverse s.kont)
  some (record {
    table = table;
    def_hash = s.def_hash;
    path = s.path;
    mode = s.mode;
    park_kind = s.park_kind;
    tier = s.tier;
    fuel_steps = s.fuel_steps;
    fuel_alloc = s.fuel_alloc;
    val = v;
    sig = sig;
    env = ref_of t s.env;
    kont = fs;
  })

-- `func Encode`
unfoldable pub encode : State → Option Bytes
unfolding intern_state form_of write_state
encode s = do t ← intern_state s; f ← form_of s t; some (write_state f)

-- `func EncodeValue`
unfoldable pub encode_value : Heap → Value → Option Bytes
unfolding visit_all visit target table_of cell_of write_value
encode_value h v = do
  t ← visit (length h) h [] (target h v)
  table ← table_of h t
  c ← cell_of h t v
  some (write_value table c)
