-- ===== src/Cfr/Load.antt =====
-- internal/cfr/decode.go: the memory that `func Decode` builds. The object i of the table is at address i;
-- each closure and each opaque object that is read is new. Frames come back without their nodes.
pub mod Cells
pub mod Shells
pub mod States
use mathlib.Core.List.{reverse}
use regel.Base.{
  ℕ, zero, suc, ◌+◌, ◌-◌, Option, none, some, List, [], ◌∷◌, ◌++◌, length, set, Str, map, ◌>>=◌,
}
use regel.Cek.Value.{
  Value, Object, env_obj, array_obj, record_obj, closure_obj, opaque_obj, Heap, alloc, RecordObj,
  empty_record, insert_key,
}
use regel.Cek.Machine.{Signal, Frame, State, absent_node}
use regel.Cfr.Wire.{Bytes}
use regel.Cfr.Form.{
  Cell, Shell, env_shell, array_shell, record_shell, SignalForm, FrameForm, StateForm,
}
use regel.Cfr.Decode.{decode}
use regel.Cfr.Codec.Fits.{key_of}

-- `d.shells[ref-1]`
abbrev pub pointer : ℕ → Option ℕ
pointer zero = none
pointer (suc i) = some i

unfoldable pub load_cell : Heap → Cell → Heap × Value
load_cell h Cell.undefined = (h, Value.undefined)
load_cell h Cell.null = (h, Value.null)
load_cell h (Cell.bool n) = (h, Value.bool n)
load_cell h (Cell.f64 w) = (h, Value.f64 w)
load_cell h (Cell.bigint z) = (h, Value.bigint z)
load_cell h (Cell.str s) = (h, Value.str s)
load_cell h (Cell.array r) = (h, Value.array (r - 1))
load_cell h (Cell.rec r) = (h, Value.rec (r - 1))
load_cell h (Cell.closure d p r) = (alloc h (closure_obj d p (pointer r)), Value.closure (length h))
load_cell h (Cell.cap_token s) = (h, Value.cap_token s)
load_cell h (Cell.opaque c d) = (alloc h (opaque_obj c d), Value.opaque (length h))

unfoldable pub load_cells : Heap → List Cell → Heap × List Value
unfolding load_cell
load_cells h [] = (h, [])
load_cells h (c ∷ cs) = let v = load_cell h c in let vs = load_cells v.0 cs in (vs.0, v.1 ∷ vs.1)

-- The loop that fills a record: `r.M[k] = v`.
unfoldable pub load_fields :
    Heap → List (Str × Value) → List (Str × Cell) → Heap × List (Str × Value)
unfolding load_cell insert_key
load_fields h m [] = (h, m)
load_fields h m ((k, c) ∷ es) = let v = load_cell h c in load_fields v.0 (insert_key k v.1 m) es

-- `fillObject`
unfoldable pub load_shell : Heap → Shell → Heap × Object
unfolding load_cells load_fields
load_shell h (env_shell p cs) = let vs = load_cells h cs in (vs.0, env_obj (pointer p) vs.1)
load_shell h (array_shell cs) = let vs = load_cells h cs in (vs.0, array_obj vs.1)
load_shell h (record_shell es) =
    let m = load_fields h [] es in
    (m.0, record_obj (record { keys = map key_of es; entries = m.1 }))

-- The empty objects that `loadHeap` makes first.
abbrev pub blank : Shell → Object
blank (env_shell p cs) = env_obj none []
blank (array_shell cs) = array_obj []
blank (record_shell es) = record_obj empty_record

-- The second loop of `loadHeap`.
unfoldable pub fill : ℕ → Heap → List Shell → Heap
unfolding load_shell
fill i h [] = h
fill i h (s ∷ ss) = let o = load_shell h s in fill (suc i) (set o.0 i o.1) ss

unfoldable pub load_table : List Shell → Heap
unfolding fill
load_table ss = fill 0 (map blank ss) ss

unfoldable pub load_signal : Heap → SignalForm → Heap × Signal
unfolding load_cell
load_signal h s = let v = load_cell h s.val in (v.0, record { kind = s.kind; val = v.1 })

unfoldable pub load_pend : Heap → Option SignalForm → Heap × Option Signal
unfolding load_signal
load_pend h none = (h, none)
load_pend h (some s) = let x = load_signal h s in (x.0, some x.1)

-- What `frameE` makes.
unfoldable pub load_frame : Heap → FrameForm → Heap × Frame
unfolding load_cell load_cells load_pend
load_frame h f =
    let vs = load_cells h f.vals in
    let o = load_cell vs.0 f.obj in
    let iv = load_cell o.0 f.idx_val in
    let p = load_pend iv.0 f.pend in
    (
      p.0,
      record {
        kind = f.kind;
        node = absent_node;
        path = f.path;
        idx = f.idx;
        vals = vs.1;
        env = pointer f.env;
        outer_env = pointer f.outer_env;
        ret_def = f.ret_def;
        ret_path = f.ret_path;
        ret_env = pointer f.ret_env;
        aux = f.aux;
        obj = o.1;
        key = f.key;
        idx_val = iv.1;
        pend = p.1;
      },
    )

unfoldable pub load_frames : Heap → List FrameForm → Heap × List Frame
unfolding load_frame
load_frames h [] = (h, [])
load_frames h (f ∷ fs) = let x = load_frame h f in let xs = load_frames x.0 fs in (xs.0, x.1 ∷ xs.1)

-- The frames of a blob are in Go's order, the bottom first; `kont` has the top first.
unfoldable pub load_state : StateForm → State
unfolding load_table load_cell load_signal load_frames
load_state s =
    let v = load_cell (load_table s.table) s.val in
    let sig = load_signal v.0 s.sig in
    let fs = load_frames sig.0 s.kont in
    record {
      def_hash = s.def_hash;
      path = s.path;
      mode = s.mode;
      val = v.1;
      sig = sig.1;
      env = pointer s.env;
      kont = reverse fs.1;
      heap = fs.0;
      tier = s.tier;
      fuel_steps = s.fuel_steps;
      fuel_alloc = s.fuel_alloc;
      park_kind = s.park_kind;
    }

-- `func Decode`, the state that it gives.
unfoldable pub decode_state : Bytes → Option State
unfolding load_state decode
decode_state bs = do s ← decode bs; some (load_state s)
