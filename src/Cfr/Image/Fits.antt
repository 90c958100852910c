-- ===== src/Cfr/Image/Fits.antt =====
-- What internal/cfr writes of a state that the machine can hold fits the wire format, and every pointer
-- gets a place of the right kind.
pub mod Values
pub mod Tables
pub mod States
use regel.Base.{
  ℕ, ◌<◌, ◌^◌, ◌≡◌, true, false, Option, none, some, List, [], ◌∷◌, length, get_elem?, Str,
}
use regel.Base.Int.{magnitude}
use regel.Cek.Value.{
  Value, Object, env_obj, array_obj, record_obj, closure_obj, opaque_obj, Heap, ClosureObj,
  closure_at, RecordObj, record_get,
}
use regel.Cek.Records.{distinct}
use regel.Cek.Machine.{Signal, Frame, State}
use regel.Cfr.Wire.Roundtrip.{FitsInt64}
use regel.Cfr.Encode.{big_bytes}
use regel.Cfr.Intern.{kind_at, field_value}
use regel.Cfr.Image.{opaque_parts}
use regel.Cfr.Codec.Fits.{All, Short, PathFits}

-- A pointer to an environment, or nil.
abbrev pub EnvPointer : Heap → Option ℕ → Type 0
EnvPointer h none = Unit
EnvPointer h (some a) = kind_at h a ≡ 1

abbrev pub ClosureFits : Heap → Option ClosureObj → Type 0
ClosureFits h none = true ≡ false
ClosureFits h (some c) = Short c.def_hash × PathFits c.path × EnvPointer h c.env

abbrev pub OpaqueFits : Option (Str × List ℕ) → Type 0
OpaqueFits none = true ≡ false
OpaqueFits (some (c, d)) = Short c × Short d

-- A value that the machine can hold: a pointer leads to an object of the value's tag, as Go's types say.
abbrev pub ValueFits : Heap → Value → Type 0
ValueFits h Value.undefined = Unit
ValueFits h Value.null = Unit
ValueFits h (Value.bool n) = n < 2
ValueFits h (Value.f64 w) = w < 2 ^ 64
ValueFits h (Value.bigint z) = Short (big_bytes (magnitude z))
ValueFits h (Value.str s) = Short s
ValueFits h (Value.array a) = kind_at h a ≡ 2
ValueFits h (Value.rec a) = kind_at h a ≡ 3
ValueFits h (Value.closure a) = ClosureFits h (closure_at h a)
ValueFits h (Value.cap_token s) = Short s
ValueFits h (Value.opaque a) = OpaqueFits (opaque_parts (get_elem? h a))

abbrev pub FieldFits : Heap → RecordObj → Str → Type 0
FieldFits h r k = Short k × ValueFits h (field_value (record_get r k))

abbrev pub ObjectFits : Heap → Object → Type 0
ObjectFits h (env_obj p vs) = EnvPointer h p × Short vs × All (ValueFits h) vs
ObjectFits h (array_obj vs) = Short vs × All (ValueFits h) vs
ObjectFits h (record_obj r) = Short r.keys × All (FieldFits h r) r.keys × (distinct r.keys ≡ true)
ObjectFits h (closure_obj d p e) = Unit
ObjectFits h (opaque_obj c d) = Unit

abbrev pub PendingFits : Heap → Option Signal → Type 0
PendingFits h none = Unit
PendingFits h (some s) = ValueFits h s.val

pub record HeldFrame (h : Heap) (f : Frame) : Type 0 where
  pub path : PathFits f.path
  pub idx : FitsInt64 f.idx
  pub aux : FitsInt64 f.aux
  pub few_vals : Short f.vals
  pub vals : All (ValueFits h) f.vals
  pub env : EnvPointer h f.env
  pub outer_env : EnvPointer h f.outer_env
  pub ret_def : Short f.ret_def
  pub ret_path : PathFits f.ret_path
  pub ret_env : EnvPointer h f.ret_env
  pub obj : ValueFits h f.obj
  pub key : Short f.key
  pub idx_val : ValueFits h f.idx_val
  pub pend : PendingFits h f.pend

-- A state whose pointers are typed as in Go and whose numbers and lengths are those of a 64-bit machine.
pub record Held (s : State) : Type 0 where
  pub heap : All (ObjectFits s.heap) s.heap
  pub few_objects : Short s.heap
  pub def_hash : Short s.def_hash
  pub path : PathFits s.path
  pub fuel_steps : FitsInt64 s.fuel_steps
  pub fuel_alloc : FitsInt64 s.fuel_alloc
  pub val : ValueFits s.heap s.val
  pub sig : ValueFits s.heap s.sig.val
  pub env : EnvPointer s.heap s.env
  pub few_frames : Short s.kont
  pub kont : All (HeldFrame s.heap) s.kont
