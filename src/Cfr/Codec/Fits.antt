-- ===== src/Cfr/Codec/Fits.antt =====
-- What the wire format of internal/cfr can hold: lengths and references are uint64, path indices uint16,
-- numbers int64, and each reference is nil or leads to an object of the kind that its place wants.
use regel.Base.{ℕ, ◌<◌, ◌^◌, ◌≡◌, true, Option, none, some, List, [], ◌∷◌, length, Str, map}
use regel.Base.Int.{magnitude}
use regel.Cek.Value.{Path16}
use regel.Cek.Records.{distinct}
use regel.Cfr.Wire.Roundtrip.{FitsInt64, indices_fit}
use regel.Cfr.Form.{
  Cell, Shell, env_shell, array_shell, record_shell, SignalForm, FrameForm, StateForm,
}
use regel.Cfr.Encode.{big_bytes, shell_tag}
use regel.Cfr.Decode.{ref_is, env_ref_ok}

abbrev pub All : {A : Type 0} → (A → Type 0) → List A → Type 0
All P [] = Unit
All P (x ∷ xs) = P x × All P xs

abbrev pub Short : {A : Type 0} → List A → Type 0
Short s = length s < 2 ^ 64

abbrev pub PathFits : Path16 → Type 0
PathFits p = (indices_fit p ≡ true) × Short p

abbrev pub RefFits : List ℕ → ℕ → ℕ → Type 0
RefFits types tag r = (r < 2 ^ 64) × (ref_is tag types r ≡ true)

abbrev pub EnvFits : List ℕ → ℕ → Type 0
EnvFits types r = (r < 2 ^ 64) × (env_ref_ok types r ≡ true)

abbrev pub CellFits : List ℕ → Cell → Type 0
CellFits types Cell.undefined = Unit
CellFits types Cell.null = Unit
CellFits types (Cell.bool n) = n < 2
CellFits types (Cell.f64 w) = w < 2 ^ 64
CellFits types (Cell.bigint z) = Short (big_bytes (magnitude z))
CellFits types (Cell.str s) = Short s
CellFits types (Cell.array r) = RefFits types 2 r
CellFits types (Cell.rec r) = RefFits types 3 r
CellFits types (Cell.closure d p r) = Short d × PathFits p × EnvFits types r
CellFits types (Cell.cap_token s) = Short s
CellFits types (Cell.opaque c d) = Short c × Short d

abbrev pub EntryFits : List ℕ → Str × Cell → Type 0
EntryFits types (k, c) = Short k × CellFits types c

abbrev pub key_of : Str × Cell → Str
key_of (k, c) = k

abbrev pub ShellFits : List ℕ → Shell → Type 0
ShellFits types (env_shell p cs) = EnvFits types p × Short cs × All (CellFits types) cs
ShellFits types (array_shell cs) = Short cs × All (CellFits types) cs
ShellFits types (record_shell es) =
    Short es × All (EntryFits types) es × (distinct (map key_of es) ≡ true)

abbrev pub PendFits : List ℕ → Option SignalForm → Type 0
PendFits types none = Unit
PendFits types (some s) = CellFits types s.val

pub record FrameFits (types : List ℕ) (f : FrameForm) : Type 0 where
  pub path : PathFits f.path
  pub idx : FitsInt64 f.idx
  pub aux : FitsInt64 f.aux
  pub few_vals : Short f.vals
  pub vals : All (CellFits types) f.vals
  pub env : EnvFits types f.env
  pub outer_env : EnvFits types f.outer_env
  pub ret_def : Short f.ret_def
  pub ret_path : PathFits f.ret_path
  pub ret_env : EnvFits types f.ret_env
  pub obj : CellFits types f.obj
  pub key : Short f.key
  pub idx_val : CellFits types f.idx_val
  pub pend : PendFits types f.pend

abbrev pub types_of : StateForm → List ℕ
types_of s = map shell_tag s.table

pub record StateFits (s : StateForm) : Type 0 where
  pub few_objects : Short s.table
  pub table : All (ShellFits (types_of s)) s.table
  pub def_hash : Short s.def_hash
  pub path : PathFits s.path
  pub fuel_steps : FitsInt64 s.fuel_steps
  pub fuel_alloc : FitsInt64 s.fuel_alloc
  pub val : CellFits (types_of s) s.val
  pub sig : CellFits (types_of s) s.sig.val
  pub env : EnvFits (types_of s) s.env
  pub few_frames : Short s.kont
  pub kont : All (FrameFits (types_of s)) s.kont
