-- ===== src/Cfr/Form.antt =====
-- The content of a CFR blob of internal/cfr/codec.go: a machine state whose pointers are numbers, 0 for
-- nil and i + 1 for the object i of the table. Closures, opaque objects and bigints stand inline.
use regel.Base.{ℕ, Option, List, Str}
use regel.Base.Int.{ℤ}
use regel.Cek.Value.{Path16}
use regel.Cek.Machine.{Mode, SigKind, ParkKind, FrameKind, Tier}

pub data Cell : Type 0 where
  undefined null : Cell
  bool f64 : ℕ → Cell
  bigint : ℤ → Cell
  str : Str → Cell
  array rec : ℕ → Cell
  closure : Str → Path16 → ℕ → Cell
  cap_token : Str → Cell
  opaque : Str → List ℕ → Cell

-- An object of the table.
pub data Shell : Type 0 where
  env_shell : ℕ → List Cell → Shell
  array_shell : List Cell → Shell
  record_shell : List (Str × Cell) → Shell

pub record SignalForm : Type 0 where
  pub kind : SigKind
  pub val : Cell

pub record FrameForm : Type 0 where
  pub kind : FrameKind
  pub path : Path16
  pub idx : ℤ
  pub aux : ℤ
  pub vals : List Cell
  pub env : ℕ
  pub outer_env : ℕ
  pub ret_def : Str
  pub ret_path : Path16
  pub ret_env : ℕ
  pub obj : Cell
  pub key : Str
  pub idx_val : Cell
  pub pend : Option SignalForm

pub record StateForm : Type 0 where
  pub table : List Shell
  pub def_hash : Str
  pub path : Path16
  pub mode : Mode
  pub park_kind : ParkKind
  pub tier : Tier
  pub fuel_steps : ℤ
  pub fuel_alloc : ℤ
  pub val : Cell
  pub sig : SignalForm
  pub env : ℕ
  pub kont : List FrameForm
