-- ===== src/Cfr/Codec/Sound.antt =====
-- internal/cfr/decode.go fails closed: in what it gives, each reference leads to an object of the table
-- that has the kind which the place of the reference wants.
pub mod Cells
pub mod Tables
pub mod States
use regel.Base.{
  ℕ, zero, suc, ◌≡◌, refl, ap, ap₂, ◌∙◌, Bool, true, false, Option, none, some, List, [], ◌∷◌, ltb,
  leb, ◌&&◌, ◌==◌, if◌then◌else◌, ◌>>=◌, Bool-cases, inl, inr, Str, map, get_elem?, arith, length,
}
use regel.Cfr.Wire.{Bytes, read_uvarint, read_svarint, read_bytes, read_path, read_f64}
use regel.Cfr.Form.{
  Cell, Shell, env_shell, array_shell, record_shell, SignalForm, FrameForm, StateForm,
}
use regel.Cfr.Kinds.{mode_of, sig_kind_of, park_reason_of, tier_of, frame_kind_of}
use regel.Cfr.Encode.{shell_tag}
use regel.Cfr.Decode.{
  read_byte, read_n, read_list, read_kind, ref_is, env_ref_ok, read_ref, read_env, read_bool,
  read_number, read_bigint, read_text, read_pointer, read_closure, read_opaque, payload_readers,
  read_cell, read_entry, read_env_shell, read_array_shell, read_record_shell, read_shell, read_tag,
  read_shells, read_table, read_signal, read_pend, read_frame, read_version, read_state, all_read,
  decode,
}
use regel.Cfr.Codec.Fits.{All, types_of}

abbrev pub CellOk : List ℕ → Cell → Type 0
CellOk types (Cell.array r) = ref_is 2 types r ≡ true
CellOk types (Cell.rec r) = ref_is 3 types r ≡ true
CellOk types (Cell.closure d p r) = env_ref_ok types r ≡ true
CellOk types _ = Unit

abbrev pub EntryOk : List ℕ → Str × Cell → Type 0
EntryOk types (k, c) = CellOk types c

abbrev pub ShellOk : List ℕ → Shell → Type 0
ShellOk types (env_shell p cs) = (env_ref_ok types p ≡ true) × All (CellOk types) cs
ShellOk types (array_shell cs) = All (CellOk types) cs
ShellOk types (record_shell es) = All (EntryOk types) es

abbrev pub SignalOk : List ℕ → SignalForm → Type 0
SignalOk types s = CellOk types s.val

abbrev pub PendOk : List ℕ → Option SignalForm → Type 0
PendOk types none = Unit
PendOk types (some s) = SignalOk types s

pub record FrameOk (types : List ℕ) (f : FrameForm) : Type 0 where
  pub vals : All (CellOk types) f.vals
  pub env : env_ref_ok types f.env ≡ true
  pub outer_env : env_ref_ok types f.outer_env ≡ true
  pub ret_env : env_ref_ok types f.ret_env ≡ true
  pub obj : CellOk types f.obj
  pub idx_val : CellOk types f.idx_val
  pub pend : PendOk types f.pend

pub record StateOk (types : List ℕ) (s : StateForm) : Type 0 where
  pub table : All (ShellOk types) s.table
  pub val : CellOk types s.val
  pub sig : SignalOk types s.sig
  pub env : env_ref_ok types s.env ≡ true
  pub kont : All (FrameOk types) s.kont

-- What a reader gives, if it gives anything.
abbrev pub Gives : {A : Type 0} → (A → Type 0) → Option (A × Bytes) → Type 0
Gives P none = Unit
Gives P (some (a, r)) = P a

pub and_then :
    {A B : Type 0} (P : A → Type 0) (Q : B → Type 0) (m : Option (A × Bytes))
    (f : A × Bytes → Option (B × Bytes))
    → Gives P m
    → ((a : A) (r : Bytes) → P a → Gives Q (f (a, r)))
    → Gives Q (m >>= f)
and_then P Q none f h k = tt
and_then P Q (some (a, r)) f h k = k a r h

-- A part on which nothing depends.
pub skip :
    {A B : Type 0} (Q : B → Type 0) (m : Option (A × Bytes)) (f : A × Bytes → Option (B × Bytes))
    → ((a : A) (r : Bytes) → Gives Q (f (a, r)))
    → Gives Q (m >>= f)
skip Q none f k = tt
skip Q (some (a, r)) f k = k a r

pub guarded :
    {A : Type 0} (Q : A → Type 0) (b : Bool) (m : Option (A × Bytes))
    → (b ≡ true → Gives Q m)
    → Gives Q (if b then m else none)
guarded Q true m h = h refl
guarded Q false m h = tt

pub refused :
    {A : Type 0} (Q : A → Type 0) (b : Bool) (m : Option (A × Bytes))
    → Gives Q m
    → Gives Q (if b then none else m)
refused Q true m h = tt
refused Q false m h = h

module _ {A : Type 0} (P : A → Type 0) (r : Bytes → Option (A × Bytes))
    (each : (bs : Bytes) → Gives P (r bs)) where
  pub read_n-All : (n : ℕ) (bs : Bytes) → Gives (All P) (read_n r n bs)
  read_n-All zero bs = tt
  read_n-All (suc n) bs = and_then P (All P) (r bs) _ (each bs) (λ a rest h.
      and_then (All P) (All P) (read_n r n rest) _ (read_n-All n rest) (λ xs rest' k. (h, k)))

  pub read_list-All : (size : ℕ) (bs : Bytes) → Gives (All P) (read_list r size bs)
  unfolding read_list
  read_list-All size bs =
      skip (All P) (read_uvarint bs) _
        (λ n rest. refused (All P) (ltb size n) _ (read_n-All n rest))
