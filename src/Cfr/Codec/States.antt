-- ===== src/Cfr/Codec/States.antt =====
-- The frames and the state of internal/cfr are read back.
use mathlib.Core.List.{append-nil}
use regel.Base.{
  ℕ, zero, suc, ◌≤◌, ◌≡◌, refl, ap, ◌∙◌, sym, Option, none, some, List, [], ◌∷◌, ◌++◌, length, drop,
  arith,
}
use regel.Cfr.Wire.{Bytes, write_uvarint, write_svarint, write_bytes, write_path}
use regel.Cfr.Wire.Roundtrip.{
  read_svarint-write_svarint, read_bytes-write_bytes, read_path-write_path,
}
use regel.Cfr.Form.{SignalForm, FrameForm, StateForm}
use regel.Cfr.Kinds.{
  mode_code, mode_of, mode_of-mode_code, sig_kind_code, sig_kind_of, sig_kind_of-sig_kind_code,
  park_kind_code, park_reason_of, park_reason_of-park_kind_code, tier_code, tier_of,
  tier_of-tier_code, frame_kind_code, frame_kind_of, frame_kind_of-frame_kind_code,
}
use regel.Cfr.Encode.{
  write_list, write_cell, write_signal, write_pend, write_frame, write_table, write_state,
}
use regel.Cfr.Decode.{
  read_byte, read_kind, read_signal, read_pend, read_frame, read_version, read_state, all_read,
  decode,
}
use regel.Cfr.Codec.Fits.{CellFits, PendFits, FrameFits, StateFits, types_of}
use regel.Cfr.Codec.Lists.{onto, in_turn-append, tail_size, read_list-write_list}
use regel.Cfr.Codec.Cells.{read_cell-write_cell, read_env-write_uvarint}
use regel.Cfr.Codec.Tables.{cells_back, read_table-write_table}

-- What is left after some parts.
drop_size :
    (size n : ℕ) (ps : List Bytes) (rest : Bytes)
    → length (onto ps rest) ≤ size
    → length (onto (drop n ps) rest) ≤ size
drop_size size zero ps rest h = h
drop_size size (suc n) [] rest h = h
drop_size size (suc n) (p ∷ ps) rest h =
    drop_size size n ps rest (tail_size size p (onto ps rest) h)

kind_back :
    {A : Type 0} (code : A → ℕ) (of : ℕ → Option A) (k : A) (rest : Bytes)
    → of (code k) ≡ some k
    → read_kind of (code k ∷ rest) ≡ some (k, rest)
unfolding read_kind read_byte
kind_back code of k rest h = rw h refl

signal_back :
    (types : List ℕ) (s : SignalForm) (rest : Bytes)
    → CellFits types s.val
    → read_signal types (write_signal s ++ rest) ≡ some (s, rest)
unfolding read_signal write_signal
signal_back types s rest h =
    rw
      (
        kind_back sig_kind_code sig_kind_of s.kind (write_cell s.val ++ rest)
            (sig_kind_of-sig_kind_code s.kind),
        read_cell-write_cell types s.val rest h,
      )
      refl

pend_back :
    (types : List ℕ) (p : Option SignalForm) (rest : Bytes)
    → PendFits types p
    → read_pend types (write_pend p ++ rest) ≡ some (p, rest)
unfolding read_pend write_pend read_byte
pend_back types none rest h = refl
pend_back types (some s) rest h = rw (signal_back types s rest h) refl

frame_parts : FrameForm → List Bytes
frame_parts f =
    (frame_kind_code f.kind ∷ [])
    ∷ write_path f.path
    ∷ write_svarint f.idx
    ∷ write_svarint f.aux
    ∷ write_list write_cell f.vals
    ∷ write_uvarint f.env
    ∷ write_uvarint f.outer_env
    ∷ write_bytes f.ret_def
    ∷ write_path f.ret_path
    ∷ write_uvarint f.ret_env
    ∷ write_cell f.obj
    ∷ write_bytes f.key
    ∷ write_cell f.idx_val
    ∷ write_pend f.pend
    ∷ []

frame_back :
    (size : ℕ) (types : List ℕ) (f : FrameForm) (rest : Bytes)
    → FrameFits types f
    → length (onto (frame_parts f) rest) ≤ size
    → read_frame size types (onto (frame_parts f) rest) ≡ some (f, rest)
unfolding read_frame frame_parts
frame_back size types f rest h k =
    rw
      (
        kind_back frame_kind_code frame_kind_of f.kind (after 1)
            (frame_kind_of-frame_kind_code f.kind),
        read_path-write_path f.path (after 2) h.path.0 h.path.1,
        read_svarint-write_svarint f.idx (after 3) h.idx,
        read_svarint-write_svarint f.aux (after 4) h.aux,
        cells_back size types f.vals (after 5) h.few_vals h.vals
            (drop_size size 4 (frame_parts f) rest k),
        read_env-write_uvarint types f.env (after 6) h.env,
        read_env-write_uvarint types f.outer_env (after 7) h.outer_env,
        read_bytes-write_bytes f.ret_def (after 8) h.ret_def,
        read_path-write_path f.ret_path (after 9) h.ret_path.0 h.ret_path.1,
        read_env-write_uvarint types f.ret_env (after 10) h.ret_env,
        read_cell-write_cell types f.obj (after 11) h.obj,
        read_bytes-write_bytes f.key (after 12) h.key,
        read_cell-write_cell types f.idx_val (after 13) h.idx_val,
        pend_back types f.pend rest h.pend,
      )
      refl
  where
    after : ℕ → Bytes
    after n = onto (drop n (frame_parts f)) rest

read_frame-write_frame :
    (size : ℕ) (types : List ℕ) (f : FrameForm) (rest : Bytes)
    → FrameFits types f
    → length (write_frame f ++ rest) ≤ size
    → read_frame size types (write_frame f ++ rest) ≡ some (f, rest)
unfolding write_frame frame_parts
read_frame-write_frame size types f rest h k = rw (in_turn-append (frame_parts f) rest) (
    frame_back size types f rest h
      (omega (arith, k, ap length (in_turn-append (frame_parts f) rest))))

frame_byte : (f : FrameForm) → 1 ≤ length (write_frame f)
unfolding write_frame
frame_byte f = omega arith

state_parts : StateForm → List Bytes
state_parts s =
    (1 ∷ [])
    ∷ write_table s.table
    ∷ write_bytes s.def_hash
    ∷ write_path s.path
    ∷ (mode_code s.mode ∷ [])
    ∷ (park_kind_code s.park_kind ∷ [])
    ∷ (tier_code s.tier ∷ [])
    ∷ write_svarint s.fuel_steps
    ∷ write_svarint s.fuel_alloc
    ∷ write_cell s.val
    ∷ write_signal s.sig
    ∷ write_uvarint s.env
    ∷ write_list write_frame s.kont
    ∷ []

state_back :
    (size : ℕ) (s : StateForm) (rest : Bytes)
    → StateFits s
    → length (onto (state_parts s) rest) ≤ size
    → read_state size (onto (state_parts s) rest) ≡ some (s, rest)
unfolding read_state state_parts read_version read_byte
state_back size s rest h k =
    rw
      (
        read_table-write_table size s.table (after 2) h.few_objects h.table
            (drop_size size 1 (state_parts s) rest k),
        read_bytes-write_bytes s.def_hash (after 3) h.def_hash,
        read_path-write_path s.path (after 4) h.path.0 h.path.1,
        kind_back mode_code mode_of s.mode (after 5) (mode_of-mode_code s.mode),
        kind_back park_kind_code park_reason_of s.park_kind (after 6)
            (park_reason_of-park_kind_code s.park_kind),
        kind_back tier_code tier_of s.tier (after 7) (tier_of-tier_code s.tier),
        read_svarint-write_svarint s.fuel_steps (after 8) h.fuel_steps,
        read_svarint-write_svarint s.fuel_alloc (after 9) h.fuel_alloc,
        read_cell-write_cell (types_of s) s.val (after 10) h.val,
        signal_back (types_of s) s.sig (after 11) h.sig,
        read_env-write_uvarint (types_of s) s.env (after 12) h.env,
        read_list-write_list size (FrameFits (types_of s)) write_frame
            (read_frame size (types_of s)) frame_byte (read_frame-write_frame size (types_of s))
            s.kont rest h.few_frames h.kont (drop_size size 12 (state_parts s) rest k),
      )
      refl
  where
    after : ℕ → Bytes
    after n = onto (drop n (state_parts s)) rest

pub read_state-write_state :
    (size : ℕ) (s : StateForm) (rest : Bytes)
    → StateFits s
    → length (write_state s ++ rest) ≤ size
    → read_state size (write_state s ++ rest) ≡ some (s, rest)
unfolding write_state state_parts
read_state-write_state size s rest h k =
    rw (in_turn-append (state_parts s) rest)
      (state_back size s rest h (omega (arith, k, ap length (in_turn-append (state_parts s) rest))))

-- A state whose parts the format can hold decodes to itself when it stands alone, and is refused when
-- any byte follows it.
pub decode-write_state :
    (s : StateForm) (extra : Bytes)
    → StateFits s
    → decode (write_state s ++ extra) ≡ all_read (some (s, extra))
unfolding decode
decode-write_state s extra h =
    ap all_read (read_state-write_state (length (write_state s ++ extra)) s extra h (omega arith))

-- The same for a state that stands alone.
pub decode_alone : (s : StateForm) → StateFits s → decode (write_state s) ≡ some s
decode_alone s h = ap decode (sym (append-nil (write_state s))) ∙ decode-write_state s [] h
