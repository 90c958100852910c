-- ===== src/Cfr/Encode.antt =====
-- The writers of internal/cfr/codec.go above the primitives: values, objects, frames and the state, from
-- the form of the state. math/big's Bytes is written out.
use regel.Base.{
  ℕ, zero, suc, ◌/◌, ◌%◌, Bool, true, false, Option, none, some, List, [], ◌∷◌, ◌++◌, length, ◌==◌,
  if◌then◌else◌, Str, map,
}
use regel.Base.Int.{magnitude, is_neg}
use regel.Cfr.Wire.{Bytes, write_uvarint, write_svarint, write_bytes, write_path, write_f64}
use regel.Cfr.Form.{
  Cell, Shell, env_shell, array_shell, record_shell, SignalForm, FrameForm, StateForm,
}
use regel.Cfr.Kinds.{mode_code, sig_kind_code, park_kind_code, tier_code, frame_kind_code}

module _ {A : Type 0} (w : A → Bytes) where
  abbrev pub write_all : List A → Bytes
  write_all [] = []
  write_all (x ∷ xs) = w x ++ write_all xs

  -- A count, and that many items.
  unfoldable pub write_list : List A → Bytes
  write_list xs = write_uvarint (length xs) ++ write_all xs

-- `z.Bytes()`: the magnitude, the highest byte first; a number has fewer digits than its value.
unfoldable pub big_digits : ℕ → ℕ → Bytes → Bytes
big_digits zero n acc = acc
big_digits (suc fuel) n acc =
    let more = big_digits fuel (n / 256) (n % 256 ∷ acc) in if n == 0 then acc else more

unfoldable pub big_bytes : ℕ → Bytes
unfolding big_digits
big_bytes n = big_digits n n []

abbrev pub flag : Bool → ℕ
flag true = 1
flag false = 0

-- `func (e *encoder) value`, the tag first.
unfoldable pub write_cell : Cell → Bytes
unfolding write_f64 write_bytes big_bytes write_path write_uvarint
write_cell Cell.undefined = 0 ∷ []
write_cell Cell.null = 1 ∷ []
write_cell (Cell.bool n) = 2 ∷ (if n == 0 then 0 else 1) ∷ []
write_cell (Cell.f64 w) = 3 ∷ write_f64 w
write_cell (Cell.bigint z) = 4 ∷ flag (is_neg z) ∷ write_bytes (big_bytes (magnitude z))
write_cell (Cell.str s) = 5 ∷ write_bytes s
write_cell (Cell.array r) = 6 ∷ write_uvarint r
write_cell (Cell.rec r) = 7 ∷ write_uvarint r
write_cell (Cell.closure d p r) = 8 ∷ (write_bytes d ++ (write_path p ++ write_uvarint r))
write_cell (Cell.cap_token s) = 9 ∷ write_bytes s
write_cell (Cell.opaque c d) = 10 ∷ (write_bytes c ++ write_bytes d)

-- objEnv, objArray and objRecord
abbrev pub shell_tag : Shell → ℕ
shell_tag (env_shell p cs) = 1
shell_tag (array_shell cs) = 2
shell_tag (record_shell es) = 3

unfoldable pub write_entry : Str × Cell → Bytes
unfolding write_bytes write_cell
write_entry (k, c) = write_bytes k ++ write_cell c

unfoldable pub write_shell : Shell → Bytes
unfolding write_uvarint write_cell write_entry write_list
write_shell (env_shell p cs) = write_uvarint p ++ write_list write_cell cs
write_shell (array_shell cs) = write_list write_cell cs
write_shell (record_shell es) = write_list write_entry es

abbrev pub write_tag : ℕ → Bytes
write_tag t = t ∷ []

-- `func (e *encoder) emitHeap`: the count, the tags, the bodies.
unfoldable pub write_table : List Shell → Bytes
unfolding write_shell write_list
write_table t = write_list write_tag (map shell_tag t) ++ write_all write_shell t

unfoldable pub write_signal : SignalForm → Bytes
unfolding sig_kind_code write_cell
write_signal s = sig_kind_code s.kind ∷ write_cell s.val

unfoldable pub write_pend : Option SignalForm → Bytes
unfolding write_signal
write_pend none = 0 ∷ []
write_pend (some s) = 1 ∷ write_signal s

abbrev pub in_turn : List Bytes → Bytes
in_turn [] = []
in_turn (p ∷ ps) = p ++ in_turn ps

-- `func (e *encoder) frame`
unfoldable pub write_frame : FrameForm → Bytes
unfolding frame_kind_code write_path write_svarint write_list write_cell write_uvarint write_bytes
    write_pend
write_frame f = in_turn (
    (frame_kind_code f.kind ∷ [])
    ∷ write_path f.path
    ∷ write_svarint f.idx
    ∷ write_svarint f.aux
    ∷ write_list write_cell f.vals
    ∷ write_uvarint f.env
    ∷ write_uvarint f.outer_env
    ∷ write_bytes f.ret_def
    ∷ write_path f.ret_path
    ∷ write_uvarint f.ret_env
    ∷ write_cell f.obj
    ∷ write_bytes f.key
    ∷ write_cell f.idx_val
    ∷ write_pend f.pend
    ∷ [])

-- The second pass of `func Encode`, the version first.
unfoldable pub write_state : StateForm → Bytes
unfolding write_table write_bytes write_path mode_code park_kind_code tier_code write_svarint
    write_cell write_signal write_uvarint write_frame write_list
write_state s = in_turn (
    (1 ∷ [])
    ∷ write_table s.table
    ∷ write_bytes s.def_hash
    ∷ write_path s.path
    ∷ (mode_code s.mode ∷ [])
    ∷ (park_kind_code s.park_kind ∷ [])
    ∷ (tier_code s.tier ∷ [])
    ∷ write_svarint s.fuel_steps
    ∷ write_svarint s.fuel_alloc
    ∷ write_cell s.val
    ∷ write_signal s.sig
    ∷ write_uvarint s.env
    ∷ write_list write_frame s.kont
    ∷ [])

-- `func EncodeValue`: the version, the table, the value.
unfoldable pub write_value : List Shell → Cell → Bytes
unfolding write_table write_cell
write_value t c = in_turn ((1 ∷ []) ∷ write_table t ∷ write_cell c ∷ [])
