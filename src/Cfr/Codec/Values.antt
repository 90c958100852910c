-- ===== src/Cfr/Codec/Values.antt =====
-- `EncodeValue` and `DecodeValue` of internal/cfr: the bytes of a single value, with the objects that it
-- reaches.
use mathlib.Core.List.{append-nil}
use regel.Base.{ℕ, ◌≤◌, ◌≡◌, refl, sym, ap, ◌∙◌, some, List, [], ◌∷◌, ◌++◌, length, map, arith}
use regel.Cfr.Wire.{Bytes}
use regel.Cfr.Form.{Cell, Shell}
use regel.Cfr.Encode.{write_value, write_table, write_cell, shell_tag}
use regel.Cfr.Decode.{read_value, read_version, read_byte, decode_value, all_read}
use regel.Cfr.Codec.Fits.{All, Short, ShellFits, CellFits}
use regel.Cfr.Codec.Lists.{onto, in_turn-append, tail_size}
use regel.Cfr.Codec.Tables.{read_table-write_table}
use regel.Cfr.Codec.Cells.{read_cell-write_cell}

unfoldable value_parts : List Shell → Cell → List Bytes
unfolding write_table write_cell
value_parts t c = (1 ∷ []) ∷ write_table t ∷ write_cell c ∷ []

value_back :
    (size : ℕ) (t : List Shell) (c : Cell) (rest : Bytes)
    → Short t
    → All (ShellFits (map shell_tag t)) t
    → CellFits (map shell_tag t) c
    → length (onto (value_parts t c) rest) ≤ size
    → read_value size (onto (value_parts t c) rest) ≡ some ((t, c), rest)
unfolding read_value value_parts read_version read_byte
value_back size t c rest few h k l =
    rw
      (
        read_table-write_table size t (write_cell c ++ rest) few h
            (tail_size size (1 ∷ []) (write_table t ++ (write_cell c ++ rest)) l),
        read_cell-write_cell (map shell_tag t) c rest k,
      )
      refl

read_value-write_value :
    (size : ℕ) (t : List Shell) (c : Cell) (rest : Bytes)
    → Short t
    → All (ShellFits (map shell_tag t)) t
    → CellFits (map shell_tag t) c
    → length (write_value t c ++ rest) ≤ size
    → read_value size (write_value t c ++ rest) ≡ some ((t, c), rest)
unfolding write_value value_parts
read_value-write_value size t c rest few h k l = rw (in_turn-append (value_parts t c) rest) (
    value_back size t c rest few h k
      (omega (arith, l, ap length (in_turn-append (value_parts t c) rest))))

-- A value that fits the format decodes to itself when it stands alone, and is refused when any byte
-- follows it.
pub decode_value-write_value :
    (t : List Shell) (c : Cell) (extra : Bytes)
    → Short t
    → All (ShellFits (map shell_tag t)) t
    → CellFits (map shell_tag t) c
    → decode_value (write_value t c ++ extra) ≡ all_read (some ((t, c), extra))
unfolding decode_value
decode_value-write_value t c extra few h k =
    ap all_read
      (read_value-write_value (length (write_value t c ++ extra)) t c extra few h k (omega arith))

-- The same for a value that stands alone.
pub decode_value_alone :
    (t : List Shell) (c : Cell)
    → Short t
    → All (ShellFits (map shell_tag t)) t
    → CellFits (map shell_tag t) c
    → decode_value (write_value t c) ≡ some (t, c)
decode_value_alone t c few h k =
    ap decode_value (sym (append-nil (write_value t c))) ∙ decode_value-write_value t c [] few h k
