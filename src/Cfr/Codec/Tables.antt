-- ===== src/Cfr/Codec/Tables.antt =====
-- The object table of internal/cfr is read back.
use regel.Base.{
  ℕ, suc, ◌≤◌, ◌≡◌, refl, ap, true, ◌&&◌, some, List, [], ◌∷◌, ◌++◌, length, leb, arith,
  length-append, Str, map,
}
use regel.Cfr.Wire.{Bytes, write_uvarint, write_bytes}
use regel.Cfr.Wire.Roundtrip.{append_assoc, read_bytes-write_bytes, one_byte}
use regel.Cfr.Form.{Cell, Shell, env_shell, array_shell, record_shell}
use regel.Cfr.Encode.{
  write_cell, write_entry, write_shell, write_list, write_all, shell_tag, write_tag, write_table,
}
use regel.Cfr.Decode.{
  read_byte, read_cell, read_entry, read_env_shell, read_array_shell, read_record_shell, read_shell,
  read_tag, read_shells, read_list, read_table,
}
use regel.Cfr.Codec.Fits.{All, Short, CellFits, EntryFits, ShellFits}
use regel.Cfr.Codec.Lists.{tail_size, read_list-write_list}
use regel.Cfr.Codec.Cells.{read_cell-write_cell, read_env-write_uvarint, cell_byte}

pub uvarint_byte : (v : ℕ) → 1 ≤ length (write_uvarint v)
unfolding write_uvarint
uvarint_byte v = one_byte 9 v

pub cells_back :
    (size : ℕ) (types : List ℕ) (cs : List Cell) (rest : Bytes)
    → Short cs
    → All (CellFits types) cs
    → length (write_list write_cell cs ++ rest) ≤ size
    → read_list (read_cell types) size (write_list write_cell cs ++ rest) ≡ some (cs, rest)
cells_back size types =
    read_list-write_list size (CellFits types) write_cell (read_cell types) cell_byte
      (λ c rest h k. read_cell-write_cell types c rest h)

read_entry-write_entry :
    (types : List ℕ) (e : Str × Cell) (rest : Bytes)
    → EntryFits types e
    → read_entry types (write_entry e ++ rest) ≡ some (e, rest)
unfolding read_entry write_entry
read_entry-write_entry types (k, c) rest h =
    rw
      (
        append_assoc (write_bytes k) (write_cell c) rest,
        read_bytes-write_bytes k (write_cell c ++ rest) h.0,
        read_cell-write_cell types c rest h.1,
      )
      refl

entry_byte : (e : Str × Cell) → 1 ≤ length (write_entry e)
unfolding write_entry
entry_byte (k, c) = omega (arith, cell_byte c, length-append (write_bytes k) (write_cell c))

env_shell_back :
    (size : ℕ) (types : List ℕ) (p : ℕ) (cs : List Cell) (rest : Bytes)
    → ShellFits types (env_shell p cs)
    → length (write_shell (env_shell p cs) ++ rest) ≤ size
    → read_env_shell size types (write_shell (env_shell p cs) ++ rest) ≡ some (env_shell p cs, rest)
unfolding read_env_shell write_shell
env_shell_back size types p cs rest h k =
    rw
      (
        append_assoc (write_uvarint p) (write_list write_cell cs) rest,
        read_env-write_uvarint types p (write_list write_cell cs ++ rest) h.0,
        cells_back size types cs rest h.1 h.2 left,
      )
      refl
  where
    left : length (write_list write_cell cs ++ rest) ≤ size
    left = tail_size size (write_uvarint p) (write_list write_cell cs ++ rest) (
        omega
          (arith, k, ap length (append_assoc (write_uvarint p) (write_list write_cell cs) rest)))

array_shell_back :
    (size : ℕ) (types : List ℕ) (cs : List Cell) (rest : Bytes)
    → ShellFits types (array_shell cs)
    → length (write_shell (array_shell cs) ++ rest) ≤ size
    → read_array_shell size types (write_shell (array_shell cs) ++ rest)
      ≡ some (array_shell cs, rest)
unfolding read_array_shell write_shell
array_shell_back size types cs rest h k = rw (cells_back size types cs rest h.0 h.1 k) refl

record_shell_back :
    (size : ℕ) (types : List ℕ) (es : List (Str × Cell)) (rest : Bytes)
    → ShellFits types (record_shell es)
    → length (write_shell (record_shell es) ++ rest) ≤ size
    → read_record_shell size types (write_shell (record_shell es) ++ rest)
      ≡ some (record_shell es, rest)
unfolding read_record_shell write_shell
record_shell_back size types es rest h k =
    rw
      (read_list-write_list size (EntryFits types) write_entry (read_entry types) entry_byte
        (λ e r l m. read_entry-write_entry types e r l) es rest h.0 h.1 k)
      refl

read_shell-write_shell :
    (size : ℕ) (types : List ℕ) (s : Shell) (rest : Bytes)
    → ShellFits types s
    → length (write_shell s ++ rest) ≤ size
    → read_shell size types (shell_tag s) (write_shell s ++ rest) ≡ some (s, rest)
unfolding read_shell
read_shell-write_shell size types (env_shell p cs) rest h k =
    env_shell_back size types p cs rest h k
read_shell-write_shell size types (array_shell cs) rest h k =
    array_shell_back size types cs rest h k
read_shell-write_shell size types (record_shell es) rest h k =
    record_shell_back size types es rest h k

read_shells-write_all :
    (size : ℕ) (types : List ℕ) (ss : List Shell) (rest : Bytes)
    → All (ShellFits types) ss
    → length (write_all write_shell ss ++ rest) ≤ size
    → read_shells size types (map shell_tag ss) (write_all write_shell ss ++ rest) ≡ some (ss, rest)
unfolding read_shells
read_shells-write_all size types [] rest h k = refl
read_shells-write_all size types (s ∷ ss) rest h k =
    rw
      (
        joined,
        read_shell-write_shell size types s (write_all write_shell ss ++ rest) h.0 whole,
        read_shells-write_all size types ss rest h.1
            (tail_size size (write_shell s) (write_all write_shell ss ++ rest) whole),
      )
      refl
  where
    joined :
        (write_shell s ++ write_all write_shell ss) ++ rest
        ≡ write_shell s ++ (write_all write_shell ss ++ rest)
    joined = append_assoc (write_shell s) (write_all write_shell ss) rest

    whole : length (write_shell s ++ (write_all write_shell ss ++ rest)) ≤ size
    whole = omega (arith, k, ap length joined)

-- The kinds of objects are 1, 2 and 3.
abbrev IsTag : ℕ → Type 0
IsTag t = (leb 1 t && leb t 3) ≡ true

read_tag-write_tag :
    (t : ℕ) (rest : Bytes) → IsTag t → read_tag (write_tag t ++ rest) ≡ some (t, rest)
unfolding read_tag read_byte
read_tag-write_tag t rest h = rw h refl

tags_ok : (ss : List Shell) → All IsTag (map shell_tag ss)
tags_ok [] = tt
tags_ok (env_shell p cs ∷ ss) = (refl, tags_ok ss)
tags_ok (array_shell cs ∷ ss) = (refl, tags_ok ss)
tags_ok (record_shell es ∷ ss) = (refl, tags_ok ss)

length-map_tag : (ss : List Shell) → length (map shell_tag ss) ≡ length ss
length-map_tag [] = refl
length-map_tag (s ∷ ss) = ap suc (length-map_tag ss)

-- The object table: the kinds come back with the objects.
pub read_table-write_table :
    (size : ℕ) (t : List Shell) (rest : Bytes)
    → Short t
    → All (ShellFits (map shell_tag t)) t
    → length (write_table t ++ rest) ≤ size
    → read_table size (write_table t ++ rest) ≡ some ((map shell_tag t, t), rest)
unfolding read_table write_table
read_table-write_table size t rest few h k =
    rw
      (
        joined,
        read_list-write_list size IsTag write_tag read_tag (λ a. omega arith)
            (λ a r l m. read_tag-write_tag a r l) (map shell_tag t)
            (write_all write_shell t ++ rest) (omega (arith, few, length-map_tag t)) (tags_ok t)
            whole,
        read_shells-write_all size (map shell_tag t) t rest h (
            tail_size size (write_list write_tag (map shell_tag t))
              (write_all write_shell t ++ rest) whole),
      )
      refl
  where
    joined :
        (write_list write_tag (map shell_tag t) ++ write_all write_shell t) ++ rest
        ≡ write_list write_tag (map shell_tag t) ++ (write_all write_shell t ++ rest)
    joined = append_assoc (write_list write_tag (map shell_tag t)) (write_all write_shell t) rest

    whole :
        length (write_list write_tag (map shell_tag t) ++ (write_all write_shell t ++ rest)) ≤ size
    whole = omega (arith, k, ap length joined)
