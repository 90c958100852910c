-- ===== src/Cfr/Codec/Cells.antt =====
-- The values and the objects of internal/cfr are read back.
use regel.Base.{
  ℕ, zero, suc, ◌/◌, ◌%◌, ◌≤◌, ◌<◌, ◌^◌, ◌≡◌, refl, ap, ◌∙◌, some, List, [], ◌∷◌, ◌++◌, length,
  ◌==◌, arith, Bool-cases, inl, inr, Str,
}
use regel.Base.Int.{ℤ, pos, negsuc, magnitude, is_neg, signed}
use regel.Cek.Value.{Path16}
use regel.Cfr.Wire.{Bytes, write_uvarint, write_bytes, write_path, write_f64}
use regel.Cfr.Wire.Roundtrip.{
  append_assoc, read_uvarint-write_uvarint, read_bytes-write_bytes, read_path-write_path,
  read_f64-write_f64,
}
use regel.Cfr.Form.{Cell}
use regel.Cfr.Encode.{big_digits, big_bytes, flag, write_cell}
use regel.Cfr.Decode.{
  read_byte, set_bytes, ref_is, read_ref, read_env, read_bool, read_number, read_bigint, read_text,
  read_pointer, read_closure, read_opaque, payload_readers, read_cell,
}
use regel.Cfr.Codec.Fits.{Short, PathFits, RefFits, EnvFits, CellFits}

set_bytes-big_digits :
    (fuel n : ℕ) (acc : Bytes) → n ≤ fuel → set_bytes 0 (big_digits fuel n acc) ≡ set_bytes n acc
unfolding set_bytes big_digits
set_bytes-big_digits zero n acc h = ap (λ k. set_bytes k acc) (omega (arith, h))
set_bytes-big_digits (suc fuel) n acc h = elim (Bool-cases (n == 0)) [
  | inl t ↦ rw t (ap (λ k. set_bytes k acc) (ground (arith, t)))
  | inr t ↦ rw t (
      set_bytes-big_digits fuel (n / 256) (n % 256 ∷ acc) (ground (arith, t, h))
      ∙ ap (λ k. set_bytes k acc) (omega arith))
]

-- The magnitude of a bigint, in any number of bytes.
pub set_bytes-big_bytes : (n : ℕ) → set_bytes 0 (big_bytes n) ≡ n
unfolding big_bytes
set_bytes-big_bytes n = set_bytes-big_digits n n [] (omega arith) ∙ unfold set_bytes in refl

signed-magnitude : (z : ℤ) → signed (flag (is_neg z) == 1) (magnitude z) ≡ z
signed-magnitude (pos n) = refl
signed-magnitude (negsuc n) = refl

pub read_env-write_uvarint :
    (types : List ℕ) (r : ℕ) (rest : Bytes)
    → EnvFits types r
    → read_env types (write_uvarint r ++ rest) ≡ some (r, rest)
unfolding read_env read_ref
read_env-write_uvarint types r rest h = rw (read_uvarint-write_uvarint r rest h.0, h.1) refl

read_pointer-write_uvarint :
    (c : ℕ → Cell) (tag : ℕ) (types : List ℕ) (r : ℕ) (rest : Bytes)
    → RefFits types tag r
    → read_pointer c (ref_is tag types) (write_uvarint r ++ rest) ≡ some (c r, rest)
unfolding read_pointer read_ref
read_pointer-write_uvarint c tag types r rest h =
    rw (read_uvarint-write_uvarint r rest h.0, h.1) refl

read_text-write_bytes :
    (c : Str → Cell) (s rest : Bytes)
    → Short s
    → read_text c (write_bytes s ++ rest) ≡ some (c s, rest)
unfolding read_text
read_text-write_bytes c s rest h = rw (read_bytes-write_bytes s rest h) refl

read_bigint-write_bytes :
    (z : ℤ) (rest : Bytes)
    → Short (big_bytes (magnitude z))
    → read_bigint (flag (is_neg z) ∷ (write_bytes (big_bytes (magnitude z)) ++ rest))
      ≡ some (Cell.bigint z, rest)
unfolding read_bigint read_byte
read_bigint-write_bytes z rest h =
    rw
      (
        read_bytes-write_bytes (big_bytes (magnitude z)) rest h,
        set_bytes-big_bytes (magnitude z),
        signed-magnitude z,
      )
      refl

read_closure-write_bytes :
    (types : List ℕ) (d : Str) (p : Path16) (r : ℕ) (rest : Bytes)
    → Short d
    → PathFits p
    → EnvFits types r
    → read_closure types ((write_bytes d ++ (write_path p ++ write_uvarint r)) ++ rest)
      ≡ some (Cell.closure d p r, rest)
unfolding read_closure
read_closure-write_bytes types d p r rest h k l =
    rw
      (
        append_assoc (write_bytes d) (write_path p ++ write_uvarint r) rest,
        append_assoc (write_path p) (write_uvarint r) rest,
        read_bytes-write_bytes d (write_path p ++ (write_uvarint r ++ rest)) h,
        read_path-write_path p (write_uvarint r ++ rest) k.0 k.1,
        read_env-write_uvarint types r rest l,
      )
      refl

read_opaque-write_bytes :
    (c d rest : Bytes)
    → Short c
    → Short d
    → read_opaque ((write_bytes c ++ write_bytes d) ++ rest) ≡ some (Cell.opaque c d, rest)
unfolding read_opaque
read_opaque-write_bytes c d rest h k =
    rw
      (
        append_assoc (write_bytes c) (write_bytes d) rest,
        read_bytes-write_bytes c (write_bytes d ++ rest) h,
        read_bytes-write_bytes d rest k,
      )
      refl

read_number-write_f64 :
    (w : ℕ) (rest : Bytes)
    → w < 2 ^ 64
    → read_number (write_f64 w ++ rest) ≡ some (Cell.f64 w, rest)
unfolding read_number
read_number-write_f64 w rest h = rw (read_f64-write_f64 w rest h) refl

-- A value whose references lead to objects of the right kinds.
pub read_cell-write_cell :
    (types : List ℕ) (c : Cell) (rest : Bytes)
    → CellFits types c
    → read_cell types (write_cell c ++ rest) ≡ some (c, rest)
unfolding read_cell write_cell read_byte payload_readers
read_cell-write_cell types Cell.undefined rest h = refl
read_cell-write_cell types Cell.null rest h = refl
read_cell-write_cell types (Cell.bool zero) rest h = unfold read_bool read_byte in refl
read_cell-write_cell types (Cell.bool (suc zero)) rest h = unfold read_bool read_byte in refl
read_cell-write_cell types (Cell.bool (suc (suc n))) rest h = absurd (omega (arith, h))
read_cell-write_cell types (Cell.f64 w) rest h = read_number-write_f64 w rest h
read_cell-write_cell types (Cell.bigint z) rest h = read_bigint-write_bytes z rest h
read_cell-write_cell types (Cell.str s) rest h = read_text-write_bytes Cell.str s rest h
read_cell-write_cell types (Cell.array r) rest h =
    read_pointer-write_uvarint Cell.array 2 types r rest h
read_cell-write_cell types (Cell.rec r) rest h =
    read_pointer-write_uvarint Cell.rec 3 types r rest h
read_cell-write_cell types (Cell.closure d p r) rest h =
    read_closure-write_bytes types d p r rest h.0 h.1 h.2
read_cell-write_cell types (Cell.cap_token s) rest h = read_text-write_bytes Cell.cap_token s rest h
read_cell-write_cell types (Cell.opaque c d) rest h = read_opaque-write_bytes c d rest h.0 h.1

pub cell_byte : (c : Cell) → 1 ≤ length (write_cell c)
unfolding write_cell
cell_byte Cell.undefined = omega arith
cell_byte _ = omega arith
