-- ===== src/Cfr/Wire.antt =====
-- The primitive writers of internal/cfr/codec.go and the readers of decode.go, over byte lists: a reader
-- returns the value and the bytes that are left, or fails. binary.PutUvarint and binary.Uvarint of Go's
-- library are written out.
pub mod Roundtrip
use regel.Base.{
  ℕ, zero, suc, ◌+◌, ◌*◌, ◌/◌, ◌%◌, ◌^◌, Bool, true, false, ◌&&◌, Option, none, some, List, [], ◌∷◌,
  ◌++◌, length, take, drop, ltb, ◌==◌, if◌then◌else◌, ◌>>=◌,
}
use regel.Base.Int.{ℤ, pos, negsuc}
use regel.Cek.Value.{Path16}

abbrev pub Bytes : Type 0
Bytes = List ℕ

-- A reader's result.
abbrev pub Read : Type 0 → Type 0
Read A = Option (A × Bytes)

-- binary.PutUvarint, with at most so many bytes before the last.
unfoldable pub put_uvarint : ℕ → ℕ → Bytes
put_uvarint zero v = v ∷ []
put_uvarint (suc n) v =
    let more = put_uvarint n (v / 128) in if ltb v 128 then v ∷ [] else (v % 128 + 128) ∷ more

-- binary.Uvarint, with at most so many bytes: the tenth byte may only be 0 or 1.
unfoldable pub get_uvarint : ℕ → Bytes → Read ℕ
get_uvarint zero bs = none
get_uvarint (suc left) [] = none
get_uvarint (suc left) (b ∷ bs) =
    let more = get_uvarint left bs in
    if ltb b 128
    then (if (left == 0) && ltb 1 b then none else some (b, bs))
    else elim more [ none ↦ none | some (x, rest) ↦ some (b % 128 + 128 * x, rest) ]

-- `func (e *encoder) uvarint` and `uvarintE`
unfoldable pub write_uvarint : ℕ → Bytes
unfolding put_uvarint
write_uvarint v = put_uvarint 9 v

unfoldable pub read_uvarint : Bytes → Read ℕ
unfolding get_uvarint
read_uvarint bs = get_uvarint 10 bs

-- The zigzag of binary.PutVarint: the sign is the lowest bit.
unfoldable pub zigzag : ℤ → ℕ
zigzag (pos n) = 2 * n
zigzag (negsuc n) = 2 * n + 1

unfoldable pub unzigzag : ℕ → ℤ
unzigzag u = if u % 2 == 0 then pos (u / 2) else negsuc (u / 2)

-- `svarint` and `svarintE`
unfoldable pub write_svarint : ℤ → Bytes
unfolding write_uvarint zigzag
write_svarint z = write_uvarint (zigzag z)

unfoldable pub read_svarint : Bytes → Read ℤ
unfolding read_uvarint unzigzag
read_svarint bs = do (u, rest) ← read_uvarint bs; some (unzigzag u, rest)

-- `bytes` and `bytesE`, which `str` and `strE` share.
unfoldable pub write_bytes : Bytes → Bytes
unfolding write_uvarint
write_bytes s = write_uvarint (length s) ++ s

unfoldable pub read_bytes : Bytes → Read Bytes
unfolding read_uvarint
read_bytes bs = do
  (n, rest) ← read_uvarint bs
  if ltb (length rest) n then none else some (take n rest, drop n rest)

-- The loops of `path` and `pathE`.
unfoldable pub write_indices : Path16 → Bytes
unfolding write_uvarint
write_indices [] = []
write_indices (i ∷ p) = write_uvarint i ++ write_indices p

unfoldable pub read_indices : ℕ → Bytes → Read Path16
unfolding read_uvarint
read_indices zero bs = some ([], bs)
read_indices (suc n) bs = do
  (i, rest) ← read_uvarint bs
  if ltb 0xffff i then none else (do (p, rest') ← read_indices n rest; some (i ∷ p, rest'))

-- `path` and `pathE`
unfoldable pub write_path : Path16 → Bytes
unfolding write_uvarint write_indices
write_path p = write_uvarint (length p) ++ write_indices p

unfoldable pub read_path : Bytes → Read Path16
unfolding read_uvarint read_indices
read_path bs = do
  (n, rest) ← read_uvarint bs
  if ltb (length rest) n then none else read_indices n rest

-- binary.BigEndian.PutUint64 and Uint64, as `f64` and `f64E` use them.
unfoldable pub write_f64 : ℕ → Bytes
write_f64 w =
    w / 2 ^ 56 % 256
    ∷ w / 2 ^ 48 % 256
    ∷ w / 2 ^ 40 % 256
    ∷ w / 2 ^ 32 % 256
    ∷ w / 2 ^ 24 % 256
    ∷ w / 2 ^ 16 % 256
    ∷ w / 2 ^ 8 % 256
    ∷ w % 256
    ∷ []

unfoldable pub read_f64 : Bytes → Read ℕ
read_f64 (a ∷ b ∷ c ∷ d ∷ e ∷ f ∷ g ∷ h ∷ rest) = some (
  a * 2 ^ 56 + b * 2 ^ 48 + c * 2 ^ 40 + d * 2 ^ 32 + e * 2 ^ 24 + f * 2 ^ 16 + g * 2 ^ 8 + h,
  rest,
)
read_f64 _ = none
