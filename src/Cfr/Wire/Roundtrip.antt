-- ===== src/Cfr/Wire/Roundtrip.antt =====
-- What the writers of internal/cfr/codec.go write, the readers of decode.go read back.
use regel.Base.{
  ℕ, zero, suc, ◌+◌, ◌*◌, ◌/◌, ◌%◌, ◌^◌, ◌<◌, ◌≤◌, ◌&&◌, ◌≡◌, refl, ap, Bool, true, false, some, [],
  ◌∷◌, ◌++◌, length, take, drop, ltb, ◌==◌, Bool-cases, inl, inr, arith, length-append,
}
use regel.Base.Int.{ℤ, pos, negsuc}
use regel.Cek.Value.{Path16}
use regel.Cfr.Wire.{
  Bytes, put_uvarint, get_uvarint, write_uvarint, read_uvarint, zigzag, unzigzag, write_svarint,
  read_svarint, write_bytes, read_bytes, write_indices, read_indices, write_path, read_path,
  write_f64, read_f64,
}

-- The numbers that so many bytes before the last can hold: 2 * 128 ^ n.
bound : ℕ → ℕ
bound zero = 2
bound (suc n) = 128 * bound n

not_zero : (n : ℕ) → (suc n == 0) ≡ false
not_zero n = ground arith

more_bytes : (v : ℕ) → ltb (v % 128 + 128) 128 ≡ false
more_bytes v = ground arith

joined : (v : ℕ) → (v % 128 + 128) % 128 + 128 * (v / 128) ≡ v
joined v = omega arith

get_uvarint-put_uvarint :
    (n v : ℕ) (rest : Bytes)
    → v < bound n
    → get_uvarint (suc n) (put_uvarint n v ++ rest) ≡ some (v, rest)
unfolding get_uvarint put_uvarint bound
get_uvarint-put_uvarint zero v rest h = ground (arith, h)
get_uvarint-put_uvarint (suc n) v rest h = elim (Bool-cases (ltb v 128)) [
  | inl t ↦ rw (t, t, not_zero n) refl
  | inr t ↦
      rw (t, more_bytes v, get_uvarint-put_uvarint n (v / 128) rest (omega (arith, h)))
        (ap (λ x. some (x, rest)) (joined v))
]

-- A number that a uint64 holds.
pub read_uvarint-write_uvarint :
    (v : ℕ) (rest : Bytes) → v < 2 ^ 64 → read_uvarint (write_uvarint v ++ rest) ≡ some (v, rest)
unfolding read_uvarint write_uvarint bound
read_uvarint-write_uvarint v rest h = get_uvarint-put_uvarint 9 v rest h

-- A number that an int64 holds.
abbrev pub FitsInt64 : ℤ → Type 0
FitsInt64 (pos n) = n < 2 ^ 63
FitsInt64 (negsuc n) = n < 2 ^ 63

zigzag-bound : (z : ℤ) → FitsInt64 z → zigzag z < 2 ^ 64
unfolding zigzag
zigzag-bound (pos n) h = omega (arith, h)
zigzag-bound (negsuc n) h = omega (arith, h)

unzigzag-zigzag : (z : ℤ) → unzigzag (zigzag z) ≡ z
unfolding unzigzag zigzag
unzigzag-zigzag (pos n) = ground arith
unzigzag-zigzag (negsuc n) = ground arith

-- A number that an int64 holds, with its sign, is read back, and the bytes after it are left.
pub read_svarint-write_svarint :
    (z : ℤ) (rest : Bytes) → FitsInt64 z → read_svarint (write_svarint z ++ rest) ≡ some (z, rest)
unfolding read_svarint write_svarint
read_svarint-write_svarint z rest h =
    rw (read_uvarint-write_uvarint (zigzag z) rest (zigzag-bound z h), unzigzag-zigzag z) refl

pub append_assoc : (xs ys zs : Bytes) → (xs ++ ys) ++ zs ≡ xs ++ (ys ++ zs)
append_assoc [] ys zs = refl
append_assoc (x ∷ xs) ys zs = ap (λ l. x ∷ l) (append_assoc xs ys zs)

take_all : (xs ys : Bytes) → take (length xs) (xs ++ ys) ≡ xs
take_all [] ys = refl
take_all (x ∷ xs) ys = ap (λ l. x ∷ l) (take_all xs ys)

drop_all : (xs ys : Bytes) → drop (length xs) (xs ++ ys) ≡ ys
drop_all [] ys = refl
drop_all (x ∷ xs) ys = drop_all xs ys

not_short : (xs ys : Bytes) → ltb (length (xs ++ ys)) (length xs) ≡ false
not_short xs ys = ground (arith, length-append xs ys)

-- A string or a byte sequence, whatever follows it.
pub read_bytes-write_bytes :
    (s rest : Bytes) → length s < 2 ^ 64 → read_bytes (write_bytes s ++ rest) ≡ some (s, rest)
unfolding read_bytes write_bytes
read_bytes-write_bytes s rest h =
    rw
      (
        append_assoc (write_uvarint (length s)) s rest,
        read_uvarint-write_uvarint (length s) (s ++ rest) h,
        not_short s rest,
        take_all s rest,
        drop_all s rest,
      )
      refl

abbrev pub indices_fit : Path16 → Bool
indices_fit [] = true
indices_fit (i ∷ p) = ltb i 65536 && indices_fit p

pub one_byte : (n v : ℕ) → 1 ≤ length (put_uvarint n v)
unfolding put_uvarint
one_byte zero v = omega arith
one_byte (suc n) v = elim (Bool-cases (ltb v 128)) [
  | inl t ↦ rw t (omega arith)
  | inr t ↦ rw t (omega arith)
]

indices_size : (p : Path16) → length p ≤ length (write_indices p)
unfolding write_indices write_uvarint
indices_size [] = omega arith
indices_size (i ∷ p) =
    omega (arith, indices_size p, one_byte 9 i, length-append (put_uvarint 9 i) (write_indices p))

read_indices-write_indices :
    (p : Path16) (rest : Bytes)
    → indices_fit p ≡ true
    → read_indices (length p) (write_indices p ++ rest) ≡ some (p, rest)
unfolding read_indices write_indices
read_indices-write_indices [] rest h = refl
read_indices-write_indices (i ∷ p) rest h =
    rw
      (
        append_assoc (write_uvarint i) (write_indices p) rest,
        read_uvarint-write_uvarint i (write_indices p ++ rest) (ground (arith, h)),
        in_range i (ground (arith, h)),
        read_indices-write_indices p rest (ground (arith, h)),
      )
      refl
  where
    in_range : (j : ℕ) → ltb j 65536 ≡ true → ltb 0xffff j ≡ false
    in_range j t = ground (arith, t)

-- A path of 16-bit indices, whatever follows it.
pub read_path-write_path :
    (p : Path16) (rest : Bytes)
    → indices_fit p ≡ true
    → length p < 2 ^ 64
    → read_path (write_path p ++ rest) ≡ some (p, rest)
unfolding read_path write_path
read_path-write_path p rest h k =
    rw
      (
        append_assoc (write_uvarint (length p)) (write_indices p) rest,
        read_uvarint-write_uvarint (length p) (write_indices p ++ rest) k,
        enough,
      )
      (read_indices-write_indices p rest h)
  where
    enough : ltb (length (write_indices p ++ rest)) (length p) ≡ false
    enough = ground (arith, indices_size p, length-append (write_indices p) rest)

-- A 64-bit pattern is read back, whatever follows it.
pub read_f64-write_f64 :
    (w : ℕ) (rest : Bytes) → w < 2 ^ 64 → read_f64 (write_f64 w ++ rest) ≡ some (w, rest)
unfolding read_f64 write_f64
read_f64-write_f64 w rest h = ap (λ x. some (x, rest)) (omega (arith, h))
