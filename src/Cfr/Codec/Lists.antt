-- ===== src/Cfr/Codec/Lists.antt =====
-- Counted lists of internal/cfr: a list of items that are read back is read back.
use mathlib.Core.List.{reverse, reverse_aux}
use regel.Base.{
  ◌+◌, ℕ, ◌≤◌, ◌≡◌, refl, ap, ◌∙◌, false, some, List, [], ◌∷◌, ◌++◌, length, ltb, arith,
  length-append,
}
use regel.Cfr.Wire.{Bytes, Read, write_uvarint}
use regel.Cfr.Wire.Roundtrip.{read_uvarint-write_uvarint, append_assoc}
use regel.Cfr.Encode.{write_all, write_list, in_turn}
use regel.Cfr.Decode.{read_n, read_list}
use regel.Cfr.Codec.Fits.{All, Short}

-- The parts of a record, with what follows them.
abbrev pub onto : List Bytes → Bytes → Bytes
onto [] rest = rest
onto (p ∷ ps) rest = p ++ onto ps rest

pub in_turn-append : (ps : List Bytes) (rest : Bytes) → in_turn ps ++ rest ≡ onto ps rest
in_turn-append [] rest = refl
in_turn-append (p ∷ ps) rest =
    append_assoc p (in_turn ps) rest ∙ ap (λ l. p ++ l) (in_turn-append ps rest)

-- What is left of a blob is no longer than the blob.
pub tail_size : (size : ℕ) (w rest : Bytes) → length (w ++ rest) ≤ size → length rest ≤ size
tail_size size w rest h = omega (arith, length-append w rest)

-- A reader reads back what a writer wrote, in a blob of at most so many bytes.
abbrev pub ReadsBack : {A : Type 0} → ℕ → (A → Type 0) → (A → Bytes) → (Bytes → Read A) → Type 0
ReadsBack {A} size P w r =
    (a : A) (rest : Bytes) → P a → length (w a ++ rest) ≤ size → r (w a ++ rest) ≡ some (a, rest)

module _ {A : Type 0} (size : ℕ) (P : A → Type 0) (w : A → Bytes) (r : Bytes → Read A)
    (back : ReadsBack size P w r) where
  pub read_n-write_all :
      (xs : List A) (rest : Bytes)
      → All P xs
      → length (write_all w xs ++ rest) ≤ size
      → read_n r (length xs) (write_all w xs ++ rest) ≡ some (xs, rest)
  read_n-write_all [] rest h k = refl
  read_n-write_all (x ∷ xs) rest h k =
      rw
        (
          append_assoc (w x) (write_all w xs) rest,
          back x (write_all w xs ++ rest) h.0
              (omega (arith, k, ap length (append_assoc (w x) (write_all w xs) rest))),
          read_n-write_all xs rest h.1 (
              tail_size size (w x) (write_all w xs ++ rest)
                (omega (arith, k, ap length (append_assoc (w x) (write_all w xs) rest)))),
        )
        refl

module _ {A : Type 0} (w : A → Bytes) (some_byte : (a : A) → 1 ≤ length (w a)) where
  pub count-le : (xs : List A) → length xs ≤ length (write_all w xs)
  count-le [] = omega arith
  count-le (x ∷ xs) = omega (arith, some_byte x, count-le xs, length-append (w x) (write_all w xs))

pub read_list-write_list :
    {A : Type 0} (size : ℕ) (P : A → Type 0) (w : A → Bytes) (r : Bytes → Read A)
    → ((a : A) → 1 ≤ length (w a))
    → ReadsBack size P w r
    → (xs : List A) (rest : Bytes) → Short xs
    → All P xs
    → length (write_list w xs ++ rest) ≤ size
    → read_list r size (write_list w xs ++ rest) ≡ some (xs, rest)
unfolding read_list write_list
read_list-write_list size P w r one back xs rest few fits k =
    rw
      (
        append_assoc (write_uvarint (length xs)) (write_all w xs) rest,
        read_uvarint-write_uvarint (length xs) (write_all w xs ++ rest) few,
        enough,
      )
      (read_n-write_all size P w r back xs rest fits left)
  where
    left : length (write_all w xs ++ rest) ≤ size
    left = tail_size size (write_uvarint (length xs)) (write_all w xs ++ rest) (
        omega
          (arith, k, ap length (append_assoc (write_uvarint (length xs)) (write_all w xs) rest)))

    enough : ltb size (length xs) ≡ false
    enough = ground (arith, count-le w one xs, left, length-append (write_all w xs) rest)

-- What holds of all items holds of them in the reverse order, which has as many.
All-reverse_aux :
    {A : Type 0} (P : A → Type 0) (xs ys : List A) → All P xs → All P ys → All P (reverse_aux xs ys)
All-reverse_aux P [] ys h k = k
All-reverse_aux P (x ∷ xs) ys h k = All-reverse_aux P xs (x ∷ ys) h.1 (h.0, k)

pub All-reverse : {A : Type 0} (P : A → Type 0) (xs : List A) → All P xs → All P (reverse xs)
All-reverse P xs h = All-reverse_aux P xs [] h tt

length-reverse_aux :
    {A : Type 0} (xs ys : List A) → length (reverse_aux xs ys) ≡ length xs + length ys
length-reverse_aux [] ys = omega arith
length-reverse_aux (x ∷ xs) ys = omega (arith, length-reverse_aux xs (x ∷ ys))

pub length-reverse : {A : Type 0} (xs : List A) → length (reverse xs) ≡ length xs
length-reverse xs = omega (arith, length-reverse_aux xs [])
