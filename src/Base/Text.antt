-- ===== src/Base/Text.antt =====
-- Go strings are byte sequences: lists of numbers below 256. Decimal printing and parsing.
use Prim.Native.Nat.{ℕ, zero, suc, ◌+◌, ◌-◌, ◌*◌, ◌/◌, ◌%◌}
use Prim.Native.Char.{code}
use Prim.Native.String.{String}
use mathlib.Core.Path.{◌≡◌, refl}
use mathlib.Core.Bool.{Bool, true, false, ◌&&◌}
use mathlib.Core.Option.{Option, none, some}
use mathlib.Core.List.{List, [], ◌∷◌}
use native.Mathlib.Omega.{arith}
use regel.Base.Tests.{◌==◌, ltb, leb, if◌then◌else◌}

abbrev pub Str : Type 0
Str = List ℕ

-- The bytes of a literal in ASCII.
abbrev pub codes : String → Str
codes String.[] = []
codes (String.◌∷◌ c s) = code c ∷ codes s

unfoldable pub str_eq : Str → Str → Bool
str_eq [] [] = true
str_eq (x ∷ xs) (y ∷ ys) = (x == y) && str_eq xs ys
str_eq _ _ = false

-- Go's `<` on strings: by bytes, and a proper prefix is below.
unfoldable pub str_lt : Str → Str → Bool
str_lt xs [] = false
str_lt [] (y ∷ ys) = true
str_lt (x ∷ xs) (y ∷ ys) = let rest = str_lt xs ys in if x == y then rest else ltb x y

unfoldable pub is_empty : Str → Bool
is_empty [] = true
is_empty (c ∷ cs) = false

-- strconv.Itoa on a number that is not negative; a number has fewer digits than its value plus one.
digits_of : ℕ → ℕ → Str → Str
digits_of zero n acc = acc
digits_of (suc f) n acc =
    let acc' : Str = (48 + n % 10) ∷ acc in
    let more = digits_of f (n / 10) acc' in if ltb n 10 then acc' else more

unfoldable pub itoa : ℕ → Str
unfolding digits_of
itoa n = digits_of (suc n) n []

-- The value of a run of decimal digits; `none` at any other byte.
unfoldable pub parse_digits : ℕ → Str → Option ℕ
parse_digits n [] = some n
parse_digits n (c ∷ cs) =
    let rest = parse_digits (n * 10 + (c - 48)) cs in if leb 48 c && leb c 57 then rest else none

pub str_eq_refl : (s : Str) → str_eq s s ≡ true
unfolding str_eq
str_eq_refl [] = refl
str_eq_refl (x ∷ xs) = ground (arith, str_eq_refl xs)

pub str_eq→eq : (s t : Str) → str_eq s t ≡ true → s ≡ t
unfolding str_eq
str_eq→eq [] [] h = refl
str_eq→eq [] (y ∷ ys) h = ground arith
str_eq→eq (x ∷ xs) [] h = ground arith
str_eq→eq (x ∷ xs) (y ∷ ys) h = ground (arith, str_eq→eq xs ys)
