-- ===== src/Cek/Coerce.antt =====
-- The coercions of internal/cek/ops.go and props.go. What Go's float64 and strconv do is a record of
-- functions on bit patterns.
use regel.Base.{
  ℕ, zero, suc, ◌+◌, ◌-◌, ◌%◌, ◌^◌, Bool, true, false, ◌||◌, Option, none, some, List, [], ◌∷◌,
  ◌++◌, length, Str, codes, is_empty, parse_digits, ltb, leb, ◌==◌, if◌then◌else◌, ◌>>=◌,
}
use regel.Base.Int.{ℤ, pos, negsuc, sub_ℕ, signed, int_text}
use regel.Cek.Value.{Value, Heap, array_at, is_nan, f64_eq}

-- float64 arithmetic, math.Mod, math.Pow, strconv and rune splitting of Go's library.
pub record Floats : Type 0 where
  pub add : ℕ → ℕ → ℕ
  pub sub : ℕ → ℕ → ℕ
  pub mul : ℕ → ℕ → ℕ
  pub div : ℕ → ℕ → ℕ
  pub mod_f64 : ℕ → ℕ → ℕ
  pub pow : ℕ → ℕ → ℕ
  pub lt : ℕ → ℕ → Bool
  pub of_int : ℤ → ℕ  -- float64(i)
  pub trunc : ℕ → ℤ  -- int64(math.Trunc(f))
  pub parse : Str → Option ℕ  -- strconv.ParseFloat
  pub format : ℕ → Str  -- strconv.FormatFloat, of a finite number
  pub runes : Str → List Str  -- []rune(s), each as a string

abbrev pub nan : ℕ
nan = 0x7ff8_0000_0000_0001

abbrev pub infinity : ℕ
infinity = 0x7ff0_0000_0000_0000

abbrev pub sign_bit : ℕ
sign_bit = 2 ^ 63

-- `-x` flips the sign bit.
unfoldable pub neg_f64 : ℕ → ℕ
neg_f64 w = (w + sign_bit) % 2 ^ 64

-- `func numToStr`
unfoldable pub num_to_str : Floats → ℕ → Str
unfolding is_nan
num_to_str F w =
    if is_nan w
    then codes "NaN"
    else if w == infinity
    then codes "Infinity"
    else if w == infinity + sign_bit
    then codes "-Infinity"
    else F.format w

parsed : Option ℕ → ℕ
parsed none = nan
parsed (some w) = w

-- `func toNum`; `none` is the result with ok = false.
unfoldable pub to_num : Floats → Value → Option ℕ
unfolding parsed
to_num F Value.undefined = some nan
to_num F Value.null = some 0
to_num F (Value.bool n) = some (F.of_int (pos n))
to_num F (Value.f64 w) = some w
to_num F (Value.str s) = some (if is_empty s then 0 else parsed (F.parse s))
to_num F _ = none

-- The elements of an array, joined by commas; `undefined` and `null` are left empty.
piece : (Value → Option Str) → Value → Option Str
piece g Value.undefined = some []
piece g Value.null = some []
piece g v = g v

unfoldable pub join_from : (Value → Option Str) → Bool → List Value → Option Str
unfolding piece
join_from g first [] = some []
join_from g first (v ∷ vs) = do
  s ← piece g v
  rest ← join_from g false vs
  some ((if first then [] else b',' ∷ []) ++ (s ++ rest))

-- `func toStr`. `none`: an array that contains itself, on which the Go function does not return.
unfoldable pub to_str_at : ℕ → Floats → Heap → Value → Option Str
to_str_at zero F h v = none
to_str_at (suc n) F h v = elim v [
  | Value.undefined ↦ some (codes "undefined")
  | Value.null ↦ some (codes "null")
  | Value.bool b ↦ some (if b == 0 then codes "false" else codes "true")
  | Value.f64 w ↦ some (num_to_str F w)
  | Value.bigint z ↦ some (int_text z)
  | Value.str s ↦ some s
  | Value.array a ↦ (do xs ← array_at h a; join_from (to_str_at n F h) true xs)
  | _ ↦ some (codes "[object Object]")
]

-- Arrays nest at most as deep as there are objects, unless one contains itself.
unfoldable pub to_str : Floats → Heap → Value → Option Str
unfolding to_str_at join_from num_to_str int_text array_at
to_str F h v = to_str_at (length h + 2) F h v

-- `func propKeyString`
unfoldable pub prop_key_string : Floats → Heap → Value → Option Str
unfolding to_str
prop_key_string F h (Value.str s) = some s
prop_key_string F h v = to_str F h v

-- strconv.Atoi: an optional sign, at least one digit, and a value that an int64 holds.
in_range : Bool → ℕ → Option ℤ
in_range minus n =
    if leb n (if minus then 2 ^ 63 else 2 ^ 63 - 1) then some (signed minus n) else none

digits : Bool → Str → Option ℤ
unfolding in_range parse_digits
digits minus [] = none
digits minus (c ∷ cs) = do n ← parse_digits 0 (c ∷ cs); in_range minus n

unfoldable pub atoi : Str → Option ℤ
unfolding digits
atoi [] = none
atoi (c ∷ cs) =
    if c == b'-'
    then digits true cs
    else if c == b'+'
    then digits false cs
    else digits false (c ∷ cs)

-- `func numIndex`
unfoldable pub num_index : Floats → Value → Option ℤ
unfolding f64_eq
num_index F (Value.f64 w) = if f64_eq (F.of_int (F.trunc w)) w then some (F.trunc w) else none
num_index F _ = none

-- The low 32 bits of an integer, and such a word as an int32.
unfoldable pub low32 : ℤ → ℕ
low32 (pos n) = n % 2 ^ 32
low32 (negsuc n) = 2 ^ 32 - 1 - n % 2 ^ 32

unfoldable pub as_int32 : ℕ → ℤ
as_int32 w = if ltb w (2 ^ 31) then pos w else sub_ℕ w (2 ^ 32)

-- `func toUint32`; `func toInt32` reads the same word with a sign.
unfoldable pub to_uint32 : Floats → ℕ → ℕ
unfolding is_nan low32
to_uint32 F w = if is_nan w || (w % sign_bit == infinity) then 0 else low32 (F.trunc w)
