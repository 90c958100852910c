-- ===== src/Base/Int.antt =====
-- Signed integers over the native numbers, with the operations of math/big that the evaluator uses.
-- `negsuc n` is -(n + 1).
use Prim.Native.Nat.{ℕ, zero, suc, ◌+◌, ◌-◌, ◌*◌, ◌/◌, ◌%◌, ◌^◌, bit_and, bit_or, bit_xor}
use mathlib.Core.Bool.{Bool, true, false, ◌&&◌}
use mathlib.Core.List.{◌∷◌}
use regel.Base.Tests.{◌==◌, ltb, leb, if◌then◌else◌}
use regel.Base.Text.{Str, itoa}

pub data ℤ : Type 0 where
  pos : ℕ → ℤ
  negsuc : ℕ → ℤ

abbrev pub sub_ℕ : ℕ → ℕ → ℤ
sub_ℕ a b = if leb b a then pos (a - b) else negsuc (b - a - 1)

unfoldable pub neg : ℤ → ℤ
neg (pos zero) = pos 0
neg (pos (suc n)) = negsuc n
neg (negsuc n) = pos (suc n)

infixl 65 ◌+ℤ◌ ◌-ℤ◌
infixl 70 ◌*ℤ◌
unfoldable pub ◌+ℤ◌ : ℤ → ℤ → ℤ
pos a +ℤ pos b = pos (a + b)
pos a +ℤ negsuc b = sub_ℕ a (suc b)
negsuc a +ℤ pos b = sub_ℕ b (suc a)
negsuc a +ℤ negsuc b = negsuc (suc (a + b))

unfoldable pub ◌-ℤ◌ : ℤ → ℤ → ℤ
unfolding ◌+ℤ◌ neg
a -ℤ b = a +ℤ neg b

unfoldable pub ◌*ℤ◌ : ℤ → ℤ → ℤ
unfolding neg
pos a *ℤ pos b = pos (a * b)
pos a *ℤ negsuc b = neg (pos (a * suc b))
negsuc a *ℤ pos b = neg (pos (suc a * b))
negsuc a *ℤ negsuc b = pos (suc a * suc b)

abbrev pub magnitude : ℤ → ℕ
magnitude (pos n) = n
magnitude (negsuc n) = suc n

abbrev pub is_neg : ℤ → Bool
is_neg (pos n) = false
is_neg (negsuc n) = true

abbrev pub is_zero : ℤ → Bool
is_zero (pos n) = n == 0
is_zero (negsuc n) = false

abbrev pub signed : Bool → ℕ → ℤ
signed false n = pos n
signed true zero = pos 0
signed true (suc n) = negsuc n

-- Quo and Rem round towards zero: the remainder has the sign of the dividend.
unfoldable pub quo : ℤ → ℤ → ℤ
quo a b =
    let q = magnitude a / magnitude b in
    if is_neg a then signed (if is_neg b then false else true) q else signed (is_neg b) q

unfoldable pub rem : ℤ → ℤ → ℤ
rem a b = signed (is_neg a) (magnitude a % magnitude b)

-- Exp with a nil modulus: 1 for an exponent that is not positive.
unfoldable pub exp : ℤ → ℤ → ℤ
exp a (negsuc n) = pos 1
exp a (pos n) = let r = magnitude a ^ n in if is_neg a && (n % 2 == 1) then signed true r else pos r

-- Bitwise operations read an integer as an infinite two's complement word.
unfoldable pub not_ℤ : ℤ → ℤ
not_ℤ (pos n) = negsuc n
not_ℤ (negsuc n) = pos n

unfoldable pub and_ℤ : ℤ → ℤ → ℤ
and_ℤ (pos a) (pos b) = pos (bit_and a b)
and_ℤ (pos a) (negsuc b) = pos (a - bit_and a b)
and_ℤ (negsuc a) (pos b) = pos (b - bit_and a b)
and_ℤ (negsuc a) (negsuc b) = negsuc (bit_or a b)

unfoldable pub or_ℤ : ℤ → ℤ → ℤ
or_ℤ (pos a) (pos b) = pos (bit_or a b)
or_ℤ (pos a) (negsuc b) = negsuc (b - bit_and a b)
or_ℤ (negsuc a) (pos b) = negsuc (a - bit_and a b)
or_ℤ (negsuc a) (negsuc b) = negsuc (bit_and a b)

unfoldable pub xor_ℤ : ℤ → ℤ → ℤ
xor_ℤ (pos a) (pos b) = pos (bit_xor a b)
xor_ℤ (pos a) (negsuc b) = negsuc (bit_xor a b)
xor_ℤ (negsuc a) (pos b) = negsuc (bit_xor a b)
xor_ℤ (negsuc a) (negsuc b) = pos (bit_xor a b)

unfoldable pub shl_ℤ : ℤ → ℕ → ℤ
unfolding ◌*ℤ◌
shl_ℤ a k = a *ℤ pos (2 ^ k)

unfoldable pub shr_ℤ : ℤ → ℕ → ℤ
shr_ℤ (pos a) k = pos (a / 2 ^ k)
shr_ℤ (negsuc a) k = negsuc (a / 2 ^ k)

-- uint(y.Int64()): the low 64 bits in two's complement.
unfoldable pub low64 : ℤ → ℕ
low64 (pos n) = n % 2 ^ 64
low64 (negsuc n) = 2 ^ 64 - 1 - n % 2 ^ 64

unfoldable pub int_eq : ℤ → ℤ → Bool
int_eq (pos a) (pos b) = a == b
int_eq (negsuc a) (negsuc b) = a == b
int_eq _ _ = false

unfoldable pub int_lt : ℤ → ℤ → Bool
int_lt (pos a) (pos b) = ltb a b
int_lt (pos a) (negsuc b) = false
int_lt (negsuc a) (pos b) = true
int_lt (negsuc a) (negsuc b) = ltb b a

unfoldable pub int_text : ℤ → Str
unfolding itoa
int_text (pos n) = itoa n
int_text (negsuc n) = 45 ∷ itoa (suc n)
