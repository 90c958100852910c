-- ===== src/Cek/Equality.antt =====
-- `strictEq` of internal/cek/ops.go and toUint32, toInt32.
use regel.Base.{
  ℕ, ◌%◌, ◌^◌, ◌<◌, ◌≡◌, refl, Bool, true, false, not, ◌||◌, ◌==◌, Bool-cases, inl, inr, arith,
  str_eq_refl,
}
use regel.Base.Int.{ℤ, pos, negsuc, int_eq}
use regel.Cek.Value.{Value, is_nan, f64_eq}
use regel.Cek.Ops.{strict_eq}
use regel.Cek.Coerce.{Floats, to_uint32, low32, sign_bit, infinity}
use regel.Cek.Records.{str_eq-sym}

nat_eq-sym : (a b : ℕ) → (a == b) ≡ (b == a)
nat_eq-sym a b = ground arith

int_eq-sym : (a b : ℤ) → int_eq a b ≡ int_eq b a
unfolding int_eq
int_eq-sym (pos a) (pos b) = nat_eq-sym a b
int_eq-sym (negsuc a) (negsuc b) = nat_eq-sym a b
int_eq-sym (pos a) (negsuc b) = refl
int_eq-sym (negsuc a) (pos b) = refl

int_eq_refl : (a : ℤ) → int_eq a a ≡ true
unfolding int_eq
int_eq_refl (pos a) = ground arith
int_eq_refl (negsuc a) = ground arith

f64_eq-sym : (a b : ℕ) → f64_eq a b ≡ f64_eq b a
unfolding f64_eq
f64_eq-sym a b = ground (arith, nat_eq-sym a b)

-- `===` does not depend on the order of its operands.
pub strict_eq-sym : (v w : Value) → strict_eq v w ≡ strict_eq w v
unfolding strict_eq
strict_eq-sym Value.undefined Value.undefined = refl
strict_eq-sym Value.null Value.null = refl
strict_eq-sym (Value.bool a) (Value.bool b) = ground (arith, nat_eq-sym a b)
strict_eq-sym (Value.f64 a) (Value.f64 b) = f64_eq-sym a b
strict_eq-sym (Value.bigint a) (Value.bigint b) = int_eq-sym a b
strict_eq-sym (Value.str a) (Value.str b) = str_eq-sym a b
strict_eq-sym (Value.array a) (Value.array b) = nat_eq-sym a b
strict_eq-sym (Value.rec a) (Value.rec b) = nat_eq-sym a b
strict_eq-sym (Value.closure a) (Value.closure b) = nat_eq-sym a b
strict_eq-sym (Value.cap_token a) (Value.cap_token b) = str_eq-sym a b
strict_eq-sym (Value.opaque a) (Value.opaque b) = nat_eq-sym a b
strict_eq-sym _ _ = refl

abbrev pub is_nan_value : Value → Bool
is_nan_value (Value.f64 w) = is_nan w
is_nan_value _ = false

-- Every value is `===` to itself but for the number NaN.
pub strict_eq_self : (v : Value) → strict_eq v v ≡ not (is_nan_value v)
unfolding strict_eq f64_eq
strict_eq_self Value.undefined = refl
strict_eq_self Value.null = refl
strict_eq_self (Value.bool a) = ground arith
strict_eq_self (Value.f64 a) = ground arith
strict_eq_self (Value.bigint a) = int_eq_refl a
strict_eq_self (Value.str a) = str_eq_refl a
strict_eq_self (Value.array a) = ground arith
strict_eq_self (Value.rec a) = ground arith
strict_eq_self (Value.closure a) = ground arith
strict_eq_self (Value.cap_token a) = str_eq_refl a
strict_eq_self (Value.opaque a) = ground arith

low32-bound : (z : ℤ) → low32 z < 2 ^ 32
unfolding low32
low32-bound (pos n) = omega arith
low32-bound (negsuc n) = omega arith

-- A word is below 2 ^ 32.
pub to_uint32-bound : (F : Floats) (w : ℕ) → to_uint32 F w < 2 ^ 32
unfolding to_uint32
to_uint32-bound F w = elim (Bool-cases (is_nan w || (w % sign_bit == infinity))) [
  | inl e ↦ rw e (omega arith)
  | inr e ↦ rw e (low32-bound (F.trunc w))
]
