-- ===== src/Rast/Address/Base32.antt =====
-- The base 32 of internal/rast/address.go is read back: five bytes are eight characters.
use regel.Base.{
  ℕ, zero, suc, ◌+◌, ◌*◌, ◌/◌, ◌%◌, ◌^◌, ◌<◌, ◌==◌, ◌≡◌, refl, ap, ◌∙◌, Bool, true, false, ◌&&◌,
  Option, none, some, arith, and_parts, Bool-cases, inl, inr,
}
use regel.Rast.Address.{base32_char, base32_value, position}

abbrev is_value : ℕ → Option ℕ → Bool
is_value d none = false
is_value d (some v) = v == d

-- A test that holds below a bound.
abbrev all_below : (ℕ → Bool) → ℕ → Bool
all_below p zero = true
all_below p (suc d) = p d && all_below p d

of_all_below : (p : ℕ → Bool) (n d : ℕ) → all_below p n ≡ true → d < n → p d ≡ true
of_all_below p zero d h k = absurd (omega (arith, k))
of_all_below p (suc n) d h k = elim (Bool-cases (d == n)) [
  | inl t ↦ ap p (same_number d n t) ∙ (and_parts (p n) (all_below p n) h).0
  | inr f ↦ of_all_below p n d (and_parts (p n) (all_below p n) h).1 (ground (arith, f, k))
]
  where
    same_number : (a b : ℕ) → (a == b) ≡ true → a ≡ b
    same_number a b e = ground (arith, e)

comes_back : ℕ → Bool
unfolding base32_char base32_value
comes_back d = is_value d (base32_value (base32_char d))

all_come_back : all_below comes_back 32 ≡ true
unfolding comes_back base32_char base32_value position
all_come_back = refl

pub base32_value-base32_char : (d : ℕ) → d < 32 → base32_value (base32_char d) ≡ some d
unfolding comes_back
base32_value-base32_char d h =
    same (base32_value (base32_char d)) (of_all_below comes_back 32 d all_come_back h)
  where
    same : (o : Option ℕ) → is_value d o ≡ true → o ≡ some d
    same none e = ground (arith, e)
    same (some v) e = ap some (ground (arith, e))

abbrev pub push_byte : ℕ → ℕ → ℕ
push_byte w b = (w * 256 + b) % 2 ^ 32

abbrev pub push_digit : ℕ → ℕ → ℕ
push_digit w v = (w * 32 + v) % 2 ^ 32

-- The eight digits of five bytes.
pub digit_0 : (w a : ℕ) → a < 256 → (push_byte w a) / 8 % 32 ≡ a / 8
digit_0 w a h = omega (arith, h)

pub digit_1 : (w a b : ℕ) → b < 256 → (push_byte (push_byte w a) b) / 64 % 32 ≡ a % 8 * 4 + b / 64
digit_1 w a b h = omega (arith, h)

pub digit_2 : (w b : ℕ) → b < 256 → (push_byte w b) / 2 % 32 ≡ b / 2 % 32
digit_2 w b h = omega (arith, h)

pub digit_3 : (w b c : ℕ) → c < 256 → (push_byte (push_byte w b) c) / 16 % 32 ≡ b % 2 * 16 + c / 16
digit_3 w b c h = omega (arith, h)

pub digit_4 :
    (w c d : ℕ) → d < 256 → (push_byte (push_byte w c) d) / 128 % 32 ≡ c % 16 * 2 + d / 128
digit_4 w c d h = omega (arith, h)

pub digit_5 : (w d : ℕ) → d < 256 → (push_byte w d) / 4 % 32 ≡ d / 4 % 32
digit_5 w d h = omega (arith, h)

pub digit_6 : (w d e : ℕ) → e < 256 → (push_byte (push_byte w d) e) / 32 % 32 ≡ d % 4 * 8 + e / 32
digit_6 w d e h = omega (arith, h)

pub digit_7 : (w e : ℕ) → e < 256 → (push_byte w e) / 1 % 32 ≡ e % 32
digit_7 w e h = omega (arith, h)

-- The five bytes of eight digits.
pub byte_0 :
    (w a b : ℕ)
    → a < 256
    → b < 256
    → (push_digit (push_digit w (a / 8)) (a % 8 * 4 + b / 64)) / 4 % 256 ≡ a
byte_0 w a b ha hb = omega (arith, ha, hb)

pub byte_1 :
    (w a b c : ℕ)
    → a < 256
    → b < 256
    → c < 256
    → (push_digit
          (push_digit (push_digit w (a % 8 * 4 + b / 64)) (b / 2 % 32))
          (b % 2 * 16 + c / 16))
        / 16
        % 256
      ≡ b
byte_1 w a b c ha hb hc = omega (arith, ha, hb, hc)

pub byte_2 :
    (w b c d : ℕ)
    → b < 256
    → c < 256
    → d < 256
    → (push_digit (push_digit w (b % 2 * 16 + c / 16)) (c % 16 * 2 + d / 128)) / 2 % 256 ≡ c
byte_2 w b c d hb hc hd = omega (arith, hb, hc, hd)

pub byte_3 :
    (w c d e : ℕ)
    → c < 256
    → d < 256
    → e < 256
    → (push_digit
          (push_digit (push_digit w (c % 16 * 2 + d / 128)) (d / 4 % 32))
          (d % 4 * 8 + e / 32))
        / 8
        % 256
      ≡ d
byte_3 w c d e hc hd he = omega (arith, hc, hd, he)

pub byte_4 :
    (w d e : ℕ)
    → d < 256
    → e < 256
    → (push_digit (push_digit w (d % 4 * 8 + e / 32)) (e % 32)) / 1 % 256 ≡ e
byte_4 w d e hd he = omega (arith, hd, he)
