-- ===== src/Rast/Address/Blocks.antt =====
-- A block of five bytes, and the end of a digest, in the base 32 of internal/rast/address.go.
use regel.Base.{
  ℕ, suc, ◌+◌, ◌-◌, ◌*◌, ◌/◌, ◌%◌, ◌^◌, ◌<◌, ◌≤◌, ◌≡◌, refl, ap, ◌∙◌, true, false, Option, none,
  some, List, [], ◌∷◌, leb, ◌>>=◌, Str, arith,
}
use regel.Rast.Address.{base32_char, emit, base32_encode, base32_decode}
use regel.Rast.Address.Base32.{
  push_byte, push_digit, base32_value-base32_char, digit_0, digit_1, digit_2, digit_3, digit_4,
  digit_5, digit_6, digit_7, byte_0, byte_1, byte_2, byte_3, byte_4,
}
use regel.Cfr.Wire.{Bytes}

abbrev pub chars : List ℕ → Str → Str
chars [] cs = cs
chars (v ∷ vs) cs = base32_char v ∷ chars vs cs

abbrev pub eight_digits : ℕ → ℕ → ℕ → ℕ → ℕ → List ℕ
eight_digits a b c d e =
    (a / 8)
    ∷ (a % 8 * 4 + b / 64)
    ∷ (b / 2 % 32)
    ∷ (b % 2 * 16 + c / 16)
    ∷ (c % 16 * 2 + d / 128)
    ∷ (d / 4 % 32)
    ∷ (d % 4 * 8 + e / 32)
    ∷ (e % 32)
    ∷ []

-- Five bytes are written as eight characters.
pub encode_block :
    (w a b c d e : ℕ) (bs : Bytes)
    → a < 256
    → b < 256
    → c < 256
    → d < 256
    → e < 256
    → base32_encode w 0 (a ∷ b ∷ c ∷ d ∷ e ∷ bs)
      ≡ chars (eight_digits a b c d e) (
          base32_encode
            (push_byte (push_byte (push_byte (push_byte (push_byte w a) b) c) d) e)
            0
            bs)
unfolding base32_encode emit
encode_block w a b c d e bs ha hb hc hd he =
    ap
      (λ vs. chars vs (
        base32_encode (push_byte (push_byte (push_byte (push_byte (push_byte w a) b) c) d) e) 0 bs))
      (list_same (digit_0 w a ha) (digit_1 w a b hb) (digit_2 (push_byte w a) b hb)
        (digit_3 (push_byte w a) b c hc) (digit_4 (push_byte (push_byte w a) b) c d hd)
        (digit_5 (push_byte (push_byte (push_byte w a) b) c) d hd)
        (digit_6 (push_byte (push_byte (push_byte w a) b) c) d e he)
        (digit_7 (push_byte (push_byte (push_byte (push_byte w a) b) c) d) e he))
  where
    list_same :
        {p q r s t u v x p' q' r' s' t' u' v' x' : ℕ}
        → p ≡ p'
        → q ≡ q'
        → r ≡ r'
        → s ≡ s'
        → t ≡ t'
        → u ≡ u'
        → v ≡ v'
        → x ≡ x'
        → p ∷ q ∷ r ∷ s ∷ t ∷ u ∷ v ∷ x ∷ [] ≡ p' ∷ q' ∷ r' ∷ s' ∷ t' ∷ u' ∷ v' ∷ x' ∷ []
    list_same a b c d e f g h = cc (a, b, c, d, e, f, g, h)

-- A character that does not complete a byte, and one that does.
pub decode_part :
    (w bits made v : ℕ) (cs : Str)
    → v < 32
    → leb 8 (bits + 5) ≡ false
    → base32_decode w bits made (base32_char v ∷ cs)
      ≡ base32_decode (push_digit w v) (bits + 5) made cs
unfolding base32_decode
decode_part w bits made v cs h few = rw (base32_value-base32_char v h, few) (same _)
  where
    same : (o : Option Bytes) → (do bs ← o; some bs) ≡ o
    same none = refl
    same (some bs) = refl

pub decode_full :
    (w bits made v : ℕ) (cs : Str) (bs : Bytes)
    → v < 32
    → leb 8 (bits + 5) ≡ true
    → leb 32 made ≡ false
    → base32_decode (push_digit w v) (bits + 5 - 8) (suc made) cs ≡ some bs
    → base32_decode w bits made (base32_char v ∷ cs)
      ≡ some (push_digit w v / 2 ^ (bits + 5 - 8) % 256 ∷ bs)
unfolding base32_decode
decode_full w bits made v cs bs h many room rest =
    rw (base32_value-base32_char v h, many, room, rest) refl

-- The eight characters are read as the five bytes, whatever is in the accumulator.
pub decode_block :
    (w made a b c d e : ℕ) (cs : Str) (bs : Bytes)
    → a < 256
    → b < 256
    → c < 256
    → d < 256
    → e < 256
    → made + 5 ≤ 32
    → ((u : ℕ) → base32_decode u 0 (suc (suc (suc (suc (suc made))))) cs ≡ some bs)
    → base32_decode w 0 made (chars (eight_digits a b c d e) cs) ≡ some (a ∷ b ∷ c ∷ d ∷ e ∷ bs)
decode_block w made a b c d e cs bs ha hb hc hd he fits next =
    step_0
    ∙ ap some (
        bytes_same (byte_0 w a b ha hb) (byte_1 w1 a b c ha hb hc) (byte_2 w3 b c d hb hc hd)
          (byte_3 w4 c d e hc hd he) (byte_4 w6 d e hd he))
  where
    w1 : ℕ
    w1 = push_digit w (a / 8)

    w2 : ℕ
    w2 = push_digit w1 (a % 8 * 4 + b / 64)

    w3 : ℕ
    w3 = push_digit w2 (b / 2 % 32)

    w4 : ℕ
    w4 = push_digit w3 (b % 2 * 16 + c / 16)

    w5 : ℕ
    w5 = push_digit w4 (c % 16 * 2 + d / 128)

    w6 : ℕ
    w6 = push_digit w5 (d / 4 % 32)

    w7 : ℕ
    w7 = push_digit w6 (d % 4 * 8 + e / 32)

    w8 : ℕ
    w8 = push_digit w7 (e % 32)

    step_7 :
        base32_decode w7 3 (suc (suc (suc (suc made)))) (base32_char (e % 32) ∷ chars ([]) cs)
        ≡ some (w8 / 1 % 256 ∷ bs)
    step_7 =
        decode_full w7 3 (suc (suc (suc (suc made)))) (e % 32) (chars ([]) cs) (bs)
          (omega (arith, he)) refl (ground (arith, fits)) (next w8)

    step_6 :
        base32_decode w6 6
          (suc (suc (suc made)))
          (base32_char (d % 4 * 8 + e / 32) ∷ chars ((e % 32) ∷ []) cs)
        ≡ some (w7 / 8 % 256 ∷ w8 / 1 % 256 ∷ bs)
    step_6 =
        decode_full w6 6 (suc (suc (suc made))) (d % 4 * 8 + e / 32) (chars ((e % 32) ∷ []) cs)
          (w8 / 1 % 256 ∷ bs) (omega (arith, hd, he)) refl (ground (arith, fits)) step_7

    step_5 :
        base32_decode w5 1
          (suc (suc (suc made)))
          (base32_char (d / 4 % 32) ∷ chars ((d % 4 * 8 + e / 32) ∷ (e % 32) ∷ []) cs)
        ≡ some (w7 / 8 % 256 ∷ w8 / 1 % 256 ∷ bs)
    step_5 =
        decode_part w5 1 (suc (suc (suc made))) (d / 4 % 32)
          (chars ((d % 4 * 8 + e / 32) ∷ (e % 32) ∷ []) cs) (omega (arith, hd)) refl
        ∙ step_6

    step_4 :
        base32_decode w4 4 (suc (suc made)) (
          base32_char (c % 16 * 2 + d / 128)
          ∷ chars ((d / 4 % 32) ∷ (d % 4 * 8 + e / 32) ∷ (e % 32) ∷ []) cs)
        ≡ some (w5 / 2 % 256 ∷ w7 / 8 % 256 ∷ w8 / 1 % 256 ∷ bs)
    step_4 =
        decode_full w4 4 (suc (suc made)) (c % 16 * 2 + d / 128)
          (chars ((d / 4 % 32) ∷ (d % 4 * 8 + e / 32) ∷ (e % 32) ∷ []) cs)
          (w7 / 8 % 256 ∷ w8 / 1 % 256 ∷ bs) (omega (arith, hc, hd)) refl (ground (arith, fits))
          step_5

    step_3 :
        base32_decode w3 7 (suc made) (
          base32_char (b % 2 * 16 + c / 16)
          ∷ chars ((c % 16 * 2 + d / 128) ∷ (d / 4 % 32) ∷ (d % 4 * 8 + e / 32) ∷ (e % 32) ∷ []) cs)
        ≡ some (w4 / 16 % 256 ∷ w5 / 2 % 256 ∷ w7 / 8 % 256 ∷ w8 / 1 % 256 ∷ bs)
    step_3 =
        decode_full w3 7 (suc made) (b % 2 * 16 + c / 16)
          (chars ((c % 16 * 2 + d / 128) ∷ (d / 4 % 32) ∷ (d % 4 * 8 + e / 32) ∷ (e % 32) ∷ []) cs)
          (w5 / 2 % 256 ∷ w7 / 8 % 256 ∷ w8 / 1 % 256 ∷ bs) (omega (arith, hb, hc)) refl
          (ground (arith, fits)) step_4

    step_2 :
        base32_decode w2 2 (suc made) (
          base32_char (b / 2 % 32)
          ∷ chars
              ((b % 2 * 16 + c / 16)
                ∷ (c % 16 * 2 + d / 128)
                ∷ (d / 4 % 32)
                ∷ (d % 4 * 8 + e / 32)
                ∷ (e % 32)
                ∷ [])
              cs)
        ≡ some (w4 / 16 % 256 ∷ w5 / 2 % 256 ∷ w7 / 8 % 256 ∷ w8 / 1 % 256 ∷ bs)
    step_2 =
        decode_part w2 2 (suc made) (b / 2 % 32)
          (chars
            ((b % 2 * 16 + c / 16)
              ∷ (c % 16 * 2 + d / 128)
              ∷ (d / 4 % 32)
              ∷ (d % 4 * 8 + e / 32)
              ∷ (e % 32)
              ∷ [])
            cs)
          (omega (arith, hb)) refl
        ∙ step_3

    step_1 :
        base32_decode w1 5 made (
          base32_char (a % 8 * 4 + b / 64)
          ∷ chars
              ((b / 2 % 32)
                ∷ (b % 2 * 16 + c / 16)
                ∷ (c % 16 * 2 + d / 128)
                ∷ (d / 4 % 32)
                ∷ (d % 4 * 8 + e / 32)
                ∷ (e % 32)
                ∷ [])
              cs)
        ≡ some (w2 / 4 % 256 ∷ w4 / 16 % 256 ∷ w5 / 2 % 256 ∷ w7 / 8 % 256 ∷ w8 / 1 % 256 ∷ bs)
    step_1 =
        decode_full w1 5 made (a % 8 * 4 + b / 64)
          (chars
            ((b / 2 % 32)
              ∷ (b % 2 * 16 + c / 16)
              ∷ (c % 16 * 2 + d / 128)
              ∷ (d / 4 % 32)
              ∷ (d % 4 * 8 + e / 32)
              ∷ (e % 32)
              ∷ [])
            cs)
          (w4 / 16 % 256 ∷ w5 / 2 % 256 ∷ w7 / 8 % 256 ∷ w8 / 1 % 256 ∷ bs) (omega (arith, ha, hb))
          refl (ground (arith, fits)) step_2

    step_0 :
        base32_decode w 0 made (
          base32_char (a / 8)
          ∷ chars
              ((a % 8 * 4 + b / 64)
                ∷ (b / 2 % 32)
                ∷ (b % 2 * 16 + c / 16)
                ∷ (c % 16 * 2 + d / 128)
                ∷ (d / 4 % 32)
                ∷ (d % 4 * 8 + e / 32)
                ∷ (e % 32)
                ∷ [])
              cs)
        ≡ some (w2 / 4 % 256 ∷ w4 / 16 % 256 ∷ w5 / 2 % 256 ∷ w7 / 8 % 256 ∷ w8 / 1 % 256 ∷ bs)
    step_0 =
        decode_part w 0 made (a / 8)
          (chars
            ((a % 8 * 4 + b / 64)
              ∷ (b / 2 % 32)
              ∷ (b % 2 * 16 + c / 16)
              ∷ (c % 16 * 2 + d / 128)
              ∷ (d / 4 % 32)
              ∷ (d % 4 * 8 + e / 32)
              ∷ (e % 32)
              ∷ [])
            cs)
          (omega (arith, ha)) refl
        ∙ step_1

    bytes_same :
        {p q r s t p' q' r' s' t' : ℕ}
        → p ≡ p'
        → q ≡ q'
        → r ≡ r'
        → s ≡ s'
        → t ≡ t'
        → p ∷ q ∷ r ∷ s ∷ t ∷ bs ≡ p' ∷ q' ∷ r' ∷ s' ∷ t' ∷ bs
    bytes_same a b c d e = cc (a, b, c, d, e)
