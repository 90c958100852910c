-- ===== src/Rast/Address/Faithful.antt =====
-- The address of internal/rast/address.go and the digest that it stands for.
use regel.Base.{
  ℕ, zero, suc, ◌+◌, ◌*◌, ◌/◌, ◌%◌, ◌^◌, ◌<◌, ◌≡◌, refl, sym, ap, ◌∙◌, ◌==◌, true, some, List, [],
  ◌∷◌, ◌++◌, length, drop, Str, str_eq, str_eq_refl, str_eq→eq, arith, ◌↔◌,
}
use regel.Rast.{Node}
use regel.Rast.Kept.{in_schema}
use regel.Rast.Roundtrip.{FitsWords, encode_node_faithful}
use regel.Rast.Address.{
  emit, base32_encode, base32_decode, address_prefix, domain, hashed, address, verify,
  decode_address,
}
use regel.Rast.Address.Base32.{push_byte, push_digit, digit_0, digit_1, digit_2, byte_0, byte_1}
use regel.Rast.Address.Blocks.{chars, encode_block, decode_block, decode_part, decode_full}
use regel.Cfr.Wire.{Bytes}
use regel.Cfr.Codec.Fits.{All}

abbrev pub IsBytes : Bytes → Type 0
IsBytes = All (λ b. b < 256)

-- The four digits of the last two bytes; the last is filled up with zeros.
abbrev end_digits : ℕ → ℕ → List ℕ
end_digits a b = (a / 8) ∷ (a % 8 * 4 + b / 64) ∷ (b / 2 % 32) ∷ (b % 2 * 16 + 0 / 16) ∷ []

digit_end : (w a b : ℕ) → push_byte (push_byte w a) b * 16 % 2 ^ 32 % 32 ≡ b % 2 * 16 + 0 / 16
digit_end w a b = omega arith

encode_end :
    (w a b : ℕ) → a < 256 → b < 256 → base32_encode w 0 (a ∷ b ∷ []) ≡ chars (end_digits a b) []
unfolding base32_encode emit
encode_end w a b ha hb =
    ap (λ vs. chars vs [])
      (list_same (digit_0 w a ha) (digit_1 w a b hb) (digit_2 (push_byte w a) b hb)
        (digit_end w a b))
  where
    list_same :
        {p q r s p' q' r' s' : ℕ}
        → p ≡ p'
        → q ≡ q'
        → r ≡ r'
        → s ≡ s'
        → p ∷ q ∷ r ∷ s ∷ [] ≡ p' ∷ q' ∷ r' ∷ s' ∷ []
    list_same a b c d = cc (a, b, c, d)

decode_end :
    (w a b : ℕ)
    → a < 256
    → b < 256
    → base32_decode w 0 30 (chars (end_digits a b) []) ≡ some (a ∷ b ∷ [])
unfolding base32_decode
decode_end w a b ha hb = step_0 ∙ ap some (bytes_same (byte_0 w a b ha hb) last)
  where
    w1 : ℕ
    w1 = push_digit w (a / 8)

    w2 : ℕ
    w2 = push_digit w1 (a % 8 * 4 + b / 64)

    w3 : ℕ
    w3 = push_digit w2 (b / 2 % 32)

    w4 : ℕ
    w4 = push_digit w3 (b % 2 * 16 + 0 / 16)

    last : w4 / 16 % 256 ≡ b
    last = byte_1 w1 a b 0 ha hb (omega arith)

    finished : base32_decode w4 4 32 [] ≡ some []
    finished = refl

    step_2 :
        base32_decode w2 2 31 (chars ((b / 2 % 32) ∷ (b % 2 * 16 + 0 / 16) ∷ []) [])
        ≡ some (w4 / 16 % 256 ∷ [])
    step_2 =
        decode_part w2 2 31 (b / 2 % 32) (chars ((b % 2 * 16 + 0 / 16) ∷ []) []) (omega arith) refl
        ∙ decode_full w3 7 31 (b % 2 * 16 + 0 / 16) [] [] (omega arith) refl refl finished

    step_0 :
        base32_decode w 0 30 (chars (end_digits a b) []) ≡ some (w2 / 4 % 256 ∷ w4 / 16 % 256 ∷ [])
    step_0 =
        decode_part w 0 30 (a / 8)
          (chars ((a % 8 * 4 + b / 64) ∷ (b / 2 % 32) ∷ (b % 2 * 16 + 0 / 16) ∷ []) [])
          (omega (arith, ha)) refl
        ∙ decode_full w1 5 30 (a % 8 * 4 + b / 64)
            (chars ((b / 2 % 32) ∷ (b % 2 * 16 + 0 / 16) ∷ []) []) (w4 / 16 % 256 ∷ [])
            (omega (arith, hb)) refl refl step_2

    bytes_same : {p q p' q' : ℕ} → p ≡ p' → q ≡ q' → p ∷ q ∷ [] ≡ p' ∷ q' ∷ []
    bytes_same a b = cc (a, b)

block_size : (vs : List ℕ) (cs : Str) → length (chars vs cs) ≡ length vs + length cs
block_size [] cs = omega arith
block_size (v ∷ vs) cs = omega (arith, block_size vs cs)

-- What is written of so many blocks and two bytes more is read, whatever is in the accumulators.
base32_back :
    (n made w w' : ℕ) (bs : Bytes)
    → length bs ≡ 5 * n + 2
    → IsBytes bs
    → made + 5 * n ≡ 30
    → base32_decode w 0 made (base32_encode w' 0 bs) ≡ some bs
base32_back zero made w w' (a ∷ b ∷ []) l h m =
    rw (thirty, encode_end w' a b h.0 h.1.0) (decode_end w a b h.0 h.1.0)
  where
    thirty : made ≡ 30
    thirty = omega (arith, m)
base32_back (suc n) made w w' (a ∷ b ∷ c ∷ d ∷ e ∷ bs) l h m =
    ap (base32_decode w 0 made)
      (encode_block w' a b c d e bs h.0 h.1.0 h.1.1.0 h.1.1.1.0 h.1.1.1.1.0)
    ∙ decode_block w made a b c d e _ bs h.0 h.1.0 h.1.1.0 h.1.1.1.0 h.1.1.1.1.0 (omega (arith, m))
        (λ u.
          base32_back n (suc (suc (suc (suc (suc made))))) u _ bs (omega (arith, l)) h.1.1.1.1.1
            (omega (arith, m)))
base32_back _ made w w' bs l h m = absurd (omega (arith, l))

base32_size :
    (n w : ℕ) (bs : Bytes)
    → length bs ≡ 5 * n + 2
    → IsBytes bs
    → length (base32_encode w 0 bs) ≡ 8 * n + 4
base32_size zero w (a ∷ b ∷ []) l h = ap length (encode_end w a b h.0 h.1.0)
base32_size (suc n) w (a ∷ b ∷ c ∷ d ∷ e ∷ bs) l h = omega (
  arith,
  ap length (encode_block w a b c d e bs h.0 h.1.0 h.1.1.0 h.1.1.1.0 h.1.1.1.1.0),
  base32_size n (push_byte (push_byte (push_byte (push_byte (push_byte w a) b) c) d) e) bs
      (omega (arith, l)) h.1.1.1.1.1,
)
base32_size _ w bs l h = absurd (omega (arith, l))

-- What SHA-256 gives: 32 bytes.
abbrev pub IsDigest : Bytes → Type 0
IsDigest d = (length d ≡ 32) × IsBytes d

-- The digest is read back from the address.
pub decode_address-address :
    (digest : Bytes → Bytes) (n : Node)
    → IsDigest (digest (hashed n))
    → decode_address (address digest n) ≡ some (digest (hashed n))
unfolding decode_address address str_eq
decode_address-address digest n h =
    rw (long, base32_back 6 0 0 0 (digest (hashed n)) (omega (arith, h.0)) h.1 refl) refl
  where
    long : (length (base32_encode 0 0 (digest (hashed n))) == 52) ≡ true
    long = ground (arith, base32_size 6 0 (digest (hashed n)) (omega (arith, h.0)) h.1)

-- Where the digests of two trees do not collide, Verify takes one tree at the other's address exactly when
-- they agree in the fields that their kinds have.
pub verify_faithful :
    (digest : Bytes → Bytes) (a b : Node)
    → FitsWords a
    → FitsWords b
    → IsDigest (digest (hashed a))
    → IsDigest (digest (hashed b))
    → (digest (hashed a) ≡ digest (hashed b) → hashed a ≡ hashed b)
    → (verify digest a (address digest b) ≡ true) ↔ (in_schema a ≡ in_schema b)
unfolding verify hashed
verify_faithful digest a b fa fb da db apart = (only_same, same)
  where
    same_some :
        some (digest (hashed a)) ≡ some (digest (hashed b)) → digest (hashed a) ≡ digest (hashed b)
    same_some e = cc e

    same_digest : address digest a ≡ address digest b → digest (hashed a) ≡ digest (hashed b)
    same_digest e = same_some (
        sym (decode_address-address digest a da)
        ∙ (ap decode_address e ∙ decode_address-address digest b db))

    only_same : verify digest a (address digest b) ≡ true → in_schema a ≡ in_schema b
    only_same t =
        (encode_node_faithful a b fa fb).0
          (ap (drop 12) (apart (same_digest (str_eq→eq (address digest a) (address digest b) t))))

    same : in_schema a ≡ in_schema b → verify digest a (address digest b) ≡ true
    same e =
        ap (λ m. str_eq m (address digest b))
          (ap (λ m. address_prefix ++ base32_encode 0 0 (digest (domain ++ m)))
            ((encode_node_faithful a b fa fb).1 e))
        ∙ str_eq_refl (address digest b)
