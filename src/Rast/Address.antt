-- ===== src/Rast/Address.antt =====
-- internal/rast/address.go: the content address of a tree, the digest of its canonical bytes in base 32.
-- SHA-256 is a parameter.
pub mod Base32
pub mod Blocks
pub mod Faithful
use regel.Base.{
  ℕ, zero, suc, ◌+◌, ◌-◌, ◌*◌, ◌/◌, ◌%◌, ◌^◌, ◌==◌, Bool, true, false, Option, none, some, List, [],
  ◌∷◌, ◌++◌, length, take, drop, get_elem?, leb, ltb, ◌&&◌, if◌then◌else◌, ◌>>=◌, Str, codes,
  str_eq,
}
use regel.Rast.{Node}
use regel.Rast.Codec.{encode_node}
use regel.Rast.Normal.{normalize}
use regel.Cfr.Wire.{Bytes}

-- `crockfordAlpha`
abbrev pub alphabet : Str
alphabet = codes "0123456789abcdefghjkmnpqrstvwxyz"

abbrev pub char_or_zero : Option ℕ → ℕ
char_or_zero none = 0
char_or_zero (some c) = c

unfoldable pub base32_char : ℕ → ℕ
base32_char d = char_or_zero (get_elem? alphabet d)

abbrev pub one_more : Option ℕ → Option ℕ
one_more none = none
one_more (some i) = some (suc i)

unfoldable pub position : ℕ → Str → Option ℕ
position c [] = none
position c (x ∷ xs) = let rest = position c xs in if x == c then some 0 else one_more rest

-- `crockfordDecodeTable`; `none` is -1.
unfoldable pub base32_value : ℕ → Option ℕ
unfolding position
base32_value c = position c alphabet

-- The loop `for bits >= 5`: the characters, and how many bits are left.
unfoldable pub emit : ℕ → ℕ → ℕ → Str × ℕ
unfolding base32_char
emit zero acc bits = ([], bits)
emit (suc turns) acc bits =
    let more = emit turns acc (bits - 5) in
    if leb 5 bits then (base32_char (acc / 2 ^ (bits - 5) % 32) ∷ more.0, more.1) else ([], bits)

-- `crockfordEncode`, from an accumulator of 32 bits of which so many are still to be written. Each turn of
-- the inner loop takes five bits, so as many turns as bits are enough.
unfoldable pub base32_encode : ℕ → ℕ → Bytes → Str
unfolding emit base32_char
base32_encode acc bits [] =
    if ltb 0 bits then base32_char (acc * 2 ^ (5 - bits) % 2 ^ 32 % 32) ∷ [] else []
base32_encode acc bits (b ∷ bs) =
    let acc' = (acc * 256 + b) % 2 ^ 32 in
    let e = emit (bits + 8) acc' (bits + 8) in e.0 ++ base32_encode acc' e.1 bs

-- The loop of `DecodeAddress`, with the number of the bytes that are there; a byte is made when there are
-- eight bits.
unfoldable pub base32_decode : ℕ → ℕ → ℕ → Str → Option Bytes
unfolding base32_value
base32_decode acc bits made [] = if made == 32 then some [] else none
base32_decode acc bits made (c ∷ cs) = do
  v ← base32_value c
  let acc' = (acc * 32 + v) % 2 ^ 32 in
      let full = leb 8 (bits + 5) in
      let left = bits + 5 - 8 in
      let rest =
        base32_decode acc' (if full then left else bits + 5) (if full then suc made else made) cs in
      if full && leb 32 made
      then none
      else (do bs ← rest; some (if full then acc' / 2 ^ left % 256 ∷ bs else bs))

-- `addrPrefix` and `domainBytes`
abbrev pub address_prefix : Str
address_prefix = codes "r1_"

abbrev pub domain : Bytes
domain = codes "regel-ast/1" ++ 10 ∷ []

-- What `Address` hashes.
unfoldable pub hashed : Node → Bytes
unfolding encode_node
hashed n = domain ++ encode_node n

module _ (digest : Bytes → Bytes) where
  -- `func Address`
  unfoldable pub address : Node → Str
  unfolding base32_encode hashed
  address n = address_prefix ++ base32_encode 0 0 (digest (hashed n))

  -- `func NormalizeAndAddress`
  unfoldable pub normalize_and_address : Node → Node × Str
  unfolding normalize address
  normalize_and_address n = (normalize n, address (normalize n))

  -- `func Verify`
  unfoldable pub verify : Node → Str → Bool
  unfolding address str_eq
  verify n addr = str_eq (address n) addr

-- `func DecodeAddress`
unfoldable pub decode_address : Str → Option Bytes
unfolding base32_decode str_eq
decode_address addr = elim (str_eq (take 3 addr) address_prefix) [
  | false ↦ none
  | true ↦ if length (drop 3 addr) == 52 then base32_decode 0 0 0 (drop 3 addr) else none
]
