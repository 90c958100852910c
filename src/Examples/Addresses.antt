-- ===== src/Examples/Addresses.antt =====
-- Addresses at which the laws of internal/rast/address.go are used, with a digest that keeps the first 32
-- bytes.
use regel.Base.{
  ◌≡◌, refl, Bool, true, ◌&&◌, some, [], ◌∷◌, ◌++◌, take, replicate, ltb, ltb→lt, and_parts, codes,
  ◌↔◌, arith,
}
use regel.Rast.{Kind, Node, node, nil}
use regel.Rast.Codec.{encode_node, write_fields}
use regel.Rast.Kept.{in_schema}
use regel.Rast.Roundtrip.{FitsWords}
use regel.Rast.Address.{hashed, address, verify, decode_address}
use regel.Rast.Address.Faithful.{IsBytes, IsDigest, decode_address-address, verify_faithful}
use regel.Cfr.Wire.{Bytes}

abbrev head_32 : Bytes → Bytes
head_32 m = take 32 (m ++ replicate 32 0)

-- The same type, once with a word that its kind does not have.
abbrev plain : Node
plain = node Kind.t_keyword (codes "number") 0 [] nil

abbrev marked : Node
marked = node Kind.t_keyword (codes "number") 7 [] nil

abbrev below_256 : Bytes → Bool
below_256 [] = true
below_256 (b ∷ bs) = ltb b 256 && below_256 bs

below_256-IsBytes : (bs : Bytes) → below_256 bs ≡ true → IsBytes bs
below_256-IsBytes [] h = tt
below_256-IsBytes (b ∷ bs) h =
    let p = and_parts (ltb b 256) (below_256 bs) h in (ltb→lt b 256 p.0, below_256-IsBytes bs p.1)

plain-IsDigest : IsDigest (head_32 (hashed plain))
unfolding hashed encode_node write_fields
plain-IsDigest = (refl, below_256-IsBytes (head_32 (hashed plain)) refl)

marked-IsDigest : IsDigest (head_32 (hashed marked))
unfolding hashed encode_node write_fields
marked-IsDigest = (refl, below_256-IsBytes (head_32 (hashed marked)) refl)

plain_fits : FitsWords plain
unfolding FitsWords
plain_fits = (omega arith, (omega arith, (omega arith, (omega arith, tt))))

marked_fits : FitsWords marked
unfolding FitsWords
marked_fits = (omega arith, (omega arith, (omega arith, (omega arith, tt))))

no_collision : head_32 (hashed marked) ≡ head_32 (hashed plain) → hashed marked ≡ hashed plain
unfolding hashed encode_node write_fields
no_collision e = refl

address_of_plain :
    address head_32 plain ≡ codes "r1_e9jpesbc5ngq6x1f645681keenpp4sbj00000000000000000000"
unfolding address hashed encode_node write_fields
address_of_plain = refl

decode_address-address_example :
    decode_address (address head_32 plain) ≡ some (head_32 (hashed plain))
decode_address-address_example = decode_address-address head_32 plain plain-IsDigest

verify_faithful_example :
    (verify head_32 marked (address head_32 plain) ≡ true) ↔ (in_schema marked ≡ in_schema plain)
verify_faithful_example =
    verify_faithful head_32 marked plain marked_fits plain_fits marked-IsDigest plain-IsDigest
      no_collision
