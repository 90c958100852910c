-- ===== src/Examples/Trees.antt =====
-- Syntax trees at which the laws of internal/rast are used.
use mathlib.Core.List.{Permᴰ}
use regel.Base.{◌≡◌, refl, true, none, some, [], ◌∷◌, ◌++◌, codes, ◌↔◌, arith}
use regel.Rast.{Kind, Node, node, nil}
use regel.Rast.Codec.{encode_node, decode_node, write_fields}
use regel.Rast.Kept.{in_schema}
use regel.Rast.Roundtrip.{FitsWords, decode_node-encode_node, encode_node_faithful}
use regel.Rast.Normal.{normalize, set_child}
use regel.Rast.Normal.Laws.{normalize-normalize}
use regel.Rast.Normal.Order.{around, encode_node-normalize}
use regel.Rast.Equality.{equal, equal_faithful}

abbrev text_kind : Node
text_kind = node Kind.t_keyword (codes "string") 0 [] nil

abbrev number_kind : Node
number_kind = node Kind.t_keyword (codes "number") 7 [] nil

-- string | number, and number | string
abbrev union : Node
union = node Kind.t_union [] 0 [] (around [] (text_kind ∷ number_kind ∷ []) [])

abbrev turned : Node
turned = node Kind.t_union [] 0 [] (around [] (number_kind ∷ text_kind ∷ []) [])

-- A number carries the eight bytes of its word.
abbrev one : Node
one = node Kind.num [] 0x3ff0000000000000 [] nil

number_kind_fits : FitsWords number_kind
unfolding FitsWords
number_kind_fits = (omega arith, (omega arith, (omega arith, (omega arith, tt))))

one_fits : FitsWords one
unfolding FitsWords
one_fits = (omega arith, (omega arith, (omega arith, (omega arith, tt))))

one_bytes : encode_node one ≡ 10 ∷ 0x3f ∷ 0xf0 ∷ 0 ∷ 0 ∷ 0 ∷ 0 ∷ 0 ∷ 0 ∷ 0 ∷ []
unfolding encode_node write_fields
one_bytes = refl

decode_node-encode_node_example :
    (decode_node (encode_node one) ≡ some (in_schema one))
    × (decode_node (encode_node one ++ 3 ∷ []) ≡ none)
decode_node-encode_node_example = decode_node-encode_node one 3 [] one_fits

encode_node_faithful_example :
    (encode_node number_kind ≡ encode_node one) ↔ (in_schema number_kind ≡ in_schema one)
encode_node_faithful_example = encode_node_faithful number_kind one number_kind_fits one_fits

normalize-normalize_example : normalize (normalize union) ≡ normalize union
normalize-normalize_example = normalize-normalize union

members_turned : Permᴰ (text_kind ∷ number_kind ∷ []) (number_kind ∷ text_kind ∷ [])
members_turned = Permᴰ.swap refl refl

union_child : set_child Kind.t_union ≡ some 0
unfolding set_child
union_child = refl

union_sorted : normalize union ≡ turned
unfolding normalize encode_node write_fields
union_sorted = refl

encode_node-normalize_example : encode_node (normalize union) ≡ encode_node (normalize turned)
encode_node-normalize_example =
    encode_node-normalize Kind.t_union [] 0 [] [] [] union_child members_turned

equal_faithful_example : (equal union turned ≡ true) ↔ (union ≡ turned)
equal_faithful_example = equal_faithful union turned
