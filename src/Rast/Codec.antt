-- ===== src/Rast/Codec.antt =====
-- internal/rast/encode.go: the one byte sequence of a syntax tree, which is hashed for the tree's
-- address, and the decoder that loads a tree from a catalog row. A kind is one of the constants, so the panic
-- of encodeInto on another kind has no case here; a child is never nil.
use regel.Base.{
  ℕ, zero, suc, Bool, true, false, Option, none, some, List, [], ◌∷◌, ◌++◌, length, ltb,
  if◌then◌else◌, ◌>>=◌, Str,
}
use regel.Rast.{Kind, Node, Nodes, node, nil, cons, to_list}
use regel.Rast.Schema.{kind_byte, kind_of_byte, schema, num_as_f64}
use regel.Cfr.Wire.{
  Bytes, Read, write_uvarint, read_uvarint, write_bytes, read_bytes, write_f64, read_f64,
}

abbrev pub part : Bool → Bytes → Bytes
part true bs = bs
part false bs = []

-- The field U: eight bytes for a number, a varint for the rest.
unfoldable pub write_word : Kind → ℕ → Bytes
unfolding num_as_f64 write_f64 write_uvarint
write_word k u = if num_as_f64 k then write_f64 u else write_uvarint u

-- The tag and the fields that the schema gives the kind.
unfoldable pub write_fields : Kind → Str → ℕ → List ℕ → Bytes
unfolding kind_byte schema write_word write_bytes
write_fields k s u g =
    kind_byte k
    ∷ (part (schema k).has_str (write_bytes s)
        ++ (part (schema k).has_u (write_word k u) ++ part (schema k).has_mag (write_bytes g)))

unfoldable mutual
  -- `encodeInto`, which `canonEncode` and `Encode` start.
  pub encode_node : Node → Bytes
  encode_node (node k s u g ks) =
      write_fields k s u g ++ (write_uvarint (length (to_list ks)) ++ encode_all ks)

  pub encode_all : Nodes → Bytes
  encode_all nil = []
  encode_all (cons n ns) = encode_node n ++ encode_all ns

-- A field that the kind does not have keeps its zero value.
unfoldable pub read_part : {A : Type 0} → Bool → A → (Bytes → Read A) → Bytes → Read A
read_part true z r bs = r bs
read_part false z r bs = some (z, bs)

unfoldable pub read_word : Kind → Bytes → Read ℕ
unfolding num_as_f64 read_f64 read_uvarint
read_word k bs = if num_as_f64 k then read_f64 bs else read_uvarint bs

unfoldable pub read_kind_tag : Bytes → Read Kind
unfolding kind_of_byte
read_kind_tag [] = none
read_kind_tag (b ∷ bs) = do k ← kind_of_byte b; some (k, bs)

unfoldable pub read_kids : (Bytes → Read Node) → ℕ → Bytes → Read Nodes
read_kids r zero bs = some (nil, bs)
read_kids r (suc n) bs = do
  (c, rest) ← r bs
  (cs, rest') ← read_kids r n rest
  some (cons c cs, rest')

-- The children: no more are claimed than bytes remain.
unfoldable pub read_children : (Bytes → Read Node) → Bytes → Read Nodes
unfolding read_uvarint read_kids
read_children r bs = do
  (n, rest) ← read_uvarint bs
  if ltb (length rest) n then none else read_kids r n rest

-- `func (d *decoder) node`, to a depth.
unfoldable pub read_node : ℕ → Bytes → Read Node
unfolding read_kind_tag read_part read_word read_bytes schema read_children
read_node zero bs = none
read_node (suc depth) bs = do
  (k, r1) ← read_kind_tag bs
  (s, r2) ← read_part (schema k).has_str [] read_bytes r1
  (u, r3) ← read_part (schema k).has_u 0 (read_word k) r2
  (g, r4) ← read_part (schema k).has_mag [] read_bytes r3
  (ks, r5) ← read_children (read_node depth) r4
  some (node k s u g ks, r5)

abbrev pub whole_node : Read Node → Option Node
whole_node (some (n, [])) = some n
whole_node _ = none

-- `canonDecode` and `Decode`: a tree is no deeper than it has bytes.
unfoldable pub decode_node : Bytes → Option Node
unfolding read_node
decode_node bs = whole_node (read_node (length bs) bs)
