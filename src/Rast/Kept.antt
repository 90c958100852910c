-- ===== src/Rast/Kept.antt =====
-- The fields of a tree that its kinds have, in the table of internal/rast/schema.go: the others are not
-- in its bytes.
use regel.Base.{suc, ◌≡◌, refl, ap, ap₂, Bool, true, false, [], ◌++◌, length}
use regel.Rast.{Node, Nodes, node, nil, cons, to_list}
use regel.Rast.Schema.{schema}
use regel.Rast.Codec.{part, write_word, write_fields, encode_node, encode_all}
use regel.Cfr.Wire.{Bytes, write_bytes}

abbrev pub kept {ℓ} : {A : Type ℓ} → Bool → A → A → A
kept true z a = a
kept false z a = z

unfoldable mutual
  -- The tree with the fields only that the schema gives its kinds.
  pub in_schema : Node → Node
  in_schema (node k s u g ks) =
      node k (kept (schema k).has_str [] s) (kept (schema k).has_u 0 u)
        (kept (schema k).has_mag [] g) (all_in_schema ks)

  pub all_in_schema : Nodes → Nodes
  all_in_schema nil = nil
  all_in_schema (cons n ns) = cons (in_schema n) (all_in_schema ns)

part-kept :
    {A : Type 0} (b : Bool) (z a : A) (w : A → Bytes) → part b (w (kept b z a)) ≡ part b (w a)
part-kept true z a w = refl
part-kept false z a w = refl

length-all_in_schema : (ns : Nodes) → length (to_list (all_in_schema ns)) ≡ length (to_list ns)
unfolding all_in_schema
length-all_in_schema nil = refl
length-all_in_schema (cons n ns) = ap suc (length-all_in_schema ns)

mutual
  unfolding encode_node in_schema write_fields

  pub encode_node-in_schema : (n : Node) → encode_node (in_schema n) ≡ encode_node n
  encode_node-in_schema (node k s u g ks) =
      rw
        (
          part-kept (schema k).has_str [] s write_bytes,
          part-kept (schema k).has_u 0 u (write_word k),
          part-kept (schema k).has_mag [] g write_bytes,
          length-all_in_schema ks,
          encode_all-all_in_schema ks,
        )
        refl

  encode_all-all_in_schema : (ns : Nodes) → encode_all (all_in_schema ns) ≡ encode_all ns
  encode_all-all_in_schema nil = refl
  encode_all-all_in_schema (cons n ns) =
      ap₂ (λ x y. x ++ y) (encode_node-in_schema n) (encode_all-all_in_schema ns)
