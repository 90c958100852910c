-- ===== src/Rast/Roundtrip.antt =====
-- internal/rast/encode.go, both ways: what of a tree its byte sequence keeps.
use mathlib.Core.List.{append-nil}
use regel.Base.{
  ℕ, zero, suc, ◌<◌, ◌≤◌, ◌≡◌, refl, sym, ap, ◌∙◌, ◌^◌, Bool, true, false, none, some, List, [],
  ◌∷◌, ◌++◌, length, ltb, arith, Bool-cases, inl, inr, length-append, Str, ◌↔◌,
}
use regel.Rast.{Kind, Node, Nodes, node, nil, cons, to_list}
use regel.Rast.Schema.{kind_byte, schema, num_as_f64, kind_of_byte-kind_byte}
use regel.Rast.Codec.{
  part, write_word, write_fields, encode_node, encode_all, read_part, read_word, read_kind_tag,
  read_kids, read_children, read_node, whole_node, decode_node,
}
use regel.Rast.Kept.{kept, in_schema, all_in_schema, encode_node-in_schema}
use regel.Cfr.Wire.{Bytes, Read, write_uvarint, write_bytes, read_bytes}
use regel.Cfr.Wire.Roundtrip.{
  read_uvarint-write_uvarint, read_bytes-write_bytes, read_f64-write_f64, append_assoc,
}

unfoldable mutual
  -- Every size and every word is a uint64, as it is in a machine's memory.
  pub FitsWords : Node → Type 0
  FitsWords (node k s u g ks) =
      (length s < 2 ^ 64)
      × ((u < 2 ^ 64) × ((length g < 2 ^ 64) × ((length (to_list ks) < 2 ^ 64) × AllFitWords ks)))

  pub AllFitWords : Nodes → Type 0
  AllFitWords nil = Unit
  AllFitWords (cons n ns) = FitsWords n × AllFitWords ns

read_word-write_word :
    (k : Kind) (u : ℕ) (rest : Bytes)
    → u < 2 ^ 64
    → read_word k (write_word k u ++ rest) ≡ some (u, rest)
unfolding read_word write_word
read_word-write_word k u rest h = elim (Bool-cases (num_as_f64 k)) [
  | inl t ↦ rw t (read_f64-write_f64 u rest h)
  | inr t ↦ rw t (read_uvarint-write_uvarint u rest h)
]

read_part-part :
    {A : Type 0} (b : Bool) (z a : A) (r : Bytes → Read A) (w rest : Bytes)
    → r (w ++ rest) ≡ some (a, rest)
    → read_part b z r (part b w ++ rest) ≡ some (kept b z a, rest)
unfolding read_part
read_part-part true z a r w rest h = h
read_part-part false z a r w rest h = refl

node_size : (n : Node) → 1 ≤ length (encode_node n)
unfolding encode_node write_fields
node_size (node k s u g ks) = le_suc _
  where
    le_suc : (j : ℕ) → 1 ≤ suc j
    le_suc j = omega arith

count-le : (ns : Nodes) → length (to_list ns) ≤ length (encode_all ns)
unfolding encode_all
count-le nil = omega arith
count-le (cons n ns) =
    omega (arith, node_size n, count-le ns, length-append (encode_node n) (encode_all ns))

parts_onto :
    (p q r c a rest : Bytes)
    → ((p ++ (q ++ r)) ++ (c ++ a)) ++ rest ≡ p ++ (q ++ (r ++ (c ++ (a ++ rest))))
parts_onto p q r c a rest =
    rw
      (
        append_assoc (p ++ (q ++ r)) (c ++ a) rest,
        append_assoc p (q ++ r) ((c ++ a) ++ rest),
        append_assoc q r ((c ++ a) ++ rest),
        append_assoc c a rest,
      )
      refl

-- The children, when the count stands before them and each is read back.
children_back :
    (r : Bytes → Read Node) (ks js : Nodes) (rest : Bytes)
    → length (to_list ks) < 2 ^ 64
    → read_kids r (length (to_list ks)) (encode_all ks ++ rest) ≡ some (js, rest)
    → read_children r (write_uvarint (length (to_list ks)) ++ (encode_all ks ++ rest))
      ≡ some (js, rest)
unfolding read_children
children_back r ks js rest few back =
    rw (read_uvarint-write_uvarint (length (to_list ks)) (encode_all ks ++ rest) few, enough) back
  where
    enough : ltb (length (encode_all ks ++ rest)) (length (to_list ks)) ≡ false
    enough = ground (arith, count-le ks, length-append (encode_all ks) rest)

tag_back : (k : Kind) (bs : Bytes) → read_kind_tag (kind_byte k ∷ bs) ≡ some (k, bs)
unfolding read_kind_tag
tag_back k bs = rw (kind_of_byte-kind_byte k) refl

-- The fields of a node are read back when its children are.
fields_back :
    (depth : ℕ) (k : Kind) (s : Str) (u : ℕ) (g : List ℕ) (ks js : Nodes) (rest : Bytes)
    → FitsWords (node k s u g ks)
    → read_kids (read_node depth) (length (to_list ks)) (encode_all ks ++ rest) ≡ some (js, rest)
    → read_node (suc depth) (encode_node (node k s u g ks) ++ rest)
      ≡ some (
        node k
            (kept (schema k).has_str [] s)
            (kept (schema k).has_u 0 u)
            (kept (schema k).has_mag [] g)
            js,
        rest,
      )
unfolding read_node encode_node write_fields FitsWords
fields_back depth k s u g ks js rest h back =
    rw
      (
        parts_onto p q r c (encode_all ks) rest,
        tag_back k (p ++ (q ++ onto_g)),
        read_part-part (schema k).has_str [] s read_bytes (write_bytes s) (q ++ onto_g)
            (read_bytes-write_bytes s (q ++ onto_g) h.0),
        read_part-part (schema k).has_u 0 u (read_word k) (write_word k u) onto_g
            (read_word-write_word k u onto_g h.1.0),
        read_part-part (schema k).has_mag [] g read_bytes (write_bytes g)
            (c ++ (encode_all ks ++ rest))
            (read_bytes-write_bytes g (c ++ (encode_all ks ++ rest)) h.1.1.0),
        children_back (read_node depth) ks js rest h.1.1.1.0 back,
      )
      refl
  where
    p : Bytes
    p = part (schema k).has_str (write_bytes s)

    q : Bytes
    q = part (schema k).has_u (write_word k u)

    r : Bytes
    r = part (schema k).has_mag (write_bytes g)

    c : Bytes
    c = write_uvarint (length (to_list ks))

    onto_g : Bytes
    onto_g = r ++ (c ++ (encode_all ks ++ rest))

kids_size :
    (k : Kind) (s : Str) (u : ℕ) (g : List ℕ) (ks : Nodes) (fuel : ℕ)
    → length (encode_node (node k s u g ks)) ≤ suc fuel
    → length (encode_all ks) ≤ fuel
unfolding encode_node write_fields
kids_size k s u g ks fuel h =
    go
      (part (schema k).has_str (write_bytes s)
        ++ (part (schema k).has_u (write_word k u) ++ part (schema k).has_mag (write_bytes g)))
      (write_uvarint (length (to_list ks))) (encode_all ks) h
  where
    go : (p c a : Bytes) → suc (length (p ++ (c ++ a))) ≤ suc fuel → length a ≤ fuel
    go p c a h = omega (arith, h, length-append p (c ++ a), length-append c a)

mutual
  unfolding read_kids encode_all in_schema FitsWords

  node_back :
      (fuel : ℕ) (n : Node) (rest : Bytes)
      → FitsWords n
      → length (encode_node n) ≤ fuel
      → read_node fuel (encode_node n ++ rest) ≡ some (in_schema n, rest)
  node_back zero n rest h few = absurd (omega (arith, few, node_size n))
  node_back (suc fuel) (node k s u g ks) rest h few =
      fields_back fuel k s u g ks (all_in_schema ks) rest h
        (kids_back fuel ks rest h.1.1.1.1 (kids_size k s u g ks fuel few))

  kids_back :
      (fuel : ℕ) (ns : Nodes) (rest : Bytes)
      → AllFitWords ns
      → length (encode_all ns) ≤ fuel
      → read_kids (read_node fuel) (length (to_list ns)) (encode_all ns ++ rest)
        ≡ some (all_in_schema ns, rest)
  kids_back fuel nil rest h few = refl
  kids_back fuel (cons n ns) rest h few =
      rw
        (
          append_assoc (encode_node n) (encode_all ns) rest,
          node_back fuel n (encode_all ns ++ rest) h.0
              (omega (arith, few, length-append (encode_node n) (encode_all ns))),
          kids_back fuel ns rest h.1
              (omega (arith, few, length-append (encode_node n) (encode_all ns))),
        )
        refl

-- A tree whose sizes and words are uint64s is decoded from its bytes, with the fields that its kinds
-- have; a further byte is refused.
pub decode_node-encode_node :
    (n : Node) (b : ℕ) (bs : Bytes)
    → FitsWords n
    → (decode_node (encode_node n) ≡ some (in_schema n))
      × (decode_node (encode_node n ++ b ∷ bs) ≡ none)
unfolding decode_node
decode_node-encode_node n b bs h = (alone, followed)
  where
    alone : whole_node (read_node (length (encode_node n)) (encode_node n)) ≡ some (in_schema n)
    alone = ap whole_node (
        ap (read_node (length (encode_node n))) (sym (append-nil (encode_node n)))
        ∙ node_back (length (encode_node n)) n [] h (omega arith))

    followed :
        whole_node (read_node (length (encode_node n ++ b ∷ bs)) (encode_node n ++ b ∷ bs)) ≡ none
    followed =
        rw
          (node_back (length (encode_node n ++ b ∷ bs)) n (b ∷ bs) h
            (omega (arith, length-append (encode_node n) (b ∷ bs))))
          refl

-- Two trees have the same bytes exactly when they agree in the fields that their kinds have.
pub encode_node_faithful :
    (a b : Node)
    → FitsWords a
    → FitsWords b
    → (encode_node a ≡ encode_node b) ↔ (in_schema a ≡ in_schema b)
encode_node_faithful a b h k = (same_tree, same_bytes)
  where
    same_some : some (in_schema a) ≡ some (in_schema b) → in_schema a ≡ in_schema b
    same_some e = cc e

    same_tree : encode_node a ≡ encode_node b → in_schema a ≡ in_schema b
    same_tree e = same_some (
        sym ((decode_node-encode_node a 0 [] h).0)
        ∙ (ap decode_node e ∙ (decode_node-encode_node b 0 [] k).0))

    same_bytes : in_schema a ≡ in_schema b → encode_node a ≡ encode_node b
    same_bytes e = sym (encode_node-in_schema a) ∙ (ap encode_node e ∙ encode_node-in_schema b)
