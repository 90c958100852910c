-- ===== src/Rast/Normal/Order.antt =====
-- The order in which the members of a union, an intersection, an object type or an interface are written
-- does not count in the bytes that `Address` of internal/rast/address.go hashes.
use mathlib.Core.List.{Permᴰ}
use mathlib.Core.List.Permᴰ
use regel.Base.{
  ℕ, suc, ◌≡◌, refl, sym, ap, ◌∙◌, true, some, List, [], ◌∷◌, ◌++◌, length, leb, if◌then◌else◌, map,
  Str, arith,
}
use regel.Base.Sort.{sort_by, sort_by-Permᴰ}
use regel.Rast.{Kind, Node, Nodes, node, nil, cons, to_list}
use regel.Rast.Codec.{encode_node, encode_all}
use regel.Rast.Normal.{
  from_list, by_encoding, sort_list, sort_list_child, set_child, normalize, normalize_all,
}
use regel.Rast.Normal.Laws.{to_list-from_list, to_list-normalize_all}
use regel.Cfr.Encode.{in_turn}

-- The node that holds the members.
abbrev pub members : List Node → Node
members ns = node Kind.list [] 0 [] (from_list ns)

abbrev SameBytes : Nodes → Nodes → Type 0
SameBytes ns ms = (length (to_list ns) ≡ length (to_list ms)) × (encode_all ns ≡ encode_all ms)

encode_all-from_list : (ns : List Node) → encode_all (from_list ns) ≡ in_turn (map encode_node ns)
unfolding encode_all
encode_all-from_list [] = refl
encode_all-from_list (n ∷ ns) = ap (λ l. encode_node n ++ l) (encode_all-from_list ns)

length-from_list : (ns : List Node) → length (to_list (from_list ns)) ≡ length (map encode_node ns)
length-from_list [] = refl
length-from_list (n ∷ ns) = ap suc (length-from_list ns)

from_list-SameBytes :
    (ns ms : List Node)
    → map encode_node ns ≡ map encode_node ms
    → SameBytes (from_list ns) (from_list ms)
from_list-SameBytes ns ms e = (
  length-from_list ns ∙ (ap length e ∙ sym (length-from_list ms)),
  encode_all-from_list ns ∙ (ap in_turn e ∙ sym (encode_all-from_list ms)),
)

encode_node-SameBytes :
    (k : Kind) (s : Str) (u : ℕ) (g : List ℕ) (ns ms : Nodes)
    → SameBytes ns ms
    → encode_node (node k s u g ns) ≡ encode_node (node k s u g ms)
unfolding encode_node
encode_node-SameBytes k s u g ns ms h = rw (h.0, h.1) refl

by_encoding-short :
    (ks : Nodes) → (if leb 2 (length (to_list ks)) then by_encoding ks else ks) ≡ by_encoding ks
unfolding by_encoding sort_by
by_encoding-short nil = refl
by_encoding-short (cons n nil) = refl
by_encoding-short (cons n (cons m ms)) = rw (long (length (to_list ms))) refl
  where
    long : (j : ℕ) → leb 2 (suc (suc j)) ≡ true
    long j = ground arith

to_list-normalized : (xs : List Node) → to_list (normalize_all (from_list xs)) ≡ map normalize xs
to_list-normalized xs =
    to_list-normalize_all (from_list xs) ∙ ap (map normalize) (to_list-from_list xs)

sorted_members :
    (xs : List Node)
    → sort_list (normalize (members xs)) ≡ members (sort_by encode_node (map normalize xs))
unfolding sort_list normalize set_child by_encoding
sorted_members xs = ap (node Kind.list [] 0 []) (
    by_encoding-short (normalize_all (from_list xs))
    ∙ ap (λ l. from_list (sort_by encode_node l)) (to_list-normalized xs))

members-Permᴰ :
    {xs ys : List Node}
    → Permᴰ xs ys
    → encode_node (sort_list (normalize (members xs)))
      ≡ encode_node (sort_list (normalize (members ys)))
members-Permᴰ {xs} {ys} p =
    ap encode_node (sorted_members xs)
    ∙ (encode_node-SameBytes Kind.list [] 0 [] _ _ (
          from_list-SameBytes (sort_by encode_node (map normalize xs))
            (sort_by encode_node (map normalize ys))
            (sort_by-Permᴰ encode_node (Permᴰ.map normalize p)))
        ∙ sym (ap encode_node (sorted_members ys)))

-- The children of a node, with the members after so many others.
abbrev pub around : List Node → List Node → List Node → Nodes
around before xs after = from_list (before ++ members xs ∷ after)

around-Permᴰ :
    (before after : List Node) {xs ys : List Node}
    → Permᴰ xs ys
    → SameBytes
        (sort_list_child (length before) (normalize_all (around before xs after)))
        (sort_list_child (length before) (normalize_all (around before ys after)))
unfolding sort_list_child normalize_all encode_all
around-Permᴰ [] after p =
    (refl, ap (λ l. l ++ encode_all (normalize_all (from_list after))) (members-Permᴰ p))
around-Permᴰ (b ∷ bs) after p =
    let h = around-Permᴰ bs after p in (ap suc h.0, ap (λ l. encode_node (normalize b) ++ l) h.1)

-- Two trees that differ in the order of the members of a set have, normalized, the same bytes.
pub encode_node-normalize :
    (k : Kind) (s : Str) (u : ℕ) (g : List ℕ) (before after : List Node) {xs ys : List Node}
    → set_child k ≡ some (length before)
    → Permᴰ xs ys
    → encode_node (normalize (node k s u g (around before xs after)))
      ≡ encode_node (normalize (node k s u g (around before ys after)))
unfolding normalize
encode_node-normalize k s u g before after {xs} {ys} e p =
    rw e (encode_node-SameBytes k s u g _ _ (around-Permᴰ before after p))
