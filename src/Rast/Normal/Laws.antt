-- ===== src/Rast/Normal/Laws.antt =====
-- What `Normalize` of internal/rast/normalize.go does to a tree: it is done once, and it forgets the order
-- of the members of a set.
use regel.Base.{
  ℕ, zero, suc, ◌≡◌, refl, sym, ap, ap₂, ◌∙◌, Bool, true, false, ◌&&◌, Option, none, some, List, [],
  ◌∷◌, length, leb, if◌then◌else◌, map, Str, Bool-cases, inl, inr, and_parts, arith,
}
use regel.Base.Sort.{sort_by, sort_by_twice, sort_by-map}
use regel.Rast.{Kind, Node, Nodes, node, nil, cons, to_list}
use regel.Rast.Codec.{encode_node}
use regel.Rast.Normal.{
  from_list, is_list, by_encoding, sort_list, sort_list_child, set_child, reorder, normalize,
  normalize_all,
}

pub to_list-from_list : (ns : List Node) → to_list (from_list ns) ≡ ns
to_list-from_list [] = refl
to_list-from_list (n ∷ ns) = ap (λ l. n ∷ l) (to_list-from_list ns)

pub from_list-to_list : (ns : Nodes) → from_list (to_list ns) ≡ ns
from_list-to_list nil = refl
from_list-to_list (cons n ns) = ap (cons n) (from_list-to_list ns)

pub to_list-normalize_all : (ns : Nodes) → to_list (normalize_all ns) ≡ map normalize (to_list ns)
unfolding normalize_all
to_list-normalize_all nil = refl
to_list-normalize_all (cons n ns) = ap (λ l. normalize n ∷ l) (to_list-normalize_all ns)

by_encoding_twice : (ns : Nodes) → by_encoding (by_encoding ns) ≡ by_encoding ns
unfolding by_encoding
by_encoding_twice ns = ap from_list (
    ap (sort_by encode_node) (to_list-from_list (sort_by encode_node (to_list ns)))
    ∙ sort_by_twice encode_node (to_list ns))

-- The list of a set, when its members are as `Normalize` leaves them.
normalize_all-by_encoding :
    (ns : Nodes) → normalize_all ns ≡ ns → normalize_all (by_encoding ns) ≡ by_encoding ns
unfolding by_encoding
normalize_all-by_encoding ns h =
    sym (from_list-to_list (normalize_all (from_list (sort_by encode_node (to_list ns)))))
    ∙ ap from_list (
        to_list-normalize_all (from_list (sort_by encode_node (to_list ns)))
        ∙ (ap (map normalize) (to_list-from_list (sort_by encode_node (to_list ns)))
            ∙ sort_by-map encode_node normalize (to_list ns)
                (sym (to_list-normalize_all ns) ∙ ap to_list h)))

list_kind : (k : Kind) → is_list k ≡ true → set_child k ≡ none
unfolding set_child
list_kind Kind.list h = refl
list_kind _ h = ground (arith, h)

abbrev sorts : Kind → Nodes → Bool
sorts k ks = is_list k && leb 2 (length (to_list ks))

sort_list_twice : (n : Node) → sort_list (sort_list n) ≡ sort_list n
unfolding sort_list
sort_list_twice (node k s u g ks) = elim (Bool-cases (sorts k ks)) [
  | inr f ↦ rw (f, f) refl
  | inl t ↦ rw t (ap (node k s u g) (again (sorts k (by_encoding ks))))
]
  where
    again :
        (b : Bool) → (if b then by_encoding (by_encoding ks) else by_encoding ks) ≡ by_encoding ks
    again true = by_encoding_twice ks
    again false = refl

node_kids :
    (k : Kind) (s : Str) (u : ℕ) (g : List ℕ) (ks js : Nodes)
    → node k s u g ks ≡ node k s u g js
    → ks ≡ js
node_kids k s u g ks js e = ap (λ n. elim n [ node k' s' u' g' ks' ↦ ks' ]) e

normalize-sort_list : (n : Node) → normalize n ≡ n → normalize (sort_list n) ≡ sort_list n
unfolding sort_list normalize
normalize-sort_list (node k s u g ks) h = elim (Bool-cases (sorts k ks)) [
  | inr f ↦ rw f h
  | inl t ↦ rw t (
      let plain = list_kind k ((and_parts (is_list k) (leb 2 (length (to_list ks))) t).0) in
      rw plain (
        ap (node k s u g)
          (normalize_all-by_encoding ks (node_kids k s u g (normalize_all ks) ks (rw plain at h)))))
]

sort_list_child_twice :
    (i : ℕ) (ks : Nodes) → sort_list_child i (sort_list_child i ks) ≡ sort_list_child i ks
unfolding sort_list_child
sort_list_child_twice i nil = refl
sort_list_child_twice zero (cons n ns) = ap (λ m. cons m ns) (sort_list_twice n)
sort_list_child_twice (suc i) (cons n ns) = ap (cons n) (sort_list_child_twice i ns)

cons_parts : (m n : Node) (ms ns : Nodes) → cons m ms ≡ cons n ns → (m ≡ n) × (ms ≡ ns)
cons_parts m n ms ns e = (
  ap (λ l. elim l [ nil ↦ m | cons a as' ↦ a ]) e,
  ap (λ l. elim l [ nil ↦ ms | cons a as' ↦ as' ]) e,
)

normalize_all-sort_list_child :
    (i : ℕ) (ks : Nodes)
    → normalize_all ks ≡ ks
    → normalize_all (sort_list_child i ks) ≡ sort_list_child i ks
unfolding sort_list_child normalize_all
normalize_all-sort_list_child i nil h = refl
normalize_all-sort_list_child zero (cons n ns) h =
    let q = cons_parts (normalize n) n (normalize_all ns) ns h in
    ap₂ cons (normalize-sort_list n q.0) q.1
normalize_all-sort_list_child (suc i) (cons n ns) h =
    let q = cons_parts (normalize n) n (normalize_all ns) ns h in
    ap₂ cons q.0 (normalize_all-sort_list_child i ns q.1)

reorder_twice : (o : Option ℕ) (ks : Nodes) → reorder o (reorder o ks) ≡ reorder o ks
reorder_twice none ks = refl
reorder_twice (some i) ks = sort_list_child_twice i ks

normalize_all-reorder :
    (o : Option ℕ) (ks : Nodes)
    → normalize_all ks ≡ ks
    → normalize_all (reorder o ks) ≡ reorder o ks
normalize_all-reorder none ks h = h
normalize_all-reorder (some i) ks h = normalize_all-sort_list_child i ks h

mutual
  unfolding normalize

  normalize_twice : (n : Node) → normalize (normalize n) ≡ normalize n
  normalize_twice (node k s u g ks) = ap (node k s u g) (
      ap (reorder (set_child k))
        (normalize_all-reorder (set_child k) (normalize_all ks) (normalize_all_twice ks))
      ∙ reorder_twice (set_child k) (normalize_all ks))

  normalize_all_twice : (ns : Nodes) → normalize_all (normalize_all ns) ≡ normalize_all ns
  normalize_all_twice nil = refl
  normalize_all_twice (cons n ns) = ap₂ cons (normalize_twice n) (normalize_all_twice ns)

-- To normalize a normalized tree changes nothing.
pub normalize-normalize : (n : Node) → normalize (normalize n) ≡ normalize n
normalize-normalize = normalize_twice
