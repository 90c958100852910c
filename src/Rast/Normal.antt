-- ===== src/Rast/Normal.antt =====
-- internal/rast/normalize.go: the order of the set-like members of a type is the order of their bytes, so
-- that it does not count in the address.
pub mod Laws
pub mod Order
use regel.Base.{
  ℕ, zero, suc, Bool, true, false, ◌&&◌, Option, none, some, List, [], ◌∷◌, length, leb,
  if◌then◌else◌,
}
use regel.Base.Sort.{sort_by}
use regel.Rast.{Kind, Node, Nodes, node, nil, cons, to_list}
use regel.Rast.Codec.{encode_node}

abbrev pub from_list : List Node → Nodes
from_list [] = nil
from_list (n ∷ ns) = cons n (from_list ns)

abbrev pub is_list : Kind → Bool
is_list Kind.list = true
is_list _ = false

-- The elements in the order of their canonical encodings.
unfoldable pub by_encoding : Nodes → Nodes
unfolding sort_by
by_encoding ns = from_list (sort_by encode_node (to_list ns))

-- `sortListChild`, at the child: only a list of two elements or more is sorted.
unfoldable pub sort_list : Node → Node
unfolding by_encoding
sort_list (node k s u g ks) =
    node k s u g (if is_list k && leb 2 (length (to_list ks)) then by_encoding ks else ks)

-- `sortListChild`: no child, no change.
unfoldable pub sort_list_child : ℕ → Nodes → Nodes
unfolding sort_list
sort_list_child i nil = nil
sort_list_child zero (cons n ns) = cons (sort_list n) ns
sort_list_child (suc i) (cons n ns) = cons n (sort_list_child i ns)

-- The `switch` of `Normalize`: which child holds the members of a set.
unfoldable pub set_child : Kind → Option ℕ
set_child Kind.t_union = some 0
set_child Kind.t_inter = some 0
set_child Kind.t_object = some 0
set_child Kind.interface = some 1
set_child _ = none

abbrev pub reorder : Option ℕ → Nodes → Nodes
reorder none ks = ks
reorder (some i) ks = sort_list_child i ks

unfoldable mutual
  unfolding set_child sort_list_child

  -- `func Normalize`
  pub normalize : Node → Node
  normalize (node k s u g ks) = node k s u g (reorder (set_child k) (normalize_all ks))

  pub normalize_all : Nodes → Nodes
  normalize_all nil = nil
  normalize_all (cons n ns) = cons (normalize n) (normalize_all ns)
