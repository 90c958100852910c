-- ===== src/Rast/Equality.antt =====
-- `Equal` of internal/rast/normalize.go decides equality of trees.
use regel.Base.{
  ℕ, ◌≡◌, refl, sym, ap, ap₂, ◌∙◌, ◌==◌, Bool, true, false, ◌&&◌, some, List, Str, str_eq,
  str_eq_refl, str_eq→eq, and_parts, arith, ◌↔◌,
}
use regel.Rast.{Kind, Node, Nodes, node, nil, cons}
use regel.Rast.Schema.{kind_byte, kind_of_byte, kind_of_byte-kind_byte}

-- `func Equal`, on trees without nil; the loop over the children ends at a length that differs.
unfoldable mutual
  unfolding kind_byte str_eq

  pub equal : Node → Node → Bool
  equal (node k s u g ks) (node j t v h js) =
      (kind_byte k == kind_byte j) && (str_eq s t && ((u == v) && (str_eq g h && equal_all ks js)))

  pub equal_all : Nodes → Nodes → Bool
  equal_all nil nil = true
  equal_all (cons m ms) (cons n ns) = equal m n && equal_all ms ns
  equal_all _ _ = false

same_kind : (k j : Kind) → (kind_byte k == kind_byte j) ≡ true → k ≡ j
same_kind k j h = same_some (
    sym (kind_of_byte-kind_byte k)
    ∙ (ap kind_of_byte (same_byte (kind_byte k) (kind_byte j) h) ∙ kind_of_byte-kind_byte j))
  where
    same_byte : (a b : ℕ) → (a == b) ≡ true → a ≡ b
    same_byte a b h = ground arith

    same_some : some k ≡ some j → k ≡ j
    same_some e = cc e

same_word : (u v : ℕ) → (u == v) ≡ true → u ≡ v
same_word u v h = ground arith

same_fields :
    {k j : Kind} {s t : Str} {u v : ℕ} {g h : List ℕ} {ks js : Nodes}
    → k ≡ j
    → s ≡ t
    → u ≡ v
    → g ≡ h
    → ks ≡ js
    → node k s u g ks ≡ node j t v h js
same_fields a b c d e = cc (a, b, c, d, e)

mutual
  unfolding equal

  equal_same : (a b : Node) → equal a b ≡ true → a ≡ b
  equal_same (node k s u g ks) (node j t v h js) e =
      let p = and_parts _ _ e in
      let q = and_parts _ _ p.1 in
      let r = and_parts _ _ q.1 in
      let w = and_parts _ _ r.1 in
      same_fields (same_kind k j p.0) (str_eq→eq s t q.0) (same_word u v r.0) (str_eq→eq g h w.0)
        (equal_all_same ks js w.1)

  equal_all_same : (ks js : Nodes) → equal_all ks js ≡ true → ks ≡ js
  equal_all_same nil nil e = refl
  equal_all_same nil (cons n ns) e = ground arith
  equal_all_same (cons m ms) nil e = ground arith
  equal_all_same (cons m ms) (cons n ns) e =
      let p = and_parts _ _ e in ap₂ cons (equal_same m n p.0) (equal_all_same ms ns p.1)

byte_refl : (a : ℕ) → (a == a) ≡ true
byte_refl a = ground arith

mutual
  unfolding equal

  equal_refl : (a : Node) → equal a a ≡ true
  equal_refl (node k s u g ks) =
      rw (byte_refl (kind_byte k), str_eq_refl s, byte_refl u, str_eq_refl g, equal_all_refl ks)
        refl

  equal_all_refl : (ks : Nodes) → equal_all ks ks ≡ true
  equal_all_refl nil = refl
  equal_all_refl (cons n ns) = rw (equal_refl n, equal_all_refl ns) refl

-- `Equal` answers yes exactly on equal trees.
pub equal_faithful : (a b : Node) → (equal a b ≡ true) ↔ (a ≡ b)
equal_faithful a b = (equal_same a b, λ e. ap (equal a) (sym e) ∙ equal_refl a)
