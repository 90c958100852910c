-- ===== src/Rast/Fits.antt =====
-- Which trees a node path can address: a path index is a uint16, so a child's index must be below
-- 65536. `fits` also rules out the do-while statement,
-- and asks that a function has its four children, the last of which is the body.
use regel.Base.{
  ℕ, zero, suc, ◌<◌, ◌≤◌, ◌≡◌, refl, List, [], ◌∷◌, leb→le, Bool, true, false, ◌&&◌, some, length,
  get_elem?, leb, lt_of_get_elem?, arith, if◌then◌else◌,
}
use regel.Rast.{Kind, Node, Nodes, node, nil, cons, to_list, kind, kids}

abbrev pub is_do_while : Kind → Bool
is_do_while Kind.do_while = true
is_do_while _ = false

abbrev pub is_func : Kind → Bool
is_func Kind.func = true
is_func _ = false

unfoldable mutual
  pub fits : Node → Bool
  fits (node k s u g ks) =
      (if is_do_while k then false else true)
      && leb (length (to_list ks)) 65536
      && (if is_func k then leb 4 (length (to_list ks)) else true)
      && fits_all ks

  pub fits_all : Nodes → Bool
  fits_all nil = true
  fits_all (cons n ns) = fits n && fits_all ns

fits_all_elem :
    (ns : Nodes) (i : ℕ) (c : Node)
    → fits_all ns ≡ true
    → get_elem? (to_list ns) i ≡ some c
    → fits c ≡ true
unfolding fits_all
fits_all_elem nil i c h e = ground arith
fits_all_elem (cons n ns) zero c h e = ground arith
fits_all_elem (cons n ns) (suc i) c h e = fits_all_elem ns i c (ground arith) e

-- Every child of a tree that fits has a 16-bit index and fits.
pub fits-kids :
    (n : Node) (i : ℕ) (c : Node)
    → fits n ≡ true
    → get_elem? (kids n) i ≡ some c
    → (i < 65536) × (fits c ≡ true)
unfolding fits
fits-kids (node k s u g ks) i c h e =
    ground (arith, fits_all_elem ks i c, lt_of_get_elem? (to_list ks) i c e)

pub fits-do_while : (n : Node) → fits n ≡ true → is_do_while (kind n) ≡ false
unfolding fits
fits-do_while (node k s u g ks) h = ground arith

-- A function that fits has a body.
pub fits-func :
    (n : Node) → fits n ≡ true → kind n ≡ Kind.func → (c : Node) × (get_elem? (kids n) 3 ≡ some c)
unfolding fits
fits-func (node k s u g ks) h e = fourth (to_list ks) (four k (to_list ks) e (ground (arith, h)))
  where
    four :
        (j : Kind) (xs : List Node)
        → j ≡ Kind.func
        → (if is_func j then leb 4 (length xs) else true) ≡ true
        → 4 ≤ length xs
    four j xs q z = leb→le 4 (length xs) (rw q at z)

    fourth : (xs : List Node) → 4 ≤ length xs → (c : Node) × (get_elem? xs 3 ≡ some c)
    fourth [] z = absurd (omega (arith, z))
    fourth (a ∷ []) z = absurd (omega (arith, z))
    fourth (a ∷ b ∷ []) z = absurd (omega (arith, z))
    fourth (a ∷ b ∷ c ∷ []) z = absurd (omega (arith, z))
    fourth (a ∷ b ∷ c ∷ d ∷ xs) z = (d, refl)
