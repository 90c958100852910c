-- ===== src/Base/Sort.antt =====
-- Go's sort.SliceStable by a key that bytes.Compare compares, as insertion from the right: an element
-- stays before the later ones of an equal key.

use regel.Base.Tests.{if◌then◌else◌, Bool-cases}
use regel.Base.Text.{Str, str_lt}
use mathlib.Core.Path.{◌≡◌, refl, sym, ap, ap₂, ◌∙◌}
use mathlib.Core.Logic.{inl, inr}
use mathlib.Core.Bool.{true, false}
use mathlib.Core.List.{List, [], ◌∷◌, map, Permᴰ}
use native.Mathlib.Omega.{arith}

unfoldable pub insert_by : {A : Type 0} → (A → Str) → A → List A → List A
unfolding str_lt
insert_by key x [] = x ∷ []
insert_by key x (y ∷ ys) =
    let rest = insert_by key x ys in if str_lt (key y) (key x) then y ∷ rest else x ∷ y ∷ ys

unfoldable pub sort_by : {A : Type 0} → (A → Str) → List A → List A
unfolding insert_by
sort_by key [] = []
sort_by key (x ∷ xs) = insert_by key x (sort_by key xs)

-- The order of byte strings is linear.
str_lt_asym : (x y : Str) → str_lt x y ≡ true → str_lt y x ≡ false
unfolding str_lt
str_lt_asym [] [] h = ground arith
str_lt_asym [] (b ∷ ys) h = ground arith
str_lt_asym (a ∷ xs) [] h = ground arith
str_lt_asym (a ∷ xs) (b ∷ ys) h = ground (arith, str_lt_asym xs ys)

str_lt_trans : (x y z : Str) → str_lt x y ≡ true → str_lt y z ≡ true → str_lt x z ≡ true
unfolding str_lt
str_lt_trans x y [] h k = ground arith
str_lt_trans x [] (c ∷ zs) h k = ground arith
str_lt_trans [] (b ∷ ys) (c ∷ zs) h k = refl
str_lt_trans (a ∷ xs) (b ∷ ys) (c ∷ zs) h k = ground (arith, str_lt_trans xs ys zs)

str_lt_linear : (x y : Str) → str_lt x y ≡ false → str_lt y x ≡ false → x ≡ y
unfolding str_lt
str_lt_linear [] [] h k = refl
str_lt_linear [] (b ∷ ys) h k = ground arith
str_lt_linear (a ∷ xs) [] h k = ground arith
str_lt_linear (a ∷ xs) (b ∷ ys) h k = ground (arith, str_lt_linear xs ys)

abbrev insert : Str → List Str → List Str
insert = insert_by (λ s. s)

abbrev sort : List Str → List Str
sort = sort_by (λ s. s)

map-insert_by :
    {A : Type 0} (key : A → Str) (x : A) (ys : List A)
    → map key (insert_by key x ys) ≡ insert (key x) (map key ys)
unfolding insert_by
map-insert_by key x [] = refl
map-insert_by key x (y ∷ ys) = elim (Bool-cases (str_lt (key y) (key x))) [
  | inl t ↦ rw t (ap (λ l. key y ∷ l) (map-insert_by key x ys))
  | inr t ↦ rw t refl
]

map-sort_by :
    {A : Type 0} (key : A → Str) (xs : List A) → map key (sort_by key xs) ≡ sort (map key xs)
unfolding sort_by
map-sort_by key [] = refl
map-sort_by key (x ∷ xs) =
    map-insert_by key x (sort_by key xs) ∙ ap (insert (key x)) (map-sort_by key xs)

insert_lower :
    (x y : Str) (zs : List Str)
    → str_lt x y ≡ true
    → insert x (insert y zs) ≡ insert y (insert x zs)
unfolding insert_by
insert_lower x y [] h = rw (h, str_lt_asym x y h) refl
insert_lower x y (z ∷ zs) h = elim (Bool-cases (str_lt z x)) [
  | inl t ↦
      rw (str_lt_trans z x y t h, t, str_lt_trans z x y t h)
        (ap (λ l. z ∷ l) (insert_lower x y zs h))
  | inr f ↦ elim (Bool-cases (str_lt z y)) [
    | inl t ↦ rw (t, f, h, t) refl
    | inr g ↦ rw (g, f, str_lt_asym x y h, h, g) refl
  ]
]

insert_twice : (x y : Str) (zs : List Str) → insert x (insert y zs) ≡ insert y (insert x zs)
insert_twice x y zs = elim (Bool-cases (str_lt x y)) [
  | inl t ↦ insert_lower x y zs t
  | inr f ↦ elim (Bool-cases (str_lt y x)) [
    | inl t ↦ sym (insert_lower y x zs t)
    | inr g ↦
        ap₂ (λ a b. insert a (insert b zs)) (str_lt_linear x y f g) (sym (str_lt_linear x y f g))
  ]
]

sort_keys-Permᴰ :
    {A : Type 0} (key : A → Str) {xs ys : List A}
    → Permᴰ xs ys
    → sort (map key xs) ≡ sort (map key ys)
unfolding sort_by
sort_keys-Permᴰ key Permᴰ.nil = refl
sort_keys-Permᴰ key (Permᴰ.cons e q) = ap₂ insert (ap key e) (sort_keys-Permᴰ key q)
sort_keys-Permᴰ key (Permᴰ.swap {a} {b} {a'} {b'} {l} d e) =
    insert_twice (key a) (key b) (sort (map key l))
    ∙ ap₂ (λ u v. insert u (insert v (sort (map key l)))) (ap key e) (ap key d)
sort_keys-Permᴰ key (Permᴰ.trans q r) = sort_keys-Permᴰ key q ∙ sort_keys-Permᴰ key r

-- The order of a sorted list does not depend on the order that it had.
pub sort_by-Permᴰ :
    {A : Type 0} (key : A → Str) {xs ys : List A}
    → Permᴰ xs ys
    → map key (sort_by key xs) ≡ map key (sort_by key ys)
sort_by-Permᴰ key {xs} {ys} p =
    map-sort_by key xs ∙ (sort_keys-Permᴰ key p ∙ sym (map-sort_by key ys))

-- No later neighbour has a lower key.
abbrev HeadOk : {A : Type 0} → (A → Str) → A → List A → Type 0
HeadOk key x [] = Unit
HeadOk key x (y ∷ ys) = str_lt (key y) (key x) ≡ false

abbrev Sorted : {A : Type 0} → (A → Str) → List A → Type 0
Sorted key [] = Unit
Sorted key (x ∷ xs) = HeadOk key x xs × Sorted key xs

insert_by-HeadOk :
    {A : Type 0} (key : A → Str) (m x : A) (ys : List A)
    → str_lt (key x) (key m) ≡ false
    → HeadOk key m ys
    → HeadOk key m (insert_by key x ys)
unfolding insert_by
insert_by-HeadOk key m x [] h k = h
insert_by-HeadOk key m x (y ∷ ys) h k = elim (Bool-cases (str_lt (key y) (key x))) [
  | inl t ↦ rw t k
  | inr t ↦ rw t h
]

insert_by-Sorted :
    {A : Type 0} (key : A → Str) (x : A) (ys : List A)
    → Sorted key ys
    → Sorted key (insert_by key x ys)
unfolding insert_by
insert_by-Sorted key x [] h = (tt, tt)
insert_by-Sorted key x (y ∷ ys) h = elim (Bool-cases (str_lt (key y) (key x))) [
  | inl t ↦ rw t (
    insert_by-HeadOk key y x ys (str_lt_asym (key y) (key x) t) h.0,
    insert_by-Sorted key x ys h.1,
  )
  | inr t ↦ rw t (t, h)
]

sort_by-Sorted : {A : Type 0} (key : A → Str) (xs : List A) → Sorted key (sort_by key xs)
unfolding sort_by
sort_by-Sorted key [] = tt
sort_by-Sorted key (x ∷ xs) = insert_by-Sorted key x (sort_by key xs) (sort_by-Sorted key xs)

insert_by_head :
    {A : Type 0} (key : A → Str) (x : A) (ys : List A)
    → HeadOk key x ys
    → insert_by key x ys ≡ x ∷ ys
unfolding insert_by
insert_by_head key x [] h = refl
insert_by_head key x (y ∷ ys) h = rw h refl

sort_by_same : {A : Type 0} (key : A → Str) (xs : List A) → Sorted key xs → sort_by key xs ≡ xs
unfolding sort_by
sort_by_same key [] h = refl
sort_by_same key (x ∷ xs) h =
    ap (insert_by key x) (sort_by_same key xs h.1) ∙ insert_by_head key x xs h.0

pub sort_by_twice :
    {A : Type 0} (key : A → Str) (xs : List A) → sort_by key (sort_by key xs) ≡ sort_by key xs
sort_by_twice key xs = sort_by_same key (sort_by key xs) (sort_by-Sorted key xs)

cons_same : {A : Type 0} (x y : A) (xs ys : List A) → x ∷ xs ≡ y ∷ ys → (x ≡ y) × (xs ≡ ys)
cons_same x y xs ys e =
    (ap (λ l. elim l [ [] ↦ x | a ∷ as' ↦ a ]) e, ap (λ l. elim l [ [] ↦ xs | a ∷ as' ↦ as' ]) e)

insert_by-map :
    {A : Type 0} (key : A → Str) (f : A → A) (x : A) (ys : List A)
    → f x ≡ x
    → map f ys ≡ ys
    → map f (insert_by key x ys) ≡ insert_by key x ys
unfolding insert_by
insert_by-map key f x [] e h = ap₂ ◌∷◌ e h
insert_by-map key f x (y ∷ ys) e h = elim (Bool-cases (str_lt (key y) (key x))) [
  | inl t ↦
      rw t
        (let q = cons_same (f y) y (map f ys) ys h in ap₂ ◌∷◌ q.0 (insert_by-map key f x ys e q.1))
  | inr t ↦ rw t (ap₂ ◌∷◌ e h)
]

-- Sorting changes no element.
pub sort_by-map :
    {A : Type 0} (key : A → Str) (f : A → A) (xs : List A)
    → map f xs ≡ xs
    → map f (sort_by key xs) ≡ sort_by key xs
unfolding sort_by
sort_by-map key f [] h = refl
sort_by-map key f (x ∷ xs) h =
    let q = cons_same (f x) x (map f xs) xs h in
    insert_by-map key f x (sort_by key xs) q.0 (sort_by-map key f xs q.1)
