-- ===== src/Cfr/Load/Cells.antt =====
-- The values of internal/cfr/decode.go are written again as they were read.
use regel.Base.{
  ℕ, zero, suc, ◌+◌, ◌-◌, ◌≤◌, ◌<◌, ◌≡◌, refl, ap, ◌∙◌, true, ◌||◌, some, List, [], ◌∷◌, length,
  get_elem?, set, length-set, get_elem?-set_ne, length-append, get_elem?-append_left,
  get_elem?-append_right, ltb, leb, arith, Str,
}
use regel.Cek.Value.{Value, Object, closure_obj, opaque_obj, Heap, alloc, closure_at, as_closure}
use regel.Cek.Value.{Path16}
use regel.Cfr.Form.{Cell}
use regel.Cfr.Decode.{tag_at, ref_is, env_ref_ok}
use regel.Cfr.Image.{place, ref_of, ref_or_nil, cell_of, all_of}
use regel.Cfr.Codec.Fits.{All, CellFits}
use regel.Cfr.Load.{pointer, load_cell, load_cells}

abbrev pub range : ℕ → ℕ → List ℕ
range i zero = []
range i (suc k) = i ∷ range (suc i) k

-- The addresses of the table.
abbrev pub ids : ℕ → List ℕ
ids n = range 0 n

place-range : (i k j : ℕ) → j < k → place (range i k) (i + j) ≡ some j
unfolding place
place-range i zero j h = absurd (omega (arith, h))
place-range i (suc k) zero h = ground arith
place-range i (suc k) (suc j) h =
    rw (add_suc i j, place-range (suc i) k j (omega (arith, h))) (ground arith)
  where
    add_suc : (i j : ℕ) → i + suc j ≡ suc i + j
    add_suc i j = omega arith

tag_at-bound : (types : List ℕ) (i : ℕ) → 0 < tag_at types i → i < length types
tag_at-bound [] i h = absurd (omega (arith, h))
tag_at-bound (t ∷ ts) zero h = omega arith
tag_at-bound (t ∷ ts) (suc i) h = omega (arith, tag_at-bound ts i h)

pub ref_of-pointer : (n r : ℕ) → r ≤ n → ref_of (ids n) (pointer r) ≡ r
unfolding ref_of
ref_of-pointer n zero h = refl
ref_of-pointer n (suc i) h =
    ap (λ (a : ℕ). ref_or_nil (place (ids n) a)) (zero_add i)
    ∙ rw (place-range 0 n i (omega (arith, h))) refl
  where
    zero_add : (i : ℕ) → i ≡ 0 + i
    zero_add i = omega arith

-- A reference to an object of a kind.
ref_is-bound :
    (tag : ℕ) (types : List ℕ) (r : ℕ)
    → ref_is (suc tag) types r ≡ true
    → (0 < r) × (r ≤ length types)
unfolding ref_is
ref_is-bound tag types zero h = absurd (ground (arith, h))
ref_is-bound tag types (suc i) h =
    (omega arith, omega (arith, tag_at-bound types i (ground (arith, h))))

pub env_ref-bound : (types : List ℕ) (r : ℕ) → env_ref_ok types r ≡ true → r ≤ length types
unfolding env_ref_ok
env_ref-bound types zero h = omega arith
env_ref-bound types (suc i) h = (ref_is-bound 0 types (suc i) (ground (arith, h))).1

pointer_pred : (r : ℕ) → 0 < r → some (r - 1) ≡ pointer r
pointer_pred zero h = absurd (omega (arith, h))
pointer_pred (suc i) h = ap some (omega arith)

-- A heap that has grown: what is below `i`, or not below `n`, is as it was.
pub record Kept (i n : ℕ) (h h' : Heap) : Type 0 where
  pub same : (a : ℕ) → (ltb a i || leb n a) ≡ true → a < length h → get_elem? h' a ≡ get_elem? h a
  pub longer : length h ≤ length h'

pub Kept-refl : (i n : ℕ) (h : Heap) → Kept i n h h
Kept-refl i n h = record { same = λ a p l. refl; longer = omega arith }

pub Kept-trans : (i n : ℕ) (h1 h2 h3 : Heap) → Kept i n h1 h2 → Kept i n h2 h3 → Kept i n h1 h3
Kept-trans i n h1 h2 h3 p q = record {
  same = λ a t l. q.same a t (omega (arith, l, p.longer)) ∙ p.same a t l;
  longer = omega (arith, p.longer, q.longer);
}

pub Kept-weaken : (i j n : ℕ) (h h' : Heap) → i ≤ j → Kept j n h h' → Kept i n h h'
Kept-weaken i j n h h' l k = record {
  same = λ a t m. k.same a (ground (arith, t, l)) m;
  longer = k.longer;
}

pub Kept-alloc : (i n : ℕ) (h : Heap) (o : Object) → Kept i n h (alloc h o)
Kept-alloc i n h o = record {
  same = λ a t l. get_elem?-append_left h (o ∷ []) a l;
  longer = omega (arith, length-append h (o ∷ []));
}

pub Kept-set : (i n : ℕ) (h : Heap) (o : Object) → i < n → Kept i n h (set h i o)
Kept-set i n h o lt = record {
  same = λ a t l. get_elem?-set_ne h i a o (λ e. ground (arith, t, e, lt));
  longer = omega (arith, length-set h i o);
}

-- The new object, in every later heap.
newest :
    (n : ℕ) (h h' : Heap) (o : Object)
    → n ≤ length h
    → Kept 0 n (alloc h o) h'
    → get_elem? h' (length h) ≡ some o
newest n h h' o l k =
    k.same (length h) (ground (arith, l)) (omega (arith, length-append h (o ∷ [])))
    ∙ get_elem?-append_right h (o ∷ []) 0 (length h) (omega arith)

-- A value that is written as a cell, in every later heap.
abbrev pub Reads : ℕ → Heap → Value → Cell → Type 0
Reads n h v c = (h' : Heap) → Kept 0 n h h' → cell_of h' (ids n) v ≡ some c

module _ (n : ℕ) (types : List ℕ) (size : length types ≡ n) where
  ref_read : (tag r : ℕ) → ref_is (suc tag) types r ≡ true → ref_of (ids n) (some (r - 1)) ≡ r
  ref_read tag r h =
      let (p, q) = ref_is-bound tag types r h in
      ap (ref_of (ids n)) (pointer_pred r p) ∙ ref_of-pointer n r (omega (arith, q, size))

  pub env_read : (r : ℕ) → env_ref_ok types r ≡ true → ref_of (ids n) (pointer r) ≡ r
  env_read r h = ref_of-pointer n r (omega (arith, env_ref-bound types r h, size))

  closure_read :
      (h : Heap) (d : Str) (p : Path16) (r : ℕ)
      → n ≤ length h
      → env_ref_ok types r ≡ true
      → Reads n
          (alloc h (closure_obj d p (pointer r)))
          (Value.closure (length h))
          (Cell.closure d p r)
  unfolding cell_of closure_at as_closure
  closure_read h d p r l k h' g =
      rw (newest n h h' (closure_obj d p (pointer r)) l g, env_read r k) refl

  opaque_read :
      (h : Heap) (c : Str) (d : List ℕ)
      → n ≤ length h
      → Reads n (alloc h (opaque_obj c d)) (Value.opaque (length h)) (Cell.opaque c d)
  unfolding cell_of
  opaque_read h c d l h' g = rw (newest n h h' (opaque_obj c d) l g) refl

  pub load_cell-Reads :
      (h : Heap) (c : Cell)
      → n ≤ length h
      → CellFits types c
      → Reads n (load_cell h c).0 (load_cell h c).1 c
  unfolding load_cell cell_of
  load_cell-Reads h Cell.undefined l k h' g = refl
  load_cell-Reads h Cell.null l k h' g = refl
  load_cell-Reads h (Cell.bool b) l k h' g = refl
  load_cell-Reads h (Cell.f64 w) l k h' g = refl
  load_cell-Reads h (Cell.bigint z) l k h' g = refl
  load_cell-Reads h (Cell.str s) l k h' g = refl
  load_cell-Reads h (Cell.array r) l k h' g = ap (λ x. some (Cell.array x)) (ref_read 1 r k.1)
  load_cell-Reads h (Cell.rec r) l k h' g = ap (λ x. some (Cell.rec x)) (ref_read 2 r k.1)
  load_cell-Reads h (Cell.closure d p r) l k h' g = closure_read h d p r l k.2.1 h' g
  load_cell-Reads h (Cell.cap_token s) l k h' g = refl
  load_cell-Reads h (Cell.opaque c d) l k h' g = opaque_read h c d l h' g

  pub load_cell-Kept : (i : ℕ) (h : Heap) (c : Cell) → Kept i n h (load_cell h c).0
  unfolding load_cell
  load_cell-Kept i h (Cell.closure d p r) = Kept-alloc i n h (closure_obj d p (pointer r))
  load_cell-Kept i h (Cell.opaque c d) = Kept-alloc i n h (opaque_obj c d)
  load_cell-Kept i h _ = Kept-refl i n h

  pub load_cells-Kept : (i : ℕ) (h : Heap) (cs : List Cell) → Kept i n h (load_cells h cs).0
  unfolding load_cells
  load_cells-Kept i h [] = Kept-refl i n h
  load_cells-Kept i h (c ∷ cs) =
      Kept-trans i n h _ _ (load_cell-Kept i h c) (load_cells-Kept i (load_cell h c).0 cs)

  pub load_cells-Reads :
      (h : Heap) (cs : List Cell)
      → n ≤ length h
      → All (CellFits types) cs
      → (h' : Heap) → Kept 0 n (load_cells h cs).0 h'
      → all_of (cell_of h' (ids n)) (load_cells h cs).1 ≡ some cs
  unfolding load_cells
  load_cells-Reads h [] l k h' g = refl
  load_cells-Reads h (c ∷ cs) l k h' g =
      rw
        (
          load_cell-Reads h c l k.0 h'
              (Kept-trans 0 n _ _ h' (load_cells-Kept 0 (load_cell h c).0 cs) g),
          load_cells-Reads (load_cell h c).0 cs (omega (arith, l, (load_cell-Kept 0 h c).longer))
              k.1 h' g,
        )
        refl
