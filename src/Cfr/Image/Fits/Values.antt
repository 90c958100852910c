-- ===== src/Cfr/Image/Fits/Values.antt =====
-- The values of internal/cfr get cells that fit.
use regel.Base.{
  ℕ, suc, ◌<◌, ◌≡◌, refl, ap, ◌∙◌, true, Option, none, some, List, [], ◌∷◌, length, get_elem?, map,
  ◌==◌, ◌>>=◌, arith, Bool-cases, inl, inr, Str,
}
use regel.Cek.Value.{Value, Heap, ClosureObj, closure_at}
use regel.Cfr.Form.{Cell}
use regel.Cfr.Decode.{tag_at, ref_is, env_ref_ok}
use regel.Cfr.Intern.{mem, kind_at, closure_env, target}
use regel.Cfr.Intern.Reach.{Placed}
use regel.Cfr.Image.{place, ref_of, opaque_parts, cell_of, all_of}
use regel.Cfr.Codec.Fits.{All, Short, RefFits, EnvFits, CellFits}
use regel.Cfr.Image.Fits.{EnvPointer, ClosureFits, OpaqueFits, ValueFits}

place-mem :
    (t : List ℕ) (a : ℕ) (f : ℕ → ℕ)
    → mem a t ≡ true
    → (i : ℕ) × (place t a ≡ some i) × (i < length t) × (tag_at (map f t) i ≡ f a)
unfolding place
place-mem [] a f h = absurd (ground (arith, h))
place-mem (b ∷ bs) a f h = elim (Bool-cases (b == a)) [
  | inl t ↦ (0, rw t refl, omega arith, ap f (ground (arith, t)))
  | inr t ↦
      let (i, q, l, k) = place-mem bs a f (ground (arith, t, h)) in
      (suc i, rw (t, q) refl, omega (arith, l), k)
]

module _ (h : Heap) (t : List ℕ) where
  -- The kinds of the objects of the table.
  abbrev pub kinds : List ℕ
  kinds = map (kind_at h) t

  pub placed_ref :
      (tag a : ℕ)
      → Short t
      → mem a t ≡ true
      → kind_at h a ≡ tag
      → RefFits kinds tag (ref_of t (some a))
  unfolding ref_of ref_is
  placed_ref tag a few m k =
      let (i, q, l, e) = place-mem t a (kind_at h) m in
      rw q (omega (arith, few, l), rw (e ∙ k) (ground arith))

  pub Placed-env :
      (e : Option ℕ) → Short t → Placed t e → EnvPointer h e → EnvFits kinds (ref_of t e)
  unfolding ref_of env_ref_ok
  Placed-env none few p k = (omega arith, refl)
  Placed-env (some a) few p k = let (l, e) = placed_ref 1 a few p k in (l, ground (arith, e))

  closure_cell :
      (o : Option ClosureObj)
      → Short t
      → ClosureFits h o
      → Placed t (closure_env o)
      → (c : Cell) × ((do x ← o; some (Cell.closure x.def_hash x.path (ref_of t x.env))) ≡ some c)
        × CellFits kinds c
  closure_cell none few k p = absurd (ground (arith, k))
  closure_cell (some x) few k p = (
    Cell.closure x.def_hash x.path (ref_of t x.env),
    refl,
    (k.0, k.1, Placed-env x.env few p k.2),
  )

  opaque_cell :
      (o : Option (Str × List ℕ))
      → OpaqueFits o
      → (c : Cell) × ((do (x, d) ← o; some (Cell.opaque x d)) ≡ some c) × CellFits kinds c
  opaque_cell none k = absurd (ground (arith, k))
  opaque_cell (some (x, d)) k = (Cell.opaque x d, refl, k)

  -- A value gets a cell that fits, if its object has a place.
  pub cell_of-Fits :
      (v : Value)
      → Short t
      → ValueFits h v
      → Placed t (target h v)
      → (c : Cell) × (cell_of h t v ≡ some c) × CellFits kinds c
  unfolding cell_of target
  cell_of-Fits Value.undefined few k p = (Cell.undefined, refl, tt)
  cell_of-Fits Value.null few k p = (Cell.null, refl, tt)
  cell_of-Fits (Value.bool n) few k p = (Cell.bool n, refl, k)
  cell_of-Fits (Value.f64 w) few k p = (Cell.f64 w, refl, k)
  cell_of-Fits (Value.bigint z) few k p = (Cell.bigint z, refl, k)
  cell_of-Fits (Value.str s) few k p = (Cell.str s, refl, k)
  cell_of-Fits (Value.array a) few k p =
      (Cell.array (ref_of t (some a)), refl, placed_ref 2 a few p k)
  cell_of-Fits (Value.rec a) few k p = (Cell.rec (ref_of t (some a)), refl, placed_ref 3 a few p k)
  cell_of-Fits (Value.closure a) few k p = closure_cell (closure_at h a) few k p
  cell_of-Fits (Value.cap_token s) few k p = (Cell.cap_token s, refl, k)
  cell_of-Fits (Value.opaque a) few k p = opaque_cell (opaque_parts (get_elem? h a)) k

-- A list, item by item.
pub all_of-All :
    {A B : Type 0} (f : A → Option B) (P : A → Type 0) (Q : B → Type 0)
    → ((a : A) → P a → (b : B) × (f a ≡ some b) × Q b)
    → (xs : List A) → All P xs
    → (ys : List B) × (all_of f xs ≡ some ys) × All Q ys × (length ys ≡ length xs)
all_of-All f P Q each [] h = ([], refl, tt, refl)
all_of-All f P Q each (x ∷ xs) h =
    let (y, q, k) = each x h.0 in
    let (ys, qs, ks, l) = all_of-All f P Q each xs h.1 in
    (y ∷ ys, rw (q, qs) refl, (k, ks), ap suc l)

-- A value with a place.
abbrev pub Settled : Heap → List ℕ → Value → Type 0
Settled h t v = ValueFits h v × Placed t (target h v)

pub settle_all :
    (h : Heap) (t : List ℕ) (vs : List Value)
    → All (ValueFits h) vs
    → All (Placed t) (map (target h) vs)
    → All (Settled h t) vs
settle_all h t [] k p = tt
settle_all h t (v ∷ vs) k p = ((k.0, p.0), settle_all h t vs k.1 p.1)

pub cells_of-Fits :
    (h : Heap) (t : List ℕ) (vs : List Value)
    → Short t
    → All (ValueFits h) vs
    → All (Placed t) (map (target h) vs)
    → (cs : List Cell) × (all_of (cell_of h t) vs ≡ some cs)
      × All (CellFits (kinds h t)) cs
      × (length cs ≡ length vs)
cells_of-Fits h t vs few k p =
    all_of-All (cell_of h t) (Settled h t) (CellFits (kinds h t))
      (λ v s. cell_of-Fits h t v few s.0 s.1) vs (settle_all h t vs k p)
