-- ===== src/Cek/Coherence/Basic.antt =====
-- Steps into a child, and the frames below: what every transition's proof is built from.
use regel.Base.{
  ℕ, zero, suc, ◌%◌, ◌≡◌, refl, Bool, true, false, Option, none, some, List, [], ◌∷◌, ◌++◌,
  get_elem?, Option-cases, arith, Str, inl, inr, if◌then◌else◌,
}
use regel.Base.Int.{ℤ, pos, negsuc}
use regel.Rast.{Node, kids}
use regel.Rast.Fits.{fits, fits-kids}
use regel.Cek.Value.{Path16}
use regel.Cek.Machine.{Meter, Frame, Step, Interp, Mode, navigate, child, need, incr, tail_from}
use regel.Cek.Control.{ended, item, outside, cursor, index_of}
use regel.Cek.Coherence.{plain, CoherentAt, Keeps, Below, FrameAt}

navigate-append :
    (n c d : Node) (p q : Path16)
    → navigate n p ≡ some c
    → navigate c q ≡ some d
    → navigate n (p ++ q) ≡ some d
unfolding navigate
navigate-append n c d [] q h k = ground arith
navigate-append n c d (i ∷ p) q h k = elim (Option-cases (get_elem? (kids n) i)) [
  | inl e ↦ ground arith
  | inr (x, e) ↦ ground (arith, navigate-append x c d p q)
]

pub navigate-fits :
    (n c : Node) (p : Path16) → fits n ≡ true → navigate n p ≡ some c → fits c ≡ true
unfolding navigate
navigate-fits n c [] h e = ground arith
navigate-fits n c (i ∷ p) h e = elim (Option-cases (get_elem? (kids n) i)) [
  | inl z ↦ ground arith
  | inr (x, z) ↦ ground (arith, navigate-fits x c p, fits-kids n i x)
]

-- The path of a child leads to the child: the index is below 2^16.
pub navigate-child :
    (root n c : Node) (p : Path16) (i : ℕ)
    → fits root ≡ true
    → navigate root p ≡ some n
    → get_elem? (kids n) i ≡ some c
    → navigate root (child p i) ≡ some c
navigate-child root n c p i h e z =
    unfold child in navigate-append root n c p ((i % 65536) ∷ []) e one
  where
    small : i % 65536 ≡ i
    small = omega (arith, fits-kids n i c (navigate-fits root n p h e) z)

    one : navigate n ((i % 65536) ∷ []) ≡ some c
    one = unfold navigate in ground (arith, small)

module _ {I : Interp} {mt mt' : Meter} {d : Str} {root : Node} {rest : List Frame}
    (b : Below I mt mt' d root rest) where
  -- Go to a node with a frame on top.
  pub enter_node :
      {f : Frame} {c : Node} {p : Path16}
      → FrameAt root f
      → navigate root p ≡ some c
      → CoherentAt I mt mt' d root Mode.eval c p (f ∷ rest)
  enter_node {f} at e = record {
    loaded = b.loaded;
    named = b.named;
    metered = b.metered;
    at_node = e;
    frames = plain root f rest at.0 at.1 b.frames;
  }

  -- Go to a node with the top frame popped.
  pub enter_below :
      {c : Node} {p : Path16}
      → navigate root p ≡ some c
      → CoherentAt I mt mt' d root Mode.eval c p rest
  enter_below e = record {
    loaded = b.loaded;
    named = b.named;
    metered = b.metered;
    at_node = e;
    frames = b.frames;
  }

  -- Deliver a value, or unwind, with the top frame popped.
  pub deliver_below : {c : Node} {p : Path16} → CoherentAt I mt mt' d root Mode.apply c p rest
  deliver_below = record {
    loaded = b.loaded;
    named = b.named;
    metered = b.metered;
    at_node = tt;
    frames = b.frames;
  }

  pub unwind_below : {c : Node} {p : Path16} → CoherentAt I mt mt' d root Mode.unwind c p rest
  unwind_below = record {
    loaded = b.loaded;
    named = b.named;
    metered = b.metered;
    at_node = tt;
    frames = b.frames;
  }

module _ (I : Interp) (mt : Meter) where
  pub need-Keeps {ℓ} :
      {A : Type ℓ} (o : Option A) (k : A → Step)
      → ((a : A) → o ≡ some a → Keeps I mt (k a))
      → Keeps I mt (need o k)
  need-Keeps none k h = tt
  need-Keeps (some a) k h = h a refl

  pub if-Keeps :
      (t : Bool) (a b : Step)
      → (t ≡ true → Keeps I mt a)
      → (t ≡ false → Keeps I mt b)
      → Keeps I mt (if t then a else b)
  if-Keeps true a b h k = h refl
  if-Keeps false a b h k = k refl

pub tail_from-elem {ℓ} :
    {A : Type ℓ} (i : ℤ) (xs : List A) (x : A) (l : List A)
    → tail_from i xs ≡ some (x ∷ l)
    → get_elem? xs (index_of i) ≡ some x
tail_from-elem (negsuc n) xs x l h = ground arith
tail_from-elem (pos zero) xs x l h = ground arith
tail_from-elem (pos (suc n)) [] x l h = ground arith
tail_from-elem (pos (suc n)) (y ∷ ys) x l h = tail_from-elem (pos n) ys x l h

pub tail_from-incr {ℓ} :
    {A : Type ℓ} (i : ℤ) (xs : List A) (x : A) (l : List A)
    → tail_from i xs ≡ some (x ∷ l)
    → tail_from (incr i) xs ≡ some l
tail_from-incr (negsuc n) xs x l h = ground arith
tail_from-incr (pos zero) [] x l h = ground arith
tail_from-incr (pos zero) (y ∷ ys) x l h = ground arith
tail_from-incr (pos (suc n)) [] x l h = ground arith
tail_from-incr (pos (suc n)) (y ∷ ys) x l h = tail_from-incr (pos n) ys x l h

-- The three ways in which a cursor can stand in a list.
pub cursor-Keeps :
    (I : Interp) (mt : Meter) (i : ℤ) (xs : List Node) (a b : Step) (k : Node → Step)
    → Keeps I mt a
    → Keeps I mt b
    → ((s : Node) → get_elem? xs (index_of i) ≡ some s → Keeps I mt (k s))
    → Keeps I mt (elim (cursor i xs) [ outside ↦ a | ended ↦ b | item s ↦ k s ])
cursor-Keeps I mt (negsuc n) xs a b k ha hb hk = ha
cursor-Keeps I mt (pos zero) [] a b k ha hb hk = hb
cursor-Keeps I mt (pos zero) (x ∷ xs) a b k ha hb hk = hk x refl
cursor-Keeps I mt (pos (suc n)) [] a b k ha hb hk = hb
cursor-Keeps I mt (pos (suc n)) (x ∷ xs) a b k ha hb hk =
    cursor-Keeps I mt (pos n) xs a b k ha hb hk
