-- ===== src/Cfr/Intern/Reach.antt =====
-- The table of `func Encode` of internal/cfr/codec.go is complete: it holds each object that the state can
-- reach, once.
use mathlib.Core.Path.{subst}
use regel.Base.{
  ℕ, zero, suc, ◌+◌, ◌≤◌, ◌<◌, ◌≡◌, refl, ap, ◌∙◌, sym, true, false, ◌||◌, Option, none, some, List,
  [], ◌∷◌, ◌++◌, length, get_elem?, ◌==◌, if◌then◌else◌, ltb, arith, Bool-cases, Option-cases,
  lt_of_get_elem?, inl, inr, length-append,
}
use regel.Cek.Value.{Heap}
use regel.Cek.Machine.{State}
use regel.Cfr.Intern.{mem, kind_at, children, Visit, visit_all, visit, roots, intern_state}
use regel.Cfr.Codec.Fits.{All}

-- A pointer that is nil or has a place.
abbrev pub Placed : List ℕ → Option ℕ → Type 0
Placed seen none = Unit
Placed seen (some a) = mem a seen ≡ true

-- A pointer that is nil or leads to an environment, an array or a record.
abbrev pub Shared : Heap → Option ℕ → Type 0
Shared h none = Unit
Shared h (some a) = 0 < kind_at h a

-- So is each pointer of an object.
pub record Sound (h : Heap) : Type 0 where
  pub inside : (a : ℕ) → All (Shared h) (children h a)

inside_heap : (h : Heap) (a : ℕ) → 0 < kind_at h a → a < length h
unfolding kind_at
inside_heap h a k = elim (Option-cases (get_elem? h a)) [
  | inl z ↦ absurd (ground (arith, rw z at k))
  | inr (o, z) ↦ lt_of_get_elem? h a o z
]

-- The objects that have no place yet.
unseen : ℕ → List ℕ → ℕ
unseen zero seen = 0
unseen (suc n) seen = (if mem n seen then 0 else 1) + unseen n seen

mem-append : (a : ℕ) (xs ys : List ℕ) → mem a (xs ++ ys) ≡ (mem a xs || mem a ys)
mem-append a [] ys = refl
mem-append a (x ∷ xs) ys = ground (arith, mem-append a xs ys)

mem-snoc : (b a : ℕ) (seen : List ℕ) → mem b (seen ++ a ∷ []) ≡ (mem b seen || b == a)
mem-snoc b a seen = ground (arith, mem-append b seen (a ∷ []))

not_itself : (n : ℕ) (seen : List ℕ) → mem n (seen ++ n ∷ []) ≡ true
not_itself n seen = ground (arith, mem-snoc n n seen)

unseen-snoc :
    (n a : ℕ) (seen : List ℕ)
    → mem a seen ≡ false
    → unseen n seen ≡ unseen n (seen ++ a ∷ []) + (if ltb a n then 1 else 0)
unfolding unseen
unseen-snoc zero a seen h = ground arith
unseen-snoc (suc n) a seen h = elim (Bool-cases (n == a)) [
  | inl t ↦ ground (arith, t, h, mem-snoc n a seen, unseen-snoc n a seen h, same_mem n a seen t)
  | inr t ↦ ground (arith, t, mem-snoc n a seen, unseen-snoc n a seen h)
]
  where
    same_mem : (n a : ℕ) (seen : List ℕ) → (n == a) ≡ true → mem n seen ≡ mem a seen
    same_mem n a seen t = ap (λ k. mem k seen) (ground (arith, t))

same : (a b : ℕ) → (a == b) ≡ true → a ≡ b
same a b t = ground (arith, t)

all_seen : (n a : ℕ) (seen : List ℕ) → unseen n seen ≤ 0 → a < n → mem a seen ≡ true
unfolding unseen
all_seen zero a seen h k = absurd (omega (arith, k))
all_seen (suc n) a seen h k = elim (Bool-cases (a == n)) [
  | inl t ↦ ap (λ b. mem b seen) (same a n t) ∙ ground (arith, h)
  | inr t ↦ all_seen n a seen (ground (arith, h)) (ground (arith, t, k))
]

-- No address twice.
abbrev pub Once : List ℕ → Type 0
Once [] = Unit
Once (a ∷ as') = (mem a as' ≡ false) × Once as'

Once-snoc : (a : ℕ) (seen : List ℕ) → mem a seen ≡ false → Once seen → Once (seen ++ a ∷ [])
Once-snoc a [] h k = (refl, tt)
Once-snoc a (b ∷ seen) h k =
    (ground (arith, mem-snoc b a seen, k.0, h), Once-snoc a seen (ground (arith, h)) k.1)

Placed-mono :
    (xs ys : List ℕ)
    → ((a : ℕ) → mem a xs ≡ true → mem a ys ≡ true)
    → (ts : List (Option ℕ)) → All (Placed xs) ts
    → All (Placed ys) ts
Placed-mono xs ys m [] h = tt
Placed-mono xs ys m (none ∷ ts) h = (tt, Placed-mono xs ys m ts h.1)
Placed-mono xs ys m (some a ∷ ts) h = (m a h.0, Placed-mono xs ys m ts h.1)

-- A table that has grown: what is new is complete.
record Grown (h : Heap) (xs ys : List ℕ) : Type 0 where
  kept : (a : ℕ) → mem a xs ≡ true → mem a ys ≡ true
  shared : (a : ℕ) → mem a ys ≡ true → mem a xs ≡ false → 0 < kind_at h a
  complete : (a : ℕ) → mem a ys ≡ true → mem a xs ≡ false → All (Placed ys) (children h a)
  counted : length ys + unseen (length h) ys ≤ length xs + unseen (length h) xs
  fewer : unseen (length h) ys ≤ unseen (length h) xs
  once : Once xs → Once ys

Grown-refl : (h : Heap) (xs : List ℕ) → Grown h xs xs
Grown-refl h xs = record {
  kept = λ a k. k;
  shared = λ a k l. ground (arith, k, l);
  complete = λ a k l. ground (arith, k, l);
  counted = omega arith;
  fewer = omega arith;
  once = λ k. k;
}

Grown-trans : (h : Heap) (xs ys zs : List ℕ) → Grown h xs ys → Grown h ys zs → Grown h xs zs
Grown-trans h xs ys zs g k = record {
  kept = λ a m. k.kept a (g.kept a m);
  shared =
      λ a m l. elim (Bool-cases (mem a ys)) [ inl t ↦ g.shared a t l | inr t ↦ k.shared a m t ];
  complete = λ a m l. elim (Bool-cases (mem a ys)) [
    | inl t ↦ Placed-mono ys zs k.kept (children h a) (g.complete a t l)
    | inr t ↦ k.complete a m t
  ];
  counted = omega (arith, g.counted, k.counted);
  fewer = omega (arith, g.fewer, k.fewer);
  once = λ o. k.once (g.once o);
}

-- What a call gives from a table: one that has grown, with a place for the pointer.
Went : Heap → List ℕ → Option (List ℕ) → List (Option ℕ) → Type 0
Went h xs r ts = (ys : List ℕ) × (r ≡ some ys) × Grown h xs ys × All (Placed ys) ts

visit_all-Went :
    (h : Heap) (fuel : ℕ) (step : Visit)
    → ((xs : List ℕ) (t : Option ℕ)
        → Shared h t
        → unseen (length h) xs ≤ fuel
        → Went h xs (step xs t) (t ∷ []))
    → (ts : List (Option ℕ)) (xs : List ℕ) → All (Shared h) ts
    → unseen (length h) xs ≤ fuel
    → Went h xs (visit_all step xs ts) ts
unfolding visit_all Went
visit_all-Went h fuel step each [] xs i u = (xs, refl, Grown-refl h xs, tt)
visit_all-Went h fuel step each (t ∷ ts) xs i u =
    let (ys, q, g, p) = each xs t i.0 u in
    let (zs, q', g', p') = visit_all-Went h fuel step each ts ys i.1 (omega (arith, u, g.fewer)) in
    (zs, rw q q', Grown-trans h xs ys zs g g', ((Placed-mono ys zs g'.kept (t ∷ []) p).0, p'))

-- One object more.
Grown-snoc :
    (h : Heap) (a : ℕ) (xs ys : List ℕ)
    → 0 < kind_at h a
    → mem a xs ≡ false
    → Grown h (xs ++ a ∷ []) ys
    → All (Placed ys) (children h a)
    → Grown h xs ys
Grown-snoc h a xs ys sh new g p = record {
  kept = λ b m. g.kept b (ground (arith, mem-snoc b a xs, m));
  shared = λ b m l. elim (Bool-cases (b == a)) [
    | inl t ↦ subst (λ c. 0 < kind_at h c) (sym (same b a t)) sh
    | inr t ↦ g.shared b m (ground (arith, mem-snoc b a xs, l, t))
  ];
  complete = λ b m l. elim (Bool-cases (b == a)) [
    | inl t ↦ subst (λ c. All (Placed ys) (children h c)) (sym (same b a t)) p
    | inr t ↦ g.complete b m (ground (arith, mem-snoc b a xs, l, t))
  ];
  counted = ground (
    arith,
    g.counted,
    unseen-snoc (length h) a xs new,
    length-append xs (a ∷ []),
    inside_heap h a sh,
  );
  fewer = ground (arith, g.fewer, unseen-snoc (length h) a xs new);
  once = λ o. g.once (Once-snoc a xs new o);
}

placed_last : (h : Heap) (a : ℕ) (xs ys : List ℕ) → Grown h (xs ++ a ∷ []) ys → mem a ys ≡ true
placed_last h a xs ys g = g.kept a (not_itself a xs)

visit-Went :
    (h : Heap)
    → Sound h
    → (fuel : ℕ) (xs : List ℕ) (t : Option ℕ) → Shared h t
    → unseen (length h) xs ≤ fuel
    → Went h xs (visit fuel h xs t) (t ∷ [])
unfolding visit Went
visit-Went h s zero xs none i u = (xs, refl, Grown-refl h xs, (tt, tt))
visit-Went h s (suc fuel) xs none i u = (xs, refl, Grown-refl h xs, (tt, tt))
visit-Went h s zero xs (some a) i u =
    let m = all_seen (length h) a xs u (inside_heap h a i) in
    (xs, rw m refl, Grown-refl h xs, (m, tt))
visit-Went h s (suc fuel) xs (some a) i u = elim (Bool-cases (mem a xs)) [
  | inl m ↦ (xs, rw (m, visit) refl, Grown-refl h xs, (m, tt))
  | inr m ↦
      let (ys, q, g, p) =
        visit_all-Went h fuel (visit fuel h) (visit-Went h s fuel) (children h a) (xs ++ a ∷ [])
          (s.inside a) (ground (arith, u, inside_heap h a i, unseen-snoc (length h) a xs m)) in
      (ys, rw (m, visit) q, Grown-snoc h a xs ys i m g p, (placed_last h a xs ys g, tt))
]

-- The table of a state: each object once, with every object that a pointer of the state or of an object
-- of the table leads to.
pub record Complete (s : State) (table : List ℕ) : Type 0 where
  pub roots_placed : All (Placed table) (roots s)
  pub closed : (a : ℕ) → mem a table ≡ true → All (Placed table) (children s.heap a)
  pub shared : (a : ℕ) → mem a table ≡ true → 0 < kind_at s.heap a
  pub once : Once table
  pub no_more : length table ≤ length s.heap

unseen_nothing : (n : ℕ) → unseen n [] ≡ n
unfolding unseen
unseen_nothing zero = refl
unseen_nothing (suc n) = omega (arith, unseen_nothing n)

-- Where each pointer is nil or leads to an environment, an array or a record, the first pass of Encode ends, and what it finds is complete.
pub intern_state-Complete :
    (s : State)
    → Sound s.heap
    → All (Shared s.heap) (roots s)
    → (table : List ℕ) × (intern_state s ≡ some table) × Complete s table
unfolding intern_state Went
intern_state-Complete s ok i =
    let (ys, q, g, p) =
      visit_all-Went s.heap (length s.heap) (visit (length s.heap) s.heap)
        (visit-Went s.heap ok (length s.heap)) (roots s) [] i
        (omega (arith, unseen_nothing (length s.heap))) in
    (
      ys,
      q,
      record {
        roots_placed = p;
        closed = λ a m. g.complete a m refl;
        shared = λ a m. g.shared a m refl;
        once = g.once tt;
        no_more = omega (arith, g.counted, unseen_nothing (length s.heap));
      },
    )

-- The same for what one value reaches, in `EncodeValue`.
pub visit_gathers :
    (h : Heap) (t : Option ℕ)
    → Sound h
    → Shared h t
    → (table : List ℕ) × (visit (length h) h [] t ≡ some table)
      × Placed table t
      × ((a : ℕ) → mem a table ≡ true → All (Placed table) (children h a))
      × ((a : ℕ) → mem a table ≡ true → 0 < kind_at h a)
      × (length table ≤ length h)
unfolding Went
visit_gathers h t ok i =
    let (ys, q, g, p) =
      visit-Went h ok (length h) [] t i (omega (arith, unseen_nothing (length h))) in
    (
      ys,
      q,
      p.0,
      λ a m. g.complete a m refl,
      λ a m. g.shared a m refl,
      omega (arith, g.counted, unseen_nothing (length h)),
    )
