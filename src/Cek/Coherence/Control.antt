-- ===== src/Cek/Coherence/Control.antt =====
-- The transitions of Cek/Control.antt keep the invariant.
use regel.Base.{
  ℕ, ◌≡◌, refl, Bool, true, false, Option, none, some, List, [], ◌∷◌, get_elem?, arith,
  if◌then◌else◌, Bool-cases, inl, inr, ◌∙◌,
}
use regel.Base.Int.{ℤ}
use regel.Rast.{Node, kids, kind, is_none}
use regel.Rast.Fits.{fits}
use regel.Cek.Value.{Value, Heap, Path16}
use regel.Cek.Coerce.{Floats}
use regel.Cek.Bind.{Bound, bound, unsupported, bind_crash, bind_pattern}
use regel.Cek.Machine.{
  Meter, fuel_meter, governor_meter, Machine, Frame, Interp, navigate, child, incr, tail_from,
  Signal, undef,
}
use regel.Cek.Control.{
  index_of, charge_alloc, block_advance, Declared, need_declared, with_slots, evaluate, bound_all,
  declare_fault, declare_crash, declare, after_declare, var_decl_advance, skip_parts, assemble,
  after_parts, template_advance, skip_holes, array_element, after_holes, array_advance, is_spread,
  object_advance, trigger_finally,
}
use regel.Cek.Coherence.{Keeps, Below, FrameAt, clock}
use regel.Cek.Coherence.Basic.{
  navigate-child, enter_node, deliver_below, need-Keeps, if-Keeps, tail_from-elem, tail_from-incr,
  cursor-Keeps,
}

-- The node that `declare` stops at stands at the cursor.
abbrev DeclaredAt : List Node → Declared → Type 0
DeclaredAt xs (evaluate i vals h init) =
    (d : Node) × (get_elem? xs (index_of i) ≡ some d) × (get_elem? (kids d) 2 ≡ some init)
DeclaredAt xs _ = Unit {0}

need_declared-At :
    (xs : List Node) (o : Option Node) (k : Node → Declared)
    → ((n : Node) → o ≡ some n → DeclaredAt xs (k n))
    → DeclaredAt xs (need_declared o k)
need_declared-At xs none k h = tt
need_declared-At xs (some n) k h = h n refl

with_slots-At :
    (xs : List Node) (r : Bound) (k : List Value → Heap → Declared)
    → ((vs : List Value) (h : Heap) → DeclaredAt xs (k vs h))
    → DeclaredAt xs (with_slots r k)
with_slots-At xs unsupported k h = tt
with_slots-At xs bind_crash k h = tt
with_slots-At xs (bound g vs) k h = h vs g

if-At :
    (xs : List Node) (t : Bool) (a b : Declared)
    → DeclaredAt xs a
    → DeclaredAt xs b
    → DeclaredAt xs (if t then a else b)
if-At xs true a b h k = h
if-At xs false a b h k = k

declare-At :
    (F : Floats) (xs ds : List Node) (i : ℤ) (vals : List Value) (h : Heap)
    → tail_from i xs ≡ some ds
    → DeclaredAt xs (declare F ds i vals h)
unfolding declare
declare-At F xs [] i vals h e = tt
declare-At F xs (d ∷ ds) i vals h e = need_declared-At xs (get_elem? (kids d) 2) _ λ init z.
    if-At xs (is_none init) _ (evaluate i vals h init)
      (need_declared-At xs (get_elem? (kids d) 0) _ λ pat y.
        with_slots-At xs (bind_pattern F pat undef h vals) _
          λ vs g. declare-At F xs ds (incr i) vs g (tail_from-incr i xs d ds e))
      (d, tail_from-elem i xs d ds e, z)

-- The part that `skip_parts` stops at stands at the cursor that it returns.
skip_parts-At :
    (xs ps : List Node) (i j : ℤ) (p : Node)
    → tail_from i xs ≡ some ps
    → skip_parts ps i ≡ some (j, p)
    → get_elem? xs (index_of j) ≡ some p
unfolding skip_parts
skip_parts-At xs [] i j p e h = ground arith
skip_parts-At xs (q ∷ ps) i j p e h = ground (
  arith,
  tail_from-elem i xs q ps e,
  skip_parts-At xs ps (incr i) j p (tail_from-incr i xs q ps e),
)

skip_holes-At :
    (xs es : List Node) (i : ℤ) (vals : List Value) (e : Node)
    → tail_from i xs ≡ some es
    → (skip_holes es i vals).found ≡ some e
    → get_elem? xs (index_of (skip_holes es i vals).idx) ≡ some e
unfolding skip_holes
skip_holes-At xs [] i vals e h z = ground arith
skip_holes-At xs (q ∷ es) i vals e h z = elim (Bool-cases (is_none q)) [
  | inl t ↦ rw t (skip_holes-At xs es (incr i) _ e (tail_from-incr i xs q es h) (rw t at z))
  | inr t ↦ rw t (tail_from-elem i xs q es h ∙ (rw t at z))
]

module _ (I : Interp) (mt : Meter) (f : Frame) (rest : List Frame) (m : Machine)
    (fit : fits m.root ≡ true) (b : Below I mt m.meter m.def_hash m.root rest)
    (at : FrameAt m.root f) where
  -- A child of the frame's node, and a child of such a child.
  kid :
      (c : Node) (i : ℕ)
      → get_elem? (kids f.node) i ≡ some c
      → navigate m.root (child f.path i) ≡ some c
  kid c i e = navigate-child m.root f.node c f.path i fit at.1 e

  kid_of :
      (c d : Node) (p : Path16) (i : ℕ)
      → navigate m.root p ≡ some c
      → get_elem? (kids c) i ≡ some d
      → navigate m.root (child p i) ≡ some d
  kid_of c d p i h e = navigate-child m.root c d p i fit h e

  pub block_advance-Keeps : Keeps I mt (block_advance f rest m)
  unfolding block_advance
  block_advance-Keeps = need-Keeps I mt _ _ λ l e.
      cursor-Keeps I mt f.idx (kids l) _ _ _ tt (deliver_below b)
        (λ s z. enter_node b at (kid_of l s _ _ (kid l 0 e) z))

  pub object_advance-Keeps : Keeps I mt (object_advance f rest m)
  unfolding object_advance
  object_advance-Keeps = need-Keeps I mt _ _ λ l e.
      cursor-Keeps I mt f.idx (kids l) _ _ _ tt (deliver_below b) (λ s z.
        need-Keeps I mt (get_elem? (kids s) (if is_spread (kind s) then 0 else 1)) _
          λ c y. enter_node b at (kid_of s c _ _ (kid_of l s _ _ (kid l 0 e) z) y))

  pub trigger_finally-Keeps : (s : Option Signal) → Keeps I mt (trigger_finally f rest s m)
  unfolding trigger_finally
  trigger_finally-Keeps s = need-Keeps I mt _ _ λ c e. enter_node b (refl, at.1) (kid c 2 e)

  pub array_element-Keeps :
      (e l : Node)
      → get_elem? (kids f.node) 0 ≡ some l
      → get_elem? (kids l) (index_of f.idx) ≡ some e
      → Keeps I mt (array_element e f rest m)
  unfolding array_element
  array_element-Keeps e l h z =
      if-Keeps I mt (is_spread (kind e)) _ _
        (λ _.
          need-Keeps I mt (get_elem? (kids e) 0) _
            λ c y. enter_node b at (kid_of e c _ _ (kid_of l e _ _ (kid l 0 h) z) y))
        (λ _. enter_node b at (kid_of l e _ _ (kid l 0 h) z))

  after_declare-Keeps :
      (l : Node) (r : Declared)
      → get_elem? (kids f.node) 0 ≡ some l
      → DeclaredAt (kids l) r
      → Keeps I mt (after_declare r f rest m)
  unfolding after_declare
  after_declare-Keeps l declare_crash e h = tt
  after_declare-Keeps l declare_fault e h = tt
  after_declare-Keeps l (bound_all vals g) e h = deliver_below b
  after_declare-Keeps l (evaluate i vals g init) e (d, x, y) =
      enter_node b at (kid_of d init _ _ (kid_of l d _ _ (kid l 0 e) x) y)

  pub var_decl_advance-Keeps : Keeps I mt (var_decl_advance I f rest m)
  unfolding var_decl_advance
  var_decl_advance-Keeps = need-Keeps I mt (get_elem? (kids f.node) 0) _ λ l e.
      need-Keeps I mt (tail_from f.idx (kids l)) _ λ left z.
        after_declare-Keeps l _ e (declare-At I.floats (kids l) left f.idx f.vals m.heap z)

  after_parts-Keeps :
      (l : Node) (r : Option (ℤ × Node))
      → get_elem? (kids f.node) 0 ≡ some l
      → ((j : ℤ) (p : Node) → r ≡ some (j, p) → get_elem? (kids l) (index_of j) ≡ some p)
      → Keeps I mt (after_parts I r l f rest m)
  unfolding after_parts
  after_parts-Keeps l none e h =
      need-Keeps I mt (assemble I.floats m.heap (kids l) f.vals) _ λ s z. deliver_below b
  after_parts-Keeps l (some (j, p)) e h = enter_node b at (kid_of l p _ _ (kid l 0 e) (h j p refl))

  pub template_advance-Keeps : Keeps I mt (template_advance I f rest m)
  unfolding template_advance
  template_advance-Keeps = need-Keeps I mt (get_elem? (kids f.node) 0) _ λ l e.
      need-Keeps I mt (tail_from f.idx (kids l)) _ λ left z.
        after_parts-Keeps l (skip_parts left f.idx) e
          (λ j p. skip_parts-At (kids l) left f.idx j p z)

-- Charging for memory leaves the clock alone.
clock-charge_alloc : (mt : Meter) (n : ℕ) → clock (charge_alloc mt n) ≡ clock mt
unfolding charge_alloc
clock-charge_alloc (fuel_meter s c) n = refl
clock-charge_alloc (governor_meter c l) n = refl

module _ (I : Interp) (mt : Meter) (f : Frame) (rest : List Frame) (m : Machine)
    (fit : fits m.root ≡ true) (b : Below I mt m.meter m.def_hash m.root rest)
    (at : FrameAt m.root f) where
  after_holes-Keeps :
      (l : Node) (found : Option Node) (i : ℤ) (vals : List Value)
      → get_elem? (kids f.node) 0 ≡ some l
      → ((e : Node) → found ≡ some e → get_elem? (kids l) (index_of i) ≡ some e)
      → Keeps I mt (after_holes found (record f { idx = i; vals = vals }) rest m)
  unfolding after_holes
  after_holes-Keeps l none i vals e h = record {
    loaded = b.loaded;
    named = b.named;
    metered = clock-charge_alloc m.meter _ ∙ b.metered;
    at_node = tt;
    frames = b.frames;
  }
  after_holes-Keeps l (some c) i vals e h =
      array_element-Keeps I mt (record f { idx = i; vals = vals }) rest m fit b at c l e (h c refl)

  pub array_advance-Keeps : Keeps I mt (array_advance f rest m)
  unfolding array_advance
  array_advance-Keeps = need-Keeps I mt (get_elem? (kids f.node) 0) _ λ l e.
      need-Keeps I mt (tail_from f.idx (kids l)) _
        λ left z. after_holes-Keeps l _ _ _ e (λ c. skip_holes-At (kids l) left f.idx f.vals c z)
