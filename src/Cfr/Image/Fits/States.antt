-- ===== src/Cfr/Image/Fits/States.antt =====
-- The frames and the state of internal/cfr get forms that fit.
use mathlib.Core.Path.{subst}
use mathlib.Core.List.{reverse}
use regel.Base.{
  ℕ, zero, suc, ◌≡◌, refl, ap, Option, none, some, List, [], ◌∷◌, ◌++◌, length, get_elem?, map,
  arith,
}
use regel.Cek.Value.{Value, Object, Heap}
use regel.Cek.Machine.{Signal, Frame, State}
use regel.Cfr.Form.{SignalForm, FrameForm, StateForm}
use regel.Cfr.Intern.{target, pend_values, frame_roots, kont_roots, roots}
use regel.Cfr.Intern.Reach.{Placed, Complete}
use regel.Cfr.Image.{ref_of, all_of, table_of, signal_of, pend_of, frame_of, form_of}
use regel.Cfr.Codec.Lists.{All-reverse, length-reverse}
use regel.Cfr.Codec.Fits.{All, Short, CellFits, PendFits, FrameFits, StateFits}
use regel.Cfr.Image.Fits.{ValueFits, ObjectFits, PendingFits, HeldFrame, Held}
use regel.Cfr.Image.Fits.Values.{kinds, Placed-env, cell_of-Fits, all_of-All, cells_of-Fits}
use regel.Cfr.Image.Fits.Tables.{shell_of-Fits, shells_of-Fits}

module _ (h : Heap) (t : List ℕ) (few : Short t) where
  signal_of-Fits :
      (s : Signal)
      → ValueFits h s.val
      → Placed t (target h s.val)
      → (x : SignalForm) × (signal_of h t s ≡ some x) × CellFits (kinds h t) x.val
  unfolding signal_of
  signal_of-Fits s k p =
      let (c, q, f) = cell_of-Fits h t s.val few k p in
      (record { kind = s.kind; val = c }, rw q refl, f)

  pend_of-Fits :
      (o : Option Signal)
      → PendingFits h o
      → All (Placed t) (map (target h) (pend_values o))
      → (x : Option SignalForm) × (pend_of h t o ≡ some x) × PendFits (kinds h t) x
  unfolding pend_of
  pend_of-Fits none k p = (none, refl, tt)
  pend_of-Fits (some s) k p = let (x, q, f) = signal_of-Fits s k p.0 in (some x, rw q refl, f)

  All-append_left :
      (xs ys : List Value)
      → All (Placed t) (map (target h) (xs ++ ys))
      → All (Placed t) (map (target h) xs)
  All-append_left [] ys p = tt
  All-append_left (x ∷ xs) ys p = (p.0, All-append_left xs ys p.1)

  All-append_right :
      (xs ys : List Value)
      → All (Placed t) (map (target h) (xs ++ ys))
      → All (Placed t) (map (target h) ys)
  All-append_right [] ys p = p
  All-append_right (x ∷ xs) ys p = All-append_right xs ys p.1

  frame_of-Fits :
      (f : Frame)
      → HeldFrame h f × All (Placed t) (frame_roots h f)
      → (x : FrameForm) × (frame_of h t f ≡ some x) × FrameFits (kinds h t) x
  unfolding frame_of frame_roots
  frame_of-Fits f (k, p) =
      let others = All-append_right f.vals (f.obj ∷ f.idx_val ∷ pend_values f.pend) p.1.1.1 in
      let (vs, q1, f1, n) =
        cells_of-Fits h t f.vals few k.vals
          (All-append_left f.vals (f.obj ∷ f.idx_val ∷ pend_values f.pend) p.1.1.1) in
      let (o, q2, f2) = cell_of-Fits h t f.obj few k.obj others.0 in
      let (iv, q3, f3) = cell_of-Fits h t f.idx_val few k.idx_val others.1.0 in
      let (pd, q4, f4) = pend_of-Fits f.pend k.pend others.1.1 in
      (
        record {
          kind = f.kind;
          path = f.path;
          idx = f.idx;
          aux = f.aux;
          vals = vs;
          env = ref_of t f.env;
          outer_env = ref_of t f.outer_env;
          ret_def = f.ret_def;
          ret_path = f.ret_path;
          ret_env = ref_of t f.ret_env;
          obj = o;
          key = f.key;
          idx_val = iv;
          pend = pd;
        },
        rw (q1, q2, q3, q4) refl,
        record {
          path = k.path;
          idx = k.idx;
          aux = k.aux;
          few_vals = rw n k.few_vals;
          vals = f1;
          env = Placed-env h t f.env few p.0 k.env;
          outer_env = Placed-env h t f.outer_env few p.1.0 k.outer_env;
          ret_def = k.ret_def;
          ret_path = k.ret_path;
          ret_env = Placed-env h t f.ret_env few p.1.1.0 k.ret_env;
          obj = f2;
          key = k.key;
          idx_val = f3;
          pend = f4;
        },
      )

  frames_of-Fits :
      (fs : List Frame)
      → All (HeldFrame h) fs
      → All (Placed t) (kont_roots h fs)
      → (xs : List FrameForm) × (all_of (frame_of h t) fs ≡ some xs)
        × All (FrameFits (kinds h t)) xs
        × (length xs ≡ length fs)
  unfolding kont_roots
  frames_of-Fits fs k p =
      all_of-All (frame_of h t) (λ f. HeldFrame h f × All (Placed t) (frame_roots h f))
        (FrameFits (kinds h t)) frame_of-Fits fs (both fs k p)
    where
      split :
          (xs ys : List (Option ℕ))
          → All (Placed t) (xs ++ ys)
          → All (Placed t) xs × All (Placed t) ys
      split [] ys p = (tt, p)
      split (x ∷ xs) ys p = ((p.0, (split xs ys p.1).0), (split xs ys p.1).1)

      both :
          (fs : List Frame)
          → All (HeldFrame h) fs
          → All (Placed t) (kont_roots h fs)
          → All (λ f. HeldFrame h f × All (Placed t) (frame_roots h f)) fs
      both [] k p = tt
      both (f ∷ fs) k p =
          let (a, b) = split (frame_roots h f) (kont_roots h fs) p in ((k.0, a), both fs k.1 b)

pub All-at :
    (P : Object → Type 0) (h : Heap) → All P h → (a : ℕ) (o : Object) → get_elem? h a ≡ some o → P o
All-at P [] k a o q = absurd (ground (arith, q))
All-at P (x ∷ h) k zero o q = subst P (some_eq x o q) k.0
  where
    value : Object → Option Object → Object
    value d none = d
    value d (some y) = y

    some_eq : (x o : Object) → some x ≡ some o → x ≡ o
    some_eq x o q = ap (value x) q
All-at P (x ∷ h) k (suc a) o q = All-at P h k.1 a o q

-- Where the first pass has found a complete table, the state has a form, which fits the wire format.
pub form_of-Fits :
    (s : State) (t : List ℕ)
    → Held s
    → Complete s t
    → (f : StateForm) × (form_of s t ≡ some f) × StateFits f
unfolding form_of table_of roots
form_of-Fits s t k c =
    let few : Short t = omega (arith, k.few_objects, c.no_more) in
    let (table, q1, f1, e, n1) =
      shells_of-Fits s.heap t few
        (λ a m.
          shell_of-Fits s.heap t few (All-at (ObjectFits s.heap) s.heap k.heap) a (c.shared a m)
            (c.closed a m))
        t (λ a m. m) in
    let (v, q2, f2) = cell_of-Fits s.heap t s.val few k.val c.roots_placed.0 in
    let (sig, q3, f3) = signal_of-Fits s.heap t few s.sig k.sig c.roots_placed.1.0 in
    let (fs, q4, f4, n4) =
      frames_of-Fits s.heap t few (reverse s.kont) (All-reverse (HeldFrame s.heap) s.kont k.kont)
        c.roots_placed.1.1.1 in
    (
      record {
        table = table;
        def_hash = s.def_hash;
        path = s.path;
        mode = s.mode;
        park_kind = s.park_kind;
        tier = s.tier;
        fuel_steps = s.fuel_steps;
        fuel_alloc = s.fuel_alloc;
        val = v;
        sig = sig;
        env = ref_of t s.env;
        kont = fs;
      },
      rw (q1, q2, q3, q4) refl,
      record {
        few_objects = rw n1 few;
        table = rw e f1;
        def_hash = k.def_hash;
        path = k.path;
        fuel_steps = k.fuel_steps;
        fuel_alloc = k.fuel_alloc;
        val = rw e f2;
        sig = rw e f3;
        env = rw e (Placed-env s.heap t s.env few c.roots_placed.1.1.0 k.env);
        few_frames = rw (n4, length-reverse s.kont) k.few_frames;
        kont = rw e f4;
      },
    )
