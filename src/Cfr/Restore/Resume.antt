-- ===== src/Cfr/Restore/Resume.antt =====
-- internal/cfr/decode.go with Resume of internal/cek/resume.go: a state that comes back from its bytes is
-- taken up again.
use mathlib.Core.Path.{subst}
use mathlib.Core.List.{reverse, reverse_aux, reverse-reverse}
use regel.Base.{
  ℕ, ◌≡◌, refl, ap, sym, ◌∙◌, true, false, Option, none, some, List, [], ◌∷◌, arith, is_empty,
  ◌>>=◌,
}
use regel.Rast.{Node}
use regel.Cek.Value.{Heap}
use regel.Cek.Machine.{Frame, FrameKind, State, Interp, Principal, navigate}
use regel.Cek.Run.{rebind}
use regel.Cek.Resume.{Delivery, resume, ready, rebuilt, is_abort}
use regel.Cek.Coherence.{
  FramesOk, none_left, plain, caller, bottom, is_ret, StateOk, LoadsFit, AtNode,
}
use regel.Cek.Coherence.Rebind.{Live, plain_case, ready-Live}
use regel.Cek.Coherence.Start.{Stored, Stored-StateOk}
use regel.Cfr.Form.{FrameForm, StateForm}
use regel.Cfr.Image.{all_of, cell_of, pend_of, signal_of, table_of, frame_of, form_of, encode}
use regel.Cfr.Wire.{Bytes}
use regel.Cfr.Load.{load_frame, load_frames, load_state, decode_state}
use regel.Cfr.Image.Fits.{Held}
use regel.Cfr.Restore.{restored}

-- Frames of the same kinds, at the same places of the same definitions.
abbrev SameCode : Frame → Frame → Type 0
SameCode f g = (g.kind ≡ f.kind) × (g.path ≡ f.path) × (g.ret_def ≡ f.ret_def)

abbrev Alike : List Frame → List Frame → Type 0
Alike [] [] = Unit
Alike (f ∷ fs) (g ∷ gs) = SameCode f g × Alike fs gs
Alike _ _ = true ≡ false

ret_case {ℓ} :
    {A : Type ℓ} (k : FrameKind) (a b : A)
    → k ≡ FrameKind.ret
    → (elim k [ FrameKind.ret ↦ a | _ ↦ b ]) ≡ a
ret_case FrameKind.ret a b e = refl
ret_case _ a b e = absurd (ground (arith, e))

-- Frames like coherent ones are rebound to coherent ones.
rebind-Alike :
    (I : Interp) (root : Node) (fs gs : List Frame)
    → FramesOk I root fs
    → Alike fs gs
    → (ks : List Frame) × (rebind I root gs ≡ some ks) × FramesOk I root ks
unfolding rebind is_empty
rebind-Alike I root [] [] ok k = ([], refl, none_left root)
rebind-Alike I root [] (g ∷ gs) ok k = absurd (ground (arith, k))
rebind-Alike I root (f ∷ fs) [] ok k = absurd (ground (arith, k))
rebind-Alike I root (f ∷ fs) (g ∷ gs) (plain _ _ _ r e ok) k =
    let (ks, q, o) = rebind-Alike I root fs gs ok k.1 in
    let kind = ap is_ret k.0.0 ∙ r in
    let at = ap (navigate root) k.0.1 ∙ e in
    (
      record g { node = f.node } ∷ ks,
      plain_case g.kind _ _ kind ∙ rw (at, q) refl,
      plain root (record g { node = f.node }) ks kind at o,
    )
rebind-Alike I root (f ∷ fs) (g ∷ gs) (caller _ root' _ _ e n l ok) k =
    let (ks, q, o) = rebind-Alike I root' fs gs ok k.1 in
    let kind = k.0.0 ∙ e in
    let name = ap is_empty k.0.2 ∙ n in
    let found = ap I.load k.0.2 ∙ l in
    (
      g ∷ ks,
      ret_case g.kind _ _ kind ∙ rw (name, found, q) refl,
      caller root root' g ks kind name found o,
    )
rebind-Alike I root (f ∷ []) (g ∷ []) (bottom _ _ e n) k =
    let kind = k.0.0 ∙ e in
    let name = ap is_empty k.0.2 ∙ n in
    (g ∷ [], ret_case g.kind _ _ kind ∙ rw name refl, bottom root g kind name)
rebind-Alike I root (f ∷ []) (g ∷ h ∷ gs) (bottom _ _ e n) k = absurd (ground (arith, k.1))

pub bind_some :
    {A B : Type 0} (m : Option A) (f : A → Option B) (b : B)
    → (m >>= f) ≡ some b
    → (a : A) × (m ≡ some a) × (f a ≡ some b)
bind_some none f b q = absurd (ground (arith, q))
bind_some (some a) f b q = (a, refl, q)

value_or : {A : Type 0} → A → Option A → A
value_or d none = d
value_or d (some a) = a

pub some_value : {A : Type 0} (a b : A) → some a ≡ some b → a ≡ b
unfolding value_or
some_value a b q = ap (value_or a) q

frame_of-code :
    (h : Heap) (t : List ℕ) (f : Frame) (x : FrameForm)
    → frame_of h t f ≡ some x
    → (x.kind ≡ f.kind) × (x.path ≡ f.path) × (x.ret_def ≡ f.ret_def)
unfolding frame_of
frame_of-code h t f x q =
    let (vs, _, q1) = bind_some (all_of (cell_of h t) f.vals) _ x q in
    let (o, _, q2) = bind_some (cell_of h t f.obj) _ x q1 in
    let (iv, _, q3) = bind_some (cell_of h t f.idx_val) _ x q2 in
    let (p, _, q4) = bind_some (pend_of h t f.pend) _ x q3 in
    let e = sym (some_value _ x q4) in
    (ap FrameForm.kind e, ap FrameForm.path e, ap FrameForm.ret_def e)

loaded_code :
    (h : Heap) (x : FrameForm)
    → ((load_frame h x).1.kind ≡ x.kind)
      × ((load_frame h x).1.path ≡ x.path)
      × ((load_frame h x).1.ret_def ≡ x.ret_def)
unfolding load_frame
loaded_code h x = (refl, refl, refl)

frames-Alike :
    (h g : Heap) (t : List ℕ) (fs : List Frame) (xs : List FrameForm)
    → all_of (frame_of h t) fs ≡ some xs
    → Alike fs (load_frames g xs).1
unfolding load_frames
frames-Alike h g t [] xs q = subst (λ l. Alike [] (load_frames g l).1) (some_value [] xs q) tt
frames-Alike h g t (f ∷ fs) xs q =
    let (y, e, q1) = bind_some (frame_of h t f) _ xs q in
    let (ys, e', q2) = bind_some (all_of (frame_of h t) fs) _ xs q1 in
    let (k, p, d) = frame_of-code h t f y e in
    let (k', p', d') = loaded_code g y in
    subst (λ l. Alike (f ∷ fs) (load_frames g l).1) (some_value (y ∷ ys) xs q2)
      ((k' ∙ k, p' ∙ p, d' ∙ d), frames-Alike h (load_frame g y).0 t fs ys e')

Alike-reverse_aux :
    (fs gs fs' gs' : List Frame)
    → Alike fs gs
    → Alike fs' gs'
    → Alike (reverse_aux fs fs') (reverse_aux gs gs')
Alike-reverse_aux [] [] fs' gs' h k = k
Alike-reverse_aux [] (g ∷ gs) fs' gs' h k = absurd (ground (arith, h))
Alike-reverse_aux (f ∷ fs) [] fs' gs' h k = absurd (ground (arith, h))
Alike-reverse_aux (f ∷ fs) (g ∷ gs) fs' gs' h k =
    Alike-reverse_aux fs gs (f ∷ fs') (g ∷ gs') h.1 (h.0, k)

Alike-reverse : (fs gs : List Frame) → Alike (reverse fs) gs → Alike fs (reverse gs)
Alike-reverse fs gs h =
    subst (λ l. Alike l (reverse gs)) (reverse-reverse fs)
      (Alike-reverse_aux (reverse fs) gs [] [] h tt)

-- The same computation at the same point, with frames alike.
record SamePoint (s s' : State) : Type 0 where
  def_hash : s'.def_hash ≡ s.def_hash
  path : s'.path ≡ s.path
  mode : s'.mode ≡ s.mode
  kont : Alike s.kont s'.kont

form_of-point :
    (s : State) (t : List ℕ) (f : StateForm) → form_of s t ≡ some f → SamePoint s (load_state f)
unfolding form_of load_state
form_of-point s t f q =
    let (table, _, q1) = bind_some (table_of s.heap t) _ f q in
    let (v, _, q2) = bind_some (cell_of s.heap t s.val) _ f q1 in
    let (sig, _, q3) = bind_some (signal_of s.heap t s.sig) _ f q2 in
    let (fs, e, q4) = bind_some (all_of (frame_of s.heap t) (reverse s.kont)) _ f q3 in
    let r = some_value _ f q4 in
    record {
      def_hash = sym (ap StateForm.def_hash r);
      path = sym (ap StateForm.path r);
      mode = sym (ap StateForm.mode r);
      kont = Alike-reverse s.kont _ (
          frames-Alike s.heap _ t (reverse s.kont) f.kont
            (e ∙ ap (λ x. some (StateForm.kont x)) r));
    }

-- A state at the same point as one that can be rebound is taken up again.
point_resumes :
    (I : Interp) (s s' : State) (d : Delivery) (p : Principal)
    → StateOk I s
    → SamePoint s s'
    → is_abort d.restart ≡ false
    → Live I (resume I s' d p)
unfolding resume
point_resumes I s s' d p ok k a =
    let (ks, q, o) = rebind-Alike I ok.root s.kont s'.kont ok.frames k.kont in
    let found = ap I.load k.def_hash ∙ ok.loaded in
    let again : StateOk I (record s' { kont = ks }) = record {
      root = ok.root;
      node = ok.node;
      loaded = found;
      named = ap is_empty k.def_hash ∙ ok.named;
      at_node =
          subst (λ m. AtNode m ok.root s'.path ok.node) (sym k.mode)
            (subst (λ x. AtNode s.mode ok.root x ok.node) (sym k.path) ok.at_node);
      frames = o;
    } in
    rw (a, found, q)
      (unfold ready rebuilt in
        ready-Live I (record s' { kont = ks }) d p again (navigate ok.root s'.path) refl)

-- Where every definition that loads has a name, paths of 16-bit indices, functions with a body and no
-- do-while: whatever state a computation parks in, if its parts are within the sizes of Go and its
-- references lead to objects (`Held`), it is encoded, its bytes are decoded, and Resume takes up the state
-- that comes back, unless the choice is to abort. The machine is then coherent and ready to run.
pub Stored-restored :
    (I : Interp) (st : State) (d : Delivery) (p : Principal)
    → LoadsFit I
    → Stored I st
    → Held st
    → is_abort d.restart ≡ false
    → (bytes : Bytes) × (st' : State) × (encode st ≡ some bytes)
      × (decode_state bytes ≡ some st')
      × Live I (resume I st' d p)
Stored-restored I st d p ok s k a =
    let r = restored st k in
    (
      r.bytes,
      load_state r.form,
      r.encoded,
      r.decoded,
      point_resumes I st (load_state r.form) d p (Stored-StateOk I ok st s)
          (form_of-point st r.table r.form r.before) a,
    )
