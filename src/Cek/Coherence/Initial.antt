-- ===== src/Cek/Coherence/Initial.antt =====
-- InitialState of internal/cek/resume.go makes states that can be resumed.
use regel.Base.{ℕ, ◌≡◌, refl, Option, none, some, List, [], ◌∷◌, is_empty, Str}
use regel.Rast.{Node, Kind, kind}
use regel.Rast.Fits.{fits-func}
use regel.Cek.Value.{Value, ClosureObj, Path16, Heap}
use regel.Cek.Bind.{Activation, activation, bad_parameters, activation_crash}
use regel.Cek.Machine.{Interp, navigate, child}
use regel.Cek.Initial.{
  Initial, fresh, Budget, fresh_state, fresh_call, fresh_closure, fresh_definition, initial_state,
}
use regel.Cek.Coherence.{bottom, StateOk, LoadsFit}
use regel.Cek.Coherence.Basic.{navigate-child, navigate-fits}

abbrev pub Fresh : Interp → Initial → Type 0
Fresh I (fresh st) = StateOk I st
Fresh I _ = Unit {0}

module _ (I : Interp) (ok : LoadsFit I) where
  Fresh-option {ℓ} :
      {A : Type ℓ} (o : Option A) (a : Initial) (k : A → Initial)
      → Fresh I a
      → ((v : A) → o ≡ some v → Fresh I (k v))
      → Fresh I (elim o [ none ↦ a | some v ↦ k v ])
  Fresh-option none a k h g = h
  Fresh-option (some v) a k h g = g v refl

  Fresh-kind :
      (j k : Kind) (a b : Initial)
      → j ≡ k
      → (j ≡ Kind.func → Fresh I a)
      → Fresh I b
      → Fresh I (elim k [ Kind.func ↦ a | _ ↦ b ])
  Fresh-kind j Kind.func a b e h g = h e
  Fresh-kind j _ a b e h g = g

  fresh_state-StateOk :
      (b : Budget) (d : Str) (p : Path16) (e : Option ℕ) (h : Heap) (root n : Node)
      → I.load d ≡ some root
      → navigate root p ≡ some n
      → StateOk I (fresh_state b d p e h)
  unfolding fresh_state is_empty
  fresh_state-StateOk b d p e h root n l at = record {
    root = root;
    node = n;
    loaded = l;
    named = (ok d root l).1;
    at_node = at;
    frames = bottom root _ refl refl;
  }

  fresh_call-Fresh :
      (b : Budget) (d : Str) (p : Path16) (r : Activation) (root n : Node)
      → I.load d ≡ some root
      → navigate root p ≡ some n
      → Fresh I (fresh_call b d p r)
  unfolding fresh_call
  fresh_call-Fresh b d p activation_crash root n l at = tt
  fresh_call-Fresh b d p bad_parameters root n l at = tt
  fresh_call-Fresh b d p (activation h a) root n l at =
      fresh_state-StateOk b d p (some a) h root n l at

  fresh_definition-Fresh :
      (b : Budget) (d : Str) (args : List Value) (h : Heap) (root : Node)
      → I.load d ≡ some root
      → Fresh I (fresh_definition I.floats b d args h root)
  unfolding fresh_definition
  fresh_definition-Fresh b d args h root l =
      Fresh-kind (kind root) (kind root) _ _ refl
        (λ e.
          let (c, z) = fits-func root (ok d root l).0 e in
          fresh_call-Fresh b d (3 ∷ []) _ root c l (unfold navigate in rw z refl))
        (fresh_state-StateOk b d [] none h root root l (unfold navigate in refl))

  fresh_closure-Fresh :
      (b : Budget) (c : ClosureObj) (args : List Value) (h : Heap) (root fn : Node)
      → I.load c.def_hash ≡ some root
      → navigate root c.path ≡ some fn
      → Fresh I (fresh_closure I.floats b c args h fn)
  unfolding fresh_closure
  fresh_closure-Fresh b c args h root fn l at =
      Fresh-kind (kind fn) (kind fn) _ _ refl
        (λ e.
          let fit = (ok c.def_hash root l).0 in
          let (body, z) = fits-func fn (navigate-fits root fn c.path fit at) e in
          fresh_call-Fresh b c.def_hash (child c.path 3) _ root body l
            (navigate-child root fn body c.path 3 fit at z))
        tt

  -- Where every definition that loads has a name, paths of 16-bit indices, functions with a body and no
  -- do-while, a state that InitialState makes can be rebound.
  pub initial_state-Fresh :
      (b : Budget) (d : Str) (c : Option ClosureObj) (args : List Value) (h : Heap)
      → Fresh I (initial_state I b d c args h)
  unfolding initial_state
  initial_state-Fresh b d none args h =
      Fresh-option (I.load d) _ _ tt (λ root l. fresh_definition-Fresh b d args h root l)
  initial_state-Fresh b d (some c) args h = Fresh-option (I.load c.def_hash) _ _ tt λ root l.
      Fresh-option (navigate root c.path) _ _ tt
        λ fn at. fresh_closure-Fresh b c args h root fn l at
