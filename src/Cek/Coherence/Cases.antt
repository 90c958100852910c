-- ===== src/Cek/Coherence/Cases.antt =====
-- One rule for each way in which a transition branches: both branches keep the invariant.
use regel.Base.{ℕ, zero, suc, ◌≡◌, refl, Option, none, some, List, [], ◌∷◌}
use regel.Base.Int.{ℤ, pos, negsuc}
use regel.Rast.{Kind}
use regel.Cek.Value.{Value, Heap}
use regel.Cek.Ops.{OpResult}
use regel.Cek.Bind.{
  Bound, bound, unsupported, bind_crash, Activation, activation, bad_parameters, activation_crash,
}
use regel.Cek.Machine.{Meter, Step, Fault, Machine, fault, crash, Interp}
use regel.Cek.Coherence.{Keeps}

module _ (I : Interp) (mt : Meter) where
  pub int-Keeps :
      (i : ℤ) (a : ℕ → Step) (k : ℕ → Step)
      → ((n : ℕ) → Keeps I mt (a n))
      → ((p : ℕ) → Keeps I mt (k p))
      → Keeps I mt (elim i [ negsuc n ↦ a n | pos p ↦ k p ])
  int-Keeps (negsuc n) a k h g = h n
  int-Keeps (pos p) a k h g = g p

  -- A cursor that is 0 at first.
  pub first-Keeps :
      (i : ℤ) (a b : Step)
      → Keeps I mt a
      → Keeps I mt b
      → Keeps I mt (elim i [ pos zero ↦ a | _ ↦ b ])
  first-Keeps (pos zero) a b h k = h
  first-Keeps (pos (suc n)) a b h k = k
  first-Keeps (negsuc n) a b h k = k

  pub second-Keeps :
      (i : ℤ) (a b c : Step)
      → Keeps I mt a
      → Keeps I mt b
      → Keeps I mt c
      → Keeps I mt (elim i [ pos zero ↦ a | pos (suc zero) ↦ b | _ ↦ c ])
  second-Keeps (pos zero) a b c h k l = h
  second-Keeps (pos (suc zero)) a b c h k l = k
  second-Keeps (pos (suc (suc n))) a b c h k l = l
  second-Keeps (negsuc n) a b c h k l = l

  pub third-Keeps :
      (i : ℤ) (a b c d : Step)
      → Keeps I mt a
      → Keeps I mt b
      → Keeps I mt c
      → Keeps I mt d
      → Keeps I mt (elim i [ pos zero ↦ a | pos (suc zero) ↦ b | pos (suc (suc zero)) ↦ c | _ ↦ d ])
  third-Keeps (pos zero) a b c d h k l q = h
  third-Keeps (pos (suc zero)) a b c d h k l q = k
  third-Keeps (pos (suc (suc zero))) a b c d h k l q = l
  third-Keeps (pos (suc (suc (suc n)))) a b c d h k l q = q
  third-Keeps (negsuc n) a b c d h k l q = q

  -- The update classes 1 and 2.
  pub class-Keeps :
      (i : ℤ) (a b c : Step)
      → Keeps I mt a
      → Keeps I mt b
      → Keeps I mt c
      → Keeps I mt (elim i [ pos (suc zero) ↦ a | pos (suc (suc zero)) ↦ b | _ ↦ c ])
  class-Keeps (pos zero) a b c h k l = l
  class-Keeps (pos (suc zero)) a b c h k l = h
  class-Keeps (pos (suc (suc zero))) a b c h k l = k
  class-Keeps (pos (suc (suc (suc n)))) a b c h k l = l
  class-Keeps (negsuc n) a b c h k l = l

  pub op-Keeps :
      (r : OpResult) (k : Value → Step) (x : Fault) (m : Machine)
      → ((v : Value) → Keeps I mt (k v))
      → Keeps I mt
          (elim r [ OpResult.value v ↦ k v | OpResult.refused ↦ fault x m | OpResult.hang ↦ crash ])
  op-Keeps (OpResult.value v) k x m h = h v
  op-Keeps OpResult.refused k x m h = tt
  op-Keeps OpResult.hang k x m h = tt

  pub option-Keeps {ℓ} :
      {A : Type ℓ} (o : Option A) (a : Step) (k : A → Step)
      → Keeps I mt a
      → ((v : A) → o ≡ some v → Keeps I mt (k v))
      → Keeps I mt (elim o [ none ↦ a | some v ↦ k v ])
  option-Keeps none a k h g = h
  option-Keeps (some v) a k h g = g v refl

  pub bound-Keeps :
      (r : Bound) (x : Fault) (m : Machine) (k : Heap → List Value → Step)
      → ((h : Heap) (vs : List Value) → Keeps I mt (k h vs))
      → Keeps I mt (elim r [ unsupported ↦ fault x m | bind_crash ↦ crash | bound h vs ↦ k h vs ])
  bound-Keeps unsupported x m k h = tt
  bound-Keeps bind_crash x m k h = tt
  bound-Keeps (bound g vs) x m k h = h g vs

  pub activation-Keeps :
      (r : Activation) (x : Fault) (m : Machine) (k : Heap → ℕ → Step)
      → ((h : Heap) (a : ℕ) → Keeps I mt (k h a))
      → Keeps I mt (elim r [
        | activation_crash ↦ crash
        | bad_parameters ↦ fault x m
        | activation h a ↦ k h a
      ])
  activation-Keeps activation_crash x m k h = tt
  activation-Keeps bad_parameters x m k h = tt
  activation-Keeps (activation g a) x m k h = h g a

  -- The three assignable targets.
  pub target-Keeps :
      (t : Kind) (a b c d : Step)
      → Keeps I mt a
      → Keeps I mt b
      → Keeps I mt c
      → Keeps I mt d
      → Keeps I mt (elim t [ Kind.local ↦ a | Kind.member ↦ b | Kind.index ↦ c | _ ↦ d ])
  target-Keeps Kind.local a b c d h k l q = h
  target-Keeps Kind.member a b c d h k l q = k
  target-Keeps Kind.index a b c d h k l q = l
  target-Keeps _ a b c d h k l q = q

  pub local-Keeps :
      (t : Kind) (a d : Step)
      → Keeps I mt a
      → Keeps I mt d
      → Keeps I mt (elim t [ Kind.local ↦ a | _ ↦ d ])
  local-Keeps Kind.local a d h q = h
  local-Keeps _ a d h q = q

  pub callee-Keeps :
      (t : Kind) (a b d : Step)
      → Keeps I mt a
      → Keeps I mt b
      → Keeps I mt d
      → Keeps I mt (elim t [ Kind.native_body ↦ a | Kind.func ↦ b | _ ↦ d ])
  callee-Keeps Kind.native_body a b d h k q = h
  callee-Keeps Kind.func a b d h k q = k
  callee-Keeps _ a b d h k q = q

  pub array_value-Keeps :
      (v : Value) (k : ℕ → Step) (b : Step)
      → ((a : ℕ) → Keeps I mt (k a))
      → Keeps I mt b
      → Keeps I mt (elim v [ Value.array a ↦ k a | _ ↦ b ])
  array_value-Keeps (Value.array a) k b h q = h a
  array_value-Keeps _ k b h q = q

  pub record_value-Keeps :
      (v : Value) (k : ℕ → Step) (b : Step)
      → ((a : ℕ) → Keeps I mt (k a))
      → Keeps I mt b
      → Keeps I mt (elim v [ Value.rec a ↦ k a | _ ↦ b ])
  record_value-Keeps (Value.rec a) k b h q = h a
  record_value-Keeps _ k b h q = q

  pub closure_value-Keeps :
      (v : Value) (k : ℕ → Step) (b : Step)
      → ((a : ℕ) → Keeps I mt (k a))
      → Keeps I mt b
      → Keeps I mt (elim v [ Value.closure a ↦ k a | _ ↦ b ])
  closure_value-Keeps (Value.closure a) k b h q = h a
  closure_value-Keeps _ k b h q = q

  pub list-Keeps {ℓ} :
      {A : Type ℓ} (o : Option (List A)) (a b : Step) (k : A → Step)
      → Keeps I mt a
      → Keeps I mt b
      → ((v : A) → Keeps I mt (k v))
      → Keeps I mt (elim o [ none ↦ a | some [] ↦ b | some (v ∷ vs) ↦ k v ])
  list-Keeps none a b k h g q = h
  list-Keeps (some []) a b k h g q = g
  list-Keeps (some (v ∷ vs)) a b k h g q = q v
