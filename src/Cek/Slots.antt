-- ===== src/Cek/Slots.antt =====
-- The environments of internal/cek/env.go: reading after a write, and the slots of a new record.
use regel.Base.{
  ℕ, zero, suc, ◌+◌, ◌-◌, ◌*◌, ◌≡◌, ◌≢◌, refl, ap, ◌∙◌, true, Option, none, some, List, length,
  get_elem?, set, ltb, if◌then◌else◌, length-set, get_elem?-set_self, get_elem?-set_ne,
  lt_of_get_elem?, Bool-cases, Option-cases, inl, inr, arith, ◌==◌,
}
use regel.Cek.Value.{Value, Object, env_obj, Heap}
use regel.Cek.Env.{
  EnvObj, env_at, Slot, at, unbound, endless, find_slot, chain_fuel, slot_value, lookup, write_env,
  write_slot, assign,
}

-- Two heaps whose environments have the same parents and sizes.
abbrev shape : Option EnvObj → Option (Option ℕ × ℕ)
shape none = none
shape (some e) = some (e.parent, length e.slots)

parent_of : Option (Option ℕ × ℕ) → Option ℕ
parent_of none = none
parent_of (some (p, n)) = p

size_of : Option (Option ℕ × ℕ) → ℕ
size_of none = 0
size_of (some (p, n)) = n

SameShape : Heap → Heap → Type 0
SameShape h h' = (a : ℕ) → shape (env_at h a) ≡ shape (env_at h' a)

find_slot-step :
    (fuel : ℕ) (h h' : Heap) (i : ℕ) (o o' : Option EnvObj)
    → shape o ≡ shape o'
    → ((p : Option ℕ) (j : ℕ) → find_slot fuel h p j ≡ find_slot fuel h' p j)
    → (a : ℕ)
    → (elim o [
      | none ↦ endless
      | some e ↦
          if ltb i (length e.slots)
          then at a (length e.slots - 1 - i)
          else find_slot fuel h e.parent (i - length e.slots)
    ])
      ≡ (elim o' [
        | none ↦ endless
        | some e ↦
            if ltb i (length e.slots)
            then at a (length e.slots - 1 - i)
            else find_slot fuel h' e.parent (i - length e.slots)
      ])
unfolding parent_of size_of
find_slot-step fuel h h' i none none s r a = refl
find_slot-step fuel h h' i none (some e) s r a = absurd (ground arith)
find_slot-step fuel h h' i (some e) none s r a = absurd (ground arith)
find_slot-step fuel h h' i (some d) (some e) s r a =
    rw (ap parent_of s, ap size_of s, r e.parent (i - length e.slots)) refl

find_slot-shape :
    (fuel : ℕ) (h h' : Heap)
    → SameShape h h'
    → (p : Option ℕ) (i : ℕ) → find_slot fuel h p i ≡ find_slot fuel h' p i
unfolding find_slot SameShape
find_slot-shape zero h h' s none i = refl
find_slot-shape zero h h' s (some a) i = refl
find_slot-shape (suc fuel) h h' s none i = refl
find_slot-shape (suc fuel) h h' s (some a) i =
    find_slot-step fuel h h' i (env_at h a) (env_at h' a) (s a) (find_slot-shape fuel h h' s) a

pub env_at-set_self :
    (h : Heap) (a : ℕ) (e : EnvObj) (p : Option ℕ) (vs : List Value)
    → env_at h a ≡ some e
    → env_at (set h a (env_obj p vs)) a ≡ some (record { parent = p; slots = vs })
unfolding env_at
env_at-set_self h a e p vs q = elim (Option-cases (get_elem? h a)) [
  | inl z ↦ absurd (ground (arith, rw z at q))
  | inr (o, z) ↦ rw (get_elem?-set_self h a (env_obj p vs) (lt_of_get_elem? h a o z)) refl
]

pub env_at-set_ne : (h : Heap) (a b : ℕ) (o : Object) → a ≢ b → env_at (set h a o) b ≡ env_at h b
unfolding env_at
env_at-set_ne h a b o n = rw (get_elem?-set_ne h a b o n) refl

-- A write of a slot keeps every parent and every size.
write_env-shape :
    (h : Heap) (a j : ℕ) (v : Value) (e : EnvObj)
    → env_at h a ≡ some e
    → SameShape (set h a (env_obj e.parent (set e.slots j v))) h
unfolding SameShape
write_env-shape h a j v e q b = elim (Bool-cases (a == b)) [
  | inl t ↦
      rw⁻¹ (same_address t)
        (rw (env_at-set_self h a e e.parent (set e.slots j v) q, q, length-set e.slots j v) refl)
  | inr t ↦ ap shape (env_at-set_ne h a b _ (λ r. ground (arith, t)))
]
  where
    same_address : (a == b) ≡ true → a ≡ b
    same_address t = ground (arith, t)

-- The heap after a write through a slot that stands in an environment.
write_slot-shape : (h : Heap) (s : Slot) (v : Value) → SameShape (write_slot h s v) h
unfolding write_slot write_env
write_slot-shape h unbound v = unfold SameShape in λ a. refl
write_slot-shape h endless v = unfold SameShape in λ a. refl
write_slot-shape h (at a j) v = elim (Option-cases (env_at h a)) [
  | inl z ↦ rw z (unfold SameShape in λ b. refl)
  | inr (e, z) ↦ rw z (write_env-shape h a j v e z)
]

length-write_slot : (h : Heap) (s : Slot) (v : Value) → length (write_slot h s v) ≡ length h
unfolding write_slot write_env
length-write_slot h unbound v = refl
length-write_slot h endless v = refl
length-write_slot h (at a j) v = elim (Option-cases (env_at h a)) [
  | inl z ↦ rw z refl
  | inr (e, z) ↦ rw z (length-set h a _)
]

slot_value-write_slot :
    (h : Heap) (s : Slot) (v old : Value)
    → slot_value h s ≡ some old
    → slot_value (write_slot h s v) s ≡ some v
unfolding write_slot write_env
slot_value-write_slot h unbound v old q = absurd (ground arith)
slot_value-write_slot h endless v old q = absurd (ground arith)
slot_value-write_slot h (at a j) v old q = elim (Option-cases (env_at h a)) [
  | inl z ↦ absurd (ground (arith, rw z at q))
  | inr (e, z) ↦
      rw (z, env_at-set_self h a e e.parent (set e.slots j v) z)
        (get_elem?-set_self e.slots j v (lt_of_get_elem? e.slots j old (rw z at q)))
]

-- A write moves no slot.
pub find_slot-assign :
    (h : Heap) (p q : Option ℕ) (i j : ℕ) (v : Value)
    → find_slot (chain_fuel (assign h p i v) j) (assign h p i v) q j
      ≡ find_slot (chain_fuel h j) h q j
unfolding assign
find_slot-assign h p q i j v =
    ap (λ n. find_slot ((j + 1) * (n + 1)) (assign h p i v) q j) (length-write_slot h s v)
    ∙ find_slot-shape (chain_fuel h j) (assign h p i v) h (write_slot-shape h s v) q j
  where
    s : Slot
    s = find_slot (chain_fuel h i) h p i

-- A local that has a value reads as what was assigned to it.
pub lookup-assign :
    (h : Heap) (p : Option ℕ) (i : ℕ) (v old : Value)
    → lookup h p i ≡ some old
    → lookup (assign h p i v) p i ≡ some v
unfolding lookup
lookup-assign h p i v old q =
    rw (find_slot-assign h p p i i v)
      (unfold assign in slot_value-write_slot h (find_slot (chain_fuel h i) h p i) v old q)
