-- ===== src/Cek/Aliasing.antt =====
-- The environments of internal/cek/env.go: what a write of one slot does to a read of any slot.
use regel.Base.{
  ℕ, ◌≡◌, ◌≢◌, refl, ap₂, true, Option, some, set, get_elem?-set_ne, Bool-cases, Option-cases, inl,
  inr, arith, ◌==◌,
}
use regel.Cek.Value.{Value, env_obj, Heap}
use regel.Cek.Env.{
  EnvObj, env_at, Slot, at, unbound, endless, find_slot, chain_fuel, slot_value, lookup, write_env,
  write_slot, assign,
}
use regel.Cek.Slots.{env_at-set_self, env_at-set_ne, find_slot-assign}

same_address : (a b : ℕ) → (a == b) ≡ true → a ≡ b
same_address a b t = ground (arith, t)

other_slot :
    (h : Heap) (a b j k : ℕ) (v : Value) (e : EnvObj)
    → env_at h a ≡ some e
    → at a j ≢ at b k
    → slot_value (set h a (env_obj e.parent (set e.slots j v))) (at b k) ≡ slot_value h (at b k)
other_slot h a b j k v e q n = elim (Bool-cases (a == b)) [
  | inl t ↦ rw⁻¹ (same_address a b t) (
      rw (env_at-set_self h a e e.parent (set e.slots j v) q, q)
        (get_elem?-set_ne e.slots j k v (λ r. n (ap₂ at (same_address a b t) r))))
  | inr t ↦
      rw (env_at-set_ne h a b (env_obj e.parent (set e.slots j v)) (λ r. ground (arith, t))) refl
]

slot_value-write_other :
    (h : Heap) (s t : Slot) (v : Value) → s ≢ t → slot_value (write_slot h s v) t ≡ slot_value h t
unfolding write_slot write_env
slot_value-write_other h unbound t v n = refl
slot_value-write_other h endless t v n = refl
slot_value-write_other h (at a j) unbound v n = refl
slot_value-write_other h (at a j) endless v n = refl
slot_value-write_other h (at a j) (at b k) v n = elim (Option-cases (env_at h a)) [
  | inl z ↦ rw z refl
  | inr (e, z) ↦ rw z (other_slot h a b j k v e z n)
]

-- A write of a local changes no other local: what reads from another slot, from any environment,
-- reads as before.
pub lookup-assign_other :
    (h : Heap) (p q : Option ℕ) (i j : ℕ) (v : Value)
    → find_slot (chain_fuel h i) h p i ≢ find_slot (chain_fuel h j) h q j
    → lookup (assign h p i v) q j ≡ lookup h q j
unfolding lookup
lookup-assign_other h p q i j v n = rw (find_slot-assign h p q i j v) (
    unfold assign in
    slot_value-write_other h (find_slot (chain_fuel h i) h p i) (find_slot (chain_fuel h j) h q j) v
      n)
