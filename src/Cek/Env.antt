-- ===== src/Cek/Env.antt =====
-- internal/cek/env.go: activation records chained by parent pointers; slots by De Bruijn index.
use regel.Base.{
  ℕ, zero, suc, ◌+◌, ◌-◌, ◌*◌, Option, none, some, List, length, get_elem?, set, ltb, if◌then◌else◌,
  ◌>>=◌,
}
use regel.Cek.Value.{Value, Object, env_obj, Heap, alloc}

pub record EnvObj : Type 0 where
  pub parent : Option ℕ
  pub slots : List Value

unfoldable pub as_env : Object → Option EnvObj
as_env (env_obj p s) = some (record { parent = p; slots = s })
as_env _ = none

unfoldable pub env_at : Heap → ℕ → Option EnvObj
unfolding as_env
env_at h a = do o ← get_elem? h a; as_env o

-- `func pushEnv`: the record goes to the end of the heap.
unfoldable pub push_env : Heap → Option ℕ → List Value → Heap
push_env h parent slots = alloc h (env_obj parent slots)

-- Where the loop of `lookup` and `assign` ends: at a slot of a record, at the end of the chain, or
-- never (a chain that is a circle of empty records).
pub data Slot : Type 0 where
  at : ℕ → ℕ → Slot
  unbound : Slot
  endless : Slot

-- The loop that `lookup` and `assign` share, for an index below 2^63, which Go's int holds; `n - 1 - i` counts from the last slot.
unfoldable pub find_slot : ℕ → Heap → Option ℕ → ℕ → Slot
find_slot fuel h none i = unbound
find_slot zero h (some a) i = endless
find_slot (suc fuel) h (some a) i = elim (env_at h a) [
  | none ↦ endless
  | some e ↦
      if ltb i (length e.slots)
      then at a (length e.slots - 1 - i)
      else find_slot fuel h e.parent (i - length e.slots)
]

-- A circle with a slot takes at least one off the index in each turn.
abbrev pub chain_fuel : Heap → ℕ → ℕ
chain_fuel h i = (i + 1) * (length h + 1)

abbrev pub slot_value : Heap → Slot → Option Value
slot_value h unbound = none
slot_value h endless = none
slot_value h (at a j) = do e ← env_at h a; get_elem? e.slots j

-- `func (e *Env) lookup`
unfoldable pub lookup : Heap → Option ℕ → ℕ → Option Value
unfolding find_slot env_at
lookup h e i = slot_value h (find_slot (chain_fuel h i) h e i)

unfoldable pub write_env : Heap → ℕ → ℕ → Value → Option EnvObj → Heap
write_env h a j v none = h
write_env h a j v (some e) = set h a (env_obj e.parent (set e.slots j v))

unfoldable pub write_slot : Heap → Slot → Value → Heap
unfolding write_env
write_slot h (at a j) v = write_env h a j v (env_at h a)
write_slot h _ v = h

-- `func (e *Env) assign`; nothing is written where no slot is found.
unfoldable pub assign : Heap → Option ℕ → ℕ → Value → Heap
unfolding find_slot env_at write_slot
assign h e i v = write_slot h (find_slot (chain_fuel h i) h e i) v
