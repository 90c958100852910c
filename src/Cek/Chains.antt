-- ===== src/Cek/Chains.antt =====
-- `lookup` of internal/cek/env.go counts the slots along the parents of the environments.
use mathlib.Core.Path.{subst}
use mathlib.Core.List.{reverse, reverse_aux, reverse_aux-eq}
use regel.Base.{
  sym, ◌++◌, ltb→lt, ℕ, zero, suc, ◌+◌, ◌*◌, ◌-◌, ◌<◌, ◌≤◌, ◌≡◌, refl, ap, ◌∙◌, Bool, true, false,
  Option, none, some, List, [], ◌∷◌, length, get_elem?, ltb, if◌then◌else◌, Option-cases,
  Bool-cases, inl, inr, arith, lt_of_get_elem?, get_elem?-append_left, get_elem?-append_right,
}
use regel.Cek.Value.{Value, Heap, env_obj, alloc, Object}
use regel.Cek.Env.{EnvObj, env_at, push_env, at, endless, find_slot, chain_fuel, slot_value, lookup}

-- A parent was made before its child.
abbrev pub is_older : ℕ → Option ℕ → Bool
is_older a none = true
is_older a (some p) = ltb p a

-- The chain from an environment: each parent is an environment that is older.
pub data Chain (h : Heap) : Option ℕ → Type 0 where
  root : Chain h none
  link :
      (a : ℕ) (e : EnvObj)
      → env_at h a ≡ some e
      → is_older a e.parent ≡ true
      → Chain h e.parent
      → Chain h (some a)

env_at-lt : (h : Heap) (a : ℕ) (e : EnvObj) → env_at h a ≡ some e → a < length h
unfolding env_at
env_at-lt h a e q = elim (Option-cases (get_elem? h a)) [
  | inl z ↦ absurd (ground (arith, rw z at q))
  | inr (o, z) ↦ lt_of_get_elem? h a o z
]

-- The fuel that a chain needs: the address, and one more.
abbrev need_fuel : Option ℕ → ℕ
need_fuel none = 0
need_fuel (some a) = suc a

older_fuel :
    (a fuel : ℕ) (p : Option ℕ) → is_older a p ≡ true → suc a ≤ suc fuel → need_fuel p ≤ fuel
older_fuel a fuel none h k = omega arith
older_fuel a fuel (some p) h k = ground (arith, h, k)

-- The slots of a chain, the nearest first: those of a record from the last to the first, and then those
-- of its parents.
unfoldable pub along : {h : Heap} {p : Option ℕ} → Chain h p → List Value
along root = []
along (link a e q o c) = reverse e.slots ++ along c

module _ {A : Type 0} where
  above_reverse :
      (xs ys : List A) (j : ℕ) → get_elem? (reverse_aux xs ys) (length xs + j) ≡ get_elem? ys j
  above_reverse [] ys j = ap (get_elem? ys) (omega arith)
  above_reverse (x ∷ xs) ys j =
      ap (get_elem? (reverse_aux xs (x ∷ ys))) (omega arith) ∙ above_reverse xs (x ∷ ys) (suc j)

  within_reverse :
      (xs ys : List A) (i : ℕ)
      → i < length xs
      → get_elem? (reverse_aux xs ys) i ≡ get_elem? xs (length xs - 1 - i)
  within_reverse [] ys i l = absurd (omega (arith, l))
  within_reverse (x ∷ xs) ys i l = elim (Bool-cases (ltb i (length xs))) [
    | inl t ↦
        within_reverse xs (x ∷ ys) i (ltb→lt i (length xs) t)
        ∙ ap (get_elem? (x ∷ xs)) (before i (length xs) (ltb→lt i (length xs) t))
    | inr t ↦
        ap (get_elem? (reverse_aux xs (x ∷ ys))) (last i (length xs) l t)
        ∙ above_reverse xs (x ∷ ys) 0
        ∙ ap (get_elem? (x ∷ xs)) (first i (length xs) l t)
  ]
    where
      before : (i n : ℕ) → i < n → suc (n - 1 - i) ≡ suc n - 1 - i
      before i n k = omega (arith, k)

      last : (i n : ℕ) → i < suc n → ltb i n ≡ false → i ≡ n + 0
      last i n k t = ground (arith, k, t)

      first : (i n : ℕ) → i < suc n → ltb i n ≡ false → 0 ≡ suc n - 1 - i
      first i n k t = ground (arith, k, t)

  slot_near :
      (xs ys : List A) (i : ℕ)
      → ltb i (length xs) ≡ true
      → get_elem? xs (length xs - 1 - i) ≡ get_elem? (reverse xs ++ ys) i
  slot_near xs ys i t =
      sym (within_reverse xs ys i (ltb→lt i (length xs) t))
      ∙ ap (λ l. get_elem? l i) (reverse_aux-eq xs ys)

  slot_far :
      (xs ys : List A) (i : ℕ)
      → ltb i (length xs) ≡ false
      → get_elem? ys (i - length xs) ≡ get_elem? (reverse xs ++ ys) i
  slot_far xs ys i t =
      sym (above_reverse xs ys (i - length xs))
      ∙ ap (get_elem? (reverse_aux xs ys)) (rejoin i (length xs) t)
      ∙ ap (λ l. get_elem? l i) (reverse_aux-eq xs ys)
    where
      rejoin : (i n : ℕ) → ltb i n ≡ false → n + (i - n) ≡ i
      rejoin i n k = ground (arith, k)

-- One link of the walk, the object at the address being known.
link_slot :
    (h : Heap) (fuel a i : ℕ) (e : EnvObj) (o : Option EnvObj) (ys : List Value)
    → env_at h a ≡ o
    → o ≡ some e
    → ((j : ℕ) → slot_value h (find_slot fuel h e.parent j) ≡ get_elem? ys j)
    → slot_value h (elim o [
      | none ↦ endless
      | some d ↦
          if ltb i (length d.slots)
          then at a (length d.slots - 1 - i)
          else find_slot fuel h d.parent (i - length d.slots)
    ])
      ≡ get_elem? (reverse e.slots ++ ys) i
link_slot h fuel a i e none ys z q r = absurd (ground (arith, q))
link_slot h fuel a i e (some d) ys z q r =
    subst
      (λ c.
        slot_value h (
          if ltb i (length (EnvObj.slots c))
          then at a (length (EnvObj.slots c) - 1 - i)
          else find_slot fuel h (EnvObj.parent c) (i - length (EnvObj.slots c)))
        ≡ get_elem? (reverse e.slots ++ ys) i)
      (sym (same_env q)) found
  where
    same_env : some d ≡ some e → d ≡ e
    same_env k = cc k

    found :
        slot_value h (
          if ltb i (length e.slots)
          then at a (length e.slots - 1 - i)
          else find_slot fuel h e.parent (i - length e.slots))
        ≡ get_elem? (reverse e.slots ++ ys) i
    found = elim (Bool-cases (ltb i (length e.slots))) [
      | inl t ↦ rw (t, z ∙ q) (slot_near e.slots ys i t)
      | inr t ↦ rw t (r (i - length e.slots) ∙ slot_far e.slots ys i t)
    ]

find_slot-along :
    (h : Heap) (fuel : ℕ) (p : Option ℕ) (i : ℕ) (c : Chain h p)
    → need_fuel p ≤ fuel
    → slot_value h (find_slot fuel h p i) ≡ get_elem? (along c) i
unfolding find_slot along
find_slot-along h zero _ i root k = refl
find_slot-along h (suc fuel) _ i root k = refl
find_slot-along h zero _ i (link a e q o c) k = absurd (omega (arith, k))
find_slot-along h (suc fuel) _ i (link a e q o c) k =
    link_slot h fuel a i e (env_at h a) (along c) refl q
      (λ j. find_slot-along h fuel e.parent j c (older_fuel a fuel e.parent o k))

product_bound : (a n j : ℕ) → a < n → suc a ≤ (j + 1) * (n + 1)
product_bound a n zero r = omega (arith, r)
product_bound a n (suc j) r = grind (arith, product_bound a n j r)

need_fuel-chain_fuel : (h : Heap) (p : Option ℕ) (i : ℕ) → Chain h p → need_fuel p ≤ chain_fuel h i
need_fuel-chain_fuel h _ i root = ground arith
need_fuel-chain_fuel h _ i (link a e q o c) = product_bound a (length h) i (env_at-lt h a e q)

env_at-alloc :
    (h : Heap) (o : Object) (a : ℕ) (e : EnvObj)
    → env_at h a ≡ some e
    → env_at (alloc h o) a ≡ some e
unfolding env_at
env_at-alloc h o a e q = rw (get_elem?-append_left h (o ∷ []) a (env_at-lt h a e q)) q

new_env :
    (h : Heap) (parent : Option ℕ) (vs : List Value)
    → env_at (push_env h parent vs) (length h) ≡ some (record { parent = parent; slots = vs })
unfolding push_env env_at
new_env h parent vs =
    rw (get_elem?-append_right h (env_obj parent vs ∷ []) 0 (length h) (omega arith)) refl

is_older-length : (h : Heap) (p : Option ℕ) → Chain h p → is_older (length h) p ≡ true
is_older-length h _ root = refl
is_older-length h _ (link a e q o c) = ground (arith, env_at-lt h a e q)

Chain-alloc :
    (h : Heap) (parent p : Option ℕ) (vs : List Value) → Chain h p → Chain (push_env h parent vs) p
unfolding push_env
Chain-alloc h parent _ vs root = root
Chain-alloc h parent _ vs (link a e q o c) =
    link a e (env_at-alloc h (env_obj parent vs) a e q) o (Chain-alloc h parent e.parent vs c)

Chain-push_env :
    (h : Heap) (parent : Option ℕ) (vs : List Value)
    → Chain h parent
    → Chain (push_env h parent vs) (some (length h))
Chain-push_env h parent vs c =
    link (length h) (record { parent = parent; slots = vs }) (new_env h parent vs)
      (is_older-length h parent c) (Chain-alloc h parent parent vs c)

along-alloc :
    (h : Heap) (parent p : Option ℕ) (vs : List Value) (c : Chain h p)
    → along (Chain-alloc h parent p vs c) ≡ along c
unfolding along Chain-alloc
along-alloc h parent _ vs root = refl
along-alloc h parent _ vs (link a e q o c) =
    ap (λ l. reverse e.slots ++ l) (along-alloc h parent e.parent vs c)

-- Where each parent is an environment older than its child, a local's index counts the slots of the chain
-- from the nearest; and from an environment that is pushed on the chain, it counts the new slots, the
-- last first, and then those.
pub lookup-along :
    (h : Heap) (p : Option ℕ) (vs : List Value) (i : ℕ) (c : Chain h p)
    → (lookup h p i ≡ get_elem? (along c) i)
      × (lookup (push_env h p vs) (some (length h)) i ≡ get_elem? (reverse vs ++ along c) i)
unfolding lookup along push_env Chain-push_env
lookup-along h p vs i c = (
  find_slot-along h (chain_fuel h i) p i c (need_fuel-chain_fuel h p i c),
  find_slot-along _ (chain_fuel (push_env h p vs) i) _ i (Chain-push_env h p vs c)
        (need_fuel-chain_fuel _ _ i (Chain-push_env h p vs c))
      ∙ ap (λ l. get_elem? (reverse vs ++ l) i) (along-alloc h p p vs c),
)
