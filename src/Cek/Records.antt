-- ===== src/Cek/Records.antt =====
-- RecordObj of internal/cek/value.go: the keys in insertion order beside the map, and growSet of
-- props.go.
use regel.Base.{
  ℕ, zero, suc, ◌+◌, ◌-◌, ◌≤◌, ◌≡◌, refl, sym, ap, ◌∙◌, Bool, true, false, not, ◌&&◌, ◌||◌, none,
  some, List, [], ◌∷◌, ◌++◌, length, get_elem?, replicate, length-append, get_elem?-set_self,
  get_elem?-set_ne, length-replicate, get_elem?-replicate, get_elem?-append_left,
  get_elem?-append_right, Str, str_eq, str_eq_refl, str_eq→eq, if◌then◌else◌, ltb, ltb→lt, ◌==◌,
  Bool-cases, inl, inr, arith,
}
use regel.Base.Int.{pos}
use regel.Cek.Value.{Value, RecordObj, record_get, record_set, lookup_key, insert_key, has_value}
use regel.Cek.Props.{grow_set}

abbrev pub elem : Str → List Str → Bool
elem k [] = false
elem k (j ∷ js) = str_eq j k || elem k js

abbrev pub distinct : List Str → Bool
distinct [] = true
distinct (k ∷ ks) = not (elem k ks) && distinct ks

-- The keys are those of the map, each once.
abbrev pub RecordOk : RecordObj → Type 0
RecordOk r = ((k : Str) → elem k r.keys ≡ has_value (record_get r k)) × (distinct r.keys ≡ true)

pub str_eq-sym : (s t : Str) → str_eq s t ≡ str_eq t s
str_eq-sym s t = elim (Bool-cases (str_eq s t)) [
  | inl e ↦ rw (str_eq→eq s t e) refl
  | inr e ↦ elim (Bool-cases (str_eq t s)) [ inl d ↦ rw (str_eq→eq t s d) refl | inr d ↦ e ∙ sym d ]
]

pub lookup_key-insert_key :
    (k : Str) (v : Value) (m : List (Str × Value)) → lookup_key k (insert_key k v m) ≡ some v
unfolding lookup_key insert_key
lookup_key-insert_key k v [] = rw (str_eq_refl k) refl
lookup_key-insert_key k v ((j, w) ∷ m) = elim (Bool-cases (str_eq j k)) [
  | inl e ↦ rw (e, e) refl
  | inr e ↦ rw (e, e) (lookup_key-insert_key k v m)
]

pub lookup_key-insert_key_ne :
    (j k : Str) (v : Value) (m : List (Str × Value))
    → str_eq k j ≡ false
    → lookup_key j (insert_key k v m) ≡ lookup_key j m
unfolding lookup_key insert_key
lookup_key-insert_key_ne j k v [] h = rw h refl
lookup_key-insert_key_ne j k v ((i, w) ∷ m) h = elim (Bool-cases (str_eq i k)) [
  | inl e ↦ rw (e, ap (λ x. str_eq x j) (str_eq→eq i k e) ∙ h) refl
  | inr e ↦ rw e (ap (λ x. if str_eq i j then some w else x) (lookup_key-insert_key_ne j k v m h))
]

-- What was set is read back; every other key reads as before.
pub record_get-record_set :
    (r : RecordObj) (j k : Str) (v : Value)
    → record_get (record_set r k v) j ≡ (if str_eq k j then some v else record_get r j)
unfolding record_get record_set
record_get-record_set r j k v = elim (Bool-cases (str_eq k j)) [
  | inl e ↦ rw e (
      ap (λ x. lookup_key x (insert_key k v r.entries)) (sym (str_eq→eq k j e))
      ∙ lookup_key-insert_key k v r.entries)
  | inr e ↦ rw e (lookup_key-insert_key_ne j k v r.entries e)
]

elem-append : (k j : Str) (ks : List Str) → elem k (ks ++ (j ∷ [])) ≡ (elem k ks || str_eq j k)
elem-append k j [] = ground arith
elem-append k j (i ∷ ks) = ground (arith, elem-append k j ks)

distinct-append :
    (k : Str) (ks : List Str)
    → elem k ks ≡ false
    → distinct ks ≡ true
    → distinct (ks ++ (k ∷ [])) ≡ true
distinct-append k [] h d = refl
distinct-append k (j ∷ ks) h d =
    ground (arith, elem-append j k ks, str_eq-sym j k, distinct-append k ks)

record_set-keys :
    (r : RecordObj) (k : Str) (v : Value)
    → (record_set r k v).keys ≡ (if has_value (record_get r k) then r.keys else r.keys ++ (k ∷ []))
unfolding record_set
record_set-keys r k v = refl

-- A key is among the keys if it was, or if it is the one that is set.
members_step :
    (k j : Str) (t : Bool) (ks : List Str)
    → elem k ks ≡ t
    → elem j (if t then ks else ks ++ (k ∷ [])) ≡ (elem j ks || str_eq k j)
members_step k j false ks h = elem-append j k ks
members_step k j true ks h = elim (Bool-cases (str_eq k j)) [
  | inl e ↦ rw (e, sym (str_eq→eq k j e), h) refl
  | inr e ↦ ground (arith, e)
]

-- Setting keeps the record well formed: its keys are those of its map, each once.
pub record_set-RecordOk :
    (r : RecordObj) (k : Str) (v : Value) → RecordOk r → RecordOk (record_set r k v)
record_set-RecordOk r k v ok = (λ j. members j, once)
  where
    fresh : has_value (record_get r k) ≡ false → elem k r.keys ≡ false
    fresh h = ok.0 k ∙ h

    known :
        (j : Str)
        → (elem j r.keys || str_eq k j) ≡ has_value (if str_eq k j then some v else record_get r j)
    known j = elim (Bool-cases (str_eq k j)) [
      | inl e ↦ ground (arith, e)
      | inr e ↦ ground (arith, e, ok.0 j)
    ]

    members :
        (j : Str) → elem j (record_set r k v).keys ≡ has_value (record_get (record_set r k v) j)
    members j =
        rw (record_get-record_set r j k v, record_set-keys r k v)
          (members_step k j (has_value (record_get r k)) r.keys (ok.0 k) ∙ known j)

    once : distinct (record_set r k v).keys ≡ true
    once = rw (record_set-keys r k v) (elim (Bool-cases (has_value (record_get r k))) [
      | inl h ↦ rw h ok.1
      | inr h ↦ rw h (distinct-append k r.keys (fresh h) ok.1)
    ])

get_elem?-past {ℓ} : {A : Type ℓ} (xs : List A) (i : ℕ) → length xs ≤ i → get_elem? xs i ≡ none
get_elem?-past [] i h = refl
get_elem?-past (x ∷ xs) zero h = absurd (omega (arith, h))
get_elem?-past (x ∷ xs) (suc i) h = get_elem?-past xs i (omega (arith, h))

-- `growSet` at an index: that element is written, the others stay, and what lies between the end of
-- the slice and the index is `undefined`.
pub get_elem?-grow_set :
    (xs : List Value) (i j : ℕ) (v : Value)
    → get_elem? (grow_set xs (pos i) v) j ≡ (
        if j == i
        then some v
        else if ltb j (length xs)
        then get_elem? xs j
        else if ltb j i
        then some Value.undefined
        else none)
unfolding grow_set
get_elem?-grow_set xs i j v = elim (Bool-cases (j == i)) [
  | inl t ↦ rw (t, same_index t) (get_elem?-set_self long i v (omega (arith, size)))
  | inr t ↦ rw t (
      get_elem?-set_ne long i j v (λ e. ground (arith, t, e))
      ∙ elim (Bool-cases (ltb j (length xs))) [
        | inl s ↦ rw s (get_elem?-append_left xs pad j (ltb→lt j (length xs) s))
        | inr s ↦ rw s (elim (Bool-cases (ltb j i)) [
          | inl r ↦ rw r (
              get_elem?-append_right xs pad (j - length xs) j (ground (arith, s))
              ∙ get_elem?-replicate (suc i - length xs) (j - length xs) Value.undefined
                  (ground (arith, s, r)))
          | inr r ↦ rw r (get_elem?-past long j (ground (arith, size, s, r, t)))
        ])
      ])
]
  where
    pad : List Value
    pad = replicate (suc i - length xs) Value.undefined

    long : List Value
    long = xs ++ pad

    size : length long ≡ length xs + (suc i - length xs)
    size =
        length-append xs pad
        ∙ ap (λ n. length xs + n) (length-replicate (suc i - length xs) Value.undefined)

    same_index : (j == i) ≡ true → j ≡ i
    same_index t = ground (arith, t)
