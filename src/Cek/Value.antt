-- ===== src/Cek/Value.antt =====
-- internal/cek/value.go: the closed union of values and the objects that they point to.
-- A Go pointer is an address, an index into the heap. A number is its IEEE-754 bit pattern.
use regel.Base.{
  ℕ, ◌%◌, ◌^◌, Bool, true, false, not, ◌&&◌, ◌||◌, Option, none, some, List, [], ◌∷◌, ◌++◌,
  get_elem?, Str, codes, str_eq, is_empty, ltb, ◌==◌, if◌then◌else◌, ◌>>=◌,
}
use regel.Base.Int.{ℤ, is_zero}

-- `type Value struct`, by tag. The payload of a Boolean is a number, and is read as "not 0".
pub data Value : Type 0 where
  undefined null : Value
  bool : ℕ → Value
  f64 : ℕ → Value
  bigint : ℤ → Value
  str : Str → Value
  array rec closure : ℕ → Value
  cap_token : Str → Value
  opaque : ℕ → Value

-- `type Path []uint16`
abbrev pub Path16 : Type 0
Path16 = List ℕ

-- `type RecordObj struct`: the keys in insertion order, and the map.
pub record RecordObj : Type 0 where
  pub keys : List Str
  pub entries : List (Str × Value)

-- What a pointer can lead to: Env, ArrayObj, RecordObj, ClosureObj, OpaqueObj.
pub data Object : Type 0 where
  env_obj : Option ℕ → List Value → Object
  array_obj : List Value → Object
  record_obj : RecordObj → Object
  closure_obj : Str → Path16 → Option ℕ → Object
  opaque_obj : Str → List ℕ → Object

abbrev pub Heap : Type 0
Heap = List Object

-- The address of a new object is the end of the heap.
abbrev pub alloc : Heap → Object → Heap
alloc h o = h ++ (o ∷ [])

-- `func boolVal`
unfoldable pub bool_val : Bool → Value
bool_val true = Value.bool 1
bool_val false = Value.bool 0

-- The type assertions `v.Ref.(*ArrayObj)` and the like; `none` is Go's panic.
unfoldable pub as_array : Object → Option (List Value)
as_array (array_obj xs) = some xs
as_array _ = none

unfoldable pub as_record : Object → Option RecordObj
as_record (record_obj r) = some r
as_record _ = none

pub record ClosureObj : Type 0 where
  pub def_hash : Str
  pub path : Path16
  pub env : Option ℕ

unfoldable pub as_closure : Object → Option ClosureObj
as_closure (closure_obj d p e) = some (record { def_hash = d; path = p; env = e })
as_closure _ = none

unfoldable pub array_at : Heap → ℕ → Option (List Value)
unfolding as_array
array_at h a = do o ← get_elem? h a; as_array o

unfoldable pub record_at : Heap → ℕ → Option RecordObj
unfolding as_record
record_at h a = do o ← get_elem? h a; as_record o

unfoldable pub closure_at : Heap → ℕ → Option ClosureObj
unfolding as_closure
closure_at h a = do o ← get_elem? h a; as_closure o

-- The Go map `M`.
unfoldable pub lookup_key : Str → List (Str × Value) → Option Value
lookup_key k [] = none
lookup_key k ((j, v) ∷ m) = if str_eq j k then some v else lookup_key k m

unfoldable pub insert_key : Str → Value → List (Str × Value) → List (Str × Value)
insert_key k v [] = (k, v) ∷ []
insert_key k v ((j, w) ∷ m) = if str_eq j k then (j, v) ∷ m else (j, w) ∷ insert_key k v m

abbrev pub empty_record : RecordObj
empty_record = record { keys = []; entries = [] }

-- `func (r *RecordObj) get`
unfoldable pub record_get : RecordObj → Str → Option Value
unfolding lookup_key
record_get r k = lookup_key k r.entries

abbrev pub has_value : Option Value → Bool
has_value none = false
has_value (some v) = true

-- `func (r *RecordObj) set`
unfoldable pub record_set : RecordObj → Str → Value → RecordObj
unfolding record_get insert_key
record_set r k v = record {
  keys = if has_value (record_get r k) then r.keys else r.keys ++ (k ∷ []);
  entries = insert_key k v r.entries;
}

-- NaN has all exponent bits set and a mantissa that is not 0; both zeros have only the sign bit.
unfoldable pub is_nan : ℕ → Bool
is_nan w = ltb 0x7ff0_0000_0000_0000 (w % 2 ^ 63)

unfoldable pub is_zero_f64 : ℕ → Bool
is_zero_f64 w = w % 2 ^ 63 == 0

-- `a.N == b.N`
unfoldable pub f64_eq : ℕ → ℕ → Bool
unfolding is_nan is_zero_f64
f64_eq a b = not (is_nan a) && not (is_nan b) && (a == b || (is_zero_f64 a && is_zero_f64 b))

-- `func truthy`
unfoldable pub truthy : Value → Bool
unfolding is_nan is_zero_f64
truthy Value.undefined = false
truthy Value.null = false
truthy (Value.bool n) = not (n == 0)
truthy (Value.f64 w) = not (is_zero_f64 w) && not (is_nan w)
truthy (Value.bigint z) = not (is_zero z)
truthy (Value.str s) = not (is_empty s)
truthy _ = true

-- `func typeofStr`
unfoldable pub typeof_str : Value → Str
typeof_str Value.undefined = codes "undefined"
typeof_str Value.null = codes "object"
typeof_str (Value.bool n) = codes "boolean"
typeof_str (Value.f64 w) = codes "number"
typeof_str (Value.bigint z) = codes "bigint"
typeof_str (Value.str s) = codes "string"
typeof_str (Value.closure a) = codes "function"
typeof_str _ = codes "object"

-- `v.Tag == TagNull || v.Tag == TagUndefined`
abbrev pub is_nullish : Value → Bool
is_nullish Value.undefined = true
is_nullish Value.null = true
is_nullish _ = false

abbrev pub is_undefined : Value → Bool
is_undefined Value.undefined = true
is_undefined _ = false
