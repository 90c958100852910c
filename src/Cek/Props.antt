-- ===== src/Cek/Props.antt =====
-- internal/cek/props.go: members and indices of values. A write returns the new heap; `none` is a
-- coercion that does not return, or Go's panic.
use regel.Base.{
  ℕ, suc, ◌-◌, Bool, true, false, Option, none, some, List, [], ◌∷◌, ◌++◌, length, get_elem?, set,
  replicate, Str, codes, str_eq, ltb, if◌then◌else◌, ◌>>=◌,
}
use regel.Base.Int.{ℤ, pos, negsuc}
use regel.Cek.Value.{
  Value, Heap, array_obj, record_obj, array_at, record_at, record_get, record_set, has_value,
}
use regel.Cek.Coerce.{Floats, atoi, num_index, prop_key_string}

or_undefined : Option Value → Value
or_undefined none = Value.undefined
or_undefined (some v) = v

-- `i >= 0 && i < len(a)`, and the element.
unfoldable pub elem_or_undefined : List Value → Option ℤ → Value
unfolding or_undefined
elem_or_undefined xs (some (pos i)) = or_undefined (get_elem? xs i)
elem_or_undefined xs _ = Value.undefined

unfoldable pub as_strings : List Str → List Value
as_strings [] = []
as_strings (s ∷ ss) = Value.str s ∷ as_strings ss

-- An array and a string read alike: `length`, else an element.
member_of : Floats → List Value → Str → Value
unfolding elem_or_undefined
member_of F xs key =
    if str_eq key (codes "length")
    then Value.f64 (F.of_int (pos (length xs)))
    else elem_or_undefined xs (atoi key)

-- `func getMember`
unfoldable pub get_member : Floats → Heap → Value → Str → Option Value
unfolding or_undefined member_of as_strings
get_member F h (Value.rec a) key = do r ← record_at h a; some (or_undefined (record_get r key))
get_member F h (Value.array a) key = do xs ← array_at h a; some (member_of F xs key)
get_member F h (Value.str s) key = some (member_of F (as_strings (F.runes s)) key)
get_member F h _ key = some Value.undefined

unfoldable pub by_key : Floats → Heap → Value → Value → Option Value
by_key F h obj idx = do key ← prop_key_string F h idx; get_member F h obj key

unfoldable pub by_index : Floats → Heap → ℕ → Value → Option ℤ → Option Value
by_index F h a idx none = by_key F h (Value.array a) idx
by_index F h a idx (some i) = do xs ← array_at h a; some (elem_or_undefined xs (some i))

-- `func getIndex`
unfoldable pub get_index : Floats → Heap → Value → Value → Option Value
unfolding by_key by_index get_member elem_or_undefined
get_index F h (Value.array a) idx = by_index F h a idx (num_index F idx)
get_index F h obj idx = by_key F h obj idx

-- `func growSet`
unfoldable pub grow_set : List Value → ℤ → Value → List Value
grow_set xs (negsuc n) v = xs
grow_set xs (pos i) v = set (xs ++ replicate (suc i - length xs) Value.undefined) i v

unfoldable pub write_array : Heap → ℕ → ℤ → Value → Option Heap
unfolding grow_set
write_array h a i v = do xs ← array_at h a; some (set h a (array_obj (grow_set xs i v)))

unfoldable pub write_record : Heap → ℕ → Str → Value → Option Heap
write_record h a key v = do r ← record_at h a; some (set h a (record_obj (record_set r key v)))

unfoldable pub write_at : Heap → ℕ → Option ℤ → Value → Option Heap
unfolding write_array
write_at h a none v = some h
write_at h a (some i) v = write_array h a i v

-- `func setMember`
unfoldable pub set_member : Heap → Value → Str → Value → Option Heap
unfolding write_record write_at
set_member h (Value.rec a) key v = write_record h a key v
set_member h (Value.array a) key v = write_at h a (atoi key) v
set_member h _ key v = some h

-- `func setIndex`
unfoldable pub set_index : Floats → Heap → Value → Value → Value → Option Heap
unfolding write_record write_at
set_index F h (Value.array a) idx v = write_at h a (num_index F idx) v
set_index F h (Value.rec a) idx v = do key ← prop_key_string F h idx; write_record h a key v
set_index F h _ idx v = some h

index_in : Option ℤ → ℕ → Bool
index_in (some (pos i)) n = ltb i n
index_in _ n = false

-- `func hasOwn`
unfoldable pub has_own : Heap → Str → Value → Option Bool
unfolding index_in
has_own h key (Value.rec a) = do r ← record_at h a; some (has_value (record_get r key))
has_own h key (Value.array a) = do
  xs ← array_at h a
  some (if str_eq key (codes "length") then true else index_in (atoi key) (length xs))
has_own h key _ = some false
