-- ===== src/Cek/Bind.antt =====
-- internal/cek/bind.go: parameters, destructuring patterns and constant expressions.
use regel.Base.{
  ℕ, ◌+◌, ◌*◌, ◌%◌, true, false, ◌&&◌, Option, none, some, List, [], ◌∷◌, ◌++◌, length, Str, ◌==◌,
  if◌then◌else◌,
}
use regel.Base.Int.{ℤ, signed}
use regel.Rast.{Kind, Node, Nodes, node, nil, cons, is_none, kids, op_of_word}
use regel.Cek.Value.{
  Value, Heap, array_obj, alloc, array_at, record_at, record_get, bool_val, is_undefined,
}
use regel.Cek.Env.{push_env}
use regel.Cek.Coerce.{Floats, num_to_str, prop_key_string}
use regel.Cek.Ops.{OpResult, bin_op, unary_op}

-- (Value, ok) of `evalConst`; `broken` is a missing child, on which Go panics.
pub data Const : Type 0 where
  const : Value → Const
  not_const : Const
  broken : Const

of_op : OpResult → Const
of_op (OpResult.value v) = const v
of_op OpResult.refused = not_const
of_op OpResult.hang = broken

const_unary : Floats → ℕ → Const → Const
unfolding of_op
const_unary F u (const v) = of_op (unary_op F (op_of_word u) v)
const_unary F u c = c

-- Both operands are evaluated before either result is looked at.
const_binary : Floats → ℕ → Const → Const → Const
unfolding of_op
const_binary F u broken c = broken
const_binary F u c broken = broken
const_binary F u (const a) (const b) = of_op (bin_op F [] (op_of_word u) a b)
const_binary F u a b = not_const

of_bytes : ℕ → List ℕ → ℕ
of_bytes n [] = n
of_bytes n (b ∷ bs) = of_bytes (n * 256 + b) bs

-- `new(big.Int).SetBytes(n.Mag)`, negated if bit 0 of the word is set.
unfoldable pub big_of : ℕ → List ℕ → ℤ
unfolding of_bytes
big_of u g = signed (u % 2 == 1) (of_bytes 0 g)

-- `func evalConst`
unfoldable pub eval_const : Floats → Node → Const
unfolding const_unary const_binary big_of bool_val
eval_const F (node Kind.num s u g ks) = const (Value.f64 u)
eval_const F (node Kind.str s u g ks) = const (Value.str s)
eval_const F (node Kind.bool s u g ks) = const (bool_val (if u == 0 then false else true))
eval_const F (node Kind.null s u g ks) = const Value.null
eval_const F (node Kind.undefined s u g ks) = const Value.undefined
eval_const F (node Kind.bigint s u g ks) = const (Value.bigint (big_of u g))
eval_const F (node Kind.unary s u g (cons a ks)) = const_unary F u (eval_const F a)
eval_const F (node Kind.unary s u g nil) = broken
eval_const F (node Kind.binary s u g (cons a (cons b ks))) =
    const_binary F u (eval_const F a) (eval_const F b)
eval_const F (node Kind.binary s u g (cons a nil)) = broken
eval_const F (node Kind.binary s u g nil) = broken
eval_const F n = not_const

-- The key of a property or of a pattern; `no_key` is the error.
pub data Key : Type 0 where
  key : Str → Key
  no_key : Key
  key_broken : Key

of_key_string : Option Str → Key
of_key_string none = key_broken
of_key_string (some s) = key s

computed_key : Floats → Const → Key
unfolding of_key_string
computed_key F (const v) = of_key_string (prop_key_string F [] v)
computed_key F not_const = no_key
computed_key F broken = key_broken

literal_key : Floats → Node → Key
literal_key F (node Kind.str s u g ks) = key s
literal_key F (node Kind.str_part s u g ks) = key s
literal_key F (node Kind.name s u g ks) = key s
literal_key F (node Kind.num s u g ks) = key (num_to_str F u)
literal_key F n = no_key

-- `func patternKey`, of the key node and the flag word.
unfoldable pub pattern_key : Floats → ℕ → Node → Key
unfolding computed_key literal_key
pattern_key F u n = if u % 2 == 1 then computed_key F (eval_const F n) else literal_key F n

-- The slots so far, with the heap that the rest arrays went to.
pub data Bound : Type 0 where
  bound : Heap → List Value → Bound
  unsupported : Bound
  bind_crash : Bound

abbrev and_then : Bound → (Heap → List Value → Bound) → Bound
and_then (bound h slots) k = k h slots
and_then unsupported k = unsupported
and_then bind_crash k = bind_crash

head_or_undefined : List Value → Value
head_or_undefined [] = Value.undefined
head_or_undefined (v ∷ vs) = v

tail_of : List Value → List Value
tail_of [] = []
tail_of (v ∷ vs) = vs

elems_of : Heap → Value → Option (List Value)
elems_of h (Value.array a) = array_at h a
elems_of h v = some []

own_value : Heap → Value → Str → Option Value
own_value h (Value.rec a) k = elim (record_at h a) [
  | none ↦ none
  | some r ↦ some (elim (record_get r k) [ none ↦ Value.undefined | some v ↦ v ])
]
own_value h v k = some Value.undefined

-- A default is used for `undefined`, and only if it is constant.
with_default : Floats → Value → Nodes → Option Value
with_default F v nil = some v
with_default F v (cons d ds) =
    if is_undefined v && (if is_none d then false else true)
    then (elim (eval_const F d) [ const w ↦ some w | not_const ↦ some v | broken ↦ none ])
    else some v

-- `func bindPattern`; the elements of an array pattern take from the list of what is left.
unfoldable mutual
  unfolding head_or_undefined tail_of elems_of own_value with_default pattern_key

  pub bind_pattern : Floats → Node → Value → Heap → List Value → Bound
  bind_pattern F (node Kind.bind_id s u g ks) v h slots = bound h (slots ++ (v ∷ []))
  bind_pattern F (node Kind.array_pat s u g (cons (node k t w y elems) ks)) v h slots =
      elim (elems_of h v) [ none ↦ bind_crash | some xs ↦ bind_elems F elems xs h slots ]
  bind_pattern F (node Kind.array_pat s u g nil) v h slots = bind_crash
  bind_pattern F (node Kind.obj_pat s u g (cons (node k t w y props) ks)) v h slots =
      bind_props F props v h slots
  bind_pattern F (node Kind.obj_pat s u g nil) v h slots = bind_crash
  bind_pattern F (node Kind.rest_pat s u g (cons p ks)) v h slots = bind_pattern F p v h slots
  bind_pattern F (node Kind.rest_pat s u g nil) v h slots = bind_crash
  bind_pattern F n v h slots = unsupported

  pub bind_elems : Floats → Nodes → List Value → Heap → List Value → Bound
  bind_elems F nil xs h slots = bound h slots
  bind_elems F (cons (node Kind.absent s u g ks) els) xs h slots =
      bind_elems F els (tail_of xs) h slots
  bind_elems F (cons (node Kind.rest_pat s u g (cons p ks)) els) xs h slots =
      bind_pattern F p (Value.array (length h)) (alloc h (array_obj xs)) slots
  bind_elems F (cons (node Kind.rest_pat s u g nil) els) xs h slots = bind_crash
  bind_elems F (cons (node k s u g ks) els) xs h slots =
      and_then (bind_pattern F (node k s u g ks) (head_or_undefined xs) h slots)
        (λ h' slots'. bind_elems F els (tail_of xs) h' slots')

  pub bind_props : Floats → Nodes → Value → Heap → List Value → Bound
  bind_props F nil v h slots = bound h slots
  bind_props F (cons (node Kind.rest_pat s u g (cons p ks)) bps) v h slots =
      and_then (bind_pattern F p v h slots) (λ h' slots'. bind_props F bps v h' slots')
  bind_props F (cons (node k s u g (cons kn (cons p more))) bps) v h slots =
      elim (pattern_key F u kn) [
        | no_key ↦ unsupported
        | key_broken ↦ bind_crash
        | key name ↦ elim (own_value h v name) [
          | none ↦ bind_crash
          | some got ↦ elim (with_default F got more) [
            | none ↦ bind_crash
            | some pv ↦
                and_then (bind_pattern F p pv h slots) (λ h' slots'. bind_props F bps v h' slots')
          ]
        ]
      ]
  bind_props F (cons n bps) v h slots = bind_crash

-- `func bindParams`: the loop over the parameters, each with what is left of the arguments.
unfoldable pub bind_param_list : Floats → List Node → List Value → Heap → List Value → Bound
unfolding bind_pattern
bind_param_list F [] args h slots = bound h slots
bind_param_list F (node k s u g nil ∷ prms) args h slots = bind_crash
bind_param_list F (node k s u g (cons pat nil) ∷ prms) args h slots =
    if u % 2 == 1
    then and_then (bind_pattern F pat (Value.array (length h)) (alloc h (array_obj args)) slots)
        (λ h' slots'. bind_param_list F prms [] h' slots')
    else and_then (bind_pattern F pat (head_or_undefined args) h slots)
        (λ h' slots'. bind_param_list F prms (tail_of args) h' slots')
bind_param_list F (node k s u g (cons pat (cons ty more)) ∷ prms) args h slots =
    if u % 2 == 1
    then and_then (bind_pattern F pat (Value.array (length h)) (alloc h (array_obj args)) slots)
        (λ h' slots'. bind_param_list F prms [] h' slots')
    else elim (with_default F (head_or_undefined args) more) [
      | none ↦ bind_crash
      | some v ↦
          and_then (bind_pattern F pat v h slots)
            (λ h' slots'. bind_param_list F prms (tail_of args) h' slots')
    ]

-- The new activation record stands at the end of the heap that is returned.
pub data Activation : Type 0 where
  activation : Heap → ℕ → Activation
  bad_parameters : Activation
  activation_crash : Activation

unfoldable pub close_over : Option ℕ → Bound → Activation
close_over parent (bound h slots) = activation (push_env h parent slots) (length h)
close_over parent unsupported = bad_parameters
close_over parent bind_crash = activation_crash

unfoldable pub bind_params : Floats → Node → List Value → Option ℕ → Heap → Activation
unfolding bind_param_list close_over push_env
bind_params F (node k s u g nil) args parent h = activation_crash
bind_params F (node k s u g (cons (node j t w y params) ks)) args parent h =
    close_over parent (bind_param_list F (kids (node j t w y params)) args h [])
