-- ===== src/Cek/Ops.antt =====
-- internal/cek/ops.go: the operators.
use regel.Base.{
  ℕ, ◌*◌, ◌/◌, ◌%◌, ◌^◌, Bool, true, false, not, ◌||◌, Option, none, some, ◌++◌, Str, str_eq,
  str_lt, ◌==◌, if◌then◌else◌, bit_and, bit_or, bit_xor,
}
use regel.Base.Int.{
  ℤ, pos, neg, ◌+ℤ◌, ◌-ℤ◌, ◌*ℤ◌, quo, rem, exp, is_zero, not_ℤ, and_ℤ, or_ℤ, xor_ℤ, shl_ℤ, shr_ℤ,
  low64, int_eq, int_lt,
}
use regel.Rast.{OpKind}
use regel.Cek.Value.{Value, Heap, bool_val, truthy, f64_eq}
use regel.Cek.Coerce.{Floats, nan, neg_f64, to_num, to_str, as_int32, to_uint32}

-- The pair (Value, ok); `hang` is a Go call that does not return.
pub data OpResult : Type 0 where
  value : Value → OpResult
  refused : OpResult
  hang : OpResult

abbrev pub same : Bool → Bool → Bool
same true b = b
same false b = not b

-- `func strictEq`
unfoldable pub strict_eq : Value → Value → Bool
unfolding f64_eq
strict_eq Value.undefined Value.undefined = true
strict_eq Value.null Value.null = true
strict_eq (Value.bool a) (Value.bool b) = same (a == 0) (b == 0)
strict_eq (Value.f64 a) (Value.f64 b) = f64_eq a b
strict_eq (Value.str a) (Value.str b) = str_eq a b
strict_eq (Value.bigint a) (Value.bigint b) = int_eq a b
strict_eq (Value.cap_token a) (Value.cap_token b) = str_eq a b
strict_eq (Value.array a) (Value.array b) = a == b
strict_eq (Value.rec a) (Value.rec b) = a == b
strict_eq (Value.closure a) (Value.closure b) = a == b
strict_eq (Value.opaque a) (Value.opaque b) = a == b
strict_eq _ _ = false

concat : Option Str → Option Str → OpResult
concat (some s) (some t) = OpResult.value (Value.str (s ++ t))
concat _ _ = hang

-- The operator on two numbers, where both operands coerce.
on_numbers : Floats → (ℕ → ℕ → Value) → Value → Value → OpResult
on_numbers F f a b = elim (to_num F a) [
  | none ↦ refused
  | some x ↦ elim (to_num F b) [ none ↦ refused | some y ↦ OpResult.value (f x y) ]
]

-- `func opAdd`: the switch on the tags.
unfoldable pub op_add : Floats → Heap → Value → Value → OpResult
unfolding concat on_numbers
op_add F h (Value.str s) b = concat (some s) (to_str F h b)
op_add F h (Value.bigint x) (Value.str t) = concat (to_str F h (Value.bigint x)) (some t)
op_add F h (Value.bigint x) (Value.bigint y) = OpResult.value (Value.bigint (x +ℤ y))
op_add F h a (Value.str t) = concat (to_str F h a) (some t)
op_add F h a b = on_numbers F (λ x y. Value.f64 (F.add x y)) a b

-- `func numArith`
num_arith : Floats → (ℕ → ℕ → ℕ) → (ℤ → ℤ → OpResult) → Value → Value → OpResult
unfolding on_numbers
num_arith F f g (Value.bigint x) (Value.bigint y) = g x y
num_arith F f g a b = on_numbers F (λ x y. Value.f64 (f x y)) a b

abbrev big : (ℤ → ℤ → ℤ) → ℤ → ℤ → OpResult
big f x y = OpResult.value (Value.bigint (f x y))

-- A nil result: the divisor is 0.
abbrev big_div : (ℤ → ℤ → ℤ) → ℤ → ℤ → OpResult
big_div f x y = if is_zero y then refused else OpResult.value (Value.bigint (f x y))

-- `func bitOp` on two bigints and on two int32 words.
big_bits : OpKind → ℤ → ℤ → OpResult
big_bits OpKind.bit_and x y = big and_ℤ x y
big_bits OpKind.bit_or x y = big or_ℤ x y
big_bits OpKind.bit_xor x y = big xor_ℤ x y
big_bits OpKind.shl x y = big (λ a b. shl_ℤ a (low64 b)) x y
big_bits OpKind.shr x y = big (λ a b. shr_ℤ a (low64 b)) x y
big_bits _ x y = refused

word_bits : OpKind → ℕ → ℕ → ℤ
word_bits OpKind.bit_and x y = as_int32 (bit_and x y)
word_bits OpKind.bit_or x y = as_int32 (bit_or x y)
word_bits OpKind.bit_xor x y = as_int32 (bit_xor x y)
word_bits OpKind.shl x y = as_int32 (x * 2 ^ (y % 32) % 2 ^ 32)
word_bits OpKind.shr x y = shr_ℤ (as_int32 x) (y % 32)
word_bits _ x y = pos (x / 2 ^ (y % 32))

unfoldable pub bit_op : Floats → OpKind → Value → Value → OpResult
unfolding big_bits word_bits on_numbers
bit_op F op (Value.bigint x) (Value.bigint y) = big_bits op x y
bit_op F op a b =
    on_numbers F (λ x y. Value.f64 (F.of_int (word_bits op (to_uint32 F x) (to_uint32 F y)))) a b

-- `<`, `>`, `<=`, `>=` from a strict order and an equality.
compare_by : OpKind → Bool → Bool → Bool → Bool
compare_by OpKind.lt below above same = below
compare_by OpKind.gt below above same = above
compare_by OpKind.le below above same = below || same
compare_by _ below above same = above || same

-- `func relOp`
unfoldable pub rel_op : Floats → OpKind → Value → Value → OpResult
unfolding compare_by on_numbers
rel_op F op (Value.str a) (Value.str b) =
    OpResult.value (bool_val (compare_by op (str_lt a b) (str_lt b a) (str_eq a b)))
rel_op F op (Value.bigint a) (Value.bigint b) =
    OpResult.value (bool_val (compare_by op (int_lt a b) (int_lt b a) (int_eq a b)))
rel_op F op a b =
    on_numbers F (λ x y. bool_val (compare_by op (F.lt x y) (F.lt y x) (f64_eq x y))) a b

-- `func binOp`
unfoldable pub bin_op : Floats → Heap → OpKind → Value → Value → OpResult
unfolding op_add num_arith bit_op rel_op strict_eq bool_val
bin_op F h OpKind.add a b = op_add F h a b
bin_op F h OpKind.sub a b = num_arith F F.sub (big ◌-ℤ◌) a b
bin_op F h OpKind.mul a b = num_arith F F.mul (big ◌*ℤ◌) a b
bin_op F h OpKind.div a b = num_arith F F.div (big_div quo) a b
bin_op F h OpKind.mod_op a b = num_arith F F.mod_f64 (big_div rem) a b
bin_op F h OpKind.exp a b = num_arith F F.pow (big exp) a b
bin_op F h OpKind.bit_and a b = bit_op F OpKind.bit_and a b
bin_op F h OpKind.bit_or a b = bit_op F OpKind.bit_or a b
bin_op F h OpKind.bit_xor a b = bit_op F OpKind.bit_xor a b
bin_op F h OpKind.shl a b = bit_op F OpKind.shl a b
bin_op F h OpKind.shr a b = bit_op F OpKind.shr a b
bin_op F h OpKind.ushr a b = bit_op F OpKind.ushr a b
bin_op F h OpKind.lt a b = rel_op F OpKind.lt a b
bin_op F h OpKind.gt a b = rel_op F OpKind.gt a b
bin_op F h OpKind.le a b = rel_op F OpKind.le a b
bin_op F h OpKind.ge a b = rel_op F OpKind.ge a b
bin_op F h OpKind.eq_eq a b = OpResult.value (bool_val (strict_eq a b))
bin_op F h OpKind.eq_eq_eq a b = OpResult.value (bool_val (strict_eq a b))
bin_op F h OpKind.ne_eq a b = OpResult.value (bool_val (not (strict_eq a b)))
bin_op F h OpKind.ne_eq_eq a b = OpResult.value (bool_val (not (strict_eq a b)))
bin_op F h _ a b = refused

on_number : Floats → (ℕ → Value) → Value → OpResult
on_number F f a = elim (to_num F a) [ none ↦ refused | some x ↦ OpResult.value (f x) ]

-- `func unaryOp`
unfoldable pub unary_op : Floats → OpKind → Value → OpResult
unfolding on_number truthy bool_val
unary_op F OpKind.plus v = on_number F (λ x. Value.f64 x) v
unary_op F OpKind.minus (Value.bigint z) = OpResult.value (Value.bigint (neg z))
unary_op F OpKind.minus v = on_number F (λ x. Value.f64 (neg_f64 x)) v
unary_op F OpKind.not_op v = OpResult.value (bool_val (not (truthy v)))
unary_op F OpKind.bit_not (Value.bigint z) = OpResult.value (Value.bigint (not_ℤ z))
unary_op F OpKind.bit_not v =
    on_number F (λ x. Value.f64 (F.of_int (not_ℤ (as_int32 (to_uint32 F x))))) v
unary_op F _ v = refused

or_nan : Option ℕ → ℕ
or_nan none = nan
or_nan (some x) = x

-- `func updateValue`: the new value and the result of the postfix form.
pub record Updated : Type 0 where
  pub next_value : Value
  pub old_value : Value

unfoldable pub update_value : Floats → Value → OpKind → Updated
unfolding or_nan
update_value F (Value.bigint z) OpKind.dec = record {
  next_value = Value.bigint (z -ℤ pos 1);
  old_value = Value.bigint z;
}
update_value F (Value.bigint z) op = record {
  next_value = Value.bigint (z +ℤ pos 1);
  old_value = Value.bigint z;
}
update_value F v OpKind.dec =
    let x = or_nan (to_num F v) in
    record { next_value = Value.f64 (F.sub x (F.of_int (pos 1))); old_value = Value.f64 x }
update_value F v op =
    let x = or_nan (to_num F v) in
    record { next_value = Value.f64 (F.add x (F.of_int (pos 1))); old_value = Value.f64 x }
