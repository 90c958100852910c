-- ===== src/Rast.antt =====
-- internal/rast/node.go: the owned abstract syntax that the machine executes.
-- Every node has the one uniform shape; what a field means is fixed by the kind. A child is never
-- nil (the decoder and the lowerer build every child), so the absent child is the kind `absent`.
pub mod Fits
pub mod Schema
pub mod Codec
pub mod Kept
pub mod Roundtrip
pub mod Normal
pub mod Equality
pub mod Address
use regel.Base.{
  ℕ, ◌-◌, ◌%◌, Bool, true, false, Str, List, [], ◌∷◌, Option, none, some, get_elem?, ltb,
  if◌then◌else◌,
}

-- `type Kind uint8` and its constants.
pub data Kind : Type 0 where
  absent list : Kind
  num bigint str bool null undefined regex template str_part : Kind
  local ref self_ref name : Kind
  array object prop spread call member index binary unary update cond typeof await : Kind
  as_const satisfy func param : Kind
  bind_id array_pat obj_pat bind_prop rest_pat : Kind
  block var_decl declr expr_stmt branch for_loop for_of while_loop do_while switch clause : Kind
  break continue return throw try_stmt catch_clause : Kind
  type_alias interface native_body : Kind
  -- the T kinds, which are part of the hash and never evaluated
  t_keyword t_literal t_array t_tuple t_union t_inter t_ref t_local t_cat_ref t_object : Kind
  t_prop_sig t_index_sig t_func t_cond t_keyof t_indexed t_query t_param t_readonly : Kind
  t_mapped t_templ_lit : Kind

-- `type OpKind uint8` and its constants; `other` is any byte that no constant names.
pub data OpKind : Type 0 where
  no_op add sub mul div mod_op exp shl shr ushr bit_and bit_or bit_xor : OpKind
  lt gt le ge eq_eq ne_eq eq_eq_eq ne_eq_eq and or nullish in_op : OpKind
  assign add_assign sub_assign mul_assign div_assign mod_assign exp_assign : OpKind
  shl_assign shr_assign ushr_assign bit_and_assign bit_or_assign bit_xor_assign : OpKind
  and_assign or_assign null_assign : OpKind
  plus minus not_op bit_not inc dec : OpKind
  other : OpKind

mutual
  pub data Node : Type 0 where
    -- Kind, Str, U, Mag, Kids
    node : Kind → Str → ℕ → List ℕ → Nodes → Node

  pub data Nodes : Type 0 where
    nil : Nodes
    cons : Node → Nodes → Nodes

abbrev pub to_list : Nodes → List Node
to_list nil = []
to_list (cons n ns) = n ∷ to_list ns

abbrev pub kind : Node → Kind
kind (node k s u g ks) = k

abbrev pub text : Node → Str
text (node k s u g ks) = s

abbrev pub word : Node → ℕ
word (node k s u g ks) = u

abbrev pub mag : Node → List ℕ
mag (node k s u g ks) = g

abbrev pub kids : Node → List Node
kids (node k s u g ks) = to_list ks

-- `func (n *Node) IsNone() bool`
abbrev pub is_none_kind : Kind → Bool
is_none_kind Kind.absent = true
is_none_kind _ = false

abbrev pub is_none : Node → Bool
is_none n = is_none_kind (kind n)

abbrev binary_ops : List OpKind
binary_ops =
    OpKind.no_op ∷ OpKind.add ∷ OpKind.sub ∷ OpKind.mul ∷ OpKind.div ∷ OpKind.mod_op ∷ OpKind.exp
    ∷ OpKind.shl ∷ OpKind.shr ∷ OpKind.ushr ∷ OpKind.bit_and ∷ OpKind.bit_or ∷ OpKind.bit_xor
    ∷ OpKind.lt ∷ OpKind.gt ∷ OpKind.le ∷ OpKind.ge ∷ OpKind.eq_eq ∷ OpKind.ne_eq ∷ OpKind.eq_eq_eq
    ∷ OpKind.ne_eq_eq ∷ OpKind.and ∷ OpKind.or ∷ OpKind.nullish ∷ OpKind.in_op ∷ []

abbrev assign_ops : List OpKind
assign_ops =
    OpKind.assign ∷ OpKind.add_assign ∷ OpKind.sub_assign ∷ OpKind.mul_assign ∷ OpKind.div_assign
    ∷ OpKind.mod_assign ∷ OpKind.exp_assign ∷ OpKind.shl_assign ∷ OpKind.shr_assign
    ∷ OpKind.ushr_assign ∷ OpKind.bit_and_assign ∷ OpKind.bit_or_assign ∷ OpKind.bit_xor_assign
    ∷ OpKind.and_assign ∷ OpKind.or_assign ∷ OpKind.null_assign ∷ []

abbrev unary_ops : List OpKind
unary_ops =
    OpKind.plus ∷ OpKind.minus ∷ OpKind.not_op ∷ OpKind.bit_not ∷ OpKind.inc ∷ OpKind.dec ∷ []

abbrev op_or : Option OpKind → OpKind
op_or none = OpKind.other
op_or (some op) = op

-- `rast.OpKind(n.U)`: a word is cut to its low byte, and a byte without a constant is `other`.
-- The constants start at 0, at 40 and at 70.
unfoldable pub op_of_word : ℕ → OpKind
op_of_word u =
    let b = u % 256 in
    if ltb b 40
    then op_or (get_elem? binary_ops b)
    else if ltb b 70
    then op_or (get_elem? assign_ops (b - 40))
    else op_or (get_elem? unary_ops (b - 70))
