-- ===== src/Rast/Schema.antt =====
-- internal/rast/schema.go and the numbers of node.go: which fields a node of each kind has, and the byte
-- that stands for the kind.
use regel.Base.{
  ℕ, Bool, true, false, Option, none, some, List, [], ◌∷◌, ◌≡◌, refl, ◌==◌, if◌then◌else◌,
}
use regel.Rast.{Kind}

-- The constants of `type Kind uint8`.
unfoldable pub kind_byte : Kind → ℕ
kind_byte Kind.absent = 0
kind_byte Kind.list = 1
kind_byte Kind.num = 10
kind_byte Kind.bigint = 11
kind_byte Kind.str = 12
kind_byte Kind.bool = 13
kind_byte Kind.null = 14
kind_byte Kind.undefined = 15
kind_byte Kind.regex = 16
kind_byte Kind.template = 17
kind_byte Kind.str_part = 18
kind_byte Kind.local = 20
kind_byte Kind.ref = 21
kind_byte Kind.self_ref = 22
kind_byte Kind.name = 23
kind_byte Kind.array = 30
kind_byte Kind.object = 31
kind_byte Kind.prop = 32
kind_byte Kind.spread = 33
kind_byte Kind.call = 34
kind_byte Kind.member = 35
kind_byte Kind.index = 36
kind_byte Kind.binary = 37
kind_byte Kind.unary = 38
kind_byte Kind.update = 39
kind_byte Kind.cond = 40
kind_byte Kind.typeof = 41
kind_byte Kind.await = 42
kind_byte Kind.as_const = 43
kind_byte Kind.satisfy = 44
kind_byte Kind.func = 45
kind_byte Kind.param = 46
kind_byte Kind.bind_id = 50
kind_byte Kind.array_pat = 51
kind_byte Kind.obj_pat = 52
kind_byte Kind.bind_prop = 53
kind_byte Kind.rest_pat = 54
kind_byte Kind.block = 60
kind_byte Kind.var_decl = 61
kind_byte Kind.declr = 62
kind_byte Kind.expr_stmt = 63
kind_byte Kind.branch = 64
kind_byte Kind.for_loop = 65
kind_byte Kind.for_of = 66
kind_byte Kind.while_loop = 67
kind_byte Kind.do_while = 68
kind_byte Kind.switch = 69
kind_byte Kind.clause = 70
kind_byte Kind.break = 71
kind_byte Kind.continue = 72
kind_byte Kind.return = 73
kind_byte Kind.throw = 74
kind_byte Kind.try_stmt = 75
kind_byte Kind.catch_clause = 76
kind_byte Kind.type_alias = 80
kind_byte Kind.interface = 81
kind_byte Kind.native_body = 82
kind_byte Kind.t_keyword = 100
kind_byte Kind.t_literal = 101
kind_byte Kind.t_array = 102
kind_byte Kind.t_tuple = 103
kind_byte Kind.t_union = 104
kind_byte Kind.t_inter = 105
kind_byte Kind.t_ref = 106
kind_byte Kind.t_local = 107
kind_byte Kind.t_cat_ref = 108
kind_byte Kind.t_object = 109
kind_byte Kind.t_prop_sig = 110
kind_byte Kind.t_index_sig = 111
kind_byte Kind.t_func = 112
kind_byte Kind.t_cond = 113
kind_byte Kind.t_keyof = 114
kind_byte Kind.t_indexed = 115
kind_byte Kind.t_query = 116
kind_byte Kind.t_param = 117
kind_byte Kind.t_readonly = 118
kind_byte Kind.t_mapped = 119
kind_byte Kind.t_templ_lit = 120

-- `var allKinds`
unfoldable pub all_kinds : List Kind
all_kinds =
    Kind.absent ∷ Kind.list ∷ Kind.num ∷ Kind.bigint ∷ Kind.str ∷ Kind.bool ∷ Kind.null
    ∷ Kind.undefined ∷ Kind.regex ∷ Kind.template ∷ Kind.str_part ∷ Kind.local ∷ Kind.ref
    ∷ Kind.self_ref ∷ Kind.name ∷ Kind.array ∷ Kind.object ∷ Kind.prop ∷ Kind.spread ∷ Kind.call
    ∷ Kind.member ∷ Kind.index ∷ Kind.binary ∷ Kind.unary ∷ Kind.update ∷ Kind.cond ∷ Kind.typeof
    ∷ Kind.await ∷ Kind.as_const ∷ Kind.satisfy ∷ Kind.func ∷ Kind.param ∷ Kind.bind_id
    ∷ Kind.array_pat ∷ Kind.obj_pat ∷ Kind.bind_prop ∷ Kind.rest_pat ∷ Kind.block ∷ Kind.var_decl
    ∷ Kind.declr ∷ Kind.expr_stmt ∷ Kind.branch ∷ Kind.for_loop ∷ Kind.for_of ∷ Kind.while_loop
    ∷ Kind.do_while ∷ Kind.switch ∷ Kind.clause ∷ Kind.break ∷ Kind.continue ∷ Kind.return
    ∷ Kind.throw ∷ Kind.try_stmt ∷ Kind.catch_clause ∷ Kind.type_alias ∷ Kind.interface
    ∷ Kind.native_body ∷ Kind.t_keyword ∷ Kind.t_literal ∷ Kind.t_array ∷ Kind.t_tuple
    ∷ Kind.t_union ∷ Kind.t_inter ∷ Kind.t_ref ∷ Kind.t_local ∷ Kind.t_cat_ref ∷ Kind.t_object
    ∷ Kind.t_prop_sig ∷ Kind.t_index_sig ∷ Kind.t_func ∷ Kind.t_cond ∷ Kind.t_keyof ∷ Kind.t_indexed
    ∷ Kind.t_query ∷ Kind.t_param ∷ Kind.t_readonly ∷ Kind.t_mapped ∷ Kind.t_templ_lit ∷ []

unfoldable pub find_kind : ℕ → List Kind → Option Kind
unfolding kind_byte
find_kind b [] = none
find_kind b (k ∷ ks) = let more = find_kind b ks in if kind_byte k == b then some k else more

-- `Kind(b)` and `valid`: a byte that is no kind gives nothing.
unfoldable pub kind_of_byte : ℕ → Option Kind
unfolding find_kind all_kinds
kind_of_byte b = find_kind b all_kinds

-- `type fieldSchema struct`
pub record Fields : Type 0 where
  pub has_str : Bool
  pub has_u : Bool
  pub has_mag : Bool

abbrev pub row : Bool → Bool → Bool → Fields
row s u g = record { has_str = s; has_u = u; has_mag = g }

-- `var schema`
unfoldable pub schema : Kind → Fields
schema Kind.num = row false true false
schema Kind.bigint = row false true true
schema Kind.str = row true false false
schema Kind.bool = row false true false
schema Kind.regex = row true true false
schema Kind.str_part = row true false false
schema Kind.local = row false true false
schema Kind.ref = row true false false
schema Kind.name = row true false false
schema Kind.prop = row false true false
schema Kind.call = row false true false
schema Kind.member = row true true false
schema Kind.index = row false true false
schema Kind.binary = row false true false
schema Kind.unary = row false true false
schema Kind.update = row false true false
schema Kind.func = row false true false
schema Kind.param = row false true false
schema Kind.bind_prop = row false true false
schema Kind.var_decl = row false true false
schema Kind.for_of = row false true false
schema Kind.clause = row false true false
schema Kind.catch_clause = row false true false
schema Kind.native_body = row true false false
schema Kind.t_keyword = row true false false
schema Kind.t_ref = row true false false
schema Kind.t_local = row false true false
schema Kind.t_cat_ref = row true false false
schema Kind.t_prop_sig = row true true false
schema Kind.t_index_sig = row false true false
schema Kind.t_mapped = row false true false
schema _ = row false false false

-- `numAsF64`
unfoldable pub num_as_f64 : Kind → Bool
num_as_f64 Kind.num = true
num_as_f64 _ = false

pub kind_of_byte-kind_byte : (k : Kind) → kind_of_byte (kind_byte k) ≡ some k
unfolding kind_of_byte kind_byte find_kind all_kinds
kind_of_byte-kind_byte Kind.absent = refl
kind_of_byte-kind_byte Kind.list = refl
kind_of_byte-kind_byte Kind.num = refl
kind_of_byte-kind_byte Kind.bigint = refl
kind_of_byte-kind_byte Kind.str = refl
kind_of_byte-kind_byte Kind.bool = refl
kind_of_byte-kind_byte Kind.null = refl
kind_of_byte-kind_byte Kind.undefined = refl
kind_of_byte-kind_byte Kind.regex = refl
kind_of_byte-kind_byte Kind.template = refl
kind_of_byte-kind_byte Kind.str_part = refl
kind_of_byte-kind_byte Kind.local = refl
kind_of_byte-kind_byte Kind.ref = refl
kind_of_byte-kind_byte Kind.self_ref = refl
kind_of_byte-kind_byte Kind.name = refl
kind_of_byte-kind_byte Kind.array = refl
kind_of_byte-kind_byte Kind.object = refl
kind_of_byte-kind_byte Kind.prop = refl
kind_of_byte-kind_byte Kind.spread = refl
kind_of_byte-kind_byte Kind.call = refl
kind_of_byte-kind_byte Kind.member = refl
kind_of_byte-kind_byte Kind.index = refl
kind_of_byte-kind_byte Kind.binary = refl
kind_of_byte-kind_byte Kind.unary = refl
kind_of_byte-kind_byte Kind.update = refl
kind_of_byte-kind_byte Kind.cond = refl
kind_of_byte-kind_byte Kind.typeof = refl
kind_of_byte-kind_byte Kind.await = refl
kind_of_byte-kind_byte Kind.as_const = refl
kind_of_byte-kind_byte Kind.satisfy = refl
kind_of_byte-kind_byte Kind.func = refl
kind_of_byte-kind_byte Kind.param = refl
kind_of_byte-kind_byte Kind.bind_id = refl
kind_of_byte-kind_byte Kind.array_pat = refl
kind_of_byte-kind_byte Kind.obj_pat = refl
kind_of_byte-kind_byte Kind.bind_prop = refl
kind_of_byte-kind_byte Kind.rest_pat = refl
kind_of_byte-kind_byte Kind.block = refl
kind_of_byte-kind_byte Kind.var_decl = refl
kind_of_byte-kind_byte Kind.declr = refl
kind_of_byte-kind_byte Kind.expr_stmt = refl
kind_of_byte-kind_byte Kind.branch = refl
kind_of_byte-kind_byte Kind.for_loop = refl
kind_of_byte-kind_byte Kind.for_of = refl
kind_of_byte-kind_byte Kind.while_loop = refl
kind_of_byte-kind_byte Kind.do_while = refl
kind_of_byte-kind_byte Kind.switch = refl
kind_of_byte-kind_byte Kind.clause = refl
kind_of_byte-kind_byte Kind.break = refl
kind_of_byte-kind_byte Kind.continue = refl
kind_of_byte-kind_byte Kind.return = refl
kind_of_byte-kind_byte Kind.throw = refl
kind_of_byte-kind_byte Kind.try_stmt = refl
kind_of_byte-kind_byte Kind.catch_clause = refl
kind_of_byte-kind_byte Kind.type_alias = refl
kind_of_byte-kind_byte Kind.interface = refl
kind_of_byte-kind_byte Kind.native_body = refl
kind_of_byte-kind_byte Kind.t_keyword = refl
kind_of_byte-kind_byte Kind.t_literal = refl
kind_of_byte-kind_byte Kind.t_array = refl
kind_of_byte-kind_byte Kind.t_tuple = refl
kind_of_byte-kind_byte Kind.t_union = refl
kind_of_byte-kind_byte Kind.t_inter = refl
kind_of_byte-kind_byte Kind.t_ref = refl
kind_of_byte-kind_byte Kind.t_local = refl
kind_of_byte-kind_byte Kind.t_cat_ref = refl
kind_of_byte-kind_byte Kind.t_object = refl
kind_of_byte-kind_byte Kind.t_prop_sig = refl
kind_of_byte-kind_byte Kind.t_index_sig = refl
kind_of_byte-kind_byte Kind.t_func = refl
kind_of_byte-kind_byte Kind.t_cond = refl
kind_of_byte-kind_byte Kind.t_keyof = refl
kind_of_byte-kind_byte Kind.t_indexed = refl
kind_of_byte-kind_byte Kind.t_query = refl
kind_of_byte-kind_byte Kind.t_param = refl
kind_of_byte-kind_byte Kind.t_readonly = refl
kind_of_byte-kind_byte Kind.t_mapped = refl
kind_of_byte-kind_byte Kind.t_templ_lit = refl
