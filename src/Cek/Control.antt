-- ===== src/Cek/Control.antt =====
-- internal/cek/control.go: statement sequences, literals, templates and try. Each function takes the
-- frame at the top of K and the frames below it.
use regel.Base.{
  ℕ, ◌+◌, ◌*◌, ◌%◌, Bool, true, false, Option, none, some, List, [], ◌∷◌, ◌++◌, length, get_elem?,
  Str, ◌==◌, if◌then◌else◌,
}
use regel.Base.Int.{ℤ, pos, ◌-ℤ◌, magnitude}
use regel.Rast.{Kind, Node, is_none, kids, kind, text, word}
use regel.Cek.Value.{Value, Heap, array_obj, alloc}
use regel.Cek.Env.{push_env}
use regel.Cek.Coerce.{Floats, num_to_str, prop_key_string, to_str}
use regel.Cek.Bind.{
  Bound, bound, unsupported, bind_crash, bind_pattern, const, not_const, broken, eval_const,
}
use regel.Cek.Machine.{
  Machine, Frame, FrameKind, Step, next, crash, fault, bad_pattern, need, undef, child, goto,
  apply_val, new_frame, push, incr, tail_from, Meter, fuel_meter, governor_meter, Interp, Signal,
  zero_frame,
}

abbrev pub index_of : ℤ → ℕ
index_of = magnitude

-- The next element of a slice at a cursor; past the end there is none.
pub data Cursor : Type 0 where
  ended : Cursor
  item : Node → Cursor
  outside : Cursor

abbrev cursor_of : Option (List Node) → Cursor
cursor_of none = outside
cursor_of (some []) = ended
cursor_of (some (c ∷ cs)) = item c

abbrev pub cursor : ℤ → List Node → Cursor
cursor i xs = cursor_of (tail_from i xs)

-- `func (m *machine) blockAdvance`
unfoldable pub block_advance : Frame → List Frame → Machine → Step
block_advance f rest m = need (get_elem? (kids f.node) 0) λ stmts.
    elim (cursor f.idx (kids stmts)) [
      | outside ↦ crash
      | ended ↦ next (apply_val (record m { env = f.outer_env; kont = rest }) undef)
      | item s ↦
          next (goto (record m { kont = f ∷ rest }) s (child (child f.path 0) (index_of f.idx)))
    ]

-- What the loop of `varDeclAdvance` ends in: the cursor and the slots, or a fault.
pub data Declared : Type 0 where
  evaluate : ℤ → List Value → Heap → Node → Declared
  bound_all : List Value → Heap → Declared
  declare_fault : Declared
  declare_crash : Declared

abbrev pub need_declared : Option Node → (Node → Declared) → Declared
need_declared none k = declare_crash
need_declared (some n) k = k n

abbrev pub with_slots : Bound → (List Value → Heap → Declared) → Declared
with_slots unsupported k = declare_fault
with_slots bind_crash k = declare_crash
with_slots (bound h slots) k = k slots h

-- The loop over the declarators from the cursor on: those with no initializer are bound inline.
unfoldable pub declare : Floats → List Node → ℤ → List Value → Heap → Declared
declare F [] i vals h = bound_all vals h
declare F (d ∷ ds) i vals h = need_declared (get_elem? (kids d) 2) λ init.
    let later = need_declared (get_elem? (kids d) 0) λ pat.
      with_slots (bind_pattern F pat undef h vals) (λ vals' h'. declare F ds (incr i) vals' h') in
    if is_none init then later else evaluate i vals h init

unfoldable pub after_declare : Declared → Frame → List Frame → Machine → Step
unfolding push_env
after_declare declare_crash f rest m = crash
after_declare declare_fault f rest m = fault bad_pattern m
after_declare (evaluate i vals h init) f rest m = next (
    goto (record m { kont = record f { idx = i; vals = vals } ∷ rest; heap = h }) init
      (child (child (child f.path 0) (index_of i)) 2))
after_declare (bound_all vals h) f rest m = next (
    apply_val (record m { env = some (length h); heap = push_env h m.env vals; kont = rest }) undef)

-- `func (m *machine) varDeclAdvance`
unfoldable pub var_decl_advance : Interp → Frame → List Frame → Machine → Step
unfolding declare after_declare
var_decl_advance I f rest m = need (get_elem? (kids f.node) 0) λ decls.
    need (tail_from f.idx (kids decls))
      λ left. after_declare (declare I.floats left f.idx f.vals m.heap) f rest m

abbrev is_str_part : Kind → Bool
is_str_part Kind.str_part = true
is_str_part _ = false

abbrev pub is_spread : Kind → Bool
is_spread Kind.spread = true
is_spread _ = false

-- The loop of `templateAdvance`: literal parts are passed over.
unfoldable pub skip_parts : List Node → ℤ → Option (ℤ × Node)
skip_parts [] i = none
skip_parts (p ∷ ps) i =
    let more = skip_parts ps (incr i) in if is_str_part (kind p) then more else some (i, p)

-- The second loop: literal parts and the values in turn; a value that is missing adds nothing.
unfoldable pub assemble : Floats → Heap → List Node → List Value → Option Str
assemble F h [] vals = some []
assemble F h (p ∷ ps) [] = elim (assemble F h ps []) [
  | none ↦ none
  | some s ↦ some ((if is_str_part (kind p) then text p else []) ++ s)
]
assemble F h (p ∷ ps) (v ∷ vals) =
    let after : Option Str = elim (assemble F h ps (v ∷ vals)) [
      | none ↦ none
      | some s ↦ some (text p ++ s)
    ] in
    let here : Option Str = elim (to_str F h v) [
      | none ↦ none
      | some t ↦ elim (assemble F h ps vals) [ none ↦ none | some s ↦ some (t ++ s) ]
    ] in
    if is_str_part (kind p) then after else here

unfoldable pub after_parts : Interp → Option (ℤ × Node) → Node → Frame → List Frame → Machine → Step
unfolding assemble
after_parts I (some (i, p)) parts f rest m =
    next (
      goto (record m { kont = record f { idx = i } ∷ rest }) p
        (child (child f.path 0) (index_of i)))
after_parts I none parts f rest m =
    need (assemble I.floats m.heap (kids parts) f.vals)
      (λ s. next (apply_val (record m { kont = rest }) (Value.str s)))

-- `func (m *machine) templateAdvance`
unfoldable pub template_advance : Interp → Frame → List Frame → Machine → Step
unfolding skip_parts after_parts
template_advance I f rest m = need (get_elem? (kids f.node) 0) λ parts.
    need (tail_from f.idx (kids parts)) λ left. after_parts I (skip_parts left f.idx) parts f rest m

-- `func (m *fuelMeter) chargeAlloc` and the governor's, which does nothing.
unfoldable pub charge_alloc : Meter → ℕ → Meter
charge_alloc (fuel_meter steps bytes) n = fuel_meter steps (bytes -ℤ pos n)
charge_alloc (governor_meter count ceiling) n = governor_meter count ceiling

-- What the loop of `arrayAdvance` ends in: the cursor, the elements so far, and the next expression.
pub record Filled : Type 0 where
  pub idx : ℤ
  pub vals : List Value
  pub found : Option Node

-- Holes are `undefined`.
unfoldable pub skip_holes : List Node → ℤ → List Value → Filled
skip_holes [] i vals = record { idx = i; vals = vals; found = none }
skip_holes (e ∷ es) i vals =
    let more = skip_holes es (incr i) (vals ++ (undef ∷ [])) in
    if is_none e then more else record { idx = i; vals = vals; found = some e }

-- The element or the operand of `...` that comes next.
unfoldable pub array_element : Node → Frame → List Frame → Machine → Step
array_element e f rest m =
    if is_spread (kind e)
    then need (get_elem? (kids e) 0) (λ inner. next (
        goto (record m { kont = f ∷ rest }) inner
          (child (child (child f.path 0) (index_of f.idx)) 0)))
    else next (goto (record m { kont = f ∷ rest }) e (child (child f.path 0) (index_of f.idx)))

unfoldable pub after_holes : Option Node → Frame → List Frame → Machine → Step
unfolding array_element charge_alloc
after_holes (some e) f rest m = array_element e f rest m
after_holes none f rest m = next (
    apply_val
      (record m {
        meter = charge_alloc m.meter (length f.vals * 16 + 32);
        heap = alloc m.heap (array_obj f.vals);
        kont = rest;
      })
      (Value.array (length m.heap)))

-- `func (m *machine) arrayAdvance`; the answer of `chargeAlloc` is not looked at.
unfoldable pub array_advance : Frame → List Frame → Machine → Step
unfolding skip_holes after_holes
array_advance f rest m = need (get_elem? (kids f.node) 0) λ elems.
    need (tail_from f.idx (kids elems)) λ left.
      let r = skip_holes left f.idx f.vals in
      after_holes r.found (record f { idx = r.idx; vals = r.vals }) rest m

-- `func (m *machine) objectAdvance`
unfoldable pub object_advance : Frame → List Frame → Machine → Step
object_advance f rest m = need (get_elem? (kids f.node) 0) λ members.
    elim (cursor f.idx (kids members)) [
      | outside ↦ crash
      | ended ↦ next (apply_val (record m { kont = rest }) f.obj)
      | item mem ↦
          let i = if is_spread (kind mem) then 0 else 1 in
          need (get_elem? (kids mem) i) (λ inner. next (
            goto (record m { kont = f ∷ rest }) inner
              (child (child (child f.path 0) (index_of f.idx)) i)))
    ]

-- `func objPropKey`; a computed key that is not constant is the empty key.
prop_key : Floats → Node → Option Str
prop_key F key = elim (kind key) [
  | Kind.str ↦ some (text key)
  | Kind.str_part ↦ some (text key)
  | Kind.name ↦ some (text key)
  | Kind.num ↦ some (num_to_str F (word key))
  | _ ↦ some []
]

unfoldable pub obj_prop_key : Floats → Node → Option Str
unfolding prop_key
obj_prop_key F mem = elim (get_elem? (kids mem) 0) [
  | none ↦ none
  | some key ↦
      if word mem % 2 == 1
      then (elim (eval_const F key) [
        | const v ↦ prop_key_string F [] v
        | not_const ↦ some []
        | broken ↦ none
      ])
      else prop_key F key
]

unfoldable pub push_if : Bool → FrameKind → Machine → Machine
push_if true k m = m
push_if false k m = push m (record (new_frame k m) { outer_env = m.env })

-- `func (m *machine) evalTry`: the finally frame below the catch frame.
unfoldable pub eval_try : Machine → Step
unfolding push_if
eval_try m = need (get_elem? (kids m.node) 1) λ catch_node.
    need (get_elem? (kids m.node) 2) λ finally_node. need (get_elem? (kids m.node) 0) λ body. next (
      goto
        (push_if (is_none catch_node) FrameKind.catch
          (push_if (is_none finally_node) FrameKind.finally m))
        body (child m.path 0))

-- `func (m *machine) triggerFinally`
unfoldable pub trigger_finally : Frame → List Frame → Option Signal → Machine → Step
trigger_finally f rest pending m = need (get_elem? (kids f.node) 2) λ body.
    let run = record (zero_frame FrameKind.finally_run) {
      node = f.node;
      path = f.path;
      outer_env = f.outer_env;
      pend = pending;
    } in
    next (goto (record m { env = f.outer_env; kont = run ∷ rest }) body (child f.path 2))
