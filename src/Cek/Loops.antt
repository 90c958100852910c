-- ===== src/Cek/Loops.antt =====
-- internal/cek/loops.go: the loops and the switch. The phase of a loop is in the frame's cursor.
use regel.Base.{
  ℕ, ◌+◌, ◌%◌, Bool, true, false, Option, none, some, List, [], ◌∷◌, length, get_elem?, ◌==◌,
  if◌then◌else◌,
}
use regel.Base.Int.{ℤ, pos, negsuc}
use regel.Rast.{Node, is_none, kids, word}
use regel.Cek.Value.{Value, truthy, array_at}
use regel.Cek.Env.{push_env}
use regel.Cek.Coerce.{Floats}
use regel.Cek.Ops.{strict_eq}
use regel.Cek.Bind.{
  bound, unsupported, bind_crash, bind_pattern, const, not_const, broken, eval_const,
}
use regel.Cek.Machine.{
  Machine, Frame, FrameKind, Step, next, crash, fault, bad_pattern, bad_phase, need, undef, child,
  goto, apply_val, new_frame, incr, tail_from, Interp,
}
use regel.Cek.Control.{ended, item, outside, cursor, index_of}

-- Leave a loop or a switch: restore the outer environment and deliver `undefined`.
abbrev pub leave : Frame → List Frame → Machine → Step
leave f rest m = next (apply_val (record m { env = f.outer_env; kont = rest }) undef)

-- Evaluate child `i` of a loop's node in phase `p`, in the environment `e`.
abbrev pub phase : ℕ → ℕ → Option ℕ → Frame → List Frame → Machine → Step
phase i p e f rest m = need (get_elem? (kids f.node) i) λ c.
    next (goto (record m { env = e; kont = record f { idx = pos p } ∷ rest }) c (child f.path i))

abbrev pub for_init : ℕ
for_init = 0

abbrev pub for_cond : ℕ
for_cond = 1

abbrev pub for_body : ℕ
for_body = 2

abbrev pub for_incr : ℕ
for_incr = 3

-- `func (m *machine) forEvalBody`
unfoldable pub for_eval_body : Frame → List Frame → Machine → Step
for_eval_body f rest m = phase 3 for_body f.env f rest m

-- `func (m *machine) forEvalCond`: with no condition the body follows.
unfoldable pub for_eval_cond : Frame → List Frame → Machine → Step
unfolding for_eval_body
for_eval_cond f rest m =
    need (get_elem? (kids f.node) 1)
      λ c. if is_none c then for_eval_body f rest m else phase 1 for_cond f.env f rest m

-- `func (m *machine) forEvalIncr`
unfoldable pub for_eval_incr : Frame → List Frame → Machine → Step
unfolding for_eval_cond
for_eval_incr f rest m =
    need (get_elem? (kids f.node) 2)
      λ c. if is_none c then for_eval_cond f rest m else phase 2 for_incr f.env f rest m

-- `func (m *machine) evalFor`
unfoldable pub eval_for : Machine → Step
unfolding for_eval_cond
eval_for m = need (get_elem? (kids m.node) 0) λ init.
    let f = record (new_frame FrameKind.for_loop m) { outer_env = m.env } in
    if is_none init
    then for_eval_cond f m.kont m
    else next (goto (record m { kont = f ∷ m.kont }) init (child m.path 0))

-- `func (m *machine) forResume`
unfoldable pub for_resume : Frame → List Frame → Machine → Step
unfolding for_eval_cond for_eval_body for_eval_incr truthy
for_resume f rest m = elim f.idx [
  | negsuc n ↦ fault bad_phase m
  | pos p ↦
      if p == for_init
      then for_eval_cond (record f { env = m.env }) rest m
      else if p == for_cond
      then (if truthy m.val then for_eval_body f rest m else leave f rest m)
      else if p == for_body
      then for_eval_incr f rest m
      else if p == for_incr
      then for_eval_cond f rest m
      else fault bad_phase m
]

-- `func (m *machine) whileEvalCond`
unfoldable pub while_eval_cond : Frame → List Frame → Machine → Step
while_eval_cond f rest m = phase 0 0 f.outer_env f rest m

-- `func (m *machine) whileResume`
unfoldable pub while_resume : Frame → List Frame → Machine → Step
unfolding while_eval_cond truthy
while_resume f rest m = elim f.idx [
  | negsuc n ↦ fault bad_phase m
  | pos p ↦
      if p == 0
      then (if truthy m.val then phase 1 1 f.outer_env f rest m else leave f rest m)
      else if p == 1
      then while_eval_cond f rest m
      else fault bad_phase m
]

-- `func (m *machine) doWhileEvalCond`
unfoldable pub do_while_eval_cond : Frame → List Frame → Machine → Step
do_while_eval_cond f rest m = phase 1 1 f.outer_env f rest m

-- `func (m *machine) doWhileResume`
unfoldable pub do_while_resume : Frame → List Frame → Machine → Step
unfolding do_while_eval_cond truthy
do_while_resume f rest m = elim f.idx [
  | negsuc n ↦ fault bad_phase m
  | pos p ↦
      if p == 0
      then do_while_eval_cond f rest m
      else if p == 1
      then (if truthy m.val then phase 0 0 f.outer_env f rest m else leave f rest m)
      else fault bad_phase m
]

-- The binding pattern of a for-of: KVarDecl → KList → KDeclr → pattern.
unfoldable pub for_of_pattern : Node → Option Node
for_of_pattern n = elim (get_elem? (kids n) 0) [
  | none ↦ none
  | some decl ↦ elim (get_elem? (kids decl) 0) [
    | none ↦ none
    | some l ↦ elim (get_elem? (kids l) 0) [ none ↦ none | some d ↦ get_elem? (kids d) 0 ]
  ]
]

-- The element at the cursor is bound in a new record, and the body follows.
unfoldable pub for_of_bind : Interp → Value → Frame → List Frame → Machine → Step
unfolding for_of_pattern push_env
for_of_bind I v f rest m = need (for_of_pattern f.node) λ pat.
    elim (bind_pattern I.floats pat v m.heap []) [
      | unsupported ↦ fault bad_pattern m
      | bind_crash ↦ crash
      | bound h slots ↦ need (get_elem? (kids f.node) 2) (λ body. next (
          goto
            (record m {
              env = some (length h);
              heap = push_env h f.outer_env slots;
              kont = f ∷ rest;
            })
            body (child f.path 2)))
    ]

-- `func (m *machine) forOfStep`
unfoldable pub for_of_step : Interp → Frame → List Frame → Machine → Step
unfolding for_of_bind array_at
for_of_step I f rest m = elim f.obj [
  | Value.array a ↦ need (array_at m.heap a) (λ elems. elim (tail_from f.idx elems) [
    | none ↦ crash
    | some [] ↦ leave f rest m
    | some (v ∷ vs) ↦ for_of_bind I v f rest m
  ])
  | _ ↦ leave f rest m
]

abbrev is_before : ℤ → Bool
is_before (pos n) = false
is_before (negsuc n) = true

-- `func (m *machine) forOfResume`
unfoldable pub for_of_resume : Interp → Frame → List Frame → Machine → Step
unfolding for_of_step
for_of_resume I f rest m =
    if is_before f.idx
    then for_of_step I (record f { obj = m.val; idx = pos 0 }) rest m
    else for_of_step I (record f { idx = incr f.idx }) rest m

-- `func (m *machine) switchRun`
unfoldable pub switch_run : Frame → List Frame → Machine → Step
switch_run f rest m = need (get_elem? (kids f.node) 1) λ clauses.
    elim (cursor f.aux (kids clauses)) [
      | outside ↦ crash
      | ended ↦ crash
      | item cl ↦ need (get_elem? (kids cl) 1) (λ stmts. elim (cursor f.idx (kids stmts)) [
        | outside ↦ crash
        | ended ↦ leave f rest m
        | item s ↦ next (
            goto (record m { kont = f ∷ rest }) s
              (child (child (child (child f.path 1) (index_of f.aux)) 1) (index_of f.idx)))
      ])
    ]

-- The loop of `switchMatch`: the first clause with an equal label, and the last default seen before.
pub data Match : Type 0 where
  matched : ℕ → Match
  no_match : Option ℕ → Match
  match_crash : Match

unfoldable pub match_clause : Floats → Value → ℕ → Option ℕ → List Node → Match
match_clause F disc i default [] = no_match default
match_clause F disc i default (cl ∷ cls) =
    let skip = match_clause F disc (i + 1) default cls in
    let as_default = match_clause F disc (i + 1) (some i) cls in
    let test : Match = elim (get_elem? (kids cl) 0) [
      | none ↦ match_crash
      | some label ↦ elim (eval_const F label) [
        | broken ↦ match_crash
        | not_const ↦ skip
        | const v ↦ if strict_eq v disc then matched i else skip
      ]
    ] in
    if word cl % 2 == 1 then as_default else test

-- `func (m *machine) switchMatch`
unfoldable pub switch_match : Interp → Frame → List Frame → Machine → Step
unfolding match_clause switch_run
switch_match I f rest m = need (get_elem? (kids f.node) 1) λ clauses.
    elim (match_clause I.floats f.obj 0 none (kids clauses)) [
      | match_crash ↦ crash
      | no_match none ↦ leave f rest m
      | no_match (some i) ↦ switch_run (record f { aux = pos i; idx = pos 0 }) rest m
      | matched i ↦ switch_run (record f { aux = pos i; idx = pos 0 }) rest m
    ]
