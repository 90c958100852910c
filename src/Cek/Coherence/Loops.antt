-- ===== src/Cek/Coherence/Loops.antt =====
-- The transitions of Cek/Loops.antt keep the invariant.
use regel.Base.{ℕ, ◌≡◌, refl, true, Option, none, some, List, [], get_elem?, ◌==◌}
use regel.Base.Int.{pos}
use regel.Rast.{Node, kids, is_none}
use regel.Rast.Fits.{fits}
use regel.Cek.Value.{Value, truthy, array_at}
use regel.Cek.Bind.{bind_pattern}
use regel.Cek.Machine.{
  Meter, Machine, Frame, FrameKind, crash, fault, bad_phase, bad_pattern, Interp, navigate, child,
  new_frame, incr, tail_from,
}
use regel.Cek.Loops.{
  leave, phase, for_init, for_cond, for_body, for_incr, for_eval_body, for_eval_cond, for_eval_incr,
  eval_for, for_resume, while_eval_cond, while_resume, do_while_eval_cond, do_while_resume,
  for_of_pattern, for_of_bind, for_of_step, for_of_resume, switch_run, Match, matched, no_match,
  match_crash, match_clause, switch_match,
}
use regel.Cek.Coherence.{Keeps, Below, FrameAt}
use regel.Cek.Coherence.Basic.{
  navigate-child, enter_node, deliver_below, need-Keeps, if-Keeps, cursor-Keeps,
}
use regel.Cek.Coherence.Cases.{int-Keeps, bound-Keeps, array_value-Keeps, list-Keeps}

module _ (I : Interp) (mt : Meter) (rest : List Frame) (m : Machine) (fit : fits m.root ≡ true)
    (b : Below I mt m.meter m.def_hash m.root rest) where
  kid :
      (f : Frame)
      → FrameAt m.root f
      → (c : Node) (i : ℕ) → get_elem? (kids f.node) i ≡ some c
      → navigate m.root (child f.path i) ≡ some c
  kid f at c i e = navigate-child m.root f.node c f.path i fit at.1 e

  phase-Keeps :
      (i p : ℕ) (e : Option ℕ) (f : Frame) → FrameAt m.root f → Keeps I mt (phase i p e f rest m)
  phase-Keeps i p e f at =
      need-Keeps I mt (get_elem? (kids f.node) i) _ λ c z. enter_node b at (kid f at c i z)

  pub leave-Keeps : (f : Frame) → Keeps I mt (leave f rest m)
  leave-Keeps f = deliver_below b

  pub for_eval_body-Keeps : (f : Frame) → FrameAt m.root f → Keeps I mt (for_eval_body f rest m)
  unfolding for_eval_body
  for_eval_body-Keeps f at = phase-Keeps 3 for_body f.env f at

  pub for_eval_cond-Keeps : (f : Frame) → FrameAt m.root f → Keeps I mt (for_eval_cond f rest m)
  unfolding for_eval_cond
  for_eval_cond-Keeps f at = need-Keeps I mt (get_elem? (kids f.node) 1) _ λ c z.
      if-Keeps I mt (is_none c) _ (phase 1 for_cond f.env f rest m) (λ _. for_eval_body-Keeps f at)
        (λ _. phase-Keeps 1 for_cond f.env f at)

  pub for_eval_incr-Keeps : (f : Frame) → FrameAt m.root f → Keeps I mt (for_eval_incr f rest m)
  unfolding for_eval_incr
  for_eval_incr-Keeps f at = need-Keeps I mt (get_elem? (kids f.node) 2) _ λ c z.
      if-Keeps I mt (is_none c) _ (phase 2 for_incr f.env f rest m) (λ _. for_eval_cond-Keeps f at)
        (λ _. phase-Keeps 2 for_incr f.env f at)

  pub for_resume-Keeps : (f : Frame) → FrameAt m.root f → Keeps I mt (for_resume f rest m)
  unfolding for_resume
  for_resume-Keeps f at =
      int-Keeps I mt f.idx _ _ (λ n. tt)
        λ p.
          if-Keeps I mt (p == for_init) _ _ (λ _. for_eval_cond-Keeps (record f { env = m.env }) at)
            λ _.
              if-Keeps I mt (p == for_cond) _ _
                (λ _.
                  if-Keeps I mt (truthy m.val) _ (leave f rest m) (λ _. for_eval_body-Keeps f at)
                    (λ _. leave-Keeps f))
                λ _.
                  if-Keeps I mt (p == for_body) _ _ (λ _. for_eval_incr-Keeps f at)
                    λ _.
                      if-Keeps I mt (p == for_incr) _ (fault bad_phase m)
                        (λ _. for_eval_cond-Keeps f at) (λ _. tt)

  pub while_eval_cond-Keeps : (f : Frame) → FrameAt m.root f → Keeps I mt (while_eval_cond f rest m)
  unfolding while_eval_cond
  while_eval_cond-Keeps f at = phase-Keeps 0 0 f.outer_env f at

  pub while_resume-Keeps : (f : Frame) → FrameAt m.root f → Keeps I mt (while_resume f rest m)
  unfolding while_resume
  while_resume-Keeps f at =
      int-Keeps I mt f.idx _ _ (λ n. tt)
        λ p.
          if-Keeps I mt (p == 0) _ _
            (λ _.
              if-Keeps I mt (truthy m.val) (phase 1 1 f.outer_env f rest m) (leave f rest m)
                (λ _. phase-Keeps 1 1 f.outer_env f at) (λ _. leave-Keeps f))
            λ _.
              if-Keeps I mt (p == 1) _ (fault bad_phase m) (λ _. while_eval_cond-Keeps f at)
                (λ _. tt)

  pub do_while_eval_cond-Keeps :
      (f : Frame) → FrameAt m.root f → Keeps I mt (do_while_eval_cond f rest m)
  unfolding do_while_eval_cond
  do_while_eval_cond-Keeps f at = phase-Keeps 1 1 f.outer_env f at

  pub do_while_resume-Keeps : (f : Frame) → FrameAt m.root f → Keeps I mt (do_while_resume f rest m)
  unfolding do_while_resume
  do_while_resume-Keeps f at =
      int-Keeps I mt f.idx _ _ (λ n. tt)
        λ p.
          if-Keeps I mt (p == 0) _ _ (λ _. do_while_eval_cond-Keeps f at)
            λ _.
              if-Keeps I mt (p == 1) _ (fault bad_phase m)
                (λ _.
                  if-Keeps I mt (truthy m.val) (phase 0 0 f.outer_env f rest m) (leave f rest m)
                    (λ _. phase-Keeps 0 0 f.outer_env f at) (λ _. leave-Keeps f))
                (λ _. tt)

  for_of_bind-Keeps :
      (v : Value) (f : Frame) → FrameAt m.root f → Keeps I mt (for_of_bind I v f rest m)
  unfolding for_of_bind
  for_of_bind-Keeps v f at = need-Keeps I mt (for_of_pattern f.node) _ λ pat z.
      bound-Keeps I mt (bind_pattern I.floats pat v m.heap []) bad_pattern m _ λ h vs.
        need-Keeps I mt (get_elem? (kids f.node) 2) _ λ c y. enter_node b at (kid f at c 2 y)

  pub for_of_step-Keeps : (f : Frame) → FrameAt m.root f → Keeps I mt (for_of_step I f rest m)
  unfolding for_of_step
  for_of_step-Keeps f at =
      array_value-Keeps I mt f.obj _ (leave f rest m)
        (λ a. need-Keeps I mt (array_at m.heap a) _ λ elems z.
          list-Keeps I mt (tail_from f.idx elems) crash (leave f rest m) _ tt (leave-Keeps f)
            (λ v. for_of_bind-Keeps v f at))
        (leave-Keeps f)

  pub for_of_resume-Keeps : (f : Frame) → FrameAt m.root f → Keeps I mt (for_of_resume I f rest m)
  unfolding for_of_resume
  for_of_resume-Keeps f at =
      if-Keeps I mt _ _ _ (λ _. for_of_step-Keeps (record f { obj = m.val; idx = pos 0 }) at)
        (λ _. for_of_step-Keeps (record f { idx = incr f.idx }) at)

  pub switch_run-Keeps : (f : Frame) → FrameAt m.root f → Keeps I mt (switch_run f rest m)
  unfolding switch_run
  switch_run-Keeps f at = need-Keeps I mt (get_elem? (kids f.node) 1) _ λ cls z.
      cursor-Keeps I mt f.aux (kids cls) crash crash _ tt tt λ cl y.
        need-Keeps I mt (get_elem? (kids cl) 1) _ λ l x.
          cursor-Keeps I mt f.idx (kids l) crash (leave f rest m) _ tt (leave-Keeps f) λ s w.
            enter_node b at (
              navigate-child m.root l s _ _ fit
                (navigate-child m.root cl l _ _ fit
                  (navigate-child m.root cls cl _ _ fit (kid f at cls 1 z) y) x)
                w)

  matched-Keeps :
      (r : Match) (f : Frame)
      → FrameAt m.root f
      → Keeps I mt (elim r [
        | match_crash ↦ crash
        | no_match none ↦ leave f rest m
        | no_match (some i) ↦ switch_run (record f { aux = pos i; idx = pos 0 }) rest m
        | matched i ↦ switch_run (record f { aux = pos i; idx = pos 0 }) rest m
      ])
  matched-Keeps match_crash f at = tt
  matched-Keeps (no_match none) f at = leave-Keeps f
  matched-Keeps (no_match (some i)) f at =
      switch_run-Keeps (record f { aux = pos i; idx = pos 0 }) at
  matched-Keeps (matched i) f at = switch_run-Keeps (record f { aux = pos i; idx = pos 0 }) at

  pub switch_match-Keeps : (f : Frame) → FrameAt m.root f → Keeps I mt (switch_match I f rest m)
  unfolding switch_match
  switch_match-Keeps f at =
      need-Keeps I mt (get_elem? (kids f.node) 1) _
        λ cls z. matched-Keeps (match_clause I.floats f.obj 0 none (kids cls)) f at

module _ (I : Interp) (mt : Meter) (m : Machine) (fit : fits m.root ≡ true)
    (b : Below I mt m.meter m.def_hash m.root m.kont)
    (at : navigate m.root m.path ≡ some m.node) where
  pub eval_for-Keeps : Keeps I mt (eval_for m)
  unfolding eval_for
  eval_for-Keeps =
      let f = record (new_frame FrameKind.for_loop m) { outer_env = m.env } in
      need-Keeps I mt (get_elem? (kids m.node) 0) _ λ c z.
        if-Keeps I mt (is_none c) _ _ (λ _. for_eval_cond-Keeps I mt m.kont m fit b f (refl, at))
          (λ _. enter_node b (refl, at) (navigate-child m.root m.node c m.path 0 fit at z))
