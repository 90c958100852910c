-- ===== src/Cek/Unwind.antt =====
-- internal/cek/unwind.go: propagate a signal through K.
use regel.Base.{◌%◌, Bool, true, false, some, List, [], ◌∷◌, length, get_elem?, ◌==◌, if◌then◌else◌}
use regel.Rast.{Node, kids, word}
use regel.Cek.Env.{push_env}
use regel.Cek.Bind.{bound, unsupported, bind_crash, bind_pattern}
use regel.Cek.Machine.{
  Machine, Frame, FrameKind, Step, next, stop, crash, fault, done, faulted, error, need, child,
  goto, apply_val, incr, Interp, Mode, SigKind, bad_pattern, stray_break,
}
use regel.Cek.Control.{trigger_finally}
use regel.Cek.Loops.{leave, for_eval_incr, while_eval_cond, do_while_eval_cond, for_of_step}
use regel.Cek.Call.{restore_caller}

-- `func (m *machine) uncaught`
unfoldable pub uncaught : SigKind → Machine → Step
uncaught SigKind.throw m = stop (faulted m.sig.val) m
uncaught SigKind.return m = stop (done m.sig.val) m
uncaught _ m = stop (error stray_break) m

-- Pop the frame and go on unwinding, in the outer environment of a loop or a switch.
abbrev pub abandon : Frame → List Frame → Machine → Step
abandon f rest m = next (record m { env = f.outer_env; kont = rest })

abbrev pub pass : List Frame → Machine → Step
pass rest m = next (record m { kont = rest })

unfoldable pub is_return : SigKind → Bool
is_return SigKind.return = true
is_return _ = false

-- A return ends at the boundary with its value; any other signal crosses it.
unfoldable pub unwind_ret : Interp → Frame → List Frame → Machine → Step
unfolding uncaught is_return
unwind_ret I f [] m = uncaught m.sig.kind (record m { kont = [] })
unwind_ret I f (g ∷ rest) m =
    if is_return m.sig.kind
    then next (apply_val (record (restore_caller I f m) { kont = g ∷ rest }) m.sig.val)
    else next (record (restore_caller I f m) { kont = g ∷ rest; mode = Mode.unwind })

-- Evaluate the block of the catch clause.
unfoldable pub enter_catch : Frame → Node → Machine → Step
enter_catch f catch_node m =
    need (get_elem? (kids catch_node) 1) λ body. next (goto m body (child (child f.path 1) 1))

-- The exception is bound to the parameter, if there is one (bit 0).
unfoldable pub handle : Interp → Frame → List Frame → Machine → Step
unfolding enter_catch push_env
handle I f rest m = need (get_elem? (kids f.node) 1) λ catch_node.
    if word catch_node % 2 == 1
    then need (get_elem? (kids catch_node) 0) (λ pat.
      elim (bind_pattern I.floats pat m.sig.val m.heap []) [
        | unsupported ↦ fault bad_pattern m
        | bind_crash ↦ crash
        | bound h slots ↦
            enter_catch f catch_node
              (record m { env = some (length h); heap = push_env h f.outer_env slots; kont = rest })
      ])
    else enter_catch f catch_node (record m { env = f.outer_env; kont = rest })

unfoldable pub unwind_catch : Interp → SigKind → Frame → List Frame → Machine → Step
unfolding handle
unwind_catch I SigKind.throw f rest m = handle I f rest m
unwind_catch I _ f rest m = pass rest m

-- `break` leaves a loop, `continue` goes on with it, any other signal passes.
unfoldable pub unwind_loop : SigKind → Step → Frame → List Frame → Machine → Step
unwind_loop SigKind.break again f rest m = leave f rest m
unwind_loop SigKind.continue again f rest m = again
unwind_loop _ again f rest m = abandon f rest m

unfoldable pub unwind_switch : SigKind → Frame → List Frame → Machine → Step
unwind_switch SigKind.break f rest m = leave f rest m
unwind_switch _ f rest m = abandon f rest m

-- The switch on the kind of the top frame.
unfoldable pub unwind_frame : Interp → FrameKind → Frame → List Frame → Machine → Step
unfolding unwind_ret unwind_catch unwind_loop unwind_switch
unwind_frame I FrameKind.ret f rest m = unwind_ret I f rest m
unwind_frame I FrameKind.catch f rest m = unwind_catch I m.sig.kind f rest m
unwind_frame I FrameKind.finally f rest m = trigger_finally f rest (some m.sig) m
unwind_frame I FrameKind.finally_run f rest m = pass rest m
unwind_frame I FrameKind.for_loop f rest m =
    unwind_loop m.sig.kind (for_eval_incr f rest m) f rest m
unwind_frame I FrameKind.while_loop f rest m =
    unwind_loop m.sig.kind (while_eval_cond f rest m) f rest m
unwind_frame I FrameKind.do_while f rest m =
    unwind_loop m.sig.kind (do_while_eval_cond f rest m) f rest m
unwind_frame I FrameKind.for_of f rest m =
    unwind_loop m.sig.kind (for_of_step I (record f { idx = incr f.idx }) rest m) f rest m
unwind_frame I FrameKind.switch f rest m = unwind_switch m.sig.kind f rest m
unwind_frame I k f rest m = pass rest m

-- `func (m *machine) unwindStep`
unfoldable pub unwind_step : Interp → List Frame → Machine → Step
unfolding unwind_frame uncaught
unwind_step I [] m = uncaught m.sig.kind m
unwind_step I (f ∷ rest) m = unwind_frame I f.kind f rest m
