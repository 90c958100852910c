-- ===== src/Examples/Parked.antt =====
-- A run that parks, its bytes, and the machine that comes back.
use regel.Base.{◌≡◌, refl, some, [], arith}
use regel.Base.Int.{◌-ℤ◌, ◌+ℤ◌, neg}
use regel.Rast.{Node}
use regel.Cek.Machine.{FrameKind, zero_frame, State, absent_node, child}
use regel.Cek.Eval.{eval_step, eval_node}
use regel.Cek.Run.{run, turn, tick, dispatch, park_meter, park_kind_of, breach_class, restarts}
use regel.Cek.Resume.{resume, is_abort, seed, start_meter, or_default, kept_budget}
use regel.Cek.Coherence.Rebind.{Live}
use regel.Cfr.Wire.{Bytes}
use regel.Cfr.Image.{encode}
use regel.Cfr.Image.Fits.{HeldFrame, Held}
use regel.Cfr.Load.{decode_state}
use regel.Cfr.Restore.Resume.{Stored-restored}
use regel.Examples.{state_of, short, demo, demo-LoadsFit, stored, no_delivery, nobody, typeof_one}

parked_frame : (k : FrameKind) (n : Node) → HeldFrame [] (record (zero_frame k) { node = n })
parked_frame k n = record {
  path = (refl, omega arith);
  idx = omega arith;
  aux = omega arith;
  few_vals = omega arith;
  vals = tt;
  env = tt;
  outer_env = tt;
  ret_def = omega arith;
  ret_path = (refl, omega arith);
  ret_env = tt;
  obj = tt;
  key = omega arith;
  idx_val = tt;
  pend = tt;
}

parked_short : Held (state_of (run demo 2 short))
unfolding state_of run turn tick dispatch eval_step eval_node seed start_meter or_default
    kept_budget park_meter park_kind_of breach_class restarts ◌-ℤ◌ ◌+ℤ◌ neg child
parked_short = record {
  heap = tt;
  few_objects = omega arith;
  def_hash = omega arith;
  path = (refl, omega arith);
  fuel_steps = omega arith;
  fuel_alloc = omega arith;
  val = tt;
  sig = tt;
  env = tt;
  few_frames = omega arith;
  kont = (parked_frame FrameKind.typeof typeof_one, (parked_frame FrameKind.ret absent_node, tt));
}

Stored-restored_example :
    (bytes : Bytes) × (st' : State) × (encode (state_of (run demo 2 short)) ≡ some bytes)
    × (decode_state bytes ≡ some st')
    × Live demo (resume demo st' no_delivery nobody)
Stored-restored_example =
    Stored-restored demo (state_of (run demo 2 short)) no_delivery nobody demo-LoadsFit stored
      parked_short (unfold is_abort in refl)
