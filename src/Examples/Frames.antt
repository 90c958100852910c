-- ===== src/Examples/Frames.antt =====
-- Inputs for the theorems on the frame records: a heap with a cycle, a shared array, a closure and an
-- opaque object.
use regel.Base.{ℕ, ◌≡◌, refl, true, false, some, none, List, [], ◌∷◌, ◌++◌, codes, str_eq, arith}
use regel.Base.Int.{pos, negsuc}
use regel.Cek.Value.{
  Value, env_obj, array_obj, record_obj, closure_obj, opaque_obj, Heap, closure_at, as_closure,
  record_get, lookup_key,
}
use regel.Cek.Machine.{
  Mode, SigKind, ParkKind, FrameKind, Tier, Frame, State, absent_node, zero_frame,
}
use regel.Cfr.Form.{StateForm, Cell, record_shell, env_shell}
use regel.Cfr.Encode.{big_bytes, write_state}
use regel.Cfr.Decode.{decode, ref_is, env_ref_ok}
use regel.Cfr.Intern.{kind_at, target, field_values, intern_state}
use regel.Cfr.Intern.Reach.{Complete, intern_state-Complete}
use regel.Cfr.Image.Fits.{HeldFrame, Held}
use regel.Cfr.Codec.Fits.{StateFits, types_of}
use regel.Cfr.Codec.States.{decode-write_state, decode_alone}
use regel.Cfr.Codec.Sound.{StateOk}
use regel.Cfr.Codec.Sound.States.{decode-StateOk}
use regel.Cfr.Load.{load_state}
use regel.Cfr.Restore.{Restored, restored, held-Sound, held_roots}
use regel.Cfr.Restore.Closures.{restored-strict_eq}
use regel.Cek.Ops.{strict_eq}

abbrev heap : Heap
heap =
    env_obj none (Value.array 1 ∷ Value.closure 3 ∷ [])
    ∷ array_obj (Value.rec 2 ∷ Value.array 1 ∷ [])
    ∷ record_obj (record { keys = codes "k" ∷ []; entries = (codes "k", Value.bool 1) ∷ [] })
    ∷ closure_obj (codes "d") (3 ∷ []) (some 0)
    ∷ opaque_obj (codes "money") (1 ∷ 2 ∷ [])
    ∷ []

abbrev frame : Frame
frame = record {
  kind = FrameKind.finally_run;
  node = absent_node;
  path = 0 ∷ 2 ∷ [];
  idx = pos 1;
  vals = Value.array 1 ∷ Value.str (codes "x") ∷ [];
  env = some 0;
  outer_env = none;
  ret_def = [];
  ret_path = [];
  ret_env = none;
  aux = negsuc 0;
  obj = Value.rec 2;
  key = codes "k";
  idx_val = Value.undefined;
  pend = some (record { kind = SigKind.throw; val = Value.bigint (negsuc 299) });
}

-- The call boundary below it.
abbrev bottom_frame : Frame
bottom_frame = record (zero_frame FrameKind.ret) { ret_def = codes "d" }

abbrev state : State
state = record {
  def_hash = codes "d";
  path = 0 ∷ [];
  mode = Mode.apply;
  val = Value.opaque 4;
  sig = record { kind = SigKind.return; val = Value.f64 0x3ff0_0000_0000_0000 };
  env = some 0;
  kont = frame ∷ bottom_frame ∷ [];
  heap = heap;
  tier = Tier.trusted;
  fuel_steps = pos 5;
  fuel_alloc = negsuc 4;
  park_kind = ParkKind.wake;
}

frame-HeldFrame : HeldFrame heap frame
unfolding kind_at big_bytes
frame-HeldFrame = record {
  path = (refl, omega arith);
  idx = omega arith;
  aux = omega arith;
  few_vals = omega arith;
  vals = (refl, (omega arith, tt));
  env = refl;
  outer_env = tt;
  ret_def = omega arith;
  ret_path = (refl, omega arith);
  ret_env = tt;
  obj = refl;
  key = omega arith;
  idx_val = tt;
  pend = omega arith;
}

bottom-HeldFrame : HeldFrame heap bottom_frame
unfolding kind_at big_bytes
bottom-HeldFrame = record {
  path = (refl, omega arith);
  idx = omega arith;
  aux = omega arith;
  few_vals = omega arith;
  vals = tt;
  env = tt;
  outer_env = tt;
  ret_def = omega arith;
  ret_path = (refl, omega arith);
  ret_env = tt;
  obj = tt;
  key = omega arith;
  idx_val = tt;
  pend = tt;
}

state-Held : Held state
unfolding kind_at closure_at as_closure record_get lookup_key str_eq
state-Held = record {
  heap = (
    (tt, omega arith, (refl, ((omega arith, (refl, omega arith), refl), tt))),
    (
      (omega arith, (refl, (refl, tt))),
      ((omega arith, ((omega arith, omega arith), tt), refl), (tt, (tt, tt))),
    ),
  );
  few_objects = omega arith;
  def_hash = omega arith;
  path = (refl, omega arith);
  fuel_steps = omega arith;
  fuel_alloc = omega arith;
  val = (omega arith, omega arith);
  sig = omega arith;
  env = refl;
  few_frames = omega arith;
  kont = (frame-HeldFrame, (bottom-HeldFrame, tt));
}

restored_example : Restored state
restored_example = restored state state-Held

-- The table of the state, in the order in which the objects are met.
found : intern_state state ≡ some (0 ∷ 1 ∷ 2 ∷ [])
unfolding intern_state target closure_at as_closure field_values str_eq
found = refl

intern_state-Complete_example :
    (table : List ℕ) × (intern_state state ≡ some table) × Complete state table
intern_state-Complete_example =
    intern_state-Complete state (held-Sound state state-Held) (held_roots state state-Held)

-- A record, an environment that holds it and itself in a closure, and a state in that environment.
abbrev form : StateForm
form = record {
  table =
      record_shell ((codes "k", Cell.bool 1) ∷ [])
      ∷ env_shell 2 (Cell.rec 1 ∷ Cell.closure (codes "d") (3 ∷ []) 2 ∷ [])
      ∷ [];
  def_hash = codes "d";
  path = 0 ∷ [];
  mode = Mode.apply;
  park_kind = ParkKind.wake;
  tier = Tier.sandbox;
  fuel_steps = pos 5;
  fuel_alloc = negsuc 4;
  val = Cell.bigint (negsuc 299);
  sig = record { kind = SigKind.throw; val = Cell.opaque (codes "money") (1 ∷ []) };
  env = 2;
  kont = [];
}

form-StateFits : StateFits form
unfolding ref_is env_ref_ok big_bytes str_eq
form-StateFits = record {
  few_objects = omega arith;
  table = (
    (omega arith, ((omega arith, omega arith), tt), refl),
    (
      (
        (omega arith, refl),
        omega arith,
        ((omega arith, refl), ((omega arith, (refl, omega arith), (omega arith, refl)), tt)),
      ),
      tt,
    ),
  );
  def_hash = omega arith;
  path = (refl, omega arith);
  fuel_steps = omega arith;
  fuel_alloc = omega arith;
  val = omega arith;
  sig = (omega arith, omega arith);
  env = (omega arith, refl);
  few_frames = omega arith;
  kont = tt;
}

decode-write_state_example : decode (write_state form ++ 7 ∷ []) ≡ none
decode-write_state_example = decode-write_state form (7 ∷ []) form-StateFits

decode-StateOk_example : StateOk (types_of form) form
decode-StateOk_example = decode-StateOk (write_state form) form (decode_alone form form-StateFits)

-- One closure in two registers.
abbrev twice : State
twice = record state {
  val = Value.closure 3;
  sig = record { kind = SigKind.return; val = Value.closure 3 };
}

twice-Held : Held twice
unfolding closure_at as_closure kind_at
twice-Held =
    let k = state-Held in
    record {
      heap = k.heap;
      few_objects = k.few_objects;
      def_hash = k.def_hash;
      path = k.path;
      fuel_steps = k.fuel_steps;
      fuel_alloc = k.fuel_alloc;
      val = (omega arith, (refl, omega arith), refl);
      sig = (omega arith, (refl, omega arith), refl);
      env = k.env;
      few_frames = k.few_frames;
      kont = k.kont;
    }

restored-strict_eq_example :
    (strict_eq twice.val twice.sig.val ≡ true)
    × (let s' = load_state (restored twice twice-Held).form in strict_eq s'.val s'.sig.val ≡ false)
restored-strict_eq_example = restored-strict_eq twice 3 twice-Held refl refl
