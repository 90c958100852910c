-- ===== src/Cek/Coherence/Pause.antt =====
-- A pause by a meter, in parkMeter of internal/cek/machine.go and Resume of resume.go, loses nothing.
use regel.Base.{
  ℕ, zero, suc, ◌≡◌, refl, ap, ap₂, sym, ◌∙◌, Bool, true, false, Option, none, some, List, [], ◌∷◌,
  arith, Str, codes, str_eq, if◌then◌else◌, ◌==◌,
}
use regel.Base.Int.{ℤ, pos, negsuc, is_zero}
use regel.Rast.{Node}
use regel.Cek.Machine.{
  Machine, Interp, Mode, ParkKind, Principal, Tier, fuel_meter, governor_meter, snapshot, navigate,
  absent_node, Any, float_any,
}
use regel.Cek.Coerce.{Floats}
use regel.Cek.Resume.{
  Delivery, RestartChoice, live, resume, ready, rebuilt, deliver, fuelled, is_abort, is_eval,
  or_absent, granted_fuel, default_fuel_alloc,
}
use regel.Cek.Coherence.{Coherent, AtNode}
use regel.Cek.Coherence.Rebind.{strip_state, rebind-strip, fuelled-mode, lost_mode}

-- The parks at which no value is delivered: the machine goes on as it was.
abbrev pub goes_on : ParkKind → Bool
goes_on ParkKind.signal = false
goes_on ParkKind.wake = false
goes_on _ = true

deliver_nothing :
    (F : Floats) (pk : ParkKind) (d : Delivery) (m : Machine)
    → goes_on pk ≡ true
    → deliver F pk d m ≡ m
unfolding deliver
deliver_nothing F ParkKind.fuel d m h = refl
deliver_nothing F ParkKind.governor d m h = refl
deliver_nothing F ParkKind.fresh d m h = refl
deliver_nothing F ParkKind.signal d m h = absurd (ground arith)
deliver_nothing F ParkKind.wake d m h = absurd (ground arith)

-- The node register matters in Eval mode only.
abbrev pub SameNode : Mode → Node → Node → Type 0
SameNode Mode.eval a b = a ≡ b
SameNode _ a b = Unit {0}

same_found :
    (k : Mode) (root a b : Node) (m : Machine)
    → navigate root m.path ≡ some a
    → AtNode k root m.path b
    → SameNode k a b
same_found Mode.eval root a b m e h = some_inj (sym e ∙ h)
  where
    some_inj : some a ≡ some b → a ≡ b
    some_inj q = ap (λ o. elim o [ none ↦ a | some x ↦ x ]) q
same_found Mode.apply root a b m e h = tt
same_found Mode.unwind root a b m e h = tt

same_lost : (k : Mode) (a b : Node) → is_eval k ≡ false → SameNode k a b
unfolding is_eval
same_lost Mode.eval a b e = absurd (ground arith)
same_lost Mode.apply a b e = tt
same_lost Mode.unwind a b e = tt

-- What the operator chooses at a park by a meter of a tier, where so much fuel was granted before, and how
-- much fuel is granted then: a number of the request's JSON, or the old budget, or the default.
pub data Renewal (F : Floats) : Tier → ℤ → RestartChoice → ℤ → Type 0 where
  more_fuel :
      (kept : ℤ) (w : ℕ)
      → Renewal F Tier.sandbox kept
          (record { name = codes "grant-fuel"; args = (codes "fuel", float_any w) ∷ [] })
          (F.trunc w)
  same_fuel :
      (k : ℕ)
      → Renewal F Tier.sandbox
          (pos (suc k))
          (record { name = codes "grant-fuel"; args = [] })
          (pos (suc k))
  first_fuel :
      Renewal F Tier.sandbox (pos 0) (record { name = codes "grant-fuel"; args = [] }) (pos 100_000)
  more_time :
      (kept : ℤ) (args : List (Str × Any))
      → Renewal F Tier.trusted kept (record { name = codes "grant-time"; args = args }) kept

not_zero : (n : ℕ) → (suc n == 0) ≡ false
not_zero n = ground arith

Renewal-granted :
    (F : Floats) (kept n : ℤ) (c : RestartChoice)
    → Renewal F Tier.sandbox kept c n
    → granted_fuel F (some c) kept ≡ n
unfolding granted_fuel str_eq
Renewal-granted F kept _ _ (more_fuel _ w) = refl
Renewal-granted F _ _ _ (same_fuel k) = rw (not_zero k) refl
Renewal-granted F _ _ _ first_fuel = refl

Renewal-abort :
    (F : Floats) (t : Tier) (kept n : ℤ) (c : RestartChoice)
    → Renewal F t kept c n
    → is_abort (some c) ≡ false
unfolding is_abort str_eq
Renewal-abort F _ _ _ _ (more_fuel _ w) = refl
Renewal-abort F _ _ _ _ (same_fuel k) = refl
Renewal-abort F _ _ _ _ first_fuel = refl
Renewal-abort F _ _ _ _ (more_time _ args) = refl

-- 10 MiB where no bytes are set.
abbrev pub bytes_after : ℤ → ℤ
bytes_after (pos zero) = pos 10_485_760
bytes_after z = z

-- The meter and the budget of the next run: a sandbox has the steps that were granted, a trusted machine
-- the governor with its ceiling, from 0.
abbrev pub Budgeted : Tier → ℤ → Machine → Machine → Type 0
Budgeted Tier.sandbox n m m' =
    (m'.meter ≡ fuel_meter n (bytes_after m.fuel_alloc))
    × ((m'.fuel_steps ≡ n) × (m'.fuel_alloc ≡ bytes_after m.fuel_alloc))
Budgeted Tier.trusted n m m' =
    (m'.meter ≡ governor_meter 0 50_000_000)
    × ((m'.fuel_steps ≡ m.fuel_steps) × (m'.fuel_alloc ≡ m.fuel_alloc))

-- The one machine goes on from where the other was, for another principal and with a new budget.
pub record Continued (p : Principal) (n : ℤ) (m m' : Machine) : Type 0 where
  pub def_hash : m'.def_hash ≡ m.def_hash
  pub root : m'.root ≡ m.root
  pub node : SameNode m.mode m'.node m.node
  pub path : m'.path ≡ m.path
  pub env : m'.env ≡ m.env
  pub kont : m'.kont ≡ m.kont
  pub mode : m'.mode ≡ m.mode
  pub val : m'.val ≡ m.val
  pub sig : m'.sig ≡ m.sig
  pub heap : m'.heap ≡ m.heap
  pub tier : m'.tier ≡ m.tier
  pub principal : m'.principal ≡ p
  pub effects : m'.effects ≡ []
  pub transitions : m'.transitions ≡ 0
  pub budget : Budgeted m.tier n m m'

bytes_kept : (z : ℤ) → (if is_zero z then default_fuel_alloc else z) ≡ bytes_after z
bytes_kept (pos zero) = refl
bytes_kept (pos (suc n)) = rw (not_zero n) refl
bytes_kept (negsuc n) = refl

fuelled-Budgeted :
    (F : Floats) (t : Tier) (c : RestartChoice) (n : ℤ) (p : Principal) (pk : ParkKind)
    (m : Machine) (x : Node)
    → Renewal F t m.fuel_steps c n
    → Budgeted t n m (fuelled F (some c) t (rebuilt (snapshot m pk) m.root x m.kont p))
unfolding fuelled rebuilt
fuelled-Budgeted F Tier.trusted c n p pk m x r = (refl, (refl, refl))
fuelled-Budgeted F Tier.sandbox c n p pk m x r =
    let g = Renewal-granted F m.fuel_steps n c r in
    (ap₂ fuel_meter g (bytes_kept m.fuel_alloc), (g, bytes_kept m.fuel_alloc))

-- A fresh meter changes nothing else.
fuelled-Continued :
    (F : Floats) (t : Tier) (c : RestartChoice) (n : ℤ) (p : Principal) (pk : ParkKind)
    (m : Machine) (x : Node)
    → SameNode m.mode x m.node
    → t ≡ m.tier
    → Budgeted m.tier n m (fuelled F (some c) t (rebuilt (snapshot m pk) m.root x m.kont p))
    → Continued p n m (fuelled F (some c) t (rebuilt (snapshot m pk) m.root x m.kont p))
unfolding fuelled rebuilt
fuelled-Continued F Tier.trusted c n p pk m x s e b = record {
  def_hash = refl;
  root = refl;
  node = s;
  path = refl;
  env = refl;
  kont = refl;
  mode = refl;
  val = refl;
  sig = refl;
  heap = refl;
  tier = refl;
  principal = refl;
  effects = refl;
  transitions = refl;
  budget = b;
}
fuelled-Continued F Tier.sandbox c n p pk m x s e b = record {
  def_hash = refl;
  root = refl;
  node = s;
  path = refl;
  env = refl;
  kont = refl;
  mode = refl;
  val = refl;
  sig = refl;
  heap = refl;
  tier = refl;
  principal = refl;
  effects = refl;
  transitions = refl;
  budget = b;
}

module _ (I : Interp) (pk : ParkKind) (m : Machine) (go : goes_on pk ≡ true) (c : RestartChoice)
    (n : ℤ) (p : Principal) (r : Renewal I.floats m.tier m.fuel_steps c n) where
  continued :
      (x : Node)
      → SameNode m.mode x m.node
      → Continued p n m
          (fuelled I.floats (some c) m.tier (rebuilt (snapshot m pk) m.root x m.kont p))
  continued x s =
      fuelled-Continued I.floats m.tier c n p pk m x s refl
        (fuelled-Budgeted I.floats m.tier c n p pk m x r)

  ready-Continued :
      (o : Option Node)
      → navigate m.root m.path ≡ o
      → AtNode m.mode m.root m.path m.node
      → (m' : Machine) × (ready I
            (snapshot m pk)
            (record { restart = some c; value = none })
            p
            m.root
            m.kont
            o
          ≡ live m')
        × Continued p n m m'
  unfolding ready rebuilt or_absent
  ready-Continued (some x) e at = (
    fuelled I.floats (some c) m.tier (rebuilt (snapshot m pk) m.root x m.kont p),
    rw
        (deliver_nothing I.floats pk (record { restart = some c; value = none })
          (rebuilt (snapshot m pk) m.root x m.kont p) go)
        refl,
    continued x (same_found m.mode m.root x m.node m e at),
  )
  ready-Continued none e at = (
    fuelled I.floats (some c) m.tier (rebuilt (snapshot m pk) m.root absent_node m.kont p),
    rw
        (
          deliver_nothing I.floats pk (record { restart = some c; value = none })
              (rebuilt (snapshot m pk) m.root absent_node m.kont p) go,
          fuelled-mode I.floats (some c) m.tier
              (rebuilt (snapshot m pk) m.root absent_node m.kont p),
          no_node,
        )
        refl,
    continued absent_node (same_lost m.mode absent_node m.node no_node),
  )
    where
      no_node : is_eval m.mode ≡ false
      no_node = lost_mode m.mode m.root m.node m.path e at

-- A coherent machine that a meter parks, its frames read back without their nodes, and resumed for any
-- principal by the choice that grants fuel or time, goes on from where it was: nothing is lost but the
-- effects and the count of the run, and, outside Eval mode, the unused node; its budget is the one that
-- was granted.
pub resume-Continued :
    (I : Interp) (pk : ParkKind) (m : Machine) (c : RestartChoice) (n : ℤ) (p : Principal)
    → goes_on pk ≡ true
    → Coherent I m
    → Renewal I.floats m.tier m.fuel_steps c n
    → (m' : Machine) × (resume I
          (strip_state (snapshot m pk))
          (record { restart = some c; value = none })
          p
        ≡ live m')
      × Continued p n m m'
unfolding resume
resume-Continued I pk m c n p go k r =
    rw
      (
        Renewal-abort I.floats m.tier m.fuel_steps n c r,
        k.loaded,
        rebind-strip I m.root m.kont k.frames,
      )
      (ready-Continued I pk m go c n p r (navigate m.root m.path) refl k.at_node)
