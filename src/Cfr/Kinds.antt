-- ===== src/Cfr/Kinds.antt =====
-- The numbers of the closed kinds, in the order of internal/cek (machine.go, frame.go, meter.go,
-- value.go), and the validity tests of wire.go, which make an unknown number an error.
use regel.Base.{ℕ, ◌≡◌, refl, Option, some, [], ◌∷◌, get_elem?}
use regel.Cek.Machine.{Mode, SigKind, ParkKind, FrameKind, Tier}

unfoldable pub mode_code : Mode → ℕ
mode_code Mode.eval = 0
mode_code Mode.apply = 1
mode_code Mode.unwind = 2

unfoldable pub mode_of : ℕ → Option Mode
mode_of = get_elem? (Mode.eval ∷ Mode.apply ∷ Mode.unwind ∷ [])

unfoldable pub sig_kind_code : SigKind → ℕ
sig_kind_code SigKind.throw = 0
sig_kind_code SigKind.break = 1
sig_kind_code SigKind.continue = 2
sig_kind_code SigKind.return = 3

unfoldable pub sig_kind_of : ℕ → Option SigKind
sig_kind_of = get_elem? (SigKind.throw ∷ SigKind.break ∷ SigKind.continue ∷ SigKind.return ∷ [])

unfoldable pub park_kind_code : ParkKind → ℕ
park_kind_code ParkKind.fuel = 0
park_kind_code ParkKind.governor = 1
park_kind_code ParkKind.signal = 2
park_kind_code ParkKind.wake = 3
park_kind_code ParkKind.fresh = 4

unfoldable pub park_reason_of : ℕ → Option ParkKind
park_reason_of =
    get_elem?
      (ParkKind.fuel ∷ ParkKind.governor ∷ ParkKind.signal ∷ ParkKind.wake ∷ ParkKind.fresh ∷ [])

unfoldable pub tier_code : Tier → ℕ
tier_code Tier.sandbox = 0
tier_code Tier.trusted = 1

unfoldable pub tier_of : ℕ → Option Tier
tier_of = get_elem? (Tier.sandbox ∷ Tier.trusted ∷ [])

unfoldable pub frame_kind_code : FrameKind → ℕ
frame_kind_code FrameKind.ret = 0
frame_kind_code FrameKind.block = 1
frame_kind_code FrameKind.var_decl = 2
frame_kind_code FrameKind.expr_stmt = 3
frame_kind_code FrameKind.branch = 4
frame_kind_code FrameKind.bin = 5
frame_kind_code FrameKind.logic = 6
frame_kind_code FrameKind.unary = 7
frame_kind_code FrameKind.update = 8
frame_kind_code FrameKind.cond = 9
frame_kind_code FrameKind.call = 10
frame_kind_code FrameKind.member = 11
frame_kind_code FrameKind.index = 12
frame_kind_code FrameKind.array = 13
frame_kind_code FrameKind.object = 14
frame_kind_code FrameKind.return = 15
frame_kind_code FrameKind.throw = 16
frame_kind_code FrameKind.catch = 17
frame_kind_code FrameKind.finally = 18
frame_kind_code FrameKind.for_loop = 19
frame_kind_code FrameKind.for_of = 20
frame_kind_code FrameKind.while_loop = 21
frame_kind_code FrameKind.do_while = 22
frame_kind_code FrameKind.switch = 23
frame_kind_code FrameKind.assign = 24
frame_kind_code FrameKind.await = 25
frame_kind_code FrameKind.template = 26
frame_kind_code FrameKind.typeof = 27
frame_kind_code FrameKind.member_assign = 28
frame_kind_code FrameKind.finally_run = 29

unfoldable pub frame_kind_of : ℕ → Option FrameKind
frame_kind_of = get_elem? (
    FrameKind.ret ∷ FrameKind.block ∷ FrameKind.var_decl ∷ FrameKind.expr_stmt ∷ FrameKind.branch
    ∷ FrameKind.bin ∷ FrameKind.logic ∷ FrameKind.unary ∷ FrameKind.update ∷ FrameKind.cond
    ∷ FrameKind.call ∷ FrameKind.member ∷ FrameKind.index ∷ FrameKind.array ∷ FrameKind.object
    ∷ FrameKind.return ∷ FrameKind.throw ∷ FrameKind.catch ∷ FrameKind.finally ∷ FrameKind.for_loop
    ∷ FrameKind.for_of ∷ FrameKind.while_loop ∷ FrameKind.do_while ∷ FrameKind.switch
    ∷ FrameKind.assign ∷ FrameKind.await ∷ FrameKind.template ∷ FrameKind.typeof
    ∷ FrameKind.member_assign ∷ FrameKind.finally_run ∷ [])

pub mode_of-mode_code : (k : Mode) → mode_of (mode_code k) ≡ some k
unfolding mode_of mode_code
mode_of-mode_code Mode.eval = refl
mode_of-mode_code Mode.apply = refl
mode_of-mode_code Mode.unwind = refl

pub sig_kind_of-sig_kind_code : (k : SigKind) → sig_kind_of (sig_kind_code k) ≡ some k
unfolding sig_kind_of sig_kind_code
sig_kind_of-sig_kind_code SigKind.throw = refl
sig_kind_of-sig_kind_code SigKind.break = refl
sig_kind_of-sig_kind_code SigKind.continue = refl
sig_kind_of-sig_kind_code SigKind.return = refl

pub park_reason_of-park_kind_code : (k : ParkKind) → park_reason_of (park_kind_code k) ≡ some k
unfolding park_reason_of park_kind_code
park_reason_of-park_kind_code ParkKind.fuel = refl
park_reason_of-park_kind_code ParkKind.governor = refl
park_reason_of-park_kind_code ParkKind.signal = refl
park_reason_of-park_kind_code ParkKind.wake = refl
park_reason_of-park_kind_code ParkKind.fresh = refl

pub tier_of-tier_code : (k : Tier) → tier_of (tier_code k) ≡ some k
unfolding tier_of tier_code
tier_of-tier_code Tier.sandbox = refl
tier_of-tier_code Tier.trusted = refl

pub frame_kind_of-frame_kind_code : (k : FrameKind) → frame_kind_of (frame_kind_code k) ≡ some k
unfolding frame_kind_of frame_kind_code
frame_kind_of-frame_kind_code FrameKind.ret = refl
frame_kind_of-frame_kind_code FrameKind.block = refl
frame_kind_of-frame_kind_code FrameKind.var_decl = refl
frame_kind_of-frame_kind_code FrameKind.expr_stmt = refl
frame_kind_of-frame_kind_code FrameKind.branch = refl
frame_kind_of-frame_kind_code FrameKind.bin = refl
frame_kind_of-frame_kind_code FrameKind.logic = refl
frame_kind_of-frame_kind_code FrameKind.unary = refl
frame_kind_of-frame_kind_code FrameKind.update = refl
frame_kind_of-frame_kind_code FrameKind.cond = refl
frame_kind_of-frame_kind_code FrameKind.call = refl
frame_kind_of-frame_kind_code FrameKind.member = refl
frame_kind_of-frame_kind_code FrameKind.index = refl
frame_kind_of-frame_kind_code FrameKind.array = refl
frame_kind_of-frame_kind_code FrameKind.object = refl
frame_kind_of-frame_kind_code FrameKind.return = refl
frame_kind_of-frame_kind_code FrameKind.throw = refl
frame_kind_of-frame_kind_code FrameKind.catch = refl
frame_kind_of-frame_kind_code FrameKind.finally = refl
frame_kind_of-frame_kind_code FrameKind.for_loop = refl
frame_kind_of-frame_kind_code FrameKind.for_of = refl
frame_kind_of-frame_kind_code FrameKind.while_loop = refl
frame_kind_of-frame_kind_code FrameKind.do_while = refl
frame_kind_of-frame_kind_code FrameKind.switch = refl
frame_kind_of-frame_kind_code FrameKind.assign = refl
frame_kind_of-frame_kind_code FrameKind.await = refl
frame_kind_of-frame_kind_code FrameKind.template = refl
frame_kind_of-frame_kind_code FrameKind.typeof = refl
frame_kind_of-frame_kind_code FrameKind.member_assign = refl
frame_kind_of-frame_kind_code FrameKind.finally_run = refl
