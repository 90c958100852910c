-- ===== src/Examples/Golden.antt =====
-- A blob of the repository, cfr/testdata/golden/real_mail_park.cfr, which a parked workflow has left: the
-- model reads it, and writes it again byte for byte.
use regel.Base.{◌≡◌, refl, some, [], ◌∷◌, map, ◌>>=◌}
use regel.Cek.Machine.{Frame, FrameKind}
use regel.Cfr.Form.{FrameForm}
use regel.Cfr.Wire.{Bytes}
use regel.Cfr.Image.{encode}
use regel.Cfr.Decode.{decode}
use regel.Cfr.Load.{decode_state}

abbrev mail_park : Bytes
mail_park =
    1 ∷ 1 ∷ 1 ∷ 0 ∷ 0 ∷ 55 ∷ 114 ∷ 49 ∷ 95 ∷ 116 ∷ 120 ∷ 54 ∷ 120 ∷ 115 ∷ 55 ∷ 101 ∷ 106 ∷ 98 ∷ 54
    ∷ 118 ∷ 52 ∷ 52 ∷ 51 ∷ 102 ∷ 53 ∷ 122 ∷ 50 ∷ 116 ∷ 104 ∷ 114 ∷ 53 ∷ 118 ∷ 98 ∷ 52 ∷ 103 ∷ 55
    ∷ 103 ∷ 51 ∷ 101 ∷ 107 ∷ 56 ∷ 98 ∷ 112 ∷ 116 ∷ 101 ∷ 106 ∷ 103 ∷ 119 ∷ 122 ∷ 119 ∷ 50 ∷ 115 ∷ 49
    ∷ 122 ∷ 56 ∷ 114 ∷ 113 ∷ 49 ∷ 50 ∷ 100 ∷ 103 ∷ 4 ∷ 3 ∷ 0 ∷ 0 ∷ 0 ∷ 1 ∷ 3 ∷ 1 ∷ 0 ∷ 0 ∷ 0 ∷ 0 ∷ 0
    ∷ 1 ∷ 3 ∷ 0 ∷ 0 ∷ 0 ∷ 0 ∷ 0 ∷ 0 ∷ 0 ∷ 0 ∷ 0 ∷ 0 ∷ 0 ∷ 0 ∷ 0 ∷ 0 ∷ 1 ∷ 1 ∷ 3 ∷ 0 ∷ 0 ∷ 0 ∷ 1 ∷ 1
    ∷ 0 ∷ 0 ∷ 0 ∷ 0 ∷ 0 ∷ 0 ∷ 0 ∷ 3 ∷ 3 ∷ 3 ∷ 0 ∷ 0 ∷ 0 ∷ 0 ∷ 0 ∷ 1 ∷ 0 ∷ 0 ∷ 0 ∷ 0 ∷ 0 ∷ 0 ∷ 0 ∷ 0
    ∷ []

-- The frames as they stand in the blob, and as the machine holds them: the call boundary is at the bottom.
wire_frames :
    (do s ← decode mail_park; some (map FrameForm.kind s.kont))
    ≡ some (FrameKind.ret ∷ FrameKind.block ∷ FrameKind.expr_stmt ∷ [])
unfolding decode
wire_frames = refl

machine_frames :
    (do s ← decode_state mail_park; some (map Frame.kind s.kont))
    ≡ some (FrameKind.expr_stmt ∷ FrameKind.block ∷ FrameKind.ret ∷ [])
unfolding decode_state decode
machine_frames = refl

written_again : (do s ← decode_state mail_park; encode s) ≡ some mail_park
unfolding decode_state decode encode
written_again = refl
