-- ===== src/Examples/Messages.antt =====
-- Messages of a channel at which the law of internal/cfr/match.go is used.
use regel.Base.{◌≡◌, refl, Bool, true, Option, some, List, [], ◌∷◌, Str, codes}
use regel.Cfr.Form.{Cell, record_shell}
use regel.Cfr.Encode.{write_value}
use regel.Cfr.Match.{Json, scalar, text, MatchShape, Message, Claim, claim_oldest}
use regel.Cfr.Match.Oldest.{ClaimOk, claim_oldest-ClaimOk}

abbrev quoted : Str → Option Json
quoted s = some (scalar (text s))

abbrev free : Str → Option Bool
free i = some true

abbrev about_b : MatchShape
about_b = record { path = codes "kind"; equals = codes "b" }

abbrev message : Str → Str → Message
message i k = record {
  id = i;
  payload = some (write_value (record_shell ((codes "kind", Cell.str k) ∷ []) ∷ []) (Cell.rec 1));
}

abbrev sent : List Message
sent =
    message (codes "1") (codes "a")
    ∷ message (codes "2") (codes "b")
    ∷ message (codes "3") (codes "b")
    ∷ []

claim_oldest-ClaimOk_example :
    ClaimOk quoted free about_b sent (claim_oldest quoted free about_b sent)
claim_oldest-ClaimOk_example = claim_oldest-ClaimOk quoted free about_b sent

second_claimed : claim_oldest quoted free about_b sent ≡ Claim.claimed (codes "2")
unfolding claim_oldest write_value
second_claimed = refl
