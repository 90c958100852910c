-- ===== src/Cfr/Match.antt =====
-- internal/cfr/match.go: which message of a channel a receiver takes. JSON decoding and the update of the
-- message's row are parameters.
pub mod Oldest
use regel.Base.{
  ℕ, Bool, true, false, not, ◌==◌, Option, none, some, List, [], ◌∷◌, ◌>>=◌, if◌then◌else◌, Str,
  str_eq, is_empty,
}
use regel.Base.Int.{int_text}
use regel.Cek.Value.{Value, Heap, record_at, record_get, f64_eq}
use regel.Cfr.Wire.{Bytes}
use regel.Cfr.Decode.{decode_value}
use regel.Cfr.Load.{load_table, load_cell}

-- What `scalarOf` gives: a Go string, float64 or bool.
pub data Scalar : Type 0 where
  text : Str → Scalar
  number : ℕ → Scalar
  flag : Bool → Scalar

-- What json.Unmarshal gives for an `any`; null, arrays and objects are `compound`.
pub data Json : Type 0 where
  scalar : Scalar → Json
  compound : Json

-- `type matchShape struct`
pub record MatchShape : Type 0 where
  pub path : Str
  pub equals : Str

-- A row of channel_message; the payload is `none` when it is not hexadecimal.
pub record Message : Type 0 where
  pub id : Str
  pub payload : Option Bytes

-- `scalarOf`
unfoldable pub scalar_of : Value → Option Scalar
unfolding int_text
scalar_of (Value.str s) = some (text s)
scalar_of (Value.f64 w) = some (number w)
scalar_of (Value.bool n) = some (flag (not (n == 0)))
scalar_of (Value.bigint z) = some (text (int_text z))
scalar_of _ = none

-- `scalarEqual`
unfoldable pub scalar_equal : Scalar → Json → Bool
unfolding str_eq f64_eq
scalar_equal (text s) (scalar (text t)) = str_eq s t
scalar_equal (number v) (scalar (number w)) = f64_eq v w
scalar_equal (flag true) (scalar (flag b)) = b
scalar_equal (flag false) (scalar (flag b)) = not b
scalar_equal _ _ = false

abbrev pub in_front : ℕ → List Str → List Str
in_front c [] = (c ∷ []) ∷ []
in_front c (s ∷ ss) = (c ∷ s) ∷ ss

-- strings.Split at the dot, which is 46.
unfoldable pub split_dots : Str → List Str
split_dots [] = [] ∷ []
split_dots (c ∷ cs) = let rest = split_dots cs in if c == 46 then [] ∷ rest else in_front c rest

-- `func (v Value) Field`
unfoldable pub field : Heap → Value → Str → Option Value
unfolding record_at record_get
field h (Value.rec a) k = do r ← record_at h a; record_get r k
field h _ k = none

-- The loop of `navigatePath`
unfoldable pub navigate_path : Heap → Value → List Str → Option Value
unfolding field
navigate_path h v [] = some v
navigate_path h v (k ∷ ks) = do w ← field h v k; navigate_path h w ks

-- `DecodeValue`, with the memory that it builds.
unfoldable pub decode_payload : Bytes → Option (Heap × Value)
unfolding decode_value load_table load_cell
decode_payload bs = do (t, c) ← decode_value bs; some (load_cell (load_table t) c)

abbrev pub is_yes : Option Bool → Bool
is_yes none = false
is_yes (some b) = b

-- What `claimOldestMatchingMessage` returns.
pub data Claim : Type 0 where
  claimed : Str → Claim
  nothing fault : Claim

module _ (unmarshal : Str → Option Json) where
  -- `messageMatches`
  unfoldable pub message_matches : Heap → Value → MatchShape → Bool
  unfolding is_empty navigate_path split_dots scalar_of scalar_equal
  message_matches h v m =
      if is_empty m.path
      then true
      else is_yes (do
        f ← navigate_path h v (split_dots m.path)
        got ← scalar_of f
        want ← unmarshal m.equals
        some (scalar_equal got want))

  -- The test of the loop: `none` is an error of the payload.
  unfoldable pub accepts : MatchShape → Message → Option Bool
  unfolding is_empty decode_payload message_matches
  accepts m x =
      if is_empty m.path
      then some true
      else (do bs ← x.payload; (h, v) ← decode_payload bs; some (message_matches h v m))

  -- The update of one row: `none` is an error, false that another receiver has it.
  module _ (won : Str → Option Bool) where
    abbrev pub settle_claim : Option Bool → Str → Claim → Claim
    settle_claim none i later = Claim.fault
    settle_claim (some true) i later = Claim.claimed i
    settle_claim (some false) i later = later

    abbrev pub take_or_pass : Option Bool → Str → Claim → Claim
    take_or_pass none i later = Claim.fault
    take_or_pass (some true) i later = settle_claim (won i) i later
    take_or_pass (some false) i later = later

    -- `claimOldestMatchingMessage`, over the rows in the order of sent_at.
    unfoldable pub claim_oldest : MatchShape → List Message → Claim
    unfolding accepts
    claim_oldest m [] = Claim.nothing
    claim_oldest m (x ∷ xs) = take_or_pass (accepts m x) x.id (claim_oldest m xs)
