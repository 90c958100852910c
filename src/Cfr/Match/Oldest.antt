-- ===== src/Cfr/Match/Oldest.antt =====
-- `claimOldestMatchingMessage` of internal/cfr/match.go takes the oldest message that it may take.
use regel.Base.{
  ◌≡◌, refl, ap, ◌⊎◌, inl, inr, Bool, true, false, Option, none, some, List, [], ◌∷◌, ◌++◌, Str,
}
use regel.Cfr.Match.{
  Json, MatchShape, Message, Claim, accepts, settle_claim, take_or_pass, claim_oldest,
}
use regel.Cfr.Codec.Fits.{All}

module _ (unmarshal : Str → Option Json) (won : Str → Option Bool) (m : MatchShape) where
  -- A message that does not match, or that another receiver has claimed.
  abbrev pub Passed : Message → Type 0
  Passed x =
      (accepts unmarshal m x ≡ some false)
      ⊎ ((accepts unmarshal m x ≡ some true) × (won x.id ≡ some false))

  -- The messages that were passed over, and the one at which the loop ends.
  pub record Stopped (P : Message → Type 0) (xs : List Message) : Type 0 where
    pub before : List Message
    pub at_message : Message
    pub after : List Message
    pub parts : xs ≡ before ++ at_message ∷ after
    pub passed : All Passed before
    pub stops : P at_message

  abbrev pub Taken : Str → Message → Type 0
  Taken i x = (accepts unmarshal m x ≡ some true) × ((won x.id ≡ some true) × (x.id ≡ i))

  abbrev pub Failed : Message → Type 0
  Failed x =
      (accepts unmarshal m x ≡ none) ⊎ ((accepts unmarshal m x ≡ some true) × (won x.id ≡ none))

  abbrev pub ClaimOk : List Message → Claim → Type 0
  ClaimOk xs (Claim.claimed i) = Stopped (Taken i) xs
  ClaimOk xs Claim.nothing = All Passed xs
  ClaimOk xs Claim.fault = Stopped Failed xs

  at_once : {P : Message → Type 0} (x : Message) (xs : List Message) → P x → Stopped P (x ∷ xs)
  at_once x xs p = record {
    before = [];
    at_message = x;
    after = xs;
    parts = refl;
    passed = tt;
    stops = p;
  }

  after_one :
      {P : Message → Type 0} (x : Message) (xs : List Message)
      → Passed x
      → Stopped P xs
      → Stopped P (x ∷ xs)
  after_one x xs p k = record {
    before = x ∷ k.before;
    at_message = k.at_message;
    after = k.after;
    parts = ap (λ l. x ∷ l) k.parts;
    passed = (p, k.passed);
    stops = k.stops;
  }

  pass_over :
      (x : Message) (xs : List Message) (c : Claim) → Passed x → ClaimOk xs c → ClaimOk (x ∷ xs) c
  pass_over x xs (Claim.claimed i) p k = after_one x xs p k
  pass_over x xs Claim.nothing p k = (p, k)
  pass_over x xs Claim.fault p k = after_one x xs p k

  settled :
      (x : Message) (xs : List Message) (c : Claim)
      → accepts unmarshal m x ≡ some true
      → ClaimOk xs c
      → (w : Option Bool) → won x.id ≡ w
      → ClaimOk (x ∷ xs) (settle_claim unmarshal won w x.id c)
  settled x xs c a k none e = at_once x xs (inr (a, e))
  settled x xs c a k (some true) e = at_once x xs (a, (e, refl))
  settled x xs c a k (some false) e = pass_over x xs c (inr (a, e)) k

  taken :
      (x : Message) (xs : List Message) (c : Claim)
      → ClaimOk xs c
      → (a : Option Bool) → accepts unmarshal m x ≡ a
      → ClaimOk (x ∷ xs) (take_or_pass unmarshal won a x.id c)
  taken x xs c k none e = at_once x xs (inl e)
  taken x xs c k (some true) e = settled x xs c e k (won x.id) refl
  taken x xs c k (some false) e = pass_over x xs c (inl e) k

  -- A claim takes the first message, in the order of sending, that matches and that no one else has
  -- claimed; without a claim every message was passed over; an error stops at the message that has it.
  pub claim_oldest-ClaimOk : (xs : List Message) → ClaimOk xs (claim_oldest unmarshal won m xs)
  unfolding claim_oldest
  claim_oldest-ClaimOk [] = tt
  claim_oldest-ClaimOk (x ∷ xs) =
      taken x xs (claim_oldest unmarshal won m xs) (claim_oldest-ClaimOk xs) (accepts unmarshal m x)
        refl
