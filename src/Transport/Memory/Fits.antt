-- ===== src/Transport/Memory/Fits.antt =====
-- backend/app/services/agent_transport.py: the messages that may be in a channel.
use ai_planed_map.Prelude.{
  ℕ, zero, suc, ◌≤◌, ◌≡◌, String, true, none, some, List, [], ◌∷◌, ◌++◌, leb, arith, Bool-cases,
  inl, inr, ◌==◌, string_eq, pair_eq, option_eq, ltb, ◌-◌,
}
use ai_planed_map.Prelude.Dict.{Dict, get, put, remove}
use ai_planed_map.Transport.Protocol.{endpoint_eq, Message, Encoding, validate, authorized}
use ai_planed_map.Transport.Memory.{Channel, Claim, Transport, reclaim_all, channel_of}

module _ (enc : Encoding) where
  open enc use {Content, content_digest, key_digest, payload_valid}

  -- A message that may be in the channel.
  pub record Fits (channel : Channel) (m : Message Content) : Type 0 where
    pub allowed : authorized m.header ≡ true
    pub understood : payload_valid m.header m.content ≡ true
    pub genuine : content_digest m.content ≡ m.content_hash
    pub identified : key_digest m.header m.content_hash ≡ m.idempotency_key
    pub attempts : m.attempt ≤ 5
    pub addressed : channel_of enc m ≡ channel

  abbrev pub AllFit : Channel → List (Message Content) → Type 0
  AllFit channel [] = Unit
  AllFit channel (m ∷ ms) = Fits channel m × AllFit channel ms

  abbrev pub ClaimsFit : Channel → Dict String (Claim enc) → Type 0
  ClaimsFit channel [] = Unit
  ClaimsFit channel ((receipt, claim) ∷ d) =
      Fits channel claim.delivery.message × ClaimsFit channel d

  -- All messages that wait in the channel or are claimed.
  pub record Sound (channel : Channel) (s : Transport enc) : Type 0 where
    pub waiting : AllFit channel (s.queues channel)
    pub claimed : ClaimsFit channel (s.pending channel)

  pub validate-Fits :
      (channel : Channel) (wall : ℕ) (m : Message Content)
      → validate enc wall m ≡ none
      → leb m.attempt 5 ≡ true
      → channel_of enc m ≡ channel
      → Fits channel m
  unfolding validate
  validate-Fits channel wall m e schema at = record {
    allowed = ground arith;
    understood = ground arith;
    genuine = ground (arith, string_eq.beq_iff (content_digest m.content) m.content_hash);
    identified =
        ground (arith, string_eq.beq_iff (key_digest m.header m.content_hash) m.idempotency_key);
    attempts = ground arith;
    addressed = at;
  }

  pub AllFit-snoc :
      (channel : Channel) (ms : List (Message Content)) (m : Message Content)
      → AllFit channel ms
      → Fits channel m
      → AllFit channel (ms ++ m ∷ [])
  AllFit-snoc channel [] m all f = (f, tt)
  AllFit-snoc channel (other ∷ ms) m all f = (all.0, AllFit-snoc channel ms m all.1 f)

  pub ClaimsFit-put :
      (channel : Channel) (receipt : String) (claim : Claim enc) (d : Dict String (Claim enc))
      → ClaimsFit channel d
      → Fits channel claim.delivery.message
      → ClaimsFit channel (put receipt claim d)
  ClaimsFit-put channel receipt claim [] all f = (f, tt)
  ClaimsFit-put channel receipt claim ((i, other) ∷ d) all f = elim (Bool-cases (i == receipt)) [
    | inl same ↦ rw same (f, all.1)
    | inr differs ↦ rw differs (all.0, ClaimsFit-put channel receipt claim d all.1 f)
  ]

  pub ClaimsFit-remove :
      (channel : Channel) (receipt : String) (d : Dict String (Claim enc))
      → ClaimsFit channel d
      → ClaimsFit channel (remove receipt d)
  ClaimsFit-remove channel receipt [] all = tt
  ClaimsFit-remove channel receipt ((i, other) ∷ d) all = elim (Bool-cases (i == receipt)) [
    | inl same ↦ rw same (ClaimsFit-remove channel receipt d all.1)
    | inr differs ↦ rw differs (all.0, ClaimsFit-remove channel receipt d all.1)
  ]

  pub ClaimsFit-get :
      (channel : Channel) (receipt : String) (claim : Claim enc) (d : Dict String (Claim enc))
      → ClaimsFit channel d
      → get receipt d ≡ some claim
      → Fits channel claim.delivery.message
  ClaimsFit-get channel receipt claim [] all e = cc
  ClaimsFit-get channel receipt claim ((i, other) ∷ d) all e = elim (Bool-cases (i == receipt)) [
    | inl same ↦ let it : other ≡ claim = ground arith in rw it at all.0
    | inr differs ↦ ClaimsFit-get channel receipt claim d all.1 (rw differs at e)
  ]

  pub ClaimsFit-reclaim_all :
      (channel : Channel) (now : ℕ) (consumer : String) (idle count : ℕ)
      (d : Dict String (Claim enc))
      → ClaimsFit channel d
      → ClaimsFit channel (reclaim_all enc now consumer idle count d).0
  unfolding reclaim_all
  ClaimsFit-reclaim_all channel now consumer idle count [] all = tt
  ClaimsFit-reclaim_all channel now consumer idle zero (item ∷ d) all = all
  ClaimsFit-reclaim_all channel now consumer idle (suc count) ((i, claim) ∷ d) all =
      elim (Bool-cases (ltb (now - claim.claimed_at) idle)) [
        | inl young ↦
            rw young (all.0, ClaimsFit-reclaim_all channel now consumer idle (suc count) d all.1)
        | inr old ↦ rw old (all.0, ClaimsFit-reclaim_all channel now consumer idle count d all.1)
      ]
