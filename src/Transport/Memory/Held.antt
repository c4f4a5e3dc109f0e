-- ===== src/Transport/Memory/Held.antt =====
-- backend/app/services/agent_transport.py: what each operation does with the messages that wait in a
-- channel or are claimed.
use mathlib.Core.List.Perm
use mathlib.Core.List.{Perm, perm_middle, perm_append_singleton, append_assoc}
use ai_planed_map.Prelude.{
  beq_refl, List-cases, ℕ, zero, suc, ◌≡◌, refl, ap, String, ◌&&◌, none, some, List, [], ◌∷◌, ◌++◌,
  leb, max, arith, Bool-cases, Option-cases, is_some, length, pair_eq, option_eq, inl, inr, ◌==◌,
  string_eq,
}
use ai_planed_map.Prelude.Dict.{Dict, get, put, remove, IsDistinct, remove_absent}
use ai_planed_map.Transport.Protocol.{Message, Encoding, validate}
use ai_planed_map.Transport.Memory.{
  Channel, Settings, Delivery, Claim, Transport, Published, Received, refused, Retried, publish,
  publish_valid, receive, acknowledge, retry_delivery, dispose, reclaim, reclaim_all, capacity,
  unexpired, channel_of, claim_of, set_pending,
}

-- The key that a publication brings in, and the one that a retry gives up.
abbrev pub brought_by : Published → String → List String
brought_by Published.published key = key ∷ []
brought_by _ key = []

abbrev pub given_up_by : Retried → String → List String
given_up_by Retried.dlq key = key ∷ []
given_up_by _ key = []

module _ {Content : Type 0} where
  abbrev pub keys : List (Message Content) → List String
  keys [] = []
  keys (message ∷ messages) = message.idempotency_key ∷ keys messages

  keys-append : (xs ys : List (Message Content)) → keys (xs ++ ys) ≡ keys xs ++ keys ys
  keys-append [] ys = refl
  keys-append (x ∷ xs) ys = ap (λ zs. x.idempotency_key ∷ zs) (keys-append xs ys)

module _ {enc : Encoding} where
  open enc use {Content}

  abbrev pub claim_key : Claim enc → String
  claim_key claim = claim.delivery.message.idempotency_key

  abbrev pub claim_keys : Dict String (Claim enc) → List String
  claim_keys [] = []
  claim_keys ((receipt, claim) ∷ claims) = claim_key claim ∷ claim_keys claims

  claim_keys-put_absent :
      (receipt : String) (claim : Claim enc) (d : Dict String (Claim enc))
      → get receipt d ≡ none
      → claim_keys (put receipt claim d) ≡ claim_keys d ++ claim_key claim ∷ []
  claim_keys-put_absent receipt claim [] h = refl
  claim_keys-put_absent receipt claim ((i, other) ∷ d) h =
      ground (arith, claim_keys-put_absent receipt claim d)

  claim_keys-remove :
      (receipt : String) (claim : Claim enc) (d : Dict String (Claim enc))
      → IsDistinct d
      → get receipt d ≡ some claim
      → Perm (claim_key claim ∷ claim_keys (remove receipt d)) (claim_keys d)
  claim_keys-remove receipt claim [] u h = cc
  claim_keys-remove receipt claim ((i, other) ∷ d) u h = elim (Bool-cases (i == receipt)) [
    | inl same ↦
        let absent : get receipt d ≡ none = ground (arith, string_eq.beq_iff i receipt, u.0) in
        let eq : other ≡ claim = ground arith in
        rw (same, remove_absent receipt d absent, eq) (Perm.refl (claim_key claim ∷ claim_keys d))
    | inr differs ↦ rw differs (
        Perm.trans (Perm.swap (claim_key other) (claim_key claim) (claim_keys (remove receipt d)))
          (Perm.cons (claim_key other) (claim_keys-remove receipt claim d u.1 (ground arith))))
  ]

  claim_keys-reclaim_all :
      (now : ℕ) (consumer : String) (idle count : ℕ) (d : Dict String (Claim enc))
      → claim_keys (reclaim_all enc now consumer idle count d).0 ≡ claim_keys d
  unfolding reclaim_all
  claim_keys-reclaim_all now consumer idle count [] = refl
  claim_keys-reclaim_all now consumer idle zero (item ∷ d) = refl
  claim_keys-reclaim_all now consumer idle (suc count) ((receipt, claim) ∷ d) = ground (
    arith,
    claim_keys-reclaim_all now consumer idle (suc count) d,
    claim_keys-reclaim_all now consumer idle count d,
  )

  -- The keys of the messages that wait in a channel and of those that are claimed.
  abbrev pub held : Channel → Transport enc → List String
  held channel s = keys (s.queues channel) ++ claim_keys (s.pending channel)

  -- The key of a message that a reception drops.
  abbrev pub dropped_by : Received enc → List (Message Content) → List String
  dropped_by (refused e) (message ∷ rest) = message.idempotency_key ∷ []
  dropped_by _ messages = []

  pub publish_valid-held :
      (settings : Settings) (now : ℕ) (message : Message Content) (s : Transport enc)
      → (let r = publish_valid enc settings now message s in
          let channel = channel_of enc message in
          Perm (held channel r.1) (brought_by r.0 message.idempotency_key ++ held channel s))
  unfolding publish_valid
  publish_valid-held settings now message s =
      let channel = channel_of enc message in
      let key = message.idempotency_key in
      elim (Bool-cases (is_some (get key (unexpired now s.published)))) [
        | inl known ↦ rw known (Perm.refl (held channel s))
        | inr fresh ↦ elim (Bool-cases (leb (capacity settings) (length (s.queues channel)))) [
          | inl full ↦ rw (fresh, full) (Perm.refl (held channel s))
          | inr room ↦
              rw (fresh, room, beq_refl channel, keys-append, append_assoc)
                (perm_middle (keys (s.queues channel)) (claim_keys (s.pending channel)))
        ]
      ]

  pub publish-held :
      (settings : Settings) (wall now : ℕ) (message : Message Content) (s : Transport enc)
      → (let r = publish enc settings wall now message s in
          let channel = channel_of enc message in
          Perm (held channel r.1) (brought_by r.0 message.idempotency_key ++ held channel s))
  unfolding publish
  publish-held settings wall now message s = elim (Option-cases (validate enc wall message)) [
    | inl valid ↦ rw (publish, valid) (publish_valid-held settings now message s)
    | inr (e, invalid) ↦ rw (publish, invalid) (Perm.refl (held (channel_of enc message) s))
  ]

  pub receive-held :
      (wall now : ℕ) (channel : Channel) (consumer receipt : String) (s : Transport enc)
      → get receipt (s.pending channel) ≡ none
      → (let r = receive enc wall now channel consumer receipt s in
          Perm (dropped_by r.0 (s.queues channel) ++ held channel r.1) (held channel s))
  unfolding receive
  receive-held wall now channel consumer receipt s fresh = elim (List-cases (s.queues channel)) [
    | inl e ↦ rw (e, receive) (rw e (Perm.refl (claim_keys (s.pending channel))))
    | inr (message, rest, e) ↦ elim (Option-cases (validate enc wall message)) [
      | inl valid ↦
          rw
            (
              e,
              receive,
              valid,
              beq_refl channel,
              claim_keys-put_absent receipt (claim_of enc now consumer receipt message)
                  (s.pending channel) fresh,
            )
            (rw (← append_assoc) (
              perm_append_singleton message.idempotency_key
                (keys rest ++ claim_keys (s.pending channel))))
      | inr (wrong, invalid) ↦ rw (e, receive, invalid, beq_refl channel) (Perm.refl _)
    ]
  ]

  pub removed-held :
      (receipt : String) (claim : Claim enc) (waiting : List String) (d : Dict String (Claim enc))
      → IsDistinct d
      → get receipt d ≡ some claim
      → Perm
          (claim_key claim ∷ (waiting ++ claim_keys (remove receipt d)))
          (waiting ++ claim_keys d)
  removed-held receipt claim waiting d u e =
      Perm.trans (Perm.symm (perm_middle waiting (claim_keys (remove receipt d))))
        (Perm.append_left waiting (claim_keys-remove receipt claim d u e))

  pub acknowledge-held :
      (delivery : Delivery enc) (claim : Claim enc) (s : Transport enc)
      → (let channel = channel_of enc delivery.message in
          IsDistinct (s.pending channel)
          → get delivery.receipt (s.pending channel) ≡ some claim
          → Perm (claim_key claim ∷ held channel (acknowledge enc delivery s).1) (held channel s))
  unfolding acknowledge
  acknowledge-held delivery claim s u e =
      let channel = channel_of enc delivery.message in
      rw (beq_refl channel)
        (removed-held delivery.receipt claim (keys (s.queues channel)) (s.pending channel) u e)

  pub dispose-held :
      (settings : Settings) (delivery : Delivery enc) (max_attempts : ℕ) (s : Transport enc)
      → (let channel = channel_of enc delivery.message in
          let key = delivery.message.idempotency_key in
          let r = dispose enc settings delivery max_attempts s in
          Perm (given_up_by r.0 key ++ held channel r.1) (key ∷ held channel s))
  unfolding dispose
  dispose-held settings delivery max_attempts s =
      let channel = channel_of enc delivery.message in
      let message = delivery.message in
      elim (Bool-cases (leb max_attempts (max message.attempt delivery.delivery_count))) [
        | inl over ↦ rw over (Perm.refl (message.idempotency_key ∷ held channel s))
        | inr again ↦
            rw (again, beq_refl channel, keys-append, append_assoc)
              (perm_middle (keys (s.queues channel)) (claim_keys (s.pending channel)))
      ]

  pub retry_delivery-held :
      (settings : Settings) (delivery : Delivery enc) (max_attempts : ℕ) (claim : Claim enc)
      (s : Transport enc)
      → (let channel = channel_of enc delivery.message in
          let key = delivery.message.idempotency_key in
          let r = retry_delivery enc settings delivery max_attempts s in
          IsDistinct (s.pending channel)
          → get delivery.receipt (s.pending channel) ≡ some claim
          → claim_key claim ≡ key
          → Perm (given_up_by r.0 key ++ held channel r.1) (held channel s))
  unfolding retry_delivery
  retry_delivery-held settings delivery max_attempts claim s u e same =
      let channel = channel_of enc delivery.message in
      elim (Bool-cases (leb 1 max_attempts && leb max_attempts 5)) [
        | inl valid ↦
            rw (valid, e)
              (Perm.trans
                (dispose-held settings delivery max_attempts
                  (set_pending enc channel (remove delivery.receipt (s.pending channel)) s))
                (rw (← same, beq_refl channel)
                  (removed-held delivery.receipt claim (keys (s.queues channel)) (s.pending channel)
                    u e)))
        | inr invalid ↦ rw invalid (Perm.refl (held channel s))
      ]

  pub reclaim-held :
      (now : ℕ) (channel : Channel) (consumer : String) (idle count : ℕ) (s : Transport enc)
      → held channel (reclaim enc now channel consumer idle count s).1 ≡ held channel s
  unfolding reclaim
  reclaim-held now channel consumer idle count s =
      rw (beq_refl channel, claim_keys-reclaim_all now consumer idle count (s.pending channel)) refl

  pub finish_twice-held :
      (delivery : Delivery enc) (s : Transport enc)
      → (let channel = channel_of enc delivery.message in
          get delivery.receipt (s.pending channel) ≡ none
          → Perm (held channel (acknowledge enc delivery s).1) (held channel s))
  unfolding acknowledge
  finish_twice-held delivery s e =
      let channel = channel_of enc delivery.message in
      rw (beq_refl channel, remove_absent delivery.receipt (s.pending channel) e)
        (Perm.refl (held channel s))

  pub fail_twice-same :
      (settings : Settings) (delivery : Delivery enc) (max_attempts : ℕ) (s : Transport enc)
      → get delivery.receipt (s.pending (channel_of enc delivery.message)) ≡ none
      → (retry_delivery enc settings delivery max_attempts s).1 ≡ s
  unfolding retry_delivery
  fail_twice-same settings delivery max_attempts s e =
      elim (Bool-cases (leb 1 max_attempts && leb max_attempts 5)) [
        | inl valid ↦ rw (valid, e) refl
        | inr invalid ↦ rw invalid refl
      ]
