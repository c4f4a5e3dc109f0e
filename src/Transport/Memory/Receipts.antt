-- ===== src/Transport/Memory/Receipts.antt =====
-- backend/app/services/agent_transport.py: the receipts of the claims of a channel stay distinct.
use ai_planed_map.Prelude.{
  ℕ, zero, suc, ◌≡◌, refl, String, none, [], ◌∷◌, arith, Bool-cases, List-cases, Option-cases,
  beq_refl, is_some, length, inl, inr, ◌==◌, ◌&&◌, string_eq, pair_eq, option_eq, leb, max,
}
use ai_planed_map.Prelude.Dict.{Dict, get, remove, IsDistinct, remove-IsDistinct, put-IsDistinct}
use ai_planed_map.Transport.Protocol.{endpoint_eq, Message, Encoding, validate}
use ai_planed_map.Transport.Memory.{
  Channel, Settings, Delivery, Claim, Transport, publish, publish_valid, receive, acknowledge,
  retry_delivery, dispose, reclaim, reclaim_all, channel_of, set_pending, claim_of, capacity,
  unexpired,
}

module _ {enc : Encoding} where
  open enc use {Content}

  set_pending-IsDistinct :
      (channel other : Channel) (d : Dict String (Claim enc)) (s : Transport enc)
      → (IsDistinct (s.pending channel) → IsDistinct d)
      → IsDistinct (s.pending other)
      → IsDistinct ((set_pending enc channel d s).pending other)
  set_pending-IsDistinct channel other d s f u = elim (Bool-cases (channel == other)) [
    | inl same ↦ rw same (f (rw ((pair_eq.beq_iff channel other).0 same) u))
    | inr differs ↦ rw differs u
  ]

  get-reclaim_all :
      (now : ℕ) (consumer : String) (idle count : ℕ) (receipt : String)
      (d : Dict String (Claim enc))
      → get receipt d ≡ none
      → get receipt (reclaim_all enc now consumer idle count d).0 ≡ none
  unfolding reclaim_all
  get-reclaim_all now consumer idle count receipt [] e = refl
  get-reclaim_all now consumer idle zero receipt (item ∷ d) e = e
  get-reclaim_all now consumer idle (suc count) receipt ((i, claim) ∷ d) e = ground (
    arith,
    get-reclaim_all now consumer idle (suc count) receipt d,
    get-reclaim_all now consumer idle count receipt d,
  )

  reclaim_all-IsDistinct :
      (now : ℕ) (consumer : String) (idle count : ℕ) (d : Dict String (Claim enc))
      → IsDistinct d
      → IsDistinct (reclaim_all enc now consumer idle count d).0
  unfolding reclaim_all
  reclaim_all-IsDistinct now consumer idle count [] u = u
  reclaim_all-IsDistinct now consumer idle zero (item ∷ d) u = u
  reclaim_all-IsDistinct now consumer idle (suc count) ((i, claim) ∷ d) u = ground (
    arith,
    get-reclaim_all now consumer idle (suc count) i d u.0,
    get-reclaim_all now consumer idle count i d u.0,
    reclaim_all-IsDistinct now consumer idle (suc count) d u.1,
    reclaim_all-IsDistinct now consumer idle count d u.1,
  )

  publish_valid-pending :
      (settings : Settings) (now : ℕ) (message : Message Content) (s : Transport enc)
      → (publish_valid enc settings now message s).1.pending ≡ s.pending
  unfolding publish_valid
  publish_valid-pending settings now message s =
      elim (Bool-cases (is_some (get message.idempotency_key (unexpired now s.published)))) [
        | inl known ↦ rw known refl
        | inr fresh ↦
            elim (Bool-cases
              (leb (capacity settings) (length (s.queues (channel_of enc message))))) [
                | inl full ↦ rw (fresh, full) refl
                | inr room ↦ rw (fresh, room) refl
              ]
      ]

  pub publish-pending :
      (settings : Settings) (wall now : ℕ) (message : Message Content) (s : Transport enc)
      → (publish enc settings wall now message s).1.pending ≡ s.pending
  unfolding publish
  publish-pending settings wall now message s = elim (Option-cases (validate enc wall message)) [
    | inl valid ↦ rw (publish, valid) (publish_valid-pending settings now message s)
    | inr (e, invalid) ↦ rw (publish, invalid) refl
  ]

  pub receive-IsDistinct :
      (wall now : ℕ) (channel : Channel) (consumer receipt : String) (s : Transport enc)
      → IsDistinct (s.pending channel)
      → IsDistinct ((receive enc wall now channel consumer receipt s).1.pending channel)
  unfolding receive
  receive-IsDistinct wall now channel consumer receipt s u = elim (List-cases (s.queues channel)) [
    | inl e ↦ rw (e, receive) u
    | inr (message, rest, e) ↦ elim (Option-cases (validate enc wall message)) [
      | inl valid ↦
          rw (e, receive, valid, beq_refl channel)
            (put-IsDistinct receipt (claim_of enc now consumer receipt message) (s.pending channel)
              u)
      | inr (wrong, invalid) ↦ rw (e, receive, invalid) u
    ]
  ]

  pub acknowledge-IsDistinct :
      (delivery : Delivery enc) (s : Transport enc) (channel : Channel)
      → IsDistinct (s.pending channel)
      → IsDistinct ((acknowledge enc delivery s).1.pending channel)
  unfolding acknowledge
  acknowledge-IsDistinct delivery s channel u =
      let own = channel_of enc delivery.message in
      set_pending-IsDistinct own channel (remove delivery.receipt (s.pending own)) s
        (remove-IsDistinct delivery.receipt (s.pending own)) u

  dispose-pending :
      (settings : Settings) (delivery : Delivery enc) (max_attempts : ℕ) (s : Transport enc)
      → (dispose enc settings delivery max_attempts s).1.pending ≡ s.pending
  unfolding dispose
  dispose-pending settings delivery max_attempts s =
      elim (Bool-cases (leb max_attempts (max delivery.message.attempt delivery.delivery_count))) [
        | inl over ↦ rw over refl
        | inr again ↦ rw again refl
      ]

  pub retry_delivery-IsDistinct :
      (settings : Settings) (delivery : Delivery enc) (max_attempts : ℕ) (s : Transport enc)
      (channel : Channel)
      → IsDistinct (s.pending channel)
      → IsDistinct ((retry_delivery enc settings delivery max_attempts s).1.pending channel)
  unfolding retry_delivery
  retry_delivery-IsDistinct settings delivery max_attempts s channel u =
      let own = channel_of enc delivery.message in
      elim (Bool-cases (leb 1 max_attempts && leb max_attempts 5)) [
        | inl valid ↦ elim (Option-cases (get delivery.receipt (s.pending own))) [
          | inl e ↦ rw (valid, e) u
          | inr (claim, e) ↦
              rw
                (
                  valid,
                  e,
                  dispose-pending settings delivery max_attempts
                      (set_pending enc own (remove delivery.receipt (s.pending own)) s),
                )
                (set_pending-IsDistinct own channel (remove delivery.receipt (s.pending own)) s
                  (remove-IsDistinct delivery.receipt (s.pending own)) u)
        ]
        | inr invalid ↦ rw invalid u
      ]

  pub reclaim-IsDistinct :
      (now : ℕ) (channel : Channel) (consumer : String) (idle count : ℕ) (s : Transport enc)
      → IsDistinct (s.pending channel)
      → IsDistinct ((reclaim enc now channel consumer idle count s).1.pending channel)
  unfolding reclaim
  reclaim-IsDistinct now channel consumer idle count s u =
      rw (beq_refl channel) (reclaim_all-IsDistinct now consumer idle count (s.pending channel) u)
