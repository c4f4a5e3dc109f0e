-- ===== src/Transport/Memory/Validity.antt =====
-- backend/app/services/agent_transport.py: which messages can be in a channel at all.
use mathlib.Core.Path.{subst}
use ai_planed_map.Prelude.{
  ℕ, ◌+◌, ◌≡◌, refl, String, true, ◌&&◌, some, List, ◌∷◌, leb, max, arith, Bool-cases, List-cases,
  Option-cases, beq_refl, inl, inr, string_eq, pair_eq, option_eq, is_some, length,
}
use ai_planed_map.Prelude.Dict.{get, remove}
use ai_planed_map.Transport.Protocol.{endpoint_eq, Message, Encoding, validate}
use ai_planed_map.Transport.Memory.{
  Channel, Settings, Delivery, Claim, Transport, publish, publish_valid, receive, acknowledge,
  retry_delivery, dispose, reclaim, channel_of, set_pending, claim_of, capacity, unexpired,
}
use ai_planed_map.Transport.Memory.Held.{fail_twice-same}
use ai_planed_map.Transport.Memory.Conservation.{Step, Steps}
use ai_planed_map.Transport.Memory.Fits.{
  Fits, Sound, validate-Fits, AllFit-snoc, ClaimsFit-put, ClaimsFit-remove, ClaimsFit-get,
  ClaimsFit-reclaim_all, AllFit,
}

module _ (enc : Encoding) where
  open enc use {Content}

  publish_valid-Sound :
      (settings : Settings) (now : ℕ) (m : Message Content) (s : Transport enc)
      → (let channel = channel_of enc m in
          Fits enc channel m
          → Sound enc channel s
          → Sound enc channel (publish_valid enc settings now m s).1)
  unfolding publish_valid
  publish_valid-Sound settings now m s f ok =
      let channel = channel_of enc m in
      elim (Bool-cases (is_some (get m.idempotency_key (unexpired now s.published)))) [
        | inl known ↦ rw known (record { waiting = ok.waiting; claimed = ok.claimed })
        | inr fresh ↦ elim (Bool-cases (leb (capacity settings) (length (s.queues channel)))) [
          | inl full ↦ rw (fresh, full) (record { waiting = ok.waiting; claimed = ok.claimed })
          | inr room ↦
              rw (fresh, room)
                (record {
                  waiting =
                      rw (beq_refl channel)
                        (AllFit-snoc enc channel (s.queues channel) m ok.waiting f);
                  claimed = ok.claimed;
                })
        ]
      ]

  publish-Sound :
      (settings : Settings) (wall now : ℕ) (m : Message Content) (s : Transport enc)
      → (let channel = channel_of enc m in
          leb m.attempt 5 ≡ true
          → Sound enc channel s
          → Sound enc channel (publish enc settings wall now m s).1)
  unfolding publish
  publish-Sound settings wall now m s schema ok = elim (Option-cases (validate enc wall m)) [
    | inl valid ↦
        rw (publish, valid)
          (publish_valid-Sound settings now m s
            (validate-Fits enc (channel_of enc m) wall m valid schema refl) ok)
    | inr (e, invalid) ↦ rw (publish, invalid) ok
  ]

  receive-Sound :
      (channel : Channel) (wall now : ℕ) (consumer receipt : String) (s : Transport enc)
      → Sound enc channel s
      → Sound enc channel (receive enc wall now channel consumer receipt s).1
  unfolding receive
  receive-Sound channel wall now consumer receipt s ok = elim (List-cases (s.queues channel)) [
    | inl e ↦ rw (e, receive) ok
    | inr (m, rest, e) ↦
        let all : AllFit enc channel (m ∷ rest) = rw e at ok.waiting in
        elim (Option-cases (validate enc wall m)) [
          | inl valid ↦
              rw (e, receive, valid)
                (record {
                  waiting = rw (beq_refl channel) all.1;
                  claimed = rw (beq_refl channel) (
                      ClaimsFit-put enc channel receipt (claim_of enc now consumer receipt m)
                        (s.pending channel) ok.claimed all.0);
                })
          | inr (wrong, invalid) ↦
              rw (e, receive, invalid)
                (record { waiting = rw (beq_refl channel) all.1; claimed = ok.claimed })
        ]
  ]

  removed-Sound :
      (channel : Channel) (receipt : String) (s : Transport enc)
      → Sound enc channel s
      → Sound enc channel (set_pending enc channel (remove receipt (s.pending channel)) s)
  removed-Sound channel receipt s ok = record {
    waiting = ok.waiting;
    claimed =
        rw (beq_refl channel) (ClaimsFit-remove enc channel receipt (s.pending channel) ok.claimed);
  }

  acknowledge-Sound :
      (delivery : Delivery enc) (s : Transport enc)
      → (let channel = channel_of enc delivery.message in
          Sound enc channel s → Sound enc channel (acknowledge enc delivery s).1)
  unfolding acknowledge
  acknowledge-Sound delivery s ok =
      removed-Sound (channel_of enc delivery.message) delivery.receipt s ok

  dispose-Sound :
      (settings : Settings) (delivery : Delivery enc) (max_attempts : ℕ) (s : Transport enc)
      → (let channel = channel_of enc delivery.message in
          leb max_attempts 5 ≡ true
          → Fits enc channel delivery.message
          → Sound enc channel s
          → Sound enc channel (dispose enc settings delivery max_attempts s).1)
  unfolding dispose
  dispose-Sound settings delivery max_attempts s small f ok =
      let m = delivery.message in
      let channel = channel_of enc m in
      elim (Bool-cases (leb max_attempts (max m.attempt delivery.delivery_count))) [
        | inl over ↦ rw over (record { waiting = ok.waiting; claimed = ok.claimed })
        | inr again ↦ rw again (record {
          waiting = rw (beq_refl channel) (
              AllFit-snoc enc channel (s.queues channel) (record m { attempt = m.attempt + 1 })
                ok.waiting
                (record {
                  allowed = f.allowed;
                  understood = f.understood;
                  genuine = f.genuine;
                  identified = f.identified;
                  attempts = ground arith;
                  addressed = f.addressed;
                }));
          claimed = ok.claimed;
        })
      ]

  retry_delivery-Sound :
      (settings : Settings) (delivery : Delivery enc) (max_attempts : ℕ) (claim : Claim enc)
      (s : Transport enc)
      → (let channel = channel_of enc delivery.message in
          get delivery.receipt (s.pending channel) ≡ some claim
          → claim.delivery.message ≡ delivery.message
          → Sound enc channel s
          → Sound enc channel (retry_delivery enc settings delivery max_attempts s).1)
  unfolding retry_delivery
  retry_delivery-Sound settings delivery max_attempts claim s e same ok =
      let channel = channel_of enc delivery.message in
      elim (Bool-cases (leb 1 max_attempts && leb max_attempts 5)) [
        | inl valid ↦
            rw (valid, e)
              (dispose-Sound settings delivery max_attempts
                (set_pending enc channel (remove delivery.receipt (s.pending channel)) s)
                (ground arith)
                (subst (λ m. Fits enc channel m) same
                  (ClaimsFit-get enc channel delivery.receipt claim (s.pending channel) ok.claimed
                    e))
                (removed-Sound channel delivery.receipt s ok))
        | inr invalid ↦ rw invalid ok
      ]

  reclaim-Sound :
      (channel : Channel) (now : ℕ) (consumer : String) (idle count : ℕ) (s : Transport enc)
      → Sound enc channel s
      → Sound enc channel (reclaim enc now channel consumer idle count s).1
  unfolding reclaim
  reclaim-Sound channel now consumer idle count s ok = record {
    waiting = ok.waiting;
    claimed =
        rw (beq_refl channel) (
          ClaimsFit-reclaim_all enc channel now consumer idle count (s.pending channel) ok.claimed);
  }

  Step-Sound :
      {channel : Channel} {s t : Transport enc} {more done : List String}
      → Step channel s more done t
      → Sound enc channel s
      → Sound enc channel t
  Step-Sound {channel} {s} (Step.send settings wall now m schema at) ok =
      subst (λ c. Sound enc c s → Sound enc c (publish enc settings wall now m s).1) at
        (publish-Sound settings wall now m s schema) ok
  Step-Sound {channel} {s} (Step.take_one wall now consumer receipt fresh) ok =
      receive-Sound channel wall now consumer receipt s ok
  Step-Sound {channel} {s} (Step.finish delivery claim at e) ok =
      subst (λ c. Sound enc c s → Sound enc c (acknowledge enc delivery s).1) at
        (acknowledge-Sound delivery s) ok
  Step-Sound {channel} {s} (Step.finish_twice delivery at e) ok =
      subst (λ c. Sound enc c s → Sound enc c (acknowledge enc delivery s).1) at
        (acknowledge-Sound delivery s) ok
  Step-Sound {channel} {s} (Step.fail settings delivery max_attempts claim at e same) ok =
      subst
        (λ c.
          get delivery.receipt (s.pending c) ≡ some claim
          → Sound enc c s
          → Sound enc c (retry_delivery enc settings delivery max_attempts s).1)
        at (λ e' ok'. retry_delivery-Sound settings delivery max_attempts claim s e' same ok') e ok
  Step-Sound {channel} {s} (Step.fail_twice settings delivery max_attempts at e) ok =
      rw (fail_twice-same settings delivery max_attempts s (rw at e)) ok
  Step-Sound {channel} {s} (Step.reclaim_some now consumer idle count) ok =
      reclaim-Sound channel now consumer idle count s ok

  -- Whatever happens in a channel for whose messages this holds at first, for instance an empty one:
  -- every message that waits there or is claimed has passed the protocol: its route is one of the
  -- table, its content is understood and has its hash and its key, it is addressed to the channel,
  -- and no retry takes it past five attempts.
  pub messages_authorized :
      {channel : Channel} {s t : Transport enc} {brought settled : List String}
      → Steps channel s brought settled t
      → Sound enc channel s
      → Sound enc channel t
  messages_authorized Steps.here ok = ok
  messages_authorized (Steps.next k step) ok = Step-Sound step (messages_authorized k ok)
