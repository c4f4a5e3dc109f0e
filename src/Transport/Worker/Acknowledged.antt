-- ===== src/Transport/Worker/Acknowledged.antt =====
-- What has been done where a worker acknowledges a message.
use ai_planed_map.Prelude.{
  ap, is_some, if◌then◌else◌, ◌≤◌, ◌≡◌, ◌≢◌, refl, ◌⊎◌, inl, inr, true, false, none, List, [], ◌∷◌,
  max, ltb, arith, Bool-cases, Option-cases, List-cases, beq_refl, pair_eq, option_eq, string_eq,
}
use ai_planed_map.Prelude.Dict.{get, get-remove}
use ai_planed_map.Transport.Protocol.{endpoint_eq, Message, Encoding, ProtocolError, validate}
use ai_planed_map.Transport.Memory.{
  publish, Published, Settings, Delivery, Transport, Received, nothing, refused, delivered, Retried,
  channel_of, receive, acknowledge, retry_delivery, reclaim,
}
use ai_planed_map.Transport.Worker.{
  Answer, disposition, Handled, fails, outputs, Worker, Moment, misdirected, bus_publish,
  publish_all, give_back, settle, process, take_next, run_once,
}

disposition-open : (r : Retried) → disposition r ≢ Answer.acked
disposition-open Retried.retry e = cc
disposition-open Retried.dlq e = cc
disposition-open Retried.invalid_attempts e = cc
disposition-open Retried.not_pending e = cc

module _ (enc : Encoding) (settings : Settings) (worker : Worker enc) (moment : Moment enc) where
  open enc use {Content}

  -- An answer that may be sent for a request.
  abbrev pub Sendable : Message Content → Message Content → Type 0
  Sendable request message =
      (misdirected enc request message ≡ false)
      × (validate enc moment.publishes_wall message ≡ none)

  -- The answers to a request, each sent from the state that the one before left: the transport takes
  -- it, or knows it already.
  pub data Sent (request : Message Content)
      : Transport enc → List (Message Content) → Transport enc → Type 0 where
    all_sent : {s : Transport enc} → Sent request s [] s
    send :
        {s t u : Transport enc} {messages : List (Message Content)} (message : Message Content)
        (answer : Published)
        → Sendable request message
        → (answer ≡ Published.published) ⊎ (answer ≡ Published.duplicate)
        → publish enc settings moment.publishes_wall moment.publishes_at message s ≡ (answer, t)
        → Sent request t messages u
        → Sent request s (message ∷ messages) u

  -- The delivery that a call takes, and the transport afterwards: the first one recovered, or else
  -- the one received, which is checked again.
  abbrev pub Taken : Transport enc → Delivery enc → Transport enc → Type 0
  Taken s delivery t =
      let back =
        reclaim enc moment.reclaims_at (worker.endpoint, none) worker.consumer
          (max 1000 worker.reclaim_idle_ms) 1 s in
      ((more : List (Delivery enc)) × (back ≡ (delivery ∷ more, t)))
      ⊎ ((back.0 ≡ [])
          × (receive enc moment.receives_wall moment.receives_at (worker.endpoint, none)
                worker.consumer moment.receipt back.1
              ≡ (delivered delivery, t))
          × (validate enc moment.checks_wall delivery.message ≡ none))

  -- The handling of a delivery that an acknowledgement stands for.
  pub record Settled (delivery : Delivery enc) (s t : Transport enc) : Type 0 where
    pub messages : List (Message Content)
    pub handling : worker.handler delivery.message ≡ outputs messages
    pub answered : Transport enc
    pub sent : Sent delivery.message s messages answered
    pub claimed :
        is_some (get delivery.receipt (answered.pending (channel_of enc delivery.message))) ≡ true
    pub finished : t ≡ (acknowledge enc delivery answered).1
    pub gone : get delivery.receipt (t.pending (channel_of enc delivery.message)) ≡ none

  pub record Done (s t : Transport enc) : Type 0 where
    pub delivery : Delivery enc
    pub begun : Transport enc
    pub taken : Taken s delivery begun
    pub few : delivery.delivery_count ≤ worker.max_attempts
    pub settled : Settled delivery (moment.meanwhile begun) t

  bus_publish-sent :
      (m : Message Content) (s : Transport enc)
      → (bus_publish enc settings moment m s).0 ≡ true
      → (validate enc moment.publishes_wall m ≡ none)
        × (answer : Published) × ((answer ≡ Published.published) ⊎ (answer ≡ Published.duplicate))
        × (publish enc settings moment.publishes_wall moment.publishes_at m s
            ≡ (answer, (bus_publish enc settings moment m s).1))
  unfolding bus_publish
  bus_publish-sent m s e =
      let r = publish enc settings moment.publishes_wall moment.publishes_at m s in
      elim (Option-cases (validate enc moment.publishes_wall m)) [
        | inr (wrong, invalid) ↦ absurd (ground (arith, rw (bus_publish, invalid) at e))
        | inl valid ↦ elim (published_cases r.0) [
          | inl known ↦ (valid, Published.published, inl refl, rw (bus_publish, valid, known) refl)
          | inr (inl known) ↦
              (valid, Published.duplicate, inr refl, rw (bus_publish, valid, known) refl)
          | inr (inr (inl full)) ↦ absurd (ground (arith, rw (bus_publish, valid, full) at e))
          | inr (inr (inr (wrong, bad))) ↦
              absurd (ground (arith, rw (bus_publish, valid, bad) at e))
        ]
      ]
    where
      published_cases :
          (r : Published)
          → (r ≡ Published.published)
            ⊎ (r ≡ Published.duplicate)
            ⊎ (r ≡ Published.capacity_exceeded)
            ⊎ ((e : ProtocolError) × (r ≡ Published.rejected e))
      published_cases Published.published = inl refl
      published_cases Published.duplicate = inr (inl refl)
      published_cases Published.capacity_exceeded = inr (inr (inl refl))
      published_cases (Published.rejected e) = inr (inr (inr (e, refl)))

  publish_all-Sent :
      (request : Message Content) (messages : List (Message Content)) (s : Transport enc)
      → (publish_all enc settings moment request messages s).0 ≡ true
      → Sent request s messages (publish_all enc settings moment request messages s).1
  unfolding publish_all
  publish_all-Sent request [] s e = all_sent
  publish_all-Sent request (m ∷ messages) s e = elim (Bool-cases (misdirected enc request m)) [
    | inl wrong ↦ absurd (ground (arith, rw (publish_all, wrong) at e))
    | inr right ↦
        let next = bus_publish enc settings moment m s in
        elim (Bool-cases (next.0)) [
          | inr stuck ↦ absurd (ground (arith, rw (publish_all, right, stuck) at e))
          | inl sent ↦
              let (valid, answer, taken, is) = bus_publish-sent m s sent in
              rw (publish_all, right, sent)
                (send m answer (right, valid) taken is
                  (publish_all-Sent request messages next.1 (rw (publish_all, right, sent) at e)))
        ]
  ]

  -- What is given back is not acknowledged.
  give_back-open :
      (delivery : Delivery enc) (s : Transport enc)
      → (give_back enc settings worker delivery s).0 ≢ Answer.acked
  unfolding give_back
  give_back-open delivery s =
      disposition-open (retry_delivery enc settings delivery worker.max_attempts s).0

  acknowledged-gone :
      (delivery : Delivery enc) (s : Transport enc)
      → get delivery.receipt
          ((acknowledge enc delivery s).1.pending (channel_of enc delivery.message))
        ≡ none
  unfolding acknowledge
  acknowledged-gone delivery s = rw (beq_refl (channel_of enc delivery.message)) (
      rw
        (
          get-remove delivery.receipt delivery.receipt
              (s.pending (channel_of enc delivery.message)),
          beq_refl delivery.receipt,
        )
        refl)

  removed_first :
      (delivery : Delivery enc) (s : Transport enc)
      → ◌≡◌ {A = Answer}
          (if (acknowledge enc delivery s).0 then Answer.acked else Answer.retry)
          Answer.acked
      → is_some (get delivery.receipt (s.pending (channel_of enc delivery.message))) ≡ true
  unfolding acknowledge
  removed_first delivery s e = ground arith

  settle-Settled :
      (delivery : Delivery enc) (handled : Handled enc) (s : Transport enc)
      → worker.handler delivery.message ≡ handled
      → (settle enc settings worker moment delivery handled s).0 ≡ Answer.acked
      → Settled delivery s (settle enc settings worker moment delivery handled s).1
  unfolding settle
  settle-Settled delivery fails s handling e = absurd (give_back-open delivery s e)
  settle-Settled delivery (outputs messages) s handling e =
      let sending = publish_all enc settings moment delivery.message messages s in
      elim (Bool-cases sending.0) [
        | inr stuck ↦ absurd (give_back-open delivery sending.1 (rw (settle, stuck) at e))
        | inl sent ↦
            rw (settle, sent)
              (record {
                messages = messages;
                handling = handling;
                answered = sending.1;
                sent = publish_all-Sent delivery.message messages s sent;
                claimed = removed_first delivery sending.1 (rw (settle, sent) at e);
                finished = refl;
                gone = acknowledged-gone delivery sending.1;
              })
      ]

  process-Settled :
      (delivery : Delivery enc) (s : Transport enc)
      → (process enc settings worker moment delivery s).0 ≡ Answer.acked
      → (delivery.delivery_count ≤ worker.max_attempts)
        × Settled delivery (moment.meanwhile s) (process enc settings worker moment delivery s).1
  unfolding process
  process-Settled delivery s e =
      elim (Bool-cases (ltb worker.max_attempts delivery.delivery_count)) [
        | inl often ↦ absurd (give_back-open delivery s (rw (process, often) at e))
        | inr few ↦
            rw (process, few)
              (
                ground arith,
                settle-Settled delivery (worker.handler delivery.message) (moment.meanwhile s) refl
                    (rw (process, few) at e),
              )
      ]

  received-cases :
      (r : Received enc)
      → (r ≡ nothing)
        ⊎ ((e : ProtocolError) × (r ≡ refused e))
        ⊎ ((d : Delivery enc) × (r ≡ delivered d))
  received-cases nothing = inl refl
  received-cases (refused e) = inr (inl (e, refl))
  received-cases (delivered d) = inr (inr (d, refl))

  process-Done :
      (s begun : Transport enc) (delivery : Delivery enc)
      → Taken s delivery begun
      → (process enc settings worker moment delivery begun).0 ≡ Answer.acked
      → Done s (process enc settings worker moment delivery begun).1
  process-Done s begun delivery taken e =
      let (few, settled) = process-Settled delivery begun e in
      record { delivery = delivery; begun = begun; taken = taken; few = few; settled = settled }

  take_next-Done :
      (s t : Transport enc)
      → reclaim enc moment.reclaims_at
          (worker.endpoint, none)
          worker.consumer
          (max 1000 worker.reclaim_idle_ms)
          1
          s
        ≡ ([], t)
      → (take_next enc settings worker moment t).0 ≡ Answer.acked
      → Done s (take_next enc settings worker moment t).1
  unfolding take_next
  take_next-Done s t none_back e =
      let received =
        receive enc moment.receives_wall moment.receives_at (worker.endpoint, none) worker.consumer
          moment.receipt t in
      elim (received-cases received.0) [
        | inl none_there ↦ absurd (ground (arith, rw (take_next, none_there) at e))
        | inr (inl (wrong, is_refused)) ↦ absurd (ground (arith, rw (take_next, is_refused) at e))
        | inr (inr (delivery, given)) ↦
            elim (Option-cases (validate enc moment.checks_wall delivery.message)) [
              | inl valid ↦
                  rw (take_next, given, valid)
                    (process-Done s received.1 delivery
                      (inr (
                        ap (λ r. r.0) none_back,
                        rw none_back (ap (λ r. (r, received.1)) given),
                        valid,
                      ))
                      (rw (take_next, given, valid) at e))
              | inr (wrong, invalid) ↦ absurd (ground (arith, rw (take_next, given, invalid) at e))
            ]
      ]

  -- Where a worker answers `acked`, the delivery is the first one that it recovered, or else the one
  -- that it received and found valid. It was not given out too often, and its handler returned. Each
  -- answer of the handler was valid, went to the inbox that the request names for answers, if any,
  -- and was taken by the transport or known to it already. The message was still claimed then, and
  -- is not any longer.
  pub acked-Done :
      (s : Transport enc)
      → (run_once enc settings worker moment s).0 ≡ Answer.acked
      → Done s (run_once enc settings worker moment s).1
  unfolding run_once
  acked-Done s e =
      let back =
        reclaim enc moment.reclaims_at (worker.endpoint, none) worker.consumer
          (max 1000 worker.reclaim_idle_ms) 1 s in
      elim (List-cases back.0) [
        | inl none_back ↦
            rw (run_once, none_back)
              (take_next-Done s back.1 (ap (λ l. (l, back.1)) none_back)
                (rw (run_once, none_back) at e))
        | inr (delivery, more, some_back) ↦
            rw (run_once, some_back)
              (process-Done s back.1 delivery (inl (more, ap (λ l. (l, back.1)) some_back))
                (rw (run_once, some_back) at e))
      ]
