-- ===== src/Transport/Worker.antt =====
-- backend/app/services/agent_transport.py: `AgentTaskWorker.run_once` with the checks of
-- `RecoverableAgentMessageBus`, over the in-memory transport. What else happens to the transport
-- while the handler runs is an argument.
pub mod Attempts
pub mod Acknowledged
pub mod Stale
use ai_planed_map.Prelude.{
  ℕ, zero, suc, ◌*◌, String, Bool, true, false, not, ◌&&◌, Option, none, some, List, [], ◌∷◌, max,
  ltb, if◌then◌else◌, string_eq, option_eq, ◌==◌,
}
use ai_planed_map.Transport.Protocol.{Endpoint, Message, Encoding, validate}
use ai_planed_map.Transport.Memory.{
  Channel, Settings, Delivery, Transport, Published, Received, nothing, refused, delivered, Retried,
  publish, receive, acknowledge, retry_delivery, reclaim,
}

-- The answers of `run_once`, and an exception that leaves it.
pub data Answer : Type 0 where
  idle acked retry dlq raises : Answer

abbrev pub disposition : Retried → Answer
disposition Retried.retry = Answer.retry
disposition Retried.dlq = Answer.dlq
disposition Retried.invalid_attempts = Answer.raises
disposition Retried.not_pending = Answer.raises

module _ (enc : Encoding) where
  open enc use {Content}

  -- What the handler answers: an exception, or messages to send.
  pub data Handled : Type 0 where
    fails : Handled
    outputs : List (Message Content) → Handled

  -- `AgentTaskWorker`
  pub record Worker : Type 0 where
    pub endpoint : Endpoint
    pub consumer : String
    pub handler : Message Content → Handled
    pub max_attempts : ℕ
    pub reclaim_idle_ms : ℕ

  -- One call of `run_once`: the readings of the wall clock and of the monotonic clock at its calls of
  -- the transport, the receipt of a message that it receives, and what others do while the handler
  -- runs.
  pub record Moment : Type 0 where
    pub reclaims_at : ℕ
    pub receives_wall : ℕ
    pub receives_at : ℕ
    pub receipt : String
    pub checks_wall : ℕ
    pub publishes_wall : ℕ
    pub publishes_at : ℕ
    pub meanwhile : Transport enc → Transport enc

  -- A request that names an inbox for its answers takes them nowhere else.
  abbrev pub misdirected : Message Content → Message Content → Bool
  misdirected request message = elim request.header.reply_to [
    | none ↦ false
    | some inbox ↦ not (inbox == "") && not (message.header.inbox == some inbox)
  ]

  -- RecoverableAgentMessageBus.publish; `false` where it raises.
  unfoldable pub bus_publish :
      Settings → Moment → Message Content → Transport enc → Bool × Transport enc
  bus_publish settings moment message s = elim (validate enc moment.publishes_wall message) [
    | some e ↦ (false, s)
    | none ↦
        let (result, t) =
          publish enc settings moment.publishes_wall moment.publishes_at message s in
        elim result [
          | Published.published ↦ (true, t)
          | Published.duplicate ↦ (true, t)
          | Published.capacity_exceeded ↦ (false, t)
          | Published.rejected e ↦ (false, t)
        ]
  ]

  -- The loop over the outputs; it ends with the first one that cannot be sent.
  unfoldable pub publish_all :
      Settings
      → Moment
      → Message Content
      → List (Message Content)
      → Transport enc
      → Bool × Transport enc
  publish_all settings moment request [] s = (true, s)
  publish_all settings moment request (message ∷ messages) s =
      let sent = bus_publish settings moment message s in
      if misdirected request message
      then (false, s)
      else if not sent.0
      then (false, sent.1)
      else publish_all settings moment request messages sent.1

  -- Where the handling fails the transport decides.
  unfoldable pub give_back :
      Settings → Worker → Delivery enc → Transport enc → Answer × Transport enc
  give_back settings worker delivery s =
      let (disposed, t) = retry_delivery enc settings delivery worker.max_attempts s in
      (disposition disposed, t)

  -- After the handler.
  unfoldable pub settle :
      Settings → Worker → Moment → Delivery enc → Handled → Transport enc → Answer × Transport enc
  settle settings worker moment delivery fails s = give_back settings worker delivery s
  settle settings worker moment delivery (outputs messages) s =
      let (sent, t) = publish_all settings moment delivery.message messages s in
      let (removed, u) = acknowledge enc delivery t in
      if sent
      then ((if removed then Answer.acked else Answer.retry), u)
      else give_back settings worker delivery t

  -- A message that was given out too often is not handled again.
  unfoldable pub process :
      Settings → Worker → Moment → Delivery enc → Transport enc → Answer × Transport enc
  process settings worker moment delivery s =
      if ltb worker.max_attempts delivery.delivery_count
      then give_back settings worker delivery s
      else settle settings worker moment delivery (worker.handler delivery.message)
          (moment.meanwhile s)

  -- RecoverableAgentMessageBus.receive, and then the handling of what it gives.
  unfoldable pub take_next : Settings → Worker → Moment → Transport enc → Answer × Transport enc
  take_next settings worker moment s =
      let (received, t) =
        receive enc moment.receives_wall moment.receives_at (worker.endpoint, none) worker.consumer
          moment.receipt s in
      elim received [
        | nothing ↦ (Answer.idle, t)
        | refused e ↦ (Answer.raises, t)
        | delivered delivery ↦ elim (validate enc moment.checks_wall delivery.message) [
          | some e ↦ (Answer.raises, t)
          | none ↦ process settings worker moment delivery t
        ]
      ]

  -- AgentTaskWorker.run_once
  unfoldable pub run_once : Settings → Worker → Moment → Transport enc → Answer × Transport enc
  run_once settings worker moment s =
      let (reclaimed, t) =
        reclaim enc moment.reclaims_at (worker.endpoint, none) worker.consumer
          (max 1000 worker.reclaim_idle_ms) 1 s in
      elim reclaimed [
        | [] ↦ take_next settings worker moment t
        | delivery ∷ more ↦ process settings worker moment delivery t
      ]
