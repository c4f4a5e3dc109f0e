-- ===== src/Transport/Memory.antt =====
-- backend/app/services/agent_transport.py: `InMemoryAgentMessageTransport`. Readings of the monotonic
-- clock are milliseconds; what an `asyncio.Condition` guards is one function.
pub mod Held
pub mod Letters
pub mod Receipts
pub mod Conservation
pub mod Fits
pub mod Validity
pub mod Newer
pub mod Deduplication
pub mod Expiry
use ai_planed_map.Prelude.{
  ℕ, zero, suc, ◌+◌, ◌*◌, ◌-◌, String, Bool, true, false, not, ◌&&◌, ◌||◌, Option, none, some, List,
  [], ◌∷◌, ◌++◌, max, ltb, leb, if◌then◌else◌, is_some, length, take_last, ◌==◌, string_eq, pair_eq,
  option_eq,
}
use ai_planed_map.Prelude.Dict.{Dict, get, put, remove}
use ai_planed_map.Transport.Protocol.{
  Endpoint, endpoint_eq, Message, Encoding, ProtocolError, validate,
}

-- The receiver and the inbox.
abbrev pub Channel : Type 0
Channel = Endpoint × Option String

-- The arguments of the constructor.
pub record Settings : Type 0 where
  pub idempotency_ttl_seconds : ℕ
  pub max_messages_per_role : ℕ

abbrev pub key_lifetime : Settings → ℕ
key_lifetime settings = max 60 settings.idempotency_ttl_seconds * 1000

abbrev pub capacity : Settings → ℕ
capacity settings = max 100 settings.max_messages_per_role

-- The loop that takes out the keys that have expired.
abbrev pub unexpired : ℕ → Dict String ℕ → Dict String ℕ
unexpired now [] = []
unexpired now ((key, expires_at) ∷ published) =
    let rest = unexpired now published in
    if leb expires_at now then rest else (key, expires_at) ∷ rest

-- The loop that takes out the oldest keys while there are as many as `limit`.
abbrev pub make_room : ℕ → Dict String ℕ → Dict String ℕ
make_room limit [] = []
make_room limit (oldest ∷ published) =
    let rest = make_room limit published in
    if leb limit (length (oldest ∷ published)) then rest else oldest ∷ published

pub data Published : Type 0 where
  published duplicate capacity_exceeded : Published
  rejected : ProtocolError → Published

pub data Retried : Type 0 where
  invalid_attempts not_pending retry dlq : Retried

module _ (enc : Encoding) where
  open enc use {Content}

  -- `AgentMessageDelivery`
  pub record Delivery : Type 0 where
    pub message : Message Content
    pub receipt : String
    pub consumer : String
    pub delivery_count : ℕ
    pub reclaimed : Bool
    pub pending_idle_ms : ℕ

  -- `_MemoryClaim`
  pub record Claim : Type 0 where
    pub delivery : Delivery
    pub claimed_at : ℕ

  -- `_dead_letter_payload`, without its two texts.
  pub record DeadLetter : Type 0 where
    pub message : Message Content
    pub delivery_count : ℕ

  -- The attributes, of which the first three are each a `defaultdict`.
  pub record Transport : Type 0 where
    pub queues : Channel → List (Message Content)
    pub pending : Channel → Dict String Claim
    pub dead_letters : Channel → List DeadLetter
    pub published : Dict String ℕ

  abbrev pub set_queue : Channel → List (Message Content) → Transport → Transport
  set_queue channel messages s = record s {
    queues = λ other. if channel == other then messages else s.queues other;
  }

  abbrev pub set_pending : Channel → Dict String Claim → Transport → Transport
  set_pending channel claims s = record s {
    pending = λ other. if channel == other then claims else s.pending other;
  }

  abbrev pub set_dead_letters : Channel → List DeadLetter → Transport → Transport
  set_dead_letters channel letters s = record s {
    dead_letters = λ other. if channel == other then letters else s.dead_letters other;
  }

  abbrev pub channel_of : Message Content → Channel
  channel_of message = (message.header.receiver, message.header.inbox)

  -- What `publish` does under the condition.
  unfoldable pub publish_valid : Settings → ℕ → Message Content → Transport → Published × Transport
  publish_valid settings now message s =
      let kept = unexpired now s.published in
      let channel = channel_of message in
      let key = message.idempotency_key in
      if is_some (get key kept)
      then (duplicate, record s { published = kept })
      else if leb (capacity settings) (length (s.queues channel))
      then (capacity_exceeded, record s { published = kept })
      else (
        published,
        set_queue channel (s.queues channel ++ message ∷ []) (record s {
          published = put key (now + key_lifetime settings) (make_room (capacity settings) kept);
        }),
      )

  unfoldable pub publish :
      Settings → (wall now : ℕ) → Message Content → Transport → Published × Transport
  publish settings wall now message s = elim (validate enc wall message) [
    | some e ↦ (rejected e, s)
    | none ↦ publish_valid settings now message s
  ]

  pub data Received : Type 0 where
    nothing : Received
    refused : ProtocolError → Received
    delivered : Delivery → Received

  abbrev pub claim_of : ℕ → String → String → Message Content → Claim
  claim_of now consumer receipt message = record {
    delivery = record {
      message = message;
      receipt = receipt;
      consumer = consumer;
      delivery_count = message.attempt;
      reclaimed = false;
      pending_idle_ms = 0;
    };
    claimed_at = now;
  }

  -- One pass of the loop of `receive`. The receipt is a new `uuid4` text.
  unfoldable pub receive :
      (wall now : ℕ) → Channel → (consumer receipt : String) → Transport → Received × Transport
  receive wall now channel consumer receipt s = elim (s.queues channel) [
    | [] ↦ (nothing, s)
    | message ∷ rest ↦ elim (validate enc wall message) [
      | some e ↦ (refused e, set_queue channel rest s)
      | none ↦
          let claim = claim_of now consumer receipt message in
          (
            delivered claim.delivery,
            set_pending channel (put receipt claim (s.pending channel)) (set_queue channel rest s),
          )
    ]
  ]

  unfoldable pub acknowledge : Delivery → Transport → Bool × Transport
  acknowledge delivery s =
      let channel = channel_of delivery.message in
      (
        is_some (get delivery.receipt (s.pending channel)),
        set_pending channel (remove delivery.receipt (s.pending channel)) s,
      )

  abbrev pub dead_letter_payload : Delivery → DeadLetter
  dead_letter_payload delivery = record {
    message = delivery.message;
    delivery_count = delivery.delivery_count;
  }

  -- What `retry` does with a delivery whose claim it has taken out.
  unfoldable pub dispose : Settings → Delivery → ℕ → Transport → Retried × Transport
  dispose settings delivery max_attempts s =
      let channel = channel_of delivery.message in
      if leb max_attempts (max delivery.message.attempt delivery.delivery_count)
      then (
        dlq,
        set_dead_letters channel
            (take_last (capacity settings)
              (s.dead_letters channel ++ dead_letter_payload delivery ∷ []))
            s,
      )
      else (
        retry,
        set_queue channel
            (s.queues channel
              ++ record delivery.message { attempt = delivery.message.attempt + 1 } ∷ [])
            s,
      )

  -- `retry`
  unfoldable pub retry_delivery : Settings → Delivery → ℕ → Transport → Retried × Transport
  retry_delivery settings delivery max_attempts s =
      let channel = channel_of delivery.message in
      if not (leb 1 max_attempts && leb max_attempts 5)
      then (invalid_attempts, s)
      else elim (get delivery.receipt (s.pending channel)) [
        | none ↦ (not_pending, s)
        | some claim ↦
            dispose settings delivery max_attempts
              (set_pending channel (remove delivery.receipt (s.pending channel)) s)
      ]

  abbrev pub reclaim_claim : ℕ → String → String → Claim → Claim
  reclaim_claim now consumer receipt claim = record {
    delivery = record {
      message = claim.delivery.message;
      receipt = receipt;
      consumer = consumer;
      delivery_count = claim.delivery.delivery_count + 1;
      reclaimed = true;
      pending_idle_ms = now - claim.claimed_at;
    };
    claimed_at = now;
  }

  -- The loop of `reclaim`: the claims afterwards, each at its place, and what is given out. `count` is
  -- how many more may be reclaimed.
  unfoldable pub reclaim_all :
      (now : ℕ)
      → (consumer : String) → (min_idle_ms count : ℕ) → Dict String Claim
      → Dict String Claim × List Delivery
  reclaim_all now consumer min_idle_ms count [] = ([], [])
  reclaim_all now consumer min_idle_ms zero ((receipt, claim) ∷ claims) =
      ((receipt, claim) ∷ claims, [])
  reclaim_all now consumer min_idle_ms (suc count) ((receipt, claim) ∷ claims) =
      let skipped = reclaim_all now consumer min_idle_ms (suc count) claims in
      let taken = reclaim_all now consumer min_idle_ms count claims in
      let mine = reclaim_claim now consumer receipt claim in
      if ltb (now - claim.claimed_at) min_idle_ms
      then ((receipt, claim) ∷ skipped.0, skipped.1)
      else ((receipt, mine) ∷ taken.0, mine.delivery ∷ taken.1)

  unfoldable pub reclaim :
      (now : ℕ)
      → Channel
      → (consumer : String) → (min_idle_ms count : ℕ) → Transport
      → List Delivery × Transport
  reclaim now channel consumer min_idle_ms count s =
      let (claims, given) = reclaim_all now consumer min_idle_ms count (s.pending channel) in
      (given, set_pending channel claims s)

  abbrev pub pending_count : Channel → Transport → ℕ
  pending_count channel s = length (s.pending channel)
