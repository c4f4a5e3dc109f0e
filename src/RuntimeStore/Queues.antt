-- ===== src/RuntimeStore/Queues.antt =====
-- backend/app/infrastructure/runtime_store.py: the queues of `InMemoryRuntimeStore` with their
-- reserved messages, and `enqueue_retry`.
pub mod Delivery
use ai_planed_map.Prelude.{
  ℕ, zero, suc, ◌+◌, ◌^◌, String, Bool, true, false, Option, none, some, List, [], ◌∷◌, ◌++◌, min,
  leb, if◌then◌else◌, is_some, take, length, ◌==◌, string_eq,
}
use ai_planed_map.Prelude.Dict.{Dict, get, put, remove}
use Prim.Native.String.{◌++◌ as str_append}

-- `_queues` and `_processing`, both a `defaultdict`: a queue that was never named is empty. The key
-- of a reserved message is its receipt.
pub record Queues (Value : Type 0) : Type 0 where
  pub queues : String → List Value
  pub processing : String → Dict String Value

module _ {Value : Type 0} where
  abbrev pub set_queue : String → List Value → Queues Value → Queues Value
  set_queue queue values s = record s {
    queues = λ other. if queue == other then values else s.queues other;
  }

  abbrev pub set_processing : String → Dict String Value → Queues Value → Queues Value
  set_processing queue values s = record s {
    processing = λ other. if queue == other then values else s.processing other;
  }

  unfoldable pub enqueue : String → Value → Queues Value → Queues Value
  enqueue queue value s = set_queue queue (s.queues queue ++ value ∷ []) s

  -- One pass of the polling loop of `dequeue`, under the lock.
  unfoldable pub dequeue : String → Queues Value → Option Value × Queues Value
  dequeue queue s = elim (s.queues queue) [
    | [] ↦ (none, s)
    | value ∷ rest ↦ (some value, set_queue queue rest s)
  ]

  -- One pass of the polling loop of `reserve`, under the lock. The receipt is a new `uuid4` text.
  unfoldable pub reserve : String → String → Queues Value → Option (String × Value) × Queues Value
  reserve queue receipt s = elim (s.queues queue) [
    | [] ↦ (none, s)
    | payload ∷ rest ↦ (
      some (receipt, payload),
      set_processing queue (put receipt payload (s.processing queue)) (set_queue queue rest s),
    )
  ]

  unfoldable pub acknowledge : String → String → Queues Value → Bool × Queues Value
  acknowledge queue receipt s = (
    is_some (get receipt (s.processing queue)),
    set_processing queue (remove receipt (s.processing queue)) s,
  )

  -- The loop over the pending items: each goes to the front of the queue.
  unfoldable pub recover_items : String → Dict String Value → Queues Value → Queues Value
  recover_items queue [] s = s
  recover_items queue ((receipt, payload) ∷ pending) s = recover_items queue pending (
      set_processing queue (remove receipt (s.processing queue))
        (set_queue queue (payload ∷ s.queues queue) s))

  unfoldable pub recover_processing : String → ℕ → Queues Value → ℕ × Queues Value
  recover_processing queue limit s =
      let pending = take limit (s.processing queue) in
      (length pending, recover_items queue pending s)

pub data Disposition : Type 0 where
  retry dlq : Disposition

-- `_retry_delay`
unfoldable pub retry_delay : ℕ → ℕ
retry_delay attempt = min 300 (2 ^ attempt)

-- A message payload with what `enqueue_retry` writes into it. `available_at` is on the wall clock.
pub record Payload (Value : Type 0) : Type 0 where
  pub value : Value
  pub attempt : Option ℕ
  pub max_attempts : Option ℕ
  pub available_at : Option ℕ

abbrev pub or_delay : ℕ → Option ℕ → ℕ
or_delay attempt none = retry_delay attempt
or_delay attempt (some seconds) = seconds

unfoldable pub enqueue_retry :
    {Value : Type 0}
    → String
    → Payload Value
    → ℕ
    → ℕ
    → Option ℕ
    → ℕ
    → Queues (Payload Value)
    → Disposition × Queues (Payload Value)
enqueue_retry queue value attempt max_attempts delay now s =
    let payload = record value { attempt = some attempt; max_attempts = some max_attempts } in
    let later = record payload { available_at = some (now + or_delay attempt delay) } in
    if leb max_attempts attempt
    then (dlq, enqueue (str_append queue ":dlq") payload s)
    else (retry, enqueue (str_append queue ":retry") later s)
