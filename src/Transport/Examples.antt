-- ===== src/Transport/Examples.antt =====
-- Concrete messages that the theorems about the transport apply to.
use ai_planed_map.Prelude.{
  ℕ, List, if◌then◌else◌, ◌==◌, pair_eq, option_eq, string_eq, ◌≡◌, ◌≢◌, refl, String, true, none,
  some, [], ◌∷◌, ◌++◌, arith,
}
use mathlib.Core.List.{Perm}
use ai_planed_map.Transport.Protocol.{
  Endpoint, endpoint_eq, MessageType, Message, Encoding, validate, authorized, routes, expired,
}
use ai_planed_map.Transport.Memory.{
  Channel, Settings, Delivery, Transport, Published, refused, publish, publish_valid, receive,
  acknowledge, retry_delivery, dispose, reclaim, reclaim_all, claim_of, reclaim_claim,
}
use ai_planed_map.Transport.Worker.{
  Answer, fails, outputs, Worker, Moment, run_once, take_next, process, settle, give_back,
  publish_all, bus_publish,
}
use ai_planed_map.Transport.Worker.Attempts.{Holds, Quiet, run_rounds, failing_ends_dead}
use ai_planed_map.Transport.Worker.Stale.{stale_raises}
use ai_planed_map.Transport.Worker.Acknowledged.{Done, acked-Done}
use ai_planed_map.Transport.Memory.Letters.{stored}
use ai_planed_map.Transport.Memory.Conservation.{Step, Steps, messages_conserved}
use ai_planed_map.Transport.Memory.Fits.{Sound}
use ai_planed_map.Transport.Memory.Validity.{messages_authorized}
use ai_planed_map.Transport.Memory.Deduplication.{Operations, never_published_twice}
use ai_planed_map.Transport.Memory.Deduplication
use ai_planed_map.Transport.Memory.Expiry.{expired_lost}

-- A content is a text that is its own hash, and a key is the task's.
abbrev texts : Encoding
texts = record {
  Content = String;
  serialized_length = λ text. 20;
  content_digest = λ text. text;
  key_digest = λ header hash. header.task_id;
  payload_valid = λ header text. true;
}

abbrev request : Message String
request = record {
  message_id = "m1";
  header = record {
    task_id = "task-001";
    sender = Endpoint.user;
    receiver = Endpoint.supervisor;
    message_type = MessageType.command;
    artifact_type = "planning_request";
    correlation_id = "c1";
    causation_id = none;
    reply_to = none;
    inbox = none;
  };
  content = "plan a day";
  content_hash = "plan a day";
  idempotency_key = "task-001";
  attempt = 1;
  expires_at = some 5_000;
}

abbrev supervisor : Channel
supervisor = (Endpoint.supervisor, none)

abbrev defaults : Settings
defaults = record { idempotency_ttl_seconds = 86_400; max_messages_per_role = 10_000 }

abbrev no_messages : Transport texts
no_messages = record {
  queues = λ channel. [];
  pending = λ channel. [];
  dead_letters = λ channel. [];
  published = [];
}

abbrev sent : Transport texts
sent = (publish texts defaults 1_000 0 request no_messages).1

abbrev claimed : Transport texts
claimed = (receive texts 1_010 10 supervisor "a" "r1" sent).1

abbrev reclaimed : Transport texts
reclaimed = (reclaim texts 60_000 supervisor "b" 30_000 1 claimed).1

abbrev second : Delivery texts
second = (reclaim_claim texts 60_000 "b" "r1" (claim_of texts 10 "a" "r1" request)).delivery

abbrev failed : Transport texts
failed = (retry_delivery texts defaults second 3 reclaimed).1

abbrev again : Message String
again = record request { attempt = 2 }

abbrev third : Delivery texts
third = (claim_of texts 60_010 "a" "r2" again).delivery

abbrev finished : Transport texts
finished = (acknowledge texts third (receive texts 1_020 60_010 supervisor "a" "r2" failed).1).1

-- The message is claimed by a worker that crashes, reclaimed by another that fails, and done then.
course : Steps supervisor no_messages ("task-001" ∷ []) ("task-001" ∷ []) finished
unfolding publish publish_valid validate authorized routes receive acknowledge reclaim reclaim_all
    retry_delivery dispose
course =
    Steps.next
      (Steps.next
        (Steps.next
          (Steps.next
            (Steps.next (Steps.next Steps.here (Step.send defaults 1_000 0 request refl refl))
              (Step.take_one 1_010 10 "a" "r1" refl))
            (Step.reclaim_some 60_000 "b" 30_000 1))
          (Step.fail defaults second 3
            (reclaim_claim texts 60_000 "b" "r1" (claim_of texts 10 "a" "r1" request)) refl refl
            refl))
        (Step.take_one 1_020 60_010 "a" "r2" refl))
      (Step.finish third (claim_of texts 60_010 "a" "r2" again) refl refl)

messages_conserved_example :
    Perm
      (("task-001" ∷ []) ++ stored supervisor finished)
      (("task-001" ∷ []) ++ stored supervisor no_messages)
messages_conserved_example = messages_conserved course tt

messages_authorized_example : Sound texts supervisor finished
messages_authorized_example =
    messages_authorized texts course (record { waiting = tt; claimed = tt })

-- The message arrives a second time while it is being handled, under another identity.
never_published_twice_example :
    ((publish texts defaults 1_020 20 (record request { message_id = "m2" }) claimed).0
      ≢ Published.published)
    × ((publish texts defaults 1_020 20 (record request { message_id = "m2" }) claimed).1.queues
        ≡ claimed.queues)
unfolding publish publish_valid validate authorized routes
never_published_twice_example =
    never_published_twice texts defaults 1_000 0 1_020 20 0 request
      (record request { message_id = "m2" }) no_messages claimed refl
      (Deduplication.Operations.reception 1_010 10 supervisor "a" "r1"
        Deduplication.Operations.here)
      (omega arith) (omega arith) refl

expired_lost_example :
    ((receive texts 6_000 5_000 supervisor "a" "r1" sent).0 ≡ refused expired)
    × ((receive texts 6_000 5_000 supervisor "a" "r1" sent).1.queues supervisor ≡ [])
    × ((receive texts 6_000 5_000 supervisor "a" "r1" sent).1.pending supervisor ≡ [])
    × ((receive texts 6_000 5_000 supervisor "a" "r1" sent).1.dead_letters supervisor ≡ [])
unfolding publish publish_valid validate authorized routes
expired_lost_example =
    expired_lost texts defaults 1_000 0 6_000 5_000 5_000 "a" "r1" request no_messages refl refl
      refl (omega arith)

-- A worker whose handler always fails, called three times in ten minutes.
abbrev clumsy : Worker texts
clumsy = record {
  endpoint = Endpoint.supervisor;
  consumer = "a";
  handler = λ message. fails;
  max_attempts = 3;
  reclaim_idle_ms = 30_000;
}

abbrev moment_at : ℕ → String → Moment texts
moment_at now receipt = record {
  reclaims_at = now;
  receives_wall = now;
  receives_at = now;
  receipt = receipt;
  checks_wall = now;
  publishes_wall = now;
  publishes_at = now;
  meanwhile = λ s. s;
}

abbrev three_times : List (Moment texts)
three_times = moment_at 1_000 "r1" ∷ moment_at 2_000 "r2" ∷ moment_at 3_000 "r3" ∷ []

abbrev waiting : Transport texts
waiting = record no_messages {
  queues = λ channel. if supervisor == channel then request ∷ [] else [];
}

moment_at-Quiet : (now : ℕ) (receipt : String) → Quiet texts supervisor (moment_at now receipt)
moment_at-Quiet now receipt = record { leaves = λ waits claims dead s h. h }

failing_ends_dead_example :
    ((run_rounds texts defaults clumsy (λ m. refl) refl three_times waiting).0
      ≡ Answer.retry ∷ Answer.retry ∷ Answer.dlq ∷ [])
    × Holds texts supervisor [] []
        (record { message = record request { attempt = 3 }; delivery_count = 3 } ∷ [])
        (run_rounds texts defaults clumsy (λ m. refl) refl three_times waiting).1
unfolding validate authorized routes
failing_ends_dead_example =
    failing_ends_dead texts defaults clumsy (λ m. refl) refl three_times request [] waiting refl
      (omega arith) refl
      (
        (moment_at-Quiet 1_000 "r1", record { received = refl; checked = refl }),
        (
          (moment_at-Quiet 2_000 "r2", record { received = refl; checked = refl }),
          ((moment_at-Quiet 3_000 "r3", record { received = refl; checked = refl }), tt),
        ),
      )
      (record { waits = refl; claimed = refl; died = refl })

-- A worker that passes the request on.
abbrev passing_on : Message String
passing_on = record {
  message_id = "m9";
  header = record request.header { sender = Endpoint.supervisor; receiver = Endpoint.intent };
  content = "plan a day";
  content_hash = "plan a day";
  idempotency_key = "task-001";
  attempt = 1;
  expires_at = none;
}

abbrev diligent : Worker texts
diligent = record clumsy { handler = λ message. outputs (passing_on ∷ []) }

acked-Done_example :
    Done texts defaults diligent
      (moment_at 1_000 "r1")
      waiting
      (run_once texts defaults diligent (moment_at 1_000 "r1") waiting).1
unfolding run_once take_next process settle give_back publish_all bus_publish publish publish_valid
    validate authorized routes receive acknowledge reclaim reclaim_all
acked-Done_example = acked-Done texts defaults diligent (moment_at 1_000 "r1") waiting refl

stale_raises_example :
    ((run_once texts defaults diligent (moment_at 6_000 "r1") waiting).0 ≡ Answer.raises)
    × ((run_once texts defaults diligent (moment_at 6_000 "r1") waiting).1.queues supervisor ≡ [])
unfolding validate authorized routes
stale_raises_example =
    stale_raises texts defaults diligent (moment_at 6_000 "r1") request [] expired waiting refl refl
      refl
