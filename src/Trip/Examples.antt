-- ===== src/Trip/Examples.antt =====
-- Concrete trips that the theorems about trips apply to.
use ai_planed_map.Prelude.{◌+◌, ◌*◌, ◌≤◌, ◌≡◌, ◌≢◌, refl, true, false, none, some, [], string_eq}
use ai_planed_map.Prelude.Int.{pos}
use ai_planed_map.Trip.State.{active_trip, completed, validate_transition, trip_state_eq}
use ai_planed_map.Trip.Events.{TripEventType, Payload, critical, evaluate_trip_event, classify}
use ai_planed_map.Trip.Session.{Trip, ingest_event}
use ai_planed_map.Trip.Session.Laws.{ingest_event_cooldown, ingest_event_reopens}
use ai_planed_map.Trip.Policy.{evaluate_tool_policy, scope_eq}

abbrev active : Trip
active = record {
  state = active_trip;
  started_at = some 100;
  ended_at = none;
  tracking_enabled = true;
  last_notification_at = some 200;
  cooldown_minutes = 15;
  events = [];
  audit = [];
  outbox = [];
}

abbrev ended : Trip
ended = record active { state = completed; ended_at = some 900; tracking_enabled = false }

abbrev late : Payload
late = record { delay_minutes = pos 12; extra_minutes = pos 0; severity = "low" }

due : (ingest_event "e1" TripEventType.schedule_delay late 1_100 active).1.should_notify ≡ true
unfolding ingest_event evaluate_trip_event classify
due = refl

mild : (ingest_event "e1" TripEventType.schedule_delay late 1_100 active).1.impact_level ≢ critical
unfolding ingest_event evaluate_trip_event classify
mild = λ e. cc

ingest_event_cooldown_example :
    (200 + 15 * 60 ≤ 1_100)
    × ((ingest_event "e1" TripEventType.schedule_delay late 1_100 active).2.last_notification_at
        ≡ some 1_100)
ingest_event_cooldown_example =
    ingest_event_cooldown "e1" TripEventType.schedule_delay late 1_100 200 active refl refl due mild

ingest_event_reopens_example :
    let next = (ingest_event "e1" TripEventType.user_resumed late 1_000 ended).2 in
    (next.state ≡ active_trip)
    × (validate_transition completed active_trip ≡ false)
    × (next.ended_at ≡ some 900)
ingest_event_reopens_example = ingest_event_reopens "e1" late 1_000 ended refl refl

only_state : (evaluate_tool_policy "get_trip_state" completed []).0 ≡ true
unfolding evaluate_tool_policy
only_state = refl
