-- ===== src/Trip/Session.antt =====
-- backend/app/api/companion.py: the two endpoints that change a trip's state, `transition_trip` and
-- `ingest_event`, on the columns of the trip and of its events that they read and write.
pub mod Laws
use ai_planed_map.Prelude.{
  ℕ, Bool, true, false, Option, none, some, List, [], ◌∷◌, ◌++◌, String, if◌then◌else◌, elem,
  string_eq, ◌==◌, is_some,
}
use ai_planed_map.Prelude.Dict.{Dict, get, put}
use ai_planed_map.Trip.State.{
  TripState, active_trip, completed, cancelled, validate_transition, trip_state_eq,
}
use ai_planed_map.Trip.Events.{TripEventType, Payload, Impact, EventDecision, evaluate_trip_event}

-- `TripSession`; the events of the trip are a dictionary from event id to what is stored of them,
-- `audit` is what the `DecisionAuditLog` rows of transitions say, and `outbox` the events that were
-- put on the queue of the worker.
pub record Trip : Type 0 where
  pub state : TripState
  pub started_at : Option ℕ
  pub ended_at : Option ℕ
  pub tracking_enabled : Bool
  pub last_notification_at : Option ℕ
  pub cooldown_minutes : ℕ
  pub events : Dict String EventDecision
  pub audit : List (TripState × TripState)
  pub outbox : List (String × TripEventType)

abbrev pub is_over : TripState → Bool
is_over state = elem state (completed ∷ cancelled ∷ [])

-- POST /trips/{trip_id}/transition; `none` is the AppError 409.
unfoldable pub transition_trip : TripState → ℕ → Trip → Option Trip
transition_trip target now trip =
    if validate_transition trip.state target
    then some (record trip {
      state = target;
      started_at = elim (trip.started_at) [
        | none ↦ (if target == active_trip then some now else none)
        | some at ↦ some at
      ];
      ended_at = if is_over target then some now else trip.ended_at;
      tracking_enabled = if is_over target then false else trip.tracking_enabled;
      audit = trip.audit ++ (trip.state, target) ∷ [];
    })
    else none

-- POST /trips/{trip_id}/events: the answer says whether the event was known.
unfoldable pub ingest_event :
    String → TripEventType → Payload → ℕ → Trip → Bool × EventDecision × Trip
ingest_event event_id event_type payload now trip =
    let decision =
      evaluate_trip_event trip.state event_type payload trip.last_notification_at
        trip.cooldown_minutes now in
    elim (get event_id trip.events) [
      | some known ↦ (true, known, trip)
      | none ↦ (
        false,
        decision,
        record trip {
          state = decision.next_state;
          tracking_enabled = if is_over decision.next_state then false else trip.tracking_enabled;
          ended_at = if is_over decision.next_state then some now else trip.ended_at;
          last_notification_at =
              if decision.should_notify then some now else trip.last_notification_at;
          events = put event_id decision trip.events;
          outbox = trip.outbox ++ (event_id, event_type) ∷ [];
        },
      )
    ]
