-- ===== src/Trip/Events.antt =====
-- backend/app/services/trip_events.py: what an event means for a trip.
use ai_planed_map.Prelude.{
  ℕ, ◌+◌, ◌*◌, Bool, true, false, not, Option, none, some, List, [], ◌∷◌, String, ltb, leb,
  if◌then◌else◌, elem, string_eq,
}
use ai_planed_map.Prelude.Int.{ℤ, pos, negsuc}
use ai_planed_map.Trip.State.{TripState, off_route, at_risk, paused, active_trip, completed}

pub data TripEventType : Type 0 where
  location_updated schedule_delay traffic_changed weather_alert poi_status_changed : TripEventType
  user_off_route deadline_risk stop_completed stop_skipped user_paused : TripEventType
  user_resumed trip_completed : TripEventType

-- What is read of an event's payload: `int(payload.get(…) or 0)` of the two delays, and
-- `str(payload.get("severity") or "low").lower()`.
pub record Payload : Type 0 where
  pub delay_minutes : ℤ
  pub extra_minutes : ℤ
  pub severity : String

pub data Impact : Type 0 where
  no_impact high critical : Impact

-- The texts of `reason`, with the number that is put into them.
pub data Reason : Type 0 where
  no_hard_constraint off_current_route may_break_constraint weather_affects : Reason
  delayed : ℕ → Reason
  traffic_adds : ℕ → Reason
  trip_paused trip_resumed trip_done patch_if_infeasible : Reason

pub record Proposal : Type 0 where
  pub action : String
  pub reason : Reason
  pub requires_confirmation : Bool

pub record EventDecision : Type 0 where
  pub next_state : TripState
  pub impact_level : Impact
  pub should_notify : Bool
  pub reason : Reason
  pub proposals : List Proposal

-- max(0, n)
abbrev pub max_zero : ℤ → ℕ
max_zero (pos n) = n
max_zero (negsuc n) = 0

abbrev pub is_severe : String → Bool
is_severe severity = elem severity ("high" ∷ "severe" ∷ "extreme" ∷ [])

-- The `if event_type == …` chain: the impact, the next state and the reason.
unfoldable pub classify : TripState → TripEventType → Payload → Impact × TripState × Reason
classify current TripEventType.user_off_route p = (high, off_route, off_current_route)
classify current TripEventType.deadline_risk p = (critical, at_risk, may_break_constraint)
classify current TripEventType.poi_status_changed p = (critical, at_risk, may_break_constraint)
classify current TripEventType.schedule_delay p =
    let delay = max_zero p.delay_minutes in
    if leb 10 delay
    then ((if leb 30 delay then critical else high), at_risk, delayed delay)
    else (no_impact, current, no_hard_constraint)
classify current TripEventType.traffic_changed p =
    let delay = max_zero p.extra_minutes in
    if leb 10 delay
    then (high, at_risk, traffic_adds delay)
    else (no_impact, current, no_hard_constraint)
classify current TripEventType.weather_alert p =
    if is_severe p.severity
    then (high, at_risk, weather_affects)
    else (no_impact, current, no_hard_constraint)
classify current TripEventType.user_paused p = (no_impact, paused, trip_paused)
classify current TripEventType.user_resumed p = (no_impact, active_trip, trip_resumed)
classify current TripEventType.trip_completed p = (no_impact, completed, trip_done)
classify current TripEventType.location_updated p = (no_impact, current, no_hard_constraint)
classify current TripEventType.stop_completed p = (no_impact, current, no_hard_constraint)
classify current TripEventType.stop_skipped p = (no_impact, current, no_hard_constraint)

-- Clock readings are whole seconds; the difference of two may be negative in the source, so the
-- comparison is written as a sum.
abbrev pub cooldown_active : Option ℕ → ℕ → ℕ → Bool
cooldown_active none cooldown_minutes clock = false
cooldown_active (some last) cooldown_minutes clock = ltb clock (last + cooldown_minutes * 60)

abbrev pub proposals_for : Impact → Reason → List Proposal
proposals_for no_impact reason = []
proposals_for _ reason =
    record { action = "recalculate_remaining_plan"; reason = reason; requires_confirmation = false }
    ∷ record {
      action = "create_plan_patch";
      reason = patch_if_infeasible;
      requires_confirmation = true;
    }
    ∷ []

abbrev pub notify : Impact → Bool → Bool
notify critical cooling = true
notify high cooling = not cooling
notify no_impact cooling = false

unfoldable pub evaluate_trip_event :
    TripState → TripEventType → Payload → Option ℕ → ℕ → ℕ → EventDecision
evaluate_trip_event current event_type payload last_notification_at cooldown_minutes clock =
    let (impact, next_state, reason) = classify current event_type payload in
    record {
      next_state = next_state;
      impact_level = impact;
      should_notify = notify impact (cooldown_active last_notification_at cooldown_minutes clock);
      reason = reason;
      proposals = proposals_for impact reason;
    }
