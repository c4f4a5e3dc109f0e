-- ===== src/Trip/Session/Laws.antt =====
-- What the endpoints that change a trip keep, and the one that passes the state machine by.
use ai_planed_map.Prelude.{
  ℕ, ◌+◌, ◌*◌, ◌≤◌, ◌≡◌, ◌≢◌, refl, true, false, none, some, List, [], ◌∷◌, ◌++◌, String, arith,
  Option-cases, inl, inr, string_eq,
}
use ai_planed_map.Prelude.Dict.{get, get-put}
use ai_planed_map.Trip.State.{TripState, active_trip, cancelled, validate_transition, trip_state_eq}
use ai_planed_map.Trip.Events.{
  TripEventType, Payload, critical, EventDecision, evaluate_trip_event, classify,
}
use ai_planed_map.Trip.Session.{Trip, is_over, transition_trip, ingest_event}

transition_over :
    (state target : TripState) → is_over state ≡ true → validate_transition state target ≡ false
unfolding validate_transition
transition_over TripState.idle target h = cc
transition_over _ target h = ground arith

unfoldable pub run : List (TripState × ℕ) → Trip → Trip
run [] trip = trip
run ((target, now) ∷ requests) trip =
    run requests (elim (transition_trip target now trip) [ none ↦ trip | some next ↦ next ])

-- A completed or cancelled trip is not changed by any sequence of transition requests.
pub over_absorbs :
    (requests : List (TripState × ℕ)) (trip : Trip)
    → is_over trip.state ≡ true
    → run requests trip ≡ trip
unfolding run transition_trip
over_absorbs [] trip h = refl
over_absorbs ((target, now) ∷ requests) trip h =
    rw (transition_over trip.state target h) (over_absorbs requests trip h)

can_cancel :
    (state : TripState) → is_over state ≡ false → validate_transition state cancelled ≡ true
unfolding validate_transition
can_cancel TripState.idle h = refl
can_cancel _ h = ground arith

-- A trip that is not over can be cancelled at any time, which ends it, stops its tracking and is
-- written to the audit log.
pub cancel_anytime :
    (trip : Trip) (now : ℕ)
    → is_over trip.state ≡ false
    → (next : Trip) × (transition_trip cancelled now trip ≡ some next)
      × (next.state ≡ cancelled)
      × (next.ended_at ≡ some now)
      × (next.tracking_enabled ≡ false)
      × (next.audit ≡ trip.audit ++ (trip.state, cancelled) ∷ [])
unfolding transition_trip
cancel_anytime trip now h = (
  record trip {
    state = cancelled;
    started_at = elim (trip.started_at) [ none ↦ none | some at ↦ some at ];
    ended_at = some now;
    tracking_enabled = false;
    audit = trip.audit ++ (trip.state, cancelled) ∷ [];
  },
  rw (can_cancel trip.state h),
  refl,
  refl,
  refl,
  refl,
)

ingest_known :
    (event_id : String) (event_type : TripEventType) (p : Payload) (now : ℕ) (known : EventDecision)
    (trip : Trip)
    → get event_id trip.events ≡ some known
    → ingest_event event_id event_type p now trip ≡ (true, known, trip)
unfolding ingest_event
ingest_known event_id event_type p now known trip e = rw (e, ingest_event)

ingest_stores :
    (event_id : String) (event_type : TripEventType) (p : Payload) (now : ℕ) (trip : Trip)
    → get event_id (ingest_event event_id event_type p now trip).2.events
      ≡ some (ingest_event event_id event_type p now trip).1
unfolding ingest_event
ingest_stores event_id event_type p now trip = elim (Option-cases (get event_id trip.events)) [
  | inl e ↦ ground (
    arith,
    string_eq.beq_iff event_id event_id,
    get-put event_id event_id
        (evaluate_trip_event trip.state event_type p trip.last_notification_at trip.cooldown_minutes
          now)
        trip.events,
  )
  | inr (known, e) ↦ ground arith
]

-- An event that is delivered a second time, whatever it then says, changes nothing and is answered
-- with the first decision.
pub ingest_event_twice :
    (event_id : String) (first second : TripEventType) (p q : Payload) (now later : ℕ) (trip : Trip)
    → let once = ingest_event event_id first p now trip in
      ingest_event event_id second q later once.2 ≡ (true, once.1, once.2)
ingest_event_twice event_id first second p q now later trip =
    ingest_known event_id second q later (ingest_event event_id first p now trip).1
      (ingest_event event_id first p now trip).2 (ingest_stores event_id first p now trip)

-- A notification for an event that is not critical is only ever due when the cooldown since the last
-- notification is over, and it starts the cooldown again.
pub ingest_event_cooldown :
    (event_id : String) (event_type : TripEventType) (p : Payload) (now last : ℕ) (trip : Trip)
    → get event_id trip.events ≡ none
    → trip.last_notification_at ≡ some last
    → (ingest_event event_id event_type p now trip).1.should_notify ≡ true
    → (ingest_event event_id event_type p now trip).1.impact_level ≢ critical
    → (last + trip.cooldown_minutes * 60 ≤ now)
      × ((ingest_event event_id event_type p now trip).2.last_notification_at ≡ some now)
unfolding ingest_event evaluate_trip_event
ingest_event_cooldown event_id event_type p now last trip unknown notified due mild = ground arith

-- The `user_resumed` event makes a trip active again that is completed or cancelled, which the state
-- machine denies; the end of the trip stays recorded.
pub ingest_event_reopens :
    (event_id : String) (p : Payload) (now : ℕ) (trip : Trip)
    → is_over trip.state ≡ true
    → get event_id trip.events ≡ none
    → let next = (ingest_event event_id TripEventType.user_resumed p now trip).2 in
      (next.state ≡ active_trip)
      × (validate_transition trip.state active_trip ≡ false)
      × (next.ended_at ≡ trip.ended_at)
unfolding ingest_event evaluate_trip_event classify
ingest_event_reopens event_id p now trip over unknown = (
  rw (unknown, ingest_event) refl,
  transition_over trip.state active_trip over,
  rw (unknown, ingest_event) refl,
)
