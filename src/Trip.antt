-- ===== src/Trip.antt =====
-- The trip a user is on: its states (backend/app/services/agent_state.py), the events that change
-- them (backend/app/services/trip_events.py) and what the model may call in each
-- (backend/app/services/agent_policy.py). The enumerations are of backend/app/schemas/companion.py.
pub mod State
pub mod Events
pub mod Session
pub mod Policy
mod Examples
