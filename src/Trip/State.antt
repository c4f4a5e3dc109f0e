-- ===== src/Trip/State.antt =====
-- backend/app/services/agent_state.py: the trip states and the transitions that a user may ask for.
use ai_planed_map.Prelude.{
  ℕ, zero, suc, ◌≡◌, refl, Bool, List, [], ◌∷◌, Eq, nat_beq, index_beq_iff, elem,
}

pub data TripState : Type 0 where
  idle discovering clarifying planning plan_ready active_trip : TripState
  paused off_route at_risk replanning completed cancelled : TripState

abbrev pub index : TripState → ℕ
index idle = 0
index discovering = 1
index clarifying = 2
index planning = 3
index plan_ready = 4
index active_trip = 5
index paused = 6
index off_route = 7
index at_risk = 8
index replanning = 9
index completed = 10
index cancelled = 11

abbrev pub member : ℕ → TripState
member zero = idle
member (suc zero) = discovering
member (suc (suc zero)) = clarifying
member (suc (suc (suc zero))) = planning
member (suc (suc (suc (suc zero)))) = plan_ready
member (suc (suc (suc (suc (suc zero))))) = active_trip
member (suc (suc (suc (suc (suc (suc zero)))))) = paused
member (suc (suc (suc (suc (suc (suc (suc zero))))))) = off_route
member (suc (suc (suc (suc (suc (suc (suc (suc zero)))))))) = at_risk
member (suc (suc (suc (suc (suc (suc (suc (suc (suc zero))))))))) = replanning
member (suc (suc (suc (suc (suc (suc (suc (suc (suc (suc zero)))))))))) = completed
member (suc (suc (suc (suc (suc (suc (suc (suc (suc (suc (suc n))))))))))) = cancelled

pub member-index : (s : TripState) → member (index s) ≡ s
member-index idle = refl
member-index _ = refl

instance abbrev pub trip_state_eq : Eq TripState
trip_state_eq = record {
  beq = λ a b. nat_beq (index a) (index b);
  beq_iff = index_beq_iff index member member-index;
}

-- ALLOWED_TRANSITIONS
abbrev pub allowed_transitions : TripState → List TripState
allowed_transitions idle = discovering ∷ plan_ready ∷ cancelled ∷ []
allowed_transitions discovering = clarifying ∷ planning ∷ cancelled ∷ []
allowed_transitions clarifying = planning ∷ cancelled ∷ []
allowed_transitions planning = plan_ready ∷ clarifying ∷ cancelled ∷ []
allowed_transitions plan_ready = active_trip ∷ cancelled ∷ []
allowed_transitions active_trip = paused ∷ off_route ∷ at_risk ∷ completed ∷ cancelled ∷ []
allowed_transitions paused = active_trip ∷ completed ∷ cancelled ∷ []
allowed_transitions off_route = replanning ∷ active_trip ∷ completed ∷ cancelled ∷ []
allowed_transitions at_risk = replanning ∷ active_trip ∷ completed ∷ cancelled ∷ []
allowed_transitions replanning = active_trip ∷ at_risk ∷ completed ∷ cancelled ∷ []
allowed_transitions completed = []
allowed_transitions cancelled = []

-- `validate_transition`, true where it raises nothing.
unfoldable pub validate_transition : TripState → TripState → Bool
validate_transition current target = elem target (allowed_transitions current)
