-- ===== src/Trip/Policy.antt =====
-- backend/app/services/agent_policy.py: the tools that the model may select, by state and consent.
use ai_planed_map.Prelude.{
  ℕ, zero, suc, ◌≡◌, refl, Bool, true, false, not, ◌&&◌, Option, none, some, List, [], ◌∷◌, String,
  if◌then◌else◌, Eq, nat_beq, index_beq_iff, elem, string_eq, arith,
}
use ai_planed_map.Prelude.Dict.{Dict, get}
use ai_planed_map.Trip.State.{
  TripState, idle, discovering, clarifying, planning, plan_ready, active_trip, paused, off_route,
  at_risk, replanning, completed, cancelled, trip_state_eq,
}

pub data ConsentScope : Type 0 where
  precise_location background_location share_location save_preference contact_person : ConsentScope

abbrev pub scope_index : ConsentScope → ℕ
scope_index precise_location = 0
scope_index background_location = 1
scope_index share_location = 2
scope_index save_preference = 3
scope_index contact_person = 4

abbrev pub scope_member : ℕ → ConsentScope
scope_member zero = precise_location
scope_member (suc zero) = background_location
scope_member (suc (suc zero)) = share_location
scope_member (suc (suc (suc zero))) = save_preference
scope_member (suc (suc (suc (suc n)))) = contact_person

pub scope_member-scope_index : (s : ConsentScope) → scope_member (scope_index s) ≡ s
scope_member-scope_index precise_location = refl
scope_member-scope_index _ = refl

instance abbrev pub scope_eq : Eq ConsentScope
scope_eq = record {
  beq = λ a b. nat_beq (scope_index a) (scope_index b);
  beq_iff = index_beq_iff scope_index scope_member scope_member-scope_index;
}

pub record ToolPolicy : Type 0 where
  pub allowed_states : List TripState
  pub confirmation_required : Bool
  pub consent_scope : Option ConsentScope

-- frozenset(TripState)
abbrev pub all_states : List TripState
all_states =
    idle ∷ discovering ∷ clarifying ∷ planning ∷ plan_ready ∷ active_trip ∷ paused ∷ off_route
    ∷ at_risk ∷ replanning ∷ completed ∷ cancelled ∷ []

abbrev pub tool_policies : Dict String ToolPolicy
tool_policies =
    (
      "get_trip_state",
      record { allowed_states = all_states; confirmation_required = false; consent_scope = none },
    )
    ∷ (
      "get_weather",
      record {
        allowed_states = plan_ready ∷ active_trip ∷ at_risk ∷ off_route ∷ replanning ∷ [];
        confirmation_required = false;
        consent_scope = none;
      },
    )
    ∷ (
      "get_current_location",
      record {
        allowed_states = active_trip ∷ off_route ∷ at_risk ∷ replanning ∷ [];
        confirmation_required = false;
        consent_scope = some precise_location;
      },
    )
    ∷ (
      "propose_replan",
      record {
        allowed_states = active_trip ∷ off_route ∷ at_risk ∷ replanning ∷ [];
        confirmation_required = false;
        consent_scope = none;
      },
    )
    ∷ []

pub data PolicyReason : Type 0 where
  tool_not_registered tool_not_allowed_in_state allowed : PolicyReason
  missing_consent : ConsentScope → PolicyReason

abbrev pub lacks_consent : List ConsentScope → Option ConsentScope → Option ConsentScope
lacks_consent granted none = none
lacks_consent granted (some scope) = if elem scope granted then none else some scope

unfoldable pub evaluate_tool_policy :
    String → TripState → List ConsentScope → Bool × PolicyReason × Bool
evaluate_tool_policy tool state granted = elim (get tool tool_policies) [
  | none ↦ (false, tool_not_registered, false)
  | some policy ↦
      if not (elem state policy.allowed_states)
      then (false, tool_not_allowed_in_state, policy.confirmation_required)
      else elim (lacks_consent granted policy.consent_scope) [
        | some scope ↦ (false, missing_consent scope, policy.confirmation_required)
        | none ↦ (true, allowed, policy.confirmation_required)
      ]
]

-- Once a trip is over the model may select no tool but the one that reads the trip's state.
pub over_allows_state_only :
    (tool : String) (state : TripState) (granted : List ConsentScope)
    → elem state (completed ∷ cancelled ∷ []) ≡ true
    → (evaluate_tool_policy tool state granted).0 ≡ true
    → tool ≡ "get_trip_state"
unfolding evaluate_tool_policy
over_allows_state_only tool completed granted over ok =
    ground (arith, string_eq.beq_iff "get_trip_state" tool)
over_allows_state_only tool cancelled granted over ok =
    ground (arith, string_eq.beq_iff "get_trip_state" tool)
over_allows_state_only tool _ granted over ok = cc

-- The model may select the tool that reads the precise location exactly where the trip is under way
-- and the user has granted that scope.
pub location_needs_consent :
    (state : TripState) (granted : List ConsentScope)
    → (evaluate_tool_policy "get_current_location" state granted).0 ≡ (
        elem state (active_trip ∷ off_route ∷ at_risk ∷ replanning ∷ [])
        && elem precise_location granted)
unfolding evaluate_tool_policy
location_needs_consent state granted = ground arith
