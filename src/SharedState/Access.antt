-- ===== src/SharedState/Access.antt =====
-- Who may do what to a shared task state: the tables `WRITE_FIELDS`, `READ_FIELDS`, `ACTION_PHASE`
-- and `ACTION_ACTORS` of backend/app/services/agent_shared_state.py.
use ai_planed_map.Prelude.{Option, none, some, List, [], ◌∷◌, String, string_eq}
use ai_planed_map.Prelude.Dict.{Dict}
use ai_planed_map.SharedState.Phase.{
  AgentType, supervisor, intent, search, safety, planner, critic, companion, replanner, Phase,
  intent_ready, search_ready, safety_ready, plan_ready, reviewed, retrying, finalized, in_trip,
  completed, failed,
}

-- `none` where the table has no entry for the agent.
abbrev pub write_fields : AgentType → Option (List String)
write_fields supervisor = some ("soft_adjustments" ∷ "execution_context" ∷ [])
write_fields intent = some ("user_requirement" ∷ "clarification_questions" ∷ [])
write_fields search = some ("poi_candidates" ∷ [])
write_fields safety = some ("execution_context" ∷ [])
write_fields planner = some ("route_plan" ∷ [])
write_fields critic = some ("evaluation_result" ∷ [])
write_fields companion = some ("execution_context" ∷ [])
write_fields replanner = none

abbrev pub read_fields : AgentType → Option (List String)
read_fields supervisor = some (
    "user_requirement" ∷ "clarification_questions" ∷ "poi_candidates" ∷ "route_plan"
    ∷ "evaluation_result" ∷ "soft_adjustments" ∷ "execution_context" ∷ "execution_history" ∷ [])
read_fields intent = some ("user_requirement" ∷ "clarification_questions" ∷ [])
read_fields search = some ("user_requirement" ∷ "soft_adjustments" ∷ [])
read_fields safety = some ("user_requirement" ∷ "poi_candidates" ∷ "execution_context" ∷ [])
read_fields planner =
    some ("user_requirement" ∷ "poi_candidates" ∷ "soft_adjustments" ∷ "execution_context" ∷ [])
read_fields critic = some ("user_requirement" ∷ "route_plan" ∷ [])
read_fields companion =
    some ("route_plan" ∷ "evaluation_result" ∷ "execution_context" ∷ "execution_history" ∷ [])
read_fields replanner = none

abbrev pub action_phase : Dict String Phase
action_phase =
    ("intent_analyzed", intent_ready)
    ∷ ("search_completed", search_ready)
    ∷ ("safety_checked", safety_ready)
    ∷ ("plan_completed", plan_ready)
    ∷ ("critic_reviewed", reviewed)
    ∷ ("soft_retry_scheduled", retrying)
    ∷ ("recovery_applied", retrying)
    ∷ ("workflow_finalized", finalized)
    ∷ ("workflow_failed", failed)
    ∷ ("trip_started", in_trip)
    ∷ ("trip_event_processed", in_trip)
    ∷ ("trip_completed", completed)
    ∷ []

abbrev pub action_actors : Dict String (List AgentType)
action_actors =
    ("intent_analyzed", intent ∷ [])
    ∷ ("search_completed", search ∷ [])
    ∷ ("safety_checked", safety ∷ [])
    ∷ ("plan_completed", planner ∷ [])
    ∷ ("critic_reviewed", critic ∷ [])
    ∷ ("soft_retry_scheduled", supervisor ∷ [])
    ∷ ("recovery_applied", supervisor ∷ [])
    ∷ ("workflow_finalized", supervisor ∷ [])
    ∷ ("workflow_failed", supervisor ∷ [])
    ∷ ("trip_started", companion ∷ [])
    ∷ ("trip_event_processed", companion ∷ [])
    ∷ ("trip_completed", companion ∷ [])
    ∷ []
