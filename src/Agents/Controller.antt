-- ===== src/Agents/Controller.antt =====
-- backend/app/services/agent_controller.py: `AgentController.run_once`, the Companion on a trip, with
-- what it records of the tool calls, with the shared state of the trip where the controller has a
-- manager of it. The messages of the protocol trace are left out, except that the trace may raise,
-- and so are the snapshot and the deletion of the shared state.
pub mod Budget
pub mod Consent
pub mod Offline
pub mod Shared
use ai_planed_map.Prelude.{
  ℕ, zero, String, Bool, true, false, not, ◌&&◌, Option, none, some, List, [], ◌∷◌, ◌++◌, elem,
  length, if◌then◌else◌, is_some, ◌>>=◌, leb, ◌==◌, ◌||◌,
}
use ai_planed_map.Trip.State.{
  TripState, idle, discovering, clarifying, planning, plan_ready, active_trip, paused, off_route,
  at_risk, replanning, completed, cancelled, trip_state_eq,
}
use ai_planed_map.SharedState.Phase.{Phase, phase_eq}
use ai_planed_map.Trip.Policy.{
  ConsentScope, precise_location, background_location, share_location, save_preference,
  contact_person, PolicyReason, tool_not_registered, tool_not_allowed_in_state, allowed,
  missing_consent, evaluate_tool_policy,
}
use ai_planed_map.Agents.Registry.{AgentType, agent_eq}
use ai_planed_map.Agents.Runtime.{
  Json, StepStatus, RunStatus, Step, DecisionResult, Settings, AgentSpec, Request, Called, Ports,
}
use ai_planed_map.Agents.Runtime.Execute.{Result, execute}
use ai_planed_map.Agents.Decider.{Observations, decide_by_rule}

-- The values of the enumeration.
abbrev pub state_value : TripState → String
state_value idle = "IDLE"
state_value discovering = "DISCOVERING"
state_value clarifying = "CLARIFYING"
state_value planning = "PLANNING"
state_value plan_ready = "PLAN_READY"
state_value active_trip = "ACTIVE_TRIP"
state_value paused = "PAUSED"
state_value off_route = "OFF_ROUTE"
state_value at_risk = "AT_RISK"
state_value replanning = "REPLANNING"
state_value completed = "COMPLETED"
state_value cancelled = "CANCELLED"

abbrev pub scope_value : ConsentScope → String
scope_value precise_location = "precise_location"
scope_value background_location = "background_location"
scope_value share_location = "share_location"
scope_value save_preference = "save_preference"
scope_value contact_person = "contact_person"

-- The texts of the answers of `evaluate_tool_policy`.
abbrev pub reason_value : PolicyReason → String
reason_value tool_not_registered = "tool_not_registered"
reason_value tool_not_allowed_in_state = "tool_not_allowed_in_state"
reason_value allowed = "allowed"
reason_value (missing_consent precise_location) = "missing_consent:precise_location"
reason_value (missing_consent background_location) = "missing_consent:background_location"
reason_value (missing_consent share_location) = "missing_consent:share_location"
reason_value (missing_consent save_preference) = "missing_consent:save_preference"
reason_value (missing_consent contact_person) = "missing_consent:contact_person"

-- The closure of `run_once`: its second argument is the state of the request, which is the trip's.
unfoldable pub policy_evaluator :
    TripState → List ConsentScope → String → String → Bool × String × Bool
policy_evaluator state consents tool request_state =
    let (is_allowed, reason, confirmation_required) = evaluate_tool_policy tool state consents in
    (is_allowed, reason_value reason, confirmation_required)

-- The action by which the Companion updates the shared state.
unfoldable pub action_of : TripState → Phase → String
action_of state phase =
    if state == completed
    then "trip_completed"
    else if elem phase (Phase.plan_ready ∷ Phase.finalized ∷ [])
    then "trip_started"
    else "trip_event_processed"

-- `AgentRuntimeRequest.max_steps` is between 1 and 20.
abbrev pub max_steps_valid : Option ℕ → Bool
max_steps_valid none = true
max_steps_valid (some n) = leb 1 n && leb n 20

module _ (j : Json) where
  open j use {python, Value}
  open python use {Float}

  -- `AgentToolCall`
  pub record ToolCall : Type 0 where
    pub tool_name : String
    pub arguments : Option Value
    pub output : Option Value
    pub status : StepStatus
    pub error_type : Option String

  -- `AgentRun`
  pub record AgentRun : Type 0 where
    pub status : RunStatus
    pub input_tokens : ℕ
    pub output_tokens : ℕ
    pub estimated_cost_usd : Float
    pub fallback_used : Bool

  -- The rows of the tables that belong to an `AgentSession`.
  pub record AgentSession : Type 0 where
    pub model_name : String
    pub runs : List AgentRun
    pub calls : List ToolCall

  -- What the calls of the manager of the shared state answer, `none` or `false` where they raise: the
  -- revision at first, the observation with the Companion's view, the phase that is read after the
  -- run, the revision after an action of the Companion that expects one, and the audit.
  pub record SharedTask : Type 0 where
    pub initialize : Option ℕ
    pub read_for_agent : Value → Option Value
    pub read_phase : Result j → Option Phase
    pub update : ℕ → String → Result j → Option ℕ
    pub audit : Bool

  -- What `run_once` is given, and what it calls outside: the model, the context of the trip, the
  -- schemas of the tools, the tools, and whether the trace of a result can be built.
  pub record Visit : Type 0 where
    pub state : TripState
    pub consents : List ConsentScope
    pub observation : Value
    pub max_steps : Option ℕ
    pub decider : ℕ → Value → List (Step j) → Option (DecisionResult j)
    pub build_companion_context : Value → List (Step j) → Option Value
    pub validate_tool_arguments : String → Value → Option Value
    pub tool_executor : ℕ → String → Value → Called j
    pub shared_state : Option SharedTask
    pub persist_protocol_trace : Result j → Bool

  -- The visit with another observation.
  abbrev pub seen : Value → Visit → Visit
  seen observation visit = record visit { observation = observation }

  -- COMPANION_AGENT_SPEC
  unfoldable pub companion_spec : Float → AgentSpec j
  companion_spec max_cost_usd = record {
    agent_type = AgentType.companion;
    input_artifact_types = "trip_observation" ∷ [];
    max_steps = 4;
    max_input_tokens = 6000;
    max_output_tokens = 800;
    max_cost_usd = max_cost_usd;
  }

  -- The steps that are recorded as calls of tools.
  abbrev pub is_recorded : Step j → Bool
  is_recorded step = is_some step.tool && elim step.status [
    | StepStatus.finished ↦ false
    | StepStatus.budget_exceeded ↦ false
    | _ ↦ true
  ]

  abbrev pub error_type_of : Step j → Option String
  error_type_of step = elim step.status [
    | StepStatus.policy_denied ↦ step.reason
    | StepStatus.validation_failed ↦ step.reason
    | StepStatus.failed ↦ step.reason
    | _ ↦ none
  ]

  -- The loop over the steps of a result.
  abbrev pub recorded : List (Step j) → List ToolCall
  recorded [] = []
  recorded (step ∷ steps) =
      let rest = recorded steps in
      if not (is_recorded step) then rest else elim step.tool [
        | none ↦ rest
        | some tool ↦
            (record {
              tool_name = tool;
              arguments = step.arguments;
              output = step.output;
              status = step.status;
              error_type = error_type_of step;
            }
              ∷ rest)
      ]

  -- The runtime of `run_once`, with the decider by rules as its fallback.
  unfoldable pub ports_of : Observations j → Visit → Ports j
  ports_of reads visit = record {
    load_context = visit.build_companion_context;
    decider = visit.decider;
    fallback_decider = λ i context history. some (decide_by_rule j reads context history);
    policy_evaluator = policy_evaluator visit.state visit.consents;
    validate_tool_arguments = visit.validate_tool_arguments;
    tool_executor = visit.tool_executor;
    artifact_validator = λ status steps. true;
  }

  -- All calls of the session's runs count against the budget of the trip.
  unfoldable pub request_of : AgentSpec j → Visit → AgentSession → Request j
  request_of spec visit session = record {
    spec = spec;
    state = state_value visit.state;
    observation = visit.observation;
    input_artifact_type = "trip_observation";
    max_steps = visit.max_steps;
    tool_budget = record { run_calls = 0; task_calls = 0; scope_calls = length session.calls };
  }

  -- What is committed after a run.
  unfoldable pub committed : Result j → AgentSession → AgentSession
  committed r session = record {
    model_name = r.model_name;
    runs =
        session.runs
        ++ (record {
          status = r.status;
          input_tokens = r.input_tokens;
          output_tokens = r.output_tokens;
          estimated_cost_usd = r.estimated_cost_usd;
          fallback_used = r.fallback_used;
        }
            ∷ []);
    calls = session.calls ++ recorded r.steps;
  }

  -- Before the run: the revision of the shared state, where there is one, and the observation.
  unfoldable pub opened : Visit → Option (Option ℕ × Value)
  opened visit = elim visit.shared_state [
    | none ↦ some (none, visit.observation)
    | some task ↦ (do
      revision ← task.initialize
      observation ← task.read_for_agent visit.observation
      some (some revision, observation))
  ]

  -- The closure `shared_state_updater`, which the runtime calls at its end, and the audit.
  unfoldable pub shared : Visit → Option ℕ → Result j → Option (Result j)
  shared visit none r = some r
  shared visit (some revision) r = elim visit.shared_state [
    | none ↦ some r
    | some task ↦ (do
      phase ← task.read_phase r
      updated ← task.update revision (action_of visit.state phase) r
      if task.audit then some r else none)
  ]

  -- AgentController.run_once; `none` is an exception, after which nothing is committed.
  unfoldable pub run_once :
      Settings j
      → AgentSpec j
      → Observations j
      → Visit
      → AgentSession
      → Option (RunStatus × AgentSession)
  run_once settings spec reads visit session =
      if not (spec.agent_type == AgentType.companion) || not (max_steps_valid visit.max_steps)
      then none
      else (opened visit >>= λ first.
          execute j settings (ports_of reads (seen first.1 visit))
            (request_of spec (seen first.1 visit) session)
          >>= λ r. shared visit first.0 r >>= λ done.
              if visit.persist_protocol_trace r then some (r.status, committed r session) else none)
