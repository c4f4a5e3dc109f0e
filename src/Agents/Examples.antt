-- ===== src/Agents/Examples.antt =====
-- A trip at risk of rain, to which the theorems about the runtime and the controller apply.
use ai_planed_map.Prelude.{
  elem, ◌+◌, if◌then◌else◌, ◌*◌, ◌≤◌, ◌≡◌, refl, String, true, false, Option, none, some, List, [],
  ◌∷◌, Every, get_elem?, length, string_eq, arith,
}
use ai_planed_map.Trip.State.{at_risk, completed, trip_state_eq}
use ai_planed_map.Trip.Policy.{precise_location, evaluate_tool_policy}
use ai_planed_map.Route.Samples.{hundredths}
use ai_planed_map.Agents.Registry.{
  AgentType, InvocationMode, authorize, authorize_registered, capabilities, find_capability,
  names_for,
}
use ai_planed_map.Agents.Registry.Offered.{is_granted, listed_granted}
use ai_planed_map.Agents.Runtime.{
  scopes_of, Json, StepStatus, RunStatus, Step, Settings, Request, Ports, answer, DecisionResult,
  finish, make_step, model_budget_exceeded, tool_budget_exceeded, estimated_cost, authorize_tool,
}
use ai_planed_map.Agents.Runtime.Execute.{
  Result, run_loop, resume, started, concluded, step_limit, execute,
}
use ai_planed_map.Agents.Runtime.Loop.{
  emit, append_step, observed, fell_back, counted, decide, stop_with, not_taken, call_executor,
  requested, act, follow, turn,
}
use ai_planed_map.Agents.Runtime.Permitted.{Usable, called-Usable}
use ai_planed_map.Agents.Runtime.Outcome.{goes_on, Ends, execute-Ends}
use ai_planed_map.Agents.Runtime.Failures.{long_finish_raises}
use ai_planed_map.Agents.Decider.{Observations, used, rule_decision, decide_by_rule}
use ai_planed_map.Agents.Controller.{
  Visit, AgentSession, companion_spec, ports_of, request_of, policy_evaluator, committed, run_once,
  SharedTask, opened, shared, action_of,
}
use ai_planed_map.Agents.Controller.Consent.{
  reached_with_consent, reads_location_freely, acts_when_over,
}
use ai_planed_map.Agents.Controller.Budget.{calls_bounded, visit_all}
use ai_planed_map.Agents.Controller.Offline.{follows}
use ai_planed_map.SharedState.Phase.{Phase, phase_eq}
use ai_planed_map.SharedState.Types.{SharedState, ok}
use ai_planed_map.SharedState.Manager.{read, decode}
use ai_planed_map.RuntimeStore.JsonStore.{sound_get}
use ai_planed_map.RuntimeStore.Cache.{get_json}
use ai_planed_map.SharedState.Examples.{
  content as shared_content, json as shared_json, codec as shared_codec, store as shared_store,
  limits as shared_limits, ready, holding,
}
use ai_planed_map.Agents.Controller.Shared.{Sitting, task_of, completed_trip_raises}

-- A dictionary is a text.
abbrev texts : Json
texts = record {
  python = hundredths;
  Value = String;
  with_result = λ observation tool output. output;
  reason_value = λ reason. reason;
  error_result = λ code retryable tool. code;
  success_result = λ tool output. output;
}

abbrev weather_alerts : Observations texts
weather_alerts = record {
  current_observation = λ observation. observation;
  event_type = λ observation. "WeatherAlertReceived";
  has_precise_location = λ observation. true;
  no_arguments = "{}";
  reason_arguments = λ observation. "rain";
}

-- The defaults of backend/app/core/config.py.
abbrev defaults : Settings texts
defaults = record {
  max_agent_steps = 4;
  max_agent_input_tokens = 6000;
  max_agent_output_tokens = 800;
  max_agent_run_cost_usd = 5;
  max_agent_tool_calls_per_run = 4;
  max_agent_tool_calls_per_task = 8;
  max_agent_tool_calls_per_trip = 40;
  llm_input_cost_per_million_usd = 0;
  llm_output_cost_per_million_usd = 0;
}

-- A shared state of a trip that is under way.
abbrev under_way : SharedTask texts
under_way = record {
  initialize = some 4;
  read_for_agent = λ observation. some observation;
  read_phase = λ r. some Phase.in_trip;
  update = λ expected action r. if follows action Phase.in_trip then some (expected + 1) else none;
  audit = true;
}

-- No model answers, and every tool does.
abbrev rain : Visit texts
rain = record {
  state = at_risk;
  consents = precise_location ∷ [];
  observation = "rain";
  max_steps = none;
  decider = λ i context history. none;
  build_companion_context = λ observation history. some observation;
  validate_tool_arguments = λ tool arguments. some arguments;
  tool_executor = λ i tool arguments. answer "ok";
  shared_state = some under_way;
  persist_protocol_trace = λ r. true;
}

abbrev fresh : AgentSession texts
fresh = record { model_name = "none"; runs = []; calls = [] }

abbrev session_of : Option (RunStatus × AgentSession texts) → AgentSession texts
session_of none = fresh
session_of (some (status, session)) = session

unfoldable after : AgentSession texts
after = session_of (run_once texts defaults (companion_spec texts 5) weather_alerts rain fresh)

-- All four tools are called, and the limit is reached before the decider can finish.
returned :
    run_once texts defaults (companion_spec texts 5) weather_alerts rain fresh
    ≡ some (RunStatus.step_limit_reached, after)
unfolding after run_once opened shared action_of committed execute run_loop turn decide follow act
    requested call_executor not_taken stop_with make_step emit append_step observed fell_back
    counted resume concluded started step_limit ports_of request_of companion_spec policy_evaluator
    evaluate_tool_policy authorize_tool authorize authorize_registered find_capability capabilities
    decide_by_rule rule_decision used model_budget_exceeded tool_budget_exceeded estimated_cost
returned = refl

location_call :
    get_elem? after.calls 2
    ≡ some (record {
      tool_name = "get_current_location";
      arguments = some "{}";
      output = some "ok";
      status = StepStatus.succeeded;
      error_type = none;
    })
unfolding after run_once opened shared action_of committed execute run_loop turn decide follow act
    requested call_executor not_taken stop_with make_step emit append_step observed fell_back
    counted resume concluded started step_limit ports_of request_of companion_spec policy_evaluator
    evaluate_tool_policy authorize_tool authorize authorize_registered find_capability capabilities
    decide_by_rule rule_decision used model_budget_exceeded tool_budget_exceeded estimated_cost
location_call = refl

unfoldable rain_ports : Ports texts
rain_ports = ports_of texts weather_alerts rain

unfoldable rain_request : Request texts
rain_request = request_of texts (companion_spec texts 5) rain fresh

abbrev result_of : Option (Result texts) → Result texts
result_of none = record {
  status = RunStatus.succeeded;
  steps = [];
  events = [];
  input_tokens = 0;
  output_tokens = 0;
  estimated_cost_usd = 0;
  model_name = "none";
  fallback_used = false;
}
result_of (some r) = r

unfoldable result : Result texts
result = result_of (execute texts defaults rain_ports rain_request)

executed : execute texts defaults rain_ports rain_request ≡ some result
unfolding result rain_ports rain_request execute run_loop turn decide follow act requested
    call_executor not_taken stop_with make_step emit append_step observed fell_back counted resume
    concluded started step_limit ports_of request_of companion_spec policy_evaluator
    evaluate_tool_policy authorize_tool authorize authorize_registered find_capability capabilities
    decide_by_rule rule_decision used model_budget_exceeded tool_budget_exceeded estimated_cost
executed = refl

abbrev location_step : Step texts
location_step = record {
  step_index = 2;
  status = StepStatus.succeeded;
  reason = none;
  tool = some "get_current_location";
  arguments = some "{}";
  output = some "ok";
}

third_step : get_elem? result.steps 2 ≡ some location_step
unfolding result rain_ports rain_request execute run_loop turn decide follow act requested
    call_executor not_taken stop_with make_step emit append_step observed fell_back counted resume
    concluded started step_limit ports_of request_of companion_spec policy_evaluator
    evaluate_tool_policy authorize_tool authorize authorize_registered find_capability capabilities
    decide_by_rule rule_decision used model_budget_exceeded tool_budget_exceeded estimated_cost
third_step = refl

called-Usable_example :
    (tool : String) × (location_step.tool ≡ some tool)
    × Usable rain_ports.policy_evaluator rain_request.spec.agent_type tool rain_request.state
called-Usable_example =
    called-Usable texts defaults rain_ports rain_request result 2 location_step executed third_step
      refl

execute-Ends_example :
    (earlier : List (Step texts)) × Every (λ step. goes_on texts step ≡ true) earlier
    × Ends texts result.status (step_limit texts defaults rain_request) earlier result.steps
execute-Ends_example = execute-Ends texts defaults rain_ports rain_request result executed

reached_with_consent_example :
    ((evaluate_tool_policy "get_current_location" at_risk (precise_location ∷ [])).0 ≡ true)
    × ((evaluate_tool_policy "get_current_location" at_risk (precise_location ∷ [])).2 ≡ false)
    × (reads_location_freely at_risk (precise_location ∷ []) "get_current_location" ≡ false)
    × (acts_when_over at_risk "get_current_location" ≡ false)
reached_with_consent_example =
    reached_with_consent texts defaults (companion_spec texts 5) weather_alerts rain fresh after
      RunStatus.step_limit_reached 2 _ returned location_call refl

calls_bounded_example :
    (length
        (visit_all texts defaults
          (companion_spec texts 5)
          weather_alerts
          fresh
          (rain ∷ rain ∷ [])).calls
      ≤ 40)
    × (length
          (visit_all texts defaults
            (companion_spec texts 5)
            weather_alerts
            fresh
            (rain ∷ rain ∷ [])).calls
        ≤ 2 * 4)
calls_bounded_example =
    calls_bounded texts defaults (companion_spec texts 5) weather_alerts (rain ∷ rain ∷ []) fresh
      (omega arith)

-- 301 characters.
abbrev long_reason : String
long_reason =
    "xxxxxxxxxxxxxxxxxxxxxxxxxxxxxxxxxxxxxxxxxxxxxxxxxxxxxxxxxxxxxxxxxxxxxxxxxxxxxxxxxxxxxxxxxxxxxxxxxxxxxxxxxxxxxxxxxxxxxxxxxxxxxxxxxxxxxxxxxxxxxxxxxxxxxxxxxxxxxxxxxxxxxxxxxxxxxxxxxxxxxxxxxxxxxxxxxxxxxxxxxxxxxxxxxxxxxxxxxxxxxxxxxxxxxxxxxxxxxxxxxxxxxxxxxxxxxxxxxxxxxxxxxxxxxxxxxxxxxxxxxxxxxxxxxxxxxxxxxxxxx"

abbrev talkative : DecisionResult texts
talkative = record {
  decision = finish long_reason;
  input_tokens = 10;
  output_tokens = 10;
  model_name = "small";
  input_cost_per_million_usd = 0;
  output_cost_per_million_usd = 0;
}

abbrev talking : Visit texts
talking = record rain { decider = λ i context history. some talkative }

unfoldable talking_ports : Ports texts
talking_ports = ports_of texts weather_alerts talking

long_finish_raises_example : execute texts defaults talking_ports rain_request ≡ none
unfolding talking_ports rain_request ports_of request_of companion_spec model_budget_exceeded
    estimated_cost counted started step_limit
long_finish_raises_example =
    long_finish_raises texts defaults talking_ports rain_request "rain" talkative long_reason refl
      refl refl refl refl (omega arith)

listed_granted_example :
    elem "get_weather" (names_for AgentType.companion InvocationMode.agent_callable)
    ≡ is_granted (
        authorize AgentType.companion "get_weather" InvocationMode.agent_callable
          (scopes_of (find_capability "get_weather")))
listed_granted_example =
    listed_granted AgentType.companion InvocationMode.agent_callable "get_weather"

-- The shared state as the manager creates it for a trip with a plan.
abbrev planned : SharedState shared_content
planned = record ready { body = record ready.body { phase = Phase.plan_ready } }

abbrev first_visit :
    Sitting texts shared_content shared_json shared_codec shared_store shared_limits
first_visit = record {
  task_id = "t";
  route_plan = none;
  wall = 10;
  now = 10;
  at_first = holding planned;
  at_view = holding planned;
  at_read = holding planned;
  at_update = holding planned;
  at_commit = holding planned;
  at_audit = holding planned;
  with_view = λ observation view. observation;
  execution_context = λ r. 1;
}

abbrev arrived : Visit texts
arrived = record rain {
  state = completed;
  shared_state = some (
      task_of texts shared_content shared_json shared_codec shared_store shared_limits first_visit);
}

read-planned :
    (read shared_content shared_json shared_codec shared_store shared_limits "t" 10
      (holding planned)).0
    ≡ ok planned
unfolding read decode sound_get get_json
read-planned = refl

completed_trip_raises_example :
    run_once texts defaults (companion_spec texts 5) weather_alerts arrived fresh ≡ none
completed_trip_raises_example =
    completed_trip_raises texts shared_content shared_json shared_codec shared_store shared_limits
      defaults (companion_spec texts 5) weather_alerts arrived fresh first_visit planned refl refl
      read-planned refl
