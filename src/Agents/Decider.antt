-- ===== src/Agents/Decider.antt =====
-- backend/app/services/agent_decider.py: `RuleBasedAgentDecider`, which decides for the Companion where
-- no model can be called.
use ai_planed_map.Prelude.{
  String, Bool, not, ◌&&◌, Option, some, List, [], ◌∷◌, map, elem, string_eq, option_eq, ◌==◌,
  if◌then◌else◌,
}
use ai_planed_map.Agents.Runtime.{Json, Decision, finish, call_tool, DecisionResult, Step}

-- The event types that call for a look at the trip.
abbrev pub risk_events : List String
risk_events =
    "UserOffRoute" ∷ "ScheduleDelayDetected" ∷ "TrafficChanged" ∷ "DeadlineRiskDetected"
    ∷ "PoiStatusChanged" ∷ "WeatherAlertReceived" ∷ []

-- What the decider reads of an observation; `current_observation` is the dictionary of that name, or
-- else the observation itself.
pub record Observations (j : Json) : Type 0 where
  pub current_observation : j.Value → j.Value
  pub event_type : j.Value → String
  pub has_precise_location : j.Value → Bool
  pub no_arguments : j.Value
  pub reason_arguments : j.Value → j.Value

module _ (j : Json) (reads : Observations j) where
  open j use {python, Value}
  open python use {Float, literal}

  unfoldable pub used : Option String → List (Step j) → Bool
  used tool history = elem tool (map (λ (step : Step j). step.tool) history)

  -- The first rule that applies.
  unfoldable pub rule_decision : Value → List (Step j) → Decision j
  rule_decision observation history =
      let event = reads.current_observation observation in
      let event_type = reads.event_type event in
      let risk_event = elem event_type risk_events in
      if event_type == "WeatherAlertReceived" && not (used (some "get_weather") history)
      then call_tool "get_weather" reads.no_arguments "天气事件需要先读取实时降雨风险"
      else if risk_event && not (used (some "get_trip_state") history)
      then call_tool "get_trip_state" reads.no_arguments "先确认当前行程状态"
      else if risk_event
          && reads.has_precise_location event
          && not (used (some "get_current_location") history)
      then call_tool "get_current_location" reads.no_arguments "局部重规划需要最新位置"
      else if risk_event && not (used (some "propose_replan") history)
      then call_tool "propose_replan" (reads.reason_arguments event) "风险事件需要生成待确认的重规划方案"
      else finish "已完成必要的观察和建议"

  -- RuleBasedAgentDecider.decide
  unfoldable pub decide_by_rule : Value → List (Step j) → DecisionResult j
  decide_by_rule observation history = record {
    decision = rule_decision observation history;
    input_tokens = 0;
    output_tokens = 0;
    model_name = "rule-agent-v1";
    input_cost_per_million_usd = literal 0 0;
    output_cost_per_million_usd = literal 0 0;
  }
