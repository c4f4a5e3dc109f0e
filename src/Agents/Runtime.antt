-- ===== src/Agents/Runtime.antt =====
-- backend/app/services/agent_runtime.py: the bounded tool loop of `AgentRuntime.execute`, up to its
-- result. What is called from outside (the models, the tools, the policy of the role, the schemas of
-- arguments) is a record of functions; a call of a model or of a tool takes the index of its step, so
-- that each call may answer differently.
pub mod Loop
pub mod Turns
pub mod Induction
pub mod Permitted
pub mod Outcome
pub mod Returns
pub mod Failures
pub mod Execute
use Prim.Native.String.{count}
use ai_planed_map.Prelude.{
  ℕ, zero, suc, ◌+◌, ◌*◌, ◌^◌, min, String, Bool, true, false, not, ◌&&◌, ◌||◌, Option, none, some,
  List, [], ◌∷◌, ◌++◌, leb, ltb, if◌then◌else◌, elem, length, string_eq, ◌==◌, ◌>>=◌, is_some,
  how_many,
}
use ai_planed_map.Route.Types.{Python}
use ai_planed_map.Agents.Registry.{
  AgentType, InvocationMode, DataScope, AgentCapability, Denial, tool_not_registered,
  tool_not_allowed_for_agent, invocation_mode_not_allowed, data_scope_not_allowed, Authorization,
  denied, granted, find_capability, authorize,
}

-- The dictionaries that are handed on: an observation with the last tool and its output in it, and
-- the outputs of `tool_result_error`, `tool_result_success` and of a denial.
pub record Json : Type 1 where
  pub python : Python
  pub Value : Type 0
  pub with_result : Value → String → Value → Value
  pub reason_value : String → Value
  pub error_result : (code : String) (retryable : Bool) (tool : Option String) → Value
  pub success_result : String → Value → Value

pub data StepStatus : Type 0 where
  finished policy_denied validation_failed succeeded failed budget_exceeded : StepStatus

pub data RunStatus : Type 0 where
  succeeded budget_exceeded tool_failed step_limit_reached : RunStatus

pub data Event : Type 0 where
  input_loaded artifact_emitted : Event
  model_fallback decision : (step_index : ℕ) → Event
  tool_request : (step_index : ℕ) (tool : String) → Event
  tool_result : (step_index : ℕ) (tool : String) (status : StepStatus) → Event

-- `ToolBudgetSnapshot`
pub record ToolBudget : Type 0 where
  pub run_calls : ℕ
  pub task_calls : ℕ
  pub scope_calls : ℕ

abbrev pub denial_reason : Denial → String
denial_reason tool_not_registered = "tool_not_registered"
denial_reason tool_not_allowed_for_agent = "tool_not_allowed_for_agent"
denial_reason invocation_mode_not_allowed = "invocation_mode_not_allowed"
denial_reason data_scope_not_allowed = "data_scope_not_allowed"

abbrev pub scopes_of : Option AgentCapability → List DataScope
scopes_of none = []
scopes_of (some c) = c.data_scopes

-- `authorize_tool`: whether the call is allowed, why, and whether the user must confirm it.
unfoldable pub authorize_tool :
    (policy : String → String → Bool × String × Bool)
    → AgentType
    → (tool state : String) → Bool × String × Bool
authorize_tool policy agent tool state =
    elim (authorize agent tool InvocationMode.agent_callable (scopes_of (find_capability tool))) [
      | denied d ↦ (false, denial_reason d, false)
      | granted c ↦ policy tool state
    ]

module _ (j : Json) where
  open j use {python, Value, with_result, reason_value, error_result, success_result}
  open python use {Float, literal, plus, times, divided, less, truth}

  pub data Decision : Type 0 where
    finish : (reason : String) → Decision
    call_tool : (tool : String) (arguments : Value) (reason : String) → Decision

  pub record DecisionResult : Type 0 where
    pub decision : Decision
    pub input_tokens : ℕ
    pub output_tokens : ℕ
    pub model_name : String
    pub input_cost_per_million_usd : Float
    pub output_cost_per_million_usd : Float

  -- `AgentRuntimeStep`
  pub record Step : Type 0 where
    pub step_index : ℕ
    pub status : StepStatus
    pub reason : Option String
    pub tool : Option String
    pub arguments : Option Value
    pub output : Option Value

  pub record Settings : Type 0 where
    pub max_agent_steps : ℕ
    pub max_agent_input_tokens : ℕ
    pub max_agent_output_tokens : ℕ
    pub max_agent_run_cost_usd : Float
    pub max_agent_tool_calls_per_run : ℕ
    pub max_agent_tool_calls_per_task : ℕ
    pub max_agent_tool_calls_per_trip : ℕ
    pub llm_input_cost_per_million_usd : Float
    pub llm_output_cost_per_million_usd : Float

  -- `AgentSpec` with its `AgentBudget`.
  pub record AgentSpec : Type 0 where
    pub agent_type : AgentType
    pub input_artifact_types : List String
    pub max_steps : ℕ
    pub max_input_tokens : ℕ
    pub max_output_tokens : ℕ
    pub max_cost_usd : Float

  pub record Request : Type 0 where
    pub spec : AgentSpec
    pub state : String
    pub observation : Value
    pub input_artifact_type : String
    pub max_steps : Option ℕ
    pub tool_budget : ToolBudget

  -- What a tool answers; `error` is `stable_tool_error` of an exception.
  pub data Called : Type 0 where
    answer : Value → Called
    error : (code : String) → Called

  -- `none` is an exception.
  pub record Ports : Type 0 where
    pub load_context : Value → List Step → Option Value
    pub decider : ℕ → Value → List Step → Option DecisionResult
    pub fallback_decider : ℕ → Value → List Step → Option DecisionResult
    pub policy_evaluator : String → String → Bool × String × Bool
    pub validate_tool_arguments : String → Value → Option Value
    pub tool_executor : ℕ → String → Value → Called
    pub artifact_validator : RunStatus → List Step → Bool

  -- The variables of the loop.
  pub record Run : Type 0 where
    pub steps : List Step
    pub history : List Step
    pub events : List Event
    pub observation : Value
    pub input_tokens : ℕ
    pub output_tokens : ℕ
    pub fallback_used : Bool
    pub model_name : String
    pub input_cost_per_million_usd : Float
    pub output_cost_per_million_usd : Float

  -- The bounds on the lengths of `AgentRuntimeStep.reason` and of `tool`.
  abbrev pub short : ℕ → Option String → Bool
  short limit none = true
  short limit (some text) = leb (count text) limit

  -- Pydantic's check of the bounds; `none` is its `ValidationError`.
  unfoldable pub make_step : Step → Option Step
  make_step step = if short 300 step.reason && short 80 step.tool then some step else none

  abbrev pub price_or : Float → Float → Float
  price_or price default = if truth price then price else default

  -- `_estimated_cost`
  unfoldable pub estimated_cost : Settings → Run → Float
  estimated_cost settings run =
      divided
        (plus
          (times (literal run.input_tokens 0)
            (price_or run.input_cost_per_million_usd settings.llm_input_cost_per_million_usd))
          (times (literal run.output_tokens 0)
            (price_or run.output_cost_per_million_usd settings.llm_output_cost_per_million_usd)))
        (literal (10 ^ 6) 0)

  -- min(a, b)
  abbrev pub least_cost : Float → Float → Float
  least_cost a b = if less b a then b else a

  -- `_model_budget_exceeded`
  unfoldable pub model_budget_exceeded : Settings → AgentSpec → Run → Bool
  model_budget_exceeded settings spec run =
      ltb (min settings.max_agent_input_tokens spec.max_input_tokens) run.input_tokens
      || ltb (min settings.max_agent_output_tokens spec.max_output_tokens) run.output_tokens
      || less (least_cost settings.max_agent_run_cost_usd spec.max_cost_usd)
          (estimated_cost settings run)

  -- `len([item for item in steps if item.tool])`
  abbrev pub tool_steps : List Step → ℕ
  tool_steps steps = how_many (λ (step : Step). is_some step.tool) steps

  -- `_tool_budget_exceeded`
  unfoldable pub tool_budget_exceeded : Settings → ToolBudget → ℕ → Bool
  tool_budget_exceeded settings budget local_calls =
      leb settings.max_agent_tool_calls_per_run (budget.run_calls + local_calls)
      || leb settings.max_agent_tool_calls_per_task (budget.task_calls + local_calls)
      || leb settings.max_agent_tool_calls_per_trip (budget.scope_calls + local_calls)
