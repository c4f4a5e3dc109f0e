-- ===== src/Agents/Runtime/Loop.antt =====
-- backend/app/services/agent_runtime.py: one turn of the loop of `AgentRuntime.execute`, the loop, and
-- what `execute` does around it up to the artifact. `none` is an exception that leaves `execute`.
use ai_planed_map.Prelude.{
  ℕ, ◌+◌, String, Bool, true, false, not, ◌||◌, Option, none, some, [], ◌∷◌, ◌++◌, if◌then◌else◌,
  string_eq, ◌>>=◌, ◌==◌,
}
use ai_planed_map.Agents.Runtime.{
  Json, StepStatus, RunStatus, Event, authorize_tool, Decision, finish, call_tool, DecisionResult,
  Step, Settings, Request, answer, error, Ports, Run, make_step, tool_steps, model_budget_exceeded,
  tool_budget_exceeded,
}

module _ (j : Json) where
  open j use {python, Value, with_result, reason_value, error_result, success_result}
  open python use {Float, literal}

  -- How a turn ends: by `break`, or with the next turn.
  pub data Turn : Type 0 where
    ended : RunStatus → Run j → Turn
    going : Run j → Turn

  unfoldable pub emit : Event → Run j → Run j
  emit event run = record run { events = run.events ++ (event ∷ []) }

  -- `steps.append`
  unfoldable pub append_step : Step j → Run j → Run j
  append_step step run = record run { steps = run.steps ++ (step ∷ []) }

  -- What follows a step with an output: the history, the observation and the trace.
  unfoldable pub observed : ℕ → String → Value → Step j → Run j → Run j
  observed i tool output step run = record run {
    steps = run.steps ++ (step ∷ []);
    history = run.history ++ (step ∷ []);
    events = run.events ++ (Event.tool_result i tool step.status ∷ []);
    observation = with_result run.observation tool output;
  }

  -- The fallback is used from here on.
  unfoldable pub fell_back : ℕ → Run j → Run j
  fell_back i run = record run {
    events = run.events ++ (Event.model_fallback i ∷ []);
    fallback_used = true;
  }

  -- The tokens are added up; the name and the prices of the model are those of the last decision.
  unfoldable pub counted : DecisionResult j → Run j → Run j
  counted result run = record run {
    input_tokens = run.input_tokens + result.input_tokens;
    output_tokens = run.output_tokens + result.output_tokens;
    model_name = result.model_name;
    input_cost_per_million_usd = result.input_cost_per_million_usd;
    output_cost_per_million_usd = result.output_cost_per_million_usd;
  }

  -- The decision of the model, or else of the fallback, and the run that counts it.
  unfoldable pub decide : Ports j → ℕ → Value → Run j → Option (Decision j × Run j)
  decide ports i context run = elim (ports.decider i context run.history) [
    | some result ↦ some (result.decision, counted result run)
    | none ↦ ports.fallback_decider i context run.history >>= λ result.
        some (result.decision, counted result (fell_back i run))
  ]

  -- A step without an output, which ends the loop.
  unfoldable pub stop_with : RunStatus → Step j → Run j → Option Turn
  stop_with status step run =
      make_step j step >>= λ made. some (ended status (append_step made run))

  -- A step that is not taken, which the model is told of.
  unfoldable pub not_taken :
      (i : ℕ) (status : StepStatus) (reason tool : String) (arguments output : Value)
      → Run j
      → Option Turn
  not_taken i status reason tool arguments output run =
      make_step j (record {
        step_index = i;
        status = status;
        reason = some reason;
        tool = some tool;
        arguments = some arguments;
        output = some output;
      })
      >>= λ step. some (going (observed i tool output step run))

  -- The tool is called with its validated arguments.
  unfoldable pub call_executor : Ports j → ℕ → String → Value → Run j → Option Turn
  call_executor ports i tool arguments run = elim (ports.tool_executor i tool arguments) [
    | answer raw_output ↦
        (let output = success_result tool raw_output in
          make_step j (record {
            step_index = i;
            status = StepStatus.succeeded;
            reason = none;
            tool = some tool;
            arguments = some arguments;
            output = some output;
          })
          >>= λ step. some (going (observed i tool output step run)))
    | error code ↦
        (let output = error_result code (code == "UPSTREAM_TIMEOUT") none in
          make_step j (record {
            step_index = i;
            status = StepStatus.failed;
            reason = some code;
            tool = some tool;
            arguments = some arguments;
            output = some output;
          })
          >>= λ step. some (ended RunStatus.tool_failed (observed i tool output step run)))
  ]

  -- A request for a tool that is within the budget, with what `authorize_tool` says of it.
  unfoldable pub requested :
      Ports j → ℕ → String → Value → Bool × String × Bool → Run j → Option Turn
  requested ports i tool raw_arguments (allowed, reason, confirmation_required) run =
      if not allowed || confirmation_required
      then (let denial = if not allowed then reason else "requires_user_confirmation" in
          not_taken i StepStatus.policy_denied denial tool raw_arguments (reason_value denial) run)
      else elim (ports.validate_tool_arguments tool raw_arguments) [
        | none ↦
            not_taken i StepStatus.validation_failed "invalid_tool_arguments" tool raw_arguments
              (error_result "INVALID_TOOL_ARGUMENTS" false (some tool)) run
        | some arguments ↦ call_executor ports i tool arguments run
      ]

  -- What is done with a decision.
  unfoldable pub act : Settings j → Ports j → Request j → ℕ → Decision j → Run j → Option Turn
  act settings ports request i (finish reason) run =
      stop_with RunStatus.succeeded
        (record {
          step_index = i;
          status = StepStatus.finished;
          reason = some reason;
          tool = none;
          arguments = none;
          output = none;
        })
        run
  act settings ports request i (call_tool tool arguments reason) run =
      let asked = emit (Event.tool_request i tool) run in
      if tool_budget_exceeded j settings request.tool_budget (tool_steps j run.steps)
      then stop_with RunStatus.budget_exceeded
          (record {
            step_index = i;
            status = StepStatus.budget_exceeded;
            reason = some "agent_tool_call_budget";
            tool = some tool;
            arguments = some arguments;
            output = none;
          })
          asked
      else requested ports i tool arguments
          (authorize_tool ports.policy_evaluator request.spec.agent_type tool request.state) asked

  -- The body of the loop after the call of the model.
  unfoldable pub follow : Settings j → Ports j → Request j → ℕ → Decision j × Run j → Option Turn
  follow settings ports request i (decision, run) =
      if model_budget_exceeded j settings request.spec run
      then stop_with RunStatus.budget_exceeded
          (record {
            step_index = i;
            status = StepStatus.budget_exceeded;
            reason = some "agent_token_or_cost_budget";
            tool = none;
            arguments = none;
            output = none;
          })
          run
      else act settings ports request i decision (emit (Event.decision i) run)

  -- The body of the loop.
  unfoldable pub turn : Settings j → Ports j → Request j → ℕ → Run j → Option Turn
  turn settings ports request i run = ports.load_context run.observation run.history >>= λ context.
      (decide ports i context run >>= λ decided. follow settings ports request i decided)
