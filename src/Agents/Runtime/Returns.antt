-- ===== src/Agents/Runtime/Returns.antt =====
-- When `execute` returns at all.
use Prim.Native.String.{count}
use ai_planed_map.Prelude.{
  ℕ, zero, suc, ◌≤◌, ◌≡◌, refl, inl, inr, String, Bool, true, false, Option, none, some, List,
  ◌>>=◌, Bool-cases, Option-cases, arith, leb, length, elem, string_eq, ◌==◌,
}
use ai_planed_map.Agents.Registry.{InvocationMode, Denial, authorize, find_capability}
use ai_planed_map.Agents.Runtime.{
  Json, StepStatus, RunStatus, Event, Decision, finish, call_tool, DecisionResult, Step, Settings,
  Request, Ports, Run, error, short, make_step, authorize_tool, denial_reason, scopes_of,
  tool_steps, tool_budget_exceeded, model_budget_exceeded,
}
use ai_planed_map.Agents.Runtime.Loop.{
  Turn, ended, going, emit, append_step, observed, fell_back, counted, decide, stop_with, not_taken,
  call_executor, requested, act, follow, turn,
}
use ai_planed_map.Agents.Runtime.Turns.{called-cases}
use ai_planed_map.Agents.Runtime.Permitted.{authorization-cases}
use ai_planed_map.Agents.Runtime.Outcome.{length-steps-le}
use ai_planed_map.Agents.Runtime.Execute.{
  run_loop, resume, step_limit, started, Result, concluded, execute,
}

denial_short : (j : Json) (d : Denial) → short j 300 (some (denial_reason d)) ≡ true
denial_short j Denial.tool_not_registered = refl
denial_short j _ = refl

module _ (j : Json) where
  open j use {Value}

  -- What Pydantic accepts of a decision in a step.
  abbrev pub is_readable : Decision j → Bool
  is_readable (finish reason) = short j 300 (some reason)
  is_readable (call_tool tool arguments reason) = short j 80 (some tool)

  abbrev pub ReadableResult : DecisionResult j → Type 0
  ReadableResult result =
      (is_readable result.decision ≡ true) × (leb (count result.model_name) 100 ≡ true)

  -- The context loads, the fallback decides, and no text is longer than the bounds of the schemas.
  -- The model may fail, and so may the tools.
  pub record Reliable (ports : Ports j) : Type 0 where
    pub loads :
        (observation : Value) (history : List (Step j))
        → (context : Value) × (ports.load_context observation history ≡ some context)
    pub falls_back :
        (i : ℕ) (context : Value) (history : List (Step j))
        → (result : DecisionResult j) × (ports.fallback_decider i context history ≡ some result)
          × ReadableResult result
    pub decides :
        (i : ℕ) (context : Value) (history : List (Step j)) (result : DecisionResult j)
        → ports.decider i context history ≡ some result
        → ReadableResult result
    pub explains :
        (tool state : String) → short j 300 (some (ports.policy_evaluator tool state).1) ≡ true
    pub fails :
        (i : ℕ) (tool : String) (arguments : Value) (code : String)
        → ports.tool_executor i tool arguments ≡ error code
        → short j 300 (some code) ≡ true
    pub validates :
        (status : RunStatus) (steps : List (Step j)) → ports.artifact_validator status steps ≡ true

  abbrev model_of : Turn j → String
  model_of (ended status run) = run.model_name
  model_of (going run) = run.model_name

  abbrev Gives : Option (Turn j) → String → Type 0
  Gives o name = (t : Turn j) × (o ≡ some t) × (model_of t ≡ name)

  made :
      (f : Step j → Turn j) (step : Step j)
      → short j 300 step.reason ≡ true
      → short j 80 step.tool ≡ true
      → (make_step j step >>= λ m. some (f m)) ≡ some (f step)
  unfolding make_step
  made f step reason tool = rw (reason, tool) refl

  not_taken-Gives :
      (i : ℕ) (status : StepStatus) (reason tool : String) (arguments output : Value) (run : Run j)
      → short j 300 (some reason) ≡ true
      → short j 80 (some tool) ≡ true
      → Gives (not_taken j i status reason tool arguments output run) run.model_name
  unfolding not_taken observed
  not_taken-Gives i status reason tool arguments output run text name =
      (_, made (λ m. going (observed j i tool output m run)) _ text name, refl)

  module _ (settings : Settings j) (ports : Ports j) (request : Request j)
      (ok : Reliable ports) where
    call_executor-Gives :
        (i : ℕ) (tool : String) (arguments : Value) (run : Run j)
        → short j 80 (some tool) ≡ true
        → Gives (call_executor j ports i tool arguments run) run.model_name
    unfolding call_executor observed
    call_executor-Gives i tool arguments run name =
        elim (called-cases j (ports.tool_executor i tool arguments)) [
          | inl (output, answered) ↦
              rw (call_executor, answered)
                (
                  _,
                  made (λ m. going (observed j i tool (j.success_result tool output) m run)) _ refl
                      name,
                  refl,
                )
          | inr (code, failed) ↦
              let output = j.error_result code (code == "UPSTREAM_TIMEOUT") none in
              rw (call_executor, failed)
                (
                  _,
                  made (λ m. ended RunStatus.tool_failed (observed j i tool output m run)) _
                      (ok.fails i tool arguments code failed) name,
                  refl,
                )
        ]

    requested-Gives :
        (i : ℕ) (tool : String) (arguments : Value) (says : Bool × String × Bool) (run : Run j)
        → short j 80 (some tool) ≡ true
        → short j 300 (some says.1) ≡ true
        → Gives (requested j ports i tool arguments says run) run.model_name
    unfolding requested
    requested-Gives i tool arguments (false, reason, confirm) run name text =
        not_taken-Gives i StepStatus.policy_denied reason tool arguments (j.reason_value reason) run
          text name
    requested-Gives i tool arguments (true, reason, true) run name text =
        not_taken-Gives i StepStatus.policy_denied "requires_user_confirmation" tool arguments
          (j.reason_value "requires_user_confirmation") run refl name
    requested-Gives i tool arguments (true, reason, false) run name text =
        elim (Option-cases (ports.validate_tool_arguments tool arguments)) [
          | inl invalid ↦ rw invalid (
              not_taken-Gives i StepStatus.validation_failed "invalid_tool_arguments" tool arguments
                (j.error_result "INVALID_TOOL_ARGUMENTS" false (some tool)) run refl name)
          | inr (checked, valid) ↦ rw valid (call_executor-Gives i tool checked run name)
        ]

    says_short :
        (tool : String)
        → short j 300 (
            some
              (authorize_tool ports.policy_evaluator request.spec.agent_type tool request.state).1)
          ≡ true
    unfolding authorize_tool
    says_short tool =
        elim (authorization-cases (
          authorize request.spec.agent_type tool InvocationMode.agent_callable
            (scopes_of (find_capability tool)))) [
              | inl (d, refused) ↦ rw (authorize_tool, refused) (denial_short j d)
              | inr (c, allowed) ↦ rw (authorize_tool, allowed) (ok.explains tool request.state)
            ]

    act-Gives :
        (i : ℕ) (decision : Decision j) (run : Run j)
        → is_readable decision ≡ true
        → Gives (act j settings ports request i decision run) run.model_name
    unfolding act emit stop_with append_step
    act-Gives i (finish reason) run text =
        (_, made (λ m. ended RunStatus.succeeded (append_step j m run)) _ text refl, refl)
    act-Gives i (call_tool tool arguments reason) run name =
        let asked = emit j (Event.tool_request i tool) run in
        elim (Bool-cases
          (tool_budget_exceeded j settings request.tool_budget (tool_steps j run.steps))) [
            | inl over ↦ rw over (
              _,
              made (λ m. ended RunStatus.budget_exceeded (append_step j m asked)) _ refl name,
              refl,
            )
            | inr within ↦
                rw within (requested-Gives i tool arguments _ asked name (says_short tool))
          ]

    follow-Gives :
        (i : ℕ) (decision : Decision j) (run : Run j)
        → is_readable decision ≡ true
        → Gives (follow j settings ports request i (decision, run)) run.model_name
    unfolding follow emit stop_with append_step
    follow-Gives i decision run text =
        elim (Bool-cases (model_budget_exceeded j settings request.spec run)) [
          | inl over ↦ rw over (
            _,
            made (λ m. ended RunStatus.budget_exceeded (append_step j m run)) _ refl refl,
            refl,
          )
          | inr within ↦ rw within (act-Gives i decision (emit j (Event.decision i) run) text)
        ]

    -- With a model that fails the fallback decides.
    decide_gives :
        (i : ℕ) (context : Value) (run : Run j)
        → (decision : Decision j) × (next : Run j) × (decide j ports i context run
            ≡ some (decision, next))
          × (is_readable decision ≡ true)
          × (leb (count next.model_name) 100 ≡ true)
    unfolding decide counted
    decide_gives i context run = elim (Option-cases (ports.decider i context run.history)) [
      | inl fallen ↦
          let (result, given, (text, named)) = ok.falls_back i context run.history in
          (
            result.decision,
            counted j result (fell_back j i run),
            rw (decide, fallen, given) refl,
            text,
            named,
          )
      | inr (result, given) ↦
          let (text, named) = ok.decides i context run.history result given in
          (result.decision, counted j result run, rw (decide, given) refl, text, named)
    ]

    turn_gives :
        (i : ℕ) (run : Run j)
        → (t : Turn j) × (turn j settings ports request i run ≡ some t)
          × (leb (count (model_of t)) 100 ≡ true)
    unfolding turn
    turn_gives i run =
        let (context, loaded) = ok.loads run.observation run.history in
        let (decision, next, decided, text, named) = decide_gives i context run in
        let (t, followed, kept) = follow-Gives i decision next text in
        (t, rw (loaded, decided) followed, rw kept named)

    -- With a name of the model that is short enough for the result.
    Named : Run j → Type 0
    Named run = leb (count run.model_name) 100 ≡ true

    Finishes : Option (RunStatus × Run j) → Type 0
    Finishes o = (ends : RunStatus × Run j) × (o ≡ some ends) × Named ends.1

    resume-Finishes :
        (next : Run j → Option (RunStatus × Run j)) (t : Turn j)
        → ((more : Run j) → Named more → Finishes (next more))
        → leb (count (model_of t)) 100 ≡ true
        → Finishes (resume j next t)
    unfolding resume Named Finishes
    resume-Finishes next (ended status run) rest named = ((status, run), refl, named)
    resume-Finishes next (going run) rest named = rest run named

    run_loop-Finishes :
        (left i : ℕ) (run : Run j)
        → Named run
        → Finishes (run_loop j settings ports request left i run)
    unfolding run_loop Finishes
    run_loop-Finishes zero i run named = ((RunStatus.step_limit_reached, run), refl, named)
    run_loop-Finishes (suc left) i run named =
        let (t, is_turn, kept) = turn_gives i run in
        rw is_turn (
          resume-Finishes (λ more. run_loop j settings ports request left (suc i) more) t
            (λ more short. run_loop-Finishes left (suc i) more short) kept)

    concluded_gives :
        (ends : RunStatus × Run j)
        → Named ends.1
        → (r : Result j) × (concluded j settings ports ends ≡ some r)
    unfolding concluded Named
    concluded_gives ends named = elim (Option-cases (concluded j settings ports ends)) [
      | inl raises ↦ absurd (ground (arith, ok.validates ends.0 ends.1.steps))
      | inr found ↦ found
    ]

    -- For an input that the agent consumes, `execute` returns, with no more steps than the limit,
    -- however the models and the tools fail, if the context loads, the fallback decides and no text is
    -- longer than its bound.
    pub execute_returns :
        elem request.input_artifact_type request.spec.input_artifact_types ≡ true
        → (r : Result j) × (execute j settings ports request ≡ some r)
          × (length r.steps ≤ step_limit j settings request)
    unfolding execute started Named Finishes
    execute_returns accepted =
        let (ends, looped, named) =
          run_loop-Finishes (step_limit j settings request) 0 (started j request) refl in
        let (r, last) = concluded_gives ends named in
        let returned : execute j settings ports request ≡ some r =
          rw (execute, accepted, looped) last in
        (r, returned, length-steps-le j settings ports request r returned)
