-- ===== src/Agents/Runtime/Turns.antt =====
-- What one turn of the loop adds to the steps, in four cases.
use mathlib.Core.Path.{subst}
use ai_planed_map.Prelude.{
  ℕ, ◌≡◌, refl, ◌⊎◌, inl, inr, String, Bool, true, false, none, some, [], ◌∷◌, ◌++◌, ◌>>=◌, ◌==◌,
  string_eq, >>=-eq-some, Bool-cases, Option-cases, arith, sym,
}
use ai_planed_map.Agents.Runtime.{
  Json, StepStatus, RunStatus, Event, Decision, finish, call_tool, Step, Settings, Request, Ports,
  Run, Called, answer, error, make_step, authorize_tool, tool_steps, tool_budget_exceeded,
  model_budget_exceeded,
}
use ai_planed_map.Agents.Runtime.Loop.{
  Turn, ended, going, emit, append_step, observed, fell_back, counted, decide, stop_with, not_taken,
  call_executor, requested, act, follow, turn,
}

module _ (j : Json) where
  open j use {Value}

  -- How a turn that ends the loop without a call says so.
  abbrev pub StopsAs : RunStatus → StepStatus → Type 0
  StopsAs status shown =
      (status ≡ RunStatus.succeeded) × (shown ≡ StepStatus.finished)
      ⊎ (status ≡ RunStatus.budget_exceeded) × (shown ≡ StepStatus.budget_exceeded)

  -- The tool is one that the agent may call now, without asking the user.
  abbrev pub Cleared : Ports j → Request j → String → Type 0
  Cleared ports request tool =
      (reason : String) × (authorize_tool ports.policy_evaluator request.spec.agent_type tool
          request.state
        ≡ (true, reason, false))

  pub called-cases :
      (called : Called j)
      → ((output : Value) × (called ≡ answer output)) ⊎ ((code : String) × (called ≡ error code))
  called-cases (answer output) = inl (output, refl)
  called-cases (error code) = inr (code, refl)

  pub data Taken (settings : Settings j) (ports : Ports j) (request : Request j) (run : Run j)
      : Turn j → Type 0 where
    stops :
        (status : RunStatus) (step : Step j) (next : Run j)
        → next.steps ≡ run.steps ++ (step ∷ [])
        → StopsAs status step.status
        → Taken settings ports request run (ended status next)
    skips :
        (step : Step j) (next : Run j)
        → next.steps ≡ run.steps ++ (step ∷ [])
        → (step.status ≡ StepStatus.policy_denied) ⊎ (step.status ≡ StepStatus.validation_failed)
        → tool_budget_exceeded j settings request.tool_budget (tool_steps j run.steps) ≡ false
        → Taken settings ports request run (going next)
    calls :
        (tool : String) (step : Step j) (next : Run j)
        → next.steps ≡ run.steps ++ (step ∷ [])
        → (step.status ≡ StepStatus.succeeded) × (step.tool ≡ some tool)
        → Cleared ports request tool
        → tool_budget_exceeded j settings request.tool_budget (tool_steps j run.steps) ≡ false
        → Taken settings ports request run (going next)
    fails :
        (tool : String) (step : Step j) (next : Run j)
        → next.steps ≡ run.steps ++ (step ∷ [])
        → (step.status ≡ StepStatus.failed) × (step.tool ≡ some tool)
        → Cleared ports request tool
        → tool_budget_exceeded j settings request.tool_budget (tool_steps j run.steps) ≡ false
        → Taken settings ports request run (ended RunStatus.tool_failed next)

  -- A step that is made is the step that was to be made.
  made_then :
      (f : Step j → Turn j) (step : Step j) (t : Turn j)
      → (make_step j step >>= λ made. some (f made)) ≡ some t
      → f step ≡ t
  unfolding make_step
  made_then f step t e = ground arith

  module _ (settings : Settings j) (ports : Ports j) (request : Request j) where
    -- A run with the same steps is as good.
    Taken-from :
        (run before : Run j) (t : Turn j)
        → run.steps ≡ before.steps
        → Taken settings ports request run t
        → Taken settings ports request before t
    Taken-from run before _ same (stops status step next added shown) =
        stops status step next (rw same at added) shown
    Taken-from run before _ same (skips step next added shown within) =
        skips step next (rw same at added) shown (rw same at within)
    Taken-from run before _ same (calls tool step next added shown cleared within) =
        calls tool step next (rw same at added) shown cleared (rw same at within)
    Taken-from run before _ same (fails tool step next added shown cleared within) =
        fails tool step next (rw same at added) shown cleared (rw same at within)

    stop_with-Taken :
        (status : RunStatus) (step : Step j) (run : Run j) (t : Turn j)
        → StopsAs status step.status
        → stop_with j status step run ≡ some t
        → Taken settings ports request run t
    unfolding stop_with append_step
    stop_with-Taken status step run t shown e =
        subst (Taken settings ports request run)
          (made_then (λ made. ended status (append_step j made run)) step t e)
          (stops status step (append_step j step run) refl shown)

    not_taken-Taken :
        (i : ℕ) (status : StepStatus) (reason tool : String) (arguments output : Value)
        (run : Run j) (t : Turn j)
        → (status ≡ StepStatus.policy_denied) ⊎ (status ≡ StepStatus.validation_failed)
        → tool_budget_exceeded j settings request.tool_budget (tool_steps j run.steps) ≡ false
        → not_taken j i status reason tool arguments output run ≡ some t
        → Taken settings ports request run t
    unfolding not_taken observed
    not_taken-Taken i status reason tool arguments output run t shown within e =
        let step : Step j = record {
          step_index = i;
          status = status;
          reason = some reason;
          tool = some tool;
          arguments = some arguments;
          output = some output;
        } in
        subst (Taken settings ports request run)
          (made_then (λ made. going (observed j i tool output made run)) step t e)
          (skips step (observed j i tool output step run) refl shown within)

    -- Within the budget the answer of the executor is a step either way.
    call_executor-Taken :
        (i : ℕ) (tool : String) (arguments : Value) (run : Run j) (t : Turn j)
        → Cleared ports request tool
        → tool_budget_exceeded j settings request.tool_budget (tool_steps j run.steps) ≡ false
        → call_executor j ports i tool arguments run ≡ some t
        → Taken settings ports request run t
    unfolding call_executor observed
    call_executor-Taken i tool arguments run t cleared within e =
        elim (called-cases (ports.tool_executor i tool arguments)) [
          | inl (output, answered) ↦
              let step : Step j = record {
                step_index = i;
                status = StepStatus.succeeded;
                reason = none;
                tool = some tool;
                arguments = some arguments;
                output = some (j.success_result tool output);
              } in
              let next : Step j → Run j =
                λ made. observed j i tool (j.success_result tool output) made run in
              subst (Taken settings ports request run)
                (made_then (λ made. going (next made)) step t (rw (call_executor, answered) at e))
                (calls tool step (next step) refl (refl, refl) cleared within)
          | inr (code, failed) ↦
              let output = j.error_result code (code == "UPSTREAM_TIMEOUT") none in
              let step : Step j = record {
                step_index = i;
                status = StepStatus.failed;
                reason = some code;
                tool = some tool;
                arguments = some arguments;
                output = some output;
              } in
              let next : Step j → Run j = λ made. observed j i tool output made run in
              subst (Taken settings ports request run)
                (made_then (λ made. ended RunStatus.tool_failed (next made)) step t
                  (rw (call_executor, failed) at e))
                (fails tool step (next step) refl (refl, refl) cleared within)
        ]

    requested-Taken :
        (i : ℕ) (tool : String) (arguments : Value) (run : Run j) (t : Turn j)
        (says : Bool × String × Bool)
        → says ≡ authorize_tool ports.policy_evaluator request.spec.agent_type tool request.state
        → tool_budget_exceeded j settings request.tool_budget (tool_steps j run.steps) ≡ false
        → requested j ports i tool arguments says run ≡ some t
        → Taken settings ports request run t
    unfolding requested
    requested-Taken i tool arguments run t (false, reason, confirm) is_so within e =
        not_taken-Taken i StepStatus.policy_denied reason tool arguments (j.reason_value reason) run
          t (inl refl) within e
    requested-Taken i tool arguments run t (true, reason, true) is_so within e =
        not_taken-Taken i StepStatus.policy_denied "requires_user_confirmation" tool arguments
          (j.reason_value "requires_user_confirmation") run t (inl refl) within e
    requested-Taken i tool arguments run t (true, reason, false) is_so within e =
        elim (Option-cases (ports.validate_tool_arguments tool arguments)) [
          | inl invalid ↦
              not_taken-Taken i StepStatus.validation_failed "invalid_tool_arguments" tool arguments
                (j.error_result "INVALID_TOOL_ARGUMENTS" false (some tool)) run t (inr refl) within
                (rw invalid at e)
          | inr (checked, valid) ↦
              call_executor-Taken i tool checked run t (reason, sym is_so) within (rw valid at e)
        ]

    act-Taken :
        (i : ℕ) (decision : Decision j) (run : Run j) (t : Turn j)
        → act j settings ports request i decision run ≡ some t
        → Taken settings ports request run t
    unfolding act emit
    act-Taken i (finish reason) run t e =
        stop_with-Taken RunStatus.succeeded _ run t (inl (refl, refl)) e
    act-Taken i (call_tool tool arguments reason) run t e =
        elim (Bool-cases
          (tool_budget_exceeded j settings request.tool_budget (tool_steps j run.steps))) [
            | inl over ↦
                Taken-from (emit j (Event.tool_request i tool) run) run t refl (
                  stop_with-Taken RunStatus.budget_exceeded _ _ t (inr (refl, refl)) (rw over at e))
            | inr within ↦
                Taken-from (emit j (Event.tool_request i tool) run) run t refl
                  (requested-Taken i tool arguments _ t _ refl within (rw within at e))
          ]

    follow-Taken :
        (i : ℕ) (decided : Decision j × Run j) (t : Turn j)
        → follow j settings ports request i decided ≡ some t
        → Taken settings ports request decided.1 t
    unfolding follow emit
    follow-Taken i (decision, run) t e =
        elim (Bool-cases (model_budget_exceeded j settings request.spec run)) [
          | inl over ↦
              stop_with-Taken RunStatus.budget_exceeded _ run t (inr (refl, refl)) (rw over at e)
          | inr within ↦
              Taken-from (emit j (Event.decision i) run) run t refl
                (act-Taken i decision _ t (rw within at e))
        ]

    same_steps :
        (d decided : Decision j × Run j) → some d ≡ some decided → decided.1.steps ≡ d.1.steps
    same_steps d decided e = ground arith

    -- Neither the model nor its fallback adds a step.
    decided_steps :
        (i : ℕ) (context : Value) (run : Run j) (decided : Decision j × Run j)
        → decide j ports i context run ≡ some decided
        → decided.1.steps ≡ run.steps
    unfolding decide counted fell_back
    decided_steps i context run decided e =
        elim (Option-cases (ports.decider i context run.history)) [
          | inl none_given ↦
              let (result, given, same) =
                >>=-eq-some (ports.fallback_decider i context run.history) _
                  (rw (decide, none_given) at e) in
              same_steps _ decided same
          | inr (result, given) ↦ same_steps _ decided (rw (decide, given) at e)
        ]

    -- A turn adds one step to the steps of the run.
    pub turn-Taken :
        (i : ℕ) (run : Run j) (t : Turn j)
        → turn j settings ports request i run ≡ some t
        → Taken settings ports request run t
    unfolding turn
    turn-Taken i run t e =
        let (context, loaded, then_decided) =
          >>=-eq-some (ports.load_context run.observation _) _ e in
        let (decided, is_decided, followed) =
          >>=-eq-some (decide j ports i context run) _ then_decided in
        Taken-from decided.1 run t (decided_steps i context run decided is_decided)
          (follow-Taken i decided t followed)
