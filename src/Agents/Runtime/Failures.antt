-- ===== src/Agents/Runtime/Failures.antt =====
-- A model whose answer ends a run by an exception.
use ai_planed_map.Prelude.{
  ℕ, zero, suc, ◌<◌, ◌≡◌, refl, inl, inr, String, false, none, some, [], Bool-cases, arith, elem,
  string_eq,
}
use ai_planed_map.Agents.Runtime.{
  Json, finish, DecisionResult, Settings, Request, Ports, Run, short, make_step,
  model_budget_exceeded,
}
use ai_planed_map.Agents.Runtime.Loop.{counted, decide, stop_with, act, follow, turn}
use ai_planed_map.Agents.Runtime.Execute.{run_loop, step_limit, started, execute}

module _ (j : Json) (settings : Settings j) (ports : Ports j) (request : Request j) where
  open j use {Value}

  long_finish :
      (reason : String) (run : Run j)
      → short j 300 (some reason) ≡ false
      → act j settings ports request 0 (finish reason) run ≡ none
  unfolding act stop_with make_step
  long_finish reason run long = rw long refl

  long_turn :
      (context : Value) (result : DecisionResult j) (reason : String)
      → ports.load_context request.observation [] ≡ some context
      → ports.decider 0 context [] ≡ some result
      → result.decision ≡ finish reason
      → short j 300 (some reason) ≡ false
      → model_budget_exceeded j settings request.spec (counted j result (started j request)) ≡ false
      → turn j settings ports request 0 (started j request) ≡ none
  unfolding turn follow decide started
  long_turn context result reason loaded decided is_finish long within =
      rw (loaded, decide, decided, follow, within, is_finish) (long_finish reason _ long)

  run_loop_raises :
      (left : ℕ) (run : Run j)
      → turn j settings ports request 0 run ≡ none
      → 0 < left
      → run_loop j settings ports request left 0 run ≡ none
  unfolding run_loop
  run_loop_raises zero run raises some_step = absurd (omega arith)
  run_loop_raises (suc left) run raises some_step = rw raises refl

  -- A model that finishes at once within its budget, but with a reason of more than 300 characters,
  -- makes the whole run raise: the decision is valid, so that the fallback is not asked, and the step
  -- is refused.
  pub long_finish_raises :
      (context : Value) (result : DecisionResult j) (reason : String)
      → ports.load_context request.observation [] ≡ some context
      → ports.decider 0 context [] ≡ some result
      → result.decision ≡ finish reason
      → short j 300 (some reason) ≡ false
      → model_budget_exceeded j settings request.spec (counted j result (started j request)) ≡ false
      → 0 < step_limit j settings request
      → execute j settings ports request ≡ none
  unfolding execute
  long_finish_raises context result reason loaded decided is_finish long within some_step =
      let raises =
        run_loop_raises (step_limit j settings request) (started j request)
          (long_turn context result reason loaded decided is_finish long within) some_step in
      elim (Bool-cases (elem request.input_artifact_type request.spec.input_artifact_types)) [
        | inl accepted ↦ rw (execute, accepted, raises) refl
        | inr refused ↦ rw (execute, refused) refl
      ]
