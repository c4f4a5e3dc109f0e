-- ===== src/Agents/Controller/Budget.antt =====
-- The budgets of tool calls, over one run and over all the runs of a session.
use ai_planed_map.Prelude.{
  ℕ, ◌+◌, ◌-◌, ◌*◌, ◌≤◌, ◌<◌, ◌≡◌, refl, inl, inr, Bool, false, none, some, List, [], ◌∷◌, ◌++◌,
  min, length, length-append, how_many, how_many-snoc, how_many-le, is_some, arith, Option-cases,
  if◌then◌else◌,
}
use ai_planed_map.Agents.Runtime.{
  Json, RunStatus, Step, Settings, AgentSpec, Request, Ports, Run, tool_steps, tool_budget_exceeded,
}
use ai_planed_map.Agents.Runtime.Loop.{Turn}
use ai_planed_map.Agents.Runtime.Turns.{Taken, stops, skips, calls, fails}
use ai_planed_map.Agents.Runtime.Execute.{Result, step_limit, started, execute}
use ai_planed_map.Agents.Runtime.Induction.{After, execute-kept}
use ai_planed_map.Agents.Decider.{Observations}
use ai_planed_map.Agents.Controller.{
  Visit, AgentSession, is_recorded, recorded, ports_of, request_of, committed, seen, run_once,
}
use ai_planed_map.Agents.Controller.Consent.{run_once-execute}

module _ (j : Json) where
  -- What the budgets of a run leave.
  abbrev pub room : Settings j → Request j → ℕ
  room settings request =
      min
        (min (settings.max_agent_tool_calls_per_run - request.tool_budget.run_calls)
          (settings.max_agent_tool_calls_per_task - request.tool_budget.task_calls))
        (settings.max_agent_tool_calls_per_trip - request.tool_budget.scope_calls)

  within_room :
      (settings : Settings j) (request : Request j) (local_calls : ℕ)
      → tool_budget_exceeded j settings request.tool_budget local_calls ≡ false
      → local_calls + 1 ≤ room settings request
  unfolding tool_budget_exceeded
  within_room settings request local_calls e = ground arith

  recorded-le-tools : (steps : List (Step j)) → how_many (is_recorded j) steps ≤ tool_steps j steps
  recorded-le-tools steps =
      how_many-le (is_recorded j) (λ (step : Step j). is_some step.tool) steps
        (λ step e. ground arith)

  grows_by :
      (test : Step j → Bool) (run next : Run j) (step : Step j)
      → next.steps ≡ run.steps ++ (step ∷ [])
      → how_many test next.steps ≡ how_many test run.steps + (if test step then 1 else 0)
  grows_by test run next step grown = rw grown (how_many-snoc test run.steps step)

  grows_by_one :
      (test : Step j → Bool) (run next : Run j) (step : Step j)
      → next.steps ≡ run.steps ++ (step ∷ [])
      → how_many test next.steps ≤ how_many test run.steps + 1
  grows_by_one test run next step grown = ground (arith, grows_by test run next step grown)

  module _ (settings : Settings j) (ports : Ports j) (request : Request j) where
    HasRoom : ℕ → Run j → Type 0
    HasRoom i run = tool_steps j run.steps ≤ room settings request

    KeptRoom : RunStatus → List (Step j) → Type 0
    KeptRoom status steps = how_many (is_recorded j) steps ≤ room settings request

    turn-HasRoom :
        (i : ℕ) (run : Run j) (t : Turn j)
        → i < step_limit j settings request
        → HasRoom i run
        → Taken j settings ports request run t
        → After j settings ports request HasRoom KeptRoom i t
    unfolding HasRoom KeptRoom
    turn-HasRoom i run _ in_range before (stops status step next grown shown) =
        let unrecorded : is_recorded j step ≡ false = ground arith in
        ground (
          arith,
          grows_by (is_recorded j) run next step grown,
          recorded-le-tools run.steps,
          unrecorded,
        )
    turn-HasRoom i run _ in_range before (skips step next grown shown within) = omega (
      arith,
      grows_by_one (λ (step : Step j). is_some step.tool) run next step grown,
      within_room settings request _ within,
    )
    turn-HasRoom i run _ in_range before (calls tool step next grown shown cleared within) = omega (
      arith,
      grows_by_one (λ (step : Step j). is_some step.tool) run next step grown,
      within_room settings request _ within,
    )
    turn-HasRoom i run _ in_range before (fails tool step next grown shown cleared within) = omega (
      arith,
      grows_by_one (is_recorded j) run next step grown,
      recorded-le-tools run.steps,
      within_room settings request _ within,
    )

    execute-room :
        (r : Result j)
        → execute j settings ports request ≡ some r
        → how_many (is_recorded j) r.steps ≤ room settings request
    unfolding HasRoom KeptRoom started
    execute-room r e =
        execute-kept j settings ports request HasRoom KeptRoom (step_limit j settings request)
          turn-HasRoom (λ run before. omega (arith, recorded-le-tools run.steps, before)) r refl
          (omega arith) e

  length-recorded :
      (steps : List (Step j)) → length (recorded j steps) ≡ how_many (is_recorded j) steps
  length-recorded [] = refl
  length-recorded (step ∷ steps) = ground (arith, length-recorded steps)

  module _ (settings : Settings j) (spec : AgentSpec j) (reads : Observations j) where
    -- The session after a call of `run_once`, which may raise.
    abbrev pub visit_once : AgentSession j → Visit j → AgentSession j
    visit_once session visit = elim (run_once j settings spec reads visit session) [
      | none ↦ session
      | some (status, next) ↦ next
    ]

    abbrev pub visit_all : AgentSession j → List (Visit j) → AgentSession j
    visit_all session [] = session
    visit_all session (visit ∷ visits) = visit_all (visit_once session visit) visits

    -- What one more run adds to the rows of the session.
    Within : AgentSession j → AgentSession j → Type 0
    Within session next =
        (length session.calls ≤ settings.max_agent_tool_calls_per_trip
          → length next.calls ≤ settings.max_agent_tool_calls_per_trip)
        × (length next.calls ≤ length session.calls + settings.max_agent_tool_calls_per_run)

    committed-Within :
        (visit : Visit j) (session : AgentSession j) (r : Result j)
        → execute j settings (ports_of j reads visit) (request_of j spec visit session) ≡ some r
        → Within session (committed j r session)
    unfolding Within committed request_of
    committed-Within visit session r e =
        let calls =
          execute-room settings (ports_of j reads visit) (request_of j spec visit session) r e in
        let added = length-append session.calls (recorded j r.steps) in
        let counted = length-recorded r.steps in
        (λ fits. omega (arith, calls, added, counted, fits), omega (arith, calls, added, counted))

    visit_once-Within :
        (session : AgentSession j) (visit : Visit j) → Within session (visit_once session visit)
    unfolding Within
    visit_once-Within session visit =
        elim (Option-cases (run_once j settings spec reads visit session)) [
          | inl raised ↦ rw (visit_once, raised) (λ fits. fits, omega arith)
          | inr ((status, next), returned) ↦
              let (observation, r, is_run, shown, same) =
                run_once-execute j settings spec reads visit session next status returned in
              rw (visit_once, returned, ← same)
                (committed-Within (seen j observation visit) session r is_run)
        ]

    -- However often the Companion runs in a session, and whatever is decided and raised, the tool
    -- calls that are recorded for it, the denied and the invalid ones among them, never get more than
    -- the limit for a trip, if they are not at the start; and each run adds at most the limit for a
    -- run.
    pub calls_bounded :
        (visits : List (Visit j)) (session : AgentSession j)
        → length session.calls ≤ settings.max_agent_tool_calls_per_trip
        → (length (visit_all session visits).calls ≤ settings.max_agent_tool_calls_per_trip)
          × (length (visit_all session visits).calls
              ≤ length session.calls + length visits * settings.max_agent_tool_calls_per_run)
    unfolding Within
    calls_bounded [] session fits = (fits, omega arith)
    calls_bounded (visit ∷ visits) session fits =
        let (below, grown) = visit_once-Within session visit in
        let (rest, more) = calls_bounded visits (visit_once session visit) (below fits) in
        (rest, omega (arith, grown, more))
