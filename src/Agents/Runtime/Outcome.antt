-- ===== src/Agents/Runtime/Outcome.antt =====
-- What the status of a run says of its steps.
use ai_planed_map.Prelude.{
  ℕ, suc, ◌+◌, ◌≤◌, ◌<◌, ◌≡◌, refl, inl, inr, Bool, true, false, some, List, [], ◌∷◌, ◌++◌, Every,
  Every-snoc, length, length-append, arith,
}
use ai_planed_map.Agents.Runtime.{Json, StepStatus, RunStatus, Step, Settings, Request, Ports, Run}
use ai_planed_map.Agents.Runtime.Loop.{Turn}
use ai_planed_map.Agents.Runtime.Turns.{Taken, stops, skips, calls, fails}
use ai_planed_map.Agents.Runtime.Execute.{Result, step_limit, started, execute}
use ai_planed_map.Agents.Runtime.Induction.{After, execute-kept}

module _ (j : Json) where
  -- A step after which the loop goes on.
  abbrev pub goes_on : Step j → Bool
  goes_on step = elim step.status [
    | StepStatus.policy_denied ↦ true
    | StepStatus.validation_failed ↦ true
    | StepStatus.succeeded ↦ true
    | _ ↦ false
  ]

  -- The earlier steps and then one of the given status, within the limit.
  abbrev pub LastIs : StepStatus → ℕ → List (Step j) → List (Step j) → Type 0
  LastIs status limit earlier steps =
      (last : Step j) × (last.status ≡ status)
      × (steps ≡ earlier ++ (last ∷ []))
      × (length steps ≤ limit)

  abbrev pub Ends : RunStatus → ℕ → List (Step j) → List (Step j) → Type 0
  Ends RunStatus.succeeded limit earlier steps = LastIs StepStatus.finished limit earlier steps
  Ends RunStatus.budget_exceeded limit earlier steps =
      LastIs StepStatus.budget_exceeded limit earlier steps
  Ends RunStatus.tool_failed limit earlier steps = LastIs StepStatus.failed limit earlier steps
  Ends RunStatus.step_limit_reached limit earlier steps = (steps ≡ earlier) × (length steps ≡ limit)

  module _ (settings : Settings j) (ports : Ports j) (request : Request j) where
    Underway : ℕ → Run j → Type 0
    Underway i run = Every (λ step. goes_on step ≡ true) run.steps × (length run.steps ≡ i)

    Ended : RunStatus → List (Step j) → Type 0
    Ended status steps =
        (earlier : List (Step j)) × Every (λ step. goes_on step ≡ true) earlier
        × Ends status (step_limit j settings request) earlier steps

    longer :
        (run next : Run j) (step : Step j)
        → next.steps ≡ run.steps ++ (step ∷ [])
        → length next.steps ≡ length run.steps + 1
    longer run next step grown = rw grown (length-append run.steps (step ∷ []))

    more :
        (i : ℕ) (run next : Run j) (step : Step j)
        → next.steps ≡ run.steps ++ (step ∷ [])
        → goes_on step ≡ true
        → Underway i run
        → Underway (suc i) next
    unfolding Underway
    more i run next step grown on before = (
      rw grown (Every-snoc (λ step. goes_on step ≡ true) run.steps step before.0 on),
      omega (arith, longer run next step grown, before.1),
    )

    last_of :
        (i : ℕ) (run next : Run j) (step : Step j)
        → i < step_limit j settings request
        → next.steps ≡ run.steps ++ (step ∷ [])
        → length run.steps ≡ i
        → LastIs step.status (step_limit j settings request) run.steps next.steps
    last_of i run next step in_range grown so_far =
        (step, refl, grown, omega (arith, longer run next step grown, in_range, so_far))

    turn-Underway :
        (i : ℕ) (run : Run j) (t : Turn j)
        → i < step_limit j settings request
        → Underway i run
        → Taken j settings ports request run t
        → After j settings ports request Underway Ended i t
    unfolding Underway Ended
    turn-Underway i run _ in_range before (stops _ step next grown (inl (succeeded, finished))) =
        rw succeeded
          (run.steps, before.0, rw finished at (last_of i run next step in_range grown before.1))
    turn-Underway i run _ in_range before (stops _ step next grown (inr (exceeded, shown))) =
        rw exceeded
          (run.steps, before.0, rw shown at (last_of i run next step in_range grown before.1))
    turn-Underway i run _ in_range before (skips step next grown shown within) =
        more i run next step grown (ground arith) before
    turn-Underway i run _ in_range before (calls tool step next grown shown cleared within) =
        more i run next step grown (ground arith) before
    turn-Underway i run _ in_range before (fails tool step next grown shown cleared within) =
        (run.steps, before.0, rw shown.0 at (last_of i run next step in_range grown before.1))

    -- The status of a run that returns tells how it ended: with the step that finished it, with the
    -- step that exceeded a budget, with the call that failed, or after as many steps as the limit
    -- allows. Each step before that was denied, had invalid arguments or succeeded, and there are
    -- never more steps than the limit allows.
    pub execute-Ends :
        (r : Result j)
        → execute j settings ports request ≡ some r
        → (earlier : List (Step j)) × Every (λ step. goes_on step ≡ true) earlier
          × Ends r.status (step_limit j settings request) earlier r.steps
    unfolding Underway Ended started
    execute-Ends r e =
        execute-kept j settings ports request Underway Ended (step_limit j settings request)
          turn-Underway (λ run before. (run.steps, before.0, (refl, before.1))) r refl (tt, refl) e

    within :
        (status : RunStatus) (limit : ℕ) (earlier steps : List (Step j))
        → Ends status limit earlier steps
        → length steps ≤ limit
    within RunStatus.step_limit_reached limit earlier steps ends = omega (arith, ends.1)
    within _ limit earlier steps ends = ends.3

    pub length-steps-le :
        (r : Result j)
        → execute j settings ports request ≡ some r
        → length r.steps ≤ step_limit j settings request
    length-steps-le r e =
        let (earlier, on, ends) = execute-Ends r e in
        within r.status (step_limit j settings request) earlier r.steps ends
