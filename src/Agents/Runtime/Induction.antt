-- ===== src/Agents/Runtime/Induction.antt =====
-- The invariant rule of the loop: what every turn keeps holds at the end.
use mathlib.Core.Option.{some-injective}
use mathlib.Core.Path.{subst}
use ai_planed_map.Prelude.{
  ℕ, zero, suc, ◌+◌, ◌<◌, ◌≡◌, inl, inr, Option, some, List, >>=-eq-some, Bool-cases, arith, elem,
  string_eq,
}
use ai_planed_map.Agents.Runtime.{Json, RunStatus, Step, Settings, Request, Ports, Run}
use ai_planed_map.Agents.Runtime.Loop.{Turn, ended, going, turn}
use ai_planed_map.Agents.Runtime.Turns.{Taken, turn-Taken}
use ai_planed_map.Agents.Runtime.Execute.{
  run_loop, resume, step_limit, started, Result, concluded, execute,
}

module _ (j : Json) (settings : Settings j) (ports : Ports j) (request : Request j) where
  -- What a property of the run before a turn, and one of the steps at the end, say after a turn.
  abbrev pub After :
      (ℕ → Run j → Type 0) → (RunStatus → List (Step j) → Type 0) → ℕ → Turn j → Type 0
  After Before AtEnd i (ended status run) = AtEnd status run.steps
  After Before AtEnd i (going run) = Before (suc i) run

  concluded_as :
      (ends : RunStatus × Run j) (r : Result j)
      → concluded j settings ports ends ≡ some r
      → (r.status ≡ ends.0) × (r.steps ≡ ends.1.steps)
  unfolding concluded
  concluded_as ends r e = (ground arith, ground arith)

  -- The loop of an execution that returns.
  pub executed :
      (r : Result j)
      → execute j settings ports request ≡ some r
      → (ends : RunStatus × Run j) × (run_loop j settings ports request
            (step_limit j settings request)
            0
            (started j request)
          ≡ some ends)
        × (r.status ≡ ends.0)
        × (r.steps ≡ ends.1.steps)
  unfolding execute
  executed r e =
      elim (Bool-cases (elem request.input_artifact_type request.spec.input_artifact_types)) [
        | inl accepted ↦
            let (ends, looped, last) =
              >>=-eq-some
                (run_loop j settings ports request (step_limit j settings request) 0
                  (started j request))
                (concluded j settings ports) (rw (execute, accepted) at e) in
            let shown = concluded_as ends r last in (ends, looped, shown.0, shown.1)
        | inr not_accepted ↦ absurd (ground (arith))
      ]

  module _ (Before : ℕ → Run j → Type 0) (AtEnd : RunStatus → List (Step j) → Type 0) (limit : ℕ)
      (keeps : (i : ℕ) (run : Run j) (t : Turn j)
        → i < limit
        → Before i run
        → Taken j settings ports request run t
        → After Before AtEnd i t)
      (exhausts : (run : Run j)
        → Before limit run
        → AtEnd RunStatus.step_limit_reached run.steps) where
    resumed :
        (i : ℕ) (t : Turn j) (ends : RunStatus × Run j) (next : Run j → Option (RunStatus × Run j))
        → After Before AtEnd i t
        → ((more : Run j) → Before (suc i) more → next more ≡ some ends → AtEnd ends.0 ends.1.steps)
        → resume j next t ≡ some ends
        → AtEnd ends.0 ends.1.steps
    unfolding resume
    resumed i (ended status last) ends next after more e =
        subst (λ (x : RunStatus × Run j). AtEnd x.0 x.1.steps) (some-injective _ _ e) after
    resumed i (going run) ends next after more e = more run after e

    run_loop-kept :
        (left i : ℕ) (run : Run j) (ends : RunStatus × Run j)
        → left + i ≡ limit
        → Before i run
        → run_loop j settings ports request left i run ≡ some ends
        → AtEnd ends.0 ends.1.steps
    unfolding run_loop
    run_loop-kept zero i run ends range before e =
        let at_limit : i ≡ limit = omega (arith, range) in
        subst (λ (x : RunStatus × Run j). AtEnd x.0 x.1.steps) (some-injective _ _ e)
          (exhausts run (rw at_limit at before))
    run_loop-kept (suc left) i run ends range before e =
        let (t, is_turn, after) = >>=-eq-some (turn j settings ports request i run) _ e in
        resumed i t ends (λ more. run_loop j settings ports request left (suc i) more)
          (keeps i run t (omega (arith, range)) before
            (turn-Taken j settings ports request i run t is_turn))
          (λ more next. run_loop-kept left (suc i) more ends (omega (arith, range)) next) after

    -- A run starts with no steps.
    pub execute-kept :
        (r : Result j)
        → limit ≡ step_limit j settings request
        → Before 0 (started j request)
        → execute j settings ports request ≡ some r
        → AtEnd r.status r.steps
    execute-kept r is_limit before e =
        let (ends, looped, status, steps) = executed r e in
        rw (status, steps)
          (run_loop-kept (step_limit j settings request) 0 (started j request) ends
            (omega (arith, is_limit)) before looped)
