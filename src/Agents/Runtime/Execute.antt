-- ===== src/Agents/Runtime/Execute.antt =====
-- backend/app/services/agent_runtime.py: the loop of `AgentRuntime.execute`, and what it does around
-- the loop up to its result. `none` is an exception.
use Prim.Native.String.{count}
use ai_planed_map.Prelude.{
  ℕ, zero, suc, min, String, Bool, false, not, ◌&&◌, Option, none, some, List, [], ◌∷◌, ◌++◌,
  if◌then◌else◌, elem, string_eq, ◌>>=◌, leb,
}
use ai_planed_map.Agents.Runtime.{
  Json, RunStatus, Event, Step, Settings, Request, Ports, Run, estimated_cost,
}
use ai_planed_map.Agents.Runtime.Loop.{Turn, ended, going, turn}

module _ (j : Json) where
  open j use {python, Value}
  open python use {Float, literal}

  -- `break`, or the next turn.
  unfoldable pub resume : (Run j → Option (RunStatus × Run j)) → Turn j → Option (RunStatus × Run j)
  resume next (ended status done) = some (status, done)
  resume next (going more) = next more

  -- `left` is the number of turns that `range(limit)` has left at the index `i`.
  unfoldable pub run_loop :
      Settings j → Ports j → Request j → (left i : ℕ) → Run j → Option (RunStatus × Run j)
  run_loop settings ports request zero i run = some (RunStatus.step_limit_reached, run)
  run_loop settings ports request (suc left) i run =
      turn j settings ports request i run
      >>= resume (λ more. run_loop settings ports request left (suc i) more)

  -- `request.max_steps or self.settings.max_agent_steps`
  abbrev pub steps_asked : Settings j → Option ℕ → ℕ
  steps_asked settings none = settings.max_agent_steps
  steps_asked settings (some zero) = settings.max_agent_steps
  steps_asked settings (some (suc n)) = suc n

  unfoldable pub step_limit : Settings j → Request j → ℕ
  step_limit settings request =
      min (min (steps_asked settings request.max_steps) settings.max_agent_steps)
        request.spec.max_steps

  -- The variables before the loop, with the first event.
  unfoldable pub started : Request j → Run j
  started request = record {
    steps = [];
    history = [];
    events = Event.input_loaded ∷ [];
    observation = request.observation;
    input_tokens = 0;
    output_tokens = 0;
    fallback_used = false;
    model_name = "unknown";
    input_cost_per_million_usd = literal 0 0;
    output_cost_per_million_usd = literal 0 0;
  }

  -- `AgentRuntimeResult`; the payload of its artifact is the status with the steps.
  pub record Result : Type 0 where
    pub status : RunStatus
    pub steps : List (Step j)
    pub events : List Event
    pub input_tokens : ℕ
    pub output_tokens : ℕ
    pub estimated_cost_usd : Float
    pub model_name : String
    pub fallback_used : Bool

  -- After the loop; the name of the model is checked by Pydantic.
  unfoldable pub concluded : Settings j → Ports j → RunStatus × Run j → Option Result
  concluded settings ports (status, run) =
      if ports.artifact_validator status run.steps && leb (count run.model_name) 100
      then some (record {
        status = status;
        steps = run.steps;
        events = run.events ++ (Event.artifact_emitted ∷ []);
        input_tokens = run.input_tokens;
        output_tokens = run.output_tokens;
        estimated_cost_usd = estimated_cost j settings run;
        model_name = run.model_name;
        fallback_used = run.fallback_used;
      })
      else none

  -- AgentRuntime.execute, with no updater of a shared state.
  unfoldable pub execute : Settings j → Ports j → Request j → Option Result
  execute settings ports request =
      if not (elem request.input_artifact_type request.spec.input_artifact_types)
      then none
      else (run_loop settings ports request (step_limit settings request) 0 (started request)
          >>= concluded settings ports)
