-- ===== src/Agents/Runtime/Permitted.antt =====
-- Which tools are called.
use ai_planed_map.Prelude.{
  ℕ, ◌<◌, ◌≡◌, refl, ◌⊎◌, inl, inr, String, Bool, true, false, some, List, [], ◌∷◌, ◌++◌, Every,
  Every-snoc, Every-get_elem?, get_elem?, elem, string_eq, arith,
}
use ai_planed_map.Agents.Registry.{
  AgentType, InvocationMode, AgentCapability, Denial, Authorization, denied, granted,
  find_capability, authorize,
}
use ai_planed_map.Agents.Registry.Grants.{authorize-granted}
use ai_planed_map.Agents.Runtime.{
  Json, StepStatus, Step, Settings, Request, Ports, Run, authorize_tool, scopes_of,
}
use ai_planed_map.Agents.Runtime.Loop.{Turn}
use ai_planed_map.Agents.Runtime.Turns.{Taken, stops, skips, calls, fails, Cleared}
use ai_planed_map.Agents.Runtime.Execute.{Result, step_limit, started, execute}
use ai_planed_map.Agents.Runtime.Induction.{After, execute-kept}

pub authorization-cases :
    (a : Authorization)
    → ((d : Denial) × (a ≡ denied d)) ⊎ ((c : AgentCapability) × (a ≡ granted c))
authorization-cases (denied d) = inl (d, refl)
authorization-cases (granted c) = inr (c, refl)

-- A tool that an agent may call in a state.
abbrev pub Usable :
    (policy : String → String → Bool × String × Bool) (agent : AgentType) (tool state : String)
    → Type 0
Usable policy agent tool state =
    (agent ≡ AgentType.companion)
    × ((c : AgentCapability) × (find_capability tool ≡ some c)
        × (c.invocation_mode ≡ InvocationMode.agent_callable)
        × (elem c.side_effect ("read_only" ∷ "proposal_only" ∷ []) ≡ true))
    × ((reason : String) × (policy tool state ≡ (true, reason, false)))

authorize_tool-Usable :
    (policy : String → String → Bool × String × Bool) (agent : AgentType)
    (tool state reason : String)
    → authorize_tool policy agent tool state ≡ (true, reason, false)
    → Usable policy agent tool state
unfolding authorize_tool
authorize_tool-Usable policy agent tool state reason e =
    elim (authorization-cases
      (authorize agent tool InvocationMode.agent_callable (scopes_of (find_capability tool)))) [
        | inl (d, refused) ↦ absurd (ground (arith, refused))
        | inr (c, ok) ↦
            let (found, owner, mode, scopes, harmless, no_workflow, alone) =
              authorize-granted agent tool InvocationMode.agent_callable _ c ok in
            (alone refl, (c, found, mode, harmless), (reason, rw (authorize_tool, ok) at e))
      ]

module _ (j : Json) where
  -- A step at which the tool was called.
  abbrev pub is_call : Step j → Bool
  is_call step = elim step.status [
    | StepStatus.succeeded ↦ true
    | StepStatus.failed ↦ true
    | _ ↦ false
  ]

  abbrev pub Permitted : Ports j → Request j → Step j → Type 0
  Permitted ports request step =
      is_call step ≡ true
      → (tool : String) × (step.tool ≡ some tool)
        × Usable ports.policy_evaluator request.spec.agent_type tool request.state

  module _ (settings : Settings j) (ports : Ports j) (request : Request j) where
    Allowed : List (Step j) → Type 0
    Allowed steps = Every (Permitted ports request) steps

    added :
        (run next : Run j) (step : Step j)
        → next.steps ≡ run.steps ++ (step ∷ [])
        → Allowed run.steps
        → Permitted ports request step
        → Allowed next.steps
    unfolding Allowed
    added run next step grown before one =
        rw grown (Every-snoc (Permitted ports request) run.steps step before one)

    called :
        (tool : String) (step : Step j)
        → step.tool ≡ some tool
        → Cleared j ports request tool
        → Permitted ports request step
    called tool step is_tool (reason, cleared) is_one =
        (tool, is_tool, authorize_tool-Usable _ _ tool _ reason cleared)

    turn-Allowed :
        (i : ℕ) (run : Run j) (t : Turn j)
        → i < step_limit j settings request
        → Allowed run.steps
        → Taken j settings ports request run t
        → After j settings ports request
            (λ i run. Allowed run.steps)
            (λ status steps. Allowed steps)
            i
            t
    turn-Allowed i run _ in_range before (stops status step next grown shown) =
        added run next step grown before (λ is_one. absurd (ground (arith)))
    turn-Allowed i run _ in_range before (skips step next grown shown within) =
        added run next step grown before (λ is_one. absurd (ground (arith)))
    turn-Allowed i run _ in_range before (calls tool step next grown shown cleared within) =
        added run next step grown before (called tool step shown.1 cleared)
    turn-Allowed i run _ in_range before (fails tool step next grown shown cleared within) =
        added run next step grown before (called tool step shown.1 cleared)

    pub execute-Permitted :
        (r : Result j)
        → execute j settings ports request ≡ some r
        → Every (Permitted ports request) r.steps
    unfolding Allowed started
    execute-Permitted r e =
        execute-kept j settings ports request (λ i run. Allowed run.steps)
          (λ status steps. Allowed steps) (step_limit j settings request) turn-Allowed
          (λ run before. before) r refl tt e

    -- In a run that returns, every tool that was called belongs to the capabilities of the Companion
    -- that a model may call and that change nothing but a proposal, the agent is the Companion, and
    -- the policy of the role allowed the tool in the state of the request without a confirmation;
    -- whatever the models decide and the tools answer.
    pub called-Usable :
        (r : Result j) (i : ℕ) (step : Step j)
        → execute j settings ports request ≡ some r
        → get_elem? r.steps i ≡ some step
        → is_call step ≡ true
        → (tool : String) × (step.tool ≡ some tool)
          × Usable ports.policy_evaluator request.spec.agent_type tool request.state
    called-Usable r i step e there is_one =
        Every-get_elem? (Permitted ports request) r.steps i step (execute-Permitted r e) there
          is_one
