-- ===== src/Agents/Registry/Grants.antt =====
-- What is granted at all.
use ai_planed_map.Prelude.{
  ◌≡◌, ◌≢◌, inl, inr, refl, String, Bool, true, false, some, List, [], ◌∷◌, elem, arith, ap, ◌∙◌,
  not, ◌||◌, list_beq, list_beq_iff, Option-cases, ◌==◌, string_eq, ◌&&◌,
}
use ai_planed_map.Prelude.Dict.{Dict, get, put, get-put}
use ai_planed_map.Route.Visits.{is_empty}
use ai_planed_map.Agents.Registry.{
  AgentType, InvocationMode, DataScope, AgentCapability, granted, capabilities, find_capability,
  by_name, authorize, authorize_registered, same_scopes, mode_eq, agent_eq,
}

-- What holds of every entry of a list holds of whatever is found by name.
abbrev pub all_hold : (AgentCapability → Bool) → List AgentCapability → Bool
all_hold test [] = true
all_hold test (item ∷ items) = test item && all_hold test items

pub found_holds :
    (test : AgentCapability → Bool) (name : String) (items : List AgentCapability)
    (found : Dict String AgentCapability) (c : AgentCapability)
    → all_hold test items ≡ true
    → (get name found ≡ some c → test c ≡ true)
    → get name (by_name found items) ≡ some c
    → test c ≡ true
found_holds test name [] found c all before e = before e
found_holds test name (item ∷ items) found c all before e =
    found_holds test name items (put item.name item found) c (ground arith)
      (λ h. ground (arith, get-put item.name name item found, before)) e

-- An entry that has an owner changes nothing outside a proposal and is not kept for workflows, and if
-- a model may call it then it is the companion's alone.
abbrev is_safe : AgentCapability → Bool
is_safe c =
    is_empty c.agents
    || (elem c.side_effect ("read_only" ∷ "proposal_only" ∷ [])
        && not (c.invocation_mode == InvocationMode.workflow_only)
        && (not (c.invocation_mode == InvocationMode.agent_callable)
            || list_beq c.agents (AgentType.companion ∷ [])))

all_safe : all_hold is_safe capabilities ≡ true
unfolding capabilities
all_safe = refl

found_safe :
    (name : String) (c : AgentCapability) → find_capability name ≡ some c → is_safe c ≡ true
unfolding find_capability
found_safe name c e = found_holds is_safe name capabilities [] c all_safe (λ h. cc) e

owned :
    (agent : AgentType) (agents : List AgentType)
    → elem agent agents ≡ true
    → is_empty agents ≡ false
owned agent [] e = cc
owned agent (a ∷ agents) e = refl

safe_owned :
    (agent : AgentType) (c : AgentCapability)
    → is_safe c ≡ true
    → elem agent c.agents ≡ true
    → (elem c.side_effect ("read_only" ∷ "proposal_only" ∷ []) ≡ true)
      × (c.invocation_mode ≢ InvocationMode.workflow_only)
      × (c.invocation_mode ≡ InvocationMode.agent_callable → agent ≡ AgentType.companion)
safe_owned agent c safe owner =
    let some_owner = owned agent c.agents owner in
    let parts : (elem c.side_effect ("read_only" ∷ "proposal_only" ∷ []) ≡ true)
        × ((c.invocation_mode == InvocationMode.workflow_only) ≡ false)
        × ((c.invocation_mode == InvocationMode.agent_callable) ≡ true
            → list_beq c.agents (AgentType.companion ∷ []) ≡ true) =
      ground arith in
    (
      parts.0,
      λ w. ground (arith, mode_eq.beq_iff c.invocation_mode InvocationMode.workflow_only),
      λ callable.
          let only : c.agents ≡ AgentType.companion ∷ [] =
            (list_beq_iff c.agents (AgentType.companion ∷ [])).0 (
              parts.2
                ((mode_eq.beq_iff c.invocation_mode InvocationMode.agent_callable).1 callable)) in
          let one : elem agent (AgentType.companion ∷ []) ≡ true = rw only at owner in
          (agent_eq.beq_iff agent AgentType.companion).0 (ground arith),
    )

registered_granted :
    (agent : AgentType) (mode : InvocationMode) (requested : List DataScope)
    (registered c : AgentCapability)
    → authorize_registered agent mode requested registered ≡ granted c
    → (registered ≡ c)
      × (elem agent registered.agents ≡ true)
      × (registered.invocation_mode ≡ mode)
      × (same_scopes requested registered.data_scopes ≡ true)
unfolding authorize_registered
registered_granted agent mode requested registered c e = (
  ground arith,
  ground arith,
  ground (arith, mode_eq.beq_iff registered.invocation_mode mode),
  ground arith,
)

-- A grant is for an owner of the capability, in its mode and for exactly its scopes. Nothing that is
-- granted to an agent writes anything but a proposal, nothing that is kept for the server's workflows
-- is granted, and what a model may call itself is granted to the companion alone.
pub authorize-granted :
    (agent : AgentType) (name : String) (mode : InvocationMode) (requested : List DataScope)
    (c : AgentCapability)
    → authorize agent name mode requested ≡ granted c
    → (find_capability name ≡ some c)
      × (elem agent c.agents ≡ true)
      × (c.invocation_mode ≡ mode)
      × (same_scopes requested c.data_scopes ≡ true)
      × (elem c.side_effect ("read_only" ∷ "proposal_only" ∷ []) ≡ true)
      × (mode ≢ InvocationMode.workflow_only)
      × (mode ≡ InvocationMode.agent_callable → agent ≡ AgentType.companion)
unfolding authorize
authorize-granted agent name mode requested c e = elim (Option-cases (find_capability name)) [
  | inl absent ↦ absurd (ground arith)
  | inr (registered, found) ↦
      let (same, owner, as_asked, scopes) =
        registered_granted agent mode requested registered c (rw (authorize, found) at e) in
      let (harmless, no_workflow, alone) =
        safe_owned agent registered (found_safe name registered found) owner in
      (
        found ∙ ap some same,
        rw same at owner,
        rw same at as_asked,
        rw same at scopes,
        rw same at harmless,
        λ w. no_workflow (as_asked ∙ w),
        λ callable. alone (as_asked ∙ callable),
      )
]
