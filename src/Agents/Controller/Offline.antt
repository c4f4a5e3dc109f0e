-- ===== src/Agents/Controller/Offline.antt =====
-- The Companion with or without a model that answers, and with or without a shared state.
use ai_planed_map.Prelude.{
  ℕ, ◌≡◌, String, Bool, true, false, Option, none, some, List, [], ◌∷◌, string_eq, elem,
  if◌then◌else◌, ◌==◌,
}
use ai_planed_map.Prelude.Dict.{get}
use ai_planed_map.SharedState.Phase.{Phase, phase_eq, allowed_transitions}
use ai_planed_map.SharedState.Access.{action_phase}
use ai_planed_map.Trip.State.{TripState, completed, trip_state_eq}
use ai_planed_map.Agents.Runtime.Execute.{Result}
use ai_planed_map.Agents.Registry.{agent_eq}
use ai_planed_map.Agents.Runtime.{Json, Step, error, short, DecisionResult}
use ai_planed_map.Agents.Runtime.Returns.{ReadableResult}
use ai_planed_map.Agents.Controller.{Visit, SharedTask, opened, shared}

-- Whether the shared state may take an action in a phase.
abbrev pub follows : String → Phase → Bool
follows action phase = elim (get action action_phase) [
  | none ↦ false
  | some next ↦ elem next (allowed_transitions phase)
]

-- The phases in which the Companion can go on, on a trip in a state.
abbrev pub keeps_up : TripState → Phase → Bool
keeps_up state phase =
    if state == completed
    then elem phase (Phase.finalized ∷ Phase.in_trip ∷ [])
    else elem phase (Phase.plan_ready ∷ Phase.finalized ∷ Phase.in_trip ∷ [])

module _ (j : Json) where
  open j use {Value}

  -- What is asked of the model, where it answers, and of what is called besides.
  pub record Answers (visit : Visit j) : Type 0 where
    pub loads :
        (observation : Value) (history : List (Step j))
        → (context : Value) × (visit.build_companion_context observation history ≡ some context)
    pub decides :
        (i : ℕ) (context : Value) (history : List (Step j)) (result : DecisionResult j)
        → visit.decider i context history ≡ some result
        → ReadableResult j result
    pub fails :
        (i : ℕ) (tool : String) (arguments : Value) (code : String)
        → visit.tool_executor i tool arguments ≡ error code
        → short j 300 (some code) ≡ true
    pub traces : (r : Result j) → visit.persist_protocol_trace r ≡ true

  -- The manager of the shared state works: its calls answer, and it accepts an action that its table
  -- of transitions allows in the phase that it has read.
  pub record Works (state : TripState) (task : SharedTask j) : Type 0 where
    pub revision : ℕ
    pub phase : Phase
    pub opens : task.initialize ≡ some revision
    pub views :
        (observation : Value) → (view : Value) × (task.read_for_agent observation ≡ some view)
    pub reads : (r : Result j) → task.read_phase r ≡ some phase
    pub accepts :
        (action : String) (r : Result j)
        → follows action phase ≡ true
        → (next : ℕ) × (task.update revision action r ≡ some next)
    pub audits : task.audit ≡ true
    pub not_behind : keeps_up state phase ≡ true

  -- The controller has no manager, or one that works.
  abbrev pub Shares : TripState → Option (SharedTask j) → Type 0
  Shares state none = Unit
  Shares state (some task) = Works state task

  -- How a visit begins and how it ends, whatever the result of the run in between is.
  Opens : Visit j → Type 0
  Opens visit =
      (revision : Option ℕ) × (observation : Value) × (opened j visit
        ≡ some (revision, observation))
      × ((r : Result j) → shared j visit revision r ≡ some r)
