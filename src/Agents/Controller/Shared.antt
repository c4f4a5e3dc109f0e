-- ===== src/Agents/Controller/Shared.antt =====
-- The Companion with `AgentSharedStateManager` of backend/app/services/agent_shared_state.py.
use ai_planed_map.Prelude.{
  ℕ, ◌≡◌, refl, String, Bool, true, false, Option, none, some, [], ◌∷◌, arith, elem, string_eq,
  Option-cases, inl, inr,
}
use ai_planed_map.RuntimeStore.Cache.{Json as StoredJson}
use ai_planed_map.RuntimeStore.JsonStore.{JsonStore}
use ai_planed_map.SharedState.Phase.{AgentType, Phase, phase_eq, allowed_transitions}
use ai_planed_map.SharedState.Types.{Content, SharedState, Result as Answer, ok, err, Codec, Limits}
use ai_planed_map.SharedState.Manager.{read, update, initialize}
use ai_planed_map.SharedState.Views.{View, read_for_agent}
use ai_planed_map.SharedState.Guarantees.{update_phase}
use ai_planed_map.Trip.State.{completed, trip_state_eq}
use ai_planed_map.Agents.Registry.{agent_eq}
use ai_planed_map.Agents.Runtime.{Json, Settings, AgentSpec}
use ai_planed_map.Agents.Runtime.Execute.{Result, execute}
use ai_planed_map.Agents.Decider.{Observations}
use ai_planed_map.Agents.Controller.{
  Visit, AgentSession, SharedTask, ports_of, request_of, seen, opened, shared, action_of, run_once,
}

module _ (j : Json) (k : Content) (stored : StoredJson) (codec : Codec k stored)
    (store : JsonStore stored) (limits : Limits) where
  -- One visit to the shared state of a task: the plan of the trip, the readings of the clocks, the
  -- store at each call, and the two dictionaries that the controller builds.
  pub record Sitting : Type 0 where
    pub task_id : String
    pub route_plan : Option k.Field
    pub wall : ℕ
    pub now : ℕ
    pub at_first : store.State
    pub at_view : store.State
    pub at_read : store.State
    pub at_update : store.State
    pub at_commit : store.State
    pub at_audit : store.State
    pub with_view : j.Value → View k → j.Value
    pub execution_context : Result j → k.Field

  abbrev pub revision_of : Answer (SharedState k) → Option ℕ
  revision_of (err e) = none
  revision_of (ok state) = some state.body.revision

  abbrev pub phase_of : Answer (SharedState k) → Option Phase
  phase_of (err e) = none
  phase_of (ok state) = some state.body.phase

  abbrev pub viewed :
      j.Value → (j.Value → View k → j.Value) → Answer (Option (View k)) → Option j.Value
  viewed observation with_view (ok (some view)) = some (with_view observation view)
  viewed observation with_view _ = none

  abbrev pub is_ok : Answer (SharedState k) → Bool
  is_ok (err e) = false
  is_ok (ok state) = true

  -- The calls of the controller, for the Companion.
  unfoldable pub task_of : Sitting → SharedTask j
  task_of v = record {
    initialize =
        revision_of
          (initialize k stored codec store limits v.task_id v.route_plan v.wall v.now v.at_first
            v.now v.at_first v.now v.at_first).0;
    read_for_agent = λ observation.
        viewed observation v.with_view
          (read_for_agent k stored codec store limits v.task_id AgentType.companion v.now
            v.at_view).0;
    read_phase = λ r. phase_of (read k stored codec store limits v.task_id v.now v.at_read).0;
    update = λ expected action r.
        revision_of
          (update k stored codec store limits v.task_id AgentType.companion expected action
            (("execution_context", v.execution_context r) ∷ []) none v.wall v.now v.at_update v.now
            v.at_commit).0;
    audit = is_ok (read k stored codec store limits v.task_id v.now v.at_audit).0;
  }

  -- The manager refuses to complete what is not under way.
  update_refused :
      (v : Sitting) (current : SharedState k) (expected : ℕ) (r : Result j)
      → (read k stored codec store limits v.task_id v.now v.at_update).0 ≡ ok current
      → elem Phase.completed (allowed_transitions current.body.phase) ≡ false
      → (task_of v).update expected "trip_completed" r ≡ none
  unfolding task_of
  update_refused v current expected r found closed =
      answered
        (update k stored codec store limits v.task_id AgentType.companion expected "trip_completed"
          (("execution_context", v.execution_context r) ∷ []) none v.wall v.now v.at_update v.now
          v.at_commit).0
        refl
    where
      answered :
          (a : Answer (SharedState k))
          → (update k stored codec store limits v.task_id AgentType.companion expected
              "trip_completed"
              (("execution_context", v.execution_context r) ∷ [])
              none
              v.wall
              v.now
              v.at_update
              v.now
              v.at_commit).0
            ≡ a
          → revision_of a ≡ none
      answered (err e) is = refl
      answered (ok state) is =
          let p =
            update_phase k stored codec store limits v.task_id AgentType.companion expected
              "trip_completed" (("execution_context", v.execution_context r) ∷ []) none v.wall v.now
              v.at_update v.now v.at_commit current state found is in
          let same : Phase.completed ≡ state.body.phase = cc in
          absurd (ground (arith, rw (← same) at p.2))

  shared_refused :
      (visit : Visit j) (v : Sitting) (current : SharedState k) (expected : ℕ) (r : Result j)
      → visit.shared_state ≡ some (task_of v)
      → visit.state ≡ completed
      → (read k stored codec store limits v.task_id v.now v.at_update).0 ≡ ok current
      → elem Phase.completed (allowed_transitions current.body.phase) ≡ false
      → shared j visit (some expected) r ≡ none
  unfolding shared action_of
  shared_refused visit v current expected r is over found closed =
      let refused = update_refused v current expected r found closed in
      elim (Option-cases ((task_of v).read_phase r)) [
        | inl unread ↦ rw (is, unread) refl
        | inr (phase, known) ↦ rw (is, known, over, refused) refl
      ]

  opened_shared :
      (visit : Visit j) (task : SharedTask j) (revision : Option ℕ) (observation : j.Value)
      → visit.shared_state ≡ some task
      → opened j visit ≡ some (revision, observation)
      → (expected : ℕ) × (revision ≡ some expected)
  unfolding opened
  opened_shared visit task revision observation is e = elim (Option-cases task.initialize) [
    | inl absent ↦ absurd (ground arith)
    | inr (expected, begun) ↦ elim (Option-cases (task.read_for_agent visit.observation)) [
      | inl absent ↦ absurd (ground arith)
      | inr (view, known) ↦ (expected, ground arith)
    ]
  ]

  -- On a trip that is completed `run_once` raises, so that nothing of the run is recorded, whatever
  -- is decided and done in it, while the shared state is in a phase from which the table does not
  -- lead to the completed one: also in `plan_ready`, in which the manager creates it for a trip that
  -- has a plan.
  pub completed_trip_raises :
      (settings : Settings j) (spec : AgentSpec j) (reads : Observations j) (visit : Visit j)
      (session : AgentSession j) (v : Sitting) (current : SharedState k)
      → visit.shared_state ≡ some (task_of v)
      → visit.state ≡ completed
      → (read k stored codec store limits v.task_id v.now v.at_update).0 ≡ ok current
      → elem Phase.completed (allowed_transitions current.body.phase) ≡ false
      → run_once j settings spec reads visit session ≡ none
  unfolding run_once
  completed_trip_raises settings spec reads visit session v current is over found closed =
      elim (Option-cases (opened j visit)) [
        | inl failed ↦ rw failed (ground arith)
        | inr ((revision, observation), begun) ↦
            let (expected, known) = opened_shared visit (task_of v) revision observation is begun in
            let ports = ports_of j reads (seen j observation visit) in
            let request = request_of j spec (seen j observation visit) session in
            elim (Option-cases (execute j settings ports request)) [
              | inl failed ↦ rw (begun, failed) (ground arith)
              | inr (r, returned) ↦
                  let refused = shared_refused visit v current expected r is over found closed in
                  rw (begun, returned, known, refused) (ground arith)
            ]
      ]
