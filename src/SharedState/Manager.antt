-- ===== src/SharedState/Manager.antt =====
-- `AgentSharedStateManager` of backend/app/services/agent_shared_state.py over any store that keeps
-- the laws of `JsonStore`. Metrics are left out. Between the read and the compare-and-set of one
-- operation other tasks may run: the two see different store states, which are both arguments.
use ai_planed_map.Prelude.{
  ℕ, ◌+◌, String, Bool, true, false, not, ◌&&◌, Option, none, some, List, [], ◌∷◌, ◌++◌, map, ltb,
  leb, if◌then◌else◌, take_last, elem, ◌==◌, string_eq, nat_eq, is_some,
}
use ai_planed_map.Prelude.Dict.{Dict, get}
use ai_planed_map.Prelude.Int.{pos, minus_one}
use ai_planed_map.Prelude.Sorting.{sorted}
use ai_planed_map.RuntimeStore.Cache.{Json}
use ai_planed_map.RuntimeStore.JsonStore.{JsonStore}
use ai_planed_map.SharedState.Phase.{
  AgentType, supervisor, Phase, initialized, plan_ready, allowed_transitions, agent_eq, phase_eq,
}
use ai_planed_map.SharedState.Access.{write_fields, action_phase, action_actors}
use ai_planed_map.SharedState.Types.{
  Content, Event, Body, SharedState, access_error, conflict_error, not_found_error, hash_mismatch,
  too_large, invalid, Result, ok, err, ◌>>=◌, ◌>>◌, guard, Codec, Limits, key,
}

abbrev pub is_nil {ℓ} : {A : Type ℓ} → List A → Bool
is_nil [] = true
is_nil (x ∷ xs) = false

abbrev pub may_act : AgentType → Option (List AgentType) → Bool
may_act actor none = false
may_act actor (some actors) = elem actor actors

-- `set(changes) - WRITE_FIELDS[actor]`
abbrev pub forbidden {ℓ} : {V : Type ℓ} → Option (List String) → Dict String V → List String
forbidden writable [] = []
forbidden writable ((name, value) ∷ changes) =
    let rest = forbidden writable changes in
    if elem name (elim writable [ none ↦ [] | some names ↦ names ]) then rest else name ∷ rest

module _ (k : Content) (j : Json) (codec : Codec k j) (store : JsonStore j) (limits : Limits) where
  open k use {Field, null, is_success, plan_version, digest_eq, hash_field, hash_changes}

  -- The first two checks of `update`.
  unfoldable pub authorize : AgentType → String → Dict String Field → Result (Unit {0})
  authorize actor action changes = do
    guard (is_some (get action action_phase) && may_act actor (get action action_actors))
        access_error
    guard (is_nil (forbidden (write_fields actor) changes)) access_error

  unfoldable pub decode : Option j.Value → Result (SharedState k)
  decode none = err not_found_error
  decode (some value) = elim (codec.load value) [
    | none ↦ err invalid
    | some state ↦
        if digest_eq.beq state.state_hash (codec.state_digest state.body)
        then ok state
        else err hash_mismatch
  ]

  unfoldable pub read : String → ℕ → store.State → Result (SharedState k) × store.State
  read task_id now s = let (raw, s') = store.get_json (key task_id) now s in (decode raw, s')

  -- `_seal`
  abbrev pub seal : Body k → SharedState k
  seal body = record { body = body; state_hash = codec.state_digest body }

  -- `_serialized`
  unfoldable pub serialized : SharedState k → Result j.Value
  serialized state =
      let value = codec.dump state in
      if ltb limits.max_bytes (j.encoded_size value) then err too_large else ok value

  abbrev pub apply_changes : Dict String Field → (String → Field) → String → Field
  apply_changes changes fields name = elim (get name changes) [
    | none ↦ fields name
    | some value ↦ value
  ]

  abbrev pub phase_allows : Phase → Option Phase → Bool
  phase_allows current none = false
  phase_allows current (some next) = elem next (allowed_transitions current)

  abbrev pub or_phase : Phase → Option Phase → Phase
  or_phase current none = current
  or_phase current (some next) = next

  -- The state that an accepted update writes; `at` is the wall clock.
  unfoldable pub updated_body :
      AgentType → String → Dict String Field → Option String → ℕ → Body k → Body k
  updated_body actor action changes message_id at current =
      let event : Event k = record {
        revision = current.revision + 1;
        actor = actor;
        action = action;
        changed_fields = sorted (map (λ change. change.0) changes);
        message_id = message_id;
        change_hash = hash_changes changes;
        created_at = at;
      } in
      record current {
        revision = current.revision + 1;
        phase = or_phase current.phase (get action action_phase);
        fields = apply_changes changes current.fields;
        execution_history = take_last limits.max_history (current.execution_history ++ event ∷ []);
        updated_at = at;
        expires_at = at + limits.ttl_seconds;
      }

  -- `update` from the state that was read to the value that is to be stored.
  unfoldable pub prepare_update :
      AgentType
      → ℕ
      → String
      → Dict String Field
      → Option String
      → ℕ
      → SharedState k
      → Result (SharedState k × j.Value)
  prepare_update actor expected action changes message_id at current = do
    guard (current.body.revision == expected) conflict_error
    guard (phase_allows current.body.phase (get action action_phase)) access_error
    let body = updated_body actor action changes message_id at current.body
    guard (codec.is_valid body) invalid
    value ← serialized (seal body)
    ok (seal body, value)

  -- The compare-and-set at the end of an operation, on the store as it then is.
  unfoldable pub commit :
      String
      → ℕ
      → ℕ
      → Result (SharedState k × j.Value)
      → store.State
      → Result (SharedState k) × store.State
  commit task_id expected now (err e) s = (err e, s)
  commit task_id expected now (ok (state, value)) s =
      let (stored, s') =
        store.compare_set_json (key task_id) (pos expected) value limits.ttl_seconds now s in
      (if stored then ok state else err conflict_error, s')

  -- The read sees the store `s₁` at the reading `now₁`, the compare-and-set sees `s₂` at `now₂`.
  unfoldable pub update :
      String
      → AgentType
      → ℕ
      → String
      → Dict String Field
      → Option String
      → ℕ
      → ℕ
      → store.State
      → ℕ
      → store.State
      → Result (SharedState k) × store.State
  update task_id actor expected action changes message_id at now₁ s₁ now₂ s₂ =
      commit task_id expected now₂
        (do
          authorize actor action changes
          current ← (read task_id now₁ s₁).0
          prepare_update actor expected action changes message_id at current)
        s₂

  -- What `sync_formal_route_plan` checks before it builds a new state; `none` where the plan is the
  -- one that is there.
  unfoldable pub prepare_sync :
      ℕ → Field → ℕ → SharedState k → Result (Option (SharedState k × j.Value))
  prepare_sync expected plan at current = do
    guard (current.body.revision == expected) conflict_error
    guard (leb (plan_version (current.body.fields "route_plan")) (plan_version plan)) access_error
    let event : Event k = record {
      revision = current.body.revision + 1;
      actor = supervisor;
      action = "formal_plan_refreshed";
      changed_fields = "route_plan" ∷ [];
      message_id = none;
      change_hash = hash_field plan;
      created_at = at;
    }
    let body : Body k = record (current.body) {
      revision = current.body.revision + 1;
      fields = apply_changes (("route_plan", plan) ∷ []) current.body.fields;
      execution_history =
          take_last limits.max_history (current.body.execution_history ++ event ∷ []);
      updated_at = at;
      expires_at = at + limits.ttl_seconds;
    }
    if digest_eq.beq (hash_field (current.body.fields "route_plan")) (hash_field plan)
        then ok none
        else (do
          guard (codec.is_valid body) invalid
          value ← serialized (seal body)
          ok (some (seal body, value)))

  unfoldable pub commit_sync :
      String
      → ℕ
      → ℕ
      → SharedState k
      → Option (SharedState k × j.Value)
      → store.State
      → Result (SharedState k) × store.State
  commit_sync task_id expected now current none s = (ok current, s)
  commit_sync task_id expected now current (some sealed) s =
      commit task_id expected now (ok sealed) s

  unfoldable pub sync_formal_route_plan :
      String
      → ℕ
      → Field
      → ℕ
      → ℕ
      → store.State
      → ℕ
      → store.State
      → Result (SharedState k) × store.State
  sync_formal_route_plan task_id expected plan at now₁ s₁ now₂ s₂ =
      let prepared : Result (SharedState k × Option (SharedState k × j.Value)) = (do
        guard (is_success plan) access_error
        current ← (read task_id now₁ s₁).0
        sealed ← prepare_sync expected plan at current
        ok (current, sealed)) in
      elim prepared [
        | err e ↦ (err e, s₂)
        | ok (current, sealed) ↦ commit_sync task_id expected now₂ current sealed s₂
      ]

  -- The state that `initialize` writes where there is none.
  unfoldable pub initial_body : String → Option Field → ℕ → Body k
  initial_body task_id plan at =
      let changes : Dict String Field = elim plan [
        | none ↦ []
        | some value ↦ ("route_plan", value) ∷ []
      ] in
      record {
        task_id = task_id;
        revision = 0;
        phase = elim plan [ none ↦ initialized | some value ↦ plan_ready ];
        fields = apply_changes changes (λ name. null);
        execution_history =
            record {
              revision = 0;
              actor = supervisor;
              action = "state_initialized";
              changed_fields = sorted (map (λ change. change.0) changes);
              message_id = none;
              change_hash = hash_changes changes;
              created_at = at;
            }
            ∷ [];
        created_at = at;
        updated_at = at;
        expires_at = at + limits.ttl_seconds;
      }

  abbrev plan_differs : Option Field → Field → Bool
  plan_differs none current = false
  plan_differs (some plan) current = not (digest_eq.beq (hash_field current) (hash_field plan))

  abbrev plan_allowed : Option Field → Bool
  plan_allowed none = true
  plan_allowed (some plan) = is_success plan

  -- A state that could not be created is one that another task created, or is gone again.
  abbrev created_elsewhere : Result (SharedState k) → Result (SharedState k)
  created_elsewhere (err not_found_error) = err conflict_error
  created_elsewhere other = other

  -- `initialize` where the read finds nothing: the creation sees `s₂` and, should it lose the race,
  -- the second read sees the store that the creation left.
  unfoldable pub create :
      String → Option Field → ℕ → ℕ → store.State → Result (SharedState k) × store.State
  create task_id plan at now s =
      let sealed : Result (SharedState k × j.Value) = (do
        guard (plan_allowed plan) access_error
        let body = initial_body task_id plan at
        guard (codec.is_valid body) invalid
        value ← serialized (seal body)
        ok (seal body, value)) in
      elim sealed [
        | err e ↦ (err e, s)
        | ok (state, value) ↦
            let (created, s') =
              store.compare_set_json (key task_id) minus_one value limits.ttl_seconds now s in
            if created
            then (ok state, s')
            else (created_elsewhere (read task_id now s').0, (read task_id now s').1)
      ]

  unfoldable pub initialize :
      String
      → Option Field
      → ℕ
      → ℕ
      → store.State
      → ℕ
      → store.State
      → ℕ
      → store.State
      → Result (SharedState k) × store.State
  initialize task_id plan at now₁ s₁ now₂ s₂ now₃ s₃ =
      elim (store.get_json (key task_id) now₁ s₁).0 [
        | none ↦ create task_id plan at now₂ s₂
        | some value ↦ elim (decode (some value)) [
          | err e ↦ (err e, s₂)
          | ok state ↦ elim plan [
            | none ↦ (ok state, s₂)
            | some formal ↦
                if plan_differs (some formal) (state.body.fields "route_plan")
                then sync_formal_route_plan task_id state.body.revision formal at now₂ s₂ now₃ s₃
                else (ok state, s₂)
          ]
        ]
      ]
