-- ===== src/SharedState/Guarantees.antt =====
-- What the agents may rely on when they share a task state, over any store that keeps the laws.
use ai_planed_map.Prelude.{
  is_some, ◌&&◌, ℕ, ◌+◌, ◌≤◌, ◌<◌, ◌≡◌, ◌≢◌, refl, ap, String, Bool, true, false, Option, none,
  some, List, [], ◌∷◌, arith, elem, ◌==◌, string_eq, nat_eq, Bool-cases, Option-cases, inl, inr,
  length, length-take_last-le,
}
use ai_planed_map.Prelude.Dict.{Dict, get}
use ai_planed_map.Prelude.Int.{pos}
use ai_planed_map.RuntimeStore.Cache.{Json}
use ai_planed_map.RuntimeStore.JsonStore.{JsonStore}
use ai_planed_map.RuntimeStore.Cache.Revisions.{expects}
use ai_planed_map.SharedState.Phase.{
  AgentType, Phase, allowed_transitions, phase_eq, agent_eq, completed, failed,
}
use ai_planed_map.SharedState.Access.{write_fields, action_phase, action_actors}
use ai_planed_map.SharedState.Types.{
  Content, Body, SharedState, Error, access_error, Result, ok, err, ◌>>◌, guard, Codec, Limits, key,
}
use ai_planed_map.SharedState.Manager.{
  authorize, read, updated_body, commit, update, forbidden, is_nil, may_act, apply_changes,
  phase_allows, or_phase,
}
use ai_planed_map.SharedState.Updates.{update-Succeeded, decode_sealed}

abbrev pub writable : AgentType → List String
writable actor = elim (write_fields actor) [ none ↦ [] | some names ↦ names ]

changed_writable {ℓ} :
    {V : Type ℓ} (actor : AgentType) (changes : Dict String V) (name : String) (value : V)
    → is_nil (forbidden (write_fields actor) changes) ≡ true
    → get name changes ≡ some value
    → elem name (writable actor) ≡ true
changed_writable actor [] name value h e = cc
changed_writable actor ((other, v) ∷ changes) name value h e =
    elim (Bool-cases (elem other (writable actor))) [
      | inr out ↦ absurd (ground arith)
      | inl in_table ↦ elim (Bool-cases (other == name)) [
        | inl same ↦ ground (arith, string_eq.beq_iff other name)
        | inr apart ↦ changed_writable actor changes name value (ground arith) (ground arith)
      ]
    ]

and_right : (a b : Bool) → (a && b) ≡ true → b ≡ true
and_right true b e = e
and_right false b e = cc

guards_ok :
    (known acts fields : Bool)
    → (guard (known && acts) access_error >> guard fields access_error) ≡ ok tt
    → (acts ≡ true) × (fields ≡ true)
guards_ok true true true e = (refl, refl)
guards_ok true true false e = cc
guards_ok true false fields e = cc
guards_ok false acts fields e = cc

module _ (k : Content) (j : Json) (codec : Codec k j) (store : JsonStore j) (limits : Limits) where
  open k use {Field}

  authorize_ok :
      (actor : AgentType) (action : String) (changes : Dict String Field)
      → authorize k j codec store limits actor action changes ≡ ok tt
      → (may_act actor (get action action_actors) ≡ true)
        × (is_nil (forbidden (write_fields actor) changes) ≡ true)
  unfolding authorize
  authorize_ok actor action changes =
      guards_ok (is_some (get action action_phase)) (may_act actor (get action action_actors)) _

  field_kept :
      (actor : AgentType) (action : String) (changes : Dict String Field)
      (message_id : Option String) (at : ℕ) (body : Body k) (name : String)
      → get name changes ≡ none
      → (updated_body k j codec store limits actor action changes message_id at body).fields name
        ≡ body.fields name
  unfolding updated_body
  field_kept actor action changes message_id at body name absent = rw (absent, apply_changes)

  -- After an update has succeeded, every reader finds exactly the state that it returned, until the
  -- time to live is over; its revision is one more than the writer expected, and its history is not
  -- longer than the limit.
  pub update_stored :
      (task_id : String) (actor : AgentType) (expected : ℕ) (action : String)
      (changes : Dict String Field) (message_id : Option String) (at now₁ : ℕ) (s₁ : store.State)
      (now₂ later : ℕ) (s₂ : store.State) (state : SharedState k)
      → let after =
          update k j codec store limits task_id actor expected action changes message_id at now₁ s₁
            now₂ s₂ in
        after.0 ≡ ok state
        → later < now₂ + limits.ttl_seconds
        → ((read k j codec store limits task_id later after.1).0 ≡ ok state)
          × (state.body.revision ≡ expected + 1)
          × (length state.body.execution_history ≤ limits.max_history)
  unfolding read
  update_stored task_id actor expected action changes message_id at now₁ s₁ now₂ later s₂ state e
        before =
      let u =
        update-Succeeded k j codec store limits task_id actor expected action changes message_id at
          now₁ s₁ now₂ s₂ state e in
      let p = u.prepared in
      let body =
        updated_body k j codec store limits actor action changes message_id at u.current.body in
      let found =
        store.cas_stored (key task_id) (pos expected) u.value limits.ttl_seconds now₂ later s₂ u.won
          before in
      (
        rw (u.left, store.get-peek, found, p.value_eq, p.state_eq)
            (decode_sealed k j codec store limits body (rw p.state_eq at p.valid)),
        rw p.state_eq (unfold updated_body in ap (λ (n : ℕ). n + 1) p.revision),
        rw p.state_eq (unfold updated_body in length-take_last-le limits.max_history _),
      )

  -- An agent writes none but its own fields: an update that succeeds leaves every field that the
  -- table does not give to its actor as it was in the state that it was made from.
  pub update_isolated :
      (task_id : String) (actor : AgentType) (expected : ℕ) (action : String)
      (changes : Dict String Field) (message_id : Option String) (at now₁ : ℕ) (s₁ : store.State)
      (now₂ : ℕ) (s₂ : store.State) (current state : SharedState k) (name : String)
      → (read k j codec store limits task_id now₁ s₁).0 ≡ ok current
      → (update k j codec store limits task_id actor expected action changes message_id at now₁ s₁
          now₂ s₂).0
        ≡ ok state
      → elem name (writable actor) ≡ false
      → state.body.fields name ≡ current.body.fields name
  update_isolated task_id actor expected action changes message_id at now₁ s₁ now₂ s₂ current state
        name r e out =
      let u =
        update-Succeeded k j codec store limits task_id actor expected action changes message_id at
          now₁ s₁ now₂ s₂ state e in
      let same : u.current ≡ current = cc u.was_read in
      let own = (authorize_ok actor action changes u.authorized).1 in
      rw (u.prepared.state_eq, same)
        (elim (Option-cases (get name changes)) [
          | inl absent ↦ field_kept actor action changes message_id at current.body name absent
          | inr (value, present) ↦ cc (changed_writable actor changes name value own present)
        ])

  -- An update that succeeds is an action of that agent, and takes the phase along a transition that
  -- the table allows, to the phase of the action.
  pub update_phase :
      (task_id : String) (actor : AgentType) (expected : ℕ) (action : String)
      (changes : Dict String Field) (message_id : Option String) (at now₁ : ℕ) (s₁ : store.State)
      (now₂ : ℕ) (s₂ : store.State) (current state : SharedState k)
      → (read k j codec store limits task_id now₁ s₁).0 ≡ ok current
      → (update k j codec store limits task_id actor expected action changes message_id at now₁ s₁
          now₂ s₂).0
        ≡ ok state
      → (may_act actor (get action action_actors) ≡ true)
        × (get action action_phase ≡ some state.body.phase)
        × (elem state.body.phase (allowed_transitions current.body.phase) ≡ true)
  update_phase task_id actor expected action changes message_id at now₁ s₁ now₂ s₂ current state r
        e =
      let u =
        update-Succeeded k j codec store limits task_id actor expected action changes message_id at
          now₁ s₁ now₂ s₂ state e in
      let same : u.current ≡ current = cc u.was_read in
      let allowed : phase_allows k j codec store limits current.body.phase (get action action_phase)
          ≡ true =
        rw same at u.prepared.allowed in
      elim (Option-cases (get action action_phase)) [
        | inl absent ↦ absurd (ground arith)
        | inr (next, present) ↦
            let is_next : state.body.phase ≡ next =
              rw u.prepared.state_eq (unfold updated_body in rw (present, or_phase)) in
            (
              (authorize_ok actor action changes u.authorized).0,
              rw (present, is_next),
              rw is_next (ground arith),
            )
      ]

  -- No update of a state that is completed or failed succeeds.
  pub update_over :
      (task_id : String) (actor : AgentType) (expected : ℕ) (action : String)
      (changes : Dict String Field) (message_id : Option String) (at now₁ : ℕ) (s₁ : store.State)
      (now₂ : ℕ) (s₂ : store.State) (current state : SharedState k)
      → (read k j codec store limits task_id now₁ s₁).0 ≡ ok current
      → elem current.body.phase (completed ∷ failed ∷ []) ≡ true
      → (update k j codec store limits task_id actor expected action changes message_id at now₁ s₁
          now₂ s₂).0
        ≢ ok state
  update_over task_id actor expected action changes message_id at now₁ s₁ now₂ s₂ current state r
        over e =
      let p =
        update_phase task_id actor expected action changes message_id at now₁ s₁ now₂ s₂ current
          state r e in
      no_way current.body.phase state.body.phase over p.2
    where
      no_way :
          (now next : Phase)
          → elem now (completed ∷ failed ∷ []) ≡ true
          → elem next (allowed_transitions now) ≡ true
          → ⊥
      no_way completed next o a = cc
      no_way failed next o a = cc
      no_way _ next o a = cc

  -- Of two writers that expect the same revision, one that comes to its compare-and-set after the
  -- other has succeeded, on the store as the other left it and before the time to live is over, is
  -- refused, whatever it has read and whoever makes it. A state that expires or is deleted and
  -- created again in between is another matter.
  pub update_exclusive :
      (task_id : String) (actor rival : AgentType) (expected : ℕ) (action rival_action : String)
      (changes rival_changes : Dict String Field) (message_id rival_id : Option String)
      (at rival_at now₁ rival_now : ℕ) (s₁ rival_s : store.State) (now₂ later : ℕ)
      (s₂ : store.State) (state rival_state : SharedState k)
      → let after =
          update k j codec store limits task_id actor expected action changes message_id at now₁ s₁
            now₂ s₂ in
        after.0 ≡ ok state
        → later < now₂ + limits.ttl_seconds
        → (update k j codec store limits task_id rival expected rival_action rival_changes rival_id
            rival_at rival_now rival_s later after.1).0
          ≢ ok rival_state
  update_exclusive task_id actor rival expected action rival_action changes rival_changes message_id
        rival_id at rival_at now₁ rival_now s₁ rival_s now₂ later s₂ state rival_state e before e' =
      let s₃ =
        (update k j codec store limits task_id actor expected action changes message_id at now₁ s₁
          now₂ s₂).1 in
      let u =
        update-Succeeded k j codec store limits task_id actor expected action changes message_id at
          now₁ s₁ now₂ s₂ state e in
      let v =
        update-Succeeded k j codec store limits task_id rival expected rival_action rival_changes
          rival_id rival_at rival_now rival_s later s₃ rival_state e' in
      let found : store.peek later (key task_id) s₃ ≡ some (codec.dump state) =
        rw (u.left, ← u.prepared.value_eq)
          (store.cas_stored (key task_id) (pos expected) u.value limits.ttl_seconds now₂ later s₂
            u.won before) in
      let grown : state.body.revision ≡ expected + 1 =
        rw u.prepared.state_eq (unfold updated_body in ap (λ (n : ℕ). n + 1) u.prepared.revision) in
      let expects_old : expects j (pos expected) (some (codec.dump state)) ≡ true = rw found at (
        store.cas_expects (key task_id) (pos expected) v.value limits.ttl_seconds later s₃ v.won) in
      ground (arith, codec.dump_is_dict state, codec.dump_revision state)

  -- An update that fails is one that no reader can notice.
  pub update_failed :
      (task_id : String) (actor : AgentType) (expected : ℕ) (action : String)
      (changes : Dict String Field) (message_id : Option String) (at now₁ : ℕ) (s₁ : store.State)
      (now₂ : ℕ) (s₂ : store.State) (error : Error) (other : String)
      → let after =
          update k j codec store limits task_id actor expected action changes message_id at now₁ s₁
            now₂ s₂ in
        after.0 ≡ err error → store.peek now₂ other after.1 ≡ store.peek now₂ other s₂
  unfolding update
  update_failed task_id actor expected action changes message_id at now₁ s₁ now₂ s₂ error other =
      failed_commit _
    where
      failed_commit :
          (prepared : Result (SharedState k × j.Value))
          → (commit k j codec store limits task_id expected now₂ prepared s₂).0 ≡ err error
          → store.peek now₂ other
              (commit k j codec store limits task_id expected now₂ prepared s₂).1
            ≡ store.peek now₂ other s₂
      failed_commit (err x) e = unfold commit in refl
      failed_commit (ok (made, value)) e =
          elim (Bool-cases
            (store.compare_set_json (key task_id) (pos expected) value limits.ttl_seconds now₂
              s₂).0) [
                | inl won ↦ absurd (unfold commit in ground arith)
                | inr lost ↦
                    unfold commit in
                    store.cas_refused (key task_id) other (pos expected) value limits.ttl_seconds
                      now₂ s₂ lost
              ]
