-- ===== src/SharedState/Views.antt =====
-- backend/app/services/agent_shared_state.py: `read_for_agent`, and what an agent can learn by it.
use ai_planed_map.Prelude.{
  ℕ, ◌+◌, ◌<◌, ◌≡◌, refl, ap, ◌∙◌, sym, String, Bool, true, false, not, ◌&&◌, Option, none, some,
  List, [], ◌∷◌, string_eq, ◌==◌, arith, Option-cases, inl, inr, if◌then◌else◌, is_some,
}
use ai_planed_map.Prelude.Dict.{Dict, get}
use ai_planed_map.Prelude.Sorting.{sorted}
use ai_planed_map.RuntimeStore.Cache.{Json}
use ai_planed_map.RuntimeStore.JsonStore.{JsonStore}
use ai_planed_map.SharedState.Phase.{AgentType, Phase}
use ai_planed_map.SharedState.Access.{read_fields}
use ai_planed_map.SharedState.Types.{
  Content, Event, Body, SharedState, Result, ok, ◌>>=◌, Codec, Limits,
}
use ai_planed_map.SharedState.Manager.{read, update, updated_body, apply_changes}
use ai_planed_map.SharedState.Updates.{update-Succeeded}
use ai_planed_map.SharedState.Guarantees.{update_stored}

module _ (k : Content) where
  open k use {Field, Digest}

  -- `getattr(state, field)`
  pub data Shown : Type 0 where
    field : Field → Shown
    history : List (Event k) → Shown

  -- `AgentSharedStateView`
  pub record View : Type 0 where
    pub task_id : String
    pub revision : ℕ
    pub state_hash : Digest
    pub phase : Phase
    pub visible_fields : List String
    pub values : Dict String Shown

  abbrev pub attribute : Body k → String → Shown
  attribute body name =
      if name == "execution_history"
      then history body.execution_history
      else field (body.fields name)

  -- The loop over the fields.
  abbrev pub shown : Body k → List String → Dict String Shown
  shown body [] = []
  shown body (name ∷ names) = (name, attribute body name) ∷ shown body names

  -- `AgentSharedStateView.model_validate(payload)`
  abbrev pub view_with : List String → SharedState k → View
  view_with names state = record {
    task_id = state.body.task_id;
    revision = state.body.revision;
    state_hash = state.state_hash;
    phase = state.body.phase;
    visible_fields = sorted names;
    values = shown state.body names;
  }

  -- The view of an agent; `none` is the KeyError for an agent without fields.
  unfoldable pub view_of : AgentType → SharedState k → Option View
  view_of actor state = elim (read_fields actor) [
    | none ↦ none
    | some names ↦ some (view_with names state)
  ]

  -- None of the fields is written, and the history is not among them.
  abbrev pub untouched : List String → Dict String Field → Bool
  untouched [] changes = true
  untouched (name ∷ names) changes =
      not (name == "execution_history")
      && not (is_some (get name changes))
      && untouched names changes

  module _ (j : Json) (codec : Codec k j) (store : JsonStore j) (limits : Limits) where
    -- AgentSharedStateManager.read_for_agent
    unfoldable pub read_for_agent :
        String → AgentType → ℕ → store.State → Result (Option View) × store.State
    read_for_agent task_id actor now s =
        let (state, s') = read k j codec store limits task_id now s in
        (state >>= λ found. ok (view_of actor found), s')

    shown-updated_body :
        (actor : AgentType) (action : String) (changes : Dict String Field)
        (message_id : Option String) (at : ℕ) (body : Body k) (names : List String)
        → untouched names changes ≡ true
        → shown (updated_body k j codec store limits actor action changes message_id at body) names
          ≡ shown body names
    unfolding updated_body
    shown-updated_body actor action changes message_id at body [] kept = refl
    shown-updated_body actor action changes message_id at body (name ∷ names) kept =
        let rest =
          shown-updated_body actor action changes message_id at body names (ground arith) in
        let ordinary : (name == "execution_history") ≡ false = ground arith in
        elim (Option-cases (get name changes)) [
          | inl absent ↦ rw (ordinary, absent, apply_changes, rest) refl
          | inr (value, present) ↦ absurd (ground (arith, present))
        ]

    ok_same : (a b : SharedState k) → ok a ≡ ok b → a ≡ b
    ok_same a b e = ground arith

    -- After an update that writes none of the fields that an agent may read, and where the agent does
    -- not read the history, the values that the agent is shown are those from before the update, with
    -- the new revision, until the time to live is over.
    pub update_unseen :
        (task_id : String) (actor : AgentType) (expected : ℕ) (action : String)
        (changes : Dict String Field) (message_id : Option String) (at now₁ : ℕ) (s₁ : store.State)
        (now₂ later : ℕ) (s₂ : store.State) (before state : SharedState k) (reader : AgentType)
        (names : List String)
        → (let after =
              update k j codec store limits task_id actor expected action changes message_id at now₁
                s₁ now₂ s₂ in
            (read k j codec store limits task_id now₁ s₁).0 ≡ ok before
            → after.0 ≡ ok state
            → later < now₂ + limits.ttl_seconds
            → read_fields reader ≡ some names
            → untouched names changes ≡ true
            → (view : View) × ((read_for_agent task_id reader later after.1).0 ≡ ok (some view))
              × (view.values ≡ shown before.body names)
              × (view.revision ≡ expected + 1))
    unfolding read_for_agent view_of
    update_unseen task_id actor expected action changes message_id at now₁ s₁ now₂ later s₂ before
          state reader names was_read updated in_time readable kept =
        let (found, revision, short) =
          update_stored k j codec store limits task_id actor expected action changes message_id at
            now₁ s₁ now₂ later s₂ state updated in_time in
        let u =
          update-Succeeded k j codec store limits task_id actor expected action changes message_id
            at now₁ s₁ now₂ s₂ state updated in
        let same : u.current ≡ before = ok_same _ _ (sym u.was_read ∙ was_read) in
        let values : shown state.body names ≡ shown before.body names =
          ap (λ (x : SharedState k). shown x.body names) u.prepared.state_eq
          ∙ shown-updated_body actor action changes message_id at u.current.body names kept
          ∙ ap (λ (x : SharedState k). shown x.body names) same in
        (view_with names state, rw (found, view_of, readable) refl, values, revision)
