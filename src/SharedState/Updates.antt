-- ===== src/SharedState/Updates.antt =====
-- What an update of the shared task state promises, over any store that keeps the laws.
use ai_planed_map.Prelude.{
  ℕ, ◌≡◌, refl, String, true, Option, some, arith, ◌==◌, string_eq, nat_eq, Bool-cases, inl, inr,
}
use ai_planed_map.Prelude.Dict.{Dict, get}
use ai_planed_map.Prelude.Int.{pos}
use ai_planed_map.RuntimeStore.Cache.{Json}
use ai_planed_map.RuntimeStore.JsonStore.{JsonStore}
use ai_planed_map.SharedState.Phase.{AgentType, phase_eq, agent_eq}
use ai_planed_map.SharedState.Access.{action_phase}
use ai_planed_map.SharedState.Types.{
  Content, Body, SharedState, Result, ok, err, ◌>>=◌, Codec, Limits, key,
}
use ai_planed_map.SharedState.Manager.{
  authorize, decode, read, seal, serialized, updated_body, prepare_update, commit, update,
  phase_allows,
}

module _ (k : Content) (j : Json) (codec : Codec k j) (store : JsonStore j) (limits : Limits) where
  open k use {Field, digest_eq}

  pub decode_sealed :
      (body : Body k)
      → codec.is_valid body ≡ true
      → decode k j codec store limits (some (codec.dump (seal k j codec store limits body)))
        ≡ ok (seal k j codec store limits body)
  unfolding decode
  decode_sealed body valid = ground (
    arith,
    codec.load-dump (seal k j codec store limits body),
    digest_eq.beq_iff (codec.state_digest body) (codec.state_digest body),
  )

  -- What a prepared update is: the checks that it passed, and what is to be stored.
  pub record Prepared (actor : AgentType) (expected : ℕ) (action : String)
      (changes : Dict String Field) (message_id : Option String) (at : ℕ)
      (current state : SharedState k) (value : j.Value) : Type 0 where
    pub revision : current.body.revision ≡ expected
    pub allowed :
        phase_allows k j codec store limits current.body.phase (get action action_phase) ≡ true
    pub state_eq :
        state
        ≡ seal k j codec store limits
            (updated_body k j codec store limits actor action changes message_id at current.body)
    pub valid : codec.is_valid state.body ≡ true
    pub value_eq : value ≡ codec.dump state

  prepare_update-Prepared :
      (actor : AgentType) (expected : ℕ) (action : String) (changes : Dict String Field)
      (message_id : Option String) (at : ℕ) (current state : SharedState k) (value : j.Value)
      → prepare_update k j codec store limits actor expected action changes message_id at current
        ≡ ok (state, value)
      → Prepared actor expected action changes message_id at current state value
  unfolding prepare_update serialized
  prepare_update-Prepared actor expected action changes message_id at current state value e =
      let body =
        updated_body k j codec store limits actor action changes message_id at current.body in
      elim (Bool-cases (current.body.revision == expected)) [
        | inr r ↦ absurd (ground arith)
        | inl r ↦
            elim (Bool-cases
              (phase_allows k j codec store limits current.body.phase (get action action_phase))) [
                | inr p ↦ absurd (ground arith)
                | inl p ↦ elim (Bool-cases (codec.is_valid body)) [
                  | inr v ↦ absurd (ground arith)
                  | inl v ↦ record {
                    revision = ground arith;
                    allowed = p;
                    state_eq = ground arith;
                    valid = ground arith;
                    value_eq = ground arith;
                  }
                ]
              ]
      ]

  commit_ok :
      (task_id : String) (expected now : ℕ) (prepared : Result (SharedState k × j.Value))
      (s : store.State) (state : SharedState k)
      → (commit k j codec store limits task_id expected now prepared s).0 ≡ ok state
      → (value : j.Value) × (prepared ≡ ok (state, value))
        × ((store.compare_set_json (key task_id) (pos expected) value limits.ttl_seconds now s).0
            ≡ true)
        × ((commit k j codec store limits task_id expected now prepared s).1
            ≡ (store.compare_set_json
                (key task_id)
                (pos expected)
                value
                limits.ttl_seconds
                now
                s).1)
  unfolding commit
  commit_ok task_id expected now (err x) s state e = cc
  commit_ok task_id expected now (ok (made, value)) s state e =
      elim (Bool-cases
        (store.compare_set_json (key task_id) (pos expected) value limits.ttl_seconds now s).0) [
          | inr lost ↦ absurd (ground arith)
          | inl won ↦ (value, ground arith, won, refl)
        ]

  -- A chain of two steps that succeeds: both succeed.
  bind_ok {ℓ κ} :
      {X : Type ℓ} {Y : Type κ} (first : Result X) (next : X → Result Y) {y : Y}
      → (first >>= next) ≡ ok y
      → (x : X) × (first ≡ ok x) × (next x ≡ ok y)
  bind_ok (err raised) next e = cc
  bind_ok (ok x) next e = (x, refl, e)

  -- What a successful update went through.
  pub record Succeeded (task_id : String) (actor : AgentType) (expected : ℕ) (action : String)
      (changes : Dict String Field) (message_id : Option String) (at now₁ : ℕ) (s₁ : store.State)
      (now₂ : ℕ) (s₂ s₃ : store.State) (state : SharedState k) : Type 0 where
    pub authorized : authorize k j codec store limits actor action changes ≡ ok tt
    pub current : SharedState k
    pub was_read : (read k j codec store limits task_id now₁ s₁).0 ≡ ok current
    pub value : j.Value
    pub prepared : Prepared actor expected action changes message_id at current state value
    pub won :
        (store.compare_set_json (key task_id) (pos expected) value limits.ttl_seconds now₂ s₂).0
        ≡ true
    pub left :
        s₃
        ≡ (store.compare_set_json (key task_id) (pos expected) value limits.ttl_seconds now₂ s₂).1

  pub update-Succeeded :
      (task_id : String) (actor : AgentType) (expected : ℕ) (action : String)
      (changes : Dict String Field) (message_id : Option String) (at now₁ : ℕ) (s₁ : store.State)
      (now₂ : ℕ) (s₂ : store.State) (state : SharedState k)
      → (update k j codec store limits task_id actor expected action changes message_id at now₁ s₁
          now₂ s₂).0
        ≡ ok state
      → Succeeded task_id actor expected action changes message_id at now₁ s₁ now₂ s₂
          (update k j codec store limits task_id actor expected action changes message_id at now₁ s₁
            now₂ s₂).1
          state
  unfolding update
  update-Succeeded task_id actor expected action changes message_id at now₁ s₁ now₂ s₂ state e =
      let c = commit_ok task_id expected now₂ _ s₂ state e in
      let a = bind_ok (authorize k j codec store limits actor action changes) _ c.1 in
      let r = bind_ok (read k j codec store limits task_id now₁ s₁).0 _ a.2 in
      record {
        authorized = a.1;
        current = r.0;
        was_read = r.1;
        value = c.0;
        prepared =
            prepare_update-Prepared actor expected action changes message_id at r.0 state c.0 r.2;
        won = c.2;
        left = c.3;
      }
