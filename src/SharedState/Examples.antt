-- ===== src/SharedState/Examples.antt =====
-- A concrete shared state, over the in-memory store, that the theorems about its updates apply to.
use ai_planed_map.Prelude.{
  ℕ, ◌≤◌, ◌≡◌, ◌≢◌, refl, String, true, none, some, [], ◌∷◌, arith, elem, string_eq, nat_eq, length,
}
use ai_planed_map.Prelude.Dict.{Dict, get}
use ai_planed_map.Prelude.Int.{pos}
use ai_planed_map.RuntimeStore.Cache.{
  Json, get_json, compare_set_json, purge_expired_values, purge_items,
}
use ai_planed_map.RuntimeStore.JsonStore.{JsonStore, in_memory, sound_get, sound_cas}
use ai_planed_map.SharedState.Phase.{search, intent, intent_ready, allowed_transitions, phase_eq}
use ai_planed_map.SharedState.Access.{action_phase, action_actors}
use ai_planed_map.SharedState.Types.{
  Content, SharedState, conflict_error, Result, ok, err, Codec, Limits,
}
use ai_planed_map.SharedState.Views.{View, field, read_for_agent, update_unseen}
use ai_planed_map.SharedState.Manager.{
  update, read, authorize, prepare_update, commit, decode, serialized, updated_body, seal, may_act,
}
use ai_planed_map.SharedState.Guarantees.{
  update_stored, update_isolated, update_phase, update_exclusive,
}

-- A field is a number; a digest is a number too.
abbrev pub content : Content
content = record {
  Field = ℕ;
  null = 0;
  is_success = λ plan. true;
  plan_version = λ plan. plan;
  Digest = ℕ;
  digest_eq = nat_eq;
  hash_field = λ value. value;
  hash_changes = λ changes. length changes;
}

-- The JSON value of a state is the state.
abbrev pub json : Json
json = record {
  Value = SharedState content;
  encoded_size = λ state. 1_000;
  is_dict = λ state. true;
  revision = λ state. pos state.body.revision;
}

abbrev pub codec : Codec content json
codec = record {
  dump = λ state. state;
  load = some;
  is_valid = λ body. true;
  state_digest = λ body. body.revision;
  load-dump = λ state. refl;
  dump_is_dict = λ state. refl;
  dump_revision = λ state. refl;
}

abbrev pub limits : Limits
limits = record { ttl_seconds = 60; max_history = 2; max_bytes = 16_384 }

abbrev pub store : JsonStore json
store = in_memory json 10 100_000 (omega arith)

abbrev pub ready : SharedState content
ready = record {
  body = record {
    task_id = "t";
    revision = 3;
    phase = intent_ready;
    fields = λ name. 0;
    execution_history = [];
    created_at = 0;
    updated_at = 0;
    expires_at = 60;
  };
  state_hash = 3;
}

abbrev pub holding : SharedState content → store.State
holding state = record {
  cache = record {
    values = ("agent-shared-state:v1:t", (state, 60)) ∷ [];
    sizes = ("agent-shared-state:v1:t", 1_000) ∷ [];
    bytes = 1_000;
    max_values = 10;
    max_bytes = 100_000;
  };
  within = record {
    accounted = record {
      distinct_values = (refl, tt);
      distinct_sizes = (refl, tt);
      sum = refl;
      owned = λ name absent. ground arith;
      bounded = omega arith;
    };
    max_values = refl;
    max_bytes = refl;
  };
}

abbrev found_two : Dict String ℕ
found_two = ("poi_candidates", 2) ∷ []

abbrev searched : SharedState content
searched = seal content json codec store limits (
    updated_body content json codec store limits search "search_completed" found_two none 10
      ready.body)

abbrev after : Result (SharedState content) × store.State
after =
    update content json codec store limits "t" search 3 "search_completed" found_two none 10 10
      (holding ready) 10 (holding ready)

read-ready : (read content json codec store limits "t" 10 (holding ready)).0 ≡ ok ready
unfolding read decode sound_get get_json
read-ready = refl

won : after.0 ≡ ok searched
unfolding update authorize read decode sound_get get_json prepare_update serialized commit sound_cas
    compare_set_json purge_expired_values purge_items
won = refl

update_stored_example :
    ((read content json codec store limits "t" 69 after.1).0 ≡ ok searched)
    × (searched.body.revision ≡ 4)
    × (length searched.body.execution_history ≤ 2)
update_stored_example =
    update_stored content json codec store limits "t" search 3 "search_completed" found_two none 10
      10 (holding ready) 10 69 (holding ready) searched won (omega arith)

update_isolated_example : searched.body.fields "route_plan" ≡ 0
update_isolated_example =
    update_isolated content json codec store limits "t" search 3 "search_completed" found_two none
      10 10 (holding ready) 10 (holding ready) ready searched "route_plan" read-ready won refl

update_phase_example :
    (may_act search (get "search_completed" action_actors) ≡ true)
    × (get "search_completed" action_phase ≡ some searched.body.phase)
    × (elem searched.body.phase (allowed_transitions intent_ready) ≡ true)
update_phase_example =
    update_phase content json codec store limits "t" search 3 "search_completed" found_two none 10
      10 (holding ready) 10 (holding ready) ready searched read-ready won

update_exclusive_example :
    (update content json codec store limits "t" search 3 "search_completed"
      (("poi_candidates", 5) ∷ [])
      none
      20
      10
      (holding ready)
      20
      after.1).0
    ≢ ok searched
update_exclusive_example =
    update_exclusive content json codec store limits "t" search search 3 "search_completed"
      "search_completed" found_two (("poi_candidates", 5) ∷ []) none none 10 20 10 10
      (holding ready) (holding ready) 10 20 (holding ready) searched searched won (omega arith)

abbrev refused : Result (SharedState content) × store.State
refused =
    update content json codec store limits "t" search 2 "search_completed" found_two none 10 10
      (holding ready) 10 (holding ready)

lost : refused.0 ≡ err conflict_error
unfolding update authorize read decode sound_get get_json prepare_update serialized commit
lost = refl

-- The search is nothing that the intent agent is shown.
update_unseen_example :
    (view : View content) × ((read_for_agent content json codec store limits "t" intent 69
        after.1).0
      ≡ ok (some view))
    × (view.values ≡ ("user_requirement", field 0) ∷ ("clarification_questions", field 0) ∷ [])
    × (view.revision ≡ 4)
update_unseen_example =
    update_unseen content json codec store limits "t" search 3 "search_completed" found_two none 10
      10 (holding ready) 10 69 (holding ready) ready searched intent
      ("user_requirement" ∷ "clarification_questions" ∷ []) read-ready won (omega arith) refl refl
