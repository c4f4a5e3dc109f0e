-- ===== src/SharedState/Types.antt =====
-- The values, records, errors and limits of the shared task state: backend/app/schemas/agent_state.py and
-- backend/app/services/agent_shared_state.py, with what Pydantic, `json` and `hashlib` do as parameters.
use ai_planed_map.Prelude.{
  ℕ, ◌≡◌, String, Bool, true, false, Option, none, some, List, min, max, if◌then◌else◌, string_eq,
  nat_eq, Eq,
}
use ai_planed_map.Prelude.Dict.{Dict}
use ai_planed_map.Prelude.Int.{pos, int_eq}
use ai_planed_map.RuntimeStore.Cache.{Json}
use ai_planed_map.SharedState.Phase.{AgentType, Phase, agent_eq, phase_eq}
use Prim.Native.String.{◌++◌ as str_append}

-- The values of fields, and the SHA-256 digests of what is hashed: `hash_field` of one value,
-- `hash_changes` of a dictionary of changes. `is_success` is `plan.get("status") == "success"` and
-- `plan_version` is `int(plan.get("plan_version") or 0)`, 0 of `null`.
pub record Content : Type 1 where
  pub Field : Type 0
  pub null : Field
  pub is_success : Field → Bool
  pub plan_version : Field → ℕ
  pub Digest : Type 0
  pub digest_eq : Eq Digest
  pub hash_field : Field → Digest
  pub hash_changes : Dict String Field → Digest

module _ (k : Content) where
  open k use {Field, null, is_success, plan_version, Digest, digest_eq, hash_field, hash_changes}

  -- `AgentSharedStateEvent`
  pub record Event : Type 0 where
    pub revision : ℕ
    pub actor : AgentType
    pub action : String
    pub changed_fields : List String
    pub message_id : Option String
    pub change_hash : Digest
    pub created_at : ℕ

  -- `AgentSharedState` without its hash. `fields` holds the seven business fields under their names.
  pub record Body : Type 0 where
    pub task_id : String
    pub revision : ℕ
    pub phase : Phase
    pub fields : String → Field
    pub execution_history : List Event
    pub created_at : ℕ
    pub updated_at : ℕ
    pub expires_at : ℕ

  pub record SharedState : Type 0 where
    pub body : Body
    pub state_hash : Digest

pub data Error : Type 0 where
  access_error conflict_error not_found_error hash_mismatch too_large invalid : Error

-- What a method answers, or the exception that it raises.
pub data Result {ℓ} (A : Type ℓ) : Type ℓ where
  err : (raised : Error) → Result A
  ok : (answer : A) → Result A

-- A check that raises its exception where it fails.
abbrev pub guard : Bool → Error → Result (Unit {0})
guard false raised = err raised
guard true raised = ok tt

infixl 5 ◌>>=◌ ◌>>◌
abbrev pub ◌>>=◌ {ℓ κ} : {X : Type ℓ} {Y : Type κ} → Result X → (X → Result Y) → Result Y
err raised >>= next = err raised
ok answer >>= next = next answer

abbrev pub ◌>>◌ {ℓ} : {Y : Type ℓ} → Result (Unit {0}) → Result Y → Result Y
check >> rest = check >>= λ passed. rest

-- Pydantic and the `json` module: `dump` is `model_dump(mode="json")`, `load` is `model_validate`,
-- `is_valid` says whether the schema accepts a state, and `state_digest` is the hash of a dumped
-- state without its `state_hash`.
pub record Codec (k : Content) (j : Json) : Type 1 where
  pub dump : SharedState k → j.Value
  pub load : j.Value → Option (SharedState k)
  pub is_valid : Body k → Bool
  pub state_digest : Body k → k.Digest
  pub load-dump : (s : SharedState k) → load (dump s) ≡ (if is_valid s.body then some s else none)
  pub dump_is_dict : (s : SharedState k) → j.is_dict (dump s) ≡ true
  pub dump_revision : (s : SharedState k) → j.revision (dump s) ≡ pos s.body.revision

-- The three settings as `__init__` clamps them.
pub record Limits : Type 0 where
  pub ttl_seconds : ℕ
  pub max_history : ℕ
  pub max_bytes : ℕ

unfoldable pub clamp_limits : ℕ → ℕ → ℕ → Limits
clamp_limits ttl history bytes = record {
  ttl_seconds = max 60 ttl;
  max_history = min 200 (max 1 history);
  max_bytes = max 16_384 bytes;
}

abbrev pub key : String → String
key task_id = str_append "agent-shared-state:v1:" task_id
