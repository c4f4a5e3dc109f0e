-- ===== src/Transport/Protocol.antt =====
-- backend/app/services/agent_protocol.py: `ROUTES`, `_authorize` and `validate`, on the messages of
-- backend/app/schemas/agent_artifacts.py.
use ai_planed_map.Prelude.{
  ℕ, zero, suc, ◌*◌, ◌≡◌, refl, String, Bool, false, not, ◌&&◌, ◌||◌, Option, none, some, List, [],
  ◌∷◌, leb, ltb, nat_beq, if◌then◌else◌, elem, Eq, index_beq_iff, ◌==◌, string_eq,
}

pub data Endpoint : Type 0 where
  user system supervisor intent search safety planner critic companion replanner tool_runtime
        final_answer :
      Endpoint

abbrev endpoint_index : Endpoint → ℕ
endpoint_index Endpoint.user = 0
endpoint_index Endpoint.system = 1
endpoint_index Endpoint.supervisor = 2
endpoint_index Endpoint.intent = 3
endpoint_index Endpoint.search = 4
endpoint_index Endpoint.safety = 5
endpoint_index Endpoint.planner = 6
endpoint_index Endpoint.critic = 7
endpoint_index Endpoint.companion = 8
endpoint_index Endpoint.replanner = 9
endpoint_index Endpoint.tool_runtime = 10
endpoint_index Endpoint.final_answer = 11

abbrev endpoint_member : ℕ → Endpoint
endpoint_member zero = Endpoint.user
endpoint_member (suc zero) = Endpoint.system
endpoint_member (suc (suc zero)) = Endpoint.supervisor
endpoint_member (suc (suc (suc zero))) = Endpoint.intent
endpoint_member (suc (suc (suc (suc zero)))) = Endpoint.search
endpoint_member (suc (suc (suc (suc (suc zero))))) = Endpoint.safety
endpoint_member (suc (suc (suc (suc (suc (suc zero)))))) = Endpoint.planner
endpoint_member (suc (suc (suc (suc (suc (suc (suc zero))))))) = Endpoint.critic
endpoint_member (suc (suc (suc (suc (suc (suc (suc (suc zero)))))))) = Endpoint.companion
endpoint_member (suc (suc (suc (suc (suc (suc (suc (suc (suc zero))))))))) = Endpoint.replanner
endpoint_member (suc (suc (suc (suc (suc (suc (suc (suc (suc (suc zero)))))))))) =
    Endpoint.tool_runtime
endpoint_member (suc (suc (suc (suc (suc (suc (suc (suc (suc (suc (suc n))))))))))) =
    Endpoint.final_answer

pub endpoint_member-endpoint_index : (a : Endpoint) → endpoint_member (endpoint_index a) ≡ a
endpoint_member-endpoint_index Endpoint.user = refl
endpoint_member-endpoint_index _ = refl

instance abbrev pub endpoint_eq : Eq Endpoint
endpoint_eq = record {
  beq = λ a b. nat_beq (endpoint_index a) (endpoint_index b);
  beq_iff = index_beq_iff endpoint_index endpoint_member endpoint_member-endpoint_index;
}

pub data MessageType : Type 0 where
  command event artifact result error tool_request tool_result : MessageType

abbrev type_index : MessageType → ℕ
type_index MessageType.command = 0
type_index MessageType.event = 1
type_index MessageType.artifact = 2
type_index MessageType.result = 3
type_index MessageType.error = 4
type_index MessageType.tool_request = 5
type_index MessageType.tool_result = 6

abbrev type_member : ℕ → MessageType
type_member zero = MessageType.command
type_member (suc zero) = MessageType.event
type_member (suc (suc zero)) = MessageType.artifact
type_member (suc (suc (suc zero))) = MessageType.result
type_member (suc (suc (suc (suc zero)))) = MessageType.error
type_member (suc (suc (suc (suc (suc zero))))) = MessageType.tool_request
type_member (suc (suc (suc (suc (suc (suc n)))))) = MessageType.tool_result

pub type_member-type_index : (a : MessageType) → type_member (type_index a) ≡ a
type_member-type_index MessageType.command = refl
type_member-type_index _ = refl

instance abbrev pub type_eq : Eq MessageType
type_eq = record {
  beq = λ a b. nat_beq (type_index a) (type_index b);
  beq_iff = index_beq_iff type_index type_member type_member-type_index;
}

pub record AgentRoute : Type 0 where
  pub sender : Endpoint
  pub receiver : Endpoint
  pub message_type : MessageType
  pub artifact_types : List String

abbrev route : Endpoint → Endpoint → MessageType → List String → AgentRoute
route sender receiver message_type artifact_types = record {
  sender = sender;
  receiver = receiver;
  message_type = message_type;
  artifact_types = artifact_types;
}

-- ROUTES
unfoldable pub routes : List AgentRoute
routes =
    route Endpoint.user Endpoint.supervisor MessageType.command ("planning_request" ∷ [])
    ∷ route Endpoint.supervisor Endpoint.intent MessageType.command ("planning_request" ∷ [])
    ∷ route Endpoint.intent Endpoint.supervisor MessageType.artifact ("intent_artifact" ∷ [])
    ∷ route Endpoint.intent Endpoint.supervisor MessageType.result ("intent_artifact" ∷ [])
    ∷ route Endpoint.supervisor Endpoint.search MessageType.command
        ("intent_artifact" ∷ "retry_directive" ∷ [])
    ∷ route Endpoint.search Endpoint.planner MessageType.artifact ("search_artifact" ∷ [])
    ∷ route Endpoint.search Endpoint.safety MessageType.artifact ("search_artifact" ∷ [])
    ∷ route Endpoint.safety Endpoint.planner MessageType.artifact ("safety_report" ∷ [])
    ∷ route Endpoint.planner Endpoint.critic MessageType.artifact ("plan_candidate" ∷ [])
    ∷ route Endpoint.planner Endpoint.supervisor MessageType.result
        ("plan_candidate" ∷ "planner_execution" ∷ [])
    ∷ route Endpoint.supervisor Endpoint.planner MessageType.command ("planner_context" ∷ [])
    ∷ route Endpoint.critic Endpoint.supervisor MessageType.result
        ("review_report" ∷ "critic_execution" ∷ [])
    ∷ route Endpoint.supervisor Endpoint.critic MessageType.command ("critic_context" ∷ [])
    ∷ route Endpoint.system Endpoint.supervisor MessageType.error ("recovery_event" ∷ [])
    ∷ route Endpoint.supervisor Endpoint.final_answer MessageType.result ("final_answer" ∷ [])
    ∷ route Endpoint.system Endpoint.companion MessageType.event ("trip_observation" ∷ [])
    ∷ route Endpoint.system Endpoint.companion MessageType.error ("recovery_event" ∷ [])
    ∷ route Endpoint.companion Endpoint.tool_runtime MessageType.tool_request ("tool_request" ∷ [])
    ∷ route Endpoint.tool_runtime Endpoint.companion MessageType.tool_result ("tool_result" ∷ [])
    ∷ route Endpoint.companion Endpoint.final_answer MessageType.result
        ("companion_action_report" ∷ [])
    ∷ route Endpoint.companion Endpoint.supervisor MessageType.artifact ("trip_event_artifact" ∷ [])
    ∷ route Endpoint.supervisor Endpoint.replanner MessageType.command ("trip_event_artifact" ∷ [])
    ∷ route Endpoint.replanner Endpoint.planner MessageType.artifact ("replan_directive" ∷ [])
    ∷ route Endpoint.replanner Endpoint.planner MessageType.result ("replan_directive" ∷ [])
    ∷ route Endpoint.planner Endpoint.critic MessageType.artifact ("plan_patch_candidate" ∷ [])
    ∷ route Endpoint.critic Endpoint.supervisor MessageType.result ("dynamic_patch_review" ∷ [])
    ∷ route Endpoint.supervisor Endpoint.final_answer MessageType.result
        ("plan_patch_proposal" ∷ [])
    ∷ []

-- What a message is besides its content, its hash and its key, which the key is made from.
pub record Header : Type 0 where
  pub task_id : String
  pub sender : Endpoint
  pub receiver : Endpoint
  pub message_type : MessageType
  pub artifact_type : String
  pub correlation_id : String
  pub causation_id : Option String
  pub reply_to : Option String
  pub inbox : Option String

-- `AgentMessage`. Times are milliseconds of the wall clock.
pub record Message (Content : Type 0) : Type 0 where
  pub message_id : String
  pub header : Header
  pub content : Content
  pub content_hash : String
  pub idempotency_key : String
  pub attempt : ℕ
  pub expires_at : Option ℕ

-- The content of messages with the length and the SHA-256 of its canonical JSON text, the hash of a
-- key's dictionary, and the schemas of `_validate_payload`.
pub record Encoding : Type 1 where
  pub Content : Type 0
  pub serialized_length : Content → ℕ
  pub content_digest : Content → String
  pub key_digest : Header → String → String
  pub payload_valid : Header → Content → Bool

pub data ProtocolError : Type 0 where
  forbidden_route payload_invalid too_large hash_mismatch key_mismatch expired : ProtocolError

abbrev pub max_agent_message_bytes : ℕ
max_agent_message_bytes = 256 * 1024

abbrev pub route_allows : Header → AgentRoute → Bool
route_allows h r =
    r.sender == h.sender
    && r.receiver == h.receiver
    && r.message_type == h.message_type
    && elem h.artifact_type r.artifact_types

abbrev pub any_allows : Header → List AgentRoute → Bool
any_allows h [] = false
any_allows h (r ∷ rs) = route_allows h r || any_allows h rs

-- `_authorize`
unfoldable pub authorized : Header → Bool
authorized h = any_allows h routes

abbrev pub is_past : ℕ → Option ℕ → Bool
is_past wall none = false
is_past wall (some time) = leb time wall

module _ (enc : Encoding) where
  open enc use {Content, serialized_length, content_digest, key_digest, payload_valid}

  -- What `validate` raises; `none` where the message passes.
  unfoldable pub validate : ℕ → Message Content → Option ProtocolError
  validate wall m =
      if not (authorized m.header)
      then some forbidden_route
      else if not (payload_valid m.header m.content)
      then some payload_invalid
      else if ltb max_agent_message_bytes (serialized_length m.content)
      then some too_large
      else if not (content_digest m.content == m.content_hash)
      then some hash_mismatch
      else if not (key_digest m.header m.content_hash == m.idempotency_key)
      then some key_mismatch
      else if is_past wall m.expires_at
      then some expired
      else none
