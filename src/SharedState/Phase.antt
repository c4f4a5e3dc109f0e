-- ===== src/SharedState/Phase.antt =====
-- The phases of a shared task state, and the agents: `AgentSharedStatePhase` of
-- backend/app/schemas/agent_state.py, `AgentType` of backend/app/schemas/agent_artifacts.py and
-- `ALLOWED_TRANSITIONS` of backend/app/services/agent_shared_state.py.
use ai_planed_map.Prelude.{ℕ, zero, suc, ◌≡◌, refl, List, [], ◌∷◌, Eq, nat_beq, index_beq_iff}

pub data AgentType : Type 0 where
  supervisor intent search safety planner critic companion replanner : AgentType

abbrev pub agent_index : AgentType → ℕ
agent_index supervisor = 0
agent_index intent = 1
agent_index search = 2
agent_index safety = 3
agent_index planner = 4
agent_index critic = 5
agent_index companion = 6
agent_index replanner = 7

abbrev pub agent_member : ℕ → AgentType
agent_member zero = supervisor
agent_member (suc zero) = intent
agent_member (suc (suc zero)) = search
agent_member (suc (suc (suc zero))) = safety
agent_member (suc (suc (suc (suc zero)))) = planner
agent_member (suc (suc (suc (suc (suc zero))))) = critic
agent_member (suc (suc (suc (suc (suc (suc zero)))))) = companion
agent_member (suc (suc (suc (suc (suc (suc (suc n))))))) = replanner

pub agent_member-agent_index : (a : AgentType) → agent_member (agent_index a) ≡ a
agent_member-agent_index supervisor = refl
agent_member-agent_index _ = refl

instance abbrev pub agent_eq : Eq AgentType
agent_eq = record {
  beq = λ a b. nat_beq (agent_index a) (agent_index b);
  beq_iff = index_beq_iff agent_index agent_member agent_member-agent_index;
}

pub data Phase : Type 0 where
  initialized intent_ready search_ready safety_ready plan_ready reviewed : Phase
  retrying finalized in_trip completed failed : Phase

abbrev pub phase_index : Phase → ℕ
phase_index initialized = 0
phase_index intent_ready = 1
phase_index search_ready = 2
phase_index safety_ready = 3
phase_index plan_ready = 4
phase_index reviewed = 5
phase_index retrying = 6
phase_index finalized = 7
phase_index in_trip = 8
phase_index completed = 9
phase_index failed = 10

abbrev pub phase_member : ℕ → Phase
phase_member zero = initialized
phase_member (suc zero) = intent_ready
phase_member (suc (suc zero)) = search_ready
phase_member (suc (suc (suc zero))) = safety_ready
phase_member (suc (suc (suc (suc zero)))) = plan_ready
phase_member (suc (suc (suc (suc (suc zero))))) = reviewed
phase_member (suc (suc (suc (suc (suc (suc zero)))))) = retrying
phase_member (suc (suc (suc (suc (suc (suc (suc zero))))))) = finalized
phase_member (suc (suc (suc (suc (suc (suc (suc (suc zero)))))))) = in_trip
phase_member (suc (suc (suc (suc (suc (suc (suc (suc (suc zero))))))))) = completed
phase_member (suc (suc (suc (suc (suc (suc (suc (suc (suc (suc n)))))))))) = failed

pub phase_member-phase_index : (p : Phase) → phase_member (phase_index p) ≡ p
phase_member-phase_index initialized = refl
phase_member-phase_index _ = refl

instance abbrev pub phase_eq : Eq Phase
phase_eq = record {
  beq = λ a b. nat_beq (phase_index a) (phase_index b);
  beq_iff = index_beq_iff phase_index phase_member phase_member-phase_index;
}

abbrev pub allowed_transitions : Phase → List Phase
allowed_transitions initialized = intent_ready ∷ plan_ready ∷ retrying ∷ failed ∷ []
allowed_transitions intent_ready = search_ready ∷ retrying ∷ finalized ∷ failed ∷ []
allowed_transitions search_ready = safety_ready ∷ plan_ready ∷ retrying ∷ failed ∷ []
allowed_transitions safety_ready = plan_ready ∷ retrying ∷ failed ∷ []
allowed_transitions plan_ready = reviewed ∷ retrying ∷ finalized ∷ in_trip ∷ failed ∷ []
allowed_transitions reviewed = retrying ∷ finalized ∷ failed ∷ []
allowed_transitions retrying = retrying ∷ search_ready ∷ plan_ready ∷ failed ∷ []
allowed_transitions finalized = in_trip ∷ completed ∷ []
allowed_transitions in_trip = in_trip ∷ completed ∷ failed ∷ []
allowed_transitions completed = []
allowed_transitions failed = []
