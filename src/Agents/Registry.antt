-- ===== src/Agents/Registry.antt =====
-- backend/app/services/agent_tool_registry.py: the capabilities, and who may invoke which.
pub mod Grants
pub mod Offered
use ai_planed_map.Prelude.{
  ℕ, zero, suc, ◌≡◌, refl, String, Bool, true, false, not, ◌&&◌, ◌||◌, Option, none, some, List, [],
  ◌∷◌, nat_beq, if◌then◌else◌, elem, Eq, index_beq_iff, ◌==◌, string_eq,
}
use ai_planed_map.Prelude.Dict.{Dict, get, put}
pub use ai_planed_map.SharedState.Phase.{AgentType, agent_eq}

pub data InvocationMode : Type 0 where
  agent_callable internal_stage workflow_only : InvocationMode

abbrev mode_index : InvocationMode → ℕ
mode_index InvocationMode.agent_callable = 0
mode_index InvocationMode.internal_stage = 1
mode_index InvocationMode.workflow_only = 2

abbrev mode_member : ℕ → InvocationMode
mode_member zero = InvocationMode.agent_callable
mode_member (suc zero) = InvocationMode.internal_stage
mode_member (suc (suc n)) = InvocationMode.workflow_only

pub mode_member-mode_index : (a : InvocationMode) → mode_member (mode_index a) ≡ a
mode_member-mode_index InvocationMode.agent_callable = refl
mode_member-mode_index _ = refl

instance abbrev pub mode_eq : Eq InvocationMode
mode_eq = record {
  beq = λ a b. nat_beq (mode_index a) (mode_index b);
  beq_iff = index_beq_iff mode_index mode_member mode_member-mode_index;
}

pub data DataScope : Type 0 where
  planning_request map_search safety_review route_matrix route_optimization transit_routes
        trip_state precise_location weather replan_proposal external_share user_preferences :
      DataScope

abbrev data_scope_index : DataScope → ℕ
data_scope_index DataScope.planning_request = 0
data_scope_index DataScope.map_search = 1
data_scope_index DataScope.safety_review = 2
data_scope_index DataScope.route_matrix = 3
data_scope_index DataScope.route_optimization = 4
data_scope_index DataScope.transit_routes = 5
data_scope_index DataScope.trip_state = 6
data_scope_index DataScope.precise_location = 7
data_scope_index DataScope.weather = 8
data_scope_index DataScope.replan_proposal = 9
data_scope_index DataScope.external_share = 10
data_scope_index DataScope.user_preferences = 11

abbrev data_scope_member : ℕ → DataScope
data_scope_member zero = DataScope.planning_request
data_scope_member (suc zero) = DataScope.map_search
data_scope_member (suc (suc zero)) = DataScope.safety_review
data_scope_member (suc (suc (suc zero))) = DataScope.route_matrix
data_scope_member (suc (suc (suc (suc zero)))) = DataScope.route_optimization
data_scope_member (suc (suc (suc (suc (suc zero))))) = DataScope.transit_routes
data_scope_member (suc (suc (suc (suc (suc (suc zero)))))) = DataScope.trip_state
data_scope_member (suc (suc (suc (suc (suc (suc (suc zero))))))) = DataScope.precise_location
data_scope_member (suc (suc (suc (suc (suc (suc (suc (suc zero)))))))) = DataScope.weather
data_scope_member (suc (suc (suc (suc (suc (suc (suc (suc (suc zero))))))))) =
    DataScope.replan_proposal
data_scope_member (suc (suc (suc (suc (suc (suc (suc (suc (suc (suc zero)))))))))) =
    DataScope.external_share
data_scope_member (suc (suc (suc (suc (suc (suc (suc (suc (suc (suc (suc n))))))))))) =
    DataScope.user_preferences

pub data_scope_member-data_scope_index :
    (a : DataScope) → data_scope_member (data_scope_index a) ≡ a
data_scope_member-data_scope_index DataScope.planning_request = refl
data_scope_member-data_scope_index _ = refl

instance abbrev pub data_scope_eq : Eq DataScope
data_scope_eq = record {
  beq = λ a b. nat_beq (data_scope_index a) (data_scope_index b);
  beq_iff = index_beq_iff data_scope_index data_scope_member data_scope_member-data_scope_index;
}

-- The frozen sets are lists.
pub record AgentCapability : Type 0 where
  pub name : String
  pub agents : List AgentType
  pub invocation_mode : InvocationMode
  pub data_scopes : List DataScope
  pub side_effect : String
  pub argument_schema_ref : Option String

abbrev entry :
    String
    → List AgentType
    → InvocationMode
    → List DataScope
    → String
    → Option String
    → AgentCapability
entry name agents mode scopes side_effect schema = record {
  name = name;
  agents = agents;
  invocation_mode = mode;
  data_scopes = scopes;
  side_effect = side_effect;
  argument_schema_ref = schema;
}

-- CAPABILITIES
unfoldable pub capabilities : List AgentCapability
capabilities =
    entry "parse_requirement" (AgentType.intent ∷ []) InvocationMode.internal_stage
      (DataScope.planning_request ∷ []) "read_only" (some "ParseRequirementArgs")
    ∷ entry "search_poi" (AgentType.search ∷ []) InvocationMode.internal_stage
        (DataScope.map_search ∷ []) "read_only" (some "SearchPoiArgs")
    ∷ entry "check_travel_safety" (AgentType.safety ∷ []) InvocationMode.internal_stage
        (DataScope.safety_review ∷ []) "read_only" (some "SafetyCheckArgs")
    ∷ entry "get_route_matrix" (AgentType.planner ∷ []) InvocationMode.internal_stage
        (DataScope.route_matrix ∷ []) "read_only" (some "RouteMatrixArgs")
    ∷ entry "optimize_route" (AgentType.planner ∷ []) InvocationMode.internal_stage
        (DataScope.route_optimization ∷ []) "read_only" (some "OptimizeRouteArgs")
    ∷ entry "verify_transit_edges" (AgentType.planner ∷ []) InvocationMode.internal_stage
        (DataScope.transit_routes ∷ []) "read_only" (some "RouteMatrixArgs")
    ∷ entry "get_trip_state" (AgentType.companion ∷ []) InvocationMode.agent_callable
        (DataScope.trip_state ∷ []) "read_only" (some "TripStateQueryArgs")
    ∷ entry "get_current_location" (AgentType.companion ∷ []) InvocationMode.agent_callable
        (DataScope.precise_location ∷ []) "read_only" (some "CurrentLocationQueryArgs")
    ∷ entry "get_weather" (AgentType.companion ∷ []) InvocationMode.agent_callable
        (DataScope.weather ∷ []) "read_only" (some "WeatherQueryArgs")
    ∷ entry "propose_replan" (AgentType.companion ∷ []) InvocationMode.agent_callable
        (DataScope.trip_state ∷ DataScope.replan_proposal ∷ []) "proposal_only"
        (some "ReplanProposalArgs")
    ∷ entry "generate_attraction_brief" ([]) InvocationMode.workflow_only
        (DataScope.trip_state ∷ []) "read_only" none
    ∷ entry "create_plan_patch" ([]) InvocationMode.workflow_only
        (DataScope.trip_state ∷ DataScope.replan_proposal ∷ []) "proposal_persist" none
    ∷ entry "share_trip_status" ([]) InvocationMode.workflow_only
        (DataScope.trip_state ∷ DataScope.external_share ∷ []) "external_write" none
    ∷ entry "load_confirmed_preferences" ([]) InvocationMode.workflow_only
        (DataScope.user_preferences ∷ []) "read_only" none
    ∷ entry "save_explicit_preference" ([]) InvocationMode.workflow_only
        (DataScope.user_preferences ∷ []) "persistent_write" none
    ∷ entry "delete_explicit_preference" ([]) InvocationMode.workflow_only
        (DataScope.user_preferences ∷ []) "persistent_delete" none
    ∷ []

pub data Denial : Type 0 where
  tool_not_registered tool_not_allowed_for_agent : Denial
  invocation_mode_not_allowed data_scope_not_allowed : Denial

-- `CapabilityGrant`, or the reason of the `CapabilityAuthorizationError`.
pub data Authorization : Type 0 where
  denied : Denial → Authorization
  granted : AgentCapability → Authorization

-- `{item.name: item for item in capabilities}`
abbrev pub by_name :
    Dict String AgentCapability → List AgentCapability → Dict String AgentCapability
by_name found [] = found
by_name found (item ∷ items) = by_name (put item.name item found) items

-- `TOOL_REGISTRY.get(name)`
unfoldable pub find_capability : String → Option AgentCapability
unfolding capabilities
find_capability name = get name (by_name [] capabilities)

-- The comprehension of `names_for`.
abbrev pub names_in : (AgentCapability → Bool) → Dict String AgentCapability → List String
names_in test [] = []
names_in test ((name, item) ∷ items) =
    let rest = names_in test items in if test item then item.name ∷ rest else rest

-- What an agent may use in a mode.
abbrev pub usable_by : AgentType → InvocationMode → AgentCapability → Bool
usable_by agent mode item = elem agent item.agents && item.invocation_mode == mode

-- TOOL_REGISTRY.names_for
unfoldable pub names_for : AgentType → InvocationMode → List String
unfolding capabilities
names_for agent mode = names_in (usable_by agent mode) (by_name [] capabilities)

abbrev pub all_scopes_in : List DataScope → List DataScope → Bool
all_scopes_in [] scopes = true
all_scopes_in (scope ∷ more) scopes = elem scope scopes && all_scopes_in more scopes

-- Equality of two sets.
abbrev pub same_scopes : List DataScope → List DataScope → Bool
same_scopes xs ys = all_scopes_in xs ys && all_scopes_in ys xs

-- What `authorize` says of what it finds under the name.
unfoldable pub authorize_registered :
    AgentType → InvocationMode → List DataScope → AgentCapability → Authorization
authorize_registered agent mode requested registered =
    if not (elem agent registered.agents)
    then denied tool_not_allowed_for_agent
    else if not (registered.invocation_mode == mode)
    then denied invocation_mode_not_allowed
    else if not (same_scopes requested registered.data_scopes)
    then denied data_scope_not_allowed
    else granted registered

-- TOOL_REGISTRY.authorize
unfoldable pub authorize : AgentType → String → InvocationMode → List DataScope → Authorization
authorize agent name mode requested = elim (find_capability name) [
  | none ↦ denied tool_not_registered
  | some registered ↦ authorize_registered agent mode requested registered
]
