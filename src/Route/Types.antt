-- ===== src/Route/Types.antt =====
-- backend/app/schemas/ai_intent.py: the parts of a planning intent that the optimizer reads, and the
-- records of backend/app/services/route_optimizer.py.
use ai_planed_map.Prelude.{ℕ, String, Bool, true, false, Option, List}

-- Python's floats, and the two operations on texts and durations that the optimizer uses. A datetime
-- is the number of microseconds since the earliest one, where subtraction stops. `literal n k` is
-- n / 10^k, `truth` is false of zero alone, `microseconds` is what timedelta(seconds=x) counts, and
-- `minutes` is timedelta(microseconds=n).total_seconds() / 60.
pub record Python : Type 1 where
  pub Float : Type 0
  pub literal : ℕ → ℕ → Float
  pub plus : Float → Float → Float
  pub minus : Float → Float → Float
  pub times : Float → Float → Float
  pub divided : Float → Float → Float
  pub less : Float → Float → Bool
  pub equal : Float → Float → Bool
  pub truth : Float → Bool
  pub microseconds : Float → ℕ
  pub minutes : ℕ → Float
  -- `part in text`
  pub contains : (part text : String) → Bool

pub data TransportMode : Type 0 where
  walking driving transit cycling : TransportMode

abbrev pub is_walking : TransportMode → Bool
is_walking TransportMode.walking = true
is_walking _ = false

pub data OptimizationGoal : Type 0 where
  balanced shortest_time shortest_distance : OptimizationGoal

pub data TravelStyle : Type 0 where
  balanced relaxed intensive : TravelStyle

abbrev pub is_relaxed : TravelStyle → Bool
is_relaxed TravelStyle.relaxed = true
is_relaxed _ = false

-- What an evaluation objects to, in place of the text of the message. Those of a stop have the
-- description of its task. The last three are the soft penalties.
pub data Conflict : Type 0 where
  order_violated : Conflict
  appointment_missed deadline_missed rating_too_low closed : (description : String) → Conflict
  not_accessible district_not_allowed area_avoided too_expensive : (description : String) → Conflict
  too_long returns_too_late too_far_on_foot price_unknown over_budget : Conflict
  districts_unknown areas_missing detour_too_long : Conflict
  detour_without_baseline budgets_without_prices budgets_not_split : Conflict

module _ (p : Python) where
  open p use {Float}

  pub record ObjectiveWeights : Type 0 where
    pub travel_time : Float
    pub walking_time : Float
    pub distance : Float
    pub low_rating : Float
    pub uncertainty : Float
    pub change : Float
    pub monetary_cost : Float

  pub record Preferences : Type 0 where
    pub optimization_goal : OptimizationGoal
    pub travel_style : TravelStyle
    pub minimize_distance : Bool
    pub minimize_walking : Bool
    pub minimize_cost : Bool
    pub prefer_high_rating : Bool
    pub weights : ObjectiveWeights

  pub record PlanningTask : Type 0 where
    pub description : String
    pub service_duration_minutes : ℕ
    pub min_service_duration_minutes : Option ℕ
    pub earliest_arrival : Option ℕ
    pub deadline : Option ℕ
    pub required : Bool
    pub min_rating : Option Float
    pub max_cost_yuan : Option Float
    pub require_open : Bool
    pub require_wheelchair_accessible : Bool
    pub appointment_time : Option ℕ

  -- `wheelchair_users` is that of the party.
  pub record HardConstraints : Type 0 where
    pub latest_return_time : Option ℕ
    pub max_walking_meters : Option Float
    pub max_total_duration_minutes : Option ℕ
    pub max_total_cost_yuan : Option Float
    pub must_return_to_origin : Bool
    pub required_task_order : List ℕ
    pub max_detour_meters : Option Float
    pub avoid_areas : List String
    pub must_pass_areas : List String
    pub allowed_districts : List String
    pub wheelchair_accessible : Bool
    pub wheelchair_users : ℕ
    pub transport_budget_yuan : Option Float
    pub dining_budget_yuan : Option Float
    pub ticket_budget_yuan : Option Float

  pub record RouteEdge : Type 0 where
    pub duration_seconds : Float
    pub distance_meters : Float
    pub confidence : Float

  -- `matrix.edges`
  abbrev pub RouteMatrix : Type 0
  RouteMatrix = List (List RouteEdge)

  pub record CandidateNode : Type 0 where
    pub task_index : ℕ
    pub candidate_rank : ℕ
    pub matrix_index : ℕ
    pub rating : Option Float
    pub confidence : Float
    pub estimated_cost_yuan : Option Float
    pub open_now : Option Bool
    pub wheelchair_accessible : Option Bool
    pub district : Option String

  pub record ScoreBreakdown : Type 0 where
    pub travel_time : Float
    pub walking_time : Float
    pub distance : Float
    pub low_rating : Float
    pub uncertainty : Float
    pub monetary_cost : Float
    pub change : Float
    pub total : Float

  pub record RouteEvaluation : Type 0 where
    pub order : List ℕ
    pub selected_nodes : List CandidateNode
    pub arrivals : List ℕ
    pub departures : List ℕ
    pub total_distance : Float
    pub total_travel_seconds : Float
    pub feasible : Bool
    pub conflicts : List Conflict
    pub cost : Float
    pub score : ScoreBreakdown
