-- ===== src/Plan/Snapshots.antt =====
-- The columns of a plan's snapshot that backend/app/services/plan_patch_validator.py reads and
-- writes, and what its calculation answers.
use ai_planed_map.Prelude.{ℕ, String, Bool, Option, List, nat_eq}
use ai_planed_map.Route.Types.{
  Python, Conflict, TransportMode, Preferences, PlanningTask, HardConstraints, RouteEdge,
  RouteEvaluation,
}
use ai_planed_map.Route.Evaluation.{Problem}
use ai_planed_map.Plan.Patch.{Contents, Snapshot}

-- Python, the type of a coordinate, and whether the text of a conflict of an evaluation contains a
-- description.
pub record World : Type 1 where
  pub python : Python
  pub Coordinate : Type 0
  pub mentioned : Problem python → RouteEvaluation python → String → Bool

module _ (w : World) where
  open w use {python, Coordinate, mentioned}
  open python use {Float, literal, plus}

  -- The POI of a stop.
  pub record Poi : Type 0 where
    pub id : String
    pub location : Coordinate
    pub rating : Option Float
    pub confidence : Option Float
    pub estimated_cost_yuan : Option Float
    pub open_now : Option Bool
    pub wheelchair_accessible : Option Bool
    pub district : Option String

  pub record Details : Type 0 where
    pub candidate_rank : Option ℕ
    pub arrival_time : Option ℕ
    pub departure_time : Option ℕ
    pub travel : Option (RouteEdge python)
    pub constraint_satisfied : Bool

  -- What else a snapshot has: the origin, the intent with its hard constraints and the buffers of
  -- its uncertain ones, and what the calculation found.
  pub record Rest : Type 0 where
    pub origin : Option Coordinate
    pub tasks : List (PlanningTask python)
    pub preferences : Preferences python
    pub constraints : HardConstraints python
    pub uncertain : List (Option ℕ)
    pub total_distance_meters : Float
    pub total_travel_seconds : Float
    pub estimated_cost_yuan : Float
    pub confidence : Float
    pub algorithm : String

  abbrev pub contents : Contents
  contents = record {
    Poi = Poi;
    poi_id = λ poi. poi.id;
    Task = PlanningTask python;
    Details = Details;
    Mode = TransportMode;
    Rest = Rest;
  }

  -- `replan_context`, empty where there is none.
  pub record ReplanContext : Type 0 where
    pub origin : Option Coordinate
    pub departure_time : Option ℕ

  pub data PlanConflict : Type 0 where
    identity_broken : PlanConflict
    required_removed : (indices : List ℕ) → PlanConflict
    of_evaluation : Conflict → PlanConflict

  -- `context_missing` is the AppError, `fault` any other exception.
  pub data Recalculated : Type 0 where
    context_missing fault : Recalculated
    returned : (snapshot : Snapshot contents) (conflicts : List PlanConflict) → Recalculated
