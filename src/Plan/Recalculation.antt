-- ===== src/Plan/Recalculation.antt =====
-- backend/app/services/plan_patch_validator.py: `recalculate_and_validate_snapshot`. The provider's
-- matrix is an argument.
pub mod Identity
pub mod Passing
pub mod Placed
pub mod Schedule
pub mod Given
pub mod Accepted
use ai_planed_map.Prelude.{
  ℕ, zero, suc, ◌+◌, ◌-◌, String, Bool, true, false, not, ◌&&◌, ◌||◌, Option, none, some, List, [],
  ◌∷◌, ◌++◌, max, ltb, if◌then◌else◌, is_some, get_elem?, length, nat_eq, ◌==◌,
}
use ai_planed_map.Prelude.Dict.{Dict, get, put}
use ai_planed_map.Route.Types.{
  Python, Conflict, TransportMode, Preferences, PlanningTask, HardConstraints, RouteEdge,
  RouteMatrix, CandidateNode, RouteEvaluation,
}
use ai_planed_map.Route.Orders.{positions}
use ai_planed_map.Route.Visits.{edge_at, smaller, is_empty}
use ai_planed_map.Route.Evaluation.{Problem, evaluate_joint_order}
use ai_planed_map.Plan.Patch.{Contents, Stop, Snapshot}
use ai_planed_map.Plan.Snapshots.{
  World, Poi, Details, Rest, contents, ReplanContext, PlanConflict, identity_broken,
  required_removed, of_evaluation, Recalculated, context_missing, fault, returned,
}
use ai_planed_map.Prelude.{◌>>=◌}

module _ (w : World) where
  open w use {python, Coordinate, mentioned}
  open python use {Float, literal, plus}

  abbrev pub or_else {ℓ} : {A : Type ℓ} → Option A → Option A → Option A
  or_else none other = other
  or_else (some a) other = some a

  abbrev pub or_zero : Option Float → Float
  or_zero none = literal 0 0
  or_zero (some x) = x

  abbrev pub or_nought : Option ℕ → ℕ
  or_nought none = 0
  or_nought (some n) = n

  abbrev pub node_of : ℕ → ℕ → Stop (contents w) → CandidateNode python
  node_of task_index position stop = record {
    task_index = task_index;
    candidate_rank = or_nought stop.details.candidate_rank;
    matrix_index = position;
    rating = stop.poi.rating;
    confidence = or_zero stop.poi.confidence;
    estimated_cost_yuan = stop.poi.estimated_cost_yuan;
    open_now = stop.poi.open_now;
    wheelchair_accessible = stop.poi.wheelchair_accessible;
    district = stop.poi.district;
  }

  -- The variables `order`, `selected` and `conflicts` of the first loop.
  pub record Gathered : Type 0 where
    pub order : List ℕ
    pub selected : Dict ℕ (CandidateNode python)
    pub conflicts : List (PlanConflict w)

  abbrev pub broken : Gathered → Gathered
  broken g = record g { conflicts = g.conflicts ++ identity_broken ∷ [] }

  -- The body of the first loop, for the stop at `position`.
  unfoldable pub gather_stop : ℕ → ℕ → Stop (contents w) → Gathered → Gathered
  gather_stop count position stop g = elim (stop.task_index) [
    | none ↦ broken g
    | some task_index ↦
        if not (ltb task_index count) || is_some (get task_index g.selected)
        then broken g
        else record {
          order = g.order ++ task_index ∷ [];
          selected = put task_index (node_of task_index position stop) g.selected;
          conflicts = g.conflicts;
        }
  ]

  unfoldable pub gather : ℕ → ℕ → List (Stop (contents w)) → Gathered → Gathered
  gather count position [] g = g
  gather count position (stop ∷ stops) g =
      gather count (position + 1) stops (gather_stop count position stop g)

  -- `required_missing`
  unfoldable pub missing_from :
      ℕ → List (PlanningTask python) → Dict ℕ (CandidateNode python) → List ℕ
  missing_from index [] selected = []
  missing_from index (task ∷ tasks) selected =
      let rest = missing_from (index + 1) tasks selected in
      if task.required && not (is_some (get index selected)) then index ∷ rest else rest

  abbrev pub removed_conflicts : List ℕ → List (PlanConflict w)
  removed_conflicts [] = []
  removed_conflicts (index ∷ indices) = required_removed (index ∷ indices) ∷ []

  abbrev pub of_evaluations : List Conflict → List (PlanConflict w)
  of_evaluations [] = []
  of_evaluations (conflict ∷ conflicts) = of_evaluation conflict ∷ of_evaluations conflicts

  -- max((int(item.get("safety_buffer_minutes") or 0) for item in ...), default=0)
  abbrev pub safety_buffer : List (Option ℕ) → ℕ
  safety_buffer [] = 0
  safety_buffer (minutes ∷ more) = max (or_nought minutes) (safety_buffer more)

  abbrev pub task_indices : List (CandidateNode python) → List ℕ
  task_indices [] = []
  task_indices (node ∷ nodes) = node.task_index ∷ task_indices nodes

  -- The row of the matrix from which the stop at `result_index` of the evaluation is reached.
  unfoldable pub row_before : RouteEvaluation python → Dict ℕ (CandidateNode python) → ℕ → Option ℕ
  row_before evaluation selected zero = some 0
  row_before evaluation selected (suc before) = do
    task_index ← get_elem? evaluation.order before
    node ← get task_index selected
    some node.matrix_index

  -- The body of the last loop. `none` is a KeyError or an IndexError.
  unfoldable pub timed_stop :
      Problem python
      → RouteEvaluation python
      → Dict ℕ (CandidateNode python)
      → Stop (contents w)
      → Option (Stop (contents w))
  unfolding row_before
  timed_stop problem evaluation selected stop = do
    task_index ← stop.task_index
    result_index ← get task_index (positions 0 (task_indices evaluation.selected_nodes) [])
    node ← get task_index selected
    row ← row_before evaluation selected result_index
    edge ← edge_at python problem.matrix row node.matrix_index
    arrival ← get_elem? evaluation.arrivals result_index
    departure ← get_elem? evaluation.departures result_index
    task ← get_elem? problem.tasks task_index
    some (record stop {
      details = record {
        candidate_rank = stop.details.candidate_rank;
        arrival_time = some arrival;
        departure_time = some departure;
        travel = some edge;
        constraint_satisfied = not (mentioned problem evaluation task.description);
      };
    })

  unfoldable pub timed_stops :
      Problem python
      → RouteEvaluation python
      → Dict ℕ (CandidateNode python)
      → List (Stop (contents w))
      → Option (List (Stop (contents w)))
  timed_stops problem evaluation selected [] = some []
  timed_stops problem evaluation selected (stop ∷ stops) = do
    timed ← timed_stop problem evaluation selected stop
    more ← timed_stops problem evaluation selected stops
    some (timed ∷ more)

  abbrev pub cost_of : Float → List (Stop (contents w)) → Float
  cost_of sum [] = sum
  cost_of sum (stop ∷ stops) = cost_of (plus sum (or_zero stop.poi.estimated_cost_yuan)) stops

  abbrev pub edge_confidence : Option (RouteEdge python) → Float
  edge_confidence none = literal 0 0
  edge_confidence (some edge) = edge.confidence

  abbrev pub least_confidence : Float → List (Stop (contents w)) → Float
  least_confidence least [] = least
  least_confidence least (stop ∷ stops) =
      least_confidence (smaller python least (edge_confidence stop.details.travel)) stops

  abbrev pub confidence_of : List (Stop (contents w)) → Float
  confidence_of [] = literal 0 0
  confidence_of (stop ∷ stops) = least_confidence (edge_confidence stop.details.travel) stops

  abbrev pub locations : List (Stop (contents w)) → List Coordinate
  locations [] = []
  locations (stop ∷ stops) = stop.poi.location ∷ locations stops

  -- The snapshot that the calculation writes.
  abbrev pub written :
      Snapshot (contents w)
      → ℕ
      → RouteEvaluation python
      → List (Stop (contents w))
      → Snapshot (contents w)
  written snapshot departure evaluation stops = record snapshot {
    stops = stops;
    departure_time = some departure;
    rest = record {
      origin = snapshot.rest.origin;
      tasks = snapshot.rest.tasks;
      preferences = snapshot.rest.preferences;
      constraints = snapshot.rest.constraints;
      uncertain = snapshot.rest.uncertain;
      total_distance_meters = evaluation.total_distance;
      total_travel_seconds = evaluation.total_travel_seconds;
      estimated_cost_yuan = cost_of (literal 0 0) stops;
      confidence = confidence_of stops;
      algorithm = "shared-joint-validator-plan-patch";
    };
  }

  abbrev pub problem_of :
      Snapshot (contents w) → ℕ → TransportMode → RouteMatrix python → Problem python
  problem_of snapshot departure mode matrix = record {
    departure = departure;
    tasks = snapshot.rest.tasks;
    matrix = matrix;
    preferences = snapshot.rest.preferences;
    constraints = snapshot.rest.constraints;
    mode = mode;
    safety_buffer_minutes = safety_buffer snapshot.rest.uncertain;
    previous_order = [];
    baseline_distance_meters = none;
  }

  -- What follows the evaluation.
  unfoldable pub conclude :
      Snapshot (contents w)
      → ℕ
      → Problem python
      → Dict ℕ (CandidateNode python)
      → RouteEvaluation python
      → List (Stop (contents w))
      → Recalculated w
  conclude snapshot departure problem selected evaluation stops =
      elim (timed_stops problem evaluation selected stops) [
        | none ↦ fault
        | some timed ↦
            returned (written snapshot departure evaluation timed)
              (of_evaluations evaluation.conflicts)
      ]

  unfoldable pub validate :
      Snapshot (contents w)
      → List (Stop (contents w))
      → ℕ
      → TransportMode
      → RouteMatrix python
      → Recalculated w
  validate snapshot stops departure mode matrix =
      let tasks = snapshot.rest.tasks in
      let gathered =
        gather (length tasks) 1 stops (record { order = []; selected = []; conflicts = [] }) in
      let conflicts =
        gathered.conflicts ++ removed_conflicts (missing_from 0 tasks gathered.selected) in
      let problem = problem_of snapshot departure mode matrix in
      let evaluated : Recalculated w =
        elim (evaluate_joint_order python problem gathered.order gathered.selected) [
          | none ↦ fault
          | some evaluation ↦ conclude snapshot departure problem gathered.selected evaluation stops
        ] in
      if is_empty conflicts then evaluated else returned snapshot conflicts

  -- A mode that is missing is a KeyError.
  unfoldable pub recalculate_and_validate_snapshot :
      (route_matrix : List Coordinate → TransportMode → RouteMatrix python)
      → Snapshot (contents w)
      → List (Stop (contents w))
      → ReplanContext w
      → Recalculated w
  recalculate_and_validate_snapshot route_matrix snapshot stops context =
      elim (or_else context.origin snapshot.rest.origin) [
        | none ↦ context_missing
        | some origin ↦ elim (or_else context.departure_time snapshot.departure_time) [
          | none ↦ context_missing
          | some departure ↦ elim (snapshot.transport_mode) [
            | none ↦ fault
            | some mode ↦
                validate snapshot stops departure mode
                  (route_matrix (origin ∷ locations stops) mode)
          ]
        ]
      ]
