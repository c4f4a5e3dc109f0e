-- ===== src/Route/Evaluation.antt =====
-- backend/app/services/route_optimizer.py: `evaluate_joint_order` around its loop, and
-- `_evaluation_key` with the comparison of two keys.
pub mod Stops
pub mod Timetable
use ai_planed_map.Prelude.{
  ℕ, ◌+◌, ◌*◌, ◌-◌, String, Bool, false, not, ◌&&◌, ◌||◌, Option, none, some, List, [], ◌∷◌, ◌++◌,
  if◌then◌else◌, is_some, length,
}
use ai_planed_map.Prelude.Dict.{Dict}
use ai_planed_map.Route.Types.{
  Python, Conflict, order_violated, too_long, returns_too_late, too_far_on_foot, price_unknown,
  over_budget, districts_unknown, areas_missing, detour_too_long, detour_without_baseline,
  budgets_without_prices, budgets_not_split, TransportMode, is_walking, is_relaxed, Preferences,
  PlanningTask, HardConstraints, RouteMatrix, CandidateNode, ScoreBreakdown, RouteEvaluation,
}
use ai_planed_map.Route.Orders.{relative_order_satisfied, disagreements}
use ai_planed_map.Route.Visits.{
  Walk, edge_at, visit_all, when, is_empty, some_is, over, minus_buffer, microseconds_per_minute,
  larger,
}

module _ (p : Python) where
  open p use {Float, literal, plus, minus, times, less, truth, microseconds, minutes, contains}

  -- What is given to an evaluation beside the order and the selected nodes.
  pub record Problem : Type 0 where
    pub departure : ℕ
    pub tasks : List (PlanningTask p)
    pub matrix : RouteMatrix p
    pub preferences : Preferences p
    pub constraints : HardConstraints p
    pub mode : TransportMode
    pub safety_buffer_minutes : ℕ
    pub previous_order : List ℕ
    pub baseline_distance_meters : Option Float

  abbrev pub buffer_of : Problem → ℕ
  buffer_of problem = problem.safety_buffer_minutes * microseconds_per_minute

  -- The variables before the loop.
  unfoldable pub start : Problem → List ℕ → Walk p
  start problem order = record {
    cursor = problem.departure;
    previous = 0;
    arrivals = [];
    departures = [];
    conflicts =
        when
          (not (is_empty problem.constraints.required_task_order)
            && not (relative_order_satisfied order problem.constraints.required_task_order))
          order_violated;
    selected_nodes = [];
    total_distance = literal 0 0;
    total_seconds = literal 0 0;
    confidence_penalty = literal 0 0;
    rating_penalty = literal 0 0;
    total_cost = literal 0 0;
    cost_unknown = false;
    visited_districts = [];
  }

  -- if constraints.must_return_to_origin and selected_nodes
  unfoldable pub return_home : Problem → Walk p → Option (Walk p)
  return_home problem w =
      if problem.constraints.must_return_to_origin && not (is_empty w.selected_nodes)
      then (elim (edge_at p problem.matrix w.previous 0) [
        | none ↦ none
        | some edge ↦ some (record w {
          total_seconds = plus w.total_seconds edge.duration_seconds;
          total_distance = plus w.total_distance edge.distance_meters;
          cursor = w.cursor + microseconds edge.duration_seconds;
          confidence_penalty = plus w.confidence_penalty (minus (literal 1 0) edge.confidence);
        })
      ])
      else some w

  abbrev pub above : Option Float → Float → Bool
  above none value = false
  above (some limit) value = less limit value

  abbrev pub minutes_above : Option ℕ → ℕ → Bool
  minutes_above none elapsed = false
  minutes_above (some limit) elapsed = less (literal limit 0) (minutes elapsed)

  abbrev pub budget_conflicts : Option Float → Walk p → List Conflict
  budget_conflicts none w = []
  budget_conflicts (some limit) w =
      if w.cost_unknown then price_unknown ∷ [] else when (less limit w.total_cost) over_budget

  abbrev pub area_conflicts : List String → List String → List Conflict
  area_conflicts areas districts =
      if is_empty areas
      then []
      else if is_empty districts
      then districts_unknown ∷ []
      else when
          (some_is (λ area. not (some_is (λ district. contains area district) districts)) areas)
          areas_missing

  abbrev pub detour_conflicts : Option Float → Option Float → Float → List Conflict
  detour_conflicts none baseline distance = []
  detour_conflicts (some limit) none distance = []
  detour_conflicts (some limit) (some baseline) distance =
      when (less limit (larger p (literal 0 0) (minus distance baseline))) detour_too_long

  -- What the code after the loop appends to `conflicts`.
  unfoldable pub route_conflicts : Problem → Walk p → List Conflict
  route_conflicts problem w =
      when
        (minutes_above problem.constraints.max_total_duration_minutes
          (w.cursor - problem.departure))
        too_long
      ++ (when
            (over p (minus_buffer p (buffer_of problem) problem.constraints.latest_return_time)
              w.cursor)
            returns_too_late
          ++ (when
                (is_walking problem.mode
                  && above problem.constraints.max_walking_meters w.total_distance)
                too_far_on_foot
              ++ (budget_conflicts problem.constraints.max_total_cost_yuan w
                  ++ (area_conflicts problem.constraints.must_pass_areas w.visited_districts
                      ++ detour_conflicts problem.constraints.max_detour_meters
                          problem.baseline_distance_meters w.total_distance))))

  unfoldable pub soft_penalties_of : Problem → Walk p → List Conflict
  soft_penalties_of problem w =
      when
        (is_some problem.constraints.max_detour_meters
          && not (is_some problem.baseline_distance_meters))
        detour_without_baseline
      ++ (if is_some problem.constraints.transport_budget_yuan
            || is_some problem.constraints.dining_budget_yuan
            || is_some problem.constraints.ticket_budget_yuan
          then (if w.cost_unknown then budgets_without_prices else budgets_not_split) ∷ []
          else [])

  abbrev pub doubled : Bool → Float → Float
  doubled twice weight = times weight (if twice then literal 2 0 else literal 1 0)

  unfoldable pub score_of : Problem → List ℕ → Walk p → ℕ → ScoreBreakdown p
  score_of problem order w penalties =
      let weights = problem.preferences.weights in
      let relaxed =
        if is_relaxed problem.preferences.travel_style then literal 15 1 else literal 1 0 in
      let change_component =
        if is_empty problem.previous_order
        then literal 0 0
        else literal (disagreements order problem.previous_order * 120) 0 in
      let travel_time = times w.total_seconds weights.travel_time in
      let walking_time =
        times (if is_walking problem.mode then w.total_seconds else literal 0 0)
          (times (doubled problem.preferences.minimize_walking weights.walking_time) relaxed) in
      let distance =
        times (p.divided w.total_distance (literal 10 0))
          (times (doubled problem.preferences.minimize_distance weights.distance) relaxed) in
      let low_rating =
        times (times w.rating_penalty (literal 600 0))
          (doubled problem.preferences.prefer_high_rating weights.low_rating) in
      let uncertainty = times (times w.confidence_penalty (literal 600 0)) weights.uncertainty in
      let monetary_cost =
        doubled problem.preferences.minimize_cost
          (times (times w.total_cost (literal 60 0)) weights.monetary_cost) in
      let change = times change_component weights.change in
      record {
        travel_time = travel_time;
        walking_time = walking_time;
        distance = distance;
        low_rating = low_rating;
        uncertainty = uncertainty;
        monetary_cost = monetary_cost;
        change = change;
        total =
            plus
              (plus
                (plus
                  (plus (plus (plus (plus travel_time walking_time) distance) low_rating)
                    uncertainty)
                  monetary_cost)
                change)
              (times (literal 180 0) (literal penalties 0));
      }

  abbrev pub evaluation : Problem → List ℕ → Walk p → RouteEvaluation p
  evaluation problem order w =
      let conflicts = w.conflicts ++ route_conflicts problem w in
      let soft_penalties = soft_penalties_of problem w in
      let score = score_of problem order w (length soft_penalties) in
      record {
        order = order;
        selected_nodes = w.selected_nodes;
        arrivals = w.arrivals;
        departures = w.departures;
        total_distance = w.total_distance;
        total_travel_seconds = w.total_seconds;
        feasible = is_empty conflicts;
        conflicts = conflicts ++ soft_penalties;
        cost = score.total;
        score = score;
      }

  unfoldable pub evaluate_joint_order :
      Problem → List ℕ → Dict ℕ (CandidateNode p) → Option (RouteEvaluation p)
  evaluate_joint_order problem order selected =
      elim (visit_all p problem.constraints (buffer_of problem) selected problem.tasks
        problem.matrix order (start problem order)) [
          | none ↦ none
          | some visited ↦ elim (return_home problem visited) [
            | none ↦ none
            | some w ↦ some (evaluation problem order w)
          ]
        ]
