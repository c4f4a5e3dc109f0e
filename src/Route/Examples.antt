-- ===== src/Route/Examples.antt =====
-- The theorems about routes at the sample trip.
use ai_planed_map.Prelude.{ℕ, ◌≡◌, ◌⊎◌, refl, true, none, some, List, [], ◌∷◌, string_eq, Option}
use ai_planed_map.Prelude.Dict.{Dict}
use ai_planed_map.Route.Types.{CandidateNode, RouteEvaluation}
use ai_planed_map.Route.Orders.{relative_order_satisfied}
use ai_planed_map.Route.Visits.{is_empty, begins, stop_conflicts, visit, visit_all}
use ai_planed_map.Route.Evaluation.{
  start, return_home, route_conflicts, soft_penalties_of, score_of, evaluate_joint_order,
}
use ai_planed_map.Route.Evaluation.Timetable.{Timetable, feasible_keeps}
use ai_planed_map.Route.Enumeration.{factorial, permutations, product}
use ai_planed_map.Route.Optimizer.{
  Algorithm, exact_enumeration, optimize_joint_route, candidates_of, baseline_distance,
  evaluate_all, least, better, is_exact,
}
use ai_planed_map.Route.Optimizer.Exact.{Answers, exact_search_complete}
use ai_planed_map.Route.Samples.{hundredths, limits, problem, place}

abbrev selected : Dict ℕ (CandidateNode hundredths)
selected = (0, place 0) ∷ (1, place 1) ∷ []

tour : Option (RouteEvaluation hundredths)
unfolding evaluate_joint_order visit_all visit begins stop_conflicts start return_home
    route_conflicts soft_penalties_of score_of relative_order_satisfied
tour = evaluate_joint_order hundredths problem (0 ∷ 1 ∷ []) selected

abbrev found : RouteEvaluation hundredths
found = record {
  order = 0 ∷ 1 ∷ [];
  selected_nodes = place 0 ∷ place 1 ∷ [];
  arrivals = 600_000_000 ∷ 4_400_000_000 ∷ [];
  departures = 4_200_000_000 ∷ 8_000_000_000 ∷ [];
  total_distance = 90_000;
  total_travel_seconds = 90_000;
  feasible = true;
  conflicts = [];
  cost = 430_350;
  score = record {
    travel_time = 90_000;
    walking_time = 54_000;
    distance = 1_350;
    low_rating = 21_000;
    uncertainty = 24_000;
    monetary_cost = 240_000;
    change = 0;
    total = 430_350;
  };
}

tour_found : evaluate_joint_order hundredths problem (0 ∷ 1 ∷ []) selected ≡ some found
unfolding tour
tour_found = refl

feasible_keeps_example :
    Timetable hundredths problem selected 0 0
      (0 ∷ 1 ∷ [])
      found.arrivals
      found.departures
      found.selected_nodes
    × ((is_empty limits.required_task_order ≡ true)
        ⊎ (relative_order_satisfied (0 ∷ 1 ∷ []) limits.required_task_order ≡ true))
feasible_keeps_example =
    feasible_keeps hundredths problem (0 ∷ 1 ∷ []) selected found tour_found refl

abbrev groups : List (List (CandidateNode hundredths))
groups = (place 0 ∷ []) ∷ (place 1 ∷ []) ∷ []

best_found : optimize_joint_route hundredths problem groups none ≡ some (found, exact_enumeration)
unfolding tour optimize_joint_route candidates_of baseline_distance evaluate_all permutations
    product least better factorial
best_found = refl

few : is_exact hundredths 2 groups ≡ true
unfolding factorial
few = refl

exact_search_complete_example :
    (distance : ℕ) × (baseline_distance hundredths problem groups 0 0 ≡ some distance)
    × ◌≡◌ {A = Algorithm} exact_enumeration exact_enumeration
    × Answers hundredths problem groups distance found
    × ((item : RouteEvaluation hundredths)
        → Answers hundredths problem groups distance item
        → item.feasible ≡ true
        → found.feasible ≡ true)
exact_search_complete_example =
    exact_search_complete hundredths problem groups none found exact_enumeration few best_found
