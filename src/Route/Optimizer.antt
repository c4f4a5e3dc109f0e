-- ===== src/Route/Optimizer.antt =====
-- backend/app/services/route_optimizer.py: `optimize_joint_route` and the choice of the best
-- evaluation. What the OR-Tools solver answers is an argument. `none` is an exception.
pub mod Candidates
pub mod Best
pub mod Exact
use ai_planed_map.Prelude.{
  max, leb, ◌&&◌, ℕ, zero, suc, ◌+◌, ◌*◌, Bool, true, false, not, ◌||◌, Option, none, some, List,
  [], ◌∷◌, ◌++◌, take, ltb, nat_beq, if◌then◌else◌, is_some, elem, nat_eq, length, ◌==◌,
}
use ai_planed_map.Prelude.Dict.{Dict, get, put}
use ai_planed_map.Route.Types.{
  Python, OptimizationGoal, balanced, shortest_time, shortest_distance, Preferences, RouteEdge,
  CandidateNode, RouteEvaluation,
}
use ai_planed_map.Route.Orders.{index_of, keep_those}
use ai_planed_map.Route.Visits.{edge_at, larger, smaller, rating_or_three}
use ai_planed_map.Route.Evaluation.{evaluate_joint_order, Problem}
use ai_planed_map.Route.Enumeration.{range_from, factorial, permutations, product, search_size}
use ai_planed_map.Route.Beam.{State, beam_joint}

pub data Algorithm : Type 0 where
  exact_enumeration ordered_layered_beam beam_search_fallback : Algorithm
  ortools : OptimizationGoal → Algorithm

module _ (p : Python) where
  open p use {Float, literal, plus, minus, times, less, equal}

  abbrev pub Selection : Type 0
  Selection = Dict ℕ (CandidateNode p)

  -- {node.task_index: node for node in selection}
  abbrev pub by_task : Selection → List (CandidateNode p) → Selection
  by_task found [] = found
  by_task found (node ∷ nodes) = by_task (put node.task_index node found) nodes

  abbrev pub by_floats : Float × Float × Float → Float × Float × Float → Bool
  by_floats (a, b, c) (a', b', c') =
      if equal a a' then (if equal b b' then less c c' else less b b') else less a a'

  -- The part of `_evaluation_key` that the goal decides.
  abbrev pub goal_key : OptimizationGoal → RouteEvaluation p → Float × Float × Float
  goal_key shortest_time item = (item.total_travel_seconds, item.total_distance, item.cost)
  goal_key shortest_distance item = (item.total_distance, item.total_travel_seconds, item.cost)
  goal_key balanced item = (item.cost, item.total_distance, item.total_travel_seconds)

  -- _evaluation_key(a) < _evaluation_key(b)
  unfoldable pub better : Preferences p → RouteEvaluation p → RouteEvaluation p → Bool
  better preferences a b =
      let goal = preferences.optimization_goal in
      let later = by_floats (goal_key goal a) (goal_key goal b) in
      if a.feasible
      then (if b.feasible
          then (if nat_beq (length a.conflicts) (length b.conflicts)
              then later
              else ltb (length a.conflicts) (length b.conflicts))
          else true)
      else (if b.feasible
          then false
          else (if nat_beq (length a.conflicts) (length b.conflicts)
              then later
              else ltb (length a.conflicts) (length b.conflicts)))

  -- min(evaluations, key=...): the first of the least.
  unfoldable pub least :
      Preferences p → RouteEvaluation p → List (RouteEvaluation p) → RouteEvaluation p
  least preferences best [] = best
  least preferences best (item ∷ items) =
      least preferences (if better preferences item best then item else best) items

  -- The last word of what is chosen: a list of evaluations has a best one, if it is not empty.
  abbrev pub choose : Preferences p → List (RouteEvaluation p) → Option (RouteEvaluation p)
  choose preferences [] = none
  choose preferences (item ∷ items) = some (least preferences item items)

  abbrev pub and_then :
      Option (RouteEvaluation p)
      → Option (List (RouteEvaluation p))
      → Option (List (RouteEvaluation p))
  and_then none items = none
  and_then (some item) none = none
  and_then (some item) (some items) = some (item ∷ items)

  -- The evaluations of some orders with their selections.
  unfoldable pub evaluate_all :
      Problem p → List (List ℕ × Selection) → Option (List (RouteEvaluation p))
  evaluate_all problem [] = some []
  evaluate_all problem ((order, selected) ∷ rest) =
      and_then (evaluate_joint_order p problem order selected) (evaluate_all problem rest)

  -- The distance of the first candidates in the order of the tasks.
  unfoldable pub baseline_distance :
      Problem p → List (List (CandidateNode p)) → ℕ → Float → Option Float
  baseline_distance problem [] cursor distance = some distance
  baseline_distance problem ([] ∷ groups) cursor distance =
      baseline_distance problem groups cursor distance
  baseline_distance problem ((node ∷ group) ∷ groups) cursor distance =
      elim (edge_at p problem.matrix cursor node.matrix_index) [
        | none ↦ none
        | some edge ↦
            baseline_distance problem groups node.matrix_index (plus distance edge.distance_meters)
      ]

  -- Each selection with each order, the orders inside.
  abbrev pub with_orders : List (List ℕ) → Selection → List (List ℕ × Selection)
  with_orders [] selected = []
  with_orders (order ∷ orders) selected = (order, selected) ∷ with_orders orders selected

  abbrev pub combinations :
      List (List ℕ) → List (List (CandidateNode p)) → List (List ℕ × Selection)
  combinations orders [] = []
  combinations orders (selection ∷ selections) =
      with_orders orders (by_task [] selection) ++ combinations orders selections

  abbrev pub is_exact : ℕ → List (List (CandidateNode p)) → Bool
  is_exact count groups = leb count 6 && leb (search_size groups * max 1 (factorial count)) 60_000

  -- len(order) == count and set(order) == set(range(count))
  abbrev pub all_in : List ℕ → List ℕ → Bool
  all_in [] ys = true
  all_in (x ∷ xs) ys = elem x ys && all_in xs ys

  abbrev pub fixes_order : List ℕ → ℕ → Bool
  fixes_order required count =
      nat_beq (length required) count
      && all_in required (range_from 0 count)
      && all_in (range_from 0 count) required

  abbrev pub tried : List (State p) → List (List ℕ × Selection)
  tried [] = []
  tried (state ∷ states) = (state.order, state.selected) ∷ tried states

  -- What is evaluated, and the name of the algorithm.
  unfoldable pub candidates_of :
      Problem p
      → List (List (CandidateNode p))
      → Option (List ℕ × Selection)
      → Option (List (List ℕ × Selection) × Algorithm)
  candidates_of problem groups solver =
      let count = length problem.tasks in
      let fixed = fixes_order problem.constraints.required_task_order count in
      if is_exact count groups
      then some (
        combinations (permutations count (range_from 0 count)) (product groups),
        exact_enumeration,
      )
      else elim (if fixed then none else solver) [
        | some solution ↦ some (solution ∷ [], ortools problem.preferences.optimization_goal)
        | none ↦ elim (beam_joint p problem groups 250) [
          | none ↦ none
          | some states ↦
              some (tried states, (if fixed then ordered_layered_beam else beam_search_fallback))
        ]
      ]

  abbrev pub with_baseline : Problem p → Float → Problem p
  with_baseline problem distance = record problem { baseline_distance_meters = some distance }

  abbrev pub named_by :
      Algorithm → Option (RouteEvaluation p) → Option (RouteEvaluation p × Algorithm)
  named_by algorithm none = none
  named_by algorithm (some best) = some (best, algorithm)

  unfoldable pub optimize_joint_route :
      Problem p
      → List (List (CandidateNode p))
      → Option (List ℕ × Selection)
      → Option (RouteEvaluation p × Algorithm)
  optimize_joint_route problem groups solver =
      elim (baseline_distance problem groups 0 (literal 0 0)) [
        | none ↦ none
        | some distance ↦ elim (candidates_of problem groups solver) [
          | none ↦ none
          | some (candidates, algorithm) ↦
              elim (evaluate_all (with_baseline problem distance) candidates) [
                | none ↦ none
                | some evaluations ↦ named_by algorithm (choose problem.preferences evaluations)
              ]
        ]
      ]
