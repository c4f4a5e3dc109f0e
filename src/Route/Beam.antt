-- ===== src/Route/Beam.antt =====
-- backend/app/services/route_optimizer.py: `_beam_joint`. `none` is an IndexError.
use ai_planed_map.Prelude.{
  ℕ, zero, suc, ◌+◌, Bool, not, ◌||◌, Option, none, some, List, [], ◌∷◌, ◌++◌, take, if◌then◌else◌,
  is_some, elem, nat_eq, length, ◌==◌,
}
use ai_planed_map.Prelude.Dict.{Dict, get, put}
use ai_planed_map.Route.Types.{
  Python, OptimizationGoal, balanced, shortest_time, shortest_distance, RouteEdge, CandidateNode,
}
use ai_planed_map.Route.Orders.{index_of, keep_those}
use ai_planed_map.Route.Visits.{edge_at, larger, smaller, rating_or_three}
use ai_planed_map.Route.Evaluation.{Problem}

module _ (p : Python) where
  open p use {Float, literal, plus, minus, times, less}

  -- `_task_order_allowed`
  unfoldable pub task_order_allowed : List ℕ → ℕ → List ℕ → Bool
  task_order_allowed prefix task_index required =
      not (elem task_index required)
      || index_of task_index required == length (keep_those (λ item. elem item required) prefix)

  -- A state of the beam search.
  pub record State : Type 0 where
    pub order : List ℕ
    pub selected : Dict ℕ (CandidateNode p)
    pub previous : ℕ
    pub score : Float

  abbrev pub yuan_or_zero : Option Float → Float
  yuan_or_zero none = literal 0 0
  yuan_or_zero (some yuan) = yuan

  unfoldable pub edge_score : OptimizationGoal → RouteEdge p → CandidateNode p → Float
  edge_score shortest_distance edge node = edge.distance_meters
  edge_score shortest_time edge node = edge.duration_seconds
  edge_score balanced edge node =
      plus
        (plus
          (plus edge.duration_seconds (
            times (minus (literal 1 0) (smaller p edge.confidence node.confidence))
              (literal 600 0)))
          (times (larger p (literal 0 0) (minus (literal 48 1) (rating_or_three p node.rating)))
            (literal 180 0)))
        (times (yuan_or_zero node.estimated_cost_yuan) (literal 60 0))

  abbrev pub join {ℓ} : {A : Type ℓ} → Option (List A) → Option (List A) → Option (List A)
  join none later = none
  join (some xs) none = none
  join (some xs) (some ys) = some (xs ++ ys)

  -- The three loops of one round of the beam.
  unfoldable pub extend_by_group :
      Problem p → State → ℕ → List (CandidateNode p) → Option (List State)
  extend_by_group problem state task_index [] = some []
  extend_by_group problem state task_index (node ∷ group) =
      join
        (elim (edge_at p problem.matrix state.previous node.matrix_index) [
          | none ↦ none
          | some edge ↦ some (
              record {
                order = state.order ++ task_index ∷ [];
                selected = put task_index node state.selected;
                previous = node.matrix_index;
                score =
                    plus state.score (edge_score problem.preferences.optimization_goal edge node);
              }
              ∷ [])
        ])
        (extend_by_group problem state task_index group)

  unfoldable pub extend_state :
      Problem p → State → ℕ → List (List (CandidateNode p)) → Option (List State)
  extend_state problem state task_index [] = some []
  extend_state problem state task_index (group ∷ groups) =
      join
        (if is_some (get task_index state.selected)
            || not
                (task_order_allowed state.order task_index problem.constraints.required_task_order)
          then some []
          else extend_by_group problem state task_index group)
        (extend_state problem state (task_index + 1) groups)

  unfoldable pub extend_all :
      Problem p → List (List (CandidateNode p)) → List State → Option (List State)
  extend_all problem groups [] = some []
  extend_all problem groups (state ∷ states) =
      join (extend_state problem state 0 groups) (extend_all problem groups states)

  -- expanded.sort(key=lambda state: state[3]), which is stable
  abbrev pub insert_state : State → List State → List State
  insert_state state [] = state ∷ []
  insert_state state (other ∷ states) =
      let rest = other ∷ insert_state state states in
      if less other.score state.score then rest else state ∷ other ∷ states

  abbrev pub sort_states : List State → List State
  sort_states [] = []
  sort_states (state ∷ states) = insert_state state (sort_states states)

  unfoldable pub rounds :
      Problem p → List (List (CandidateNode p)) → ℕ → ℕ → List State → Option (List State)
  rounds problem groups beam_width zero states = some states
  rounds problem groups beam_width (suc n) states = elim (extend_all problem groups states) [
    | none ↦ none
    | some expanded ↦ rounds problem groups beam_width n (take beam_width (sort_states expanded))
  ]

  -- `_beam_joint`
  unfoldable pub beam_joint : Problem p → List (List (CandidateNode p)) → ℕ → Option (List State)
  beam_joint problem groups beam_width =
      rounds problem groups beam_width (length groups)
        (record { order = []; selected = []; previous = 0; score = literal 0 0 } ∷ [])
