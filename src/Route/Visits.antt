-- ===== src/Route/Visits.antt =====
-- backend/app/services/route_optimizer.py: the loop of `evaluate_joint_order` over the stops. Its
-- body is `visit`, on a record of the variables that it changes. `none` is a KeyError or an
-- IndexError.
use ai_planed_map.Prelude.{
  ℕ, ◌+◌, ◌*◌, ◌-◌, ◌^◌, String, Bool, true, false, not, ◌&&◌, ◌||◌, Option, none, some, List, [],
  ◌∷◌, ◌++◌, max, ltb, if◌then◌else◌, get_elem?, elem, ◌==◌, nat_eq, string_eq,
}
use ai_planed_map.Prelude.Dict.{Dict, get}
use ai_planed_map.Route.Types.{
  Python, Conflict, appointment_missed, deadline_missed, rating_too_low, closed, not_accessible,
  district_not_allowed, area_avoided, too_expensive, PlanningTask, HardConstraints, RouteEdge,
  RouteMatrix, CandidateNode,
}

-- `if test: conflicts.append(conflict)`
abbrev pub when : Bool → Conflict → List Conflict
when test conflict = if test then conflict ∷ [] else []

abbrev pub is_empty {ℓ} : {A : Type ℓ} → List A → Bool
is_empty [] = true
is_empty (x ∷ xs) = false

abbrev pub some_is {ℓ} : {A : Type ℓ} → (A → Bool) → List A → Bool
some_is test [] = false
some_is test (x ∷ xs) = test x || some_is test xs

abbrev pub microseconds_per_minute : ℕ
microseconds_per_minute = 60 * 10 ^ 6

module _ (p : Python) where
  open p use {Float, literal, plus, minus, less, truth, microseconds, contains}

  -- The variables of the loop.
  pub record Walk : Type 0 where
    pub cursor : ℕ
    pub previous : ℕ
    pub arrivals : List ℕ
    pub departures : List ℕ
    pub conflicts : List Conflict
    pub selected_nodes : List (CandidateNode p)
    pub total_distance : Float
    pub total_seconds : Float
    pub confidence_penalty : Float
    pub rating_penalty : Float
    pub total_cost : Float
    pub cost_unknown : Bool
    pub visited_districts : List String

  -- max(a, b) and min(a, b) of Python: the first unless the second is larger, or smaller
  abbrev pub larger : Float → Float → Float
  larger a b = if less a b then b else a

  abbrev pub smaller : Float → Float → Float
  smaller a b = if less b a then b else a

  -- matrix.edges[i][j]
  abbrev pub edge_at : RouteMatrix p → ℕ → ℕ → Option (RouteEdge p)
  edge_at edges i j = elim (get_elem? edges i) [ none ↦ none | some row ↦ get_elem? row j ]

  -- The cursor when a visit may begin, from when the place is reached.
  unfoldable pub begins : PlanningTask p → ℕ → ℕ
  begins task reached =
      let met : ℕ = elim (task.appointment_time) [
        | none ↦ reached
        | some at ↦ (if ltb reached at then at else reached)
      ] in
      elim (task.earliest_arrival) [ none ↦ met | some at ↦ (if ltb met at then at else met) ]

  abbrev pub service_minutes : PlanningTask p → ℕ
  service_minutes task =
      max task.service_duration_minutes
        (elim (task.min_service_duration_minutes) [ none ↦ 0 | some least ↦ least ])

  abbrev pub over : Option ℕ → ℕ → Bool
  over none time = false
  over (some limit) time = ltb limit time

  abbrev pub minus_buffer : ℕ → Option ℕ → Option ℕ
  minus_buffer buffer none = none
  minus_buffer buffer (some time) = some (time - buffer)

  abbrev pub rating_below : Option Float → Option Float → Bool
  rating_below rating none = false
  rating_below none (some least) = true
  rating_below (some rating) (some least) = less rating least

  abbrev pub exceeds : Option Float → Option Float → Bool
  exceeds none limit = false
  exceeds (some cost) none = false
  exceeds (some cost) (some limit) = less limit cost

  abbrev pub is_false : Option Bool → Bool
  is_false (some false) = true
  is_false _ = false

  abbrev pub is_true : Option Bool → Bool
  is_true (some true) = true
  is_true _ = false

  -- if node.district: the empty text counts as none
  abbrev pub named : Option String → List String
  named none = []
  named (some district) = if district == "" then [] else district ∷ []

  abbrev pub within : Option String → List String → Bool
  within none districts = false
  within (some district) districts = elem district districts

  -- What the body of the loop appends to `conflicts`.
  unfoldable pub stop_conflicts :
      HardConstraints p → ℕ → PlanningTask p → CandidateNode p → ℕ → ℕ → List Conflict
  stop_conflicts constraints buffer task node reached begun =
      when (over task.appointment_time reached) (appointment_missed task.description)
      ++ (when (over (minus_buffer buffer task.deadline) begun) (deadline_missed task.description)
          ++ (when (rating_below node.rating task.min_rating) (rating_too_low task.description)
              ++ (when (task.require_open && is_false node.open_now) (closed task.description)
                  ++ (when
                        ((task.require_wheelchair_accessible
                            || constraints.wheelchair_accessible
                            || ltb 0 constraints.wheelchair_users)
                          && not (is_true node.wheelchair_accessible))
                        (not_accessible task.description)
                      ++ (when
                            (not (is_empty constraints.allowed_districts)
                              && not (within node.district constraints.allowed_districts))
                            (district_not_allowed task.description)
                          ++ (when
                                (some_is
                                  (λ district.
                                    some_is (λ area. contains area district)
                                      constraints.avoid_areas)
                                  (named node.district))
                                (area_avoided task.description)
                              ++ when (exceeds node.estimated_cost_yuan task.max_cost_yuan)
                                  (too_expensive task.description)))))))

  abbrev pub rating_or_three : Option Float → Float
  rating_or_three none = literal 3 0
  rating_or_three (some rating) = if truth rating then rating else literal 3 0

  -- The body of the loop, once node, edge and task are read.
  unfoldable pub visit :
      HardConstraints p → ℕ → CandidateNode p → RouteEdge p → PlanningTask p → Walk → Walk
  unfolding begins
  visit constraints buffer node edge task w =
      let reached = w.cursor + microseconds edge.duration_seconds in
      let begun = begins task reached in
      let left = begun + service_minutes task * microseconds_per_minute in
      record {
        cursor = left;
        previous = node.matrix_index;
        arrivals = w.arrivals ++ begun ∷ [];
        departures = w.departures ++ left ∷ [];
        conflicts = w.conflicts ++ stop_conflicts constraints buffer task node reached begun;
        selected_nodes = w.selected_nodes ++ node ∷ [];
        total_distance = plus w.total_distance edge.distance_meters;
        total_seconds = plus w.total_seconds edge.duration_seconds;
        confidence_penalty =
            plus w.confidence_penalty
              (minus (literal 1 0) (smaller edge.confidence node.confidence));
        rating_penalty =
            plus w.rating_penalty
              (larger (literal 0 0) (minus (literal 5 0) (rating_or_three node.rating)));
        total_cost = elim (node.estimated_cost_yuan) [
          | none ↦ w.total_cost
          | some yuan ↦ plus w.total_cost yuan
        ];
        cost_unknown = elim (node.estimated_cost_yuan) [ none ↦ true | some yuan ↦ w.cost_unknown ];
        visited_districts = w.visited_districts ++ named node.district;
      }

  -- The loop over the order.
  unfoldable pub visit_all :
      HardConstraints p
      → ℕ
      → Dict ℕ (CandidateNode p)
      → List (PlanningTask p)
      → RouteMatrix p
      → List ℕ
      → Walk
      → Option Walk
  visit_all constraints buffer selected tasks edges [] w = some w
  visit_all constraints buffer selected tasks edges (task_index ∷ order) w =
      elim (get task_index selected) [
        | none ↦ none
        | some node ↦ elim (edge_at edges w.previous node.matrix_index) [
          | none ↦ none
          | some edge ↦ elim (get_elem? tasks task_index) [
            | none ↦ none
            | some task ↦
                visit_all constraints buffer selected tasks edges order
                  (visit constraints buffer node edge task w)
          ]
        ]
      ]
