-- ===== src/Route/Evaluation/Timetable.antt =====
-- What holds of every stop of a feasible evaluation.
use mathlib.Core.List.{append_assoc, append-nil}
use ai_planed_map.Prelude.{
  ◌⊎◌, ℕ, ◌+◌, ◌*◌, ◌≡◌, sym, ap, ◌∙◌, true, some, List, [], ◌∷◌, ◌++◌, arith, get_elem?, nat_eq,
  string_eq, Option-cases, inl, inr,
}
use ai_planed_map.Prelude.Dict.{Dict, get}
use ai_planed_map.Route.Types.{
  Python, Conflict, PlanningTask, RouteEdge, CandidateNode, RouteEvaluation,
}
use ai_planed_map.Route.Orders.{relative_order_satisfied}
use ai_planed_map.Route.Visits.{
  Walk, edge_at, visit, visit_all, begins, stop_conflicts, service_minutes, is_empty,
  microseconds_per_minute,
}
use ai_planed_map.Route.Evaluation.{
  Problem, buffer_of, start, return_home, route_conflicts, evaluation, evaluate_joint_order,
}
use ai_planed_map.Route.Evaluation.Stops.{
  Kept, append_nil_left, append_nil_right, empty, no_conflicts-Kept,
}

module _ (p : Python) where
  open p use {microseconds}

  -- The stops of an order one after another, from the matrix index `previous`, which is left at
  -- `ready`.
  pub data Timetable (problem : Problem p) (selected : Dict ℕ (CandidateNode p))
      : ℕ → ℕ → List ℕ → List ℕ → List ℕ → List (CandidateNode p) → Type 0 where
    done : {previous ready : ℕ} → Timetable problem selected previous ready [] [] [] []
    stop :
        {previous ready task_index begun left : ℕ} {order arrivals departures : List ℕ}
        {nodes : List (CandidateNode p)} (node : CandidateNode p) (edge : RouteEdge p)
        (task : PlanningTask p)
        → get task_index selected ≡ some node
        → edge_at p problem.matrix previous node.matrix_index ≡ some edge
        → get_elem? problem.tasks task_index ≡ some task
        → Kept p problem.constraints (buffer_of p problem) ready edge node task begun left
        → Timetable problem selected node.matrix_index left order arrivals departures nodes
        → Timetable problem selected previous ready
            (task_index ∷ order)
            (begun ∷ arrivals)
            (left ∷ departures)
            (node ∷ nodes)

  -- What the loop appends to the variables of `w`.
  record Appended (problem : Problem p) (selected : Dict ℕ (CandidateNode p)) (order : List ℕ)
      (w w' : Walk p) : Type 0 where
    arrivals : List ℕ
    departures : List ℕ
    conflicts : List Conflict
    nodes : List (CandidateNode p)
    arrivals_at : w'.arrivals ≡ w.arrivals ++ arrivals
    departures_at : w'.departures ≡ w.departures ++ departures
    conflicts_at : w'.conflicts ≡ w.conflicts ++ conflicts
    nodes_at : w'.selected_nodes ≡ w.selected_nodes ++ nodes
    kept :
        conflicts ≡ []
        → Timetable problem selected w.previous w.cursor order arrivals departures nodes

  -- One round of the loop, before what the rounds after it append.
  visited :
      (problem : Problem p) (selected : Dict ℕ (CandidateNode p)) (task_index : ℕ) (order : List ℕ)
      (w w' : Walk p) (node : CandidateNode p) (edge : RouteEdge p) (task : PlanningTask p)
      → get task_index selected ≡ some node
      → edge_at p problem.matrix w.previous node.matrix_index ≡ some edge
      → get_elem? problem.tasks task_index ≡ some task
      → Appended problem selected order
          (visit p problem.constraints (buffer_of p problem) node edge task w)
          w'
      → Appended problem selected (task_index ∷ order) w w'
  unfolding visit
  visited problem selected task_index order w w' node edge task found along of a =
      let reached = w.cursor + microseconds edge.duration_seconds in
      let begun = begins p task reached in
      let left = begun + service_minutes p task * microseconds_per_minute in
      let own =
        stop_conflicts p problem.constraints (buffer_of p problem) task node reached begun in
      record {
        arrivals = begun ∷ a.arrivals;
        departures = left ∷ a.departures;
        conflicts = own ++ a.conflicts;
        nodes = node ∷ a.nodes;
        arrivals_at = a.arrivals_at ∙ append_assoc w.arrivals (begun ∷ []) a.arrivals;
        departures_at = a.departures_at ∙ append_assoc w.departures (left ∷ []) a.departures;
        conflicts_at = a.conflicts_at ∙ append_assoc w.conflicts own a.conflicts;
        nodes_at = a.nodes_at ∙ append_assoc w.selected_nodes (node ∷ []) a.nodes;
        kept = λ none_there.
            stop node edge task found along of
              (no_conflicts-Kept p problem.constraints (buffer_of p problem) w.cursor edge node task
                (append_nil_left own a.conflicts none_there))
              (a.kept (append_nil_right own a.conflicts none_there));
      }

  visit_all-Appended :
      (problem : Problem p) (selected : Dict ℕ (CandidateNode p)) (order : List ℕ) (w w' : Walk p)
      → visit_all p problem.constraints
          (buffer_of p problem)
          selected
          problem.tasks
          problem.matrix
          order
          w
        ≡ some w'
      → Appended problem selected order w w'
  unfolding visit_all
  visit_all-Appended problem selected [] w w' e =
      let same : w ≡ w' = cc in
      rw (← same) (record {
        arrivals = [];
        departures = [];
        conflicts = [];
        nodes = [];
        arrivals_at = sym (append-nil w.arrivals);
        departures_at = sym (append-nil w.departures);
        conflicts_at = sym (append-nil w.conflicts);
        nodes_at = sym (append-nil w.selected_nodes);
        kept = λ _. done;
      })
  visit_all-Appended problem selected (task_index ∷ order) w w' e =
      elim (Option-cases (get task_index selected)) [
        | inl absent ↦ absurd (ground arith)
        | inr (node, found) ↦
            elim (Option-cases (edge_at p problem.matrix w.previous node.matrix_index)) [
              | inl absent ↦ absurd (ground arith)
              | inr (edge, along) ↦ elim (Option-cases (get_elem? problem.tasks task_index)) [
                | inl absent ↦ absurd (ground arith)
                | inr (task, of) ↦
                    let next = visit p problem.constraints (buffer_of p problem) node edge task w in
                    visited problem selected task_index order w w' node edge task found along of (
                      visit_all-Appended problem selected order next w'
                        (rw (found, along, of, visit_all) at e))
              ]
            ]
      ]

  -- An evaluation is feasible only if the loop found no conflict.
  feasible_evaluation :
      (problem : Problem p) (order : List ℕ) (w : Walk p)
      → (evaluation p problem order w).feasible ≡ true
      → (w.conflicts ≡ []) × (route_conflicts p problem w ≡ [])
  feasible_evaluation problem order w e =
      let none_there : w.conflicts ++ route_conflicts p problem w ≡ [] =
        empty (w.conflicts ++ route_conflicts p problem w) e in
      (
        append_nil_left w.conflicts (route_conflicts p problem w) none_there,
        append_nil_right w.conflicts (route_conflicts p problem w) none_there,
      )

  return_home_lem :
      (problem : Problem p) (v w : Walk p)
      → return_home p problem v ≡ some w
      → (w.conflicts ≡ v.conflicts)
        × (w.arrivals ≡ v.arrivals)
        × (w.departures ≡ v.departures)
        × (w.selected_nodes ≡ v.selected_nodes)
  unfolding return_home
  return_home_lem problem v w e = ground arith

  start_lem :
      (problem : Problem p) (order : List ℕ) (conflicts : List Conflict)
      → (start p problem order).conflicts ++ conflicts ≡ []
      → (conflicts ≡ [])
        × ((is_empty problem.constraints.required_task_order ≡ true)
            ⊎ (relative_order_satisfied order problem.constraints.required_task_order ≡ true))
  unfolding start
  start_lem problem order conflicts e = ground arith

  -- What an evaluation that returns went through.
  pub evaluated :
      (problem : Problem p) (order : List ℕ) (selected : Dict ℕ (CandidateNode p))
      (found : RouteEvaluation p)
      → evaluate_joint_order p problem order selected ≡ some found
      → (v w : Walk p) × (visit_all p problem.constraints
            (buffer_of p problem)
            selected
            problem.tasks
            problem.matrix
            order
            (start p problem order)
          ≡ some v)
        × (return_home p problem v ≡ some w)
        × (found ≡ evaluation p problem order w)
  unfolding evaluate_joint_order
  evaluated problem order selected found e =
      elim (Option-cases (
        visit_all p problem.constraints (buffer_of p problem) selected problem.tasks problem.matrix
          order (start p problem order))) [
            | inl absent ↦ absurd (ground arith)
            | inr (v, through) ↦ elim (Option-cases (return_home p problem v)) [
              | inl absent ↦ absurd (ground arith)
              | inr (w, home) ↦ (v, w, through, home, ground arith)
            ]
          ]

  same-Timetable :
      (problem : Problem p) (selected : Dict ℕ (CandidateNode p))
      (order begun begun' left left' : List ℕ) (nodes nodes' : List (CandidateNode p))
      → begun' ≡ begun
      → left' ≡ left
      → nodes' ≡ nodes
      → Timetable problem selected 0 problem.departure order begun left nodes
      → Timetable problem selected 0 problem.departure order begun' left' nodes'
  same-Timetable problem selected order begun begun' left left' nodes nodes' e f g t =
      rw (e, f, g) t

  -- Of a feasible evaluation every stop is reached from the one before it in the time of the matrix,
  -- begins no earlier than it may, at its appointment or later but reached in time for it, and
  -- before its deadline less the buffer, for the whole service; its place has the rating, the
  -- opening, the access, the district and the price that are demanded. Its nodes, arrivals and
  -- departures are those of these stops in the order given, and the order keeps the one required.
  pub feasible_keeps :
      (problem : Problem p) (order : List ℕ) (selected : Dict ℕ (CandidateNode p))
      (found : RouteEvaluation p)
      → evaluate_joint_order p problem order selected ≡ some found
      → found.feasible ≡ true
      → Timetable problem selected 0 problem.departure order found.arrivals found.departures
          found.selected_nodes
        × ((is_empty problem.constraints.required_task_order ≡ true)
            ⊎ (relative_order_satisfied order problem.constraints.required_task_order ≡ true))
  unfolding start
  feasible_keeps problem order selected found e feasible =
      let (v, w, through, home, is) = evaluated problem order selected found e in
      let a = visit_all-Appended problem selected order (start p problem order) v through in
      let h = return_home_lem problem v w home in
      let clear = feasible_evaluation problem order w (ap (λ r. r.feasible) (sym is) ∙ feasible) in
      let fine = start_lem problem order a.conflicts (sym a.conflicts_at ∙ sym h.0 ∙ clear.0) in
      (
        same-Timetable problem selected order a.arrivals found.arrivals a.departures
            found.departures a.nodes found.selected_nodes
            (ap (λ r. r.arrivals) is ∙ h.1 ∙ a.arrivals_at)
            (ap (λ r. r.departures) is ∙ h.2 ∙ a.departures_at)
            (ap (λ r. r.selected_nodes) is ∙ h.3 ∙ a.nodes_at) (a.kept fine.0),
        fine.1,
      )
