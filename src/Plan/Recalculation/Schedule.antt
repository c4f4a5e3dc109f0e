-- ===== src/Plan/Recalculation/Schedule.antt =====
-- The times that the last loop writes into the stops of a plan.
use native.Mathlib.Nat.{zero-add}
use ai_planed_map.Prelude.{
  ℕ, suc, ◌+◌, ◌≡◌, refl, sym, ap, ◌∙◌, some, List, [], ◌∷◌, arith, get_elem?, nat_eq, ◌>>=◌,
  >>=-eq-some,
}
use ai_planed_map.Prelude.Dict.{Dict, get}
use ai_planed_map.Route.Types.{
  PlanningTask, HardConstraints, RouteEdge, RouteMatrix, CandidateNode, RouteEvaluation,
}
use ai_planed_map.Route.Orders.{positions}
use ai_planed_map.Route.Visits.{edge_at}
use ai_planed_map.Route.Evaluation.{Problem, buffer_of}
use ai_planed_map.Route.Evaluation.Stops.{Kept}
use ai_planed_map.Route.Evaluation.Timetable.{Timetable, done, stop}
use ai_planed_map.Plan.Patch.{Stop}
use ai_planed_map.Plan.Snapshots.{World, Poi, contents}
use ai_planed_map.Plan.Recalculation.{
  row_before, timed_stop, timed_stops, node_of, locations, task_indices,
}
use ai_planed_map.Plan.Recalculation.Identity.{Distinct}
use ai_planed_map.Plan.Recalculation.Placed.{Placed, none_left, place, positions_found}

add_zero : (n : ℕ) → n + 0 ≡ n
add_zero n = omega arith

shift : (k n : ℕ) → (k + 1) + n ≡ k + suc n
shift k n = omega arith

module _ (w : World) where
  open w use {python, Coordinate}
  open python use {microseconds}

  -- What the evaluation reads of a place is what its POI says.
  pub record Describes (poi : Poi w) (node : CandidateNode python) : Type 0 where
    pub same_rating : node.rating ≡ poi.rating
    pub same_cost : node.estimated_cost_yuan ≡ poi.estimated_cost_yuan
    pub same_opening : node.open_now ≡ poi.open_now
    pub same_access : node.wheelchair_accessible ≡ poi.wheelchair_accessible
    pub same_district : node.district ≡ poi.district

  -- The stops of a plan one after another, from the place of a number on (0 is the origin), which is
  -- left at `ready`: each has the way of the matrix from the place before and the times that it is
  -- begun and left, which keep what its task, its POI and the plan's constraints demand.
  pub data Scheduled (tasks : List (PlanningTask python)) (constraints : HardConstraints python)
      (matrix : RouteMatrix python) (places : List Coordinate) (buffer : ℕ)
      : ℕ → ℕ → List (Stop (contents w)) → Type 0 where
    finished : {number ready : ℕ} → Scheduled tasks constraints matrix places buffer number ready []
    at_stop :
        {number ready : ℕ} {stops : List (Stop (contents w))} (s : Stop (contents w))
        (i begun left : ℕ) (task : PlanningTask python) (node : CandidateNode python)
        (edge : RouteEdge python)
        → s.task_index ≡ some i
        → get_elem? tasks i ≡ some task
        → get_elem? places number ≡ some s.poi.location
        → edge_at python matrix number (number + 1) ≡ some edge
        → s.details.travel ≡ some edge
        → s.details.arrival_time ≡ some begun
        → s.details.departure_time ≡ some left
        → Describes s.poi node
        → Kept python constraints buffer ready edge node task begun left
        → Scheduled tasks constraints matrix places buffer (number + 1) left stops
        → Scheduled tasks constraints matrix places buffer number ready (s ∷ stops)

  module _ (problem : Problem python) (found : RouteEvaluation python)
      (selected : Dict ℕ (CandidateNode python)) (places : List Coordinate) where
    abbrev Written : ℕ → ℕ → List (Stop (contents w)) → Type 0
    Written =
        Scheduled problem.tasks problem.constraints problem.matrix places (buffer_of python problem)

    -- The lists of the evaluation from the stop of a number on.
    record Ahead (number previous : ℕ) (order arrivals departures : List ℕ)
        (stops : List (Stop (contents w))) : Type 0 where
      orders : (n : ℕ) → get_elem? found.order (number + n) ≡ get_elem? order n
      begun : (n : ℕ) → get_elem? found.arrivals (number + n) ≡ get_elem? arrivals n
      left : (n : ℕ) → get_elem? found.departures (number + n) ≡ get_elem? departures n
      located : (n : ℕ) → get_elem? places (number + n) ≡ get_elem? (locations w stops) n
      numbered :
          (n i : ℕ)
          → get_elem? order n ≡ some i
          → get i (positions 0 (task_indices w found.selected_nodes) []) ≡ some (number + n)
      row : row_before w found selected number ≡ some previous
      same : previous ≡ number

    first_at :
        {A : Type 0} (xs ys : List A) (x : A) (number : ℕ)
        → ((n : ℕ) → get_elem? xs (number + n) ≡ get_elem? (x ∷ ys) n)
        → get_elem? xs number ≡ some x
    first_at xs ys x number at = ap (get_elem? xs) (sym (add_zero number)) ∙ at 0

    later_at :
        {A : Type 0} (xs ys : List A) (x : A) (number : ℕ)
        → ((n : ℕ) → get_elem? xs (number + n) ≡ get_elem? (x ∷ ys) n)
        → (n : ℕ) → get_elem? xs ((number + 1) + n) ≡ get_elem? ys n
    later_at xs ys x number at n = ap (get_elem? xs) (shift number n) ∙ at (suc n)

    row_after :
        (number i : ℕ) (node : CandidateNode python)
        → get_elem? found.order number ≡ some i
        → get i selected ≡ some node
        → row_before w found selected (number + 1) ≡ some node.matrix_index
    unfolding row_before
    row_after number i node at is =
        let next : number + 1 ≡ suc number = omega arith in rw next (ground arith)

    -- What the last loop writes into one stop.
    timed_stop_lem :
        (s timed : Stop (contents w)) (i number begun left : ℕ) (node : CandidateNode python)
        (edge : RouteEdge python)
        → s.task_index ≡ some i
        → get i (positions 0 (task_indices w found.selected_nodes) []) ≡ some number
        → get i selected ≡ some node
        → row_before w found selected number ≡ some number
        → edge_at python problem.matrix number node.matrix_index ≡ some edge
        → get_elem? found.arrivals number ≡ some begun
        → get_elem? found.departures number ≡ some left
        → timed_stop w problem found selected s ≡ some timed
        → (timed.task_index ≡ some i)
          × (timed.poi ≡ s.poi)
          × (timed.details.travel ≡ some edge)
          × (timed.details.arrival_time ≡ some begun)
          × (timed.details.departure_time ≡ some left)
    unfolding timed_stop
    timed_stop_lem s timed i number begun left node edge a b c d e f g is = ground arith

    -- One stop that is written, before those that follow it.
    schedule_stop :
        (s timed : Stop (contents w)) (i number ready begun left : ℕ) (node : CandidateNode python)
        (edge : RouteEdge python) (task : PlanningTask python) (more : List (Stop (contents w)))
        → s.task_index ≡ some i
        → node ≡ node_of w i (number + 1) s
        → get i (positions 0 (task_indices w found.selected_nodes) []) ≡ some number
        → get i selected ≡ some node
        → row_before w found selected number ≡ some number
        → edge_at python problem.matrix number node.matrix_index ≡ some edge
        → get_elem? found.arrivals number ≡ some begun
        → get_elem? found.departures number ≡ some left
        → get_elem? places number ≡ some s.poi.location
        → get_elem? problem.tasks i ≡ some task
        → Kept python problem.constraints (buffer_of python problem) ready edge node task begun left
        → timed_stop w problem found selected s ≡ some timed
        → Written (number + 1) left more
        → Written number ready (timed ∷ more)
    schedule_stop s timed i number ready begun left node edge task more a from b c d e f g at of
          kept is rest =
        let (named, poi, along, arrival, departure) =
          timed_stop_lem s timed i number begun left node edge a b c d e f g is in
        at_stop timed i begun left task node edge named of
          (at ∙ ap (λ (p : Poi w). some p.location) (sym poi))
          (ap (λ (n : CandidateNode python). edge_at python problem.matrix number n.matrix_index)
              (sym from)
            ∙ e)
          along arrival departure
          (rw (from, poi)
            (record {
              same_rating = refl;
              same_cost = refl;
              same_opening = refl;
              same_access = refl;
              same_district = refl;
            }))
          kept rest

    Ahead-next :
        {number previous : ℕ} {order arrivals departures : List ℕ} {begun left : ℕ}
        {stops : List (Stop (contents w))} {node : CandidateNode python} (s : Stop (contents w))
        (i : ℕ)
        → Ahead number previous (i ∷ order) (begun ∷ arrivals) (left ∷ departures) (s ∷ stops)
        → get_elem? found.order number ≡ some i
        → get i selected ≡ some node
        → node.matrix_index ≡ number + 1
        → Ahead (number + 1) node.matrix_index order arrivals departures stops
    Ahead-next {number} {order = order} {arrivals} {departures} {begun} {left} {stops} {node} s i a
          at is next =
        record {
          orders = later_at found.order order i number a.orders;
          begun = later_at found.arrivals arrivals begun number a.begun;
          left = later_at found.departures departures left number a.left;
          located = later_at places (locations w stops) s.poi.location number a.located;
          numbered = λ n k e. rw (shift number n) (a.numbered (suc n) k e);
          row = row_after number i node at is;
          same = next;
        }

    schedule :
        {position number previous ready : ℕ} {order arrivals departures : List ℕ}
        {nodes : List (CandidateNode python)} {stops timed : List (Stop (contents w))}
        → Placed w selected position stops order
        → position ≡ number + 1
        → Timetable python problem selected previous ready order arrivals departures nodes
        → Ahead number previous order arrivals departures stops
        → timed_stops w problem found selected stops ≡ some timed
        → Written number ready timed
    unfolding timed_stops
    schedule {timed = timed} none_left at done a e =
        let same : [] ≡ timed = cc in rw (← same) finished
    schedule {position} {number} {previous} {ready} {timed = timed}
          (place {stops} {order} s i named is placed) at
          (stop {begun} {left} {arrivals} {departures} node edge task found_at along of kept rest) a
          e =
        let (first, one, e') =
          >>=-eq-some (timed_stop w problem found selected s)
            (λ t. timed_stops w problem found selected stops >>= λ more. some (t ∷ more)) e in
        let (more, others, e'') =
          >>=-eq-some (timed_stops w problem found selected stops) (λ more. some (first ∷ more))
            e' in
        let all : first ∷ more ≡ timed = cc in
        let from : node ≡ node_of w i (number + 1) s = rw (← at) (cc) in
        let here_at = first_at found.order order i number a.orders in
        rw (← all) (
          schedule_stop s first i number ready begun left node edge task more named from
            (rw (add_zero number) at (a.numbered 0 i refl)) found_at (rw a.same at a.row)
            (rw a.same at along) (first_at found.arrivals arrivals begun number a.begun)
            (first_at found.departures departures left number a.left)
            (first_at places (locations w stops) s.poi.location number a.located) of kept one
            (schedule placed (ap (λ n. n + 1) at) rest
              (Ahead-next s i a (here_at) found_at
                (ap (λ (n : CandidateNode python). n.matrix_index) from))
              others))

  -- The nodes of a timetable are those of its order.
  pub nodes_order :
      {problem : Problem python} {selected : Dict ℕ (CandidateNode python)}
      {position previous ready : ℕ} {order arrivals departures : List ℕ}
      {nodes : List (CandidateNode python)} {stops : List (Stop (contents w))}
      → Placed w selected position stops order
      → Timetable python problem selected previous ready order arrivals departures nodes
      → task_indices w nodes ≡ order
  nodes_order none_left done = refl
  nodes_order {position = position} {order = i ∷ order} (place s _ named is placed)
        (stop {nodes} node edge task found_at along of kept rest) =
      let from : node ≡ node_of w i position s = cc in
      let rest' = nodes_order placed rest in rw (from, rest')

  -- What the last loop writes into the stops that the first one placed, for the timetable that was
  -- found for them.
  pub timed_stops-Scheduled :
      (problem : Problem python) (found : RouteEvaluation python)
      (selected : Dict ℕ (CandidateNode python)) (order : List ℕ)
      (stops timed : List (Stop (contents w)))
      → found.order ≡ order
      → Distinct order
      → Placed w selected 1 stops order
      → Timetable python problem selected 0 problem.departure order found.arrivals found.departures
          found.selected_nodes
      → timed_stops w problem found selected stops ≡ some timed
      → Scheduled problem.tasks problem.constraints problem.matrix
          (locations w stops)
          (buffer_of python problem)
          0
          problem.departure
          timed
  unfolding row_before
  timed_stops-Scheduled problem found selected order stops timed ordered distinct placed t e =
      let nodes = nodes_order placed t in
      schedule problem found selected (locations w stops) placed refl t
        (record {
          orders = λ n. rw (zero-add n, ordered) refl;
          begun = λ n. rw (zero-add n) refl;
          left = λ n. rw (zero-add n) refl;
          located = λ n. rw (zero-add n) refl;
          numbered = λ n i at. rw nodes (positions_found i n 0 order [] distinct at);
          row = refl;
          same = refl;
        })
        e
