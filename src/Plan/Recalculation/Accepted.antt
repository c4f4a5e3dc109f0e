-- ===== src/Plan/Recalculation/Accepted.antt =====
-- What holds of a plan that the validation lets pass, and which plans it can never let pass.
use native.Mathlib.Nat.{zero-add}
use ai_planed_map.Prelude.{
  ℕ, ◌<◌, ◌≡◌, ◌≢◌, refl, sym, ap, ◌∙◌, true, none, some, List, [], ◌∷◌, ◌++◌, arith, length,
  get_elem?, is_some, inl, inr, ◌⊎◌, nat_eq,
}
use ai_planed_map.Prelude.Dict.{Dict, get}
use ai_planed_map.Route.Types.{
  TransportMode, PlanningTask, CandidateNode, RouteMatrix, RouteEvaluation,
}
use ai_planed_map.Route.Orders.{relative_order_satisfied}
use ai_planed_map.Route.Enumeration.Complete.{In}
use ai_planed_map.Route.Visits.{is_empty, Walk}
use ai_planed_map.Route.Evaluation.{
  Problem, buffer_of, evaluate_joint_order, soft_penalties_of, route_conflicts,
}
use ai_planed_map.Route.Evaluation.Stops.{append_nil_left, append_nil_right}
use ai_planed_map.Route.Evaluation.Timetable.{evaluated, feasible_keeps}
use ai_planed_map.Plan.Patch.{Stop, Snapshot}
use ai_planed_map.Plan.Patch.Positions.{obligations}
use ai_planed_map.Plan.Snapshots.{World, contents, ReplanContext, returned}
use ai_planed_map.Plan.Recalculation.{problem_of, recalculate_and_validate_snapshot, locations}
use ai_planed_map.Plan.Recalculation.Schedule.{Scheduled, timed_stops-Scheduled}
use ai_planed_map.Plan.Recalculation.Given.{
  Chosen, Given, recalculate-validate, Buffered, safety_buffer-Buffered,
}
use ai_planed_map.Plan.Recalculation.Identity.{Distinct, indices, known}
use ai_planed_map.Plan.Recalculation.Passing.{
  Passed, missing_none, timed_stops-obligations, validate-Passed,
}

module _ (w : World) where
  open w use {python, Coordinate}

  -- The conflicts that an evaluation returns are those that make it infeasible and the soft
  -- penalties.
  feasible_of_clear :
      (problem : Problem python) (order : List ℕ) (selected : Dict ℕ (CandidateNode python))
      (found : RouteEvaluation python)
      → evaluate_joint_order python problem order selected ≡ some found
      → found.conflicts ≡ []
      → (found.feasible ≡ true)
        × (walk : Walk python) × (soft_penalties_of python problem walk ≡ [])
  feasible_of_clear problem order selected found e clear =
      let (v, walk, through, home, is) = evaluated python problem order selected found e in
      let hard = walk.conflicts ++ route_conflicts python problem walk in
      let soft = soft_penalties_of python problem walk in
      let all_clear : hard ++ soft ≡ [] = ap (λ r. r.conflicts) (sym is) ∙ clear in
      (
        ap (λ r. r.feasible) is ∙ ap is_empty (append_nil_left hard soft all_clear),
        walk,
        append_nil_right hard soft all_clear,
      )

  detour_limit_penalised :
      (problem : Problem python) (walk : Walk python) (limit : python.Float)
      → problem.constraints.max_detour_meters ≡ some limit
      → problem.baseline_distance_meters ≡ none
      → soft_penalties_of python problem walk ≢ []
  unfolding soft_penalties_of
  detour_limit_penalised problem walk limit has none_there e = ground arith

  taken_there :
      (i : ℕ) (taken : List ℕ)
      → (is_some (get {V = CandidateNode python} i []) ≡ true) ⊎ In i taken
      → In i taken
  taken_there i taken (inl none_there) = cc
  taken_there i taken (inr found) = found

  -- A plan `s` that passes the validation, made of the stops that a patch left.
  pub record Accepted (route_matrix : List Coordinate → TransportMode → RouteMatrix python)
      (context : ReplanContext w) (snapshot : Snapshot (contents w))
      (stops : List (Stop (contents w))) (s : Snapshot (contents w)) : Type 0 where
    pub order : List ℕ
    pub named : indices w stops ≡ known w order
    pub distinct : Distinct order
    pub in_range : (i : ℕ) → In i order → i < length snapshot.rest.tasks
    pub complete :
        (i : ℕ) (task : PlanningTask python)
        → get_elem? snapshot.rest.tasks i ≡ some task
        → task.required ≡ true
        → In i order
    pub in_order :
        (is_empty snapshot.rest.constraints.required_task_order ≡ true)
        ⊎ (relative_order_satisfied order snapshot.rest.constraints.required_task_order ≡ true)
    pub same_obligations : obligations (contents w) s.stops ≡ obligations (contents w) stops
    pub keeps_tasks : s.rest.tasks ≡ snapshot.rest.tasks
    pub keeps_constraints : s.rest.constraints ≡ snapshot.rest.constraints
    pub origin : Coordinate
    pub starts : Chosen w context.origin snapshot.rest.origin origin
    pub departure : ℕ
    pub departs : Chosen w context.departure_time snapshot.departure_time departure
    pub leaves : s.departure_time ≡ some departure
    pub mode : TransportMode
    pub travels : snapshot.transport_mode ≡ some mode
    pub places : List Coordinate
    pub buffer : ℕ
    pub buffered : Buffered w buffer snapshot.rest.uncertain
    pub scheduled :
        Scheduled w snapshot.rest.tasks snapshot.rest.constraints
          (route_matrix (origin ∷ places) mode)
          places
          buffer
          0
          departure
          s.stops

  Passed-Accepted :
      (route_matrix : List Coordinate → TransportMode → RouteMatrix python)
      (snapshot s : Snapshot (contents w)) (stops : List (Stop (contents w)))
      (context : ReplanContext w) (given : Given w route_matrix snapshot s stops context [])
      → Passed w snapshot stops given.departure given.mode
          (route_matrix (given.origin ∷ locations w stops) given.mode)
          s
      → Accepted route_matrix context snapshot stops s
  Passed-Accepted route_matrix snapshot s stops context given q =
      let matrix = route_matrix (given.origin ∷ locations w stops) given.mode in
      let problem = problem_of w snapshot given.departure given.mode matrix in
      let kept =
        feasible_keeps python problem q.gathered.order q.gathered.selected q.found q.is_found
          (feasible_of_clear problem q.gathered.order q.gathered.selected q.found q.is_found
            q.clear).0 in
      let (v, walk, through, home, is) =
        evaluated python problem q.gathered.order q.gathered.selected q.found q.is_found in
      let distinct : Distinct q.gathered.order = rw q.taken.ordered q.taken.distinct in
      record {
        order = q.gathered.order;
        named = q.taken.named ∙ ap (known w) (sym q.taken.ordered);
        distinct = distinct;
        in_range = λ i h. q.taken.in_range i (rw q.taken.ordered at h);
        complete = λ i task at required. rw q.taken.ordered (
            taken_there i q.taken.taken (
              q.taken.only i (
                rw (zero-add i) at (
                  missing_none w 0 i task snapshot.rest.tasks q.gathered.selected q.nothing_missing
                    at required))));
        in_order = kept.1;
        same_obligations =
            ap (λ (r : Snapshot (contents w)). obligations (contents w) r.stops) q.is_written
            ∙ timed_stops-obligations w problem q.found q.gathered.selected stops q.timed
                q.are_timed;
        keeps_tasks = ap (λ (r : Snapshot (contents w)). r.rest.tasks) q.is_written;
        keeps_constraints = ap (λ (r : Snapshot (contents w)). r.rest.constraints) q.is_written;
        origin = given.origin;
        starts = given.starts;
        departure = given.departure;
        departs = given.departs;
        leaves = ap (λ (r : Snapshot (contents w)). r.departure_time) q.is_written;
        mode = given.mode;
        travels = given.travels;
        places = locations w stops;
        buffer = buffer_of python problem;
        buffered = safety_buffer-Buffered w snapshot.rest.uncertain;
        scheduled = rw q.is_written (
            timed_stops-Scheduled w problem q.found q.gathered.selected q.gathered.order stops
              q.timed (ap (λ r. r.order) is) distinct q.placed kept.0 q.are_timed);
      }

  -- A plan that passes the validation has one stop for each of the tasks that it visits, among them
  -- every required task of the request, in the order required; its stops fulfil the tasks of the
  -- patched stops. Its origin, departure and mode are those of the context or else of the plan. The
  -- stops written into it have, one after another, the way that the provider's matrix has from the
  -- place before, and times of arrival and departure that keep the constraints of their task, with
  -- the data of their POI and a buffer of at least every one that the request asks for.
  pub recalculate-Accepted :
      (route_matrix : List Coordinate → TransportMode → RouteMatrix python)
      (snapshot s : Snapshot (contents w)) (stops : List (Stop (contents w)))
      (context : ReplanContext w)
      → recalculate_and_validate_snapshot w route_matrix snapshot stops context ≡ returned s []
      → Accepted route_matrix context snapshot stops s
  recalculate-Accepted route_matrix snapshot s stops context e =
      let given = recalculate-validate w route_matrix snapshot s stops context [] e in
      Passed-Accepted route_matrix snapshot s stops context given (
        validate-Passed w snapshot s stops given.departure given.mode
          (route_matrix (given.origin ∷ locations w stops) given.mode) given.validated)

  -- With a limit on the detour no plan passes the validation, whatever the stops are: the
  -- validation gives no baseline, and takes the soft penalty for its absence as a conflict.
  pub detour_limit_blocks :
      (route_matrix : List Coordinate → TransportMode → RouteMatrix python)
      (snapshot s : Snapshot (contents w)) (stops : List (Stop (contents w)))
      (context : ReplanContext w) (limit : python.Float)
      → snapshot.rest.constraints.max_detour_meters ≡ some limit
      → recalculate_and_validate_snapshot w route_matrix snapshot stops context ≢ returned s []
  detour_limit_blocks route_matrix snapshot s stops context limit has e =
      let given = recalculate-validate w route_matrix snapshot s stops context [] e in
      let matrix = route_matrix (given.origin ∷ locations w stops) given.mode in
      let q =
        validate-Passed w snapshot s stops given.departure given.mode matrix given.validated in
      let problem = problem_of w snapshot given.departure given.mode matrix in
      let (feasible, walk, none_soft) =
        feasible_of_clear problem q.gathered.order q.gathered.selected q.found q.is_found q.clear in
      detour_limit_penalised problem walk limit has refl none_soft
