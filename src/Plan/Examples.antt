-- ===== src/Plan/Examples.antt =====
-- A plan with three stops, of which a patch removes the last one and replaces the second.
use ai_planed_map.Prelude.{
  ℕ, ◌<◌, ◌≡◌, ◌≢◌, refl, String, true, false, some, none, List, [], ◌∷◌, length, arith,
}
use ai_planed_map.Route.Samples.{hundredths, museum, dinner, limits, tastes, problem}
use ai_planed_map.Route.Types.{PlanningTask, HardConstraints, TransportMode, RouteMatrix}
use ai_planed_map.Trip.State.{replanning, trip_state_eq}
use ai_planed_map.Plan.Patch.{Operation, Stop, Snapshot}
use ai_planed_map.Plan.Snapshots.{World, Poi, Details, Rest, contents, returned}
use ai_planed_map.Plan.Tables.{pending, PlanPatch, Database, TripSession}
use ai_planed_map.Plan.Patch.{
  done, apply_patch_structure, apply_operations, apply_operation, remove_at, replace_at,
}
use ai_planed_map.Plan.Patch.Obligations.{Kept, removals, apply_patch_structure-Kept}
use ai_planed_map.Plan.Recalculation.{
  recalculate_and_validate_snapshot, validate, gather, gather_stop, missing_from, conclude,
  timed_stops, timed_stop,
}
use ai_planed_map.Plan.Recalculation.Accepted.{detour_limit_blocks}
use ai_planed_map.Plan.Versions.{
  Answer, advanced, error, Error, patch_not_found, version_conflict, infeasible, Decision, advances,
  Change, apply_plan_patch_cas, decide, latest, patched, recalculated, commit, write_version,
}
use ai_planed_map.Plan.Versions.Outcomes.{refused_changes_nothing}
use ai_planed_map.Plan.Versions.Log.{log, means, Dense, apply_plan_patch_cas-refines}
use ai_planed_map.Plan.Versions.Acceptance.{
  Writer, by_agent, by_user, decision, transact, decide_acceptance, accept_pending, find_version,
}
use ai_planed_map.Plan.Versions.History.{start, advance_exclusive}
use ai_planed_map.Route.Visits.{visit_all, visit, stop_conflicts}
use ai_planed_map.Route.Orders.{relative_order_satisfied}
use ai_planed_map.Route.Evaluation.{
  evaluate_joint_order, return_home, route_conflicts, soft_penalties_of, score_of,
}
use ai_planed_map.Route.Evaluation.{start as start_walk}

abbrev world : World
world = record { python = hundredths; Coordinate = ℕ; mentioned = λ p e text. false }

abbrev park : PlanningTask hundredths
park = record dinner { description = "park"; required = false }

abbrev poi : String → Poi world
poi id = record {
  id = id;
  location = 7;
  rating = some 450;
  confidence = some 80;
  estimated_cost_yuan = some 5_000;
  open_now = some true;
  wheelchair_accessible = none;
  district = none;
}

abbrev untimed : Details world
untimed = record {
  candidate_rank = some 0;
  arrival_time = none;
  departure_time = none;
  travel = none;
  constraint_satisfied = true;
}

abbrev stop : String → ℕ → PlanningTask hundredths → Stop (contents world)
stop id index task = record {
  poi = poi id;
  task_index = some index;
  task = task;
  details = untimed;
}

abbrev request : HardConstraints hundredths → Rest world
request constraints = record {
  origin = some 1;
  tasks = museum ∷ dinner ∷ park ∷ [];
  preferences = tastes;
  constraints = constraints;
  uncertain = some 10 ∷ none ∷ [];
  total_distance_meters = 0;
  total_travel_seconds = 0;
  estimated_cost_yuan = 0;
  confidence = 0;
  algorithm = "joint-exact-enumeration";
}

abbrev first_plan : HardConstraints hundredths → Snapshot (contents world)
first_plan constraints = record {
  stops = stop "louvre" 0 museum ∷ stop "bistro" 1 dinner ∷ stop "garden" 2 park ∷ [];
  transport_mode = some TransportMode.walking;
  departure_time = some 0;
  rest = request constraints;
}

abbrev patch : PlanPatch world
patch = record {
  planning_run_id = 3;
  user_id = 9;
  base_version = 1;
  operations =
      Operation.remove_stop (some "garden")
      ∷ Operation.replace_stop (some "bistro") (
          some (record {
            poi = some (poi "trattoria");
            task_index = some 2;
            task = some park;
            details = untimed;
          }))
      ∷ [];
  replan_context = record { origin = none; departure_time = none };
  reason = "late";
  status = pending;
  decided_at = none;
}

abbrev trip : TripSession
trip = record {
  id = 5;
  planning_run_id = 3;
  state = replanning;
  current_plan_version = 1;
  events = [];
}

abbrev database : HardConstraints hundredths → Database world
database constraints = record {
  patches = (7, patch) ∷ (8, patch) ∷ [];
  versions =
      record {
        planning_run_id = 3;
        user_id = 9;
        version = 1;
        snapshot = first_plan constraints;
        change_reason = "initial_plan";
      }
      ∷ [];
  trips = trip ∷ [];
  artifacts = [];
  audit = [];
}

abbrev matrices : List ℕ → TransportMode → RouteMatrix hundredths
matrices coordinates mode = problem.matrix

-- What the transaction for a patch answers where it reads and writes the first database.
abbrev applied_to : ℕ → Answer world × Database world
applied_to patch_id =
    apply_plan_patch_cas world matrices patch_id 1_000 "user" (database limits) (database limits)

abbrev plan_of : Answer world → Snapshot (contents world)
plan_of (error e) = first_plan limits
plan_of (advanced version plan) = plan

abbrev change_of : Decision world → Change world
change_of (advances c) = c
change_of _ = record { patch = patch; current = 0; snapshot = first_plan limits; trips = [] }

accepted_here : (applied_to 7).0 ≡ advanced 2 (plan_of (applied_to 7).0)
unfolding apply_plan_patch_cas decide latest patched recalculated commit write_version
    apply_patch_structure apply_operations apply_operation remove_at replace_at
    recalculate_and_validate_snapshot validate gather gather_stop missing_from conclude timed_stops
    timed_stop evaluate_joint_order visit_all visit stop_conflicts start_walk return_home
    route_conflicts soft_penalties_of score_of relative_order_satisfied
accepted_here = refl

unknown : (applied_to 6).0 ≡ error patch_not_found
unfolding apply_plan_patch_cas decide commit
unknown = refl

refused_changes_nothing_example :
    (let last = (applied_to 6).1 in
      (last.versions ≡ (database limits).versions)
      × (last.trips ≡ (database limits).trips)
      × (last.artifacts ≡ (database limits).artifacts)
      × (◌≢◌ {A = Error world} patch_not_found infeasible → last ≡ database limits))
refused_changes_nothing_example =
    refused_changes_nothing world matrices 6 1_000 "user" (database limits) (database limits)
      patch_not_found unknown

abbrev decided : ℕ → Decision world
decided patch_id = decide world matrices patch_id (database limits)

advances_seven : decided 7 ≡ advances (change_of (decided 7))
unfolding decide latest patched recalculated apply_patch_structure apply_operations apply_operation
    remove_at replace_at recalculate_and_validate_snapshot validate gather gather_stop missing_from
    conclude timed_stops timed_stop evaluate_joint_order visit_all visit stop_conflicts start_walk
    return_home route_conflicts soft_penalties_of score_of relative_order_satisfied
advances_seven = refl

abbrev owner : ℕ
owner = patch.user_id

-- The user accepts the other patch, from the same version.
abbrev accepting : Writer world
accepting = by_user ((3, owner) ∷ []) 3 8 owner 1_001

abbrev accepted_eight : Decision world
accepted_eight = decision world matrices accepting (database limits)

advances_eight : accepted_eight ≡ advances (change_of accepted_eight)
unfolding decide_acceptance accept_pending find_version latest patched recalculated
    apply_patch_structure apply_operations apply_operation remove_at replace_at
    recalculate_and_validate_snapshot validate gather gather_stop missing_from conclude timed_stops
    timed_stop evaluate_joint_order visit_all visit stop_conflicts start_walk return_home
    route_conflicts soft_penalties_of score_of relative_order_satisfied
advances_eight = refl

same_run :
    (change_of accepted_eight).patch.planning_run_id ≡ (change_of (decided 7)).patch.planning_run_id
unfolding advances_seven advances_eight
same_run = refl

same_version : (change_of accepted_eight).current ≡ (change_of (decided 7)).current
unfolding advances_seven advances_eight
same_version = refl

advance_exclusive_example :
    transact world matrices accepting (database limits) (applied_to 7).1
    ≡ (error version_conflict, (applied_to 7).1)
advance_exclusive_example =
    advance_exclusive world matrices (by_agent 7 1_000 "user") accepting (database limits)
      (database limits) (database limits) (applied_to 7).1 (change_of (decided 7))
      (change_of accepted_eight) 2 (plan_of (applied_to 7).0) advances_seven advances_eight same_run
      same_version accepted_here start

database-Dense : Dense world (database limits).versions
database-Dense = record { numbers = λ run version. ground arith }

apply_plan_patch_cas-refines_example :
    means world patch (applied_to 7).0 3 (log world 3 (database limits).versions)
    ≡ some (log world 3 (applied_to 7).1.versions)
apply_plan_patch_cas-refines_example =
    apply_plan_patch_cas-refines world matrices 7 1_000 "user" (database limits) (database limits)
      (database limits) patch 3 database-Dense start start refl

abbrev limited : HardConstraints hundredths
limited = record limits { max_detour_meters = some 100_000 }

detour_limit_blocks_example :
    recalculate_and_validate_snapshot world matrices
      (first_plan limited)
      (first_plan limited).stops
      (record { origin = none; departure_time = none })
    ≢ returned (first_plan limited) []
detour_limit_blocks_example =
    detour_limit_blocks world matrices (first_plan limited) (first_plan limited)
      (first_plan limited).stops (record { origin = none; departure_time = none }) 100_000 refl

abbrev shortened : List (Stop (contents world))
shortened = stop "louvre" 0 museum ∷ stop "bistro" 1 dinner ∷ []

structure :
    apply_patch_structure
      (contents world)
      (Operation.remove_stop (some "garden") ∷ [])
      (first_plan limits)
    ≡ done (first_plan limits, shortened)
unfolding apply_patch_structure apply_operations apply_operation remove_at
structure = refl

apply_patch_structure-Kept_example :
    (0 < length shortened)
    × Kept
        (contents world)
        (removals (contents world) (Operation.remove_stop (some "garden") ∷ []))
        (first_plan limits).stops
        shortened
apply_patch_structure-Kept_example =
    apply_patch_structure-Kept (contents world) (Operation.remove_stop (some "garden") ∷ [])
      (first_plan limits) (first_plan limits) shortened structure
