-- ===== src/Plan/Versions.antt =====
-- backend/app/services/plan_versioning.py: `apply_plan_patch_cas`, on the columns of the tables that
-- it reads and writes. What it reads and what it writes to are two states of the database, since
-- other transactions may commit in between; that the rows are unique is checked by the commit.

pub mod Decisions
pub mod Acceptance
pub mod History
pub mod Outcomes
pub mod Log
use ai_planed_map.Prelude.{
  ℕ, suc, ◌+◌, String, Bool, true, false, not, ◌&&◌, ◌||◌, Option, none, some, List, [], ◌∷◌, ◌++◌,
  ltb, nat_beq, if◌then◌else◌, is_some, elem, nat_eq, ◌==◌,
}
use ai_planed_map.Prelude.Dict.{Dict, get, put}
use ai_planed_map.Trip.State.{TripState, active_trip, replanning, trip_state_eq}
use ai_planed_map.Route.Types.{TransportMode, RouteMatrix}
use ai_planed_map.Plan.Patch.{
  Operation, Stop, Snapshot, PatchError, refused, done, apply_patch_structure,
}
use ai_planed_map.Plan.Snapshots.{
  World, contents, ReplanContext, PlanConflict, context_missing, fault, returned,
}
use ai_planed_map.Plan.Recalculation.{recalculate_and_validate_snapshot}
use ai_planed_map.Plan.Tables.{
  pending, accepted, blocked, is_pending, TripEvent, TripSession, AgentArtifact, PlanPatch,
  PlanVersion, AuditLog, conflicts, applied, Database,
}

module _ (w : World) where
  open w use {Coordinate}

  -- The version of the run with the greatest number.
  unfoldable pub latest : ℕ → List (PlanVersion w) → Option (PlanVersion w)
  latest run [] = none
  latest run (row ∷ rows) =
      let later = latest run rows in
      let newest : Option (PlanVersion w) = elim later [
        | none ↦ some row
        | some other ↦ (if ltb other.version row.version then some row else some other)
      ] in
      if row.planning_run_id == run then newest else later

  pub data Error : Type 0 where
    patch_not_found already_decided version_conflict context_lost infeasible : Error
    run_not_found version_missing : Error
    patch_refused : PatchError → Error
    exception : Error

  -- What is to be written: the version after `current`, and of the trips on the current version
  -- whether each was being replanned.
  pub record Change : Type 0 where
    pub patch : PlanPatch w
    pub current : ℕ
    pub snapshot : Snapshot (contents w)
    pub trips : List (ℕ × Bool)

  pub data Decision : Type 0 where
    raised : Error → Decision
    blocks : (patch : PlanPatch w) (found : List (PlanConflict w)) → Decision
    advances : Change → Decision

  -- The trips with `current_plan_version == current`.
  abbrev pub followers : ℕ → ℕ → List TripSession → List (ℕ × Bool)
  followers run current [] = []
  followers run current (trip ∷ trips) =
      let rest = followers run current trips in
      if trip.planning_run_id == run && trip.current_plan_version == current
      then (trip.id, trip.state == replanning) ∷ rest
      else rest

  unfoldable pub recalculated :
      (List Coordinate → TransportMode → RouteMatrix w.python)
      → PlanPatch w
      → PlanVersion w
      → List TripSession
      → Snapshot (contents w) × List (Stop (contents w))
      → Decision
  recalculated route_matrix patch row trips (snapshot, stops) =
      elim (recalculate_and_validate_snapshot w route_matrix snapshot stops patch.replan_context) [
        | context_missing ↦ raised context_lost
        | fault ↦ raised exception
        | returned next [] ↦ advances (record {
          patch = patch;
          current = row.version;
          snapshot = next;
          trips = followers patch.planning_run_id row.version trips;
        })
        | returned next (conflict ∷ more) ↦ blocks patch (conflict ∷ more)
      ]

  unfoldable pub patched :
      (List Coordinate → TransportMode → RouteMatrix w.python)
      → PlanPatch w
      → PlanVersion w
      → List TripSession
      → Decision
  patched route_matrix patch row trips =
      elim (apply_patch_structure (contents w) patch.operations row.snapshot) [
        | refused code ↦ raised (patch_refused code)
        | done changed ↦ recalculated route_matrix patch row trips changed
      ]

  -- The part of the function that reads.
  unfoldable pub decide :
      (List Coordinate → TransportMode → RouteMatrix w.python) → ℕ → Database w → Decision
  decide route_matrix patch_id db = elim (get patch_id db.patches) [
    | none ↦ raised patch_not_found
    | some patch ↦
        if not (is_pending patch.status)
        then raised already_decided
        else (elim (latest patch.planning_run_id db.versions) [
          | none ↦ raised version_conflict
          | some row ↦
              if row.version == patch.base_version
              then patched route_matrix patch row db.trips
              else raised version_conflict
        ])
  ]

  abbrev pub has_version : ℕ → ℕ → List (PlanVersion w) → Bool
  has_version run version [] = false
  has_version run version (row ∷ rows) =
      (row.planning_run_id == run && row.version == version) || has_version run version rows

  abbrev pub has_event : ℕ → List TripEvent → Bool
  has_event patch_id [] = false
  has_event patch_id (event ∷ events) = event.patch_id == patch_id || has_event patch_id events

  abbrev pub notified : ℕ → List (ℕ × Bool) → List TripSession → Bool
  notified patch_id moved [] = false
  notified patch_id moved (trip ∷ trips) =
      (is_some (get trip.id moved) && has_event patch_id trip.events)
      || notified patch_id moved trips

  -- The trip's new columns and its event.
  abbrev pub move_trip : ℕ → ℕ → ℕ → List (ℕ × Bool) → TripSession → TripSession
  move_trip patch_id next now moved trip = elim (get trip.id moved) [
    | none ↦ trip
    | some was_replanning ↦ record {
      id = trip.id;
      planning_run_id = trip.planning_run_id;
      state = if was_replanning then active_trip else trip.state;
      current_plan_version = next;
      events =
          trip.events
          ++ record { patch_id = patch_id; plan_version = next; occurred_at = now } ∷ [];
    }
  ]

  abbrev pub move_trips : ℕ → ℕ → ℕ → List (ℕ × Bool) → List TripSession → List TripSession
  move_trips patch_id next now moved [] = []
  move_trips patch_id next now moved (trip ∷ trips) =
      move_trip patch_id next now moved trip ∷ move_trips patch_id next now moved trips

  abbrev pub is_run : ℕ → Option ℕ → Bool
  is_run run none = false
  is_run run (some other) = other == run

  abbrev pub is_before : ℕ → Option ℕ → Bool
  is_before next none = true
  is_before next (some version) = ltb version next

  -- update(AgentArtifact)...values(status="stale", invalidated_at=decided_at)
  abbrev pub invalidate : ℕ → ℕ → ℕ → List AgentArtifact → List AgentArtifact
  invalidate run next now [] = []
  invalidate run next now (artifact ∷ artifacts) =
      let rest = invalidate run next now artifacts in
      (if is_run run artifact.planning_run_id
          && artifact.active
          && is_before next artifact.plan_version
        then record artifact { active = false; invalidated_at = some now }
        else artifact)
      ∷ rest

  unfoldable pub write_block : ℕ → ℕ → PlanPatch w → List (PlanConflict w) → Database w → Database w
  write_block patch_id now patch found db = record db {
    patches = put patch_id (record patch { status = blocked; decided_at = some now }) db.patches;
    audit =
        db.audit
        ++ record {
          planning_run_id = patch.planning_run_id;
          user_id = patch.user_id;
          reason = patch.reason;
          evidence = conflicts found;
          policy_result = "blocked_by_constraint_validator";
        }
          ∷ [];
  }

  unfoldable pub write_version : ℕ → ℕ → String → Change → Database w → Database w
  write_version patch_id now policy_result c db =
      let run = c.patch.planning_run_id in
      record {
        patches =
            put patch_id (record c.patch { status = accepted; decided_at = some now }) db.patches;
        versions =
            db.versions
            ++ record {
              planning_run_id = run;
              user_id = c.patch.user_id;
              version = c.current + 1;
              snapshot = c.snapshot;
              change_reason = c.patch.reason;
            }
              ∷ [];
        trips = move_trips patch_id (c.current + 1) now c.trips db.trips;
        artifacts = invalidate run (c.current + 1) now db.artifacts;
        audit =
            db.audit
            ++ record {
              planning_run_id = run;
              user_id = c.patch.user_id;
              reason = c.patch.reason;
              evidence = applied c.current c.patch.operations;
              policy_result = policy_result;
            }
              ∷ [];
      }

  pub data Answer : Type 0 where
    error : Error → Answer
    advanced : (plan_version : ℕ) (snapshot : Snapshot (contents w)) → Answer

  unfoldable pub commit : ℕ → ℕ → String → Decision → Database w → Answer × Database w
  commit patch_id now policy_result (raised e) db = (error e, db)
  commit patch_id now policy_result (blocks patch found) db =
      (error infeasible, write_block patch_id now patch found db)
  commit patch_id now policy_result (advances c) db =
      if has_version c.patch.planning_run_id (c.current + 1) db.versions
        || notified patch_id c.trips db.trips
      then (error version_conflict, db)
      else (advanced (c.current + 1) c.snapshot, write_version patch_id now policy_result c db)

  -- `read` is the database that the transaction reads, `late` the one that it commits to.
  unfoldable pub apply_plan_patch_cas :
      (List Coordinate → TransportMode → RouteMatrix w.python)
      → ℕ
      → ℕ
      → String
      → Database w
      → Database w
      → Answer × Database w
  apply_plan_patch_cas route_matrix patch_id now policy_result read late =
      commit patch_id now policy_result (decide route_matrix patch_id read) late
