-- ===== src/Plan/Versions/Outcomes.antt =====
-- What the transaction that applies a patch leaves behind, on each of its answers.
use ai_planed_map.Prelude.{
  [], ◌∷◌, ◌++◌, ℕ, ◌+◌, ◌≡◌, ◌≢◌, ◌<◌, refl, String, true, ◌||◌, some, List, arith, Bool-cases,
  inl, inr, length,
}
use ai_planed_map.Prelude.Dict.{get}
use ai_planed_map.Prelude.{nat_eq}
use ai_planed_map.Route.Types.{TransportMode, RouteMatrix}
use ai_planed_map.Plan.Patch.{Stop, Snapshot}
use ai_planed_map.Plan.Patch.Obligations.{Kept, removals}
use ai_planed_map.Plan.Snapshots.{World, contents}
use ai_planed_map.Plan.Recalculation.Accepted.{Accepted}
use ai_planed_map.Plan.Tables.{PlanPatch, PlanVersion, Database, is_pending, accepted}
use ai_planed_map.Plan.Versions.{
  latest, Error, infeasible, Decision, raised, blocks, advances, decide, has_version, notified,
  write_block, error, commit, apply_plan_patch_cas,
}

module _ (w : World) where
  open w use {Coordinate}

  commit_fails :
      (patch_id now : ℕ) (policy_result : String) (d : Decision w) (late : Database w) (e : Error w)
      → (commit w patch_id now policy_result d late).0 ≡ error e
      → (let last = (commit w patch_id now policy_result d late).1 in
          (last.versions ≡ late.versions)
          × (last.trips ≡ late.trips)
          × (last.artifacts ≡ late.artifacts)
          × (e ≢ infeasible → last ≡ late))
  unfolding commit write_block
  commit_fails patch_id now policy_result (raised e') late e is = (refl, refl, refl, λ _. refl)
  commit_fails patch_id now policy_result (blocks patch found) late e is =
      (refl, refl, refl, λ other. absurd (other (cc)))
  commit_fails patch_id now policy_result (advances c) late e is =
      elim (Bool-cases (
        has_version w c.patch.planning_run_id (c.current + 1) late.versions
        || notified w patch_id c.trips late.trips)) [
          | inl taken ↦ rw taken (refl, refl, refl, λ _. refl)
          | inr fresh ↦ absurd (ground arith)
        ]

  -- A patch that is refused changes no version, no trip and no artifact; the database stays as it
  -- is, except where the plan is infeasible.
  pub refused_changes_nothing :
      (route_matrix : List Coordinate → TransportMode → RouteMatrix w.python) (patch_id now : ℕ)
      (policy_result : String) (read late : Database w) (e : Error w)
      → (apply_plan_patch_cas w route_matrix patch_id now policy_result read late).0 ≡ error e
      → (let last = (apply_plan_patch_cas w route_matrix patch_id now policy_result read late).1 in
          (last.versions ≡ late.versions)
          × (last.trips ≡ late.trips)
          × (last.artifacts ≡ late.artifacts)
          × (e ≢ infeasible → last ≡ late))
  unfolding apply_plan_patch_cas
  refused_changes_nothing route_matrix patch_id now policy_result read late e is =
      commit_fails patch_id now policy_result (decide w route_matrix patch_id read) late e is

  -- What an accepted patch was, and what became of it.
  pub record Applied (route_matrix : List Coordinate → TransportMode → RouteMatrix w.python)
      (patch_id now version : ℕ) (read late last : Database w) (plan : Snapshot (contents w))
      : Type 0 where
    pub patch : PlanPatch w
    pub stored : get patch_id read.patches ≡ some patch
    pub undecided : is_pending patch.status ≡ true
    pub decided :
        get patch_id last.patches ≡ some (record patch { status = accepted; decided_at = some now })
    pub row : PlanVersion w
    pub newest : latest w patch.planning_run_id read.versions ≡ some row
    pub base : row.version ≡ patch.base_version
    pub following : version ≡ patch.base_version + 1
    pub added :
        last.versions
        ≡ late.versions
          ++ record {
            planning_run_id = patch.planning_run_id;
            user_id = patch.user_id;
            version = version;
            snapshot = plan;
            change_reason = patch.reason;
          }
            ∷ []
    pub snapshot : Snapshot (contents w)
    pub stops : List (Stop (contents w))
    pub same_request : snapshot.rest ≡ row.snapshot.rest
    pub some_left : 0 < length stops
    pub kept : Kept (contents w) (removals (contents w) patch.operations) row.snapshot.stops stops
    pub plan_accepted : Accepted w route_matrix patch.replan_context snapshot stops plan
