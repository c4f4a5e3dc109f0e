-- ===== src/Plan/Tables.antt =====
-- The columns of backend/app/models.py that backend/app/services/plan_versioning.py reads and writes.
use ai_planed_map.Prelude.{ℕ, String, Bool, true, false, Option, List}
use ai_planed_map.Prelude.Dict.{Dict}
use ai_planed_map.Trip.State.{TripState}
use ai_planed_map.Plan.Patch.{Operation, Snapshot}
use ai_planed_map.Plan.Snapshots.{World, contents, ReplanContext, PlanConflict}

pub data PatchStatus : Type 0 where
  pending accepted rejected blocked : PatchStatus

abbrev pub is_pending : PatchStatus → Bool
is_pending pending = true
is_pending _ = false

-- `event_id` is "patch-{patch_id}-accepted".
pub record TripEvent : Type 0 where
  pub patch_id : ℕ
  pub plan_version : ℕ
  pub occurred_at : ℕ

pub record TripSession : Type 0 where
  pub id : ℕ
  pub planning_run_id : ℕ
  pub state : TripState
  pub current_plan_version : ℕ
  pub events : List TripEvent

-- The planning run is that of the artifact's workflow run.
pub record AgentArtifact : Type 0 where
  pub planning_run_id : Option ℕ
  pub active : Bool
  pub plan_version : Option ℕ
  pub invalidated_at : Option ℕ

module _ (w : World) where
  pub record PlanPatch : Type 0 where
    pub planning_run_id : ℕ
    pub user_id : ℕ
    pub base_version : ℕ
    pub operations : List (Operation (contents w))
    pub replan_context : ReplanContext w
    pub reason : String
    pub status : PatchStatus
    pub decided_at : Option ℕ

  pub record PlanVersion : Type 0 where
    pub planning_run_id : ℕ
    pub user_id : ℕ
    pub version : ℕ
    pub snapshot : Snapshot (contents w)
    pub change_reason : String

  -- `DecisionAuditLog`, its evidence as a sum.
  pub data Evidence : Type 0 where
    conflicts : List (PlanConflict w) → Evidence
    applied : (base_version : ℕ) (operations : List (Operation (contents w))) → Evidence

  pub record AuditLog : Type 0 where
    pub planning_run_id : ℕ
    pub user_id : ℕ
    pub reason : String
    pub evidence : Evidence
    pub policy_result : String

  pub record Database : Type 0 where
    pub patches : Dict ℕ PlanPatch
    pub versions : List PlanVersion
    pub trips : List TripSession
    pub artifacts : List AgentArtifact
    pub audit : List AuditLog
