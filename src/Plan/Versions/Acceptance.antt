-- ===== src/Plan/Versions/Acceptance.antt =====
-- backend/app/api/ai_planner.py: `decide_plan_patch` where the user accepts, and the two
-- transactions that give a plan its next version as one. `runs` has the user of each planning run.
-- Rows that are read are locked there; here what is read may be older than what is written to.
use ai_planed_map.Prelude.{
  ℕ, ◌≡◌, refl, String, Bool, false, not, ◌&&◌, Option, none, some, List, [], ◌∷◌, arith,
  if◌then◌else◌, Option-cases, Bool-cases, inl, inr, nat_eq, nat_beq_iff, ◌==◌,
}
use ai_planed_map.Prelude.Dict.{Dict, get}
use ai_planed_map.Route.Types.{TransportMode, RouteMatrix}
use ai_planed_map.Plan.Snapshots.{World}
use ai_planed_map.Plan.Tables.{PlanPatch, PlanVersion, Database, is_pending}
use ai_planed_map.Plan.Versions.Decisions.{decide-Advance, patched-advances, recalculated-advances}
use ai_planed_map.Plan.Versions.{
  latest, patch_not_found, already_decided, version_conflict, run_not_found, version_missing,
  Change, Decision, raised, advances, patched, decide, Answer, commit, apply_plan_patch_cas,
}

module _ (w : World) where
  open w use {Coordinate}

  abbrev pub Matrices : Type 0
  Matrices = List Coordinate → TransportMode → RouteMatrix w.python

  -- `_owned_run`
  abbrev pub is_owner : ℕ → Option ℕ → Bool
  is_owner user_id none = false
  is_owner user_id (some owner) = owner == user_id

  -- The version of a number.
  unfoldable pub find_version : ℕ → ℕ → List (PlanVersion w) → Option (PlanVersion w)
  find_version run version [] = none
  find_version run version (row ∷ rows) =
      let later = find_version run version rows in
      if row.planning_run_id == run && row.version == version then some row else later

  -- The acceptance of a patch that is found, after its status is checked.
  unfoldable pub accept_pending : Matrices → PlanPatch w → Database w → Decision w
  accept_pending route_matrix patch db = elim (latest w patch.planning_run_id db.versions) [
    | none ↦ raised version_conflict
    | some newest ↦
        if newest.version == patch.base_version
        then (elim (find_version patch.planning_run_id patch.base_version db.versions) [
          | none ↦ raised version_missing
          | some base ↦ patched w route_matrix patch base db.trips
        ])
        else raised version_conflict
  ]

  -- The part of the handler that reads.
  unfoldable pub decide_acceptance : Matrices → Dict ℕ ℕ → ℕ → ℕ → ℕ → Database w → Decision w
  decide_acceptance route_matrix runs run_id patch_id user_id db =
      if not (is_owner user_id (get run_id runs))
      then raised run_not_found
      else (elim (get patch_id db.patches) [
        | none ↦ raised patch_not_found
        | some patch ↦
            if not (patch.planning_run_id == run_id && patch.user_id == user_id)
            then raised patch_not_found
            else (if not (is_pending patch.status)
                then raised already_decided
                else accept_pending route_matrix patch db)
      ])

  unfoldable pub decide_plan_patch :
      Matrices → Dict ℕ ℕ → ℕ → ℕ → ℕ → ℕ → Database w → Database w → Answer w × Database w
  decide_plan_patch route_matrix runs run_id patch_id user_id now read late =
      commit w patch_id now "validated_and_user_confirmed"
        (decide_acceptance route_matrix runs run_id patch_id user_id read) late

  -- Who would give a plan its next version, with the time of the decision.
  pub data Writer : Type 0 where
    by_agent : (patch_id now : ℕ) (policy_result : String) → Writer
    by_user : (runs : Dict ℕ ℕ) (run_id patch_id user_id now : ℕ) → Writer

  abbrev pub decision : Matrices → Writer → Database w → Decision w
  decision route_matrix (by_agent patch_id now policy_result) read =
      decide w route_matrix patch_id read
  decision route_matrix (by_user runs run_id patch_id user_id now) read =
      decide_acceptance route_matrix runs run_id patch_id user_id read

  abbrev pub transact : Matrices → Writer → Database w → Database w → Answer w × Database w
  transact route_matrix (by_agent patch_id now policy_result) read late =
      apply_plan_patch_cas w route_matrix patch_id now policy_result read late
  transact route_matrix (by_user runs run_id patch_id user_id now) read late =
      decide_plan_patch route_matrix runs run_id patch_id user_id now read late

  pub transact-commit :
      (route_matrix : Matrices) (writer : Writer) (read late : Database w)
      → (patch_id now : ℕ) × (policy_result : String) × (transact route_matrix writer read late
          ≡ commit w patch_id now policy_result (decision route_matrix writer read) late)
  unfolding apply_plan_patch_cas decide_plan_patch
  transact-commit route_matrix (by_agent patch_id now policy_result) read late =
      (patch_id, now, policy_result, refl)
  transact-commit route_matrix (by_user runs run_id patch_id user_id now) read late =
      (patch_id, now, "validated_and_user_confirmed", refl)

  -- A change is made on top of the newest version that was read.
  pub record OnNewest (read : Database w) (c : Change w) : Type 0 where
    pub row : PlanVersion w
    pub newest : latest w c.patch.planning_run_id read.versions ≡ some row
    pub current : c.current ≡ row.version

  find_version-version :
      (run version : ℕ) (rows : List (PlanVersion w)) (row : PlanVersion w)
      → find_version run version rows ≡ some row
      → row.version ≡ version
  unfolding find_version
  find_version-version run version [] row e = cc
  find_version-version run version (first ∷ rows) row e =
      ground (arith, nat_beq_iff first.version version, find_version-version run version rows row)

  accept_pending-OnNewest :
      (route_matrix : Matrices) (patch : PlanPatch w) (read : Database w) (c : Change w)
      → accept_pending route_matrix patch read ≡ advances c
      → OnNewest read c
  unfolding accept_pending
  accept_pending-OnNewest route_matrix patch read c e =
      elim (Option-cases (latest w patch.planning_run_id read.versions)) [
        | inl absent ↦ absurd (ground arith)
        | inr (newest, found) ↦ elim (Bool-cases (newest.version == patch.base_version)) [
          | inr stale ↦ absurd (ground arith)
          | inl same ↦
              elim (Option-cases
                (find_version patch.planning_run_id patch.base_version read.versions)) [
                  | inl missing ↦ absurd (ground arith)
                  | inr (base, at) ↦
                      let p : patched w route_matrix patch base read.trips ≡ advances c =
                        ground arith in
                      let (changed, d, r) =
                        patched-advances w route_matrix patch base read.trips c p in
                      let (of, current, v) =
                        recalculated-advances w route_matrix patch base read.trips changed c r in
                      let version =
                        find_version-version patch.planning_run_id patch.base_version read.versions
                          base at in
                      let number = (nat_beq_iff newest.version patch.base_version).0 same in
                      record { row = newest; newest = rw of found; current = ground arith }
                ]
        ]
      ]

  pub decision-OnNewest :
      (route_matrix : Matrices) (writer : Writer) (read : Database w) (c : Change w)
      → decision route_matrix writer read ≡ advances c
      → OnNewest read c
  unfolding decide_acceptance
  decision-OnNewest route_matrix (by_agent patch_id now policy_result) read c e =
      let a = decide-Advance w route_matrix patch_id read c e in
      record { row = a.row; newest = a.newest; current = a.current }
  decision-OnNewest route_matrix (by_user runs run_id patch_id user_id now) read c e =
      elim (Bool-cases (is_owner user_id (get run_id runs))) [
        | inr stranger ↦ absurd (ground arith)
        | inl owned ↦ elim (Option-cases (get patch_id read.patches)) [
          | inl absent ↦ absurd (ground arith)
          | inr (patch, found) ↦ accept_pending-OnNewest route_matrix patch read c (ground arith)
        ]
      ]
