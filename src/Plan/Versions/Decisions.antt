-- ===== src/Plan/Versions/Decisions.antt =====
-- What a decision to advance a plan rests on.
use ai_planed_map.Prelude.{
  ℕ, ◌≡◌, true, some, List, [], ◌∷◌, arith, Option-cases, Bool-cases, inl, inr, nat_eq, nat_beq_iff,
  ◌==◌,
}
use ai_planed_map.Prelude.Dict.{get}
use ai_planed_map.Route.Types.{TransportMode, RouteMatrix}
use ai_planed_map.Plan.Patch.{done, apply_patch_structure, Stop, Snapshot}
use ai_planed_map.Plan.Patch.Obligations.{Patched-cases}
use ai_planed_map.Plan.Snapshots.{World, contents, returned}
use ai_planed_map.Plan.Recalculation.{recalculate_and_validate_snapshot}
use ai_planed_map.Plan.Tables.{PlanPatch, PlanVersion, Database, TripSession, is_pending}
use ai_planed_map.Plan.Versions.{
  latest, Change, advances, decide, patched, recalculated, has_version,
}

module _ (w : World) where
  open w use {Coordinate}

  module _ (route_matrix : List Coordinate → TransportMode → RouteMatrix w.python) where
    pub record Advance (patch_id : ℕ) (read : Database w) (c : Change w) : Type 0 where
      pub row : PlanVersion w
      pub stored : get patch_id read.patches ≡ some c.patch
      pub undecided : is_pending c.patch.status ≡ true
      pub newest : latest w c.patch.planning_run_id read.versions ≡ some row
      pub base : row.version ≡ c.patch.base_version
      pub current : c.current ≡ row.version
      pub snapshot : Snapshot (contents w)
      pub stops : List (Stop (contents w))
      pub structure :
          apply_patch_structure (contents w) c.patch.operations row.snapshot
          ≡ done (snapshot, stops)
      pub validated :
          recalculate_and_validate_snapshot w route_matrix snapshot stops c.patch.replan_context
          ≡ returned c.snapshot []

    pub recalculated-advances :
        (patch : PlanPatch w) (row : PlanVersion w) (trips : List TripSession)
        (changed : Snapshot (contents w) × List (Stop (contents w))) (c : Change w)
        → recalculated w route_matrix patch row trips changed ≡ advances c
        → (c.patch ≡ patch)
          × (c.current ≡ row.version)
          × (recalculate_and_validate_snapshot w route_matrix changed.0 changed.1
                patch.replan_context
              ≡ returned c.snapshot [])
    unfolding recalculated
    recalculated-advances patch row trips (snapshot, stops) c e = ground arith

    pub patched-advances :
        (patch : PlanPatch w) (row : PlanVersion w) (trips : List TripSession) (c : Change w)
        → patched w route_matrix patch row trips ≡ advances c
        → (changed : Snapshot (contents w) × List (Stop (contents w))) × (apply_patch_structure
              (contents w)
              patch.operations
              row.snapshot
            ≡ done changed)
          × (recalculated w route_matrix patch row trips changed ≡ advances c)
    unfolding patched
    patched-advances patch row trips c e =
        elim (Patched-cases (apply_patch_structure (contents w) patch.operations row.snapshot)) [
          | inl (code, r) ↦ absurd (ground arith)
          | inr (changed, d) ↦ (changed, d, ground arith)
        ]

    decide-cases :
        (patch_id : ℕ) (read : Database w) (c : Change w)
        → decide w route_matrix patch_id read ≡ advances c
        → (patch : PlanPatch w) × (row : PlanVersion w) × (get patch_id read.patches ≡ some patch)
          × (is_pending patch.status ≡ true)
          × (latest w patch.planning_run_id read.versions ≡ some row)
          × (row.version ≡ patch.base_version)
          × (patched w route_matrix patch row read.trips ≡ advances c)
    unfolding decide
    decide-cases patch_id read c e = elim (Option-cases (get patch_id read.patches)) [
      | inl absent ↦ absurd (ground arith)
      | inr (patch, found) ↦ elim (Bool-cases (is_pending patch.status)) [
        | inr decided ↦ absurd (ground arith)
        | inl open_still ↦ elim (Option-cases (latest w patch.planning_run_id read.versions)) [
          | inl absent ↦ absurd (ground arith)
          | inr (row, newest) ↦ elim (Bool-cases (row.version == patch.base_version)) [
            | inr stale ↦ absurd (ground arith)
            | inl same ↦ (
              patch,
              row,
              found,
              open_still,
              newest,
              (nat_beq_iff row.version patch.base_version).0 same,
              ground arith,
            )
          ]
        ]
      ]
    ]

    pub decide-Advance :
        (patch_id : ℕ) (read : Database w) (c : Change w)
        → decide w route_matrix patch_id read ≡ advances c
        → Advance patch_id read c
    decide-Advance patch_id read c e =
        let (patch, row, found, open_still, newest, base, p) = decide-cases patch_id read c e in
        let (changed, d, r) = patched-advances patch row read.trips c p in
        let (same, current, v) = recalculated-advances patch row read.trips changed c r in
        record {
          row = row;
          stored = rw same found;
          undecided = rw same open_still;
          newest = rw same newest;
          base = rw same base;
          current = current;
          snapshot = changed.0;
          stops = changed.1;
          structure = rw same d;
          validated = rw same v;
        }

  -- The latest version of a run is one of its versions,
  pub latest-has_version :
      (run : ℕ) (rows : List (PlanVersion w)) (row : PlanVersion w)
      → latest w run rows ≡ some row
      → has_version w run row.version rows ≡ true
  unfolding latest
  latest-has_version run [] row e = cc
  latest-has_version run (first ∷ rows) row e = elim (Option-cases (latest w run rows)) [
    | inl absent ↦ ground (arith, nat_beq_iff row.version row.version)
    | inr (other, found) ↦
        ground (arith, nat_beq_iff row.version row.version, latest-has_version run rows other found)
  ]
