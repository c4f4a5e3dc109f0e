-- ===== src/Plan/Versions/History.antt =====
-- The versions of a plan over any sequence of transactions of backend/app/services/plan_versioning.py
-- and backend/app/api/ai_planner.py, each of which may have read an earlier state of the database.
use mathlib.Core.Path.{subst}
use mathlib.Core.List.{append-nil, append_assoc}
use ai_planed_map.Prelude.{
  ℕ, ◌+◌, ◌≡◌, refl, sym, ap, ◌∙◌, String, true, false, ◌||◌, List, [], ◌∷◌, ◌++◌, arith,
  Bool-cases, inl, inr, nat_eq, beq_refl,
}
use ai_planed_map.Plan.Patch.{Snapshot}
use ai_planed_map.Plan.Snapshots.{World, contents}
use ai_planed_map.Plan.Tables.{PlanVersion, Database}
use ai_planed_map.Plan.Versions.Acceptance.{Matrices, Writer, decision, transact, transact-commit}
use ai_planed_map.Plan.Versions.{
  version_conflict, Change, Decision, raised, blocks, advances, has_version, notified,
  write_version, write_block, error, advanced, commit,
}

module _ (w : World) where
  open w use {Coordinate}

  -- How the database gets from one state to another by transactions. An agent's patch is applied or a
  -- user's is accepted, each after it has read some state on the way; a plan is made, with its first
  -- version for a run that is new (backend/app/api/ai_planner.py); any other transaction leaves the
  -- versions as they are. A user whose account is deleted, with the runs, is left out.
  pub data History : Database w → Database w → Type 0 where
    start : {db : Database w} → History db db
    next :
        {first read late : Database w} (route_matrix : Matrices w) (writer : Writer w)
        → History first read
        → History read late
        → History first (transact w route_matrix writer read late).1
    planned :
        {first late last : Database w} (row : PlanVersion w)
        → History first late
        → row.version ≡ 1
        → ((version : ℕ) → has_version w row.planning_run_id version late.versions ≡ false)
        → last.versions ≡ late.versions ++ row ∷ []
        → History first last
    besides :
        {first late last : Database w}
        → History first late
        → last.versions ≡ late.versions
        → History first last

  commit_appends :
      (patch_id now : ℕ) (policy_result : String) (d : Decision w) (db : Database w)
      → (more : List (PlanVersion w)) × ((commit w patch_id now policy_result d db).1.versions
          ≡ db.versions ++ more)
  unfolding commit
  commit_appends patch_id now policy_result (raised e) db = ([], sym (append-nil db.versions))
  commit_appends patch_id now policy_result (blocks patch found) db =
      unfold write_block in ([], sym (append-nil db.versions))
  commit_appends patch_id now policy_result (advances c) db =
      elim (Bool-cases (
        has_version w c.patch.planning_run_id (c.current + 1) db.versions
        || notified w patch_id c.trips db.trips)) [
          | inl taken ↦ rw taken ([], sym (append-nil db.versions))
          | inr fresh ↦ rw fresh (unfold write_version in (_, refl))
        ]

  pub has_version-append :
      (run version : ℕ) (xs ys : List (PlanVersion w))
      → has_version w run version (xs ++ ys)
        ≡ (has_version w run version xs || has_version w run version ys)
  has_version-append run version [] ys = refl
  has_version-append run version (x ∷ xs) ys = ground (arith, has_version-append run version xs ys)

  appends_then :
      (xs more all : List (PlanVersion w)) (last : List (PlanVersion w))
      (late : List (PlanVersion w))
      → late ≡ xs ++ more
      → last ≡ late ++ all
      → (whole : List (PlanVersion w)) × (last ≡ xs ++ whole)
  appends_then xs more all last late e f =
      (more ++ all, f ∙ ap (λ l. l ++ all) e ∙ append_assoc xs more all)

  -- Versions are only ever appended: what was committed once stays as it is.
  pub history_appends :
      {first last : Database w}
      → History first last
      → (more : List (PlanVersion w)) × (last.versions ≡ first.versions ++ more)
  history_appends {first} start = ([], sym (append-nil first.versions))
  history_appends {first} (next {read} {late} route_matrix writer h k) =
      let (m, e) = history_appends h in
      let (n, f) = history_appends k in
      let (before, at) = appends_then first.versions m n late.versions read.versions e f in
      let (patch_id, now, policy_result, is) = transact-commit w route_matrix writer read late in
      let (more, g) =
        commit_appends patch_id now policy_result (decision w route_matrix writer read) late in
      appends_then first.versions before more (transact w route_matrix writer read late).1.versions
        late.versions at (ap (λ answer. answer.1.versions) is ∙ g)
  history_appends {first} {last} (planned {late} row h one fresh e) =
      let (m, f) = history_appends h in
      appends_then first.versions m (row ∷ []) last.versions late.versions f e
  history_appends {first} {last} (besides {late} h e) = let (m, f) = history_appends h in (m, e ∙ f)

  pub has_version-grows :
      (run version : ℕ) (xs ys : List (PlanVersion w))
      → has_version w run version xs ≡ true
      → has_version w run version (xs ++ ys) ≡ true
  has_version-grows run version xs ys h = ground (arith, has_version-append run version xs ys)

  pub advanced_stored :
      (patch_id now : ℕ) (policy_result : String) (late : Database w) (c : Change w) (version : ℕ)
      (plan : Snapshot (contents w))
      → (commit w patch_id now policy_result (advances c) late).0 ≡ advanced version plan
      → (version ≡ c.current + 1)
        × (plan ≡ c.snapshot)
        × ((commit w patch_id now policy_result (advances c) late).1
            ≡ write_version w patch_id now policy_result c late)
  unfolding commit
  advanced_stored patch_id now policy_result late c version plan e =
      elim (Bool-cases (
        has_version w c.patch.planning_run_id (c.current + 1) late.versions
        || notified w patch_id c.trips late.trips)) [
          | inl taken ↦ absurd (ground arith)
          | inr fresh ↦ (ground arith, ground arith, rw fresh refl)
        ]

  written_version :
      (patch_id now : ℕ) (policy_result : String) (late : Database w) (c : Change w)
      → has_version w c.patch.planning_run_id
          (c.current + 1)
          (write_version w patch_id now policy_result c late).versions
        ≡ true
  unfolding write_version
  written_version patch_id now policy_result late c =
      rw (has_version-append c.patch.planning_run_id (c.current + 1) late.versions _)
        (ground (arith, beq_refl c.patch.planning_run_id, beq_refl (c.current + 1)))

  refused_twice :
      (patch_id now : ℕ) (policy_result : String) (last : Database w) (c : Change w)
      → has_version w c.patch.planning_run_id (c.current + 1) last.versions ≡ true
      → commit w patch_id now policy_result (advances c) last ≡ (error version_conflict, last)
  unfolding commit
  refused_twice patch_id now policy_result last c there = rw there

  -- Of two writers that would advance a plan from the same version, each an agent that applies a
  -- patch or a user who accepts one, only one does: once one has stored its version, the other is
  -- refused as a conflict and writes nothing, whatever such writers, new plans and transactions that
  -- leave the versions as they are come in between.
  pub advance_exclusive :
      (route_matrix : Matrices w) (writer rival : Writer w) (read rival_read late last : Database w)
      (c other : Change w) (version : ℕ) (plan : Snapshot (contents w))
      → decision w route_matrix writer read ≡ advances c
      → decision w route_matrix rival rival_read ≡ advances other
      → other.patch.planning_run_id ≡ c.patch.planning_run_id
      → other.current ≡ c.current
      → (transact w route_matrix writer read late).0 ≡ advanced version plan
      → History (transact w route_matrix writer read late).1 last
      → transact w route_matrix rival rival_read last ≡ (error version_conflict, last)
  advance_exclusive route_matrix writer rival read rival_read late last c other version plan is
        is_other run current e h =
      let (patch_id, now, policy_result, by) = transact-commit w route_matrix writer read late in
      let (rival_id, later, rival_result, by_rival) =
        transact-commit w route_matrix rival rival_read last in
      let (_, _, stored) =
        advanced_stored patch_id now policy_result late c version plan (rw (by, is) at e) in
      let (more, appended) = history_appends h in
      let at_once =
        subst
          (λ (db : Database w).
            has_version w c.patch.planning_run_id (c.current + 1) db.versions ≡ true)
          (sym (
            ap (λ answer. answer.1) by
            ∙ ap (λ d. (commit w patch_id now policy_result d late).1) is
            ∙ stored))
          (written_version patch_id now policy_result late c) in
      let there =
        rw (← appended) at
          (has_version-grows c.patch.planning_run_id (c.current + 1) _ more at_once) in
      by_rival
      ∙ rw is_other (refused_twice rival_id later rival_result last other (rw (run, current) there))
