-- ===== src/Plan/Versions/Log.antt =====
-- The versions of a plan as a log that is only appended to, each entry on top of the newest one.
use mathlib.Core.List.{append-nil}
use mathlib.Core.Option.{some-injective}
use ai_planed_map.Prelude.{
  ℕ, ◌+◌, ◌≡◌, ◌⊎◌, inl, inr, refl, sym, ap, ◌∙◌, String, true, false, ◌&&◌, ◌||◌, Option, none,
  some, List, [], ◌∷◌, ◌++◌, leb, length, length-append, arith, Bool-cases, nat_eq, nat_beq_iff,
  ◌==◌, if◌then◌else◌,
}
use ai_planed_map.Prelude.Dict.{get}
use ai_planed_map.Plan.Patch.{Snapshot}
use ai_planed_map.Plan.Snapshots.{World, contents}
use ai_planed_map.Plan.Tables.{PlanPatch, PlanVersion, Database}
use ai_planed_map.Plan.Versions.Decisions.{decide-Advance, latest-has_version}
use ai_planed_map.Plan.Versions.{
  Error, Change, Decision, raised, blocks, advances, decide, has_version, notified, write_version,
  write_block, Answer, error, advanced, commit, apply_plan_patch_cas,
}
use ai_planed_map.Plan.Versions.Acceptance.{
  Matrices, Writer, by_agent, decision, transact, transact-commit, decision-OnNewest,
}
use ai_planed_map.Plan.Versions.History.{
  History, start, next, planned, besides, history_appends, has_version-append, has_version-grows,
}

module _ (w : World) where
  -- The plans of a run, oldest first.
  abbrev pub log : ℕ → List (PlanVersion w) → List (Snapshot (contents w))
  log run [] = []
  log run (row ∷ rows) =
      let rest = log run rows in if row.planning_run_id == run then row.snapshot ∷ rest else rest

  -- The abstract operation: append to a log whose length is still the one expected.
  abbrev pub compare_and_append :
      ℕ
      → Snapshot (contents w)
      → List (Snapshot (contents w))
      → Option (List (Snapshot (contents w)))
  compare_and_append expected plan plans =
      if length plans == expected then some (plans ++ plan ∷ []) else none

  -- What the answer to a patch means for the log of a run.
  abbrev pub means :
      PlanPatch w
      → Answer w
      → ℕ
      → List (Snapshot (contents w))
      → Option (List (Snapshot (contents w)))
  means patch (error e) run plans = some plans
  means patch (advanced version plan) run plans =
      if patch.planning_run_id == run
      then compare_and_append patch.base_version plan plans
      else some plans

  -- The versions of each run are numbered by the entries of its log.
  pub record Dense (rows : List (PlanVersion w)) : Type 0 where
    pub numbers :
        (run version : ℕ)
        → has_version w run version rows ≡ (leb 1 version && leb version (length (log run rows)))

  log-append :
      (run : ℕ) (xs ys : List (PlanVersion w)) → log run (xs ++ ys) ≡ log run xs ++ log run ys
  log-append run [] ys = refl
  log-append run (x ∷ xs) ys = elim (Bool-cases (x.planning_run_id == run)) [
    | inl mine ↦ rw mine (ap (λ l. x.snapshot ∷ l) (log-append run xs ys))
    | inr other ↦ rw other (log-append run xs ys)
  ]

  log-other :
      (run : ℕ) (xs : List (PlanVersion w)) (row : PlanVersion w)
      → (row.planning_run_id == run) ≡ false
      → log run (xs ++ row ∷ []) ≡ log run xs
  log-other run xs row other = log-append run xs (row ∷ []) ∙ rw other (append-nil (log run xs))

  log-mine :
      (run : ℕ) (xs : List (PlanVersion w)) (row : PlanVersion w)
      → (row.planning_run_id == run) ≡ true
      → log run (xs ++ row ∷ []) ≡ log run xs ++ row.snapshot ∷ []
  log-mine run xs row mine = log-append run xs (row ∷ []) ∙ rw mine refl

  -- A version that is there, with no version after it, is the length of the log.
  newest_number :
      (rows : List (PlanVersion w)) (run version : ℕ)
      → Dense rows
      → has_version w run version rows ≡ true
      → has_version w run (version + 1) rows ≡ false
      → length (log run rows) ≡ version
  newest_number rows run version d there fresh =
      let at_most = sym (d.numbers run version) ∙ there in
      let not_more = sym (d.numbers run (version + 1)) ∙ fresh in ground arith

  Dense-snoc :
      (rows : List (PlanVersion w)) (row : PlanVersion w)
      → Dense rows
      → row.version ≡ length (log row.planning_run_id rows) + 1
      → Dense (rows ++ row ∷ [])
  Dense-snoc rows row d is = record {
    numbers = λ run version.
        let plans = log run rows in
        elim (Bool-cases (row.planning_run_id == run)) [
          | inl mine ↦
              let same : row.planning_run_id ≡ run = (nat_beq_iff row.planning_run_id run).0 mine in
              let here : row.version ≡ length plans + 1 =
                is ∙ ap (λ r. length (log r rows) + 1) same in
              rw
                (
                  has_version-append w run version rows (row ∷ []),
                  d.numbers run version,
                  log-mine run rows row mine,
                  length-append plans (row.snapshot ∷ []),
                  mine,
                  here,
                )
                (ground (arith, nat_beq_iff (length plans + 1) version))
          | inr other ↦
              rw
                (
                  has_version-append w run version rows (row ∷ []),
                  d.numbers run version,
                  log-other run rows row other,
                  other,
                )
                (ground arith)
        ];
  }

  -- The row that a change becomes.
  abbrev row_of : Change w → PlanVersion w
  row_of c = record {
    planning_run_id = c.patch.planning_run_id;
    user_id = c.patch.user_id;
    version = c.current + 1;
    snapshot = c.snapshot;
    change_reason = c.patch.reason;
  }

  -- A commit writes no version and answers an error, or it writes the row and answers its number.
  commit-cases :
      (patch_id now : ℕ) (policy_result : String) (d : Decision w) (db : Database w)
      → (let answer = commit w patch_id now policy_result d db in
          ((e : Error w) × (answer.0 ≡ error e) × (answer.1.versions ≡ db.versions))
          ⊎ ((c : Change w) × (d ≡ advances c)
              × (answer.0 ≡ advanced (c.current + 1) c.snapshot)
              × (answer.1.versions ≡ db.versions ++ row_of c ∷ [])
              × (has_version w c.patch.planning_run_id (c.current + 1) db.versions ≡ false)))
  unfolding commit
  commit-cases patch_id now policy_result (raised e) db = inl (e, refl, refl)
  commit-cases patch_id now policy_result (blocks patch found) db =
      unfold write_block in inl (_, refl, refl)
  commit-cases patch_id now policy_result (advances c) db =
      elim (Bool-cases (
        has_version w c.patch.planning_run_id (c.current + 1) db.versions
        || notified w patch_id c.trips db.trips)) [
          | inl taken ↦ rw taken (inl (_, refl, refl))
          | inr fresh ↦ rw fresh (unfold write_version in inr (c, refl, refl, refl, ground arith))
        ]

  -- What a transaction advances from, in the state that it commits to.
  advances_from_newest :
      (route_matrix : Matrices w) (writer : Writer w) (read late : Database w) (c : Change w)
      → History w read late
      → Dense late.versions
      → decision w route_matrix writer read ≡ advances c
      → has_version w c.patch.planning_run_id (c.current + 1) late.versions ≡ false
      → length (log c.patch.planning_run_id late.versions) ≡ c.current
  advances_from_newest route_matrix writer read late c h d is fresh =
      let a = decision-OnNewest w route_matrix writer read c is in
      let run = c.patch.planning_run_id in
      let (more, grown) = history_appends w h in
      let there : has_version w run c.current late.versions ≡ true = rw grown (
        has_version-grows w run c.current read.versions more
          (rw a.current (latest-has_version w run read.versions a.row a.newest))) in
      newest_number late.versions run c.current d there fresh

  appended :
      (c : Change w) (rows : List (PlanVersion w)) (run : ℕ)
      → length (log c.patch.planning_run_id rows) ≡ c.patch.base_version
      → means c.patch (advanced (c.current + 1) c.snapshot) run (log run rows)
        ≡ some (log run (rows ++ row_of c ∷ []))
  appended c rows run expected = elim (Bool-cases (c.patch.planning_run_id == run)) [
    | inl mine ↦
        let same : c.patch.planning_run_id ≡ run =
          (nat_beq_iff c.patch.planning_run_id run).0 mine in
        let here : (length (log run rows) == c.patch.base_version) ≡ true =
          (nat_beq_iff (length (log run rows)) c.patch.base_version).1
            (ap (λ r. length (log r rows)) (sym same) ∙ expected) in
        rw (mine, here, log-mine run rows (row_of c) mine) refl
    | inr other ↦ rw (other, log-other run rows (row_of c) other) refl
  ]

  -- A run without versions has an empty log.
  no_version :
      (rows : List (PlanVersion w)) (run : ℕ)
      → Dense rows
      → has_version w run 1 rows ≡ false
      → length (log run rows) ≡ 0
  no_version rows run d absent = let none_there = sym (d.numbers run 1) ∙ absent in ground arith

  same-Dense : (xs ys : List (PlanVersion w)) → ys ≡ xs → Dense xs → Dense ys
  same-Dense xs ys e d = rw e d

  pub history-Dense :
      {first last : Database w} → History w first last → Dense first.versions → Dense last.versions
  history-Dense start d = d
  history-Dense (planned {late} {last} row h one fresh e) d =
      let before = history-Dense h d in
      let run = row.planning_run_id in
      let empty = no_version late.versions run before (fresh 1) in
      same-Dense (late.versions ++ row ∷ []) last.versions e
        (Dense-snoc late.versions row before (omega (arith, one, empty)))
  history-Dense (besides {late} {last} h e) d =
      same-Dense late.versions last.versions e (history-Dense h d)
  history-Dense (next {read} {late} route_matrix writer h k) d =
      let before = history-Dense k (history-Dense h d) in
      let (patch_id, now, policy_result, by) = transact-commit w route_matrix writer read late in
      let after = (transact w route_matrix writer read late).1.versions in
      elim (commit-cases patch_id now policy_result (decision w route_matrix writer read) late) [
        | inl (e, answered, same) ↦
            same-Dense late.versions after (ap (λ answer. answer.1.versions) by ∙ same) before
        | inr (c, is, answered, grown, fresh) ↦
            let newest = advances_from_newest route_matrix writer read late c k before is fresh in
            same-Dense (late.versions ++ row_of c ∷ []) after
              (ap (λ answer. answer.1.versions) by ∙ grown)
              (Dense-snoc late.versions (row_of c) before (ap (λ n. n + 1) (sym newest)))
      ]

  -- The transaction refines a compare-and-append on the log of the plan that its patch is for: where
  -- it answers with a version, it has appended the plan to a log that was as long as the base version
  -- of the patch, and touched the log of no other run; where it answers with an error, every log is
  -- as it was. This holds although it has decided on a state that may be older than the one that it
  -- commits to, whatever other transactions came before it and in between, if the versions of each
  -- run were numbered by its log at first.
  pub apply_plan_patch_cas-refines :
      (route_matrix : Matrices w) (patch_id now : ℕ) (policy_result : String)
      (first read late : Database w) (patch : PlanPatch w) (run : ℕ)
      → Dense first.versions
      → History w first read
      → History w read late
      → get patch_id read.patches ≡ some patch
      → (let answer = apply_plan_patch_cas w route_matrix patch_id now policy_result read late in
          means patch answer.0 run (log run late.versions) ≡ some (log run answer.1.versions))
  unfolding apply_plan_patch_cas
  apply_plan_patch_cas-refines route_matrix patch_id now policy_result first read late patch run d h
        k stored =
      let before = history-Dense k (history-Dense h d) in
      elim (commit-cases patch_id now policy_result (decide w route_matrix patch_id read) late) [
        | inl (e, answered, same) ↦ rw (answered, same) refl
        | inr (c, is, answered, grown, fresh) ↦
            let a = decide-Advance w route_matrix patch_id read c is in
            let same : c.patch ≡ patch = some-injective _ _ (sym a.stored ∙ stored) in
            let newest =
              advances_from_newest route_matrix (by_agent patch_id now policy_result) read late c k
                before is fresh in
            rw (answered, grown, ← same)
              (appended c late.versions run (newest ∙ a.current ∙ a.base))
      ]
