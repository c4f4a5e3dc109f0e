-- ===== src/Plan/Recalculation/Passing.antt =====
-- The steps of a validation that finds no conflict.
use ai_planed_map.Prelude.{
  ℕ, zero, suc, ◌+◌, ◌≡◌, refl, true, some, List, [], ◌∷◌, ◌++◌, arith, length, get_elem?, is_some,
  Option-cases, Bool-cases, inl, inr, nat_eq, ◌>>=◌, >>=-eq-some,
}
use ai_planed_map.Prelude.Dict.{Dict, get}
use ai_planed_map.Route.Types.{
  Conflict, TransportMode, PlanningTask, CandidateNode, RouteMatrix, RouteEvaluation,
}
use ai_planed_map.Route.Visits.{is_empty}
use ai_planed_map.Route.Evaluation.{Problem, evaluate_joint_order}
use ai_planed_map.Route.Evaluation.Stops.{append_nil_left, append_nil_right, empty}
use ai_planed_map.Plan.Patch.{Stop, Snapshot}
use ai_planed_map.Plan.Patch.Positions.{obligations}
use ai_planed_map.Plan.Snapshots.{World, contents, returned}
use ai_planed_map.Plan.Recalculation.{
  Gathered, gather, missing_from, removed_conflicts, of_evaluations, timed_stop, timed_stops,
  written, problem_of, conclude, validate,
}
use ai_planed_map.Plan.Recalculation.Placed.{Placed, gather-Placed}
use ai_planed_map.Plan.Recalculation.Identity.{Taken, gather-Taken}

module _ (w : World) where
  open w use {python, Coordinate}

  abbrev pub nothing : Gathered w
  nothing = record { order = []; selected = []; conflicts = [] }

  removed_none : (is : List ℕ) → removed_conflicts w is ≡ [] → is ≡ []
  removed_none [] e = refl
  removed_none (i ∷ is) e = cc

  pub missing_none :
      (from i : ℕ) (task : PlanningTask python) (tasks : List (PlanningTask python))
      (selected : Dict ℕ (CandidateNode python))
      → missing_from w from tasks selected ≡ []
      → get_elem? tasks i ≡ some task
      → task.required ≡ true
      → is_some (get (from + i) selected) ≡ true
  unfolding missing_from
  missing_none from i task [] selected e at r = cc
  missing_none from zero task (t ∷ tasks) selected e at r =
      let same : t ≡ task = cc in
      let start : from + 0 ≡ from = omega arith in rw start (ground arith)
  missing_none from (suc i) task (t ∷ tasks) selected e at r =
      let next : from + suc i ≡ (from + 1) + i = omega arith in
      rw next (missing_none (from + 1) i task tasks selected (ground arith) at r)

  timed_stop-obligation :
      (problem : Problem python) (found : RouteEvaluation python)
      (selected : Dict ℕ (CandidateNode python)) (stop timed : Stop (contents w))
      → timed_stop w problem found selected stop ≡ some timed
      → (timed.task_index ≡ stop.task_index) × (timed.task ≡ stop.task) × (timed.poi ≡ stop.poi)
  unfolding timed_stop
  timed_stop-obligation problem found selected stop timed e = ground arith

  pub timed_stops-obligations :
      (problem : Problem python) (found : RouteEvaluation python)
      (selected : Dict ℕ (CandidateNode python)) (stops timed : List (Stop (contents w)))
      → timed_stops w problem found selected stops ≡ some timed
      → obligations (contents w) timed ≡ obligations (contents w) stops
  unfolding timed_stops
  timed_stops-obligations problem found selected [] timed e =
      let same : [] ≡ timed = cc in rw (← same)
  timed_stops-obligations problem found selected (stop ∷ stops) timed e =
      let (first, one, e') =
        >>=-eq-some (timed_stop w problem found selected stop)
          (λ t. timed_stops w problem found selected stops >>= λ more. some (t ∷ more)) e in
      let (more, others, e'') =
        >>=-eq-some (timed_stops w problem found selected stops) (λ more. some (first ∷ more)) e' in
      let same : first ∷ more ≡ timed = cc in
      let as_before = timed_stop-obligation problem found selected stop first one in
      let rest = timed_stops-obligations problem found selected stops more others in
      rw (← same, as_before.0, as_before.1, rest)

  of_evaluations_none : (cs : List Conflict) → of_evaluations w cs ≡ [] → cs ≡ []
  of_evaluations_none [] e = refl
  of_evaluations_none (c ∷ cs) e = cc

  -- What a validation without conflicts went through.
  pub record Passed (snapshot : Snapshot (contents w)) (stops : List (Stop (contents w)))
      (departure : ℕ) (mode : TransportMode) (matrix : RouteMatrix python)
      (s : Snapshot (contents w)) : Type 0 where
    pub gathered : Gathered w
    pub taken : Taken w (length snapshot.rest.tasks) stops nothing gathered
    pub placed : Placed w gathered.selected 1 stops gathered.order
    pub nothing_missing : missing_from w 0 snapshot.rest.tasks gathered.selected ≡ []
    pub found : RouteEvaluation python
    pub is_found :
        evaluate_joint_order python
          (problem_of w snapshot departure mode matrix)
          gathered.order
          gathered.selected
        ≡ some found
    pub clear : found.conflicts ≡ []
    pub timed : List (Stop (contents w))
    pub are_timed :
        timed_stops w (problem_of w snapshot departure mode matrix) found gathered.selected stops
        ≡ some timed
    pub is_written : s ≡ written w snapshot departure found timed

  conclude-returned :
      (snapshot s : Snapshot (contents w)) (departure : ℕ) (problem : Problem python)
      (selected : Dict ℕ (CandidateNode python)) (found : RouteEvaluation python)
      (stops : List (Stop (contents w)))
      → conclude w snapshot departure problem selected found stops ≡ returned s []
      → (timed : List (Stop (contents w))) × (timed_stops w problem found selected stops
          ≡ some timed)
        × (found.conflicts ≡ [])
        × (s ≡ written w snapshot departure found timed)
  unfolding conclude
  conclude-returned snapshot s departure problem selected found stops e =
      elim (Option-cases (timed_stops w problem found selected stops)) [
        | inl failed ↦ absurd (ground arith)
        | inr (timed, all) ↦
            (timed, all, of_evaluations_none found.conflicts (ground arith), ground arith)
      ]

  pub validate-Passed :
      (snapshot s : Snapshot (contents w)) (stops : List (Stop (contents w))) (departure : ℕ)
      (mode : TransportMode) (matrix : RouteMatrix python)
      → validate w snapshot stops departure mode matrix ≡ returned s []
      → Passed snapshot stops departure mode matrix s
  unfolding validate
  validate-Passed snapshot s stops departure mode matrix e =
      let g = gather w (length snapshot.rest.tasks) 1 stops nothing in
      let missing = missing_from w 0 snapshot.rest.tasks g.selected in
      elim (Bool-cases (is_empty (g.conflicts ++ removed_conflicts w missing))) [
        | inr some_there ↦ absurd (ground arith)
        | inl none_there ↦
            let empty_all = empty (g.conflicts ++ removed_conflicts w missing) none_there in
            elim (Option-cases (
              evaluate_joint_order python (problem_of w snapshot departure mode matrix) g.order
                g.selected)) [
                  | inl failed ↦ absurd (ground arith)
                  | inr (found, is_found) ↦
                      let (timed, all, clear, is) =
                        conclude-returned snapshot s departure
                          (problem_of w snapshot departure mode matrix) g.selected found stops
                          (ground arith) in
                      let clear_of =
                        append_nil_left g.conflicts (removed_conflicts w missing) empty_all in
                      let (order, ordered, placed) =
                        gather-Placed w (length snapshot.rest.tasks) 1 stops nothing clear_of in
                      record {
                        gathered = g;
                        placed = rw ordered placed;
                        taken =
                            gather-Taken w (length snapshot.rest.tasks) 1 stops nothing clear_of;
                        nothing_missing =
                            removed_none missing (
                              append_nil_right g.conflicts (removed_conflicts w missing) empty_all);
                        found = found;
                        is_found = is_found;
                        clear = clear;
                        timed = timed;
                        are_timed = all;
                        is_written = is;
                      }
                ]
      ]
