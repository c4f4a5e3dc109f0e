-- ===== src/Route/Optimizer/Exact.antt =====
-- The exact search looks at every choice of places in every order of the tasks.
use mathlib.Core.Path.{subst}
use ai_planed_map.Prelude.{
  ℕ, ◌≡◌, sym, ap, ◌∙◌, true, Option, some, List, [], ◌∷◌, arith, length, Option-cases, inl, inr,
}
use ai_planed_map.Route.Types.{Python, CandidateNode, RouteEvaluation}
use ai_planed_map.Route.Enumeration.{range_from, permutations, product}
use ai_planed_map.Route.Enumeration.Complete.{
  In, Arrangement, Arrangement-length, Choice, In-permutations, permutations-In, In-product,
  product-In, length-range_from,
}
use ai_planed_map.Route.Evaluation.{Problem, evaluate_joint_order}
use ai_planed_map.Route.Optimizer.{
  Algorithm, exact_enumeration, by_task, least, evaluate_all, baseline_distance, combinations,
  is_exact, candidates_of, with_baseline, optimize_joint_route, Selection,
}
use ai_planed_map.Route.Optimizer.Candidates.{
  In-combinations, combinations-In, In-evaluate_all, evaluate_all-In,
}
use ai_planed_map.Route.Optimizer.Best.{least-In, least-feasible}

some_injective {ℓ} : {A : Type ℓ} {a b : A} → some a ≡ some b → a ≡ b
some_injective e = cc

module _ (p : Python) where
  -- What an answer of the optimizer went through.
  optimized :
      (problem : Problem p) (groups : List (List (CandidateNode p)))
      (solver : Option (List ℕ × Selection p)) (best : RouteEvaluation p) (algorithm : Algorithm)
      → optimize_joint_route p problem groups solver ≡ some (best, algorithm)
      → (distance : p.Float) × (candidates : List (List ℕ × Selection p)) × (first : RouteEvaluation
          p)
        × (others : List (RouteEvaluation p)) × (baseline_distance p problem groups 0
              (p.literal 0 0)
            ≡ some distance)
        × (candidates_of p problem groups solver ≡ some (candidates, algorithm))
        × (evaluate_all p (with_baseline p problem distance) candidates ≡ some (first ∷ others))
        × (best ≡ least p problem.preferences first others)
  unfolding optimize_joint_route
  optimized problem groups solver best algorithm e =
      elim (Option-cases (baseline_distance p problem groups 0 (p.literal 0 0))) [
        | inl failed ↦ absurd (ground arith)
        | inr (distance, base) ↦ elim (Option-cases (candidates_of p problem groups solver)) [
          | inl failed ↦ absurd (ground arith)
          | inr ((candidates, by), tried) ↦
              elim (Option-cases (evaluate_all p (with_baseline p problem distance) candidates)) [
                | inl failed ↦ absurd (ground arith)
                | inr ([], all) ↦ absurd (ground arith)
                | inr (first ∷ others, all) ↦
                    (distance, candidates, first, others, base, ground arith, all, ground arith)
              ]
        ]
      ]

  exact_candidates :
      (problem : Problem p) (groups : List (List (CandidateNode p)))
      (solver : Option (List ℕ × Selection p)) (candidates : List (List ℕ × Selection p))
      (algorithm : Algorithm)
      → is_exact p (length problem.tasks) groups ≡ true
      → candidates_of p problem groups solver ≡ some (candidates, algorithm)
      → (combinations p
            (permutations (length problem.tasks) (range_from 0 (length problem.tasks)))
            (product groups)
          ≡ candidates)
        × (exact_enumeration ≡ algorithm)
  unfolding candidates_of
  exact_candidates problem groups solver candidates algorithm small e =
      let found = rw (small) at e in
      (ap (λ c. c.0) (some_injective found), ap (λ c. c.1) (some_injective found))

  -- An evaluation of one candidate from each group in some order of all tasks.
  pub record Answers (problem : Problem p) (groups : List (List (CandidateNode p)))
      (distance : p.Float) (item : RouteEvaluation p) : Type 0 where
    pub order : List ℕ
    pub chosen : List (CandidateNode p)
    pub in_some_order : Arrangement order (range_from 0 (length problem.tasks))
    pub one_of_each : Choice chosen groups
    pub evaluated :
        evaluate_joint_order p (with_baseline p problem distance) order (by_task p [] chosen)
        ≡ some item

  Answers-In :
      (problem : Problem p) (groups : List (List (CandidateNode p))) (distance : p.Float)
      (item : RouteEvaluation p) (items : List (RouteEvaluation p))
      → evaluate_all p (with_baseline p problem distance) (
          combinations p
            (permutations (length problem.tasks) (range_from 0 (length problem.tasks)))
            (product groups))
        ≡ some items
      → Answers problem groups distance item
      → In item items
  Answers-In problem groups distance item items all a =
      let long : length a.order ≡ length problem.tasks =
        Arrangement-length a.in_some_order ∙ length-range_from 0 (length problem.tasks) in
      let found : In a.order
          (permutations (length problem.tasks) (range_from 0 (length problem.tasks))) =
        subst (λ (n : ℕ). In a.order (permutations n (range_from 0 (length problem.tasks)))) long
          (In-permutations a.in_some_order) in
      In-evaluate_all p (with_baseline p problem distance) a.order (by_task p [] a.chosen) item
        (combinations p (permutations (length problem.tasks) (range_from 0 (length problem.tasks)))
          (product groups))
        items all
        (In-combinations p a.order
          (permutations (length problem.tasks) (range_from 0 (length problem.tasks))) a.chosen
          (product groups) found (In-product a.one_of_each))
        a.evaluated

  In-Answers :
      (problem : Problem p) (groups : List (List (CandidateNode p))) (distance : p.Float)
      (item : RouteEvaluation p) (items : List (RouteEvaluation p))
      → evaluate_all p (with_baseline p problem distance) (
          combinations p
            (permutations (length problem.tasks) (range_from 0 (length problem.tasks)))
            (product groups))
        ≡ some items
      → In item items
      → Answers problem groups distance item
  In-Answers problem groups distance item items all h =
      let orders = permutations (length problem.tasks) (range_from 0 (length problem.tasks)) in
      let (order, selected, i, is) =
        evaluate_all-In p (with_baseline p problem distance) item
          (combinations p orders (product groups)) items all h in
      let (o, chosen, same, at, one) =
        combinations-In p (order, selected) orders (product groups) i in
      record {
        order = o;
        chosen = chosen;
        in_some_order =
            permutations-In (length problem.tasks) o (range_from 0 (length problem.tasks))
              (length-range_from 0 (length problem.tasks)) at;
        one_of_each = product-In chosen groups one;
        evaluated =
            ap
              (λ (c : List ℕ × Selection p).
                evaluate_joint_order p (with_baseline p problem distance) c.0 c.1)
              (sym same)
            ∙ is;
      }

  -- With at most six tasks and 60,000 combinations the optimizer evaluates one choice from each
  -- group in one order of all tasks, and its answer is feasible exactly where some choice in some
  -- order is: no feasible route is overlooked.
  pub exact_search_complete :
      (problem : Problem p) (groups : List (List (CandidateNode p)))
      (solver : Option (List ℕ × Selection p)) (best : RouteEvaluation p) (algorithm : Algorithm)
      → is_exact p (length problem.tasks) groups ≡ true
      → optimize_joint_route p problem groups solver ≡ some (best, algorithm)
      → (distance : p.Float) × (baseline_distance p problem groups 0 (p.literal 0 0)
          ≡ some distance)
        × (algorithm ≡ exact_enumeration)
        × Answers problem groups distance best
        × ((item : RouteEvaluation p)
            → Answers problem groups distance item
            → item.feasible ≡ true
            → best.feasible ≡ true)
  exact_search_complete problem groups solver best algorithm small e =
      let (distance, candidates, first, others, base, tried, all, is) =
        optimized problem groups solver best algorithm e in
      let (those, by) = exact_candidates problem groups solver candidates algorithm small tried in
      let all' = rw (← those) at all in
      let found : In best (first ∷ others) = rw is (least-In p problem.preferences first others) in
      (
        distance,
        base,
        sym by,
        In-Answers problem groups distance best (first ∷ others) all' found,
        λ item a f.
            ap (λ (r : RouteEvaluation p). r.feasible) is
            ∙ least-feasible p problem.preferences first item others
                (Answers-In problem groups distance item (first ∷ others) all' a) f,
      )
