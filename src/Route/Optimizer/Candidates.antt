-- ===== src/Route/Optimizer/Candidates.antt =====
-- The candidates that the exact search evaluates, and their evaluations.
use ai_planed_map.Prelude.{ℕ, ◌≡◌, refl, ap, some, List, [], ◌∷◌, arith, Option-cases, inl, inr}
use ai_planed_map.Route.Types.{Python, CandidateNode, RouteEvaluation}
use ai_planed_map.Route.Enumeration.Complete.{
  In-cons, In, here, there, In-append_left, In-append_right, In-append,
}
use ai_planed_map.Route.Evaluation.{Problem, evaluate_joint_order}
use ai_planed_map.Route.Optimizer.{by_task, evaluate_all, with_orders, combinations, Selection}

module _ (p : Python) where
  In-with_orders :
      (order : List ℕ) (orders : List (List ℕ)) (selected : Selection p)
      → In order orders
      → In {A = List ℕ × Selection p} (order, selected) (with_orders p orders selected)
  In-with_orders order [] selected h = elim h [ ]
  In-with_orders order (o ∷ orders) selected (here e) = here (ap (λ l. (l, selected)) e)
  In-with_orders order (o ∷ orders) selected (there h) =
      there (In-with_orders order orders selected h)

  with_orders-In :
      (c : List ℕ × Selection p) (orders : List (List ℕ)) (selected : Selection p)
      → In c (with_orders p orders selected)
      → (order : List ℕ) × (c ≡ (order, selected)) × In order orders
  with_orders-In c [] selected h = elim h [ ]
  with_orders-In c (o ∷ orders) selected (here e) = (o, e, here refl)
  with_orders-In c (o ∷ orders) selected (there h) =
      let (order, e, i) = with_orders-In c orders selected h in (order, e, there i)

  pub In-combinations :
      (order : List ℕ) (orders : List (List ℕ)) (selection : List (CandidateNode p))
      (selections : List (List (CandidateNode p)))
      → In order orders
      → In selection selections
      → In {A = List ℕ × Selection p}
          (order, by_task p [] selection)
          (combinations p orders selections)
  In-combinations order orders selection [] i h = elim h [ ]
  In-combinations order orders selection (s ∷ selections) i (here e) =
      In-append_left (order, by_task p [] selection) (with_orders p orders (by_task p [] s))
        (combinations p orders selections)
        (rw (← e) (In-with_orders order orders (by_task p [] selection) i))
  In-combinations order orders selection (s ∷ selections) i (there h) =
      In-append_right (order, by_task p [] selection) (with_orders p orders (by_task p [] s))
        (combinations p orders selections) (In-combinations order orders selection selections i h)

  pub combinations-In :
      (c : List ℕ × Selection p) (orders : List (List ℕ))
      (selections : List (List (CandidateNode p)))
      → In c (combinations p orders selections)
      → (order : List ℕ) × (selection : List (CandidateNode p)) × (c
          ≡ (order, by_task p [] selection))
        × In order orders
        × In selection selections
  combinations-In c orders [] h = elim h [ ]
  combinations-In c orders (s ∷ selections) h =
      elim (In-append c (with_orders p orders (by_task p [] s)) (combinations p orders selections)
        h) [
          | inl now ↦
              let (order, e, i) = with_orders-In c orders (by_task p [] s) now in
              (order, s, e, i, here refl)
          | inr after ↦
              let (order, selection, e, i, k) = combinations-In c orders selections after in
              (order, selection, e, i, there k)
        ]

  -- Every candidate was evaluated, and every evaluation is one of a candidate.
  evaluate_all-cons :
      (problem : Problem p) (order : List ℕ) (selected : Selection p)
      (rest : List (List ℕ × Selection p)) (items : List (RouteEvaluation p))
      → evaluate_all p problem ((order, selected) ∷ rest) ≡ some items
      → (item : RouteEvaluation p) × (more : List (RouteEvaluation p)) × (items ≡ item ∷ more)
        × (evaluate_joint_order p problem order selected ≡ some item)
        × (evaluate_all p problem rest ≡ some more)
  unfolding evaluate_all
  evaluate_all-cons problem order selected rest items e =
      elim (Option-cases (evaluate_joint_order p problem order selected)) [
        | inl failed ↦ absurd (ground arith)
        | inr (item, first) ↦ elim (Option-cases (evaluate_all p problem rest)) [
          | inl failed ↦ absurd (ground arith)
          | inr (more, others) ↦ (item, more, ground arith, first, others)
        ]
      ]

  pub In-evaluate_all :
      (problem : Problem p) (order : List ℕ) (selected : Selection p) (item : RouteEvaluation p)
      (candidates : List (List ℕ × Selection p)) (items : List (RouteEvaluation p))
      → evaluate_all p problem candidates ≡ some items
      → In {A = List ℕ × Selection p} (order, selected) candidates
      → evaluate_joint_order p problem order selected ≡ some item
      → In item items
  In-evaluate_all problem order selected item [] items e h is = elim h [ ]
  In-evaluate_all problem order selected item ((o, s) ∷ rest) items e (here same) is =
      let (first, more, cons, evaluated, others) = evaluate_all-cons problem o s rest items e in
      let order_same : order ≡ o = ap (λ c. c.0) same in
      let selected_same : selected ≡ s = ap (λ c. c.1) same in
      let item_same : item ≡ first = ground arith in rw cons (here item_same)
  In-evaluate_all problem order selected item ((o, s) ∷ rest) items e (there h) is =
      let (first, more, cons, evaluated, others) = evaluate_all-cons problem o s rest items e in
      rw cons (there (In-evaluate_all problem order selected item rest more others h is))

  pub evaluate_all-In :
      (problem : Problem p) (item : RouteEvaluation p) (candidates : List (List ℕ × Selection p))
      (items : List (RouteEvaluation p))
      → evaluate_all p problem candidates ≡ some items
      → In item items
      → (order : List ℕ) × (selected : Selection p) × In {A = List ℕ × Selection p}
          (order, selected)
          candidates
        × (evaluate_joint_order p problem order selected ≡ some item)
  evaluate_all-In problem item [] items e h =
      let none_there : items ≡ [] = unfold evaluate_all in ground arith in
      elim (rw none_there at h) [ ]
  evaluate_all-In problem item ((o, s) ∷ rest) items e h =
      let (first, more, cons, evaluated, others) = evaluate_all-cons problem o s rest items e in
      elim (In-cons item first more (rw cons at h)) [
        | inl same ↦ (o, s, here refl, rw same evaluated)
        | inr after ↦
            let (order, selected, i, is) = evaluate_all-In problem item rest more others after in
            (order, selected, there i, is)
      ]
