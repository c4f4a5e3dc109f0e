-- ===== src/Route/Optimizer/Best.antt =====
-- The choice of the best evaluation: feasible, if one of them is.
use ai_planed_map.Prelude.{
  ◌≡◌, refl, true, false, List, [], ◌∷◌, arith, Bool-cases, inl, inr, if◌then◌else◌,
}
use ai_planed_map.Route.Types.{Python, Preferences, RouteEvaluation}
use ai_planed_map.Route.Enumeration.Complete.{In-cons, In-second, In, here, there}
use ai_planed_map.Route.Optimizer.{better, least}

module _ (p : Python) where
  least-cons :
      (preferences : Preferences p) (best item : RouteEvaluation p)
      (items : List (RouteEvaluation p))
      → least p preferences best (item ∷ items)
        ≡ least p preferences (if better p preferences item best then item else best) items
  unfolding least
  least-cons preferences best item items = refl

  pub least-In :
      (preferences : Preferences p) (best : RouteEvaluation p) (items : List (RouteEvaluation p))
      → In (least p preferences best items) (best ∷ items)
  unfolding least
  least-In preferences best [] = here refl
  least-In preferences best (item ∷ items) = elim (Bool-cases (better p preferences item best)) [
    | inl chosen ↦
        rw (least-cons preferences best item items, chosen)
          (there (least-In preferences item items))
    | inr passed ↦
        rw (least-cons preferences best item items, passed)
          (In-second best item items (least-In preferences best items))
  ]

  better-feasible :
      (preferences : Preferences p) (a b : RouteEvaluation p)
      → better p preferences a b ≡ true
      → b.feasible ≡ true
      → a.feasible ≡ true
  unfolding better
  better-feasible preferences a b e f = ground arith

  feasible-better :
      (preferences : Preferences p) (a b : RouteEvaluation p)
      → better p preferences a b ≡ false
      → a.feasible ≡ true
      → b.feasible ≡ true
  unfolding better
  feasible-better preferences a b e f = ground arith

  least_keeps_feasible :
      (preferences : Preferences p) (best : RouteEvaluation p) (items : List (RouteEvaluation p))
      → best.feasible ≡ true
      → (least p preferences best items).feasible ≡ true
  least_keeps_feasible preferences best [] f = unfold least in f
  least_keeps_feasible preferences best (item ∷ items) f =
      elim (Bool-cases (better p preferences item best)) [
        | inl chosen ↦
            rw (least-cons preferences best item items, chosen)
              (least_keeps_feasible preferences item items
                (better-feasible preferences item best chosen f))
        | inr passed ↦
            rw (least-cons preferences best item items, passed)
              (least_keeps_feasible preferences best items f)
      ]

  pub least-feasible :
      (preferences : Preferences p) (best item : RouteEvaluation p)
      (items : List (RouteEvaluation p))
      → In item (best ∷ items)
      → item.feasible ≡ true
      → (least p preferences best items).feasible ≡ true
  least-feasible preferences best item items (here e) f =
      least_keeps_feasible preferences best items (rw e at f)
  least-feasible preferences best item [] (there h) f = elim h [ ]
  least-feasible preferences best item (next ∷ items) (there h) f =
      elim (Bool-cases (better p preferences next best)) [
        | inl chosen ↦
            rw (least-cons preferences best next items, chosen)
              (least-feasible preferences next item items h f)
        | inr passed ↦
            rw (least-cons preferences best next items, passed)
              (elim (In-cons item next items h) [
                | inl same ↦
                    least_keeps_feasible preferences best items
                      (feasible-better preferences next best passed (rw same at f))
                | inr after ↦ least-feasible preferences best item items (there after) f
              ])
      ]
