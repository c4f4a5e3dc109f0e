-- ===== src/Route/Evaluation/Stops.antt =====
-- A stop in which the loop of an evaluation finds no conflict.
use ai_planed_map.Prelude.{
  ℕ, ◌+◌, ◌*◌, ◌-◌, ◌≤◌, ◌≡◌, ◌≢◌, refl, Bool, true, false, ◌||◌, some, List, [], ◌∷◌, ◌++◌, arith,
  ltb, nat_eq, string_eq,
}
use ai_planed_map.Route.Types.{
  Python, Conflict, PlanningTask, HardConstraints, RouteEdge, CandidateNode,
}
use ai_planed_map.Route.Visits.{
  some_is, named, begins, stop_conflicts, service_minutes, rating_below, exceeds, within, is_empty,
  microseconds_per_minute, when,
}

pub append_nil_left {ℓ} : {A : Type ℓ} (xs ys : List A) → xs ++ ys ≡ [] → xs ≡ []
append_nil_left [] ys e = refl
append_nil_left (x ∷ xs) ys e = cc

pub append_nil_right {ℓ} : {A : Type ℓ} (xs ys : List A) → xs ++ ys ≡ [] → ys ≡ []
append_nil_right [] ys e = e
append_nil_right (x ∷ xs) ys e = cc

pub empty {ℓ} : {A : Type ℓ} (xs : List A) → is_empty xs ≡ true → xs ≡ []
empty [] e = refl
empty (x ∷ xs) e = cc

when-nil : (test : Bool) (conflict : Conflict) → when test conflict ≡ [] → test ≡ false
when-nil true conflict e = cc
when-nil false conflict e = refl

module _ (p : Python) where
  open p use {less, microseconds}

  -- A stop that begins at `begun` and ends at `left`, after a departure at `ready`.
  pub record Kept (constraints : HardConstraints p) (buffer ready : ℕ) (edge : RouteEdge p)
      (node : CandidateNode p) (task : PlanningTask p) (begun left : ℕ) : Type 0 where
    pub travelled : ready + microseconds edge.duration_seconds ≤ begun
    pub served : left ≡ begun + service_minutes p task * microseconds_per_minute
    pub not_early : (at : ℕ) → task.earliest_arrival ≡ some at → at ≤ begun
    pub on_time :
        (at : ℕ)
        → task.appointment_time ≡ some at
        → (ready + microseconds edge.duration_seconds ≤ at) × (at ≤ begun)
    pub in_time : (at : ℕ) → task.deadline ≡ some at → begun ≤ at - buffer
    pub rated : rating_below p node.rating task.min_rating ≡ false
    pub open_then : task.require_open ≡ true → node.open_now ≢ some false
    pub accessible :
        (task.require_wheelchair_accessible
            || constraints.wheelchair_accessible
            || ltb 0 constraints.wheelchair_users)
          ≡ true
        → node.wheelchair_accessible ≡ some true
    pub in_district :
        is_empty constraints.allowed_districts ≡ false
        → within p node.district constraints.allowed_districts ≡ true
    pub not_avoided :
        some_is
          (λ district. some_is (λ area. p.contains area district) constraints.avoid_areas)
          (named p node.district)
        ≡ false
    pub affordable : exceeds p node.estimated_cost_yuan task.max_cost_yuan ≡ false

  begins-le : (task : PlanningTask p) (reached : ℕ) → reached ≤ begins p task reached
  unfolding begins
  begins-le task reached = ground arith

  begins-earliest :
      (task : PlanningTask p) (reached at : ℕ)
      → task.earliest_arrival ≡ some at
      → at ≤ begins p task reached
  unfolding begins
  begins-earliest task reached at e = ground arith

  begins-appointment :
      (task : PlanningTask p) (reached at : ℕ)
      → task.appointment_time ≡ some at
      → at ≤ begins p task reached
  unfolding begins
  begins-appointment task reached at e = ground arith

  -- A stop without conflicts.
  pub no_conflicts-Kept :
      (constraints : HardConstraints p) (buffer ready : ℕ) (edge : RouteEdge p)
      (node : CandidateNode p) (task : PlanningTask p)
      → (let reached = ready + microseconds edge.duration_seconds in
          stop_conflicts p constraints buffer task node reached (begins p task reached))
        ≡ []
      → (let begun = begins p task (ready + microseconds edge.duration_seconds) in
          Kept constraints buffer ready edge node task begun
            (begun + service_minutes p task * microseconds_per_minute))
  unfolding stop_conflicts
  no_conflicts-Kept constraints buffer ready edge node task e = record {
    travelled = begins-le task (ready + microseconds edge.duration_seconds);
    served = refl;
    not_early = λ at h. begins-earliest task (ready + microseconds edge.duration_seconds) at h;
    on_time = λ at h.
        (ground arith, begins-appointment task (ready + microseconds edge.duration_seconds) at h);
    in_time = λ at h. ground arith;
    rated = ground arith;
    open_then = λ h k. ground arith;
    accessible = λ h. ground arith;
    in_district = λ h. ground arith;
    not_avoided = ground arith;
    affordable = ground arith;
  }
