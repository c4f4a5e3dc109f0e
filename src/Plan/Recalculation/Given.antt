-- ===== src/Plan/Recalculation/Given.antt =====
-- What the validation of a patched plan is given: the origin, the departure, the mode and the buffer.
use ai_planed_map.Prelude.{
  ℕ, ◌≤◌, ◌*◌, Option, ◌≡◌, refl, none, some, List, [], ◌∷◌, arith, Option-cases, inl, inr, ◌⊎◌,
  nat_eq,
}
use ai_planed_map.Route.Types.{TransportMode, RouteMatrix}
use ai_planed_map.Route.Visits.{microseconds_per_minute}
use ai_planed_map.Plan.Patch.{Stop, Snapshot}
use ai_planed_map.Plan.Snapshots.{World, contents, ReplanContext, PlanConflict, returned}
use ai_planed_map.Plan.Recalculation.{
  safety_buffer, validate, or_else, recalculate_and_validate_snapshot, locations,
}

module _ (w : World) where
  open w use {python, Coordinate}

  -- The value of the context, or else the one of the plan.
  abbrev pub Chosen : {A : Type 0} → Option A → Option A → A → Type 0
  Chosen context plan value = (context ≡ some value) ⊎ ((context ≡ none) × (plan ≡ some value))

  or_else-Chosen :
      {A : Type 0} (context plan : Option A) (value : A)
      → or_else w context plan ≡ some value
      → Chosen context plan value
  or_else-Chosen none plan value e = inr (refl, e)
  or_else-Chosen (some a) plan value e = inl e

  -- What the validation of a plan is given.
  pub record Given (route_matrix : List Coordinate → TransportMode → RouteMatrix python)
      (snapshot s : Snapshot (contents w)) (stops : List (Stop (contents w)))
      (context : ReplanContext w) (conflicts : List (PlanConflict w)) : Type 0 where
    pub origin : Coordinate
    pub departure : ℕ
    pub mode : TransportMode
    pub starts : Chosen context.origin snapshot.rest.origin origin
    pub departs : Chosen context.departure_time snapshot.departure_time departure
    pub travels : snapshot.transport_mode ≡ some mode
    pub validated :
        validate w snapshot stops departure mode (route_matrix (origin ∷ locations w stops) mode)
        ≡ returned s conflicts

  pub recalculate-validate :
      (route_matrix : List Coordinate → TransportMode → RouteMatrix python)
      (snapshot s : Snapshot (contents w)) (stops : List (Stop (contents w)))
      (context : ReplanContext w) (conflicts : List (PlanConflict w))
      → recalculate_and_validate_snapshot w route_matrix snapshot stops context
        ≡ returned s conflicts
      → Given route_matrix snapshot s stops context conflicts
  unfolding recalculate_and_validate_snapshot
  recalculate-validate route_matrix snapshot s stops context conflicts e =
      elim (Option-cases (or_else w context.origin snapshot.rest.origin)) [
        | inl missing ↦ absurd (ground arith)
        | inr (origin, o) ↦
            elim (Option-cases (or_else w context.departure_time snapshot.departure_time)) [
              | inl missing ↦ absurd (ground arith)
              | inr (departure, d) ↦ elim (Option-cases snapshot.transport_mode) [
                | inl missing ↦ absurd (ground arith)
                | inr (mode, m) ↦ record {
                  origin = origin;
                  departure = departure;
                  mode = mode;
                  starts = or_else-Chosen context.origin snapshot.rest.origin origin o;
                  departs =
                      or_else-Chosen context.departure_time snapshot.departure_time departure d;
                  travels = m;
                  validated = ground arith;
                }
              ]
            ]
      ]

  -- The buffer is at least each of those that the request asks for.
  abbrev pub Buffered : ℕ → List (Option ℕ) → Type 0
  Buffered buffer [] = Unit
  Buffered buffer (minutes ∷ more) =
      ((n : ℕ) → minutes ≡ some n → n * microseconds_per_minute ≤ buffer) × Buffered buffer more

  Buffered-le : (a b : ℕ) (more : List (Option ℕ)) → a ≤ b → Buffered a more → Buffered b more
  Buffered-le a b [] h t = tt
  Buffered-le a b (minutes ∷ more) h t =
      (λ n e. omega (arith, h, t.0 n e), Buffered-le a b more h t.1)

  pub safety_buffer-Buffered :
      (all : List (Option ℕ)) → Buffered (safety_buffer w all * microseconds_per_minute) all
  safety_buffer-Buffered [] = tt
  safety_buffer-Buffered (minutes ∷ more) = (
    λ n e. ground arith,
    Buffered-le (safety_buffer w more * microseconds_per_minute)
        (safety_buffer w (minutes ∷ more) * microseconds_per_minute) more (omega arith)
        (safety_buffer-Buffered more),
  )
