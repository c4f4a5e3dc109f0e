-- ===== src/Plan/Patch/Positions.antt =====
-- The tasks of a list of stops, when a stop is taken out, put in or replaced at a position.
use mathlib.Core.List.Perm
use mathlib.Core.List.{Perm}
use ai_planed_map.Prelude.{
  ℕ, zero, suc, ◌≡◌, refl, String, Option, some, List, [], ◌∷◌, arith, Bool-cases, Option-cases,
  inl, inr, get_elem?,
}
use ai_planed_map.Plan.Patch.{Contents, Stop, pop_at, insert_at, set_at, position_of, has_id}

module _ (c : Contents) where
  open c use {Task}

  -- The task that a stop fulfils, with its index in the request.
  abbrev pub obligation : Stop c → Option ℕ × Task
  obligation stop = (stop.task_index, stop.task)

  abbrev pub obligations : List (Stop c) → List (Option ℕ × Task)
  obligations [] = []
  obligations (stop ∷ stops) = obligation stop ∷ obligations stops

  pub pop_at-obligations :
      (position : ℕ) (stops : List (Stop c)) (stop : Stop c)
      → get_elem? stops position ≡ some stop
      → Perm (obligation stop ∷ obligations (pop_at position stops)) (obligations stops)
  pop_at-obligations zero [] stop e = cc
  pop_at-obligations (suc position) [] stop e = cc
  pop_at-obligations zero (x ∷ stops) stop e =
      let same : x ≡ stop = cc in rw same (Perm.refl (obligation stop ∷ obligations stops))
  pop_at-obligations (suc position) (x ∷ stops) stop e =
      Perm.trans (Perm.swap (obligation x) (obligation stop) (obligations (pop_at position stops)))
        (Perm.cons (obligation x) (pop_at-obligations position stops stop e))

  pub insert_at-obligations :
      (position : ℕ) (stop : Stop c) (stops : List (Stop c))
      → Perm (obligations (insert_at position stop stops)) (obligation stop ∷ obligations stops)
  insert_at-obligations zero stop stops = Perm.refl _
  insert_at-obligations (suc position) stop [] = Perm.refl _
  insert_at-obligations (suc position) stop (x ∷ stops) =
      Perm.trans (Perm.cons (obligation x) (insert_at-obligations position stop stops))
        (Perm.swap (obligation stop) (obligation x) (obligations stops))

  pub set_at-obligations :
      (position : ℕ) (stop old : Stop c) (stops : List (Stop c))
      → get_elem? stops position ≡ some old
      → obligation stop ≡ obligation old
      → obligations (set_at position stop stops) ≡ obligations stops
  set_at-obligations zero stop old [] e same = cc
  set_at-obligations (suc position) stop old [] e same = cc
  set_at-obligations zero stop old (x ∷ stops) e same = let at : x ≡ old = cc in rw (at, same) refl
  set_at-obligations (suc position) stop old (x ∷ stops) e same =
      rw (set_at-obligations position stop old stops e same) refl

  -- A position that was found is one of a stop.
  pub position_of-get_elem? :
      (stop_id : Option String) (stops : List (Stop c)) (position : ℕ)
      → position_of c stop_id stops ≡ some position
      → (stop : Stop c) × (get_elem? stops position ≡ some stop)
  position_of-get_elem? stop_id [] position e = cc
  position_of-get_elem? stop_id (stop ∷ stops) position e =
      elim (Bool-cases (has_id c stop_id stop)) [
        | inl found ↦ let first : position ≡ 0 = ground arith in (stop, rw first refl)
        | inr other ↦ elim (Option-cases (position_of c stop_id stops)) [
          | inl none_later ↦ absurd (ground arith)
          | inr (i, later) ↦
              let next : position ≡ suc i = ground arith in
              let (found, at) = position_of-get_elem? stop_id stops i later in (found, rw next at)
        ]
      ]
