-- ===== src/Plan/Patch.antt =====
-- backend/app/services/plan_patch_validator.py: `apply_patch_structure`. A snapshot is a dictionary
-- from which the code reads the stops, the transport mode and the departure time.
pub mod Positions
pub mod Obligations
use ai_planed_map.Prelude.{
  ℕ, zero, suc, ◌+◌, String, Bool, true, false, ◌||◌, Option, none, some, List, [], ◌∷◌, leb,
  if◌then◌else◌, length, get_elem?, ◌==◌, string_eq,
}

-- A POI of a provider with its `id`, a task of the request, and what else a stop has: arrival,
-- travel, rank.
pub record Contents : Type 1 where
  pub Poi : Type 0
  pub poi_id : Poi → String
  pub Task : Type 0
  pub Details : Type 0
  pub Mode : Type 0
  pub Rest : Type 0

pub data PatchError : Type 0 where
  stop_not_found position_invalid replacement_invalid transport_mode_invalid : PatchError
  departure_time_invalid empty_plan : PatchError

-- What an operation answers, or the code of the `AppError` that it raises.
pub data Patched {ℓ} (A : Type ℓ) : Type ℓ where
  refused : (code : PatchError) → Patched A
  done : (answer : A) → Patched A

-- list.pop(position)
abbrev pub pop_at {ℓ} : {A : Type ℓ} → ℕ → List A → List A
pop_at position [] = []
pop_at zero (x ∷ xs) = xs
pop_at (suc position) (x ∷ xs) = x ∷ pop_at position xs

-- list.insert(position, item): at the end where the position is past it.
abbrev pub insert_at {ℓ} : {A : Type ℓ} → ℕ → A → List A → List A
insert_at zero item xs = item ∷ xs
insert_at (suc position) item [] = item ∷ []
insert_at (suc position) item (x ∷ xs) = x ∷ insert_at position item xs

-- list[position] = item
abbrev pub set_at {ℓ} : {A : Type ℓ} → ℕ → A → List A → List A
set_at position item [] = []
set_at zero item (x ∷ xs) = item ∷ xs
set_at (suc position) item (x ∷ xs) = x ∷ set_at position item xs

module _ (c : Contents) where
  open c use {Poi, poi_id, Task, Details, Mode, Rest}

  pub record Stop : Type 0 where
    pub poi : Poi
    pub task_index : Option ℕ
    pub task : Task
    pub details : Details

  -- A replacement dictionary: its `poi` and `task` may be missing or empty.
  pub record Replacement : Type 0 where
    pub poi : Option Poi
    pub task_index : Option ℕ
    pub task : Option Task
    pub details : Details

  -- The operations with the arguments that they read; positions are not negative, as the schema
  -- demands. `none` is an argument that is missing, or that the code cannot read: no dictionary, no
  -- transport mode, no date with a time zone. Of the replacement only `none` is tested. `other` is
  -- any operation that the chain of tests has no branch for.
  pub data Operation : Type 0 where
    remove_stop : (stop_id : Option String) → Operation
    move_stop : (from_position to_position : Option ℕ) → Operation
    replace_stop : (stop_id : Option String) (replacement_stop : Option Replacement) → Operation
    change_transport_mode : (transport_mode : Option Mode) → Operation
    change_departure_time : (departure_time : Option ℕ) → Operation
    other : Operation

  pub record Snapshot : Type 0 where
    pub stops : List Stop
    pub transport_mode : Option Mode
    pub departure_time : Option ℕ
    pub rest : Rest

  abbrev pub has_id : Option String → Stop → Bool
  has_id none stop = false
  has_id (some stop_id) stop = poi_id stop.poi == stop_id

  -- next((i for i, stop in enumerate(stops) if stop["poi"]["id"] == stop_id), None)
  abbrev pub position_of : Option String → List Stop → Option ℕ
  position_of stop_id [] = none
  position_of stop_id (stop ∷ stops) =
      let later = position_of stop_id stops in
      if has_id stop_id stop then some 0 else (elim later [ none ↦ none | some i ↦ some (suc i) ])

  unfoldable pub remove_at : Option ℕ → List Stop → Patched (List Stop)
  remove_at none stops = refused stop_not_found
  remove_at (some position) stops = done (pop_at position stops)

  unfoldable pub move : Option ℕ → Option ℕ → List Stop → Patched (List Stop)
  move none target stops = refused position_invalid
  move (some source) none stops = refused position_invalid
  move (some source) (some target) stops = elim (get_elem? stops source) [
    | none ↦ refused position_invalid
    | some moved ↦
        if leb (length stops) target
        then refused position_invalid
        else done (insert_at target moved (pop_at source stops))
  ]

  abbrev pub replacing : Poi → Replacement → Stop → Stop
  replacing poi replacement old = record {
    poi = poi;
    task_index = old.task_index;
    task = old.task;
    details = replacement.details;
  }

  unfoldable pub replace_at : Option ℕ → Option Replacement → List Stop → Patched (List Stop)
  replace_at none replacement stops = refused stop_not_found
  replace_at (some position) none stops = refused replacement_invalid
  replace_at (some position) (some replacement) stops = elim (replacement.poi) [
    | none ↦ refused replacement_invalid
    | some poi ↦ elim (replacement.task) [
      | none ↦ refused replacement_invalid
      | some task ↦ elim (get_elem? stops position) [
        | none ↦ refused stop_not_found
        | some old ↦ done (set_at position (replacing poi replacement old) stops)
      ]
    ]
  ]

  -- The body of the loop, on the snapshot that it changes and the stops so far.
  unfoldable pub apply_operation : Operation → Snapshot → List Stop → Patched (Snapshot × List Stop)
  apply_operation (remove_stop stop_id) snapshot stops =
      elim (remove_at (position_of stop_id stops) stops) [
        | refused e ↦ refused e
        | done left ↦ done (snapshot, left)
      ]
  apply_operation (move_stop source target) snapshot stops = elim (move source target stops) [
    | refused e ↦ refused e
    | done moved ↦ done (snapshot, moved)
  ]
  apply_operation (replace_stop stop_id replacement) snapshot stops =
      elim (replace_at (position_of stop_id stops) replacement stops) [
        | refused e ↦ refused e
        | done replaced ↦ done (snapshot, replaced)
      ]
  apply_operation (change_transport_mode none) snapshot stops = refused transport_mode_invalid
  apply_operation (change_transport_mode (some mode)) snapshot stops =
      done (record snapshot { transport_mode = some mode }, stops)
  apply_operation (change_departure_time none) snapshot stops = refused departure_time_invalid
  apply_operation (change_departure_time (some at)) snapshot stops =
      done (record snapshot { departure_time = some at }, stops)
  apply_operation other snapshot stops = done (snapshot, stops)

  unfoldable pub apply_operations :
      List Operation → Snapshot → List Stop → Patched (Snapshot × List Stop)
  apply_operations [] snapshot stops = done (snapshot, stops)
  apply_operations (operation ∷ operations) snapshot stops =
      elim (apply_operation operation snapshot stops) [
        | refused e ↦ refused e
        | done (changed, left) ↦ apply_operations operations changed left
      ]

  abbrev pub not_empty : Patched (Snapshot × List Stop) → Patched (Snapshot × List Stop)
  not_empty (refused e) = refused e
  not_empty (done (snapshot, [])) = refused empty_plan
  not_empty (done (snapshot, stop ∷ stops)) = done (snapshot, stop ∷ stops)

  -- The snapshot as the operations left it, and the stops that are returned.
  unfoldable pub apply_patch_structure : List Operation → Snapshot → Patched (Snapshot × List Stop)
  apply_patch_structure operations snapshot =
      not_empty (apply_operations operations snapshot snapshot.stops)
