-- ===== src/Route/Orders.antt =====
-- backend/app/services/route_optimizer.py: the orders that `evaluate_joint_order` compares.
use ai_planed_map.Prelude.{
  ℕ, ◌+◌, Bool, true, ◌&&◌, ◌||◌, Option, some, List, [], ◌∷◌, ltb, leb, if◌then◌else◌, is_some,
  elem, ◌==◌, nat_eq,
}
use ai_planed_map.Prelude.Dict.{Dict, get, put}

-- {item: index for index, item in enumerate(items, start)}
abbrev pub positions : ℕ → List ℕ → Dict ℕ ℕ → Dict ℕ ℕ
positions index [] found = found
positions index (item ∷ items) found = positions (index + 1) items (put item index found)

abbrev pub keep_those {ℓ} : {A : Type ℓ} → (A → Bool) → List A → List A
keep_those test [] = []
keep_those test (x ∷ xs) = let rest = keep_those test xs in if test x then x ∷ rest else rest

-- items.index(item), of an item that is in the list
abbrev pub index_of : ℕ → List ℕ → ℕ
index_of item [] = 0
index_of item (x ∷ xs) = let later = index_of item xs + 1 in if x == item then 0 else later

-- Whether sorting by `key` leaves the list as it is.
abbrev pub is_sorted_by : (ℕ → ℕ) → List ℕ → Bool
is_sorted_by key [] = true
is_sorted_by key (x ∷ []) = true
is_sorted_by key (x ∷ y ∷ ys) = leb (key x) (key y) && is_sorted_by key (y ∷ ys)

-- `_relative_order_satisfied`
unfoldable pub relative_order_satisfied : List ℕ → List ℕ → Bool
relative_order_satisfied order required =
    is_sorted_by (λ item. index_of item order) (keep_those (λ item. elem item order) required)

-- Of the places in two orders, each by its dictionary: whether they disagree.
abbrev pub opposite : Option ℕ → Option ℕ → Option ℕ → Option ℕ → ℕ
opposite (some a) (some b) (some c) (some d) =
    if (ltb a b && ltb d c) || (ltb b a && ltb c d) then 1 else 0
opposite _ _ _ _ = 0

abbrev pub disagreements_with : Dict ℕ ℕ → Dict ℕ ℕ → ℕ → List ℕ → ℕ
disagreements_with position previous left [] = 0
disagreements_with position previous left (right ∷ rest) =
    opposite (get left position) (get right position) (get left previous) (get right previous)
    + disagreements_with position previous left rest

abbrev pub disagreements_of : Dict ℕ ℕ → Dict ℕ ℕ → List ℕ → ℕ
disagreements_of position previous [] = 0
disagreements_of position previous (left ∷ rest) =
    disagreements_with position previous left rest + disagreements_of position previous rest

unfoldable pub disagreements : List ℕ → List ℕ → ℕ
disagreements order previous_order =
    let previous = positions 0 previous_order [] in
    disagreements_of (positions 0 order []) previous
      (keep_those (λ task_index. is_some (get task_index previous)) order)
