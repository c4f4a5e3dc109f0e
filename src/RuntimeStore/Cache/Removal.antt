-- ===== src/RuntimeStore/Cache/Removal.antt =====
-- What removals keep: every loop of the cache only removes values.
use Prim.Native.Nat.{ℕ, zero, suc}
use ai_planed_map.Prelude.{
  String, [], ◌∷◌, leb, Bool-cases, Option-cases, inl, inr, length, ◌≡◌, none, some, refl, ◌<◌, ◌≤◌,
  arith, false, string_eq, ◌⊎◌,
}
use ai_planed_map.Prelude.Dict.{Dict, remove, length-remove-le}
use ai_planed_map.RuntimeStore.Cache.{
  Cache, remove_value, purge_items, purge_expired_values, make_room, oldest, is_full,
}

module _ {Value : Type 0} (P : Cache Value → Type 0)
    (keep : (key : String) (c : Cache Value) → P c → P (remove_value key c)) where
  -- A property that removals keep is kept by the purge and by the eviction.
  pub purge_items_induction :
      (now : ℕ) (items : Dict String (Value × ℕ)) (c : Cache Value)
      → P c
      → P (purge_items now items c)
  unfolding purge_items
  purge_items_induction now [] c h = h
  purge_items_induction now ((key, (value, expires)) ∷ items) c h =
      elim (Bool-cases (leb expires now)) [
        | inl old ↦ rw old (purge_items_induction now items (remove_value key c) (keep key c h))
        | inr live ↦ rw live (purge_items_induction now items c h)
      ]

  pub purge_induction : (now : ℕ) (c : Cache Value) → P c → P (purge_expired_values now c)
  unfolding purge_expired_values
  purge_induction now c h = purge_items_induction now c.values c h

  pub make_room_induction : (fuel size : ℕ) (c : Cache Value) → P c → P (make_room fuel size c)
  unfolding make_room
  make_room_induction zero size c h = h
  make_room_induction (suc fuel) size c h = elim (Option-cases (oldest c.values)) [
    | inl e ↦ rw (e, make_room) h
    | inr (key, e) ↦
        rw (e, make_room)
          (elim (Bool-cases (is_full size c)) [
            | inl full ↦ rw full (make_room_induction fuel size (remove_value key c) (keep key c h))
            | inr free ↦ rw free h
          ])
  ]

module _ {Value : Type 0} where
  oldest-length :
      (d : Dict String (Value × ℕ)) (key : String)
      → oldest d ≡ some key
      → length (remove key d) < length d
  oldest-length [] key h = cc
  oldest-length ((k, v) ∷ d) key h = ground (arith, string_eq.beq_iff k key, length-remove-le key d)

  oldest-none : (d : Dict String (Value × ℕ)) → oldest d ≡ none → d ≡ []
  oldest-none [] h = refl
  oldest-none ((k, v) ∷ d) h = cc

  -- With the number of values as fuel the loop ends by its test.
  pub make_room_ends :
      (fuel size : ℕ) (c : Cache Value)
      → length c.values ≤ fuel
      → (is_full size (make_room fuel size c) ≡ false) ⊎ ((make_room fuel size c).values ≡ [])
  unfolding make_room
  make_room_ends zero size c h = inr (no_length c.values h)
    where
      no_length : (d : Dict String (Value × ℕ)) → length d ≤ 0 → d ≡ []
      no_length [] h = refl
      no_length (x ∷ d) h = absurd (omega arith)
  make_room_ends (suc fuel) size c h = elim (Option-cases (oldest c.values)) [
    | inl e ↦ rw (e, make_room) (inr (oldest-none c.values e))
    | inr (key, e) ↦
        rw (e, make_room)
          (elim (Bool-cases (is_full size c)) [
            | inl full ↦ rw full (
                make_room_ends fuel size (remove_value key c)
                  (unfold remove_value in omega (arith, oldest-length c.values key e)))
            | inr free ↦ rw free (inl free)
          ])
  ]
