-- ===== src/RuntimeStore/Cache/Revisions.antt =====
-- The cache as a client sees it: what is at a key at a clock reading, and compare-and-set on it.
use ai_planed_map.Prelude.{
  beq_ne, ℕ, ◌+◌, ◌<◌, ◌≡◌, refl, ◌≢◌, String, Bool, true, false, ◌&&◌, Option, none, some, [], ◌∷◌,
  arith, ltb, leb, Bool-cases, Option-cases, inl, inr, ◌==◌, if◌then◌else◌, string_eq, ◌∙◌,
}
use ai_planed_map.Prelude.Int.{ℤ, minus_one, int_eq, int_beq}
use ai_planed_map.Prelude.Dict.{Dict, get, get-remove, IsDistinct}
use ai_planed_map.RuntimeStore.Cache.{
  Json, Cache, remove_value, purge_items, purge_expired_values, get_json, compare_set_json,
  revision_matches,
}
use ai_planed_map.RuntimeStore.Cache.Accounting.{replace_value-Stored}
use ai_planed_map.RuntimeStore.Cache.Values.{Within, purge-Within, cas-Within}

module _ {Value : Type 0} where
  abbrev live_entry : ℕ → Option (Value × ℕ) → Option (Value × ℕ)
  live_entry now none = none
  live_entry now (some (value, expires)) = if leb expires now then none else some (value, expires)

  abbrev pub value_of : Option (Value × ℕ) → Option Value
  value_of none = none
  value_of (some (value, expires)) = some value

  -- The value at a key for a reader at the clock reading `now`.
  abbrev pub view : ℕ → String → Cache Value → Option Value
  view now key c = value_of (live_entry now (get key c.values))

  -- A reader is given the view, and a read changes the view of no key.
  pub get_json-view :
      (key other : String) (now : ℕ) (c : Cache Value)
      → ((get_json key now c).0 ≡ view now key c)
        × (view now other (get_json key now c).1 ≡ view now other c)
  unfolding get_json remove_value
  get_json-view key other now c =
      (ground arith, ground (arith, get-remove key other c.values, string_eq.beq_iff key other))

  purge_items_absent :
      (now : ℕ) (key : String) (items : Dict String (Value × ℕ)) (c : Cache Value)
      → get key c.values ≡ none
      → get key (purge_items now items c).values ≡ none
  unfolding purge_items remove_value
  purge_items_absent now key [] c h = h
  purge_items_absent now key ((k, (v, x)) ∷ items) c h =
      purge_items_absent now key items (if leb x now then remove_value k c else c)
        (ground (arith, get-remove k key c.values))

  -- The purge keeps a key whose item is live, or that has none.
  purge_items_keep :
      (now : ℕ) (key : String) (items : Dict String (Value × ℕ)) (c : Cache Value)
      → IsDistinct items
      → ((v : Value) (x : ℕ) → get key items ≡ some (v, x) → leb x now ≡ false)
      → get key (purge_items now items c).values ≡ get key c.values
  unfolding purge_items remove_value
  purge_items_keep now key [] c u h = refl
  purge_items_keep now key ((k, (v, x)) ∷ items) c u h =
      purge_items_keep now key items (if leb x now then remove_value k c else c) u.1 (λ w y e.
        elim (Bool-cases (k == key)) [
          | inl same ↦ ground (arith, string_eq.beq_iff k key, u.0)
          | inr other ↦ h w y (rw other e)
        ])
      ∙ ground (arith, h v x, get-remove k key c.values)

  purge_items_gone :
      (now : ℕ) (key : String) (items : Dict String (Value × ℕ)) (c : Cache Value) (v : Value)
      (x : ℕ)
      → get key items ≡ some (v, x)
      → leb x now ≡ true
      → IsDistinct items
      → get key (purge_items now items c).values ≡ none
  unfolding purge_items remove_value
  purge_items_gone now key [] c v x e old u = cc
  purge_items_gone now key ((k, (w, y)) ∷ items) c v x e old u = elim (Bool-cases (k == key)) [
    | inl same ↦
        purge_items_absent now key items (if leb y now then remove_value k c else c)
          (ground (arith, get-remove k key c.values))
    | inr other ↦
        purge_items_gone now key items (if leb y now then remove_value k c else c) v x
          (ground arith) old u.1
  ]

  pub get-purge :
      (now : ℕ) (key : String) (c : Cache Value)
      → IsDistinct c.values
      → get key (purge_expired_values now c).values ≡ live_entry now (get key c.values)
  unfolding purge_expired_values
  get-purge now key c u = elim (Option-cases (get key c.values)) [
    | inl e ↦ rw (purge_items_absent now key c.values c e, e)
    | inr ((v, x), e) ↦ elim (Bool-cases (leb x now)) [
      | inl old ↦ rw (purge_items_gone now key c.values c v x e old u, e) (rw old)
      | inr live ↦ rw (purge_items_keep now key c.values c u (λ w y e'. ground arith), e) (rw live)
    ]
  ]

  pub view-purge :
      (now : ℕ) (key : String) (c : Cache Value)
      → IsDistinct c.values
      → view now key (purge_expired_values now c) ≡ view now key c
  view-purge now key c u = rw (get-purge now key c u) (again (get key c.values))
    where
      again :
          (o : Option (Value × ℕ))
          → value_of (live_entry now (live_entry now o)) ≡ value_of (live_entry now o)
      again none = refl
      again (some (value, expires)) = ground arith

module _ (j : Json) where
  open j use {Value, encoded_size, is_dict, revision}

  -- The revision that a writer must have seen: -1 where a reader finds nothing.
  abbrev pub expects : ℤ → Option Value → Bool
  expects r none = r == minus_one
  expects r (some value) = is_dict value && revision value == r

  matches-expects :
      (now : ℕ) (r : ℤ) (o : Option (Value × ℕ))
      → revision_matches j r (live_entry now o) ≡ expects r (value_of (live_entry now o))
  matches-expects now r none = refl
  matches-expects now r (some (value, expires)) = ground arith

  -- Compare-and-set succeeds exactly where the view of the key is what the writer expects and the
  -- value is not larger than the byte limit.
  pub compare_set_json_outcome :
      (key : String) (r : ℤ) (value : Value) (ttl now : ℕ) (c : Cache Value)
      → Within c.max_values c.max_bytes c
      → (compare_set_json j key r value ttl now c).0
        ≡ (expects r (view now key c) && leb (encoded_size value) c.max_bytes)
  unfolding compare_set_json
  compare_set_json_outcome key r value ttl now c h =
      rw (get-purge now key c h.accounted.distinct_values, matches-expects now r (get key c.values))
        (ground arith)

  -- After a successful compare-and-set a reader finds the value, until it expires.
  pub compare_set_json_stored :
      (key : String) (r : ℤ) (value : Value) (ttl now later : ℕ) (c : Cache Value)
      → Within c.max_values c.max_bytes c
      → 0 < c.max_values
      → (compare_set_json j key r value ttl now c).0 ≡ true
      → later < now + ttl
      → view later key (compare_set_json j key r value ttl now c).1 ≡ some value
  unfolding compare_set_json
  compare_set_json_stored key r value ttl now later c h positive done before =
      let c' = purge_expired_values now c in
      let p = purge-Within c.max_values c.max_bytes now c h in
      elim (Bool-cases (revision_matches j r (get key c'.values))) [
        | inr other ↦ absurd (ground arith)
        | inl same ↦ elim (Bool-cases (ltb c.max_bytes (encoded_size value))) [
          | inl big ↦ absurd (ground arith)
          | inr small ↦
              let s =
                replace_value-Stored j key value (now + ttl) c' p.accounted
                  (ground (arith, p.max_bytes)) (ground (arith, p.max_values)) in
              rw (same, small, s.entry_at_key) (ground arith)
        ]
      ]

  -- A compare-and-set that fails changes the view of no key.
  pub compare_set_json_refused :
      (key other : String) (r : ℤ) (value : Value) (ttl now : ℕ) (c : Cache Value)
      → Within c.max_values c.max_bytes c
      → (compare_set_json j key r value ttl now c).0 ≡ false
      → view now other (compare_set_json j key r value ttl now c).1 ≡ view now other c
  unfolding compare_set_json
  compare_set_json_refused key other r value ttl now c h refused =
      let c' = purge_expired_values now c in
      elim (Bool-cases (revision_matches j r (get key c'.values))) [
        | inr other_revision ↦
            rw other_revision (view-purge now other c h.accounted.distinct_values)
        | inl same ↦ elim (Bool-cases (ltb c.max_bytes (encoded_size value))) [
          | inl big ↦ rw (same, big) (view-purge now other c h.accounted.distinct_values)
          | inr small ↦ absurd (ground arith)
        ]
      ]

  -- Of two writers that saw the same revision only one succeeds: after a compare-and-set has stored
  -- a dictionary of another revision, a second one that expects the old revision fails, as long as
  -- the stored value has not expired.
  pub compare_set_json_exclusive :
      (key : String) (r : ℤ) (value rival : Value) (ttl rival_ttl now later : ℕ) (c : Cache Value)
      → Within c.max_values c.max_bytes c
      → 0 < c.max_values
      → (compare_set_json j key r value ttl now c).0 ≡ true
      → later < now + ttl
      → revision value ≢ r
      → (compare_set_json j key r rival rival_ttl later
          (compare_set_json j key r value ttl now c).1).0
        ≡ false
  compare_set_json_exclusive key r value rival ttl rival_ttl now later c h positive done before
        new =
      let c' = (compare_set_json j key r value ttl now c).1 in
      let w = cas-Within j c.max_values c.max_bytes positive key r value ttl now c h in
      let fresh : int_beq (revision value) r ≡ false = beq_ne (revision value) r new in
      rw
        (
          compare_set_json_outcome key r rival rival_ttl later c'
              (rw (w.max_values, w.max_bytes) w),
          compare_set_json_stored key r value ttl now later c h positive done before,
        )
        (ground arith)
