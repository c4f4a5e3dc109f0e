-- ===== src/RuntimeStore/Cache/Values.antt =====
-- What the operations on JSON values promise: limits, expiry, and compare-and-set.
use Prim.Native.String.{◌++◌ as str_append}
use ai_planed_map.RuntimeStore.Cache.{
  Json, Cache, remove_value, purge_expired_values, get_json, set_json, delete_json,
  compare_set_json, publish_latest, revision_matches,
}
use ai_planed_map.RuntimeStore.Cache.Accounting.{
  Accounted, Stored, remove_value-Accounted, publish_latest-Accounted, replace_value-Stored,
}
use ai_planed_map.RuntimeStore.Cache.Removal.{purge_induction}
use ai_planed_map.Prelude.{
  ℕ, ◌+◌, ◌≤◌, ◌<◌, ◌≡◌, String, false, none, some, List, [], ◌∷◌, arith, ltb, leb, Bool-cases,
  Option-cases, inl, inr, length, string_eq, ◌∙◌,
}
use ai_planed_map.Prelude.Int.{ℤ}
use ai_planed_map.Prelude.Dict.{get, length-put_absent}

-- A cache within the limits that the constructor was given, both positive.
pub record Within {Value : Type 0} (values bytes : ℕ) (c : Cache Value) : Type 0 where
  pub accounted : Accounted c
  pub max_values : c.max_values ≡ values
  pub max_bytes : c.max_bytes ≡ bytes

pub data Op (Value : Type 0) : Type 0 where
  get_op : (key : String) (now : ℕ) → Op Value
  set_op : (key : String) (value : Value) (ttl now later : ℕ) → Op Value
  delete_op : (key : String) → Op Value
  cas_op : (key : String) (expected : ℤ) (value : Value) (ttl now : ℕ) → Op Value
  publish_op : (channel : String) (value : Value) (now : ℕ) → Op Value

module _ {Value : Type 0} (values bytes : ℕ) where
  remove_value-Within :
      (key : String) (c : Cache Value)
      → Within values bytes c
      → Within values bytes (remove_value key c)
  remove_value-Within key c h = record {
    accounted = remove_value-Accounted key c h.accounted;
    max_values = unfold remove_value in h.max_values;
    max_bytes = unfold remove_value in h.max_bytes;
  }

  pub purge-Within :
      (now : ℕ) (c : Cache Value)
      → Within values bytes c
      → Within values bytes (purge_expired_values now c)
  purge-Within = purge_induction (Within values bytes) remove_value-Within

  Stored-Within :
      (c₀ c : Cache Value) (key : String) (entry : Value × ℕ)
      → Within values bytes c₀
      → Stored c₀ key entry c
      → Within values bytes c
  Stored-Within c₀ c key entry h s = record {
    accounted = s.accounted;
    max_values = s.same_max_values ∙ h.max_values;
    max_bytes = s.same_max_bytes ∙ h.max_bytes;
  }

module _ (j : Json) (values bytes : ℕ) (positive : 0 < values) where
  open j use {Value, encoded_size}

  pub step : Op Value → Cache Value → Cache Value
  step (get_op key now) c = (get_json key now c).1
  step (set_op key value ttl now later) c = set_json j key value ttl now later c
  step (delete_op key) c = (delete_json key c).1
  step (cas_op key expected value ttl now) c = (compare_set_json j key expected value ttl now c).1
  step (publish_op channel value now) c = publish_latest channel value now c

  set_json-Within :
      (key : String) (value : Value) (ttl now later : ℕ) (c : Cache Value)
      → Within values bytes c
      → Within values bytes (set_json j key value ttl now later c)
  unfolding set_json
  set_json-Within key value ttl now later c h =
      let p = purge-Within values bytes now c h in
      elim (Bool-cases (ltb c.max_bytes (encoded_size value))) [
        | inl big ↦ rw big (remove_value-Within values bytes key _ p)
        | inr small ↦ rw small (
            Stored-Within values bytes (purge_expired_values now c) _ key (value, later + ttl) p
              (replace_value-Stored j key value (later + ttl) (purge_expired_values now c)
                p.accounted (ground (arith, h.max_bytes, p.max_bytes))
                (ground (arith, p.max_values))))
      ]

  pub cas-Within :
      (key : String) (expected : ℤ) (value : Value) (ttl now : ℕ) (c : Cache Value)
      → Within values bytes c
      → Within values bytes (compare_set_json j key expected value ttl now c).1
  unfolding compare_set_json
  cas-Within key expected value ttl now c h =
      let c' = purge_expired_values now c in
      let p = purge-Within values bytes now c h in
      elim (Bool-cases (revision_matches j expected (get key c'.values))) [
        | inl same ↦ rw same (elim (Bool-cases (ltb c.max_bytes (encoded_size value))) [
          | inl big ↦ rw big p
          | inr small ↦ rw small (
              Stored-Within values bytes c' _ key (value, now + ttl) p
                (replace_value-Stored j key value (now + ttl) c' p.accounted
                  (ground (arith, h.max_bytes, p.max_bytes)) (ground (arith, p.max_values))))
        ])
        | inr other ↦ rw other p
      ]

  pub get_json-Within :
      (key : String) (now : ℕ) (c : Cache Value)
      → Within values bytes c
      → Within values bytes (get_json key now c).1
  unfolding get_json
  get_json-Within key now c h = elim (Option-cases (get key c.values)) [
    | inl e ↦ rw (e, get_json) (remove_value-Within values bytes key c h)
    | inr ((value, expires), e) ↦
        rw (e, get_json)
          (elim (Bool-cases (leb expires now)) [
            | inl old ↦ rw old (remove_value-Within values bytes key c h)
            | inr live ↦ rw live h
          ])
  ]

  step-Within :
      (op : Op Value) (c : Cache Value) → Within values bytes c → Within values bytes (step op c)
  unfolding step
  step-Within (get_op key now) c h = get_json-Within key now c h
  step-Within (set_op key value ttl now later) c h = set_json-Within key value ttl now later c h
  step-Within (delete_op key) c h = unfold delete_json in remove_value-Within values bytes key c h
  step-Within (cas_op key expected value ttl now) c h = cas-Within key expected value ttl now c h
  step-Within (publish_op channel value now) c h = record {
    accounted = publish_latest-Accounted channel value now c h.accounted;
    max_values = unfold publish_latest in h.max_values;
    max_bytes = unfold publish_latest in h.max_bytes;
  }

  pub run : List (Op Value) → Cache Value → Cache Value
  run [] c = c
  run (op ∷ ops) c = run ops (step op c)

  -- Whatever operations are performed, `_value_bytes` stays the sum of `_value_sizes`, no key has a
  -- size without a value, keys stay distinct, and the bytes stay within the configured limit.
  pub run-Within :
      (ops : List (Op Value)) (c : Cache Value)
      → Within values bytes c
      → Within values bytes (run ops c)
  unfolding run
  run-Within [] c h = h
  run-Within (op ∷ ops) c h = run-Within ops (step op c) (step-Within op c h)

module _ (j : Json) where
  open j use {Value, encoded_size}

  -- In a cache with sound accounting, a value that is not larger than the byte limit is in the cache
  -- after `set_json`, with its new expiry, and the number of values and the bytes are within the
  -- limits, whatever was evicted for it.
  pub set_json_stored :
      (key : String) (value : Value) (ttl now later : ℕ) (c : Cache Value)
      → Within c.max_values c.max_bytes c
      → 0 < c.max_values
      → encoded_size value ≤ c.max_bytes
      → let c' = set_json j key value ttl now later c in
        (get key c'.values ≡ some (value, later + ttl))
        × (length c'.values ≤ c.max_values)
        × (c'.bytes ≤ c.max_bytes)
  unfolding set_json
  set_json_stored key value ttl now later c h positive fits =
      let p = purge-Within c.max_values c.max_bytes now c h in
      let c' = purge_expired_values now c in
      let small : ltb c.max_bytes (encoded_size value) ≡ false = ground arith in
      let s =
        replace_value-Stored j key value (later + ttl) c' p.accounted (ground (arith, p.max_bytes))
          (ground (arith, p.max_values)) in
      rw small (
        s.entry_at_key,
        omega (arith, s.capacity, p.max_values),
        omega (arith, s.accounted.bounded, s.same_max_bytes, p.max_bytes),
      )

  -- A full cache has more values than its limit after a publication on a channel that has no entry.
  pub publish_latest_overflow :
      (channel : String) (value : Value) (now : ℕ) (c : Cache Value)
      → length c.values ≡ c.max_values
      → get (str_append "pub:" (str_append channel ":latest")) c.values ≡ none
      → let c' = publish_latest channel value now c in c'.max_values < length c'.values
  unfolding publish_latest
  publish_latest_overflow channel value now c full absent =
      omega (arith, full, length-put_absent _ (value, now + 86_400) c.values absent)
