-- ===== src/RuntimeStore/Cache.antt =====
-- backend/app/infrastructure/runtime_store.py: the JSON values of `InMemoryRuntimeStore`, bounded in
-- number and in bytes. A clock reading, in whole seconds, is an argument of the operation that
-- reads the clock.
pub mod Removal
pub mod Accounting
pub mod Values
pub mod Revisions
use Prim.Native.String.{◌++◌ as str_append}
use ai_planed_map.Prelude.{
  ℕ, zero, suc, ◌+◌, ◌-◌, String, Bool, true, false, not, ◌&&◌, ◌||◌, Option, none, some, List, [],
  ◌∷◌, ltb, leb, if◌then◌else◌, is_some, length, ◌==◌, string_eq,
}
use ai_planed_map.Prelude.Dict.{Dict, get, put, remove, get_or_zero}
use ai_planed_map.Prelude.Int.{ℤ, minus_one, int_eq}

-- JSON values as the store sees them: the `json` module gives the length of the encoded text, and
-- `revision` is `int(value.get("revision", -1))` of a dictionary.
pub record Json : Type 1 where
  pub Value : Type 0
  pub encoded_size : Value → ℕ
  pub is_dict : Value → Bool
  pub revision : Value → ℤ

-- `_values`, `_value_sizes`, `_value_bytes` and their two limits. An entry of `values` is the
-- value and the clock reading at which it expires.
pub record Cache (Value : Type 0) : Type 0 where
  pub values : Dict String (Value × ℕ)
  pub sizes : Dict String ℕ
  pub bytes : ℕ
  pub max_values : ℕ
  pub max_bytes : ℕ

module _ {Value : Type 0} where
  -- The subtraction is exact where `bytes` is the sum of the sizes, as every operation keeps it.
  unfoldable pub remove_value : String → Cache Value → Cache Value
  remove_value key c = record c {
    values = remove key c.values;
    sizes = remove key c.sizes;
    bytes = c.bytes - get_or_zero key c.sizes;
  }

  -- The loop over `list(self._values.items())`, a copy made before the first removal.
  unfoldable pub purge_items : ℕ → Dict String (Value × ℕ) → Cache Value → Cache Value
  purge_items now [] c = c
  purge_items now ((key, (value, expires)) ∷ items) c =
      purge_items now items (if leb expires now then remove_value key c else c)

  unfoldable pub purge_expired_values : ℕ → Cache Value → Cache Value
  purge_expired_values now c = purge_items now c.values c

  -- next(iter(self._values))
  abbrev pub oldest : Dict String (Value × ℕ) → Option String
  oldest [] = none
  oldest ((key, entry) ∷ items) = some key

  unfoldable pub is_full : ℕ → Cache Value → Bool
  is_full size c = leb c.max_values (length c.values) || ltb c.max_bytes (c.bytes + size)

  -- The `while self._values and (…)` loop. A round removes a key, so the number of values is
  -- fuel enough.
  unfoldable pub make_room : ℕ → ℕ → Cache Value → Cache Value
  make_room zero size c = c
  make_room (suc fuel) size c = elim (oldest c.values) [
    | none ↦ c
    | some key ↦
        let rest = make_room fuel size (remove_value key c) in if is_full size c then rest else c
  ]

  unfoldable pub insert_value : String → Value → ℕ → ℕ → Cache Value → Cache Value
  insert_value key value size expires c = record c {
    values = put key (value, expires) c.values;
    sizes = put key size c.sizes;
    bytes = c.bytes + size;
  }

  unfoldable pub get_json : String → ℕ → Cache Value → Option Value × Cache Value
  get_json key now c = elim (get key c.values) [
    | none ↦ (none, remove_value key c)
    | some (value, expires) ↦
        if leb expires now then (none, remove_value key c) else (some value, c)
  ]

  unfoldable pub delete_json : String → Cache Value → Bool × Cache Value
  delete_json key c = (is_some (get key c.values), remove_value key c)

  -- The `_values` part of `publish`; 86 400 seconds are a day.
  unfoldable pub publish_latest : String → Value → ℕ → Cache Value → Cache Value
  publish_latest channel value now c = record c {
    values = put (str_append "pub:" (str_append channel ":latest")) (value, now + 86_400) c.values;
  }

module _ (j : Json) where
  open j use {Value, encoded_size, is_dict, revision}

  -- What `set_json` and `compare_set_json` do once the size is known to be allowed.
  unfoldable pub replace_value : String → Value → ℕ → Cache Value → Cache Value
  replace_value key value expires c =
      let freed = remove_value key c in
      let roomy = make_room (length freed.values) (encoded_size value) freed in
      insert_value key value (encoded_size value) expires roomy

  -- `now` is the reading at the start and `later` that at the store.
  unfoldable pub set_json : String → Value → ℕ → ℕ → ℕ → Cache Value → Cache Value
  set_json key value ttl now later c =
      let purged = purge_expired_values now c in
      if ltb c.max_bytes (encoded_size value)
      then remove_value key purged
      else replace_value key value (later + ttl) purged

  abbrev pub revision_matches : ℤ → Option (Value × ℕ) → Bool
  revision_matches expected none = expected == minus_one
  revision_matches expected (some (value, expires)) = is_dict value && revision value == expected

  unfoldable pub compare_set_json : String → ℤ → Value → ℕ → ℕ → Cache Value → Bool × Cache Value
  compare_set_json key expected value ttl now c =
      let purged = purge_expired_values now c in
      if revision_matches expected (get key purged.values)
      then if ltb c.max_bytes (encoded_size value)
        then (false, purged)
        else (true, replace_value key value (now + ttl) purged)
      else (false, purged)
