-- ===== src/RuntimeStore/Counters.antt =====
-- backend/app/infrastructure/runtime_store.py: the counters of `InMemoryRuntimeStore`, which the
-- rate limits use. A clock reading, in whole seconds, is an argument.
pub mod Limits
use ai_planed_map.Prelude.{
  ℕ, ◌+◌, ◌-◌, ◌%◌, ◌^◌, String, Bool, true, false, not, ◌&&◌, ◌||◌, Option, none, some, List, [],
  ◌∷◌, leb, if◌then◌else◌, is_some, length, ◌==◌, string_eq, nat_eq,
}
use ai_planed_map.Prelude.Dict.{Dict, get, put, remove}

-- `_counters`, `_counter_operations` and the limit. A counter is its value and its expiry.
pub record Counters : Type 0 where
  pub counters : Dict String (ℕ × ℕ)
  pub operations : ℕ
  pub max_counters : ℕ

-- The loop over `list(self._counters.items())`.
unfoldable pub purge_counters : ℕ → Dict String (ℕ × ℕ) → Dict String (ℕ × ℕ) → Dict String (ℕ × ℕ)
purge_counters now [] d = d
purge_counters now ((key, (value, expires)) ∷ items) d =
    purge_counters now items (if leb expires now then remove key d else d)

unfoldable pub purge_expired_counters : ℕ → Counters → Counters
purge_expired_counters now s = record s { counters = purge_counters now s.counters s.counters }

abbrev pub flooded : ℕ
flooded = 2 ^ 63 - 1

-- `self._counters.get(key, (0, 0.0))`, with the window started again where it is over.
abbrev pub window : ℕ → ℕ → Option (ℕ × ℕ) → ℕ × ℕ
window ttl now none = (0, now + ttl)
window ttl now (some (value, expires)) =
    if leb expires now then (0, now + ttl) else (value, expires)

-- The body once the purge is done.
unfoldable pub add_to_counter : String → ℕ → ℕ → ℕ → Counters → ℕ × Counters
add_to_counter key ttl amount now s =
    let (value, expires) = window ttl now (get key s.counters) in
    if not (is_some (get key s.counters)) && leb s.max_counters (length s.counters)
    then (flooded, s)
    else (value + amount, record s { counters = put key (value + amount, expires) s.counters })

unfoldable pub increment : String → ℕ → ℕ → ℕ → Counters → ℕ × Counters
increment key ttl amount now s =
    let counted = record s { operations = s.operations + 1 } in
    add_to_counter key ttl amount now (
      if counted.operations % 256 == 0 || leb s.max_counters (length s.counters)
      then purge_expired_counters now counted
      else counted)
