-- ===== src/RuntimeStore/JsonStore.antt =====
-- backend/app/infrastructure/runtime_store.py: what `RuntimeStore` promises of its JSON values to the
-- code that is written against the protocol, and the in-memory store as one that keeps it.
use ai_planed_map.Prelude.{ℕ, ◌+◌, ◌<◌, ◌≡◌, String, Bool, true, false, Option, some, refl, arith}
use ai_planed_map.Prelude.Int.{ℤ}
use ai_planed_map.RuntimeStore.Cache.{Json, Cache, get_json, compare_set_json}
use ai_planed_map.RuntimeStore.Cache.Values.{Within, cas-Within, get_json-Within}
use ai_planed_map.RuntimeStore.Cache.Revisions.{
  view, expects, get_json-view, compare_set_json_outcome, compare_set_json_stored,
  compare_set_json_refused,
}

-- The operations on JSON values, and the laws that a client relies on. `peek` is what a reader would
-- find at a clock reading.
pub record JsonStore (j : Json) : Type 1 where
  pub State : Type 0
  pub peek : ℕ → String → State → Option j.Value
  pub get_json : String → ℕ → State → Option j.Value × State
  pub compare_set_json : String → ℤ → j.Value → ℕ → ℕ → State → Bool × State
  pub get-peek : (key : String) (now : ℕ) (s : State) → (get_json key now s).0 ≡ peek now key s
  pub peek-get :
      (key other : String) (now : ℕ) (s : State)
      → peek now other (get_json key now s).1 ≡ peek now other s
  pub cas_expects :
      (key : String) (r : ℤ) (v : j.Value) (ttl now : ℕ) (s : State)
      → (compare_set_json key r v ttl now s).0 ≡ true
      → expects j r (peek now key s) ≡ true
  pub cas_stored :
      (key : String) (r : ℤ) (v : j.Value) (ttl now later : ℕ) (s : State)
      → (compare_set_json key r v ttl now s).0 ≡ true
      → later < now + ttl
      → peek later key (compare_set_json key r v ttl now s).1 ≡ some v
  pub cas_refused :
      (key other : String) (r : ℤ) (v : j.Value) (ttl now : ℕ) (s : State)
      → (compare_set_json key r v ttl now s).0 ≡ false
      → peek now other (compare_set_json key r v ttl now s).1 ≡ peek now other s

-- An in-memory cache within the limits that its constructor was given.
pub record Sound (Value : Type 0) (values bytes : ℕ) : Type 0 where
  pub cache : Cache Value
  pub within : Within values bytes cache

own_limits :
    {Value : Type 0} {values bytes : ℕ} (c : Cache Value)
    → Within values bytes c
    → Within c.max_values c.max_bytes c
own_limits c h = record { accounted = h.accounted; max_values = refl; max_bytes = refl }

module _ (j : Json) (values bytes : ℕ) (positive : 0 < values) where
  unfoldable pub sound_get :
      String → ℕ → Sound j.Value values bytes → Option j.Value × Sound j.Value values bytes
  sound_get key now s = (
    (get_json key now s.cache).0,
    record {
      cache = (get_json key now s.cache).1;
      within = get_json-Within j values bytes positive key now s.cache s.within;
    },
  )

  unfoldable pub sound_cas :
      String → ℤ → j.Value → ℕ → ℕ → Sound j.Value values bytes → Bool × Sound j.Value values bytes
  sound_cas key r v ttl now s = (
    (compare_set_json j key r v ttl now s.cache).0,
    record {
      cache = (compare_set_json j key r v ttl now s.cache).1;
      within = cas-Within j values bytes positive key r v ttl now s.cache s.within;
    },
  )

  unfoldable pub sound_peek : ℕ → String → Sound j.Value values bytes → Option j.Value
  sound_peek now key s = view now key s.cache

  room : (s : Sound j.Value values bytes) → 0 < s.cache.max_values
  room s = rw s.within.max_values positive

  pub sound_get-peek :
      (key : String) (now : ℕ) (s : Sound j.Value values bytes)
      → (sound_get key now s).0 ≡ sound_peek now key s
  unfolding sound_get sound_peek
  sound_get-peek key now s = (get_json-view key key now s.cache).0

  pub sound_peek-get :
      (key other : String) (now : ℕ) (s : Sound j.Value values bytes)
      → sound_peek now other (sound_get key now s).1 ≡ sound_peek now other s
  unfolding sound_get sound_peek
  sound_peek-get key other now s = (get_json-view key other now s.cache).1

  pub sound_cas-expects :
      (key : String) (r : ℤ) (v : j.Value) (ttl now : ℕ) (s : Sound j.Value values bytes)
      → (sound_cas key r v ttl now s).0 ≡ true
      → expects j r (sound_peek now key s) ≡ true
  unfolding sound_cas sound_peek
  sound_cas-expects key r v ttl now s done =
      ground
        (arith, compare_set_json_outcome j key r v ttl now s.cache (own_limits s.cache s.within))

  pub sound_cas_stored :
      (key : String) (r : ℤ) (v : j.Value) (ttl now later : ℕ) (s : Sound j.Value values bytes)
      → (sound_cas key r v ttl now s).0 ≡ true
      → later < now + ttl
      → sound_peek later key (sound_cas key r v ttl now s).1 ≡ some v
  unfolding sound_cas sound_peek
  sound_cas_stored key r v ttl now later s =
      compare_set_json_stored j key r v ttl now later s.cache (own_limits s.cache s.within) (room s)

  pub sound_cas_refused :
      (key other : String) (r : ℤ) (v : j.Value) (ttl now : ℕ) (s : Sound j.Value values bytes)
      → (sound_cas key r v ttl now s).0 ≡ false
      → sound_peek now other (sound_cas key r v ttl now s).1 ≡ sound_peek now other s
  unfolding sound_cas sound_peek
  sound_cas_refused key other r v ttl now s =
      compare_set_json_refused j key other r v ttl now s.cache (own_limits s.cache s.within)

  -- The in-memory store, as a client of the protocol uses it.
  abbrev pub in_memory : JsonStore j
  in_memory = record {
    State = Sound j.Value values bytes;
    peek = sound_peek;
    get_json = sound_get;
    compare_set_json = sound_cas;
    get-peek = sound_get-peek;
    peek-get = sound_peek-get;
    cas_expects = sound_cas-expects;
    cas_stored = sound_cas_stored;
    cas_refused = sound_cas_refused;
  }
