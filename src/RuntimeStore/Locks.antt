-- ===== src/RuntimeStore/Locks.antt =====
-- backend/app/infrastructure/runtime_store.py: the locks of `InMemoryRuntimeStore`, with their
-- fencing tokens, and `lock_fencing_token`. A clock reading, in whole seconds, is an argument.
pub mod Fencing
pub mod Holders
use ai_planed_map.Prelude.{
  ℕ, ◌+◌, String, Bool, true, false, not, ◌&&◌, ◌||◌, Option, none, some, List, [], ◌∷◌, ◌++◌, ltb,
  leb, if◌then◌else◌, length, ◌==◌, string_eq, list_eq, nat_eq,
}
use ai_planed_map.Prelude.Dict.{Dict, get, put, remove}
use ai_planed_map.Prelude.Decimal.{Text, str, is_digit, int, partition_colon}

-- `_locks` and `_lock_fences`. A lock is its token and the clock reading at which it expires. The
-- second is a `defaultdict(int)`: a name with no entry has fence 0.
pub record Locks : Type 0 where
  pub locks : Dict String (Text × ℕ)
  pub fences : String → ℕ

abbrev pub is_nil : Text → Bool
is_nil [] = true
is_nil (c ∷ cs) = false

-- `none` is the ValueError.
unfoldable pub lock_fencing_token : Text → Option ℕ
lock_fencing_token token =
    let (prefix, separator, owner) = partition_colon token in
    if not separator || is_nil owner || not (is_digit prefix) || ltb (int prefix) 1
    then none
    else some (int prefix)

-- f"{fence}:{owner}"
unfoldable pub fenced : ℕ → Text → Text
fenced fence owner = str fence ++ b':' ∷ owner

-- `current and current[1] > now`
abbrev pub is_held : ℕ → Option (Text × ℕ) → Bool
is_held now none = false
is_held now (some (token, expires)) = ltb now expires

-- `owner` is the caller's token or, where that is None or empty, the `uuid4` text.
unfoldable pub acquire_lock : String → ℕ → Text → ℕ → Locks → Option Text × Locks
acquire_lock name ttl owner now s =
    let fence = s.fences name + 1 in
    let token = fenced fence owner in
    if is_held now (get name s.locks) then (none, s) else (
      some token,
      record {
        locks = put name (token, now + ttl) s.locks;
        fences = λ other. if name == other then fence else s.fences other;
      },
    )

abbrev pub has_token : Text → Option (Text × ℕ) → Bool
has_token token none = false
has_token token (some (current, expires)) = current == token

unfoldable pub release_lock : String → Text → Locks → Bool × Locks
release_lock name token s =
    if has_token token (get name s.locks)
    then (true, record s { locks = remove name s.locks })
    else (false, s)

unfoldable pub renew_lock : String → Text → ℕ → ℕ → Locks → Bool × Locks
renew_lock name token ttl now s =
    if has_token token (get name s.locks) && is_held now (get name s.locks)
    then (true, record s { locks = put name (token, now + ttl) s.locks })
    else (false, s)

unfoldable pub is_lock_owner : String → Text → ℕ → Locks → Bool
is_lock_owner name token now s =
    has_token token (get name s.locks) && is_held now (get name s.locks)
