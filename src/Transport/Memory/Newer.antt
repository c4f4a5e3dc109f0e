-- ===== src/Transport/Memory/Newer.antt =====
-- backend/app/services/agent_transport.py: the keys that `publish` stores, the newest last.
use ai_planed_map.Prelude.{
  ℕ, ◌+◌, ◌≤◌, ◌<◌, ◌≡◌, refl, String, none, some, [], ◌∷◌, if◌then◌else◌, arith, beq_refl, ◌==◌,
  string_eq, length,
}
use ai_planed_map.Prelude.Dict.{Dict, get, put}
use ai_planed_map.Transport.Memory.{unexpired, make_room}

-- How many keys were stored after this one.
abbrev pub newer : String → Dict String ℕ → ℕ
newer key [] = 0
newer key ((other, expiry) ∷ d) = let rest = newer key d in if other == key then length d else rest

pub length-unexpired-le : (now : ℕ) (d : Dict String ℕ) → length (unexpired now d) ≤ length d
length-unexpired-le now [] = omega arith
length-unexpired-le now ((key, expiry) ∷ d) = ground (arith, length-unexpired-le now d)

pub newer-unexpired :
    (now expiry : ℕ) (key : String) (d : Dict String ℕ)
    → get key d ≡ some expiry
    → now < expiry
    → (get key (unexpired now d) ≡ some expiry) × (newer key (unexpired now d) ≤ newer key d)
newer-unexpired now expiry key [] e live = cc
newer-unexpired now expiry key ((other, time) ∷ d) e live =
    ground (arith, length-unexpired-le now d, newer-unexpired now expiry key d)

pub newer-make_room :
    (limit expiry : ℕ) (key : String) (d : Dict String ℕ)
    → get key d ≡ some expiry
    → newer key d + 1 < limit
    → (get key (make_room limit d) ≡ some expiry) × (newer key (make_room limit d) ≡ newer key d)
newer-make_room limit expiry key [] e few = cc
newer-make_room limit expiry key ((other, time) ∷ d) e few =
    ground (arith, newer-make_room limit expiry key d)

pub length-put-le :
    (key : String) (expiry : ℕ) (d : Dict String ℕ) → length (put key expiry d) ≤ length d + 1
length-put-le key expiry [] = omega arith
length-put-le key expiry ((other, time) ∷ d) = ground (arith, length-put-le key expiry d)

pub newer-put :
    (key other : String) (expiry : ℕ) (d : Dict String ℕ)
    → newer key (put other expiry d) ≤ newer key d + 1
newer-put key other expiry [] = ground arith
newer-put key other expiry ((i, time) ∷ d) =
    ground (arith, length-put-le other expiry d, newer-put key other expiry d)

pub newer-put_absent :
    (key : String) (expiry : ℕ) (d : Dict String ℕ)
    → get key d ≡ none
    → newer key (put key expiry d) ≡ 0
newer-put_absent key expiry [] e = ground (arith, beq_refl key)
newer-put_absent key expiry ((i, time) ∷ d) e = ground (arith, newer-put_absent key expiry d)

pub get-make_room :
    (limit : ℕ) (key : String) (d : Dict String ℕ)
    → get key d ≡ none
    → get key (make_room limit d) ≡ none
get-make_room limit key [] e = refl
get-make_room limit key ((i, time) ∷ d) e = ground (arith, get-make_room limit key d)
