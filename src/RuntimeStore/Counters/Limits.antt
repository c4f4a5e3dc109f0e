-- ===== src/RuntimeStore/Counters/Limits.antt =====
-- What a rate limit relies on: counts are exact within a window, one key cannot disturb another,
-- and a flood of keys is refused.
use ai_planed_map.Prelude.{
  ℕ, ◌+◌, ◌≤◌, ◌<◌, ◌≡◌, refl, ◌∙◌, String, true, false, none, some, List, [], ◌∷◌, arith, leb,
  if◌then◌else◌, Bool-cases, Option-cases, inl, inr, length, ◌==◌, string_eq, nat_eq, ◌%◌, ◌||◌,
  ◌^◌, ◌-◌,
}
use ai_planed_map.Prelude.Dict.{
  Dict, get, remove, get-put, get-remove, IsDistinct, put-IsDistinct, remove-IsDistinct,
  length-put_absent, length-put_present, length-remove-le,
}
use ai_planed_map.RuntimeStore.Counters.{
  Counters, purge_counters, purge_expired_counters, window, add_to_counter, increment,
}

purge_keeps :
    (now : ℕ) (key : String) (items d : Dict String (ℕ × ℕ))
    → IsDistinct items
    → ((v x : ℕ) → get key items ≡ some (v, x) → leb x now ≡ false)
    → get key (purge_counters now items d) ≡ get key d
unfolding purge_counters
purge_keeps now key [] d u h = refl
purge_keeps now key ((k, (v, x)) ∷ items) d u h =
    purge_keeps now key items (if leb x now then remove k d else d) u.1 (λ w y e.
      elim (Bool-cases (k == key)) [
        | inl same ↦ ground (arith, string_eq.beq_iff k key, u.0)
        | inr other ↦ h w y (rw other e)
      ])
    ∙ ground (arith, h v x, get-remove k key d)

purge-IsDistinct :
    (now : ℕ) (items d : Dict String (ℕ × ℕ))
    → IsDistinct d
    → IsDistinct (purge_counters now items d)
unfolding purge_counters
purge-IsDistinct now [] d u = u
purge-IsDistinct now ((k, (v, x)) ∷ items) d u =
    purge-IsDistinct now items (if leb x now then remove k d else d)
      (ground (arith, remove-IsDistinct k d u))

purge_shorter :
    (now : ℕ) (items d : Dict String (ℕ × ℕ)) → length (purge_counters now items d) ≤ length d
unfolding purge_counters
purge_shorter now [] d = omega arith
purge_shorter now ((k, (v, x)) ∷ items) d =
    ground
      (arith, purge_shorter now items (if leb x now then remove k d else d), length-remove-le k d)

-- The counters have distinct keys and are no more than the limit.
pub record Bounded (s : Counters) : Type 0 where
  pub distinct : IsDistinct s.counters
  pub capacity : length s.counters ≤ s.max_counters

-- The state that `increment` adds to, after the purge that it may make.
prepared : ℕ → Counters → Counters
prepared now s =
    let counted = record s { operations = s.operations + 1 } in
    if counted.operations % 256 == 0 || leb s.max_counters (length s.counters)
    then purge_expired_counters now counted
    else counted

prepared-Bounded : (now : ℕ) (s : Counters) → Bounded s → Bounded (prepared now s)
unfolding prepared purge_expired_counters
prepared-Bounded now s h =
    elim (Bool-cases ((s.operations + 1) % 256 == 0 || leb s.max_counters (length s.counters))) [
      | inl due ↦ rw due (record {
        distinct = purge-IsDistinct now s.counters s.counters h.distinct;
        capacity = omega (arith, purge_shorter now s.counters s.counters, h.capacity);
      })
      | inr not_due ↦ rw not_due (record { distinct = h.distinct; capacity = h.capacity })
    ]

prepared_live :
    (now : ℕ) (key : String) (value expires : ℕ) (s : Counters)
    → IsDistinct s.counters
    → get key s.counters ≡ some (value, expires)
    → now < expires
    → get key (prepared now s).counters ≡ some (value, expires)
unfolding prepared purge_expired_counters
prepared_live now key value expires s u e before =
    ground (arith, purge_keeps now key s.counters s.counters u (λ v x e'. ground arith))

add-Bounded :
    (key : String) (ttl amount now : ℕ) (s : Counters)
    → Bounded s
    → Bounded (add_to_counter key ttl amount now s).1
unfolding add_to_counter
add-Bounded key ttl amount now s h = elim (Option-cases (get key s.counters)) [
  | inr ((value, expires), e) ↦
      let w = window ttl now (some (value, expires)) in
      rw (e, window)
        (record {
          distinct = put-IsDistinct key (w.0 + amount, w.1) s.counters h.distinct;
          capacity = omega (
            arith,
            h.capacity,
            length-put_present key (w.0 + amount, w.1) s.counters (value, expires) e,
          );
        })
  | inl e ↦ elim (Bool-cases (leb s.max_counters (length s.counters))) [
    | inl full ↦ rw (e, full) h
    | inr free ↦
        rw (e, free)
          (record {
            distinct = put-IsDistinct key _ s.counters h.distinct;
            capacity = ground (arith, length-put_absent key (amount, now + ttl) s.counters e);
          })
  ]
]

increment-prepared :
    (key : String) (ttl amount now : ℕ) (s : Counters)
    → increment key ttl amount now s ≡ add_to_counter key ttl amount now (prepared now s)
unfolding increment prepared
increment-prepared key ttl amount now s = refl

increment-Bounded :
    (key : String) (ttl amount now : ℕ) (s : Counters)
    → Bounded s
    → Bounded (increment key ttl amount now s).1
increment-Bounded key ttl amount now s h =
    rw increment-prepared
      (add-Bounded key ttl amount now (prepared now s) (prepared-Bounded now s h))

add_live :
    (other key : String) (ttl amount now value expires : ℕ) (s : Counters)
    → get key s.counters ≡ some (value, expires)
    → now < expires
    → get key (add_to_counter other ttl amount now s).1.counters
      ≡ some ((if other == key then value + amount else value), expires)
unfolding add_to_counter
add_live other key ttl amount now value expires s e before = ground (
  arith,
  string_eq.beq_iff other key,
  get-put other key
      (
        (window ttl now (get other s.counters)).0 + amount,
        (window ttl now (get other s.counters)).1,
      )
      s.counters,
)

-- One call of `increment`, on any key.
pub record Hit : Type 0 where
  pub key : String
  pub ttl : ℕ
  pub amount : ℕ
  pub now : ℕ

pub run : List Hit → Counters → Counters
run [] s = s
run (hit ∷ hits) s = run hits (increment hit.key hit.ttl hit.amount hit.now s).1

-- What the calls for `key` add up to.
pub added : String → List Hit → ℕ
added key [] = 0
added key (hit ∷ hits) = (if hit.key == key then hit.amount else 0) + added key hits

-- All calls are made before the clock reading `until`.
abbrev pub AllBefore : ℕ → List Hit → Type 0
AllBefore until [] = Unit
AllBefore until (hit ∷ hits) = (hit.now < until) × AllBefore until hits

-- Within the window of a live counter its value is what it was plus what the calls for its key add,
-- whatever other keys are counted meanwhile and however many there are; the window does not move.
pub run_counts :
    (hits : List Hit) (key : String) (value expires : ℕ) (s : Counters)
    → Bounded s
    → get key s.counters ≡ some (value, expires)
    → AllBefore expires hits
    → get key (run hits s).counters ≡ some (value + added key hits, expires)
unfolding run added
run_counts [] key value expires s h e before = ground arith
run_counts (hit ∷ hits) key value expires s h e before =
    let s' = (increment hit.key hit.ttl hit.amount hit.now s).1 in
    let one =
      add_live hit.key key hit.ttl hit.amount hit.now value expires (prepared hit.now s)
        (prepared_live hit.now key value expires s h.distinct e before.0) before.0 in
    run_counts hits key (if hit.key == key then value + hit.amount else value) expires s'
      (increment-Bounded hit.key hit.ttl hit.amount hit.now s h) (rw increment-prepared one)
      before.1
    ∙ ground arith

prepared_none :
    (now : ℕ) (key : String) (s : Counters)
    → IsDistinct s.counters
    → get key s.counters ≡ none
    → get key (prepared now s).counters ≡ none
unfolding prepared purge_expired_counters
prepared_none now key s u e =
    ground (arith, purge_keeps now key s.counters s.counters u (λ v x e'. cc))

-- No counter has expired.
abbrev pub AllLive : ℕ → Dict String (ℕ × ℕ) → Type 0
AllLive now [] = Unit
AllLive now ((key, (value, expires)) ∷ d) = (now < expires) × AllLive now d

purge-AllLive :
    (now : ℕ) (items d : Dict String (ℕ × ℕ)) → AllLive now items → purge_counters now items d ≡ d
unfolding purge_counters
purge-AllLive now [] d live = refl
purge-AllLive now ((key, (value, expires)) ∷ items) d live =
    let kept : leb expires now ≡ false = ground arith in rw kept (purge-AllLive now items d live.1)

prepared-AllLive :
    (now : ℕ) (s : Counters)
    → AllLive now s.counters
    → prepared now s ≡ record s { operations = s.operations + 1 }
unfolding prepared purge_expired_counters
prepared-AllLive now s live = ground (arith, purge-AllLive now s.counters s.counters)

-- Under a flood of keys, with every slot taken by a live counter, a new key is refused with a count
-- that no limit allows, and no counter is evicted or changed for it.
pub flood_refused :
    (key : String) (ttl amount now : ℕ) (s : Counters)
    → get key s.counters ≡ none
    → s.max_counters ≤ length s.counters
    → AllLive now s.counters
    → increment key ttl amount now s ≡ (2 ^ 63 - 1, record s { operations = s.operations + 1 })
unfolding add_to_counter
flood_refused key ttl amount now s absent full live =
    let crowded : leb s.max_counters (length s.counters) ≡ true = ground arith in
    rw (increment-prepared, prepared-AllLive now s live, absent, crowded)
