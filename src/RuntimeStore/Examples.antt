-- ===== src/RuntimeStore/Examples.antt =====
-- Concrete stores that the theorems about the in-memory store apply to.
use ai_planed_map.Prelude.{
  ℕ, ◌+◌, ◌<◌, ◌≡◌, refl, true, false, some, List, [], ◌∷◌, ◌++◌, arith, inl, inr, string_eq, leb,
  ◌-◌, ◌^◌, length, ◌&&◌,
}
use ai_planed_map.Prelude.Dict.{get}
use ai_planed_map.Prelude.Int.{pos, int_eq}
use ai_planed_map.Prelude.Decimal.{Text, str}
use mathlib.Core.List.{Perm}
use ai_planed_map.RuntimeStore.Cache.{Json, Cache, compare_set_json, publish_latest}
use ai_planed_map.RuntimeStore.Cache.Values.{
  Within, Op, set_op, cas_op, publish_op, run-Within, set_json_stored, publish_latest_overflow,
}
use ai_planed_map.RuntimeStore.Cache.Values
use ai_planed_map.RuntimeStore.Cache.Revisions.{
  view, expects, compare_set_json_outcome, compare_set_json_exclusive,
}
use ai_planed_map.RuntimeStore.Counters.{Counters, increment}
use ai_planed_map.RuntimeStore.Counters.Limits.{Bounded, Hit, run_counts, flood_refused}
use ai_planed_map.RuntimeStore.Counters.Limits
use ai_planed_map.RuntimeStore.Locks.{
  Locks, acquire_lock, release_lock, renew_lock, is_lock_owner, fenced, lock_fencing_token,
}
use ai_planed_map.RuntimeStore.Locks.Fencing.{lock_fencing_token-fenced}
use ai_planed_map.RuntimeStore.Locks.Holders.{
  LockOp, acquire, release, renew, stale_holder, holder_keeps,
}
use ai_planed_map.RuntimeStore.Locks.Holders
use ai_planed_map.RuntimeStore.Queues.{
  Queues, enqueue, reserve, acknowledge, recover_processing, recover_items,
}
use ai_planed_map.RuntimeStore.Queues.Delivery.{Step, Steps, Steps-held, held}

-- A JSON value is given by its revision, and takes as many bytes.
abbrev numbers : Json
numbers = record { Value = ℕ; encoded_size = λ n. n; is_dict = λ n. true; revision = pos }

abbrev two_slots : Cache ℕ
two_slots = record {
  values = ("a", (3, 20)) ∷ ("b", (4, 30)) ∷ [];
  sizes = ("a", 3) ∷ ("b", 4) ∷ [];
  bytes = 7;
  max_values = 2;
  max_bytes = 10;
}

two_slots-Within : Within 2 10 two_slots
two_slots-Within = record {
  accounted = record {
    distinct_values = (refl, (refl, tt));
    distinct_sizes = (refl, (refl, tt));
    sum = refl;
    owned = λ key absent. ground arith;
    bounded = omega arith;
  };
  max_values = refl;
  max_bytes = refl;
}

run-Within_example : Within 2 10 (
    Values.run numbers 2 10
      (omega arith)
      (set_op "c" 5 60 10 10 ∷ cas_op "a" (pos 3) 4 60 11 ∷ publish_op "x" 1 12 ∷ [])
      two_slots)
run-Within_example =
    run-Within numbers 2 10 (omega arith)
      (set_op "c" 5 60 10 10 ∷ cas_op "a" (pos 3) 4 60 11 ∷ publish_op "x" 1 12 ∷ []) two_slots
      two_slots-Within

publish_latest_overflow_example :
    let c' = publish_latest "trips" 1 10 two_slots in c'.max_values < length c'.values
publish_latest_overflow_example = publish_latest_overflow numbers "trips" 1 10 two_slots refl refl

compare_set_json_outcome_example :
    (compare_set_json numbers "a" (pos 3) 4 60 10 two_slots).0
    ≡ (expects numbers (pos 3) (view 10 "a" two_slots) && leb 4 10)
compare_set_json_outcome_example =
    compare_set_json_outcome numbers "a" (pos 3) 4 60 10 two_slots two_slots-Within

won : (compare_set_json numbers "a" (pos 3) 4 60 10 two_slots).0 ≡ true
won = compare_set_json_outcome numbers "a" (pos 3) 4 60 10 two_slots two_slots-Within

compare_set_json_exclusive_example :
    (compare_set_json numbers "a"
      (pos 3)
      5
      60
      20
      (compare_set_json numbers "a" (pos 3) 4 60 10 two_slots).1).0
    ≡ false
compare_set_json_exclusive_example =
    compare_set_json_exclusive numbers "a" (pos 3) 4 5 60 60 10 20 two_slots two_slots-Within
      (omega arith) won (omega arith) (λ e. cc)

abbrev one_counter : Counters
one_counter = record { counters = ("ip:1", (3, 60)) ∷ []; operations = 255; max_counters = 1 }

one_counter-Bounded : Bounded one_counter
one_counter-Bounded = record { distinct = (refl, tt); capacity = omega arith }

abbrev hits : List Hit
hits =
    record { key = "ip:1"; ttl = 60; amount = 1; now = 10 }
    ∷ record { key = "ip:2"; ttl = 60; amount = 5; now = 20 }
    ∷ record { key = "ip:1"; ttl = 60; amount = 2; now = 59 }
    ∷ []

run_counts_example :
    get "ip:1" (Limits.run hits one_counter).counters ≡ some (3 + Limits.added "ip:1" hits, 60)
run_counts_example =
    run_counts hits "ip:1" 3 60 one_counter one_counter-Bounded refl
      (omega arith, (omega arith, (omega arith, tt)))

flood_refused_example :
    increment "ip:2" 60 1 10 one_counter ≡ (2 ^ 63 - 1, record one_counter { operations = 256 })
flood_refused_example =
    flood_refused "ip:2" 60 1 10 one_counter refl (omega arith) (omega arith, tt)

abbrev no_locks : Locks
no_locks = record { locks = []; fences = λ name. 0 }

abbrev ann : Text
ann = b'a' ∷ b'n' ∷ b'n' ∷ []

abbrev bob : Text
bob = b'b' ∷ b'o' ∷ b'b' ∷ []

first_lock : (acquire_lock "w" 30 ann 10 no_locks).0 ≡ some (fenced 1 ann)
unfolding acquire_lock
first_lock = refl

second_lock :
    (acquire_lock "w" 30 bob 40
      (Holders.run (release "w" bob ∷ []) (acquire_lock "w" 30 ann 10 no_locks).1)).0
    ≡ some (fenced 2 bob)
unfolding acquire_lock release_lock Holders.run Holders.step fenced str
second_lock = refl

stale_holder_example :
    let s₁ = (acquire_lock "w" 30 ann 10 no_locks).1 in
    let s₂ = Holders.run (release "w" bob ∷ []) s₁ in
    let s₃ = Holders.run (renew "w" (fenced 1 ann) 30 45 ∷ []) (acquire_lock "w" 30 bob 40 s₂).1 in
    (is_lock_owner "w" (fenced 1 ann) 41 s₃ ≡ false)
    × (release_lock "w" (fenced 1 ann) s₃ ≡ (false, s₃))
    × (renew_lock "w" (fenced 1 ann) 30 41 s₃ ≡ (false, s₃))
stale_holder_example =
    stale_holder "w" 30 30 ann bob 10 40 (fenced 1 ann) (fenced 2 bob) no_locks
      (release "w" bob ∷ []) (renew "w" (fenced 1 ann) 30 45 ∷ []) 41 first_lock second_lock

holder_keeps_example :
    is_lock_owner "w" (fenced 1 ann) 39 (
      Holders.run
        (acquire "w" 30 bob 20 ∷ release "v" ann ∷ [])
        (acquire_lock "w" 30 ann 10 no_locks).1)
    ≡ true
holder_keeps_example =
    holder_keeps "w" 30 ann 10 (fenced 1 ann) no_locks
      (acquire "w" 30 bob 20 ∷ release "v" ann ∷ []) 39 first_lock
      (inr (omega arith), (inl (ground (arith, string_eq.beq_iff "v" "w")), tt)) (omega arith)

lock_fencing_token-fenced_example : lock_fencing_token (fenced 12 ann) ≡ some 12
lock_fencing_token-fenced_example = lock_fencing_token-fenced 12 ann (omega arith) (λ e. cc)

abbrev no_queues : Queues ℕ
no_queues = record { queues = λ queue. []; processing = λ queue. [] }

-- One message is brought in, reserved, recovered after a crash, reserved again and acknowledged.
abbrev delivered : Queues ℕ
delivered =
    (acknowledge "q" "r2"
      (reserve "q" "r2"
        (recover_processing "q" 10 (reserve "q" "r1" (enqueue "q" 7 no_queues)).1).1).1).1

redelivery : Steps "q" no_queues (7 ∷ []) (7 ∷ []) delivered
unfolding enqueue reserve acknowledge recover_processing recover_items
redelivery =
    Steps.next
      (Steps.next
        (Steps.next (Steps.next (Steps.next Steps.here (Step.produce 7)) (Step.take_one "r1" refl))
          (Step.recover 10))
        (Step.take_one "r2" refl))
      (Step.finish "r2" 7 refl)

Steps-held_example : Perm ((7 ∷ []) ++ held "q" delivered) ((7 ∷ []) ++ held "q" no_queues)
Steps-held_example = Steps-held redelivery tt
