-- ===== src/RuntimeStore/Queues/Delivery.antt =====
-- At-least-once delivery: no message is lost or duplicated on its way through a queue.
use mathlib.Core.List.Perm
use mathlib.Core.List.{Perm, perm_middle, perm_append_singleton, append_assoc}
use ai_planed_map.Prelude.{
  beq_refl, List-cases, ℕ, zero, suc, ◌≡◌, refl, String, none, some, List, [], ◌∷◌, ◌++◌, arith,
  Bool-cases, inl, inr, ◌==◌, string_eq, take,
}
use ai_planed_map.Prelude.Permutations.{regroup}
use ai_planed_map.Prelude.Dict.{
  Dict, get, put, remove, IsDistinct, remove-IsDistinct, remove_absent, put-IsDistinct,
}
use ai_planed_map.RuntimeStore.Queues.{
  Queues, enqueue, reserve, acknowledge, recover_items, recover_processing, set_queue,
  set_processing,
}

module _ {Value : Type 0} where
  abbrev pub values : Dict String Value → List Value
  values [] = []
  values ((receipt, payload) ∷ d) = payload ∷ values d

  values-put_absent :
      (k : String) (v : Value) (d : Dict String Value)
      → get k d ≡ none
      → values (put k v d) ≡ values d ++ v ∷ []
  values-put_absent k v [] h = refl
  values-put_absent k v ((i, w) ∷ d) h = ground (arith, values-put_absent k v d)

  values-remove :
      (k : String) (v : Value) (d : Dict String Value)
      → IsDistinct d
      → get k d ≡ some v
      → Perm (v ∷ values (remove k d)) (values d)
  values-remove k v [] u h = cc
  values-remove k v ((i, w) ∷ d) u h = elim (Bool-cases (i == k)) [
    | inl same ↦
        let absent : get k d ≡ none = ground (arith, string_eq.beq_iff i k, u.0) in
        let eq : w ≡ v = ground arith in
        rw (same, remove_absent k d absent, eq) (Perm.refl (v ∷ values d))
    | inr other ↦ rw other (
        Perm.trans (Perm.swap w v (values (remove k d)))
          (Perm.cons w (values-remove k v d u.1 (ground arith))))
  ]

  -- What a queue holds: the messages that wait and those that are reserved.
  abbrev pub held : String → Queues Value → List Value
  held queue s = s.queues queue ++ values (s.processing queue)

  enqueue-held :
      (queue : String) (value : Value) (s : Queues Value)
      → Perm (held queue (enqueue queue value s)) (value ∷ held queue s)
  unfolding enqueue
  enqueue-held queue value s =
      rw (beq_refl queue, append_assoc) (perm_middle (s.queues queue) (values (s.processing queue)))

  reserve-held :
      (queue receipt : String) (s : Queues Value)
      → get receipt (s.processing queue) ≡ none
      → Perm (held queue (reserve queue receipt s).1) (held queue s)
  unfolding reserve
  reserve-held queue receipt s fresh = elim (List-cases (s.queues queue)) [
    | inl e ↦ rw (e, reserve) (rw e (Perm.refl (values (s.processing queue))))
    | inr (payload, rest, e) ↦
        rw
          (e, reserve, beq_refl queue, values-put_absent receipt payload (s.processing queue) fresh)
          (rw (← append_assoc)
            (perm_append_singleton payload (rest ++ values (s.processing queue))))
  ]

  acknowledge-held :
      (queue receipt : String) (payload : Value) (s : Queues Value)
      → IsDistinct (s.processing queue)
      → get receipt (s.processing queue) ≡ some payload
      → Perm (payload ∷ held queue (acknowledge queue receipt s).1) (held queue s)
  unfolding acknowledge
  acknowledge-held queue receipt payload s u e = rw (beq_refl queue) (
      Perm.trans
        (Perm.symm (perm_middle (s.queues queue) (values (remove receipt (s.processing queue)))))
        (Perm.append_left (s.queues queue)
          (values-remove receipt payload (s.processing queue) u e)))

  -- The pending items, each still there when its turn comes.
  abbrev Pending : Dict String Value → Dict String Value → Type 0
  Pending [] d = Unit
  Pending ((receipt, payload) ∷ items) d =
      (get receipt d ≡ some payload) × IsDistinct d × Pending items (remove receipt d)

  Pending-take : (n : ℕ) (d : Dict String Value) → IsDistinct d → Pending (take n d) d
  Pending-take zero d u = tt
  Pending-take (suc n) [] u = tt
  Pending-take (suc n) ((receipt, payload) ∷ d) u = (
    rw (beq_refl receipt),
    u,
    rw (beq_refl receipt, remove_absent receipt d u.0) (Pending-take n d u.1),
  )

  recover_items-held :
      (queue : String) (items : Dict String Value) (s : Queues Value)
      → Pending items (s.processing queue)
      → Perm (held queue (recover_items queue items s)) (held queue s)
  unfolding recover_items
  recover_items-held queue [] s p = Perm.refl _
  recover_items-held queue ((receipt, payload) ∷ items) s (e, u, p) =
      Perm.trans
        (recover_items-held queue items
          (set_processing queue (remove receipt (s.processing queue))
            (set_queue queue (payload ∷ s.queues queue) s))
          (rw (beq_refl queue) p))
        (rw (beq_refl queue) (
          Perm.trans
            (Perm.symm
              (perm_middle (s.queues queue) (values (remove receipt (s.processing queue)))))
            (Perm.append_left (s.queues queue)
              (values-remove receipt payload (s.processing queue) u e))))

  -- One step of a producer, a consumer or the recovery at start-up, with the messages that it
  -- brings in and those that it acknowledges. A receipt is a `uuid4` text, so a new one is not in use.
  pub data Step (queue : String) (s : Queues Value)
      : List Value → List Value → Queues Value → Type 0 where
    produce : (value : Value) → Step queue s (value ∷ []) [] (enqueue queue value s)
    take_one :
        (receipt : String)
        → get receipt (s.processing queue) ≡ none
        → Step queue s [] [] (reserve queue receipt s).1
    finish :
        (receipt : String) (payload : Value)
        → get receipt (s.processing queue) ≡ some payload
        → Step queue s [] (payload ∷ []) (acknowledge queue receipt s).1
    finish_twice :
        (receipt : String)
        → get receipt (s.processing queue) ≡ none
        → Step queue s [] [] (acknowledge queue receipt s).1
    recover : (limit : ℕ) → Step queue s [] [] (recover_processing queue limit s).1

  pub data Steps (queue : String) (s : Queues Value)
      : List Value → List Value → Queues Value → Type 0 where
    here : Steps queue s [] [] s
    next :
        {brought acked more done : List Value} {t u : Queues Value}
        → Steps queue s brought acked t
        → Step queue t more done u
        → Steps queue s (more ++ brought) (done ++ acked) u

  reserve-IsDistinct :
      (queue receipt : String) (s : Queues Value)
      → IsDistinct (s.processing queue)
      → IsDistinct ((reserve queue receipt s).1.processing queue)
  unfolding reserve
  reserve-IsDistinct queue receipt s u = elim (List-cases (s.queues queue)) [
    | inl e ↦ rw (e, reserve) u
    | inr (payload, rest, e) ↦
        rw (e, reserve, beq_refl queue) (put-IsDistinct receipt payload (s.processing queue) u)
  ]

  recover_items-IsDistinct :
      (queue : String) (items : Dict String Value) (s : Queues Value)
      → IsDistinct (s.processing queue)
      → IsDistinct ((recover_items queue items s).processing queue)
  unfolding recover_items
  recover_items-IsDistinct queue [] s u = u
  recover_items-IsDistinct queue ((receipt, payload) ∷ items) s u =
      recover_items-IsDistinct queue items
        (set_processing queue (remove receipt (s.processing queue))
          (set_queue queue (payload ∷ s.queues queue) s))
        (rw (beq_refl queue) (remove-IsDistinct receipt (s.processing queue) u))

  Step-IsDistinct :
      {queue : String} {s t : Queues Value} {more done : List Value}
      → Step queue s more done t
      → IsDistinct (s.processing queue)
      → IsDistinct (t.processing queue)
  Step-IsDistinct (produce value) u = unfold enqueue in u
  Step-IsDistinct {queue} {s} (take_one receipt fresh) u = reserve-IsDistinct queue receipt s u
  Step-IsDistinct {queue} {s} (finish receipt payload e) u =
      unfold acknowledge in rw (beq_refl queue) (remove-IsDistinct receipt (s.processing queue) u)
  Step-IsDistinct {queue} {s} (finish_twice receipt e) u =
      unfold acknowledge in rw (beq_refl queue) (remove-IsDistinct receipt (s.processing queue) u)
  Step-IsDistinct {queue} {s} (recover limit) u =
      unfold recover_processing in
      recover_items-IsDistinct queue (take limit (s.processing queue)) s u

  -- A step moves messages, and takes away exactly those that it acknowledges.
  Step-held :
      {queue : String} {s t : Queues Value} {more done : List Value}
      → Step queue s more done t
      → IsDistinct (s.processing queue)
      → Perm (done ++ held queue t) (more ++ held queue s)
  Step-held {queue} {s} (produce value) u = enqueue-held queue value s
  Step-held {queue} {s} (take_one receipt fresh) u = reserve-held queue receipt s fresh
  Step-held {queue} {s} (finish receipt payload e) u = acknowledge-held queue receipt payload s u e
  Step-held {queue} {s} (finish_twice receipt e) u =
      unfold acknowledge in
      rw (beq_refl queue, remove_absent receipt (s.processing queue) e) (Perm.refl (held queue s))
  Step-held {queue} {s} (recover limit) u =
      unfold recover_processing in
      recover_items-held queue (take limit (s.processing queue)) s
        (Pending-take limit (s.processing queue) u)

  Steps-IsDistinct :
      {queue : String} {s t : Queues Value} {more done : List Value}
      → Steps queue s more done t
      → IsDistinct (s.processing queue)
      → IsDistinct (t.processing queue)
  Steps-IsDistinct here u = u
  Steps-IsDistinct (next r st) u = Step-IsDistinct st (Steps-IsDistinct r u)

  -- However production, reservation, acknowledgement and recovery follow one another in a queue whose
  -- reserved messages have different receipts at first, the messages
  -- that were acknowledged together with those that the queue holds are those that it held at first
  -- together with those that were brought in: none is lost, none is duplicated.
  pub Steps-held :
      {queue : String} {s t : Queues Value} {brought acked : List Value}
      → Steps queue s brought acked t
      → IsDistinct (s.processing queue)
      → Perm (acked ++ held queue t) (brought ++ held queue s)
  Steps-held {queue} {s} here u = Perm.refl (held queue s)
  Steps-held {queue} {s} (next {brought} {acked} {more} {done} {t} {u = t'} r st) u =
      let one : Perm (done ++ held queue t') (more ++ held queue t) =
        Step-held st (Steps-IsDistinct r u) in
      let all : Perm (acked ++ held queue t) (brought ++ held queue s) = Steps-held r u in
      regroup acked brought more done (held queue t) (held queue t') (held queue s) one all
