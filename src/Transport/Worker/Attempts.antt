-- ===== src/Transport/Worker/Attempts.antt =====
-- A message whose handling always fails.
use mathlib.Core.Path.{subst}
use ai_planed_map.Prelude.{
  ℕ, zero, suc, ◌+◌, ◌-◌, ◌≤◌, Every, List-cases, ◌<◌, ◌≡◌, refl, ap, ◌⊎◌, inl, inr, String, true,
  false, ◌&&◌, none, some, List, [], ◌∷◌, ◌++◌, max, ltb, leb, length, take_last, arith, Bool-cases,
  beq_refl, pair_eq, option_eq, string_eq,
}
use ai_planed_map.Prelude.Dict.{Dict, get, remove}
use ai_planed_map.Transport.Protocol.{endpoint_eq, Message, Encoding, validate}
use ai_planed_map.Transport.Memory.{
  Channel, Settings, Claim, DeadLetter, Transport, delivered, Retried, capacity, channel_of,
  claim_of, receive, retry_delivery, dispose, reclaim, reclaim_all, dead_letter_payload,
}
use ai_planed_map.Transport.Worker.{
  Answer, fails, Worker, Moment, give_back, settle, process, take_next, run_once,
}

module _ (enc : Encoding) where
  open enc use {Content}

  -- What a channel holds.
  pub record Holds (channel : Channel) (waiting : List (Message Content))
      (claims : Dict String (Claim enc)) (dead : List (DeadLetter enc)) (s : Transport enc)
      : Type 0 where
    pub waits : s.queues channel ≡ waiting
    pub claimed : s.pending channel ≡ claims
    pub died : s.dead_letters channel ≡ dead

  module _ (settings : Settings) (channel : Channel) (dead : List (DeadLetter enc)) where
    reclaim-Holds :
        (now idle : ℕ) (consumer : String) (m : Message Content) (s : Transport enc)
        → Holds channel (m ∷ []) [] dead s
        → ((reclaim enc now channel consumer idle 1 s).0 ≡ [])
          × Holds channel (m ∷ []) [] dead (reclaim enc now channel consumer idle 1 s).1
    unfolding reclaim reclaim_all
    reclaim-Holds now idle consumer m s h =
        rw h.claimed
          (refl, record { waits = h.waits; claimed = rw (beq_refl channel) refl; died = h.died })

    receive-Holds :
        (wall now : ℕ) (consumer receipt : String) (m : Message Content) (s : Transport enc)
        → Holds channel (m ∷ []) [] dead s
        → validate enc wall m ≡ none
        → (let claim = claim_of enc now consumer receipt m in
            let answer = receive enc wall now channel consumer receipt s in
            (answer.0 ≡ delivered claim.delivery)
            × Holds channel [] ((receipt, claim) ∷ []) dead answer.1)
    unfolding receive
    receive-Holds wall now consumer receipt m s h valid =
        rw (receive, h.waits, valid)
          (
            refl,
            record {
              waits = rw (beq_refl channel) refl;
              claimed = rw (beq_refl channel, h.claimed) refl;
              died = h.died;
            },
          )

  -- What is left of the claims after the only one.
  only_claim :
      (receipt : String) (claim : Claim enc)
      → (get receipt ((receipt, claim) ∷ []) ≡ some claim)
        × (remove receipt ((receipt, claim) ∷ []) ≡ [])
  only_claim receipt claim = (rw (beq_refl receipt) refl, rw (beq_refl receipt) refl)

  -- The claim is given up: for another attempt, or to the dead letters.
  retry-Holds :
      (settings : Settings) (max_attempts : ℕ) (claim : Claim enc) (dead : List (DeadLetter enc))
      (s : Transport enc)
      → claim.delivery.delivery_count ≡ claim.delivery.message.attempt
      → (leb 1 max_attempts && leb max_attempts 5) ≡ true
      → (let m = claim.delivery.message in
          let channel = channel_of enc m in
          let answer = retry_delivery enc settings claim.delivery max_attempts s in
          Holds channel [] ((claim.delivery.receipt, claim) ∷ []) dead s
          → ((m.attempt < max_attempts)
              × (answer.0 ≡ Retried.retry)
              × Holds channel (record m { attempt = m.attempt + 1 } ∷ []) [] dead answer.1)
            ⊎ ((max_attempts ≤ m.attempt)
                × (answer.0 ≡ Retried.dlq)
                × Holds channel [] []
                    (take_last
                      (capacity settings)
                      (dead ++ dead_letter_payload enc claim.delivery ∷ []))
                    answer.1))
  unfolding retry_delivery dispose
  retry-Holds settings max_attempts claim dead s count few h =
      let m = claim.delivery.message in
      let channel = channel_of enc m in
      let only = only_claim claim.delivery.receipt claim in
      let found : get claim.delivery.receipt (s.pending channel) ≡ some claim =
        rw h.claimed only.0 in
      let gone : remove claim.delivery.receipt (s.pending channel) ≡ [] = rw h.claimed only.1 in
      elim (Bool-cases (leb max_attempts (max m.attempt claim.delivery.delivery_count))) [
        | inl over ↦
            rw (retry_delivery, few, found, gone, dispose, over)
              (inr (
                ground arith,
                refl,
                record {
                  waits = h.waits;
                  claimed = rw (beq_refl channel) refl;
                  died = rw (beq_refl channel, h.died) refl;
                },
              ))
        | inr again ↦
            rw (retry_delivery, few, found, gone, dispose, again)
              (inl (
                ground arith,
                refl,
                record {
                  waits = rw (beq_refl channel, h.waits) refl;
                  claimed = rw (beq_refl channel) refl;
                  died = h.died;
                },
              ))
      ]

  -- While the handler runs nobody else does anything to the channel.
  pub record Quiet (channel : Channel) (moment : Moment enc) : Type 0 where
    pub leaves :
        (waiting : List (Message Content)) (claims : Dict String (Claim enc))
        (dead : List (DeadLetter enc)) (s : Transport enc)
        → Holds channel waiting claims dead s
        → Holds channel waiting claims dead (moment.meanwhile s)

  -- The message is still valid where it is received and where it is checked again.
  pub record Timely (m : Message Content) (moment : Moment enc) : Type 0 where
    pub received : validate enc moment.receives_wall m ≡ none
    pub checked : validate enc moment.checks_wall m ≡ none

  module _ (settings : Settings) (worker : Worker enc)
      (refuses : (m : Message Content) → worker.handler m ≡ fails)
      (few : (leb 1 worker.max_attempts && leb worker.max_attempts 5) ≡ true) where
    -- One round: the message is received, and given back when its handling has failed.
    round :
        (moment : Moment enc) (m : Message Content) (dead : List (DeadLetter enc))
        (s : Transport enc)
        → m.attempt ≤ worker.max_attempts
        → Timely m moment
        → Holds (worker.endpoint, none) (m ∷ []) [] dead s
        → (u : Transport enc) × Holds
            (worker.endpoint, none)
            []
            ((moment.receipt, claim_of enc moment.receives_at worker.consumer moment.receipt m)
              ∷ [])
            dead
            u
          × (run_once enc settings worker moment s
              ≡ give_back enc settings worker
                  (claim_of enc moment.receives_at worker.consumer moment.receipt m).delivery
                  (moment.meanwhile u))
    unfolding run_once take_next process settle
    round moment m dead s left timely h =
        let channel : Channel = (worker.endpoint, none) in
        let (none_back, h1) =
          reclaim-Holds settings channel dead moment.reclaims_at (max 1000 worker.reclaim_idle_ms)
            worker.consumer m s h in
        let t =
          (reclaim enc moment.reclaims_at channel worker.consumer (max 1000 worker.reclaim_idle_ms)
            1 s).1 in
        let (given, h2) =
          receive-Holds settings channel dead moment.receives_wall moment.receives_at
            worker.consumer moment.receipt m t h1 timely.received in
        let again : ltb worker.max_attempts m.attempt ≡ false = ground arith in
        (
          _,
          h2,
          rw
              (
                run_once,
                none_back,
                take_next,
                given,
                timely.checked,
                process,
                again,
                settle,
                refuses m,
              )
              refl,
        )

    -- What a round leaves: another attempt is to be made, or there is a dead letter.
    round-Holds :
        (moment : Moment enc) (m : Message Content) (dead : List (DeadLetter enc))
        (s : Transport enc)
        → channel_of enc m ≡ (worker.endpoint, none)
        → m.attempt ≤ worker.max_attempts
        → Quiet (worker.endpoint, none) moment
        → Timely m moment
        → Holds (worker.endpoint, none) (m ∷ []) [] dead s
        → (let answer = run_once enc settings worker moment s in
            ((m.attempt < worker.max_attempts)
              × (answer.0 ≡ Answer.retry)
              × Holds
                  (worker.endpoint, none)
                  (record m { attempt = m.attempt + 1 } ∷ [])
                  []
                  dead
                  answer.1)
            ⊎ ((worker.max_attempts ≤ m.attempt)
                × (answer.0 ≡ Answer.dlq)
                × Holds
                    (worker.endpoint, none)
                    []
                    []
                    (take_last
                      (capacity settings)
                      (dead ++ record { message = m; delivery_count = m.attempt } ∷ []))
                    answer.1))
    unfolding give_back
    round-Holds moment m dead s at left quiet timely h =
        let (u, h2, same) = round moment m dead s left timely h in
        let claim = claim_of enc moment.receives_at worker.consumer moment.receipt m in
        let h3 = quiet.leaves [] ((moment.receipt, claim) ∷ []) dead u h2 in
        elim (retry-Holds settings worker.max_attempts claim dead (moment.meanwhile u) refl few
          (rw at h3)) [
            | inl (less, answered, h4) ↦
                rw (same, give_back, answered) (inl (less, refl, rw at at h4))
            | inr (most, answered, h4) ↦
                rw (same, give_back, answered) (inr (most, refl, rw at at h4))
          ]

    -- Calls of `run_once`, one after the other.
    unfoldable pub run_rounds : List (Moment enc) → Transport enc → List Answer × Transport enc
    run_rounds [] s = ([], s)
    run_rounds (moment ∷ moments) s =
        let (answer, t) = run_once enc settings worker moment s in
        let (answers, u) = run_rounds moments t in (answer ∷ answers, u)

    abbrev pub given_back : ℕ → List Answer
    given_back zero = Answer.dlq ∷ []
    given_back (suc n) = Answer.retry ∷ given_back n

    Timely-attempt :
        (m : Message Content) (n : ℕ) (moment : Moment enc)
        → Timely m moment
        → Timely (record m { attempt = n }) moment
    unfolding validate
    Timely-attempt m n moment ok = record { received = ok.received; checked = ok.checked }

    Every-Timely :
        (m : Message Content) (n : ℕ) (moments : List (Moment enc))
        → Every (λ moment. Quiet (worker.endpoint, none) moment × Timely m moment) moments
        → Every
            (λ moment.
              Quiet (worker.endpoint, none) moment × Timely (record m { attempt = n }) moment)
            moments
    Every-Timely m n [] all = tt
    Every-Timely m n (moment ∷ moments) ((quiet, timely), all) =
        ((quiet, Timely-attempt m n moment timely), Every-Timely m n moments all)

    last_letter :
        (m : Message Content) (n : ℕ) (dead : List (DeadLetter enc)) (t : Transport enc)
        → m.attempt ≡ n
        → Holds
            (worker.endpoint, none)
            []
            []
            (take_last
              (capacity settings)
              (dead ++ record { message = m; delivery_count = m.attempt } ∷ []))
            t
        → Holds
            (worker.endpoint, none)
            []
            []
            (take_last
              (capacity settings)
              (dead ++ record { message = record m { attempt = n }; delivery_count = n } ∷ []))
            t
    last_letter m n dead t e h =
        subst
          (λ k.
            Holds (worker.endpoint, none) [] []
              (take_last (capacity settings)
                (dead ++ record { message = record m { attempt = k }; delivery_count = k } ∷ []))
              t)
          e h

    -- A message that alone waits for a worker whose handler always fails on it, while nobody else
    -- touches the channel and the message stays valid, is given back until its attempts are as many
    -- as the worker allows, and is then the newest of the dead letters; no call of `run_once` more
    -- and none less is needed, and the channel is empty afterwards.
    pub failing_ends_dead :
        (moments : List (Moment enc)) (m : Message Content) (dead : List (DeadLetter enc))
        (s : Transport enc)
        → channel_of enc m ≡ (worker.endpoint, none)
        → m.attempt ≤ worker.max_attempts
        → length moments + m.attempt ≡ worker.max_attempts + 1
        → Every (λ moment. Quiet (worker.endpoint, none) moment × Timely m moment) moments
        → Holds (worker.endpoint, none) (m ∷ []) [] dead s
        → ((run_rounds moments s).0 ≡ given_back (worker.max_attempts - m.attempt))
          × Holds
              (worker.endpoint, none)
              []
              []
              (take_last (capacity settings) (
                dead
                ++ record {
                  message = record m { attempt = worker.max_attempts };
                  delivery_count = worker.max_attempts;
                }
                  ∷ []))
              (run_rounds moments s).1
    unfolding run_rounds
    failing_ends_dead [] m dead s at left count all h = absurd (omega (arith, left, count))
    failing_ends_dead (moment ∷ moments) m dead s at left count ((quiet, timely), all) h =
        let t = (run_once enc settings worker moment s).1 in
        elim (round-Holds moment m dead s at left quiet timely h) [
          | inl (less, answered, h2) ↦
              let (answers, h3) =
                failing_ends_dead moments (record m { attempt = m.attempt + 1 }) dead t at
                  (omega (arith, less)) (omega (arith, count))
                  (Every-Timely m (m.attempt + 1) moments all) h2 in
              let one_more : worker.max_attempts - m.attempt
                  ≡ suc (worker.max_attempts - (m.attempt + 1)) =
                omega (arith, less) in
              (rw (answered, answers, one_more) refl, h3)
          | inr (most, answered, h2) ↦
              let last : m.attempt ≡ worker.max_attempts = omega (arith, left, most) in
              let none_left : worker.max_attempts - m.attempt ≡ 0 = omega (arith, last) in
              let h3 = last_letter m worker.max_attempts dead t last h2 in
              elim (List-cases moments) [
                | inl done ↦ rw (done, run_rounds, answered, none_left) (refl, h3)
                | inr (next, later, more) ↦
                    absurd (omega (arith, last, count, ap (λ xs. length xs) more))
              ]
        ]
