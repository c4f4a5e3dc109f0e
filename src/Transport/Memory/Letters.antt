-- ===== src/Transport/Memory/Letters.antt =====
-- backend/app/services/agent_transport.py: what each operation does with the dead letters of a
-- channel, of which only the newest are kept.
use mathlib.Core.Path.{subst}
use mathlib.Core.List.Perm
use mathlib.Core.List.{Perm, perm_append_comm, append_assoc, append-nil}
use ai_planed_map.Prelude.{
  ℕ, ◌-◌, ◌≡◌, refl, sym, ap, ◌∙◌, String, ◌&&◌, some, List, [], ◌∷◌, ◌++◌, leb, max, Bool-cases,
  List-cases, Option-cases, beq_refl, is_some, length, take, drop, take-append-drop, inl, inr,
  string_eq, pair_eq, option_eq,
}
use ai_planed_map.Prelude.Dict.{get, remove}
use ai_planed_map.Transport.Protocol.{endpoint_eq, Message, Encoding, validate}
use ai_planed_map.Transport.Memory.{
  Channel, Settings, Delivery, Claim, DeadLetter, Transport, Retried, publish, publish_valid,
  receive, acknowledge, retry_delivery, dispose, reclaim, capacity, unexpired, channel_of,
  set_pending, dead_letter_payload,
}
use ai_planed_map.Transport.Memory.Held.{held, given_up_by}

-- What is given up moves from the claims to the letters.
moved :
    (out given held_after letters_after held_before letters : List String)
    → Perm (given ++ held_after) held_before
    → out ++ letters_after ≡ letters ++ given
    → Perm (out ++ (held_after ++ letters_after)) (held_before ++ letters)
moved out given held_after letters_after held_before letters p e =
    let first : Perm ((out ++ held_after) ++ letters_after) ((held_after ++ out) ++ letters_after) =
      Perm.append_right letters_after (perm_append_comm out held_after) in
    let second : Perm ((held_after ++ letters) ++ given) (given ++ (held_after ++ letters)) =
      perm_append_comm (held_after ++ letters) given in
    let third : Perm ((given ++ held_after) ++ letters) (held_before ++ letters) =
      Perm.append_right letters p in
    let middle : (held_after ++ out) ++ letters_after ≡ (held_after ++ letters) ++ given =
      append_assoc held_after out letters_after
      ∙ ap (λ l. held_after ++ l) e
      ∙ sym (append_assoc held_after letters given) in
    subst (λ l. Perm l (held_before ++ letters)) (append_assoc out held_after letters_after)
      (Perm.trans first (
        subst (λ l. Perm l (held_before ++ letters)) (sym middle)
          (Perm.trans second (
            subst (λ l. Perm l (held_before ++ letters)) (append_assoc given held_after letters)
              third))))

module _ {enc : Encoding} where
  open enc use {Content}

  abbrev pub letter_keys : List (DeadLetter enc) → List String
  letter_keys [] = []
  letter_keys (letter ∷ letters) = letter.message.idempotency_key ∷ letter_keys letters

  -- The keys of the messages that wait in a channel, of those that are claimed, and of its dead
  -- letters.
  abbrev pub stored : Channel → Transport enc → List String
  stored channel s = held channel s ++ letter_keys (s.dead_letters channel)

  -- The keys of the oldest dead letters, which a new one puts out.
  abbrev pub put_out_by : Settings → Retried → List (DeadLetter enc) → DeadLetter enc → List String
  put_out_by settings Retried.dlq letters letter =
      let all = letters ++ letter ∷ [] in letter_keys (take (length all - capacity settings) all)
  put_out_by settings _ letters letter = []

  letter_keys-append :
      (xs ys : List (DeadLetter enc)) → letter_keys (xs ++ ys) ≡ letter_keys xs ++ letter_keys ys
  letter_keys-append [] ys = refl
  letter_keys-append (x ∷ xs) ys =
      ap (λ zs. x.message.idempotency_key ∷ zs) (letter_keys-append xs ys)

  publish_valid-letters :
      (settings : Settings) (now : ℕ) (message : Message Content) (s : Transport enc)
      → (publish_valid enc settings now message s).1.dead_letters ≡ s.dead_letters
  unfolding publish_valid
  publish_valid-letters settings now message s =
      elim (Bool-cases (is_some (get message.idempotency_key (unexpired now s.published)))) [
        | inl known ↦ rw known refl
        | inr fresh ↦
            elim (Bool-cases
              (leb (capacity settings) (length (s.queues (channel_of enc message))))) [
                | inl full ↦ rw (fresh, full) refl
                | inr room ↦ rw (fresh, room) refl
              ]
      ]

  pub publish-letters :
      (settings : Settings) (wall now : ℕ) (message : Message Content) (s : Transport enc)
      → (publish enc settings wall now message s).1.dead_letters ≡ s.dead_letters
  unfolding publish
  publish-letters settings wall now message s = elim (Option-cases (validate enc wall message)) [
    | inl valid ↦ rw (publish, valid) (publish_valid-letters settings now message s)
    | inr (e, invalid) ↦ rw (publish, invalid) refl
  ]

  pub receive-letters :
      (wall now : ℕ) (channel : Channel) (consumer receipt : String) (s : Transport enc)
      → (receive enc wall now channel consumer receipt s).1.dead_letters ≡ s.dead_letters
  unfolding receive
  receive-letters wall now channel consumer receipt s = elim (List-cases (s.queues channel)) [
    | inl e ↦ rw (e, receive) refl
    | inr (message, rest, e) ↦ elim (Option-cases (validate enc wall message)) [
      | inl valid ↦ rw (e, receive, valid) refl
      | inr (wrong, invalid) ↦ rw (e, receive, invalid) refl
    ]
  ]

  pub acknowledge-letters :
      (delivery : Delivery enc) (s : Transport enc)
      → (acknowledge enc delivery s).1.dead_letters ≡ s.dead_letters
  unfolding acknowledge
  acknowledge-letters delivery s = refl

  pub reclaim-letters :
      (now : ℕ) (channel : Channel) (consumer : String) (idle count : ℕ) (s : Transport enc)
      → (reclaim enc now channel consumer idle count s).1.dead_letters ≡ s.dead_letters
  unfolding reclaim
  reclaim-letters now channel consumer idle count s = refl

  -- What is given up becomes the last letter, and nothing else is changed but by what it puts out.
  dispose-letters :
      (settings : Settings) (delivery : Delivery enc) (max_attempts : ℕ) (s : Transport enc)
      → (let channel = channel_of enc delivery.message in
          let r = dispose enc settings delivery max_attempts s in
          put_out_by settings r.0 (s.dead_letters channel) (dead_letter_payload enc delivery)
            ++ letter_keys (r.1.dead_letters channel)
          ≡ letter_keys (s.dead_letters channel)
            ++ given_up_by r.0 delivery.message.idempotency_key)
  unfolding dispose
  dispose-letters settings delivery max_attempts s =
      let channel = channel_of enc delivery.message in
      let letters = s.dead_letters channel in
      let all = letters ++ dead_letter_payload enc delivery ∷ [] in
      let cut = length all - capacity settings in
      elim (Bool-cases (leb max_attempts (max delivery.message.attempt delivery.delivery_count))) [
        | inl over ↦
            rw (over, beq_refl channel)
              (sym (letter_keys-append (take cut all) (drop cut all))
                ∙ ap letter_keys (take-append-drop cut all)
                ∙ letter_keys-append letters (dead_letter_payload enc delivery ∷ []))
        | inr again ↦ rw again (sym (append-nil (letter_keys letters)))
      ]

  retry_delivery-letters :
      (settings : Settings) (delivery : Delivery enc) (max_attempts : ℕ) (claim : Claim enc)
      (s : Transport enc)
      → (let channel = channel_of enc delivery.message in
          let r = retry_delivery enc settings delivery max_attempts s in
          get delivery.receipt (s.pending channel) ≡ some claim
          → put_out_by settings r.0 (s.dead_letters channel) (dead_letter_payload enc delivery)
              ++ letter_keys (r.1.dead_letters channel)
            ≡ letter_keys (s.dead_letters channel)
              ++ given_up_by r.0 delivery.message.idempotency_key)
  unfolding retry_delivery
  retry_delivery-letters settings delivery max_attempts claim s e =
      let channel = channel_of enc delivery.message in
      elim (Bool-cases (leb 1 max_attempts && leb max_attempts 5)) [
        | inl valid ↦
            rw (valid, e)
              (dispose-letters settings delivery max_attempts
                (set_pending enc channel (remove delivery.receipt (s.pending channel)) s))
        | inr invalid ↦ rw invalid (sym (append-nil (letter_keys (s.dead_letters channel))))
      ]

  pub retry_delivery-stored :
      (settings : Settings) (delivery : Delivery enc) (max_attempts : ℕ) (claim : Claim enc)
      (s : Transport enc)
      → (let channel = channel_of enc delivery.message in
          let r = retry_delivery enc settings delivery max_attempts s in
          get delivery.receipt (s.pending channel) ≡ some claim
          → Perm
              (given_up_by r.0 delivery.message.idempotency_key ++ held channel r.1)
              (held channel s)
          → Perm
              (put_out_by settings r.0 (s.dead_letters channel) (dead_letter_payload enc delivery)
                ++ stored channel r.1)
              (stored channel s))
  retry_delivery-stored settings delivery max_attempts claim s e p =
      let channel = channel_of enc delivery.message in
      let r = retry_delivery enc settings delivery max_attempts s in
      moved (put_out_by settings r.0 (s.dead_letters channel) (dead_letter_payload enc delivery))
        (given_up_by r.0 delivery.message.idempotency_key) (held channel r.1)
        (letter_keys (r.1.dead_letters channel)) (held channel s)
        (letter_keys (s.dead_letters channel)) p
        (retry_delivery-letters settings delivery max_attempts claim s e)

  -- Where the dead letters stay, what holds of the other messages holds of all.
  pub same_letters-stored :
      (channel : Channel) (done more : List String) (s t : Transport enc)
      → t.dead_letters ≡ s.dead_letters
      → Perm (done ++ held channel t) (more ++ held channel s)
      → Perm (done ++ stored channel t) (more ++ stored channel s)
  same_letters-stored channel done more s t e p =
      let letters = letter_keys (s.dead_letters channel) in
      rw
        (
          e,
          ← append_assoc done (held channel t) letters,
          ← append_assoc more (held channel s) letters,
        )
        (Perm.append_right letters p)
