-- ===== src/Transport/Memory/Expiry.antt =====
-- backend/app/services/agent_transport.py: a message whose time is over before it is received.
use ai_planed_map.Prelude.{
  ℕ, ◌≤◌, ◌≡◌, refl, ap, String, none, some, [], ◌∷◌, ◌++◌, leb, arith, Bool-cases, Option-cases,
  beq_refl, inl, inr, pair_eq, option_eq, string_eq, is_some, length,
}
use ai_planed_map.Prelude.Dict.{get}
use ai_planed_map.Transport.Protocol.{endpoint_eq, Message, Encoding, validate, expired}
use ai_planed_map.Transport.Memory.{
  Settings, Transport, Published, refused, publish, publish_valid, receive, channel_of, capacity,
  unexpired,
}

module _ (enc : Encoding) where
  open enc use {Content}

  validate-later :
      (wall later time : ℕ) (m : Message Content)
      → validate enc wall m ≡ none
      → m.expires_at ≡ some time
      → time ≤ later
      → validate enc later m ≡ some expired
  unfolding validate
  validate-later wall later time m e expires over = ground arith

  -- What an accepted publication leaves.
  published_valid_last :
      (settings : Settings) (now : ℕ) (m : Message Content) (s : Transport enc)
      → (let channel = channel_of enc m in
          let t = (publish_valid enc settings now m s).1 in
          (publish_valid enc settings now m s).0 ≡ Published.published
          → (t.queues channel ≡ s.queues channel ++ m ∷ [])
            × (t.pending ≡ s.pending)
            × (t.dead_letters ≡ s.dead_letters))
  unfolding publish_valid
  published_valid_last settings now m s e =
      let channel = channel_of enc m in
      elim (Bool-cases (is_some (get m.idempotency_key (unexpired now s.published)))) [
        | inl known ↦ absurd (ground arith)
        | inr fresh ↦ elim (Bool-cases (leb (capacity settings) (length (s.queues channel)))) [
          | inl full ↦ absurd (ground arith)
          | inr room ↦ rw (fresh, room) (rw (beq_refl channel) refl, refl, refl)
        ]
      ]

  published_last :
      (settings : Settings) (wall now : ℕ) (m : Message Content) (s : Transport enc)
      → (let channel = channel_of enc m in
          let t = (publish enc settings wall now m s).1 in
          (publish enc settings wall now m s).0 ≡ Published.published
          → (validate enc wall m ≡ none)
            × (t.queues channel ≡ s.queues channel ++ m ∷ [])
            × (t.pending ≡ s.pending)
            × (t.dead_letters ≡ s.dead_letters))
  unfolding publish
  published_last settings wall now m s e = elim (Option-cases (validate enc wall m)) [
    | inl valid ↦
        let (queue, pending, dead) =
          published_valid_last settings now m s (rw (publish, valid) at e) in
        rw (publish, valid) (refl, queue, pending, dead)
    | inr (wrong, invalid) ↦ absurd (ground arith)
  ]

  -- A message that is accepted in a channel without waiting messages, and whose time is over when it
  -- is received: the reception fails, and afterwards the message neither waits nor is claimed nor is
  -- a dead letter.
  pub expired_lost :
      (settings : Settings) (wall now later_wall later time : ℕ) (consumer receipt : String)
      (m : Message Content) (s : Transport enc)
      → (publish enc settings wall now m s).0 ≡ Published.published
      → s.queues (channel_of enc m) ≡ []
      → m.expires_at ≡ some time
      → time ≤ later_wall
      → (let channel = channel_of enc m in
          let t = (publish enc settings wall now m s).1 in
          let r = receive enc later_wall later channel consumer receipt t in
          (r.0 ≡ refused expired)
          × (r.1.queues channel ≡ [])
          × (r.1.pending channel ≡ s.pending channel)
          × (r.1.dead_letters channel ≡ s.dead_letters channel))
  unfolding receive
  expired_lost settings wall now later_wall later time consumer receipt m s accepted none_waits
        expires over =
      let channel = channel_of enc m in
      let (valid, queue, pending, dead) = published_last settings wall now m s accepted in
      let invalid = validate-later wall later_wall time m valid expires over in
      rw (queue, none_waits, receive, invalid)
        (refl, rw (beq_refl channel) refl, ap (λ f. f channel) pending, ap (λ f. f channel) dead)
