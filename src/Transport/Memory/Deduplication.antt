-- ===== src/Transport/Memory/Deduplication.antt =====
-- backend/app/services/agent_transport.py: how long a published message is remembered.
use mathlib.Core.Path.{subst}
use ai_planed_map.Prelude.{
  ℕ, ◌+◌, ◌≤◌, ◌<◌, ◌≡◌, ◌≢◌, refl, sym, String, false, ◌&&◌, none, some, leb, max, arith,
  Bool-cases, List-cases, Option-cases, beq_refl, inl, inr, string_eq, is_some, length,
}
use ai_planed_map.Prelude.Dict.{Dict, get, put, get-put}
use ai_planed_map.Transport.Protocol.{Message, Encoding, validate}
use ai_planed_map.Transport.Memory.{
  Channel, Settings, Delivery, Transport, Published, publish, publish_valid, receive, acknowledge,
  retry_delivery, dispose, reclaim, channel_of, capacity, key_lifetime, unexpired, make_room,
}
use ai_planed_map.Transport.Memory.Newer.{
  newer, newer-unexpired, newer-make_room, newer-put, newer-put_absent, get-make_room,
}

module _ (enc : Encoding) where
  open enc use {Content}

  -- The key is stored until then at least, and not more than so many keys were stored after it.
  pub record Remembers (key : String) (deadline later : ℕ) (s : Transport enc) : Type 0 where
    pub expiry : ℕ
    pub stored : get key s.published ≡ some expiry
    pub lasting : deadline ≤ expiry
    pub few : newer key s.published ≤ later

  get-put_fresh :
      (key other : String) (expiry time : ℕ) (kept room : Dict String ℕ)
      → get key kept ≡ some expiry
      → is_some (get other kept) ≡ false
      → get key room ≡ some expiry
      → get key (put other time room) ≡ some expiry
  get-put_fresh key other expiry time kept room stored fresh still =
      ground (arith, get-put other key time room, string_eq.beq_iff other key)

  publish_valid-Remembers :
      (settings : Settings) (now : ℕ) (m : Message Content) (s : Transport enc) (key : String)
      (deadline later : ℕ)
      → now < deadline
      → later + 1 < capacity settings
      → Remembers key deadline later s
      → Remembers key deadline (later + 1) (publish_valid enc settings now m s).1
  unfolding publish_valid
  publish_valid-Remembers settings now m s key deadline later early small r =
      let (stored, few) =
        newer-unexpired now r.expiry key s.published r.stored (omega (arith, early, r.lasting)) in
      let kept = unexpired now s.published in
      let (still, same) =
        newer-make_room (capacity settings) r.expiry key kept stored
          (omega (arith, few, small, r.few)) in
      elim (Bool-cases (is_some (get m.idempotency_key kept))) [
        | inl known ↦ rw known (record {
          expiry = r.expiry;
          stored = stored;
          lasting = r.lasting;
          few = omega (arith, few, r.few);
        })
        | inr fresh ↦
            elim (Bool-cases (leb (capacity settings) (length (s.queues (channel_of enc m))))) [
              | inl full ↦
                  rw (fresh, full)
                    (record {
                      expiry = r.expiry;
                      stored = stored;
                      lasting = r.lasting;
                      few = omega (arith, few, r.few);
                    })
              | inr room ↦
                  rw (fresh, room)
                    (record {
                      expiry = r.expiry;
                      stored =
                          get-put_fresh key m.idempotency_key r.expiry (now + key_lifetime settings)
                            kept (make_room (capacity settings) kept) stored fresh still;
                      lasting = r.lasting;
                      few = omega (
                        arith,
                        newer-put key m.idempotency_key (now + key_lifetime settings)
                            (make_room (capacity settings) kept),
                        same,
                        few,
                        r.few,
                      );
                    })
            ]
      ]

  publish-Remembers :
      (settings : Settings) (wall now : ℕ) (m : Message Content) (s : Transport enc) (key : String)
      (deadline later : ℕ)
      → now < deadline
      → later + 1 < capacity settings
      → Remembers key deadline later s
      → Remembers key deadline (later + 1) (publish enc settings wall now m s).1
  unfolding publish
  publish-Remembers settings wall now m s key deadline later early small r =
      elim (Option-cases (validate enc wall m)) [
        | inl valid ↦
            rw (publish, valid)
              (publish_valid-Remembers settings now m s key deadline later early small r)
        | inr (e, invalid) ↦
            rw (publish, invalid)
              (record {
                expiry = r.expiry;
                stored = r.stored;
                lasting = r.lasting;
                few = omega (arith, r.few);
              })
      ]

  published-receive :
      (wall now : ℕ) (channel : Channel) (consumer receipt : String) (s : Transport enc)
      → (receive enc wall now channel consumer receipt s).1.published ≡ s.published
  unfolding receive
  published-receive wall now channel consumer receipt s = elim (List-cases (s.queues channel)) [
    | inl e ↦ rw (e, receive) refl
    | inr (m, rest, e) ↦ elim (Option-cases (validate enc wall m)) [
      | inl valid ↦ rw (e, receive, valid) refl
      | inr (wrong, invalid) ↦ rw (e, receive, invalid) refl
    ]
  ]

  published-retry_delivery :
      (settings : Settings) (delivery : Delivery enc) (max_attempts : ℕ) (s : Transport enc)
      → (retry_delivery enc settings delivery max_attempts s).1.published ≡ s.published
  unfolding retry_delivery dispose
  published-retry_delivery settings delivery max_attempts s =
      let m = delivery.message in
      elim (Bool-cases (leb 1 max_attempts && leb max_attempts 5)) [
        | inl valid ↦ elim (Option-cases (get delivery.receipt (s.pending (channel_of enc m)))) [
          | inl e ↦ rw (valid, e) refl
          | inr (claim, e) ↦
              elim (Bool-cases (leb max_attempts (max m.attempt delivery.delivery_count))) [
                | inl over ↦ rw (valid, e, over) refl
                | inr again ↦ rw (valid, e, again) refl
              ]
        ]
        | inr invalid ↦ rw invalid refl
      ]

  -- Operations of any channels, with so many publications among them, each before the deadline.
  pub data Operations (settings : Settings) (deadline : ℕ) (s : Transport enc)
      : ℕ → Transport enc → Type 0 where
    here : Operations settings deadline s 0 s
    publication :
        {n : ℕ} {t : Transport enc} (wall now : ℕ) (m : Message Content)
        → now < deadline
        → Operations settings deadline s n t
        → Operations settings deadline s (n + 1) (publish enc settings wall now m t).1
    reception :
        {n : ℕ} {t : Transport enc} (wall now : ℕ) (channel : Channel) (consumer receipt : String)
        → Operations settings deadline s n t
        → Operations settings deadline s n (receive enc wall now channel consumer receipt t).1
    acknowledgement :
        {n : ℕ} {t : Transport enc} (delivery : Delivery enc)
        → Operations settings deadline s n t
        → Operations settings deadline s n (acknowledge enc delivery t).1
    failure :
        {n : ℕ} {t : Transport enc} (delivery : Delivery enc) (max_attempts : ℕ)
        → Operations settings deadline s n t
        → Operations settings deadline s n (retry_delivery enc settings delivery max_attempts t).1
    recovery :
        {n : ℕ} {t : Transport enc} (now : ℕ) (channel : Channel) (consumer : String)
        (idle count : ℕ)
        → Operations settings deadline s n t
        → Operations settings deadline s n (reclaim enc now channel consumer idle count t).1

  same-Remembers :
      {key : String} {deadline later : ℕ} {s t : Transport enc}
      → t.published ≡ s.published
      → Remembers key deadline later s
      → Remembers key deadline later t
  same-Remembers same r = record {
    expiry = r.expiry;
    stored = rw same r.stored;
    lasting = r.lasting;
    few = rw same r.few;
  }

  Operations-Remembers :
      {settings : Settings} {deadline : ℕ} {key : String} {s : Transport enc} {n : ℕ}
      {t : Transport enc}
      → Operations settings deadline s n t
      → n < capacity settings
      → Remembers key deadline 0 s
      → Remembers key deadline n t
  unfolding acknowledge reclaim
  Operations-Remembers here small r = r
  Operations-Remembers {settings} {deadline} {key = key} (publication {n} {t} wall now m early k)
        small r =
      publish-Remembers settings wall now m t key deadline n early small
        (Operations-Remembers k (omega (arith, small)) r)
  Operations-Remembers (reception {t = t} wall now channel consumer receipt k) small r =
      same-Remembers (published-receive wall now channel consumer receipt t)
        (Operations-Remembers k small r)
  Operations-Remembers (acknowledgement delivery k) small r =
      same-Remembers refl (Operations-Remembers k small r)
  Operations-Remembers {settings} (failure {t = t} delivery max_attempts k) small r =
      same-Remembers (published-retry_delivery settings delivery max_attempts t)
        (Operations-Remembers k small r)
  Operations-Remembers (recovery now channel consumer idle count k) small r =
      same-Remembers refl (Operations-Remembers k small r)

  published_valid-Remembers :
      (settings : Settings) (now : ℕ) (m : Message Content) (s : Transport enc)
      → (publish_valid enc settings now m s).0 ≡ Published.published
      → Remembers m.idempotency_key
          (now + key_lifetime settings)
          0
          (publish_valid enc settings now m s).1
  unfolding publish_valid
  published_valid-Remembers settings now m s e =
      let kept = unexpired now s.published in
      let key = m.idempotency_key in
      let time = now + key_lifetime settings in
      elim (Bool-cases (is_some (get key kept))) [
        | inl known ↦ absurd (ground arith)
        | inr fresh ↦
            elim (Bool-cases (leb (capacity settings) (length (s.queues (channel_of enc m))))) [
              | inl full ↦ absurd (ground arith)
              | inr room ↦
                  let absent : get key kept ≡ none = ground arith in
                  let first = get-make_room (capacity settings) key kept absent in
                  let dict = make_room (capacity settings) kept in
                  rw (fresh, room)
                    (record {
                      expiry = time;
                      stored = rw (get-put key key time dict, beq_refl key) refl;
                      lasting = omega arith;
                      few = omega (arith, newer-put_absent key time dict first);
                    })
            ]
      ]

  published-Remembers :
      (settings : Settings) (wall now : ℕ) (m : Message Content) (s : Transport enc)
      → (publish enc settings wall now m s).0 ≡ Published.published
      → Remembers m.idempotency_key
          (now + key_lifetime settings)
          0
          (publish enc settings wall now m s).1
  unfolding publish
  published-Remembers settings wall now m s e = elim (Option-cases (validate enc wall m)) [
    | inl valid ↦
        rw (publish, valid) (published_valid-Remembers settings now m s (rw (publish, valid) at e))
    | inr (wrong, invalid) ↦ absurd (ground arith)
  ]

  known_valid :
      (settings : Settings) (now later : ℕ) (m : Message Content) (s : Transport enc) (deadline : ℕ)
      → now < deadline
      → Remembers m.idempotency_key deadline later s
      → publish_valid enc settings now m s
        ≡ (Published.duplicate, record s { published = unexpired now s.published })
  unfolding publish_valid
  known_valid settings now later m s deadline early r =
      let stored =
        (newer-unexpired now r.expiry m.idempotency_key s.published r.stored
          (omega (arith, early, r.lasting))).0 in
      rw stored refl

  known_again :
      (settings : Settings) (wall now later : ℕ) (m : Message Content) (s : Transport enc)
      (deadline : ℕ)
      → now < deadline
      → Remembers m.idempotency_key deadline later s
      → ((publish enc settings wall now m s).0 ≢ Published.published)
        × ((publish enc settings wall now m s).1.queues ≡ s.queues)
  unfolding publish
  known_again settings wall now later m s deadline early r =
      elim (Option-cases (validate enc wall m)) [
        | inl valid ↦
            rw (publish, valid, known_valid settings now later m s deadline early r)
              ((λ e. cc), refl)
        | inr (wrong, invalid) ↦ rw (publish, invalid) ((λ e. cc), refl)
      ]

  -- A message that was accepted is not accepted again while its key lives, under whatever other
  -- identity it comes: a publication with the same key is refused or answered as a duplicate and adds
  -- nothing to any queue, whatever else is published, received, acknowledged, retried or reclaimed in
  -- between, as long as fewer publications come in between than the transport keeps keys.
  pub never_published_twice :
      (settings : Settings) (wall now later_wall later n : ℕ) (m again : Message Content)
      (s t : Transport enc)
      → (publish enc settings wall now m s).0 ≡ Published.published
      → Operations settings (now + key_lifetime settings) (publish enc settings wall now m s).1 n t
      → n < capacity settings
      → later < now + key_lifetime settings
      → again.idempotency_key ≡ m.idempotency_key
      → ((publish enc settings later_wall later again t).0 ≢ Published.published)
        × ((publish enc settings later_wall later again t).1.queues ≡ t.queues)
  never_published_twice settings wall now later_wall later n m again s t accepted k small early
        same =
      let deadline = now + key_lifetime settings in
      known_again settings later_wall later n again t deadline early (
        subst (λ key. Remembers key deadline n t) (sym same)
          (Operations-Remembers k small (published-Remembers settings wall now m s accepted)))
