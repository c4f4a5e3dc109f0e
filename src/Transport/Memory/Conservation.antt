-- ===== src/Transport/Memory/Conservation.antt =====
-- What becomes of the messages of one channel of backend/app/services/agent_transport.py: each waits,
-- is claimed, is a dead letter, or was acknowledged, dropped, or put out by a newer dead letter.
use mathlib.Core.Path.{subst}
use mathlib.Core.List.Perm
use mathlib.Core.List.{Perm}
use ai_planed_map.Prelude.{
  ℕ, ap, true, leb, ◌≡◌, String, none, some, List, [], ◌∷◌, ◌++◌, string_eq, pair_eq, option_eq,
  leb,
}
use ai_planed_map.Prelude.Permutations.{regroup}
use ai_planed_map.Prelude.Dict.{get, IsDistinct}
use ai_planed_map.Transport.Protocol.{endpoint_eq, Message, Encoding}
use ai_planed_map.Transport.Memory.{
  Channel, Settings, Delivery, Claim, Transport, publish, receive, acknowledge, retry_delivery,
  reclaim, channel_of, dead_letter_payload,
}
use ai_planed_map.Transport.Memory.Receipts.{
  publish-pending, receive-IsDistinct, acknowledge-IsDistinct, retry_delivery-IsDistinct,
  reclaim-IsDistinct,
}
use ai_planed_map.Transport.Memory.Letters.{
  stored, put_out_by, publish-letters, receive-letters, acknowledge-letters, reclaim-letters,
  retry_delivery-stored, same_letters-stored,
}
use ai_planed_map.Transport.Memory.Held.{
  held, claim_key, brought_by, dropped_by, publish-held, receive-held, acknowledge-held,
  retry_delivery-held, reclaim-held, finish_twice-held, fail_twice-same,
}

module _ {enc : Encoding} where
  open enc use {Content}

  -- One operation on a channel, with the keys that it brings in and those that it settles. A receipt
  -- is a `uuid4` text, so a new one is not in use; a delivery that is settled was given out by the
  -- transport, so that its message is the one claimed. The
  -- schema of a message allows at most five attempts.
  pub data Step (channel : Channel) (s : Transport enc)
      : List String → List String → Transport enc → Type 0 where
    send :
        (settings : Settings) (wall now : ℕ) (message : Message Content)
        → leb message.attempt 5 ≡ true
        → channel_of enc message ≡ channel
        → Step channel s
            (brought_by (publish enc settings wall now message s).0 message.idempotency_key)
            []
            (publish enc settings wall now message s).1
    take_one :
        (wall now : ℕ) (consumer receipt : String)
        → get receipt (s.pending channel) ≡ none
        → Step channel s []
            (dropped_by (receive enc wall now channel consumer receipt s).0 (s.queues channel))
            (receive enc wall now channel consumer receipt s).1
    finish :
        (delivery : Delivery enc) (claim : Claim enc)
        → channel_of enc delivery.message ≡ channel
        → get delivery.receipt (s.pending channel) ≡ some claim
        → Step channel s [] (claim_key claim ∷ []) (acknowledge enc delivery s).1
    finish_twice :
        (delivery : Delivery enc)
        → channel_of enc delivery.message ≡ channel
        → get delivery.receipt (s.pending channel) ≡ none
        → Step channel s [] [] (acknowledge enc delivery s).1
    fail :
        (settings : Settings) (delivery : Delivery enc) (max_attempts : ℕ) (claim : Claim enc)
        → channel_of enc delivery.message ≡ channel
        → get delivery.receipt (s.pending channel) ≡ some claim
        → claim.delivery.message ≡ delivery.message
        → Step channel s []
            (put_out_by settings
              (retry_delivery enc settings delivery max_attempts s).0
              (s.dead_letters channel)
              (dead_letter_payload enc delivery))
            (retry_delivery enc settings delivery max_attempts s).1
    fail_twice :
        (settings : Settings) (delivery : Delivery enc) (max_attempts : ℕ)
        → channel_of enc delivery.message ≡ channel
        → get delivery.receipt (s.pending channel) ≡ none
        → Step channel s [] [] (retry_delivery enc settings delivery max_attempts s).1
    reclaim_some :
        (now : ℕ) (consumer : String) (idle count : ℕ)
        → Step channel s [] [] (reclaim enc now channel consumer idle count s).1

  pub data Steps (channel : Channel) (s : Transport enc)
      : List String → List String → Transport enc → Type 0 where
    here : Steps channel s [] [] s
    next :
        {brought settled more done : List String} {t u : Transport enc}
        → Steps channel s brought settled t
        → Step channel t more done u
        → Steps channel s (more ++ brought) (done ++ settled) u

  Step-stored :
      {channel : Channel} {s t : Transport enc} {more done : List String}
      → Step channel s more done t
      → IsDistinct (s.pending channel)
      → Perm (done ++ stored channel t) (more ++ stored channel s)
  Step-stored {channel} {s} (send settings wall now message schema at) u =
      let r = publish enc settings wall now message s in
      same_letters-stored channel [] (brought_by r.0 message.idempotency_key) s r.1
        (publish-letters settings wall now message s)
        (rw (← at) (publish-held settings wall now message s))
  Step-stored {channel} {s} (take_one wall now consumer receipt fresh) u =
      let r = receive enc wall now channel consumer receipt s in
      same_letters-stored channel (dropped_by r.0 (s.queues channel)) [] s r.1
        (receive-letters wall now channel consumer receipt s)
        (receive-held wall now channel consumer receipt s fresh)
  Step-stored {channel} {s} (finish delivery claim at e) u =
      same_letters-stored channel (claim_key claim ∷ []) [] s (acknowledge enc delivery s).1
        (acknowledge-letters delivery s)
        (subst
          (λ c.
            IsDistinct (s.pending c)
            → get delivery.receipt (s.pending c) ≡ some claim
            → Perm (claim_key claim ∷ held c (acknowledge enc delivery s).1) (held c s))
          at (acknowledge-held delivery claim s) u e)
  Step-stored {channel} {s} (finish_twice delivery at e) u =
      same_letters-stored channel [] [] s (acknowledge enc delivery s).1
        (acknowledge-letters delivery s)
        (subst
          (λ c.
            get delivery.receipt (s.pending c) ≡ none
            → Perm (held c (acknowledge enc delivery s).1) (held c s))
          at (finish_twice-held delivery s) e)
  Step-stored {channel} {s} (fail settings delivery max_attempts claim at e same) u =
      let r = retry_delivery enc settings delivery max_attempts s in
      subst
        (λ c.
          IsDistinct (s.pending c)
          → get delivery.receipt (s.pending c) ≡ some claim
          → Perm
              (put_out_by settings r.0 (s.dead_letters c) (dead_letter_payload enc delivery)
                ++ stored c r.1)
              (stored c s))
        at
        (λ v there. retry_delivery-stored settings delivery max_attempts claim s there (
          retry_delivery-held settings delivery max_attempts claim s v there
            (ap (λ m. m.idempotency_key) same)))
        u e
  Step-stored {channel} {s} (fail_twice settings delivery max_attempts at e) u =
      rw (fail_twice-same settings delivery max_attempts s (rw at e)) (Perm.refl (stored channel s))
  Step-stored {channel} {s} (reclaim_some now consumer idle count) u =
      same_letters-stored channel [] [] s (reclaim enc now channel consumer idle count s).1
        (reclaim-letters now channel consumer idle count s)
        (rw (reclaim-held now channel consumer idle count s) (Perm.refl (held channel s)))

  Step-IsDistinct :
      {channel : Channel} {s t : Transport enc} {more done : List String}
      → Step channel s more done t
      → IsDistinct (s.pending channel)
      → IsDistinct (t.pending channel)
  Step-IsDistinct {s} (send settings wall now message schema at) u =
      rw (publish-pending settings wall now message s) u
  Step-IsDistinct {channel} {s} (take_one wall now consumer receipt fresh) u =
      receive-IsDistinct wall now channel consumer receipt s u
  Step-IsDistinct {channel} {s} (finish delivery claim at e) u =
      acknowledge-IsDistinct delivery s channel u
  Step-IsDistinct {channel} {s} (finish_twice delivery at e) u =
      acknowledge-IsDistinct delivery s channel u
  Step-IsDistinct {channel} {s} (fail settings delivery max_attempts claim at e same) u =
      retry_delivery-IsDistinct settings delivery max_attempts s channel u
  Step-IsDistinct {channel} {s} (fail_twice settings delivery max_attempts at e) u =
      retry_delivery-IsDistinct settings delivery max_attempts s channel u
  Step-IsDistinct {channel} {s} (reclaim_some now consumer idle count) u =
      reclaim-IsDistinct now channel consumer idle count s u

  Steps-IsDistinct :
      {channel : Channel} {s t : Transport enc} {brought settled : List String}
      → Steps channel s brought settled t
      → IsDistinct (s.pending channel)
      → IsDistinct (t.pending channel)
  Steps-IsDistinct here u = u
  Steps-IsDistinct (next k step) u = Step-IsDistinct step (Steps-IsDistinct k u)

  -- However publications, receptions, acknowledgements, retries and recoveries follow one another in
  -- a channel whose claims have different receipts at first: the messages that wait, are claimed or
  -- are dead letters, together with those that were acknowledged, were dropped as no longer valid or
  -- were dead letters that a newer one put out of the full list, are those that were there at first
  -- together with those that were accepted for publication. None is lost otherwise or duplicated.
  pub messages_conserved :
      {channel : Channel} {s t : Transport enc} {brought settled : List String}
      → Steps channel s brought settled t
      → IsDistinct (s.pending channel)
      → Perm (settled ++ stored channel t) (brought ++ stored channel s)
  messages_conserved {channel} {s} here u = Perm.refl (stored channel s)
  messages_conserved {channel} {s} (next {brought} {settled} {more} {done} {t} {u = t'} k step) u =
      regroup settled brought more done (stored channel t) (stored channel t') (stored channel s)
        (Step-stored step (Steps-IsDistinct k u)) (messages_conserved k u)
