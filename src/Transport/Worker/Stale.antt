-- ===== src/Transport/Worker/Stale.antt =====
-- A message that is no longer valid where a worker receives it.
use ai_planed_map.Prelude.{
  ℕ, ◌≡◌, refl, none, some, List, [], ◌∷◌, max, beq_refl, pair_eq, option_eq, string_eq,
}
use ai_planed_map.Transport.Protocol.{endpoint_eq, Message, Encoding, ProtocolError, validate}
use ai_planed_map.Transport.Memory.{
  Channel, Settings, Transport, refused, receive, reclaim, reclaim_all,
}
use ai_planed_map.Transport.Worker.{Answer, Worker, Moment, take_next, run_once}

module _ (enc : Encoding) (settings : Settings) (worker : Worker enc) (moment : Moment enc) where
  open enc use {Content}

  nothing_back :
      (now idle : ℕ) (s : Transport enc)
      → s.pending (worker.endpoint, none) ≡ []
      → (let back = reclaim enc now (worker.endpoint, none) worker.consumer idle 1 s in
          (back.0 ≡ []) × (back.1.queues ≡ s.queues))
  unfolding reclaim reclaim_all
  nothing_back now idle s unclaimed = rw unclaimed (refl, refl)

  refused_first :
      (m : Message Content) (rest : List (Message Content)) (e : ProtocolError) (s : Transport enc)
      → s.queues (worker.endpoint, none) ≡ m ∷ rest
      → validate enc moment.receives_wall m ≡ some e
      → (let answer =
            receive enc moment.receives_wall moment.receives_at
              (worker.endpoint, none)
              worker.consumer
              moment.receipt
              s in
          (answer.0 ≡ refused e) × (answer.1.queues (worker.endpoint, none) ≡ rest))
  unfolding receive
  refused_first m rest e s waits invalid =
      let channel : Channel = (worker.endpoint, none) in
      rw (receive, waits, invalid) (refl, rw (beq_refl channel) refl)

  -- A message that has expired, or is invalid otherwise, when a worker without claims in its channel
  -- receives it: `run_once` raises, and the message is gone from the queue.
  pub stale_raises :
      (m : Message Content) (rest : List (Message Content)) (e : ProtocolError) (s : Transport enc)
      → s.pending (worker.endpoint, none) ≡ []
      → s.queues (worker.endpoint, none) ≡ m ∷ rest
      → validate enc moment.receives_wall m ≡ some e
      → ((run_once enc settings worker moment s).0 ≡ Answer.raises)
        × ((run_once enc settings worker moment s).1.queues (worker.endpoint, none) ≡ rest)
  unfolding run_once take_next
  stale_raises m rest e s unclaimed waits invalid =
      let idle = max 1000 worker.reclaim_idle_ms in
      let back = reclaim enc moment.reclaims_at (worker.endpoint, none) worker.consumer idle 1 s in
      let (none_back, same) = nothing_back moment.reclaims_at idle s unclaimed in
      let still : back.1.queues (worker.endpoint, none) ≡ m ∷ rest = rw same waits in
      let (answered, left) = refused_first m rest e back.1 still invalid in
      rw (run_once, none_back, take_next, answered) (refl, left)
