-- ===== src/SocketLoop/Task/Arms.antt =====
-- What an enabled arm has done: the state that it hands to the rest of the loop.
use socketeer.Common.{
  ok, err, ◌⊎◌, ◌≡◌, ◌≢◌, Option, none, some, ready, inl, inr, arith, Poll-cases,
}
use socketeer.Runtime.Channel.{Mpsc}
use socketeer.Message.{dropped_without_closing, Message}
use socketeer.SocketLoop.Handlers.{
  TxChannelPayload, LoopState, error, send_socket_message, send_keepalive,
}
use socketeer.SocketLoop.Task.{
  Task, Keepalive, with_sink, selecting, continue, finish, on_permit, on_outgoing, on_sleep,
}

module _ {X T R : Type 0} ⦃tx : Mpsc TxChannelPayload T⦄ ⦃rx : Mpsc Message R⦄ where
  -- The task once it has taken `payload` from its queue and handled it, and the state of the loop.
  abbrev pub after_payload : Task X T R → Option TxChannelPayload → Task X T R
  after_payload t payload = record t {
    receiver = (tx.recv t.receiver).0;
    outputs = (send_socket_message payload t.outputs).0;
  }

  pub on_outgoing_cases :
      (go_on : Task X T R → LoopState X → Task X T R) (t t' : Task X T R)
      → on_outgoing go_on t ≡ some t'
      → (payload : Option TxChannelPayload) × ((tx.recv t.receiver).1 ≡ ready payload)
        × (t' ≡ go_on (after_payload t payload) (send_socket_message payload t.outputs).1)
  unfolding on_outgoing
  on_outgoing_cases go_on t t' h = elim (Poll-cases (tx.recv t.receiver).1) [
    | inl (payload, e) ↦ (payload, e, ground arith)
    | inr e ↦ absurd (ground arith)
  ]

  abbrev pub after_keepalive : Keepalive → Task X T R → Task X T R
  after_keepalive k t = with_sink t (send_keepalive t.sink k.message).0

  pub on_sleep_cases :
      (k : Keepalive) (go_on : Task X T R → LoopState X → Task X T R) (t t' : Task X T R)
      → on_sleep k go_on t ≡ some t'
      → (k.interval ≢ none) × (t' ≡ go_on (after_keepalive k t) (send_keepalive t.sink k.message).1)
  unfolding on_sleep
  on_sleep_cases k go_on t t' h = (ground arith, ground arith)

  pub on_permit_cases :
      (m : Message) (t t' : Task X T R)
      → on_permit m t ≡ some t'
      → ((rx.reserve t.sender ≡ ready (ok tt))
          × (t' ≡ record t { phase = selecting; sender = rx.permit_send t.sender m }))
        ⊎ ((rx.reserve t.sender ≡ ready (err tt)) × (t' ≡ finish t (error dropped_without_closing)))
  unfolding on_permit continue
  on_permit_cases m t t' h = elim (Poll-cases (rx.reserve t.sender)) [
    | inl (ok _, e) ↦ inl (e, ground arith)
    | inl (err _, e) ↦ inr (e, ground arith)
    | inr e ↦ absurd (ground arith)
  ]
