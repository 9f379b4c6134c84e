-- ===== src/Connection/Change.antt =====
-- What an event does to the frames on their way: the four ways in which a step can change a connection.
use mathlib.Core.Option.{some-injective}
use socketeer.Common.{
  refl, ℕ, ◌≡◌, ◌⊎◌, inl, inr, List, [], ◌∷◌, ◌++◌, none, some, ready, Poll-cases, arith,
  Option-cases,
}
use socketeer.Message.{Message}
use socketeer.Runtime.Channel.{Mpsc}
use socketeer.SocketLoop.Handlers.{TxChannelPayload}
use socketeer.SocketLoop.Task.{Arm, Keepalive, socket_loop_split}
use socketeer.SocketLoop.Task.Frames.{read_by}
use socketeer.Handle.Calls.{send_confirmed, send_unconfirmed, send_close, recv_raw, poll_recv_raw}
use socketeer.Connection.{
  Connection, Event, arm, confirmed, unconfirmed, closing, cancel, receive, poll, drop_receiver,
  drop_senders, step, run, on_confirmed, on_unconfirmed, on_closing, on_receive, on_poll,
}

-- The frame that an event reads from the stream.
abbrev pub read : {X : Type 0} → Event X → List Message
read (arm a) = read_by a
read _ = []

module _ {X T R : Type 0} ⦃tx : Mpsc TxChannelPayload T⦄ ⦃rx : Mpsc Message R⦄ where
  -- The events of the senders leave the task as it is, but for the outgoing channel and the slot.
  abbrev pub SameFrames : Connection X T R → Connection X T R → Type 0
  SameFrames c c' = (c'.sender ≡ c.sender) × (c'.phase ≡ c.phase) × (c'.delivered ≡ c.delivered)

  pub on_confirmed-SameFrames :
      (c c' : Connection X T R) (m : Message) (id : ℕ)
      → on_confirmed c m id ≡ some c'
      → SameFrames c c'
  unfolding on_confirmed send_confirmed
  on_confirmed-SameFrames c c' m id e = ground arith

  pub on_unconfirmed-SameFrames :
      (c c' : Connection X T R) (m : Message) → on_unconfirmed c m ≡ some c' → SameFrames c c'
  unfolding on_unconfirmed send_unconfirmed
  on_unconfirmed-SameFrames c c' m e = ground arith

  pub on_closing-SameFrames :
      (c c' : Connection X T R) (id : ℕ) → on_closing c id ≡ some c' → SameFrames c c'
  unfolding on_closing send_close
  on_closing-SameFrames c c' id e = ground arith

  -- A receive that is not made to wait: the channel has moved on by one `recv`, and a frame that it
  -- gave has been delivered.
  abbrev pub Received : Connection X T R → Connection X T R → Type 0
  Received c c' =
      (c'.sender ≡ (rx.recv c.sender).0)
      × (c'.phase ≡ c.phase)
      × (((m : Message) × ((rx.recv c.sender).1 ≡ ready (some m))
            × (c'.delivered ≡ c.delivered ++ m ∷ []))
          ⊎ (((rx.recv c.sender).1 ≡ ready none) × (c'.delivered ≡ c.delivered)))

  pub on_receive-Received : (c c' : Connection X T R) → on_receive c ≡ some c' → Received c c'
  unfolding on_receive recv_raw
  on_receive-Received c c' e = elim (Poll-cases (rx.recv c.sender).1) [
    | inl (some m, r) ↦ (ground arith, ground arith, inl (m, r, ground arith))
    | inl (none, r) ↦ (ground arith, ground arith, inr (r, ground arith))
    | inr r ↦ absurd (ground arith)
  ]

  pub on_poll-Received : (c c' : Connection X T R) → on_poll c ≡ some c' → Received c c'
  unfolding on_poll poll_recv_raw
  on_poll-Received c c' e = elim (Poll-cases (rx.recv c.sender).1) [
    | inl (some m, r) ↦ (ground arith, ground arith, inl (m, r, ground arith))
    | inl (none, r) ↦ (ground arith, ground arith, inr (r, ground arith))
    | inr r ↦ absurd (ground arith)
  ]

  pub data Change (k : Keepalive) (c c' : Connection X T R) (e : Event X) : Type 0 where
    by_task :
        (a : Arm X)
        → read e ≡ read_by a
        → socket_loop_split k c.task a ≡ some c'.task
        → c'.delivered ≡ c.delivered
        → Change k c c' e
    quiet : read e ≡ [] → SameFrames c c' → Change k c c' e
    taken : read e ≡ [] → Received c c' → Change k c c' e
    abandoned :
        read e ≡ []
        → c'.sender ≡ rx.drop_receiver c.sender
        → c'.phase ≡ c.phase
        → c'.delivered ≡ c.delivered
        → Change k c c' e

  pub step-Change :
      (k : Keepalive) (c c' : Connection X T R) (e : Event X)
      → step k c e ≡ some c'
      → Change k c c' e
  unfolding step
  step-Change k c c' (arm a) h = by_task a refl (ground arith) (ground arith)
  step-Change k c c' (confirmed m id) h = quiet refl (on_confirmed-SameFrames c c' m id h)
  step-Change k c c' (unconfirmed m) h = quiet refl (on_unconfirmed-SameFrames c c' m h)
  step-Change k c c' (closing id) h = quiet refl (on_closing-SameFrames c c' id h)
  step-Change k c c' (cancel id) h = quiet refl (ground arith)
  step-Change k c c' receive h = taken refl (on_receive-Received c c' h)
  step-Change k c c' poll h = taken refl (on_poll-Received c c' h)
  step-Change k c c' drop_receiver h = abandoned refl (ground arith) (ground arith) (ground arith)
  step-Change k c c' drop_senders h = quiet refl (ground arith)

  -- An enabled run is an enabled step and an enabled run after it.
  pub run-cons :
      (k : Keepalive) (c : Connection X T R) (e : Event X) (es : List (Event X))
      (c' : Connection X T R)
      → run k c (e ∷ es) ≡ some c'
      → (c1 : Connection X T R) × Change k c c1 e × (run k c1 es ≡ some c')
  unfolding run
  run-cons k c e es c' h = elim (Option-cases (step k c e)) [
    | inl stuck ↦ absurd (ground arith)
    | inr (c1, moved) ↦ (c1, step-Change k c c1 e moved, ground arith)
  ]

  pub run-nil : (k : Keepalive) (c c' : Connection X T R) → run k c [] ≡ some c' → c ≡ c'
  unfolding run
  run-nil k c c' h = some-injective _ _ h
