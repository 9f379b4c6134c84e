-- ===== src/Connection/Cause.antt =====
-- The slot over a whole run: what the handle can find in it, and when.
use mathlib.Core.Path.{subst}
use socketeer.Common.{
  ℕ, ◌≡◌, ◌⊎◌, inl, inr, refl, sym, true, List, [], ◌∷◌, none, some, arith, Option-cases,
}
use socketeer.Message.{Message}
use socketeer.Runtime.Channel.{ChannelSize, Mpsc, recv_from-sending}
use socketeer.SocketLoop.Handlers.{TxChannelPayload, Outputs, running, error, closed}
use socketeer.SocketLoop.Task.{Keepalive, Task, Phase, selecting, holding, ended}
use socketeer.SocketLoop.Task.Ending.{Recorded, socket_loop_split-Recorded}
use socketeer.Handle.Calls.{
  close_message, send_confirmed, send_unconfirmed, send_close, recv_raw, poll_recv_raw,
}
use socketeer.Connection.Change.{run-nil}
use socketeer.Connection.{
  Connection, Event, arm, confirmed, unconfirmed, closing, cancel, receive, poll, drop_receiver,
  drop_senders, step, run, start, on_confirmed, on_unconfirmed, on_closing, on_receive, on_poll,
}

module _ {X T R : Type 0} ⦃tx : Mpsc TxChannelPayload T⦄ ⦃rx : Mpsc Message R⦄ where
  -- What the handle can do to the task's side: it may take the slot's content, and fill the queue of a
  -- loop that still receives.
  abbrev Touches : Task X T R → Task X T R → Type 0
  Touches t t' =
      ((rx.view t'.sender).sending ≡ (rx.view t.sender).sending)
      × ((tx.view t'.receiver).receiving ≡ (tx.view t.receiver).receiving)
      × ((t'.terminal_error ≡ t.terminal_error) ⊎ (t'.terminal_error ≡ none))
      × (((tx.view t'.receiver).queue ≡ (tx.view t.receiver).queue)
          ⊎ ((tx.view t.receiver).receiving ≡ true))

  Touches-Recorded : (p : Phase X) (t t' : Task X T R) → Touches t t' → Recorded p t → Recorded p t'
  Touches-Recorded selecting t t' w h = ground arith
  Touches-Recorded (holding m) t t' w h = ground arith
  Touches-Recorded (ended running) t t' w h = absurd h
  Touches-Recorded (ended (error x)) t t' w h = ground arith
  Touches-Recorded (ended closed) t t' w h = ground arith

  abbrev HandleTouches : Connection X T R → Connection X T R → Type 0
  HandleTouches c c' = (c'.phase ≡ c.phase) × Touches c.task c'.task

  on_confirmed-Touches :
      (c c' : Connection X T R) (m : Message) (id : ℕ)
      → on_confirmed c m id ≡ some c'
      → HandleTouches c c'
  unfolding on_confirmed send_confirmed
  on_confirmed-Touches c c' m id e = ground (
    arith,
    tx.reserve_lem c.receiver,
    tx.view-permit_send c.receiver (record { message = m; response_tx = some id }),
  )

  on_unconfirmed-Touches :
      (c c' : Connection X T R) (m : Message) → on_unconfirmed c m ≡ some c' → HandleTouches c c'
  unfolding on_unconfirmed send_unconfirmed
  on_unconfirmed-Touches c c' m e = ground (
    arith,
    tx.reserve_lem c.receiver,
    tx.view-permit_send c.receiver (record { message = m; response_tx = none }),
  )

  on_closing-Touches :
      (c c' : Connection X T R) (id : ℕ) → on_closing c id ≡ some c' → HandleTouches c c'
  unfolding on_closing send_close
  on_closing-Touches c c' id e = ground (
    arith,
    tx.reserve_lem c.receiver,
    tx.view-permit_send c.receiver (record { message = close_message; response_tx = some id }),
  )

  on_receive-Touches : (c c' : Connection X T R) → on_receive c ≡ some c' → HandleTouches c c'
  unfolding on_receive recv_raw
  on_receive-Touches c c' e =
      ground (
        arith,
        rx.view-recv c.sender,
        recv_from-sending (rx.view c.sender).queue (rx.view c.sender),
      )

  on_poll-Touches : (c c' : Connection X T R) → on_poll c ≡ some c' → HandleTouches c c'
  unfolding on_poll poll_recv_raw
  on_poll-Touches c c' e =
      ground (
        arith,
        rx.view-recv c.sender,
        recv_from-sending (rx.view c.sender).queue (rx.view c.sender),
      )

  abbrev pub IsRecorded : Connection X T R → Type 0
  IsRecorded c = Recorded c.phase c.task

  HandleTouches-IsRecorded :
      (c c' : Connection X T R) → HandleTouches c c' → IsRecorded c → IsRecorded c'
  HandleTouches-IsRecorded c c' w h =
      subst (λ p. Recorded p c'.task) (sym w.0) (Touches-Recorded c.phase c.task c'.task w.1 h)

  pub step-IsRecorded :
      (k : Keepalive) (c c' : Connection X T R) (e : Event X)
      → step k c e ≡ some c'
      → IsRecorded c
      → IsRecorded c'
  unfolding step
  step-IsRecorded k c c' (arm a) e h =
      socket_loop_split-Recorded k c.task a c'.task (ground arith) h
  step-IsRecorded k c c' (confirmed m id) e h =
      HandleTouches-IsRecorded c c' (on_confirmed-Touches c c' m id e) h
  step-IsRecorded k c c' (unconfirmed m) e h =
      HandleTouches-IsRecorded c c' (on_unconfirmed-Touches c c' m e) h
  step-IsRecorded k c c' (closing id) e h =
      HandleTouches-IsRecorded c c' (on_closing-Touches c c' id e) h
  step-IsRecorded k c c' receive e h = HandleTouches-IsRecorded c c' (on_receive-Touches c c' e) h
  step-IsRecorded k c c' poll e h = HandleTouches-IsRecorded c c' (on_poll-Touches c c' e) h
  step-IsRecorded k c c' drop_receiver e h =
      HandleTouches-IsRecorded c c' (ground (arith, rx.view-drop_receiver c.sender)) h
  step-IsRecorded k c c' drop_senders e h =
      HandleTouches-IsRecorded c c' (ground (arith, tx.view-drop_senders c.receiver)) h
  step-IsRecorded k c c' (cancel id) e h = HandleTouches-IsRecorded c c' (ground arith) h

  pub run-IsRecorded :
      (k : Keepalive) (c : Connection X T R) (es : List (Event X)) (c' : Connection X T R)
      → run k c es ≡ some c'
      → IsRecorded c
      → IsRecorded c'
  unfolding run
  run-IsRecorded k c [] c' e h = subst IsRecorded (run-nil k c c' e) h
  run-IsRecorded k c (x ∷ es) c' e h = elim (Option-cases (step k c x)) [
    | inl stuck ↦ absurd (ground arith)
    | inr (c1, moved) ↦ run-IsRecorded k c1 es c' (ground arith) (step-IsRecorded k c c1 x moved h)
  ]

  -- Over any run from a new connection: while the loop runs, the slot is empty and both channels are
  -- open at the task's end; once it has ended, it has ended with an error or closed, the channels are
  -- shut, no payload waits any more, and the slot is empty or holds the error that ended the loop (and
  -- is empty after a graceful close).
  pub run_cause :
      (k : Keepalive) (n : ChannelSize) (o : Outputs X) (es : List (Event X)) (c : Connection X T R)
      → run k (start n o) es ≡ some c
      → Recorded c.phase c.task
  unfolding start
  run_cause k n o es c e =
      run-IsRecorded k (start n o) es c e
        (refl, ground (arith, rx.view-channel n, tx.view-channel n))
