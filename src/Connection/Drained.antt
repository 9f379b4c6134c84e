-- ===== src/Connection/Drained.antt =====
-- src/socket_loop.rs: what a connection that has ended still gives to the program, over any run.
use mathlib.Core.Option.{get_or}
use socketeer.Common.{
  ℕ, ◌≡◌, refl, ap, ◌∙◌, ◌≤◌, ◌+◌, true, false, List, [], ◌++◌, some, ok, ready, map, length,
  append-nil, arith,
}
use socketeer.Message.{Message, websocket_closed}
use socketeer.Runtime.Channel.{ChannelSize, Mpsc}
use socketeer.SocketLoop.Handlers.{TxChannelPayload, Outputs, running, error, closed}
use socketeer.SocketLoop.Task.{Keepalive, Task, Phase, selecting, holding, ended}
use socketeer.SocketLoop.Task.Frames.{in_hand, queued, is_ended, is_received}
use socketeer.SocketLoop.Task.Ending.{Recorded}
use socketeer.Handle.Receive.{
  recv_times, poll_times, endings, stream_endings, recv_raw_drains, poll_recv_raw_drains,
}
use socketeer.Connection.{Connection, Event, start, run}
use socketeer.Connection.Cause.{run_cause}
use socketeer.Connection.Surfaced.{Settled, surfaced, run_surfaces}
use socketeer.Connection.Ledger.{run_in_order, reads}

module _ {X T R : Type 0} ⦃tx : Mpsc TxChannelPayload T⦄ ⦃rx : Mpsc Message R⦄ where
  Recorded-over :
      (p : Phase X) (t : Task X T R)
      → is_ended p ≡ true
      → Recorded p t
      → ((rx.view t.sender).sending ≡ false) × (in_hand p ≡ [])
  Recorded-over selecting t e h = absurd (ground arith)
  Recorded-over (holding m) t e h = absurd (ground arith)
  Recorded-over (ended running) t e h = absurd h
  Recorded-over (ended (error x)) t e h = (ground (arith, h.1), refl)
  Recorded-over (ended closed) t e h = (ground (arith, h.1), refl)

  -- What an ended run leaves in the channel and in the slot.
  pub run_leaves :
      (k : Keepalive) (n : ChannelSize) (o : Outputs X) (es : List (Event X)) (c : Connection X T R)
      → run k (start n o) es ≡ some c
      → is_ended c.phase ≡ true
      → is_received c.task ≡ true
      → (left gone : List Message) × (reads es ≡ (c.delivered ++ left) ++ gone)
        × (length gone ≤ 1)
        × Settled c.phase c.terminal_error (surfaced {T = T} {R = R} k (start n o) es)
        × (queued c.task ≡ left)
        × ((rx.view c.sender).sending ≡ false)
  run_leaves k n o es c e over alive =
      let (gone, order, one, lost) = run_in_order k n o es c e alive in
      let (shut, empty) = Recorded-over c.phase c.task over (run_cause k n o es c e) in
      let (cause, _) = run_surfaces k n o es c e in
      (
        queued c.task,
        gone,
        order
            ∙ ap (λ h. (c.delivered ++ (queued c.task ++ h)) ++ gone) empty
            ∙ ap (λ q. (c.delivered ++ q) ++ gone) (append-nil (queued c.task)),
        one,
        cause,
        refl,
        shut,
      )

  -- The receive side, as a whole: over any run from a new connection whose loop has ended, with a
  -- program that still receives, the data frames that the loop has read are those that the program has
  -- received, those that it still can receive, and at most one more. Its next calls of `recv_raw`, or
  -- polls of the stream, give the frames that are left, in order; then what is in the slot, once; and
  -- after that `WebsocketClosed`, or the end of the stream. What is in the slot is the error that
  -- ended the loop, if it ended with one and no call of the run has given an error out of the slot; if
  -- one has, the first to do so has given that error, and the slot is empty, as it is behind a close.
  pub run_drains :
      (k : Keepalive) (n : ChannelSize) (o : Outputs X) (es : List (Event X)) (c : Connection X T R)
      (j : ℕ)
      → run k (start n o) es ≡ some c
      → is_ended c.phase ≡ true
      → is_received c.task ≡ true
      → (left gone : List Message) × (reads es ≡ (c.delivered ++ left) ++ gone)
        × (length gone ≤ 1)
        × Settled c.phase c.terminal_error (surfaced {T = T} {R = R} k (start n o) es)
        × (recv_times (length left + j) c.sender c.terminal_error
            ≡ map (λ m. ready (ok m)) left ++ endings j (get_or c.terminal_error websocket_closed))
        × (poll_times (length left + j) c.sender c.terminal_error
            ≡ map (λ m. ready (some (ok m))) left ++ stream_endings j c.terminal_error)
  run_drains k n o es c j e over alive =
      let (left, gone, order, one, cause, queue, shut) = run_leaves k n o es c e over alive in
      (
        left,
        gone,
        order,
        one,
        cause,
        recv_raw_drains left j c.sender c.terminal_error queue shut,
        poll_recv_raw_drains left j c.sender c.terminal_error queue shut,
      )
