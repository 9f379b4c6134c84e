-- ===== src/Socketeer/Drained.antt =====
-- src/lib.rs: what a connection that has ended still gives to a program that decodes, over any run.
use mathlib.Core.Option.{get_or}
use socketeer.Common.{ℕ, ◌≡◌, ◌≤◌, ◌+◌, true, List, ◌++◌, some, ready, map, length}
use socketeer.Message.{Message, websocket_closed}
use socketeer.Runtime.Channel.{ChannelSize, Mpsc}
use socketeer.SocketLoop.Handlers.{TxChannelPayload, Outputs}
use socketeer.SocketLoop.Task.{Keepalive}
use socketeer.SocketLoop.Task.Frames.{is_ended, is_received}
use socketeer.Handle.Receive.{endings, stream_endings}
use socketeer.Codec.{Codec}
use socketeer.Connection.{Connection, Event, start, run}
use socketeer.Connection.Ledger.{reads}
use socketeer.Connection.Drained.{run_leaves}
use socketeer.Connection.Surfaced.{Settled, surfaced}
use socketeer.Socketeer.Decoding.{
  next_times, poll_next_times, next_message_drains, poll_next_drains,
}

module _ {X Tx Rx T R : Type 0} ⦃tx : Mpsc TxChannelPayload T⦄ ⦃rx : Mpsc Message R⦄
    (codec : Codec X Tx Rx) where
  -- The receive side of a program that decodes: over any run from a new connection whose loop has
  -- ended, with a program that still receives, the frames that the loop has read are those that have
  -- been received, some that are left, and at most one more. The next calls of `next_message`, or
  -- polls of the stream, give what the codec makes of each frame that is left, in order, and go on
  -- behind one that does not decode; then what is in the slot, once; and after that `WebsocketClosed`,
  -- or the end of the stream. What is in the slot is the error that ended the loop, if it ended with
  -- one and no call of the run has given an error out of the slot; if one has, the first to do so has
  -- given that error, and the slot is empty, as it is behind a close.
  pub run_decodes :
      (k : Keepalive) (n : ChannelSize) (o : Outputs X) (es : List (Event X)) (c : Connection X T R)
      (j : ℕ)
      → run k (start n o) es ≡ some c
      → is_ended c.phase ≡ true
      → is_received c.task ≡ true
      → (left gone : List Message) × (reads es ≡ (c.delivered ++ left) ++ gone)
        × (length gone ≤ 1)
        × Settled c.phase c.terminal_error (surfaced {T = T} {R = R} k (start n o) es)
        × (next_times codec (length left + j) c.sender c.terminal_error
            ≡ map (λ m. ready (codec.decode m)) left
              ++ endings j (get_or c.terminal_error websocket_closed))
        × (poll_next_times codec (length left + j) c.sender c.terminal_error
            ≡ map (λ m. ready (some (codec.decode m))) left ++ stream_endings j c.terminal_error)
  run_decodes k n o es c j e over alive =
      let (left, gone, order, one, cause, queue, shut) = run_leaves k n o es c e over alive in
      (
        left,
        gone,
        order,
        one,
        cause,
        next_message_drains codec left j c.sender c.terminal_error queue shut,
        poll_next_drains codec left j c.sender c.terminal_error (queue, shut),
      )
