-- ===== src/Handle/Surfacing.antt =====
-- src/socket_loop.rs: which call of the handle gets the recorded cause.
use mathlib.Core.Option.{get_or}
use socketeer.Common.{ℕ, ◌≡◌, false, [], err, ready, arith}
use socketeer.Message.{Message, websocket_closed}
use socketeer.Runtime.Channel.{Mpsc}
use socketeer.SocketLoop.Handlers.{TxChannelPayload}
use socketeer.Handle.Calls.{
  returned, TerminalError, send_confirmed, send_unconfirmed, send_close, recv_raw,
}

module _ {T R : Type 0} ⦃tx : Mpsc TxChannelPayload T⦄ ⦃rx : Mpsc Message R⦄ where
  -- Both channels of a handle whose loop has ended, with no frame left.
  abbrev pub IsOver : T → R → Type 0
  IsOver sender receiver =
      ((tx.view sender).receiving ≡ false)
      × ((rx.view receiver).queue ≡ [])
      × ((rx.view receiver).sending ≡ false)

module _ {X T R : Type 0} ⦃tx : Mpsc TxChannelPayload T⦄ ⦃rx : Mpsc Message R⦄ where
  -- Once the loop has ended and its frames have been received, no call waits, and the first of a send
  -- and a receive, in either order, confirmed or not, returns the recorded cause (`WebsocketClosed` if
  -- there is none), and the second returns `WebsocketClosed`. `send_close` returns `WebsocketClosed`
  -- in any case.
  pub cause_surfaces_once :
      (sender : T) (receiver : R) (slot : TerminalError X) (m : Message) (id : ℕ)
      → IsOver sender receiver
      → let cause = get_or slot websocket_closed in
        let (_, slot1, sent) = send_confirmed sender slot m id in
        let (_, slot2, queued) = send_unconfirmed sender slot m in
        let (_, slot3, received) = recv_raw receiver slot in
        (sent ≡ ready (returned (err cause)))
        × ((recv_raw receiver slot1).2 ≡ ready (err websocket_closed))
        × (queued ≡ ready (err cause))
        × ((recv_raw receiver slot2).2 ≡ ready (err websocket_closed))
        × (received ≡ ready (err cause))
        × ((send_confirmed sender slot3 m id).2 ≡ ready (returned (err websocket_closed)))
        × ((send_close {X = X} sender id).1 ≡ ready (returned (err websocket_closed)))
  unfolding send_confirmed send_unconfirmed send_close recv_raw
  cause_surfaces_once sender receiver slot m id h = (
    ground (arith, tx.reserve_lem sender),
    ground (arith, tx.reserve_lem sender, rx.result-recv receiver),
    ground (arith, tx.reserve_lem sender),
    ground (arith, tx.reserve_lem sender, rx.result-recv receiver),
    ground (arith, rx.result-recv receiver),
    ground (arith, tx.reserve_lem sender, rx.result-recv receiver),
    ground (arith, tx.reserve_lem sender),
  )
