-- ===== src/Socketeer/Sender.antt =====
-- src/split.rs: the methods of `SocketeerTx`.
use socketeer.Common.{ℕ, Poll}
use socketeer.Message.{Message}
use socketeer.Runtime.Channel.{Mpsc}
use socketeer.SocketLoop.Handlers.{TxChannelPayload, Sent}
use socketeer.Handle.Calls.{Call, send_confirmed, send_unconfirmed as enqueue, send_close}
use socketeer.Socketeer.{SocketeerTx}
use socketeer.Socketeer.Typed
use socketeer.Socketeer.Shared.{World, sending}

module _ {X Tx Rx T R : Type 0} ⦃tx : Mpsc TxChannelPayload T⦄ where
  unfoldable pub send_raw :
      SocketeerTx X Tx Rx → Message → ℕ → World X T R → World X T R × Poll (Call X)
  send_raw h message id =
      sending h.sender h.terminal_error (λ c slot. send_confirmed c slot message id)

  unfoldable pub send : SocketeerTx X Tx Rx → Tx → ℕ → World X T R → World X T R × Poll (Call X)
  send h message id =
      sending h.sender h.terminal_error (λ c slot. Typed.send h.codec c slot message id)

  unfoldable pub send_raw_unconfirmed :
      SocketeerTx X Tx Rx → Message → World X T R → World X T R × Poll (Sent X)
  send_raw_unconfirmed h message =
      sending h.sender h.terminal_error (λ c slot. enqueue c slot message)

  unfoldable pub send_unconfirmed :
      SocketeerTx X Tx Rx → Tx → World X T R → World X T R × Poll (Sent X)
  send_unconfirmed h message =
      sending h.sender h.terminal_error
        (λ c slot. Typed.send_typed_unconfirmed h.codec c slot message)

  -- The slot is not consulted.
  unfoldable pub close : SocketeerTx X Tx Rx → ℕ → World X T R → World X T R × Poll (Call X)
  close h id =
      sending h.sender h.terminal_error
        (λ c slot. let (c', polled) = send_close c id in (c', slot, polled))
