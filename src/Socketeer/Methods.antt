-- ===== src/Socketeer/Methods.antt =====
-- src/lib.rs: the methods of `Socketeer` that send and receive.
use socketeer.Common.{ℕ, Option, Result, Poll}
use socketeer.Message.{Message, Error}
use socketeer.Runtime.Channel.{Mpsc}
use socketeer.SocketLoop.Handlers.{TxChannelPayload}
use socketeer.Handle.Calls.{Call, send_confirmed, recv_raw}
use socketeer.Socketeer.{Socketeer}
use socketeer.Socketeer.Typed
use socketeer.Socketeer.Shared.{World, sending, receiving}

module _ {X Tx Rx S U H T R : Type 0} ⦃tx : Mpsc TxChannelPayload T⦄ where
  unfoldable pub send_raw :
      Socketeer X Tx Rx S U H → Message → ℕ → World X T R → World X T R × Poll (Call X)
  send_raw s message id =
      sending s.sender s.terminal_error (λ c slot. send_confirmed c slot message id)

  unfoldable pub send : Socketeer X Tx Rx S U H → Tx → ℕ → World X T R → World X T R × Poll (Call X)
  send s message id =
      sending s.sender s.terminal_error (λ c slot. Typed.send s.codec c slot message id)

module _ {X Tx Rx S U H T R : Type 0} ⦃rx : Mpsc Message R⦄ where
  unfoldable pub next_raw_message :
      Socketeer X Tx Rx S U H → World X T R → World X T R × Poll (Result Message (Error X))
  next_raw_message s = receiving s.receiver s.terminal_error recv_raw

  unfoldable pub next_message :
      Socketeer X Tx Rx S U H → World X T R → World X T R × Poll (Result Rx (Error X))
  next_message s = receiving s.receiver s.terminal_error (Typed.next_message s.codec)

  unfoldable pub poll_next :
      Socketeer X Tx Rx S U H → World X T R → World X T R × Poll (Option (Result Rx (Error X)))
  poll_next s = receiving s.receiver s.terminal_error (Typed.poll_next s.codec)
