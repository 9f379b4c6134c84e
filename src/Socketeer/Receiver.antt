-- ===== src/Socketeer/Receiver.antt =====
-- src/split.rs: the methods of `SocketeerRx`.
use socketeer.Common.{Option, Result, Poll}
use socketeer.Message.{Message, Error}
use socketeer.Runtime.Channel.{Mpsc}
use socketeer.Handle.Calls.{recv_raw}
use socketeer.Socketeer.{SocketeerRx}
use socketeer.Socketeer.Typed
use socketeer.Socketeer.Shared.{World, receiving}

module _ {X Tx Rx S U H T R : Type 0} ⦃rx : Mpsc Message R⦄ where
  unfoldable pub next_raw_message :
      SocketeerRx X Tx Rx S U H → World X T R → World X T R × Poll (Result Message (Error X))
  next_raw_message h = receiving h.receiver h.terminal_error recv_raw

  unfoldable pub next_message :
      SocketeerRx X Tx Rx S U H → World X T R → World X T R × Poll (Result Rx (Error X))
  next_message h = receiving h.receiver h.terminal_error (Typed.next_message h.codec)

  unfoldable pub poll_next :
      SocketeerRx X Tx Rx S U H → World X T R → World X T R × Poll (Option (Result Rx (Error X)))
  poll_next h = receiving h.receiver h.terminal_error (Typed.poll_next h.codec)
