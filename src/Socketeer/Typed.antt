-- ===== src/Socketeer/Typed.antt =====
-- src/lib.rs and src/split.rs: the calls that encode and decode, on one channel and on the slot.
use socketeer.Common.{ℕ, Option, none, some, Result, ok, err, Poll, ready, pending, ◌>>=◌}
use socketeer.Message.{Message, Error}
use socketeer.Runtime.Channel.{Mpsc}
use socketeer.SocketLoop.Handlers.{TxChannelPayload, Sent}
use socketeer.Handle.Calls.{
  TerminalError, Call, returned, send_confirmed, send_unconfirmed, recv_raw, poll_recv_raw,
}
use socketeer.Codec.{Codec}

-- The calls of `Socketeer` and `SocketeerTx` that encode, on the outgoing channel and the slot.
module _ {X Tx Rx T : Type 0} ⦃tx : Mpsc TxChannelPayload T⦄ (codec : Codec X Tx Rx) where
  unfoldable pub send : T → TerminalError X → Tx → ℕ → T × TerminalError X × Poll (Call X)
  send sender slot value id = elim (codec.encode value) [
    | err e ↦ (sender, slot, ready (returned (err e)))
    | ok m ↦ send_confirmed sender slot m id
  ]

  unfoldable pub send_typed_unconfirmed :
      T → TerminalError X → Tx → T × TerminalError X × Poll (Sent X)
  send_typed_unconfirmed sender slot value = elim (codec.encode value) [
    | err e ↦ (sender, slot, ready (err e))
    | ok m ↦ send_unconfirmed sender slot m
  ]

-- The calls of `Socketeer` and `SocketeerRx` that decode.
module _ {X Tx Rx R : Type 0} ⦃rx : Mpsc Message R⦄ (codec : Codec X Tx Rx) where
  unfoldable pub next_message :
      R → TerminalError X → R × TerminalError X × Poll (Result Rx (Error X))
  next_message receiver slot =
      let (receiver', slot', polled) = recv_raw receiver slot in
      elim polled [
        | pending ↦ (receiver', slot', pending)
        | ready r ↦ (receiver', slot', ready (r >>= codec.decode))
      ]

  unfoldable pub poll_next :
      R → TerminalError X → R × TerminalError X × Poll (Option (Result Rx (Error X)))
  poll_next receiver slot =
      let (receiver', slot', polled) = poll_recv_raw receiver slot in
      elim polled [
        | pending ↦ (receiver', slot', pending)
        | ready none ↦ (receiver', slot', ready none)
        | ready (some r) ↦ (receiver', slot', ready (some (r >>= codec.decode)))
      ]
