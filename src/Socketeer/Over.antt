-- ===== src/Socketeer/Over.antt =====
-- The calls of the halves once the loop has ended and its frames have been received: what is left of
-- the connection is its slot.
use mathlib.Core.Option.{get_or}
use socketeer.Common.{
  ◌≡◌, refl, ap, ◌∙◌, List, [], ◌∷◌, none, some, ok, err, ready, All, arith, ==_refl,
}
use socketeer.Message.{Message, websocket_closed}
use socketeer.Runtime.Channel.{Mpsc}
use socketeer.SocketLoop.Handlers.{TxChannelPayload}
use socketeer.Handle.Calls.{
  returned, TerminalError, send_confirmed, send_unconfirmed, send_close, recv_raw, poll_recv_raw,
}
use socketeer.Handle.Surfacing.{IsOver}
use socketeer.Codec.{Codec}
use socketeer.Socketeer.{Socketeer}
use socketeer.Socketeer.Shared.{World}
use socketeer.Socketeer.Typed
use socketeer.Socketeer.Sender
use socketeer.Socketeer.Receiver
use socketeer.Socketeer.Sharing.{
  HalfCall, confirmed, confirmed_raw, unconfirmed, unconfirmed_raw, closing, next, next_raw,
  polling, background, Answer, nothing, called, queued, raw, value, item, call_half, calls,
}

-- No change by the task, which has returned.
abbrev pub IsCall : {X Tx T R : Type 0} → HalfCall X Tx T R → Type 0
IsCall (background f) = ⊥
IsCall x = Unit

module _ {X Tx Rx T R : Type 0} where
  -- A call takes what is in the slot, and gives it as its error, or `WebsocketClosed` if the slot is
  -- empty; for a stream an empty slot is the end. A value that does not encode, and a close, leave the
  -- slot alone.
  abbrev pub slot_step :
      Codec X Tx Rx → TerminalError X → HalfCall X Tx T R → TerminalError X × Answer X Rx
  slot_step codec slot (confirmed v id) = elim (codec.encode v) [
    | err e ↦ (slot, called (ready (returned (err e))))
    | ok m ↦ (none, called (ready (returned (err (get_or slot websocket_closed)))))
  ]
  slot_step codec slot (confirmed_raw m id) =
      (none, called (ready (returned (err (get_or slot websocket_closed)))))
  slot_step codec slot (unconfirmed v) = elim (codec.encode v) [
    | err e ↦ (slot, queued (ready (err e)))
    | ok m ↦ (none, queued (ready (err (get_or slot websocket_closed))))
  ]
  slot_step codec slot (unconfirmed_raw m) =
      (none, queued (ready (err (get_or slot websocket_closed))))
  slot_step codec slot (closing id) = (slot, called (ready (returned (err websocket_closed))))
  slot_step codec slot next = (none, value (ready (err (get_or slot websocket_closed))))
  slot_step codec slot next_raw = (none, raw (ready (err (get_or slot websocket_closed))))
  slot_step codec none polling = (none, item (ready none))
  slot_step codec (some e) polling = (none, item (ready (some (err e))))
  slot_step codec slot (background f) = (slot, nothing)

  abbrev pub slot_answers :
      Codec X Tx Rx → TerminalError X → List (HalfCall X Tx T R) → List (Answer X Rx)
  slot_answers codec slot [] = []
  slot_answers codec slot (x ∷ xs) =
      let (slot', answer) = slot_step codec slot x in answer ∷ slot_answers codec slot' xs

module _ {X Tx Rx S U H T R : Type 0} ⦃tx : Mpsc TxChannelPayload T⦄ ⦃rx : Mpsc Message R⦄ where
  abbrev HasEnded : Socketeer X Tx Rx S U H → World X T R → Type 0
  HasEnded s w = IsOver (w.outgoing s.sender) (w.incoming s.receiver)

  abbrev Steps : Socketeer X Tx Rx S U H → HalfCall X Tx T R → World X T R → Type 0
  Steps s x w =
      let (slot', answer) = slot_step s.codec (w.slots s.terminal_error) x in
      ((call_half s x w).1 ≡ answer)
      × ((call_half s x w).0.slots s.terminal_error ≡ slot')
      × HasEnded s (call_half s x w).0

  call_half-Steps :
      (s : Socketeer X Tx Rx S U H) (x : HalfCall X Tx T R) (w : World X T R)
      → HasEnded s w
      → IsCall x
      → Steps s x w
  unfolding call_half Sender.send Sender.send_raw Sender.send_unconfirmed
      Sender.send_raw_unconfirmed Sender.close Receiver.next_message Receiver.next_raw_message
      Receiver.poll_next Typed.send Typed.send_typed_unconfirmed Typed.next_message Typed.poll_next
      send_confirmed send_unconfirmed send_close recv_raw poll_recv_raw
  call_half-Steps s x w h c = ground (
    arith,
    tx.reserve_lem (w.outgoing s.sender),
    rx.result-recv (w.incoming s.receiver),
    rx.view-recv (w.incoming s.receiver),
    ==_refl s.sender,
    ==_refl s.receiver,
    ==_refl s.terminal_error,
  )

  -- Once the loop has ended and its frames have been received, the answers to any calls on the halves
  -- of a handle, or on clones of them, in any order, are those of the slot alone: the first call that
  -- takes the recorded cause gets it, every later one gets `WebsocketClosed`, or the end of the
  -- stream, and none of them waits.
  pub calls_over :
      (s : Socketeer X Tx Rx S U H) (xs : List (HalfCall X Tx T R)) (w : World X T R)
      → IsOver (w.outgoing s.sender) (w.incoming s.receiver)
      → All IsCall xs
      → (calls s xs w).1 ≡ slot_answers s.codec (w.slots s.terminal_error) xs
  unfolding calls
  calls_over s [] w h c = refl
  calls_over s (x ∷ xs) w h c =
      let (answer, slot, over) = call_half-Steps s x w h c.0 in
      ap (◌∷◌ (call_half s x w).1) (calls_over s xs (call_half s x w).0 over c.1)
      ∙ ap (λ l. (call_half s x w).1 ∷ slot_answers s.codec l xs) slot
      ∙ ap (λ a. a ∷ slot_answers s.codec (slot_step s.codec (w.slots s.terminal_error) x).0 xs)
          answer
