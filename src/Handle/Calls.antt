-- ===== src/Handle/Calls.antt =====
-- src/socket_loop.rs: `take_terminal_error`, `send_confirmed`, `send_unconfirmed`, `send_close`,
-- `recv_raw`, `poll_recv_raw`.
use mathlib.Core.Option.{get_or}
use socketeer.Common.{ℕ, Option, none, some, Result, ok, err, Poll, ready, pending}
use socketeer.Message.{Message, close, normal, Error, websocket_closed}
use socketeer.Runtime.Channel.{Mpsc, poll_send}
use socketeer.SocketLoop.Handlers.{TxChannelPayload, Sent}

-- A call that waits for the answer on its one-shot, or that has come to an end. `panicked` is the
-- `unreachable!` behind the wait.
pub data Call (X : Type 0) : Type 0 where
  awaits : ℕ → Call X
  returned : Sent X → Call X
  panicked : Call X

-- The slot where the loop records why it ended.
abbrev pub TerminalError : Type 0 → Type 0
TerminalError X = Option (Error X)

abbrev pub close_message : Message
close_message = close (some (record { code = normal; reason = "Closing Connection" }))

module _ {X : Type 0} where
  -- What stays in the slot, and what was in it.
  unfoldable pub take_terminal_error_opt : TerminalError X → TerminalError X × Option (Error X)
  take_terminal_error_opt slot = (none, slot)

  unfoldable pub take_terminal_error : TerminalError X → TerminalError X × Error X
  unfolding take_terminal_error_opt
  take_terminal_error slot =
      let (slot', cause) = take_terminal_error_opt slot in (slot', get_or cause websocket_closed)

  -- `match rx.await`: an `err` says that the sending end of the one-shot was dropped.
  unfoldable pub confirm : Result (Sent X) (Unit {0}) → Call X
  confirm (ok result) = returned result
  confirm (err _) = panicked

module _ {X T : Type 0} ⦃tx : Mpsc TxChannelPayload T⦄ where
  -- Up to the wait for the one-shot `id`.
  unfoldable pub send_confirmed :
      T → TerminalError X → Message → ℕ → T × TerminalError X × Poll (Call X)
  unfolding take_terminal_error
  send_confirmed sender slot m id =
      let (sender', polled) =
        poll_send ⦃ch = tx⦄ sender (record { message = m; response_tx = some id }) in
      let (slot', e) = take_terminal_error slot in
      elim polled [
        | pending ↦ (sender', slot, pending)
        | ready (ok _) ↦ (sender', slot, ready (awaits id))
        | ready (err _) ↦ (sender', slot', ready (returned (err e)))
      ]

  unfoldable pub send_unconfirmed :
      T → TerminalError X → Message → T × TerminalError X × Poll (Sent X)
  unfolding take_terminal_error
  send_unconfirmed sender slot m =
      let (sender', polled) =
        poll_send ⦃ch = tx⦄ sender (record { message = m; response_tx = none }) in
      let (slot', e) = take_terminal_error slot in
      elim polled [
        | pending ↦ (sender', slot, pending)
        | ready (ok _) ↦ (sender', slot, ready (ok tt))
        | ready (err _) ↦ (sender', slot', ready (err e))
      ]

-- Up to the wait for the one-shot `id`. The slot is not consulted.
unfoldable pub send_close :
    {X T : Type 0} ⦃tx : Mpsc TxChannelPayload T⦄ → T → ℕ → T × Poll (Call X)
send_close ⦃tx⦄ sender id =
    let (sender', polled) =
      poll_send ⦃ch = tx⦄ sender (record { message = close_message; response_tx = some id }) in
    elim polled [
      | pending ↦ (sender', pending)
      | ready (ok _) ↦ (sender', ready (awaits id))
      | ready (err _) ↦ (sender', ready (returned (err websocket_closed)))
    ]

module _ {X R : Type 0} ⦃rx : Mpsc Message R⦄ where
  unfoldable pub recv_raw :
      R → TerminalError X → R × TerminalError X × Poll (Result Message (Error X))
  unfolding take_terminal_error
  recv_raw receiver slot =
      let (receiver', polled) = rx.recv receiver in
      let (slot', e) = take_terminal_error slot in
      elim polled [
        | pending ↦ (receiver', slot, pending)
        | ready (some m) ↦ (receiver', slot, ready (ok m))
        | ready none ↦ (receiver', slot', ready (err e))
      ]

  unfoldable pub poll_recv_raw :
      R → TerminalError X → R × TerminalError X × Poll (Option (Result Message (Error X)))
  unfolding take_terminal_error_opt
  poll_recv_raw receiver slot =
      let (receiver', polled) = rx.recv receiver in
      let (slot', cause) = take_terminal_error_opt slot in
      elim polled [
        | pending ↦ (receiver', slot, pending)
        | ready (some m) ↦ (receiver', slot, ready (some (ok m)))
        | ready none ↦
            (receiver', slot', ready (elim cause [ some e ↦ some (err e) | none ↦ none ]))
      ]
