-- ===== src/Connection.antt =====
-- One connection: the task of src/socket_loop.rs and the handle of src/lib.rs and src/split.rs, which
-- meet in the two channels and in the slot. An event is one step of either; a run is a list of events.
-- An event that has to wait is not enabled: `step` is `none`.
pub mod Change
pub mod Kept
pub mod Ledger
pub mod Cause
pub mod Surfaced
pub mod Closed
pub mod Waiting
pub mod Closing
pub mod Going
pub mod Served
pub mod Answered
pub mod Blameless
pub mod Drained
pub mod Effects
pub mod Flushing
pub mod Flushed
pub mod Resuming
pub mod Inbox
pub mod Receiving
pub mod Outbox
pub mod Sending
use mathlib.Core.Option
use socketeer.Common.{ℕ, List, [], ◌∷◌, ◌++◌, Option, none, some, ok, err, ready, pending}
use socketeer.Message.{Message}
use socketeer.Runtime.Channel.{Mpsc, ChannelSize}
use socketeer.Runtime.Oneshot.{forget}
use socketeer.SocketLoop.Handlers.{TxChannelPayload, Outputs}
use socketeer.SocketLoop.Task.{Task, selecting, Keepalive, Arm, socket_loop_split}
use socketeer.Handle.Calls.{send_confirmed, send_unconfirmed, send_close, recv_raw, poll_recv_raw}

pub data Event (X : Type 0) : Type 0 where
  arm : Arm X → Event X
  confirmed : Message → ℕ → Event X
  unconfirmed : Message → Event X
  closing cancel : ℕ → Event X
  receive poll drop_receiver drop_senders : Event X

-- `delivered` is what the program has received so far, oldest first.
pub record Connection (X T R : Type 0) : Type 0 where
  pub task : Task X T R
  pub open task use *
  pub delivered : List Message

module _ {X T R : Type 0} ⦃tx : Mpsc TxChannelPayload T⦄ ⦃rx : Mpsc Message R⦄ where
  -- The channels, the slot and the task that `connect_with_codec` sets up behind the handshake. `n` is
  -- `CHANNEL_SIZE`; the sink is as the handshake left it.
  unfoldable pub start : ChannelSize → Outputs X → Connection X T R
  start n outputs = record {
    task = record {
      phase = selecting;
      receiver = tx.channel n;
      sender = rx.channel n;
      outputs = outputs;
      terminal_error = none;
    };
    delivered = [];
  }

  pub on_confirmed : Connection X T R → Message → ℕ → Option (Connection X T R)
  on_confirmed c m id =
      let (receiver', slot', polled) = send_confirmed c.receiver c.terminal_error m id in
      elim polled [
        | pending ↦ none
        | ready _ ↦
            some
              (record c { task = record c.task { receiver = receiver'; terminal_error = slot' } })
      ]

  pub on_unconfirmed : Connection X T R → Message → Option (Connection X T R)
  on_unconfirmed c m =
      let (receiver', slot', polled) = send_unconfirmed c.receiver c.terminal_error m in
      elim polled [
        | pending ↦ none
        | ready _ ↦
            some
              (record c { task = record c.task { receiver = receiver'; terminal_error = slot' } })
      ]

  pub on_closing : Connection X T R → ℕ → Option (Connection X T R)
  on_closing c id =
      let (receiver', polled) = send_close {X = X} c.receiver id in
      elim polled [
        | pending ↦ none
        | ready _ ↦ some (record c { task = record c.task { receiver = receiver' } })
      ]

  pub on_receive : Connection X T R → Option (Connection X T R)
  on_receive c =
      let (sender', slot', polled) = recv_raw c.sender c.terminal_error in
      let task' = record c.task { sender = sender'; terminal_error = slot' } in
      elim polled [
        | pending ↦ none
        | ready (ok m) ↦ some (record c { task = task'; delivered = c.delivered ++ m ∷ [] })
        | ready (err _) ↦ some (record c { task = task' })
      ]

  pub on_poll : Connection X T R → Option (Connection X T R)
  on_poll c =
      let (sender', slot', polled) = poll_recv_raw c.sender c.terminal_error in
      let task' = record c.task { sender = sender'; terminal_error = slot' } in
      elim polled [
        | pending ↦ none
        | ready (some (ok m)) ↦ some (record c { task = task'; delivered = c.delivered ++ m ∷ [] })
        | ready (some (err _)) ↦ some (record c { task = task' })
        | ready none ↦ some (record c { task = task' })
      ]

  unfoldable pub step : Keepalive → Connection X T R → Event X → Option (Connection X T R)
  unfolding on_confirmed on_unconfirmed on_closing on_receive on_poll
  step k c (arm a) = Option.map (λ t. record c { task = t }) (socket_loop_split k c.task a)
  step k c (confirmed m id) = on_confirmed c m id
  step k c (unconfirmed m) = on_unconfirmed c m
  step k c (closing id) = on_closing c id
  step k c receive = on_receive c
  step k c poll = on_poll c
  step k c drop_receiver =
      some (record c { task = record c.task { sender = rx.drop_receiver c.sender } })
  step k c drop_senders =
      some (record c { task = record c.task { receiver = tx.drop_senders c.receiver } })
  step k c (cancel id) = some (record c {
    task = record c.task {
      outputs = record c.task.outputs { oneshots = forget c.task.outputs.oneshots id };
    };
  })

  -- `none` if some event of the list is not enabled.
  unfoldable pub run : Keepalive → Connection X T R → List (Event X) → Option (Connection X T R)
  run k c [] = some c
  run k c (e ∷ es) = elim (step k c e) [ none ↦ none | some c' ↦ run k c' es ]
