-- ===== src/SocketLoop/Task.antt =====
-- src/socket_loop.rs: `socket_loop_split` and `deliver_with_backpressure` as one machine. A `select!`
-- waits for several futures and runs the arm of one that is ready; an `Arm` says which. The futures of
-- the network and of the timer complete when the environment wants, those of the channels when the
-- channel is ready.
pub mod Arms
pub mod Frames
pub mod Readiness
pub mod Ending
pub mod Backpressure
pub mod Senders
pub mod Slot
pub mod Halting
use socketeer.Common.{ℕ, Option, none, some, Result, ok, err, ready, pending}
use socketeer.Message.{Message, Error, dropped_without_closing}
use socketeer.Runtime.Channel.{Mpsc, full, closed as gone}
use socketeer.Runtime.Sink.{Sink}
use socketeer.SocketLoop.Handlers.{
  TxChannelPayload, LoopState, running, error, closed, Incoming, state, deliver, Outputs,
  send_socket_message, handle_incoming, send_keepalive,
}

-- Where the task waits: in the `select!` of the loop, in that of `deliver_with_backpressure` with one
-- frame in hand, or nowhere, since it has returned.
pub data Phase (X : Type 0) : Type 0 where
  selecting : Phase X
  holding : Message → Phase X
  ended : LoopState X → Phase X

-- The two parameters of the loop that come from the options. Times are milliseconds.
pub record Keepalive : Type 0 where
  pub interval : Option ℕ
  pub message : Option Message

-- The task with the ends of the channels that it owns, and the slot that it shares with the handle.
pub record Task (X T R : Type 0) : Type 0 where
  pub phase : Phase X
  pub receiver : T
  pub sender : R
  pub outputs : Outputs X
  pub open outputs use *
  pub terminal_error : Option (Error X)

pub data Arm (X : Type 0) : Type 0 where
  outgoing sleep permit : Arm X
  incoming : Option (Result Message X) → Arm X

-- What delivering a frame comes to: a state of the loop, or a wait with the frame in hand.
pub data Delivery (X : Type 0) : Type 0 where
  done : LoopState X → Delivery X
  hold : Message → Delivery X

-- The fast path of `deliver_with_backpressure`.
pub try_deliver : {X R : Type 0} ⦃rx : Mpsc Message R⦄ → Message → R → R × Delivery X
try_deliver ⦃rx⦄ m sender =
    let (sender', sent) = rx.try_send sender m in
    elim sent [
      | ok _ ↦ (sender', done running)
      | err (gone _) ↦ (sender', done (error dropped_without_closing))
      | err (full held) ↦ (sender', hold held)
    ]

abbrev pub with_sink : {X T R : Type 0} → Task X T R → Sink X → Task X T R
with_sink t s = record t { outputs = record t.outputs { sink = s } }

module _ {X T R : Type 0} ⦃tx : Mpsc TxChannelPayload T⦄ ⦃rx : Mpsc Message R⦄ where
  -- The code behind the loop: the cause is recorded, and the channels drop after that.
  pub finish : Task X T R → LoopState X → Task X T R
  finish t s = record t {
    phase = ended s;
    receiver = tx.drop_receiver t.receiver;
    sender = rx.drop_senders t.sender;
    terminal_error = elim s [ error e ↦ some e | _ ↦ t.terminal_error ];
  }

  -- `while matches!(state, LoopState::Running)`
  pub continue : Task X T R → LoopState X → Task X T R
  unfolding finish
  continue t running = record t { phase = selecting }
  continue t (error e) = finish t (error e)
  continue t closed = finish t closed

  pub after_delivery : Task X T R → Delivery X → Task X T R
  unfolding continue
  after_delivery t (done s) = continue t s
  after_delivery t (hold m) = record t { phase = holding m }

  pub after_incoming : Task X T R → Incoming X → Task X T R
  unfolding continue try_deliver after_delivery
  after_incoming t (state s) = continue t s
  after_incoming t (deliver m) =
      let (sender', d) = try_deliver m t.sender in after_delivery (record t { sender = sender' }) d

  -- In the inner loop `LoopState::Running => {}` waits again, with the frame in hand.
  pub still_holding : Message → Task X T R → LoopState X → Task X T R
  unfolding finish
  still_holding m t running = record t { phase = holding m }
  still_holding m t (error e) = finish t (error e)
  still_holding m t closed = finish t closed

  -- `outgoing = receiver.recv()`, in either `select!`.
  pub on_outgoing : (Task X T R → LoopState X → Task X T R) → Task X T R → Option (Task X T R)
  on_outgoing go_on t =
      let (receiver', polled) = tx.recv t.receiver in
      elim polled [
        | pending ↦ none
        | ready payload ↦
            let (outputs', s) = send_socket_message payload t.outputs in
            some (go_on (record t { receiver = receiver'; outputs = outputs' }) s)
      ]

  -- `() = sleep(interval)`, an arm that is there only with an interval.
  pub on_sleep :
      Keepalive → (Task X T R → LoopState X → Task X T R) → Task X T R → Option (Task X T R)
  on_sleep k go_on t = elim k.interval [
    | none ↦ none
    | some _ ↦
        let (sink', s) = send_keepalive t.sink k.message in some (go_on (with_sink t sink') s)
  ]

  pub on_incoming : Option (Result Message X) → Task X T R → Task X T R
  unfolding after_incoming
  on_incoming item t =
      let (sink', i) = handle_incoming item t.sink in after_incoming (with_sink t sink') i

  -- `permit = sender.reserve()`
  pub on_permit : Message → Task X T R → Option (Task X T R)
  unfolding continue
  on_permit m t = elim (rx.reserve t.sender) [
    | pending ↦ none
    | ready (ok _) ↦ some (continue (record t { sender = rx.permit_send t.sender m }) running)
    | ready (err _) ↦ some (continue t (error dropped_without_closing))
  ]

  -- One arm of the `select!` at which the task waits; `none` if that `select!` has no such arm, or
  -- the arm is not ready.
  pub take_arm : Keepalive → Phase X → Task X T R → Arm X → Option (Task X T R)
  unfolding on_outgoing on_sleep on_incoming on_permit still_holding
  take_arm k selecting t outgoing = on_outgoing continue t
  take_arm k selecting t sleep = on_sleep k continue t
  take_arm k selecting t (incoming item) = some (on_incoming item t)
  take_arm k selecting t permit = none
  take_arm k (holding m) t outgoing = on_outgoing (still_holding m) t
  take_arm k (holding m) t sleep = on_sleep k (still_holding m) t
  take_arm k (holding m) t permit = on_permit m t
  take_arm k (holding m) t (incoming item) = none
  take_arm k (ended s) t arm = none

  unfoldable pub socket_loop_split : Keepalive → Task X T R → Arm X → Option (Task X T R)
  unfolding take_arm
  socket_loop_split k t arm = take_arm k t.phase t arm
