-- ===== src/Connection/Closing.antt =====
-- src/lib.rs: `close_connection`, and the sending of the close frame that it shares with `reconnect`,
-- on one connection. Each time the call awaits, the task takes some arms, which are the environment's
-- choice.
use socketeer.Common.{ℕ, List, map, none, some, err, Poll, ready, pending}
use socketeer.Runtime.Channel.{Mpsc}
use socketeer.Message.{Message}
use socketeer.SocketLoop.Handlers.{TxChannelPayload, Sent, running}
use socketeer.SocketLoop.Task.{Keepalive, Arm, Phase, ended}
use socketeer.Handle.Calls.{
  TerminalError, Call, awaits, returned, panicked, take_terminal_error_opt, send_close,
}
use socketeer.Connection.Waiting.{resume}
use socketeer.Connection.{Connection, arm, run}

-- How an async call has come to an end: `crashed` is a panic, and `unfinished` a wait that is not over.
pub data Ending (A : Type 0) : Type 0 where
  unfinished crashed : Ending A
  finished : A → Ending A

-- Behind the wait for the one-shot.
abbrev pub settled : {X : Type 0} → Poll (Call X) → Ending (Sent X)
settled (ready (returned r)) = finished r
settled (ready panicked) = crashed
settled (ready (awaits id)) = unfinished
settled pending = unfinished

-- `self.socket_handle.await`, and the read of the slot behind it. A loop that is left while it is
-- `Running` panics at its `unreachable!`, and the await of it fails.
abbrev pub after_join : {X : Type 0} → Phase X → TerminalError X → Sent X → Ending (Sent X)
after_join (ended running) slot close_sent = crashed
after_join (ended s) slot close_sent = elim (take_terminal_error_opt slot).1 [
  | some e ↦ finished (err e)
  | none ↦ finished close_sent
]
after_join p slot close_sent = unfinished

module _ {X T R : Type 0} ⦃tx : Mpsc TxChannelPayload T⦄ ⦃rx : Mpsc Message R⦄ where
  -- `send_close(&self.sender).await`: the payload is queued, the task takes `arms`, and the call is
  -- looked at again. A close that cannot be queued returns at once; the task takes no arm.
  unfoldable pub await_close :
      Keepalive → ℕ → List (Arm X) → Connection X T R → Connection X T R × Ending (Sent X)
  await_close k id arms c =
      let (receiver', polled) = send_close {X = X} c.receiver id in
      let c' = record c { task = record c.task { receiver = receiver' } } in
      elim polled [
        | pending ↦ (c', unfinished)
        | ready (returned r) ↦ (c', finished r)
        | ready panicked ↦ (c', crashed)
        | ready (awaits j) ↦ elim (run k c' (map arm arms)) [
          | none ↦ (c', unfinished)
          | some c'' ↦ (c'', settled (resume j c''))
        ]
      ]

  -- `arms` are those that the task takes while `send_close` waits, and `last` those until the task is
  -- joined.
  unfoldable pub close_connection :
      Keepalive
      → ℕ
      → List (Arm X)
      → List (Arm X)
      → Connection X T R
      → Connection X T R × Ending (Sent X)
  unfolding await_close
  close_connection k id arms last c =
      let (c', sent) = await_close k id arms c in
      elim sent [
        | crashed ↦ (c', crashed)
        | unfinished ↦ (c', unfinished)
        | finished close_sent ↦ elim (run k c' (map arm last)) [
          | none ↦ (c', unfinished)
          | some c'' ↦ (c'', after_join c''.phase c''.terminal_error close_sent)
        ]
      ]
