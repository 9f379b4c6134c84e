-- ===== src/SocketLoop/Clock.antt =====
-- src/socket_loop.rs: the timer. Each time the task comes to a `select!`, it makes a new `sleep`; so a
-- step has a delay, counted in milliseconds from there, and the arm of the timer needs a delay of at
-- least the interval. The time that an arm itself takes is not counted.
pub mod Parked
pub mod Idle
use socketeer.Common.{
  ℕ, Bool, true, false, List, [], ◌∷◌, Option, none, some, leb, ◌+◌, zero, suc, if◌then◌else◌,
}
use socketeer.Message.{Message}
use socketeer.Runtime.Channel.{Mpsc}
use socketeer.SocketLoop.Handlers.{TxChannelPayload}
use socketeer.SocketLoop.Task.{
  Keepalive, Task, Arm, outgoing, sleep, permit, incoming, socket_loop_split,
}

pub record Tick (X : Type 0) : Type 0 where
  pub delay : ℕ
  pub arm : Arm X

-- tokio: a `sleep` does not complete before its time.
abbrev pub has_elapsed : {X : Type 0} → Keepalive → Tick X → Bool
has_elapsed k t = elim t.arm [
  | sleep ↦ elim k.interval [ none ↦ false | some interval ↦ leb interval t.delay ]
  | _ ↦ true
]

module _ {X T R : Type 0} ⦃tx : Mpsc TxChannelPayload T⦄ ⦃rx : Mpsc Message R⦄ where
  unfoldable pub timed_step : Keepalive → Task X T R → Tick X → Option (Task X T R)
  timed_step k t tick = if has_elapsed k tick then socket_loop_split k t tick.arm else none

  unfoldable pub timed_run : Keepalive → Task X T R → List (Tick X) → Option (Task X T R)
  unfolding timed_step
  timed_run k t [] = some t
  timed_run k t (tick ∷ ticks) = elim (timed_step k t tick) [
    | none ↦ none
    | some t' ↦ timed_run k t' ticks
  ]

-- How long a run takes.
abbrev pub elapsed : {X : Type 0} → List (Tick X) → ℕ
elapsed [] = 0
elapsed (tick ∷ ticks) = tick.delay + elapsed ticks
