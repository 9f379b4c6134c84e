-- ===== src/SocketLoop/Task/Backpressure.antt =====
-- The wait with one frame in hand: what the task still does, and what it does not.
use mathlib.Core.Option
use socketeer.Common.{◌≡◌, Bool, true, false, arith}
use socketeer.Message.{Message}
use socketeer.Runtime.Channel.{Mpsc}
use socketeer.SocketLoop.Handlers.{TxChannelPayload}
use socketeer.SocketLoop.Task.{
  Phase, selecting, holding, Keepalive, Task, Arm, outgoing, sleep, socket_loop_split, continue,
  still_holding,
}

-- The arms that both `select!`s have.
abbrev pub is_shared : {X : Type 0} → Arm X → Bool
is_shared outgoing = true
is_shared sleep = true
is_shared _ = false

-- A task without the frame in hand: where it would stand in the outer loop.
abbrev pub let_go : {X : Type 0} → Phase X → Phase X
let_go (holding m) = selecting
let_go p = p

module _ {X T R : Type 0} ⦃tx : Mpsc TxChannelPayload T⦄ ⦃rx : Mpsc Message R⦄ where
  abbrev pub without_frame : Task X T R → Task X T R
  without_frame t = record t { phase = let_go t.phase }

  -- While a frame is held, a send of the program and a keepalive are served as they are without it: the
  -- arm is ready in the same cases, with the same effect on the sink, the one-shots, the channels and
  -- the slot; and the loop ends in the same cases.
  pub holding_serves :
      (k : Keepalive) (t : Task X T R) (m : Message) (a : Arm X)
      → t.phase ≡ holding m
      → is_shared a ≡ true
      → Option.map without_frame (socket_loop_split k t a) ≡ socket_loop_split k (without_frame t) a
  unfolding socket_loop_split continue still_holding
  holding_serves k t m outgoing e s = ground arith
  holding_serves k t m sleep e s = ground arith
  holding_serves k t m _ e s = cc
