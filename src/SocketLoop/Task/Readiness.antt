-- ===== src/SocketLoop/Task/Readiness.antt =====
-- Which arms are ready, in terms of what can be seen of the channels.
use socketeer.Common.{
  ◌≡◌, refl, Bool, true, false, List, [], ◌∷◌, Option, none, some, arith, ◌||◌, not,
}
use socketeer.Message.{Message}
use socketeer.Runtime.Channel.{Mpsc, has_room}
use socketeer.SocketLoop.Handlers.{TxChannelPayload, LoopState}
use socketeer.SocketLoop.Task.{
  Phase, selecting, holding, ended, Keepalive, Task, Arm, outgoing, sleep, permit, incoming,
  socket_loop_split, continue, still_holding, on_outgoing, take_arm,
}

abbrev pub is_some : {A : Type 0} → Option A → Bool
is_some (some a) = true
is_some none = false

-- A `recv` completes: there is a value, or no sender is left.
abbrev pub can_recv : {A : Type 0} → List A → Bool → Bool
can_recv [] sending = not sending
can_recv (a ∷ q) sending = true

module _ {X T R : Type 0} ⦃tx : Mpsc TxChannelPayload T⦄ ⦃rx : Mpsc Message R⦄ where
  -- The outer loop waits for the program, the network and the timer; with a frame in hand the task
  -- waits for the program, the timer and room in the channel, and never reads the network.
  abbrev pub is_ready : Keepalive → Phase X → Task X T R → Arm X → Bool
  is_ready k (ended s) t a = false
  is_ready k p t outgoing = can_recv (tx.view t.receiver).queue (tx.view t.receiver).sending
  is_ready k p t sleep = is_some k.interval
  is_ready k selecting t (incoming i) = true
  is_ready k selecting t permit = false
  is_ready k (holding m) t (incoming i) = false
  is_ready k (holding m) t permit = not (rx.view t.sender).receiving || has_room (rx.view t.sender)

  on_outgoing-can_recv :
      (q : List TxChannelPayload) (go_on : Task X T R → LoopState X → Task X T R) (t : Task X T R)
      → (tx.view t.receiver).queue ≡ q
      → is_some (on_outgoing go_on t) ≡ can_recv q (tx.view t.receiver).sending
  unfolding on_outgoing
  on_outgoing-can_recv [] go_on t e = ground (arith, tx.result-recv t.receiver)
  on_outgoing-can_recv (p ∷ q) go_on t e = ground (arith, tx.result-recv t.receiver)

  take_arm-is_ready :
      (k : Keepalive) (p : Phase X) (t : Task X T R) (a : Arm X)
      → is_some (take_arm k p t a) ≡ is_ready k p t a
  unfolding take_arm
  take_arm-is_ready k selecting t outgoing = on_outgoing-can_recv _ continue t refl
  take_arm-is_ready k selecting t sleep = ground arith
  take_arm-is_ready k selecting t permit = refl
  take_arm-is_ready k selecting t (incoming i) = refl
  take_arm-is_ready k (holding m) t outgoing = on_outgoing-can_recv _ (still_holding m) t refl
  take_arm-is_ready k (holding m) t sleep = ground arith
  take_arm-is_ready k (holding m) t permit = ground (arith, rx.reserve_lem t.sender)
  take_arm-is_ready k (holding m) t (incoming i) = refl
  take_arm-is_ready k (ended s) t a = refl

  -- In the outer loop a frame of the stream can always be taken, in the inner one never; a permit can
  -- be taken in the inner loop only, and only if the channel has room or its consumer is gone; in
  -- both, a send is taken if one waits (or no sender is left), and a keepalive if an interval is set;
  -- a task that has returned takes nothing.
  pub socket_loop_split_ready :
      (k : Keepalive) (t : Task X T R) (a : Arm X)
      → is_some (socket_loop_split k t a) ≡ is_ready k t.phase t a
  unfolding socket_loop_split
  socket_loop_split_ready k t a = take_arm-is_ready k t.phase t a
