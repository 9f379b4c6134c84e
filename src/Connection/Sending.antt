-- ===== src/Connection/Sending.antt =====
-- The sending side against its specification.
use mathlib.Core.Path.{subst}
use socketeer.Common.{
  ◌≡◌, ◌≢◌, ◌⊎◌, inl, inr, refl, ap, ◌∙◌, ℕ, true, false, List, [], ◌∷◌, Option, none, some, arith,
  Bool-cases,
}
use socketeer.Message.{Message}
use socketeer.Runtime.Channel.{ChannelSize, Mpsc, ChannelView}
use socketeer.SocketLoop.Handlers.{
  TxChannelPayload, Outputs, send_socket_message, handle_incoming, send_keepalive,
}
use socketeer.SocketLoop.Task.{
  Keepalive, Task, Arm, outgoing, sleep, permit, incoming, socket_loop_split,
}
use socketeer.SocketLoop.Task.Frames.{is_ended, ended_stuck}
use socketeer.Handle.Calls.{
  close_message, send_confirmed, send_unconfirmed, send_close, recv_raw, poll_recv_raw,
}
use socketeer.Connection.Change.{run-nil}
use socketeer.Connection.Cause.{IsRecorded, step-IsRecorded}
use socketeer.Connection.Going.{IsOpen, IsRecorded-IsOpen, run-head, going_before}
use socketeer.Connection.Outbox.{Outbox, write_next, spec_step, spec_run}
use socketeer.Connection.{
  Connection, Event, arm, confirmed, unconfirmed, closing, cancel, receive, poll, drop_receiver,
  drop_senders, start, step, run, on_confirmed, on_unconfirmed, on_closing, on_receive, on_poll,
}

module _ {X T R : Type 0} ⦃tx : Mpsc TxChannelPayload T⦄ ⦃rx : Mpsc Message R⦄ where
  abbrev pub outbox : Connection X T R → Outbox
  outbox c = record { waiting = (tx.view c.receiver).queue; calls = c.sink.calls }

  -- Step by step.
  on_confirmed-outbox :
      (k : Option Message) (c c' : Connection X T R) (m : Message) (id : ℕ)
      → on_confirmed c m id ≡ some c'
      → IsOpen c
      → outbox c' ≡ spec_step {X = X} k (outbox c) (confirmed m id)
  unfolding on_confirmed send_confirmed
  on_confirmed-outbox k c c' m id e h = ground (
    arith,
    tx.reserve_lem c.receiver,
    tx.view-permit_send c.receiver (record { message = m; response_tx = some id }),
  )

  on_unconfirmed-outbox :
      (k : Option Message) (c c' : Connection X T R) (m : Message)
      → on_unconfirmed c m ≡ some c'
      → IsOpen c
      → outbox c' ≡ spec_step {X = X} k (outbox c) (unconfirmed m)
  unfolding on_unconfirmed send_unconfirmed
  on_unconfirmed-outbox k c c' m e h = ground (
    arith,
    tx.reserve_lem c.receiver,
    tx.view-permit_send c.receiver (record { message = m; response_tx = none }),
  )

  on_closing-outbox :
      (k : Option Message) (c c' : Connection X T R) (id : ℕ)
      → on_closing c id ≡ some c'
      → IsOpen c
      → outbox c' ≡ spec_step {X = X} k (outbox c) (closing id)
  unfolding on_closing send_close
  on_closing-outbox k c c' id e h = ground (
    arith,
    tx.reserve_lem c.receiver,
    tx.view-permit_send c.receiver (record { message = close_message; response_tx = some id }),
  )

  abbrev task_outbox : Task X T R → Outbox
  task_outbox t = record { waiting = (tx.view t.receiver).queue; calls = t.sink.calls }

  outgoing-outbox :
      (q : List TxChannelPayload) (k : Keepalive) (t t' : Task X T R)
      → (tx.view t.receiver).queue ≡ q
      → socket_loop_split k t outgoing ≡ some t'
      → is_ended t'.phase ≡ false
      → task_outbox t' ≡ write_next q t.sink.calls
  unfolding socket_loop_split send_socket_message
  outgoing-outbox [] k t t' v e h = absurd (ground (arith, tx.result-recv t.receiver))
  outgoing-outbox (p ∷ q) k t t' v e h =
      ground (arith, tx.result-recv t.receiver, tx.view-recv t.receiver)

  other-outbox :
      (k : Keepalive) (t : Task X T R) (a : Arm X) (t' : Task X T R)
      → a ≢ outgoing
      → socket_loop_split k t a ≡ some t'
      → is_ended t'.phase ≡ false
      → task_outbox t' ≡ spec_step k.message (task_outbox t) (arm a)
  unfolding socket_loop_split handle_incoming send_keepalive
  other-outbox k t outgoing t' n e h = absurd (n refl)
  other-outbox k t sleep t' n e h = ground arith
  other-outbox k t permit t' n e h = ground arith
  other-outbox k t (incoming i) t' n e h = ground arith

  -- What is written does not depend on whether the loop goes on.
  outgoing-calls :
      (q : List TxChannelPayload) (k : Keepalive) (t t' : Task X T R)
      → (tx.view t.receiver).queue ≡ q
      → socket_loop_split k t outgoing ≡ some t'
      → t'.sink.calls ≡ (write_next q t.sink.calls).calls
  unfolding socket_loop_split send_socket_message
  outgoing-calls [] k t t' v e = ground (arith, tx.result-recv t.receiver)
  outgoing-calls (p ∷ q) k t t' v e = ground (arith, tx.result-recv t.receiver)

  other-calls :
      (k : Keepalive) (t : Task X T R) (a : Arm X) (t' : Task X T R)
      → a ≢ outgoing
      → socket_loop_split k t a ≡ some t'
      → t'.sink.calls ≡ (spec_step k.message (task_outbox t) (arm a)).calls
  unfolding socket_loop_split handle_incoming send_keepalive
  other-calls k t outgoing t' n e = absurd (n refl)
  other-calls k t sleep t' n e = ground arith
  other-calls k t permit t' n e = ground arith
  other-calls k t (incoming i) t' n e = ground arith

  -- The calls that take, and those that drop, leave the outbox alone.
  on_receive-outbox : (c c' : Connection X T R) → on_receive c ≡ some c' → outbox c' ≡ outbox c
  unfolding on_receive recv_raw
  on_receive-outbox c c' e = ground arith

  on_poll-outbox : (c c' : Connection X T R) → on_poll c ≡ some c' → outbox c' ≡ outbox c
  unfolding on_poll poll_recv_raw
  on_poll-outbox c c' e = ground arith

  arm-outbox :
      (k : Keepalive) (c c' : Connection X T R) (a : Arm X)
      → step k c (arm a) ≡ some c'
      → is_ended c'.phase ≡ false
      → outbox c' ≡ spec_step k.message (outbox c) (arm a)
  unfolding step
  arm-outbox k c c' outgoing e h =
      outgoing-outbox (tx.view c.receiver).queue k c.task c'.task refl (ground arith) h
  arm-outbox k c c' sleep e h = other-outbox k c.task sleep c'.task (cc) (ground arith) h
  arm-outbox k c c' permit e h = other-outbox k c.task permit c'.task (cc) (ground arith) h
  arm-outbox k c c' (incoming i) e h =
      other-outbox k c.task (incoming i) c'.task (cc) (ground arith) h

  step-outbox :
      (k : Keepalive) (c c' : Connection X T R) (e : Event X)
      → step k c e ≡ some c'
      → IsOpen c
      → is_ended c'.phase ≡ false
      → outbox c' ≡ spec_step k.message (outbox c) e
  unfolding step
  step-outbox k c c' (arm a) e o h = arm-outbox k c c' a e h
  step-outbox k c c' (confirmed m id) e o h = on_confirmed-outbox k.message c c' m id e o
  step-outbox k c c' (unconfirmed m) e o h = on_unconfirmed-outbox k.message c c' m e o
  step-outbox k c c' (closing id) e o h = on_closing-outbox k.message c c' id e o
  step-outbox k c c' (cancel id) e o h = ground arith
  step-outbox k c c' receive e o h = on_receive-outbox c c' e
  step-outbox k c c' poll e o h = on_poll-outbox c c' e
  step-outbox k c c' drop_receiver e o h = ground arith
  step-outbox k c c' drop_senders e o h = ground (arith, tx.view-drop_senders c.receiver)

  arm-calls :
      (k : Keepalive) (c c' : Connection X T R) (a : Arm X)
      → step k c (arm a) ≡ some c'
      → c'.sink.calls ≡ (spec_step k.message (outbox c) (arm a)).calls
  unfolding step
  arm-calls k c c' outgoing e =
      outgoing-calls (tx.view c.receiver).queue k c.task c'.task refl (ground arith)
  arm-calls k c c' sleep e = other-calls k c.task sleep c'.task (cc) (ground arith)
  arm-calls k c c' permit e = other-calls k c.task permit c'.task (cc) (ground arith)
  arm-calls k c c' (incoming i) e = other-calls k c.task (incoming i) c'.task (cc) (ground arith)

  -- Agreement with the specification: on the calls always, and on what waits while the loop goes on.
  Agrees : Connection X T R → Outbox → Type 0
  Agrees c b = (c.sink.calls ≡ b.calls) × (is_ended c.phase ≡ false → outbox c ≡ b)

  -- The calls of the program make none on the socket, whether the loop goes on or not.
  on_confirmed-calls :
      (c c' : Connection X T R) (m : Message) (id : ℕ)
      → on_confirmed c m id ≡ some c'
      → c'.sink.calls ≡ c.sink.calls
  unfolding on_confirmed
  on_confirmed-calls c c' m id e = ground arith

  on_unconfirmed-calls :
      (c c' : Connection X T R) (m : Message)
      → on_unconfirmed c m ≡ some c'
      → c'.sink.calls ≡ c.sink.calls
  unfolding on_unconfirmed
  on_unconfirmed-calls c c' m e = ground arith

  on_closing-calls :
      (c c' : Connection X T R) (id : ℕ) → on_closing c id ≡ some c' → c'.sink.calls ≡ c.sink.calls
  unfolding on_closing
  on_closing-calls c c' id e = ground arith

  step-calls :
      (k : Keepalive) (c c' : Connection X T R) (e : Event X) (b : Outbox)
      → step k c e ≡ some c'
      → Agrees c b
      → c'.sink.calls ≡ (spec_step k.message b e).calls
  unfolding Agrees step
  step-calls k c c' (arm a) b e (calls, same) = elim (Bool-cases (is_ended c.phase)) [
    | inl over ↦ absurd (ground (arith, ended_stuck k c.task a over))
    | inr going ↦
        arm-calls k c c' a e ∙ ap (λ b. (spec_step k.message b (arm a)).calls) (same going)
  ]
  step-calls k c c' (confirmed m id) b e (calls, same) = on_confirmed-calls c c' m id e ∙ calls
  step-calls k c c' (unconfirmed m) b e (calls, same) = on_unconfirmed-calls c c' m e ∙ calls
  step-calls k c c' (closing id) b e (calls, same) = on_closing-calls c c' id e ∙ calls
  step-calls k c c' (cancel id) b e (calls, same) = ground arith
  step-calls k c c' receive b e (calls, same) =
      ap (λ (b : Outbox). b.calls) (on_receive-outbox c c' e) ∙ calls
  step-calls k c c' poll b e (calls, same) =
      ap (λ (b : Outbox). b.calls) (on_poll-outbox c c' e) ∙ calls
  step-calls k c c' drop_receiver b e (calls, same) = ground arith
  step-calls k c c' drop_senders b e (calls, same) = ground arith

  step-Agrees :
      (k : Keepalive) (c c' : Connection X T R) (e : Event X) (b : Outbox)
      → step k c e ≡ some c'
      → IsRecorded c
      → Agrees c b
      → Agrees c' (spec_step k.message b e)
  unfolding Agrees step
  step-Agrees k c c' e b moved w (calls, same) = (
    step-calls k c c' e b moved (calls, same),
    λ going.
        let before = going_before k c c' e moved going in
        step-outbox k c c' e moved (IsRecorded-IsOpen c.phase c.task before w) going
        ∙ ap (λ b. spec_step k.message b e) (same before),
  )

  run-Agrees :
      (k : Keepalive) (c : Connection X T R) (es : List (Event X)) (c' : Connection X T R)
      (b : Outbox)
      → run k c es ≡ some c'
      → IsRecorded c
      → Agrees c b
      → Agrees c' (spec_run k.message b es)
  run-Agrees k c [] c' b e w h = subst (λ (x : Connection X T R). Agrees x b) (run-nil k c c' e) h
  run-Agrees k c (x ∷ es) c' b e w h =
      let (c1, moved, later) = run-head k c x es c' e in
      run-Agrees k c1 es c' (spec_step k.message b x) later (step-IsRecorded k c c1 x moved w)
        (step-Agrees k c c1 x b moved w h)

  run-start :
      (k : Keepalive) (n : ChannelSize) (o : Outputs X) (es : List (Event X)) (c : Connection X T R)
      → run k (start n o) es ≡ some c
      → Agrees c (spec_run k.message (record { waiting = []; calls = o.sink.calls }) es)
  unfolding start Agrees
  run-start k n o es c e =
      run-Agrees k (start n o) es c _ e (refl, ground (arith, rx.view-channel n, tx.view-channel n))
        (
          refl,
          λ _.
              ap
                (λ (v : ChannelView TxChannelPayload). record {
                  waiting = v.queue;
                  calls = o.sink.calls;
                })
                (tx.view-channel n),
        )

  -- A run whose loop goes on, in one equation.
  pub run-outbox :
      (k : Keepalive) (n : ChannelSize) (o : Outputs X) (es : List (Event X)) (c : Connection X T R)
      → run k (start n o) es ≡ some c
      → is_ended c.phase ≡ false
      → outbox c ≡ spec_run k.message (record { waiting = []; calls = o.sink.calls }) es
  unfolding Agrees
  run-outbox k n o es c e going = (run-start k n o es c e).1 going

  -- The sending side refines the specification: over any run from a new connection, the calls made on
  -- the socket are those that `spec_run` makes on the same events, also where the loop has ended; and
  -- the loop has ended, or the payloads that wait are those of `spec_run` too. So the sends of the
  -- program are written in order, each at most once, with the keepalive of the options, the pongs and
  -- the closing of the socket between them where their arms were taken; receives and dropped ends
  -- write nothing.
  pub run_refines :
      (k : Keepalive) (n : ChannelSize) (o : Outputs X) (es : List (Event X)) (c : Connection X T R)
      → run k (start n o) es ≡ some c
      → (c.sink.calls
          ≡ (spec_run k.message (record { waiting = []; calls = o.sink.calls }) es).calls)
        × ((is_ended c.phase ≡ true)
            ⊎ ((tx.view c.receiver).queue
                ≡ (spec_run k.message (record { waiting = []; calls = o.sink.calls }) es).waiting))
  unfolding Agrees
  run_refines k n o es c e =
      let (calls, same) = run-start k n o es c e in
      (
        calls,
        elim (Bool-cases (is_ended c.phase)) [
          | inl over ↦ inl over
          | inr going ↦ inr (ap (λ b. b.waiting) (same going))
        ],
      )
