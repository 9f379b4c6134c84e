-- ===== src/Connection/Receiving.antt =====
-- The receiving side against its specification.
use socketeer.Common.{
  ◌≡◌, ◌≢◌, refl, sym, ap, ◌∙◌, inl, inr, true, false, List, [], ◌∷◌, ◌++◌, none, some, ready,
  arith, All, append-nil, append_assoc,
}
use socketeer.Message.{Message}
use socketeer.Runtime.Channel.{ChannelSize, Mpsc, ChannelView}
use socketeer.SocketLoop.Handlers.{TxChannelPayload, Outputs}
use socketeer.SocketLoop.Task.{
  Keepalive, Phase, Task, Arm, selecting, holding, ended, socket_loop_split,
}
use socketeer.SocketLoop.Task.Frames.{
  in_hand, is_ended, queued, is_received, read_by, socket_loop_split_frames,
}
use socketeer.SocketLoop.Task.Ending.{Recorded}
use socketeer.SocketLoop.Task.Senders.{IsData}
use socketeer.Connection.Cause.{IsRecorded}
use socketeer.Connection.Change.{
  Received, SameFrames, step-Change, run-nil, on_receive-Received, on_poll-Received,
  on_confirmed-SameFrames, on_unconfirmed-SameFrames, on_closing-SameFrames,
}
use socketeer.Connection.Going.{going-cons}
use socketeer.Connection.Kept.{Change-in_hand}
use socketeer.Connection.Ledger.{alive_before, recv_from-queue}
use socketeer.Connection.Inbox.{Inbox, take_next, inbox_step, inbox_run}
use socketeer.Connection.{
  Connection, Event, arm, confirmed, unconfirmed, closing, cancel, receive, poll, drop_receiver,
  drop_senders, start, step, run,
}

inbox_path : (b b' : Inbox) → b.pending ≡ b'.pending → b.received ≡ b'.received → b ≡ b'
inbox_path b b' e f i = record { pending = e i; received = f i }

module _ {X T R : Type 0} ⦃tx : Mpsc TxChannelPayload T⦄ ⦃rx : Mpsc Message R⦄ where
  abbrev pub inbox : Connection X T R → Inbox
  inbox c = record { pending = queued c.task ++ in_hand c.phase; received = c.delivered }

  arm-inbox :
      (k : Keepalive) (c c' : Connection X T R) (a : Arm X)
      → socket_loop_split k c.task a ≡ some c'.task
      → c'.delivered ≡ c.delivered
      → is_ended c'.phase ≡ false
      → is_received c'.task ≡ true
      → inbox c' ≡ inbox_step (inbox c) (arm a)
  arm-inbox k c c' a moved d g r =
      let frames = socket_loop_split_frames k c.task a c'.task moved r in
      inbox_path _ _
        (ground (
          arith,
          frames,
          append_assoc (queued c.task) (in_hand c.phase) (read_by a),
          append-nil (in_hand c'.phase),
        ))
        d

  SameFrames-inbox :
      (c c' : Connection X T R)
      → SameFrames c c'
      → inbox c' ≡ record (inbox c) { pending = (inbox c).pending ++ [] }
  SameFrames-inbox c c' (sender, phase, delivered) =
      inbox_path _ _ (ground (arith, sender, phase, append-nil (inbox c).pending)) delivered

  -- The sender of a loop that goes on has not been dropped.
  Recorded-sending :
      (p : Phase X) (t : Task X T R)
      → is_ended p ≡ false
      → Recorded p t
      → (rx.view t.sender).sending ≡ true
  Recorded-sending selecting t h w = w.1.0
  Recorded-sending (holding m) t h w = w.1.0
  Recorded-sending (ended s) t h w = absurd (ground arith)

  recv-open :
      (q : List Message) (c : Connection X T R)
      → queued c.task ≡ q
      → (rx.view c.sender).sending ≡ true
      → (rx.recv c.sender).1 ≢ ready none
  recv-open [] c e s h = ground (arith, rx.result-recv c.sender)
  recv-open (m ∷ q) c e s h = ground (arith, rx.result-recv c.sender)

  Received-inbox :
      (c c' : Connection X T R)
      → Received c c'
      → (rx.view c.sender).sending ≡ true
      → inbox c' ≡ take_next (inbox c).pending (inbox c).received
  Received-inbox c c' (moved, phase, inr (got, d)) s =
      absurd (recv-open (queued c.task) c refl s got)
  Received-inbox c c' (moved, phase, inl (m, got, d)) s =
      let split : queued c.task ≡ m ∷ queued c'.task = ground (
        arith,
        rx.view-recv c.sender,
        rx.result-recv c.sender,
        recv_from-queue (queued c.task) (rx.view c.sender) {m = m},
      ) in
      rw split (inbox_path _ _ (ap (λ p. queued c'.task ++ in_hand p) phase) d)

  step-inbox :
      (k : Keepalive) (c c' : Connection X T R) (e : Event X)
      → step k c e ≡ some c'
      → IsRecorded c
      → is_ended c.phase ≡ false
      → is_ended c'.phase ≡ false
      → is_received c'.task ≡ true
      → inbox c' ≡ inbox_step (inbox c) e
  unfolding step
  step-inbox k c c' (arm a) e w g g' r = arm-inbox k c c' a (ground arith) (ground arith) g' r
  step-inbox k c c' (confirmed m id) e w g g' r =
      SameFrames-inbox c c' (on_confirmed-SameFrames c c' m id e)
  step-inbox k c c' (unconfirmed m) e w g g' r =
      SameFrames-inbox c c' (on_unconfirmed-SameFrames c c' m e)
  step-inbox k c c' (closing id) e w g g' r =
      SameFrames-inbox c c' (on_closing-SameFrames c c' id e)
  step-inbox k c c' (cancel id) e w g g' r = SameFrames-inbox c c' (ground arith)
  step-inbox k c c' receive e w g g' r =
      Received-inbox c c' (on_receive-Received c c' e) (Recorded-sending c.phase c.task g w)
  step-inbox k c c' poll e w g g' r =
      Received-inbox c c' (on_poll-Received c c' e) (Recorded-sending c.phase c.task g w)
  step-inbox k c c' drop_receiver e w g g' r =
      absurd (ground (arith, rx.view-drop_receiver c.sender))
  step-inbox k c c' drop_senders e w g g' r = SameFrames-inbox c c' (ground arith)

  run-inbox :
      (k : Keepalive) (c : Connection X T R) (es : List (Event X)) (c' : Connection X T R)
      → run k c es ≡ some c'
      → IsRecorded c
      → All IsData (in_hand c.phase)
      → is_ended c.phase ≡ false
      → is_ended c'.phase ≡ false
      → is_received c'.task ≡ true
      → inbox c' ≡ inbox_run (inbox c) es
  run-inbox k c [] c' e w d g g' r = ap inbox (sym (run-nil k c c' e))
  run-inbox k c (x ∷ es) c' e w d g g' r =
      let (c1, moved, later, _, w1, g1) = going-cons k c x es c' e w g' in
      let d1 = Change-in_hand k c c1 x (step-Change k c c1 x moved) d in
      let r1 = alive_before k c1 es c' later d1 r in
      run-inbox k c1 es c' later w1 d1 g1 g' r
      ∙ ap (λ b. inbox_run b es) (step-inbox k c c1 x moved w g g1 r1)

  -- The receiving side refines the specification: over any run from a new connection, while the loop
  -- has not ended and the program has not dropped its receiving end, what the program has received,
  -- and what is queued or in the hand of the loop, are what `inbox_run` says of the same events. So
  -- the channel, its capacity and the backpressure do not show: together they are one queue without a
  -- bound, and every receive that is not made to wait takes the oldest frame in it.
  pub run_implements :
      (k : Keepalive) (n : ChannelSize) (o : Outputs X) (es : List (Event X)) (c : Connection X T R)
      → run k (start n o) es ≡ some c
      → is_ended c.phase ≡ false
      → is_received c.task ≡ true
      → inbox c ≡ inbox_run (record { pending = []; received = [] }) es
  unfolding start
  run_implements k n o es c e g r =
      run-inbox k (start n o) es c e (refl, ground (arith, rx.view-channel n, tx.view-channel n)) tt
        refl g r
      ∙ ap (λ p. inbox_run (record { pending = p; received = [] }) es)
          (append-nil (rx.view (rx.channel n)).queue
            ∙ ap (λ (v : ChannelView Message). v.queue) (rx.view-channel n))
