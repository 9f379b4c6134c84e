-- ===== src/Connection/Served.antt =====
-- src/socket_loop.rs: the one-shots while the loop runs.
use mathlib.Core.Path.{subst}
use socketeer.Common.{
  ◌≡◌, ◌≢◌, ◌⊎◌, inl, inr, refl, ℕ, Bool, true, false, ◌||◌, List, [], ◌∷◌, ◌++◌, none, some, ready,
  pending, arith, any, ◌==◌, Option-cases,
}
use socketeer.Message.{Message}
use socketeer.Runtime.Channel.{ChannelSize, Mpsc}
use socketeer.Runtime.Oneshot.{answer_to}
use socketeer.SocketLoop.Handlers.{
  TxChannelPayload, Outputs, Sent, send_socket_message, handle_incoming, send_keepalive,
}
use socketeer.SocketLoop.Task.{
  Keepalive, Task, Arm, outgoing, sleep, permit, incoming, socket_loop_split,
}
use socketeer.SocketLoop.Task.Frames.{is_ended}
use socketeer.SocketLoop.Task.Readiness.{is_some}
use socketeer.Handle.Calls.{
  returned, close_message, send_confirmed, send_unconfirmed, send_close, recv_raw, poll_recv_raw,
}
use socketeer.Connection.Waiting.{carries, resume}
use socketeer.Connection.Cause.{IsRecorded}
use socketeer.Connection.Change.{run-nil}
use socketeer.Connection.Going.{IsOpen, going-cons}
use socketeer.Connection.{
  Connection, Event, arm, confirmed, unconfirmed, closing, cancel, receive, poll, drop_receiver,
  drop_senders, start, step, run, on_confirmed, on_unconfirmed, on_closing, on_receive, on_poll,
}

-- The event is a confirmed send, or a close, with the one-shot `id`.
abbrev pub asks : {X : Type 0} → ℕ → Event X → Bool
asks id (confirmed m j) = j == id
asks id (closing j) = j == id
asks id e = false

pub any-append {ℓ} :
    {A : Type ℓ} (p : A → Bool) (xs ys : List A) → any p (xs ++ ys) ≡ (any p xs || any p ys)
any-append p [] ys = refl
any-append p (x ∷ xs) ys = ground (arith, any-append p xs ys)

module _ {X T R : Type 0} ⦃tx : Mpsc TxChannelPayload T⦄ ⦃rx : Mpsc Message R⦄ where
  -- The one-shot has been answered, or its payload waits.
  abbrev pub is_served : ℕ → Task X T R → Bool
  is_served id t =
      is_some (answer_to id t.oneshots.answered) || any (carries id) (tx.view t.receiver).queue

  outgoing-is_served :
      (q : List TxChannelPayload) (k : Keepalive) (id : ℕ) (t t' : Task X T R)
      → (tx.view t.receiver).queue ≡ q
      → socket_loop_split k t outgoing ≡ some t'
      → is_ended t'.phase ≡ false
      → is_served id t ≡ true
      → is_served id t' ≡ true
  unfolding socket_loop_split send_socket_message
  outgoing-is_served [] k id t t' v e h s = absurd (ground (arith, tx.result-recv t.receiver))
  outgoing-is_served (p ∷ q) k id t t' v e h s =
      ground (arith, tx.result-recv t.receiver, tx.view-recv t.receiver)

  other-is_served :
      (k : Keepalive) (id : ℕ) (t : Task X T R) (a : Arm X) (t' : Task X T R)
      → a ≢ outgoing
      → socket_loop_split k t a ≡ some t'
      → is_ended t'.phase ≡ false
      → is_served id t ≡ true
      → is_served id t' ≡ true
  unfolding socket_loop_split handle_incoming send_keepalive
  other-is_served k id t outgoing t' n e h s = absurd (n refl)
  other-is_served k id t sleep t' n e h s = ground arith
  other-is_served k id t permit t' n e h s = ground arith
  other-is_served k id t (incoming i) t' n e h s = ground arith

  arm-is_served :
      (k : Keepalive) (id : ℕ) (c c' : Connection X T R) (a : Arm X)
      → step k c (arm a) ≡ some c'
      → is_ended c'.phase ≡ false
      → is_served id c.task ≡ true
      → is_served id c'.task ≡ true
  unfolding step
  arm-is_served k id c c' outgoing e h s =
      outgoing-is_served (tx.view c.receiver).queue k id c.task c'.task refl (ground arith) h s
  arm-is_served k id c c' sleep e h s =
      other-is_served k id c.task sleep c'.task (cc) (ground arith) h s
  arm-is_served k id c c' permit e h s =
      other-is_served k id c.task permit c'.task (cc) (ground arith) h s
  arm-is_served k id c c' (incoming i) e h s =
      other-is_served k id c.task (incoming i) c'.task (cc) (ground arith) h s

  -- A send puts its payload behind those that wait, and answers nobody.
  abbrev pub Requests : Connection X T R → Connection X T R → TxChannelPayload → Type 0
  Requests c c' p =
      (c'.oneshots ≡ c.oneshots)
      × ((tx.view c'.receiver).queue ≡ (tx.view c.receiver).queue ++ p ∷ [])

  pub on_confirmed-Requests :
      (c c' : Connection X T R) (m : Message) (id : ℕ)
      → on_confirmed c m id ≡ some c'
      → IsOpen c
      → Requests c c' (record { message = m; response_tx = some id })
  unfolding on_confirmed send_confirmed
  on_confirmed-Requests c c' m id e h = (
    ground arith,
    ground (
      arith,
      tx.reserve_lem c.receiver,
      tx.view-permit_send c.receiver (record { message = m; response_tx = some id }),
    ),
  )

  pub on_unconfirmed-Requests :
      (c c' : Connection X T R) (m : Message)
      → on_unconfirmed c m ≡ some c'
      → IsOpen c
      → Requests c c' (record { message = m; response_tx = none })
  unfolding on_unconfirmed send_unconfirmed
  on_unconfirmed-Requests c c' m e h = (
    ground arith,
    ground (
      arith,
      tx.reserve_lem c.receiver,
      tx.view-permit_send c.receiver (record { message = m; response_tx = none }),
    ),
  )

  pub on_closing-Requests :
      (c c' : Connection X T R) (id : ℕ)
      → on_closing c id ≡ some c'
      → IsOpen c
      → Requests c c' (record { message = close_message; response_tx = some id })
  unfolding on_closing send_close
  on_closing-Requests c c' id e h = (
    ground arith,
    ground (
      arith,
      tx.reserve_lem c.receiver,
      tx.view-permit_send c.receiver (record { message = close_message; response_tx = some id }),
    ),
  )

  Requests-is_served :
      (id : ℕ) (c c' : Connection X T R) (p : TxChannelPayload)
      → Requests c c' p
      → (is_served id c.task || carries id p) ≡ true
      → is_served id c'.task ≡ true
  Requests-is_served id c c' p (same, queued) h =
      rw (same, queued, any-append (carries id) (tx.view c.receiver).queue (p ∷ [])) (ground arith)

  pub step-is_served :
      (k : Keepalive) (id : ℕ) (c c' : Connection X T R) (e : Event X)
      → step k c e ≡ some c'
      → IsOpen c
      → is_ended c'.phase ≡ false
      → (is_served id c.task || asks id e) ≡ true
      → is_served id c'.task ≡ true
  unfolding step on_receive on_poll recv_raw poll_recv_raw
  step-is_served k id c c' (arm a) e o h s = arm-is_served k id c c' a e h (ground arith)
  step-is_served k id c c' (confirmed m j) e o h s =
      Requests-is_served id c c' _ (on_confirmed-Requests c c' m j e o) s
  step-is_served k id c c' (unconfirmed m) e o h s =
      Requests-is_served id c c' _ (on_unconfirmed-Requests c c' m e o) s
  step-is_served k id c c' (closing j) e o h s =
      Requests-is_served id c c' _ (on_closing-Requests c c' j e o) s
  step-is_served k id c c' (cancel j) e o h s = ground arith
  step-is_served k id c c' receive e o h s = ground arith
  step-is_served k id c c' poll e o h s = ground arith
  step-is_served k id c c' drop_receiver e o h s = ground arith
  step-is_served k id c c' drop_senders e o h s = ground (arith, tx.view-drop_senders c.receiver)

  run-is_served :
      (k : Keepalive) (id : ℕ) (c : Connection X T R) (es : List (Event X)) (c' : Connection X T R)
      → run k c es ≡ some c'
      → IsRecorded c
      → is_ended c'.phase ≡ false
      → (is_served id c.task || any (asks id) es) ≡ true
      → is_served id c'.task ≡ true
  run-is_served k id c [] c' e w h s =
      subst (λ (x : Connection X T R). is_served id x.task ≡ true) (run-nil k c c' e) (ground arith)
  run-is_served k id c (x ∷ es) c' e w h s =
      let (c1, moved, later, opened, w', going) = going-cons k c x es c' e w h in
      ground (
        arith,
        step-is_served k id c c1 x moved opened going,
        run-is_served k id c1 es c' later w' h,
      )

  pub run-start-is_served :
      (k : Keepalive) (n : ChannelSize) (o : Outputs X) (es : List (Event X)) (c : Connection X T R)
      (id : ℕ)
      → run k (start n o) es ≡ some c
      → is_ended c.phase ≡ false
      → any (asks id) es ≡ true
      → is_served id c.task ≡ true
  unfolding start
  run-start-is_served k n o es c id e h a =
      run-is_served k id (start n o) es c e
        (refl, ground (arith, rx.view-channel n, tx.view-channel n)) h (ground arith)

  -- Over any run from a new connection in which a confirmed send or a close with the one-shot `id` has
  -- been asked for: while the loop has not ended, that call either waits, with its payload in the
  -- queue, or returns the answer that the loop gave it. It does not panic.
  pub run_serves :
      (k : Keepalive) (n : ChannelSize) (o : Outputs X) (es : List (Event X)) (c : Connection X T R)
      (id : ℕ)
      → run k (start n o) es ≡ some c
      → is_ended c.phase ≡ false
      → any (asks id) es ≡ true
      → ((r : Sent X) × (answer_to id c.oneshots.answered ≡ some r)
          × (resume id c ≡ ready (returned r)))
        ⊎ ((any (carries id) (tx.view c.receiver).queue ≡ true) × (resume id c ≡ pending))
  unfolding resume
  run_serves k n o es c id e h a =
      let served = run-start-is_served k n o es c id e h a in
      elim (Option-cases (answer_to id c.oneshots.answered)) [
        | inl none_yet ↦ inr (ground arith, ground arith)
        | inr (r, there) ↦ inl (r, there, ground arith)
      ]
