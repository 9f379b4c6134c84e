-- ===== src/Connection/Blameless.antt =====
-- src/socket_loop.rs: `SocketeerDroppedWithoutClosing`, the error of a loop whose handle is gone.
use mathlib.Core.Path.{subst}
use mathlib.Core.Bool.{false≢true}
use socketeer.Common.{
  ◌≡◌, ◌≢◌, ◌⊎◌, inl, inr, refl, sym, ap, ◌∙◌, ℕ, Bool, true, false, List, [], ◌∷◌, none, some, ok,
  err, arith, All, Option-cases,
}
use socketeer.Message.{Message, text, binary, ping, pong, frame, close, dropped_without_closing}
use socketeer.Runtime.Channel.{ChannelSize, Mpsc, recv_from-receiving}
use socketeer.SocketLoop.Handlers.{
  TxChannelPayload, Outputs, error, running, closed, send_socket_message, handle_incoming,
  send_keepalive,
}
use socketeer.SocketLoop.Task.{
  Phase, selecting, holding, ended, Keepalive, Task, Arm, outgoing, sleep, permit, incoming,
  socket_loop_split,
}
use socketeer.SocketLoop.Task.Frames.{is_ended}
use socketeer.SocketLoop.Task.Ending.{Recorded}
use socketeer.Connection.Cause.{run_cause}
use socketeer.Handle.Calls.{
  close_message, send_confirmed, send_unconfirmed, send_close, recv_raw, poll_recv_raw,
}
use socketeer.Connection.Change.{run-nil}
use socketeer.Connection.{
  Connection, Event, arm, confirmed, unconfirmed, closing, cancel, receive, poll, drop_receiver,
  drop_senders, start, step, run, on_confirmed, on_unconfirmed, on_closing, on_receive, on_poll,
}

-- The program keeps both halves, and waits for the answers to its sends.
abbrev pub keeps : {X : Type 0} → Event X → Bool
keeps (cancel id) = false
keeps drop_receiver = false
keeps drop_senders = false
keeps e = true

abbrev pub is_blamed : {X : Type 0} → Phase X → Bool
is_blamed (ended (error dropped_without_closing)) = true
is_blamed p = false

module _ {X T R : Type 0} ⦃tx : Mpsc TxChannelPayload T⦄ ⦃rx : Mpsc Message R⦄ where
  -- The handle is there, and its callers wait.
  abbrev IsBlameless : Task X T R → Type 0
  IsBlameless t =
      (is_blamed t.phase ≡ false)
      × ((is_ended t.phase ≡ true)
          ⊎ (((tx.view t.receiver).sending ≡ true) × ((rx.view t.sender).receiving ≡ true)))

  outgoing-IsBlameless :
      (q : List TxChannelPayload) (k : Keepalive) (t t' : Task X T R)
      → ((id : ℕ) → t.oneshots.awaited id ≡ true)
      → (tx.view t.receiver).queue ≡ q
      → socket_loop_split k t outgoing ≡ some t'
      → IsBlameless t
      → IsBlameless t' × (t'.oneshots.awaited ≡ t.oneshots.awaited)
  unfolding socket_loop_split send_socket_message
  outgoing-IsBlameless [] k t t' a v e h = absurd (ground (arith, tx.result-recv t.receiver))
  outgoing-IsBlameless (p ∷ q) k t t' a v e h = elim (Option-cases p.response_tx) [
    | inl silent ↦ ground (arith, tx.result-recv t.receiver, tx.view-recv t.receiver)
    | inr (id, heard) ↦ ground (arith, tx.result-recv t.receiver, tx.view-recv t.receiver, a id)
  ]

  permit-IsBlameless :
      (p : Phase X) (k : Keepalive) (t t' : Task X T R)
      → t.phase ≡ p
      → socket_loop_split k t permit ≡ some t'
      → IsBlameless t
      → IsBlameless t' × (t'.oneshots.awaited ≡ t.oneshots.awaited)
  unfolding socket_loop_split
  permit-IsBlameless selecting k t t' v e h = absurd (ground arith)
  permit-IsBlameless (ended s) k t t' v e h = absurd (ground arith)
  permit-IsBlameless (holding m) k t t' v e h =
      ground (arith, rx.reserve_lem t.sender, rx.view-permit_send t.sender m)

  other-IsBlameless :
      (k : Keepalive) (t : Task X T R) (a : Arm X) (t' : Task X T R)
      → a ≢ outgoing
      → socket_loop_split k t a ≡ some t'
      → IsBlameless t
      → IsBlameless t' × (t'.oneshots.awaited ≡ t.oneshots.awaited)
  unfolding socket_loop_split handle_incoming send_keepalive
  other-IsBlameless k t outgoing t' n e h = absurd (n refl)
  other-IsBlameless k t sleep t' n e h = ground arith
  other-IsBlameless k t permit t' n e h = permit-IsBlameless t.phase k t t' refl e h
  other-IsBlameless k t (incoming (some (ok (text s)))) t' n e h =
      ground (arith, rx.view-try_send t.sender (text s), rx.result-try_send t.sender (text s))
  other-IsBlameless k t (incoming (some (ok (binary b)))) t' n e h =
      ground (arith, rx.view-try_send t.sender (binary b), rx.result-try_send t.sender (binary b))
  other-IsBlameless k t (incoming (some (ok (ping b)))) t' n e h = ground arith
  other-IsBlameless k t (incoming (some (ok (pong b)))) t' n e h = ground arith
  other-IsBlameless k t (incoming (some (ok (frame b)))) t' n e h = ground arith
  other-IsBlameless k t (incoming (some (ok (close f)))) t' n e h = ground arith
  other-IsBlameless k t (incoming (some (err x))) t' n e h = ground arith
  other-IsBlameless k t (incoming none) t' n e h = ground arith

  -- The events of the program.
  abbrev Spares : Connection X T R → Connection X T R → Type 0
  Spares c c' = IsBlameless c'.task × (c'.oneshots.awaited ≡ c.oneshots.awaited)

  on_confirmed-Spares :
      (c c' : Connection X T R) (m : Message) (id : ℕ)
      → on_confirmed c m id ≡ some c'
      → IsBlameless c.task
      → Spares c c'
  unfolding on_confirmed send_confirmed
  on_confirmed-Spares c c' m id e h =
      ground (arith, tx.view-permit_send c.receiver (record { message = m; response_tx = some id }))

  on_unconfirmed-Spares :
      (c c' : Connection X T R) (m : Message)
      → on_unconfirmed c m ≡ some c'
      → IsBlameless c.task
      → Spares c c'
  unfolding on_unconfirmed send_unconfirmed
  on_unconfirmed-Spares c c' m e h =
      ground (arith, tx.view-permit_send c.receiver (record { message = m; response_tx = none }))

  on_closing-Spares :
      (c c' : Connection X T R) (id : ℕ)
      → on_closing c id ≡ some c'
      → IsBlameless c.task
      → Spares c c'
  unfolding on_closing send_close
  on_closing-Spares c c' id e h = ground (
    arith,
    tx.view-permit_send c.receiver (record { message = close_message; response_tx = some id }),
  )

  on_receive-Spares :
      (c c' : Connection X T R) → on_receive c ≡ some c' → IsBlameless c.task → Spares c c'
  unfolding on_receive recv_raw
  on_receive-Spares c c' e h = ground (
    arith,
    rx.view-recv c.sender,
    recv_from-receiving (rx.view c.sender).queue (rx.view c.sender),
  )

  on_poll-Spares :
      (c c' : Connection X T R) → on_poll c ≡ some c' → IsBlameless c.task → Spares c c'
  unfolding on_poll poll_recv_raw
  on_poll-Spares c c' e h = ground (
    arith,
    rx.view-recv c.sender,
    recv_from-receiving (rx.view c.sender).queue (rx.view c.sender),
  )

  step-Spares :
      (k : Keepalive) (c c' : Connection X T R) (e : Event X)
      → keeps e ≡ true
      → ((id : ℕ) → c.oneshots.awaited id ≡ true)
      → step k c e ≡ some c'
      → IsBlameless c.task
      → Spares c c'
  unfolding step
  step-Spares k c c' (arm outgoing) f a e h =
      outgoing-IsBlameless (tx.view c.receiver).queue k c.task c'.task a refl (ground arith) h
  step-Spares k c c' (arm sleep) f a e h =
      other-IsBlameless k c.task sleep c'.task (cc) (ground arith) h
  step-Spares k c c' (arm permit) f a e h =
      other-IsBlameless k c.task permit c'.task (cc) (ground arith) h
  step-Spares k c c' (arm (incoming i)) f a e h =
      other-IsBlameless k c.task (incoming i) c'.task (cc) (ground arith) h
  step-Spares k c c' (confirmed m id) f a e h = on_confirmed-Spares c c' m id e h
  step-Spares k c c' (unconfirmed m) f a e h = on_unconfirmed-Spares c c' m e h
  step-Spares k c c' (closing id) f a e h = on_closing-Spares c c' id e h
  step-Spares k c c' (cancel id) f a e h = absurd (ground arith)
  step-Spares k c c' receive f a e h = on_receive-Spares c c' e h
  step-Spares k c c' poll f a e h = on_poll-Spares c c' e h
  step-Spares k c c' drop_receiver f a e h = absurd (ground arith)
  step-Spares k c c' drop_senders f a e h = absurd (ground arith)

  run-IsBlameless :
      (k : Keepalive) (c : Connection X T R) (es : List (Event X)) (c' : Connection X T R)
      → run k c es ≡ some c'
      → All (λ e. keeps e ≡ true) es
      → ((id : ℕ) → c.oneshots.awaited id ≡ true)
      → IsBlameless c.task
      → IsBlameless c'.task
  unfolding run
  run-IsBlameless k c [] c' e f a h =
      subst (λ (x : Connection X T R). IsBlameless x.task) (run-nil k c c' e) h
  run-IsBlameless k c (x ∷ es) c' e f a h = elim (Option-cases (step k c x)) [
    | inl stuck ↦ absurd (ground arith)
    | inr (c1, moved) ↦
        let (h1, same) = step-Spares k c c1 x f.0 a moved h in
        run-IsBlameless k c1 es c' (ground arith) f.1 (λ id. ap (λ w. w id) same ∙ a id) h1
  ]

  Recorded-is_blamed :
      (p : Phase X) (t : Task X T R)
      → Recorded p t
      → t.terminal_error ≡ some dropped_without_closing
      → is_blamed p ≡ true
  Recorded-is_blamed selecting t w h = absurd (ground (arith, w.0))
  Recorded-is_blamed (holding m) t w h = absurd (ground (arith, w.0))
  Recorded-is_blamed (ended running) t w h = absurd w
  Recorded-is_blamed (ended (error x)) t w h = ground (arith, w.0)
  Recorded-is_blamed (ended closed) t w h = absurd (ground (arith, w.0))

  -- A program that keeps both halves of its handle, and waits for the answers to its sends, never
  -- hears that it has dropped the handle: over any run from a new connection in which nobody drops a
  -- half or stops waiting, the loop does not end with `SocketeerDroppedWithoutClosing`, whatever the
  -- network and the sink do.
  pub run_spares :
      (k : Keepalive) (n : ChannelSize) (o : Outputs X) (es : List (Event X)) (c : Connection X T R)
      → run k (start n o) es ≡ some c
      → All (λ e. keeps e ≡ true) es
      → ((id : ℕ) → o.oneshots.awaited id ≡ true)
      → (c.phase ≢ ended (error dropped_without_closing))
        × (c.terminal_error ≢ some dropped_without_closing)
  unfolding start
  run_spares k n o es c e f a =
      let (blameless, _) =
        run-IsBlameless k (start n o) es c e f a
          (refl, inr (ground (arith, tx.view-channel n, rx.view-channel n))) in
      (
        (λ h. false≢true (sym blameless ∙ ap is_blamed h)),
        (λ h.
            false≢true
              (sym blameless ∙ Recorded-is_blamed c.phase c.task (run_cause k n o es c e) h)),
      )
