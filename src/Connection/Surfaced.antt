-- ===== src/Connection/Surfaced.antt =====
-- src/socket_loop.rs: which call gets the error that ended the loop.
use mathlib.Core.Option.{get_or}
use mathlib.Core.Path.{subst}
use socketeer.Common.{
  ℕ, ◌≡◌, ◌⊎◌, inl, inr, refl, sym, ap, ◌∙◌, false, List, [], ◌∷◌, ◌++◌, Option, none, some, Result,
  err, Poll, ready, All, All-snoc, arith, append-nil, append_assoc, Bool-cases, Option-cases,
  Poll-cases,
}
use socketeer.Message.{Message, Error, websocket_closed}
use socketeer.Runtime.Channel.{ChannelSize, Mpsc}
use socketeer.SocketLoop.Handlers.{TxChannelPayload, Outputs, running, error, closed}
use socketeer.SocketLoop.Task.{Keepalive, Task, Phase, selecting, holding, ended}
use socketeer.SocketLoop.Task.Frames.{is_ended, ended_stuck}
use socketeer.SocketLoop.Task.Ending.{Recorded}
use socketeer.SocketLoop.Task.Slot.{slot_after, socket_loop_split_records}
use socketeer.Handle.Calls.{
  Call, returned, send_confirmed, send_unconfirmed, send_close, recv_raw, poll_recv_raw,
}
use socketeer.Connection.Cause.{IsRecorded, step-IsRecorded, run_cause}
use socketeer.Connection.Change.{run-nil}
use socketeer.Connection.Effects.{is_arm}
use socketeer.Connection.{
  Connection, Event, arm, confirmed, unconfirmed, closing, cancel, receive, poll, drop_receiver,
  drop_senders, step, run, start, on_confirmed, on_unconfirmed, on_closing, on_receive, on_poll,
}

module _ {X : Type 0} where
  -- The error that a call returns, by the type of its answer.
  abbrev pub call_error : Poll (Call X) → List (Error X)
  call_error (ready (returned (err e))) = e ∷ []
  call_error _ = []

  abbrev pub sent_error : {A : Type 0} → Poll (Result A (Error X)) → List (Error X)
  sent_error (ready (err e)) = e ∷ []
  sent_error _ = []

  abbrev pub item_error : Poll (Option (Result Message (Error X))) → List (Error X)
  item_error (ready (some (err e))) = e ∷ []
  item_error _ = []

  -- What the phase, the slot, and the errors that have surfaced have to do with each other. The error
  -- of the loop is in the slot, and nothing has surfaced, or it has surfaced first, and behind it
  -- `WebsocketClosed` alone.
  abbrev pub Settled : Phase X → Option (Error X) → List (Error X) → Type 0
  Settled (ended running) slot l = ⊥
  Settled (ended (error e)) slot l =
      ((slot ≡ some e) × (l ≡ []))
      ⊎ ((slot ≡ none)
          × ((rest : List (Error X)) × (l ≡ e ∷ rest) × All (λ x. x ≡ websocket_closed) rest))
  Settled (ended closed) slot l = (slot ≡ none) × All (λ x. x ≡ websocket_closed) l
  Settled p slot l = (slot ≡ none) × (l ≡ [])

module _ {X T R : Type 0} ⦃tx : Mpsc TxChannelPayload T⦄ ⦃rx : Mpsc Message R⦄ where
  -- The error with which the call of an event returns at once, if it is a call that consults the slot:
  -- a send that cannot be queued, a receive, or a poll.
  abbrev pub error_of : Connection X T R → Event X → List (Error X)
  error_of c (confirmed m id) = call_error (send_confirmed c.receiver c.terminal_error m id).2
  error_of c (unconfirmed m) = sent_error (send_unconfirmed c.receiver c.terminal_error m).2
  error_of c receive = sent_error (recv_raw c.sender c.terminal_error).2
  error_of c poll = item_error (poll_recv_raw c.sender c.terminal_error).2
  error_of c _ = []

  -- All such errors of a run, oldest first.
  unfoldable pub surfaced : Keepalive → Connection X T R → List (Event X) → List (Error X)
  surfaced k c [] = []
  surfaced k c (e ∷ es) =
      error_of c e ++ elim (step k c e) [ none ↦ [] | some c' ↦ surfaced k c' es ]

  -- A call leaves the slot alone and gives no error, or it takes what is in the slot of a loop that has
  -- dropped its ends.
  IsDropped : Connection X T R → Type 0
  IsDropped c = ((rx.view c.sender).sending ≡ false) ⊎ ((tx.view c.receiver).receiving ≡ false)

  Takes : Connection X T R → Connection X T R → List (Error X) → Type 0
  Takes c c' l =
      (c'.phase ≡ c.phase)
      × (((c'.terminal_error ≡ c.terminal_error) × (l ≡ []))
          ⊎ ((c'.terminal_error ≡ none)
              × (l ≡ get_or c.terminal_error websocket_closed ∷ [])
              × IsDropped c))

  on_confirmed-Takes :
      (c c' : Connection X T R) (m : Message) (id : ℕ)
      → on_confirmed c m id ≡ some c'
      → Takes c c' (error_of c (confirmed m id))
  unfolding on_confirmed send_confirmed Takes IsDropped
  on_confirmed-Takes c c' m id e = elim (Bool-cases (tx.view c.receiver).receiving) [
    | inl alive ↦ (ground arith, inl (ground (arith, tx.reserve_lem c.receiver)))
    | inr gone ↦ (ground arith, inr (ground (arith, tx.reserve_lem c.receiver)))
  ]

  on_unconfirmed-Takes :
      (c c' : Connection X T R) (m : Message)
      → on_unconfirmed c m ≡ some c'
      → Takes c c' (error_of c (unconfirmed m))
  unfolding on_unconfirmed send_unconfirmed Takes IsDropped
  on_unconfirmed-Takes c c' m e = elim (Bool-cases (tx.view c.receiver).receiving) [
    | inl alive ↦ (ground arith, inl (ground (arith, tx.reserve_lem c.receiver)))
    | inr gone ↦ (ground arith, inr (ground (arith, tx.reserve_lem c.receiver)))
  ]

  -- The channel has ended only if the sending end has been dropped.
  recv-none :
      (q : List Message) (c : Connection X T R)
      → (rx.view c.sender).queue ≡ q
      → (rx.recv c.sender).1 ≡ ready none
      → (rx.view c.sender).sending ≡ false
  recv-none [] c e h = ground (arith, rx.result-recv c.sender)
  recv-none (m ∷ q) c e h = ground (arith, rx.result-recv c.sender)

  on_receive-Takes :
      (c c' : Connection X T R) → on_receive c ≡ some c' → Takes c c' (error_of c receive)
  unfolding on_receive recv_raw Takes IsDropped
  on_receive-Takes c c' e = elim (Poll-cases (rx.recv c.sender).1) [
    | inl (some m, r) ↦ (ground arith, inl (ground arith))
    | inl (none, r) ↦
        let gone = recv-none (rx.view c.sender).queue c refl r in
        (ground arith, inr (ground arith, ground arith, inl gone))
    | inr r ↦ absurd (ground arith)
  ]

  on_poll-Takes : (c c' : Connection X T R) → on_poll c ≡ some c' → Takes c c' (error_of c poll)
  unfolding on_poll poll_recv_raw Takes IsDropped
  on_poll-Takes c c' e = elim (Poll-cases (rx.recv c.sender).1) [
    | inl (some m, r) ↦ (ground arith, inl (ground arith))
    | inl (none, r) ↦ elim (Option-cases c.terminal_error) [
      | inl empty ↦ (ground arith, inl (ground arith))
      | inr (x, there) ↦
          let gone = recv-none (rx.view c.sender).queue c refl r in
          (ground arith, inr (ground arith, ground arith, inl gone))
    ]
    | inr r ↦ absurd (ground arith)
  ]

  call-Takes :
      (k : Keepalive) (c c' : Connection X T R) (e : Event X)
      → step k c e ≡ some c'
      → is_arm e ≡ false
      → Takes c c' (error_of c e)
  unfolding step on_closing send_close Takes
  call-Takes k c c' (arm a) e n = absurd (ground arith)
  call-Takes k c c' (confirmed m id) e n = on_confirmed-Takes c c' m id e
  call-Takes k c c' (unconfirmed m) e n = on_unconfirmed-Takes c c' m e
  call-Takes k c c' receive e n = on_receive-Takes c c' e
  call-Takes k c c' poll e n = on_poll-Takes c c' e
  call-Takes k c c' (closing id) e n = (ground arith, inl (ground arith))
  call-Takes k c c' (cancel id) e n = (ground arith, inl (ground arith))
  call-Takes k c c' drop_receiver e n = (ground arith, inl (ground arith))
  call-Takes k c c' drop_senders e n = (ground arith, inl (ground arith))

  Takes-Settled :
      (p : Phase X) (c c' : Connection X T R) (l r : List (Error X))
      → Recorded p c.task
      → Takes c c' r
      → Settled p c.terminal_error l
      → Settled p c'.terminal_error (l ++ r)
  unfolding Takes IsDropped
  Takes-Settled p c c' l r w (_, inl (same, none_given)) h =
      subst (λ x. Settled p x (l ++ r)) (sym same)
        (subst (Settled p c.terminal_error) (sym (append-nil l) ∙ ap (λ x. l ++ x) (sym none_given))
          h)
  Takes-Settled selecting c c' l r w (_, inr (_, _, gone)) h = absurd (ground arith)
  Takes-Settled (holding m) c c' l r w (_, inr (_, _, gone)) h = absurd (ground arith)
  Takes-Settled (ended running) c c' l r w t h = absurd h
  Takes-Settled (ended (error e)) c c' l r w (_, inr (empty, given, _)) (inl (there, fresh)) =
      inr (empty, ([], ground arith, tt))
  Takes-Settled (ended (error e)) c c' l r w (_, inr (empty, given, _))
        (inr (gone, (rest, all, closed_))) =
      inr (
        empty,
        (
          rest ++ websocket_closed ∷ [],
          ground arith,
          All-snoc (λ x. x ≡ websocket_closed) rest websocket_closed closed_ refl,
        ),
      )
  Takes-Settled (ended closed) c c' l r w (_, inr (empty, given, _)) (gone, all) =
      let one : r ≡ websocket_closed ∷ [] = ground arith in
      (
        empty,
        subst (λ x. All (λ x. x ≡ websocket_closed) (l ++ x)) (sym one)
            (All-snoc (λ x. x ≡ websocket_closed) l websocket_closed all refl),
      )

  written-Settled :
      (p : Phase X) (t : Task X T R)
      → Recorded p t
      → t.terminal_error ≡ slot_after p none
      → Settled p t.terminal_error []
  written-Settled selecting t w e = (e, refl)
  written-Settled (holding m) t w e = (e, refl)
  written-Settled (ended running) t w e = absurd w
  written-Settled (ended (error x)) t w e = inl (e, refl)
  written-Settled (ended closed) t w e = (e, tt)

  arm-Settled :
      (p : Phase X) (t t' : Task X T R) (l : List (Error X))
      → is_ended p ≡ false
      → Recorded t'.phase t'
      → t'.terminal_error ≡ slot_after t'.phase t.terminal_error
      → Settled p t.terminal_error l
      → Settled t'.phase t'.terminal_error l
  arm-Settled selecting t t' l g w e (empty, fresh) =
      subst (Settled t'.phase t'.terminal_error) (sym fresh)
        (written-Settled t'.phase t' w (e ∙ ap (slot_after t'.phase) empty))
  arm-Settled (holding m) t t' l g w e (empty, fresh) =
      subst (Settled t'.phase t'.terminal_error) (sym fresh)
        (written-Settled t'.phase t' w (e ∙ ap (slot_after t'.phase) empty))
  arm-Settled (ended s) t t' l g w e h = absurd (ground arith)

  pub step-Settled :
      (k : Keepalive) (c c' : Connection X T R) (e : Event X) (l : List (Error X))
      → step k c e ≡ some c'
      → IsRecorded c
      → Settled c.phase c.terminal_error l
      → Settled c'.phase c'.terminal_error (l ++ error_of c e)
  unfolding step Takes
  step-Settled k c c' (arm a) l e w h =
      subst (Settled c'.phase c'.terminal_error) (sym (append-nil l))
        (elim (Bool-cases (is_ended c.phase)) [
          | inl over ↦ absurd (ground (arith, ended_stuck k c.task a over))
          | inr going ↦
              arm-Settled c.phase c.task c'.task l going (step-IsRecorded k c c' (arm a) e w)
                (socket_loop_split_records k c.task a c'.task (ground arith)) h
        ])
  step-Settled k c c' x l e w h =
      let takes = call-Takes k c c' x e (ground arith) in
      subst (λ p. Settled p c'.terminal_error (l ++ error_of c x)) (sym takes.0)
        (Takes-Settled c.phase c c' l (error_of c x) w takes h)

  pub run-Settled :
      (k : Keepalive) (c : Connection X T R) (es : List (Event X)) (c' : Connection X T R)
      (l : List (Error X))
      → run k c es ≡ some c'
      → IsRecorded c
      → Settled c.phase c.terminal_error l
      → Settled c'.phase c'.terminal_error (l ++ surfaced k c es)
  unfolding run surfaced
  run-Settled k c [] c' l e w h =
      subst (Settled c'.phase c'.terminal_error) (sym (append-nil l))
        (subst (λ (x : Connection X T R). Settled x.phase x.terminal_error l) (run-nil k c c' e) h)
  run-Settled k c (x ∷ es) c' l e w h = elim (Option-cases (step k c x)) [
    | inl stuck ↦ absurd (ground arith)
    | inr (c1, moved) ↦
        let later : run k c1 es ≡ some c' = ground arith in
        let split : surfaced k c (x ∷ es) ≡ error_of c x ++ surfaced k c1 es = ground arith in
        subst (Settled c'.phase c'.terminal_error)
          (append_assoc l (error_of c x) (surfaced k c1 es) ∙ ap (λ s. l ++ s) (sym split))
          (run-Settled k c1 es c' (l ++ error_of c x) later (step-IsRecorded k c c1 x moved w)
            (step-Settled k c c1 x l moved w h))
  ]

  -- The error that ended the loop surfaces exactly once, and first: over any run from a new
  -- connection, the slot is empty and no call has given an error out of it while the loop runs. Once
  -- the loop has ended with an error, either that error is in the slot and no call has given one, or
  -- the slot is empty, the first call that gave an error gave that one, and every later one gave
  -- `WebsocketClosed`. After a close the slot is empty, and the calls have given `WebsocketClosed`
  -- alone. The task has its ends of both channels while the loop runs; once it has ended, they are
  -- dropped, and no payload waits any more.
  pub run_surfaces :
      (k : Keepalive) (n : ChannelSize) (o : Outputs X) (es : List (Event X)) (c : Connection X T R)
      → run k (start n o) es ≡ some c
      → Settled c.phase c.terminal_error (surfaced k (start n o) es) × Recorded c.phase c.task
  unfolding start
  run_surfaces k n o es c e = (
    run-Settled k (start n o) es c [] e (refl, ground (arith, rx.view-channel n, tx.view-channel n))
        (refl, refl),
    run_cause k n o es c e,
  )
