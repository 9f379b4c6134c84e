-- ===== src/Connection/Flushed.antt =====
-- src/socket_loop.rs, src/lib.rs: what has been written by the time that a call is answered.
use mathlib.Core.Path.{subst}
use socketeer.Common.{
  ◌≡◌, ◌⊎◌, inl, inr, refl, sym, ap, ◌∙◌, ℕ, Bool, true, false, List, [], ◌∷◌, ◌++◌, some, arith,
  any, append-nil, append_assoc, Bool-cases, Option-cases,
}
use socketeer.Message.{Message, is_data, data_frames}
use socketeer.Runtime.Channel.{ChannelSize, Mpsc}
use socketeer.Runtime.Sink.{written}
use socketeer.Runtime.Oneshot.{answer_to}
use socketeer.SocketLoop.Handlers.{TxChannelPayload, Outputs, Sent, keepalive_frame}
use socketeer.SocketLoop.Task.{Keepalive}
use socketeer.SocketLoop.Task.Frames.{is_ended, ended_stuck}
use socketeer.Handle.Calls.{close_message}
use socketeer.Connection.Waiting.{carries}
use socketeer.Connection.Served.{asks, any-append}
use socketeer.Connection.Going.{IsOpen, IsRecorded-IsOpen}
use socketeer.Connection.Change.{run-nil}
use socketeer.Connection.Cause.{IsRecorded, step-IsRecorded}
use socketeer.Connection.{Connection, Event, arm, confirmed, closing, start, step, run}
use socketeer.Connection.Effects.{
  payload_of, payloads, payloads-append, data_of, data_of-append, call-Calls,
}
use socketeer.Connection.Flushing.{Flushed, arm-Flushed, Calls-Flushed}

any-payload_of : {X : Type 0} (id : ℕ) (e : Event X) → any (carries id) (payload_of e) ≡ asks id e
any-payload_of id e = ground arith

asks_one :
    {X : Type 0} (id : ℕ) (e : Event X)
    → asks id e ≡ true
    → (p : TxChannelPayload) × (payload_of e ≡ p ∷ [])
asks_one id (confirmed m j) h = (record { message = m; response_tx = some j }, refl)
asks_one id (closing j) h = (record { message = close_message; response_tx = some j }, refl)
asks_one id e h = absurd (ground arith)

any-payloads :
    {X : Type 0} (id : ℕ) (es : List (Event X)) → any (carries id) (payloads es) ≡ any (asks id) es
any-payloads id [] = refl
any-payloads id (e ∷ es) =
    any-append (carries id) (payload_of e) (payloads es)
    ∙ rw (any-payload_of id e, any-payloads id es) refl

-- A list that has an element with the property, of which none of the first ones has it, goes beyond
-- these.
goes_beyond :
    {A : Type 0} (f : A → Bool) (taken rest first : List A) (a : A) (others : List A)
    → taken ++ rest ≡ first ++ a ∷ others
    → any f first ≡ false
    → any f taken ≡ true
    → (later : List A) × (taken ≡ (first ++ a ∷ []) ++ later)
goes_beyond f [] rest first a others e n h = absurd (ground arith)
goes_beyond f (x ∷ xs) rest [] a others e n h = (xs, ground arith)
goes_beyond f (x ∷ xs) rest (y ∷ ys) a others e n h =
    let (later, same) =
      goes_beyond f xs rest ys a others (ground arith) (ground arith) (ground arith) in
    (later, ground (arith, same))

module _ {X T R : Type 0} ⦃tx : Mpsc TxChannelPayload T⦄ ⦃rx : Mpsc Message R⦄ where
  IsRecorded-cases : (c : Connection X T R) → IsRecorded c → (is_ended c.phase ≡ true) ⊎ IsOpen c
  IsRecorded-cases c w = elim (Bool-cases (is_ended c.phase)) [
    | inl over ↦ inl over
    | inr going ↦ inr (IsRecorded-IsOpen c.phase c.task going w)
  ]

  step-Flushed :
      (k : Keepalive) (id : ℕ) (before : List Message) (ps : List TxChannelPayload)
      (c c' : Connection X T R) (e : Event X)
      → is_data (keepalive_frame k.message) ≡ false
      → step k c e ≡ some c'
      → IsRecorded c
      → Flushed id before ps c.task
      → Flushed id before (ps ++ payload_of e) c'.task
  unfolding step
  step-Flushed k id before ps c c' (arm a) ka e w h =
      subst (λ l. Flushed id before l c'.task) (sym (append-nil ps))
        (elim (Bool-cases (is_ended c.phase)) [
          | inl over ↦ absurd (ground (arith, ended_stuck k c.task a over))
          | inr going ↦ arm-Flushed a k id before ps c.task c'.task ka going (ground arith) h
        ])
  step-Flushed k id before ps c c' x ka e w h =
      Calls-Flushed id before ps (payload_of x) c c'
        (call-Calls k c c' x e (ground arith) (IsRecorded-cases c w)) h

  run-Flushed :
      (k : Keepalive) (id : ℕ) (before : List Message) (ps : List TxChannelPayload)
      (c : Connection X T R) (es : List (Event X)) (c' : Connection X T R)
      → is_data (keepalive_frame k.message) ≡ false
      → run k c es ≡ some c'
      → IsRecorded c
      → Flushed id before ps c.task
      → Flushed id before (ps ++ payloads es) c'.task
  unfolding run
  run-Flushed k id before ps c [] c' ka e w h =
      subst (λ l. Flushed id before l c'.task) (sym (append-nil ps))
        (subst (λ (x : Connection X T R). Flushed id before ps x.task) (run-nil k c c' e) h)
  run-Flushed k id before ps c (x ∷ es) c' ka e w h = elim (Option-cases (step k c x)) [
    | inl stuck ↦ absurd (ground arith)
    | inr (c1, moved) ↦
        subst (λ l. Flushed id before l c'.task) (append_assoc ps (payload_of x) (payloads es))
          (run-Flushed k id before (ps ++ payload_of x) c1 es c' ka (ground arith)
            (step-IsRecorded k c c1 x moved w) (step-Flushed k id before ps c c1 x ka moved w h))
  ]

  -- By the time that a confirmed send or a close has its answer, be it a success or a failure, every
  -- data frame that the program asked to send before it has been handed to the socket, confirmed or
  -- not, in the order in which they were asked for, and then the frame of that call itself; whatever
  -- has been written before the run is in front of them. This holds of any run from a new connection
  -- in which no earlier call has the same one-shot, with a keepalive that is no data frame.
  pub run_flushes :
      (k : Keepalive) (n : ChannelSize) (o : Outputs X) (es : List (Event X)) (e : Event X)
      (later_events : List (Event X)) (c : Connection X T R) (id : ℕ) (r : Sent X)
      → run k (start n o) (es ++ e ∷ later_events) ≡ some c
      → is_data (keepalive_frame k.message) ≡ false
      → o.oneshots.answered ≡ []
      → any (asks id) es ≡ false
      → asks id e ≡ true
      → answer_to id c.oneshots.answered ≡ some r
      → (later : List Message) × (data_frames (written c.sink.calls)
          ≡ data_frames (written o.sink.calls) ++ (data_of (payloads (es ++ e ∷ [])) ++ later))
  unfolding start
  run_flushes k n o es e later_events c id r ran ka fresh first this answered =
      let before = data_frames (written o.sink.calls) in
      let (taken, rest, all, wrote, among, _) =
        run-Flushed k id before [] (start n o) (es ++ e ∷ later_events) c ka ran
          (refl, ground (arith, rx.view-channel n, tx.view-channel n))
          (
            [],
            [],
            refl,
            sym (append-nil before),
            (λ h. absurd (ground arith)),
            inr (ground (arith, tx.view-channel n)),
          ) in
      let (p, one) = asks_one id e this in
      let (later, beyond) =
        goes_beyond (carries id) taken rest (payloads es) p (payloads later_events)
          (sym all
            ∙ payloads-append es (e ∷ later_events)
            ∙ ap (λ l. payloads es ++ (l ++ payloads later_events)) one)
          (any-payloads id es ∙ first) (among (ground arith)) in
      let mine : payloads (es ++ e ∷ []) ≡ payloads es ++ p ∷ [] =
        payloads-append es (e ∷ [])
        ∙ ap (λ l. payloads es ++ l) (append-nil (payload_of e) ∙ one) in
      (
        data_of later,
        wrote
            ∙ ap (λ l. before ++ l)
                (ap data_of beyond
                  ∙ data_of-append (payloads es ++ p ∷ []) later
                  ∙ ap (λ l. data_of l ++ data_of later) (sym mine)),
      )
