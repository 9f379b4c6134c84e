-- ===== src/Connection/Closed.antt =====
-- src/lib.rs: what `close_connection` returns, over any run before it.
use socketeer.Common.{
  ℕ, ◌≡◌, ◌⊎◌, inl, inr, refl, ap, ◌∙◌, List, [], ◌∷◌, ◌++◌, map, some, err, ready, arith,
  append-nil, Poll-cases, Option-cases,
}
use mathlib.Core.Path.{subst}
use socketeer.Message.{Message, Error}
use socketeer.Runtime.Channel.{ChannelSize, Mpsc}
use socketeer.SocketLoop.Handlers.{TxChannelPayload, Outputs, Sent, running, error, closed}
use socketeer.SocketLoop.Task.{Keepalive, Arm, Phase, selecting, holding, ended}
use socketeer.Handle.Calls.{
  TerminalError, Call, awaits, returned, panicked, take_terminal_error_opt, send_close,
}
use socketeer.Connection.Cause.{IsRecorded, step-IsRecorded, run-IsRecorded, run_cause}
use socketeer.Connection.Surfaced.{Settled, surfaced, step-Settled, run-Settled, run_surfaces}
use socketeer.Connection.Closing.{
  Ending, unfinished, crashed, finished, await_close, after_join, close_connection,
}
use socketeer.Connection.{Connection, Event, arm, closing, start, step, run, on_closing}

pub Ending-cases :
    {A : Type 0} (r : Ending A) → ((a : A) × (r ≡ finished a)) ⊎ (r ≡ unfinished) ⊎ (r ≡ crashed)
Ending-cases (finished a) = inl (a, refl)
Ending-cases unfinished = inr (inl refl)
Ending-cases crashed = inr (inr refl)

-- What a close returns when the loop has ended in the given phase and the given errors have surfaced
-- before.
abbrev pub Returns : {X : Type 0} → Phase X → List (Error X) → Sent X → Sent X → Type 0
Returns {X} p l close_sent answer =
    ((e : Error X) × (p ≡ ended (error e)) × (l ≡ []) × (answer ≡ err e))
    ⊎ ((e : Error X) × (rest : List (Error X)) × (p ≡ ended (error e))
        × (l ≡ e ∷ rest)
        × (answer ≡ close_sent))
    ⊎ ((p ≡ ended closed) × (answer ≡ close_sent))

after_join-Returns :
    {X : Type 0} (p : Phase X) (slot : TerminalError X) (l : List (Error X))
    (close_sent answer : Sent X)
    → Settled p slot l
    → after_join p slot close_sent ≡ finished answer
    → Returns p l close_sent answer
unfolding take_terminal_error_opt
after_join-Returns selecting slot l s a h e = absurd (ground arith)
after_join-Returns (holding m) slot l s a h e = absurd (ground arith)
after_join-Returns (ended running) slot l s a h e = absurd h
after_join-Returns (ended (error x)) slot l s a (inl (there, fresh)) e =
    inl (x, refl, fresh, ground arith)
after_join-Returns (ended (error x)) slot l s a (inr (gone, (rest, all, _))) e =
    inr (inl (x, rest, refl, all, ground arith))
after_join-Returns (ended closed) slot l s a (gone, _) e = inr (inr (refl, ground arith))

module _ {X T R : Type 0} ⦃tx : Mpsc TxChannelPayload T⦄ ⦃rx : Mpsc Message R⦄ where
  -- The invariants of a connection, with the errors that have surfaced.
  Holds : Connection X T R → List (Error X) → Type 0
  Holds c l = IsRecorded c × Settled c.phase c.terminal_error l

  surfaced-arms :
      (k : Keepalive) (c : Connection X T R) (arms : List (Arm X))
      → surfaced k c (map arm arms) ≡ []
  unfolding surfaced
  surfaced-arms k c [] = refl
  surfaced-arms k c (a ∷ arms) = elim (Option-cases (step k c (arm a))) [
    | inl stuck ↦ rw stuck refl
    | inr (c1, moved) ↦ rw moved (surfaced-arms k c1 arms)
  ]

  arms-Holds :
      (k : Keepalive) (c c' : Connection X T R) (arms : List (Arm X)) (l : List (Error X))
      → run k c (map arm arms) ≡ some c'
      → Holds c l
      → Holds c' l
  unfolding Holds
  arms-Holds k c c' arms l e (w, h) = (
    run-IsRecorded k c (map arm arms) c' e w,
    subst (Settled c'.phase c'.terminal_error)
        (ap (λ x. l ++ x) (surfaced-arms k c arms) ∙ append-nil l)
        (run-Settled k c (map arm arms) c' l e w h),
  )

  closing-Holds :
      (k : Keepalive) (c c' : Connection X T R) (id : ℕ) (l : List (Error X))
      → step k c (closing id) ≡ some c'
      → Holds c l
      → Holds c' l
  unfolding Holds
  closing-Holds k c c' id l e (w, h) = (
    step-IsRecorded k c c' (closing id) e w,
    subst (Settled c'.phase c'.terminal_error) (append-nil l)
        (step-Settled k c c' (closing id) l e w h),
  )

  -- The connection once the payload of the close has been queued.
  abbrev queued_close : Connection X T R → ℕ → Connection X T R
  queued_close c id = record c {
    task = record c.task { receiver = (send_close {X = X} c.receiver id).0 };
  }

  send_close-step :
      (k : Keepalive) (c : Connection X T R) (id : ℕ) (call : Call X)
      → (send_close {X = X} c.receiver id).1 ≡ ready call
      → step k c (closing id) ≡ some (queued_close c id)
  unfolding step on_closing
  send_close-step k c id call e = ground arith

  await_close-Holds :
      (k : Keepalive) (id : ℕ) (arms : List (Arm X)) (c c1 : Connection X T R) (close_sent : Sent X)
      (l : List (Error X))
      → await_close k id arms c ≡ (c1, finished close_sent)
      → Holds c l
      → Holds c1 l
  unfolding await_close
  await_close-Holds k id arms c c1 s l e h =
      elim (Poll-cases (send_close {X = X} c.receiver id).1) [
        | inr waits ↦ absurd (ground arith)
        | inl (panicked, r) ↦ absurd (ground arith)
        | inl (returned x, r) ↦
            let h1 = closing-Holds k c (queued_close c id) id l (send_close-step k c id _ r) h in
            let same : queued_close c id ≡ c1 = ground arith in
            subst (λ (x : Connection X T R). Holds x l) same h1
        | inl (awaits j, r) ↦
            let h1 = closing-Holds k c (queued_close c id) id l (send_close-step k c id _ r) h in
            elim (Option-cases (run k (queued_close c id) (map arm arms))) [
              | inl stuck ↦ absurd (ground arith)
              | inr (c2, moved) ↦
                  let same : c2 ≡ c1 = ground arith in
                  subst (λ (x : Connection X T R). Holds x l) same
                    (arms-Holds k (queued_close c id) c2 arms l moved h1)
            ]
      ]

  joined :
      (k : Keepalive) (id : ℕ) (arms last : List (Arm X)) (c c' : Connection X T R)
      (answer : Sent X)
      → close_connection k id arms last c ≡ (c', finished answer)
      → (c1 : Connection X T R) × (close_sent : Sent X) × (await_close k id arms c
          ≡ (c1, finished close_sent))
        × (run k c1 (map arm last) ≡ some c')
        × (after_join c'.phase c'.terminal_error close_sent ≡ finished answer)
  unfolding close_connection
  joined k id arms last c c' answer e = elim (Ending-cases (await_close k id arms c).1) [
    | inl (s, r) ↦ elim (Option-cases (run k (await_close k id arms c).0 (map arm last))) [
      | inl stuck ↦ absurd (ground arith)
      | inr (c2, moved) ↦ ((await_close k id arms c).0, s, ground arith, ground arith, ground arith)
    ]
    | inr (inl r) ↦ absurd (ground arith)
    | inr (inr r) ↦ absurd (ground arith)
  ]

  -- Closing a connection after any run from a new connection, if the close frame is queued and the
  -- call comes to an end without a panic, whatever the task does meanwhile: the loop has ended. If it
  -- has ended with an error that no call of the run has been given, `close_connection` returns that
  -- error; if a call has been given it, or the loop was closed, it returns what the sending of the
  -- close frame returned.
  pub run_closes :
      (k : Keepalive) (n : ChannelSize) (o : Outputs X) (es : List (Event X))
      (c c' : Connection X T R) (id : ℕ) (arms last : List (Arm X)) (answer : Sent X)
      → run k (start n o) es ≡ some c
      → close_connection k id arms last c ≡ (c', finished answer)
      → (close_sent : Sent X) × ((await_close k id arms c).1 ≡ finished close_sent)
        × Returns c'.phase (surfaced {T = T} {R = R} k (start n o) es) close_sent answer
  unfolding Holds
  run_closes k n o es c c' id arms last answer e f =
      let (c1, s, sent, ran, a) = joined k id arms last c c' answer f in
      let now : Holds c (surfaced {T = T} {R = R} k (start n o) es) =
        (run_cause k n o es c e, (run_surfaces k n o es c e).0) in
      let (_, h) = arms-Holds k c1 c' last _ ran (await_close-Holds k id arms c c1 s _ sent now) in
      (s, ground arith, after_join-Returns c'.phase c'.terminal_error _ s answer h a)
