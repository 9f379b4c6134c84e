-- ===== src/Connection/Answered.antt =====
-- src/socket_loop.rs: how long a confirmed send waits.
use socketeer.Common.{
  ◌≡◌, ◌⊎◌, inl, inr, refl, ◌∙◌, ℕ, zero, suc, ◌≤◌, true, false, List, [], ◌∷◌, some, ready, arith,
  any, length, Option-cases, Bool-cases,
}
use socketeer.Message.{Message}
use socketeer.Runtime.Channel.{ChannelSize, Mpsc}
use socketeer.Runtime.Oneshot.{answer_to}
use socketeer.SocketLoop.Handlers.{TxChannelPayload, Outputs, Sent}
use socketeer.SocketLoop.Task.{Keepalive, outgoing, socket_loop_split}
use socketeer.SocketLoop.Task.Frames.{is_ended}
use socketeer.Handle.Calls.{Call, returned, panicked}
use socketeer.Connection.{Connection, Event, arm, start, step, run}
use socketeer.Connection.Waiting.{resume, Recorded-emptied}
use socketeer.Connection.Resuming.{run-step}
use socketeer.Connection.Cause.{IsRecorded, step-IsRecorded, run_cause}
use socketeer.Connection.Served.{asks, is_served, step-is_served, run-start-is_served}
use socketeer.Connection.Going.{IsRecorded-IsOpen}

-- The outgoing arm, `n` times.
abbrev pub outgoings : {X : Type 0} → ℕ → List (Event X)
outgoings zero = []
outgoings (suc n) = arm outgoing ∷ outgoings n

module _ {X T R : Type 0} ⦃tx : Mpsc TxChannelPayload T⦄ ⦃rx : Mpsc Message R⦄ where
  -- The call comes to an end; it returns, unless the loop has ended.
  abbrev pub IsAnswered : ℕ → Connection X T R → Type 0
  IsAnswered id c =
      ((r : Sent X) × (resume id c ≡ ready (returned r)))
      ⊎ ((is_ended c.phase ≡ true) × (call : Call X) × (resume id c ≡ ready call))

  write_next :
      (k : Keepalive) (c : Connection X T R) (p : TxChannelPayload) (q : List TxChannelPayload)
      → is_ended c.phase ≡ false
      → (tx.view c.receiver).queue ≡ p ∷ q
      → (c' : Connection X T R) × (step k c (arm outgoing) ≡ some c')
        × ((is_ended c'.phase ≡ true) ⊎ ((tx.view c'.receiver).queue ≡ q))
  unfolding step socket_loop_split
  write_next k c p q g v = elim (Option-cases (step k c (arm outgoing))) [
    | inl stuck ↦ absurd (ground (arith, tx.result-recv c.receiver))
    | inr (c', e) ↦ (c', e, ground (arith, tx.result-recv c.receiver, tx.view-recv c.receiver))
  ]

  over-IsAnswered :
      (id : ℕ) (c : Connection X T R) → is_ended c.phase ≡ true → IsRecorded c → IsAnswered id c
  unfolding resume
  over-IsAnswered id c h w =
      let empty = Recorded-emptied c.phase c.task h w in
      elim (Option-cases (answer_to id c.oneshots.answered)) [
        | inl gone ↦ inr (h, panicked, ground arith)
        | inr (r, there) ↦ inl (r, ground arith)
      ]

  answers_now :
      (k : Keepalive) (id : ℕ) (c : Connection X T R) (r : Sent X) (n : ℕ)
      → answer_to id c.oneshots.answered ≡ some r
      → (j : ℕ) × (c' : Connection X T R) × (j ≤ n)
        × (run k c (outgoings j) ≡ some c')
        × IsAnswered id c'
  unfolding run resume
  answers_now k id c r n there = (0, c, omega arith, refl, inl (r, ground arith))

  answers_from :
      (q : List TxChannelPayload) (k : Keepalive) (id : ℕ) (c : Connection X T R)
      → (tx.view c.receiver).queue ≡ q
      → IsRecorded c
      → is_ended c.phase ≡ false
      → is_served id c.task ≡ true
      → (j : ℕ) × (c' : Connection X T R) × (j ≤ length q)
        × (run k c (outgoings j) ≡ some c')
        × IsAnswered id c'
  answers_from [] k id c v w g s = elim (Option-cases (answer_to id c.oneshots.answered)) [
    | inl none_yet ↦ absurd (ground arith)
    | inr (r, there) ↦ answers_now k id c r 0 there
  ]
  answers_from (p ∷ q) k id c v w g s =
      let (c1, moved, later) = write_next k c p q g v in
      let w1 = step-IsRecorded k c c1 (arm outgoing) moved w in
      let one : (n : ℕ) → run k c (outgoings (suc n)) ≡ run k c1 (outgoings n) =
        λ n. run-step k c c1 (arm outgoing) (outgoings n) moved in
      elim (Bool-cases (is_ended c1.phase)) [
        | inl over ↦
            (1, c1, omega arith, one 0 ∙ (unfold run in refl), over-IsAnswered id c1 over w1)
        | inr going ↦
            let v1 : (tx.view c1.receiver).queue ≡ q = ground arith in
            let s1 =
              step-is_served k id c c1 (arm outgoing) moved (IsRecorded-IsOpen c.phase c.task g w)
                going (ground arith) in
            let (j, c', few, ran, answered) = answers_from q k id c1 v1 w1 going s1 in
            (suc j, c', omega arith, one j ∙ ran, answered)
      ]

  -- A confirmed send, or a close, that has been asked for in a run from a new connection, does not
  -- wait for ever: as long as the loop has not ended, its outgoing arm is ready, whether or not there
  -- is a frame in hand, until the call comes to an end, and it is taken at most once for each payload
  -- that waits. The call then returns, unless one of these sends has ended the loop.
  pub run_answers :
      (k : Keepalive) (n : ChannelSize) (o : Outputs X) (es : List (Event X)) (c : Connection X T R)
      (id : ℕ)
      → run k (start n o) es ≡ some c
      → is_ended c.phase ≡ false
      → any (asks id) es ≡ true
      → (j : ℕ) × (c' : Connection X T R) × (j ≤ length (tx.view c.receiver).queue)
        × (run k c (outgoings j) ≡ some c')
        × IsAnswered id c'
  run_answers k n o es c id e g a =
      answers_from (tx.view c.receiver).queue k id c refl (run_cause k n o es c e) g
        (run-start-is_served k n o es c id e g a)
