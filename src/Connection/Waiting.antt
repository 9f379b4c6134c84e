-- ===== src/Connection/Waiting.antt =====
-- src/socket_loop.rs: the wait for the one-shot behind a confirmed send, and where it leads.
use socketeer.Common.{
  ◌≡◌, ◌⊎◌, inl, inr, ℕ, Bool, true, false, List, [], none, some, Result, ok, err, Poll, ready,
  pending, arith, any, ◌==◌, if◌then◌else◌, Option-cases,
}
use socketeer.Runtime.Channel.{ChannelSize, Mpsc}
use socketeer.Message.{Message}
use socketeer.Runtime.Oneshot.{answer_to}
use socketeer.SocketLoop.Handlers.{TxChannelPayload, Outputs, Sent, running, error, closed}
use socketeer.SocketLoop.Task.{Keepalive, Task, Phase, selecting, holding, ended}
use socketeer.SocketLoop.Task.Frames.{is_ended}
use socketeer.SocketLoop.Task.Ending.{Recorded}
use socketeer.Handle.Calls.{Call, returned, panicked, confirm}
use socketeer.Connection.Cause.{run_cause}
use socketeer.Connection.{Connection, Event, run, start}

abbrev pub carries : ℕ → TxChannelPayload → Bool
carries id p = elim p.response_tx [ some j ↦ j == id | none ↦ false ]

module _ {X T R : Type 0} ⦃tx : Mpsc TxChannelPayload T⦄ ⦃rx : Mpsc Message R⦄ where
  -- `rx.await` for the one-shot `id`: the answer, if there is one; otherwise the wait goes on as long
  -- as a payload with the sending end is in the queue, and then finds that end dropped.
  unfoldable pub await_answer : ℕ → Connection X T R → Poll (Result (Sent X) (Unit {0}))
  await_answer id c = elim (answer_to id c.oneshots.answered) [
    | some r ↦ ready (ok r)
    | none ↦ if any (carries id) (tx.view c.receiver).queue then pending else ready (err tt)
  ]

  -- The rest of `send_confirmed` and of `send_close`.
  unfoldable pub resume : ℕ → Connection X T R → Poll (Call X)
  unfolding await_answer confirm
  resume id c = elim (await_answer id c) [ pending ↦ pending | ready r ↦ ready (confirm r) ]

  pub Recorded-emptied :
      (p : Phase X) (t : Task X T R)
      → is_ended p ≡ true
      → Recorded p t
      → (tx.view t.receiver).queue ≡ []
  Recorded-emptied selecting t e h = absurd (ground arith)
  Recorded-emptied (holding m) t e h = absurd (ground arith)
  Recorded-emptied (ended running) t e h = absurd h
  Recorded-emptied (ended (error x)) t e h = ground (arith, h.1)
  Recorded-emptied (ended closed) t e h = ground (arith, h.1)

  -- Over any run from a new connection: once the loop has ended, no call waits on its one-shot any
  -- more. It returns the answer that the loop gave it; and if the loop gave none, it panics.
  pub run_resumes :
      (k : Keepalive) (n : ChannelSize) (o : Outputs X) (es : List (Event X)) (c : Connection X T R)
      (id : ℕ)
      → run k (start n o) es ≡ some c
      → is_ended c.phase ≡ true
      → ((r : Sent X) × (answer_to id c.oneshots.answered ≡ some r)
          × (resume id c ≡ ready (returned r)))
        ⊎ ((answer_to id c.oneshots.answered ≡ none) × (resume id c ≡ ready panicked))
  unfolding resume
  run_resumes k n o es c id e h =
      let empty = Recorded-emptied c.phase c.task h (run_cause k n o es c e) in
      elim (Option-cases (answer_to id c.oneshots.answered)) [
        | inl gone ↦ inr (gone, ground arith)
        | inr (r, there) ↦ inl (r, there, ground arith)
      ]
