-- ===== src/Connection/Going.antt =====
-- Runs of a loop that has not ended: it has not ended at any step before, and it receives.
use mathlib.Core.Bool.{false≢true}
use socketeer.Common.{
  ◌≡◌, sym, ◌∙◌, inl, inr, true, false, List, [], ◌∷◌, some, arith, Bool-cases, Option-cases,
}
use socketeer.Message.{Message}
use socketeer.Runtime.Channel.{Mpsc}
use socketeer.SocketLoop.Handlers.{TxChannelPayload}
use socketeer.SocketLoop.Task.{Phase, selecting, holding, ended, Keepalive, Task}
use socketeer.SocketLoop.Task.Frames.{is_ended, ended_stuck}
use socketeer.SocketLoop.Task.Ending.{Recorded}
use socketeer.Connection.Change.{
  Change, by_task, quiet, taken, abandoned, step-Change, run-nil, run-cons,
}
use socketeer.Connection.Cause.{IsRecorded, step-IsRecorded}
use socketeer.Connection.{Connection, Event, step, run}

module _ {X T R : Type 0} ⦃tx : Mpsc TxChannelPayload T⦄ ⦃rx : Mpsc Message R⦄ where
  abbrev pub IsOpen : Connection X T R → Type 0
  IsOpen c = (tx.view c.receiver).receiving ≡ true

  -- A loop that has ended stays so.
  step_ended :
      (k : Keepalive) (c c' : Connection X T R) (e : Event X)
      → Change k c c' e
      → is_ended c.phase ≡ true
      → is_ended c'.phase ≡ true
  step_ended k c c' e (by_task a _ moved _) h = absurd (ground (arith, ended_stuck k c.task a))
  step_ended k c c' e (quiet _ same) h = ground (arith, same)
  step_ended k c c' e (taken _ (_, same, _)) h = ground (arith, same)
  step_ended k c c' e (abandoned _ _ same _) h = ground (arith, same)

  run_going :
      (k : Keepalive) (c : Connection X T R) (es : List (Event X)) (c' : Connection X T R)
      → run k c es ≡ some c'
      → is_ended c.phase ≡ true
      → is_ended c'.phase ≡ true
  run_going k c [] c' e h = rw (← run-nil k c c' e) h
  run_going k c (x ∷ es) c' e h =
      let (c1, change, later) = run-cons k c x es c' e in
      run_going k c1 es c' later (step_ended k c c1 x change h)

  pub IsRecorded-IsOpen :
      (p : Phase X) (t : Task X T R)
      → is_ended p ≡ false
      → Recorded p t
      → (tx.view t.receiver).receiving ≡ true
  IsRecorded-IsOpen selecting t h w = w.1.1
  IsRecorded-IsOpen (holding m) t h w = w.1.1
  IsRecorded-IsOpen (ended s) t h w = absurd (ground arith)

  pub going_before :
      (k : Keepalive) (c c' : Connection X T R) (e : Event X)
      → step k c e ≡ some c'
      → is_ended c'.phase ≡ false
      → is_ended c.phase ≡ false
  going_before k c c' e moved going = elim (Bool-cases (is_ended c.phase)) [
    | inl over ↦
        absurd (false≢true (sym going ∙ step_ended k c c' e (step-Change k c c' e moved) over))
    | inr still ↦ still
  ]

  -- The first step of a run, and the run behind it.
  pub run-head :
      (k : Keepalive) (c : Connection X T R) (e : Event X) (es : List (Event X))
      (c' : Connection X T R)
      → run k c (e ∷ es) ≡ some c'
      → (c1 : Connection X T R) × (step k c e ≡ some c1) × (run k c1 es ≡ some c')
  unfolding run
  run-head k c e es c' h = elim (Option-cases (step k c e)) [
    | inl stuck ↦ absurd (ground arith)
    | inr (c1, moved) ↦ (c1, moved, ground arith)
  ]

  -- The first step of such a run, and the run behind it.
  pub going-cons :
      (k : Keepalive) (c : Connection X T R) (e : Event X) (es : List (Event X))
      (c' : Connection X T R)
      → run k c (e ∷ es) ≡ some c'
      → IsRecorded c
      → is_ended c'.phase ≡ false
      → (c1 : Connection X T R) × (step k c e ≡ some c1)
        × (run k c1 es ≡ some c')
        × IsOpen c
        × IsRecorded c1
        × (is_ended c1.phase ≡ false)
  going-cons k c e es c' h w g =
      let (c1, moved, later) = run-head k c e es c' h in
      let going : is_ended c1.phase ≡ false = elim (Bool-cases (is_ended c1.phase)) [
        | inl over ↦ absurd (false≢true (sym g ∙ run_going k c1 es c' later over))
        | inr still ↦ still
      ] in
      (
        c1,
        moved,
        later,
        IsRecorded-IsOpen c.phase c.task (going_before k c c1 e moved going) w,
        step-IsRecorded k c c1 e moved w,
        going,
      )
