-- ===== src/SocketLoop/Clock/Idle.antt =====
-- What the timer is for: a connection that is never idle.
use socketeer.Common.{ℕ, ◌≡◌, refl, List, [], ◌∷◌, Option, none, some, All, ◌<◌, ◌∙◌, ap, arith}
use socketeer.Message.{Message}
use socketeer.Runtime.Channel.{Mpsc}
use socketeer.SocketLoop.Handlers.{TxChannelPayload}
use socketeer.SocketLoop.Task.{Keepalive, Task, Arm, socket_loop_split}
use socketeer.SocketLoop.Clock.{Tick, timed_step, timed_run}

-- The options without a keepalive interval.
abbrev pub untimed : Keepalive → Keepalive
untimed k = record k { interval = none }

same_rest :
    {A B : Type 0} (o : Option A) {f g : A → Option B}
    → ((a : A) → f a ≡ g a)
    → elim o [ none ↦ none | some a ↦ f a ] ≡ elim o [ none ↦ none | some a ↦ g a ]
same_rest none h = refl
same_rest (some a) h = h a

module _ {X T R : Type 0} ⦃tx : Mpsc TxChannelPayload T⦄ ⦃rx : Mpsc Message R⦄ where
  untimed_arm :
      (k : Keepalive) (t : Task X T R) (d : ℕ) (arm : Arm X) (i : ℕ)
      → k.interval ≡ some i
      → d < i
      → timed_step k t (record { delay = d; arm = arm })
        ≡ timed_step (untimed k) t (record { delay = d; arm = arm })
  unfolding timed_step socket_loop_split
  untimed_arm k t d arm i e l = ground arith

  -- As long as some other arm comes first each time, within the interval, a loop with a keepalive
  -- interval runs as one without: step by step, with the same outcome, no keepalive is sent.
  pub timed_run-untimed :
      (k : Keepalive) (t : Task X T R) (ticks : List (Tick X)) (i : ℕ)
      → k.interval ≡ some i
      → All (λ tick. tick.delay < i) ticks
      → timed_run k t ticks ≡ timed_run (untimed k) t ticks
  unfolding timed_run
  timed_run-untimed k t [] i e h = refl
  timed_run-untimed k t (tick ∷ ticks) i e h =
      ap (λ o. elim o [ none ↦ none | some t' ↦ timed_run k t' ticks ])
        (untimed_arm k t tick.delay tick.arm i e h.0)
      ∙ same_rest (timed_step (untimed k) t tick) (λ t'. timed_run-untimed k t' ticks i e h.1)
