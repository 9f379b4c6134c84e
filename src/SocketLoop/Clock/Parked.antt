-- ===== src/SocketLoop/Clock/Parked.antt =====
-- The keepalives of a task that waits with one frame in hand.
use socketeer.Common.{
  ℕ, ◌≡◌, refl, true, false, List, [], ◌∷◌, Option, none, some, ok, All, ◌≤◌, ◌+◌, ◌*◌, zero, suc,
  length, Option-cases, ◌∙◌, ap, sym, inl, inr, arith,
}
use socketeer.Message.{Message}
use socketeer.Runtime.Channel.{Mpsc, has_room}
use socketeer.Runtime.Sink.{SinkCall, sends}
use socketeer.SocketLoop.Handlers.{TxChannelPayload, keepalive_frame, send_keepalive}
use socketeer.SocketLoop.Task.{Keepalive, Task, Arm, sleep, holding, socket_loop_split}
use socketeer.SocketLoop.Clock.{Tick, timed_step, timed_run, elapsed}

-- `n` keepalives after the calls `l`.
abbrev pub keepalives : ℕ → Message → List SinkCall → List SinkCall
keepalives zero m l = l
keepalives (suc n) m l = sends m ∷ keepalives n m l

keepalives-suc :
    (n : ℕ) (m : Message) (l : List SinkCall)
    → keepalives n m (sends m ∷ l) ≡ sends m ∷ keepalives n m l
keepalives-suc zero m l = refl
keepalives-suc (suc n) m l = rw (keepalives-suc n m l) refl

module _ {X T R : Type 0} ⦃tx : Mpsc TxChannelPayload T⦄ ⦃rx : Mpsc Message R⦄ where
  -- The task waits with the frame `m`, for a program that neither sends nor receives: nothing waits to
  -- be sent, the receive channel is full, and both halves of the handle are there.
  abbrev pub IsParked : Message → Task X T R → Type 0
  IsParked m t =
      (t.phase ≡ holding m)
      × ((tx.view t.receiver).queue ≡ [])
      × ((tx.view t.receiver).sending ≡ true)
      × ((rx.view t.sender).receiving ≡ true)
      × (has_room (rx.view t.sender) ≡ false)

  abbrev After : Keepalive → Message → ℕ → Task X T R → Task X T R → ℕ → Type 0
  After k m i t t' d =
      IsParked m t'
      × (t'.sink.calls ≡ sends (keepalive_frame k.message) ∷ t.sink.calls)
      × (t'.sink.answer ≡ t.sink.answer)
      × (i ≤ d)

  parked_arm :
      (k : Keepalive) (m : Message) (t t' : Task X T R) (d : ℕ) (arm : Arm X) (i : ℕ)
      → k.interval ≡ some i
      → IsParked m t
      → t.sink.answer t.sink.calls (sends (keepalive_frame k.message)) ≡ ok tt
      → timed_step k t (record { delay = d; arm = arm }) ≡ some t'
      → After k m i t t' d
  unfolding timed_step socket_loop_split send_keepalive
  parked_arm k m t t' d arm i e h w st =
      ground (arith, tx.result-recv t.receiver, rx.reserve_lem t.sender)

  -- Once the interval is over, the keepalive can be sent.
  pub next_keepalive :
      (k : Keepalive) (m : Message) (t : Task X T R) (i d : ℕ)
      → k.interval ≡ some i
      → IsParked m t
      → i ≤ d
      → (t' : Task X T R) × (timed_step k t (record { delay = d; arm = sleep }) ≡ some t')
  unfolding timed_step socket_loop_split
  next_keepalive k m t i d e h over =
      elim (Option-cases (timed_step k t (record { delay = d; arm = sleep }))) [
        | inl stuck ↦ absurd (ground arith)
        | inr ready_then ↦ ready_then
      ]

  -- The task that waits with a frame goes on sending keepalives. For a program that neither sends nor
  -- receives (see `IsParked`), with a sink that takes all and timers that fire at most `late` after the
  -- interval `i`: after `n` steps the task still waits with the same frame, it has sent nothing but `n`
  -- keepalives, the next one can be sent as soon as the interval is over, and these steps took between
  -- `n * i` and `n * (i + late)` milliseconds.
  pub timed_run-keepalives :
      (k : Keepalive) (m : Message) (t t' : Task X T R) (ticks : List (Tick X)) (i late : ℕ)
      → k.interval ≡ some i
      → IsParked m t
      → ((l : List SinkCall) (c : SinkCall) → t.sink.answer l c ≡ ok tt)
      → All (λ tick. tick.delay ≤ i + late) ticks
      → timed_run k t ticks ≡ some t'
      → IsParked m t'
        × (t'.sink.calls ≡ keepalives (length ticks) (keepalive_frame k.message) t.sink.calls)
        × ((next : Task X T R) × (timed_step k t' (record { delay = i; arm = sleep }) ≡ some next))
        × (length ticks * i ≤ elapsed ticks)
        × (elapsed ticks ≤ length ticks * (i + late))
  unfolding timed_run
  timed_run-keepalives k m t t' [] i late e h w on_time r =
      let same : t ≡ t' = cc in
      rw (← same) (h, refl, next_keepalive k m t i i e h (omega arith), omega arith, omega arith)
  timed_run-keepalives k m t t' (tick ∷ ticks) i late e h w on_time r =
      let go_on : Option (Task X T R) → Option (Task X T R) =
        λ o. elim o [ none ↦ none | some u ↦ timed_run k u ticks ] in
      elim (Option-cases (timed_step k t tick)) [
        | inl stuck ↦ let never : none ≡ some t' = sym (ap go_on stuck) ∙ r in absurd (cc)
        | inr (t1, stepped) ↦
            let (h1, calls, answer, soon) =
              parked_arm k m t t1 tick.delay tick.arm i e h (w _ _) stepped in
            let (h', calls', again, low, high) =
              timed_run-keepalives k m t1 t' ticks i late e h1
                (λ l c. ap (λ f. f l c) answer ∙ w l c) on_time.1 (sym (ap go_on stepped) ∙ r) in
            let all_calls =
              calls'
              ∙ ap (keepalives (length ticks) (keepalive_frame k.message)) calls
              ∙ keepalives-suc (length ticks) _ _ in
            (h', all_calls, again, ground (arith, low, soon), ground (arith, high, on_time.0))
      ]
