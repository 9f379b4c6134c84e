-- ===== src/Connection/Ledger.antt =====
-- The way of the data frames over a whole run: read from the stream, held by the task, queued in the
-- channel, delivered to the program.
use mathlib.Core.Bool.{false≢true}
use socketeer.Common.{
  ◌≤◌, ◌≡◌, refl, sym, ap, ◌∙◌, ◌⊎◌, inl, inr, true, false, List, [], ◌∷◌, ◌++◌, none, some, ready,
  arith, append-nil, append_assoc, length, Bool-cases, All,
}
use socketeer.Message.{Message}
use socketeer.Runtime.Channel.{ChannelSize, Mpsc, ChannelView, recv_from}
use socketeer.SocketLoop.Handlers.{TxChannelPayload, Outputs}
use socketeer.SocketLoop.Task.{Keepalive, Phase, selecting, holding, ended}
use socketeer.SocketLoop.Task.Frames.{
  read_by, in_hand, is_ended, lost, queued, is_received, ended_stuck, socket_loop_split_frames,
}
use socketeer.SocketLoop.Task.Senders.{IsData}
use socketeer.Connection.Change.{
  read, Received, Change, by_task, quiet, taken, abandoned, run-nil, run-cons,
}
use socketeer.Connection.Kept.{IsAbandoned, IsAbandoned-stable, run-Holds, Change-in_hand}
use socketeer.Connection.{Connection, Event, run, start}

lost_self : {X : Type 0} (p : Phase X) → lost p p ≡ []
lost_self selecting = refl
lost_self (holding m) = refl
lost_self (ended s) = refl

length-lost : {X : Type 0} (p q : Phase X) → length (lost p q) ≤ 1
length-lost selecting q = ground arith
length-lost (holding m) q = ground arith
length-lost (ended s) q = ground arith

regroup : (d q h r : List Message) → (d ++ (q ++ h)) ++ r ≡ d ++ (q ++ (h ++ r))
regroup d q h r = simp append_assoc

pub recv_from-queue :
    (q : List Message) (v : ChannelView Message) {m : Message}
    → v.queue ≡ q
    → (recv_from q v).1 ≡ ready (some m)
    → v.queue ≡ m ∷ (recv_from q v).0.queue
recv_from-queue [] v e h = ground arith
recv_from-queue (a ∷ q) v e h = ground arith

recv_from-end :
    (q : List Message) (v : ChannelView Message)
    → v.queue ≡ q
    → (recv_from q v).1 ≡ ready none
    → (v.queue ≡ []) × ((recv_from q v).0.queue ≡ [])
recv_from-end [] v e h = ground arith
recv_from-end (a ∷ q) v e h = ground arith

-- All that the events of a run read from the stream.
abbrev pub reads : {X : Type 0} → List (Event X) → List Message
reads [] = []
reads (e ∷ es) = read e ++ reads es

module _ {X T R : Type 0} ⦃tx : Mpsc TxChannelPayload T⦄ ⦃rx : Mpsc Message R⦄ where
  -- Delivered, queued and held, oldest first.
  abbrev pub frames : Connection X T R → List Message
  frames c = c.delivered ++ (queued c.task ++ in_hand c.phase)

  abbrev Accounts : Connection X T R → List Message → Connection X T R → Type 0
  Accounts c r c' = frames c ++ r ≡ frames c' ++ lost c.phase c'.phase

  Received-Accounts : (c c' : Connection X T R) → Received c c' → Accounts c [] c'
  Received-Accounts c c' (moved, phase, inl (m, got, d)) =
      rw (phase, lost_self c.phase, d, split) (simp (append_assoc, append-nil))
    where
      split : queued c.task ≡ m ∷ queued c'.task
      split = ground (
        arith,
        rx.view-recv c.sender,
        rx.result-recv c.sender,
        recv_from-queue (queued c.task) (rx.view c.sender) {m = m},
      )
  Received-Accounts c c' (moved, phase, inr (got, d)) =
      rw (phase, lost_self c.phase, d, same.0, same.1) refl
    where
      same : (queued c.task ≡ []) × (queued c'.task ≡ [])
      same = ground (
        arith,
        rx.view-recv c.sender,
        rx.result-recv c.sender,
        recv_from-end (queued c.task) (rx.view c.sender),
      )

  Change-Accounts :
      (k : Keepalive) (c c' : Connection X T R) (e : Event X)
      → Change k c c' e
      → is_received c'.task ≡ true
      → Accounts c (read e) c'
  Change-Accounts k c c' e (by_task a r moved d) h =
      rw (r, d)
        (regroup c.delivered (queued c.task) (in_hand c.phase) (read_by a)
          ∙ ap (◌++◌ c.delivered) (socket_loop_split_frames k c.task a c'.task moved h)
          ∙ sym (regroup c.delivered (queued c'.task) (in_hand c'.phase) (lost c.phase c'.phase)))
  Change-Accounts k c c' e (quiet r same) h =
      rw (r, same.0, same.1, same.2) (ap (◌++◌ (frames c)) (sym (lost_self c.phase)))
  Change-Accounts k c c' e (taken r got) h = rw r (Received-Accounts c c' got)
  Change-Accounts k c c' e (abandoned r gone _ _) h =
      absurd (ground (arith, rx.view-drop_receiver c.sender))

  -- Behind the end of the loop nothing is read, and no frame is lost any more.
  Change-ended :
      (k : Keepalive) (c c' : Connection X T R) (e : Event X)
      → is_ended c.phase ≡ true
      → Change k c c' e
      → (read e ≡ []) × (c'.phase ≡ c.phase)
  Change-ended k c c' e h (by_task a r moved d) = absurd (ground (arith, ended_stuck k c.task a))
  Change-ended k c c' e h (quiet r same) = (r, same.1)
  Change-ended k c c' e h (taken r got) = (r, got.1)
  Change-ended k c c' e h (abandoned r _ phase _) = (r, phase)

  -- A consumer that is there at the end was there all the time.
  pub alive_before :
      (k : Keepalive) (c : Connection X T R) (es : List (Event X)) (c' : Connection X T R)
      → run k c es ≡ some c'
      → All IsData (in_hand c.phase)
      → is_received c'.task ≡ true
      → is_received c.task ≡ true
  alive_before k c es c' e d h = elim (Bool-cases (is_received c.task)) [
    | inl alive ↦ alive
    | inr dead ↦
        let dead' = (run-Holds IsAbandoned IsAbandoned-stable k c es c' e dead d).0 in
        absurd (false≢true (sym dead' ∙ h))
  ]

  run_ended :
      (k : Keepalive) (c : Connection X T R) (es : List (Event X)) (c' : Connection X T R)
      → run k c es ≡ some c'
      → All IsData (in_hand c.phase)
      → is_received c'.task ≡ true
      → is_ended c.phase ≡ true
      → (reads es ≡ []) × (frames c ≡ frames c') × (c'.phase ≡ c.phase)
  run_ended k c [] c' e d h over =
      (refl, ap frames (run-nil k c c' e), ap (λ x. x.phase) (sym (run-nil k c c' e)))
  run_ended k c (x ∷ es) c' e d h over =
      let (c1, change, later) = run-cons k c x es c' e in
      let (r, phase) = Change-ended k c c1 x over change in
      let d1 = Change-in_hand k c c1 x change d in
      let alive = alive_before k c1 es c' later d1 h in
      let (rs, same, phase') = run_ended k c1 es c' later d1 h (rw phase over) in
      let kept : lost c.phase c1.phase ≡ [] = rw phase (lost_self c.phase) in
      let same1 : frames c ≡ frames c1 = cc (
        Change-Accounts k c c1 x change alive,
        kept,
        r,
        append-nil (frames c),
        append-nil (frames c1),
      ) in
      (rw (r, rs), same1 ∙ same, phase' ∙ phase)

  pub run_accounts :
      (k : Keepalive) (c : Connection X T R) (es : List (Event X)) (c' : Connection X T R)
      → run k c es ≡ some c'
      → All IsData (in_hand c.phase)
      → is_received c'.task ≡ true
      → (gone : List Message) × (frames c ++ reads es ≡ frames c' ++ gone)
        × (length gone ≤ 1)
        × (is_ended c'.phase ≡ false → gone ≡ [])
  run_accounts k c [] c' e d h =
      ([], ap (λ (x : Connection X T R). frames x ++ []) (run-nil k c c' e), omega arith, λ _. refl)
  run_accounts k c (x ∷ es) c' e d h =
      let (c1, change, later) = run-cons k c x es c' e in
      let d1 = Change-in_hand k c c1 x change d in
      let acc = Change-Accounts k c c1 x change (alive_before k c1 es c' later d1 h) in
      elim (Bool-cases (is_ended c1.phase)) [
        | inl over ↦
            let (rs, same, phase) = run_ended k c1 es c' later d1 h over in
            (
              lost c.phase c1.phase,
              rw (rs, append-nil (read x)) (acc ∙ ap (λ fs. fs ++ lost c.phase c1.phase) same),
              length-lost c.phase c1.phase,
              λ going. absurd (false≢true (sym going ∙ ap is_ended phase ∙ over)),
            )
        | inr going ↦
            let (gone, same, few, none_gone) = run_accounts k c1 es c' later d1 h in
            let kept : lost c.phase c1.phase ≡ [] = rw going refl in
            let acc1 : frames c ++ read x ≡ frames c1 = cc (acc, kept, append-nil (frames c1)) in
            (
              gone,
              sym (append_assoc (frames c) (read x) (reads es))
                  ∙ ap (λ fs. fs ++ reads es) acc1
                  ∙ same,
              few,
              none_gone,
            )
      ]

  -- Whatever the network, the program and the scheduler do, from a new connection, as long as the
  -- program has not dropped its receiving end: the data frames read from the stream are, in order, the
  -- delivered ones, the queued ones and the one in hand, and then at most one frame that is gone, which
  -- there is only once the loop has ended.
  pub run_in_order :
      (k : Keepalive) (n : ChannelSize) (o : Outputs X) (es : List (Event X)) (c : Connection X T R)
      → run k (start n o) es ≡ some c
      → is_received c.task ≡ true
      → (gone : List Message) × (reads es
          ≡ (c.delivered ++ (queued c.task ++ in_hand c.phase)) ++ gone)
        × (length gone ≤ 1)
        × ((is_ended c.phase ≡ true) ⊎ (gone ≡ []))
  unfolding start
  run_in_order k n o es c e h =
      let (gone, same, few, none_gone) = run_accounts k (start n o) es c e tt h in
      let empty : frames (start n o) ≡ [] =
        append-nil (rx.view (rx.channel n)).queue
        ∙ ap (λ (v : ChannelView Message). v.queue) (rx.view-channel n) in
      (
        gone,
        sym (ap (λ fs. fs ++ reads es) empty) ∙ same,
        few,
        elim (Bool-cases (is_ended c.phase)) [
          | inl over ↦ inl over
          | inr going ↦ inr (none_gone going)
        ],
      )
