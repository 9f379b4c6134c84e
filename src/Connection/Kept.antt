-- ===== src/Connection/Kept.antt =====
-- What every event keeps of the receive channel.
use mathlib.Core.Path.{subst}
use socketeer.Common.{
  ℕ, ◌≤◌, ◌≡◌, refl, Bool-cases, ◌&&◌, sym, ◌∙◌, inl, inr, false, List, [], ◌∷◌, ◌++◌, some, ready,
  arith, All, All-snoc, length, length-append,
}
use socketeer.Message.{Message}
use socketeer.Runtime.Channel.{
  ChannelSize, Mpsc, ChannelView, recv_from, recv_from-receiving, has_room,
}
use socketeer.SocketLoop.Handlers.{TxChannelPayload, Outputs}
use socketeer.SocketLoop.Task.{Keepalive}
use socketeer.SocketLoop.Task.Frames.{in_hand}
use socketeer.SocketLoop.Task.Senders.{IsData, IsKept, socket_loop_split-kept}
use socketeer.Connection.Change.{Change, by_task, quiet, taken, abandoned, run-nil, run-cons}
use socketeer.Connection.{Connection, Event, run, start}

-- `P` survives what either side does with the channel.
pub record IsStable {R : Type 0} ⦃rx : Mpsc Message R⦄ (P : R → Type 0) : Type 0 where
  pub by_loop : IsKept P
  pub on_recv : (c : R) → P c → P (rx.recv c).0
  pub on_abandon : (c : R) → P c → P (rx.drop_receiver c)

module _ {X T R : Type 0} ⦃tx : Mpsc TxChannelPayload T⦄ ⦃rx : Mpsc Message R⦄ (P : R → Type 0)
    (stable : IsStable P) where
  abbrev pub Holds : Connection X T R → Type 0
  Holds c = P c.sender × All IsData (in_hand c.phase)

  pub Change-Holds :
      (k : Keepalive) (c c' : Connection X T R) (e : Event X) → Change k c c' e → Holds c → Holds c'
  Change-Holds k c c' e (by_task a _ moved _) h =
      socket_loop_split-kept P stable.by_loop k c.task a c'.task moved h.1 h.0
  Change-Holds k c c' e (quiet _ same) h = rw (same.0, same.1) h
  Change-Holds k c c' e (taken _ got) h = rw (got.0, got.1) (stable.on_recv c.sender h.0, h.1)
  Change-Holds k c c' e (abandoned _ gone phase _) h =
      rw (gone, phase) (stable.on_abandon c.sender h.0, h.1)

  pub run-Holds :
      (k : Keepalive) (c : Connection X T R) (es : List (Event X)) (c' : Connection X T R)
      → run k c es ≡ some c'
      → P c.sender
      → All IsData (in_hand c.phase)
      → P c'.sender × All IsData (in_hand c'.phase)
  run-Holds k c [] c' e p d = subst Holds (run-nil k c c' e) (p, d)
  run-Holds k c (x ∷ es) c' e p d =
      let (c1, change, later) = run-cons k c x es c' e in
      let h = Change-Holds k c c1 x change (p, d) in run-Holds k c1 es c' later h.0 h.1

length-recv_from :
    (q : List Message) (v : ChannelView Message)
    → v.queue ≡ q
    → ((recv_from q v).0.capacity ≡ v.capacity) × (length (recv_from q v).0.queue ≤ length q)
length-recv_from [] v e = ground arith
length-recv_from (m ∷ q) v e = ground arith

recv_from-CarriesData :
    (q : List Message) (v : ChannelView Message)
    → v.queue ≡ q
    → All IsData q
    → All IsData (recv_from q v).0.queue
recv_from-CarriesData [] v e h = rw e tt
recv_from-CarriesData (m ∷ q) v e h = h.1

recv_from-IsData :
    (q : List Message) (v : ChannelView Message) {m : Message}
    → All IsData q
    → (recv_from q v).1 ≡ ready (some m)
    → IsData m
recv_from-IsData [] v h e = absurd (ground arith)
recv_from-IsData (a ∷ q) v h e = ground (arith, h.0)

module _ {R : Type 0} ⦃rx : Mpsc Message R⦄ where
  abbrev pub IsBounded : ℕ → R → Type 0
  IsBounded n c = ((rx.view c).capacity ≡ n) × (length (rx.view c).queue ≤ n)

  pub IsBounded-stable : (n : ℕ) → IsStable (IsBounded n)
  IsBounded-stable n = record {
    by_loop = record {
      on_drop = λ c h. ground (arith, rx.view-drop_senders c);
      on_try =
          λ c m _ h. ground (arith, rx.view-try_send c m, length-append (rx.view c).queue (m ∷ []));
      on_permit_send = λ c m _ room h. ground (
        arith,
        rx.reserve_lem c,
        rx.view-permit_send c m,
        length-append (rx.view c).queue (m ∷ []),
      );
    };
    on_recv = λ c h. ground (arith, rx.view-recv c, length-recv_from (rx.view c).queue (rx.view c));
    on_abandon = λ c h. ground (arith, rx.view-drop_receiver c);
  }

  -- Every frame in the channel is a text or a binary frame.
  abbrev pub CarriesData : R → Type 0
  CarriesData c = All IsData (rx.view c).queue

  CarriesData-try_send :
      (c : R) (m : Message) → IsData m → CarriesData c → CarriesData (rx.try_send c m).0
  CarriesData-try_send c m d h = elim (Bool-cases ((rx.view c).receiving && has_room (rx.view c))) [
    | inl fits ↦
        let e : (rx.view (rx.try_send c m).0).queue ≡ (rx.view c).queue ++ m ∷ [] =
          ground (arith, rx.view-try_send c m) in
        rw e (All-snoc IsData (rx.view c).queue m h d)
    | inr no_room ↦
        let e : (rx.view (rx.try_send c m).0).queue ≡ (rx.view c).queue =
          ground (arith, rx.view-try_send c m) in
        rw e h
  ]

  pub CarriesData-stable : IsStable CarriesData
  CarriesData-stable = record {
    by_loop = record {
      on_drop = λ c h. rw (rx.view-drop_senders c) h;
      on_try = λ c m d h. CarriesData-try_send c m d h;
      on_permit_send =
          λ c m d _ h. rw (rx.view-permit_send c m) (All-snoc IsData (rx.view c).queue m h d);
    };
    on_recv =
        λ c h. rw (rx.view-recv c) (recv_from-CarriesData (rx.view c).queue (rx.view c) refl h);
    on_abandon = λ c h. rw (rx.view-drop_receiver c) tt;
  }

  -- The consumer has dropped its end.
  abbrev pub IsAbandoned : R → Type 0
  IsAbandoned c = (rx.view c).receiving ≡ false

  pub IsAbandoned-stable : IsStable IsAbandoned
  IsAbandoned-stable = record {
    by_loop = record {
      on_drop = λ c h. ground (arith, rx.view-drop_senders c);
      on_try = λ c m _ h. ground (arith, rx.view-try_send c m);
      on_permit_send = λ c m _ _ h. ground (arith, rx.view-permit_send c m);
    };
    on_recv =
        λ c h. ground (arith, rx.view-recv c, recv_from-receiving (rx.view c).queue (rx.view c));
    on_abandon = λ c h. ground (arith, rx.view-drop_receiver c);
  }

-- The frame in hand is always a data frame.
module _ {X T R : Type 0} ⦃tx : Mpsc TxChannelPayload T⦄ ⦃rx : Mpsc Message R⦄ where
  pub Change-in_hand :
      (k : Keepalive) (c c' : Connection X T R) (e : Event X)
      → Change k c c' e
      → All IsData (in_hand c.phase)
      → All IsData (in_hand c'.phase)
  Change-in_hand k c c' e change d =
      (Change-Holds (λ _. Unit {0})
        (record {
          by_loop = record {
            on_drop = λ _ _. tt;
            on_try = λ _ _ _ _. tt;
            on_permit_send = λ _ _ _ _ _. tt;
          };
          on_recv = λ _ _. tt;
          on_abandon = λ _ _. tt;
        })
        k c c' e change (tt, d)).1

  Change-delivered :
      (k : Keepalive) (c c' : Connection X T R) (e : Event X)
      → Change k c c' e
      → CarriesData c.sender
      → All IsData c.delivered
      → All IsData c'.delivered
  Change-delivered k c c' e (by_task _ _ _ same) q d = rw same d
  Change-delivered k c c' e (quiet _ same) q d = rw same.2 d
  Change-delivered k c c' e (taken _ (_, _, inl (m, got, more))) q d = rw more (
      All-snoc IsData c.delivered m d (
        recv_from-IsData (rx.view c.sender).queue (rx.view c.sender) q
          (sym (rx.result-recv c.sender) ∙ got)))
  Change-delivered k c c' e (taken _ (_, _, inr (_, same))) q d = rw same d
  Change-delivered k c c' e (abandoned _ _ _ same) q d = rw same d

  run-delivered :
      (k : Keepalive) (c : Connection X T R) (es : List (Event X)) (c' : Connection X T R)
      → run k c es ≡ some c'
      → CarriesData c.sender × All IsData (in_hand c.phase)
      → All IsData c.delivered
      → All IsData c'.delivered
  run-delivered k c [] c' e q d =
      subst (λ (x : Connection X T R). All IsData x.delivered) (run-nil k c c' e) d
  run-delivered k c (x ∷ es) c' e q d =
      let (c1, change, later) = run-cons k c x es c' e in
      run-delivered k c1 es c' later (Change-Holds CarriesData CarriesData-stable k c c1 x change q)
        (Change-delivered k c c1 x change q.0 d)

  -- Over any run from a new connection, the receive channel has the capacity that it was made with and
  -- never holds more frames than that, and neither it, nor the task's hand, nor the program ever has a
  -- frame that is not text or binary.
  pub run-IsBounded :
      (k : Keepalive) (n : ChannelSize) (o : Outputs X) (es : List (Event X)) (c : Connection X T R)
      → run k (start n o) es ≡ some c
      → IsBounded n.size c.sender
        × CarriesData c.sender
        × All IsData (in_hand c.phase)
        × All IsData c.delivered
  unfolding start
  run-IsBounded k n o es c e =
      let new : IsBounded n.size (rx.channel n) = rw (rx.view-channel n) (omega arith) in
      let empty : CarriesData (rx.channel n) = rw (rx.view-channel n) tt in
      let (bounded, _) =
        run-Holds (IsBounded n.size) (IsBounded-stable n.size) k (start n o) es c e new tt in
      let (data_only, hand) =
        run-Holds CarriesData CarriesData-stable k (start n o) es c e empty tt in
      (bounded, data_only, hand, run-delivered k (start n o) es c e (empty, tt) tt)
