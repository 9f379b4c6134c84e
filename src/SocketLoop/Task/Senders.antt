-- ===== src/SocketLoop/Task/Senders.antt =====
-- A rule for properties of the receive channel and of the frame in hand: what every operation of the
-- task on its end of that channel keeps, an arm keeps.
use mathlib.Core.Path.{subst}
use mathlib.Core.Option.{some-injective}
use socketeer.Common.{◌≡◌, ◌⊎◌, true, Option, some, Result, ok, ready, arith, All, inl, inr}
use socketeer.Message.{Message, is_data, dropped_without_closing}
use socketeer.Runtime.Channel.{Mpsc}
use socketeer.Runtime.Sink.{Sink}
use socketeer.SocketLoop.Handlers.{
  TxChannelPayload, LoopState, running, error, closed, Incoming, state, deliver, handle_incoming,
}
use socketeer.SocketLoop.Task.Arms.{
  on_outgoing_cases, on_sleep_cases, on_permit_cases, after_payload, after_keepalive,
}
use socketeer.SocketLoop.Task.Frames.{in_hand}
use socketeer.SocketLoop.Task.{
  try_deliver, done, hold, Phase, selecting, holding, Keepalive, Task, Arm, outgoing, sleep, permit,
  incoming, with_sink, finish, continue, still_holding, after_incoming, on_incoming, on_permit,
  take_arm, socket_loop_split,
}

abbrev pub IsData : Message → Type 0
IsData m = is_data m ≡ true

-- `P` survives what the task does with the channel.
pub record IsKept {R : Type 0} ⦃rx : Mpsc Message R⦄ (P : R → Type 0) : Type 0 where
  pub on_drop : (c : R) → P c → P (rx.drop_senders c)
  pub on_try : (c : R) (m : Message) → IsData m → P c → P (rx.try_send c m).0
  pub on_permit_send :
      (c : R) (m : Message) → IsData m → rx.reserve c ≡ ready (ok tt) → P c → P (rx.permit_send c m)

-- The handler hands on data frames alone.
abbrev FitsData : {X : Type 0} → Incoming X → Type 0
FitsData (state s) = Unit
FitsData (deliver m) = IsData m

handle_incoming-FitsData :
    {X : Type 0} (i : Option (Result Message X)) (s : Sink X) → FitsData (handle_incoming i s).1
unfolding handle_incoming
handle_incoming-FitsData i s = ground arith

pub try_deliver_cases :
    {X R : Type 0} ⦃rx : Mpsc Message R⦄ (m : Message) (c : R)
    → let r = try_deliver {X = X} m c in
      (r.0 ≡ (rx.try_send c m).0)
      × ((r.1 ≡ done running) ⊎ ((r.1 ≡ done (error dropped_without_closing)) ⊎ (r.1 ≡ hold m)))
unfolding try_deliver
try_deliver_cases ⦃rx⦄ m c = ground (arith, rx.result-try_send c m)

module _ {X T R : Type 0} ⦃tx : Mpsc TxChannelPayload T⦄ ⦃rx : Mpsc Message R⦄ (P : R → Type 0)
    (kept : IsKept P) where
  abbrev Keeps : Task X T R → Type 0
  Keeps t = P t.sender × All IsData (in_hand t.phase)

  Keeps-continue : (t : Task X T R) (s : LoopState X) → P t.sender → Keeps (continue t s)
  unfolding continue
  Keeps-continue t running h = (h, tt)
  Keeps-continue t (error e) h = (kept.on_drop t.sender h, tt)
  Keeps-continue t closed h = (kept.on_drop t.sender h, tt)

  Keeps-still_holding :
      (m : Message) (t : Task X T R) (s : LoopState X)
      → IsData m
      → P t.sender
      → Keeps (still_holding m t s)
  unfolding still_holding
  Keeps-still_holding m t running d h = (h, (d, tt))
  Keeps-still_holding m t (error e) d h = (kept.on_drop t.sender h, tt)
  Keeps-still_holding m t closed d h = (kept.on_drop t.sender h, tt)

  Keeps-after_incoming :
      (t : Task X T R) (i : Incoming X) → FitsData i → P t.sender → Keeps (after_incoming t i)
  unfolding after_incoming
  Keeps-after_incoming t (state s) d h = Keeps-continue t s h
  Keeps-after_incoming t (deliver m) d h =
      let h' = kept.on_try t.sender m d h in
      let (same, cases) = try_deliver_cases {X = X} m t.sender in
      elim cases [
        | inl e ↦ rw (same, e) (h', tt)
        | inr (inl e) ↦ rw (same, e) (kept.on_drop _ h', tt)
        | inr (inr e) ↦ rw (same, e) (h', (d, tt))
      ]

  Keeps-on_permit :
      (m : Message) (t t' : Task X T R) → IsData m → on_permit m t ≡ some t' → P t.sender → Keeps t'
  unfolding finish
  Keeps-on_permit m t t' d e h = elim (on_permit_cases m t t' e) [
    | inl (room, same) ↦ rw same (kept.on_permit_send t.sender m d room h, tt)
    | inr (_, same) ↦ rw same (kept.on_drop t.sender h, tt)
  ]

  take_arm-Keeps :
      (k : Keepalive) (p : Phase X) (t : Task X T R) (a : Arm X) (t' : Task X T R)
      → take_arm k p t a ≡ some t'
      → All IsData (in_hand p)
      → P t.sender
      → Keeps t'
  unfolding take_arm
  take_arm-Keeps k selecting t outgoing t' e d h =
      let (payload, _, same) = on_outgoing_cases continue t t' e in
      rw same (Keeps-continue (after_payload t payload) _ h)
  take_arm-Keeps k selecting t sleep t' e d h =
      let (_, same) = on_sleep_cases k continue t t' e in
      rw same (Keeps-continue (after_keepalive k t) _ h)
  take_arm-Keeps k selecting t (incoming i) t' e d h =
      unfold on_incoming in
      subst Keeps (some-injective _ _ e) (
        Keeps-after_incoming (with_sink t (handle_incoming i t.sink).0) (handle_incoming i t.sink).1
          (handle_incoming-FitsData i t.sink) h)
  take_arm-Keeps k (holding m) t outgoing t' e d h =
      let (payload, _, same) = on_outgoing_cases (still_holding m) t t' e in
      rw same (Keeps-still_holding m (after_payload t payload) _ d.0 h)
  take_arm-Keeps k (holding m) t sleep t' e d h =
      let (_, same) = on_sleep_cases k (still_holding m) t t' e in
      rw same (Keeps-still_holding m (after_keepalive k t) _ d.0 h)
  take_arm-Keeps k (holding m) t permit t' e d h = Keeps-on_permit m t t' d.0 e h
  take_arm-Keeps k _ t _ t' e d h = cc

  pub socket_loop_split-kept :
      (k : Keepalive) (t : Task X T R) (a : Arm X) (t' : Task X T R)
      → socket_loop_split k t a ≡ some t'
      → All IsData (in_hand t.phase)
      → P t.sender
      → P t'.sender × All IsData (in_hand t'.phase)
  unfolding socket_loop_split
  socket_loop_split-kept k t a t' e d h = take_arm-Keeps k t.phase t a t' e d h
