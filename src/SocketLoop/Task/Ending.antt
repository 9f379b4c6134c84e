-- ===== src/SocketLoop/Task/Ending.antt =====
-- How the loop ends: what it leaves in the slot, and what becomes of the channels.
use socketeer.Common.{◌≡◌, ◌⊎◌, inl, inr, refl, true, false, [], Option, none, some, arith}
use mathlib.Core.Option.{some-injective}
use mathlib.Core.Path.{subst}
use socketeer.Message.{Message, dropped_without_closing}
use socketeer.Runtime.Channel.{Mpsc, recv_from-receiving}
use socketeer.SocketLoop.Handlers.{
  TxChannelPayload, LoopState, running, error, closed, Incoming, state, deliver, handle_incoming,
}
use socketeer.SocketLoop.Task.Senders.{try_deliver_cases}
use socketeer.SocketLoop.Task.Arms.{
  after_payload, after_keepalive, on_outgoing_cases, on_sleep_cases, on_permit_cases,
}
use socketeer.SocketLoop.Task.{
  Phase, selecting, holding, ended, Keepalive, Task, Arm, outgoing, sleep, permit, incoming,
  with_sink, continue, still_holding, after_incoming, on_incoming, take_arm, socket_loop_split,
  try_deliver,
}

module _ {X T R : Type 0} ⦃tx : Mpsc TxChannelPayload T⦄ ⦃rx : Mpsc Message R⦄ where
  -- The task still has its ends of the channels.
  abbrev pub IsLive : Task X T R → Type 0
  IsLive t = ((rx.view t.sender).sending ≡ true) × ((tx.view t.receiver).receiving ≡ true)

  -- They have dropped, and what waited in the queue of the loop is gone.
  abbrev pub IsShut : Task X T R → Type 0
  IsShut t =
      ((rx.view t.sender).sending ≡ false)
      × ((tx.view t.receiver).receiving ≡ false)
      × ((tx.view t.receiver).queue ≡ [])

  -- While the loop runs the slot is empty. Once it has ended, in a state that is not `running`, the
  -- slot holds the error of that state, unless it has been taken.
  abbrev pub Recorded : Phase X → Task X T R → Type 0
  Recorded (ended running) t = ⊥
  Recorded (ended (error e)) t =
      ((t.terminal_error ≡ some e) ⊎ (t.terminal_error ≡ none)) × IsShut t
  Recorded (ended closed) t = (t.terminal_error ≡ none) × IsShut t
  Recorded p t = (t.terminal_error ≡ none) × IsLive t

  continue-Recorded :
      (t : Task X T R) (s : LoopState X)
      → (t.terminal_error ≡ none) × IsLive t
      → Recorded (continue t s).phase (continue t s)
  unfolding continue
  continue-Recorded t running h = h
  continue-Recorded t (error e) h =
      (inl refl, ground (arith, rx.view-drop_senders t.sender, tx.view-drop_receiver t.receiver))
  continue-Recorded t closed h =
      (h.0, ground (arith, rx.view-drop_senders t.sender, tx.view-drop_receiver t.receiver))

  still_holding-Recorded :
      (m : Message) (t : Task X T R) (s : LoopState X)
      → (t.terminal_error ≡ none) × IsLive t
      → Recorded (still_holding m t s).phase (still_holding m t s)
  unfolding still_holding
  still_holding-Recorded m t running h = h
  still_holding-Recorded m t (error e) h =
      (inl refl, ground (arith, rx.view-drop_senders t.sender, tx.view-drop_receiver t.receiver))
  still_holding-Recorded m t closed h =
      (h.0, ground (arith, rx.view-drop_senders t.sender, tx.view-drop_receiver t.receiver))

  after_payload-IsLive :
      (t : Task X T R) (p : Option TxChannelPayload) → IsLive t → IsLive (after_payload t p)
  after_payload-IsLive t p h = (
    h.0,
    ground (
      arith,
      tx.view-recv t.receiver,
      recv_from-receiving (tx.view t.receiver).queue (tx.view t.receiver),
    ),
  )

  try_send-IsLive :
      (t : Task X T R) (m : Message)
      → IsLive t
      → IsLive (record t { sender = (rx.try_send t.sender m).0 })
  try_send-IsLive t m h = (ground (arith, rx.view-try_send t.sender m), h.1)

  after_incoming-Recorded :
      (t : Task X T R) (i : Incoming X)
      → (t.terminal_error ≡ none) × IsLive t
      → Recorded (after_incoming t i).phase (after_incoming t i)
  unfolding after_incoming
  after_incoming-Recorded t (state s) h = continue-Recorded t s h
  after_incoming-Recorded t (deliver m) h =
      let (same, cases) = try_deliver_cases {X = X} m t.sender in
      let t1 : Task X T R = record t { sender = (try_deliver {X = X} m t.sender).0 } in
      let live : (t1.terminal_error ≡ none) × IsLive t1 =
        (h.0, rw same (try_send-IsLive t m h.1)) in
      elim cases [
        | inl e ↦ rw e live
        | inr (inl e) ↦ rw e (continue-Recorded t1 (error dropped_without_closing) live)
        | inr (inr e) ↦ rw e live
      ]

  take_arm-Recorded :
      (k : Keepalive) (p : Phase X) (t : Task X T R) (a : Arm X) (t' : Task X T R)
      → take_arm k p t a ≡ some t'
      → Recorded p t
      → Recorded t'.phase t'
  unfolding take_arm
  take_arm-Recorded k selecting t outgoing t' e h =
      let (payload, _, same) = on_outgoing_cases continue t t' e in
      rw same
        (continue-Recorded (after_payload t payload) _ (h.0, after_payload-IsLive t payload h.1))
  take_arm-Recorded k selecting t sleep t' e h =
      let (_, same) = on_sleep_cases k continue t t' e in
      rw same (continue-Recorded (after_keepalive k t) _ h)
  take_arm-Recorded k selecting t (incoming i) t' e h =
      unfold on_incoming in
      subst (λ (x : Task X T R). Recorded x.phase x) (some-injective _ _ e)
        (after_incoming-Recorded (with_sink t (handle_incoming i t.sink).0)
          (handle_incoming i t.sink).1 h)
  take_arm-Recorded k (holding m) t outgoing t' e h =
      let (payload, _, same) = on_outgoing_cases (still_holding m) t t' e in
      rw same (
        still_holding-Recorded m (after_payload t payload) _
          (h.0, after_payload-IsLive t payload h.1))
  take_arm-Recorded k (holding m) t sleep t' e h =
      let (_, same) = on_sleep_cases k (still_holding m) t t' e in
      rw same (still_holding-Recorded m (after_keepalive k t) _ h)
  take_arm-Recorded k (holding m) t permit t' e h = elim (on_permit_cases m t t' e) [
    | inl (_, same) ↦ rw same (h.0, (ground (arith, rx.view-permit_send t.sender m), h.1.1))
    | inr (_, same) ↦ rw same (continue-Recorded t (error dropped_without_closing) h)
  ]
  take_arm-Recorded k _ t _ t' e h = cc

  pub socket_loop_split-Recorded :
      (k : Keepalive) (t : Task X T R) (a : Arm X) (t' : Task X T R)
      → socket_loop_split k t a ≡ some t'
      → Recorded t.phase t
      → Recorded t'.phase t'
  unfolding socket_loop_split
  socket_loop_split-Recorded k t a t' e h = take_arm-Recorded k t.phase t a t' e h
