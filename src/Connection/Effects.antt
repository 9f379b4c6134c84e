-- ===== src/Connection/Effects.antt =====
-- What an event does to the payloads of the sends: it writes the oldest, it adds one, or neither.
use socketeer.Common.{
  ◌≡◌, ◌≢◌, ◌⊎◌, inl, inr, refl, sym, ap, ◌∙◌, ℕ, Bool, true, false, ◌||◌, List, [], ◌∷◌, ◌++◌,
  none, some, arith, map, append-nil, append_assoc, map-append, Bool-cases,
}
use socketeer.Message.{Message, pong, is_data, data_frames, data_frames-append}
use socketeer.Runtime.Channel.{Mpsc}
use socketeer.Runtime.Sink.{SinkCall, sends, closes, written}
use socketeer.Runtime.Oneshot.{answer_to}
use socketeer.SocketLoop.Handlers.{
  TxChannelPayload, keepalive_frame, pong_bytes, send_socket_message, handle_incoming,
  send_keepalive,
}
use socketeer.SocketLoop.Task.{
  Keepalive, Task, Arm, outgoing, sleep, permit, incoming, socket_loop_split,
}
use socketeer.SocketLoop.Task.Frames.{is_ended}
use socketeer.SocketLoop.Task.Readiness.{is_some}
use socketeer.Handle.Calls.{
  close_message, send_confirmed, send_unconfirmed, send_close, recv_raw, poll_recv_raw,
}
use socketeer.Connection.Waiting.{carries}
use socketeer.Connection.Served.{
  Requests, on_confirmed-Requests, on_unconfirmed-Requests, on_closing-Requests,
}
use socketeer.Connection.Going.{IsOpen}
use socketeer.Connection.{
  Connection, Event, arm, confirmed, unconfirmed, closing, cancel, receive, poll, drop_receiver,
  drop_senders, step, on_confirmed, on_unconfirmed, on_closing, on_receive, on_poll,
}

-- The payloads that the events ask to send.
abbrev pub payload_of : {X : Type 0} → Event X → List TxChannelPayload
payload_of (confirmed m id) = record { message = m; response_tx = some id } ∷ []
payload_of (unconfirmed m) = record { message = m; response_tx = none } ∷ []
payload_of (closing id) = record { message = close_message; response_tx = some id } ∷ []
payload_of e = []

abbrev pub payloads : {X : Type 0} → List (Event X) → List TxChannelPayload
payloads [] = []
payloads (e ∷ es) = payload_of e ++ payloads es

abbrev pub is_arm : {X : Type 0} → Event X → Bool
is_arm (arm a) = true
is_arm e = false

-- The data frames among some payloads.
abbrev pub data_of : List TxChannelPayload → List Message
data_of ps = data_frames (map (λ p. p.message) ps)

pub data_of-append : (ps qs : List TxChannelPayload) → data_of (ps ++ qs) ≡ data_of ps ++ data_of qs
data_of-append ps qs =
    ap data_frames (map-append (λ (p : TxChannelPayload). p.message) ps qs)
    ∙ data_frames-append (map (λ p. p.message) ps) (map (λ p. p.message) qs)

pub payloads-append :
    {X : Type 0} (es fs : List (Event X)) → payloads (es ++ fs) ≡ payloads es ++ payloads fs
payloads-append [] fs = refl
payloads-append (e ∷ es) fs =
    ap (λ l. payload_of e ++ l) (payloads-append es fs)
    ∙ sym (append_assoc (payload_of e) (payloads es) (payloads fs))

-- A call that writes no data frame.
control :
    (m : Message) (calls calls' : List SinkCall)
    → is_data m ≡ false
    → (calls' ≡ calls) ⊎ (calls' ≡ sends m ∷ calls) ⊎ (calls' ≡ closes ∷ calls)
    → data_frames (written calls') ≡ data_frames (written calls)
control m calls calls' h (inl e) = ground arith
control m calls calls' h (inr (inl e)) =
    ground
      (arith, data_frames-append (written calls) (m ∷ []), append-nil (data_frames (written calls)))
control m calls calls' h (inr (inr e)) = ground arith

module _ {X T R : Type 0} ⦃tx : Mpsc TxChannelPayload T⦄ ⦃rx : Mpsc Message R⦄ where
  abbrev pub has_answer : ℕ → Task X T R → Bool
  has_answer id t = is_some (answer_to id t.oneshots.answered)

  -- The outgoing arm writes the oldest payload.
  unfoldable pub Writes :
      ℕ → TxChannelPayload → List TxChannelPayload → Task X T R → Task X T R → Type 0
  Writes id p q t t' =
      (t'.sink.calls ≡ sends p.message ∷ t.sink.calls)
      × (has_answer id t' ≡ true → (has_answer id t || carries id p) ≡ true)
      × ((is_ended t'.phase ≡ true) ⊎ ((tx.view t'.receiver).queue ≡ q))

  pub outgoing-Writes :
      (p : TxChannelPayload) (q : List TxChannelPayload) (k : Keepalive) (id : ℕ)
      (t t' : Task X T R)
      → (tx.view t.receiver).queue ≡ p ∷ q
      → socket_loop_split k t outgoing ≡ some t'
      → Writes id p q t t'
  unfolding socket_loop_split send_socket_message Writes
  outgoing-Writes p q k id t t' v e = (
    ground (arith, tx.result-recv t.receiver),
    (λ h. ground (arith, tx.result-recv t.receiver)),
    elim (Bool-cases (is_ended t'.phase)) [
      | inl over ↦ inl over
      | inr going ↦ inr (ground (arith, tx.result-recv t.receiver, tx.view-recv t.receiver))
    ],
  )

  -- An arm that writes no payload.
  unfoldable pub Spares : Task X T R → Task X T R → Type 0
  Spares t t' =
      (data_frames (written t'.sink.calls) ≡ data_frames (written t.sink.calls))
      × (t'.oneshots.answered ≡ t.oneshots.answered)
      × ((is_ended t'.phase ≡ true) ⊎ ((tx.view t'.receiver).queue ≡ (tx.view t.receiver).queue))

  pub none_left-Spares :
      (k : Keepalive) (t t' : Task X T R)
      → (tx.view t.receiver).queue ≡ []
      → socket_loop_split k t outgoing ≡ some t'
      → Spares t t'
  unfolding socket_loop_split send_socket_message Spares
  none_left-Spares k t t' v e = (
    ground (arith, tx.result-recv t.receiver),
    ground (arith, tx.result-recv t.receiver),
    inl (ground (arith, tx.result-recv t.receiver)),
  )

  pub other-Spares :
      (k : Keepalive) (t : Task X T R) (a : Arm X) (t' : Task X T R)
      → a ≢ outgoing
      → is_data (keepalive_frame k.message) ≡ false
      → socket_loop_split k t a ≡ some t'
      → Spares t t'
  unfolding socket_loop_split handle_incoming send_keepalive Spares
  other-Spares k t outgoing t' n ka e = absurd (n refl)
  other-Spares k t sleep t' n ka e = (
    control (keepalive_frame k.message) t.sink.calls t'.sink.calls ka (inr (inl (ground arith))),
    ground arith,
    elim (Bool-cases (is_ended t'.phase)) [ inl over ↦ inl over | inr going ↦ inr (ground arith) ],
  )
  other-Spares k t permit t' n ka e = (
    control (keepalive_frame k.message) t.sink.calls t'.sink.calls ka (inl (ground arith)),
    ground arith,
    elim (Bool-cases (is_ended t'.phase)) [ inl over ↦ inl over | inr going ↦ inr (ground arith) ],
  )
  other-Spares k t (incoming i) t' n ka e = (
    control (pong pong_bytes) t.sink.calls t'.sink.calls refl (ground arith),
    ground arith,
    elim (Bool-cases (is_ended t'.phase)) [ inl over ↦ inl over | inr going ↦ inr (ground arith) ],
  )

  -- A call of the program, or an end that it drops.
  unfoldable pub Calls : Connection X T R → Connection X T R → List TxChannelPayload → Type 0
  Calls c c' ps =
      (c'.sink ≡ c.sink)
      × (c'.oneshots.answered ≡ c.oneshots.answered)
      × (c'.phase ≡ c.phase)
      × ((is_ended c'.phase ≡ true)
          ⊎ ((tx.view c'.receiver).queue ≡ (tx.view c.receiver).queue ++ ps))

  Requests-Calls :
      (c c' : Connection X T R) (p : TxChannelPayload)
      → c'.sink ≡ c.sink
      → c'.oneshots.answered ≡ c.oneshots.answered
      → c'.phase ≡ c.phase
      → (is_ended c.phase ≡ true) ⊎ IsOpen c
      → (IsOpen c → Requests c c' p)
      → Calls c c' (p ∷ [])
  unfolding Calls
  Requests-Calls c c' p s o f (inl over) r = (s, o, f, inl (ap is_ended f ∙ over))
  Requests-Calls c c' p s o f (inr opened) r = (s, o, f, inr (r opened).1)

  quiet-Calls :
      (c c' : Connection X T R)
      → c'.sink ≡ c.sink
      → c'.oneshots.answered ≡ c.oneshots.answered
      → c'.phase ≡ c.phase
      → (tx.view c'.receiver).queue ≡ (tx.view c.receiver).queue
      → Calls c c' []
  unfolding Calls
  quiet-Calls c c' s o f q = (s, o, f, inr (q ∙ sym (append-nil _)))

  pub call-Calls :
      (k : Keepalive) (c c' : Connection X T R) (e : Event X)
      → step k c e ≡ some c'
      → is_arm e ≡ false
      → (is_ended c.phase ≡ true) ⊎ IsOpen c
      → Calls c c' (payload_of e)
  unfolding step on_confirmed on_unconfirmed on_closing send_confirmed send_unconfirmed send_close
      on_receive on_poll recv_raw poll_recv_raw
  call-Calls k c c' (arm a) e n o = absurd (ground arith)
  call-Calls k c c' (confirmed m id) e n o =
      Requests-Calls c c' _ (ground arith) (ground arith) (ground arith) o
        (λ h. on_confirmed-Requests c c' m id e h)
  call-Calls k c c' (unconfirmed m) e n o =
      Requests-Calls c c' _ (ground arith) (ground arith) (ground arith) o
        (λ h. on_unconfirmed-Requests c c' m e h)
  call-Calls k c c' (closing id) e n o =
      Requests-Calls c c' _ (ground arith) (ground arith) (ground arith) o
        (λ h. on_closing-Requests c c' id e h)
  call-Calls k c c' (cancel id) e n o =
      quiet-Calls c c' (ground arith) (ground arith) (ground arith) (ground arith)
  call-Calls k c c' receive e n o =
      quiet-Calls c c' (ground arith) (ground arith) (ground arith) (ground arith)
  call-Calls k c c' poll e n o =
      quiet-Calls c c' (ground arith) (ground arith) (ground arith) (ground arith)
  call-Calls k c c' drop_receiver e n o =
      quiet-Calls c c' (ground arith) (ground arith) (ground arith) (ground arith)
  call-Calls k c c' drop_senders e n o =
      quiet-Calls c c' (ground arith) (ground arith) (ground arith)
        (ground (arith, tx.view-drop_senders c.receiver))
