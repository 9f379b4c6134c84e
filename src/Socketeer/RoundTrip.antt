-- ===== src/Socketeer/RoundTrip.antt =====
-- A value on its way through the crate: encoded, queued, written to the socket, sent back by the peer,
-- delivered and decoded.
use socketeer.Common.{
  ℕ, ◌≤◌, ◌≡◌, ◌∙◌, refl, true, [], ◌∷◌, none, some, ok, ready, arith, Option-cases, inl, inr,
  ==_refl,
}
use socketeer.Message.{Message, is_data}
use socketeer.Runtime.Channel.{ChannelSize, Mpsc}
use socketeer.Runtime.Sink.{sends}
use socketeer.SocketLoop.Handlers.{TxChannelPayload, Outputs, send_socket_message, handle_incoming}
use socketeer.SocketLoop.Task.{Keepalive, selecting, outgoing, incoming, socket_loop_split}
use socketeer.Handle.Calls.{send_confirmed, recv_raw, returned, TerminalError}
use socketeer.Codec.{Codec}
use socketeer.Connection.{Connection, arm, confirmed, start, step, run}
use socketeer.Connection.Resuming.{run-step}
use socketeer.Connection.Waiting.{resume}
use socketeer.Socketeer.Typed.{send, next_message}

abbrev pub payload : Message → ℕ → TxChannelPayload
payload m id = record { message = m; response_tx = some id }

send_typed :
    {X T Tx Rx : Type 0} ⦃tx : Mpsc TxChannelPayload T⦄ (codec : Codec X Tx Rx) (c : T)
    (slot : TerminalError X) (value : Tx) (m : Message) (id : ℕ)
    → codec.encode value ≡ ok m
    → send codec c slot value id ≡ send_confirmed c slot m id
unfolding send
send_typed codec c slot value m id e = ground arith

module _ {X T R : Type 0} ⦃tx : Mpsc TxChannelPayload T⦄ ⦃rx : Mpsc Message R⦄ where
  -- The loop waits in its outer `select!`, and its ends of the channels are open.
  abbrev IsIdle : ℕ → Connection X T R → Type 0
  IsIdle n c =
      (c.phase ≡ selecting)
      × (rx.view c.sender ≡ record { queue = []; capacity = n; receiving = true; sending = true })

  send_next :
      (k : Keepalive) (c : Connection X T R) (m : Message) (id : ℕ)
      → tx.reserve c.receiver ≡ ready (ok tt)
      → step k c (confirmed m id)
        ≡ some (record c {
          task = record c.task { receiver = tx.permit_send c.receiver (payload m id) };
        })
  unfolding step send_confirmed
  send_next k c m id room = ground arith

  queue_payload :
      (k : Keepalive) (n : ChannelSize) (o : Outputs X) (m : Message) (id : ℕ)
      → (c : Connection X T R) × (step k (start n o) (confirmed m id) ≡ some c)
        × IsIdle n.size c
        × ((tx.view c.receiver).queue ≡ payload m id ∷ [])
        × (c.outputs ≡ o)
        × (c.terminal_error ≡ none)
  unfolding start
  queue_payload k n o m id =
      let h : 1 ≤ n.size = n.positive in
      let room : tx.reserve (tx.channel n) ≡ ready (ok tt) =
        ground (arith, tx.view-channel n, tx.reserve_lem (tx.channel n)) in
      let c : Connection X T R = record (start n o) {
        task = record (start {X = X} {T = T} {R = R} n o).task {
          receiver = tx.permit_send (tx.channel n) (payload m id);
        };
      } in
      (
        c,
        send_next k (start n o) m id room,
        (refl, rx.view-channel n),
        ground (arith, tx.view-channel n, tx.view-permit_send (tx.channel n) (payload m id)),
        refl,
        refl,
      )

  write_payload :
      (k : Keepalive) (n : ℕ) (o : Outputs X) (m : Message) (id : ℕ) (c : Connection X T R)
      → IsIdle n c
      → (tx.view c.receiver).queue ≡ payload m id ∷ []
      → c.outputs ≡ o
      → c.terminal_error ≡ none
      → o.sink.answer o.sink.calls (sends m) ≡ ok tt
      → o.oneshots.awaited id ≡ true
      → (c' : Connection X T R) × (step k c (arm outgoing) ≡ some c')
        × IsIdle n c'
        × (c'.sink.calls ≡ sends m ∷ o.sink.calls)
        × (c'.oneshots.answered ≡ (id, ok tt) ∷ o.oneshots.answered)
        × (c'.terminal_error ≡ none)
  unfolding step socket_loop_split send_socket_message
  write_payload k n o m id c i q p z a w = elim (Option-cases (step k c (arm outgoing))) [
    | inl stuck ↦ absurd (ground (arith, tx.result-recv c.receiver))
    | inr (c', e) ↦ (
      c',
      e,
      ground (arith, tx.result-recv c.receiver),
      ground (arith, tx.result-recv c.receiver),
      ground (arith, tx.result-recv c.receiver),
      ground (arith, tx.result-recv c.receiver),
    )
  ]

  read_echo :
      (k : Keepalive) (n : ℕ) (m : Message) (c : Connection X T R)
      → 1 ≤ n
      → is_data m ≡ true
      → IsIdle n c
      → (c' : Connection X T R) × (step k c (arm (incoming (some (ok m)))) ≡ some c')
        × ((rx.view c'.sender).queue ≡ m ∷ [])
        × (c'.outputs ≡ c.outputs)
        × (c'.terminal_error ≡ c.terminal_error)
  unfolding step socket_loop_split handle_incoming
  read_echo k n m c h d i = elim (Option-cases (step k c (arm (incoming (some (ok m)))))) [
    | inl stuck ↦ absurd (ground arith)
    | inr (c', e) ↦ (
      c',
      e,
      ground (arith, rx.view-try_send c.sender m, rx.result-try_send c.sender m),
      ground (arith, rx.view-try_send c.sender m, rx.result-try_send c.sender m),
      ground (arith, rx.view-try_send c.sender m, rx.result-try_send c.sender m),
    )
  ]

  -- From a new connection whose sink takes the frame: if a codec encodes a value as a data frame, the
  -- program sends the value (which is a confirmed send of that frame), the loop writes the frame, and
  -- the peer sends it back, then the frame has been the next call on the sink, the send returns `Ok`,
  -- and `next_message` returns what the codec decodes of the frame.
  pub run_round_trip :
      {Tx Rx : Type 0} (codec : Codec X Tx Rx) (value : Tx) (back : Rx) (m : Message) (id : ℕ)
      (k : Keepalive) (n : ChannelSize) (o : Outputs X)
      → codec.encode value ≡ ok m
      → codec.decode m ≡ ok back
      → is_data m ≡ true
      → o.sink.answer o.sink.calls (sends m) ≡ ok tt
      → o.oneshots.awaited id ≡ true
      → (c : Connection X T R) × (run k
            (start n o)
            (confirmed m id ∷ arm outgoing ∷ arm (incoming (some (ok m))) ∷ [])
          ≡ some c)
        × (send codec (start {X = X} {T = T} {R = R} n o).receiver none value id
            ≡ send_confirmed (start {X = X} {T = T} {R = R} n o).receiver none m id)
        × (c.sink.calls ≡ sends m ∷ o.sink.calls)
        × (resume id c ≡ ready (returned (ok tt)))
        × ((next_message codec c.sender c.terminal_error).2 ≡ ready (ok back))
  unfolding resume next_message recv_raw
  run_round_trip codec value back m id k n o e d t a w =
      let (c1, s1, idle1, q, same, z1) = queue_payload k n o m id in
      let (c2, s2, idle2, calls, answers, z2) =
        write_payload k n.size o m id c1 idle1 q same z1 a w in
      let (c3, s3, there, kept, z3) = read_echo k n.size m c2 n.positive t idle2 in
      (
        c3,
        run-step k (start n o) c1 (confirmed m id)
              (arm outgoing ∷ arm (incoming (some (ok m))) ∷ []) s1
            ∙ run-step k c1 c2 (arm outgoing) (arm (incoming (some (ok m))) ∷ []) s2
            ∙ run-step k c2 c3 (arm (incoming (some (ok m)))) [] s3
            ∙ (unfold run in refl),
        send_typed codec _ none value m id e,
        ground (arith, kept, calls),
        ground (arith, kept, answers, ==_refl id),
        ground (arith, there, d, rx.result-recv c3.sender),
      )
