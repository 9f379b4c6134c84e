-- ===== src/EchoChat/Stages.antt =====
-- The stages of the example, each with the arms that the task is to take.
use socketeer.Common.{
  ℕ, String, ◌≡◌, ap, ◌∙◌, ◌≤◌, true, [], ◌∷◌, Option, none, some, ok, ready, Result-cases, inl,
  inr, arith, ==_refl,
}
use socketeer.Message.{Message, CloseFrame, text, close}
use socketeer.Runtime.Channel.{Mpsc}
use socketeer.Runtime.Oneshot.{answer_to}
use socketeer.Runtime.Sink.{sends, closes}
use socketeer.SocketLoop.Handlers.{TxChannelPayload, send_socket_message, handle_incoming}
use socketeer.SocketLoop.Task.{Keepalive, selecting, outgoing, incoming, socket_loop_split}
use socketeer.Handle.Calls.{
  take_terminal_error_opt, close_message, send_close, send_confirmed, recv_raw,
}
use socketeer.Codec.{Codec}
use socketeer.Connection.{Connection, run, step}
use socketeer.Connection.Waiting.{resume}
use socketeer.Connection.Closing.{close_connection, await_close}
use socketeer.Socketeer.Typed.{send, next_message}
use socketeer.MockServer.{EchoControlMessage}
use socketeer.MockServer.Echo.{IsWilling}
use socketeer.EchoChat.{hello, say_hello, hear_hello, say_goodbye, chat}

module _ {X T R : Type 0} ⦃tx : Mpsc TxChannelPayload T⦄ ⦃rx : Mpsc Message R⦄ where
  -- The loop waits in its outer `select!`, the channels are open and empty, and the sink takes all.
  abbrev pub IsQuiet : ℕ → Connection X T R → Type 0
  IsQuiet n c =
      (c.phase ≡ selecting)
      × (tx.view c.receiver ≡ record { queue = []; capacity = n; receiving = true; sending = true })
      × (rx.view c.sender ≡ record { queue = []; capacity = n; receiving = true; sending = true })
      × (c.terminal_error ≡ none)
      × IsWilling c.sink
      × ((id : ℕ) → c.oneshots.awaited id ≡ true)
      × (answer_to 1 c.oneshots.answered ≡ none)

  abbrev IsAlike : ℕ → Connection X T R → Connection X T R → Type 0
  IsAlike n c c' =
      (c'.phase ≡ selecting)
      × (tx.view c'.receiver
          ≡ record { queue = []; capacity = n; receiving = true; sending = true })
      × (rx.view c'.sender ≡ record { queue = []; capacity = n; receiving = true; sending = true })
      × (c'.terminal_error ≡ none)
      × (answer_to 1 c'.oneshots.answered ≡ none)
      × (c'.sink.answer ≡ c.sink.answer)
      × (c'.oneshots.awaited ≡ c.oneshots.awaited)

  IsAlike-IsQuiet :
      (n : ℕ) (c c' : Connection X T R)
      → IsAlike n c c'
      → IsWilling c.sink
      → ((id : ℕ) → c.oneshots.awaited id ≡ true)
      → IsQuiet n c'
  IsAlike-IsQuiet n c c' (selects, out_view, in_view, no_error, none_yet, sink, waits) w a = (
    selects,
    out_view,
    in_view,
    no_error,
    (λ l call. ap (λ answer. answer l call) sink ∙ w l call),
    (λ id. ap (λ awaited. awaited id) waits ∙ a id),
    none_yet,
  )

  say_goodbye_when_quiet :
      (k : Keepalive) (n : ℕ) (c : Connection X T R) (reply : Option CloseFrame)
      → 1 ≤ n
      → IsQuiet n c
      → say_goodbye k (outgoing ∷ incoming (some (ok (close reply))) ∷ []) c ≡ ok tt
  unfolding say_goodbye resume run step socket_loop_split send_socket_message handle_incoming
      send_close close_connection await_close take_terminal_error_opt
  say_goodbye_when_quiet k n c reply h
        (selects, out_view, in_view, no_error, willing, awaited, none_yet) =
      let p : TxChannelPayload = record { message = close_message; response_tx = some 1 } in
      let room : tx.reserve c.receiver ≡ ready (ok tt) =
        ground (arith, tx.reserve_lem c.receiver) in
      let queued = tx.view-permit_send c.receiver p in
      let taken = tx.result-recv (tx.permit_send c.receiver p) in
      let sent = willing c.sink.calls (sends close_message) in
      let shut = willing (sends close_message ∷ c.sink.calls) closes in
      ground (arith, room, queued, taken, sent, shut, awaited 1, ==_refl 1)

  module _ (codec : Codec X EchoControlMessage EchoControlMessage) (k : Keepalive) where
    say_hello-IsQuiet :
        (n : ℕ) (c : Connection X T R) (m : Message)
        → 1 ≤ n
        → IsQuiet n c
        → codec.encode hello ≡ ok m
        → (c' : Connection X T R) × (say_hello codec k (outgoing ∷ []) c ≡ ok c') × IsQuiet n c'
    unfolding say_hello resume run step socket_loop_split send_socket_message send send_confirmed
    say_hello-IsQuiet n c m h (selects, out_view, in_view, no_error, willing, awaited, none_yet) e =
        let p : TxChannelPayload = record { message = m; response_tx = some 0 } in
        let room : tx.reserve c.receiver ≡ ready (ok tt) =
          ground (arith, tx.reserve_lem c.receiver) in
        let queued = tx.view-permit_send c.receiver p in
        let taken = tx.result-recv (tx.permit_send c.receiver p) in
        let left = tx.view-recv (tx.permit_send c.receiver p) in
        let sink_ok = willing c.sink.calls (sends m) in
        let await0 = awaited 0 in
        elim (Result-cases (say_hello codec k (outgoing ∷ []) c)) [
          | inr (x, f) ↦ absurd (ground (arith, room, queued, taken, sink_ok, await0, ==_refl 0))
          | inl (c', f) ↦
              let alike : IsAlike n c c' =
                ground (arith, room, queued, taken, left, sink_ok, await0, ==_refl 0) in
              (c', f, IsAlike-IsQuiet n c c' alike willing awaited)
        ]

    hear_hello-IsQuiet :
        (n : ℕ) (c : Connection X T R) (t : String)
        → 1 ≤ n
        → IsQuiet n c
        → codec.decode (text t) ≡ ok hello
        → (c' : Connection X T R) × (hear_hello codec k (incoming (some (ok (text t))) ∷ []) c
            ≡ ok c')
          × IsQuiet n c'
    unfolding hear_hello run step socket_loop_split handle_incoming next_message recv_raw
    hear_hello-IsQuiet n c t h (selects, out_view, in_view, no_error, willing, awaited, none_yet)
          d =
        let pushes = rx.view-try_send c.sender (text t) in
        let room = rx.result-try_send c.sender (text t) in
        let c1 = (rx.try_send c.sender (text t)).0 in
        let taken = rx.result-recv c1 in
        let left = rx.view-recv c1 in
        elim (Result-cases (hear_hello codec k (incoming (some (ok (text t))) ∷ []) c)) [
          | inr (x, f) ↦ absurd (ground (arith, pushes, room, taken, d))
          | inl (c', f) ↦
              let alike : IsAlike n c c' = ground (arith, pushes, room, taken, left, d) in
              (c', f, IsAlike-IsQuiet n c c' alike willing awaited)
        ]

    pub chat_when_quiet :
        (n : ℕ) (c : Connection X T R) (t : String) (reply : Option CloseFrame)
        → 1 ≤ n
        → IsQuiet n c
        → codec.encode hello ≡ ok (text t)
        → codec.decode (text t) ≡ ok hello
        → chat codec k
            (outgoing ∷ [])
            (incoming (some (ok (text t))) ∷ [])
            (outgoing ∷ incoming (some (ok (close reply))) ∷ [])
            c
          ≡ ok tt
    unfolding chat
    chat_when_quiet n c t reply h q e d =
        let (c1, said, q1) = say_hello-IsQuiet n c (text t) h q e in
        let (c2, answered, q2) = hear_hello-IsQuiet n c1 t h q1 d in
        rw (said, answered) (say_goodbye_when_quiet k n c2 reply h q2)
