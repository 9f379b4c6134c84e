-- ===== src/EndToEnd/Authenticated.antt =====
-- The client against the authenticating server of src/mock_server.rs: the handshake of src/handler.rs,
-- and the connection behind it.
use socketeer.Common.{
  String, ◌≡◌, ◌⊎◌, inl, inr, refl, sym, ap, ◌∙◌, true, false, List, [], ◌∷◌, ◌++◌, some, Result,
  ok, All, arith, Bool-cases, map,
}
use socketeer.Message.{Message, text, is_data, data_frames}
use socketeer.Runtime.Channel.{ChannelSize, Mpsc}
use socketeer.Runtime.Sink.{Sink, sends, written}
use socketeer.SocketLoop.Handlers.{TxChannelPayload, keepalive_frame}
use socketeer.SocketLoop.Task.{Keepalive}
use socketeer.SocketLoop.Task.Frames.{in_hand, queued, is_ended, is_received}
use socketeer.Handshake.{HandshakeContext, send_text, recv_text}
use socketeer.Connection.{Connection, Event, start, run}
use socketeer.Connection.Ledger.{reads}
use socketeer.Socketeer.Lifecycle.{fresh_outputs}
use socketeer.MockServer.{
  EchoControlMessage, AuthMsg, is_valid, authenticated, refused, echo_server, auth_echo_server,
}
use socketeer.MockServer.Echo.{IsWilling}
use socketeer.MockServer.Benign.{IsBenign, echo_server_benign}
use socketeer.EndToEnd.Traffic.{requested, waiting_frames}
use socketeer.EndToEnd.Returning.{run_returns}

module _ {Y : Type 0} (auth_from_str : String → Result AuthMsg Y)
    (from_str : String → Result EchoControlMessage Y) where
  admitted :
      (t : String) (auth : AuthMsg) (items : List (Result Message Y)) (server : Sink Y)
      → IsWilling server
      → auth_from_str t ≡ ok auth
      → is_valid auth ≡ true
      → auth_echo_server auth_from_str from_str (ok (text t) ∷ items) server
        ≡ echo_server from_str items (record server { calls = sends authenticated ∷ server.calls })
  unfolding auth_echo_server
  admitted t auth items server w a valid =
      let one = w server.calls (sends authenticated) in ground (arith, one)

  turned_away :
      (t : String) (auth : AuthMsg) (items : List (Result Message Y)) (server : Sink Y)
      → IsWilling server
      → auth_from_str t ≡ ok auth
      → is_valid auth ≡ false
      → (auth_echo_server auth_from_str from_str (ok (text t) ∷ items) server).0
        ≡ record server { calls = sends refused ∷ server.calls }
  unfolding auth_echo_server
  turned_away t auth items server w a not_valid =
      let one = w server.calls (sends refused) in ground (arith, one)

  -- The data frames that the server has written for a client that starts with credentials.
  abbrev pub answers : String → List Message → Sink Y → List Message
  answers t heard server = data_frames (
      written (auth_echo_server auth_from_str from_str (ok (text t) ∷ map ok heard) server).0.calls)

  answers_cases :
      (t : String) (auth : AuthMsg) (heard : List Message) (server : Sink Y)
      → IsWilling server
      → server.calls ≡ []
      → auth_from_str t ≡ ok auth
      → All (IsBenign from_str) heard
      → ((is_valid auth ≡ true) × (answers t heard server ≡ authenticated ∷ data_frames heard))
        ⊎ ((is_valid auth ≡ false) × (answers t heard server ≡ refused ∷ []))
  answers_cases t auth heard server w empty a benign =
      let none_before : (m : Message)
          → data_frames (written (sends m ∷ server.calls)) ≡ data_frames (m ∷ []) =
        λ m. ap (λ l. data_frames (written (sends m ∷ l))) empty in
      elim (Bool-cases (is_valid auth)) [
        | inl valid ↦ inl (
          valid,
          ap (λ r. data_frames (written r.0.calls))
                (admitted t auth (map ok heard) server w a valid)
              ∙ echo_server_benign from_str heard
                  (record server { calls = sends authenticated ∷ server.calls }) w benign
              ∙ ap (λ f. f ++ data_frames heard) (none_before authenticated),
        )
        | inr not_valid ↦ inr (
          not_valid,
          ap (λ (s : Sink Y). data_frames (written s.calls))
                (turned_away t auth (map ok heard) server w a not_valid)
              ∙ none_before refused,
        )
      ]

same_head : (a b : Message) (xs ys : List Message) → a ∷ xs ≡ b ∷ ys → a ≡ b
same_head a b xs ys e = ground arith

same_tail : (a b : Message) (xs ys : List Message) → a ∷ xs ≡ b ∷ ys → xs ≡ ys
same_tail a b xs ys e = ground arith

no_front : (xs ys : List Message) → [] ≡ xs ++ ys → xs ≡ []
no_front [] ys e = refl
no_front (x ∷ xs) ys e = absurd (ground arith)

handshake_writes :
    {X : Type 0} (ctx ctx1 ctx2 : HandshakeContext X) (t answer : String)
    → ctx.sink.calls ≡ []
    → send_text ctx t ≡ (ctx1, ok tt)
    → recv_text ctx1 ≡ (ctx2, ok answer)
    → ctx2.sink.calls ≡ sends (text t) ∷ []
unfolding send_text recv_text
handshake_writes ctx ctx1 ctx2 t answer fresh greets hears = ground arith

module _ {X Y T R : Type 0} ⦃tx : Mpsc TxChannelPayload T⦄ ⦃rx : Mpsc Message R⦄ where
  -- The client and the authenticating server, with wires that deliver a part of what is written, in
  -- order. The handshake sends one text, which parses as credentials, and receives one text; the
  -- connection is set up with what the handshake leaves, and runs as it may. The server has read that
  -- first text and `heard`, and `up` is on its way to it; what it has written is the text that the
  -- handshake has received, what the loop has read, and `down`, which is on its way back. (The texts
  -- sent behind the first parse as `Message`s, and control frames do not close.) Either the
  -- credentials are valid: the handshake has received the confirmation, and while the loop has not
  -- ended and the program still receives, every data frame that the program asked to send is where it
  -- belongs, as with the plain echo server. Or they are not: the handshake has received the refusal,
  -- as a text like any other, and the loop reads no data frame.
  pub run_authenticates :
      (auth_from_str : String → Result AuthMsg Y) (from_str : String → Result EchoControlMessage Y)
      (k : Keepalive) (n : ChannelSize) (ctx ctx1 ctx2 : HandshakeContext X) (t answer : String)
      (auth : AuthMsg) (es : List (Event X)) (c : Connection X T R) (server : Sink Y)
      (heard up down : List Message)
      → ctx.sink.calls ≡ []
      → send_text ctx t ≡ (ctx1, ok tt)
      → recv_text ctx1 ≡ (ctx2, ok answer)
      → run k (start n (fresh_outputs ctx2)) es ≡ some c
      → is_ended c.phase ≡ false
      → is_received c.task ≡ true
      → is_data (keepalive_frame k.message) ≡ false
      → server.calls ≡ []
      → IsWilling server
      → auth_from_str t ≡ ok auth
      → All (IsBenign from_str) heard
      → written c.sink.calls ≡ text t ∷ heard ++ up
      → answers auth_from_str from_str t heard server ≡ text answer ∷ reads es ++ down
      → ((is_valid auth ≡ true)
          × (text answer ≡ authenticated)
          × (data_frames (requested es)
              ≡ c.delivered
                ++ (queued c.task
                    ++ (in_hand c.phase
                        ++ (down
                            ++ (data_frames up
                                ++ data_frames (waiting_frames (tx.view c.receiver).queue)))))))
        ⊎ ((is_valid auth ≡ false) × (text answer ≡ refused) × (reads es ≡ []))
  run_authenticates auth_from_str from_str k n ctx ctx1 ctx2 t answer auth es c server heard up down
        fresh greets hears e going taken ka empty w a benign sent read =
      let at_first : written ctx2.sink.calls ≡ text t ∷ [] =
        ap written (handshake_writes ctx ctx1 ctx2 t answer fresh greets hears) in
      elim (answers_cases auth_from_str from_str t auth heard server w empty a benign) [
        | inl (valid, wrote) ↦
            let both = sym wrote ∙ read in
            inl (
              valid,
              sym (same_head _ _ _ _ both),
              run_returns k n (fresh_outputs ctx2) es c (text t ∷ []) heard up down e going taken ka
                  at_first sent (same_tail _ _ _ _ both),
            )
        | inr (not_valid, wrote) ↦
            let both = sym wrote ∙ read in
            inr (
              not_valid,
              sym (same_head _ _ _ _ both),
              no_front (reads es) down (same_tail _ _ _ _ both),
            )
      ]
