-- ===== src/EchoChat/Finishing.antt =====
-- The example comes to its end.
use socketeer.Common.{
  String, ◌≡◌, refl, ap, ◌∙◌, [], ◌∷◌, map, Option, some, ok, Result-cases, inl, inr, arith,
}
use socketeer.Message.{Message, CloseFrame, text, close}
use socketeer.Runtime.Channel.{ChannelSize, Mpsc}
use socketeer.Runtime.Sink.{Sink, written, sends}
use socketeer.SocketLoop.Handlers.{TxChannelPayload}
use socketeer.SocketLoop.Task.{outgoing, incoming}
use socketeer.Codec.{Json, json_codec}
use socketeer.Config.{HeaderMap, ClientRequest, default, build_request}
use socketeer.Handshake.{HandshakeContext, noop_handler}
use socketeer.Connection.{start}
use socketeer.Socketeer.{Net, Connected, connect}
use socketeer.Socketeer.Lifecycle.{fresh_outputs}
use socketeer.MockServer.{EchoControlMessage, echo_server}
use socketeer.MockServer.Echo.{IsWilling, echo_server_echoes}
use socketeer.EchoChat.{hello, main}
use socketeer.EchoChat.Stages.{IsQuiet, chat_when_quiet}

-- The peer of the example is the echo server.
module _ {X U H K V Q : Type 0} (T R : Type 0) ⦃tx : Mpsc TxChannelPayload T⦄ ⦃rx : Mpsc Message R⦄
    (header_map : HeaderMap K V H) (request_of : ClientRequest X H Q) (net : Net X U Q)
    (channel_size : ChannelSize) (json : Json X EchoControlMessage EchoControlMessage) where
  connects :
      (url : String) (u : U) (request : Q) (ctx : HandshakeContext X)
      → net.parse url ≡ ok u
      → build_request header_map request_of (default header_map) (net.as_str u) ≡ ok request
      → net.connect_async request ≡ ok ctx
      → (r : Connected X EchoControlMessage EchoControlMessage (Unit {0}) U H T R) × (connect
            header_map request_of net channel_size 0 url
            (json_codec json)
          ≡ ok r)
        × (r.connection ≡ start channel_size (fresh_outputs ctx))
  unfolding connect noop_handler
  connects url u request ctx parsed built upgraded =
      elim (Result-cases
        (connect {T = T} {R = R} header_map request_of net channel_size 0 url (json_codec json))) [
          | inr (x, e) ↦ absurd (ground arith)
          | inl (r, e) ↦ (r, e, ground arith)
        ]

  start-IsQuiet :
      (ctx : HandshakeContext X)
      → IsWilling ctx.sink
      → IsQuiet {T = T} {R = R} channel_size.size (start channel_size (fresh_outputs ctx))
  unfolding start
  start-IsQuiet ctx w = (
    refl,
    tx.view-channel channel_size,
    rx.view-channel channel_size,
    refl,
    w,
    (λ id. refl),
    refl,
  )

  echoed :
      (t : String) (server : Sink X)
      → IsWilling server
      → server.calls ≡ []
      → json.from_str t ≡ ok hello
      → written (echo_server json.from_str (ok (text t) ∷ []) server).0.calls ≡ text t ∷ []
  echoed t server w fresh read =
      ap (λ r. written r.0.calls)
        (echo_server_echoes json.from_str (t ∷ []) server w ((_, read), tt))
      ∙ ap (λ calls. written (sends (text t) ∷ calls)) fresh

  json_reads :
      (t : String)
      → json.to_string hello ≡ ok t
      → json.from_str t ≡ ok hello
      → ((json_codec json).encode hello ≡ ok (text t))
        × ((json_codec json).decode (text t) ≡ ok hello)
  unfolding json_codec
  json_reads t wrote read = (ground arith, ground arith)

  -- The example comes to its end, without a panic, against the echo server: if the address parses, the
  -- upgrade succeeds, and no call on a sink fails; if serde_json reads back as the greeting what it
  -- writes for it; and if the task takes the arms that are due: it writes the greeting, reads what the
  -- server has written in answer, writes the close frame, and reads the one of the peer.
  pub main_ends :
      (url t : String) (u : U) (request : Q) (ctx : HandshakeContext X) (server : Sink X)
      (reply : Option CloseFrame)
      → net.parse url ≡ ok u
      → build_request header_map request_of (default header_map) (net.as_str u) ≡ ok request
      → net.connect_async request ≡ ok ctx
      → IsWilling ctx.sink
      → IsWilling server
      → server.calls ≡ []
      → json.to_string hello ≡ ok t
      → json.from_str t ≡ ok hello
      → main T R header_map request_of net channel_size json url
          (outgoing ∷ [])
          (map
            (λ m. incoming (some (ok m)))
            (written (echo_server json.from_str (ok (text t) ∷ []) server).0.calls))
          (outgoing ∷ incoming (some (ok (close reply))) ∷ [])
        ≡ ok tt
  unfolding main
  main_ends url t u request ctx server reply parsed built upgraded w w' fresh wrote read =
      let (r, connected, started) = connects url u request ctx parsed built upgraded in
      let (encoded, decoded) = json_reads t wrote read in
      rw (echoed t server w' fresh read, connected, started)
        (chat_when_quiet (json_codec json) r.keepalive channel_size.size
          (start channel_size (fresh_outputs ctx)) t reply channel_size.positive
          (start-IsQuiet ctx w) encoded decoded)
