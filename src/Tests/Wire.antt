-- ===== src/Tests/Wire.antt =====
-- Codecs, headers, the handshake, and the servers.
use package.text.Mathlib.Text.{◌==◌ as str_eq}
use socketeer.Common.{
  ℕ, String, ◌≡◌, refl, map, false, List, [], ◌∷◌, none, some, Result, ok, err, if◌then◌else◌,
}
use socketeer.Message.{Bytes, text, binary, pong, close}
use socketeer.SocketLoop.Handlers.{handle_incoming, deliver}
use socketeer.Codec.{MsgPack, json_codec, msgpack_codec, raw_codec}
use socketeer.Codec.Laws.{echoes_decode}
use socketeer.Config.{ConnectOptions, build_request}
use socketeer.Config.Headers.{last_value, build_request_headers}
use socketeer.Handshake.{HandshakeContext, recv_raw, recv_text, recv}
use socketeer.Handshake.Receiving.{
  Receives, raw_outcome, text_outcome, typed_outcome, handshake_next,
}
use socketeer.MockServer.{
  EchoControlMessage, message, close as close_control, returned, echo_server, msgpack_echo_server,
}
use socketeer.MockServer.Echo.{after_sends}
use socketeer.MockServer.Packed.{echo_servers_echo}
use socketeer.Tests.Fixtures.{open_sink, text_json, header_list, plain_request}

json_frame : (json_codec text_json).encode "hi" ≡ ok (text "hi")
unfolding json_codec
json_frame = refl

-- One text, packed as one byte.
abbrev text_pack : MsgPack ℕ String String
text_pack = record { to_vec_named = λ _. ok (1 ∷ []); from_slice = λ _. ok "hi" }

pack_frame : (msgpack_codec text_pack).encode "hi" ≡ ok (binary (1 ∷ []))
unfolding msgpack_codec
pack_frame = refl

echoes_decode_example :
    (handle_incoming (some (ok (text "hi"))) open_sink ≡ (open_sink, deliver (text "hi")))
    × ((json_codec text_json).decode (text "hi") ≡ ok "hi")
    × (handle_incoming (some (ok (binary (1 ∷ [])))) open_sink
        ≡ (open_sink, deliver (binary (1 ∷ []))))
    × ((msgpack_codec text_pack).decode (binary (1 ∷ [])) ≡ ok "hi")
echoes_decode_example =
    echoes_decode text_json text_pack "hi" "hi" (1 ∷ []) (text "hi") (binary (1 ∷ [])) open_sink
      refl refl json_frame refl refl pack_frame

-- Two values for name 5, and one for the name that the request has.
abbrev options : ConnectOptions (List (ℕ × ℕ))
options = record {
  extra_headers = (5, 50) ∷ (7, 71) ∷ (5, 51) ∷ [];
  keepalive_interval = none;
  custom_keepalive_message = none;
}

abbrev request : List (ℕ × ℕ)
request = (5, 51) ∷ (7, 71) ∷ []

request_built : build_request header_list plain_request options "ws://localhost" ≡ ok request
unfolding build_request
request_built = refl

build_request_headers_example :
    header_list.get_all (plain_request.headers request) 5
    ≡ last_value header_list 5
        (header_list.entries options.extra_headers)
        (header_list.get_all (plain_request.headers ((7, 70) ∷ [])) 5)
build_request_headers_example =
    build_request_headers header_list plain_request options "ws://localhost" ((7, 70) ∷ []) request
      5 refl request_built

abbrev closing_context : HandshakeContext ℕ
closing_context = record { sink = open_sink; stream = ok (pong []) ∷ ok (close none) ∷ err 3 ∷ [] }

handshake_next_example :
    Receives raw_outcome closing_context.stream
      (recv_raw closing_context).0.stream
      (recv_raw closing_context).1
    × Receives text_outcome closing_context.stream
        (recv_text closing_context).0.stream
        (recv_text closing_context).1
    × Receives
        (typed_outcome raw_codec)
        closing_context.stream
        (recv raw_codec closing_context).0.stream
        (recv raw_codec closing_context).1
handshake_next_example = handshake_next raw_codec closing_context

-- Every text is a message, except the one that asks to close.
abbrev from_str : String → Result EchoControlMessage ℕ
from_str t = if str_eq t "close" then ok close_control else ok (message t)

abbrev from_slice : Bytes → Result EchoControlMessage ℕ
from_slice b = ok (message "packed")

echo_servers_echo_example :
    (echo_server from_str (map (λ t. ok (text t)) ("a" ∷ "b" ∷ [])) open_sink ≡ (
      record open_sink { calls = after_sends (map text ("a" ∷ "b" ∷ [])) open_sink.calls },
      returned (ok false),
    ))
    × (msgpack_echo_server from_slice (map (λ b. ok (binary b)) ((1 ∷ []) ∷ [] ∷ [])) open_sink ≡ (
      record open_sink { calls = after_sends (map binary ((1 ∷ []) ∷ [] ∷ [])) open_sink.calls },
      returned (ok false),
    ))
echo_servers_echo_example =
    echo_servers_echo from_slice from_str ("a" ∷ "b" ∷ []) ((1 ∷ []) ∷ [] ∷ []) open_sink
      (λ _ _. refl) (("a", refl), (("b", refl), tt)) (("packed", refl), (("packed", refl), tt))
