-- ===== src/Tests/Connecting.antt =====
-- Connecting, reconnecting, and the servers at the other end.
use socketeer.Common.{suc, length, All}
use socketeer.Socketeer.Sessions.{
  IsCounting, Apart, Session, connected, reconnected, lifecycle_counts,
}
use package.text.Mathlib.Text.{◌==◌ as str_eq}
use socketeer.Common.{
  ℕ, String, ◌≡◌, ◌⊎◌, ◌+◌, refl, arith, map, true, false, List, [], ◌∷◌, none, some, Result, ok,
  err, if◌then◌else◌,
}
use socketeer.Message.{Message, text, binary, websocket_closed, url_parse}
use socketeer.Codec.{raw_codec}
use socketeer.Config.{ConnectOptions, build_request}
use socketeer.Handshake.{ConnectionHandler}
use socketeer.Socketeer.{Net, Connected, connect_with_codec, reconnect}
use socketeer.Socketeer.Refusal.{Fails, connect_with_codec-Fails}
use socketeer.Socketeer.Lifecycle.{Greeted, connect_with_codec_greets}
use socketeer.MockServer.{EchoControlMessage, message, returned, AuthMsg, auth_echo_server}
use socketeer.MockServer.Echo.{after_sends}
use socketeer.MockServer.Auth.{auth_echo_server_unchecked}
use socketeer.SocketLoop.Handlers.{send_socket_message}
use socketeer.SocketLoop.Task.{outgoing, socket_loop_split}
use socketeer.Handle.Calls.{send_close}
use socketeer.Connection.{start, step, run}
use socketeer.Connection.Waiting.{resume}
use socketeer.Connection.Closing.{finished, await_close}
use socketeer.Tests.Fixtures.{
  four_places, Outgoing, Frames, open_sink, header_list, plain_request, view_channel,
}

-- Hooks that count the connections and the disconnections.
abbrev counting : ConnectionHandler ℕ Message Message (ℕ × ℕ)
counting = record {
  on_connected = λ _ s ctx. ((s.0 + 1, s.1), ctx, ok tt);
  on_disconnected = λ s. (s.0, s.1 + 1);
}

abbrev local_net : Net ℕ String (List (ℕ × ℕ))
local_net = record {
  parse = ok;
  as_str = λ u. u;
  connect_async = λ _. ok (record { sink = open_sink; stream = ok (text "hi") ∷ [] });
}

abbrev plain_options : ConnectOptions (List (ℕ × ℕ))
plain_options = record {
  extra_headers = (5, 50) ∷ [];
  keepalive_interval = some 100;
  custom_keepalive_message = none;
}

abbrev Open : Type 0
Open = Connected ℕ Message Message (ℕ × ℕ) String (List (ℕ × ℕ)) Outgoing Frames

abbrev opened : ℕ → ℕ × ℕ → Open
opened fresh handler = record {
  socketeer = record {
    url = "ws://localhost";
    options = plain_options;
    codec = raw_codec;
    handler = handler;
    receiver = fresh;
    sender = fresh + 1;
    socket_handle = fresh + 2;
    terminal_error = fresh + 3;
  };
  keepalive = record { interval = some 100; message = none };
  connection =
      start four_places
        (record { sink = open_sink; oneshots = record { awaited = λ _. true; answered = [] } });
  stream = ok (text "hi") ∷ [];
}

connects :
    connect_with_codec header_list plain_request local_net four_places counting 0 "ws://localhost"
      plain_options raw_codec
      (0, 0)
    ≡ ok (opened 0 (1, 0))
unfolding connect_with_codec build_request
connects = refl

connect_with_codec_greets_example :
    (local_net.parse "ws://localhost" ≡ ok (opened 0 (1, 0)).socketeer.url)
    × ((opened 0 (1, 0)).socketeer.options ≡ plain_options)
    × ((opened 0 (1, 0)).socketeer.codec ≡ raw_codec)
    × ((opened 0 (1, 0)).keepalive.interval ≡ plain_options.keepalive_interval)
    × ((opened 0 (1, 0)).keepalive.message ≡ plain_options.custom_keepalive_message)
    × Greeted header_list plain_request local_net four_places counting "ws://localhost"
        plain_options raw_codec
        (0, 0)
        (opened 0 (1, 0))
connect_with_codec_greets_example =
    connect_with_codec_greets header_list plain_request local_net four_places counting 0
      "ws://localhost" plain_options raw_codec (0, 0) (opened 0 (1, 0)) connects

-- A hook that is refused.
abbrev refusing : ConnectionHandler ℕ Message Message (ℕ × ℕ)
refusing = record {
  on_connected = λ _ s ctx. (s, ctx, err websocket_closed);
  on_disconnected = λ s. s;
}

connect_refused :
    connect_with_codec {T = Outgoing} {R = Frames} header_list plain_request local_net four_places
      refusing 0 "ws://localhost" plain_options raw_codec
      (0, 0)
    ≡ err websocket_closed
unfolding connect_with_codec build_request
connect_refused = refl

connect_with_codec-Fails_example :
    ((x : ℕ) × (local_net.parse "ws://localhost" ≡ err x)
      × (websocket_closed ≡ url_parse "ws://localhost" x))
    ⊎ ((parsed : String) × (local_net.parse "ws://localhost" ≡ ok parsed)
        × Fails header_list plain_request local_net refusing parsed plain_options raw_codec
            (0, 0)
            websocket_closed)
connect_with_codec-Fails_example =
    connect_with_codec-Fails header_list plain_request local_net four_places refusing 0
      "ws://localhost" plain_options raw_codec (0, 0) websocket_closed connect_refused

-- The close frame is queued, and the task takes its outgoing arm.
reconnects :
    reconnect header_list plain_request local_net four_places counting 4
      (opened 0 (1, 0)).socketeer
      (opened 0 (1, 0)).keepalive
      9
      (outgoing ∷ [])
      (opened 0 (1, 0)).connection
    ≡ finished (ok (opened 4 (2, 1)))
unfolding reconnect await_close build_request send_close resume run step start socket_loop_split
    send_socket_message connect_with_codec
reconnects = refl

-- One text parses as credentials; all texts parse as messages.
abbrev credentials : AuthMsg
credentials = record { action = "auth"; token = "test-token" }

abbrev auth_from_str : String → Result AuthMsg ℕ
auth_from_str t = if str_eq t "login" then ok credentials else err 1

abbrev message_from_str : String → Result EchoControlMessage ℕ
message_from_str t = ok (message t)

auth_echo_server_unchecked_example :
    auth_echo_server auth_from_str message_from_str
      (ok (binary []) ∷ map (λ b. ok (text b)) ("a" ∷ []))
      open_sink
    ≡ (
      record open_sink { calls = after_sends (map text ("a" ∷ [])) open_sink.calls },
      returned (ok false),
    )
auth_echo_server_unchecked_example =
    auth_echo_server_unchecked auth_from_str message_from_str (ok (binary [])) ("a" ∷ []) open_sink
      (λ _ _. refl) refl (("a", refl), tt)

counting-IsCounting : IsCounting counting (λ s. s.0) (λ s. s.1)
counting-IsCounting = ((λ codec s ctx g. (omega arith, refl)), (λ s. (refl, omega arith)))

session :
    Session header_list plain_request local_net four_places counting "ws://localhost" plain_options
      raw_codec
      (0, 0)
      ((opened 0 (1, 0)).socketeer ∷ [])
      (opened 4 (2, 1))
session =
    reconnected 4 (opened 0 (1, 0)).keepalive 9 (outgoing ∷ []) (opened 0 (1, 0)).connection
      (opened 0 (1, 0)) (connected 0 connects) (omega arith) reconnects

lifecycle_counts_example :
    ((opened 4 (2, 1)).socketeer.handler.0 ≡ suc (length ((opened 0 (1, 0)).socketeer ∷ []) + 0))
    × ((opened 4 (2, 1)).socketeer.handler.1 ≡ length ((opened 0 (1, 0)).socketeer ∷ []) + 0)
    × ((opened 4 (2, 1)).socketeer.options ≡ plain_options)
    × ((opened 4 (2, 1)).socketeer.codec ≡ raw_codec)
    × All (λ s. Apart s (opened 4 (2, 1)).socketeer) ((opened 0 (1, 0)).socketeer ∷ [])
lifecycle_counts_example =
    lifecycle_counts header_list plain_request local_net four_places counting "ws://localhost"
      plain_options raw_codec (0, 0) (λ s. s.0) (λ s. s.1) counting-IsCounting
      ((opened 0 (1, 0)).socketeer ∷ []) (opened 4 (2, 1)) session
