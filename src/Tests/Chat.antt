-- ===== src/Tests/Chat.antt =====
-- The example, on a network that answers.
use socketeer.Common.{ℕ, String, ◌≡◌, refl, map, List, [], ◌∷◌, none, some, ok, err}
use socketeer.Message.{text, close}
use socketeer.Runtime.Sink.{written}
use socketeer.SocketLoop.Task.{outgoing, incoming}
use socketeer.Codec.{Json}
use socketeer.Config.{default, build_request}
use socketeer.Socketeer.{Net}
use socketeer.MockServer.{EchoControlMessage, echo_server}
use socketeer.EchoChat.{hello, main}
use socketeer.EchoChat.Finishing.{main_ends}
use socketeer.Tests.Fixtures.{
  four_places, Outgoing, Frames, open_sink, header_list, plain_request, view_channel,
}

-- Every text is the greeting.
abbrev greeting_json : Json ℕ EchoControlMessage EchoControlMessage
greeting_json = record {
  to_string = λ _. ok "hello";
  from_str = λ _. ok hello;
  from_slice = λ _. err 1;
}

abbrev local_net : Net ℕ String (List (ℕ × ℕ))
local_net = record {
  parse = ok;
  as_str = λ u. u;
  connect_async = λ _. ok (record { sink = open_sink; stream = [] });
}

built : build_request header_list plain_request (default header_list) "ws://x" ≡ ok ((7, 70) ∷ [])
unfolding build_request default
built = refl

main_ends_example :
    main Outgoing Frames header_list plain_request local_net four_places greeting_json "ws://x"
      (outgoing ∷ [])
      (map
        (λ m. incoming (some (ok m)))
        (written (echo_server greeting_json.from_str (ok (text "hello") ∷ []) open_sink).0.calls))
      (outgoing ∷ incoming (some (ok (close none))) ∷ [])
    ≡ ok tt
main_ends_example =
    main_ends Outgoing Frames header_list plain_request local_net four_places greeting_json "ws://x"
      "hello" "ws://x" ((7, 70) ∷ []) (record { sink = open_sink; stream = [] }) open_sink none refl
      built refl (λ _ _. refl) (λ _ _. refl) refl refl refl
