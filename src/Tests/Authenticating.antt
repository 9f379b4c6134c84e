-- ===== src/Tests/Authenticating.antt =====
-- The handshake with the authenticating server, and the connection behind it.
use package.text.Mathlib.Text.{◌==◌ as str_eq}
use mathlib.Core.Option.{get_or}
use socketeer.Common.{
  ℕ, String, ◌≡◌, ◌⊎◌, ◌++◌, refl, true, false, List, [], ◌∷◌, some, Result, ok, err, if◌then◌else◌,
}
use socketeer.Message.{Message, text, ping, data_frames}
use socketeer.Runtime.Sink.{written}
use socketeer.SocketLoop.Handlers.{handle_incoming, send_socket_message}
use socketeer.SocketLoop.Task.{outgoing, incoming, socket_loop_split}
use socketeer.SocketLoop.Task.Frames.{is_ended, is_received, queued, in_hand}
use socketeer.Handle.Calls.{send_confirmed, recv_raw}
use socketeer.Handshake.{HandshakeContext, send_text, recv_text}
use socketeer.Connection.{Connection, Event, arm, confirmed, receive, start, step, run}
use socketeer.Connection.Ledger.{reads}
use socketeer.Socketeer.Lifecycle.{fresh_outputs}
use socketeer.MockServer.{
  EchoControlMessage, message, AuthMsg, is_valid, authenticated, refused, auth_echo_server,
}
use socketeer.EndToEnd.Traffic.{requested, waiting_frames}
use socketeer.EndToEnd.Authenticated.{run_authenticates, answers}
use socketeer.Tests.Fixtures.{
  one_place, Outgoing, Frames, open_sink, every_two_seconds, view_channel,
}

abbrev credentials : AuthMsg
credentials = record { action = "auth"; token = "test-token" }

abbrev auth_from_str : String → Result AuthMsg ℕ
auth_from_str t = if str_eq t "login" then ok credentials else err 1

abbrev message_from_str : String → Result EchoControlMessage ℕ
message_from_str t = ok (message t)

abbrev confirmation : String
confirmation = "{\"status\":\"authenticated\"}"

-- A ping comes before the confirmation.
abbrev upgraded : HandshakeContext ℕ
upgraded = record { sink = open_sink; stream = ok (ping []) ∷ ok (text confirmation) ∷ [] }

abbrev greeting : HandshakeContext ℕ
greeting = (send_text upgraded "login").0

abbrev admitted : HandshakeContext ℕ
admitted = (recv_text greeting).0

greets : send_text upgraded "login" ≡ (greeting, ok tt)
unfolding send_text
greets = refl

hears : recv_text greeting ≡ (admitted, ok confirmation)
unfolding send_text recv_text
hears = refl

-- The first text has come back and has been received, the second is on its way back.
abbrev talk : List (Event ℕ)
talk =
    confirmed (text "a") 4
    ∷ arm outgoing
    ∷ arm (incoming (some (ok (text "a"))))
    ∷ receive
    ∷ confirmed (text "b") 5
    ∷ arm outgoing
    ∷ []

abbrev opened : Connection ℕ Outgoing Frames
opened = start one_place (fresh_outputs admitted)

abbrev talking : Connection ℕ Outgoing Frames
talking = get_or (run every_two_seconds opened talk) opened

talk_runs : run every_two_seconds opened talk ≡ some talking
unfolding run step start socket_loop_split send_confirmed recv_raw handle_incoming
    send_socket_message send_text recv_text
talk_runs = refl

talk_goes_on : is_ended talking.phase ≡ false
unfolding run step start socket_loop_split send_confirmed recv_raw handle_incoming
    send_socket_message send_text recv_text
talk_goes_on = refl

talk_taken : is_received talking.task ≡ true
unfolding run step start socket_loop_split send_confirmed recv_raw handle_incoming
    send_socket_message send_text recv_text
talk_taken = refl

abbrev heard : List Message
heard = text "a" ∷ text "b" ∷ []

talk_written : written talking.sink.calls ≡ text "login" ∷ heard ++ []
unfolding run step start socket_loop_split send_confirmed recv_raw handle_incoming
    send_socket_message send_text recv_text
talk_written = refl

talk_answered :
    answers auth_from_str message_from_str "login" heard open_sink
    ≡ text confirmation ∷ reads talk ++ text "b" ∷ []
unfolding auth_echo_server
talk_answered = refl

run_authenticates_example :
    ((is_valid credentials ≡ true)
      × (text confirmation ≡ authenticated)
      × (data_frames (requested talk)
          ≡ talking.delivered
            ++ (queued talking.task
                ++ (in_hand talking.phase
                    ++ ((text "b" ∷ [])
                        ++ ([] ++ data_frames (waiting_frames talking.receiver.queue)))))))
    ⊎ ((is_valid credentials ≡ false) × (text confirmation ≡ refused) × (reads talk ≡ []))
run_authenticates_example =
    run_authenticates auth_from_str message_from_str every_two_seconds one_place upgraded greeting
      admitted "login" confirmation credentials talk talking open_sink heard [] (text "b" ∷ []) refl
      greets hears talk_runs talk_goes_on talk_taken refl refl (λ _ _. refl) refl
      (("a", refl), (("b", refl), tt)) talk_written talk_answered
