-- ===== src/Tests/Echoing.antt =====
-- The client at work, with the echo server at the other end.
use socketeer.Connection.Receiving.{inbox, run_implements}
use socketeer.Connection.Inbox.{inbox_run}
use socketeer.Connection.Flushed.{run_flushes}
use socketeer.Connection.Effects.{data_of, payloads}
use socketeer.Common.{◌≤◌, length}
use socketeer.Connection.Answered.{run_answers, outgoings, IsAnswered}
use mathlib.Core.Option.{get_or}
use socketeer.Common.{
  ℕ, String, ◌≡◌, ◌⊎◌, ◌++◌, refl, map, any, true, false, List, [], ◌∷◌, some, Result, ok, ready,
  pending,
}
use socketeer.Message.{Message, text, ping, data_frames}
use socketeer.Runtime.Sink.{written}
use socketeer.Runtime.Oneshot.{answer_to}
use socketeer.SocketLoop.Handlers.{Sent, handle_incoming, send_socket_message, send_keepalive}
use socketeer.SocketLoop.Task.{outgoing, sleep, incoming, socket_loop_split}
use socketeer.SocketLoop.Task.Frames.{is_ended, is_received, queued, in_hand}
use socketeer.Handle.Calls.{returned, send_confirmed, send_unconfirmed, recv_raw}
use socketeer.Connection.{Connection, Event, arm, confirmed, unconfirmed, receive, start, step, run}
use socketeer.Connection.Ledger.{reads}
use socketeer.Connection.Waiting.{resume, carries}
use socketeer.Connection.Served.{run_serves}
use socketeer.MockServer.{EchoControlMessage, message, echo_server}
use socketeer.EndToEnd.Traffic.{requested, waiting_frames}
use socketeer.EndToEnd.Echoed.{run_echoes}
use socketeer.Tests.Fixtures.{
  one_place, Outgoing, Frames, outputs, open_sink, every_two_seconds, view_channel,
}

abbrev message_from_str : String → Result EchoControlMessage ℕ
message_from_str t = ok (message t)

-- Of four texts, the first has come back and has been received, the second is in the receive channel,
-- the third is on its way to the server, behind a keepalive, and the fourth waits in the queue.
abbrev talk : List (Event ℕ)
talk =
    confirmed (text "a") 4
    ∷ arm outgoing
    ∷ arm (incoming (some (ok (text "a"))))
    ∷ receive
    ∷ unconfirmed (text "b")
    ∷ arm outgoing
    ∷ arm (incoming (some (ok (text "b"))))
    ∷ confirmed (text "c") 5
    ∷ arm sleep
    ∷ arm outgoing
    ∷ confirmed (text "d") 6
    ∷ []

abbrev talking : Connection ℕ Outgoing Frames
talking = get_or (run every_two_seconds (start one_place outputs) talk) (start one_place outputs)

talk_runs : run every_two_seconds (start one_place outputs) talk ≡ some talking
unfolding run step start socket_loop_split send_confirmed send_unconfirmed recv_raw handle_incoming
    send_socket_message send_keepalive
talk_runs = refl

talk_goes_on : is_ended talking.phase ≡ false
unfolding run step start socket_loop_split send_confirmed send_unconfirmed recv_raw handle_incoming
    send_socket_message send_keepalive
talk_goes_on = refl

talk_taken : is_received talking.task ≡ true
unfolding run step start socket_loop_split send_confirmed send_unconfirmed recv_raw handle_incoming
    send_socket_message send_keepalive
talk_taken = refl

abbrev heard : List Message
heard = text "a" ∷ text "b" ∷ []

talk_written : written talking.sink.calls ≡ heard ++ ping [] ∷ text "c" ∷ []
unfolding run step start socket_loop_split send_confirmed send_unconfirmed recv_raw handle_incoming
    send_socket_message send_keepalive
talk_written = refl

talk_echoed :
    data_frames (written (echo_server message_from_str (map ok heard) open_sink).0.calls)
    ≡ reads talk ++ []
unfolding echo_server
talk_echoed = refl

run_echoes_example :
    data_frames (requested talk)
    ≡ talking.delivered
      ++ (queued talking.task
          ++ (in_hand talking.phase
              ++ ([]
                  ++ (data_frames (ping [] ∷ text "c" ∷ [])
                      ++ data_frames (waiting_frames talking.receiver.queue)))))
run_echoes_example =
    run_echoes message_from_str every_two_seconds one_place outputs talk talking open_sink heard
      (ping [] ∷ text "c" ∷ []) [] talk_runs talk_goes_on talk_taken refl refl refl (λ _ _. refl)
      (("a", refl), (("b", refl), tt)) talk_written talk_echoed

run_serves_example :
    ((r : Sent ℕ) × (answer_to 6 talking.oneshots.answered ≡ some r)
      × (resume 6 talking ≡ ready (returned r)))
    ⊎ ((any (carries 6) talking.receiver.queue ≡ true) × (resume 6 talking ≡ pending))
run_serves_example =
    run_serves every_two_seconds one_place outputs talk talking 6 talk_runs talk_goes_on refl

run_answers_example :
    (j : ℕ) × (c : Connection ℕ Outgoing Frames) × (j ≤ length talking.receiver.queue)
    × (run every_two_seconds talking (outgoings j) ≡ some c)
    × IsAnswered 6 c
run_answers_example =
    run_answers every_two_seconds one_place outputs talk talking 6 talk_runs talk_goes_on refl

-- The third text has been asked for behind two others, and its call has its answer.
abbrev asked_before : List (Event ℕ)
asked_before =
    confirmed (text "a") 4
    ∷ arm outgoing
    ∷ arm (incoming (some (ok (text "a"))))
    ∷ receive
    ∷ unconfirmed (text "b")
    ∷ arm outgoing
    ∷ arm (incoming (some (ok (text "b"))))
    ∷ []

abbrev asked_after : List (Event ℕ)
asked_after = arm sleep ∷ arm outgoing ∷ confirmed (text "d") 6 ∷ []

third_answered : answer_to 5 talking.oneshots.answered ≡ some (ok tt)
unfolding run step start socket_loop_split send_confirmed send_unconfirmed recv_raw handle_incoming
    send_socket_message send_keepalive
third_answered = refl

run_flushes_example :
    (later : List Message) × (data_frames (written talking.sink.calls)
      ≡ data_frames (written outputs.sink.calls)
        ++ (data_of (payloads (asked_before ++ confirmed (text "c") 5 ∷ [])) ++ later))
run_flushes_example =
    run_flushes every_two_seconds one_place outputs asked_before (confirmed (text "c") 5)
      asked_after talking 5 (ok tt) talk_runs refl refl refl refl third_answered

run_implements_example : inbox talking ≡ inbox_run (record { pending = []; received = [] }) talk
run_implements_example =
    run_implements every_two_seconds one_place outputs talk talking talk_runs talk_goes_on
      talk_taken
