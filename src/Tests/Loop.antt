-- ===== src/Tests/Loop.antt =====
-- Runs of the loop with a channel of one frame.
use socketeer.Common.{◌≢◌, ready}
use socketeer.Message.{dropped_without_closing}
use socketeer.SocketLoop.Task.{ended}
use socketeer.SocketLoop.Handlers.{error}
use socketeer.Codec.{json_codec}
use socketeer.Connection.Blameless.{run_spares}
use socketeer.Socketeer.Decoding.{next_times, poll_next_times}
use socketeer.Socketeer.Drained.{run_decodes}
use socketeer.Tests.Fixtures.{one_place, text_json}
use socketeer.Common.{
  ℕ, ◌≡◌, ◌⊎◌, ◌++◌, refl, All, true, List, [], ◌∷◌, none, some, ok, err, ready, map, ◌+◌, length,
  ◌≤◌,
}
use mathlib.Core.Option
use mathlib.Core.Option.{get_or}
use socketeer.Message.{Message, text, binary, ping, websocket_closed}
use socketeer.SocketLoop.Handlers.{handle_incoming, send_socket_message, send_keepalive}
use socketeer.Handle.Calls.{send_confirmed, recv_raw}
use socketeer.SocketLoop.Task.{holding, Task, outgoing, sleep, permit, incoming, socket_loop_split}
use socketeer.SocketLoop.Task.Frames.{in_hand, queued, is_ended, is_received}
use socketeer.SocketLoop.Task.Backpressure.{holding_serves, without_frame}
use socketeer.SocketLoop.Task.Readiness.{socket_loop_split_ready, is_some, is_ready}
use socketeer.SocketLoop.Task.Senders.{IsData}
use socketeer.SocketLoop.Task.Ending.{Recorded}
use socketeer.Connection.{Event, arm, confirmed, receive, Connection, start, step, run}
use socketeer.Connection.Ledger.{run_in_order, reads}
use socketeer.Connection.Kept.{run-IsBounded, IsBounded, CarriesData}
use socketeer.Connection.Drained.{run_drains}
use socketeer.Connection.Surfaced.{Settled, surfaced, run_surfaces}
use socketeer.Handle.Receive.{recv_times, poll_times, endings, stream_endings}
use socketeer.Tests.Fixtures.{Outgoing, Frames, outputs, every_two_seconds, view_channel}

abbrev new : Connection ℕ Outgoing Frames
new = start one_place outputs

-- Two frames arrive; one is queued and one is held, a send is served meanwhile, the program receives,
-- the held frame moves up, and the network fails.
abbrev events : List (Event ℕ)
events =
    confirmed (text "hello") 4
    ∷ arm (incoming (some (ok (text "one"))))
    ∷ arm (incoming (some (ok (ping []))))
    ∷ arm (incoming (some (ok (binary (2 ∷ [])))))
    ∷ arm outgoing
    ∷ arm sleep
    ∷ receive
    ∷ arm permit
    ∷ arm (incoming (some (err 9)))
    ∷ []

abbrev reached : Connection ℕ Outgoing Frames
reached = get_or (run every_two_seconds new events) new

arrival : run every_two_seconds new events ≡ some reached
unfolding run step start send_confirmed socket_loop_split handle_incoming send_socket_message
    recv_raw send_keepalive
arrival = refl

still_open : is_received reached.task ≡ true
unfolding run step start send_confirmed socket_loop_split handle_incoming send_socket_message
    recv_raw send_keepalive
still_open = refl

run_in_order_example :
    (gone : List Message) × (reads events
      ≡ (reached.delivered ++ (queued reached.task ++ in_hand reached.phase)) ++ gone)
    × (length gone ≤ 1)
    × ((is_ended reached.phase ≡ true) ⊎ (gone ≡ []))
run_in_order_example =
    run_in_order every_two_seconds one_place outputs events reached arrival still_open

run-IsBounded_example :
    IsBounded 1 reached.sender
    × CarriesData reached.sender
    × All IsData (in_hand reached.phase)
    × All IsData reached.delivered
run-IsBounded_example = run-IsBounded every_two_seconds one_place outputs events reached arrival

run_surfaces_example :
    Settled reached.phase reached.terminal_error
      (surfaced {T = Outgoing} {R = Frames} every_two_seconds (start one_place outputs) events)
    × Recorded reached.phase reached.task
run_surfaces_example = run_surfaces every_two_seconds one_place outputs events reached arrival

ended_by_network : is_ended reached.phase ≡ true
unfolding run step start send_confirmed socket_loop_split handle_incoming send_socket_message
    recv_raw send_keepalive
ended_by_network = refl

run_drains_example :
    (left gone : List Message) × (reads events ≡ (reached.delivered ++ left) ++ gone)
    × (length gone ≤ 1)
    × Settled reached.phase reached.terminal_error
        (surfaced {T = Outgoing} {R = Frames} every_two_seconds (start one_place outputs) events)
    × (recv_times (length left + 2) reached.sender reached.terminal_error
        ≡ map (λ m. ready (ok m)) left
          ++ endings 2 (get_or reached.terminal_error websocket_closed))
    × (poll_times (length left + 2) reached.sender reached.terminal_error
        ≡ map (λ m. ready (some (ok m))) left ++ stream_endings 2 reached.terminal_error)
run_drains_example =
    run_drains every_two_seconds one_place outputs events reached 2 arrival ended_by_network
      still_open

-- One frame has been queued, another is in hand, and a payload waits; the program then takes the
-- queued one.
abbrev waiting : Task ℕ Outgoing Frames
waiting = record {
  phase = holding (text "two");
  receiver = record {
    queue = record { message = text "hello"; response_tx = some 4 } ∷ [];
    capacity = 1;
    receiving = true;
    sending = true;
  };
  sender = record { queue = []; capacity = 1; receiving = true; sending = true };
  outputs = outputs;
  terminal_error = none;
}

holding_serves_example :
    Option.map without_frame (socket_loop_split every_two_seconds waiting outgoing)
    ≡ socket_loop_split every_two_seconds (without_frame waiting) outgoing
holding_serves_example = holding_serves every_two_seconds waiting (text "two") outgoing refl refl

socket_loop_split_ready_example :
    is_some (socket_loop_split every_two_seconds waiting permit)
    ≡ is_ready every_two_seconds waiting.phase waiting permit
socket_loop_split_ready_example = socket_loop_split_ready every_two_seconds waiting permit

run_spares_example :
    (reached.phase ≢ ended (error dropped_without_closing))
    × (reached.terminal_error ≢ some dropped_without_closing)
run_spares_example =
    run_spares every_two_seconds one_place outputs events reached arrival
      (refl, (refl, (refl, (refl, (refl, (refl, (refl, (refl, (refl, tt))))))))) (λ _. refl)

-- The codec reads texts only: the frame that is left is binary.
run_decodes_example :
    (left gone : List Message) × (reads events ≡ (reached.delivered ++ left) ++ gone)
    × (length gone ≤ 1)
    × Settled reached.phase reached.terminal_error
        (surfaced {T = Outgoing} {R = Frames} every_two_seconds (start one_place outputs) events)
    × (next_times (json_codec text_json) (length left + 2) reached.sender reached.terminal_error
        ≡ map (λ m. ready ((json_codec text_json).decode m)) left
          ++ endings 2 (get_or reached.terminal_error websocket_closed))
    × (poll_next_times
          (json_codec text_json)
          (length left + 2)
          reached.sender
          reached.terminal_error
        ≡ map (λ m. ready (some ((json_codec text_json).decode m))) left
          ++ stream_endings 2 reached.terminal_error)
run_decodes_example =
    run_decodes (json_codec text_json) every_two_seconds one_place outputs events reached 2 arrival
      ended_by_network still_open
