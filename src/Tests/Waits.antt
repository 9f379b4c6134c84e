-- ===== src/Tests/Waits.antt =====
-- Waits that come to an end: for the answer to a send, for room, for the end of the loop.
use mathlib.Core.Option.{get_or}
use socketeer.Common.{
  ℕ, ◌≡◌, ◌⊎◌, ◌++◌, refl, arith, true, List, [], ◌∷◌, none, some, ok, err, ready,
}
use socketeer.Message.{websocket_error, text, ping, pong, close}
use socketeer.Runtime.Sink.{sends, closes}
use socketeer.Runtime.Oneshot.{answer_to}
use socketeer.SocketLoop.Handlers.{Sent, handle_incoming, send_socket_message, send_keepalive}
use socketeer.SocketLoop.Task.{
  Arm, Keepalive, selecting, holding, outgoing, sleep, permit, incoming, socket_loop_split,
}
use socketeer.SocketLoop.Task.Frames.{is_ended, queued}
use socketeer.Handle.Calls.{
  returned, panicked, send_confirmed, send_unconfirmed, send_close, take_terminal_error_opt,
}
use socketeer.Connection.{Connection, Event, arm, confirmed, unconfirmed, receive, start, step, run}
use socketeer.Connection.Waiting.{resume, run_resumes}
use socketeer.Connection.Resuming.{run_resumes_reading}
use socketeer.Connection.Outbox.{Outbox, answer_bytes, spec_run}
use socketeer.Connection.Sending.{run_refines}
use socketeer.Connection.Surfaced.{surfaced}
use socketeer.Connection.Closing.{finished, await_close, close_connection}
use socketeer.Socketeer.Typed.{next_message, send}
use socketeer.Connection.Closed.{Returns, run_closes}
use socketeer.Socketeer.RoundTrip.{run_round_trip}
use socketeer.Codec.{raw_codec}
use socketeer.Tests.Fixtures.{one_place, Outgoing, Frames, outputs, every_two_seconds, view_channel}

abbrev idle : Connection ℕ Outgoing Frames
idle = start one_place outputs

abbrev after : List (Event ℕ) → Connection ℕ Outgoing Frames
after es = get_or (run every_two_seconds idle es) idle

idle_runs : run every_two_seconds idle [] ≡ some idle
unfolding run
idle_runs = refl

-- A confirmed send waits in the queue when the network ends the connection.
abbrev cut_off : List (Event ℕ)
cut_off = confirmed (text "hello") 4 ∷ arm (incoming none) ∷ []

cut_off_runs : run every_two_seconds idle cut_off ≡ some (after cut_off)
unfolding run step start socket_loop_split send_confirmed handle_incoming
cut_off_runs = refl

cut_off_ends : is_ended (after cut_off).phase ≡ true
unfolding run step start socket_loop_split send_confirmed handle_incoming
cut_off_ends = refl

run_resumes_example :
    ((r : Sent ℕ) × (answer_to 4 (after cut_off).oneshots.answered ≡ some r)
      × (resume 4 (after cut_off) ≡ ready (returned r)))
    ⊎ ((answer_to 4 (after cut_off).oneshots.answered ≡ none)
        × (resume 4 (after cut_off) ≡ ready panicked))
run_resumes_example =
    run_resumes every_two_seconds one_place outputs cut_off (after cut_off) 4 cut_off_runs
      cut_off_ends

-- That send panics.
cut_off_panics : resume 4 (after cut_off) ≡ ready panicked
unfolding resume run step start socket_loop_split send_confirmed handle_incoming
cut_off_panics = refl

-- The close frame is written, and the peer's close frame ends the loop; the call returns what its
-- sending did.
abbrev last_arms : List (Arm ℕ)
last_arms = incoming (some (ok (close none))) ∷ []

abbrev hung_up : Connection ℕ Outgoing Frames
hung_up = (close_connection every_two_seconds 9 (outgoing ∷ []) last_arms idle).0

hung_up_answers :
    close_connection every_two_seconds 9 (outgoing ∷ []) last_arms idle
    ≡ (hung_up, finished (ok tt))
unfolding close_connection await_close resume run step start socket_loop_split send_close
    handle_incoming send_socket_message take_terminal_error_opt
hung_up_answers = refl

-- The network fails instead: its error is returned.
cut_short :
    (close_connection every_two_seconds 9 (outgoing ∷ []) (incoming (some (err 9)) ∷ []) idle).1
    ≡ finished (err (websocket_error 9))
unfolding close_connection await_close resume run step start socket_loop_split send_close
    handle_incoming send_socket_message take_terminal_error_opt
cut_short = refl

run_closes_example :
    (close_sent : Sent ℕ) × ((await_close every_two_seconds 9 (outgoing ∷ []) idle).1
      ≡ finished close_sent)
    × Returns hung_up.phase
        (surfaced {T = Outgoing} {R = Frames} every_two_seconds idle [])
        close_sent
        (ok tt)
run_closes_example =
    run_closes every_two_seconds one_place outputs [] idle hung_up 9 (outgoing ∷ []) last_arms
      (ok tt) idle_runs hung_up_answers

-- Two sends, of which one is written, with a keepalive of the options and a pong, and with two frames
-- read; then the peer closes.
abbrev busy : List (Event ℕ)
busy =
    unconfirmed (text "a")
    ∷ arm (incoming (some (ok (text "one"))))
    ∷ arm outgoing
    ∷ arm (incoming (some (ok (ping []))))
    ∷ arm sleep
    ∷ unconfirmed (text "b")
    ∷ arm (incoming (some (ok (close none))))
    ∷ []

abbrev chatty : Keepalive
chatty = record { interval = some 2000; message = some (text "still here") }

abbrev rested : Connection ℕ Outgoing Frames
rested = get_or (run chatty idle busy) idle

busy_runs : run chatty idle busy ≡ some rested
unfolding run step start socket_loop_split send_confirmed handle_incoming send_unconfirmed
    send_socket_message send_keepalive
busy_runs = refl

abbrev busy_spec : Outbox
busy_spec = spec_run chatty.message (record { waiting = []; calls = outputs.sink.calls }) busy

run_refines_example :
    (rested.sink.calls ≡ busy_spec.calls)
    × ((is_ended rested.phase ≡ true) ⊎ (rested.receiver.queue ≡ busy_spec.waiting))
run_refines_example = run_refines chatty one_place outputs busy rested busy_runs

-- The socket has been closed last, behind the keepalive.
busy_closes :
    rested.sink.calls
    ≡ closes
      ∷ sends (text "still here")
      ∷ sends (pong answer_bytes)
      ∷ sends (text "a")
      ∷ outputs.sink.calls
unfolding run step start socket_loop_split send_confirmed handle_incoming send_unconfirmed
    send_socket_message send_keepalive
busy_closes = refl

abbrev full : Connection ℕ Outgoing Frames
full = record {
  task = record {
    phase = holding (text "two");
    receiver = record { queue = []; capacity = 1; receiving = true; sending = true };
    sender = record { queue = text "one" ∷ []; capacity = 1; receiving = true; sending = true };
    outputs = outputs;
    terminal_error = none;
  };
  delivered = [];
}

run_resumes_reading_example :
    (c' : Connection ℕ Outgoing Frames) × (run every_two_seconds full (receive ∷ arm permit ∷ [])
      ≡ some c')
    × (c'.phase ≡ selecting)
    × (c'.delivered ≡ full.delivered ++ text "one" ∷ [])
    × (queued c'.task ≡ [] ++ text "two" ∷ [])
run_resumes_reading_example =
    run_resumes_reading every_two_seconds full 1 (text "two") (text "one") [] refl refl refl
      (refl, omega arith)

raw_encodes : (raw_codec {X = ℕ}).encode (text "hi") ≡ ok (text "hi")
unfolding raw_codec
raw_encodes = refl

raw_decodes : (raw_codec {X = ℕ}).decode (text "hi") ≡ ok (text "hi")
unfolding raw_codec
raw_decodes = refl

run_round_trip_example :
    (c : Connection ℕ Outgoing Frames) × (run every_two_seconds
        (start one_place outputs)
        (confirmed (text "hi") 4 ∷ arm outgoing ∷ arm (incoming (some (ok (text "hi")))) ∷ [])
      ≡ some c)
    × (send raw_codec idle.receiver none (text "hi") 4
        ≡ send_confirmed {X = ℕ} idle.receiver none (text "hi") 4)
    × (c.sink.calls ≡ sends (text "hi") ∷ outputs.sink.calls)
    × (resume 4 c ≡ ready (returned (ok tt)))
    × ((next_message raw_codec c.sender c.terminal_error).2 ≡ ready (ok (text "hi")))
run_round_trip_example =
    run_round_trip raw_codec (text "hi") (text "hi") (text "hi") 4 every_two_seconds one_place
      outputs raw_encodes raw_decodes refl refl refl
