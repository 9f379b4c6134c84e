-- ===== src/Tests/Sends.antt =====
-- Sends that are answered, that fail, and that nobody answers.
use mathlib.Core.Option.{get_or}
use socketeer.Common.{
  ℕ, ◌≡◌, ◌≤◌, refl, suc, length, Bool, true, false, [], ◌∷◌, Option, none, some, Result, ok, err,
  map_err, is_err,
}
use socketeer.Message.{text, websocket_error, websocket_closed, dropped_without_closing}
use socketeer.Runtime.Sink.{sends}
use socketeer.SocketLoop.Handlers.{error, Sent, send_socket_message, send_keepalive}
use socketeer.SocketLoop.Task.{
  Phase, selecting, holding, ended, Keepalive, Task, Arm, outgoing, sleep, socket_loop_split,
}
use socketeer.SocketLoop.Task.Frames.{is_ended}
use socketeer.SocketLoop.Task.Slot.{
  socket_loop_split_answers, socket_loop_split_unheard, socket_loop_split_cancelled,
}
use socketeer.SocketLoop.Task.Halting.{outgoing_times, outgoing_times_ends}
use socketeer.Tests.Fixtures.{Outgoing, Frames, view_channel}

-- A task with one payload in its queue, and a sink that gives one answer to every call.
abbrev task_with : Phase ℕ → Option ℕ → (ℕ → Bool) → Result (Unit {0}) ℕ → Task ℕ Outgoing Frames
task_with phase response_tx awaited answer = record {
  phase = phase;
  receiver = record {
    queue = record { message = text "hello"; response_tx = response_tx } ∷ [];
    capacity = 1;
    receiving = true;
    sending = false;
  };
  sender = record { queue = text "one" ∷ []; capacity = 1; receiving = true; sending = true };
  outputs = record {
    sink = record { calls = []; answer = λ _ _. answer };
    oneshots = record { awaited = awaited; answered = [] };
  };
  terminal_error = none;
}

abbrev hello_keepalive : Keepalive
hello_keepalive = record { interval = some 10; message = some (text "hello") }

abbrev taken : Task ℕ Outgoing Frames → Arm ℕ → Task ℕ Outgoing Frames
taken t a = get_or (socket_loop_split hello_keepalive t a) t

-- With a frame in hand, a send that fails, and whose caller awaits the answer.
abbrev failing : Task ℕ Outgoing Frames
failing = task_with (holding (text "two")) (some 4) (λ _. true) (err 9)

failing_moves : socket_loop_split hello_keepalive failing outgoing ≡ some (taken failing outgoing)
unfolding socket_loop_split send_socket_message
failing_moves = refl

socket_loop_split_answers_example :
    let sent : Sent ℕ =
      map_err websocket_error (failing.sink.answer failing.sink.calls (sends (text "hello"))) in
    ((taken failing outgoing).sink.calls ≡ sends (text "hello") ∷ failing.sink.calls)
    × ((taken failing outgoing).oneshots.answered ≡ (4, sent) ∷ failing.oneshots.answered)
    × (is_ended (taken failing outgoing).phase ≡ is_err sent)
socket_loop_split_answers_example =
    socket_loop_split_answers hello_keepalive failing (taken failing outgoing) (text "hello") 4 []
      refl refl failing_moves

-- The same without a caller, next to a keepalive that fails.
abbrev silent : Task ℕ Outgoing Frames
silent = task_with selecting none (λ _. true) (err 9)

silent_moves : socket_loop_split hello_keepalive silent outgoing ≡ some (taken silent outgoing)
unfolding socket_loop_split send_socket_message
silent_moves = refl

silent_sleeps : socket_loop_split hello_keepalive silent sleep ≡ some (taken silent sleep)
unfolding socket_loop_split send_keepalive
silent_sleeps = refl

socket_loop_split_unheard_example :
    ((taken silent outgoing).terminal_error ≡ some websocket_closed)
    × ((taken silent outgoing).oneshots.answered ≡ silent.oneshots.answered)
    × ((taken silent sleep).terminal_error ≡ some (websocket_error 9))
socket_loop_split_unheard_example =
    socket_loop_split_unheard hello_keepalive silent (taken silent outgoing) (taken silent sleep)
      (text "hello") [] 9 refl refl refl silent_moves silent_sleeps

-- A send that the sink takes, but whose caller has stopped waiting.
abbrev deserted : Task ℕ Outgoing Frames
deserted = task_with selecting (some 4) (λ _. false) (ok tt)

deserted_moves :
    socket_loop_split hello_keepalive deserted outgoing ≡ some (taken deserted outgoing)
unfolding socket_loop_split send_socket_message
deserted_moves = refl

socket_loop_split_cancelled_example :
    ((taken deserted outgoing).sink.calls ≡ sends (text "hello") ∷ deserted.sink.calls)
    × ((taken deserted outgoing).phase ≡ ended (error dropped_without_closing))
    × ((taken deserted outgoing).terminal_error ≡ some dropped_without_closing)
socket_loop_split_cancelled_example =
    socket_loop_split_cancelled hello_keepalive deserted (taken deserted outgoing) (text "hello") 4
      [] refl refl deserted_moves

-- A sink that takes everything, one frame in hand, and no sender left.
abbrev abandoned : Task ℕ Outgoing Frames
abandoned = task_with (holding (text "two")) (some 4) (λ _. true) (ok tt)

outgoing_times_ends_example :
    (n : ℕ) × (t' : Task ℕ Outgoing Frames) × (n ≤ suc (length abandoned.receiver.queue))
    × (outgoing_times hello_keepalive n abandoned ≡ some t')
    × (is_ended t'.phase ≡ true)
outgoing_times_ends_example =
    outgoing_times_ends hello_keepalive abandoned.receiver.queue abandoned refl refl refl
