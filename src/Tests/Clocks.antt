-- ===== src/Tests/Clocks.antt =====
-- Runs of the loop with a timer.
use mathlib.Core.Option.{get_or}
use socketeer.Common.{
  ℕ, ◌≡◌, ◌≤◌, ◌+◌, ◌*◌, refl, arith, true, List, [], ◌∷◌, none, some, ok, length,
}
use socketeer.Message.{text, ping}
use socketeer.SocketLoop.Handlers.{keepalive_frame, send_keepalive}
use socketeer.SocketLoop.Task.{
  Task, selecting, holding, outgoing, sleep, incoming, socket_loop_split,
}
use socketeer.SocketLoop.Clock.{Tick, timed_step, timed_run, elapsed}
use socketeer.SocketLoop.Clock.Idle.{untimed, timed_run-untimed}
use socketeer.SocketLoop.Clock.Parked.{IsParked, keepalives, timed_run-keepalives}
use socketeer.Tests.Fixtures.{Outgoing, Frames, outputs, every_two_seconds, view_channel}

abbrev waiting : Task ℕ Outgoing Frames
waiting = record {
  phase = selecting;
  receiver = record {
    queue = record { message = text "hello"; response_tx = some 4 } ∷ [];
    capacity = 1;
    receiving = true;
    sending = true;
  };
  sender = record { queue = []; capacity = 1; receiving = true; sending = true };
  outputs = outputs;
  terminal_error = none;
}

-- Frames that come in, and a send, each in good time.
abbrev lively : List (Tick ℕ)
lively =
    record { delay = 1999; arm = incoming (some (ok (ping []))) }
    ∷ record { delay = 0; arm = outgoing }
    ∷ record { delay = 1500; arm = incoming (some (ok (text "one"))) }
    ∷ []

timed_run-untimed_example :
    timed_run every_two_seconds waiting lively
    ≡ timed_run (untimed every_two_seconds) waiting lively
timed_run-untimed_example =
    timed_run-untimed every_two_seconds waiting lively 2000 refl
      (omega arith, (omega arith, (omega arith, tt)))

-- A program that does nothing, with one frame queued and one in hand.
abbrev parked : Task ℕ Outgoing Frames
parked = record {
  phase = holding (text "two");
  receiver = record { queue = []; capacity = 1; receiving = true; sending = true };
  sender = record { queue = text "one" ∷ []; capacity = 1; receiving = true; sending = true };
  outputs = outputs;
  terminal_error = none;
}

abbrev quiet : List (Tick ℕ)
quiet = record { delay = 2000; arm = sleep } ∷ record { delay = 2004; arm = sleep } ∷ []

abbrev later : Task ℕ Outgoing Frames
later = get_or (timed_run every_two_seconds parked quiet) parked

time_passes : timed_run every_two_seconds parked quiet ≡ some later
unfolding timed_run timed_step socket_loop_split send_keepalive
time_passes = refl

parks : IsParked (text "two") parked
parks = (refl, refl, refl, refl, refl)

timed_run-keepalives_example :
    IsParked (text "two") later
    × (later.sink.calls
        ≡ keepalives (length quiet) (keepalive_frame every_two_seconds.message) parked.sink.calls)
    × ((next : Task ℕ Outgoing Frames) × (timed_step every_two_seconds later
            (record { delay = 2000; arm = sleep })
          ≡ some next))
    × (length quiet * 2000 ≤ elapsed quiet)
    × (elapsed quiet ≤ length quiet * (2000 + 5))
timed_run-keepalives_example =
    timed_run-keepalives every_two_seconds (text "two") parked later quiet 2000 5 refl parks
      (λ _ _. refl) (omega arith, (omega arith, tt)) time_passes
