-- ===== src/Tests/Probing.antt =====
-- The probe server, with a client that is stalled.
use socketeer.Common.{
  ℕ, String, ◌≡◌, ◌++◌, refl, arith, map, true, List, [], ◌∷◌, none, some, Result, ok, err,
}
use socketeer.Message.{Message, text, ping}
use socketeer.Runtime.Sink.{written}
use socketeer.SocketLoop.Task.{Keepalive, Task, holding, sleep}
use socketeer.SocketLoop.Clock.{timed_run}
use socketeer.SocketLoop.Clock.Parked.{IsParked}
use socketeer.MockServer.{EchoControlMessage, returned}
use socketeer.ProbeServer.{burst, backpressure_probe_server}
use socketeer.ProbeServer.Marker.{data_of, messages}
use socketeer.EndToEnd.Probed.{in_time, probe_server_alive}
use socketeer.Tests.Fixtures.{Outgoing, Frames, outputs, open_sink, view_channel}

abbrev same_text : EchoControlMessage → Result String ℕ
same_text _ = ok "message"

-- A ping that comes behind an error does not count.
abbrev failing : List (Result Message ℕ)
failing = ok (text "one") ∷ err 9 ∷ ok (ping []) ∷ []

abbrev often : Keepalive
often = record { interval = some 100; message = none }

abbrev stalled : Task ℕ Outgoing Frames
stalled = record {
  phase = holding (text "two");
  receiver = record { queue = []; capacity = 1; receiving = true; sending = true };
  sender = record { queue = text "one" ∷ []; capacity = 1; receiving = true; sending = true };
  outputs = outputs;
  terminal_error = none;
}

stalls : IsParked (text "two") stalled
stalls = (refl, refl, refl, refl, refl)

probe_server_alive_example :
    (t' : Task ℕ Outgoing Frames) × (timed_run often stalled
        (record { delay = 103; arm = sleep } ∷ [])
      ≡ some t')
    × (let (server', served) =
          backpressure_probe_server same_text
            (in_time 103 (map ok (written t'.sink.calls)))
            failing
            open_sink in
        (data_of server'
          ≡ data_of open_sink
            ++ messages same_text (λ _. "message") (λ _. refl) (burst ++ "alive" ∷ []))
        × (served ≡ returned (ok true)))
probe_server_alive_example =
    probe_server_alive same_text (λ _. "message") (λ _. refl) often (text "two") stalled 100 103
      failing open_sink refl refl (omega arith) (omega arith) stalls (λ _ _. refl) (λ _ _. refl)
