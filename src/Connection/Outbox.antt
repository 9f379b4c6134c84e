-- ===== src/Connection/Outbox.antt =====
-- A specification of the sending side: a queue of requests and the log of the socket, without channels,
-- slots, phases or backpressure. The frames of the client's own are written out here once more.
use socketeer.Common.{ℕ, List, [], ◌∷◌, ◌++◌, Option, none, some, ok}
use socketeer.Message.{Message, Bytes, ping, pong, close, normal}
use socketeer.Runtime.Sink.{SinkCall, sends, closes}
use socketeer.SocketLoop.Handlers.{TxChannelPayload}
use socketeer.SocketLoop.Task.{outgoing, sleep, incoming}
use socketeer.Connection.{Event, arm, confirmed, unconfirmed, closing}

-- What waits to be written, oldest first, and the calls on the socket, newest first.
pub record Outbox : Type 0 where
  pub waiting : List TxChannelPayload
  pub calls : List SinkCall

abbrev pub write_next : List TxChannelPayload → List SinkCall → Outbox
write_next [] l = record { waiting = []; calls = l }
write_next (p ∷ q) l = record { waiting = q; calls = sends p.message ∷ l }

abbrev pub request : Outbox → Message → Option ℕ → Outbox
request b m id = record b { waiting = b.waiting ++ record { message = m; response_tx = id } ∷ [] }

-- What the timer has written: the keepalive of the options, or an empty ping.
abbrev pub heartbeat : Option Message → Message
heartbeat (some custom) = custom
heartbeat none = ping []

abbrev pub answer_bytes : Bytes
answer_bytes = 112 ∷ 111 ∷ 110 ∷ 103 ∷ []  -- b"pong"

abbrev pub goodbye : Message
goodbye = close (some (record { code = normal; reason = "Closing Connection" }))

-- A send of the program queues its frame; the outgoing arm writes the oldest; the timer writes a
-- keepalive; a ping of the peer is answered with a pong, and its close frame by closing; nothing else
-- writes.
abbrev pub spec_step : {X : Type 0} → Option Message → Outbox → Event X → Outbox
spec_step k b (confirmed m id) = request b m (some id)
spec_step k b (unconfirmed m) = request b m none
spec_step k b (closing id) = request b goodbye (some id)
spec_step k b (arm outgoing) = write_next b.waiting b.calls
spec_step k b (arm sleep) = record b { calls = sends (heartbeat k) ∷ b.calls }
spec_step k b (arm (incoming (some (ok (ping _))))) = record b {
  calls = sends (pong answer_bytes) ∷ b.calls;
}
spec_step k b (arm (incoming (some (ok (close _))))) = record b { calls = closes ∷ b.calls }
spec_step k b e = b

abbrev pub spec_run : {X : Type 0} → Option Message → Outbox → List (Event X) → Outbox
spec_run k b [] = b
spec_run k b (e ∷ es) = spec_run k (spec_step k b e) es
