-- ===== src/EndToEnd/Traffic.antt =====
-- What goes over the wires: the frames of a log, the data among them, and the frames that the program
-- asks to send.
use socketeer.Common.{
  ◌≡◌, refl, sym, ap, ◌∙◌, false, List, [], ◌∷◌, ◌++◌, map, Option, none, some, ok, arith,
  append_assoc, append-nil, map-append,
}
use socketeer.Message.{Message, is_data, data_frames, data_frames-append, ping, pong, close}
use socketeer.Runtime.Sink.{SinkCall, sends, written}
use socketeer.SocketLoop.Handlers.{TxChannelPayload, keepalive_frame}
use socketeer.SocketLoop.Task.{outgoing, sleep, incoming}
use socketeer.Connection.{Event, arm, confirmed, unconfirmed, closing}
use socketeer.Connection.Outbox.{
  Outbox, heartbeat, answer_bytes, goodbye, write_next, spec_step, spec_run,
}

abbrev pub waiting_frames : List TxChannelPayload → List Message
waiting_frames q = map (λ p. p.message) q

-- The frame that an event asks to send.
abbrev pub request_of : {X : Type 0} → Event X → List Message
request_of (confirmed m id) = m ∷ []
request_of (unconfirmed m) = m ∷ []
request_of (closing id) = goodbye ∷ []
request_of e = []

abbrev pub requested : {X : Type 0} → List (Event X) → List Message
requested [] = []
requested (e ∷ es) = request_of e ++ requested es

-- The data frames that have been written, and then those that wait.
abbrev pub outbound : Outbox → List Message
outbound b = data_frames (written b.calls) ++ data_frames (waiting_frames b.waiting)

outbound-request :
    (b : Outbox) (p : TxChannelPayload)
    → outbound (record b { waiting = b.waiting ++ p ∷ [] })
      ≡ outbound b ++ data_frames (p.message ∷ [])
outbound-request b p = simp (map-append, data_frames-append, append_assoc)

written-snoc :
    (l : List SinkCall) (m : Message)
    → data_frames (written (sends m ∷ l)) ≡ data_frames (written l) ++ data_frames (m ∷ [])
written-snoc l m = data_frames-append (written l) (m ∷ [])

outbound-write_next :
    (q : List TxChannelPayload) (l : List SinkCall)
    → outbound (write_next q l) ≡ outbound (record { waiting = q; calls = l })
outbound-write_next [] l = refl
outbound-write_next (p ∷ q) l = rw (written-snoc l p.message) (
    append_assoc (data_frames (written l)) (data_frames (p.message ∷ []))
      (data_frames (waiting_frames q))
    ∙ ap (λ f. data_frames (written l) ++ f)
        (sym (data_frames-append (p.message ∷ []) (waiting_frames q))))

-- A control frame is written besides.
outbound-control :
    (b : Outbox) (m : Message)
    → is_data m ≡ false
    → outbound (record b { calls = sends m ∷ b.calls }) ≡ outbound b ++ []
outbound-control b m h = ground (
  arith,
  written-snoc b.calls m,
  append-nil (data_frames (written b.calls)),
  append-nil (outbound b),
)

heartbeat-is_data :
    (k : Option Message) → is_data (keepalive_frame k) ≡ false → is_data (heartbeat k) ≡ false
heartbeat-is_data (some custom) h = h
heartbeat-is_data none h = refl

outbound-spec_step :
    {X : Type 0} (k : Option Message) (b : Outbox) (e : Event X)
    → is_data (keepalive_frame k) ≡ false
    → outbound (spec_step k b e) ≡ outbound b ++ data_frames (request_of e)
outbound-spec_step k b (confirmed m id) h =
    outbound-request b (record { message = m; response_tx = some id })
outbound-spec_step k b (unconfirmed m) h =
    outbound-request b (record { message = m; response_tx = none })
outbound-spec_step k b (closing id) h =
    outbound-request b (record { message = goodbye; response_tx = some id })
outbound-spec_step k b (arm outgoing) h =
    outbound-write_next b.waiting b.calls ∙ sym (append-nil (outbound b))
outbound-spec_step k b (arm sleep) h = outbound-control b (heartbeat k) (heartbeat-is_data k h)
outbound-spec_step k b (arm (incoming (some (ok (ping p))))) h =
    outbound-control b (pong answer_bytes) refl
outbound-spec_step k b (arm (incoming (some (ok (close p))))) h = sym (append-nil (outbound b))
outbound-spec_step k b e h = sym (append-nil (outbound b))

-- If the keepalive is no data frame, the data frames that the program asked to send are those written
-- and those that wait.
pub outbound-spec_run :
    {X : Type 0} (k : Option Message) (es : List (Event X)) (b : Outbox)
    → is_data (keepalive_frame k) ≡ false
    → outbound (spec_run k b es) ≡ outbound b ++ data_frames (requested es)
outbound-spec_run k [] b h = sym (append-nil (outbound b))
outbound-spec_run k (e ∷ es) b h =
    outbound-spec_run k es (spec_step k b e) h
    ∙ ap (λ f. f ++ data_frames (requested es)) (outbound-spec_step k b e h)
    ∙ append_assoc (outbound b) (data_frames (request_of e)) (data_frames (requested es))
    ∙ ap (λ f. outbound b ++ f) (sym (data_frames-append (request_of e) (requested es)))
