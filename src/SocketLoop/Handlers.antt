-- ===== src/SocketLoop/Handlers.antt =====
-- src/socket_loop.rs: the functions that handle one frame, each with the sink and the one-shots that it
-- writes to.
use socketeer.Common.{
  ℕ, Bool, false, [], ◌∷◌, Option, none, some, Result, ok, err, map_err, is_err, if◌then◌else◌,
}
use socketeer.Message.{
  Message, text, binary, ping, pong, frame, close, Bytes, Error, websocket_error, websocket_closed,
  dropped_without_closing,
}
use socketeer.Runtime.Sink.{Sink, sink_send, sink_close}
use socketeer.Runtime.Oneshot.{Oneshots, oneshot_send}

-- `response_tx` is the number of a one-shot.
pub record TxChannelPayload : Type 0 where
  pub message : Message
  pub response_tx : Option ℕ

pub data LoopState (X : Type 0) : Type 0 where
  running : LoopState X
  error : Error X → LoopState X
  closed : LoopState X

pub data Incoming (X : Type 0) : Type 0 where
  state : LoopState X → Incoming X
  deliver : Message → Incoming X

abbrev pub Sent : Type 0 → Type 0
Sent X = Result (Unit {0}) (Error X)

-- What the handlers write to: the sink, and the one-shots of the callers.
pub record Outputs (X : Type 0) : Type 0 where
  pub sink : Sink X
  pub oneshots : Oneshots (Sent X)

abbrev pub pong_bytes : Bytes
pong_bytes = b'p' ∷ b'o' ∷ b'n' ∷ b'g' ∷ []

-- The custom keepalive, or an empty ping.
abbrev pub keepalive_frame : Option Message → Message
keepalive_frame (some custom) = custom
keepalive_frame none = ping []

module _ {X : Type 0} where
  -- `response_tx.send(result)` where there is a one-shot; the flag says that nobody awaits it.
  abbrev pub respond : Option ℕ → Sent X → Outputs X → Outputs X × Bool
  respond none result o = (o, false)
  respond (some id) result o =
      let (oneshots', gone) = oneshot_send o.oneshots id result in
      (record o { oneshots = oneshots' }, gone)

  unfoldable pub send_socket_message : Option TxChannelPayload → Outputs X → Outputs X × LoopState X
  send_socket_message none o = (o, error dropped_without_closing)
  send_socket_message (some payload) o =
      let (sink', sent) = sink_send o.sink payload.message in
      let send_result : Sent X = map_err websocket_error sent in
      let (o', gone) = respond payload.response_tx send_result (record o { sink = sink' }) in
      if gone
      then (o', error dropped_without_closing)
      else (if is_err send_result then (o', error websocket_closed) else (o', running))

  -- `Ok(()) => state`, and the error of the sink otherwise.
  abbrev pub or_error : Result (Unit {0}) X → LoopState X → LoopState X
  or_error (ok _) s = s
  or_error (err e) s = error (websocket_error e)

  -- `none` is the end of the stream.
  unfoldable pub handle_incoming : Option (Result Message X) → Sink X → Sink X × Incoming X
  handle_incoming (some (ok (ping _))) s =
      let (s', sent) = sink_send s (pong pong_bytes) in (s', state (or_error sent running))
  handle_incoming (some (ok (close _))) s =
      let (s', done) = sink_close s in (s', state (or_error done closed))
  handle_incoming (some (ok (text t))) s = (s, deliver (text t))
  handle_incoming (some (ok (binary b))) s = (s, deliver (binary b))
  handle_incoming (some (ok (pong _))) s = (s, state running)
  handle_incoming (some (ok (frame _))) s = (s, state running)
  handle_incoming (some (err e)) s = (s, state (error (websocket_error e)))
  handle_incoming none s = (s, state (error websocket_closed))

  unfoldable pub send_keepalive : Sink X → Option Message → Sink X × LoopState X
  send_keepalive s custom_message =
      let (s', sent) = sink_send s (keepalive_frame custom_message) in (s', or_error sent running)
