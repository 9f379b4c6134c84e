-- ===== src/Handshake.antt =====
-- src/handler.rs: the context of the handshake, and the lifecycle hooks.
pub mod Receiving
use socketeer.Common.{String, List, [], ◌∷◌, Result, ok, err, map_err}
use socketeer.Message.{
  Message, text, binary, ping, pong, close, Bytes, Error, websocket_error, websocket_closed,
  unexpected_message_type,
}
use socketeer.Runtime.Sink.{Sink, sink_send}
use socketeer.Codec.{Codec}

-- The two halves of the socket: `stream` is what is still to come before the stream ends.
pub record HandshakeContext (X : Type 0) : Type 0 where
  pub sink : Sink X
  pub stream : List (Result Message X)

-- The user's hooks, with the state of the handler.
pub record ConnectionHandler (X Tx Rx S : Type 0) : Type 0 where
  pub on_connected :
      Codec X Tx Rx → S → HandshakeContext X → S × HandshakeContext X × Result (Unit {0}) (Error X)
  pub on_disconnected : S → S

-- `NoopHandler`: the default hooks of the trait.
unfoldable pub noop_handler : {X Tx Rx : Type 0} → ConnectionHandler X Tx Rx (Unit {0})
noop_handler = record { on_connected = λ _ s ctx. (s, ctx, ok tt); on_disconnected = λ s. s }

module _ {X : Type 0} where
  -- `self.sink.send(message).await.map_err(Error::from)`
  send_frame : HandshakeContext X → Message → HandshakeContext X × Result (Unit {0}) (Error X)
  send_frame ctx m =
      let (sink', sent) = sink_send ctx.sink m in
      (record ctx { sink = sink' }, map_err websocket_error sent)

  unfoldable pub send_text :
      HandshakeContext X → String → HandshakeContext X × Result (Unit {0}) (Error X)
  unfolding send_frame
  send_text ctx t = send_frame ctx (text t)

  unfoldable pub send_binary :
      HandshakeContext X → Bytes → HandshakeContext X × Result (Unit {0}) (Error X)
  unfolding send_frame
  send_binary ctx b = send_frame ctx (binary b)

  -- The loop of `recv_raw`, over what is still to come.
  next_frame : List (Result Message X) → List (Result Message X) × Result Message (Error X)
  next_frame [] = ([], err websocket_closed)
  next_frame (err e ∷ items) = (items, err (websocket_error e))
  next_frame (ok (ping _) ∷ items) = next_frame items
  next_frame (ok (pong _) ∷ items) = next_frame items
  next_frame (ok other ∷ items) = (items, ok other)

  unfoldable pub recv_raw : HandshakeContext X → HandshakeContext X × Result Message (Error X)
  unfolding next_frame
  recv_raw ctx = let (stream', r) = next_frame ctx.stream in (record ctx { stream = stream' }, r)

  text_only : Result Message (Error X) → Result String (Error X)
  text_only (ok (text t)) = ok t
  text_only (ok other) = err (unexpected_message_type other)
  text_only (err e) = err e

  unfoldable pub recv_text : HandshakeContext X → HandshakeContext X × Result String (Error X)
  unfolding recv_raw text_only
  recv_text ctx = let (ctx', r) = recv_raw ctx in (ctx', text_only r)

module _ {X Tx Rx : Type 0} (codec : Codec X Tx Rx) where
  unfoldable pub send : HandshakeContext X → Tx → HandshakeContext X × Result (Unit {0}) (Error X)
  unfolding send_frame
  send ctx value = elim (codec.encode value) [ ok m ↦ send_frame ctx m | err e ↦ (ctx, err e) ]

  decode_open : Result Message (Error X) → Result Rx (Error X)
  decode_open (ok (close _)) = err websocket_closed
  decode_open (ok other) = codec.decode other
  decode_open (err e) = err e

  unfoldable pub recv : HandshakeContext X → HandshakeContext X × Result Rx (Error X)
  unfolding recv_raw decode_open
  recv ctx = let (ctx', r) = recv_raw ctx in (ctx', decode_open r)
