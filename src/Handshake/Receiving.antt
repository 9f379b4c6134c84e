-- ===== src/Handshake/Receiving.antt =====
-- What the receiving calls of the handshake return, and what they leave in the stream.
use socketeer.Common.{
  String, ◌≡◌, ◌⊎◌, inl, inr, ap, ◌∙◌, All, refl, Bool, true, false, List, [], ◌∷◌, ◌++◌, Result,
  ok, err, arith,
}
use socketeer.Message.{
  Message, text, ping, pong, close, Error, websocket_error, websocket_closed,
  unexpected_message_type,
}
use socketeer.Codec.{Codec}
use socketeer.Handshake.{
  HandshakeContext, next_frame, recv_raw, recv_text, text_only, recv, decode_open,
}

module _ {X : Type 0} where
  abbrev pub is_ping_pong : Result Message X → Bool
  is_ping_pong (ok (ping _)) = true
  is_ping_pong (ok (pong _)) = true
  is_ping_pong _ = false

  abbrev pub ArePingPong : List (Result Message X) → Type 0
  ArePingPong = All (λ i. is_ping_pong i ≡ true)

  -- What the raw receive makes of the item that it stops at.
  abbrev pub raw_outcome : Result Message X → Result Message (Error X)
  raw_outcome (ok m) = ok m
  raw_outcome (err e) = err (websocket_error e)

  -- The receive with answer `r`, which leaves `rest`, has passed over pings and pongs alone, and has
  -- then met the end of the stream, or an item of another kind, which decides the answer.
  abbrev pub Receives :
      {A : Type 0}
      → (Result Message X → Result A (Error X))
      → List (Result Message X)
      → List (Result Message X)
      → Result A (Error X)
      → Type 0
  Receives outcome stream rest r =
      (skipped : List (Result Message X)) × ArePingPong skipped
      × (((stream ≡ skipped) × (rest ≡ []) × (r ≡ err websocket_closed))
          ⊎ ((item : Result Message X) × (stream ≡ skipped ++ item ∷ rest)
              × (is_ping_pong item ≡ false)
              × (r ≡ outcome item)))

  skip :
      {A : Type 0} {outcome : Result Message X → Result A (Error X)}
      {stream rest : List (Result Message X)} {r : Result A (Error X)} (i : Result Message X)
      → is_ping_pong i ≡ true
      → Receives outcome stream rest r
      → Receives outcome (i ∷ stream) rest r
  skip i p (l, are, inl (e, end, result)) = (i ∷ l, (p, are), inl (ap (◌∷◌ i) e, end, result))
  skip i p (l, are, inr (item, e, other, result)) =
      (i ∷ l, (p, are), inr (item, ap (◌∷◌ i) e, other, result))

  Receives-map :
      {A B : Type 0} (f : Result A (Error X) → Result B (Error X))
      (outcome : Result Message X → Result A (Error X))
      (outcome' : Result Message X → Result B (Error X)) {stream rest : List (Result Message X)}
      {r : Result A (Error X)}
      → f (err websocket_closed) ≡ err websocket_closed
      → ((i : Result Message X) → f (outcome i) ≡ outcome' i)
      → Receives outcome stream rest r
      → Receives outcome' stream rest (f r)
  Receives-map f outcome outcome' c h (l, are, inl (e, end, result)) =
      (l, are, inl (e, end, ap f result ∙ c))
  Receives-map f outcome outcome' c h (l, are, inr (item, e, other, result)) =
      (l, are, inr (item, e, other, ap f result ∙ h item))

  next_frame-Receives :
      (stream : List (Result Message X))
      → Receives raw_outcome stream (next_frame stream).0 (next_frame stream).1
  unfolding next_frame
  next_frame-Receives [] = ([], tt, inl (refl, refl, refl))
  next_frame-Receives (err e ∷ l) = ([], tt, inr (err e, refl, refl, refl))
  next_frame-Receives (ok (ping b) ∷ l) = skip (ok (ping b)) refl (next_frame-Receives l)
  next_frame-Receives (ok (pong b) ∷ l) = skip (ok (pong b)) refl (next_frame-Receives l)
  next_frame-Receives (ok m ∷ l) = ([], tt, inr (ok m, refl, refl, refl))

  recv_raw_next :
      (ctx : HandshakeContext X)
      → Receives raw_outcome ctx.stream (recv_raw ctx).0.stream (recv_raw ctx).1
  unfolding recv_raw
  recv_raw_next ctx = next_frame-Receives ctx.stream

  abbrev pub text_outcome : Result Message X → Result String (Error X)
  text_outcome (ok (text t)) = ok t
  text_outcome (ok m) = err (unexpected_message_type m)
  text_outcome (err e) = err (websocket_error e)

  text_only-raw_outcome : (i : Result Message X) → text_only (raw_outcome i) ≡ text_outcome i
  unfolding text_only
  text_only-raw_outcome i = ground arith

  recv_text_next :
      (ctx : HandshakeContext X)
      → Receives text_outcome ctx.stream (recv_text ctx).0.stream (recv_text ctx).1
  unfolding recv_text
  recv_text_next ctx =
      Receives-map text_only raw_outcome text_outcome (unfold text_only in refl)
        text_only-raw_outcome (recv_raw_next ctx)

module _ {X Tx Rx : Type 0} (codec : Codec X Tx Rx) where
  -- A close frame never reaches the codec.
  abbrev pub typed_outcome : Result Message X → Result Rx (Error X)
  typed_outcome (ok (close c)) = err websocket_closed
  typed_outcome (ok m) = codec.decode m
  typed_outcome (err e) = err (websocket_error e)

  decode_open-raw_outcome :
      (i : Result Message X) → decode_open codec (raw_outcome i) ≡ typed_outcome i
  unfolding decode_open
  decode_open-raw_outcome i = ground arith

  recv_next :
      (ctx : HandshakeContext X)
      → Receives typed_outcome ctx.stream (recv codec ctx).0.stream (recv codec ctx).1
  unfolding recv
  recv_next ctx =
      Receives-map (decode_open codec) raw_outcome typed_outcome (unfold decode_open in refl)
        decode_open-raw_outcome (recv_raw_next ctx)

  -- The receives of the handshake pass over pings and pongs alone, leave what is behind the next item
  -- for the next call, and return `WebsocketClosed` if the stream ends first. `recv_raw` returns the
  -- item as it is. `recv_text` returns its text; any other frame is handed back in the error, a close
  -- frame too. `recv`, whatever the codec, decodes it, except that a close frame is `WebsocketClosed`.
  pub handshake_next :
      (ctx : HandshakeContext X)
      → Receives raw_outcome ctx.stream (recv_raw ctx).0.stream (recv_raw ctx).1
        × Receives text_outcome ctx.stream (recv_text ctx).0.stream (recv_text ctx).1
        × Receives typed_outcome ctx.stream (recv codec ctx).0.stream (recv codec ctx).1
  handshake_next ctx = (recv_raw_next ctx, recv_text_next ctx, recv_next ctx)
