-- ===== src/Socketeer/Refusal.antt =====
-- src/lib.rs: the errors of a connect.
use socketeer.Common.{ℕ, String, ◌≡◌, ◌⊎◌, inl, inr, err, ok, arith, Result-cases}
use socketeer.Message.{Message, Error, url_parse, websocket_error}
use socketeer.Runtime.Channel.{ChannelSize, Mpsc}
use socketeer.SocketLoop.Handlers.{TxChannelPayload}
use socketeer.Codec.{Codec}
use socketeer.Config.{HeaderMap, ClientRequest, ConnectOptions, build_request}
use socketeer.Handshake.{HandshakeContext, ConnectionHandler}
use socketeer.Socketeer.{Net, connect_with_codec}

module _ {X Tx Rx S U H K V Q : Type 0} (map : HeaderMap K V H) (request_of : ClientRequest X H Q)
    (net : Net X U Q) where
  -- What may go wrong once the address has been parsed.
  abbrev pub Fails :
      ConnectionHandler X Tx Rx S → U → ConnectOptions H → Codec X Tx Rx → S → Error X → Type 0
  Fails hooks parsed options codec handler e =
      (build_request map request_of options (net.as_str parsed) ≡ err e)
      ⊎ ((request : Q) × (build_request map request_of options (net.as_str parsed) ≡ ok request)
          × (((x : X) × (net.connect_async request ≡ err x) × (e ≡ websocket_error x))
              ⊎ ((ctx : HandshakeContext X) × (net.connect_async request ≡ ok ctx)
                  × ((hooks.on_connected codec handler ctx).2 ≡ err e))))

module _ {X Tx Rx S U H K V Q T R : Type 0} ⦃tx : Mpsc TxChannelPayload T⦄ ⦃rx : Mpsc Message R⦄
    (map : HeaderMap K V H) (request_of : ClientRequest X H Q) (net : Net X U Q)
    (channel_size : ChannelSize) where
  -- A connect that fails says why, and has gone no further: either the address does not parse, and the
  -- error is `UrlParse` with the address as it was given; or the request cannot be made, with that
  -- error; or the upgrade fails, with the error of the network; or the hook fails, and its own error
  -- is returned.
  pub connect_with_codec-Fails :
      (hooks : ConnectionHandler X Tx Rx S) (fresh : ℕ) (url : String) (options : ConnectOptions H)
      (codec : Codec X Tx Rx) (handler : S) (e : Error X)
      → connect_with_codec {T = T} {R = R} map request_of net channel_size hooks fresh url options
          codec handler
        ≡ err e
      → ((x : X) × (net.parse url ≡ err x) × (e ≡ url_parse url x))
        ⊎ ((parsed : U) × (net.parse url ≡ ok parsed)
            × Fails map request_of net hooks parsed options codec handler e)
  unfolding connect_with_codec
  connect_with_codec-Fails hooks fresh url options codec handler e h =
      elim (Result-cases (net.parse url)) [
        | inr (x, p) ↦ inl (x, p, ground arith)
        | inl (parsed, p) ↦
            elim (Result-cases (build_request map request_of options (net.as_str parsed))) [
              | inr (x, b) ↦ inr (parsed, p, inl (ground arith))
              | inl (request, b) ↦ elim (Result-cases (net.connect_async request)) [
                | inr (x, c) ↦ inr (parsed, p, inr (request, b, inl (x, c, ground arith)))
                | inl (ctx, c) ↦ elim (Result-cases (hooks.on_connected codec handler ctx).2) [
                  | inr (x, g) ↦ inr (parsed, p, inr (request, b, inr (ctx, c, ground arith)))
                  | inl (u, g) ↦ absurd (ground arith)
                ]
              ]
            ]
      ]
