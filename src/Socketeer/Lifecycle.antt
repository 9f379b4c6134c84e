-- ===== src/Socketeer/Lifecycle.antt =====
-- src/lib.rs: what connecting and reconnecting do.
use socketeer.Common.{
  ℕ, ◌+◌, ◌<◌, String, ◌≡◌, List, [], inl, inr, true, ok, err, arith, Result-cases,
}
use socketeer.Socketeer.Halves.{reunite_mismatch}
use socketeer.Message.{Message}
use socketeer.Runtime.Channel.{ChannelSize, Mpsc}
use socketeer.SocketLoop.Handlers.{TxChannelPayload, Outputs}
use socketeer.SocketLoop.Task.{Keepalive, Arm}
use socketeer.Codec.{Codec}
use socketeer.Config.{HeaderMap, ClientRequest, ConnectOptions, build_request}
use socketeer.Handshake.{HandshakeContext, ConnectionHandler}
use socketeer.Connection.{Connection, start}
use socketeer.Connection.Closing.{finished, await_close}
use socketeer.Connection.Closed.{Ending-cases}
use socketeer.Socketeer.{Socketeer, split, reunite, Net, Connected, connect_with_codec, reconnect}

-- The outputs of a new task: the sink as the hooks left it, and no answer yet.
abbrev pub fresh_outputs : {X : Type 0} → HandshakeContext X → Outputs X
fresh_outputs ctx = record {
  sink = ctx.sink;
  oneshots = record { awaited = λ _. true; answered = [] };
}

module _ {X Tx Rx S U H K V Q T R : Type 0} ⦃tx : Mpsc TxChannelPayload T⦄ ⦃rx : Mpsc Message R⦄
    (map : HeaderMap K V H) (request_of : ClientRequest X H Q) (net : Net X U Q)
    (channel_size : ChannelSize) where
  -- What a handle that has been connected to `parsed`, with the given options, codec and handler, owes
  -- to the upgrade and to the hooks.
  abbrev pub Greeted :
      ConnectionHandler X Tx Rx S
      → U
      → ConnectOptions H
      → Codec X Tx Rx
      → S
      → Connected X Tx Rx S U H T R
      → Type 0
  Greeted hooks parsed options codec handler r =
      (request : Q) × (ctx : HandshakeContext X) × (build_request map request_of options
          (net.as_str parsed)
        ≡ ok request)
      × (net.connect_async request ≡ ok ctx)
      × (let (handler', ctx', greeted) = hooks.on_connected codec handler ctx in
          (greeted ≡ ok tt)
          × (r.socketeer.handler ≡ handler')
          × (r.connection ≡ start channel_size (fresh_outputs ctx'))
          × (r.stream ≡ ctx'.stream))

  -- A connect that succeeds has parsed the address, made the upgrade with the request of the options,
  -- and run `on_connected` with success; the task starts with the sink and the stream that the hooks
  -- left and with the keepalive of the options, and the handle keeps the address, the options, the
  -- codec and the handler as the hook left it.
  pub connect_with_codec_greets :
      (hooks : ConnectionHandler X Tx Rx S) (fresh : ℕ) (url : String) (options : ConnectOptions H)
      (codec : Codec X Tx Rx) (handler : S) (r : Connected X Tx Rx S U H T R)
      → connect_with_codec map request_of net channel_size hooks fresh url options codec handler
        ≡ ok r
      → (net.parse url ≡ ok r.socketeer.url)
        × (r.socketeer.options ≡ options)
        × (r.socketeer.codec ≡ codec)
        × (r.keepalive.interval ≡ options.keepalive_interval)
        × (r.keepalive.message ≡ options.custom_keepalive_message)
        × Greeted hooks r.socketeer.url options codec handler r
  unfolding connect_with_codec
  connect_with_codec_greets hooks fresh url options codec handler r e =
      elim (Result-cases (net.parse url)) [
        | inr (x, p) ↦ absurd (ground arith)
        | inl (parsed, p) ↦
            elim (Result-cases (build_request map request_of options (net.as_str parsed))) [
              | inr (x, b) ↦ absurd (ground arith)
              | inl (request, b) ↦ elim (Result-cases (net.connect_async request)) [
                | inr (x, c) ↦ absurd (ground arith)
                | inl (ctx, c) ↦ elim (Result-cases (hooks.on_connected codec handler ctx).2) [
                  | inr (x, g) ↦ absurd (ground arith)
                  | inl (u, g) ↦ (
                    ground arith,
                    ground arith,
                    ground arith,
                    ground arith,
                    ground arith,
                    (request, ctx, ground arith, c, (g, ground arith, ground arith, ground arith)),
                  )
                ]
              ]
            ]
      ]

  new_slot :
      (hooks : ConnectionHandler X Tx Rx S) (fresh : ℕ) (url : String) (options : ConnectOptions H)
      (codec : Codec X Tx Rx) (handler : S) (r : Connected X Tx Rx S U H T R)
      → connect_with_codec map request_of net channel_size hooks fresh url options codec handler
        ≡ ok r
      → r.socketeer.terminal_error ≡ fresh + 3
  unfolding connect_with_codec
  new_slot hooks fresh url options codec handler r e = elim (Result-cases (net.parse url)) [
    | inr (x, p) ↦ absurd (ground arith)
    | inl (parsed, p) ↦
        elim (Result-cases (build_request map request_of options (net.as_str parsed))) [
          | inr (x, b) ↦ absurd (ground arith)
          | inl (request, b) ↦ elim (Result-cases (net.connect_async request)) [
            | inr (x, c) ↦ absurd (ground arith)
            | inl (ctx, c) ↦ elim (Result-cases (hooks.on_connected codec handler ctx).2) [
              | inr (x, g) ↦ absurd (ground arith)
              | inl (u, g) ↦ ground arith
            ]
          ]
        ]
  ]

  reconnect_same :
      (hooks : ConnectionHandler X Tx Rx S) (fresh : ℕ) (s : Socketeer X Tx Rx S U H)
      (k : Keepalive) (id : ℕ) (arms : List (Arm X)) (c : Connection X T R)
      (r : Connected X Tx Rx S U H T R)
      → reconnect map request_of net channel_size hooks fresh s k id arms c ≡ finished (ok r)
      → connect_with_codec map request_of net channel_size hooks fresh
          (net.as_str s.url)
          s.options
          s.codec
          (hooks.on_disconnected s.handler)
        ≡ ok r
  unfolding reconnect
  reconnect_same hooks fresh s k id arms c r e = elim (Ending-cases (await_close k id arms c).1) [
    | inl (ok _, sent) ↦ ground arith
    | inl (err _, sent) ↦ ground arith
    | inr (inl waits) ↦ absurd (ground arith)
    | inr (inr panics) ↦ absurd (ground arith)
  ]

  pub reconnect_slot :
      (hooks : ConnectionHandler X Tx Rx S) (fresh : ℕ) (s : Socketeer X Tx Rx S U H)
      (k : Keepalive) (id : ℕ) (arms : List (Arm X)) (c : Connection X T R)
      (r : Connected X Tx Rx S U H T R)
      → reconnect map request_of net channel_size hooks fresh s k id arms c ≡ finished (ok r)
      → r.socketeer.terminal_error ≡ fresh + 3
  reconnect_slot hooks fresh s k id arms c r e =
      new_slot hooks fresh (net.as_str s.url) s.options s.codec (hooks.on_disconnected s.handler) r
        (reconnect_same hooks fresh s k id arms c r e)

  -- A reconnect that succeeds, whether the close frame of the old connection `c` was sent or not, has
  -- the options and the codec of the old handle and the address that its own address, printed, parses
  -- to; `on_connected` was run with success on the handler that `on_disconnected` had left; and, given
  -- that the slot of the old handle has a number below the new ones, no half of the old handle can be
  -- united with one of the new.
  pub reconnect_separates :
      (hooks : ConnectionHandler X Tx Rx S) (fresh : ℕ) (s : Socketeer X Tx Rx S U H)
      (k : Keepalive) (id : ℕ) (arms : List (Arm X)) (c : Connection X T R)
      (r : Connected X Tx Rx S U H T R)
      → reconnect map request_of net channel_size hooks fresh s k id arms c ≡ finished (ok r)
      → s.terminal_error < fresh
      → (r.socketeer.options ≡ s.options)
        × (r.socketeer.codec ≡ s.codec)
        × (net.parse (net.as_str s.url) ≡ ok r.socketeer.url)
        × Greeted hooks r.socketeer.url s.options s.codec (hooks.on_disconnected s.handler) r
        × (reunite (split s).1 (split r.socketeer).0
            ≡ err (record { tx = (split r.socketeer).0; rx = (split s).1 }))
        × (reunite (split r.socketeer).1 (split s).0
            ≡ err (record { tx = (split s).0; rx = (split r.socketeer).1 }))
  reconnect_separates hooks fresh s k id arms c r e old =
      let h = reconnect_same hooks fresh s k id arms c r e in
      let (parsed, options, codec, _, _, greeted) =
        connect_with_codec_greets hooks fresh (net.as_str s.url) s.options s.codec
          (hooks.on_disconnected s.handler) r h in
      let slot = reconnect_slot hooks fresh s k id arms c r e in
      let (one, other) = reunite_mismatch s r.socketeer (ground (arith, slot, old)) in
      (options, codec, parsed, greeted, one, other)
