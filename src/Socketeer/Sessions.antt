-- ===== src/Socketeer/Sessions.antt =====
-- src/lib.rs, src/handler.rs: a connection, and the connections that follow it by `reconnect`.
use socketeer.Common.{
  ap, ℕ, suc, ◌+◌, ◌<◌, String, ◌≡◌, ◌∙◌, List, [], ◌∷◌, length, All, All-map, ok, err, arith,
}
use socketeer.Message.{Message}
use socketeer.Runtime.Channel.{ChannelSize, Mpsc}
use socketeer.SocketLoop.Handlers.{TxChannelPayload}
use socketeer.SocketLoop.Task.{Keepalive, Arm}
use socketeer.Connection.{Connection}
use socketeer.Connection.Closing.{finished}
use socketeer.Codec.{Codec}
use socketeer.Config.{HeaderMap, ClientRequest, ConnectOptions}
use socketeer.Handshake.{HandshakeContext, ConnectionHandler}
use socketeer.Socketeer.{Socketeer, Net, Connected, connect_with_codec, reconnect, split, reunite}
use socketeer.Socketeer.Halves.{reunite_mismatch}
use socketeer.Socketeer.Lifecycle.{connect_with_codec_greets, reconnect_separates, reconnect_slot}

module _ {X Tx Rx S : Type 0} (hooks : ConnectionHandler X Tx Rx S) where
  -- The hooks count what they see: a successful `on_connected` adds one to `connects`,
  -- `on_disconnected` adds one to `disconnects`, and neither touches the other number.
  abbrev pub IsCounting : (S → ℕ) → (S → ℕ) → Type 0
  IsCounting connects disconnects =
      ((codec : Codec X Tx Rx) (s : S) (ctx : HandshakeContext X)
        → (let (s', _, greeted) = hooks.on_connected codec s ctx in
            greeted ≡ ok tt → (connects s' ≡ suc (connects s)) × (disconnects s' ≡ disconnects s)))
      × ((s : S)
          → (connects (hooks.on_disconnected s) ≡ connects s)
            × (disconnects (hooks.on_disconnected s) ≡ suc (disconnects s)))

module _ {X Tx Rx S U H : Type 0} where
  -- Neither half of one handle can be united with the other half of the other.
  abbrev pub Apart : Socketeer X Tx Rx S U H → Socketeer X Tx Rx S U H → Type 0
  Apart s r =
      (reunite (split s).1 (split r).0 ≡ err (record { tx = (split r).0; rx = (split s).1 }))
      × (reunite (split r).1 (split s).0 ≡ err (record { tx = (split s).0; rx = (split r).1 }))

  Apart-lower : (s r : Socketeer X Tx Rx S U H) → s.terminal_error < r.terminal_error → Apart s r
  Apart-lower s r h = reunite_mismatch s r (omega (arith, h))

module _ {X Tx Rx S U H K V Q T R : Type 0} ⦃tx : Mpsc TxChannelPayload T⦄ ⦃rx : Mpsc Message R⦄
    (map : HeaderMap K V H) (request_of : ClientRequest X H Q) (net : Net X U Q)
    (channel_size : ChannelSize) (hooks : ConnectionHandler X Tx Rx S) (url : String)
    (options : ConnectOptions H) (codec : Codec X Tx Rx) (handler : S) where
  -- `Session earlier r`: a connect and then as many reconnects as `earlier` has handles, latest first,
  -- have succeeded, and the last has handed out `r`. Every reconnect takes numbers that are not in
  -- use, and the old connection is in any state and closes as it may.
  pub data Session : List (Socketeer X Tx Rx S U H) → Connected X Tx Rx S U H T R → Type 0 where
    connected :
        (fresh : ℕ) {r : Connected X Tx Rx S U H T R}
        → connect_with_codec map request_of net channel_size hooks fresh url options codec handler
          ≡ ok r
        → Session [] r
    reconnected :
        (fresh : ℕ) (k : Keepalive) (id : ℕ) (arms : List (Arm X)) (c : Connection X T R)
        (r : Connected X Tx Rx S U H T R) {earlier : List (Socketeer X Tx Rx S U H)}
        {r' : Connected X Tx Rx S U H T R}
        → Session earlier r
        → r.socketeer.terminal_error < fresh
        → reconnect map request_of net channel_size hooks fresh r.socketeer k id arms c
          ≡ finished (ok r')
        → Session (r.socketeer ∷ earlier) r'

  kept :
      (earlier : List (Socketeer X Tx Rx S U H)) (r : Connected X Tx Rx S U H T R)
      → Session earlier r
      → (r.socketeer.options ≡ options)
        × (r.socketeer.codec ≡ codec)
        × All (λ s. s.terminal_error < r.socketeer.terminal_error) earlier
  kept [] r (connected fresh e) =
      let (_, o, c, _, _, _) =
        connect_with_codec_greets map request_of net channel_size hooks fresh url options codec
          handler r e in
      (o, c, tt)
  kept _ r (reconnected fresh k id arms old_c q {earlier} s old e) =
      let (o, c, lower) = kept earlier q s in
      let (o', c', _, _, _, _) =
        reconnect_separates map request_of net channel_size hooks fresh q.socketeer k id arms old_c
          r e old in
      let slot =
        reconnect_slot map request_of net channel_size hooks fresh q.socketeer k id arms old_c r
          e in
      (
        o' ∙ o,
        c' ∙ c,
        (omega (arith, slot, old), All-map _ _ (λ s h. omega (arith, h, slot, old)) earlier lower),
      )

  module _ (connects disconnects : S → ℕ) (counting : IsCounting hooks connects disconnects) where
    counted :
        (earlier : List (Socketeer X Tx Rx S U H)) (r : Connected X Tx Rx S U H T R)
        → Session earlier r
        → (connects r.socketeer.handler ≡ suc (length earlier + connects handler))
          × (disconnects r.socketeer.handler ≡ length earlier + disconnects handler)
    counted [] r (connected fresh e) =
        let (_, _, _, _, _, (_, ctx, _, _, (g, at, _, _))) =
          connect_with_codec_greets map request_of net channel_size hooks fresh url options codec
            handler r e in
        let (one, same) = counting.0 codec handler ctx g in
        (omega (arith, ap connects at, one), omega (arith, ap disconnects at, same))
    counted _ r (reconnected fresh k id arms old_c q {earlier} s old e) =
        let (ins, outs) = counted earlier q s in
        let (_, _, _, (_, ctx, _, _, (g, at, _, _)), _, _) =
          reconnect_separates map request_of net channel_size hooks fresh q.socketeer k id arms
            old_c r e old in
        let (same, up) = counting.1 q.socketeer.handler in
        let (one, also) =
          counting.0 q.socketeer.codec (hooks.on_disconnected q.socketeer.handler) ctx g in
        (
          omega (arith, ins, ap connects at, one, same),
          omega (arith, outs, ap disconnects at, also, up),
        )

    -- A connect and any number of reconnects, all successful, whatever becomes of the old connections:
    -- `on_connected` has succeeded once for every connection, and `on_disconnected` has been called
    -- once for every connection but the last, as hooks count that add one at each and touch nothing
    -- else; the options and the codec are those of the first connect; and no half of the handle in use
    -- can be united with a half of any earlier one.
    pub lifecycle_counts :
        (earlier : List (Socketeer X Tx Rx S U H)) (r : Connected X Tx Rx S U H T R)
        → Session earlier r
        → (connects r.socketeer.handler ≡ suc (length earlier + connects handler))
          × (disconnects r.socketeer.handler ≡ length earlier + disconnects handler)
          × (r.socketeer.options ≡ options)
          × (r.socketeer.codec ≡ codec)
          × All (λ s. Apart s r.socketeer) earlier
    lifecycle_counts earlier r s =
        let (ins, outs) = counted earlier r s in
        let (o, c, lower) = kept earlier r s in
        (ins, outs, o, c, All-map _ _ (λ s. Apart-lower s r.socketeer) earlier lower)
