-- ===== src/MockServer/Packed.antt =====
-- src/mock_server.rs: what the MessagePack server sends back.
use socketeer.Common.{◌≡◌, refl, Bool, false, List, [], ◌∷◌, Result, ok, arith, All, map, String}
use socketeer.Message.{text, binary, Bytes}
use socketeer.Runtime.Sink.{Sink, sends}
use socketeer.MockServer.{
  EchoControlMessage, message, returned, again, msgpack_turn, msgpack_loop, msgpack_echo_server,
  echo_server,
}
use socketeer.MockServer.Echo.{IsWilling, IsMessage, after_sends, echo_server_echoes}

module _ {X : Type 0} (from_slice : Bytes → Result EchoControlMessage X) where
  -- The bytes parse as a message that is to be echoed.
  abbrev pub IsPacked : Bytes → Type 0
  IsPacked b = (body : String) × (from_slice b ≡ ok (message body))

  msgpack_turn_message :
      (b : Bytes) (flag : Bool) (s : Sink X)
      → IsWilling s
      → IsPacked b
      → msgpack_turn from_slice (ok (binary b)) flag s
        ≡ (record s { calls = sends (binary b) ∷ s.calls }, again flag)
  unfolding msgpack_turn
  msgpack_turn_message b flag s w (body, e) = rw (e, w s.calls (sends (binary b)))

  msgpack_loop_packed :
      (bs : List Bytes) (flag : Bool) (s : Sink X)
      → IsWilling s
      → All IsPacked bs
      → msgpack_loop from_slice (map (λ b. ok (binary b)) bs) flag s
        ≡ (record s { calls = after_sends (map binary bs) s.calls }, returned (ok flag))
  unfolding msgpack_loop
  msgpack_loop_packed [] flag s w h = refl
  msgpack_loop_packed (b ∷ bs) flag s w h = ground (
    arith,
    msgpack_turn_message b flag s w h.0,
    msgpack_loop_packed bs flag (record s { calls = sends (binary b) ∷ s.calls }) w h.1,
  )

  msgpack_echo_server_echoes :
      (bs : List Bytes) (s : Sink X)
      → IsWilling s
      → All IsPacked bs
      → msgpack_echo_server from_slice (map (λ b. ok (binary b)) bs) s
        ≡ (record s { calls = after_sends (map binary bs) s.calls }, returned (ok false))
  unfolding msgpack_echo_server
  msgpack_echo_server_echoes bs s w h = msgpack_loop_packed bs false s w h

  -- Against either echo server, a client that sends texts, or binary frames, which parse as
  -- `Message`s, and then ends its stream, gets each of them back unchanged, in order, and nothing
  -- else; the server then returns `false`, and so goes on to accept the next client. (The sink accepts
  -- every call.)
  pub echo_servers_echo :
      (from_str : String → Result EchoControlMessage X) (ts : List String) (bs : List Bytes)
      (s : Sink X)
      → IsWilling s
      → All (IsMessage from_str) ts
      → All IsPacked bs
      → (echo_server from_str (map (λ t. ok (text t)) ts) s
          ≡ (record s { calls = after_sends (map text ts) s.calls }, returned (ok false)))
        × (msgpack_echo_server from_slice (map (λ b. ok (binary b)) bs) s
            ≡ (record s { calls = after_sends (map binary bs) s.calls }, returned (ok false)))
  echo_servers_echo from_str ts bs s w h g =
      (echo_server_echoes from_str ts s w h, msgpack_echo_server_echoes bs s w g)
