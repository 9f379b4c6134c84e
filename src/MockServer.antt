-- ===== src/MockServer.antt =====
-- src/mock_server.rs: the servers of the tests, as functions of the frames that the client sends before
-- its stream ends. serde_json and rmp-serde are parameters. A panic is a result of its own.
pub mod Echo
pub mod Benign
pub mod Auth
pub mod Packed
use package.text.Mathlib.Text.{◌==◌ as str_eq}
use socketeer.Common.{
  String, Bool, true, false, ◌&&◌, List, [], ◌∷◌, some, Result, ok, err, if◌then◌else◌,
}
use socketeer.Message.{Message, text, binary, ping, pong, close as close_frame, Bytes, normal}
use socketeer.Runtime.Sink.{Sink, sink_send, sink_close}

pub data EchoControlMessage : Type 0 where
  message : String → EchoControlMessage
  send_ping close abort : EchoControlMessage

pub data Served (X : Type 0) : Type 0 where
  returned : Result Bool X → Served X
  panicked : Served X

-- What one turn of the loop comes to: another turn, with the flag `shutting_down`, or the end.
pub data Turn (X : Type 0) : Type 0 where
  again : Bool → Turn X
  stop : Served X → Turn X

abbrev pub closing_frame : Message
closing_frame = close_frame (some (record { code = normal; reason = "" }))

module _ {X : Type 0} where
  -- `sink.send(frame).await?`, and on with the loop.
  abbrev send_or_return : Sink X → Message → Bool → Sink X × Turn X
  send_or_return s m flag =
      let (s', sent) = sink_send s m in
      elim sent [ ok _ ↦ (s', again flag) | err e ↦ (s', stop (returned (err e))) ]

  -- The same with `unwrap`.
  abbrev send_or_panic : Sink X → Message → Bool → Sink X × Turn X
  send_or_panic s m flag =
      let (s', sent) = sink_send s m in
      elim sent [ ok _ ↦ (s', again flag) | err _ ↦ (s', stop panicked) ]

  -- `frame` is the frame that carried the control message.
  on_control : EchoControlMessage → Message → Bool → Sink X → Sink X × Turn X
  on_control (message _) m flag s = send_or_return s m flag
  on_control send_ping m flag s = send_or_return s (ping []) flag
  on_control close m flag s = send_or_return s closing_frame true
  on_control abort m flag s = (s, stop (returned (ok true)))

  on_payload : Result EchoControlMessage X → Message → Bool → Sink X → Sink X × Turn X
  unfolding on_control
  on_payload (ok c) m flag s = on_control c m flag s
  on_payload (err _) m flag s = (s, stop panicked)

  on_close : Bool → Sink X → Sink X × Turn X
  on_close true s = (s, stop (returned (ok true)))
  on_close false s =
      let (s', done) = sink_close s in
      elim done [ ok _ ↦ (s', stop (returned (ok false))) | err _ ↦ (s', stop panicked) ]

  module _ (from_str : String → Result EchoControlMessage X) where
    pub echo_turn : Result Message X → Bool → Sink X → Sink X × Turn X
    unfolding on_payload on_close
    echo_turn (ok (text t)) flag s = on_payload (from_str t) (text t) flag s
    echo_turn (ok (ping _)) flag s = send_or_panic s (pong []) flag
    echo_turn (ok (close_frame _)) flag s = on_close flag s
    echo_turn _ flag s = (s, again flag)

    pub echo_loop : List (Result Message X) → Bool → Sink X → Sink X × Served X
    unfolding echo_turn
    echo_loop [] flag s = (s, returned (ok flag))
    echo_loop (item ∷ items) flag s =
        let (s', turn) = echo_turn item flag s in
        elim turn [ again flag' ↦ echo_loop items flag' s' | stop r ↦ (s', r) ]

    unfoldable pub echo_server : List (Result Message X) → Sink X → Sink X × Served X
    unfolding echo_loop
    echo_server items s = echo_loop items false s

  module _ (from_slice : Bytes → Result EchoControlMessage X) where
    msgpack_turn : Result Message X → Bool → Sink X → Sink X × Turn X
    unfolding on_payload on_close
    msgpack_turn (ok (binary b)) flag s = on_payload (from_slice b) (binary b) flag s
    msgpack_turn (ok (ping _)) flag s = send_or_panic s (pong []) flag
    msgpack_turn (ok (close_frame _)) flag s = on_close flag s
    msgpack_turn _ flag s = (s, again flag)

    msgpack_loop : List (Result Message X) → Bool → Sink X → Sink X × Served X
    unfolding msgpack_turn
    msgpack_loop [] flag s = (s, returned (ok flag))
    msgpack_loop (item ∷ items) flag s =
        let (s', turn) = msgpack_turn item flag s in
        elim turn [ again flag' ↦ msgpack_loop items flag' s' | stop r ↦ (s', r) ]

    unfoldable pub msgpack_echo_server : List (Result Message X) → Sink X → Sink X × Served X
    unfolding msgpack_loop
    msgpack_echo_server items s = msgpack_loop items false s

pub record AuthMsg : Type 0 where
  pub action : String
  pub token : String

abbrev pub authenticated : Message
authenticated = text "{\"status\":\"authenticated\"}"

abbrev pub refused : Message
refused = text "{\"status\":\"error\"}"

abbrev pub is_valid : AuthMsg → Bool
is_valid a = str_eq a.action "auth" && str_eq a.token "test-token"

-- `auth_from_str` and `from_str` are `serde_json::from_str` at the two types.
module _ {X : Type 0} (auth_from_str : String → Result AuthMsg X)
    (from_str : String → Result EchoControlMessage X) where
  after_auth : List (Result Message X) → Message → Sink X → Sink X × Served X
  unfolding echo_server
  after_auth items answer s =
      let (s', sent) = sink_send s answer in
      elim sent [ ok _ ↦ echo_server from_str items s' | err e ↦ (s', returned (err e)) ]

  turn_away : Sink X → Sink X × Served X
  turn_away s =
      let (s', sent) = sink_send s refused in
      elim sent [ ok _ ↦ (s', returned (ok true)) | err e ↦ (s', returned (err e)) ]

  unfoldable pub auth_echo_server : List (Result Message X) → Sink X → Sink X × Served X
  unfolding echo_server after_auth turn_away
  auth_echo_server [] s = echo_server from_str [] s
  auth_echo_server (ok (text t) ∷ items) s = elim (auth_from_str t) [
    | ok auth ↦ if is_valid auth then after_auth items authenticated s else turn_away s
    | err _ ↦ echo_server from_str items s
  ]
  auth_echo_server (_ ∷ items) s = echo_server from_str items s

-- `get_mock_address`: the connections that the listener accepts are served in turn, until a handler
-- returns `true`. The rest of the list is not accepted; a failure ends the server by a panic.
unfoldable pub accept_loop : {X C : Type 0} → (C → Served X) → List C → List C × Served X
accept_loop handler [] = ([], returned (ok false))
accept_loop handler (c ∷ cs) = elim (handler c) [
  | returned (ok true) ↦ (cs, returned (ok true))
  | returned (ok false) ↦ accept_loop handler cs
  | returned (err e) ↦ (cs, panicked)
  | panicked ↦ (cs, panicked)
]
