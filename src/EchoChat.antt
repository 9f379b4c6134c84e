-- ===== src/EchoChat.antt =====
-- examples/echo_chat.rs: the program of the example. Each time it awaits, the task of its connection
-- takes some arms, which are the environment's choice. The subscriber for tracing is not modelled.
pub mod Stages
pub mod Finishing
use package.text.Mathlib.Text.{◌==◌ as str_eq}
use socketeer.Common.{
  ℕ, String, Bool, false, List, [], map, Option, none, some, Result, ok, err, Poll, ready, pending,
  if◌then◌else◌, ◌>>=◌, ◌>>◌,
}
use socketeer.Message.{Message, Error}
use socketeer.Runtime.Channel.{ChannelSize, Mpsc}
use socketeer.SocketLoop.Handlers.{TxChannelPayload, Sent}
use socketeer.SocketLoop.Task.{Keepalive, Arm}
use socketeer.SocketLoop.Task.Frames.{is_ended}
use socketeer.Handle.Calls.{Call, TerminalError, awaits, returned, panicked, send_close}
use socketeer.Codec.{Codec, Json, json_codec}
use socketeer.Config.{HeaderMap, ClientRequest}
use socketeer.Connection.{Connection, arm, run}
use socketeer.Connection.Waiting.{resume}
use socketeer.Connection.Closing.{unfinished, crashed, finished, close_connection}
use socketeer.Socketeer.{Net, connect}
use socketeer.Socketeer.Typed.{send, next_message}
use socketeer.MockServer.{EchoControlMessage, message}

-- Why the program does not get on: it still awaits, an `unwrap` or an assertion fails, or the task
-- cannot take these arms.
pub data Stop : Type 0 where
  waits panics not_enabled : Stop

module _ {A E : Type 0} where
  abbrev unwrap : Result A E → Result A Stop
  unwrap (ok a) = ok a
  unwrap (err _) = err panics

abbrev await : {A : Type 0} → Poll A → Result A Stop
await (ready a) = ok a
await pending = err waits

-- `Message("Hello, world!".to_string())`
abbrev pub hello : EchoControlMessage
hello = message "Hello, world!"

-- `assert_eq!`
abbrev pub is_hello : EchoControlMessage → Bool
is_hello (message t) = str_eq t "Hello, world!"
is_hello _ = false

settle : {X : Type 0} → Call X → Result (Sent X) Stop
settle (returned r) = ok r
settle panicked = err panics
settle (awaits id) = err waits

module _ {X T R : Type 0} ⦃tx : Mpsc TxChannelPayload T⦄ ⦃rx : Mpsc Message R⦄ where
  -- What the task does while the program awaits.
  pub meanwhile : Keepalive → List (Arm X) → Connection X T R → Result (Connection X T R) Stop
  meanwhile k arms c = elim (run k c (map arm arms)) [ none ↦ err not_enabled | some c' ↦ ok c' ]

  -- The await of a confirmed send, or of a close.
  pub await_call :
      Keepalive
      → List (Arm X)
      → Poll (Call X)
      → Connection X T R
      → Result (Connection X T R × Sent X) Stop
  unfolding meanwhile settle
  await_call k arms pending c = err waits
  await_call k arms (ready (returned r)) c = ok (c, r)
  await_call k arms (ready panicked) c = err panics
  await_call k arms (ready (awaits id)) c = do
    c' ← meanwhile k arms c
    call ← await (resume id c')
    sent ← settle call
    ok (c', sent)

  -- `socketeer.close_connection().await.unwrap()`: the task takes all arms while the answer is awaited.
  pub say_goodbye : Keepalive → List (Arm X) → Connection X T R → Result (Unit {0}) Stop
  say_goodbye k arms c = elim (close_connection k 1 arms [] c).1 [
    | finished closed ↦ unwrap closed
    | crashed ↦ err panics
    | unfinished ↦ err waits
  ]

  module _ (codec : Codec X EchoControlMessage EchoControlMessage) (k : Keepalive) where
    -- `socketeer.send(..).await.unwrap()`
    pub say_hello : List (Arm X) → Connection X T R → Result (Connection X T R) Stop
    unfolding await_call
    say_hello arms c =
        let (receiver', slot', polled) = send codec c.receiver c.terminal_error hello 0 in
        await_call k arms polled
          (record c { task = record c.task { receiver = receiver'; terminal_error = slot' } })
        >>= λ (c', sent). unwrap sent >> ok c'

    -- `socketeer.next_message().await.unwrap()`, and the assertion.
    pub hear_hello : List (Arm X) → Connection X T R → Result (Connection X T R) Stop
    unfolding meanwhile
    hear_hello arms c = meanwhile k arms c >>= λ c'.
        let (sender', slot', polled) = next_message codec c'.sender c'.terminal_error in
        await polled >>= λ answer. unwrap answer >>= λ response.
        if is_hello response
        then ok (record c' { task = record c'.task { sender = sender'; terminal_error = slot' } })
        else err panics

    pub chat :
        List (Arm X) → List (Arm X) → List (Arm X) → Connection X T R → Result (Unit {0}) Stop
    unfolding say_hello hear_hello say_goodbye
    chat sending hearing closing c =
        say_hello sending c >>= λ c'. hear_hello hearing c' >>= say_goodbye k closing

module _ {X U H K V Q : Type 0} (T R : Type 0) ⦃tx : Mpsc TxChannelPayload T⦄ ⦃rx : Mpsc Message R⦄
    (header_map : HeaderMap K V H) (request_of : ClientRequest X H Q) (net : Net X U Q)
    (channel_size : ChannelSize) (json : Json X EchoControlMessage EchoControlMessage) where
  -- `url` is the text of the server's address.
  unfoldable pub main : String → List (Arm X) → List (Arm X) → List (Arm X) → Result (Unit {0}) Stop
  unfolding chat
  main url sending hearing closing =
      unwrap
        (connect {T = T} {R = R} header_map request_of net channel_size 0 url (json_codec json))
      >>= λ r. chat (json_codec json) r.keepalive sending hearing closing r.connection
