-- ===== src/EndToEnd/Probed.antt =====
-- The client under backpressure against the probe server of tests/support/mod.rs.
use socketeer.Common.{
  String, ℕ, ◌≡◌, refl, ap, ◌∙◌, ◌≤◌, ◌<◌, ltb, if◌then◌else◌, true, List, [], ◌∷◌, ◌++◌, map, none,
  some, Result, ok, arith,
}
use socketeer.Message.{Message, text, binary, ping, pong, frame, close}
use socketeer.Runtime.Channel.{Mpsc}
use socketeer.Runtime.Sink.{Sink, sends, written}
use socketeer.SocketLoop.Handlers.{TxChannelPayload, keepalive_frame}
use socketeer.SocketLoop.Task.{Keepalive, Task, sleep}
use socketeer.SocketLoop.Clock.{Tick, timed_run}
use socketeer.SocketLoop.Clock.Parked.{IsParked, timed_run-keepalives, next_keepalive}
use socketeer.MockServer.{EchoControlMessage, message, returned}
use socketeer.MockServer.Echo.{IsWilling}
use socketeer.ProbeServer.{burst, backpressure_probe_server}
use socketeer.ProbeServer.Marker.{has_ping, data_of, messages, probe_server_marks}

has_ping-append :
    (X : Type 0) (ms : List Message) → has_ping {X = X} (map ok (ms ++ ping [] ∷ [])) ≡ true
has_ping-append X [] = refl
has_ping-append X (ping b ∷ ms) = refl
has_ping-append X (pong b ∷ ms) = has_ping-append X ms
has_ping-append X (frame b ∷ ms) = has_ping-append X ms
has_ping-append X (close b ∷ ms) = has_ping-append X ms
has_ping-append X (text b ∷ ms) = has_ping-append X ms
has_ping-append X (binary b ∷ ms) = has_ping-append X ms

-- What the server reads before its timeout, of frames that are there after `d` ms.
abbrev pub in_time : {A : Type 0} → ℕ → List A → List A
in_time d items = if ltb d 500 then items else []

in_time_all : {A : Type 0} (d : ℕ) (items : List A) → d < 500 → in_time d items ≡ items
in_time_all d items h = ground arith

module _ {X Y T R : Type 0} ⦃tx : Mpsc TxChannelPayload T⦄ ⦃rx : Mpsc Message R⦄
    (to_string : EchoControlMessage → Result String Y) (json : String → String)
    (writes : (body : String) → to_string (message body) ≡ ok (json body)) where
  -- A client that is stalled by a full receive channel passes the probe: if it waits with a frame in
  -- hand, for a program that does nothing, with the default keepalive message, then its timer can fire
  -- after `d` ms, for any `d` from the interval on; and if this is before the timeout and what the
  -- client has written is there for the server to read by then, the server sends its burst and the
  -- marker, whatever it reads behind the timeout. (No call on a sink fails, and serde_json writes
  -- every message.)
  pub probe_server_alive :
      (k : Keepalive) (m : Message) (t : Task X T R) (i d : ℕ) (behind : List (Result Message Y))
      (server : Sink Y)
      → k.interval ≡ some i
      → k.message ≡ none
      → i ≤ d
      → d < 500
      → IsParked m t
      → IsWilling t.sink
      → IsWilling server
      → (t' : Task X T R) × (timed_run k t (record { delay = d; arm = sleep } ∷ []) ≡ some t')
        × (let (server', served) =
              backpressure_probe_server to_string
                (in_time d (map ok (written t'.sink.calls)))
                behind
                server in
            (data_of server'
              ≡ data_of server ++ messages to_string json writes (burst ++ "alive" ∷ []))
            × (served ≡ returned (ok true)))
  unfolding timed_run
  probe_server_alive k m t i d behind server e default_message over soon p w w' =
      let tick : Tick X = record { delay = d; arm = sleep } in
      let (t', stepped) = next_keepalive k m t i d e p over in
      let once : timed_run k t (tick ∷ []) ≡ some t' =
        ap (λ o. elim o [ none ↦ none | some u ↦ timed_run k u [] ]) stepped in
      let (_, calls, _, _, _) =
        timed_run-keepalives k m t t' (tick ∷ []) i d e p w (omega arith, tt) once in
      let pinged : has_ping {X = Y} (map ok (written t'.sink.calls)) ≡ true =
        ap (λ l. has_ping {X = Y} (map ok (written l)))
          (calls ∙ ap (λ custom. sends (keepalive_frame custom) ∷ t.sink.calls) default_message)
        ∙ has_ping-append Y (written t.sink.calls) in
      let (marked, served) =
        probe_server_marks to_string json writes (map ok (written t'.sink.calls)) behind server
          w' in
      (
        t',
        once,
        rw (in_time_all d (map ok (written t'.sink.calls)) soon) (rw pinged at marked, served),
      )
