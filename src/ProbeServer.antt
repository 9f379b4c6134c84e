-- ===== src/ProbeServer.antt =====
-- tests/support/mod.rs: the server of the backpressure tests, as a function of the frames that the
-- client sends: `early` are those that arrive before the timeout of the wait for a ping, `late` those
-- behind it. serde_json is a parameter.
pub mod Marker
use socketeer.Common.{
  String, Bool, true, false, List, [], ◌∷◌, ◌++◌, Option, none, some, Result, ok, err,
  if◌then◌else◌,
}
use socketeer.Message.{Message, text, ping, pong, close}
use socketeer.Runtime.Sink.{Sink, sink_send, sink_close}
use socketeer.MockServer.{EchoControlMessage, message, Served, returned, panicked}

-- `format!("burst-{i}")` for the numbers below 5.
abbrev pub burst : List String
burst = "burst-0" ∷ "burst-1" ∷ "burst-2" ∷ "burst-3" ∷ "burst-4" ∷ []

module _ {X : Type 0} where
  -- The wait for a ping: what it finds, and what it leaves in the stream.
  pub wait_for_ping : List (Result Message X) → Bool × List (Result Message X)
  wait_for_ping [] = (false, [])
  wait_for_ping (err _ ∷ items) = (false, items)
  wait_for_ping (ok (ping _) ∷ items) = (true, items)
  wait_for_ping (ok _ ∷ items) = wait_for_ping items

  -- The last loop.
  pub drain : List (Result Message X) → Sink X → Sink X × Served X
  drain [] s = (s, returned (ok true))
  drain (err _ ∷ items) s = (s, returned (ok true))
  drain (ok (ping _) ∷ items) s =
      let (s', sent) = sink_send s (pong []) in
      elim sent [ ok _ ↦ drain items s' | err e ↦ (s', returned (err e)) ]
  drain (ok (close _) ∷ items) s =
      let (s', done) = sink_close s in
      elim done [ ok _ ↦ (s', returned (ok true)) | err e ↦ (s', returned (err e)) ]
  drain (ok _ ∷ items) s = drain items s

  module _ (to_string : EchoControlMessage → Result String X) where
    -- One message; `some` is an early end of the server.
    pub send_message : String → Sink X → Sink X × Option (Served X)
    send_message body s = elim (to_string (message body)) [
      | err _ ↦ (s, some panicked)
      | ok t ↦
          let (s', sent) = sink_send s (text t) in
          elim sent [ ok _ ↦ (s', none) | err e ↦ (s', some (returned (err e))) ]
    ]

    pub send_messages : List String → Sink X → Sink X × Option (Served X)
    unfolding send_message
    send_messages [] s = (s, none)
    send_messages (body ∷ bodies) s =
        let (s', stopped) = send_message body s in
        elim stopped [ none ↦ send_messages bodies s' | some r ↦ (s', some r) ]

    -- The marker, and the last loop.
    pub after_burst : Bool → List (Result Message X) → Sink X → Sink X × Served X
    unfolding send_message drain
    after_burst got_ping items s =
        let (s', stopped) = if got_ping then send_message "alive" s else (s, none) in
        elim stopped [ some r ↦ (s', r) | none ↦ drain items s' ]

    unfoldable pub backpressure_probe_server :
        List (Result Message X) → List (Result Message X) → Sink X → Sink X × Served X
    unfolding send_messages wait_for_ping after_burst
    backpressure_probe_server early late s =
        let (s', stopped) = send_messages burst s in
        elim stopped [
          | some r ↦ (s', r)
          | none ↦
              let (got_ping, items) = wait_for_ping early in after_burst got_ping (items ++ late) s'
        ]
