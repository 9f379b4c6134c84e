-- ===== src/ProbeServer/Marker.antt =====
-- When the probe server sends its marker.
use socketeer.Common.{
  String, ◌≡◌, refl, sym, ap, ◌∙◌, Bool, true, false, List, [], ◌∷◌, ◌++◌, map, none, Result, ok,
  err, append-nil, append_assoc, arith, if◌then◌else◌,
}
use socketeer.Message.{
  Message, text, binary, ping, pong, frame, close, data_frames, data_frames-append,
}
use socketeer.Runtime.Sink.{Sink, sends, closes, written}
use socketeer.MockServer.{EchoControlMessage, message, Served, returned}
use socketeer.MockServer.Echo.{IsWilling, after_sends}
use socketeer.ProbeServer.{
  burst, wait_for_ping, drain, send_message, send_messages, after_burst, backpressure_probe_server,
}

-- A ping comes before the stream ends or fails.
abbrev pub has_ping : {X : Type 0} → List (Result Message X) → Bool
has_ping [] = false
has_ping (err _ ∷ items) = false
has_ping (ok (ping _) ∷ items) = true
has_ping (ok _ ∷ items) = has_ping items

module _ {X : Type 0} where
  -- The data frames that a sink has been given.
  abbrev pub data_of : Sink X → List Message
  data_of s = data_frames (written s.calls)

  wait_for_ping-has_ping :
      (items : List (Result Message X)) → (wait_for_ping items).0 ≡ has_ping items
  unfolding wait_for_ping
  wait_for_ping-has_ping [] = refl
  wait_for_ping-has_ping (err _ ∷ items) = refl
  wait_for_ping-has_ping (ok (ping _) ∷ items) = refl
  wait_for_ping-has_ping (ok (pong _) ∷ items) = wait_for_ping-has_ping items
  wait_for_ping-has_ping (ok (frame _) ∷ items) = wait_for_ping-has_ping items
  wait_for_ping-has_ping (ok (close _) ∷ items) = wait_for_ping-has_ping items
  wait_for_ping-has_ping (ok (text _) ∷ items) = wait_for_ping-has_ping items
  wait_for_ping-has_ping (ok (binary _) ∷ items) = wait_for_ping-has_ping items

  -- The last loop writes no data.
  abbrev IsDrained : Sink X → Sink X × Served X → Type 0
  IsDrained s out = (data_of out.0 ≡ data_of s) × (out.1 ≡ returned (ok true))

  drain-IsDrained :
      (items : List (Result Message X)) (s : Sink X) → IsWilling s → IsDrained s (drain items s)
  unfolding drain
  drain-IsDrained [] s w = (refl, refl)
  drain-IsDrained (err _ ∷ items) s w = (refl, refl)
  drain-IsDrained (ok (ping _) ∷ items) s w =
      let (same, ended) =
        drain-IsDrained items (record s { calls = sends (pong []) ∷ s.calls }) w in
      rw (w s.calls (sends (pong [])))
        (same ∙ data_frames-append (written s.calls) (pong [] ∷ []) ∙ append-nil _, ended)
  drain-IsDrained (ok (close _) ∷ items) s w = rw (w s.calls closes) (refl, refl)
  drain-IsDrained (ok (pong _) ∷ items) s w = drain-IsDrained items s w
  drain-IsDrained (ok (frame _) ∷ items) s w = drain-IsDrained items s w
  drain-IsDrained (ok (text _) ∷ items) s w = drain-IsDrained items s w
  drain-IsDrained (ok (binary _) ∷ items) s w = drain-IsDrained items s w

  module _ (to_string : EchoControlMessage → Result String X) (json : String → String)
      (writes : (body : String) → to_string (message body) ≡ ok (json body)) where
    abbrev pub messages : List String → List Message
    messages bodies = map (λ body. text (json body)) bodies

    abbrev marker : Bool → List String
    marker marked = if marked then "alive" ∷ [] else []

    abbrev IsMarked : Bool → Sink X → Sink X × Served X → Type 0
    IsMarked marked s out =
        (data_of out.0 ≡ data_of s ++ messages (marker marked)) × (out.1 ≡ returned (ok true))

    after : List String → Sink X → Sink X
    after bodies s = record s { calls = after_sends (messages bodies) s.calls }

    send_message_ok :
        (body : String) (s : Sink X)
        → IsWilling s
        → send_message to_string body s ≡ (after (body ∷ []) s, none)
    unfolding send_message after
    send_message_ok body s w = ground (arith, writes body, w s.calls (sends (text (json body))))

    send_messages_ok :
        (bodies : List String) (s : Sink X)
        → IsWilling s
        → send_messages to_string bodies s ≡ (after bodies s, none)
    unfolding send_messages after
    send_messages_ok [] s w = refl
    send_messages_ok (body ∷ bodies) s w =
        ground (arith, send_message_ok body s w, send_messages_ok bodies (after (body ∷ []) s) w)

    data_of-after :
        (bodies : List String) (s : Sink X)
        → data_of (after bodies s) ≡ data_of s ++ messages bodies
    unfolding after
    data_of-after [] s = sym (append-nil _)
    data_of-after (body ∷ bodies) s =
        data_of-after bodies (after (body ∷ []) s)
        ∙ ap (λ f. f ++ messages bodies)
            (data_frames-append (written s.calls) (text (json body) ∷ []))
        ∙ append_assoc (data_of s) (text (json body) ∷ []) (messages bodies)

    after_burst_marked :
        (items : List (Result Message X)) (s : Sink X)
        → IsWilling s
        → after_burst to_string true items s ≡ drain items (after ("alive" ∷ []) s)
    unfolding after_burst
    after_burst_marked items s w = ground (arith, send_message_ok "alive" s w)

    goes_on :
        (early late : List (Result Message X)) (s : Sink X)
        → IsWilling s
        → backpressure_probe_server to_string early late s
          ≡ after_burst to_string
              (wait_for_ping early).0
              ((wait_for_ping early).1 ++ late)
              (after burst s)
    unfolding backpressure_probe_server
    goes_on early late s w = ground (arith, send_messages_ok burst s w)

    after_burst-IsMarked :
        (marked : Bool) (items : List (Result Message X)) (s : Sink X)
        → IsWilling s
        → IsMarked marked s (after_burst to_string marked items s)
    unfolding after_burst
    after_burst-IsMarked true items s w =
        let (same, ended) = drain-IsDrained items (after ("alive" ∷ []) s) (unfold after in w) in
        rw (after_burst_marked items s w) (same ∙ data_of-after ("alive" ∷ []) s, ended)
    after_burst-IsMarked false items s w =
        let (same, ended) = drain-IsDrained items s w in (same ∙ sym (append-nil _), ended)

    -- If serde_json writes every message, and no call on the sink fails: the server sends the five
    -- frames of the burst, then the marker if and only if a ping comes before the timeout, the end of
    -- the stream and its first error, and no other data frame, whatever the client sends later; it
    -- returns `Ok(true)`.
    pub probe_server_marks :
        (early late : List (Result Message X)) (s : Sink X)
        → IsWilling s
        → let (s', served) = backpressure_probe_server to_string early late s in
          (data_of s'
            ≡ data_of s ++ messages (burst ++ (if has_ping early then "alive" ∷ [] else [])))
          × (served ≡ returned (ok true))
    unfolding backpressure_probe_server
    probe_server_marks early late s w =
        let (marked, ended) =
          after_burst-IsMarked (wait_for_ping early).0 ((wait_for_ping early).1 ++ late)
            (after burst s) (unfold after in w) in
        rw (goes_on early late s w, ← wait_for_ping-has_ping early)
          (
            marked
                ∙ ap (λ f. f ++ messages (marker (wait_for_ping early).0)) (data_of-after burst s)
                ∙ append_assoc (data_of s) (messages burst)
                    (messages (marker (wait_for_ping early).0)),
            ended,
          )
