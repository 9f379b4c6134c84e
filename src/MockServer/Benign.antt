-- ===== src/MockServer/Benign.antt =====
-- src/mock_server.rs: what the echo server writes for a client that sends messages and control frames
-- other than close frames.
use socketeer.Common.{
  String, ◌≡◌, refl, sym, ap, ◌∙◌, Bool, false, List, [], ◌∷◌, ◌++◌, Result, ok, arith, All, map,
  append-nil, append_assoc,
}
use socketeer.Message.{
  Message, text, binary, ping, pong, frame, close as close_frame, data_frames, data_frames-append,
}
use socketeer.Runtime.Sink.{Sink, sends, written}
use socketeer.MockServer.{EchoControlMessage, again, echo_turn, echo_loop, echo_server}
use socketeer.MockServer.Echo.{IsWilling, IsMessage, echo_turn_message}

module _ {X : Type 0} (from_str : String → Result EchoControlMessage X) where
  -- A text that parses as a `Message`, or a control frame that does not close.
  abbrev pub IsBenign : Message → Type 0
  IsBenign (text t) = IsMessage from_str t
  IsBenign (binary b) = ⊥
  IsBenign (close_frame c) = ⊥
  IsBenign m = Unit

  abbrev Echoes : Message → Bool → Sink X → Type 0
  Echoes m flag s =
      (s' : Sink X) × (echo_turn from_str (ok m) flag s ≡ (s', again flag))
      × IsWilling s'
      × (data_frames (written s'.calls) ≡ data_frames (written s.calls) ++ data_frames (m ∷ []))

  echo_turn-Echoes :
      (m : Message) (flag : Bool) (s : Sink X) → IsWilling s → IsBenign m → Echoes m flag s
  unfolding echo_turn
  echo_turn-Echoes (text t) flag s w h = (
    record s { calls = sends (text t) ∷ s.calls },
    echo_turn_message from_str t flag s w h,
    w,
    data_frames-append (written s.calls) (text t ∷ []),
  )
  echo_turn-Echoes (ping b) flag s w h = (
    record s { calls = sends (pong []) ∷ s.calls },
    rw (w s.calls (sends (pong []))) refl,
    w,
    data_frames-append (written s.calls) (pong [] ∷ []),
  )
  echo_turn-Echoes (pong b) flag s w h = (s, refl, w, sym (append-nil _))
  echo_turn-Echoes (frame b) flag s w h = (s, refl, w, sym (append-nil _))
  echo_turn-Echoes (binary b) flag s w h = absurd h
  echo_turn-Echoes (close_frame c) flag s w h = absurd h

  echo_loop-again :
      (i : Result Message X) (items : List (Result Message X)) (flag flag' : Bool) (s s' : Sink X)
      → echo_turn from_str i flag s ≡ (s', again flag')
      → echo_loop from_str (i ∷ items) flag s ≡ echo_loop from_str items flag' s'
  unfolding echo_loop
  echo_loop-again i items flag flag' s s' e = ground arith

  echo_loop_benign :
      (ms : List Message) (flag : Bool) (s : Sink X)
      → IsWilling s
      → All IsBenign ms
      → data_frames (written (echo_loop from_str (map ok ms) flag s).0.calls)
        ≡ data_frames (written s.calls) ++ data_frames ms
  unfolding echo_loop
  echo_loop_benign [] flag s w h = sym (append-nil _)
  echo_loop_benign (m ∷ ms) flag s w h =
      let (s', turn, w', echoed) = echo_turn-Echoes m flag s w h.0 in
      rw (echo_loop-again (ok m) (map ok ms) flag flag s s' turn) (
        echo_loop_benign ms flag s' w' h.1
        ∙ ap (λ f. f ++ data_frames ms) echoed
        ∙ append_assoc (data_frames (written s.calls)) (data_frames (m ∷ [])) (data_frames ms)
        ∙ ap (λ f. data_frames (written s.calls) ++ f) (sym (data_frames-append (m ∷ []) ms)))

  -- The data frames that the server writes are those that it has read, in order.
  pub echo_server_benign :
      (ms : List Message) (s : Sink X)
      → IsWilling s
      → All IsBenign ms
      → data_frames (written (echo_server from_str (map ok ms) s).0.calls)
        ≡ data_frames (written s.calls) ++ data_frames ms
  unfolding echo_server
  echo_server_benign ms s w h = echo_loop_benign ms false s w h
