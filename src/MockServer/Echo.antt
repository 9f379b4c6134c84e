-- ===== src/MockServer/Echo.antt =====
-- What the echo servers send back, and when they stop.
use mathlib.Core.Path.{subst}
use socketeer.Common.{
  String, ◌≡◌, ◌⊎◌, inl, inr, refl, Bool, true, false, List, [], ◌∷◌, Result, ok, arith, All, any,
  ◌||◌, map,
}
use socketeer.Message.{Message, text}
use socketeer.Runtime.Sink.{Sink, SinkCall, sends}
use socketeer.MockServer.{
  EchoControlMessage, message, close, abort, Served, returned, Turn, again, stop, echo_turn,
  echo_loop, echo_server,
}

-- Every call on the sink succeeds.
abbrev pub IsWilling : {X : Type 0} → Sink X → Type 0
IsWilling s = (calls : List SinkCall) (c : SinkCall) → s.answer calls c ≡ ok tt

-- The log of the sink once the frames have been sent, newest first.
abbrev pub after_sends : List Message → List SinkCall → List SinkCall
after_sends [] calls = calls
after_sends (m ∷ ms) calls = after_sends ms (sends m ∷ calls)

Turn-cases :
    {X : Type 0} (t : Turn X) → ((flag : Bool) × (t ≡ again flag)) ⊎ ((r : Served X) × (t ≡ stop r))
Turn-cases (again flag) = inl (flag, refl)
Turn-cases (stop r) = inr (r, refl)

module _ {X : Type 0} (from_str : String → Result EchoControlMessage X) where
  abbrev pub IsMessage : String → Type 0
  IsMessage t = (body : String) × (from_str t ≡ ok (message body))

  pub echo_turn_message :
      (t : String) (flag : Bool) (s : Sink X)
      → IsWilling s
      → IsMessage t
      → echo_turn from_str (ok (text t)) flag s
        ≡ (record s { calls = sends (text t) ∷ s.calls }, again flag)
  unfolding echo_turn
  echo_turn_message t flag s w (body, e) = rw (e, w s.calls (sends (text t)))

  echo_loop-texts :
      (ts : List String) (flag : Bool) (s : Sink X)
      → IsWilling s
      → All IsMessage ts
      → echo_loop from_str (map (λ t. ok (text t)) ts) flag s
        ≡ (record s { calls = after_sends (map text ts) s.calls }, returned (ok flag))
  unfolding echo_loop
  echo_loop-texts [] flag s w h = refl
  echo_loop-texts (t ∷ ts) flag s w h = ground (
    arith,
    echo_turn_message t flag s w h.0,
    echo_loop-texts ts flag (record s { calls = sends (text t) ∷ s.calls }) w h.1,
  )

  -- A client that sends texts which parse as `Message`s, and then ends its stream, gets each of them
  -- back unchanged, in order, and nothing else; the server then returns `false`, and so goes on to
  -- accept the next client. (The sink accepts every call.)
  pub echo_server_echoes :
      (ts : List String) (s : Sink X)
      → IsWilling s
      → All IsMessage ts
      → echo_server from_str (map (λ t. ok (text t)) ts) s
        ≡ (record s { calls = after_sends (map text ts) s.calls }, returned (ok false))
  unfolding echo_server
  echo_server_echoes ts s w h = echo_loop-texts ts false s w h

  -- A text that asks the server to close or to abort.
  abbrev pub asks_to_stop : Result Message X → Bool
  asks_to_stop (ok (text t)) = elim (from_str t) [ ok close ↦ true | ok abort ↦ true | _ ↦ false ]
  asks_to_stop _ = false

  -- A turn that raises the flag, or stops with `true`, was asked to, or had the flag raised before.
  abbrev Asked : Turn X → Bool → Type 0
  Asked (again flag) asked = flag ≡ true → asked ≡ true
  Asked (stop r) asked = r ≡ returned (ok true) → asked ≡ true

  echo_turn-Asked :
      (i : Result Message X) (flag : Bool) (s : Sink X)
      → Asked (echo_turn from_str i flag s).1 (flag || asks_to_stop i)
  unfolding echo_turn
  echo_turn-Asked i flag s = ground arith

  echo_loop-Asked :
      (items : List (Result Message X)) (flag : Bool) (s : Sink X)
      → (echo_loop from_str items flag s).1 ≡ returned (ok true)
      → (flag || any asks_to_stop items) ≡ true
  unfolding echo_loop
  echo_loop-Asked [] flag s h = ground arith
  echo_loop-Asked (i ∷ items) flag s h = elim (Turn-cases (echo_turn from_str i flag s).1) [
    | inl (flag', e) ↦
        let asked : flag' ≡ true → (flag || asks_to_stop i) ≡ true =
          subst (λ t. Asked t (flag || asks_to_stop i)) e (echo_turn-Asked i flag s) in
        ground (arith, asked, echo_loop-Asked items flag' (echo_turn from_str i flag s).0)
    | inr (r, e) ↦
        let asked : r ≡ returned (ok true) → (flag || asks_to_stop i) ≡ true =
          subst (λ t. Asked t (flag || asks_to_stop i)) e (echo_turn-Asked i flag s) in
        ground (arith, asked)
  ]

  -- The server returns `true`, which makes the listener exit, only if some text asked it to close or to
  -- abort.
  echo_server_stops_when_asked :
      (items : List (Result Message X)) (s : Sink X)
      → (echo_server from_str items s).1 ≡ returned (ok true)
      → any asks_to_stop items ≡ true
  unfolding echo_server
  echo_server_stops_when_asked items s h = echo_loop-Asked items false s h
