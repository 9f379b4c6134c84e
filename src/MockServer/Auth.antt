-- ===== src/MockServer/Auth.antt =====
-- src/mock_server.rs: what the authenticating server asks of its client, and when the listener exits.
use socketeer.Common.{
  String, ◌≡◌, Bool, true, false, List, [], ◌∷◌, ◌++◌, Result, ok, arith, All, map, if◌then◌else◌,
  not, is_err,
}
use socketeer.Message.{Message, text}
use socketeer.Runtime.Sink.{Sink, sends}
use socketeer.MockServer.{
  EchoControlMessage, Served, returned, AuthMsg, is_valid, authenticated, refused, auth_echo_server,
  accept_loop,
}
use socketeer.MockServer.Echo.{IsWilling, IsMessage, after_sends, echo_server_echoes}

module _ {X : Type 0} (auth_from_str : String → Result AuthMsg X)
    (from_str : String → Result EchoControlMessage X) where
  -- A client that starts with a text that parses as valid credentials, and then sends messages, gets
  -- the confirmation, and then each message back, in order. With credentials that are not valid it
  -- gets the refusal alone, whatever it sends behind them, and the listener is told to exit. (The sink
  -- accepts every call.)
  auth_echo_server_admits :
      (t : String) (auth : AuthMsg) (ts : List String) (s : Sink X)
      → IsWilling s
      → auth_from_str t ≡ ok auth
      → All (IsMessage from_str) ts
      → auth_echo_server auth_from_str from_str (ok (text t) ∷ map (λ b. ok (text b)) ts) s ≡ (
          if is_valid auth
          then (
            record s { calls = after_sends (authenticated ∷ map text ts) s.calls },
            returned (ok false),
          )
          else (record s { calls = sends refused ∷ s.calls }, returned (ok true)))
  unfolding auth_echo_server
  auth_echo_server_admits t auth ts s w a h =
      let echoed =
        echo_server_echoes from_str ts (record s { calls = sends authenticated ∷ s.calls }) w h in
      let one = w s.calls (sends authenticated) in
      let two = w s.calls (sends refused) in ground (arith, a, one, two, echoed)

  -- The first thing that the client sends is a text that parses as credentials.
  abbrev pub has_credentials : Result Message X → Bool
  has_credentials (ok (text t)) = not (is_err (auth_from_str t))
  has_credentials _ = false

  -- A client whose first frame is not a text with credentials is served all the same: that frame is
  -- passed over, and every message behind it comes back, although the client has not authenticated.
  -- (The sink accepts every call.)
  pub auth_echo_server_unchecked :
      (i : Result Message X) (ts : List String) (s : Sink X)
      → IsWilling s
      → has_credentials i ≡ false
      → All (IsMessage from_str) ts
      → auth_echo_server auth_from_str from_str (i ∷ map (λ b. ok (text b)) ts) s
        ≡ (record s { calls = after_sends (map text ts) s.calls }, returned (ok false))
  unfolding auth_echo_server
  auth_echo_server_unchecked i ts s w c h = ground (arith, echo_server_echoes from_str ts s w h)

-- The listener serves the connections in the order in which it accepts them, goes on as long as the
-- handler returns `false`, and exits with the first that returns `true`: those behind it are not
-- served.
accept_loop_exits :
    {X C : Type 0} (handler : C → Served X) (before after : List C) (last : C)
    → All (λ c. handler c ≡ returned (ok false)) before
    → handler last ≡ returned (ok true)
    → accept_loop handler (before ++ last ∷ after) ≡ (after, returned (ok true))
unfolding accept_loop
accept_loop_exits handler [] after last h e = ground arith
accept_loop_exits handler (c ∷ before) after last h e =
    ground (arith, h.0, accept_loop_exits handler before after last h.1 e)
