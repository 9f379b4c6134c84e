-- ===== src/Connection/Resuming.antt =====
-- The end of a wait with a frame in hand, seen from the program.
use socketeer.Common.{◌≡◌, refl, ◌∙◌, ℕ, true, List, [], ◌∷◌, ◌++◌, some, arith, ok, ready}
use socketeer.Message.{Message}
use socketeer.Runtime.Channel.{Mpsc}
use socketeer.SocketLoop.Handlers.{TxChannelPayload}
use socketeer.SocketLoop.Task.{Keepalive, selecting, holding, permit, socket_loop_split}
use socketeer.SocketLoop.Task.Frames.{queued, is_received}
use socketeer.Handle.Calls.{recv_raw}
use socketeer.Connection.Kept.{IsBounded}
use socketeer.Connection.{Connection, Event, arm, receive, step, run, on_receive}

module _ {X T R : Type 0} ⦃tx : Mpsc TxChannelPayload T⦄ ⦃rx : Mpsc Message R⦄ where
  receive_next :
      (k : Keepalive) (c : Connection X T R) (f : Message) (q : List Message)
      → queued c.task ≡ f ∷ q
      → step k c receive
        ≡ some (record c {
          task = record c.task { sender = (rx.recv c.sender).0 };
          delivered = c.delivered ++ f ∷ [];
        })
  unfolding step on_receive recv_raw
  receive_next k c f q e = ground (arith, rx.result-recv c.sender)

  permit_next :
      (k : Keepalive) (c : Connection X T R) (m : Message)
      → c.phase ≡ holding m
      → rx.reserve c.sender ≡ ready (ok tt)
      → step k c (arm permit)
        ≡ some (record c {
          task = record c.task { phase = selecting; sender = rx.permit_send c.sender m };
        })
  unfolding step socket_loop_split
  permit_next k c m e r = ground arith

  pub run-step :
      (k : Keepalive) (c c' : Connection X T R) (e : Event X) (es : List (Event X))
      → step k c e ≡ some c'
      → run k c (e ∷ es) ≡ run k c' es
  unfolding run
  run-step k c c' e es h = ground arith

  -- The loop holds a frame `m`, the channel of a consumer that is still there is within its bound, and
  -- a frame `f` waits in it: then a receive of the program gets `f`, the permit is ready right after
  -- it, and the loop is back in its outer `select!`, with `m` at the end of the channel.
  pub run_resumes_reading :
      (k : Keepalive) (c : Connection X T R) (n : ℕ) (m f : Message) (q : List Message)
      → c.phase ≡ holding m
      → queued c.task ≡ f ∷ q
      → is_received c.task ≡ true
      → IsBounded n c.sender
      → (c' : Connection X T R) × (run k c (receive ∷ arm permit ∷ []) ≡ some c')
        × (c'.phase ≡ selecting)
        × (c'.delivered ≡ c.delivered ++ f ∷ [])
        × (queued c'.task ≡ q ++ m ∷ [])
  run_resumes_reading k c n m f q p e h b =
      let r = (rx.recv c.sender).0 in
      let after : Connection X T R = record c {
        task = record c.task { sender = r };
        delivered = c.delivered ++ f ∷ [];
      } in
      let room : rx.reserve r ≡ ready (ok tt) =
        ground (arith, rx.view-recv c.sender, rx.reserve_lem (rx.recv c.sender).0) in
      let last : Connection X T R = record after {
        task = record after.task { phase = selecting; sender = rx.permit_send r m };
      } in
      (
        last,
        run-step k c after receive (arm permit ∷ []) (receive_next k c f q e)
            ∙ run-step k after last (arm permit) [] (permit_next k after m p room)
            ∙ (unfold run in refl),
        refl,
        refl,
        ground (arith, rx.view-recv c.sender, rx.view-permit_send (rx.recv c.sender).0 m),
      )
