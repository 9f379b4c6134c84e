-- ===== src/EndToEnd/Echoed.antt =====
-- The client against the echo server of src/mock_server.rs.
use socketeer.Common.{
  String, ◌≡◌, sym, ap, ◌∙◌, true, false, List, [], ◌++◌, some, Result, ok, All, map,
}
use socketeer.Message.{Message, is_data, data_frames}
use socketeer.Runtime.Channel.{ChannelSize, Mpsc}
use socketeer.Runtime.Sink.{Sink, written}
use socketeer.SocketLoop.Handlers.{TxChannelPayload, Outputs, keepalive_frame}
use socketeer.SocketLoop.Task.{Keepalive}
use socketeer.SocketLoop.Task.Frames.{in_hand, queued, is_ended, is_received}
use socketeer.Connection.{Connection, Event, start, run}
use socketeer.Connection.Ledger.{reads}
use socketeer.MockServer.{EchoControlMessage, echo_server}
use socketeer.MockServer.Echo.{IsWilling}
use socketeer.MockServer.Benign.{IsBenign, echo_server_benign}
use socketeer.EndToEnd.Returning.{run_returns}
use socketeer.EndToEnd.Traffic.{requested, waiting_frames}

module _ {X Y T R : Type 0} ⦃tx : Mpsc TxChannelPayload T⦄ ⦃rx : Mpsc Message R⦄ where
  -- The client and the echo server, with wires that deliver a part of what is written, in order: the
  -- server has read `heard`, and `up` is still on its way to it; `down` is on its way back. Over any
  -- run of the client from a new connection, while its loop has not ended and the program still
  -- receives, with texts that parse as `Message`s and control frames other than close frames (and a
  -- keepalive of that kind): the data frames that the program asked to send are, in order, those that
  -- it has received back, those in the receive channel, the one in the loop's hand, those on the way
  -- back, those on the way to the server, and those that wait to be written. None is lost, doubled or
  -- overtaken on the whole way round.
  pub run_echoes :
      (from_str : String → Result EchoControlMessage Y) (k : Keepalive) (n : ChannelSize)
      (o : Outputs X) (es : List (Event X)) (c : Connection X T R) (server : Sink Y)
      (heard up down : List Message)
      → run k (start n o) es ≡ some c
      → is_ended c.phase ≡ false
      → is_received c.task ≡ true
      → is_data (keepalive_frame k.message) ≡ false
      → o.sink.calls ≡ []
      → server.calls ≡ []
      → IsWilling server
      → All (IsBenign from_str) heard
      → written c.sink.calls ≡ heard ++ up
      → data_frames (written (echo_server from_str (map ok heard) server).0.calls)
        ≡ reads es ++ down
      → data_frames (requested es)
        ≡ c.delivered
          ++ (queued c.task
              ++ (in_hand c.phase
                  ++ (down
                      ++ (data_frames up
                          ++ data_frames (waiting_frames (tx.view c.receiver).queue)))))
  run_echoes from_str k n o es c server heard up down e going taken ka fresh empty w benign sent
        read =
      run_returns k n o es c [] heard up down e going taken ka (ap written fresh) sent (
        ap (λ f. f ++ data_frames heard) (sym (ap (λ l. data_frames (written l)) empty))
        ∙ sym (echo_server_benign from_str heard server w benign)
        ∙ read)
