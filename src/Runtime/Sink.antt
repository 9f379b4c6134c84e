-- ===== src/Runtime/Sink.antt =====
-- The write half of the WebSocket stream (`SplitSink`). What it answers to a call is the network's and
-- tungstenite's business: `answer` is any function of the calls made so far and of the new call.
use socketeer.Common.{List, [], ◌∷◌, ◌++◌, Result}
use socketeer.Message.{Message}

pub data SinkCall : Type 0 where
  sends : Message → SinkCall
  closes : SinkCall

-- The frames that were written, oldest first.
abbrev pub written : List SinkCall → List Message
written [] = []
written (sends m ∷ l) = written l ++ m ∷ []
written (closes ∷ l) = written l

pub record Sink (X : Type 0) : Type 0 where
  pub calls : List SinkCall  -- newest first
  pub answer : List SinkCall → SinkCall → Result (Unit {0}) X

module _ {X : Type 0} where
  abbrev pub sink_call : Sink X → SinkCall → Sink X × Result (Unit {0}) X
  sink_call s c = (record s { calls = c ∷ s.calls }, s.answer s.calls c)

  -- `sink.send(message).await`
  abbrev pub sink_send : Sink X → Message → Sink X × Result (Unit {0}) X
  sink_send s m = sink_call s (sends m)

  -- `sink.close().await`
  abbrev pub sink_close : Sink X → Sink X × Result (Unit {0}) X
  sink_close s = sink_call s closes
