-- ===== src/Connection/Inbox.antt =====
-- A specification of the receiving side: one queue between the network and the program, without a
-- channel, a capacity, a frame in hand or backpressure.
use socketeer.Common.{List, [], ◌∷◌, ◌++◌}
use socketeer.Message.{Message}
use socketeer.Connection.Change.{read}
use socketeer.Connection.{Event, receive, poll}

-- What has been read and not received, oldest first, and what the program has received, oldest first.
pub record Inbox : Type 0 where
  pub pending : List Message
  pub received : List Message

abbrev pub take_next : List Message → List Message → Inbox
take_next [] got = record { pending = []; received = got }
take_next (m ∷ ms) got = record { pending = ms; received = got ++ m ∷ [] }

-- A receive or a poll that is not made to wait takes the oldest frame; a data frame of the stream goes
-- behind the others; nothing else moves a frame.
abbrev pub inbox_step : {X : Type 0} → Inbox → Event X → Inbox
inbox_step b receive = take_next b.pending b.received
inbox_step b poll = take_next b.pending b.received
inbox_step b e = record b { pending = b.pending ++ read e }

abbrev pub inbox_run : {X : Type 0} → Inbox → List (Event X) → Inbox
inbox_run b [] = b
inbox_run b (e ∷ es) = inbox_run (inbox_step b e) es
