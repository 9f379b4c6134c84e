-- ===== src/Lib.antt =====
-- Verification library of socketeer, a WebSocket client: what its background task, its handle and its
-- helpers do, whatever the network, the program and the scheduler do.
--
-- The parts of the program, and the files that model them:
--
-- - `SocketLoop` (`src/socket_loop.rs`): the background task. `SocketLoop.Handlers` has
--   `send_socket_message`, `handle_incoming` and `send_keepalive`, each with the sink and the one-shots
--   that it writes to. `SocketLoop.Task` has `socket_loop_split` and `deliver_with_backpressure` as one
--   machine: its phase says at which `select!` the task waits (`selecting`, `holding` with the frame in
--   hand, or `ended`), and one step takes one arm, from its future to its end. The modules below it are
--   proofs. `SocketLoop.Clock` adds the time that passes before each arm, and with it the timer.
-- - `Handle` (`src/socket_loop.rs`): what the handle calls. `Handle.Calls` has `send_confirmed`,
--   `send_unconfirmed`, `send_close`, `recv_raw`, `poll_recv_raw` and the two ways to take the terminal
--   error; `Handle.Receive` and `Handle.Surfacing` are about the calls behind the end.
-- - `Connection` (`src/lib.rs`, `src/split.rs`, `src/socket_loop.rs`): the task and the handle together.
--   They meet in two bounded channels and in the slot of the terminal error. An event is an arm of the
--   task or a call of the handle; a run is any list of events that are enabled one after the other, so
--   that a theorem about runs is a theorem about all interleavings. `Connection.Waiting` has the wait
--   for a one-shot, `Connection.Served` what it waits for, `Connection.Answered` how it ends,
--   `Connection.Flushed` what has been written by then; `Connection.Drained` has what is left to
--   receive, `Connection.Surfaced` who is given the error that ended the loop, `Connection.Blameless` what
--   a program that keeps its handle is spared; `Connection.Outbox` and `Connection.Inbox` are
--   specifications of the two sides. `Connection.Closing` has `close_connection`, with the arms that the
--   task takes while the call waits, and `Connection.Closed` what it returns.
-- - `Socketeer` (`src/lib.rs`, `src/split.rs`): the handle and its two halves, connecting and
--   reconnecting; `Socketeer.Typed` the calls that encode and decode; `Socketeer.RoundTrip` follows a value
--   through the crate. `Socketeer.Shared` has the channels and slots that handles name; on these stand the
--   methods of `Socketeer` (`Socketeer.Methods`), `SocketeerTx` (`Socketeer.Sender`) and `SocketeerRx`
--   (`Socketeer.Receiver`), and `Socketeer.Sharing` is a list of such calls and of what the tasks do in
--   between. `Socketeer.Sessions` is a life of several connections, one behind the other;
--   `Socketeer.Shown` has the texts that handles show.
-- - `Handshake` (`src/handler.rs`), `Config` (`src/config.rs`), `Codec` (`src/codec.rs`), `Message` (the
--   frames, and `src/error.rs`, with the texts of the errors in `Message.Display`), `MockServer`
--   (`src/mock_server.rs`). `Config.UnitTests` has the unit tests of its file, as Booleans, and
--   `Codec.UnitTests` those that encode or decode; the tests of `Debug`, `Default` and `Clone` of the
--   codecs are left out.
-- - `EndToEnd`: a connection and the echo server of `MockServer` with the wires between them;
--   `EndToEnd.Authenticated` has the server that asks for credentials, and the handshake with it.
-- - `EchoChat`: the program of `examples/echo_chat.rs`, against the echo server.
-- - `ProbeServer`: the server of the backpressure tests (`tests/support/mod.rs`), with the timeout as a split
--   of what its client sends; `EndToEnd.Probed` has the client at its other end.
-- - `Runtime` has the interfaces to tokio's channels and to the sink of tungstenite; `Common` the types
--   and lemmas that the parts share; `Tests` applies the theorems to concrete runs.
--
-- What is a parameter: a bounded channel is any type with the operations and laws of
-- `Runtime.Channel.Mpsc`, which say what tokio documents of them, and its capacity is a `ChannelSize`,
-- which is at least 1, since tokio panics at 0; the sink answers a call by any function
-- of the calls before it; the stream gives any item at any time; foreign errors are values of a type `X`;
-- serde_json, rmp-serde, the header map, the request, the address and the network are records of
-- functions. One-shots and the objects that a handle shares with its task have numbers.
--
-- What is simplified: the code between two waits of the task is one step, with the calls on the sink
-- in it: a payload that is taken off the queue has its answer in the same step. In `SocketLoop.Task` the arm of the timer is ready whenever an interval is set; in
-- `SocketLoop.Clock` it needs a delay of the interval, counted from the time that the task came to
-- the `select!`, and the time that an arm itself takes is not counted. The wires of `EndToEnd`
-- deliver a part of what is written, in order. No definition needs fuel: the loops over the stream
-- are recursion on the list of its items, and the loop of the task is a step function. Tracing, TCP and
-- the tests against real sockets are not modelled.
pub mod Common
pub mod Message
pub mod Runtime
pub mod SocketLoop
pub mod Handle
pub mod Codec
pub mod Config
pub mod Handshake
pub mod Connection
pub mod Socketeer
pub mod MockServer
pub mod EndToEnd
pub mod EchoChat
pub mod ProbeServer
mod Tests
