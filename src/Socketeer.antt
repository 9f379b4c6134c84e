-- ===== src/Socketeer.antt =====
-- src/lib.rs and src/split.rs: the handle, how it is made, and its two halves. What the handle shares
-- with the task (the channels, the task itself, the slot) is known by a number.
pub mod Halves
pub mod Typed
pub mod Shared
pub mod Sharing
pub mod Over
pub mod Methods
pub mod Sender
pub mod Receiver
pub mod Decoding
pub mod Drained
pub mod Lifecycle
pub mod Sessions
pub mod Shown
pub mod Refusal
pub mod RoundTrip
use socketeer.Common.{
  ℕ, suc, ◌+◌, String, Option, none, some, List, [], Bool, true, Result, ok, err, map_err, Poll,
  ready, pending, ◌==◌, if◌then◌else◌, ◌>>=◌, ◌>>◌,
}
use socketeer.Message.{Message, Error, url_parse, websocket_error}
use socketeer.Runtime.Channel.{ChannelSize, Mpsc}
use socketeer.SocketLoop.Handlers.{TxChannelPayload, Sent}
use socketeer.SocketLoop.Task.{Keepalive, Arm}
use socketeer.Handle.Calls.{
  TerminalError, Call, returned, take_terminal_error_opt, send_confirmed, send_unconfirmed,
  recv_raw, poll_recv_raw,
}
use socketeer.Codec.{Codec}
use socketeer.Config.{HeaderMap, ClientRequest, ConnectOptions, default, build_request}
use socketeer.Handshake.{HandshakeContext, ConnectionHandler, noop_handler}
use socketeer.Connection.{Connection, start}
use socketeer.Connection.Closing.{Ending, unfinished, crashed, finished, await_close}

-- `S` is the handler, `U` the parsed address, `H` the header map. `receiver` and `sender` are the
-- numbers of the two channels, `socket_handle` that of the task, `terminal_error` that of the slot.
pub record Socketeer (X Tx Rx S U H : Type 0) : Type 0 where
  pub url : U
  pub options : ConnectOptions H
  pub codec : Codec X Tx Rx
  pub handler : S
  pub receiver : ℕ
  pub sender : ℕ
  pub socket_handle : ℕ
  pub terminal_error : ℕ

pub record SocketeerTx (X Tx Rx : Type 0) : Type 0 where
  pub sender : ℕ
  pub codec : Codec X Tx Rx
  pub terminal_error : ℕ

pub record SocketeerRx (X Tx Rx S U H : Type 0) : Type 0 where
  pub receiver : ℕ
  pub codec : Codec X Tx Rx
  pub terminal_error : ℕ
  pub socket_handle : ℕ
  pub url : U
  pub options : ConnectOptions H
  pub handler : S

pub record ReuniteError (X Tx Rx S U H : Type 0) : Type 0 where
  pub tx : SocketeerTx X Tx Rx
  pub rx : SocketeerRx X Tx Rx S U H

module _ {X Tx Rx S U H : Type 0} where
  unfoldable pub split : Socketeer X Tx Rx S U H → SocketeerTx X Tx Rx × SocketeerRx X Tx Rx S U H
  split s = (
    record { sender = s.sender; codec = s.codec; terminal_error = s.terminal_error },
    record {
      receiver = s.receiver;
      codec = s.codec;
      terminal_error = s.terminal_error;
      socket_handle = s.socket_handle;
      url = s.url;
      options = s.options;
      handler = s.handler;
    },
  )

  unfoldable pub from_parts :
      U → ConnectOptions H → Codec X Tx Rx → S → ℕ → ℕ → ℕ → ℕ → Socketeer X Tx Rx S U H
  from_parts url options codec handler receiver sender socket_handle terminal_error = record {
    url = url;
    options = options;
    codec = codec;
    handler = handler;
    receiver = receiver;
    sender = sender;
    socket_handle = socket_handle;
    terminal_error = terminal_error;
  }

  -- `Arc::ptr_eq` compares the numbers of the slots.
  unfoldable pub reunite :
      SocketeerRx X Tx Rx S U H
      → SocketeerTx X Tx Rx
      → Result (Socketeer X Tx Rx S U H) (ReuniteError X Tx Rx S U H)
  unfolding from_parts
  reunite rx tx =
      if rx.terminal_error == tx.terminal_error
      then ok (
          from_parts rx.url rx.options rx.codec rx.handler rx.receiver tx.sender rx.socket_handle
            rx.terminal_error)
      else err (record { tx = tx; rx = rx })

unfoldable pub clone : {X Tx Rx : Type 0} → SocketeerTx X Tx Rx → SocketeerTx X Tx Rx
clone tx = record { sender = tx.sender; codec = tx.codec; terminal_error = tx.terminal_error }

-- `connect_async` and the `url` crate.
pub record Net (X U Q : Type 0) : Type 0 where
  pub parse : String → Result U X
  pub as_str : U → String
  pub connect_async : Q → Result (HandshakeContext X) X

-- What a connect hands out: the handle, the arguments of the task, and what is still to come on the
-- stream that the task reads.
pub record Connected (X Tx Rx S U H T R : Type 0) : Type 0 where
  pub socketeer : Socketeer X Tx Rx S U H
  pub keepalive : Keepalive
  pub connection : Connection X T R
  pub stream : List (Result Message X)

module _ {X Tx Rx S U H K V Q T R : Type 0} ⦃tx : Mpsc TxChannelPayload T⦄ ⦃rx : Mpsc Message R⦄
    (map : HeaderMap K V H) (request_of : ClientRequest X H Q) (net : Net X U Q)
    (channel_size : ChannelSize) where
  -- `fresh` is the first number that is not in use.
  unfoldable pub connect_with_codec :
      ConnectionHandler X Tx Rx S
      → ℕ
      → String
      → ConnectOptions H
      → Codec X Tx Rx
      → S
      → Result (Connected X Tx Rx S U H T R) (Error X)
  connect_with_codec hooks fresh url options codec handler = do
    parsed ← map_err (url_parse url) (net.parse url)
    request ← build_request map request_of options (net.as_str parsed)
    ctx ← map_err websocket_error (net.connect_async request)
    let (handler', ctx', greeted) = hooks.on_connected codec handler ctx
    greeted
    ok (record {
      socketeer = record {
        url = parsed;
        options = options;
        codec = codec;
        handler = handler';
        receiver = fresh;
        sender = fresh + 1;
        socket_handle = fresh + 2;
        terminal_error = fresh + 3;
      };
      keepalive = record {
        interval = options.keepalive_interval;
        message = options.custom_keepalive_message;
      };
      connection =
          start channel_size
            (record { sink = ctx'.sink; oneshots = record { awaited = λ _. true; answered = [] } });
      stream = ctx'.stream;
    })

  -- `c` is the connection of the handle, and `arms` what its task does while `send_close` waits.
  unfoldable pub reconnect :
      ConnectionHandler X Tx Rx S
      → ℕ
      → Socketeer X Tx Rx S U H
      → Keepalive
      → ℕ
      → List (Arm X)
      → Connection X T R
      → Ending (Result (Connected X Tx Rx S U H T R) (Error X))
  unfolding connect_with_codec await_close
  reconnect hooks fresh s k id arms c =
      let handler = hooks.on_disconnected s.handler in
      let again = connect_with_codec hooks fresh (net.as_str s.url) s.options s.codec handler in
      let (c', sent) = await_close k id arms c in
      elim sent [
        | crashed ↦ crashed
        | unfinished ↦ unfinished
        | finished (ok _) ↦ finished again
        | finished (err _) ↦ finished again
      ]

module _ {X Tx Rx U H K V Q T R : Type 0} ⦃tx : Mpsc TxChannelPayload T⦄ ⦃rx : Mpsc Message R⦄
    (map : HeaderMap K V H) (request_of : ClientRequest X H Q) (net : Net X U Q)
    (channel_size : ChannelSize) where
  -- The codec argument is `C::default()`.
  unfoldable pub connect_with :
      ℕ
      → String
      → ConnectOptions H
      → Codec X Tx Rx
      → Result (Connected X Tx Rx (Unit {0}) U H T R) (Error X)
  unfolding connect_with_codec
  connect_with fresh url options codec =
      connect_with_codec map request_of net channel_size noop_handler fresh url options codec tt

  unfoldable pub connect :
      ℕ → String → Codec X Tx Rx → Result (Connected X Tx Rx (Unit {0}) U H T R) (Error X)
  unfolding connect_with
  connect fresh url codec = connect_with fresh url (default map) codec
