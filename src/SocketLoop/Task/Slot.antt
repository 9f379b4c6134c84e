-- ===== src/SocketLoop/Task/Slot.antt =====
-- What the loop writes into the slot, arm by arm, and how the caller of a send is answered.
use socketeer.Common.{
  ◌≡◌, ℕ, true, false, List, ◌∷◌, Option, none, some, err, arith, map_err, is_err,
}
use socketeer.Message.{Message, Error, websocket_error, websocket_closed, dropped_without_closing}
use socketeer.Runtime.Channel.{Mpsc}
use socketeer.Runtime.Sink.{sends}
use socketeer.SocketLoop.Handlers.{
  TxChannelPayload, error, send_socket_message, send_keepalive, Sent,
}
use socketeer.SocketLoop.Task.Frames.{is_ended}
use socketeer.SocketLoop.Task.{
  Phase, ended, Keepalive, Task, Arm, outgoing, sleep, socket_loop_split, continue, still_holding,
  on_outgoing, try_deliver, after_delivery, finish,
}

-- An error that ends the loop goes into the slot; nothing else does.
abbrev pub slot_after : {X : Type 0} → Phase X → Option (Error X) → Option (Error X)
slot_after (ended (error e)) slot = some e
slot_after _ slot = slot

module _ {X T R : Type 0} ⦃tx : Mpsc TxChannelPayload T⦄ ⦃rx : Mpsc Message R⦄ where
  -- In the very step in which the loop ends with an error, that error is written into the slot, over
  -- whatever was there; a step after which the loop runs on, and a graceful close, leave the slot
  -- alone.
  pub socket_loop_split_records :
      (k : Keepalive) (t : Task X T R) (a : Arm X) (t' : Task X T R)
      → socket_loop_split k t a ≡ some t'
      → t'.terminal_error ≡ slot_after t'.phase t.terminal_error
  unfolding socket_loop_split finish continue still_holding on_outgoing try_deliver after_delivery
  socket_loop_split_records k t a t' e = ground arith

  -- The oldest payload that waits for the loop, with a caller that awaits its answer: if an arm takes
  -- it, in either `select!`, its frame is the next call on the sink, the caller gets what the sink
  -- answered to that very call, the answers given before stay, and the loop ends exactly if the sink
  -- failed.
  pub socket_loop_split_answers :
      (k : Keepalive) (t t' : Task X T R) (m : Message) (id : ℕ) (q : List TxChannelPayload)
      → (tx.view t.receiver).queue ≡ record { message = m; response_tx = some id } ∷ q
      → t.oneshots.awaited id ≡ true
      → socket_loop_split k t outgoing ≡ some t'
      → let sent : Sent X = map_err websocket_error (t.sink.answer t.sink.calls (sends m)) in
        (t'.sink.calls ≡ sends m ∷ t.sink.calls)
        × (t'.oneshots.answered ≡ (id, sent) ∷ t.oneshots.answered)
        × (is_ended t'.phase ≡ is_err sent)
  unfolding socket_loop_split send_socket_message continue still_holding finish
  socket_loop_split_answers k t t' m id q e w h = ground (arith, tx.result-recv t.receiver)

  -- A fire-and-forget send that the sink fails to write: the slot says `WebsocketClosed`, whatever the
  -- error was, and nobody gets that error; a keepalive that fails with the same error puts it into the
  -- slot.
  pub socket_loop_split_unheard :
      (k : Keepalive) (t t' t'' : Task X T R) (m : Message) (q : List TxChannelPayload) (x : X)
      → (tx.view t.receiver).queue ≡ record { message = m; response_tx = none } ∷ q
      → k.message ≡ some m
      → t.sink.answer t.sink.calls (sends m) ≡ err x
      → socket_loop_split k t outgoing ≡ some t'
      → socket_loop_split k t sleep ≡ some t''
      → (t'.terminal_error ≡ some websocket_closed)
        × (t'.oneshots.answered ≡ t.oneshots.answered)
        × (t''.terminal_error ≡ some (websocket_error x))
  unfolding socket_loop_split send_socket_message send_keepalive continue still_holding finish
  socket_loop_split_unheard k t t' t'' m q x e c f h i = ground (arith, tx.result-recv t.receiver)

  -- A payload whose caller has stopped waiting: its frame is still the next call on the sink, and the
  -- loop ends with `SocketeerDroppedWithoutClosing`, whether the sink has sent the frame or not.
  pub socket_loop_split_cancelled :
      (k : Keepalive) (t t' : Task X T R) (m : Message) (id : ℕ) (q : List TxChannelPayload)
      → (tx.view t.receiver).queue ≡ record { message = m; response_tx = some id } ∷ q
      → t.oneshots.awaited id ≡ false
      → socket_loop_split k t outgoing ≡ some t'
      → (t'.sink.calls ≡ sends m ∷ t.sink.calls)
        × (t'.phase ≡ ended (error dropped_without_closing))
        × (t'.terminal_error ≡ some dropped_without_closing)
  unfolding socket_loop_split send_socket_message continue still_holding finish
  socket_loop_split_cancelled k t t' m id q e w h = ground (arith, tx.result-recv t.receiver)
