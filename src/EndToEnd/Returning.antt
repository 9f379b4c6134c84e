-- ===== src/EndToEnd/Returning.antt =====
-- The client, with a peer that sends back what it reads: where the data frames are.
use mathlib.Core.List.{append_cancel_left}
use socketeer.Common.{
  ◌≡◌, inl, inr, sym, ap, ◌∙◌, true, false, List, [], ◌++◌, some, append-nil, append_assoc,
}
use socketeer.Message.{Message, is_data, data_frames, data_frames-append}
use socketeer.Runtime.Channel.{ChannelSize, Mpsc}
use socketeer.Runtime.Sink.{written}
use socketeer.SocketLoop.Handlers.{TxChannelPayload, Outputs, keepalive_frame}
use socketeer.SocketLoop.Task.{Keepalive}
use socketeer.SocketLoop.Task.Frames.{in_hand, queued, is_ended, is_received}
use socketeer.Connection.{Connection, Event, start, run}
use socketeer.Connection.Ledger.{run_in_order, reads}
use socketeer.Connection.Outbox.{Outbox}
use socketeer.Connection.Sending.{run-outbox}
use socketeer.EndToEnd.Traffic.{requested, outbound, outbound-spec_run, waiting_frames}

-- Nothing but pieces put together.
piece_together :
    (before a b c d e f : List Message)
    → (before ++ (((a ++ (b ++ c)) ++ d) ++ e)) ++ f
      ≡ before ++ (a ++ (b ++ (c ++ (d ++ (e ++ f)))))
piece_together before a b c d e f = simp append_assoc

module _ {X T R : Type 0} ⦃tx : Mpsc TxChannelPayload T⦄ ⦃rx : Mpsc Message R⦄ where
  all_read :
      (k : Keepalive) (n : ChannelSize) (o : Outputs X) (es : List (Event X)) (c : Connection X T R)
      → run k (start n o) es ≡ some c
      → is_ended c.phase ≡ false
      → is_received c.task ≡ true
      → reads es ≡ c.delivered ++ (queued c.task ++ in_hand c.phase)
  all_read k n o es c e going taken =
      let (gone, order, _, lost) = run_in_order k n o es c e taken in
      let none_gone : gone ≡ [] = elim lost [ inl over ↦ absurd (cc) | inr e' ↦ e' ] in
      order
      ∙ ap (λ g. (c.delivered ++ (queued c.task ++ in_hand c.phase)) ++ g) none_gone
      ∙ append-nil _

  -- `before` had been written when the connection was set up; of what has been written since, `heard`
  -- has reached the peer, and the data frames in it have been read or are on their way back.
  pub run_returns :
      (k : Keepalive) (n : ChannelSize) (o : Outputs X) (es : List (Event X)) (c : Connection X T R)
      (before heard up down : List Message)
      → run k (start n o) es ≡ some c
      → is_ended c.phase ≡ false
      → is_received c.task ≡ true
      → is_data (keepalive_frame k.message) ≡ false
      → written o.sink.calls ≡ before
      → written c.sink.calls ≡ before ++ (heard ++ up)
      → data_frames heard ≡ reads es ++ down
      → data_frames (requested es)
        ≡ c.delivered
          ++ (queued c.task
              ++ (in_hand c.phase
                  ++ (down
                      ++ (data_frames up
                          ++ data_frames (waiting_frames (tx.view c.receiver).queue)))))
  run_returns k n o es c before heard up down e going taken ka at_first sent back =
      let spec = run-outbox k n o es c e going in
      let b : Outbox = record { waiting = []; calls = o.sink.calls } in
      let asked = outbound-spec_run {X = X} k.message es b ka in
      let waits = data_frames (waiting_frames (tx.view c.receiver).queue) in
      let read = all_read k n o es c e going taken in
      let first : outbound b ≡ data_frames before = append-nil _ ∙ ap data_frames at_first in
      let wrote : data_frames (written c.sink.calls)
          ≡ data_frames before
            ++ (((c.delivered ++ (queued c.task ++ in_hand c.phase)) ++ down) ++ data_frames up) =
        ap data_frames sent
        ∙ data_frames-append before (heard ++ up)
        ∙ ap (λ f. data_frames before ++ f)
            (data_frames-append heard up
              ∙ ap (λ f. f ++ data_frames up) (back ∙ ap (λ f. f ++ down) read)) in
      append_cancel_left (data_frames before) _ _ (
        ap (λ f. f ++ data_frames (requested es)) (sym first)
        ∙ sym asked
        ∙ ap outbound (sym spec)
        ∙ ap (λ f. f ++ waits) wrote
        ∙ piece_together (data_frames before) c.delivered (queued c.task) (in_hand c.phase) down
            (data_frames up) waits)
