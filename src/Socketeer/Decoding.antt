-- ===== src/Socketeer/Decoding.antt =====
-- src/lib.rs: what `next_message` returns once the loop has ended.
use mathlib.Core.Option.{get_or}
use native.Mathlib.Nat.{suc-add, zero-add}
use socketeer.Common.{
  ℕ, zero, suc, ◌+◌, ◌≡◌, refl, ap, ◌∙◌, length, List, [], ◌∷◌, ◌++◌, none, Result, err, Poll,
  ready, map, arith, false, some, Option,
}
use socketeer.Message.{Message, Error, websocket_closed}
use socketeer.Runtime.Channel.{Mpsc}
use socketeer.Codec.{Codec}
use socketeer.Handle.Calls.{TerminalError, recv_raw, poll_recv_raw}
use socketeer.Handle.Receive.{endings, stream_endings, stream_endings-suc, last_item, Ended}
use socketeer.Socketeer.Typed.{next_message, poll_next}

module _ {X Tx Rx R : Type 0} ⦃rx : Mpsc Message R⦄ (codec : Codec X Tx Rx) where
  -- The results of a number of calls, one after the other.
  unfoldable pub next_times : ℕ → R → TerminalError X → List (Poll (Result Rx (Error X)))
  next_times zero r slot = []
  next_times (suc n) r slot =
      let (r', slot', polled) = next_message codec r slot in polled ∷ next_times n r' slot'

  next_message_end :
      (r : R) (slot : TerminalError X)
      → Ended r []
      → ((next_message codec r slot).1 ≡ none)
        × ((next_message codec r slot).2 ≡ ready (err (get_or slot websocket_closed)))
        × Ended (next_message codec r slot).0 []
  unfolding next_message recv_raw
  next_message_end r slot h = ground (arith, rx.result-recv r, rx.view-recv r)

  next_message_decodes :
      (r : R) (slot : TerminalError X) (m : Message) (ms : List Message)
      → Ended r (m ∷ ms)
      → ((next_message codec r slot).1 ≡ slot)
        × ((next_message codec r slot).2 ≡ ready (codec.decode m))
        × Ended (next_message codec r slot).0 ms
  unfolding next_message recv_raw
  next_message_decodes r slot m ms h = ground (arith, rx.result-recv r, rx.view-recv r)

  next_times_end :
      (n : ℕ) (r : R) (slot : TerminalError X)
      → Ended r []
      → next_times n r slot ≡ endings n (get_or slot websocket_closed)
  unfolding next_times
  next_times_end zero r slot h = refl
  next_times_end (suc n) r slot h =
      let (taken, result, h') = next_message_end r slot h in
      rw result (
        ap (◌∷◌ (ready (err (get_or slot websocket_closed)))) (
          next_times_end n (next_message codec r slot).0 (next_message codec r slot).1 h'
          ∙ ap (λ s. endings n (get_or s websocket_closed)) taken))

  pub next_message_drains :
      (q : List Message) (n : ℕ) (r : R) (slot : TerminalError X)
      → (rx.view r).queue ≡ q
      → (rx.view r).sending ≡ false
      → next_times (length q + n) r slot
        ≡ map (λ m. ready (codec.decode m)) q ++ endings n (get_or slot websocket_closed)
  unfolding next_times
  next_message_drains [] n r slot e s = rw zero-add (next_times_end n r slot (e, s))
  next_message_drains (m ∷ q) n r slot e s =
      let (same, result, h') = next_message_decodes r slot m q (e, s) in
      rw suc-add (
        rw result (
          ap (◌∷◌ (ready (codec.decode m))) (
            next_message_drains q n (next_message codec r slot).0 (next_message codec r slot).1 h'.0
              h'.1
            ∙ ap
                (λ s'.
                  map (λ x. ready (codec.decode x)) q ++ endings n (get_or s' websocket_closed))
                same)))

  -- Polls of the typed stream, one after the other.
  unfoldable pub poll_next_times :
      ℕ → R → TerminalError X → List (Poll (Option (Result Rx (Error X))))
  poll_next_times zero r slot = []
  poll_next_times (suc n) r slot =
      let (r', slot', polled) = poll_next codec r slot in polled ∷ poll_next_times n r' slot'

  poll_next_end :
      (r : R) (slot : TerminalError X)
      → Ended r []
      → ((poll_next codec r slot).1 ≡ none)
        × ((poll_next codec r slot).2 ≡ ready (last_item slot))
        × Ended (poll_next codec r slot).0 []
  unfolding poll_next poll_recv_raw
  poll_next_end r slot h = ground (arith, rx.result-recv r, rx.view-recv r)

  poll_next_decodes :
      (r : R) (slot : TerminalError X) (m : Message) (ms : List Message)
      → Ended r (m ∷ ms)
      → ((poll_next codec r slot).1 ≡ slot)
        × ((poll_next codec r slot).2 ≡ ready (some (codec.decode m)))
        × Ended (poll_next codec r slot).0 ms
  unfolding poll_next poll_recv_raw
  poll_next_decodes r slot m ms h = ground (arith, rx.result-recv r, rx.view-recv r)

  poll_next_times_end :
      (n : ℕ) (r : R) (slot : TerminalError X)
      → Ended r []
      → poll_next_times n r slot ≡ stream_endings n slot
  unfolding poll_next_times
  poll_next_times_end zero r slot h = refl
  poll_next_times_end (suc n) r slot h =
      let (taken, result, h') = poll_next_end r slot h in
      rw (stream_endings-suc Rx n slot, result)
        (ap (◌∷◌ (ready (last_item slot))) (
          poll_next_times_end n (poll_next codec r slot).0 (poll_next codec r slot).1 h'
          ∙ ap (stream_endings n) taken))

  pub poll_next_drains :
      (q : List Message) (n : ℕ) (r : R) (slot : TerminalError X)
      → Ended r q
      → poll_next_times (length q + n) r slot
        ≡ map (λ m. ready (some (codec.decode m))) q ++ stream_endings n slot
  unfolding poll_next_times
  poll_next_drains [] n r slot h = rw zero-add (poll_next_times_end n r slot h)
  poll_next_drains (m ∷ q) n r slot h =
      let (same, result, h') = poll_next_decodes r slot m q h in
      rw suc-add (
        rw result (
          ap (◌∷◌ (ready (some (codec.decode m)))) (
            poll_next_drains q n (poll_next codec r slot).0 (poll_next codec r slot).1 h'
            ∙ ap (λ s'. map (λ x. ready (some (codec.decode x))) q ++ stream_endings n s') same)))
