-- ===== src/Handle/Receive.antt =====
-- src/socket_loop.rs: what the program receives once the loop has ended.
use mathlib.Core.Option.{get_or}
use native.Mathlib.Nat.{suc-add, zero-add}
use socketeer.Common.{
  length, ◌+◌, ◌≡◌, refl, ap, ◌∙◌, List, [], ◌∷◌, ◌++◌, Option, none, some, Result, ok, err, Poll,
  ready, map, arith, false, zero, suc, ℕ,
}
use socketeer.Message.{Message, Error, websocket_closed}
use socketeer.Runtime.Channel.{Mpsc}
use socketeer.Handle.Calls.{TerminalError, recv_raw, poll_recv_raw}

-- The answers to `n` calls behind the end: the cause, and then that the connection is closed.
abbrev pub endings : {A X : Type 0} → ℕ → Error X → List (Poll (Result A (Error X)))
endings zero e = []
endings (suc n) e = ready (err e) ∷ endings n websocket_closed

-- The same for a stream: the cause, if there is one, and then the end of the stream.
abbrev pub stream_endings :
    {A X : Type 0} → ℕ → TerminalError X → List (Poll (Option (Result A (Error X))))
stream_endings zero slot = []
stream_endings (suc n) (some e) = ready (some (err e)) ∷ stream_endings n none
stream_endings (suc n) none = ready none ∷ stream_endings n none

abbrev pub last_item : {A X : Type 0} → TerminalError X → Option (Result A (Error X))
last_item (some e) = some (err e)
last_item none = none

pub stream_endings-suc :
    (A : Type 0) {X : Type 0} (n : ℕ) (slot : TerminalError X)
    → stream_endings {A = A} (suc n) slot ≡ ready (last_item slot) ∷ stream_endings n none
stream_endings-suc A n none = refl
stream_endings-suc A n (some e) = refl

-- Of a channel that the loop has dropped, with `q` waiting in it.
abbrev pub Ended : {R : Type 0} ⦃rx : Mpsc Message R⦄ → R → List Message → Type 0
Ended ⦃rx⦄ r q = ((rx.view r).queue ≡ q) × ((rx.view r).sending ≡ false)

module _ {X R : Type 0} ⦃rx : Mpsc Message R⦄ where
  -- The results of a number of calls of `recv_raw`, and of polls of the stream, one after the other.
  unfoldable pub recv_times : ℕ → R → TerminalError X → List (Poll (Result Message (Error X)))
  recv_times zero r slot = []
  recv_times (suc n) r slot =
      let (r', slot', polled) = recv_raw r slot in polled ∷ recv_times n r' slot'

  unfoldable pub poll_times :
      ℕ → R → TerminalError X → List (Poll (Option (Result Message (Error X))))
  poll_times zero r slot = []
  poll_times (suc n) r slot =
      let (r', slot', polled) = poll_recv_raw r slot in polled ∷ poll_times n r' slot'

  recv_raw_end :
      (r : R) (slot : TerminalError X)
      → Ended r []
      → ((recv_raw r slot).1 ≡ none)
        × ((recv_raw r slot).2 ≡ ready (err (get_or slot websocket_closed)))
        × Ended (recv_raw r slot).0 []
  unfolding recv_raw
  recv_raw_end r slot h = ground (arith, rx.result-recv r, rx.view-recv r)

  recv_raw_next :
      (r : R) (slot : TerminalError X) (m : Message) (ms : List Message)
      → Ended r (m ∷ ms)
      → ((recv_raw r slot).1 ≡ slot)
        × ((recv_raw r slot).2 ≡ ready (ok m))
        × Ended (recv_raw r slot).0 ms
  unfolding recv_raw
  recv_raw_next r slot m ms h = ground (arith, rx.result-recv r, rx.view-recv r)

  recv_times_end :
      (n : ℕ) (r : R) (slot : TerminalError X)
      → Ended r []
      → recv_times n r slot ≡ endings n (get_or slot websocket_closed)
  unfolding recv_times
  recv_times_end zero r slot h = refl
  recv_times_end (suc n) r slot h =
      let (taken, result, h') = recv_raw_end r slot h in
      rw result (
        ap (◌∷◌ (ready (err (get_or slot websocket_closed)))) (
          recv_times_end n (recv_raw r slot).0 (recv_raw r slot).1 h'
          ∙ ap (λ s. endings n (get_or s websocket_closed)) taken))

  pub recv_raw_drains :
      (q : List Message) (n : ℕ) (r : R) (slot : TerminalError X)
      → (rx.view r).queue ≡ q
      → (rx.view r).sending ≡ false
      → recv_times (length q + n) r slot
        ≡ map (λ m. ready (ok m)) q ++ endings n (get_or slot websocket_closed)
  unfolding recv_times
  recv_raw_drains [] n r slot e s = rw zero-add (recv_times_end n r slot (e, s))
  recv_raw_drains (m ∷ q) n r slot e s =
      let (same, result, h') = recv_raw_next r slot m q (e, s) in
      rw suc-add (
        rw result (
          ap (◌∷◌ (ready (ok m))) (
            recv_raw_drains q n (recv_raw r slot).0 (recv_raw r slot).1 h'.0 h'.1
            ∙ ap (λ s'. map (λ x. ready (ok x)) q ++ endings n (get_or s' websocket_closed)) same)))

  poll_end :
      (r : R) (slot : TerminalError X)
      → Ended r []
      → ((poll_recv_raw r slot).1 ≡ none)
        × ((poll_recv_raw r slot).2 ≡ ready (last_item slot))
        × Ended (poll_recv_raw r slot).0 []
  unfolding poll_recv_raw
  poll_end r slot h = ground (arith, rx.result-recv r, rx.view-recv r)

  poll_next :
      (r : R) (slot : TerminalError X) (m : Message) (ms : List Message)
      → Ended r (m ∷ ms)
      → ((poll_recv_raw r slot).1 ≡ slot)
        × ((poll_recv_raw r slot).2 ≡ ready (some (ok m)))
        × Ended (poll_recv_raw r slot).0 ms
  unfolding poll_recv_raw
  poll_next r slot m ms h = ground (arith, rx.result-recv r, rx.view-recv r)

  poll_times_end :
      (n : ℕ) (r : R) (slot : TerminalError X)
      → Ended r []
      → poll_times n r slot ≡ stream_endings n slot
  unfolding poll_times
  poll_times_end zero r slot h = refl
  poll_times_end (suc n) r slot h =
      let (taken, result, h') = poll_end r slot h in
      rw (stream_endings-suc Message n slot, result)
        (ap (◌∷◌ (ready (last_item slot))) (
          poll_times_end n (poll_recv_raw r slot).0 (poll_recv_raw r slot).1 h'
          ∙ ap (stream_endings n) taken))

  pub poll_recv_raw_drains :
      (q : List Message) (n : ℕ) (r : R) (slot : TerminalError X)
      → (rx.view r).queue ≡ q
      → (rx.view r).sending ≡ false
      → poll_times (length q + n) r slot ≡ map (λ m. ready (some (ok m))) q ++ stream_endings n slot
  unfolding poll_times
  poll_recv_raw_drains [] n r slot e s = rw zero-add (poll_times_end n r slot (e, s))
  poll_recv_raw_drains (m ∷ q) n r slot e s =
      let (same, result, h') = poll_next r slot m q (e, s) in
      rw suc-add (
        rw result (
          ap (◌∷◌ (ready (some (ok m)))) (
            poll_recv_raw_drains q n (poll_recv_raw r slot).0 (poll_recv_raw r slot).1 h'.0 h'.1
            ∙ ap (λ s'. map (λ x. ready (some (ok x))) q ++ stream_endings n s') same)))

  -- Once the loop has ended, calls of `recv_raw` give the frames that wait in the channel, in order;
  -- then the recorded cause, once (`WebsocketClosed` if none was recorded); and `WebsocketClosed` ever
  -- after. The stream gives the frames; then the cause as one item, if there is one; and then the end
  -- of the stream, at every further poll. None of them waits.
  receives_drain :
      (q : List Message) (n : ℕ) (r : R) (slot : TerminalError X)
      → (rx.view r).queue ≡ q
      → (rx.view r).sending ≡ false
      → (recv_times (length q + n) r slot
          ≡ map (λ m. ready (ok m)) q ++ endings n (get_or slot websocket_closed))
        × (poll_times (length q + n) r slot
            ≡ map (λ m. ready (some (ok m))) q ++ stream_endings n slot)
  receives_drain q n r slot e s =
      (recv_raw_drains q n r slot e s, poll_recv_raw_drains q n r slot e s)
