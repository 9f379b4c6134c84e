-- ===== src/Runtime/Channel.antt =====
-- tokio's bounded `mpsc` channel, as a type `C` of channels that carry values of `A`. A channel is seen
-- through `view`; each law says what the documentation says that the operation does to that view.
use socketeer.Common.{
  ◌≤◌, ℕ, ◌≡◌, refl, Bool, true, false, List, [], ◌∷◌, ◌++◌, Option, none, some, Result, ok, err,
  Poll, ready, pending, ltb, length, if◌then◌else◌,
}

pub record ChannelView (A : Type 0) : Type 0 where
  pub queue : List A  -- oldest first
  pub capacity : ℕ
  pub receiving : Bool  -- the `Receiver` has not been dropped
  pub sending : Bool  -- some `Sender` has not been dropped

pub data TrySendError (A : Type 0) : Type 0 where
  full closed : A → TrySendError A

module _ {A : Type 0} where
  abbrev pub has_room : ChannelView A → Bool
  has_room v = ltb (length v.queue) v.capacity

  abbrev pub pushed : ChannelView A → A → ChannelView A
  pushed v a = record v { queue = v.queue ++ a ∷ [] }

  -- `try_send`: never waits, and hands the value back on failure.
  abbrev pub try_send_view : ChannelView A → A → ChannelView A × Result (Unit {0}) (TrySendError A)
  try_send_view v a =
      if v.receiving
      then (if has_room v then (pushed v a, ok tt) else (v, err (full a)))
      else (v, err (closed a))

  -- `reserve`: waits for room, and fails once the receiver is gone.
  abbrev pub reserve_view : ChannelView A → Poll (Result (Unit {0}) (Unit {0}))
  reserve_view v =
      if v.receiving then (if has_room v then ready (ok tt) else pending) else ready (err tt)

  -- `recv`: the oldest value, or the end once no sender is left.
  abbrev pub recv_from : List A → ChannelView A → ChannelView A × Poll (Option A)
  recv_from [] v = (v, if v.sending then pending else ready none)
  recv_from (a ∷ as') v = (record v { queue = as' }, ready (some a))

pub recv_from-receiving :
    {A : Type 0} (q : List A) (v : ChannelView A) → (recv_from q v).0.receiving ≡ v.receiving
recv_from-receiving [] v = refl
recv_from-receiving (a ∷ q) v = refl

pub recv_from-sending :
    {A : Type 0} (q : List A) (v : ChannelView A) → (recv_from q v).0.sending ≡ v.sending
recv_from-sending [] v = refl
recv_from-sending (a ∷ q) v = refl

-- A capacity: tokio panics at a channel of capacity 0.
pub record ChannelSize : Type 0 where
  pub size : ℕ
  pub positive : 1 ≤ size

-- `permit_send` is `Permit::send`. Dropping the receiver drops the values that wait in the channel.
pub record Mpsc (A C : Type 0) : Type 0 where
  pub view : C → ChannelView A
  pub channel : ChannelSize → C
  pub try_send : C → A → C × Result (Unit {0}) (TrySendError A)
  pub reserve : C → Poll (Result (Unit {0}) (Unit {0}))
  pub permit_send : C → A → C
  pub recv : C → C × Poll (Option A)
  pub drop_receiver : C → C
  pub drop_senders : C → C
  pub view-channel :
      (n : ChannelSize)
      → view (channel n)
        ≡ record { queue = []; capacity = n.size; receiving = true; sending = true }
  pub view-try_send : (c : C) (a : A) → view (try_send c a).0 ≡ (try_send_view (view c) a).0
  pub result-try_send : (c : C) (a : A) → (try_send c a).1 ≡ (try_send_view (view c) a).1
  pub reserve_lem : (c : C) → reserve c ≡ reserve_view (view c)
  pub view-permit_send : (c : C) (a : A) → view (permit_send c a) ≡ pushed (view c) a
  pub view-recv : (c : C) → view (recv c).0 ≡ (recv_from (view c).queue (view c)).0
  pub result-recv : (c : C) → (recv c).1 ≡ (recv_from (view c).queue (view c)).1
  pub view-drop_receiver :
      (c : C) → view (drop_receiver c) ≡ record (view c) { queue = []; receiving = false }
  pub view-drop_senders : (c : C) → view (drop_senders c) ≡ record (view c) { sending = false }

-- `Sender::send(value).await`: waits for room, then pushes; it fails once the receiver is gone.
abbrev pub poll_send :
    {A C : Type 0} ⦃ch : Mpsc A C⦄ → C → A → C × Poll (Result (Unit {0}) (Unit {0}))
poll_send ⦃ch⦄ c a = elim (ch.reserve c) [
  | pending ↦ (c, pending)
  | ready (ok _) ↦ (ch.permit_send c a, ready (ok tt))
  | ready (err _) ↦ (c, ready (err tt))
]
