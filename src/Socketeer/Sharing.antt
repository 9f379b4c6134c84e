-- ===== src/Socketeer/Sharing.antt =====
-- Calls of the halves of handles, one after the other, on the objects that they share.
use socketeer.Common.{ℕ, List, [], ◌∷◌, Option, Result, Poll}
use socketeer.Message.{Message, Error}
use socketeer.Runtime.Channel.{Mpsc}
use socketeer.SocketLoop.Handlers.{TxChannelPayload, Sent}
use socketeer.Handle.Calls.{Call, TerminalError}
use socketeer.Socketeer.{Socketeer, split}
use socketeer.Socketeer.Shared.{World, changing}
use socketeer.Socketeer.Sender
use socketeer.Socketeer.Receiver

-- A call on one half of a split handle, or what the task of its connection does in between: any change
-- of the objects that the task shares with the handle.
pub data HalfCall (X Tx T R : Type 0) : Type 0 where
  confirmed : Tx → ℕ → HalfCall X Tx T R
  confirmed_raw : Message → ℕ → HalfCall X Tx T R
  unconfirmed : Tx → HalfCall X Tx T R
  unconfirmed_raw : Message → HalfCall X Tx T R
  closing : ℕ → HalfCall X Tx T R
  next next_raw polling : HalfCall X Tx T R
  background : (T → R → TerminalError X → T × R × TerminalError X) → HalfCall X Tx T R

-- What it gives.
pub data Answer (X Rx : Type 0) : Type 0 where
  nothing : Answer X Rx
  called : Poll (Call X) → Answer X Rx
  queued : Poll (Sent X) → Answer X Rx
  raw : Poll (Result Message (Error X)) → Answer X Rx
  value : Poll (Result Rx (Error X)) → Answer X Rx
  item : Poll (Option (Result Rx (Error X))) → Answer X Rx

abbrev answering : {W A X Rx : Type 0} → (A → Answer X Rx) → W × A → W × Answer X Rx
answering f (w, a) = (w, f a)

module _ {X Tx Rx S U H T R : Type 0} ⦃tx : Mpsc TxChannelPayload T⦄ ⦃rx : Mpsc Message R⦄ where
  unfoldable pub call_half :
      Socketeer X Tx Rx S U H → HalfCall X Tx T R → World X T R → World X T R × Answer X Rx
  unfolding split
  call_half s (confirmed v id) w = answering called (Sender.send (split s).0 v id w)
  call_half s (confirmed_raw m id) w = answering called (Sender.send_raw (split s).0 m id w)
  call_half s (unconfirmed v) w = answering queued (Sender.send_unconfirmed (split s).0 v w)
  call_half s (unconfirmed_raw m) w = answering queued (Sender.send_raw_unconfirmed (split s).0 m w)
  call_half s (closing id) w = answering called (Sender.close (split s).0 id w)
  call_half s next w = answering value (Receiver.next_message (split s).1 w)
  call_half s next_raw w = answering raw (Receiver.next_raw_message (split s).1 w)
  call_half s polling w = answering item (Receiver.poll_next (split s).1 w)
  call_half s (background f) w = (changing s.sender s.receiver s.terminal_error f w, nothing)

  -- The calls of one handle.
  unfoldable pub calls :
      Socketeer X Tx Rx S U H
      → List (HalfCall X Tx T R)
      → World X T R
      → World X T R × List (Answer X Rx)
  unfolding call_half
  calls s [] w = (w, [])
  calls s (x ∷ xs) w = let (w1, a) = call_half s x w in let (w2, l) = calls s xs w1 in (w2, a ∷ l)
