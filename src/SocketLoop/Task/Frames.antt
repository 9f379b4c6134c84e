-- ===== src/SocketLoop/Task/Frames.antt =====
-- Where the data frames go in one arm of the loop.
use socketeer.Common.{
  ◌≡◌, refl, Bool, true, false, List, [], ◌∷◌, ◌++◌, Option, none, some, Result, ok, arith,
  append-nil, if◌then◌else◌,
}
use socketeer.Message.{Message, is_data}
use socketeer.Runtime.Channel.{Mpsc}
use socketeer.Runtime.Sink.{Sink}
use socketeer.SocketLoop.Handlers.{
  TxChannelPayload, LoopState, running, error, closed, Incoming, state, deliver, handle_incoming,
}
use socketeer.SocketLoop.Task.Arms.{
  after_payload, after_keepalive, on_outgoing_cases, on_sleep_cases,
}
use socketeer.SocketLoop.Task.{
  after_incoming, Phase, selecting, holding, ended, Keepalive, Task, with_sink, Arm, outgoing,
  sleep, permit, incoming, continue, still_holding, on_incoming, on_permit, take_arm,
  socket_loop_split,
}

module _ {X : Type 0} where
  abbrev pub in_hand : Phase X → List Message
  in_hand (holding m) = m ∷ []
  in_hand _ = []

  abbrev pub is_ended : Phase X → Bool
  is_ended (ended s) = true
  is_ended _ = false

  -- The data frame that an arm reads from the stream.
  abbrev pub read_by : Arm X → List Message
  read_by (incoming (some (ok m))) = if is_data m then m ∷ [] else []
  read_by _ = []

  abbrev carried : Incoming X → List Message
  carried (state s) = []
  carried (deliver m) = m ∷ []

  -- Text and binary frames are handed on, and no others.
  carried-handle_incoming :
      (i : Option (Result Message X)) (s : Sink X)
      → carried (handle_incoming i s).1 ≡ read_by (incoming i)
  unfolding handle_incoming
  carried-handle_incoming i s = ground arith

  -- The frame that is lost between two phases.
  abbrev pub lost : Phase X → Phase X → List Message
  lost before after = if is_ended after then in_hand before else []

module _ {X T R : Type 0} ⦃tx : Mpsc TxChannelPayload T⦄ ⦃rx : Mpsc Message R⦄ where
  abbrev pub queued : Task X T R → List Message
  queued t = (rx.view t.sender).queue

  abbrev pub is_received : Task X T R → Bool
  is_received t = (rx.view t.sender).receiving

  abbrev MovesOn : Phase X → Task X T R → List Message → Task X T R → Type 0
  MovesOn p t read t' =
      queued t ++ (in_hand p ++ read) ≡ queued t' ++ (in_hand t'.phase ++ lost p t'.phase)

  continue-MovesOn : (t : Task X T R) (s : LoopState X) → MovesOn selecting t [] (continue t s)
  unfolding continue
  continue-MovesOn t running = refl
  continue-MovesOn t (error e) = ground (arith, rx.view-drop_senders t.sender)
  continue-MovesOn t closed = ground (arith, rx.view-drop_senders t.sender)

  still_holding-MovesOn :
      (m : Message) (t : Task X T R) (s : LoopState X)
      → MovesOn (holding m) t [] (still_holding m t s)
  unfolding still_holding
  still_holding-MovesOn m t running = refl
  still_holding-MovesOn m t (error e) = ground (arith, rx.view-drop_senders t.sender)
  still_holding-MovesOn m t closed = ground (arith, rx.view-drop_senders t.sender)

  after_incoming-MovesOn :
      (t : Task X T R) (i : Incoming X)
      → is_received (after_incoming t i) ≡ true
      → MovesOn selecting t (carried i) (after_incoming t i)
  unfolding after_incoming
  after_incoming-MovesOn t (state s) h = continue-MovesOn t s
  after_incoming-MovesOn t (deliver m) h =
      unfold continue in
      ground (
        arith,
        rx.view-try_send t.sender m,
        rx.result-try_send t.sender m,
        rx.view-drop_senders (rx.try_send t.sender m).0,
        append-nil (queued t ++ m ∷ []),
      )

  on_incoming-MovesOn :
      (i : Option (Result Message X)) (t : Task X T R)
      → is_received (on_incoming i t) ≡ true
      → MovesOn selecting t (read_by (incoming i)) (on_incoming i t)
  unfolding on_incoming
  on_incoming-MovesOn i t h = rw (← carried-handle_incoming i t.sink) (
      after_incoming-MovesOn (with_sink t (handle_incoming i t.sink).0) (handle_incoming i t.sink).1
        h)

  on_permit-MovesOn :
      (m : Message) (t t' : Task X T R)
      → on_permit m t ≡ some t'
      → is_received t' ≡ true
      → MovesOn (holding m) t [] t'
  unfolding on_permit continue
  on_permit-MovesOn m t t' h r = ground (
    arith,
    rx.reserve_lem t.sender,
    rx.view-permit_send t.sender m,
    rx.view-drop_senders t.sender,
    append-nil (queued t ++ m ∷ []),
  )

  take_arm-MovesOn :
      (k : Keepalive) (p : Phase X) (t : Task X T R) (a : Arm X) (t' : Task X T R)
      → take_arm k p t a ≡ some t'
      → is_received t' ≡ true
      → MovesOn p t (read_by a) t'
  unfolding take_arm
  take_arm-MovesOn k selecting t outgoing t' h r =
      let (payload, _, e) = on_outgoing_cases continue t t' h in
      rw e (continue-MovesOn (after_payload t payload) _)
  take_arm-MovesOn k selecting t sleep t' h r =
      let (_, e) = on_sleep_cases k continue t t' h in
      rw e (continue-MovesOn (after_keepalive k t) _)
  take_arm-MovesOn k selecting t (incoming i) t' h r = ground (arith, on_incoming-MovesOn i t)
  take_arm-MovesOn k (holding m) t outgoing t' h r =
      let (payload, _, e) = on_outgoing_cases (still_holding m) t t' h in
      rw e (still_holding-MovesOn m (after_payload t payload) _)
  take_arm-MovesOn k (holding m) t sleep t' h r =
      let (_, e) = on_sleep_cases k (still_holding m) t t' h in
      rw e (still_holding-MovesOn m (after_keepalive k t) _)
  take_arm-MovesOn k (holding m) t permit t' h r = on_permit-MovesOn m t t' h r
  take_arm-MovesOn k _ t _ t' h r = cc

  -- With a consumer at the other end, an arm puts what it reads behind the frames under way, and keeps
  -- them in order; only the frame in hand is lost, and only if the loop ends.
  pub socket_loop_split_frames :
      (k : Keepalive) (t : Task X T R) (a : Arm X) (t' : Task X T R)
      → socket_loop_split k t a ≡ some t'
      → is_received t' ≡ true
      → queued t ++ (in_hand t.phase ++ read_by a)
        ≡ queued t' ++ (in_hand t'.phase ++ lost t.phase t'.phase)
  unfolding socket_loop_split
  socket_loop_split_frames k t a t' h r = take_arm-MovesOn k t.phase t a t' h r

  -- A task that has returned takes no arm.
  pub ended_stuck :
      (k : Keepalive) (t : Task X T R) (a : Arm X)
      → is_ended t.phase ≡ true
      → socket_loop_split k t a ≡ none
  unfolding socket_loop_split
  ended_stuck k t a h = ground arith
