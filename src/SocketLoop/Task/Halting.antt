-- ===== src/SocketLoop/Task/Halting.antt =====
-- src/socket_loop.rs: what becomes of the loop once nobody can send to it any more.
use socketeer.Common.{
  ◌≡◌, ◌⊎◌, ◌∙◌, inl, inr, refl, ℕ, zero, suc, ◌≤◌, true, false, List, [], ◌∷◌, Option, none, some,
  arith, length, Option-cases, Bool-cases,
}
use socketeer.Message.{Message, dropped_without_closing}
use socketeer.Runtime.Channel.{Mpsc}
use socketeer.SocketLoop.Handlers.{TxChannelPayload, error, send_socket_message}
use socketeer.SocketLoop.Task.Frames.{is_ended}
use socketeer.SocketLoop.Task.{
  ended, Keepalive, Task, outgoing, socket_loop_split, continue, still_holding, finish,
}

module _ {X T R : Type 0} ⦃tx : Mpsc TxChannelPayload T⦄ ⦃rx : Mpsc Message R⦄ where
  -- The outgoing arm, a number of times.
  unfoldable pub outgoing_times : Keepalive → ℕ → Task X T R → Option (Task X T R)
  unfolding socket_loop_split
  outgoing_times k zero t = some t
  outgoing_times k (suc n) t = elim (socket_loop_split k t outgoing) [
    | none ↦ none
    | some t' ↦ outgoing_times k n t'
  ]

  -- Nobody can send, and `q` waits.
  abbrev Deserted : Task X T R → List TxChannelPayload → Type 0
  Deserted t q = ((tx.view t.receiver).queue ≡ q) × ((tx.view t.receiver).sending ≡ false)

  abbrev Moves : Keepalive → Task X T R → (Task X T R → Type 0) → Type 0
  Moves k t P = (t' : Task X T R) × (socket_loop_split k t outgoing ≡ some t') × P t'

  last_arm :
      (k : Keepalive) (t : Task X T R)
      → is_ended t.phase ≡ false
      → Deserted t []
      → Moves k t (λ t'. t'.phase ≡ ended (error dropped_without_closing))
  unfolding socket_loop_split continue still_holding send_socket_message finish
  last_arm k t h d = elim (Option-cases (socket_loop_split k t outgoing)) [
    | inl stuck ↦ absurd (ground (arith, tx.result-recv t.receiver))
    | inr (t', e) ↦ (t', e, ground (arith, tx.result-recv t.receiver))
  ]

  next_arm :
      (k : Keepalive) (t : Task X T R) (p : TxChannelPayload) (q : List TxChannelPayload)
      → is_ended t.phase ≡ false
      → Deserted t (p ∷ q)
      → Moves k t (λ t'. (is_ended t'.phase ≡ true) ⊎ Deserted t' q)
  unfolding socket_loop_split continue still_holding finish
  next_arm k t p q h d = elim (Option-cases (socket_loop_split k t outgoing)) [
    | inl stuck ↦ absurd (ground (arith, tx.result-recv t.receiver))
    | inr (t', e) ↦ (t', e, ground (arith, tx.result-recv t.receiver, tx.view-recv t.receiver))
  ]

  outgoing_times-suc :
      (k : Keepalive) (n : ℕ) (t t' : Task X T R)
      → socket_loop_split k t outgoing ≡ some t'
      → outgoing_times k (suc n) t ≡ outgoing_times k n t'
  unfolding outgoing_times
  outgoing_times-suc k n t t' e = ground arith

  -- Once every sending end has been dropped, a loop that runs ends, whatever the sink answers and
  -- whether or not it has a frame in hand: the outgoing arm is ready until then, and is taken at most
  -- once for each payload that waits, and once more.
  pub outgoing_times_ends :
      (k : Keepalive) (q : List TxChannelPayload) (t : Task X T R)
      → (tx.view t.receiver).queue ≡ q
      → (tx.view t.receiver).sending ≡ false
      → is_ended t.phase ≡ false
      → (n : ℕ) × (t' : Task X T R) × (n ≤ suc (length q))
        × (outgoing_times k n t ≡ some t')
        × (is_ended t'.phase ≡ true)
  unfolding outgoing_times
  outgoing_times_ends k [] t e s h =
      let (t', moved, over) = last_arm k t h (e, s) in
      (1, t', omega arith, outgoing_times-suc k 0 t t' moved, rw over refl)
  outgoing_times_ends k (p ∷ q) t e s h =
      let (t1, moved, left) = next_arm k t p q h (e, s) in
      elim left [
        | inl over ↦ (1, t1, omega arith, outgoing_times-suc k 0 t t1 moved, over)
        | inr d ↦ elim (Bool-cases (is_ended t1.phase)) [
          | inl over ↦ (1, t1, omega arith, outgoing_times-suc k 0 t t1 moved, over)
          | inr going ↦
              let (n, t', few, later, over) = outgoing_times_ends k q t1 d.0 d.1 going in
              (suc n, t', omega arith, outgoing_times-suc k n t t1 moved ∙ later, over)
        ]
      ]
