-- ===== src/Connection/Flushing.antt =====
-- The payloads that have been written and those that wait: what each step keeps.
use socketeer.Common.{
  ◌≡◌, ◌⊎◌, inl, inr, refl, sym, ap, ◌∙◌, ℕ, true, false, List, [], ◌∷◌, ◌++◌, some, arith, any,
  append_assoc,
}
use socketeer.Message.{Message, is_data, data_frames, data_frames-append}
use socketeer.Runtime.Channel.{Mpsc}
use socketeer.Runtime.Sink.{Sink, written}
use socketeer.Runtime.Oneshot.{answer_to}
use socketeer.SocketLoop.Handlers.{TxChannelPayload, keepalive_frame}
use socketeer.SocketLoop.Task.{
  Keepalive, Task, Arm, outgoing, sleep, permit, incoming, socket_loop_split,
}
use socketeer.SocketLoop.Task.Frames.{is_ended}
use socketeer.SocketLoop.Task.Readiness.{is_some}
use socketeer.Connection.Waiting.{carries}
use socketeer.Connection.Served.{any-append}
use socketeer.Connection.{Connection}
use socketeer.Connection.Effects.{
  data_of, data_of-append, has_answer, Writes, outgoing-Writes, Spares, none_left-Spares,
  other-Spares, Calls,
}

module _ {X T R : Type 0} ⦃tx : Mpsc TxChannelPayload T⦄ ⦃rx : Mpsc Message R⦄ where
  -- Of the payloads `ps`, those in `taken` have been written, behind `before`, and a call that has been
  -- answered is among them; while the loop goes on, the others wait.
  abbrev pub Flushed : ℕ → List Message → List TxChannelPayload → Task X T R → Type 0
  Flushed id before ps t =
      (taken rest : List TxChannelPayload) × (ps ≡ taken ++ rest)
      × (data_frames (written t.sink.calls) ≡ before ++ data_of taken)
      × (has_answer id t ≡ true → any (carries id) taken ≡ true)
      × ((is_ended t.phase ≡ true) ⊎ ((tx.view t.receiver).queue ≡ rest))

  Writes-Flushed :
      (id : ℕ) (before : List Message) (ps : List TxChannelPayload) (p : TxChannelPayload)
      (q : List TxChannelPayload) (t t' : Task X T R)
      → (tx.view t.receiver).queue ≡ p ∷ q
      → is_ended t.phase ≡ false
      → Writes id p q t t'
      → Flushed id before ps t
      → Flushed id before ps t'
  unfolding Writes
  Writes-Flushed id before ps p q t t' v g (calls, answers, queue)
        (taken, rest, all, wrote, among, inl over) =
      absurd (ground arith)
  Writes-Flushed id before ps p q t t' v g (calls, answers, queue)
        (taken, rest, all, wrote, among, inr waits) =
      (
        taken ++ p ∷ [],
        q,
        all ∙ ap (λ l. taken ++ l) (sym waits ∙ v) ∙ sym (append_assoc taken (p ∷ []) q),
        ap (λ l. data_frames (written l)) calls
            ∙ data_frames-append (written t.sink.calls) (p.message ∷ [])
            ∙ ap (λ l. l ++ data_of (p ∷ [])) wrote
            ∙ append_assoc before (data_of taken) (data_of (p ∷ []))
            ∙ ap (λ l. before ++ l) (sym (data_of-append taken (p ∷ []))),
        (λ h. rw (any-append (carries id) taken (p ∷ [])) (ground (arith, among, answers h))),
        queue,
      )

  Spares-Flushed :
      (id : ℕ) (before : List Message) (ps : List TxChannelPayload) (t t' : Task X T R)
      → is_ended t.phase ≡ false
      → Spares t t'
      → Flushed id before ps t
      → Flushed id before ps t'
  unfolding Spares
  Spares-Flushed id before ps t t' g (calls, answers, queue)
        (taken, rest, all, wrote, among, inl over) =
      absurd (ground arith)
  Spares-Flushed id before ps t t' g (calls, answers, queue)
        (taken, rest, all, wrote, among, inr waits) =
      (
        taken,
        rest,
        all,
        calls ∙ wrote,
        (λ h. among (ap (λ l. is_some (answer_to id l)) (sym answers) ∙ h)),
        elim queue [ inl over ↦ inl over | inr same ↦ inr (same ∙ waits) ],
      )

  pub Calls-Flushed :
      (id : ℕ) (before : List Message) (ps qs : List TxChannelPayload) (c c' : Connection X T R)
      → Calls c c' qs
      → Flushed id before ps c.task
      → Flushed id before (ps ++ qs) c'.task
  unfolding Calls
  Calls-Flushed id before ps qs c c' (calls, answers, f, queue)
        (taken, rest, all, wrote, among, waits) =
      (
        taken,
        rest ++ qs,
        ap (λ l. l ++ qs) all ∙ append_assoc taken rest qs,
        ap (λ (s : Sink X). data_frames (written s.calls)) calls ∙ wrote,
        (λ h. among (ap (λ l. is_some (answer_to id l)) (sym answers) ∙ h)),
        elim waits [
          | inl over ↦ inl (ap is_ended f ∙ over)
          | inr same ↦ elim queue [
            | inl over ↦ inl over
            | inr more ↦ inr (more ∙ ap (λ l. l ++ qs) same)
          ]
        ],
      )

  outgoing-Flushed :
      (q : List TxChannelPayload) (k : Keepalive) (id : ℕ) (before : List Message)
      (ps : List TxChannelPayload) (t t' : Task X T R)
      → (tx.view t.receiver).queue ≡ q
      → is_ended t.phase ≡ false
      → socket_loop_split k t outgoing ≡ some t'
      → Flushed id before ps t
      → Flushed id before ps t'
  outgoing-Flushed [] k id before ps t t' v g e h =
      Spares-Flushed id before ps t t' g (none_left-Spares k t t' v e) h
  outgoing-Flushed (p ∷ q) k id before ps t t' v g e h =
      Writes-Flushed id before ps p q t t' v g (outgoing-Writes p q k id t t' v e) h

  pub arm-Flushed :
      (a : Arm X) (k : Keepalive) (id : ℕ) (before : List Message) (ps : List TxChannelPayload)
      (t t' : Task X T R)
      → is_data (keepalive_frame k.message) ≡ false
      → is_ended t.phase ≡ false
      → socket_loop_split k t a ≡ some t'
      → Flushed id before ps t
      → Flushed id before ps t'
  arm-Flushed outgoing k id before ps t t' ka g e h =
      outgoing-Flushed (tx.view t.receiver).queue k id before ps t t' refl g e h
  arm-Flushed sleep k id before ps t t' ka g e h =
      Spares-Flushed id before ps t t' g (other-Spares k t sleep t' (cc) ka e) h
  arm-Flushed permit k id before ps t t' ka g e h =
      Spares-Flushed id before ps t t' g (other-Spares k t permit t' (cc) ka e) h
  arm-Flushed (incoming i) k id before ps t t' ka g e h =
      Spares-Flushed id before ps t t' g (other-Spares k t (incoming i) t' (cc) ka e) h
