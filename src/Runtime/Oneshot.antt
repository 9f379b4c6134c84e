-- ===== src/Runtime/Oneshot.antt =====
-- tokio's `oneshot` channels, each known by a number. A `send` reaches the caller if it still awaits,
-- and fails if the receiving end has been dropped.
use socketeer.Common.{ℕ, Bool, true, false, List, [], ◌∷◌, Option, none, some, ◌==◌, if◌then◌else◌}

pub record Oneshots (R : Type 0) : Type 0 where
  pub awaited : ℕ → Bool
  pub answered : List (ℕ × R)  -- newest first

module _ {R : Type 0} where
  -- The store after the send, and whether the send failed.
  abbrev pub oneshot_send : Oneshots R → ℕ → R → Oneshots R × Bool
  oneshot_send o id r =
      if o.awaited id then (record o { answered = (id, r) ∷ o.answered }, false) else (o, true)

  abbrev pub answer_to : ℕ → List (ℕ × R) → Option R
  answer_to id [] = none
  answer_to id ((j, r) ∷ l) = if j == id then some r else answer_to id l

  -- The caller stops waiting: its end of the channel is dropped.
  abbrev pub forget : Oneshots R → ℕ → Oneshots R
  forget o id = record o { awaited = λ j. if j == id then false else o.awaited j }
