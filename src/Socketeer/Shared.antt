-- ===== src/Socketeer/Shared.antt =====
-- The objects that handles share with each other and with their tasks, by their numbers: the channels
-- and the slots. A handle is only numbers, so that halves and clones with the same numbers act on the
-- same objects.
use socketeer.Common.{ℕ, ◌==◌, if◌then◌else◌}
use socketeer.Handle.Calls.{TerminalError}

pub record World (X T R : Type 0) : Type 0 where
  pub outgoing : ℕ → T
  pub incoming : ℕ → R
  pub slots : ℕ → TerminalError X

abbrev pub update : {A : Type 0} → (ℕ → A) → ℕ → A → ℕ → A
update f n a j = if n == j then a else f j

module _ {X T R A : Type 0} where
  -- A call on the outgoing channel `n` and the slot `e`.
  abbrev pub sending :
      ℕ → ℕ → (T → TerminalError X → T × TerminalError X × A) → World X T R → World X T R × A
  sending n e act w =
      let (c, slot, a) = act (w.outgoing n) (w.slots e) in
      (record w { outgoing = update w.outgoing n c; slots = update w.slots e slot }, a)

  -- A call on the incoming channel `n` and the slot `e`.
  abbrev pub receiving :
      ℕ → ℕ → (R → TerminalError X → R × TerminalError X × A) → World X T R → World X T R × A
  receiving n e act w =
      let (c, slot, a) = act (w.incoming n) (w.slots e) in
      (record w { incoming = update w.incoming n c; slots = update w.slots e slot }, a)

-- A change of both channels and the slot.
abbrev pub changing :
    {X T R : Type 0}
    → ℕ
    → ℕ
    → ℕ
    → (T → R → TerminalError X → T × R × TerminalError X)
    → World X T R
    → World X T R
changing n m e f w =
    let (c, d, slot) = f (w.outgoing n) (w.incoming m) (w.slots e) in
    record {
      outgoing = update w.outgoing n c;
      incoming = update w.incoming m d;
      slots = update w.slots e slot;
    }
