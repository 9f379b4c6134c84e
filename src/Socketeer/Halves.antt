-- ===== src/Socketeer/Halves.antt =====
-- src/split.rs: splitting a handle and putting it together again.
use socketeer.Common.{◌≡◌, ◌≢◌, ok, err, arith, ==_refl}
use socketeer.Socketeer.{Socketeer, split, reunite, clone}

module _ {X Tx Rx S U H : Type 0} where
  reunite-split :
      (s : Socketeer X Tx Rx S U H)
      → (reunite (split s).1 (split s).0 ≡ ok s) × (reunite (split s).1 (clone (split s).0) ≡ ok s)
  unfolding split reunite clone
  reunite-split s = (rw (==_refl s.terminal_error), rw (==_refl s.terminal_error))

  pub reunite_mismatch :
      (a b : Socketeer X Tx Rx S U H)
      → a.terminal_error ≢ b.terminal_error
      → (reunite (split a).1 (split b).0 ≡ err (record { tx = (split b).0; rx = (split a).1 }))
        × (reunite (split b).1 (split a).0 ≡ err (record { tx = (split a).0; rx = (split b).1 }))
  unfolding split reunite
  reunite_mismatch a b h = ground arith

  -- The halves of a handle make up the handle that was split, also with a clone of the send half.
  -- Halves of handles with different slots are not put together: both come back unchanged in the
  -- error.
  pub reunite_own :
      (a b : Socketeer X Tx Rx S U H)
      → a.terminal_error ≢ b.terminal_error
      → (reunite (split a).1 (split a).0 ≡ ok a)
        × (reunite (split a).1 (clone (split a).0) ≡ ok a)
        × (reunite (split a).1 (split b).0 ≡ err (record { tx = (split b).0; rx = (split a).1 }))
        × (reunite (split b).1 (split a).0 ≡ err (record { tx = (split a).0; rx = (split b).1 }))
  reunite_own a b h =
      let (own, cloned) = reunite-split a in
      let (there, back) = reunite_mismatch a b h in (own, cloned, there, back)
