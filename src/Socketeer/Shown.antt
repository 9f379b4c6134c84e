-- ===== src/Socketeer/Shown.antt =====
-- src/lib.rs, src/split.rs: the `Debug` and `Display` texts of the handle, its halves and the error of
-- `reunite`. The builder of `std::fmt` and the text of an address are parameters.
use socketeer.Common.{String, ◌≡◌, refl, ap, List, [], ◌∷◌}
use socketeer.Socketeer.{Socketeer, SocketeerTx, SocketeerRx, ReuniteError, split}

-- `debug_struct(name)`, `field(name, value)` for each pair, and `finish_non_exhaustive()`.
module _ (debug_struct : String → List (String × String) → String) where
  module _ {X Tx Rx S U H : Type 0} (url_debug : U → String) where
    socketeer_debug : Socketeer X Tx Rx S U H → String
    socketeer_debug s = debug_struct "Socketeer" (("url", url_debug s.url) ∷ [])

    receiver_debug : SocketeerRx X Tx Rx S U H → String
    receiver_debug r = debug_struct "SocketeerRx" (("url", url_debug r.url) ∷ [])

  sender_debug : {X Tx Rx : Type 0} → SocketeerTx X Tx Rx → String
  sender_debug t = debug_struct "SocketeerTx" []

  abbrev pub reunite_debug : {X Tx Rx S U H : Type 0} → ReuniteError X Tx Rx S U H → String
  reunite_debug e = debug_struct "ReuniteError" []

  module _ {X Tx Rx S U H : Type 0} (url_debug : U → String) where
    -- A handle, and its halves, show their address and nothing else: the headers of the options, the
    -- handler and the codec, which may hold credentials, do not show.
    shows_address :
        (s s' : Socketeer X Tx Rx S U H)
        → s.url ≡ s'.url
        → (socketeer_debug url_debug s ≡ socketeer_debug url_debug s')
          × (sender_debug (split s).0 ≡ sender_debug (split s').0)
          × (receiver_debug url_debug (split s).1 ≡ receiver_debug url_debug (split s').1)
    unfolding socketeer_debug receiver_debug sender_debug split
    shows_address s s' e = (
      ap (λ u. debug_struct "Socketeer" (("url", url_debug u) ∷ [])) e,
      refl,
      ap (λ u. debug_struct "SocketeerRx" (("url", url_debug u) ∷ [])) e,
    )

abbrev pub reunite_display : {X Tx Rx S U H : Type 0} → ReuniteError X Tx Rx S U H → String
reunite_display e = "tried to reunite a SocketeerTx and SocketeerRx from different connections"
