-- ===== src/Tests/Calls.antt =====
-- Calls of the handle, and of its halves.
use socketeer.Common.{
  ℕ, String, ◌≡◌, ◌≢◌, ◌+◌, refl, arith, true, false, List, [], ◌∷◌, Option, none, some, ok, err,
}
use socketeer.Message.{Message, Error, text, binary, websocket_error}
use socketeer.Socketeer.Shared.{World}
use socketeer.Socketeer.Sharing.{HalfCall, confirmed, closing, next, polling, calls}
use socketeer.Socketeer.Over.{slot_answers, calls_over}
use socketeer.Codec.{json_codec}
use socketeer.Socketeer.{Socketeer, split, reunite, clone}
use socketeer.Socketeer.Halves.{reunite_own}
use socketeer.Tests.Fixtures.{Outgoing, Frames, view_channel, text_json}

abbrev left_over : List Message
left_over = text "one" ∷ binary (2 ∷ []) ∷ []

-- The loop has ended, two frames wait, and the network's error is recorded.
abbrev dropped_channel : Frames
dropped_channel = record { queue = left_over; capacity = 4; receiving = true; sending = false }

abbrev cause : Option (Error ℕ)
cause = some (websocket_error 9)

-- A handle whose numbers start at `n`.
abbrev handle : ℕ → Socketeer ℕ String String ℕ String (List (ℕ × ℕ))
handle n = record {
  url = "ws://localhost";
  options = record {
    extra_headers = [];
    keepalive_interval = none;
    custom_keepalive_message = none;
  };
  codec = json_codec text_json;
  handler = 5;
  receiver = n;
  sender = n + 1;
  socket_handle = n + 2;
  terminal_error = n + 3;
}

slots_differ : (handle 0).terminal_error ≢ (handle 4).terminal_error
slots_differ = omega arith

reunite_own_example :
    (reunite (split (handle 0)).1 (split (handle 0)).0 ≡ ok (handle 0))
    × (reunite (split (handle 0)).1 (clone (split (handle 0)).0) ≡ ok (handle 0))
    × (reunite (split (handle 0)).1 (split (handle 4)).0
        ≡ err (record { tx = (split (handle 4)).0; rx = (split (handle 0)).1 }))
    × (reunite (split (handle 4)).1 (split (handle 0)).0
        ≡ err (record { tx = (split (handle 0)).0; rx = (split (handle 4)).1 }))
reunite_own_example = reunite_own (handle 0) (handle 4) slots_differ

-- The sending end of the same connection.
abbrev dropped_sender : Outgoing
dropped_sender = record { queue = []; capacity = 4; receiving = false; sending = true }

abbrev emptied_channel : Frames
emptied_channel = record { queue = []; capacity = 4; receiving = true; sending = false }

-- The objects of that connection, with handles to other connections about.
abbrev over : World ℕ Outgoing Frames
over = record {
  outgoing = λ _. dropped_sender;
  incoming = λ _. emptied_channel;
  slots = λ _. cause;
}

-- A receive gets the cause; the calls behind it do not.
abbrev late_calls : List (HalfCall ℕ String Outgoing Frames)
late_calls = closing 1 ∷ next ∷ confirmed "hi" 2 ∷ polling ∷ []

calls_over_example :
    (calls (handle 0) late_calls over).1
    ≡ slot_answers (handle 0).codec (over.slots (handle 0).terminal_error) late_calls
calls_over_example =
    calls_over (handle 0) late_calls over (refl, refl, refl) (tt, (tt, (tt, (tt, tt))))
