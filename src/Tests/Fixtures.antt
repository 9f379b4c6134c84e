-- ===== src/Tests/Fixtures.antt =====
-- Stand-ins for the parameters: channels that are their own view, a network that answers, and libraries
-- that read and write values. A foreign error is a number.
use socketeer.Common.{
  ℕ, String, ◌≡◌, refl, true, false, List, [], ◌∷◌, none, some, ok, err, if◌then◌else◌, ◌==◌, arith,
}
use socketeer.Message.{Message, Bytes}
use socketeer.Runtime.Channel.{
  ChannelSize, Mpsc, ChannelView, pushed, try_send_view, reserve_view, recv_from,
}
use socketeer.Runtime.Sink.{Sink}
use socketeer.SocketLoop.Handlers.{Outputs, TxChannelPayload}
use socketeer.SocketLoop.Task.{Keepalive}
use socketeer.Codec.{Json, MsgPack}
use socketeer.Config.{HeaderMap, ClientRequest}

instance abbrev pub view_channel : {A : Type 0} → Mpsc A (ChannelView A)
view_channel = record {
  view = λ c. c;
  channel = λ n. record { queue = []; capacity = n.size; receiving = true; sending = true };
  try_send = try_send_view;
  reserve = reserve_view;
  permit_send = pushed;
  recv = λ c. recv_from c.queue c;
  drop_receiver = λ c. record c { queue = []; receiving = false };
  drop_senders = λ c. record c { sending = false };
  view-channel = λ n. refl;
  view-try_send = λ c a. refl;
  result-try_send = λ c a. refl;
  reserve_lem = λ c. refl;
  view-permit_send = λ c a. refl;
  view-recv = λ c. refl;
  result-recv = λ c. refl;
  view-drop_receiver = λ c. refl;
  view-drop_senders = λ c. refl;
}

abbrev pub Outgoing : Type 0
Outgoing = ChannelView TxChannelPayload

abbrev pub Frames : Type 0
Frames = ChannelView Message

abbrev pub one_place : ChannelSize
one_place = record { size = 1; positive = omega arith }

abbrev pub four_places : ChannelSize
four_places = record { size = 4; positive = omega arith }

-- A network that accepts everything.
abbrev pub open_sink : Sink ℕ
open_sink = record { calls = []; answer = λ _ _. ok tt }

abbrev pub outputs : Outputs ℕ
outputs = record { sink = open_sink; oneshots = record { awaited = λ _. true; answered = [] } }

abbrev pub every_two_seconds : Keepalive
every_two_seconds = record { interval = some 2000; message = none }

-- Texts that are their own JSON.
abbrev pub text_json : Json ℕ String String
text_json = record { to_string = ok; from_str = ok; from_slice = λ _. err 1 }

abbrev pub bytes_pack : MsgPack ℕ Bytes Bytes
bytes_pack = record { to_vec_named = ok; from_slice = ok }

-- A multimap from numbers to numbers, as a list of pairs.
abbrev values_of : List (ℕ × ℕ) → ℕ → List ℕ
values_of [] j = []
values_of ((k, v) ∷ l) j = let others = values_of l j in if k == j then v ∷ others else others

abbrev without : List (ℕ × ℕ) → ℕ → List (ℕ × ℕ)
without [] j = []
without ((k, v) ∷ l) j = let others = without l j in if k == j then others else (k, v) ∷ others

values_of-without :
    (l : List (ℕ × ℕ)) (k j : ℕ)
    → values_of (without l k) j ≡ (if k == j then [] else values_of l j)
values_of-without [] k j = ground arith
values_of-without ((i, v) ∷ l) k j = ground (arith, values_of-without l k j)

pub values_of-insert :
    (l : List (ℕ × ℕ)) (k j v : ℕ)
    → values_of ((k, v) ∷ without l k) j ≡ (if k == j then v ∷ [] else values_of l j)
values_of-insert l k j v = ground (arith, values_of-without l k j)

abbrev pub header_list : HeaderMap ℕ ℕ (List (ℕ × ℕ))
header_list = record {
  same_name = ◌==◌;
  empty = [];
  insert = λ h k v. (k, v) ∷ without h k;
  get_all = values_of;
  entries = λ h. h;
  get_all-empty = λ j. refl;
  get_all-insert = values_of-insert;
}

-- A request is its headers; name 7 is set by tungstenite.
abbrev pub plain_request : ClientRequest ℕ (List (ℕ × ℕ)) (List (ℕ × ℕ))
plain_request = record {
  into_client_request = λ _. ok ((7, 70) ∷ []);
  headers = λ q. q;
  set_headers = λ _ h. h;
  headers-set_headers = λ q h. refl;
}
