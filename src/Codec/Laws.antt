-- ===== src/Codec/Laws.antt =====
-- What a peer that sends a frame back makes the program see, codec by codec; and which frames a codec
-- refuses.
use socketeer.Common.{String, ◌≡◌, ◌⊎◌, Bool, true, false, not, some, Result, ok, err, arith}
use socketeer.Message.{Message, binary, Bytes, Error, is_data, unexpected_message_type}
use socketeer.Runtime.Sink.{Sink}
use socketeer.SocketLoop.Handlers.{deliver, handle_incoming}
use socketeer.Codec.{Json, MsgPack, json_codec, msgpack_codec}

abbrev pub is_unexpected : {A X : Type 0} → Result A (Error X) → Bool
is_unexpected (err (unexpected_message_type m)) = true
is_unexpected _ = false

abbrev pub is_binary : Message → Bool
is_binary (binary b) = true
is_binary _ = false

module _ {X A : Type 0} where
  json_echo :
      (j : Json X A A) (value : A) (s : String) (m : Message) (sink : Sink X)
      → j.to_string value ≡ ok s
      → j.from_str s ≡ ok value
      → (json_codec j).encode value ≡ ok m
      → (handle_incoming (some (ok m)) sink ≡ (sink, deliver m))
        × ((json_codec j).decode m ≡ ok value)
  unfolding json_codec handle_incoming
  json_echo j value s m sink w r e = ground arith

  msgpack_echo :
      (p : MsgPack X A A) (value : A) (b : Bytes) (m : Message) (sink : Sink X)
      → p.to_vec_named value ≡ ok b
      → p.from_slice b ≡ ok value
      → (msgpack_codec p).encode value ≡ ok m
      → (handle_incoming (some (ok m)) sink ≡ (sink, deliver m))
        × ((msgpack_codec p).decode m ≡ ok value)
  unfolding msgpack_codec handle_incoming
  msgpack_echo p value b m sink w r e = ground arith

  -- If `from_str` reads back the text that `to_string` wrote for a value, then a frame that the JSON
  -- codec made of that value, sent back by the peer, is handed to the consumer untouched and decodes to
  -- the value. The same holds of the MessagePack codec, if `from_slice` reads back what `to_vec_named`
  -- wrote.
  pub echoes_decode :
      (j : Json X A A) (p : MsgPack X A A) (value : A) (s : String) (b : Bytes) (m m' : Message)
      (sink : Sink X)
      → j.to_string value ≡ ok s
      → j.from_str s ≡ ok value
      → (json_codec j).encode value ≡ ok m
      → p.to_vec_named value ≡ ok b
      → p.from_slice b ≡ ok value
      → (msgpack_codec p).encode value ≡ ok m'
      → (handle_incoming (some (ok m)) sink ≡ (sink, deliver m))
        × ((json_codec j).decode m ≡ ok value)
        × (handle_incoming (some (ok m')) sink ≡ (sink, deliver m'))
        × ((msgpack_codec p).decode m' ≡ ok value)
  echoes_decode j p value s b m m' sink w r e w' r' e' =
      let (handed, decoded) = json_echo j value s m sink w r e in
      let (handed', decoded') = msgpack_echo p value b m' sink w' r' e' in
      (handed, decoded, handed', decoded')

module _ {X Tx Rx Tx' Rx' : Type 0} where
  -- The JSON codec refuses exactly the frames that are neither text nor binary, and the MessagePack
  -- codec exactly those that are not binary; either hands the refused frame back in the error.
  codec_refusals :
      (j : Json X Tx Rx) (p : MsgPack X Tx' Rx') (m : Message)
      → (is_unexpected ((json_codec j).decode m) ≡ not (is_data m))
        × ((is_data m ≡ true) ⊎ ((json_codec j).decode m ≡ err (unexpected_message_type m)))
        × (is_unexpected ((msgpack_codec p).decode m) ≡ not (is_binary m))
        × ((is_binary m ≡ true) ⊎ ((msgpack_codec p).decode m ≡ err (unexpected_message_type m)))
  unfolding json_codec msgpack_codec
  codec_refusals j p m = ground arith
