-- ===== src/Codec.antt =====
-- src/codec.rs: the codecs. serde_json and rmp-serde are parameters.
pub mod Laws
pub mod UnitTests
use socketeer.Common.{String, Result, ok, err, map_err, ◌>>=◌}
use socketeer.Message.{Message, text, binary, Bytes, Error, unexpected_message_type, codec_error}

pub record Codec (X Tx Rx : Type 0) : Type 0 where
  pub encode : Tx → Result Message (Error X)
  pub decode : Message → Result Rx (Error X)

-- `serde_json`, at the two types of a connection.
pub record Json (X Tx Rx : Type 0) : Type 0 where
  pub to_string : Tx → Result String X
  pub from_str : String → Result Rx X
  pub from_slice : Bytes → Result Rx X

-- `rmp_serde`.
pub record MsgPack (X Tx Rx : Type 0) : Type 0 where
  pub to_vec_named : Tx → Result Bytes X
  pub from_slice : Bytes → Result Rx X

module _ {X Tx Rx : Type 0} where
  json_encode : Json X Tx Rx → Tx → Result Message (Error X)
  json_encode j value = do s ← map_err codec_error (j.to_string value); ok (text s)

  json_decode : Json X Tx Rx → Message → Result Rx (Error X)
  json_decode j (text s) = map_err codec_error (j.from_str s)
  json_decode j (binary bytes) = map_err codec_error (j.from_slice bytes)
  json_decode j other = err (unexpected_message_type other)

  unfoldable pub json_codec : Json X Tx Rx → Codec X Tx Rx
  unfolding json_encode json_decode
  json_codec j = record { encode = json_encode j; decode = json_decode j }

  msgpack_encode : MsgPack X Tx Rx → Tx → Result Message (Error X)
  msgpack_encode p value = do bytes ← map_err codec_error (p.to_vec_named value); ok (binary bytes)

  msgpack_decode : MsgPack X Tx Rx → Message → Result Rx (Error X)
  msgpack_decode p (binary bytes) = map_err codec_error (p.from_slice bytes)
  msgpack_decode p other = err (unexpected_message_type other)

  unfoldable pub msgpack_codec : MsgPack X Tx Rx → Codec X Tx Rx
  unfolding msgpack_encode msgpack_decode
  msgpack_codec p = record { encode = msgpack_encode p; decode = msgpack_decode p }

unfoldable pub raw_codec : {X : Type 0} → Codec X Message Message
raw_codec = record { encode = λ value. ok value; decode = λ frame. ok frame }
