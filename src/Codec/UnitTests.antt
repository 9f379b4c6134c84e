-- ===== src/Codec/UnitTests.antt =====
-- src/codec.rs: those of its unit tests that encode or decode, each as a Boolean: a test is false
-- where it panics. What serde makes of the type of the tests, and the equality of tungstenite's
-- messages, are parameters.
use package.text.Mathlib.Text.{◌==◌ as str_eq}
use Prim.Native.String.{len, find}
use socketeer.Common.{
  ℕ, String, ◌≡◌, refl, Bool, true, false, ◌&&◌, ◌==◌, leb, List, [], ◌∷◌, All, Result, ok, err,
}
use socketeer.Message.{Message, text, binary, ping, Bytes, Error, codec_error}
use socketeer.Codec.{Json, MsgPack, json_codec, msgpack_codec, raw_codec}
use socketeer.Codec.Laws.{is_unexpected, is_binary}

pub record TestMsg : Type 0 where
  pub id : ℕ
  pub name : String

abbrev pub sample : TestMsg
sample = record { id = 42; name = "hello" }

-- The derived `PartialEq`.
abbrev pub same_msg : TestMsg → TestMsg → Bool
same_msg a b = a.id == b.id && str_eq a.name b.name

-- Rust's `str::contains`.
abbrev contains : String → String → Bool
contains s part = leb (find s part) (len s)

abbrev text_contains : String → Message → Bool
text_contains part (text t) = contains t part
text_contains part _ = false

-- `Result::unwrap` and `Result::unwrap_err` in a test.
abbrev unwrap_then : {A E : Type 0} → Result A E → (A → Bool) → Bool
unwrap_then (ok a) check = check a
unwrap_then (err e) check = false

abbrev is_codec_error : {A X : Type 0} → Result A (Error X) → Bool
is_codec_error (err (codec_error x)) = true
is_codec_error _ = false

-- `serde_json` with `to_vec`, and `rmp_serde`, at the type of the tests.
pub record Serde (X : Type 0) : Type 0 where
  pub json : Json X TestMsg TestMsg
  pub to_vec : TestMsg → Result Bytes X
  pub msgpack : MsgPack X TestMsg TestMsg

-- b"not msgpack"
abbrev not_msgpack : Bytes
not_msgpack = 110 ∷ 111 ∷ 116 ∷ 32 ∷ 109 ∷ 115 ∷ 103 ∷ 112 ∷ 97 ∷ 99 ∷ 107 ∷ []

-- b"raw bytes"
abbrev raw_bytes : Bytes
raw_bytes = 114 ∷ 97 ∷ 119 ∷ 32 ∷ 98 ∷ 121 ∷ 116 ∷ 101 ∷ 115 ∷ []

-- b"ping"
abbrev ping_bytes : Bytes
ping_bytes = 112 ∷ 105 ∷ 110 ∷ 103 ∷ []

module _ {X : Type 0} (s : Serde X) where
  pub json_codec_encodes_to_text : Bool
  json_codec_encodes_to_text =
      unwrap_then ((json_codec s.json).encode sample)
        (λ m. text_contains "\"id\":42" m && text_contains "\"name\":\"hello\"" m)

  pub json_codec_round_trips_text : Bool
  json_codec_round_trips_text =
      unwrap_then ((json_codec s.json).encode sample)
        (λ m. unwrap_then ((json_codec s.json).decode m) (λ value. same_msg value sample))

  pub json_codec_decodes_binary_for_back_compat : Bool
  json_codec_decodes_binary_for_back_compat =
      unwrap_then (s.to_vec sample)
        (λ bytes. unwrap_then ((json_codec s.json).decode (binary bytes)) (λ m. same_msg m sample))

  pub json_codec_rejects_ping_frame : Bool
  json_codec_rejects_ping_frame = is_unexpected ((json_codec s.json).decode (ping []))

  pub json_codec_surfaces_decode_failure_as_codec_error : Bool
  json_codec_surfaces_decode_failure_as_codec_error =
      is_codec_error ((json_codec s.json).decode (text "not json"))

  pub msgpack_codec_encodes_to_binary : Bool
  msgpack_codec_encodes_to_binary = unwrap_then ((msgpack_codec s.msgpack).encode sample) is_binary

  pub msgpack_codec_round_trips_binary : Bool
  msgpack_codec_round_trips_binary =
      unwrap_then ((msgpack_codec s.msgpack).encode sample)
        (λ m. unwrap_then ((msgpack_codec s.msgpack).decode m) (λ value. same_msg value sample))

  pub msgpack_codec_rejects_text_frame : Bool
  msgpack_codec_rejects_text_frame =
      is_unexpected ((msgpack_codec s.msgpack).decode (text "not msgpack"))

  pub msgpack_codec_surfaces_decode_failure_as_codec_error : Bool
  msgpack_codec_surfaces_decode_failure_as_codec_error =
      is_codec_error ((msgpack_codec s.msgpack).decode (binary not_msgpack))

module _ (X : Type 0) (same : Message → Message → Bool) where
  -- The two assertions of a test that a frame passes through the codec.
  round_trips : Message → Bool
  round_trips m =
      unwrap_then ((raw_codec {X = X}).encode m) (λ m'. same m' m)
      && unwrap_then ((raw_codec {X = X}).decode m) (λ m'. same m' m)

  pub raw_codec_round_trips_text : Bool
  unfolding round_trips
  raw_codec_round_trips_text = round_trips (text "raw text")

  pub raw_codec_round_trips_binary : Bool
  unfolding round_trips
  raw_codec_round_trips_binary = round_trips (binary raw_bytes)

  pub raw_codec_passes_protocol_frames_through : Bool
  raw_codec_passes_protocol_frames_through =
      unwrap_then ((raw_codec {X = X}).decode (ping ping_bytes)) (λ m. same m (ping ping_bytes))

module _ {X : Type 0} (s : Serde X) (same : Message → Message → Bool) where
  -- The unit tests of the file that encode or decode, in its order.
  abbrev pub codec_tests : List Bool
  codec_tests =
      json_codec_encodes_to_text s
      ∷ json_codec_round_trips_text s
      ∷ json_codec_decodes_binary_for_back_compat s
      ∷ json_codec_rejects_ping_frame s
      ∷ json_codec_surfaces_decode_failure_as_codec_error s
      ∷ msgpack_codec_encodes_to_binary s
      ∷ msgpack_codec_round_trips_binary s
      ∷ msgpack_codec_rejects_text_frame s
      ∷ msgpack_codec_surfaces_decode_failure_as_codec_error s
      ∷ raw_codec_round_trips_text X same
      ∷ raw_codec_round_trips_binary X same
      ∷ raw_codec_passes_protocol_frames_through X same
      ∷ []

  -- The unit tests of the codecs that encode or decode (those of `Debug`, `Default` and `Clone` are
  -- not among them) pass with any serde that behaves on the value of the tests as it is documented:
  -- `serde_json` writes it as an object of its fields in order, and reads it back from that text and
  -- from the bytes that `to_vec` makes; `rmp_serde` reads back what it wrote; and neither reads the
  -- two bodies that are no such value. The equality of messages is to be reflexive.
  pub codec_tests_pass :
      (bytes packed : Bytes) (x y : X)
      → ((m : Message) → same m m ≡ true)
      → s.json.to_string sample ≡ ok "{\"id\":42,\"name\":\"hello\"}"
      → s.json.from_str "{\"id\":42,\"name\":\"hello\"}" ≡ ok sample
      → s.to_vec sample ≡ ok bytes
      → s.json.from_slice bytes ≡ ok sample
      → s.json.from_str "not json" ≡ err x
      → s.msgpack.to_vec_named sample ≡ ok packed
      → s.msgpack.from_slice packed ≡ ok sample
      → s.msgpack.from_slice not_msgpack ≡ err y
      → All (λ passes. passes ≡ true) codec_tests
  unfolding json_codec msgpack_codec raw_codec json_codec_encodes_to_text
      json_codec_round_trips_text json_codec_decodes_binary_for_back_compat
      json_codec_rejects_ping_frame json_codec_surfaces_decode_failure_as_codec_error
      msgpack_codec_encodes_to_binary msgpack_codec_round_trips_binary
      msgpack_codec_rejects_text_frame msgpack_codec_surfaces_decode_failure_as_codec_error
      raw_codec_round_trips_text raw_codec_round_trips_binary
      raw_codec_passes_protocol_frames_through
  codec_tests_pass bytes packed x y eq w r v b n p u q = (
    rw w refl,
    (
      rw (w, r) refl,
      (
        rw (v, b) refl,
        (
          refl,
          (
            rw n refl,
            (
              rw p refl,
              (
                rw (p, u) refl,
                (
                  refl,
                  (
                    rw q refl,
                    (
                      rw (eq (text "raw text")) refl,
                      (rw (eq (binary raw_bytes)) refl, (eq (ping ping_bytes), tt)),
                    ),
                  ),
                ),
              ),
            ),
          ),
        ),
      ),
    ),
  )
