-- ===== src/Tests/Libraries.antt =====
-- A stand-in for serde, at the values of the unit tests.
use package.text.Mathlib.Text.{◌==◌ as str_eq}
use package.text.Mathlib.TextPositions.{eq_refl}
use socketeer.Common.{
  ℕ, String, ◌≡◌, refl, Bool, true, false, ◌&&◌, ◌==◌, ==_refl, [], ◌∷◌, All, ok, err,
  if◌then◌else◌,
}
use socketeer.Message.{Message, text, binary, ping, pong, frame, close, Bytes}
use socketeer.Codec.UnitTests.{sample, same_msg, Serde, codec_tests, codec_tests_pass}

abbrev same_bytes : Bytes → Bytes → Bool
same_bytes [] [] = true
same_bytes (a ∷ xs) (b ∷ bs) = a == b && same_bytes xs bs
same_bytes [] (b ∷ bs) = false
same_bytes (a ∷ xs) [] = false

-- Close frames are not told apart.
abbrev same_message : Message → Message → Bool
same_message (text s) (text t) = str_eq s t
same_message (binary b) (binary c) = same_bytes b c
same_message (ping b) (ping c) = same_bytes b c
same_message (pong b) (pong c) = same_bytes b c
same_message (frame b) (frame c) = same_bytes b c
same_message (close a) (close b) = true
same_message m m' = false

same_bytes_refl : (b : Bytes) → same_bytes b b ≡ true
same_bytes_refl [] = refl
same_bytes_refl (a ∷ xs) = rw (==_refl a, same_bytes_refl xs) refl

same_message_refl : (m : Message) → same_message m m ≡ true
same_message_refl (text s) = eq_refl s
same_message_refl (binary b) = same_bytes_refl b
same_message_refl (ping b) = same_bytes_refl b
same_message_refl (pong b) = same_bytes_refl b
same_message_refl (frame b) = same_bytes_refl b
same_message_refl (close a) = refl

abbrev sample_text : String
sample_text = "{\"id\":42,\"name\":\"hello\"}"

abbrev serde : Serde ℕ
serde = record {
  json = record {
    to_string = λ m. if same_msg m sample then ok sample_text else err 1;
    from_str = λ t. if str_eq t sample_text then ok sample else err 2;
    from_slice = λ b. if same_bytes b (1 ∷ []) then ok sample else err 3;
  };
  to_vec = λ m. if same_msg m sample then ok (1 ∷ []) else err 4;
  msgpack = record {
    to_vec_named = λ m. if same_msg m sample then ok (2 ∷ 3 ∷ []) else err 5;
    from_slice = λ b. if same_bytes b (2 ∷ 3 ∷ []) then ok sample else err 6;
  };
}

codec_tests_pass_example : All (λ passes. passes ≡ true) (codec_tests serde same_message)
codec_tests_pass_example =
    codec_tests_pass serde same_message (1 ∷ []) (2 ∷ 3 ∷ []) 2 6 same_message_refl refl refl refl
      refl refl refl refl refl
