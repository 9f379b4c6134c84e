-- ===== src/Message.antt =====
-- The frames that the crate exchanges, as it matches on them, and its error type (src/error.rs).
-- Payloads are texts and lists of bytes. `frame` is tungstenite's raw variant, which the crate only
-- meets under a catch-all pattern.
pub mod Display
use socketeer.Common.{
  ℕ, String, ◌≡◌, refl, Bool, true, false, List, [], ◌∷◌, ◌++◌, Option, arith, if◌then◌else◌,
}

pub data CloseCode : Type 0 where
  normal : CloseCode
  other_code : ℕ → CloseCode

pub record CloseFrame : Type 0 where
  pub code : CloseCode
  pub reason : String

abbrev pub Bytes : Type 0
Bytes = List ℕ

pub data Message : Type 0 where
  text : String → Message
  binary ping pong frame : Bytes → Message
  close : Option CloseFrame → Message

-- The consumer sees text and binary frames; the other frames belong to the protocol.
abbrev pub is_data : Message → Bool
is_data (text s) = true
is_data (binary b) = true
is_data _ = false

-- The text and binary frames among some frames.
abbrev pub data_frames : List Message → List Message
data_frames [] = []
data_frames (m ∷ ms) = let others = data_frames ms in if is_data m then m ∷ others else others

pub data_frames-append :
    (xs ys : List Message) → data_frames (xs ++ ys) ≡ data_frames xs ++ data_frames ys
data_frames-append [] ys = refl
data_frames-append (x ∷ xs) ys = ground (arith, data_frames-append xs ys)

-- `X` is the type of the error values that come from other crates: `url::ParseError`,
-- `tungstenite::Error`, and the boxed error of a codec.
pub data Error (X : Type 0) : Type 0 where
  url_parse : String → X → Error X
  websocket_error : X → Error X
  websocket_closed : Error X
  unexpected_message_type : Message → Error X
  codec_error : X → Error X
  dropped_without_closing : Error X
