-- ===== src/Message/Display.antt =====
-- src/error.rs, src/split.rs: the texts of the errors, as `thiserror` derives them from the attributes
-- of the enum. How the errors of other crates and tungstenite's `Message` are shown are parameters.
use Prim.Native.String.{◌++◌ as str_append}
use socketeer.Common.{String}
use socketeer.Message.{
  Message, Error, url_parse, websocket_error, websocket_closed, unexpected_message_type,
  codec_error, dropped_without_closing,
}

module _ {X : Type 0} (foreign : X → String) (shown : Message → String) where
  -- The attribute of `UrlParse` formats the number 0, and no field of the variant.
  abbrev pub fmt : Error X → String
  fmt (url_parse url source) = str_append "Failed to parse URL: " "0"
  fmt (websocket_error x) = str_append "Tungstenite error: " (foreign x)
  fmt websocket_closed = "Socket Closed"
  fmt (unexpected_message_type m) = str_append "Unexpected Message type: " (shown m)
  fmt (codec_error x) = str_append "Codec error: " (foreign x)
  fmt dropped_without_closing = "Socketeer dropped without closing"
