-- ===== src/Message/Builder.antt =====
-- crates/cycbox-sdk/src/message/builder.rs: `MessageBuilder`. `now` is the wall clock in
-- microseconds, which `build` reads for a builder whose timestamp is 0.
use cycbox.Base.{ℕ, List, [], ◌∷◌, ◌++◌, Bool, true, false, ◌==◌, if◌then◌else◌}
use cycbox.Base.Words.{le_bytes}
use cycbox.Base.Text.{Text, text}
use cycbox.Content.{Content}
use cycbox.Value.{Value}
use cycbox.Value.Builder
use cycbox.Message.{Message, PayloadType, system_connection_id, unknow_connection_id}

pub record MessageBuilder : Type 0 where
  pub connection_id : ℕ
  pub timestamp : ℕ
  pub message_type : Text
  pub payload_type : PayloadType
  pub frame : List ℕ
  pub payload : List ℕ
  pub contents : List Content
  pub values : List Value
  pub metadata : List Value
  pub highlighted : Bool
  pub hex_contents : List Content
  pub display_hex : Bool

abbrev pub new : MessageBuilder
new = record {
  connection_id = system_connection_id;
  timestamp = 0;
  message_type = [];
  payload_type = PayloadType.binary;
  frame = [];
  payload = [];
  contents = [];
  values = [];
  metadata = [];
  highlighted = false;
  hex_contents = [];
  display_hex = false;
}

unfoldable pub event : Text → MessageBuilder
event event_id = record new { message_type = text "event"; frame = event_id }

unfoldable pub tx : ℕ → PayloadType → List ℕ → List ℕ → MessageBuilder
tx c ty bytes fr = record new {
  connection_id = c;
  message_type = text "tx";
  payload_type = ty;
  payload = bytes;
  frame = fr;
}

unfoldable pub rx : PayloadType → List ℕ → List ℕ → MessageBuilder
rx ty bytes fr = record new {
  connection_id = unknow_connection_id;
  message_type = text "rx";
  payload_type = ty;
  payload = bytes;
  frame = fr;
}

unfoldable pub request : ℕ → Text → ℕ → MessageBuilder
request seq command at = record new {
  timestamp = at;
  message_type = text "request";
  payload = le_bytes 8 seq;
  frame = command;
}

unfoldable pub response_success : ℕ → Message → MessageBuilder
response_success now req = record new {
  message_type = text "response";
  frame = req.frame;
  payload = req.payload;
  connection_id = req.connection_id;
  metadata = Builder.boolean now (Builder.builder (text "success")) true ∷ [];
}

unfoldable pub response_error : ℕ → Message → Text → MessageBuilder
response_error now req e = record new {
  message_type = text "response";
  frame = req.frame;
  payload = req.payload;
  connection_id = req.connection_id;
  metadata =
      Builder.boolean now (Builder.builder (text "success")) false
      ∷ Builder.string now (Builder.builder (text "error")) e
      ∷ [];
}

unfoldable pub with_connection_id : ℕ → MessageBuilder → MessageBuilder
with_connection_id c b = record b { connection_id = c }

unfoldable pub with_timestamp : ℕ → MessageBuilder → MessageBuilder
with_timestamp t b = record b { timestamp = t }

unfoldable pub with_payload : PayloadType → List ℕ → MessageBuilder → MessageBuilder
with_payload ty bytes b = record b { payload_type = ty; payload = bytes }

unfoldable pub with_frame : List ℕ → MessageBuilder → MessageBuilder
with_frame fr b = record b { frame = fr }

unfoldable pub with_contents : List Content → MessageBuilder → MessageBuilder
with_contents cs b = record b { contents = cs }

unfoldable pub add_value : Value → MessageBuilder → MessageBuilder
add_value v b = record b { values = b.values ++ v ∷ [] }

unfoldable pub add_values : List Value → MessageBuilder → MessageBuilder
add_values vs b = record b { values = b.values ++ vs }

unfoldable pub with_metadata : List Value → MessageBuilder → MessageBuilder
with_metadata vs b = record b { metadata = vs }

unfoldable pub add_metadata : Value → MessageBuilder → MessageBuilder
add_metadata v b = record b { metadata = b.metadata ++ v ∷ [] }

unfoldable pub with_message_type : Text → MessageBuilder → MessageBuilder
with_message_type kind b = record b { message_type = kind }

unfoldable pub add_content : Content → MessageBuilder → MessageBuilder
add_content content b = record b { contents = b.contents ++ content ∷ [] }

unfoldable pub with_values : List Value → MessageBuilder → MessageBuilder
with_values vs b = record b { values = vs }

unfoldable pub with_highlighted : Bool → MessageBuilder → MessageBuilder
with_highlighted on b = record b { highlighted = on }

unfoldable pub with_hex_contents : List Content → MessageBuilder → MessageBuilder
with_hex_contents hex b = record b { hex_contents = hex }

unfoldable pub add_hex_content : Content → MessageBuilder → MessageBuilder
add_hex_content content b = record b { hex_contents = b.hex_contents ++ content ∷ [] }

unfoldable pub with_display_hex : Bool → MessageBuilder → MessageBuilder
with_display_hex on b = record b { display_hex = on }

unfoldable pub seq_id : ℕ → MessageBuilder → MessageBuilder
seq_id seq b = record b { payload = le_bytes 8 seq }

-- `if self.frame.is_empty() { self.payload.clone() } else { self.frame }`
unfoldable pub frame_or_payload : List ℕ → List ℕ → List ℕ
frame_or_payload [] bytes = bytes
frame_or_payload (f ∷ fs) bytes = f ∷ fs

unfoldable pub build : ℕ → MessageBuilder → Message
unfolding frame_or_payload
build now b = record {
  connection_id = b.connection_id;
  timestamp = if b.timestamp == 0 then now else b.timestamp;
  message_type = b.message_type;
  payload_type = b.payload_type;
  frame = frame_or_payload b.frame b.payload;
  payload = b.payload;
  contents = b.contents;
  values = b.values;
  metadata = b.metadata;
  highlighted = b.highlighted;
  hex_contents = b.hex_contents;
  display_hex = b.display_hex;
}
