-- ===== src/Message.antt =====
-- crates/cycbox-sdk/src/message/mod.rs: the message that travels between transports, scripts and
-- the user interface, and its accessors. Message/Builder.antt has `MessageBuilder`.
pub mod Builder
pub mod Metadata
pub mod Response
pub mod LuaFunctions
use mathlib.Core.Option
use mathlib.Core.Option.{get_or}
use cycbox.Base.{
  ℕ, List, [], ◌∷◌, Option, some, none, Bool, true, false, if◌then◌else◌, leb, length, take,
  bytes_eq,
}
use cycbox.Base.Words.{le_bytes, le_value}
use cycbox.Base.Text.{Text, text}
use cycbox.Content.{Content}
use cycbox.Value.{Value, as_bool, as_string, as_u32}

pub data PayloadType : Type 0 where
  binary text_payload websocket_binary websocket_text mqtt : PayloadType
  modbus_request modbus_response http_request http_response : PayloadType

abbrev pub system_connection_id : ℕ
system_connection_id = 9999

abbrev pub unknow_connection_id : ℕ
unknow_connection_id = 9998

pub record Message : Type 0 where
  pub connection_id : ℕ
  pub timestamp : ℕ
  pub message_type : Text
  pub payload_type : PayloadType
  pub frame : List ℕ
  pub payload : List ℕ
  pub contents : List Content
  pub values : List Value
  pub metadata : List Value
  pub highlighted : Bool
  pub hex_contents : List Content
  pub display_hex : Bool

unfoldable pub get_command : (List ℕ → Text) → Message → Text
get_command lossy m = lossy m.frame

unfoldable pub set_command : Text → Message → Message
set_command command m = record m { frame = command }

unfoldable pub get_seq_id : Message → ℕ
get_seq_id m = if leb 8 (length m.payload) then le_value (take 8 m.payload) else 0

unfoldable pub set_seq_id : ℕ → Message → Message
set_seq_id seq_id m = record m { payload = le_bytes 8 seq_id }

-- `values.iter().find(|v| v.id == id)`
unfoldable pub find_value : Text → List Value → Option Value
find_value name [] = none
find_value name (v ∷ vs) = if bytes_eq v.id name then some v else find_value name vs

unfoldable pub get_value : Text → Message → Option Value
unfolding find_value
get_value name m = find_value name m.values

unfoldable pub param : Text → Message → Option Value
unfolding get_value
param name m = get_value name m

unfoldable pub metadata_value : Text → Message → Option Value
unfolding find_value
metadata_value name m = find_value name m.metadata

-- `metadata.retain(|v| v.id != name)`
unfoldable pub retain_other : Text → List Value → List Value
retain_other name [] = []
retain_other name (v ∷ vs) =
    let rest = retain_other name vs in if bytes_eq v.id name then rest else v ∷ rest

unfoldable pub remove_metadata : Text → Message → Message
unfolding retain_other
remove_metadata name m = record m { metadata = retain_other name m.metadata }

-- The first entry named `timeout_ms` that holds four bytes or more, in milliseconds.
unfoldable pub find_timeout : List Value → Option ℕ
unfolding as_u32
find_timeout [] = none
find_timeout (v ∷ vs) =
    let rest = find_timeout vs in
    if bytes_eq v.id (text "timeout_ms")
    then elim (as_u32 v) [ some ms ↦ some ms | none ↦ rest ]
    else rest

unfoldable pub timeout : Message → Option ℕ
unfolding find_timeout
timeout m = find_timeout m.metadata

unfoldable pub is_success : Message → Bool
unfolding metadata_value as_bool
is_success m = get_or (Option.bind (metadata_value (text "success") m) as_bool) false

unfoldable pub error_message : (List ℕ → Text) → Message → Option Text
unfolding metadata_value as_string
error_message lossy m = Option.bind (metadata_value (text "error") m) (as_string lossy)

unfoldable pub refresh_timestamp : ℕ → Message → Message
refresh_timestamp now m = record m { timestamp = now }
