-- ===== src/Tests.antt =====
-- Runs of the models on concrete inputs. The children apply the theorems of one part each.
pub mod Codecs
pub mod Streams
pub mod Messages
pub mod Recordings
pub mod Scripts
pub mod Captures
pub mod Forms
pub mod Views
pub mod Schedules
use cycbox.Base.{ℕ, List, [], ◌∷◌, false}
use cycbox.Value.{Value}
use cycbox.Message.{Message, PayloadType}
use cycbox.Codec.{Clock}

abbrev pub clock : Clock
clock = record { wall = 1_700_000_000_000_000; instant = 5_000_000 }

abbrev pub clocks : ℕ → Clock
clocks n = clock

abbrev pub message_of : List ℕ → Message
message_of payload = record {
  connection_id = 0;
  timestamp = 1;
  message_type = [];
  payload_type = PayloadType.binary;
  frame = [];
  payload = payload;
  contents = [];
  values = [];
  metadata = [];
  highlighted = false;
  hex_contents = [];
  display_hex = false;
}
