-- ===== src/Codec/Laws.antt =====
-- The codecs of crates/cycbox-runtime/src/codec/ satisfy what the transport relies on.
use cycbox.Base.{ℕ, List}
use cycbox.Codec.{Clock, Decoded, Progresses, KeepsWithin, Lawful, stateless_codec}
use cycbox.Codec.Line.{line_codec}
use cycbox.Codec.Line.Split
use cycbox.Codec.Slip.{slip_codec}
use cycbox.Codec.Slip.Frames
use cycbox.Codec.Cobs.{cobs_codec}
use cycbox.Codec.Cobs.Frames as CobsFrames
use cycbox.Codec.Passthrough
use cycbox.Codec.Passthrough.{passthrough_codec}
use cycbox.Codec.Timeout
use cycbox.Codec.Timeout.{timeout_codec}
use cycbox.Message.{Message}

stateless-Lawful :
    {S : Type 0} (decode : Clock → S → List ℕ → Decoded S) (encode : S → Message → Message)
    → Progresses decode
    → KeepsWithin decode
    → Lawful (stateless_codec decode encode)
stateless-Lawful decode encode p k = record {
  progresses = p;
  decode_within = k;
  timeout_within = k;
  eof_within = k;
}

-- Every codec of the runtime is lawful: a delivered message uses up bytes, and no call lengthens
-- the buffer.
pub runtime_codecs-Lawful :
    Lawful line_codec
    × Lawful slip_codec
    × Lawful cobs_codec
    × Lawful passthrough_codec
    × Lawful timeout_codec
runtime_codecs-Lawful = (
  stateless-Lawful _ _ Split.decode-Progresses Split.decode-KeepsWithin,
  stateless-Lawful _ _ Frames.decode-Progresses Frames.decode-KeepsWithin,
  stateless-Lawful _ _ CobsFrames.decode-Progresses CobsFrames.decode-KeepsWithin,
  stateless-Lawful _ _ Passthrough.decode-Progresses Passthrough.decode-KeepsWithin,
  record {
    progresses = Timeout.decode-Progresses;
    decode_within = Timeout.decode-KeepsWithin;
    timeout_within = Timeout.decode_timeout-KeepsWithin;
    eof_within = Timeout.decode_timeout-KeepsWithin;
  },
)
