-- ===== src/Cbrt/Parse.antt =====
-- crates/cbrt/src/parser.rs: `parse_at` as a whole: the frame that is read, what it does to the
-- session, and the message that it becomes.
use cycbox.Base.{
  ℕ, ◌+◌, ◌-◌, ◌%◌, ◌^◌, List, [], ◌∷◌, ◌++◌, Option, some, none, true, not, ◌==◌, if◌then◌else◌,
}
use cycbox.Base.Text.{Text, text}
use cycbox.Value.{Value}
use cycbox.Value.Builder
use cycbox.Message.{Message, PayloadType}
use cycbox.Message.Builder as MessageBuilder
use cycbox.Cbrt.Frame.{
  Parse, and_then, go, Frame, parse_frame, slice, datatype_of, has_ts, has_period, has_crc, has_seq,
  compute_sample_count,
}
use cycbox.Cbrt.Session.{
  SessionState, SessionProfile, SeqEvent, duplicate, dropped, enter_profile, unwrap_ts, note_seq,
  base_us, saturating_suc_u64,
}
use cycbox.Cbrt.Timing.{Floats, SampleTiming, effective_period}
use cycbox.Cbrt.Rows.{materialize_values}
use cycbox.Cbrt.Contents.{format_contents}

unfoldable pub datatype_name : ℕ → Text
datatype_name dt =
    if dt == 0x0
    then text "u8"
    else if dt == 0x1
    then text "i8"
    else if dt == 0x2
    then text "u16"
    else if dt == 0x3
    then text "i16"
    else if dt == 0x4
    then text "u32"
    else if dt == 0x5
    then text "i32"
    else if dt == 0x6
    then text "u64"
    else if dt == 0x7
    then text "i64"
    else if dt == 0x8
    then text "f32"
    else if dt == 0x9
    then text "f64"
    else if dt == 0xA
    then text "q15"
    else if dt == 0xB
    then text "q31"
    else if dt == 0xC
    then text "bf16"
    else if dt == 0xD
    then text "f16"
    else if dt == 0xE
    then text "bool"
    else text "unknown"

-- `ParseOutcome::Complete`, with the state behind it. The other outcomes leave the state as it was.
pub record Completed (F : Type 0) : Type 0 where
  pub frame_end : ℕ
  pub message : Message
  pub state : SessionState F

unfoldable pub seq_metadata : ℕ → Option SeqEvent → List Value
seq_metadata now none = []
seq_metadata now (some duplicate) =
    Builder.boolean now (Builder.builder (text "seq_duplicate")) true ∷ []
seq_metadata now (some (dropped n)) =
    Builder.uint8 now (Builder.builder (text "seq_dropped")) n ∷ []

-- What the session makes of a frame: the event of its sequence number, its timing, and the state
-- behind it.
pub record Noted (F : Type 0) : Type 0 where
  pub event : Option SeqEvent
  pub timing : SampleTiming F
  pub state : SessionState F

module _ {F : Type 0} (floats : Floats F) where
  unfoldable pub full_ts_us : Option ℕ → SessionState F → Option ℕ × SessionState F
  unfolding unwrap_ts
  full_ts_us none s = (none, s)
  full_ts_us (some raw) s = let (ts, s') = unwrap_ts raw s in (some ts, s')

  unfoldable pub note_frame : ℕ → Frame → SessionState F → Noted F
  unfolding enter_profile full_ts_us note_seq base_us effective_period compute_sample_count
  note_frame arrival_us f s =
      let profile : SessionProfile = record {
        flag_bits = f.flags - f.flags % 16;
        datatype = datatype_of f.flags;
        channels = f.channels;
      } in
      let (ts, s₁) = full_ts_us f.ts_raw (enter_profile profile s) in
      let (event, s₂) = note_seq f.seq s₁ in
      let (base, s₃) = base_us arrival_us ts s₂ in
      let sample_count = compute_sample_count f.payload_len (datatype_of f.flags) f.channels in
      let (period, s₄) =
        effective_period floats f.period_us (has_ts f.flags) base sample_count s₃ in
      record {
        event = event;
        timing = record {
          anchor_us = base;
          period_us = period;
          anchor_at_last = not (has_ts f.flags);
          sample_count = sample_count;
        };
        state = record s₄ { frame_count = saturating_suc_u64 s₄.frame_count };
      }

  unfoldable pub period_metadata : ℕ → Option F → List Value
  period_metadata now none = []
  period_metadata now (some p) =
      Builder.uint32 now (Builder.builder (text "period_us"))
        (floats.as_u32 (floats.min (floats.round p) (floats.as_f64 (2 ^ 32 - 1))))
      ∷ []

  unfoldable pub metadata_of : ℕ → Frame → Noted F → List Value
  unfolding period_metadata seq_metadata datatype_name
  metadata_of now f noted =
      Builder.string now (Builder.builder (text "datatype")) (datatype_name (datatype_of f.flags))
      ∷ Builder.uint32 now (Builder.builder (text "samples")) (noted.timing.sample_count % 2 ^ 32)
      ∷ (period_metadata now noted.timing.period_us ++ seq_metadata now noted.event)

  -- The message of a frame that has been read, with its payload and its bytes.
  unfoldable pub message_of : ℕ → ℕ → List ℕ → List ℕ → Frame → Noted F → Message
  unfolding materialize_values format_contents metadata_of
  message_of now arrival_us payload frame f noted = MessageBuilder.build now (
      MessageBuilder.with_contents
        (format_contents frame (has_seq f.flags) (has_ts f.flags) (has_period f.flags)
          (has_crc f.flags) f.payload_len)
        (MessageBuilder.with_metadata (metadata_of now f noted) (
          MessageBuilder.add_values
            (materialize_values floats now (datatype_of f.flags) f.channels payload noted.timing)
            (MessageBuilder.with_timestamp arrival_us
              (MessageBuilder.rx PayloadType.binary payload frame)))))

  unfoldable pub complete : ℕ → ℕ → SessionState F → List ℕ → ℕ → Frame → Completed F
  unfolding note_frame message_of
  complete now arrival_us s buf sync_pos f =
      let noted = note_frame arrival_us f s in
      record {
        frame_end = f.frame_end;
        message =
            message_of now arrival_us (slice f.payload_start (f.payload_start + f.payload_len) buf)
              (slice sync_pos f.frame_end buf) f noted;
        state = noted.state;
      }

  unfoldable pub parse_at : (List ℕ → ℕ) → ℕ → ℕ → SessionState F → List ℕ → ℕ → Parse (Completed F)
  unfolding parse_frame and_then complete
  parse_at checksum now arrival_us s buf sync_pos =
      and_then (parse_frame checksum sync_pos buf)
        (λ f. go (complete now arrival_us s buf sync_pos f))
