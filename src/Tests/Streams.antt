-- ===== src/Tests/Streams.antt =====
-- Runs of `CodecTransport` of crates/cycbox-sdk/src/transport.rs.
use mathlib.Core.Option
use cycbox.Base.{
  ℕ, ◌≡◌, ◌⊎◌, ◌+◌, ◌*◌, ◌≤◌, refl, List, [], ◌∷◌, Option, some, none, true, false, arith, length,
  bytes_eq,
}
use cycbox.Base.Text.{text}
use cycbox.Value.{Value, new_u8_array}
use cycbox.Message.{Message, param, get_command}
use cycbox.Message.Builder.{frame_or_payload}
use cycbox.Codec.Line
use cycbox.Codec.Timeout
use cycbox.Codec.{Clock, ok, received}
use cycbox.Codec.Line.{LineCodec, lf, line_codec, ending_bytes, ends_with}
use cycbox.Codec.Line.Split.{Avoids→Lacks}
use cycbox.Codec.Slip.{encode, end_byte, escape, slip_codec, default_slip_codec}
use cycbox.Codec.Cobs.{cobs_codec, default_cobs_codec}
use cycbox.Codec.Timeout.{TimeoutCodec, timeout_codec}
use cycbox.Codec.Laws.{runtime_codecs-Lawful}
use cycbox.Transport.{
  CodecTransport, ReadEvent, received_bytes, timed_out, end_of_stream, waiting, returned, new, recv,
  arrive, push_drained, drain, end_session,
}
use cycbox.Transport.Drain.{ReceiptBounded, recv-ReceiptBounded}
use cycbox.Transport.Lines.{Lines, payloads, frames, ending}
use cycbox.Transport.Chunks.{Reads, feed, bytes_of, reads_irrelevant}
use cycbox.Transport.Sessions.{behind, session_isolated}
use cycbox.Transport.SlipWait.{frame_tail, holding, slip_frame_waits}
use cycbox.Transport.Send.{WriteAll, command_id_send_raw, handle_command, send_all}
use cycbox.Transport.Send.Delivery.{sent_is_received}
use cycbox.Transport.Send.RawCommand.{Replies, Written, send_raw_reply}
use cycbox.Tests.{clock, clocks, message_of}

abbrev lf_codec : LineCodec
lf_codec = record { line_ending = lf }

-- "A\nB\nC" in one read, and cut inside its lines.
abbrev whole : Reads
whole = (clocks, 65 ∷ 10 ∷ 66 ∷ 10 ∷ 67 ∷ []) ∷ []

abbrev cut : Reads
cut = (clocks, 65 ∷ []) ∷ (clocks, 10 ∷ 66 ∷ []) ∷ (clocks, 10 ∷ 67 ∷ []) ∷ []

reads_irrelevant_example :
    (t : CodecTransport LineCodec) × (t' : CodecTransport LineCodec) × (feed whole
        (new line_codec lf_codec)
      ≡ some t)
    × (feed cut (new line_codec lf_codec) ≡ some t')
    × (payloads t.pending_messages ≡ payloads t'.pending_messages)
    × (frames t.pending_messages ≡ frames t'.pending_messages)
    × (t.buffer ≡ t'.buffer)
    × Lines (ending lf_codec) (bytes_of whole) (payloads t.pending_messages) t.buffer
reads_irrelevant_example = reads_irrelevant lf_codec whole cut refl (omega arith)

abbrev writes : WriteAll
writes bs = none

abbrev two_messages : List Message
two_messages = message_of (65 ∷ []) ∷ message_of (66 ∷ []) ∷ []

abbrev sent_reads : Reads
sent_reads = (clocks, 65 ∷ 10 ∷ 66 ∷ []) ∷ (clocks, 10 ∷ []) ∷ []

two_sent : bytes_of sent_reads ≡ send_all line_codec writes two_messages (new line_codec lf_codec)
unfolding send_all frame_or_payload Line.encode ends_with bytes_eq
two_sent = refl

sent_is_received_example :
    (t : CodecTransport LineCodec) × (feed sent_reads (new line_codec lf_codec) ≡ some t)
    × (payloads t.pending_messages ≡ payloads two_messages)
    × (t.buffer ≡ [])
sent_is_received_example =
    sent_is_received writes lf_codec two_messages sent_reads
      (
        Avoids→Lacks (65 ∷ []) (λ e. omega (arith, e), tt),
        (Avoids→Lacks (66 ∷ []) (λ e. omega (arith, e), tt), tt),
      )
      two_sent (omega arith)

abbrev three_events : List ((ℕ → Clock) × ReadEvent)
three_events =
    (clocks, timed_out false)
    ∷ (clocks, received_bytes 2 (7 ∷ 0 ∷ 3 ∷ []) true)
    ∷ (clocks, end_of_stream)
    ∷ []

recv-ReceiptBounded_example :
    ReceiptBounded (recv cobs_codec three_events (new cobs_codec default_cobs_codec))
recv-ReceiptBounded_example =
    recv-ReceiptBounded cobs_codec runtime_codecs-Lawful.2 three_events
      (new cobs_codec default_cobs_codec) (tt, (omega arith, (tt, tt))) (omega arith)

-- A session that was cut off in the middle of a frame.
abbrev half_frame : CodecTransport TimeoutCodec
half_frame = record (new timeout_codec (record { timeout_ms = 20; frame_start = some 4 })) {
  buffer = 1 ∷ 2 ∷ [];
}

abbrev fresh_timeout : TimeoutCodec
fresh_timeout = record { timeout_ms = 20; frame_start = none }

half_frame_reset :
    timeout_codec.reset
      (push_drained timeout_codec (drain timeout_codec clock half_frame)).codec_state
    ≡ fresh_timeout
unfolding Timeout.reset Timeout.decode_timeout push_drained drain
half_frame_reset = refl

session_isolated_example :
    arrive timeout_codec clocks (3 ∷ []) (end_session timeout_codec clock half_frame)
    ≡ Option.map
        (behind (push_drained timeout_codec (drain timeout_codec clock half_frame)))
        (arrive timeout_codec clocks (3 ∷ []) (new timeout_codec fresh_timeout))
session_isolated_example =
    session_isolated timeout_codec fresh_timeout clock clocks (3 ∷ []) half_frame half_frame_reset

abbrev one : Message
one = message_of (1 ∷ [])

one_fits : length (frame_tail one) + 1 ≤ 1024 * 1024 * 1024
unfolding escape
one_fits = omega arith

slip_frame_waits_example :
    let t = new slip_codec default_slip_codec in
    let read = received_bytes end_byte (frame_tail one) false in
    ((encode default_slip_codec one).frame ≡ end_byte ∷ frame_tail one)
    × (recv slip_codec ((clocks, read) ∷ []) t ≡ waiting (holding (frame_tail one)))
    × (recv slip_codec ((clocks, read) ∷ (clocks, timed_out false) ∷ []) t
        ≡ returned (ok (some (received clock (1 ∷ []) (frame_tail one)))) t [])
slip_frame_waits_example = slip_frame_waits clocks clocks one [] (λ e. cc e) one_fits

abbrev refuses : WriteAll
refuses bs = some (record { not_connected = true; message = [] })

abbrev no_answer : Message → Option Message
no_answer m = none

abbrev raw_command : Message
raw_command = record (message_of (9 ∷ 0 ∷ 0 ∷ 0 ∷ 0 ∷ 0 ∷ 0 ∷ 0 ∷ [])) {
  frame = command_id_send_raw;
  values = new_u8_array (text "bytes") (1 ∷ 2 ∷ []) ∷ [];
}

send_raw_reply_example :
    (reply : Message) × (bytes : List ℕ) × (handle_command
        (λ bs. bs)
        refuses
        no_answer
        no_answer
        1
        raw_command
      ≡ (some reply, bytes))
    × (((param (text "bytes") raw_command ≡ none) × (bytes ≡ []) × Replies raw_command false reply)
        ⊎ ((v : Value) × (param (text "bytes") raw_command ≡ some v)
            × (bytes ≡ v.value_payload)
            × ((Written refuses bytes × Replies raw_command true reply)
                ⊎ (¬ Written refuses bytes × Replies raw_command false reply))))
unfolding get_command
send_raw_reply_example = send_raw_reply (λ bs. bs) refuses no_answer no_answer 1 raw_command refl
