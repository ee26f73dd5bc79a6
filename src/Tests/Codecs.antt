-- ===== src/Tests/Codecs.antt =====
-- Runs of the codecs of crates/cycbox-runtime/src/codec/.
use cycbox.Base.{ℕ, ◌≡◌, ◌↔◌, ◌⊎◌, refl, inl, List, [], ◌∷◌, ◌++◌, some, false, arith}
use cycbox.Codec.{ok, err, received}
use cycbox.Codec.Line.{LineCodec, lf, crlf, ending_bytes}
use cycbox.Codec.Line
use cycbox.Codec.Line.Split.{Avoids→Lacks, decode-Splits_lines}
use cycbox.Codec.Line.Split as LineSplit
use cycbox.Codec.Line.RoundTrip.{decode-encode_line}
use cycbox.Codec.Slip.{SlipCodec, escape, decode_slip, encode_slip, default_slip_codec, end_byte}
use cycbox.Codec.Slip
use cycbox.Codec.Slip.Escape.{decode_slip_exact}
use cycbox.Codec.Slip.Frames.{delivers, decode_noise, decode-Splits_frames, decode-encode_slip}
use cycbox.Codec.Slip.Frames as SlipFrames
use cycbox.Codec.Cobs.{CobsCodec, config, default_cobs_codec, encode_cobs, decode_cobs}
use cycbox.Codec.Cobs
use cycbox.Codec.Cobs.RoundTrip.{decode_cobs_outcomes}
use cycbox.Codec.Cobs.Frames.{decode-encode_cobs, decode_resync}
use cycbox.Tests.{clock, message_of}

slip_escapes :
    encode_slip default_slip_codec (1 ∷ 0xC0 ∷ 0xDB ∷ [])
    ≡ 0xC0 ∷ 1 ∷ 0xDB ∷ 0xDC ∷ 0xDB ∷ 0xDD ∷ 0xC0 ∷ []
unfolding encode_slip escape
slip_escapes = refl

cobs_stuffs :
    encode_cobs default_cobs_codec (0x11 ∷ 0x22 ∷ 0 ∷ 0x33 ∷ [])
    ≡ 3 ∷ 0x11 ∷ 0x22 ∷ 2 ∷ 0x33 ∷ 0 ∷ []
unfolding encode_cobs Cobs.encode_loop Cobs.encode_byte Cobs.close_block Cobs.close_full
cobs_stuffs = refl

abbrev crlf_codec : LineCodec
crlf_codec = record { line_ending = crlf }

abbrev lf_codec : LineCodec
lf_codec = record { line_ending = lf }

decode-Splits_lines_example : LineSplit.Splits clock crlf_codec (65 ∷ 13 ∷ 10 ∷ 66 ∷ [])
decode-Splits_lines_example = decode-Splits_lines clock crlf_codec (65 ∷ 13 ∷ 10 ∷ 66 ∷ [])

decode-encode_line_example :
    Line.decode clock lf_codec ((Line.encode lf_codec (message_of (65 ∷ 66 ∷ []))).frame ++ 67 ∷ [])
    ≡ record {
      codec = lf_codec;
      buffer = 67 ∷ [];
      outcome = ok (some (received clock (65 ∷ 66 ∷ []) (65 ∷ 66 ∷ 10 ∷ [])));
    }
decode-encode_line_example =
    decode-encode_line clock lf_codec (message_of (65 ∷ 66 ∷ [])) (65 ∷ 66 ∷ []) (67 ∷ [])
      (Avoids→Lacks (65 ∷ 66 ∷ []) (λ e. omega (arith, e), (λ e. omega (arith, e), tt))) (inl refl)

decode_slip_exact_example :
    (decode_slip (0xDB ∷ 0xDC ∷ 7 ∷ []) ≡ ok (0xC0 ∷ 7 ∷ []))
    ↔ (0xDB ∷ 0xDC ∷ 7 ∷ [] ≡ escape (0xC0 ∷ 7 ∷ []))
decode_slip_exact_example = decode_slip_exact (0xDB ∷ 0xDC ∷ 7 ∷ []) (0xC0 ∷ 7 ∷ [])

abbrev slip_plain : SlipCodec
slip_plain = record { push_leading_end = false }

decode_noise_example :
    let first = Slip.decode clock default_slip_codec (
      1 ∷ 2 ∷ []
      ++ ((Slip.encode default_slip_codec (message_of (0xC0 ∷ 7 ∷ []))).frame ++ 9 ∷ [])) in
    (first.codec ≡ default_slip_codec)
    × (first.buffer ≡ escape (0xC0 ∷ 7 ∷ []) ++ end_byte ∷ 9 ∷ [])
    × (Slip.decode clock default_slip_codec first.buffer
        ≡ delivers clock default_slip_codec (0xC0 ∷ 7 ∷ []) (9 ∷ []))
decode_noise_example =
    decode_noise clock clock (message_of (0xC0 ∷ 7 ∷ [])) (1 ∷ 2 ∷ []) (9 ∷ []) (λ e. cc e)
      (λ e. omega (arith, e), (λ e. omega (arith, e), tt))

decode-Splits_frames_example :
    SlipFrames.Splits clock default_slip_codec (5 ∷ 0xDB ∷ 6 ∷ 0xC0 ∷ 7 ∷ [])
decode-Splits_frames_example =
    decode-Splits_frames clock default_slip_codec (5 ∷ 0xDB ∷ 6 ∷ 0xC0 ∷ 7 ∷ [])

abbrev cobs : CobsCodec
cobs = config default_cobs_codec

decode-encode_cobs_example :
    let frame = (Cobs.encode cobs (message_of (0 ∷ 5 ∷ []))).frame in
    Cobs.decode clock cobs (frame ++ 3 ∷ []) ≡ record {
      codec = cobs;
      buffer = 3 ∷ [];
      outcome = ok (some (received clock (0 ∷ 5 ∷ []) frame));
    }
decode-encode_cobs_example =
    decode-encode_cobs clock default_cobs_codec (message_of (0 ∷ 5 ∷ [])) (3 ∷ [])

decode_resync_example :
    let frame = (Cobs.encode cobs (message_of (0 ∷ 5 ∷ []))).frame in
    let first = Cobs.decode clock cobs (9 ∷ 9 ∷ [] ++ 0 ∷ (frame ++ [])) in
    (first.codec ≡ cobs)
    × (Cobs.decode clock first.codec first.buffer ≡ record {
      codec = cobs;
      buffer = [];
      outcome = ok (some (received clock (0 ∷ 5 ∷ []) frame));
    })
decode_resync_example =
    decode_resync clock clock default_cobs_codec (message_of (0 ∷ 5 ∷ [])) (9 ∷ 9 ∷ []) []
      (λ e. omega (arith, e), (λ e. omega (arith, e), tt))

decode_cobs_outcomes_example :
    ((payload : List ℕ) × (decode_cobs default_cobs_codec (3 ∷ 1 ∷ 2 ∷ 0 ∷ []) ≡ ok payload))
    ⊎ (decode_cobs default_cobs_codec (3 ∷ 1 ∷ 2 ∷ 0 ∷ []) ≡ err Cobs.zero_code)
decode_cobs_outcomes_example = decode_cobs_outcomes default_cobs_codec (3 ∷ 1 ∷ 2 ∷ 0 ∷ [])
