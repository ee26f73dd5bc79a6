-- ===== src/Tests/Captures.antt =====
-- Runs of the CBRT codec, its values and its transformer: crates/cbrt/src/.
use cycbox.Base.{
  ℕ, ◌≡◌, ◌+◌, ◌-◌, ◌*◌, ◌/◌, ◌^◌, min, ◌⊎◌, refl, List, [], ◌∷◌, ◌++◌, some, none, true, ltb, leb,
  arith, bytes_eq, All,
}
use cycbox.Base.Int.{unsigned}
use cycbox.Base.Words.{IsByte}
use cycbox.Message.{Message}
use cycbox.Codec.{ok}
use cycbox.Cbrt.Frame.{bytes_per_datatype, sample_offset}
use cycbox.Cbrt.Frame.Written.{frame_bytes, sync_word}
use cycbox.Cbrt.Session.{default_state}
use cycbox.Cbrt.Timing.{Floats, SampleTiming}
use cycbox.Cbrt.Halves.{f16_to_f32, magnitude_f16, magnitude_f32, f16_to_f32-magnitude}
use cycbox.Cbrt.Rows.{channel_id, materialize_values}
use cycbox.Cbrt.Rows.Bytes.{Carries}
use cycbox.Cbrt.Rows.Samples.{nth, materialize_values-Carries}
use cycbox.Cbrt.Stream.{CbrtCodec, find_sync, decode}
use cycbox.Cbrt.Stream.Chunks.{decode-append}
use cycbox.Cbrt.Stream.Whole.{IsMessageOf, decode-frame_bytes}
use cycbox.Cbrt.Transform.{on_receive}
use cycbox.Cbrt.Transform.Sentinel.{on_receive-decode}
use cycbox.Tests.{clock}
use cycbox.Tests.Recordings.{seven, small, small-Valid}

-- Whole numbers in the place of floating point numbers.
abbrev whole_numbers : Floats ℕ
whole_numbers = record {
  as_f64 = λ n. n;
  plus = λ a b. a + b;
  minus = λ a b. a - b;
  times = λ a b. a * b;
  over = λ a b. a / b;
  min = λ a b. min a b;
  le = λ a b. leb a b;
  gt = λ a b. ltb b a;
  is_finite = λ a. true;
  round = λ a. a;
  as_u64 = λ a. a;
  as_u32 = λ a. a;
  period_ema_alpha = 1;
  i32_as_f32 = λ z. unsigned (2 ^ 31) z;
  over_f32 = λ a b. a;
}

abbrev idle : CbrtCodec ℕ
idle = record { state = default_state }

-- "CBR" of another word in front of a frame.
abbrev noise : List ℕ
noise = 0x43 ∷ 0x42 ∷ 0x52 ∷ []

noise_clean : find_sync (noise ++ sync_word) ≡ some 3
unfolding find_sync bytes_eq
noise_clean = refl

decode-frame_bytes_example :
    let d = decode seven whole_numbers clock idle (noise ++ (frame_bytes seven small ++ 1 ∷ [])) in
    (d.buffer ≡ 1 ∷ [])
    × ((m : Message) × (d.outcome ≡ ok (some m)) × IsMessageOf seven small whole_numbers m)
decode-frame_bytes_example =
    decode-frame_bytes seven small whole_numbers clock idle noise (1 ∷ []) small-Valid (omega arith)
      noise_clean

decode-append_example :
    let d = decode seven whole_numbers clock idle noise in
    ((d.outcome ≡ ok none)
      × (decode seven whole_numbers clock d.codec (d.buffer ++ frame_bytes seven small)
          ≡ decode seven whole_numbers clock idle (noise ++ frame_bytes seven small)))
    ⊎ ((m : Message) × (d.outcome ≡ ok (some m))
        × (decode seven whole_numbers clock idle (noise ++ frame_bytes seven small) ≡ record {
          codec = d.codec;
          buffer = d.buffer ++ frame_bytes seven small;
          outcome = ok (some m);
        }))
decode-append_example =
    decode-append seven whole_numbers clock clock idle noise (frame_bytes seven small)

small_delivered :
    (m : Message) × ((decode seven whole_numbers clock idle
        (noise ++ (frame_bytes seven small ++ 1 ∷ []))).outcome
      ≡ ok (some m))
small_delivered =
    let (left, (m, e, is)) =
      decode-frame_bytes seven small whole_numbers clock idle noise (1 ∷ []) small-Valid
        (omega arith) noise_clean in
    (m, e)

on_receive-decode_example :
    on_receive seven whole_numbers 5 [] small_delivered.0
    ≡ record { sessions = []; message = small_delivered.0; outcome = ok tt }
on_receive-decode_example =
    on_receive-decode seven whole_numbers 5 [] clock idle
      (noise ++ (frame_bytes seven small ++ 1 ∷ [])) small_delivered.0 small_delivered.1

-- The smallest subnormal number, 2 ^ -24.
f16_to_f32-magnitude_example :
    (f16_to_f32 0x8001 / 2 ^ 31 ≡ 1) × (magnitude_f32 (f16_to_f32 0x8001) ≡ magnitude_f16 0x8001)
f16_to_f32-magnitude_example = f16_to_f32-magnitude 0x8001 (omega arith) (λ e. omega (arith, e))

abbrev timing : SampleTiming ℕ
timing = record { anchor_us = 100; period_us = some 10; anchor_at_last = true; sample_count = 2 }

bytes : All IsByte (1 ∷ 0 ∷ 2 ∷ 0 ∷ 3 ∷ 0 ∷ 4 ∷ 0 ∷ [])
bytes = (
  omega arith,
  (
    omega arith,
    (omega arith, (omega arith, (omega arith, (omega arith, (omega arith, (omega arith, tt)))))),
  ),
)

-- Two rows of two channels of 16-bit integers: row 1, channel 0.
materialize_values-Carries_example :
    Carries
      (nth
        (1 * 2 + 0)
        (materialize_values whole_numbers 0 2 2 (1 ∷ 0 ∷ 2 ∷ 0 ∷ 3 ∷ 0 ∷ 4 ∷ 0 ∷ []) timing))
      (channel_id 0)
      2
      (sample_offset 2 2 1 0)
      (1 ∷ 0 ∷ 2 ∷ 0 ∷ 3 ∷ 0 ∷ 4 ∷ 0 ∷ [])
unfolding bytes_per_datatype sample_offset
materialize_values-Carries_example =
    materialize_values-Carries whole_numbers 0 2 2 2 1 0 (1 ∷ 0 ∷ 2 ∷ 0 ∷ 3 ∷ 0 ∷ 4 ∷ 0 ∷ []) timing
      (omega arith) refl (omega arith) (omega arith) bytes (omega arith)
