-- ===== src/Cbrt/Rows.antt =====
-- crates/cbrt/src/parser.rs: `materialize_values`, which makes a value of every sample of every
-- channel, row by row.
pub mod Bytes
pub mod Samples
use mathlib.Core.Option
use cycbox.Base.{
  ℕ, zero, suc, ◌+◌, ◌-◌, ◌*◌, ◌/◌, ◌%◌, ◌^◌, List, [], ◌∷◌, ◌++◌, Option, some, none, Bool, not,
  ◌==◌, ltb, if◌then◌else◌, take, drop,
}
use cycbox.Base.Words.{le_value}
use cycbox.Base.Int.{signed}
use cycbox.Base.Text.{Text, text}
use cycbox.Value.{Value}
use cycbox.Value.Builder.{
  ValueBuilder, builder, with_timestamp, boolean, int8, int16, int32, int64, uint8, uint16, uint32,
  uint64, float32, float64,
}
use cycbox.Cbrt.Frame.{byte_at, bytes_per_datatype, bit_byte, sample_offset}
use cycbox.Cbrt.Timing.{Floats, SampleTiming, ts}
use cycbox.Cbrt.Halves.{bf16_to_f32, f16_to_f32}

-- The digits of a number below 10 ^ `fuel`.
unfoldable pub digits : ℕ → ℕ → Text
digits zero n = []
digits (suc fuel) n =
    let rest = digits fuel (n / 10) in (if ltb n 10 then [] else rest) ++ (b'0' + n % 10) ∷ []

-- `format!("ch{ch}")`, for `ch` below 64.
unfoldable pub channel_id : ℕ → Text
unfolding digits
channel_id ch = text "ch" ++ digits 2 ch

-- `for i in from..from + n { … }`, where each step pushes what `f` gives.
unfoldable pub for_range : {A : Type 0} → ℕ → ℕ → (ℕ → List A) → List A
for_range from zero f = []
for_range from (suc n) f = f from ++ for_range (from + 1) n f

-- `payload[off..off + n]` as an unsigned integer.
abbrev pub word_at : ℕ → ℕ → List ℕ → ℕ
word_at n off payload = le_value (take n (drop off payload))

module _ {F : Type 0} (floats : Floats F) where
  -- What a sample of the datatype becomes, if it has one; `b` has the channel's id and the time.
  unfoldable pub sample_value : ℕ → ValueBuilder → ℕ → ℕ → List ℕ → Option Value
  unfolding byte_at bf16_to_f32 f16_to_f32
  sample_value now b datatype off payload =
      if datatype == 0x0
      then some (uint8 now b (byte_at off payload))
      else if datatype == 0x1
      then some (int8 now b (signed (2 ^ 7) (byte_at off payload)))
      else if datatype == 0x2
      then some (uint16 now b (word_at 2 off payload))
      else if datatype == 0x3
      then some (int16 now b (signed (2 ^ 15) (word_at 2 off payload)))
      else if datatype == 0x4
      then some (uint32 now b (word_at 4 off payload))
      else if datatype == 0x5
      then some (int32 now b (signed (2 ^ 31) (word_at 4 off payload)))
      else if datatype == 0x6
      then some (uint64 now b (word_at 8 off payload))
      else if datatype == 0x7
      then some (int64 now b (signed (2 ^ 63) (word_at 8 off payload)))
      else if datatype == 0x8
      then some (float32 now b (word_at 4 off payload))
      else if datatype == 0x9
      then some (float64 now b (word_at 8 off payload))
      else if datatype == 0xA
      then some (
          float32 now b (
            floats.over_f32 (floats.i32_as_f32 (signed (2 ^ 15) (word_at 2 off payload)))
              0x4700_0000))
      else if datatype == 0xB
      then some (
          float32 now b (
            floats.over_f32 (floats.i32_as_f32 (signed (2 ^ 31) (word_at 4 off payload)))
              0x4F00_0000))
      else if datatype == 0xC
      then some (float32 now b (bf16_to_f32 (word_at 2 off payload)))
      else if datatype == 0xD
      then some (float32 now b (f16_to_f32 (word_at 2 off payload)))
      else none

  -- The bits of a packed payload are read from the top of each byte.
  unfoldable pub packed_value : ℕ → ValueBuilder → ℕ → ℕ → ℕ → List ℕ → Value
  unfolding bit_byte byte_at
  packed_value now b channels s ch payload =
      let bit_idx = s * channels + ch in
      let bit = byte_at (bit_byte channels s ch) payload / 2 ^ (7 - bit_idx % 8) % 2 in
      boolean now b (not (bit == 0))

  abbrev pub pushed : Option Value → List Value
  pushed none = []
  pushed (some v) = v ∷ []

  -- The builder of channel `ch` of sample `s`.
  abbrev pub channel : SampleTiming F → ℕ → ℕ → ValueBuilder
  channel timing s ch = with_timestamp (ts floats timing s) (builder (channel_id ch))

  unfoldable pub materialize_values : ℕ → ℕ → ℕ → List ℕ → SampleTiming F → List Value
  unfolding for_range sample_value packed_value sample_offset bytes_per_datatype
  materialize_values now datatype channels payload timing =
      if datatype == 0xE
      then for_range 0 timing.sample_count (λ s.
        for_range 0 channels
          (λ ch. packed_value now (channel timing s ch) channels s ch payload ∷ []))
      else elim (bytes_per_datatype datatype) [
        | none ↦ []
        | some bps ↦ for_range 0 timing.sample_count (λ s. for_range 0 channels (λ ch. pushed (
            sample_value now (channel timing s ch) datatype (sample_offset bps channels s ch)
              payload)))
      ]
