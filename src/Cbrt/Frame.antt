-- ===== src/Cbrt/Frame.antt =====
-- crates/cbrt/src/parser.rs: the first part of `parse_at`, which reads the fields of a frame from
-- the buffer. `checksum` is CRC-16/MODBUS of the `crc` crate.
pub mod Stable
pub mod Moved
pub mod Bounds
pub mod Samples
pub mod At
pub mod Written
use cycbox.Base.{
  ℕ, ◌+◌, ◌-◌, ◌*◌, ◌/◌, ◌%◌, List, [], ◌∷◌, Option, some, none, Bool, true, false, ◌==◌, ◌||◌, ltb,
  if◌then◌else◌, length, take, drop,
}
use cycbox.Base.Words.{le_value}

-- `ParseOutcome` of one step: `NeedMore`, `Reject`, or what the step has read.
pub data Parse (A : Type 0) : Type 0 where
  need_more : Parse A
  reject : Parse A
  go : A → Parse A

unfoldable pub and_then : {A B : Type 0} → Parse A → (A → Parse B) → Parse B
and_then need_more f = need_more
and_then reject f = reject
and_then (go a) f = f a

-- What has been read, and the index `cur` behind it.
pub record Reading (A : Type 0) : Type 0 where
  pub field : A
  pub cur : ℕ

-- The index is in range wherever this is called.
unfoldable pub byte_at : ℕ → List ℕ → ℕ
byte_at i buf = elim (drop i buf) [ b ∷ bs ↦ b | [] ↦ 0 ]

-- A little-endian integer of `width` bytes at `cur`.
unfoldable pub word : ℕ → ℕ → List ℕ → Parse (Reading ℕ)
word width cur buf =
    if ltb (length buf) (cur + width)
    then need_more
    else go (record { field = le_value (take width (drop cur buf)); cur = cur + width })

-- A field that is there when its flag is set.
unfoldable pub optional : Bool → ℕ → ℕ → List ℕ → Parse (Reading (Option ℕ))
unfolding and_then word
optional false width cur buf = go (record { field = none; cur = cur })
optional true width cur buf =
    and_then (word width cur buf) (λ r. go (record { field = some r.field; cur = r.cur }))

abbrev pub has_ts : ℕ → Bool
has_ts flags = flags / 0b1000_0000 % 2 == 1

abbrev pub has_period : ℕ → Bool
has_period flags = flags / 0b0100_0000 % 2 == 1

abbrev pub has_crc : ℕ → Bool
has_crc flags = flags / 0b0010_0000 % 2 == 1

abbrev pub has_seq : ℕ → Bool
has_seq flags = flags / 0b0001_0000 % 2 == 1

abbrev pub datatype_of : ℕ → ℕ
datatype_of flags = flags % 16

unfoldable pub bytes_per_datatype : ℕ → Option ℕ
bytes_per_datatype dt =
    if ltb dt 2
    then some 1
    else if ltb dt 4 || dt == 0xA || dt == 0xC || dt == 0xD
    then some 2
    else if ltb dt 6 || dt == 0x8 || dt == 0xB
    then some 4
    else if ltb dt 8 || dt == 0x9
    then some 8
    else none

-- `compute_sample_count`.
unfoldable pub compute_sample_count : ℕ → ℕ → ℕ → ℕ
compute_sample_count payload_len datatype channels =
    if channels == 0
    then 0
    else if datatype == 0xE
    then payload_len * 8 / channels
    else elim (bytes_per_datatype datatype) [ some bps ↦ payload_len / (channels * bps) | none ↦ 0 ]

-- The exactness check: the payload is whole rows of samples.
unfoldable pub exact : ℕ → ℕ → ℕ → Bool
exact payload_len datatype channels =
    if datatype == 0xE
    then payload_len * 8 % channels == 0
    else elim (bytes_per_datatype datatype) [
      | some bps ↦ payload_len % (channels * bps) == 0
      | none ↦ false
    ]

pub record Frame : Type 0 where
  pub flags : ℕ
  pub channels : ℕ
  pub seq : Option ℕ
  pub ts_raw : Option ℕ
  pub period_us : Option ℕ
  pub payload_start : ℕ
  pub payload_len : ℕ
  pub frame_end : ℕ

-- Where `materialize_values` reads channel `ch` of sample `s`: the byte of a packed Boolean, and the
-- first byte of any other sample.
unfoldable pub bit_byte : ℕ → ℕ → ℕ → ℕ
bit_byte channels s ch = (s * channels + ch) / 8

unfoldable pub sample_offset : ℕ → ℕ → ℕ → ℕ → ℕ
sample_offset bps channels s ch = s * (bps * channels) + ch * bps

-- `&buf[from..to]`.
abbrev pub slice : ℕ → ℕ → List ℕ → List ℕ
slice from to buf = take (to - from) (drop from buf)

module _ (checksum : List ℕ → ℕ) (sync_pos : ℕ) where
  -- The stored checksum covers the flags byte up to the end of the payload.
  unfoldable pub check_crc : Bool → ℕ → List ℕ → Parse ℕ
  unfolding and_then word
  check_crc false payload_end buf = go payload_end
  check_crc true payload_end buf = and_then (word 2 payload_end buf) (λ stored.
      if checksum (slice (sync_pos + 4) payload_end buf) == stored.field
      then go stored.cur
      else reject)

  unfoldable pub parse_payload :
      ℕ → ℕ → Option ℕ → Option ℕ → Option ℕ → Reading ℕ → List ℕ → Parse Frame
  unfolding exact check_crc and_then
  parse_payload flags channels seq ts_raw period_us len buf =
      if exact len.field (datatype_of flags) channels
      then if ltb (length buf) (len.cur + len.field)
        then need_more
        else and_then (check_crc (has_crc flags) (len.cur + len.field) buf) (λ frame_end.
          go (record {
            flags = flags;
            channels = channels;
            seq = seq;
            ts_raw = ts_raw;
            period_us = period_us;
            payload_start = len.cur;
            payload_len = len.field;
            frame_end = frame_end;
          }))
      else reject

  unfoldable pub parse_fields : ℕ → ℕ → List ℕ → Parse Frame
  unfolding optional word and_then parse_payload
  parse_fields flags channels buf = and_then (optional (has_seq flags) 1 (sync_pos + 6) buf) (λ seq.
      and_then (optional (has_ts flags) 4 seq.cur buf) (λ ts.
        and_then (optional (has_period flags) 2 ts.cur buf) (λ period.
          and_then (word 2 period.cur buf)
            (λ len. parse_payload flags channels seq.field ts.field period.field len buf))))

  -- The flags byte and the number of channels are tested first.
  unfoldable pub parse_body : ℕ → ℕ → List ℕ → Parse Frame
  unfolding parse_fields
  parse_body flags channels buf =
      if datatype_of flags == 0xF
      then reject
      else if channels == 0 || ltb 64 channels
      then reject
      else parse_fields flags channels buf

  unfoldable pub parse_frame : List ℕ → Parse Frame
  unfolding parse_body byte_at
  parse_frame buf =
      if ltb (length buf) (sync_pos + 6)
      then need_more
      else parse_body (byte_at (sync_pos + 4) buf) (byte_at (sync_pos + 5) buf) buf
