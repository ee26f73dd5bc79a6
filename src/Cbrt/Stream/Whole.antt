-- ===== src/Cbrt/Stream/Whole.antt =====
-- crates/cbrt/src/codec.rs: a frame that is in the stream is delivered.
use cycbox.Base.{
  ℕ, ◌+◌, ◌-◌, ◌*◌, ◌^◌, ◌<◌, ◌≡◌, refl, sym, ap, ap₂, ◌∙◌, List, [], ◌∷◌, ◌++◌, append_assoc, some,
  arith, length, take, drop, length-append, take-append_left, drop-append_left, bytes_eq,
}
use cycbox.Base.Words.{le_bytes, length-le_bytes}
use cycbox.Codec.{Clock, ok}
use cycbox.Message.{Message}
use cycbox.Message.Builder.{
  build, rx, with_timestamp, add_values, with_metadata, with_contents, frame_or_payload,
}
use cycbox.Cbrt.Frame.{
  Frame, slice, has_seq, has_ts, has_period, has_crc, compute_sample_count, datatype_of,
}
use cycbox.Cbrt.Frame.At.{field_bytes}
use cycbox.Cbrt.Frame.Written.{
  Written, Valid, body, frame_bytes, sync_word, read_back, parse_frame-frame_bytes,
}
use cycbox.Cbrt.Timing.{Floats}
use cycbox.Cbrt.Parse.{message_of, note_frame}
use cycbox.Cbrt.Rows.Samples.{length-materialize_values}
use cycbox.Cbrt.Stream.{CbrtCodec, find_sync, decode}
use cycbox.Cbrt.Stream.Skip.{decode_to_sync}
use cycbox.Cbrt.Stream.Cases.{decode_go, delivered}

-- The bytes in front of the payload.
abbrev front : Written → List ℕ
front w =
    sync_word
    ++ w.flags
      ∷ w.channels
      ∷ (field_bytes (has_seq w.flags) 1 w.seq
          ++ (field_bytes (has_ts w.flags) 4 w.ts
              ++ (field_bytes (has_period w.flags) 2 w.period ++ le_bytes 2 (length w.payload))))

-- Where the payload starts, counted from the sync word.
abbrev start : Written → ℕ
start w =
    0
    + 6
    + length (field_bytes (has_seq w.flags) 1 w.seq)
    + length (field_bytes (has_ts w.flags) 4 w.ts)
    + length (field_bytes (has_period w.flags) 2 w.period)
    + 2

length-front : (w : Written) → length (front w) ≡ start w
length-front w =
    let s = field_bytes (has_seq w.flags) 1 w.seq in
    let t = field_bytes (has_ts w.flags) 4 w.ts in
    let p = field_bytes (has_period w.flags) 2 w.period in
    let l = le_bytes 2 (length w.payload) in
    omega (
      arith,
      length-append s (t ++ (p ++ l)),
      length-append t (p ++ l),
      length-append p l,
      length-le_bytes 2 (length w.payload),
    )

module _ (checksum : List ℕ → ℕ) (w : Written) where
  abbrev crc : List ℕ
  crc = field_bytes (has_crc w.flags) 2 (checksum (body w))

  split : (rest : List ℕ) → frame_bytes checksum w ++ rest ≡ front w ++ (w.payload ++ (crc ++ rest))
  split rest = simp append_assoc

  abbrev frame : Frame
  frame = read_back w (start w) (length crc)

  length-frame : length (frame_bytes checksum w) ≡ frame.frame_end
  length-frame =
      let whole : frame_bytes checksum w ≡ front w ++ (w.payload ++ crc) = simp append_assoc in
      omega (
        arith,
        ap length whole,
        length-append (front w) (w.payload ++ crc),
        length-append w.payload crc,
        length-front w,
      )

  payload_slice :
      (rest : List ℕ)
      → slice frame.payload_start
          (frame.payload_start + frame.payload_len)
          (frame_bytes checksum w ++ rest)
        ≡ w.payload
  payload_slice rest =
      ap (slice (start w) (start w + length w.payload)) (split rest)
      ∙ ap (take (start w + length w.payload - start w))
          (drop-append_left (start w) (front w) (w.payload ++ (crc ++ rest)) (length-front w))
      ∙ take-append_left (start w + length w.payload - start w) w.payload (crc ++ rest)
          (omega arith)

  frame_slice :
      (rest : List ℕ)
      → (slice 0 frame.frame_end (frame_bytes checksum w ++ rest) ≡ frame_bytes checksum w)
        × (drop frame.frame_end (frame_bytes checksum w ++ rest) ≡ rest)
  frame_slice rest = (
    take-append_left (frame.frame_end - 0) (frame_bytes checksum w) rest
        (length-frame ∙ omega arith),
    drop-append_left frame.frame_end (frame_bytes checksum w) rest length-frame,
  )

  module _ {F : Type 0} (floats : Floats F) where
    decode_first :
        (c : Clock) (s : CbrtCodec F) (rest : List ℕ)
        → Valid w
        → checksum (body w) < 256 ^ 2
        → decode checksum floats c s (frame_bytes checksum w ++ rest)
          ≡ delivered checksum floats c s frame w.payload (frame_bytes checksum w) rest
    unfolding bytes_eq
    decode_first c s rest v fits =
        let here : find_sync (frame_bytes checksum w ++ rest) ≡ some 0 = unfold find_sync in refl in
        let (bytes, left) = frame_slice rest in
        decode_go checksum floats c s (frame_bytes checksum w ++ rest) 0 frame here
          (parse_frame-frame_bytes checksum w [] rest v fits)
        ∙ ap₂
            (λ payload bytes.
              delivered checksum floats c s frame payload bytes
                (drop frame.frame_end (frame_bytes checksum w ++ rest)))
            (payload_slice rest) bytes
        ∙ ap (delivered checksum floats c s frame w.payload (frame_bytes checksum w)) left

    -- What the message of the written frame holds.
    abbrev pub IsMessageOf : Message → Type 0
    IsMessageOf m =
        (m.payload ≡ w.payload)
        × (m.frame ≡ frame_bytes checksum w)
        × (length m.values
            ≡ compute_sample_count (length w.payload) (datatype_of w.flags) w.channels * w.channels)

    message_of-IsMessageOf :
        (c : Clock) (s : CbrtCodec F)
        → Valid w
        → IsMessageOf (
            message_of floats c.wall c.wall w.payload
              (frame_bytes checksum w)
              frame
              (note_frame floats c.wall frame s.state))
    unfolding message_of note_frame build frame_or_payload with_contents with_metadata add_values
        with_timestamp rx
    message_of-IsMessageOf c s v =
        let whole = v.whole in
        (
          refl,
          refl,
          length-materialize_values floats c.wall (length w.payload) (datatype_of w.flags)
              w.channels w.payload _ whole,
        )

    -- A frame whose fields fit their widths, whose header is acceptable, whose payload is whole
    -- samples and whose checksum has 16 bits is delivered at once, if the first sync word in the
    -- buffer is its own: with its payload, its bytes and one value for every sample of every
    -- channel; what stands in front of it is dropped and what stands behind it stays buffered.
    pub decode-frame_bytes :
        (c : Clock) (s : CbrtCodec F) (garbage rest : List ℕ)
        → Valid w
        → checksum (body w) < 256 ^ 2
        → find_sync (garbage ++ sync_word) ≡ some (length garbage)
        → let d = decode checksum floats c s (garbage ++ (frame_bytes checksum w ++ rest)) in
          (d.buffer ≡ rest) × ((m : Message) × (d.outcome ≡ ok (some m)) × IsMessageOf m)
    decode-frame_bytes c s garbage rest v fits first =
        let regroup : garbage ++ (frame_bytes checksum w ++ rest)
            ≡ (garbage ++ sync_word) ++ (body w ++ (crc ++ rest)) =
          simp append_assoc in
        let e : decode checksum floats c s (garbage ++ (frame_bytes checksum w ++ rest))
            ≡ delivered checksum floats c s frame w.payload (frame_bytes checksum w) rest =
          ap (decode checksum floats c s) regroup
          ∙ decode_to_sync checksum floats c s (garbage ++ sync_word) (body w ++ (crc ++ rest))
              (length garbage) first
          ∙ ap (λ t. decode checksum floats c s (t ++ (body w ++ (crc ++ rest))))
              (drop-append_left (length garbage) garbage sync_word refl)
          ∙ ap (decode checksum floats c s) (sym (simp append_assoc))
          ∙ decode_first c s rest v fits in
        rw e (refl, (_, refl, message_of-IsMessageOf c s v))
