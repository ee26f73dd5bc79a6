-- ===== src/Cbrt/Stream/Laws.antt =====
-- crates/cbrt/src/codec.rs: the codec satisfies what the transport relies on.
use cycbox.Base.{ℕ, ◌+◌, ◌-◌, ◌<◌, ◌≤◌, ◌≡◌, List, some, arith, length, length-drop}
use cycbox.Message.{Message}
use cycbox.Codec.{Clock, Decoded, ok, Progresses, KeepsWithin, Lawful}
use cycbox.Cbrt.Frame.Bounds.{parse_frame-Sound}
use cycbox.Cbrt.Timing.{Floats}
use cycbox.Cbrt.Stream.{CbrtCodec, keep_tail, decode, cbrt_codec}
use cycbox.Cbrt.Stream.Cases.{decode-induct}

keep_tail-length : (buf : List ℕ) → length (keep_tail buf) ≤ length buf
unfolding keep_tail
keep_tail-length buf = ground (arith, length-drop (length buf - 3) buf)

-- No bytes are added, and a message takes some.
abbrev Shrinks : {S : Type 0} → List ℕ → Decoded S → Type 0
Shrinks buf d =
    (length d.buffer ≤ length buf)
    × ((m : Message) → d.outcome ≡ ok (some m) → length d.buffer < length buf)

module _ (checksum : List ℕ → ℕ) {F : Type 0} (floats : Floats F) where
  decode-Shrinks :
      (c : Clock) (s : CbrtCodec F) (buf : List ℕ) → Shrinks buf (decode checksum floats c s buf)
  decode-Shrinks c s =
      decode-induct checksum floats Shrinks c s (λ buf e. (keep_tail-length buf, λ m o. cc o))
        (λ buf i e p. (omega (arith, length-drop i buf), λ m o. cc o))
        (λ buf i f e p.
          let (after, fits, upto, _, _, _) = parse_frame-Sound checksum i buf f p in
          let left = length-drop f.frame_end buf in
          (omega (arith, left), λ m o. omega (arith, left, after, fits, upto)))
        (λ buf i d e p h.
          let left = length-drop (i + 1) buf in
          (omega (arith, h.0, left), λ m o. omega (arith, h.1 m o, left)))

  decode-Progresses : Progresses (decode checksum floats)
  decode-Progresses c s buf = (decode-Shrinks c s buf).1

  decode-KeepsWithin : KeepsWithin (decode checksum floats)
  decode-KeepsWithin c s buf = (decode-Shrinks c s buf).0

  -- The codec of CBRT frames is lawful: a delivered message uses up bytes, and no call lengthens
  -- the buffer.
  pub cbrt_codec-Lawful : Lawful (cbrt_codec checksum floats)
  cbrt_codec-Lawful = record {
    progresses = decode-Progresses;
    decode_within = decode-KeepsWithin;
    timeout_within = decode-KeepsWithin;
    eof_within = decode-KeepsWithin;
  }
