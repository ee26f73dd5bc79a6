-- ===== src/Cbrt/Stream.antt =====
-- crates/cbrt/src/codec.rs: the codec, which looks for frames in the receive buffer.
pub mod Scan
pub mod Skip
pub mod Cases
pub mod Chunks
pub mod Whole
pub mod Laws
use mathlib.Core.Option
use cycbox.Base.{
  ℕ, zero, suc, ◌+◌, ◌-◌, List, [], ◌∷◌, Option, some, none, Bool, bytes_eq, ltb, if◌then◌else◌,
  length, take, drop,
}
use cycbox.Message.{Message}
use cycbox.Codec.{Clock, Decoded, Codec, Result, ok, stateless_codec}
use cycbox.Cbrt.Frame.{Parse, need_more, reject, go}
use cycbox.Cbrt.Session.{SessionState, reset}
use cycbox.Cbrt.Timing.{Floats}
use cycbox.Cbrt.Parse.{Completed, parse_at}

-- `CBRT_SYNC`
abbrev pub cbrt_sync : List ℕ
cbrt_sync = 0x43 ∷ 0x42 ∷ 0x52 ∷ 0x54 ∷ []

abbrev pub is_sync : List ℕ → Bool
is_sync window = bytes_eq (take 4 window) cbrt_sync

-- `buffer.windows(4).position(|w| w == CBRT_SYNC)`: a window is the first four bytes of a suffix.
unfoldable pub find_sync : List ℕ → Option ℕ
find_sync [] = none
find_sync (b ∷ bs) =
    let rest = find_sync bs in if is_sync (b ∷ bs) then some 0 else Option.map suc rest

-- `CbrtCodec`
pub record CbrtCodec (F : Type 0) : Type 0 where
  pub state : SessionState F

-- Without a sync word the last three bytes stay, in case it is split across reads.
unfoldable pub keep_tail : List ℕ → List ℕ
keep_tail buf = if ltb 3 (length buf) then drop (length buf - 3) buf else buf

-- `item.frame` is filled from the payload when it is empty.
unfoldable pub encode : {F : Type 0} → CbrtCodec F → Message → Message
encode s m = elim m.frame [ [] ↦ record m { frame = m.payload } | b ∷ bs ↦ m ]

unfoldable pub reset_codec : {F : Type 0} → CbrtCodec F → CbrtCodec F
unfolding reset
reset_codec s = record { state = reset s.state }

module _ (checksum : List ℕ → ℕ) {F : Type 0} (floats : Floats F) where
  -- What the loop does with the outcome at `sync_pos`; `again` rescans behind the rejected sync word.
  unfoldable pub handle :
      CbrtCodec F → List ℕ → ℕ → Parse (Completed F) → Decoded (CbrtCodec F) → Decoded (CbrtCodec F)
  handle s buf sync_pos need_more again = record {
    codec = s;
    buffer = drop sync_pos buf;
    outcome = ok none;
  }
  handle s buf sync_pos reject again = again
  handle s buf sync_pos (go done) again = record {
    codec = record { state = done.state };
    buffer = drop done.frame_end buf;
    outcome = ok (some done.message);
  }

  -- The loop of `decode`. Each round drops at least one byte, so that the length of the buffer
  -- and one more is enough fuel.
  unfoldable pub scan : ℕ → Clock → CbrtCodec F → List ℕ → Decoded (CbrtCodec F)
  unfolding handle find_sync parse_at keep_tail
  scan zero c s buf = record { codec = s; buffer = buf; outcome = ok none }
  scan (suc fuel) c s buf =
      if ltb (length buf) 4
      then record { codec = s; buffer = buf; outcome = ok none }
      else elim (find_sync buf) [
        | none ↦ record { codec = s; buffer = keep_tail buf; outcome = ok none }
        | some sync_pos ↦
            handle s buf sync_pos (parse_at floats checksum c.wall c.wall s.state buf sync_pos)
              (scan fuel c s (drop (sync_pos + 1) buf))
      ]

  unfoldable pub decode : Clock → CbrtCodec F → List ℕ → Decoded (CbrtCodec F)
  unfolding scan
  decode c s buf = scan (suc (length buf)) c s buf

  abbrev pub cbrt_codec : Codec (CbrtCodec F)
  cbrt_codec = record {
    decode = decode;
    decode_timeout = decode;
    decode_eof = decode;
    encode = λ s m. ok (s, encode s m);
    reset = reset_codec;
  }
