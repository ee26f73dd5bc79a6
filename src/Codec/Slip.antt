-- ===== src/Codec/Slip.antt =====
-- crates/cycbox-runtime/src/codec/slip.rs: the Serial Line Internet Protocol. END delimits frames,
-- and ESC introduces the two-byte forms of END and ESC inside a frame.
pub mod Escape
pub mod Frames
use cycbox.Base.{
  ℕ, suc, ◌+◌, List, [], ◌∷◌, ◌++◌, Option, some, none, Bool, true, false, ◌==◌, if◌then◌else◌,
  take, drop, position,
}
use cycbox.Base.Text.{Text, text, hex_byte_upper}
use cycbox.Message.{Message}
use cycbox.Codec.{
  Clock, Decoded, Codec, CycBoxError, Result, ok, err, received, need_more, stateless_codec,
}

abbrev pub end_byte : ℕ
end_byte = 0xC0

abbrev pub esc : ℕ
esc = 0xDB

abbrev pub esc_end : ℕ
esc_end = 0xDC

abbrev pub esc_esc : ℕ
esc_esc = 0xDD

pub record SlipCodec : Type 0 where
  pub push_leading_end : Bool

abbrev pub default_slip_codec : SlipCodec
default_slip_codec = record { push_leading_end = true }

-- The `for &byte in data` loop of `encode_slip`.
unfoldable pub escape : List ℕ → List ℕ
escape [] = []
escape (b ∷ bs) =
    let rest = escape bs in
    if b == end_byte
    then esc ∷ esc_end ∷ rest
    else if b == esc
    then esc ∷ esc_esc ∷ rest
    else b ∷ rest

abbrev pub leading : SlipCodec → List ℕ
leading s = if s.push_leading_end then end_byte ∷ [] else []

unfoldable pub encode_slip : SlipCodec → List ℕ → List ℕ
encode_slip s bytes = leading s ++ (escape bytes ++ end_byte ∷ [])

abbrev pub esc_at_end : CycBoxError
esc_at_end = CycBoxError.parse (text "Invalid SLIP encoding: ESC at end of frame")

abbrev pub bad_escape : ℕ → CycBoxError
bad_escape next =
    CycBoxError.parse
      (text "Invalid SLIP encoding: ESC followed by unexpected byte 0x" ++ hex_byte_upper next)

abbrev pub unescaped_end : CycBoxError
unescaped_end = CycBoxError.parse (text "Invalid SLIP encoding: unescaped END byte in frame data")

-- The loop of `decode_slip`: the bytes from index `i` on, and what is decoded so far.
unfoldable pub decode_slip_loop : List ℕ → List ℕ → Result (List ℕ)
decode_slip_loop [] decoded = ok decoded
decode_slip_loop (b ∷ []) decoded =
    if b == esc
    then err esc_at_end
    else if b == end_byte
    then err unescaped_end
    else ok (decoded ++ b ∷ [])
decode_slip_loop (b ∷ next ∷ rest) decoded =
    let ended = decode_slip_loop rest (decoded ++ end_byte ∷ []) in
    let escaped = decode_slip_loop rest (decoded ++ esc ∷ []) in
    let plain = decode_slip_loop (next ∷ rest) (decoded ++ b ∷ []) in
    if b == esc
    then if next == esc_end
      then ended
      else if next == esc_esc
      then escaped
      else err (bad_escape next)
    else if b == end_byte
    then err unescaped_end
    else plain

unfoldable pub decode_slip : List ℕ → Result (List ℕ)
unfolding decode_slip_loop
decode_slip frame_data = decode_slip_loop frame_data []

-- The frame has been split off; `frame_data` is the frame without its END.
unfoldable pub decode_frame : Clock → SlipCodec → List ℕ → List ℕ → List ℕ → Decoded SlipCodec
decode_frame c s [] frame rest = record { codec = s; buffer = rest; outcome = ok none }
decode_frame c s (b ∷ bs) frame rest = elim (decode_slip (b ∷ bs)) [
  | ok payload ↦ record { codec = s; buffer = rest; outcome = ok (some (received c payload frame)) }
  | err e ↦ record { codec = s; buffer = rest; outcome = err e }
]

unfoldable pub decode : Clock → SlipCodec → List ℕ → Decoded SlipCodec
unfolding decode_frame
decode c s buf = elim (position end_byte buf) [
  | some end_pos ↦
      decode_frame c s (take end_pos buf) (take (end_pos + 1) buf) (drop (end_pos + 1) buf)
  | none ↦ need_more s buf
]

unfoldable pub encode : SlipCodec → Message → Message
unfolding encode_slip
encode s m = record m { frame = encode_slip s m.payload }

abbrev pub slip_codec : Codec SlipCodec
slip_codec = stateless_codec decode encode
