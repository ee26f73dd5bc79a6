-- ===== src/Codec/Line.antt =====
-- crates/cycbox-runtime/src/codec/line.rs: frames end in "\n" or in "\r\n".
pub mod Split
pub mod RoundTrip
use mathlib.Core.Option
use cycbox.Base.{
  ℕ, suc, ◌+◌, ◌-◌, List, [], ◌∷◌, ◌++◌, Option, some, none, Bool, true, false, ◌&&◌, ◌==◌, leb,
  if◌then◌else◌, bytes_eq, length, take, drop, position,
}
use cycbox.Base.Text.{Text, text}
use cycbox.Message.{Message}
use cycbox.Codec.{Clock, Decoded, Codec, ok, received, need_more, stateless_codec}

pub data LineEnding : Type 0 where
  lf crlf : LineEnding

unfoldable pub new_from_str : Text → LineEnding
unfolding bytes_eq
new_from_str s =
    if bytes_eq s (text "lf") then lf else if bytes_eq s (text "crlf") then crlf else lf

pub record LineCodec : Type 0 where
  pub line_ending : LineEnding

abbrev pub default_line_codec : LineCodec
default_line_codec = record { line_ending = lf }

-- `frame = src.split_to(end)`; the payload is the frame without its last `trailer` bytes.
unfoldable pub cut_line : Clock → LineCodec → ℕ → ℕ → List ℕ → Decoded LineCodec
cut_line c s end trailer buf =
    let frame = take end buf in
    record {
      codec = s;
      buffer = drop end buf;
      outcome = ok (some (received c (take (length frame - trailer) frame) frame));
    }

starts_with_lf : List ℕ → Bool
starts_with_lf [] = false
starts_with_lf (b ∷ bs) = b == b'\n'

-- The first index `i` with `line[i] == b'\r' && i + 1 < line.len() && line[i + 1] == b'\n'`.
unfoldable pub find_crlf : List ℕ → Option ℕ
unfolding starts_with_lf
find_crlf [] = none
find_crlf (b ∷ bs) =
    if b == b'\r' && starts_with_lf bs then some 0 else Option.map suc (find_crlf bs)

unfoldable pub decode_lf : Clock → LineCodec → List ℕ → Decoded LineCodec
unfolding cut_line
decode_lf c s buf = elim (position b'\n' buf) [
  | some i ↦ cut_line c s (i + 1) 1 buf
  | none ↦ need_more s buf
]

unfoldable pub decode_crlf : Clock → LineCodec → List ℕ → Decoded LineCodec
unfolding cut_line
decode_crlf c s buf = elim (find_crlf buf) [
  | some i ↦ cut_line c s (i + 2) 2 buf
  | none ↦ need_more s buf
]

unfoldable pub decode : Clock → LineCodec → List ℕ → Decoded LineCodec
decode c s buf = elim s.line_ending [ lf ↦ decode_lf c s buf | crlf ↦ decode_crlf c s buf ]

unfoldable pub ends_with : List ℕ → List ℕ → Bool
ends_with suffix bs =
    leb (length suffix) (length bs) && bytes_eq (drop (length bs - length suffix) bs) suffix

abbrev pub ending_bytes : LineEnding → List ℕ
ending_bytes lf = b'\n' ∷ []
ending_bytes crlf = b'\r' ∷ b'\n' ∷ []

-- The ending is added unless the payload has it already.
unfoldable pub encode : LineCodec → Message → Message
encode s m =
    let ending = ending_bytes s.line_ending in
    record m { frame = if ends_with ending m.payload then m.payload else m.payload ++ ending }

abbrev pub line_codec : Codec LineCodec
line_codec = stateless_codec decode encode
