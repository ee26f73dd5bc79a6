-- ===== src/Cbrt/Contents.antt =====
-- crates/cbrt/src/parser.rs: the coloured hexadecimal view of a frame.
use cycbox.Base.{ℕ, ◌+◌, min, List, [], ◌∷◌, ◌++◌, some, Bool, true, false, ltb, length, take, drop}
use cycbox.Base.Text.{Text, text, hex_byte_upper}
use cycbox.Content.{Content, header, length_field, data_bytes, checksum}

pub data ContentKind : Type 0 where
  header_kind length_kind data_kind checksum_kind : ContentKind

-- The bytes behind the first, each behind a blank.
unfoldable pub spaced : List ℕ → Text
spaced [] = []
spaced (b ∷ bs) = b' ' ∷ (hex_byte_upper b ++ spaced bs)

unfoldable pub hex_of : List ℕ → Text
unfolding spaced
hex_of [] = []
hex_of (b ∷ bs) = hex_byte_upper b ++ spaced bs

-- The contents so far, and the index of the next byte of the frame.
pub record View : Type 0 where
  pub contents : List Content
  pub pos : ℕ

unfoldable pub content_of : ContentKind → List ℕ → Text → Content
content_of header_kind hex label = header hex (some label)
content_of length_kind hex label = length_field hex (some label)
content_of data_kind hex label = data_bytes hex (some label)
content_of checksum_kind hex label = checksum hex (some label)

unfoldable pub push_hex : List ℕ → ℕ → Text → ContentKind → View → View
unfolding content_of hex_of
push_hex frame n label kind v =
    let end = min (v.pos + n) (length frame) in
    record {
      contents = v.contents ++ content_of kind (hex_of (drop v.pos (take end frame))) label ∷ [];
      pos = v.pos + n;
    }

abbrev when : Bool → (View → View) → View → View
when true f v = f v
when false f v = v

unfoldable pub format_contents : List ℕ → Bool → Bool → Bool → Bool → ℕ → List Content
unfolding push_hex
format_contents frame seq ts period crc payload_len =
    let v₀ = push_hex frame 4 (text "Sync") header_kind (record { contents = []; pos = 0 }) in
    let v₁ = push_hex frame 1 (text "FD") header_kind v₀ in
    let v₂ = push_hex frame 1 (text "CH") header_kind v₁ in
    let v₃ = when seq (push_hex frame 1 (text "Seq") header_kind) v₂ in
    let v₄ = when ts (push_hex frame 4 (text "Timestamp us") header_kind) v₃ in
    let v₅ = when period (push_hex frame 2 (text "Period us") header_kind) v₄ in
    let v₆ = push_hex frame 2 (text "Len") length_kind v₅ in
    let v₇ = when (ltb 0 payload_len) (push_hex frame payload_len (text "Payload") data_kind) v₆ in
    let v₈ = when crc (push_hex frame 2 (text "CRC-16") checksum_kind) v₇ in v₈.contents
