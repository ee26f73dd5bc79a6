-- ===== src/Formatter/Hexdump.antt =====
-- crates/cycbox-engine/src/formatter/hexdump.rs: the hexadecimal view of a frame, with the
-- occurrences of a pattern highlighted.
pub mod Matches
pub mod Width
use cycbox.Base.{
  ℕ, zero, suc, ◌+◌, ◌-◌, ◌*◌, ◌/◌, ◌%◌, List, [], ◌∷◌, ◌++◌, Option, none, some, Bool, true, false,
  not, ◌&&◌, ◌||◌, ◌==◌, ltb, leb, bytes_eq, if◌then◌else◌, length, take, drop,
}
use cycbox.Base.Text.{Text, text}
use cycbox.Content.{
  Content, Color, styled, data_bytes, address, separator, highlight, error, tertiary,
  outline_variant,
}
use cycbox.Message.{Message}

-- `(32..=126).contains(&byte)`
unfoldable pub is_printable_ascii : ℕ → Bool
is_printable_ascii byte = leb 32 byte && leb byte 126

unfoldable pub byte_to_ascii_char : ℕ → ℕ
unfolding is_printable_ascii
byte_to_ascii_char byte = if is_printable_ascii byte then byte else b'.'

-- The pattern stands at `start_pos`.
unfoldable pub matches_at : List ℕ → List ℕ → ℕ → Bool
matches_at data_list wanted start_pos =
    leb (start_pos + length wanted) (length data_list)
    && bytes_eq (take (length wanted) (drop start_pos data_list)) wanted

-- `for start_pos in from..from + n`
unfoldable pub any_match : List ℕ → List ℕ → ℕ → ℕ → Bool
unfolding matches_at
any_match data_list wanted from zero = false
any_match data_list wanted from (suc n) =
    let rest = any_match data_list wanted (from + 1) n in
    if matches_at data_list wanted from then true else rest

unfoldable pub is_highlighted : List ℕ → ℕ → Option (List ℕ) → Bool
unfolding any_match
is_highlighted data_list pos none = false
is_highlighted data_list pos (some []) = false
is_highlighted data_list pos (some (b ∷ bs)) =
    let min_start = pos - length bs in any_match data_list (b ∷ bs) min_start (pos + 1 - min_start)

-- `{:x}` digits, and `{byte:02x} `.
abbrev hex_digit : ℕ → ℕ
hex_digit d = if ltb d 10 then b'0' + d else b'a' + d - 10

abbrev pub hex_cell : ℕ → Text
hex_cell byte = hex_digit (byte / 16 % 16) ∷ hex_digit (byte % 16) ∷ b' ' ∷ []

-- `{byte_offset:04x}` takes more digits when four are not enough.
unfoldable pub hex_digits : ℕ → ℕ → Text
hex_digits zero n = []
hex_digits (suc fuel) n =
    let rest = hex_digits fuel (n / 16) in
    (if ltb n 16 then [] else rest) ++ hex_digit (n % 16) ∷ []

unfoldable pub zeros : ℕ → Text
zeros zero = []
zeros (suc n) = b'0' ∷ zeros n

unfoldable pub address_str : ℕ → Text
unfolding hex_digits zeros
address_str n = let digits = hex_digits (suc n) n in zeros (4 - length digits) ++ digits

-- `s.repeat(n)`
unfoldable pub repeat : ℕ → Text → Text
repeat zero s = []
repeat (suc n) s = s ++ repeat n s

abbrev pub same_flag : Bool → Bool → Bool
same_flag true b = b
same_flag false b = not b

-- What the loop over the bytes of a line keeps.
pub record HexRun : Type 0 where
  pub contents : List Content
  pub hex_buffer : Text
  pub is_buffer_highlighted : Bool
  pub first_byte_in_buffer : Bool
  pub has_highlighted_content : Bool

unfoldable pub hex_content : Bool → Text → Content
hex_content is_on buffer = if is_on then highlight buffer none else data_bytes buffer none

-- The buffer is flushed when the highlighting changes.
unfoldable pub hex_flush : Bool → HexRun → HexRun
unfolding hex_content
hex_flush is_on r =
    if not r.first_byte_in_buffer && not (same_flag is_on r.is_buffer_highlighted)
    then record r {
      contents = r.contents ++ hex_content r.is_buffer_highlighted r.hex_buffer ∷ [];
      hex_buffer = [];
    }
    else r

unfoldable pub hex_byte : ℕ → Bool → ℕ → HexRun → HexRun
unfolding hex_flush
hex_byte i is_on byte r =
    let flushed = hex_flush is_on r in
    record flushed {
      hex_buffer = flushed.hex_buffer ++ ((if i % 8 == 0 then text "  " else []) ++ hex_cell byte);
      is_buffer_highlighted = is_on;
      first_byte_in_buffer = false;
      has_highlighted_content = flushed.has_highlighted_content || is_on;
    }

-- `marked` tells for a position whether it is highlighted.
unfoldable pub hex_bytes : (ℕ → Bool) → ℕ → ℕ → List ℕ → HexRun → HexRun
unfolding hex_byte
hex_bytes marked byte_offset i [] r = r
hex_bytes marked byte_offset i (byte ∷ rest) r =
    hex_bytes marked byte_offset (i + 1) rest (hex_byte i (marked (byte_offset + i)) byte r)

unfoldable pub hex_finish : HexRun → List Content
unfolding hex_content
hex_finish r = elim r.hex_buffer [
  | [] ↦ r.contents
  | b ∷ bs ↦ r.contents ++ hex_content r.is_buffer_highlighted r.hex_buffer ∷ []
]

abbrev pub hex_start : Bool → HexRun
hex_start seen = record {
  contents = [];
  hex_buffer = [];
  is_buffer_highlighted = false;
  first_byte_in_buffer = true;
  has_highlighted_content = seen;
}

unfoldable pub hex_padding : List ℕ → List Content
unfolding repeat
hex_padding chunk =
    if ltb (length chunk) 16
    then (let missing_bytes = 16 - length chunk in
        data_bytes (repeat missing_bytes (text "   ") ++ repeat (missing_bytes / 8) (text "  "))
          none
        ∷ [])
    else []

-- The colour is one of three: they differ when one of the two tests differs.
unfoldable pub ascii_color : Bool → Bool → Color
ascii_color true printable = error
ascii_color false true = tertiary
ascii_color false false = outline_variant

-- `current_color` with what it was made from; the source compares the colours, which are equal for
-- all highlighted bytes.
pub record AsciiRun : Type 0 where
  pub contents : List Content
  pub ascii_buffer : Text
  pub current : Option (Bool × Bool)

unfoldable pub same_style : Bool × Bool → Bool × Bool → Bool
same_style (on, printable) (on', printable') =
    same_flag on on' && (on || same_flag printable printable')

unfoldable pub ascii_content : Bool × Bool → Text → Content
unfolding ascii_color
ascii_content (on, printable) buffer = styled buffer (ascii_color on printable) on none

unfoldable pub ascii_flush : Bool × Bool → AsciiRun → AsciiRun
unfolding same_style ascii_content
ascii_flush style r = elim r.current [
  | none ↦ r
  | some prev ↦ if same_style prev style then r else record r {
    contents = r.contents ++ ascii_content prev r.ascii_buffer ∷ [];
    ascii_buffer = [];
  }
]

unfoldable pub ascii_bytes : (ℕ → Bool) → ℕ → ℕ → List ℕ → AsciiRun → AsciiRun
unfolding ascii_flush byte_to_ascii_char is_printable_ascii
ascii_bytes marked byte_offset i [] r = r
ascii_bytes marked byte_offset i (byte ∷ rest) r =
    let style : Bool × Bool = (marked (byte_offset + i), is_printable_ascii byte) in
    let flushed = ascii_flush style r in
    ascii_bytes marked byte_offset (i + 1) rest (record flushed {
      ascii_buffer = flushed.ascii_buffer ++ byte_to_ascii_char byte ∷ [];
      current = some style;
    })

unfoldable pub ascii_finish : AsciiRun → List Content
unfolding ascii_content
ascii_finish r = elim r.current [
  | none ↦ r.contents
  | some style ↦ elim r.ascii_buffer [
    | [] ↦ r.contents
    | b ∷ bs ↦ r.contents ++ ascii_content style r.ascii_buffer ∷ []
  ]
]

unfoldable pub ascii_padding : List ℕ → List Content
unfolding repeat
ascii_padding chunk =
    if ltb (length chunk) 16
    then data_bytes (repeat (16 - length chunk) (text " ")) none ∷ []
    else []

abbrev pub newline : Text
newline = 10 ∷ []

-- One line, and whether something has been highlighted so far.
unfoldable pub line : (ℕ → Bool) → ℕ → ℕ → List ℕ → Bool → List Content × Bool
unfolding address_str hex_bytes hex_finish hex_padding ascii_bytes ascii_finish ascii_padding
line marked total line_offset chunk seen =
    let byte_offset = line_offset * 16 in
    let run = hex_bytes marked byte_offset 0 chunk (hex_start seen) in
    let ascii =
      ascii_bytes marked byte_offset 0 chunk
        (record { contents = []; ascii_buffer = []; current = none }) in
    let is_last_line = leb total ((line_offset + 1) * 16) in
    (
      address (address_str byte_offset) none
          ∷ (hex_finish run
              ++ (hex_padding chunk
                  ++ separator (text "  ")
                    ∷ separator (text "|")
                    ∷ (ascii_finish ascii
                        ++ (ascii_padding chunk
                            ++ separator (text "|")
                              ∷ (if is_last_line then [] else separator newline ∷ []))))),
      run.has_highlighted_content,
    )

-- `data.chunks(16)`: the length of the data is enough fuel.
unfoldable pub lines : (ℕ → Bool) → ℕ → ℕ → ℕ → List ℕ → Bool → List Content × Bool
unfolding line
lines marked total zero line_offset bytes seen = ([], seen)
lines marked total (suc fuel) line_offset [] seen = ([], seen)
lines marked total (suc fuel) line_offset (b ∷ bs) seen =
    let (first, seen') = line marked total line_offset (take 16 (b ∷ bs)) seen in
    let (rest, seen'') = lines marked total fuel (line_offset + 1) (drop 16 (b ∷ bs)) seen' in
    (first ++ rest, seen'')

unfoldable pub format_hexdump : Option (List ℕ) → Message → Message
unfolding lines is_highlighted
format_hexdump highlight_bytes m = elim m.frame [
  | [] ↦ record m { hex_contents = data_bytes (text "(empty data)") none ∷ []; highlighted = false }
  | b ∷ bs ↦
      let (contents, seen) =
        lines (λ pos. is_highlighted m.frame pos highlight_bytes) (length m.frame) (length m.frame)
          0 m.frame false in
      record m { hex_contents = contents; highlighted = seen }
]
