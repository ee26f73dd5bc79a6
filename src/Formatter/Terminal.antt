-- ===== src/Formatter/Terminal.antt =====
-- crates/cycbox-engine/src/formatter/terminal.rs: the text view of a frame, with the occurrences of
-- a pattern highlighted. The encodings of `encoding_rs` and the text functions of the standard
-- library are parameters.
pub mod Pieces
use mathlib.Core.Option
use cycbox.Base.{
  ℕ, zero, suc, ◌+◌, ◌-◌, ◌*◌, List, [], ◌∷◌, ◌++◌, Option, none, some, Bool, true, false, not,
  ◌&&◌, ◌||◌, ◌==◌, ltb, leb, bytes_eq, if◌then◌else◌, length, take, drop,
}
use cycbox.Base.Text.{Text, text}
use cycbox.Content.{Content, Decoration, rich_text, default_decoration, on_surface_variant, error}
use cycbox.Message.{Message}

-- `text.replace("\r\n", "\n")` and `replace('\r', "\n")`.
unfoldable pub replace_crlf : Text → Text
replace_crlf [] = []
replace_crlf (a ∷ []) = a ∷ []
replace_crlf (a ∷ b ∷ rest) =
    let short = replace_crlf rest in
    let long = replace_crlf (b ∷ rest) in if a == 13 && b == 10 then 10 ∷ short else a ∷ long

unfoldable pub replace_cr : Text → Text
replace_cr [] = []
replace_cr (a ∷ rest) = (if a == 13 then 10 else a) ∷ replace_cr rest

unfoldable pub normalize_line_endings : Text → Text
unfolding replace_crlf replace_cr
normalize_line_endings t = replace_cr (replace_crlf t)

-- `text.strip_suffix('\n').unwrap_or(&text)`
unfoldable pub strip_newline : Text → Text
strip_newline [] = []
strip_newline (a ∷ []) = if a == 10 then [] else a ∷ []
strip_newline (a ∷ b ∷ rest) = a ∷ strip_newline (b ∷ rest)

-- `char::is_control` of a code point: the general category Cc.
abbrev is_control : ℕ → Bool
is_control c = ltb c 32 || (leb 127 c && leb c 159)

unfoldable pub is_viewable_char : ℕ → Bool
is_viewable_char c = not (is_control c) || c == 10 || c == 13 || c == 9

unfoldable pub count_non_viewable : List ℕ → ℕ
unfolding is_viewable_char
count_non_viewable [] = 0
count_non_viewable (c ∷ cs) =
    let rest = count_non_viewable cs in if is_viewable_char c then rest else suc rest

-- `find`: where the text `wanted` first stands.
unfoldable pub find : Text → Text → Option ℕ
find wanted [] = if bytes_eq wanted [] then some 0 else none
find wanted (b ∷ bs) =
    let rest = find wanted bs in
    if bytes_eq (take (length wanted) (b ∷ bs)) wanted then some 0 else Option.map suc rest

abbrev pub piece : Decoration → Text → Content
piece d t = record { content_type = rich_text; decoration = d; payload = t; label = none }

abbrev pub normal : Text → Content
normal t = piece default_decoration t

abbrev pub marked : Text → Content
marked t = piece (record default_decoration { color = error; bold = true }) t

-- What the loop over the matches keeps.
pub record Highlighting : Type 0 where
  pub contents : List Content
  pub last_pos : ℕ
  pub search_start : ℕ
  pub has_highlighted_content : Bool

-- The text before the match, if there is any, and the match.
unfoldable pub add_match : Text → Text → ℕ → Highlighting → Highlighting
add_match t wanted pos h =
    let abs_pos = h.search_start + pos in
    let match_end = abs_pos + length wanted in
    let before =
      if ltb h.last_pos abs_pos
      then normal (take (abs_pos - h.last_pos) (drop h.last_pos t)) ∷ []
      else [] in
    record {
      contents =
          h.contents ++ (before ++ marked (take (match_end - abs_pos) (drop abs_pos t)) ∷ []);
      last_pos = match_end;
      search_start = match_end;
      has_highlighted_content = true;
    }

-- `while let Some(pos) = text[search_start..].find(&search_text)`; without fuel there is no result.
unfoldable pub find_all : ℕ → Text → Text → Highlighting → Option Highlighting
unfolding find add_match
find_all zero t wanted h = none
find_all (suc fuel) t wanted h = elim (find wanted (drop h.search_start t)) [
  | none ↦ some h
  | some pos ↦ find_all fuel t wanted (add_match t wanted pos h)
]

abbrev pub at_start : Highlighting
at_start = record { contents = []; last_pos = 0; search_start = 0; has_highlighted_content = false }

-- The text after the last match, if there is any.
unfoldable pub after : Text → ℕ → List Content
after t last_pos = if ltb last_pos (length t) then normal (drop last_pos t) ∷ [] else []

-- Without any content the text stands alone.
unfoldable pub whole_or : Text → List Content → List Content
whole_or t [] = normal t ∷ []
whole_or t (c ∷ cs) = c ∷ cs

unfoldable pub finish : Text → Highlighting → List Content
unfolding after whole_or
finish t h = whole_or t (h.contents ++ after t h.last_pos)

abbrev plain_text_of : Text → Message → Message
plain_text_of t m = record m { display_hex = false; contents = normal t ∷ []; highlighted = false }

abbrev as_hex : Message → Message
as_hex m = record m { display_hex = true; highlighted = false }

-- `chars` are the code points of a text. An encoding is UTF-8, of which `is_utf8` tells what is
-- well-formed, or another one, which decodes bytes or reports errors.
pub record Encodings (E : Type 0) : Type 0 where
  pub chars : Text → List ℕ
  pub is_utf8 : List ℕ → Bool
  pub utf_8 : E → Bool
  pub decode : E → List ℕ → Option Text

module _ {E : Type 0} (encodings : Encodings E) where
  unfoldable pub decode_bytes : E → List ℕ → Option Text
  unfolding normalize_line_endings
  decode_bytes encoding bytes =
      if encodings.utf_8 encoding
      then if encodings.is_utf8 bytes then some (normalize_line_endings bytes) else none
      else Option.map normalize_line_endings (encodings.decode encoding bytes)

  unfoldable pub has_too_many_non_viewable_chars : Text → Bool
  unfolding count_non_viewable
  has_too_many_non_viewable_chars [] = false
  has_too_many_non_viewable_chars (b ∷ bs) =
      let cs = encodings.chars (b ∷ bs) in ltb (length cs) (count_non_viewable cs * 10)

  -- The text with the matches of `wanted`, on the given fuel.
  unfoldable pub highlight_text : ℕ → Text → Text → Message → Option Message
  unfolding find_all finish
  highlight_text fuel t wanted m =
      Option.map
        (λ h. record m {
          display_hex = false;
          contents = finish t h;
          highlighted = h.has_highlighted_content;
        })
        (find_all fuel t wanted at_start)

  -- The text of a frame. The length of the text and one more is enough fuel for a pattern that is
  -- not empty.
  unfoldable pub format_text : E → Option (List ℕ) → Text → Message → Option Message
  unfolding highlight_text decode_bytes
  format_text encoding none t m = some (plain_text_of t m)
  format_text encoding (some []) t m = some (plain_text_of t m)
  format_text encoding (some (b ∷ bs)) t m = elim (decode_bytes encoding (b ∷ bs)) [
    | none ↦ some (plain_text_of t m)
    | some wanted ↦ highlight_text (suc (length t)) t wanted m
  ]

  -- `none` stands for a call that does not return.
  unfoldable pub format_terminal : E → Option (List ℕ) → Message → Option Message
  unfolding decode_bytes strip_newline has_too_many_non_viewable_chars format_text
  format_terminal encoding highlight_bytes m = elim m.contents [
    | c ∷ cs ↦ some m
    | [] ↦ elim m.frame [
      | [] ↦ some (record m {
        contents =
            piece (record default_decoration { color = on_surface_variant; italic = true })
              (text "(empty data)")
            ∷ [];
        highlighted = false;
        display_hex = false;
      })
      | b ∷ bs ↦ elim (decode_bytes encoding m.frame) [
        | none ↦ some (as_hex m)
        | some decoded ↦
            let t = strip_newline decoded in
            if has_too_many_non_viewable_chars t
            then some (as_hex m)
            else format_text encoding highlight_bytes t m
      ]
    ]
  ]
