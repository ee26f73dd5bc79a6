-- ===== src/Formatter/Hexdump/Width.antt =====
-- crates/cycbox-engine/src/formatter/hexdump.rs: the columns of a line.
use cycbox.Base.{
  ℕ, zero, suc, ◌+◌, ◌-◌, ◌*◌, ◌/◌, ◌%◌, ◌≤◌, ◌<◌, ◌≡◌, ◌∙◌, ◌⊎◌, inl, inr, refl, ap, List, [], ◌∷◌,
  ◌++◌, Option, some, none, Bool, true, false, ltb, leb, Bool-cases, arith, length, length-append,
  if◌then◌else◌, ◌==◌,
}
use cycbox.Base.Text.{Text, text}
use cycbox.Content.{Content, styled, data_bytes, highlight, address, separator}
use cycbox.Formatter.Hexdump.{
  HexRun, AsciiRun, hex_flush, hex_byte, hex_bytes, hex_finish, hex_start, hex_padding, hex_content,
  hex_cell, repeat, ascii_content, ascii_flush, ascii_bytes, ascii_finish, ascii_padding,
  byte_to_ascii_char, is_printable_ascii, same_style, line, address_str, newline,
}

-- The number of characters of some contents.
unfoldable pub width : List Content → ℕ
width [] = 0
width (c ∷ cs) = length c.payload + width cs

width-append : (xs ys : List Content) → width (xs ++ ys) ≡ width xs + width ys
unfolding width
width-append [] ys = omega arith
width-append (c ∷ xs) ys = omega (arith, width-append xs ys)

width-snoc : (xs : List Content) (c : Content) → width (xs ++ c ∷ []) ≡ width xs + length c.payload
unfolding width
width-snoc xs c = omega (arith, width-append xs (c ∷ []))

hex_content-payload : (on : Bool) (buffer : Text) → (hex_content on buffer).payload ≡ buffer
unfolding hex_content highlight data_bytes styled
hex_content-payload true buffer = refl
hex_content-payload false buffer = refl

length-repeat : (n : ℕ) (s : Text) → length (repeat n s) ≡ n * length s
unfolding repeat
length-repeat zero s = omega arith
length-repeat (suc n) s = grind (arith, length-append s (repeat n s), length-repeat n s)

abbrev hex_width : HexRun → ℕ
hex_width r = width r.contents + length r.hex_buffer

hex_flush-width : (on : Bool) (r : HexRun) → hex_width (hex_flush on r) ≡ hex_width r
unfolding hex_flush
hex_flush-width on r = ground (
  arith,
  width-snoc r.contents (hex_content r.is_buffer_highlighted r.hex_buffer),
  ap length (hex_content-payload r.is_buffer_highlighted r.hex_buffer),
)

hex_byte-width :
    (i : ℕ) (on : Bool) (byte : ℕ) (r : HexRun)
    → hex_width (hex_byte i on byte r) ≡ hex_width r + 3 + (if i % 8 == 0 then 2 else 0)
unfolding hex_byte
hex_byte-width i on byte r =
    let buffer = (hex_flush on r).hex_buffer in
    let flushed = hex_flush-width on r in
    elim (Bool-cases (i % 8 == 0)) [
      | inl first ↦
          rw first (omega (arith, flushed, length-append buffer (text "  " ++ hex_cell byte)))
      | inr inner ↦ rw inner (omega (arith, flushed, length-append buffer (hex_cell byte)))
    ]

hex_bytes-width :
    (marked : ℕ → Bool) (off i : ℕ) (chunk : List ℕ) (r : HexRun)
    → hex_width (hex_bytes marked off i chunk r) + 2 * ((i + 7) / 8)
      ≡ hex_width r + 3 * length chunk + 2 * ((i + length chunk + 7) / 8)
unfolding hex_bytes
hex_bytes-width marked off i [] r = omega arith
hex_bytes-width marked off i (byte ∷ rest) r =
    let on = marked (off + i) in
    let later = hex_bytes-width marked off (i + 1) rest (hex_byte i on byte r) in
    elim (Bool-cases (i % 8 == 0)) [
      | inl first ↦
          let group : hex_width (hex_byte i on byte r) ≡ hex_width r + 5 =
            hex_byte-width i on byte r ∙ rw first (omega arith) in
          let zero' : i % 8 ≡ 0 = ground arith in omega (arith, later, group, zero')
      | inr inner ↦
          let cell : hex_width (hex_byte i on byte r) ≡ hex_width r + 3 =
            hex_byte-width i on byte r ∙ rw inner (omega arith) in
          let within : 0 < i % 8 = ground arith in omega (arith, later, cell, within)
    ]

hex_finish-width : (r : HexRun) → width (hex_finish r) ≡ hex_width r
unfolding hex_finish
hex_finish-width r = by_buffer r.hex_buffer refl
  where
    by_buffer :
        (b : Text)
        → r.hex_buffer ≡ b
        → width (hex_finish r) ≡ width r.contents + length r.hex_buffer
    by_buffer [] e = rw e (omega arith)
    by_buffer (b ∷ bs) e = rw e (
        width-snoc r.contents (hex_content r.is_buffer_highlighted (b ∷ bs))
        ∙ ap (λ t. width r.contents + length t)
            (hex_content-payload r.is_buffer_highlighted (b ∷ bs)))

hex_padding-width :
    (chunk : List ℕ)
    → length chunk ≤ 16
    → width (hex_padding chunk) ≡ 3 * (16 - length chunk) + 2 * ((16 - length chunk) / 8)
unfolding hex_padding width data_bytes styled
hex_padding-width chunk h = elim (Bool-cases (ltb (length chunk) 16)) [
  | inr full ↦ rw full (ground arith)
  | inl short ↦
      let n = 16 - length chunk in
      let cells = repeat n (text "   ") in
      let gaps = repeat (n / 8) (text "  ") in
      rw short (
        omega (
          arith,
          length-append cells gaps,
          length-repeat n (text "   "),
          length-repeat (n / 8) (text "  "),
        ))
]

-- The cells of a line with their padding.
hex_columns :
    (marked : ℕ → Bool) (off : ℕ) (chunk : List ℕ) (seen : Bool)
    → length chunk ≤ 16
    → width (hex_finish (hex_bytes marked off 0 chunk (hex_start seen)) ++ hex_padding chunk) ≡ 52
unfolding width
hex_columns marked off chunk seen h =
    let run = hex_bytes marked off 0 chunk (hex_start seen) in
    omega (
      arith,
      width-append (hex_finish run) (hex_padding chunk),
      hex_finish-width run,
      hex_bytes-width marked off 0 chunk (hex_start seen),
      hex_padding-width chunk h,
    )

ascii_content-payload :
    (style : Bool × Bool) (buffer : Text) → (ascii_content style buffer).payload ≡ buffer
unfolding ascii_content styled
ascii_content-payload style buffer = refl

abbrev ascii_width : AsciiRun → ℕ
ascii_width r = width r.contents + length r.ascii_buffer

ascii_flush-width :
    (style : Bool × Bool) (r : AsciiRun) → ascii_width (ascii_flush style r) ≡ ascii_width r
unfolding ascii_flush
ascii_flush-width style r = by_current r.current refl
  where
    by_current :
        (c : Option (Bool × Bool))
        → r.current ≡ c
        → ascii_width (ascii_flush style r) ≡ ascii_width r
    by_current none e = rw e
    by_current (some prev) e = elim (Bool-cases (same_style prev style)) [
      | inl same ↦ rw (e, same)
      | inr other ↦
          rw (e, other)
            (omega (
              arith,
              width-snoc r.contents (ascii_content prev r.ascii_buffer),
              ap length (ascii_content-payload prev r.ascii_buffer),
            ))
    ]

ascii_bytes-width :
    (marked : ℕ → Bool) (off i : ℕ) (chunk : List ℕ) (r : AsciiRun)
    → ascii_width (ascii_bytes marked off i chunk r) ≡ ascii_width r + length chunk
unfolding ascii_bytes
ascii_bytes-width marked off i [] r = omega arith
ascii_bytes-width marked off i (byte ∷ rest) r =
    let style : Bool × Bool = (marked (off + i), is_printable_ascii byte) in
    let flushed = ascii_flush style r in
    omega (
      arith,
      ascii_bytes-width marked off (i + 1) rest _,
      ascii_flush-width style r,
      length-append flushed.ascii_buffer (byte_to_ascii_char byte ∷ []),
    )

-- Nothing is buffered before the first byte.
abbrev Settled : AsciiRun → Type 0
Settled r = (r.ascii_buffer ≡ []) ⊎ ((style : Bool × Bool) × (r.current ≡ some style))

ascii_bytes-Settled :
    (marked : ℕ → Bool) (off i : ℕ) (chunk : List ℕ) (r : AsciiRun)
    → Settled r
    → Settled (ascii_bytes marked off i chunk r)
unfolding ascii_bytes
ascii_bytes-Settled marked off i [] r h = h
ascii_bytes-Settled marked off i (byte ∷ rest) r h =
    ascii_bytes-Settled marked off (i + 1) rest _ (inr (_, refl))

ascii_finish-width : (r : AsciiRun) → Settled r → width (ascii_finish r) ≡ ascii_width r
unfolding ascii_finish
ascii_finish-width r h = by_current r.current refl h
  where
    by_current :
        (c : Option (Bool × Bool))
        → r.current ≡ c
        → Settled r
        → width (ascii_finish r) ≡ ascii_width r
    by_current none e (inl nothing) = rw (e, nothing) (omega arith)
    by_current none e (inr (style, e')) = cc (e, e')
    by_current (some style) e h = by_buffer style e r.ascii_buffer refl
      where
        by_buffer :
            (style : Bool × Bool)
            → r.current ≡ some style
            → (b : Text) → r.ascii_buffer ≡ b
            → width (ascii_finish r) ≡ ascii_width r
        by_buffer style e [] e' = rw (e, e') (omega arith)
        by_buffer style e (b ∷ bs) e' =
            rw (e, e')
              (width-snoc r.contents (ascii_content style r.ascii_buffer)
                ∙ ap (λ t. width r.contents + length t)
                    (ascii_content-payload style r.ascii_buffer ∙ e'))

ascii_padding-width :
    (chunk : List ℕ) → length chunk ≤ 16 → width (ascii_padding chunk) ≡ 16 - length chunk
unfolding ascii_padding width data_bytes styled
ascii_padding-width chunk h = elim (Bool-cases (ltb (length chunk) 16)) [
  | inr full ↦ rw full (ground arith)
  | inl short ↦ rw short (omega (arith, length-repeat (16 - length chunk) (text " ")))
]

abbrev ascii_start : AsciiRun
ascii_start = record { contents = []; ascii_buffer = []; current = none }

ascii_columns :
    (marked : ℕ → Bool) (off : ℕ) (chunk : List ℕ)
    → length chunk ≤ 16
    → width (ascii_finish (ascii_bytes marked off 0 chunk ascii_start) ++ ascii_padding chunk) ≡ 16
unfolding width
ascii_columns marked off chunk h =
    let run = ascii_bytes marked off 0 chunk ascii_start in
    omega (
      arith,
      width-append (ascii_finish run) (ascii_padding chunk),
      ascii_finish-width run (ascii_bytes-Settled marked off 0 chunk ascii_start (inl refl)),
      ascii_bytes-width marked off 0 chunk ascii_start,
      ascii_padding-width chunk h,
    )

width-parts :
    (hex pad : List Content) (a b : Content) (ascii pad' : List Content) (c : Content)
    (end : List Content)
    → width (hex ++ (pad ++ a ∷ b ∷ (ascii ++ (pad' ++ c ∷ end))))
      ≡ width (hex ++ pad)
        + (length a.payload + length b.payload + width (ascii ++ pad') + length c.payload)
        + width end
unfolding width
width-parts hex pad a b ascii pad' c end = omega (
  arith,
  width-append hex (pad ++ a ∷ b ∷ (ascii ++ (pad' ++ c ∷ end))),
  width-append pad (a ∷ b ∷ (ascii ++ (pad' ++ c ∷ end))),
  width-append hex pad,
  width-append ascii (pad' ++ c ∷ end),
  width-append pad' (c ∷ end),
  width-append ascii pad',
)

-- However the highlighting cuts a line of at most 16 bytes into pieces, and however short it is, it
-- takes the width of its address and 72 characters, and one more for the line break when it is not
-- the last.
pub line-width :
    (marked : ℕ → Bool) (total line_offset : ℕ) (chunk : List ℕ) (seen : Bool)
    → length chunk ≤ 16
    → width (line marked total line_offset chunk seen).0
      ≡ length (address_str (line_offset * 16))
        + 72
        + (if leb total ((line_offset + 1) * 16) then 0 else 1)
unfolding line width address separator styled
line-width marked total line_offset chunk seen h =
    let off = line_offset * 16 in
    let hex = hex_finish (hex_bytes marked off 0 chunk (hex_start seen)) in
    let ascii = ascii_finish (ascii_bytes marked off 0 chunk ascii_start) in
    let left = hex_columns marked off chunk seen h in
    let right = ascii_columns marked off chunk h in
    elim (Bool-cases (leb total ((line_offset + 1) * 16))) [
      | inl last ↦ rw last (
          omega (
            arith,
            width-parts hex (hex_padding chunk) (separator (text "  ")) (separator (text "|")) ascii
                (ascii_padding chunk) (separator (text "|")) [],
            left,
            right,
          ))
      | inr more ↦ rw more (
          omega (
            arith,
            width-parts hex (hex_padding chunk) (separator (text "  ")) (separator (text "|")) ascii
                (ascii_padding chunk) (separator (text "|")) (separator newline ∷ []),
            left,
            right,
          ))
    ]
