-- ===== src/Codec/Line/RoundTrip.antt =====
-- crates/cycbox-runtime/src/codec/line.rs: `decode` after `encode`.
use cycbox.Base.{
  ℕ, ◌-◌, ◌≡◌, ◌⊎◌, inl, inr, sym, ap, ◌∙◌, List, [], ◌++◌, append-nil, append_assoc, some, true,
  false, leb, Bool-cases, bytes_eq→eq, bytes_eq_refl, arith, length, take, drop, position-append,
  length-append, take-append-drop, drop-append_left,
}
use cycbox.Message.{Message}
use cycbox.Codec.{Clock, ok, received}
use cycbox.Codec.Line.{
  LineCodec, LineEnding, lf, crlf, decode_lf, decode_crlf, decode, encode, ends_with, ending_bytes,
}
use cycbox.Codec.Line.Split.{
  Lacks, lf_bytes, crlf_bytes, Lacks→Avoids, find_crlf-append, cut_line_lem,
}

ends_with→append :
    (ending bs : List ℕ)
    → ends_with ending bs ≡ true
    → bs ≡ take (length bs - length ending) bs ++ (ending ++ [])
unfolding ends_with
ends_with→append ending bs h =
    let suffix : drop (length bs - length ending) bs ≡ ending =
      bytes_eq→eq _ ending (ground arith) in
    sym (take-append-drop (length bs - length ending) bs)
    ∙ ap (◌++◌ (take (length bs - length ending) bs)) (suffix ∙ sym (append-nil ending))

ends_with_not : (ending bs : List ℕ) → Lacks ending bs → ends_with ending bs ≡ false
ends_with_not ending bs h = elim (Bool-cases (ends_with ending bs)) [
  | inl e ↦ absurd (h _ _ (ends_with→append ending bs e))
  | inr e ↦ e
]

ends_with-append : (ending bs : List ℕ) → ends_with ending (bs ++ ending) ≡ true
unfolding ends_with
ends_with-append ending bs =
    let cut : drop (length (bs ++ ending) - length ending) (bs ++ ending) ≡ ending =
      drop-append_left _ bs ending (omega (arith, length-append bs ending)) in
    let fits : leb (length ending) (length (bs ++ ending)) ≡ true =
      ground (arith, length-append bs ending) in
    rw (cut, fits, bytes_eq_refl ending)

-- The frame is one line, whether or not the payload had the ending.
pub encode_frame :
    (s : LineCodec) (m : Message) (line : List ℕ)
    → let ending = ending_bytes s.line_ending in
      Lacks ending line
      → (m.payload ≡ line) ⊎ (m.payload ≡ line ++ ending)
      → (encode s m).frame ≡ line ++ ending
unfolding encode
encode_frame s m line lacks (inl e) = rw (e, ends_with_not (ending_bytes s.line_ending) line lacks)
encode_frame s m line lacks (inr e) = rw (e, ends_with-append (ending_bytes s.line_ending) line)

pub decode_line_by :
    (e : LineEnding) (c : Clock) (line rest : List ℕ)
    → Lacks (ending_bytes e) line
    → decode c (record { line_ending = e }) (line ++ (ending_bytes e ++ rest)) ≡ record {
      codec = record { line_ending = e };
      buffer = rest;
      outcome = ok (some (received c line (line ++ ending_bytes e)));
    }
unfolding decode decode_lf decode_crlf
decode_line_by lf c line rest h =
    rw (position-append b'\n' line rest (Lacks→Avoids line h), decode, decode_lf)
      (cut_line_lem c _ line lf_bytes rest _ (omega arith))
decode_line_by crlf c line rest h =
    rw (find_crlf-append line rest h, decode, decode_crlf)
      (cut_line_lem c _ line crlf_bytes rest _ (omega arith))

-- A line without its ending inside comes back as the payload, and what follows the frame stays in
-- the buffer; a payload that already had the ending comes back without it.
pub decode-encode_line :
    (c : Clock) (s : LineCodec) (m : Message) (line rest : List ℕ)
    → Lacks (ending_bytes s.line_ending) line
    → (m.payload ≡ line) ⊎ (m.payload ≡ line ++ ending_bytes s.line_ending)
    → decode c s ((encode s m).frame ++ rest) ≡ record {
      codec = s;
      buffer = rest;
      outcome = ok (some (received c line (line ++ ending_bytes s.line_ending)));
    }
decode-encode_line c s m line rest lacks p =
    rw (encode_frame s m line lacks p, append_assoc line (ending_bytes s.line_ending) rest)
      (decode_line_by s.line_ending c line rest lacks)
