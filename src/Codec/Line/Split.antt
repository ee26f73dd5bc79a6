-- ===== src/Codec/Line/Split.antt =====
-- crates/cycbox-runtime/src/codec/line.rs: what a line is, and that `decode` cuts off the first.
use cycbox.Base.{
  ℕ, ◌+◌, ◌-◌, ◌<◌, ◌≡◌, ◌≢◌, ◌⊎◌, inl, inr, refl, ap, List, [], ◌∷◌, ◌++◌, append_assoc, some,
  none, true, false, ◌&&◌, ◌==◌, Bool-cases, Option-cases, arith, length, take, drop, Avoids,
  position, position-none→Avoids, position_splits, length-append, take-append_left,
  drop-append_left,
}
use cycbox.Codec.{Clock, Decoded, Progresses, KeepsWithin, ok, received, need_more}
use cycbox.Codec.Line.{
  LineCodec, LineEnding, lf, crlf, cut_line, starts_with_lf, find_crlf, decode_lf, decode_crlf,
  decode, ending_bytes,
}

-- `ending` stands nowhere in `bs`.
abbrev pub Lacks : List ℕ → List ℕ → Type 0
Lacks ending bs = (pre post : List ℕ) → bs ≢ pre ++ (ending ++ post)

abbrev pub lf_bytes : List ℕ
lf_bytes = ending_bytes lf

abbrev pub crlf_bytes : List ℕ
crlf_bytes = ending_bytes crlf

pub Avoids→Lacks : (bs : List ℕ) → Avoids b'\n' bs → Lacks lf_bytes bs
Avoids→Lacks [] a [] post e = cc
Avoids→Lacks [] a (x ∷ pre) post e = cc
Avoids→Lacks (b ∷ bs) a [] post e = ground arith
Avoids→Lacks (b ∷ bs) a (x ∷ pre) post e = Avoids→Lacks bs a.1 pre post (ground arith)

pub Lacks→Avoids : (bs : List ℕ) → Lacks lf_bytes bs → Avoids b'\n' bs
Lacks→Avoids [] h = tt
Lacks→Avoids (b ∷ bs) h = (
  λ e. h [] bs (ap (λ x. x ∷ bs) e),
  Lacks→Avoids bs (λ pre post e. h (b ∷ pre) post (ap (◌∷◌ b) e)),
)

pub Lacks-tail : (ending : List ℕ) (b : ℕ) (bs : List ℕ) → Lacks ending (b ∷ bs) → Lacks ending bs
Lacks-tail ending b bs h pre post e = h (b ∷ pre) post (ap (◌∷◌ b) e)

at_crlf :
    (b : ℕ) (bs : List ℕ)
    → (b == b'\r' && starts_with_lf bs) ≡ true
    → (post : List ℕ) × (b ∷ bs ≡ crlf_bytes ++ post)
unfolding starts_with_lf
at_crlf b [] h = ground arith
at_crlf b (x ∷ post) h = (post, ground arith)

not_at_crlf :
    (b : ℕ) (bs post : List ℕ)
    → b ∷ bs ≡ crlf_bytes ++ post
    → (b == b'\r' && starts_with_lf bs) ≡ true
unfolding starts_with_lf
not_at_crlf b [] post e = ground arith
not_at_crlf b (x ∷ bs) post e = ground arith

find_crlf-none : (bs : List ℕ) → find_crlf bs ≡ none → Lacks crlf_bytes bs
unfolding find_crlf starts_with_lf
find_crlf-none [] h [] post e = cc
find_crlf-none [] h (x ∷ pre) post e = cc
find_crlf-none (b ∷ bs) h [] post e = ground (arith, not_at_crlf b bs post e)
find_crlf-none (b ∷ bs) h (x ∷ pre) post e =
    find_crlf-none bs (ground arith) pre post (ground arith)

no_crlf : Lacks crlf_bytes []
no_crlf [] post e = cc
no_crlf (x ∷ pre) post e = cc

Lacks-cons_crlf :
    (b : ℕ) (pre tail : List ℕ)
    → (b == b'\r' && starts_with_lf (pre ++ tail)) ≡ false
    → Lacks crlf_bytes pre
    → Lacks crlf_bytes (b ∷ pre)
Lacks-cons_crlf b pre tail t h [] post e =
    cc (t, not_at_crlf b (pre ++ tail) (post ++ tail) (ap (λ l. l ++ tail) e))
Lacks-cons_crlf b pre tail t h (x ∷ pre') post e = h pre' post (ground arith)

find_crlf_splits :
    (bs : List ℕ) (i : ℕ)
    → find_crlf bs ≡ some i
    → (pre : List ℕ) × (post : List ℕ) × (bs ≡ pre ++ (crlf_bytes ++ post))
      × Lacks crlf_bytes pre
      × (length pre ≡ i)
unfolding find_crlf starts_with_lf
find_crlf_splits [] i h = ground arith
find_crlf_splits (b ∷ bs) i h = elim (Bool-cases (b == b'\r' && starts_with_lf bs)) [
  | inl hit ↦ let (post, e) = at_crlf b bs hit in ([], post, e, no_crlf, ground arith)
  | inr miss ↦ elim (Option-cases (find_crlf bs)) [
    | inl e ↦ ground arith
    | inr (j, e) ↦
        let (pre, post, split, lacks, len) = find_crlf_splits bs j e in
        (
          b ∷ pre,
          post,
          ap (◌∷◌ b) split,
          Lacks-cons_crlf b pre (crlf_bytes ++ post) (rw (← split) miss) lacks,
          ground arith,
        )
  ]
]

pub find_crlf-append :
    (bs rest : List ℕ)
    → Lacks crlf_bytes bs
    → find_crlf (bs ++ (crlf_bytes ++ rest)) ≡ some (length bs)
unfolding find_crlf starts_with_lf
find_crlf-append [] rest h = refl
find_crlf-append (x ∷ []) rest h =
    ground (arith, find_crlf-append [] rest (Lacks-tail crlf_bytes x [] h))
find_crlf-append (x ∷ y ∷ ys) rest h = elim (Bool-cases (x == b'\r' && y == b'\n')) [
  | inl hit ↦ absurd (h [] ys (ground arith))
  | inr miss ↦ rw (miss, find_crlf-append (y ∷ ys) rest (Lacks-tail crlf_bytes x (y ∷ ys) h))
]

-- Cutting a buffer behind its first line.
pub cut_line_lem :
    (c : Clock) (s : LineCodec) (payload ending rest : List ℕ) (end : ℕ)
    → length payload + length ending ≡ end
    → cut_line c s end (length ending) (payload ++ (ending ++ rest)) ≡ record {
      codec = s;
      buffer = rest;
      outcome = ok (some (received c payload (payload ++ ending)));
    }
unfolding cut_line
cut_line_lem c s payload ending rest end e =
    let both : length (payload ++ ending) ≡ end = omega (arith, length-append payload ending) in
    let front : take end (payload ++ (ending ++ rest)) ≡ payload ++ ending =
      rw (← append_assoc payload ending rest)
        (take-append_left end (payload ++ ending) rest both) in
    let back : drop end (payload ++ (ending ++ rest)) ≡ rest =
      rw (← append_assoc payload ending rest)
        (drop-append_left end (payload ++ ending) rest both) in
    let inside : take (length (payload ++ ending) - length ending) (payload ++ ending) ≡ payload =
      take-append_left _ payload ending (omega (arith, length-append payload ending)) in
    rw (front, back, inside)

-- What `decode` does with a buffer: without the ending in it nothing is taken; else the bytes up to
-- the first ending are the payload, payload and ending the frame, and the rest stays buffered.
abbrev pub Splits : Clock → LineCodec → List ℕ → Type 0
Splits c s buf =
    let ending = ending_bytes s.line_ending in
    (Lacks ending buf × (decode c s buf ≡ need_more s buf))
    ⊎ ((payload : List ℕ) × (rest : List ℕ) × (buf ≡ payload ++ (ending ++ rest))
        × Lacks ending payload
        × (decode c s buf ≡ record {
          codec = s;
          buffer = rest;
          outcome = ok (some (received c payload (payload ++ ending)));
        }))

decode_lf-Splits : (c : Clock) (buf : List ℕ) → Splits c (record { line_ending = lf }) buf
unfolding decode decode_lf
decode_lf-Splits c buf = elim (Option-cases (position b'\n' buf)) [
  | inl e ↦ inl (Avoids→Lacks buf (position-none→Avoids b'\n' buf e), rw (e, decode, decode_lf))
  | inr (i, e) ↦
      let (pre, post, split, avoids, len) = position_splits b'\n' buf i e in
      inr (
        pre,
        post,
        split,
        Avoids→Lacks pre avoids,
        rw (e, decode, decode_lf)
            (rw split (cut_line_lem c _ pre lf_bytes post (i + 1) (omega arith))),
      )
]

decode_crlf-Splits : (c : Clock) (buf : List ℕ) → Splits c (record { line_ending = crlf }) buf
unfolding decode decode_crlf
decode_crlf-Splits c buf = elim (Option-cases (find_crlf buf)) [
  | inl e ↦ inl (find_crlf-none buf e, rw (e, decode, decode_crlf))
  | inr (i, e) ↦
      let (pre, post, split, lacks, len) = find_crlf_splits buf i e in
      inr (
        pre,
        post,
        split,
        lacks,
        rw (e, decode, decode_crlf)
            (rw split (cut_line_lem c _ pre crlf_bytes post (i + 2) (omega arith))),
      )
]

decode_by_ending :
    (ending : LineEnding) (c : Clock) (buf : List ℕ)
    → Splits c (record { line_ending = ending }) buf
decode_by_ending lf c buf = decode_lf-Splits c buf
decode_by_ending crlf c buf = decode_crlf-Splits c buf

-- For both endings and every buffer: when no line ends in the buffer, `decode` asks for more and
-- keeps everything; otherwise it cuts off the first line with its ending, delivers the line as the
-- payload, and keeps what follows.
pub decode-Splits_lines : (c : Clock) (s : LineCodec) (buf : List ℕ) → Splits c s buf
decode-Splits_lines c s buf = decode_by_ending s.line_ending c buf

pub ending_pos : (e : LineEnding) → 0 < length (ending_bytes e)
ending_pos lf = omega arith
ending_pos crlf = omega arith

pub Lacks-nil : (e : LineEnding) → Lacks (ending_bytes e) []
Lacks-nil e pre post h = absurd (
    omega (
      arith,
      ap length h,
      length-append pre (ending_bytes e ++ post),
      length-append (ending_bytes e) post,
      ending_pos e,
    ))

pub decode-Progresses : Progresses decode
decode-Progresses c s buf m e = elim (decode-Splits_lines c s buf) [
  | inl (lacks, d) ↦ cc (ap (λ (x : Decoded LineCodec). x.outcome) d)
  | inr (payload, rest, split, lacks, d) ↦ omega (
    arith,
    ap (λ (x : Decoded LineCodec). length x.buffer) d,
    ap length split,
    length-append payload (ending_bytes s.line_ending ++ rest),
    length-append (ending_bytes s.line_ending) rest,
    ending_pos s.line_ending,
  )
]

pub decode-KeepsWithin : KeepsWithin decode
decode-KeepsWithin c s buf = elim (decode-Splits_lines c s buf) [
  | inl (lacks, d) ↦ omega (arith, ap (λ (x : Decoded LineCodec). length x.buffer) d)
  | inr (payload, rest, split, lacks, d) ↦ omega (
    arith,
    ap (λ (x : Decoded LineCodec). length x.buffer) d,
    ap length split,
    length-append payload (ending_bytes s.line_ending ++ rest),
    length-append (ending_bytes s.line_ending) rest,
  )
]
