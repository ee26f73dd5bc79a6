-- ===== src/Cbrt/Frame/Moved.antt =====
-- crates/cbrt/src/parser.rs: a frame is read in the same way wherever it stands in the buffer.
use cycbox.Base.{
  ℕ, suc, ◌+◌, ◌-◌, ◌≡◌, inl, inr, refl, ap, ap₂, ◌∙◌, List, ◌∷◌, Option, Bool, true, false,
  Bool-cases, ◌==◌, ◌||◌, ltb, if◌then◌else◌, arith, length, take, drop,
}
use cycbox.Base.Words.{le_value}
use cycbox.Cbrt.Frame.{
  Parse, need_more, reject, go, and_then, Reading, Frame, byte_at, word, optional, exact,
  datatype_of, has_seq, has_ts, has_period, has_crc, slice, check_crc, parse_payload, parse_fields,
  parse_body, parse_frame,
}

abbrev pub map_parse : {A B : Type 0} → (A → B) → Parse A → Parse B
map_parse f need_more = need_more
map_parse f reject = reject
map_parse f (go a) = go (f a)

pub and_then-map :
    {A A' B B' : Type 0} (g : A → A') (h : B → B') (a : Parse A) (a' : Parse A') (f : A → Parse B)
    (f' : A' → Parse B')
    → a' ≡ map_parse g a
    → ((x : A) → f' (g x) ≡ map_parse h (f x))
    → and_then a' f' ≡ map_parse h (and_then a f)
unfolding and_then
and_then-map g h need_more a' f f' e k = rw (e, and_then)
and_then-map g h reject a' f f' e k = rw (e, and_then)
and_then-map g h (go x) a' f f' e k = rw (e, and_then) (k x)

-- What was read, with one byte more in front of the buffer.
abbrev next : {A : Type 0} → Reading A → Reading A
next r = record { field = r.field; cur = suc r.cur }

abbrev pub next_frame : Frame → Frame
next_frame f = record f { payload_start = suc f.payload_start; frame_end = suc f.frame_end }

word-next :
    (width cur b : ℕ) (buf : List ℕ)
    → word width (suc cur) (b ∷ buf) ≡ map_parse next (word width cur buf)
unfolding word
word-next width cur b buf = elim (Bool-cases (ltb (length buf) (cur + width))) [
  | inl short ↦
      let short' : ltb (suc (length buf)) (suc cur + width) ≡ true = ground arith in
      rw (short, short')
  | inr enough ↦
      let enough' : ltb (suc (length buf)) (suc cur + width) ≡ false = ground arith in
      rw (enough, enough')
        (ap (λ c. go (record { field = le_value (take width (drop cur buf)); cur = c }))
          {x = suc cur + width} {y = suc (cur + width)} (omega arith))
]

optional-next :
    (has : Bool) (width cur b : ℕ) (buf : List ℕ)
    → optional has width (suc cur) (b ∷ buf) ≡ map_parse next (optional has width cur buf)
unfolding optional
optional-next false width cur b buf = refl
optional-next true width cur b buf =
    and_then-map next next (word width cur buf) _ _ _ (word-next width cur b buf) (λ r. refl)

split :
    (c : Bool) (n : ℕ)
    → (if c then go (suc n) else reject) ≡ map_parse suc (if c then go n else reject)
split true n = refl
split false n = refl

module _ (checksum : List ℕ → ℕ) (p : ℕ) where
  check_crc-next :
      (has : Bool) (payload_end b : ℕ) (buf : List ℕ)
      → check_crc checksum (suc p) has (suc payload_end) (b ∷ buf)
        ≡ map_parse suc (check_crc checksum p has payload_end buf)
  unfolding check_crc
  check_crc-next false payload_end b buf = refl
  check_crc-next true payload_end b buf =
      let same : slice (suc p + 4) (suc payload_end) (b ∷ buf) ≡ slice (p + 4) payload_end buf =
        ap (λ n. take n (drop (suc p + 4) (b ∷ buf))) {y = payload_end - (p + 4)} (omega arith)
        ∙ ap (λ k. take (payload_end - (p + 4)) (drop k (b ∷ buf))) {y = suc (p + 4)}
            (omega arith) in
      and_then-map next suc (word 2 payload_end buf) _ _ _ (word-next 2 payload_end b buf)
        (λ stored.
          rw same (split (checksum (slice (p + 4) payload_end buf) == stored.field) stored.cur))

  parse_payload-next :
      (flags channels : ℕ) (seq ts_raw period_us : Option ℕ) (len : Reading ℕ) (b : ℕ)
      (buf : List ℕ)
      → parse_payload checksum (suc p) flags channels seq ts_raw period_us (next len) (b ∷ buf)
        ≡ map_parse next_frame
            (parse_payload checksum p flags channels seq ts_raw period_us len buf)
  unfolding parse_payload
  parse_payload-next flags channels seq ts_raw period_us len b buf =
      elim (Bool-cases (exact len.field (datatype_of flags) channels)) [
        | inr partial ↦ rw partial
        | inl whole ↦
            let shift : ltb (suc (length buf)) (suc len.cur + len.field)
                ≡ ltb (length buf) (len.cur + len.field) =
              ground arith in
            elim (Bool-cases (ltb (length buf) (len.cur + len.field))) [
              | inl short ↦ rw (whole, shift, short)
              | inr enough ↦
                  rw (whole, shift, enough)
                    (and_then-map suc next_frame
                      (check_crc checksum p (has_crc flags) (len.cur + len.field) buf) _ _ _
                      (ap (λ e. check_crc checksum (suc p) (has_crc flags) e (b ∷ buf))
                          {x = suc len.cur + len.field} {y = suc (len.cur + len.field)}
                          (omega arith)
                        ∙ check_crc-next (has_crc flags) (len.cur + len.field) b buf)
                      (λ frame_end. refl))
            ]
      ]

  parse_fields-next :
      (flags channels b : ℕ) (buf : List ℕ)
      → parse_fields checksum (suc p) flags channels (b ∷ buf)
        ≡ map_parse next_frame (parse_fields checksum p flags channels buf)
  unfolding parse_fields
  parse_fields-next flags channels b buf =
      and_then-map next next_frame (optional (has_seq flags) 1 (p + 6) buf) _ _ _
        (ap (λ c. optional (has_seq flags) 1 c (b ∷ buf)) {x = suc p + 6} {y = suc (p + 6)}
            (omega arith)
          ∙ optional-next (has_seq flags) 1 (p + 6) b buf)
        (λ seq.
          and_then-map next next_frame (optional (has_ts flags) 4 seq.cur buf) _ _ _
            (optional-next (has_ts flags) 4 seq.cur b buf)
            (λ ts.
              and_then-map next next_frame (optional (has_period flags) 2 ts.cur buf) _ _ _
                (optional-next (has_period flags) 2 ts.cur b buf)
                (λ period.
                  and_then-map next next_frame (word 2 period.cur buf) _ _ _
                    (word-next 2 period.cur b buf)
                    (λ len.
                      parse_payload-next flags channels seq.field ts.field period.field len b
                        buf))))

  byte_at-next : (k b : ℕ) (buf : List ℕ) → byte_at (suc p + k) (b ∷ buf) ≡ byte_at (p + k) buf
  unfolding byte_at
  byte_at-next k b buf =
      ap (λ i. byte_at i (b ∷ buf)) {x = suc p + k} {y = suc (p + k)} (omega arith)

  parse_body-next :
      (flags channels b : ℕ) (buf : List ℕ)
      → parse_body checksum (suc p) flags channels (b ∷ buf)
        ≡ map_parse next_frame (parse_body checksum p flags channels buf)
  unfolding parse_body
  parse_body-next flags channels b buf = elim (Bool-cases (datatype_of flags == 0xF)) [
    | inl reserved ↦ rw reserved
    | inr known ↦ elim (Bool-cases (channels == 0 || ltb 64 channels)) [
      | inl bad ↦ rw (known, bad)
      | inr good ↦ rw (known, good) (parse_fields-next flags channels b buf)
    ]
  ]

  pub parse_frame-next :
      (b : ℕ) (buf : List ℕ)
      → parse_frame checksum (suc p) (b ∷ buf) ≡ map_parse next_frame (parse_frame checksum p buf)
  unfolding parse_frame
  parse_frame-next b buf =
      let shift : ltb (suc (length buf)) (suc p + 6) ≡ ltb (length buf) (p + 6) = ground arith in
      elim (Bool-cases (ltb (length buf) (p + 6))) [
        | inl short ↦ rw (shift, short)
        | inr enough ↦
            rw (shift, enough)
              (ap₂ (λ flags channels. parse_body checksum (suc p) flags channels (b ∷ buf))
                  (byte_at-next 4 b buf) (byte_at-next 5 b buf)
                ∙ parse_body-next (byte_at (p + 4) buf) (byte_at (p + 5) buf) b buf)
      ]
