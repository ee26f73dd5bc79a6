-- ===== src/Cbrt/Frame/Stable.antt =====
-- crates/cbrt/src/parser.rs: a decision about a frame does not change when more bytes arrive.
use cycbox.Base.{
  ℕ, zero, suc, ◌+◌, ◌-◌, ◌<◌, ◌≤◌, ◌≡◌, ◌≢◌, ◌⊎◌, inl, inr, refl, ap, ap₂, ◌∙◌, List, [], ◌∷◌,
  ◌++◌, Option, Bool, true, false, Bool-cases, ◌==◌, ◌||◌, ltb, if◌then◌else◌, arith, length, take,
  drop, length-append, length-drop,
}
use cycbox.Cbrt.Frame.{
  Parse, need_more, reject, go, and_then, Reading, byte_at, word, optional, exact, datatype_of,
  has_seq, has_ts, has_period, has_crc, slice, check_crc, parse_payload, parse_fields, parse_body,
  parse_frame,
}

-- `b` is what `a` becomes with more bytes: only `need_more` may change.
abbrev Keeps : {A : Type 0} → Parse A → Parse A → Type 0
Keeps a b = (a ≡ need_more) ⊎ (b ≡ a)

Keeps-trans : {A : Type 0} {a b b' : Parse A} → b' ≡ b → Keeps a b → Keeps a b'
Keeps-trans e (inl h) = inl h
Keeps-trans e (inr h) = inr (e ∙ h)

and_then-Keeps :
    {A B : Type 0} (a a' : Parse A) (f f' : A → Parse B)
    → Keeps a a'
    → ((x : A) → Keeps (f x) (f' x))
    → Keeps (and_then a f) (and_then a' f')
unfolding and_then
and_then-Keeps a a' f f' (inl e) h = inl (rw e)
and_then-Keeps need_more a' f f' (inr e) h = inl refl
and_then-Keeps reject a' f f' (inr e) h = inr (rw e)
and_then-Keeps (go x) a' f f' (inr e) h = rw e (h x)

pub drop-append_within :
    {A : Type 0} (n : ℕ) (xs ys : List A) → n ≤ length xs → drop n (xs ++ ys) ≡ drop n xs ++ ys
drop-append_within zero xs ys h = refl
drop-append_within (suc n) [] ys h = absurd (omega arith)
drop-append_within (suc n) (x ∷ xs) ys h = drop-append_within n xs ys (omega arith)

take-append_within :
    {A : Type 0} (n : ℕ) (xs ys : List A) → n ≤ length xs → take n (xs ++ ys) ≡ take n xs
take-append_within zero xs ys h = refl
take-append_within (suc n) [] ys h = absurd (omega arith)
take-append_within (suc n) (x ∷ xs) ys h = ap (◌∷◌ x) (take-append_within n xs ys (omega arith))

pub slice_within :
    (from n : ℕ) (buf extra : List ℕ)
    → from + n ≤ length buf
    → take n (drop from (buf ++ extra)) ≡ take n (drop from buf)
slice_within from n buf extra h =
    ap (take n) (drop-append_within from buf extra (omega arith))
    ∙ take-append_within n (drop from buf) extra (omega (arith, length-drop from buf))

word-Keeps :
    (width cur : ℕ) (buf extra : List ℕ)
    → Keeps (word width cur buf) (word width cur (buf ++ extra))
unfolding word
word-Keeps width cur buf extra = elim (Bool-cases (ltb (length buf) (cur + width))) [
  | inl short ↦ inl (rw short)
  | inr enough ↦
      let fits : cur + width ≤ length buf = ground arith in
      let still : ltb (length (buf ++ extra)) (cur + width) ≡ false =
        ground (arith, length-append buf extra) in
      inr (rw (enough, still, slice_within cur width buf extra fits))
]

optional-Keeps :
    (has : Bool) (width cur : ℕ) (buf extra : List ℕ)
    → Keeps (optional has width cur buf) (optional has width cur (buf ++ extra))
unfolding optional
optional-Keeps false width cur buf extra = inr refl
optional-Keeps true width cur buf extra =
    and_then-Keeps (word width cur buf) _ _ _ (word-Keeps width cur buf extra) (λ r. inr refl)

byte_at-append :
    (i : ℕ) (buf extra : List ℕ) → i < length buf → byte_at i (buf ++ extra) ≡ byte_at i buf
unfolding byte_at
byte_at-append zero [] extra h = absurd (omega arith)
byte_at-append zero (b ∷ bs) extra h = refl
byte_at-append (suc i) [] extra h = absurd (omega arith)
byte_at-append (suc i) (b ∷ bs) extra h = byte_at-append i bs extra (omega arith)

module _ (checksum : List ℕ → ℕ) (sync_pos : ℕ) where
  check_crc-Keeps :
      (has : Bool) (payload_end : ℕ) (buf extra : List ℕ)
      → sync_pos + 4 ≤ length buf
      → payload_end ≤ length buf
      → Keeps
          (check_crc checksum sync_pos has payload_end buf)
          (check_crc checksum sync_pos has payload_end (buf ++ extra))
  unfolding check_crc
  check_crc-Keeps false payload_end buf extra h h' = inr refl
  check_crc-Keeps true payload_end buf extra h h' =
      let same : slice (sync_pos + 4) payload_end (buf ++ extra)
          ≡ slice (sync_pos + 4) payload_end buf =
        slice_within (sync_pos + 4) (payload_end - (sync_pos + 4)) buf extra (omega arith) in
      and_then-Keeps (word 2 payload_end buf) _ _ _ (word-Keeps 2 payload_end buf extra) (λ stored.
        inr (ap (λ x. if checksum x == stored.field then go stored.cur else reject) same))

  parse_payload-Keeps :
      (flags channels : ℕ) (seq ts_raw period_us : Option ℕ) (len : Reading ℕ) (buf extra : List ℕ)
      → sync_pos + 4 ≤ length buf
      → Keeps
          (parse_payload checksum sync_pos flags channels seq ts_raw period_us len buf)
          (parse_payload checksum sync_pos flags channels seq ts_raw period_us len (buf ++ extra))
  unfolding parse_payload
  parse_payload-Keeps flags channels seq ts_raw period_us len buf extra h =
      elim (Bool-cases (exact len.field (datatype_of flags) channels)) [
        | inr partial ↦ inr (rw partial)
        | inl whole ↦ elim (Bool-cases (ltb (length buf) (len.cur + len.field))) [
          | inl short ↦ inl (rw (whole, short))
          | inr enough ↦
              let still : ltb (length (buf ++ extra)) (len.cur + len.field) ≡ false =
                ground (arith, length-append buf extra) in
              rw (whole, enough, still)
                (and_then-Keeps
                  (check_crc checksum sync_pos (has_crc flags) (len.cur + len.field) buf) _ _ _
                  (check_crc-Keeps (has_crc flags) (len.cur + len.field) buf extra h (ground arith))
                  (λ frame_end. inr refl))
        ]
      ]

  parse_fields-Keeps :
      (flags channels : ℕ) (buf extra : List ℕ)
      → sync_pos + 4 ≤ length buf
      → Keeps
          (parse_fields checksum sync_pos flags channels buf)
          (parse_fields checksum sync_pos flags channels (buf ++ extra))
  unfolding parse_fields
  parse_fields-Keeps flags channels buf extra h =
      and_then-Keeps (optional (has_seq flags) 1 (sync_pos + 6) buf) _ _ _
        (optional-Keeps (has_seq flags) 1 (sync_pos + 6) buf extra)
        (λ seq.
          and_then-Keeps (optional (has_ts flags) 4 seq.cur buf) _ _ _
            (optional-Keeps (has_ts flags) 4 seq.cur buf extra)
            (λ ts.
              and_then-Keeps (optional (has_period flags) 2 ts.cur buf) _ _ _
                (optional-Keeps (has_period flags) 2 ts.cur buf extra)
                (λ period.
                  and_then-Keeps (word 2 period.cur buf) _ _ _ (word-Keeps 2 period.cur buf extra)
                    (λ len.
                      parse_payload-Keeps flags channels seq.field ts.field period.field len buf
                        extra h))))

  parse_body-Keeps :
      (flags channels : ℕ) (buf extra : List ℕ)
      → sync_pos + 4 ≤ length buf
      → Keeps
          (parse_body checksum sync_pos flags channels buf)
          (parse_body checksum sync_pos flags channels (buf ++ extra))
  unfolding parse_body
  parse_body-Keeps flags channels buf extra h = elim (Bool-cases (datatype_of flags == 0xF)) [
    | inl reserved ↦ inr (rw reserved)
    | inr known ↦ elim (Bool-cases (channels == 0 || ltb 64 channels)) [
      | inl bad ↦ inr (rw (known, bad))
      | inr good ↦ rw (known, good) (parse_fields-Keeps flags channels buf extra h)
    ]
  ]

  parse_frame-Keeps :
      (buf extra : List ℕ)
      → Keeps (parse_frame checksum sync_pos buf) (parse_frame checksum sync_pos (buf ++ extra))
  unfolding parse_frame
  parse_frame-Keeps buf extra = elim (Bool-cases (ltb (length buf) (sync_pos + 6))) [
    | inl short ↦ inl (rw short)
    | inr enough ↦
        let still : ltb (length (buf ++ extra)) (sync_pos + 6) ≡ false =
          ground (arith, length-append buf extra) in
        let long : sync_pos + 6 ≤ length buf = ground arith in
        let same =
          ap₂ (λ flags channels. parse_body checksum sync_pos flags channels (buf ++ extra))
            (byte_at-append (sync_pos + 4) buf extra (omega arith))
            (byte_at-append (sync_pos + 5) buf extra (omega arith)) in
        rw (enough, still)
          (Keeps-trans same (
            parse_body-Keeps (byte_at (sync_pos + 4) buf) (byte_at (sync_pos + 5) buf) buf extra
              (omega arith)))
  ]

  -- When the parser has decided, to reject or to accept, more bytes behind the buffer do not change
  -- its decision or the frame.
  pub parse_frame-append :
      (buf extra : List ℕ)
      → parse_frame checksum sync_pos buf ≢ need_more
      → parse_frame checksum sync_pos (buf ++ extra) ≡ parse_frame checksum sync_pos buf
  parse_frame-append buf extra decided = elim (parse_frame-Keeps buf extra) [
    | inl e ↦ absurd (decided e)
    | inr e ↦ e
  ]
