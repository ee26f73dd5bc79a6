-- ===== src/Cbrt/Frame/Bounds.antt =====
-- crates/cbrt/src/parser.rs: an accepted frame lies within the buffer and holds whole samples.
use cycbox.Base.{
  ℕ, ◌+◌, ◌≤◌, ◌≡◌, ◌≢◌, inl, inr, subst, List, Option, Bool, true, false, Bool-cases, ◌==◌, ◌||◌,
  ltb, arith, length,
}
use cycbox.Cbrt.Frame.{
  Parse, need_more, reject, go, and_then, Reading, Frame, byte_at, word, optional, exact,
  datatype_of, has_seq, has_ts, has_period, has_crc, check_crc, parse_payload, parse_fields,
  parse_body, parse_frame,
}

abbrev Holds : {A : Type 0} → (A → Type 0) → Parse A → Type 0
Holds P need_more = Unit
Holds P reject = Unit
Holds P (go x) = P x

and_then-Holds :
    {A B : Type 0} (P : A → Type 0) (Q : B → Type 0) (a : Parse A) (f : A → Parse B)
    → Holds P a
    → ((x : A) → P x → Holds Q (f x))
    → Holds Q (and_then a f)
unfolding and_then
and_then-Holds P Q need_more f h k = tt
and_then-Holds P Q reject f h k = tt
and_then-Holds P Q (go x) f h k = k x h

-- The index behind what was read has moved on, and is within the buffer.
abbrev Moves : {A : Type 0} → ℕ → List ℕ → Reading A → Type 0
Moves from buf r = (from ≤ r.cur) × (r.cur ≤ length buf)

word-Moves : (width cur : ℕ) (buf : List ℕ) → Holds (Moves (cur + width) buf) (word width cur buf)
unfolding word
word-Moves width cur buf = ground arith

optional-Moves :
    (has : Bool) (width cur : ℕ) (buf : List ℕ)
    → cur ≤ length buf
    → Holds (Moves cur buf) (optional has width cur buf)
unfolding optional
optional-Moves false width cur buf h = (omega arith, h)
optional-Moves true width cur buf h =
    and_then-Holds (Moves (cur + width) buf) (Moves cur buf) (word width cur buf) _
      (word-Moves width cur buf) (λ r moved. (omega (arith, moved.0), moved.1))

-- The frame is accepted with its payload in the buffer, and the payload is whole samples.
abbrev pub Sound : ℕ → List ℕ → Frame → Type 0
Sound sync_pos buf f =
    (sync_pos + 8 ≤ f.payload_start)
    × (f.payload_start + f.payload_len ≤ f.frame_end)
    × (f.frame_end ≤ length buf)
    × (f.channels ≢ 0)
    × (f.channels ≤ 64)
    × (exact f.payload_len (datatype_of f.flags) f.channels ≡ true)

module _ (checksum : List ℕ → ℕ) (sync_pos : ℕ) where
  check_crc-Holds :
      (has : Bool) (payload_end : ℕ) (buf : List ℕ)
      → payload_end ≤ length buf
      → Holds
          (λ frame_end. (payload_end ≤ frame_end) × (frame_end ≤ length buf))
          (check_crc checksum sync_pos has payload_end buf)
  unfolding check_crc
  check_crc-Holds false payload_end buf h = (omega arith, h)
  check_crc-Holds true payload_end buf h =
      and_then-Holds (Moves (payload_end + 2) buf) _ (word 2 payload_end buf) _
        (word-Moves 2 payload_end buf) (λ stored moved. ground arith)

  parse_payload-Holds :
      (flags channels : ℕ) (seq ts_raw period_us : Option ℕ) (len : Reading ℕ) (buf : List ℕ)
      → sync_pos + 8 ≤ len.cur
      → channels ≢ 0
      → channels ≤ 64
      → Holds
          (Sound sync_pos buf)
          (parse_payload checksum sync_pos flags channels seq ts_raw period_us len buf)
  unfolding parse_payload
  parse_payload-Holds flags channels seq ts_raw period_us len buf h some_ch few =
      elim (Bool-cases (exact len.field (datatype_of flags) channels)) [
        | inr partial ↦ rw partial tt
        | inl whole ↦ elim (Bool-cases (ltb (length buf) (len.cur + len.field))) [
          | inl short ↦ rw (whole, short) tt
          | inr enough ↦
              rw (whole, enough)
                (and_then-Holds _ (Sound sync_pos buf)
                  (check_crc checksum sync_pos (has_crc flags) (len.cur + len.field) buf) _
                  (check_crc-Holds (has_crc flags) (len.cur + len.field) buf (ground arith))
                  (λ frame_end ends. (h, ends.0, ends.1, some_ch, few, whole)))
        ]
      ]

  parse_fields-Holds :
      (flags channels : ℕ) (buf : List ℕ)
      → sync_pos + 6 ≤ length buf
      → channels ≢ 0
      → channels ≤ 64
      → Holds (Sound sync_pos buf) (parse_fields checksum sync_pos flags channels buf)
  unfolding parse_fields
  parse_fields-Holds flags channels buf h some_ch few =
      and_then-Holds (Moves (sync_pos + 6) buf) _ (optional (has_seq flags) 1 (sync_pos + 6) buf) _
        (optional-Moves (has_seq flags) 1 (sync_pos + 6) buf h)
        (λ seq hs.
          and_then-Holds (Moves seq.cur buf) _ (optional (has_ts flags) 4 seq.cur buf) _
            (optional-Moves (has_ts flags) 4 seq.cur buf hs.1)
            (λ ts ht.
              and_then-Holds (Moves ts.cur buf) _ (optional (has_period flags) 2 ts.cur buf) _
                (optional-Moves (has_period flags) 2 ts.cur buf ht.1)
                (λ period hp.
                  and_then-Holds (Moves (period.cur + 2) buf) _ (word 2 period.cur buf) _
                    (word-Moves 2 period.cur buf)
                    (λ len hl.
                      parse_payload-Holds flags channels seq.field ts.field period.field len buf
                        (omega (arith, hs.0, ht.0, hp.0, hl.0)) some_ch few))))

  parse_body-Holds :
      (flags channels : ℕ) (buf : List ℕ)
      → sync_pos + 6 ≤ length buf
      → Holds (Sound sync_pos buf) (parse_body checksum sync_pos flags channels buf)
  unfolding parse_body
  parse_body-Holds flags channels buf h = elim (Bool-cases (datatype_of flags == 0xF)) [
    | inl reserved ↦ rw reserved tt
    | inr known ↦ elim (Bool-cases (channels == 0 || ltb 64 channels)) [
      | inl bad ↦ rw (known, bad) tt
      | inr good ↦
          rw (known, good) (parse_fields-Holds flags channels buf h (ground arith) (ground arith))
    ]
  ]

  parse_frame-Holds :
      (buf : List ℕ) → Holds (Sound sync_pos buf) (parse_frame checksum sync_pos buf)
  unfolding parse_frame
  parse_frame-Holds buf = elim (Bool-cases (ltb (length buf) (sync_pos + 6))) [
    | inl short ↦ rw short tt
    | inr enough ↦ rw enough (
        parse_body-Holds (byte_at (sync_pos + 4) buf) (byte_at (sync_pos + 5) buf) buf
          (ground arith))
  ]

  -- An accepted frame has its payload behind the sync word and its end within the buffer, has 1 to
  -- 64 channels, and its payload is whole rows of samples.
  pub parse_frame-Sound :
      (buf : List ℕ) (f : Frame) → parse_frame checksum sync_pos buf ≡ go f → Sound sync_pos buf f
  parse_frame-Sound buf f e = subst (Holds (Sound sync_pos buf)) e (parse_frame-Holds buf)
