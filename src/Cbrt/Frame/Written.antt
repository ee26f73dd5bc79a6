-- ===== src/Cbrt/Frame/Written.antt =====
-- crates/cbrt/src/parser.rs: a frame that is written as the parser expects it is read back.
use cycbox.Base.{
  ℕ, ◌+◌, ◌-◌, ◌^◌, ◌<◌, ◌≡◌, refl, sym, ap, ap₂, subst, ◌∙◌, List, [], ◌∷◌, ◌++◌, append_assoc,
  Option, Bool, true, false, ◌==◌, ◌||◌, ltb, arith, length, take, length-append, take-append_left,
}
use cycbox.Base.Words.{le_bytes, length-le_bytes}
use cycbox.Cbrt.Frame.{
  go, Frame, word, exact, datatype_of, has_seq, has_ts, has_period, has_crc, slice, check_crc,
  parse_payload, parse_fields, parse_body, parse_frame,
}
use cycbox.Cbrt.Frame.At.{
  At, At-next, At-append, word-At, field_bytes, field_of, optional-At, byte_at-At, and_then-go,
}

-- What a frame consists of.
pub record Written : Type 0 where
  pub flags : ℕ
  pub channels : ℕ
  pub seq : ℕ
  pub ts : ℕ
  pub period : ℕ
  pub payload : List ℕ

-- What the checksum covers: the frame without the sync word and the checksum.
abbrev pub body : Written → List ℕ
body w =
    w.flags
    ∷ w.channels
    ∷ (field_bytes (has_seq w.flags) 1 w.seq
        ++ (field_bytes (has_ts w.flags) 4 w.ts
            ++ (field_bytes (has_period w.flags) 2 w.period
                ++ (le_bytes 2 (length w.payload) ++ w.payload))))

abbrev pub sync_word : List ℕ
sync_word = 0x43 ∷ 0x42 ∷ 0x52 ∷ 0x54 ∷ []

abbrev pub frame_bytes : (List ℕ → ℕ) → Written → List ℕ
frame_bytes checksum w =
    sync_word ++ (body w ++ field_bytes (has_crc w.flags) 2 (checksum (body w)))

-- The fields fit their widths, the header is acceptable and the payload is whole samples.
pub record Valid (w : Written) : Type 0 where
  pub known : (datatype_of w.flags == 0xF) ≡ false
  pub some_channels : (w.channels == 0 || ltb 64 w.channels) ≡ false
  pub seq_fits : w.seq < 256 ^ 1
  pub ts_fits : w.ts < 256 ^ 4
  pub period_fits : w.period < 256 ^ 2
  pub payload_fits : length w.payload < 256 ^ 2
  pub whole : exact (length w.payload) (datatype_of w.flags) w.channels ≡ true

if_same : (c : ℕ) → (c == c) ≡ true
if_same c = ground arith

-- What is read back when the payload starts at `start` and the stored checksum has `stored` bytes.
abbrev pub read_back : Written → ℕ → ℕ → Frame
read_back w start stored = record {
  flags = w.flags;
  channels = w.channels;
  seq = field_of (has_seq w.flags) w.seq;
  ts_raw = field_of (has_ts w.flags) w.ts;
  period_us = field_of (has_period w.flags) w.period;
  payload_start = start;
  payload_len = length w.payload;
  frame_end = start + length w.payload + stored;
}

regroup :
    (a b c d e rest : List ℕ)
    → (a ++ (b ++ (c ++ (d ++ e)))) ++ rest ≡ a ++ (b ++ (c ++ (d ++ (e ++ rest))))
regroup a b c d e rest = simp append_assoc

length-regroup :
    (a b c d e : List ℕ)
    → length (a ++ (b ++ (c ++ (d ++ e)))) ≡ length a + length b + length c + length d + length e
length-regroup a b c d e = omega (
  arith,
  length-append a (b ++ (c ++ (d ++ e))),
  length-append b (c ++ (d ++ e)),
  length-append c (d ++ e),
  length-append d e,
)

module _ (checksum : List ℕ → ℕ) (sync_pos : ℕ) where
  check_crc-At :
      (has : Bool) (payload_end : ℕ) (buf covered tail : List ℕ)
      → checksum covered < 256 ^ 2
      → At (sync_pos + 4) buf (covered ++ (field_bytes has 2 (checksum covered) ++ tail))
      → sync_pos + 4 + length covered ≡ payload_end
      → check_crc checksum sync_pos has payload_end buf
        ≡ go (payload_end + length (field_bytes has 2 (checksum covered)))
  unfolding check_crc
  check_crc-At false payload_end buf covered tail fits at e = ap go (omega arith)
  check_crc-At true payload_end buf covered tail fits at e =
      let crc = le_bytes 2 (checksum covered) in
      let stored =
        subst (λ c. At c buf (crc ++ tail)) e
          (At-next (sync_pos + 4) (length covered) buf covered (crc ++ tail) refl at) in
      let same : slice (sync_pos + 4) payload_end buf ≡ covered =
        ap (take (payload_end - (sync_pos + 4))) at.0
        ∙ take-append_left (payload_end - (sync_pos + 4)) covered (crc ++ tail)
            (omega (arith, e)) in
      and_then-go (word 2 payload_end buf) _ _
        (word-At payload_end 2 (checksum covered) buf tail fits stored)
      ∙ rw (same, if_same (checksum covered))
          (ap (λ n. go (payload_end + n)) (sym (length-le_bytes 2 (checksum covered))))

  parse_payload-At :
      (w : Written) (seq ts_raw period_us : Option ℕ) (cur : ℕ) (buf tail : List ℕ)
      → Valid w
      → checksum (body w) < 256 ^ 2
      → At
          (sync_pos + 4)
          buf
          (body w ++ (field_bytes (has_crc w.flags) 2 (checksum (body w)) ++ tail))
      → sync_pos + 4 + length (body w) ≡ cur + length w.payload
      → parse_payload checksum sync_pos w.flags w.channels seq ts_raw period_us
          (record { field = length w.payload; cur = cur })
          buf
        ≡ go (record {
          flags = w.flags;
          channels = w.channels;
          seq = seq;
          ts_raw = ts_raw;
          period_us = period_us;
          payload_start = cur;
          payload_len = length w.payload;
          frame_end =
              cur + length w.payload + length (field_bytes (has_crc w.flags) 2 (checksum (body w)));
        })
  unfolding parse_payload
  parse_payload-At w seq ts_raw period_us cur buf tail v fits at e =
      let crc = field_bytes (has_crc w.flags) 2 (checksum (body w)) in
      let enough : ltb (length buf) (cur + length w.payload) ≡ false =
        ground (arith, at.1, e, length-append (body w) (crc ++ tail)) in
      let whole = v.whole in
      rw (whole, enough)
        (and_then-go (check_crc checksum sync_pos (has_crc w.flags) (cur + length w.payload) buf) _
          _ (check_crc-At (has_crc w.flags) (cur + length w.payload) buf (body w) tail fits at e))

  parse_fields-At :
      (w : Written) (buf tail : List ℕ)
      → Valid w
      → checksum (body w) < 256 ^ 2
      → At
          (sync_pos + 4)
          buf
          (body w ++ (field_bytes (has_crc w.flags) 2 (checksum (body w)) ++ tail))
      → parse_fields checksum sync_pos w.flags w.channels buf
        ≡ go (
            read_back w
              (sync_pos
                + 6
                + length (field_bytes (has_seq w.flags) 1 w.seq)
                + length (field_bytes (has_ts w.flags) 4 w.ts)
                + length (field_bytes (has_period w.flags) 2 w.period)
                + 2)
              (length (field_bytes (has_crc w.flags) 2 (checksum (body w)))))
  unfolding parse_fields
  parse_fields-At w buf tail v fits at =
      let s = field_bytes (has_seq w.flags) 1 w.seq in
      let t = field_bytes (has_ts w.flags) 4 w.ts in
      let p = field_bytes (has_period w.flags) 2 w.period in
      let l = le_bytes 2 (length w.payload) in
      let rest = field_bytes (has_crc w.flags) 2 (checksum (body w)) ++ tail in
      let behind =
        At-next (sync_pos + 4) 2 buf (w.flags ∷ w.channels ∷ [])
          ((s ++ (t ++ (p ++ (l ++ w.payload)))) ++ rest) refl at in
      let at₀ : At (sync_pos + 6) buf (s ++ (t ++ (p ++ (l ++ (w.payload ++ rest))))) =
        subst (At (sync_pos + 6) buf) (regroup s t p l w.payload rest) (
          subst (λ c. At c buf ((s ++ (t ++ (p ++ (l ++ w.payload)))) ++ rest)) (omega arith)
            behind) in
      let c₁ = sync_pos + 6 + length s in
      let c₂ = c₁ + length t in
      let c₃ = c₂ + length p in
      let at₁ =
        At-next (sync_pos + 6) (length s) buf s (t ++ (p ++ (l ++ (w.payload ++ rest)))) refl at₀ in
      let at₂ = At-next c₁ (length t) buf t (p ++ (l ++ (w.payload ++ rest))) refl at₁ in
      let at₃ = At-next c₂ (length p) buf p (l ++ (w.payload ++ rest)) refl at₂ in
      let ends : sync_pos + 4 + length (body w) ≡ c₃ + 2 + length w.payload =
        omega (arith, length-regroup s t p l w.payload, length-le_bytes 2 (length w.payload)) in
      and_then-go _ _ _ (optional-At (has_seq w.flags) (sync_pos + 6) 1 w.seq buf _ v.seq_fits at₀)
      ∙ and_then-go _ _ _ (optional-At (has_ts w.flags) c₁ 4 w.ts buf _ v.ts_fits at₁)
      ∙ and_then-go _ _ _ (optional-At (has_period w.flags) c₂ 2 w.period buf _ v.period_fits at₂)
      ∙ and_then-go _ _ _ (word-At c₃ 2 (length w.payload) buf _ v.payload_fits at₃)
      ∙ parse_payload-At w (field_of (has_seq w.flags) w.seq) (field_of (has_ts w.flags) w.ts)
          (field_of (has_period w.flags) w.period) (c₃ + 2) buf tail v fits at ends

  parse_body-At :
      (w : Written) (buf tail : List ℕ)
      → Valid w
      → checksum (body w) < 256 ^ 2
      → At
          (sync_pos + 4)
          buf
          (body w ++ (field_bytes (has_crc w.flags) 2 (checksum (body w)) ++ tail))
      → parse_frame checksum sync_pos buf ≡ parse_fields checksum sync_pos w.flags w.channels buf
  unfolding parse_frame parse_body
  parse_body-At w buf tail v fits at =
      let rest = field_bytes (has_crc w.flags) 2 (checksum (body w)) ++ tail in
      let fields =
        field_bytes (has_seq w.flags) 1 w.seq
        ++ (field_bytes (has_ts w.flags) 4 w.ts
            ++ (field_bytes (has_period w.flags) 2 w.period
                ++ (le_bytes 2 (length w.payload) ++ w.payload))) in
      let enough : ltb (length buf) (sync_pos + 6) ≡ false = ground (arith, at.1) in
      let next =
        subst (λ c. At c buf (w.channels ∷ (fields ++ rest))) (omega arith)
          (At-next (sync_pos + 4) 1 buf (w.flags ∷ []) (w.channels ∷ (fields ++ rest)) refl at) in
      let known = v.known in
      let some_channels = v.some_channels in
      rw enough (
        ap₂ (λ flags channels. parse_body checksum sync_pos flags channels buf)
          (byte_at-At (sync_pos + 4) w.flags buf _ at)
          (byte_at-At (sync_pos + 5) w.channels buf _ next)
        ∙ rw (known, some_channels))

-- A frame whose fields fit their widths, whose header is acceptable, whose payload is whole samples
-- and whose checksum has 16 bits, written with whatever stands before and behind it, is read back
-- field by field, up to its end and no further.
pub parse_frame-frame_bytes :
    (checksum : List ℕ → ℕ) (w : Written) (pre rest : List ℕ)
    → Valid w
    → checksum (body w) < 256 ^ 2
    → parse_frame checksum (length pre) (pre ++ (frame_bytes checksum w ++ rest))
      ≡ go (
          read_back w
            (length pre
              + 6
              + length (field_bytes (has_seq w.flags) 1 w.seq)
              + length (field_bytes (has_ts w.flags) 4 w.ts)
              + length (field_bytes (has_period w.flags) 2 w.period)
              + 2)
            (length (field_bytes (has_crc w.flags) 2 (checksum (body w)))))
parse_frame-frame_bytes checksum w pre rest v fits =
    let crc = field_bytes (has_crc w.flags) 2 (checksum (body w)) in
    let buf = pre ++ (frame_bytes checksum w ++ rest) in
    let split : frame_bytes checksum w ++ rest ≡ sync_word ++ (body w ++ (crc ++ rest)) =
      simp append_assoc in
    let at =
      At-next (length pre) 4 buf sync_word (body w ++ (crc ++ rest)) refl
        (subst (At (length pre) buf) split (At-append pre (frame_bytes checksum w ++ rest))) in
    parse_body-At checksum (length pre) w buf rest v fits at
    ∙ parse_fields-At checksum (length pre) w buf rest v fits at
