-- ===== src/Codec/Slip/Frames.antt =====
-- crates/cycbox-runtime/src/codec/slip.rs: frames in the receive buffer.
use cycbox.Base.{
  ℕ, ◌+◌, ◌≤◌, ◌≡◌, ◌≢◌, ◌⊎◌, inl, inr, refl, sym, ap, ◌∙◌, List, [], ◌∷◌, ◌++◌, append_assoc, some,
  none, true, false, Option-cases, arith, length, take, drop, Avoids, position,
  position-none→Avoids, position_splits, position-append, length-append, take-append_left,
  drop-append_left,
}
use cycbox.Message.{Message}
use cycbox.Codec.{
  Clock, Decoded, CycBoxError, Result, Progresses, KeepsWithin, ok, err, received, need_more,
}
use cycbox.Codec.Slip.{
  SlipCodec, end_byte, escape, decode_slip, decode_frame, decode, encode, encode_slip,
}
use cycbox.Codec.Slip.Escape.{escape-Avoids, decode_slip-escape, length-escape, decode_slip_exact}

pub decode_first :
    (c : Clock) (s : SlipCodec) (frame_data rest : List ℕ)
    → Avoids end_byte frame_data
    → decode c s (frame_data ++ end_byte ∷ rest)
      ≡ decode_frame c s frame_data (frame_data ++ end_byte ∷ []) rest
unfolding decode
decode_first c s frame_data rest h =
    let regroup : frame_data ++ end_byte ∷ rest ≡ (frame_data ++ end_byte ∷ []) ++ rest =
      sym (append_assoc frame_data (end_byte ∷ []) rest) in
    let both : length (frame_data ++ end_byte ∷ []) ≡ length frame_data + 1 =
      omega (arith, length-append frame_data (end_byte ∷ [])) in
    let front : take (length frame_data + 1) (frame_data ++ end_byte ∷ rest)
        ≡ frame_data ++ end_byte ∷ [] =
      rw regroup (take-append_left _ (frame_data ++ end_byte ∷ []) rest both) in
    let back : drop (length frame_data + 1) (frame_data ++ end_byte ∷ rest) ≡ rest =
      rw regroup (drop-append_left _ (frame_data ++ end_byte ∷ []) rest both) in
    rw (position-append end_byte frame_data rest h, decode)
      (rw (take-append_left _ frame_data (end_byte ∷ rest) refl, front, back) refl)

-- The message that a frame stands for: its payload, and the frame with the END behind it.
abbrev pub delivers : Clock → SlipCodec → List ℕ → List ℕ → Decoded SlipCodec
delivers c s payload rest = record {
  codec = s;
  buffer = rest;
  outcome = ok (some (received c payload (escape payload ++ end_byte ∷ [])));
}

decode_frame_ok :
    (c : Clock) (s : SlipCodec) (frame_data frame rest payload : List ℕ)
    → frame_data ≢ []
    → decode_slip frame_data ≡ ok payload
    → decode_frame c s frame_data frame rest
      ≡ record { codec = s; buffer = rest; outcome = ok (some (received c payload frame)) }
unfolding decode_frame
decode_frame_ok c s [] frame rest payload h e = absurd (h refl)
decode_frame_ok c s (b ∷ bs) frame rest payload h e = rw (e, decode_frame)

decode_frame_err :
    (c : Clock) (s : SlipCodec) (frame_data frame rest : List ℕ) (x : CycBoxError)
    → frame_data ≢ []
    → decode_slip frame_data ≡ err x
    → decode_frame c s frame_data frame rest ≡ record { codec = s; buffer = rest; outcome = err x }
unfolding decode_frame
decode_frame_err c s [] frame rest x h e = absurd (h refl)
decode_frame_err c s (b ∷ bs) frame rest x h e = rw (e, decode_frame)

escape-ne-nil : (bs : List ℕ) → bs ≢ [] → escape bs ≢ []
escape-ne-nil [] h e = h refl
escape-ne-nil (b ∷ bs) h e = absurd (omega (arith, (length-escape (b ∷ bs)).0, ap length e))

decode_frame-escape :
    (c : Clock) (s : SlipCodec) (payload rest : List ℕ)
    → payload ≢ []
    → decode_frame c s (escape payload) (escape payload ++ end_byte ∷ []) rest
      ≡ delivers c s payload rest
decode_frame-escape c s payload rest h =
    decode_frame_ok c s (escape payload) _ rest payload (escape-ne-nil payload h)
      (decode_slip-escape payload)

pub decode_escaped :
    (c : Clock) (s : SlipCodec) (payload rest : List ℕ)
    → payload ≢ []
    → decode c s (escape payload ++ end_byte ∷ rest) ≡ delivers c s payload rest
decode_escaped c s payload rest h =
    decode_first c s (escape payload) rest (escape-Avoids payload)
    ∙ decode_frame-escape c s payload rest h

decode_frame_keeps :
    (c : Clock) (s : SlipCodec) (frame_data frame rest : List ℕ)
    → let d = decode_frame c s frame_data frame rest in (d.codec ≡ s) × (d.buffer ≡ rest)
unfolding decode_frame
decode_frame_keeps c s [] frame rest = (refl, refl)
decode_frame_keeps c s (b ∷ bs) frame rest = ground arith

-- Without the leading END, a payload that is not empty comes back from its frame at once, and what
-- follows stays buffered.
pub decode-encode_slip :
    (c : Clock) (m : Message) (rest : List ℕ)
    → m.payload ≢ []
    → let s : SlipCodec = record { push_leading_end = false } in
      decode c s ((encode s m).frame ++ rest) ≡ delivers c s m.payload rest
unfolding encode encode_slip
decode-encode_slip c m rest h =
    ap (decode c _) (append_assoc (escape m.payload) (end_byte ∷ []) rest)
    ∙ decode_escaped c _ m.payload rest h

-- With the leading END and a payload that is not empty, whatever noise without an END stands before
-- the frame is taken off by one call, and the next call delivers the payload.
pub decode_noise :
    (c later : Clock) (m : Message) (noise rest : List ℕ)
    → m.payload ≢ []
    → Avoids end_byte noise
    → let s : SlipCodec = record { push_leading_end = true } in
      let first = decode c s (noise ++ ((encode s m).frame ++ rest)) in
      (first.codec ≡ s)
      × (first.buffer ≡ escape m.payload ++ end_byte ∷ rest)
      × (decode later s first.buffer ≡ delivers later s m.payload rest)
unfolding encode encode_slip
decode_noise c later m noise rest h quiet =
    let s : SlipCodec = record { push_leading_end = true } in
    let wire = escape m.payload ++ end_byte ∷ rest in
    let regroup : noise ++ ((encode s m).frame ++ rest) ≡ noise ++ end_byte ∷ wire =
      ap (λ t. noise ++ end_byte ∷ t) (append_assoc (escape m.payload) (end_byte ∷ []) rest) in
    let first = ap (decode c s) regroup ∙ decode_first c s noise wire quiet in
    let kept = decode_frame_keeps c s noise (noise ++ end_byte ∷ []) wire in
    let left = ap (λ (d : Decoded SlipCodec). d.buffer) first ∙ kept.1 in
    (
      ap (λ (d : Decoded SlipCodec). d.codec) first ∙ kept.0,
      left,
      ap (decode later s) left ∙ decode_escaped later s m.payload rest h,
    )

-- What becomes of a frame: it is empty and gives no message, or it is an escaped payload and
-- delivers that, or it is no escaped payload and is reported as an error.
abbrev pub Handles : Clock → SlipCodec → List ℕ → List ℕ → Decoded SlipCodec → Type 0
Handles c s frame_data rest d =
    ((frame_data ≡ []) × (d ≡ record { codec = s; buffer = rest; outcome = ok none }))
    ⊎ ((payload : List ℕ) × (payload ≢ [])
        × (frame_data ≡ escape payload)
        × (d ≡ delivers c s payload rest))
    ⊎ (((payload : List ℕ) → frame_data ≢ escape payload)
        × ((e : CycBoxError) × (d ≡ record { codec = s; buffer = rest; outcome = err e })))

-- What `decode` does with a buffer: without an END nothing is taken, and else the first frame is
-- taken off and handled.
abbrev pub Splits : Clock → SlipCodec → List ℕ → Type 0
Splits c s buf =
    (Avoids end_byte buf × (decode c s buf ≡ need_more s buf))
    ⊎ ((frame_data : List ℕ) × (rest : List ℕ) × (buf ≡ frame_data ++ end_byte ∷ rest)
        × Avoids end_byte frame_data
        × Handles c s frame_data rest (decode c s buf))

Result-cases {ℓ} :
    {A : Type ℓ} (r : Result A) → ((a : A) × (r ≡ ok a)) ⊎ ((e : CycBoxError) × (r ≡ err e))
Result-cases (ok a) = inl (a, refl)
Result-cases (err e) = inr (e, refl)

decode_frame-Handles :
    (c : Clock) (s : SlipCodec) (frame_data rest : List ℕ)
    → Handles c s frame_data rest (decode_frame c s frame_data (frame_data ++ end_byte ∷ []) rest)
decode_frame-Handles c s [] rest = inl (refl, unfold decode_frame in refl)
decode_frame-Handles c s (b ∷ bs) rest = elim (Result-cases (decode_slip (b ∷ bs))) [
  | inl (payload, e) ↦
      let w : b ∷ bs ≡ escape payload = (decode_slip_exact (b ∷ bs) payload).0 e in
      inr (
        inl (
          payload,
          filled payload w,
          w,
          decode_frame_ok c s (b ∷ bs) _ rest payload (λ k. cc) e
              ∙ ap
                  (λ t. record {
                    codec = s;
                    buffer = rest;
                    outcome = ok (some (received c payload (t ++ end_byte ∷ [])));
                  })
                  w,
        ))
  | inr (x, e) ↦ inr (
      inr (
        (λ payload w. cc (e, (decode_slip_exact (b ∷ bs) payload).1 w)),
        (x, decode_frame_err c s (b ∷ bs) _ rest x (λ k. cc) e),
      ))
]
  where
    filled : (payload : List ℕ) → b ∷ bs ≡ escape payload → payload ≢ []
    filled payload w k = unfold escape in cc (w, ap escape k)

-- Without an END in the buffer, `decode` asks for more and keeps everything. With one, it takes off
-- the first frame: an empty frame gives no message, a frame that is the escaped form of a payload
-- delivers that payload, and any other frame is reported as an error; the codec and what follows
-- the frame stay as they are.
pub decode-Splits_frames : (c : Clock) (s : SlipCodec) (buf : List ℕ) → Splits c s buf
unfolding decode
decode-Splits_frames c s buf = elim (Option-cases (position end_byte buf)) [
  | inl e ↦ inl (position-none→Avoids end_byte buf e, rw (e, decode))
  | inr (i, e) ↦
      let (frame_data, rest, split, avoids, len) = position_splits end_byte buf i e in
      inr (
        frame_data,
        rest,
        split,
        avoids,
        rw (ap (decode c s) split ∙ decode_first c s frame_data rest avoids)
            (decode_frame-Handles c s frame_data rest),
      )
]

pub decode-Progresses : Progresses decode
decode-Progresses c s buf m e = elim (decode-Splits_frames c s buf) [
  | inl (avoids, d) ↦ cc (ap (λ (x : Decoded SlipCodec). x.outcome) d)
  | inr (frame_data, rest, split, avoids, h) ↦ elim h [
    | inl (_, d) ↦ cc (ap (λ (x : Decoded SlipCodec). x.outcome) d)
    | inr (inl (payload, _, _, d)) ↦ omega (
      arith,
      ap (λ (x : Decoded SlipCodec). length x.buffer) d,
      ap length split,
      length-append frame_data (end_byte ∷ rest),
    )
    | inr (inr (_, (x, d))) ↦ cc (ap (λ (y : Decoded SlipCodec). y.outcome) d)
  ]
]

pub decode-KeepsWithin : KeepsWithin decode
decode-KeepsWithin c s buf = elim (decode-Splits_frames c s buf) [
  | inl (avoids, d) ↦ omega (arith, ap (λ (x : Decoded SlipCodec). length x.buffer) d)
  | inr (frame_data, rest, split, avoids, h) ↦
      let shorter : length rest ≤ length buf =
        omega (arith, ap length split, length-append frame_data (end_byte ∷ rest)) in
      elim h [
        | inl (_, d) ↦ rw d shorter
        | inr (inl (payload, _, _, d)) ↦ rw d shorter
        | inr (inr (_, (x, d))) ↦ rw d shorter
      ]
]
