-- ===== src/Codec/Cobs/Frames.antt =====
-- crates/cycbox-runtime/src/codec/cobs.rs: frames in the receive buffer, for the configured codec,
-- whose sentinel is 0.
use cycbox.Base.{
  ℕ, ◌+◌, ◌≡◌, ◌≢◌, inl, inr, refl, sym, ap, ap₂, length-drop, ◌∙◌, List, [], ◌∷◌, ◌++◌,
  append_assoc, some, none, Option-cases, arith, length, take, drop, Avoids, position,
  position_splits, position-append, length-append, take-append_left, drop-append_left,
}
use cycbox.Message.{Message}
use cycbox.Codec.{Clock, Decoded, Progresses, KeepsWithin, ok, received, need_more}
use cycbox.Codec.Cobs.{CobsCodec, config, decode_cobs, decode_frame, decode, encode, encode_cobs}
use cycbox.Codec.Cobs.Blocks.{blocks, encode_cobs-blocks, blocks-Avoids}
use cycbox.Codec.Cobs.RoundTrip.{blocks_cons, decode_cobs-blocks}

decode_first :
    (c : Clock) (s : CobsCodec) (data_bytes rest : List ℕ)
    → Avoids s.sentinel data_bytes
    → decode c s (data_bytes ++ s.sentinel ∷ rest)
      ≡ decode_frame c s data_bytes (data_bytes ++ s.sentinel ∷ []) rest
unfolding decode
decode_first c s data_bytes rest h =
    let regroup : data_bytes ++ s.sentinel ∷ rest ≡ (data_bytes ++ s.sentinel ∷ []) ++ rest =
      sym (append_assoc data_bytes (s.sentinel ∷ []) rest) in
    let both : length (data_bytes ++ s.sentinel ∷ []) ≡ length data_bytes + 1 =
      omega (arith, length-append data_bytes (s.sentinel ∷ [])) in
    let front : take (length data_bytes + 1) (data_bytes ++ s.sentinel ∷ rest)
        ≡ data_bytes ++ s.sentinel ∷ [] =
      rw regroup (take-append_left _ (data_bytes ++ s.sentinel ∷ []) rest both) in
    let back : drop (length data_bytes + 1) (data_bytes ++ s.sentinel ∷ rest) ≡ rest =
      rw regroup (drop-append_left _ (data_bytes ++ s.sentinel ∷ []) rest both) in
    rw (position-append s.sentinel data_bytes rest h, decode)
      (rw (take-append_left _ data_bytes (s.sentinel ∷ rest) refl, front, back) refl)

decode_frame_ok :
    (c : Clock) (s : CobsCodec) (data_bytes frame rest payload : List ℕ)
    → data_bytes ≢ []
    → decode_cobs s data_bytes ≡ ok payload
    → decode_frame c s data_bytes frame rest
      ≡ record { codec = s; buffer = rest; outcome = ok (some (received c payload frame)) }
unfolding decode_frame
decode_frame_ok c s [] frame rest payload h e = absurd (h refl)
decode_frame_ok c s (b ∷ bs) frame rest payload h e = rw (e, decode_frame)

-- A frame is taken off whole, whatever becomes of it.
decode_frame_keeps :
    (c : Clock) (s : CobsCodec) (data_bytes frame rest : List ℕ)
    → let d = decode_frame c s data_bytes frame rest in (d.codec ≡ s) × (d.buffer ≡ rest)
unfolding decode_frame
decode_frame_keeps c s [] frame rest = (refl, refl)
decode_frame_keeps c s (b ∷ bs) frame rest = ground arith

decode_encoded :
    (c : Clock) (payload rest : List ℕ)
    → let s : CobsCodec = record { sentinel = 0 } in
      decode c s (encode_cobs s payload ++ rest) ≡ record {
        codec = s;
        buffer = rest;
        outcome = ok (some (received c payload (encode_cobs s payload)));
      }
decode_encoded c payload rest =
    let s : CobsCodec = record { sentinel = 0 } in
    let body = blocks 0 [] payload in
    let wire : encode_cobs s payload ≡ body ++ 0 ∷ [] = encode_cobs-blocks s payload in
    let (x, xs, e) = blocks_cons 0 [] payload (omega arith) in
    ap (λ t. decode c s (t ++ rest)) wire
    ∙ ap (decode c s) (append_assoc body (0 ∷ []) rest)
    ∙ decode_first c s body rest (blocks-Avoids payload [] (omega arith) tt)
    ∙ decode_frame_ok c s body (body ++ 0 ∷ []) rest payload (λ k. cc (e, k))
        (decode_cobs-blocks s payload)
    ∙ ap (λ t. record { codec = s; buffer = rest; outcome = ok (some (received c payload t)) })
        (sym wire)

-- For the configured codec, every payload, the empty one too, comes back from its frame, and what
-- follows stays buffered.
pub decode-encode_cobs :
    (c : Clock) (old : CobsCodec) (m : Message) (rest : List ℕ)
    → let s = config old in
      let frame = (encode s m).frame in
      decode c s (frame ++ rest)
      ≡ record { codec = s; buffer = rest; outcome = ok (some (received c m.payload frame)) }
unfolding config encode
decode-encode_cobs c old m rest = decode_encoded c m.payload rest

-- For the configured codec: after bytes other than 0 and then a 0, the frame behind them is found.
-- Whatever the first call reports, it leaves that frame in the buffer, and the second call delivers
-- it.
pub decode_resync :
    (c later : Clock) (old : CobsCodec) (m : Message) (garbage rest : List ℕ)
    → Avoids 0 garbage
    → let s = config old in
      let frame = (encode s m).frame in
      let first = decode c s (garbage ++ 0 ∷ (frame ++ rest)) in
      (first.codec ≡ s)
      × (decode later first.codec first.buffer ≡ record {
        codec = s;
        buffer = rest;
        outcome = ok (some (received later m.payload frame));
      })
unfolding config encode
decode_resync c later old m garbage rest h =
    let s : CobsCodec = record { sentinel = 0 } in
    let wire = encode_cobs s m.payload ++ rest in
    let first = decode_first c s garbage wire h in
    let kept = decode_frame_keeps c s garbage (garbage ++ 0 ∷ []) wire in
    let same_codec = ap (λ (d : Decoded CobsCodec). d.codec) first ∙ kept.0 in
    let left = ap (λ (d : Decoded CobsCodec). d.buffer) first ∙ kept.1 in
    (same_codec, ap₂ (decode later) same_codec left ∙ decode_encoded later m.payload rest)

found_buffer :
    (c : Clock) (s : CobsCodec) (buf : List ℕ) (i : ℕ)
    → position s.sentinel buf ≡ some i
    → (decode c s buf).buffer ≡ drop (i + 1) buf
unfolding decode
found_buffer c s buf i e = rw (e, decode) (decode_frame_keeps c s _ _ _).1

none_outcome :
    (c : Clock) (s : CobsCodec) (buf : List ℕ)
    → position s.sentinel buf ≡ none
    → decode c s buf ≡ need_more s buf
unfolding decode
none_outcome c s buf e = rw (e, decode)

pub decode-Progresses : Progresses decode
decode-Progresses c s buf m e = elim (Option-cases (position s.sentinel buf)) [
  | inl none_found ↦
      cc (ap (λ (d : Decoded CobsCodec). d.outcome) (none_outcome c s buf none_found))
  | inr (i, found) ↦
      let (pre, post, split, avoids, len) = position_splits s.sentinel buf i found in
      omega (
        arith,
        ap length (found_buffer c s buf i found),
        length-drop (i + 1) buf,
        ap length split,
        length-append pre (s.sentinel ∷ post),
      )
]

pub decode-KeepsWithin : KeepsWithin decode
decode-KeepsWithin c s buf = elim (Option-cases (position s.sentinel buf)) [
  | inl none_found ↦
      omega
        (arith, ap (λ (d : Decoded CobsCodec). length d.buffer) (none_outcome c s buf none_found))
  | inr (i, found) ↦
      omega (arith, ap length (found_buffer c s buf i found), length-drop (i + 1) buf)
]
