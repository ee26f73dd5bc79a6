-- ===== src/Transport/Lines.antt =====
-- crates/cycbox-sdk/src/transport.rs over crates/cycbox-runtime/src/codec/line.rs: the messages do
-- not depend on how the byte stream was cut into reads.
use mathlib.Core.List.{map-append}
use cycbox.Base.{
  ℕ, zero, suc, ◌+◌, ◌<◌, ◌≤◌, ◌≡◌, inl, inr, refl, sym, ap, ap₂, subst, ◌∙◌, List, [], ◌∷◌, ◌++◌,
  map, append_assoc, append-nil, some, arith, length, length-append,
}
use cycbox.Message.{Message}
use cycbox.Codec.{Clock, Decoded, ok, received, received-frame}
use cycbox.Codec.Line.{LineCodec, ending_bytes, decode, line_codec}
use cycbox.Codec.Line.Split.{Lacks, decode-Splits_lines, ending_pos}
use cycbox.Codec.Line.RoundTrip.{decode_line_by}
use cycbox.Transport.{CodecTransport, push_back, decode_all}
use cycbox.Transport.Drain.{decode_all_step}

-- `stream` is the lines `payloads`, each with its ending, and then `rest`, in which no line ends.
pub data Lines (ending : List ℕ) : List ℕ → List (List ℕ) → List ℕ → Type 0 where
  last : {stream rest : List ℕ} → stream ≡ rest → Lacks ending rest → Lines ending stream [] rest
  next :
      {stream rest : List ℕ} {payloads : List (List ℕ)} (line more : List ℕ)
      → stream ≡ line ++ (ending ++ more)
      → Lacks ending line
      → Lines ending more payloads rest
      → Lines ending stream (line ∷ payloads) rest

-- More bytes behind the stream are split together with what was left of it.
pub Lines-append :
    (ending : List ℕ) {s r : List ℕ} {ms : List (List ℕ)} (extra : List ℕ) {r' : List ℕ}
    {ms' : List (List ℕ)}
    → Lines ending s ms r
    → Lines ending (r ++ extra) ms' r'
    → Lines ending (s ++ extra) (ms ++ ms') r'
Lines-append ending extra (last e h) l' = rw e l'
Lines-append ending extra (next line more e h l) l' =
    next line (more ++ extra)
      (ap (λ t. t ++ extra) e
        ∙ append_assoc line (ending ++ more) extra
        ∙ ap (◌++◌ line) (append_assoc ending more extra))
      h (Lines-append ending extra l l')

pub Lines-rest_le :
    {ending s r : List ℕ} {ms : List (List ℕ)} → Lines ending s ms r → length r ≤ length s
Lines-rest_le (last e h) = omega (arith, ap length e)
Lines-rest_le {ending} (next line more e h l) = omega (
  arith,
  ap length e,
  length-append line (ending ++ more),
  length-append ending more,
  Lines-rest_le l,
)

abbrev pub payloads : List Message → List (List ℕ)
payloads = map (λ m. m.payload)

abbrev pub frames : List Message → List (List ℕ)
frames = map (λ m. m.frame)

module _ (s : LineCodec) where
  abbrev pub ending : List ℕ
  ending = ending_bytes s.line_ending

  outcome_payload : Decoded LineCodec → List ℕ
  outcome_payload d = elim d.outcome [ ok (some m) ↦ m.payload | _ ↦ [] ]

  -- The first line is determined by the stream.
  first_line_unique :
      (line more line' more' : List ℕ)
      → Lacks ending line
      → Lacks ending line'
      → line ++ (ending ++ more) ≡ line' ++ (ending ++ more')
      → (line ≡ line') × (more ≡ more')
  unfolding outcome_payload received
  first_line_unique line more line' more' h h' e =
      let c : Clock = record { wall = 0; instant = 0 } in
      let same =
        sym (decode_line_by s.line_ending c line more h)
        ∙ ap (decode c s) e
        ∙ decode_line_by s.line_ending c line' more' h' in
      (ap outcome_payload same, ap (λ (d : Decoded LineCodec). d.buffer) same)

  pub Lines-unique :
      {stream : List ℕ} {ms ms' : List (List ℕ)} {r r' : List ℕ}
      → Lines ending stream ms r
      → Lines ending stream ms' r'
      → (ms ≡ ms') × (r ≡ r')
  Lines-unique (last e h) (last e' h') = (refl, sym e ∙ e')
  Lines-unique (last e h) (next line more e' h' l') = absurd (h line more (sym e ∙ e'))
  Lines-unique (next line more e h l) (last e' h') = absurd (h' line more (sym e' ∙ e))
  Lines-unique (next line more e h l) (next {rest = rest'} {payloads = ms'} line' more' e' h' l') =
      let (same, after) = first_line_unique line more line' more' h h' (sym e ∙ e') in
      let (all, rest) = Lines-unique l (subst (λ x. Lines ending x ms' rest') (sym after) l') in
      (ap₂ ◌∷◌ same all, rest)

  -- What the loop that decodes all messages does to the buffer and to the pending messages.
  unfoldable pub Decodes : CodecTransport LineCodec → CodecTransport LineCodec → Type 0
  Decodes t t' =
      (lines : List (List ℕ)) × Lines ending t.buffer lines t'.buffer
      × (t'.codec_state ≡ s)
      × (payloads t'.pending_messages ≡ payloads t.pending_messages ++ lines)
      × (frames t'.pending_messages
          ≡ frames t.pending_messages ++ map (λ line. line ++ ending) lines)

  Decodes-cons :
      (c : Clock) (t t' : CodecTransport LineCodec) (line more : List ℕ)
      → t.buffer ≡ line ++ (ending ++ more)
      → Lacks ending line
      → Decodes
          (push_back line_codec
            (received c line (line ++ ending))
            (record t { codec_state = s; buffer = more }))
          t'
      → Decodes t t'
  unfolding Decodes push_back received
  Decodes-cons c t t' line more split lacks (lines, l, state, ps, fs) = (
    line ∷ lines,
    next line more split lacks l,
    state,
    ps
        ∙ ap (λ x. x ++ lines)
            (map-append _ t.pending_messages (received c line (line ++ ending) ∷ []))
        ∙ append_assoc (payloads t.pending_messages) (line ∷ []) lines,
    fs
        ∙ ap (λ x. x ++ map (λ line. line ++ ending) lines)
            (map-append _ t.pending_messages (received c line (line ++ ending) ∷ []))
        ∙ append_assoc (frames t.pending_messages) _ (map (λ line. line ++ ending) lines)
        ∙ ap (λ x. frames t.pending_messages ++ x ∷ map (λ line. line ++ ending) lines)
            (received-frame c line (line ++ ending) frame_pos),
  )
    where
      frame_pos : 0 < length (line ++ ending)
      frame_pos = omega (arith, length-append line ending, ending_pos s.line_ending)

  pub decode_all-Decodes :
      (fuel : ℕ) (clocks : ℕ → Clock) (n : ℕ) (t : CodecTransport LineCodec)
      → t.codec_state ≡ s
      → length t.buffer < fuel
      → (t' : CodecTransport LineCodec) × (decode_all line_codec fuel clocks n t ≡ some t')
        × Decodes t t'
  decode_all-Decodes zero clocks n t es h = absurd (omega arith)
  decode_all-Decodes (suc fuel) clocks n t es h = elim (decode-Splits_lines (clocks n) s t.buffer) [
    | inl (lacks, d) ↦ (
      record t { codec_state = s },
      decode_all_step line_codec fuel clocks n t _ (ap (λ x. decode (clocks n) x t.buffer) es ∙ d),
      unfold Decodes in ([], last refl lacks, refl, sym (append-nil _), sym (append-nil _)),
    )
    | inr (line, more, split, lacks, d) ↦
        let shorter : length more < fuel = omega (
          arith,
          ap length split,
          length-append line (ending ++ more),
          length-append ending more,
          ending_pos s.line_ending,
        ) in
        let t₁ : CodecTransport LineCodec =
          push_back line_codec (received (clocks n) line (line ++ ending))
            (record t { codec_state = s; buffer = more }) in
        let (t', all, rest) =
          decode_all-Decodes fuel clocks (n + 1) t₁ (unfold push_back in refl)
            (unfold push_back in shorter) in
        (
          t',
          decode_all_step line_codec fuel clocks n t _
                (ap (λ x. decode (clocks n) x t.buffer) es ∙ d)
              ∙ all,
          Decodes-cons (clocks n) t t' line more split lacks rest,
        )
  ]
