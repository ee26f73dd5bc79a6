-- ===== src/Transport/Chunks.antt =====
-- crates/cycbox-sdk/src/transport.rs over crates/cycbox-runtime/src/codec/line.rs: how the byte
-- stream is cut into reads makes no difference to the messages.
use mathlib.Core.List.{map-append}
use cycbox.Base.{
  ℕ, ◌+◌, ◌≤◌, ◌≡◌, refl, sym, ap, ◌∙◌, subst, List, [], ◌∷◌, ◌++◌, map, append_assoc, append-nil,
  Option, some, none, false, arith, length, length-append, ltb,
}
use cycbox.Codec.{Clock}
use cycbox.Codec.Line.{LineCodec, line_codec}
use cycbox.Codec.Line.Split.{Lacks-nil}
use cycbox.Transport.{CodecTransport, max_buffer_size, new, extend_buffer, arrive}
use cycbox.Transport.Lines.{
  Lines, last, Lines-append, Lines-rest_le, Lines-unique, payloads, frames, ending, Decodes,
  decode_all-Decodes,
}

abbrev pub Reads : Type 0
Reads = List ((ℕ → Clock) × List ℕ)

-- Reads one after another, with no message taken out in between.
unfoldable pub feed : Reads → CodecTransport LineCodec → Option (CodecTransport LineCodec)
feed [] t = some t
feed ((clocks, bs) ∷ reads) t = elim (arrive line_codec clocks bs t) [
  | some t' ↦ feed reads t'
  | none ↦ none
]

abbrev pub bytes_of : Reads → List ℕ
bytes_of [] = []
bytes_of ((clocks, bs) ∷ reads) = bs ++ bytes_of reads

module _ (s : LineCodec) where
  -- The transport holds what the stream so far is split into.
  Streamed : List ℕ → CodecTransport LineCodec → Type 0
  Streamed stream t =
      (lines : List (List ℕ)) × Lines (ending s) stream lines t.buffer
      × (t.codec_state ≡ s)
      × (payloads t.pending_messages ≡ lines)
      × (frames t.pending_messages ≡ map (λ line. line ++ ending s) lines)

  arrive-Decodes :
      (clocks : ℕ → Clock) (bs : List ℕ) (t : CodecTransport LineCodec)
      → t.codec_state ≡ s
      → length t.buffer + length bs ≤ max_buffer_size
      → (t' : CodecTransport LineCodec) × (arrive line_codec clocks bs t ≡ some t')
        × Decodes s (record t { buffer = t.buffer ++ bs }) t'
  unfolding arrive extend_buffer
  arrive-Decodes clocks bs t es fits =
      let room : ltb max_buffer_size (length t.buffer + length bs) ≡ false = ground arith in
      let t₁ : CodecTransport LineCodec = record t { buffer = t.buffer ++ bs } in
      rw room (decode_all-Decodes s (length t₁.buffer + 1) clocks 1 t₁ es (omega arith))

  arrive-Streamed :
      (clocks : ℕ → Clock) (bs stream : List ℕ) (t : CodecTransport LineCodec)
      → Streamed stream t
      → length stream + length bs ≤ max_buffer_size
      → (t' : CodecTransport LineCodec) × (arrive line_codec clocks bs t ≡ some t')
        × Streamed (stream ++ bs) t'
  unfolding Streamed Decodes
  arrive-Streamed clocks bs stream t (lines, l, es, ps, fs) fits =
      let (t', a, (more, l', es', ps', fs')) =
        arrive-Decodes clocks bs t es (omega (arith, Lines-rest_le l)) in
      (
        t',
        a,
        (
          lines ++ more,
          Lines-append (ending s) bs l l',
          es',
          ps' ∙ ap (λ x. x ++ more) ps,
          fs'
              ∙ ap (λ x. x ++ map (λ line. line ++ ending s) more) fs
              ∙ sym (map-append _ lines more),
        ),
      )

  feed-Streamed :
      (reads : Reads) (stream : List ℕ) (t : CodecTransport LineCodec)
      → Streamed stream t
      → length stream + length (bytes_of reads) ≤ max_buffer_size
      → (t' : CodecTransport LineCodec) × (feed reads t ≡ some t')
        × Streamed (stream ++ bytes_of reads) t'
  unfolding feed
  feed-Streamed [] stream t h fits =
      (t, refl, subst (λ x. Streamed x t) (sym (append-nil stream)) h)
  feed-Streamed ((clocks, bs) ∷ reads) stream t h fits =
      let (t', a, h') =
        arrive-Streamed clocks bs stream t h (omega (arith, length-append bs (bytes_of reads))) in
      let (t'', f, h'') =
        feed-Streamed reads (stream ++ bs) t' h'
          (omega (arith, length-append bs (bytes_of reads), length-append stream bs)) in
      (
        t'',
        rw (a, feed) f,
        subst (λ x. Streamed x t'') (append_assoc stream bs (bytes_of reads)) h'',
      )

-- For the line codec, two ways to read one stream of at most the buffer's limit, whatever the
-- clocks show, give the same payloads and frames in the same order and leave the same bytes in the
-- buffer; the stream is the payloads, each with its ending, and what is left, in which no line
-- ends.
pub reads_irrelevant :
    (s : LineCodec) (reads reads' : Reads)
    → bytes_of reads ≡ bytes_of reads'
    → length (bytes_of reads) ≤ max_buffer_size
    → (t : CodecTransport LineCodec) × (t' : CodecTransport LineCodec) × (feed reads
          (new line_codec s)
        ≡ some t)
      × (feed reads' (new line_codec s) ≡ some t')
      × (payloads t.pending_messages ≡ payloads t'.pending_messages)
      × (frames t.pending_messages ≡ frames t'.pending_messages)
      × (t.buffer ≡ t'.buffer)
      × Lines (ending s) (bytes_of reads) (payloads t.pending_messages) t.buffer
unfolding Streamed
reads_irrelevant s reads reads' e fits =
    let fresh : Streamed s [] (new line_codec s) =
      ([], last refl (Lacks-nil s.line_ending), refl, refl, refl) in
    let (t, f, (lines, l, es, ps, fs)) =
      feed-Streamed s reads [] (new line_codec s) fresh (omega arith) in
    let (t', f', (lines', l', es', ps', fs')) =
      feed-Streamed s reads' [] (new line_codec s) fresh (omega (arith, ap length e)) in
    let (same, rest) =
      Lines-unique s l (subst (λ x. Lines (ending s) x lines' t'.buffer) (sym e) l') in
    (
      t,
      t',
      f,
      f',
      ps ∙ same ∙ sym ps',
      fs ∙ ap (map (λ line. line ++ ending s)) same ∙ sym fs',
      rest,
      subst (λ x. Lines (ending s) (bytes_of reads) x t.buffer) (sym ps) l,
    )
