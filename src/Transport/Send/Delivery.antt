-- ===== src/Transport/Send/Delivery.antt =====
-- crates/cycbox-sdk/src/transport.rs over crates/cycbox-runtime/src/codec/line.rs: what one
-- transport sends is what another receives.
use cycbox.Base.{
  ℕ, ◌≤◌, ◌≡◌, refl, sym, ap, ◌∙◌, subst, List, [], ◌∷◌, ◌++◌, append_assoc, inl, some, length,
}
use cycbox.Message.{Message}
use cycbox.Message.Builder.{frame_or_payload}
use cycbox.Codec.Line.{LineCodec, LineEnding, lf, crlf, line_codec, encode, ending_bytes}
use cycbox.Codec.Line.Split.{Lacks, Lacks-nil}
use cycbox.Codec.Line.RoundTrip.{encode_frame}
use cycbox.Transport.{CodecTransport, max_buffer_size, new}
use cycbox.Transport.Lines.{Lines, last, next, Lines-unique, payloads, ending}
use cycbox.Transport.Chunks.{Reads, feed, bytes_of, reads_irrelevant}
use cycbox.Transport.Send.{WriteAll, send, send_all}

-- Each payload is one line without its ending.
abbrev pub AllLack : List ℕ → List Message → Type 0
AllLack trailer [] = Unit
AllLack trailer (m ∷ ms) = Lacks trailer m.payload × AllLack trailer ms

ended_kept :
    (e : LineEnding) (line bytes : List ℕ)
    → frame_or_payload (line ++ ending_bytes e) bytes ≡ line ++ ending_bytes e
unfolding frame_or_payload
ended_kept lf [] bytes = refl
ended_kept crlf [] bytes = refl
ended_kept e (b ∷ bs) bytes = refl

encode-payload : (s : LineCodec) (m : Message) → (encode s m).payload ≡ m.payload
unfolding encode
encode-payload s m = refl

send_offers :
    (write : WriteAll) (s : LineCodec) (m : Message) (t : CodecTransport LineCodec)
    → t.codec_state ≡ s
    → Lacks (ending_bytes s.line_ending) m.payload
    → (send line_codec write m t).offered ≡ m.payload ++ ending_bytes s.line_ending
unfolding send
send_offers write s m t es lacks =
    ap (λ (x : LineCodec). frame_or_payload (encode x m).frame (encode x m).payload) es
    ∙ ap (frame_or_payload (encode s m).frame) (encode-payload s m)
    ∙ ap (λ f. frame_or_payload f m.payload) (encode_frame s m m.payload lacks (inl refl))
    ∙ ended_kept s.line_ending m.payload m.payload

send-codec_state :
    (write : WriteAll) (m : Message) (t : CodecTransport LineCodec)
    → (send line_codec write m t).transport.codec_state ≡ t.codec_state
unfolding send
send-codec_state write m t = refl

sent-Lines :
    (write : WriteAll) (s : LineCodec) (ms : List Message) (t : CodecTransport LineCodec)
    → t.codec_state ≡ s
    → AllLack (ending_bytes s.line_ending) ms
    → Lines (ending s) (send_all line_codec write ms t) (payloads ms) []
unfolding send_all
sent-Lines write s [] t es lacks = last refl (Lacks-nil s.line_ending)
sent-Lines write s (m ∷ ms) t es (lacks, more) =
    let sent = send line_codec write m t in
    next m.payload (send_all line_codec write ms sent.transport)
      (ap (λ f. f ++ send_all line_codec write ms sent.transport) (send_offers write s m t es lacks)
        ∙ append_assoc m.payload (ending s) (send_all line_codec write ms sent.transport))
      lacks (sent-Lines write s ms sent.transport (send-codec_state write m t ∙ es) more)

-- What a transport with the line codec sends for messages whose payloads are lines without their
-- ending is, however it is cut into reads and if the buffer can hold it, received by another as
-- messages with these payloads in the same order, and nothing stays in the buffer.
pub sent_is_received :
    (write : WriteAll) (s : LineCodec) (ms : List Message) (reads : Reads)
    → AllLack (ending_bytes s.line_ending) ms
    → bytes_of reads ≡ send_all line_codec write ms (new line_codec s)
    → length (bytes_of reads) ≤ max_buffer_size
    → (t : CodecTransport LineCodec) × (feed reads (new line_codec s) ≡ some t)
      × (payloads t.pending_messages ≡ payloads ms)
      × (t.buffer ≡ [])
sent_is_received write s ms reads lacks same fits =
    let (t, t', f, f', ps, fs, rest, l) = reads_irrelevant s reads reads refl fits in
    let sent = sent-Lines write s ms (new line_codec s) refl lacks in
    let wire : Lines (ending s) (bytes_of reads) (payloads ms) [] =
      subst (λ x. Lines (ending s) x (payloads ms) []) (sym same) sent in
    let (got, left) = Lines-unique s l wire in (t, f, got, left)
