-- ===== src/Transport/Sessions.antt =====
-- crates/cycbox-sdk/src/transport.rs: nothing of one logical session reaches the next.
use mathlib.Core.Option
use cycbox.Base.{
  ℕ, zero, suc, ◌+◌, ◌≡◌, inl, inr, refl, sym, ap, ap₂, ◌∙◌, List, [], ◌∷◌, ◌++◌, append_assoc,
  append-nil, length,
}
use cycbox.Codec.{Clock, Codec, Decoded, Outcome-cases}
use cycbox.Transport.{
  CodecTransport, new, push_back, reset, drain, push_drained, end_session, decode_all,
  extend_buffer, arrive,
}
use cycbox.Transport.Drain.{after_decode, decode_all_step}

-- `t` with the messages, and the observer, of the transport `old` before its own.
abbrev pub behind : {S : Type 0} → CodecTransport S → CodecTransport S → CodecTransport S
behind old t = record t {
  pending_messages = old.pending_messages ++ t.pending_messages;
  observing = old.observing;
  observed = old.observed;
}

module _ {S : Type 0} (codec : Codec S) where
  after_decode-behind :
      (fuel : ℕ) (clocks : ℕ → Clock) (n : ℕ) (old t : CodecTransport S) (d : Decoded S)
      → ((u : CodecTransport S)
          → decode_all codec fuel clocks (n + 1) (behind old u)
            ≡ Option.map (behind old) (decode_all codec fuel clocks (n + 1) u))
      → after_decode codec fuel clocks n (behind old t) d
        ≡ Option.map (behind old) (after_decode codec fuel clocks n t d)
  unfolding push_back
  after_decode-behind fuel clocks n old t d later = elim (Outcome-cases d.outcome) [
    | inl e ↦ rw e
    | inr (inl (m, e)) ↦
        let u : CodecTransport S = record t { codec_state = d.codec; buffer = d.buffer } in
        rw e (
          ap
            (λ ps.
              decode_all codec fuel clocks (n + 1)
                (record (behind old u) { pending_messages = ps }))
            (append_assoc old.pending_messages t.pending_messages (m ∷ []))
          ∙ later (push_back codec m u))
    | inr (inr (x, e)) ↦ rw e
  ]

  decode_all-behind :
      (fuel : ℕ) (clocks : ℕ → Clock) (n : ℕ) (old t : CodecTransport S)
      → decode_all codec fuel clocks n (behind old t)
        ≡ Option.map (behind old) (decode_all codec fuel clocks n t)
  decode_all-behind zero clocks n old t = unfold decode_all in refl
  decode_all-behind (suc fuel) clocks n old t =
      let d = codec.decode (clocks n) t.codec_state t.buffer in
      decode_all_step codec fuel clocks n (behind old t) d refl
      ∙ after_decode-behind fuel clocks n old t d (λ u. decode_all-behind fuel clocks (n + 1) old u)
      ∙ ap (Option.map (behind old)) (sym (decode_all_step codec fuel clocks n t d refl))

  -- When `reset` brings the codec, as the old session leaves it, to the state `start`: after a
  -- session boundary new bytes are decoded as by a new transport in that state, and the messages
  -- that the old session left come before theirs.
  pub session_isolated :
      (start : S) (c : Clock) (clocks : ℕ → Clock) (bs : List ℕ) (t : CodecTransport S)
      → codec.reset (push_drained codec (drain codec c t)).codec_state ≡ start
      → arrive codec clocks bs (end_session codec c t)
        ≡ Option.map
            (behind (push_drained codec (drain codec c t)))
            (arrive codec clocks bs (new codec start))
  unfolding arrive end_session reset extend_buffer
  session_isolated start c clocks bs t resets =
      let old = push_drained codec (drain codec c t) in
      let fresh = extend_buffer codec bs (new codec start) in
      let fuel = length fresh.buffer + 1 in
      ap₂
        (λ st ps.
          decode_all codec fuel clocks 1
            (record (behind old fresh) { codec_state = st; pending_messages = ps }))
        resets (sym (append-nil old.pending_messages))
      ∙ decode_all-behind fuel clocks 1 old fresh
