-- ===== src/Transport.antt =====
-- crates/cycbox-sdk/src/transport.rs: `CodecTransport`, which turns a byte stream and a codec into
-- a stream of messages. What `read` and `take_session_boundary` of the byte stream answer is an
-- event; `recv` runs over the events to come. The codec is a section's parameter.
pub mod Drain
pub mod Lines
pub mod Chunks
pub mod Sessions
pub mod SlipWait
pub mod Send
use cycbox.Base.{
  ℕ, zero, suc, ◌+◌, ◌*◌, List, [], ◌∷◌, ◌++◌, Option, some, none, Bool, true, false, ltb,
  if◌then◌else◌, length,
}
use cycbox.Base.Text.{Text}
use cycbox.Message.{Message}
use cycbox.Codec.{Clock, Codec, Decoded, CycBoxError, Result, ok, err}

pub record RawBytes : Type 0 where
  pub timestamp : ℕ
  pub bytes : List ℕ

-- 1024 * 1024 * 1024.
abbrev pub max_buffer_size : ℕ
max_buffer_size = 1024 * 1024 * 1024

-- `observing` says that an observer is installed, and `observed` is what it was sent.
pub record CodecTransport (S : Type 0) : Type 0 where
  pub codec_state : S
  pub buffer : List ℕ
  pub pending_messages : List Message
  pub observing : Bool
  pub observed : List RawBytes

-- One answer of the byte stream: the end of the stream, one byte or more, an error, or none within
-- the timeout. The flag is what `take_session_boundary` says then, and the clocks are those that
-- the calls of the codec see, one after another.
pub data ReadEvent : Type 0 where
  end_of_stream : ReadEvent
  received_bytes : ℕ → List ℕ → Bool → ReadEvent
  read_failed : Text → ReadEvent
  timed_out : Bool → ReadEvent

-- One turn of the loop in `recv`: it returns, goes on, or the inner loop ran out of fuel.
pub data Turn (S : Type 0) : Type 0 where
  returns : Result (Option Message) → CodecTransport S → Turn S
  goes_on : CodecTransport S → Turn S
  stuck : Turn S

-- `recv` after the events: it has returned and leaves the later events, or it still waits.
pub data Receipt (S : Type 0) : Type 0 where
  returned : Result (Option Message) → CodecTransport S → List ((ℕ → Clock) × ReadEvent) → Receipt S
  waiting : CodecTransport S → Receipt S
  stuck : Receipt S

module _ {S : Type 0} (codec : Codec S) where
  abbrev pub new : S → CodecTransport S
  new s = record {
    codec_state = s;
    buffer = [];
    pending_messages = [];
    observing = false;
    observed = [];
  }

  unfoldable pub push_back : Message → CodecTransport S → CodecTransport S
  push_back m t = record t { pending_messages = t.pending_messages ++ m ∷ [] }

  -- `codec.reset(); buffer.clear()`
  unfoldable pub reset : CodecTransport S → CodecTransport S
  reset t = record t { codec_state = codec.reset t.codec_state; buffer = [] }

  -- The message of `if let Ok(Some(msg)) = result`, with the codec's and the buffer's new state.
  unfoldable pub take_decoded : CodecTransport S → Decoded S → Option Message × CodecTransport S
  take_decoded t d = (
    elim d.outcome [ ok (some m) ↦ some m | _ ↦ none ],
    record t { codec_state = d.codec; buffer = d.buffer },
  )

  -- `decode_eof`, which is called on a buffer that is not empty.
  unfoldable pub drain : Clock → CodecTransport S → Option Message × CodecTransport S
  unfolding take_decoded
  drain c t = elim t.buffer [
    | [] ↦ (none, t)
    | b ∷ bs ↦ take_decoded t (codec.decode_eof c t.codec_state t.buffer)
  ]

  unfoldable pub push_drained : Option Message × CodecTransport S → CodecTransport S
  unfolding push_back
  push_drained (some m, t) = push_back m t
  push_drained (none, t) = t

  -- A session boundary before new bytes.
  unfoldable pub end_session : Clock → CodecTransport S → CodecTransport S
  unfolding drain push_drained reset
  end_session c t = reset (push_drained (drain c t))

  unfoldable pub pop_front : CodecTransport S → Option (Message × CodecTransport S)
  pop_front t = elim t.pending_messages [
    | [] ↦ none
    | m ∷ ms ↦ some (m, record t { pending_messages = ms })
  ]

  unfoldable pub at_eof : Clock → CodecTransport S → Turn S
  unfolding end_session pop_front
  at_eof c t =
      let t' = end_session c t in
      elim (pop_front t') [
        | some (m, t'') ↦ returns (ok (some m)) t''
        | none ↦ returns (ok none) t'
      ]

  -- "Decode all available messages": `none` means that the fuel ran out. The `n`-th call of the
  -- codec sees the `n`-th clock.
  unfoldable pub decode_all : ℕ → (ℕ → Clock) → ℕ → CodecTransport S → Option (CodecTransport S)
  unfolding push_back
  decode_all zero clocks n t = none
  decode_all (suc fuel) clocks n t =
      let d = codec.decode (clocks n) t.codec_state t.buffer in
      let t' : CodecTransport S = record t { codec_state = d.codec; buffer = d.buffer } in
      elim d.outcome [
        | ok (some m) ↦ decode_all fuel clocks (n + 1) (push_back m t')
        | ok none ↦ some t'
        | err e ↦ some (record t' { buffer = [] })
      ]

  unfoldable pub observe : ℕ → List ℕ → CodecTransport S → CodecTransport S
  observe now bs t =
      if t.observing
      then record t { observed = t.observed ++ record { timestamp = now; bytes = bs } ∷ [] }
      else t

  -- The buffer is cleared when the new bytes would take it past its limit.
  unfoldable pub extend_buffer : List ℕ → CodecTransport S → CodecTransport S
  extend_buffer bs t =
      let kept : List ℕ =
        if ltb max_buffer_size (length t.buffer + length bs) then [] else t.buffer in
      record t { buffer = kept ++ bs }

  unfoldable pub return_or_go_on : Option (CodecTransport S) → Turn S
  unfolding pop_front
  return_or_go_on none = stuck
  return_or_go_on (some t) = elim (pop_front t) [
    | some (m, t') ↦ returns (ok (some m)) t'
    | none ↦ goes_on t
  ]

  -- New bytes go into the buffer, and all messages are decoded. Each message uses up a byte, so one
  -- call more than the buffer has bytes is enough.
  unfoldable pub arrive : (ℕ → Clock) → List ℕ → CodecTransport S → Option (CodecTransport S)
  unfolding extend_buffer decode_all
  arrive clocks bs t = let t' = extend_buffer bs t in decode_all (length t'.buffer + 1) clocks 1 t'

  unfoldable pub on_bytes : (ℕ → Clock) → List ℕ → Bool → CodecTransport S → Turn S
  unfolding observe end_session arrive return_or_go_on
  on_bytes clocks bs boundary t =
      let observing = observe (clocks 0).wall bs t in
      let current = if boundary then end_session (clocks 0) observing else observing in
      return_or_go_on (arrive clocks bs current)

  -- `decode_timeout`, which is called on a buffer that is not empty.
  unfoldable pub idle : Clock → CodecTransport S → Turn S
  unfolding take_decoded
  idle c t = elim t.buffer [
    | [] ↦ goes_on t
    | b ∷ bs ↦
        let (m, t') = take_decoded t (codec.decode_timeout c t.codec_state t.buffer) in
        elim m [ some x ↦ returns (ok (some x)) t' | none ↦ goes_on t' ]
  ]

  unfoldable pub idle_boundary : (ℕ → Clock) → CodecTransport S → Turn S
  unfolding drain reset idle
  idle_boundary clocks t =
      let (m, t') = drain (clocks 0) t in
      elim m [ some x ↦ returns (ok (some x)) (reset t') | none ↦ idle (clocks 1) (reset t') ]

  unfoldable pub on_timeout : (ℕ → Clock) → Bool → CodecTransport S → Turn S
  unfolding idle_boundary idle
  on_timeout clocks boundary t = if boundary then idle_boundary clocks t else idle (clocks 0) t

  unfoldable pub turn : (ℕ → Clock) → ReadEvent → CodecTransport S → Turn S
  unfolding at_eof on_bytes on_timeout
  turn clocks end_of_stream t = at_eof (clocks 0) t
  turn clocks (received_bytes b bs boundary) t = on_bytes clocks (b ∷ bs) boundary t
  turn clocks (read_failed e) t = returns (err (CycBoxError.connection e)) t
  turn clocks (timed_out boundary) t = on_timeout clocks boundary t

  unfoldable pub recv : List ((ℕ → Clock) × ReadEvent) → CodecTransport S → Receipt S
  unfolding turn pop_front
  recv [] t = elim (pop_front t) [ some (m, t') ↦ returned (ok (some m)) t' [] | none ↦ waiting t ]
  recv ((clocks, event) ∷ later) t = elim (pop_front t) [
    | some (m, t') ↦ returned (ok (some m)) t' ((clocks, event) ∷ later)
    | none ↦ elim (turn clocks event t) [
      | returns r t' ↦ returned r t' later
      | goes_on t' ↦ recv later t'
      | stuck ↦ stuck
    ]
  ]
