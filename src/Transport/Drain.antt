-- ===== src/Transport/Drain.antt =====
-- crates/cycbox-sdk/src/transport.rs: the loops of `recv` end, and the buffer stays within bounds.
use cycbox.Base.{
  ℕ, zero, suc, ◌+◌, ◌<◌, ◌≤◌, ◌≡◌, inl, inr, refl, ap, List, [], ◌∷◌, Option, some, none, Bool,
  true, false, Option-cases, arith, length, length-append, All,
}
use native.Mathlib.Nat.{le_trans}
use cycbox.Message.{Message}
use cycbox.Codec.{Clock, Codec, Decoded, Lawful, Outcome-cases, ok, err}
use cycbox.Transport.{
  CodecTransport, ReadEvent, Turn, Receipt, max_buffer_size, end_of_stream, received_bytes,
  read_failed, timed_out, returns, goes_on, returned, waiting, push_back, reset, take_decoded,
  drain, end_session, pop_front, at_eof, decode_all, extend_buffer, return_or_go_on, arrive,
  on_bytes, idle, idle_boundary, on_timeout, turn, recv,
}

-- No event brings more bytes than the buffer may hold.
abbrev pub EventFits : ReadEvent → Type 0
EventFits (received_bytes b bs boundary) = length (b ∷ bs) ≤ max_buffer_size
EventFits end_of_stream = Unit
EventFits (read_failed e) = Unit
EventFits (timed_out boundary) = Unit

abbrev pub Bounded : {S : Type 0} → CodecTransport S → Type 0
Bounded t = length t.buffer ≤ max_buffer_size

-- The turn comes to an end, and leaves the buffer within its limit.
abbrev TurnBounded : {S : Type 0} → Turn S → Type 0
TurnBounded (returns r t) = Bounded t
TurnBounded (goes_on t) = Bounded t
TurnBounded Turn.stuck = ⊥

abbrev pub ReceiptBounded : {S : Type 0} → Receipt S → Type 0
ReceiptBounded (returned r t later) = Bounded t
ReceiptBounded (waiting t) = Bounded t
ReceiptBounded Receipt.stuck = ⊥

-- One round of the loop that decodes all messages, on what `decode` has answered.
abbrev pub after_decode :
    {S : Type 0} (codec : Codec S)
    → ℕ
    → (ℕ → Clock)
    → ℕ
    → CodecTransport S
    → Decoded S
    → Option (CodecTransport S)
after_decode codec fuel clocks n t d = elim d.outcome [
  | ok (some m) ↦
      decode_all codec fuel clocks (n + 1)
        (push_back codec m (record t { codec_state = d.codec; buffer = d.buffer }))
  | ok none ↦ some (record t { codec_state = d.codec; buffer = d.buffer })
  | err e ↦ some (record t { codec_state = d.codec; buffer = [] })
]

pub decode_all_step :
    {S : Type 0} (codec : Codec S) (fuel : ℕ) (clocks : ℕ → Clock) (n : ℕ) (t : CodecTransport S)
    (d : Decoded S)
    → codec.decode (clocks n) t.codec_state t.buffer ≡ d
    → decode_all codec (suc fuel) clocks n t ≡ after_decode codec fuel clocks n t d
unfolding decode_all
decode_all_step codec fuel clocks n t d e = ap (after_decode codec fuel clocks n t) e

module _ {S : Type 0} (codec : Codec S) (laws : Lawful codec) where
  -- The loop that decodes all messages ends within its fuel, and the buffer only shrinks.
  pub decode_all_ends :
      (fuel : ℕ) (clocks : ℕ → Clock) (n : ℕ) (t : CodecTransport S)
      → length t.buffer < fuel
      → (t' : CodecTransport S) × (decode_all codec fuel clocks n t ≡ some t')
        × (length t'.buffer ≤ length t.buffer)
  unfolding decode_all push_back
  decode_all_ends zero clocks n t h = absurd (omega arith)
  decode_all_ends (suc fuel) clocks n t h =
      let d = codec.decode (clocks n) t.codec_state t.buffer in
      elim (Outcome-cases d.outcome) [
        | inl e ↦ (
          record t { codec_state = d.codec; buffer = d.buffer },
          rw (e, decode_all),
          laws.decode_within _ _ _,
        )
        | inr (inl (m, e)) ↦
            let t' : CodecTransport S =
              push_back codec m (record t { codec_state = d.codec; buffer = d.buffer }) in
            let used = laws.progresses (clocks n) t.codec_state t.buffer m e in
            let (t'', all, le) = decode_all_ends fuel clocks (n + 1) t' (omega (arith, used)) in
            (t'', rw (e, decode_all) all, omega (arith, used, le))
        | inr (inr (x, e)) ↦
            (record t { codec_state = d.codec; buffer = [] }, rw (e, decode_all), omega arith)
      ]

  pop_front-buffer :
      (t : CodecTransport S) (m : Message) (t' : CodecTransport S)
      → pop_front codec t ≡ some (m, t')
      → t'.buffer ≡ t.buffer
  unfolding pop_front
  pop_front-buffer t m t' e = ground arith

  return_or_go_on-TurnBounded :
      (t : CodecTransport S) → Bounded t → TurnBounded (return_or_go_on codec (some t))
  unfolding return_or_go_on
  return_or_go_on-TurnBounded t h = elim (Option-cases (pop_front codec t)) [
    | inl e ↦ rw (e, return_or_go_on) h
    | inr ((m, t'), e) ↦
        rw (e, return_or_go_on) (omega (arith, ap length (pop_front-buffer t m t' e)))
  ]

  extend_buffer-Bounded :
      (bs : List ℕ) (t : CodecTransport S)
      → length bs ≤ max_buffer_size
      → Bounded (extend_buffer codec bs t)
  unfolding extend_buffer
  extend_buffer-Bounded bs t h = ground (arith, length-append t.buffer bs)

  arrive-TurnBounded :
      (clocks : ℕ → Clock) (bs : List ℕ) (t : CodecTransport S)
      → length bs ≤ max_buffer_size
      → TurnBounded (return_or_go_on codec (arrive codec clocks bs t))
  unfolding arrive
  arrive-TurnBounded clocks bs t h =
      let t' = extend_buffer codec bs t in
      let (t'', all, le) = decode_all_ends (length t'.buffer + 1) clocks 1 t' (omega arith) in
      rw all (return_or_go_on-TurnBounded t'' (le_trans le (extend_buffer-Bounded bs t h)))

  on_bytes-TurnBounded :
      (clocks : ℕ → Clock) (bs : List ℕ) (boundary : Bool) (t : CodecTransport S)
      → length bs ≤ max_buffer_size
      → TurnBounded (on_bytes codec clocks bs boundary t)
  unfolding on_bytes
  on_bytes-TurnBounded clocks bs boundary t h = arrive-TurnBounded clocks bs _ h

  at_eof-TurnBounded : (c : Clock) (t : CodecTransport S) → TurnBounded (at_eof codec c t)
  unfolding at_eof end_session reset
  at_eof-TurnBounded c t = elim (Option-cases (pop_front codec (end_session codec c t))) [
    | inl e ↦ rw (e, at_eof) (omega arith)
    | inr ((m, t'), e) ↦
        rw (e, at_eof) (omega (arith, ap length (pop_front-buffer (end_session codec c t) m t' e)))
  ]

  -- What `decode_timeout` and `decode_eof` leave is no longer than what they were given.
  taken : (t : CodecTransport S) (d : Decoded S) → (take_decoded codec t d).1.buffer ≡ d.buffer
  unfolding take_decoded
  taken t d = refl

  idle_filled :
      (t : CodecTransport S) (d : Decoded S)
      → length d.buffer ≤ max_buffer_size
      → TurnBounded (
          let (m, t') = take_decoded codec t d in
          elim m [ some x ↦ returns (ok (some x)) t' | none ↦ goes_on t' ])
  unfolding take_decoded
  idle_filled t d h = elim (Outcome-cases d.outcome) [
    | inl e ↦ rw (e, take_decoded) h
    | inr (inl (m, e)) ↦ rw (e, take_decoded) h
    | inr (inr (x, e)) ↦ rw (e, take_decoded) h
  ]

  idle-TurnBounded : (c : Clock) (t : CodecTransport S) → Bounded t → TurnBounded (idle codec c t)
  unfolding idle take_decoded
  idle-TurnBounded c t h = idle_by t.buffer refl
    where
      idle_by : (buf : List ℕ) → t.buffer ≡ buf → TurnBounded (idle codec c t)
      idle_by [] e = rw (e, idle) h
      idle_by (b ∷ bs) e =
          rw (e, idle)
            (idle_filled t (codec.decode_timeout c t.codec_state t.buffer)
              (le_trans (laws.timeout_within c t.codec_state t.buffer) h))

  idle_boundary-TurnBounded :
      (clocks : ℕ → Clock) (t : CodecTransport S) → TurnBounded (idle_boundary codec clocks t)
  unfolding idle_boundary reset
  idle_boundary-TurnBounded clocks t = elim (Option-cases (drain codec (clocks 0) t).0) [
    | inl e ↦
        rw (e, idle_boundary)
          (idle-TurnBounded (clocks 1) (reset codec (drain codec (clocks 0) t).1) (omega arith))
    | inr (m, e) ↦ rw (e, idle_boundary) (omega arith)
  ]

  turn-TurnBounded :
      (clocks : ℕ → Clock) (event : ReadEvent) (t : CodecTransport S)
      → EventFits event
      → Bounded t
      → TurnBounded (turn codec clocks event t)
  unfolding turn
  turn-TurnBounded clocks end_of_stream t fits h = at_eof-TurnBounded (clocks 0) t
  turn-TurnBounded clocks (received_bytes b bs boundary) t fits h =
      on_bytes-TurnBounded clocks (b ∷ bs) boundary t fits
  turn-TurnBounded clocks (read_failed e) t fits h = h
  turn-TurnBounded clocks (timed_out boundary) t fits h =
      unfold on_timeout in
      elim boundary as (λ b. TurnBounded (on_timeout codec clocks b t)) [
        | true ↦ idle_boundary-TurnBounded clocks t
        | false ↦ idle-TurnBounded (clocks 0) t h
      ]

  -- The turn's outcome decides whether `recv` goes on.
  after_turn :
      (r : Turn S) (later : List ((ℕ → Clock) × ReadEvent))
      → ((t : CodecTransport S) → Bounded t → ReceiptBounded (recv codec later t))
      → TurnBounded r
      → ReceiptBounded (elim r [
        | returns x t ↦ returned x t later
        | goes_on t ↦ recv codec later t
        | Turn.stuck ↦ Receipt.stuck
      ])
  after_turn (returns x t) later rest h = h
  after_turn (goes_on t) later rest h = rest t h
  after_turn Turn.stuck later rest h = h

  -- Over a lawful codec, from a buffer within its limit and over any events whose reads fit the
  -- buffer, `recv` never hangs in its own loops, and the buffer stays within its limit.
  pub recv-ReceiptBounded :
      (events : List ((ℕ → Clock) × ReadEvent)) (t : CodecTransport S)
      → All (λ e. EventFits e.1) events
      → Bounded t
      → ReceiptBounded (recv codec events t)
  unfolding recv
  recv-ReceiptBounded [] t fits h = elim (Option-cases (pop_front codec t)) [
    | inl e ↦ rw (e, recv) h
    | inr ((m, t'), e) ↦ rw (e, recv) (omega (arith, ap length (pop_front-buffer t m t' e)))
  ]
  recv-ReceiptBounded ((clocks, event) ∷ later) t fits h = elim (Option-cases (pop_front codec t)) [
    | inl e ↦
        rw (e, recv)
          (after_turn (turn codec clocks event t) later (λ t'. recv-ReceiptBounded later t' fits.1)
            (turn-TurnBounded clocks event t fits.0 h))
    | inr ((m, t'), e) ↦ rw (e, recv) (omega (arith, ap length (pop_front-buffer t m t' e)))
  ]
