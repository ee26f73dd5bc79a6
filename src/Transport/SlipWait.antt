-- ===== src/Transport/SlipWait.antt =====
-- crates/cycbox-sdk/src/transport.rs over crates/cycbox-runtime/src/codec/slip.rs: what `recv` makes
-- of a whole SLIP frame that arrives in one read.
use native.Mathlib.Numerals.{add-one}
use cycbox.Base.{
  ℕ, suc, ◌+◌, ◌≤◌, ◌≡◌, ◌≢◌, refl, ap, ◌∙◌, List, [], ◌∷◌, ◌++◌, Option, some, none, true, false,
  arith, length, length-append, ltb,
}
use cycbox.Message.{Message}
use cycbox.Codec.{Clock, Codec, Decoded, Result, ok, received}
use cycbox.Codec.Slip.{
  SlipCodec, end_byte, escape, decode, decode_frame, encode, encode_slip, slip_codec,
}
use cycbox.Codec.Slip.Frames.{decode_first, decode_escaped}
use cycbox.Transport.{
  CodecTransport, ReadEvent, max_buffer_size, received_bytes, timed_out, goes_on, returns, waiting,
  returned, new, observe, extend_buffer, decode_all, arrive, return_or_go_on, pop_front, on_bytes,
  idle, on_timeout, take_decoded, turn, recv,
}
use cycbox.Transport.Drain.{decode_all_step}

abbrev pub leading_codec : SlipCodec
leading_codec = record { push_leading_end = true }

-- The transport that holds `bs` and nothing else.
abbrev pub holding : List ℕ → CodecTransport SlipCodec
holding bs = record (new slip_codec leading_codec) { buffer = bs }

empty_frame :
    (c : Clock) (wire : List ℕ)
    → decode_frame c leading_codec [] (end_byte ∷ []) wire
      ≡ record { codec = leading_codec; buffer = wire; outcome = ok none }
unfolding decode_frame
empty_frame c wire = refl

-- An END in front of the buffer is taken off, and stops the loop.
leading_end_stops :
    (clocks : ℕ → Clock) (wire : List ℕ)
    → length wire + 1 ≤ max_buffer_size
    → arrive slip_codec clocks (end_byte ∷ wire) (new slip_codec leading_codec)
      ≡ some (holding wire)
unfolding arrive extend_buffer
leading_end_stops clocks wire h =
    let room : ltb max_buffer_size (0 + suc (length wire)) ≡ false = ground arith in
    rw room (
      ap (λ f. decode_all slip_codec f clocks 1 (holding (end_byte ∷ wire)))
        (add-one (suc (length wire)))
      ∙ decode_all_step slip_codec (suc (length wire)) clocks 1 (holding (end_byte ∷ wire))
          (record { codec = leading_codec; buffer = wire; outcome = ok none })
          (decode_first (clocks 1) leading_codec [] wire tt ∙ empty_frame (clocks 1) wire))

abbrev pub frame_tail : Message → List ℕ
frame_tail m = escape m.payload ++ end_byte ∷ []

turn_read :
    (clocks : ℕ → Clock) (wire : List ℕ)
    → length wire + 1 ≤ max_buffer_size
    → turn slip_codec clocks (received_bytes end_byte wire false) (new slip_codec leading_codec)
      ≡ goes_on (holding wire)
unfolding turn on_bytes observe return_or_go_on pop_front
turn_read clocks wire h = ap (return_or_go_on slip_codec) (leading_end_stops clocks wire h)

idle_delivers :
    (c : Clock) (buf : List ℕ) (m : Message)
    → buf ≢ []
    → decode c leading_codec buf
      ≡ record { codec = leading_codec; buffer = []; outcome = ok (some m) }
    → idle slip_codec c (holding buf) ≡ returns (ok (some m)) (new slip_codec leading_codec)
unfolding idle take_decoded
idle_delivers c [] m h e = absurd (h refl)
idle_delivers c (b ∷ bs) m h e =
    ap
      (λ (d : Decoded SlipCodec).
        let (m', t') = take_decoded slip_codec (holding (b ∷ bs)) d in
        elim m' [ some x ↦ returns (ok (some x)) t' | none ↦ goes_on t' ])
      e

turn_timeout :
    (clocks : ℕ → Clock) (m : Message)
    → m.payload ≢ []
    → turn slip_codec clocks (timed_out false) (holding (frame_tail m))
      ≡ returns
          (ok (some (received (clocks 0) m.payload (frame_tail m))))
          (new slip_codec leading_codec)
unfolding turn on_timeout
turn_timeout clocks m h =
    idle_delivers (clocks 0) (frame_tail m) _
      (λ e. omega (arith, ap length e, length-append (escape m.payload) (end_byte ∷ [])))
      (decode_escaped (clocks 0) leading_codec m.payload [] h)

recv_goes_on :
    {S : Type 0} (codec : Codec S) (clocks : ℕ → Clock) (event : ReadEvent)
    (later : List ((ℕ → Clock) × ReadEvent)) (t t' : CodecTransport S)
    → t.pending_messages ≡ []
    → turn codec clocks event t ≡ goes_on t'
    → recv codec ((clocks, event) ∷ later) t ≡ recv codec later t'
unfolding recv pop_front
recv_goes_on codec clocks event later t t' p e = rw (p, e, pop_front, recv)

recv_returns :
    {S : Type 0} (codec : Codec S) (clocks : ℕ → Clock) (event : ReadEvent)
    (later : List ((ℕ → Clock) × ReadEvent)) (t t' : CodecTransport S) (r : Result (Option Message))
    → t.pending_messages ≡ []
    → turn codec clocks event t ≡ returns r t'
    → recv codec ((clocks, event) ∷ later) t ≡ returned r t' later
unfolding recv pop_front
recv_returns codec clocks event later t t' r p e = rw (p, e, pop_front, recv)

-- With the leading END, which is the default, a frame of a payload that is not empty, which arrives
-- whole in one read at a new transport and fits its buffer, is not delivered: `recv` goes on
-- waiting with the frame in the buffer, and delivers it when a read has timed out.
pub slip_frame_waits :
    (clocks clocks' : ℕ → Clock) (m : Message) (later : List ((ℕ → Clock) × ReadEvent))
    → m.payload ≢ []
    → length (frame_tail m) + 1 ≤ max_buffer_size
    → let t = new slip_codec leading_codec in
      let read = received_bytes end_byte (frame_tail m) false in
      ((encode leading_codec m).frame ≡ end_byte ∷ frame_tail m)
      × (recv slip_codec ((clocks, read) ∷ []) t ≡ waiting (holding (frame_tail m)))
      × (recv slip_codec ((clocks, read) ∷ (clocks', timed_out false) ∷ later) t
          ≡ returned (ok (some (received (clocks' 0) m.payload (frame_tail m)))) t later)
unfolding encode encode_slip recv pop_front
slip_frame_waits clocks clocks' m later h room =
    let read = received_bytes end_byte (frame_tail m) false in
    let t : CodecTransport SlipCodec = new slip_codec leading_codec in
    let held : CodecTransport SlipCodec = holding (frame_tail m) in
    let first = turn_read clocks (frame_tail m) room in
    let quiet : (ℕ → Clock) × ReadEvent = (clocks', timed_out false) in
    (
      refl,
      recv_goes_on slip_codec clocks read [] t held refl first,
      recv_goes_on slip_codec clocks read (quiet ∷ later) t held refl first
          ∙ recv_returns slip_codec clocks' (timed_out false) later held t _ refl
              (turn_timeout clocks' m h),
    )
