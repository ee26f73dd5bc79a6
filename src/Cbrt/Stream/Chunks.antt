-- ===== src/Cbrt/Stream/Chunks.antt =====
-- crates/cbrt/src/codec.rs: how the stream is cut into reads does not matter.
use mathlib.Core.Option
use cycbox.Base.{
  ℕ, suc, ◌+◌, ◌-◌, ◌≡◌, ◌⊎◌, inl, inr, refl, sym, ap, ap₂, ◌∙◌, List, [], ◌∷◌, ◌++◌, some, none,
  Bool-cases, Option-cases, arith, drop,
}
use cycbox.Codec.{Clock, Decoded, ok}
use cycbox.Message.{Message}
use cycbox.Cbrt.Frame.{reject, go, Frame, slice, parse_frame}
use cycbox.Cbrt.Frame.Stable.{parse_frame-append, drop-append_within, slice_within}
use cycbox.Cbrt.Frame.Bounds.{parse_frame-Sound}
use cycbox.Cbrt.Timing.{Floats}
use cycbox.Cbrt.Stream.{CbrtCodec, is_sync, find_sync, decode}
use cycbox.Cbrt.Stream.Scan.{is_sync-append, find_sync_here, find_sync_later, find_sync-within}
use cycbox.Cbrt.Stream.Cases.{decode_reject, delivered, decode_go, decode-induct}
use cycbox.Cbrt.Stream.Skip.{decode_to_sync, decode-keep_tail}

pub find_sync-append :
    (buf more : List ℕ) (i : ℕ) → find_sync buf ≡ some i → find_sync (buf ++ more) ≡ some i
find_sync-append [] more i e = absurd (omega (arith, find_sync-within [] i e))
find_sync-append (b ∷ bs) more i e =
    let long = find_sync-within (b ∷ bs) i e in
    let same = is_sync-append (b ∷ bs) more (omega (arith, long)) in
    elim (Bool-cases (is_sync (b ∷ bs))) [
      | inl here ↦ find_sync_here b (bs ++ more) (same ∙ here) ∙ sym (find_sync_here b bs here) ∙ e
      | inr later ↦ elim (Option-cases (find_sync bs)) [
        | inl absent ↦ cc (find_sync_later b bs later, absent, e)
        | inr (j, found) ↦
            find_sync_later b (bs ++ more) (same ∙ later)
            ∙ ap (Option.map suc) (find_sync-append bs more j found)
            ∙ sym (find_sync_later b bs later ∙ ap (Option.map suc) found)
            ∙ e
      ]
    ]

module _ (checksum : List ℕ → ℕ) {F : Type 0} (floats : Floats F) where
  decode_go-append :
      (c : Clock) (s : CbrtCodec F) (buf more : List ℕ) (i : ℕ) (f : Frame)
      → find_sync buf ≡ some i
      → parse_frame checksum i buf ≡ go f
      → decode checksum floats c s (buf ++ more)
        ≡ delivered checksum floats c s f
            (slice f.payload_start (f.payload_start + f.payload_len) buf)
            (slice i f.frame_end buf)
            (drop f.frame_end buf ++ more)
  decode_go-append c s buf more i f e p =
      let (after, fits, inside, _, _, _) = parse_frame-Sound checksum i buf f p in
      let still : parse_frame checksum i (buf ++ more) ≡ go f =
        parse_frame-append checksum i buf more (λ k. cc (p, k)) ∙ p in
      let payload : slice f.payload_start (f.payload_start + f.payload_len) (buf ++ more)
          ≡ slice f.payload_start (f.payload_start + f.payload_len) buf =
        slice_within f.payload_start (f.payload_start + f.payload_len - f.payload_start) buf more
          (omega (arith, fits, inside)) in
      let frame : slice i f.frame_end (buf ++ more) ≡ slice i f.frame_end buf =
        slice_within i (f.frame_end - i) buf more (omega (arith, after, fits, inside)) in
      decode_go checksum floats c s (buf ++ more) i f (find_sync-append buf more i e) still
      ∙ ap₂
          (λ payload frame.
            delivered checksum floats c s f payload frame (drop f.frame_end (buf ++ more)))
          payload frame
      ∙ ap
          (delivered checksum floats c s f
            (slice f.payload_start (f.payload_start + f.payload_len) buf) (slice i f.frame_end buf))
          (drop-append_within f.frame_end buf more inside)

  decode_reject-append :
      (c : Clock) (s : CbrtCodec F) (buf more : List ℕ) (i : ℕ)
      → find_sync buf ≡ some i
      → parse_frame checksum i buf ≡ reject
      → decode checksum floats c s (buf ++ more)
        ≡ decode checksum floats c s (drop (i + 1) buf ++ more)
  decode_reject-append c s buf more i e p =
      let still = parse_frame-append checksum i buf more (λ k. cc (p, k)) ∙ p in
      decode_reject checksum floats c s (buf ++ more) i (find_sync-append buf more i e) still
      ∙ ap (decode checksum floats c s)
          (drop-append_within (i + 1) buf more (omega (arith, find_sync-within buf i e)))

  -- `d` is what `decode` made of a buffer, `now` and `then'` what it makes of the buffer with more
  -- bytes behind it, at the same time and later.
  abbrev Continues :
      Clock
      → List ℕ
      → Decoded (CbrtCodec F)
      → Decoded (CbrtCodec F)
      → Decoded (CbrtCodec F)
      → Type 0
  Continues later more d now then' =
      ((d.outcome ≡ ok none) × (decode checksum floats later d.codec (d.buffer ++ more) ≡ then'))
      ⊎ ((m : Message) × (d.outcome ≡ ok (some m))
          × (now ≡ record { codec = d.codec; buffer = d.buffer ++ more; outcome = ok (some m) }))

  -- How a stream is cut into reads does not matter. Either `decode` gives no message, and then
  -- decoding what it left with more bytes behind it is, with the state that it left, the same as
  -- decoding everything at once; or it gives a message, and then it gives the same message and
  -- leaves the same state when more bytes stand behind the buffer, which are left in the buffer.
  -- It never fails.
  pub decode-append :
      (c later : Clock) (s : CbrtCodec F) (buf more : List ℕ)
      → let d = decode checksum floats c s buf in
        ((d.outcome ≡ ok none)
          × (decode checksum floats later d.codec (d.buffer ++ more)
              ≡ decode checksum floats later s (buf ++ more)))
        ⊎ ((m : Message) × (d.outcome ≡ ok (some m))
            × (decode checksum floats c s (buf ++ more)
                ≡ record { codec = d.codec; buffer = d.buffer ++ more; outcome = ok (some m) }))
  decode-append c later s buf more =
      decode-induct checksum floats
        (λ buf d.
          Continues later more d (decode checksum floats c s (buf ++ more))
            (decode checksum floats later s (buf ++ more)))
        c s (λ buf e. inl (refl, sym (decode-keep_tail checksum floats later s buf more e)))
        (λ buf i e p. inl (refl, sym (decode_to_sync checksum floats later s buf more i e)))
        (λ buf i f e p. inr (_, refl, decode_go-append c s buf more i f e p))
        (λ buf i d e p h.
          rw (decode_reject-append c s buf more i e p, decode_reject-append later s buf more i e p)
            h)
        buf
