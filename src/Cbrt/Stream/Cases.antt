-- ===== src/Cbrt/Stream/Cases.antt =====
-- crates/cbrt/src/codec.rs: the cases of a call of `decode`.
use cycbox.Base.{
  ℕ, zero, suc, ◌+◌, ◌<◌, ◌≡◌, ◌⊎◌, inl, inr, refl, subst, sym, ◌∙◌, List, some, none, Option-cases,
  arith, length, drop, length-drop,
}
use cycbox.Codec.{Clock, Decoded, ok}
use cycbox.Cbrt.Frame.{Parse, need_more, reject, go, Frame, slice, and_then, parse_frame}
use cycbox.Cbrt.Timing.{Floats}
use cycbox.Cbrt.Parse.{parse_at, complete, message_of, note_frame}
use cycbox.Cbrt.Stream.{CbrtCodec, keep_tail, find_sync, handle, decode}
use cycbox.Cbrt.Stream.Scan.{find_sync-within}
use cycbox.Cbrt.Stream.Skip.{decode-some, decode-none}

pub Parse-cases :
    {A : Type 0} (p : Parse A) → (p ≡ need_more) ⊎ (p ≡ reject) ⊎ ((a : A) × (p ≡ go a))
Parse-cases need_more = inl refl
Parse-cases reject = inr (inl refl)
Parse-cases (go a) = inr (inr (a, refl))

module _ (checksum : List ℕ → ℕ) {F : Type 0} (floats : Floats F) where
  pub decode_need_more :
      (c : Clock) (s : CbrtCodec F) (buf : List ℕ) (i : ℕ)
      → find_sync buf ≡ some i
      → parse_frame checksum i buf ≡ need_more
      → decode checksum floats c s buf
        ≡ record { codec = s; buffer = drop i buf; outcome = ok none }
  unfolding parse_at handle and_then
  decode_need_more c s buf i e p = decode-some checksum floats c s buf i e ∙ rw p

  pub decode_reject :
      (c : Clock) (s : CbrtCodec F) (buf : List ℕ) (i : ℕ)
      → find_sync buf ≡ some i
      → parse_frame checksum i buf ≡ reject
      → decode checksum floats c s buf ≡ decode checksum floats c s (drop (i + 1) buf)
  unfolding parse_at handle and_then
  decode_reject c s buf i e p = decode-some checksum floats c s buf i e ∙ rw p

  -- What `decode` gives for the frame `f`.
  abbrev pub delivered :
      Clock → CbrtCodec F → Frame → List ℕ → List ℕ → List ℕ → Decoded (CbrtCodec F)
  delivered c s f payload frame left = record {
    codec = record { state = (note_frame floats c.wall f s.state).state };
    buffer = left;
    outcome = ok (
        some
          (message_of floats c.wall c.wall payload frame f (note_frame floats c.wall f s.state)));
  }

  pub decode_go :
      (c : Clock) (s : CbrtCodec F) (buf : List ℕ) (i : ℕ) (f : Frame)
      → find_sync buf ≡ some i
      → parse_frame checksum i buf ≡ go f
      → decode checksum floats c s buf
        ≡ delivered c s f
            (slice f.payload_start (f.payload_start + f.payload_len) buf)
            (slice i f.frame_end buf)
            (drop f.frame_end buf)
  unfolding parse_at handle and_then complete note_frame message_of
  decode_go c s buf i f e p = decode-some checksum floats c s buf i e ∙ rw p

  -- Induction over the rejected sync words.
  pub decode-induct :
      (P : List ℕ → Decoded (CbrtCodec F) → Type 0) (c : Clock) (s : CbrtCodec F)
      → ((buf : List ℕ)
          → find_sync buf ≡ none
          → P buf (record { codec = s; buffer = keep_tail buf; outcome = ok none }))
      → ((buf : List ℕ) (i : ℕ)
          → find_sync buf ≡ some i
          → parse_frame checksum i buf ≡ need_more
          → P buf (record { codec = s; buffer = drop i buf; outcome = ok none }))
      → ((buf : List ℕ) (i : ℕ) (f : Frame)
          → find_sync buf ≡ some i
          → parse_frame checksum i buf ≡ go f
          → P buf (
              delivered c s f
                (slice f.payload_start (f.payload_start + f.payload_len) buf)
                (slice i f.frame_end buf)
                (drop f.frame_end buf)))
      → ((buf : List ℕ) (i : ℕ) (d : Decoded (CbrtCodec F))
          → find_sync buf ≡ some i
          → parse_frame checksum i buf ≡ reject
          → P (drop (i + 1) buf) d
          → P buf d)
      → (buf : List ℕ) → P buf (decode checksum floats c s buf)
  decode-induct P c s absent short found again buf = walk (suc (length buf)) buf (omega arith)
    where
      walk : (fuel : ℕ) (buf : List ℕ) → length buf < fuel → P buf (decode checksum floats c s buf)
      walk zero buf h = absurd (omega arith)
      walk (suc fuel) buf h = elim (Option-cases (find_sync buf)) [
        | inl e ↦ subst (P buf) (sym (decode-none checksum floats c s buf e)) (absent buf e)
        | inr (i, e) ↦ elim (Parse-cases (parse_frame checksum i buf)) [
          | inl p ↦ subst (P buf) (sym (decode_need_more c s buf i e p)) (short buf i e p)
          | inr (inl p) ↦
              let left = length-drop (i + 1) buf in
              let inside = find_sync-within buf i e in
              subst (P buf) (sym (decode_reject c s buf i e p))
                (again buf i _ e p (walk fuel (drop (i + 1) buf) (omega (arith, inside, left))))
          | inr (inr (f, p)) ↦ subst (P buf) (sym (decode_go c s buf i f e p)) (found buf i f e p)
        ]
      ]
