-- ===== src/Cbrt/Stream/Skip.antt =====
-- crates/cbrt/src/codec.rs: bytes in front of which no frame starts do not matter.
use mathlib.Core.Option
use cycbox.Base.{
  ℕ, zero, suc, ◌+◌, ◌<◌, ◌≤◌, ◌≡◌, inl, inr, sym, ap, ap₂, ◌∙◌, List, [], ◌∷◌, ◌++◌, some, none,
  false, Bool-cases, Option-cases, ltb, arith, length, drop, length-append, length-drop,
}
use cycbox.Codec.{Clock, Decoded, ok}
use cycbox.Cbrt.Timing.{Floats}
use cycbox.Cbrt.Parse.{parse_at}
use cycbox.Cbrt.Stream.{CbrtCodec, is_sync, find_sync, keep_tail, handle, scan, decode}
use cycbox.Cbrt.Stream.Scan.{
  is_sync-append, find_sync_later, find_sync-step, keep_tail_short, find_sync-within,
  keep_tail-next, parse_at-next, handle-next, scan_short, scan-none, scan-some,
}

some_eq : {x y : ℕ} → some x ≡ some y → x ≡ y
some_eq p = cc p

module _ (checksum : List ℕ → ℕ) {F : Type 0} (floats : Floats F) where
  -- Whatever fuel above the length of the buffer is given, the result is the same.
  pub scan_enough :
      (f g : ℕ) (c : Clock) (s : CbrtCodec F) (buf : List ℕ)
      → length buf < f
      → length buf < g
      → scan checksum floats f c s buf ≡ scan checksum floats g c s buf
  scan_enough zero g c s buf hf hg = absurd (omega arith)
  scan_enough (suc f) zero c s buf hf hg = absurd (omega arith)
  scan_enough (suc f) (suc g) c s buf hf hg = elim (Bool-cases (ltb (length buf) 4)) [
    | inl short ↦
        scan_short checksum floats f c s buf (ground arith)
        ∙ sym (scan_short checksum floats g c s buf (ground arith))
    | inr enough ↦ elim (Option-cases (find_sync buf)) [
      | inl e ↦
          scan-none checksum floats f c s buf (ground arith) e
          ∙ sym (scan-none checksum floats g c s buf (ground arith) e)
      | inr (i, e) ↦
          let inside = find_sync-within buf i e in
          let left = length-drop (i + 1) buf in
          scan-some checksum floats f c s buf i e
          ∙ ap
              (handle checksum floats s buf i
                (parse_at floats checksum c.wall c.wall s.state buf i))
              (scan_enough f g c s (drop (i + 1) buf) (omega (arith, inside, left))
                (omega (arith, inside, left)))
          ∙ sym (scan-some checksum floats g c s buf i e)
    ]
  ]

  pub decode-some :
      (c : Clock) (s : CbrtCodec F) (buf : List ℕ) (i : ℕ)
      → find_sync buf ≡ some i
      → decode checksum floats c s buf
        ≡ handle checksum floats s buf i
            (parse_at floats checksum c.wall c.wall s.state buf i)
            (decode checksum floats c s (drop (i + 1) buf))
  unfolding decode
  decode-some c s buf i e =
      let inside = find_sync-within buf i e in
      scan-some checksum floats (length buf) c s buf i e
      ∙ ap (handle checksum floats s buf i (parse_at floats checksum c.wall c.wall s.state buf i)) (
          scan_enough (length buf) (suc (length (drop (i + 1) buf))) c s (drop (i + 1) buf)
            (omega (arith, inside, length-drop (i + 1) buf)) (omega arith))

  pub decode-none :
      (c : Clock) (s : CbrtCodec F) (buf : List ℕ)
      → find_sync buf ≡ none
      → decode checksum floats c s buf
        ≡ record { codec = s; buffer = keep_tail buf; outcome = ok none }
  unfolding decode
  decode-none c s buf e = elim (Bool-cases (ltb (length buf) 4)) [
    | inl short ↦
        scan_short checksum floats (length buf) c s buf (ground arith)
        ∙ ap (λ left. record { codec = s; buffer = left; outcome = ok none })
            (sym (keep_tail_short buf (ground arith)))
    | inr enough ↦ scan-none checksum floats (length buf) c s buf (ground arith) e
  ]

  -- A byte at which no sync word starts, with three bytes or more behind it.
  pub decode_skip :
      (c : Clock) (s : CbrtCodec F) (b : ℕ) (bs : List ℕ)
      → is_sync (b ∷ bs) ≡ false
      → 3 ≤ length bs
      → decode checksum floats c s (b ∷ bs) ≡ decode checksum floats c s bs
  decode_skip c s b bs h long = elim (Option-cases (find_sync bs)) [
    | inl e ↦
        decode-none c s (b ∷ bs) (find_sync_later b bs h ∙ ap (Option.map suc) e)
        ∙ ap (λ left. record { codec = s; buffer = left; outcome = ok none })
            (keep_tail-next b bs long)
        ∙ sym (decode-none c s bs e)
    | inr (i, e) ↦
        let again = decode checksum floats c s (drop (i + 1) bs) in
        decode-some c s (b ∷ bs) (suc i) (find_sync_later b bs h ∙ ap (Option.map suc) e)
        ∙ ap₂ (handle checksum floats s (b ∷ bs) (suc i))
            (parse_at-next checksum floats c.wall c.wall s.state b bs i)
            (ap (λ n. decode checksum floats c s (drop n (b ∷ bs))) {y = suc (i + 1)} (omega arith))
        ∙ handle-next checksum floats s b bs i (parse_at floats checksum c.wall c.wall s.state bs i)
            again
        ∙ sym (decode-some c s bs i e)
  ]

  decode_passes :
      (c : Clock) (s : CbrtCodec F) (b : ℕ) (bs more : List ℕ)
      → is_sync (b ∷ bs) ≡ false
      → 3 ≤ length bs
      → decode checksum floats c s (b ∷ (bs ++ more)) ≡ decode checksum floats c s (bs ++ more)
  decode_passes c s b bs more h long =
      decode_skip c s b (bs ++ more) (is_sync-append (b ∷ bs) more (omega arith) ∙ h)
        (omega (arith, length-append bs more))

  -- What stands before the first sync word can be dropped.
  pub decode_to_sync :
      (c : Clock) (s : CbrtCodec F) (buf more : List ℕ) (i : ℕ)
      → find_sync buf ≡ some i
      → decode checksum floats c s (buf ++ more) ≡ decode checksum floats c s (drop i buf ++ more)
  unfolding find_sync
  decode_to_sync c s [] more i e = ground arith
  decode_to_sync c s (b ∷ bs) more i e =
      let from : ℕ → Decoded (CbrtCodec F) =
        λ k. decode checksum floats c s (drop k (b ∷ bs) ++ more) in
      elim (find_sync-step b bs) [
        | inl here ↦ ap from {x = 0} {y = i} (some_eq (sym here ∙ e))
        | inr (h, later) ↦ elim (Option-cases (find_sync bs)) [
          | inl absent ↦ cc (later, absent, e)
          | inr (j, found) ↦
              let at = some_eq (sym (later ∙ ap (Option.map suc) found) ∙ e) in
              decode_passes c s b bs more h (omega (arith, find_sync-within bs j found))
              ∙ decode_to_sync c s bs more j found
              ∙ ap from {x = suc j} {y = i} at
        ]
      ]

  -- Without a sync word all but the last three bytes can be dropped.
  pub decode-keep_tail :
      (c : Clock) (s : CbrtCodec F) (buf more : List ℕ)
      → find_sync buf ≡ none
      → decode checksum floats c s (buf ++ more)
        ≡ decode checksum floats c s (keep_tail buf ++ more)
  decode-keep_tail c s [] more e =
      ap (λ k. decode checksum floats c s (k ++ more)) (sym (keep_tail_short [] (omega arith)))
  decode-keep_tail c s (b ∷ bs) more e =
      let from : List ℕ → Decoded (CbrtCodec F) = λ k. decode checksum floats c s (k ++ more) in
      elim (Bool-cases (ltb (length bs) 3)) [
        | inl short ↦ ap from (sym (keep_tail_short (b ∷ bs) (ground arith)))
        | inr long ↦ elim (find_sync-step b bs) [
          | inl here ↦ cc (here, e)
          | inr (h, later) ↦ elim (Option-cases (find_sync bs)) [
            | inl absent ↦
                decode_passes c s b bs more h (ground arith)
                ∙ decode-keep_tail c s bs more absent
                ∙ ap from (sym (keep_tail-next b bs (ground arith)))
            | inr (j, found) ↦ cc (later, ap (Option.map suc) found, e)
          ]
        ]
      ]
