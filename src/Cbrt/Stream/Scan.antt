-- ===== src/Cbrt/Stream/Scan.antt =====
-- crates/cbrt/src/codec.rs: where the codec looks for a frame, and what it passes over.
use mathlib.Core.Option
use cycbox.Base.{
  ℕ, suc, ◌+◌, ◌-◌, ◌<◌, ◌≤◌, ◌≡◌, ◌⊎◌, inl, inr, refl, sym, ap, ap₂, ◌∙◌, List, [], ◌∷◌, ◌++◌,
  some, none, true, false, Bool-cases, Option-cases, bytes_eq→eq, ltb, arith, length, take, drop,
  length-take,
}
use cycbox.Codec.{Clock, Decoded, ok}
use cycbox.Cbrt.Frame.{Parse, need_more, reject, go, Frame, slice, parse_frame}
use cycbox.Cbrt.Frame.Moved.{map_parse, next_frame, and_then-map, parse_frame-next}
use cycbox.Cbrt.Session.{SessionState}
use cycbox.Cbrt.Timing.{Floats}
use cycbox.Cbrt.Parse.{Completed, message_of, complete, parse_at, note_frame}
use cycbox.Cbrt.Stream.{CbrtCodec, cbrt_sync, is_sync, find_sync, keep_tail, handle, scan}

-- A window is four bytes.
is_sync-length : (bs : List ℕ) → is_sync bs ≡ true → 4 ≤ length bs
is_sync-length bs h =
    let e = bytes_eq→eq (take 4 bs) cbrt_sync h in omega (arith, ap length e, length-take 4 bs)

pub is_sync-append : (bs more : List ℕ) → 4 ≤ length bs → is_sync (bs ++ more) ≡ is_sync bs
is_sync-append [] more h = absurd (omega arith)
is_sync-append (a ∷ []) more h = absurd (omega arith)
is_sync-append (a ∷ b ∷ []) more h = absurd (omega arith)
is_sync-append (a ∷ b ∷ c ∷ []) more h = absurd (omega arith)
is_sync-append (a ∷ b ∷ c ∷ d ∷ bs) more h = refl

pub find_sync_here : (b : ℕ) (bs : List ℕ) → is_sync (b ∷ bs) ≡ true → find_sync (b ∷ bs) ≡ some 0
unfolding find_sync
find_sync_here b bs h = rw h

pub find_sync_later :
    (b : ℕ) (bs : List ℕ)
    → is_sync (b ∷ bs) ≡ false
    → find_sync (b ∷ bs) ≡ Option.map suc (find_sync bs)
unfolding find_sync
find_sync_later b bs h = rw h

pub find_sync-step :
    (b : ℕ) (bs : List ℕ)
    → (find_sync (b ∷ bs) ≡ some 0)
      ⊎ ((is_sync (b ∷ bs) ≡ false) × (find_sync (b ∷ bs) ≡ Option.map suc (find_sync bs)))
find_sync-step b bs = elim (Bool-cases (is_sync (b ∷ bs))) [
  | inl here ↦ inl (find_sync_here b bs here)
  | inr later ↦ inr (later, find_sync_later b bs later)
]

pub find_sync-within : (buf : List ℕ) (i : ℕ) → find_sync buf ≡ some i → i + 4 ≤ length buf
unfolding find_sync
find_sync-within [] i e = ground arith
find_sync-within (b ∷ bs) i e = elim (Bool-cases (is_sync (b ∷ bs))) [
  | inl here ↦
      omega (arith, is_sync-length (b ∷ bs) here, some_eq (sym (find_sync_here b bs here) ∙ e))
  | inr later ↦ elim (Option-cases (find_sync bs)) [
    | inl none' ↦ cc (find_sync_later b bs later, none', e)
    | inr (j, found) ↦ omega (
      arith,
      find_sync-within bs j found,
      some_eq (sym (find_sync_later b bs later ∙ ap (Option.map suc) found) ∙ e),
    )
  ]
]
  where
    some_eq : {x y : ℕ} → some x ≡ some y → x ≡ y
    some_eq p = cc p

pub keep_tail_short : (buf : List ℕ) → length buf ≤ 3 → keep_tail buf ≡ buf
unfolding keep_tail
keep_tail_short buf h = let short : ltb 3 (length buf) ≡ false = ground arith in rw short

pub keep_tail-next : (b : ℕ) (bs : List ℕ) → 3 ≤ length bs → keep_tail (b ∷ bs) ≡ keep_tail bs
unfolding keep_tail
keep_tail-next b bs h =
    let long : ltb 3 (suc (length bs)) ≡ true = ground arith in
    elim (Bool-cases (ltb 3 (length bs))) [
      | inl more ↦
          rw (long, more) (ap (λ n. drop n (b ∷ bs)) {y = suc (length bs - 3)} (ground arith))
      | inr exact ↦
          rw (long, exact)
            (ap (λ n. drop n (b ∷ bs)) {x = suc (length bs) - 3} {y = 1} (ground arith))
    ]

module _ (checksum : List ℕ → ℕ) {F : Type 0} (floats : Floats F) where
  abbrev pub next_done : Completed F → Completed F
  next_done done = record done { frame_end = suc done.frame_end }

  slice-next :
      (from to b : ℕ) (buf : List ℕ) → slice (suc from) (suc to) (b ∷ buf) ≡ slice from to buf
  slice-next from to b buf = ap (λ n. take n (drop from buf)) {y = to - from} (omega arith)

  payload-next :
      (b : ℕ) (buf : List ℕ) (f : Frame)
      → slice (suc f.payload_start) (suc f.payload_start + f.payload_len) (b ∷ buf)
        ≡ slice f.payload_start (f.payload_start + f.payload_len) buf
  payload-next b buf f =
      ap (λ to. slice (suc f.payload_start) to (b ∷ buf))
        {y = suc (f.payload_start + f.payload_len)} (omega arith)
      ∙ slice-next f.payload_start (f.payload_start + f.payload_len) b buf

  -- What is made of a frame depends on the bytes of its payload and of itself alone.
  abbrev pub completed : ℕ → ℕ → SessionState F → Frame → ℕ → List ℕ → List ℕ → Completed F
  completed now arrival_us s f end payload frame = record {
    frame_end = end;
    message = message_of floats now arrival_us payload frame f (note_frame floats arrival_us f s);
    state = (note_frame floats arrival_us f s).state;
  }

  complete-next :
      (now arrival_us : ℕ) (s : SessionState F) (b : ℕ) (buf : List ℕ) (p : ℕ) (f : Frame)
      → complete floats now arrival_us s (b ∷ buf) (suc p) (next_frame f)
        ≡ next_done (complete floats now arrival_us s buf p f)
  unfolding complete note_frame message_of
  complete-next now arrival_us s b buf p f =
      ap₂ (completed now arrival_us s f (suc f.frame_end)) (payload-next b buf f)
        (slice-next p f.frame_end b buf)

  pub parse_at-next :
      (now arrival_us : ℕ) (s : SessionState F) (b : ℕ) (buf : List ℕ) (p : ℕ)
      → parse_at floats checksum now arrival_us s (b ∷ buf) (suc p)
        ≡ map_parse next_done (parse_at floats checksum now arrival_us s buf p)
  unfolding parse_at
  parse_at-next now arrival_us s b buf p =
      and_then-map next_frame next_done (parse_frame checksum p buf) _ _ _
        (parse_frame-next checksum p b buf) (λ f. ap go (complete-next now arrival_us s b buf p f))

  pub handle-next :
      (s : CbrtCodec F) (b : ℕ) (buf : List ℕ) (p : ℕ) (outcome : Parse (Completed F))
      (again : Decoded (CbrtCodec F))
      → handle checksum floats s (b ∷ buf) (suc p) (map_parse next_done outcome) again
        ≡ handle checksum floats s buf p outcome again
  unfolding handle
  handle-next s b buf p need_more again = refl
  handle-next s b buf p reject again = refl
  handle-next s b buf p (go done) again = refl

  -- The steps of the loop.
  pub scan_short :
      (fuel : ℕ) (c : Clock) (s : CbrtCodec F) (buf : List ℕ)
      → length buf < 4
      → scan checksum floats (suc fuel) c s buf
        ≡ record { codec = s; buffer = buf; outcome = ok none }
  unfolding scan
  scan_short fuel c s buf h = let short : ltb (length buf) 4 ≡ true = ground arith in rw short

  pub scan-none :
      (fuel : ℕ) (c : Clock) (s : CbrtCodec F) (buf : List ℕ)
      → 4 ≤ length buf
      → find_sync buf ≡ none
      → scan checksum floats (suc fuel) c s buf
        ≡ record { codec = s; buffer = keep_tail buf; outcome = ok none }
  unfolding scan
  scan-none fuel c s buf h e =
      let enough : ltb (length buf) 4 ≡ false = ground arith in rw (enough, e)

  pub scan-some :
      (fuel : ℕ) (c : Clock) (s : CbrtCodec F) (buf : List ℕ) (i : ℕ)
      → find_sync buf ≡ some i
      → scan checksum floats (suc fuel) c s buf
        ≡ handle checksum floats s buf i
            (parse_at floats checksum c.wall c.wall s.state buf i)
            (scan checksum floats fuel c s (drop (i + 1) buf))
  unfolding scan
  scan-some fuel c s buf i e =
      let enough : ltb (length buf) 4 ≡ false = ground (arith, find_sync-within buf i e) in
      rw (enough, e)
