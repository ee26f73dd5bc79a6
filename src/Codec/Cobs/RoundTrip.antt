-- ===== src/Codec/Cobs/RoundTrip.antt =====
-- crates/cycbox-runtime/src/codec/cobs.rs: `decode_cobs` on the encoder's output, and on frames
-- that were cut short.
use cycbox.Base.{
  ℕ, zero, suc, ◌+◌, ◌-◌, ◌≤◌, ◌<◌, ◌≡◌, ◌≢◌, refl, sym, ap, ◌∙◌, List, [], ◌∷◌, ◌++◌, append_assoc,
  append-nil, false, ◌==◌, ltb, arith, length, take, drop, min, length-append, length-drop,
  take-append_left, drop-append_left, take_all, drop_all, ◌⊎◌, inl, inr, Bool-cases,
}
use cycbox.Codec.{Result, ok, err}
use cycbox.Codec.Cobs.{CobsCodec, separate, decode_loop, decode_cobs, zero_code}
use cycbox.Codec.Cobs.Blocks.{blocks, byte-Next, zero_byte, full_block, longer_run}

pub blocks_cons :
    (sentinel : ℕ) (run bs : List ℕ)
    → length run ≤ 253
    → (x : ℕ) × (xs : List ℕ) × (blocks sentinel run bs ≡ x ∷ xs)
blocks_cons sentinel run [] h = unfold blocks in (suc (length run), run, refl)
blocks_cons sentinel run (b ∷ bs) h = elim (byte-Next sentinel b run bs h) [
  | zero_byte e w ↦ (suc (length run), run ++ blocks sentinel [] bs, w)
  | full_block n k w ↦ (0xFF, (run ++ b ∷ []) ++ blocks sentinel [] bs, w)
  | longer_run n k w ↦
      let (x, xs, e) =
        blocks_cons sentinel (run ++ b ∷ []) bs (omega (arith, length-append run (b ∷ []))) in
      (x, xs, w ∙ e)
]

-- One round on a whole block.
decode_block :
    (fuel sentinel code : ℕ) (run rest out : List ℕ)
    → code ≡ suc (length run)
    → decode_loop (suc fuel) sentinel (code ∷ (run ++ rest)) out
      ≡ decode_loop fuel sentinel rest (separate sentinel code rest (out ++ run))
unfolding decode_loop
decode_block fuel sentinel code run rest out e =
    let copied : min (code - 1) (length (run ++ rest)) ≡ length run =
      omega (arith, length-append run rest) in
    let whole : ltb (length (run ++ rest)) (length run) ≡ false =
      ground (arith, length-append run rest) in
    let positive : (code == 0) ≡ false = ground arith in
    rw (
      copied,
      take-append_left (length run) run rest refl,
      drop-append_left (length run) run rest refl,
      whole,
      positive,
    )

separate_full :
    (sentinel code : ℕ) (rest out : List ℕ) → code ≡ 0xFF → separate sentinel code rest out ≡ out
unfolding separate
separate_full sentinel code [] out e = refl
separate_full sentinel code (x ∷ xs) out e = ground arith

-- Blocks are never empty, so a sentinel is put between two of them.
separate-blocks :
    (sentinel code : ℕ) (bs out : List ℕ)
    → code ≢ 0xFF
    → separate sentinel code (blocks sentinel [] bs) out ≡ out ++ sentinel ∷ []
unfolding separate
separate-blocks sentinel code bs out n =
    let (x, xs, e) = blocks_cons sentinel [] bs (omega arith) in
    let other : (code == 0xFF) ≡ false = ground arith in rw (e, separate) (rw other)

ended :
    (fuel sentinel code : ℕ) (out : List ℕ)
    → decode_loop fuel sentinel [] (separate sentinel code [] out) ≡ ok out
unfolding decode_loop separate
ended fuel sentinel code out = refl

decode_loop-blocks :
    (bs run out : List ℕ) (fuel sentinel : ℕ)
    → length run ≤ 253
    → length (blocks sentinel run bs) ≤ fuel
    → decode_loop fuel sentinel (blocks sentinel run bs) out ≡ ok (out ++ (run ++ bs))
decode_loop-blocks bs run out zero sentinel h enough =
    let (x, xs, e) = blocks_cons sentinel run bs h in absurd (omega (arith, ap length e))
decode_loop-blocks [] run out (suc fuel) sentinel h enough =
    unfold blocks in
    ap (λ t. decode_loop (suc fuel) sentinel (suc (length run) ∷ t) out) (sym (append-nil run))
    ∙ decode_block fuel sentinel (suc (length run)) run [] out refl
    ∙ ended fuel sentinel (suc (length run)) (out ++ run)
    ∙ ap (λ t. ok (out ++ t)) (sym (append-nil run))
decode_loop-blocks (b ∷ bs) run out (suc fuel) sentinel h enough =
    elim (byte-Next sentinel b run bs h) [
      | zero_byte e w ↦
          ap (λ t. decode_loop (suc fuel) sentinel t out) w
          ∙ decode_block fuel sentinel (suc (length run)) run (blocks sentinel [] bs) out refl
          ∙ ap (decode_loop fuel sentinel (blocks sentinel [] bs))
              (separate-blocks sentinel (suc (length run)) bs (out ++ run) (omega arith))
          ∙ decode_loop-blocks bs [] ((out ++ run) ++ sentinel ∷ []) fuel sentinel (omega arith)
              (omega (arith, ap length w, length-append run (blocks sentinel [] bs)))
          ∙ ap ok (rw e (simp append_assoc))
      | full_block n k w ↦
          ap (λ t. decode_loop (suc fuel) sentinel t out) w
          ∙ decode_block fuel sentinel 0xFF (run ++ b ∷ []) (blocks sentinel [] bs) out
              (omega (arith, length-append run (b ∷ [])))
          ∙ ap (decode_loop fuel sentinel (blocks sentinel [] bs))
              (separate_full sentinel 0xFF (blocks sentinel [] bs) (out ++ (run ++ b ∷ [])) refl)
          ∙ decode_loop-blocks bs [] (out ++ (run ++ b ∷ [])) fuel sentinel (omega arith)
              (omega (arith, ap length w, length-append (run ++ b ∷ []) (blocks sentinel [] bs)))
          ∙ ap ok (simp append_assoc)
      | longer_run n k w ↦
          ap (λ t. decode_loop (suc fuel) sentinel t out) w
          ∙ decode_loop-blocks bs (run ++ b ∷ []) out (suc fuel) sentinel
              (omega (arith, length-append run (b ∷ []))) (omega (arith, ap length w))
          ∙ ap (λ t. ok (out ++ t)) (append_assoc run (b ∷ []) bs)
    ]

-- Every payload comes back from its blocks, with any sentinel.
pub decode_cobs-blocks :
    (s : CobsCodec) (bytes : List ℕ) → decode_cobs s (blocks s.sentinel [] bytes) ≡ ok bytes
unfolding decode_cobs
decode_cobs-blocks s bytes = decode_loop-blocks bytes [] [] _ s.sentinel (omega arith) (omega arith)

-- When the first code byte asks for more bytes than there are, the data are accepted: the bytes
-- that are there are the payload.
pub decode_cobs_cut :
    (s : CobsCodec) (code : ℕ) (bytes : List ℕ)
    → length bytes + 1 < code
    → decode_cobs s (code ∷ bytes) ≡ ok bytes
unfolding decode_cobs decode_loop
decode_cobs_cut s code bytes h =
    let copied : min (code - 1) (length bytes) ≡ length bytes = omega arith in
    let whole : ltb (length bytes) (length bytes) ≡ false = ground arith in
    let positive : (code == 0) ≡ false = ground arith in
    rw (
      copied,
      take_all (length bytes) bytes (omega arith),
      drop_all (length bytes) bytes (omega arith),
      whole,
      positive,
    )

drop-min_le : (k n : ℕ) (bs : List ℕ) → length (drop (min k n) bs) ≤ length bs
drop-min_le k n bs = omega (arith, length-drop (min k n) bs)

abbrev OkOrZero : Result (List ℕ) → Type 0
OkOrZero r = ((bytes : List ℕ) × (r ≡ ok bytes)) ⊎ (r ≡ err zero_code)

decode_step :
    (fuel sentinel code : ℕ) (bs out : List ℕ)
    → (code == 0) ≡ false
    → let copy_len = min (code - 1) (length bs) in
      decode_loop (suc fuel) sentinel (code ∷ bs) out
      ≡ decode_loop fuel sentinel
          (drop copy_len bs)
          (separate sentinel code (drop copy_len bs) (out ++ take copy_len bs))
unfolding decode_loop
decode_step fuel sentinel code bs out positive =
    let inside : ltb (length bs) (min (code - 1) (length bs)) ≡ false = ground arith in
    rw (positive, inside)

decode_loop_outcomes :
    (fuel sentinel : ℕ) (bytes out : List ℕ)
    → length bytes ≤ fuel
    → OkOrZero (decode_loop fuel sentinel bytes out)
decode_loop_outcomes fuel sentinel [] out h = unfold decode_loop in inl (out, refl)
decode_loop_outcomes zero sentinel (code ∷ bs) out h = absurd (omega arith)
decode_loop_outcomes (suc fuel) sentinel (code ∷ bs) out h = elim (Bool-cases (code == 0)) [
  | inl z ↦ inr (unfold decode_loop in rw z)
  | inr positive ↦ rw (decode_step fuel sentinel code bs out positive) (
      decode_loop_outcomes fuel sentinel (drop (min (code - 1) (length bs)) bs) _
        (omega (arith, drop-min_le (code - 1) (length bs) bs)))
]

-- The loop always ends, and the only error that it reports is a zero code byte: the check that a
-- code byte does not exceed the buffer never fails.
pub decode_cobs_outcomes :
    (s : CobsCodec) (bytes : List ℕ)
    → ((payload : List ℕ) × (decode_cobs s bytes ≡ ok payload))
      ⊎ (decode_cobs s bytes ≡ err zero_code)
unfolding decode_cobs
decode_cobs_outcomes s bytes = decode_loop_outcomes (length bytes) s.sentinel bytes [] (omega arith)
