-- ===== src/Codec/Cobs/Blocks.antt =====
-- crates/cycbox-runtime/src/codec/cobs.rs: the encoder, which goes back to fill in each code byte,
-- writes a sequence of blocks that is defined without going back.
use cycbox.Base.{
  ℕ, suc, ◌+◌, ◌*◌, ◌/◌, ◌≤◌, ◌<◌, ◌≡◌, ◌≢◌, refl, sym, ap, ◌∙◌, List, [], ◌∷◌, ◌++◌, append_assoc,
  false, ◌==◌, if◌then◌else◌, ==_iff, arith, length, set, length-append, Avoids, All-append,
}
use native.Mathlib.Decide.{ℕ_discrete}
use cycbox.Codec.Cobs.{
  CobsCodec, Encoder, close_block, close_full, saturating_suc, encode_byte, encode_loop,
  encode_cobs,
}

-- The blocks of `run ++ bytes`, where `run` is the open block.
unfoldable pub blocks : ℕ → List ℕ → List ℕ → List ℕ
blocks sentinel run [] = suc (length run) ∷ run
blocks sentinel run (b ∷ bs) =
    let closed = suc (length run) ∷ (run ++ blocks sentinel [] bs) in
    let full = 0xFF ∷ ((run ++ b ∷ []) ++ blocks sentinel [] bs) in
    let longer = blocks sentinel (run ++ b ∷ []) bs in
    if b == sentinel then closed else if length run + 2 == 0xFF then full else longer

-- Writing behind a prefix.
set-append : (xs ys : List ℕ) (y v : ℕ) → set (xs ++ y ∷ ys) (length xs) v ≡ xs ++ v ∷ ys
set-append [] ys y v = refl
set-append (x ∷ xs) ys y v = ap (◌∷◌ x) (set-append xs ys y v)

-- The state in which `before` is finished and `run` is the open block.
abbrev Open : List ℕ → List ℕ → Encoder
Open before run = record {
  encoded = before ++ 0 ∷ run;
  code_index = length before;
  code = suc (length run);
}

close-Open :
    (before run : List ℕ)
    → close_block (Open before run) ≡ Open (before ++ suc (length run) ∷ run) []
unfolding close_block
close-Open before run = rw (set-append before run 0 (suc (length run))) refl

push-Open :
    (before run : List ℕ) (b : ℕ)
    → length run ≤ 253
    → record {
      encoded = (before ++ 0 ∷ run) ++ b ∷ [];
      code_index = length before;
      code = saturating_suc (suc (length run));
    }
      ≡ Open before (run ++ b ∷ [])
push-Open before run b h =
    ground (arith, append_assoc before (0 ∷ run) (b ∷ []), length-append run (b ∷ []))

byte_sentinel :
    (sentinel b : ℕ) (before run : List ℕ)
    → b ≡ sentinel
    → encode_byte sentinel (Open before run) b ≡ Open (before ++ suc (length run) ∷ run) []
unfolding encode_byte
byte_sentinel sentinel b before run e = rw ((==_iff b sentinel).1 e) (close-Open before run)

byte_pushed :
    (sentinel b : ℕ) (before run : List ℕ)
    → b ≢ sentinel
    → length run ≤ 253
    → encode_byte sentinel (Open before run) b ≡ close_full (Open before (run ++ b ∷ []))
unfolding encode_byte
byte_pushed sentinel b before run n h =
    let other : (b == sentinel) ≡ false = ground arith in
    rw other (ap close_full (push-Open before run b h))

byte_full :
    (sentinel b : ℕ) (before run : List ℕ)
    → b ≢ sentinel
    → length run ≡ 253
    → encode_byte sentinel (Open before run) b ≡ Open (before ++ 0xFF ∷ (run ++ b ∷ [])) []
unfolding close_full
byte_full sentinel b before run n h =
    let code : suc (length (run ++ b ∷ [])) ≡ 0xFF = omega (arith, length-append run (b ∷ [])) in
    byte_pushed sentinel b before run n (omega arith)
    ∙ rw ((==_iff _ 0xFF).1 code)
        (close-Open before (run ++ b ∷ []) ∙ ap (λ k. Open (before ++ k ∷ (run ++ b ∷ [])) []) code)

byte_more :
    (sentinel b : ℕ) (before run : List ℕ)
    → b ≢ sentinel
    → length run < 253
    → encode_byte sentinel (Open before run) b ≡ Open before (run ++ b ∷ [])
unfolding close_full
byte_more sentinel b before run n h =
    let open_still : (suc (length (run ++ b ∷ [])) == 0xFF) ≡ false =
      ground (arith, length-append run (b ∷ [])) in
    byte_pushed sentinel b before run n (omega arith) ∙ rw open_still refl

-- The three ways in which `blocks` goes on.
blocks_sentinel :
    (sentinel b : ℕ) (run bs : List ℕ)
    → b ≡ sentinel
    → blocks sentinel run (b ∷ bs) ≡ suc (length run) ∷ (run ++ blocks sentinel [] bs)
unfolding blocks
blocks_sentinel sentinel b run bs e = rw ((==_iff b sentinel).1 e)

blocks_full :
    (sentinel b : ℕ) (run bs : List ℕ)
    → b ≢ sentinel
    → length run ≡ 253
    → blocks sentinel run (b ∷ bs) ≡ 0xFF ∷ ((run ++ b ∷ []) ++ blocks sentinel [] bs)
unfolding blocks
blocks_full sentinel b run bs n h = ground arith

blocks_more :
    (sentinel b : ℕ) (run bs : List ℕ)
    → b ≢ sentinel
    → length run < 253
    → blocks sentinel run (b ∷ bs) ≡ blocks sentinel (run ++ b ∷ []) bs
unfolding blocks
blocks_more sentinel b run bs n h = ground arith

-- How `blocks` and the encoder treat the next byte.
pub data Next (sentinel b : ℕ) (run bs : List ℕ) : Type 0 where
  zero_byte :
      b ≡ sentinel
      → blocks sentinel run (b ∷ bs) ≡ suc (length run) ∷ (run ++ blocks sentinel [] bs)
      → Next sentinel b run bs
  full_block :
      b ≢ sentinel
      → length run ≡ 253
      → blocks sentinel run (b ∷ bs) ≡ 0xFF ∷ ((run ++ b ∷ []) ++ blocks sentinel [] bs)
      → Next sentinel b run bs
  longer_run :
      b ≢ sentinel
      → length run < 253
      → blocks sentinel run (b ∷ bs) ≡ blocks sentinel (run ++ b ∷ []) bs
      → Next sentinel b run bs

pub byte-Next : (sentinel b : ℕ) (run bs : List ℕ) → length run ≤ 253 → Next sentinel b run bs
byte-Next sentinel b run bs h = elim (ℕ_discrete b sentinel) [
  | yes e ↦ zero_byte e (blocks_sentinel sentinel b run bs e)
  | no n ↦ elim (ℕ_discrete (length run) 253) [
    | yes k ↦ full_block n k (blocks_full sentinel b run bs n k)
    | no k ↦ longer_run n (omega arith) (blocks_more sentinel b run bs n (omega arith))
  ]
]

-- What the encoder has written once it has filled in the last code byte.
abbrev written : Encoder → List ℕ
written e = set e.encoded e.code_index e.code

after_byte :
    (sentinel b : ℕ) (bs : List ℕ) (e e' : Encoder)
    → encode_byte sentinel e b ≡ e'
    → written (encode_loop sentinel e (b ∷ bs)) ≡ written (encode_loop sentinel e' bs)
unfolding encode_loop
after_byte sentinel b bs e e' step = ap (λ x. written (encode_loop sentinel x bs)) step

encode_loop-blocks :
    (sentinel : ℕ) (bs before run : List ℕ)
    → length run ≤ 253
    → written (encode_loop sentinel (Open before run) bs) ≡ before ++ blocks sentinel run bs
encode_loop-blocks sentinel [] before run h =
    unfold encode_loop blocks in set-append before run 0 (suc (length run))
encode_loop-blocks sentinel (b ∷ bs) before run h = elim (byte-Next sentinel b run bs h) [
  | zero_byte e w ↦
      after_byte sentinel b bs _ _ (byte_sentinel sentinel b before run e)
      ∙ encode_loop-blocks sentinel bs (before ++ suc (length run) ∷ run) [] (omega arith)
      ∙ append_assoc before (suc (length run) ∷ run) (blocks sentinel [] bs)
      ∙ ap (◌++◌ before) (sym w)
  | full_block n k w ↦
      after_byte sentinel b bs _ _ (byte_full sentinel b before run n k)
      ∙ encode_loop-blocks sentinel bs (before ++ 0xFF ∷ (run ++ b ∷ [])) [] (omega arith)
      ∙ append_assoc before (0xFF ∷ (run ++ b ∷ [])) (blocks sentinel [] bs)
      ∙ ap (◌++◌ before) (sym w)
  | longer_run n k w ↦
      after_byte sentinel b bs _ _ (byte_more sentinel b before run n k)
      ∙ encode_loop-blocks sentinel bs before (run ++ b ∷ [])
          (omega (arith, length-append run (b ∷ [])))
      ∙ ap (◌++◌ before) (sym w)
]

-- The encoder writes the blocks of the payload and then the sentinel.
pub encode_cobs-blocks :
    (s : CobsCodec) (bytes : List ℕ)
    → encode_cobs s bytes ≡ blocks s.sentinel [] bytes ++ s.sentinel ∷ []
unfolding encode_cobs
encode_cobs-blocks s bytes =
    ap (λ t. t ++ s.sentinel ∷ []) (encode_loop-blocks s.sentinel bytes [] [] (omega arith))

-- With the sentinel 0 it stands in no block.
pub blocks-Avoids : (bs run : List ℕ) → length run ≤ 253 → Avoids 0 run → Avoids 0 (blocks 0 run bs)
blocks-Avoids [] run h a = unfold blocks in (omega arith, a)
blocks-Avoids (b ∷ bs) run h a = elim (byte-Next 0 b run bs h) [
  | zero_byte e w ↦ rw w (omega arith, All-append _ run _ a (blocks-Avoids bs [] (omega arith) tt))
  | full_block n k w ↦ rw w (
    omega arith,
    All-append _ (run ++ b ∷ []) _ (All-append _ run (b ∷ []) a (n, tt))
        (blocks-Avoids bs [] (omega arith) tt),
  )
  | longer_run n k w ↦ rw w (
      blocks-Avoids bs (run ++ b ∷ []) (omega (arith, length-append run (b ∷ [])))
        (All-append _ run (b ∷ []) a (n, tt)))
]

-- At most one code byte for every 254 bytes of payload, and one more.
length-blocks :
    (sentinel : ℕ) (bs run : List ℕ)
    → length run ≤ 253
    → (length run + length bs + 1 ≤ length (blocks sentinel run bs))
      × (254 * length (blocks sentinel run bs) ≤ 255 * (length run + length bs) + 254)
length-blocks sentinel [] run h = unfold blocks in omega arith
length-blocks sentinel (b ∷ bs) run h = elim (byte-Next sentinel b run bs h) [
  | zero_byte e w ↦ omega (
    arith,
    ap length w,
    length-append run (blocks sentinel [] bs),
    length-blocks sentinel bs [] (omega arith),
  )
  | full_block n k w ↦ omega (
    arith,
    ap length w,
    length-append (run ++ b ∷ []) (blocks sentinel [] bs),
    length-append run (b ∷ []),
    length-blocks sentinel bs [] (omega arith),
  )
  | longer_run n k w ↦ omega (
    arith,
    ap length w,
    length-append run (b ∷ []),
    length-blocks sentinel bs (run ++ b ∷ []) (omega (arith, length-append run (b ∷ []))),
  )
]

-- The frame fits the capacity that the encoder reserves, `len + len / 254 + 2`, and is at least two
-- bytes longer than the payload.
pub encode_cobs_capacity :
    (s : CobsCodec) (bytes : List ℕ)
    → (length bytes + 2 ≤ length (encode_cobs s bytes))
      × (length (encode_cobs s bytes) ≤ length bytes + length bytes / 254 + 2)
encode_cobs_capacity s bytes =
    let (lo, hi) = length-blocks s.sentinel bytes [] (omega arith) in
    let all = length-append (blocks s.sentinel [] bytes) (s.sentinel ∷ []) in
    rw (encode_cobs-blocks s bytes) (omega (arith, all), omega (arith, all))
