-- ===== src/Codec/Timeout.antt =====
-- crates/cycbox-runtime/src/codec/timeout.rs: a frame is what arrives within `timeout_ms`.
use mathlib.Core.Option.{get_or}
use cycbox.Base.{ℕ, ◌-◌, ◌/◌, List, [], ◌∷◌, Option, some, none, arith, leb, if◌then◌else◌}
use cycbox.Message.{Message}
use cycbox.Codec.{Clock, Decoded, Codec, Progresses, KeepsWithin, ok, received, need_more}

pub record TimeoutCodec : Type 0 where
  pub timeout_ms : ℕ
  pub frame_start : Option ℕ

unfoldable pub emit : Clock → TimeoutCodec → List ℕ → Decoded TimeoutCodec
emit c s buf = record {
  codec = record s { frame_start = none };
  buffer = [];
  outcome = ok (some (received c buf buf));
}

-- `now.duration_since(start).as_millis()`, which is 0 when `start` is later.
unfoldable pub elapsed_ms : ℕ → ℕ → ℕ
elapsed_ms now start = (now - start) / 1_000_000

-- `frame_start.get_or_insert(now)` on a buffer that is not empty, and the test of the age.
unfoldable pub decode_filled : Clock → TimeoutCodec → List ℕ → Decoded TimeoutCodec
unfolding emit elapsed_ms
decode_filled c s buf =
    let start = get_or s.frame_start c.instant in
    let s' : TimeoutCodec = record s { frame_start = some start } in
    if leb s.timeout_ms (elapsed_ms c.instant start) then emit c s' buf else need_more s' buf

unfoldable pub decode : Clock → TimeoutCodec → List ℕ → Decoded TimeoutCodec
unfolding decode_filled
decode c s [] = need_more s []
decode c s (b ∷ bs) = decode_filled c s (b ∷ bs)

unfoldable pub decode_timeout : Clock → TimeoutCodec → List ℕ → Decoded TimeoutCodec
unfolding emit
decode_timeout c s [] = need_more s []
decode_timeout c s (b ∷ bs) = emit c s (b ∷ bs)

unfoldable pub encode : TimeoutCodec → Message → Message
encode s m = record m { frame = m.payload }

unfoldable pub reset : TimeoutCodec → TimeoutCodec
reset s = record s { frame_start = none }

abbrev pub timeout_codec : Codec TimeoutCodec
timeout_codec = record {
  decode = decode;
  decode_timeout = decode_timeout;
  decode_eof = decode_timeout;
  encode = λ s m. ok (s, encode s m);
  reset = reset;
}

pub decode-Progresses : Progresses decode
unfolding decode
decode-Progresses c s [] m e = ground arith
decode-Progresses c s (b ∷ bs) m e = ground arith

pub decode-KeepsWithin : KeepsWithin decode
unfolding decode
decode-KeepsWithin c s [] = omega arith
decode-KeepsWithin c s (b ∷ bs) = ground arith

pub decode_timeout-KeepsWithin : KeepsWithin decode_timeout
unfolding decode_timeout
decode_timeout-KeepsWithin c s [] = omega arith
decode_timeout-KeepsWithin c s (b ∷ bs) = omega arith
