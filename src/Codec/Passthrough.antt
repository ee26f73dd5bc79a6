-- ===== src/Codec/Passthrough.antt =====
-- crates/cycbox-runtime/src/codec/passthrough.rs: whatever is buffered is one message.
use cycbox.Base.{ℕ, List, [], ◌∷◌, some, arith}
use cycbox.Message.{Message}
use cycbox.Codec.{
  Clock, Decoded, Codec, Progresses, KeepsWithin, ok, received, need_more, stateless_codec,
}

-- `PassthroughCodec` has no state.
unfoldable pub decode : Clock → Unit {0} → List ℕ → Decoded (Unit {0})
decode c s [] = need_more s []
decode c s (b ∷ bs) = record {
  codec = s;
  buffer = [];
  outcome = ok (some (received c (b ∷ bs) (b ∷ bs)));
}

unfoldable pub encode : Unit {0} → Message → Message
encode s m = record m { frame = m.payload }

abbrev pub passthrough_codec : Codec (Unit {0})
passthrough_codec = stateless_codec decode encode

pub decode-Progresses : Progresses decode
unfolding decode
decode-Progresses c s [] m e = ground arith
decode-Progresses c s (b ∷ bs) m e = omega arith

pub decode-KeepsWithin : KeepsWithin decode
unfolding decode
decode-KeepsWithin c s [] = omega arith
decode-KeepsWithin c s (b ∷ bs) = omega arith
