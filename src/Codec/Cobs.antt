-- ===== src/Codec/Cobs.antt =====
-- crates/cycbox-runtime/src/codec/cobs.rs: Consistent Overhead Byte Stuffing. Every block is a code
-- byte, one more than the number of the bytes behind it; the sentinel ends the frame.
pub mod Blocks
pub mod RoundTrip
pub mod Frames
use cycbox.Base.{
  ℕ, zero, suc, ◌+◌, ◌-◌, List, [], ◌∷◌, ◌++◌, Option, some, none, Bool, true, false, not, ◌&&◌,
  ◌==◌, ltb, if◌then◌else◌, length, take, drop, set, min, position,
}
use cycbox.Base.Text.{text}
use cycbox.Message.{Message}
use cycbox.Codec.{
  Clock, Decoded, Codec, CycBoxError, Result, ok, err, received, need_more, stateless_codec,
}

pub record CobsCodec : Type 0 where
  pub sentinel : ℕ

abbrev pub default_cobs_codec : CobsCodec
default_cobs_codec = record { sentinel = 0 }

-- The local variables of `encode_cobs`.
pub record Encoder : Type 0 where
  pub encoded : List ℕ
  pub code_index : ℕ
  pub code : ℕ

-- `encoded[code_index] = code`, then a placeholder for the next code byte.
unfoldable pub close_block : Encoder → Encoder
close_block e =
    let written = set e.encoded e.code_index e.code in
    record { encoded = written ++ 0 ∷ []; code_index = length written; code = 1 }

-- `code.saturating_add(1)` on a byte.
abbrev pub saturating_suc : ℕ → ℕ
saturating_suc code = min (code + 1) 255

-- The block is closed when its code has reached 0xFF.
unfoldable pub close_full : Encoder → Encoder
close_full e = if e.code == 0xFF then close_block e else e

-- One round of the loop over the payload.
unfoldable pub encode_byte : ℕ → Encoder → ℕ → Encoder
encode_byte sentinel e b =
    if b == sentinel
    then close_block e
    else close_full (record e { encoded = e.encoded ++ b ∷ []; code = saturating_suc e.code })

unfoldable pub encode_loop : ℕ → Encoder → List ℕ → Encoder
encode_loop sentinel e [] = e
encode_loop sentinel e (b ∷ bs) = encode_loop sentinel (encode_byte sentinel e b) bs

unfoldable pub encode_cobs : CobsCodec → List ℕ → List ℕ
unfolding encode_loop
encode_cobs s bytes =
    let e = encode_loop s.sentinel (record { encoded = 0 ∷ []; code_index = 0; code = 1 }) bytes in
    set e.encoded e.code_index e.code ++ s.sentinel ∷ []

abbrev pub zero_code : CycBoxError
zero_code = CycBoxError.parse (text "Invalid COBS encoding: unexpected zero byte")

abbrev pub code_exceeds : CycBoxError
code_exceeds = CycBoxError.parse (text "Invalid COBS encoding: code byte exceeds buffer")

-- The fuel of the loop ran out, which `decode_cobs` never lets happen.
abbrev pub out_of_fuel : CycBoxError
out_of_fuel = CycBoxError.other (text "out of fuel")

-- `decoded.push(self.sentinel)`, unless the block was full or was the last.
unfoldable pub separate : ℕ → ℕ → List ℕ → List ℕ → List ℕ
separate sentinel code [] decoded = decoded
separate sentinel code (b ∷ rest) decoded =
    if code == 0xFF then decoded else decoded ++ sentinel ∷ []

-- The loop of `decode_cobs`: the bytes from index `i` on, and what is decoded so far.
unfoldable pub decode_loop : ℕ → ℕ → List ℕ → List ℕ → Result (List ℕ)
unfolding separate
decode_loop fuel sentinel [] decoded = ok decoded
decode_loop zero sentinel (code ∷ bs) decoded = err out_of_fuel
decode_loop (suc fuel) sentinel (code ∷ bs) decoded =
    let copy_len = min (code - 1) (length bs) in
    let rest = drop copy_len bs in
    let next =
      decode_loop fuel sentinel rest (separate sentinel code rest (decoded ++ take copy_len bs)) in
    if code == 0 then err zero_code else if ltb (length bs) copy_len then err code_exceeds else next

-- Each round uses up the code byte at least, so the length of the data is enough fuel.
unfoldable pub decode_cobs : CobsCodec → List ℕ → Result (List ℕ)
unfolding decode_loop
decode_cobs s bytes = decode_loop (length bytes) s.sentinel bytes []

-- The frame has been split off; `encoded_data` is the frame without its sentinel.
unfoldable pub decode_frame : Clock → CobsCodec → List ℕ → List ℕ → List ℕ → Decoded CobsCodec
decode_frame c s [] frame rest = record { codec = s; buffer = rest; outcome = ok none }
decode_frame c s (b ∷ bs) frame rest = elim (decode_cobs s (b ∷ bs)) [
  | ok payload ↦ record { codec = s; buffer = rest; outcome = ok (some (received c payload frame)) }
  | err e ↦ record { codec = s; buffer = rest; outcome = err e }
]

unfoldable pub decode : Clock → CobsCodec → List ℕ → Decoded CobsCodec
unfolding decode_frame
decode c s buf = elim (position s.sentinel buf) [
  | some index ↦ decode_frame c s (take index buf) (take (index + 1) buf) (drop (index + 1) buf)
  | none ↦ need_more s buf
]

unfoldable pub encode : CobsCodec → Message → Message
unfolding encode_cobs
encode s m = record m { frame = encode_cobs s m.payload }

-- Whatever the configuration, the sentinel is 0.
unfoldable pub config : CobsCodec → CobsCodec
config s = record s { sentinel = 0 }

abbrev pub cobs_codec : Codec CobsCodec
cobs_codec = stateless_codec decode encode
