-- ===== src/Codec.antt =====
-- crates/cycbox-sdk/src/codec.rs and error.rs: the trait `Codec` as a record of functions over the
-- codec's state. The children are the codecs of crates/cycbox-runtime/src/codec/.
pub mod Line
pub mod Slip
pub mod Cobs
pub mod Passthrough
pub mod Timeout
pub mod Laws
use cycbox.Base.{
  ℕ, ◌+◌, ◌<◌, ◌≤◌, ◌≡◌, ◌⊎◌, inl, inr, refl, List, [], ◌∷◌, Option, some, none, length, arith,
}
use cycbox.Base.Text.{Text}
use cycbox.Message.{Message, PayloadType}
use cycbox.Message.Builder.{rx, build, frame_or_payload}

-- `CycBoxError`; the errors of other libraries that it wraps are their texts.
pub data CycBoxError : Type 0 where
  io json connection discarded parse pending : Text → CycBoxError
  invalid_value : Text → Text → CycBoxError
  invalid_format missing_field unsupported lua lua_function other : Text → CycBoxError

pub data Result {ℓ} (A : Type ℓ) : Type ℓ where
  ok : A → Result A
  err : CycBoxError → Result A

-- What the clocks show during a call: the wall clock in microseconds since the epoch, and the
-- monotonic clock (`Instant`) in nanoseconds.
pub record Clock : Type 0 where
  pub wall : ℕ
  pub instant : ℕ

-- `&mut self` and `&mut BytesMut` come back beside the result: an error may leave both changed.
pub record Decoded (S : Type 0) : Type 0 where
  pub codec : S
  pub buffer : List ℕ
  pub outcome : Result (Option Message)

pub record Codec (S : Type 0) : Type 0 where
  pub decode : Clock → S → List ℕ → Decoded S
  pub decode_timeout : Clock → S → List ℕ → Decoded S
  pub decode_eof : Clock → S → List ℕ → Decoded S
  pub encode : S → Message → Result (S × Message)
  pub reset : S → S

-- A codec that implements `decode` and `encode` alone, with the trait's defaults for the rest.
abbrev pub stateless_codec :
    {S : Type 0} → (Clock → S → List ℕ → Decoded S) → (S → Message → Message) → Codec S
stateless_codec decode encode = record {
  decode = decode;
  decode_timeout = decode;
  decode_eof = decode;
  encode = λ s m. ok (s, encode s m);
  reset = λ s. s;
}

-- What clients rely on: a delivered message uses up bytes of the buffer.
abbrev pub Progresses : {S : Type 0} → (Clock → S → List ℕ → Decoded S) → Type 0
Progresses {S} decode =
    (c : Clock) (s : S) (buf : List ℕ) (m : Message)
    → (decode c s buf).outcome ≡ ok (some m)
    → length (decode c s buf).buffer < length buf

abbrev pub KeepsWithin : {S : Type 0} → (Clock → S → List ℕ → Decoded S) → Type 0
KeepsWithin {S} decode =
    (c : Clock) (s : S) (buf : List ℕ) → length (decode c s buf).buffer ≤ length buf

-- The laws that the transport's loop needs of a codec.
pub record Lawful {S : Type 0} (codec : Codec S) : Type 0 where
  pub progresses : Progresses codec.decode
  pub decode_within : KeepsWithin codec.decode
  pub timeout_within : KeepsWithin codec.decode_timeout
  pub eof_within : KeepsWithin codec.decode_eof

-- The message that every codec of the runtime delivers.
unfoldable pub received : Clock → List ℕ → List ℕ → Message
unfolding rx build
received c payload frame = build c.wall (rx PayloadType.binary payload frame)

pub received-frame :
    (c : Clock) (payload frame : List ℕ)
    → 0 < length frame
    → (received c payload frame).frame ≡ frame
unfolding received frame_or_payload
received-frame c payload [] h = absurd (omega arith)
received-frame c payload (b ∷ bs) h = refl

-- More bytes are needed: nothing is taken off the buffer.
abbrev pub need_more : {S : Type 0} → S → List ℕ → Decoded S
need_more s buf = record { codec = s; buffer = buf; outcome = ok none }

pub Outcome-cases :
    (r : Result (Option Message))
    → (r ≡ ok none) ⊎ ((m : Message) × (r ≡ ok (some m))) ⊎ ((e : CycBoxError) × (r ≡ err e))
Outcome-cases (ok none) = inl refl
Outcome-cases (ok (some m)) = inr (inl (m, refl))
Outcome-cases (err e) = inr (inr (e, refl))
