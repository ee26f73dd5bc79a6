-- ===== src/Value/Scalars.antt =====
-- crates/cycbox-sdk/src/message/value.rs: what the readers make of what the builder wrote.
use cycbox.Base.{ℕ, ◌*◌, ◌^◌, ◌<◌, ◌≡◌, refl, ap, some, arith, take_all}
use cycbox.Base.Words.{le_bytes, length-le_bytes, le_value-le_bytes}
use cycbox.Base.Int.{ℤ, Fits, signed, unsigned, signed-unsigned, unsigned-lt}
use mathlib.Core.Option
use cycbox.Value.{
  read_le, as_i8, as_i16, as_i32, as_i64, as_u8, as_u16, as_u32, as_u64, as_f32, as_f64,
}
use cycbox.Value.Builder.{
  ValueBuilder, int8, int16, int32, int64, uint8, uint16, uint32, uint64, float32, float64,
}

pub read_le-le_bytes : (n v : ℕ) → v < 256 ^ n → read_le n (le_bytes n v) ≡ some v
read_le-le_bytes n v h =
    rw (take_all n (le_bytes n v) (omega (arith, length-le_bytes n v)), le_value-le_bytes n v h)
      (ground (arith, length-le_bytes n v))

-- Every unsigned integer and every bit pattern of a float that fits its width is read back as it
-- was written.
pub unsigned_round_trip :
    (now : ℕ) (b : ValueBuilder) (v8 v16 v32 v64 f32 f64 : ℕ)
    → v8 < 2 ^ 8
    → v16 < 2 ^ 16
    → v32 < 2 ^ 32
    → v64 < 2 ^ 64
    → f32 < 2 ^ 32
    → f64 < 2 ^ 64
    → (as_u8 (uint8 now b v8) ≡ some v8)
      × (as_u16 (uint16 now b v16) ≡ some v16)
      × (as_u32 (uint32 now b v32) ≡ some v32)
      × (as_u64 (uint64 now b v64) ≡ some v64)
      × (as_f32 (float32 now b f32) ≡ some f32)
      × (as_f64 (float64 now b f64) ≡ some f64)
unfolding as_u8 as_u16 as_u32 as_u64 as_f32 as_f64 uint8 uint16 uint32 uint64 float32 float64
unsigned_round_trip now b v8 v16 v32 v64 f32 f64 h8 h16 h32 h64 k32 k64 = (
  refl,
  read_le-le_bytes 2 v16 h16,
  read_le-le_bytes 4 v32 h32,
  read_le-le_bytes 8 v64 h64,
  read_le-le_bytes 4 f32 k32,
  read_le-le_bytes 8 f64 k64,
)

signed_back :
    (n half : ℕ) (z : ℤ)
    → 2 * half ≡ 256 ^ n
    → Fits half z
    → Option.map (signed half) (read_le n (le_bytes n (unsigned half z))) ≡ some z
signed_back n half z e h =
    rw (read_le-le_bytes n (unsigned half z) (omega (arith, unsigned-lt half z h)))
      (ap some (signed-unsigned half z h))

-- Every signed integer in the range of its type is read back, negative ones included.
pub signed_round_trip :
    (now : ℕ) (b : ValueBuilder) (z8 z16 z32 z64 : ℤ)
    → Fits (2 ^ 7) z8
    → Fits (2 ^ 15) z16
    → Fits (2 ^ 31) z32
    → Fits (2 ^ 63) z64
    → (as_i8 (int8 now b z8) ≡ some z8)
      × (as_i16 (int16 now b z16) ≡ some z16)
      × (as_i32 (int32 now b z32) ≡ some z32)
      × (as_i64 (int64 now b z64) ≡ some z64)
unfolding as_i8 as_i16 as_i32 as_i64 int8 int16 int32 int64
signed_round_trip now b z8 z16 z32 z64 h8 h16 h32 h64 = (
  ap some (signed-unsigned (2 ^ 7) z8 h8),
  signed_back 2 (2 ^ 15) z16 refl h16,
  signed_back 4 (2 ^ 31) z32 refl h32,
  signed_back 8 (2 ^ 63) z64 refl h64,
)
