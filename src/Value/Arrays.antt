-- ===== src/Value/Arrays.antt =====
-- crates/cycbox-sdk/src/message/value.rs: arrays of multi-byte elements.
use cycbox.Base.{
  ℕ, zero, suc, ◌*◌, ◌%◌, ◌^◌, ◌≤◌, ◌<◌, ◌≡◌, refl, ap, ap₂, ◌∙◌, List, [], ◌∷◌, map, some, arith,
  length, All, length-append, take-append_left, drop-append_left,
}
use cycbox.Base.Words.{le_bytes, le_value, length-le_bytes, le_value-le_bytes}
use cycbox.Base.Int.{ℤ, Fits, signed, unsigned, signed-unsigned, unsigned-lt}
use mathlib.Core.Option
use native.Mathlib.Nat.{mul-mod_right}
use cycbox.Value.{
  chunks_exact, read_le_array, as_i8_array, as_u8_array, as_i16_array, as_u16_array, as_i32_array,
  as_u32_array, as_i64_array, as_u64_array, as_f32_array, as_f64_array,
}
use cycbox.Value.Builder.{
  ValueBuilder, extend_le, int8_array, uint8_array, int16_array, uint16_array, int32_array,
  uint32_array, int64_array, uint64_array, float32_array, float64_array,
}

length-extend_le : (n : ℕ) (vs : List ℕ) → length (extend_le n vs) ≡ n * length vs
unfolding extend_le
length-extend_le n [] = omega arith
length-extend_le n (v ∷ vs) = omega (
  arith,
  length-append (le_bytes n v) (extend_le n vs),
  length-le_bytes n v,
  length-extend_le n vs,
)

-- The elements stand one after another, so the chunks are the elements' bytes.
chunks-extend_le :
    (fuel n : ℕ) (vs : List ℕ)
    → 0 < n
    → length vs ≤ fuel
    → All (λ v. v < 256 ^ n) vs
    → map le_value (chunks_exact fuel n (extend_le n vs)) ≡ vs
unfolding chunks_exact extend_le
chunks-extend_le zero n [] hn hf h = refl
chunks-extend_le zero n (v ∷ vs) hn hf h = absurd (omega arith)
chunks-extend_le (suc fuel) n [] hn hf h = ground arith
chunks-extend_le (suc fuel) n (v ∷ vs) hn hf h =
    rw
      (
        take-append_left n (le_bytes n v) (extend_le n vs) (length-le_bytes n v),
        drop-append_left n (le_bytes n v) (extend_le n vs) (length-le_bytes n v),
      )
      (ground (
        arith,
        length-append (le_bytes n v) (extend_le n vs),
        length-le_bytes n v,
        le_value-le_bytes n v h.0,
        chunks-extend_le fuel n vs hn (omega arith) h.1,
      ))

read_le_array-extend_le :
    (n : ℕ) (vs : List ℕ)
    → 0 < n
    → All (λ v. v < 256 ^ n) vs
    → read_le_array n (extend_le n vs) ≡ some vs
unfolding read_le_array
read_le_array-extend_le n vs hn h =
    let whole : length (extend_le n vs) % n ≡ 0 =
      ap (λ t. t % n) (length-extend_le n vs) ∙ mul-mod_right n (length vs) in
    let enough : length vs ≤ length (extend_le n vs) = grind (arith, length-extend_le n vs) in
    rw (whole, chunks-extend_le (length (extend_le n vs)) n vs hn enough h)

-- An array of unsigned integers or of bit patterns of floats that fit their width is read back
-- element by element.
pub unsigned_array_round_trip :
    (now : ℕ) (b : ValueBuilder) (v8 v16 v32 v64 f32 f64 : List ℕ)
    → All (λ v. v < 2 ^ 16) v16
    → All (λ v. v < 2 ^ 32) v32
    → All (λ v. v < 2 ^ 64) v64
    → All (λ v. v < 2 ^ 32) f32
    → All (λ v. v < 2 ^ 64) f64
    → (as_u8_array (uint8_array now b v8) ≡ some v8)
      × (as_u16_array (uint16_array now b v16) ≡ some v16)
      × (as_u32_array (uint32_array now b v32) ≡ some v32)
      × (as_u64_array (uint64_array now b v64) ≡ some v64)
      × (as_f32_array (float32_array now b f32) ≡ some f32)
      × (as_f64_array (float64_array now b f64) ≡ some f64)
unfolding as_u8_array as_u16_array as_u32_array as_u64_array as_f32_array as_f64_array uint8_array
    uint16_array uint32_array uint64_array float32_array float64_array
unsigned_array_round_trip now b v8 v16 v32 v64 f32 f64 h16 h32 h64 k32 k64 = (
  refl,
  read_le_array-extend_le 2 v16 (omega arith) h16,
  read_le_array-extend_le 4 v32 (omega arith) h32,
  read_le_array-extend_le 8 v64 (omega arith) h64,
  read_le_array-extend_le 4 f32 (omega arith) k32,
  read_le_array-extend_le 8 f64 (omega arith) k64,
)

signed-map_back :
    (half : ℕ) (zs : List ℤ) → All (Fits half) zs → map (signed half) (map (unsigned half) zs) ≡ zs
signed-map_back half [] h = refl
signed-map_back half (z ∷ zs) h = ap₂ ◌∷◌ (signed-unsigned half z h.0) (signed-map_back half zs h.1)

unsigned-All :
    (half bound : ℕ) (zs : List ℤ)
    → 2 * half ≡ bound
    → All (Fits half) zs
    → All (λ v. v < bound) (map (unsigned half) zs)
unsigned-All half bound [] e h = tt
unsigned-All half bound (z ∷ zs) e h =
    (omega (arith, unsigned-lt half z h.0), unsigned-All half bound zs e h.1)

signed_array_back :
    (n half : ℕ) (zs : List ℤ)
    → 0 < n
    → 2 * half ≡ 256 ^ n
    → All (Fits half) zs
    → Option.map (map (signed half)) (read_le_array n (extend_le n (map (unsigned half) zs)))
      ≡ some zs
signed_array_back n half zs hn e h =
    rw (read_le_array-extend_le n (map (unsigned half) zs) hn (unsigned-All half _ zs e h))
      (ap some (signed-map_back half zs h))

-- An array of signed integers in the range of their type is read back element by element.
pub signed_array_round_trip :
    (now : ℕ) (b : ValueBuilder) (z8 z16 z32 z64 : List ℤ)
    → All (Fits (2 ^ 7)) z8
    → All (Fits (2 ^ 15)) z16
    → All (Fits (2 ^ 31)) z32
    → All (Fits (2 ^ 63)) z64
    → (as_i8_array (int8_array now b z8) ≡ some z8)
      × (as_i16_array (int16_array now b z16) ≡ some z16)
      × (as_i32_array (int32_array now b z32) ≡ some z32)
      × (as_i64_array (int64_array now b z64) ≡ some z64)
unfolding as_i8_array as_i16_array as_i32_array as_i64_array int8_array int16_array int32_array
    int64_array
signed_array_round_trip now b z8 z16 z32 z64 h8 h16 h32 h64 = (
  ap some (signed-map_back (2 ^ 7) z8 h8),
  signed_array_back 2 (2 ^ 15) z16 (omega arith) refl h16,
  signed_array_back 4 (2 ^ 31) z32 (omega arith) refl h32,
  signed_array_back 8 (2 ^ 63) z64 (omega arith) refl h64,
)
