-- ===== src/Value.antt =====
-- crates/cycbox-sdk/src/message/value.rs: a typed value is an id, a timestamp and a payload of
-- little-endian bytes. Here are the data type and the constructors and readers of `Value`; the
-- methods of `ValueBuilder` stand in Value/Builder.antt. A float is its IEEE bit pattern, which is
-- what `to_le_bytes` and `from_le_bytes` copy.
pub mod Builder
pub mod Scalars
pub mod Arrays
pub mod Shape
use cycbox.Base.{
  ℕ, zero, suc, ◌+◌, ◌*◌, ◌%◌, ◌^◌, List, [], ◌∷◌, map, Option, some, none, Bool, true, false, not,
  ltb, leb, ◌==◌, if◌then◌else◌, length, take, drop,
}
use cycbox.Base.Words.{le_bytes, le_value}
use cycbox.Base.Int.{ℤ, signed}
use cycbox.Base.Text.{Text}
use mathlib.Core.Option

pub data ValueType : Type 0 where
  boolean : ValueType
  int8 int16 int32 int64 : ValueType
  uint8 uint16 uint32 uint64 : ValueType
  float32 float64 : ValueType
  int8_array uint8_array int16_array uint16_array int32_array uint32_array : ValueType
  int64_array uint64_array float32_array float64_array : ValueType
  string : ValueType

pub record Value : Type 0 where
  pub id : Text
  pub timestamp : ℕ
  pub value_type : ValueType
  pub value_payload : List ℕ

-- A boolean takes one byte.
abbrev pub bool_byte : Bool → ℕ
bool_byte b = if b then 1 else 0

unfoldable pub new_boolean : Text → Bool → Value
new_boolean i v = record {
  id = i;
  timestamp = 0;
  value_type = boolean;
  value_payload = bool_byte v ∷ [];
}

unfoldable pub new_u8_array : Text → List ℕ → Value
new_u8_array i vs = record { id = i; timestamp = 0; value_type = uint8_array; value_payload = vs }

unfoldable pub new_string : Text → Text → Value
new_string i s = record { id = i; timestamp = 0; value_type = string; value_payload = s }

unfoldable pub new_u64 : Text → ℕ → Value
new_u64 i v = record { id = i; timestamp = 0; value_type = uint64; value_payload = le_bytes 8 v }

-- `payload[0]`, guarded by `!payload.is_empty()`.
abbrev pub first_byte : List ℕ → Option ℕ
first_byte [] = none
first_byte (b ∷ bs) = some b

-- `uN::from_le_bytes([payload[0], …])`, guarded by `payload.len() >= n`.
abbrev pub read_le : ℕ → List ℕ → Option ℕ
read_le n bs = if leb n (length bs) then some (le_value (take n bs)) else none

unfoldable pub as_bool : Value → Option Bool
as_bool v = Option.map (λ b. not (b == 0)) (first_byte v.value_payload)

unfoldable pub as_i8 : Value → Option ℤ
as_i8 v = Option.map (signed (2 ^ 7)) (first_byte v.value_payload)

unfoldable pub as_i16 : Value → Option ℤ
as_i16 v = Option.map (signed (2 ^ 15)) (read_le 2 v.value_payload)

unfoldable pub as_i32 : Value → Option ℤ
as_i32 v = Option.map (signed (2 ^ 31)) (read_le 4 v.value_payload)

unfoldable pub as_i64 : Value → Option ℤ
as_i64 v = Option.map (signed (2 ^ 63)) (read_le 8 v.value_payload)

unfoldable pub as_u8 : Value → Option ℕ
as_u8 v = first_byte v.value_payload

unfoldable pub as_u16 : Value → Option ℕ
as_u16 v = read_le 2 v.value_payload

unfoldable pub as_u32 : Value → Option ℕ
as_u32 v = read_le 4 v.value_payload

unfoldable pub as_u64 : Value → Option ℕ
as_u64 v = read_le 8 v.value_payload

unfoldable pub as_f32 : Value → Option ℕ
as_f32 v = read_le 4 v.value_payload

unfoldable pub as_f64 : Value → Option ℕ
as_f64 v = read_le 8 v.value_payload

-- `from_utf8_lossy` gives a well-formed text back unchanged; what it makes of other bytes is the
-- standard library's, the parameter.
unfoldable pub as_string : (List ℕ → Text) → Value → Option Text
as_string lossy v = some (lossy v.value_payload)

unfoldable pub as_bytes : Value → List ℕ
as_bytes v = v.value_payload

unfoldable pub as_i8_array : Value → Option (List ℤ)
as_i8_array v = some (map (signed (2 ^ 7)) v.value_payload)

unfoldable pub as_u8_array : Value → Option (List ℕ)
as_u8_array v = some v.value_payload

-- `chunks_exact(n)` on at most `fuel` chunks; the length of the slice is enough fuel, since `n` is
-- positive where it is called.
pub chunks_exact : ℕ → ℕ → List ℕ → List (List ℕ)
chunks_exact zero n bs = []
chunks_exact (suc fuel) n bs =
    let rest = chunks_exact fuel n (drop n bs) in if leb n (length bs) then take n bs ∷ rest else []

-- The arrays of `n`-byte elements, guarded by `payload.len().is_multiple_of(n)`.
unfoldable pub read_le_array : ℕ → List ℕ → Option (List ℕ)
unfolding chunks_exact
read_le_array n bs =
    if length bs % n == 0 then some (map le_value (chunks_exact (length bs) n bs)) else none

unfoldable pub as_i16_array : Value → Option (List ℤ)
unfolding read_le_array
as_i16_array v = Option.map (map (signed (2 ^ 15))) (read_le_array 2 v.value_payload)

unfoldable pub as_u16_array : Value → Option (List ℕ)
as_u16_array v = read_le_array 2 v.value_payload

unfoldable pub as_i32_array : Value → Option (List ℤ)
as_i32_array v = Option.map (map (signed (2 ^ 31))) (read_le_array 4 v.value_payload)

unfoldable pub as_u32_array : Value → Option (List ℕ)
as_u32_array v = read_le_array 4 v.value_payload

unfoldable pub as_i64_array : Value → Option (List ℤ)
as_i64_array v = Option.map (map (signed (2 ^ 63))) (read_le_array 8 v.value_payload)

unfoldable pub as_u64_array : Value → Option (List ℕ)
as_u64_array v = read_le_array 8 v.value_payload

unfoldable pub as_f32_array : Value → Option (List ℕ)
as_f32_array v = read_le_array 4 v.value_payload

unfoldable pub as_f64_array : Value → Option (List ℕ)
as_f64_array v = read_le_array 8 v.value_payload
