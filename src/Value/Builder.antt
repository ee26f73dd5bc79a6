-- ===== src/Value/Builder.antt =====
-- crates/cycbox-sdk/src/message/value.rs: `ValueBuilder`. `now` is the wall clock in microseconds,
-- which `get_timestamp` reads for a builder whose timestamp was left at 0.
use cycbox.Base.{ℕ, ◌^◌, List, [], ◌∷◌, ◌++◌, map, Bool, ◌==◌, if◌then◌else◌}
use cycbox.Base.Words.{le_bytes}
use cycbox.Base.Int.{ℤ, unsigned}
use cycbox.Base.Text.{Text}
use cycbox.Value.{Value, ValueType, bool_byte}

pub record ValueBuilder : Type 0 where
  pub id : Text
  pub timestamp : ℕ

-- `Value::builder`, which is `ValueBuilder::new`.
unfoldable pub builder : Text → ValueBuilder
builder i = record { id = i; timestamp = 0 }

unfoldable pub with_timestamp : ℕ → ValueBuilder → ValueBuilder
with_timestamp t b = record b { timestamp = t }

unfoldable pub get_timestamp : ℕ → ValueBuilder → ℕ
get_timestamp now b = if b.timestamp == 0 then now else b.timestamp

-- The record that every method of the builder ends in.
abbrev finish : ℕ → ValueBuilder → ValueType → List ℕ → Value
finish now b ty bytes = record {
  id = b.id;
  timestamp = get_timestamp now b;
  value_type = ty;
  value_payload = bytes;
}

-- `for &value in values { payload.extend_from_slice(&value.to_le_bytes()) }`
unfoldable pub extend_le : ℕ → List ℕ → List ℕ
extend_le n [] = []
extend_le n (v ∷ vs) = le_bytes n v ++ extend_le n vs

unfoldable pub boolean : ℕ → ValueBuilder → Bool → Value
boolean now b v = finish now b ValueType.boolean (bool_byte v ∷ [])

unfoldable pub int8 : ℕ → ValueBuilder → ℤ → Value
int8 now b v = finish now b ValueType.int8 (unsigned (2 ^ 7) v ∷ [])

unfoldable pub int16 : ℕ → ValueBuilder → ℤ → Value
int16 now b v = finish now b ValueType.int16 (le_bytes 2 (unsigned (2 ^ 15) v))

unfoldable pub int32 : ℕ → ValueBuilder → ℤ → Value
int32 now b v = finish now b ValueType.int32 (le_bytes 4 (unsigned (2 ^ 31) v))

unfoldable pub int64 : ℕ → ValueBuilder → ℤ → Value
int64 now b v = finish now b ValueType.int64 (le_bytes 8 (unsigned (2 ^ 63) v))

unfoldable pub uint8 : ℕ → ValueBuilder → ℕ → Value
uint8 now b v = finish now b ValueType.uint8 (v ∷ [])

unfoldable pub uint16 : ℕ → ValueBuilder → ℕ → Value
uint16 now b v = finish now b ValueType.uint16 (le_bytes 2 v)

unfoldable pub uint32 : ℕ → ValueBuilder → ℕ → Value
uint32 now b v = finish now b ValueType.uint32 (le_bytes 4 v)

unfoldable pub uint64 : ℕ → ValueBuilder → ℕ → Value
uint64 now b v = finish now b ValueType.uint64 (le_bytes 8 v)

unfoldable pub float32 : ℕ → ValueBuilder → ℕ → Value
float32 now b v = finish now b ValueType.float32 (le_bytes 4 v)

unfoldable pub float64 : ℕ → ValueBuilder → ℕ → Value
float64 now b v = finish now b ValueType.float64 (le_bytes 8 v)

unfoldable pub string : ℕ → ValueBuilder → Text → Value
string now b v = finish now b ValueType.string v

unfoldable pub int8_array : ℕ → ValueBuilder → List ℤ → Value
int8_array now b v = finish now b ValueType.int8_array (map (unsigned (2 ^ 7)) v)

unfoldable pub uint8_array : ℕ → ValueBuilder → List ℕ → Value
uint8_array now b v = finish now b ValueType.uint8_array v

unfoldable pub int16_array : ℕ → ValueBuilder → List ℤ → Value
int16_array now b v = finish now b ValueType.int16_array (extend_le 2 (map (unsigned (2 ^ 15)) v))

unfoldable pub uint16_array : ℕ → ValueBuilder → List ℕ → Value
uint16_array now b v = finish now b ValueType.uint16_array (extend_le 2 v)

unfoldable pub int32_array : ℕ → ValueBuilder → List ℤ → Value
int32_array now b v = finish now b ValueType.int32_array (extend_le 4 (map (unsigned (2 ^ 31)) v))

unfoldable pub uint32_array : ℕ → ValueBuilder → List ℕ → Value
uint32_array now b v = finish now b ValueType.uint32_array (extend_le 4 v)

unfoldable pub int64_array : ℕ → ValueBuilder → List ℤ → Value
int64_array now b v = finish now b ValueType.int64_array (extend_le 8 (map (unsigned (2 ^ 63)) v))

unfoldable pub uint64_array : ℕ → ValueBuilder → List ℕ → Value
uint64_array now b v = finish now b ValueType.uint64_array (extend_le 8 v)

unfoldable pub float32_array : ℕ → ValueBuilder → List ℕ → Value
float32_array now b v = finish now b ValueType.float32_array (extend_le 4 v)

unfoldable pub float64_array : ℕ → ValueBuilder → List ℕ → Value
float64_array now b v = finish now b ValueType.float64_array (extend_le 8 v)
