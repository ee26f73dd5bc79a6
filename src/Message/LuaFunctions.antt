-- ===== src/Message/LuaFunctions.antt =====
-- crates/cycbox-sdk/src/message/lua_functions.rs: the readers of binary data that scripts call.
-- Offsets count from 1; a script's integers are below 2 ^ 63, so that no sum with them overflows.
pub mod Reading
use cycbox.Base.{
  ℕ, ◌+◌, ◌-◌, ◌^◌, List, [], ◌∷◌, Bool, true, false, ◌||◌, ltb, if◌then◌else◌, length, take, drop,
}
use cycbox.Base.Int.{ℤ, pos, signed}
use cycbox.Base.Words.{le_value, be_value}
use cycbox.Base.Text.{Text, text}

-- What the text of an error is made of: the reader, the offset, the last valid offset and the
-- length of the data.
pub record OutOfRange : Type 0 where
  pub reader : Text
  pub offset : ℕ
  pub last_offset : ℕ
  pub data_length : ℕ

pub data ReadResult (A : Type 0) : Type 0 where
  value : A → ReadResult A
  out_of_range : OutOfRange → ReadResult A

-- The `width` bytes at `offset` of the data, as `read` reads them.
unfoldable pub read_at : {A : Type 0} → Text → ℕ → (List ℕ → A) → List ℕ → ℕ → ReadResult A
read_at name width read bytes offset =
    if ltb offset 1 || ltb (length bytes) (offset + (width - 1))
    then out_of_range (record {
      reader = name;
      offset = offset;
      last_offset = length bytes - (width - 1);
      data_length = length bytes;
    })
    else value (read (take width (drop (offset - 1) bytes)))

unfoldable pub read_u8 : List ℕ → ℕ → ReadResult ℤ
unfolding read_at be_value
read_u8 bytes offset = read_at (text "read_u8") 1 (λ bs. pos (le_value bs)) bytes offset

unfoldable pub read_i8 : List ℕ → ℕ → ReadResult ℤ
unfolding read_at be_value
read_i8 bytes offset = read_at (text "read_i8") 1 (λ bs. signed (2 ^ 7) (le_value bs)) bytes offset

unfoldable pub read_u16_be : List ℕ → ℕ → ReadResult ℤ
unfolding read_at be_value
read_u16_be bytes offset = read_at (text "read_u16_be") 2 (λ bs. pos (be_value bs)) bytes offset

unfoldable pub read_u16_le : List ℕ → ℕ → ReadResult ℤ
unfolding read_at be_value
read_u16_le bytes offset = read_at (text "read_u16_le") 2 (λ bs. pos (le_value bs)) bytes offset

unfoldable pub read_i16_be : List ℕ → ℕ → ReadResult ℤ
unfolding read_at be_value
read_i16_be bytes offset =
    read_at (text "read_i16_be") 2 (λ bs. signed (2 ^ 15) (be_value bs)) bytes offset

unfoldable pub read_i16_le : List ℕ → ℕ → ReadResult ℤ
unfolding read_at be_value
read_i16_le bytes offset =
    read_at (text "read_i16_le") 2 (λ bs. signed (2 ^ 15) (le_value bs)) bytes offset

unfoldable pub read_u32_be : List ℕ → ℕ → ReadResult ℤ
unfolding read_at be_value
read_u32_be bytes offset = read_at (text "read_u32_be") 4 (λ bs. pos (be_value bs)) bytes offset

unfoldable pub read_u32_le : List ℕ → ℕ → ReadResult ℤ
unfolding read_at be_value
read_u32_le bytes offset = read_at (text "read_u32_le") 4 (λ bs. pos (le_value bs)) bytes offset

unfoldable pub read_i32_be : List ℕ → ℕ → ReadResult ℤ
unfolding read_at be_value
read_i32_be bytes offset =
    read_at (text "read_i32_be") 4 (λ bs. signed (2 ^ 31) (be_value bs)) bytes offset

unfoldable pub read_i32_le : List ℕ → ℕ → ReadResult ℤ
unfolding read_at be_value
read_i32_le bytes offset =
    read_at (text "read_i32_le") 4 (λ bs. signed (2 ^ 31) (le_value bs)) bytes offset

-- Floats are their bit patterns.
unfoldable pub read_float_be : List ℕ → ℕ → ReadResult ℕ
unfolding read_at be_value
read_float_be bytes offset = read_at (text "read_float_be") 4 (λ bs. be_value bs) bytes offset

unfoldable pub read_float_le : List ℕ → ℕ → ReadResult ℕ
unfolding read_at be_value
read_float_le bytes offset = read_at (text "read_float_le") 4 (λ bs. le_value bs) bytes offset

unfoldable pub read_double_be : List ℕ → ℕ → ReadResult ℕ
unfolding read_at be_value
read_double_be bytes offset = read_at (text "read_double_be") 8 (λ bs. be_value bs) bytes offset

unfoldable pub read_double_le : List ℕ → ℕ → ReadResult ℕ
unfolding read_at be_value
read_double_le bytes offset = read_at (text "read_double_le") 8 (λ bs. le_value bs) bytes offset
