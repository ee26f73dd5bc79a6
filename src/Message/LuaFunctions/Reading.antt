-- ===== src/Message/LuaFunctions/Reading.antt =====
-- crates/cycbox-sdk/src/message/lua_functions.rs: what the readers read.
use mathlib.Core.List.{reverse, reverse-reverse}
use cycbox.Base.{
  ℕ, ◌+◌, ◌-◌, ◌*◌, ◌^◌, ◌<◌, ◌≡◌, refl, ap, ◌∙◌, List, ◌++◌, false, ◌||◌, ltb, arith, length, take,
  drop, length-append, take-append_left, drop-append_left,
}
use cycbox.Base.Int.{ℤ, signed, unsigned, Fits, signed-unsigned, unsigned-lt}
use cycbox.Base.Words.{le_bytes, length-le_bytes, le_value, be_value, le_value-le_bytes}
use cycbox.Base.Text.{Text}
use cycbox.Message.LuaFunctions.{
  ReadResult, value, read_at, read_i8, read_i16_be, read_i16_le, read_i32_be, read_i32_le,
}

read_at-found :
    {A : Type 0} (name : Text) (width : ℕ) (read : List ℕ → A) (pre bs post : List ℕ)
    → 0 < width
    → length bs ≡ width
    → read_at name width read (pre ++ (bs ++ post)) (length pre + 1) ≡ value (read bs)
unfolding read_at
read_at-found name width read pre bs post hw len =
    let start : length pre + 1 - 1 ≡ length pre = omega arith in
    let inside : (ltb (length pre + 1) 1
          || ltb (length (pre ++ (bs ++ post))) (length pre + 1 + (width - 1)))
        ≡ false =
      ground (arith, length-append pre (bs ++ post), length-append bs post) in
    let found : take width (drop (length pre + 1 - 1) (pre ++ (bs ++ post))) ≡ bs =
      ap (λ n. take width (drop n (pre ++ (bs ++ post)))) start
      ∙ ap (take width) (drop-append_left (length pre) pre (bs ++ post) refl)
      ∙ take-append_left width bs post len in
    rw inside (ap (λ x. value (read x)) found)

-- `read` finds `x` in the bytes `bs` that stand between `pre` and `post`.
abbrev pub ReadsBack :
    {A : Type 0} → List ℕ → List ℕ → (List ℕ → ℕ → ReadResult A) → List ℕ → A → Type 0
ReadsBack pre post read bs x = read (pre ++ (bs ++ post)) (length pre + 1) ≡ value x

found_le :
    {A : Type 0} (name : Text) (width : ℕ) (as_value : ℕ → A) (v : ℕ) (pre post : List ℕ)
    → 0 < width
    → v < 256 ^ width
    → ReadsBack pre post
        (read_at name width (λ bs. as_value (le_value bs)))
        (le_bytes width v)
        (as_value v)
found_le name width as_value v pre post hw h =
    read_at-found name width (λ bs. as_value (le_value bs)) pre (le_bytes width v) post hw
      (length-le_bytes width v)
    ∙ ap (λ x. value (as_value x)) (le_value-le_bytes width v h)

found_be :
    {A : Type 0} (name : Text) (width : ℕ) (as_value : ℕ → A) (v : ℕ) (pre post : List ℕ)
    → 0 < width
    → length (reverse (le_bytes width v)) ≡ width
    → v < 256 ^ width
    → ReadsBack pre post
        (read_at name width (λ bs. as_value (be_value bs)))
        (reverse (le_bytes width v))
        (as_value v)
unfolding be_value
found_be name width as_value v pre post hw len h =
    read_at-found name width (λ bs. as_value (be_value bs)) pre (reverse (le_bytes width v)) post hw
      len
    ∙ ap (λ x. value (as_value (le_value x))) (reverse-reverse (le_bytes width v))
    ∙ ap (λ x. value (as_value x)) (le_value-le_bytes width v h)

found_signed_le :
    (name : Text) (width half : ℕ) (z : ℤ) (pre post : List ℕ)
    → 0 < width
    → 2 * half ≡ 256 ^ width
    → Fits half z
    → ReadsBack pre post
        (read_at name width (λ bs. signed half (le_value bs)))
        (le_bytes width (unsigned half z))
        z
found_signed_le name width half z pre post hw e h =
    found_le name width (signed half) (unsigned half z) pre post hw
      (omega (arith, e, unsigned-lt half z h))
    ∙ ap value (signed-unsigned half z h)

found_signed_be :
    (name : Text) (width half : ℕ) (z : ℤ) (pre post : List ℕ)
    → 0 < width
    → length (reverse (le_bytes width (unsigned half z))) ≡ width
    → 2 * half ≡ 256 ^ width
    → Fits half z
    → ReadsBack pre post
        (read_at name width (λ bs. signed half (be_value bs)))
        (reverse (le_bytes width (unsigned half z)))
        z
found_signed_be name width half z pre post hw len e h =
    found_be name width (signed half) (unsigned half z) pre post hw len
      (omega (arith, e, unsigned-lt half z h))
    ∙ ap value (signed-unsigned half z h)

-- Signed integers in the range of their type are read from their bytes in two's complement, in
-- either order, wherever these stand in the data.
pub signed_found :
    (z8 z16 z32 : ℤ) (pre post : List ℕ)
    → Fits (2 ^ 7) z8
    → Fits (2 ^ 15) z16
    → Fits (2 ^ 31) z32
    → ReadsBack pre post read_i8 (le_bytes 1 (unsigned (2 ^ 7) z8)) z8
      × ReadsBack pre post read_i16_le (le_bytes 2 (unsigned (2 ^ 15) z16)) z16
      × ReadsBack pre post read_i16_be (reverse (le_bytes 2 (unsigned (2 ^ 15) z16))) z16
      × ReadsBack pre post read_i32_le (le_bytes 4 (unsigned (2 ^ 31) z32)) z32
      × ReadsBack pre post read_i32_be (reverse (le_bytes 4 (unsigned (2 ^ 31) z32))) z32
unfolding le_bytes read_i8 read_i16_le read_i16_be read_i32_le read_i32_be
signed_found z8 z16 z32 pre post h8 h16 h32 = (
  found_signed_le _ 1 (2 ^ 7) z8 pre post (omega arith) refl h8,
  found_signed_le _ 2 (2 ^ 15) z16 pre post (omega arith) refl h16,
  found_signed_be _ 2 (2 ^ 15) z16 pre post (omega arith) refl refl h16,
  found_signed_le _ 4 (2 ^ 31) z32 pre post (omega arith) refl h32,
  found_signed_be _ 4 (2 ^ 31) z32 pre post (omega arith) refl refl h32,
)
