-- ===== src/Base/Int.antt =====
-- Signed integers over the native numbers, and the two's complement reading of a bit pattern.
use Prim.Native.Nat.{ℕ, suc, ◌+◌, ◌-◌, ◌*◌, ◌≤◌, ◌<◌}
use mathlib.Core.Path.{◌≡◌}
use mathlib.Core.Bool.{Bool}
use native.Mathlib.Omega.{arith}
use cycbox.Base.Tests.{ltb, leb, if◌then◌else◌}

-- `negsuc n` is -(n + 1).
pub data ℤ : Type 0 where
  pos : ℕ → ℤ
  negsuc : ℕ → ℤ

abbrev pub pos_part : ℤ → ℕ
pos_part (pos n) = n
pos_part (negsuc n) = 0

abbrev pub neg_part : ℤ → ℕ
neg_part (pos n) = 0
neg_part (negsuc n) = suc n

-- a - b, as an integer.
abbrev pub sub_ℕ : ℕ → ℕ → ℤ
sub_ℕ a b = if leb b a then pos (a - b) else negsuc (b - a - 1)

infixl 65 ◌+ℤ◌ ◌-ℤ◌
infix 50 ◌≤ℤ◌
abbrev pub ◌+ℤ◌ : ℤ → ℤ → ℤ
a +ℤ b = sub_ℕ (pos_part a + pos_part b) (neg_part a + neg_part b)

abbrev pub ◌-ℤ◌ : ℤ → ℤ → ℤ
a -ℤ b = sub_ℕ (pos_part a + neg_part b) (neg_part a + pos_part b)

abbrev pub ◌≤ℤ◌ : ℤ → ℤ → Type 0
a ≤ℤ b = pos_part a + neg_part b ≤ pos_part b + neg_part a

abbrev pub leb_ℤ : ℤ → ℤ → Bool
leb_ℤ a b = leb (pos_part a + neg_part b) (pos_part b + neg_part a)

abbrev pub min_ℤ : ℤ → ℤ → ℤ
min_ℤ a b = if leb_ℤ a b then a else b

-- `v as iN` for an unsigned pattern `v` of N bits, where `half` is 2 ^ (N - 1).
abbrev pub signed : ℕ → ℕ → ℤ
signed half v = if ltb v half then pos v else negsuc (2 * half - v - 1)

-- `z as uN`.
abbrev pub unsigned : ℕ → ℤ → ℕ
unsigned half (pos n) = n
unsigned half (negsuc n) = 2 * half - n - 1

-- The range of `iN`.
abbrev pub Fits : ℕ → ℤ → Type 0
Fits half z = (pos_part z < half) × (neg_part z ≤ half)

pub signed-unsigned : (half : ℕ) (z : ℤ) → Fits half z → signed half (unsigned half z) ≡ z
signed-unsigned half (pos n) h = ground arith
signed-unsigned half (negsuc n) h = ground arith

pub unsigned-lt : (half : ℕ) (z : ℤ) → Fits half z → unsigned half z < 2 * half
unsigned-lt half (pos n) h = omega arith
unsigned-lt half (negsuc n) h = omega arith

pub unsigned-signed : (half v : ℕ) → v < 2 * half → unsigned half (signed half v) ≡ v
unsigned-signed half v h = ground arith

pub signed-Fits : (half v : ℕ) → v < 2 * half → Fits half (signed half v)
signed-Fits half v h = ground arith
