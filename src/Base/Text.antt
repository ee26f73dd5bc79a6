-- ===== src/Base/Text.antt =====
-- A Rust `String` is the list of its UTF-8 bytes; the literals of the sources are ASCII.
use Prim.Native.Nat.{ℕ, ◌+◌, ◌-◌, ◌/◌, ◌%◌}
use Prim.Native.Char.{code}
use Prim.Native.String.{String}
use mathlib.Core.List.{List, [], ◌∷◌}
use cycbox.Base.Tests.{ltb, if◌then◌else◌}

abbrev pub Text : Type 0
Text = List ℕ

abbrev pub text : String → Text
text String.[] = []
text (String.◌∷◌ c s) = code c ∷ text s

-- One digit of `{:X}`.
abbrev pub hex_digit_upper : ℕ → ℕ
hex_digit_upper d = if ltb d 10 then b'0' + d else b'A' + d - 10

-- `{byte:02X}`
abbrev pub hex_byte_upper : ℕ → Text
hex_byte_upper b = hex_digit_upper (b / 16 % 16) ∷ hex_digit_upper (b % 16) ∷ []
