-- ===== src/Tests/Scripts.antt =====
-- Runs of the readers of crates/cycbox-sdk/src/message/lua_functions.rs.
use cycbox.Base.{◌≡◌, refl, [], ◌∷◌}
use cycbox.Base.Int.{pos}
use cycbox.Message.LuaFunctions.{value, read_u16_be}

big_end_first : read_u16_be (9 ∷ 1 ∷ 2 ∷ []) 2 ≡ value (pos 258)
unfolding read_u16_be
big_end_first = refl
