-- ===== src/Message/Metadata.antt =====
-- crates/cycbox-sdk/src/message/mod.rs: lookup and removal of metadata.
use cycbox.Base.{◌≡◌, ◌≢◌, refl, List, [], ◌∷◌, none, arith, bytes_eq→eq}
use cycbox.Base.Text.{Text}
use cycbox.Value.{Value}
use cycbox.Message.{Message, find_value, retain_other, metadata_value, remove_metadata}

find_value-retain_other_self :
    (name : Text) (vs : List Value) → find_value name (retain_other name vs) ≡ none
unfolding find_value retain_other
find_value-retain_other_self name [] = refl
find_value-retain_other_self name (v ∷ vs) = ground (arith, find_value-retain_other_self name vs)

find_value-retain_other_ne :
    (name other : Text) (vs : List Value)
    → other ≢ name
    → find_value other (retain_other name vs) ≡ find_value other vs
unfolding find_value retain_other
find_value-retain_other_ne name other [] h = refl
find_value-retain_other_ne name other (v ∷ vs) h = ground (
  arith,
  bytes_eq→eq v.id name,
  bytes_eq→eq v.id other,
  find_value-retain_other_ne name other vs h,
)

-- After the removal of a name it is gone, and every other name is found as before.
pub metadata_value-remove_metadata :
    (name other : Text) (m : Message)
    → other ≢ name
    → (metadata_value name (remove_metadata name m) ≡ none)
      × (metadata_value other (remove_metadata name m) ≡ metadata_value other m)
unfolding metadata_value remove_metadata
metadata_value-remove_metadata name other m h = (
  find_value-retain_other_self name m.metadata,
  find_value-retain_other_ne name other m.metadata h,
)
