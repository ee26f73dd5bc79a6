-- ===== src/Tests/Forms.antt =====
-- Runs of the forms of crates/cycbox-sdk/src/manifest/.
use cycbox.Base.{ℕ, ◌≡◌, ◌⊎◌, inl, ap, List, [], ◌∷◌, none, some, length, arith}
use cycbox.Base.Int.{pos}
use cycbox.Base.Text.{Text, text}
use cycbox.Manifest.{FormField, FormGroup, FieldType, integer}
use cycbox.Manifest.Field
use cycbox.Manifest.Utils.{find_field, get_value, set_value, not_found}
use cycbox.Manifest.Utils.Laws.{set_value-Sets}

abbrev field_with : Text → FormField ℕ
field_with k = Field.set_value (integer (pos 40)) (Field.new k FieldType.integer_input)

abbrev one_group : List (FormGroup ℕ)
one_group =
    record {
      key = text "timeout_codec";
      label = [];
      fields = field_with (text "with_receive_timeout") ∷ [];
      description = none;
      condition = none;
    }
    ∷ []

set_value-Sets_example :
    let r =
      set_value (text "timeout_codec") (text "with_receive_timeout") (integer (pos 7)) one_group in
    ((find_field (text "timeout_codec") (text "with_receive_timeout") one_group ≡ none)
      × (r ≡ record {
        config = one_group;
        error = some (not_found (text "timeout_codec") (text "with_receive_timeout"));
      }))
    ⊎ ((r.error ≡ none)
        × (get_value (text "timeout_codec") (text "with_receive_timeout") r.config
            ≡ some (integer (pos 7)))
        × (find_field (text "app") (text "key") r.config
            ≡ find_field (text "app") (text "key") one_group))
set_value-Sets_example =
    set_value-Sets (text "timeout_codec") (text "with_receive_timeout") (text "app") (text "key")
      (integer (pos 7)) one_group (inl (λ e. omega (arith, ap length e)))
