-- ===== src/Manifest/Utils.antt =====
-- crates/cycbox-sdk/src/manifest/form_utils.rs: values in a configuration, a list of groups, by the
-- key of the group and the key of the field. A field of the key is looked for in the first group
-- of its key alone.
pub mod Laws
use mathlib.Core.Option
use mathlib.Core.Option.{get_or}
use cycbox.Base.{
  ℕ, ◌^◌, List, [], ◌∷◌, ◌++◌, Option, none, some, Bool, bytes_eq, if◌then◌else◌, map,
}
use cycbox.Base.Int.{ℤ, unsigned}
use cycbox.Base.Text.{Text, text}
use cycbox.Manifest.{FormValue, FormField, FormGroup}
use cycbox.Manifest.Field

-- `config: &mut [FormGroup]` and `Result<(), String>`: no error is `Ok(())`.
pub record Changed (F : Type 0) : Type 0 where
  pub config : List (FormGroup F)
  pub error : Option Text

abbrev pub not_found : Text → Text → Text
not_found g k = text "Field '" ++ (k ++ (text "' not found in group '" ++ (g ++ text "'")))

abbrev pub listed : Option Text → List Text
listed none = []
listed (some t) = t ∷ []

module _ {F : Type 0} where
  -- `fields.iter().find(|field| field.key == field_key)`
  unfoldable pub find_key : Text → List (FormField F) → Option (FormField F)
  find_key k [] = none
  find_key k (field ∷ rest) = if bytes_eq field.key k then some field else find_key k rest

  unfoldable pub find_group : Text → List (FormGroup F) → Option (FormGroup F)
  find_group k [] = none
  find_group k (group ∷ rest) = if bytes_eq group.key k then some group else find_group k rest

  unfoldable pub find_field : Text → Text → List (FormGroup F) → Option (FormField F)
  unfolding find_key find_group
  find_field g k config = Option.bind (find_group g config) (λ group. find_key k group.fields)

  -- `find_field_mut` with the change to the field that is found.
  unfoldable pub change_key :
      Text → (FormField F → FormField F) → List (FormField F) → Option (List (FormField F))
  change_key k f [] = none
  change_key k f (field ∷ rest) =
      if bytes_eq field.key k
      then some (f field ∷ rest)
      else Option.map (◌∷◌ field) (change_key k f rest)

  unfoldable pub change_field :
      Text → Text → (FormField F → FormField F) → List (FormGroup F) → Option (List (FormGroup F))
  unfolding change_key
  change_field g k f [] = none
  change_field g k f (group ∷ rest) =
      if bytes_eq group.key g
      then Option.map (λ fields. record group { fields = fields } ∷ rest)
          (change_key k f group.fields)
      else Option.map (◌∷◌ group) (change_field g k f rest)

  unfoldable pub change : Text → Text → (FormField F → FormField F) → List (FormGroup F) → Changed F
  unfolding change_field
  change g k f config = elim (change_field g k f config) [
    | some new ↦ record { config = new; error = none }
    | none ↦ record { config = config; error = some (not_found g k) }
  ]

  unfoldable pub get_value : Text → Text → List (FormGroup F) → Option (FormValue F)
  unfolding find_field
  get_value g k config = Option.bind (find_field g k config) Field.get_value

  unfoldable pub get_multiple_values :
      Text → Text → List (FormGroup F) → Option (List (FormValue F))
  unfolding find_field
  get_multiple_values g k config = Option.bind (find_field g k config) Field.get_multiple_values

  unfoldable pub get_text_value : Text → Text → List (FormGroup F) → Option Text
  unfolding find_field
  get_text_value g k config = Option.bind (find_field g k config) Field.get_text_value

  unfoldable pub get_integer_value : Text → Text → List (FormGroup F) → Option ℤ
  unfolding find_field
  get_integer_value g k config = Option.bind (find_field g k config) Field.get_integer_value

  unfoldable pub get_float_value : Text → Text → List (FormGroup F) → Option F
  unfolding find_field
  get_float_value g k config = Option.bind (find_field g k config) Field.get_float_value

  unfoldable pub get_boolean_value : Text → Text → List (FormGroup F) → Option Bool
  unfolding find_field
  get_boolean_value g k config = Option.bind (find_field g k config) Field.get_boolean_value

  unfoldable pub get_multiple_text_values : Text → Text → List (FormGroup F) → List Text
  unfolding find_field
  get_multiple_text_values g k config = elim (find_field g k config) [
    | some field ↦ Field.get_multiple_text_values field
    | none ↦ []
  ]

  unfoldable pub get_text_list_value : Text → Text → List (FormGroup F) → List Text
  unfolding find_field
  get_text_list_value g k config = elim (find_field g k config) [
    | some field ↦ Field.get_multiple_text_values field
    | none ↦ []
  ]

  unfoldable pub get_multiple_integer_values : Text → Text → List (FormGroup F) → List ℤ
  unfolding find_field
  get_multiple_integer_values g k config = elim (find_field g k config) [
    | some field ↦ Field.get_multiple_integer_values field
    | none ↦ []
  ]

  unfoldable pub get_multiple_float_values : Text → Text → List (FormGroup F) → List F
  unfolding find_field
  get_multiple_float_values g k config = elim (find_field g k config) [
    | some field ↦ Field.get_multiple_float_values field
    | none ↦ []
  ]

  unfoldable pub get_multiple_boolean_values : Text → Text → List (FormGroup F) → List Bool
  unfolding find_field
  get_multiple_boolean_values g k config = elim (find_field g k config) [
    | some field ↦ Field.get_multiple_boolean_values field
    | none ↦ []
  ]

  unfoldable pub set_value : Text → Text → FormValue F → List (FormGroup F) → Changed F
  unfolding change
  set_value g k v config = change g k (Field.set_value v) config

  unfoldable pub set_integer_value : Text → Text → ℤ → List (FormGroup F) → Changed F
  unfolding change
  set_integer_value g k v config = change g k (Field.set_integer_value v) config

  unfoldable pub set_float_value : Text → Text → F → List (FormGroup F) → Changed F
  unfolding change
  set_float_value g k v config = change g k (Field.set_float_value v) config

  unfoldable pub set_boolean_value : Text → Text → Bool → List (FormGroup F) → Changed F
  unfolding change
  set_boolean_value g k v config = change g k (Field.set_boolean_value v) config

  unfoldable pub set_text_value : Text → Text → Text → List (FormGroup F) → Changed F
  unfolding change
  set_text_value g k v config = change g k (Field.set_text_value v) config

  unfoldable pub set_multiple_values :
      Text → Text → List (FormValue F) → List (FormGroup F) → Changed F
  unfolding change
  set_multiple_values g k v config = change g k (Field.set_multiple_values v) config

  unfoldable pub append_value : Text → Text → FormValue F → List (FormGroup F) → Changed F
  unfolding change
  append_value g k v config = change g k (Field.append_value v) config

  unfoldable pub append_values : Text → Text → List (FormValue F) → List (FormGroup F) → Changed F
  unfolding change
  append_values g k v config = change g k (Field.append_values v) config

  unfoldable pub get_group_fields : Text → List (FormGroup F) → Option (List (FormField F))
  get_group_fields g config = Option.map (λ group. group.fields) (find_group g config)

  unfoldable pub get_field_keys : Text → List (FormGroup F) → List Text
  unfolding get_group_fields
  get_field_keys g config =
      get_or (Option.map (map (λ field. field.key)) (get_group_fields g config)) []

  unfoldable pub get_group_keys : List (FormGroup F) → List Text
  get_group_keys config = map (λ group. group.key) config

  -- The first of the groups that has an integer in `with_receive_timeout`.
  unfoldable pub first_timeout : List Text → List (FormGroup F) → Option ℤ
  unfolding get_integer_value
  first_timeout [] config = none
  first_timeout (g ∷ gs) config =
      let rest = first_timeout gs config in
      elim (get_integer_value g (text "with_receive_timeout") config) [
        | some ms ↦ some ms
        | none ↦ rest
      ]

  -- In milliseconds; `timeout_ms as u64` of an `i64`.
  unfoldable pub get_receive_timeout : List (FormGroup F) → ℕ
  unfolding first_timeout get_text_value
  get_receive_timeout config =
      let transport_id = get_text_value (text "app") (text "app_transport") config in
      let codec_id = get_text_value (text "app") (text "app_codec") config in
      elim (first_timeout (listed transport_id ++ (listed codec_id ++ text "timeout_codec" ∷ []))
        config) [ some ms ↦ unsigned (2 ^ 63) ms | none ↦ 25 ]
