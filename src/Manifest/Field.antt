-- ===== src/Manifest/Field.antt =====
-- crates/cycbox-sdk/src/manifest/form_field.rs: the methods of a field. Methods that do the same
-- under several names stand once for each name, as in the source.
use mathlib.Core.Option
use cycbox.Base.{
  ℕ, List, [], ◌∷◌, ◌++◌, Option, none, some, Bool, true, ◌==◌, if◌then◌else◌, map, min, max,
}
use cycbox.Base.Int.{ℤ}
use cycbox.Base.Text.{Text, text}
use cycbox.Manifest.{
  FormValue, FormField, FormFieldOption, FormCondition, FieldType, text_value, integer, float,
  boolean,
}

-- The value that a constructor holds.
module _ {F : Type 0} where
  unfoldable pub as_text : FormValue F → Option Text
  as_text (text_value t) = some t
  as_text _ = none

  unfoldable pub as_integer : FormValue F → Option ℤ
  as_integer (integer n) = some n
  as_integer _ = none

  unfoldable pub as_float : FormValue F → Option F
  as_float (float x) = some x
  as_float _ = none

  unfoldable pub as_boolean : FormValue F → Option Bool
  as_boolean (boolean b) = some b
  as_boolean _ = none

-- `values.first()`
unfoldable pub first : {A : Type 0} → List A → Option A
first [] = none
first (x ∷ xs) = some x

-- `iter().filter_map(f).collect()`
unfoldable pub filter_map : {A B : Type 0} → (A → Option B) → List A → List B
filter_map f [] = []
filter_map f (x ∷ xs) = let rest = filter_map f xs in elim (f x) [ some y ↦ y ∷ rest | none ↦ rest ]

module _ {F : Type 0} where
  unfoldable pub get_value : FormField F → Option (FormValue F)
  unfolding first
  get_value field = Option.bind field.values first

  unfoldable pub set_value : FormValue F → FormField F → FormField F
  set_value v field = record field { values = some (v ∷ []) }

  unfoldable pub clear_value : FormField F → FormField F
  clear_value field = record field { values = none }

  unfoldable pub get_values : FormField F → Option (List (FormValue F))
  get_values field = field.values

  unfoldable pub get_multiple_values : FormField F → Option (List (FormValue F))
  get_multiple_values field = field.values

  unfoldable pub set_multiple_values : List (FormValue F) → FormField F → FormField F
  set_multiple_values vs field = record field { values = some vs }

  unfoldable pub append_value : FormValue F → FormField F → FormField F
  append_value v field = record field {
    values = elim field.values [ some vs ↦ some (vs ++ v ∷ []) | none ↦ some (v ∷ []) ];
  }

  unfoldable pub append_values : List (FormValue F) → FormField F → FormField F
  append_values new field = record field {
    values = elim field.values [ some vs ↦ some (vs ++ new) | none ↦ some new ];
  }

  unfoldable pub clear_multiple_values : FormField F → FormField F
  clear_multiple_values field = record field { values = none }

  unfoldable pub get_text_value : FormField F → Option Text
  unfolding first as_text
  get_text_value field = Option.bind (Option.bind field.values first) as_text

  unfoldable pub set_text_value : Text → FormField F → FormField F
  set_text_value v field = record field { values = some (text_value v ∷ []) }

  unfoldable pub get_multiple_text_values : FormField F → List Text
  unfolding filter_map as_text
  get_multiple_text_values field = elim field.values [ some vs ↦ filter_map as_text vs | none ↦ [] ]

  unfoldable pub get_integer_value : FormField F → Option ℤ
  unfolding first as_integer
  get_integer_value field = Option.bind (Option.bind field.values first) as_integer

  unfoldable pub set_integer_value : ℤ → FormField F → FormField F
  set_integer_value v field = record field { values = some (integer v ∷ []) }

  unfoldable pub get_multiple_integer_values : FormField F → List ℤ
  unfolding filter_map as_integer
  get_multiple_integer_values field = elim field.values [
    | some vs ↦ filter_map as_integer vs
    | none ↦ []
  ]

  unfoldable pub get_float_value : FormField F → Option F
  unfolding first as_float
  get_float_value field = Option.bind (Option.bind field.values first) as_float

  unfoldable pub set_float_value : F → FormField F → FormField F
  set_float_value v field = record field { values = some (float v ∷ []) }

  unfoldable pub get_multiple_float_values : FormField F → List F
  unfolding filter_map as_float
  get_multiple_float_values field = elim field.values [
    | some vs ↦ filter_map as_float vs
    | none ↦ []
  ]

  unfoldable pub get_boolean_value : FormField F → Option Bool
  unfolding first as_boolean
  get_boolean_value field = Option.bind (Option.bind field.values first) as_boolean

  unfoldable pub set_boolean_value : Bool → FormField F → FormField F
  set_boolean_value v field = record field { values = some (boolean v ∷ []) }

  unfoldable pub get_multiple_boolean_values : FormField F → List Bool
  unfolding filter_map as_boolean
  get_multiple_boolean_values field = elim field.values [
    | some vs ↦ filter_map as_boolean vs
    | none ↦ []
  ]

-- `key.replace('_', "-")`
unfoldable pub hyphens : Text → Text
hyphens t = map (λ c. if c == b'_' then b'-' else c) t

unfoldable pub key_to_l10n_key : Text → Text → Text
unfolding hyphens
key_to_l10n_key key suffix = hyphens key ++ b'-' ∷ suffix

module _ {F : Type 0} where
  unfoldable pub new : Text → FieldType → FormField F
  unfolding key_to_l10n_key
  new k ty = record {
    key = k;
    field_type = ty;
    label = key_to_l10n_key k (text "label");
    is_required = true;
    description = none;
    values = none;
    options = none;
    condition = none;
    span = 12;
  }

  unfoldable pub with_description : Text → FieldType → FormField F
  unfolding key_to_l10n_key
  with_description k ty = record {
    key = k;
    field_type = ty;
    label = key_to_l10n_key k (text "label");
    is_required = true;
    description = some (key_to_l10n_key k (text "description"));
    values = none;
    options = none;
    condition = none;
    span = 12;
  }

  unfoldable pub with_options : List (FormFieldOption F) → FormField F → FormField F
  with_options os field = record field { options = some os }

  unfoldable pub required : Bool → FormField F → FormField F
  required on field = record field { is_required = on }

  unfoldable pub with_condition : FormCondition F → FormField F → FormField F
  with_condition c field = record field { condition = some c }

  unfoldable pub with_default_value : FormValue F → FormField F → FormField F
  with_default_value v field = record field { values = some (v ∷ []) }

  unfoldable pub with_custom_label : Text → FormField F → FormField F
  with_custom_label l field = record field { label = l }

  -- `span.clamp(1, 12)`
  unfoldable pub with_span : ℕ → FormField F → FormField F
  with_span n field = record field { span = min 12 (max 1 n) }
