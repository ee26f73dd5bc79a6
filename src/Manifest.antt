-- ===== src/Manifest.antt =====
-- crates/cycbox-sdk/src/manifest/: the forms that describe a configuration. `F` is the type of
-- `f64`. Manifest/Field.antt has the methods of a field, Manifest/Utils.antt those that find a
-- field in a configuration, Manifest/Groups.antt those of a manifest.
pub mod Field
pub mod Utils
pub mod Groups
use cycbox.Base.{ℕ, List, [], Option, none, some, Bool}
use cycbox.Base.Int.{ℤ}
use cycbox.Base.Text.{Text}

pub data FormValue (F : Type 0) : Type 0 where
  text_value : Text → FormValue F
  integer : ℤ → FormValue F
  float : F → FormValue F
  boolean : Bool → FormValue F

pub data ConditionOperator : Type 0 where
  equal not_equal greater_than greater_than_or_equal : ConditionOperator
  less_than less_than_or_equal contains : ConditionOperator

pub record FormCondition (F : Type 0) : Type 0 where
  pub field_key : Text
  pub operator : ConditionOperator
  pub value : FormValue F

pub record FormFieldOption (F : Type 0) : Type 0 where
  pub label : Text
  pub value : FormValue F
  pub description : Option Text
  pub icon : Option Text

pub data FieldType : Type 0 where
  text_input text_multiline integer_input boolean_input float_input : FieldType
  text_choice_chip integer_choice_chip boolean_choice_chip float_choice_chip : FieldType
  text_dropdown integer_dropdown boolean_dropdown float_dropdown : FieldType
  text_input_dropdown integer_input_dropdown float_input_dropdown : FieldType
  code file_input : FieldType

pub record FormField (F : Type 0) : Type 0 where
  pub key : Text
  pub field_type : FieldType
  pub label : Text
  pub is_required : Bool
  pub description : Option Text
  pub values : Option (List (FormValue F))
  pub options : Option (List (FormFieldOption F))
  pub condition : Option (FormCondition F)
  pub span : ℕ

pub record FormGroup (F : Type 0) : Type 0 where
  pub key : Text
  pub label : Text
  pub fields : List (FormField F)
  pub description : Option Text
  pub condition : Option (FormCondition F)

module _ {F : Type 0} where
  -- `FormFieldOption::new`, `with_description` and `with_icon`.
  unfoldable pub new_option : Text → FormValue F → FormFieldOption F
  new_option l v = record { label = l; value = v; description = none; icon = none }

  unfoldable pub option_with_description : Text → FormValue F → Text → FormFieldOption F
  option_with_description l v d = record { label = l; value = v; description = some d; icon = none }

  unfoldable pub with_icon : Text → FormFieldOption F → FormFieldOption F
  with_icon i o = record o { icon = some i }
