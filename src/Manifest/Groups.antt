-- ===== src/Manifest/Groups.antt =====
-- crates/cycbox-sdk/src/manifest/mod.rs: a manifest collects the forms of the components that a
-- configuration can choose from.
use Prim.Native.String.{String}
use mathlib.Core.Option
use mathlib.Core.Option.{get_or}
use cycbox.Base.{
  ◌-◌, List, [], ◌∷◌, ◌++◌, Option, none, some, Bool, true, false, bytes_eq, leb, ◌==◌, ◌||◌,
  if◌then◌else◌, map, length, drop,
}
use cycbox.Base.Text.{Text, text}
use cycbox.Manifest.{
  FormValue, FormField, FormFieldOption, FormCondition, FormGroup, FieldType, ConditionOperator,
  text_value, boolean, new_option, option_with_description, with_icon,
}
use cycbox.Manifest.Field.{first, as_boolean}

pub data PluginCategory : Type 0 where
  transport codec script formatter transformer message_input run_mode : PluginCategory

-- `J` is the type of JSON values and `M` that of message input groups.
pub record Manifest (F J M : Type 0) : Type 0 where
  pub id : Text
  pub version : Text
  pub name : Text
  pub description : Text
  pub author : Text
  pub config_schema : List (FormGroup F)
  pub configs : List (List (FormGroup F))
  pub message_input_groups : List M
  pub category : PluginCategory
  pub lua_script : Option Text
  pub dashboards : List J

-- `contains` on a slice of texts.
unfoldable pub contains : Text → List Text → Bool
contains t [] = false
contains t (x ∷ xs) = bytes_eq x t || contains t xs

-- `key.ends_with(suffix)`
unfoldable pub ends_with : Text → Text → Bool
ends_with suffix t =
    if leb (length suffix) (length t)
    then bytes_eq (drop (length t - length suffix) t) suffix
    else false

unfoldable pub all_fields : {F : Type 0} → List (FormGroup F) → List (FormField F)
all_fields [] = []
all_fields (group ∷ rest) = group.fields ++ all_fields rest

module _ {F : Type 0} where
  -- The first field that tells whether the component needs a codec.
  unfoldable pub find_requires_codec : List (FormField F) → Option (FormField F)
  unfolding ends_with
  find_requires_codec [] = none
  find_requires_codec (field ∷ rest) =
      if ends_with (text "_requires_codec") field.key then some field else find_requires_codec rest

  unfoldable pub requires_codec : List (FormGroup F) → Bool
  unfolding find_requires_codec first as_boolean all_fields
  requires_codec schema =
      get_or
        (Option.bind
          (Option.bind
            (Option.bind (find_requires_codec (all_fields schema)) (λ field. field.values)) first)
          as_boolean)
        true

  abbrev condition_on : Text → FormValue F → FormCondition F
  condition_on k v = record { field_key = k; operator = ConditionOperator.equal; value = v }

  unfoldable pub requires_codec_field : Text → Text → Bool → FormField F
  requires_codec_field group_id item_id needed = record {
    key = text "app_" ++ (group_id ++ (text "_" ++ (item_id ++ text "_requires_codec")));
    field_type = FieldType.boolean_input;
    label = item_id ++ text " Requires Codec";
    is_required = false;
    description = none;
    values = some (boolean needed ∷ []);
    options = none;
    condition = some (condition_on (text "__hidden__") (boolean true));
    span = 3;
  }

  -- `find_group_mut(schema, "app")`, and the field is pushed if the group is there.
  unfoldable pub push_app_field : FormField F → List (FormGroup F) → List (FormGroup F)
  push_app_field field [] = []
  push_app_field field (group ∷ rest) =
      let others = push_app_field field rest in
      if bytes_eq group.key (text "app")
      then record group { fields = group.fields ++ field ∷ [] } ∷ rest
      else group ∷ others

  unfoldable pub choice_option : List Text → Text → Text → Text → FormFieldOption F
  unfolding contains
  choice_option premium_ids item_id item_name item_description =
      let option = option_with_description item_name (text_value item_id) item_description in
      if contains item_id premium_ids then with_icon (text "premium") option else option

  -- The groups of a component are shown when the component is chosen.
  unfoldable pub conditioned : Text → Text → List (FormGroup F) → List (FormGroup F)
  conditioned group_id item_id schema =
      map {A = FormGroup F}
        (λ group. record group {
          condition = some (condition_on (text "app_" ++ group_id) (text_value item_id));
        })
        schema

  -- The field by which one of the components is chosen; it is hidden when there is one alone.
  unfoldable pub primary_field : Text → Text → List Text → List (FormFieldOption F) → FormField F
  primary_field group_id group_label item_ids options = record {
    key = text "app_" ++ group_id;
    field_type = FieldType.text_dropdown;
    label = group_label;
    is_required = true;
    description = none;
    values = Option.map (λ item_id. text_value item_id ∷ []) (first item_ids);
    options = some options;
    condition =
        if length item_ids == 1
        then some
            (condition_on (text "__not_exists_key__") (text_value (text "__not_exists_value__")))
        else none;
    span = 3;
  }

  abbrev encoding_choice : String → String → FormFieldOption F
  encoding_choice shown held = new_option (text shown) (text_value (text held))

  unfoldable pub encoding_field : Text → FormField F
  encoding_field l = record {
    key = text "app_encoding";
    field_type = FieldType.text_dropdown;
    label = l;
    is_required = true;
    description = none;
    values = some (text_value (text "UTF-8") ∷ []);
    options = some (
        encoding_choice "UTF-8" "UTF-8"
        ∷ encoding_choice "UTF-16LE (Little Endian)" "UTF-16LE"
        ∷ encoding_choice "UTF-16BE (Big Endian)" "UTF-16BE"
        ∷ encoding_choice "GB18030 (Chinese)" "GB18030"
        ∷ encoding_choice "Big5 (Chinese Traditional)" "Big5"
        ∷ encoding_choice "Shift JIS (Japanese)" "Shift_JIS"
        ∷ encoding_choice "EUC-JP (Japanese)" "EUC-JP"
        ∷ encoding_choice "EUC-KR (Korean)" "EUC-KR"
        ∷ encoding_choice "ISO-8859-1 (Latin-1)" "ISO-8859-1"
        ∷ []);
    condition = none;
    span = 3;
  }

module _ {F J M : Type 0} where
  -- The loop over the components, on the schema of the manifest.
  unfoldable pub add_items : Text → List (Manifest F J M) → List (FormGroup F) → List (FormGroup F)
  unfolding push_app_field requires_codec requires_codec_field conditioned
  add_items group_id [] schema = schema
  add_items group_id (item ∷ items) schema =
      let groups = conditioned group_id item.id item.config_schema in
      let field = requires_codec_field group_id item.id (requires_codec groups) in
      add_items group_id items (push_app_field field schema ++ groups)

  unfoldable pub choices : List Text → List (Manifest F J M) → List (FormFieldOption F)
  unfolding choice_option
  choices premium_ids items =
      map (λ item. choice_option premium_ids item.id item.name item.description) items

  unfoldable pub with_groups :
      Text → Text → List (Manifest F J M) → List Text → Manifest F J M → Manifest F J M
  unfolding add_items choices primary_field push_app_field
  with_groups group_id group_label [] premium_ids manifest = manifest
  with_groups group_id group_label (item ∷ items) premium_ids manifest =
      let all = item ∷ items in
      let field =
        primary_field group_id group_label (map (λ i. i.id) all) (choices premium_ids all) in
      record manifest {
        config_schema = push_app_field field (add_items group_id all manifest.config_schema);
      }

  unfoldable pub with_encoding_field : Text → Manifest F J M → Manifest F J M
  unfolding push_app_field encoding_field
  with_encoding_field field_label manifest = record manifest {
    config_schema = push_app_field (encoding_field field_label) manifest.config_schema;
  }
