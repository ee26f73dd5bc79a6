-- ===== src/Manifest/Utils/Laws.antt =====
-- crates/cycbox-sdk/src/manifest/form_utils.rs: changing one field of a configuration.
use mathlib.Core.Option
use cycbox.Base.{
  ◌≡◌, ◌≢◌, ◌⊎◌, inl, inr, refl, sym, ap, ◌∙◌, List, [], ◌∷◌, none, some, true, false, Bool-cases,
  bytes_eq, bytes_eq→eq,
}
use cycbox.Base.Text.{Text}
use cycbox.Manifest.{FormValue, FormField, FormGroup}
use cycbox.Manifest.Field
use cycbox.Manifest.Utils.{
  find_key, find_group, find_field, change_key, change_field, change, not_found, get_value,
  set_value,
}

-- Two keys that are found equal cannot be apart.
apart : (a k k' : Text) → bytes_eq a k ≡ true → k' ≢ k → bytes_eq a k' ≡ false
apart a k k' e h = elim (Bool-cases (bytes_eq a k')) [
  | inl same ↦ absurd (h (sym (bytes_eq→eq a k' same) ∙ bytes_eq→eq a k e))
  | inr other ↦ other
]

module _ {F : Type 0} where
  find_key_here :
      (k : Text) (field : FormField F) (rest : List (FormField F))
      → bytes_eq field.key k ≡ true
      → find_key k (field ∷ rest) ≡ some field
  unfolding find_key
  find_key_here k field rest e = rw e

  find_key_later :
      (k : Text) (field : FormField F) (rest : List (FormField F))
      → bytes_eq field.key k ≡ false
      → find_key k (field ∷ rest) ≡ find_key k rest
  unfolding find_key
  find_key_later k field rest e = rw e

  -- Only what the rest finds can differ.
  find_key-cons :
      (k : Text) (field : FormField F) (rest rest' : List (FormField F))
      → find_key k rest ≡ find_key k rest'
      → find_key k (field ∷ rest) ≡ find_key k (field ∷ rest')
  unfolding find_key
  find_key-cons k field rest rest' e = rw e

  find_field_here :
      (g k : Text) (group : FormGroup F) (rest : List (FormGroup F))
      → bytes_eq group.key g ≡ true
      → find_field g k (group ∷ rest) ≡ find_key k group.fields
  unfolding find_field find_group Option.bind
  find_field_here g k group rest e = rw e

  find_field_later :
      (g k : Text) (group : FormGroup F) (rest : List (FormGroup F))
      → bytes_eq group.key g ≡ false
      → find_field g k (group ∷ rest) ≡ find_field g k rest
  unfolding find_field find_group
  find_field_later g k group rest e = rw e

module _ {F : Type 0} (f : FormField F → FormField F) where
  -- The field of the key is changed by `f` and the others are kept, or there is none.
  abbrev KeyCases : Text → List (FormField F) → Type 0
  KeyCases k fields =
      ((find_key k fields ≡ none) × (change_key k f fields ≡ none))
      ⊎ ((field : FormField F) × (new : List (FormField F)) × (find_key k fields ≡ some field)
          × (change_key k f fields ≡ some new)
          × (find_key k new ≡ some (f field))
          × ((k' : Text) → k' ≢ k → find_key k' new ≡ find_key k' fields))

  change_key_here :
      (k : Text) (field : FormField F) (rest : List (FormField F))
      → bytes_eq field.key k ≡ true
      → change_key k f (field ∷ rest) ≡ some (f field ∷ rest)
  unfolding change_key
  change_key_here k field rest e = rw e

  change_key_later :
      (k : Text) (field : FormField F) (rest : List (FormField F))
      → bytes_eq field.key k ≡ false
      → change_key k f (field ∷ rest) ≡ Option.map (◌∷◌ field) (change_key k f rest)
  unfolding change_key
  change_key_later k field rest e = rw e

  change_key-cases :
      ((field : FormField F) → (f field).key ≡ field.key)
      → (k : Text) (fields : List (FormField F)) → KeyCases k fields
  change_key-cases keeps k [] = inl (unfold find_key in refl, unfold change_key in refl)
  change_key-cases keeps k (field ∷ rest) = elim (Bool-cases (bytes_eq field.key k)) [
    | inl here ↦
        let moved : (k' : Text) → bytes_eq (f field).key k' ≡ bytes_eq field.key k' =
          λ k'. ap (λ a. bytes_eq a k') (keeps field) in
        inr (
          field,
          f field ∷ rest,
          find_key_here k field rest here,
          change_key_here k field rest here,
          find_key_here k (f field) rest (moved k ∙ here),
          λ k' h.
              let away = apart field.key k k' here h in
              find_key_later k' (f field) rest (moved k' ∙ away)
              ∙ sym (find_key_later k' field rest away),
        )
    | inr later ↦ elim (change_key-cases keeps k rest) [
      | inl (absent, unchanged) ↦ inl (
        find_key_later k field rest later ∙ absent,
        change_key_later k field rest later ∙ ap (Option.map (◌∷◌ field)) unchanged,
      )
      | inr (found, new, at, changed, is, others) ↦ inr (
        found,
        field ∷ new,
        find_key_later k field rest later ∙ at,
        change_key_later k field rest later ∙ ap (Option.map (◌∷◌ field)) changed,
        find_key_later k field new later ∙ is,
        λ k' h. find_key-cons k' field new rest (others k' h),
      )
    ]
  ]

  -- The same for a configuration.
  abbrev FieldCases : Text → Text → List (FormGroup F) → Type 0
  FieldCases g k config =
      ((find_field g k config ≡ none) × (change_field g k f config ≡ none))
      ⊎ ((field : FormField F) × (new : List (FormGroup F)) × (find_field g k config ≡ some field)
          × (change_field g k f config ≡ some new)
          × (find_field g k new ≡ some (f field))
          × ((g' k' : Text) → (g' ≢ g) ⊎ (k' ≢ k) → find_field g' k' new ≡ find_field g' k' config))

  change_field_here :
      (g k : Text) (group : FormGroup F) (rest : List (FormGroup F))
      → bytes_eq group.key g ≡ true
      → change_field g k f (group ∷ rest)
        ≡ Option.map
            (λ fields. record group { fields = fields } ∷ rest)
            (change_key k f group.fields)
  unfolding change_field
  change_field_here g k group rest e = rw e

  change_field_later :
      (g k : Text) (group : FormGroup F) (rest : List (FormGroup F))
      → bytes_eq group.key g ≡ false
      → change_field g k f (group ∷ rest) ≡ Option.map (◌∷◌ group) (change_field g k f rest)
  unfolding change_field
  change_field_later g k group rest e = rw e

  other_key :
      (g g' k k' : Text) (group : FormGroup F)
      → bytes_eq group.key g ≡ true
      → bytes_eq group.key g' ≡ true
      → (g' ≢ g) ⊎ (k' ≢ k)
      → k' ≢ k
  other_key g g' k k' group e e' (inl h) =
      absurd (h (sym (bytes_eq→eq group.key g' e') ∙ bytes_eq→eq group.key g e))
  other_key g g' k k' group e e' (inr h) = h

  find_field-cons :
      (g k : Text) (group : FormGroup F) (rest rest' : List (FormGroup F))
      → find_field g k rest ≡ find_field g k rest'
      → find_field g k (group ∷ rest) ≡ find_field g k (group ∷ rest')
  find_field-cons g k group rest rest' e = elim (Bool-cases (bytes_eq group.key g)) [
    | inl here ↦ find_field_here g k group rest here ∙ sym (find_field_here g k group rest' here)
    | inr later ↦
        find_field_later g k group rest later ∙ e ∙ sym (find_field_later g k group rest' later)
  ]

  change_field-cases :
      ((field : FormField F) → (f field).key ≡ field.key)
      → (g k : Text) (config : List (FormGroup F)) → FieldCases g k config
  unfolding Option.bind
  change_field-cases keeps g k [] =
      inl (unfold find_field find_group in refl, unfold change_field in refl)
  change_field-cases keeps g k (group ∷ rest) = elim (Bool-cases (bytes_eq group.key g)) [
    | inl here ↦ elim (change_key-cases keeps k group.fields) [
      | inl (absent, unchanged) ↦ inl (
        find_field_here g k group rest here ∙ absent,
        change_field_here g k group rest here ∙ ap (Option.map _) unchanged,
      )
      | inr (found, new, at, changed, is, others) ↦
          let group' : FormGroup F = record group { fields = new } in
          inr (
            found,
            group' ∷ rest,
            find_field_here g k group rest here ∙ at,
            change_field_here g k group rest here ∙ ap (Option.map _) changed,
            find_field_here g k group' rest here ∙ is,
            λ g' k' h. elim (Bool-cases (bytes_eq group.key g')) [
              | inl same ↦
                  find_field_here g' k' group' rest same
                  ∙ others k' (other_key g g' k k' group here same h)
                  ∙ sym (find_field_here g' k' group rest same)
              | inr away ↦
                  find_field_later g' k' group' rest away
                  ∙ sym (find_field_later g' k' group rest away)
            ],
          )
    ]
    | inr later ↦ elim (change_field-cases keeps g k rest) [
      | inl (absent, unchanged) ↦ inl (
        find_field_later g k group rest later ∙ absent,
        change_field_later g k group rest later ∙ ap (Option.map (◌∷◌ group)) unchanged,
      )
      | inr (found, new, at, changed, is, others) ↦ inr (
        found,
        group ∷ new,
        find_field_later g k group rest later ∙ at,
        change_field_later g k group rest later ∙ ap (Option.map (◌∷◌ group)) changed,
        find_field_later g k group new later ∙ is,
        λ g' k' h. find_field-cons g' k' group new rest (others g' k' h),
      )
    ]
  ]

-- Setting a value fails, with the configuration as it was, when there is no such field; else the
-- value is read back, and a field of another group's key or of another key is found as before.
pub set_value-Sets :
    {F : Type 0} (g k g' k' : Text) (v : FormValue F) (config : List (FormGroup F))
    → (g' ≢ g) ⊎ (k' ≢ k)
    → let r = set_value g k v config in
      ((find_field g k config ≡ none)
        × (r ≡ record { config = config; error = some (not_found g k) }))
      ⊎ ((r.error ≡ none)
          × (get_value g k r.config ≡ some v)
          × (find_field g' k' r.config ≡ find_field g' k' config))
unfolding set_value change get_value Field.set_value Field.get_value Field.first Option.bind
set_value-Sets g k g' k' v config h =
    elim (change_field-cases (Field.set_value v) (λ field. refl) g k config) [
      | inl (absent, unchanged) ↦ inl (absent, rw (unchanged, set_value, change))
      | inr (found, new, at, changed, is, others) ↦
          let result : set_value g k v config ≡ record { config = new; error = none } =
            rw (changed, set_value, change) in
          rw result (inr (refl, ap (λ o. Option.bind o Field.get_value) is, others g' k' h))
    ]
