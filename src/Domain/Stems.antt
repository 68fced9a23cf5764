-- ===== src/Domain/Stems.antt =====
-- crates/fieldnotes-domain/src/field.rs: the registered Field stems and the property prefixes that
-- they bind.
use fieldnotes.Prelude.{Text, text, strip_prefix, Option, none, some, List, [], ◌∷◌}

pub record FieldStemRegistry : Type 0 where
  pub one_part : Text
  pub stems : List Text

unfoldable pub v1 : FieldStemRegistry
v1 = record {
  one_part = text "self";
  stems =
      text "local"
      ∷ text "outlook_mail"
      ∷ text "outlook_calendar"
      ∷ text "outlook_contacts"
      ∷ text "teams"
      ∷ text "jira"
      ∷ [];
}

-- The label behind a stem and its underscore, if it is not empty.
unfoldable pub label_after : Text → Text → Option Text
unfolding strip_prefix
label_after stem name = elim (strip_prefix stem name) [
  | none ↦ none
  | some rest ↦ elim (strip_prefix (text "_") rest) [
    | none ↦ none
    | some label ↦ elim label [ [] ↦ none | b ∷ bs ↦ some (b ∷ bs) ]
  ]
]

unfoldable pub find_stem : List Text → Text → Option Text
unfolding label_after
find_stem [] name = none
find_stem (stem ∷ stems) name = elim (label_after stem name) [
  | none ↦ find_stem stems name
  | some label ↦ some stem
]

-- FieldStemRegistry::property_prefix_for
unfoldable pub property_prefix_for : FieldStemRegistry → Text → Option Text
unfolding find_stem
property_prefix_for registry name = find_stem registry.stems name
