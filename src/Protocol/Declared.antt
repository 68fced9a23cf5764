-- ===== src/Protocol/Declared.antt =====
-- crates/fieldnotes-field-protocol/src/declared.rs: which properties a record may carry. The map of
-- declarations is a list of its entries, the last one inserted first, whose keys are distinct.
use fieldnotes.Prelude.{
  Text, text_eq, strip_prefix, Bool, true, false, not, Option, none, some, List, [], ◌∷◌, all,
  if◌then◌else◌,
}
use fieldnotes.Domain.Datetime as Temporal
use fieldnotes.Domain.Registry.{
  ScalarKind, ListSemantics, PropertyType, text_kind, number_kind, bool_kind, date_kind,
  datetime_kind, build_v1, lookup, is_note_applicable,
}
use fieldnotes.Domain.Stems.{FieldStemRegistry, property_prefix_for}
use fieldnotes.Protocol.Codes.{
  RejectionCode, Result, ok, err, refuse_if, ◌>>=◌, ◌>>◌, record_property_type_mismatch,
  record_invalid_date, record_invalid_datetime, record_foreign_prefix, record_undeclared_property,
  record_unknown_property,
}
use fieldnotes.Protocol.Value.{
  PropertyValue, text_value, number_value, boolean_value, text_list, number_list, boolean_list,
  is_list,
}
use fieldnotes.Protocol.Message.{Cardinality, DeclaredProperty, Manifest}

pub record PropertyShape : Type 0 where
  pub value_type : ScalarKind
  pub cardinality : Cardinality
  pub list_semantics : Option ListSemantics

-- PropertyShape::from_registry
unfoldable pub from_registry : PropertyType → PropertyShape
from_registry (PropertyType.scalar kind) = record {
  value_type = kind;
  cardinality = Cardinality.scalar;
  list_semantics = none;
}
from_registry (PropertyType.list kind semantics) = record {
  value_type = kind;
  cardinality = Cardinality.list;
  list_semantics = some semantics;
}

-- PropertyShape::from_declaration
unfoldable pub from_declaration : DeclaredProperty → PropertyShape
from_declaration d = record {
  value_type = d.value_type;
  cardinality = d.cardinality;
  list_semantics = d.list_semantics;
}

abbrev pub is_ok : {A : Type 0} → Temporal.Result A → Bool
is_ok (Temporal.ok a) = true
is_ok (Temporal.err e) = false

unfoldable pub temporal : Bool → RejectionCode → Result (Unit {0})
temporal true code = ok tt
temporal false code = err code

abbrev pub is_list_cardinality : Cardinality → Bool
is_list_cardinality Cardinality.scalar = false
is_list_cardinality Cardinality.list = true

abbrev pub bool_eq : Bool → Bool → Bool
bool_eq true b = b
bool_eq false b = not b

-- The match of PropertyShape::accepts, behind the test of the cardinality.
unfoldable pub accepts_kind : ScalarKind → PropertyValue → Result (Unit {0})
unfolding temporal
accepts_kind text_kind (text_value _) = ok tt
accepts_kind text_kind (text_list _) = ok tt
accepts_kind number_kind (number_value _) = ok tt
accepts_kind number_kind (number_list _) = ok tt
accepts_kind bool_kind (boolean_value _) = ok tt
accepts_kind bool_kind (boolean_list _) = ok tt
accepts_kind date_kind (text_value t) = temporal (is_ok (Temporal.parse_date t)) record_invalid_date
accepts_kind date_kind (text_list ts) =
    temporal (all (λ t. is_ok (Temporal.parse_date t)) ts) record_invalid_date
accepts_kind datetime_kind (text_value t) =
    temporal (is_ok (Temporal.parse_datetime t)) record_invalid_datetime
accepts_kind datetime_kind (text_list ts) =
    temporal (all (λ t. is_ok (Temporal.parse_datetime t)) ts) record_invalid_datetime
accepts_kind _ _ = err record_property_type_mismatch

-- PropertyShape::accepts
unfoldable pub accepts : PropertyShape → PropertyValue → Result (Unit {0})
unfolding accepts_kind
accepts shape value =
    if not (bool_eq (is_list_cardinality shape.cardinality) (is_list value))
    then err record_property_type_mismatch
    else accepts_kind shape.value_type value

pub record DeclaredPropertyIndex : Type 0 where
  pub field_stem : Text
  pub declared : List (Text × PropertyShape)
  pub stems : FieldStemRegistry

unfoldable pub find_shape : Text → List (Text × PropertyShape) → Option PropertyShape
find_shape name [] = none
find_shape name ((key, shape) ∷ rest) =
    if text_eq key name then some shape else find_shape name rest

-- The prefix test that each declared name passes.
unfoldable pub check_prefix : Option Text → Text → Result (Unit {0})
check_prefix none name = err record_undeclared_property
check_prefix (some prefix) name = elim (strip_prefix prefix name) [
  | none ↦ err record_foreign_prefix
  | some _ ↦ ok tt
]

-- BTreeMap::insert refusing a name that is there already.
unfoldable pub declare_new :
    Text → PropertyShape → List (Text × PropertyShape) → Result (List (Text × PropertyShape))
declare_new name shape declared = elim (find_shape name declared) [
  | none ↦ ok ((name, shape) ∷ declared)
  | some _ ↦ err record_property_type_mismatch
]

-- The loop of DeclaredPropertyIndex::new.
unfoldable pub declare_all :
    Option Text
    → List DeclaredProperty
    → List (Text × PropertyShape)
    → Result (List (Text × PropertyShape))
unfolding check_prefix declare_new
declare_all prefix [] declared = ok declared
declare_all prefix (entry ∷ rest) declared = do
  check_prefix prefix entry.name
  declared' ← declare_new entry.name (from_declaration entry) declared
  declare_all prefix rest declared'

-- DeclaredPropertyIndex::new
unfoldable pub index_of : Manifest → FieldStemRegistry → Result DeclaredPropertyIndex
unfolding declare_all
index_of manifest stems = do
  declared ← declare_all manifest.property_prefix manifest.declared_properties []
  ok (record { field_stem = manifest.field_stem; declared = declared; stems = stems })

-- DeclaredPropertyIndex::check, for a name under a registered stem.
unfoldable pub check_prefixed :
    DeclaredPropertyIndex → Text → Text → PropertyValue → Result (Unit {0})
check_prefixed index stem name value = do
  refuse_if (not (text_eq stem index.field_stem)) record_foreign_prefix
  elim (find_shape name index.declared) [
    | none ↦ err record_undeclared_property
    | some shape ↦ accepts shape value
  ]

-- DeclaredPropertyIndex::check, for any other name.
unfoldable pub check_shared : Text → PropertyValue → Result (Unit {0})
check_shared name value = elim (lookup name build_v1) [
  | none ↦ err record_unknown_property
  | some entry ↦
      refuse_if (not (is_note_applicable name)) record_unknown_property
      >> accepts (from_registry entry) value
]

-- DeclaredPropertyIndex::check
unfoldable pub check : DeclaredPropertyIndex → Text → PropertyValue → Result (Unit {0})
unfolding check_prefixed check_shared
check index name value = elim (property_prefix_for index.stems name) [
  | none ↦ check_shared name value
  | some stem ↦ check_prefixed index stem name value
]
