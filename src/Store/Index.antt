-- ===== src/Store/Index.antt =====
-- crates/fieldnotes-store/src/source_index.rs: the index of the notes by their source keys. A
-- BTreeMap is the list of its entries in ascending order of their keys. Reading and parsing a note file
-- are parameters of `index_one`; a parsed record is what its `get` returns.
pub mod Laws
pub mod Refinement
use fieldnotes.Prelude.{
  ℕ, Text, text, text_eq, text_ltb, Bool, true, false, ◌&&◌, ◌||◌, Option, none, some, List, [],
  ◌∷◌, ◌++◌, if◌then◌else◌,
}

-- What a record's `get` returns: a scalar of text, or anything else.
pub data FieldValue : Type 0 where
  text_value : Text → FieldValue
  other_value : FieldValue

abbrev pub text_of_value : Option FieldValue → Option Text
text_of_value (some (text_value t)) = some t
text_of_value _ = none

pub record IndexedNote (Parsed : Type 0) : Type 0 where
  pub path : Text
  pub filename : Text
  pub note_id : Text
  pub content : Parsed

pub record SourceKey : Type 0 where
  pub field_id : Text
  pub scope : Text
  pub identity : Text

abbrev pub source_key : Text → Text → Text → SourceKey
source_key field_id scope identity = record {
  field_id = field_id;
  scope = scope;
  identity = identity;
}

unfoldable pub key_eq : SourceKey → SourceKey → Bool
key_eq a b =
    text_eq a.field_id b.field_id && text_eq a.scope b.scope && text_eq a.identity b.identity

-- The order of triples of texts.
unfoldable pub key_ltb : SourceKey → SourceKey → Bool
key_ltb a b =
    text_ltb a.field_id b.field_id
    || text_eq a.field_id b.field_id
      && (text_ltb a.scope b.scope || text_eq a.scope b.scope && text_ltb a.identity b.identity)

-- BTreeMap::get, BTreeMap::insert and BTreeMap::remove.
module _ {V : Type 0} where
  unfoldable pub find_key : List (SourceKey × V) → SourceKey → Option V
  find_key [] k = none
  find_key ((j, v) ∷ rest) k = let later = find_key rest k in if key_eq j k then some v else later

  unfoldable pub put_key : SourceKey → V → List (SourceKey × V) → List (SourceKey × V)
  put_key k v [] = (k, v) ∷ []
  put_key k v ((j, w) ∷ rest) =
      let later = put_key k v rest in
      if key_eq j k
      then (j, v) ∷ rest
      else if key_ltb k j
      then (k, v) ∷ (j, w) ∷ rest
      else (j, w) ∷ later

  unfoldable pub drop_key : SourceKey → List (SourceKey × V) → List (SourceKey × V)
  drop_key k [] = []
  drop_key k ((j, w) ∷ rest) =
      let later = drop_key k rest in if key_eq j k then later else (j, w) ∷ later

  -- The entries of a field whose keys lie in a scope.
  unfoldable pub in_scope : Text → Text → List (SourceKey × V) → List (SourceKey × V)
  in_scope field_id scope [] = []
  in_scope field_id scope ((j, v) ∷ rest) =
      let later = in_scope field_id scope rest in
      if text_eq j.field_id field_id && text_eq j.scope scope then (j, v) ∷ later else later

  -- The scopes of a field's entries.
  unfoldable pub field_scopes : Text → List (SourceKey × V) → List Text
  field_scopes field_id [] = []
  field_scopes field_id ((j, v) ∷ rest) =
      let later = field_scopes field_id rest in
      if text_eq j.field_id field_id then j.scope ∷ later else later

-- Vec::dedup, after a member that is kept.
unfoldable pub dedup_texts_after : Text → List Text → List Text
dedup_texts_after t [] = []
dedup_texts_after t (u ∷ us) =
    let rest = dedup_texts_after u us in
    let same = dedup_texts_after t us in if text_eq t u then same else u ∷ rest

unfoldable pub dedup_texts : List Text → List Text
unfolding dedup_texts_after
dedup_texts [] = []
dedup_texts (t ∷ ts) = t ∷ dedup_texts_after t ts

pub record SourceIndex (Parsed : Type 0) : Type 0 where
  pub notes : List (SourceKey × IndexedNote Parsed)
  pub duplicates : List SourceKey
  pub unparseable : List Text

module _ {Parsed : Type 0} where
  -- SourceIndex::default
  abbrev pub empty_index : SourceIndex Parsed
  empty_index = record { notes = []; duplicates = []; unparseable = [] }

  unfoldable pub get : SourceIndex Parsed → Text → Text → Text → Option (IndexedNote Parsed)
  get index field_id scope identity = find_key index.notes (source_key field_id scope identity)

  unfoldable pub keys_in_scope :
      SourceIndex Parsed → Text → Text → List (SourceKey × IndexedNote Parsed)
  keys_in_scope index field_id scope = in_scope field_id scope index.notes

  unfoldable pub scopes_for : SourceIndex Parsed → Text → List Text
  scopes_for index field_id = dedup_texts (field_scopes field_id index.notes)

  unfoldable pub insert_note :
      Text → Text → Text → IndexedNote Parsed → SourceIndex Parsed → SourceIndex Parsed
  insert_note field_id scope identity note index = record index {
    notes = put_key (source_key field_id scope identity) note index.notes;
  }

  unfoldable pub remove : Text → Text → Text → SourceIndex Parsed → SourceIndex Parsed
  remove field_id scope identity index = record index {
    notes = drop_key (source_key field_id scope identity) index.notes;
  }

-- What parse_record makes of a file: nothing, or a record with its ID and its properties.
pub record NoteFile (Parsed : Type 0) : Type 0 where
  pub filename : Text
  pub path : Text
  pub parsed : Option Parsed

pub record NoteParser (Parsed : Type 0) : Type 0 where
  pub id : Parsed → Text
  pub property : Parsed → Text → Option FieldValue

module _ {Parsed : Type 0} (parser : NoteParser Parsed) where
  -- text_of
  unfoldable pub text_of : Parsed → Text → Option Text
  text_of content name = text_of_value (parser.property content name)

  -- The end of index_one: a key that the index has already is a duplicate.
  unfoldable pub place : SourceIndex Parsed → SourceKey → IndexedNote Parsed → SourceIndex Parsed
  place index key note = elim (find_key index.notes key) [
    | none ↦ record index { notes = put_key key note index.notes }
    | some before ↦ record index {
      notes = put_key key note index.notes;
      duplicates = index.duplicates ++ (key ∷ []);
    }
  ]

  -- The key of a note that has all three parts.
  unfoldable pub key_parts : Option Text → Option Text → Option Text → Option SourceKey
  key_parts (some field_id) (some scope) (some identity) = some (source_key field_id scope identity)
  key_parts _ _ _ = none

  unfoldable pub place_parsed :
      SourceIndex Parsed → NoteFile Parsed → Parsed → Option SourceKey → SourceIndex Parsed
  unfolding place
  place_parsed index file content none = index
  place_parsed index file content (some key) = place index key (record {
    path = file.path;
    filename = file.filename;
    note_id = parser.id content;
    content = content;
  })

  unfoldable pub index_one : SourceIndex Parsed → NoteFile Parsed → SourceIndex Parsed
  unfolding place_parsed key_parts text_of
  index_one index file = elim file.parsed [
    | none ↦ record index { unparseable = index.unparseable ++ (file.path ∷ []) }
    | some content ↦ place_parsed index file content (
        key_parts (text_of content (text "field_id")) (text_of content (text "source_scope"))
          (text_of content (text "source_identity")))
  ]

  -- The loop of build_source_index over the sorted files.
  unfoldable pub index_all : SourceIndex Parsed → List (NoteFile Parsed) → SourceIndex Parsed
  unfolding index_one
  index_all index [] = index
  index_all index (file ∷ files) = index_all (index_one index file) files
