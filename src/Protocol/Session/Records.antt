-- ===== src/Protocol/Session/Records.antt =====
-- session.rs, accept_record and accept_diagnostic: records and diagnostics, checked and accepted. The
-- JSON encoder and SHA-256 are the parameter `Serde`.
use fieldnotes.Prelude.{
  ℕ, ◌+◌, Text, text, text_eq, contains_text, Bool, true, false, not, ◌||◌, Option, none, some,
  List, [], ◌∷◌, length, ltb, if◌then◌else◌,
}
use fieldnotes.Domain.NoteTypes as NoteTypes
use fieldnotes.Protocol.Codes.{
  Result, ok, err, protocol_limit_exceeded, manifest_undeclared_capability,
  record_invalid_note_type, record_note_type_not_declared, deletion_unauthorized,
  record_duplicate_divergent_in_run, protocol_schema_invalid,
}
use fieldnotes.Protocol.Value.{PropertyValue, member_count, max_member_bytes}
use fieldnotes.Protocol.Limits.{Limits}
use fieldnotes.Protocol.Message.{
  RecordEvent, DiagnosticEvent, Body, ArtifactRef, Change, TombstoneAuthority,
  SourceVersionOrdering, Severity, declares_object_kind, declared_note_type_for,
}
use fieldnotes.Protocol.Declared.{check}
use fieldnotes.Protocol.Artifact.{hex}
use fieldnotes.Protocol.Session.State.{
  Session, Key, M, ◌>>=◌, ◌>>◌, lift, fail, fail_if, is_some, insert, get_key, insert_key,
  advance_seq, check_run_id, check_not_after_final,
}

-- serde_json::to_value of a record, as its members with their encoded values; serde_json::to_vec;
-- Sha256::digest.
pub record Serde : Type 0 where
  pub to_value : RecordEvent → Option (List (Text × Text))
  pub to_vec : List (Text × Text) → Option Text
  pub sha256 : Text → Text

abbrev pub volatile : List Text
volatile = text "v" ∷ text "type" ∷ text "run_id" ∷ text "seq" ∷ []

-- Map::remove, for each of the names.
unfoldable pub without : List Text → List (Text × Text) → List (Text × Text)
without names [] = []
without names ((name, value) ∷ rest) =
    let later = without names rest in
    if contains_text names name then later else (name, value) ∷ later

unfoldable pub semantic_fingerprint : Serde → RecordEvent → Result Text
unfolding without
semantic_fingerprint serde record' = elim (serde.to_value record') [
  | none ↦ err protocol_schema_invalid
  | some members ↦ elim (serde.to_vec (without volatile members)) [
    | none ↦ err protocol_schema_invalid
    | some encoded ↦ ok (hex (serde.sha256 encoded))
  ]
]

pub data RecordDisposition : Type 0 where
  upsert no_change delete : RecordDisposition

pub record AcceptedRecord : Type 0 where
  pub seq : ℕ
  pub disposition : RecordDisposition

unfoldable pub check_record_bound : M (Unit {0})
check_record_bound s =
    fail_if (ltb s.limits.max_run_records (s.record_count + 1)) protocol_limit_exceeded s

unfoldable pub check_object_kind : Option Text → M (Unit {0})
check_object_kind none s = (ok tt, s)
check_object_kind (some kind) s =
    fail_if (not (declares_object_kind s.manifest kind)) manifest_undeclared_capability s

-- The slice's declared note type, where both the kind and its slice are there.
unfoldable pub declared_differs : Option Text → Text → Session → Bool
declared_differs none note_type s = false
declared_differs (some kind) note_type s = elim (declared_note_type_for s.manifest kind) [
  | none ↦ false
  | some declared ↦ not (text_eq declared note_type)
]

unfoldable pub check_note_type : Option Text → Option Text → M (Unit {0})
check_note_type object_kind none s = (ok tt, s)
check_note_type object_kind (some note_type) s =
    if not (is_some (NoteTypes.parse note_type))
    then fail record_invalid_note_type s
    else fail_if (declared_differs object_kind note_type s) record_note_type_not_declared s

unfoldable pub check_body : Option Body → M (Unit {0})
check_body none s = (ok tt, s)
check_body (some body) s =
    fail_if (ltb s.limits.max_body_bytes (length body.text)) protocol_limit_exceeded s

-- The first loop over the properties: their sizes.
unfoldable pub exceeds : Limits → List (Text × PropertyValue) → Bool
exceeds limits [] = false
exceeds limits ((name, value) ∷ rest) =
    ltb limits.max_list_members (member_count value)
    || ltb limits.max_property_value_bytes (max_member_bytes value)
    || exceeds limits rest

-- The second loop: the first property that the declarations refuse.
unfoldable pub check_declared : List (Text × PropertyValue) → M (Unit {0})
check_declared [] s = (ok tt, s)
check_declared ((name, value) ∷ rest) s = elim (check s.properties name value) [
  | ok _ ↦ check_declared rest s
  | err code ↦ fail code s
]

unfoldable pub check_properties : Option (List (Text × PropertyValue)) → M (Unit {0})
check_properties none s = (ok tt, s)
check_properties (some properties) s =
    if ltb s.limits.max_properties_per_record (length properties)
    then fail protocol_limit_exceeded s
    else if exceeds s.limits properties
    then fail protocol_limit_exceeded s
    else check_declared properties s

unfoldable pub check_artifacts : Option (List ArtifactRef) → M (Unit {0})
check_artifacts none s = (ok tt, s)
check_artifacts (some artifacts) s =
    fail_if (ltb s.limits.max_artifacts_per_record (length artifacts)) protocol_limit_exceeded s

abbrev pub is_authoritative : TombstoneAuthority → Bool
is_authoritative TombstoneAuthority.authoritative = true
is_authoritative TombstoneAuthority.unsupported = false

unfoldable pub check_tombstone : Change → M (Unit {0})
check_tombstone Change.upsert s = (ok tt, s)
check_tombstone Change.delete s =
    fail_if (not (is_authoritative s.manifest.tombstones)) deletion_unauthorized s

abbrev pub is_unordered : SourceVersionOrdering → Bool
is_unordered SourceVersionOrdering.unsupported = true
is_unordered _ = false

abbrev pub disposition_of : Change → RecordDisposition
disposition_of Change.upsert = upsert
disposition_of Change.delete = delete

-- The disposition, by what this source key carried before.
unfoldable pub dispose : RecordEvent → Text → Option Text → M RecordDisposition
dispose event fingerprint none s = (ok (disposition_of event.change), s)
dispose event fingerprint (some previous) s =
    if text_eq previous fingerprint
    then (ok no_change, s)
    else if is_unordered s.manifest.source_version_ordering
    then fail record_duplicate_divergent_in_run s
    else (ok (disposition_of event.change), s)

abbrev pub key_of : RecordEvent → Key
key_of event = (event.source.scope, event.source.identity)

-- The updates at the end of accept_record.
unfoldable pub install_record : RecordEvent → Text → RecordDisposition → M AcceptedRecord
install_record event fingerprint disposition s = (
  ok (record { seq = event.seq; disposition = disposition }),
  record s {
    seen_keys = insert_key (key_of event) fingerprint s.seen_keys;
    record_count = s.record_count + 1;
    records_by_seq = insert event.seq s.records_by_seq;
  },
)

-- The checks between `advance_seq` and the fingerprint.
unfoldable pub check_record : RecordEvent → M (Unit {0})
check_record event = do
  check_record_bound
  check_object_kind event.object_kind
  check_note_type event.object_kind event.note_type
  check_body event.body
  check_properties event.properties
  check_artifacts event.artifacts
  check_tombstone event.change

unfoldable pub accept_record : Serde → RecordEvent → M AcceptedRecord
accept_record serde event = do
  check_run_id event.run_id
  check_not_after_final
  advance_seq event.seq
  check_record event
  fingerprint ← lift (semantic_fingerprint serde event)
  previous ← λ s. (ok (get_key s.seen_keys (key_of event)), s)
  disposition ← dispose event fingerprint previous
  install_record event fingerprint disposition

abbrev pub is_error : Severity → Bool
is_error Severity.error = true
is_error _ = false

unfoldable pub check_diagnostic_bound : M (Unit {0})
check_diagnostic_bound s =
    fail_if (ltb s.limits.max_run_diagnostics (s.diagnostic_count + 1)) protocol_limit_exceeded s

unfoldable pub install_diagnostic : DiagnosticEvent → M (ℕ × Severity)
install_diagnostic event s = (
  ok (event.seq, event.severity),
  record s {
    diagnostic_count = s.diagnostic_count + 1;
    error_diagnostic = is_error event.severity || s.error_diagnostic;
  },
)

unfoldable pub accept_diagnostic : DiagnosticEvent → M (ℕ × Severity)
accept_diagnostic event = do
  check_run_id event.run_id
  check_not_after_final
  advance_seq event.seq
  check_diagnostic_bound
  install_diagnostic event
