-- ===== src/Domain/Registry.antt =====
-- crates/fieldnotes-domain/src/property/registry.rs and the scalar kinds of value.rs: the closed
-- vocabulary of shared properties. A static map is the list of the insertions that build it, whose
-- keys are distinct.
use fieldnotes.Prelude.{
  Text, text, text_eq, contains_text, Bool, not, Option, none, some, List, [], ◌∷◌, if◌then◌else◌,
}

pub data ScalarKind : Type 0 where
  text_kind number_kind bool_kind date_kind datetime_kind : ScalarKind

pub data ListSemantics : Type 0 where
  set_like ordered : ListSemantics

pub data PropertyType : Type 0 where
  scalar : ScalarKind → PropertyType
  list : ScalarKind → ListSemantics → PropertyType

-- build_v1
unfoldable pub build_v1 : List (Text × PropertyType)
build_v1 =
    (text "id", scalar text_kind)
    ∷ (text "instance_id", scalar text_kind)
    ∷ (text "field_id", scalar text_kind)
    ∷ (text "type", scalar text_kind)
    ∷ (text "occurred_at", scalar datetime_kind)
    ∷ (text "captured_at", scalar datetime_kind)
    ∷ (text "started_at", scalar datetime_kind)
    ∷ (text "ended_at", scalar datetime_kind)
    ∷ (text "duration_seconds", scalar number_kind)
    ∷ (text "source_scope", scalar text_kind)
    ∷ (text "source_identity", scalar text_kind)
    ∷ (text "source_parent_id", scalar text_kind)
    ∷ (text "source_url", scalar text_kind)
    ∷ (text "source_version", scalar text_kind)
    ∷ (text "collected_by", list text_kind set_like)
    ∷ (text "content_hash", scalar text_kind)
    ∷ (text "from", scalar text_kind)
    ∷ (text "to", list text_kind ordered)
    ∷ (text "cc", list text_kind ordered)
    ∷ (text "bcc", list text_kind ordered)
    ∷ (text "organizer", scalar text_kind)
    ∷ (text "participants", list text_kind ordered)
    ∷ (text "subject", scalar text_kind)
    ∷ (text "title", scalar text_kind)
    ∷ (text "thread_id", scalar text_kind)
    ∷ (text "conversation_id", scalar text_kind)
    ∷ (text "reply_to", scalar text_kind)
    ∷ (text "related", list text_kind set_like)
    ∷ (text "attachments", list text_kind ordered)
    ∷ (text "artifacts", list text_kind set_like)
    ∷ (text "audio_duration_seconds", scalar number_kind)
    ∷ (text "audio_media_type", scalar text_kind)
    ∷ (text "identities", list text_kind set_like)
    ∷ (text "entities", list text_kind set_like)
    ∷ (text "damaged", scalar bool_kind)
    ∷ (text "truncated", scalar bool_kind)
    ∷ (text "lost_characters", scalar number_kind)
    ∷ (text "skipped_attachments", list text_kind set_like)
    ∷ (text "generated_at", scalar datetime_kind)
    ∷ (text "generator_version", scalar text_kind)
    ∷ (text "source_note_id", scalar text_kind)
    ∷ (text "evidence_spans", list text_kind ordered)
    ∷ (text "supported_by", list text_kind set_like)
    ∷ (text "confidence", scalar number_kind)
    ∷ (text "subject_entity_id", scalar text_kind)
    ∷ (text "from_entity_id", scalar text_kind)
    ∷ (text "to_entity_id", scalar text_kind)
    ∷ (text "first_seen", scalar datetime_kind)
    ∷ (text "last_seen", scalar datetime_kind)
    ∷ (text "channels", list text_kind set_like)
    ∷ (text "evidence_count", scalar number_kind)
    ∷ (text "evidence", list text_kind ordered)
    ∷ (text "binding_status", scalar text_kind)
    ∷ (text "entity_id", scalar text_kind)
    ∷ (text "subject_identity", scalar text_kind)
    ∷ (text "target_field_id", scalar text_kind)
    ∷ (text "target_source_id", scalar text_kind)
    ∷ (text "status", scalar text_kind)
    ∷ (text "detected_at", scalar datetime_kind)
    ∷ (text "candidate_fingerprints", list text_kind set_like)
    ∷ (text "involved_note_ids", list text_kind set_like)
    ∷ (text "producer_references", list text_kind set_like)
    ∷ (text "source_identities", list text_kind set_like)
    ∷ (text "source_scopes", list text_kind set_like)
    ∷ []

unfoldable pub lookup : Text → List (Text × PropertyType) → Option PropertyType
lookup name [] = none
lookup name ((key, entry) ∷ rest) = if text_eq key name then some entry else lookup name rest

unfoldable pub derived_record_only : List Text
derived_record_only =
    text "binding_status"
    ∷ text "candidate_fingerprints"
    ∷ text "channels"
    ∷ text "confidence"
    ∷ text "detected_at"
    ∷ text "entity_id"
    ∷ text "evidence"
    ∷ text "evidence_count"
    ∷ text "evidence_spans"
    ∷ text "first_seen"
    ∷ text "from_entity_id"
    ∷ text "generated_at"
    ∷ text "generator_version"
    ∷ text "involved_note_ids"
    ∷ text "last_seen"
    ∷ text "producer_references"
    ∷ text "source_identities"
    ∷ text "source_note_id"
    ∷ text "source_scopes"
    ∷ text "status"
    ∷ text "subject_entity_id"
    ∷ text "subject_identity"
    ∷ text "supported_by"
    ∷ text "target_field_id"
    ∷ text "target_source_id"
    ∷ text "to_entity_id"
    ∷ []

unfoldable pub is_note_applicable : Text → Bool
is_note_applicable name = not (contains_text derived_record_only name)
