-- ===== src/Protocol/Session/Samples.antt =====
-- session.rs: a small manifest, request, records and checkpoints for the tests.
use fieldnotes.Prelude.{ℕ, ◌≡◌, refl, text, Bool, Option, none, some, [], ◌∷◌}
use fieldnotes.Domain.Stems.{FieldStemRegistry}
use fieldnotes.Protocol.Codes.{ok}
use fieldnotes.Protocol.Limits.{ceilings}
use fieldnotes.Protocol.Message.{
  Manifest, CollectRequest, CollectionMode, SourceVersionOrdering, TombstoneAuthority,
  SnapshotAuthority, RecordEvent, Change, CheckpointEvent, SnapshotClaim, SnapshotState,
  ArtifactRef, ArtifactKind, ArtifactRole,
}
use fieldnotes.Protocol.Declared.{DeclaredPropertyIndex, index_of, declare_all}
use fieldnotes.Protocol.Session.State.{Session, new, initial}
use fieldnotes.Protocol.Session.Records.{Serde}

abbrev pub stems : FieldStemRegistry
stems = record { one_part = text "self"; stems = [] }

abbrev pub manifest : Manifest
manifest = record {
  field_stem = text "mail";
  property_prefix = none;
  declared_properties = [];
  capabilities = [];
  source_version_ordering = SourceVersionOrdering.unsupported;
  cursor_format_version = 1;
  tombstones = TombstoneAuthority.unsupported;
  snapshot = SnapshotAuthority.authoritative;
}

unfoldable pub request : CollectRequest
unfolding ceilings
request = record {
  run_id = text "run";
  mode = CollectionMode.snapshot;
  window = none;
  snapshot_scope = some (text "inbox");
  limits = ceilings;
  artifact_media_types = [];
}

abbrev pub serde : Serde
serde = record { to_value = λ _. some []; to_vec = λ _. some []; sha256 = λ t. t }

abbrev pub unable : Serde
unable = record { to_value = λ _. none; to_vec = λ _. some []; sha256 = λ t. t }

abbrev pub known : ArtifactRef
known = record {
  kind = ArtifactKind.digest_only;
  handle = none;
  sha256 = some (text "ab");
  byte_length = none;
  media_type = none;
  role = ArtifactRole.attachment;
  source_filename = none;
  attachment_ref = none;
}

abbrev pub letter : ℕ → RecordEvent
letter seq = record {
  run_id = text "run";
  seq = seq;
  change = Change.upsert;
  source = record {
    scope = text "inbox";
    identity = seq ∷ [];
    version = none;
    url = none;
    parent_identity = none;
  };
  object_kind = none;
  note_type = none;
  occurred_at = none;
  properties = none;
  body = none;
  artifacts = some (known ∷ []);
  identity_anchors = none;
  integrity = none;
  observed_at = none;
}

abbrev pub check_at : ℕ → ℕ → ℕ → Option SnapshotClaim → Bool → CheckpointEvent
check_at seq covers counted claim is_final = record {
  run_id = text "run";
  seq = seq;
  cursor = text "c";
  cursor_format_version = 1;
  covers_record_seq_through = covers;
  records_covered = counted;
  snapshot = claim;
  is_final = is_final;
}

abbrev pub whole_inbox : Option SnapshotClaim
whole_inbox =
    some
      (record { scope = text "inbox"; state = SnapshotState.complete; objects_enumerated = none })

abbrev pub properties : DeclaredPropertyIndex
properties = record { field_stem = text "mail"; declared = []; stems = stems }

unfoldable pub fresh : Session
unfolding initial ceilings
fresh = initial request manifest properties

pub fresh_new : new request manifest stems ≡ ok fresh
unfolding new index_of declare_all fresh
fresh_new = refl
