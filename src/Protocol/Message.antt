-- ===== src/Protocol/Message.antt =====
-- crates/fieldnotes-field-protocol/src/message.rs: the frames that a collect run exchanges. Each
-- validated token is its text. Of the manifest, the request and the diagnostic only the members
-- that the modelled code reads are here; a record has all its members but the constant ones.
use fieldnotes.Prelude.{
  ℕ, Text, text_eq, Bool, Option, none, some, List, [], ◌∷◌, any, if◌then◌else◌,
}
use fieldnotes.Domain.Registry.{ScalarKind, ListSemantics}
use fieldnotes.Protocol.Value.{PropertyValue}
use fieldnotes.Protocol.Limits.{Limits}

pub data Cardinality : Type 0 where
  scalar list : Cardinality

pub record DeclaredProperty : Type 0 where
  pub name : Text
  pub value_type : ScalarKind
  pub cardinality : Cardinality
  pub list_semantics : Option ListSemantics

pub record CapabilitySlice : Type 0 where
  pub object_kind : Text
  pub note_type : Text

pub data SourceVersionOrdering : Type 0 where
  unsupported numeric_ascending lexicographic_ascending rfc3339_instant_ascending :
      SourceVersionOrdering

pub data TombstoneAuthority : Type 0 where
  authoritative unsupported : TombstoneAuthority

pub data SnapshotAuthority : Type 0 where
  authoritative partial_only unsupported : SnapshotAuthority

pub data CollectionMode : Type 0 where
  incremental snapshot : CollectionMode

pub record Manifest : Type 0 where
  pub field_stem : Text
  pub property_prefix : Option Text
  pub declared_properties : List DeclaredProperty
  pub capabilities : List CapabilitySlice
  pub source_version_ordering : SourceVersionOrdering
  pub cursor_format_version : ℕ
  pub tombstones : TombstoneAuthority
  pub snapshot : SnapshotAuthority

-- Manifest::declares_object_kind
unfoldable pub declares_object_kind : Manifest → Text → Bool
declares_object_kind m kind = any (λ slice. text_eq slice.object_kind kind) m.capabilities

unfoldable pub find_slice : List CapabilitySlice → Text → Option Text
find_slice [] kind = none
find_slice (slice ∷ rest) kind =
    if text_eq slice.object_kind kind then some slice.note_type else find_slice rest kind

-- Manifest::declared_note_type_for
unfoldable pub declared_note_type_for : Manifest → Text → Option Text
unfolding find_slice
declared_note_type_for m kind = find_slice m.capabilities kind

pub record Window : Type 0 where
  pub from : Text
  pub through : Text

pub record CollectRequest : Type 0 where
  pub run_id : Text
  pub mode : CollectionMode
  pub window : Option Window
  pub snapshot_scope : Option Text
  pub limits : Limits
  pub artifact_media_types : List Text

pub record SourceRef : Type 0 where
  pub scope : Text
  pub identity : Text
  pub version : Option Text
  pub url : Option Text
  pub parent_identity : Option Text

pub record Body : Type 0 where
  pub text : Text

pub data ArtifactKind : Type 0 where
  staged digest_only not_retained : ArtifactKind

pub data ArtifactRole : Type 0 where
  attachment original embedded other : ArtifactRole

pub record ArtifactRef : Type 0 where
  pub kind : ArtifactKind
  pub handle : Option Text
  pub sha256 : Option Text
  pub byte_length : Option ℕ
  pub media_type : Option Text
  pub role : ArtifactRole
  pub source_filename : Option Text
  pub attachment_ref : Option Text

pub data IdentityScopeClass : Type 0 where
  source_global authority_scoped namespace_scoped : IdentityScopeClass
  normalized_channel weak_descriptive : IdentityScopeClass

pub data AnchorRole : Type 0 where
  subject sender recipient organizer attendee participant mentioned : AnchorRole
  assignee reporter owner other : AnchorRole

pub record IdentityAnchor : Type 0 where
  pub namespace : Text
  pub value : Text
  pub scope_class : IdentityScopeClass
  pub scope : Option Text
  pub normalization_rule : Option Text
  pub normalization_version : Option ℕ
  pub role : Option AnchorRole

pub record Integrity : Type 0 where
  pub damaged : Bool
  pub truncated : Bool
  pub lost_characters : Option ℕ

pub data Change : Type 0 where
  upsert delete : Change

pub record RecordEvent : Type 0 where
  pub run_id : Text
  pub seq : ℕ
  pub change : Change
  pub source : SourceRef
  pub object_kind : Option Text
  pub note_type : Option Text
  pub occurred_at : Option Text
  pub properties : Option (List (Text × PropertyValue))
  pub body : Option Body
  pub artifacts : Option (List ArtifactRef)
  pub identity_anchors : Option (List IdentityAnchor)
  pub integrity : Option Integrity
  pub observed_at : Option Text

pub data SnapshotState : Type 0 where
  complete partial : SnapshotState

pub record SnapshotClaim : Type 0 where
  pub scope : Text
  pub state : SnapshotState
  pub objects_enumerated : Option ℕ

pub record CheckpointEvent : Type 0 where
  pub run_id : Text
  pub seq : ℕ
  pub cursor : Text
  pub cursor_format_version : ℕ
  pub covers_record_seq_through : ℕ
  pub records_covered : ℕ
  pub snapshot : Option SnapshotClaim
  pub is_final : Bool

pub data Severity : Type 0 where
  info warning error : Severity

pub record DiagnosticEvent : Type 0 where
  pub run_id : Text
  pub seq : ℕ
  pub severity : Severity

pub data FieldEvent : Type 0 where
  manifest_event : Manifest → FieldEvent
  record_event : RecordEvent → FieldEvent
  checkpoint_event : CheckpointEvent → FieldEvent
  diagnostic_event : DiagnosticEvent → FieldEvent
