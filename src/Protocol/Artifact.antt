-- ===== src/Protocol/Artifact.antt =====
-- crates/fieldnotes-field-protocol/src/artifact.rs: staged artifacts. The file system, SHA-256 and the notebook's digest index are
-- parameters: `Staging` says what the calls on a staged entry return.
pub mod Verified
use fieldnotes.Prelude.{
  ℕ, zero, suc, ◌+◌, ◌/◌, ◌%◌, Text, text, text_eq, contains_text, Bool, true, false, ◌&&◌, ◌||◌,
  not, Option, none, some, List, [], ◌∷◌, ◌++◌, length, ltb, leb, ◌==◌, if◌then◌else◌,
  saturating_add, from_digit, any, get_or,
}
use fieldnotes.Protocol.Handle.{handle, refused, parse_handle}
use fieldnotes.Protocol.MediaTypes.{media_type_essence, artifact_media_type_included}
use fieldnotes.Protocol.Codes.{
  RejectionCode, Result, ok, err, refuse_if, ◌>>=◌, ◌>>◌, protocol_schema_invalid,
  artifact_unknown_digest, artifact_oversized, artifact_type_excluded, artifact_missing_staged_file,
  artifact_not_regular_file, artifact_length_mismatch, artifact_digest_mismatch,
  artifact_invalid_handle,
}
use fieldnotes.Protocol.Limits.{Limits}
use fieldnotes.Protocol.Message.{
  ArtifactKind, ArtifactRole, ArtifactRef, staged, digest_only, not_retained,
}

pub record ResolvedArtifact : Type 0 where
  pub digest : Text
  pub byte_length : ℕ
  pub reused : Bool

pub record DeclinedArtifact : Type 0 where
  pub role : ArtifactRole
  pub byte_length : Option ℕ
  pub source_filename : Option Text
  pub attachment_ref : Text

pub data ArtifactOutcome : Type 0 where
  resolved : ResolvedArtifact → ArtifactOutcome
  declined : DeclinedArtifact → ArtifactOutcome

-- FileIdentity, on Unix.
pub record FileIdentity : Type 0 where
  pub device : ℕ
  pub inode : ℕ
  pub length : ℕ

abbrev pub identity_eq : FileIdentity → FileIdentity → Bool
identity_eq a b = (a.device == b.device) && (a.inode == b.inode) && (a.length == b.length)

pub record Metadata : Type 0 where
  pub is_file : Bool
  pub identity : FileIdentity

-- What one read of an open file returns; no bytes is the end of the file.
pub data Read : Type 0 where
  bytes : Text → Read
  failed : Read

pub record OpenFile : Type 0 where
  pub metadata : Option Metadata
  pub reads : List Read

-- The entries of the staging directory by their names: symlink_metadata and open.
pub record Staging : Type 0 where
  pub symlink_metadata : Text → Option Metadata
  pub open_without_following : Text → Option OpenFile

-- Lowercase hexadecimal.
unfoldable pub hex : Text → Text
hex [] = []
hex (b ∷ bs) = from_digit (b / 16) ∷ from_digit (b % 16) ∷ hex bs

-- message.rs, ArtifactRef::parsed_handle
unfoldable pub parsed_handle : ArtifactRef → Result Text
unfolding parse_handle
parsed_handle reference = elim reference.handle [
  | none ↦ err protocol_schema_invalid
  | some t ↦ elim (parse_handle t) [ handle h ↦ ok h | refused e ↦ err artifact_invalid_handle ]
]

abbrev pub or_refuse {ℓ} : {A : Type ℓ} → Option A → RejectionCode → Result A
or_refuse none c = err c
or_refuse (some a) c = ok a

-- The read loop of resolve_staged: the number of bytes read and the bytes that are hashed.
unfoldable pub read_bounded : ℕ → List Read → ℕ → Text → Result (ℕ × Text)
read_bounded ceiling [] measured hashed = ok (measured, hashed)
read_bounded ceiling (failed ∷ rest) measured hashed = err artifact_missing_staged_file
read_bounded ceiling (bytes [] ∷ rest) measured hashed = ok (measured, hashed)
read_bounded ceiling (bytes (b ∷ bs) ∷ rest) measured hashed =
    let measured' = saturating_add measured (length (b ∷ bs)) in
    let next = read_bounded ceiling rest measured' (hashed ++ (b ∷ bs)) in
    if ltb ceiling measured' then err artifact_length_mismatch else next

-- A declared type has to be in the policy, and none is needed.
unfoldable pub check_media_type : List Text → Option Text → Result (Unit {0})
check_media_type policy none = ok tt
check_media_type policy (some declared) =
    refuse_if (not (artifact_media_type_included policy (media_type_essence declared)))
      artifact_type_excluded

unfoldable pub check_digest : Option Text → Text → Result (Unit {0})
check_digest none digest = ok tt
check_digest (some declared) digest =
    refuse_if (not (text_eq declared digest)) artifact_digest_mismatch

module _ (sha256 : Text → Text) (staging : Staging) where
  -- The entry that was checked is the one that the open reached.
  unfoldable pub open_checked : Text → Result OpenFile
  open_checked name = do
    before ← or_refuse (staging.symlink_metadata name) artifact_missing_staged_file
    refuse_if (not before.is_file) artifact_not_regular_file
    file ← or_refuse (staging.open_without_following name) artifact_missing_staged_file
    after ← or_refuse file.metadata artifact_not_regular_file
    refuse_if (not after.is_file || not (identity_eq after.identity before.identity))
        artifact_not_regular_file
    ok file

  unfoldable pub resolve_staged : ArtifactRef → Limits → List Text → Result ResolvedArtifact
  resolve_staged reference limits media_types = do
    name ← parsed_handle reference
    declared_length ← or_refuse reference.byte_length protocol_schema_invalid
    refuse_if (ltb limits.max_artifact_bytes declared_length) artifact_oversized
    check_media_type media_types reference.media_type
    file ← open_checked name
    outcome ← read_bounded (saturating_add declared_length 1) file.reads 0 []
    refuse_if (not (outcome.0 == declared_length)) artifact_length_mismatch
    check_digest reference.sha256 (hex (sha256 outcome.1))
    ok (record { digest = hex (sha256 outcome.1); byte_length = outcome.0; reused = false })

  unfoldable pub resolve_digest_only : (Text → Bool) → Text → Result ArtifactOutcome
  resolve_digest_only contains_digest declared =
      if contains_digest declared
      then ok (resolved (record { digest = declared; byte_length = 0; reused = true }))
      else err artifact_unknown_digest

  unfoldable pub resolve_kind :
      ArtifactKind → ArtifactRef → Limits → List Text → (Text → Bool) → Result ArtifactOutcome
  resolve_kind digest_only reference limits media_types contains_digest = do
    declared ← or_refuse reference.sha256 protocol_schema_invalid
    resolve_digest_only contains_digest declared
  resolve_kind staged reference limits media_types contains_digest = do
    artifact ← resolve_staged reference limits media_types
    ok (resolved artifact)
  resolve_kind not_retained reference limits media_types contains_digest = do
    attachment_ref ← or_refuse reference.attachment_ref protocol_schema_invalid
    ok (
        declined (record {
          role = reference.role;
          byte_length = reference.byte_length;
          source_filename = reference.source_filename;
          attachment_ref = attachment_ref;
        }))

  unfoldable pub resolve_artifact :
      ArtifactRef → Limits → List Text → (Text → Bool) → Result ArtifactOutcome
  unfolding resolve_kind
  resolve_artifact reference limits media_types contains_digest =
      resolve_kind reference.kind reference limits media_types contains_digest
