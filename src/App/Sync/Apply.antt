-- ===== src/App/Sync/Apply.antt =====
-- sync/mod.rs, what apply_record does first: the counters of a record, and its artifacts.
use fieldnotes.Prelude.{
  ◌+◌, Text, text_eq, Bool, true, false, not, Option, none, some, List, [], ◌∷◌, ◌++◌,
  contains_text, if◌then◌else◌,
}
use fieldnotes.Domain.Ids.{valid, invalid, artifact_prefix, parse_artifact_id, show_artifact_id}
use fieldnotes.Protocol.Codes.{
  artifact_unknown_digest, artifact_missing_staged_file, artifact_digest_mismatch,
}
use fieldnotes.Protocol.MediaTypes.{media_type_essence}
use fieldnotes.Protocol.Message.{RecordEvent, ArtifactRef, ArtifactKind, digest_only, Integrity}
use fieldnotes.Protocol.Artifact.{
  ArtifactOutcome, ResolvedArtifact, resolved, declined, parsed_handle,
}
use fieldnotes.Protocol.Session.Artifacts.{resolve_artifacts}
use fieldnotes.App.Sync.State.{
  SyncCounts, RetainedArtifact, SkippedArtifact, ArtifactProjection, StoredArtifact, Outside,
  CollectContext, Run, done, rejected, durability, S, ◌>>=◌, ◌>>◌, pure, or_rejected, or_durability,
  on_counts,
}

abbrev pub is_digest_only : ArtifactKind → Bool
is_digest_only digest_only = true
is_digest_only _ = false

-- Option::map of media_type_essence over the declared type.
abbrev pub declared_essence : Option Text → Option Text
declared_essence none = none
declared_essence (some declared) = some (media_type_essence declared)

-- The damage that a record reports.
unfoldable pub count_integrity : Option Integrity → SyncCounts → SyncCounts
count_integrity none c = c
count_integrity (some integrity) c = record c {
  damaged = if integrity.damaged then c.damaged + 1 else c.damaged;
  truncated = if integrity.truncated then c.truncated + 1 else c.truncated;
}

-- The head of apply_record.
unfoldable pub count_accepted : RecordEvent → SyncCounts → SyncCounts
count_accepted event c =
    count_integrity event.integrity (record c { records_accepted = c.records_accepted + 1 })

-- The counter that installing an artifact raises.
unfoldable pub count_stored : Bool → SyncCounts → SyncCounts
count_stored true c = record c { artifacts_reused = c.artifacts_reused + 1 }
count_stored false c = record c { artifacts_stored = c.artifacts_stored + 1 }

abbrev pub count_if_some : Option Text → SyncCounts → SyncCounts
count_if_some none c = c
count_if_some (some previous) c = record c { renamed = c.renamed + 1 }

abbrev pub push_retained : RetainedArtifact → ArtifactProjection → ArtifactProjection
push_retained a p = record p { retained = p.retained ++ (a ∷ []) }

abbrev pub push_skipped : SkippedArtifact → ArtifactProjection → ArtifactProjection
push_skipped a p = record p { skipped_artifacts = p.skipped_artifacts ++ (a ∷ []) }

module _ {W Parsed Candidate : Type 0} (out : Outside W Parsed Candidate)
    (context : CollectContext) where
  -- The stored path of an artifact that core has.
  unfoldable pub located : Text → Option (Option Text) → S (Run W Parsed) (Text × Text)
  located id none r = (durability, r)
  located id (some none) r = (rejected artifact_unknown_digest, r)
  located id (some (some path)) r = (done (id, out.relative_display path), r)

  unfoldable pub reuse_stored : Text → Option Text → S (Run W Parsed) (Text × Text)
  unfolding located
  reuse_stored digest media_type r = elim (parse_artifact_id (artifact_prefix ++ digest)) [
    | invalid e ↦ (rejected artifact_unknown_digest, r)
    | valid id ↦
        located (show_artifact_id id) (out.find_artifact (show_artifact_id id) media_type r.world) r
  ]

  -- The stored artifact against the digest of the verified read.
  unfoldable pub confirm_stored : Text → StoredArtifact → S (Run W Parsed) (Text × Text)
  unfolding count_stored
  confirm_stored digest stored r =
      if not (text_eq stored.id (artifact_prefix ++ digest))
      then (rejected artifact_digest_mismatch, r)
      else (on_counts (count_stored stored.reused) >> pure (stored.id, stored.relative_path)) r

  abbrev pub detected : Option Text → Text → Option Text
  detected (some media_type) bytes = some media_type
  detected none bytes = out.detect_media_type bytes

  unfoldable pub install_bytes : Text → Option Text → Option Text → S (Run W Parsed) (Text × Text)
  unfolding confirm_stored
  install_bytes digest media_type none r = (rejected artifact_missing_staged_file, r)
  install_bytes digest media_type (some bytes) r =
      (do
        stored ← λ r. or_durability (out.store_artifact bytes (detected media_type bytes) r.world) r
        confirm_stored digest stored)
        r

  unfoldable pub install_staged : ArtifactRef → Text → Option Text → S (Run W Parsed) (Text × Text)
  unfolding install_bytes
  install_staged reference digest media_type = do
    handle ← or_rejected (parsed_handle reference)
    λ r. install_bytes digest media_type (out.read_staged handle r.world) r

  unfoldable pub install_resolved : ArtifactRef → ResolvedArtifact → S (Run W Parsed) (Text × Text)
  unfolding reuse_stored install_staged
  install_resolved reference artifact =
      if artifact.reused
      then (if is_digest_only reference.kind
          then reuse_stored artifact.digest (declared_essence reference.media_type)
          else install_staged reference artifact.digest (declared_essence reference.media_type))
      else install_staged reference artifact.digest (declared_essence reference.media_type)

  -- One turn of install_artifacts' loop.
  unfoldable pub install_one :
      ArtifactRef → ArtifactOutcome → ArtifactProjection → S (Run W Parsed) ArtifactProjection
  unfolding install_resolved
  install_one reference (declined artifact) projection = pure (
      push_skipped
        (record {
          attachment_ref = artifact.attachment_ref;
          source_filename = artifact.source_filename;
        })
        projection)
  install_one reference (resolved artifact) projection = do
    stored ← install_resolved reference artifact
    λ r. (done tt, record r { digests = artifact.digest ∷ r.digests })
    pure (
        push_retained
          (record {
            artifact_id = stored.0;
            relative_path = stored.1;
            role = reference.role;
            source_filename = reference.source_filename;
          })
          projection)

  -- The loop over the references and their outcomes, as far as both go.
  unfoldable pub install_all :
      List ArtifactRef
      → List ArtifactOutcome
      → ArtifactProjection
      → S (Run W Parsed) ArtifactProjection
  unfolding install_one
  install_all (reference ∷ references) (outcome ∷ outcomes) projection = do
    next ← install_one reference outcome projection
    install_all references outcomes next
  install_all _ _ projection = pure projection

  abbrev pub references_of : RecordEvent → List ArtifactRef
  references_of event = elim event.artifacts [ none ↦ [] | some references ↦ references ]

  unfoldable pub install_artifacts :
      RecordEvent → List ArtifactOutcome → S (Run W Parsed) ArtifactProjection
  unfolding install_all
  install_artifacts event outcomes =
      install_all (references_of event) outcomes (record { retained = []; skipped_artifacts = [] })

  -- session.resolve_artifacts on the run's session, with the digests that core holds.
  unfoldable pub resolve : RecordEvent → S (Run W Parsed) (List ArtifactOutcome)
  resolve event r =
      let answer =
        resolve_artifacts context.serde.sha256 context.staging (contains_text r.digests) event
          r.session in
      or_rejected answer.0 (record r { session = answer.1 })
