-- ===== src/Protocol/Session/Artifacts.antt =====
-- session.rs, resolve_artifacts: a record's references against the run's staged-byte budget.
use fieldnotes.Prelude.{Text, Bool, none, some, List, [], ◌∷◌, ltb, if◌then◌else◌, saturating_add}
use fieldnotes.Protocol.Codes.{ok, err, protocol_limit_exceeded}
use fieldnotes.Protocol.Message.{RecordEvent, ArtifactRef}
use fieldnotes.Protocol.Artifact.{Staging, ArtifactOutcome, resolved, declined, resolve_artifact}
use fieldnotes.Protocol.Session.State.{M, ◌>>=◌, ◌>>◌, pure, fail, fail_if}

-- Bytes that core already stores are not staged again.
unfoldable pub charge : ArtifactOutcome → M (Unit {0})
charge (declined artifact) s = (ok tt, s)
charge (resolved artifact) s =
    if artifact.reused
    then (ok tt, s)
    else (do
      λ s. (ok tt, record s { staged_bytes = saturating_add s.staged_bytes artifact.byte_length })
      λ s. fail_if (ltb s.limits.max_run_artifact_bytes s.staged_bytes) protocol_limit_exceeded s)
        s

module _ (sha256 : Text → Text) (staging : Staging) (contains_digest : Text → Bool) where
  unfoldable pub resolve_reference : ArtifactRef → M ArtifactOutcome
  unfolding charge
  resolve_reference reference s =
      elim (resolve_artifact sha256 staging reference s.limits s.media_type_policy
        contains_digest) [
          | err code ↦ fail code s
          | ok outcome ↦ (charge outcome >> pure outcome) s
        ]

  -- The loop over the references.
  unfoldable pub resolve_references : List ArtifactRef → M (List ArtifactOutcome)
  unfolding resolve_reference
  resolve_references [] = pure []
  resolve_references (reference ∷ rest) = do
    outcome ← resolve_reference reference
    outcomes ← resolve_references rest
    pure (outcome ∷ outcomes)

  unfoldable pub resolve_artifacts : RecordEvent → M (List ArtifactOutcome)
  unfolding resolve_references
  resolve_artifacts event = elim event.artifacts [
    | none ↦ pure []
    | some references ↦ resolve_references references
  ]
