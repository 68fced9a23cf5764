-- ===== src/Protocol/Session/Steps.antt =====
-- session.rs, accept, and the histories of calls that core makes on one session. The environment of
-- a history is what the calls are given: the encoder, and the staged files with the digest index.
use fieldnotes.Prelude.{ℕ, Text, Bool, List, [], ◌∷◌, if◌then◌else◌}
use fieldnotes.Protocol.Codes.{err, protocol_unexpected_order}
use fieldnotes.Protocol.Message.{
  FieldEvent, RecordEvent, Severity, manifest_event, record_event, checkpoint_event,
  diagnostic_event,
}
use fieldnotes.Protocol.Artifact.{Staging}
use fieldnotes.Protocol.Session.State.{Session, CheckpointOffer, M, ◌>>=◌, fail, is_some, pure}
use fieldnotes.Protocol.Session.Records.{Serde, AcceptedRecord, accept_record, accept_diagnostic}
use fieldnotes.Protocol.Session.Checkpoints.{accept_checkpoint}
use fieldnotes.Protocol.Session.Commit.{record_durable, commit, withhold, note_rejection}
use fieldnotes.Protocol.Session.Artifacts.{resolve_artifacts}

pub data AcceptedEvent : Type 0 where
  accepted_record : AcceptedRecord → AcceptedEvent
  checkpoint : CheckpointOffer → AcceptedEvent
  diagnostic : ℕ → Severity → AcceptedEvent

-- The match of `accept`.
unfoldable pub dispatch : Serde → FieldEvent → M AcceptedEvent
dispatch serde (manifest_event _) = fail protocol_unexpected_order
dispatch serde (record_event event) = do
  accepted ← accept_record serde event
  pure (accepted_record accepted)
dispatch serde (checkpoint_event event) = do
  offer ← accept_checkpoint event
  pure (checkpoint offer)
dispatch serde (diagnostic_event event) = do
  accepted ← accept_diagnostic event
  pure (diagnostic accepted.0 accepted.1)

unfoldable pub accept : Serde → FieldEvent → M AcceptedEvent
accept serde event s =
    if s.rejected
    then (err protocol_unexpected_order, s)
    else if is_some s.pending_offer
    then fail protocol_unexpected_order s
    else dispatch serde event s

-- One call of a method that changes the session.
pub data Call : Type 0 where
  accepts : FieldEvent → Call
  resolves : Staging → (Text → Bool) → RecordEvent → Call
  made_durable : ℕ → Call
  commits withholds : CheckpointOffer → Call
  notes_rejection : Call

unfoldable pub step : Serde → Session → Call → Session
step serde s (accepts event) = (accept serde event s).1
step serde s (resolves staging contains_digest event) =
    (resolve_artifacts serde.sha256 staging contains_digest event s).1
step serde s (made_durable seq) = record_durable seq s
step serde s (commits offer) = (commit offer s).1
step serde s (withholds offer) = (withhold offer s).1
step serde s notes_rejection = note_rejection s

unfoldable pub run : Serde → Session → List Call → Session
unfolding step
run serde s [] = s
run serde s (c ∷ cs) = run serde (step serde s c) cs
