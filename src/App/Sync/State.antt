-- ===== src/App/Sync/State.antt =====
-- sync/mod.rs, sync/report.rs and sync/project.rs: the state of a collect run. The notebook's files, the
-- clock and the random source are the parameter `Outside`: a world of type `W`, and what each call on
-- it returns with the world that it leaves.
use fieldnotes.Prelude.{ℕ, Text, Bool, true, false, not, Option, none, some, List, [], ◌∷◌, ◌==◌}
use fieldnotes.Protocol.Codes.{RejectionCode, Result, ok, err, RunOutcome}
use fieldnotes.Protocol.Message.{RecordEvent, ArtifactRole, CollectionMode}
use fieldnotes.Protocol.Artifact.{Staging}
use fieldnotes.Protocol.Session.State.{Session}
use fieldnotes.Protocol.Session.Records.{Serde}
use fieldnotes.Protocol.Session.Finish.{DeletionRefusal, DeletionAuthorization, authorized, refused}
use fieldnotes.Store.Index.{SourceIndex, NoteParser}

pub record SyncCounts : Type 0 where
  pub records_accepted : ℕ
  pub created : ℕ
  pub updated : ℕ
  pub unchanged : ℕ
  pub removed_by_tombstone : ℕ
  pub removed_by_snapshot : ℕ
  pub renamed : ℕ
  pub artifacts_stored : ℕ
  pub artifacts_reused : ℕ
  pub attachments_skipped : ℕ
  pub damaged : ℕ
  pub truncated : ℕ
  pub durable_write_failures : ℕ

-- SyncCounts::default
abbrev pub no_counts : SyncCounts
no_counts = record {
  records_accepted = 0;
  created = 0;
  updated = 0;
  unchanged = 0;
  removed_by_tombstone = 0;
  removed_by_snapshot = 0;
  renamed = 0;
  artifacts_stored = 0;
  artifacts_reused = 0;
  attachments_skipped = 0;
  damaged = 0;
  truncated = 0;
  durable_write_failures = 0;
}

pub data FieldRunOutcome : Type 0 where
  complete partial failed skipped : FieldRunOutcome

-- FieldRunOutcome::from_run
unfoldable pub from_run : RunOutcome → FieldRunOutcome
from_run RunOutcome.complete = complete
from_run RunOutcome.partial = partial
from_run RunOutcome.failed = failed

-- FieldRunOutcome::is_success
unfoldable pub is_success : FieldRunOutcome → Bool
is_success complete = true
is_success skipped = true
is_success _ = false

-- Why absence is not taken for deletion: the session's reasons, or the one that the run adds.
pub data RefusalReason : Type 0 where
  by_session : DeletionRefusal → RefusalReason
  incomplete_durable_write : RefusalReason

pub record DeletionReport : Type 0 where
  pub authorized_scope : Option Text
  pub refusals : List RefusalReason

unfoldable pub by_session_all : List DeletionRefusal → List RefusalReason
by_session_all [] = []
by_session_all (r ∷ rs) = by_session r ∷ by_session_all rs

-- DeletionReport::from_authorization
unfoldable pub from_authorization : DeletionAuthorization → DeletionReport
unfolding by_session_all
from_authorization (authorized scope) = record { authorized_scope = some scope; refusals = [] }
from_authorization (refused reasons) = record {
  authorized_scope = none;
  refusals = by_session_all reasons;
}

pub data DurabilityPolicy : Type 0 where
  all_succeed : DurabilityPolicy
  fail_at : ℕ → DurabilityPolicy

-- DurabilityPolicy::succeeds
unfoldable pub succeeds : DurabilityPolicy → ℕ → Bool
succeeds all_succeed seq = true
succeeds (fail_at failing) seq = not (seq == failing)

pub data SyncMode : Type 0 where
  incremental snapshot : SyncMode

-- SyncMode::protocol
unfoldable pub protocol : SyncMode → CollectionMode
protocol incremental = CollectionMode.incremental
protocol snapshot = CollectionMode.snapshot

pub record RetainedArtifact : Type 0 where
  pub artifact_id : Text
  pub relative_path : Text
  pub role : ArtifactRole
  pub source_filename : Option Text

pub record SkippedArtifact : Type 0 where
  pub attachment_ref : Text
  pub source_filename : Option Text

pub record ArtifactProjection : Type 0 where
  pub retained : List RetainedArtifact
  pub skipped_artifacts : List SkippedArtifact

pub record StoredCursor : Type 0 where
  pub cursor : Text
  pub cursor_format_version : ℕ
  pub covers_record_seq_through : ℕ
  pub committed_at : Text

pub record NoteWrite : Type 0 where
  pub path : Text
  pub filename : Text
  pub replaced : Bool
  pub removed_previous : Option Text

pub record StoredArtifact : Type 0 where
  pub id : Text
  pub path : Text
  pub relative_path : Text
  pub reused : Bool

-- What the run asks of the notebook and of the kernel, for one Field; an error is `none`. `new_record`
-- returns an ID and the instant of the capture, `build_note` is project::build_note for this Field,
-- `fingerprint` is record_fingerprint of semantic_record_string.
pub record Outside (W Parsed Candidate : Type 0) : Type 0 where
  pub remove_note : Text → W → Option Bool × W
  pub write_note : Candidate → W → Option NoteWrite × W
  pub replace_note : Candidate → Text → W → Option NoteWrite × W
  pub write_cursor : StoredCursor → W → Option (Unit {0}) × W
  pub read_staged : Text → W → Option Text
  pub detect_media_type : Text → Option Text
  pub store_artifact : Text → Option Text → W → Option StoredArtifact × W
  pub find_artifact : Text → Option Text → W → Option (Option Text)
  pub relative_display : Text → Text
  pub new_record : W → Option (Text × Text) × W
  pub build_note : Text → RecordEvent → ArtifactProjection → Text → Result Candidate
  pub content_of : Candidate → Parsed
  pub fingerprint : Parsed → Option Text
  pub note_filename : Candidate → Option Text
  pub parser : NoteParser Parsed

-- The fixed part of a CollectContext. The staged files are taken not to change during the run.
pub record CollectContext : Type 0 where
  pub field_id : Text
  pub started_at : Text
  pub durability : DurabilityPolicy
  pub staging : Staging
  pub serde : Serde

-- What a run changes while it applies records. `digests` are the StoredDigests.
pub record Run (W Parsed : Type 0) : Type 0 where
  pub session : Session
  pub world : W
  pub index : SourceIndex Parsed
  pub counts : SyncCounts
  pub digests : List Text

-- Result<A, ApplyError>
pub data ApplyResult (A : Type 0) : Type 0 where
  done : A → ApplyResult A
  rejected : RejectionCode → ApplyResult A
  durability : ApplyResult A

abbrev pub S : Type 0 → Type 0 → Type 0
S R A = R → ApplyResult A × R

module _ {R : Type 0} where
  abbrev pub continue :
      {A B : Type 0} → ApplyResult A → (A → R → ApplyResult B × R) → R → ApplyResult B × R
  continue (done a) f r = f a r
  continue (rejected code) f r = (rejected code, r)
  continue durability f r = (durability, r)

  infixl 5 ◌>>=◌ ◌>>◌
  abbrev pub ◌>>=◌ :
      {A B : Type 0} → (R → ApplyResult A × R) → (A → R → ApplyResult B × R) → R → ApplyResult B × R
  ◌>>=◌ m f r = continue (m r).0 f (m r).1

  abbrev pub ◌>>◌ :
      {A : Type 0}
      → (R → ApplyResult (Unit {0}) × R)
      → (R → ApplyResult A × R)
      → R
      → ApplyResult A × R
  first >> next = first >>= λ _. next

  abbrev pub pure : {A : Type 0} → A → R → ApplyResult A × R
  pure a r = (done a, r)

  -- `.map_err(ApplyError::Rejected)`
  abbrev pub or_rejected : {A : Type 0} → Result A → R → ApplyResult A × R
  or_rejected (ok a) r = (done a, r)
  or_rejected (err code) r = (rejected code, r)

module _ {W Parsed : Type 0} where
  -- A call on the world, whose error is ApplyError::Durability.
  abbrev pub or_durability :
      {A : Type 0} → Option A × W → Run W Parsed → ApplyResult A × Run W Parsed
  or_durability (some a, w) r = (done a, record r { world = w })
  or_durability (none, w) r = (durability, record r { world = w })

  abbrev pub on_session : (Session → Session) → Run W Parsed → ApplyResult (Unit {0}) × Run W Parsed
  on_session f r = (done tt, record r { session = f r.session })

  abbrev pub on_counts :
      (SyncCounts → SyncCounts) → Run W Parsed → ApplyResult (Unit {0}) × Run W Parsed
  on_counts f r = (done tt, record r { counts = f r.counts })
