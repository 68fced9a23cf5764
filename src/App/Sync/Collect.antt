-- ===== src/App/Sync/Collect.antt =====
-- sync/mod.rs, collect: the loop over the child's frames, the decision on each checkpoint, and what
-- follows the child's exit. The child is a parameter: whether the request could be sent, the frames
-- that it wrote, and how it was seen to exit. The diagnostics that the report shows are left out.
use fieldnotes.Prelude.{
  ◌+◌, Text, text_eq, Bool, ◌&&◌, ◌||◌, Option, none, some, List, [], ◌∷◌, ◌++◌, any, if◌then◌else◌,
}
use fieldnotes.Protocol.Codes.{RejectionCode, Result, ok, err, protocol_schema_invalid}
use fieldnotes.Protocol.Message.{
  FieldEvent, RecordEvent, record_event, manifest_event, checkpoint_event, diagnostic_event,
}
use fieldnotes.Protocol.Session.State.{Session, CheckpointOffer, CommittedCursor, is_some}
use fieldnotes.Protocol.Session.Records.{AcceptedRecord}
use fieldnotes.Protocol.Session.Commit.{
  CommitRefusal, CommitResult, granted, refused, commit, withhold, note_rejection,
}
use fieldnotes.Protocol.Session.Steps.{
  AcceptedEvent, accepted_record, checkpoint, diagnostic, accept,
}
use fieldnotes.App.Sync.State.{
  StoredCursor, Outside, CollectContext, Run, ApplyResult, done, rejected, durability,
}
use fieldnotes.App.Sync.Records.{apply_record}

-- What the child's output gives: an event, or a frame that cannot be read or decoded.
pub data Frame : Type 0 where
  decoded : FieldEvent → Frame
  broken : RejectionCode → Frame

-- Why a checkpoint was withheld.
pub data WithheldReason : Type 0 where
  refused_by_session : CommitRefusal → WithheldReason
  cursor_not_recorded : WithheldReason

pub data Failure : Type 0 where
  durable_write_failed removal_failed : Failure

-- The locals of collect that its loop changes.
pub record Loop (W Parsed : Type 0) : Type 0 where
  pub run : Run W Parsed
  pub committed : Option StoredCursor
  pub withheld : List WithheldReason
  pub reported : List (Text × Text)
  pub rejection : Option RejectionCode
  pub failure : Option Failure

pub data Decision : Type 0 where
  stored : StoredCursor → Decision
  held_back : WithheldReason → Decision

-- `while rejection.is_none() && failure.is_none()`, negated
unfoldable pub stopped : {W Parsed : Type 0} → Loop W Parsed → Bool
stopped l = is_some l.rejection || is_some l.failure

-- A broken frame, or a rejection by apply_record.
unfoldable pub reject_run : {W Parsed : Type 0} → RejectionCode → Loop W Parsed → Loop W Parsed
reject_run code l = record l {
  run = record l.run { session = note_rejection l.run.session };
  rejection = some code;
}

-- BTreeSet::contains over pairs.
unfoldable pub contains_pair : List (Text × Text) → Text × Text → Bool
contains_pair pairs p = any (λ q. text_eq q.0 p.0 && text_eq q.1 p.1) pairs

module _ {W Parsed Candidate : Type 0} (out : Outside W Parsed Candidate)
    (context : CollectContext) where
  abbrev pub cursor_to_store : CommittedCursor → StoredCursor
  cursor_to_store cursor = record {
    cursor = cursor.cursor;
    cursor_format_version = cursor.cursor_format_version;
    covers_record_seq_through = cursor.covers_record_seq_through;
    committed_at = context.started_at;
  }

  abbrev pub written : StoredCursor → Option (Unit {0}) × W → Run W Parsed → Decision × Run W Parsed
  written cursor (none, w) r = (held_back cursor_not_recorded, record r { world = w })
  written cursor (some _, w) r = (stored cursor, record r { world = w })

  unfoldable pub decide :
      CheckpointOffer
      → CommitResult CommittedCursor × Session
      → Run W Parsed
      → Decision × Run W Parsed
  decide offer (granted cursor, s) r =
      written (cursor_to_store cursor) (out.write_cursor (cursor_to_store cursor) r.world)
        (record r { session = s })
  decide offer (refused refusal, s) r =
      (held_back (refused_by_session refusal), record r { session = (withhold offer s).1 })

  unfoldable pub commit_checkpoint : CheckpointOffer → Run W Parsed → Decision × Run W Parsed
  unfolding decide
  commit_checkpoint offer r = decide offer (commit offer r.session) r

  unfoldable pub after_checkpoint : Decision × Run W Parsed → Loop W Parsed → Loop W Parsed
  after_checkpoint (stored cursor, r) l = record l { run = r; committed = some cursor }
  after_checkpoint (held_back reason, r) l = record l {
    run = r;
    withheld = l.withheld ++ (reason ∷ []);
  }

  unfoldable pub after_apply : ApplyResult (Unit {0}) × Run W Parsed → Loop W Parsed → Loop W Parsed
  after_apply (done _, r) l = record l { run = r }
  after_apply (rejected code, r) l = reject_run code (record l { run = r })
  after_apply (durability, r) l = record l {
    run = record r {
      counts = record r.counts { durable_write_failures = r.counts.durable_write_failures + 1 };
    };
    failure = some durable_write_failed;
  }

  unfoldable pub take_record : RecordEvent → AcceptedRecord → Loop W Parsed → Loop W Parsed
  take_record event accepted l =
      after_apply (apply_record out context event accepted.seq accepted.disposition l.run)
        (record l { reported = (event.source.scope, event.source.identity) ∷ l.reported })

  -- The arm of an accepted record; only a record frame is ever accepted as one.
  unfoldable pub take_accepted : FieldEvent → AcceptedRecord → Loop W Parsed → Loop W Parsed
  unfolding take_record
  take_accepted (record_event event) accepted l = take_record event accepted l
  take_accepted (manifest_event _) accepted l = record l {
    rejection = some protocol_schema_invalid;
  }
  take_accepted (checkpoint_event _) accepted l = record l {
    rejection = some protocol_schema_invalid;
  }
  take_accepted (diagnostic_event _) accepted l = record l {
    rejection = some protocol_schema_invalid;
  }

  unfoldable pub handle : FieldEvent → Result AcceptedEvent → Loop W Parsed → Loop W Parsed
  unfolding take_accepted after_checkpoint commit_checkpoint
  handle event (err code) l = record l { rejection = some code }
  handle event (ok (accepted_record accepted)) l = take_accepted event accepted l
  handle event (ok (checkpoint offer)) l = after_checkpoint (commit_checkpoint offer l.run) l
  handle event (ok (diagnostic seq severity)) l = l

  -- One turn of the loop.
  unfoldable pub turn : Frame → Loop W Parsed → Loop W Parsed
  unfolding handle
  turn (broken code) l = reject_run code l
  turn (decoded e) l =
      let answer = accept context.serde e l.run.session in
      handle e answer.0 (record l { run = record l.run { session = answer.1 } })

  -- The loop: the end of the frames is the end of the child's output.
  unfoldable pub collect_frames : List Frame → Loop W Parsed → Loop W Parsed
  unfolding turn stopped
  collect_frames [] l = l
  collect_frames (f ∷ fs) l =
      let rest = collect_frames fs (turn f l) in if stopped l then l else rest
