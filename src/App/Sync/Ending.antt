-- ===== src/App/Sync/Ending.antt =====
-- sync/mod.rs, the end of collect: how the run ended, and the removal of notes that a complete snapshot
-- did not report; and collect as a whole. The child is a parameter: whether it could be started and sent
-- the request, the frames that it wrote, and how it was seen to exit.
use fieldnotes.Prelude.{
  ℕ, ◌+◌, Text, Bool, true, false, not, ◌&&◌, ◌||◌, Option, none, some, List, [], ◌∷◌, ltb,
  if◌then◌else◌,
}
use fieldnotes.Domain.Stems.{FieldStemRegistry}
use fieldnotes.Protocol.Codes.{RejectionCode, ok, err}
use fieldnotes.Protocol.Message.{Manifest, CollectRequest}
use fieldnotes.Protocol.Declared.{index_of}
use fieldnotes.Protocol.Session.State.{is_some, new}
use fieldnotes.Protocol.Session.Finish.{ExitObservation, terminated_by_core, timeout, finish}
use fieldnotes.Store.Index.{IndexedNote, SourceIndex, SourceKey, get, remove, keys_in_scope}
use fieldnotes.App.Sync.State.{
  SyncCounts, FieldRunOutcome, complete, partial, from_run, DeletionReport, from_authorization,
  incomplete_durable_write, StoredCursor, Outside, CollectContext, Run, no_counts,
}
use fieldnotes.App.Sync.Collect.{
  Frame, WithheldReason, Failure, removal_failed, Loop, stopped, reject_run, contains_pair,
  collect_frames,
}

abbrev pub is_complete : FieldRunOutcome → Bool
is_complete complete = true
is_complete _ = false

module _ {W Parsed : Type 0} where
  -- A durable write failed, or a checkpoint was withheld.
  unfoldable pub fell_short : Loop W Parsed → Bool
  fell_short l =
      ltb 0 l.run.counts.durable_write_failures || (elim l.withheld [ [] ↦ false | _ ↦ true ])

  unfoldable pub lowered_outcome : Loop W Parsed → FieldRunOutcome → FieldRunOutcome
  lowered_outcome l reported = if is_complete reported && fell_short l then partial else reported

  unfoldable pub lowered_deletion : Loop W Parsed → DeletionReport → DeletionReport
  lowered_deletion l deletion =
      if is_some deletion.authorized_scope && fell_short l
      then record { authorized_scope = none; refusals = incomplete_durable_write ∷ [] }
      else deletion

  -- The outcome and the deletion report that follow from the session's report on the loop's end.
  abbrev pub ending_outcome : ExitObservation → Loop W Parsed → FieldRunOutcome
  ending_outcome exit l = lowered_outcome l (from_run (finish l.run.session exit).outcome)

  abbrev pub ending_deletion : ExitObservation → Loop W Parsed → DeletionReport
  ending_deletion exit l =
      lowered_deletion l (from_authorization (finish l.run.session exit).deletion)

module _ {W Parsed Candidate : Type 0} (out : Outside W Parsed Candidate)
    (context : CollectContext) where
  -- The keys of a scope that the run did not report.
  unfoldable pub absent_keys :
      List (Text × Text) → List (SourceKey × IndexedNote Parsed) → List (Text × Text)
  absent_keys reported [] = []
  absent_keys reported ((k, note) ∷ rest) =
      let later = absent_keys reported rest in
      if not (contains_pair reported (k.scope, k.identity))
      then (k.scope, k.identity) ∷ later
      else later

  -- What a turn of remove_absent_notes makes of the answer of remove_note, before the turns that follow.
  abbrev pub removed_one :
      Text × Text
      → (ℕ → Run W Parsed → Option ℕ × Run W Parsed)
      → ℕ
      → Option Bool × W
      → Run W Parsed
      → Option ℕ × Run W Parsed
  removed_one k next n (none, w) r = (none, record r { world = w })
  removed_one k next n (some _, w) r =
      next (n + 1) (record r { world = w; index = remove context.field_id k.0 k.1 r.index })

  abbrev pub remove_found :
      Text × Text
      → (ℕ → Run W Parsed → Option ℕ × Run W Parsed)
      → ℕ
      → Option (IndexedNote Parsed)
      → Run W Parsed
      → Option ℕ × Run W Parsed
  remove_found k next n none r = next n r
  remove_found k next n (some note) r =
      removed_one k next n (out.remove_note note.filename r.world) r

  unfoldable pub remove_keys : List (Text × Text) → ℕ → Run W Parsed → Option ℕ × Run W Parsed
  remove_keys [] n r = (some n, r)
  remove_keys (k ∷ ks) n r =
      remove_found k (remove_keys ks) n (get r.index context.field_id k.0 k.1) r

  unfoldable pub remove_absent_notes :
      Text → List (Text × Text) → Run W Parsed → Option ℕ × Run W Parsed
  unfolding remove_keys absent_keys
  remove_absent_notes scope reported r =
      remove_keys (absent_keys reported (keys_in_scope r.index context.field_id scope)) 0 r

  abbrev pub after_removal : Option ℕ × Run W Parsed → Loop W Parsed → Loop W Parsed
  after_removal (some n, r) l = record l {
    run = record r { counts = record r.counts { removed_by_snapshot = n } };
  }
  after_removal (none, r) l = record l { run = r; failure = some removal_failed }

  -- Removal in the scope that the report authorizes, after a complete run.
  unfoldable pub reconcile : Option Text → FieldRunOutcome → Loop W Parsed → Loop W Parsed
  unfolding remove_absent_notes
  reconcile (some scope) complete l = after_removal (remove_absent_notes scope l.reported l.run) l
  reconcile _ _ l = l

-- ExitObservation after the grace period: a child that did not exit is terminated.
unfoldable pub after_grace : ExitObservation → ExitObservation
after_grace timeout = terminated_by_core
after_grace observed = observed

-- What the run knows of its child. `waited` is none where waiting for it fails.
pub record Child : Type 0 where
  pub send_error : Option RejectionCode
  pub frames : List Frame
  pub waited : Option ExitObservation

pub record FieldSyncReport : Type 0 where
  pub outcome : FieldRunOutcome
  pub counts : SyncCounts
  pub cursor_committed : Bool
  pub cursor_coverage : Option ℕ
  pub withheld_checkpoints : List WithheldReason
  pub deletion : DeletionReport
  pub rejection : Option RejectionCode
  pub failure : Option Failure
  pub exit : ExitObservation
  pub conflicts : List SourceKey

-- Result<FieldSyncReport, Refusal>
pub data SyncResult (A : Type 0) : Type 0 where
  reports : A → SyncResult A
  unusable_manifest could_not_start child_not_started could_not_wait : SyncResult A

abbrev pub fresh_loop : {W Parsed : Type 0} → Run W Parsed → Loop W Parsed
fresh_loop r = record {
  run = r;
  committed = none;
  withheld = [];
  reported = [];
  rejection = none;
  failure = none;
}

-- The locals of collect before its loop; a request that cannot be sent rejects the run.
unfoldable pub before_loop :
    {W Parsed : Type 0} → Option RejectionCode → Run W Parsed → Loop W Parsed
before_loop none r = fresh_loop r
before_loop (some code) r = reject_run code (fresh_loop r)

-- How the child was seen to exit: after the grace period where core stopped reading.
unfoldable pub exit_of : Bool → ExitObservation → ExitObservation
unfolding after_grace
exit_of true observed = after_grace observed
exit_of false observed = observed

abbrev pub coverage_of : Option StoredCursor → Option ℕ
coverage_of none = none
coverage_of (some cursor) = some cursor.covers_record_seq_through

unfoldable pub report_of :
    {W Parsed : Type 0}
    → ExitObservation
    → FieldRunOutcome
    → DeletionReport
    → Loop W Parsed
    → FieldSyncReport
report_of exit outcome deletion l = record {
  outcome = outcome;
  counts = l.run.counts;
  cursor_committed = is_some l.committed;
  cursor_coverage = coverage_of l.committed;
  withheld_checkpoints = l.withheld;
  deletion = deletion;
  rejection = l.rejection;
  failure = l.failure;
  exit = exit;
  conflicts = l.run.index.duplicates;
}

module _ {W Parsed Candidate : Type 0} (out : Outside W Parsed Candidate)
    (context : CollectContext) where
  -- The loop's locals after the removal of absent notes.
  unfoldable pub reconciled : ExitObservation → Loop W Parsed → Loop W Parsed
  unfolding reconcile lowered_outcome lowered_deletion
  reconciled exit l =
      reconcile out context (ending_deletion exit l).authorized_scope (ending_outcome exit l) l

  unfoldable pub end_run :
      ExitObservation → Loop W Parsed → SyncResult FieldSyncReport × Run W Parsed
  unfolding report_of reconciled lowered_outcome lowered_deletion
  end_run exit l = (
    reports (report_of exit (ending_outcome exit l) (ending_deletion exit l) (reconciled exit l)),
    (reconciled exit l).run,
  )

  unfoldable pub after_loop :
      Option ExitObservation → Loop W Parsed → SyncResult FieldSyncReport × Run W Parsed
  unfolding end_run stopped exit_of
  after_loop none l = (could_not_wait, l.run)
  after_loop (some observed) l = end_run (exit_of (stopped l) observed) l

  unfoldable pub with_child :
      Option Child → Run W Parsed → SyncResult FieldSyncReport × Run W Parsed
  unfolding after_loop collect_frames before_loop
  with_child none r = (child_not_started, r)
  with_child (some child) r =
      after_loop child.waited
        (collect_frames out context child.frames (before_loop child.send_error r))

  -- collect, for a Field whose notes are indexed already; `child` is none where it cannot be started.
  unfoldable pub collect :
      CollectRequest
      → Manifest
      → FieldStemRegistry
      → Option Child
      → W
      → SourceIndex Parsed
      → List Text
      → SyncResult FieldSyncReport × W
  unfolding with_child
  collect request manifest stems child world index digests = elim (index_of manifest stems) [
    | err code ↦ (unusable_manifest, world)
    | ok declared ↦ elim (new request manifest stems) [
      | err code ↦ (could_not_start, world)
      | ok session ↦
          let ended = with_child child (record {
            session = session;
            world = world;
            index = index;
            counts = no_counts;
            digests = digests;
          }) in
          (ended.0, ended.1.world)
    ]
  ]
