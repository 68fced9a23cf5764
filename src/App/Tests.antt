-- ===== src/App/Tests.antt =====
-- sync/mod.rs: runs over a small notebook, and the properties of runs at them.
use fieldnotes.Prelude.{
  ℕ, ◌+◌, ◌≡◌, ◌⊎◌, refl, Text, text, text_eq, text_ltb, option_text_eq, true, false, none, some,
  List, [], ◌∷◌, All, arith,
}
use fieldnotes.Protocol.Codes.{ok}
use fieldnotes.Protocol.Message.{RecordEvent, record_event, checkpoint_event}
use fieldnotes.Protocol.Artifact.{Staging}
use fieldnotes.Protocol.Session.State.{contains}
use fieldnotes.Protocol.Session.Finish.{exited}
use fieldnotes.Protocol.Session.Samples.{
  request, manifest, stems, serde, letter, check_at, whole_inbox, fresh, fresh_new,
}
use fieldnotes.Store.Index.{IndexedNote, SourceKey, source_key, find_key}
use fieldnotes.App.Sync.State.{
  Outside, CollectContext, Run, all_succeed, no_counts, NoteWrite, StoredCursor, complete,
}
use fieldnotes.App.Sync.Collect.{Frame, decoded, Loop, stopped, collect_frames, cursor_not_recorded}
use fieldnotes.App.Sync.Ending.{before_loop, reconciled, ending_outcome, ending_deletion}
use fieldnotes.App.Sync.Applied.{Effect, index_key}
use fieldnotes.App.Sync.Applying.{apply_record-Effect}
use fieldnotes.App.Sync.Durable.{
  all_records_durable, withheld_only_unrecorded, stored_cursor_durable,
}
use fieldnotes.App.Sync.Handshake.{Handshake}
use fieldnotes.App.Sync.Handshake.Kept.{collect-Handshake}
use fieldnotes.App.Sync.Removal.{Unreported}
use fieldnotes.App.Sync.Authority.{Justified, only_absent_removed, snapshot_converges}
use fieldnotes.Protocol.Session.State.{
  initial, insert, range, get_key, insert_key, advance_seq, check_run_id, check_not_after_final,
}
use fieldnotes.Protocol.Session.Records.{
  without, semantic_fingerprint, check_record_bound, check_object_kind, check_note_type, check_body,
  check_properties, check_artifacts, check_tombstone, check_record, dispose, install_record,
  accept_record,
}
use fieldnotes.Protocol.Session.Checkpoints.{
  records_between, check_coverage, check_cursor, check_scope, admit_claim, install_offer,
  accept_checkpoint,
}
use fieldnotes.Protocol.Session.Commit.{
  offer_eq, is_pending, find_undurable, first_undurable_through, record_durable, advance_cursor,
  commit, commit_durable,
}
use fieldnotes.Protocol.Session.Artifacts.{resolve_artifacts}
use fieldnotes.Protocol.Session.Steps.{accept, dispatch}
use fieldnotes.Protocol.Limits.{ceilings}
use fieldnotes.Store.Index.{get, put_key, key_eq, key_ltb, insert_note}
use fieldnotes.App.Sync.State.{succeeds}
use fieldnotes.App.Sync.Apply.{
  resolve, install_artifacts, install_all, count_accepted, count_integrity,
}
use fieldnotes.App.Sync.Records.{
  apply_record, apply_disposition, apply_upsert, apply_outcomes, apply_projection, apply_built,
  apply_fresh, apply_candidate, write_changed, install_note, after_write, mark_durable,
}
use fieldnotes.App.Sync.Collect.{
  turn, handle, take_accepted, take_record, after_apply, after_checkpoint, commit_checkpoint,
  decide,
}
use fieldnotes.Protocol.Session.Records.{upsert}
use fieldnotes.Protocol.Session.Finish.{
  finish, deletion_of, outcome_of, authorization, dedup, dedup_after, sort, insert_sorted,
  pushed_reasons, claim_reasons, snapshot_ok, claim_covers, is_normal,
}
use fieldnotes.Store.Index.{keys_in_scope, in_scope, drop_key, remove}
use fieldnotes.App.Sync.State.{from_run, from_authorization}
use fieldnotes.App.Sync.Ending.{
  fell_short, lowered_outcome, lowered_deletion, reconcile, remove_absent_notes, remove_keys,
  absent_keys,
}
use fieldnotes.App.Sync.Collect.{contains_pair}

-- A notebook that counts its writes. Its notes are their contents, and its contents the notes' names.
abbrev note_named : Text → NoteWrite
note_named t = record { path = t; filename = t; replaced = false; removed_previous = none }

abbrev notebook : Outside ℕ Text Text
notebook = record {
  remove_note = λ t w. (some true, w + 1);
  write_note = λ c w. (some (note_named c), w + 1);
  replace_note = λ c t w. (some (note_named c), w + 1);
  write_cursor = λ c w. (some tt, w + 1);
  read_staged = λ t w. none;
  detect_media_type = λ t. none;
  store_artifact = λ t m w. (none, w);
  find_artifact = λ t m w. some none;
  relative_display = λ t. t;
  new_record = λ w. (some (text "note", text "now"), w);
  build_note = λ id e p t. ok e.source.identity;
  content_of = λ c. c;
  fingerprint = λ c. some c;
  note_filename = λ c. some c;
  parser = record { id = λ c. c; property = λ c t. none };
}

abbrev staging : Staging
staging = record { symlink_metadata = λ t. none; open_without_following = λ t. none }

abbrev context : CollectContext
context = record {
  field_id = text "mail";
  started_at = text "now";
  durability = all_succeed;
  staging = staging;
  serde = serde;
}

-- A letter without attachments.
abbrev plain : ℕ → RecordEvent
plain q = record (letter q) { artifacts = none }

abbrev old_note : IndexedNote Text
old_note = record {
  path = text "old";
  filename = text "old";
  note_id = text "old";
  content = text "old";
}

abbrev old_key : SourceKey
old_key = source_key (text "mail") (text "inbox") (text "old")

abbrev before : Run ℕ Text
before = record {
  session = fresh;
  world = 0;
  index = record { notes = (old_key, old_note) ∷ []; duplicates = []; unparseable = [] };
  counts = no_counts;
  digests = [];
}

abbrev frames : List Frame
frames =
    decoded (record_event (plain 1))
    ∷ decoded (checkpoint_event (check_at 2 1 1 whole_inbox true))
    ∷ []

abbrev last : Loop ℕ Text
last = collect_frames notebook context frames (before_loop none before)

goes_on : stopped last ≡ false
unfolding text_eq text_ltb fresh request initial insert contains range get_key insert_key
    advance_seq check_run_id check_not_after_final without semantic_fingerprint check_record_bound
    check_object_kind check_note_type check_body check_properties check_artifacts check_tombstone
    check_record dispose install_record accept_record records_between check_coverage check_cursor
    check_scope admit_claim install_offer accept_checkpoint offer_eq is_pending find_undurable
    first_undurable_through record_durable advance_cursor commit commit_durable resolve_artifacts
    accept dispatch ceilings get find_key put_key key_eq key_ltb insert_note succeeds apply_record
    apply_disposition apply_upsert resolve apply_outcomes install_artifacts install_all
    apply_projection apply_built apply_fresh apply_candidate write_changed install_note after_write
    mark_durable count_accepted count_integrity stopped collect_frames turn handle take_accepted
    take_record after_apply after_checkpoint commit_checkpoint decide before_loop
goes_on = refl

letter_accepted : contains last.run.session.records_by_seq 1 ≡ true
unfolding text_eq text_ltb fresh request initial insert contains range get_key insert_key
    advance_seq check_run_id check_not_after_final without semantic_fingerprint check_record_bound
    check_object_kind check_note_type check_body check_properties check_artifacts check_tombstone
    check_record dispose install_record accept_record records_between check_coverage check_cursor
    check_scope admit_claim install_offer accept_checkpoint offer_eq is_pending find_undurable
    first_undurable_through record_durable advance_cursor commit commit_durable resolve_artifacts
    accept dispatch ceilings get find_key put_key key_eq key_ltb insert_note succeeds apply_record
    apply_disposition apply_upsert resolve apply_outcomes install_artifacts install_all
    apply_projection apply_built apply_fresh apply_candidate write_changed install_note after_write
    mark_durable count_accepted count_integrity stopped collect_frames turn handle take_accepted
    take_record after_apply after_checkpoint commit_checkpoint decide before_loop
letter_accepted = refl

all_records_durable_example : contains last.run.session.durable_seqs 1 ≡ true
all_records_durable_example =
    all_records_durable notebook context request manifest stems none before frames 1 fresh_new
      goes_on letter_accepted

collect-Handshake_example : Handshake serde frames fresh last.run.session (stopped last)
collect-Handshake_example =
    collect-Handshake notebook context request manifest stems before frames fresh_new

-- The same notebook, where no cursor can be recorded.
abbrev full : Outside ℕ Text Text
full = record notebook { write_cursor = λ c w. (none, w) }

withheld_only_unrecorded_example :
    All
      (λ reason. reason ≡ cursor_not_recorded)
      (collect_frames full context frames (before_loop none before)).withheld
withheld_only_unrecorded_example =
    withheld_only_unrecorded full context request manifest stems none before frames fresh_new

abbrev last_cursor : StoredCursor
last_cursor = record {
  cursor = text "c";
  cursor_format_version = 1;
  covers_record_seq_through = 1;
  committed_at = text "now";
}

cursor_stored : last.committed ≡ some last_cursor
unfolding text_eq text_ltb fresh request initial insert contains range get_key insert_key
    advance_seq check_run_id check_not_after_final without semantic_fingerprint check_record_bound
    check_object_kind check_note_type check_body check_properties check_artifacts check_tombstone
    check_record dispose install_record accept_record records_between check_coverage check_cursor
    check_scope admit_claim install_offer accept_checkpoint offer_eq is_pending find_undurable
    first_undurable_through record_durable advance_cursor commit commit_durable resolve_artifacts
    accept dispatch ceilings get find_key put_key key_eq key_ltb insert_note succeeds apply_record
    apply_disposition apply_upsert resolve apply_outcomes install_artifacts install_all
    apply_projection apply_built apply_fresh apply_candidate write_changed install_note after_write
    mark_durable count_accepted count_integrity stopped collect_frames turn handle take_accepted
    take_record after_apply after_checkpoint commit_checkpoint decide before_loop
cursor_stored = refl

stored_cursor_durable_example : contains last.run.session.durable_seqs 1 ≡ true
stored_cursor_durable_example =
    stored_cursor_durable notebook context request manifest stems none before frames 1 last_cursor
      fresh_new cursor_stored letter_accepted (omega arith)

apply_record-Effect_example :
    Effect serde fresh before.index
      (index_key context (plain 1))
      1
      upsert
      (apply_record notebook context (plain 1) 1 upsert before)
apply_record-Effect_example = apply_record-Effect notebook context (plain 1) 1 upsert before

only_absent_removed_example :
    (find_key (reconciled notebook context (exited 0) last).run.index.notes old_key
      ≡ find_key last.run.index.notes old_key)
    ⊎ (find_key (reconciled notebook context (exited 0) last).run.index.notes old_key ≡ none)
      × Justified notebook context (exited 0) last old_key
only_absent_removed_example = only_absent_removed notebook context (exited 0) last old_key

inbox_authorized : (ending_deletion (exited 0) last).authorized_scope ≡ some (text "inbox")
unfolding text_eq text_ltb fresh request initial insert contains range get_key insert_key
    advance_seq check_run_id check_not_after_final without semantic_fingerprint check_record_bound
    check_object_kind check_note_type check_body check_properties check_artifacts check_tombstone
    check_record dispose install_record accept_record records_between check_coverage check_cursor
    check_scope admit_claim install_offer accept_checkpoint offer_eq is_pending find_undurable
    first_undurable_through record_durable advance_cursor commit commit_durable resolve_artifacts
    accept dispatch ceilings get find_key put_key key_eq key_ltb insert_note succeeds apply_record
    apply_disposition apply_upsert resolve apply_outcomes install_artifacts install_all
    apply_projection apply_built apply_fresh apply_candidate write_changed install_note after_write
    mark_durable count_accepted count_integrity stopped collect_frames turn handle take_accepted
    take_record after_apply after_checkpoint commit_checkpoint decide before_loop finish deletion_of
    outcome_of authorization dedup dedup_after sort insert_sorted pushed_reasons claim_reasons
    snapshot_ok claim_covers is_normal option_text_eq from_run from_authorization fell_short
    lowered_outcome lowered_deletion reconciled reconcile remove_absent_notes remove_keys
    absent_keys keys_in_scope in_scope drop_key remove contains_pair
inbox_authorized = refl

run_complete : ending_outcome (exited 0) last ≡ complete
unfolding text_eq text_ltb fresh request initial insert contains range get_key insert_key
    advance_seq check_run_id check_not_after_final without semantic_fingerprint check_record_bound
    check_object_kind check_note_type check_body check_properties check_artifacts check_tombstone
    check_record dispose install_record accept_record records_between check_coverage check_cursor
    check_scope admit_claim install_offer accept_checkpoint offer_eq is_pending find_undurable
    first_undurable_through record_durable advance_cursor commit commit_durable resolve_artifacts
    accept dispatch ceilings get find_key put_key key_eq key_ltb insert_note succeeds apply_record
    apply_disposition apply_upsert resolve apply_outcomes install_artifacts install_all
    apply_projection apply_built apply_fresh apply_candidate write_changed install_note after_write
    mark_durable count_accepted count_integrity stopped collect_frames turn handle take_accepted
    take_record after_apply after_checkpoint commit_checkpoint decide before_loop finish deletion_of
    outcome_of authorization dedup dedup_after sort insert_sorted pushed_reasons claim_reasons
    snapshot_ok claim_covers is_normal option_text_eq from_run from_authorization fell_short
    lowered_outcome lowered_deletion reconciled reconcile remove_absent_notes remove_keys
    absent_keys keys_in_scope in_scope drop_key remove contains_pair
run_complete = refl

none_failed : (reconciled notebook context (exited 0) last).failure ≡ none
unfolding text_eq text_ltb fresh request initial insert contains range get_key insert_key
    advance_seq check_run_id check_not_after_final without semantic_fingerprint check_record_bound
    check_object_kind check_note_type check_body check_properties check_artifacts check_tombstone
    check_record dispose install_record accept_record records_between check_coverage check_cursor
    check_scope admit_claim install_offer accept_checkpoint offer_eq is_pending find_undurable
    first_undurable_through record_durable advance_cursor commit commit_durable resolve_artifacts
    accept dispatch ceilings get find_key put_key key_eq key_ltb insert_note succeeds apply_record
    apply_disposition apply_upsert resolve apply_outcomes install_artifacts install_all
    apply_projection apply_built apply_fresh apply_candidate write_changed install_note after_write
    mark_durable count_accepted count_integrity stopped collect_frames turn handle take_accepted
    take_record after_apply after_checkpoint commit_checkpoint decide before_loop finish deletion_of
    outcome_of authorization dedup dedup_after sort insert_sorted pushed_reasons claim_reasons
    snapshot_ok claim_covers is_normal option_text_eq from_run from_authorization fell_short
    lowered_outcome lowered_deletion reconciled reconcile remove_absent_notes remove_keys
    absent_keys keys_in_scope in_scope drop_key remove contains_pair
none_failed = refl

old-Unreported : Unreported notebook context (text "inbox") last.reported old_key
unfolding text_eq text_ltb fresh request initial insert contains range get_key insert_key
    advance_seq check_run_id check_not_after_final without semantic_fingerprint check_record_bound
    check_object_kind check_note_type check_body check_properties check_artifacts check_tombstone
    check_record dispose install_record accept_record records_between check_coverage check_cursor
    check_scope admit_claim install_offer accept_checkpoint offer_eq is_pending find_undurable
    first_undurable_through record_durable advance_cursor commit commit_durable resolve_artifacts
    accept dispatch ceilings get find_key put_key key_eq key_ltb insert_note succeeds apply_record
    apply_disposition apply_upsert resolve apply_outcomes install_artifacts install_all
    apply_projection apply_built apply_fresh apply_candidate write_changed install_note after_write
    mark_durable count_accepted count_integrity stopped collect_frames turn handle take_accepted
    take_record after_apply after_checkpoint commit_checkpoint decide before_loop finish deletion_of
    outcome_of authorization dedup dedup_after sort insert_sorted pushed_reasons claim_reasons
    snapshot_ok claim_covers is_normal option_text_eq from_run from_authorization fell_short
    lowered_outcome lowered_deletion reconciled reconcile remove_absent_notes remove_keys
    absent_keys keys_in_scope in_scope drop_key remove contains_pair
old-Unreported = record { field = refl; in_the_scope = refl; not_reported = refl }

snapshot_converges_example :
    find_key (reconciled notebook context (exited 0) last).run.index.notes old_key ≡ none
snapshot_converges_example =
    snapshot_converges notebook context (exited 0) last (text "inbox") old_key inbox_authorized
      run_complete none_failed old-Unreported
