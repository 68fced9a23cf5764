-- ===== src/App/Sync/Records.antt =====
-- sync/mod.rs, apply_record: one accepted record becomes durable notebook state.
use fieldnotes.Prelude.{
  ℕ, ◌+◌, Text, text, text_eq, option_text_eq, Bool, false, not, Option, none, some, List, length,
  if◌then◌else◌,
}
use fieldnotes.Protocol.Codes.{Result, ok, err, protocol_schema_invalid}
use fieldnotes.Protocol.Message.{RecordEvent}
use fieldnotes.Protocol.Artifact.{ArtifactOutcome}
use fieldnotes.Protocol.Session.Records.{RecordDisposition, upsert, no_change, delete}
use fieldnotes.Protocol.Session.Commit.{record_durable}
use fieldnotes.Store.Index.{IndexedNote, get, insert_note, remove, text_of}
use fieldnotes.App.Sync.State.{
  SyncCounts, ArtifactProjection, NoteWrite, Outside, CollectContext, Run, done, durability, S,
  ◌>>=◌, ◌>>◌, pure, or_rejected, or_durability, on_session, on_counts, succeeds,
}
use fieldnotes.App.Sync.Apply.{count_accepted, count_if_some, install_artifacts, resolve}

module _ {W Parsed Candidate : Type 0} (out : Outside W Parsed Candidate)
    (context : CollectContext) where
  abbrev pub fingerprint_of : Parsed → Result Text
  fingerprint_of content = elim (out.fingerprint content) [
    | none ↦ err protocol_schema_invalid
    | some t ↦ ok t
  ]

  unfoldable pub same_filename : Text → Option Text → Result Bool
  same_filename filename none = err protocol_schema_invalid
  same_filename filename (some expected) = ok (text_eq expected filename)

  unfoldable pub same_content : IndexedNote Parsed → Candidate → Text → Text → Result Bool
  unfolding same_filename
  same_content existing candidate before after =
      if not (text_eq before after)
      then ok false
      else if not (
          option_text_eq (text_of out.parser existing.content (text "source_version"))
            (text_of out.parser (out.content_of candidate) (text "source_version")))
      then ok false
      else same_filename existing.filename (out.note_filename candidate)

  unfoldable pub unchanged : IndexedNote Parsed → Candidate → Result Bool
  unfolding same_content
  unchanged existing candidate = elim (fingerprint_of existing.content) [
    | err code ↦ err code
    | ok before ↦ elim (fingerprint_of (out.content_of candidate)) [
      | err code ↦ err code
      | ok after ↦ same_content existing candidate before after
    ]
  ]

  -- Without an existing note nothing is unchanged.
  abbrev pub already_held : Option (IndexedNote Parsed) → Candidate → Result Bool
  already_held none candidate = ok false
  already_held (some found) candidate = unchanged found candidate

  unfoldable pub mark_durable : ℕ → S (Run W Parsed) (Unit {0})
  mark_durable seq = on_session (record_durable seq)

  unfoldable pub mark_unchanged : ℕ → S (Run W Parsed) (Unit {0})
  unfolding mark_durable
  mark_unchanged seq = do
    on_counts (λ c. record c { unchanged = c.unchanged + 1 })
    mark_durable seq

  -- The removal of the note that a tombstone names.
  unfoldable pub remove_existing :
      RecordEvent → Option (IndexedNote Parsed) → S (Run W Parsed) (Unit {0})
  remove_existing event none = pure tt
  remove_existing event (some existing) = do
    removed ← λ r. or_durability (out.remove_note existing.filename r.world) r
    λ r. (
      done tt,
      record r { index = remove context.field_id event.source.scope event.source.identity r.index },
    )
    on_counts (λ c. record c { removed_by_tombstone = c.removed_by_tombstone + 1 })

  abbrev pub existing_note : RecordEvent → Run W Parsed → Option (IndexedNote Parsed)
  existing_note event r = get r.index context.field_id event.source.scope event.source.identity

  unfoldable pub apply_delete : RecordEvent → ℕ → S (Run W Parsed) (Unit {0})
  unfolding remove_existing mark_durable
  apply_delete event seq = do λ r. remove_existing event (existing_note event r) r; mark_durable seq

  -- An update keeps the note's ID.
  abbrev pub kept_id : Option (IndexedNote Parsed) → Text → Text
  kept_id none fresh = fresh
  kept_id (some found) fresh = found.note_id

  abbrev pub write_candidate : Option (IndexedNote Parsed) → Candidate → W → Option NoteWrite × W
  write_candidate none candidate = out.write_note candidate
  write_candidate (some found) candidate = out.replace_note candidate found.filename

  abbrev pub count_written : Option (IndexedNote Parsed) → SyncCounts → SyncCounts
  count_written none c = record c { created = c.created + 1 }
  count_written (some found) c = record c { updated = c.updated + 1 }

  -- What follows the write: the counters, the index, and the report of durability.
  unfoldable pub after_write :
      RecordEvent
      → ℕ
      → Option (IndexedNote Parsed)
      → Text
      → Candidate
      → NoteWrite
      → S (Run W Parsed) (Unit {0})
  unfolding mark_durable
  after_write event seq existing note_id candidate write = do
    on_counts (λ c. count_written existing (count_if_some write.removed_previous c))
    λ r. (
      done tt,
      record r {
        index =
            insert_note context.field_id event.source.scope event.source.identity
              (record {
                path = write.path;
                filename = write.filename;
                note_id = note_id;
                content = out.content_of candidate;
              })
              r.index;
      },
    )
    mark_durable seq

  -- Steps 3 to 5 of apply_record.
  unfoldable pub install_note :
      RecordEvent → ℕ → Option (IndexedNote Parsed) → Text → Candidate → S (Run W Parsed) (Unit {0})
  unfolding after_write
  install_note event seq existing note_id candidate = do
    write ← λ r. or_durability (write_candidate existing candidate r.world) r
    after_write event seq existing note_id candidate write

  unfoldable pub write_changed :
      RecordEvent → ℕ → Option (IndexedNote Parsed) → Text → Candidate → S (Run W Parsed) (Unit {0})
  unfolding install_note
  write_changed event seq existing note_id candidate =
      if not (succeeds context.durability seq)
      then (λ r. (durability, r))
      else install_note event seq existing note_id candidate

  -- The candidate against the note that the index has.
  unfoldable pub apply_candidate :
      RecordEvent → ℕ → Option (IndexedNote Parsed) → Text → Candidate → S (Run W Parsed) (Unit {0})
  unfolding mark_unchanged write_changed
  apply_candidate event seq existing note_id candidate = do
    same ← or_rejected (already_held existing candidate)
    if same then mark_unchanged seq else write_changed event seq existing note_id candidate

  -- With the new ID and the instant of the capture, the Note is built.
  unfoldable pub apply_fresh :
      RecordEvent
      → ℕ
      → ArtifactProjection
      → Option (IndexedNote Parsed)
      → Text × Text
      → S (Run W Parsed) (Unit {0})
  unfolding apply_candidate
  apply_fresh event seq projection existing fresh = do
    candidate ← or_rejected (out.build_note (kept_id existing fresh.0) event projection fresh.1)
    apply_candidate event seq existing (kept_id existing fresh.0) candidate

  unfoldable pub apply_built :
      RecordEvent
      → ℕ
      → ArtifactProjection
      → Option (IndexedNote Parsed)
      → S (Run W Parsed) (Unit {0})
  unfolding apply_fresh
  apply_built event seq projection existing = do
    fresh ← λ r. or_durability (out.new_record r.world) r
    apply_fresh event seq projection existing fresh

  unfoldable pub apply_projection :
      RecordEvent → ℕ → ArtifactProjection → S (Run W Parsed) (Unit {0})
  unfolding apply_built
  apply_projection event seq projection = do
    on_counts (λ c. record c {
      attachments_skipped = c.attachments_skipped + length projection.skipped_artifacts;
    })
    λ r. apply_built event seq projection (existing_note event r) r

  unfoldable pub apply_outcomes :
      RecordEvent → ℕ → List ArtifactOutcome → S (Run W Parsed) (Unit {0})
  unfolding install_artifacts apply_projection
  apply_outcomes event seq outcomes = do
    projection ← install_artifacts out context event outcomes
    apply_projection event seq projection

  unfoldable pub apply_upsert : RecordEvent → ℕ → S (Run W Parsed) (Unit {0})
  unfolding resolve apply_outcomes
  apply_upsert event seq = do
    outcomes ← resolve out context event
    apply_outcomes event seq outcomes

  unfoldable pub apply_disposition :
      RecordEvent → ℕ → RecordDisposition → S (Run W Parsed) (Unit {0})
  unfolding mark_unchanged apply_delete apply_upsert
  apply_disposition event seq no_change = mark_unchanged seq
  apply_disposition event seq delete = apply_delete event seq
  apply_disposition event seq upsert = apply_upsert event seq

  unfoldable pub apply_record : RecordEvent → ℕ → RecordDisposition → S (Run W Parsed) (Unit {0})
  unfolding apply_disposition count_accepted
  apply_record event seq disposition = do
    on_counts (count_accepted event)
    apply_disposition event seq disposition
