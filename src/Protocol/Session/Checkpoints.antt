-- ===== src/Protocol/Session/Checkpoints.antt =====
-- session.rs, accept_checkpoint: a checkpoint is checked and becomes the offer that awaits a decision.
use fieldnotes.Prelude.{
  ℕ, ◌+◌, Text, text_eq, Bool, true, false, not, Option, none, some, length, ltb, leb, ◌==◌,
  if◌then◌else◌,
}
use fieldnotes.Protocol.Codes.{
  ok, protocol_schema_invalid, protocol_unexpected_order, protocol_coverage_mismatch,
  protocol_limit_exceeded, manifest_cursor_format_changed, snapshot_completeness_contradicted,
  snapshot_scope_widened,
}
use fieldnotes.Protocol.Message.{CheckpointEvent, SnapshotClaim, CollectionMode}
use fieldnotes.Protocol.Session.State.{
  Session, CheckpointOffer, M, ◌>>◌, fail, fail_if, range, advance_seq, check_run_id,
  check_not_after_final,
}

-- The records that a checkpoint accounts for since the previous one; no range is built backwards.
unfoldable pub records_between : ℕ → ℕ → Session → ℕ
records_between previous covers s =
    if ltb previous covers then length (range (previous + 1) covers s.records_by_seq) else 0

unfoldable pub check_coverage : CheckpointEvent → M (Unit {0})
check_coverage event s =
    if leb event.seq event.covers_record_seq_through
    then fail protocol_schema_invalid s
    else if ltb event.covers_record_seq_through s.last_checkpoint_coverage
    then fail protocol_unexpected_order s
    else fail_if
        (not (
          records_between s.last_checkpoint_coverage event.covers_record_seq_through s
          == event.records_covered))
        protocol_coverage_mismatch s

unfoldable pub check_cursor : CheckpointEvent → M (Unit {0})
check_cursor event s =
    if ltb s.limits.max_cursor_bytes (length event.cursor)
    then fail protocol_limit_exceeded s
    else fail_if (not (event.cursor_format_version == s.manifest.cursor_format_version))
        manifest_cursor_format_changed s

abbrev pub is_snapshot : CollectionMode → Bool
is_snapshot CollectionMode.incremental = false
is_snapshot CollectionMode.snapshot = true

-- The claim's scope against the requested one.
unfoldable pub check_scope : Option Text → Text → M (Unit {0})
check_scope none scope = fail snapshot_completeness_contradicted
check_scope (some requested) scope = fail_if (not (text_eq requested scope)) snapshot_scope_widened

unfoldable pub admit_claim : Option SnapshotClaim → M (Unit {0})
admit_claim none s = (ok tt, s)
admit_claim (some claim) s =
    if not (is_snapshot s.mode)
    then fail snapshot_completeness_contradicted s
    else (check_scope s.snapshot_scope claim.scope >> λ s.
          (ok tt, record s { final_claim = some (claim.scope, claim.state) }))
        s

abbrev pub offer_of : CheckpointEvent → CheckpointOffer
offer_of event = record {
  seq = event.seq;
  cursor = event.cursor;
  cursor_format_version = event.cursor_format_version;
  covers_record_seq_through = event.covers_record_seq_through;
  is_final = event.is_final;
}

-- The updates at the end of accept_checkpoint.
unfoldable pub install_offer : CheckpointEvent → M CheckpointOffer
install_offer event s = (
  ok (offer_of event),
  record s {
    last_checkpoint_coverage = event.covers_record_seq_through;
    final_checkpoint_seq = if event.is_final then some event.seq else s.final_checkpoint_seq;
    pending_offer = some (offer_of event);
  },
)

unfoldable pub accept_checkpoint : CheckpointEvent → M CheckpointOffer
accept_checkpoint event = do
  check_run_id event.run_id
  check_not_after_final
  advance_seq event.seq
  check_coverage event
  check_cursor event
  admit_claim event.snapshot
  install_offer event
