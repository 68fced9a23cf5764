-- ===== src/Protocol/Session/Tests.antt =====
-- session.rs: runs of concrete sessions, and the properties of sessions at them.
use fieldnotes.Protocol.Session.Durability.{durable_through-durable}
use fieldnotes.Protocol.Session.State.{durable_through, durable_prefix}
use fieldnotes.Prelude.{
  ◌≤◌, ◌<◌, ◌≡◌, ◌≢◌, ◌↔◌, refl, text, text_eq, true, false, none, some, List, [], ◌∷◌, ◌++◌, arith,
}
use fieldnotes.Protocol.Codes.{
  ok, err, RunOutcome, protocol_unexpected_order, protocol_duplicate_seq, protocol_schema_invalid,
}
use fieldnotes.Protocol.Limits.{ceilings}
use fieldnotes.Protocol.Message.{record_event, checkpoint_event}
use fieldnotes.Protocol.Artifact.{
  Staging, resolved, resolve_artifact, resolve_kind, resolve_digest_only,
}
use fieldnotes.Protocol.Session.State.{
  Session, CheckpointOffer, advance_seq, check_run_id, check_not_after_final, insert, contains,
  range, get_key, insert_key,
}
use fieldnotes.Protocol.Session.Records.{
  AcceptedRecord, RecordDisposition, without, semantic_fingerprint, check_record_bound,
  check_object_kind, check_note_type, check_body, check_properties, check_artifacts,
  check_tombstone, check_record, dispose, install_record, accept_record,
}
use fieldnotes.Protocol.Session.Checkpoints.{
  records_between, check_coverage, check_cursor, check_scope, admit_claim, offer_of, install_offer,
  accept_checkpoint,
}
use fieldnotes.Protocol.Session.Commit.{
  granted, cursor_of, offer_eq, is_pending, find_undurable, first_undurable_through, record_durable,
  advance_cursor, commit, commit_durable, note_rejection,
}
use fieldnotes.Protocol.Session.Artifacts.{
  charge, resolve_reference, resolve_references, resolve_artifacts,
}
use fieldnotes.Protocol.Session.Finish.{finish, exited, authorized}
use fieldnotes.Protocol.Session.Steps.{
  accepted_record, checkpoint, Call, accepts, made_durable, commits, accept, dispatch, step, run,
}
use fieldnotes.Protocol.Session.Invariant.{Inv}
use fieldnotes.Protocol.Session.Preserved.{new-Inv, run-Inv}
use fieldnotes.Protocol.Session.Histories.{reported, committed_records_durable}
use fieldnotes.Protocol.Session.Deletion.{MayDelete, authorized_iff}
use fieldnotes.Protocol.Session.Rejections.{failure_is_final}
use fieldnotes.Protocol.Session.Commitment.{MayCommit, commit_iff, committed_moves_forward}
use fieldnotes.Protocol.Session.Acceptance.{
  TakesRecord, TakesCheckpoint, accept-record, accept-checkpoint,
}
use fieldnotes.Protocol.Session.Refusals.{FailsOrUnencoded, accept_err}
use fieldnotes.Protocol.Session.Order.{accepted_in_order}
use fieldnotes.Protocol.Session.StaleClaim.{ClaimedEarlier, earlier_claim_authorizes}
use fieldnotes.Protocol.Session.Budget.{staged_by_all, resolve_artifacts_budget}
use fieldnotes.Protocol.Session.Samples.{
  stems, manifest, request, serde, unable, letter, check_at, whole_inbox, fresh, fresh_new,
}

abbrev first : AcceptedRecord
first = record { seq = 1; disposition = RecordDisposition.upsert }

abbrev second : AcceptedRecord
second = record { seq = 2; disposition = RecordDisposition.upsert }

-- The session after one accepted record and its checkpoint.
abbrev one_letter : List Call
one_letter = accepts (record_event (letter 1)) ∷ []

first_accepted : (accept serde (record_event (letter 1)) fresh).0 ≡ ok (accepted_record first)
unfolding accept dispatch accept_record accept_checkpoint check_run_id check_not_after_final
    advance_seq check_record check_record_bound check_object_kind check_note_type check_body
    check_properties check_artifacts check_tombstone semantic_fingerprint without dispose
    install_record get_key insert_key insert contains range records_between check_coverage
    check_cursor admit_claim check_scope install_offer text_eq run step record_durable commit
    commit_durable is_pending offer_eq first_undurable_through find_undurable advance_cursor
    note_rejection fresh request
first_accepted = refl

first_accepted_by_run :
    (accept serde (record_event (letter 1)) (run serde fresh [])).0 ≡ ok (accepted_record first)
unfolding accept dispatch accept_record accept_checkpoint check_run_id check_not_after_final
    advance_seq check_record check_record_bound check_object_kind check_note_type check_body
    check_properties check_artifacts check_tombstone semantic_fingerprint without dispose
    install_record get_key insert_key insert contains range records_between check_coverage
    check_cursor admit_claim check_scope install_offer text_eq run step record_durable commit
    commit_durable is_pending offer_eq first_undurable_through find_undurable advance_cursor
    note_rejection fresh request
first_accepted_by_run = refl

abbrev first_offer : CheckpointOffer
first_offer = offer_of (check_at 2 1 1 none false)

abbrev covered : List Call
covered =
    made_durable 1
    ∷ accepts (checkpoint_event (check_at 2 1 1 none false))
    ∷ commits first_offer
    ∷ []

covered_committed :
    (run serde fresh ([] ++ (accepts (record_event (letter 1)) ∷ covered))).committed
    ≡ some (cursor_of first_offer)
unfolding accept dispatch accept_record accept_checkpoint check_run_id check_not_after_final
    advance_seq check_record check_record_bound check_object_kind check_note_type check_body
    check_properties check_artifacts check_tombstone semantic_fingerprint without dispose
    install_record get_key insert_key insert contains range records_between check_coverage
    check_cursor admit_claim check_scope install_offer text_eq run step record_durable commit
    commit_durable is_pending offer_eq first_undurable_through find_undurable advance_cursor
    note_rejection fresh request
covered_committed = refl

-- A record is accepted, reported durable, covered by a checkpoint and committed.
committed_records_durable_example :
    reported 1 ([] ++ (accepts (record_event (letter 1)) ∷ covered)) ≡ true
committed_records_durable_example =
    committed_records_durable serde request manifest stems fresh [] covered (letter 1) first
      (cursor_of first_offer) fresh_new first_accepted_by_run covered_committed (omega arith)

run-Inv_example : Inv (run serde fresh (accepts (record_event (letter 1)) ∷ covered))
run-Inv_example =
    run-Inv serde fresh (accepts (record_event (letter 1)) ∷ covered)
      (new-Inv request manifest stems fresh fresh_new)

abbrev offered : List Call
offered =
    accepts (record_event (letter 1))
    ∷ made_durable 1
    ∷ accepts (checkpoint_event (check_at 2 1 1 none false))
    ∷ []

commit_iff_example :
    ((commit first_offer (run serde fresh offered)).0 ≡ granted (cursor_of first_offer))
    ↔ MayCommit (run serde fresh offered) first_offer
commit_iff_example = commit_iff serde request manifest stems fresh offered first_offer fresh_new

abbrev more : List Call
more =
    accepts (checkpoint_event (check_at 3 2 0 none false))
    ∷ commits (offer_of (check_at 3 2 0 none false))
    ∷ []

more_committed :
    (run serde fresh ((accepts (record_event (letter 1)) ∷ covered) ++ more)).committed
    ≡ some (cursor_of (offer_of (check_at 3 2 0 none false)))
unfolding accept dispatch accept_record accept_checkpoint check_run_id check_not_after_final
    advance_seq check_record check_record_bound check_object_kind check_note_type check_body
    check_properties check_artifacts check_tombstone semantic_fingerprint without dispose
    install_record get_key insert_key insert contains range records_between check_coverage
    check_cursor admit_claim check_scope install_offer text_eq run step record_durable commit
    commit_durable is_pending offer_eq first_undurable_through find_undurable advance_cursor
    note_rejection fresh request
more_committed = refl

covered_committed_by_run :
    (run serde fresh (accepts (record_event (letter 1)) ∷ covered)).committed
    ≡ some (cursor_of first_offer)
unfolding accept dispatch accept_record accept_checkpoint check_run_id check_not_after_final
    advance_seq check_record check_record_bound check_object_kind check_note_type check_body
    check_properties check_artifacts check_tombstone semantic_fingerprint without dispose
    install_record get_key insert_key insert contains range records_between check_coverage
    check_cursor admit_claim check_scope install_offer text_eq run step record_durable commit
    commit_durable is_pending offer_eq first_undurable_through find_undurable advance_cursor
    note_rejection fresh request
covered_committed_by_run = refl

committed_moves_forward_example : 1 ≤ 2
committed_moves_forward_example =
    committed_moves_forward serde request manifest stems fresh
      (accepts (record_event (letter 1)) ∷ covered) more (cursor_of first_offer)
      (cursor_of (offer_of (check_at 3 2 0 none false))) fresh_new covered_committed_by_run
      more_committed

accept-record_example : TakesRecord serde fresh (letter 1) first
accept-record_example = accept-record serde (letter 1) fresh first first_accepted

checkpoint_accepted :
    (accept serde (checkpoint_event (check_at 2 1 1 none false)) (run serde fresh one_letter)).0
    ≡ ok (checkpoint first_offer)
unfolding accept dispatch accept_record accept_checkpoint check_run_id check_not_after_final
    advance_seq check_record check_record_bound check_object_kind check_note_type check_body
    check_properties check_artifacts check_tombstone semantic_fingerprint without dispose
    install_record get_key insert_key insert contains range records_between check_coverage
    check_cursor admit_claim check_scope install_offer text_eq run step record_durable commit
    commit_durable is_pending offer_eq first_undurable_through find_undurable advance_cursor
    note_rejection fresh request
checkpoint_accepted = refl

accept-checkpoint_example :
    TakesCheckpoint serde (run serde fresh one_letter) (check_at 2 1 1 none false) first_offer
accept-checkpoint_example =
    accept-checkpoint serde (check_at 2 1 1 none false) (run serde fresh one_letter) first_offer
      checkpoint_accepted

second_accepted :
    (accept serde (record_event (letter 2)) (run serde fresh one_letter)).0
    ≡ ok (accepted_record second)
unfolding accept dispatch accept_record accept_checkpoint check_run_id check_not_after_final
    advance_seq check_record check_record_bound check_object_kind check_note_type check_body
    check_properties check_artifacts check_tombstone semantic_fingerprint without dispose
    install_record get_key insert_key insert contains range records_between check_coverage
    check_cursor admit_claim check_scope install_offer text_eq run step record_durable commit
    commit_durable is_pending offer_eq first_undurable_through find_undurable advance_cursor
    note_rejection fresh request
second_accepted = refl

accepted_in_order_example : 1 < 2
accepted_in_order_example =
    accepted_in_order serde fresh [] (letter 1) (letter 2) first second first_accepted
      second_accepted

repeated :
    (accept serde (record_event (letter 1)) (run serde fresh one_letter)).0
    ≡ err protocol_duplicate_seq
unfolding accept dispatch accept_record accept_checkpoint check_run_id check_not_after_final
    advance_seq check_record check_record_bound check_object_kind check_note_type check_body
    check_properties check_artifacts check_tombstone semantic_fingerprint without dispose
    install_record get_key insert_key insert contains range records_between check_coverage
    check_cursor admit_claim check_scope install_offer text_eq run step record_durable commit
    commit_durable is_pending offer_eq first_undurable_through find_undurable advance_cursor
    note_rejection fresh request
repeated = refl

accept_err_example :
    FailsOrUnencoded serde
      (record_event (letter 1))
      protocol_duplicate_seq
      (accept serde (record_event (letter 1)) (run serde fresh one_letter)).1
accept_err_example =
    accept_err serde (record_event (letter 1)) (run serde fresh one_letter) protocol_duplicate_seq
      repeated

-- The exception: a record that cannot be encoded is refused in a run that has not failed.
unencodable :
    ((accept unable (record_event (letter 1)) fresh).0 ≡ err protocol_schema_invalid)
    × ((accept unable (record_event (letter 1)) fresh).1.rejected ≡ false)
unfolding accept dispatch accept_record accept_checkpoint check_run_id check_not_after_final
    advance_seq check_record check_record_bound check_object_kind check_note_type check_body
    check_properties check_artifacts check_tombstone semantic_fingerprint without dispose
    install_record get_key insert_key insert contains range records_between check_coverage
    check_cursor admit_claim check_scope install_offer text_eq run step record_durable commit
    commit_durable is_pending offer_eq first_undurable_through find_undurable advance_cursor
    note_rejection fresh request
unencodable = (refl, refl)

abbrev failed : Session
unfolding fresh note_rejection request
failed = note_rejection fresh

failed_rejected : failed.rejected ≡ true
unfolding failed
failed_rejected = refl

failure_is_final_example :
    ((run serde failed one_letter).committed ≡ failed.committed)
    × (accept serde (record_event (letter 2)) (run serde failed one_letter)
        ≡ (err protocol_unexpected_order, run serde failed one_letter))
    × ((finish (run serde failed one_letter) (exited 0)).outcome ≡ RunOutcome.failed)
    × ((finish (run serde failed one_letter) (exited 0)).deletion ≢ authorized (text "inbox"))
failure_is_final_example =
    failure_is_final serde failed one_letter (record_event (letter 2)) (exited 0) (text "inbox")
      failed_rejected

authorized_iff_example :
    ((finish fresh (exited 0)).deletion ≡ authorized (text "inbox"))
    ↔ MayDelete fresh (exited 0) (text "inbox")
authorized_iff_example = authorized_iff fresh (exited 0) (text "inbox")

-- A complete claim on an intermediate checkpoint, committed.
abbrev claimed : List Call
claimed =
    accepts (checkpoint_event (check_at 1 0 0 whole_inbox false))
    ∷ commits (offer_of (check_at 1 0 0 whole_inbox false))
    ∷ []

claimed_earlier : ClaimedEarlier (run serde fresh claimed) (text "inbox")
unfolding accept dispatch accept_record accept_checkpoint check_run_id check_not_after_final
    advance_seq check_record check_record_bound check_object_kind check_note_type check_body
    check_properties check_artifacts check_tombstone semantic_fingerprint without dispose
    install_record get_key insert_key insert contains range records_between check_coverage
    check_cursor admit_claim check_scope install_offer text_eq run step record_durable commit
    commit_durable is_pending offer_eq first_undurable_through find_undurable advance_cursor
    note_rejection fresh request
claimed_earlier = record {
  authority = refl;
  mode = refl;
  requested = refl;
  claim = refl;
  no_error = refl;
  no_window = refl;
}

closed_silently :
    (accept serde (checkpoint_event (check_at 2 1 0 none true)) (run serde fresh claimed)).0
    ≡ ok (checkpoint (offer_of (check_at 2 1 0 none true)))
unfolding accept dispatch accept_record accept_checkpoint check_run_id check_not_after_final
    advance_seq check_record check_record_bound check_object_kind check_note_type check_body
    check_properties check_artifacts check_tombstone semantic_fingerprint without dispose
    install_record get_key insert_key insert contains range records_between check_coverage
    check_cursor admit_claim check_scope install_offer text_eq run step record_durable commit
    commit_durable is_pending offer_eq first_undurable_through find_undurable advance_cursor
    note_rejection fresh request
closed_silently = refl

closed_committed :
    (commit
      (offer_of (check_at 2 1 0 none true))
      (accept serde (checkpoint_event (check_at 2 1 0 none true)) (run serde fresh claimed)).1).0
    ≡ granted (cursor_of (offer_of (check_at 2 1 0 none true)))
unfolding accept dispatch accept_record accept_checkpoint check_run_id check_not_after_final
    advance_seq check_record check_record_bound check_object_kind check_note_type check_body
    check_properties check_artifacts check_tombstone semantic_fingerprint without dispose
    install_record get_key insert_key insert contains range records_between check_coverage
    check_cursor admit_claim check_scope install_offer text_eq run step record_durable commit
    commit_durable is_pending offer_eq first_undurable_through find_undurable advance_cursor
    note_rejection fresh request
closed_committed = refl

earlier_claim_authorizes_example :
    (finish
      (commit
        (offer_of (check_at 2 1 0 none true))
        (accept serde (checkpoint_event (check_at 2 1 0 none true)) (run serde fresh claimed)).1).1
      (exited 0)).deletion
    ≡ authorized (text "inbox")
earlier_claim_authorizes_example =
    earlier_claim_authorizes serde (run serde fresh claimed) (check_at 2 1 0 none true)
      (offer_of (check_at 2 1 0 none true)) (cursor_of (offer_of (check_at 2 1 0 none true)))
      (text "inbox") claimed_earlier refl refl closed_silently closed_committed

abbrev no_files : Staging
no_files = record { symlink_metadata = λ _. none; open_without_following = λ _. none }

known_resolves :
    (resolve_artifacts (λ t. t) no_files (λ _. true) (letter 1) fresh).0
    ≡ ok (resolved (record { digest = text "ab"; byte_length = 0; reused = true }) ∷ [])
unfolding resolve_artifacts resolve_references resolve_reference resolve_artifact resolve_kind
    resolve_digest_only charge fresh request
known_resolves = refl

within_budget : fresh.staged_bytes ≤ fresh.limits.max_run_artifact_bytes
unfolding fresh ceilings request
within_budget = omega arith

resolve_artifacts_budget_example :
    ((resolve_artifacts (λ t. t) no_files (λ _. true) (letter 1) fresh).1.staged_bytes
      ≡ staged_by_all
          (resolved (record { digest = text "ab"; byte_length = 0; reused = true }) ∷ [])
          fresh.staged_bytes)
    × ((resolve_artifacts (λ t. t) no_files (λ _. true) (letter 1) fresh).1.staged_bytes
        ≤ fresh.limits.max_run_artifact_bytes)
resolve_artifacts_budget_example =
    resolve_artifacts_budget (λ t. t) no_files (λ _. true) (letter 1) fresh
      (resolved (record { digest = text "ab"; byte_length = 0; reused = true }) ∷ []) within_budget
      known_resolves

abbrev one_durable : List Call
one_durable =
    accepts (record_event (letter 1)) ∷ made_durable 1 ∷ accepts (record_event (letter 2)) ∷ []

one_known : contains (run serde fresh one_durable).records_by_seq 1 ≡ true
unfolding accept dispatch accept_record accept_checkpoint check_run_id check_not_after_final
    advance_seq check_record check_record_bound check_object_kind check_note_type check_body
    check_properties check_artifacts check_tombstone semantic_fingerprint without dispose
    install_record get_key insert_key insert contains range records_between check_coverage
    check_cursor admit_claim check_scope install_offer text_eq run step record_durable commit
    commit_durable is_pending offer_eq first_undurable_through find_undurable advance_cursor
    note_rejection fresh request
one_known = refl

one_through : 1 ≤ durable_through (run serde fresh one_durable)
unfolding accept dispatch accept_record accept_checkpoint check_run_id check_not_after_final
    advance_seq check_record check_record_bound check_object_kind check_note_type check_body
    check_properties check_artifacts check_tombstone semantic_fingerprint without dispose
    install_record get_key insert_key insert contains range records_between check_coverage
    check_cursor admit_claim check_scope install_offer text_eq run step record_durable commit
    commit_durable is_pending offer_eq first_undurable_through find_undurable advance_cursor
    note_rejection fresh durable_through durable_prefix request
one_through = omega arith

durable_through-durable_example : contains (run serde fresh one_durable).durable_seqs 1 ≡ true
durable_through-durable_example =
    durable_through-durable serde request manifest stems fresh one_durable 1 fresh_new one_known
      one_through
