-- ===== src/Protocol/Session/StaleClaim.antt =====
-- The claim that finish judges, in session.rs: an earlier checkpoint's claim stands while later
-- checkpoints make none.
use fieldnotes.Prelude.{◌≡◌, refl, ap, ◌∙◌, Text, true, false, none, some, arith}
use fieldnotes.Protocol.Codes.{Result, ok}
use fieldnotes.Protocol.Message.{
  CheckpointEvent, SnapshotAuthority, SnapshotState, CollectionMode, checkpoint_event,
}
use fieldnotes.Protocol.Session.State.{Session, CheckpointOffer, CommittedCursor}
use fieldnotes.Protocol.Session.Records.{Serde}
use fieldnotes.Protocol.Session.Checkpoints.{install_offer, accept_checkpoint, offer_of}
use fieldnotes.Protocol.Session.Commit.{CommitResult, granted, commit, advance_cursor}
use fieldnotes.Protocol.Session.Finish.{exited, is_normal, authorized, finish}
use fieldnotes.Protocol.Session.Steps.{checkpoint, accept}
use fieldnotes.Protocol.Session.Outcomes.{at_seq}
use fieldnotes.Protocol.Session.Offers.{
  with_claim, Checkpointed, offered, accept_checkpoint-Checkpointed,
}
use fieldnotes.Protocol.Session.Decisions.{
  Decided, commit-Decided, unknown, drops, waits, goes_back,
}
use fieldnotes.Protocol.Session.Deletion.{MayDelete, authorized_iff}
use fieldnotes.Protocol.Session.Acceptance.{accept-EnteredCheckpoint, accept-checkpoint}

offered_state :
    (serde : Serde) (e : CheckpointEvent) (s : Session) (o : CheckpointOffer)
    → (accept serde (checkpoint_event e) s).0 ≡ ok (checkpoint o)
    → (accept serde (checkpoint_event e) s).1
      ≡ (install_offer e (with_claim e.snapshot (at_seq e.seq s))).1
offered_state serde e s o h =
    let entered = accept-EnteredCheckpoint serde e s o h in
    entered.state ∙ go (accept_checkpoint e s) (accept_checkpoint-Checkpointed e s) entered.result
  where
    go :
        (r : Result CheckpointOffer × Session)
        → Checkpointed s e r
        → r.0 ≡ ok o
        → r.1 ≡ (install_offer e (with_claim e.snapshot (at_seq e.seq s))).1
    go r (offered start covers cursor claim) p = refl
    go r (Checkpointed.rejected_before c) p = cc
    go r (Checkpointed.rejected_at c start) p = cc

committed_state :
    (o : CheckpointOffer) (s : Session) (c : CommittedCursor)
    → (commit o s).0 ≡ granted c
    → ((commit o s).1 ≡ advance_cursor o s) × (s.rejected ≡ false)
committed_state o s c = go (commit o s) (commit-Decided o s)
  where
    go :
        (r : CommitResult CommittedCursor × Session)
        → Decided s o r
        → r.0 ≡ granted c
        → (r.1 ≡ advance_cursor o s) × (s.rejected ≡ false)
    go r (Decided.commits waiting live all forward) p = (refl, live)
    go r (unknown h) p = cc
    go r (drops h k) p = cc
    go r (waits q h k) p = cc
    go r (goes_back h k) p = cc

-- A run that deletion depends on: authoritative, unwindowed, for one scope, free of errors, with a
-- complete claim for that scope on record.
pub record ClaimedEarlier (s : Session) (scope : Text) : Type 0 where
  pub authority : s.manifest.snapshot ≡ SnapshotAuthority.authoritative
  pub mode : s.mode ≡ CollectionMode.snapshot
  pub requested : s.snapshot_scope ≡ some scope
  pub claim : s.final_claim ≡ some (scope, SnapshotState.complete)
  pub no_error : s.error_diagnostic ≡ false
  pub no_window : s.windowed ≡ false

closing-MayDelete :
    (e : CheckpointEvent) (s : Session) (scope : Text)
    → ClaimedEarlier s scope
    → e.is_final ≡ true
    → s.rejected ≡ false
    → MayDelete (advance_cursor (offer_of e) (install_offer e (at_seq e.seq s)).1) (exited 0) scope
unfolding advance_cursor install_offer is_normal
closing-MayDelete e s scope v final live = record {
  authority = v.authority;
  mode = v.mode;
  requested = v.requested;
  claim = v.claim;
  closed = rw final refl;
  committed = ground (arith, final);
  no_error = v.no_error;
  normal = refl;
  no_violation = live;
  no_window = v.no_window;
}

-- Deletion is authorized by an earlier complete claim: if one is on record, and a final checkpoint
-- that makes no claim at all is accepted and committed, and the process exits with status 0, the run
-- authorizes deletion in the claimed scope.
pub earlier_claim_authorizes :
    (serde : Serde) (s : Session) (e : CheckpointEvent) (o : CheckpointOffer) (c : CommittedCursor)
    (scope : Text)
    → ClaimedEarlier s scope
    → e.snapshot ≡ none
    → e.is_final ≡ true
    → (accept serde (checkpoint_event e) s).0 ≡ ok (checkpoint o)
    → (commit o (accept serde (checkpoint_event e) s).1).0 ≡ granted c
    → (finish (commit o (accept serde (checkpoint_event e) s).1).1 (exited 0)).deletion
      ≡ authorized scope
earlier_claim_authorizes serde s e o c scope v silent final taken done =
    let t = (accept serde (checkpoint_event e) s).1 in
    let same = (accept-checkpoint serde e s o taken).offer in
    let state =
      offered_state serde e s o taken
      ∙ ap (λ n. (install_offer e (with_claim n (at_seq e.seq s))).1) silent in
    let finished =
      (committed_state o t c done).0
      ∙ ap (λ p. advance_cursor p t) same
      ∙ ap (advance_cursor (offer_of e)) state in
    rw finished (
      (authorized_iff _ (exited 0) scope).1
        (closing-MayDelete e s scope v final (accept-checkpoint serde e s o taken).live))
