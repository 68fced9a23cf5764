-- ===== src/Protocol/Session/Invariant.antt =====
-- The invariant of a session of session.rs, kept by every call that changes it.
use fieldnotes.Prelude.{
  ℕ, ◌+◌, ◌≤◌, ◌≡◌, Text, true, Option, none, some, [], ◌∷◌, ◌++◌, arith, length, length-append,
}
use fieldnotes.Protocol.Message.{RecordEvent, CheckpointEvent, DiagnosticEvent, SnapshotClaim}
use fieldnotes.Protocol.Session.State.{
  Session, CheckpointOffer, CommittedCursor, contains, insert, range,
}
use fieldnotes.Protocol.Session.Records.{RecordDisposition, install_record, install_diagnostic}
use fieldnotes.Protocol.Session.Checkpoints.{install_offer}
use fieldnotes.Protocol.Session.Commit.{advance_cursor, record_durable, first_undurable_through}
use fieldnotes.Protocol.Session.Sets.{
  Under, Under-mono, Under-append, insert_above, contains-insert, contains-range,
  find_undurable-none,
}
use fieldnotes.Protocol.Session.Outcomes.{halt, at_seq}
use fieldnotes.Protocol.Session.Offers.{with_claim}

-- Records are numbered up to `last_seq` and counted within the run's bound; coverage lies below; the
-- offer that waits has the last coverage; the committed cursor is the last committed coverage, and
-- every record up to there is durable.
pub record Inv (s : Session) : Type 0 where
  pub numbered : Under (s.last_seq + 1) s.records_by_seq
  pub counted : length s.records_by_seq ≡ s.record_count
  pub bounded : s.record_count ≤ s.limits.max_run_records
  pub covered : s.last_checkpoint_coverage ≤ s.last_seq
  pub committed_le : s.last_committed_coverage ≤ s.last_checkpoint_coverage
  pub offer :
      (o : CheckpointOffer)
      → s.pending_offer ≡ some o
      → o.covers_record_seq_through ≡ s.last_checkpoint_coverage
  pub cursor :
      (c : CommittedCursor)
      → s.committed ≡ some c
      → c.covers_record_seq_through ≡ s.last_committed_coverage
  pub durable :
      (q : ℕ)
      → contains s.records_by_seq q ≡ true
      → q ≤ s.last_committed_coverage
      → contains s.durable_seqs q ≡ true

pub halt-Inv : {s : Session} → Inv s → Inv (halt s)
halt-Inv v = record {
  numbered = v.numbered;
  counted = v.counted;
  bounded = v.bounded;
  covered = v.covered;
  committed_le = v.committed_le;
  offer = v.offer;
  cursor = v.cursor;
  durable = v.durable;
}

pub at_seq-Inv : {s : Session} (q : ℕ) → q ≡ s.last_seq + 1 → Inv s → Inv (at_seq q s)
at_seq-Inv {s} q h v = record {
  numbered = Under-mono (s.last_seq + 1) (q + 1) s.records_by_seq (omega arith) v.numbered;
  counted = v.counted;
  bounded = v.bounded;
  covered = omega arith;
  committed_le = v.committed_le;
  offer = v.offer;
  cursor = v.cursor;
  durable = v.durable;
}

pub install_record-Inv :
    {s : Session} (e : RecordEvent) (f : Text) (d : RecordDisposition)
    → e.seq ≡ s.last_seq + 1
    → s.record_count + 1 ≤ s.limits.max_run_records
    → Inv s
    → Inv (install_record e f d (at_seq e.seq s)).1
unfolding install_record
install_record-Inv {s} e f d h room v =
    let under : Under e.seq s.records_by_seq =
      Under-mono (s.last_seq + 1) e.seq s.records_by_seq (omega arith) v.numbered in
    let added : insert e.seq s.records_by_seq ≡ s.records_by_seq ++ (e.seq ∷ []) =
      insert_above e.seq s.records_by_seq under in
    record {
      numbered = rw added (
          Under-append (e.seq + 1) e.seq s.records_by_seq
            (Under-mono e.seq (e.seq + 1) s.records_by_seq (omega arith) under) (omega arith));
      counted = rw added (omega (arith, length-append s.records_by_seq (e.seq ∷ []), v.counted));
      bounded = room;
      covered = omega arith;
      committed_le = v.committed_le;
      offer = v.offer;
      cursor = v.cursor;
      durable = λ q m c.
          ground (
            arith,
            contains-insert e.seq q s.records_by_seq,
            v.durable q,
            v.covered,
            v.committed_le,
          );
    }

with_claim-Inv : {s : Session} (o : Option SnapshotClaim) → Inv s → Inv (with_claim o s)
with_claim-Inv none v = v
with_claim-Inv (some claim) v = record {
  numbered = v.numbered;
  counted = v.counted;
  bounded = v.bounded;
  covered = v.covered;
  committed_le = v.committed_le;
  offer = v.offer;
  cursor = v.cursor;
  durable = v.durable;
}

install_offer-Inv :
    {s : Session} (e : CheckpointEvent)
    → s.last_checkpoint_coverage ≤ e.covers_record_seq_through
    → e.covers_record_seq_through ≤ s.last_seq
    → Inv s
    → Inv (install_offer e s).1
unfolding install_offer
install_offer-Inv e forward below v = record {
  numbered = v.numbered;
  counted = v.counted;
  bounded = v.bounded;
  covered = below;
  committed_le = omega (arith, v.committed_le);
  offer = λ o h. ground arith;
  cursor = v.cursor;
  durable = v.durable;
}

pub install_diagnostic-Inv :
    {s : Session} (e : DiagnosticEvent) → Inv s → Inv (install_diagnostic e s).1
unfolding install_diagnostic
install_diagnostic-Inv e v = record {
  numbered = v.numbered;
  counted = v.counted;
  bounded = v.bounded;
  covered = v.covered;
  committed_le = v.committed_le;
  offer = v.offer;
  cursor = v.cursor;
  durable = v.durable;
}

pub record_durable-Inv : {s : Session} (p : ℕ) → Inv s → Inv (record_durable p s)
unfolding record_durable
record_durable-Inv {s} p v = record {
  numbered = v.numbered;
  counted = v.counted;
  bounded = v.bounded;
  covered = v.covered;
  committed_le = v.committed_le;
  offer = v.offer;
  cursor = v.cursor;
  durable = λ q m c. ground (arith, contains-insert p q s.durable_seqs, v.durable q);
}

-- The offer that waits is decided on: nothing waits any more.
pub decided-Inv : {s : Session} → Inv s → Inv (record s { pending_offer = none })
decided-Inv v = record {
  numbered = v.numbered;
  counted = v.counted;
  bounded = v.bounded;
  covered = v.covered;
  committed_le = v.committed_le;
  offer = λ o h. cc;
  cursor = v.cursor;
  durable = v.durable;
}

pub advance_cursor-Inv :
    {s : Session} (o : CheckpointOffer)
    → s.pending_offer ≡ some o
    → first_undurable_through s o.covers_record_seq_through ≡ none
    → Inv s
    → Inv (advance_cursor o s)
unfolding advance_cursor first_undurable_through
advance_cursor-Inv {s} o waiting all v = record {
  numbered = v.numbered;
  counted = v.counted;
  bounded = v.bounded;
  covered = v.covered;
  committed_le = omega (arith, v.offer o waiting);
  offer = λ o' h. cc;
  cursor = λ c h. ground arith;
  durable = λ q m c.
      find_undurable-none s.durable_seqs (range 0 o.covers_record_seq_through s.records_by_seq) q
        all (ground (arith, contains-range 0 o.covers_record_seq_through q s.records_by_seq));
}

-- An offer is made with its claim written down.
pub claimed_offer-Inv :
    {s : Session} (e : CheckpointEvent) (o : Option SnapshotClaim)
    → s.last_checkpoint_coverage ≤ e.covers_record_seq_through
    → e.covers_record_seq_through ≤ s.last_seq
    → Inv s
    → Inv (install_offer e (with_claim o s)).1
claimed_offer-Inv e none forward below v = install_offer-Inv e forward below v
claimed_offer-Inv e (some claim) forward below v =
    install_offer-Inv e forward below (with_claim-Inv (some claim) v)

-- The staged-byte budget is no part of the invariant.
pub charged-Inv : {s : Session} (n : ℕ) → Inv s → Inv (record s { staged_bytes = n })
charged-Inv n v = record {
  numbered = v.numbered;
  counted = v.counted;
  bounded = v.bounded;
  covered = v.covered;
  committed_le = v.committed_le;
  offer = v.offer;
  cursor = v.cursor;
  durable = v.durable;
}
