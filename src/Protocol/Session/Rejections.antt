-- ===== src/Protocol/Session/Rejections.antt =====
-- Rejections in session.rs: which refusals of `accept` fail the run, and that a failed run stays so.
use fieldnotes.Prelude.{
  ◌≡◌, ◌≢◌, refl, ap, Text, true, Option, none, some, List, [], ◌∷◌, if◌then◌else◌,
}
use fieldnotes.Protocol.Codes.{err, RunOutcome, protocol_unexpected_order}
use fieldnotes.Protocol.Message.{FieldEvent}
use fieldnotes.Protocol.Session.State.{Session, CommittedCursor, is_some}
use fieldnotes.Protocol.Session.Records.{Serde, install_record, install_diagnostic}
use fieldnotes.Protocol.Session.Checkpoints.{install_offer}
use fieldnotes.Protocol.Session.Commit.{advance_cursor, record_durable}
use fieldnotes.Protocol.Session.Finish.{ExitObservation, finish, outcome_of, authorized}
use fieldnotes.Protocol.Session.Steps.{Call, accept, dispatch, step, run}
use fieldnotes.Protocol.Session.Outcomes.{halt, at_seq}
use fieldnotes.Protocol.Session.Offers.{with_claim}
use fieldnotes.Protocol.Session.Closed.{Closed, step-keeps}
use fieldnotes.Protocol.Session.Deletion.{authorized_iff}

-- A failed run with this committed cursor.
record Failed (c : Option CommittedCursor) (s : Session) : Type 0 where
  failed : s.rejected ≡ true
  cursor : s.committed ≡ c

with_claim-Failed :
    {c : Option CommittedCursor} (o : _) {s : Session} → Failed c s → Failed c (with_claim o s)
with_claim-Failed none v = v
with_claim-Failed (some claim) v = record { failed = v.failed; cursor = v.cursor }

Failed-Closed : (c : Option CommittedCursor) → Closed (Failed c)
unfolding install_record install_offer install_diagnostic advance_cursor
Failed-Closed c = record {
  halts = λ s v. record { failed = refl; cursor = v.cursor };
  numbers = λ s q h v. record { failed = v.failed; cursor = v.cursor };
  records = λ s e f d start fine v. record { failed = v.failed; cursor = v.cursor };
  offers = λ s e start covers claim v.
      let w =
        with_claim-Failed e.snapshot {s = at_seq e.seq s}
          (record { failed = v.failed; cursor = v.cursor }) in
      record { failed = w.failed; cursor = w.cursor };
  diagnoses = λ s e start fits v. record { failed = v.failed; cursor = v.cursor };
  charges = λ s n v. record { failed = v.failed; cursor = v.cursor };
  decides = λ s v. record { failed = v.failed; cursor = v.cursor };
  commits = λ s o waiting live all v. cc (live, v.failed);
}

run-Failed :
    (serde : Serde) (c : Option CommittedCursor) (s : Session) (cs : List Call)
    → Failed c s
    → Failed c (run serde s cs)
unfolding run record_durable
run-Failed serde c s [] v = v
run-Failed serde c s (x ∷ cs) v = run-Failed serde c (step serde s x) cs (
    step-keeps (Failed-Closed c) serde s x
      (λ q _ w. record { failed = w.failed; cursor = w.cursor }) v)

outcome-failed :
    (s : Session) (exit : ExitObservation)
    → s.rejected ≡ true
    → (finish s exit).outcome ≡ RunOutcome.failed
unfolding finish outcome_of
outcome-failed s exit h = rw h

-- Once a run has failed, whatever core calls: the committed cursor stays as it is, every further
-- event is refused and changes nothing, the run is reported failed, and it authorizes no deletion.
pub failure_is_final :
    (serde : Serde) (s : Session) (cs : List Call) (e : FieldEvent) (exit : ExitObservation)
    (scope : Text)
    → s.rejected ≡ true
    → ((run serde s cs).committed ≡ s.committed)
      × (accept serde e (run serde s cs) ≡ (err protocol_unexpected_order, run serde s cs))
      × ((finish (run serde s cs) exit).outcome ≡ RunOutcome.failed)
      × ((finish (run serde s cs) exit).deletion ≢ authorized scope)
unfolding accept
failure_is_final serde s cs e exit scope h =
    let v = run-Failed serde s.committed s cs (record { failed = h; cursor = refl }) in
    (
      v.cursor,
      refuses (run serde s cs) v.failed,
      outcome-failed _ exit v.failed,
      λ p. cc (v.failed, ((authorized_iff (run serde s cs) exit scope).0 p).no_violation),
    )
  where
    refuses :
        (t : Session) → t.rejected ≡ true → accept serde e t ≡ (err protocol_unexpected_order, t)
    refuses t k =
        ap
          (λ b.
            if b
            then (err protocol_unexpected_order, t)
            else if is_some t.pending_offer
            then (err protocol_unexpected_order, halt t)
            else dispatch serde e t)
          k
