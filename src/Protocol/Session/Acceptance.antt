-- ===== src/Protocol/Session/Acceptance.antt =====
-- What an accepted event of session.rs has passed, and what acceptance writes down.
use fieldnotes.Prelude.{◌+◌, ◌≡◌, refl, sym, ap, ◌∙◌, Text, false, none, some, arith}
use fieldnotes.Protocol.Codes.{Result, ok}
use fieldnotes.Protocol.Message.{RecordEvent, CheckpointEvent, record_event, checkpoint_event}
use fieldnotes.Protocol.Session.State.{Session, CheckpointOffer}
use fieldnotes.Protocol.Session.Records.{
  Serde, AcceptedRecord, RecordDisposition, install_record, accept_record,
}
use fieldnotes.Protocol.Session.Checkpoints.{install_offer, accept_checkpoint, offer_of}
use fieldnotes.Protocol.Session.Steps.{accepted_record, checkpoint, accept, dispatch}
use fieldnotes.Protocol.Session.Admissible.{IsAdmissible}
use fieldnotes.Protocol.Session.Outcomes.{
  at_seq, Starts, Recorded, recorded, unencoded, accept_record-Recorded,
}
use fieldnotes.Protocol.Session.Offers.{
  Covers, CursorFits, ClaimAllowed, Checkpointed, offered, accept_checkpoint-Checkpointed,
}
use fieldnotes.Protocol.Session.Histories.{accept-Entered}

-- An accepted record's number is the next one, and it is counted.
pub record TakesRecord (serde : Serde) (s : Session) (e : RecordEvent) (a : AcceptedRecord)
    : Type 0 where
  pub live : s.rejected ≡ false
  pub decided : s.pending_offer ≡ none
  pub start : Starts s e.run_id e.seq
  pub admissible : IsAdmissible (at_seq e.seq s) e
  pub numbered : a.seq ≡ e.seq
  pub last : (accept serde (record_event e) s).1.last_seq ≡ e.seq
  pub counted : (accept serde (record_event e) s).1.record_count ≡ s.record_count + 1

record Installed (s : Session) (e : RecordEvent) (a : AcceptedRecord) (t : Session) : Type 0 where
  start : Starts s e.run_id e.seq
  admissible : IsAdmissible (at_seq e.seq s) e
  numbered : a.seq ≡ e.seq
  last : t.last_seq ≡ e.seq
  counted : t.record_count ≡ s.record_count + 1

install_record-seq :
    (e : RecordEvent) (f : Text) (d : RecordDisposition) (t : Session) (a : AcceptedRecord)
    → (install_record e f d t).0 ≡ ok a
    → a.seq ≡ e.seq
unfolding install_record
install_record-seq e f d t a h = ground arith

accept_record-Installed :
    (serde : Serde) (e : RecordEvent) (s : Session) (a : AcceptedRecord)
    → (accept_record serde e s).0 ≡ ok a
    → Installed s e a (accept_record serde e s).1
accept_record-Installed serde e s a =
    go (accept_record serde e s) (accept_record-Recorded serde e s)
  where
    go :
        (r : Result AcceptedRecord × Session)
        → Recorded serde s e r
        → r.0 ≡ ok a
        → Installed s e a r.1
    go r (recorded f d start fine h) p = record {
      start = start;
      admissible = fine;
      numbered = install_record-seq e f d _ a p;
      last = unfold install_record in refl;
      counted = unfold install_record in refl;
    }
    go r (Recorded.rejected_before c) p = cc
    go r (Recorded.rejected_at c start) p = cc
    go r (unencoded c start h) p = cc

-- A record is accepted only in a run that has not failed, has no offer waiting and no final
-- checkpoint, under the run's name, with the next sequence number, and within every bound and
-- declaration that the manifest and the limits set. It becomes the last event and is counted.
pub accept-record :
    (serde : Serde) (e : RecordEvent) (s : Session) (a : AcceptedRecord)
    → (accept serde (record_event e) s).0 ≡ ok (accepted_record a)
    → TakesRecord serde s e a
accept-record serde e s a h =
    let entered = accept-Entered serde e s a h in
    let done = accept_record-Installed serde e s a entered.result in
    record {
      live = entered.alive;
      decided = entered.decided;
      start = done.start;
      admissible = done.admissible;
      numbered = done.numbered;
      last = ap (λ t. t.last_seq) entered.state ∙ done.last;
      counted = ap (λ t. t.record_count) entered.state ∙ done.counted;
    }

-- What an accepted checkpoint has passed, and what it leaves.
pub record TakesCheckpoint (serde : Serde) (s : Session) (e : CheckpointEvent) (o : CheckpointOffer)
    : Type 0 where
  pub live : s.rejected ≡ false
  pub decided : s.pending_offer ≡ none
  pub start : Starts s e.run_id e.seq
  pub covers : Covers (at_seq e.seq s) e
  pub cursor : CursorFits (at_seq e.seq s) e
  pub claim : ClaimAllowed s e.snapshot
  pub offer : o ≡ offer_of e
  pub waits : (accept serde (checkpoint_event e) s).1.pending_offer ≡ some o

pub record EnteredCheckpoint (serde : Serde) (e : CheckpointEvent) (s : Session)
    (o : CheckpointOffer) : Type 0 where
  alive : s.rejected ≡ false
  decided : s.pending_offer ≡ none
  pub result : (accept_checkpoint e s).0 ≡ ok o
  pub state : (accept serde (checkpoint_event e) s).1 ≡ (accept_checkpoint e s).1

pub accept-EnteredCheckpoint :
    (serde : Serde) (e : CheckpointEvent) (s : Session) (o : CheckpointOffer)
    → (accept serde (checkpoint_event e) s).0 ≡ ok (checkpoint o)
    → EnteredCheckpoint serde e s o
unfolding accept dispatch
accept-EnteredCheckpoint serde e s o h = record {
  alive = ground arith;
  decided = ground arith;
  result = ground arith;
  state = ground arith;
}

record Offers (s : Session) (e : CheckpointEvent) (o : CheckpointOffer) (t : Session) : Type 0 where
  start : Starts s e.run_id e.seq
  covers : Covers (at_seq e.seq s) e
  cursor : CursorFits (at_seq e.seq s) e
  claim : ClaimAllowed s e.snapshot
  offer : o ≡ offer_of e
  waits : t.pending_offer ≡ some (offer_of e)

install_offer-offer :
    (e : CheckpointEvent) (t : Session) (o : CheckpointOffer)
    → (install_offer e t).0 ≡ ok o
    → o ≡ offer_of e
unfolding install_offer
install_offer-offer e t o h = cc

accept_checkpoint-Offers :
    (e : CheckpointEvent) (s : Session) (o : CheckpointOffer)
    → (accept_checkpoint e s).0 ≡ ok o
    → Offers s e o (accept_checkpoint e s).1
accept_checkpoint-Offers e s o = go (accept_checkpoint e s) (accept_checkpoint-Checkpointed e s)
  where
    go : (r : Result CheckpointOffer × Session) → Checkpointed s e r → r.0 ≡ ok o → Offers s e o r.1
    go r (offered start covers cursor claim) p = record {
      start = start;
      covers = covers;
      cursor = cursor;
      claim = claim;
      offer = install_offer-offer e _ o p;
      waits = unfold install_offer in refl;
    }
    go r (Checkpointed.rejected_before c) p = cc
    go r (Checkpointed.rejected_at c start) p = cc

-- A checkpoint is accepted only in a run that has not failed and has no offer waiting and no final
-- checkpoint; it covers records below its own number, not fewer than the previous checkpoint, and
-- reports exactly the number of records accepted in between; its cursor fits and has the manifest's
-- format; a claim names the requested scope of a snapshot run. Its offer then waits for a decision.
pub accept-checkpoint :
    (serde : Serde) (e : CheckpointEvent) (s : Session) (o : CheckpointOffer)
    → (accept serde (checkpoint_event e) s).0 ≡ ok (checkpoint o)
    → TakesCheckpoint serde s e o
accept-checkpoint serde e s o h =
    let entered = accept-EnteredCheckpoint serde e s o h in
    let done = accept_checkpoint-Offers e s o entered.result in
    record {
      live = entered.alive;
      decided = entered.decided;
      start = done.start;
      covers = done.covers;
      cursor = done.cursor;
      claim = done.claim;
      offer = done.offer;
      waits = ap (λ t. t.pending_offer) entered.state ∙ done.waits ∙ ap some (sym done.offer);
    }
