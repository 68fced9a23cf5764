-- ===== src/Protocol/Session/Ready.antt =====
-- session.rs: a session whose accepted records are all durable, which has neither failed nor an open
-- offer, and what `accept` makes of it.
use fieldnotes.Prelude.{
  ℕ, ◌≡◌, refl, sym, subst, Bool, true, false, Option, none, some, if◌then◌else◌, arith, ap,
}
use fieldnotes.Protocol.Codes as Codes
use fieldnotes.Protocol.Codes.{RejectionCode, Result, ok, err}
use fieldnotes.Protocol.Message.{
  FieldEvent, RecordEvent, CheckpointEvent, DiagnosticEvent, Severity, SnapshotClaim,
  manifest_event, record_event, checkpoint_event, diagnostic_event,
}
use fieldnotes.Protocol.Session.State.{
  Session, CheckpointOffer, CommittedCursor, contains, insert, continue, pure, is_some,
}
use fieldnotes.Protocol.Session.Records.{Serde, AcceptedRecord, install_record, install_diagnostic}
use fieldnotes.Protocol.Session.Checkpoints.{install_offer, offer_of}
use fieldnotes.Protocol.Session.Commit.{
  record_durable, advance_cursor, commit, cursor_of, granted, CommitResult,
}
use fieldnotes.Protocol.Session.Steps.{
  AcceptedEvent, accepted_record, checkpoint, diagnostic, accept, dispatch,
}
use fieldnotes.Protocol.Session.Sets.{contains-insert}
use fieldnotes.Protocol.Session.Outcomes.{
  at_seq, halt, Recorded, recorded, unencoded, accept_record-Recorded,
}
use fieldnotes.Protocol.Session.Offers.{
  with_claim, Checkpointed, offered, accept_checkpoint-Checkpointed, Diagnosed, diagnosed,
  accept_diagnostic-Diagnosed,
}
use fieldnotes.Protocol.Session.Charges.{charged}
use fieldnotes.Protocol.Session.Decisions.{
  Decided, commit-Decided, unknown, drops, waits, goes_back,
}
use fieldnotes.Protocol.Session.Invariant.{Inv}
use fieldnotes.Protocol.Session.Commitment.{MayCommit, commit_of_Inv}

pub record Ready (s : Session) : Type 0 where
  pub live : s.rejected ≡ false
  pub decided : s.pending_offer ≡ none
  pub durable : (q : ℕ) → contains s.records_by_seq q ≡ true → contains s.durable_seqs q ≡ true

-- The session of an accepted record, before the record is durable.
pub record Awaits (s : Session) (seq : ℕ) (t : Session) : Type 0 where
  pub live : t.rejected ≡ false
  pub decided : t.pending_offer ≡ none
  pub records : t.records_by_seq ≡ insert seq s.records_by_seq
  pub durable : t.durable_seqs ≡ s.durable_seqs

-- The session of an offered checkpoint.
pub record Offers (s : Session) (o : CheckpointOffer) (t : Session) : Type 0 where
  pub live : t.rejected ≡ false
  pub waiting : t.pending_offer ≡ some o
  pub records : t.records_by_seq ≡ s.records_by_seq
  pub durable : t.durable_seqs ≡ s.durable_seqs

abbrev pub Taken : Session → Result AcceptedEvent × Session → Type 0
Taken s (err c, t) = Unit {0}
Taken s (ok (accepted_record a), t) = Awaits s a.seq t
Taken s (ok (checkpoint o), t) = Offers s o t
Taken s (ok (diagnostic q severity), t) = Ready t

module _ (serde : Serde) (s : Session) (v : Ready s) where
  take_record :
      (e : RecordEvent) (x : Result AcceptedRecord × Session)
      → Recorded serde s e x
      → Taken s (continue x.0 (λ a. pure (accepted_record a)) x.1)
  unfolding install_record
  take_record e x (recorded f d start fine h) = record {
    live = v.live;
    decided = v.decided;
    records = refl;
    durable = refl;
  }
  take_record e x (Recorded.rejected_before c) = tt
  take_record e x (Recorded.rejected_at c start) = tt
  take_record e x (unencoded c start h) = tt

  offer_taken :
      (e : CheckpointEvent) (claim : Option SnapshotClaim)
      → Offers s (offer_of e) (install_offer e (with_claim claim (at_seq e.seq s))).1
  unfolding install_offer
  offer_taken e none = record { live = v.live; waiting = refl; records = refl; durable = refl }
  offer_taken e (some c) = record { live = v.live; waiting = refl; records = refl; durable = refl }

  take_checkpoint :
      (e : CheckpointEvent) (x : Result CheckpointOffer × Session)
      → Checkpointed s e x
      → Taken s (continue x.0 (λ o. pure (checkpoint o)) x.1)
  unfolding install_offer
  take_checkpoint e x (offered start covers cursor claim) = offer_taken e e.snapshot
  take_checkpoint e x (Checkpointed.rejected_before c) = tt
  take_checkpoint e x (Checkpointed.rejected_at c start) = tt

  take_diagnostic :
      (e : DiagnosticEvent) (x : Result (ℕ × Severity) × Session)
      → Diagnosed s e x
      → Taken s (continue x.0 (λ a. pure (diagnostic a.0 a.1)) x.1)
  unfolding install_diagnostic
  take_diagnostic e x (diagnosed start fits) = record {
    live = v.live;
    decided = v.decided;
    durable = v.durable;
  }
  take_diagnostic e x (Diagnosed.rejected_before c) = tt
  take_diagnostic e x (Diagnosed.rejected_at c start) = tt

  dispatch-Taken : (e : FieldEvent) → Taken s (dispatch serde e s)
  unfolding dispatch
  dispatch-Taken (manifest_event m) = tt
  dispatch-Taken (record_event e) = take_record e _ (accept_record-Recorded serde e s)
  dispatch-Taken (checkpoint_event e) = take_checkpoint e _ (accept_checkpoint-Checkpointed e s)
  dispatch-Taken (diagnostic_event e) = take_diagnostic e _ (accept_diagnostic-Diagnosed e s)

  pub accept-Taken : (e : FieldEvent) → Taken s (accept serde e s)
  unfolding accept
  accept-Taken e = go s.rejected (is_some s.pending_offer)
    where
      go :
          (b c : Bool)
          → Taken s (
              if b
              then (err Codes.protocol_unexpected_order, s)
              else if c
              then (err Codes.protocol_unexpected_order, halt s)
              else dispatch serde e s)
      go true c = tt
      go false true = tt
      go false false = dispatch-Taken e

-- A record that was awaited and is reported durable leaves the session ready.
pub Awaits-Ready :
    (s t : Session) (seq n : ℕ)
    → Ready s
    → Awaits s seq t
    → Ready (record_durable seq (charged n t))
unfolding record_durable
Awaits-Ready s t seq n v w = record {
  live = w.live;
  decided = w.decided;
  durable = λ q h.
      let h' : contains (insert seq s.records_by_seq) q ≡ true =
        subst (λ xs. contains xs q ≡ true) w.records h in
      let old = v.durable q in
      ground (
        arith,
        contains-insert seq q s.records_by_seq,
        contains-insert seq q t.durable_seqs,
        ap (λ xs. contains xs q) w.durable,
      );
}

-- An offer on a session that was ready may be committed, whatever it covers.
pub Offers-MayCommit :
    (s t : Session) (o : CheckpointOffer) → Ready s → Offers s o t → MayCommit t o
Offers-MayCommit s t o v w = record {
  waiting = w.waiting;
  live = w.live;
  durable = λ q h le.
      subst (λ xs. contains xs q ≡ true) (sym w.durable)
        (v.durable q (subst (λ xs. contains xs q ≡ true) w.records h));
}

-- The commit of such an offer is granted and leaves the session ready.
pub Offers-commit :
    (s t : Session) (o : CheckpointOffer)
    → Inv t
    → Ready s
    → Offers s o t
    → commit o t ≡ (granted (cursor_of o), advance_cursor o t)
Offers-commit s t o i v w =
    go (commit o t) (commit-Decided o t) ((commit_of_Inv t o i).1 (Offers-MayCommit s t o v w))
  where
    go :
        (x : CommitResult CommittedCursor × Session)
        → Decided t o x
        → x.0 ≡ granted (cursor_of o)
        → x ≡ (granted (cursor_of o), advance_cursor o t)
    go x (Decided.commits waiting live all forward) h = refl
    go x (unknown k) h = cc
    go x (drops k l) h = cc
    go x (waits q k l) h = cc
    go x (goes_back k l) h = cc

pub committed-Ready :
    (s t : Session) (o : CheckpointOffer) → Ready s → Offers s o t → Ready (advance_cursor o t)
unfolding advance_cursor
committed-Ready s t o v w = record {
  live = w.live;
  decided = refl;
  durable = λ q h.
      subst (λ xs. contains xs q ≡ true) (sym w.durable)
        (v.durable q (subst (λ xs. contains xs q ≡ true) w.records h));
}
