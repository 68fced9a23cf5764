-- ===== src/Protocol/Session/Histories.antt =====
-- What whole histories of calls on a session of session.rs guarantee: durability before commitment,
-- and that a rejection is final.
use fieldnotes.Prelude.{
  ℕ, ◌≤◌, ◌≡◌, inl, inr, refl, subst, Text, Bool, true, false, none, some, List, [], ◌∷◌, ◌++◌,
  arith, Bool-cases, ◌==◌, if◌then◌else◌,
}
use fieldnotes.Domain.Stems.{FieldStemRegistry}
use fieldnotes.Protocol.Codes.{Result, ok}
use fieldnotes.Protocol.Message.{RecordEvent, Manifest, CollectRequest, record_event}
use fieldnotes.Protocol.Session.State.{Session, CommittedCursor, contains, new, initial}
use fieldnotes.Protocol.Session.Records.{
  Serde, AcceptedRecord, RecordDisposition, install_record, install_diagnostic, accept_record,
}
use fieldnotes.Protocol.Session.Checkpoints.{install_offer}
use fieldnotes.Protocol.Session.Commit.{advance_cursor, record_durable}
use fieldnotes.Protocol.Session.Steps.{
  accepted_record, Call, made_durable, accepts, resolves, commits, withholds, notes_rejection,
  accept, dispatch, step, run,
}
use fieldnotes.Protocol.Session.Sets.{contains-insert}
use fieldnotes.Protocol.Session.Outcomes.{Recorded, recorded, unencoded, accept_record-Recorded}
use fieldnotes.Protocol.Session.Offers.{with_claim}
use fieldnotes.Protocol.Session.Closed.{Closed, step-keeps}
use fieldnotes.Protocol.Session.Invariant.{Inv}
use fieldnotes.Protocol.Session.Preserved.{run-Inv, new-Inv, new-initial}

-- The history reports record `q` durable.
abbrev pub reported : ℕ → List Call → Bool
reported q [] = false
reported q (made_durable p ∷ cs) = if p == q then true else reported q cs
reported q (accepts e ∷ cs) = reported q cs
reported q (resolves staging contains_digest e ∷ cs) = reported q cs
reported q (commits o ∷ cs) = reported q cs
reported q (withholds o ∷ cs) = reported q cs
reported q (notes_rejection ∷ cs) = reported q cs

-- A claim's part of the state changes no set of numbers.
records_with_claim : (o : _) (s : Session) → (with_claim o s).records_by_seq ≡ s.records_by_seq
records_with_claim none s = refl
records_with_claim (some c) s = refl

durable_with_claim : (o : _) (s : Session) → (with_claim o s).durable_seqs ≡ s.durable_seqs
durable_with_claim none s = refl
durable_with_claim (some c) s = refl

-- An accepted record is never forgotten.
kept-Closed : (q : ℕ) → Closed (λ s. contains s.records_by_seq q ≡ true)
unfolding install_record install_offer install_diagnostic advance_cursor
kept-Closed q = record {
  halts = λ s v. v;
  numbers = λ s p h v. v;
  records = λ s e f d start fine v. ground (arith, contains-insert e.seq q s.records_by_seq);
  offers = λ s e start covers claim v. rw (records_with_claim e.snapshot _) v;
  diagnoses = λ s e start fits v. v;
  charges = λ s n v. v;
  decides = λ s v. v;
  commits = λ s o waiting live all v. v;
}

run_kept :
    (serde : Serde) (q : ℕ) (s : Session) (cs : List Call)
    → contains s.records_by_seq q ≡ true
    → contains (run serde s cs).records_by_seq q ≡ true
unfolding run record_durable
run_kept serde q s [] h = h
run_kept serde q s (c ∷ cs) h =
    run_kept serde q (step serde s c) cs (step-keeps (kept-Closed q) serde s c (λ p _ v. v) h)

-- No other call reports anything durable.
undurable-Closed : (q : ℕ) → Closed (λ s. contains s.durable_seqs q ≡ false)
unfolding install_record install_offer install_diagnostic advance_cursor
undurable-Closed q = record {
  halts = λ s v. v;
  numbers = λ s p h v. v;
  records = λ s e f d start fine v. v;
  offers = λ s e start covers claim v. rw (durable_with_claim e.snapshot _) v;
  diagnoses = λ s e start fits v. v;
  charges = λ s n v. v;
  decides = λ s v. v;
  commits = λ s o waiting live all v. v;
}

reported_cons :
    (q : ℕ) (c : Call) (cs : List Call) → reported q (c ∷ cs) ≡ false → reported q cs ≡ false
reported_cons q (made_durable p) cs h = ground arith
reported_cons q (accepts e) cs h = h
reported_cons q (resolves staging contains_digest e) cs h = h
reported_cons q (commits o) cs h = h
reported_cons q (withholds o) cs h = h
reported_cons q notes_rejection cs h = h

run_undurable :
    (serde : Serde) (q : ℕ) (s : Session) (cs : List Call)
    → reported q cs ≡ false
    → contains s.durable_seqs q ≡ false
    → contains (run serde s cs).durable_seqs q ≡ false
unfolding run record_durable
run_undurable serde q s [] r h = h
run_undurable serde q s (c ∷ cs) r h =
    run_undurable serde q (step serde s c) cs (reported_cons q c cs r)
      (step-keeps (undurable-Closed q) serde s c (λ p e v. other p e) h)
  where
    other : (p : ℕ) → c ≡ made_durable p → contains (record_durable p s).durable_seqs q ≡ false
    other p e =
        let r' : reported q (made_durable p ∷ cs) ≡ false =
          subst (λ x. reported q (x ∷ cs) ≡ false) e r in
        ground (arith, contains-insert p q s.durable_seqs)

pub run-append :
    (serde : Serde) (s : Session) (cs ds : List Call)
    → run serde s (cs ++ ds) ≡ run serde (run serde s cs) ds
unfolding run
run-append serde s [] ds = refl
run-append serde s (c ∷ cs) ds = run-append serde (step serde s c) cs ds

-- An accepted record went through accept_record, in a run that had neither failed nor an open offer.
pub record Entered (serde : Serde) (e : RecordEvent) (s : Session) (a : AcceptedRecord)
    : Type 0 where
  pub alive : s.rejected ≡ false
  pub decided : s.pending_offer ≡ none
  pub result : (accept_record serde e s).0 ≡ ok a
  pub state : (accept serde (record_event e) s).1 ≡ (accept_record serde e s).1

pub accept-Entered :
    (serde : Serde) (e : RecordEvent) (s : Session) (a : AcceptedRecord)
    → (accept serde (record_event e) s).0 ≡ ok (accepted_record a)
    → Entered serde e s a
unfolding accept dispatch
accept-Entered serde e s a h = record {
  alive = ground arith;
  decided = ground arith;
  result = ground arith;
  state = ground arith;
}

installed :
    (e : RecordEvent) (f : Text) (d : RecordDisposition) (t : Session) (a : AcceptedRecord)
    → (install_record e f d t).0 ≡ ok a
    → (a.seq ≡ e.seq) × (contains (install_record e f d t).1.records_by_seq a.seq ≡ true)
unfolding install_record
installed e f d t a h = ground (arith, contains-insert e.seq a.seq t.records_by_seq)

pub accept_record-contains :
    (serde : Serde) (e : RecordEvent) (s : Session) (a : AcceptedRecord)
    → (accept_record serde e s).0 ≡ ok a
    → (a.seq ≡ e.seq) × (contains (accept_record serde e s).1.records_by_seq a.seq ≡ true)
accept_record-contains serde e s a = go (accept_record serde e s) (accept_record-Recorded serde e s)
  where
    go :
        (r : Result AcceptedRecord × Session)
        → Recorded serde s e r
        → r.0 ≡ ok a
        → (a.seq ≡ e.seq) × (contains r.1.records_by_seq a.seq ≡ true)
    go r (recorded f d start fine h) p = installed e f d _ a p
    go r (Recorded.rejected_before c) p = cc
    go r (Recorded.rejected_at c start) p = cc
    go r (unencoded c start h) p = cc

accept-contains :
    (serde : Serde) (e : RecordEvent) (s : Session) (a : AcceptedRecord)
    → (accept serde (record_event e) s).0 ≡ ok (accepted_record a)
    → contains (accept serde (record_event e) s).1.records_by_seq a.seq ≡ true
accept-contains serde e s a h =
    let entered = accept-Entered serde e s a h in
    rw entered.state (accept_record-contains serde e s a entered.result).1

accepted_stays :
    (serde : Serde) (s : Session) (before after : List Call) (e : RecordEvent) (a : AcceptedRecord)
    → (accept serde (record_event e) (run serde s before)).0 ≡ ok (accepted_record a)
    → contains (run serde s (before ++ (accepts (record_event e) ∷ after))).records_by_seq a.seq
      ≡ true
unfolding run step
accepted_stays serde s before after e a h =
    rw (run-append serde s before (accepts (record_event e) ∷ after))
      (run_kept serde a.seq _ after (accept-contains serde e (run serde s before) a h))

-- If at some point of a history a record was accepted, and after the whole history the committed
-- cursor covers its number, then the history reports that record durable. The session starts by `new`.
pub committed_records_durable :
    (serde : Serde) (request : CollectRequest) (manifest : Manifest) (stems : FieldStemRegistry)
    (s : Session) (before after : List Call) (e : RecordEvent) (a : AcceptedRecord)
    (c : CommittedCursor)
    → new request manifest stems ≡ ok s
    → (accept serde (record_event e) (run serde s before)).0 ≡ ok (accepted_record a)
    → (run serde s (before ++ (accepts (record_event e) ∷ after))).committed ≡ some c
    → a.seq ≤ c.covers_record_seq_through
    → reported a.seq (before ++ (accepts (record_event e) ∷ after)) ≡ true
committed_records_durable serde request manifest stems s before after e a c start accepted committed
      le =
    elim (Bool-cases (reported a.seq calls)) [
      | inl yes' ↦ yes'
      | inr none' ↦ cc (
        v.durable a.seq (accepted_stays serde s before after e a accepted)
            (omega (arith, v.cursor c committed)),
        run_undurable serde a.seq s calls none' fresh,
      )
    ]
  where
    calls : List Call
    calls = before ++ (accepts (record_event e) ∷ after)

    v : Inv (run serde s calls)
    v = run-Inv serde s calls (new-Inv request manifest stems s start)

    fresh : contains s.durable_seqs a.seq ≡ false
    fresh =
        let (p, same) = new-initial request manifest stems s start in
        rw same (unfold initial contains in refl)
