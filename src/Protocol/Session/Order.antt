-- ===== src/Protocol/Session/Order.antt =====
-- The order of the events that session.rs's accept takes.
use fieldnotes.Prelude.{ℕ, ◌≤◌, ◌<◌, ◌≡◌, none, some, List, [], ◌∷◌, arith}
use fieldnotes.Protocol.Codes.{ok}
use fieldnotes.Protocol.Message.{RecordEvent, record_event}
use fieldnotes.Protocol.Session.State.{Session}
use fieldnotes.Protocol.Session.Records.{Serde, AcceptedRecord, install_record, install_diagnostic}
use fieldnotes.Protocol.Session.Checkpoints.{install_offer}
use fieldnotes.Protocol.Session.Commit.{advance_cursor, record_durable}
use fieldnotes.Protocol.Session.Steps.{accepted_record, Call, accepts, accept, step, run}
use fieldnotes.Protocol.Session.Outcomes.{at_seq}
use fieldnotes.Protocol.Session.Offers.{with_claim}
use fieldnotes.Protocol.Session.Closed.{Closed, step-keeps}
use fieldnotes.Protocol.Session.Acceptance.{accept-record}

-- The last event's number never goes down.
Numbered-Closed : (n : ℕ) → Closed (λ s. n ≤ s.last_seq)
unfolding install_record install_offer install_diagnostic advance_cursor
Numbered-Closed n = record {
  halts = λ s v. v;
  numbers = λ s q h v. omega arith;
  records = λ s e f d start fine v. omega (arith, start.next);
  offers =
      λ s e start covers claim v. claimed e.snapshot (at_seq e.seq s) (omega (arith, start.next));
  diagnoses = λ s e start fits v. omega (arith, start.next);
  charges = λ s m v. v;
  decides = λ s v. v;
  commits = λ s o waiting live all v. v;
}
  where
    claimed : (o : _) (t : Session) → n ≤ t.last_seq → n ≤ (with_claim o t).last_seq
    claimed none t h = h
    claimed (some claim) t h = h

run-Numbered :
    (serde : Serde) (n : ℕ) (s : Session) (cs : List Call)
    → n ≤ s.last_seq
    → n ≤ (run serde s cs).last_seq
unfolding run record_durable
run-Numbered serde n s [] v = v
run-Numbered serde n s (c ∷ cs) v =
    run-Numbered serde n (step serde s c) cs
      (step-keeps (Numbered-Closed n) serde s c (λ q _ w. w) v)

-- Of two records that one history accepts, whatever is called in between, the later has the greater number.
pub accepted_in_order :
    (serde : Serde) (s : Session) (between : List Call) (e f : RecordEvent) (a b : AcceptedRecord)
    → (accept serde (record_event e) s).0 ≡ ok (accepted_record a)
    → (accept serde (record_event f) (run serde s (accepts (record_event e) ∷ between))).0
      ≡ ok (accepted_record b)
    → a.seq < b.seq
unfolding run step
accepted_in_order serde s between e f a b h k =
    let first = accept-record serde e s a h in
    let second = accept-record serde f (run serde s (accepts (record_event e) ∷ between)) b k in
    let most =
      run-Numbered serde e.seq (accept serde (record_event e) s).1 between
        (omega (arith, first.last)) in
    omega (arith, first.numbered, second.numbered, second.start.next, most)
