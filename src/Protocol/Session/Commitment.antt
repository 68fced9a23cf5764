-- ===== src/Protocol/Session/Commitment.antt =====
-- When session.rs commits a cursor, and that the committed cursor only moves forward.
use fieldnotes.Prelude.{
  ℕ, ◌≤◌, ◌≡◌, ◌↔◌, refl, subst, true, false, none, some, List, [], ◌∷◌, ◌++◌, arith,
}
use fieldnotes.Domain.Stems.{FieldStemRegistry}
use fieldnotes.Protocol.Codes.{ok}
use fieldnotes.Protocol.Message.{Manifest, CollectRequest}
use fieldnotes.Protocol.Session.State.{
  Session, CheckpointOffer, CommittedCursor, contains, range, new,
}
use fieldnotes.Protocol.Session.Records.{Serde, install_record, install_diagnostic}
use fieldnotes.Protocol.Session.Checkpoints.{install_offer}
use fieldnotes.Protocol.Session.Commit.{
  CommitResult, granted, cursor_of, commit, advance_cursor, first_undurable_through, record_durable,
}
use fieldnotes.Protocol.Session.Steps.{Call, step, run}
use fieldnotes.Protocol.Session.Sets.{contains-range, find_undurable-none, find_undurable-some}
use fieldnotes.Protocol.Session.Offers.{with_claim}
use fieldnotes.Protocol.Session.Decisions.{
  Decided, commit-Decided, is_pending_refl, unknown, drops, waits, goes_back,
}
use fieldnotes.Protocol.Session.Closed.{Closed, step-keeps}
use fieldnotes.Protocol.Session.Invariant.{Inv, record_durable-Inv}
use fieldnotes.Protocol.Session.Preserved.{Inv-Closed, run-Inv, new-Inv}
use fieldnotes.Protocol.Session.Histories.{run-append}

-- Every accepted record that the offer covers is durable.
abbrev pub AllDurable : Session → CheckpointOffer → Type 0
AllDurable s o =
    (q : ℕ)
    → contains s.records_by_seq q ≡ true
    → q ≤ o.covers_record_seq_through
    → contains s.durable_seqs q ≡ true

pub record MayCommit (s : Session) (o : CheckpointOffer) : Type 0 where
  pub waiting : s.pending_offer ≡ some o
  pub live : s.rejected ≡ false
  pub durable : AllDurable s o

none_found :
    (s : Session) (o : CheckpointOffer)
    → first_undurable_through s o.covers_record_seq_through ≡ none
    → AllDurable s o
unfolding first_undurable_through
none_found s o all q m c =
    find_undurable-none s.durable_seqs (range 0 o.covers_record_seq_through s.records_by_seq) q all
      (ground (arith, contains-range 0 o.covers_record_seq_through q s.records_by_seq))

some_found :
    (s : Session) (o : CheckpointOffer) (q : ℕ)
    → first_undurable_through s o.covers_record_seq_through ≡ some q
    → AllDurable s o
    → (true ≡ false)
unfolding first_undurable_through
some_found s o q h all =
    let found =
      find_undurable-some s.durable_seqs (range 0 o.covers_record_seq_through s.records_by_seq) q
        h in
    ground (arith, found, all q, contains-range 0 o.covers_record_seq_through q s.records_by_seq)

pub commit_of_Inv :
    (s : Session) (o : CheckpointOffer)
    → Inv s
    → ((commit o s).0 ≡ granted (cursor_of o)) ↔ MayCommit s o
commit_of_Inv s o v = go (commit o s) (commit-Decided o s)
  where
    go :
        (r : CommitResult CommittedCursor × Session)
        → Decided s o r
        → (r.0 ≡ granted (cursor_of o)) ↔ MayCommit s o
    go r (Decided.commits waiting live all forward) =
        (λ _. record { waiting = waiting; live = live; durable = none_found s o all }, λ _. refl)
    go r (unknown h) = (λ e. cc, λ m. cc (is_pending_refl s.pending_offer o m.waiting, h))
    go r (drops h k) = (λ e. cc, λ m. cc (k, m.live))
    go r (waits q h k) = (λ e. cc, λ m. cc (some_found s o q k m.durable))
    go r (goes_back h k) = (λ e. cc, λ m. absurd (omega (arith, v.committed_le, v.offer o h)))

-- At any point of any history of a session that `new` starts, an offer is committed exactly when it
-- is the one that waits, the run has not failed, and every accepted record that it covers is durable.
pub commit_iff :
    (serde : Serde) (request : CollectRequest) (manifest : Manifest) (stems : FieldStemRegistry)
    (s : Session) (cs : List Call) (o : CheckpointOffer)
    → new request manifest stems ≡ ok s
    → ((commit o (run serde s cs)).0 ≡ granted (cursor_of o)) ↔ MayCommit (run serde s cs) o
commit_iff serde request manifest stems s cs o start =
    commit_of_Inv (run serde s cs) o (run-Inv serde s cs (new-Inv request manifest stems s start))

-- The cursor that is committed covers at least `n`.
pub record AtLeast (n : ℕ) (s : Session) : Type 0 where
  pub inv : Inv s
  pub least : n ≤ s.last_committed_coverage

with_claim-least :
    (n : ℕ) (o : _) (s : Session)
    → n ≤ s.last_committed_coverage
    → n ≤ (with_claim o s).last_committed_coverage
with_claim-least n none s h = h
with_claim-least n (some claim) s h = h

AtLeast-Closed : (n : ℕ) → Closed (AtLeast n)
unfolding install_record install_offer install_diagnostic advance_cursor
AtLeast-Closed n = record {
  halts = λ s v. record { inv = Inv-Closed.halts s v.inv; least = v.least };
  numbers = λ s q h v. record { inv = Inv-Closed.numbers s q h v.inv; least = v.least };
  records = λ s e f d start fine v. record {
    inv = Inv-Closed.records s e f d start fine v.inv;
    least = v.least;
  };
  offers = λ s e start covers claim v. record {
    inv = Inv-Closed.offers s e start covers claim v.inv;
    least = with_claim-least n e.snapshot _ v.least;
  };
  diagnoses = λ s e start fits v. record {
    inv = Inv-Closed.diagnoses s e start fits v.inv;
    least = v.least;
  };
  charges = λ s m v. record { inv = Inv-Closed.charges s m v.inv; least = v.least };
  decides = λ s v. record { inv = Inv-Closed.decides s v.inv; least = v.least };
  commits = λ s o waiting live all v. record {
    inv = Inv-Closed.commits s o waiting live all v.inv;
    least = omega (arith, v.least, v.inv.committed_le, v.inv.offer o waiting);
  };
}

pub run-AtLeast :
    (serde : Serde) (n : ℕ) (s : Session) (cs : List Call)
    → AtLeast n s
    → AtLeast n (run serde s cs)
unfolding run record_durable
run-AtLeast serde n s [] v = v
run-AtLeast serde n s (c ∷ cs) v = run-AtLeast serde n (step serde s c) cs (
    step-keeps (AtLeast-Closed n) serde s c
      (λ q _ w. record { inv = record_durable-Inv q w.inv; least = w.least }) v)

-- Over any history of a session that `new` starts, a later committed cursor covers at least the
-- records that an earlier one covers.
pub committed_moves_forward :
    (serde : Serde) (request : CollectRequest) (manifest : Manifest) (stems : FieldStemRegistry)
    (s : Session) (before after : List Call) (c d : CommittedCursor)
    → new request manifest stems ≡ ok s
    → (run serde s before).committed ≡ some c
    → (run serde s (before ++ after)).committed ≡ some d
    → c.covers_record_seq_through ≤ d.covers_record_seq_through
committed_moves_forward serde request manifest stems s before after c d start earlier later =
    let v = run-Inv serde s before (new-Inv request manifest stems s start) in
    let w =
      run-AtLeast serde c.covers_record_seq_through (run serde s before) after
        (record { inv = v; least = omega (arith, v.cursor c earlier) }) in
    let same = run-append serde s before after in
    omega (arith, w.least, w.inv.cursor d (subst (λ t. t.committed ≡ some d) same later))
