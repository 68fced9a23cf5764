-- ===== src/Protocol/Session/Durability.antt =====
-- session.rs, durable_through: the highest record below which every record is durable.
use fieldnotes.Prelude.{none, some}
use fieldnotes.Prelude.{
  ℕ, ◌+◌, ◌≤◌, ◌<◌, ◌≡◌, inl, inr, sym, subst, true, List, [], ◌∷◌, ◌++◌, arith, Bool-cases, All,
  if◌then◌else◌, ◌==◌,
}
use fieldnotes.Domain.Stems.{FieldStemRegistry}
use fieldnotes.Protocol.Codes.{ok}
use fieldnotes.Protocol.Message.{Manifest, CollectRequest}
use fieldnotes.Protocol.Session.State.{
  Session, new, initial, contains, insert, durable_prefix, durable_through,
}
use fieldnotes.Protocol.Session.Records.{Serde, install_record, install_diagnostic}
use fieldnotes.Protocol.Session.Checkpoints.{install_offer}
use fieldnotes.Protocol.Session.Commit.{advance_cursor, record_durable}
use fieldnotes.Protocol.Session.Steps.{Call, step, run}
use fieldnotes.Protocol.Session.Sets.{Under, Under-mono, Under-append, insert_above}
use fieldnotes.Protocol.Session.Offers.{with_claim}
use fieldnotes.Protocol.Session.Outcomes.{at_seq}
use fieldnotes.Protocol.Session.Closed.{Closed, step-keeps}
use fieldnotes.Protocol.Session.Preserved.{new-initial}

abbrev Above : ℕ → List ℕ → Type 0
Above n = All (λ q. n < q)

abbrev Ascending : List ℕ → Type 0
Ascending [] = Unit {0}
Ascending (x ∷ xs) = Above x xs × Ascending xs

Above-append : (n q : ℕ) (xs : List ℕ) → Above n xs → n < q → Above n (xs ++ (q ∷ []))
Above-append n q [] u h = (h, tt)
Above-append n q (x ∷ xs) u h = (u.0, Above-append n q xs u.1 h)

Ascending-append : (q : ℕ) (xs : List ℕ) → Ascending xs → Under q xs → Ascending (xs ++ (q ∷ []))
Ascending-append q [] a u = (tt, tt)
Ascending-append q (x ∷ xs) a u = (Above-append x q xs a.0 u.0, Ascending-append q xs a.1 u.1)

Above-contains : (n q : ℕ) (xs : List ℕ) → Above n xs → contains xs q ≡ true → n < q
unfolding contains
Above-contains n q [] u h = ground arith
Above-contains n q (x ∷ xs) u h = ground (arith, Above-contains n q xs u.1)

-- The records are positive and ascending, up to the last number.
record Ordered (s : Session) : Type 0 where
  positive : Above 0 s.records_by_seq
  ascending : Ascending s.records_by_seq
  under : Under (s.last_seq + 1) s.records_by_seq

with_claim-Ordered : (o : _) {s : Session} → Ordered s → Ordered (with_claim o s)
with_claim-Ordered none v = v
with_claim-Ordered (some claim) v = record {
  positive = v.positive;
  ascending = v.ascending;
  under = v.under;
}

at_seq-Ordered : (q : ℕ) {s : Session} → q ≡ s.last_seq + 1 → Ordered s → Ordered (at_seq q s)
at_seq-Ordered q {s} h v = record {
  positive = v.positive;
  ascending = v.ascending;
  under = Under-mono (s.last_seq + 1) (q + 1) s.records_by_seq (omega arith) v.under;
}

Ordered-Closed : Closed Ordered
unfolding install_record install_offer install_diagnostic advance_cursor
Ordered-Closed = record {
  halts = λ s v. record { positive = v.positive; ascending = v.ascending; under = v.under };
  numbers = λ s q h v. at_seq-Ordered q h v;
  records = λ s e f d start fine v.
      let below : Under e.seq s.records_by_seq =
        Under-mono (s.last_seq + 1) e.seq s.records_by_seq (omega (arith, start.next)) v.under in
      let added : insert e.seq s.records_by_seq ≡ s.records_by_seq ++ (e.seq ∷ []) =
        insert_above e.seq s.records_by_seq below in
      record {
        positive =
            subst (Above 0) (sym added)
              (Above-append 0 e.seq s.records_by_seq v.positive (omega (arith, start.next)));
        ascending =
            subst Ascending (sym added) (Ascending-append e.seq s.records_by_seq v.ascending below);
        under = subst (Under (e.seq + 1)) (sym added) (
            Under-append (e.seq + 1) e.seq s.records_by_seq
              (Under-mono e.seq (e.seq + 1) s.records_by_seq (omega arith) below) (omega arith));
      };
  offers = λ s e start covers claim v.
      let w = with_claim-Ordered e.snapshot (at_seq-Ordered e.seq start.next v) in
      record { positive = w.positive; ascending = w.ascending; under = w.under };
  diagnoses = λ s e start fits v.
      let w = at_seq-Ordered e.seq start.next v in
      record { positive = w.positive; ascending = w.ascending; under = w.under };
  charges = λ s m v. record { positive = v.positive; ascending = v.ascending; under = v.under };
  decides = λ s v. record { positive = v.positive; ascending = v.ascending; under = v.under };
  commits = λ s o waiting live all v. record {
    positive = v.positive;
    ascending = v.ascending;
    under = v.under;
  };
}

run-Ordered : (serde : Serde) (s : Session) (cs : List Call) → Ordered s → Ordered (run serde s cs)
unfolding run record_durable
run-Ordered serde s [] v = v
run-Ordered serde s (c ∷ cs) v = run-Ordered serde (step serde s c) cs (
    step-keeps Ordered-Closed serde s c
      (λ q _ w. record { positive = w.positive; ascending = w.ascending; under = w.under }) v)

durable_prefix-durable :
    (d xs : List ℕ) (n q : ℕ)
    → Ascending xs
    → Above n xs
    → contains xs q ≡ true
    → q ≤ durable_prefix d xs n
    → contains d q ≡ true
unfolding durable_prefix contains
durable_prefix-durable d [] n q a u h le = ground arith
durable_prefix-durable d (x ∷ xs) n q a u h le = elim (Bool-cases (contains d x)) [
  | inr open' ↦
      let low : q ≤ n = subst (λ b. q ≤ (if b then durable_prefix d xs x else n)) open' le in
      absurd (ground (arith, u, Above-contains n q xs u.1))
  | inl done ↦ elim (Bool-cases (x == q)) [
    | inl same ↦ subst (λ p. contains d p ≡ true) (ground arith) done
    | inr other ↦
        durable_prefix-durable d xs x q a.1 a.0 (ground arith)
          (subst (λ b. q ≤ (if b then durable_prefix d xs x else n)) done le)
  ]
]

-- At any point of any history of a session that `new` starts, every accepted record up to the number
-- that `durable_through` gives is durable.
pub durable_through-durable :
    (serde : Serde) (request : CollectRequest) (manifest : Manifest) (stems : FieldStemRegistry)
    (s : Session) (cs : List Call) (q : ℕ)
    → new request manifest stems ≡ ok s
    → contains (run serde s cs).records_by_seq q ≡ true
    → q ≤ durable_through (run serde s cs)
    → contains (run serde s cs).durable_seqs q ≡ true
unfolding durable_through initial
durable_through-durable serde request manifest stems s cs q start known le =
    let v = run-Ordered serde s cs fresh in
    durable_prefix-durable (run serde s cs).durable_seqs (run serde s cs).records_by_seq 0 q
      v.ascending v.positive known le
  where
    fresh : Ordered s
    fresh =
        let (p, same) = new-initial request manifest stems s start in
        subst Ordered (sym same) (record { positive = tt; ascending = tt; under = tt })
