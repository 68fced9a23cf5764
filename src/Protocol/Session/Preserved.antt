-- ===== src/Protocol/Session/Preserved.antt =====
-- Every call of session.rs that changes a session keeps the invariant, from `new` on.
use fieldnotes.Prelude.{◌≡◌, refl, List, [], ◌∷◌, arith}
use fieldnotes.Protocol.Codes.{RejectionCode, Result, ok, err}
use fieldnotes.Protocol.Session.State.{Session, contains}
use fieldnotes.Protocol.Session.Records.{Serde}
use fieldnotes.Domain.Stems.{FieldStemRegistry}
use fieldnotes.Protocol.Message.{Manifest, CollectRequest}
use fieldnotes.Protocol.Declared.{DeclaredPropertyIndex, index_of}
use fieldnotes.Protocol.Codes as Codes
use fieldnotes.Protocol.Session.State.{new, initial}
use fieldnotes.Protocol.Session.Steps.{Call, step, run}
use fieldnotes.Protocol.Session.Closed.{Closed, step-keeps}
use fieldnotes.Protocol.Session.Invariant.{
  advance_cursor-Inv, Inv, halt-Inv, at_seq-Inv, install_record-Inv, claimed_offer-Inv,
  install_diagnostic-Inv, record_durable-Inv, decided-Inv, charged-Inv,
}

pub Inv-Closed : Closed Inv
Inv-Closed = record {
  halts = λ s v. halt-Inv v;
  numbers = λ s q h v. at_seq-Inv q h v;
  records = λ s e f d start fine v. install_record-Inv e f d start.next fine.within_run v;
  offers = λ s e start covers claim v.
      claimed_offer-Inv e e.snapshot covers.forward (omega (arith, covers.below))
        (at_seq-Inv e.seq start.next v);
  diagnoses = λ s e start fits v. install_diagnostic-Inv e (at_seq-Inv e.seq start.next v);
  charges = λ s n v. charged-Inv n v;
  decides = λ s v. decided-Inv v;
  commits = λ s o waiting live all v. advance_cursor-Inv o waiting all v;
}

-- Whatever is called next, the invariant holds after it.
pub step-Inv : (serde : Serde) (s : Session) (c : Call) → Inv s → Inv (step serde s c)
step-Inv serde s c v = step-keeps Inv-Closed serde s c (λ q _ w. record_durable-Inv q w) v

-- Whatever calls follow one another on a session that has the invariant, it has it after them.
pub run-Inv : (serde : Serde) (s : Session) (cs : List Call) → Inv s → Inv (run serde s cs)
unfolding run
run-Inv serde s [] v = v
run-Inv serde s (c ∷ cs) v = run-Inv serde (step serde s c) cs (step-Inv serde s c v)

pub initial-Inv :
    (request : CollectRequest) (manifest : Manifest) (p : DeclaredPropertyIndex)
    → Inv (initial request manifest p)
unfolding initial contains
initial-Inv request manifest p = record {
  numbered = tt;
  counted = refl;
  bounded = omega arith;
  covered = omega arith;
  committed_le = omega arith;
  offer = λ o h. cc;
  cursor = λ c h. cc;
  durable = λ q m c. cc;
}

pub new-initial :
    (request : CollectRequest) (manifest : Manifest) (stems : FieldStemRegistry) (s : Session)
    → new request manifest stems ≡ ok s
    → (p : DeclaredPropertyIndex) × (s ≡ initial request manifest p)
unfolding new
new-initial request manifest stems s h = go (index_of manifest stems) h
  where
    go :
        (r : Result DeclaredPropertyIndex)
        → Codes.◌>>=◌ r (λ p. ok (initial request manifest p)) ≡ ok s
        → (p : DeclaredPropertyIndex) × (s ≡ initial request manifest p)
    go (ok p) e = (p, cc)
    go (err c) e = cc

-- A session that `new` starts has the invariant.
pub new-Inv :
    (request : CollectRequest) (manifest : Manifest) (stems : FieldStemRegistry) (s : Session)
    → new request manifest stems ≡ ok s
    → Inv s
new-Inv request manifest stems s h =
    let (p, e) = new-initial request manifest stems s h in rw e (initial-Inv request manifest p)
