-- ===== src/App/Sync/Applied.antt =====
-- sync/mod.rs: the two effects that applying a record can have on the session and on the index, and chains of actions that have one of them.
use fieldnotes.Prelude.{ℕ, ◌≡◌, refl, sym, ap, ◌∙◌, Bool, true, false, none, List, []}
use fieldnotes.Protocol.Message.{RecordEvent}
use fieldnotes.Protocol.Session.State.{Session, is_some}
use fieldnotes.Protocol.Session.Records.{Serde, RecordDisposition, upsert, no_change, delete}
use fieldnotes.Protocol.Session.Commit.{record_durable}
use fieldnotes.Protocol.Session.Steps.{Call, run}
use fieldnotes.Protocol.Session.Charges.{charged}
use fieldnotes.Store.Index.{SourceIndex, SourceKey, source_key, key_eq, find_key}
use fieldnotes.App.Sync.State.{
  CollectContext, Run, ApplyResult, done, rejected, durability, ◌>>=◌, continue, on_session,
}
use fieldnotes.App.Sync.Effects.{Still, Keeps}

-- The key of a record's note in the index.
abbrev pub index_key : CollectContext → RecordEvent → SourceKey
index_key context e = source_key context.field_id e.source.scope e.source.identity

-- Whether the index has the record's key, after the record was applied.
abbrev pub Presence :
    {V : Type 0}
    → RecordDisposition
    → SourceKey
    → List (SourceKey × V)
    → List (SourceKey × V)
    → Type 0
Presence upsert k before after = is_some (find_key after k) ≡ true
Presence delete k before after = find_key after k ≡ none
Presence no_change k before after = find_key after k ≡ find_key before k

-- What the session's budget may be charged with: an amount that some calls on the session charge.
pub record Charge (serde : Serde) (s : Session) : Type 0 where
  pub amount : ℕ
  pub calls : List Call
  pub past : run serde s calls ≡ charged amount s

unfoldable pub no_charge : (serde : Serde) (s : Session) → Charge serde s
unfolding run
no_charge serde s = record { amount = s.staged_bytes; calls = []; past = refl }

module _ {W Parsed : Type 0} (serde : Serde) where
  -- The record is marked durable, and the index has changed at most at the record's key.
  pub record Marked (s : Session) (i : SourceIndex Parsed) (k : SourceKey) (seq : ℕ)
      (d : RecordDisposition) (r : Run W Parsed) : Type 0 where
    pub staged : Charge serde s
    pub session : r.session ≡ record_durable seq (charged staged.amount s)
    pub present : Presence d k i.notes r.index.notes
    pub others :
        (q : SourceKey) → key_eq k q ≡ false → find_key r.index.notes q ≡ find_key i.notes q

  -- Nothing is marked durable, and the index is as before.
  pub record Undone (s : Session) (i : SourceIndex Parsed) (r : Run W Parsed) : Type 0 where
    pub staged : ℕ
    pub dead : Bool
    pub session : r.session ≡ record (charged staged s) { rejected = dead }
    pub calls : List Call
    pub past : run serde s calls ≡ r.session
    pub index : r.index ≡ i

  abbrev pub Effect :
      Session
      → SourceIndex Parsed
      → SourceKey
      → ℕ
      → RecordDisposition
      → ApplyResult (Unit {0}) × Run W Parsed
      → Type 0
  Effect s i k seq d (done _, r) = Marked s i k seq d r
  Effect s i k seq d (rejected code, r) = Undone s i r
  Effect s i k seq d (durability, r) = Undone s i r

  pub Still-Undone :
      (s : Session) (i : SourceIndex Parsed) (n : Charge serde s) (r : Run W Parsed)
      → Still (charged n.amount s) i r
      → Undone s i r
  Still-Undone s i n r v = record {
    staged = n.amount;
    dead = s.rejected;
    session = v.session;
    calls = n.calls;
    past = n.past ∙ sym v.session;
    index = v.index;
  }

  -- A chain whose head leaves the session and the index alone.
  pub bind-Effect :
      {A : Type 0} (s : Session) (n : Charge serde s) (i : SourceIndex Parsed) (k : SourceKey)
      (seq : ℕ) (d : RecordDisposition) (m : Run W Parsed → ApplyResult A × Run W Parsed)
      (f : A → Run W Parsed → ApplyResult (Unit {0}) × Run W Parsed) (r : Run W Parsed)
      → Still (charged n.amount s) i r
      → Keeps m
      → ((a : A) (t : Run W Parsed) → Still (charged n.amount s) i t → Effect s i k seq d (f a t))
      → Effect s i k seq d ((m >>= f) r)
  bind-Effect {A} s n i k seq d m f r v h e = go (m r) (h (charged n.amount s) i r v)
    where
      go :
          (x : ApplyResult A × Run W Parsed)
          → Still (charged n.amount s) i x.1
          → Effect s i k seq d (continue x.0 f x.1)
      go (done a, t) w = e a t w
      go (rejected c, t) w = Still-Undone s i n t w
      go (durability, t) w = Still-Undone s i n t w

  pub mark_durable-Effect :
      (s : Session) (n : Charge serde s) (i : SourceIndex Parsed) (k : SourceKey) (seq : ℕ)
      (d : RecordDisposition) (t : Run W Parsed)
      → t.session ≡ charged n.amount s
      → Presence d k i.notes t.index.notes
      → ((q : SourceKey) → key_eq k q ≡ false → find_key t.index.notes q ≡ find_key i.notes q)
      → Effect s i k seq d (on_session (record_durable seq) t)
  mark_durable-Effect s n i k seq d t same there others = record {
    staged = n;
    session = ap (record_durable seq) same;
    present = there;
    others = others;
  }
