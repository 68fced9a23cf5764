-- ===== src/App/Sync/Loops.antt =====
-- sync/mod.rs, collect's loop: what every turn keeps, from the session that starts the run on.
use fieldnotes.Prelude.{
  ◌≤◌, ◌≡◌, refl, sym, ap, subst, ◌∙◌, false, some, List, [], ◌∷◌, ◌++◌, All, arith,
}
use fieldnotes.Protocol.Codes.{RejectionCode}
use fieldnotes.Protocol.Session.State.{Session}
use fieldnotes.Protocol.Session.Records.{Serde}
use fieldnotes.Protocol.Session.Steps.{Call, notes_rejection, step, run}
use fieldnotes.Protocol.Session.Invariant.{Inv}
use fieldnotes.Protocol.Session.Preserved.{run-Inv}
use fieldnotes.Protocol.Session.Histories.{run-append}
use fieldnotes.Protocol.Session.Commitment.{run-AtLeast}
use fieldnotes.Protocol.Session.Ready.{Ready}
use fieldnotes.App.Sync.State.{StoredCursor}
use fieldnotes.App.Sync.Collect.{cursor_not_recorded, Loop, stopped, reject_run}

-- Some calls lead from the one session to the other.
pub record Reaches (serde : Serde) (s t : Session) : Type 0 where
  pub calls : List Call
  pub past : run serde s calls ≡ t

pub Reaches-refl : (serde : Serde) (s : Session) → Reaches serde s s
Reaches-refl serde s = record { calls = []; past = unfold run in refl }

pub Reaches-run :
    (serde : Serde) (s t u : Session) (cs : List Call)
    → Reaches serde s t
    → run serde t cs ≡ u
    → Reaches serde s u
Reaches-run serde s t u cs h e = record {
  calls = h.calls ++ cs;
  past = run-append serde s h.calls cs ∙ ap (λ x. run serde x cs) h.past ∙ e;
}

pub Reaches-step :
    (serde : Serde) (s t : Session) (c : Call)
    → Reaches serde s t
    → Reaches serde s (step serde t c)
Reaches-step serde s t c h = Reaches-run serde s t (step serde t c) (c ∷ []) h (unfold run in refl)

pub Reaches-Inv : (serde : Serde) (s t : Session) → Inv s → Reaches serde s t → Inv t
Reaches-Inv serde s t v h = subst Inv h.past (run-Inv serde s h.calls v)

-- Along any calls the committed coverage does not shrink.
Reaches-forward :
    (serde : Serde) (s t : Session)
    → Inv s
    → Reaches serde s t
    → s.last_committed_coverage ≤ t.last_committed_coverage
Reaches-forward serde s t v h =
    subst (λ x. s.last_committed_coverage ≤ x.last_committed_coverage) h.past
      (run-AtLeast serde s.last_committed_coverage s h.calls
        (record { inv = v; least = omega arith })).least

-- What holds of the loop's locals before every turn: the session comes from `s` by calls on it, the
-- stored cursor covers no more than the session has committed, a checkpoint was withheld only where
-- its cursor could not be recorded, and while the loop goes on all accepted records are durable.
pub record Sound {W Parsed : Type 0} (serde : Serde) (s : Session) (l : Loop W Parsed)
    : Type 0 where
  pub history : Reaches serde s l.run.session
  pub recorded :
      (c : StoredCursor)
      → l.committed ≡ some c
      → c.covers_record_seq_through ≤ l.run.session.last_committed_coverage
  pub withheld : All (λ reason. reason ≡ cursor_not_recorded) l.withheld
  pub ready : stopped l ≡ false → Ready l.run.session

module _ {W Parsed : Type 0} (serde : Serde) (s : Session) (v : Inv s) where
  -- The session moves on by calls; nothing else that `Sound` speaks of changes.
  pub moved-Sound :
      (l : Loop W Parsed) (m : Loop W Parsed)
      → Sound serde s l
      → Reaches serde l.run.session m.run.session
      → m.committed ≡ l.committed
      → m.withheld ≡ l.withheld
      → (stopped m ≡ false → Ready m.run.session)
      → Sound serde s m
  moved-Sound l m w h same same' ready = record {
    history = Reaches-run serde s l.run.session m.run.session h.calls w.history h.past;
    recorded = λ c e.
        let before = w.recorded c (sym same ∙ e) in
        let forward =
          Reaches-forward serde l.run.session m.run.session
            (Reaches-Inv serde s l.run.session v w.history) h in
        omega (arith, before, forward);
    withheld = subst (λ x. All (λ reason. reason ≡ cursor_not_recorded) x) (sym same') w.withheld;
    ready = ready;
  }

  pub reject_run-Sound :
      (code : RejectionCode) (l : Loop W Parsed) (m : Loop W Parsed)
      → Sound serde s l
      → Reaches serde l.run.session m.run.session
      → m.committed ≡ l.committed
      → m.withheld ≡ l.withheld
      → Sound serde s (reject_run code m)
  unfolding reject_run stopped step
  reject_run-Sound code l m w h same same' =
      moved-Sound l (reject_run code m) w
        (Reaches-step serde l.run.session m.run.session notes_rejection h) same same' (λ e. cc)
