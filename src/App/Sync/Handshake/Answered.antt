-- ===== src/App/Sync/Handshake/Answered.antt =====
-- sync/mod.rs, collect's loop: what the arms of its match do to the session, as the handshake has it.
use fieldnotes.Prelude.{
  ℕ, ◌≡◌, refl, sym, ap, subst, ◌∙◌, Option, none, some, Bool, true, false, if◌then◌else◌,
}
use fieldnotes.Protocol.Codes.{Result, ok, err, protocol_unexpected_order}
use fieldnotes.Protocol.Message.{
  FieldEvent, RecordEvent, CheckpointEvent, DiagnosticEvent, Severity, record_event,
  checkpoint_event, diagnostic_event,
}
use fieldnotes.Protocol.Session.State.{Session, CheckpointOffer, is_some, continue, pure, fail}
use fieldnotes.Protocol.Session.Records.{Serde, AcceptedRecord, accept_diagnostic}
use fieldnotes.Protocol.Session.Checkpoints.{accept_checkpoint}
use fieldnotes.Protocol.Session.Commit.{commit, advance_cursor, cursor_of, granted, note_rejection}
use fieldnotes.Protocol.Session.Steps.{
  AcceptedEvent, accepted_record, checkpoint, diagnostic, accept, dispatch,
}
use fieldnotes.App.Sync.State.{
  Outside, CollectContext, Run, ApplyResult, done, rejected, durability,
}
use fieldnotes.App.Sync.Applied.{Effect, index_key}
use fieldnotes.App.Sync.Collect.{
  decoded, Loop, stopped, decide, commit_checkpoint, after_checkpoint, after_apply, cursor_to_store,
  written, reject_run,
}
use fieldnotes.App.Sync.Turns.{or_true}
use fieldnotes.App.Sync.Handshake.{Answers, durable_record, failed_record, granted_offer}

-- Only a record frame is accepted as a record.
abbrev pub is_record_answer : Result AcceptedEvent × Session → Bool
is_record_answer (ok (accepted_record a), t) = true
is_record_answer (ok (checkpoint o), t) = false
is_record_answer (ok (diagnostic seq severity), t) = false
is_record_answer (err code, t) = false

pub dispatch-checkpoint :
    (serde : Serde) (e : CheckpointEvent) (s : Session)
    → is_record_answer (dispatch serde (checkpoint_event e) s) ≡ false
unfolding dispatch
dispatch-checkpoint serde e s = go (accept_checkpoint e s)
  where
    go :
        (x : Result CheckpointOffer × Session)
        → is_record_answer (continue x.0 (λ o. pure (checkpoint o)) x.1) ≡ false
    go (ok o, t) = refl
    go (err code, t) = refl

pub dispatch-diagnostic :
    (serde : Serde) (e : DiagnosticEvent) (s : Session)
    → is_record_answer (dispatch serde (diagnostic_event e) s) ≡ false
unfolding dispatch
dispatch-diagnostic serde e s = go (accept_diagnostic e s)
  where
    go :
        (x : Result (ℕ × Severity) × Session)
        → is_record_answer (continue x.0 (λ a. pure (diagnostic a.0 a.1)) x.1) ≡ false
    go (ok a, t) = refl
    go (err code, t) = refl

pub accept-other :
    (serde : Serde) (e : FieldEvent) (s : Session)
    → is_record_answer (dispatch serde e s) ≡ false
    → is_record_answer (accept serde e s) ≡ false
unfolding accept
accept-other serde e s h = go s.rejected (is_some s.pending_offer)
  where
    go :
        (b c : Bool)
        → is_record_answer (
            if b
            then (err protocol_unexpected_order, s)
            else if c
            then fail protocol_unexpected_order s
            else dispatch serde e s)
          ≡ false
    go true c = refl
    go false true = refl
    go false false = h

-- A record that was accepted in the session `t` and then applied.
pub record-Answers :
    {W Parsed Candidate : Type 0} (out : Outside W Parsed Candidate) (context : CollectContext)
    (event : RecordEvent) (a : AcceptedRecord) (s : Session) (m : Loop W Parsed)
    (x : ApplyResult (Unit {0}) × Run W Parsed)
    → accept context.serde (record_event event) s ≡ (ok (accepted_record a), m.run.session)
    → stopped m ≡ false
    → Effect context.serde m.run.session m.run.index (index_key context event) a.seq a.disposition x
    → Answers context.serde
        (decoded (record_event event))
        s
        (after_apply out context x m).run.session
        (stopped (after_apply out context x m))
unfolding after_apply stopped reject_run note_rejection
record-Answers out context event a s m (done _, r) h on effect =
    subst (λ (u : Session × Bool). Answers context.serde (decoded (record_event event)) s u.0 u.1)
      (ap (λ (t : Session). (t, false)) (sym effect.session)
        ∙ ap (λ (b : Bool). (r.session, b)) (sym on))
      (durable_record event a s m.run.session effect.staged h)
record-Answers out context event a s m (rejected code, r) h on effect =
    subst
      (λ t.
        Answers context.serde (decoded (record_event event)) s (record t { rejected = true }) true)
      (sym effect.session) (failed_record event a s m.run.session effect.staged true h)
record-Answers out context event a s m (durability, r) h on effect =
    subst (λ (u : Session × Bool). Answers context.serde (decoded (record_event event)) s u.0 u.1)
      (ap (λ (t : Session). (t, true)) (sym effect.session)
        ∙ ap (λ (b : Bool). (r.session, b)) (sym (or_true (is_some m.rejection))))
      (failed_record event a s m.run.session effect.staged effect.dead h)

-- A checkpoint that was accepted in the session `t`.
pub offer-Answers :
    {W Parsed Candidate : Type 0} (out : Outside W Parsed Candidate) (context : CollectContext)
    (e : FieldEvent) (o : CheckpointOffer) (s : Session) (m : Loop W Parsed)
    → accept context.serde e s ≡ (ok (checkpoint o), m.run.session)
    → stopped m ≡ false
    → commit o m.run.session ≡ (granted (cursor_of o), advance_cursor o m.run.session)
    → Answers context.serde
        (decoded e)
        s
        (after_checkpoint out context (commit_checkpoint out context o m.run) m).run.session
        (stopped (after_checkpoint out context (commit_checkpoint out context o m.run) m))
unfolding commit_checkpoint decide after_checkpoint stopped
offer-Answers {W} out context e o s m h on given =
    subst
      (λ x.
        Answers context.serde (decoded e) s
          (after_checkpoint out context (decide out context o x m.run) m).run.session
          (stopped (after_checkpoint out context (decide out context o x m.run) m)))
      (sym given) (go (out.write_cursor (cursor_to_store out context (cursor_of o)) m.run.world))
  where
    granted_here : Answers context.serde (decoded e) s (advance_cursor o m.run.session) (stopped m)
    granted_here =
        subst (Answers context.serde (decoded e) s (advance_cursor o m.run.session)) (sym on)
          (granted_offer e o s m.run.session (advance_cursor o m.run.session) h given)

    go :
        (x : Option (Unit {0}) × W)
        → Answers context.serde
            (decoded e)
            s
            (after_checkpoint out context
              (written out context
                (cursor_to_store out context (cursor_of o))
                x
                (record m.run { session = advance_cursor o m.run.session }))
              m).run.session
            (stopped (
              after_checkpoint out context
                (written out context
                  (cursor_to_store out context (cursor_of o))
                  x
                  (record m.run { session = advance_cursor o m.run.session }))
                m))
    go (none, w) = granted_here
    go (some u, w) = granted_here
