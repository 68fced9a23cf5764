-- ===== src/App/Sync/Turns.antt =====
-- sync/mod.rs, collect's loop: every turn keeps what holds of its locals.
use fieldnotes.Prelude.{
  ℕ, ◌≤◌, ◌≡◌, refl, sym, ap, subst, ◌∙◌, Bool, true, false, Option, none, some, List, [], ◌∷◌,
  ◌++◌, All-append, arith, ◌||◌, if◌then◌else◌,
}
use fieldnotes.Protocol.Codes.{RejectionCode, Result, ok, err}
use fieldnotes.Protocol.Message.{
  FieldEvent, RecordEvent, record_event, manifest_event, checkpoint_event, diagnostic_event,
}
use fieldnotes.Protocol.Session.State.{Session, CheckpointOffer, is_some}
use fieldnotes.Protocol.Session.Records.{Serde}
use fieldnotes.Protocol.Session.Commit.{commit, advance_cursor, cursor_of, granted}
use fieldnotes.Protocol.Session.Steps.{
  accepts, made_durable, commits, AcceptedEvent, accepted_record, checkpoint, diagnostic, accept,
  step, run,
}
use fieldnotes.Protocol.Session.Invariant.{Inv}
use fieldnotes.Protocol.Session.Histories.{run-append}
use fieldnotes.Protocol.Session.Ready.{
  Ready, Awaits, Offers, Taken, accept-Taken, Awaits-Ready, Offers-commit, committed-Ready,
}
use fieldnotes.App.Sync.State.{
  StoredCursor, Outside, CollectContext, Run, ApplyResult, done, rejected, durability,
}
use fieldnotes.App.Sync.Records.{apply_record}
use fieldnotes.App.Sync.Applied.{Effect, Marked, index_key}
use fieldnotes.App.Sync.Applying.{apply_record-Effect}
use fieldnotes.App.Sync.Collect.{
  Frame, decoded, broken, cursor_not_recorded, Loop, stopped, decide, commit_checkpoint,
  after_checkpoint, after_apply, take_record, take_accepted, handle, turn, collect_frames,
  cursor_to_store, written,
}
use fieldnotes.App.Sync.Loops.{
  Reaches, Reaches-refl, Reaches-run, Reaches-step, Reaches-Inv, Sound, moved-Sound,
  reject_run-Sound,
}

pub or_true : (b : Bool) → (b || true) ≡ true
or_true b = ground arith

durable_calls :
    {W Parsed : Type 0} (serde : Serde) (s : Session) (i : _) (k : _) (seq : ℕ) (d : _)
    (r : Run W Parsed) (w : Marked serde s i k seq d r)
    → run serde s (w.staged.calls ++ (made_durable seq ∷ [])) ≡ r.session
unfolding step run
durable_calls serde s i k seq d r w =
    run-append serde s w.staged.calls (made_durable seq ∷ [])
    ∙ ap (λ x. run serde x (made_durable seq ∷ [])) w.staged.past
    ∙ sym w.session

module _ {W Parsed Candidate : Type 0} (out : Outside W Parsed Candidate) (context : CollectContext)
    (s : Session) (v : Inv s) where
  -- A record that was accepted in the session `t`.
  after_apply-Sound :
      (event : RecordEvent) (seq : ℕ) (d : _) (l : Loop W Parsed) (m : Loop W Parsed)
      (x : ApplyResult (Unit {0}) × Run W Parsed)
      → Sound context.serde s l
      → Ready l.run.session
      → Reaches context.serde l.run.session m.run.session
      → m.committed ≡ l.committed
      → m.withheld ≡ l.withheld
      → Awaits l.run.session seq m.run.session
      → Effect context.serde m.run.session m.run.index (index_key context event) seq d x
      → Sound context.serde s (after_apply out context x m)
  unfolding after_apply stopped
  after_apply-Sound event seq d l m (done _, r) w ready h same same' awaits effect =
      moved-Sound context.serde s v l (record m { run = r }) w
        (Reaches-run context.serde l.run.session m.run.session r.session
          (effect.staged.calls ++ (made_durable seq ∷ [])) h
          (durable_calls context.serde m.run.session m.run.index (index_key context event) seq d r
            effect))
        same same'
        (λ _.
          subst Ready (sym effect.session)
            (Awaits-Ready l.run.session m.run.session seq effect.staged.amount ready awaits))
  after_apply-Sound event seq d l m (rejected code, r) w ready h same same' awaits effect =
      reject_run-Sound context.serde s v code l (record m { run = r }) w
        (Reaches-run context.serde l.run.session m.run.session r.session effect.calls h effect.past)
        same same'
  after_apply-Sound event seq d l m (durability, r) w ready h same same' awaits effect =
      moved-Sound context.serde s v l _ w
        (Reaches-run context.serde l.run.session m.run.session r.session effect.calls h effect.past)
        same same' (λ e. cc (or_true (is_some m.rejection), e))

  -- A checkpoint that was offered in the session `m.run.session`.
  checkpoint-Sound :
      (o : CheckpointOffer) (l : Loop W Parsed) (m : Loop W Parsed)
      → Sound context.serde s l
      → Ready l.run.session
      → Reaches context.serde l.run.session m.run.session
      → m.committed ≡ l.committed
      → m.withheld ≡ l.withheld
      → Offers l.run.session o m.run.session
      → Sound context.serde s
          (after_checkpoint out context (commit_checkpoint out context o m.run) m)
  unfolding commit_checkpoint decide after_checkpoint step
  checkpoint-Sound o l m w ready h same same' offers =
      subst
        (λ x. Sound context.serde s (after_checkpoint out context (decide out context o x m.run) m))
        (sym commit_granted)
        (after (out.write_cursor (cursor_to_store out context (cursor_of o)) m.run.world))
    where
      t : Session
      t = m.run.session

      inv : Inv t
      inv =
          Reaches-Inv context.serde s t v
            (Reaches-run context.serde s l.run.session t h.calls w.history h.past)

      again : Ready (advance_cursor o t)
      again = committed-Ready l.run.session t o ready offers

      commit_granted : commit o t ≡ (granted (cursor_of o), advance_cursor o t)
      commit_granted = Offers-commit l.run.session t o inv ready offers

      past : Reaches context.serde l.run.session (advance_cursor o t)
      past =
          subst (λ x. Reaches context.serde l.run.session x.1) commit_granted
            (Reaches-step context.serde l.run.session t (commits o) h)

      base :
          (world : W)
          → Sound context.serde s
              (record m { run = record m.run { session = advance_cursor o t; world = world } })
      base world = moved-Sound context.serde s v l _ w past same same' (λ _. again)

      covered : o.covers_record_seq_through ≤ (advance_cursor o t).last_committed_coverage
      covered = unfold advance_cursor in omega arith

      after :
          (x : Option (Unit {0}) × W)
          → Sound context.serde s (
              after_checkpoint out context
                (written out context
                  (cursor_to_store out context (cursor_of o))
                  x
                  (record m.run { session = advance_cursor o t }))
                m)
      after (none, world) = record {
        history = (base world).history;
        recorded = (base world).recorded;
        withheld =
            All-append (λ reason. reason ≡ cursor_not_recorded) m.withheld
              (cursor_not_recorded ∷ []) (base world).withheld (refl, tt);
        ready = λ _. again;
      }
      after (some u, world) = record {
        history = (base world).history;
        recorded = λ c e. stored_covers c e;
        withheld = (base world).withheld;
        ready = λ _. again;
      }
        where
          stored_covers :
              (c : StoredCursor)
              → some (cursor_to_store out context (cursor_of o)) ≡ some c
              → c.covers_record_seq_through ≤ (advance_cursor o t).last_committed_coverage
          stored_covers c e =
              let same : cursor_to_store out context (cursor_of o) ≡ c = cc in
              subst
                (λ x. x.covers_record_seq_through ≤ (advance_cursor o t).last_committed_coverage)
                same covered

  -- A rejection by the session, or a frame that is not what was accepted.
  rejected-Sound :
      (code : RejectionCode) (l m : Loop W Parsed)
      → Sound context.serde s l
      → Reaches context.serde l.run.session m.run.session
      → m.committed ≡ l.committed
      → m.withheld ≡ l.withheld
      → Sound context.serde s (record m { rejection = some code })
  unfolding stopped
  rejected-Sound code l m w h same same' =
      moved-Sound context.serde s v l (record m { rejection = some code }) w h same same' (λ e. cc)

  handle-Sound :
      (e : FieldEvent) (x : Result AcceptedEvent × Session) (l : Loop W Parsed)
      → Sound context.serde s l
      → Ready l.run.session
      → Reaches context.serde l.run.session x.1
      → Taken l.run.session x
      → Sound context.serde s
          (handle out context e x.0 (record l { run = record l.run { session = x.1 } }))
  unfolding handle take_accepted take_record
  handle-Sound e (err c, t) l w ready h taken =
      rejected-Sound c l (record l { run = record l.run { session = t } }) w h refl refl
  handle-Sound (record_event event) (ok (accepted_record a), t) l w ready h taken =
      let m : Loop W Parsed = record l {
        run = record l.run { session = t };
        reported = (event.source.scope, event.source.identity) ∷ l.reported;
      } in
      after_apply-Sound event a.seq a.disposition l m
        (apply_record out context event a.seq a.disposition m.run) w ready h refl refl taken
        (apply_record-Effect out context event a.seq a.disposition m.run)
  handle-Sound (manifest_event e) (ok (accepted_record a), t) l w ready h taken =
      rejected-Sound _ l (record l { run = record l.run { session = t } }) w h refl refl
  handle-Sound (checkpoint_event e) (ok (accepted_record a), t) l w ready h taken =
      rejected-Sound _ l (record l { run = record l.run { session = t } }) w h refl refl
  handle-Sound (diagnostic_event e) (ok (accepted_record a), t) l w ready h taken =
      rejected-Sound _ l (record l { run = record l.run { session = t } }) w h refl refl
  handle-Sound e (ok (checkpoint o), t) l w ready h taken =
      checkpoint-Sound o l (record l { run = record l.run { session = t } }) w ready h refl refl
        taken
  handle-Sound e (ok (diagnostic q severity), t) l w ready h taken =
      moved-Sound context.serde s v l (record l { run = record l.run { session = t } }) w h refl
        refl (λ _. taken)

  pub turn-Sound :
      (f : Frame) (l : Loop W Parsed)
      → stopped l ≡ false
      → Sound context.serde s l
      → Sound context.serde s (turn out context f l)
  unfolding turn
  turn-Sound (broken code) l on w =
      reject_run-Sound context.serde s v code l l w (Reaches-refl context.serde l.run.session) refl
        refl
  turn-Sound (decoded e) l on w =
      handle-Sound e (accept context.serde e l.run.session) l w (w.ready on)
        (unfold step in
          (Reaches-step context.serde l.run.session l.run.session (accepts e)
            (Reaches-refl context.serde l.run.session)))
        (accept-Taken context.serde l.run.session (w.ready on) e)

  pub collect_frames-Sound :
      (fs : List Frame) (l : Loop W Parsed)
      → Sound context.serde s l
      → Sound context.serde s (collect_frames out context fs l)
  unfolding collect_frames
  collect_frames-Sound [] l w = w
  collect_frames-Sound (f ∷ fs) l w =
      go (stopped l) refl
        (λ on. collect_frames-Sound fs (turn out context f l) (turn-Sound f l on w))
    where
      go :
          (b : Bool)
          → stopped l ≡ b
          → (stopped l ≡ false
              → Sound context.serde s (collect_frames out context fs (turn out context f l)))
          → Sound context.serde s
              (if b then l else collect_frames out context fs (turn out context f l))
      go true e later = w
      go false e later = later e
