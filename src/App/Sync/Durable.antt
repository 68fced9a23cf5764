-- ===== src/App/Sync/Durable.antt =====
-- sync/mod.rs, collect: what holds of the loop's locals when it ends, whatever the child wrote and
-- whatever the notebook's files did.
use fieldnotes.Prelude.{
  ℕ, ◌≤◌, ◌≡◌, refl, sym, subst, true, false, Option, none, some, List, All, arith,
}
use fieldnotes.Domain.Stems.{FieldStemRegistry}
use fieldnotes.Protocol.Codes.{RejectionCode, ok}
use fieldnotes.Protocol.Message.{Manifest, CollectRequest}
use fieldnotes.Protocol.Session.State.{Session, contains, new, initial}
use fieldnotes.Protocol.Session.Invariant.{Inv}
use fieldnotes.Protocol.Session.Preserved.{run-Inv, new-Inv, new-initial}
use fieldnotes.Protocol.Session.Ready.{Ready}
use fieldnotes.App.Sync.State.{StoredCursor, Outside, CollectContext, Run}
use fieldnotes.App.Sync.Collect.{Frame, cursor_not_recorded, Loop, stopped, collect_frames}
use fieldnotes.App.Sync.Ending.{before_loop, fresh_loop}
use fieldnotes.App.Sync.Loops.{Reaches-refl, Sound, reject_run-Sound}
use fieldnotes.App.Sync.Turns.{collect_frames-Sound}

new-Ready :
    (request : CollectRequest) (manifest : Manifest) (stems : FieldStemRegistry) (s : Session)
    → new request manifest stems ≡ ok s
    → Ready s
new-Ready request manifest stems s h =
    let (p, same) = new-initial request manifest stems s h in
    subst Ready (sym same)
      (unfold initial contains in (record { live = refl; decided = refl; durable = λ q e. cc }))

module _ {W Parsed Candidate : Type 0} (out : Outside W Parsed Candidate) (context : CollectContext)
    (request : CollectRequest) (manifest : Manifest) (stems : FieldStemRegistry)
    (send_error : Option RejectionCode) (r : Run W Parsed) (fs : List Frame) where
  -- The loop's locals at its end.
  abbrev ended : Loop W Parsed
  ended = collect_frames out context fs (before_loop send_error r)

  pub fresh_loop-Sound :
      new request manifest stems ≡ ok r.session → Sound context.serde r.session (fresh_loop r)
  fresh_loop-Sound h = record {
    history = Reaches-refl context.serde r.session;
    recorded = λ c e. cc;
    withheld = tt;
    ready = λ _. new-Ready request manifest stems r.session h;
  }

  before_loop-Sound :
      (e : Option RejectionCode)
      → new request manifest stems ≡ ok r.session
      → Sound context.serde r.session (before_loop e r)
  unfolding before_loop
  before_loop-Sound none h = fresh_loop-Sound h
  before_loop-Sound (some code) h =
      reject_run-Sound context.serde r.session (new-Inv request manifest stems r.session h) code
        (fresh_loop r) (fresh_loop r) (fresh_loop-Sound h) (Reaches-refl context.serde r.session)
        refl refl

  ended-Sound : new request manifest stems ≡ ok r.session → Sound context.serde r.session ended
  ended-Sound h =
      collect_frames-Sound out context r.session (new-Inv request manifest stems r.session h) fs
        (before_loop send_error r) (before_loop-Sound send_error h)

  -- In a run that starts with the session that `new` makes, a loop that ends with neither a rejection
  -- nor a failure has made every accepted record durable.
  pub all_records_durable :
      (q : ℕ)
      → new request manifest stems ≡ ok r.session
      → stopped ended ≡ false
      → contains ended.run.session.records_by_seq q ≡ true
      → contains ended.run.session.durable_seqs q ≡ true
  all_records_durable q h on = ((ended-Sound h).ready on).durable q

  -- In a run that starts with the session that `new` makes, the session refuses no checkpoint that it
  -- has accepted: a checkpoint is withheld only where its cursor could not be recorded.
  pub withheld_only_unrecorded :
      new request manifest stems ≡ ok r.session
      → All (λ reason. reason ≡ cursor_not_recorded) ended.withheld
  withheld_only_unrecorded h = (ended-Sound h).withheld

  -- In a run that starts with the session that `new` makes, however it ends, every accepted record
  -- that the stored cursor covers is durable.
  pub stored_cursor_durable :
      (q : ℕ) (c : StoredCursor)
      → new request manifest stems ≡ ok r.session
      → ended.committed ≡ some c
      → contains ended.run.session.records_by_seq q ≡ true
      → q ≤ c.covers_record_seq_through
      → contains ended.run.session.durable_seqs q ≡ true
  stored_cursor_durable q c h e accepted le =
      let w = ended-Sound h in
      let covered = w.recorded c e in inv.durable q accepted (omega (arith, covered, le))
    where
      inv : Inv ended.run.session
      inv =
          let history = (ended-Sound h).history in
          subst Inv history.past (
            run-Inv context.serde r.session history.calls
              (new-Inv request manifest stems r.session h))
