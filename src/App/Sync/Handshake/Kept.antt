-- ===== src/App/Sync/Handshake/Kept.antt =====
-- sync/mod.rs, collect's loop keeps the handshake.
use fieldnotes.Prelude.{◌≡◌, refl, sym, ap, subst, none, Bool, true, false, List, [], ◌∷◌}
use fieldnotes.Protocol.Codes.{Result, ok, err}
use fieldnotes.Protocol.Message.{
  FieldEvent, Manifest, CollectRequest, record_event, manifest_event, checkpoint_event,
  diagnostic_event,
}
use fieldnotes.Protocol.Session.State.{Session, new}
use fieldnotes.Protocol.Session.Records.{AcceptedRecord}
use fieldnotes.Protocol.Session.Steps.{
  accepts, step, AcceptedEvent, accepted_record, checkpoint, diagnostic, accept, dispatch,
}
use fieldnotes.Protocol.Session.Invariant.{Inv}
use fieldnotes.Protocol.Session.Ready.{Ready, Taken, accept-Taken, Offers-commit}
use fieldnotes.App.Sync.State.{Outside, CollectContext, Run}
use fieldnotes.App.Sync.Records.{apply_record}
use fieldnotes.App.Sync.Applying.{apply_record-Effect}
use fieldnotes.App.Sync.Collect.{
  Frame, decoded, broken, Loop, stopped, take_record, take_accepted, handle, turn, collect_frames,
  reject_run,
}
use fieldnotes.App.Sync.Loops.{Reaches-step, Reaches-Inv, Sound}
use fieldnotes.App.Sync.Ending.{before_loop, fresh_loop}
use fieldnotes.App.Sync.Durable.{fresh_loop-Sound}
use fieldnotes.Domain.Stems.{FieldStemRegistry}
use fieldnotes.Protocol.Session.Preserved.{new-Inv}
use fieldnotes.App.Sync.Turns.{turn-Sound}
use fieldnotes.App.Sync.Handshake.{
  Answers, broken_frame, refused_event, passed_diagnostic, Handshake, reads_all, goes_on, ends_at,
}
use fieldnotes.App.Sync.Handshake.Answered.{
  is_record_answer, dispatch-checkpoint, dispatch-diagnostic, accept-other, record-Answers,
  offer-Answers,
}

module _ {W Parsed Candidate : Type 0} (out : Outside W Parsed Candidate) (context : CollectContext)
    (start : Session) (v : Inv start) where
  -- The loop's locals with the session that `accept` leaves.
  abbrev after_accept : Loop W Parsed → Session → Loop W Parsed
  after_accept l t = record l { run = record l.run { session = t } }

  misfit-Answers :
      (e : FieldEvent) (a : AcceptedRecord) (s t u : Session) (b : Bool)
      → accept context.serde e s ≡ (ok (accepted_record a), t)
      → is_record_answer (dispatch context.serde e s) ≡ false
      → Answers context.serde (decoded e) s u b
  misfit-Answers e a s t u b h other =
      let never = accept-other context.serde e s other in
      let always = ap is_record_answer h in cc (never, always)

  handle-Answers :
      (e : FieldEvent) (x : Result AcceptedEvent × Session) (l : Loop W Parsed)
      → accept context.serde e l.run.session ≡ x
      → stopped l ≡ false
      → Inv x.1
      → Ready l.run.session
      → Taken l.run.session x
      → Answers context.serde
          (decoded e)
          l.run.session
          (handle out context e x.0 (after_accept l x.1)).run.session
          (stopped (handle out context e x.0 (after_accept l x.1)))
  unfolding handle take_accepted take_record stopped
  handle-Answers e (err c, t) l h on inv ready taken = refused_event e c l.run.session t h
  handle-Answers (record_event event) (ok (accepted_record a), t) l h on inv ready taken =
      let m : Loop W Parsed = record l {
        run = record l.run { session = t };
        reported = (event.source.scope, event.source.identity) ∷ l.reported;
      } in
      record-Answers out context event a l.run.session m
        (apply_record out context event a.seq a.disposition m.run) h on
        (apply_record-Effect out context event a.seq a.disposition m.run)
  handle-Answers (manifest_event e) (ok (accepted_record a), t) l h on inv ready taken =
      misfit-Answers (manifest_event e) a l.run.session t _ _ h (unfold dispatch in refl)
  handle-Answers (checkpoint_event e) (ok (accepted_record a), t) l h on inv ready taken =
      misfit-Answers (checkpoint_event e) a l.run.session t _ _ h
        (dispatch-checkpoint context.serde e l.run.session)
  handle-Answers (diagnostic_event e) (ok (accepted_record a), t) l h on inv ready taken =
      misfit-Answers (diagnostic_event e) a l.run.session t _ _ h
        (dispatch-diagnostic context.serde e l.run.session)
  handle-Answers e (ok (checkpoint o), t) l h on inv ready taken =
      offer-Answers out context e o l.run.session (after_accept l t) h on
        (Offers-commit l.run.session t o inv ready taken)
  handle-Answers e (ok (diagnostic q severity), t) l h on inv ready taken =
      subst (Answers context.serde (decoded e) l.run.session t) (sym on)
        (passed_diagnostic e q severity l.run.session t h)

  turn-Answers :
      (f : Frame) (l : Loop W Parsed)
      → stopped l ≡ false
      → Sound context.serde start l
      → Answers context.serde f l.run.session
          (turn out context f l).run.session
          (stopped (turn out context f l))
  unfolding turn reject_run stopped
  turn-Answers (broken code) l on w = broken_frame code l.run.session
  turn-Answers (decoded e) l on w =
      handle-Answers e (accept context.serde e l.run.session) l refl on
        (Reaches-Inv context.serde start _ v
          (unfold step in Reaches-step context.serde start l.run.session (accepts e) w.history))
        (w.ready on) (accept-Taken context.serde l.run.session (w.ready on) e)

  stopped_stays :
      (fs : List Frame) (l : Loop W Parsed) → stopped l ≡ true → collect_frames out context fs l ≡ l
  unfolding collect_frames
  stopped_stays [] l off = refl
  stopped_stays (f ∷ fs) l off = rw off refl

  collect_frames-Handshake :
      (fs : List Frame) (l : Loop W Parsed)
      → stopped l ≡ false
      → Sound context.serde start l
      → Handshake context.serde fs l.run.session
          (collect_frames out context fs l).run.session
          (stopped (collect_frames out context fs l))
  unfolding collect_frames
  collect_frames-Handshake [] l on w =
      subst (Handshake context.serde [] l.run.session l.run.session) (sym on)
        (reads_all l.run.session)
  collect_frames-Handshake (f ∷ fs) l on w = rw on (
      go (stopped next) refl (turn-Answers f l on w)
        (λ on'. collect_frames-Handshake fs next on' (turn-Sound out context start v f l on w)))
    where
      next : Loop W Parsed
      next = turn out context f l

      go :
          (b : Bool)
          → stopped next ≡ b
          → Answers context.serde f l.run.session next.run.session (stopped next)
          → (stopped next ≡ false
              → Handshake context.serde fs next.run.session
                  (collect_frames out context fs next).run.session
                  (stopped (collect_frames out context fs next)))
          → Handshake context.serde
              (f ∷ fs)
              l.run.session
              (collect_frames out context fs next).run.session
              (stopped (collect_frames out context fs next))
      go false p answer later =
          goes_on f fs l.run.session next.run.session _ _
            (subst (Answers context.serde f l.run.session next.run.session) p answer) (later p)
      go true p answer later =
          subst
            (λ (m : Loop W Parsed).
              Handshake context.serde (f ∷ fs) l.run.session m.run.session (stopped m))
            (sym (stopped_stays fs next p))
            (subst (Handshake context.serde (f ∷ fs) l.run.session next.run.session) (sym p) (
              ends_at f fs l.run.session next.run.session
                (subst (Answers context.serde f l.run.session next.run.session) p answer)))

-- In a run whose request was sent and that starts with the session that `new` makes, the loop answers
-- the frames in order, up to the first that ends it. It goes on only after a record that was accepted
-- and made durable before the next frame, a checkpoint that was accepted, committed and granted, or an
-- accepted diagnostic; it ends at a frame that cannot be read, an event that the session refuses and a
-- record that cannot be stored, which is not made durable.
pub collect-Handshake :
    {W Parsed Candidate : Type 0} (out : Outside W Parsed Candidate) (context : CollectContext)
    (request : CollectRequest) (manifest : Manifest) (stems : FieldStemRegistry) (r : Run W Parsed)
    (fs : List Frame)
    → new request manifest stems ≡ ok r.session
    → Handshake context.serde fs r.session
        (collect_frames out context fs (before_loop none r)).run.session
        (stopped (collect_frames out context fs (before_loop none r)))
unfolding before_loop
collect-Handshake out context request manifest stems r fs h =
    collect_frames-Handshake out context r.session (new-Inv request manifest stems r.session h) fs
      (fresh_loop r) (unfold stopped in refl)
      (fresh_loop-Sound out context request manifest stems none r fs h)
