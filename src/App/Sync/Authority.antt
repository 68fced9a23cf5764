-- ===== src/App/Sync/Authority.antt =====
-- sync/mod.rs, the end of collect: on whose authority it removes notes, and that it removes all that it may.
use fieldnotes.Prelude.{
  ℕ, ◌≡◌, ◌⊎◌, inl, inr, refl, sym, ap, subst, ◌∙◌, Text, Bool, true, false, ◌&&◌, Option, none,
  some, [], ◌∷◌, if◌then◌else◌, Bool-cases,
}
use fieldnotes.Protocol.Session.Finish.{
  ExitObservation, DeletionAuthorization, authorized, refused, finish,
}
use fieldnotes.Protocol.Session.State.{is_some}
use fieldnotes.Protocol.Session.Deletion.{MayDelete, authorized_iff}
use fieldnotes.Store.Index.{SourceKey, find_key, keys_in_scope}
use fieldnotes.App.Sync.State.{
  FieldRunOutcome, complete, partial, DeletionReport, incomplete_durable_write, from_authorization,
  Outside, CollectContext, Run,
}
use fieldnotes.App.Sync.Collect.{Loop, contains_pair}
use fieldnotes.App.Sync.Ending.{
  remove_absent_notes, fell_short, lowered_deletion, ending_outcome, ending_deletion, reconcile,
  reconciled, after_removal,
}
use fieldnotes.App.Sync.Removal.{
  among, absent, Removes, Unreported, remove_keys-Removes, absent-Unreported, Unreported-absent,
}

module _ {W Parsed Candidate : Type 0} (out : Outside W Parsed Candidate)
    (context : CollectContext) where
  -- What the removal of one note rests on.
  pub record Justified (exit : ExitObservation) (l : Loop W Parsed) (q : SourceKey) : Type 0 where
    pub authority : MayDelete l.run.session exit q.scope
    pub finished : ending_outcome exit l ≡ complete
    pub fulfilled : fell_short l ≡ false
    pub field : q.field_id ≡ context.field_id
    pub not_reported : contains_pair l.reported (q.scope, q.identity) ≡ false

  authorized_of :
      (d : DeletionAuthorization) (scope : Text)
      → (from_authorization d).authorized_scope ≡ some scope
      → d ≡ authorized scope
  unfolding from_authorization
  authorized_of (authorized t) scope h = cc
  authorized_of (refused rs) scope h = cc

  -- An authorized scope in the report is one that the session authorizes, and no write fell short.
  ending-MayDelete :
      (exit : ExitObservation) (l : Loop W Parsed) (scope : Text)
      → (ending_deletion exit l).authorized_scope ≡ some scope
      → MayDelete l.run.session exit scope × (fell_short l ≡ false)
  unfolding lowered_deletion
  ending-MayDelete exit l scope h = go (fell_short l) refl (is_some d.authorized_scope) refl h
    where
      d : DeletionReport
      d = from_authorization (finish l.run.session exit).deletion

      allowed :
          fell_short l ≡ false
          → d.authorized_scope ≡ some scope
          → MayDelete l.run.session exit scope × (fell_short l ≡ false)
      allowed e h' = (
        (authorized_iff l.run.session exit scope).0
            (authorized_of (finish l.run.session exit).deletion scope h'),
        e,
      )

      go :
          (b : Bool)
          → fell_short l ≡ b
          → (c : Bool) → is_some d.authorized_scope ≡ c
          → (if c && b
              then record { authorized_scope = none; refusals = incomplete_durable_write ∷ [] }
              else d).authorized_scope
            ≡ some scope
          → MayDelete l.run.session exit scope × (fell_short l ≡ false)
      go true e true e' h' = cc
      go true e false e' h' = cc
      go false e true e' h' = allowed e h'
      go false e false e' h' = allowed e h'

  after_removal-index :
      (x : Option ℕ × Run W Parsed) (l : Loop W Parsed)
      → (after_removal out context x l).run.index ≡ x.1.index
  after_removal-index (none, r) l = refl
  after_removal-index (some n, r) l = refl

  removal :
      (scope : Text) (l : Loop W Parsed)
      → Removes out context
          (absent out context scope l.reported l.run.index.notes)
          l.run.index
          (remove_absent_notes out context scope l.reported l.run)
  unfolding remove_absent_notes keys_in_scope
  removal scope l =
      remove_keys-Removes out context (absent out context scope l.reported l.run.index.notes) 0
        l.run

  removed_same :
      (scope : Text) (l : Loop W Parsed) (q : SourceKey)
      → among context.field_id (absent out context scope l.reported l.run.index.notes) q ≡ false
      → find_key (reconcile out context (some scope) complete l).run.index.notes q
        ≡ find_key l.run.index.notes q
  unfolding reconcile
  removed_same scope l q h =
      ap (λ i. find_key i.notes q)
        (after_removal-index (remove_absent_notes out context scope l.reported l.run) l)
      ∙ (removal scope l).others q h

  removed_shrinks :
      (scope : Text) (l : Loop W Parsed) (q : SourceKey)
      → (find_key (reconcile out context (some scope) complete l).run.index.notes q
          ≡ find_key l.run.index.notes q)
        ⊎ (find_key (reconcile out context (some scope) complete l).run.index.notes q ≡ none)
  unfolding reconcile
  removed_shrinks scope l q =
      subst (λ i. (find_key i.notes q ≡ find_key l.run.index.notes q) ⊎ (find_key i.notes q ≡ none))
        (sym (after_removal-index (remove_absent_notes out context scope l.reported l.run) l))
        ((removal scope l).shrinks q)

  -- The end of a run changes the index at no key but at those of notes that it removes; each of these
  -- is in this Field and in a scope in which the session may take absence for deletion, the run did not
  -- report it, the run's outcome is complete, and no write or checkpoint fell short.
  pub only_absent_removed :
      (exit : ExitObservation) (l : Loop W Parsed) (q : SourceKey)
      → (find_key (reconciled out context exit l).run.index.notes q ≡ find_key l.run.index.notes q)
        ⊎ (find_key (reconciled out context exit l).run.index.notes q ≡ none) × Justified exit l q
  unfolding reconciled
  only_absent_removed exit l q =
      go (ending_deletion exit l).authorized_scope refl (ending_outcome exit l) refl
    where
      Answer : Loop W Parsed → Type 0
      Answer m =
          (find_key m.run.index.notes q ≡ find_key l.run.index.notes q)
          ⊎ (find_key m.run.index.notes q ≡ none) × Justified exit l q

      justified :
          (scope : Text)
          → (ending_deletion exit l).authorized_scope ≡ some scope
          → ending_outcome exit l ≡ complete
          → Unreported out context scope l.reported q
          → Justified exit l q
      justified scope h e u =
          let (may, fulfilled) = ending-MayDelete exit l scope h in
          record {
            authority = subst (MayDelete l.run.session exit) (sym u.in_the_scope) may;
            finished = e;
            fulfilled = fulfilled;
            field = u.field;
            not_reported = u.not_reported;
          }

      removed :
          (scope : Text)
          → (ending_deletion exit l).authorized_scope ≡ some scope
          → ending_outcome exit l ≡ complete
          → (among context.field_id (absent out context scope l.reported l.run.index.notes) q
              ≡ true)
            ⊎ (among context.field_id (absent out context scope l.reported l.run.index.notes) q
                ≡ false)
          → Answer (reconcile out context (some scope) complete l)
      removed scope h e (inr other) = inl (removed_same scope l q other)
      removed scope h e (inl listed) = elim (removed_shrinks scope l q) [
        | inl same ↦ inl same
        | inr gone ↦ inr (
          gone,
          justified scope h e
              (absent-Unreported out context scope l.reported l.run.index.notes q listed),
        )
      ]

      go :
          (o : Option Text)
          → (ending_deletion exit l).authorized_scope ≡ o
          → (f : FieldRunOutcome) → ending_outcome exit l ≡ f
          → Answer (reconcile out context o f l)
      go none h f e = inl refl
      go (some scope) h partial e = inl refl
      go (some scope) h FieldRunOutcome.failed e = inl refl
      go (some scope) h FieldRunOutcome.skipped e = inl refl
      go (some scope) h complete e = removed scope h e (
          Bool-cases
            (among context.field_id (absent out context scope l.reported l.run.index.notes) q))

  removed_all :
      (scope : Text) (l : Loop W Parsed) (q : SourceKey) (x : Option ℕ × Run W Parsed)
      → Removes out context (absent out context scope l.reported l.run.index.notes) l.run.index x
      → (after_removal out context x l).failure ≡ none
      → Unreported out context scope l.reported q
      → find_key (after_removal out context x l).run.index.notes q ≡ none
  removed_all scope l q (none, r) v h u = cc
  removed_all scope l q (some n, r) v h u =
      elim (Bool-cases
        (among context.field_id (absent out context scope l.reported l.run.index.notes) q)) [
          | inl listed ↦ v.gone q n refl listed
          | inr other ↦
              v.others q other
              ∙ Unreported-absent out context scope l.reported l.run.index.notes q u other
        ]

  all_removed :
      (scope : Text) (l : Loop W Parsed) (q : SourceKey)
      → Unreported out context scope l.reported q
      → (reconcile out context (some scope) complete l).failure ≡ none
      → find_key (reconcile out context (some scope) complete l).run.index.notes q ≡ none
  unfolding reconcile
  all_removed scope l q u k =
      removed_all scope l q (remove_absent_notes out context scope l.reported l.run)
        (removal scope l) k u

  -- Where a complete run is authorized to remove in a scope and no removal fails, the index holds after
  -- it no note of the Field in that scope that the run did not report.
  pub snapshot_converges :
      (exit : ExitObservation) (l : Loop W Parsed) (scope : Text) (q : SourceKey)
      → (ending_deletion exit l).authorized_scope ≡ some scope
      → ending_outcome exit l ≡ complete
      → (reconciled out context exit l).failure ≡ none
      → Unreported out context scope l.reported q
      → find_key (reconciled out context exit l).run.index.notes q ≡ none
  unfolding reconciled
  snapshot_converges exit l scope q h e none' u =
      go (ending_deletion exit l).authorized_scope h (ending_outcome exit l) e none'
    where
      go :
          (o : Option Text)
          → o ≡ some scope
          → (f : FieldRunOutcome) → f ≡ complete
          → (reconcile out context o f l).failure ≡ none
          → find_key (reconcile out context o f l).run.index.notes q ≡ none
      go o h f e =
          subst
            (λ o'.
              (f : FieldRunOutcome)
              → f ≡ complete
              → (reconcile out context o' f l).failure ≡ none
              → find_key (reconcile out context o' f l).run.index.notes q ≡ none)
            (sym h)
            (λ f' e'.
              subst
                (λ g.
                  (reconcile out context (some scope) g l).failure ≡ none
                  → find_key (reconcile out context (some scope) g l).run.index.notes q ≡ none)
                (sym e') (all_removed scope l q u))
            f e
