-- ===== src/App/Sync/Applying.antt =====
-- sync/mod.rs: what applying one record does to the run's session and to its index, by the steps of apply_record.
use fieldnotes.Prelude.{
  ◌+◌, ℕ, ◌≡◌, refl, sym, ap, subst, ◌∙◌, Text, Bool, true, false, not, Option, none, some, List,
  [], ◌∷◌, if◌then◌else◌, contains_text,
}
use fieldnotes.Protocol.Codes.{Result, ok, err}
use fieldnotes.Protocol.Message.{RecordEvent}
use fieldnotes.Protocol.Artifact.{ArtifactOutcome}
use fieldnotes.Protocol.Session.State.{Session, is_some}
use fieldnotes.Protocol.Session.Records.{RecordDisposition, upsert, no_change, delete}
use fieldnotes.Protocol.Session.Commit.{record_durable}
use fieldnotes.Protocol.Session.Steps.{Call, resolves, run, step}
use fieldnotes.Protocol.Session.Artifacts.{resolve_artifacts}
use fieldnotes.Protocol.Session.Charges.{
  charged, Charged, charges, halts, resolve_artifacts-Charged,
}
use fieldnotes.Store.Index.{IndexedNote, SourceIndex, SourceKey, find_key, get, insert_note, remove}
use fieldnotes.Store.Index.Laws.{put_key-here, put_key-elsewhere, drop_key-here, drop_key-elsewhere}
use fieldnotes.App.Sync.State.{
  Outside, CollectContext, Run, ArtifactProjection, ApplyResult, done, durability, ◌>>◌, continue,
  or_rejected, or_durability, on_session, on_counts, succeeds, NoteWrite,
}
use fieldnotes.App.Sync.Apply.{install_artifacts, resolve, count_accepted}
use fieldnotes.App.Sync.Records.{
  mark_durable, mark_unchanged, remove_existing, existing_note, apply_delete, install_note,
  after_write, write_changed, apply_candidate, apply_fresh, apply_built, apply_projection,
  apply_outcomes, apply_upsert, apply_disposition, apply_record, kept_id, already_held,
  write_candidate,
}
use fieldnotes.App.Sync.Effects.{
  Still, or_rejected-Keeps, or_durability-Keeps, install_artifacts-Keeps,
}
use fieldnotes.App.Sync.Applied.{
  index_key, Presence, Charge, no_charge, Effect, Still-Undone, bind-Effect, mark_durable-Effect,
}

module _ {W Parsed Candidate : Type 0} (out : Outside W Parsed Candidate)
    (context : CollectContext) where
  remove-Effect :
      (e : RecordEvent) (seq : ℕ) (s : Session) (i : SourceIndex Parsed) (t : Run W Parsed)
      → t.session ≡ s
      → t.index ≡ remove context.field_id e.source.scope e.source.identity i
      → Effect context.serde s i
          (index_key context e)
          seq
          delete
          (on_session (record_durable seq) t)
  unfolding remove no_charge
  remove-Effect e seq s i t same gone =
      mark_durable-Effect context.serde s (no_charge context.serde s) i k seq delete t same
        (subst (λ x. find_key x.notes k ≡ none) (sym gone) (drop_key-here k i.notes))
        (λ q other.
          subst (λ x. find_key x.notes q ≡ find_key i.notes q) (sym gone)
            (drop_key-elsewhere k q i.notes other))
    where
      k : SourceKey
      k = index_key context e

  -- What follows the removal of the file.
  abbrev forget : RecordEvent → Run W Parsed → ApplyResult (Unit {0}) × Run W Parsed
  forget e = do
    λ r. (
      done tt,
      record r { index = remove context.field_id e.source.scope e.source.identity r.index },
    )
    on_counts (λ c. record c { removed_by_tombstone = c.removed_by_tombstone + 1 })

  apply_delete-Effect :
      (e : RecordEvent) (seq : ℕ) (s : Session) (i : SourceIndex Parsed) (r : Run W Parsed)
      → Still s i r
      → Effect context.serde s i (index_key context e) seq delete (apply_delete out context e seq r)
  unfolding apply_delete remove_existing mark_durable get no_charge
  apply_delete-Effect e seq s i r v =
      go (existing_note out context e r) (ap (λ x. find_key x.notes k) (sym v.index))
    where
      k : SourceKey
      k = index_key context e

      removed :
          (f : Text) (x : Option Bool × W)
          → Effect context.serde s i k seq delete (
              continue
                (continue (or_durability x r).0 (λ _. forget e) (or_durability x r).1).0
                (λ _. on_session (record_durable seq))
                (continue (or_durability x r).0 (λ _. forget e) (or_durability x r).1).1)
      removed f (none, w) =
          Still-Undone context.serde s i (no_charge context.serde s) _
            (record { session = v.session; index = v.index })
      removed f (some b, w) =
          remove-Effect e seq s i _ v.session
            (ap (remove context.field_id e.source.scope e.source.identity) v.index)

      go :
          (o : Option (IndexedNote Parsed))
          → find_key i.notes k ≡ o
          → Effect context.serde s i k seq delete (
              continue
                (remove_existing out context e o r).0
                (λ _. on_session (record_durable seq))
                (remove_existing out context e o r).1)
      go none h =
          mark_durable-Effect context.serde s (no_charge context.serde s) i k seq delete r v.session
            (ap (λ x. find_key x.notes k) v.index ∙ h)
            (λ q other. ap (λ x. find_key x.notes q) v.index)
      go (some found) h = removed found.filename (out.remove_note found.filename r.world)

  -- Nothing changed at all but that the record is durable.
  same-Effect :
      (s : Session) (n : Charge context.serde s) (i : SourceIndex Parsed) (k : SourceKey) (seq : ℕ)
      (d : RecordDisposition) (r : Run W Parsed)
      → Still (charged n.amount s) i r
      → Presence d k i.notes i.notes
      → Effect context.serde s i k seq d (mark_unchanged out context seq r)
  unfolding mark_unchanged mark_durable
  same-Effect s n i k seq d r v there =
      mark_durable-Effect context.serde s n i k seq d _ v.session
        (subst (λ x. Presence d k i.notes x.notes) (sym v.index) there)
        (λ q other. ap (λ x. find_key x.notes q) v.index)

  after_write-Effect :
      (e : RecordEvent) (seq : ℕ) (o : Option (IndexedNote Parsed)) (id : Text) (c : Candidate)
      (write : NoteWrite) (s : Session) (n : Charge context.serde s) (i : SourceIndex Parsed)
      (t : Run W Parsed)
      → Still (charged n.amount s) i t
      → Effect context.serde s i
          (index_key context e)
          seq
          upsert
          (after_write out context e seq o id c write t)
  unfolding after_write mark_durable insert_note
  after_write-Effect e seq o id c write s n i t w = record {
    staged = n;
    session = ap (record_durable seq) w.session;
    present = ap is_some (put_key-here (index_key context e) note t.index.notes);
    others = λ q other.
        put_key-elsewhere (index_key context e) q note t.index.notes other
        ∙ ap (λ x. find_key x.notes q) w.index;
  }
    where
      note : IndexedNote Parsed
      note = record {
        path = write.path;
        filename = write.filename;
        note_id = id;
        content = out.content_of c;
      }

  install_note-Effect :
      (e : RecordEvent) (seq : ℕ) (o : Option (IndexedNote Parsed)) (id : Text) (c : Candidate)
      (s : Session) (n : Charge context.serde s) (i : SourceIndex Parsed) (r : Run W Parsed)
      → Still (charged n.amount s) i r
      → Effect context.serde s i
          (index_key context e)
          seq
          upsert
          (install_note out context e seq o id c r)
  unfolding install_note
  install_note-Effect e seq o id c s n i r v =
      bind-Effect context.serde s n i (index_key context e) seq upsert
        (λ t. or_durability (write_candidate out context o c t.world) t)
        (after_write out context e seq o id c) r v
        (or_durability-Keeps (write_candidate out context o c))
        λ write t w. after_write-Effect e seq o id c write s n i t w

  write_changed-Effect :
      (e : RecordEvent) (seq : ℕ) (o : Option (IndexedNote Parsed)) (id : Text) (c : Candidate)
      (s : Session) (n : Charge context.serde s) (i : SourceIndex Parsed) (r : Run W Parsed)
      → Still (charged n.amount s) i r
      → Effect context.serde s i
          (index_key context e)
          seq
          upsert
          (write_changed out context e seq o id c r)
  unfolding write_changed
  write_changed-Effect e seq o id c s n i r v = go (not (succeeds context.durability seq))
    where
      go :
          (b : Bool)
          → Effect context.serde s i
              (index_key context e)
              seq
              upsert
              ((if b then (λ t. (durability, t)) else install_note out context e seq o id c) r)
      go true = Still-Undone context.serde s i n r v
      go false = install_note-Effect e seq o id c s n i r v

  module _ (e : RecordEvent) (seq : ℕ) (s : Session) (n : Charge context.serde s)
      (i : SourceIndex Parsed) where
    abbrev k : SourceKey
    k = index_key context e

    apply_candidate-Effect :
        (o : Option (IndexedNote Parsed)) (id : Text) (c : Candidate) (r : Run W Parsed)
        → find_key i.notes k ≡ o
        → Still (charged n.amount s) i r
        → Effect context.serde s i k seq upsert (apply_candidate out context e seq o id c r)
    unfolding apply_candidate
    apply_candidate-Effect o id c r h v = go o h (already_held out context o c) refl
      where
        go :
            (o : Option (IndexedNote Parsed))
            → find_key i.notes k ≡ o
            → (x : Result Bool) → already_held out context o c ≡ x
            → Effect context.serde s i k seq upsert (
                continue
                  (or_rejected x r).0
                  (λ same.
                    if same
                    then mark_unchanged out context seq
                    else write_changed out context e seq o id c)
                  (or_rejected x r).1)
        go o h (err code) q = Still-Undone context.serde s i n r v
        go o h (ok false) q = write_changed-Effect e seq o id c s n i r v
        go none h (ok true) q = cc
        go (some found) h (ok true) q = same-Effect s n i k seq upsert r v (ap is_some h)

    apply_built-Effect :
        (p : ArtifactProjection) (o : Option (IndexedNote Parsed)) (r : Run W Parsed)
        → find_key i.notes k ≡ o
        → Still (charged n.amount s) i r
        → Effect context.serde s i k seq upsert (apply_built out context e seq p o r)
    unfolding apply_built apply_fresh
    apply_built-Effect p o r h v =
        bind-Effect context.serde s n i k seq upsert (λ t. or_durability (out.new_record t.world) t)
          (apply_fresh out context e seq p o) r v (or_durability-Keeps out.new_record)
          λ fresh t w.
            bind-Effect context.serde s n i k seq upsert
              (or_rejected (out.build_note (kept_id out context o fresh.0) e p fresh.1))
              (apply_candidate out context e seq o (kept_id out context o fresh.0)) t w
              (or_rejected-Keeps (out.build_note (kept_id out context o fresh.0) e p fresh.1))
              λ c t' w'. apply_candidate-Effect o (kept_id out context o fresh.0) c t' h w'

    apply_outcomes-Effect :
        (os : List ArtifactOutcome) (r : Run W Parsed)
        → Still (charged n.amount s) i r
        → Effect context.serde s i k seq upsert (apply_outcomes out context e seq os r)
    unfolding apply_outcomes apply_projection get
    apply_outcomes-Effect os r v =
        bind-Effect context.serde s n i k seq upsert (install_artifacts out context e os)
          (apply_projection out context e seq) r v (install_artifacts-Keeps out context e os)
          λ p t w.
            apply_built-Effect p (existing_note out context e t) _
              (ap (λ x. find_key x.notes k) (sym w.index))
              (record { session = w.session; index = w.index })

  upsert_from :
      (e : RecordEvent) (seq : ℕ) (r : Run W Parsed)
      → Effect context.serde r.session r.index
          (index_key context e)
          seq
          upsert
          (apply_upsert out context e seq r)
  unfolding apply_upsert resolve run step
  upsert_from e seq r =
      go
        (resolve_artifacts context.serde.sha256 context.staging (contains_text r.digests) e
          r.session)
        refl
        (resolve_artifacts-Charged context.serde.sha256 context.staging (contains_text r.digests) e
          r.session)
    where
      call : List Call
      call = resolves context.staging (contains_text r.digests) e ∷ []

      go :
          (x : Result (List ArtifactOutcome) × Session)
          → resolve_artifacts context.serde.sha256 context.staging
              (contains_text r.digests)
              e
              r.session
            ≡ x
          → Charged r.session x
          → Effect context.serde r.session r.index (index_key context e) seq upsert (
              continue
                (or_rejected x.0 (record r { session = x.1 })).0
                (apply_outcomes out context e seq)
                (or_rejected x.0 (record r { session = x.1 })).1)
      go x same (charges os n) =
          apply_outcomes-Effect e seq r.session
            (record { amount = n; calls = call; past = ap (λ y. y.1) same }) r.index os _
            (record { session = refl; index = refl })
      go x same (halts c n) = record {
        staged = n;
        dead = true;
        session = refl;
        calls = call;
        past = ap (λ y. y.1) same;
        index = refl;
      }

  -- Applying an accepted record either marks it durable and nothing else, and then the index has its
  -- key if it was an upsert, lacks it if it was a delete and has it as before if it was neither, with
  -- all other keys as before; or it fails, with nothing marked durable and the index as before.
  pub apply_record-Effect :
      (e : RecordEvent) (seq : ℕ) (d : RecordDisposition) (r : Run W Parsed)
      → Effect context.serde r.session r.index
          (index_key context e)
          seq
          d
          (apply_record out context e seq d r)
  unfolding apply_record apply_disposition no_charge
  apply_record-Effect e seq upsert r =
      upsert_from e seq (record r { counts = count_accepted e r.counts })
  apply_record-Effect e seq delete r =
      apply_delete-Effect e seq r.session r.index _ (record { session = refl; index = refl })
  apply_record-Effect e seq no_change r =
      same-Effect r.session (no_charge context.serde r.session) r.index _ seq no_change _
        (record { session = refl; index = refl }) refl
