-- ===== src/Protocol/Session/Decisions.antt =====
-- What commit does, for session.rs: an offer is committed under known conditions, or refused.
use fieldnotes.Prelude.{
  ℕ, ◌-◌, ◌≤◌, ◌<◌, ◌≡◌, refl, ap, text_eq_sound, text_eq_complete, Bool, true, false, not, Option,
  none, some, arith, ltb, if◌then◌else◌,
}
use fieldnotes.Protocol.Session.State.{Session, CheckpointOffer, CommittedCursor}
use fieldnotes.Protocol.Session.Commit.{
  CommitResult, granted, refused, records_not_durable, run_has_rejected_record, unknown_offer,
  not_monotonic, offer_eq, is_pending, first_undurable_through, advance_cursor, cursor_of, commit,
  commit_durable, bool_eq,
}

offer_eq_sound : (a b : CheckpointOffer) → offer_eq a b ≡ true → a ≡ b
unfolding offer_eq
offer_eq_sound a b h = ground (arith, text_eq_sound a.cursor b.cursor)

pub is_pending_sound :
    (p : Option CheckpointOffer) (o : CheckpointOffer) → is_pending p o ≡ true → p ≡ some o
unfolding is_pending
is_pending_sound none o h = ground arith
is_pending_sound (some p) o h = ap some (offer_eq_sound p o h)

pub is_pending_refl :
    (p : Option CheckpointOffer) (o : CheckpointOffer) → p ≡ some o → is_pending p o ≡ true
unfolding is_pending offer_eq
is_pending_refl none o h = cc
is_pending_refl (some p) o h =
    ground (arith, text_eq_complete p.cursor o.cursor, bool_eq_refl o.is_final)
  where
    bool_eq_refl : (b : Bool) → bool_eq b b ≡ true
    bool_eq_refl b = ground arith

pub data Decided (s : Session) (o : CheckpointOffer)
    : CommitResult CommittedCursor × Session → Type 0 where
  commits :
      s.pending_offer ≡ some o
      → s.rejected ≡ false
      → first_undurable_through s o.covers_record_seq_through ≡ none
      → s.last_committed_coverage ≤ o.covers_record_seq_through
      → Decided s o (granted (cursor_of o), advance_cursor o s)
  unknown : is_pending s.pending_offer o ≡ false → Decided s o (refused unknown_offer, s)
  drops :
      s.pending_offer ≡ some o
      → s.rejected ≡ true
      → Decided s o (refused run_has_rejected_record, record s { pending_offer = none })
  waits :
      (q : ℕ)
      → s.pending_offer ≡ some o
      → first_undurable_through s o.covers_record_seq_through ≡ some q
      → Decided s o (refused (records_not_durable o.covers_record_seq_through (q - 1)), s)
  goes_back :
      s.pending_offer ≡ some o
      → o.covers_record_seq_through < s.last_committed_coverage
      → Decided s o
          (refused (not_monotonic s.last_committed_coverage o.covers_record_seq_through), s)

pub commit-Decided : (o : CheckpointOffer) (s : Session) → Decided s o (commit o s)
unfolding commit commit_durable
commit-Decided o s = pending (is_pending s.pending_offer o) refl
  where
    onward :
        (b : Bool)
        → ltb o.covers_record_seq_through s.last_committed_coverage ≡ b
        → is_pending s.pending_offer o ≡ true
        → s.rejected ≡ false
        → first_undurable_through s o.covers_record_seq_through ≡ none
        → Decided s o (
            if b
            then (refused (not_monotonic s.last_committed_coverage o.covers_record_seq_through), s)
            else (granted (cursor_of o), advance_cursor o s))
    onward true h same live all = goes_back (is_pending_sound _ o same) (ground arith)
    onward false h same live all = commits (is_pending_sound _ o same) live all (ground arith)

    searched :
        (r : Option ℕ)
        → first_undurable_through s o.covers_record_seq_through ≡ r
        → is_pending s.pending_offer o ≡ true
        → s.rejected ≡ false
        → Decided s o (elim r [
          | some q ↦ (refused (records_not_durable o.covers_record_seq_through (q - 1)), s)
          | none ↦ commit_durable o s
        ])
    searched none all same live =
        onward (ltb o.covers_record_seq_through s.last_committed_coverage) refl same live all
    searched (some q) h same live = waits q (is_pending_sound _ o same) h

    alive :
        (b : Bool)
        → s.rejected ≡ b
        → is_pending s.pending_offer o ≡ true
        → Decided s o (
            if b
            then (refused run_has_rejected_record, record s { pending_offer = none })
            else elim (first_undurable_through s o.covers_record_seq_through) [
              | some q ↦ (refused (records_not_durable o.covers_record_seq_through (q - 1)), s)
              | none ↦ commit_durable o s
            ])
    alive true dead same = drops (is_pending_sound _ o same) dead
    alive false live same = searched _ refl same live

    pending :
        (b : Bool)
        → is_pending s.pending_offer o ≡ b
        → Decided s o (
            if not b
            then (refused unknown_offer, s)
            else if s.rejected
            then (refused run_has_rejected_record, record s { pending_offer = none })
            else elim (first_undurable_through s o.covers_record_seq_through) [
              | some q ↦ (refused (records_not_durable o.covers_record_seq_through (q - 1)), s)
              | none ↦ commit_durable o s
            ])
    pending false h = unknown h
    pending true h = alive s.rejected refl h
