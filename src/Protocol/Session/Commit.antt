-- ===== src/Protocol/Session/Commit.antt =====
-- session.rs: the durability handshake, record_durable, commit, withhold and note_rejection.
use fieldnotes.Prelude.{
  ℕ, ◌-◌, text_eq, Bool, true, false, not, ◌&&◌, Option, none, some, List, [], ◌∷◌, ltb, ◌==◌,
  if◌then◌else◌,
}
use fieldnotes.Protocol.Session.State.{
  Session, CheckpointOffer, CommittedCursor, insert, contains, range,
}

pub data CommitRefusal : Type 0 where
  records_not_durable : ℕ → ℕ → CommitRefusal
  run_has_rejected_record unknown_offer : CommitRefusal
  not_monotonic : ℕ → ℕ → CommitRefusal

pub data CommitResult {ℓ} (A : Type ℓ) : Type ℓ where
  granted : A → CommitResult A
  refused : CommitRefusal → CommitResult A

abbrev pub bool_eq : Bool → Bool → Bool
bool_eq true b = b
bool_eq false b = not b

-- The derived equality of offers.
unfoldable pub offer_eq : CheckpointOffer → CheckpointOffer → Bool
offer_eq a b =
    (a.seq == b.seq)
    && text_eq a.cursor b.cursor
    && (a.cursor_format_version == b.cursor_format_version)
    && (a.covers_record_seq_through == b.covers_record_seq_through)
    && bool_eq a.is_final b.is_final

-- self.pending_offer.as_ref() == Some(offer)
unfoldable pub is_pending : Option CheckpointOffer → CheckpointOffer → Bool
is_pending none offer = false
is_pending (some pending) offer = offer_eq pending offer

-- Iterator::find over the records in range.
unfoldable pub find_undurable : List ℕ → List ℕ → Option ℕ
find_undurable durable [] = none
find_undurable durable (q ∷ qs) = if contains durable q then find_undurable durable qs else some q

unfoldable pub first_undurable_through : Session → ℕ → Option ℕ
first_undurable_through s covers = find_undurable s.durable_seqs (range 0 covers s.records_by_seq)

unfoldable pub record_durable : ℕ → Session → Session
record_durable seq s = record s { durable_seqs = insert seq s.durable_seqs }

abbrev pub cursor_of : CheckpointOffer → CommittedCursor
cursor_of offer = record {
  cursor = offer.cursor;
  cursor_format_version = offer.cursor_format_version;
  covers_record_seq_through = offer.covers_record_seq_through;
}

abbrev pub is_seq : Option ℕ → ℕ → Bool
is_seq none q = false
is_seq (some p) q = p == q

-- The end of `commit`: what is written when nothing refuses.
unfoldable pub advance_cursor : CheckpointOffer → Session → Session
advance_cursor offer s = record s {
  last_committed_coverage = offer.covers_record_seq_through;
  committed = some (cursor_of offer);
  final_claim_committed =
      if is_seq s.final_checkpoint_seq offer.seq then true else s.final_claim_committed;
  pending_offer = none;
}

unfoldable pub commit_durable : CheckpointOffer → Session → CommitResult CommittedCursor × Session
commit_durable offer s =
    if ltb offer.covers_record_seq_through s.last_committed_coverage
    then (refused (not_monotonic s.last_committed_coverage offer.covers_record_seq_through), s)
    else (granted (cursor_of offer), advance_cursor offer s)

unfoldable pub commit : CheckpointOffer → Session → CommitResult CommittedCursor × Session
commit offer s =
    if not (is_pending s.pending_offer offer)
    then (refused unknown_offer, s)
    else if s.rejected
    then (refused run_has_rejected_record, record s { pending_offer = none })
    else elim (first_undurable_through s offer.covers_record_seq_through) [
      | some undurable ↦
          (refused (records_not_durable offer.covers_record_seq_through (undurable - 1)), s)
      | none ↦ commit_durable offer s
    ]

unfoldable pub withhold : CheckpointOffer → Session → CommitResult (Unit {0}) × Session
withhold offer s =
    if not (is_pending s.pending_offer offer)
    then (refused unknown_offer, s)
    else (granted tt, record s { pending_offer = none })

unfoldable pub note_rejection : Session → Session
note_rejection s = record s { rejected = true }
