-- ===== src/Protocol/Session/Offers.antt =====
-- What a checkpoint and a diagnostic do to a session, for session.rs's accept_checkpoint and
-- accept_diagnostic.
use fieldnotes.Prelude.{of_not}
use fieldnotes.Prelude.{
  ℕ, ◌+◌, ◌≤◌, ◌<◌, ◌≡◌, inl, inr, ap, Text, text_eq, text_eq_sound, true, Option, none, some,
  arith, Bool-cases, length, ltb, leb,
}
use fieldnotes.Protocol.Codes.{RejectionCode, Result, ok, err}
use fieldnotes.Protocol.Message.{CheckpointEvent, DiagnosticEvent, SnapshotClaim, Severity}
use fieldnotes.Protocol.Session.State.{Session, CheckpointOffer, continue}
use fieldnotes.Protocol.Session.Records.{
  check_diagnostic_bound, install_diagnostic, accept_diagnostic,
}
use fieldnotes.Protocol.Session.Checkpoints.{
  records_between, check_coverage, check_cursor, check_scope, admit_claim, install_offer,
  accept_checkpoint, is_snapshot,
}
use fieldnotes.Protocol.Session.Admissible.{Checked, rejects, Checked-fail_if}
use fieldnotes.Protocol.Session.Outcomes.{halt, at_seq, after_check, after_start, Starts}

-- The session with a claim written down.
abbrev pub with_claim : Option SnapshotClaim → Session → Session
with_claim none s = s
with_claim (some claim) s = record s { final_claim = some (claim.scope, claim.state) }

-- A claim belongs to a snapshot run, and names exactly the scope that core requested.
abbrev pub ClaimAllowed : Session → Option SnapshotClaim → Type 0
ClaimAllowed s none = Unit {0}
ClaimAllowed s (some claim) = (is_snapshot s.mode ≡ true) × (s.snapshot_scope ≡ some claim.scope)

pub record Covers (s : Session) (e : CheckpointEvent) : Type 0 where
  pub below : e.covers_record_seq_through < e.seq
  pub forward : s.last_checkpoint_coverage ≤ e.covers_record_seq_through
  pub counted :
      records_between s.last_checkpoint_coverage e.covers_record_seq_through s ≡ e.records_covered

pub record CursorFits (s : Session) (e : CheckpointEvent) : Type 0 where
  pub bytes : length e.cursor ≤ s.limits.max_cursor_bytes
  pub format : e.cursor_format_version ≡ s.manifest.cursor_format_version

pub data Checkpointed (s : Session) (e : CheckpointEvent)
    : Result CheckpointOffer × Session → Type 0 where
  offered :
      Starts s e.run_id e.seq
      → Covers (at_seq e.seq s) e
      → CursorFits (at_seq e.seq s) e
      → ClaimAllowed s e.snapshot
      → Checkpointed s e (install_offer e (with_claim e.snapshot (at_seq e.seq s)))
  rejected_before : (c : RejectionCode) → Checkpointed s e (err c, halt s)
  rejected_at :
      (c : RejectionCode)
      → Starts s e.run_id e.seq
      → Checkpointed s e (err c, halt (at_seq e.seq s))

check_coverage-Checked :
    (e : CheckpointEvent) (s : Session) → Checked (Covers s e) s (check_coverage e s)
unfolding check_coverage
check_coverage-Checked e s = elim (Bool-cases (leb e.seq e.covers_record_seq_through)) [
  | inl above ↦ rw above (rejects _)
  | inr below ↦
      rw below (elim (Bool-cases (ltb e.covers_record_seq_through s.last_checkpoint_coverage)) [
        | inl back ↦ rw back (rejects _)
        | inr forward ↦ rw forward (
            Checked-fail_if _ _ s
              λ h. record { below = ground arith; forward = ground arith; counted = ground arith })
      ])
]

check_cursor-Checked :
    (e : CheckpointEvent) (s : Session) → Checked (CursorFits s e) s (check_cursor e s)
unfolding check_cursor
check_cursor-Checked e s = elim (Bool-cases (ltb s.limits.max_cursor_bytes (length e.cursor))) [
  | inl long ↦ rw long (rejects _)
  | inr short ↦
      rw short (Checked-fail_if _ _ s λ h. record { bytes = ground arith; format = ground arith })
]

check_scope-Checked :
    (o : Option Text) (t : Text) (s : Session) → Checked (o ≡ some t) s (check_scope o t s)
unfolding check_scope
check_scope-Checked none t s = rejects _
check_scope-Checked (some r) t s =
    Checked-fail_if _ _ s λ h. ap some (text_eq_sound r t (of_not (text_eq r t) h))

data Claimed (s : Session) (o : Option SnapshotClaim) : Result (Unit {0}) × Session → Type 0 where
  claimed : ClaimAllowed s o → Claimed s o (ok tt, with_claim o s)
  refused : (c : RejectionCode) → Claimed s o (err c, halt s)

admit_claim-Claimed : (o : Option SnapshotClaim) (s : Session) → Claimed s o (admit_claim o s)
unfolding admit_claim
admit_claim-Claimed none s = claimed tt
admit_claim-Claimed (some claim) s = elim (Bool-cases (is_snapshot s.mode)) [
  | inr mode ↦ rw mode (refused _)
  | inl mode ↦ rw mode (
      after_check (Claimed s (some claim)) (check_scope s.snapshot_scope claim.scope) _ s
        (check_scope-Checked s.snapshot_scope claim.scope s) refused λ scope. claimed (mode, scope))
]

pub accept_checkpoint-Checkpointed :
    (e : CheckpointEvent) (s : Session) → Checkpointed s e (accept_checkpoint e s)
unfolding accept_checkpoint
accept_checkpoint-Checkpointed e s =
    after_start (Checkpointed s e) e.run_id e.seq _ s rejected_before λ start.
      after_check (Checkpointed s e) (check_coverage e) _ (at_seq e.seq s)
        (check_coverage-Checked e _) (λ c. rejected_at c start)
        λ covers.
          after_check (Checkpointed s e) (check_cursor e) _ (at_seq e.seq s)
            (check_cursor-Checked e _) (λ c. rejected_at c start)
            λ cursor.
              go start covers cursor (admit_claim e.snapshot (at_seq e.seq s))
                (admit_claim-Claimed e.snapshot _)
  where
    go :
        Starts s e.run_id e.seq
        → Covers (at_seq e.seq s) e
        → CursorFits (at_seq e.seq s) e
        → (x : Result (Unit {0}) × Session) → Claimed (at_seq e.seq s) e.snapshot x
        → Checkpointed s e (continue x.0 (λ _. install_offer e) x.1)
    go start covers cursor x (claimed allowed) = offered start covers cursor allowed
    go start covers cursor x (refused c) = rejected_at c start

pub data Diagnosed (s : Session) (e : DiagnosticEvent)
    : Result (ℕ × Severity) × Session → Type 0 where
  diagnosed :
      Starts s e.run_id e.seq
      → s.diagnostic_count + 1 ≤ s.limits.max_run_diagnostics
      → Diagnosed s e (install_diagnostic e (at_seq e.seq s))
  rejected_before : (c : RejectionCode) → Diagnosed s e (err c, halt s)
  rejected_at :
      (c : RejectionCode) → Starts s e.run_id e.seq → Diagnosed s e (err c, halt (at_seq e.seq s))

check_diagnostic_bound-Checked :
    (s : Session)
    → Checked (s.diagnostic_count + 1 ≤ s.limits.max_run_diagnostics) s (check_diagnostic_bound s)
unfolding check_diagnostic_bound
check_diagnostic_bound-Checked s = Checked-fail_if _ _ s λ h. ground arith

pub accept_diagnostic-Diagnosed :
    (e : DiagnosticEvent) (s : Session) → Diagnosed s e (accept_diagnostic e s)
unfolding accept_diagnostic
accept_diagnostic-Diagnosed e s =
    after_start (Diagnosed s e) e.run_id e.seq _ s rejected_before λ start.
      after_check (Diagnosed s e) check_diagnostic_bound _ (at_seq e.seq s)
        (check_diagnostic_bound-Checked _) (λ c. rejected_at c start) λ fits. diagnosed start fits
