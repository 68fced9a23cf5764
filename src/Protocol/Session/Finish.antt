-- ===== src/Protocol/Session/Finish.antt =====
-- session.rs, finish: how the run ended, and whether absence may be taken for deletion.
use fieldnotes.Prelude.{
  ℕ, Text, text_eq, option_text_eq, Bool, true, false, not, ◌&&◌, ◌||◌, Option, none, some, List,
  [], ◌∷◌, ltb, leb, ◌==◌, if◌then◌else◌,
}
use fieldnotes.Protocol.Codes.{RunOutcome, ExitCode, from_raw}
use fieldnotes.Protocol.Message.{SnapshotAuthority, SnapshotState}
use fieldnotes.Protocol.Session.State.{Session, CommittedCursor, is_some}
use fieldnotes.Protocol.Session.Checkpoints.{is_snapshot}

pub data ExitObservation : Type 0 where
  exited signalled windows_abnormal_termination : ℕ → ExitObservation
  terminated_by_core timeout idle_timeout : ExitObservation

-- ExitObservation::is_normal
unfoldable pub is_normal : ExitObservation → Bool
is_normal (exited code) = code == 0
is_normal _ = false

-- ExitObservation::exit_code
unfoldable pub exit_code : ExitObservation → Option ExitCode
exit_code (exited code) = some (from_raw code)
exit_code _ = none

abbrev pub is_exited : ExitObservation → Bool
is_exited (exited code) = true
is_exited _ = false

pub data DeletionRefusal : Type 0 where
  authority_not_declared not_snapshot_mode no_completeness_claim claim_is_partial : DeletionRefusal
  claim_scope_mismatch error_diagnostic non_zero_exit protocol_violation : DeletionRefusal
  windowed_run claim_not_final claim_not_committed : DeletionRefusal

-- The derived order of the refusals.
abbrev pub rank : DeletionRefusal → ℕ
rank authority_not_declared = 0
rank not_snapshot_mode = 1
rank no_completeness_claim = 2
rank claim_is_partial = 3
rank claim_scope_mismatch = 4
rank error_diagnostic = 5
rank non_zero_exit = 6
rank protocol_violation = 7
rank windowed_run = 8
rank claim_not_final = 9
rank claim_not_committed = 10

pub data DeletionAuthorization : Type 0 where
  authorized : Text → DeletionAuthorization
  refused : List DeletionRefusal → DeletionAuthorization

pub record RunReport : Type 0 where
  pub outcome : RunOutcome
  pub committed_cursor : Option CommittedCursor
  pub deletion : DeletionAuthorization
  pub records_accepted : ℕ
  pub diagnostics_accepted : ℕ

abbrev pub is_complete : SnapshotState → Bool
is_complete SnapshotState.complete = true
is_complete SnapshotState.partial = false

abbrev pub is_authoritative : SnapshotAuthority → Bool
is_authoritative SnapshotAuthority.authoritative = true
is_authoritative _ = false

-- A complete claim for the requested scope.
unfoldable pub claim_covers : Option (Text × SnapshotState) → Option Text → Bool
claim_covers none requested = false
claim_covers (some (scope, state)) none = false
claim_covers (some (scope, state)) (some requested) = is_complete state && text_eq scope requested

unfoldable pub snapshot_ok : Session → Bool
unfolding claim_covers
snapshot_ok s = if is_snapshot s.mode then claim_covers s.final_claim s.snapshot_scope else true

unfoldable pub outcome_of : Session → ExitObservation → RunOutcome
unfolding is_normal snapshot_ok
outcome_of s exit =
    if s.rejected || not (is_exited exit)
    then RunOutcome.failed
    else if is_normal exit && not s.error_diagnostic && snapshot_ok s
    then RunOutcome.complete
    else if is_some s.committed || ltb 0 s.record_count
    then RunOutcome.partial
    else RunOutcome.failed

-- `if test { reasons.push(reason) }`
abbrev pub push_if : Bool → DeletionRefusal → List DeletionRefusal → List DeletionRefusal
push_if true reason reasons = reason ∷ reasons
push_if false reason reasons = reasons

-- The reasons that a claim gives, in front of those that follow.
unfoldable pub claim_reasons :
    Session → Option (Text × SnapshotState) → List DeletionRefusal → List DeletionRefusal
claim_reasons s none rest = no_completeness_claim ∷ rest
claim_reasons s (some (scope, state)) rest = push_if (not (is_complete state)) claim_is_partial (
    push_if (not (option_text_eq s.snapshot_scope (some scope))) claim_scope_mismatch (
      push_if (not (is_some s.final_checkpoint_seq)) claim_not_final
        (push_if (not s.final_claim_committed) claim_not_committed rest)))

-- The reasons in the order in which they are pushed.
unfoldable pub pushed_reasons : Session → ExitObservation → List DeletionRefusal
unfolding claim_reasons is_normal
pushed_reasons s exit =
    push_if (not (is_authoritative s.manifest.snapshot)) authority_not_declared (
      push_if (not (is_snapshot s.mode) || not (is_some s.snapshot_scope)) not_snapshot_mode (
        claim_reasons s s.final_claim (
          push_if s.error_diagnostic error_diagnostic (
            push_if (not (is_normal exit)) non_zero_exit
              (push_if s.rejected protocol_violation (push_if s.windowed windowed_run []))))))

-- sort_unstable
unfoldable pub insert_sorted : DeletionRefusal → List DeletionRefusal → List DeletionRefusal
insert_sorted r [] = r ∷ []
insert_sorted r (x ∷ xs) = if leb (rank r) (rank x) then r ∷ x ∷ xs else x ∷ insert_sorted r xs

unfoldable pub sort : List DeletionRefusal → List DeletionRefusal
unfolding insert_sorted
sort [] = []
sort (r ∷ rs) = insert_sorted r (sort rs)

-- dedup: of equal neighbours the first is kept.
unfoldable pub dedup_after : DeletionRefusal → List DeletionRefusal → List DeletionRefusal
dedup_after r [] = []
dedup_after r (x ∷ xs) = let rest = dedup_after x xs in if rank r == rank x then rest else x ∷ rest

unfoldable pub dedup : List DeletionRefusal → List DeletionRefusal
unfolding dedup_after
dedup [] = []
dedup (r ∷ rs) = r ∷ dedup_after r rs

unfoldable pub authorization : List DeletionRefusal → Option Text → DeletionAuthorization
authorization [] (some scope) = authorized scope
authorization [] none = refused (not_snapshot_mode ∷ [])
authorization (r ∷ rs) scope = refused (r ∷ rs)

unfoldable pub deletion_of : Session → ExitObservation → DeletionAuthorization
deletion_of s exit = authorization (dedup (sort (pushed_reasons s exit))) s.snapshot_scope

unfoldable pub finish : Session → ExitObservation → RunReport
finish s exit = record {
  outcome = outcome_of s exit;
  committed_cursor = s.committed;
  deletion = deletion_of s exit;
  records_accepted = s.record_count;
  diagnostics_accepted = s.diagnostic_count;
}
