-- ===== src/Protocol/Codes.antt =====
-- crates/fieldnotes-field-protocol/src/codes.rs: rejection codes, exit codes and run outcomes; and
-- the result of an operation that can be refused. A refusal carries its code; the text for a reader
-- that the source puts beside it is not modelled.
use fieldnotes.Prelude.{ℕ, ◌≡◌, Bool, true, false, arith, leb, ◌==◌, if◌then◌else◌}

pub data RejectionCode : Type 0 where
  protocol_invalid_utf8 protocol_not_json protocol_oversized_frame protocol_truncated_frame :
      RejectionCode
  protocol_schema_invalid protocol_unknown_event protocol_unexpected_order : RejectionCode
  protocol_duplicate_seq protocol_seq_regression protocol_seq_gap protocol_limit_exceeded :
      RejectionCode
  protocol_timeout protocol_idle_timeout protocol_stderr_flood protocol_version_unsupported :
      RejectionCode
  protocol_coverage_mismatch record_unknown_property record_undeclared_property : RejectionCode
  record_foreign_prefix record_property_type_mismatch record_invalid_note_type : RejectionCode
  record_note_type_not_declared record_invalid_date record_invalid_datetime : RejectionCode
  record_missing_source_key record_duplicate_divergent_in_run artifact_invalid_handle :
      RejectionCode
  artifact_not_regular_file artifact_digest_mismatch artifact_length_mismatch : RejectionCode
  artifact_missing_staged_file artifact_unknown_digest artifact_oversized : RejectionCode
  artifact_type_excluded deletion_unauthorized snapshot_completeness_contradicted : RejectionCode
  snapshot_scope_widened credential_unknown_grant credential_grant_expired : RejectionCode
  credential_channel_closed manifest_property_type_changed manifest_cursor_format_changed :
      RejectionCode
  manifest_undeclared_capability : RejectionCode

pub data Result {ℓ} (A : Type ℓ) : Type ℓ where
  ok : A → Result A
  err : RejectionCode → Result A

infixl 5 ◌>>=◌
abbrev pub ◌>>=◌ {κ ℓ} : {B : Type κ} {A : Type ℓ} → Result B → (B → Result A) → Result A
err refusal >>= next = err refusal
ok value >>= next = next value

infixl 5 ◌>>◌
abbrev pub ◌>>◌ {κ} : {A : Type κ} → Result (Unit {0}) → Result A → Result A
check >> next = check >>= λ _. next

-- `if test { return Err(code) }`
abbrev pub refuse_if : Bool → RejectionCode → Result (Unit {0})
refuse_if true c = err c
refuse_if false c = ok tt

pub data ExitCode : Type 0 where
  completed unclassified usage negotiation authentication authorization source_unavailable :
      ExitCode
  cursor_unusable cancelled config_invalid internal : ExitCode
  reserved shell_reserved platform_reserved : ℕ → ExitCode

unfoldable pub from_raw : ℕ → ExitCode
from_raw code =
    if code == 0
    then completed
    else if code == 1
    then unclassified
    else if code == 2
    then usage
    else if code == 3
    then negotiation
    else if code == 4
    then authentication
    else if code == 5
    then authorization
    else if code == 6
    then source_unavailable
    else if code == 7
    then cursor_unusable
    else if code == 8
    then cancelled
    else if code == 9
    then config_invalid
    else if code == 10
    then internal
    else if leb code 63
    then reserved code
    else if leb code 125
    then shell_reserved code
    else platform_reserved code

unfoldable pub as_raw : ExitCode → ℕ
as_raw completed = 0
as_raw unclassified = 1
as_raw usage = 2
as_raw negotiation = 3
as_raw authentication = 4
as_raw authorization = 5
as_raw source_unavailable = 6
as_raw cursor_unusable = 7
as_raw cancelled = 8
as_raw config_invalid = 9
as_raw internal = 10
as_raw (reserved code) = code
as_raw (shell_reserved code) = code
as_raw (platform_reserved code) = code

-- ExitCode::is_normal
unfoldable pub is_normal : ExitCode → Bool
is_normal completed = true
is_normal _ = false

pub data RunOutcome : Type 0 where
  complete partial failed : RunOutcome

-- Classifying an exit status loses nothing, and only status 0 is normal.
pub as_raw-from_raw :
    (code : ℕ) → (as_raw (from_raw code) ≡ code) × (is_normal (from_raw code) ≡ (code == 0))
unfolding as_raw from_raw is_normal
as_raw-from_raw code = ground arith
