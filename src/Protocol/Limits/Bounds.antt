-- ===== src/Protocol/Limits/Bounds.antt =====
-- limits.rs, Limits::validate, against bounds written out member by member: the minimum that the schema of
-- the protocol has for each (tests/fixtures/protocol/proposed-v1/schemas/common.schema.json, `limits`),
-- and the value that `Limits::ceilings` has for it.
use fieldnotes.Prelude.{◌≤◌, ◌≡◌, ◌↔◌, refl, List, [], ◌∷◌, none, arith, All}
use fieldnotes.Protocol.Limits.{Limits, Ceiling, ceiling_rows, ceilings, validate, validate_rows}

-- The schema's minimum of each member.
abbrev pub schema_minimums : Limits
schema_minimums = record {
  max_frame_bytes = 4_096;
  max_body_bytes = 1_024;
  max_properties_per_record = 1;
  max_property_value_bytes = 64;
  max_list_members = 1;
  max_artifacts_per_record = 0;
  max_artifact_bytes = 0;
  max_run_artifact_bytes = 0;
  max_run_stdout_bytes = 4_096;
  max_run_records = 0;
  max_run_diagnostics = 0;
  max_stderr_bytes = 0;
  max_cursor_bytes = 1;
}

-- Every member lies between the same members of two other limits.
pub record Between (least l most : Limits) : Type 0 where
  pub max_frame_bytes :
      (least.max_frame_bytes ≤ l.max_frame_bytes) × (l.max_frame_bytes ≤ most.max_frame_bytes)
  pub max_body_bytes :
      (least.max_body_bytes ≤ l.max_body_bytes) × (l.max_body_bytes ≤ most.max_body_bytes)
  pub max_properties_per_record :
      (least.max_properties_per_record ≤ l.max_properties_per_record)
      × (l.max_properties_per_record ≤ most.max_properties_per_record)
  pub max_property_value_bytes :
      (least.max_property_value_bytes ≤ l.max_property_value_bytes)
      × (l.max_property_value_bytes ≤ most.max_property_value_bytes)
  pub max_list_members :
      (least.max_list_members ≤ l.max_list_members) × (l.max_list_members ≤ most.max_list_members)
  pub max_artifacts_per_record :
      (least.max_artifacts_per_record ≤ l.max_artifacts_per_record)
      × (l.max_artifacts_per_record ≤ most.max_artifacts_per_record)
  pub max_artifact_bytes :
      (least.max_artifact_bytes ≤ l.max_artifact_bytes)
      × (l.max_artifact_bytes ≤ most.max_artifact_bytes)
  pub max_run_artifact_bytes :
      (least.max_run_artifact_bytes ≤ l.max_run_artifact_bytes)
      × (l.max_run_artifact_bytes ≤ most.max_run_artifact_bytes)
  pub max_run_stdout_bytes :
      (least.max_run_stdout_bytes ≤ l.max_run_stdout_bytes)
      × (l.max_run_stdout_bytes ≤ most.max_run_stdout_bytes)
  pub max_run_records :
      (least.max_run_records ≤ l.max_run_records) × (l.max_run_records ≤ most.max_run_records)
  pub max_run_diagnostics :
      (least.max_run_diagnostics ≤ l.max_run_diagnostics)
      × (l.max_run_diagnostics ≤ most.max_run_diagnostics)
  pub max_stderr_bytes :
      (least.max_stderr_bytes ≤ l.max_stderr_bytes) × (l.max_stderr_bytes ≤ most.max_stderr_bytes)
  pub max_cursor_bytes :
      (least.max_cursor_bytes ≤ l.max_cursor_bytes) × (l.max_cursor_bytes ≤ most.max_cursor_bytes)

abbrev InBounds : Limits → Ceiling → Type 0
InBounds l entry = (entry.minimum ≤ entry.read l) × (entry.read l ≤ entry.ceiling)

validate_rows_iff :
    (rows : List Ceiling) (l : Limits) → (validate_rows rows l ≡ none) ↔ All (InBounds l) rows
unfolding validate_rows
validate_rows_iff [] l = (λ _. tt, λ _. refl)
validate_rows_iff (entry ∷ rest) l = ground (arith, validate_rows_iff rest l)

-- Limits are accepted exactly when each of the thirteen members lies between the minimum that the schema
-- has for it and the value that `ceilings` has for it.
pub validate_iff : (l : Limits) → (validate l ≡ none) ↔ Between schema_minimums l ceilings
unfolding validate ceilings
validate_iff l = (
  λ h. between ((validate_rows_iff ceiling_rows l).0 h),
  λ b. (validate_rows_iff ceiling_rows l).1 (rows b),
)
  where
    between : All (InBounds l) ceiling_rows → Between schema_minimums l ceilings
    between h =
        let (a0, (a1, (a2, (a3, (a4, (a5, (a6, (a7, (a8, (a9, (a10, (a11, (a12, _))))))))))))) =
          h in
        record {
          max_frame_bytes = a0;
          max_body_bytes = a1;
          max_properties_per_record = a2;
          max_property_value_bytes = a3;
          max_list_members = a4;
          max_artifacts_per_record = a5;
          max_artifact_bytes = a6;
          max_run_artifact_bytes = a7;
          max_run_stdout_bytes = a8;
          max_run_records = a9;
          max_run_diagnostics = a10;
          max_stderr_bytes = a11;
          max_cursor_bytes = a12;
        }

    rows : Between schema_minimums l ceilings → All (InBounds l) ceiling_rows
    rows b = (
      b.max_frame_bytes,
      (
        b.max_body_bytes,
        (
          b.max_properties_per_record,
          (
            b.max_property_value_bytes,
            (
              b.max_list_members,
              (
                b.max_artifacts_per_record,
                (
                  b.max_artifact_bytes,
                  (
                    b.max_run_artifact_bytes,
                    (
                      b.max_run_stdout_bytes,
                      (
                        b.max_run_records,
                        (b.max_run_diagnostics, (b.max_stderr_bytes, (b.max_cursor_bytes, tt))),
                      ),
                    ),
                  ),
                ),
              ),
            ),
          ),
        ),
      ),
    )
