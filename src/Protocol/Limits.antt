-- ===== src/Protocol/Limits.antt =====
-- crates/fieldnotes-field-protocol/src/limits.rs: the bounds of one run.
pub mod Bounds
pub mod Refusals
use fieldnotes.Prelude.{
  ℕ, Text, text, Bool, true, false, List, [], ◌∷◌, Option, none, some, ltb, if◌then◌else◌,
}

pub record Limits : Type 0 where
  pub max_frame_bytes : ℕ
  pub max_body_bytes : ℕ
  pub max_properties_per_record : ℕ
  pub max_property_value_bytes : ℕ
  pub max_list_members : ℕ
  pub max_artifacts_per_record : ℕ
  pub max_artifact_bytes : ℕ
  pub max_run_artifact_bytes : ℕ
  pub max_run_stdout_bytes : ℕ
  pub max_run_records : ℕ
  pub max_run_diagnostics : ℕ
  pub max_stderr_bytes : ℕ
  pub max_cursor_bytes : ℕ

pub record LimitError : Type 0 where
  pub member : Text
  pub value : ℕ
  pub bound : ℕ
  pub above_ceiling : Bool

-- One row of CEILINGS.
pub record Ceiling : Type 0 where
  pub member : Text
  pub minimum : ℕ
  pub ceiling : ℕ
  pub read : Limits → ℕ

abbrev pub ceiling_rows : List Ceiling
ceiling_rows =
    record {
      member = text "max_frame_bytes";
      minimum = 4096;
      ceiling = 1_048_576;
      read = λ l. l.max_frame_bytes;
    }
    ∷ record {
      member = text "max_body_bytes";
      minimum = 1024;
      ceiling = 1_048_576;
      read = λ l. l.max_body_bytes;
    }
    ∷ record {
      member = text "max_properties_per_record";
      minimum = 1;
      ceiling = 256;
      read = λ l. l.max_properties_per_record;
    }
    ∷ record {
      member = text "max_property_value_bytes";
      minimum = 64;
      ceiling = 65_536;
      read = λ l. l.max_property_value_bytes;
    }
    ∷ record {
      member = text "max_list_members";
      minimum = 1;
      ceiling = 1024;
      read = λ l. l.max_list_members;
    }
    ∷ record {
      member = text "max_artifacts_per_record";
      minimum = 0;
      ceiling = 64;
      read = λ l. l.max_artifacts_per_record;
    }
    ∷ record {
      member = text "max_artifact_bytes";
      minimum = 0;
      ceiling = 536_870_912;
      read = λ l. l.max_artifact_bytes;
    }
    ∷ record {
      member = text "max_run_artifact_bytes";
      minimum = 0;
      ceiling = 8_589_934_592;
      read = λ l. l.max_run_artifact_bytes;
    }
    ∷ record {
      member = text "max_run_stdout_bytes";
      minimum = 4096;
      ceiling = 1_073_741_824;
      read = λ l. l.max_run_stdout_bytes;
    }
    ∷ record {
      member = text "max_run_records";
      minimum = 0;
      ceiling = 1_000_000;
      read = λ l. l.max_run_records;
    }
    ∷ record {
      member = text "max_run_diagnostics";
      minimum = 0;
      ceiling = 10_000;
      read = λ l. l.max_run_diagnostics;
    }
    ∷ record {
      member = text "max_stderr_bytes";
      minimum = 0;
      ceiling = 262_144;
      read = λ l. l.max_stderr_bytes;
    }
    ∷ record {
      member = text "max_cursor_bytes";
      minimum = 1;
      ceiling = 4096;
      read = λ l. l.max_cursor_bytes;
    }
    ∷ []

-- Limits::ceilings
unfoldable pub ceilings : Limits
ceilings = record {
  max_frame_bytes = 1_048_576;
  max_body_bytes = 1_048_576;
  max_properties_per_record = 256;
  max_property_value_bytes = 65_536;
  max_list_members = 1024;
  max_artifacts_per_record = 64;
  max_artifact_bytes = 536_870_912;
  max_run_artifact_bytes = 8_589_934_592;
  max_run_stdout_bytes = 1_073_741_824;
  max_run_records = 1_000_000;
  max_run_diagnostics = 10_000;
  max_stderr_bytes = 262_144;
  max_cursor_bytes = 4096;
}

-- Limits::defaults
unfoldable pub defaults : Limits
unfolding ceilings
defaults = record ceilings { max_artifact_bytes = 26_214_400 }

-- The loop of Limits::validate: the first refused row, if any.
unfoldable pub validate_rows : List Ceiling → Limits → Option LimitError
validate_rows [] limits = none
validate_rows (entry ∷ rest) limits =
    let later = validate_rows rest limits in
    let value = entry.read limits in
    if ltb value entry.minimum
    then some (record {
      member = entry.member;
      value = value;
      bound = entry.minimum;
      above_ceiling = false;
    })
    else if ltb entry.ceiling value
    then some (record {
      member = entry.member;
      value = value;
      bound = entry.ceiling;
      above_ceiling = true;
    })
    else later

-- Limits::validate; `none` is Ok.
unfoldable pub validate : Limits → Option LimitError
unfolding validate_rows
validate limits = validate_rows ceiling_rows limits
