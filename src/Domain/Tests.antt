-- ===== src/Domain/Tests.antt =====
-- Concrete dates and IDs for the properties of datetime.rs and ids.rs.
use fieldnotes.Prelude.{ℕ, ◌≡◌, ◌↔◌, refl, text, strip_prefix, List, [], ◌∷◌, arith}
use fieldnotes.Domain.Ids.{
  Uuid7, RecordId, ArtifactId, valid, note, parse_artifact_id, show_artifact_id, parse_record_id,
  show_record_id, from_parts, parse_among, prefix, with_kind, parse_uuid, checked_nibbles,
  check_bits, uuid_nibbles, is_hyphen_position, hex_val, pack,
}
use fieldnotes.Domain.Ids.RoundTrip.{IsBytes, IsDigest, parse_artifact_id_iff}
use fieldnotes.Domain.Ids.Uuids.{IsUuid}
use fieldnotes.Domain.Ids.Kinds.{parse_record_id_iff}
use fieldnotes.Domain.Ids.Instants.{Holds, from_parts-Holds}
use fieldnotes.Domain.Datetime.{
  Date, parse_date, render_date, ok, parse_fixed_digits, days_in_month,
}
use fieldnotes.Domain.Datetime.RoundTrip.{IsValid, parse_date-render_date, render_date-parse_date}

abbrev leap_day : Date
leap_day = record { year = 2024; month = 2; day = 29 }

leap_day-IsValid : IsValid leap_day
unfolding days_in_month
leap_day-IsValid = record {
  year_le = omega arith;
  month_pos = omega arith;
  month_le = omega arith;
  day_pos = omega arith;
  day_le = ground arith;
}

parse_date-render_date_example : parse_date (render_date leap_day) ≡ ok leap_day
parse_date-render_date_example = parse_date-render_date leap_day leap_day-IsValid

leap_day_read : parse_date (text "2024-02-29") ≡ ok leap_day
unfolding parse_date parse_fixed_digits days_in_month
leap_day_read = refl

render_date-parse_date_example : (render_date leap_day ≡ text "2024-02-29") × IsValid leap_day
render_date-parse_date_example = render_date-parse_date (text "2024-02-29") leap_day leap_day_read

abbrev zero_digest : List ℕ
zero_digest =
    0 ∷ 0 ∷ 0 ∷ 0 ∷ 0 ∷ 0 ∷ 0 ∷ 0 ∷ 0 ∷ 0 ∷ 0 ∷ 0 ∷ 0 ∷ 0 ∷ 0 ∷ 0 ∷ 0 ∷ 0 ∷ 0 ∷ 0 ∷ 0 ∷ 0 ∷ 0 ∷ 0
    ∷ 0 ∷ 0 ∷ 0 ∷ 0 ∷ 0 ∷ 0 ∷ 0 ∷ 255 ∷ []

abbrev zero_artifact : ArtifactId
zero_artifact = record { digest = zero_digest }

parse_artifact_id_iff_example :
    (parse_artifact_id
        (text "artifact_sha256_00000000000000000000000000000000000000000000000000000000000000ff")
      ≡ valid zero_artifact)
    ↔ ((text "artifact_sha256_00000000000000000000000000000000000000000000000000000000000000ff"
          ≡ show_artifact_id zero_artifact)
        × IsDigest zero_artifact)
parse_artifact_id_iff_example =
    parse_artifact_id_iff
      (text "artifact_sha256_00000000000000000000000000000000000000000000000000000000000000ff")
      zero_artifact

-- The UUID in the documentation of `RecordId`.
abbrev documented : Uuid7
documented = record {
  bytes =
      1 ∷ 160 ∷ 40 ∷ 213 ∷ 144 ∷ 192 ∷ 114 ∷ 72 ∷ 167 ∷ 75 ∷ 200 ∷ 188 ∷ 16 ∷ 133 ∷ 171 ∷ 25 ∷ [];
}

abbrev documented_note : RecordId
documented_note = record { kind = note; uuid = documented }

documented_read :
    parse_record_id (text "note_01a028d5-90c0-7248-a74b-c8bc1085ab19") ≡ valid documented_note
unfolding parse_record_id parse_among strip_prefix prefix with_kind parse_uuid checked_nibbles
    check_bits uuid_nibbles is_hyphen_position hex_val pack
documented_read = refl

parse_record_id_iff_example :
    (parse_record_id (text "note_01a028d5-90c0-7248-a74b-c8bc1085ab19") ≡ valid documented_note) ↔ (
      (text "note_01a028d5-90c0-7248-a74b-c8bc1085ab19" ≡ show_record_id documented_note)
      × IsUuid documented_note.uuid)
parse_record_id_iff_example =
    parse_record_id_iff (text "note_01a028d5-90c0-7248-a74b-c8bc1085ab19") documented_note

abbrev ten_bytes : List ℕ
ten_bytes = 1 ∷ 2 ∷ 3 ∷ 4 ∷ 5 ∷ 6 ∷ 7 ∷ 8 ∷ 9 ∷ 255 ∷ []

ten_bytes-IsBytes : IsBytes ten_bytes
ten_bytes-IsBytes = (
  omega arith,
  (
    omega arith,
    (
      omega arith,
      (
        omega arith,
        (
          omega arith,
          (omega arith, (omega arith, (omega arith, (omega arith, (omega arith, tt))))),
        ),
      ),
    ),
  ),
)

from_parts-Holds_example :
    (u : Uuid7) × (from_parts 1_770_000_000_000 ten_bytes ≡ valid u) × Holds 1_770_000_000_000 u
from_parts-Holds_example =
    from_parts-Holds 1_770_000_000_000 ten_bytes refl ten_bytes-IsBytes (omega arith)
