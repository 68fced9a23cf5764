-- ===== src/Protocol/Tests.antt =====
-- Concrete inputs for the properties of framing, artifacts, limits, codes and version negotiation.
use fieldnotes.Protocol.Framing.{FrameReader, next_frame, after_line, decode_line, trim_end_lf}
use fieldnotes.Protocol.Framing.Frames.{next_frame_err, next_frame_within}
use fieldnotes.Protocol.Codes.{err, protocol_limit_exceeded, protocol_unexpected_order}
use fieldnotes.Prelude.{ℕ, ◌≤◌, Option}
use fieldnotes.Prelude.{
  ◌+◌, ◌<◌, u64_max, ◌≡◌, ◌↔◌, ◌==◌, refl, Text, text, contains_text, true, false, none, some, List,
  [], ◌∷◌, ◌++◌, arith, saturating_add, text_eq,
}
use fieldnotes.Protocol.Codes.{ok, from_raw, as_raw, is_normal, as_raw-from_raw}
use fieldnotes.Protocol.Version.{Settles, select_version, select_version-negotiate}
use fieldnotes.Protocol.Limits.{Limits, LimitError, ceilings, validate, validate_rows}
use fieldnotes.Protocol.Limits.Bounds.{schema_minimums, Between, validate_iff}
use fieldnotes.Protocol.Limits.Refusals.{Blames, validate_err}
use fieldnotes.Protocol.Message.{ArtifactRef, ArtifactKind, ArtifactRole}
use fieldnotes.Protocol.Handle.{handle, parse_handle, first_disallowed}
use fieldnotes.Protocol.Handle.Grammar.{IsHandle, parse_handle_iff}
use fieldnotes.Protocol.Artifact.{
  ResolvedArtifact, FileIdentity, Metadata, OpenFile, Staging, parsed_handle, read_bounded,
  check_media_type, check_digest, open_checked, resolve_staged, hex,
}
use fieldnotes.Protocol.Artifact as Artifact
use fieldnotes.Protocol.Artifact.Verified.{Verified, resolve_staged-Verified}
use fieldnotes.Protocol.Framing.{
  Chunk, bytes, interrupted, read_line_bounded, read_line, position, horizon, consume, new, push,
}
use fieldnotes.Protocol.Framing.Lines.{stream, line_of}
use fieldnotes.Protocol.Framing.Reading.{read_line-line_of, read_line-remainder}
use fieldnotes.Protocol.Framing.Capture.{pushed, last_bytes, pushed_last, push_nothing_kept}

as_raw-from_raw_example : (as_raw (from_raw 64) ≡ 64) × (is_normal (from_raw 64) ≡ (64 == 0))
as_raw-from_raw_example = as_raw-from_raw 64

validate_iff_example : (validate ceilings ≡ none) ↔ Between schema_minimums ceilings ceilings
validate_iff_example = validate_iff ceilings

-- The cursors are given one byte more than their ceiling.
abbrev long_cursors : Limits
long_cursors = record ceilings { max_cursor_bytes = 4_097 }

abbrev cursor_refusal : LimitError
cursor_refusal = record {
  member = text "max_cursor_bytes";
  value = 4_097;
  bound = 4_096;
  above_ceiling = true;
}

validate_err_example : Blames long_cursors cursor_refusal
validate_err_example =
    validate_err long_cursors cursor_refusal (unfold validate validate_rows ceilings in refl)

parse_handle_iff_example :
    (parse_handle (text "note-1_a") ≡ handle (text "note-1_a"))
    ↔ ((text "note-1_a" ≡ text "note-1_a") × IsHandle (text "note-1_a"))
parse_handle_iff_example = parse_handle_iff (text "note-1_a") (text "note-1_a")

-- "ab", LF, "c", in three reads with an interruption.
abbrev chunks : List Chunk
chunks = bytes (97 ∷ []) ∷ interrupted ∷ bytes (98 ∷ 10 ∷ []) ∷ bytes (99 ∷ []) ∷ []

read_line-line_of_example : (read_line_bounded 3 chunks).0 ≡ line_of 3 (97 ∷ 98 ∷ 10 ∷ 99 ∷ [])
read_line-line_of_example = read_line-line_of 3 chunks (97 ∷ 98 ∷ 10 ∷ 99 ∷ []) (omega arith) refl

line_read : (read_line_bounded 3 chunks).0 ≡ ok (some (97 ∷ 98 ∷ 10 ∷ []))
unfolding read_line_bounded read_line position horizon saturating_add consume
line_read = refl

read_line-remainder_example :
    (u : Text) × (stream (read_line_bounded 3 chunks).1 ≡ some u)
    × ((97 ∷ 98 ∷ 10 ∷ []) ++ u ≡ 97 ∷ 98 ∷ 10 ∷ 99 ∷ [])
read_line-remainder_example =
    read_line-remainder 3 chunks (97 ∷ 98 ∷ 10 ∷ 99 ∷ []) (97 ∷ 98 ∷ 10 ∷ []) (omega arith) refl
      line_read

pushed_last_example :
    ((pushed ((1 ∷ 2 ∷ []) ∷ (3 ∷ []) ∷ []) (new 2)).buffer ≡ last_bytes 2 (1 ∷ 2 ∷ 3 ∷ []))
    × ((pushed ((1 ∷ 2 ∷ []) ∷ (3 ∷ []) ∷ []) (new 2)).dropped ≡ 1)
pushed_last_example = pushed_last 2 ((1 ∷ 2 ∷ []) ∷ (3 ∷ []) ∷ []) (omega arith) (omega arith)

push_nothing_kept_example :
    ((push (1 ∷ []) (new 0)).buffer ≡ []) × ((push (1 ∷ []) (new 0)).dropped ≡ 2)
push_nothing_kept_example = push_nothing_kept (1 ∷ []) (omega arith)

abbrev reference : ArtifactRef
reference = record {
  kind = ArtifactKind.staged;
  handle = some (text "a");
  sha256 = none;
  byte_length = some 3;
  media_type = none;
  role = ArtifactRole.attachment;
  source_filename = none;
  attachment_ref = none;
}

abbrev entry : Metadata
entry = record { is_file = true; identity = record { device = 1; inode = 2; length = 3 } }

-- A staging directory with the one regular file "a", read in two pieces.
abbrev staging : Staging
staging = record {
  symlink_metadata = λ _. some entry;
  open_without_following = λ _. some (record {
    metadata = some entry;
    reads = Artifact.bytes (7 ∷ 8 ∷ []) ∷ Artifact.bytes (9 ∷ []) ∷ [];
  });
}

abbrev artifact : ResolvedArtifact
unfolding hex
artifact = record { digest = hex (7 ∷ 8 ∷ 9 ∷ []); byte_length = 3; reused = false }

resolves_staged : resolve_staged (λ t. t) staging reference ceilings [] ≡ ok artifact
unfolding resolve_staged parsed_handle parse_handle first_disallowed contains_text text_eq ceilings
    check_media_type open_checked read_bounded saturating_add check_digest artifact hex
resolves_staged = refl

small_artifacts : ceilings.max_artifact_bytes + 1 < u64_max
unfolding ceilings
small_artifacts = omega arith

resolve_staged-Verified_example : Verified (λ t. t) staging reference ceilings artifact
resolve_staged-Verified_example =
    resolve_staged-Verified (λ t. t) staging reference ceilings [] artifact small_artifacts
      resolves_staged

-- A parser that takes any line for itself, and a reader of a stream with one line.
abbrev take_line : Text → Option Text
take_line t = some t

abbrev reader : ℕ → FrameReader
reader max_total_bytes = record {
  source = chunks;
  max_frame_bytes = 3;
  max_total_bytes = max_total_bytes;
  total_bytes = 0;
  poisoned = false;
}

reader_refuses : (next_frame (λ _. true) take_line (reader 2)).0 ≡ err protocol_limit_exceeded
unfolding next_frame after_line decode_line read_line_bounded read_line position horizon
    saturating_add consume
reader_refuses = refl

next_frame_err_example :
    next_frame (λ _. true) take_line (next_frame (λ _. true) take_line (reader 2)).1
    ≡ (err protocol_unexpected_order, (next_frame (λ _. true) take_line (reader 2)).1)
next_frame_err_example =
    next_frame_err (λ _. true) take_line (reader 2) protocol_limit_exceeded reader_refuses

reader_gives :
    (next_frame (λ _. true) take_line (reader 3)).0
    ≡ ok (some (record { value = 97 ∷ 98 ∷ []; wire_bytes = 3 }))
unfolding next_frame after_line decode_line read_line_bounded read_line position horizon
    saturating_add consume trim_end_lf
reader_gives = refl

next_frame_within_example :
    ((next_frame (λ _. true) take_line (reader 3)).1.total_bytes ≡ saturating_add 0 3)
    × ((next_frame (λ _. true) take_line (reader 3)).1.total_bytes ≤ 3)
next_frame_within_example =
    next_frame_within (λ _. true) take_line (reader 3)
      (record { value = 97 ∷ 98 ∷ []; wire_bytes = 3 }) reader_gives

select_version-negotiate_example :
    Settles (1 ∷ 2 ∷ []) (2 ∷ []) 3 1 (select_version (1 ∷ 2 ∷ []) (2 ∷ []))
select_version-negotiate_example =
    select_version-negotiate (1 ∷ 2 ∷ []) (2 ∷ []) 3 1 (omega arith) (omega arith)
