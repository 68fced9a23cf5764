-- ===== src/Domain/Ids.antt =====
-- crates/fieldnotes-domain/src/ids.rs: record and artifact IDs, their parsers and their texts. An array
-- of bytes is the list of them; the shifts and masks of a byte are division and remainder.
pub mod RoundTrip
pub mod Uuids
pub mod UuidText
pub mod Kinds
pub mod Instants
use fieldnotes.Prelude.{
  ℕ, zero, suc, ◌+◌, ◌-◌, ◌*◌, ◌/◌, ◌%◌, ◌^◌, Text, text, Bool, true, false, ◌&&◌, ◌||◌, not,
  Option, none, some, List, [], ◌∷◌, ◌++◌, length, take, drop, get_or, ltb, leb, ◌==◌,
  if◌then◌else◌, strip_prefix,
}

pub data IdError : Type 0 where
  unknown_prefix malformed_uuid wrong_uuid_version wrong_uuid_variant : IdError
  malformed_digest timestamp_out_of_range : IdError

pub data IdResult (A : Type 0) : Type 0 where
  valid : A → IdResult A
  invalid : IdError → IdResult A

pub data RecordKind : Type 0 where
  instance_kind note extraction observation entity relationship : RecordKind
  proposal package_kind conflict : RecordKind

-- RecordKind::ALL
abbrev pub all_kinds : List RecordKind
all_kinds =
    instance_kind ∷ note ∷ extraction ∷ observation ∷ entity ∷ relationship ∷ proposal
    ∷ package_kind ∷ conflict ∷ []

unfoldable pub prefix : RecordKind → Text
prefix instance_kind = text "fn_"
prefix note = text "note_"
prefix extraction = text "ext_"
prefix observation = text "obs_"
prefix entity = text "ent_"
prefix relationship = text "rel_"
prefix proposal = text "prop_"
prefix package_kind = text "pkg_"
prefix conflict = text "conf_"

unfoldable pub hex_val : ℕ → Option ℕ
hex_val byte =
    if leb b'0' byte && leb byte b'9'
    then some (byte - b'0')
    else if leb b'a' byte && leb byte b'f'
    then some (byte - b'a' + 10)
    else none

-- A digit of the table HEX, for n below 16.
unfoldable pub hex_digit : ℕ → ℕ
hex_digit n = if ltb n 10 then b'0' + n else b'a' + (n - 10)

-- The two digits that push_hex appends, in front of what follows.
unfoldable pub push_hex : ℕ → Text → Text
unfolding hex_digit
push_hex byte rest = hex_digit (byte / 16) ∷ hex_digit (byte % 16) ∷ rest

-- Uuid7, by its bytes.
pub record Uuid7 : Type 0 where
  pub bytes : List ℕ

-- matches!(pos, 8 | 13 | 18 | 23)
unfoldable pub is_hyphen_position : ℕ → Bool
is_hyphen_position pos = (pos == 8) || (pos == 13) || (pos == 18) || (pos == 23)

abbrev pub cons_nibble : Option ℕ → Option (List ℕ) → Option (List ℕ)
cons_nibble (some n) (some ns) = some (n ∷ ns)
cons_nibble _ _ = none

-- The loop of Uuid7::parse from a position on: the values of the digits, none where it refuses.
unfoldable pub uuid_nibbles : ℕ → Text → Option (List ℕ)
uuid_nibbles pos [] = some []
uuid_nibbles pos (byte ∷ raw) =
    let later = uuid_nibbles (suc pos) raw in
    if is_hyphen_position pos
    then (if byte == b'-' then later else none)
    else cons_nibble (hex_val byte) later

-- Two digits make a byte.
unfoldable pub pack : List ℕ → List ℕ
pack (hi ∷ lo ∷ rest) = (hi * 16 + lo) ∷ pack rest
pack _ = []

-- The checks of the version and variant bits.
unfoldable pub check_bits : List ℕ → IdResult Uuid7
check_bits bytes =
    if not (get_or bytes 6 0 / 16 == 7)
    then invalid wrong_uuid_version
    else if not (get_or bytes 8 0 / 64 == 2)
    then invalid wrong_uuid_variant
    else valid (record { bytes = bytes })

unfoldable pub checked_nibbles : Option (List ℕ) → IdResult Uuid7
checked_nibbles none = invalid malformed_uuid
checked_nibbles (some nibbles) = check_bits (pack nibbles)

-- Uuid7::parse
unfoldable pub parse_uuid : Text → IdResult Uuid7
parse_uuid raw =
    if not (length raw == 36) then invalid malformed_uuid else checked_nibbles (uuid_nibbles 0 raw)

-- u64::to_be_bytes, without the two high bytes
unfoldable pub low_bytes : ℕ → List ℕ
low_bytes ms =
    ms / 2 ^ 40 % 256
    ∷ ms / 2 ^ 32 % 256
    ∷ ms / 2 ^ 24 % 256
    ∷ ms / 2 ^ 16 % 256
    ∷ ms / 2 ^ 8 % 256
    ∷ ms % 256
    ∷ []

-- The bytes from the seventh on: the version and the variant over the random bytes.
unfoldable pub random_part : List ℕ → List ℕ
random_part random =
    (112 + get_or random 0 0 % 16)
    ∷ get_or random 1 0
    ∷ (128 + get_or random 2 0 % 64)
    ∷ take 7 (drop 3 random)

-- Uuid7::from_parts
unfoldable pub from_parts : ℕ → List ℕ → IdResult Uuid7
from_parts unix_millis random =
    if leb (2 ^ 48) unix_millis
    then invalid timestamp_out_of_range
    else valid (record { bytes = low_bytes unix_millis ++ random_part random })

-- u64::from_be_bytes
unfoldable pub from_be_bytes : ℕ → List ℕ → ℕ
from_be_bytes high [] = high
from_be_bytes high (b ∷ bs) = from_be_bytes (high * 256 + b) bs

-- Uuid7::unix_millis
unfoldable pub unix_millis : Uuid7 → ℕ
unix_millis u = from_be_bytes 0 (take 6 u.bytes)

-- matches!(index, 4 | 6 | 8 | 10)
unfoldable pub is_hyphen_index : ℕ → Bool
is_hyphen_index index = (index == 4) || (index == 6) || (index == 8) || (index == 10)

-- The loop of Display for Uuid7.
unfoldable pub show_uuid_from : ℕ → List ℕ → Text
unfolding push_hex
show_uuid_from index [] = []
show_uuid_from index (b ∷ bs) =
    let rest = push_hex b (show_uuid_from (suc index) bs) in
    if is_hyphen_index index then b'-' ∷ rest else rest

unfoldable pub show_uuid : Uuid7 → Text
unfolding show_uuid_from
show_uuid u = show_uuid_from 0 u.bytes

pub record RecordId : Type 0 where
  pub kind : RecordKind
  pub uuid : Uuid7

unfoldable pub with_kind : RecordKind → IdResult Uuid7 → IdResult RecordId
with_kind kind (valid uuid) = valid (record { kind = kind; uuid = uuid })
with_kind kind (invalid e) = invalid e

-- The loop of RecordId::parse: the first kind whose prefix the text has decides.
unfoldable pub parse_among : List RecordKind → Text → IdResult RecordId
unfolding with_kind
parse_among [] t = invalid unknown_prefix
parse_among (kind ∷ kinds) t = elim (strip_prefix (prefix kind) t) [
  | none ↦ parse_among kinds t
  | some rest ↦ with_kind kind (parse_uuid rest)
]

-- RecordId::parse
unfoldable pub parse_record_id : Text → IdResult RecordId
unfolding parse_among
parse_record_id t = parse_among all_kinds t

-- Display for RecordId
unfoldable pub show_record_id : RecordId → Text
show_record_id id = prefix id.kind ++ show_uuid id.uuid

pub record ArtifactId : Type 0 where
  pub digest : List ℕ

-- ArtifactId::PREFIX
abbrev pub artifact_prefix : Text
artifact_prefix = text "artifact_sha256_"

-- (hi << 4) | lo, where both are digits.
abbrev pub cons_byte : Option ℕ → Option ℕ → Option (List ℕ) → Option (List ℕ)
cons_byte (some hi) (some lo) (some bytes) = some ((hi * 16 + lo) ∷ bytes)
cons_byte _ _ _ = none

-- The loop of ArtifactId::parse over pairs of digits.
unfoldable pub digest_bytes : Text → Option (List ℕ)
digest_bytes (hi ∷ lo ∷ raw) =
    let later = digest_bytes raw in cons_byte (hex_val hi) (hex_val lo) later
digest_bytes _ = some []

unfoldable pub digest_of : Option (List ℕ) → IdResult ArtifactId
digest_of none = invalid malformed_digest
digest_of (some bytes) = valid (record { digest = bytes })

-- What follows the prefix of an artifact ID.
unfoldable pub parse_digest : Option Text → IdResult ArtifactId
unfolding digest_of
parse_digest none = invalid unknown_prefix
parse_digest (some raw) =
    if not (length raw == 64) then invalid malformed_digest else digest_of (digest_bytes raw)

-- ArtifactId::parse
unfoldable pub parse_artifact_id : Text → IdResult ArtifactId
unfolding parse_digest
parse_artifact_id t = parse_digest (strip_prefix artifact_prefix t)

unfoldable pub hex_text : List ℕ → Text
unfolding push_hex
hex_text [] = []
hex_text (b ∷ bs) = push_hex b (hex_text bs)

-- Display for ArtifactId
unfoldable pub show_artifact_id : ArtifactId → Text
show_artifact_id id = artifact_prefix ++ hex_text id.digest
