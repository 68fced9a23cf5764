-- ===== src/Protocol/Handle.antt =====
-- crates/fieldnotes-field-protocol/src/artifact.rs: the grammar of artifact handles. The proofs are
-- in the child module Grammar.
pub mod Grammar
use fieldnotes.Prelude.{
  ℕ, zero, suc, ◌+◌, ◌/◌, ◌%◌, Text, text, text_eq, contains_text, Bool, true, false, ◌&&◌, ◌||◌,
  not, Option, none, some, List, [], ◌∷◌, ◌++◌, length, ltb, leb, ◌==◌, if◌then◌else◌,
  saturating_add, from_digit, any, get_or,
}

-- A numbered device name, `com0` to `com9` and `lpt0` to `lpt9`, is spelled out.
abbrev pub reserved_device_names : List Text
reserved_device_names =
    text "con"
    ∷ text "prn"
    ∷ text "aux"
    ∷ text "nul"
    ∷ text "com0"
    ∷ text "com1"
    ∷ text "com2"
    ∷ text "com3"
    ∷ text "com4"
    ∷ text "com5"
    ∷ text "com6"
    ∷ text "com7"
    ∷ text "com8"
    ∷ text "com9"
    ∷ text "lpt0"
    ∷ text "lpt1"
    ∷ text "lpt2"
    ∷ text "lpt3"
    ∷ text "lpt4"
    ∷ text "lpt5"
    ∷ text "lpt6"
    ∷ text "lpt7"
    ∷ text "lpt8"
    ∷ text "lpt9"
    ∷ []

pub data HandleError : Type 0 where
  bad_length bad_character : ℕ → HandleError
  first_character reserved_device_name : HandleError

pub data HandleResult : Type 0 where
  handle : Text → HandleResult
  refused : HandleError → HandleResult

abbrev pub is_lower_or_digit : ℕ → Bool
is_lower_or_digit b = (leb b'a' b && leb b b'z') || (leb b'0' b && leb b b'9')

abbrev pub is_allowed : ℕ → Bool
is_allowed b = is_lower_or_digit b || (b == b'_') || (b == b'-')

-- The loop over the bytes of a handle: the first byte outside the closed set.
unfoldable pub first_disallowed : Text → Option ℕ
first_disallowed [] = none
first_disallowed (b ∷ bs) = let rest = first_disallowed bs in if is_allowed b then rest else some b

-- ArtifactHandle::parse
unfoldable pub parse_handle : Text → HandleResult
parse_handle t =
    if (length t == 0) || ltb 64 (length t)
    then refused (bad_length (length t))
    else if not (is_lower_or_digit (get_or t 0 0))
    then refused first_character
    else elim (first_disallowed t) [
      | some b ↦ refused (bad_character b)
      | none ↦
          if contains_text reserved_device_names t then refused reserved_device_name else handle t
    ]
