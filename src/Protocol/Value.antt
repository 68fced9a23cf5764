-- ===== src/Protocol/Value.antt =====
-- crates/fieldnotes-field-protocol/src/value.rs: property values. A JSON number is the text that
-- `Number::to_string` gives for it.
use fieldnotes.Prelude.{ℕ, Text, Bool, true, false, List, [], ◌∷◌, length, leb, if◌then◌else◌}

pub data PropertyValue : Type 0 where
  text_value number_value : Text → PropertyValue
  boolean_value : Bool → PropertyValue
  text_list number_list : List Text → PropertyValue
  boolean_list : List Bool → PropertyValue

unfoldable pub is_list : PropertyValue → Bool
is_list (text_list _) = true
is_list (number_list _) = true
is_list (boolean_list _) = true
is_list _ = false

unfoldable pub member_count : PropertyValue → ℕ
member_count (text_list members) = length members
member_count (number_list members) = length members
member_count (boolean_list members) = length members
member_count _ = 1

-- `iter().map(len).max().unwrap_or(0)`
unfoldable pub max_length : List Text → ℕ
max_length [] = 0
max_length (t ∷ ts) = let rest = max_length ts in if leb rest (length t) then length t else rest

unfoldable pub max_member_bytes : PropertyValue → ℕ
unfolding max_length
max_member_bytes (text_value t) = length t
max_member_bytes (number_value n) = length n
max_member_bytes (boolean_value _) = 5
max_member_bytes (text_list members) = max_length members
max_member_bytes (number_list members) = max_length members
max_member_bytes (boolean_list _) = 5
