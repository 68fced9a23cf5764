-- ===== src/Protocol/MediaTypes.antt =====
-- crates/fieldnotes-field-protocol/src/limits.rs and grammar.rs: the media types that a run retains.
use fieldnotes.Prelude.{
  ℕ, ◌+◌, Text, text, text_eq, Bool, true, false, ◌&&◌, ◌||◌, Option, none, some, List, [], ◌∷◌,
  leb, ◌==◌, if◌then◌else◌, any,
}

-- What stands before the first `sep`, and behind it if there is one.
unfoldable pub split_once : ℕ → Text → Text × Option Text
split_once sep [] = ([], none)
split_once sep (b ∷ bs) =
    let rest = split_once sep bs in if b == sep then ([], some bs) else (b ∷ rest.0, rest.1)

abbrev pub is_space : ℕ → Bool
is_space b = (b == 32) || (leb 9 b && leb b 13)

unfoldable pub trim_start : Text → Text
trim_start [] = []
trim_start (b ∷ bs) = let rest = trim_start bs in if is_space b then rest else b ∷ bs

unfoldable pub trim_end : Text → Text
trim_end [] = []
trim_end (b ∷ bs) = elim (trim_end bs) [
  | [] ↦ if is_space b then [] else b ∷ []
  | c ∷ cs ↦ b ∷ c ∷ cs
]

unfoldable pub to_ascii_lowercase : Text → Text
to_ascii_lowercase [] = []
to_ascii_lowercase (b ∷ bs) =
    (if leb b'A' b && leb b b'Z' then b + 32 else b) ∷ to_ascii_lowercase bs

-- limits.rs, media_type_essence; a media type is ASCII, so trimming is of ASCII white space.
unfoldable pub media_type_essence : Text → Text
unfolding split_once trim_start trim_end to_ascii_lowercase
media_type_essence declared =
    to_ascii_lowercase (trim_end (trim_start (split_once b';' declared).0))

-- MediaTypeMatcher::matches behind the test for equality: `kind/*` against the essence's kind.
unfoldable pub wildcard_matches : Text × Option Text → Text × Option Text → Bool
wildcard_matches (kind, some subtype) (essence_kind, some _) =
    text_eq subtype (text "*") && text_eq essence_kind kind
wildcard_matches _ _ = false

-- grammar.rs, MediaTypeMatcher::matches
unfoldable pub matches : Text → Text → Bool
unfolding wildcard_matches split_once
matches matcher essence =
    if text_eq matcher essence
    then true
    else wildcard_matches (split_once b'/' matcher) (split_once b'/' essence)

-- limits.rs, artifact_media_type_included
unfoldable pub artifact_media_type_included : List Text → Text → Bool
unfolding matches
artifact_media_type_included policy essence = any (λ matcher. matches matcher essence) policy
