-- ===== src/Domain/NoteTypes.antt =====
-- crates/fieldnotes-domain/src/note_type.rs: the approved primary Note types.
use fieldnotes.Prelude.{Text, text, text_eq, Option, none, some, List, [], ◌∷◌, if◌then◌else◌}

pub data NoteType : Type 0 where
  text_note message mail meeting call ticket document file contact event voice : NoteType

abbrev pub all_types : List NoteType
all_types =
    text_note ∷ message ∷ mail ∷ meeting ∷ call ∷ ticket ∷ document ∷ file ∷ contact ∷ event ∷ voice
    ∷ []

abbrev pub as_str : NoteType → Text
as_str text_note = text "text"
as_str message = text "message"
as_str mail = text "mail"
as_str meeting = text "meeting"
as_str call = text "call"
as_str ticket = text "ticket"
as_str document = text "document"
as_str file = text "file"
as_str contact = text "contact"
as_str event = text "event"
as_str voice = text "voice"

unfoldable pub find_type : List NoteType → Text → Option NoteType
find_type [] name = none
find_type (t ∷ ts) name = if text_eq (as_str t) name then some t else find_type ts name

-- NoteType::parse
unfoldable pub parse : Text → Option NoteType
unfolding find_type
parse name = find_type all_types name
