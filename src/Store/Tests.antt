-- ===== src/Store/Tests.antt =====
-- source_index.rs: a small index, and the properties of indexes at it.
use fieldnotes.Prelude.{◌≡◌, Text, text, List, [], ◌∷◌}
use fieldnotes.Store.Index.{IndexedNote, source_key, empty_index, get}
use fieldnotes.Store.Index.Refinement.{
  Edit, inserts, removes, apply_edits, replay, apply_edits-replay,
}

abbrev note_at : Text → IndexedNote Text
note_at t = record { path = t; filename = t; note_id = t; content = t }

abbrev edits : List (Edit Text)
edits =
    inserts (text "mail") (text "inbox") (text "b") (note_at (text "b"))
    ∷ inserts (text "mail") (text "inbox") (text "a") (note_at (text "a"))
    ∷ removes (text "mail") (text "inbox") (text "b")
    ∷ []

apply_edits-replay_example :
    get (apply_edits edits empty_index) (text "mail") (text "inbox") (text "a")
    ≡ replay edits
        (λ q. get empty_index q.field_id q.scope q.identity)
        (source_key (text "mail") (text "inbox") (text "a"))
apply_edits-replay_example =
    apply_edits-replay edits empty_index (text "mail") (text "inbox") (text "a")
