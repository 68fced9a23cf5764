-- ===== src/Store/Index/Refinement.antt =====
-- source_index.rs: the index, used through its operations, reads as a function from keys to notes.
use fieldnotes.Prelude.{◌≡◌, refl, ap, ◌∙◌, Text, Option, none, some, List, [], ◌∷◌, if◌then◌else◌}
use fieldnotes.Store.Index.{
  IndexedNote, SourceIndex, SourceKey, source_key, key_eq, find_key, insert_note, remove, get,
}
use fieldnotes.Store.Index.Laws.{find_key-put_key, find_key-drop_key}

pub data Edit (Parsed : Type 0) : Type 0 where
  inserts : Text → Text → Text → IndexedNote Parsed → Edit Parsed
  removes : Text → Text → Text → Edit Parsed

module _ {Parsed : Type 0} where
  unfoldable pub apply_edits : List (Edit Parsed) → SourceIndex Parsed → SourceIndex Parsed
  apply_edits [] index = index
  apply_edits (inserts f s i note ∷ es) index = apply_edits es (insert_note f s i note index)
  apply_edits (removes f s i ∷ es) index = apply_edits es (remove f s i index)

  -- The same edits on a function.
  unfoldable pub replay :
      List (Edit Parsed)
      → (SourceKey → Option (IndexedNote Parsed))
      → SourceKey
      → Option (IndexedNote Parsed)
  replay [] g = g
  replay (inserts f s i note ∷ es) g =
      replay es (λ q. if key_eq (source_key f s i) q then some note else g q)
  replay (removes f s i ∷ es) g = replay es (λ q. if key_eq (source_key f s i) q then none else g q)

  replays :
      (es : List (Edit Parsed)) (index : SourceIndex Parsed)
      (g : SourceKey → Option (IndexedNote Parsed))
      → ((q : SourceKey) → find_key index.notes q ≡ g q)
      → (q : SourceKey) → find_key (apply_edits es index).notes q ≡ replay es g q
  unfolding apply_edits replay insert_note remove
  replays [] index g h q = h q
  replays (inserts f s i note ∷ es) index g h q =
      replays es (insert_note f s i note index) _
        (λ k.
          find_key-put_key (source_key f s i) k note index.notes
          ∙ ap (λ x. if key_eq (source_key f s i) k then some note else x) (h k))
        q
  replays (removes f s i ∷ es) index g h q =
      replays es (remove f s i index) _
        (λ k.
          find_key-drop_key (source_key f s i) k index.notes
          ∙ ap (λ x. if key_eq (source_key f s i) k then none else x) (h k))
        q

  -- After any sequence of insertions and removals, the index reads at every key as the function that
  -- the same sequence makes of the index's first reading.
  pub apply_edits-replay :
      (es : List (Edit Parsed)) (index : SourceIndex Parsed) (f s i : Text)
      → get (apply_edits es index) f s i
        ≡ replay es (λ q. get index q.field_id q.scope q.identity) (source_key f s i)
  unfolding get
  apply_edits-replay es index f s i = replays es index _ (λ q. refl) (source_key f s i)
