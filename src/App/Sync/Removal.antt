-- ===== src/App/Sync/Removal.antt =====
-- sync/mod.rs, remove_absent_notes: which notes the end of a run removes, and on whose authority.
use fieldnotes.Prelude.{
  ℕ, ◌+◌, ◌≡◌, ◌⊎◌, inl, inr, refl, sym, ap, subst, ◌∙◌, Text, text_eq, text_eq_sound,
  text_eq_complete, Bool, true, false, not, ◌&&◌, ◌||◌, Option, none, some, List, [], ◌∷◌, any,
  if◌then◌else◌, arith, Bool-cases,
}
use fieldnotes.Store.Index.{
  IndexedNote, SourceIndex, SourceKey, source_key, key_eq, find_key, in_scope, get, remove,
}
use fieldnotes.Store.Index.Laws.{find_key-drop_key, key_eq_refl, key_eq_sound}
use fieldnotes.App.Sync.State.{Outside, CollectContext, Run}
use fieldnotes.App.Sync.Collect.{contains_pair}
use fieldnotes.App.Sync.Ending.{absent_keys, removed_one, remove_found, remove_keys}

-- The key of a field's note is among these pairs.
abbrev pub among : Text → List (Text × Text) → SourceKey → Bool
among field_id ks q = any (λ k. key_eq (source_key field_id k.0 k.1) q) ks

module _ {W Parsed Candidate : Type 0} (out : Outside W Parsed Candidate)
    (context : CollectContext) where
  -- What the removal of keys does to the index, whether it ends or fails on the way.
  pub record Removes (ks : List (Text × Text)) (before : SourceIndex Parsed)
      (x : Option ℕ × Run W Parsed) : Type 0 where
    pub others :
        (q : SourceKey)
        → among context.field_id ks q ≡ false
        → find_key x.1.index.notes q ≡ find_key before.notes q
    pub shrinks :
        (q : SourceKey)
        → (find_key x.1.index.notes q ≡ find_key before.notes q)
          ⊎ (find_key x.1.index.notes q ≡ none)
    pub gone :
        (q : SourceKey) (m : ℕ)
        → x.0 ≡ some m
        → among context.field_id ks q ≡ true
        → find_key x.1.index.notes q ≡ none

  -- One key more, absent from the index or removed from it.
  Removes-cons :
      (k : Text × Text) (ks : List (Text × Text)) (before middle : SourceIndex Parsed)
      (x : Option ℕ × Run W Parsed)
      → ((q : SourceKey)
          → find_key middle.notes q ≡ (
              if key_eq (source_key context.field_id k.0 k.1) q
              then none
              else find_key before.notes q))
      → Removes ks middle x
      → Removes (k ∷ ks) before x
  Removes-cons k ks before middle x step v = record {
    others = λ q h. ground (arith, v.others q, step q);
    shrinks = λ q. ground (arith, v.shrinks q, step q);
    gone = λ q m e h. ground (arith, v.gone q m e, v.shrinks q, step q);
  }

  Removes-none :
      (ks : List (Text × Text)) (before : SourceIndex Parsed) (r : Run W Parsed)
      → r.index ≡ before
      → Removes ks before (none, r)
  Removes-none ks before r same = record {
    others = λ q h. ap (λ i. find_key i.notes q) same;
    shrinks = λ q. inl (ap (λ i. find_key i.notes q) same);
    gone = λ q m e h. cc;
  }

  -- The index without the key, where the key was not there to begin with.
  absent_step :
      (m : List (SourceKey × IndexedNote Parsed)) (k q : SourceKey)
      → find_key m k ≡ none
      → find_key m q ≡ (if key_eq k q then none else find_key m q)
  absent_step m k q h = elim (Bool-cases (key_eq k q)) [
    | inl same ↦ rw same (subst (λ x. find_key m x ≡ none) (key_eq_sound k q same) h)
    | inr other ↦ rw other refl
  ]

  pub remove_keys-Removes :
      (ks : List (Text × Text)) (n : ℕ) (r : Run W Parsed)
      → Removes ks r.index (remove_keys out context ks n r)
  unfolding remove_keys get remove
  remove_keys-Removes [] n r = record {
    others = λ q h. refl;
    shrinks = λ q. inl refl;
    gone = λ q m e h. cc;
  }
  remove_keys-Removes (k ∷ ks) n r =
      found (find_key r.index.notes key) refl (λ n' r'. remove_keys-Removes ks n' r')
    where
      key : SourceKey
      key = source_key context.field_id k.0 k.1

      removed :
          (x : Option Bool × W)
          → ((n' : ℕ) (r' : Run W Parsed) → Removes ks r'.index (remove_keys out context ks n' r'))
          → Removes (k ∷ ks) r.index (removed_one out context k (remove_keys out context ks) n x r)
      removed (none, w) rest = Removes-none (k ∷ ks) r.index (record r { world = w }) refl
      removed (some b, w) rest =
          Removes-cons k ks r.index (remove context.field_id k.0 k.1 r.index) _
            (λ q. find_key-drop_key key q r.index.notes)
            (rest (n + 1) (record r { world = w; index = remove context.field_id k.0 k.1 r.index }))

      found :
          (o : Option (IndexedNote Parsed))
          → find_key r.index.notes key ≡ o
          → ((n' : ℕ) (r' : Run W Parsed) → Removes ks r'.index (remove_keys out context ks n' r'))
          → Removes (k ∷ ks) r.index (remove_found out context k (remove_keys out context ks) n o r)
      found none h rest =
          Removes-cons k ks r.index r.index _ (λ q. absent_step r.index.notes key q h) (rest n r)
      found (some note) h rest = removed (out.remove_note note.filename r.world) rest

  -- A key that lies in the field and the scope, and that the run did not report.
  pub record Unreported (scope : Text) (reported : List (Text × Text)) (q : SourceKey)
      : Type 0 where
    pub field : q.field_id ≡ context.field_id
    pub in_the_scope : q.scope ≡ scope
    pub not_reported : contains_pair reported (q.scope, q.identity) ≡ false

  abbrev pub absent :
      Text → List (Text × Text) → List (SourceKey × IndexedNote Parsed) → List (Text × Text)
  absent scope reported m = absent_keys out context reported (in_scope context.field_id scope m)

  abbrev within : Text → SourceKey → Bool
  within scope j = text_eq j.field_id context.field_id && text_eq j.scope scope

  -- The entry in front is one of the absent ones where it lies in the scope and was not reported.
  among-absent :
      (scope : Text) (reported : List (Text × Text)) (j : SourceKey) (v : IndexedNote Parsed)
      (m : List (SourceKey × IndexedNote Parsed)) (q : SourceKey)
      → among context.field_id (absent scope reported ((j, v) ∷ m)) q ≡ (
          within scope j
            && not (contains_pair reported (j.scope, j.identity))
            && key_eq (source_key context.field_id j.scope j.identity) q
          || among context.field_id (absent scope reported m) q)
  unfolding absent_keys in_scope
  among-absent scope reported j v m q = elim (Bool-cases (within scope j)) [
    | inr outside ↦ rw outside refl
    | inl inside ↦ rw inside (elim (Bool-cases (contains_pair reported (j.scope, j.identity))) [
      | inl known ↦ rw known refl
      | inr unknown ↦ rw unknown refl
    ])
  ]

  -- An entry that is listed names the key that it is listed for.
  listed-Unreported :
      (scope : Text) (reported : List (Text × Text)) (j q : SourceKey)
      → within scope j ≡ true
      → contains_pair reported (j.scope, j.identity) ≡ false
      → key_eq (source_key context.field_id j.scope j.identity) q ≡ true
      → Unreported scope reported q
  listed-Unreported scope reported j q inside unknown same =
      subst (Unreported scope reported)
        (key_eq_sound (source_key context.field_id j.scope j.identity) q same)
        (record {
          field = refl;
          in_the_scope = text_eq_sound j.scope scope (ground (arith, inside));
          not_reported = unknown;
        })

  pub absent-Unreported :
      (scope : Text) (reported : List (Text × Text)) (m : List (SourceKey × IndexedNote Parsed))
      (q : SourceKey)
      → among context.field_id (absent scope reported m) q ≡ true
      → Unreported scope reported q
  absent-Unreported scope reported [] q h = unfold absent_keys in_scope in cc
  absent-Unreported scope reported ((j, v) ∷ m) q h =
      elim (Bool-cases (among context.field_id (absent scope reported m) q)) [
        | inl later ↦ absent-Unreported scope reported m q later
        | inr here ↦
            let h' = sym (among-absent scope reported j v m q) ∙ h in
            listed-Unreported scope reported j q (ground (arith, h', here))
              (ground (arith, h', here)) (ground (arith, h', here))
      ]

  -- An unreported key of the scope is listed when the index has it.
  Unreported-listed :
      (scope : Text) (reported : List (Text × Text)) (q : SourceKey)
      → Unreported scope reported q
      → (within scope q
          && not (contains_pair reported (q.scope, q.identity))
          && key_eq (source_key context.field_id q.scope q.identity) q)
        ≡ true
  Unreported-listed scope reported q u =
      let own : key_eq (source_key context.field_id q.scope q.identity) q ≡ true =
        subst (λ f. key_eq (source_key f q.scope q.identity) q ≡ true) u.field (key_eq_refl q) in
      ground (
        arith,
        own,
        u.not_reported,
        text_eq_complete q.field_id context.field_id u.field,
        text_eq_complete q.scope scope u.in_the_scope,
      )

  -- Every unreported key of the scope that the index has is among the absent ones.
  pub Unreported-absent :
      (scope : Text) (reported : List (Text × Text)) (m : List (SourceKey × IndexedNote Parsed))
      (q : SourceKey)
      → Unreported scope reported q
      → among context.field_id (absent scope reported m) q ≡ false
      → find_key m q ≡ none
  unfolding find_key
  Unreported-absent scope reported [] q u h = refl
  Unreported-absent scope reported ((j, v) ∷ m) q u h =
      let h' = sym (among-absent scope reported j v m q) ∙ h in
      let later = Unreported-absent scope reported m q u (ground (arith, h')) in
      elim (Bool-cases (key_eq j q)) [
        | inr other ↦ rw other later
        | inl same ↦
            let listed =
              subst
                (λ x.
                  (within scope x
                    && not (contains_pair reported (x.scope, x.identity))
                    && key_eq (source_key context.field_id x.scope x.identity) q)
                  ≡ true)
                (sym (key_eq_sound j q same)) (Unreported-listed scope reported q u) in
            ground (arith, h', listed)
      ]
