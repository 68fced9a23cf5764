-- ===== src/Store/Index/Laws.antt =====
-- source_index.rs: the index is a finite map, whatever the order in which its entries stand.
use fieldnotes.Prelude.{
  ◌≡◌, refl, inl, inr, subst, text_eq_sound, text_eq_refl, true, false, none, some, List, [], ◌∷◌,
  Bool-cases, if◌then◌else◌, arith,
}
use fieldnotes.Store.Index.{SourceKey, key_eq, find_key, put_key, drop_key}

pub key_eq_refl : (a : SourceKey) → key_eq a a ≡ true
unfolding key_eq
key_eq_refl a = rw (text_eq_refl a.field_id, text_eq_refl a.scope, text_eq_refl a.identity) refl

pub key_eq_sound : (a b : SourceKey) → key_eq a b ≡ true → a ≡ b
unfolding key_eq
key_eq_sound a b h = cc (
  text_eq_sound a.field_id b.field_id (ground arith),
  text_eq_sound a.scope b.scope (ground arith),
  text_eq_sound a.identity b.identity (ground arith),
)

key_eq_other : (a b c : SourceKey) → key_eq a b ≡ true → key_eq a c ≡ key_eq b c
key_eq_other a b c h = subst (λ x. key_eq a c ≡ key_eq x c) (key_eq_sound a b h) refl

pub key_eq_sym : (a b : SourceKey) → key_eq a b ≡ key_eq b a
key_eq_sym a b = elim (Bool-cases (key_eq a b)) [
  | inl same ↦ subst (λ x. key_eq a x ≡ key_eq x a) (key_eq_sound a b same) refl
  | inr other ↦ elim (Bool-cases (key_eq b a)) [
    | inl same ↦ subst (λ x. key_eq x b ≡ key_eq b x) (key_eq_sound b a same) refl
    | inr not_equal ↦ cc
  ]
]

module _ {V : Type 0} where
  -- After an insertion, the key reads the new value and every other key what it read before.
  pub find_key-put_key :
      (k q : SourceKey) (v : V) (m : List (SourceKey × V))
      → find_key (put_key k v m) q ≡ (if key_eq k q then some v else find_key m q)
  unfolding find_key put_key
  find_key-put_key k q v [] = refl
  find_key-put_key k q v ((j, w) ∷ rest) =
      ground
        (arith, find_key-put_key k q v rest, key_eq_other j k q, key_eq_other j q k, key_eq_sym q k)

  pub find_key-drop_key :
      (k q : SourceKey) (m : List (SourceKey × V))
      → find_key (drop_key k m) q ≡ (if key_eq k q then none else find_key m q)
  unfolding find_key drop_key
  find_key-drop_key k q [] = ground arith
  find_key-drop_key k q ((j, w) ∷ rest) =
      ground
        (arith, find_key-drop_key k q rest, key_eq_other j k q, key_eq_other j q k, key_eq_sym q k)

  pub put_key-here :
      (k : SourceKey) (v : V) (m : List (SourceKey × V)) → find_key (put_key k v m) k ≡ some v
  put_key-here k v m = ground (arith, find_key-put_key k k v m, key_eq_refl k)

  pub put_key-elsewhere :
      (k q : SourceKey) (v : V) (m : List (SourceKey × V))
      → key_eq k q ≡ false
      → find_key (put_key k v m) q ≡ find_key m q
  put_key-elsewhere k q v m h = ground (arith, find_key-put_key k q v m)

  pub drop_key-here : (k : SourceKey) (m : List (SourceKey × V)) → find_key (drop_key k m) k ≡ none
  drop_key-here k m = ground (arith, find_key-drop_key k k m, key_eq_refl k)

  pub drop_key-elsewhere :
      (k q : SourceKey) (m : List (SourceKey × V))
      → key_eq k q ≡ false
      → find_key (drop_key k m) q ≡ find_key m q
  drop_key-elsewhere k q m h = ground (arith, find_key-drop_key k q m)
