-- ===== src/Domain/Ids/Uuids.antt =====
-- ids.rs: the text of a UUID parses to the UUID that it shows, and no other text does.
use fieldnotes.Prelude.{
  ℕ, zero, suc, ◌+◌, ◌*◌, ◌/◌, ◌%◌, ◌<◌, ◌≡◌, refl, sym, ap, subst, inl, inr, ◌∙◌, Text, true,
  false, Option, none, some, List, [], ◌∷◌, length, ltb, ◌==◌, if◌then◌else◌, arith, Bool-cases,
  get_or, ==_iff,
}
use fieldnotes.Domain.Ids.{
  hex_val, hex_digit, push_hex, Uuid7, is_hyphen_position, is_hyphen_index, uuid_nibbles,
  cons_nibble, pack, show_uuid_from,
}
use fieldnotes.Domain.Ids.RoundTrip.{IsBytes, hex_val-some, of_nibbles}

-- The position in the text of the byte with an index.
abbrev pub position : ℕ → ℕ
position i =
    2 * i
    + (if ltb 4 i then 1 else 0)
    + (if ltb 6 i then 1 else 0)
    + (if ltb 8 i then 1 else 0)
    + (if ltb 10 i then 1 else 0)

pub hyphen_at :
    (i : ℕ)
    → is_hyphen_index i ≡ true
    → (is_hyphen_position (position i) ≡ true)
      × (is_hyphen_position (suc (position i)) ≡ false)
      × (is_hyphen_position (suc (suc (position i))) ≡ false)
      × (position (suc i) ≡ suc (suc (suc (position i))))
unfolding is_hyphen_index is_hyphen_position
hyphen_at i h = ground arith

pub no_hyphen_at :
    (i : ℕ)
    → is_hyphen_index i ≡ false
    → (is_hyphen_position (position i) ≡ false)
      × (is_hyphen_position (suc (position i)) ≡ false)
      × (position (suc i) ≡ suc (suc (position i)))
unfolding is_hyphen_index is_hyphen_position
no_hyphen_at i h = ground arith

-- The digits of a byte list, as the loop of Display writes them once the hyphen is out.
abbrev pub after_hyphen : ℕ → List ℕ → Text
unfolding push_hex
after_hyphen i [] = []
after_hyphen i (b ∷ bs) = push_hex b (show_uuid_from (suc i) bs)

-- What `k` bytes read as shows, by a printer, as the text that was read.
pub record Pairs (show : List ℕ → Text) (raw : Text) (k : ℕ) (ns : List ℕ) : Type 0 where
  pub shown : raw ≡ show (pack ns)
  pub fits : IsBytes (pack ns)
  pub many : length (pack ns) ≡ k

cons_nibble-Pairs :
    (i k b c : ℕ) (raw : Text) (ns : List ℕ) (hi lo : Option ℕ) (later : Option (List ℕ))
    → hex_val b ≡ hi
    → hex_val c ≡ lo
    → ((ms : List ℕ) → later ≡ some ms → Pairs (show_uuid_from (suc i)) raw k ms)
    → cons_nibble hi (cons_nibble lo later) ≡ some ns
    → Pairs (after_hyphen i) (b ∷ c ∷ raw) (suc k) ns
unfolding push_hex pack
cons_nibble-Pairs i k b c raw ns none lo later p q r h = cc
cons_nibble-Pairs i k b c raw ns (some x) none later p q r h = cc
cons_nibble-Pairs i k b c raw ns (some x) (some y) none p q r h = cc
cons_nibble-Pairs i k b c raw ns (some x) (some y) (some ms) p q r h =
    subst (Pairs (after_hyphen i) (b ∷ c ∷ raw) (suc k)) same (record {
      shown = rw (hi, lo, sym rest.shown, b', c') refl;
      fits = (fits, rest.fits);
      many = ap suc rest.many;
    })
  where
    same : x ∷ y ∷ ms ≡ ns
    same = cc

    b' : b ≡ hex_digit x
    b' = (hex_val-some b x p).0

    c' : c ≡ hex_digit y
    c' = (hex_val-some c y q).0

    fits : x * 16 + y < 256
    fits = (of_nibbles x y (hex_val-some b x p).1 (hex_val-some c y q).1).0

    hi : (x * 16 + y) / 16 ≡ x
    hi = (of_nibbles x y (hex_val-some b x p).1 (hex_val-some c y q).1).1

    lo : (x * 16 + y) % 16 ≡ y
    lo = (of_nibbles x y (hex_val-some b x p).1 (hex_val-some c y q).1).2

    rest : Pairs (show_uuid_from (suc i)) raw k ms
    rest = r ms refl

pub record IsUuid (u : Uuid7) : Type 0 where
  pub fits : IsBytes u.bytes
  pub many : length u.bytes ≡ 16
  pub version : get_or u.bytes 6 0 / 16 ≡ 7
  pub variant : get_or u.bytes 8 0 / 64 ≡ 2

abbrev FromNext : ℕ → ℕ → Type 0
FromNext i k =
    (raw : Text) (ms : List ℕ)
    → length raw + position (suc i) ≡ 36
    → uuid_nibbles (position (suc i)) raw ≡ some ms
    → Pairs (show_uuid_from (suc i)) raw k ms

pair-Pairs :
    (k i p : ℕ) (raw : Text) (ns : List ℕ)
    → (is_hyphen_position p ≡ false)
      × (is_hyphen_position (suc p) ≡ false)
      × (position (suc i) ≡ suc (suc p))
    → length raw + p ≡ 36
    → suc p < 36
    → FromNext i k
    → uuid_nibbles p raw ≡ some ns
    → Pairs (after_hyphen i) raw (suc k) ns
unfolding uuid_nibbles
pair-Pairs k i p [] ns (x, y, z) e lt next h = absurd (omega (arith, e, lt))
pair-Pairs k i p (b ∷ []) ns (x, y, z) e lt next h = absurd (omega (arith, e, lt))
pair-Pairs k i p (b ∷ c ∷ raw) ns (x, y, z) e lt next h =
    cons_nibble-Pairs i k b c raw ns (hex_val b) (hex_val c) (uuid_nibbles (suc (suc p)) raw) refl
      refl (λ ms m. next raw ms (omega (arith, e, z)) (ap (λ q. uuid_nibbles q raw) z ∙ m))
      (sym (rw (x, y) refl) ∙ h)

pub show-after_hyphen :
    (i : ℕ) (bs : List ℕ) → is_hyphen_index i ≡ false → show_uuid_from i bs ≡ after_hyphen i bs
unfolding show_uuid_from
show-after_hyphen i [] h = refl
show-after_hyphen i (b ∷ bs) h = rw h refl

pub show-hyphen :
    (i k : ℕ) (bs : List ℕ)
    → is_hyphen_index i ≡ true
    → length bs ≡ suc k
    → show_uuid_from i bs ≡ b'-' ∷ after_hyphen i bs
unfolding show_uuid_from
show-hyphen i k [] h e = absurd (omega (arith, e))
show-hyphen i k (b ∷ bs) h e = rw h refl

hyphen-Pairs :
    (k i p : ℕ) (raw : Text) (ns : List ℕ)
    → is_hyphen_index i ≡ true
    → is_hyphen_position p ≡ true
    → length raw + p ≡ 36
    → p < 36
    → ((raw' : Text)
        → length raw' + suc p ≡ 36
        → uuid_nibbles (suc p) raw' ≡ some ns
        → Pairs (after_hyphen i) raw' (suc k) ns)
    → uuid_nibbles p raw ≡ some ns
    → Pairs (show_uuid_from i) raw (suc k) ns
unfolding uuid_nibbles
hyphen-Pairs k i p [] ns at_index at_position e lt next h = absurd (omega (arith, e, lt))
hyphen-Pairs k i p (b ∷ raw) ns at_index at_position e lt next h =
    let h' : (if b == b'-' then uuid_nibbles (suc p) raw else none) ≡ some ns =
      sym (rw at_position refl) ∙ h in
    elim (Bool-cases (b == b'-')) [
      | inl same ↦
          let rest = next raw (omega (arith, e)) (ground (arith, h', same)) in
          record {
            shown =
                ap (λ x. x ∷ raw) ((==_iff b b'-').0 same)
                ∙ ap (λ t. b'-' ∷ t) rest.shown
                ∙ sym (show-hyphen i k (pack ns) at_index rest.many);
            fits = rest.fits;
            many = rest.many;
          }
      | inr other ↦ ground (arith, h', other)
    ]

pub nibbles-Pairs :
    (k i : ℕ) (raw : Text) (ns : List ℕ)
    → i + k ≡ 16
    → length raw + position i ≡ 36
    → uuid_nibbles (position i) raw ≡ some ns
    → Pairs (show_uuid_from i) raw k ns
nibbles-Pairs zero i [] [] e l h = record {
  shown = unfold show_uuid_from pack in refl;
  fits = unfold pack in tt;
  many = unfold pack in refl;
}
nibbles-Pairs zero i [] (n ∷ ns) e l h = absurd (unfold uuid_nibbles in cc)
nibbles-Pairs zero i (b ∷ raw) ns e l h = absurd (ground (arith, e, l))
nibbles-Pairs (suc k) i raw ns e l h = elim (Bool-cases (is_hyphen_index i)) [
  | inl at_index ↦
      let (x, y, z, w) = hyphen_at i at_index in
      hyphen-Pairs k i (position i) raw ns at_index x l (ground (arith, e))
        (λ raw' l' h'.
          pair-Pairs k i (suc (position i)) raw' ns (y, z, w) l' (ground (arith, e))
            (λ t ms. nibbles-Pairs k (suc i) t ms (omega (arith, e))) h')
        h
  | inr off_index ↦
      let rest =
        pair-Pairs k i (position i) raw ns (no_hyphen_at i off_index) l (ground (arith, e))
          (λ t ms. nibbles-Pairs k (suc i) t ms (omega (arith, e))) h in
      record {
        shown = rest.shown ∙ sym (show-after_hyphen i (pack ns) off_index);
        fits = rest.fits;
        many = rest.many;
      }
]
