-- ===== src/Domain/Ids/UuidText.antt =====
-- ids.rs: a text parses to a UUID exactly when it is the UUID's text.
use fieldnotes.Prelude.{
  ℕ, suc, ◌+◌, ◌/◌, ◌%◌, ◌<◌, ◌≡◌, ◌↔◌, refl, sym, ap, subst, inl, inr, ◌∙◌, Text, true, false,
  Option, none, some, List, [], ◌∷◌, length, arith, Bool-cases, get_or, ==_iff, of_not,
}
use fieldnotes.Domain.Ids.{
  push_hex, valid, Uuid7, is_hyphen_position, is_hyphen_index, uuid_nibbles, pack, show_uuid_from,
  show_uuid, parse_uuid, checked_nibbles, check_bits,
}
use fieldnotes.Domain.Ids.RoundTrip.{IsBytes, hex_val-hex_digit, nibbles, if_invalid}
use fieldnotes.Domain.Ids.Uuids.{
  position, hyphen_at, no_hyphen_at, IsUuid, show-after_hyphen, show-hyphen, nibbles-Pairs,
}

unpack : List ℕ → List ℕ
unpack [] = []
unpack (b ∷ bs) = b / 16 ∷ b % 16 ∷ unpack bs

pack-unpack : (bs : List ℕ) → IsBytes bs → pack (unpack bs) ≡ bs
unfolding pack unpack
pack-unpack [] h = refl
pack-unpack (b ∷ bs) h = let (p, q, e) = nibbles b h.0 in rw (e, pack-unpack bs h.1) refl

pair_read :
    (p b : ℕ) (raw : Text) (ns : List ℕ)
    → b < 256
    → is_hyphen_position p ≡ false
    → is_hyphen_position (suc p) ≡ false
    → uuid_nibbles (suc (suc p)) raw ≡ some ns
    → uuid_nibbles p (push_hex b raw) ≡ some (b / 16 ∷ b % 16 ∷ ns)
unfolding uuid_nibbles push_hex
pair_read p b raw ns h x y e =
    let (lt, lt', _) = nibbles b h in
    rw (x, y, hex_val-hex_digit (b / 16) lt, hex_val-hex_digit (b % 16) lt', e) refl

hyphen_read :
    (p : ℕ) (raw : Text)
    → is_hyphen_position p ≡ true
    → uuid_nibbles p (b'-' ∷ raw) ≡ uuid_nibbles (suc p) raw
unfolding uuid_nibbles
hyphen_read p raw h = rw h refl

-- What a list of bytes shows as, from an index on, is read from its position on as its digits.
record Reads (i : ℕ) (bs : List ℕ) : Type 0 where
  digits : uuid_nibbles (position i) (show_uuid_from i bs) ≡ some (unpack bs)
  long : length (show_uuid_from i bs) + position i ≡ 36

show-Reads : (i : ℕ) (bs : List ℕ) → IsBytes bs → i + length bs ≡ 16 → Reads i bs
unfolding unpack push_hex
show-Reads i [] h e = record {
  digits = unfold uuid_nibbles show_uuid_from in refl;
  long = unfold show_uuid_from in ground (arith, e);
}
show-Reads i (b ∷ bs) h e =
    let rest = show-Reads (suc i) bs h.1 (omega (arith, e)) in
    elim (Bool-cases (is_hyphen_index i)) [
      | inl at_index ↦
          let (x, y, z, w) = hyphen_at i at_index in
          let shown = show-hyphen i (length bs) (b ∷ bs) at_index refl in
          record {
            digits = rw shown (
                hyphen_read (position i) _ x
                ∙ pair_read (suc (position i)) b _ (unpack bs) h.0 y z
                    (ap (λ q. uuid_nibbles q (show_uuid_from (suc i) bs)) (sym w) ∙ rest.digits));
            long = rw shown (omega (arith, rest.long, w));
          }
      | inr off_index ↦
          let (x, y, z) = no_hyphen_at i off_index in
          let shown = show-after_hyphen i (b ∷ bs) off_index in
          record {
            digits = rw shown (
                pair_read (position i) b _ (unpack bs) h.0 x y
                  (ap (λ q. uuid_nibbles q (show_uuid_from (suc i) bs)) (sym z) ∙ rest.digits));
            long = rw shown (omega (arith, rest.long, z));
          }
    ]

check_bits-valid :
    (bs : List ℕ) (u : Uuid7)
    → check_bits bs ≡ valid u
    → (bs ≡ u.bytes) × (get_or bs 6 0 / 16 ≡ 7) × (get_or bs 8 0 / 64 ≡ 2)
unfolding check_bits
check_bits-valid bs u h =
    let (version, h') = if_invalid _ _ _ u h in
    let (variant, h'') = if_invalid _ _ _ u h' in
    (
      bytes_of h'',
      (==_iff (get_or bs 6 0 / 16) 7).0 (of_not _ version),
      (==_iff (get_or bs 8 0 / 64) 2).0 (of_not _ variant),
    )
  where
    bytes_of : valid (record { bytes = bs }) ≡ valid u → bs ≡ u.bytes
    bytes_of e = let e' : record { bytes = bs } ≡ u = cc in ap (λ w. w.bytes) e'

checked_nibbles-valid :
    (o : Option (List ℕ)) (u : Uuid7)
    → checked_nibbles o ≡ valid u
    → (ns : List ℕ) × (o ≡ some ns) × (check_bits (pack ns) ≡ valid u)
unfolding checked_nibbles
checked_nibbles-valid none u h = cc
checked_nibbles-valid (some ns) u h = (ns, refl, h)

unpack-checked : (u : Uuid7) → IsUuid u → checked_nibbles (some (unpack u.bytes)) ≡ valid u
unfolding checked_nibbles check_bits
unpack-checked u v = rw (pack-unpack u.bytes v.fits, v.version, v.variant) refl

-- A text parses to a UUID exactly when it is the text of that UUID, which has sixteen bytes, version 7
-- and the variant `10`.
pub parse_uuid_iff :
    (t : Text) (u : Uuid7) → (parse_uuid t ≡ valid u) ↔ ((t ≡ show_uuid u) × IsUuid u)
unfolding parse_uuid show_uuid
parse_uuid_iff t u = (
  (λ h.
      let (long, h') = if_invalid _ _ _ u h in
      let (ns, read, checked) = checked_nibbles-valid (uuid_nibbles 0 t) u h' in
      let (same, version, variant) = check_bits-valid (pack ns) u checked in
      let p =
        nibbles-Pairs 16 0 t ns refl (omega (arith, (==_iff (length t) 36).0 (of_not _ long)))
          read in
      (
        p.shown ∙ ap (show_uuid_from 0) same,
        record {
          fits = subst IsBytes same p.fits;
          many = ap length (sym same) ∙ p.many;
          version = subst (λ bs. get_or bs 6 0 / 16 ≡ 7) same version;
          variant = subst (λ bs. get_or bs 8 0 / 64 ≡ 2) same variant;
        },
      )),
  λ (e, v).
      let r = show-Reads 0 u.bytes v.fits (omega (arith, v.many)) in
      let long : length (show_uuid_from 0 u.bytes) ≡ 36 = omega (arith, r.long) in
      rw (e, long) (ap checked_nibbles r.digits ∙ unpack-checked u v),
)
