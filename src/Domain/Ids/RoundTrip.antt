-- ===== src/Domain/Ids/RoundTrip.antt =====
-- ids.rs: the texts of IDs parse to the IDs that they show.
use fieldnotes.Prelude.{
  ℕ, zero, suc, ◌+◌, ◌*◌, ◌/◌, ◌%◌, ◌<◌, ◌≡◌, ◌↔◌, refl, sym, ap, inl, inr, ◌∙◌, Text, Bool, true,
  false, Option, none, some, List, [], ◌∷◌, ◌++◌, length, ◌==◌, if◌then◌else◌, All, arith,
  strip_prefix, Bool-cases, ==_iff, of_not,
}
use fieldnotes.Domain.Ids.{
  hex_val, hex_digit, push_hex, digest_bytes, hex_text, ArtifactId, artifact_prefix,
  parse_artifact_id, show_artifact_id, digest_of, parse_digest, valid, invalid, cons_byte, IdResult,
}

abbrev pub IsBytes : List ℕ → Type 0
IsBytes = All (λ b. b < 256)

pub hex_val-hex_digit : (n : ℕ) → n < 16 → hex_val (hex_digit n) ≡ some n
unfolding hex_val hex_digit
hex_val-hex_digit n h = ground arith

pub hex_val-some : (b n : ℕ) → hex_val b ≡ some n → (b ≡ hex_digit n) × (n < 16)
unfolding hex_val hex_digit
hex_val-some b n h = ground arith

pub nibbles : (b : ℕ) → b < 256 → (b / 16 < 16) × (b % 16 < 16) × (b / 16 * 16 + b % 16 ≡ b)
nibbles b h = (omega arith, omega arith, omega arith)

pub of_nibbles :
    (h l : ℕ)
    → h < 16
    → l < 16
    → (h * 16 + l < 256) × ((h * 16 + l) / 16 ≡ h) × ((h * 16 + l) % 16 ≡ l)
of_nibbles h l p q = (omega arith, omega arith, omega arith)

pub strip_prefix-append : (p s : Text) → strip_prefix p (p ++ s) ≡ some s
unfolding strip_prefix
strip_prefix-append [] s = refl
strip_prefix-append (c ∷ p) s = ground (arith, strip_prefix-append p s)

pub strip_prefix-some : (p t s : Text) → strip_prefix p t ≡ some s → t ≡ p ++ s
unfolding strip_prefix
strip_prefix-some [] t s h = ground arith
strip_prefix-some (c ∷ p) [] s h = ground arith
strip_prefix-some (c ∷ p) (d ∷ t) s h = elim (Bool-cases (c == d)) [
  | inl same ↦ cc ((==_iff c d).0 same, strip_prefix-some p t s (ground arith))
  | inr other ↦ ground arith
]

digest_bytes-hex_text : (bs : List ℕ) → IsBytes bs → digest_bytes (hex_text bs) ≡ some bs
unfolding digest_bytes hex_text push_hex
digest_bytes-hex_text [] h = refl
digest_bytes-hex_text (b ∷ bs) h =
    let (p, q, e) = nibbles b h.0 in
    rw (hex_val-hex_digit (b / 16) p, hex_val-hex_digit (b % 16) q, digest_bytes-hex_text bs h.1, e)
      refl

length-hex_text : (bs : List ℕ) → length (hex_text bs) ≡ 2 * length bs
unfolding hex_text push_hex
length-hex_text [] = refl
length-hex_text (b ∷ bs) = omega (arith, length-hex_text bs)

-- What the digits of a digest read as shows as these digits.
record Digits (raw : Text) (n : ℕ) (bs : List ℕ) : Type 0 where
  shown : raw ≡ hex_text bs
  fits : IsBytes bs
  many : length bs ≡ n

cons_byte-Digits :
    (b c : ℕ) (raw : Text) (n : ℕ) (bs : List ℕ) (hi lo : Option ℕ) (later : Option (List ℕ))
    → hex_val b ≡ hi
    → hex_val c ≡ lo
    → ((ds : List ℕ) → later ≡ some ds → Digits raw n ds)
    → cons_byte hi lo later ≡ some bs
    → Digits (b ∷ c ∷ raw) (suc n) bs
unfolding hex_text push_hex
cons_byte-Digits b c raw n bs none lo later p q r h = cc
cons_byte-Digits b c raw n bs (some x) none later p q r h = cc
cons_byte-Digits b c raw n bs (some x) (some y) none p q r h = cc
cons_byte-Digits b c raw n [] (some x) (some y) (some ds) p q r h = cc
cons_byte-Digits b c raw n (d ∷ bs) (some x) (some y) (some ds) p q r h =
    let (b', x') = hex_val-some b x p in
    let (c', y') = hex_val-some c y q in
    let (fits, hi, lo) = of_nibbles x y x' y' in
    let rest = r ds refl in
    let head : x * 16 + y ≡ d = cc in
    let tail : ds ≡ bs = cc in
    record {
      shown = rw (sym tail, sym head, hi, lo, sym rest.shown, b', c') refl;
      fits = (rw (sym head) fits, rw (sym tail) rest.fits);
      many = rw (sym tail) (ap suc rest.many);
    }

digest_bytes-Digits :
    (raw : Text) (n : ℕ) (bs : List ℕ)
    → length raw ≡ 2 * n
    → digest_bytes raw ≡ some bs
    → Digits raw n bs
unfolding digest_bytes
digest_bytes-Digits [] n [] e h = record {
  shown = unfold hex_text in refl;
  fits = tt;
  many = omega arith;
}
digest_bytes-Digits [] n (x ∷ bs) e h = cc
digest_bytes-Digits (b ∷ []) n bs e h = absurd (omega arith)
digest_bytes-Digits (b ∷ c ∷ raw) zero bs e h = absurd (omega arith)
digest_bytes-Digits (b ∷ c ∷ raw) (suc n) bs e h =
    cons_byte-Digits b c raw n bs (hex_val b) (hex_val c) (digest_bytes raw) refl refl
      (λ ds. digest_bytes-Digits raw n ds (omega arith)) h

pub record IsDigest (id : ArtifactId) : Type 0 where
  pub bytes : IsBytes id.digest
  pub long : length id.digest ≡ 32

pub if_invalid :
    {A : Type 0} (b : Bool) (e : _) (r : IdResult A) (a : A)
    → (if b then invalid e else r) ≡ valid a
    → (b ≡ false) × (r ≡ valid a)
if_invalid true e r a h = cc
if_invalid false e r a h = (refl, h)

digest_of-some :
    (o : Option (List ℕ)) (id : ArtifactId) → digest_of o ≡ valid id → o ≡ some id.digest
unfolding digest_of
digest_of-some none id h = cc
digest_of-some (some bs) id h = ap_digest cc
  where
    ap_digest : record { digest = bs } ≡ id → some bs ≡ some id.digest
    ap_digest e = ap (λ i. some i.digest) e

parse_digest-shown :
    (o : Option Text) (id : ArtifactId)
    → parse_digest o ≡ valid id
    → (o ≡ some (hex_text id.digest)) × IsDigest id
unfolding parse_digest
parse_digest-shown none id h = cc
parse_digest-shown (some raw) id h =
    let (long, e) = if_invalid _ _ (digest_of (digest_bytes raw)) id h in
    let d =
      digest_bytes-Digits raw 32 id.digest (ground (arith, of_not (length raw == 64) long))
        (digest_of-some (digest_bytes raw) id e) in
    (ap (λ s. some s) d.shown, record { bytes = d.fits; long = d.many })

shown-parse_digest :
    (id : ArtifactId) → IsDigest id → parse_digest (some (hex_text id.digest)) ≡ valid id
unfolding parse_digest digest_of
shown-parse_digest id d =
    rw (length-hex_text id.digest, d.long, digest_bytes-hex_text id.digest d.bytes) refl

-- A text parses to an artifact ID exactly when it is the text of that ID and the ID's digest is 32
-- bytes.
pub parse_artifact_id_iff :
    (t : Text) (id : ArtifactId)
    → (parse_artifact_id t ≡ valid id) ↔ ((t ≡ show_artifact_id id) × IsDigest id)
unfolding parse_artifact_id show_artifact_id
parse_artifact_id_iff t id = (
  (λ h.
      let (o, d) = parse_digest-shown (strip_prefix artifact_prefix t) id h in
      (strip_prefix-some artifact_prefix t (hex_text id.digest) o, d)),
  λ (e, d).
      ap (λ s. parse_digest (strip_prefix artifact_prefix s)) e
      ∙ ap parse_digest (strip_prefix-append artifact_prefix (hex_text id.digest))
      ∙ shown-parse_digest id d,
)
