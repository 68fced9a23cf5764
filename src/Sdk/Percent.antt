-- ===== src/Sdk/Percent.antt =====
-- crates/fieldnotes-field-sdk/src/percent.rs: percent-encoding of texts inside a cursor. Whether bytes
-- are valid UTF-8 is a parameter of `decode`.
use fieldnotes.Prelude.{
  ℕ, ◌+◌, ◌-◌, ◌*◌, ◌/◌, ◌%◌, ◌<◌, ◌≡◌, refl, ap, ◌∙◌, Text, Bool, true, false, ◌&&◌, ◌||◌, Option,
  none, some, [], ◌∷◌, leb, ◌==◌, if◌then◌else◌, from_digit, All, arith, Bool-cases, inl, inr,
}

abbrev pub is_ascii_alphanumeric : ℕ → Bool
is_ascii_alphanumeric b =
    leb b'0' b && leb b b'9' || leb b'A' b && leb b b'Z' || leb b'a' b && leb b b'z'

unfoldable pub is_safe : ℕ → Bool
is_safe b = is_ascii_alphanumeric b || (b == b'_') || (b == b'.') || (b == b'/') || (b == b'-')

unfoldable pub encode : Text → Text
encode [] = []
encode (b ∷ bs) =
    let rest = encode bs in
    if is_safe b then b ∷ rest else b'%' ∷ from_digit (b / 16) ∷ from_digit (b % 16) ∷ rest

unfoldable pub hex_value : ℕ → Option ℕ
hex_value b =
    if leb b'0' b && leb b b'9'
    then some (b - b'0')
    else if leb b'a' b && leb b b'f'
    then some (b - b'a' + 10)
    else if leb b'A' b && leb b b'F'
    then some (b - b'A' + 10)
    else none

abbrev pub push_byte : Option ℕ → Option ℕ → Option Text → Option Text
push_byte (some high) (some low) (some rest) = some ((high * 16 + low) ∷ rest)
push_byte _ _ _ = none

abbrev pub push_literal : ℕ → Option Text → Option Text
push_literal b none = none
push_literal b (some rest) = some (b ∷ rest)

-- The loop of `decode`: at a `%` it takes three bytes, elsewhere one.
unfoldable pub decode_bytes : Text → Option Text
decode_bytes [] = some []
decode_bytes (b ∷ []) = if b == b'%' then none else some (b ∷ [])
decode_bytes (b ∷ h ∷ []) =
    let rest = decode_bytes (h ∷ []) in if b == b'%' then none else push_literal b rest
decode_bytes (b ∷ h ∷ l ∷ bs) =
    let three = decode_bytes bs in
    let one = decode_bytes (h ∷ l ∷ bs) in
    if b == b'%' then push_byte (hex_value h) (hex_value l) three else push_literal b one

-- `String::from_utf8(decoded).ok()`
abbrev pub from_utf8 : (Text → Bool) → Option Text → Option Text
from_utf8 is_utf8 none = none
from_utf8 is_utf8 (some t) = if is_utf8 t then some t else none

unfoldable pub decode : (Text → Bool) → Text → Option Text
decode is_utf8 t = from_utf8 is_utf8 (decode_bytes t)

hex_value-from_digit : (n : ℕ) → n < 16 → hex_value (from_digit n) ≡ some n
unfolding hex_value from_digit
hex_value-from_digit n h = ground arith

safe_literal : (b : ℕ) → is_safe b ≡ true → (b == b'%') ≡ false
unfolding is_safe
safe_literal b h = ground arith

-- A byte that is no `%` is taken as it is, whatever follows it.
decode_bytes-literal :
    (b : ℕ) (t : Text)
    → (b == b'%') ≡ false
    → decode_bytes (b ∷ t) ≡ push_literal b (decode_bytes t)
unfolding decode_bytes
decode_bytes-literal b [] h = rw h refl
decode_bytes-literal b (c ∷ []) h = rw h refl
decode_bytes-literal b (c ∷ d ∷ t) h = rw h refl

decode_bytes-escaped :
    (b : ℕ) (t : Text)
    → b < 256
    → decode_bytes (b'%' ∷ from_digit (b / 16) ∷ from_digit (b % 16) ∷ t)
      ≡ push_literal b (decode_bytes t)
unfolding decode_bytes
decode_bytes-escaped b t h =
    rw
      (
        hex_value-from_digit (b / 16) (omega (arith, h)),
        hex_value-from_digit (b % 16) (omega arith),
      )
      (joined (decode_bytes t))
  where
    joined : (o : Option Text) → push_byte (some (b / 16)) (some (b % 16)) o ≡ push_literal b o
    joined none = refl
    joined (some rest) =
        let same : b / 16 * 16 + b % 16 ≡ b = omega arith in ap (λ c. some (c ∷ rest)) same

decode_bytes-encode : (t : Text) → All (λ b. b < 256) t → decode_bytes (encode t) ≡ some t
unfolding encode
decode_bytes-encode [] h = unfold decode_bytes in refl
decode_bytes-encode (b ∷ t) h = elim (Bool-cases (is_safe b)) [
  | inl safe ↦ rw safe (
      decode_bytes-literal b (encode t) (safe_literal b safe)
      ∙ ap (push_literal b) (decode_bytes-encode t h.1))
  | inr unsafe ↦
      rw unsafe
        (decode_bytes-escaped b (encode t) h.0 ∙ ap (push_literal b) (decode_bytes-encode t h.1))
]

-- Every text, as its bytes, is decoded from its encoding, where the bytes of a text are taken for UTF-8.
pub decode-encode :
    (is_utf8 : Text → Bool) (t : Text)
    → All (λ b. b < 256) t
    → is_utf8 t ≡ true
    → decode is_utf8 (encode t) ≡ some t
unfolding decode
decode-encode is_utf8 t h valid = ap (from_utf8 is_utf8) (decode_bytes-encode t h) ∙ rw valid refl
