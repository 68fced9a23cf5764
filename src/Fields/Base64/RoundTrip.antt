-- ===== src/Fields/Base64/RoundTrip.antt =====
-- base64.rs against an encoder written from RFC 4648, section 4.
use fieldnotes.Prelude.{
  ℕ, suc, ◌+◌, ◌-◌, ◌*◌, ◌/◌, ◌%◌, ◌<◌, ◌≤◌, ◌≡◌, refl, ap, ◌∙◌, Text, true, false, some, List, [],
  ◌∷◌, length, ltb, ◌==◌, if◌then◌else◌, All, arith,
}
use fieldnotes.Fields.Base64.{
  decodes, sextet, payload, kind_of, push_sextet, scan, scan_byte, scan_payload, packed, unpack,
  expected_padding, expects, finish, decode,
}

-- The character of a sextet.
unfoldable pub digit : ℕ → ℕ
digit n =
    if ltb n 26
    then b'A' + n
    else if ltb n 52
    then b'a' + (n - 26)
    else if ltb n 62
    then b'0' + (n - 52)
    else if n == 62
    then b'+'
    else b'/'

unfoldable pub reference_encode : Text → Text
unfolding digit
reference_encode [] = []
reference_encode (x ∷ []) = digit (x / 4) ∷ digit (x % 4 * 16) ∷ b'=' ∷ b'=' ∷ []
reference_encode (x ∷ y ∷ []) =
    digit (x / 4) ∷ digit (x % 4 * 16 + y / 16) ∷ digit (y % 16 * 4) ∷ b'=' ∷ []
reference_encode (x ∷ y ∷ z ∷ rest) =
    digit (x / 4)
    ∷ digit (x % 4 * 16 + y / 16)
    ∷ digit (y % 16 * 4 + z / 64)
    ∷ digit (z % 64)
    ∷ reference_encode rest

kind_of-digit : (n : ℕ) → n < 64 → kind_of (digit n) ≡ payload (some n)
unfolding kind_of digit sextet
kind_of-digit n h = ground arith

scan-digit : (n : ℕ) (t : Text) → n < 64 → scan 0 (digit n ∷ t) ≡ push_sextet n (scan 0 t)
unfolding scan scan_byte scan_payload
scan-digit n t h = ap (λ k. scan_byte k 0 (λ p. scan p t)) (kind_of-digit n h)

sextets : Text → List ℕ
sextets [] = []
sextets (x ∷ []) = x / 4 ∷ (x % 4 * 16) ∷ []
sextets (x ∷ y ∷ []) = x / 4 ∷ (x % 4 * 16 + y / 16) ∷ (y % 16 * 4) ∷ []
sextets (x ∷ y ∷ z ∷ rest) =
    x / 4 ∷ (x % 4 * 16 + y / 16) ∷ (y % 16 * 4 + z / 64) ∷ z % 64 ∷ sextets rest

padding_of : Text → ℕ
padding_of [] = 0
padding_of (x ∷ []) = 2
padding_of (x ∷ y ∷ []) = 1
padding_of (x ∷ y ∷ z ∷ rest) = padding_of rest

abbrev IsBytes : Text → Type 0
IsBytes = All (λ b. b < 256)

scan-two : scan 0 (b'=' ∷ b'=' ∷ []) ≡ decodes ([], 2)
unfolding scan scan_byte kind_of
scan-two = refl

scan-one : scan 0 (b'=' ∷ []) ≡ decodes ([], 1)
unfolding scan scan_byte kind_of
scan-one = refl

scan-reference_encode :
    (t : Text) → IsBytes t → scan 0 (reference_encode t) ≡ decodes (sextets t, padding_of t)
unfolding reference_encode sextets padding_of
scan-reference_encode [] h = unfold scan in refl
scan-reference_encode (x ∷ []) h =
    scan-digit (x / 4) _ (omega (arith, h.0))
    ∙ ap (push_sextet (x / 4)) (
        scan-digit (x % 4 * 16) (b'=' ∷ b'=' ∷ []) (omega arith)
        ∙ ap (push_sextet (x % 4 * 16)) scan-two)
scan-reference_encode (x ∷ y ∷ []) h =
    scan-digit (x / 4) _ (omega (arith, h.0))
    ∙ ap (push_sextet (x / 4)) (
        scan-digit (x % 4 * 16 + y / 16) _ (omega (arith, h.1.0))
        ∙ ap (push_sextet (x % 4 * 16 + y / 16)) (
            scan-digit (y % 16 * 4) (b'=' ∷ []) (omega arith)
            ∙ ap (push_sextet (y % 16 * 4)) scan-one))
scan-reference_encode (x ∷ y ∷ z ∷ t) h =
    scan-digit (x / 4) _ (omega (arith, h.0))
    ∙ ap (push_sextet (x / 4)) (
        scan-digit (x % 4 * 16 + y / 16) _ (omega (arith, h.1.0))
        ∙ ap (push_sextet (x % 4 * 16 + y / 16)) (
            scan-digit (y % 16 * 4 + z / 64) _ (omega (arith, h.1.1.0))
            ∙ ap (push_sextet (y % 16 * 4 + z / 64)) (
                scan-digit (z % 64) (reference_encode t) (omega arith)
                ∙ ap (push_sextet (z % 64)) (scan-reference_encode t h.1.1.1))))

one_left : (x : ℕ) → x < 256 → unpack (x / 4 ∷ (x % 4 * 16) ∷ []) ≡ decodes (x ∷ [])
unfolding unpack
one_left x h =
    let whole : (x / 4 * 4 + x % 4 * 16 / 16) % 256 ≡ x = omega (arith, h) in
    let canonical : (x % 4 * 16 % 16 == 0) ≡ true = ground arith in rw (canonical, whole) refl

two_left :
    (x y : ℕ)
    → x < 256
    → y < 256
    → unpack (x / 4 ∷ (x % 4 * 16 + y / 16) ∷ (y % 16 * 4) ∷ []) ≡ decodes (x ∷ y ∷ [])
unfolding unpack
two_left x y h h' =
    let first : (x / 4 * 4 + (x % 4 * 16 + y / 16) / 16) % 256 ≡ x = omega (arith, h, h') in
    let second : ((x % 4 * 16 + y / 16) * 16 + y % 16 * 4 / 4) % 256 ≡ y = omega (arith, h, h') in
    let canonical : (y % 16 * 4 % 4 == 0) ≡ true = ground arith in
    rw (canonical, first, second) refl

packed-sextets :
    (x y z : ℕ)
    → y < 256
    → z < 256
    → packed (x / 4) (x % 4 * 16 + y / 16) (y % 16 * 4 + z / 64) (z % 64) ≡ x * 65_536 + y * 256 + z
packed-sextets x y z h h' = omega (arith, h, h')

bytes_of_group :
    (x y z : ℕ)
    → x < 256
    → y < 256
    → z < 256
    → ((x * 65_536 + y * 256 + z) / 65_536 % 256 ≡ x)
      × ((x * 65_536 + y * 256 + z) / 256 % 256 ≡ y)
      × ((x * 65_536 + y * 256 + z) % 256 ≡ z)
bytes_of_group x y z h h' h'' =
    (omega (arith, h, h', h''), omega (arith, h, h', h''), omega (arith, h''))

one_group :
    (x y z : ℕ) (ns : List ℕ) (t : Text)
    → x < 256
    → y < 256
    → z < 256
    → unpack ns ≡ decodes t
    → unpack (x / 4 ∷ (x % 4 * 16 + y / 16) ∷ (y % 16 * 4 + z / 64) ∷ z % 64 ∷ ns)
      ≡ decodes (x ∷ y ∷ z ∷ t)
unfolding unpack
one_group x y z ns t h h' h'' rest =
    let (first, second, third) = bytes_of_group x y z h h' h'' in
    rw (packed-sextets x y z h' h'', first, second, third, rest) refl

-- What the groups of a text's sextets decode to.
unpack-sextets : (t : Text) → IsBytes t → unpack (sextets t) ≡ decodes t
unfolding sextets
unpack-sextets [] h = unfold unpack in refl
unpack-sextets (x ∷ []) h = one_left x h.0
unpack-sextets (x ∷ y ∷ []) h = two_left x y h.0 h.1.0
unpack-sextets (x ∷ y ∷ z ∷ t) h =
    one_group x y z (sextets t) t h.0 h.1.0 h.1.1.0 (unpack-sextets t h.1.1.1)

group_expects :
    (n p : ℕ)
    → expects (expected_padding n) p ≡ true
    → expects (expected_padding (suc (suc (suc (suc n))))) p ≡ true
unfolding expected_padding
group_expects n p h = let same : suc (suc (suc (suc n))) % 4 ≡ n % 4 = omega arith in rw same h

-- The length of the sextets goes with the padding.
fitting :
    (t : Text)
    → (padding_of t ≤ 2)
      × ((length (sextets t) + padding_of t) % 4 ≡ 0)
      × (expects (expected_padding (length (sextets t))) (padding_of t) ≡ true)
unfolding sextets padding_of
fitting [] = (omega arith, refl, unfold expected_padding in refl)
fitting (x ∷ []) = (omega arith, refl, unfold expected_padding in refl)
fitting (x ∷ y ∷ []) = (omega arith, refl, unfold expected_padding in refl)
fitting (x ∷ y ∷ z ∷ t) =
    let (a, b, c) = fitting t in
    (a, omega (arith, b), group_expects (length (sextets t)) (padding_of t) c)

finish-fitting :
    (ns : List ℕ) (p : ℕ)
    → p ≤ 2
    → (length ns + p) % 4 ≡ 0
    → expects (expected_padding (length ns)) p ≡ true
    → finish (decodes (ns, p)) ≡ unpack ns
unfolding finish
finish-fitting ns p h whole expected =
    let within : ltb 2 p ≡ false = ground (arith, h) in
    let even : ((length ns + p) % 4 == 0) ≡ true = ground (arith, whole) in
    rw (within, even, expected) refl

-- The decoder turns the encoding that RFC 4648 gives a byte text, written as `reference_encode`, into
-- that text.
pub decode-reference_encode : (t : Text) → IsBytes t → decode (reference_encode t) ≡ decodes t
unfolding decode
decode-reference_encode t h =
    let (within, whole, expected) = fitting t in
    ap finish (scan-reference_encode t h)
    ∙ finish-fitting (sextets t) (padding_of t) within whole expected
    ∙ unpack-sextets t h
