-- ===== src/Fields/Base64.antt =====
-- fields/fieldnotes-field-outlook-mail/src/base64.rs: the strict base64 decoder. The bits that shifts
-- join do not overlap, so that they are sums; `as u8` is the remainder by 256.
pub mod RoundTrip
use fieldnotes.Prelude.{
  ℕ, suc, ◌+◌, ◌-◌, ◌*◌, ◌/◌, ◌%◌, Text, Bool, true, false, not, ◌&&◌, ◌||◌, Option, none, some,
  List, [], ◌∷◌, length, leb, ltb, ◌==◌, if◌then◌else◌,
}

pub data Base64Error : Type 0 where
  invalid_character invalid_length non_canonical_padding : Base64Error

pub data DecodeResult (A : Type 0) : Type 0 where
  decodes : A → DecodeResult A
  fails : Base64Error → DecodeResult A

unfoldable pub sextet : ℕ → Option ℕ
sextet b =
    if leb b'A' b && leb b b'Z'
    then some (b - b'A')
    else if leb b'a' b && leb b b'z'
    then some (b - b'a' + 26)
    else if leb b'0' b && leb b b'9'
    then some (b - b'0' + 52)
    else if b == b'+'
    then some 62
    else if b == b'/'
    then some 63
    else none

-- u8::is_ascii_whitespace: space, tab, line feed, form feed, carriage return
abbrev pub is_ascii_whitespace : ℕ → Bool
is_ascii_whitespace b = (b == 32) || (b == 9) || (b == 10) || (b == 12) || (b == 13)

-- What the loop of `decode` makes of a byte.
pub data ByteKind : Type 0 where
  whitespace padding_byte : ByteKind
  payload : Option ℕ → ByteKind

unfoldable pub kind_of : ℕ → ByteKind
unfolding sextet
kind_of b =
    if is_ascii_whitespace b
    then whitespace
    else if b == b'='
    then padding_byte
    else payload (sextet b)

abbrev pub push_sextet : ℕ → DecodeResult (List ℕ × ℕ) → DecodeResult (List ℕ × ℕ)
push_sextet n (fails e) = fails e
push_sextet n (decodes (ns, padding)) = decodes (n ∷ ns, padding)

-- A payload character: none may stand behind padding.
unfoldable pub scan_payload : Option ℕ → ℕ → DecodeResult (List ℕ × ℕ) → DecodeResult (List ℕ × ℕ)
scan_payload none padding rest =
    if ltb 0 padding then fails invalid_length else fails invalid_character
scan_payload (some n) padding rest =
    if ltb 0 padding then fails invalid_length else push_sextet n rest

-- One byte, before what the loop makes of the bytes behind it from an amount of padding on.
unfoldable pub scan_byte :
    ByteKind → ℕ → (ℕ → DecodeResult (List ℕ × ℕ)) → DecodeResult (List ℕ × ℕ)
unfolding scan_payload
scan_byte whitespace padding rest = rest padding
scan_byte padding_byte padding rest = rest (suc padding)
scan_byte (payload o) padding rest = scan_payload o padding (rest padding)

-- The loop over the bytes: the sextets of the payload and the number of padding bytes.
unfoldable pub scan : ℕ → Text → DecodeResult (List ℕ × ℕ)
unfolding kind_of scan_byte
scan padding [] = decodes ([], padding)
scan padding (b ∷ bs) = scan_byte (kind_of b) padding (λ p. scan p bs)

abbrev pub push_bytes : ℕ → ℕ → ℕ → DecodeResult Text → DecodeResult Text
push_bytes x y z (fails e) = fails e
push_bytes x y z (decodes bs) = decodes (x ∷ y ∷ z ∷ bs)

abbrev pub packed : ℕ → ℕ → ℕ → ℕ → ℕ
packed a b c d = a * 262_144 + b * 4_096 + c * 64 + d

-- The groups of four, and what is left over.
unfoldable pub unpack : List ℕ → DecodeResult Text
unpack [] = decodes []
unpack (a ∷ []) = fails invalid_length
unpack (a ∷ b ∷ []) =
    if not (b % 16 == 0) then fails non_canonical_padding else decodes ((a * 4 + b / 16) % 256 ∷ [])
unpack (a ∷ b ∷ c ∷ []) =
    if not (c % 4 == 0)
    then fails non_canonical_padding
    else decodes ((a * 4 + b / 16) % 256 ∷ (b * 16 + c / 4) % 256 ∷ [])
unpack (a ∷ b ∷ c ∷ d ∷ rest) =
    push_bytes (packed a b c d / 65_536 % 256) (packed a b c d / 256 % 256) (packed a b c d % 256)
      (unpack rest)

-- The padding that a number of sextets has.
unfoldable pub expected_padding : ℕ → Option ℕ
expected_padding n =
    if n % 4 == 0
    then some 0
    else if n % 4 == 2
    then some 2
    else if n % 4 == 3
    then some 1
    else none

abbrev pub expects : Option ℕ → ℕ → Bool
expects none padding = false
expects (some n) padding = padding == n

-- The checks after the loop, and the decoding of the groups.
unfoldable pub finish : DecodeResult (List ℕ × ℕ) → DecodeResult Text
unfolding unpack expected_padding
finish (fails e) = fails e
finish (decodes (significant, padding)) =
    if ltb 2 padding || not ((length significant + padding) % 4 == 0)
    then fails invalid_length
    else if not (expects (expected_padding (length significant)) padding)
    then fails invalid_length
    else unpack significant

unfoldable pub decode : Text → DecodeResult Text
unfolding finish scan
decode t = finish (scan 0 t)
