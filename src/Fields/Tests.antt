-- ===== src/Fields/Tests.antt =====
-- base64.rs: concrete bytes.
use fieldnotes.Prelude.{◌≡◌, text, arith}
use fieldnotes.Fields.Base64.{decodes, decode}
use fieldnotes.Fields.Base64.RoundTrip.{reference_encode, decode-reference_encode}

decode-reference_encode_example : decode (reference_encode (text "note")) ≡ decodes (text "note")
decode-reference_encode_example =
    decode-reference_encode (text "note")
      (omega arith, (omega arith, (omega arith, (omega arith, tt))))
