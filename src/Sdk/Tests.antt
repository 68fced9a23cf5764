-- ===== src/Sdk/Tests.antt =====
-- percent.rs: a concrete text.
use fieldnotes.Prelude.{◌≡◌, refl, text, true, some, arith}
use fieldnotes.Sdk.Percent.{encode, decode, decode-encode}

decode-encode_example : decode (λ t. true) (encode (text "a b%")) ≡ some (text "a b%")
decode-encode_example =
    decode-encode (λ t. true) (text "a b%")
      (omega arith, (omega arith, (omega arith, (omega arith, tt)))) refl
