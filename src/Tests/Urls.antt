-- ===== src/Tests/Urls.antt =====
-- lib/src/url/encode.valk on short strings.
use valk.Prelude.{◌+◌, ℕ, ◌*◌, ◌≡◌, refl, List, [], ◌∷◌, ◌++◌, true, false, arith, ok, length}
use valk.Url.{unreserved, path, query, encode, decode_to, decode, decode_path, is_hex}
use valk.Url.Decoded.{unescape, decode_to-unescape}
use valk.Url.RoundTrip.{AllBytes, decode-encode}
use valk.Url.Letters.{is_text, escaped_bytes, encode-is_text}

-- "a b%é", in UTF-8.
abbrev spaced : List ℕ
spaced = 97 ∷ 32 ∷ 98 ∷ 37 ∷ 195 ∷ 169 ∷ []

spaced-AllBytes : AllBytes spaced
spaced-AllBytes =
    (omega arith, (omega arith, (omega arith, (omega arith, (omega arith, (omega arith, tt))))))

decode-encode_example :
    (decode (encode spaced query) ≡ ok spaced) × (decode_path (encode spaced query) ≡ ok spaced)
decode-encode_example = decode-encode spaced query spaced-AllBytes

encode-is_text_example :
    (is_text query spaced (encode spaced query) ≡ true)
    × (length (encode spaced query) ≡ length spaced + 2 * escaped_bytes query spaced)
encode-is_text_example = encode-is_text spaced query spaced-AllBytes

-- "%4g+%4", whose escapes are not of two hexadecimal digits.
abbrev broken : List ℕ
broken = 37 ∷ 52 ∷ 103 ∷ 43 ∷ 37 ∷ 52 ∷ []

decode_to-unescape_example : decode_to broken 0 [] true ≡ ok ([] ++ unescape true broken)
decode_to-unescape_example = decode_to-unescape broken 0 [] true

broken-unescape : unescape true broken ≡ 37 ∷ 52 ∷ 103 ∷ 32 ∷ 37 ∷ 52 ∷ []
unfolding unescape is_hex
broken-unescape = refl

-- "a%20b%25" and two escapes more.
spaced-encode :
    encode spaced unreserved
    ≡ 97 ∷ 37 ∷ 50 ∷ 48 ∷ 98 ∷ 37 ∷ 50 ∷ 53 ∷ 37 ∷ 67 ∷ 51 ∷ 37 ∷ 65 ∷ 57 ∷ []
unfolding encode
spaced-encode = refl

-- Four bytes of the six are escaped; the text of the plain bytes is no text of them.
spaced-escaped : escaped_bytes unreserved spaced ≡ 4
unfolding escaped_bytes
spaced-escaped = refl

spaced_not_text : is_text path spaced spaced ≡ false
unfolding is_text
spaced_not_text = refl
