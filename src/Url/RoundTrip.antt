-- ===== src/Url/RoundTrip.antt =====
-- What `encode` of lib/src/url/encode.valk writes, `decode` and `decode_path` read back.
use mathlib.Core.List.{append_assoc, append-nil}
use valk.Prelude.{
  ℕ, ◌/◌, ◌%◌, ◌<◌, ◌≡◌, refl, sym, ap, ◌∙◌, inl, inr, List, [], ◌∷◌, ◌++◌, Bool, true, false, not,
  ◌&&◌, ◌||◌, ok, get_or, ◌==◌, Bool-cases, and_true, not-true, not-or, ==→eq,
}
use valk.Prelude.Tables.{holds_below, holds_at}
use valk.Url.{
  Component, unreserved, path, query, fragment, component_literals, is_literal, hex, escape,
  encode_to, encode, is_hex, hex_pair, decode, decode_path,
}
use valk.Url.Decoded.{plain, unescape, decode_to-unescape}

-- Every byte of a string is below 256.
abbrev pub AllBytes : List ℕ → Type 0
AllBytes [] = Unit {0}
AllBytes (ch ∷ str) = (ch < 256) × AllBytes str

-- The escapes of all bytes, one after the other.
unfoldable pub escapes : List ℕ → Component → List ℕ
escapes [] c = []
escapes (ch ∷ str) c = escape ch (component_literals c) ++ escapes str c

pub encode_to-escapes :
    (str buffer : List ℕ) (c : Component) → encode_to str buffer c ≡ buffer ++ escapes str c
unfolding encode_to escapes
encode_to-escapes [] buffer c = sym (append-nil buffer)
encode_to-escapes (ch ∷ str) buffer c =
    encode_to-escapes str (buffer ++ escape ch (component_literals c)) c
    ∙ append_assoc buffer (escape ch (component_literals c)) (escapes str c)

-- A literal is neither `%` nor `+`, in any component.
abbrev literal_is_plain : Component → ℕ → Bool
literal_is_plain c ch =
    not (is_literal ch (component_literals c)) || (not (ch == b'%') && not (ch == b'+'))

literals_are_plain : (c : Component) → holds_below 256 (literal_is_plain c) ≡ true
unfolding holds_below is_literal
literals_are_plain unreserved = refl
literals_are_plain path = refl
literals_are_plain query = refl
literals_are_plain fragment = refl

-- The two digits of a byte are hex digits of its value.
abbrev digits_read_back : ℕ → Bool
digits_read_back ch =
    let high = get_or hex (ch / 16) 0 in
    let low = get_or hex (ch % 16) 0 in (is_hex high && is_hex low) && (hex_pair high low == ch)

all_digits_read_back : holds_below 256 digits_read_back ≡ true
unfolding holds_below is_hex hex_pair
all_digits_read_back = refl

unescape-cons :
    (plus : Bool) (ch : ℕ) (str : List ℕ)
    → (ch == b'%') ≡ false
    → unescape plus (ch ∷ str) ≡ plain plus ch ∷ unescape plus str
unfolding unescape
unescape-cons plus ch [] h = refl
unescape-cons plus ch (n1 ∷ []) h = refl
unescape-cons plus ch (n1 ∷ n2 ∷ str) h = rw (h) refl

unescape-escape :
    (plus : Bool) (c : Component) (ch : ℕ) (rest : List ℕ)
    → ch < 256
    → unescape plus (escape ch (component_literals c) ++ rest) ≡ ch ∷ unescape plus rest
unfolding escape unescape
unescape-escape plus c ch rest small = elim (Bool-cases (is_literal ch (component_literals c))) [
  | inl literal ↦
      let e = holds_at 256 (literal_is_plain c) (literals_are_plain c) ch small in
      let percent : (ch == b'%') ≡ false = not-true _ (and_true _ _ (not-or _ _ literal e)).0 in
      let no_plus : (ch == b'+') ≡ false = not-true _ (and_true _ _ (not-or _ _ literal e)).1 in
      rw (literal) (unescape-cons plus ch rest percent ∙ rw (no_plus) refl)
  | inr escaped ↦
      let e = holds_at 256 digits_read_back all_digits_read_back ch small in
      let digits : (is_hex (get_or hex (ch / 16) 0) && is_hex (get_or hex (ch % 16) 0)) ≡ true =
        (and_true _ _ e).0 in
      let value : hex_pair (get_or hex (ch / 16) 0) (get_or hex (ch % 16) 0) ≡ ch =
        ==→eq _ _ (and_true _ _ e).1 in
      rw (escaped, digits, value) refl
]

unescape-escapes :
    (plus : Bool) (c : Component) (str : List ℕ)
    → AllBytes str
    → unescape plus (escapes str c) ≡ str
unfolding escapes unescape
unescape-escapes plus c [] h = refl
unescape-escapes plus c (ch ∷ str) h =
    unescape-escape plus c ch (escapes str c) h.0
    ∙ ap (λ s. ch ∷ s) (unescape-escapes plus c str h.1)

-- For every string of bytes and every component, what `encode` writes is decoded without fail to the
-- same string, by `decode` as well as by `decode_path`.
pub decode-encode :
    (str : List ℕ) (c : Component)
    → AllBytes str
    → (decode (encode str c) ≡ ok str) × (decode_path (encode str c) ≡ ok str)
unfolding decode decode_path encode
decode-encode str c h = (
  decode_to-unescape (encode_to str [] c) 0 [] true
      ∙ ap ok (ap (unescape true) (encode_to-escapes str [] c) ∙ unescape-escapes true c str h),
  decode_to-unescape (encode_to str [] c) 0 [] false
      ∙ ap ok (ap (unescape false) (encode_to-escapes str [] c) ∙ unescape-escapes false c str h),
)
