-- ===== src/Url.antt =====
-- Percent encoding: lib/src/url/encode.valk. A string is the list of its bytes, each below 256, and so
-- is what a `ByteBuffer` holds. A loop over the bytes of a string is a recursion on those that are
-- left, since `i` only grows; `u8` arithmetic is taken modulo 256.
pub mod Decoded
pub mod RoundTrip
pub mod Letters
use valk.Prelude.{
  ℕ, zero, suc, ◌+◌, ◌-◌, ◌*◌, ◌/◌, ◌%◌, Option, none, some, List, [], ◌∷◌, ◌++◌, Bool, true, false,
  ◌&&◌, ◌||◌, Result, ok, out_of_fuel, ◌>>=◌, length, get_or, ltb, leb, ◌==◌, if◌then◌else◌,
}
use valk.Prelude.Bytes.{codes}

pub data Component : Type 0 where
  unreserved : Component
  path : Component
  query : Component
  fragment : Component

abbrev pub component_literals : Component → List ℕ
component_literals unreserved = []
component_literals path = codes "!$&'()*,:;=@/"
component_literals query = codes "!$'()*,/:@"
component_literals fragment = codes "!$&'()*,:;=@/?"

-- `literals.index_of_byte(ch)` of lib/src/core/string.valk, from the start.
unfoldable pub index_of_byte : List ℕ → ℕ → Option ℕ
index_of_byte [] byte = none
index_of_byte (b ∷ bytes) byte =
    if b == byte
    then some 0
    else elim (index_of_byte bytes byte) [ none ↦ none | some i ↦ some (i + 1) ]

abbrev pub is_letter_or_digit : ℕ → Bool
is_letter_or_digit ch =
    (leb b'a' ch && leb ch b'z') || (leb b'A' ch && leb ch b'Z') || (leb b'0' ch && leb ch b'9')

unfoldable pub is_literal : ℕ → List ℕ → Bool
unfolding index_of_byte
is_literal ch literals =
    if is_letter_or_digit ch
    then true
    else if ch == b'-' || ch == b'.' || ch == b'_' || ch == b'~'
    then true
    else (let at : ℕ = elim (index_of_byte literals ch) [ none ↦ length literals | some i ↦ i ] in
        ltb at (length literals))

abbrev pub hex : List ℕ
hex = codes "0123456789ABCDEF"

-- What one byte becomes.
unfoldable pub escape : ℕ → List ℕ → List ℕ
unfolding is_literal
escape ch literals =
    if is_literal ch literals
    then ch ∷ []
    else b'%' ∷ get_or hex (ch / 16) 0 ∷ get_or hex (ch % 16) 0 ∷ []

-- `encode_to`: the buffer after it.
unfoldable pub encode_to : List ℕ → List ℕ → Component → List ℕ
unfolding escape
encode_to [] buffer component = buffer
encode_to (ch ∷ str) buffer component =
    encode_to str (buffer ++ escape ch (component_literals component)) component

unfoldable pub encode : List ℕ → Component → List ℕ
unfolding encode_to
encode str component = encode_to str [] component

-- `is_hex` and `hex_byte_to_hex_value` of lib/src/core/u8.valk.
unfoldable pub is_hex : ℕ → Bool
is_hex b = (leb b'0' b && leb b b'9') || (leb b'a' b && leb b b'f') || (leb b'A' b && leb b b'F')

unfoldable pub hex_byte_to_hex_value : ℕ → ℕ
hex_byte_to_hex_value b =
    if leb b'0' b && leb b b'9'
    then b - b'0'
    else if leb b'a' b && leb b b'f'
    then b - b'a' + 10
    else (b + 256 - b'A' + 10) % 256

-- `while uch > 127`, on fuel: each round shifts a bit out of the byte.
unfoldable pub lead_loop : ℕ → ℕ → ℕ → Result ℕ
lead_loop zero uch utf8c = out_of_fuel
lead_loop (suc fuel) uch utf8c = elim (ltb 127 uch) [
  | true ↦ lead_loop fuel (uch * 2 % 256) ((utf8c + 1) % 256)
  | false ↦ ok utf8c
]

-- The counter of the bytes that follow, after an escape of `value`.
unfoldable pub next_utf8c : ℕ → ℕ → Result ℕ
unfolding lead_loop
next_utf8c value utf8c =
    if ltb 0 utf8c
    then ok (utf8c - 1)
    else if leb value 127
    then ok utf8c
    else lead_loop 9 (value * 2 % 256) utf8c

-- `v1 * 16 + v2` on bytes.
unfoldable pub hex_pair : ℕ → ℕ → ℕ
unfolding hex_byte_to_hex_value
hex_pair n1 n2 = (hex_byte_to_hex_value n1 * 16 + hex_byte_to_hex_value n2) % 256

-- `decode_to`, with the bytes left after `str[i++]`: the buffer after it.
unfoldable pub decode_to : List ℕ → ℕ → List ℕ → Bool → Result (List ℕ)
unfolding is_hex hex_pair next_utf8c
decode_to [] utf8c buffer plus_is_space = ok buffer
decode_to (ch ∷ []) utf8c buffer plus_is_space =
    ok (buffer ++ (if ch == b'+' && plus_is_space then b' ' else ch) ∷ [])
decode_to (ch ∷ n1 ∷ []) utf8c buffer plus_is_space =
    decode_to (n1 ∷ []) utf8c (buffer ++ (if ch == b'+' && plus_is_space then b' ' else ch) ∷ [])
      plus_is_space
decode_to (ch ∷ n1 ∷ n2 ∷ str) utf8c buffer plus_is_space =
    let kept =
      decode_to (n1 ∷ n2 ∷ str) utf8c
        (buffer ++ (if ch == b'+' && plus_is_space then b' ' else ch) ∷ []) plus_is_space in
    let escaped = do
      utf8c' ← next_utf8c (hex_pair n1 n2) utf8c
      decode_to str utf8c' (buffer ++ hex_pair n1 n2 ∷ []) plus_is_space
    in if ch == b'%' && (is_hex n1 && is_hex n2) then escaped else kept

unfoldable pub decode : List ℕ → Result (List ℕ)
unfolding decode_to
decode str = decode_to str 0 [] true

unfoldable pub decode_path : List ℕ → Result (List ℕ)
unfolding decode_to
decode_path str = decode_to str 0 [] false

-- What the `_into` functions write to: a `ByteBuffer` with its bytes, or another writer, whose `write`
-- gives the bytes it wrote, or an error.
pub data Writer : Type 0 where
  byte_buffer : List ℕ → Writer
  other : (List ℕ → Option ℕ) → Writer

-- A text that goes to a writer: the count that is returned, `none` for a thrown error, and what a
-- `ByteBuffer` holds then. `add` writes the text behind the bytes of a buffer.
unfoldable pub write_into : (List ℕ → List ℕ) → Writer → Option (ℕ × List ℕ)
write_into add (byte_buffer before) = some (length (add before) - length before, add before)
write_into add (other write) = elim (write (add [])) [ none ↦ none | some n ↦ some (n, []) ]

unfoldable pub encode_into : List ℕ → Writer → Component → Option (ℕ × List ℕ)
unfolding write_into encode_to
encode_into str out component = write_into (λ buffer. encode_to str buffer component) out

-- `decode_into`, and `decode_path_into` where `plus_is_space` is false.
unfoldable pub decode_into : List ℕ → Writer → Bool → Result (Option (ℕ × List ℕ))
unfolding decode_to
decode_into str (byte_buffer before) plus_is_space = do
  after ← decode_to str 0 before plus_is_space
  ok (some (length after - length before, after))
decode_into str (other write) plus_is_space = do
  buf ← decode_to str 0 [] plus_is_space
  ok (elim (write buf) [ none ↦ none | some n ↦ some (n, []) ])
