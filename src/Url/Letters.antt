-- ===== src/Url/Letters.antt =====
-- What `encode` of lib/src/url/encode.valk writes, against the classes of RFC 3986.
use valk.Prelude.{
  ℕ, suc, ◌+◌, ◌-◌, ◌*◌, ◌≡◌, refl, sym, ap, ◌∙◌, List, [], ◌∷◌, ◌++◌, Bool, true, false, not, ◌&&◌,
  ◌||◌, arith, length, length-append, take, drop, leb, ◌==◌, if◌then◌else◌, and_true, ==→eq,
}
use valk.Prelude.Tables.{holds_below, holds_at}
use valk.Url.{Component, unreserved, path, query, fragment, component_literals, escape, encode}
use valk.Url.RoundTrip.{AllBytes, escapes, encode_to-escapes}

abbrev between : ℕ → ℕ → ℕ → Bool
between low high ch = leb low ch && leb ch high

-- The unreserved characters: letters, digits, `-`, `.`, `_` and `~`.
abbrev pub is_unreserved : ℕ → Bool
is_unreserved ch =
    (between 65 90 ch || (between 97 122 ch || between 48 57 ch))
    || ((between 45 46 ch || ch == 95) || ch == 126)

-- The sub-delims: `!`, `$`, the seven from `&` to `,`, `;` and `=`.
abbrev pub is_sub_delim : ℕ → Bool
is_sub_delim ch = (between 38 44 ch || (ch == 33 || ch == 36)) || (ch == 59 || ch == 61)

-- What a segment of a path may hold, the slash between segments, but no `+`.
abbrev pub is_path : ℕ → Bool
is_path ch =
    (is_unreserved ch || (is_sub_delim ch && not (ch == 43)))
    || (ch == 58 || (ch == 64 || ch == 47))

-- The bytes that a component keeps. A query keeps none of `&`, `;` and `=`, which part its parameters; a
-- fragment keeps `?` besides.
abbrev pub is_kept : Component → ℕ → Bool
is_kept unreserved ch = is_unreserved ch
is_kept path ch = is_path ch
is_kept query ch = is_path ch && not (ch == 38 || (ch == 59 || ch == 61))
is_kept fragment ch = is_path ch || ch == 63

-- An upper-case hexadecimal digit, and its value.
abbrev pub is_digit : ℕ → Bool
is_digit ch = between 48 57 ch || between 65 70 ch

abbrev pub digit_value : ℕ → ℕ
digit_value ch = if leb ch 57 then ch - 48 else ch - 55

-- The text of one byte: the byte where it is kept, else `%` and two digits of its value.
abbrev pub is_piece : Component → ℕ → List ℕ → Bool
is_piece c ch (x ∷ []) = is_kept c ch && x == ch
is_piece c ch (x ∷ high ∷ low ∷ []) =
    not (is_kept c ch)
    && (x == 37
        && ((is_digit high && is_digit low) && digit_value high * 16 + digit_value low == ch))
is_piece c ch _ = false

abbrev pub width : Component → ℕ → ℕ
width c ch = if is_kept c ch then 1 else 3

-- A text that is the pieces of the bytes, one after the other, and no more.
unfoldable pub is_text : Component → List ℕ → List ℕ → Bool
is_text c [] [] = true
is_text c [] (x ∷ text) = false
is_text c (ch ∷ str) text =
    is_piece c ch (take (width c ch) text) && is_text c str (drop (width c ch) text)

-- The bytes that are not kept.
unfoldable pub escaped_bytes : Component → List ℕ → ℕ
escaped_bytes c [] = 0
escaped_bytes c (ch ∷ str) = (if is_kept c ch then 0 else 1) + escaped_bytes c str

abbrev piece_is_right : Component → ℕ → Bool
piece_is_right c ch =
    let piece = escape ch (component_literals c) in
    is_piece c ch piece && length piece == width c ch

-- So for each of the 256 bytes.
pieces_are_right : (c : Component) → holds_below 256 (piece_is_right c) ≡ true
unfolding holds_below escape
pieces_are_right unreserved = refl
pieces_are_right path = refl
pieces_are_right query = refl
pieces_are_right fragment = refl

take-length : (xs ys : List ℕ) → take (length xs) (xs ++ ys) ≡ xs
take-length [] ys = refl
take-length (x ∷ xs) ys = ap (λ l. x ∷ l) (take-length xs ys)

drop-length : (xs ys : List ℕ) → drop (length xs) (xs ++ ys) ≡ ys
drop-length [] ys = refl
drop-length (x ∷ xs) ys = drop-length xs ys

escapes-is_text :
    (str : List ℕ) (c : Component) → AllBytes str → is_text c str (escapes str c) ≡ true
unfolding escapes is_text
escapes-is_text [] c h = refl
escapes-is_text (ch ∷ str) c h =
    let piece = escape ch (component_literals c) in
    let (right, wide) =
      and_true _ _ (holds_at 256 (piece_is_right c) (pieces_are_right c) ch h.0) in
    let w : width c ch ≡ length piece = sym (==→eq _ _ wide) in
    let first = ap (λ n. take n (piece ++ escapes str c)) w ∙ take-length piece (escapes str c) in
    let rest = ap (λ n. drop n (piece ++ escapes str c)) w ∙ drop-length piece (escapes str c) in
    let first' = ap (is_piece c ch) first ∙ right in
    let rest' = ap (is_text c str) rest ∙ escapes-is_text str c h.1 in λ i. first' i && rest' i

add_up :
    (kept : Bool) (n escaped : ℕ)
    → (if kept then 1 else 3) + (n + 2 * escaped) ≡ suc n + 2 * ((if kept then 0 else 1) + escaped)
add_up true n escaped = omega arith
add_up false n escaped = omega arith

length-escapes :
    (str : List ℕ) (c : Component)
    → AllBytes str
    → length (escapes str c) ≡ length str + 2 * escaped_bytes c str
unfolding escapes escaped_bytes
length-escapes [] c h = refl
length-escapes (ch ∷ str) c h =
    let piece = escape ch (component_literals c) in
    let (right, wide) =
      and_true _ _ (holds_at 256 (piece_is_right c) (pieces_are_right c) ch h.0) in
    let w : length piece ≡ width c ch = ==→eq _ _ wide in
    length-append piece (escapes str c)
    ∙ (λ i. w i + length-escapes str c h.1 i)
    ∙ add_up (is_kept c ch) (length str) (escaped_bytes c str)

-- For every string of bytes: `encode` writes the bytes that the component keeps as they are, and each other
-- byte as `%` and the two upper-case digits of its value, in order and nothing besides; so the text is longer
-- than the string by twice the number of the bytes that are not kept. Kept are the unreserved characters
-- of RFC 3986; in a path also its sub-delims but `+`, and `:`, `@` and `/`; in a query those of a path but `&`,
-- `;` and `=`; in a fragment those of a path and `?`.
pub encode-is_text :
    (str : List ℕ) (c : Component)
    → AllBytes str
    → (is_text c str (encode str c) ≡ true)
      × (length (encode str c) ≡ length str + 2 * escaped_bytes c str)
unfolding encode
encode-is_text str c h =
    let e = encode_to-escapes str [] c in
    (ap (is_text c str) e ∙ escapes-is_text str c h, ap length e ∙ length-escapes str c h)
