-- ===== src/Url/Decoded.antt =====
-- `decode_to` of lib/src/url/encode.valk never runs for ever, and its count of UTF-8 bytes does not
-- change what it writes.
use mathlib.Core.List.{append_assoc, append-nil}
use native.Mathlib.Nat.{add-mul, mul_assoc, pow-succ'}
use valk.Prelude.{
  ℕ, zero, suc, ◌+◌, ◌-◌, ◌*◌, ◌%◌, ◌^◌, ◌<◌, ◌≡◌, refl, sym, ap, ◌∙◌, inl, inr, List, [], ◌∷◌,
  ◌++◌, Bool, ◌&&◌, arith, ok, ltb, leb, ◌==◌, if◌then◌else◌, Bool-cases,
}
use valk.Url.{is_hex, hex_pair, lead_loop, next_utf8c, decode_to}

-- A shift drops the top bit.
shifted : (u p : ℕ) → 127 < u → u < 256 → u * 2 * p % 256 ≡ 0 → u * 2 % 256 * p % 256 ≡ 0
shifted u p more small gone =
    let r : u * 2 % 256 ≡ u * 2 - 256 = omega arith in
    let d = add-mul (u * 2 - 256) 256 p in
    let back : u * 2 - 256 + 256 ≡ u * 2 = omega arith in
    let e = ap (λ t. t * p) back in rw (r) (omega (arith, d, e))

-- Eight shifts leave nothing of a byte.
lead_loop-ok :
    (k uch utf8c : ℕ)
    → uch < 256
    → uch * 2 ^ k % 256 ≡ 0
    → (c : ℕ) × (lead_loop (suc k) uch utf8c ≡ ok c)
unfolding lead_loop
lead_loop-ok zero uch utf8c small gone = (utf8c, let z : uch ≡ 0 = omega arith in rw (z) refl)
lead_loop-ok (suc k) uch utf8c small gone = elim (Bool-cases (ltb 127 uch)) [
  | inr stop ↦ (utf8c, rw (lead_loop, stop) refl)
  | inl more ↦
      let twice : uch * 2 ^ suc k ≡ uch * 2 * 2 ^ k =
        ap (λ t. uch * t) (pow-succ' 2 k) ∙ sym (mul_assoc uch 2 (2 ^ k)) in
      let (c, e) =
        lead_loop-ok k (uch * 2 % 256) ((utf8c + 1) % 256) (omega arith)
          (shifted uch (2 ^ k) (ground arith) small (omega (arith, twice))) in
      (c, rw (lead_loop, more) e)
]

next_utf8c-ok : (value utf8c : ℕ) → (c : ℕ) × (next_utf8c value utf8c ≡ ok c)
unfolding next_utf8c
next_utf8c-ok value utf8c = elim (Bool-cases (ltb 0 utf8c)) [
  | inl inside ↦ (utf8c - 1, rw (inside) refl)
  | inr outside ↦ elim (Bool-cases (leb value 127)) [
    | inl ascii ↦ (utf8c, rw (outside, ascii) refl)
    | inr lead ↦
        let (c, e) = lead_loop-ok 8 (value * 2 % 256) utf8c (omega arith) (omega arith) in
        (c, rw (outside, lead) e)
  ]
]

-- What a byte outside an escape becomes.
abbrev pub plain : Bool → ℕ → ℕ
plain plus_is_space ch = if ch == b'+' && plus_is_space then b' ' else ch

-- The decoding as the documentation puts it: a `%` and two hex digits are one byte, `+` is a space
-- where asked for, and anything else is kept.
unfoldable pub unescape : Bool → List ℕ → List ℕ
unescape plus [] = []
unescape plus (ch ∷ []) = plain plus ch ∷ []
unescape plus (ch ∷ n1 ∷ []) = plain plus ch ∷ unescape plus (n1 ∷ [])
unescape plus (ch ∷ n1 ∷ n2 ∷ str) =
    let kept = plain plus ch ∷ unescape plus (n1 ∷ n2 ∷ str) in
    let escaped = hex_pair n1 n2 ∷ unescape plus str in
    if ch == b'%' && (is_hex n1 && is_hex n2) then escaped else kept

-- From every count and buffer, the decoder ends and appends that decoding, whatever bytes it is given:
-- no count of UTF-8 bytes changes what is written.
pub decode_to-unescape :
    (str : List ℕ) (utf8c : ℕ) (buffer : List ℕ) (plus : Bool)
    → decode_to str utf8c buffer plus ≡ ok (buffer ++ unescape plus str)
unfolding decode_to unescape
decode_to-unescape [] utf8c buffer plus = ap ok (sym (append-nil buffer))
decode_to-unescape (ch ∷ []) utf8c buffer plus = refl
decode_to-unescape (ch ∷ n1 ∷ []) utf8c buffer plus = ap ok (append_assoc buffer _ _)
decode_to-unescape (ch ∷ n1 ∷ n2 ∷ str) utf8c buffer plus =
    elim (Bool-cases (ch == b'%' && (is_hex n1 && is_hex n2))) [
      | inl escape ↦
          let (utf8c', e) = next_utf8c-ok (hex_pair n1 n2) utf8c in
          rw (escape, e)
            (decode_to-unescape str utf8c' (buffer ++ hex_pair n1 n2 ∷ []) plus
              ∙ ap ok (append_assoc buffer _ _))
      | inr keep ↦ rw (keep) (
          decode_to-unescape (n1 ∷ n2 ∷ str) utf8c (buffer ++ plain plus ch ∷ []) plus
          ∙ ap ok (append_assoc buffer _ _))
    ]
