-- ===== src/Spectral/Index.antt =====
-- The index function of the spectral norm benchmarks.
use valk.Prelude.{
  ℕ, zero, suc, ◌+◌, ◌*◌, ◌/◌, ◌%◌, ◌^◌, ◌≤◌, ◌<◌, ◌≡◌, refl, sym, ap, inl, inr, arith, leb, leb→le,
  Bool-cases, ◌↔◌,
}
use valk.Spectral.{half64, evala}

-- The triangular numbers.
triangle : ℕ → ℕ
triangle zero = 0
triangle (suc s) = triangle s + suc s

double_triangle : (s : ℕ) → s * (s + 1) ≡ triangle s * 2
unfolding triangle
double_triangle zero = refl
double_triangle (suc s) = grind (arith, double_triangle s)

triangle_mono : (s t : ℕ) → s ≤ t → triangle s ≤ triangle t
unfolding triangle
triangle_mono s zero h = let e : s ≡ 0 = omega arith in rw (e) (omega arith)
triangle_mono s (suc t) h = elim (Bool-cases (leb s t)) [
  | inl le ↦ omega (arith, triangle_mono s t (leb→le s t le))
  | inr gt ↦ let e : s ≡ suc t = ground arith in rw (e) (omega arith)
]

triangle-lt : (s : ℕ) → s < 2 ^ 31 → triangle s * 2 < 2 ^ 63
triangle-lt s h = omega (arith, triangle_mono s (2 ^ 31) (omega arith), double_triangle (2 ^ 31))

evala-triangle : (i j : ℕ) → i + j < 2 ^ 31 → evala i j ≡ triangle (i + j) + i + 1
unfolding evala half64
evala-triangle i j h =
    let s = i + j in
    let e1 : s % 2 ^ 64 ≡ s = omega arith in
    let e2 : (s + 1) % 2 ^ 64 ≡ s + 1 = omega arith in
    let l = triangle-lt s h in rw (evala, e1, e2, double_triangle s) (ground arith)

-- Equal indices have equal diagonals, and so equal rows.
diagonal : (s t i k : ℕ) → i ≤ s → k ≤ t → triangle s + i ≡ triangle t + k → s ≤ t
unfolding triangle
diagonal s t i k h l e = elim (Bool-cases (leb s t)) [
  | inl le ↦ leb→le s t le
  | inr gt ↦ let up = triangle_mono (suc t) s (ground arith) in absurd (omega arith)
]

-- For rows and columns with a sum below 2 ^ 31 no step of the index overflows, the index is positive,
-- so that nothing is divided by 0, and equal indices belong to the same row and column.
pub evala-bounds :
    (i j k l : ℕ)
    → i + j < 2 ^ 31
    → k + l < 2 ^ 31
    → (evala i j ≡ (i + j) * (i + j + 1) / 2 + i + 1)
      × (evala i j < 2 ^ 63)
      × (0 < evala i j)
      × (evala i j ≡ evala k l ↔ (i ≡ k) × (j ≡ l))
evala-bounds i j k l h h' =
    let e = evala-triangle i j h in
    let e' = evala-triangle k l h' in
    let d = double_triangle (i + j) in
    let b = triangle-lt (i + j) h in
    (
      omega arith,
      omega arith,
      omega arith,
      (
        λ same.
            let t : triangle (i + j) + i ≡ triangle (k + l) + k = omega arith in
            let le = diagonal (i + j) (k + l) i k (omega arith) (omega arith) t in
            let ge = diagonal (k + l) (i + j) k i (omega arith) (omega arith) (sym t) in
            let s : i + j ≡ k + l = omega arith in
            let ts = ap triangle s in (omega arith, omega arith),
        λ same. rw (same.0, same.1) refl,
      ),
    )
