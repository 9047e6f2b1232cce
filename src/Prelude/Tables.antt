-- ===== src/Prelude/Tables.antt =====
-- A Boolean property of every number below a bound, checked by evaluation.
use valk.Prelude.{ℕ, zero, suc, ◌<◌, ◌≡◌, inl, inr, Bool, true, ◌&&◌, arith, ◌==◌, Bool-cases}

unfoldable pub holds_below : ℕ → (ℕ → Bool) → Bool
holds_below zero p = true
holds_below (suc n) p = p n && holds_below n p

-- The value at each number is then known.
pub holds_at : (n : ℕ) (p : ℕ → Bool) → holds_below n p ≡ true → (i : ℕ) → i < n → p i ≡ true
unfolding holds_below
holds_at zero p all i h = absurd (omega arith)
holds_at (suc n) p all i h = elim (Bool-cases (i == n)) [
  | inl at ↦ let same : i ≡ n = ground arith in rw (same) (ground arith)
  | inr other ↦ holds_at n p (ground arith) i (ground arith)
]
