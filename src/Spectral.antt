-- ===== src/Spectral.antt =====
-- The floats and the matrix of examples/bench/spectral-norm/main.go and
-- examples/bench/spectral-norm-multi/main.go. The operations on float64 are a parameter: nothing is
-- assumed of them but that equality of floats has one proof.
pub mod Index
pub mod Sequential
pub mod Parallel
pub mod Cells
pub mod Chunks
pub mod Equal
use valk.Prelude.{
  ℕ, zero, suc, ◌+◌, ◌-◌, ◌*◌, ◌/◌, ◌%◌, ◌^◌, List, [], ◌∷◌, Bool, true, false, Result, ok, panic,
  ltb, if◌then◌else◌,
}
use valk.Prelude.Int.{ℤ, signed64}

pub record Float : Type 1 where
  pub F : Type 0
  pub F_set : IsSet F
  pub nought : F
  pub one : F
  pub add : F → F → F
  pub mul : F → F → F
  pub div : F → F → F
  pub sqrt : F → F
  pub of_int : ℤ → F

-- Half of an int, as a 64-bit pattern: Go rounds towards 0.
unfoldable pub half64 : ℕ → ℕ
half64 p = if ltb p (2 ^ 63) then p / 2 else (2 ^ 64 - (2 ^ 64 - p) / 2) % 2 ^ 64

-- `(i+j)*(i+j+1)/2 + i + 1` on int, as a 64-bit pattern.
unfoldable pub evala : ℕ → ℕ → ℕ
unfolding half64
evala i j =
    let ij = (i + j) % 2 ^ 64 in
    ((half64 ((ij * ((ij + 1) % 2 ^ 64)) % 2 ^ 64) + i) % 2 ^ 64 + 1) % 2 ^ 64

module _ (f : Float) where
  open f use {F, add, mul, div, of_int}

  -- `float64` of the index.
  unfoldable pub eval_a : ℕ → ℕ → F
  eval_a i j = of_int (signed64 (evala i j))

  -- The inner loop from index `j` on: `index j` divides the element at `j`.
  unfoldable pub row : (ℕ → F) → ℕ → F → List F → F
  row index j sum [] = sum
  row index j sum (value ∷ values) = row index (j + 1) (add sum (div value (index j))) values

  -- The last loop: the sums of `u[i] * vi` and of `vi * vi`. An index past the end of `u` panics.
  unfoldable pub dots : List F → List F → F → F → Result (F × F)
  dots u [] ub vv = ok (ub, vv)
  dots [] (value ∷ v) ub vv = panic
  dots (x ∷ u) (value ∷ v) ub vv = dots u v (add ub (mul x value)) (add vv (mul value value))
