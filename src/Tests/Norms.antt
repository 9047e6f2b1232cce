-- ===== src/Tests/Norms.antt =====
-- The spectral norm benchmarks with numbers for floats, two chunks that arrive in reverse, and the
-- theorems at that run.
use mathlib.Core.List.{reverse, reverse_perm}
use native.Mathlib.Nat.{ℕ_set}
use valk.Prelude.{ℕ, ◌+◌, ◌*◌, ◌/◌, ◌^◌, ◌≡◌, ◌<◌, ◌↔◌, List, [], ◌∷◌, false, arith, ok}
use valk.Prelude.Int.{pos, pos_part}
use valk.Spectral.{Float, evala}
use valk.Spectral.Chunks.{multiply-range_loop}
use valk.Spectral.Equal.{norm-same}
use valk.Spectral.Index.{evala-bounds}
use valk.Spectral.Parallel
use valk.Spectral.Parallel.{Chunk, range_loop, multiply}
use valk.Spectral.Sequential

-- Floats in units of 2 ^ -20, with no square root.
abbrev units : Float
units = record {
  F = ℕ;
  F_set = ℕ_set;
  nought = 0;
  one = 2 ^ 20;
  add = λ a b. a + b;
  mul = λ a b. a * b / 2 ^ 20;
  div = λ a b. a * 2 ^ 20 / b;
  sqrt = λ a. a;
  of_int = λ n. pos_part n * 2 ^ 20;
}

abbrev backwards : List (Chunk ℕ) → List (Chunk ℕ)
backwards = reverse

multiply-range_loop_example :
    multiply units backwards (5 ∷ 6 ∷ 7 ∷ []) false 2
    ≡ ok (range_loop units false (5 ∷ 6 ∷ 7 ∷ []) 3 0)
multiply-range_loop_example =
    multiply-range_loop units false (5 ∷ 6 ∷ 7 ∷ []) backwards 2 (λ sent. reverse_perm sent)
      (omega arith)

norm-same_example :
    (r : ℕ) × (Parallel.norm units (λ call. backwards) 3 2 ≡ ok r)
    × (Sequential.norm units (pos 3) ≡ ok r)
norm-same_example =
    norm-same units (λ call. backwards) 3 2 (λ call sent. reverse_perm sent) (omega arith)
      (omega arith)

evala-bounds_example :
    (evala 3 4 ≡ (3 + 4) * (3 + 4 + 1) / 2 + 3 + 1)
    × (evala 3 4 < 2 ^ 63)
    × (0 < evala 3 4)
    × (evala 3 4 ≡ evala 4 3 ↔ (◌≡◌ {A = ℕ} 3 4) × (◌≡◌ {A = ℕ} 4 3))
evala-bounds_example = evala-bounds 3 4 4 3 (omega arith) (omega arith)
