-- ===== src/Spectral/Sequential.antt =====
-- `times`, `times_trans`, `a_times_transp` and `main` of examples/bench/spectral-norm/main.go. `atoi`
-- is the value of `strconv.Atoi`, its error ignored; `args` are the arguments after the flags.
use Prim.Native.String.{String}
use valk.Prelude.{ℕ, zero, suc, ◌+◌, List, [], ◌∷◌, Result, ok, panic, ◌>>=◌, length, replicate}
use valk.Prelude.Int.{ℤ, pos, negsuc}
use valk.Spectral.{Float, eval_a, row, dots}

module _ (f : Float) where
  open f use {F, nought, one, div, sqrt}

  -- The outer loop from row `i` on: it writes every element of `v`, whatever was there.
  unfoldable pub times_loop : ℕ → List F → List F → List F
  unfolding row
  times_loop i [] u = []
  times_loop i (x ∷ v) u = row f (λ j. eval_a f i j) 0 nought u ∷ times_loop (i + 1) v u

  unfoldable pub times_trans_loop : ℕ → List F → List F → List F
  unfolding row
  times_trans_loop i [] u = []
  times_trans_loop i (x ∷ v) u = row f (λ j. eval_a f j i) 0 nought u ∷ times_trans_loop (i + 1) v u

  -- `a_times_transp(v, u)`: the vector `v` after it.
  unfoldable pub a_times_transp : List F → List F → List F
  unfolding times_loop times_trans_loop
  a_times_transp v u = times_trans_loop 0 v (times_loop 0 (replicate (length u) nought) u)

  -- The rounds left, with `u` and `v`.
  unfoldable pub power_loop : ℕ → List F → List F → List F × List F
  unfolding a_times_transp
  power_loop zero u v = (u, v)
  power_loop (suc k) u v =
      let v' = a_times_transp v u in let u' = a_times_transp u v' in power_loop k u' v'

  -- `main` from `n` on; `make` of a negative size panics.
  unfoldable pub norm : ℤ → Result F
  unfolding power_loop dots
  norm (negsuc n) = panic
  norm (pos n) = do
    let (u, v) = power_loop 10 (replicate n one) (replicate n one)
    (vbv, vv) ← dots f u v nought nought
    ok (sqrt (div vbv vv))

  unfoldable pub main : (String → ℤ) → List String → Result F
  unfolding norm
  main atoi [] = norm (pos 0)
  main atoi (arg ∷ args) = norm (atoi arg)
