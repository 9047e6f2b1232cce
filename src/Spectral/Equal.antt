-- ===== src/Spectral/Equal.antt =====
-- The parallel spectral norm and the sequential one compute the same number.
use mathlib.Core.List.{Perm}
use valk.Prelude.{
  ℕ, zero, suc, ◌+◌, ◌<◌, ◌≡◌, refl, ◌∙◌, sym, ap, List, [], ◌∷◌, true, false, arith, ok, length,
  replicate, length-replicate, ltb, if◌then◌else◌,
}
use valk.Prelude.Int.{pos}
use valk.Spectral.{Float, dots}
use valk.Spectral.Chunks.{multiply-range_loop}
use valk.Spectral.Parallel
use valk.Spectral.Parallel.{Chunk, cell, range_loop, multiply, multiply_at_a}
use valk.Spectral.Sequential
use valk.Spectral.Sequential.{times_loop, times_trans_loop, a_times_transp}

module _ (f : Float) where
  length-times_loop : (i : ℕ) (v u : List f.F) → length (times_loop f i v u) ≡ length v
  unfolding times_loop
  length-times_loop i [] u = refl
  length-times_loop i (x ∷ v) u = ap suc (length-times_loop (i + 1) v u)

  length-times_trans_loop : (i : ℕ) (v u : List f.F) → length (times_trans_loop f i v u) ≡ length v
  unfolding times_trans_loop
  length-times_trans_loop i [] u = refl
  length-times_trans_loop i (x ∷ v) u = ap suc (length-times_trans_loop (i + 1) v u)

  range_loop-times_loop :
      (i : ℕ) (v u : List f.F) → range_loop f false u (length v) i ≡ times_loop f i v u
  unfolding range_loop times_loop cell
  range_loop-times_loop i [] u = refl
  range_loop-times_loop i (x ∷ v) u = rw (range_loop-times_loop (i + 1) v u) refl

  range_loop-times_trans_loop :
      (i : ℕ) (v u : List f.F) → range_loop f true u (length v) i ≡ times_trans_loop f i v u
  unfolding range_loop times_trans_loop cell
  range_loop-times_trans_loop i [] u = refl
  range_loop-times_trans_loop i (x ∷ v) u = rw (range_loop-times_trans_loop (i + 1) v u) refl

  length-a_times_transp : (v u : List f.F) → length (a_times_transp f v u) ≡ length v
  unfolding a_times_transp
  length-a_times_transp v u = length-times_trans_loop 0 v _

module _ (f : Float) (arrive : ℕ → List (Chunk f.F) → List (Chunk f.F))
    (any_order : (call : ℕ) (sent : List (Chunk f.F)) → Perm (arrive call sent) sent) where
  multiply_at_a-transp :
      (call workers : ℕ) (v u : List f.F)
      → 0 < workers
      → length v ≡ length u
      → multiply_at_a f arrive call u workers ≡ ok (a_times_transp f v u)
  unfolding multiply_at_a a_times_transp
  multiply_at_a-transp call workers v u h same =
      let x = times_loop f 0 (replicate (length u) f.nought) u in
      let first : multiply f (arrive call) u false workers ≡ ok x =
        multiply-range_loop f false u (arrive call) workers (any_order call) h
        ∙ ap (λ n. ok (range_loop f false u n 0)) (sym (length-replicate (length u) f.nought))
        ∙ ap ok (range_loop-times_loop f 0 (replicate (length u) f.nought) u) in
      let sizes : length x ≡ length v =
        length-times_loop f 0 (replicate (length u) f.nought) u
        ∙ length-replicate (length u) f.nought
        ∙ sym same in
      rw (multiply_at_a, first)
        (multiply-range_loop f true x (arrive (call + 1)) workers (any_order (call + 1)) h
          ∙ ap (λ n. ok (range_loop f true x n 0)) sizes
          ∙ ap ok (range_loop-times_trans_loop f 0 v x))

  power_loop-same :
      (k call workers : ℕ) (u v : List f.F)
      → 0 < workers
      → length v ≡ length u
      → Parallel.power_loop f arrive k call u v workers ≡ ok (Sequential.power_loop f k u v)
  unfolding Parallel.power_loop Sequential.power_loop
  power_loop-same zero call workers u v h same = refl
  power_loop-same (suc k) call workers u v h same =
      let v' = a_times_transp f v u in
      let lv = length-a_times_transp f v u in
      let lu = length-a_times_transp f u v' in
      rw
        (
          Parallel.power_loop,
          multiply_at_a-transp call workers v u h same,
          multiply_at_a-transp (call + 2) workers u v' h (omega (arith, lv)),
        )
        (power_loop-same k (call + 4) workers (a_times_transp f u v') v' h (omega (arith, lu, lv)))

module _ (f : Float) where
  -- The last loop does not run past the end of a vector.
  dots-ok :
      (u v : List f.F) (ub vv : f.F)
      → length v ≡ length u
      → (sums : f.F × f.F) × (dots f u v ub vv ≡ ok sums)
  unfolding dots
  dots-ok u [] ub vv e = ((ub, vv), refl)
  dots-ok [] (y ∷ v) ub vv e = absurd (omega arith)
  dots-ok (x ∷ u) (y ∷ v) ub vv e = dots-ok u v _ _ (omega arith)

  length-power_loop :
      (k : ℕ) (u v : List f.F)
      → length v ≡ length u
      → length (Sequential.power_loop f k u v).1 ≡ length (Sequential.power_loop f k u v).0
  unfolding Sequential.power_loop
  length-power_loop zero u v e = e
  length-power_loop (suc k) u v e =
      let v' = a_times_transp f v u in
      length-power_loop k (a_times_transp f u v') v'
        (omega (arith, length-a_times_transp f v u, length-a_times_transp f u v'))

  norm-ok : (n : ℕ) → (r : f.F) × (Sequential.norm f (pos n) ≡ ok r)
  unfolding Sequential.norm
  norm-ok n =
      let ones = replicate n f.one in
      let (sums, e) =
        dots-ok (Sequential.power_loop f 10 ones ones).0 (Sequential.power_loop f 10 ones ones).1
          f.nought f.nought (length-power_loop 10 ones ones refl) in
      (f.sqrt (f.div sums.0 sums.1), rw (e) refl)

-- For every float arithmetic, every size and number of workers from 1 on, and every order in which
-- the chunks of each product arrive: neither program panics, and the parallel one prints the same
-- number as the sequential one.
pub norm-same :
    (f : Float) (arrive : ℕ → List (Chunk f.F) → List (Chunk f.F)) (n workers : ℕ)
    → ((call : ℕ) (sent : List (Chunk f.F)) → Perm (arrive call sent) sent)
    → 0 < n
    → 0 < workers
    → (r : f.F) × (Parallel.norm f arrive n workers ≡ ok r) × (Sequential.norm f (pos n) ≡ ok r)
unfolding Parallel.norm Sequential.norm
norm-same f arrive n workers any_order h h' =
    let ones = replicate n f.one in
    let team : 0 < (if ltb n workers then n else workers) = ground arith in
    let loops = power_loop-same f arrive any_order 10 0 _ ones ones team refl in
    let (r, e) = norm-ok f n in (r, rw (Parallel.norm, loops) e, e)
