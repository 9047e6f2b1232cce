-- ===== src/Spectral/Chunks.antt =====
-- The chunks that `multiply` of examples/bench/spectral-norm-multi/main.go starts cover every row.
use mathlib.Core.List.{Mem, Memᴰ, Perm}
use mathlib.Core.List.Perm
use mathlib.Core.Logic.Or
use mathlib.Core.Logic.{∥∥₁_elim}
use mathlib.Core.Path.{subst}
use native.Mathlib.Bridge.{le_prop}
use native.Mathlib.Nat.{div-add-mod}
use valk.Prelude.{
  ℕ, zero, suc, ◌+◌, ◌-◌, ◌*◌, ◌/◌, ◌%◌, ◌≤◌, ◌<◌, ◌≡◌, refl, ◌∙◌, sym, ap, ◌⊎◌, inl, inr, some,
  List, [], ◌∷◌, Bool, true, false, arith, ok, length, get_elem?, replicate, length-replicate, ltb,
  ◌==◌, if◌then◌else◌, Bool-cases,
}
use valk.Prelude.Gather.{mem_of_get_elem?, get_elem?_of_mem, eq_of_get_elem?, get_elem?-lt}
use valk.Spectral.{Float}
use valk.Spectral.Cells.{IsPart, Covers, receive-Known, eq_prop}
use valk.Spectral.Parallel.{Chunk, cell, range_loop, multiply_range, start_workers, multiply}

get_elem?-cons_cases :
    {A : Type 0} (x : A) (xs : List A) (t : ℕ) {c : A}
    → get_elem? (x ∷ xs) t ≡ some c
    → (x ≡ c) ⊎ ((u : ℕ) × (get_elem? xs u ≡ some c))
get_elem?-cons_cases x xs zero e = inl cc
get_elem?-cons_cases x xs (suc t) e = inr (t, e)

module _ (f : Float) (transpose : Bool) (input : List f.F) where
  length-range_loop : (n i : ℕ) → length (range_loop f transpose input n i) ≡ n
  unfolding range_loop
  length-range_loop zero i = refl
  length-range_loop (suc n) i = ap suc (length-range_loop n (i + 1))

  get_elem?-range_loop :
      (n i k : ℕ)
      → k < n
      → get_elem? (range_loop f transpose input n i) k ≡ some (cell f transpose input (i + k))
  unfolding range_loop
  get_elem?-range_loop zero i k h = absurd (omega arith)
  get_elem?-range_loop (suc n) i zero h = let z : i + 0 ≡ i = omega arith in rw (z) refl
  get_elem?-range_loop (suc n) i (suc k) h =
      let z : i + suc k ≡ i + 1 + k = omega arith in
      rw (z) (get_elem?-range_loop n (i + 1) k (omega arith))

  multiply_range-IsPart :
      (start end : ℕ)
      → start ≤ end
      → end ≤ length input
      → IsPart f.F_set
          (cell f transpose input)
          (length input)
          (multiply_range f input start end transpose)
  unfolding multiply_range
  multiply_range-IsPart start end h l =
      let n = length-range_loop (end - start) start in
      (omega arith, λ k lt. get_elem?-range_loop (end - start) start k (omega arith))

  abbrev end_of : ℕ → ℕ → ℕ
  end_of size worker =
      let end = worker * size + size in if ltb (length input) end then length input else end

  start_workers-more :
      (size left worker : ℕ)
      → ltb (worker * size) (length input) ≡ true
      → start_workers f input transpose size (suc left) worker
        ≡ multiply_range f input (worker * size) (end_of size worker) transpose
          ∷ start_workers f input transpose size left (worker + 1)
  unfolding start_workers
  start_workers-more size left worker h = rw (start_workers, h) refl

  start_workers-past :
      (size left worker : ℕ)
      → ltb (worker * size) (length input) ≡ false
      → start_workers f input transpose size (suc left) worker ≡ []
  unfolding start_workers
  start_workers-past size left worker h = rw (start_workers, h) refl

  -- Each chunk is a part of the product.
  start_workers-IsPart :
      (chunk_size left worker t : ℕ) (c : Chunk f.F)
      → get_elem? (start_workers f input transpose chunk_size left worker) t ≡ some c
      → IsPart f.F_set (cell f transpose input) (length input) c
  unfolding start_workers
  start_workers-IsPart size zero worker t c e = cc
  start_workers-IsPart size (suc left) worker t c e =
      elim (Bool-cases (ltb (worker * size) (length input))) [
        | inl h ↦
            let e' = ap (λ l. get_elem? l t) (sym (start_workers-more size left worker h)) ∙ e in
            elim (get_elem?-cons_cases _ _ t e') [
              | inl same ↦ subst (IsPart f.F_set (cell f transpose input) (length input)) same (
                  multiply_range-IsPart (worker * size) (end_of size worker) (ground arith)
                    (ground arith))
              | inr (u, later) ↦ start_workers-IsPart size left (worker + 1) u c later
            ]
        | inr h ↦
            let e' = ap (λ l. get_elem? l t) (sym (start_workers-past size left worker h)) ∙ e in cc
      ]

  -- Every row from the first of `worker` on is in a chunk, up to the last of the workers left.
  start_workers-Covers :
      (chunk_size left worker i : ℕ)
      → i < length input
      → worker * chunk_size ≤ i
      → i < (worker + left) * chunk_size
      → (t : ℕ) × (c : Chunk f.F) × (get_elem?
            (start_workers f input transpose chunk_size left worker)
            t
          ≡ some c)
        × Covers f.F_set (cell f transpose input) (length input) i c
  unfolding multiply_range
  start_workers-Covers size zero worker i l from to = absurd (grind arith)
  start_workers-Covers size (suc left) worker i l from to =
      elim (Bool-cases (ltb i (worker * size + size))) [
        | inl here ↦
            let h : ltb (worker * size) (length input) ≡ true = ground arith in
            let part = multiply_range f input (worker * size) (end_of size worker) transpose in
            let n = length-range_loop (end_of size worker - worker * size) (worker * size) in
            (
              0,
              part,
              ap (λ l. get_elem? l 0) (start_workers-more size left worker h),
              (from, let b : i < end_of size worker = ground arith in omega (arith, n, b)),
            )
        | inr later ↦
            let h : ltb (worker * size) (length input) ≡ true = ground arith in
            let next : (worker + 1) * size ≡ worker * size + size = grind arith in
            let more : (worker + 1 + left) * size ≡ (worker + suc left) * size =
              ap (λ w. w * size) (omega arith) in
            let (t, c, e, covers) =
              start_workers-Covers size left (worker + 1) i l (ground arith) (omega arith) in
            (
              suc t,
              c,
              ap (λ l. get_elem? l (suc t)) (start_workers-more size left worker h) ∙ e,
              covers,
            )
      ]

  IsPart-of_mem :
      (size workers : ℕ) (c : Chunk f.F)
      → Mem c (start_workers f input transpose size workers 0)
      → IsPart f.F_set (cell f transpose input) (length input) c
  IsPart-of_mem size workers c m =
      let found = λ (d : Memᴰ c (start_workers f input transpose size workers 0)).
        let (t, e) = get_elem?_of_mem _ d in start_workers-IsPart size workers 0 t c e in
      (
        ∥∥₁_elim m le_prop (λ d. (found d).0),
        λ k l.
            ∥∥₁_elim m (eq_prop f.F_set (cell f transpose input) (length input) _ _)
              (λ d. (found d).1 k l),
      )

  -- The workers' chunks are as many rows as there are.
  rows-le :
      (workers : ℕ)
      → 0 < workers
      → length input ≤ workers * ((length input + workers - 1) / workers)
  rows-le workers h =
      let d = div-add-mod (length input + workers - 1) workers in
      let m : (length input + workers - 1) % workers < workers = grind arith in omega arith

  -- For one worker or more, and in whatever order the chunks that the workers send arrive: the
  -- product does not panic, and it is the rows of the matrix times the input, each row once and at
  -- its place, as one pass over all rows gives them.
  pub multiply-range_loop :
      (arrive : List (Chunk f.F) → List (Chunk f.F)) (workers : ℕ)
      → ((sent : List (Chunk f.F)) → Perm (arrive sent) sent)
      → 0 < workers
      → multiply f arrive input transpose workers
        ≡ ok (range_loop f transpose input (length input) 0)
  unfolding multiply
  multiply-range_loop arrive workers any_order h =
      let size = (length input + workers - 1) / workers in
      let sent = start_workers f input transpose size workers 0 in
      let n = length input in
      let (out, run, e, all_known) =
        receive-Known f.F_set (cell f transpose input) n (arrive sent) (replicate n f.nought)
          (λ c m. IsPart-of_mem size workers c ((Perm.mem_iff (any_order sent)).0 m))
          (length-replicate n f.nought) in
      let busy : (workers == 0) ≡ false = ground (arith, h) in
      let at : (i : ℕ) → i < n → get_elem? out i ≡ some (cell f transpose input i) = λ i l.
        let (t, c, found, covers) =
          start_workers-Covers size workers 0 i l (omega arith)
            (omega (arith, rows-le workers h)) in
        all_known i
          (Or.inr (c, (Perm.mem_iff (any_order sent)).1 (mem_of_get_elem? sent t found), covers)) in
      rw (multiply, busy)
        (run
          ∙ ap ok (
              eq_of_get_elem? out (range_loop f transpose input n 0)
                (e ∙ sym (length-range_loop n 0))
                (λ i x there.
                  let l : i < n = omega (arith, get_elem?-lt _ i there, length-range_loop n 0) in
                  let z : 0 + i ≡ i = omega arith in
                  at i l
                  ∙ ap (λ k. some (cell f transpose input k)) (sym z)
                  ∙ sym (get_elem?-range_loop n 0 i l)
                  ∙ there)))
