-- ===== src/Spectral/Parallel.antt =====
-- `multiply` and `main` of examples/bench/spectral-norm-multi/main.go: each goroutine sends a chunk of
-- the product on a channel with room for all of them. The order in which the chunks of a call arrive
-- is up to the scheduler: the parameter `arrive`. `atoi` is `strconv.Atoi`, `args` is `os.Args`.
use Prim.Native.String.{String}
use valk.Prelude.{
  ℕ, zero, suc, ◌+◌, ◌-◌, ◌*◌, ◌/◌, Option, none, some, List, [], ◌∷◌, Bool, true, false, Result,
  ok, panic, ◌>>=◌, length, get_elem?, replicate, ltb, ◌==◌, if◌then◌else◌,
}
use valk.Prelude.Int.{ℤ, pos, negsuc}
use valk.Spectral.{Float, eval_a, row, dots}

pub record Chunk (F : Type 0) : Type 0 where
  pub start : ℕ
  pub values : List F

-- `copy(out, values)`: as many elements as there is room for.
unfoldable pub copy : {F : Type 0} → List F → List F → List F
copy [] values = []
copy (x ∷ out) [] = x ∷ out
copy (x ∷ out) (value ∷ values) = value ∷ copy out values

-- `copy(out[start:], values)`; a start past the end of `out` panics.
unfoldable pub copy_from : {F : Type 0} → ℕ → List F → List F → Result (List F)
unfolding copy
copy_from zero out values = ok (copy out values)
copy_from (suc start) [] values = panic
copy_from (suc start) (x ∷ out) values = do rest ← copy_from start out values; ok (x ∷ rest)

-- The loop that receives the chunks.
unfoldable pub receive : {F : Type 0} → List (Chunk F) → List F → Result (List F)
unfolding copy_from
receive [] out = ok out
receive (c ∷ chunks) out = do out' ← copy_from c.start out c.values; receive chunks out'

-- The argument at an index, or the fallback; one that is no positive number panics.
unfoldable pub positive_arg : (String → Option ℤ) → List String → ℕ → ℕ → Result ℕ
positive_arg atoi args index fallback = elim (get_elem? args index) [
  | none ↦ ok fallback
  | some arg ↦ elim (atoi arg) [
    | none ↦ panic
    | some value ↦ elim value [ pos n ↦ if n == 0 then panic else ok n | negsuc n ↦ panic ]
  ]
]

module _ (f : Float) where
  open f use {F, nought, one, div, sqrt}

  -- `sum` of row `i`.
  unfoldable pub cell : Bool → List F → ℕ → F
  unfolding row
  cell transpose input i =
      row f (λ j. if transpose then eval_a f j i else eval_a f i j) 0 nought input

  -- The loop of `multiplyRange` over `n` rows from row `i` on.
  unfoldable pub range_loop : Bool → List F → ℕ → ℕ → List F
  unfolding cell
  range_loop transpose input zero i = []
  range_loop transpose input (suc n) i =
      cell transpose input i ∷ range_loop transpose input n (i + 1)

  unfoldable pub multiply_range : List F → ℕ → ℕ → Bool → Chunk F
  unfolding range_loop
  multiply_range input start end transpose = record {
    start = start;
    values = range_loop transpose input (end - start) start;
  }

  -- The loop that starts the goroutines, on the workers left, with what each sends.
  unfoldable pub start_workers : List F → Bool → ℕ → ℕ → ℕ → List (Chunk F)
  unfolding multiply_range
  start_workers input transpose chunk_size zero worker = []
  start_workers input transpose chunk_size (suc n) worker =
      let start = worker * chunk_size in
      let end = start + chunk_size in
      elim (ltb start (length input)) [
        | false ↦ []
        | true ↦
            multiply_range input start (if ltb (length input) end then length input else end)
              transpose
            ∷ start_workers input transpose chunk_size n (worker + 1)
      ]

  -- No workers: the division panics.
  unfoldable pub multiply : (List (Chunk F) → List (Chunk F)) → List F → Bool → ℕ → Result (List F)
  unfolding receive start_workers
  multiply arrive input transpose workers =
      if workers == 0
      then panic
      else (let chunk_size = (length input + workers - 1) / workers in
          let sent = start_workers input transpose chunk_size workers 0 in
          receive (arrive sent) (replicate (length input) nought))

  -- `multiplyAtA` as the calls with numbers `call` and `call + 1`.
  unfoldable pub multiply_at_a :
      (ℕ → List (Chunk F) → List (Chunk F)) → ℕ → List F → ℕ → Result (List F)
  unfolding multiply
  multiply_at_a arrive call input workers = do
    product ← multiply (arrive call) input false workers
    multiply (arrive (call + 1)) product true workers

  -- The rounds left, with `u` and `v`.
  unfoldable pub power_loop :
      (ℕ → List (Chunk F) → List (Chunk F)) → ℕ → ℕ → List F → List F → ℕ → Result (List F × List F)
  unfolding multiply_at_a
  power_loop arrive zero call u v workers = ok (u, v)
  power_loop arrive (suc k) call u v workers = do
    v' ← multiply_at_a arrive call u workers
    u' ← multiply_at_a arrive (call + 2) v' workers
    power_loop arrive k (call + 4) u' v' workers

  -- `main` from the arguments on.
  unfoldable pub norm : (ℕ → List (Chunk F) → List (Chunk F)) → ℕ → ℕ → Result F
  unfolding power_loop dots
  norm arrive n workers = do
    let team = if ltb n workers then n else workers
    (u, v) ← power_loop arrive 10 0 (replicate n one) [] team
    (uv, vv) ← dots f u v nought nought
    ok (sqrt (div uv vv))

  unfoldable pub main :
      (String → Option ℤ) → (ℕ → List (Chunk F) → List (Chunk F)) → List String → Result F
  unfolding norm positive_arg
  main atoi arrive args = do
    n ← positive_arg atoi args 1 8000
    workers ← positive_arg atoi args 2 4
    norm arrive n workers
