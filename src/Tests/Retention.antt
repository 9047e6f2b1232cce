-- ===== src/Tests/Retention.antt =====
-- The benchmarks of gc-multi and objects at small sizes, and the theorems at them.
use valk.Prelude.{ℕ, ◌+◌, ◌*◌, ◌≤◌, ◌<◌, ◌≡◌, ◌⊎◌, refl, none, some, List, [], ◌∷◌, ◌++◌, arith, ok}
use valk.Prelude.Int.{pos}
use valk.Chain.{Heap}
use valk.Objects
use valk.Objects.{State}
use valk.GcMulti.{Memory, Stats, Pauses, fragment, fragment_lines, natural_loop, max_pause}
use valk.GcMulti.Main.{Sizes, suite, print_all}
use valk.GcMulti.Measured.{IsMeasured, max_pause-greatest}
use valk.GcMulti.Retained.{fragment-checksum}
use valk.GcMulti.Suite.{IsSized, single_lines, suite-prints}
use valk.GcMulti.Threads.{mt_local_lines, mt_shared_lines}

abbrev empty : Heap
empty = record { fresh = 0; node = λ a. record { next = none; payload = 0 } }

abbrev memory : Memory
memory = record { heap = empty; sink = none }

abbrev measured : Stats
measured = record {
  us = 3;
  alloc = 4096;
  sys = 8192;
  heap_inuse = 4096;
  num_gc = 300;
  pause_total_ns = 9000;
  pause_ns = λ j. j * 10;
  gc_cpu_fraction = "0.01";
  total_alloc = 1048576;
}

abbrev small_sizes : Sizes
small_sizes = record {
  per = 2;
  iters = 2;
  depth = 1;
  amount = 65;
  rounds = 3;
  batch = 8;
  live = 3;
  total = 5;
  pause_batch = 2;
  live_n = 2;
  churn = 4;
}

natural_loop-kept : (natural_loop 130 0 [] memory).0 ≡ 0 ∷ 64 ∷ 128 ∷ []
unfolding natural_loop
natural_loop-kept = refl

max_pause-ring : max_pause measured ≡ 2550
unfolding max_pause
max_pause-ring = refl

fragment-checksum_example : (fragment 3 8 measured memory).0 ≡ fragment_lines 3 8 (pos 12) measured
fragment-checksum_example = fragment-checksum 3 8 measured memory (omega arith)

small_sizes-IsSized : IsSized small_sizes
small_sizes-IsSized = record {
  small = omega arith;
  some_live = omega arith;
  some_batch = omega arith;
  some_live_n = omega arith;
}

suite-prints_example :
    (more more' : List ℕ) × (p : Pauses) × (5 ≤ p.batches * 2)
    × (p.batches * 2 < 5 + 2)
    × IsMeasured (λ i. i * i) p
    × (suite small_sizes 4
          (λ i. measured)
          (λ i. i * i)
          ((0 ∷ 0 ∷ 1 ∷ []) ++ more)
          ((3 ∷ 2 ∷ 3 ∷ 2 ∷ 3 ∷ []) ++ more')
          memory
        ≡ ok (
            some (
              print_all 4
                (λ i. measured)
                (mt_local_lines 2 measured)
                (mt_shared_lines 2 1 measured)
                (single_lines small_sizes (λ i. measured) p))))
suite-prints_example =
    suite-prints small_sizes 4 (λ i. measured) (λ i. i * i) (0 ∷ 0 ∷ 1 ∷ [])
      (3 ∷ 2 ∷ 3 ∷ 2 ∷ 3 ∷ []) memory small_sizes-IsSized

max_pause-of_measured :
    ((j : ℕ) → j < 256 → j < 300 → j * 10 ≤ max_pause measured)
    × ((max_pause measured ≡ 0) ⊎ ((j : ℕ) × (j < 256) × (j < 300) × (j * 10 ≡ max_pause measured)))
max_pause-of_measured = max_pause-greatest measured

abbrev objects_state : State
objects_state = record { heap = empty; keep = none }

objects_example :
    (h : Heap) × (Objects.main 5 (λ i. i) (λ i. i * 4096) (λ i. i * 1024) objects_state
      ≡ ok (
        Objects.main_lines 5 (λ i. i) (λ i. i * 4096) (λ i. i * 1024),
        record { heap = h; keep = none },
      ))
objects_example = Objects.main-verify 5 (λ i. i) (λ i. i * 4096) (λ i. i * 1024) objects_state
