-- ===== src/Tests/Goroutines.antt =====
-- The goroutines of examples/bench/shared-cache: a whole run of one operation each, and the theorems
-- about schedules.
use valk.Prelude.Turns.{run_turns}
use valk.Prelude.{ℕ, ◌+◌, ◌%◌, ◌≡◌, ◌⊎◌, refl, none, some, List, [], ◌∷◌, ◌++◌, arith, ok, panic}
use valk.Random.{next64}
use valk.Shared.{advance, store_item}
use valk.Shared.Alone.{holding, bit}
use valk.Shared.Main.{
  State, run_schedule, start, run, try_step, apply, work, all_done, is_done, fill,
}
use valk.Shared.Printed.{ideal_line, run-same_line, run_schedule-exclusive}
use valk.Shared.Progress.{run-finishes}
use valk.Prelude.Updates.{sum_of}

abbrev digit : ℕ → List ℕ
digit n = (48 + n % 10) ∷ []

-- Goroutines 0 and 1 meet at the lock; 1 waits for 0.
abbrev meeting : List ℕ
meeting = 0 ∷ 1 ∷ 0 ∷ 1 ∷ 0 ∷ 1 ∷ 0 ∷ 1 ∷ 1 ∷ 1 ∷ 2 ∷ 2 ∷ 2 ∷ 2 ∷ 3 ∷ 3 ∷ 3 ∷ 3 ∷ []

run-meeting : run digit 3 1 meeting ≡ ok (some (ideal_line digit 3 1))
unfolding run ideal_line try_step apply advance work next64 all_done is_done store_item fill
    run_turns
run-meeting = refl

run_no_slots : run digit 0 1 meeting ≡ panic
unfolding run try_step apply advance work run_turns
run_no_slots = refl

run-same_line_example :
    (run digit 3 1 meeting ≡ ok none) ⊎ (run digit 3 1 meeting ≡ ok (some (ideal_line digit 3 1)))
run-same_line_example = run-same_line digit 3 1 meeting (omega arith)

run_schedule-exclusive_example :
    (s : State) × (run_schedule digit 3 (start digit 3 1) (0 ∷ 1 ∷ 0 ∷ 1 ∷ []) ≡ ok s)
    × (sum_of holding s.workers ≡ bit s.cache.held)
run_schedule-exclusive_example = run_schedule-exclusive digit 3 1 (0 ∷ 1 ∷ 0 ∷ 1 ∷ []) (omega arith)

run-finishes_example :
    (more : List ℕ) × (run digit 3 1 ((0 ∷ 1 ∷ 0 ∷ 1 ∷ []) ++ more)
      ≡ ok (some (ideal_line digit 3 1)))
run-finishes_example = run-finishes digit 3 1 (0 ∷ 1 ∷ 0 ∷ 1 ∷ []) (omega arith)
