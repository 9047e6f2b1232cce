-- ===== src/Tests/Locks.antt =====
-- The goroutines of examples/bench/shared-lock: a whole run, and the theorems about schedules.
use valk.Random.{next64}
use valk.Prelude.Bytes.{same_bytes}
use valk.Prelude.Threads.{try_thread, all_done}
use valk.Prelude.Turns.{run_turns}
use mathlib.Core.List.Perm
use valk.Prelude.{ℕ, ◌+◌, ◌*◌, ◌%◌, ◌≡◌, ◌⊎◌, refl, none, some, List, [], ◌∷◌, ◌++◌, arith, ok}
use valk.Lock.{Items, words, advance, set_value, key_at, value_at}
use valk.Lock.Main.{counts_line, run, work, is_done, tally}
use valk.Lock.Printed.{IsMost, run-no_lost_update, run-all_counted}

abbrev digit : ℕ → List ℕ
digit n = (48 + n % 10) ∷ []

abbrev in_order : Items → Items
in_order items = items

-- Goroutines 0 and 1 meet at the lock; 1 waits for 0.
abbrev meeting : List ℕ
meeting =
    0 ∷ 1 ∷ 0 ∷ 1 ∷ 0 ∷ 1 ∷ 0 ∷ 1 ∷ 0 ∷ 1 ∷ 1 ∷ 1 ∷ 1 ∷ 2 ∷ 2 ∷ 2 ∷ 2 ∷ 2 ∷ 3 ∷ 3 ∷ 3 ∷ 3 ∷ 3 ∷ []

run-meeting : run digit in_order 2 1 meeting ≡ ok (some (counts_line 2 (4, 2)))
unfolding run run_turns try_thread advance work words all_done is_done tally set_value same_bytes
    key_at next64 value_at
run-meeting = refl

run-no_lost_update_example :
    (run digit in_order 2 1 meeting ≡ ok none)
    ⊎ ((most : ℕ) × IsMost (words digit 2) 1 most
        × (run digit in_order 2 1 meeting ≡ ok (some (counts_line 2 (1 * 4, most)))))
run-no_lost_update_example =
    run-no_lost_update digit in_order 2 1 meeting (λ items. Perm.refl items) (omega arith)
      (omega arith)

run-all_counted_example :
    (more : List ℕ) × (most : ℕ) × IsMost (words digit 2) 1 most
    × (run digit in_order 2 1 ((0 ∷ 1 ∷ 0 ∷ []) ++ more) ≡ ok (some (counts_line 2 (1 * 4, most))))
run-all_counted_example =
    run-all_counted digit in_order 2 1 (0 ∷ 1 ∷ 0 ∷ []) (λ items. Perm.refl items) (omega arith)
      (omega arith)
