-- ===== src/Tests/Broadcasts.antt =====
-- The inboxes of examples/bench/shared-broadcast: a whole run, and the theorems about schedules.
use valk.Broadcast.{render}
use valk.Prelude.Turns.{run_turns}
use valk.Prelude.{zero, suc, ℕ, ◌+◌, ◌%◌, ◌≡◌, ◌⊎◌, refl, none, some, List, [], ◌∷◌, ◌++◌, ok}
use valk.Broadcast.Main.{Turn, main_turn, subscriber, run, try_turn, is_done, all_drained}
use valk.Broadcast.Printed.{ideal_line, run-all_delivered, run-all_return, subscriber_total}

abbrev digit : ℕ → List ℕ
digit n = (48 + n % 10) ∷ []

abbrev main_turns : ℕ → List Turn
main_turns zero = []
main_turns (suc n) = main_turn ∷ main_turns n

abbrev subscribers : List Turn
subscribers = subscriber 2 ∷ subscriber 0 ∷ subscriber 3 ∷ subscriber 1 ∷ []

-- One message: the subscribers look too early, get it, and see their inboxes closed.
abbrev whole_run : List Turn
whole_run = subscribers ++ (main_turns 6 ++ (subscribers ++ (main_turns 6 ++ subscribers)))

run-whole_run : run digit 1 whole_run ≡ ok (some (ideal_line digit 1))
unfolding run ideal_line run_turns try_turn is_done all_drained subscriber_total render
run-whole_run = refl

run-all_delivered_example :
    (run digit 1 whole_run ≡ ok none) ⊎ (run digit 1 whole_run ≡ ok (some (ideal_line digit 1)))
run-all_delivered_example = run-all_delivered digit 1 whole_run

run-all_return_example :
    (more : List Turn) × (run digit 2 (main_turns 3 ++ more) ≡ ok (some (ideal_line digit 2)))
run-all_return_example = run-all_return digit 2 (main_turns 3)
