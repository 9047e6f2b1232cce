-- ===== src/Tests/Channels.antt =====
-- The channels of examples/bench/shared-channel: a whole run, and the theorems about schedules.
use valk.Prelude.{ℕ, ◌+◌, ◌%◌, ◌≡◌, ◌⊎◌, refl, none, some, List, [], ◌∷◌, ◌++◌, ok}
use valk.Channel.{add_message, add_values, message}
use valk.Channel.Drained.{add_messages, messages}
use valk.Channel.Main.{Turn, producer, consumer, move, store, try_turn, open_pipe, all_drained, run}
use valk.Channel.Printed.{channel_total, ideal_line, run-same_checksum}
use valk.Channel.Progress.{run-completes}

abbrev digit : ℕ → List ℕ
digit n = (48 + n % 10) ∷ []

-- A producer of one message and its consumer, which looks before the message is there.
abbrev one_channel : ℕ → List Turn
one_channel p = consumer p ∷ producer p ∷ producer p ∷ consumer p ∷ consumer p ∷ producer p ∷ []

abbrev all_channels : List Turn
all_channels = one_channel 2 ++ one_channel 0 ++ one_channel 3 ++ one_channel 1

run-all_channels : run digit 1 all_channels ≡ ok (some (ideal_line digit 1))
unfolding run ideal_line try_turn move open_pipe store all_drained channel_total add_message
    add_messages add_values messages message
run-all_channels = refl

run-same_checksum_example :
    (run digit 1 all_channels ≡ ok none)
    ⊎ (run digit 1 all_channels ≡ ok (some (ideal_line digit 1)))
run-same_checksum_example = run-same_checksum digit 1 all_channels

run-completes_example :
    (more : List Turn) × (run digit 2 (one_channel 1 ++ more) ≡ ok (some (ideal_line digit 2)))
run-completes_example = run-completes digit 2 (one_channel 1)
