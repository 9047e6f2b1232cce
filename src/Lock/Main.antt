-- ===== src/Lock/Main.antt =====
-- `main` of examples/bench/shared-lock/main.go. The scheduler is a list of the goroutines' numbers.
-- `visit` is the order in which `range` goes through the map, and `parse_uint` is
-- `strconv.ParseUint` on 64 bits, its error ignored.
use Prim.Native.String.{String}
use valk.Prelude.{
  ℕ, zero, suc, Option, none, some, List, [], ◌∷◌, Bool, true, false, Result, ok, ◌>>=◌, map, ltb,
  if◌then◌else◌,
}
use valk.Prelude.Int.{pos, add64}
use valk.Prelude.Output.{int, Line, printf}
use valk.Prelude.Threads.{Threads, try_thread, all_done}
use valk.Prelude.Turns.{run_turns}
use valk.Lock.{words, Items, Counts, test, Worker, advance}

-- A goroutine at its start, and the four of them with their seeds.
unfoldable pub work : ℕ → ℕ → Worker
work updates seed = record { left = updates; r = seed; phase = test }

abbrev pub seeds : List ℕ
seeds = 1 ∷ 2 ∷ 3 ∷ 4 ∷ []

unfoldable pub start : ℕ → Threads Counts Worker
start updates = record {
  shared = record { held = false; items = [] };
  workers = map (work updates) seeds;
}

unfoldable pub is_done : Worker → Bool
is_done w = elim w.left [ zero ↦ elim w.phase [ test ↦ true | _ ↦ false ] | suc n ↦ false ]

-- The last loop of `main`: the sum and the greatest value.
unfoldable pub tally : ℕ → ℕ → List ℕ → ℕ × ℕ
tally total most [] = (total, most)
tally total most (value ∷ values) =
    tally (add64 total value) (if ltb most value then value else most) values

abbrev pub counts_line : ℕ → ℕ × ℕ → Line
counts_line count (total, most) =
    printf "keys: %d, updates: %d, most: %d\n"
      (int (pos count) ∷ int (pos total) ∷ int (pos most) ∷ [])

-- `wg.Wait` lets nothing be printed before every goroutine has finished.
unfoldable pub run : (ℕ → List ℕ) → (Items → Items) → ℕ → ℕ → List ℕ → Result (Option Line)
unfolding start
run format_uint visit count updates schedule = do
  s ← run_turns (try_thread (advance (words format_uint count))) (start updates) schedule
  let values = map (λ item. item.1) (visit s.shared.items)
  ok (if all_done is_done s.workers then some (counts_line count (tally 0 0 values)) else none)

-- The arguments, or 10000 and 2000000.
unfoldable pub parse_args : (String → ℕ) → List String → ℕ × ℕ
parse_args parse_uint (program ∷ a ∷ b ∷ rest) = (parse_uint a, parse_uint b)
parse_args parse_uint (program ∷ a ∷ []) = (parse_uint a, 2000000)
parse_args parse_uint _ = (10000, 2000000)

unfoldable pub main :
    (String → ℕ) → (ℕ → List ℕ) → (Items → Items) → List String → List ℕ → Result (Option Line)
unfolding run parse_args
main parse_uint format_uint visit args schedule =
    let parsed = parse_args parse_uint args in run format_uint visit parsed.0 parsed.1 schedule
