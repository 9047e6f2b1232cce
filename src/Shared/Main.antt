-- ===== src/Shared/Main.antt =====
-- `main` of examples/bench/shared-cache/main.go. The scheduler is a list of the goroutines' numbers,
-- in the order in which they try a step; one that is blocked or has finished stays where it is.
-- `parse_uint` is `strconv.ParseUint` on 64 bits, its error ignored.
use Prim.Native.String.{String}
use valk.Prelude.{
  ℕ, zero, suc, ◌+◌, ◌*◌, ◌%◌, ◌^◌, Option, none, some, List, [], ◌∷◌, Bool, true, false, ◌&&◌,
  Result, ok, panic, ◌>>=◌, map, get_elem?, set, if◌then◌else◌,
}
use valk.Prelude.Int.{pos}
use valk.Prelude.Output.{int, Line, printf}
use valk.Prelude.Turns.{run_turns}
use valk.Shared.{
  entry, Items, store_item, Cache, test, Worker, moved, blocked, finished, panicked, Move, advance,
  add_all,
}

pub record State : Type 0 where
  pub cache : Cache
  pub workers : List Worker

unfoldable pub apply : State → ℕ → Move → Result State
apply s t (moved c w) = ok (record { cache = c; workers = set s.workers t w })
apply s t blocked = ok s
apply s t finished = ok s
apply s t panicked = panic

-- Goroutine `t` tries a step; the program has no others.
unfoldable pub try_step : (ℕ → List ℕ) → ℕ → State → ℕ → Result State
try_step format_uint slots s t = elim (get_elem? s.workers t) [
  | none ↦ ok s
  | some w ↦ apply s t (advance format_uint slots s.cache w)
]

unfoldable pub run_schedule : (ℕ → List ℕ) → ℕ → State → List ℕ → Result State
run_schedule format_uint slots s schedule = run_turns (try_step format_uint slots) s schedule

-- The loop that fills the cache, on the iterations left.
unfoldable pub fill : (ℕ → List ℕ) → ℕ → ℕ → Items → Items
fill format_uint zero i items = items
fill format_uint (suc n) i items =
    fill format_uint n (i + 1) (store_item i (entry format_uint i) items)

abbrev pub no_items : Items
no_items k = none

-- A goroutine at its start, and the four of them with their seeds.
unfoldable pub work : ℕ → ℕ → Worker
work operations seed = record { left = operations; r = seed; total = 0; phase = test }

abbrev pub seeds : List ℕ
seeds = 1 ∷ 2 ∷ 3 ∷ 4 ∷ []

unfoldable pub start : (ℕ → List ℕ) → ℕ → ℕ → State
start format_uint slots operations = record {
  cache = record { held = false; items = fill format_uint slots 0 no_items };
  workers = map (work operations) seeds;
}

unfoldable pub is_done : Worker → Bool
is_done w = elim w.left [ zero ↦ elim w.phase [ test ↦ true | _ ↦ false ] | suc n ↦ false ]

unfoldable pub all_done : List Worker → Bool
all_done [] = true
all_done (w ∷ ws) = is_done w && all_done ws

abbrev pub checksum_line : ℕ → ℕ → ℕ → Line
checksum_line slots operations total =
    printf "slots: %d, operations: %d, checksum: %d\n"
      (int (pos slots) ∷ int (pos ((operations * 4) % 2 ^ 64)) ∷ int (pos total) ∷ [])

-- The arguments, or 100000 and 2000000.
unfoldable pub parse_args : (String → ℕ) → List String → ℕ × ℕ
parse_args parse_uint (program ∷ a ∷ b ∷ rest) = (parse_uint a, parse_uint b)
parse_args parse_uint (program ∷ a ∷ []) = (parse_uint a, 2000000)
parse_args parse_uint _ = (100000, 2000000)

-- `wg.Wait` lets nothing be printed before every goroutine has finished.
unfoldable pub run : (ℕ → List ℕ) → ℕ → ℕ → List ℕ → Result (Option Line)
unfolding run_schedule start
run format_uint slots operations schedule = do
  s ← run_schedule format_uint slots (start format_uint slots operations) schedule
  let total = add_all 0 (map (λ w. w.total) s.workers)
  ok (if all_done s.workers then some (checksum_line slots operations total) else none)

unfoldable pub main : (String → ℕ) → (ℕ → List ℕ) → List String → List ℕ → Result (Option Line)
unfolding run parse_args
main parse_uint format_uint args schedule =
    let parsed = parse_args parse_uint args in run format_uint parsed.0 parsed.1 schedule
